-- ===== src/Transactions/Payload/Properties.antt =====
-- include/transaction/esdt.h, src/transaction/esdt.cpp and the anonymous functions of
-- src/transaction/payload_builder.cpp: the properties of a token.
use mx_sdk_cpp.Common.{Bool, true, false, ◌&&◌, not, ◌++◌, Bytes, codes, if◌then◌else◌}
use mx_sdk_cpp.Utils.Hex.{string_to_hex}

pub record EsdtProperties : Type 0 where
  pub can_freeze : Bool
  pub can_wipe : Bool
  pub can_pause : Bool
  pub can_mint : Bool
  pub can_burn : Bool
  pub can_change_owner : Bool
  pub can_upgrade : Bool
  pub can_add_special_roles : Bool
  pub can_transfer_nft_create_role : Bool

-- ESDT_ISSUANCE_DEFAULT_PROPERTIES
abbrev pub default_properties : EsdtProperties
default_properties = record {
  can_freeze = false;
  can_wipe = false;
  can_pause = false;
  can_mint = false;
  can_burn = false;
  can_change_owner = false;
  can_upgrade = false;
  can_add_special_roles = false;
  can_transfer_nft_create_role = false;
}

abbrev same : Bool → Bool → Bool
same true b = b
same false b = not b

-- operator== on ESDTProperties
unfoldable pub equal : EsdtProperties → EsdtProperties → Bool
equal l r =
    same l.can_freeze r.can_freeze
    && (same l.can_wipe r.can_wipe
        && (same l.can_pause r.can_pause
            && (same l.can_mint r.can_mint
                && (same l.can_burn r.can_burn
                    && (same l.can_change_owner r.can_change_owner
                        && (same l.can_upgrade r.can_upgrade
                            && (same l.can_add_special_roles r.can_add_special_roles
                                && same l.can_transfer_nft_create_role
                                    r.can_transfer_nft_create_role)))))))

-- ESDTPropertyField
unfoldable pub property_field : Bytes → Bool → Bytes
property_field property val =
    codes "@"
    ++ string_to_hex property
    ++ codes "@"
    ++ string_to_hex (if val then codes "true" else codes "false")

-- operator!= on ESDTProperties
unfoldable pub differ : EsdtProperties → EsdtProperties → Bool
unfolding equal
differ l r = not (equal l r)

-- ESDTPropertiesAsOnData
unfoldable pub properties_as_on_data : EsdtProperties → Bytes
unfolding property_field
properties_as_on_data p =
    property_field (codes "canFreeze") p.can_freeze
    ++ property_field (codes "canWipe") p.can_wipe
    ++ property_field (codes "canPause") p.can_pause
    ++ property_field (codes "canMint") p.can_mint
    ++ property_field (codes "canBurn") p.can_burn
    ++ property_field (codes "canChangeOwner") p.can_change_owner
    ++ property_field (codes "canUpgrade") p.can_upgrade
    ++ property_field (codes "canAddSpecialRoles") p.can_add_special_roles
    ++ property_field (codes "canTransferNFTCreateRole") p.can_transfer_nft_create_role
