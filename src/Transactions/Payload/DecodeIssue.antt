-- ===== src/Transactions/Payload/DecodeIssue.antt =====
-- The data field that issues a token, cut at the separators.
use mx_sdk_cpp.Common.{
  ℕ, ◌≡◌, ◌≢◌, inl, inr, refl, Bool, Bool-cases, true, false, List, [], ◌∷◌, ◌++◌, append_assoc,
  append-nil, Bytes, codes, All, IsByte, if◌then◌else◌, ok, arith,
}
use mx_sdk_cpp.Utils.Hex.{string_to_hex}
use mx_sdk_cpp.Utils.Hex.Errors.{IsHexDigit}
use mx_sdk_cpp.Libraries.Integers.{IntegerLib, IntegerLaws}
use mx_sdk_cpp.BigUInt.Arithmetic.{Represents}
use mx_sdk_cpp.SmartContracts.{add_string, as_on_data}
use mx_sdk_cpp.SmartContracts.Fields.{
  fields, separated, Lacks, string_to_hex-IsHexDigit, string_to_hex-Lacks,
}
use mx_sdk_cpp.Transactions.Payload.Properties.{
  EsdtProperties, default_properties, equal, differ, property_field, properties_as_on_data,
}
use mx_sdk_cpp.Transactions.Payload.Issue
use mx_sdk_cpp.Transactions.Payload.Decode.{Field, fields-behind, number-Field, u64-Field}

-- The properties in the order in which they are written.
abbrev pub property_list : EsdtProperties → List (Bytes × Bool)
property_list p =
    (codes "canFreeze", p.can_freeze)
    ∷ (codes "canWipe", p.can_wipe)
    ∷ (codes "canPause", p.can_pause)
    ∷ (codes "canMint", p.can_mint)
    ∷ (codes "canBurn", p.can_burn)
    ∷ (codes "canChangeOwner", p.can_change_owner)
    ∷ (codes "canUpgrade", p.can_upgrade)
    ∷ (codes "canAddSpecialRoles", p.can_add_special_roles)
    ∷ (codes "canTransferNFTCreateRole", p.can_transfer_nft_create_role)
    ∷ []

abbrev pub flag_text : Bool → Bytes
flag_text b = if b then codes "true" else codes "false"

-- Two fields for each property, its name and its value.
abbrev pub property_fields : List (Bytes × Bool) → List Bytes
property_fields [] = []
property_fields ((name, b) ∷ ps) =
    string_to_hex name ∷ string_to_hex (flag_text b) ∷ property_fields ps

flag_text-IsByte : (b : Bool) → All IsByte (flag_text b)
flag_text-IsByte true = omega arith
flag_text-IsByte false = omega arith

property_fields-Lacks :
    (ps : List (Bytes × Bool)) → All (λ p. All IsByte p.0) ps → All Lacks (property_fields ps)
property_fields-Lacks [] h = tt
property_fields-Lacks ((name, b) ∷ ps) (hn, h) = (
  string_to_hex-Lacks name hn,
  (string_to_hex-Lacks _ (flag_text-IsByte b), property_fields-Lacks ps h),
)

properties_as_on_data-separated :
    (p : EsdtProperties) → properties_as_on_data p ≡ separated (property_fields (property_list p))
unfolding properties_as_on_data property_field
properties_as_on_data-separated p = simp (append_assoc, append-nil)

abbrev properties_of : Bool → Bool → Bool → Bool → Bool → Bool → Bool → Bool → Bool → EsdtProperties
properties_of a b c d e f g h i = record {
  can_freeze = a;
  can_wipe = b;
  can_pause = c;
  can_mint = d;
  can_burn = e;
  can_change_owner = f;
  can_upgrade = g;
  can_add_special_roles = h;
  can_transfer_nft_create_role = i;
}

-- `operator==` compares every property.
properties_of-equal :
    (a b c d e f g h i : Bool)
    → equal (properties_of a b c d e f g h i) default_properties ≡ true
    → properties_of a b c d e f g h i ≡ default_properties
unfolding equal
properties_of-equal false false false false false false false false false hyp = refl
properties_of-equal true b c d e f g h i hyp = absurd cc
properties_of-equal false true c d e f g h i hyp = absurd cc
properties_of-equal false false true d e f g h i hyp = absurd cc
properties_of-equal false false false true e f g h i hyp = absurd cc
properties_of-equal false false false false true f g h i hyp = absurd cc
properties_of-equal false false false false false true g h i hyp = absurd cc
properties_of-equal false false false false false false true h i hyp = absurd cc
properties_of-equal false false false false false false false true i hyp = absurd cc
properties_of-equal false false false false false false false false true hyp = absurd cc

equal-default : (p : EsdtProperties) → equal p default_properties ≡ true → p ≡ default_properties
equal-default p =
    properties_of-equal p.can_freeze p.can_wipe p.can_pause p.can_mint p.can_burn p.can_change_owner
      p.can_upgrade p.can_add_special_roles p.can_transfer_nft_create_role

-- Which fields the properties get: none where they are the default ones, else all of them.
pub data Written (p : EsdtProperties) : List Bytes → Type 0 where
  left_out : p ≡ default_properties → Written p []
  written : p ≢ default_properties → Written p (property_fields (property_list p))

default_equal : equal default_properties default_properties ≡ false → ⊥
unfolding equal
default_equal h = cc

Written-fields :
    (p : EsdtProperties)
    → (fs : List Bytes) × Written p fs
      × All Lacks fs
      × ((if differ p default_properties then properties_as_on_data p else []) ≡ separated fs)
unfolding differ
Written-fields p = elim (Bool-cases (equal p default_properties)) [
  | inl same ↦ ([], left_out (equal-default p same), tt, rw same refl)
  | inr other ↦ (
    property_fields (property_list p),
    written (λ e.
        let h : equal default_properties default_properties ≡ false = rw e at other in
        absurd (default_equal h)),
    property_fields-Lacks (property_list p) (omega arith),
    rw other (properties_as_on_data-separated p),
  )
]

-- Given the laws of the class `integer`, for a name and a ticker that are byte strings and a
-- supply of `n`, the data field is built, and cut at the separators it is the name `issue`, the
-- token's name, its ticker, its supply, its decimals, and then nothing where the properties are
-- the default ones, and the names and values of all nine properties where they are not.
pub fields-issue :
    (lib : IntegerLib) (laws : IntegerLaws lib) (b : Issue.EsdtIssuePayloadBuilder) (n : ℕ)
    → Represents b.initial_supply n
    → All IsByte b.token
    → All IsByte b.ticker
    → (data_field : Bytes) × (supply : Field n) × (decimals : Field b.num_of_decimals)
      × (properties : List Bytes) × (Issue.build lib b ≡ ok data_field)
      × (fields data_field
          ≡ codes "issue"
            ∷ string_to_hex b.token
            ∷ string_to_hex b.ticker
            ∷ supply.text
            ∷ decimals.text
            ∷ properties)
      × Written b.esdt_properties properties
unfolding Issue.build add_string
fields-issue lib laws b n r token ticker =
    let (supply, added_supply) = number-Field lib laws b.initial_supply n r in
    let (decimals, added_decimals) = u64-Field lib laws b.num_of_decimals in
    let args = string_to_hex b.token ∷ string_to_hex b.ticker ∷ supply.text ∷ decimals.text ∷ [] in
    let (properties, which, lack, spelt) = Written-fields b.esdt_properties in
    let hex : All (All IsHexDigit) args = (
      string_to_hex-IsHexDigit _ token,
      (string_to_hex-IsHexDigit _ ticker, (supply.hex, (decimals.hex, tt))),
    ) in
    (
      codes "issue" ++ as_on_data (record { args = args }) ++ separated properties,
      supply,
      decimals,
      properties,
      rw (added_supply, added_decimals, spelt),
      fields-behind (codes "issue") args properties (omega arith) hex lack,
      which,
    )
