-- ===== src/Transactions/Payload/Issue.antt =====
-- ESDTIssuePayloadBuilder.
use mx_sdk_cpp.Common.{ℕ, [], ◌++◌, Bytes, codes, if◌then◌else◌, Result, ok, ◌>>=◌}
use mx_sdk_cpp.Libraries.Integers.{IntegerLib}
use mx_sdk_cpp.BigUInt.{BigUInt, from_u64}
use mx_sdk_cpp.SmartContracts.{no_arguments, add_string, add_big_uint, as_on_data}
use mx_sdk_cpp.Transactions.Payload.Properties.{
  EsdtProperties, default_properties, differ, properties_as_on_data,
}

pub record EsdtIssuePayloadBuilder : Type 0 where
  pub token : Bytes
  pub ticker : Bytes
  pub initial_supply : BigUInt
  pub num_of_decimals : ℕ
  pub esdt_properties : EsdtProperties

-- The constructor.
pub create : Bytes → EsdtIssuePayloadBuilder
create token = record {
  token = token;
  ticker = [];
  initial_supply = from_u64 0;
  num_of_decimals = 0;
  esdt_properties = default_properties;
}

pub set_ticker : EsdtIssuePayloadBuilder → Bytes → EsdtIssuePayloadBuilder
set_ticker b t = record b { ticker = t }

pub set_initial_supply : EsdtIssuePayloadBuilder → BigUInt → EsdtIssuePayloadBuilder
set_initial_supply b s = record b { initial_supply = s }

pub set_num_of_decimals : EsdtIssuePayloadBuilder → ℕ → EsdtIssuePayloadBuilder
set_num_of_decimals b n = record b { num_of_decimals = n }

pub with_properties : EsdtIssuePayloadBuilder → EsdtProperties → EsdtIssuePayloadBuilder
with_properties b p = record b { esdt_properties = p }

unfoldable pub build : IntegerLib → EsdtIssuePayloadBuilder → Result Bytes
build lib b = do
  let with_names = add_string (add_string no_arguments b.token) b.ticker
  with_supply ← add_big_uint lib with_names b.initial_supply
  args ← add_big_uint lib with_supply (from_u64 b.num_of_decimals)
  ok (
      codes "issue"
      ++ as_on_data args
      ++ (if differ b.esdt_properties default_properties
          then properties_as_on_data b.esdt_properties
          else []))
