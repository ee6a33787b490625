-- ===== src/SmartContracts.antt =====
-- src/smartcontracts and include/smartcontracts: the arguments of a call, and the call itself, in the
-- form that the data field of a transaction takes.
pub mod Fields
use mx_sdk_cpp.Common.{
  ℕ, Bool, List, [], ◌∷◌, ◌++◌, Bytes, codes, is_empty, if◌then◌else◌, Result, ok, ◌>>=◌,
}
use mx_sdk_cpp.Utils.Hex.{string_to_hex}
use mx_sdk_cpp.Libraries.Integers.{IntegerLib}
use mx_sdk_cpp.BigUInt.{BigUInt, get_hex_value}
use mx_sdk_cpp.Account.Address.{Address}

pub record ScArguments : Type 0 where
  pub args : List Bytes

-- SCArguments()
abbrev pub no_arguments : ScArguments
no_arguments = record { args = [] }

-- add(std::string const &)
unfoldable pub add_string : ScArguments → Bytes → ScArguments
add_string a arg = record { args = a.args ++ string_to_hex arg ∷ [] }

-- add(BigUInt const &)
unfoldable pub add_big_uint : IntegerLib → ScArguments → BigUInt → Result ScArguments
add_big_uint lib a arg = do val ← get_hex_value lib arg; ok (record { args = a.args ++ val ∷ [] })

-- add(Address const &)
unfoldable pub add_address : ScArguments → Address → ScArguments
add_address a arg = record { args = a.args ++ string_to_hex arg.pk ∷ [] }

pub empty : ScArguments → Bool
empty a = is_empty a.args

on_data_loop : List Bytes → Bytes → Bytes
on_data_loop [] ret = ret
on_data_loop (arg ∷ args) ret = on_data_loop args (ret ++ (codes "@" ++ arg))

-- asOnData()
unfoldable pub as_on_data : ScArguments → Bytes
unfolding on_data_loop
as_on_data a = on_data_loop a.args []

pub record ContractCall : Type 0 where
  pub function : Bytes
  pub args : ScArguments

-- ContractCall(function)
unfoldable pub from_function : Bytes → ContractCall
from_function f = record { function = f; args = no_arguments }

-- ContractCall(function, args)
pub from_parts : Bytes → ScArguments → ContractCall
from_parts f a = record { function = f; args = a }

pub set_args : ContractCall → ScArguments → ContractCall
set_args c a = record c { args = a }

-- ContractCall::asOnData()
unfoldable pub call_on_data : ContractCall → Bytes
call_on_data c =
    if is_empty c.function then [] else codes "@" ++ string_to_hex c.function ++ as_on_data c.args
