-- ===== src/Account/State.antt =====
-- src/account/account.cpp and include/account/account.h.
use mx_sdk_cpp.Common.{ℕ, ◌+◌, ◌%◌, ◌^◌}
use mx_sdk_cpp.BigUInt.{BigUInt, from_u64}
use mx_sdk_cpp.Account.Address.{Address}

pub record Account : Type 0 where
  pub nonce : ℕ
  pub balance : BigUInt
  pub address : Address

-- Account(address)
pub from_address : Address → Account
from_address a = record { nonce = 0; balance = from_u64 0; address = a }

-- Account(address, balance, nonce)
pub from_parts : Address → BigUInt → ℕ → Account
from_parts a b n = record { nonce = n; balance = b; address = a }

-- `++m_nonce` on a uint64_t
pub increment_nonce : Account → Account
increment_nonce a = record a { nonce = (a.nonce + 1) % 2 ^ 64 }
