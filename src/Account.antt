-- ===== src/Account.antt =====
-- src/account and include/account: addresses and accounts.
pub mod Address
pub mod State
