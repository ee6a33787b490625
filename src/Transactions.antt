-- ===== src/Transactions.antt =====
-- src/transaction and include/transaction.
pub mod TokenPayment
pub mod Gas
pub mod Signer
pub mod Transaction
pub mod Payload
pub mod Builders
