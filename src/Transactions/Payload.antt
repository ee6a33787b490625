-- ===== src/Transactions/Payload.antt =====
-- src/transaction/payload_builder.cpp, include/transaction/payload_builder.h and
-- include/transaction/esdt.h: the data fields of token transactions, a module for each builder.
pub mod Properties
pub mod Transfer
pub mod NftTransfer
pub mod MultiTransfer
pub mod Issue
pub mod Decode
pub mod DecodeMulti
pub mod DecodeIssue
