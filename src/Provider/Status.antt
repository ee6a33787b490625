-- ===== src/Provider/Status.antt =====
-- src/provider/data/data_transaction.cpp and include/provider/data/data_transaction.h.
pub mod Exclusive
use mx_sdk_cpp.Common.{Bool, ◌||◌, Bytes, codes, bytes_eq}

-- m_status
pub record TransactionStatus : Type 0 where
  pub status : Bytes

-- operator==
unfoldable pub equal : TransactionStatus → TransactionStatus → Bool
equal a b = bytes_eq a.status b.status

unfoldable pub is_pending : TransactionStatus → Bool
is_pending t = bytes_eq t.status (codes "pending")

unfoldable pub is_invalid : TransactionStatus → Bool
is_invalid t = bytes_eq t.status (codes "invalid")

unfoldable pub is_successful : TransactionStatus → Bool
is_successful t = bytes_eq t.status (codes "success") || bytes_eq t.status (codes "successful")

unfoldable pub is_executed : TransactionStatus → Bool
unfolding is_successful is_invalid
is_executed t = bytes_eq t.status (codes "executed") || (is_successful t || is_invalid t)

unfoldable pub is_failed : TransactionStatus → Bool
unfolding is_invalid
is_failed t =
    bytes_eq t.status (codes "fail")
    || (bytes_eq t.status (codes "failed")
        || (bytes_eq t.status (codes "unsuccessful") || is_invalid t))
