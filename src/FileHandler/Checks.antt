-- ===== src/FileHandler/Checks.antt =====
-- The parameter checks of src/utils/common.h and the check of a file, on equal and on other texts.
use mx_sdk_cpp.Common.{
  ℕ, invalid_argument, Result, refl, if◌then◌else◌, ◌≡◌, ◌≢◌, Bool, true, false, ◌++◌, Bytes, codes,
  is_empty, bytes_eq_refl, bytes_eq-neq, some, ok, err, arith,
}
use mx_sdk_cpp.Common.Digits.{print}
use mx_sdk_cpp.Utils.Errors.{error_msg_file_extension_invalid}
use mx_sdk_cpp.FileHandler.{
  Files, mismatch, check_param, check_number, check_file, file_exists, file_extension,
}

pub check_number-eq : (n m : ℕ) (error : Bytes) → n ≡ m → check_number n m error ≡ ok tt
unfolding check_number
check_number-eq n m error h = ground arith

pub check_param-eq : (s t error : Bytes) → s ≡ t → check_param s t error ≡ ok tt
unfolding check_param
check_param-eq s t error h = rw (h, bytes_eq_refl t)

pub check_number-neq :
    (n m : ℕ) (error : Bytes)
    → n ≢ m
    → check_number n m error
      ≡ err (
          invalid_argument
            (error ++ codes "Expected: " ++ print 10 m ++ codes ", got: " ++ print 10 n))
unfolding check_number
check_number-neq n m error h = ground arith

pub check_param-neq : (s t error : Bytes) → s ≢ t → check_param s t error ≡ err (mismatch error t s)
unfolding check_param
check_param-neq s t error h = rw (bytes_eq-neq s t h)

pub check_file-eq :
    (files : Files) (path content expected : Bytes)
    → files path ≡ some content
    → file_extension path ≡ expected
    → check_file files path expected ≡ ok tt
unfolding check_file file_exists
check_file-eq files path content expected found extension =
    let checked = check_param-eq _ _ error_msg_file_extension_invalid extension in
    rw found (either (is_empty expected) checked)
  where
    either : {r : Result (Unit {0})} (b : Bool) → r ≡ ok tt → (if b then ok tt else r) ≡ ok tt
    either true h = refl
    either false h = h
