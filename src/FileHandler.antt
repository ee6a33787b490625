-- ===== src/FileHandler.antt =====
-- src/filehandler/ifile.cpp, include/filehandler/ifile.h and the parameter checks of
-- src/utils/common.h. The files that can be opened are a parameter: a path's content, or `none`.
pub mod Checks
pub mod Pem
pub mod KeyFile
use mx_sdk_cpp.Common.{
  ℕ, ◌+◌, Bool, true, false, Option, none, some, [], ◌∷◌, ◌++◌, Bytes, codes, drop, is_empty,
  bytes_eq, ◌==◌, if◌then◌else◌, Result, ok, err, Error, invalid_argument, ◌>>=◌, ◌>>◌, guard,
}
use mx_sdk_cpp.Common.Digits.{print}
use mx_sdk_cpp.Common.Texts.{last_of}
use mx_sdk_cpp.Utils.Errors.{error_msg_file_does_not_exist, error_msg_file_extension_invalid}

abbrev pub Files : Type 0
Files = Bytes → Option Bytes

-- checkParam, for texts and for numbers
abbrev pub mismatch : Bytes → Bytes → Bytes → Error
mismatch error expected param =
    invalid_argument (error ++ codes "Expected: " ++ expected ++ codes ", got: " ++ param)

unfoldable pub check_param : Bytes → Bytes → Bytes → Result (Unit {0})
check_param param expected error = guard (bytes_eq param expected) (mismatch error expected param)

unfoldable pub check_number : ℕ → ℕ → Bytes → Result (Unit {0})
check_number param expected error =
    guard (param == expected) (mismatch error (print 10 expected) (print 10 param))

-- getFileExtension
unfoldable pub file_extension : Bytes → Bytes
unfolding last_of
file_extension path = elim (last_of b'.' path) [ none ↦ [] | some i ↦ drop (i + 1) path ]

abbrev is_open : Option Bytes → Bool
is_open none = false
is_open (some content) = true

abbrev text_of : Option Bytes → Bytes
text_of none = []
text_of (some content) = content

module _ (files : Files) where
  unfoldable pub file_exists : Bytes → Bool
  file_exists path = is_open (files path)

  -- What a stream on the path reads; nothing, where it does not open.
  abbrev pub stream : Bytes → Bytes
  stream path = text_of (files path)

  -- checkFile, which the constructor calls
  unfoldable pub check_file : Bytes → Bytes → Result (Unit {0})
  unfolding file_exists check_param file_extension
  check_file path expected = do
    guard (file_exists path) (invalid_argument (error_msg_file_does_not_exist ++ path))
    if is_empty expected
        then ok tt
        else check_param (file_extension path) expected error_msg_file_extension_invalid
