-- ===== src/Libraries/Toml.antt =====
-- external/toml, `cpptoml`: what cli/config/cliconfig.cpp calls.
use mx_sdk_cpp.Common.{Bool, Option, Bytes, Result}

-- `parse` throws where the text is no TOML; `qualified_text` and `get_text` are `get_qualified_as` and
-- `get_as` of texts, where an absent value is read through `*` as the empty text.
pub record TomlLib : Type 1 where
  pub Table : Type 0
  pub parse : Bytes → Result Table
  pub qualified_text : Table → Bytes → Bytes
  pub get_table : Table → Bytes → Option Table
  pub contains : Table → Bytes → Bool
  pub get_text : Table → Bytes → Bytes
