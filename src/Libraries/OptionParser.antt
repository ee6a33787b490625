-- ===== src/Libraries/OptionParser.antt =====
-- external/cliparser, `cxxopts`: what the command line tool calls.
use mx_sdk_cpp.Common.{
  ℕ, ◌≡◌, ◌≢◌, Bool, List, [], ◌∷◌, Option, none, some, Bytes, bytes_eq, if◌then◌else◌, Result, ok,
  err, Error,
}

-- The type of an option's value: `std::string`, `uint64_t`, `uint32_t`, `bool`, a vector of texts.
pub data Kind : Type 0 where
  text number64 number32 flag texts : Kind

pub record Entry : Type 0 where
  pub name : Bytes
  pub description : Bytes
  pub kind : Kind
  pub default_value : Option Bytes

-- `cxxopts::Options` with one group.
pub record Options : Type 0 where
  pub program : Bytes
  pub description : Bytes
  pub group : Bytes
  pub entries : List Entry

abbrev pub kind_of : List Entry → Bytes → Option Kind
kind_of [] name = none
kind_of (e ∷ es) name =
    let later = kind_of es name in if bytes_eq e.name name then some e.kind else later

-- `count name` is the number of times an option was given, `as_text name` is `result[name].as<…>()`.
pub record ParseResult : Type 0 where
  pub count : Bytes → ℕ
  pub as_text : Bytes → Result Bytes
  pub as_u64 : Bytes → Result ℕ
  pub as_u32 : Bytes → Result ℕ
  pub as_flag : Bytes → Result Bool
  pub as_texts : Bytes → Result (List Bytes)
  pub unmatched : List Bytes
  pub arguments : List (Bytes × Bytes)

-- `empty` is a `ParseResult` that no parsing made.
pub record OptionsLib : Type 0 where
  pub help : Options → Bytes
  pub parse : Options → List Bytes → Result ParseResult
  pub empty : ParseResult

-- `as<T>` is a `dynamic_cast` to the declared type, which throws for another type.
pub record OptionsLaws (l : OptionsLib) : Type 0 where
  pub as_u64-other_kind :
      (options : Options) (argv : List Bytes) (result : ParseResult) (name : Bytes) (kind : Kind)
      → l.parse options argv ≡ ok result
      → kind_of options.entries name ≡ some kind
      → kind ≢ number64
      → (e : Error) × (result.as_u64 name ≡ err e)
