-- ===== src/Libraries/Bech32.antt =====
-- external/bech32: the text form of a sequence of groups of five bits.
use mx_sdk_cpp.Common.{ℕ, ◌+◌, ◌≤◌, ◌<◌, ◌≡◌, ◌⊎◌, Bytes, All, length}

-- `decode` returns the prefix and the groups, and an empty prefix for a text that it refuses.
pub record Bech32Lib : Type 0 where
  pub encode : Bytes → Bytes → Bytes
  pub decode : Bytes → Bytes × Bytes

-- A character that a prefix may have: printable and no capital.
abbrev pub IsPrefixChar : ℕ → Type 0
IsPrefixChar c = ((33 ≤ c) × (c ≤ 64)) ⊎ ((91 ≤ c) × (c ≤ 126))

-- What BIP 173 promises of texts of at most 90 characters, six of them the checksum.
pub record Bech32Laws (l : Bech32Lib) : Type 0 where
  pub decode-encode :
      (hrp values : Bytes)
      → 1 ≤ length hrp
      → All IsPrefixChar hrp
      → All (λ v. v < 32) values
      → length hrp + length values + 7 ≤ 90
      → l.decode (l.encode hrp values) ≡ (hrp, values)
