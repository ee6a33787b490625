-- ===== src/Tests/Objects.antt =====
-- Concrete functions in place of the bech32, cryptography and JSON libraries: enough of each to have the
-- behaviour that the theorems ask for, and neither its format nor its strength.
use mx_sdk_cpp.Common.{
  ℕ, zero, suc, ◌≤◌, ◌-◌, ◌%◌, ◌≡◌, refl, Bool, true, false, List, [], ◌∷◌, ◌++◌, length-append,
  Option, none, some, Bytes, take, drop, take_front, drop_front, length, bytes_eq, bytes_eq_refl,
  All, IsByte, Result, ok, err, library, ◌>>=◌, if◌then◌else◌, arith,
}
use mx_sdk_cpp.Libraries.Bech32.{Bech32Lib, Bech32Laws}
use mx_sdk_cpp.Libraries.Crypto.{CryptoLib, CryptoLaws}
use mx_sdk_cpp.Libraries.Json.{JsonLib, JsonLaws}

-- The length of the prefix, the prefix and the groups.
abbrev decode_bech32 : Bytes → Bytes × Bytes
decode_bech32 [] = ([], [])
decode_bech32 (n ∷ s) = (take n s, drop n s)

abbrev pub bech32 : Bech32Lib
bech32 = record { encode = λ hrp values. length hrp ∷ hrp ++ values; decode = decode_bech32 }

pub bech32_laws : Bech32Laws bech32
bech32_laws = record {
  decode-encode = λ hrp values h1 h2 h3 h4. rw (take_front hrp values, drop_front hrp values);
}

abbrev as_bytes : Bytes → Bytes
as_bytes [] = []
as_bytes (c ∷ s) = c % 256 ∷ as_bytes s

as_bytes-IsByte : (s : Bytes) → All IsByte (as_bytes s)
as_bytes-IsByte [] = tt
as_bytes-IsByte (c ∷ s) = (omega arith, as_bytes-IsByte s)

abbrev as_complement : Bytes → Bytes
as_complement [] = []
as_complement (c ∷ s) = (255 - c) ∷ as_complement s

as_complement-as_complement : (s : Bytes) → All IsByte s → as_complement (as_complement s) ≡ s
as_complement-as_complement [] h = refl
as_complement-as_complement (c ∷ s) (hc, h) = rw (as_complement-as_complement s h) (ground arith)

-- A signature is the key and the message.
abbrev pub crypto : CryptoLib
crypto = record {
  sign_detached = λ message sk. as_bytes (sk ++ message);
  verify_detached = λ signature message pk. bytes_eq signature (as_bytes (pk ++ message));
  seed_keypair = λ seed. seed;
  sk_to_seed = λ sk. sk;
  sk_to_pk = λ sk. sk;
  scrypt = λ password salt n r p size. some (take size (password ++ salt));
  hmac_sha256 = λ key text. take 32 (key ++ text);
  aes_ctr_xcrypt = λ key iv text. as_complement text;
  sha3 = λ message n. take n message;
}

pub crypto_laws : CryptoLaws crypto
crypto_laws = record {
  sign_detached-bytes = λ message sk. as_bytes-IsByte (sk ++ message);
  verify-sign = λ message seed sized. bytes_eq_refl (as_bytes (seed ++ message));
  aes_ctr_xcrypt-aes_ctr_xcrypt = λ key iv text h. as_complement-as_complement text h;
}

pub data Value : Type 0 where
  number : ℕ → Value
  text : Bytes → Value

-- What was set, the last first.
abbrev Object : Type 0
Object = List (Bytes × Value)

abbrev find : Object → Bytes → Option Value
find [] i = none
find ((k, v) ∷ j) i = let rest = find j i in if bytes_eq k i then some v else rest

abbrev found : Option Value → Bool
found none = false
found (some v) = true

abbrev as_number : Option Value → Result ℕ
as_number none = err (library [])
as_number (some (number n)) = ok n
as_number (some (text s)) = err (library [])

abbrev as_string : Option Value → Result Bytes
as_string none = err (library [])
as_string (some (number n)) = err (library [])
as_string (some (text s)) = ok s

abbrev empty_object : Object → Bool
empty_object [] = true
empty_object (e ∷ j) = false

-- A key behind its length, and a value behind its kind.
abbrev write : Object → Bytes
write [] = []
write ((k, number n) ∷ j) = length k ∷ k ++ 0 ∷ n ∷ write j
write ((k, text s) ∷ j) = length k ∷ k ++ (1 ∷ length s ∷ (s ++ write j))

-- The first entry and what follows it; a text that was not written gives the number 0.
abbrev read_value : Bytes → Bytes → (Bytes × Value) × Bytes
read_value k [] = ((k, number 0), [])
read_value k (kind ∷ []) = ((k, number 0), [])
read_value k (zero ∷ n ∷ s) = ((k, number n), s)
read_value k (suc kind ∷ n ∷ s) = ((k, text (take n s)), drop n s)

abbrev pub read : ℕ → Bytes → Result Object
read fuel [] = ok []
read zero (n ∷ s) = err (library [])
read (suc fuel) (n ∷ s) = read fuel (read_value (take n s) (drop n s)).1 >>= λ j.
    ok ((read_value (take n s) (drop n s)).0 ∷ j)

written : {r s : Bytes} → ok r ≡ ok s → r ≡ s
written h = cc

read-write : (fuel : ℕ) (j : Object) → length (write j) ≤ fuel → read fuel (write j) ≡ ok j
read-write fuel [] h = refl
read-write zero ((k, number n) ∷ j) h = absurd (omega (arith, h))
read-write zero ((k, text s) ∷ j) h = absurd (omega (arith, h))
read-write (suc fuel) ((k, number n) ∷ j) h =
    let shorter : length (write j) ≤ fuel = omega (arith, length-append k (0 ∷ n ∷ write j)) in
    rw (take_front k (0 ∷ n ∷ write j), drop_front k (0 ∷ n ∷ write j), read-write fuel j shorter)
read-write (suc fuel) ((k, text s) ∷ j) h =
    let rest = 1 ∷ length s ∷ (s ++ write j) in
    let shorter : length (write j) ≤ fuel =
      omega (arith, length-append k rest, length-append s (write j)) in
    rw (
      take_front k rest,
      drop_front k rest,
      take_front s (write j),
      drop_front s (write j),
      read-write fuel j shorter,
    )

parse_dump : (j : Object) (s : Bytes) → ok (write j) ≡ ok s → read (length s) s ≡ ok j
parse_dump j s h = rw (← written h) (read-write (length (write j)) j (omega arith))

abbrev pub json : JsonLib
json = record {
  Json = Object;
  null = [];
  is_empty = empty_object;
  contains = λ j i. found (find j i);
  set_number = λ j k n. (k, number n) ∷ j;
  set_string = λ j k s. (k, text s) ∷ j;
  get_u64 = λ j i. as_number (find j i);
  get_u32 = λ j i. as_number (find j i);
  get_string = λ j i. as_string (find j i);
  dump = λ j. ok (write j);
  parse = λ s. read (length s) s;
}

pub json_laws : JsonLaws json
json_laws = record {
  is_empty-set_number = λ j k n. refl;
  is_empty-set_string = λ j k s. refl;
  contains-null = λ k. refl;
  contains-set_number = λ j k i n. ground arith;
  contains-set_string = λ j k i s. ground arith;
  get_u64-set_number = λ j k i n h. ground arith;
  get_u32-set_number = λ j k i n h. ground arith;
  get_string-set_string = λ j k i s. ground arith;
  get_u64-set_string = λ j k i s h. rw h;
  get_u32-set_string = λ j k i s h. rw h;
  get_string-set_number = λ j k i n h. rw h;
  parse-dump = λ j s h. parse_dump j s h;
}
