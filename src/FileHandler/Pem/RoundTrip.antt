-- ===== src/FileHandler/Pem/RoundTrip.antt =====
-- What `PemFileReader` reads of a file whose lines between the dashes are the base64 text of the
-- hexadecimal text of a seed and a public key.
use mx_sdk_cpp.Common.{
  ◌+◌, ◌<◌, ◌≡◌, refl, ap, if◌then◌else◌, sym, ◌∙◌, false, List, [], ◌∷◌, ◌++◌, append_assoc,
  append-nil, Bytes, codes, length, length-append, take, take_front, drop_front, is_empty, bytes_eq,
  All, All-append, IsByte, some, ok, arith,
}
use mx_sdk_cpp.Common.Texts.{lines, unlines, IsLine, lines-unlines}
use mx_sdk_cpp.Utils.Base64
use mx_sdk_cpp.Utils.Base64.Rfc.{encode-eq-rfc4648}
use mx_sdk_cpp.Utils.Base64.RoundTrip.{decode-encode}
use mx_sdk_cpp.Utils.Hex.{string_to_hex, hex_to_bytes}
use mx_sdk_cpp.Utils.Hex.RoundTrip.{hex_to_bytes-string_to_hex}
use mx_sdk_cpp.Libraries.Bech32.{Bech32Lib}
use mx_sdk_cpp.Wrappers.Crypto.{seed_length}
use mx_sdk_cpp.Account.Address.{public_key_length, from_public_key}
use mx_sdk_cpp.FileHandler.{Files, file_extension}
use mx_sdk_cpp.FileHandler.Checks.{check_file-eq}
use mx_sdk_cpp.FileHandler.Pem.{
  PemFileReader, dashes, join_key_lines, key_text, key_bytes, read, get_address, get_seed,
}
use mx_sdk_cpp.FileHandler.Pem.Plain.{IsPlain, rfc4648-IsPlain, string_to_hex-IsByte}

abbrev pub join : List Bytes → Bytes
join [] = []
join (l ∷ ls) = l ++ join ls

All-parts : (l s : Bytes) → All IsPlain (l ++ s) → All IsPlain l × All IsPlain s
All-parts [] s h = (tt, h)
All-parts (c ∷ l) s (hc, h) = let (hl, hs) = All-parts l s h in ((hc, hl), hs)

IsPlain→IsLine : (l : Bytes) → All IsPlain l → IsLine l
IsPlain→IsLine [] h = tt
IsPlain→IsLine (c ∷ l) (hc, h) = (ground arith, IsPlain→IsLine l h)

plain_no_dashes : (l : Bytes) → All IsPlain l → bytes_eq (take 5 l) dashes ≡ false
plain_no_dashes [] h = refl
plain_no_dashes (c ∷ l) (hc, h) = ground arith

module _ (text l : Bytes) (ls : List Bytes) where
  join_key_lines-kept :
      bytes_eq (take 5 l) dashes ≡ false
      → join_key_lines text (l ∷ ls) ≡ join_key_lines (text ++ l) ls
  unfolding join_key_lines
  join_key_lines-kept h = ap (λ skipped. join_key_lines (if skipped then text else text ++ l) ls) h

  join_key_lines-skipped : take 5 l ≡ dashes → join_key_lines text (l ∷ ls) ≡ join_key_lines text ls
  unfolding join_key_lines
  join_key_lines-skipped h =
      ap (λ front. join_key_lines (if bytes_eq front dashes then text else text ++ l) ls) h

join_key_lines-nil : (text : Bytes) → join_key_lines text [] ≡ text
unfolding join_key_lines
join_key_lines-nil text = refl

join_key_lines-join :
    (body after : List Bytes) (text : Bytes)
    → All IsPlain (join body)
    → join_key_lines text (body ++ after) ≡ join_key_lines (text ++ join body) after
join_key_lines-join [] after text h = rw (append-nil text)
join_key_lines-join (l ∷ body) after text h =
    let (hl, hs) = All-parts l (join body) h in
    join_key_lines-kept text l (body ++ after) (plain_no_dashes l hl)
    ∙ join_key_lines-join body after (text ++ l) hs
    ∙ ap (λ s. join_key_lines s after) (append_assoc text l (join body))

IsLine-body :
    (body after : List Bytes)
    → All IsPlain (join body)
    → All IsLine after
    → All IsLine (body ++ after)
IsLine-body [] after h ha = ha
IsLine-body (l ∷ body) after h ha =
    let (hl, hs) = All-parts l (join body) h in (IsPlain→IsLine l hl, IsLine-body body after hs ha)

-- The lines between the dashes spell the key bytes.
pub record IsPemText (content key : Bytes) : Type 0 where
  pub header : Bytes
  pub body : List Bytes
  pub footer : Bytes
  pub content_lines : content ≡ unlines (header ∷ (body ++ footer ∷ []))
  pub header_line : IsLine header
  pub footer_line : IsLine footer
  pub header_dashes : take 5 header ≡ dashes
  pub footer_dashes : take 5 footer ≡ dashes
  pub body_text : join body ≡ Base64.encode (string_to_hex key)

module _ (content key : Bytes) (bytes : All IsByte key) (pem : IsPemText content key) where
  body-IsPlain : All IsPlain (join pem.body)
  body-IsPlain =
      rw (pem.body_text, encode-eq-rfc4648 (string_to_hex key) (string_to_hex-IsByte key bytes))
        (rfc4648-IsPlain (string_to_hex key) (string_to_hex-IsByte key bytes))

  content-lines : lines content ≡ pem.header ∷ (pem.body ++ pem.footer ∷ [])
  content-lines = rw pem.content_lines (
      lines-unlines _ (
        pem.header_line,
        IsLine-body pem.body (pem.footer ∷ []) body-IsPlain (pem.footer_line, tt),
      ))

  key_text-IsPemText : key_text content ≡ Base64.encode (string_to_hex key)
  unfolding key_text
  key_text-IsPemText =
      ap (λ ls. join_key_lines [] ls) content-lines
      ∙ join_key_lines-skipped [] pem.header (pem.body ++ pem.footer ∷ []) pem.header_dashes
      ∙ join_key_lines-join pem.body (pem.footer ∷ []) [] body-IsPlain
      ∙ join_key_lines-skipped (join pem.body) pem.footer [] pem.footer_dashes
      ∙ join_key_lines-nil (join pem.body)
      ∙ pem.body_text

  key_bytes-IsPemText : key_bytes (key_text content) ≡ key
  unfolding key_bytes
  key_bytes-IsPemText =
      rw (key_text-IsPemText, decode-encode (string_to_hex key) (string_to_hex-IsByte key bytes))
        (hex_to_bytes-string_to_hex key bytes)

key_bytes-is_empty : (text : Bytes) → 0 < length (key_bytes text) → is_empty text ≡ false
unfolding key_bytes Base64.decode hex_to_bytes
key_bytes-is_empty [] h = absurd (omega arith)
key_bytes-is_empty (c ∷ text) h = refl

read-key_bytes :
    (files : Files) (path content key : Bytes)
    → files path ≡ some content
    → file_extension path ≡ codes "pem"
    → key_bytes (key_text content) ≡ key
    → length key ≡ seed_length + public_key_length
    → read files path ≡ ok (record { file_key_bytes = key })
unfolding read
read-key_bytes files path content key found extension stored size =
    let size' : length (key_bytes (key_text content)) ≡ 64 = rw stored size in
    rw (
      check_file-eq files path content (codes "pem") found extension,
      found,
      key_bytes-is_empty (key_text content) (omega (arith, size')),
      stored,
      size,
    )

-- Where a path opens, has the extension `pem`, and the lines of its text between a first and a
-- last line that begin with five dashes join to the base64 text of the hexadecimal text of a seed
-- of 32 bytes and a public key of 32 bytes, the reader opens it, `get_seed` returns the seed, and
-- `get_address` the address of the public key.
pub read-IsPemText :
    (lib : Bech32Lib) (files : Files) (path content seed pk : Bytes)
    → files path ≡ some content
    → file_extension path ≡ codes "pem"
    → All IsByte seed
    → All IsByte pk
    → length seed ≡ seed_length
    → length pk ≡ public_key_length
    → IsPemText content (seed ++ pk)
    → (r : PemFileReader) × (read files path ≡ ok r)
      × (get_seed r ≡ seed)
      × (get_address lib r ≡ from_public_key lib pk)
unfolding get_seed get_address
read-IsPemText lib files path content seed pk found extension seed_bytes pk_bytes seed_size pk_size
      pem =
    let bytes = All-append IsByte seed pk seed_bytes pk_bytes in
    let stored = key_bytes-IsPemText content (seed ++ pk) bytes pem in
    (
      record { file_key_bytes = seed ++ pk },
      read-key_bytes files path content (seed ++ pk) found extension stored
          (omega (arith, length-append seed pk, seed_size, pk_size)),
      rw (sym seed_size) (take_front seed pk),
      rw (sym seed_size) (ap (from_public_key lib) (drop_front seed pk)),
    )
