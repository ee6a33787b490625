-- ===== src/Utils/ConvertBits/Quintets.antt =====
-- `convertBits(data, 8, 5, true)` against the regrouping that it stands for: five bytes are eight
-- groups of five bits, and a shorter rest is filled up with zero bits.
use mx_sdk_cpp.Common.{
  ℕ, ◌+◌, ◌*◌, ◌/◌, ◌%◌, ◌<◌, ◌≡◌, refl, ap, ◌∙◌, true, [], ◌∷◌, ◌++◌, Bytes, append_assoc,
  append-nil, IsByte, All, ok, arith,
}
use mx_sdk_cpp.Utils.ConvertBits.{drain, finish, convert_loop, convert_bits}
use mx_sdk_cpp.Utils.ConvertBits.Rounds.{byte_round, with_byte, group_mask}

unfoldable pub quintets : Bytes → Bytes
quintets [] = []
quintets (a ∷ []) = (a / 8) ∷ (a % 8 * 4) ∷ []
quintets (a ∷ b ∷ []) = (a / 8) ∷ (a % 8 * 4 + b / 64) ∷ (b / 2 % 32) ∷ (b % 2 * 16) ∷ []
quintets (a ∷ b ∷ c ∷ []) =
    (a / 8) ∷ (a % 8 * 4 + b / 64) ∷ (b / 2 % 32) ∷ (b % 2 * 16 + c / 16) ∷ (c % 16 * 2) ∷ []
quintets (a ∷ b ∷ c ∷ d ∷ []) =
    (a / 8)
    ∷ (a % 8 * 4 + b / 64)
    ∷ (b / 2 % 32)
    ∷ (b % 2 * 16 + c / 16)
    ∷ (c % 16 * 2 + d / 128)
    ∷ (d / 4 % 32)
    ∷ (d % 4 * 8)
    ∷ []
quintets (a ∷ b ∷ c ∷ d ∷ e ∷ s) =
    (a / 8)
    ∷ (a % 8 * 4 + b / 64)
    ∷ (b / 2 % 32)
    ∷ (b % 2 * 16 + c / 16)
    ∷ (c % 16 * 2 + d / 128)
    ∷ (d / 4 % 32)
    ∷ (d % 4 * 8 + e / 32)
    ∷ (e % 32)
    ∷ quintets s

module _ (acc a b c d e : ℕ) (ret : Bytes) (h : acc < 4096) (ha : a < 256) (hb : b < 256)
    (hc : c < 256) (hd : d < 256) (he : e < 256) where
  after_five :
      (s : Bytes)
      → convert_loop 8 5 true (a ∷ b ∷ c ∷ d ∷ e ∷ s) acc 0 ret
        ≡ convert_loop 8 5 true s
            (with_byte (with_byte (with_byte (with_byte (with_byte acc a) b) c) d) e)
            0
            (ret
              ++ (a / 8)
                ∷ (a % 8 * 4 + b / 64)
                ∷ (b / 2 % 32)
                ∷ (b % 2 * 16 + c / 16)
                ∷ (c % 16 * 2 + d / 128)
                ∷ (d / 4 % 32)
                ∷ (d % 4 * 8 + e / 32)
                ∷ (e % 32)
                ∷ [])
  unfolding drain
  after_five s =
      let w1 = with_byte acc a in
      let w2 = with_byte w1 b in
      let w3 = with_byte w2 c in
      let w4 = with_byte w3 d in
      rw
        (
          byte_round true a _ acc 0 _ h ha,
          byte_round true b _ w1 3 _ (omega arith) hb,
          byte_round true c _ w2 1 _ (omega arith) hc,
          byte_round true d _ w3 4 _ (omega arith) hd,
          byte_round true e _ w4 2 _ (omega arith) he,
        )
        (simp (group_mask, append_assoc) (ground arith))

  after_one : convert_loop 8 5 true (a ∷ []) acc 0 ret ≡ ok (ret ++ (a / 8) ∷ (a % 8 * 4) ∷ [])
  unfolding drain convert_loop finish
  after_one = rw (byte_round true a _ acc 0 _ h ha) (simp (group_mask, append_assoc) (ground arith))

  after_two :
      convert_loop 8 5 true (a ∷ b ∷ []) acc 0 ret
      ≡ ok (ret ++ (a / 8) ∷ (a % 8 * 4 + b / 64) ∷ (b / 2 % 32) ∷ (b % 2 * 16) ∷ [])
  unfolding drain convert_loop finish
  after_two =
      rw
        (
          byte_round true a _ acc 0 _ h ha,
          byte_round true b _ (with_byte acc a) 3 _ (omega arith) hb,
        )
        (simp (group_mask, append_assoc) (ground arith))

  after_three :
      convert_loop 8 5 true (a ∷ b ∷ c ∷ []) acc 0 ret
      ≡ ok (
          ret
          ++ (a / 8)
            ∷ (a % 8 * 4 + b / 64)
            ∷ (b / 2 % 32)
            ∷ (b % 2 * 16 + c / 16)
            ∷ (c % 16 * 2)
            ∷ [])
  unfolding drain convert_loop finish
  after_three =
      let w1 = with_byte acc a in
      rw
        (
          byte_round true a _ acc 0 _ h ha,
          byte_round true b _ w1 3 _ (omega arith) hb,
          byte_round true c _ (with_byte w1 b) 1 _ (omega arith) hc,
        )
        (simp (group_mask, append_assoc) (ground arith))

  after_four :
      convert_loop 8 5 true (a ∷ b ∷ c ∷ d ∷ []) acc 0 ret
      ≡ ok (
          ret
          ++ (a / 8)
            ∷ (a % 8 * 4 + b / 64)
            ∷ (b / 2 % 32)
            ∷ (b % 2 * 16 + c / 16)
            ∷ (c % 16 * 2 + d / 128)
            ∷ (d / 4 % 32)
            ∷ (d % 4 * 8)
            ∷ [])
  unfolding drain convert_loop finish
  after_four =
      let w1 = with_byte acc a in
      let w2 = with_byte w1 b in
      rw
        (
          byte_round true a _ acc 0 _ h ha,
          byte_round true b _ w1 3 _ (omega arith) hb,
          byte_round true c _ w2 1 _ (omega arith) hc,
          byte_round true d _ (with_byte w2 c) 4 _ (omega arith) hd,
        )
        (simp (group_mask, append_assoc) (ground arith))

convert_loop-quintets :
    (s : Bytes) (acc : ℕ) (ret : Bytes)
    → acc < 4096
    → All IsByte s
    → convert_loop 8 5 true s acc 0 ret ≡ ok (ret ++ quintets s)
unfolding quintets
convert_loop-quintets [] acc ret h _ = rw append-nil (unfold convert_loop finish in refl)
convert_loop-quintets (a ∷ []) acc ret h (ha, _) = after_one acc a a a a a ret h ha ha ha ha ha
convert_loop-quintets (a ∷ b ∷ []) acc ret h (ha, (hb, _)) =
    after_two acc a b b b b ret h ha hb hb hb hb
convert_loop-quintets (a ∷ b ∷ c ∷ []) acc ret h (ha, (hb, (hc, _))) =
    after_three acc a b c c c ret h ha hb hc hc hc
convert_loop-quintets (a ∷ b ∷ c ∷ d ∷ []) acc ret h (ha, (hb, (hc, (hd, _)))) =
    after_four acc a b c d d ret h ha hb hc hd hd
convert_loop-quintets (a ∷ b ∷ c ∷ d ∷ e ∷ s) acc ret h (ha, (hb, (hc, (hd, (he, hs))))) =
    after_five acc a b c d e ret h ha hb hc hd he s
    ∙ convert_loop-quintets s _ _ (omega arith) hs
    ∙ ap ok (append_assoc ret _ _)

-- Every byte string is regrouped without an error, into the groups of five bits of its bit string.
pub convert_bits-eq-quintets :
    (s : Bytes) → All IsByte s → convert_bits s 8 5 true ≡ ok (quintets s)
unfolding convert_bits
convert_bits-eq-quintets s h = convert_loop-quintets s 0 [] (omega arith) h

pub quintets-lt : (s : Bytes) → All IsByte s → All (λ v. v < 32) (quintets s)
unfolding quintets
quintets-lt [] _ = tt
quintets-lt (a ∷ []) h = omega arith
quintets-lt (a ∷ b ∷ []) h = omega arith
quintets-lt (a ∷ b ∷ c ∷ []) h = omega arith
quintets-lt (a ∷ b ∷ c ∷ d ∷ []) h = omega arith
quintets-lt (a ∷ b ∷ c ∷ d ∷ e ∷ s) (ha, (hb, (hc, (hd, (he, hs))))) = (
  omega arith,
  (
    omega arith,
    (
      omega arith,
      (omega arith, (omega arith, (omega arith, (omega arith, (omega arith, quintets-lt s hs))))),
    ),
  ),
)
