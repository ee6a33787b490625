-- ===== src/Utils/ConvertBits/RoundTrip.antt =====
-- `convertBits(…, 5, 8, false)` undoes `convertBits(…, 8, 5, true)`.
use mx_sdk_cpp.Common.{
  ℕ, ◌+◌, ◌*◌, ◌/◌, ◌%◌, ◌^◌, ◌<◌, ◌≡◌, ap, ◌∙◌, true, false, [], ◌∷◌, ◌++◌, Bytes, append_assoc,
  append-nil, IsByte, All, ok, arith, ◌>>=◌,
}
use mx_sdk_cpp.Common.Bits.{and_255}
use mx_sdk_cpp.Utils.ConvertBits.{drain, finish, convert_loop, convert_bits}
use mx_sdk_cpp.Utils.ConvertBits.Rounds.{group_round, with_group, byte_mask_pushed}
use mx_sdk_cpp.Utils.ConvertBits.Quintets.{quintets, convert_bits-eq-quintets}

abbrev last_of_eight : ℕ → ℕ → ℕ → ℕ → ℕ → ℕ → ℕ
last_of_eight acc a b c d e =
    with_group
      (with_group
        (with_group
          (with_group
            (with_group
              (with_group (with_group (with_group acc (a / 8)) (a % 8 * 4 + b / 64)) (b / 2 % 32))
              (b % 2 * 16 + c / 16))
            (c % 16 * 2 + d / 128))
          (d / 4 % 32))
        (d % 4 * 8 + e / 32))
      (e % 32)

-- The rounds over the groups of one to five bytes.
module _ (acc a b c d e : ℕ) (ret : Bytes) (h : acc < 4096) (ha : a < 256) (hb : b < 256)
    (hc : c < 256) (hd : d < 256) (he : e < 256) where
  one_back : convert_loop 5 8 false ((a / 8) ∷ (a % 8 * 4) ∷ []) acc 0 ret ≡ ok (ret ++ a ∷ [])
  unfolding drain convert_loop finish
  one_back =
      rw
        (
          group_round false (a / 8) _ acc 0 _ h (omega arith),
          group_round false (a % 8 * 4) _ (with_group acc (a / 8)) 5 _ (omega arith) (omega arith),
          and_255,
        )
        (simp (byte_mask_pushed, append_assoc) (ground arith))

  two_back :
      convert_loop 5 8 false
        ((a / 8) ∷ (a % 8 * 4 + b / 64) ∷ (b / 2 % 32) ∷ (b % 2 * 16) ∷ [])
        acc
        0
        ret
      ≡ ok (ret ++ a ∷ b ∷ [])
  unfolding drain convert_loop finish
  two_back =
      let w1 = with_group acc (a / 8) in
      let w2 = with_group w1 (a % 8 * 4 + b / 64) in
      let w3 = with_group w2 (b / 2 % 32) in
      rw
        (
          group_round false (a / 8) _ acc 0 _ h (omega arith),
          group_round false (a % 8 * 4 + b / 64) _ w1 5 _ (omega arith) (omega arith),
          group_round false (b / 2 % 32) _ w2 2 _ (omega arith) (omega arith),
          group_round false (b % 2 * 16) _ w3 7 _ (omega arith) (omega arith),
          and_255,
        )
        (simp (byte_mask_pushed, append_assoc) (ground arith))

  three_back :
      convert_loop 5 8 false
        ((a / 8) ∷ (a % 8 * 4 + b / 64) ∷ (b / 2 % 32) ∷ (b % 2 * 16 + c / 16) ∷ (c % 16 * 2) ∷ [])
        acc
        0
        ret
      ≡ ok (ret ++ a ∷ b ∷ c ∷ [])
  unfolding drain convert_loop finish
  three_back =
      let w1 = with_group acc (a / 8) in
      let w2 = with_group w1 (a % 8 * 4 + b / 64) in
      let w3 = with_group w2 (b / 2 % 32) in
      let w4 = with_group w3 (b % 2 * 16 + c / 16) in
      rw
        (
          group_round false (a / 8) _ acc 0 _ h (omega arith),
          group_round false (a % 8 * 4 + b / 64) _ w1 5 _ (omega arith) (omega arith),
          group_round false (b / 2 % 32) _ w2 2 _ (omega arith) (omega arith),
          group_round false (b % 2 * 16 + c / 16) _ w3 7 _ (omega arith) (omega arith),
          group_round false (c % 16 * 2) _ w4 4 _ (omega arith) (omega arith),
          and_255,
        )
        (simp (byte_mask_pushed, append_assoc) (ground arith))

  four_back :
      convert_loop 5 8 false
        ((a / 8)
          ∷ (a % 8 * 4 + b / 64)
          ∷ (b / 2 % 32)
          ∷ (b % 2 * 16 + c / 16)
          ∷ (c % 16 * 2 + d / 128)
          ∷ (d / 4 % 32)
          ∷ (d % 4 * 8)
          ∷ [])
        acc
        0
        ret
      ≡ ok (ret ++ a ∷ b ∷ c ∷ d ∷ [])
  unfolding drain convert_loop finish
  four_back =
      let w1 = with_group acc (a / 8) in
      let w2 = with_group w1 (a % 8 * 4 + b / 64) in
      let w3 = with_group w2 (b / 2 % 32) in
      let w4 = with_group w3 (b % 2 * 16 + c / 16) in
      let w5 = with_group w4 (c % 16 * 2 + d / 128) in
      let w6 = with_group w5 (d / 4 % 32) in
      rw
        (
          group_round false (a / 8) _ acc 0 _ h (omega arith),
          group_round false (a % 8 * 4 + b / 64) _ w1 5 _ (omega arith) (omega arith),
          group_round false (b / 2 % 32) _ w2 2 _ (omega arith) (omega arith),
          group_round false (b % 2 * 16 + c / 16) _ w3 7 _ (omega arith) (omega arith),
          group_round false (c % 16 * 2 + d / 128) _ w4 4 _ (omega arith) (omega arith),
          group_round false (d / 4 % 32) _ w5 1 _ (omega arith) (omega arith),
          group_round false (d % 4 * 8) _ w6 6 _ (omega arith) (omega arith),
          and_255,
        )
        (simp (byte_mask_pushed, append_assoc) (ground arith))

  five_back :
      (s : Bytes)
      → convert_loop 5 8 false
          ((a / 8)
            ∷ (a % 8 * 4 + b / 64)
            ∷ (b / 2 % 32)
            ∷ (b % 2 * 16 + c / 16)
            ∷ (c % 16 * 2 + d / 128)
            ∷ (d / 4 % 32)
            ∷ (d % 4 * 8 + e / 32)
            ∷ (e % 32)
            ∷ s)
          acc
          0
          ret
        ≡ convert_loop 5 8 false s (last_of_eight acc a b c d e) 0 (ret ++ a ∷ b ∷ c ∷ d ∷ e ∷ [])
  unfolding drain
  five_back s =
      let w1 = with_group acc (a / 8) in
      let w2 = with_group w1 (a % 8 * 4 + b / 64) in
      let w3 = with_group w2 (b / 2 % 32) in
      let w4 = with_group w3 (b % 2 * 16 + c / 16) in
      let w5 = with_group w4 (c % 16 * 2 + d / 128) in
      let w6 = with_group w5 (d / 4 % 32) in
      let w7 = with_group w6 (d % 4 * 8 + e / 32) in
      rw
        (
          group_round false (a / 8) _ acc 0 _ h (omega arith),
          group_round false (a % 8 * 4 + b / 64) _ w1 5 _ (omega arith) (omega arith),
          group_round false (b / 2 % 32) _ w2 2 _ (omega arith) (omega arith),
          group_round false (b % 2 * 16 + c / 16) _ w3 7 _ (omega arith) (omega arith),
          group_round false (c % 16 * 2 + d / 128) _ w4 4 _ (omega arith) (omega arith),
          group_round false (d / 4 % 32) _ w5 1 _ (omega arith) (omega arith),
          group_round false (d % 4 * 8 + e / 32) _ w6 6 _ (omega arith) (omega arith),
          group_round false (e % 32) _ w7 3 _ (omega arith) (omega arith),
        )
        (simp (byte_mask_pushed, append_assoc) (ground arith))

convert_loop-back :
    (s : Bytes) (acc : ℕ) (ret : Bytes)
    → acc < 4096
    → All IsByte s
    → convert_loop 5 8 false (quintets s) acc 0 ret ≡ ok (ret ++ s)
unfolding quintets
convert_loop-back [] acc ret h _ =
    rw append-nil (unfold convert_loop finish in ground (arith, and_255 (acc * 2 ^ 8 % 2 ^ 32)))
convert_loop-back (a ∷ []) acc ret h (ha, _) = one_back acc a a a a a ret h ha ha ha ha ha
convert_loop-back (a ∷ b ∷ []) acc ret h (ha, (hb, _)) = two_back acc a b b b b ret h ha hb hb hb hb
convert_loop-back (a ∷ b ∷ c ∷ []) acc ret h (ha, (hb, (hc, _))) =
    three_back acc a b c c c ret h ha hb hc hc hc
convert_loop-back (a ∷ b ∷ c ∷ d ∷ []) acc ret h (ha, (hb, (hc, (hd, _)))) =
    four_back acc a b c d d ret h ha hb hc hd hd
convert_loop-back (a ∷ b ∷ c ∷ d ∷ e ∷ s) acc ret h (ha, (hb, (hc, (hd, (he, hs))))) =
    five_back acc a b c d e ret h ha hb hc hd he (quintets s)
    ∙ convert_loop-back s _ _ (omega arith) hs
    ∙ ap ok (append_assoc ret _ _)

-- A byte string that is regrouped from eight to five bits with padding, and the groups from five
-- to eight bits without, comes back.
pub convert_bits-convert_bits :
    (s : Bytes)
    → All IsByte s
    → (do groups ← convert_bits s 8 5 true; convert_bits groups 5 8 false) ≡ ok s
convert_bits-convert_bits s h =
    rw (convert_bits-eq-quintets s h)
      (unfold convert_bits in convert_loop-back s 0 [] (omega arith) h)
