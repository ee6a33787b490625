-- ===== src/Common/Search.antt =====
-- Where `find` finds a line of a text.
use Prim.Native.Nat.{ℕ, suc, ◌+◌}
use mathlib.Core.Path.{◌≡◌, refl, sym, ap, ◌∙◌}
use mathlib.Core.Logic.{inl, inr}
use mathlib.Core.Bool.{Bool, true, false, ◌||◌}
use mathlib.Core.List.{List, [], ◌∷◌, ◌++◌, append_assoc}
use mathlib.Core.Option.{Option, none, some}
use native.Mathlib.Omega.{arith}
use mx_sdk_cpp.Common.Tests.{Bool-cases}
use mx_sdk_cpp.Common.Lists.{Bytes, All, length, length-append}
use mx_sdk_cpp.Common.Texts.{
  newline, starts_with, find, found_at, is_found, contains, IsLine, unlines, lines, lines-line,
}

is_found-found_at : (b : Bool) (o : Option ℕ) → is_found (found_at b o) ≡ (b || is_found o)
is_found-found_at true o = refl
is_found-found_at false none = refl
is_found-found_at false (some i) = refl

contains-cons :
    (p : Bytes) (c : ℕ) (s : Bytes) → contains p (c ∷ s) ≡ (starts_with p (c ∷ s) || contains p s)
unfolding find
contains-cons p c s = is_found-found_at (starts_with p (c ∷ s)) (find p s)

starts_with_trans :
    (p q s : Bytes) → starts_with p q ≡ true → starts_with q s ≡ true → starts_with p s ≡ true
starts_with_trans [] q s h k = refl
starts_with_trans (c ∷ p) [] s h k = absurd cc
starts_with_trans (c ∷ p) (d ∷ q) [] h k = absurd cc
starts_with_trans (c ∷ p) (d ∷ q) (e ∷ s) h k = let ih = starts_with_trans p q s in ground arith

pub starts_with_append : (p s : Bytes) → starts_with p (p ++ s) ≡ true
starts_with_append [] s = refl
starts_with_append (c ∷ p) s = ground (arith, starts_with_append p s)

-- A line at the front of a line and of what follows it is at the front of the line.
starts_with_line :
    (q l s : Bytes) → IsLine q → starts_with q (l ++ newline ∷ s) ≡ true → starts_with q l ≡ true
starts_with_line [] l s h k = refl
starts_with_line (c ∷ q) [] s (hc, h) k = ground arith
starts_with_line (c ∷ q) (d ∷ l) s (hc, h) k = let ih = starts_with_line q l s h in ground arith

pub find-front : (p s : Bytes) → starts_with p s ≡ true → find p s ≡ some 0
unfolding find
find-front p [] h = rw h
find-front p (c ∷ s) h = rw h

or_true : (b : Bool) → (b || true) ≡ true
or_true true = refl
or_true false = refl

contains_front : (p s : Bytes) → starts_with p s ≡ true → contains p s ≡ true
contains_front p s h = ap is_found (find-front p s h)

contains_nil : (p s : Bytes) → contains p [] ≡ true → contains p s ≡ true
unfolding find
contains_nil [] s k = contains_front [] s refl
contains_nil (c ∷ p) s k = absurd cc

-- What a text has, a text that starts with it has.
contains_longer :
    (p q s : Bytes) → starts_with q s ≡ true → contains p q ≡ true → contains p s ≡ true
contains_longer p [] s h k = contains_nil p s k
contains_longer p (c ∷ q) [] h k = absurd cc
contains_longer p (c ∷ q) (d ∷ s) h k = elim (Bool-cases (starts_with p (c ∷ q))) [
  | inl front ↦ contains_front p (d ∷ s) (starts_with_trans p (c ∷ q) (d ∷ s) front h)
  | inr absent ↦
      let rest : starts_with q s ≡ true = ground arith in
      let inside : contains p q ≡ true =
        sym (ap (λ b. b || contains p q) absent) ∙ sym (contains-cons p c q) ∙ k in
      rw (contains-cons p d s, contains_longer p q s rest inside) (or_true (starts_with p (d ∷ s)))
]

contains_later : (p : Bytes) (c : ℕ) (s : Bytes) → contains p (c ∷ s) ≡ false → contains p s ≡ false
contains_later p c s h =
    later (starts_with p (c ∷ s)) (contains p s) (sym (contains-cons p c s) ∙ h)
  where
    later : (a b : Bool) → (a || b) ≡ false → b ≡ false
    later true b h = absurd cc
    later false b h = h

module _ (word q : Bytes) (line : IsLine q) (has : contains word q ≡ true) where
  -- Not in a line without the word.
  not_at : (l s : Bytes) → contains word l ≡ false → starts_with q (l ++ newline ∷ s) ≡ false
  not_at l s lacks = elim (Bool-cases (starts_with q (l ++ newline ∷ s))) [
    | inl front ↦
        let there = contains_longer word q l (starts_with_line q l s line front) has in absurd cc
    | inr absent ↦ absent
  ]

  find-line :
      (l s : Bytes) (i : ℕ)
      → contains word l ≡ false
      → find q s ≡ some i
      → find q (l ++ newline ∷ s) ≡ some (length l + suc i)
  unfolding find
  find-line [] s i lacks h = rw (not_at [] s lacks, h) (ap some (omega arith))
  find-line (c ∷ l) s i lacks h =
      let later = find-line l s i (contains_later word c l lacks) h in
      rw (not_at (c ∷ l) s lacks, later) (ap some (omega arith))

  pub find-unlines :
      (before : List Bytes) (s : Bytes)
      → All (λ l. contains word l ≡ false) before
      → find q (unlines before ++ (q ++ s)) ≡ some (length (unlines before))
  find-unlines [] s h = find-front q (q ++ s) (starts_with_append q s)
  find-unlines (l ∷ before) s (hl, h) = rw (append_assoc l (newline ∷ unlines before) (q ++ s)) (
      find-line l (unlines before ++ (q ++ s)) (length (unlines before)) hl
        (find-unlines before s h)
      ∙ ap some (sym (length-append l (newline ∷ unlines before))))

pub lines-unlines_append :
    (before : List Bytes) (s : Bytes)
    → All IsLine before
    → lines (unlines before ++ s) ≡ before ++ lines s
lines-unlines_append [] s h = refl
lines-unlines_append (l ∷ before) s (hl, h) =
    ap lines (append_assoc l (newline ∷ unlines before) s)
    ∙ lines-line l (unlines before ++ s) hl
    ∙ ap (◌∷◌ l) (lines-unlines_append before s h)
