-- ===== src/Common/Texts.antt =====
-- Texts cut into lines and at a character: `std::getline`, `std::string::find_last_of`, `find`.
use Prim.Native.Nat.{ℕ, suc}
use mathlib.Core.Path.{◌≡◌, refl, ap, ◌∙◌}
use mathlib.Core.Logic.{◌≢◌}
use mathlib.Core.Bool.{Bool, true, false, ◌&&◌}
use mathlib.Core.List.{List, [], ◌∷◌, ◌++◌}
use mathlib.Core.Option.{Option, none, some}
use native.Mathlib.Omega.{arith}
use mx_sdk_cpp.Common.Tests.{◌==◌, if◌then◌else◌}
use mx_sdk_cpp.Common.Lists.{Bytes, All, length}

abbrev pub newline : ℕ
newline = 10

abbrev put_front : ℕ → List Bytes → List Bytes
put_front c [] = (c ∷ []) ∷ []
put_front c (l ∷ ls) = (c ∷ l) ∷ ls

-- What `getline` returns before it fails: a newline at the end opens no further line.
unfoldable pub lines : Bytes → List Bytes
lines [] = []
lines (c ∷ s) = if c == newline then [] ∷ lines s else put_front c (lines s)

-- Each line with its newline.
abbrev pub unlines : List Bytes → Bytes
unlines [] = []
unlines (l ∷ ls) = l ++ newline ∷ unlines ls

abbrev pub IsLine : Bytes → Type 0
IsLine = All (λ c. c ≢ newline)

pub lines-line : (l : Bytes) (s : Bytes) → IsLine l → lines (l ++ newline ∷ s) ≡ l ∷ lines s
unfolding lines
lines-line [] s h = refl
lines-line (c ∷ l) s (hc, h) = ground (arith, lines-line l s h)

pub lines-unlines : (ls : List Bytes) → All IsLine ls → lines (unlines ls) ≡ ls
unfolding lines
lines-unlines [] h = refl
lines-unlines (l ∷ ls) (hl, h) = lines-line l (unlines ls) hl ∙ ap (◌∷◌ l) (lines-unlines ls h)

-- The position of the last `c`.
unfoldable pub last_of : ℕ → Bytes → Option ℕ
last_of c [] = none
last_of c (x ∷ s) = elim (last_of c s) [
  | some i ↦ some (suc i)
  | none ↦ if x == c then some 0 else none
]

pub last_of-none : (c : ℕ) (s : Bytes) → All (λ x. x ≢ c) s → last_of c s ≡ none
unfolding last_of
last_of-none c [] h = refl
last_of-none c (x ∷ s) (hx, h) = ground (arith, last_of-none c s h)

pub last_of-append :
    (c : ℕ) (a b : Bytes) → All (λ x. x ≢ c) b → last_of c (a ++ c ∷ b) ≡ some (length a)
unfolding last_of
last_of-append c [] b h = ground (arith, last_of-none c b h)
last_of-append c (x ∷ a) b h = ground (arith, last_of-append c a b h)

-- A text at the front of another, and anywhere in it.
abbrev pub starts_with : Bytes → Bytes → Bool
starts_with [] s = true
starts_with (p ∷ ps) [] = false
starts_with (p ∷ ps) (c ∷ s) = (p == c) && starts_with ps s

abbrev pub found_at : Bool → Option ℕ → Option ℕ
found_at true later = some 0
found_at false none = none
found_at false (some i) = some (suc i)

-- `s.find(p)`, the first position.
unfoldable pub find : Bytes → Bytes → Option ℕ
find p [] = found_at (starts_with p []) none
find p (c ∷ s) = found_at (starts_with p (c ∷ s)) (find p s)

abbrev pub is_found : Option ℕ → Bool
is_found none = false
is_found (some i) = true

abbrev pub contains : Bytes → Bytes → Bool
contains p s = is_found (find p s)
