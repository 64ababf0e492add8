-- ===== src/Prelude/Strings.antt =====
-- Byte strings: `std::string` and `std::vector<char>` as lists of byte values, with the members of
-- `std::string` that the sources call.
use Prim.Native.Nat.{ℕ, suc, ◌<◌}
use Prim.Native.Char.{code}
use Prim.Native.String.{String}
use mathlib.Core.Path.{◌≡◌, refl, ap}
use mathlib.Core.Logic.{◌↔◌, ◌⊎◌, inl, inr}
use mathlib.Core.Bool.{Bool, true, false, ◌&&◌, ◌||◌}
use mathlib.Core.Option.{Option, none, some}
use mathlib.Core.List.{List, [], ◌∷◌, ◌++◌}
use native.Mathlib.Omega.{arith}
use titan_share.Prelude.Tests.{◌==◌, if◌then◌else◌, Option-cases}
use titan_share.Prelude.Lists.{length, take, drop}

abbrev pub Bytes : Type 0
Bytes = List ℕ

-- The bytes of a literal; every literal below is ASCII.
abbrev pub codes : String → Bytes
codes String.[] = []
codes (String.◌∷◌ c s) = code c ∷ codes s

-- `a == b` of two strings.
unfoldable pub eqb : Bytes → Bytes → Bool
eqb [] [] = true
eqb (x ∷ xs) (y ∷ ys) = x == y && eqb xs ys
eqb _ _ = false

eqb-true : (a b : Bytes) → eqb a b ≡ true → a ≡ b
unfolding eqb
eqb-true [] [] h = refl
eqb-true (x ∷ xs) (y ∷ ys) h = ground (arith, eqb-true xs ys)
eqb-true [] (y ∷ ys) h = cc
eqb-true (x ∷ xs) [] h = cc

pub eqb_refl : (a : Bytes) → eqb a a ≡ true
unfolding eqb
eqb_refl [] = refl
eqb_refl (x ∷ xs) = ground (arith, eqb_refl xs)

pub eqb_iff : (a b : Bytes) → (eqb a b ≡ true) ↔ (a ≡ b)
eqb_iff a b = (eqb-true a b, λ p. rw p (eqb_refl b))

-- `s.substr(pos, n)` and `s.substr(pos)` for a `pos` within the string.
unfoldable pub substr : Bytes → ℕ → ℕ → Bytes
substr s pos n = take n (drop pos s)

unfoldable pub substr_from : Bytes → ℕ → Bytes
substr_from s pos = drop pos s

-- `s.empty()`.
abbrev pub is_empty : Bytes → Bool
is_empty [] = true
is_empty (_ ∷ _) = false

-- `s.find(c)`; `none` is npos.
unfoldable pub find : Bytes → ℕ → Option ℕ
find [] c = none
find (x ∷ xs) c =
    let rest = find xs c in
    if x == c then some 0 else elim rest [ none ↦ none | some i ↦ some (suc i) ]

-- `s.rfind(c)`.
unfoldable pub rfind : Bytes → ℕ → Option ℕ
rfind [] c = none
rfind (x ∷ xs) c = elim (rfind xs c) [
  | some i ↦ some (suc i)
  | none ↦ if x == c then some 0 else none
]

-- `std::replace(s.begin(), s.end(), from, to)`.
unfoldable pub replace : Bytes → ℕ → ℕ → Bytes
replace [] from to = []
replace (x ∷ xs) from to = (if x == from then to else x) ∷ replace xs from to

-- `while (!s.empty() && p(s.front())) s.erase(s.begin())`.
unfoldable pub trim_front : (ℕ → Bool) → Bytes → Bytes
trim_front p [] = []
trim_front p (x ∷ xs) = let rest = trim_front p xs in if p x then rest else x ∷ xs

-- `while (!s.empty() && p(s.back())) s.pop_back()`: a byte is dropped when all behind it are.
unfoldable pub trim_back : (ℕ → Bool) → Bytes → Bytes
trim_back p [] = []
trim_back p (x ∷ xs) = elim (trim_back p xs) [
  | [] ↦ if p x then [] else x ∷ []
  | y ∷ ys ↦ x ∷ y ∷ ys
]

-- Whether a byte occurs.
unfoldable pub contains : Bytes → ℕ → Bool
contains [] c = false
contains (x ∷ xs) c = x == c || contains xs c

pub contains-replace :
    (s : Bytes) (from to c : ℕ)
    → contains (replace s from to) c ≡ true
    → (contains s c ≡ true) × ((c == from) ≡ false) ⊎ (c ≡ to)
unfolding contains replace
contains-replace [] from to c h = cc
contains-replace (x ∷ xs) from to c h = ground (arith, contains-replace xs from to c)

pub length-replace : (s : Bytes) (from to : ℕ) → length (replace s from to) ≡ length s
unfolding replace
length-replace [] from to = refl
length-replace (x ∷ xs) from to = ap suc (length-replace xs from to)

pub find-lt-length : (s : Bytes) (c i : ℕ) → find s c ≡ some i → i < length s
unfolding find
find-lt-length [] c i h = cc
find-lt-length (x ∷ xs) c i h = elim (Option-cases (find xs c)) [
  | inl e ↦ ground arith
  | inr (j, e) ↦ ground (arith, find-lt-length xs c j e)
]

-- The first `c` is the one with none before it.
pub find-append :
    (s t : Bytes) (c : ℕ) → contains s c ≡ false → find (s ++ c ∷ t) c ≡ some (length s)
unfolding find contains
find-append [] t c h = ground arith
find-append (x ∷ s) t c h = ground (arith, find-append s t c)
