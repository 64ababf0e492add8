-- ===== src/Prelude/Maps.antt =====
-- `std::unordered_map` as an association list without duplicate writes: a later entry for a key is
-- hidden by an earlier one, and `erase` drops all of them. The sources never iterate over a map.
use Prim.Native.Nat.{ℕ}
use mathlib.Core.Path.{◌≡◌, refl}
use mathlib.Core.Option.{Option, none, some}
use mathlib.Core.List.{List, [], ◌∷◌}
use native.Mathlib.Omega.{arith}
use titan_share.Prelude.Tests.{if◌then◌else◌}
use titan_share.Prelude.Strings.{Bytes, eqb, eqb_iff}

abbrev pub Assoc {ℓ} : Type ℓ → Type ℓ
Assoc V = List (Bytes × V)

module _ {ℓ} {V : Type ℓ} where
  -- `m.find(k)`; `none` is `end()`.
  unfoldable pub lookup : Bytes → Assoc V → Option V
  lookup k [] = none
  lookup k ((j, v) ∷ m) = if eqb j k then some v else lookup k m

  -- `m[k] = v`.
  unfoldable pub insert : Bytes → V → Assoc V → Assoc V
  insert k v [] = (k, v) ∷ []
  insert k v ((j, w) ∷ m) = if eqb j k then (k, v) ∷ m else (j, w) ∷ insert k v m

  -- `m.erase(k)`.
  unfoldable pub erase : Bytes → Assoc V → Assoc V
  erase k [] = []
  erase k ((j, v) ∷ m) = let rest = erase k m in if eqb j k then rest else (j, v) ∷ rest

  pub lookup-insert :
      (k j : Bytes) (v : V) (m : Assoc V)
      → lookup j (insert k v m) ≡ (if eqb k j then some v else lookup j m)
  unfolding lookup insert
  lookup-insert k j v [] = refl
  lookup-insert k j v ((i, w) ∷ m) =
      ground (arith, eqb_iff k j, eqb_iff i k, eqb_iff i j, lookup-insert k j v m)

  pub lookup-erase :
      (k j : Bytes) (m : Assoc V) → lookup j (erase k m) ≡ (if eqb k j then none else lookup j m)
  unfolding lookup erase
  lookup-erase k j [] = ground arith
  lookup-erase k j ((i, v) ∷ m) =
      ground (arith, lookup-erase k j m, eqb_iff i k, eqb_iff i j, eqb_iff k j)

-- `m[k]` of a map of `int`: a missing key reads as 0.
abbrev pub count_of : Option ℕ → ℕ
count_of none = 0
count_of (some n) = n
