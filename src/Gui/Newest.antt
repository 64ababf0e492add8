-- ===== src/Gui/Newest.antt =====
-- The newest of several files.
use titan_share.Prelude.{
  ℕ, ◌<◌, ◌≡◌, refl, ap, ◌∙◌, ◌⊎◌, inl, inr, false, Option, none, some, List, [], ◌∷◌, Bytes, ℤ,
  pos, leb_ℤ, arith,
}
use titan_share.Gui.Ipc.{better, newest}

-- Every other path has no file, or an older one than `t`.
abbrev pub AreOlder : (Bytes → Option ℤ) → Bytes → ℕ → List Bytes → Type 0
AreOlder modified p t [] = Unit
AreOlder modified p t (q ∷ qs) =
    ((q ≡ p) ⊎ ((modified q ≡ none) ⊎ ((s : ℕ) × (modified q ≡ some (pos s)) × (s < t))))
    × AreOlder modified p t qs

-- The best so far is the path itself, or older than it.
abbrev pub IsBest : Bytes → ℕ → Bytes × ℤ → Type 0
IsBest p t best = (best ≡ (p, pos t)) ⊎ (leb_ℤ (pos t) best.1 ≡ false)

better-IsBest :
    (modified : Bytes → Option ℤ) (p q : Bytes) (t : ℕ) (best : Bytes × ℤ)
    → modified p ≡ some (pos t)
    → IsBest p t best
    → ((q ≡ p) ⊎ ((modified q ≡ none) ⊎ ((s : ℕ) × (modified q ≡ some (pos s)) × (s < t))))
    → IsBest p t (better (modified q) q best)
unfolding better
better-IsBest modified p q t best e b o = ground arith

abbrev pub Occurs : Bytes → List Bytes → Type 0
Occurs p [] = ⊥
Occurs p (q ∷ qs) = (q ≡ p) ⊎ Occurs p qs

better_self :
    (p : Bytes) (t : ℕ) (best : Bytes × ℤ)
    → IsBest p t best
    → better (some (pos t)) p best ≡ (p, pos t)
unfolding better
better_self p t best b = ground arith

better_keeps :
    (modified : Bytes → Option ℤ) (p q : Bytes) (t : ℕ)
    → modified p ≡ some (pos t)
    → ((q ≡ p) ⊎ ((modified q ≡ none) ⊎ ((s : ℕ) × (modified q ≡ some (pos s)) × (s < t))))
    → better (modified q) q (p, pos t) ≡ (p, pos t)
unfolding better
better_keeps modified p q t e o = ground arith

newest_keeps :
    (modified : Bytes → Option ℤ) (p : Bytes) (t : ℕ) (ps : List Bytes)
    → modified p ≡ some (pos t)
    → AreOlder modified p t ps
    → newest modified ps (p, pos t) ≡ (p, pos t)
unfolding newest
newest_keeps modified p t [] e o = refl
newest_keeps modified p t (q ∷ qs) e (o, os) =
    ap (newest modified qs) (better_keeps modified p q t e o) ∙ newest_keeps modified p t qs e os

pub newest-Occurs :
    (modified : Bytes → Option ℤ) (p : Bytes) (t : ℕ) (ps : List Bytes) (best : Bytes × ℤ)
    → modified p ≡ some (pos t)
    → Occurs p ps
    → AreOlder modified p t ps
    → IsBest p t best
    → newest modified ps best ≡ (p, pos t)
unfolding newest
newest-Occurs modified p t [] best e m o b = absurd m
newest-Occurs modified p t (q ∷ qs) best e (inl same) (o, os) b =
    ap (newest modified qs) (
      ap (λ r. better (modified r) r best) same
      ∙ ap (λ mt. better mt p best) e
      ∙ better_self p t best b)
    ∙ newest_keeps modified p t qs e os
newest-Occurs modified p t (q ∷ qs) best e (inr m) (o, os) b =
    newest-Occurs modified p t qs (better (modified q) q best) e m os
      (better-IsBest modified p q t best e b o)
