-- ===== src/Auth/Pins.antt =====
-- The rolling window of PINs over a whole history of `generateSession` calls: the one at start-up
-- and those of the refresh timer in src/main.cpp.
use mathlib.Core.List.{Mem, mem-cons_self, mem-cons_of_mem, eq-or-mem_of_mem-cons, not-mem-nil}
use mathlib.Core.Bool.{Bool-set}
use mathlib.Core.Logic.Or
use titan_share.Config.{max_recent_pins, pairing_pin_digits}
use titan_share.Prelude.{
  ℕ, ◌-◌, ◌≤◌, ◌≡◌, refl, ap, ◌∙◌, ◌↔◌, inl, inr, Bool, true, Option, some, List, [], ◌∷◌, ◌++◌,
  map, append_assoc, append-nil, length, length-append, drop, drop-drop, drop-append_left,
  length-drop, Bytes, eqb, eqb_iff, Bool-cases, arith, all_digits, length-to_string,
  to_string-all_digits,
}
use titan_share.Auth.{
  SessionManager, min_val, max_val, generate_pin, remember_pin, generate_session, find_pin,
  validate_key, init,
}

-- One call of `generateSession`, with what it reads.
pub record Refresh : Type 0 where
  pub preserve_pin : Bool
  pub loaded : Option Bytes
  pub ip : Bytes
  pub dist : ℕ → ℕ → ℕ

unfoldable pub refresh : SessionManager → Refresh → SessionManager
refresh m r = generate_session r.preserve_pin r.loaded r.ip r.dist m

unfoldable pub refresh_all : SessionManager → List Refresh → SessionManager
refresh_all m [] = m
refresh_all m (r ∷ rs) = refresh_all (refresh m r) rs

-- The PIN that a call settles on.
abbrev chosen_from : Bool → Option Bytes → (ℕ → ℕ → ℕ) → Bytes
chosen_from true (some p) dist = p
chosen_from _ _ dist = generate_pin dist

abbrev pub chosen : Refresh → Bytes
chosen r = chosen_from r.preserve_pin r.loaded r.dist

-- The last twelve entries of a history.
abbrev pub last_pins : List Bytes → List Bytes
last_pins pins = drop (length pins - max_recent_pins) pins

remember_pin-last_pins :
    (h : List Bytes) (p : Bytes) → remember_pin (last_pins h) p ≡ last_pins (h ++ p ∷ [])
unfolding remember_pin
remember_pin-last_pins h p = rw (← drop-append_left (length h - 12) h (p ∷ []) (omega arith)) (
    ground (
      arith,
      length-append h (p ∷ []),
      length-drop (length h - 12) (h ++ p ∷ []),
      drop-drop (length h - 12) 1 (h ++ p ∷ []),
    ))

recent_pins-refresh :
    (m : SessionManager) (r : Refresh)
    → (refresh m r).recent_pins ≡ remember_pin m.recent_pins (chosen r)
unfolding refresh generate_session
recent_pins-refresh m r = ground arith

recent_pins-refresh_all :
    (rs : List Refresh) (m : SessionManager) (h : List Bytes)
    → m.recent_pins ≡ last_pins h
    → (refresh_all m rs).recent_pins ≡ last_pins (h ++ map chosen rs)
unfolding refresh_all
recent_pins-refresh_all [] m h e = rw append-nil e
recent_pins-refresh_all (r ∷ rs) m h e =
    recent_pins-refresh_all rs (refresh m r) (h ++ chosen r ∷ []) (
      recent_pins-refresh m r
      ∙ ap (λ ps. remember_pin ps (chosen r)) e
      ∙ remember_pin-last_pins h (chosen r))
    ∙ ap last_pins (append_assoc h (chosen r ∷ []) (map chosen rs))

find_pin→Mem : (ps : List Bytes) (p : Bytes) → find_pin ps p ≡ true → Mem p ps
unfolding find_pin
find_pin→Mem [] p h = cc
find_pin→Mem (q ∷ ps) p h = elim (Bool-cases (eqb q p)) [
  | inl same ↦ rw ((eqb_iff q p).0 same) mem-cons_self
  | inr other ↦ mem-cons_of_mem q (find_pin→Mem ps p (rw other at h))
]

Mem→find_pin : (ps : List Bytes) (p : Bytes) → Mem p ps → find_pin ps p ≡ true
unfolding find_pin
Mem→find_pin [] p m = absurd (not-mem-nil m)
Mem→find_pin (q ∷ ps) p m =
    Or.elim (Bool-set _ _) (eq-or-mem_of_mem-cons m) (λ e. ground (arith, eqb_iff q p))
      (λ later. ground (arith, Mem→find_pin ps p later))

-- After any history of refreshes a PIN is accepted exactly if it is one of the last twelve.
pub validate_key-refresh_all :
    (ip host pin : Bytes) (rs : List Refresh)
    → (validate_key (refresh_all (init ip host) rs) pin ≡ true)
      ↔ Mem pin (last_pins (map chosen rs))
unfolding validate_key init
validate_key-refresh_all ip host pin rs =
    rw (recent_pins-refresh_all rs (init ip host) [] refl)
      (find_pin→Mem (last_pins (map chosen rs)) pin, Mem→find_pin (last_pins (map chosen rs)) pin)

-- A draw within the bounds asked for gives a PIN of exactly six bytes, all of them digits.
pub generate_pin_digits :
    (dist : ℕ → ℕ → ℕ)
    → ((lo hi : ℕ) → lo ≤ hi → (lo ≤ dist lo hi) × (dist lo hi ≤ hi))
    → (length (generate_pin dist) ≡ pairing_pin_digits) × (all_digits (generate_pin dist) ≡ true)
unfolding generate_pin min_val max_val
generate_pin_digits dist within =
    let draw = within 100000 999999 (omega arith) in
    (
      length-to_string 5 (dist 100000 999999) (omega arith) (omega arith),
      to_string-all_digits (dist 100000 999999),
    )
