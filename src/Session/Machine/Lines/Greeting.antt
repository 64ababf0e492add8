-- ===== src/Session/Machine/Lines/Greeting.antt =====
-- The line with the PIN as a phone prints it, and what `handleAuth` reads from it.
use titan_share.Prelude.{
  ◌≡◌, refl, ap, ◌∙◌, ◌<◌, ◌==◌, ◌&&◌, ◌||◌, leb, Bool, true, false, ℕ, [], ◌∷◌, ◌++◌, length,
  Bytes, codes, eqb, substr, substr_from, trim_front, trim_back, contains, all_digits,
  all_digits_lacks, arith,
}
use titan_share.Session.Login.{read_pin}
use titan_share.Session.Machine.{drop_return}

abbrev pub pin_line : Bytes → Bytes
pin_line pin = codes "AUTH:" ++ pin

pub drop_return_lem : (s : Bytes) → contains s b'\r' ≡ false → drop_return s ≡ s
unfolding drop_return contains
drop_return_lem [] h = refl
drop_return_lem (c ∷ []) h = ground arith
drop_return_lem (c ∷ d ∷ s) h = ap (◌∷◌ c) (drop_return_lem (d ∷ s) (ground arith))

abbrev is_blank : ℕ → Bool
is_blank c = c == b' ' || c == b'\t' || c == b'\r'

trim_back_digits : (s : Bytes) → all_digits s ≡ true → trim_back is_blank s ≡ s
unfolding trim_back
trim_back_digits [] h = refl
trim_back_digits (c ∷ []) h = ground arith
trim_back_digits (c ∷ d ∷ s) h = ground (arith, trim_back_digits (d ∷ s))

trim_front_digits :
    (s : Bytes) → all_digits s ≡ true → trim_front (λ c. c == b' ' || c == b'\t') s ≡ s
unfolding trim_front
trim_front_digits [] h = refl
trim_front_digits (c ∷ s) h = ground arith

read_pin_line :
    (pin : Bytes) → all_digits pin ≡ true → 0 < length pin → read_pin (pin_line pin) ≡ pin
unfolding read_pin substr substr_from eqb
read_pin_line pin h k = ground (
  arith,
  trim_back_digits pin h,
  trim_front_digits pin h,
  ap (trim_front (λ c. c == b' ' || c == b'\t')) (trim_back_digits pin h),
)

pub pin_line_lacks :
    (pin : Bytes) (c : ℕ)
    → all_digits pin ≡ true
    → (leb b'0' c && leb c b'9') ≡ false
    → contains (codes "AUTH:") c ≡ false
    → contains (pin_line pin) c ≡ false
unfolding contains
pin_line_lacks pin c h k g = ground (arith, all_digits_lacks pin c h k)

-- The PIN is read back.
pub read_pin-drop_return-pin_line :
    (pin : Bytes)
    → all_digits pin ≡ true
    → 0 < length pin
    → read_pin (drop_return (pin_line pin)) ≡ pin
unfolding contains
read_pin-drop_return-pin_line pin h k =
    ap read_pin (drop_return_lem (pin_line pin) (pin_line_lacks pin b'\r' h refl refl))
    ∙ read_pin_line pin h k
