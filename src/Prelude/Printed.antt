-- ===== src/Prelude/Printed.antt =====
-- Texts that were printed, read back by lines, words and numbers.
use Prim.Native.Nat.{ℕ, zero, suc, ◌≤◌}
use mathlib.Core.Path.{◌≡◌, refl, ap, ◌∙◌}
use mathlib.Core.Bool.{Bool, true, false, ◌||◌}
use mathlib.Core.List.{List, [], ◌∷◌, ◌++◌, map}
use native.Mathlib.Omega.{arith}
use titan_share.Prelude.Tests.{if◌then◌else◌}
use titan_share.Prelude.Lists.{length}
use titan_share.Prelude.Strings.{Bytes, contains, trim_front}
use titan_share.Prelude.Decimal.{to_string, all_digits, to_string-all_digits}
use titan_share.Prelude.Parse.{ℤ, pos, is_space}
use titan_share.Prelude.Streams.{
  lines, first_line, skip_word, got, extract, extract_up_to, long_max, no_digit_next,
  extract-to_string,
}

pub contains-append : (s t : Bytes) (c : ℕ) → contains (s ++ t) c ≡ contains s c || contains t c
unfolding contains
contains-append [] t c = refl
contains-append (x ∷ s) t c = ground (arith, contains-append s t c)

pub lines-append :
    (l rest : Bytes) → contains l b'\n' ≡ false → lines (l ++ b'\n' ∷ rest) ≡ l ∷ lines rest
unfolding lines contains
lines-append [] rest h = refl
lines-append (c ∷ l) rest h = ground (arith, lines-append l rest)

pub first_line-append :
    (l rest : Bytes) → contains l b'\n' ≡ false → first_line (l ++ b'\n' ∷ rest) ≡ l
unfolding first_line contains
first_line-append [] rest h = refl
first_line-append (c ∷ l) rest h = ground (arith, first_line-append l rest)

-- No byte is white space.
abbrev pub no_space : Bytes → Bool
no_space [] = true
no_space (c ∷ s) = if is_space c then false else no_space s

pub skip_word-append : (w s : Bytes) → no_space w ≡ true → skip_word s ≡ s → skip_word (w ++ s) ≡ s
unfolding skip_word
skip_word-append [] s h k = k
skip_word-append (c ∷ w) s h k = ground (arith, skip_word-append w s)

pub all_digits-no_space : (s : Bytes) → all_digits s ≡ true → no_space s ≡ true
all_digits-no_space [] h = refl
all_digits-no_space (c ∷ s) h = ground (arith, all_digits-no_space s)

pub all_digits_no_newline : (s : Bytes) → all_digits s ≡ true → contains s b'\n' ≡ false
unfolding contains
all_digits_no_newline [] h = refl
all_digits_no_newline (c ∷ s) h = ground (arith, all_digits_no_newline s)

-- Numbers with a space before each.
unfoldable pub printed : List ℕ → Bytes
printed [] = []
printed (v ∷ vs) = b' ' ∷ (to_string v ++ printed vs)

pub printed-no_newline : (vs : List ℕ) → contains (printed vs) b'\n' ≡ false
unfolding contains printed
printed-no_newline [] = refl
printed-no_newline (v ∷ vs) = ground (
  arith,
  contains-append (to_string v) (printed vs) b'\n',
  all_digits_no_newline (to_string v) (to_string-all_digits v),
  printed-no_newline vs,
)

pub skip_word-printed : (vs : List ℕ) → skip_word (printed vs) ≡ printed vs
unfolding skip_word printed
skip_word-printed [] = refl
skip_word-printed (v ∷ vs) = refl

printed-no_digit_next : (vs : List ℕ) → no_digit_next (printed vs) ≡ true
unfolding printed
printed-no_digit_next [] = refl
printed-no_digit_next (v ∷ vs) = refl

-- Every number fits `long`.
abbrev pub AllLong : List ℕ → Type 0
AllLong [] = Unit
AllLong (v ∷ vs) = (v ≤ long_max) × AllLong vs

extract_up_to_step :
    (n : ℕ) (s : Bytes) (v : ℤ) (rest : Bytes)
    → extract s ≡ got v rest
    → extract_up_to (suc n) s ≡ v ∷ extract_up_to n rest
unfolding extract_up_to
extract_up_to_step n s v rest e = rw (e, extract_up_to)

pub extract_up_to-printed :
    (vs : List ℕ) → AllLong vs → extract_up_to (length vs) (printed vs) ≡ map pos vs
unfolding printed extract_up_to
extract_up_to-printed [] h = refl
extract_up_to-printed (v ∷ vs) (h, hs) =
    extract_up_to_step (length vs) (printed (v ∷ vs)) (pos v) (printed vs)
      (extract-to_string v (printed vs) h (printed-no_digit_next vs))
    ∙ ap (λ rest. pos v ∷ rest) (extract_up_to-printed vs hs)

-- White space before a number is passed over.
pub extract_up_to_space : (n : ℕ) (s : Bytes) → extract_up_to n (b' ' ∷ s) ≡ extract_up_to n s
unfolding extract_up_to extract trim_front
extract_up_to_space zero s = refl
extract_up_to_space (suc n) s = refl
