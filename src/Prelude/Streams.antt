-- ===== src/Prelude/Streams.antt =====
-- `std::getline` and `>>` on a stream that holds a text.
use Prim.Native.Nat.{ℕ, zero, suc, ◌≤◌}
use mathlib.Core.Path.{◌≡◌, refl, ap, ◌∙◌}
use mathlib.Core.Logic.{◌≢◌}
use mathlib.Core.Bool.{Bool, true, false}
use mathlib.Core.List.{List, [], ◌∷◌, ◌++◌}
use native.Mathlib.Omega.{arith}
use titan_share.Prelude.Tests.{leb, ◌==◌, if◌then◌else◌}
use titan_share.Prelude.Strings.{Bytes, trim_front, is_empty}
use titan_share.Prelude.Decimal.{to_string, all_digits, to_string-all_digits}
use titan_share.Prelude.Parse.{
  ℤ, pos, negsuc, is_space, is_digit, value, value-to_string, to_string-ne-nil,
}

-- One more byte of a line, or of a word.
abbrev pub cons_first : ℕ → List Bytes → List Bytes
cons_first c [] = (c ∷ []) ∷ []
cons_first c (l ∷ ls) = (c ∷ l) ∷ ls

-- The lines that `std::getline` yields, called until it fails.
unfoldable pub lines : Bytes → List Bytes
lines [] = []
lines (c ∷ cs) = let rest = lines cs in if c == b'\n' then [] ∷ rest else cons_first c rest

-- `true` where the byte continues a word.
starts_word : Bytes → Bool
starts_word [] = false
starts_word (c ∷ cs) = if is_space c then false else true

-- The words that `>>` reads.
unfoldable pub words : Bytes → List Bytes
unfolding starts_word
words [] = []
words (c ∷ cs) =
    let rest = words cs in
    if is_space c then rest else if starts_word cs then cons_first c rest else (c ∷ []) ∷ rest

-- The line that one call of `std::getline` reads.
unfoldable pub first_line : Bytes → Bytes
first_line [] = []
first_line (c ∷ cs) = let rest = first_line cs in if c == b'\n' then [] else c ∷ rest

-- A word and what stands behind it, without the space before it: `stream >> label`.
unfoldable pub skip_word : Bytes → Bytes
skip_word [] = []
skip_word (c ∷ cs) = let rest = skip_word cs in if is_space c then c ∷ cs else rest

-- The digits at the front, and the rest.
unfoldable pub digits_front : Bytes → Bytes
digits_front [] = []
digits_front (c ∷ cs) = let rest = digits_front cs in if is_digit c then c ∷ rest else []

unfoldable pub digits_rest : Bytes → Bytes
digits_rest [] = []
digits_rest (c ∷ cs) = let rest = digits_rest cs in if is_digit c then rest else c ∷ cs

-- `stream >> n` for a 64-bit signed `n`: the value and the rest of the stream; a failure, with the
-- value that is stored in `n`; or the end of the stream, where `n` keeps what it has.
pub data Extracted : Type 0 where
  got : ℤ → Bytes → Extracted
  fails : ℤ → Extracted
  ended : Extracted

abbrev pub long_max : ℕ
long_max = 9223372036854775807

extract_pos : Bytes → Extracted
extract_pos s =
    if is_empty (digits_front s)
    then fails (pos 0)
    else if leb (value 0 (digits_front s)) long_max
    then got (pos (value 0 (digits_front s))) (digits_rest s)
    else fails (pos long_max)

negated_long : ℕ → ℤ
negated_long zero = pos 0
negated_long (suc n) = negsuc n

extract_neg : Bytes → Extracted
unfolding negated_long
extract_neg s =
    if is_empty (digits_front s)
    then fails (pos 0)
    else if leb (value 0 (digits_front s)) (suc long_max)
    then got (negated_long (value 0 (digits_front s))) (digits_rest s)
    else fails (negsuc long_max)

extract_signed : Bytes → Extracted
unfolding extract_pos extract_neg
extract_signed [] = ended
extract_signed (c ∷ cs) =
    if c == b'-' then extract_neg cs else extract_pos (if c == b'+' then cs else c ∷ cs)

unfoldable pub extract : Bytes → Extracted
unfolding extract_signed
extract s = extract_signed (trim_front is_space s)

-- `while (count < n && stream >> values[count]) count++`: what the array holds in its first places;
-- a number that fails is the last one stored.
unfoldable pub extract_up_to : ℕ → Bytes → List ℤ
extract_up_to zero s = []
extract_up_to (suc n) s = elim (extract s) [
  | got v rest ↦ v ∷ extract_up_to n rest
  | fails v ↦ v ∷ []
  | ended ↦ []
]

-- Whether a text ends, or goes on with something that is no digit.
abbrev pub no_digit_next : Bytes → Bool
no_digit_next [] = true
no_digit_next (c ∷ _) = if is_digit c then false else true

digits_front-append :
    (ds rest : Bytes)
    → all_digits ds ≡ true
    → no_digit_next rest ≡ true
    → digits_front (ds ++ rest) ≡ ds
unfolding digits_front
digits_front-append [] [] h k = refl
digits_front-append [] (c ∷ rest) h k = ground arith
digits_front-append (d ∷ ds) rest h k = ground (arith, digits_front-append ds rest)

digits_rest-append :
    (ds rest : Bytes)
    → all_digits ds ≡ true
    → no_digit_next rest ≡ true
    → digits_rest (ds ++ rest) ≡ rest
unfolding digits_rest
digits_rest-append [] [] h k = refl
digits_rest-append [] (c ∷ rest) h k = ground arith
digits_rest-append (d ∷ ds) rest h k = ground (arith, digits_rest-append ds rest)

extract_digits :
    (ds rest : Bytes)
    → all_digits ds ≡ true
    → ds ≢ []
    → no_digit_next rest ≡ true
    → value 0 ds ≤ long_max
    → extract (b' ' ∷ (ds ++ rest)) ≡ got (pos (value 0 ds)) rest
unfolding extract trim_front
extract_digits [] rest h n k v = absurd (n refl)
extract_digits (d ∷ ds) rest h n k v =
    ground (arith, digits_front-append (d ∷ ds) rest h k, digits_rest-append (d ∷ ds) rest h k)

-- A number that was printed behind a space is extracted, and what stands behind it is left.
pub extract-to_string :
    (n : ℕ) (rest : Bytes)
    → n ≤ long_max
    → no_digit_next rest ≡ true
    → extract (b' ' ∷ (to_string n ++ rest)) ≡ got (pos n) rest
extract-to_string n rest h k =
    extract_digits (to_string n) rest (to_string-all_digits n) (to_string-ne-nil n) k
      (omega (arith, value-to_string n))
    ∙ ap (λ v. got (pos v) rest) (value-to_string n)
