-- ===== src/Prelude/Parse.antt =====
-- `std::stoull` and `std::stoi` in base ten: white space, a sign, the longest run of digits; what
-- stands behind is ignored. `none` is `invalid_argument` or `out_of_range`.
use Prim.Native.Nat.{ℕ, zero, suc, ◌+◌, ◌-◌, ◌*◌, ◌/◌, ◌%◌, ◌^◌, ◌<◌}
use mathlib.Core.Path.{◌≡◌, refl, ap, ◌∙◌}
use mathlib.Core.List.{[], ◌∷◌, ◌++◌, concat-ne-nil}
use mathlib.Core.Bool.{Bool, true, ◌&&◌, ◌||◌}
use mathlib.Core.Option.{Option, none, some}
use mathlib.Core.Logic.{◌≢◌}
use native.Mathlib.Omega.{arith}
use titan_share.Prelude.Tests.{ltb, leb, ◌==◌, if◌then◌else◌}
use titan_share.Prelude.Strings.{Bytes, trim_front}
use titan_share.Prelude.Decimal.{digits, to_string, all_digits, to_string-all_digits}

-- `int` and its like: `negsuc n` is -(n + 1).
pub data ℤ : Type 0 where
  pos : ℕ → ℤ
  negsuc : ℕ → ℤ

abbrev pub is_space : ℕ → Bool
is_space c = c == b' ' || leb 9 c && leb c 13

abbrev pub is_digit : ℕ → Bool
is_digit c = leb b'0' c && leb c b'9'

digit_prefix : Bytes → Bytes
digit_prefix [] = []
digit_prefix (c ∷ cs) = let rest = digit_prefix cs in if is_digit c then c ∷ rest else []

unfoldable pub value : ℕ → Bytes → ℕ
value acc [] = acc
value acc (c ∷ cs) = value (acc * 10 + (c - b'0')) cs

magnitude_of : Bytes → Option ℕ
magnitude_of [] = none
magnitude_of (d ∷ ds) = some (value 0 (d ∷ ds))

-- The digits at the front as a number; there must be one.
magnitude : Bytes → Option ℕ
unfolding digit_prefix value magnitude_of
magnitude s = magnitude_of (digit_prefix s)

within : ℕ → Option ℕ → Option ℕ
within limit none = none
within limit (some v) = if ltb v limit then some v else none

-- A minus sign is taken modulo 2 ^ 64, as `strtoull` does.
negated : Option ℕ → Option ℕ
negated none = none
negated (some v) = some ((2 ^ 64 - v) % 2 ^ 64)

unsigned : Bytes → Option ℕ
unfolding magnitude within negated
unsigned [] = none
unsigned (c ∷ cs) =
    if c == b'-'
    then negated (within (2 ^ 64) (magnitude cs))
    else within (2 ^ 64) (magnitude (if c == b'+' then cs else c ∷ cs))

unfoldable pub stoull : Bytes → Option ℕ
unfolding unsigned
stoull s = unsigned (trim_front is_space s)

negative : Option ℕ → Option ℤ
negative none = none
negative (some zero) = some (pos 0)
negative (some (suc n)) = some (negsuc n)

positive : Option ℕ → Option ℤ
positive none = none
positive (some n) = some (pos n)

signed : Bytes → Option ℤ
unfolding magnitude within negative positive
signed [] = none
signed (c ∷ cs) =
    if c == b'-'
    then negative (within (2 ^ 31 + 1) (magnitude cs))
    else positive (within (2 ^ 31) (magnitude (if c == b'+' then cs else c ∷ cs)))

unfoldable pub stoi : Bytes → Option ℤ
unfolding signed trim_front
stoi s = signed (trim_front is_space s)

signed_long : Bytes → Option ℤ
unfolding magnitude within negative positive
signed_long [] = none
signed_long (c ∷ cs) =
    if c == b'-'
    then negative (within (2 ^ 63 + 1) (magnitude cs))
    else positive (within (2 ^ 63) (magnitude (if c == b'+' then cs else c ∷ cs)))

-- `std::stol`, of a 64-bit `long`.
unfoldable pub stol : Bytes → Option ℤ
unfolding signed_long trim_front
stol s = signed_long (trim_front is_space s)

value-append :
    (acc : ℕ) (s : Bytes) (d : ℕ) → value acc (s ++ d ∷ []) ≡ value acc s * 10 + (d - b'0')
unfolding value
value-append acc [] d = refl
value-append acc (c ∷ s) d = value-append (acc * 10 + (c - b'0')) s d

value-digits : (fuel n : ℕ) → n < fuel → value 0 (digits fuel n) ≡ n
unfolding digits value
value-digits zero n h = absurd (omega arith)
value-digits (suc fuel) n h =
    ground
      (arith, value-append 0 (digits fuel (n / 10)) (b'0' + n % 10), value-digits fuel (n / 10))

digit_prefix_all : (s : Bytes) → all_digits s ≡ true → digit_prefix s ≡ s
unfolding digit_prefix
digit_prefix_all [] h = refl
digit_prefix_all (c ∷ s) h = ground (arith, digit_prefix_all s)

stoull_digits :
    (s : Bytes) → all_digits s ≡ true → s ≢ [] → stoull s ≡ within (2 ^ 64) (some (value 0 s))
unfolding stoull trim_front
stoull_digits [] h k = absurd (k refl)
stoull_digits (c ∷ s) h k = ground (arith, digit_prefix_all (c ∷ s) h)

pub to_string-ne-nil : (n : ℕ) → to_string n ≢ []
unfolding to_string
to_string-ne-nil n = ground (arith, concat-ne-nil (b'0' + n % 10) (digits n (n / 10)))

-- A value printed by `std::to_string` reads back as itself.
pub stoull-to_string : (n : ℕ) → n < 2 ^ 64 → stoull (to_string n) ≡ some n
unfolding within
stoull-to_string n h =
    stoull_digits (to_string n) (to_string-all_digits n) (to_string-ne-nil n)
    ∙ in_range (unfold to_string in value-digits (suc n) n (omega arith)) h
  where
    in_range : {v : ℕ} → v ≡ n → n < 2 ^ 64 → within (2 ^ 64) (some v) ≡ some n
    in_range e k = ground arith

-- `std::to_string` of an `int`.
abbrev pub print_int : ℤ → Bytes
print_int (pos n) = to_string n
print_int (negsuc n) = b'-' ∷ to_string (suc n)

-- The values of an `int`.
abbrev pub IsInt : ℤ → Type 0
IsInt (pos n) = n < 2 ^ 31
IsInt (negsuc n) = n < 2 ^ 31

pub value-to_string : (n : ℕ) → value 0 (to_string n) ≡ n
unfolding to_string
value-to_string n = value-digits (suc n) n (omega arith)

magnitude-to_string : (n : ℕ) → magnitude (to_string n) ≡ some n
unfolding magnitude magnitude_of
magnitude-to_string n =
    ap magnitude_of (digit_prefix_all (to_string n) (to_string-all_digits n))
    ∙ of_value (to_string n) (to_string-ne-nil n) (value-to_string n)
  where
    of_value : {n : ℕ} (s : Bytes) → s ≢ [] → value 0 s ≡ n → magnitude_of s ≡ some n
    of_value [] h e = absurd (h refl)
    of_value (c ∷ s) h e = ap some e

stoi_digits :
    (s : Bytes) → all_digits s ≡ true → s ≢ [] → stoi s ≡ positive (within (2 ^ 31) (magnitude s))
unfolding stoi trim_front
stoi_digits [] h k = absurd (k refl)
stoi_digits (c ∷ s) h k = ground arith

positive_within : (n : ℕ) → n < 2 ^ 31 → positive (within (2 ^ 31) (some n)) ≡ some (pos n)
unfolding positive within
positive_within n h = ground arith

negative_within :
    (n : ℕ) → n < 2 ^ 31 → negative (within (2 ^ 31 + 1) (some (suc n))) ≡ some (negsuc n)
unfolding negative within
negative_within n h = ground arith

-- An `int` that was printed reads back as itself.
pub stoi-print_int : (z : ℤ) → IsInt z → stoi (print_int z) ≡ some z
unfolding stoi trim_front
stoi-print_int (pos n) h =
    stoi_digits (to_string n) (to_string-all_digits n) (to_string-ne-nil n)
    ∙ ap (λ m. positive (within (2 ^ 31) m)) (magnitude-to_string n)
    ∙ positive_within n h
stoi-print_int (negsuc n) h =
    ap (λ m. negative (within (2 ^ 31 + 1) m)) (magnitude-to_string (suc n)) ∙ negative_within n h
