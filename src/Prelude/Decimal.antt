-- ===== src/Prelude/Decimal.antt =====
-- `std::to_string` of an unsigned value: its decimal digits, most significant first.
use Prim.Native.Nat.{ℕ, zero, suc, ◌+◌, ◌*◌, ◌/◌, ◌%◌, ◌^◌, ◌≤◌, ◌<◌}
use mathlib.Core.Path.{◌≡◌, refl}
use mathlib.Core.List.{[], ◌∷◌, ◌++◌}
use mathlib.Core.Bool.{Bool, true, false, ◌&&◌}
use native.Mathlib.Omega.{arith}
use native.Mathlib.Nat.{pow-suc}
use titan_share.Prelude.Tests.{ltb, leb, if◌then◌else◌}
use titan_share.Prelude.Lists.{length, length-append}
use titan_share.Prelude.Strings.{Bytes, contains}

-- One digit for each division by ten; `fuel` above the value is enough.
unfoldable pub digits : ℕ → ℕ → Bytes
digits zero n = []
digits (suc fuel) n =
    let rest = digits fuel (n / 10) in
    if ltb n 10 then (b'0' + n) ∷ [] else rest ++ (b'0' + n % 10) ∷ []

unfoldable pub to_string : ℕ → Bytes
unfolding digits
to_string n = digits (suc n) n

pow-ten_pos : (k : ℕ) → 1 ≤ 10 ^ k
pow-ten_pos zero = omega arith
pow-ten_pos (suc k) = omega (arith, pow-suc 10 k, pow-ten_pos k)

below_ten : (k n : ℕ) → 10 ^ suc k ≤ n → 10 ≤ n
below_ten k n h = omega (arith, pow-suc 10 k, pow-ten_pos k)

-- A value of `k + 1` digits prints as that many bytes.
length-digits :
    (k fuel n : ℕ) → n < fuel → 10 ^ k ≤ n → n < 10 * 10 ^ k → length (digits fuel n) ≡ suc k
unfolding digits
length-digits k zero n h lo hi = absurd (omega arith)
length-digits zero (suc fuel) n h lo hi = ground arith
length-digits (suc k) (suc fuel) n h lo hi = ground (
  arith,
  pow-suc 10 k,
  below_ten k n lo,
  length-append (digits fuel (n / 10)) ((b'0' + n % 10) ∷ []),
  length-digits k fuel (n / 10) (omega (arith, below_ten k n lo)) (omega (arith, pow-suc 10 k))
      (omega (arith, pow-suc 10 k)),
)

pub length-to_string : (k n : ℕ) → 10 ^ k ≤ n → n < 10 * 10 ^ k → length (to_string n) ≡ suc k
unfolding to_string
length-to_string k n lo hi = length-digits k (suc n) n (omega arith) lo hi

-- Every byte is a digit.
abbrev pub all_digits : Bytes → Bool
all_digits [] = true
all_digits (c ∷ cs) = leb b'0' c && leb c b'9' && all_digits cs

all_digits-append :
    (s t : Bytes) → all_digits s ≡ true → all_digits t ≡ true → all_digits (s ++ t) ≡ true
all_digits-append [] t h k = k
all_digits-append (c ∷ s) t h k = ground (arith, all_digits-append s t)

digits-all_digits : (fuel n : ℕ) → all_digits (digits fuel n) ≡ true
unfolding digits
digits-all_digits zero n = refl
digits-all_digits (suc fuel) n = ground (
  arith,
  all_digits-append (digits fuel (n / 10)) ((b'0' + n % 10) ∷ []),
  digits-all_digits fuel (n / 10),
)

pub to_string-all_digits : (n : ℕ) → all_digits (to_string n) ≡ true
unfolding to_string
to_string-all_digits n = digits-all_digits (suc n) n

pub all_digits_lacks :
    (s : Bytes) (c : ℕ)
    → all_digits s ≡ true
    → (leb b'0' c && leb c b'9') ≡ false
    → contains s c ≡ false
unfolding contains
all_digits_lacks [] c h k = refl
all_digits_lacks (d ∷ s) c h k = ground (arith, all_digits_lacks s c)

pub all_digits_no_colon : (s : Bytes) → all_digits s ≡ true → contains s b':' ≡ false
all_digits_no_colon s h = all_digits_lacks s b':' h refl
