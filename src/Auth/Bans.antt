-- ===== src/Auth/Bans.antt =====
-- The length of a ban: `registerAuthFailure`'s doubling loop against its closed form.
use native.Mathlib.Nat.{pow-suc}
use titan_share.Config.{auth_ban_initial_secs, auth_ban_max_secs}
use titan_share.Prelude.{
  ℕ, zero, suc, ◌*◌, ◌^◌, ◌≤◌, ◌<◌, min, ltb, ◌≡◌, arith, Bool-cases, inl, inr, false,
}
use titan_share.Auth.{escalate, ban_secs}

pow-two_pos : (n : ℕ) → 1 ≤ 2 ^ n
pow-two_pos zero = omega arith
pow-two_pos (suc n) = omega (arith, pow-suc 2 n, pow-two_pos n)

double_out : (n secs : ℕ) → secs * 2 * 2 ^ n ≡ secs * 2 ^ suc n
double_out n secs = rw (pow-suc 2 n) (omega arith)

le-scaled : (n secs : ℕ) → secs ≤ secs * 2 ^ n
le-scaled n secs = grind (arith, pow-two_pos n)

leb_of_ltb : (secs : ℕ) → ltb secs auth_ban_max_secs ≡ false → auth_ban_max_secs ≤ secs
leb_of_ltb secs h = ground arith

escalate-min :
    (n secs : ℕ) → min (escalate n secs) auth_ban_max_secs ≡ min (secs * 2 ^ n) auth_ban_max_secs
unfolding escalate
escalate-min zero secs = omega arith
escalate-min (suc n) secs = elim (Bool-cases (ltb secs auth_ban_max_secs)) [
  | inl below ↦ rw (below, ← double_out n secs) (escalate-min n (secs * 2))
  | inr capped ↦ rw capped (omega (arith, le-scaled (suc n) secs, leb_of_ltb secs capped))
]

-- The ban after `n` earlier ones lasts 30 * 2 ^ n seconds, but never more than an hour.
pub ban_secs_closed : (n : ℕ) → ban_secs n ≡ min (auth_ban_initial_secs * 2 ^ n) auth_ban_max_secs
unfolding ban_secs
ban_secs_closed n = escalate-min n auth_ban_initial_secs

-- The doubling loop, of any number of rounds, ends below 7200 if it starts below it: its `int` does
-- not overflow.
pub escalate-lt :
    (n secs : ℕ) → secs < 2 * auth_ban_max_secs → escalate n secs < 2 * auth_ban_max_secs
unfolding escalate
escalate-lt zero secs h = h
escalate-lt (suc n) secs h = ground (arith, escalate-lt n (secs * 2))

pub ban_secs-ge : (n : ℕ) → auth_ban_initial_secs ≤ ban_secs n
ban_secs-ge n = rw (ban_secs_closed n) (omega (arith, le-scaled n auth_ban_initial_secs))
