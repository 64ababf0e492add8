-- ===== src/Auth.antt =====
-- src/auth/session_manager.cpp: the pairing PIN with its rolling window, and the per-IP ban
-- bookkeeping. A call's clock reading and the random draw are arguments; steady_clock counts
-- `ticks_per_second` to the second. `m_mutex` makes each method one step, so a method is a function.

pub mod Pins
pub mod Bans
pub mod Ledger
pub mod Perms
pub mod Persist
mod Tests
use titan_share.Config.{
  pairing_pin_digits, max_recent_pins, auth_fail_threshold, auth_ban_initial_secs,
  auth_ban_max_secs,
}
use titan_share.Prelude.{
  ℕ, zero, suc, ◌+◌, ◌-◌, ◌*◌, ◌≤◌, min, ltb, leb, Bool, true, false, ◌||◌, if◌then◌else◌, Option,
  none, some, List, [], ◌∷◌, ◌++◌, length, drop, Bytes, eqb, Assoc, lookup, insert, erase, count_of,
  to_string,
}

pub record SessionManager : Type 0 where
  pub current_pin : Bytes
  pub current_ip : Bytes
  pub hostname : Bytes
  pub recent_pins : List Bytes
  pub auth_failures : Assoc ℕ
  pub blocked_until : Assoc ℕ
  pub ban_count : Assoc ℕ

-- The constructor, on `Network::getLocalIp()` and `gethostname`.
unfoldable pub init : Bytes → Bytes → SessionManager
init ip host = record {
  current_pin = [];
  current_ip = ip;
  hostname = host;
  recent_pins = [];
  auth_failures = [];
  blocked_until = [];
  ban_count = [];
}

-- `for (int i = 1; i < digits; ++i) minVal *= 10`, by the rounds left.
scale_up : ℕ → ℕ → ℕ
scale_up zero value = value
scale_up (suc rounds) value = scale_up rounds (value * 10)

unfoldable pub min_val : ℕ
unfolding scale_up
min_val = scale_up (pairing_pin_digits - 1) 1

unfoldable pub max_val : ℕ
unfolding min_val
max_val = min_val * 10 - 1

-- `generatePin`: `dist lo hi` is the draw of `uniform_int_distribution<int>(lo, hi)`.
unfoldable pub generate_pin : (ℕ → ℕ → ℕ) → Bytes
unfolding min_val max_val to_string
generate_pin dist = to_string (dist min_val max_val)

-- `push_back`, then `erase(begin())` once there are more than MAX_RECENT_PINS.
unfoldable pub remember_pin : List Bytes → Bytes → List Bytes
remember_pin pins pin =
    let pushed = pins ++ pin ∷ [] in
    if ltb max_recent_pins (length pushed) then drop 1 pushed else pushed

-- `generateSession` up to the write of the files (`Persist`): `loaded` is what
-- `loadPersistedSession` reads, and it is consulted only if `preserve_pin` is set.
unfoldable pub generate_session :
    Bool → Option Bytes → Bytes → (ℕ → ℕ → ℕ) → SessionManager → SessionManager
unfolding remember_pin
generate_session preserve_pin loaded ip dist m =
    let pin =
      if preserve_pin
      then elim loaded [ some p ↦ p | none ↦ generate_pin dist ]
      else generate_pin dist in
    record m { current_ip = ip; current_pin = pin; recent_pins = remember_pin m.recent_pins pin }

-- `std::find(...) != end()`.
unfoldable pub find_pin : List Bytes → Bytes → Bool
find_pin [] pin = false
find_pin (p ∷ ps) pin = eqb p pin || find_pin ps pin

unfoldable pub validate_key : SessionManager → Bytes → Bool
validate_key m pin = find_pin m.recent_pins pin

abbrev pub ticks_per_second : ℕ
ticks_per_second = 1000000000

-- `for (int i = 0; i < nBans && secs < AUTH_BAN_MAX_SECS; ++i) secs *= 2`, by the rounds left.
unfoldable pub escalate : ℕ → ℕ → ℕ
escalate zero secs = secs
escalate (suc rounds) secs =
    let rest = escalate rounds (secs * 2) in if ltb secs auth_ban_max_secs then rest else secs

-- The ban after `n_bans` earlier ones, in seconds.
unfoldable pub ban_secs : ℕ → ℕ
ban_secs n_bans = min (escalate n_bans auth_ban_initial_secs) auth_ban_max_secs

-- The answer, and the manager after an expired ban is cleared.
unfoldable pub is_ip_blocked : SessionManager → Bytes → ℕ → Bool × SessionManager
is_ip_blocked m ip now = elim (lookup ip m.blocked_until) [
  | none ↦ (false, m)
  | some until ↦
      if leb until now
      then (
        false,
        record m {
          blocked_until = erase ip m.blocked_until;
          auth_failures = erase ip m.auth_failures;
          ban_count = erase ip m.ban_count;
        },
      )
      else (true, m)
]

unfoldable pub register_auth_failure : SessionManager → Bytes → ℕ → SessionManager
register_auth_failure m ip now =
    let failures = count_of (lookup ip m.auth_failures) + 1 in
    let n_bans = count_of (lookup ip m.ban_count) in
    let counted = insert ip failures m.auth_failures in
    if leb auth_fail_threshold failures
    then record m {
      ban_count = insert ip (n_bans + 1) m.ban_count;
      blocked_until = insert ip (now + ban_secs n_bans * ticks_per_second) m.blocked_until;
      auth_failures = insert ip 0 counted;
    }
    else record m { auth_failures = counted }

unfoldable pub register_auth_success : SessionManager → Bytes → SessionManager
register_auth_success m ip = record m {
  auth_failures = erase ip m.auth_failures;
  blocked_until = erase ip m.blocked_until;
  ban_count = erase ip m.ban_count;
}
