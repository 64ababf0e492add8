-- ===== src/Auth/Ledger.antt =====
-- The ban bookkeeping of one IP against a ledger that sees only that IP's own events: a count of
-- strikes since the last reset, and the end of the ban in force.
use titan_share.Prelude.{
  ℕ, ◌+◌, ◌*◌, ◌/◌, ◌%◌, ◌<◌, leb, ltb, ◌==◌, ◌≡◌, refl, Bool, true, false, if◌then◌else◌, Option,
  none, some, List, [], ◌∷◌, Bytes, eqb, eqb_iff, eqb_refl, lookup, insert, lookup-insert,
  lookup-erase, count_of, arith,
}
use titan_share.Config.{auth_fail_threshold, auth_ban_initial_secs}
use titan_share.Auth.Bans.{ban_secs-ge}
use titan_share.Auth.{
  SessionManager, init, ticks_per_second, ban_secs, is_ip_blocked, register_auth_failure,
  register_auth_success,
}

-- A call of one of the three methods, with its IP and its clock reading.
pub data AuthEvent : Type 0 where
  failed succeeded checked : Bytes → ℕ → AuthEvent

unfoldable pub step : SessionManager → AuthEvent → SessionManager
step m (failed ip now) = register_auth_failure m ip now
step m (succeeded ip now) = register_auth_success m ip
step m (checked ip now) = (is_ip_blocked m ip now).1

unfoldable pub run : SessionManager → List AuthEvent → SessionManager
run m [] = m
run m (e ∷ es) = run (step m e) es

pub record Ledger : Type 0 where
  pub strikes : ℕ
  pub banned_until : Option ℕ

abbrev pub clean : Ledger
clean = record { strikes = 0; banned_until = none }

-- Every fifth strike starts a ban, each longer than the one before it.
abbrev strike : ℕ → Ledger → Ledger
strike now l = record {
  strikes = l.strikes + 1;
  banned_until =
      if (l.strikes + 1) % auth_fail_threshold == 0
      then some (now + ban_secs (l.strikes / auth_fail_threshold) * ticks_per_second)
      else l.banned_until;
}

abbrev check : ℕ → Ledger → Ledger
check now l = elim l.banned_until [ none ↦ l | some until ↦ if leb until now then clean else l ]

abbrev note_event : Bytes → Ledger → AuthEvent → Ledger
note_event ip l (failed j now) = if eqb j ip then strike now l else l
note_event ip l (succeeded j now) = if eqb j ip then clean else l
note_event ip l (checked j now) = if eqb j ip then check now l else l

unfoldable pub ledger : Bytes → Ledger → List AuthEvent → Ledger
ledger ip l [] = l
ledger ip l (e ∷ es) = ledger ip (note_event ip l e) es

-- What the maps hold for the IP.
pub record Agrees (m : SessionManager) (ip : Bytes) (l : Ledger) : Type 0 where
  pub failures : count_of (lookup ip m.auth_failures) ≡ l.strikes % auth_fail_threshold
  pub bans : count_of (lookup ip m.ban_count) ≡ l.strikes / auth_fail_threshold
  pub until : lookup ip m.blocked_until ≡ l.banned_until

step-Agrees :
    (m : SessionManager) (ip : Bytes) (l : Ledger) (e : AuthEvent)
    → Agrees m ip l
    → Agrees (step m e) ip (note_event ip l e)
unfolding step register_auth_failure register_auth_success is_ip_blocked
step-Agrees m ip l (failed j now) a =
    let failures = count_of (lookup j m.auth_failures) + 1 in
    let n_bans = count_of (lookup j m.ban_count) in
    ground (
      arith,
      eqb_iff j ip,
      lookup-insert j ip failures m.auth_failures,
      lookup-insert j ip 0 (insert j failures m.auth_failures),
      lookup-insert j ip (n_bans + 1) m.ban_count,
      lookup-insert j ip (now + ban_secs n_bans * ticks_per_second) m.blocked_until,
    )
step-Agrees m ip l (succeeded j now) a = record {
  failures = simp lookup-erase (ground (arith, a.failures));
  bans = simp lookup-erase (ground (arith, a.bans));
  until = simp lookup-erase (ground (arith, a.until));
}
step-Agrees m ip l (checked j now) a = ground (
  arith,
  eqb_iff j ip,
  lookup-erase j ip m.auth_failures,
  lookup-erase j ip m.ban_count,
  lookup-erase j ip m.blocked_until,
)

pub run-Agrees :
    (es : List AuthEvent) (m : SessionManager) (ip : Bytes) (l : Ledger)
    → Agrees m ip l
    → Agrees (run m es) ip (ledger ip l es)
unfolding run ledger
run-Agrees [] m ip l a = a
run-Agrees (e ∷ es) m ip l a = run-Agrees es (step m e) ip _ (step-Agrees m ip l e a)

-- From the start, whatever the calls, the maps agree with the ledger of every IP.
pub run-init-Agrees :
    (es : List AuthEvent) (ip_address host ip : Bytes)
    → Agrees (run (init ip_address host) es) ip (ledger ip clean es)
run-init-Agrees es ip_address host ip =
    run-Agrees es (init ip_address host) ip clean
      (unfold init lookup in record { failures = refl; bans = refl; until = refl })

-- Whether a ban that ends at `until` is in force.
abbrev pub in_force : Option ℕ → ℕ → Bool
in_force none now = false
in_force (some until) now = ltb now until

-- The answer of `isIpBlocked` is read off the IP's own ledger: blocked until the ban ends, and no
-- longer, and never without a ban.
pub is_ip_blocked-ledger :
    (es : List AuthEvent) (ip_address host ip : Bytes) (now : ℕ)
    → (is_ip_blocked (run (init ip_address host) es) ip now).0
      ≡ in_force (ledger ip clean es).banned_until now
unfolding is_ip_blocked
is_ip_blocked-ledger es ip_address host ip now =
    let a = run-init-Agrees es ip_address host ip in ground (arith, a.until)

-- A failure that makes the strikes a multiple of five bans the IP at once, for 30 seconds at least.
pub fifth_failure_blocks :
    (es : List AuthEvent) (ip_address host ip : Bytes) (now later : ℕ)
    → (ledger ip clean es).strikes % auth_fail_threshold ≡ 4
    → later < now + auth_ban_initial_secs * ticks_per_second
    → (is_ip_blocked (register_auth_failure (run (init ip_address host) es) ip now) ip later).0
      ≡ true
unfolding is_ip_blocked step
fifth_failure_blocks es ip_address host ip now later h k =
    let m = run (init ip_address host) es in
    let l = ledger ip clean es in
    let a = step-Agrees m ip l (failed ip now) (run-init-Agrees es ip_address host ip) in
    ground (arith, a.until, eqb_refl ip, ban_secs-ge (l.strikes / auth_fail_threshold))
