-- ===== src/Session/Login.antt =====
-- `handleAuth`: one line of the AUTH stage.
use titan_share.Config.{auth_attempts_per_connection}
use titan_share.Auth.{
  SessionManager, validate_key, is_ip_blocked, register_auth_failure, register_auth_success,
}
use titan_share.Prelude.{
  ℕ, ◌+◌, ltb, leb, ◌==◌, ◌≡◌, true, false, ◌&&◌, ◌||◌, if◌then◌else◌, ◌∷◌, length, ◌↔◌, Bytes,
  codes, eqb, substr, substr_from, trim_back, trim_front, arith,
}
use titan_share.Session.State.{Session, auth, header, sent, closes, Env, World, note}

-- Strip the optional "AUTH:" and the white space around the PIN.
unfoldable pub read_pin : Bytes → Bytes
read_pin line =
    let pin =
      if ltb 5 (length line) && eqb (substr line 0 5) (codes "AUTH:")
      then substr_from line 5
      else line in
    trim_front (λ c. c == b' ' || c == b'\t')
      (trim_back (λ c. c == b' ' || c == b'\t' || c == b'\r') pin)

refuse_banned : Session → World → Session × World
refuse_banned s w =
    (record s { closed = true }, note (closes s.fd) (note (sent (codes "AUTH_BLOCKED\n")) w))

accept_pin : Bytes → Session → World → Session × World
accept_pin pin s w = (
  record s { session_key = pin; stage = header },
  note (sent (codes "AUTH_OK\n"))
      (record w { manager = register_auth_success w.manager s.remote_ip }),
)

refuse_pin : Env → Session → World → Session × World
refuse_pin env s w =
    let told = note (sent (codes "AUTH_FAIL\n")) w in
    let counted = record told {
      manager = register_auth_failure told.manager s.remote_ip (env.now told.trace);
    } in
    let s' = record s { auth_attempts = s.auth_attempts + 1 } in
    if leb auth_attempts_per_connection s'.auth_attempts
    then (record s' { closed = true }, note (closes s.fd) counted)
    else (s', counted)

unfoldable pub handle_auth : Env → Bytes → Session → World → Session × World
unfolding refuse_banned accept_pin refuse_pin
handle_auth env line s w =
    let (blocked, manager) = is_ip_blocked w.manager s.remote_ip (env.now w.trace) in
    let w' = record w { manager = manager } in
    let pin = read_pin line in
    if blocked
    then refuse_banned s w'
    else if validate_key manager pin
    then accept_pin pin s w'
    else refuse_pin env s w'

-- `isIpBlocked` only ever clears the bookkeeping of bans: the window of PINs is left alone.
pub is_ip_blocked-keeps_pins :
    (m : SessionManager) (ip : Bytes) (now : ℕ)
    → (is_ip_blocked m ip now).1.recent_pins ≡ m.recent_pins
unfolding is_ip_blocked
is_ip_blocked-keeps_pins m ip now = ground arith

-- A line of the AUTH stage leads to the HEADER stage exactly if the peer's IP is not banned and the
-- PIN on the line is in the window.
pub handle_auth-header :
    (env : Env) (line : Bytes) (s : Session) (w : World)
    → s.stage ≡ auth
    → ((handle_auth env line s w).0.stage ≡ header) ↔ (
        ((is_ip_blocked w.manager s.remote_ip (env.now w.trace)).0 ≡ false)
        × (validate_key w.manager (read_pin line) ≡ true))
unfolding handle_auth validate_key
handle_auth-header env line s w h =
    ground (arith, is_ip_blocked-keeps_pins w.manager s.remote_ip (env.now w.trace))

-- In the AUTH stage a wrong PIN from an address that is not banned leaves the stage, is answered
-- AUTH_FAIL, is counted against the connection and against the address, and the third one on a
-- connection closes it.
pub handle_auth_wrong :
    (env : Env) (line : Bytes) (s : Session) (w : World)
    → s.stage ≡ auth
    → (is_ip_blocked w.manager s.remote_ip (env.now w.trace)).0 ≡ false
    → validate_key w.manager (read_pin line) ≡ false
    → let (s', w') = handle_auth env line s w in
      let told = sent (codes "AUTH_FAIL\n") ∷ w.trace in
      (s'.stage ≡ auth)
      × (s'.auth_attempts ≡ s.auth_attempts + 1)
      × (w'.manager
          ≡ register_auth_failure
              (is_ip_blocked w.manager s.remote_ip (env.now w.trace)).1
              s.remote_ip
              (env.now told))
      × (w'.trace ≡ (if leb 3 (s.auth_attempts + 1) then closes s.fd ∷ told else told))
      × (s'.closed ≡ (leb 3 (s.auth_attempts + 1) || s.closed))
unfolding handle_auth validate_key
handle_auth_wrong env line s w h free wrong =
    ground (arith, is_ip_blocked-keeps_pins w.manager s.remote_ip (env.now w.trace))
