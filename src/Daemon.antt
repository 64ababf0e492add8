-- ===== src/Daemon.antt =====
-- src/main.cpp: the start of the daemon, and the thread that changes the PIN. The server, the
-- dispatcher and the notifications that it also starts have modules of their own.
pub mod Shutdown
pub mod Secrets
mod Tests
use titan_share.Config.{
  tcp_port, get_data_dir, get_ipc_dir, received_files_dir, send_to_android_dir,
}
use titan_share.Prelude.{
  ℕ, ◌+◌, ◌-◌, ◌≡◌, refl, ap, ◌∙◌, ltb, Bool, true, false, ◌||◌, if◌then◌else◌, List, [], ◌∷◌, ◌++◌,
  length, drop, Bytes, eqb, eqb_refl, arith, Option,
}
use titan_share.Auth.{SessionManager, generate_session, remember_pin, find_pin, validate_key}
use titan_share.Discovery.Advertiser.{MdnsAdvertiser, start, update_pin}

-- `g_running`, the session manager and the advertiser.
pub record Daemon : Type 0 where
  pub running : Bool
  pub manager : SessionManager
  pub mdns : MdnsAdvertiser

-- The directories of the daemon, in the order in which they are made.
unfoldable pub data_dirs : ℕ → Bool → Option Bytes → Option Bytes → List Bytes
data_dirs uid writable xdg_run home =
    let dir = get_data_dir uid home in
    dir
    ∷ received_files_dir dir
    ∷ send_to_android_dir dir
    ∷ get_ipc_dir uid writable xdg_run dir
    ∷ []

-- `secureDir` on each: those that were made and are open to the owner alone. `made` is whether
-- `create_directories` returns; where it raises, the rest is not tried.
unfoldable pub secure_dirs : (Bytes → Bool) → List Bytes → List Bytes
secure_dirs made [] = []
secure_dirs made (dir ∷ dirs) =
    let rest = secure_dirs made dirs in if made dir then dir ∷ rest else []

-- What one `generateSession` reads: the persisted PIN, the address, and the random draw.
pub record Draw : Type 0 where
  pub loaded : Option Bytes
  pub ip : Bytes
  pub dist : ℕ → ℕ → ℕ

-- The start, up to the advertiser: a persisted PIN is used again.
unfoldable pub start_up : Draw → Bytes → SessionManager → MdnsAdvertiser → Daemon
start_up d gethostname m a =
    let m' = generate_session true d.loaded d.ip d.dist m in
    record { running = true; manager = m'; mdns = start gethostname m'.current_pin tcp_port [] a }

-- One turn of the thread: whether `g_running` is set before and behind the sleep, and the draw.
pub record Wake : Type 0 where
  pub before : Bool
  pub behind : Bool
  pub draw : Draw

unfoldable pub refresh_pin : Draw → Daemon → Daemon
refresh_pin d s =
    let m = generate_session false d.loaded d.ip d.dist s.manager in
    record s { manager = m; mdns = update_pin m.current_pin s.mdns }

-- The loop of the thread.
unfoldable pub pin_thread : List Wake → Daemon → Daemon
pin_thread [] s = s
pin_thread (w ∷ ws) s =
    if w.before
    then if w.behind then pin_thread ws (refresh_pin w.draw s) else record s { running = false }
    else record s { running = false }

-- `signalHandler`, without the server's `stop`.
unfoldable pub signal_handler : Daemon → Daemon
signal_handler s = record s { running = false }

-- The advertiser has the PIN of the session manager, which accepts it.
abbrev pub IsPaired : Daemon → Type 0
IsPaired s =
    (s.mdns.pin ≡ s.manager.current_pin) × (validate_key s.manager s.manager.current_pin ≡ true)

find_pin_last : (ps : List Bytes) (p : Bytes) → find_pin (ps ++ p ∷ []) p ≡ true
unfolding find_pin
find_pin_last [] p = ground (arith, eqb_refl p)
find_pin_last (q ∷ ps) p = ground (arith, find_pin_last ps p)

find_pin-remember_pin : (ps : List Bytes) (p : Bytes) → find_pin (remember_pin ps p) p ≡ true
unfolding remember_pin
find_pin-remember_pin [] p = find_pin_last [] p
find_pin-remember_pin (q ∷ ps) p = ground (arith, find_pin_last (q ∷ ps) p, find_pin_last ps p)

start_up-IsPaired :
    (d : Draw) (gethostname : Bytes) (m : SessionManager) (a : MdnsAdvertiser)
    → IsPaired (start_up d gethostname m a)
unfolding start_up start generate_session validate_key
start_up-IsPaired d gethostname m a = (refl, find_pin-remember_pin m.recent_pins _)

refresh_pin-IsPaired : (d : Draw) (s : Daemon) → IsPaired (refresh_pin d s)
unfolding refresh_pin update_pin generate_session validate_key
refresh_pin-IsPaired d s = (refl, find_pin-remember_pin s.manager.recent_pins _)

IsPaired-if : (l r : Daemon) (b : Bool) → IsPaired l → IsPaired r → IsPaired (if b then l else r)
IsPaired-if l r true h k = h
IsPaired-if l r false h k = k

pin_thread_keeps : (ws : List Wake) (s : Daemon) → IsPaired s → IsPaired (pin_thread ws s)
unfolding pin_thread
pin_thread_keeps [] s h = h
pin_thread_keeps (w ∷ ws) s h =
    IsPaired-if _ _ w.before
      (IsPaired-if _ _ w.behind
        (pin_thread_keeps ws (refresh_pin w.draw s) (refresh_pin-IsPaired w.draw s)) h)
      h

-- From the start of the daemon on, however often its thread changes the PIN, and whatever is drawn,
-- the advertiser was handed the PIN that the session manager has now, and the session manager
-- accepts that PIN.
pub pin_thread-start_up :
    (d : Draw) (gethostname : Bytes) (m : SessionManager) (a : MdnsAdvertiser) (ws : List Wake)
    → IsPaired (pin_thread ws (start_up d gethostname m a))
pin_thread-start_up d gethostname m a ws =
    pin_thread_keeps ws (start_up d gethostname m a) (start_up-IsPaired d gethostname m a)
