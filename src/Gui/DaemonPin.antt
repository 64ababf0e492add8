-- ===== src/Gui/DaemonPin.antt =====
-- The file that the daemon persists its session in, as the window finds it.
use titan_share.Prelude.{
  ℕ, ◌≡◌, ◌≢◌, refl, sym, ap, subst, ◌⊎◌, inl, inr, Bool, true, false, ◌||◌, Option, none, some, [],
  ◌∷◌, ◌++◌, Bytes, codes, is_empty, ℤ, pos, negsuc, Assoc, lookup, eqb, arith, ◌==◌, Bool-cases,
  append_assoc,
}
use titan_share.Config.{get_data_dir, get_ipc_dir}
use titan_share.Auth.{SessionManager}
use titan_share.Auth.Persist.{Object, Value, ipc_object}
use titan_share.Gui.Newest.{AreOlder, Occurs, newest-Occurs}
use titan_share.Gui.Ipc.{
  Json, Disk, Environment, candidates, newest, get_ipc_file_path, pin_file, read_pin,
}

-- `qgetenv` of a variable.
abbrev pub qgetenv : Option Bytes → Bytes
qgetenv none = []
qgetenv (some s) = s

-- The path of the daemon's PIN file.
abbrev pub daemon_path : ℕ → Bool → Option Bytes → Option Bytes → Bytes
daemon_path uid writable xdg home =
    get_ipc_dir uid writable xdg (get_data_dir uid home) ++ (codes "/" ++ pin_file)

-- The daemon writes below /run, or shares the window's environment, in which a home is not empty.
abbrev pub IsReached : Environment → ℕ → Bool → Option Bytes → Option Bytes → Type 0
IsReached e uid writable xdg home =
    ((uid == 0 || writable) ≡ true)
    ⊎ ((e ≡ record { xdg_run = qgetenv xdg; home = qgetenv home }) × (home ≢ some []))

-- Where the daemon writes that may not write below /run.
shared_dir : Option Bytes → Option Bytes → Bytes
shared_dir (some (c ∷ cs)) home = (c ∷ cs) ++ codes "/titanshare"
shared_dir (some []) (some h) = h ++ codes "/.local/share/titanshare"
shared_dir (some []) none = codes "/tmp/titanshare"
shared_dir none (some h) = h ++ codes "/.local/share/titanshare"
shared_dir none none = codes "/tmp/titanshare"

get_ipc_dir_shared :
    (uid : ℕ) (writable : Bool) (xdg home : Option Bytes)
    → uid == 0 || writable ≡ false
    → get_ipc_dir uid writable xdg (get_data_dir uid home) ≡ shared_dir xdg home
unfolding get_ipc_dir get_data_dir shared_dir
get_ipc_dir_shared uid writable none none h = ground arith
get_ipc_dir_shared uid writable none (some d) h = ground arith
get_ipc_dir_shared uid writable (some []) none h = ground arith
get_ipc_dir_shared uid writable (some []) (some d) h = ground arith
get_ipc_dir_shared uid writable (some (c ∷ cs)) none h = ground arith
get_ipc_dir_shared uid writable (some (c ∷ cs)) (some d) h = ground arith

shared_dir-Occurs :
    (xdg home : Option Bytes)
    → home ≢ some []
    → Occurs
        (shared_dir xdg home ++ (codes "/" ++ pin_file))
        (candidates (record { xdg_run = qgetenv xdg; home = qgetenv home }) pin_file)
unfolding candidates shared_dir
shared_dir-Occurs none none h = inr (inl refl)
shared_dir-Occurs none (some []) h = absurd (h refl)
shared_dir-Occurs none (some (d ∷ ds)) h = inr (inl (sym (append_assoc (d ∷ ds) _ _)))
shared_dir-Occurs (some []) none h = inr (inl refl)
shared_dir-Occurs (some []) (some []) h = absurd (h refl)
shared_dir-Occurs (some []) (some (d ∷ ds)) h = inr (inl (sym (append_assoc (d ∷ ds) _ _)))
shared_dir-Occurs (some (c ∷ cs)) home h = inr (inl (sym (append_assoc (c ∷ cs) _ _)))

run_dir-Occurs :
    (e : Environment) (uid : ℕ) (writable : Bool) (xdg home : Option Bytes)
    → uid == 0 || writable ≡ true
    → Occurs (daemon_path uid writable xdg home) (candidates e pin_file)
unfolding candidates
run_dir-Occurs e uid writable xdg home h =
    inl (ap (λ dir. dir ++ (codes "/" ++ pin_file)) (sym (in_run (get_data_dir uid home))))
  where
    in_run : (dir : Bytes) → get_ipc_dir uid writable xdg dir ≡ codes "/run/titanshare"
    in_run dir = unfold get_ipc_dir in rw h refl

daemon_path-Occurs :
    (e : Environment) (uid : ℕ) (writable : Bool) (xdg home : Option Bytes)
    → IsReached e uid writable xdg home
    → Occurs (daemon_path uid writable xdg home) (candidates e pin_file)
daemon_path-Occurs e uid writable xdg home (inl h) = run_dir-Occurs e uid writable xdg home h
daemon_path-Occurs e uid writable xdg home (inr (same, set)) =
    elim (Bool-cases (uid == 0 || writable)) [
      | inl h ↦ run_dir-Occurs e uid writable xdg home h
      | inr h ↦
          subst (λ f. Occurs (daemon_path uid writable xdg home) (candidates f pin_file)) (sym same)
            (subst
              (λ dir.
                Occurs (dir ++ (codes "/" ++ pin_file))
                  (candidates (record { xdg_run = qgetenv xdg; home = qgetenv home }) pin_file))
              (sym (get_ipc_dir_shared uid writable xdg home h)) (shared_dir-Occurs xdg home set))
    ]

not_empty : (a : Bytes) (c : ℕ) (b : Bytes) → is_empty (a ++ c ∷ b) ≡ false
not_empty [] c b = refl
not_empty (x ∷ a) c b = refl

get_ipc_file_path_best :
    (modified : Bytes → Option ℤ) (e : Environment) (p : Bytes) (t : ℕ)
    → newest modified (candidates e pin_file) ([], negsuc 0) ≡ (p, pos t)
    → is_empty p ≡ false
    → get_ipc_file_path modified e pin_file ≡ p
unfolding get_ipc_file_path
get_ipc_file_path_best modified e p t n h = rw (n, h)

-- The window finds the file that the daemon wrote.
get_ipc_file_path-daemon_path :
    (modified : Bytes → Option ℤ) (e : Environment) (uid : ℕ) (writable : Bool)
    → (xdg home : Option Bytes) (t : ℕ) → IsReached e uid writable xdg home
    → modified (daemon_path uid writable xdg home) ≡ some (pos t)
    → AreOlder modified (daemon_path uid writable xdg home) t (candidates e pin_file)
    → get_ipc_file_path modified e pin_file ≡ daemon_path uid writable xdg home
get_ipc_file_path-daemon_path modified e uid writable xdg home t r h o =
    get_ipc_file_path_best modified e (daemon_path uid writable xdg home) t
      (newest-Occurs modified (daemon_path uid writable xdg home) t (candidates e pin_file)
        ([], negsuc 0) h (daemon_path-Occurs e uid writable xdg home r) o (inr (ground arith)))
      (not_empty (get_ipc_dir uid writable xdg (get_data_dir uid home)) b'/' pin_file)

module _ {D T : Type 0} (parse : T → Assoc (Json D)) (dump : Object → Option T) where
  read_pin_at :
      (disk : Disk T) (e : Environment) (p pin host : Bytes) (content : T)
      → get_ipc_file_path disk.modified e pin_file ≡ p
      → disk.opened p ≡ some content
      → lookup (codes "pin") (parse content) ≡ some (Json.text pin)
      → lookup (codes "host") (parse content) ≡ some (Json.text host)
      → read_pin parse disk e ≡ (pin, host)
  unfolding read_pin
  read_pin_at disk e p pin host content f o h k = rw (f, o, h, k, read_pin)

  -- Let Qt read back the strings of what the daemon's JSON library dumps. If the daemon may write
  -- below /run, or shares with the window an environment in which the home is not empty where it is
  -- set, and the file in which it persisted its session is newer than every other file that the
  -- window looks at, and the window can open it, then the window reads the PIN and the host of the daemon's session.
  pub read_pin-ipc_object :
      ((o : Object) (content : T) (k s : Bytes)
        → dump o ≡ some content
        → lookup k o ≡ some (Value.text s)
        → lookup k (parse content) ≡ some (Json.text s))
      → (disk : Disk T) (e : Environment) (uid : ℕ) (writable : Bool) (xdg home : Option Bytes)
      → (m : SessionManager) (content : T) (t : ℕ) → IsReached e uid writable xdg home
      → disk.modified (daemon_path uid writable xdg home) ≡ some (pos t)
      → dump (ipc_object m) ≡ some content
      → disk.opened (daemon_path uid writable xdg home) ≡ some content
      → AreOlder disk.modified (daemon_path uid writable xdg home) t (candidates e pin_file)
      → read_pin parse disk e ≡ (m.current_pin, m.hostname)
  unfolding lookup eqb
  read_pin-ipc_object reads_back disk e uid writable xdg home m content t r h d f o =
      read_pin_at disk e (daemon_path uid writable xdg home) m.current_pin m.hostname content
        (get_ipc_file_path-daemon_path disk.modified e uid writable xdg home t r h o) f
        (reads_back (ipc_object m) content (codes "pin") m.current_pin d refl)
        (reads_back (ipc_object m) content (codes "host") m.hostname d refl)
