-- ===== src/Daemon/Secrets.antt =====
-- The files with the PIN from the start of the daemon on: src/main.cpp secures the directories, and
-- every `generateSession` persists the session (src/auth/session_manager.cpp).
use titan_share.Auth.Perms.{
  PinFile, session_file, pin_ipc, Dirs, dir_of, DiskStep, makes_dir, restricts_dir, opens_file,
  writes_pin, restricts, FileState, Disk, file_of, disk_step, disk_steps, secure_dir_steps,
  Persisting, persist_all_steps,
}
use titan_share.Config.{get_data_dir, get_ipc_dir}
use titan_share.Daemon.{data_dirs}
use titan_share.Prelude.{
  ℕ, ◌≡◌, Bool, true, false, ◌&&◌, ◌||◌, Option, List, [], ◌∷◌, ◌++◌, Bytes, eqb, eqb_refl, eqb_iff,
  refl, ◌⊎◌, subst, sym, Bool-cases, inl, inr, arith,
}

-- No other user can read a PIN in the file.
abbrev pub Hidden : Dirs → Disk → PinFile → Type 0
Hidden ds k p =
    (k.others_enter (dir_of ds p) && ((file_of k p).others_read && (file_of k p).has_pin)) ≡ false

abbrev pub AreHidden : Dirs → Disk → Type 0
AreHidden ds k = Hidden ds k session_file × Hidden ds k pin_ipc

-- At the start, and after each step.
abbrev pub AlwaysHidden : Dirs → List DiskStep → Disk → Type 0
AlwaysHidden ds [] k = AreHidden ds k
AlwaysHidden ds (s ∷ ss) k = AreHidden ds k × AlwaysHidden ds ss (disk_step s k)

-- The mode of the file itself keeps others out of a PIN.
abbrev pub HasSecretMode : FileState → Type 0
HasSecretMode f = (f.others_read && f.has_pin) ≡ false

-- A directory that is there and that others may not enter.
abbrev pub IsClosed : Bytes → Disk → Type 0
IsClosed d k = (k.dir_there d ≡ true) × (k.others_enter d ≡ false)

-- A file that others cannot read a PIN in, by its own mode or by its directory's.
abbrev pub IsKept : Dirs → Disk → PinFile → Type 0
IsKept ds k p = HasSecretMode (file_of k p) ⊎ IsClosed (dir_of ds p) k

IsKept-Hidden : (ds : Dirs) (k : Disk) (p : PinFile) → IsKept ds k p → Hidden ds k p
IsKept-Hidden ds k p h = ground arith

step-IsClosed : (d : Bytes) (s : DiskStep) (k : Disk) → IsClosed d k → IsClosed d (disk_step s k)
unfolding disk_step
step-IsClosed d (makes_dir e) k h = ground arith
step-IsClosed d (restricts_dir e done) k h = ground arith
step-IsClosed d (opens_file session_file) k h = h
step-IsClosed d (opens_file pin_ipc) k h = h
step-IsClosed d (writes_pin session_file) k h = h
step-IsClosed d (writes_pin pin_ipc) k h = h
step-IsClosed d (restricts session_file done) k h = h
step-IsClosed d (restricts pin_ipc done) k h = h

steps-IsClosed :
    (d : Bytes) (ss : List DiskStep) (k : Disk) → IsClosed d k → IsClosed d (disk_steps ss k)
unfolding disk_steps
steps-IsClosed d [] k h = h
steps-IsClosed d (s ∷ ss) k h = steps-IsClosed d ss (disk_step s k) (step-IsClosed d s k h)

closed_hidden :
    (ds : Dirs) (ss : List DiskStep) (k : Disk)
    → IsClosed ds.data_dir k
    → IsClosed ds.ipc_dir k
    → AlwaysHidden ds ss k
closed_hidden ds [] k a b = (ground arith, ground arith)
closed_hidden ds (s ∷ ss) k a b = (
  (ground arith, ground arith),
  closed_hidden ds ss (disk_step s k) (step-IsClosed ds.data_dir s k a)
      (step-IsClosed ds.ipc_dir s k b),
)

closing-IsClosed :
    (done : Bool) (d : Bytes) (k : Disk)
    → done ≡ true
    → IsClosed d (disk_step (restricts_dir d done) (disk_step (makes_dir d) k))
unfolding disk_step
closing-IsClosed done d k h = (ground (arith, eqb_refl d), ground (arith, eqb_refl d))

-- Once a directory of the list was made and closed, it stays so.
among : Bytes → List Bytes → Bool
among d [] = false
among d (e ∷ es) = eqb e d || among d es

secured-IsClosed :
    (made done : Bytes → Bool) (d : Bytes) (dirs : List Bytes) (k : Disk)
    → ((e : Bytes) → made e ≡ true)
    → done d ≡ true
    → among d dirs ≡ true
    → IsClosed d (disk_steps (secure_dir_steps made done dirs) k)
unfolding secure_dir_steps disk_steps among
secured-IsClosed made done d [] k all closes h = cc
secured-IsClosed made done d (e ∷ es) k all closes h =
    let k' = disk_step (restricts_dir e (done e)) (disk_step (makes_dir e) k) in
    rw (all e, secure_dir_steps)
      (elim (Bool-cases (eqb e d)) [
        | inl same ↦ steps-IsClosed d (secure_dir_steps made done es) k' (
            subst
              (λ x. IsClosed d (disk_step (restricts_dir x (done x)) (disk_step (makes_dir x) k)))
              (sym ((eqb_iff e d).0 same)) (closing-IsClosed (done d) d k closes))
        | inr other ↦ secured-IsClosed made done d es k' all closes (rw other at h)
      ])

-- While the directories are secured the files stay as they are, and what is closed stays closed.
made-IsKept :
    (ds : Dirs) (e : Bytes) (k : Disk) (p : PinFile)
    → IsKept ds k p
    → IsKept ds (disk_step (makes_dir e) k) p
unfolding disk_step
made-IsKept ds e k session_file (inl h) = inl h
made-IsKept ds e k pin_ipc (inl h) = inl h
made-IsKept ds e k p (inr h) = inr (step-IsClosed (dir_of ds p) (makes_dir e) k h)

restricted-IsKept :
    (ds : Dirs) (e : Bytes) (done : Bool) (k : Disk) (p : PinFile)
    → IsKept ds k p
    → IsKept ds (disk_step (restricts_dir e done) k) p
unfolding disk_step
restricted-IsKept ds e done k session_file (inl h) = inl h
restricted-IsKept ds e done k pin_ipc (inl h) = inl h
restricted-IsKept ds e done k p (inr h) =
    inr (step-IsClosed (dir_of ds p) (restricts_dir e done) k h)

both_hidden : (ds : Dirs) (k : Disk) → ((p : PinFile) → IsKept ds k p) → AreHidden ds k
both_hidden ds k h =
    (IsKept-Hidden ds k session_file (h session_file), IsKept-Hidden ds k pin_ipc (h pin_ipc))

either_file :
    (ds : Dirs) (k : Disk)
    → IsKept ds k session_file
    → IsKept ds k pin_ipc
    → (p : PinFile) → IsKept ds k p
either_file ds k a b session_file = a
either_file ds k a b pin_ipc = b

secured_hidden :
    (ds : Dirs) (made done : Bytes → Bool) (dirs : List Bytes) (k : Disk)
    → ((p : PinFile) → IsKept ds k p)
    → AlwaysHidden ds (secure_dir_steps made done dirs) k
unfolding secure_dir_steps
secured_hidden ds made done [] k h = both_hidden ds k h
secured_hidden ds made done (e ∷ es) k h =
    let k' = disk_step (makes_dir e) k in
    let made_kept = λ (p : PinFile). made-IsKept ds e k p (h p) in
    let k'' = disk_step (restricts_dir e (done e)) k' in
    let closed_kept = λ (p : PinFile). restricted-IsKept ds e (done e) k' p (made_kept p) in
    elim (Bool-cases (made e)) [
      | inl yes_made ↦
          rw (yes_made, secure_dir_steps)
            (
              both_hidden ds k h,
              (both_hidden ds k' made_kept, secured_hidden ds made done es k'' closed_kept),
            )
      | inr refused ↦ rw (refused, secure_dir_steps) (both_hidden ds k h)
    ]

disk_steps-append :
    (ss ts : List DiskStep) (k : Disk) → disk_steps (ss ++ ts) k ≡ disk_steps ts (disk_steps ss k)
unfolding disk_steps
disk_steps-append [] ts k = refl
disk_steps-append (s ∷ ss) ts k = disk_steps-append ss ts (disk_step s k)

AlwaysHidden-append :
    (ds : Dirs) (ss ts : List DiskStep) (k : Disk)
    → AlwaysHidden ds ss k
    → AlwaysHidden ds ts (disk_steps ss k)
    → AlwaysHidden ds (ss ++ ts) k
unfolding disk_steps
AlwaysHidden-append ds [] ts k h g = g
AlwaysHidden-append ds (s ∷ ss) ts k h g = (h.0, AlwaysHidden-append ds ss ts (disk_step s k) h.1 g)

-- The steps of a daemon on the disk: its directories are secured, and its sessions persisted.
unfoldable pub daemon_steps :
    (Bytes → Bool) → (Bytes → Bool) → List Bytes → Dirs → List Persisting → List DiskStep
daemon_steps made done dirs ds rs = secure_dir_steps made done dirs ++ persist_all_steps ds rs

-- All four directories can be made, `chmod` succeeds on the data directory and on that of the IPC
-- files, and at the start each of the two files is kept from other users: there is no PIN in it, or
-- its own mode keeps them out, or its directory is closed to them. Then no other user can read a PIN
-- at any time from the start of the daemon on, whatever becomes of the files and of `chmod` on them;
-- and behind any number of persisted sessions both directories are closed, so that the next start
-- finds the files kept.
pub daemon_steps-AlwaysHidden :
    (uid : ℕ) (writable : Bool) (xdg_run home : Option Bytes) (made done : Bytes → Bool)
    (rs : List Persisting) (k : Disk)
    → let base = get_data_dir uid home in
      let ipc = get_ipc_dir uid writable xdg_run base in
      let ds : Dirs = record { data_dir = base; ipc_dir = ipc } in
      ((dir : Bytes) → made dir ≡ true)
      → done base ≡ true
      → done ipc ≡ true
      → IsKept ds k session_file
      → IsKept ds k pin_ipc
      → let steps = daemon_steps made done (data_dirs uid writable xdg_run home) ds rs in
        AlwaysHidden ds steps k
        × IsClosed base (disk_steps steps k)
        × IsClosed ipc (disk_steps steps k)
unfolding daemon_steps data_dirs among
daemon_steps-AlwaysHidden uid writable xdg_run home made done rs k all a b f g =
    let base = get_data_dir uid home in
    let ipc = get_ipc_dir uid writable xdg_run base in
    let ds : Dirs = record { data_dir = base; ipc_dir = ipc } in
    let dirs = data_dirs uid writable xdg_run home in
    let secured = secure_dir_steps made done dirs in
    let later = persist_all_steps ds rs in
    let base_closed =
      secured-IsClosed made done base dirs k all a (ground (arith, eqb_refl base)) in
    let ipc_closed = secured-IsClosed made done ipc dirs k all b (ground (arith, eqb_refl ipc)) in
    let kept : (p : PinFile) → IsKept ds k p = either_file ds k f g in
    (
      AlwaysHidden-append ds secured later k (secured_hidden ds made done dirs k kept)
          (closed_hidden ds later (disk_steps secured k) base_closed ipc_closed),
      subst (IsClosed base) (sym (disk_steps-append secured later k))
          (steps-IsClosed base later (disk_steps secured k) base_closed),
      subst (IsClosed ipc) (sym (disk_steps-append secured later k))
          (steps-IsClosed ipc later (disk_steps secured k) ipc_closed),
    )
