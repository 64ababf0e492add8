-- ===== src/Daemon/Tests.antt =====
-- A daemon that gets signals, and one that starts with a persisted PIN and changes it twice.
use titan_share.Prelude.{
  inl, inr, true, false, some, none, List, [], ◌∷◌, Bytes, codes, ◌≡◌, refl, arith,
}
use titan_share.Auth.{init}
use titan_share.Server.Listener.{Answers, set_up}
use titan_share.Daemon.Shutdown.{
  Happening, goes_on, signal, course, happens, announced, main_step, handle_signal, finished,
  looping, signal_finishes, early_signal_lost,
}
use titan_share.Discovery.Advertiser.{MdnsAdvertiser}
use titan_share.Auth.Persist.{opens, refuses}
use titan_share.Auth.Perms.{Persisting, FileState, Dirs, Disk, disk_steps}
use titan_share.Config.{get_data_dir, get_ipc_dir}
use titan_share.Daemon.{data_dirs}
use titan_share.Daemon.Secrets.{AlwaysHidden, IsClosed, daemon_steps, daemon_steps-AlwaysHidden}
use titan_share.Daemon.{Draw, Wake, IsPaired, start_up, pin_thread, pin_thread-start_up}

abbrev idle : MdnsAdvertiser
idle = record {
  simple_poll = true;
  client = true;
  group = none;
  pin = [];
  port = 0;
  hostname = [];
  running = true;
  pin_dirty = true;
  quit = true;
}

abbrev persisted : Draw
persisted = record { loaded = some (codes "123456"); ip = codes "10.0.0.2"; dist = λ lo hi. lo }

abbrev wake : Wake
wake = record { before = true; behind = true; draw = persisted }

pin_thread-start_up_example : IsPaired (
    pin_thread
      (wake ∷ wake ∷ [])
      (start_up persisted (codes "desk") (init (codes "10.0.0.2") (codes "desk")) idle))
pin_thread-start_up_example =
    pin_thread-start_up persisted (codes "desk") (init (codes "10.0.0.2") (codes "desk")) idle
      (wake ∷ wake ∷ [])

-- The kernel lets the server listen.
abbrev listens : Answers
listens = record { socket = some 5; binds = true; listens = true; epoll = some 6 }

abbrev goes : Happening
goes = goes_on listens false

-- A first signal comes in too early; the second one finds the server in its loop.
abbrev started_up : List Happening
started_up = goes ∷ goes ∷ signal ∷ goes ∷ goes ∷ goes ∷ []

signal_finishes_example :
    (course (goes ∷ goes ∷ []) (happens signal (course started_up announced))).phase ≡ finished
unfolding course happens main_step handle_signal announced set_up
signal_finishes_example = signal_finishes started_up (goes ∷ goes ∷ []) refl (omega arith)

early_signal_lost_example :
    (course (goes ∷ goes ∷ goes ∷ []) (course (goes ∷ signal ∷ goes ∷ goes ∷ []) announced)).phase
    ≡ looping
unfolding course happens main_step handle_signal announced set_up
early_signal_lost_example =
    early_signal_lost (goes ∷ signal ∷ goes ∷ goes ∷ []) (goes ∷ goes ∷ []) listens false refl refl
      (refl, (refl, tt))

-- An empty disk of a user with a home and a run-time directory; on two of the files `chmod` fails.
abbrev no_file : FileState
no_file = record { there = false; others_read = false; has_pin = false }

abbrev empty_disk : Disk
empty_disk = record {
  dir_there = λ d. false;
  others_enter = λ d. false;
  session = no_file;
  ipc = no_file;
}

abbrev persistings : List Persisting
persistings =
    record { session_opening = opens; ipc_opening = opens; chmods = λ p. false }
    ∷ record { session_opening = opens; ipc_opening = refuses; chmods = λ p. true }
    ∷ []

abbrev home : Bytes
home = codes "/home/me"

abbrev run_dir : Bytes
run_dir = codes "/run/user/1000"

-- What an earlier run has left: a file with a PIN that its mode lets others read, in a directory that
-- is closed to them.
abbrev left_disk : Disk
left_disk = record empty_disk {
  dir_there = λ d. true;
  others_enter = λ d. false;
  session = record { there = true; others_read = true; has_pin = true };
}

daemon_steps-AlwaysHidden_example :
    let base = get_data_dir 1000 (some home) in
    let ipc = get_ipc_dir 1000 false (some run_dir) base in
    let ds : Dirs = record { data_dir = base; ipc_dir = ipc } in
    let steps =
      daemon_steps
        (λ d. true)
        (λ d. true)
        (data_dirs 1000 false (some run_dir) (some home))
        ds
        persistings in
    AlwaysHidden ds steps left_disk
    × IsClosed base (disk_steps steps left_disk)
    × IsClosed ipc (disk_steps steps left_disk)
daemon_steps-AlwaysHidden_example =
    daemon_steps-AlwaysHidden 1000 false (some run_dir) (some home) (λ d. true) (λ d. true)
      persistings left_disk (λ d. refl) refl refl (inr (refl, refl)) (inl refl)
