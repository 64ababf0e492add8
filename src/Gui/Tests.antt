-- ===== src/Gui/Tests.antt =====
-- A disk with the files of two daemons, dropped files, and the theorems on them.
use titan_share.Prelude.{
  ℕ, suc, List, length, ◌++◌, ◌==◌, contains, ◌≡◌, refl, sym, ap, ◌∙◌, inl, inr, true, false,
  if◌then◌else◌, Option, none, some, [], ◌∷◌, Bytes, codes, eqb, rfind, substr_from, ℤ, pos, lookup,
  Assoc, arith,
}
use titan_share.Config.{get_ipc_dir, get_data_dir}
use titan_share.Auth.{SessionManager}
use titan_share.Auth.Persist.{Object, Value, ipc_object}
use titan_share.Gui.Ipc.{Json, Disk, Environment, candidates}
use titan_share.Gui.Drop.{
  Allowed, local_file, dest_dir, file_name, drop_url, handle_dropped_files, drop_url_lem,
}
use titan_share.Gui.Model.{Doubles}
use titan_share.Gui.Window.{Window, timeout, step, run}
use titan_share.Gui.Window.Shown.{timeout_shows_daemon}
use titan_share.Gui.Offered.{Offers, dropped_file-Delivered}
use titan_share.Session.State.{Env, Event, pushes, took, World, Ends}
use titan_share.Session.Push.{push_file}
use titan_share.Session.Delivery.{streamed, SocketProgress}
use titan_share.Session.Delivery.Complete.{Delivered}

-- A JSON reader that sees what was dumped.
abbrev view : Value → Json ℕ
view (Value.text s) = Json.text s
view (Value.number n) = Json.number n

abbrev read_back : Object → Assoc (Json ℕ)
read_back [] = []
read_back ((k, v) ∷ o) = (k, view v) ∷ read_back o

read_back-text :
    (o : Object) (k s : Bytes)
    → lookup k o ≡ some (Value.text s)
    → lookup k (read_back o) ≡ some (Json.text s)
unfolding lookup
read_back-text [] k s h = cc
read_back-text ((j, Value.text t) ∷ o) k s h = ground (arith, read_back-text o k s)
read_back-text ((j, Value.number n) ∷ o) k s h = ground (arith, read_back-text o k s)

abbrev session : ℕ → SessionManager
session n = record {
  current_pin = codes "482913";
  current_ip = codes "10.0.0.2";
  hostname = codes "arch";
  recent_pins = [];
  auth_failures = [];
  blocked_until = [];
  ban_count = [];
}

abbrev desktop : Environment
desktop = record { xdg_run = codes "/run/user/1000"; home = codes "/home/ann" }

-- A stale file of a root daemon, and the one of the daemon that runs.
abbrev times : Bytes → Option ℤ
times path =
    if eqb path (codes "/run/titanshare/titanshare-pin.json")
    then some (pos 40)
    else if eqb path (codes "/run/user/1000/titanshare/titanshare-pin.json")
    then some (pos 50)
    else none

abbrev disk : Disk Object
disk = record { modified = times; opened = λ path. some (ipc_object (session 0)) }

abbrev everything : Allowed
everything = record { removes = λ path. true; copies = λ src dst. true }

-- Files by what they hold.
abbrev stored : Assoc ℕ
stored = (codes "/data/note.txt", 7) ∷ []

drop_url_lem_example :
    lookup
      (codes "/data/note.txt")
      (drop_url everything (codes "/data/") (local_file (codes "/data/note.txt")) stored)
    ≡ none
unfolding lookup eqb file_name rfind substr_from
drop_url_lem_example =
    drop_url_lem everything (codes "/data/") (codes "/data/note.txt") stored 7 refl refl refl

-- `double` as a number, and a window that shows an old PIN.
abbrev naturals : Doubles
naturals = record { Double = ℕ; nothing = 0; equal = λ a b. a == b }

abbrev stale : Window naturals read_back (codes "desk") desktop
stale = record {
  model = record {
    pin_code = codes "000000";
    device_name = codes "Linux PC";
    transfer_active = false;
    transfer_is_sending = false;
    transfer_filename = [];
    transfer_progress = 0;
    pin_code_changed = 0;
    device_name_changed = 0;
    transfer_changed = 0;
  };
  watched = [];
}

reads_dumped :
    (o content : Object) (k s : Bytes)
    → some o ≡ some content
    → lookup k o ≡ some (Value.text s)
    → lookup k (read_back content) ≡ some (Json.text s)
reads_dumped o content k s e h = read_back-text content k s (ap (lookup k) (sym same) ∙ h)
  where
    same : o ≡ content
    same = cc

timeout_shows_daemon_example :
    let w = step naturals read_back (codes "desk") desktop (timeout disk) stale in
    (w.model.pin_code ≡ codes "482913") × (w.model.device_name ≡ codes "arch")
unfolding eqb candidates get_ipc_dir run
timeout_shows_daemon_example =
    timeout_shows_daemon naturals read_back (codes "desk") some reads_dumped disk desktop 1000 false
      (some (codes "/run/user/1000")) (some (codes "/home/ann")) (session 0)
      (ipc_object (session 0)) 50 (inr (refl, λ e. cc)) refl refl refl
      (inr (inr (40, refl, omega arith)), (inl refl, (inr (inl refl), (inr (inl refl), tt)))) refl
      refl [] stale

-- A file is dropped on Ann's window, and her daemon finds what the disk holds then.
abbrev notes : Assoc Bytes
notes = (codes "/data/note.txt", codes "abc") ∷ []

abbrev dropped : Assoc Bytes
dropped =
    handle_dropped_files everything (codes "/home/ann") (local_file (codes "/data/note.txt") ∷ [])
      notes

abbrev daemon_env : Env
daemon_env = record {
  now = λ t. 0;
  dirs_made = λ t p. true;
  open_file = λ t p. none;
  write_file = λ t fd bytes. none;
  dispatch = λ t line. none;
  data_dir = codes "/home/ann/.local/share/titanshare";
  ipc_dir = codes "/run/user/1000/titanshare";
  folder = λ t. some [];
  progress_opens = λ t. true;
  dumps = λ name. true;
  dump_files = λ fs. some [];
  is_file = λ t p. elim (lookup p dropped) [ none ↦ some false | some _ ↦ some true ];
  file_size = λ t p. elim (lookup p dropped) [ none ↦ some 0 | some bytes ↦ some (length bytes) ];
  content = λ t p. lookup p dropped;
  write_socket = λ t bytes. took (suc (length bytes));
  patience = 131073;
}

progress : SocketProgress daemon_env
progress = record {
  stalls = 0;
  pending = λ t. 0;
  pending_bounded = λ t. omega arith;
  takes_some = λ t bytes n e. ground arith;
  again_less = λ t bytes e. cc;
  patient = omega arith;
}

offers : (t : List Event) → Offers daemon_env t dropped
offers t path bytes e = (rw (e, daemon_env), rw (e, daemon_env), e)

abbrev world : World
world = record { trace = []; manager = session 0 }

dropped_file-Delivered_example :
    Ends
      (Delivered (streamed world.trace ++ codes "abc"))
      (push_file daemon_env (file_name (codes "/data/note.txt")) world)
unfolding lookup eqb file_name rfind substr_from contains dest_dir get_data_dir
dropped_file-Delivered_example =
    dropped_file-Delivered everything daemon_env 1000 (codes "/home/ann") (codes "/data/note.txt")
      (codes "abc") notes world progress refl refl refl refl (omega arith) refl refl refl refl
      (offers (pushes (file_name (codes "/data/note.txt")) ∷ world.trace))
