-- ===== src/Server/Tests.antt =====
-- A run of the event loop, and the theorem on it.
use titan_share.Auth.{init, is_ip_blocked, validate_key, find_pin}
use titan_share.Prelude.{
  ℕ, ◌≤◌, ◌≡◌, refl, inr, true, some, none, [], ◌∷◌, length, List, codes, arith, Bytes, replicate,
  lookup, eqb, contains, to_string, ℤ, pos, negsuc,
}
use titan_share.Session.State.{Env, fails, Holds, Event, sent, closes, new_session, ran, ◌>>=◌}
use titan_share.Session.Invariant.{WritesWithin}
use titan_share.Server.{
  TcpServer, Ready, incoming, readable, stops, gets, ends, breaks, would_block, find_client,
  handle_client_data, run,
}
use titan_share.Server.Admission.{IsClosed, run-IsClosed}
use titan_share.Server.Isolation.{HasClient, run-HasClient}
use titan_share.Server.Valid.{ServerValid, run-ServerValid}
use titan_share.Server.DoubleClose.{handle_client_data-closes_twice}
use titan_share.Server.Phone.{visit, observe, run-visit}
use titan_share.Commands.Pointer.{replay, with_dispatcher, moved_by, moved_trace}
use titan_share.Commands.Shell.{exited}
use titan_share.Commands.Dispatcher.{Services, Dispatcher}
use titan_share.Input.{VirtualInput}
use titan_share.Session.Machine.{is_auth, on_data}
use titan_share.Session.Machine.Lines.{stream, holding}
use titan_share.Session.Machine.Lines.Paired.{paired_session, paired_world}

abbrev env : Env
env = record {
  now = λ t. length t;
  dirs_made = λ t dir. true;
  open_file = λ t path. none;
  write_file = λ t fd bytes. some (length bytes);
  dispatch = λ t cmd. some (codes "CMD_OK\n");
  data_dir = [];
  ipc_dir = [];
  folder = λ t. some [];
  progress_opens = λ t. true;
  dumps = λ name. true;
  dump_files = λ fs. some [];
  is_file = λ t path. some true;
  file_size = λ t path. some 0;
  content = λ t path. none;
  write_socket = λ t bytes. fails;
  patience = 1;
}

abbrev server : TcpServer
server = record {
  clients = [];
  watched = [];
  running = true;
  world = record { trace = []; manager = init [] [] };
}

abbrev day : List (List Ready)
day =
    (incoming (some (7, codes "10.0.0.3")) ∷ [])
    ∷ (readable 7 (gets (codes "AUTH:1\n") ∷ would_block ∷ []) ∷ incoming none ∷ [])
    ∷ (readable 7 (ends ∷ []) ∷ stops ∷ [])
    ∷ []

some_length : (a n : ℕ) → some a ≡ some n → n ≤ a
some_length a n e = ground arith

bounded : WritesWithin env
bounded t fd bytes n e = some_length (length bytes) n e

run-ServerValid_example : Holds ServerValid (run env day server)
run-ServerValid_example =
    run-ServerValid env day server bounded (record { limited = omega arith; sessions = tt })

-- What the other clients do on a day on which descriptor 9 stays quiet.
run-HasClient_example : Holds (HasClient 9 none) (run env day server)
unfolding find_client
run-HasClient_example = run-HasClient env 9 none day server refl refl

-- Of all that happens on that day, nothing was admitted.
run-IsClosed_example : Holds (IsClosed 0) (run env day server)
run-IsClosed_example = run-IsClosed env 0 day server (inr (tt, refl))

-- A client that floods the server before it is paired.
abbrev flooded : TcpServer
flooded = record server { clients = (7, new_session 7 (codes "10.0.0.3")) ∷ [] }

abbrev flood : Bytes
flood = replicate 4097 b'x'

handle_client_data-closes_twice_example :
    (older : List Event) × (srv' : TcpServer) × (handle_client_data env 7
        (gets flood ∷ breaks ∷ [])
        flooded
      ≡ ran srv')
    × (closes 7 ∷ [] ≡ closes 7 ∷ older)
    × (srv'.world.trace ≡ closes 7 ∷ closes 7 ∷ older)
    × (find_client 7 srv'.clients ≡ none)
unfolding find_client on_data is_auth new_session
handle_client_data-closes_twice_example =
    handle_client_data-closes_twice env 7 flood [] (new_session 7 (codes "10.0.0.3"))
      (record (new_session 7 (codes "10.0.0.3")) { buffer = flood; closed = true })
      (record { trace = closes 7 ∷ []; manager = init [] [] }) flooded refl refl refl refl refl refl

abbrev services : Services
services = record {
  host = record { uid = 0; popen = λ ran command. some ([], exited 0) };
  local_ip = codes "10.0.0.2";
  mirror_starts = λ ran. true;
  dump_mirror = λ kind ip port. kind;
  dump_info = λ ran. some [];
}

abbrev device : VirtualInput
device = record { mouse_fd = some 3; kb_fd = some 4; initialized = true }

abbrev dispatcher : Dispatcher
dispatcher = record { input = some device; mirror = none; commands = []; emitted = [] }

-- A server that accepts one PIN.
abbrev pairing : TcpServer
pairing = record server {
  world = record {
    trace = [];
    manager = record (init [] []) { recent_pins = codes "123456" ∷ [] };
  };
}

abbrev movements : List (ℤ × ℤ)
movements = (pos 3, negsuc 4) ∷ (negsuc 0, pos 12) ∷ []

-- Two rounds of the event loop.
abbrev arrivals : List (List Bytes)
arrivals =
    (codes "AUTH:12" ∷ codes "3456\nCMD:MOUSE_MO" ∷ [])
    ∷ (codes "VE:3:-5\nCMD:MOUSE_MOVE:-1:12\nCMD:" ∷ [])
    ∷ []

run-visit_example :
    ((run (with_dispatcher services dispatcher env) (visit 7 (codes "10.0.0.3") arrivals) pairing
        >>= λ srv'. ran (observe 7 srv'))
      ≡ ran (
        some (holding (codes "CMD:") (paired_session 7 (codes "10.0.0.3") (codes "123456"))),
        record (paired_world
            (with_dispatcher services dispatcher env)
            (codes "10.0.0.3")
            pairing.world) { trace = moved_trace movements (sent (codes "AUTH_OK\n") ∷ []) },
      ))
    × (replay services dispatcher (moved_trace movements (sent (codes "AUTH_OK\n") ∷ []))
        ≡ record (replay services dispatcher []) {
          emitted = moved_by movements (replay services dispatcher []).emitted;
        })
unfolding find_client is_ip_blocked validate_key find_pin lookup eqb contains stream to_string
    replay init
run-visit_example =
    run-visit services dispatcher env device 7 (codes "10.0.0.3") (codes "123456") movements
      arrivals (codes "CMD:") pairing refl (omega arith) refl refl refl refl (omega arith) refl
      (omega arith, (omega arith, (omega arith, tt))) refl refl refl
      ((omega arith, omega arith), ((omega arith, omega arith), tt))
