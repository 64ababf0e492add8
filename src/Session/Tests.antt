-- ===== src/Session/Tests.antt =====
-- Sessions on concrete environments, and the theorems on them.
use titan_share.Auth.{SessionManager, init, validate_key, is_ip_blocked}
use titan_share.Prelude.{
  suc, ◌*◌, leb, ◌≡◌, refl, ◌↔◌, true, false, if◌then◌else◌, some, [], ◌∷◌, ◌++◌, length, Bytes,
  codes, arith,
}
use titan_share.Session.State.{
  Session, header, file_data, new_session, took, Env, World, Holds, Ends,
}
use titan_share.Session.Buffer.{buf_data}
use titan_share.Session.Login.{handle_auth, read_pin, handle_auth-header}
use titan_share.Session.Push.{push_file}
use titan_share.Session.Delivery.{SocketProgress, streamed}
use titan_share.Session.Delivery.Complete.{Delivered, push_file-Delivered}
use titan_share.Session.Upload.Content.{Continues}
use titan_share.Session.Invariant.{IsValid, StateValid, WritesWithin, new_session-IsValid}
use titan_share.Session.Machine.{on_data}
use titan_share.Session.Machine.Transfer.{on_data-Continues}
use titan_share.Session.Machine.Total.{AnyState, on_data-Ends}
use titan_share.Session.Machine.Valid.{on_data-IsValid}
use titan_share.Session.Machine.Gate.{privileged, Gated, on_data-Gated}

abbrev phone : Bytes
phone = codes "192.168.1.20"

abbrev manager : SessionManager
manager = init (codes "10.0.0.2") (codes "desk")

-- The window holds one PIN.
abbrev with_pin : SessionManager
with_pin = record manager { recent_pins = codes "123456" ∷ [] }

-- A disk that takes a byte at a time, a file of three bytes, and a socket that takes all.
abbrev env : Env
env = record {
  now = λ t. 1000000 * length t;
  dirs_made = λ t dir. true;
  open_file = λ t path. some 9;
  write_file = λ t fd bytes. if leb 1 (length bytes) then some 1 else some 0;
  dispatch = λ t cmd. some (codes "CMD_OK\n");
  data_dir = codes "/data";
  ipc_dir = codes "/run/titan";
  folder = λ t. some [];
  progress_opens = λ t. true;
  dumps = λ name. true;
  dump_files = λ fs. some (codes "{}");
  is_file = λ t path. some true;
  file_size = λ t path. some 3;
  content = λ t path. some (codes "abc");
  write_socket = λ t bytes. took (suc (length bytes));
  patience = 131073;
}

abbrev world : World
world = record { trace = []; manager = with_pin }

abbrev session : Session
session = new_session 5 phone

abbrev paired : Session
paired = record session { stage = header }

abbrev receiving : Session
receiving = record session {
  stage = file_data;
  expected_bytes = 3;
  file_fd = some 9;
  buffer = codes "x";
  buffer_offset = 0;
}

bounded : WritesWithin env
bounded t fd bytes n e = ground arith

progress : SocketProgress env
progress = record {
  stalls = 0;
  pending = λ t. 0;
  pending_bounded = λ t. omega arith;
  takes_some = λ t bytes n e. ground arith;
  again_less = λ t bytes e. cc;
  patient = omega arith;
}

session-IsValid : IsValid session
unfolding new_session
session-IsValid = new_session-IsValid 5 phone

on_data-Gated_example :
    Holds (Gated (privileged world.trace)) (on_data env (codes "CMD:shutdown\n") session world)
unfolding new_session
on_data-Gated_example = on_data-Gated env (codes "CMD:shutdown\n") session world refl

handle_auth-header_example :
    ((handle_auth env (codes "AUTH: 123456") session world).0.stage ≡ header) ↔ (
      ((is_ip_blocked world.manager session.remote_ip (env.now world.trace)).0 ≡ false)
      × (validate_key world.manager (read_pin (codes "AUTH: 123456")) ≡ true))
unfolding new_session
handle_auth-header_example = handle_auth-header env (codes "AUTH: 123456") session world refl

on_data-Continues_example :
    Holds (Continues 9 3 (codes "x" ++ codes "yz")) (on_data env (codes "yz") receiving world)
unfolding buf_data new_session
on_data-Continues_example =
    on_data-Continues env 9 3 (codes "x") (codes "yz") receiving world bounded (omega arith) refl
      refl
      (record {
        in_stage = refl;
        expected_is = refl;
        counted = refl;
        within = omega arith;
        conserved = refl;
      })

on_data-IsValid_example :
    Holds StateValid (on_data env (codes "AUTH:123456\nCMD:lock\n") session world)
on_data-IsValid_example =
    on_data-IsValid env (codes "AUTH:123456\nCMD:lock\n") session world bounded session-IsValid

on_data-Ends_example :
    Ends AnyState (on_data env (codes "AUTH:123456\nCMD:push_file:a\n") session world)
on_data-Ends_example =
    on_data-Ends env (codes "AUTH:123456\nCMD:push_file:a\n") session world progress

push_file-Delivered_example :
    Ends
      (Delivered (streamed world.trace ++ codes "abc"))
      (push_file env (codes "../notes.txt") world)
push_file-Delivered_example =
    push_file-Delivered env (codes "../notes.txt") (codes "abc") world progress refl refl refl
      (omega arith)
