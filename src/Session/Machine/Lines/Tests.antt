-- ===== src/Session/Machine/Lines/Tests.antt =====
-- Streams of lines that are cut up, and the theorems on them.
use titan_share.Auth.{SessionManager, init, is_ip_blocked, validate_key, find_pin}
use titan_share.Prelude.{
  suc, ◌*◌, ◌≡◌, refl, true, false, some, none, List, [], ◌∷◌, ◌++◌, length, Bytes, codes, contains,
  eqb, substr, substr_from, trim_front, trim_back, lookup, to_string, arith,
}
use titan_share.Session.State.{
  Session, header, new_session, sent, dispatches, took, Env, World, ran, ◌>>=◌, Returns,
}
use titan_share.Session.Buffer.{buf_data}
use titan_share.Session.Header.{handle_command, run_command, command_text}
use titan_share.Session.Login.{read_pin}
use titan_share.Session.Machine.{drop_return}
use titan_share.Session.Machine.Lines.{
  stream, feed, run_line, run_lines, announces_file, holding, view,
}
use titan_share.Session.Machine.Lines.Feed.{feed-run_lines}
use titan_share.Session.Machine.Lines.Taking.{IsRoomy, IsUploaded}
use titan_share.Session.Machine.Lines.Announced.{IsNamed}
use titan_share.Session.Machine.Lines.Sender.{feed-new_session-IsUploaded}
use titan_share.Session.Machine.Lines.Upload.{feed-IsUploaded}
use titan_share.Session.Machine.Lines.Paired.{paired_session, paired_world, feed-new_session}

abbrev env : Env
env = record {
  now = λ t. 1000000 * length t;
  dirs_made = λ t dir. true;
  open_file = λ t path. none;
  write_file = λ t fd bytes. some (length bytes);
  dispatch = λ t cmd. some (codes "CMD_OK\n");
  data_dir = codes "/data";
  ipc_dir = codes "/run/titan";
  folder = λ t. some [];
  progress_opens = λ t. true;
  dumps = λ name. true;
  dump_files = λ fs. some (codes "{}");
  is_file = λ t path. some false;
  file_size = λ t path. some 0;
  content = λ t path. none;
  write_socket = λ t bytes. took (suc (length bytes));
  patience = 4;
}

abbrev manager : SessionManager
manager = record (init (codes "10.0.0.2") (codes "desk")) { recent_pins = codes "123456" ∷ [] }

abbrev world : World
world = record { trace = []; manager = manager }

abbrev paired : Session
paired = record (new_session 5 (codes "10.0.0.3")) { stage = header }

-- Two lines, one with a carriage return, and the start of a third.
abbrev lines_sent : List Bytes
lines_sent = codes "CMD:lock\r" ∷ codes "HELLO" ∷ []

abbrev chunks : List Bytes
chunks = codes "CMD:lo" ∷ codes "ck\r\nHEL" ∷ [] ∷ codes "LO\nCMD:m" ∷ []

-- What the lines are to do.
lines_do :
    run_lines env lines_sent world
    ≡ ran (record world {
      trace =
          sent (codes "UNKNOWN_REQUEST\n")
          ∷ sent (codes "CMD_OK\n")
          ∷ dispatches (codes "lock")
          ∷ [];
    })
unfolding run_lines run_line handle_command run_command command_text drop_return eqb substr
    substr_from trim_front
lines_do = refl

feed-run_lines_example :
    (feed env chunks paired world >>= view)
    ≡ (run_lines env lines_sent world >>= λ w'. ran (holding (codes "CMD:m") paired, w'))
unfolding contains stream announces_file drop_return eqb substr new_session buf_data
feed-run_lines_example =
    feed-run_lines env chunks lines_sent (codes "CMD:m") paired world refl refl (omega arith) refl
      refl ((refl, refl), ((refl, refl), tt)) refl

-- The same behind a PIN.
abbrev from_start : List Bytes
from_start = codes "AUTH:12" ∷ codes "3456\r\nCMD:lo" ∷ codes "ck\r\nHELLO\nCMD:m" ∷ []

feed-new_session_example :
    (feed env from_start (new_session 5 (codes "10.0.0.3")) world >>= view) ≡ (
      run_lines env lines_sent (paired_world env (codes "10.0.0.3") world) >>= λ w'. ran (
        holding
            (codes "CMD:m")
            (paired_session 5 (codes "10.0.0.3") (read_pin (drop_return (codes "AUTH:123456\r")))),
        w',
      ))
unfolding contains stream announces_file drop_return eqb substr substr_from trim_front trim_back
    read_pin is_ip_blocked validate_key find_pin lookup init
feed-new_session_example =
    feed-new_session env 5 (codes "10.0.0.3") from_start lines_sent (codes "AUTH:123456\r")
      (codes "CMD:m") world refl refl refl refl (omega arith, (omega arith, (omega arith, tt)))
      ((refl, refl), ((refl, refl), tt)) refl

-- A file of five bytes, one of them a newline, on a disk with room.
abbrev roomy_env : Env
roomy_env = record env { open_file = λ t path. some 9 }

-- What `CMD:lock` does.
abbrev called : World → World
called w = record w { trace = sent (codes "CMD_OK\n") ∷ dispatches (codes "lock") ∷ w.trace }

abbrev file_chunks : List Bytes
file_chunks =
    codes "CMD:lock\nFILE_STA" ∷ codes "RT:a:b.txt:5\nh" ∷ codes "e\n" ∷ [] ∷ codes "lo" ∷ []

roomy_env-IsRoomy : IsRoomy roomy_env
roomy_env-IsRoomy = record { takes = λ t fd bytes. refl; makes = λ t dir. refl; dumps_none = refl }

file-IsNamed : IsNamed (codes "a:b.txt") (codes "he\nlo")
unfolding contains
file-IsNamed = record {
  some_name = λ e. cc;
  one_line = refl;
  some_content = omega arith;
  limited = omega arith;
}

feed-IsUploaded_example :
    Returns (IsUploaded 9 (codes "he\nlo")) (feed roomy_env file_chunks paired world)
unfolding contains new_session buf_data to_string stream run_lines run_line handle_command
    run_command command_text drop_return announces_file eqb substr substr_from trim_front
feed-IsUploaded_example =
    feed-IsUploaded roomy_env file_chunks (codes "CMD:lock" ∷ []) (codes "a:b.txt") (codes "he\nlo")
      9 paired world (called world) roomy_env-IsRoomy refl refl (omega arith) refl
      ((refl, refl), tt) refl file-IsNamed refl refl refl refl

-- The same from the first byte of the connection on.
abbrev early_chunks : List Bytes
early_chunks = codes "AUTH:12" ∷ codes "3456\nCMD:" ∷ []

abbrev late_chunks : List Bytes
late_chunks = codes "lock\nFILE_START:a:b.txt" ∷ codes ":5\nhe" ∷ codes "\nlo" ∷ []

feed-new_session-IsUploaded_example :
    Returns
      (IsUploaded 9 (codes "he\nlo"))
      (feed roomy_env (early_chunks ++ late_chunks) (new_session 5 (codes "10.0.0.3")) world)
unfolding contains to_string stream run_lines run_line handle_command run_command command_text
    drop_return announces_file eqb substr substr_from trim_front trim_back read_pin is_ip_blocked
    validate_key find_pin lookup init paired_world
feed-new_session-IsUploaded_example =
    feed-new_session-IsUploaded roomy_env 5 (codes "10.0.0.3") early_chunks late_chunks
      (codes "CMD:lock" ∷ []) (codes "AUTH:123456") (codes "CMD:") (codes "a:b.txt")
      (codes "he\nlo") 9 world (called (paired_world roomy_env (codes "10.0.0.3") world))
      roomy_env-IsRoomy refl refl refl (omega arith, (omega arith, tt)) ((refl, refl), tt) refl
      file-IsNamed refl refl refl refl refl
