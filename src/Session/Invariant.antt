-- ===== src/Session/Invariant.antt =====
-- The invariant of a session, on its methods for a line.
use titan_share.Config.{auth_attempts_per_connection, max_receive_file_bytes}
use titan_share.Prelude.{
  ℕ, ◌≤◌, ◌<◌, ◌≡◌, Bool, true, false, Option, none, some, List, length, Bytes, arith,
}
use titan_share.Session.State.{
  Session, Stage, auth, header, file_data, Event, Env, World, Holds, new_session,
}
use titan_share.Session.Buffer.{buf_size, consume_buffer, InRange}
use titan_share.Session.Login.{handle_auth}
use titan_share.Session.Header.{refuse_file, open_received, accept_size, file_start, handle_header}

-- A file is open exactly in the DATA stage.
abbrev pub FileMatches : Stage → Option ℕ → Type 0
FileMatches file_data (some fd) = Unit
FileMatches file_data none = ⊥
FileMatches auth none = Unit
FileMatches auth (some fd) = ⊥
FileMatches header none = Unit
FileMatches header (some fd) = ⊥

-- In the DATA stage bytes are missing, and no more than 2 GiB were declared.
abbrev pub Incomplete : Stage → ℕ → ℕ → Type 0
Incomplete file_data received expected = (received < expected) × (expected ≤ max_receive_file_bytes)
Incomplete _ received expected = Unit

-- An open connection has guesses left; a closed one used at most three.
abbrev pub GuessesLeft : Bool → ℕ → Type 0
GuessesLeft false attempts = attempts < auth_attempts_per_connection
GuessesLeft true attempts = attempts ≤ auth_attempts_per_connection

pub record IsValid (s : Session) : Type 0 where
  pub in_range : InRange s
  pub file_matches : FileMatches s.stage s.file_fd
  pub incomplete : Incomplete s.stage s.received_bytes s.expected_bytes
  pub guesses_left : GuessesLeft s.closed s.auth_attempts

-- `write` takes no more than it is given.
abbrev pub WritesWithin : Env → Type 0
WritesWithin env =
    (t : List Event) (fd : ℕ) (bytes : Bytes) (n : ℕ)
    → env.write_file t fd bytes ≡ some n
    → n ≤ length bytes

pub new_session-IsValid : (fd : ℕ) (ip : Bytes) → IsValid (new_session fd ip)
unfolding new_session
new_session-IsValid fd ip = record {
  in_range = omega arith;
  file_matches = tt;
  incomplete = tt;
  guesses_left = omega arith;
}

pub consume_buffer-IsValid :
    (n : ℕ) (s : Session) → n ≤ buf_size s → IsValid s → IsValid (consume_buffer n s)
unfolding consume_buffer buf_size
consume_buffer-IsValid n s h v = ground arith

pub handle_auth-IsValid :
    (env : Env) (line : Bytes) (s : Session) (w : World)
    → s.closed ≡ false
    → s.stage ≡ auth
    → IsValid s
    → IsValid (handle_auth env line s w).0
unfolding handle_auth
handle_auth-IsValid env line s w o a v = ground arith

abbrev pub StateValid : Session × World → Type 0
StateValid r = IsValid r.0

file_start-IsValid :
    (env : Env) (line : Bytes) (s : Session) (w : World)
    → s.stage ≡ header
    → IsValid s
    → Holds StateValid (file_start env line s w)
unfolding file_start accept_size open_received refuse_file
file_start-IsValid env line s w a v = ground arith

pub handle_header-IsValid :
    (env : Env) (line : Bytes) (s : Session) (w : World)
    → s.stage ≡ header
    → IsValid s
    → Holds StateValid (handle_header env line s w)
unfolding handle_header
handle_header-IsValid env line s w a v = ground (arith, file_start-IsValid env line s w a v)
