-- ===== src/Session/Machine.antt =====
-- `processBuffer` and `onData`: the loop over the three stages.
pub mod Total
pub mod Valid
pub mod Gate
pub mod Admitted
pub mod Transfer
pub mod Lines
pub mod Closing
use titan_share.Config.{auth_max_buffer}
use titan_share.Prelude.{
  ℕ, zero, suc, ◌+◌, ◌-◌, ◌≤◌, ◌<◌, ltb, leb, ◌==◌, ◌≡◌, refl, Bool, true, false, not, ◌&&◌, ◌||◌,
  if◌then◌else◌, Option, none, some, List, [], ◌∷◌, ◌++◌, length, take, drop, Bytes, codes, find,
  arith,
}
use titan_share.Session.State.{
  Session, Stage, auth, header, file_data, Event, closes, Env, World, note, Exec, ran, threw,
  starved, ◌>>=◌,
}
use titan_share.Session.Buffer.{buf_size, buf_data, consume_buffer}
use titan_share.Session.Login.{handle_auth}
use titan_share.Session.Header.{handle_header}
use titan_share.Session.Upload.{handle_file_data}

-- `if (!line.empty() && line.back() == '\r') line.pop_back()`.
unfoldable pub drop_return : Bytes → Bytes
drop_return [] = []
drop_return (c ∷ []) = if c == b'\r' then [] else c ∷ []
drop_return (c ∷ d ∷ cs) = c ∷ drop_return (d ∷ cs)

-- The next line of the readable part, and the session once it and its newline are consumed.
unfoldable pub next_line : Session → Option (Bytes × Session)
unfolding drop_return
next_line s = elim (find (buf_data s) b'\n') [
  | none ↦ none
  | some line_len ↦ some (drop_return (take line_len (buf_data s)), consume_buffer (line_len + 1) s)
]

-- One round of the loop, by the stage; `next` is the rest of the loop.
unfoldable pub run_stage :
    Env
    → (Session → World → Exec (Session × World))
    → Stage
    → Session
    → World
    → Exec (Session × World)
run_stage env next auth s w = elim (next_line s) [
  | none ↦ ran (s, w)
  | some (line, s') ↦ let (s'', w') = handle_auth env line s' w in next s'' w'
]
run_stage env next header s w = elim (next_line s) [
  | none ↦ ran (s, w)
  | some (line, s') ↦ handle_header env line s' w >>= λ (s'', w'). next s'' w'
]
run_stage env next file_data s w = handle_file_data env s w

-- The `while` loop, on fuel: each round but the last consumes a line.
unfoldable pub process_loop : Env → ℕ → Session → World → Exec (Session × World)
process_loop env zero s w = starved
process_loop env (suc fuel) s w = elim (s.closed || buf_size s == 0) [
  | true ↦ ran (s, w)
  | false ↦ run_stage env (process_loop env fuel) s.stage s w
]

unfoldable pub process_buffer : Env → Session → World → Exec (Session × World)
process_buffer env s w = process_loop env (suc (buf_size s)) s w

unfoldable pub is_auth : Stage → Bool
is_auth auth = true
is_auth _ = false

unfoldable pub on_data : Env → Bytes → Session → World → Exec (Session × World)
on_data env bytes s w =
    let s' = record s { buffer = s.buffer ++ bytes } in
    if s.closed
    then ran (s, w)
    else if is_auth s.stage && ltb auth_max_buffer (length s'.buffer)
    then ran (record s' { closed = true }, note (closes s.fd) w)
    else process_buffer env s' w
