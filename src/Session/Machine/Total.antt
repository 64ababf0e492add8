-- ===== src/Session/Machine/Total.antt =====
-- The end of `processBuffer`: its rounds against the readable bytes.
use titan_share.Prelude.{
  ℕ, zero, suc, ◌+◌, ◌<◌, ◌==◌, ◌≡◌, ◌||◌, some, ◌++◌, Bytes, find, find-lt-length, arith,
  substr_from, Bool-cases, Option-cases, inl, inr,
}
use titan_share.Session.State.{
  Session, Stage, auth, header, file_data, Env, World, Exec, Ends, Ends-bind,
}
use titan_share.Session.Buffer.{buf_size, buf_data, length-buf_data, buf_size-consume_buffer}
use titan_share.Session.Login.{handle_auth}
use titan_share.Session.Push.{publish_transfer_state, push_file_list, push_file}
use titan_share.Session.Delivery.{SocketProgress}
use titan_share.Session.Delivery.Total.{push_file-Ends}
use titan_share.Session.Header.{
  run_command, handle_command, command_text, refuse_file, open_received, accept_size, file_start,
  handle_header,
}
use titan_share.Session.Upload.{
  handle_file_data, write_some, check_completion, report_received, finish_file,
}
use titan_share.Session.Machine.{next_line, run_stage, process_loop, process_buffer, on_data}

abbrev PushEnds : Env → Type 0
PushEnds env = (name : Bytes) (w : World) → Ends (λ _. Unit {0}) (push_file env name w)

abbrev pub AnyState : Session × World → Type 0
AnyState _ = Unit

next_line-shorter :
    (s t : Session) (line : Bytes) → next_line s ≡ some (line, t) → buf_size t < buf_size s
unfolding next_line
next_line-shorter s t line e = elim (Option-cases (find (buf_data s) b'\n')) [
  | inl none_found ↦ ground arith
  | inr (i, found) ↦ ground (
    arith,
    find-lt-length (buf_data s) b'\n' i found,
    length-buf_data s,
    buf_size-consume_buffer (i + 1) s,
  )
]

handle_auth-buf_size :
    (env : Env) (line : Bytes) (s : Session) (w : World)
    → buf_size (handle_auth env line s w).0 ≡ buf_size s
unfolding handle_auth buf_size
handle_auth-buf_size env line s w = ground arith

handle_command-Ends :
    (env : Env) (cmd : Bytes) (w : World)
    → PushEnds env
    → Ends (λ _. Unit {0}) (handle_command env cmd w)
unfolding handle_command run_command push_file_list
handle_command-Ends env cmd w p = ground (arith, p (substr_from cmd 10) w)

file_start-Ends :
    (env : Env) (line : Bytes) (s : Session) (w : World)
    → Ends (λ q. buf_size q.0 ≡ buf_size s) (file_start env line s w)
unfolding file_start accept_size open_received refuse_file buf_size
file_start-Ends env line s w = ground arith

handle_header-Ends :
    (env : Env) (line : Bytes) (s : Session) (w : World)
    → PushEnds env
    → Ends (λ q. buf_size q.0 ≡ buf_size s) (handle_header env line s w)
unfolding handle_header
handle_header-Ends env line s w p =
    ground (arith, handle_command-Ends env (command_text line) w p, file_start-Ends env line s w)

handle_file_data-Ends :
    (env : Env) (s : Session) (w : World) → Ends AnyState (handle_file_data env s w)
unfolding handle_file_data write_some check_completion report_received finish_file
    publish_transfer_state
handle_file_data-Ends env s w = ground arith

run_stage-Ends :
    (env : Env) (next : Session → World → Exec (Session × World)) (st : Stage) (s : Session)
    (w : World)
    → PushEnds env
    → ((t : Session) (u : World) → buf_size t < buf_size s → Ends AnyState (next t u))
    → Ends AnyState (run_stage env next st s w)
unfolding run_stage
run_stage-Ends env next auth s w p k = elim (Option-cases (next_line s)) [
  | inl e ↦ rw (e, Ends) tt
  | inr ((line, t), e) ↦
      rw (e, Ends)
        (k _ _ (omega (arith, handle_auth-buf_size env line t w, next_line-shorter s t line e)))
]
run_stage-Ends env next header s w p k = elim (Option-cases (next_line s)) [
  | inl e ↦ rw (e, Ends) tt
  | inr ((line, t), e) ↦
      rw (e, Ends)
        (Ends-bind (λ q. buf_size q.0 ≡ buf_size t) AnyState (handle_header env line t w) _
          (handle_header-Ends env line t w p)
          λ q h. k q.0 q.1 (omega (arith, h, next_line-shorter s t line e)))
]
run_stage-Ends env next file_data s w p k = handle_file_data-Ends env s w

process_loop-Ends :
    (env : Env) (fuel : ℕ) (s : Session) (w : World)
    → PushEnds env
    → buf_size s < fuel
    → Ends AnyState (process_loop env fuel s w)
unfolding process_loop
process_loop-Ends env zero s w p h = absurd (omega arith)
process_loop-Ends env (suc fuel) s w p h = elim (Bool-cases (s.closed || buf_size s == 0)) [
  | inl stop ↦ rw (stop, Ends) tt
  | inr go ↦
      rw (go, Ends)
        (run_stage-Ends env (process_loop env fuel) s.stage s w p
          λ t u less. process_loop-Ends env fuel t u p (omega arith))
]

-- On any bytes the handler of a session returns or raises, if the socket makes progress: the loop
-- over the lines and the loops of a push come to an end.
pub on_data-Ends :
    (env : Env) (bytes : Bytes) (s : Session) (w : World)
    → SocketProgress env
    → Ends AnyState (on_data env bytes s w)
unfolding on_data process_buffer
on_data-Ends env bytes s w p =
    let s' : Session = record s { buffer = s.buffer ++ bytes } in
    ground (
      arith,
      process_loop-Ends env (suc (buf_size s')) s' w (λ name u. push_file-Ends env name u p)
          (omega arith),
    )
