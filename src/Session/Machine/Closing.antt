-- ===== src/Session/Machine/Closing.antt =====
-- Where a session closes its connection: `close` of the descriptor is then the last thing it did.
use titan_share.Prelude.{
  ℕ, zero, suc, ◌+◌, ◌-◌, min, take, ◌==◌, ◌≡◌, refl, ◌∙◌, false, ◌||◌, ◌⊎◌, inl, inr, Option, none,
  some, List, ◌∷◌, ◌++◌, Bytes, Bool-cases, Option-cases, arith,
}
use titan_share.Session.State.{
  Session, Stage, auth, header, file_data, Event, closes, writes, note, Env, World, Exec, Holds,
  Holds-bind,
}
use titan_share.Session.Buffer.{buf_size, buf_data, consume_buffer, compact_buffer}
use titan_share.Session.Login.{handle_auth}
use titan_share.Session.Header.{handle_header, file_start, accept_size, open_received, refuse_file}
use titan_share.Session.Upload.{
  handle_file_data, write_some, check_completion, report_received, finish_file, drain_sentinel,
  abandon_file,
}
use titan_share.Session.Push.{publish_transfer_state}
use titan_share.Session.Machine.{next_line, run_stage, process_loop, process_buffer, on_data}

-- The descriptor that the last event closed.
abbrev pub last_closed : List Event → Option ℕ
last_closed (closes n ∷ t) = some n
last_closed _ = none

-- The session under a descriptor is open, or the last event closed that descriptor.
abbrev pub OpenOrClosing : ℕ → Session × World → Type 0
OpenOrClosing fd (s, w) = (s.fd ≡ fd) × ((s.closed ≡ false) ⊎ (last_closed w.trace ≡ some fd))

abbrev SameConnection : Session → Session × World → Type 0
SameConnection s (t, w) = (t.fd ≡ s.fd) × (t.closed ≡ s.closed)

handle_auth-OpenOrClosing :
    (env : Env) (line : Bytes) (fd : ℕ) (s : Session) (w : World)
    → s.fd ≡ fd
    → s.closed ≡ false
    → OpenOrClosing fd (handle_auth env line s w)
unfolding handle_auth
handle_auth-OpenOrClosing env line fd s w h k = ground arith

file_start-SameConnection :
    (env : Env) (line : Bytes) (s : Session) (w : World)
    → Holds (SameConnection s) (file_start env line s w)
unfolding file_start accept_size open_received refuse_file
file_start-SameConnection env line s w = ground arith

handle_header-SameConnection :
    (env : Env) (line : Bytes) (s : Session) (w : World)
    → Holds (SameConnection s) (handle_header env line s w)
unfolding handle_header
handle_header-SameConnection env line s w = ground (arith, file_start-SameConnection env line s w)

finish_file-SameConnection :
    (env : Env) (fd : ℕ) (s : Session) (w : World)
    → Holds (SameConnection s) (finish_file env fd s w)
unfolding finish_file drain_sentinel compact_buffer consume_buffer publish_transfer_state
finish_file-SameConnection env fd s w = ground arith

check_completion-SameConnection :
    (env : Env) (fd : ℕ) (s : Session) (w : World)
    → Holds (SameConnection s) (check_completion env fd s w)
unfolding check_completion report_received publish_transfer_state
check_completion-SameConnection env fd s w =
    Holds-bind (SameConnection s) (SameConnection s) (report_received env s w) _ (ground arith)
      λ q h. ground (arith, finish_file-SameConnection env fd q.0 q.1)

check_completion_of :
    (env : Env) (fd : ℕ) (s t : Session) (w : World)
    → t.fd ≡ s.fd
    → t.closed ≡ s.closed
    → Holds (SameConnection s) (check_completion env fd t w)
check_completion_of env fd s t w h k = ground (arith, check_completion-SameConnection env fd t w)

consume_buffer-SameConnection :
    (n : ℕ) (s : Session) (w : World) → SameConnection s (consume_buffer n s, w)
unfolding consume_buffer
consume_buffer-SameConnection n s w = ground arith

abbrev piece_of : Session → Bytes
piece_of s = take (min (buf_size s) (s.expected_bytes - s.received_bytes)) (buf_data s)

handle_file_data-SameConnection :
    (env : Env) (s : Session) (w : World) → Holds (SameConnection s) (handle_file_data env s w)
unfolding handle_file_data write_some abandon_file
handle_file_data-SameConnection env s w = elim (Option-cases s.file_fd) [
  | inl closed ↦ ground arith
  | inr (fd, e) ↦ elim (Option-cases (env.write_file w.trace fd (piece_of s))) [
    | inl failed ↦ ground (arith, check_completion_of env fd s s w refl refl)
    | inr (n, took) ↦
        let t : Session = record s { received_bytes = s.received_bytes + n } in
        let same = consume_buffer-SameConnection n t w in
        ground (
          arith,
          check_completion_of env fd s s w refl refl,
          check_completion_of env fd s (consume_buffer n t)
              (note (writes fd (take n (piece_of s))) w) same.0 same.1,
        )
  ]
]

next_line-SameConnection :
    (s t : Session) (line : Bytes) (w : World)
    → next_line s ≡ some (line, t)
    → SameConnection s (t, w)
unfolding next_line consume_buffer
next_line-SameConnection s t line w e = ground arith

run_stage-OpenOrClosing :
    (env : Env) (next : Session → World → Exec (Session × World)) (fd : ℕ) (st : Stage)
    (s : Session) (w : World)
    → s.fd ≡ fd
    → s.closed ≡ false
    → ((t : Session) (u : World) → OpenOrClosing fd (t, u) → Holds (OpenOrClosing fd) (next t u))
    → Holds (OpenOrClosing fd) (run_stage env next st s w)
unfolding run_stage
run_stage-OpenOrClosing env next fd auth s w h k go = elim (Option-cases (next_line s)) [
  | inl e ↦ rw (e, Holds) (h, inl k)
  | inr ((line, t), e) ↦
      let same = next_line-SameConnection s t line w e in
      rw (e, Holds) (go _ _ (handle_auth-OpenOrClosing env line fd t w (same.0 ∙ h) (same.1 ∙ k)))
]
run_stage-OpenOrClosing env next fd header s w h k go = elim (Option-cases (next_line s)) [
  | inl e ↦ rw (e, Holds) (h, inl k)
  | inr ((line, t), e) ↦
      let same = next_line-SameConnection s t line w e in
      rw (e, Holds)
        (Holds-bind (SameConnection t) (OpenOrClosing fd) (handle_header env line t w) _
          (handle_header-SameConnection env line t w)
          λ q g. go q.0 q.1 (g.0 ∙ same.0 ∙ h, inl (g.1 ∙ same.1 ∙ k)))
]
run_stage-OpenOrClosing env next fd file_data s w h k go =
    ground (arith, handle_file_data-SameConnection env s w)

process_loop-OpenOrClosing :
    (env : Env) (fuel fd : ℕ) (s : Session) (w : World)
    → OpenOrClosing fd (s, w)
    → Holds (OpenOrClosing fd) (process_loop env fuel s w)
unfolding process_loop
process_loop-OpenOrClosing env zero fd s w h = tt
process_loop-OpenOrClosing env (suc fuel) fd s w h =
    elim (Bool-cases (s.closed || buf_size s == 0)) [
      | inl stop ↦ rw (stop, Holds) h
      | inr go ↦
          rw (go, Holds)
            (run_stage-OpenOrClosing env (process_loop env fuel) fd s.stage s w h.0 (ground arith)
              λ t u g. process_loop-OpenOrClosing env fuel fd t u g)
    ]

-- Whatever bytes come in on an open session, it is open after them, or the last thing that it did
-- was to close its connection.
pub on_data-OpenOrClosing :
    (env : Env) (bytes : Bytes) (s : Session) (w : World)
    → s.closed ≡ false
    → Holds (OpenOrClosing s.fd) (on_data env bytes s w)
unfolding on_data process_buffer
on_data-OpenOrClosing env bytes s w h =
    let s' : Session = record s { buffer = s.buffer ++ bytes } in
    ground (arith, process_loop-OpenOrClosing env (suc (buf_size s')) s.fd s' w (refl, inl h))
