-- ===== src/Session/Machine/Valid.antt =====
-- The invariant of the session, on `processBuffer` and `onData`.
use titan_share.Prelude.{
  ℕ, zero, suc, ◌+◌, ◌==◌, ◌≡◌, refl, Bool, false, ◌||◌, some, ◌++◌, length-append, find,
  find-lt-length, Bytes, arith, Bool-cases, Option-cases, inl, inr, ◌∙◌,
}
use titan_share.Session.State.{
  Session, Stage, auth, header, file_data, Env, World, Exec, Holds, Holds-bind,
}
use titan_share.Session.Buffer.{buf_size, buf_data, length-buf_data, consume_buffer_keeps}
use titan_share.Session.Header.{handle_header}
use titan_share.Session.Upload.Valid.{handle_file_data-IsValid}
use titan_share.Session.Invariant.{
  IsValid, StateValid, WritesWithin, consume_buffer-IsValid, handle_auth-IsValid,
  handle_header-IsValid,
}
use titan_share.Session.Machine.{next_line, run_stage, process_loop, process_buffer, on_data}

-- A line that was found is consumed, and the rest of the session stays.
record IsNext (s t : Session) : Type 0 where
  valid : IsValid t
  stage_is : t.stage ≡ s.stage
  closed_is : t.closed ≡ s.closed

next_line-IsNext :
    (s t : Session) (line : Bytes) → IsValid s → next_line s ≡ some (line, t) → IsNext s t
unfolding next_line
next_line-IsNext s t line v e = elim (Option-cases (find (buf_data s) b'\n')) [
  | inl none_found ↦ ground arith
  | inr (i, found) ↦
      let fits = find-lt-length (buf_data s) b'\n' i found in
      let size = length-buf_data s in
      let consumed = consume_buffer-IsValid (i + 1) s (omega arith) v in
      ground (arith, consumed, consume_buffer_keeps (i + 1) s)
]

-- A round keeps the invariant if the rest of the loop does.
run_stage-IsValid :
    (env : Env) (next : Session → World → Exec (Session × World)) (st : Stage) (s : Session)
    (w : World)
    → WritesWithin env
    → ((t : Session) (u : World) → IsValid t → Holds StateValid (next t u))
    → s.stage ≡ st
    → s.closed ≡ false
    → IsValid s
    → Holds StateValid (run_stage env next st s w)
unfolding run_stage
run_stage-IsValid env next auth s w b k a o v = elim (Option-cases (next_line s)) [
  | inl e ↦ rw (e, Holds) v
  | inr ((line, t), e) ↦
      let n = next_line-IsNext s t line v e in
      rw (e, Holds)
        (k _ _ (handle_auth-IsValid env line t w (n.closed_is ∙ o) (n.stage_is ∙ a) n.valid))
]
run_stage-IsValid env next header s w b k a o v = elim (Option-cases (next_line s)) [
  | inl e ↦ rw (e, Holds) v
  | inr ((line, t), e) ↦
      let n = next_line-IsNext s t line v e in
      rw (e, Holds)
        (Holds-bind StateValid StateValid (handle_header env line t w) _
          (handle_header-IsValid env line t w (n.stage_is ∙ a) n.valid) λ q h. k q.0 q.1 h)
]
run_stage-IsValid env next file_data s w b k a o v = handle_file_data-IsValid env s w b a v

process_loop-IsValid :
    (env : Env) (fuel : ℕ) (s : Session) (w : World)
    → WritesWithin env
    → IsValid s
    → Holds StateValid (process_loop env fuel s w)
unfolding process_loop
process_loop-IsValid env zero s w b v = tt
process_loop-IsValid env (suc fuel) s w b v = elim (Bool-cases (s.closed || buf_size s == 0)) [
  | inl stop ↦ rw (stop, Holds) v
  | inr go ↦
      rw (go, Holds)
        (run_stage-IsValid env (process_loop env fuel) s.stage s w b
          (λ t u h. process_loop-IsValid env fuel t u b h) refl
          (open_of s.closed (buf_size s == 0) go) v)
]
  where
    open_of : (c d : Bool) → (c || d) ≡ false → c ≡ false
    open_of c d h = ground arith

append-IsValid :
    (s : Session) (bytes : Bytes) → IsValid s → IsValid (record s { buffer = s.buffer ++ bytes })
append-IsValid s bytes v = ground (arith, length-append s.buffer bytes)

-- Whatever bytes a peer sends, a session that was valid is valid after them, if `write` takes no more
-- than it is given.
pub on_data-IsValid :
    (env : Env) (bytes : Bytes) (s : Session) (w : World)
    → WritesWithin env
    → IsValid s
    → Holds StateValid (on_data env bytes s w)
unfolding on_data process_buffer
on_data-IsValid env bytes s w b v =
    let s' : Session = record s { buffer = s.buffer ++ bytes } in
    let v' : IsValid s' = append-IsValid s bytes v in
    ground (arith, v', process_loop-IsValid env (suc (buf_size s')) s' w b v')
