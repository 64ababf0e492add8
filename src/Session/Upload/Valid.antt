-- ===== src/Session/Upload/Valid.antt =====
-- The invariant of the session, on `handleFileData`.
use titan_share.Prelude.{
  ℕ, ◌+◌, ◌-◌, ◌≤◌, ◌*◌, ◌^◌, min, ltb, leb, ◌≡◌, if◌then◌else◌, take, arith, length-take,
  Bool-cases, Option-cases, inl, inr,
}
use titan_share.Session.State.{Session, file_data, Env, World, ran, Holds, Holds-bind}
use titan_share.Session.Buffer.{buf_size, buf_data, consume_buffer, compact_buffer, InRange}
use titan_share.Session.Invariant.{IsValid, FileMatches, StateValid, WritesWithin, GuessesLeft}
use titan_share.Session.Upload.{
  handle_file_data, write_some, abandon_file, check_completion, report_received, finish_file,
  drain_sentinel,
}

-- What holds of the session between the write and the test for completion.
record IsWriting (s : Session) : Type 0 where
  in_range : InRange s
  stage_is : s.stage ≡ file_data
  file_matches : FileMatches s.stage s.file_fd
  within : s.received_bytes ≤ s.expected_bytes
  limited : s.expected_bytes ≤ 2 * 2 ^ 30
  guesses_left : GuessesLeft s.closed s.auth_attempts

finish_file-IsValid :
    (env : Env) (fd : ℕ) (s : Session) (w : World)
    → IsWriting s
    → Holds StateValid (finish_file env fd s w)
unfolding finish_file drain_sentinel compact_buffer consume_buffer buf_size
finish_file-IsValid env fd s w v = ground arith

report_received-IsWriting :
    (env : Env) (s : Session) (w : World)
    → IsWriting s
    → Holds (λ r. IsWriting r.0) (report_received env s w)
unfolding report_received
report_received-IsWriting env s w v = ground arith

completion_test-IsValid :
    (env : Env) (fd : ℕ) (s : Session) (w : World)
    → IsWriting s
    → Holds StateValid
        (if leb s.expected_bytes s.received_bytes then finish_file env fd s w else ran (s, w))
completion_test-IsValid env fd s w v = ground (arith, finish_file-IsValid env fd s w v)

check_completion-IsValid :
    (env : Env) (fd : ℕ) (s : Session) (w : World)
    → IsWriting s
    → Holds StateValid (check_completion env fd s w)
unfolding check_completion
check_completion-IsValid env fd s w v =
    Holds-bind (λ q. IsWriting q.0) StateValid (report_received env s w) _
      (report_received-IsWriting env s w v) λ q h. completion_test-IsValid env fd q.0 q.1 h

consume_buffer-IsWriting :
    (n : ℕ) (s : Session)
    → n ≤ buf_size s
    → n ≤ s.expected_bytes - s.received_bytes
    → IsWriting s
    → IsWriting (consume_buffer n (record s { received_bytes = s.received_bytes + n }))
unfolding consume_buffer buf_size
consume_buffer-IsWriting n s h k v = ground arith

abandon_file-IsValid :
    (fd : ℕ) (s : Session) (w : World) → IsWriting s → IsValid (abandon_file fd s w).0
unfolding abandon_file
abandon_file-IsValid fd s w v = ground arith

write_some-IsValid :
    (env : Env) (fd : ℕ) (s : Session) (w : World)
    → WritesWithin env
    → IsWriting s
    → Holds StateValid (write_some env fd s w)
unfolding write_some
write_some-IsValid env fd s w bounded v =
    let to_write = min (buf_size s) (s.expected_bytes - s.received_bytes) in
    let piece = take to_write (buf_data s) in
    elim (Bool-cases (ltb 0 to_write)) [
      | inr nothing ↦ rw nothing (check_completion-IsValid env fd s w v)
      | inl some_bytes ↦ elim (Option-cases (env.write_file w.trace fd piece)) [
        | inl failed ↦ rw (some_bytes, failed) (abandon_file-IsValid fd s w v)
        | inr (n, took) ↦
            let fits = bounded w.trace fd piece n took in
            let size = length-take to_write (buf_data s) in
            rw (some_bytes, took)
              (check_completion-IsValid env fd _ _
                (consume_buffer-IsWriting n s (omega arith) (omega arith) v))
      ]
    ]

IsValid→IsWriting : (s : Session) → s.stage ≡ file_data → IsValid s → IsWriting s
IsValid→IsWriting s a v = ground arith

pub handle_file_data-IsValid :
    (env : Env) (s : Session) (w : World)
    → WritesWithin env
    → s.stage ≡ file_data
    → IsValid s
    → Holds StateValid (handle_file_data env s w)
unfolding handle_file_data
handle_file_data-IsValid env s w bounded a v = elim (Option-cases s.file_fd) [
  | inl closed ↦ ground arith
  | inr (fd, opened) ↦
      ground (arith, write_some-IsValid env fd s w bounded (IsValid→IsWriting s a v))
]
