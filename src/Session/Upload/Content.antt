-- ===== src/Session/Upload/Content.antt =====
-- What the received file holds, against the stream that the peer sends.
use titan_share.Prelude.{
  ℕ, ◌+◌, ◌-◌, ◌≤◌, min, ltb, leb, ◌==◌, ◌≡◌, refl, sym, ap, ◌∙◌, if◌then◌else◌, some, List, [],
  ◌∷◌, ◌++◌, append_assoc, length, length-append, take, drop, take-append-drop, take-append_exact,
  take-take, length-take, leb→le, ==_iff, Bytes, codes, arith, Bool-cases, Option-cases, inl, inr,
  ◌⊎◌,
}
use titan_share.Session.State.{
  Session, header, file_data, Event, sent, writes, Env, World, ran, Holds, Holds-bind, note,
}
use titan_share.Session.Buffer.{
  buf_size, buf_data, length-buf_data, consume_buffer, compact_buffer, buf_data-consume_buffer,
  consume_buffer_keeps,
}
use titan_share.Session.Push.{publish_returns, publish_transfer_state}
use titan_share.Session.Invariant.{WritesWithin}
use titan_share.Session.Upload.{
  handle_file_data, write_some, abandon_file, check_completion, report_received, finish_file,
}

-- The bytes that went to a descriptor, oldest first.
abbrev pub received_file : ℕ → List Event → Bytes
received_file fd [] = []
received_file fd (writes g bytes ∷ t) =
    if g == fd then received_file fd t ++ bytes else received_file fd t
received_file fd (_ ∷ t) = received_file fd t

-- The state between two rounds of the DATA stage, for a file on `fd` of `size` bytes whose stream,
-- as far as it has come in, is `stream`.
pub record IsReceiving (fd size : ℕ) (stream : Bytes) (q : Session × World) : Type 0 where
  pub in_stage : q.0.stage ≡ file_data
  pub expected_is : q.0.expected_bytes ≡ size
  pub counted : length (received_file fd q.1.trace) ≡ q.0.received_bytes
  pub within : q.0.received_bytes ≤ size
  pub conserved : received_file fd q.1.trace ++ buf_data q.0 ≡ stream

-- The last thing sent is FILE_OK, and the file holds the first `size` bytes of the stream; or it is
-- CMD_FAIL.
abbrev pub IsAnswered : ℕ → ℕ → Bytes → List Event → Type 0
IsAnswered fd size stream (sent m ∷ t) =
    (m ≡ codes "CMD_FAIL\n")
    ⊎ ((m ≡ codes "FILE_OK\n")
        × (received_file fd t ≡ take size stream)
        × (length (received_file fd t) ≡ size))
IsAnswered fd size stream _ = ⊥

-- After a round the file is still coming in, or the stage is HEADER again and the peer has its
-- answer.
abbrev pub Continues : ℕ → ℕ → Bytes → Session × World → Type 0
Continues fd size stream q =
    IsReceiving fd size stream q ⊎ (q.0.stage ≡ header) × IsAnswered fd size stream q.1.trace

compact_buffer-stage : (s : Session) → (compact_buffer s).stage ≡ s.stage
unfolding compact_buffer
compact_buffer-stage s = ground arith

received_all :
    (fd size : ℕ) (stream : Bytes) (s : Session) (w : World)
    → IsReceiving fd size stream (s, w)
    → size ≤ s.received_bytes
    → received_file fd w.trace ≡ take size stream
received_all fd size stream s w r full =
    sym (
      take-append_exact size (received_file fd w.trace) (buf_data s)
        (omega (arith, r.counted, r.within)))
    ∙ ap (take size) r.conserved

finish_file-Continues :
    (env : Env) (fd size : ℕ) (stream : Bytes) (s : Session) (w : World)
    → IsReceiving fd size stream (s, w)
    → size ≤ s.received_bytes
    → Holds (Continues fd size stream) (finish_file env fd s w)
unfolding finish_file publish_transfer_state
finish_file-Continues env fd size stream s w r full = elim (Bool-cases (publish_returns env [] w)) [
  | inl made ↦
      rw (made, Holds)
        (inr (
          compact_buffer-stage _,
          inr (refl, received_all fd size stream s w r full, omega (arith, r.counted, r.within)),
        ))
  | inr failed ↦ rw (failed, Holds) tt
]

report_received-IsReceiving :
    (env : Env) (fd size : ℕ) (stream : Bytes) (s : Session) (w : World)
    → IsReceiving fd size stream (s, w)
    → Holds (IsReceiving fd size stream) (report_received env s w)
unfolding report_received publish_transfer_state buf_data
report_received-IsReceiving env fd size stream s w r = ground arith

completion_test-Continues :
    (env : Env) (fd size : ℕ) (stream : Bytes) (s : Session) (w : World)
    → IsReceiving fd size stream (s, w)
    → Holds
        (Continues fd size stream)
        (if leb s.expected_bytes s.received_bytes then finish_file env fd s w else ran (s, w))
completion_test-Continues env fd size stream s w r =
    elim (Bool-cases (leb s.expected_bytes s.received_bytes)) [
      | inl full ↦
          rw (full, Holds)
            (finish_file-Continues env fd size stream s w r
              (omega (arith, leb→le s.expected_bytes s.received_bytes full, r.expected_is)))
      | inr missing ↦ rw (missing, Holds) (inl r)
    ]

check_completion-Continues :
    (env : Env) (fd size : ℕ) (stream : Bytes) (s : Session) (w : World)
    → IsReceiving fd size stream (s, w)
    → Holds (Continues fd size stream) (check_completion env fd s w)
unfolding check_completion
check_completion-Continues env fd size stream s w r =
    Holds-bind (IsReceiving fd size stream) (Continues fd size stream) (report_received env s w) _
      (report_received-IsReceiving env fd size stream s w r)
      λ q h. completion_test-Continues env fd size stream q.0 q.1 h

pub received_file-writes :
    (fd m n : ℕ) (queue : Bytes) (w : World)
    → n ≤ m
    → received_file fd (note (writes fd (take n (take m queue))) w).trace
      ≡ received_file fd w.trace ++ take n queue
received_file-writes fd m n queue w h = rw ((==_iff fd fd).1 refl, take-take m n queue h)

abandon_file-Continues :
    (fd size : ℕ) (stream : Bytes) (s : Session) (w : World)
    → Continues fd size stream (abandon_file fd s w)
unfolding abandon_file
abandon_file-Continues fd size stream s w = inr (refl, inl refl)

-- The write of `n` bytes moves them from the head of the queue to the end of the file.
write-IsReceiving :
    (fd size m n : ℕ) (stream : Bytes) (s : Session) (w : World)
    → n ≤ m
    → m ≤ buf_size s
    → s.received_bytes + n ≤ size
    → IsReceiving fd size stream (s, w)
    → IsReceiving fd size stream (
      consume_buffer n (record s { received_bytes = s.received_bytes + n }),
      note (writes fd (take n (take m (buf_data s)))) w,
    )
unfolding buf_data
write-IsReceiving fd size m n stream s w h k fits r =
    let s' : Session = record s { received_bytes = s.received_bytes + n } in
    let keeps = consume_buffer_keeps n s' in
    let file = received_file-writes fd m n (buf_data s) w h in
    record {
      in_stage = keeps.0 ∙ r.in_stage;
      expected_is = keeps.2 ∙ r.expected_is;
      counted = omega (
        arith,
        ap length file,
        length-append (received_file fd w.trace) (take n (buf_data s)),
        length-take n (buf_data s),
        length-buf_data s,
        keeps.3,
        r.counted,
      );
      within = omega (arith, keeps.3);
      conserved =
          rw (file, buf_data-consume_buffer n s')
            (append_assoc (received_file fd w.trace) (take n (buf_data s)) (drop n (buf_data s))
              ∙ ap (◌++◌ (received_file fd w.trace)) (take-append-drop n (buf_data s))
              ∙ r.conserved);
    }

write_some-Continues :
    (env : Env) (fd size : ℕ) (stream : Bytes) (s : Session) (w : World)
    → WritesWithin env
    → IsReceiving fd size stream (s, w)
    → Holds (Continues fd size stream) (write_some env fd s w)
unfolding write_some
write_some-Continues env fd size stream s w bounded r =
    let to_write = min (buf_size s) (s.expected_bytes - s.received_bytes) in
    let piece = take to_write (buf_data s) in
    elim (Bool-cases (ltb 0 to_write)) [
      | inr nothing ↦ rw (nothing, Holds) (check_completion-Continues env fd size stream s w r)
      | inl some_bytes ↦ elim (Option-cases (env.write_file w.trace fd piece)) [
        | inl failed ↦ rw (some_bytes, failed, Holds) (abandon_file-Continues fd size stream s w)
        | inr (n, took) ↦
            let fits = bounded w.trace fd piece n took in
            let counts = length-take to_write (buf_data s) in
            rw (some_bytes, took, Holds)
              (check_completion-Continues env fd size stream _ _ (
                write-IsReceiving fd size to_write n stream s w (omega arith) (omega arith)
                  (omega (arith, r.expected_is, r.within)) r))
      ]
    ]

pub handle_file_data_open :
    (env : Env) (fd : ℕ) (s : Session) (w : World)
    → s.file_fd ≡ some fd
    → handle_file_data env s w ≡ (if buf_size s == 0 then ran (s, w) else write_some env fd s w)
unfolding handle_file_data
handle_file_data_open env fd s w opened = ground arith

-- One call of the handler, if `write` takes no more than it is given. Either the DATA stage goes on,
-- and the file and what is still buffered make up the stream; or the stage is HEADER, and the last
-- thing sent is CMD_FAIL, or FILE_OK and the file is the first `size` bytes of the stream.
pub handle_file_data-Continues :
    (env : Env) (fd size : ℕ) (stream : Bytes) (s : Session) (w : World)
    → WritesWithin env
    → s.file_fd ≡ some fd
    → IsReceiving fd size stream (s, w)
    → Holds (Continues fd size stream) (handle_file_data env s w)
handle_file_data-Continues env fd size stream s w bounded opened r =
    rw (handle_file_data_open env fd s w opened) (elim (Bool-cases (buf_size s == 0)) [
      | inl empty ↦ rw (empty, Holds) (inl r)
      | inr bytes ↦ rw (bytes, Holds) (write_some-Continues env fd size stream s w bounded r)
    ])
