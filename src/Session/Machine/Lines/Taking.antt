-- ===== src/Session/Machine/Lines/Taking.antt =====
-- The bytes of an uploaded file, read by read, on a disk that takes all that it is given.
use titan_share.Prelude.{
  subst, ℕ, ◌+◌, ◌-◌, ◌<◌, ◌≤◌, min, ltb, leb, ◌≡◌, sym, ap, ◌∙◌, true, false, if◌then◌else◌,
  Option, some, none, List, [], ◌∷◌, ◌++◌, append-nil, length, length-append, take, drop, take_all,
  drop_all, Bytes, codes, ◌⊎◌, inl, inr, arith,
}
use titan_share.Session.State.{
  Session, header, file_data, Event, sent, writes, Env, World, note, ran, Returns, Returns-bind,
  Returns-map,
}
use titan_share.Session.Buffer.{
  buf_size, buf_data, consume_buffer, compact_buffer, InRange, length-buf_data,
  buf_data-consume_buffer, consume_buffer_keeps, consume_buffer-InRange,
}
use titan_share.Session.Push.{publish_returns, publish_transfer_state}
use titan_share.Session.Upload.{
  write_some, check_completion, report_received, finish_file, drain_sentinel,
}
use titan_share.Session.Upload.Content.{received_file, received_file-writes}

-- `write` takes all bytes, directories can be made, and the JSON library dumps an empty text.
pub record IsRoomy (env : Env) : Type 0 where
  pub takes :
      (t : List Event) (fd : ℕ) (bytes : Bytes) → env.write_file t fd bytes ≡ some (length bytes)
  pub makes : (t : List Event) (dir : Bytes) → env.dirs_made t dir ≡ true
  pub dumps_none : env.dumps [] ≡ true

abbrev pub newest : List Event → Option Event
newest [] = none
newest (e ∷ t) = some e

-- An open connection in the DATA stage that has written `got` of `size` bytes to `fd`, with `queue`
-- to read.
pub record IsTaking (env : Env) (fd size : ℕ) (got queue : Bytes) (q : Session × World)
    : Type 0 where
  pub in_stage : q.0.stage ≡ file_data
  pub is_open : q.0.closed ≡ false
  pub printable : env.dumps q.0.file_name ≡ true
  pub file : q.0.file_fd ≡ some fd
  pub expected_is : q.0.expected_bytes ≡ size
  pub counted : q.0.received_bytes ≡ length got
  pub missing : length got < size
  pub in_range : InRange q.0
  pub read : buf_data q.0 ≡ queue
  pub written : received_file fd q.1.trace ≡ got

-- The file is on the disk, FILE_OK was the last thing sent, and nothing is left to read.
pub record IsUploaded (fd : ℕ) (content : Bytes) (q : Session × World) : Type 0 where
  pub in_stage : q.0.stage ≡ header
  pub is_open : q.0.closed ≡ false
  pub file : q.0.file_fd ≡ none
  pub read : buf_data q.0 ≡ []
  pub in_range : InRange q.0
  pub written : received_file fd q.1.trace ≡ content
  pub answered : newest q.1.trace ≡ some (sent (codes "FILE_OK\n"))

abbrev pub Progresses : Env → ℕ → Bytes → Bytes → Session × World → Type 0
Progresses env fd content got q =
    IsTaking env fd (length content) got [] q ⊎ (got ≡ content) × IsUploaded fd content q

-- What holds behind the write.
record HasWritten (env : Env) (fd size : ℕ) (got : Bytes) (q : Session × World) : Type 0 where
  in_stage : q.0.stage ≡ file_data
  is_open : q.0.closed ≡ false
  printable : env.dumps q.0.file_name ≡ true
  file : q.0.file_fd ≡ some fd
  expected_is : q.0.expected_bytes ≡ size
  counted : q.0.received_bytes ≡ length got
  in_range : InRange q.0
  read : buf_data q.0 ≡ []
  written : received_file fd q.1.trace ≡ got

consume_buffer-file_fd : (n : ℕ) (s : Session) → (consume_buffer n s).file_fd ≡ s.file_fd
unfolding consume_buffer
consume_buffer-file_fd n s = ground arith

consume_buffer-file_name : (n : ℕ) (s : Session) → (consume_buffer n s).file_name ≡ s.file_name
unfolding consume_buffer
consume_buffer-file_name n s = ground arith

module _ (env : Env) (roomy : IsRoomy env) (fd : ℕ) where
  report_received-HasWritten :
      (size : ℕ) (got : Bytes) (s : Session) (w : World)
      → HasWritten env fd size got (s, w)
      → Returns (HasWritten env fd size got) (report_received env s w)
  unfolding report_received publish_transfer_state publish_returns buf_data
  report_received-HasWritten size got s w h = ground (arith, roomy.makes w.trace env.ipc_dir)

  finish_file-IsUploaded :
      (content : Bytes) (s : Session) (w : World)
      → HasWritten env fd (length content) content (s, w)
      → Returns (IsUploaded fd content) (finish_file env fd s w)
  unfolding finish_file drain_sentinel publish_transfer_state publish_returns compact_buffer
      buf_data buf_size
  finish_file-IsUploaded content s w h =
      ground (arith, roomy.makes w.trace env.ipc_dir, length-buf_data s, ap length h.read)

  completion_test-Progresses :
      (content got rest : Bytes) (s : Session) (w : World)
      → got ++ rest ≡ content
      → HasWritten env fd (length content) got (s, w)
      → Returns
          (Progresses env fd content got)
          (if leb s.expected_bytes s.received_bytes then finish_file env fd s w else ran (s, w))
  completion_test-Progresses content got [] s w e h =
      let all : got ≡ content = sym (append-nil got) ∙ e in
      let full : leb s.expected_bytes s.received_bytes ≡ true =
        ground (arith, h.expected_is, h.counted, ap length all) in
      rw (full, Returns)
        (Returns-map (IsUploaded fd content) (Progresses env fd content got)
          (finish_file env fd s w) (λ q u. inr (all, u))
          (finish_file-IsUploaded content s w
            (subst (λ g. HasWritten env fd (length content) g (s, w)) all h)))
  completion_test-Progresses content got (x ∷ rest) s w e h =
      let more : length got < length content =
        omega (arith, ap length e, length-append got (x ∷ rest)) in
      let missing : leb s.expected_bytes s.received_bytes ≡ false =
        ground (arith, h.expected_is, h.counted) in
      rw (missing, Returns)
        (inl (record {
          in_stage = h.in_stage;
          is_open = h.is_open;
          printable = h.printable;
          file = h.file;
          expected_is = h.expected_is;
          counted = h.counted;
          missing = more;
          in_range = h.in_range;
          read = h.read;
          written = h.written;
        }))

  check_completion-Progresses :
      (content got rest : Bytes) (s : Session) (w : World)
      → got ++ rest ≡ content
      → HasWritten env fd (length content) got (s, w)
      → Returns (Progresses env fd content got) (check_completion env fd s w)
  unfolding check_completion
  check_completion-Progresses content got rest s w e h =
      Returns-bind (HasWritten env fd (length content) got) (Progresses env fd content got)
        (report_received env s w) _ (report_received-HasWritten (length content) got s w h)
        λ q k. completion_test-Progresses content got rest q.0 q.1 e k

  wrote-HasWritten :
      (size m : ℕ) (got queue : Bytes) (s : Session) (w : World)
      → length queue ≤ m
      → IsTaking env fd size got queue (s, w)
      → HasWritten env fd size (got ++ queue) (
        consume_buffer
            (length queue)
            (record s { received_bytes = s.received_bytes + length queue }),
        note (writes fd (take (length queue) (take m (buf_data s)))) w,
      )
  unfolding buf_data buf_size
  wrote-HasWritten size m got queue s w within r =
      let n = length queue in
      let s' : Session = record s { received_bytes = s.received_bytes + n } in
      let keeps = consume_buffer_keeps n s' in
      let whole : take n (buf_data s) ≡ queue =
        ap (take n) r.read ∙ take_all n queue (omega arith) in
      record {
        in_stage = keeps.0 ∙ r.in_stage;
        is_open = keeps.1 ∙ r.is_open;
        printable = ap env.dumps (consume_buffer-file_name n s') ∙ r.printable;
        file = consume_buffer-file_fd n s' ∙ r.file;
        expected_is = keeps.2 ∙ r.expected_is;
        counted = keeps.3 ∙ omega (arith, r.counted, length-append got queue);
        in_range =
            consume_buffer-InRange n s' r.in_range
              (omega (arith, sym (length-buf_data s), ap length r.read));
        read = buf_data-consume_buffer n s' ∙ ap (drop n) r.read ∙ drop_all queue;
        written =
            received_file-writes fd m n (buf_data s) w within
            ∙ ap (λ f. f ++ take n (buf_data s)) r.written
            ∙ ap (◌++◌ got) whole;
      }

  pub write_some-Progresses :
      (content got queue rest : Bytes) (s : Session) (w : World)
      → 0 < length queue
      → (got ++ queue) ++ rest ≡ content
      → IsTaking env fd (length content) got queue (s, w)
      → Returns (Progresses env fd content (got ++ queue)) (write_some env fd s w)
  unfolding write_some
  write_some-Progresses content got queue rest s w nonempty e r =
      let to_write = min (buf_size s) (s.expected_bytes - s.received_bytes) in
      let n = length queue in
      let sizes : length got + n ≤ length content =
        omega (arith, ap length e, length-append (got ++ queue) rest, length-append got queue) in
      let all_fits : to_write ≡ n =
        omega (arith, sym (length-buf_data s), ap length r.read, r.expected_is, r.counted) in
      let whole : take to_write (buf_data s) ≡ queue =
        ap (λ k. take k (buf_data s)) all_fits
        ∙ ap (take n) r.read
        ∙ take_all n queue (omega arith) in
      let some_bytes : ltb 0 to_write ≡ true = ground arith in
      rw (some_bytes, whole, roomy.takes w.trace fd queue, Returns)
        (check_completion-Progresses content (got ++ queue) rest _ _ e
          (wrote-HasWritten (length content) to_write got queue s w (omega arith) r))
