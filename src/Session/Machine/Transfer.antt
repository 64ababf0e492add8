-- ===== src/Session/Machine/Transfer.antt =====
-- A file that comes in over several reads: `onData` in the DATA stage.
use titan_share.Config.{received_files_dir}
use titan_share.Prelude.{
  ℕ, suc, ◌==◌, ◌≡◌, refl, sym, ap, ◌∙◌, true, false, ◌||◌, some, [], ◌∷◌, ◌++◌, append_assoc,
  length, drop-append_left, Bytes, arith, Bool-cases, inl, inr,
}
use titan_share.Session.State.{
  Session, Stage, auth, header, file_data, makes_dirs, Env, World, Exec, Holds,
}
use titan_share.Session.Buffer.{buf_size, buf_data, InRange}
use titan_share.Session.Invariant.{WritesWithin}
use titan_share.Session.Header.{open_received}
use titan_share.Session.Upload.{handle_file_data}
use titan_share.Session.Upload.Content.{
  IsReceiving, Continues, received_file, handle_file_data-Continues,
}
use titan_share.Session.Machine.{run_stage, process_loop, process_buffer, is_auth, on_data}

abbrev pub append_read : Bytes → Session → Session
append_read bytes s = record s { buffer = s.buffer ++ bytes }

pub buf_data-append_read :
    (bytes : Bytes) (s : Session) → InRange s → buf_data (append_read bytes s) ≡ buf_data s ++ bytes
unfolding buf_data
buf_data-append_read bytes s h = drop-append_left s.buffer_offset s.buffer bytes h

-- A read makes the stream longer.
append_read-IsReceiving :
    (fd size : ℕ) (stream bytes : Bytes) (s : Session) (w : World)
    → InRange s
    → IsReceiving fd size stream (s, w)
    → IsReceiving fd size (stream ++ bytes) (append_read bytes s, w)
append_read-IsReceiving fd size stream bytes s w h r = record {
  in_stage = r.in_stage;
  expected_is = r.expected_is;
  counted = r.counted;
  within = r.within;
  conserved =
      ap (◌++◌ (received_file fd w.trace)) (buf_data-append_read bytes s h)
      ∙ sym (append_assoc (received_file fd w.trace) (buf_data s) bytes)
      ∙ ap (λ b. b ++ bytes) r.conserved;
}

pub run_stage_data :
    (env : Env) (next : Session → World → Exec (Session × World)) (st : Stage) (s : Session)
    (w : World)
    → st ≡ file_data
    → run_stage env next st s w ≡ handle_file_data env s w
unfolding run_stage
run_stage_data env next auth s w e = cc
run_stage_data env next header s w e = cc
run_stage_data env next file_data s w e = refl

process_loop-Continues :
    (env : Env) (fuel fd size : ℕ) (stream : Bytes) (s : Session) (w : World)
    → WritesWithin env
    → s.file_fd ≡ some fd
    → IsReceiving fd size stream (s, w)
    → Holds (Continues fd size stream) (process_loop env (suc fuel) s w)
unfolding process_loop
process_loop-Continues env fuel fd size stream s w b opened r =
    elim (Bool-cases (s.closed || buf_size s == 0)) [
      | inl stop ↦ rw (stop, Holds) (inl r)
      | inr go ↦
          rw (go, run_stage_data env (process_loop env fuel) s.stage s w r.in_stage, Holds)
            (handle_file_data-Continues env fd size stream s w b opened r)
    ]

pub not_auth : (st : Stage) → st ≡ file_data → is_auth st ≡ false
unfolding is_auth
not_auth auth e = cc
not_auth header e = refl
not_auth file_data e = refl

pub on_data_past_auth :
    (env : Env) (bytes : Bytes) (s : Session) (w : World)
    → s.closed ≡ false
    → is_auth s.stage ≡ false
    → on_data env bytes s w
      ≡ process_loop env (suc (buf_size (append_read bytes s))) (append_read bytes s) w
unfolding on_data process_buffer
on_data_past_auth env bytes s w h k = ground arith

-- One read in the DATA stage of a connection that is open, if `write` takes no more than it is
-- given and the read head is within the buffer. Either the DATA stage goes on, and the file and what
-- is buffered make up the stream with the bytes just read; or the stage is HEADER, and the last
-- thing sent is CMD_FAIL, or FILE_OK and the file is the first `size` bytes of that stream.
pub on_data-Continues :
    (env : Env) (fd size : ℕ) (stream bytes : Bytes) (s : Session) (w : World)
    → WritesWithin env
    → InRange s
    → s.closed ≡ false
    → s.file_fd ≡ some fd
    → IsReceiving fd size stream (s, w)
    → Holds (Continues fd size (stream ++ bytes)) (on_data env bytes s w)
on_data-Continues env fd size stream bytes s w b h not_closed opened r =
    rw (on_data_past_auth env bytes s w not_closed (not_auth s.stage r.in_stage)) (
      process_loop-Continues env (buf_size (append_read bytes s)) fd size (stream ++ bytes)
        (append_read bytes s) w b opened (append_read-IsReceiving fd size stream bytes s w h r))

-- A file that is created on a descriptor to which nothing was written yet begins a transfer, whose
-- stream so far is what is buffered behind the header.
pub open_received-IsReceiving :
    (env : Env) (fd : ℕ) (s : Session) (w : World)
    → env.dirs_made w.trace (received_files_dir env.data_dir) ≡ true
    → env.open_file
        (makes_dirs (received_files_dir env.data_dir) ∷ w.trace)
        (received_files_dir env.data_dir ++ b'/' ∷ s.file_name)
      ≡ some fd
    → received_file fd w.trace ≡ []
    → Holds (IsReceiving fd s.expected_bytes (buf_data s)) (open_received env s w)
unfolding open_received buf_data
open_received-IsReceiving env fd s w made opened fresh =
    rw (made, opened, Holds)
      (record {
        in_stage = refl;
        expected_is = refl;
        counted = ap length fresh;
        within = omega arith;
        conserved = ap (λ f. f ++ buf_data s) fresh;
      })
