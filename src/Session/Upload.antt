-- ===== src/Session/Upload.antt =====
-- `handleFileData`: bytes of the stream go to the open file, until the declared size is reached. On a
-- session that is valid (`Session.Invariant`) the subtraction of the source does not wrap.
pub mod Valid
pub mod Content
use titan_share.Prelude.{
  ℕ, suc, ◌+◌, ◌-◌, ◌*◌, ◌/◌, ◌≤◌, ◌<◌, min, ltb, leb, ◌==◌, ◌≡◌, refl, Bool, true, false, not,
  ◌&&◌, ◌||◌, if◌then◌else◌, Option, none, some, List, [], ◌∷◌, ◌++◌, length, take, drop, Bytes,
  codes, eqb, arith,
}
use titan_share.Session.State.{
  Session, Stage, auth, header, file_data, Event, sent, closes, writes, Env, World, note, Exec, ran,
  threw, starved, ◌>>=◌,
}
use titan_share.Session.Buffer.{buf_size, buf_data, consume_buffer, compact_buffer}
use titan_share.Session.Push.{publish_transfer_state}

-- The old client's sentinel, which stands behind the bytes of the file.
unfoldable pub drain_sentinel : Session → Session
drain_sentinel s =
    if leb 9 (buf_size s) && eqb (take 9 (buf_data s)) (codes "FILE_END\n")
    then consume_buffer 9 s
    else s

-- The branch `m_receivedBytes >= m_expectedBytes`.
unfoldable pub finish_file : Env → ℕ → Session → World → Exec (Session × World)
finish_file env fd s w = do
  w' ← publish_transfer_state env false false [] 1 1 w
  let s' = drain_sentinel (record s { file_fd = none })
  ran (
    compact_buffer (record s' { received_bytes = 0; stage = header }),
    note (sent (codes "FILE_OK\n")) (note (closes fd) w'),
  )

-- The progress file is written at most every 100 ms, and at the end.
unfoldable pub report_received : Env → Session → World → Exec (Session × World)
report_received env s w =
    let now = env.now w.trace in
    if ltb 100 ((now - s.last_progress_update) / 1000000) || s.received_bytes == s.expected_bytes
    then (publish_transfer_state env true false s.file_name s.received_bytes s.expected_bytes w
        >>= λ w'. ran (record s { last_progress_update = now }, w'))
    else ran (s, w)

-- What follows the write.
unfoldable pub check_completion : Env → ℕ → Session → World → Exec (Session × World)
check_completion env fd s w = report_received env s w >>= λ (s', w').
    if leb s'.expected_bytes s'.received_bytes then finish_file env fd s' w' else ran (s', w')

-- A failed write gives the file up and drops all that is buffered.
unfoldable pub abandon_file : ℕ → Session → World → Session × World
abandon_file fd s w = (
  record s { file_fd = none; stage = header; buffer = []; buffer_offset = 0 },
  note (sent (codes "CMD_FAIL\n")) (note (closes fd) w),
)

unfoldable pub write_some : Env → ℕ → Session → World → Exec (Session × World)
write_some env fd s w =
    let to_write = min (buf_size s) (s.expected_bytes - s.received_bytes) in
    let piece = take to_write (buf_data s) in
    if ltb 0 to_write
    then elim (env.write_file w.trace fd piece) [
      | none ↦ ran (abandon_file fd s w)
      | some n ↦
          check_completion env fd
            (consume_buffer n (record s { received_bytes = s.received_bytes + n }))
            (note (writes fd (take n piece)) w)
    ]
    else check_completion env fd s w

unfoldable pub handle_file_data : Env → Session → World → Exec (Session × World)
handle_file_data env s w = elim s.file_fd [
  | none ↦ ran (s, w)
  | some fd ↦ if buf_size s == 0 then ran (s, w) else write_some env fd s w
]
