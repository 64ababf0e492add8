-- ===== src/Session/Header.antt =====
-- `handleHeader`: one line of the HEADER stage.
use titan_share.Config.{max_receive_file_bytes, received_files_dir}
use titan_share.Prelude.{
  ℕ, ◌+◌, ◌-◌, ltb, leb, ◌==◌, ◌&&◌, ◌||◌, if◌then◌else◌, none, some, [], ◌∷◌, ◌++◌, length, Bytes,
  codes, eqb, substr, substr_from, rfind, replace, trim_front, stoull,
}
use titan_share.Session.State.{
  Session, file_data, sent, makes_dirs, opens, dispatches, Env, World, note, Exec, ran, threw,
  ◌>>=◌,
}
use titan_share.Session.Push.{push_file_list, push_file}

-- A reply to `m_dispatcher->dispatch`; an empty one is not sent.
unfoldable pub run_command : Env → Bytes → World → Exec World
run_command env cmd w =
    let called = note (dispatches cmd) w in
    elim (env.dispatch w.trace cmd) [
      | none ↦ threw
      | some response ↦ ran (elim response [ [] ↦ called | c ∷ cs ↦ note (sent (c ∷ cs)) called ])
    ]

unfoldable pub handle_command : Env → Bytes → World → Exec World
handle_command env cmd w =
    if eqb cmd (codes "push_file_list")
    then push_file_list env w
    else if ltb 10 (length cmd) && eqb (substr cmd 0 10) (codes "push_file:")
    then push_file env (substr_from cmd 10) w
    else run_command env cmd w

unfoldable pub refuse_file : Session → World → Exec (Session × World)
refuse_file s w = ran (s, note (sent (codes "CMD_FAIL\n")) w)

-- The two `std::replace` calls.
unfoldable pub sanitize : Bytes → Bytes
sanitize name = replace (replace name b'/' b'_') b'\\' b'_'

-- The directory is made, and the file is opened for writing.
unfoldable pub open_received : Env → Session → World → Exec (Session × World)
open_received env s w =
    let dir = received_files_dir env.data_dir in
    let path = dir ++ b'/' ∷ s.file_name in
    let made = note (makes_dirs dir) w in
    if env.dirs_made w.trace dir
    then elim (env.open_file made.trace path) [
      | none ↦ refuse_file (record s { file_fd = none }) (note (opens path) made)
      | some fd ↦ ran (
        record s { file_fd = some fd; received_bytes = 0; stage = file_data },
        note (sent (codes "READY_FOR_FILE\n")) (note (opens path) made),
      )
    ]
    else threw

-- The declared size is stored, then tested.
unfoldable pub accept_size : Env → ℕ → Session → World → Exec (Session × World)
accept_size env size s w =
    let s' = record s { expected_bytes = size } in
    if size == 0 || ltb max_receive_file_bytes size
    then refuse_file s' w
    else open_received env s' w

unfoldable pub file_start : Env → Bytes → Session → World → Exec (Session × World)
file_start env line s w = elim (rfind line b':') [
  | none ↦ refuse_file s w
  | some last_colon ↦
      if leb last_colon 11
      then refuse_file s w
      else let s' = record s { file_name = sanitize (substr line 11 (last_colon - 11)) } in
        elim (stoull (substr_from line (last_colon + 1))) [
          | none ↦ refuse_file s' w
          | some size ↦ accept_size env size s' w
        ]
]

-- What follows "CMD:", without its leading blanks.
unfoldable pub command_text : Bytes → Bytes
command_text line = trim_front (λ c. c == b' ') (substr_from line 4)

unfoldable pub handle_header : Env → Bytes → Session → World → Exec (Session × World)
handle_header env line s w =
    if leb 4 (length line) && eqb (substr line 0 4) (codes "CMD:")
    then (handle_command env (command_text line) w >>= λ w'. ran (s, w'))
    else if leb 11 (length line) && eqb (substr line 0 11) (codes "FILE_START:")
    then file_start env line s w
    else ran (s, note (sent (codes "UNKNOWN_REQUEST\n")) w)
