-- ===== src/Session/Push.antt =====
-- `pushFileList` and `pushFile`: a file of the drop folder is streamed to the phone in chunks.
use titan_share.Config.{send_to_android_dir}
use titan_share.Prelude.{
  ℕ, zero, suc, ◌+◌, ◌-◌, ◌/◌, min, ltb, leb, ◌==◌, ◌≡◌, refl, Bool, true, false, not, ◌&&◌, ◌||◌,
  if◌then◌else◌, none, some, [], ◌∷◌, ◌++◌, length, take, drop, Bytes, codes, contains, to_string,
  arith,
}
use titan_share.Session.State.{
  sent, makes_dirs, lists_files, pushes, streams, waits, publishes, took, again, fails, Env, World,
  note, Exec, ran, threw, starved, ◌>>=◌,
}

-- `create_directories` is called first, and raises if it fails; the object is dumped where the file
-- opens.
unfoldable pub publish_returns : Env → Bytes → World → Bool
publish_returns env name w =
    env.dirs_made w.trace env.ipc_dir && (not (env.progress_opens w.trace) || env.dumps name)

unfoldable pub publish_transfer_state : Env → Bool → Bool → Bytes → ℕ → ℕ → World → Exec World
publish_transfer_state env active sending name part whole w =
    if publish_returns env name w
    then ran (note (publishes active sending name part whole) w)
    else threw

unfoldable pub push_file_list : Env → World → Exec World
push_file_list env w =
    let w' = note (makes_dirs (send_to_android_dir env.data_dir)) (note lists_files w) in
    elim (env.folder w'.trace) [
      | none ↦ threw
      | some files ↦ elim (env.dump_files files) [
        | none ↦ threw
        | some json ↦ ran (note (sent (json ++ b'\n' ∷ [])) w')
      ]
    ]

-- `safe.substr(find_last_of("/\\") + 1)`, or all of it where neither occurs.
unfoldable pub base_name : Bytes → Bytes
base_name [] = []
base_name (c ∷ cs) =
    let rest = base_name cs in
    if contains cs b'/' || contains cs b'\\'
    then rest
    else if c == b'/' || c == b'\\'
    then cs
    else c ∷ cs

abbrev pub chunk_size : ℕ
chunk_size = 131072

-- The inner loop: `true` if the chunk went out, `false` after an error. `EAGAIN` waits and tries
-- again, so the rounds are not bounded by the chunk.
unfoldable pub write_all : Env → ℕ → Bytes → World → Exec (Bool × World)
write_all env fuel [] w = ran (true, w)
write_all env zero (c ∷ cs) w = starved
write_all env (suc fuel) (c ∷ cs) w = elim (env.write_socket w.trace (c ∷ cs)) [
  | took n ↦ write_all env fuel (drop n (c ∷ cs)) (note (streams (take n (c ∷ cs))) w)
  | again ↦ write_all env fuel (c ∷ cs) (note waits w)
  | fails ↦ ran (false, w)
]

-- The progress file is written at most every 100 ms, and at the end.
unfoldable pub report_push : Env → Bytes → ℕ → ℕ → ℕ → World → Exec (ℕ × World)
unfolding publish_transfer_state
report_push env safe done size last w =
    let now = env.now w.trace in
    if ltb 100 ((now - last) / 1000000) || done == size
    then (do w' ← publish_transfer_state env true true safe done size w; ran (now, w'))
    else ran (last, w)

-- What follows the write of a chunk: an error ends the push.
unfoldable pub push_loop : Env → ℕ → ℕ → Bytes → Bytes → ℕ → ℕ → ℕ → World → Exec World
unfolding write_all report_push publish_transfer_state
push_loop env patience zero safe rest size done last w = starved
push_loop env patience (suc fuel) safe rest size done last w =
    let chunk = take (min chunk_size (size - done)) rest in
    if leb size done || length chunk == 0
    then publish_transfer_state env false true [] 1 1 w
    else write_all env patience chunk w >>= λ (ok, w').
        if ok
        then (report_push env safe (done + length chunk) size last w' >>= λ (last', w'').
            push_loop env patience fuel safe (drop (length chunk) rest) size (done + length chunk)
              last' w'')
        else publish_transfer_state env false true [] 0 1 w'

-- The stream of the file, which starts at its first byte.
unfoldable pub stream_file : Env → Bytes → ℕ → Bytes → World → Exec World
unfolding push_loop
stream_file env safe size bytes w =
    let greeting = codes "FILE_PUSH:" ++ (safe ++ b':' ∷ (to_string size ++ b'\n' ∷ [])) in
    let w' = note (sent greeting) w in
    push_loop env env.patience (suc size) safe bytes size 0 (env.now w'.trace) w'

-- What follows the size of the file.
unfoldable pub send_found : Env → Bytes → ℕ → Bytes → World → Exec World
unfolding stream_file
send_found env safe size path w =
    if size == 0
    then ran (note (sent (codes "PUSH_ERROR:empty_file\n")) w)
    else elim (env.content w.trace path) [
      | none ↦ ran (note (sent (codes "PUSH_ERROR:cannot_open\n")) w)
      | some bytes ↦ stream_file env safe size bytes w
    ]

unfoldable pub push_file : Env → Bytes → World → Exec World
unfolding send_found base_name
push_file env filename w =
    let w' = note (pushes filename) w in
    let safe = base_name filename in
    let path = send_to_android_dir env.data_dir ++ b'/' ∷ safe in
    elim (env.is_file w'.trace path) [
      | none ↦ threw
      | some false ↦ ran (note (sent (codes "PUSH_ERROR:file_not_found\n")) w')
      | some true ↦ elim (env.file_size w'.trace path) [
        | none ↦ threw
        | some size ↦ send_found env safe size path w'
      ]
    ]

-- A name that reaches the file system has no separator left: the path stays in the drop folder.
pub base_name-no_separator :
    (s : Bytes) → (contains (base_name s) b'/' ≡ false) × (contains (base_name s) b'\\' ≡ false)
unfolding base_name contains
base_name-no_separator [] = (refl, refl)
base_name-no_separator (c ∷ cs) = ground (arith, base_name-no_separator cs)
