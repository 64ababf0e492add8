-- ===== src/Session/Admission.antt =====
-- AUTH_OK stays in the trace of a session: what the handlers for a paired peer do to it.
use titan_share.Prelude.{
  ℕ, zero, suc, ◌+◌, ◌-◌, min, leb, ◌==◌, ◌≡◌, Bool, true, false, ◌||◌, if◌then◌else◌, List, [],
  ◌∷◌, length, take, drop, Bytes, codes, eqb, substr_from, ◌++◌, arith, Bool-cases, Option-cases,
  inl, inr,
}
use titan_share.Config.{send_to_android_dir}
use titan_share.Session.State.{
  Session, Event, sent, streams, waits, pushes, Env, World, note, Exec, Holds, Holds-bind, ran,
  ◌>>=◌,
}
use titan_share.Session.Buffer.{consume_buffer, compact_buffer}
use titan_share.Session.Push.{
  publish_transfer_state, push_file_list, base_name, chunk_size, write_all, report_push, push_loop,
  stream_file, send_found, push_file,
}
use titan_share.Session.Header.{
  run_command, handle_command, refuse_file, open_received, accept_size, file_start, handle_header,
  command_text,
}
use titan_share.Session.Upload.{
  handle_file_data, write_some, abandon_file, check_completion, report_received, finish_file,
  drain_sentinel,
}
use titan_share.Session.Delivery.{Taken-cases}

-- Whether AUTH_OK was sent.
abbrev pub admitted : List Event → Bool
admitted [] = false
admitted (sent b ∷ t) = eqb b (codes "AUTH_OK\n") || admitted t
admitted (_ ∷ t) = admitted t

abbrev pub IsAdmitted : World → Type 0
IsAdmitted w = admitted w.trace ≡ true

write_all-IsAdmitted :
    (env : Env) (fuel : ℕ) (bytes : Bytes) (w : World)
    → IsAdmitted w
    → Holds (λ r. IsAdmitted r.1) (write_all env fuel bytes w)
unfolding write_all
write_all-IsAdmitted env fuel [] w h = h
write_all-IsAdmitted env zero (c ∷ cs) w h = tt
write_all-IsAdmitted env (suc fuel) (c ∷ cs) w h =
    elim (Taken-cases (env.write_socket w.trace (c ∷ cs))) [
      | inl e ↦ rw (e, Holds) h
      | inr (inl e) ↦ rw (e, Holds) (write_all-IsAdmitted env fuel (c ∷ cs) (note waits w) h)
      | inr (inr (n, e)) ↦
          rw (e, Holds)
            (write_all-IsAdmitted env fuel (drop n (c ∷ cs)) (note (streams (take n (c ∷ cs))) w) h)
    ]

publish-IsAdmitted :
    (env : Env) (active sending : Bool) (name : Bytes) (part whole : ℕ) (w : World)
    → IsAdmitted w
    → Holds IsAdmitted (publish_transfer_state env active sending name part whole w)
unfolding publish_transfer_state
publish-IsAdmitted env active sending name part whole w h = ground arith

report_push-IsAdmitted :
    (env : Env) (safe : Bytes) (done size last : ℕ) (w : World)
    → IsAdmitted w
    → Holds (λ r. IsAdmitted r.1) (report_push env safe done size last w)
unfolding report_push publish_transfer_state
report_push-IsAdmitted env safe done size last w h = ground arith

-- The round after a chunk.
after_chunk-IsAdmitted :
    (env : Env) (next : ℕ → World → Exec World) (safe : Bytes) (done size last : ℕ)
    → (r : Bool × World) → IsAdmitted r.1
    → ((last' : ℕ) (w : World) → IsAdmitted w → Holds IsAdmitted (next last' w))
    → Holds IsAdmitted (
        if r.0
        then (report_push env safe done size last r.1 >>= λ (last', w). next last' w)
        else publish_transfer_state env false true [] 0 1 r.1)
after_chunk-IsAdmitted env next safe done size last (true, w) h k =
    Holds-bind (λ x. IsAdmitted x.1) IsAdmitted (report_push env safe done size last w) _
      (report_push-IsAdmitted env safe done size last w h) λ x h'. k x.0 x.1 h'
after_chunk-IsAdmitted env next safe done size last (false, w) h k =
    publish-IsAdmitted env false true [] 0 1 w h

push_loop-IsAdmitted :
    (env : Env) (patience fuel : ℕ) (safe rest : Bytes) (size done last : ℕ) (w : World)
    → IsAdmitted w
    → Holds IsAdmitted (push_loop env patience fuel safe rest size done last w)
unfolding push_loop
push_loop-IsAdmitted env patience zero safe rest size done last w h = tt
push_loop-IsAdmitted env patience (suc fuel) safe rest size done last w h =
    let chunk : Bytes = take (min chunk_size (size - done)) rest in
    elim (Bool-cases (leb size done || length chunk == 0)) [
      | inl stop ↦ rw (stop, Holds) (publish-IsAdmitted env false true [] 1 1 w h)
      | inr go ↦
          rw (go, Holds)
            (Holds-bind (λ r. IsAdmitted r.1) IsAdmitted (write_all env patience chunk w) _
              (write_all-IsAdmitted env patience chunk w h)
              λ r h'.
                after_chunk-IsAdmitted env _ safe (done + length chunk) size last r h'
                  λ last' w' h''.
                    push_loop-IsAdmitted env patience fuel safe (drop (length chunk) rest) size
                      (done + length chunk) last' w' h'')
    ]

sent-IsAdmitted : (b : Bytes) (w : World) → IsAdmitted w → IsAdmitted (note (sent b) w)
sent-IsAdmitted b w h = ground arith

stream_file-IsAdmitted :
    (env : Env) (safe : Bytes) (size : ℕ) (bytes : Bytes) (w : World)
    → IsAdmitted w
    → Holds IsAdmitted (stream_file env safe size bytes w)
unfolding stream_file
stream_file-IsAdmitted env safe size bytes w h =
    push_loop-IsAdmitted env env.patience (suc size) safe bytes size 0 _ _ (sent-IsAdmitted _ w h)

send_found-IsAdmitted :
    (env : Env) (safe : Bytes) (size : ℕ) (path : Bytes) (w : World)
    → IsAdmitted w
    → Holds IsAdmitted (send_found env safe size path w)
unfolding send_found
send_found-IsAdmitted env safe size path w h = elim (Option-cases (env.content w.trace path)) [
  | inl e ↦ ground arith
  | inr (bytes, e) ↦ ground (arith, stream_file-IsAdmitted env safe size bytes w h)
]

push_file-IsAdmitted :
    (env : Env) (filename : Bytes) (w : World)
    → IsAdmitted w
    → Holds IsAdmitted (push_file env filename w)
unfolding push_file
push_file-IsAdmitted env filename w h =
    let w' = note (pushes filename) w in
    let path = send_to_android_dir env.data_dir ++ b'/' ∷ base_name filename in
    elim (Option-cases (env.file_size w'.trace path)) [
      | inl e ↦ ground arith
      | inr (size, e) ↦
          ground (arith, send_found-IsAdmitted env (base_name filename) size path w' h)
    ]

handle_command-IsAdmitted :
    (env : Env) (cmd : Bytes) (w : World)
    → IsAdmitted w
    → Holds IsAdmitted (handle_command env cmd w)
unfolding handle_command run_command push_file_list
handle_command-IsAdmitted env cmd w h =
    ground (arith, push_file-IsAdmitted env (substr_from cmd 10) w h)

abbrev pub BothAdmitted : Session × World → Type 0
BothAdmitted q = IsAdmitted q.1

file_start-IsAdmitted :
    (env : Env) (line : Bytes) (s : Session) (w : World)
    → IsAdmitted w
    → Holds BothAdmitted (file_start env line s w)
unfolding file_start accept_size open_received refuse_file
file_start-IsAdmitted env line s w h = ground arith

pub handle_header-IsAdmitted :
    (env : Env) (line : Bytes) (s : Session) (w : World)
    → IsAdmitted w
    → Holds BothAdmitted (handle_header env line s w)
unfolding handle_header
handle_header-IsAdmitted env line s w h =
    let by_command : Holds BothAdmitted
        (handle_command env (command_text line) w >>= λ w'. ran (s, w')) =
      Holds-bind IsAdmitted BothAdmitted (handle_command env (command_text line) w) _
        (handle_command-IsAdmitted env (command_text line) w h) (λ w' h'. h') in
    ground (
      arith,
      by_command,
      file_start-IsAdmitted env line s w h,
      sent-IsAdmitted (codes "UNKNOWN_REQUEST\n") w h,
    )

pub handle_file_data-IsAdmitted :
    (env : Env) (s : Session) (w : World)
    → IsAdmitted w
    → Holds BothAdmitted (handle_file_data env s w)
unfolding handle_file_data write_some abandon_file check_completion report_received finish_file
    drain_sentinel consume_buffer compact_buffer publish_transfer_state
handle_file_data-IsAdmitted env s w h = ground arith
