-- ===== src/Session/Delivery/Total.antt =====
-- The end of `pushFile`, with no word on whether the size and the content of the file agree.
use titan_share.Prelude.{
  ℕ, zero, suc, ◌+◌, ◌-◌, ◌≤◌, ◌<◌, min, leb, ◌==◌, ◌≡◌, true, false, ◌||◌, [], ◌++◌, length,
  length-take, take, drop, Bytes, arith, Bool-cases, Option-cases, inl, inr,
}
use titan_share.Session.State.{pushes, Env, World, note, Ends, Ends-bind}
use titan_share.Session.Push.{
  publish_transfer_state, write_all, push_loop, stream_file, send_found, push_file, base_name,
  chunk_size,
}
use titan_share.Session.Delivery.{
  streamed, SocketProgress, Sent, chunk-Sent, after_chunk, pushed_path,
}

-- Whatever the size said: the loop ends since a round that goes on moves a byte at least.
publish_transfer_state-Ends :
    (env : Env) (part : ℕ) (w : World)
    → Ends (λ _. Unit {0}) (publish_transfer_state env false true [] part 1 w)
unfolding publish_transfer_state
publish_transfer_state-Ends env part w = ground arith

push_loop-Ends :
    (env : Env) (p : SocketProgress env) (fuel : ℕ) (safe rest : Bytes) (size done last : ℕ)
    (w : World)
    → size < done + fuel
    → done ≤ size
    → Ends (λ _. Unit {0}) (push_loop env env.patience fuel safe rest size done last w)
unfolding push_loop
push_loop-Ends env p zero safe rest size done last w h k = absurd (omega arith)
push_loop-Ends env p (suc fuel) safe rest size done last w h k =
    let n : ℕ = min chunk_size (size - done) in
    let chunk : Bytes = take n rest in
    let fits : length chunk ≡ min n (length rest) = length-take n rest in
    elim (Bool-cases (leb size done || length chunk == 0)) [
      | inl stop ↦ rw (stop, Ends) (publish_transfer_state-Ends env 1 w)
      | inr go ↦
          rw (go, Ends)
            (Ends-bind (Sent (streamed w.trace ++ chunk)) (λ _. Unit {0})
              (write_all env env.patience chunk w) _
              (chunk-Sent env p chunk w (omega (arith, fits)))
              λ r s.
                after_chunk env (λ _. Unit) _ safe (streamed w.trace ++ chunk) (done + length chunk)
                  size last r s
                  (λ last' w' e'.
                    push_loop-Ends env p fuel safe (drop (length chunk) rest) size
                      (done + length chunk) last' w' (ground (arith, fits)) (omega (arith, fits)))
                  λ missing w' s'. publish_transfer_state-Ends env 0 w')
    ]

stream_file-Ends :
    (env : Env) (p : SocketProgress env) (safe : Bytes) (size : ℕ) (bytes : Bytes) (w : World)
    → Ends (λ _. Unit {0}) (stream_file env safe size bytes w)
unfolding stream_file
stream_file-Ends env p safe size bytes w =
    push_loop-Ends env p (suc size) safe bytes size 0 _ _ (omega arith) (omega arith)

send_found-Ends :
    (env : Env) (p : SocketProgress env) (safe : Bytes) (size : ℕ) (path : Bytes) (w : World)
    → Ends (λ _. Unit {0}) (send_found env safe size path w)
unfolding send_found
send_found-Ends env p safe size path w = elim (Option-cases (env.content w.trace path)) [
  | inl missing ↦ ground arith
  | inr (bytes, e) ↦ ground (arith, stream_file-Ends env p safe size bytes w)
]

-- A push returns or raises, whatever the file system answers.
pub push_file-Ends :
    (env : Env) (filename : Bytes) (w : World)
    → SocketProgress env
    → Ends (λ _. Unit {0}) (push_file env filename w)
unfolding push_file
push_file-Ends env filename w p =
    let called = note (pushes filename) w in
    elim (Option-cases (env.file_size called.trace (pushed_path env filename))) [
      | inl raises ↦ ground arith
      | inr (size, e) ↦
          ground (
            arith,
            send_found-Ends env p (base_name filename) size (pushed_path env filename) called,
          )
    ]
