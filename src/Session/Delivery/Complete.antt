-- ===== src/Session/Delivery/Complete.antt =====
-- What `pushFile` puts on the socket: the file, or a part of it and a report.
use titan_share.Prelude.{
  ℕ, zero, suc, ◌+◌, ◌-◌, ◌<◌, min, leb, ◌==◌, ◌≡◌, refl, sym, ap, ◌∙◌, true, false, ◌||◌, some,
  List, [], ◌∷◌, ◌++◌, append_assoc, append-nil, length, length-take, length-drop, take, drop,
  take-append-drop, Bytes, arith, Bool-cases, inl, inr, ◌⊎◌,
}
use titan_share.Session.State.{Event, publishes, pushes, Env, World, note, Ends, Ends-bind}
use titan_share.Session.Push.{
  publish_returns, publish_transfer_state, write_all, push_loop, stream_file, send_found, push_file,
  base_name, chunk_size,
}
use titan_share.Session.Delivery.{
  streamed, SocketProgress, Sent, chunk-Sent, after_chunk, pushed_path,
}

-- At the end all of the file is on the socket, or a part of it and the failure is published.
abbrev pub Delivered : Bytes → World → Type 0
Delivered all w =
    (streamed w.trace ≡ all)
    ⊎ ((missing : Bytes) × (streamed w.trace ++ missing ≡ all)
        × ((t : List Event) × (w.trace ≡ publishes false true [] 0 1 ∷ t)))

finished :
    (env : Env) (all : Bytes) (w : World)
    → streamed w.trace ≡ all
    → Ends (Delivered all) (publish_transfer_state env false true [] 1 1 w)
unfolding publish_transfer_state
finished env all w e = elim (Bool-cases (publish_returns env [] w)) [
  | inl made ↦ rw (made, Ends) (inl e)
  | inr failed ↦ rw (failed, Ends) tt
]

given_up :
    (env : Env) (all missing : Bytes) (w : World)
    → streamed w.trace ++ missing ≡ all
    → Ends (Delivered all) (publish_transfer_state env false true [] 0 1 w)
unfolding publish_transfer_state
given_up env all missing w e = elim (Bool-cases (publish_returns env [] w)) [
  | inl made ↦ rw (made, Ends) (inr (missing, e, (w.trace, refl)))
  | inr failed ↦ rw (failed, Ends) tt
]

nothing_left : (bs all rest : Bytes) → bs ++ rest ≡ all → length rest ≡ 0 → bs ≡ all
nothing_left bs all [] e h = sym (append-nil bs) ∙ e
nothing_left bs all (c ∷ cs) e h = absurd (omega arith)

chunk_joins :
    (before rest after : Bytes) (n : ℕ)
    → after ≡ before ++ take n rest
    → after ++ drop n rest ≡ before ++ rest
chunk_joins before rest after n e =
    ap (λ b. b ++ drop n rest) e
    ∙ append_assoc before (take n rest) (drop n rest)
    ∙ ap (λ b. before ++ b) (take-append-drop n rest)

-- Taking as many bytes as the chunk has is dropping as many from the rest.
drop-length-take : (n : ℕ) (bs : Bytes) → drop (length (take n bs)) bs ≡ drop n bs
drop-length-take zero bs = refl
drop-length-take (suc n) [] = refl
drop-length-take (suc n) (c ∷ bs) = drop-length-take n bs

push_loop-Delivered :
    (env : Env) (p : SocketProgress env) (fuel : ℕ) (safe rest all : Bytes) (size done last : ℕ)
    (w : World)
    → streamed w.trace ++ rest ≡ all
    → done + length rest ≡ size
    → size < done + fuel
    → Ends (Delivered all) (push_loop env env.patience fuel safe rest size done last w)
unfolding push_loop
push_loop-Delivered env p zero safe rest all size done last w e l h = absurd (omega arith)
push_loop-Delivered env p (suc fuel) safe rest all size done last w e l h =
    let n : ℕ = min chunk_size (size - done) in
    let chunk : Bytes = take n rest in
    let fits : length chunk ≡ min n (length rest) = length-take n rest in
    let left : (streamed w.trace ++ chunk) ++ drop (length chunk) rest ≡ streamed w.trace ++ rest =
      ap (λ b. (streamed w.trace ++ chunk) ++ b) (drop-length-take n rest)
      ∙ chunk_joins (streamed w.trace) rest (streamed w.trace ++ chunk) n refl in
    elim (Bool-cases (leb size done || length chunk == 0)) [
      | inl stop ↦
          rw (stop, Ends)
            (finished env all w (nothing_left (streamed w.trace) all rest e (ground (arith, fits))))
      | inr go ↦
          rw (go, Ends)
            (Ends-bind (Sent (streamed w.trace ++ chunk)) (Delivered all)
              (write_all env env.patience chunk w) _
              (chunk-Sent env p chunk w (omega (arith, fits)))
              λ r s.
                after_chunk env (Delivered all) _ safe (streamed w.trace ++ chunk)
                  (done + length chunk) size last r s
                  (λ last' w' e'.
                    push_loop-Delivered env p fuel safe (drop (length chunk) rest) all size
                      (done + length chunk) last' w'
                      (ap (λ b. b ++ drop (length chunk) rest) e' ∙ left ∙ e)
                      (omega (arith, l, fits, length-drop (length chunk) rest))
                      (ground (arith, fits)))
                  λ missing w' s'. given_up env all (missing ++ drop (length chunk) rest) w' (
                    sym (append_assoc (streamed w'.trace) missing (drop (length chunk) rest))
                    ∙ ap (λ b. b ++ drop (length chunk) rest) s'
                    ∙ left
                    ∙ e))
    ]

stream_file-Delivered :
    (env : Env) (p : SocketProgress env) (safe : Bytes) (size : ℕ) (bytes : Bytes) (w : World)
    → length bytes ≡ size
    → Ends (Delivered (streamed w.trace ++ bytes)) (stream_file env safe size bytes w)
unfolding stream_file
stream_file-Delivered env p safe size bytes w l =
    push_loop-Delivered env p (suc size) safe bytes (streamed w.trace ++ bytes) size 0 _ _ refl
      (omega (arith, l)) (omega arith)

send_found-Delivered :
    (env : Env) (p : SocketProgress env) (safe : Bytes) (size : ℕ) (path bytes : Bytes) (w : World)
    → env.content w.trace path ≡ some bytes
    → (size == 0) ≡ false
    → length bytes ≡ size
    → Ends (Delivered (streamed w.trace ++ bytes)) (send_found env safe size path w)
unfolding send_found
send_found-Delivered env p safe size path bytes w content_is not_empty size_is =
    rw (not_empty, content_is, Ends) (stream_file-Delivered env p safe size bytes w size_is)

-- A push of a file that is there and not empty comes to an end or raises. If it ends, all bytes of
-- the file are on the socket in order, or those before some missing ones are, and then the last
-- thing done is to publish the failure. The socket makes progress, and the file has the size that
-- the file system says.
pub push_file-Delivered :
    (env : Env) (filename bytes : Bytes) (w : World)
    → SocketProgress env
    → env.is_file (pushes filename ∷ w.trace) (pushed_path env filename) ≡ some true
    → env.file_size (pushes filename ∷ w.trace) (pushed_path env filename) ≡ some (length bytes)
    → env.content (pushes filename ∷ w.trace) (pushed_path env filename) ≡ some bytes
    → 0 < length bytes
    → Ends (Delivered (streamed w.trace ++ bytes)) (push_file env filename w)
unfolding push_file
push_file-Delivered env filename bytes w p is_there size_is content_is some_bytes =
    let called = note (pushes filename) w in
    let not_empty : (length bytes == 0) ≡ false = ground arith in
    rw (is_there, size_is, Ends)
      (send_found-Delivered env p (base_name filename) (length bytes) (pushed_path env filename)
        bytes called content_is not_empty refl)
