-- ===== src/Session/Delivery.antt =====
-- `pushFile` on the socket: one chunk, with partial writes, EAGAIN and errors.
pub mod Complete
pub mod Total
use native.Mathlib.Nat.{mul-le-mul_right}
use titan_share.Config.{send_to_android_dir}
use titan_share.Prelude.{
  ℕ, zero, suc, ◌+◌, ◌-◌, ◌*◌, ◌≤◌, ◌<◌, min, ltb, leb, ◌==◌, ◌≡◌, refl, sym, ap, ◌∙◌, Bool, true,
  false, not, ◌||◌, if◌then◌else◌, Option, none, some, List, [], ◌∷◌, ◌++◌, append_assoc,
  append-nil, length, length-take, length-drop, take, drop, take-append-drop, Bytes, subst, arith,
  Bool-cases, Option-cases, inl, inr, ◌⊎◌,
}
use titan_share.Session.State.{
  Event, sent, closes, makes_dirs, opens, writes, dispatches, lists_files, publishes, pushes,
  streams, waits, Taken, took, again, fails, Env, World, note, Exec, ran, threw, starved, Ends,
  Ends-bind, ◌>>=◌,
}
use titan_share.Session.Push.{
  publish_transfer_state, write_all, report_push, push_loop, stream_file, push_file, base_name,
  chunk_size,
}

-- The bytes of pushed files that the socket took, oldest first.
abbrev pub streamed : List Event → Bytes
streamed [] = []
streamed (streams bytes ∷ t) = streamed t ++ bytes
streamed (_ ∷ t) = streamed t

-- A write that takes no byte fails or asks to wait; of the latter there are at most `stalls` in a
-- row, and the model follows enough rounds.
pub record SocketProgress (env : Env) : Type 0 where
  pub stalls : ℕ
  pub pending : List Event → ℕ
  pub pending_bounded : (t : List Event) → pending t ≤ stalls
  pub takes_some :
      (t : List Event) (bytes : Bytes) (n : ℕ) → env.write_socket t bytes ≡ took n → 0 < n
  pub again_less :
      (t : List Event) (bytes : Bytes)
      → env.write_socket t bytes ≡ again
      → pending (waits ∷ t) < pending t
  pub patient : 131073 * suc stalls ≤ env.patience

-- The rounds that suffice for some bytes.
abbrev cost : ℕ → Bytes → ℕ
cost k [] = 0
cost k (_ ∷ bs) = suc k + cost k bs

cost-drop-le : (k n : ℕ) (bs : Bytes) → cost k (drop n bs) ≤ cost k bs
cost-drop-le k zero bs = omega arith
cost-drop-le k (suc n) [] = omega arith
cost-drop-le k (suc n) (c ∷ bs) = omega (arith, cost-drop-le k n bs)

cost-drop-lt : (k n c : ℕ) (bs : Bytes) → 0 < n → cost k (drop n (c ∷ bs)) + suc k ≤ cost k (c ∷ bs)
cost-drop-lt k zero c bs h = absurd (omega arith)
cost-drop-lt k (suc n) c bs h = omega (arith, cost-drop-le k n bs)

-- All of the bytes are on the socket, or the part before some missing ones.
abbrev pub Sent : Bytes → Bool × World → Type 0
Sent all (true, w) = streamed w.trace ≡ all
Sent all (false, w) = (missing : Bytes) × (streamed w.trace ++ missing ≡ all)

pub Taken-cases : (x : Taken) → (x ≡ fails) ⊎ ((x ≡ again) ⊎ ((n : ℕ) × (x ≡ took n)))
Taken-cases fails = inl refl
Taken-cases again = inr (inl refl)
Taken-cases (took n) = inr (inr (n, refl))

write_all-Sent :
    (env : Env) (p : SocketProgress env) (fuel : ℕ) (bytes : Bytes) (w : World)
    → cost p.stalls bytes + p.pending w.trace ≤ fuel
    → Ends (Sent (streamed w.trace ++ bytes)) (write_all env fuel bytes w)
unfolding write_all
write_all-Sent env p zero [] w h = sym (append-nil (streamed w.trace))
write_all-Sent env p (suc fuel) [] w h = sym (append-nil (streamed w.trace))
write_all-Sent env p zero (c ∷ cs) w h = absurd (omega arith)
write_all-Sent env p (suc fuel) (c ∷ cs) w h =
    elim (Taken-cases (env.write_socket w.trace (c ∷ cs))) [
      | inl e ↦ rw (e, Ends) (c ∷ cs, refl)
      | inr (inl e) ↦
          rw (e, Ends)
            (write_all-Sent env p fuel (c ∷ cs) (note waits w)
              (omega (arith, p.again_less w.trace (c ∷ cs) e)))
      | inr (inr (n, e)) ↦
          let w' = note (streams (take n (c ∷ cs))) w in
          let gone : streamed w.trace ++ (c ∷ cs) ≡ streamed w'.trace ++ drop n (c ∷ cs) =
            ap (λ b. streamed w.trace ++ b) (sym (take-append-drop n (c ∷ cs)))
            ∙ sym (append_assoc (streamed w.trace) (take n (c ∷ cs)) (drop n (c ∷ cs))) in
          rw (e, Ends)
            (subst (λ all. Ends (Sent all) (write_all env fuel (drop n (c ∷ cs)) w')) (sym gone)
              (write_all-Sent env p fuel (drop n (c ∷ cs)) w' (
                omega (
                  arith,
                  cost-drop-lt p.stalls n c cs (p.takes_some w.trace (c ∷ cs) n e),
                  p.pending_bounded w'.trace,
                ))))
    ]

cost-length : (k : ℕ) (bs : Bytes) → cost k bs ≡ length bs * suc k
cost-length k [] = omega arith
cost-length k (c ∷ bs) = omega (arith, cost-length k bs)

report_push-Ends :
    (env : Env) (safe : Bytes) (done size last : ℕ) (w : World)
    → Ends (λ r. streamed r.1.trace ≡ streamed w.trace) (report_push env safe done size last w)
unfolding report_push publish_transfer_state
report_push-Ends env safe done size last w = ground arith

-- A chunk is written with the rounds that the environment grants.
pub chunk-Sent :
    (env : Env) (p : SocketProgress env) (bytes : Bytes) (w : World)
    → length bytes ≤ chunk_size
    → Ends (Sent (streamed w.trace ++ bytes)) (write_all env env.patience bytes w)
chunk-Sent env p bytes w h = write_all-Sent env p env.patience bytes w (
    omega (
      arith,
      cost-length p.stalls bytes,
      mul-le-mul_right (suc p.stalls) h,
      p.pending_bounded w.trace,
      p.patient,
    ))

-- The round after a chunk: a failed write ends the push, and otherwise the loop goes on.
pub after_chunk :
    (env : Env) (P : World → Type 0) (next : ℕ → World → Exec World) (safe before : Bytes)
    (done size last : ℕ) (r : Bool × World)
    → Sent before r
    → ((last' : ℕ) (w : World) → streamed w.trace ≡ before → Ends P (next last' w))
    → ((missing : Bytes) (w : World)
        → streamed w.trace ++ missing ≡ before
        → Ends P (publish_transfer_state env false true [] 0 1 w))
    → Ends P (
        if r.0
        then (report_push env safe done size last r.1 >>= λ (last', w). next last' w)
        else publish_transfer_state env false true [] 0 1 r.1)
after_chunk env P next safe before done size last (true, w) s k g =
    Ends-bind (λ x. streamed x.1.trace ≡ streamed w.trace) P (report_push env safe done size last w)
      _ (report_push-Ends env safe done size last w) λ x e'. k x.0 x.1 (e' ∙ s)
after_chunk env P next safe before done size last (false, w) (missing, s) k g = g missing w s

-- The path that a name asked for leads to.
abbrev pub pushed_path : Env → Bytes → Bytes
pushed_path env filename = send_to_android_dir env.data_dir ++ b'/' ∷ base_name filename
