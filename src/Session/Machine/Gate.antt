-- ===== src/Session/Machine/Gate.antt =====
-- What a peer that has not paired can cause.
use titan_share.Prelude.{
  ℕ, zero, suc, ◌+◌, ◌==◌, ◌≡◌, refl, ◌∙◌, true, false, ◌||◌, some, List, [], ◌∷◌, ◌++◌, Bytes,
  arith, Bool-cases, Option-cases, inl, inr, ◌⊎◌, ap, find,
}
use titan_share.Session.State.{
  Session, Stage, auth, header, file_data, Event, sent, closes, Env, World, Exec, ran, threw,
  starved, Holds, Holds-bind,
}
use titan_share.Session.Buffer.{
  buf_size, buf_data, consume_buffer, compact_buffer, consume_buffer_keeps,
}
use titan_share.Session.Push.{publish_transfer_state}
use titan_share.Session.Login.{handle_auth}
use titan_share.Session.Header.{refuse_file, open_received, accept_size, file_start, handle_header}
use titan_share.Session.Upload.{
  handle_file_data, write_some, abandon_file, check_completion, report_received, finish_file,
  drain_sentinel,
}
use titan_share.Session.Machine.{
  next_line, run_stage, process_loop, process_buffer, is_auth, on_data,
}

-- How many events only a paired peer may cause.
abbrev pub privileged : List Event → ℕ
privileged [] = 0
privileged (sent _ ∷ t) = privileged t
privileged (closes _ ∷ t) = privileged t
privileged (_ ∷ t) = suc (privileged t)

-- The peer has paired, or there were `n` of them.
abbrev pub Gated : ℕ → Session × World → Type 0
Gated n q = (is_auth q.0.stage ≡ false) ⊎ (privileged q.1.trace ≡ n)

pub next_line-stage :
    (s t : Session) (line : Bytes) → next_line s ≡ some (line, t) → t.stage ≡ s.stage
unfolding next_line
next_line-stage s t line e = elim (Option-cases (find (buf_data s) b'\n')) [
  | inl none_found ↦ ground arith
  | inr (i, found) ↦ ground (arith, consume_buffer_keeps (i + 1) s)
]

handle_auth-Gated :
    (env : Env) (n : ℕ) (line : Bytes) (s : Session) (w : World)
    → privileged w.trace ≡ n
    → Gated n (handle_auth env line s w)
unfolding handle_auth
handle_auth-Gated env n line s w h = ground arith

-- The other two handlers never go back to AUTH.
abbrev Paired : Session × World → Type 0
Paired q = is_auth q.0.stage ≡ false

handle_header-Paired :
    (env : Env) (line : Bytes) (s : Session) (w : World)
    → is_auth s.stage ≡ false
    → Holds Paired (handle_header env line s w)
unfolding handle_header file_start accept_size open_received refuse_file is_auth
handle_header-Paired env line s w a = ground arith

handle_file_data-Paired :
    (env : Env) (s : Session) (w : World)
    → is_auth s.stage ≡ false
    → Holds Paired (handle_file_data env s w)
unfolding handle_file_data write_some abandon_file check_completion report_received finish_file
    drain_sentinel consume_buffer compact_buffer publish_transfer_state is_auth
handle_file_data-Paired env s w a = ground arith

not_paired :
    (n : ℕ) (s : Session) (w : World)
    → is_auth s.stage ≡ true
    → Gated n (s, w)
    → privileged w.trace ≡ n
not_paired n s w a (inl paired) = cc (a, paired)
not_paired n s w a (inr e) = e

run_stage-Gated :
    (env : Env) (n : ℕ) (next : Session → World → Exec (Session × World)) (st : Stage) (s : Session)
    (w : World)
    → ((t : Session) (u : World) → Gated n (t, u) → Holds (Gated n) (next t u))
    → s.stage ≡ st
    → Gated n (s, w)
    → Holds (Gated n) (run_stage env next st s w)
unfolding run_stage is_auth
run_stage-Gated env n next auth s w k a g = elim (Option-cases (next_line s)) [
  | inl e ↦ rw (e, Holds) g
  | inr ((line, t), e) ↦
      rw (e, Holds) (k _ _ (handle_auth-Gated env n line t w (not_paired n s w (ap is_auth a) g)))
]
run_stage-Gated env n next header s w k a g = elim (Option-cases (next_line s)) [
  | inl e ↦ rw (e, Holds) g
  | inr ((line, t), e) ↦
      rw (e, Holds)
        (Holds-bind Paired (Gated n) (handle_header env line t w) _
          (handle_header-Paired env line t w (ap is_auth (next_line-stage s t line e ∙ a)))
          λ q h. k q.0 q.1 (inl h))
]
run_stage-Gated env n next file_data s w k a g =
    Holds-weaken (handle_file_data env s w) (handle_file_data-Paired env s w (ap is_auth a))
  where
    Holds-weaken : (r : Exec (Session × World)) → Holds Paired r → Holds (Gated n) r
    Holds-weaken (ran q) h = inl h
    Holds-weaken threw h = tt
    Holds-weaken starved h = tt

process_loop-Gated :
    (env : Env) (n fuel : ℕ) (s : Session) (w : World)
    → Gated n (s, w)
    → Holds (Gated n) (process_loop env fuel s w)
unfolding process_loop
process_loop-Gated env n zero s w g = tt
process_loop-Gated env n (suc fuel) s w g = elim (Bool-cases (s.closed || buf_size s == 0)) [
  | inl stop ↦ rw (stop, Holds) g
  | inr go ↦
      rw (go, Holds)
        (run_stage-Gated env n (process_loop env fuel) s.stage s w
          (λ t u h. process_loop-Gated env n fuel t u h) refl g)
]

-- A peer that has not paired before it sends some bytes, and has not after them, has caused no
-- command, no listing, no push, no directory, no file and no write.
pub on_data-Gated :
    (env : Env) (bytes : Bytes) (s : Session) (w : World)
    → s.stage ≡ auth
    → Holds (Gated (privileged w.trace)) (on_data env bytes s w)
unfolding on_data process_buffer
on_data-Gated env bytes s w a =
    let s' : Session = record s { buffer = s.buffer ++ bytes } in
    ground (arith, process_loop-Gated env (privileged w.trace) (suc (buf_size s')) s' w (inr refl))
