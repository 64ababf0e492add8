-- ===== src/Session/Machine/Admitted.antt =====
-- Who is in a stage behind AUTH was sent AUTH_OK, and who was not caused nothing.
use titan_share.Prelude.{
  ℕ, zero, suc, eqb, ◌==◌, ◌≡◌, refl, true, false, ◌||◌, ◌++◌, Bytes, arith, Bool-cases,
  Option-cases, inl, inr, ◌⊎◌, ap, ◌∙◌,
}
use titan_share.Session.State.{
  Session, Stage, auth, header, file_data, Env, World, Exec, ran, threw, starved, Holds, Holds-bind,
}
use titan_share.Session.Buffer.{buf_size}
use titan_share.Session.Login.{handle_auth}
use titan_share.Session.Header.{handle_header}
use titan_share.Session.Upload.{handle_file_data}
use titan_share.Session.Admission.{
  IsAdmitted, BothAdmitted, handle_header-IsAdmitted, handle_file_data-IsAdmitted,
}
use titan_share.Session.Machine.{
  next_line, run_stage, process_loop, process_buffer, is_auth, on_data,
}
use titan_share.Session.Machine.Gate.{privileged, next_line-stage}

-- AUTH_OK was sent to somebody; or the peer is in the AUTH stage, and there were `n` events that
-- only a paired peer may cause.
abbrev pub IsLocked : ℕ → Session × World → Type 0
IsLocked n q = IsAdmitted q.1 ⊎ ((is_auth q.0.stage ≡ true) × (privileged q.1.trace ≡ n))

handle_auth-IsLocked :
    (env : Env) (n : ℕ) (line : Bytes) (s : Session) (w : World)
    → s.stage ≡ auth
    → IsLocked n (s, w)
    → IsLocked n (handle_auth env line s w)
unfolding handle_auth is_auth eqb
handle_auth-IsLocked env n line s w a (inl h) = inl (ground arith)
handle_auth-IsLocked env n line s w a (inr (g, e)) = ground arith

same_stage :
    (n : ℕ) (s t : Session) (w : World) → t.stage ≡ s.stage → IsLocked n (s, w) → IsLocked n (t, w)
same_stage n s t w e (inl h) = inl h
same_stage n s t w e (inr (a, p)) = inr (ap is_auth e ∙ a, p)

behind_auth :
    (n : ℕ) (s : Session) (w : World) → is_auth s.stage ≡ false → IsLocked n (s, w) → IsAdmitted w
behind_auth n s w b (inl h) = h
behind_auth n s w b (inr (a, e)) = cc (a, b)

Holds-weaken : (n : ℕ) (r : Exec (Session × World)) → Holds BothAdmitted r → Holds (IsLocked n) r
Holds-weaken n (ran q) h = inl h
Holds-weaken n threw h = tt
Holds-weaken n starved h = tt

run_stage-IsLocked :
    (env : Env) (n : ℕ) (next : Session → World → Exec (Session × World)) (st : Stage) (s : Session)
    (w : World)
    → ((t : Session) (u : World) → IsLocked n (t, u) → Holds (IsLocked n) (next t u))
    → s.stage ≡ st
    → IsLocked n (s, w)
    → Holds (IsLocked n) (run_stage env next st s w)
unfolding run_stage is_auth
run_stage-IsLocked env n next auth s w k a g = elim (Option-cases (next_line s)) [
  | inl e ↦ rw (e, Holds) g
  | inr ((line, t), e) ↦
      rw (e, Holds)
        (k _ _ (
          handle_auth-IsLocked env n line t w (next_line-stage s t line e ∙ a)
            (same_stage n s t w (next_line-stage s t line e) g)))
]
run_stage-IsLocked env n next header s w k a g = elim (Option-cases (next_line s)) [
  | inl e ↦ rw (e, Holds) g
  | inr ((line, t), e) ↦
      rw (e, Holds)
        (Holds-bind BothAdmitted (IsLocked n) (handle_header env line t w) _
          (handle_header-IsAdmitted env line t w (behind_auth n s w (ap is_auth a) g))
          λ q h. k q.0 q.1 (inl h))
]
run_stage-IsLocked env n next file_data s w k a g =
    Holds-weaken n (handle_file_data env s w)
      (handle_file_data-IsAdmitted env s w (behind_auth n s w (ap is_auth a) g))

process_loop-IsLocked :
    (env : Env) (n fuel : ℕ) (s : Session) (w : World)
    → IsLocked n (s, w)
    → Holds (IsLocked n) (process_loop env fuel s w)
unfolding process_loop
process_loop-IsLocked env n zero s w g = tt
process_loop-IsLocked env n (suc fuel) s w g = elim (Bool-cases (s.closed || buf_size s == 0)) [
  | inl stop ↦ rw (stop, Holds) g
  | inr go ↦
      rw (go, Holds)
        (run_stage-IsLocked env n (process_loop env fuel) s.stage s w
          (λ t u h. process_loop-IsLocked env n fuel t u h) refl g)
]

pub on_data-IsLocked :
    (env : Env) (n : ℕ) (bytes : Bytes) (s : Session) (w : World)
    → IsLocked n (s, w)
    → Holds (IsLocked n) (on_data env bytes s w)
unfolding on_data process_buffer
on_data-IsLocked env n bytes s w g =
    let s' : Session = record s { buffer = s.buffer ++ bytes } in
    ground (arith, process_loop-IsLocked env n (suc (buf_size s')) s' w g)

Holds-both :
    (P Q : Session × World → Type 0) (r : Exec (Session × World))
    → Holds P r
    → Holds Q r
    → Holds (λ q. P q × Q q) r
Holds-both P Q (ran q) h k = (h, k)
Holds-both P Q threw h k = tt
Holds-both P Q starved h k = tt

locked_twice : (n : ℕ) (q : Session × World) → IsLocked n q → IsLocked (suc n) q → BothAdmitted q
locked_twice n q (inl h) k = h
locked_twice n q (inr h) (inl k) = k
locked_twice n q (inr (a, e)) (inr (b, f)) = absurd (omega (arith, e, f))

Holds-locked_twice :
    (n : ℕ) (r : Exec (Session × World))
    → Holds (λ q. IsLocked n q × IsLocked (suc n) q) r
    → Holds BothAdmitted r
Holds-locked_twice n (ran q) h = locked_twice n q h.0 h.1
Holds-locked_twice n threw h = tt
Holds-locked_twice n starved h = tt

-- What was sent stays sent: the invariant for two different numbers.
pub on_data-IsAdmitted :
    (env : Env) (bytes : Bytes) (s : Session) (w : World)
    → IsAdmitted w
    → Holds BothAdmitted (on_data env bytes s w)
on_data-IsAdmitted env bytes s w h = Holds-locked_twice 0 (on_data env bytes s w) (
    Holds-both (IsLocked 0) (IsLocked 1) (on_data env bytes s w)
      (on_data-IsLocked env 0 bytes s w (inl h)) (on_data-IsLocked env 1 bytes s w (inl h)))
