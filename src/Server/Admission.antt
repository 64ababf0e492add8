-- ===== src/Server/Admission.antt =====
-- What a server does before it has told anybody AUTH_OK.
use titan_share.Config.{max_clients}
use titan_share.Prelude.{
  ℕ, leb, ◌==◌, ◌≡◌, refl, true, false, Option, none, some, List, [], ◌∷◌, length, Bytes, arith,
  Bool-cases, Option-cases, inl, inr, ◌⊎◌, subst,
}
use titan_share.Session.State.{
  Session, Env, World, closes, note, Exec, ran, threw, starved, Holds, Holds-bind, new_session,
}
use titan_share.Session.Admission.{IsAdmitted, BothAdmitted}
use titan_share.Session.Machine.{is_auth, on_data}
use titan_share.Session.Machine.Gate.{privileged}
use titan_share.Session.Machine.Admitted.{IsLocked, on_data-IsLocked, on_data-IsAdmitted}
use titan_share.Server.Valid.{find_client-set_client}
use titan_share.Server.{
  TcpServer, find_client, set_client, erase_client, destroy, remove_client, accept_connection,
  Reading, gets, ends, would_block, breaks, read_loop, handle_client_data, Ready, incoming,
  hangs_up, readable, stops, dispatch_event, run_batch, run,
}

-- Every session is in the AUTH stage.
abbrev pub AllAuth : List (ℕ × Session) → Type 0
AllAuth [] = Unit
AllAuth ((fd, s) ∷ cs) = (is_auth s.stage ≡ true) × AllAuth cs

-- AUTH_OK was sent; or all sessions are in the AUTH stage, and there were `n` events that only a
-- paired peer may cause.
abbrev pub IsClosed : ℕ → TcpServer → Type 0
IsClosed n srv = IsAdmitted srv.world ⊎ (AllAuth srv.clients × (privileged srv.world.trace ≡ n))

set_client-AllAuth :
    (fd : ℕ) (s : Session) (cs : List (ℕ × Session))
    → is_auth s.stage ≡ true
    → AllAuth cs
    → AllAuth (set_client fd s cs)
unfolding set_client
set_client-AllAuth fd s [] a h = (a, tt)
set_client-AllAuth fd s ((g, t) ∷ cs) a h = elim (Bool-cases (g == fd)) [
  | inl same ↦ rw same (a, h.1)
  | inr other ↦ rw other (h.0, set_client-AllAuth fd s cs a h.1)
]

erase_client-AllAuth :
    (fd : ℕ) (cs : List (ℕ × Session)) → AllAuth cs → AllAuth (erase_client fd cs)
unfolding erase_client
erase_client-AllAuth fd [] h = tt
erase_client-AllAuth fd ((g, t) ∷ cs) h = elim (Bool-cases (g == fd)) [
  | inl same ↦ rw same (erase_client-AllAuth fd cs h.1)
  | inr other ↦ rw other (h.0, erase_client-AllAuth fd cs h.1)
]

found_session : {s t : Session} → some s ≡ some t → s ≡ t
found_session e = cc

find_client-AllAuth :
    (fd : ℕ) (s : Session) (cs : List (ℕ × Session))
    → find_client fd cs ≡ some s
    → AllAuth cs
    → is_auth s.stage ≡ true
unfolding find_client
find_client-AllAuth fd s [] e h = cc
find_client-AllAuth fd s ((g, t) ∷ cs) e h = elim (Bool-cases (g == fd)) [
  | inl same ↦ subst (λ u. is_auth u.stage ≡ true) (found_session (rw same at e)) h.0
  | inr other ↦ find_client-AllAuth fd s cs (rw other at e) h.1
]

-- Closing descriptors is no privilege.
destroy-privileged :
    (c : Option Session) (w : World) → privileged (destroy c w).trace ≡ privileged w.trace
unfolding destroy
destroy-privileged c w = ground arith

destroy-IsAdmitted : (c : Option Session) (w : World) → IsAdmitted w → IsAdmitted (destroy c w)
unfolding destroy
destroy-IsAdmitted c w h = ground arith

remove_client-IsClosed :
    (n fd : ℕ) (srv : TcpServer) → IsClosed n srv → IsClosed n (remove_client fd srv)
unfolding remove_client
remove_client-IsClosed n fd srv (inl h) =
    inl (destroy-IsAdmitted (find_client fd srv.clients) srv.world h)
remove_client-IsClosed n fd srv (inr (a, e)) = inr (
  erase_client-AllAuth fd srv.clients a,
  ground (arith, destroy-privileged (find_client fd srv.clients) srv.world, e),
)

accept_connection-IsClosed :
    (n : ℕ) (accepted : Option (ℕ × Bytes)) (srv : TcpServer)
    → IsClosed n srv
    → IsClosed n (accept_connection accepted srv)
unfolding accept_connection
accept_connection-IsClosed n none srv c = c
accept_connection-IsClosed n (some (fd, host)) srv c =
    elim (Bool-cases (leb max_clients (length srv.clients))) [
      | inl full ↦ rw full (kept c)
      | inr room ↦ rw room (added c)
    ]
  where
    kept : IsClosed n srv → IsClosed n (record srv { world = note (closes fd) srv.world })
    kept (inl h) = inl h
    kept (inr (a, e)) = inr (a, e)

    added :
        IsClosed n srv
        → IsClosed n (record srv {
          clients = set_client fd (new_session fd host) srv.clients;
          watched = fd ∷ srv.watched;
          world = destroy (find_client fd srv.clients) srv.world;
        })
    added (inl h) = inl (destroy-IsAdmitted (find_client fd srv.clients) srv.world h)
    added (inr (a, e)) = inr (
      unfold new_session is_auth in set_client-AllAuth fd (new_session fd host) srv.clients refl a,
      ground (arith, destroy-privileged (find_client fd srv.clients) srv.world, e),
    )

-- The server behind what a session did.
abbrev StaysClosed : ℕ → ℕ → TcpServer → Session × World → Type 0
StaysClosed n fd srv q =
    IsClosed n (record srv { clients = set_client fd q.0 srv.clients; world = q.1 })

-- Some bytes reach the session that the table holds.
session_step :
    (env : Env) (n fd : ℕ) (bytes : Bytes) (s : Session) (srv : TcpServer)
    → find_client fd srv.clients ≡ some s
    → IsClosed n srv
    → Holds (StaysClosed n fd srv) (on_data env bytes s srv.world)
session_step env n fd bytes s srv e (inl h) =
    weaken (on_data env bytes s srv.world) (on_data-IsAdmitted env bytes s srv.world h)
  where
    weaken : (r : Exec (Session × World)) → Holds BothAdmitted r → Holds (StaysClosed n fd srv) r
    weaken (ran q) g = inl g
    weaken threw g = tt
    weaken starved g = tt
session_step env n fd bytes s srv e (inr (a, p)) =
    weaken (on_data env bytes s srv.world)
      (on_data-IsLocked env n bytes s srv.world (inr (find_client-AllAuth fd s srv.clients e a, p)))
  where
    weaken : (r : Exec (Session × World)) → Holds (IsLocked n) r → Holds (StaysClosed n fd srv) r
    weaken (ran q) (inl g) = inl g
    weaken (ran q) (inr (b, f)) = inr (set_client-AllAuth fd q.0 srv.clients b a, f)
    weaken threw g = tt
    weaken starved g = tt

read_loop-IsClosed :
    (env : Env) (n fd : ℕ) (rs : List Reading) (s : Session) (srv : TcpServer)
    → find_client fd srv.clients ≡ some s
    → IsClosed n srv
    → Holds (IsClosed n) (read_loop env fd rs s srv)
unfolding read_loop
read_loop-IsClosed env n fd [] s srv e c = c
read_loop-IsClosed env n fd (gets bytes ∷ rs) s srv e c =
    Holds-bind (StaysClosed n fd srv) (IsClosed n) (on_data env bytes s srv.world) _
      (session_step env n fd bytes s srv e c)
      λ q h. read_loop-IsClosed env n fd rs q.0 _ (find_client-set_client fd q.0 srv.clients) h
read_loop-IsClosed env n fd (ends ∷ rs) s srv e c = remove_client-IsClosed n fd srv c
read_loop-IsClosed env n fd (would_block ∷ rs) s srv e c = c
read_loop-IsClosed env n fd (breaks ∷ rs) s srv e c = remove_client-IsClosed n fd srv c

stop-IsClosed :
    (n : ℕ) (srv : TcpServer) → IsClosed n srv → IsClosed n (record srv { running = false })
stop-IsClosed n srv (inl h) = inl h
stop-IsClosed n srv (inr h) = inr h

dispatch_event-IsClosed :
    (env : Env) (n : ℕ) (e : Ready) (srv : TcpServer)
    → IsClosed n srv
    → Holds (IsClosed n) (dispatch_event env e srv)
unfolding dispatch_event handle_client_data
dispatch_event-IsClosed env n (incoming accepted) srv c =
    accept_connection-IsClosed n accepted srv c
dispatch_event-IsClosed env n (hangs_up fd) srv c = remove_client-IsClosed n fd srv c
dispatch_event-IsClosed env n (readable fd rs) srv c =
    elim (Option-cases (find_client fd srv.clients)) [
      | inl missing ↦ rw (missing, Holds) c
      | inr (s, e) ↦ rw (e, Holds) (read_loop-IsClosed env n fd rs s srv e c)
    ]
dispatch_event-IsClosed env n stops srv c = stop-IsClosed n srv c

run_batch-IsClosed :
    (env : Env) (n : ℕ) (es : List Ready) (srv : TcpServer)
    → IsClosed n srv
    → Holds (IsClosed n) (run_batch env es srv)
unfolding run_batch
run_batch-IsClosed env n [] srv c = c
run_batch-IsClosed env n (e ∷ es) srv c =
    Holds-bind (IsClosed n) (IsClosed n) (dispatch_event env e srv) _
      (dispatch_event-IsClosed env n e srv c) λ srv' c'. run_batch-IsClosed env n es srv' c'

-- Whatever any number of clients connect with, send and do, in any order: as long as the server has
-- sent AUTH_OK to nobody, every session is in the AUTH stage, and no command, no listing, no push,
-- no directory, no file and no write was caused beyond those before; if that held at the start.
pub run-IsClosed :
    (env : Env) (n : ℕ) (batches : List (List Ready)) (srv : TcpServer)
    → IsClosed n srv
    → Holds (IsClosed n) (run env batches srv)
unfolding run
run-IsClosed env n [] srv c = c
run-IsClosed env n (batch ∷ batches) srv c = elim (Bool-cases srv.running) [
  | inl on ↦
      rw (on, Holds)
        (Holds-bind (IsClosed n) (IsClosed n) (run_batch env batch srv) _
          (run_batch-IsClosed env n batch srv c) λ srv' c'. run-IsClosed env n batches srv' c')
  | inr off ↦ rw (off, Holds) c
]
