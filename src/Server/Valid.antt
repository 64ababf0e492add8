-- ===== src/Server/Valid.antt =====
-- The invariant of the server: the size of the table of clients, and the sessions in it.
use titan_share.Config.{max_clients}
use titan_share.Prelude.{
  ℕ, suc, ◌≤◌, leb, ◌==◌, ◌≡◌, Option, none, some, List, [], ◌∷◌, length, Bytes, arith, Bool-cases,
  Option-cases, inl, inr, subst,
}
use titan_share.Session.State.{Session, Env, Holds, Holds-bind, new_session}
use titan_share.Session.Invariant.{IsValid, StateValid, WritesWithin, new_session-IsValid}
use titan_share.Session.Machine.{on_data}
use titan_share.Session.Machine.Valid.{on_data-IsValid}
use titan_share.Server.{
  TcpServer, find_client, set_client, erase_client, remove_client, accept_connection, Reading, gets,
  ends, would_block, breaks, read_loop, handle_client_data, Ready, incoming, hangs_up, readable,
  stops, dispatch_event, run_batch, run,
}

abbrev pub ClientsValid : List (ℕ × Session) → Type 0
ClientsValid [] = Unit
ClientsValid ((fd, s) ∷ cs) = IsValid s × ClientsValid cs

pub record ServerValid (srv : TcpServer) : Type 0 where
  pub limited : length srv.clients ≤ max_clients
  pub sessions : ClientsValid srv.clients

set_client-ClientsValid :
    (fd : ℕ) (s : Session) (cs : List (ℕ × Session))
    → IsValid s
    → ClientsValid cs
    → ClientsValid (set_client fd s cs)
unfolding set_client
set_client-ClientsValid fd s [] v h = (v, tt)
set_client-ClientsValid fd s ((g, t) ∷ cs) v h = elim (Bool-cases (g == fd)) [
  | inl same ↦ rw same (v, h.1)
  | inr other ↦ rw other (h.0, set_client-ClientsValid fd s cs v h.1)
]

erase_client-ClientsValid :
    (fd : ℕ) (cs : List (ℕ × Session)) → ClientsValid cs → ClientsValid (erase_client fd cs)
unfolding erase_client
erase_client-ClientsValid fd [] h = tt
erase_client-ClientsValid fd ((g, t) ∷ cs) h = elim (Bool-cases (g == fd)) [
  | inl same ↦ rw same (erase_client-ClientsValid fd cs h.1)
  | inr other ↦ rw other (h.0, erase_client-ClientsValid fd cs h.1)
]

same_session : {s t : Session} → some s ≡ some t → s ≡ t
same_session e = cc

find_client-IsValid :
    (fd : ℕ) (s : Session) (cs : List (ℕ × Session))
    → find_client fd cs ≡ some s
    → ClientsValid cs
    → IsValid s
unfolding find_client
find_client-IsValid fd s [] e h = cc
find_client-IsValid fd s ((g, t) ∷ cs) e h = elim (Bool-cases (g == fd)) [
  | inl same ↦ subst IsValid (same_session (rw same at e)) h.0
  | inr other ↦ find_client-IsValid fd s cs (rw other at e) h.1
]

length-erase_client-le :
    (fd : ℕ) (cs : List (ℕ × Session)) → length (erase_client fd cs) ≤ length cs
unfolding erase_client
length-erase_client-le fd [] = omega arith
length-erase_client-le fd ((g, t) ∷ cs) = ground (arith, length-erase_client-le fd cs)

length-set_client-le :
    (fd : ℕ) (s : Session) (cs : List (ℕ × Session)) → length (set_client fd s cs) ≤ suc (length cs)
unfolding set_client
length-set_client-le fd s [] = omega arith
length-set_client-le fd s ((g, t) ∷ cs) = ground (arith, length-set_client-le fd s cs)

-- Writing back a client that is there adds none.
length-set_client_present :
    (fd : ℕ) (s t : Session) (cs : List (ℕ × Session))
    → find_client fd cs ≡ some t
    → length (set_client fd s cs) ≡ length cs
unfolding set_client find_client
length-set_client_present fd s t [] e = cc
length-set_client_present fd s t ((g, u) ∷ cs) e =
    ground (arith, length-set_client_present fd s t cs)

pub find_client-set_client :
    (fd : ℕ) (s : Session) (cs : List (ℕ × Session)) → find_client fd (set_client fd s cs) ≡ some s
unfolding set_client find_client
find_client-set_client fd s [] = ground arith
find_client-set_client fd s ((g, u) ∷ cs) = ground (arith, find_client-set_client fd s cs)

remove_client-ServerValid :
    (fd : ℕ) (srv : TcpServer) → ServerValid srv → ServerValid (remove_client fd srv)
unfolding remove_client
remove_client-ServerValid fd srv v = record {
  limited = omega (arith, length-erase_client-le fd srv.clients, v.limited);
  sessions = erase_client-ClientsValid fd srv.clients v.sessions;
}

accept_connection-ServerValid :
    (accepted : Option (ℕ × Bytes)) (srv : TcpServer)
    → ServerValid srv
    → ServerValid (accept_connection accepted srv)
unfolding accept_connection
accept_connection-ServerValid none srv v = v
accept_connection-ServerValid (some (fd, host)) srv v =
    elim (Bool-cases (leb max_clients (length srv.clients))) [
      | inl full ↦ rw full (record { limited = v.limited; sessions = v.sessions })
      | inr room ↦ rw room (record {
        limited = ground (arith, length-set_client-le fd (new_session fd host) srv.clients);
        sessions =
            set_client-ClientsValid fd _ srv.clients (new_session-IsValid fd host) v.sessions;
      })
    ]

read_loop-ServerValid :
    (env : Env) (fd : ℕ) (rs : List Reading) (s : Session) (srv : TcpServer)
    → WritesWithin env
    → find_client fd srv.clients ≡ some s
    → ServerValid srv
    → Holds ServerValid (read_loop env fd rs s srv)
unfolding read_loop
read_loop-ServerValid env fd [] s srv b e v = v
read_loop-ServerValid env fd (gets bytes ∷ rs) s srv b e v =
    Holds-bind StateValid ServerValid (on_data env bytes s srv.world) _
      (on_data-IsValid env bytes s srv.world b (find_client-IsValid fd s srv.clients e v.sessions))
      λ q h.
        read_loop-ServerValid env fd rs q.0 _ b (find_client-set_client fd q.0 srv.clients)
          (record {
            limited = rw (length-set_client_present fd q.0 s srv.clients e) v.limited;
            sessions = set_client-ClientsValid fd q.0 srv.clients h v.sessions;
          })
read_loop-ServerValid env fd (ends ∷ rs) s srv b e v = remove_client-ServerValid fd srv v
read_loop-ServerValid env fd (would_block ∷ rs) s srv b e v = v
read_loop-ServerValid env fd (breaks ∷ rs) s srv b e v = remove_client-ServerValid fd srv v

dispatch_event-ServerValid :
    (env : Env) (e : Ready) (srv : TcpServer)
    → WritesWithin env
    → ServerValid srv
    → Holds ServerValid (dispatch_event env e srv)
unfolding dispatch_event handle_client_data
dispatch_event-ServerValid env (incoming accepted) srv b v =
    accept_connection-ServerValid accepted srv v
dispatch_event-ServerValid env (hangs_up fd) srv b v = remove_client-ServerValid fd srv v
dispatch_event-ServerValid env (readable fd rs) srv b v =
    elim (Option-cases (find_client fd srv.clients)) [
      | inl missing ↦ rw (missing, Holds) v
      | inr (s, e) ↦ rw (e, Holds) (read_loop-ServerValid env fd rs s srv b e v)
    ]
dispatch_event-ServerValid env stops srv b v = record { limited = v.limited; sessions = v.sessions }

run_batch-ServerValid :
    (env : Env) (es : List Ready) (srv : TcpServer)
    → WritesWithin env
    → ServerValid srv
    → Holds ServerValid (run_batch env es srv)
unfolding run_batch
run_batch-ServerValid env [] srv b v = v
run_batch-ServerValid env (e ∷ es) srv b v =
    Holds-bind ServerValid ServerValid (dispatch_event env e srv) _
      (dispatch_event-ServerValid env e srv b v) λ srv' h. run_batch-ServerValid env es srv' b h

-- Whatever connects, sends and leaves, in any order, the table that a valid one becomes has at most
-- 64 clients, and the session of each is valid, if `write` takes no more than it is given.
pub run-ServerValid :
    (env : Env) (batches : List (List Ready)) (srv : TcpServer)
    → WritesWithin env
    → ServerValid srv
    → Holds ServerValid (run env batches srv)
unfolding run
run-ServerValid env [] srv b v = v
run-ServerValid env (batch ∷ batches) srv b v = elim (Bool-cases srv.running) [
  | inl on ↦
      rw (on, Holds)
        (Holds-bind ServerValid ServerValid (run_batch env batch srv) _
          (run_batch-ServerValid env batch srv b v) λ srv' h. run-ServerValid env batches srv' b h)
  | inr off ↦ rw (off, Holds) v
]
