-- ===== src/Server/Isolation.antt =====
-- What the events on other descriptors do to a client.
use titan_share.Prelude.{
  ℕ, ◌==◌, ◌≡◌, refl, ◌∙◌, Bool, false, ◌||◌, Option, none, some, List, [], ◌∷◌, Bytes, arith,
  Bool-cases, Option-cases, inl, inr,
}
use titan_share.Session.State.{
  Session, Env, World, Exec, ran, threw, starved, Holds, Holds-bind, new_session,
}
use titan_share.Session.Machine.{on_data}
use titan_share.Server.{
  TcpServer, find_client, set_client, erase_client, remove_client, accept_connection, Reading, gets,
  ends, would_block, breaks, read_loop, handle_client_data, Ready, incoming, hangs_up, readable,
  stops, dispatch_event, run_batch, run,
}

-- Whether an event is one of this descriptor.
abbrev concerns : ℕ → Ready → Bool
concerns fd (incoming none) = false
concerns fd (incoming (some (g, host))) = g == fd
concerns fd (hangs_up g) = g == fd
concerns fd (readable g rs) = g == fd
concerns fd stops = false

abbrev concerned : ℕ → List Ready → Bool
concerned fd [] = false
concerned fd (e ∷ es) = concerns fd e || concerned fd es

abbrev pub ever_concerned : ℕ → List (List Ready) → Bool
ever_concerned fd [] = false
ever_concerned fd (batch ∷ batches) = concerned fd batch || ever_concerned fd batches

-- The client under a descriptor is this one, or there is none.
abbrev pub HasClient : ℕ → Option Session → TcpServer → Type 0
HasClient fd c srv = find_client fd srv.clients ≡ c

find_client-set_client_other :
    (fd g : ℕ) (s : Session) (cs : List (ℕ × Session))
    → g == fd ≡ false
    → find_client fd (set_client g s cs) ≡ find_client fd cs
unfolding find_client set_client
find_client-set_client_other fd g s [] h = ground arith
find_client-set_client_other fd g s ((i, t) ∷ cs) h =
    ground (arith, find_client-set_client_other fd g s cs)

find_client-erase_client_other :
    (fd g : ℕ) (cs : List (ℕ × Session))
    → g == fd ≡ false
    → find_client fd (erase_client g cs) ≡ find_client fd cs
unfolding find_client erase_client
find_client-erase_client_other fd g [] h = refl
find_client-erase_client_other fd g ((i, t) ∷ cs) h =
    ground (arith, find_client-erase_client_other fd g cs)

remove_client-HasClient :
    (fd g : ℕ) (c : Option Session) (srv : TcpServer)
    → g == fd ≡ false
    → HasClient fd c srv
    → HasClient fd c (remove_client g srv)
unfolding remove_client
remove_client-HasClient fd g c srv h e = find_client-erase_client_other fd g srv.clients h ∙ e

accept_connection-HasClient :
    (fd g : ℕ) (host : Bytes) (c : Option Session) (srv : TcpServer)
    → g == fd ≡ false
    → HasClient fd c srv
    → HasClient fd c (accept_connection (some (g, host)) srv)
unfolding accept_connection
accept_connection-HasClient fd g host c srv h e =
    ground (arith, find_client-set_client_other fd g (new_session g host) srv.clients h)

-- What the session of another client does is left open.
abbrev Whatever : Session × World → Type 0
Whatever q = Unit

Holds-Whatever : (m : Exec (Session × World)) → Holds Whatever m
Holds-Whatever (ran q) = tt
Holds-Whatever threw = tt
Holds-Whatever starved = tt

read_loop-HasClient :
    (env : Env) (fd g : ℕ) (c : Option Session) (rs : List Reading) (s : Session) (srv : TcpServer)
    → g == fd ≡ false
    → HasClient fd c srv
    → Holds (HasClient fd c) (read_loop env g rs s srv)
unfolding read_loop
read_loop-HasClient env fd g c [] s srv h e = e
read_loop-HasClient env fd g c (gets bytes ∷ rs) s srv h e =
    Holds-bind Whatever (HasClient fd c) (on_data env bytes s srv.world) _
      (Holds-Whatever (on_data env bytes s srv.world))
      λ q u.
        read_loop-HasClient env fd g c rs q.0 _ h
          (find_client-set_client_other fd g q.0 srv.clients h ∙ e)
read_loop-HasClient env fd g c (ends ∷ rs) s srv h e = remove_client-HasClient fd g c srv h e
read_loop-HasClient env fd g c (would_block ∷ rs) s srv h e = e
read_loop-HasClient env fd g c (breaks ∷ rs) s srv h e = remove_client-HasClient fd g c srv h e

dispatch_event-HasClient :
    (env : Env) (fd : ℕ) (c : Option Session) (e : Ready) (srv : TcpServer)
    → concerns fd e ≡ false
    → HasClient fd c srv
    → Holds (HasClient fd c) (dispatch_event env e srv)
unfolding dispatch_event handle_client_data accept_connection
dispatch_event-HasClient env fd c (incoming none) srv h k = k
dispatch_event-HasClient env fd c (incoming (some (g, host))) srv h k =
    accept_connection-HasClient fd g host c srv h k
dispatch_event-HasClient env fd c (hangs_up g) srv h k = remove_client-HasClient fd g c srv h k
dispatch_event-HasClient env fd c (readable g rs) srv h k =
    elim (Option-cases (find_client g srv.clients)) [
      | inl missing ↦ rw (missing, Holds) k
      | inr (s, found) ↦ rw (found, Holds) (read_loop-HasClient env fd g c rs s srv h k)
    ]
dispatch_event-HasClient env fd c stops srv h k = k

neither : (a b : Bool) → a || b ≡ false → (a ≡ false) × (b ≡ false)
neither a b h = ground arith

run_batch-HasClient :
    (env : Env) (fd : ℕ) (c : Option Session) (es : List Ready) (srv : TcpServer)
    → concerned fd es ≡ false
    → HasClient fd c srv
    → Holds (HasClient fd c) (run_batch env es srv)
unfolding run_batch
run_batch-HasClient env fd c [] srv h k = k
run_batch-HasClient env fd c (e ∷ es) srv h k =
    let both = neither (concerns fd e) (concerned fd es) h in
    Holds-bind (HasClient fd c) (HasClient fd c) (dispatch_event env e srv) _
      (dispatch_event-HasClient env fd c e srv both.0 k)
      λ srv' k'. run_batch-HasClient env fd c es srv' both.1 k'

-- Whatever other clients send, in whatever order they connect and leave, and whatever that makes
-- their sessions do: as long as no event is reported for a descriptor, the client under it, or that
-- there is none, stays as it is, as long as the server runs.
pub run-HasClient :
    (env : Env) (fd : ℕ) (c : Option Session) (batches : List (List Ready)) (srv : TcpServer)
    → ever_concerned fd batches ≡ false
    → HasClient fd c srv
    → Holds (HasClient fd c) (run env batches srv)
unfolding run
run-HasClient env fd c [] srv h k = k
run-HasClient env fd c (batch ∷ batches) srv h k = elim (Bool-cases srv.running) [
  | inl on ↦
      let both = neither (concerned fd batch) (ever_concerned fd batches) h in
      rw (on, Holds)
        (Holds-bind (HasClient fd c) (HasClient fd c) (run_batch env batch srv) _
          (run_batch-HasClient env fd c batch srv both.0 k)
          λ srv' k'. run-HasClient env fd c batches srv' both.1 k')
  | inr off ↦ rw (off, Holds) k
]
