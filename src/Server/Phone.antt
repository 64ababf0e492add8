-- ===== src/Server/Phone.antt =====
-- A phone at the server of src/server/tcp_server.cpp, from `accept` to the pointer: one connection
-- whose bytes come in over any number of rounds of the event loop.
use titan_share.Auth.{is_ip_blocked, validate_key}
use titan_share.Config.{max_clients}
use titan_share.Commands.Dispatcher.{Services, Dispatcher}
use titan_share.Commands.Pointer.{
  replay, with_dispatcher, move_text, AreMoves, moved_by, moved_trace, feed_phone,
}
use titan_share.Input.{VirtualInput}
use titan_share.Prelude.{
  ℕ, ◌<◌, ◌≡◌, refl, sym, ap, ◌∙◌, true, false, Option, none, some, List, [], ◌∷◌, ◌++◌, map,
  length, Bytes, codes, contains, all_digits, ℤ, arith,
}
use titan_share.Session.State.{
  Session, new_session, sent, Env, World, Exec, ran, ◌>>=◌, bind_assoc, bind_cong, bind_ran,
}
use titan_share.Session.Buffer.{buf_data}
use titan_share.Session.Machine.{on_data}
use titan_share.Session.Machine.Lines.{stream, join, feed, holding, view}
use titan_share.Session.Machine.Lines.Greeting.{pin_line}
use titan_share.Session.Machine.Lines.Paired.{paired_session, paired_world, AreSmall}
use titan_share.Server.Valid.{find_client-set_client}
use titan_share.Server.{
  TcpServer, Reading, gets, would_block, Ready, incoming, readable, find_client, set_client,
  accept_connection, destroy, read_loop, handle_client_data, dispatch_event, run_batch, run,
}

-- What one round reads: some pieces, and then nothing for now.
abbrev pub readings : List Bytes → List Reading
readings cs = map gets cs ++ would_block ∷ []

-- The pieces of some rounds, one after the other.
abbrev pub pieces : List (List Bytes) → List Bytes
pieces [] = []
pieces (cs ∷ css) = cs ++ pieces css

abbrev pub rounds : ℕ → List (List Bytes) → List (List Ready)
rounds fd [] = []
rounds fd (cs ∷ css) = (readable fd (readings cs) ∷ []) ∷ rounds fd css

-- The phone connects, and then sends.
abbrev pub visit : ℕ → Bytes → List (List Bytes) → List (List Ready)
visit fd ip css = (incoming (some (fd, ip)) ∷ []) ∷ rounds fd css

feed-append :
    (env : Env) (cs ds : List Bytes) (s : Session) (w : World)
    → feed env (cs ++ ds) s w ≡ (feed env cs s w >>= λ p. feed env ds p.0 p.1)
unfolding feed
feed-append env [] ds s w = refl
feed-append env (c ∷ cs) ds s w =
    bind_cong (on_data env c s w) _ _ (λ p. feed-append env cs ds p.0 p.1)
    ∙ sym (bind_assoc (on_data env c s w) _ _)

set_client-set_client :
    (fd : ℕ) (s t : Session) (cs : List (ℕ × Session))
    → set_client fd t (set_client fd s cs) ≡ set_client fd t cs
unfolding set_client
set_client-set_client fd s t [] = ground arith
set_client-set_client fd s t ((g, u) ∷ cs) = ground (arith, set_client-set_client fd s t cs)

-- A server that runs and has the session under the descriptor.
abbrev serving : ℕ → TcpServer → Session × World → TcpServer
serving fd srv (s, w) = record srv {
  clients = set_client fd s srv.clients;
  running = true;
  world = w;
}

handle_found :
    (env : Env) (fd : ℕ) (rs : List Reading) (s : Session) (srv : TcpServer)
    → find_client fd srv.clients ≡ some s
    → handle_client_data env fd rs srv ≡ read_loop env fd rs s srv
unfolding handle_client_data
handle_found env fd rs s srv e = ground arith

module _ (env : Env) (fd : ℕ) (srv : TcpServer) where
  read_loop-feed :
      (cs : List Bytes) (s : Session) (w : World)
      → read_loop env fd (readings cs) s (serving fd srv (s, w))
        ≡ (feed env cs s w >>= λ p. ran (serving fd srv p))
  unfolding read_loop feed
  read_loop-feed [] s w = refl
  read_loop-feed (c ∷ cs) s w =
      bind_cong (on_data env c s w) _ _ (λ p.
        ap
          (λ clients.
            read_loop env fd (readings cs) p.0
              (record srv { clients = clients; running = true; world = p.1 }))
          (set_client-set_client fd s p.0 srv.clients)
        ∙ read_loop-feed cs p.0 p.1)
      ∙ sym (bind_assoc (on_data env c s w) _ _)

  round-feed :
      (cs : List Bytes) (s : Session) (w : World)
      → run_batch env (readable fd (readings cs) ∷ []) (serving fd srv (s, w))
        ≡ (feed env cs s w >>= λ p. ran (serving fd srv p))
  unfolding run_batch dispatch_event
  round-feed cs s w =
      bind_ran (handle_client_data env fd (readings cs) (serving fd srv (s, w)))
      ∙ handle_found env fd (readings cs) s (serving fd srv (s, w))
          (find_client-set_client fd s srv.clients)
      ∙ read_loop-feed cs s w

  rounds-feed :
      (css : List (List Bytes)) (s : Session) (w : World)
      → run env (rounds fd css) (serving fd srv (s, w))
        ≡ (feed env (pieces css) s w >>= λ p. ran (serving fd srv p))
  unfolding run feed
  rounds-feed [] s w = refl
  rounds-feed (cs ∷ css) s w =
      ap (λ m. m >>= λ srv'. run env (rounds fd css) srv') (round-feed cs s w)
      ∙ bind_assoc (feed env cs s w) _ _
      ∙ bind_cong (feed env cs s w) _ _ (λ p. rounds-feed css p.0 p.1)
      ∙ sym (bind_assoc (feed env cs s w) _ _)
      ∙ ap (λ m. m >>= λ (p : Session × World). ran (serving fd srv p))
          (sym (feed-append env cs (pieces css) s w))

accepts_phone :
    (fd : ℕ) (ip : Bytes) (srv : TcpServer)
    → srv.running ≡ true
    → length srv.clients < max_clients
    → find_client fd srv.clients ≡ none
    → accept_connection (some (fd, ip)) srv
      ≡ serving fd (record srv { watched = fd ∷ srv.watched }) (new_session fd ip, srv.world)
unfolding accept_connection destroy
accepts_phone fd ip srv up room fresh = ground arith

visit-feed :
    (env : Env) (fd : ℕ) (ip : Bytes) (css : List (List Bytes)) (srv : TcpServer)
    → srv.running ≡ true
    → length srv.clients < max_clients
    → find_client fd srv.clients ≡ none
    → run env (visit fd ip css) srv ≡ (
        feed env (pieces css) (new_session fd ip) srv.world >>= λ p.
        ran (serving fd (record srv { watched = fd ∷ srv.watched }) p))
unfolding run run_batch dispatch_event
visit-feed env fd ip css srv up room fresh =
    rw (up, run)
      (ap (run env (rounds fd css)) (accepts_phone fd ip srv up room fresh)
        ∙ rounds-feed env fd (record srv { watched = fd ∷ srv.watched }) css (new_session fd ip)
            srv.world)

-- What is seen of the phone's session, and the world.
abbrev pub observe : ℕ → TcpServer → Option Session × World
observe fd srv = elim (find_client fd srv.clients) [
  | none ↦ (none, srv.world)
  | some s ↦ (some (holding (buf_data s) s), srv.world)
]

observe-serving :
    (fd : ℕ) (srv : TcpServer) (p : Session × World)
    → observe fd (serving fd srv p) ≡ (some (holding (buf_data p.0) p.0), p.1)
observe-serving fd srv p = ground (arith, find_client-set_client fd p.0 srv.clients)

-- A phone connects to a running server that has room, under a descriptor that is not in use, from an
-- address that is not banned, and the input devices are open. In any number of rounds of the event
-- loop its connection hands over a line with a PIN of digits that is in the window, then movements,
-- one to a line, cut up into pieces of which each stays, together with the line of the PIN, within
-- the limit before AUTH_OK. Then the run returns; AUTH_OK was sent and nothing else; the kernel was
-- told to move the pointer by just these numbers, first along x and then along y, in their order and
-- once each, with all else of the dispatcher as it was; and the phone's session is paired and waits
-- for the rest of a line.
pub run-visit :
    (sv : Services) (d : Dispatcher) (env : Env) (v : VirtualInput) (fd : ℕ) (ip pin : Bytes)
    (ms : List (ℤ × ℤ)) (css : List (List Bytes)) (tail : Bytes) (srv : TcpServer)
    → srv.running ≡ true
    → length srv.clients < max_clients
    → find_client fd srv.clients ≡ none
    → (is_ip_blocked srv.world.manager ip (env.now srv.world.trace)).0 ≡ false
    → validate_key srv.world.manager pin ≡ true
    → all_digits pin ≡ true
    → 0 < length pin
    → contains tail b'\n' ≡ false
    → AreSmall (length (pin_line pin)) (pieces css)
    → join (pieces css) ≡ pin_line pin ++ b'\n' ∷ stream (map move_text ms) tail
    → v.initialized ≡ true
    → (replay sv d srv.world.trace).input ≡ some v
    → AreMoves ms
    → let env' = with_dispatcher sv d env in
      let done = moved_trace ms (sent (codes "AUTH_OK\n") ∷ srv.world.trace) in
      let before = replay sv d srv.world.trace in
      ((run env' (visit fd ip css) srv >>= λ srv'. ran (observe fd srv'))
        ≡ ran (
          some (holding tail (paired_session fd ip pin)),
          record (paired_world env' ip srv.world) { trace = done },
        ))
      × (replay sv d done ≡ record before { emitted = moved_by ms before.emitted })
run-visit sv d env v fd ip pin ms css tail srv up room fresh free valid digits some_digit ht small e
      on i moves =
    let env' = with_dispatcher sv d env in
    let fed = feed env' (pieces css) (new_session fd ip) srv.world in
    let seen : Session × World → Exec (Option Session × World) = λ q. ran (some q.0, q.1) in
    let phone =
      feed_phone sv d env v fd ip pin ms (pieces css) tail srv.world free valid digits some_digit ht
        small e on i moves in
    (
      ap (λ m. m >>= λ srv'. ran (observe fd srv')) (visit-feed env' fd ip css srv up room fresh)
          ∙ bind_assoc fed _ _
          ∙ bind_cong fed _ _
              (λ p. ap ran (observe-serving fd (record srv { watched = fd ∷ srv.watched }) p))
          ∙ sym (bind_assoc fed view seen)
          ∙ ap (λ m. m >>= seen) phone.0,
      phone.1,
    )
