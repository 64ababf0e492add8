-- ===== src/Server/DoubleClose.antt =====
-- A session that closes its connection stays in the table of `TcpServer`: `handleClientData` reads
-- on, and `removeClient` closes the same number again.
use titan_share.Prelude.{ℕ, ◌≡◌, refl, subst, true, false, none, some, List, [], ◌∷◌, Bytes, arith}
use titan_share.Session.State.{Session, Event, closes, Env, World, Holds, ran}
use titan_share.Session.Machine.{on_data}
use titan_share.Session.Machine.Closing.{last_closed, OpenOrClosing, on_data-OpenOrClosing}
use titan_share.Server.Valid.{find_client-set_client}
use titan_share.Server.{
  TcpServer, Reading, gets, breaks, find_client, set_client, erase_client, destroy, remove_client,
  read_loop, handle_client_data,
}

last_closed_front :
    (t : List Event) (fd : ℕ)
    → last_closed t ≡ some fd
    → (older : List Event) × (t ≡ closes fd ∷ older)
last_closed_front [] fd h = cc
last_closed_front (closes n ∷ t) fd h = (t, ground arith)
last_closed_front (e ∷ t) fd h = cc

find_client-erase_client :
    (fd : ℕ) (cs : List (ℕ × Session)) → find_client fd (erase_client fd cs) ≡ none
unfolding find_client erase_client
find_client-erase_client fd [] = refl
find_client-erase_client fd ((g, t) ∷ cs) = ground (arith, find_client-erase_client fd cs)

-- Where a session without an open file closes its connection over the bytes of a read, and the next
-- read on the descriptor fails, as it does on one that was closed, the server closes the same
-- descriptor a second time, and only then is the client out of the table.
pub handle_client_data-closes_twice :
    (env : Env) (fd : ℕ) (bytes : Bytes) (readings : List Reading) (s s' : Session) (w' : World)
    (srv : TcpServer)
    → find_client fd srv.clients ≡ some s
    → s.fd ≡ fd
    → s.closed ≡ false
    → on_data env bytes s srv.world ≡ ran (s', w')
    → s'.closed ≡ true
    → s'.file_fd ≡ none
    → (older : List Event) × (srv' : TcpServer) × (handle_client_data env fd
          (gets bytes ∷ breaks ∷ readings)
          srv
        ≡ ran srv')
      × (w'.trace ≡ closes fd ∷ older)
      × (srv'.world.trace ≡ closes fd ∷ closes fd ∷ older)
      × (find_client fd srv'.clients ≡ none)
unfolding handle_client_data read_loop remove_client destroy
handle_client_data-closes_twice env fd bytes readings s s' w' srv found same is_open e shut
      no_file =
    let behind : Holds (OpenOrClosing s.fd) (ran (s', w')) =
      subst (Holds (OpenOrClosing s.fd)) e (on_data-OpenOrClosing env bytes s srv.world is_open) in
    let (older, front) = last_closed_front w'.trace fd (ground arith) in
    let clients = set_client fd s' srv.clients in
    (
      older,
      remove_client fd (record srv { clients = clients; world = w' }),
      ground arith,
      front,
      ground (arith, find_client-set_client fd s' srv.clients),
      find_client-erase_client fd clients,
    )
