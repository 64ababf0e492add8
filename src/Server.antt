-- ===== src/Server.antt =====
-- src/server/tcp_server.cpp: the table of clients and the event loop. The kernel's answers
-- (`epoll_wait`, `accept`, `recv`) are arguments; a run of the loop is a list of events. A connection
-- with TLS and one without behave alike here.
pub mod Valid
pub mod Isolation
pub mod Admission
pub mod Listener
pub mod DoubleClose
pub mod Phone
mod Tests
use titan_share.Config.{max_clients}
use titan_share.Prelude.{
  ℕ, suc, ◌+◌, leb, ◌==◌, Bool, true, false, not, if◌then◌else◌, Option, none, some, List, [], ◌∷◌,
  length, Bytes,
}
use titan_share.Session.State.{
  Session, Event, closes, Env, World, note, Exec, ran, threw, starved, ◌>>=◌, new_session,
}
use titan_share.Session.Machine.{on_data}

-- `m_clients`, by descriptor, and the descriptors that epoll watches.
pub record TcpServer : Type 0 where
  pub clients : List (ℕ × Session)
  pub watched : List ℕ
  pub running : Bool
  pub world : World

unfoldable pub find_client : ℕ → List (ℕ × Session) → Option Session
find_client fd [] = none
find_client fd ((g, s) ∷ cs) = if g == fd then some s else find_client fd cs

-- `m_clients[fd] = ...`.
unfoldable pub set_client : ℕ → Session → List (ℕ × Session) → List (ℕ × Session)
set_client fd s [] = (fd, s) ∷ []
set_client fd s ((g, t) ∷ cs) = if g == fd then (fd, s) ∷ cs else (g, t) ∷ set_client fd s cs

unfoldable pub erase_client : ℕ → List (ℕ × Session) → List (ℕ × Session)
erase_client fd [] = []
erase_client fd ((g, s) ∷ cs) =
    let rest = erase_client fd cs in if g == fd then rest else (g, s) ∷ rest

unwatch : ℕ → List ℕ → List ℕ
unwatch fd [] = []
unwatch fd (g ∷ gs) = let rest = unwatch fd gs in if g == fd then rest else g ∷ rest

-- The destructor of the session closes a file that is still open.
unfoldable pub destroy : Option Session → World → World
destroy none w = w
destroy (some s) w = elim s.file_fd [ none ↦ w | some fd ↦ note (closes fd) w ]

-- The descriptor is closed whether or not it is in the table.
unfoldable pub remove_client : ℕ → TcpServer → TcpServer
unfolding unwatch
remove_client fd srv = record srv {
  clients = erase_client fd srv.clients;
  watched = unwatch fd srv.watched;
  world = note (closes fd) (destroy (find_client fd srv.clients) srv.world);
}

-- A session that the table still holds under the descriptor is replaced, and so destroyed. `accept`
-- gave a descriptor and `getnameinfo` an address; `none` is a failed `accept`.
unfoldable pub accept_connection : Option (ℕ × Bytes) → TcpServer → TcpServer
accept_connection none srv = srv
accept_connection (some (fd, host)) srv =
    if leb max_clients (length srv.clients)
    then record srv { world = note (closes fd) srv.world }
    else record srv {
      clients = set_client fd (new_session fd host) srv.clients;
      watched = fd ∷ srv.watched;
      world = destroy (find_client fd srv.clients) srv.world;
    }

-- One `recv` or `SSL_read`: some bytes, the end of the stream, nothing for now, or an error.
pub data Reading : Type 0 where
  gets : Bytes → Reading
  ends would_block breaks : Reading

-- `handleClientData` reads until a read gives no bytes; the session sees each piece at once.
unfoldable pub read_loop : Env → ℕ → List Reading → Session → TcpServer → Exec TcpServer
read_loop env fd [] s srv = ran srv
read_loop env fd (gets bytes ∷ rest) s srv = on_data env bytes s srv.world >>= λ (s', w').
    read_loop env fd rest s' (record srv { clients = set_client fd s' srv.clients; world = w' })
read_loop env fd (ends ∷ rest) s srv = ran (remove_client fd srv)
read_loop env fd (would_block ∷ rest) s srv = ran srv
read_loop env fd (breaks ∷ rest) s srv = ran (remove_client fd srv)

unfoldable pub handle_client_data : Env → ℕ → List Reading → TcpServer → Exec TcpServer
handle_client_data env fd readings srv = elim (find_client fd srv.clients) [
  | none ↦ ran srv
  | some s ↦ read_loop env fd readings s srv
]

-- What `epoll_wait` reports, with what the calls made for it will give; `stops` is the signal.
pub data Ready : Type 0 where
  incoming : Option (ℕ × Bytes) → Ready
  hangs_up : ℕ → Ready
  readable : ℕ → List Reading → Ready
  stops : Ready

unfoldable pub dispatch_event : Env → Ready → TcpServer → Exec TcpServer
dispatch_event env (incoming accepted) srv = ran (accept_connection accepted srv)
dispatch_event env (hangs_up fd) srv = ran (remove_client fd srv)
dispatch_event env (readable fd readings) srv = handle_client_data env fd readings srv
dispatch_event env stops srv = ran (record srv { running = false })

-- The `for` loop over what one `epoll_wait` reports.
unfoldable pub run_batch : Env → List Ready → TcpServer → Exec TcpServer
run_batch env [] srv = ran srv
run_batch env (e ∷ es) srv = dispatch_event env e srv >>= λ srv'. run_batch env es srv'

-- The event loop over everything that happens; it ends once `m_running` is cleared.
unfoldable pub run : Env → List (List Ready) → TcpServer → Exec TcpServer
run env [] srv = ran srv
run env (batch ∷ batches) srv = elim srv.running [
  | false ↦ ran srv
  | true ↦ run_batch env batch srv >>= λ srv'. run env batches srv'
]
