-- ===== src/Server/Listener.antt =====
-- The part of `TcpServer::run` before its loop, and the destructor. What the kernel answers is an
-- argument; the options of the socket are left out.
use Prim.Native.Nat.{bit_or}
use titan_share.Prelude.{
  ◌≡◌, Bool, true, false, if◌then◌else◌, Option, none, some, List, [], ◌∷◌, ◌++◌, ℕ, arith,
}

pub record Listener : Type 0 where
  pub server_fd : Option ℕ
  pub epoll_fd : Option ℕ
  pub running : Bool

-- The constructor.
abbrev pub idle : Listener
idle = record { server_fd = none; epoll_fd = none; running = false }

-- `socket`, `bind`, `listen` and `epoll_create1`.
pub record Answers : Type 0 where
  pub socket : Option ℕ
  pub binds : Bool
  pub listens : Bool
  pub epoll : Option ℕ

-- A failure returns, with what was opened before it.
unfoldable pub set_up : Answers → Listener → Listener
set_up a l = elim a.socket [
  | none ↦ record l { server_fd = none }
  | some fd ↦
      if a.binds
      then if a.listens
        then elim a.epoll [
          | none ↦ record l { server_fd = some fd; epoll_fd = none }
          | some ep ↦ record { server_fd = some fd; epoll_fd = some ep; running = true }
        ]
        else record l { server_fd = some fd }
      else record l { server_fd = some fd }
]

-- `setNonBlocking`, on the flags that `fcntl` gives and what it makes of the new ones; `none` is -1.
-- No caller looks at the result.
unfoldable pub set_non_blocking : Option ℕ → (ℕ → Option ℕ) → Option ℕ
set_non_blocking none set_flags = none
set_non_blocking (some flags) set_flags = set_flags (bit_or flags 2048)

abbrev closed : Option ℕ → List ℕ
closed none = []
closed (some fd) = fd ∷ []

-- The destructor, with the descriptors that it closes.
unfoldable pub tear_down : Listener → List ℕ
tear_down l = closed l.server_fd ++ closed l.epoll_fd

-- What the kernel handed out, up to the first failure.
abbrev pub handed_out : Answers → List ℕ
handed_out a = elim a.socket [
  | none ↦ []
  | some fd ↦ fd ∷ (if a.binds then if a.listens then closed a.epoll else [] else [])
]

-- Whichever call fails, or none, the destructor closes each descriptor that was opened once, and the
-- server is marked as running exactly if all four calls succeed.
pub tear_down-set_up :
    (a : Answers)
    → (tear_down (set_up a idle) ≡ handed_out a)
      × ((set_up a idle).running ≡ (elim a.socket [
        | none ↦ false
        | some fd ↦
            if a.binds
            then if a.listens then elim a.epoll [ none ↦ false | some ep ↦ true ] else false
            else false
      ]))
unfolding set_up tear_down
tear_down-set_up a = ground arith
