-- ===== src/Mirror/Threads.antt =====
-- src/mirror/mirror_receiver.cpp: `stop` while the worker of `start` runs. One step is one access to
-- what the two threads share, in any order of the two; a frame is one step.
pub mod Leaks
pub mod Ending
use titan_share.Prelude.{
  ℕ, zero, suc, ◌==◌, ◌≡◌, Bool, true, false, if◌then◌else◌, Option, none, some, List, [], ◌∷◌,
}
use titan_share.Mirror.{close_fd}

-- What the threads share: the two descriptors, `m_running`, whether there is a pipeline, and every
-- descriptor that `socket` or `accept` opened and that was closed so far, newest first.
pub record Shared : Type 0 where
  pub listener_fd : Option ℕ
  pub client_fd : Option ℕ
  pub running : Bool
  pub pipeline : Bool
  pub opened : List ℕ
  pub closed : List ℕ

-- Where the worker stands; the number is its local `cfd`.
pub data WorkerPc : Type 0 where
  -- The test of the accept loop, its `poll` and `accept`, and a `cfd` that is not stored yet.
  polling accepting : WorkerPc
  accepted : ℕ → WorkerPc
  -- TLS and `buildPipeline`, and the two steps after it failed.
  building unbuilt : ℕ → WorkerPc
  forgetting_unbuilt : WorkerPc
  -- The test of the read loop, and a frame.
  testing reading : ℕ → WorkerPc
  -- The end of the worker, behind the loop.
  cleaning closing : ℕ → WorkerPc
  forgetting testing_listener closing_listener forgetting_listener clearing ended : WorkerPc

-- Where `stop` stands.
pub data StopPc : Type 0 where
  begun test_listener close_listener_fd forget_listener : StopPc
  test_client close_client_fd forget_client joining cleaning_up done : StopPc

-- What the outside does in one step of the worker: `poll` and `accept`, `buildPipeline`, and
-- `readExact` with the push.
pub data Answer : Type 0 where
  retry fails succeeds : Answer
  connects : ℕ → Answer

unfoldable pub accept_step : Answer → Shared → Shared × WorkerPc
accept_step (connects fd) m = (record m { opened = fd ∷ m.opened }, accepted fd)
accept_step fails m = (m, clearing)
accept_step _ m = (m, polling)

unfoldable pub build_step : Answer → ℕ → Shared → Shared × WorkerPc
build_step succeeds cfd m = (record m { pipeline = true }, testing cfd)
build_step _ cfd m = (m, unbuilt cfd)

unfoldable pub frame_step : Answer → ℕ → WorkerPc
frame_step succeeds cfd = testing cfd
frame_step _ cfd = cleaning cfd

-- One step of the worker.
unfoldable pub worker_step : Answer → WorkerPc → Shared → Shared × WorkerPc
worker_step a polling m = (m, if m.running then accepting else clearing)
worker_step a accepting m = accept_step a m
worker_step a (accepted cfd) m = (record m { client_fd = some cfd }, building cfd)
worker_step a (building cfd) m = build_step a cfd m
worker_step a (unbuilt cfd) m = (record m { closed = cfd ∷ m.closed }, forgetting_unbuilt)
worker_step a forgetting_unbuilt m = (record m { client_fd = none }, clearing)
worker_step a (testing cfd) m = (m, if m.running then reading cfd else cleaning cfd)
worker_step a (reading cfd) m = (m, frame_step a cfd)
worker_step a (cleaning cfd) m = (record m { pipeline = false }, closing cfd)
worker_step a (closing cfd) m = (record m { closed = cfd ∷ m.closed }, forgetting)
worker_step a forgetting m = (record m { client_fd = none }, testing_listener)
worker_step a testing_listener m =
    (m, elim m.listener_fd [ none ↦ clearing | some _ ↦ closing_listener ])
worker_step a closing_listener m =
    (record m { closed = close_fd m.listener_fd m.closed }, forgetting_listener)
worker_step a forgetting_listener m = (record m { listener_fd = none }, clearing)
worker_step a clearing m = (record m { running = false }, ended)
worker_step a ended m = (m, ended)

-- The join waits for the end of the worker.
unfoldable pub join_step : WorkerPc → StopPc
join_step ended = cleaning_up
join_step _ = joining

-- One step of `stop`.
unfoldable pub stop_step : WorkerPc → StopPc → Shared → Shared × StopPc
stop_step w begun m = (record m { running = false }, test_listener)
stop_step w test_listener m =
    (m, elim m.listener_fd [ none ↦ test_client | some _ ↦ close_listener_fd ])
stop_step w close_listener_fd m =
    (record m { closed = close_fd m.listener_fd m.closed }, forget_listener)
stop_step w forget_listener m = (record m { listener_fd = none }, test_client)
stop_step w test_client m = (m, elim m.client_fd [ none ↦ joining | some _ ↦ close_client_fd ])
stop_step w close_client_fd m = (record m { closed = close_fd m.client_fd m.closed }, forget_client)
stop_step w forget_client m = (record m { client_fd = none }, joining)
stop_step w joining m = (m, join_step w)
stop_step w cleaning_up m = (record m { pipeline = false }, done)
stop_step w done m = (m, done)

pub record System : Type 0 where
  pub shared : Shared
  pub worker : WorkerPc
  pub stopper : StopPc

-- Whose turn it is.
pub data Turn : Type 0 where
  worker_turn : Answer → Turn
  stop_turn : Turn

unfoldable pub step : Turn → System → System
step (worker_turn a) s =
    let (m, w) = worker_step a s.worker s.shared in record s { shared = m; worker = w }
step stop_turn s =
    let (m, p) = stop_step s.worker s.stopper s.shared in record s { shared = m; stopper = p }

unfoldable pub run : List Turn → System → System
run [] s = s
run (t ∷ ts) s = run ts (step t s)

-- What `start` leaves behind a listener that it has opened, and a `stop` that comes in.
unfoldable pub started : ℕ → System
started sfd = record {
  shared = record {
    listener_fd = some sfd;
    client_fd = none;
    running = true;
    pipeline = false;
    opened = sfd ∷ [];
    closed = [];
  };
  worker = polling;
  stopper = begun;
}

-- How often a descriptor was closed.
abbrev pub count : ℕ → List ℕ → ℕ
count fd [] = 0
count fd (c ∷ cs) = if fd == c then suc (count fd cs) else count fd cs
