-- ===== src/Mirror/Threads/Leaks.antt =====
-- No descriptor of the receiver stays open behind a `stop`, in any order of the two threads.
use titan_share.Prelude.{
  ℕ, ◌≤◌, ◌+◌, ◌||◌, not, ◌==◌, ◌≡◌, Bool, true, false, if◌then◌else◌, Option, none, some, List, [],
  ◌∷◌, arith,
}
use titan_share.Mirror.{close_fd}
use titan_share.Mirror.Threads.{
  Shared, WorkerPc, polling, accepting, accepted, building, unbuilt, forgetting_unbuilt, testing,
  reading, cleaning, closing, forgetting, testing_listener, closing_listener, forgetting_listener,
  clearing, ended, StopPc, begun, test_listener, close_listener_fd, forget_listener, test_client,
  close_client_fd, forget_client, joining, cleaning_up, done, Answer, succeeds, connects,
  accept_step, build_step, frame_step, worker_step, join_step, stop_step, System, Turn, worker_turn,
  stop_turn, step, run, started, count,
}

-- The descriptor that the worker still has to close.
abbrev held_fd : WorkerPc → Option ℕ
held_fd (accepted fd) = some fd
held_fd (building fd) = some fd
held_fd (unbuilt fd) = some fd
held_fd (testing fd) = some fd
held_fd (reading fd) = some fd
held_fd (cleaning fd) = some fd
held_fd (closing fd) = some fd
held_fd _ = none

-- Closed by that thread, and not forgotten yet.
abbrev worker_closed : WorkerPc → Bool
worker_closed forgetting_listener = true
worker_closed _ = false

abbrev stop_closed : StopPc → Bool
stop_closed forget_listener = true
stop_closed _ = false

-- The listener, unless a thread has closed it and only has to forget it.
abbrev listener_left : WorkerPc → StopPc → Option ℕ → Option ℕ
listener_left w p l = if worker_closed w || stop_closed p then none else l

abbrev is_fd : ℕ → Option ℕ → ℕ
is_fd fd none = 0
is_fd fd (some k) = if fd == k then 1 else 0

abbrev is_none : Option ℕ → Bool
is_none none = true
is_none (some _) = false

-- A worker that may have set a client.
abbrev has_client : WorkerPc → Bool
has_client (building fd) = true
has_client (unbuilt fd) = true
has_client forgetting_unbuilt = true
has_client (testing fd) = true
has_client (reading fd) = true
has_client (cleaning fd) = true
has_client (closing fd) = true
has_client forgetting = true
has_client w = false

-- A worker in its read loop, which alone has a pipeline.
abbrev has_pipeline : WorkerPc → Bool
has_pipeline (testing fd) = true
has_pipeline (reading fd) = true
has_pipeline (cleaning fd) = true
has_pipeline w = false

abbrev is_ended : WorkerPc → Bool
is_ended ended = true
is_ended w = false

-- `stop` is past the listener, or past the join.
abbrev past_listener : StopPc → Bool
past_listener begun = false
past_listener test_listener = false
past_listener close_listener_fd = false
past_listener forget_listener = false
past_listener p = true

abbrev past_join : StopPc → Bool
past_join cleaning_up = true
past_join done = true
past_join p = false

-- Each opened descriptor was closed, or somebody will close it.
record Inv (fd : ℕ) (m : Shared) (w : WorkerPc) (p : StopPc) : Type 0 where
  owed :
      count fd m.opened
      ≤ count fd m.closed + is_fd fd (held_fd w) + is_fd fd (listener_left w p m.listener_fd)
  idle : (is_none m.client_fd || has_client w) ≡ true
  piped : (not m.pipeline || has_pipeline w) ≡ true
  past : (not (past_listener p) || is_none m.listener_fd) ≡ true
  joined : (not (past_join p) || is_ended w) ≡ true

-- A closed descriptor is in the list.
count-close_fd :
    (fd : ℕ) (o : Option ℕ) (cs : List ℕ) → count fd (close_fd o cs) ≡ count fd cs + is_fd fd o
count-close_fd fd none cs = omega arith
count-close_fd fd (some k) cs = ground arith

worker_step-Inv :
    (fd : ℕ) (a : Answer) (w : WorkerPc) (p : StopPc) (m : Shared)
    → Inv fd m w p
    → Inv fd (worker_step a w m).0 (worker_step a w m).1 p
unfolding worker_step accept_step build_step frame_step
worker_step-Inv fd a polling p m h = ground arith
worker_step-Inv fd (connects k) accepting p m h = ground arith
worker_step-Inv fd a accepting p m h = ground arith
worker_step-Inv fd a (accepted k) p m h = ground arith
worker_step-Inv fd succeeds (building k) p m h = ground arith
worker_step-Inv fd a (building k) p m h = ground arith
worker_step-Inv fd a (unbuilt k) p m h = ground arith
worker_step-Inv fd a forgetting_unbuilt p m h = ground arith
worker_step-Inv fd a (testing k) p m h = ground arith
worker_step-Inv fd succeeds (reading k) p m h = ground arith
worker_step-Inv fd a (reading k) p m h = ground arith
worker_step-Inv fd a (cleaning k) p m h = ground arith
worker_step-Inv fd a (closing k) p m h = ground arith
worker_step-Inv fd a forgetting p m h = ground arith
worker_step-Inv fd a testing_listener p m h = ground arith
worker_step-Inv fd a closing_listener p m h =
    ground (arith, count-close_fd fd m.listener_fd m.closed)
worker_step-Inv fd a forgetting_listener p m h = ground arith
worker_step-Inv fd a clearing p m h = ground arith
worker_step-Inv fd a ended p m h = h

stop_step-Inv :
    (fd : ℕ) (w : WorkerPc) (p : StopPc) (m : Shared)
    → Inv fd m w p
    → Inv fd (stop_step w p m).0 w (stop_step w p m).1
unfolding stop_step join_step
stop_step-Inv fd w begun m h = ground arith
stop_step-Inv fd w test_listener m h = ground arith
stop_step-Inv fd w close_listener_fd m h = ground (arith, count-close_fd fd m.listener_fd m.closed)
stop_step-Inv fd w forget_listener m h = ground arith
stop_step-Inv fd w test_client m h = ground arith
stop_step-Inv fd w close_client_fd m h = ground (arith, count-close_fd fd m.client_fd m.closed)
stop_step-Inv fd w forget_client m h = ground arith
stop_step-Inv fd ended joining m h = ground arith
stop_step-Inv fd w joining m h = ground arith
stop_step-Inv fd w cleaning_up m h = ground arith
stop_step-Inv fd w done m h = h

step-Inv :
    (fd : ℕ) (t : Turn) (s : System)
    → Inv fd s.shared s.worker s.stopper
    → Inv fd (step t s).shared (step t s).worker (step t s).stopper
unfolding step
step-Inv fd (worker_turn a) s h = worker_step-Inv fd a s.worker s.stopper s.shared h
step-Inv fd stop_turn s h = stop_step-Inv fd s.worker s.stopper s.shared h

run-Inv :
    (fd : ℕ) (ts : List Turn) (s : System)
    → Inv fd s.shared s.worker s.stopper
    → Inv fd (run ts s).shared (run ts s).worker (run ts s).stopper
unfolding run
run-Inv fd [] s h = h
run-Inv fd (t ∷ ts) s h = run-Inv fd ts (step t s) (step-Inv fd t s h)

started-Inv : (fd sfd : ℕ) → Inv fd (started sfd).shared (started sfd).worker (started sfd).stopper
unfolding started
started-Inv fd sfd = ground arith

-- What a receiver that has stopped leaves behind.
abbrev pub IsReleased : Shared → Type 0
IsReleased m =
    (m.listener_fd ≡ none)
    × (m.client_fd ≡ none)
    × (m.pipeline ≡ false)
    × ((fd : ℕ) → count fd m.opened ≤ count fd m.closed)

released_part :
    (fd : ℕ) (m : Shared) (w : WorkerPc) (p : StopPc)
    → Inv fd m w p
    → p ≡ done
    → (m.listener_fd ≡ none)
      × (m.client_fd ≡ none)
      × (m.pipeline ≡ false)
      × (count fd m.opened ≤ count fd m.closed)
released_part fd m ended done h e = ground arith
released_part fd m w p h e = ground arith

-- Whatever the order of the two threads and whatever the outside does, once `stop` has returned, no
-- descriptor and no pipeline is left in the receiver, and each descriptor that it opened, the
-- listener and the connection, was closed at least as often.
pub run-IsReleased :
    (sfd : ℕ) (ts : List Turn)
    → (run ts (started sfd)).stopper ≡ done
    → IsReleased (run ts (started sfd)).shared
unfolding started
run-IsReleased sfd ts e =
    let part =
      λ (fd : ℕ). released_part fd _ _ _ (run-Inv fd ts (started sfd) (started-Inv fd sfd)) e in
    ((part 0).0, (part 0).1, (part 0).2, λ fd. (part fd).3)
