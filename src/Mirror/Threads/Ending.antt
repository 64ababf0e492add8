-- ===== src/Mirror/Threads/Ending.antt =====
-- A worker whose receiver was stopped comes to its end, and with it `stop`.
use titan_share.Prelude.{
  ℕ, suc, ◌+◌, ◌-◌, ◌≤◌, ◌≡◌, ◌≢◌, sym, subst, refl, false, some, List, [], ◌∷◌, arith,
}
use titan_share.Mirror.Threads.{
  Shared, WorkerPc, polling, accepting, accepted, building, unbuilt, forgetting_unbuilt, testing,
  reading, cleaning, closing, forgetting, testing_listener, closing_listener, forgetting_listener,
  clearing, ended, StopPc, begun, test_listener, close_listener_fd, forget_listener, test_client,
  close_client_fd, forget_client, joining, cleaning_up, done, Answer, fails, succeeds, connects,
  accept_step, build_step, frame_step, worker_step, join_step, stop_step, System, Turn, worker_turn,
  stop_turn, step, run, count,
}

-- How many steps a worker has left once `m_running` is clear, at most.
abbrev worker_rank : WorkerPc → ℕ
worker_rank accepting = 13
worker_rank (accepted fd) = 12
worker_rank (building fd) = 11
worker_rank (reading fd) = 10
worker_rank (testing fd) = 9
worker_rank (cleaning fd) = 8
worker_rank (closing fd) = 7
worker_rank forgetting = 6
worker_rank testing_listener = 5
worker_rank closing_listener = 4
worker_rank forgetting_listener = 3
worker_rank (unbuilt fd) = 3
worker_rank forgetting_unbuilt = 2
worker_rank polling = 2
worker_rank clearing = 1
worker_rank ended = 0

-- How many steps `stop` has left, at most, those of the waiting join not counted.
abbrev stop_rank : StopPc → ℕ
stop_rank begun = 9
stop_rank test_listener = 8
stop_rank close_listener_fd = 7
stop_rank forget_listener = 6
stop_rank test_client = 5
stop_rank close_client_fd = 4
stop_rank forget_client = 3
stop_rank joining = 2
stop_rank cleaning_up = 1
stop_rank done = 0

abbrev worker_turns : List Turn → ℕ
worker_turns [] = 0
worker_turns (worker_turn a ∷ ts) = suc (worker_turns ts)
worker_turns (stop_turn ∷ ts) = worker_turns ts

abbrev stop_turns : List Turn → ℕ
stop_turns [] = 0
stop_turns (worker_turn a ∷ ts) = stop_turns ts
stop_turns (stop_turn ∷ ts) = suc (stop_turns ts)

worker_step_falls :
    (a : Answer) (w : WorkerPc) (m : Shared)
    → m.running ≡ false
    → ((worker_step a w m).0.running ≡ false)
      × (worker_rank (worker_step a w m).1 ≤ worker_rank w - 1)
unfolding worker_step accept_step build_step frame_step
worker_step_falls (connects fd) accepting m h = ground arith
worker_step_falls fails accepting m h = ground arith
worker_step_falls succeeds (building cfd) m h = ground arith
worker_step_falls succeeds (reading cfd) m h = ground arith
worker_step_falls a w m h = ground arith

-- `stop` goes on, except that it waits for a worker that still runs.
stop_step_falls :
    (w : WorkerPc) (p : StopPc) (m : Shared)
    → m.running ≡ false
    → ((stop_step w p m).0.running ≡ false) × (stop_rank (stop_step w p m).1 ≤ stop_rank p)
unfolding stop_step join_step
stop_step_falls ended joining m h = ground arith
stop_step_falls w joining m h = ground arith
stop_step_falls w p m h = ground arith

stop_step_joins : (p : StopPc) (m : Shared) → stop_rank (stop_step ended p m).1 ≤ stop_rank p - 1
unfolding stop_step join_step
stop_step_joins joining m = ground arith
stop_step_joins p m = ground arith

run_worker :
    (ts : List Turn) (s : System)
    → s.shared.running ≡ false
    → ((run ts s).shared.running ≡ false)
      × (worker_rank (run ts s).worker ≤ worker_rank s.worker - worker_turns ts)
unfolding run step
run_worker [] s h = ground arith
run_worker (worker_turn a ∷ ts) s h =
    let (stopped, falls) = worker_step_falls a s.worker s.shared h in
    let (later, rest) = run_worker ts (step (worker_turn a) s) stopped in
    (later, omega (arith, falls, rest))
run_worker (stop_turn ∷ ts) s h =
    run_worker ts (step stop_turn s) (stop_step_falls s.worker s.stopper s.shared h).0

run_stopper :
    (ts : List Turn) (s : System)
    → s.worker ≡ ended
    → stop_rank (run ts s).stopper ≤ stop_rank s.stopper - stop_turns ts
unfolding run step worker_step
run_stopper [] s h = ground arith
run_stopper (worker_turn a ∷ ts) s h =
    omega (arith, run_stopper ts (step (worker_turn a) s) (rw (h, worker_step)))
run_stopper (stop_turn ∷ ts) s h = omega (
  arith,
  subst (λ w. stop_rank (stop_step w s.stopper s.shared).1 ≤ stop_rank s.stopper - 1) (sym h)
      (stop_step_joins s.stopper s.shared),
  run_stopper ts (step stop_turn s) h,
)

rank_ended : (w : WorkerPc) → worker_rank w ≤ 0 → w ≡ ended
rank_ended ended h = refl
rank_ended w h = absurd (omega arith)

rank_done : (p : StopPc) → stop_rank p ≤ 0 → p ≡ done
rank_done done h = refl
rank_done p h = absurd (omega arith)

worker_rank-le : (w : WorkerPc) → worker_rank w ≤ 13
worker_rank-le w = ground arith

stop_rank-le : (p : StopPc) → stop_rank p ≤ 9
stop_rank-le p = ground arith

-- Wherever the worker stands when `stop` is called, it is at its end after 13 steps of its own, and
-- then `stop` returns after nine steps of its own, if each `poll`, `accept`, handshake, pipeline and
-- frame of the worker comes to an end; in any order with the steps of `stop` before, and whatever
-- the worker's calls give.
pub run-done :
    (s : System) (ts us : List Turn)
    → s.stopper ≡ begun
    → 13 ≤ worker_turns ts
    → 9 ≤ stop_turns us
    → ((run ts (step stop_turn s)).worker ≡ ended)
      × ((run us (run ts (step stop_turn s))).stopper ≡ done)
run-done s ts us e h k =
    let s' = step stop_turn s in
    let stopped : s'.shared.running ≡ false = (unfold step stop_step in rw e) in
    let last : (run ts s').worker ≡ ended =
      rank_ended _ (omega (arith, (run_worker ts s' stopped).1, worker_rank-le s'.worker)) in
    (
      last,
      rank_done _
          (omega (arith, run_stopper us (run ts s') last, stop_rank-le (run ts s').stopper)),
    )

-- A whole stream is cut off: `stop` up to its join, and the worker from the frame it is reading.
abbrev pub cut_off : List Turn
cut_off =
    stop_turn
    ∷ stop_turn
    ∷ stop_turn
    ∷ stop_turn
    ∷ stop_turn
    ∷ stop_turn
    ∷ stop_turn
    ∷ worker_turn fails
    ∷ worker_turn fails
    ∷ worker_turn fails
    ∷ worker_turn fails
    ∷ []

-- Where `stop` runs up to its join while the worker reads a frame of a connection on another
-- descriptor than the listener's, and the frame then breaks off, the connection's descriptor is
-- closed twice.
pub stop_closes_twice :
    (s : System) (sfd cfd : ℕ)
    → s.stopper ≡ begun
    → s.worker ≡ reading cfd
    → s.shared.listener_fd ≡ some sfd
    → s.shared.client_fd ≡ some cfd
    → sfd ≢ cfd
    → count cfd (run cut_off s).shared.closed ≡ 2 + count cfd s.shared.closed
unfolding run step stop_step worker_step frame_step
stop_closes_twice s sfd cfd p w l c ne = rw (p, w, l, c) (ground arith)
