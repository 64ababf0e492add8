-- ===== src/Mirror/Tests.antt =====
-- A stream cut across the frames, and a whole life of a receiver.
use titan_share.Prelude.{◌≡◌, refl, true, false, some, [], ◌∷◌, ◌++◌, List, Bytes, codes, arith}
use titan_share.Session.State.{ran}
use titan_share.Mirror.{Receiver, new_receiver, stream_bytes, read_loop}
use titan_share.Mirror.Frames.{showing, read_loop-encode}
use titan_share.Mirror.Threads
use titan_share.Mirror.Threads.{
  Answer, retry, fails, succeeds, connects, System, reading, begun, ended, done, Turn, worker_turn,
  stop_turn, step, started, count, worker_step, accept_step, build_step, frame_step, stop_step,
  join_step,
}
use titan_share.Mirror.Threads.Leaks.{IsReleased, run-IsReleased}
use titan_share.Mirror.Threads.Ending.{run-done, cut_off, stop_closes_twice}
use titan_share.Mirror.Pipeline.{Gst, Impl, gst_error, build_pipeline, cleanup_pipeline}
use titan_share.Mirror.Pipeline.Balance.{Owes, held, build-cleanup_balanced}

abbrev fresh : Receiver
fresh = new_receiver

-- The frames "ab" and "c", in three pieces.
abbrev stream : List Bytes
stream = (0 ∷ 0 ∷ []) ∷ (0 ∷ 2 ∷ b'a' ∷ []) ∷ (b'b' ∷ 0 ∷ 0 ∷ 0 ∷ 1 ∷ b'c' ∷ []) ∷ []

read_loop-encode_example :
    read_loop (λ _. false) (λ _. true) 12 stream fresh
    ≡ ran (showing (λ _. true) (codes "ab" ∷ codes "c" ∷ []) fresh)
unfolding stream_bytes
read_loop-encode_example =
    read_loop-encode (λ _. true) 12 (codes "ab" ∷ codes "c" ∷ []) stream fresh
      (omega arith, (omega arith, (omega arith, tt))) refl
      (omega arith, omega arith, (omega arith, omega arith, tt)) (omega arith)

-- A connection on descriptor 12 is accepted and served, and broken off by `stop`.
abbrev serving : List Turn
serving =
    worker_turn retry
    ∷ worker_turn (connects 12)
    ∷ worker_turn retry
    ∷ worker_turn succeeds
    ∷ worker_turn retry
    ∷ []

abbrev worker_rounds : List Turn
worker_rounds =
    worker_turn fails
    ∷ worker_turn fails
    ∷ worker_turn fails
    ∷ worker_turn fails
    ∷ worker_turn fails
    ∷ worker_turn fails
    ∷ worker_turn fails
    ∷ worker_turn fails
    ∷ worker_turn fails
    ∷ worker_turn fails
    ∷ worker_turn fails
    ∷ worker_turn fails
    ∷ worker_turn fails
    ∷ []

abbrev stop_rounds : List Turn
stop_rounds =
    stop_turn ∷ stop_turn ∷ stop_turn ∷ stop_turn ∷ stop_turn ∷ stop_turn ∷ stop_turn ∷ stop_turn
    ∷ stop_turn ∷ []

abbrev whole_life : List Turn
whole_life = serving ++ (cut_off ++ (worker_rounds ++ stop_rounds))

run-IsReleased_example : IsReleased (Threads.run whole_life (started 11)).shared
unfolding Threads.run step worker_step accept_step build_step frame_step stop_step join_step started
run-IsReleased_example = run-IsReleased 11 whole_life refl

abbrev streaming : System
streaming = record {
  shared = record {
    listener_fd = some 11;
    client_fd = some 12;
    running = true;
    pipeline = true;
    opened = 12 ∷ 11 ∷ [];
    closed = [];
  };
  worker = reading 12;
  stopper = begun;
}

run-done_example :
    ((Threads.run worker_rounds (step stop_turn streaming)).worker ≡ ended)
    × ((Threads.run stop_rounds (Threads.run worker_rounds (step stop_turn streaming))).stopper
        ≡ done)
run-done_example = run-done streaming worker_rounds stop_rounds refl (omega arith) (omega arith)

stop_closes_twice_example : count 12 (Threads.run cut_off streaming).shared.closed ≡ 2
stop_closes_twice_example = stop_closes_twice streaming 11 12 refl refl refl refl (λ e. omega arith)

-- The first text gives an error, the second a pipeline that does not play.
abbrev half : Gst
half = record {
  first = record { made = false; error = true };
  second = record { made = true; error = false };
  has_src = true;
  sinks = record { has_title = true; is_overlay = true } ∷ [];
  plays = false;
}

abbrev blank : Impl
blank = record { pipeline = false; appsrc = false; gst_ready = false; calls = [] }

build-cleanup_balanced_example :
    Owes gst_error
      (held gst_error (build_pipeline true half blank).0)
      (build_pipeline true half blank).1
    × Owes gst_error 0 (cleanup_pipeline (build_pipeline true half blank).1)
build-cleanup_balanced_example = build-cleanup_balanced gst_error true half blank refl refl refl
