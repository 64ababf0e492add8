-- ===== src/Mirror.antt =====
-- src/mirror/mirror_receiver.cpp: the listener, and the worker that takes length-prefixed frames off
-- one TCP connection. GStreamer and the kernel are arguments.
pub mod Frames
pub mod Worker
pub mod Pipeline
pub mod Window
pub mod Threads
mod Tests
use titan_share.Prelude.{
  ℕ, zero, suc, ◌+◌, ◌-◌, ◌*◌, ◌≤◌, ◌<◌, ltb, leb, ◌==◌, ◌≡◌, refl, Bool, true, false, ◌||◌, not,
  if◌then◌else◌, Option, none, some, List, [], ◌∷◌, ◌++◌, length, take, drop, Bytes, is_empty,
}
use titan_share.Session.State.{Exec, ran, threw, starved, ◌>>=◌}

abbrev pub max_frame_bytes : ℕ
max_frame_bytes = 24 * 1024 * 1024

-- The descriptors of the receiver, `m_running`, `m_frames`, the payloads that went to the pipeline,
-- and every descriptor closed so far, newest first.
pub record Receiver : Type 0 where
  pub listener_fd : Option ℕ
  pub client_fd : Option ℕ
  pub running : Bool
  pub frames : ℕ
  pub pushed : List Bytes
  pub closed : List ℕ

unfoldable pub new_receiver : Receiver
new_receiver = record {
  listener_fd = none;
  client_fd = none;
  running = false;
  frames = 0;
  pushed = [];
  closed = [];
}

-- `if (fd >= 0) close(fd)`.
abbrev pub close_fd : Option ℕ → List ℕ → List ℕ
close_fd none closed = closed
close_fd (some fd) closed = fd ∷ closed

unfoldable pub close_listener : Receiver → Receiver
close_listener r = record r { listener_fd = none; closed = close_fd r.listener_fd r.closed }

unfoldable pub close_client : Receiver → Receiver
close_client r = record r { client_fd = none; closed = close_fd r.client_fd r.closed }

-- `start`, on what `socket`, `bind` and `listen` give.
unfoldable pub start : Option ℕ → Bool → Bool → Receiver → Bool × Receiver
start socket bound listens r =
    if r.running
    then (false, r)
    else let r' = close_listener r in
      elim socket [
        | none ↦ (false, r')
        | some sfd ↦
            if not bound || not listens
            then (false, record r' { closed = sfd ∷ r'.closed })
            else (true, record r' { listener_fd = some sfd; frames = 0; running = true })
      ]

-- `readExact` over the pieces in which the stream comes in; a piece is what one `recv` finds, and
-- what it has no room for stays. An empty piece is the end of the stream.
unfoldable pub read_exact : ℕ → List Bytes → Option (Bytes × List Bytes)
read_exact count [] = if count == 0 then some ([], []) else none
read_exact count (p ∷ ps) =
    let later = read_exact (count - length p) ps in
    if count == 0
    then some ([], p ∷ ps)
    else if is_empty p
    then none
    else if ltb count (length p)
    then some (take count p, drop count p ∷ ps)
    else elim later [ none ↦ none | some (bytes, rest) ↦ some (p ++ bytes, rest) ]

-- The length prefix, high byte first.
unfoldable pub frame_length : Bytes → ℕ
frame_length (a ∷ b ∷ c ∷ d ∷ _) = a * 16777216 + b * 65536 + c * 256 + d
frame_length _ = 0

-- One round of the read loop: the payload and the rest of the stream, or the end of the loop.
unfoldable pub read_frame : List Bytes → Option (Bytes × List Bytes)
read_frame stream = elim (read_exact 4 stream) [
  | none ↦ none
  | some (hdr, rest) ↦
      let len = frame_length hdr in
      if len == 0 || ltb max_frame_bytes len then none else read_exact len rest
]

-- `gst_app_src_push_buffer`: whether the pipeline took the frame. A frame it did not take is not
-- counted.
unfoldable pub push_frame : (Bytes → Bool) → Bytes → Receiver → Receiver
push_frame accepts payload r = record r {
  frames = if accepts payload then suc r.frames else r.frames;
  pushed = if accepts payload then payload ∷ r.pushed else r.pushed;
}

-- The read loop. `stopped k` tells whether `m_running` is cleared before the round with `k` rounds
-- of fuel left.
unfoldable pub read_loop : (ℕ → Bool) → (Bytes → Bool) → ℕ → List Bytes → Receiver → Exec Receiver
read_loop stopped accepts zero stream r = starved
read_loop stopped accepts (suc fuel) stream r = elim (stopped fuel) [
  | true ↦ ran r
  | false ↦ elim (read_frame stream) [
    | none ↦ ran r
    | some (payload, rest) ↦ read_loop stopped accepts fuel rest (push_frame accepts payload r)
  ]
]

-- The bytes that a stream still holds.
unfoldable pub stream_bytes : List Bytes → Bytes
stream_bytes [] = []
stream_bytes (p ∷ ps) = p ++ stream_bytes ps

abbrev pub with_client : ℕ → Receiver → Receiver
with_client fd r = record r { client_fd = some fd }

unfoldable pub stopped_worker : Receiver → Receiver
stopped_worker r = record r { running = false }

-- The end of the worker: the client, then the listener.
unfoldable pub hang_up : Receiver → Receiver
hang_up r = stopped_worker (close_listener (close_client r))

-- One round of the worker's first loop: `poll` or `accept` was interrupted, ran out of time or has
-- nothing yet; one of the two failed; or there is a connection. The list ends where `m_running` is
-- found cleared.
pub data Polled : Type 0 where
  nothing_yet failed : Polled
  connected : ℕ → Polled

unfoldable pub accept_client : List Polled → Option ℕ
accept_client [] = none
accept_client (nothing_yet ∷ rest) = accept_client rest
accept_client (failed ∷ rest) = none
accept_client (connected fd ∷ rest) = some fd

-- The worker on the connection that was accepted, if one was, on whether the pipeline is built, and
-- on the stream. A frame has five bytes at least, so a round
-- for each byte and one more is enough.
unfoldable pub serve :
    (ℕ → Bool) → (Bytes → Bool) → Option ℕ → Bool → List Bytes → Receiver → Exec Receiver
serve stopped accepts none built stream r = ran (stopped_worker r)
serve stopped accepts (some cfd) false stream r =
    ran (stopped_worker (close_client (with_client cfd r)))
serve stopped accepts (some cfd) true stream r =
    read_loop stopped accepts (suc (length (stream_bytes stream))) stream (with_client cfd r)
    >>= λ r'. ran (hang_up r')

-- The worker thread.
unfoldable pub worker :
    (ℕ → Bool) → (Bytes → Bool) → List Polled → Bool → List Bytes → Receiver → Exec Receiver
worker stopped accepts polled built stream r =
    serve stopped accepts (accept_client polled) built stream r

-- `stop`, once the worker has ended.
unfoldable pub stop : Receiver → Receiver
stop r = close_client (close_listener (stopped_worker r))
