-- ===== src/Mirror/Worker.antt =====
-- The end of the mirror's worker, and the descriptors of the receiver over its life.
use titan_share.Prelude.{
  ℕ, zero, suc, ◌+◌, ◌-◌, ◌<◌, ◌≡◌, refl, Bool, true, false, Option, none, some, List, [], ◌∷◌,
  length, length-append, length-drop, drop, Bytes, arith, Bool-cases, Option-cases, inl, inr,
}
use titan_share.Session.State.{Ends, Ends-bind}
use titan_share.Mirror.{
  Receiver, read_exact, frame_length, read_frame, push_frame, read_loop, stream_bytes, worker,
  serve, Polled, accept_client, start, stop, close_fd, close_listener, close_client, hang_up,
  stopped_worker, with_client,
}

read_exact-length :
    (count : ℕ) (stream rest : List Bytes) (bytes : Bytes)
    → read_exact count stream ≡ some (bytes, rest)
    → length (stream_bytes rest) + count ≡ length (stream_bytes stream)
unfolding read_exact stream_bytes
read_exact-length count [] rest bytes e = ground arith
read_exact-length count (p ∷ ps) rest bytes e =
    elim (Option-cases (read_exact (count - length p) ps)) [
      | inl short ↦ ground (
        arith,
        length-drop count p,
        length-append p (stream_bytes ps),
        length-append (drop count p) (stream_bytes ps),
      )
      | inr ((tail, rest'), e') ↦ ground (
        arith,
        read_exact-length (count - length p) ps rest' tail e',
        length-drop count p,
        length-append p (stream_bytes ps),
        length-append (drop count p) (stream_bytes ps),
      )
    ]

read_frame-length :
    (stream rest : List Bytes) (payload : Bytes)
    → read_frame stream ≡ some (payload, rest)
    → length (stream_bytes rest) < length (stream_bytes stream)
unfolding read_frame
read_frame-length stream rest payload e = elim (Option-cases (read_exact 4 stream)) [
  | inl short ↦ ground arith
  | inr ((hdr, body), e') ↦ ground (
    arith,
    read_exact-length 4 stream body hdr e',
    read_exact-length (frame_length hdr) body rest payload,
  )
]

-- The read loop touches no descriptor.
abbrev SameFds : Receiver → Receiver → Type 0
SameFds r r' =
    (r'.listener_fd ≡ r.listener_fd) × (r'.client_fd ≡ r.client_fd) × (r'.closed ≡ r.closed)

read_loop-SameFds :
    (stopped : ℕ → Bool) (accepts : Bytes → Bool) (fuel : ℕ) (stream : List Bytes) (r₀ r : Receiver)
    → length (stream_bytes stream) < fuel
    → SameFds r₀ r
    → Ends (SameFds r₀) (read_loop stopped accepts fuel stream r)
unfolding read_loop push_frame
read_loop-SameFds stopped accepts zero stream r₀ r h k = absurd (omega arith)
read_loop-SameFds stopped accepts (suc fuel) stream r₀ r h k = elim (Bool-cases (stopped fuel)) [
  | inl stop_now ↦ rw (stop_now, Ends) k
  | inr go ↦ elim (Option-cases (read_frame stream)) [
    | inl end ↦ rw (go, end, Ends) k
    | inr ((payload, rest), e) ↦
        rw (go, e, Ends)
          (read_loop-SameFds stopped accepts fuel rest r₀ (push_frame accepts payload r)
            (omega (arith, read_frame-length stream rest payload e)) k)
  ]
]

closes :
    (sfd cfd : ℕ) (r r' : Receiver)
    → r.running ≡ false
    → SameFds (with_client cfd (start (some sfd) true true r).1) r'
    → ((stop (hang_up r')).listener_fd ≡ none)
      × ((stop (hang_up r')).client_fd ≡ none)
      × ((stop (hang_up r')).closed ≡ sfd ∷ cfd ∷ close_fd r.listener_fd r.closed)
unfolding start stop close_listener close_client hang_up stopped_worker
closes sfd cfd r r' idle same = ground arith

serve_closes :
    (stopped : ℕ → Bool) (accepts : Bytes → Bool) (sfd : ℕ) (accepted : Option ℕ) (built : Bool)
    (stream : List Bytes) (r : Receiver)
    → r.running ≡ false
    → r.client_fd ≡ none
    → Ends
        (λ r'.
          ((stop r').listener_fd ≡ none)
          × ((stop r').client_fd ≡ none)
          × ((stop r').closed ≡ sfd ∷ close_fd accepted (close_fd r.listener_fd r.closed)))
        (serve stopped accepts accepted built stream (start (some sfd) true true r).1)
unfolding start stop serve close_listener close_client hang_up stopped_worker
serve_closes stopped accepts sfd none built stream r idle free = ground arith
serve_closes stopped accepts sfd (some cfd) false stream r idle free = ground arith
serve_closes stopped accepts sfd (some cfd) true stream r idle free =
    let r₀ = with_client cfd (start (some sfd) true true r).1 in
    Ends-bind (SameFds r₀) _
      (read_loop stopped accepts (suc (length (stream_bytes stream))) stream r₀) _
      (read_loop-SameFds stopped accepts _ stream r₀ r₀ (omega arith) (refl, refl, refl))
      λ r' same. closes sfd cfd r r' idle same

-- A mirror that was started on a fresh listener and is stopped after its worker has come to an end,
-- which it does on any stream, has closed that listener, and the connection if there was one, once
-- each, and holds no descriptor.
pub start-stop_closes :
    (stopped : ℕ → Bool) (accepts : Bytes → Bool) (sfd : ℕ) (polled : List Polled) (built : Bool)
    (stream : List Bytes) (r : Receiver)
    → r.running ≡ false
    → r.client_fd ≡ none
    → Ends
        (λ r'.
          ((stop r').listener_fd ≡ none)
          × ((stop r').client_fd ≡ none)
          × ((stop r').closed
              ≡ sfd ∷ close_fd (accept_client polled) (close_fd r.listener_fd r.closed)))
        (worker stopped accepts polled built stream (start (some sfd) true true r).1)
unfolding worker
start-stop_closes stopped accepts sfd polled built stream r idle free =
    serve_closes stopped accepts sfd (accept_client polled) built stream r idle free
