-- ===== src/Tls/Accept.antt =====
-- `SslHelper::acceptTls` and `closeTls`. What the calls of one turn of the loop give is a function
-- of the number of the turn.
use titan_share.Prelude.{
  ℕ, zero, suc, ◌+◌, ◌-◌, ◌*◌, ◌/◌, ◌≤◌, ◌<◌, ◌≡◌, refl, ap, subst, Bool, true, false, leb,
  if◌then◌else◌, Option, none, some, List, [], ◌∷◌, arith, ◌⊎◌, inl, inr, Bool-cases,
}

-- `SSL_accept` with `SSL_get_error`.
pub data Handshake : Type 0 where
  accepted wants_read wants_write fails : Handshake

-- One turn: the handshake, the clock in nanoseconds, and whether `poll` returns a positive number.
pub record Turn : Type 0 where
  pub handshake : Handshake
  pub now : ℕ
  pub ready : Bool

pub data TlsEvent : Type 0 where
  -- `poll` for reading or writing, with its timeout in milliseconds.
  polls_in polls_out : ℕ → TlsEvent
  -- `SSL_shutdown`, and `SSL_free`.
  shuts_down frees : TlsEvent

-- Whether the connection is returned (and no null pointer), and what was done, newest first.
pub record Accepted : Type 0 where
  pub connected : Bool
  pub events : List TlsEvent

abbrev pub deadline_of : ℕ → ℕ
deadline_of start = start + 5000 * 1000000

-- `SSL_free` and the null pointer.
abbrev pub refused : List TlsEvent → Accepted
refused events = record { connected = false; events = frees ∷ events }

-- The wait at the end of a turn. The time left is cut off to milliseconds, and at 0.
unfoldable pub wait_then :
    (ℕ → TlsEvent) → ℕ → Turn → List TlsEvent → (List TlsEvent → Option Accepted) → Option Accepted
wait_then polls deadline t events next =
    let remaining = (deadline - t.now) / 1000000 in
    if leb remaining 0
    then some (refused events)
    else if t.ready
    then next (polls remaining ∷ events)
    else some (refused (polls remaining ∷ events))

-- One turn; `next` is the rest of the loop.
unfoldable pub turn : ℕ → Turn → List TlsEvent → (List TlsEvent → Option Accepted) → Option Accepted
turn deadline t events next = elim t.handshake [
  | accepted ↦ some (record { connected = true; events = events })
  | wants_read ↦ wait_then polls_in deadline t events next
  | wants_write ↦ wait_then polls_out deadline t events next
  | fails ↦ some (refused events)
]

-- The loop, from its turn `i` on, for a number of turns; `none` if it still goes on.
unfoldable pub accept_loop : (ℕ → Turn) → ℕ → ℕ → ℕ → List TlsEvent → Option Accepted
accept_loop turns deadline zero i events = none
accept_loop turns deadline (suc fuel) i events =
    turn deadline (turns i) events (accept_loop turns deadline fuel (suc i))

-- `acceptTls`, on whether there is a context and `SSL_new` gives a connection.
unfoldable pub accept_tls : Bool → Bool → (ℕ → Turn) → ℕ → ℕ → Option Accepted
accept_tls ctx made turns start fuel =
    if ctx
    then if made
      then accept_loop turns (deadline_of start) fuel 0 []
      else some (record { connected = false; events = [] })
    else some (record { connected = false; events = [] })

-- `closeTls`, of a connection or of a null pointer.
unfoldable pub close_tls : Bool → List TlsEvent → List TlsEvent
close_tls there events = if there then frees ∷ shuts_down ∷ events else events

-- How often the connection was freed.
abbrev pub freed : List TlsEvent → ℕ
freed [] = 0
freed (frees ∷ es) = suc (freed es)
freed (_ ∷ es) = freed es

-- Returned and not freed, or freed once and not returned.
abbrev pub IsOwned : Option Accepted → Type 0
IsOwned none = ⊥
IsOwned (some r) = freed r.events ≡ (if r.connected then 0 else 1)

IsOwned-if :
    (l r : Option Accepted) (b : Bool) → IsOwned l → IsOwned r → IsOwned (if b then l else r)
IsOwned-if l r true h k = h
IsOwned-if l r false h k = k

-- Once the deadline is past, no time is left.
not_left : {d n : ℕ} → d ≤ n → leb ((d - n) / 1000000) 0 ≡ false → ⊥
not_left past left = ground arith

wait_then-IsOwned :
    (polls : ℕ → TlsEvent) (deadline : ℕ) (t : Turn) (events : List TlsEvent)
    → (next : List TlsEvent → Option Accepted) → freed events ≡ 0
    → ((ms : ℕ) → freed (polls ms ∷ events) ≡ 0)
    → ((deadline ≤ t.now) ⊎ ((ms : ℕ) → IsOwned (next (polls ms ∷ events))))
    → IsOwned (wait_then polls deadline t events next)
unfolding wait_then
wait_then-IsOwned polls deadline t events next f p d =
    elim (Bool-cases (leb ((deadline - t.now) / 1000000) 0)) [
      | inl over ↦ rw over (ap suc f)
      | inr left ↦
          rw left
            (IsOwned-if _ _ t.ready (goes_on d left) (ap suc (p ((deadline - t.now) / 1000000))))
    ]
  where
    goes_on :
        ((deadline ≤ t.now) ⊎ ((ms : ℕ) → IsOwned (next (polls ms ∷ events))))
        → leb ((deadline - t.now) / 1000000) 0 ≡ false
        → IsOwned (next (polls ((deadline - t.now) / 1000000) ∷ events))
    goes_on (inl past) left = absurd (not_left past left)
    goes_on (inr k) left = k ((deadline - t.now) / 1000000)

turn-IsOwned :
    (deadline : ℕ) (t : Turn) (events : List TlsEvent)
    → (next : List TlsEvent → Option Accepted) → freed events ≡ 0
    → ((deadline ≤ t.now) ⊎ ((es : List TlsEvent) → freed es ≡ 0 → IsOwned (next es)))
    → IsOwned (turn deadline t events next)
unfolding turn
turn-IsOwned deadline t events next f d = by_handshake t.handshake
  where
    waits :
        (polls : ℕ → TlsEvent)
        → ((ms : ℕ) → freed (polls ms ∷ events) ≡ 0)
        → IsOwned (wait_then polls deadline t events next)
    waits polls p =
        wait_then-IsOwned polls deadline t events next f p
          (elim d [ inl past ↦ inl past | inr k ↦ inr (λ ms. k (polls ms ∷ events) (p ms)) ])

    by_handshake :
        (h : Handshake)
        → IsOwned (elim h [
          | accepted ↦ some (record { connected = true; events = events })
          | wants_read ↦ wait_then polls_in deadline t events next
          | wants_write ↦ wait_then polls_out deadline t events next
          | fails ↦ some (refused events)
        ])
    by_handshake accepted = f
    by_handshake wants_read = waits polls_in (λ ms. f)
    by_handshake wants_write = waits polls_out (λ ms. f)
    by_handshake fails = ap suc f

accept_loop-IsOwned :
    (turns : ℕ → Turn) (deadline k fuel i : ℕ) (events : List TlsEvent)
    → k < fuel
    → deadline ≤ (turns (i + k)).now
    → freed events ≡ 0
    → IsOwned (accept_loop turns deadline fuel i events)
unfolding accept_loop
accept_loop-IsOwned turns deadline k zero i events enough past f = absurd (omega arith)
accept_loop-IsOwned turns deadline zero (suc fuel) i events enough past f =
    turn-IsOwned deadline (turns i) events _ f
      (inl (subst (λ j. deadline ≤ (turns j).now) (omega arith) past))
accept_loop-IsOwned turns deadline (suc k) (suc fuel) i events enough past f =
    turn-IsOwned deadline (turns i) events _ f (
      inr (λ es g.
        accept_loop-IsOwned turns deadline k fuel (suc i) es (omega arith)
          (subst (λ j. deadline ≤ (turns j).now) (omega arith) past) g))

-- Where the clock has passed five seconds since the start at some turn of the handshake, whatever
-- the client does and `poll` returns before and at it, the handshake is over with that turn at the
-- latest; and its connection is returned and alive, or was freed once and a null pointer returned.
pub accept_tls-IsOwned :
    (turns : ℕ → Turn) (start k fuel : ℕ)
    → k < fuel
    → deadline_of start ≤ (turns k).now
    → IsOwned (accept_tls true true turns start fuel)
unfolding accept_tls
accept_tls-IsOwned turns start k fuel enough past =
    accept_loop-IsOwned turns (deadline_of start) k fuel 0 [] enough
      (subst (λ j. deadline_of start ≤ (turns j).now) (omega arith) past) refl
