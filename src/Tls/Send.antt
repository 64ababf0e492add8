-- ===== src/Tls/Send.antt =====
-- `ClientSession::sendResponse`. What the calls give is a function of their number; a `poll` between
-- them changes nothing.
use titan_share.Prelude.{
  ℕ, zero, suc, ◌≤◌, ◌≡◌, sym, ap, ◌∙◌, Bool, true, false, min, Option, none, some, [], ◌∷◌, ◌++◌,
  length, length-drop, take-append-drop, append_assoc, append-nil, take, drop, Bytes, arith,
}

-- `SSL_write` with `SSL_get_error`: it took that many bytes, and at least one, or none, or wants
-- another try, or failed.
pub data Write : Type 0 where
  took_more_than : ℕ → Write
  took_none wants_again fails : Write

abbrev pub int_max : ℕ
int_max = 2147483647

-- How many bytes of the rest of a response one call takes.
unfoldable pub taken : ℕ → Bytes → ℕ
taken n rest = min (suc n) (min (length rest) int_max)

-- The loop, from its call `i` on, for a number of calls: the bytes that went out, with those before
-- them; `none` if it still goes on.
unfoldable pub send_loop : (ℕ → Write) → ℕ → ℕ → Bytes → Bytes → Option Bytes
send_loop writes fuel i [] out = some out
send_loop writes zero i (c ∷ rest) out = none
send_loop writes (suc fuel) i (c ∷ rest) out = elim (writes i) [
  | took_more_than n ↦
      send_loop writes fuel (suc i) (drop (taken n (c ∷ rest)) (c ∷ rest))
        (out ++ take (taken n (c ∷ rest)) (c ∷ rest))
  | took_none ↦ some out
  | wants_again ↦ send_loop writes fuel (suc i) (c ∷ rest) out
  | fails ↦ some out
]

-- `sendResponse`, with TLS or by a `send` that takes so many bytes.
unfoldable pub send_response : Bool → ℕ → (ℕ → Write) → ℕ → Bytes → Option Bytes
send_response false sent writes fuel response = some (take sent response)
send_response true sent writes fuel response = send_loop writes fuel 0 response []

-- How many of the calls `i`, `i + 1`, ... take something.
abbrev pub progress : (ℕ → Write) → ℕ → ℕ → ℕ
progress writes i zero = 0
progress writes i (suc fuel) = elim (writes i) [
  | took_more_than n ↦ suc (progress writes (suc i) fuel)
  | took_none ↦ progress writes (suc i) fuel
  | wants_again ↦ progress writes (suc i) fuel
  | fails ↦ progress writes (suc i) fuel
]

-- None of them fails or takes nothing.
abbrev pub all_alive : (ℕ → Write) → ℕ → ℕ → Bool
all_alive writes i zero = true
all_alive writes i (suc fuel) = elim (writes i) [
  | took_more_than n ↦ all_alive writes (suc i) fuel
  | took_none ↦ false
  | wants_again ↦ all_alive writes (suc i) fuel
  | fails ↦ false
]

-- What one call takes makes the rest shorter.
length-drop-taken :
    (n c p : ℕ) (rest : Bytes)
    → length (c ∷ rest) ≤ suc p
    → length (drop (taken n (c ∷ rest)) (c ∷ rest)) ≤ p
unfolding taken
length-drop-taken n c p rest h = omega (arith, length-drop (taken n (c ∷ rest)) (c ∷ rest))

-- One call on a rest that is not empty; `next` is the rest of the loop.
send_step :
    (n c p : ℕ) (rest out : Bytes) (next : Bytes → Bytes → Option Bytes)
    → ((r o : Bytes) → length r ≤ p → next r o ≡ some (o ++ r))
    → length (c ∷ rest) ≤ suc p
    → next (drop (taken n (c ∷ rest)) (c ∷ rest)) (out ++ take (taken n (c ∷ rest)) (c ∷ rest))
      ≡ some (out ++ c ∷ rest)
send_step n c p rest out next k h =
    k _ _ (length-drop-taken n c p rest h)
    ∙ ap some (
        append_assoc out (take (taken n (c ∷ rest)) (c ∷ rest))
          (drop (taken n (c ∷ rest)) (c ∷ rest))
        ∙ ap (λ s. out ++ s) (take-append-drop (taken n (c ∷ rest)) (c ∷ rest)))

send_loop_delivers :
    (writes : ℕ → Write) (fuel i : ℕ) (rest out : Bytes)
    → all_alive writes i fuel ≡ true
    → length rest ≤ progress writes i fuel
    → send_loop writes fuel i rest out ≡ some (out ++ rest)
unfolding send_loop
send_loop_delivers writes fuel i [] out alive enough = ap some (sym (append-nil out))
send_loop_delivers writes zero i (c ∷ rest) out alive enough = absurd (omega arith)
send_loop_delivers writes (suc fuel) i (c ∷ rest) out alive enough =
    by_write (writes i) alive enough (λ a r o h. send_loop_delivers writes fuel (suc i) r o a h)
  where
    by_write :
        (w : Write)
        → (elim w [
          | took_more_than n ↦ all_alive writes (suc i) fuel
          | took_none ↦ false
          | wants_again ↦ all_alive writes (suc i) fuel
          | fails ↦ false
        ])
          ≡ true
        → length (c ∷ rest) ≤ (elim w [
          | took_more_than n ↦ suc (progress writes (suc i) fuel)
          | took_none ↦ progress writes (suc i) fuel
          | wants_again ↦ progress writes (suc i) fuel
          | fails ↦ progress writes (suc i) fuel
        ])
        → (all_alive writes (suc i) fuel ≡ true
            → (r o : Bytes) → length r ≤ progress writes (suc i) fuel
            → send_loop writes fuel (suc i) r o ≡ some (o ++ r))
        → (elim w [
          | took_more_than n ↦
              send_loop writes fuel
                (suc i)
                (drop (taken n (c ∷ rest)) (c ∷ rest))
                (out ++ take (taken n (c ∷ rest)) (c ∷ rest))
          | took_none ↦ some out
          | wants_again ↦ send_loop writes fuel (suc i) (c ∷ rest) out
          | fails ↦ some out
        ])
          ≡ some (out ++ c ∷ rest)
    by_write (took_more_than n) a h k =
        send_step n c (progress writes (suc i) fuel) rest out (send_loop writes fuel (suc i)) (k a)
          h
    by_write took_none a h k = cc
    by_write wants_again a h k = k a (c ∷ rest) out h
    by_write fails a h k = cc

-- Over TLS, where no call of `SSL_write` fails or takes nothing, and as many calls take something as
-- the response has bytes, the loop ends and the whole response went out in its order, whatever the
-- sizes of the pieces and however often a call had to wait.
pub send_response_delivers :
    (sent : ℕ) (writes : ℕ → Write) (fuel : ℕ) (response : Bytes)
    → all_alive writes 0 fuel ≡ true
    → length response ≤ progress writes 0 fuel
    → send_response true sent writes fuel response ≡ some response
unfolding send_response
send_response_delivers sent writes fuel response alive enough =
    send_loop_delivers writes fuel 0 response [] alive enough
