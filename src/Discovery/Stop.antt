-- ===== src/Discovery/Stop.antt =====
-- The end of the advertiser's thread.
use titan_share.Prelude.{
  ◌≡◌, refl, ◌∙◌, Bool, true, false, Bool-cases, inl, inr, ◌||◌, if◌then◌else◌, none, List, [], ◌∷◌,
  Bytes, arith,
}
use titan_share.Discovery.Advertiser.{
  MdnsAdvertiser, Outcome, Callback, client_state, group_state, callback, callbacks,
  create_services, reset_group, update_pin, stop, client_callback, group_callback,
}
use titan_share.Discovery.Loop.{
  Request, new_pin, ends, Round, serve, refresh, Loop, ended, going, poll_loop, Setup, run_loop,
  connected, after_loop, cleanup,
}

-- Whether `stop` is among the requests, of one round and of all.
abbrev asks_end : List Request → Bool
asks_end [] = false
asks_end (new_pin p ∷ rs) = asks_end rs
asks_end (ends ∷ rs) = true

abbrev pub asked_end : List Round → Bool
asked_end [] = false
asked_end (t ∷ ts) = asks_end t.requests || asked_end ts

running-create_services :
    (o : Outcome) (a : MdnsAdvertiser) → (create_services o a).running ≡ a.running
unfolding create_services
running-create_services o a = ground arith

running-callback :
    (alternative : Bytes → Bytes) (c : Callback) (a : MdnsAdvertiser)
    → (callback alternative c a).running ≡ a.running
unfolding callback client_callback group_callback
running-callback alternative (client_state st o) a = ground (arith, running-create_services o a)
running-callback alternative (group_state st o) a =
    ground (arith, running-create_services o (record a { hostname = alternative a.hostname }))

running-callbacks :
    (alternative : Bytes → Bytes) (cs : List Callback) (a : MdnsAdvertiser)
    → (callbacks alternative cs a).running ≡ a.running
unfolding callbacks
running-callbacks alternative [] a = refl
running-callbacks alternative (c ∷ cs) a =
    running-callbacks alternative cs (callback alternative c a) ∙ running-callback alternative c a

running-refresh : (o : Outcome) (a : MdnsAdvertiser) → (refresh o a).running ≡ a.running
unfolding refresh
running-refresh o a =
    ground (
      arith,
      running-create_services o (record a { pin_dirty = false; group = reset_group a.group }),
    )

serve-false :
    (rs : List Request) (a : MdnsAdvertiser) → a.running ≡ false → (serve rs a).running ≡ false
unfolding serve update_pin stop
serve-false [] a h = h
serve-false (new_pin p ∷ rs) a h = serve-false rs (update_pin p a) h
serve-false (ends ∷ rs) a h = serve-false rs (stop a) refl

serve-ends :
    (rs : List Request) (a : MdnsAdvertiser) → asks_end rs ≡ true → (serve rs a).running ≡ false
unfolding serve stop
serve-ends [] a h = cc
serve-ends (new_pin p ∷ rs) a h = serve-ends rs (update_pin p a) h
serve-ends (ends ∷ rs) a h = serve-false rs (stop a) refl

abbrev has_ended : Loop → Bool
has_ended (ended a) = true
has_ended (going a) = false

poll_loop_stopped :
    (alternative : Bytes → Bytes) (ts : List Round) (a : MdnsAdvertiser)
    → a.running ≡ false
    → has_ended (poll_loop alternative ts a) ≡ true
unfolding poll_loop
poll_loop_stopped alternative [] a h = ground arith
poll_loop_stopped alternative (t ∷ ts) a h = ground arith

-- The state behind a round.
abbrev round_state : (Bytes → Bytes) → Round → MdnsAdvertiser → MdnsAdvertiser
round_state alternative t a = refresh t.outcome (callbacks alternative t.calls (serve t.requests a))

-- A round in which the end is asked for leaves a state in which the loop stops.
round_stopped :
    (alternative : Bytes → Bytes) (t : Round) (a : MdnsAdvertiser)
    → asks_end t.requests ≡ true
    → (round_state alternative t a).running ≡ false
round_stopped alternative t a h =
    running-refresh t.outcome (callbacks alternative t.calls (serve t.requests a))
    ∙ running-callbacks alternative t.calls (serve t.requests a)
    ∙ serve-ends t.requests a h

rest_has_ended :
    (alternative : Bytes → Bytes) (t : Round) (ts : List Round) (a : MdnsAdvertiser)
    → asked_end (t ∷ ts) ≡ true
    → (asked_end ts ≡ true
        → has_ended (poll_loop alternative ts (round_state alternative t a)) ≡ true)
    → has_ended (poll_loop alternative ts (round_state alternative t a)) ≡ true
rest_has_ended alternative t ts a h rest = elim (Bool-cases (asks_end t.requests)) [
  | inl e ↦
      poll_loop_stopped alternative ts (round_state alternative t a)
        (round_stopped alternative t a e)
  | inr e ↦ rest (ground (arith, e, h))
]

poll_loop-has_ended :
    (alternative : Bytes → Bytes) (ts : List Round) (a : MdnsAdvertiser)
    → asked_end ts ≡ true
    → has_ended (poll_loop alternative ts a) ≡ true
unfolding poll_loop
poll_loop-has_ended alternative [] a h = cc
poll_loop-has_ended alternative (t ∷ ts) a h = ground (
  arith,
  rest_has_ended alternative t ts a h
      (poll_loop-has_ended alternative ts (round_state alternative t a)),
)

-- The thread is through, and nothing of Avahi's is left.
abbrev pub IsFreed : Loop → Type 0
IsFreed (ended a) =
    (a.group ≡ none) × (a.client ≡ false) × (a.simple_poll ≡ false) × (a.running ≡ false)
IsFreed (going a) = ⊥

after_loop-IsFreed : (l : Loop) → has_ended l ≡ true → IsFreed (after_loop l)
unfolding after_loop cleanup
after_loop-IsFreed (ended a) h = (refl, refl, refl, refl)
after_loop-IsFreed (going a) h = cc

IsFreed-if : (l r : Loop) (b : Bool) → IsFreed l → IsFreed r → IsFreed (if b then l else r)
IsFreed-if l r true h k = h
IsFreed-if l r false h k = k

-- Once `stop` is called on an advertiser that held nothing of Avahi's before its thread began, the
-- thread ends, whatever Avahi returns, calls back or fails at in any of the rounds before and after,
-- also where Avahi gives no poll or no client at the start; and it leaves no group, client or poll.
pub run_loop-IsFreed :
    (alternative : Bytes → Bytes) (setup : Setup) (ts : List Round) (a : MdnsAdvertiser)
    → asked_end ts ≡ true
    → a.group ≡ none
    → a.client ≡ false
    → IsFreed (run_loop alternative setup ts a)
unfolding run_loop
run_loop-IsFreed alternative setup ts a h g c =
    IsFreed-if _ _ setup.poll_made
      (IsFreed-if _ _ setup.client_made
        (after_loop-IsFreed (poll_loop alternative ts (connected alternative setup a))
          (poll_loop-has_ended alternative ts (connected alternative setup a) h))
        (g, c, refl, refl))
      (g, c, refl, refl)
