-- ===== src/Discovery/Secrecy.antt =====
-- The advertisement and the PIN.
use titan_share.Prelude.{
  ◌≡◌, refl, sym, ap, ◌∙◌, true, false, Option, List, [], ◌∷◌, map, Bytes, arith,
}
use titan_share.Discovery.Advertiser.{
  MdnsAdvertiser, Group, Outcome, Callback, client_state, group_state, callback, callbacks,
  create_services, reset_group, update_pin, stop, service_of, text_record, client_callback,
  group_callback,
}
use titan_share.Discovery.Loop.{
  Request, new_pin, ends, Round, serve, refresh, Loop, ended, going, poll_loop, Setup, run_loop,
  connected, after_loop, cleanup,
}

-- The state without the PIN.
abbrev pub hide : MdnsAdvertiser → MdnsAdvertiser
hide a = record a { pin = [] }

abbrev hide_request : Request → Request
hide_request (new_pin p) = new_pin []
hide_request ends = ends

abbrev pub hide_round : Round → Round
hide_round t = record t { requests = map hide_request t.requests }

abbrev pub hide_loop : Loop → Loop
hide_loop (ended a) = ended (hide a)
hide_loop (going a) = going (hide a)

hide-create_services :
    (o : Outcome) (a : MdnsAdvertiser) → create_services o (hide a) ≡ hide (create_services o a)
unfolding create_services service_of text_record
hide-create_services o a = ground arith

hide-callback :
    (alternative : Bytes → Bytes) (c : Callback) (a : MdnsAdvertiser)
    → callback alternative c (hide a) ≡ hide (callback alternative c a)
unfolding callback client_callback group_callback
hide-callback alternative (client_state st o) a = ground (arith, hide-create_services o a)
hide-callback alternative (group_state st o) a =
    ground (arith, hide-create_services o (record a { hostname = alternative a.hostname }))

hide-callbacks :
    (alternative : Bytes → Bytes) (cs : List Callback) (a : MdnsAdvertiser)
    → callbacks alternative cs (hide a) ≡ hide (callbacks alternative cs a)
unfolding callbacks
hide-callbacks alternative [] a = refl
hide-callbacks alternative (c ∷ cs) a =
    ap (callbacks alternative cs) (hide-callback alternative c a)
    ∙ hide-callbacks alternative cs (callback alternative c a)

hide-serve :
    (rs : List Request) (a : MdnsAdvertiser)
    → serve (map hide_request rs) (hide a) ≡ hide (serve rs a)
unfolding serve update_pin stop
hide-serve [] a = refl
hide-serve (new_pin p ∷ rs) a = hide-serve rs (update_pin p a)
hide-serve (ends ∷ rs) a = hide-serve rs (stop a)

hide-refresh : (o : Outcome) (a : MdnsAdvertiser) → refresh o (hide a) ≡ hide (refresh o a)
unfolding refresh
hide-refresh o a =
    ground
      (arith, hide-create_services o (record a { pin_dirty = false; group = reset_group a.group }))

-- One round from two states that differ in the PIN.
poll_loop_round :
    (alternative : Bytes → Bytes) (t : Round) (ts : List Round) (a : MdnsAdvertiser)
    → callbacks alternative t.calls (serve (map hide_request t.requests) (hide a))
      ≡ hide (callbacks alternative t.calls (serve t.requests a))
poll_loop_round alternative t ts a =
    ap (callbacks alternative t.calls) (hide-serve t.requests a)
    ∙ hide-callbacks alternative t.calls (serve t.requests a)

hide-poll_loop :
    (alternative : Bytes → Bytes) (ts : List Round) (a : MdnsAdvertiser)
    → poll_loop alternative (map hide_round ts) (hide a) ≡ hide_loop (poll_loop alternative ts a)
unfolding poll_loop
hide-poll_loop alternative [] a = ground arith
hide-poll_loop alternative (t ∷ ts) a = ground (
  arith,
  poll_loop_round alternative t ts a,
  hide-refresh t.outcome (callbacks alternative t.calls (serve t.requests a)),
  hide-poll_loop alternative ts
      (refresh t.outcome (callbacks alternative t.calls (serve t.requests a))),
)

hide-connected :
    (alternative : Bytes → Bytes) (setup : Setup) (a : MdnsAdvertiser)
    → connected alternative setup (hide a) ≡ hide (connected alternative setup a)
unfolding connected
hide-connected alternative setup a =
    ap {A = MdnsAdvertiser} (λ a'. record a' { client = true })
      (hide-callbacks alternative setup.first_calls (record a { simple_poll = true; quit = false }))

hide-after_loop : (l : Loop) → after_loop (hide_loop l) ≡ hide_loop (after_loop l)
unfolding after_loop cleanup
hide-after_loop (ended a) = refl
hide-after_loop (going a) = refl

hide-run_loop :
    (alternative : Bytes → Bytes) (setup : Setup) (ts : List Round) (a : MdnsAdvertiser)
    → run_loop alternative setup (map hide_round ts) (hide a)
      ≡ hide_loop (run_loop alternative setup ts a)
unfolding run_loop
hide-run_loop alternative setup ts a = ground (
  arith,
  hide-connected alternative setup a,
  hide-poll_loop alternative ts (connected alternative setup a),
  hide-after_loop (poll_loop alternative ts (connected alternative setup a)),
)

-- What is published: the entry group.
abbrev pub published : Loop → Option Group
published (ended a) = a.group
published (going a) = a.group

published-hide_loop : (l : Loop) → published (hide_loop l) ≡ published l
published-hide_loop (ended a) = refl
published-hide_loop (going a) = refl

-- Take two advertisers that differ in their PIN at most, and any two courses of events that differ
-- only in the PINs handed to `updatePin`. At every time both have published the same services with
-- the same text: no PIN, old or new, has any influence on it.
pub published_hides_pin :
    (alternative : Bytes → Bytes) (setup : Setup) (ts us : List Round) (a b : MdnsAdvertiser)
    → map hide_round ts ≡ map hide_round us
    → hide a ≡ hide b
    → published (run_loop alternative setup ts a) ≡ published (run_loop alternative setup us b)
published_hides_pin alternative setup ts us a b e h =
    hidden ts a
    ∙ ap (λ rs. published (run_loop alternative setup rs (hide a))) e
    ∙ ap (λ s. published (run_loop alternative setup (map hide_round us) s)) h
    ∙ sym (hidden us b)
  where
    hidden :
        (rs : List Round) (s : MdnsAdvertiser)
        → published (run_loop alternative setup rs s)
          ≡ published (run_loop alternative setup (map hide_round rs) (hide s))
    hidden rs s =
        sym (published-hide_loop (run_loop alternative setup rs s))
        ∙ sym (ap published (hide-run_loop alternative setup rs s))
