-- ===== src/Discovery/Loop.antt =====
-- `runLoop`: the thread that polls Avahi, and what the other threads ask of it meanwhile.
use titan_share.Prelude.{Bool, true, false, if◌then◌else◌, Option, none, some, List, [], ◌∷◌, Bytes}
use titan_share.Discovery.Advertiser.{
  MdnsAdvertiser, Group, Outcome, Callback, callbacks, create_services, reset_group, update_pin,
  stop,
}

pub data Request : Type 0 where
  new_pin : Bytes → Request
  ends : Request

-- The return value of `avahi_simple_poll_iterate`: negative, 0 or 1.
pub data Iterated : Type 0 where
  error : Iterated
  went_on : Iterated
  quits : Iterated

-- One round: what the other threads call before and during it, the callbacks that Avahi makes, what
-- the call returns, and how a second `createServices` would fare.
pub record Round : Type 0 where
  pub requests : List Request
  pub calls : List Callback
  pub ret : Iterated
  pub outcome : Outcome

request : Request → MdnsAdvertiser → MdnsAdvertiser
request (new_pin p) a = update_pin p a
request ends a = stop a

unfoldable pub serve : List Request → MdnsAdvertiser → MdnsAdvertiser
unfolding request
serve [] a = a
serve (r ∷ rs) a = serve rs (request r a)

readvertised : Outcome → Option Group → MdnsAdvertiser → MdnsAdvertiser
readvertised o none a = a
readvertised o (some g) a =
    create_services o (record a { pin_dirty = false; group = reset_group a.group })

-- `if (m_pinDirty && m_group)`.
unfoldable pub refresh : Outcome → MdnsAdvertiser → MdnsAdvertiser
unfolding readvertised
refresh o a = if a.pin_dirty then readvertised o a.group a else a

-- The loop has ended, or waits for its next round.
pub data Loop : Type 0 where
  ended : MdnsAdvertiser → Loop
  going : MdnsAdvertiser → Loop

unfoldable pub poll_loop : (Bytes → Bytes) → List Round → MdnsAdvertiser → Loop
poll_loop alternative [] a = if a.running then going a else ended a
poll_loop alternative (t ∷ ts) a =
    let a' = callbacks alternative t.calls (serve t.requests a) in
    let rest = poll_loop alternative ts (refresh t.outcome a') in
    if a.running
    then elim t.ret [
      | error ↦ ended a'
      | went_on ↦ rest
      | quits ↦ if a'.running then rest else ended a'
    ]
    else ended a

-- What is freed behind the loop.
unfoldable pub cleanup : MdnsAdvertiser → MdnsAdvertiser
cleanup a = record a { group = none; client = false; simple_poll = false; running = false }

unfoldable pub after_loop : Loop → Loop
unfolding cleanup
after_loop (ended a) = ended (cleanup a)
after_loop (going a) = going a

-- The objects that Avahi makes at the start, or not, and the callbacks that making the client calls.
pub record Setup : Type 0 where
  pub poll_made : Bool
  pub client_made : Bool
  pub first_calls : List Callback

-- The state in which the loop begins.
unfoldable pub connected : (Bytes → Bytes) → Setup → MdnsAdvertiser → MdnsAdvertiser
connected alternative setup a =
    record (callbacks alternative setup.first_calls
      (record a { simple_poll = true; quit = false })) { client = true }

-- `runLoop`.
unfoldable pub run_loop : (Bytes → Bytes) → Setup → List Round → MdnsAdvertiser → Loop
unfolding after_loop
run_loop alternative setup ts a =
    if setup.poll_made
    then if setup.client_made
      then after_loop (poll_loop alternative ts (connected alternative setup a))
      else ended (record a { simple_poll = false; quit = false; running = false })
    else ended (record a { simple_poll = false; running = false })
