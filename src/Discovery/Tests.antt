-- ===== src/Discovery/Tests.antt =====
-- An advertiser whose PIN changes and that is stopped, and the theorems on it.
use titan_share.Prelude.{◌≡◌, refl, true, false, none, [], ◌∷◌, ◌++◌, Bytes, codes}
use titan_share.Discovery.Advertiser.{MdnsAdvertiser, Outcome, ClientState, client_state, start}
use titan_share.Discovery.Loop.{Round, new_pin, ends, went_on, quits, Setup, run_loop}
use titan_share.Discovery.Secrecy.{published, published_hides_pin}
use titan_share.Discovery.Stop.{IsFreed, run_loop-IsFreed}

abbrev fresh : MdnsAdvertiser
fresh = record {
  simple_poll = false;
  client = false;
  group = none;
  pin = [];
  port = 9999;
  hostname = [];
  running = false;
  pin_dirty = false;
  quit = false;
}

abbrev fine : Outcome
fine = record { new_group = true; add_service = true; commit = true }

abbrev setup : Setup
setup = record {
  poll_made = true;
  client_made = true;
  first_calls = client_state ClientState.running fine ∷ [];
}

-- A round in which the PIN changes, and one in which the end is asked for.
abbrev change : Bytes → Round
change pin = record { requests = new_pin pin ∷ []; calls = []; ret = went_on; outcome = fine }

abbrev last : Round
last = record { requests = ends ∷ []; calls = []; ret = quits; outcome = fine }

-- `avahi_alternative_service_name`, as far as it matters here.
abbrev alternative : Bytes → Bytes
alternative name = name ++ codes " #2"

-- The advertiser when its thread begins.
abbrev started : Bytes → MdnsAdvertiser
started pin = start (codes "arch") pin 9999 [] fresh

published_hides_pin_example :
    published (run_loop alternative setup (change (codes "111111") ∷ []) (started (codes "123456")))
    ≡ published
        (run_loop alternative setup (change (codes "222222") ∷ []) (started (codes "654321")))
unfolding start
published_hides_pin_example =
    published_hides_pin alternative setup (change (codes "111111") ∷ [])
      (change (codes "222222") ∷ []) (started (codes "123456")) (started (codes "654321")) refl refl

run_loop-IsFreed_example :
    IsFreed
      (run_loop alternative setup (change (codes "111111") ∷ last ∷ []) (started (codes "123456")))
unfolding start
run_loop-IsFreed_example =
    run_loop-IsFreed alternative setup (change (codes "111111") ∷ last ∷ [])
      (started (codes "123456")) refl refl refl
