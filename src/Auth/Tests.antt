-- ===== src/Auth/Tests.antt =====
-- Runs of the session manager, and the theorems at concrete inputs.
use mathlib.Core.List.{Mem}
use titan_share.Prelude.{
  ℕ, ◌≡◌, refl, ◌↔◌, true, false, none, some, List, [], ◌∷◌, map, Bytes, codes,
}
use titan_share.Auth.{SessionManager, init, generate_pin, validate_key, ban_secs, escalate}
use titan_share.Auth.Pins.{Refresh, refresh_all, chosen, last_pins, validate_key-refresh_all}
use titan_share.Auth.Ledger.{AuthEvent, failed, run, ledger, clean, Agrees, run-init-Agrees}
use titan_share.Auth.Persist.{Object, Files}

abbrev lowest : ℕ → ℕ → ℕ
lowest lo hi = lo

abbrev phone : Bytes
phone = codes "192.168.1.20"

abbrev start : SessionManager
start = init (codes "10.0.0.2") (codes "desk")

abbrev timer : Refresh
timer = record { preserve_pin = false; loaded = none; ip = codes "10.0.0.2"; dist = lowest }

abbrev first : Refresh
first = record {
  preserve_pin = true;
  loaded = some (codes "123456");
  ip = codes "10.0.0.2";
  dist = lowest;
}

first_pin : generate_pin lowest ≡ codes "100000"
unfolding generate_pin
first_pin = refl

validate_key-refresh_all_example :
    (validate_key (refresh_all (init [] []) (first ∷ timer ∷ [])) (codes "123456") ≡ true)
    ↔ Mem (codes "123456") (last_pins (map chosen (first ∷ timer ∷ [])))
validate_key-refresh_all_example =
    validate_key-refresh_all [] [] (codes "123456") (first ∷ timer ∷ [])

third_ban : ban_secs 2 ≡ 120
unfolding ban_secs escalate
third_ban = refl

eighth_ban : ban_secs 7 ≡ 3600
unfolding ban_secs escalate
eighth_ban = refl

abbrev four : List AuthEvent
four =
    failed phone 1
    ∷ failed phone 2
    ∷ failed (codes "10.0.0.9") 2
    ∷ failed phone 3
    ∷ failed phone 4
    ∷ []

run-init-Agrees_example : Agrees (run (init [] []) four) phone (ledger phone clean four)
run-init-Agrees_example = run-init-Agrees four [] [] phone

abbrev paired : SessionManager
paired = record start { current_pin = codes "424242" }

abbrev no_files : Files Object
no_files = record { session_file = none; pin_ipc = none }
