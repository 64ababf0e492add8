-- ===== src/Auth/Persist.antt =====
-- `persistSession`, `loadPersistedSession` and `toJson`. The JSON library is a parameter: objects
-- are handed to `dump` and come back from `parse`; `T` is the type of its texts.
use titan_share.Config.{tcp_port}
use titan_share.Prelude.{
  ℕ, ◌≡◌, Bool, true, if◌then◌else◌, Option, none, some, [], ◌∷◌, Bytes, codes, lookup, eqb, ap,
  Assoc,
}
use titan_share.Auth.{SessionManager, generate_pin, generate_session}

pub data Value : Type 0 where
  text : Bytes → Value
  number : ℕ → Value

abbrev pub Object : Type 0
Object = Assoc Value

-- What the file system does with one file: `create_directories` raises, the stream does not open,
-- or the text is written.
pub data Opening : Type 0 where
  raises refuses opens : Opening

-- The two files, on disk. `none` is a file that does not exist.
pub record Files {ℓ} (T : Type ℓ) : Type ℓ where
  pub session_file : Option T
  pub pin_ipc : Option T

-- `j["pin"].get<std::string>()`, which raises at a number.
abbrev as_text : Value → Option Bytes
as_text (text s) = some s
as_text (number n) = none

abbrev pin_of : Option Object → Option Bytes
pin_of none = none
pin_of (some o) = elim (lookup (codes "pin") o) [ none ↦ none | some v ↦ as_text v ]

abbrev pub session_object : SessionManager → Object
session_object m =
    (codes "ip", text m.current_ip)
    ∷ (codes "pin", text m.current_pin)
    ∷ (codes "host", text m.hostname)
    ∷ []

abbrev pub ipc_object : SessionManager → Object
ipc_object m =
    (codes "pin", text m.current_pin)
    ∷ (codes "host", text m.hostname)
    ∷ (codes "ip", text m.current_ip)
    ∷ (codes "port", number tcp_port)
    ∷ []

module _ {ℓ} {T : Type ℓ} (dump : Object → T) (parse : T → Option Object) where
  unfoldable pub to_json : SessionManager → T
  to_json m = dump (
      (codes "ip", text m.current_ip)
      ∷ (codes "port", number tcp_port)
      ∷ (codes "pin", text m.current_pin)
      ∷ (codes "host", text m.hostname)
      ∷ [])

  -- An exception at either directory is caught and logged; what was written before it stays.
  unfoldable pub persist_session : Opening → Opening → SessionManager → Files T → Files T
  persist_session raises _ m f = f
  persist_session session ipc m f = record {
    session_file = elim session [ opens ↦ some (dump (session_object m)) | _ ↦ f.session_file ];
    pin_ipc = elim ipc [ opens ↦ some (dump (ipc_object m)) | _ ↦ f.pin_ipc ];
  }

  -- `none` is the result `false`; `readable` is whether the stream opens. A text that does not
  -- parse, or a PIN that is no string, raises, and every exception is swallowed.
  unfoldable pub load_persisted_session : Bool → Files T → Option Bytes
  load_persisted_session readable f = elim f.session_file [
    | none ↦ none
    | some content ↦ if readable then pin_of (parse content) else none
  ]

  -- A daemon that persists its session and starts anew with `preservePin` keeps its PIN, whatever
  -- the IPC file does, if the JSON library reads back what it dumped.
  pub persisted_pin_survives :
      ((o : Object) → parse (dump o) ≡ some o)
      → (ipc : Opening) (m fresh : SessionManager) (f : Files T) (ip : Bytes) (dist : ℕ → ℕ → ℕ)
      → (generate_session true
          (load_persisted_session true (persist_session opens ipc m f))
          ip
          dist
          fresh).current_pin
        ≡ m.current_pin
  unfolding generate_session load_persisted_session persist_session lookup eqb
  persisted_pin_survives reads_back ipc m fresh f ip dist =
      ap (λ r. elim (pin_of r) [ some p ↦ p | none ↦ generate_pin dist ])
        (reads_back (session_object m))
