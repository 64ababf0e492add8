-- ===== src/Session/State.antt =====
-- The state of `ClientSession`, what it does to the outside (`Event`), and what the outside answers
-- (`Env`). An answer is any function of all that happened before, so a clock, a file system and a
-- dispatcher may answer differently each time. An exception that leaves a method is `threw`: no
-- caller up to `main` catches it, and the process ends.
use titan_share.Auth.{SessionManager}
use titan_share.Prelude.{ℕ, ◌≡◌, refl, Bool, false, Option, none, List, [], ◌∷◌, Bytes}

pub data Stage : Type 0 where
  auth header file_data : Stage

-- The members of the class. `m_ssl`, `m_sessionMgr` and `m_dispatcher` are in the environment;
-- `none` for a descriptor is -1.
pub record Session : Type 0 where
  pub fd : ℕ
  pub remote_ip : Bytes
  pub stage : Stage
  pub buffer : Bytes
  pub buffer_offset : ℕ
  pub session_key : Bytes
  pub auth_attempts : ℕ
  pub closed : Bool
  pub file_name : Bytes
  pub expected_bytes : ℕ
  pub received_bytes : ℕ
  pub last_progress_update : ℕ
  pub file_fd : Option ℕ

-- The constructor, on the descriptor and the peer's address.
unfoldable pub new_session : ℕ → Bytes → Session
new_session fd ip = record {
  fd = fd;
  remote_ip = ip;
  stage = auth;
  buffer = [];
  buffer_offset = 0;
  session_key = [];
  auth_attempts = 0;
  closed = false;
  file_name = [];
  expected_bytes = 0;
  received_bytes = 0;
  last_progress_update = 0;
  file_fd = none;
}

pub data Event : Type 0 where
  -- `sendResponse`.
  sent : Bytes → Event
  -- `close` of the socket or of a file.
  closes : ℕ → Event
  -- `create_directories` of a directory, and `open` of a file to receive into.
  makes_dirs : Bytes → Event
  opens : Bytes → Event
  -- Bytes that `write` took.
  writes : ℕ → Bytes → Event
  -- `publishTransferState`: active, sending, the file, and the two numbers whose quotient is shown.
  publishes : Bool → Bool → Bytes → ℕ → ℕ → Event
  -- A call of the dispatcher, of `pushFileList` and of `pushFile`.
  dispatches : Bytes → Event
  lists_files : Event
  pushes : Bytes → Event
  -- Bytes of a pushed file that the socket took.
  streams : Bytes → Event
  -- The `poll` of `pushFile` for room to write.
  waits : Event

-- What a write to the socket of `pushFile` does; `again` is EAGAIN or EWOULDBLOCK.
pub data Taken : Type 0 where
  took : ℕ → Taken
  again fails : Taken

pub record Env : Type 0 where
  -- `steady_clock::now()`, in ticks of a nanosecond.
  pub now : List Event → ℕ
  -- Whether `create_directories` returns; it raises otherwise.
  pub dirs_made : List Event → Bytes → Bool
  pub open_file : List Event → Bytes → Option ℕ
  -- `write`; `none` is -1.
  pub write_file : List Event → ℕ → Bytes → Option ℕ
  -- `CommandDispatcher::dispatch`; `none` is an exception.
  pub dispatch : List Event → Bytes → Option Bytes
  -- The directory that /received_files and /send_to_android stand in.
  pub data_dir : Bytes
  pub ipc_dir : Bytes
  -- Whether the stream on the progress file opens, and whether the JSON library dumps an object with
  -- that text; it raises otherwise, as it does on a text that is no UTF-8.
  pub progress_opens : List Event → Bool
  pub dumps : Bytes → Bool
  -- The regular files of the drop folder with their sizes, `none` where the file system raises; and
  -- the JSON answer made of them, `none` where the library raises.
  pub folder : List Event → Option (List (Bytes × ℕ))
  pub dump_files : List (Bytes × ℕ) → Option Bytes
  -- `exists` and `is_regular_file`, and `file_size`, `none` where they raise; and what a stream
  -- opened on the path would read.
  pub is_file : List Event → Bytes → Option Bool
  pub file_size : List Event → Bytes → Option ℕ
  pub content : List Event → Bytes → Option Bytes
  -- `SSL_write` or `send`, by `pushFile`.
  pub write_socket : List Event → Bytes → Taken
  -- How many calls of it the model follows for one chunk.
  pub patience : ℕ

-- The shared state: the events, newest first, and the session manager.
pub record World : Type 0 where
  pub trace : List Event
  pub manager : SessionManager

abbrev pub note : Event → World → World
note e w = record w { trace = e ∷ w.trace }

pub data Exec {ℓ} (A : Type ℓ) : Type ℓ where
  ran : A → Exec A
  threw : Exec A
  -- A loop of the model ran out of rounds.
  starved : Exec A

infixl 5 ◌>>=◌
abbrev pub ◌>>=◌ {ℓ κ} : {A : Type ℓ} {B : Type κ} → Exec A → (A → Exec B) → Exec B
ran a >>= f = f a
threw >>= f = threw
starved >>= f = starved

pub bind_assoc :
    {A B C : Type 0} (m : Exec A) (f : A → Exec B) (g : B → Exec C)
    → ((m >>= f) >>= g) ≡ (m >>= λ a. f a >>= g)
bind_assoc (ran a) f g = refl
bind_assoc threw f g = refl
bind_assoc starved f g = refl

pub bind_cong :
    {A B : Type 0} (m : Exec A) (f g : A → Exec B) → ((a : A) → f a ≡ g a) → (m >>= f) ≡ (m >>= g)
bind_cong (ran a) f g h = h a
bind_cong threw f g h = refl
bind_cong starved f g h = refl

pub bind_ran : {A : Type 0} (m : Exec A) → (m >>= λ a. ran a) ≡ m
bind_ran (ran a) = refl
bind_ran threw = refl
bind_ran starved = refl

-- Whatever comes back satisfies `P`.
abbrev pub Holds {ℓ κ} : {A : Type ℓ} → (A → Type κ) → Exec A → Type κ
Holds P (ran a) = P a
Holds P threw = Unit
Holds P starved = Unit

-- The rule for a bind.
pub Holds-bind {ℓ κ} :
    {A : Type ℓ} {B : Type κ} (P : A → Type 0) (Q : B → Type 0) (m : Exec A) (f : A → Exec B)
    → Holds P m
    → ((a : A) → P a → Holds Q (f a))
    → Holds Q (m >>= f)
Holds-bind P Q (ran a) f h k = k a h
Holds-bind P Q threw f h k = tt
Holds-bind P Q starved f h k = tt

-- The same, and the model did not run out of rounds.
abbrev pub Ends {ℓ} : {A : Type ℓ} → (A → Type 0) → Exec A → Type 0
Ends P (ran a) = P a
Ends P threw = Unit
Ends P starved = ⊥

pub Ends-bind {ℓ κ} :
    {A : Type ℓ} {B : Type κ} (P : A → Type 0) (Q : B → Type 0) (m : Exec A) (f : A → Exec B)
    → Ends P m
    → ((a : A) → P a → Ends Q (f a))
    → Ends Q (m >>= f)
Ends-bind P Q (ran a) f h k = k a h
Ends-bind P Q threw f h k = tt
Ends-bind P Q starved f h k = elim h [ ]

-- The computation returns, and its result satisfies `P`.
abbrev pub Returns {ℓ} : {A : Type ℓ} → (A → Type 0) → Exec A → Type 0
Returns P (ran a) = P a
Returns P threw = ⊥
Returns P starved = ⊥

pub Returns-bind {ℓ κ} :
    {A : Type ℓ} {B : Type κ} (P : A → Type 0) (Q : B → Type 0) (m : Exec A) (f : A → Exec B)
    → Returns P m
    → ((a : A) → P a → Returns Q (f a))
    → Returns Q (m >>= f)
Returns-bind P Q (ran a) f h k = k a h
Returns-bind P Q threw f h k = elim h [ ]
Returns-bind P Q starved f h k = elim h [ ]

pub Returns-map {ℓ} :
    {A : Type ℓ} (P Q : A → Type 0) (m : Exec A) → ((a : A) → P a → Q a) → Returns P m → Returns Q m
Returns-map P Q (ran a) f h = f a h
Returns-map P Q threw f h = h
Returns-map P Q starved f h = h
