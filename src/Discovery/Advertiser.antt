-- ===== src/Discovery/Advertiser.antt =====
-- The members of `MdnsAdvertiser`, its operations, and the loop of its thread. Avahi is a parameter:
-- what its calls return, and which callbacks it makes, come in from outside. An entry group is what
-- Avahi documents: the services added to it, which a reset takes out.
use titan_share.Prelude.{
  ℕ, Bool, true, false, ◌||◌, if◌then◌else◌, Option, none, some, List, [], ◌∷◌, Bytes, codes,
  is_empty, to_string,
}
use titan_share.Config.{mdns_service_type, daemon_version}

-- What `avahi_entry_group_add_service_strlst` gets; the text is in the order of the calls.
pub record Service : Type 0 where
  pub name : Bytes
  pub type : Bytes
  pub port : ℕ
  pub txt : List (Bytes × Bytes)

pub record Group : Type 0 where
  pub services : List Service
  pub committed : Bool

pub record MdnsAdvertiser : Type 0 where
  pub simple_poll : Bool
  pub client : Bool
  pub group : Option Group
  pub pin : Bytes
  pub port : ℕ
  pub hostname : Bytes
  pub running : Bool
  pub pin_dirty : Bool
  -- `avahi_simple_poll_quit` was called on the poll.
  pub quit : Bool

-- Whether the calls of `createServices` succeed: a new group, the service, the commit.
pub record Outcome : Type 0 where
  pub new_group : Bool
  pub add_service : Bool
  pub commit : Bool

abbrev pub empty_group : Group
empty_group = record { services = []; committed = false }

-- The text record: host, port, version and application.
unfoldable pub text_record : MdnsAdvertiser → List (Bytes × Bytes)
text_record a =
    (codes "host", a.hostname)
    ∷ (codes "port", to_string a.port)
    ∷ (codes "ver", daemon_version)
    ∷ (codes "app", codes "titanshare")
    ∷ []

unfoldable pub service_of : MdnsAdvertiser → Service
unfolding text_record
service_of a = record {
  name = a.hostname;
  type = mdns_service_type;
  port = a.port;
  txt = text_record a;
}

no_services : List Service → Bool
no_services [] = true
no_services (_ ∷ _) = false

-- The part of `createServices` on a group that exists.
unfoldable pub fill_group : Outcome → Service → Group → Group
unfolding no_services
fill_group o service g =
    if no_services g.services
    then if o.add_service then record { services = service ∷ []; committed = o.commit } else g
    else g

-- `createServices`.
unfoldable pub create_services : Outcome → MdnsAdvertiser → MdnsAdvertiser
unfolding fill_group service_of
create_services o a = elim a.group [
  | none ↦
      if o.new_group then record a { group = some (fill_group o (service_of a) empty_group) } else a
  | some g ↦ record a { group = some (fill_group o (service_of a) g) }
]

-- `avahi_entry_group_reset`.
unfoldable pub reset_group : Option Group → Option Group
reset_group none = none
reset_group (some g) = some empty_group

pub data ClientState : Type 0 where
  running : ClientState
  failure : ClientState
  collision : ClientState
  registering : ClientState
  connecting : ClientState

pub data GroupState : Type 0 where
  uncommitted : GroupState
  registering : GroupState
  established : GroupState
  collision : GroupState
  failure : GroupState

-- `clientCallback`.
unfoldable pub client_callback : Outcome → ClientState → MdnsAdvertiser → MdnsAdvertiser
unfolding create_services reset_group
client_callback o ClientState.running a = create_services o a
client_callback o ClientState.failure a = record a { quit = true }
client_callback o ClientState.collision a = record a { group = reset_group a.group }
client_callback o ClientState.registering a = record a { group = reset_group a.group }
client_callback o ClientState.connecting a = a

-- `groupCallback`, with `avahi_alternative_service_name`.
unfoldable pub group_callback :
    (Bytes → Bytes) → Outcome → GroupState → MdnsAdvertiser → MdnsAdvertiser
unfolding create_services
group_callback alternative o GroupState.collision a =
    create_services o (record a { hostname = alternative a.hostname })
group_callback alternative o GroupState.failure a = record a { quit = true }
group_callback alternative o GroupState.uncommitted a = a
group_callback alternative o GroupState.registering a = a
group_callback alternative o GroupState.established a = a

pub data Callback : Type 0 where
  client_state : ClientState → Outcome → Callback
  group_state : GroupState → Outcome → Callback

unfoldable pub callback : (Bytes → Bytes) → Callback → MdnsAdvertiser → MdnsAdvertiser
unfolding client_callback group_callback
callback alternative (client_state st o) a = client_callback o st a
callback alternative (group_state st o) a = group_callback alternative o st a

-- The callbacks that one call of Avahi makes.
unfoldable pub callbacks : (Bytes → Bytes) → List Callback → MdnsAdvertiser → MdnsAdvertiser
callbacks alternative [] a = a
callbacks alternative (c ∷ cs) a = callbacks alternative cs (callback alternative c a)

-- `start`, up to the thread; `gethostname` gives the name where none is given.
unfoldable pub start : Bytes → Bytes → ℕ → Bytes → MdnsAdvertiser → MdnsAdvertiser
start gethostname new_pin new_port name a = record a {
  pin = new_pin;
  port = new_port;
  hostname = if is_empty name then gethostname else name;
  running = true;
}

-- `updatePin`.
unfoldable pub update_pin : Bytes → MdnsAdvertiser → MdnsAdvertiser
update_pin new_pin a = record a { pin = new_pin; pin_dirty = true }

-- `stop`, up to the wait for the thread.
unfoldable pub stop : MdnsAdvertiser → MdnsAdvertiser
stop a = record a { running = false; quit = a.simple_poll || a.quit }
