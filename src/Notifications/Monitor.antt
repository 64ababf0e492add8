-- ===== src/Notifications/Monitor.antt =====
-- `monitorLoop`. D-Bus is a parameter: the messages that it hands out, with their arguments.
use titan_share.Prelude.{
  Bool, true, false, if◌then◌else◌, Option, none, some, List, [], ◌∷◌, Bytes, is_empty,
}

-- An argument as its iterator sees it: a string, a string that cannot be had, or another type.
pub data Arg : Type 0 where
  text : Bytes → Arg
  no_text other : Arg

pub record Notification : Type 0 where
  pub app_name : Bytes
  pub summary : Bytes
  pub body : Bytes
  pub icon : Bytes

-- `dbus_message_is_method_call` for Notify, and the arguments.
pub record Message : Type 0 where
  pub is_notify : Bool
  pub args : List Arg

-- `dbus_message_iter_next`, which stays at the end.
abbrev pub next_arg : List Arg → List Arg
next_arg [] = []
next_arg (a ∷ as') = as'

-- A string argument is taken and the iterator moved on; another is left, with the empty default.
unfoldable pub take_text : List Arg → Bytes × List Arg
take_text (text s ∷ rest) = (s, rest)
take_text (no_text ∷ rest) = ([], rest)
take_text (other ∷ rest) = ([], other ∷ rest)
take_text [] = ([], [])

-- The arguments of Notify in their order; the second one is passed over whatever it is.
unfoldable pub read_notification : List Arg → Notification
read_notification args =
    let (app, rest) = take_text args in
    let (ico, rest') = take_text (next_arg rest) in
    let (summ, rest'') = take_text rest' in
    record { app_name = app; summary = summ; body = (take_text rest'').0; icon = ico }

-- What the callback gets; `dbus_message_iter_init` fails without arguments.
unfoldable pub on_message : Message → Option Notification
on_message m =
    if m.is_notify
    then elim m.args [
      | [] ↦ none
      | a ∷ as' ↦ let n = read_notification (a ∷ as') in if is_empty n.summary then none else some n
    ]
    else none

pub record Bridge : Type 0 where
  pub has_callback : Bool
  pub running : Bool

-- `startMonitoring` and `stopMonitoring`, without the thread.
unfoldable pub start_monitoring : Bridge → Bridge
start_monitoring b = if b.running then b else record b { running = true }

unfoldable pub stop_monitoring : Bridge → Bridge
stop_monitoring b = record b { running = false }

called : Bool → Option Notification → List Notification → List Notification
called false n rest = rest
called true none rest = rest
called true (some n) rest = n ∷ rest

-- One turn: whether the monitor still runs, and the message, if there is one.
pub record Turn : Type 0 where
  pub still_running : Bool
  pub message : Option Message

of_turn : Option Message → Option Notification
unfolding on_message
of_turn none = none
of_turn (some m) = on_message m

-- The loop: the notifications that the callback gets, in their order.
unfoldable pub listen : Bool → List Turn → List Notification
unfolding called of_turn
listen callback [] = []
listen callback (t ∷ ts) =
    let rest = listen callback ts in
    if t.still_running then called callback (of_turn t.message) rest else []

-- `monitorLoop`, with a connection or without.
unfoldable pub monitor_loop : Bridge → Bool → List Turn → List Notification
monitor_loop b connected ts = if connected then listen b.has_callback ts else []
