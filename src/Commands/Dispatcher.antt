-- ===== src/Commands/Dispatcher.antt =====
-- src/commands/command_dispatcher.cpp: the command line of a paired phone, by its first word.
use titan_share.Config.{mirror_port}
use titan_share.Prelude.{
  ℕ, ◌+◌, Bool, true, false, ◌||◌, if◌then◌else◌, Option, none, some, List, [], ◌∷◌, ◌++◌, Bytes,
  codes, eqb, find, substr, substr_from, stoi,
}
use titan_share.Input.{
  VirtualInput, InputEvent, init, uninitialized, move_mouse, scroll_wheel, click_mouse, mouse_down,
  mouse_up, type_text, press_key,
}
use titan_share.Commands.Shell.{Host}
use titan_share.Commands.System.{power, volume, lock_command, cmd_ok, cmd_fail, cmd_unknown}

-- What the dispatcher asks of the rest: the JSON answers, the address, and whether the mirror
-- receiver starts (`Mirror` has the receiver).
pub record Services : Type 0 where
  pub host : Host
  pub local_ip : Bytes
  pub mirror_starts : List Bytes → Bool
  pub dump_mirror : Bytes → Bytes → ℕ → Bytes
  -- `none` where the JSON library raises.
  pub dump_info : List Bytes → Option Bytes

-- `m_input`, whether `m_mirror` exists and runs, the shell commands run and the input events
-- written, newest first. A mirror whose worker ends by itself is `some false` from then on.
pub record Dispatcher : Type 0 where
  pub input : Option VirtualInput
  pub mirror : Option Bool
  pub commands : List Bytes
  pub emitted : List (List InputEvent)

-- The constructor and `init`, on what the two `open` calls of `VirtualInput::init` give: the devices
-- are there also where they could not be opened.
unfoldable pub init_dispatcher : Option ℕ → Option ℕ → Dispatcher
init_dispatcher mouse kb = record {
  input = some (init mouse kb uninitialized).1;
  mirror = none;
  commands = [];
  emitted = [];
}

-- The response and the new state; `none` is an exception that no one catches.
abbrev pub Answer : Type 0
Answer = Option (Bytes × Dispatcher)

abbrev shell : Dispatcher → (Bytes × List Bytes) → Answer
shell d r = some (r.0, record d { commands = r.1 })

abbrev emit : Dispatcher → List InputEvent → Answer
emit d es = some ([], record d { emitted = es ∷ d.emitted })

-- "dx:dy"; without a colon nothing moves.
unfoldable pub mouse_move : VirtualInput → Bytes → Dispatcher → Answer
mouse_move v text d = elim (find text b':') [
  | none ↦ some ([], d)
  | some sep ↦ elim (stoi (substr text 0 sep)) [
    | none ↦ none
    | some dx ↦ elim (stoi (substr_from text (sep + 1))) [
      | none ↦ none
      | some dy ↦ emit d (move_mouse v dx dy)
    ]
  ]
]

mouse_scroll : VirtualInput → Bytes → Dispatcher → Answer
mouse_scroll v text d = elim (stoi text) [ none ↦ none | some dy ↦ emit d (scroll_wheel v dy) ]

handle_input : VirtualInput → Bytes → Dispatcher → Answer
unfolding mouse_move mouse_scroll
handle_input v cmd d =
    if eqb (substr cmd 0 11) (codes "MOUSE_MOVE:")
    then mouse_move v (substr_from cmd 11) d
    else if eqb (substr cmd 0 13) (codes "MOUSE_SCROLL:")
    then mouse_scroll v (substr_from cmd 13) d
    else if eqb (substr cmd 0 12) (codes "MOUSE_CLICK:")
    then emit d (click_mouse v (substr_from cmd 12))
    else if eqb (substr cmd 0 11) (codes "MOUSE_DOWN:")
    then emit d (mouse_down v (substr_from cmd 11))
    else if eqb (substr cmd 0 9) (codes "MOUSE_UP:")
    then emit d (mouse_up v (substr_from cmd 9))
    else if eqb (substr cmd 0 9) (codes "KEY_TYPE:")
    then emit d (type_text v (substr_from cmd 9))
    else if eqb (substr cmd 0 10) (codes "KEY_PRESS:")
    then emit d (press_key v (substr_from cmd 10))
    else some (cmd_fail, d)

unfoldable pub handle_input_command : Bytes → Dispatcher → Answer
unfolding handle_input
handle_input_command cmd d = elim d.input [
  | none ↦ some (cmd_fail, d)
  | some v ↦ handle_input v cmd d
]

mirror_answer : Services → Bytes → Bytes
mirror_answer sv kind = sv.dump_mirror kind sv.local_ip mirror_port ++ b'\n' ∷ []

-- The answer to get_info (`Commands.Info` has how it is put together).
unfoldable pub system_info : Services → Dispatcher → Answer
system_info sv d = elim (sv.dump_info d.commands) [
  | none ↦ none
  | some json ↦ some (json ++ b'\n' ∷ [], d)
]

-- A receiver is made if there is none; one that runs is left alone.
start_mirror : Services → Dispatcher → Answer
unfolding mirror_answer
start_mirror sv d = elim d.mirror [
  | some true ↦ some (mirror_answer sv (codes "MIRROR_READY"), d)
  | _ ↦
      if sv.mirror_starts d.commands
      then some (mirror_answer sv (codes "MIRROR_READY"), record d { mirror = some true })
      else some (mirror_answer sv (codes "MIRROR_ERROR"), record d { mirror = some false })
]

stop_mirror : Dispatcher → Answer
stop_mirror d = elim d.mirror [
  | none ↦ some (cmd_ok, d)
  | some _ ↦ some (cmd_ok, record d { mirror = some false })
]

unfoldable pub handle_mirror_command : Services → Bytes → Dispatcher → Answer
unfolding start_mirror stop_mirror
handle_mirror_command sv cmd d =
    if eqb cmd (codes "START_MIRROR")
    then start_mirror sv d
    else if eqb cmd (codes "STOP_MIRROR")
    then stop_mirror d
    else some (cmd_fail, d)

unfoldable pub is_input : Bytes → Bool
is_input cmd =
    eqb (substr cmd 0 11) (codes "MOUSE_MOVE:")
    || (eqb (substr cmd 0 13) (codes "MOUSE_SCROLL:")
        || (eqb (substr cmd 0 12) (codes "MOUSE_CLICK:")
            || (eqb (substr cmd 0 11) (codes "MOUSE_DOWN:")
                || (eqb (substr cmd 0 9) (codes "MOUSE_UP:")
                    || (eqb (substr cmd 0 9) (codes "KEY_TYPE:")
                        || eqb (substr cmd 0 10) (codes "KEY_PRESS:"))))))

abbrev pub one_of : Bytes → List Bytes → Bool
one_of cmd [] = false
one_of cmd (name ∷ names) = eqb cmd name || one_of cmd names

unfoldable pub dispatch : Services → Bytes → Dispatcher → Answer
dispatch sv cmd d =
    if one_of cmd (codes "shutdown" ∷ codes "reboot" ∷ codes "sleep" ∷ [])
    then shell d (power sv.host cmd d.commands)
    else if one_of cmd (codes "volume_up" ∷ codes "volume_down" ∷ codes "mute" ∷ [])
    then shell d (volume sv.host cmd d.commands)
    else if one_of cmd (codes "lock" ∷ codes "unlock" ∷ codes "wakeup" ∷ [])
    then shell d (lock_command sv.host cmd d.commands)
    else if eqb cmd (codes "get_info")
    then system_info sv d
    else if one_of cmd (codes "START_MIRROR" ∷ codes "STOP_MIRROR" ∷ [])
    then handle_mirror_command sv cmd d
    else if is_input cmd
    then handle_input_command cmd d
    else some (cmd_unknown, d)
