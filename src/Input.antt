-- ===== src/Input.antt =====
-- src/input/virtual_input.cpp: what the two uinput devices are told. Key codes are the kernel's; the
-- model keeps their names, and `char_key c` is the key with the character `c` on it (KEY_A is
-- `char_key` of 'a', KEY_MINUS that of '-'). Events are listed in the order of the writes.
pub mod Typing
pub mod Device
mod Tests
use titan_share.Prelude.{
  ℕ, ◌+◌, ◌≤◌, ltb, leb, ◌==◌, Bool, true, false, ◌&&◌, ◌||◌, if◌then◌else◌, Option, none, some,
  List, [], ◌∷◌, ◌++◌, Bytes, codes, eqb, ℤ, pos, negsuc,
}

pub data KeyCode : Type 0 where
  char_key : ℕ → KeyCode
  key_space key_enter key_tab key_backspace key_leftshift key_esc key_print key_leftalt : KeyCode
  key_capslock key_delete key_home key_end key_up key_down key_left key_right : KeyCode

pub data Button : Type 0 where
  btn_left btn_right btn_middle : Button

pub data Axis : Type 0 where
  rel_x rel_y rel_wheel : Axis

-- One `emit`: EV_REL and EV_KEY on the mouse, EV_KEY on the keyboard (value 1 is down, 0 is up), and
-- SYN_REPORT on either.
pub data InputEvent : Type 0 where
  moves : Axis → ℤ → InputEvent
  button : Button → Bool → InputEvent
  mouse_syn kb_syn : InputEvent
  key : KeyCode → Bool → InputEvent

-- `m_initialized`, and the descriptors of the two devices; `none` is -1.
pub record VirtualInput : Type 0 where
  pub mouse_fd : Option ℕ
  pub kb_fd : Option ℕ
  pub initialized : Bool

unfoldable pub uninitialized : VirtualInput
uninitialized = record { mouse_fd = none; kb_fd = none; initialized = false }

-- `init`, on what the two `open` calls give; the keyboard is not tried after a failed mouse.
unfoldable pub init : Option ℕ → Option ℕ → VirtualInput → Bool × VirtualInput
init none kb v = (false, record v { mouse_fd = none })
init (some mouse) none v = (false, record v { mouse_fd = some mouse; kb_fd = none })
init (some mouse) (some kb) v =
    (true, record v { mouse_fd = some mouse; kb_fd = some kb; initialized = true })

unfoldable pub move_mouse : VirtualInput → ℤ → ℤ → List InputEvent
move_mouse v dx dy = if v.initialized then moves rel_x dx ∷ moves rel_y dy ∷ mouse_syn ∷ [] else []

unfoldable pub scroll_wheel : VirtualInput → ℤ → List InputEvent
scroll_wheel v dy = if v.initialized then moves rel_wheel dy ∷ mouse_syn ∷ [] else []

unfoldable pub get_button_code : Bytes → Button
get_button_code name =
    if eqb name (codes "LEFT")
    then btn_left
    else if eqb name (codes "RIGHT")
    then btn_right
    else if eqb name (codes "MIDDLE")
    then btn_middle
    else btn_left

unfoldable pub click_mouse : VirtualInput → Bytes → List InputEvent
click_mouse v name =
    let btn = get_button_code name in
    if v.initialized then button btn true ∷ mouse_syn ∷ button btn false ∷ mouse_syn ∷ [] else []

unfoldable pub mouse_down : VirtualInput → Bytes → List InputEvent
mouse_down v name =
    if v.initialized then button (get_button_code name) true ∷ mouse_syn ∷ [] else []

unfoldable pub mouse_up : VirtualInput → Bytes → List InputEvent
mouse_up v name = if v.initialized then button (get_button_code name) false ∷ mouse_syn ∷ [] else []

unfoldable pub type_key_code : KeyCode → Bool → List InputEvent
type_key_code code shift =
    let down = if shift then key key_leftshift true ∷ kb_syn ∷ [] else [] in
    let up = if shift then key key_leftshift false ∷ kb_syn ∷ [] else [] in
    down ++ (key code true ∷ kb_syn ∷ key code false ∷ kb_syn ∷ []) ++ up

-- The symbols of `initAsciiMap`: the character, the character on its key, and shift.
abbrev symbols : List (ℕ × ℕ × Bool)
symbols =
    (b'!', b'1', true)
    ∷ (b'@', b'2', true)
    ∷ (b'#', b'3', true)
    ∷ (b'$', b'4', true)
    ∷ (b'%', b'5', true)
    ∷ (b'^', b'6', true)
    ∷ (b'&', b'7', true)
    ∷ (b'*', b'8', true)
    ∷ (b'(', b'9', true)
    ∷ (b')', b'0', true)
    ∷ (b'-', b'-', false)
    ∷ (b'_', b'-', true)
    ∷ (b'=', b'=', false)
    ∷ (b'+', b'=', true)
    ∷ (b'[', b'[', false)
    ∷ (b'{', b'[', true)
    ∷ (b']', b']', false)
    ∷ (b'}', b']', true)
    ∷ (92, 92, false)
    ∷ (b'|', 92, true)
    ∷ (b';', b';', false)
    ∷ (b':', b';', true)
    ∷ (39, 39, false)
    ∷ (34, 39, true)
    ∷ (b',', b',', false)
    ∷ (b'<', b',', true)
    ∷ (b'.', b'.', false)
    ∷ (b'>', b'.', true)
    ∷ (b'/', b'/', false)
    ∷ (b'?', b'/', true)
    ∷ (b'`', b'`', false)
    ∷ (b'~', b'`', true)
    ∷ []

symbol_of : ℕ → List (ℕ × ℕ × Bool) → Option (KeyCode × Bool)
symbol_of c [] = none
symbol_of c ((d, k, shift) ∷ rest) =
    let later = symbol_of c rest in if c == d then some (char_key k, shift) else later

-- `m_asciiMap` once `initAsciiMap` has run; `none` is the entry with code 0.
unfoldable pub ascii_map : ℕ → Option (KeyCode × Bool)
unfolding symbol_of
ascii_map c =
    if leb b'a' c && leb c b'z'
    then some (char_key c, false)
    else if leb b'A' c && leb c b'Z'
    then some (char_key (c + 32), true)
    else if leb b'0' c && leb c b'9'
    then some (char_key c, false)
    else if c == b' '
    then some (key_space, false)
    else if c == b'\n'
    then some (key_enter, false)
    else if c == b'\t'
    then some (key_tab, false)
    else symbol_of c symbols

-- One character of `typeText`; a byte from 128 on is a negative `char` and is skipped.
unfoldable pub type_char : ℕ → List InputEvent
type_char c =
    if ltb c 128
    then elim (ascii_map c) [ none ↦ [] | some (code, shift) ↦ type_key_code code shift ]
    else []

unfoldable pub type_chars : Bytes → List InputEvent
type_chars [] = []
type_chars (c ∷ cs) = type_char c ++ type_chars cs

unfoldable pub type_text : VirtualInput → Bytes → List InputEvent
type_text v text = if v.initialized then type_chars text else []

unfoldable pub get_key_code_from_name : Bytes → Option KeyCode
get_key_code_from_name name =
    if eqb name (codes "BACKSPACE")
    then some key_backspace
    else if eqb name (codes "ENTER")
    then some key_enter
    else if eqb name (codes "TAB")
    then some key_tab
    else if eqb name (codes "SHIFT")
    then some key_leftshift
    else if eqb name (codes "ESC")
    then some key_esc
    else if eqb name (codes "SPACE")
    then some key_space
    else if eqb name (codes "PRINTSCREEN")
    then some key_print
    else if eqb name (codes "LALT")
    then some key_leftalt
    else if eqb name (codes "CAPSLOCK")
    then some key_capslock
    else if eqb name (codes "DELETE")
    then some key_delete
    else if eqb name (codes "HOME")
    then some key_home
    else if eqb name (codes "END")
    then some key_end
    else if eqb name (codes "UP")
    then some key_up
    else if eqb name (codes "DOWN")
    then some key_down
    else if eqb name (codes "LEFT")
    then some key_left
    else if eqb name (codes "RIGHT")
    then some key_right
    else none

unfoldable pub press_key : VirtualInput → Bytes → List InputEvent
press_key v name =
    if v.initialized
    then elim (get_key_code_from_name name) [
      | none ↦ []
      | some code ↦ key code true ∷ kb_syn ∷ key code false ∷ kb_syn ∷ []
    ]
    else []
