-- ===== src/Input/Device.antt =====
-- src/input/virtual_input.cpp: the set-up of the two uinput devices and their end. Each call stands
-- with the descriptor it is made on. The results of `ioctl` and `write` are not looked at.
use titan_share.Prelude.{
  ℕ, zero, suc, ◌+◌, ◌<◌, ◌≤◌, ◌==◌, ◌≡◌, refl, Bool, true, false, ◌||◌, Option, none, some, List,
  [], ◌∷◌, ◌++◌, take, Bytes, codes, arith, Bool-cases, inl, inr,
}
use titan_share.Input.{
  KeyCode, Button, btn_left, btn_right, btn_middle, Axis, rel_x, rel_y, rel_wheel, InputEvent,
  moves, button, mouse_syn, kb_syn, key, VirtualInput, init, uninitialized,
}

pub data EventType : Type 0 where
  ev_key ev_rel : EventType

-- The calls on a descriptor. `write_device` is the `uinput_user_dev` with its name and product.
pub data UinputCall : Type 0 where
  set_evbit : EventType → UinputCall
  set_button : Button → UinputCall
  set_keybit : ℕ → UinputCall
  set_relbit : Axis → UinputCall
  write_device : Bytes → ℕ → UinputCall
  dev_create dev_destroy close_fd : UinputCall

unfoldable pub mouse_device_name : Bytes
mouse_device_name = codes "TitanShare Mouse"

unfoldable pub keyboard_device_name : Bytes
keyboard_device_name = codes "TitanShare Keyboard"

-- `strncpy` up to UINPUT_MAX_NAME_SIZE - 1.
unfoldable pub user_dev : Bytes → ℕ → UinputCall
user_dev name product = write_device (take 79 name) product

-- `createMouse` on an open descriptor.
unfoldable pub create_mouse : List UinputCall
unfolding user_dev mouse_device_name
create_mouse =
    set_evbit ev_key
    ∷ set_button btn_left
    ∷ set_button btn_right
    ∷ set_button btn_middle
    ∷ set_evbit ev_rel
    ∷ set_relbit rel_x
    ∷ set_relbit rel_y
    ∷ set_relbit rel_wheel
    ∷ user_dev mouse_device_name 2
    ∷ dev_create
    ∷ []

-- The loop of `createKeyboard`, from `i` on.
unfoldable pub set_keybits : ℕ → ℕ → List UinputCall
set_keybits zero i = []
set_keybits (suc left) i = set_keybit i ∷ set_keybits left (suc i)

-- `createKeyboard` on an open descriptor.
unfoldable pub create_keyboard : List UinputCall
create_keyboard =
    set_evbit ev_key ∷ set_keybits 254 1 ++ (user_dev keyboard_device_name 3 ∷ dev_create ∷ [])

abbrev on_fd : ℕ → List UinputCall → List (ℕ × UinputCall)
on_fd fd [] = []
on_fd fd (c ∷ cs) = (fd, c) ∷ on_fd fd cs

-- The calls of `init`, on what the two `open` calls give.
unfoldable pub init_calls : Option ℕ → Option ℕ → List (ℕ × UinputCall)
init_calls none kb = []
init_calls (some mouse) none = on_fd mouse create_mouse
init_calls (some mouse) (some kb) = on_fd mouse create_mouse ++ on_fd kb create_keyboard

abbrev destroy_fd : Option ℕ → List (ℕ × UinputCall)
destroy_fd none = []
destroy_fd (some fd) = (fd, dev_destroy) ∷ (fd, close_fd) ∷ []

-- The destructor.
unfoldable pub destroy_devices : VirtualInput → List (ℕ × UinputCall)
destroy_devices v = destroy_fd v.mouse_fd ++ destroy_fd v.kb_fd

-- Whether the key with this code was enabled.
enables_key : ℕ → List UinputCall → Bool
enables_key k [] = false
enables_key k (set_keybit i ∷ cs) = (k == i) || enables_key k cs
enables_key k (_ ∷ cs) = enables_key k cs

-- The loop enables each code of its range, whatever follows it.
enables_key-set_keybits :
    (left i k : ℕ) (rest : List UinputCall)
    → i ≤ k
    → k < i + left
    → enables_key k (set_keybits left i ++ rest) ≡ true
unfolding enables_key set_keybits
enables_key-set_keybits zero i k rest low high = absurd (omega arith)
enables_key-set_keybits (suc left) i k rest low high = elim (Bool-cases (k == i)) [
  | inl same ↦ rw same
  | inr other ↦ ground (arith, enables_key-set_keybits left (suc i) k rest)
]

-- Every key code from 1 to 254 is enabled on the keyboard.
enables_key-create_keyboard : (k : ℕ) → 1 ≤ k → k < 255 → enables_key k create_keyboard ≡ true
unfolding create_keyboard enables_key
enables_key-create_keyboard k low high =
    enables_key-set_keybits 254 1 k (user_dev keyboard_device_name 3 ∷ dev_create ∷ []) low
      (omega arith)

-- What `init` opened, the destructor ends: also the mouse that is open when the keyboard fails.
destroy_devices-init :
    (mouse kb : ℕ)
    → (destroy_devices (init (some mouse) (some kb) uninitialized).1
        ≡ (mouse, dev_destroy) ∷ (mouse, close_fd) ∷ (kb, dev_destroy) ∷ (kb, close_fd) ∷ [])
      × (destroy_devices (init (some mouse) none uninitialized).1
          ≡ (mouse, dev_destroy) ∷ (mouse, close_fd) ∷ [])
unfolding destroy_devices init uninitialized
destroy_devices-init mouse kb = (refl, refl)

is_button : Button → Button → Bool
is_button btn_left btn_left = true
is_button btn_right btn_right = true
is_button btn_middle btn_middle = true
is_button _ _ = false

is_axis : Axis → Axis → Bool
is_axis rel_x rel_x = true
is_axis rel_y rel_y = true
is_axis rel_wheel rel_wheel = true
is_axis _ _ = false

enables_button : Button → List UinputCall → Bool
enables_button b [] = false
enables_button b (set_button c ∷ cs) = is_button b c || enables_button b cs
enables_button b (_ ∷ cs) = enables_button b cs

enables_axis : Axis → List UinputCall → Bool
enables_axis a [] = false
enables_axis a (set_relbit c ∷ cs) = is_axis a c || enables_axis a cs
enables_axis a (_ ∷ cs) = enables_axis a cs

-- Whether the set-up of the two devices lets an event pass; `code_of` numbers the keys as the
-- kernel's header does.
enables : (KeyCode → ℕ) → List UinputCall → List UinputCall → InputEvent → Bool
enables code_of mouse kb (moves a _) = enables_axis a mouse
enables code_of mouse kb (button b _) = enables_button b mouse
enables code_of mouse kb (key k _) = enables_key (code_of k) kb
enables code_of mouse kb mouse_syn = true
enables code_of mouse kb kb_syn = true

enables_button-create_mouse : (b : Button) → enables_button b create_mouse ≡ true
unfolding enables_button is_button create_mouse user_dev mouse_device_name
enables_button-create_mouse btn_left = refl
enables_button-create_mouse btn_right = refl
enables_button-create_mouse btn_middle = refl

enables_axis-create_mouse : (a : Axis) → enables_axis a create_mouse ≡ true
unfolding enables_axis is_axis create_mouse user_dev mouse_device_name
enables_axis-create_mouse rel_x = refl
enables_axis-create_mouse rel_y = refl
enables_axis-create_mouse rel_wheel = refl

-- Every event that the model can write passes, where the kernel's codes of the named keys lie
-- between 1 and 254.
enables-create :
    (code_of : KeyCode → ℕ)
    → ((k : KeyCode) → (1 ≤ code_of k) × (code_of k < 255))
    → (e : InputEvent) → enables code_of create_mouse create_keyboard e ≡ true
unfolding enables
enables-create code_of h (moves a d) = enables_axis-create_mouse a
enables-create code_of h (button b down) = enables_button-create_mouse b
enables-create code_of h (key k down) = enables_key-create_keyboard (code_of k) (h k).0 (h k).1
enables-create code_of h mouse_syn = refl
enables-create code_of h kb_syn = refl
