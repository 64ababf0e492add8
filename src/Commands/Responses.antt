-- ===== src/Commands/Responses.antt =====
-- What a command line does to the shell, the input devices and the mirror, and when the dispatcher
-- raises.
use titan_share.Prelude.{
  suc, ◌+◌, ◌≡◌, ◌≢◌, refl, sym, ap, ◌∙◌, Bool, true, false, ◌||◌, ◌⊎◌, inl, inr, ◌↔◌,
  if◌then◌else◌, Option, none, some, List, [], ◌∷◌, ◌++◌, Bytes, codes, eqb, eqb_iff, subst, find,
  substr, length, substr_from, stoi, ℤ, pos, negsuc, print_int, IsInt, stoi-print_int, find-append,
  contains, arith, Bool-cases, take-append_exact, drop-append_exact, drop-drop, all_digits_no_colon,
  drop, to_string, to_string-all_digits,
}
use titan_share.Input.{VirtualInput, move_mouse}
use titan_share.Commands.Shell.{Host, exec}
use titan_share.Commands.System.{power, run_and_answer}
use titan_share.Commands.Dispatcher.{
  Services, Dispatcher, Answer, mouse_move, handle_input_command, handle_mirror_command, is_input,
  one_of, system_info, dispatch,
}

-- The commands that the shell carries out.
abbrev pub shell_commands : List Bytes
shell_commands =
    codes "shutdown"
    ∷ codes "reboot"
    ∷ codes "sleep"
    ∷ codes "volume_up"
    ∷ codes "volume_down"
    ∷ codes "mute"
    ∷ codes "lock"
    ∷ codes "unlock"
    ∷ codes "wakeup"
    ∷ []

-- The state after an answer, or the state before an exception.
abbrev pub after : Dispatcher → Answer → Dispatcher
after d none = d
after d (some (response, d')) = d'

handle_mirror_command-commands :
    (sv : Services) (cmd : Bytes) (d : Dispatcher)
    → (after d (handle_mirror_command sv cmd d)).commands ≡ d.commands
unfolding handle_mirror_command
handle_mirror_command-commands sv cmd d = ground arith

handle_input_command-commands :
    (cmd : Bytes) (d : Dispatcher) → (after d (handle_input_command cmd d)).commands ≡ d.commands
unfolding handle_input_command
handle_input_command-commands cmd d = ground arith

system_info-commands :
    (sv : Services) (d : Dispatcher) → (after d (system_info sv d)).commands ≡ d.commands
unfolding system_info
system_info-commands sv d = ground arith

-- A command line that is none of nine fixed words has no command run through `Process`.
pub dispatch_no_shell :
    (sv : Services) (cmd : Bytes) (d : Dispatcher)
    → one_of cmd shell_commands ≡ false
    → (after d (dispatch sv cmd d)).commands ≡ d.commands
unfolding dispatch
dispatch_no_shell sv cmd d h = ground (
  arith,
  system_info-commands sv d,
  handle_mirror_command-commands sv cmd d,
  handle_input_command-commands cmd d,
)

-- A power command runs exactly one shell command, and which one is fixed by its word.
pub power_runs_one :
    (host : Host) (cmd : Bytes) (ran : List Bytes)
    → one_of cmd (codes "shutdown" ∷ codes "reboot" ∷ codes "sleep" ∷ []) ≡ true
    → ((power host cmd ran).1 ≡ codes "systemctl poweroff" ∷ ran)
      ⊎ (((power host cmd ran).1 ≡ codes "systemctl reboot" ∷ ran)
          ⊎ ((power host cmd ran).1 ≡ codes "systemctl suspend" ∷ ran))
unfolding power run_and_answer exec
power_runs_one host cmd ran h = ground arith

abbrev is_none {ℓ} : {A : Type ℓ} → Option A → Bool
is_none none = true
is_none (some a) = false

-- "dx:dy" where one of the two is no `int`.
unfoldable bad_move : Bytes → Bool
bad_move text = elim (find text b':') [
  | none ↦ false
  | some sep ↦ is_none (stoi (substr text 0 sep)) || is_none (stoi (substr_from text (sep + 1)))
]

-- A pointer command with a number that `std::stoi` refuses.
unfoldable pub bad_number : Bytes → Bool
unfolding bad_move
bad_number cmd =
    if eqb (substr cmd 0 11) (codes "MOUSE_MOVE:")
    then bad_move (substr_from cmd 11)
    else if eqb (substr cmd 0 13) (codes "MOUSE_SCROLL:")
    then is_none (stoi (substr_from cmd 13))
    else false

handle_input_command-none :
    (cmd : Bytes) (d : Dispatcher)
    → (handle_input_command cmd d ≡ none) ↔ ((bad_number cmd ≡ true) × (d.input ≢ none))
unfolding handle_input_command bad_number
handle_input_command-none cmd d = ground arith

none_bad : List Bytes → Bool
none_bad [] = true
none_bad (w ∷ ws) = if bad_number w then false else none_bad ws

-- A fixed word is no pointer command.
word-good :
    (cmd : Bytes) (words : List Bytes)
    → none_bad words ≡ true
    → one_of cmd words ≡ true
    → bad_number cmd ≡ false
unfolding none_bad
word-good cmd [] h k = cc
word-good cmd (w ∷ ws) h k = elim (Bool-cases (eqb cmd w)) [
  | inl same ↦ subst (λ c. bad_number c ≡ false) (sym ((eqb_iff cmd w).0 same)) (ground arith)
  | inr other ↦ word-good cmd ws (ground arith) (ground arith)
]

bad_number-is_input : (cmd : Bytes) → bad_number cmd ≡ true → is_input cmd ≡ true
unfolding bad_number is_input
bad_number-is_input cmd h = ground arith

-- The words that the dispatcher compares the whole line with.
abbrev fixed_words : List Bytes
fixed_words = codes "get_info" ∷ codes "START_MIRROR" ∷ codes "STOP_MIRROR" ∷ shell_commands

fixed_word-good : (cmd : Bytes) → one_of cmd fixed_words ≡ true → bad_number cmd ≡ false
unfolding none_bad bad_number eqb substr
fixed_word-good cmd h = word-good cmd fixed_words refl h

-- The request for the system's information, where the JSON library refuses a text of it.
abbrev pub IsUnprintable : Services → Bytes → Dispatcher → Type 0
IsUnprintable sv cmd d = (cmd ≡ codes "get_info") × (sv.dump_info d.commands ≡ none)

system_info-none :
    (sv : Services) (d : Dispatcher) → (system_info sv d ≡ none) ↔ (sv.dump_info d.commands ≡ none)
unfolding system_info
system_info-none sv d = ground arith

is_get_info : (sv : Services) (d : Dispatcher) → dispatch sv (codes "get_info") d ≡ system_info sv d
unfolding dispatch eqb
is_get_info sv d = refl

get_info-good : bad_number (codes "get_info") ≡ false
unfolding bad_number eqb substr
get_info-good = refl

get_info-none :
    (sv : Services) (d : Dispatcher)
    → (dispatch sv (codes "get_info") d ≡ none) ↔ (
        ((bad_number (codes "get_info") ≡ true) × (d.input ≢ none))
        ⊎ IsUnprintable sv (codes "get_info") d)
get_info-none sv d =
    let there = system_info-none sv d in
    (
      λ e. inr (refl, there.0 (sym (is_get_info sv d) ∙ e)),
      λ h. elim h [
        | inl (bad, input) ↦ ground (arith, get_info-good, bad)
        | inr (same, refused) ↦ is_get_info sv d ∙ there.1 refused
      ],
    )

is_not_get_info : (cmd : Bytes) → eqb cmd (codes "get_info") ≡ false → cmd ≡ codes "get_info" → ⊥
is_not_get_info cmd other same = ground (arith, other, (eqb_iff cmd (codes "get_info")).1 same)

other-none :
    (sv : Services) (cmd : Bytes) (d : Dispatcher)
    → eqb cmd (codes "get_info") ≡ false
    → (dispatch sv cmd d ≡ none) ↔ ((bad_number cmd ≡ true) × (d.input ≢ none))
unfolding dispatch handle_mirror_command
other-none sv cmd d other =
    ground (arith, handle_input_command-none cmd d, bad_number-is_input cmd, fixed_word-good cmd)

-- The dispatcher raises exactly for a pointer command with a number that `std::stoi` refuses, once
-- the input devices exist, and for get_info where the JSON library raises on a text of the answer;
-- exceptions for want of memory or of threads are left aside.
pub dispatch-none :
    (sv : Services) (cmd : Bytes) (d : Dispatcher)
    → (dispatch sv cmd d ≡ none)
      ↔ (((bad_number cmd ≡ true) × (d.input ≢ none)) ⊎ IsUnprintable sv cmd d)
dispatch-none sv cmd d = elim (Bool-cases (eqb cmd (codes "get_info"))) [
  | inl same ↦
      subst
        (λ c.
          (dispatch sv c d ≡ none)
          ↔ (((bad_number c ≡ true) × (d.input ≢ none)) ⊎ IsUnprintable sv c d))
        (sym ((eqb_iff cmd (codes "get_info")).0 same)) (get_info-none sv d)
  | inr other ↦
      let rest = other-none sv cmd d other in
      (
        λ e. inl (rest.0 e),
        λ h. elim h [
          | inl bad ↦ rest.1 bad
          | inr (same, refused) ↦ absurd (is_not_get_info cmd other same)
        ],
      )
]

abbrev pub mouse_move_line : ℤ → ℤ → Bytes
mouse_move_line dx dy = codes "MOUSE_MOVE:" ++ (print_int dx ++ b':' ∷ print_int dy)

print_int_no_colon : (z : ℤ) → contains (print_int z) b':' ≡ false
unfolding contains
print_int_no_colon (pos n) = all_digits_no_colon (to_string n) (to_string-all_digits n)
print_int_no_colon (negsuc n) =
    ground (arith, all_digits_no_colon (to_string (suc n)) (to_string-all_digits (suc n)))

mouse_move_numbers :
    (dx dy : ℤ)
    → let text = print_int dx ++ b':' ∷ print_int dy in
      (find text b':' ≡ some (length (print_int dx)))
      × (substr text 0 (length (print_int dx)) ≡ print_int dx)
      × (substr_from text (length (print_int dx) + 1) ≡ print_int dy)
unfolding substr substr_from
mouse_move_numbers dx dy = (
  find-append (print_int dx) (print_int dy) b':' (print_int_no_colon dx),
  take-append_exact (length (print_int dx)) (print_int dx) _ refl,
  sym (drop-drop (length (print_int dx)) 1 (print_int dx ++ b':' ∷ print_int dy))
      ∙ ap (drop 1)
          (drop-append_exact (length (print_int dx)) (print_int dx) (b':' ∷ print_int dy) refl),
)

mouse_move_lem :
    (v : VirtualInput) (dx dy : ℤ) (d : Dispatcher)
    → IsInt dx
    → IsInt dy
    → mouse_move v (print_int dx ++ b':' ∷ print_int dy) d
      ≡ some ([], record d { emitted = move_mouse v dx dy ∷ d.emitted })
unfolding mouse_move
mouse_move_lem v dx dy d hx hy =
    let (sep, first, second) = mouse_move_numbers dx dy in
    rw (mouse_move, sep, first, stoi-print_int dx hx, second, stoi-print_int dy hy) refl

is_mouse_move :
    (sv : Services) (v : VirtualInput) (text : Bytes) (d : Dispatcher)
    → d.input ≡ some v
    → dispatch sv (codes "MOUSE_MOVE:" ++ text) d ≡ mouse_move v text d
unfolding dispatch is_input handle_input_command eqb substr substr_from
is_mouse_move sv v text d e = rw e refl

-- Two `int`s that a phone prints into a MOUSE_MOVE line are what the pointer is moved by, and no
-- response is sent.
pub dispatch_mouse_move :
    (sv : Services) (v : VirtualInput) (dx dy : ℤ) (d : Dispatcher)
    → d.input ≡ some v
    → IsInt dx
    → IsInt dy
    → dispatch sv (mouse_move_line dx dy) d
      ≡ some ([], record d { emitted = move_mouse v dx dy ∷ d.emitted })
dispatch_mouse_move sv v dx dy d e hx hy =
    is_mouse_move sv v (print_int dx ++ b':' ∷ print_int dy) d e ∙ mouse_move_lem v dx dy d hx hy
