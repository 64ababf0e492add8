-- ===== src/Commands/Pointer.antt =====
-- The pointer from a phone's bytes on: sessions whose commands go to the dispatcher of
-- src/commands/command_dispatcher.cpp, as `handleHeader` in src/server/client_session.cpp has it.
use titan_share.Prelude.{
  ℕ, ◌≡◌, refl, ap, ◌∙◌, true, false, ◌&&◌, leb, Option, none, some, List, [], ◌∷◌, ◌++◌, map,
  Bytes, codes, eqb, substr, substr_from, length, contains, contains-append, trim_front, ℤ, pos,
  negsuc, print_int, IsInt, to_string, to_string-all_digits, all_digits_lacks, all_digits, ◌<◌, suc,
  arith,
}
use titan_share.Auth.{is_ip_blocked, validate_key}
use titan_share.Input.{VirtualInput, InputEvent, moves, rel_x, rel_y, mouse_syn, move_mouse}
use titan_share.Commands.Dispatcher.{Services, Dispatcher, Answer, dispatch}
use titan_share.Commands.Responses.{after, mouse_move_line, dispatch_mouse_move}
use titan_share.Session.State.{
  Session, header, new_session, Event, sent, dispatches, Env, World, note, ran, ◌>>=◌,
}
use titan_share.Session.Buffer.{buf_data, InRange}
use titan_share.Session.Header.{run_command, handle_command, command_text}
use titan_share.Session.Login.{read_pin}
use titan_share.Session.Machine.{drop_return}
use titan_share.Session.Machine.Lines.{
  stream, join, feed, run_line, run_lines, announces_file, AreCommands, holding, view,
}
use titan_share.Session.Machine.Lines.Feed.{feed-run_lines}
use titan_share.Session.Machine.Lines.Greeting.{
  pin_line, drop_return_lem, pin_line_lacks, read_pin-drop_return-pin_line,
}
use titan_share.Session.Machine.Lines.Paired.{
  paired_session, paired_world, AreSmall, feed-new_session,
}

-- The dispatcher after the commands that were handed to it so far, newest first.
unfoldable pub replay : Services → Dispatcher → List Event → Dispatcher
replay sv d [] = d
replay sv d (dispatches cmd ∷ t) =
    let before = replay sv d t in after before (dispatch sv cmd before)
replay sv d (e ∷ t) = replay sv d t

abbrev response_of : Answer → Option Bytes
response_of none = none
response_of (some (response, d)) = some response

-- The environment in which a session's commands reach the dispatcher.
unfoldable pub with_dispatcher : Services → Dispatcher → Env → Env
with_dispatcher sv d env = record env {
  dispatch = λ t cmd. response_of (dispatch sv cmd (replay sv d t));
}

-- What a phone sends for a movement, without the newline.
abbrev pub move_text : ℤ × ℤ → Bytes
move_text (dx, dy) = codes "CMD:" ++ mouse_move_line dx dy

-- Each is a pair of `int`s.
abbrev pub AreMoves : List (ℤ × ℤ) → Type 0
AreMoves [] = Unit
AreMoves ((dx, dy) ∷ ms) = (IsInt dx × IsInt dy) × AreMoves ms

-- What the kernel has to be told for a pointer to move: the two axes, and the end of the report.
abbrev pub movement : ℤ → ℤ → List InputEvent
movement dx dy = moves rel_x dx ∷ moves rel_y dy ∷ mouse_syn ∷ []

-- The movements behind what was emitted before, newest first.
unfoldable pub moved_by : List (ℤ × ℤ) → List (List InputEvent) → List (List InputEvent)
moved_by [] es = es
moved_by ((dx, dy) ∷ ms) es = moved_by ms (movement dx dy ∷ es)

move_mouse-movement :
    (v : VirtualInput) (dx dy : ℤ) → v.initialized ≡ true → move_mouse v dx dy ≡ movement dx dy
unfolding move_mouse
move_mouse-movement v dx dy on = rw on refl

print_int_lacks :
    (z : ℤ) (c : ℕ)
    → (leb b'0' c && leb c b'9') ≡ false
    → (leb b'-' c && leb c b'-') ≡ false
    → contains (print_int z) c ≡ false
unfolding contains
print_int_lacks (pos n) c h k = all_digits_lacks (to_string n) c (to_string-all_digits n) h
print_int_lacks (negsuc n) c h k =
    ground (arith, all_digits_lacks (to_string (suc n)) c (to_string-all_digits (suc n)) h)

move_text_lacks :
    (m : ℤ × ℤ) (c : ℕ)
    → (leb b'0' c && leb c b'9') ≡ false
    → (leb b'-' c && leb c b'-') ≡ false
    → contains (codes "CMD:MOUSE_MOVE::") c ≡ false
    → contains (move_text m) c ≡ false
unfolding contains
move_text_lacks (dx, dy) c h k g = ground (
  arith,
  contains-append (print_int dx) (b':' ∷ print_int dy) c,
  print_int_lacks dx c h k,
  print_int_lacks dy c h k,
)

move_text_plain : (m : ℤ × ℤ) → drop_return (move_text m) ≡ move_text m
unfolding contains
move_text_plain m = drop_return_lem (move_text m) (move_text_lacks m b'\r' refl refl refl)

-- The trace behind those movements.
unfoldable pub moved_trace : List (ℤ × ℤ) → List Event → List Event
moved_trace [] t = t
moved_trace ((dx, dy) ∷ ms) t = moved_trace ms (dispatches (mouse_move_line dx dy) ∷ t)

move_texts-AreCommands : (ms : List (ℤ × ℤ)) → AreCommands (map move_text ms)
unfolding announces_file eqb substr contains
move_texts-AreCommands [] = tt
move_texts-AreCommands ((dx, dy) ∷ ms) = (
  (move_text_lacks (dx, dy) b'\n' refl refl refl, rw (move_text_plain (dx, dy)) (ground arith)),
  move_texts-AreCommands ms,
)

module _ (sv : Services) (d : Dispatcher) (env : Env) where
  run_move :
      (v : VirtualInput) (dx dy : ℤ) (w : World)
      → (replay sv d w.trace).input ≡ some v
      → IsInt dx
      → IsInt dy
      → run_line (with_dispatcher sv d env) (move_text (dx, dy)) w
        ≡ ran (note (dispatches (mouse_move_line dx dy)) w)
  unfolding run_line handle_command run_command command_text with_dispatcher eqb substr substr_from
      trim_front
  run_move v dx dy w e hx hy =
      ground (arith, dispatch_mouse_move sv v dx dy (replay sv d w.trace) e hx hy)

  replay_move :
      (v : VirtualInput) (dx dy : ℤ) (t : List Event)
      → v.initialized ≡ true
      → (replay sv d t).input ≡ some v
      → IsInt dx
      → IsInt dy
      → replay sv d (dispatches (mouse_move_line dx dy) ∷ t) ≡ (
          let before = replay sv d t in record before { emitted = movement dx dy ∷ before.emitted })
  unfolding replay
  replay_move v dx dy t on e hx hy =
      ap (after (replay sv d t)) (dispatch_mouse_move sv v dx dy (replay sv d t) e hx hy)
      ∙ ap (λ es. record (replay sv d t) { emitted = es ∷ (replay sv d t).emitted })
          (move_mouse-movement v dx dy on)

  run_moves :
      (v : VirtualInput) (ms : List (ℤ × ℤ)) (w : World)
      → v.initialized ≡ true
      → (replay sv d w.trace).input ≡ some v
      → AreMoves ms
      → run_lines (with_dispatcher sv d env) (map move_text ms) w
        ≡ ran (record w { trace = moved_trace ms w.trace })
  unfolding run_lines moved_trace
  run_moves v [] w on e h = refl
  run_moves v ((dx, dy) ∷ ms) w on e h =
      ap
        (λ l. run_line (with_dispatcher sv d env) l w >>= λ w'.
          run_lines (with_dispatcher sv d env) (map move_text ms) w')
        (move_text_plain (dx, dy))
      ∙ ap (λ m. m >>= λ w'. run_lines (with_dispatcher sv d env) (map move_text ms) w')
          (run_move v dx dy w e h.0.0 h.0.1)
      ∙ run_moves v ms (note (dispatches (mouse_move_line dx dy)) w) on
          (ap (λ (r : Dispatcher). r.input) (replay_move v dx dy w.trace on e h.0.0 h.0.1) ∙ e) h.1

  replay_moves :
      (v : VirtualInput) (ms : List (ℤ × ℤ)) (t : List Event)
      → v.initialized ≡ true
      → (replay sv d t).input ≡ some v
      → AreMoves ms
      → replay sv d (moved_trace ms t)
        ≡ record (replay sv d t) { emitted = moved_by ms (replay sv d t).emitted }
  unfolding moved_trace moved_by
  replay_moves v [] t on e h = refl
  replay_moves v ((dx, dy) ∷ ms) t on e h =
      let step = replay_move v dx dy t on e h.0.0 h.0.1 in
      replay_moves v ms (dispatches (mouse_move_line dx dy) ∷ t) on
        (ap (λ (r : Dispatcher). r.input) step ∙ e) h.1
      ∙ ap (λ (r : Dispatcher). record r { emitted = moved_by ms r.emitted }) step

  -- Movements that a paired phone prints, one to a line, move the pointer by just these numbers, in
  -- their order and once each, however the network cuts up their bytes; nothing is sent, and all that
  -- the session and the dispatcher have besides stays as it was.
  pub feed_moves :
      (v : VirtualInput) (ms : List (ℤ × ℤ)) (chunks : List Bytes) (tail : Bytes) (s : Session)
      (w : World)
      → s.stage ≡ header
      → s.closed ≡ false
      → InRange s
      → contains (buf_data s) b'\n' ≡ false
      → contains tail b'\n' ≡ false
      → buf_data s ++ join chunks ≡ stream (map move_text ms) tail
      → v.initialized ≡ true
      → (replay sv d w.trace).input ≡ some v
      → AreMoves ms
      → ((feed (with_dispatcher sv d env) chunks s w >>= view)
          ≡ ran (holding tail s, record w { trace = moved_trace ms w.trace }))
        × (replay sv d (moved_trace ms w.trace)
            ≡ record (replay sv d w.trace) { emitted = moved_by ms (replay sv d w.trace).emitted })
  feed_moves v ms chunks tail s w in_header is_open in_range h g e on i ints = (
    feed-run_lines (with_dispatcher sv d env) chunks (map move_text ms) tail s w in_header is_open
          in_range h g (move_texts-AreCommands ms) e
        ∙ ap (λ m. m >>= λ w'. ran (holding tail s, w')) (run_moves v ms w on i ints),
    replay_moves v ms w.trace on i ints,
  )

  paired_input :
      (ip : Bytes) (w : World)
      → replay sv d (paired_world (with_dispatcher sv d env) ip w).trace ≡ replay sv d w.trace
  unfolding replay paired_world
  paired_input ip w = refl

  -- From the first byte of a connection on: where its address is not banned, and its reads stay
  -- within the limit before AUTH_OK together with the line, a PIN of digits that is in the window and
  -- then the movements, in whatever pieces the network hands them over, have AUTH_OK sent and nothing
  -- else, and move the pointer by just these numbers, in their order and once each; all else of the
  -- dispatcher stays as it was.
  pub feed_phone :
      (v : VirtualInput) (fd : ℕ) (ip pin : Bytes) (ms : List (ℤ × ℤ)) (chunks : List Bytes)
      (tail : Bytes) (w : World)
      → (is_ip_blocked w.manager ip (env.now w.trace)).0 ≡ false
      → validate_key w.manager pin ≡ true
      → all_digits pin ≡ true
      → 0 < length pin
      → contains tail b'\n' ≡ false
      → AreSmall (length (pin_line pin)) chunks
      → join chunks ≡ pin_line pin ++ b'\n' ∷ stream (map move_text ms) tail
      → v.initialized ≡ true
      → (replay sv d w.trace).input ≡ some v
      → AreMoves ms
      → let env' = with_dispatcher sv d env in
        let w' = paired_world env' ip w in
        ((feed env' chunks (new_session fd ip) w >>= view)
          ≡ ran (
            holding tail (paired_session fd ip pin),
            record w' { trace = moved_trace ms (sent (codes "AUTH_OK\n") ∷ w.trace) },
          ))
        × (replay sv d (moved_trace ms (sent (codes "AUTH_OK\n") ∷ w.trace))
            ≡ record (replay sv d w.trace) { emitted = moved_by ms (replay sv d w.trace).emitted })
  unfolding paired_world with_dispatcher replay contains
  feed_phone v fd ip pin ms chunks tail w free valid digits some_digit ht small e on i ints =
      let env' = with_dispatcher sv d env in
      let w' = paired_world env' ip w in
      let is_read = read_pin-drop_return-pin_line pin digits some_digit in
      (
        feed-new_session env' fd ip chunks (map move_text ms) (pin_line pin) tail w free
              (ap (validate_key w.manager) is_read ∙ valid)
              (pin_line_lacks pin b'\n' digits refl refl) ht small (move_texts-AreCommands ms) e
            ∙ ap
                (λ m. m >>= λ u.
                  ran (
                    holding tail (paired_session fd ip (read_pin (drop_return (pin_line pin)))),
                    u,
                  ))
                (run_moves v ms w' on i ints)
            ∙ ap
                (λ p. ran (
                  holding tail (paired_session fd ip p),
                  record w' { trace = moved_trace ms w'.trace },
                ))
                is_read,
        replay_moves v ms w'.trace on i ints,
      )
