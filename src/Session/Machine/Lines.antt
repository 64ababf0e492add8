-- ===== src/Session/Machine/Lines.antt =====
-- A stream of command lines against the pieces in which the network hands it to `onData`.
pub mod Feed
pub mod Paired
pub mod Greeting
pub mod Taking
pub mod Continuing
pub mod Announced
pub mod Starting
pub mod Upload
pub mod Sender
mod Tests
use titan_share.Prelude.{
  ℕ, zero, suc, ◌+◌, ◌-◌, ◌≤◌, ◌<◌, leb, ◌==◌, ◌≡◌, refl, sym, ap, ◌∙◌, Bool, true, false, ◌&&◌,
  ◌||◌, if◌then◌else◌, some, none, List, [], ◌∷◌, ◌++◌, append_assoc, append-nil, length,
  length-append, take, drop, drop-append_left, take-append_exact, drop-append_exact, Bytes, codes,
  eqb, substr, substr_from, contains, find, find-append, ◌⊎◌, inl, inr, Bool-cases, arith,
}
use titan_share.Session.State.{
  Session, Stage, header, sent, Env, World, note, Exec, ran, threw, starved, ◌>>=◌, bind_assoc,
  bind_cong,
}
use titan_share.Session.Buffer.{
  buf_size, buf_data, consume_buffer, InRange, length-buf_data, buf_data-consume_buffer,
  buf_size-consume_buffer, consume_buffer-InRange,
}
use titan_share.Session.Header.{handle_header, handle_command, command_text}
use titan_share.Session.Machine.{
  drop_return, next_line, run_stage, process_loop, process_buffer, is_auth, on_data,
}

-- Lines with a newline each, then bytes of a line that has not ended.
unfoldable pub stream : List Bytes → Bytes → Bytes
stream [] tail = tail
stream (l ∷ ls) tail = l ++ b'\n' ∷ stream ls tail

abbrev pub join : List Bytes → Bytes
join [] = []
join (c ∷ cs) = c ++ join cs

-- The reads that the server hands to a session, one after the other.
unfoldable pub feed : Env → List Bytes → Session → World → Exec (Session × World)
feed env [] s w = ran (s, w)
feed env (c ∷ cs) s w = on_data env c s w >>= λ (s', w'). feed env cs s' w'

-- What one line of the HEADER stage is to do, where it does not announce a file.
unfoldable pub run_line : Env → Bytes → World → Exec World
run_line env line w =
    if leb 4 (length line) && eqb (substr line 0 4) (codes "CMD:")
    then handle_command env (command_text line) w
    else ran (note (sent (codes "UNKNOWN_REQUEST\n")) w)

unfoldable pub run_lines : Env → List Bytes → World → Exec World
run_lines env [] w = ran w
run_lines env (l ∷ ls) w = run_line env (drop_return l) w >>= λ w'. run_lines env ls w'

unfoldable pub announces_file : Bytes → Bool
announces_file line = leb 11 (length line) && eqb (substr line 0 11) (codes "FILE_START:")

-- Each is one line, and announces no file.
abbrev pub AreCommands : List Bytes → Type 0
AreCommands [] = Unit
AreCommands (l ∷ ls) =
    ((contains l b'\n' ≡ false) × (announces_file (drop_return l) ≡ false)) × AreCommands ls

-- A session with other bytes in its buffer.
abbrev pub holding : Bytes → Session → Session
holding bytes s = record s { buffer = bytes; buffer_offset = 0 }

abbrev pub view : Session × World → Exec (Session × World)
view (s, w) = ran (holding (buf_data s) s, w)

run_lines-append :
    (env : Env) (ls ms : List Bytes) (w : World)
    → run_lines env (ls ++ ms) w ≡ (run_lines env ls w >>= λ w'. run_lines env ms w')
unfolding run_lines
run_lines-append env [] ms w = refl
run_lines-append env (l ∷ ls) ms w =
    bind_cong (run_line env (drop_return l) w) _ _ (λ w'. run_lines-append env ls ms w')
    ∙ sym (bind_assoc (run_line env (drop_return l) w) _ _)

handle_header_line :
    (env : Env) (line : Bytes) (s : Session) (w : World)
    → announces_file line ≡ false
    → handle_header env line s w ≡ (run_line env line w >>= λ w'. ran (s, w'))
unfolding handle_header run_line announces_file
handle_header_line env line s w h = ground arith

find-none : (s : Bytes) (c : ℕ) → contains s c ≡ false → find s c ≡ none
unfolding find contains
find-none [] c h = refl
find-none (x ∷ xs) c h = ground (arith, find-none xs c)

holding-consume_buffer : (n : ℕ) (s : Session) → holding [] (consume_buffer n s) ≡ holding [] s
unfolding consume_buffer
holding-consume_buffer n s = ground arith

-- The first line is taken off the queue whole.
next_line-stream :
    (s : Session) (l rest : Bytes)
    → contains l b'\n' ≡ false
    → buf_data s ≡ l ++ b'\n' ∷ rest
    → next_line s ≡ some (drop_return l, consume_buffer (length l + 1) s)
unfolding next_line
next_line-stream s l rest h e =
    let found : find (buf_data s) b'\n' ≡ some (length l) =
      ap (λ q. find q b'\n') e ∙ find-append l rest b'\n' h in
    let taken : take (length l) (buf_data s) ≡ l =
      ap (take (length l)) e ∙ take-append_exact (length l) l (b'\n' ∷ rest) refl in
    ground arith

buf_data_behind :
    (s : Session) (l rest : Bytes)
    → buf_data s ≡ l ++ b'\n' ∷ rest
    → buf_data (consume_buffer (length l + 1) s) ≡ rest
buf_data_behind s l rest e =
    buf_data-consume_buffer (length l + 1) s
    ∙ ap (drop (length l + 1)) (e ∙ sym (append_assoc l (b'\n' ∷ []) rest))
    ∙ drop-append_exact (length l + 1) (l ++ b'\n' ∷ []) rest (length-append l (b'\n' ∷ []))

-- An open session of the HEADER stage with those bytes to read, as `s` but for its buffer.
pub record Reads (s : Session) (bytes : Bytes) (t : Session) : Type 0 where
  pub same : holding [] t ≡ holding [] s
  pub queue : buf_data t ≡ bytes
  pub in_range : InRange t

pub record IsListening (s : Session) : Type 0 where
  pub in_header : s.stage ≡ header
  pub is_open : s.closed ≡ false

header_round :
    (env : Env) (next : Session → World → Exec (Session × World)) (t t' : Session) (w : World)
    (line : Bytes)
    → next_line t ≡ some (line, t')
    → announces_file line ≡ false
    → run_stage env next header t w ≡ (run_line env line w >>= λ w'. next t' w')
unfolding run_stage
header_round env next t t' w line e k =
    rw (e, run_stage)
      (ap (λ (m : Exec (Session × World)). m >>= λ q. next q.0 q.1)
          (handle_header_line env line t' w k)
        ∙ bind_assoc (run_line env line w) (λ w'. ran (t', w')) (λ q. next q.0 q.1))

module _ (env : Env) (s : Session) (listening : IsListening s) where
  stage_of : (bytes : Bytes) (t : Session) → Reads s bytes t → t.stage ≡ header
  stage_of bytes t r = ap (λ (x : Session). x.stage) r.same ∙ listening.in_header

  closed_of : (bytes : Bytes) (t : Session) → Reads s bytes t → t.closed ≡ false
  closed_of bytes t r = ap (λ (x : Session). x.closed) r.same ∙ listening.is_open

  one_line :
      (next : Session → World → Exec (Session × World)) (t : Session) (w : World) (l rest : Bytes)
      → Reads s (l ++ b'\n' ∷ rest) t
      → contains l b'\n' ≡ false
      → announces_file (drop_return l) ≡ false
      → run_stage env next t.stage t w
        ≡ (run_line env (drop_return l) w >>= λ w'. next (consume_buffer (length l + 1) t) w')
  one_line next t w l rest r h k =
      ap (λ st. run_stage env next st t w) (stage_of _ t r)
      ∙ header_round env next t (consume_buffer (length l + 1) t) w (drop_return l)
          (next_line-stream t l rest h r.queue) k

  length_read : (bytes : Bytes) (t : Session) → Reads s bytes t → buf_size t ≡ length bytes
  length_read bytes t r = sym (length-buf_data t) ∙ ap length r.queue

  behind_line :
      (t : Session) (l rest : Bytes)
      → Reads s (l ++ b'\n' ∷ rest) t
      → Reads s rest (consume_buffer (length l + 1) t)
  behind_line t l rest r = record {
    same = holding-consume_buffer (length l + 1) t ∙ r.same;
    queue = buf_data_behind t l rest r.queue;
    in_range =
        consume_buffer-InRange (length l + 1) t r.in_range
          (omega (arith, length_read _ t r, length-append l (b'\n' ∷ rest)));
  }

  -- No line is left: the loop returns.
  loop_rests :
      (fuel : ℕ) (t : Session) (w : World) (tail : Bytes)
      → Reads s tail t
      → contains tail b'\n' ≡ false
      → process_loop env (suc fuel) t w ≡ ran (t, w)
  unfolding process_loop run_stage next_line
  loop_rests fuel t w tail r h =
      ground (arith, stage_of tail t r, find-none tail b'\n' h, ap (λ q. find q b'\n') r.queue)

  loop_goes :
      (fuel : ℕ) (t : Session) (w : World) (l rest : Bytes)
      → Reads s (l ++ b'\n' ∷ rest) t
      → process_loop env (suc fuel) t w ≡ run_stage env (process_loop env fuel) t.stage t w
  unfolding process_loop
  loop_goes fuel t w l rest r =
      ground (arith, closed_of _ t r, length_read _ t r, length-append l (b'\n' ∷ rest))

  -- The loop carries out the lines; whatever follows it needs to know of the session only what it
  -- reads.
  loop_lines :
      (fuel : ℕ) (ls : List Bytes) (tail : Bytes) (t : Session) (w : World)
      (next : Session × World → Exec (Session × World)) (spec : World → Exec (Session × World))
      → AreCommands ls
      → contains tail b'\n' ≡ false
      → Reads s (stream ls tail) t
      → buf_size t < fuel
      → ((u : Session) (w' : World) → Reads s tail u → next (u, w') ≡ spec w')
      → (process_loop env fuel t w >>= next) ≡ (run_lines env ls w >>= spec)
  unfolding run_lines stream
  loop_lines zero ls tail t w next spec a h r f k = absurd (omega arith)
  loop_lines (suc fuel) [] tail t w next spec a h r f k =
      rw (loop_rests fuel t w tail r h) (k t w r)
  loop_lines (suc fuel) (l ∷ ls) tail t w next spec a h r f k =
      let u = consume_buffer (length l + 1) t in
      let shorter : buf_size u < fuel = omega (
        arith,
        buf_size-consume_buffer (length l + 1) t,
        length_read _ t r,
        length-append l (b'\n' ∷ stream ls tail),
      ) in
      ap (λ m. m >>= next)
        (loop_goes fuel t w l (stream ls tail) r
          ∙ one_line (process_loop env fuel) t w l (stream ls tail) r a.0.0 a.0.1)
      ∙ bind_assoc (run_line env (drop_return l) w) (λ w'. process_loop env fuel u w') next
      ∙ bind_cong (run_line env (drop_return l) w) _ _ (λ w'.
        loop_lines fuel ls tail u w' next spec a.1 h (behind_line t l (stream ls tail) r) shorter k)
      ∙ sym (bind_assoc (run_line env (drop_return l) w) (λ w'. run_lines env ls w') spec)

  more_read :
      (c q : Bytes) (t : Session)
      → Reads s q t
      → Reads s (q ++ c) (record t { buffer = t.buffer ++ c })
  unfolding buf_data
  more_read c q t r = record {
    same = r.same;
    queue = drop-append_left t.buffer_offset t.buffer c r.in_range ∙ ap (λ b. b ++ c) r.queue;
    in_range = omega (arith, r.in_range, length-append t.buffer c);
  }

  on_data_loop :
      (c q : Bytes) (t : Session) (w : World)
      → Reads s q t
      → let t' : Session = record t { buffer = t.buffer ++ c } in
        on_data env c t w ≡ process_loop env (suc (buf_size t')) t' w
  unfolding on_data process_buffer is_auth
  on_data_loop c q t w r = ground (arith, closed_of q t r, stage_of q t r)
