-- ===== src/Session/Machine/Lines/Paired.antt =====
-- A connection from its first byte on: the line with the PIN, and the command lines behind it.
use titan_share.Auth.{is_ip_blocked, validate_key, register_auth_success}
use titan_share.Config.{auth_max_buffer}
use titan_share.Prelude.{
  ℕ, suc, ◌+◌, ◌≤◌, ◌<◌, ◌≡◌, refl, sym, ap, ◌∙◌, true, false, some, List, [], ◌∷◌, ◌++◌,
  append_assoc, append-nil, length, length-append, Bytes, codes, contains, contains-append, inl,
  inr, arith,
}
use titan_share.Session.State.{
  Session, auth, header, new_session, sent, Env, World, note, Exec, ran, ◌>>=◌, bind_assoc,
}
use titan_share.Session.Buffer.{
  buf_size, buf_data, consume_buffer, consume_buffer-InRange, buf_size-consume_buffer,
  length-buf_data,
}
use titan_share.Session.Login.{handle_auth, read_pin, is_ip_blocked-keeps_pins}
use titan_share.Session.Machine.{
  drop_return, next_line, run_stage, process_loop, process_buffer, is_auth, on_data,
}
use titan_share.Session.Machine.Lines.{
  stream, join, feed, run_lines, AreCommands, holding, view, next_line-stream, buf_data_behind,
  holding-consume_buffer, find-none, Reads, IsListening,
}
use titan_share.Session.Machine.Lines.Feed.{meets_line, resumes, feed-Reads}

-- The session and the world behind an accepted PIN.
unfoldable pub paired_session : ℕ → Bytes → Bytes → Session
paired_session fd ip pin = record (new_session fd ip) { session_key = pin; stage = header }

unfoldable pub paired_world : Env → Bytes → World → World
paired_world env ip w = note (sent (codes "AUTH_OK\n")) (record w {
  manager = register_auth_success (is_ip_blocked w.manager ip (env.now w.trace)).1 ip;
})

-- A read and what may wait before it stay within the limit of bytes before AUTH_OK.
abbrev pub AreSmall : ℕ → List Bytes → Type 0
AreSmall waiting [] = Unit
AreSmall waiting (c ∷ cs) = (waiting + length c ≤ auth_max_buffer) × AreSmall waiting cs

pub no_line : (q l rest : Bytes) → contains q b'\n' ≡ false → q ≡ l ++ b'\n' ∷ rest → ⊥
unfolding contains
no_line q l rest h e =
    ground (arith, ap (λ x. contains x b'\n') e, contains-append l (b'\n' ∷ rest) b'\n')

module _ (env : Env) (fd : ℕ) (ip : Bytes) where
  pub on_data_auth :
      (c q : Bytes) (w : World)
      → length (q ++ c) ≤ auth_max_buffer
      → let t = holding (q ++ c) (new_session fd ip) in
        on_data env c (holding q (new_session fd ip)) w ≡ process_loop env (suc (buf_size t)) t w
  unfolding on_data process_buffer is_auth new_session
  on_data_auth c q w small = ground arith

  -- A part of the line stays in the buffer.
  pub waits_for_line :
      (fuel : ℕ) (q : Bytes) (w : World)
      → contains q b'\n' ≡ false
      → process_loop env (suc fuel) (holding q (new_session fd ip)) w
        ≡ ran (holding q (new_session fd ip), w)
  unfolding process_loop run_stage new_session next_line buf_data
  waits_for_line fuel q w h = ground (arith, find-none q b'\n' h)

  auth_round :
      (next : Session → World → Exec (Session × World)) (t t' : Session) (w : World) (line : Bytes)
      → next_line t ≡ some (line, t')
      → run_stage env next auth t w
        ≡ next (handle_auth env line t' w).0 (handle_auth env line t' w).1
  unfolding run_stage
  auth_round next t t' w line e = rw (e, run_stage) refl

  auth_goes :
      (fuel : ℕ) (q l rest : Bytes) (w : World)
      → q ≡ l ++ b'\n' ∷ rest
      → let t = holding q (new_session fd ip) in
        process_loop env (suc fuel) t w ≡ run_stage env (process_loop env fuel) auth t w
  unfolding process_loop new_session buf_size
  auth_goes fuel q l rest w e = ground (arith, ap length e, length-append l (b'\n' ∷ rest))

  -- The line is complete.
  pub line_ends :
      (fuel : ℕ) (q l rest : Bytes) (w : World)
      → q ≡ l ++ b'\n' ∷ rest
      → contains l b'\n' ≡ false
      → let t = holding q (new_session fd ip) in
        let r = handle_auth env (drop_return l) (consume_buffer (length l + 1) t) w in
        process_loop env (suc fuel) t w ≡ process_loop env fuel r.0 r.1
  unfolding buf_data
  line_ends fuel q l rest w e h =
      let t = holding q (new_session fd ip) in
      auth_goes fuel q l rest w e
      ∙ auth_round (process_loop env fuel) t (consume_buffer (length l + 1) t) w (drop_return l)
          (next_line-stream t l rest h e)

  -- The PIN is accepted.
  pub handle_auth_accepts :
      (line : Bytes) (n : ℕ) (q : Bytes) (w : World)
      → (is_ip_blocked w.manager ip (env.now w.trace)).0 ≡ false
      → validate_key w.manager (read_pin line) ≡ true
      → handle_auth env line (consume_buffer n (holding q (new_session fd ip))) w ≡ (
        record (consume_buffer n (holding q (new_session fd ip))) {
          session_key = read_pin line;
          stage = header;
        },
        paired_world env ip w,
      )
  unfolding handle_auth validate_key consume_buffer new_session paired_world
  handle_auth_accepts line n q w free valid =
      ground (arith, is_ip_blocked-keeps_pins w.manager ip (env.now w.trace))

  -- Behind the line, the session listens for commands.
  pub behind_pin :
      (q l rest : Bytes)
      → q ≡ l ++ b'\n' ∷ rest
      → let s = paired_session fd ip (read_pin (drop_return l)) in
        Reads s rest (record (consume_buffer (length l + 1) (holding q (new_session fd ip))) {
          session_key = read_pin (drop_return l);
          stage = header;
        })
  unfolding paired_session buf_data new_session
  behind_pin q l rest e =
      let t = holding q (new_session fd ip) in
      record {
        same =
            ap
              (λ (x : Session). record x { session_key = read_pin (drop_return l); stage = header })
              (holding-consume_buffer (length l + 1) t);
        queue = buf_data_behind t l rest e;
        in_range =
            consume_buffer-InRange (length l + 1) t (omega arith)
              (omega (arith, ap length e, length-append l (b'\n' ∷ rest), length-buf_data t));
      }

  pub shorter_behind :
      (q l rest : Bytes)
      → q ≡ l ++ b'\n' ∷ rest
      → buf_size (record (consume_buffer (length l + 1) (holding q (new_session fd ip))) {
        session_key = read_pin (drop_return l);
        stage = header;
      })
        < buf_size (holding q (new_session fd ip))
  unfolding buf_size new_session
  shorter_behind q l rest e = omega (
    arith,
    ap length e,
    length-append l (b'\n' ∷ rest),
    buf_size-consume_buffer (length l + 1) (holding q (new_session fd ip)),
  )

  feed_pin :
      (chunks ls : List Bytes) (q l tail : Bytes) (w : World)
      → (is_ip_blocked w.manager ip (env.now w.trace)).0 ≡ false
      → validate_key w.manager (read_pin (drop_return l)) ≡ true
      → contains l b'\n' ≡ false
      → contains q b'\n' ≡ false
      → contains tail b'\n' ≡ false
      → length q ≤ length l
      → AreSmall (length l) chunks
      → AreCommands ls
      → q ++ join chunks ≡ l ++ b'\n' ∷ stream ls tail
      → (feed env chunks (holding q (new_session fd ip)) w >>= view) ≡ (
          run_lines env ls (paired_world env ip w) >>= λ w'.
          ran (holding tail (paired_session fd ip (read_pin (drop_return l))), w'))
  unfolding feed paired_session new_session
  feed_pin [] ls q l tail w free valid hl hq ht within small cs e =
      absurd (no_line q l (stream ls tail) hq (sym (append-nil q) ∙ e))
  feed_pin (c ∷ chunks) ls q l tail w free valid hl hq ht within small cs e =
      let t = holding (q ++ c) (new_session fd ip) in
      let s = paired_session fd ip (read_pin (drop_return l)) in
      let behind =
        λ (m : Exec (Session × World)). ((m >>= λ p. feed env chunks p.0 p.1) >>= view) in
      let fits : length (q ++ c) ≤ auth_max_buffer = omega (arith, length-append q c) in
      elim (meets_line (q ++ c) (join chunks) l (stream ls tail) b'\n'
        (append_assoc q c (join chunks) ∙ e)) [
          | inl (d, part) ↦
              let no_newline : contains (q ++ c) b'\n' ≡ false =
                ground (arith, contains-append (q ++ c) d b'\n', ap (λ x. contains x b'\n') part) in
              ap behind
                (on_data_auth c q w fits ∙ waits_for_line (buf_size t) (q ++ c) w no_newline)
              ∙ feed_pin chunks ls (q ++ c) l tail w free valid hl no_newline ht
                  (omega (arith, ap length part, length-append (q ++ c) d)) small.1 cs
                  (append_assoc q c (join chunks) ∙ e)
          | inr (d, whole, rest) ↦
              let u : Session = record (consume_buffer (length l + 1) t) {
                session_key = read_pin (drop_return l);
                stage = header;
              } in
              let listening : IsListening s = record { in_header = refl; is_open = refl } in
              ap behind (
                on_data_auth c q w fits
                ∙ line_ends (buf_size t) (q ++ c) l d w whole hl
                ∙ ap (λ (r : Session × World). process_loop env (buf_size t) r.0 r.1)
                    (handle_auth_accepts (drop_return l) (length l + 1) (q ++ c) w free valid))
              ∙ bind_assoc (process_loop env (buf_size t) u (paired_world env ip w))
                  (λ p. feed env chunks p.0 p.1) view
              ∙ resumes env s chunks ls d tail u (paired_world env ip w) (buf_size t) listening
                  (λ u' w' q' ms r' cs' h' e'.
                    feed-Reads env s chunks ms q' tail u' w' listening r' cs' h' ht e')
                  (behind_pin (q ++ c) l d whole) cs ht (shorter_behind (q ++ c) l d whole) rest
        ]

  -- A phone whose address is not banned connects and sends a PIN of the window on a line, then lines
  -- that announce no file, in reads that stay within the limit before AUTH_OK together with the line:
  -- however the network cuts the bytes up, it is answered AUTH_OK, then each line is carried out
  -- once, whole and in its order, as far as the first exception, and the rest waits in the buffer.
  pub feed-new_session :
      (chunks ls : List Bytes) (l tail : Bytes) (w : World)
      → (is_ip_blocked w.manager ip (env.now w.trace)).0 ≡ false
      → validate_key w.manager (read_pin (drop_return l)) ≡ true
      → contains l b'\n' ≡ false
      → contains tail b'\n' ≡ false
      → AreSmall (length l) chunks
      → AreCommands ls
      → join chunks ≡ l ++ b'\n' ∷ stream ls tail
      → (feed env chunks (new_session fd ip) w >>= view) ≡ (
          run_lines env ls (paired_world env ip w) >>= λ w'.
          ran (holding tail (paired_session fd ip (read_pin (drop_return l))), w'))
  unfolding new_session contains
  feed-new_session chunks ls l tail w free valid hl ht small cs e =
      feed_pin chunks ls [] l tail w free valid hl refl ht (omega arith) small cs e
