-- ===== src/Session/Machine/Lines/Sender.antt =====
-- A phone that connects, pairs, sends commands and then a file.
use titan_share.Auth.{is_ip_blocked, validate_key}
use titan_share.Config.{auth_max_buffer}
use titan_share.Prelude.{
  ℕ, ◌+◌, ◌≤◌, ◌≡◌, refl, sym, ap, ◌∙◌, subst, false, true, List, [], ◌∷◌, ◌++◌, append_assoc,
  append-nil, length, length-append, Bytes, contains, contains-append, inl, inr, arith,
}
use titan_share.Session.State.{
  Session, header, new_session, Env, World, Exec, ran, ◌>>=◌, Returns, Returns-bind,
}
use titan_share.Session.Buffer.{buf_size, consume_buffer}
use titan_share.Session.Header.{sanitize}
use titan_share.Session.FileStart.{file_start_line}
use titan_share.Session.Login.{read_pin}
use titan_share.Session.Upload.Content.{received_file}
use titan_share.Session.Machine.{drop_return, process_loop}
use titan_share.Session.Machine.Lines.{
  join, feed, stream, run_lines, AreCommands, holding, IsListening,
}
use titan_share.Session.Machine.Lines.Feed.{meets_line}
use titan_share.Session.Machine.Lines.Paired.{
  paired_session, paired_world, AreSmall, no_line, on_data_auth, waits_for_line, line_ends,
  handle_auth_accepts, behind_pin, shorter_behind,
}
use titan_share.Session.Machine.Lines.Taking.{IsRoomy, IsUploaded}
use titan_share.Session.Machine.Lines.Announced.{CanOpen, IsNamed}
use titan_share.Session.Machine.Lines.Upload.{IsUnderway, loop-IsUnderway, feed_to_end}

join-append : (cs ds : List Bytes) → join (cs ++ ds) ≡ join cs ++ join ds
join-append [] ds = refl
join-append (c ∷ cs) ds = ap (◌++◌ c) (join-append cs ds) ∙ sym (append_assoc c (join cs) (join ds))

module _ (env : Env) (sock : ℕ) (ip : Bytes) (w behind : World) (name content : Bytes) (fd : ℕ)
    (l : Bytes) (ls : List Bytes) (roomy : IsRoomy env) (named : IsNamed name content)
    (can : CanOpen env name fd behind) (fresh : received_file fd behind.trace ≡ [])
    (printable : env.dumps (sanitize name) ≡ true)
    (free : (is_ip_blocked w.manager ip (env.now w.trace)).0 ≡ false)
    (valid : validate_key w.manager (read_pin (drop_return l)) ≡ true)
    (one : contains l b'\n' ≡ false) (cs : AreCommands ls)
    (runs : run_lines env ls (paired_world env ip w) ≡ ran behind) where
  feed_early :
      (early late : List Bytes) (q rest : Bytes)
      → contains q b'\n' ≡ false
      → length q ≤ length l
      → AreSmall (length l) early
      → q ++ join early ≡ l ++ b'\n' ∷ rest
      → rest ++ join late ≡ stream ls (file_start_line name (length content) ++ b'\n' ∷ content)
      → Returns
          (IsUploaded fd content)
          (feed env (early ++ late) (holding q (new_session sock ip)) w)
  unfolding feed new_session paired_session
  feed_early [] late q rest hq within small e g =
      absurd (no_line q l rest hq (sym (append-nil q) ∙ e))
  feed_early (c ∷ early) late q rest hq within small e g =
      let t = holding (q ++ c) (new_session sock ip) in
      let s = paired_session sock ip (read_pin (drop_return l)) in
      let after = λ (m : Exec (Session × World)).
        Returns (IsUploaded fd content) (m >>= λ p. feed env (early ++ late) p.0 p.1) in
      let fits : length (q ++ c) ≤ auth_max_buffer = omega (arith, length-append q c) in
      let loop = on_data_auth env sock ip c q w fits in
      elim (meets_line (q ++ c) (join early) l rest b'\n' (append_assoc q c (join early) ∙ e)) [
        | inl (d, part) ↦
            let no_newline : contains (q ++ c) b'\n' ≡ false =
              ground (arith, contains-append (q ++ c) d b'\n', ap (λ x. contains x b'\n') part) in
            subst after (sym (loop ∙ waits_for_line env sock ip (buf_size t) (q ++ c) w no_newline))
              (feed_early early late (q ++ c) rest no_newline
                (omega (arith, ap length part, length-append (q ++ c) d)) small.1
                (append_assoc q c (join early) ∙ e) g)
        | inr (d, whole, others) ↦
            let u : Session = record (consume_buffer (length l + 1) t) {
              session_key = read_pin (drop_return l);
              stage = header;
            } in
            let listening : IsListening s = record { in_header = refl; is_open = refl } in
            let paired =
              loop
              ∙ line_ends env sock ip (buf_size t) (q ++ c) l d w whole one
              ∙ ap (λ (r : Session × World). process_loop env (buf_size t) r.0 r.1)
                  (handle_auth_accepts env sock ip (drop_return l) (length l + 1) (q ++ c) w free
                    valid) in
            let to_come =
              ap (◌++◌ d) (join-append early late)
              ∙ sym (append_assoc d (join early) (join late))
              ∙ ap (λ b. b ++ join late) others
              ∙ g in
            subst after (sym paired) (
              Returns-bind
                (IsUnderway env s behind name content fd roomy listening named can fresh printable
                  (join (early ++ late)))
                (IsUploaded fd content) (process_loop env (buf_size t) u (paired_world env ip w)) _
                (loop-IsUnderway env s behind name content fd roomy listening named can fresh
                  printable (buf_size t) ls d (join (early ++ late)) u (paired_world env ip w)
                  (behind_pin env sock ip (q ++ c) l d whole) cs runs to_come
                  (shorter_behind env sock ip (q ++ c) l d whole))
                (feed_to_end env s behind name content fd roomy listening named can fresh printable
                  (early ++ late)))
      ]

-- A phone whose address is not banned connects and sends a line with a PIN of the window, then
-- lines that announce no file and raise no exception, then it announces a file and sends it, and
-- what it sends is cut up into reads in any way: the early ones, which contain the first line,
-- stay within the limit before AUTH_OK together with that line, and the late ones may have any
-- length. Then no exception is raised, the file holds exactly the bytes that were sent, FILE_OK
-- is the last answer, and the session waits for the next line with nothing left in its buffer.
-- The conditions on the file: its name is not empty and has no newline, its size is from 1 byte
-- to 2 GiB, the JSON library dumps the name as it is stored and an empty text, the file can be
-- opened behind the lines, on a descriptor to which nothing was written, `write` takes all it is
-- given, and directories can be made.
pub feed-new_session-IsUploaded :
    (env : Env) (sock : ℕ) (ip : Bytes) (early late ls : List Bytes) (l rest name content : Bytes)
    (fd : ℕ) (w behind : World)
    → IsRoomy env
    → (is_ip_blocked w.manager ip (env.now w.trace)).0 ≡ false
    → validate_key w.manager (read_pin (drop_return l)) ≡ true
    → contains l b'\n' ≡ false
    → AreSmall (length l) early
    → AreCommands ls
    → run_lines env ls (paired_world env ip w) ≡ ran behind
    → IsNamed name content
    → CanOpen env name fd behind
    → received_file fd behind.trace ≡ []
    → env.dumps (sanitize name) ≡ true
    → join early ≡ l ++ b'\n' ∷ rest
    → rest ++ join late ≡ stream ls (file_start_line name (length content) ++ b'\n' ∷ content)
    → Returns (IsUploaded fd content) (feed env (early ++ late) (new_session sock ip) w)
unfolding new_session contains
feed-new_session-IsUploaded env sock ip early late ls l rest name content fd w behind roomy free
      valid one small cs runs named can fresh printable e g =
    feed_early env sock ip w behind name content fd l ls roomy named can fresh printable free valid
      one cs runs early late [] rest refl (omega arith) small e g
