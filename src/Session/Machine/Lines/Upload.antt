-- ===== src/Session/Machine/Lines/Upload.antt =====
-- A whole upload, from the line that announces the file to the last byte.
use titan_share.Prelude.{
  ℕ, zero, suc, ◌+◌, ◌<◌, ◌≡◌, refl, sym, ap, ◌∙◌, subst, true, false, List, [], ◌∷◌, ◌++◌,
  append_assoc, append-nil, length, length-append, Bytes, contains, contains-append, inl, inr, ◌⊎◌,
  arith,
}
use titan_share.Session.State.{
  Session, header, Env, World, Exec, ran, threw, starved, ◌>>=◌, Returns, Returns-bind, Returns-map,
}
use titan_share.Session.Buffer.{
  buf_size, buf_data, consume_buffer, buf_size-consume_buffer, InRange,
}
use titan_share.Session.Header.{sanitize}
use titan_share.Session.FileStart.{file_start_line}
use titan_share.Session.Upload.Content.{received_file}
use titan_share.Session.Machine.{drop_return, process_loop}
use titan_share.Session.Machine.Lines.{
  join, feed, stream, run_line, run_lines, AreCommands, one_line, Reads, IsListening, behind_line,
  length_read, loop_rests, loop_goes, more_read, on_data_loop,
}
use titan_share.Session.Machine.Lines.Feed.{meets_line}
use titan_share.Session.Machine.Lines.Paired.{no_line}
use titan_share.Session.Machine.Lines.Taking.{IsRoomy, IsUploaded, Progresses}
use titan_share.Session.Machine.Lines.Continuing.{reads-IsUploaded}
use titan_share.Session.Machine.Lines.Announced.{file_start_line_is_one, CanOpen, IsNamed}
use titan_share.Session.Machine.Lines.Starting.{loop_starts}

bind_returns :
    (m : Exec World) (f : World → Exec World) (w : World)
    → (m >>= f) ≡ ran w
    → (v : World) × (m ≡ ran v) × (f v ≡ ran w)
bind_returns (ran v) f w e = (v, refl, e)
bind_returns threw f w e = cc
bind_returns starved f w e = cc

part_of_line : (q d l : Bytes) → contains l b'\n' ≡ false → l ≡ q ++ d → contains q b'\n' ≡ false
part_of_line q d l h e = ground (arith, contains-append q d b'\n', ap (λ x. contains x b'\n') e)

-- A client announces `content` under `name`, on a disk that takes it, to a session that is `s` but
-- for its buffer.
module _ (env : Env) (s : Session) (w : World) (name content : Bytes) (fd : ℕ) (roomy : IsRoomy env)
    (listening : IsListening s) (named : IsNamed name content) (can : CanOpen env name fd w)
    (fresh : received_file fd w.trace ≡ []) (printable : env.dumps (sanitize name) ≡ true) where
  -- The lines before the announcement are not all carried out, or it has not come in whole.
  pub record IsWaiting (rest : Bytes) (p : Session × World) : Type 0 where
    pub lines_left : List Bytes
    pub held : Bytes
    pub reads : Reads s held p.0
    pub no_newline : contains held b'\n' ≡ false
    pub commands : AreCommands lines_left
    pub to_come :
        held ++ rest ≡ stream lines_left (file_start_line name (length content) ++ b'\n' ∷ content)
    pub runs : run_lines env lines_left p.1 ≡ ran w

  abbrev pub IsUnderway : Bytes → Session × World → Type 0
  IsUnderway rest p =
      IsWaiting rest p ⊎ ((got : Bytes) × (got ++ rest ≡ content) × Progresses env fd content got p)

  loop_waits :
      (fuel : ℕ) (ls : List Bytes) (q rest : Bytes) (t : Session) (v : World)
      → Reads s q t
      → AreCommands ls
      → run_lines env ls v ≡ ran w
      → q ++ rest ≡ stream ls (file_start_line name (length content) ++ b'\n' ∷ content)
      → contains q b'\n' ≡ false
      → Returns (IsUnderway rest) (process_loop env (suc fuel) t v)
  loop_waits fuel ls q rest t v r cs runs e h =
      rw (loop_rests env s listening fuel t v q r h, Returns)
        (inl (record {
          lines_left = ls;
          held = q;
          reads = r;
          no_newline = h;
          commands = cs;
          to_come = e;
          runs = runs;
        }))

  pub loop-IsUnderway :
      (fuel : ℕ) (ls : List Bytes) (q rest : Bytes) (t : Session) (v : World)
      → Reads s q t
      → AreCommands ls
      → run_lines env ls v ≡ ran w
      → q ++ rest ≡ stream ls (file_start_line name (length content) ++ b'\n' ∷ content)
      → buf_size t < fuel
      → Returns (IsUnderway rest) (process_loop env fuel t v)
  unfolding run_lines stream
  loop-IsUnderway zero ls q rest t v r cs runs e enough = absurd (omega arith)
  loop-IsUnderway (suc fuel) [] q rest t v r cs runs e enough =
      let line = file_start_line name (length content) in
      let one = file_start_line_is_one name (length content) named.one_line in
      elim (meets_line q rest line content b'\n' e) [
        | inl (d, within) ↦
            loop_waits fuel [] q rest t v r cs runs e (part_of_line q d line one within)
        | inr (got, over, behind) ↦
            let long : 0 < fuel = omega (
              arith,
              length_read env s listening _ t r,
              ap length over,
              length-append line (b'\n' ∷ got),
            ) in
            let same : v ≡ w = cc in
            subst (λ x. Returns (IsUnderway rest) (process_loop env (suc fuel) t x)) (sym same)
              (Returns-map (Progresses env fd content got) (IsUnderway rest) _
                (λ p pr. inr (got, behind, pr))
                (loop_starts env s w name content fd roomy listening named can fresh printable t got
                  rest fuel behind (subst (λ b. Reads s b t) over r) long))
      ]
  loop-IsUnderway (suc fuel) (l ∷ ls) q rest t v r cs runs e enough =
      let tail = stream ls (file_start_line name (length content) ++ b'\n' ∷ content) in
      elim (meets_line q rest l tail b'\n' e) [
        | inl (d, within) ↦
            loop_waits fuel (l ∷ ls) q rest t v r cs runs e (part_of_line q d l cs.0.0 within)
        | inr (d, over, behind) ↦
            let (v', first, others) =
              bind_returns (run_line env (drop_return l) v) (run_lines env ls) w runs in
            let r' = subst (λ b. Reads s b t) over r in
            let t' = consume_buffer (length l + 1) t in
            let shorter : buf_size t' < fuel = omega (
              arith,
              buf_size-consume_buffer (length l + 1) t,
              length_read env s listening _ t r',
              length-append l (b'\n' ∷ d),
            ) in
            let round =
              loop_goes env s listening fuel t v l d r'
              ∙ one_line env s listening (process_loop env fuel) t v l d r' cs.0.0 cs.0.1
              ∙ ap (λ (m : Exec World). m >>= λ v'. process_loop env fuel t' v') first in
            subst (Returns (IsUnderway rest)) (sym round) (
              loop-IsUnderway fuel ls d rest t' v' (behind_line env s listening t l d r') cs.1
                others behind shorter)
      ]

  none_left :
      (ls : List Bytes) (q : Bytes)
      → contains q b'\n' ≡ false
      → q ≡ stream ls (file_start_line name (length content) ++ b'\n' ∷ content)
      → ⊥
  unfolding stream
  none_left [] q h e = no_line q (file_start_line name (length content)) content h e
  none_left (l ∷ ls) q h e = no_line q l _ h e

  -- The reads to come, wherever the session stands.
  pub feed_to_end :
      (chunks : List Bytes) (p : Session × World)
      → IsUnderway (join chunks) p
      → Returns (IsUploaded fd content) (feed env chunks p.0 p.1)
  unfolding feed
  feed_to_end chunks p (inr (got, rest, pr)) =
      reads-IsUploaded env roomy fd content got chunks p.0 p.1 rest pr
  feed_to_end [] p (inl k) =
      absurd (none_left k.lines_left k.held k.no_newline (sym (append-nil k.held) ∙ k.to_come))
  feed_to_end (c ∷ chunks) p (inl k) =
      let t' : Session = record p.0 { buffer = p.0.buffer ++ c } in
      subst
        (λ (m : Exec (Session × World)).
          Returns (IsUploaded fd content) (m >>= λ q. feed env chunks q.0 q.1))
        (sym (on_data_loop env s listening c k.held p.0 p.1 k.reads))
        (Returns-bind (IsUnderway (join chunks)) (IsUploaded fd content)
          (process_loop env (suc (buf_size t')) t' p.1) _
          (loop-IsUnderway (suc (buf_size t')) k.lines_left (k.held ++ c) (join chunks) t' p.1
            (more_read env s listening c k.held p.0 k.reads) k.commands k.runs
            (append_assoc k.held c (join chunks) ∙ k.to_come) (omega arith))
          λ q g. feed_to_end chunks q g)

-- An open session in the HEADER stage holds no whole line. Its client sends lines that announce
-- no file and raise no exception, then it announces a file and sends it, and what it sends is
-- cut up into reads in any way: then no exception is raised, the file holds exactly the bytes
-- that were sent, FILE_OK is the last answer, and the session waits for the next line with
-- nothing left in its buffer. The conditions on the file: its name is not empty and has no
-- newline, its size is from 1 byte to 2 GiB, the JSON library dumps the name as it is stored and
-- an empty text, the file can be opened behind the lines, on a descriptor to which nothing was
-- written, `write` takes all it is given, and directories can be made.
pub feed-IsUploaded :
    (env : Env) (chunks ls : List Bytes) (name content : Bytes) (fd : ℕ) (s : Session)
    (w behind : World)
    → IsRoomy env
    → s.stage ≡ header
    → s.closed ≡ false
    → InRange s
    → contains (buf_data s) b'\n' ≡ false
    → AreCommands ls
    → run_lines env ls w ≡ ran behind
    → IsNamed name content
    → CanOpen env name fd behind
    → received_file fd behind.trace ≡ []
    → env.dumps (sanitize name) ≡ true
    → buf_data s ++ join chunks
      ≡ stream ls (file_start_line name (length content) ++ b'\n' ∷ content)
    → Returns (IsUploaded fd content) (feed env chunks s w)
feed-IsUploaded env chunks ls name content fd s w behind roomy in_header is_open in_range h cs runs
      named can fresh printable e =
    let listening : IsListening s = record { in_header = in_header; is_open = is_open } in
    feed_to_end env s behind name content fd roomy listening named can fresh printable chunks (s, w)
      (inl (record {
        lines_left = ls;
        held = buf_data s;
        reads = record { same = refl; queue = refl; in_range = in_range };
        no_newline = h;
        commands = cs;
        to_come = e;
        runs = runs;
      }))
