-- ===== src/Session/Machine/Lines/Feed.antt =====
-- The same over any number of reads: where the network cuts the stream does not matter.
use titan_share.Prelude.{
  subst, contains-append, ◌<◌, ◌≡◌, refl, sym, ap, ◌∙◌, false, List, [], ◌∷◌, ◌++◌, append_assoc,
  append-nil, Bytes, contains, ◌⊎◌, inl, inr, arith, suc, ℕ,
}
use titan_share.Session.State.{Session, header, Env, World, Exec, ran, ◌>>=◌, bind_assoc}
use titan_share.Session.Buffer.{buf_size, buf_data, InRange}
use titan_share.Session.Machine.{process_loop, on_data}
use titan_share.Session.Machine.Lines.{
  stream, join, feed, run_lines, AreCommands, holding, view, run_lines-append, Reads, IsListening,
  loop_lines, more_read, on_data_loop,
}

-- Where a text goes on behind a line and its newline, or within the line.
pub meets_line :
    (a b l r : Bytes) (x : ℕ)
    → a ++ b ≡ l ++ x ∷ r
    → ((c : Bytes) × (l ≡ a ++ c)) ⊎ ((c : Bytes) × (a ≡ l ++ x ∷ c) × (c ++ b ≡ r))
meets_line [] b l r x e = inl (l, refl)
meets_line (y ∷ a) b [] r x e = inr (a, ground arith, ground arith)
meets_line (y ∷ a) b (z ∷ l) r x e = elim (meets_line a b l r x (ground arith)) [
  | inl (c, h) ↦ inl (c, ground arith)
  | inr (c, h, g) ↦ inr (c, ground arith, g)
]

-- A stream that is cut anywhere: the lines before the cut, the part of a line that stands before it,
-- and the lines that end behind it.
record Cut (a b : Bytes) (ls : List Bytes) (tail : Bytes) : Type 0 where
  before : List Bytes
  begun : Bytes
  behind : List Bytes
  lines_split : ls ≡ before ++ behind
  front : a ≡ stream before begun
  no_newline : contains begun b'\n' ≡ false
  back : begun ++ b ≡ stream behind tail
  before_commands : AreCommands before
  behind_commands : AreCommands behind

Cut-stream :
    (ls : List Bytes) (a b tail : Bytes)
    → AreCommands ls
    → contains tail b'\n' ≡ false
    → a ++ b ≡ stream ls tail
    → Cut a b ls tail
unfolding stream
Cut-stream [] a b tail cs h e = record {
  before = [];
  begun = a;
  behind = [];
  lines_split = refl;
  front = refl;
  no_newline = ground (arith, contains-append a b b'\n', ap (λ s. contains s b'\n') e);
  back = e;
  before_commands = tt;
  behind_commands = tt;
}
Cut-stream (l ∷ ls) a b tail cs h e = elim (meets_line a b l (stream ls tail) b'\n' e) [
  | inl (c, within) ↦ record {
    before = [];
    begun = a;
    behind = l ∷ ls;
    lines_split = refl;
    front = refl;
    no_newline =
        ground (arith, contains-append a c b'\n', ap (λ s. contains s b'\n') within, cs.0.0);
    back = e;
    before_commands = tt;
    behind_commands = cs;
  }
  | inr (c, over, rest) ↦
      let cut = Cut-stream ls c b tail cs.1 h rest in
      record {
        before = l ∷ cut.before;
        begun = cut.begun;
        behind = cut.behind;
        lines_split = ap (◌∷◌ l) cut.lines_split;
        front = over ∙ ap (λ s. l ++ b'\n' ∷ s) cut.front;
        no_newline = cut.no_newline;
        back = cut.back;
        before_commands = (cs.0, cut.before_commands);
        behind_commands = cut.behind_commands;
      }
]

-- Nothing is complete in a text without a newline.
stream_unfinished :
    (ls : List Bytes) (tail q : Bytes)
    → contains q b'\n' ≡ false
    → q ≡ stream ls tail
    → (ls ≡ []) × (q ≡ tail)
unfolding stream contains
stream_unfinished [] tail q h e = (refl, e)
stream_unfinished (l ∷ ls) tail q h e =
    ground (arith, ap (λ s. contains s b'\n') e, contains-append l (b'\n' ∷ stream ls tail) b'\n')

-- The loop over what is there, and the reads behind it, if they do as they are to.
pub resumes :
    (env : Env) (s : Session) (chunks ls : List Bytes) (a tail : Bytes) (t : Session) (w : World)
    (fuel : ℕ)
    → IsListening s
    → ((u : Session) (w' : World) (q : Bytes) (ms : List Bytes)
        → Reads s q u
        → AreCommands ms
        → contains q b'\n' ≡ false
        → q ++ join chunks ≡ stream ms tail
        → (feed env chunks u w' >>= view)
          ≡ (run_lines env ms w' >>= λ w''. ran (holding tail s, w'')))
    → Reads s a t
    → AreCommands ls
    → contains tail b'\n' ≡ false
    → buf_size t < fuel
    → a ++ join chunks ≡ stream ls tail
    → (process_loop env fuel t w >>= λ p. feed env chunks p.0 p.1 >>= view)
      ≡ (run_lines env ls w >>= λ w'. ran (holding tail s, w'))
resumes env s chunks ls a tail t w fuel listening behind r cs g enough e =
    let cut = Cut-stream ls a (join chunks) tail cs g e in
    let done : World → Exec (Session × World) = λ w'. ran (holding tail s, w') in
    let next = λ (p : Session × World). (feed env chunks p.0 p.1 >>= view) in
    loop_lines env s listening fuel cut.before cut.begun t w next
      (λ w'. run_lines env cut.behind w' >>= done) cut.before_commands cut.no_newline
      (subst (λ b. Reads s b t) cut.front r) enough
      (λ u w' r'. behind u w' cut.begun cut.behind r' cut.behind_commands cut.no_newline cut.back)
    ∙ sym (bind_assoc (run_lines env cut.before w) (λ w'. run_lines env cut.behind w') done)
    ∙ ap (λ m. m >>= done) (sym (run_lines-append env cut.before cut.behind w))
    ∙ ap (λ ms. run_lines env ms w >>= done) (sym cut.lines_split)

pub feed-Reads :
    (env : Env) (s : Session) (chunks ls : List Bytes) (q tail : Bytes) (t : Session) (w : World)
    → IsListening s
    → Reads s q t
    → AreCommands ls
    → contains q b'\n' ≡ false
    → contains tail b'\n' ≡ false
    → q ++ join chunks ≡ stream ls tail
    → (feed env chunks t w >>= view) ≡ (run_lines env ls w >>= λ w'. ran (holding tail s, w'))
unfolding feed run_lines
feed-Reads env s [] ls q tail t w listening r cs h g e =
    let (none_left, rest) = stream_unfinished ls tail q h (sym (append-nil q) ∙ e) in
    let same : holding (buf_data t) t ≡ holding tail s =
      ap (λ b. holding b t) (r.queue ∙ rest) ∙ ap (holding tail) r.same in
    ap (λ (u : Session). ran (u, w)) same
    ∙ sym (ap (λ ms. run_lines env ms w >>= λ w'. ran (holding tail s, w')) none_left)
feed-Reads env s (c ∷ chunks) ls q tail t w listening r cs h g e =
    let t' : Session = record t { buffer = t.buffer ++ c } in
    bind_assoc (on_data env c t w) (λ p. feed env chunks p.0 p.1) view
    ∙ ap (λ m. m >>= λ (p : Session × World). feed env chunks p.0 p.1 >>= view)
        (on_data_loop env s listening c q t w r)
    ∙ resumes env s chunks ls (q ++ c) tail t' w (suc (buf_size t')) listening
        (λ u w' q' ms r' cs' h' e'.
          feed-Reads env s chunks ms q' tail u w' listening r' cs' h' g e')
        (more_read env s listening c q t r) cs g (omega arith) (append_assoc q c (join chunks) ∙ e)

-- However the network cuts up a stream of lines that announce no file, a session in the HEADER
-- stage carries out each line once, whole and in its order, as far as the first exception, and what
-- has come in of the next line waits in its buffer; all else of the session stays as it was.
pub feed-run_lines :
    (env : Env) (chunks ls : List Bytes) (tail : Bytes) (s : Session) (w : World)
    → s.stage ≡ header
    → s.closed ≡ false
    → InRange s
    → contains (buf_data s) b'\n' ≡ false
    → contains tail b'\n' ≡ false
    → AreCommands ls
    → buf_data s ++ join chunks ≡ stream ls tail
    → (feed env chunks s w >>= view) ≡ (run_lines env ls w >>= λ w'. ran (holding tail s, w'))
feed-run_lines env chunks ls tail s w in_header is_open in_range h g cs e =
    feed-Reads env s chunks ls (buf_data s) tail s w
      (record { in_header = in_header; is_open = is_open })
      (record { same = refl; queue = refl; in_range = in_range }) cs h g e
