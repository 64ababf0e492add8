-- ===== src/Session/Machine/Lines/Announced.antt =====
-- The line that announces a file, and what `handleHeader` leaves of it.
use titan_share.Config.{max_receive_file_bytes, received_files_dir}
use titan_share.Prelude.{
  ℕ, ◌<◌, ◌≤◌, ◌≡◌, ◌≢◌, ◌&&◌, leb, refl, ap, ◌∙◌, false, some, [], ◌∷◌, ◌++◌, length, Bytes,
  contains, contains-append, codes, to_string, to_string-all_digits, all_digits_lacks, arith,
}
use titan_share.Session.State.{
  Session, header, file_data, makes_dirs, sent, opens, Env, World, note, Exec, ran, ◌>>=◌,
}
use titan_share.Session.Header.{sanitize, handle_header, open_received}
use titan_share.Session.FileStart.{file_start_line}
use titan_share.Session.Machine.{drop_return, next_line, run_stage}
use titan_share.Session.Machine.Lines.Greeting.{drop_return_lem}
use titan_share.Session.Machine.Lines.Taking.{IsRoomy}

drop_return-append : (a b : Bytes) → 0 < length b → drop_return (a ++ b) ≡ a ++ drop_return b
unfolding drop_return
drop_return-append [] b h = refl
drop_return-append (x ∷ []) [] h = absurd (omega arith)
drop_return-append (x ∷ []) (y ∷ b) h = refl
drop_return-append (x ∷ y ∷ a) b h = ap (◌∷◌ x) (drop_return-append (y ∷ a) b h)

digits_lack :
    (size c : ℕ) → (leb b'0' c && leb c b'9') ≡ false → contains (to_string size) c ≡ false
digits_lack size c = all_digits_lacks (to_string size) c (to_string-all_digits size)

colon_digits_lack : (size : ℕ) → contains (b':' ∷ to_string size) b'\r' ≡ false
unfolding contains
colon_digits_lack size = digits_lack size b'\r' refl

-- The line ends in a digit.
pub drop_return-file_start_line :
    (name : Bytes) (size : ℕ) → drop_return (file_start_line name size) ≡ file_start_line name size
drop_return-file_start_line name size =
    drop_return-append (codes "FILE_START:" ++ name) (b':' ∷ to_string size) (omega arith)
    ∙ ap (◌++◌ (codes "FILE_START:" ++ name))
        (drop_return_lem (b':' ∷ to_string size) (colon_digits_lack size))

pub file_start_line_is_one :
    (name : Bytes) (size : ℕ)
    → contains name b'\n' ≡ false
    → contains (file_start_line name size) b'\n' ≡ false
unfolding contains
file_start_line_is_one name size h =
    ground
      (arith, h, contains-append name (b':' ∷ to_string size) b'\n', digits_lack size b'\n' refl)

-- The directory of received files takes a new file of that name, on that descriptor.
abbrev pub CanOpen : Env → Bytes → ℕ → World → Type 0
CanOpen env name fd w =
    env.open_file (makes_dirs (received_files_dir env.data_dir) ∷ w.trace)
      (received_files_dir env.data_dir ++ b'/' ∷ sanitize name)
    ≡ some fd

-- A name and a content that a client may announce.
pub record IsNamed (name content : Bytes) : Type 0 where
  pub some_name : name ≢ []
  pub one_line : contains name b'\n' ≡ false
  pub some_content : 0 < length content
  pub limited : length content ≤ max_receive_file_bytes

-- What the announced file leaves behind.
abbrev pub opened : Env → Bytes → ℕ → ℕ → Session → World → Session × World
opened env name size fd s w = (
  record s {
    file_name = sanitize name;
    expected_bytes = size;
    file_fd = some fd;
    received_bytes = 0;
    stage = file_data;
  },
  note (sent (codes "READY_FOR_FILE\n")) (
      note (opens (received_files_dir env.data_dir ++ b'/' ∷ sanitize name))
        (note (makes_dirs (received_files_dir env.data_dir)) w)),
)

pub open_received_opened :
    (env : Env) (name : Bytes) (size fd : ℕ) (s : Session) (w : World)
    → IsRoomy env
    → CanOpen env name fd w
    → open_received env (record s { file_name = sanitize name; expected_bytes = size }) w
      ≡ ran (opened env name size fd s w)
unfolding open_received
open_received_opened env name size fd s w roomy can =
    ground (arith, can, roomy.makes w.trace (received_files_dir env.data_dir))

pub header_stage :
    (env : Env) (next : Session → World → Exec (Session × World)) (t t' : Session) (w : World)
    (line : Bytes) (q : Session × World)
    → next_line t ≡ some (line, t')
    → handle_header env line t' w ≡ ran q
    → run_stage env next header t w ≡ next q.0 q.1
unfolding run_stage
header_stage env next t t' w line q e k =
    rw (e, run_stage) (ap (λ (m : Exec (Session × World)). m >>= λ p. next p.0 p.1) k)
