-- ===== src/Session/FileStart.antt =====
-- The header of a file transfer: what `handleHeader` makes of a "FILE_START:<name>:<size>" line.
use titan_share.Config.{max_receive_file_bytes}
use titan_share.Prelude.{
  ℕ, ◌+◌, ◌-◌, ◌≤◌, ◌<◌, ◌≡◌, refl, sym, ap, ◌∙◌, ◌≢◌, false, none, some, [], ◌∷◌, ◌++◌, length,
  drop, take-append_exact, drop-append_exact, drop-drop, Bytes, codes, eqb, substr, substr_from,
  rfind, replace, contains, stoull-to_string, to_string, to_string-all_digits, all_digits_no_colon,
  arith,
}
use titan_share.Session.State.{Session, Env, World}
use titan_share.Session.Header.{sanitize, accept_size, open_received, file_start, handle_header}

rfind-none : (s : Bytes) (c : ℕ) → contains s c ≡ false → rfind s c ≡ none
unfolding rfind contains
rfind-none [] c h = refl
rfind-none (x ∷ s) c h = ground (arith, rfind-none s c)

-- The last colon is the one behind which there is none.
rfind-append : (s t : Bytes) (c : ℕ) → contains t c ≡ false → rfind (s ++ c ∷ t) c ≡ some (length s)
unfolding rfind
rfind-append [] t c h = ground (arith, rfind-none t c h)
rfind-append (x ∷ s) t c h = ground (arith, rfind-append s t c h)

abbrev pub file_start_line : Bytes → ℕ → Bytes
file_start_line name size = codes "FILE_START:" ++ (name ++ b':' ∷ to_string size)

last_colon_lem :
    (name : Bytes) (size : ℕ) → rfind (file_start_line name size) b':' ≡ some (11 + length name)
last_colon_lem name size =
    rfind-append (codes "FILE_START:" ++ name) (to_string size) b':'
      (all_digits_no_colon (to_string size) (to_string-all_digits size))
    ∙ ap some (omega arith)

file_start_name :
    (name : Bytes) (size : ℕ) → substr (file_start_line name size) 11 (11 + length name - 11) ≡ name
unfolding substr
file_start_name name size = take-append_exact (11 + length name - 11) name _ (omega arith)

file_start_size :
    (name : Bytes) (size : ℕ)
    → substr_from (file_start_line name size) (11 + length name + 1) ≡ to_string size
unfolding substr_from
file_start_size name size =
    ap (λ k. drop k (file_start_line name size)) (omega arith)
    ∙ sym (drop-drop 11 (length name + 1) (file_start_line name size))
    ∙ sym (drop-drop (length name) 1 (name ++ b':' ∷ to_string size))
    ∙ ap (drop 1) (drop-append_exact (length name) name (b':' ∷ to_string size) refl)

pub length_pos : (name : Bytes) → name ≢ [] → 0 < length name
length_pos [] h = absurd (h refl)
length_pos (c ∷ cs) h = omega arith

is_file_start :
    (env : Env) (name : Bytes) (size : ℕ) (s : Session) (w : World)
    → handle_header env (file_start_line name size) s w
      ≡ file_start env (file_start_line name size) s w
unfolding handle_header substr eqb
is_file_start env name size s w = ground arith

-- A header written by a client, for a name that is not empty and may hold colons, and a size from
-- 1 byte to 2 GiB, is read back: the file opened has the name with its separators replaced, and the
-- declared size.
pub handle_header_file_start :
    (env : Env) (name : Bytes) (size : ℕ) (s : Session) (w : World)
    → name ≢ []
    → 0 < size
    → size ≤ max_receive_file_bytes
    → handle_header env (file_start_line name size) s w
      ≡ open_received env (record s { file_name = sanitize name; expected_bytes = size }) w
unfolding file_start accept_size
handle_header_file_start env name size s w nonempty positive limited =
    is_file_start env name size s w
    ∙ ground (
      arith,
      length_pos name nonempty,
      last_colon_lem name size,
      file_start_name name size,
      file_start_size name size,
      stoull-to_string size (omega arith),
    )

-- No separator is left in the name that reaches `open`.
pub sanitize-no_separator :
    (name : Bytes)
    → (contains (sanitize name) b'/' ≡ false) × (contains (sanitize name) b'\\' ≡ false)
unfolding sanitize contains replace
sanitize-no_separator [] = (refl, refl)
sanitize-no_separator (c ∷ cs) = ground (arith, sanitize-no_separator cs)
