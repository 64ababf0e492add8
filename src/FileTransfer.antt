-- ===== src/FileTransfer.antt =====
-- src/file_transfer/file_receiver.cpp, which no other code calls, beside the cleaning of names that
-- src/server/client_session.cpp has of its own.
use titan_share.Config.{received_files_dir}
use titan_share.Prelude.{
  ℕ, ◌==◌, ◌≡◌, ◌≢◌, refl, Bool, true, false, if◌then◌else◌, [], ◌∷◌, Bytes, arith, replace,
  contains, contains-replace, Bool-cases, inl, inr,
}
use titan_share.Session.FileStart.{sanitize-no_separator}
use titan_share.Session.Header.{sanitize}

-- `getReceivedDir`.
unfoldable pub get_received_dir : Bytes → Bytes
get_received_dir data_dir = received_files_dir data_dir

-- `ensureDir`, on whether `create_directories` returns for a path.
unfoldable pub ensure_dir : (Bytes → Bool) → Bytes → Bool
ensure_dir made data_dir = if made (get_received_dir data_dir) then true else false

-- `erase(remove(..., c))`.
unfoldable pub without : Bytes → ℕ → Bytes
without [] c = []
without (x ∷ xs) c = let rest = without xs c in if x == c then rest else x ∷ rest

-- `sanitizeFilename`.
unfoldable pub sanitize_filename : Bytes → Bytes
sanitize_filename name = without (replace (replace name b'/' b'_') b'\\' b'_') 0

without_none : (s : Bytes) (c : ℕ) → contains s c ≡ false → without s c ≡ s
unfolding without contains
without_none [] c h = refl
without_none (x ∷ xs) c h = ground (arith, without_none xs c)

without-contains : (s : Bytes) (c d : ℕ) → contains s d ≡ false → contains (without s c) d ≡ false
unfolding without contains
without-contains [] c d h = refl
without-contains (x ∷ xs) c d h = ground (arith, without-contains xs c d)

without_self : (s : Bytes) (c : ℕ) → contains (without s c) c ≡ false
unfolding without contains
without_self [] c = refl
without_self (x ∷ xs) c = ground (arith, without_self xs c)

replace_keeps_out :
    (s : Bytes) (from to c : ℕ)
    → contains s c ≡ false
    → c ≢ to
    → contains (replace s from to) c ≡ false
replace_keeps_out s from to c h ne = elim (Bool-cases (contains (replace s from to) c)) [
  | inr out ↦ out
  | inl there ↦ elim (contains-replace s from to c there) [
    | inl old ↦ cc
    | inr new ↦ absurd (ne new)
  ]
]

-- On a name without a zero byte, the cleaning of this module and that of a session agree.
pub sanitize_filename-sanitize :
    (name : Bytes) → contains name 0 ≡ false → sanitize_filename name ≡ sanitize name
unfolding sanitize_filename sanitize
sanitize_filename-sanitize name h = without_none (replace (replace name b'/' b'_') b'\\' b'_') 0 (
    replace_keeps_out (replace name b'/' b'_') b'\\' b'_' 0
      (replace_keeps_out name b'/' b'_' 0 h (λ e. omega arith)) (λ e. omega arith))

-- And on any name it leaves no separator and no zero byte, where a session leaves the zero bytes.
pub sanitize_filename_clean :
    (name : Bytes)
    → (contains (sanitize_filename name) b'/' ≡ false)
      × (contains (sanitize_filename name) b'\\' ≡ false)
      × (contains (sanitize_filename name) 0 ≡ false)
unfolding sanitize_filename sanitize
sanitize_filename_clean name =
    let s = sanitize name in
    let clean = sanitize-no_separator name in
    (without-contains s 0 b'/' clean.0, without-contains s 0 b'\\' clean.1, without_self s 0)
