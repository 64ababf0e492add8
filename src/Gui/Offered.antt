-- ===== src/Gui/Offered.antt =====
-- From the window to the phone: a file that is dropped on the window of src_gui/main.cpp, and
-- `pushFile` of src/server/client_session.cpp in a daemon of the same user.
use titan_share.Config.{get_data_dir, send_to_android_dir}
use titan_share.Gui.Drop.{
  Allowed, local_file, dest_dir, file_name, drop_url, drop_urls, handle_dropped_files, drop_url_lem,
}
use titan_share.Prelude.{
  ℕ, suc, ◌<◌, ◌==◌, ◌≡◌, refl, sym, ap, subst, ◌∙◌, true, false, if◌then◌else◌, Option, none, some,
  List, [], ◌∷◌, ◌++◌, length, drop, append_assoc, Bytes, codes, is_empty, eqb, rfind, contains,
  substr_from, Assoc, lookup, arith, Option-cases, inl, inr,
}
use titan_share.Session.State.{Env, Event, pushes, World, Ends}
use titan_share.Session.Push.{base_name, push_file}
use titan_share.Session.Delivery.{streamed, SocketProgress, pushed_path}
use titan_share.Session.Delivery.Complete.{Delivered, push_file-Delivered}

base_name_whole : (s : Bytes) → contains s b'/' ≡ false → contains s b'\\' ≡ false → base_name s ≡ s
unfolding base_name contains
base_name_whole [] h k = refl
base_name_whole (c ∷ cs) h k = ground arith

-- What stands behind the last place of a byte.
abbrev behind : Bytes → Option ℕ → Bytes
behind s none = s
behind s (some i) = drop (suc i) s

behind_step :
    (x c : ℕ) (xs : Bytes) (o : Option ℕ)
    → contains (behind xs o) c ≡ false
    → contains
        (behind
          (x ∷ xs)
          (elim o [ some i ↦ some (suc i) | none ↦ if x == c then some 0 else none ]))
        c
      ≡ false
unfolding contains
behind_step x c xs none h = ground arith
behind_step x c xs (some i) h = h

behind-rfind : (s : Bytes) (c : ℕ) → contains (behind s (rfind s c)) c ≡ false
unfolding rfind contains
behind-rfind [] c = refl
behind-rfind (x ∷ xs) c = behind_step x c xs (rfind xs c) (behind-rfind xs c)

file_name-behind : (path : Bytes) → file_name path ≡ behind path (rfind path b'/')
unfolding file_name substr_from
file_name-behind path = elim (Option-cases (rfind path b'/')) [
  | inl e ↦ rw (e, file_name)
  | inr (i, e) ↦ rw (e, file_name)
]

file_name-no_slash : (path : Bytes) → contains (file_name path) b'/' ≡ false
file_name-no_slash path =
    subst (λ n. contains n b'/' ≡ false) (sym (file_name-behind path)) (behind-rfind path b'/')

-- The daemon of a user who is not root offers the folder in which that user's window drops.
pushed_path-dest_dir :
    (env : Env) (uid : ℕ) (home name : Bytes)
    → (uid == 0) ≡ false
    → is_empty home ≡ false
    → env.data_dir ≡ get_data_dir uid (some home)
    → base_name name ≡ name
    → pushed_path env name ≡ dest_dir home ++ name
unfolding get_data_dir send_to_android_dir dest_dir
pushed_path-dest_dir env uid home name u h d b =
    let below = codes "/.local/share/titanshare" in
    let folder = codes "/send_to_android" in
    let dir : env.data_dir ≡ home ++ below = d ∙ rw u in
    let dropped : dest_dir home ≡ home ++ ((below ++ folder) ++ b'/' ∷ []) = rw h in
    ap (λ k. (k ++ folder) ++ b'/' ∷ base_name name) dir
    ∙ ap (λ n. ((home ++ below) ++ folder) ++ b'/' ∷ n) b
    ∙ ap (λ k. k ++ b'/' ∷ name) (append_assoc home below folder)
    ∙ append_assoc home (below ++ folder) (b'/' ∷ name)
    ∙ sym (append_assoc home ((below ++ folder) ++ b'/' ∷ []) name)
    ∙ ap (λ k. k ++ name) (sym dropped)

-- The daemon finds the files of a disk, with their sizes and contents, at some point of its course.
abbrev pub Offers : Env → List Event → Assoc Bytes → Type 0
Offers env t disk =
    (path bytes : Bytes)
    → lookup path disk ≡ some bytes
    → (env.is_file t path ≡ some true)
      × (env.file_size t path ≡ some (length bytes))
      × (env.content t path ≡ some bytes)

-- A file that is not empty, whose name has no backslash and that does not come from the drop folder
-- itself, is dropped on the window of a user who is not root and has a home; the file system lets it
-- be copied. A daemon of that user that finds the disk as it is then, and whose socket makes
-- progress, pushes the file under its name: the push ends or raises, and if it ends, all bytes of
-- the dropped file are on the socket in order, or those before some missing ones are and the failure
-- is published last.
pub dropped_file-Delivered :
    (allowed : Allowed) (env : Env) (uid : ℕ) (home src bytes : Bytes) (disk : Assoc Bytes)
    (w : World)
    → SocketProgress env
    → (uid == 0) ≡ false
    → is_empty home ≡ false
    → env.data_dir ≡ get_data_dir uid (some home)
    → lookup src disk ≡ some bytes
    → 0 < length bytes
    → contains (file_name src) b'\\' ≡ false
    → eqb (dest_dir home ++ file_name src) src ≡ false
    → allowed.removes (dest_dir home ++ file_name src) ≡ true
    → allowed.copies src (dest_dir home ++ file_name src) ≡ true
    → Offers env
        (pushes (file_name src) ∷ w.trace)
        (handle_dropped_files allowed home (local_file src ∷ []) disk)
    → Ends (Delivered (streamed w.trace ++ bytes)) (push_file env (file_name src) w)
unfolding handle_dropped_files drop_urls
dropped_file-Delivered allowed env uid home src bytes disk w p u h d there size k ne r c offers =
    let name = file_name src in
    let whole = base_name_whole name (file_name-no_slash src) k in
    let path = pushed_path-dest_dir env uid home name u h d whole in
    let dropped : lookup (dest_dir home ++ name)
          (drop_url allowed (dest_dir home) (local_file src) disk)
        ≡ some bytes =
      drop_url_lem allowed (dest_dir home) src disk bytes there r c ∙ rw ne in
    let (is_there, size_is, content_is) = offers (dest_dir home ++ name) bytes dropped in
    push_file-Delivered env name bytes w p (rw path is_there) (rw path size_is) (rw path content_is)
      size
