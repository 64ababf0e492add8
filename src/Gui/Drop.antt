-- ===== src/Gui/Drop.antt =====
-- `handleDroppedFiles`. The disk is a map from paths to the contents of regular files; whether the
-- file system lets a file be removed or copied is a parameter.
use titan_share.Prelude.{
  ◌≡◌, ap, ◌∙◌, Bool-cases, inl, inr, Bool, true, not, if◌then◌else◌, Option, none, some, List, [],
  ◌∷◌, ◌++◌, Bytes, codes, suc, is_empty, eqb, eqb_iff, rfind, substr_from, Assoc, lookup, insert,
  erase, lookup-insert, lookup-erase, arith,
}

pub data Url : Type 0 where
  local_file : Bytes → Url
  remote : Url

-- `QFile::remove` and `QFile::copy` may fail.
pub record Allowed : Type 0 where
  pub removes : Bytes → Bool
  pub copies : Bytes → Bytes → Bool

-- The drop folder, on `qgetenv("HOME")`.
unfoldable pub dest_dir : Bytes → Bytes
dest_dir home =
    if not (is_empty home)
    then home ++ codes "/.local/share/titanshare/send_to_android/"
    else codes "/var/lib/titanshare/send_to_android/"

-- `QFileInfo::fileName`: what stands behind the last slash.
unfoldable pub file_name : Bytes → Bytes
file_name path = elim (rfind path b'/') [ none ↦ path | some i ↦ substr_from path (suc i) ]

module _ {T : Type 0} (allowed : Allowed) where
  unfoldable pub remove : Bytes → Assoc T → Assoc T
  remove path disk = if allowed.removes path then erase path disk else disk

  unless_there : Option T → Bytes → T → Assoc T → Assoc T
  unless_there none dst content disk = insert dst content disk
  unless_there (some old) dst content disk = disk

  -- `QFile::copy` writes over no file.
  unfoldable pub copy : Bytes → Bytes → Assoc T → Assoc T
  unfolding unless_there
  copy src dst disk = elim (lookup src disk) [
    | none ↦ disk
    | some content ↦
        if allowed.copies src dst then unless_there (lookup dst disk) dst content disk else disk
  ]

  -- One dropped item.
  unfoldable pub drop_url : Bytes → Url → Assoc T → Assoc T
  drop_url dest remote disk = disk
  drop_url dest (local_file src) disk = elim (lookup src disk) [
    | none ↦ disk
    | some content ↦ copy src (dest ++ file_name src) (remove (dest ++ file_name src) disk)
  ]

  unfoldable pub drop_urls : Bytes → List Url → Assoc T → Assoc T
  drop_urls dest [] disk = disk
  drop_urls dest (url ∷ urls) disk = drop_urls dest urls (drop_url dest url disk)

  -- `handleDroppedFiles`.
  unfoldable pub handle_dropped_files : Bytes → List Url → Assoc T → Assoc T
  handle_dropped_files home urls disk = drop_urls (dest_dir home) urls disk

  lookup-remove :
      (p q : Bytes) (disk : Assoc T)
      → allowed.removes p ≡ true
      → lookup q (remove p disk) ≡ (if eqb p q then none else lookup q disk)
  unfolding remove
  lookup-remove p q disk h = rw h (lookup-erase p q disk)

  copy_lem :
      (src dst : Bytes) (disk : Assoc T) (c : T)
      → lookup src disk ≡ some c
      → lookup dst disk ≡ none
      → allowed.copies src dst ≡ true
      → copy src dst disk ≡ insert dst c disk
  unfolding copy
  copy_lem src dst disk c h k a = ground arith

  copy-none : (src dst : Bytes) (disk : Assoc T) → lookup src disk ≡ none → copy src dst disk ≡ disk
  unfolding copy
  copy-none src dst disk h = ground arith

  drop_url_open :
      (dest src : Bytes) (disk : Assoc T) (c : T)
      → lookup src disk ≡ some c
      → drop_url dest (local_file src) disk
        ≡ copy src (dest ++ file_name src) (remove (dest ++ file_name src) disk)
  unfolding drop_url
  drop_url_open dest src disk c h = rw (h, drop_url)

  -- Removing and copying, to any other path or to the same.
  copy-remove :
      (src dst : Bytes) (disk : Assoc T) (c : T)
      → lookup src disk ≡ some c
      → allowed.removes dst ≡ true
      → allowed.copies src dst ≡ true
      → lookup dst (copy src dst (remove dst disk)) ≡ (if eqb dst src then none else some c)
  copy-remove src dst disk c h r a = elim (Bool-cases (eqb dst src)) [
    | inl e ↦ ground (
      arith,
      lookup-remove dst src disk r,
      lookup-remove dst dst disk r,
      eqb_iff dst dst,
      copy-none src dst (remove dst disk),
      e,
    )
    | inr e ↦ ground (
      arith,
      lookup-remove dst src disk r,
      lookup-remove dst dst disk r,
      eqb_iff dst dst,
      copy_lem src dst (remove dst disk) c,
      lookup-insert dst dst c (remove dst disk),
      h,
      a,
      e,
    )
  ]

  -- Where the file system lets the file be removed and copied, a dropped file is afterwards in the
  -- drop folder under its name, with its contents, also where another file of that name was there;
  -- but a file that was dropped from the drop folder itself is gone.
  pub drop_url_lem :
      (dest src : Bytes) (disk : Assoc T) (c : T)
      → lookup src disk ≡ some c
      → allowed.removes (dest ++ file_name src) ≡ true
      → allowed.copies src (dest ++ file_name src) ≡ true
      → lookup (dest ++ file_name src) (drop_url dest (local_file src) disk)
        ≡ (if eqb (dest ++ file_name src) src then none else some c)
  drop_url_lem dest src disk c h r a =
      ap (lookup (dest ++ file_name src)) (drop_url_open dest src disk c h)
      ∙ copy-remove src (dest ++ file_name src) disk c h r a
