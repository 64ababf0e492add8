-- ===== src/Gui/Ipc.antt =====
-- `getIpcFilePath` and `readPin`. The file system is a parameter, and so is Qt's JSON reader, which
-- turns the text `T` of a file into an object, an empty one where the text does not parse; `D` is
-- `double`.
use titan_share.Prelude.{
  Bool, not, if◌then◌else◌, Option, none, some, List, [], ◌∷◌, ◌++◌, Bytes, codes, is_empty, ℤ,
  negsuc, leb_ℤ, Assoc, lookup,
}

-- `QJsonValue`; `other` stands for null, arrays and objects.
pub data Json (D : Type 0) : Type 0 where
  text : Bytes → Json D
  flag : Bool → Json D
  number : D → Json D
  other : Json D

-- A path's time of modification, `none` where nothing is there, and its text where it opens.
pub record Disk (T : Type 0) : Type 0 where
  pub modified : Bytes → Option ℤ
  pub opened : Bytes → Option T

-- `qgetenv`: an unset variable reads as empty.
pub record Environment : Type 0 where
  pub xdg_run : Bytes
  pub home : Bytes

abbrev pub or_nothing : Bool → Bytes → List Bytes
or_nothing empty path = if empty then [] else path ∷ []

-- The places where a daemon may have written, in the order of the source.
unfoldable pub candidates : Environment → Bytes → List Bytes
candidates e filename =
    (codes "/run/titanshare/" ++ filename)
    ∷ (or_nothing (is_empty e.xdg_run) (e.xdg_run ++ (codes "/titanshare/" ++ filename))
        ++ (or_nothing (is_empty e.home) (e.home ++ (codes "/.local/share/titanshare/" ++ filename))
            ++ (codes "/tmp/titanshare/" ++ filename) ∷ []))

-- One turn of the loop: the best path so far, and its time.
unfoldable pub better : Option ℤ → Bytes → Bytes × ℤ → Bytes × ℤ
better none p best = best
better (some mt) p best = if leb_ℤ mt best.1 then best else (p, mt)

unfoldable pub newest : (Bytes → Option ℤ) → List Bytes → Bytes × ℤ → Bytes × ℤ
newest modified [] best = best
newest modified (p ∷ ps) best = newest modified ps (better (modified p) p best)

unfoldable pub fallback : Environment → Bytes → Bytes
fallback e filename =
    if not (is_empty e.xdg_run)
    then e.xdg_run ++ (codes "/titanshare/" ++ filename)
    else if not (is_empty e.home)
    then e.home ++ (codes "/.local/share/titanshare/" ++ filename)
    else codes "/run/titanshare/" ++ filename

-- `getIpcFilePath`.
unfoldable pub get_ipc_file_path : (Bytes → Option ℤ) → Environment → Bytes → Bytes
get_ipc_file_path modified e filename =
    let (best, mtime) = newest modified (candidates e filename) ([], negsuc 0) in
    if is_empty best then fallback e filename else best

abbrev pub no_pin : Bytes
no_pin = codes "------"

abbrev pub pin_file : Bytes
pin_file = codes "titanshare-pin.json"

abbrev pub transfer_file : Bytes
transfer_file = codes "transfer.json"

-- `value.toString(standard)`.
abbrev pub to_text : {D : Type 0} → Option (Json D) → Bytes → Bytes
to_text (some (text s)) standard = s
to_text _ standard = standard

module _ {D T : Type 0} where
  -- `readPin`: the PIN, and the host, which an unreadable file leaves empty.
  unfoldable pub read_pin : (T → Assoc (Json D)) → Disk T → Environment → Bytes × Bytes
  read_pin parse disk e = elim (disk.opened (get_ipc_file_path disk.modified e pin_file)) [
    | none ↦ (no_pin, [])
    | some content ↦ (
      to_text (lookup (codes "pin") (parse content)) no_pin,
      to_text (lookup (codes "host") (parse content)) (codes "Linux PC"),
    )
  ]
