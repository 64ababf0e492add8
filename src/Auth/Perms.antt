-- ===== src/Auth/Perms.antt =====
-- Who may read the two files that hold the PIN: `secureDir` of src/main.cpp, then `persistSession`
-- and `setStrictFilePerms`, step by step. A directory or file that is made new is open to other
-- users, as the usual umask leaves it, until `chmod`; one that was there keeps its mode.
use titan_share.Auth.Persist.{Opening, raises, refuses, opens}
use titan_share.Prelude.{Bool, true, false, ◌&&◌, if◌then◌else◌, List, [], ◌∷◌, ◌++◌, Bytes, eqb}

pub data PinFile : Type 0 where
  session_file pin_ipc : PinFile

-- The directories that the two files stand in.
pub record Dirs : Type 0 where
  pub data_dir : Bytes
  pub ipc_dir : Bytes

abbrev pub dir_of : Dirs → PinFile → Bytes
dir_of ds session_file = ds.data_dir
dir_of ds pin_ipc = ds.ipc_dir

pub data DiskStep : Type 0 where
  -- `create_directories`, and `chmod` of a directory, with whether it succeeds.
  makes_dir : Bytes → DiskStep
  restricts_dir : Bytes → Bool → DiskStep
  -- The stream is opened, which empties the file; the text with the PIN is written and the stream
  -- closed; and `chmod`, with whether it succeeds.
  opens_file : PinFile → DiskStep
  writes_pin : PinFile → DiskStep
  restricts : PinFile → Bool → DiskStep

-- Whether a file is there, whether its mode lets others read it, and whether it holds a PIN.
pub record FileState : Type 0 where
  pub there : Bool
  pub others_read : Bool
  pub has_pin : Bool

-- Which directories are there, which others may enter, and the two files.
pub record Disk : Type 0 where
  pub dir_there : Bytes → Bool
  pub others_enter : Bytes → Bool
  pub session : FileState
  pub ipc : FileState

abbrev pub file_of : Disk → PinFile → FileState
file_of k session_file = k.session
file_of k pin_ipc = k.ipc

set_file : Disk → PinFile → FileState → Disk
set_file k session_file f = record k { session = f }
set_file k pin_ipc f = record k { ipc = f }

unfoldable pub disk_step : DiskStep → Disk → Disk
unfolding set_file
disk_step (makes_dir dir) k = record k {
  dir_there = λ d. if eqb d dir then true else k.dir_there d;
  others_enter = λ d.
      if eqb d dir then (if k.dir_there d then k.others_enter d else true) else k.others_enter d;
}
disk_step (restricts_dir dir done) k = record k {
  others_enter = λ d. if done && eqb d dir then false else k.others_enter d;
}
disk_step (opens_file p) k =
    let f = file_of k p in
    set_file k p (record {
      there = true;
      others_read = if f.there then f.others_read else true;
      has_pin = false;
    })
disk_step (writes_pin p) k = let f = file_of k p in set_file k p (record f { has_pin = true })
disk_step (restricts p done) k =
    let f = file_of k p in
    set_file k p (record f { others_read = if done then false else f.others_read })

unfoldable pub disk_steps : List DiskStep → Disk → Disk
disk_steps [] k = k
disk_steps (s ∷ ss) k = disk_steps ss (disk_step s k)

-- What `secureDir` does to the directories of the daemon in turn, with whether `create_directories`
-- returns and whether `chmod` succeeds: an exception ends it for all that follow.
unfoldable pub secure_dir_steps : (Bytes → Bool) → (Bytes → Bool) → List Bytes → List DiskStep
secure_dir_steps made done [] = []
secure_dir_steps made done (dir ∷ dirs) =
    let rest = secure_dir_steps made done dirs in
    if made dir then makes_dir dir ∷ restricts_dir dir (done dir) ∷ rest else []

-- `setStrictFilePerms`: a failed `chmod` is only logged.
unfoldable pub set_strict_file_perms : PinFile → Bool → List DiskStep
set_strict_file_perms p done = restricts p done ∷ []

-- One of the two files; a stream that does not open is passed over.
unfoldable pub write_file_steps : Dirs → PinFile → Opening → Bool → List DiskStep
unfolding set_strict_file_perms
write_file_steps ds p raises done = []
write_file_steps ds p refuses done = makes_dir (dir_of ds p) ∷ []
write_file_steps ds p opens done =
    makes_dir (dir_of ds p) ∷ opens_file p ∷ writes_pin p ∷ set_strict_file_perms p done

-- What one `persistSession` meets: what becomes of each file, and whether `chmod` succeeds on it.
pub record Persisting : Type 0 where
  pub session_opening : Opening
  pub ipc_opening : Opening
  pub chmods : PinFile → Bool

persist_steps_by : Dirs → Opening → Persisting → List DiskStep
persist_steps_by ds raises r = []
persist_steps_by ds o r =
    write_file_steps ds session_file o (r.chmods session_file)
    ++ write_file_steps ds pin_ipc r.ipc_opening (r.chmods pin_ipc)

unfoldable pub persist_steps : Dirs → Persisting → List DiskStep
unfolding persist_steps_by
persist_steps ds r = persist_steps_by ds r.session_opening r

unfoldable pub persist_all_steps : Dirs → List Persisting → List DiskStep
persist_all_steps ds [] = []
persist_all_steps ds (r ∷ rs) = persist_steps ds r ++ persist_all_steps ds rs
