-- ===== src/SystemInfo/Machine.antt =====
-- What `SystemInfo` reads from: the files by their paths, the directories, the file system and the
-- kernel's name, and the floating-point numbers of the processor; and `readSysFile`.
use titan_share.Prelude.{
  ℕ, ◌==◌, ◌||◌, Bool, Option, none, some, List, [], Bytes, ℤ, pos, first_line, trim_back, eqb,
  substr, length,
}

pub record Statvfs : Type 0 where
  pub f_blocks : ℕ
  pub f_bfree : ℕ
  pub f_frsize : ℕ

pub record Machine : Type 0 where
  -- The bytes of a file; `none` where it cannot be opened.
  pub read_file : Bytes → Option Bytes
  -- The names in a directory, in the order of the iteration; `none` where it throws.
  pub list_dir : Bytes → Option (List Bytes)
  -- `statvfs("/")`, `none` where it fails, and `uname` with the system's name and the release.
  pub statvfs : Option Statvfs
  pub uname : Option (Bytes × Bytes)

-- `double`: conversion, the operations, printing with a number of decimals behind the point, and
-- `std::stod`, `none` where it throws.
pub record Floats : Type 1 where
  pub Double : Type 0
  pub of_int : ℤ → Double
  pub add : Double → Double → Double
  pub mul : Double → Double → Double
  pub div : Double → Double → Double
  pub fixed : ℕ → Double → Bytes
  pub stod : Bytes → Option Double

abbrev trailing : ℕ → Bool
trailing c = c == b'\n' || c == b'\r' || c == b' '

trimmed : Option Bytes → Bytes
trimmed none = []
trimmed (some content) = trim_back trailing (first_line content)

-- `readSysFile`.
unfoldable pub read_sys_file : Machine → Bytes → Bytes
unfolding trimmed
read_sys_file m path = trimmed (m.read_file path)

-- `s.find(word) == 0`.
abbrev pub begins : Bytes → Bytes → Bool
begins s word = eqb (substr s 0 (length word)) word

module _ (fl : Floats) where
  abbrev pub literal : ℕ → fl.Double
  literal n = fl.of_int (pos n)

  -- `(static_cast<double>(part) / static_cast<double>(whole)) * 100.0`.
  unfoldable pub percent : ℤ → ℤ → fl.Double
  percent part whole = fl.mul (fl.div (fl.of_int part) (fl.of_int whole)) (literal 100)
