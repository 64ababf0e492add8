-- ===== src/SystemInfo/Memory.antt =====
-- Memory from /proc/meminfo, and the root file system.
use titan_share.Prelude.{
  ◌+◌, ◌-◌, ◌*◌, ◌/◌, ◌%◌, ◌^◌, ltb, if◌then◌else◌, not, none, some, List, [], ◌∷◌, Bytes, codes,
  eqb, substr, substr_from, ℤ, pos, ◌-ℤ◌, leb_ℤ, quot, lines, Extracted, got, fails, ended, extract,
}
use titan_share.SystemInfo.Machine.{Machine, Statvfs, Floats, literal, percent}

-- `memTotal` and `memAvailable`, in kB.
pub record MemFields : Type 0 where
  pub mem_total : ℤ
  pub mem_available : ℤ

-- What a variable holds after `iss >> variable`.
unfoldable pub stored : Extracted → ℤ → ℤ
stored (got v rest) old = v
stored (fails v) old = v
stored ended old = old

-- One line of the file.
unfoldable pub read_line : Bytes → MemFields → MemFields
unfolding stored
read_line line f =
    if eqb (substr line 0 9) (codes "MemTotal:")
    then record f { mem_total = stored (extract (substr_from line 9)) f.mem_total }
    else if eqb (substr line 0 13) (codes "MemAvailable:")
    then record f { mem_available = stored (extract (substr_from line 13)) f.mem_available }
    else f

unfoldable pub read_lines : List Bytes → MemFields → MemFields
read_lines [] f = f
read_lines (line ∷ rest) f = read_lines rest (read_line line f)

abbrev pub no_fields : MemFields
no_fields = record { mem_total = pos 0; mem_available = pos 0 }

module _ (fl : Floats) where
  -- What `getMemoryInfo` (in MB) and `getStorageInfo` (in GB) fill in.
  pub record Amount : Type 0 where
    pub usage_percent : fl.Double
    pub used : ℤ
    pub total : ℤ

  abbrev nothing : Amount
  nothing = record { usage_percent = literal fl 0; used = pos 0; total = pos 0 }

  unfoldable pub memory_of : MemFields → Amount
  memory_of f =
      let used_kb = f.mem_total -ℤ f.mem_available in
      record {
        usage_percent =
            if not (leb_ℤ f.mem_total (pos 0))
            then percent fl used_kb f.mem_total
            else literal fl 0;
        used = quot used_kb 1024;
        total = quot f.mem_total 1024;
      }

  -- `getMemoryInfo`.
  unfoldable pub get_memory_info : Machine → Amount
  get_memory_info m = elim (m.read_file (codes "/proc/meminfo")) [
    | none ↦ nothing
    | some content ↦ memory_of (read_lines (lines content) no_fields)
  ]

  -- The amounts in bytes, of 64 bits without a sign.
  unfoldable pub storage_of : Statvfs → Amount
  storage_of st =
      let total_bytes = (st.f_blocks * st.f_frsize) % 2 ^ 64 in
      let free_bytes = (st.f_bfree * st.f_frsize) % 2 ^ 64 in
      let used_bytes = (total_bytes + (2 ^ 64 - free_bytes)) % 2 ^ 64 in
      record {
        usage_percent =
            if ltb 0 total_bytes
            then percent fl (pos used_bytes) (pos total_bytes)
            else literal fl 0;
        used = pos (used_bytes / (1024 * 1024 * 1024));
        total = pos (total_bytes / (1024 * 1024 * 1024));
      }

  -- `getStorageInfo`.
  unfoldable pub get_storage_info : Machine → Amount
  get_storage_info m = elim m.statvfs [ none ↦ nothing | some st ↦ storage_of st ]
