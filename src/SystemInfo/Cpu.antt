-- ===== src/SystemInfo/Cpu.antt =====
-- The CPU's load, in all and by core, its frequency and the number of cores.
use titan_share.Prelude.{
  ℕ, zero, suc, ◌+◌, ◌==◌, Bool, false, not, ◌||◌, ltb, if◌then◌else◌, Option, none, some, List, [],
  ◌∷◌, ◌++◌, map, Bytes, codes, eqb, substr, length, get_elem?, is_empty, is_space, is_digit,
  trim_front, ℤ, pos, ◌+ℤ◌, ◌-ℤ◌, is_zero, leb_ℤ, lines, first_line, skip_word, extract_up_to,
}
use titan_share.SystemInfo.Machine.{Machine, Floats, read_sys_file, literal, percent}

pub record CpuTimes : Type 0 where
  pub work : ℤ
  pub total : ℤ

-- The members: the readings that the next ones are compared with.
pub record SystemInfo : Type 0 where
  pub prev_cpu : CpuTimes
  pub prev_core_cpu : List CpuTimes

abbrev pub proc_stat : Bytes
proc_stat = codes "/proc/stat"

abbrev pub no_times : CpuTimes
no_times = record { work = pos 0; total = pos 0 }

-- `values[i]` of an array that starts with zeros.
abbrev pub value_at : List ℤ → ℕ → ℤ
value_at [] i = pos 0
value_at (v ∷ vs) zero = v
value_at (v ∷ vs) (suc i) = value_at vs i

-- The numbers behind the label of a line.
unfoldable pub values_of : Bytes → List ℤ
values_of line = extract_up_to 10 (skip_word (trim_front is_space line))

unfoldable pub work_of : List ℤ → ℤ
work_of v =
    value_at v 0 +ℤ value_at v 1 +ℤ value_at v 2 +ℤ value_at v 5 +ℤ value_at v 6 +ℤ value_at v 7

unfoldable pub aggregate : List ℤ → CpuTimes
aggregate v = record { work = work_of v; total = work_of v +ℤ (value_at v 3 +ℤ value_at v 4) }

-- `readCpuTimes`. The sums are integers, without the overflow of 64 bits.
unfoldable pub read_cpu_times : Machine → CpuTimes
read_cpu_times m = elim (m.read_file proc_stat) [
  | none ↦ no_times
  | some content ↦ aggregate (values_of (first_line content))
]

unfoldable pub core_times : List ℤ → CpuTimes
core_times v = record { work = work_of v; total = work_of v +ℤ value_at v 3 +ℤ value_at v 4 }

-- `std::isdigit(s[3])` of a longer text.
unfoldable pub digit_at_3 : Bytes → Bool
digit_at_3 s = elim (get_elem? s 3) [ none ↦ false | some c ↦ is_digit c ]

-- Shorter than four bytes, or without "cpu" in front.
unfoldable pub not_cpu : Bytes → Bool
not_cpu s = ltb (length s) 4 || not (eqb (substr s 0 3) (codes "cpu"))

-- The lines up to the first that is no cpu line; the aggregate line is passed over.
unfoldable pub core_lines : List Bytes → List CpuTimes
core_lines [] = []
core_lines (line ∷ rest) =
    let cores = core_lines rest in
    if not_cpu line
    then []
    else if digit_at_3 line
    then core_times (values_of line) ∷ cores
    else cores

-- `readAllCoreTimes`.
unfoldable pub read_all_core_times : Machine → List CpuTimes
read_all_core_times m = elim (m.read_file proc_stat) [
  | none ↦ []
  | some content ↦ core_lines (lines content)
]

-- The constructor.
unfoldable pub init : Machine → SystemInfo
init m = record { prev_cpu = read_cpu_times m; prev_core_cpu = read_all_core_times m }

-- The names that start with "cpu" and a digit.
unfoldable pub is_cpu_entry : Bytes → Bool
is_cpu_entry name = if not_cpu name then false else digit_at_3 name

unfoldable pub count_if : (Bytes → Bool) → List Bytes → ℕ
count_if p [] = 0
count_if p (x ∷ xs) = if p x then suc (count_if p xs) else count_if p xs

abbrev pub cpu_base : Bytes
cpu_base = codes "/sys/devices/system/cpu"

is_processor : Bytes → Bool
is_processor line = eqb (substr line 0 9) (codes "processor")

-- /proc/cpuinfo, where no core was found.
processors : Option Bytes → ℕ
unfolding is_processor
processors none = 0
processors (some content) = count_if is_processor (lines content)

count_cores : Option (List Bytes) → ℕ
count_cores none = 0
count_cores (some names) = count_if is_cpu_entry names

-- `getCpuCoreCount`.
unfoldable pub get_cpu_core_count : Machine → ℕ
unfolding processors count_cores
get_cpu_core_count m =
    let n = count_cores (m.list_dir cpu_base) in
    if n == 0 then processors (m.read_file (codes "/proc/cpuinfo")) else n

module _ (fl : Floats) where
  -- `getCpuUsage`.
  unfoldable pub get_cpu_usage : Machine → SystemInfo → fl.Double × SystemInfo
  get_cpu_usage m s =
      let cur = read_cpu_times m in
      let d_work = cur.work -ℤ s.prev_cpu.work in
      let d_total = cur.total -ℤ s.prev_cpu.total in
      (
        if is_zero d_total then literal fl 0 else percent fl d_work d_total,
        record s { prev_cpu = cur },
      )

  -- The share of one core between two readings.
  unfoldable pub core_usage : CpuTimes → CpuTimes → fl.Double
  core_usage cur prev =
      if leb_ℤ (cur.total -ℤ prev.total) (pos 0)
      then literal fl 0
      else percent fl (cur.work -ℤ prev.work) (cur.total -ℤ prev.total)

  -- The loop, over readings of the same length.
  unfoldable pub core_usages : List CpuTimes → List CpuTimes → List fl.Double
  core_usages (c ∷ cur) (p ∷ prev) = core_usage c p ∷ core_usages cur prev
  core_usages _ _ = []

  -- `getPerCoreCpuUsage`.
  unfoldable pub get_per_core_cpu_usage : Machine → SystemInfo → List fl.Double × SystemInfo
  get_per_core_cpu_usage m s =
      let cur = read_all_core_times m in
      (
        if length s.prev_core_cpu == length cur
            then core_usages cur s.prev_core_cpu
            else map (λ _. literal fl 0) cur,
        record s { prev_core_cpu = cur },
      )

  -- The sum of the frequencies, and of how many; an exception of `stod` ends the loop with what was
  -- added so far.
  unfoldable pub sum_freqs : Machine → List Bytes → fl.Double → ℕ → fl.Double × ℕ
  sum_freqs m [] total count = (total, count)
  sum_freqs m (name ∷ names) total count =
      let val =
        read_sys_file m (cpu_base ++ (b'/' ∷ (name ++ codes "/cpufreq/scaling_cur_freq"))) in
      if not (is_cpu_entry name) || is_empty val
      then sum_freqs m names total count
      else elim (fl.stod val) [
        | none ↦ (total, count)
        | some khz ↦ sum_freqs m names (fl.add total khz) (count + 1)
      ]

  freqs : Machine → Option (List Bytes) → fl.Double × ℕ
  freqs m none = (literal fl 0, 0)
  freqs m (some names) = sum_freqs m names (literal fl 0) 0

  -- `getCpuFreqGhz`.
  unfoldable pub get_cpu_freq_ghz : Machine → fl.Double
  unfolding freqs
  get_cpu_freq_ghz m =
      let (total, count) = freqs m (m.list_dir cpu_base) in
      if count == 0
      then literal fl 0
      else fl.div (fl.div total (literal fl count)) (literal fl 1000000)
