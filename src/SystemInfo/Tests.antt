-- ===== src/SystemInfo/Tests.antt =====
-- A machine with two cores at two times, with fractions for the floating-point numbers, and the
-- theorems on them.
use titan_share.Prelude.{
  ℕ, ◌+◌, ◌*◌, ◌/◌, ◌^◌, ◌≡◌, refl, if◌then◌else◌, none, some, [], ◌∷◌, codes, eqb, substr, lines,
  ◌≤◌, to_string, pos, pos_part, Bytes, first_line, arith,
}
use titan_share.SystemInfo.Machine.{Machine, Floats}
use titan_share.SystemInfo.Cpu.{init, get_cpu_usage, get_per_core_cpu_usage}
use titan_share.SystemInfo.Memory.{get_memory_info}
use titan_share.SystemInfo.StatFile.{Counters, stat_file}
use titan_share.SystemInfo.Usage.{Shows, HasGrown, IsShare, AreShares, usage-AreShares}
use titan_share.SystemInfo.Amounts.{mem_file, get_memory_info-mem_file}

abbrev fractions : Floats
fractions = record {
  Double = ℕ × ℕ;
  of_int = λ z. (pos_part z, 1);
  add = λ x y. (x.0 * y.1 + y.0 * x.1, x.1 * y.1);
  mul = λ x y. (x.0 * y.0, x.1 * y.1);
  div = λ x y. (x.0 * y.1, x.1 * y.0);
  fixed = λ k x. to_string (x.0 * 10 ^ k / x.1);
  stod = λ s. none;
}

-- Counters with this user and idle time.
abbrev counters : ℕ → ℕ → Counters
counters u i = record {
  user = u;
  nice = 0;
  system = 0;
  idle = i;
  iowait = 0;
  irq = 0;
  softirq = 0;
  steal = 0;
  guest = 0;
  guest_nice = 0;
}

-- The two cores have counted `u` and no user time, and `i` idle time each.
abbrev machine : ℕ → ℕ → Machine
machine u i = record {
  read_file = λ path.
      if eqb path (codes "/proc/stat")
      then some (stat_file (counters u (i + i)) (counters u i ∷ counters 0 i ∷ []) (codes " 7\n"))
      else if eqb path (codes "/proc/meminfo")
      then some (mem_file 16384 2048 4096 (codes "Buffers:              12 kB\n"))
      else none;
  list_dir = λ path. none;
  statvfs = none;
  uname = none;
}

counters-HasGrown : (u v i j : ℕ) → u ≤ v → i ≤ j → HasGrown (counters u i) (counters v j)
counters-HasGrown u v i j h k = record {
  user = h;
  nice = omega arith;
  system = omega arith;
  idle = k;
  iowait = omega arith;
  irq = omega arith;
  softirq = omega arith;
  steal = omega arith;
}

machine-Shows :
    (u i : ℕ)
    → u ≤ 1000
    → i ≤ 1000
    → Shows (machine u i) (counters u (i + i)) (counters u i ∷ counters 0 i ∷ [])
unfolding eqb
machine-Shows u i h k = record {
  rest = codes " 7\n";
  printed_file = refl;
  fits_all = omega arith;
  fits_cores = (omega arith, (omega arith, tt));
}

usage-AreShares_example :
    IsShare fractions
      (counters 10 20)
      (counters 15 24)
      (get_cpu_usage fractions (machine 15 12) (init (machine 10 10))).0
    × AreShares fractions
        (counters 10 10 ∷ counters 0 10 ∷ [])
        (counters 15 12 ∷ counters 0 12 ∷ [])
        (get_per_core_cpu_usage fractions (machine 15 12) (init (machine 10 10))).0
usage-AreShares_example =
    usage-AreShares fractions (machine 10 10) (machine 15 12) (counters 10 20) (counters 15 24)
      (counters 10 10 ∷ counters 0 10 ∷ []) (counters 15 12 ∷ counters 0 12 ∷ [])
      (machine-Shows 10 10 (omega arith) (omega arith))
      (machine-Shows 15 12 (omega arith) (omega arith))
      (counters-HasGrown 10 15 20 24 (omega arith) (omega arith))
      (
        counters-HasGrown 10 15 10 12 (omega arith) (omega arith),
        (counters-HasGrown 0 0 10 12 (omega arith) (omega arith), tt),
      )

-- The first line as a kernel of 16 MB prints it.
abbrev total_line : Bytes
total_line = codes "MemTotal:          16384 kB"

mem_file_total : first_line (mem_file 16384 2048 4096 []) ≡ total_line
unfolding first_line to_string
mem_file_total = refl

get_memory_info-mem_file_example :
    get_memory_info fractions (machine 10 10)
    ≡ record { usage_percent = (1228800, 16384); used = pos 12; total = pos 16 }
unfolding eqb lines substr
get_memory_info-mem_file_example =
    get_memory_info-mem_file fractions (machine 10 10) 16384 2048 4096
      (codes "Buffers:              12 kB\n") refl (omega arith) (omega arith) (omega arith) refl
