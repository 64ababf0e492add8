-- ===== src/SystemInfo/Usage.antt =====
-- The load that is computed from two readings of /proc/stat.
use titan_share.Prelude.{
  ℕ, ◌-◌, ◌≤◌, ◌<◌, ◌≡◌, refl, sym, ap, ◌∙◌, ◌⊎◌, some, List, [], ◌∷◌, ◌++◌, map, append-nil, Bytes,
  if◌then◌else◌, length, length-map, pos, -ℤ-pos, leb, Bool, ==_iff, leb_ℤ, is_zero, lines,
  first_line, lines-append, first_line-append, codes, contains, false, printed-no_newline, arith,
}
use titan_share.SystemInfo.Machine.{Machine, Floats, literal, percent}
use titan_share.SystemInfo.Cpu.{
  SystemInfo, proc_stat, values_of, aggregate, read_cpu_times, core_lines, read_all_core_times,
  init, get_cpu_usage, core_usage, core_usages, get_per_core_cpu_usage,
}
use titan_share.SystemInfo.StatFile.{
  Counters, fields, busy, spent, times, aggregate_line, core_file, stat_file, Fits, AllFit,
  Fits-AllLong, AllFit-AllLongs, values-aggregate_line, aggregate-fields, core_lines-aggregate_line,
  core_lines-intr, core_lines-core_file,
}

aggregate_line-no_newline : (c : Counters) → contains (aggregate_line c) b'\n' ≡ false
unfolding aggregate_line contains
aggregate_line-no_newline c = printed-no_newline (fields c)

read_cpu_times_open :
    (m : Machine) (content : Bytes)
    → m.read_file proc_stat ≡ some content
    → read_cpu_times m ≡ aggregate (values_of (first_line content))
unfolding read_cpu_times
read_cpu_times_open m content e = rw (e, read_cpu_times)

read_all_core_times_open :
    (m : Machine) (content : Bytes)
    → m.read_file proc_stat ≡ some content
    → read_all_core_times m ≡ core_lines (lines content)
unfolding read_all_core_times
read_all_core_times_open m content e = rw (e, read_all_core_times)

-- A machine whose /proc/stat the kernel printed from these counters.
pub record Shows (m : Machine) (all : Counters) (cores : List Counters) : Type 0 where
  pub rest : Bytes
  pub printed_file : m.read_file proc_stat ≡ some (stat_file all cores rest)
  pub fits_all : Fits all
  pub fits_cores : AllFit cores

pub read_cpu_times-Shows :
    (m : Machine) (all : Counters) (cores : List Counters)
    → Shows m all cores
    → read_cpu_times m ≡ times all
unfolding stat_file
read_cpu_times-Shows m all cores s =
    read_cpu_times_open m (stat_file all cores s.rest) s.printed_file
    ∙ ap (λ l. aggregate (values_of l))
        (first_line-append (aggregate_line all) (core_file 0 cores (codes "intr" ++ s.rest))
          (aggregate_line-no_newline all))
    ∙ ap aggregate (values-aggregate_line all (Fits-AllLong all s.fits_all))
    ∙ aggregate-fields all

pub read_all_core_times-Shows :
    (m : Machine) (all : Counters) (cores : List Counters)
    → Shows m all cores
    → read_all_core_times m ≡ map times cores
unfolding stat_file
read_all_core_times-Shows m all cores s =
    read_all_core_times_open m (stat_file all cores s.rest) s.printed_file
    ∙ ap core_lines (
        lines-append (aggregate_line all) (core_file 0 cores (codes "intr" ++ s.rest))
          (aggregate_line-no_newline all))
    ∙ core_lines-aggregate_line all (lines (core_file 0 cores (codes "intr" ++ s.rest)))
    ∙ core_lines-core_file 0 cores (codes "intr" ++ s.rest) (AllFit-AllLongs cores s.fits_cores)
    ∙ ap (λ ts. map times cores ++ ts) (core_lines-intr s.rest)
    ∙ append-nil (map times cores)

-- Counters of the kernel only grow.
pub record HasGrown (a b : Counters) : Type 0 where
  pub user : a.user ≤ b.user
  pub nice : a.nice ≤ b.nice
  pub system : a.system ≤ b.system
  pub idle : a.idle ≤ b.idle
  pub iowait : a.iowait ≤ b.iowait
  pub irq : a.irq ≤ b.irq
  pub softirq : a.softirq ≤ b.softirq
  pub steal : a.steal ≤ b.steal

abbrev pub HaveGrown : List Counters → List Counters → Type 0
HaveGrown [] [] = Unit
HaveGrown (a ∷ old) (b ∷ new) = HasGrown a b × HaveGrown old new
HaveGrown _ _ = ⊥

-- A hundred times the quotient of two numbers, in the arithmetic of the machine.
abbrev pub hundredfold : (fl : Floats) → ℕ → ℕ → fl.Double
hundredfold fl part whole =
    fl.mul (fl.div (fl.of_int (pos part)) (fl.of_int (pos whole))) (fl.of_int (pos 100))

-- Zero where no time was counted, and otherwise a hundred times the quotient of the busy time and
-- the time that was counted.
abbrev pub IsShare : (fl : Floats) → Counters → Counters → fl.Double → Type 0
IsShare fl a b d =
    ((spent b ≡ spent a) × (d ≡ fl.of_int (pos 0)))
    ⊎ ((spent a < spent b)
        × (busy b - busy a ≤ spent b - spent a)
        × (d ≡ hundredfold fl (busy b - busy a) (spent b - spent a)))

abbrev pub AreShares : (fl : Floats) → List Counters → List Counters → List fl.Double → Type 0
AreShares fl [] [] [] = Unit
AreShares fl (a ∷ old) (b ∷ new) (d ∷ ds) = IsShare fl a b d × AreShares fl old new ds
AreShares fl _ _ _ = ⊥

spent_grows : (a b : Counters) → HasGrown a b → spent a ≤ spent b
spent_grows a b g =
    omega (arith, g.user, g.nice, g.system, g.idle, g.iowait, g.irq, g.softirq, g.steal)

busy_grows : (a b : Counters) → HasGrown a b → busy a ≤ busy b
busy_grows a b g = omega (arith, g.user, g.nice, g.system, g.irq, g.softirq, g.steal)

-- The two tests that the source has for a total that did not grow give the same here.
difference_IsShare :
    (fl : Floats) (a b : Counters) (no_time : Bool)
    → HasGrown a b
    → no_time ≡ leb (spent b - spent a) 0
    → IsShare fl a b (
        if no_time
        then literal fl 0
        else percent fl (pos (busy b - busy a)) (pos (spent b - spent a)))
unfolding percent
difference_IsShare fl a b no_time g e =
    ground (arith, g.user, g.nice, g.system, g.idle, g.iowait, g.irq, g.softirq, g.steal)

core_usage-IsShare :
    (fl : Floats) (a b : Counters)
    → HasGrown a b
    → IsShare fl a b (core_usage fl (times b) (times a))
unfolding core_usage
core_usage-IsShare fl a b g =
    rw (-ℤ-pos (spent b) (spent a) (spent_grows a b g), -ℤ-pos (busy b) (busy a) (busy_grows a b g))
      (difference_IsShare fl a b (leb_ℤ (pos (spent b - spent a)) (pos 0)) g (ground arith))

core_usages-AreShares :
    (fl : Floats) (old new : List Counters)
    → HaveGrown old new
    → AreShares fl old new (core_usages fl (map times new) (map times old))
unfolding core_usages
core_usages-AreShares fl [] [] g = tt
core_usages-AreShares fl [] (b ∷ new) g = absurd g
core_usages-AreShares fl (a ∷ old) [] g = absurd g
core_usages-AreShares fl (a ∷ old) (b ∷ new) (g, gs) =
    (core_usage-IsShare fl a b g, core_usages-AreShares fl old new gs)

length-HaveGrown : (old new : List Counters) → HaveGrown old new → length old ≡ length new
length-HaveGrown [] [] g = refl
length-HaveGrown [] (b ∷ new) g = absurd g
length-HaveGrown (a ∷ old) [] g = absurd g
length-HaveGrown (a ∷ old) (b ∷ new) (g, gs) = omega (arith, length-HaveGrown old new gs)

cpu_usage-IsShare :
    (fl : Floats) (m : Machine) (s : SystemInfo) (a b : Counters)
    → read_cpu_times m ≡ times b
    → s.prev_cpu ≡ times a
    → HasGrown a b
    → IsShare fl a b (get_cpu_usage fl m s).0
unfolding get_cpu_usage
cpu_usage-IsShare fl m s a b e p g =
    rw
      (
        e,
        p,
        -ℤ-pos (spent b) (spent a) (spent_grows a b g),
        -ℤ-pos (busy b) (busy a) (busy_grows a b g),
      )
      (difference_IsShare fl a b (is_zero (pos (spent b - spent a))) g (ground arith))

per_core-AreShares :
    (fl : Floats) (m : Machine) (s : SystemInfo) (old new : List Counters)
    → read_all_core_times m ≡ map times new
    → s.prev_core_cpu ≡ map times old
    → HaveGrown old new
    → AreShares fl old new (get_per_core_cpu_usage fl m s).0
unfolding get_per_core_cpu_usage
per_core-AreShares fl m s old new e p g =
    rw (e, p, (==_iff (length (map times old)) (length (map times new))).1 (same_length old new g))
      (core_usages-AreShares fl old new g)
  where
    same_length :
        (old new : List Counters)
        → HaveGrown old new
        → length (map times old) ≡ length (map times new)
    same_length old new g =
        length-map old times ∙ length-HaveGrown old new g ∙ sym (length-map new times)

-- Let the kernel print /proc/stat twice, with counters of which none has gone down and that
-- fit `long` together for each line, for the same number of cores. Then the load that is reported at
-- the second time, in all and for each core in its order, is zero where no time was counted between the two, and otherwise a
-- hundred times the quotient, in the arithmetic of the machine, of the busy time and the time
-- counted, of which it is a part.
pub usage-AreShares :
    (fl : Floats) (m1 m2 : Machine) (all_old all_new : Counters) (old new : List Counters)
    → Shows m1 all_old old
    → Shows m2 all_new new
    → HasGrown all_old all_new
    → HaveGrown old new
    → IsShare fl all_old all_new (get_cpu_usage fl m2 (init m1)).0
      × AreShares fl old new (get_per_core_cpu_usage fl m2 (init m1)).0
unfolding init
usage-AreShares fl m1 m2 all_old all_new old new s1 s2 g gs = (
  cpu_usage-IsShare fl m2 (init m1) all_old all_new (read_cpu_times-Shows m2 all_new new s2)
      (read_cpu_times-Shows m1 all_old old s1) g,
  per_core-AreShares fl m2 (init m1) old new (read_all_core_times-Shows m2 all_new new s2)
      (read_all_core_times-Shows m1 all_old old s1) gs,
)
