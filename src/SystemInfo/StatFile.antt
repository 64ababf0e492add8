-- ===== src/SystemInfo/StatFile.antt =====
-- The counters of /proc/stat as the kernel prints them, and what is read from them.
use titan_share.Prelude.{
  ℕ, suc, ◌+◌, ◌≤◌, long_max, ◌≡◌, ◌≢◌, refl, ap, ◌∙◌, true, false, List, [], ◌∷◌, ◌++◌, map, Bytes,
  codes, pos, +ℤ-pos, lines, skip_word, trim_front, contains, contains-append, lines-append,
  skip_word-append, skip_word-printed, all_digits, all_digits-no_space, all_digits_no_newline,
  printed, printed-no_newline, AllLong, extract_up_to, extract_up_to-printed, extract_up_to_space,
  to_string, to_string-all_digits, to_string-ne-nil, arith, cons_first, eqb, substr,
}
use titan_share.SystemInfo.Cpu.{
  CpuTimes, values_of, work_of, aggregate, core_times, digit_at_3, not_cpu, core_lines,
}

-- The ten counters of a line.
pub record Counters : Type 0 where
  pub user : ℕ
  pub nice : ℕ
  pub system : ℕ
  pub idle : ℕ
  pub iowait : ℕ
  pub irq : ℕ
  pub softirq : ℕ
  pub steal : ℕ
  pub guest : ℕ
  pub guest_nice : ℕ

abbrev pub fields : Counters → List ℕ
fields c =
    c.user ∷ c.nice ∷ c.system ∷ c.idle ∷ c.iowait ∷ c.irq ∷ c.softirq ∷ c.steal ∷ c.guest
    ∷ c.guest_nice ∷ []

abbrev pub busy : Counters → ℕ
busy c = c.user + c.nice + c.system + c.irq + c.softirq + c.steal

abbrev pub spent : Counters → ℕ
spent c = busy c + (c.idle + c.iowait)

-- The reading that the counters stand for.
abbrev pub times : Counters → CpuTimes
times c = record { work = pos (busy c); total = pos (spent c) }

-- All counters of a line together fit `long`, so that no sum of them overflows.
abbrev pub Fits : Counters → Type 0
Fits c = spent c + c.guest + c.guest_nice ≤ long_max

unfoldable pub core_line : ℕ → Counters → Bytes
core_line i c = codes "cpu" ++ (to_string i ++ printed (fields c))

unfoldable pub aggregate_line : Counters → Bytes
aggregate_line c = codes "cpu " ++ printed (fields c)

unfoldable pub core_file : ℕ → List Counters → Bytes → Bytes
core_file i [] rest = rest
core_file i (c ∷ cs) rest = core_line i c ++ b'\n' ∷ core_file (suc i) cs rest

-- The aggregate, the cores, and the line of the interrupts with all that follows.
unfoldable pub stat_file : Counters → List Counters → Bytes → Bytes
stat_file all cores rest = aggregate_line all ++ b'\n' ∷ core_file 0 cores (codes "intr" ++ rest)

values-core_line :
    (i : ℕ) (c : Counters) → AllLong (fields c) → values_of (core_line i c) ≡ map pos (fields c)
unfolding values_of core_line trim_front
values-core_line i c h =
    ap (extract_up_to 10) (
      skip_word-append (codes "cpu" ++ to_string i) (printed (fields c))
        (all_digits-no_space (to_string i) (to_string-all_digits i)) (skip_word-printed (fields c)))
    ∙ extract_up_to-printed (fields c) h

pub values-aggregate_line :
    (c : Counters) → AllLong (fields c) → values_of (aggregate_line c) ≡ map pos (fields c)
unfolding values_of aggregate_line trim_front skip_word
values-aggregate_line c h =
    extract_up_to_space 10 (printed (fields c)) ∙ extract_up_to-printed (fields c) h

core_times-fields : (c : Counters) → core_times (map pos (fields c)) ≡ times c
unfolding core_times work_of
core_times-fields c =
    simp +ℤ-pos (ap (λ t. record { work = pos (busy c); total = pos t }) (omega arith))

pub aggregate-fields : (c : Counters) → aggregate (map pos (fields c)) ≡ times c
unfolding aggregate work_of
aggregate-fields c = simp +ℤ-pos

core_line-no_newline : (i : ℕ) (c : Counters) → contains (core_line i c) b'\n' ≡ false
unfolding core_line contains
core_line-no_newline i c = ground (
  arith,
  contains-append (to_string i) (printed (fields c)) b'\n',
  all_digits_no_newline (to_string i) (to_string-all_digits i),
  printed-no_newline (fields c),
)

-- Digits behind "cpu" make a line of a core.
core_lines_label :
    (ds rest : Bytes) (ls : List Bytes)
    → all_digits ds ≡ true
    → ds ≢ []
    → core_lines ((codes "cpu" ++ (ds ++ rest)) ∷ ls)
      ≡ core_times (values_of (codes "cpu" ++ (ds ++ rest))) ∷ core_lines ls
unfolding core_lines not_cpu digit_at_3 eqb substr
core_lines_label [] rest ls h k = absurd (k refl)
core_lines_label (d ∷ ds) rest ls h k = ground arith

core_lines-core_line :
    (i : ℕ) (c : Counters) (ls : List Bytes)
    → AllLong (fields c)
    → core_lines (core_line i c ∷ ls) ≡ times c ∷ core_lines ls
unfolding core_line
core_lines-core_line i c ls h =
    core_lines_label (to_string i) (printed (fields c)) ls (to_string-all_digits i)
      (to_string-ne-nil i)
    ∙ ap (λ v. core_times v ∷ core_lines ls) (unfold core_line in values-core_line i c h)
    ∙ ap (λ t. t ∷ core_lines ls) (core_times-fields c)

-- The aggregate line is passed over, and the line of the interrupts ends the loop.
pub core_lines-aggregate_line :
    (c : Counters) (ls : List Bytes) → core_lines (aggregate_line c ∷ ls) ≡ core_lines ls
unfolding core_lines aggregate_line not_cpu digit_at_3 eqb substr
core_lines-aggregate_line c ls = ground arith

core_lines_other : (c : ℕ) (ls : List Bytes) → c ≢ b'c' → core_lines (cons_first c ls) ≡ []
unfolding core_lines not_cpu eqb substr
core_lines_other c [] h = refl
core_lines_other c (l ∷ ls) h = ground arith

pub core_lines-intr : (rest : Bytes) → core_lines (lines (codes "intr" ++ rest)) ≡ []
unfolding lines
core_lines-intr rest = core_lines_other b'i' (lines (codes "ntr" ++ rest)) (λ e. omega arith)

pub Fits-AllLong : (c : Counters) → Fits c → AllLong (fields c)
Fits-AllLong c h = (
  omega (arith, h),
  (
    omega (arith, h),
    (
      omega (arith, h),
      (
        omega (arith, h),
        (
          omega (arith, h),
          (
            omega (arith, h),
            (omega (arith, h), (omega (arith, h), (omega (arith, h), (omega (arith, h), tt)))),
          ),
        ),
      ),
    ),
  ),
)

abbrev pub AllFit : List Counters → Type 0
AllFit [] = Unit
AllFit (c ∷ cs) = Fits c × AllFit cs

-- Every counter fits `long`.
abbrev pub AllLongs : List Counters → Type 0
AllLongs [] = Unit
AllLongs (c ∷ cs) = AllLong (fields c) × AllLongs cs

pub AllFit-AllLongs : (cs : List Counters) → AllFit cs → AllLongs cs
AllFit-AllLongs [] h = tt
AllFit-AllLongs (c ∷ cs) (h, hs) = (Fits-AllLong c h, AllFit-AllLongs cs hs)

pub core_lines-core_file :
    (i : ℕ) (cs : List Counters) (rest : Bytes)
    → AllLongs cs
    → core_lines (lines (core_file i cs rest)) ≡ map times cs ++ core_lines (lines rest)
unfolding core_file
core_lines-core_file i [] rest h = refl
core_lines-core_file i (c ∷ cs) rest (h, hs) =
    ap core_lines
      (lines-append (core_line i c) (core_file (suc i) cs rest) (core_line-no_newline i c))
    ∙ core_lines-core_line i c (lines (core_file (suc i) cs rest)) h
    ∙ ap (λ ts. times c ∷ ts) (core_lines-core_file (suc i) cs rest hs)
