-- ===== src/SystemInfo/Amounts.antt =====
-- The amounts that are read from a printed /proc/meminfo and from `statvfs`.
use titan_share.Prelude.{
  ℕ, zero, suc, ◌+◌, ◌-◌, ◌*◌, ◌/◌, ◌%◌, ◌^◌, ◌≤◌, ◌<◌, ◌≡◌, refl, ap, ◌∙◌, Bool, true, false, not,
  ◌||◌, ◌&&◌, lt→ltb, some, List, [], ◌∷◌, ◌++◌, Bytes, codes, eqb, substr, substr_from, length,
  replicate, contains, contains-append, lines, lines-append, to_string, to_string-all_digits,
  all_digits_no_newline, pos, -ℤ-pos, quot, got, extract, trim_front, extract-to_string, long_max,
  arith,
}
use native.Mathlib.Nat.{mul-sub, mul-le-mul_right}
use titan_share.SystemInfo.Machine.{Machine, Statvfs, Floats, percent}
use titan_share.SystemInfo.Usage.{hundredfold}
use titan_share.SystemInfo.Memory.{
  MemFields, no_fields, read_line, read_lines, memory_of, get_memory_info, storage_of,
}

-- `<label><spaces><value> kB`.
abbrev pub mem_line : Bytes → ℕ → ℕ → Bytes
mem_line label pad kb = label ++ (replicate pad b' ' ++ (b' ' ∷ (to_string kb ++ codes " kB")))

-- No line is one of the two that are looked for.
abbrev pub no_fields_in : List Bytes → Bool
no_fields_in [] = true
no_fields_in (line ∷ ls) =
    not
      (eqb (substr line 0 9) (codes "MemTotal:") || eqb (substr line 0 13) (codes "MemAvailable:"))
    && no_fields_in ls

extract_pad : (pad : ℕ) (s : Bytes) → extract (replicate pad b' ' ++ s) ≡ extract s
unfolding extract trim_front
extract_pad zero s = refl
extract_pad (suc pad) s = extract_pad pad s

extract-mem_line :
    (pad kb : ℕ) → kb ≤ long_max → extract (mem_line [] pad kb) ≡ got (pos kb) (codes " kB")
extract-mem_line pad kb h =
    extract_pad pad (b' ' ∷ (to_string kb ++ codes " kB"))
    ∙ extract-to_string kb (codes " kB") h refl

read_line-total :
    (pad kb : ℕ) (f : MemFields)
    → kb ≤ long_max
    → read_line (mem_line (codes "MemTotal:") pad kb) f ≡ record f { mem_total = pos kb }
unfolding read_line eqb substr substr_from
read_line-total pad kb f h = rw (extract-mem_line pad kb h)

read_line-available :
    (pad kb : ℕ) (f : MemFields)
    → kb ≤ long_max
    → read_line (mem_line (codes "MemAvailable:") pad kb) f ≡ record f { mem_available = pos kb }
unfolding read_line eqb substr substr_from
read_line-available pad kb f h = rw (extract-mem_line pad kb h)

read_line-free : (pad kb : ℕ) (f : MemFields) → read_line (mem_line (codes "MemFree:") pad kb) f ≡ f
unfolding read_line eqb substr
read_line-free pad kb f = ground arith

read_line_other :
    (line : Bytes) (f : MemFields)
    → eqb (substr line 0 9) (codes "MemTotal:") || eqb (substr line 0 13) (codes "MemAvailable:")
      ≡ false
    → read_line line f ≡ f
unfolding read_line
read_line_other line f h = ground arith

read_lines_other : (ls : List Bytes) (f : MemFields) → no_fields_in ls ≡ true → read_lines ls f ≡ f
unfolding read_lines
read_lines_other [] f h = refl
read_lines_other (line ∷ ls) f h = ground (arith, read_line_other line f, read_lines_other ls f)

mem_line-no_newline :
    (label : Bytes) (pad kb : ℕ)
    → contains label b'\n' ≡ false
    → contains (mem_line label pad kb) b'\n' ≡ false
unfolding contains
mem_line-no_newline label pad kb h = ground (
  arith,
  contains-append label (replicate pad b' ' ++ (b' ' ∷ (to_string kb ++ codes " kB"))) b'\n',
  contains-append (replicate pad b' ') (b' ' ∷ (to_string kb ++ codes " kB")) b'\n',
  spaces pad,
  contains-append (to_string kb) (codes " kB") b'\n',
  all_digits_no_newline (to_string kb) (to_string-all_digits kb),
)
  where
    spaces : (n : ℕ) → contains (replicate n b' ') b'\n' ≡ false
    spaces zero = refl
    spaces (suc n) = spaces n

-- The blanks before the last one in front of a value: the label is filled up to 16 characters, and
-- the value stands at the right of a field of eight, or takes as much as it needs.
abbrev pub pad_of : ℕ → ℕ → ℕ
pad_of fill kb = (8 - length (to_string kb)) + fill - 1

abbrev pub mem_file : ℕ → ℕ → ℕ → Bytes → Bytes
mem_file total free available rest =
    mem_line (codes "MemTotal:") (pad_of 7 total) total
    ++ b'\n'
      ∷ (mem_line (codes "MemFree:") (pad_of 8 free) free
          ++ b'\n'
            ∷ (mem_line (codes "MemAvailable:") (pad_of 3 available) available ++ b'\n' ∷ rest))

read_lines_step :
    (label : Bytes) (pad kb : ℕ) (rest : Bytes) (f g : MemFields)
    → contains label b'\n' ≡ false
    → read_line (mem_line label pad kb) f ≡ g
    → read_lines (lines (mem_line label pad kb ++ b'\n' ∷ rest)) f ≡ read_lines (lines rest) g
unfolding read_lines
read_lines_step label pad kb rest f g h e =
    ap (λ ls. read_lines ls f)
      (lines-append (mem_line label pad kb) rest (mem_line-no_newline label pad kb h))
    ∙ ap (read_lines (lines rest)) e

read_lines-mem_file :
    (total free available : ℕ) (rest : Bytes)
    → total ≤ long_max
    → available ≤ long_max
    → no_fields_in (lines rest) ≡ true
    → read_lines (lines (mem_file total free available rest)) no_fields
      ≡ record { mem_total = pos total; mem_available = pos available }
unfolding contains
read_lines-mem_file total free available rest h k n =
    read_lines_step (codes "MemTotal:") (pad_of 7 total) total (free_line ++ b'\n' ∷ available_line)
      no_fields with_total refl (read_line-total (pad_of 7 total) total no_fields h)
    ∙ read_lines_step (codes "MemFree:") (pad_of 8 free) free available_line with_total with_total
        refl (read_line-free (pad_of 8 free) free with_total)
    ∙ read_lines_step (codes "MemAvailable:") (pad_of 3 available) available rest with_total
        with_both refl (read_line-available (pad_of 3 available) available with_total k)
    ∙ read_lines_other (lines rest) with_both n
  where
    free_line : Bytes
    free_line = mem_line (codes "MemFree:") (pad_of 8 free) free

    available_line : Bytes
    available_line = mem_line (codes "MemAvailable:") (pad_of 3 available) available ++ b'\n' ∷ rest

    with_total : MemFields
    with_total = record { mem_total = pos total; mem_available = pos 0 }

    with_both : MemFields
    with_both = record { mem_total = pos total; mem_available = pos available }

memory_of-pos :
    (fl : Floats) (total available : ℕ)
    → available ≤ total
    → 0 < total
    → memory_of fl (record { mem_total = pos total; mem_available = pos available }) ≡ record {
      usage_percent = hundredfold fl (total - available) total;
      used = pos ((total - available) / 1024);
      total = pos (total / 1024);
    }
unfolding memory_of quot percent
memory_of-pos fl total available h k = rw (-ℤ-pos total available h) (ground arith)

get_memory_info_open :
    (fl : Floats) (m : Machine) (content : Bytes)
    → m.read_file (codes "/proc/meminfo") ≡ some content
    → get_memory_info fl m ≡ memory_of fl (read_lines (lines content) no_fields)
unfolding get_memory_info
get_memory_info_open fl m content e = rw (e, get_memory_info)

-- Let /proc/meminfo be as the kernel prints it: the lines of the total, the free and the available
-- memory, each value in a field of eight characters behind its label and with its unit, then lines
-- of other names, where the total is positive and fits `long`, and no more is available than there
-- is in total. Then the reported memory is that total and what of it is not available, both in MB,
-- and a hundred times the quotient of the two in the arithmetic of the machine.
pub get_memory_info-mem_file :
    (fl : Floats) (m : Machine) (total free available : ℕ) (rest : Bytes)
    → m.read_file (codes "/proc/meminfo") ≡ some (mem_file total free available rest)
    → total ≤ long_max
    → 0 < total
    → available ≤ total
    → no_fields_in (lines rest) ≡ true
    → get_memory_info fl m ≡ record {
      usage_percent = hundredfold fl (total - available) total;
      used = pos ((total - available) / 1024);
      total = pos (total / 1024);
    }
get_memory_info-mem_file fl m total free available rest e h k a n =
    get_memory_info_open fl m (mem_file total free available rest) e
    ∙ ap (memory_of fl) (read_lines-mem_file total free available rest h (omega arith) n)
    ∙ memory_of-pos fl total available a k

wrap_sub : (t f : ℕ) → f ≤ t → t < 2 ^ 64 → (t + (2 ^ 64 - f)) % 2 ^ 64 ≡ t - f
wrap_sub t f h k = omega arith

small : (t : ℕ) → t < 2 ^ 64 → t % 2 ^ 64 ≡ t
small t h = omega arith

sub_mul : (a b c : ℕ) → (a - b) * c ≡ a * c - b * c
sub_mul a b c = omega (arith, mul-sub c a b)

-- Where the file system's size in bytes is positive and fits 64 bits, and no more blocks are free than there are,
-- the used bytes are those of the blocks that are not free, and the amounts do not wrap around.
pub storage_of_lem :
    (fl : Floats) (st : Statvfs)
    → st.f_bfree ≤ st.f_blocks
    → st.f_blocks * st.f_frsize < 2 ^ 64
    → 0 < st.f_blocks * st.f_frsize
    → storage_of fl st ≡ record {
      usage_percent =
          hundredfold fl ((st.f_blocks - st.f_bfree) * st.f_frsize) (st.f_blocks * st.f_frsize);
      used = pos ((st.f_blocks - st.f_bfree) * st.f_frsize / (1024 * 1024 * 1024));
      total = pos (st.f_blocks * st.f_frsize / (1024 * 1024 * 1024));
    }
unfolding storage_of percent
storage_of_lem fl st free size some_bytes = rw (
  small (st.f_blocks * st.f_frsize) size,
  small (st.f_bfree * st.f_frsize) (omega (arith, free_le)),
  wrap_sub (st.f_blocks * st.f_frsize) (st.f_bfree * st.f_frsize) free_le size,
  lt→ltb 0 (st.f_blocks * st.f_frsize) some_bytes,
  sub_mul st.f_blocks st.f_bfree st.f_frsize,
)
  where
    free_le : st.f_bfree * st.f_frsize ≤ st.f_blocks * st.f_frsize
    free_le = mul-le-mul_right st.f_frsize free
