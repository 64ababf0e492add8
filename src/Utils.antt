-- ===== src/Utils.antt =====
-- src/utils/network.cpp and src/utils/logger.cpp: the address that the daemon shows, and which
-- messages are printed and when they are. `getifaddrs`, the clock and the stream are parameters.
use titan_share.Prelude.{
  ℕ, zero, suc, ◌-◌, ◌<◌, ◌≡◌, refl, ltb, leb, length, length-append, to_string, Bool, true, false,
  arith, if◌then◌else◌, Option, none, some, List, [], ◌∷◌, ◌++◌, Bytes, codes, eqb,
}

-- An entry of the list of interfaces: its name, and its IPv4 address as text; `none` is an entry
-- without an address or of another family.
pub record Interface : Type 0 where
  pub name : Bytes
  pub ipv4 : Option Bytes

-- The loop, with its result so far.
unfoldable pub first_address : List Interface → Bytes → Bytes
first_address [] result = result
first_address (i ∷ is) result =
    let rest = first_address is result in
    elim i.ipv4 [ none ↦ rest | some ip ↦ if eqb i.name (codes "lo") then rest else ip ]

-- `Network::getLocalIp`; `none` is a failed `getifaddrs`.
unfoldable pub get_local_ip : Option (List Interface) → Bytes
get_local_ip none = codes "127.0.0.1"
get_local_ip (some is) = first_address is (codes "127.0.0.1")

pub data LogLevel : Type 0 where
  debug info warn error : LogLevel

-- The order of the enumeration.
abbrev rank : LogLevel → ℕ
rank debug = 0
rank info = 1
rank warn = 2
rank error = 3

unfoldable pub level_to_string : LogLevel → Bytes
level_to_string debug = codes "DEBUG"
level_to_string info = codes "INFO "
level_to_string warn = codes "WARN "
level_to_string error = codes "ERROR"

-- `Logger::log`, on the least level, the time as text and what was printed.
unfoldable pub log : LogLevel → Bytes → LogLevel → Bytes → Bytes → Bytes → Bytes
log min_level timestamp level tag message printed =
    if ltb (rank level) (rank min_level)
    then printed
    else printed
      ++ (codes "["
          ++ (timestamp
              ++ (codes "] ["
                  ++ (level_to_string level
                      ++ (codes "] [" ++ (tag ++ (codes "] " ++ (message ++ b'\n' ∷ []))))))))

-- `s_minLevel`, and what was printed.
pub record Logger : Type 0 where
  pub min_level : LogLevel
  pub printed : Bytes

-- `Logger::init`.
unfoldable pub init : LogLevel → Logger → Logger
init level l = record l { min_level = level }

-- `debug`, `info`, `warn` and `error`, at a time.
unfoldable pub say : LogLevel → Bytes → Bytes → Bytes → Logger → Logger
say level time tag message l = record l {
  printed = log l.min_level time level tag message l.printed;
}

unfoldable pub zeros : ℕ → Bytes
zeros zero = []
zeros (suc n) = b'0' ∷ zeros n

-- A number in a field of a width, filled up with zeros in front.
unfoldable pub padded : ℕ → ℕ → Bytes
padded width n = zeros (width - length (to_string n)) ++ to_string n

-- The local time of the clock.
pub record LocalTime : Type 0 where
  pub hour : ℕ
  pub minute : ℕ
  pub second : ℕ
  pub millisecond : ℕ

-- `timestamp`.
unfoldable pub timestamp : LocalTime → Bytes
timestamp t =
    padded 2 t.hour
    ++ b':' ∷ (padded 2 t.minute ++ b':' ∷ (padded 2 t.second ++ b'.' ∷ padded 3 t.millisecond))

length-zeros : (n : ℕ) → length (zeros n) ≡ n
unfolding zeros
length-zeros zero = refl
length-zeros (suc n) = omega (arith, length-zeros n)

-- Whether each number below a bound needs no more digits than the width.
fits : ℕ → ℕ → Bool
fits width zero = true
fits width (suc n) =
    let rest = fits width n in if leb (length (to_string n)) width then rest else false

fits_below :
    (width bound n : ℕ)
    → fits width bound ≡ true
    → n < bound
    → leb (length (to_string n)) width ≡ true
unfolding fits
fits_below width zero n h k = absurd (omega arith)
fits_below width (suc bound) n h k = ground (arith, fits_below width bound n)

length-padded :
    (width bound n : ℕ) → fits width bound ≡ true → n < bound → length (padded width n) ≡ width
unfolding padded
length-padded width bound n h k = ground (
  arith,
  fits_below width bound n h k,
  length-append (zeros (width - length (to_string n))) (to_string n),
  length-zeros (width - length (to_string n)),
)

two_digits : fits 2 100 ≡ true
unfolding fits to_string
two_digits = refl

three_digits : fits 3 1000 ≡ true
unfolding fits to_string
three_digits = refl

-- A time stamp has twelve bytes, whatever the time.
pub length-timestamp :
    (t : LocalTime)
    → t.hour < 24
    → t.minute < 60
    → t.second < 61
    → t.millisecond < 1000
    → length (timestamp t) ≡ 12
unfolding timestamp
length-timestamp t h m s ms =
    let below_minute = padded 2 t.second ++ b'.' ∷ padded 3 t.millisecond in
    let below_hour = padded 2 t.minute ++ b':' ∷ below_minute in
    omega (
      arith,
      length-append (padded 2 t.hour) (b':' ∷ below_hour),
      length-append (padded 2 t.minute) (b':' ∷ below_minute),
      length-append (padded 2 t.second) (b'.' ∷ padded 3 t.millisecond),
      length-padded 2 100 t.hour two_digits (omega arith),
      length-padded 2 100 t.minute two_digits (omega arith),
      length-padded 2 100 t.second two_digits (omega arith),
      length-padded 3 1000 t.millisecond three_digits ms,
    )
