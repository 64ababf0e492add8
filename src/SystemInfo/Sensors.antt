-- ===== src/SystemInfo/Sensors.antt =====
-- Temperature, battery, and the names of the machine and its system.
use titan_share.Prelude.{
  Bool, ◌||◌, if◌then◌else◌, Option, none, some, List, [], ◌∷◌, ◌++◌, Bytes, codes, is_empty, ℤ,
  pos, stoi, stol,
}
use titan_share.SystemInfo.Machine.{Machine, Floats, read_sys_file, literal, begins}

-- `s.find(word) != npos`.
unfoldable pub has_word : Bytes → Bytes → Bool
has_word [] word = is_empty word
has_word (c ∷ cs) word = begins (c ∷ cs) word || has_word cs word

unfoldable pub is_cpu_zone : Bytes → Bool
is_cpu_zone type =
    has_word type (codes "x86_pkg")
    || has_word type (codes "coretemp")
    || has_word type (codes "cpu")
    || has_word type (codes "k10temp")
    || has_word type (codes "zenpower")

-- What a loop over a directory gives: a number, nothing, or an exception.
pub data Reading : Type 0 where
  value : ℤ → Reading
  nothing : Reading
  throws : Reading

of_number : Option ℤ → Reading
of_number none = throws
of_number (some z) = value z

-- The number in a file, `nothing` where the file is empty or missing.
unfoldable pub number_in : (Bytes → Option ℤ) → Bytes → Reading
unfolding of_number
number_in read s = if is_empty s then nothing else of_number (read s)

orelse : Reading → Reading → Reading
orelse (value z) r = value z
orelse nothing r = r
orelse throws r = throws

-- The loop over a directory that returns at the first number.
unfoldable pub first_reading : (Bytes → Reading) → List Bytes → Reading
unfolding orelse
first_reading read [] = nothing
first_reading read (name ∷ names) = let rest = first_reading read names in orelse (read name) rest

in_directory : (Bytes → Reading) → Option (List Bytes) → Reading
unfolding first_reading
in_directory read none = throws
in_directory read (some names) = first_reading read names

abbrev pub thermal_base : Bytes
thermal_base = codes "/sys/class/thermal"

-- A thermal zone of the processor.
unfoldable pub zone_reading : Machine → Bytes → Reading
zone_reading m name =
    let path = thermal_base ++ (b'/' ∷ name) in
    if begins name (codes "thermal_zone")
    then if is_cpu_zone (read_sys_file m (path ++ codes "/type"))
      then number_in stol (read_sys_file m (path ++ codes "/temp"))
      else nothing
    else nothing

-- The first `try`: the zones, and then zone 0 of any type.
unfoldable pub zones : Machine → Reading
unfolding orelse in_directory
zones m =
    orelse (in_directory (zone_reading m) (m.list_dir thermal_base))
      (number_in stol (read_sys_file m (thermal_base ++ codes "/thermal_zone0/temp")))

abbrev pub hwmon_base : Bytes
hwmon_base = codes "/sys/class/hwmon"

hwmon_reading : Machine → Bytes → Reading
hwmon_reading m name =
    number_in stol (read_sys_file m (hwmon_base ++ (b'/' ∷ (name ++ codes "/temp1_input"))))

-- The second `try`.
unfoldable pub hwmon : Machine → Reading
unfolding in_directory hwmon_reading
hwmon m = in_directory (hwmon_reading m) (m.list_dir hwmon_base)

abbrev pub power_supply_base : Bytes
power_supply_base = codes "/sys/class/power_supply"

unfoldable pub battery_reading : Machine → Bytes → Reading
battery_reading m name =
    if begins name (codes "BAT")
    then number_in stoi
        (read_sys_file m (power_supply_base ++ (b'/' ∷ (name ++ codes "/capacity"))))
    else nothing

-- `getBatteryPercent`.
unfoldable pub get_battery_percent : Machine → ℤ
unfolding in_directory
get_battery_percent m = elim (in_directory (battery_reading m) (m.list_dir power_supply_base)) [
  | value z ↦ z
  | nothing ↦ pos 0
  | throws ↦ pos 0
]

-- `getBrand`, `getModel` and `getOsVersion`.
unfoldable pub get_brand : Machine → Bytes
get_brand m = read_sys_file m (codes "/sys/class/dmi/id/sys_vendor")

unfoldable pub get_model : Machine → Bytes
get_model m = read_sys_file m (codes "/sys/class/dmi/id/product_name")

unfoldable pub get_os_version : Machine → Bytes
get_os_version m = elim m.uname [
  | none ↦ codes "Unknown"
  | some (sysname, release) ↦ sysname ++ (b' ' ∷ release)
]

module _ (fl : Floats) where
  degrees : ℤ → fl.Double
  degrees milli = fl.div (fl.of_int milli) (literal fl 1000)

  from_hwmon : Reading → fl.Double
  unfolding degrees
  from_hwmon (value z) = degrees z
  from_hwmon nothing = literal fl 0
  from_hwmon throws = literal fl 0

  -- `getCpuTemperature`.
  unfoldable pub get_cpu_temperature : Machine → fl.Double
  unfolding degrees from_hwmon
  get_cpu_temperature m = elim (zones m) [
    | value z ↦ degrees z
    | nothing ↦ from_hwmon (hwmon m)
    | throws ↦ from_hwmon (hwmon m)
  ]
