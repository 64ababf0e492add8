-- ===== src/SystemInfo/Collect.antt =====
-- `SystemInfo::collect`: the object with its members in the order in which they are set.
use titan_share.Prelude.{
  if◌then◌else◌, List, [], ◌∷◌, map, Bytes, codes, is_empty, ℤ, pos, print_int, quot,
}
use titan_share.SystemInfo.Machine.{Machine, Floats}
use titan_share.SystemInfo.Cpu.{
  SystemInfo, get_cpu_usage, get_per_core_cpu_usage, get_cpu_freq_ghz, get_cpu_core_count,
}
use titan_share.SystemInfo.Memory.{get_memory_info, get_storage_info}
use titan_share.SystemInfo.Sensors.{
  get_brand, get_model, get_os_version, get_cpu_temperature, get_battery_percent,
}

-- A member of the JSON object: a string, a number, or an array of strings.
pub data Value : Type 0 where
  text : Bytes → Value
  number : ℤ → Value
  array : List Bytes → Value

or_unknown : Bytes → Bytes
or_unknown s = if is_empty s then codes "Unknown" else s

-- `collect`.
unfoldable pub collect : Floats → Machine → SystemInfo → List (Bytes × Value) × SystemInfo
unfolding or_unknown
collect fl m s =
    let (load, s1) = get_cpu_usage fl m s in
    let (cores, s2) = get_per_core_cpu_usage fl m s1 in
    let ram = get_memory_info fl m in
    let storage = get_storage_info fl m in
    (
      (codes "brand", text (or_unknown (get_brand m)))
          ∷ (codes "model", text (or_unknown (get_model m)))
          ∷ (codes "os_version", text (get_os_version m))
          ∷ (codes "cpu_load", text (fl.fixed 1 load))
          ∷ (codes "cpu_cores_usage", array (map (fl.fixed 1) cores))
          ∷ (codes "cpu_freq_ghz", text (fl.fixed 2 (get_cpu_freq_ghz fl m)))
          ∷ (codes "cpu_core_count", number (pos (get_cpu_core_count m)))
          ∷ (codes "cpu_temp", text (fl.fixed 1 (get_cpu_temperature fl m)))
          ∷ (codes "ramUsage", text (fl.fixed 1 ram.usage_percent))
          ∷ (codes "ramUsed", text (print_int (quot ram.used 1024)))
          ∷ (codes "ramTotal", text (print_int (quot ram.total 1024)))
          ∷ (codes "storage_usage", text (fl.fixed 1 storage.usage_percent))
          ∷ (codes "storageUsed", text (print_int storage.used))
          ∷ (codes "storageTotal", text (print_int storage.total))
          ∷ (codes "battery", number (get_battery_percent m))
          ∷ (codes "net_speed", text (codes "0 Mbps"))
          ∷ [],
      s2,
    )
