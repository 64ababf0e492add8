-- ===== src/Config.antt =====
-- src/config.hpp: the compile-time constants that the daemon's code reads, and the two directory
-- choices made at start-up. `getuid`, `getenv` and `access` are arguments.
use titan_share.Prelude.{
  ℕ, ◌*◌, ◌^◌, ◌==◌, Bool, ◌||◌, if◌then◌else◌, Option, none, some, ◌++◌, Bytes, codes, is_empty,
  not,
}

abbrev pub tcp_port : ℕ
tcp_port = 9999

abbrev pub mirror_port : ℕ
mirror_port = 5001

abbrev pub max_clients : ℕ
max_clients = 64

abbrev pub pairing_pin_digits : ℕ
pairing_pin_digits = 6

abbrev pub max_recent_pins : ℕ
max_recent_pins = 12

abbrev pub auth_attempts_per_connection : ℕ
auth_attempts_per_connection = 3

abbrev pub auth_fail_threshold : ℕ
auth_fail_threshold = 5

abbrev pub auth_ban_initial_secs : ℕ
auth_ban_initial_secs = 30

abbrev pub auth_ban_max_secs : ℕ
auth_ban_max_secs = 3600

abbrev pub auth_max_buffer : ℕ
auth_max_buffer = 4096

-- 2ULL << 30.
abbrev pub max_receive_file_bytes : ℕ
max_receive_file_bytes = 2 * 2 ^ 30

abbrev pub read_buffer_size : ℕ
read_buffer_size = 65536

abbrev pub daemon_version : Bytes
daemon_version = codes "2.0.0"

abbrev pub mdns_service_type : Bytes
mdns_service_type = codes "_titanshare._tcp"

-- `getDataDir`, on the user id and `getenv("HOME")`.
unfoldable pub get_data_dir : ℕ → Option Bytes → Bytes
get_data_dir uid home = if uid == 0 then codes "/var/lib/titanshare" else elim home [
  | some dir ↦ dir ++ codes "/.local/share/titanshare"
  | none ↦ codes "/tmp/titanshare"
]

-- The three paths built on the data directory.
unfoldable pub received_files_dir : Bytes → Bytes
received_files_dir data_dir = data_dir ++ codes "/received_files"

unfoldable pub send_to_android_dir : Bytes → Bytes
send_to_android_dir data_dir = data_dir ++ codes "/send_to_android"

-- `getIpcDir`, on the user id, whether /run/titanshare is writable, and `getenv("XDG_RUNTIME_DIR")`.
unfoldable pub get_ipc_dir : ℕ → Bool → Option Bytes → Bytes → Bytes
get_ipc_dir uid writable xdg_run data_dir =
    if uid == 0 || writable then codes "/run/titanshare" else elim xdg_run [
      | none ↦ data_dir
      | some dir ↦ if not (is_empty dir) then dir ++ codes "/titanshare" else data_dir
    ]
