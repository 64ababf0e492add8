-- ===== src/SystemInfo.antt =====
-- src/commands/system_info.{hpp,cpp}: what the daemon reads from procfs and sysfs, and the JSON
-- object that the app shows.
pub mod Machine
pub mod Cpu
pub mod Memory
pub mod Sensors
pub mod Collect
pub mod StatFile
pub mod Usage
pub mod Amounts
mod Tests
