-- ===== src/Gui.antt =====
-- src_gui/main.cpp: the desktop window. It finds the files that the daemon writes, shows the PIN and
-- the transfer, and copies dropped files into the drop folder.
pub mod Ipc
pub mod Model
pub mod Window
pub mod Drop
pub mod Offered
pub mod Newest
pub mod DaemonPin
mod Tests
