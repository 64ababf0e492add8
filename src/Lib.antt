-- ===== src/Lib.antt =====
-- TitanShare: the daemon that pairs a phone with a Linux desktop over TCP. The model follows
-- src/ of the repository.
--
-- A phone connects (src/server/tcp_server.cpp), the server keeps a session per descriptor and hands
-- it what it reads. A session (src/server/client_session.cpp) goes from AUTH to HEADER with a PIN
-- that the session manager (src/auth/session_manager.cpp) accepts, takes command lines and headers
-- of files, and in DATA writes a file. Commands go to the dispatcher (src/commands/), which moves
-- the pointer and types (src/input/virtual_input.cpp), runs shell commands (src/utils/process.cpp)
-- and starts the mirror receiver (src/mirror/mirror_receiver.cpp), which has a connection of its
-- own. The picture of the QR code is drawn by src/qr/qr_generator.cpp. The daemon announces itself
-- on the network (src/discovery/mdns_advertiser.cpp) and answers what the machine is and does
-- (src/commands/system_info.cpp); the desktop window (src_gui/main.cpp) shows what the daemon writes
-- to its files.
--
-- Files and code:
--   Prelude: shared helpers: Boolean tests, lists, byte strings, association lists, `to_string`,
--     `stoull` and `stoi`; integers (Int), streams (Streams) and printed texts (Printed).
--   Config: src/config.hpp.
--   Auth: src/auth/session_manager.cpp. Pins is about the window of PINs, Bans about the length of
--     a ban, Ledger about the bookkeeping per IP, Persist about the two files, Perms about who may
--     read them, step by step.
--   Session: src/server/client_session.cpp. State has `Session`, the environment `Env` and the
--     events; Buffer, Login, Header, Upload and Push have the handlers, Machine the loop over the
--     stages. Invariant, Admission, FileStart, Delivery and the children of Upload and Machine (of
--     these, Transfer is about a file that comes in over several reads, Lines about lines and whole uploads that do,
--     Closing about the end of a connection) are proofs.
--   Server: src/server/tcp_server.cpp; Valid has its invariant, Isolation is about what the
--     clients do to each other, Admission about what happens before AUTH_OK, and
--     Listener is what comes before the loop and after it. Phone follows one phone from `accept` to
--     the pointer, DoubleClose a connection that a session closes.
--   Tls: Context and Accept are src/utils/ssl_helper.cpp, Send the method `sendResponse` of
--     src/server/client_session.cpp.
--   SystemInfo: src/commands/system_info.cpp. Machine is what it reads from; Cpu, Memory, Sensors
--     and Collect are its functions. StatFile and Usage are about printed counters, Amounts about
--     printed memory and about storage.
--   Discovery: src/discovery/mdns_advertiser.cpp. Advertiser has the operations and callbacks, Loop
--     the thread, Secrecy and Stop what holds of a run.
--   Gui: src_gui/main.cpp. Ipc finds and reads the files, Model is what is shown, Window has the
--     handlers and the watched files, Drop the drop of files; Newest, DaemonPin and Shown are about
--     the file that is found, Offered is about a dropped file that the daemon pushes.
--   Input: src/input/virtual_input.cpp; Device is the set-up and the end of the two devices, Typing
--     reads the events as a desktop does.
--   Commands: Shell is src/utils/process.cpp, System the files power_commands.cpp,
--     volume_commands.cpp and lock_commands.cpp of src/commands/, Dispatcher the file
--     command_dispatcher.cpp there, with Info for the answer to get_info; Responses is about what a
--     line causes, Pointer about the lines of a phone that reach the dispatcher through its session.
--   Mirror: src/mirror/mirror_receiver.cpp. Mirror itself runs the worker and `stop` one after the
--     other: Frames is about the framing, Worker about its end and its descriptors. Threads has
--     the same two step by step, in any order, with Leaks and Ending; Pipeline is the GStreamer
--     pipeline, with Balance; Window the renaming of its window.
--   Qr: src/qr/qr_generator.cpp.
--   Notifications: src/notifications/notification_bridge.cpp: Monitor is its loop, Show the command.
--   Daemon: src/main.cpp; Shutdown is its course and the signals, Secrets is about the files with
--     the PIN.
--   FileTransfer: src/file_transfer/file_receiver.cpp.
--   Utils: src/utils/network.cpp and src/utils/logger.cpp.
--   The Tests modules have runs and the theorems at concrete inputs.
--
-- Names are those of the source in snake case: `handleFileData` is `handle_file_data`. Members of a
-- class are the fields of a record; -1 for a descriptor is `none`. What a method does to the outside
-- is a list of events, newest first, and what the outside answers is a function of that list. An
-- exception that leaves a method is `threw`, or `none` in the dispatcher; exceptions for want of
-- memory or of threads are left aside.
--
-- Bounds and fuel: bytes are numbers, and a byte string is a list of them. Numbers are unbounded
-- where the source cannot overflow, and where it wraps (`stoull` of a negative number) the wrap is
-- written out. The loop over the lines has one round for each readable byte and one more, which is
-- enough since each round but the last consumes a line; the loop of a push one for each byte of the
-- file and one more; the loop within a chunk the rounds that the environment grants (`patience`),
-- since EAGAIN may come any number of times; the mirror's loop one for each byte and one more.
--
-- The counters of /proc/stat are summed as unbounded integers; a theorem that needs it asks that the
-- sums fit `long`. The TLS loops have a number of calls as fuel, since a peer decides how many there
-- are.
--
-- `Mirror.Threads` has no fuel: an order of the two threads is a list of turns.
--
-- Not modelled: what GStreamer, OpenSSL, Avahi, D-Bus, Qt and Xlib do, which are parameters; threads
-- other than those of the mirror (a detached command runs at once, and what other threads ask of the
-- advertiser comes in its rounds); and the window's own drawing.
pub mod Prelude
pub mod Config
pub mod Auth
pub mod Session
pub mod Server
pub mod Input
pub mod Commands
pub mod Mirror
pub mod Qr
pub mod SystemInfo
pub mod Discovery
pub mod Gui
pub mod Tls
pub mod Notifications
pub mod Daemon
pub mod FileTransfer
pub mod Utils
