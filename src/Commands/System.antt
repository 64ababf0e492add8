-- ===== src/Commands/System.antt =====
-- src/commands/{power,volume,lock}_commands.cpp: commands that the shell carries out.
use titan_share.Prelude.{
  ℕ, ◌==◌, ◌||◌, if◌then◌else◌, Option, none, some, List, [], ◌∷◌, ◌++◌, Bytes, codes, eqb,
  is_empty,
}
use titan_share.Commands.Shell.{Host, success, exec, seat0_of}

abbrev pub cmd_ok : Bytes
cmd_ok = codes "CMD_OK\n"

abbrev pub cmd_fail : Bytes
cmd_fail = codes "CMD_FAIL\n"

abbrev pub cmd_unknown : Bytes
cmd_unknown = codes "CMD_UNKNOWN\n"

-- `result.success() ? "CMD_OK\n" : "CMD_FAIL\n"` after `Process::exec`.
unfoldable pub run_and_answer : Host → Bytes → List Bytes → Bytes × List Bytes
run_and_answer host command ran =
    let (result, ran') = exec host command ran in
    (if success result then cmd_ok else cmd_fail, ran')

-- `PowerCommands::execute`.
unfoldable pub power : Host → Bytes → List Bytes → Bytes × List Bytes
power host cmd ran =
    if eqb cmd (codes "shutdown")
    then run_and_answer host (codes "systemctl poweroff") ran
    else if eqb cmd (codes "reboot")
    then run_and_answer host (codes "systemctl reboot") ran
    else if eqb cmd (codes "sleep")
    then run_and_answer host (codes "systemctl suspend") ran
    else (cmd_unknown, ran)

abbrev pub list_sessions : Bytes
list_sessions = codes "/usr/bin/loginctl list-sessions --no-legend"

-- The user of the session on seat0, or the fallback of the source.
session_user : Option (Bytes × Bytes) → Bytes
session_user none = codes "msfvenom"
session_user (some (id, user)) = user

-- Root runs the command as that user.
volume_prefix : ℕ → Bytes → Bytes
volume_prefix uid user =
    if uid == 0
    then codes "runuser -u "
      ++ (user ++ (codes " -- env XDG_RUNTIME_DIR=/run/user/$(id -u " ++ (user ++ codes ") ")))
    else []

-- `VolumeCommands::execute`.
unfoldable pub volume : Host → Bytes → List Bytes → Bytes × List Bytes
unfolding session_user volume_prefix
volume host cmd ran =
    let (listed, ran') = exec host list_sessions ran in
    let prefix = volume_prefix host.uid (session_user (seat0_of listed)) in
    if eqb cmd (codes "volume_up")
    then run_and_answer host (prefix ++ codes "pactl set-sink-volume @DEFAULT_SINK@ +5%") ran'
    else if eqb cmd (codes "volume_down")
    then run_and_answer host (prefix ++ codes "pactl set-sink-volume @DEFAULT_SINK@ -5%") ran'
    else if eqb cmd (codes "mute")
    then run_and_answer host (prefix ++ codes "pactl set-sink-mute @DEFAULT_SINK@ toggle") ran'
    else (cmd_unknown, ran')

-- A loginctl command on the session, as its user where the daemon is root.
loginctl : ℕ → Bytes → Bytes → Bytes → Bytes
loginctl uid verb user id =
    let call = codes "/usr/bin/loginctl " ++ (verb ++ (b' ' ∷ id)) in
    if uid == 0 then codes "runuser -u " ++ (user ++ (codes " -- " ++ call)) else call

lock : Host → List Bytes → Bytes × List Bytes
unfolding loginctl
lock host ran =
    let (listed, ran') = exec host list_sessions ran in
    elim (seat0_of listed) [
      | none ↦ (cmd_fail, ran')
      | some (id, user) ↦
          if is_empty id
          then (cmd_fail, ran')
          else run_and_answer host (loginctl host.uid (codes "lock-session") user id) ran'
    ]

wake_screen : ℕ → Bytes → Bytes
wake_screen uid user =
    if uid == 0
    then codes "runuser -u " ++ (user ++ codes " -- env DISPLAY=:0 xset dpms force on")
    else codes "DISPLAY=:0 xset dpms force on"

-- The result of the unlock is logged only; the other two commands are detached.
unlock_on : Host → Bytes → Bytes → List Bytes → Bytes × List Bytes
unfolding loginctl wake_screen
unlock_on host id user ran =
    let unlocked = exec host (loginctl host.uid (codes "unlock-session") user id) ran in
    let activated = exec host (loginctl host.uid (codes "activate") user id) unlocked.1 in
    let woken = exec host (wake_screen host.uid user) activated.1 in (cmd_ok, woken.1)

unlock_session : Host → List Bytes → Bytes × List Bytes
unfolding unlock_on
unlock_session host ran =
    let (listed, ran') = exec host list_sessions ran in
    elim (seat0_of listed) [
      | none ↦ (cmd_fail, ran')
      | some (id, user) ↦
          if is_empty id || is_empty user then (cmd_fail, ran') else unlock_on host id user ran'
    ]

-- `LockCommands::execute`.
unfoldable pub lock_command : Host → Bytes → List Bytes → Bytes × List Bytes
unfolding lock unlock_session
lock_command host cmd ran =
    if eqb cmd (codes "lock")
    then lock host ran
    else if eqb cmd (codes "unlock")
    then unlock_session host ran
    else if eqb cmd (codes "wakeup")
    then (cmd_ok, (exec host (codes "xset dpms force on 2>/dev/null || true") ran).1)
    else (cmd_unknown, ran)
