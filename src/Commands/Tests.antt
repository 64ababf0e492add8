-- ===== src/Commands/Tests.antt =====
-- Command lines on a concrete host, and the theorems on them.
use titan_share.Prelude.{◌≡◌, ◌≢◌, refl, ◌↔◌, ◌⊎◌, true, some, none, [], codes, eqb}
use titan_share.Input.{VirtualInput}
use titan_share.Commands.Shell.{Host, exited}
use titan_share.Commands.Dispatcher.{Services, Dispatcher, dispatch}
use titan_share.Commands.Responses.{
  after, IsUnprintable, bad_number, dispatch_no_shell, dispatch-none,
}

abbrev host : Host
host = record { uid = 0; popen = λ ran command. some ([], exited 0) }

abbrev services : Services
services = record {
  host = host;
  local_ip = codes "10.0.0.2";
  mirror_starts = λ ran. true;
  dump_mirror = λ kind ip port. kind;
  dump_info = λ ran. some [];
}

abbrev device : VirtualInput
device = record { mouse_fd = some 3; kb_fd = some 4; initialized = true }

abbrev dispatcher : Dispatcher
dispatcher = record { input = some device; mirror = none; commands = []; emitted = [] }

dispatch_no_shell_example :
    (after dispatcher (dispatch services (codes "shutdown; rm -rf /") dispatcher)).commands
    ≡ dispatcher.commands
unfolding eqb
dispatch_no_shell_example = dispatch_no_shell services (codes "shutdown; rm -rf /") dispatcher refl

dispatch-none_example : (dispatch services (codes "MOUSE_SCROLL:up") dispatcher ≡ none) ↔ (
    ((bad_number (codes "MOUSE_SCROLL:up") ≡ true) × (dispatcher.input ≢ none))
    ⊎ IsUnprintable services (codes "MOUSE_SCROLL:up") dispatcher)
dispatch-none_example = dispatch-none services (codes "MOUSE_SCROLL:up") dispatcher
