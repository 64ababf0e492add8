-- ===== src/Daemon/Shutdown.antt =====
-- src/main.cpp: the course of `main` from the announcement to systemd on, with the signals that come
-- in at any point of it. The set-up of the server, and its rounds, are those of
-- src/server/tcp_server.cpp.
use titan_share.Prelude.{
  ℕ, suc, ◌-◌, ◌≤◌, ◌≡◌, refl, Bool, true, false, if◌then◌else◌, List, [], ◌∷◌, arith,
}
use titan_share.Server.Listener.{Answers, Listener, set_up, idle}

-- Where `main` stands: before READY=1; before `server` is made; before `g_server` is set; before the
-- set-up of `run`; at the test of its loop; in the cleanup; at the end.
pub data Phase : Type 0 where
  announcing making publishing setting_up looping cleaning finished : Phase

pub data Deed : Type 0 where
  says_ready says_stopping : Deed
  stops_mdns stops_notifications : Deed

-- `g_running`, whether `g_server` is set, the server, and what was done, newest first.
pub record Process : Type 0 where
  pub running : Bool
  pub has_server : Bool
  pub listener : Listener
  pub phase : Phase
  pub deeds : List Deed

unfoldable pub announced : Process
announced = record {
  running = true;
  has_server = false;
  listener = idle;
  phase = announcing;
  deeds = [];
}

-- Where the set-up ends.
abbrev after_set_up : Listener → Phase
after_set_up l = if l.running then looping else cleaning

-- One step of `main`, on what the kernel answers in the set-up, and whether `epoll_wait` fails.
unfoldable pub main_step : Answers → Bool → Phase → Process → Process
main_step a broken announcing p = record p { phase = making; deeds = says_ready ∷ p.deeds }
main_step a broken making p = record p { phase = publishing; listener = idle }
main_step a broken publishing p = record p { phase = setting_up; has_server = true }
main_step a broken setting_up p = record p {
  phase = after_set_up (set_up a p.listener);
  listener = set_up a p.listener;
}
main_step a broken looping p =
    if p.listener.running
    then record p { phase = if broken then cleaning else looping }
    else record p { phase = cleaning }
main_step a broken cleaning p = record p {
  phase = finished;
  has_server = false;
  deeds = says_stopping ∷ stops_notifications ∷ stops_mdns ∷ p.deeds;
}
main_step a broken finished p = p

-- `signalHandler`, with `TcpServer::stop`.
unfoldable pub handle_signal : Process → Process
handle_signal p =
    if p.has_server
    then record p { running = false; listener = record p.listener { running = false } }
    else record p { running = false }

pub data Happening : Type 0 where
  goes_on : Answers → Bool → Happening
  signal : Happening

unfoldable pub happens : Happening → Process → Process
happens (goes_on a broken) p = main_step a broken p.phase p
happens signal p = handle_signal p

unfoldable pub course : List Happening → Process → Process
course [] p = p
course (h ∷ hs) p = course hs (happens h p)

-- How often `main` goes on.
abbrev pub steps : List Happening → ℕ
steps [] = 0
steps (goes_on a broken ∷ hs) = suc (steps hs)
steps (signal ∷ hs) = steps hs

-- No signal, and no failure of `epoll_wait`.
abbrev pub IsQuiet : List Happening → Type 0
IsQuiet [] = Unit
IsQuiet (goes_on a broken ∷ hs) = (broken ≡ false) × IsQuiet hs
IsQuiet (signal ∷ hs) = ⊥

-- How many steps are left of a loop that was stopped.
abbrev rank : Phase → ℕ
rank finished = 0
rank cleaning = 1
rank looping = 2
rank _ = 3

abbrev IsStopping : Process → ℕ → Type 0
IsStopping p n = (rank p.phase ≤ n) × (n ≤ 2) × (p.listener.running ≡ false)

main_step-IsStopping :
    (a : Answers) (broken : Bool) (f : Phase) (p : Process) (n : ℕ)
    → p.phase ≡ f
    → IsStopping p n
    → IsStopping (main_step a broken f p) (n - 1)
unfolding main_step
main_step-IsStopping a broken looping p n e h = ground arith
main_step-IsStopping a broken cleaning p n e h = ground arith
main_step-IsStopping a broken finished p n e h = ground arith
main_step-IsStopping a broken f p n e h = ground arith

handle_signal-IsStopping : (p : Process) (n : ℕ) → IsStopping p n → IsStopping (handle_signal p) n
unfolding handle_signal
handle_signal-IsStopping p n h = ground arith

course-IsStopping :
    (hs : List Happening) (p : Process) (n : ℕ)
    → IsStopping p n
    → IsStopping (course hs p) (n - steps hs)
unfolding course happens
course-IsStopping [] p n h = ground arith
course-IsStopping (goes_on a broken ∷ hs) p n h =
    let later =
      course-IsStopping hs (main_step a broken p.phase p) (n - 1)
        (main_step-IsStopping a broken p.phase p n refl h) in
    ground (arith, later)
course-IsStopping (signal ∷ hs) p n h =
    course-IsStopping hs (handle_signal p) n (handle_signal-IsStopping p n h)

-- The signal handler reaches the server from the set-up to the end of the loop.
abbrev has_published : Phase → Bool
has_published setting_up = true
has_published looping = true
has_published cleaning = true
has_published _ = false

abbrev IsPublished : Process → Type 0
IsPublished p = p.has_server ≡ has_published p.phase

main_step-IsPublished :
    (a : Answers) (broken : Bool) (f : Phase) (p : Process)
    → p.phase ≡ f
    → IsPublished p
    → IsPublished (main_step a broken f p)
unfolding main_step
main_step-IsPublished a broken looping p e h = ground arith
main_step-IsPublished a broken f p e h = ground arith

course-IsPublished : (hs : List Happening) (p : Process) → IsPublished p → IsPublished (course hs p)
unfolding course happens handle_signal
course-IsPublished [] p h = h
course-IsPublished (goes_on a broken ∷ hs) p h =
    course-IsPublished hs (main_step a broken p.phase p)
      (main_step-IsPublished a broken p.phase p refl h)
course-IsPublished (signal ∷ hs) p h = course-IsPublished hs (handle_signal p) (ground arith)

rank-finished : (f : Phase) → rank f ≤ 0 → f ≡ finished
rank-finished finished h = refl
rank-finished f h = absurd (omega arith)

signalled : (p : Process) → p.phase ≡ looping → IsPublished p → IsStopping (handle_signal p) 2
unfolding handle_signal
signalled p e h = ground arith

-- Wherever the signals before it came in, a signal that arrives while the server loops ends `main`
-- after two steps more, that of the loop which is under way and the cleanup, whatever the kernel
-- answers and whatever signals follow.
pub signal_finishes :
    (es hs : List Happening)
    → (course es announced).phase ≡ looping
    → 2 ≤ steps hs
    → (course hs (happens signal (course es announced))).phase ≡ finished
unfolding happens
signal_finishes es hs e k =
    let published = course-IsPublished es announced (unfold announced in refl) in
    let p = handle_signal (course es announced) in
    let stopping = course-IsStopping hs p 2 (signalled (course es announced) e published) in
    rank-finished (course hs p).phase (omega (arith, stopping.0))

set_up-running :
    (a : Answers) (l : Listener) → (set_up a idle).running ≡ true → (set_up a l).running ≡ true
unfolding set_up
set_up-running a l h = ground arith

main_step_loops :
    (a : Answers) (broken : Bool) (f : Phase) (p : Process)
    → f ≡ looping
    → p.listener.running ≡ true
    → broken ≡ false
    → ((main_step a broken f p).phase ≡ looping)
      × ((main_step a broken f p).listener.running ≡ true)
unfolding main_step
main_step_loops a broken looping p e l b = ground arith
main_step_loops a broken f p e l b = cc

sets_up :
    (a : Answers) (broken : Bool) (f : Phase) (p : Process)
    → f ≡ setting_up
    → (set_up a idle).running ≡ true
    → ((main_step a broken f p).phase ≡ looping)
      × ((main_step a broken f p).listener.running ≡ true)
unfolding main_step
sets_up a broken setting_up p e up = ground (arith, set_up-running a p.listener up)
sets_up a broken f p e up = cc

loops_on :
    (hs : List Happening) (p : Process)
    → p.phase ≡ looping
    → p.listener.running ≡ true
    → IsQuiet hs
    → (course hs p).phase ≡ looping
unfolding course happens
loops_on [] p e l q = e
loops_on (goes_on a broken ∷ hs) p e l q =
    let (phase, running) = main_step_loops a broken p.phase p e l q.0 in
    loops_on hs (main_step a broken p.phase p) phase running q.1
loops_on (signal ∷ hs) p e l q = elim q [ ]

-- Whatever signals come in before the set-up of the server is over, once that succeeds, `main` loops
-- on until another signal comes or `epoll_wait` fails.
pub early_signal_lost :
    (es hs : List Happening) (a : Answers) (broken : Bool)
    → (course es announced).phase ≡ setting_up
    → (set_up a idle).running ≡ true
    → IsQuiet hs
    → (course (goes_on a broken ∷ hs) (course es announced)).phase ≡ looping
unfolding course happens
early_signal_lost es hs a broken e up q =
    let p = course es announced in
    let (phase, running) = sets_up a broken p.phase p e up in
    loops_on hs (main_step a broken p.phase p) phase running q
