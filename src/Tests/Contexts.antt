-- ===== src/Tests/Contexts.antt =====
-- Contexts, the locks of the event handler and the descriptors of a context in libusb/libusb.
use zerousb.Prelude.{ℕ, refl, true, false, none, some, [], ◌∷◌, arith, Option}
use zerousb.Usb.{Result, ok}
use zerousb.Core.Devices.{Context}
use zerousb.Core.Contexts
use zerousb.Core.Contexts.{Globals, init, exit, get_context}
use zerousb.Core.Contexts.Uses.Defs.{Uses, Represents}
use zerousb.Core.Contexts.Reach.{
  uses_after, at_start, start, then_init, Exits, reachable_contexts-Represents,
}
use zerousb.Io.Setup
use zerousb.Io.Setup.{Io, Fresh, Balanced, io_init, io_init-Balanced}
use zerousb.Io.Events.Signal.{initial}
use zerousb.Io.Transfer.{Transfer, completed}
use zerousb.Io.Handling
use zerousb.Io.Handling.{State, ready, handle_events}
use zerousb.Io.Handling.Round.{IsRound, handle_events-IsRound}
use zerousb.Io.Locks
use zerousb.Io.Locks.{System, moves, here, then_step}
use zerousb.Io.Locks.Safety.{AreSafe, reachable_locks-AreSafe}

-- A pipe, and a timer whose entry is refused.
abbrev no_timer_entry : Setup.Answers
no_timer_entry = record {
  pipe = some (5, 6);
  pipe_entry = true;
  timer = some 7;
  timer_entry = false;
}

no_timer_entry-Fresh : Fresh no_timer_entry
no_timer_entry-Fresh p e = ground (arith, e)

io_init-Balanced_example : Balanced (3 ∷ []) (io_init no_timer_entry (3 ∷ []))
io_init-Balanced_example = io_init-Balanced no_timer_entry (3 ∷ []) no_timer_entry-Fresh

abbrev no_devices : ℕ → Context
no_devices j = record {
  has_hotplug = true;
  usb_devs = [];
  devices = λ d. record { session_data = 0; port_number = 0; ancestors = [] };
  refcnt = λ d. 0;
  gone = [];
}

abbrev no_io : ℕ → Io
no_io j = record { event_pipe = (0, 0); timerfd = none; events = initial; fds = [] }

-- Memory at address 16, a backend that finds nothing, and a pipe without a timer.
abbrev all_granted : Contexts.Answers
all_granted = record {
  calloc = some 16;
  backend_init = λ ctx. (none, ctx);
  io = record { pipe = some (5, 6); pipe_entry = true; timer = none; timer_entry = false };
}

abbrev first_init : Result ℕ × Globals
first_init = init false all_granted (at_start no_devices no_io)

abbrev first_uses : Uses
first_uses = uses_after (λ c. 0) first_init.0

reachable_contexts-Represents_example :
    Represents first_uses first_init.1
    × ((ctx : Option ℕ) → Exits first_uses (get_context ctx first_init.1) (exit ctx first_init.1))
reachable_contexts-Represents_example = reachable_contexts-Represents first_uses first_init.1 (
    then_init (λ c. 0) (at_start no_devices no_io) false all_granted (start no_devices no_io)
      (λ c e. refl))

-- Thread 1 of two starts to close a device.
abbrev one_closes : System
one_closes = record {
  pc = Locks.set_pc 1 Locks.close_wait (λ j. Locks.idle);
  shared = record {
    events_lock = none;
    waiters_lock = none;
    event_handler_active = false;
    device_close = 1;
  };
}

reachable_locks-AreSafe_example : AreSafe 2 one_closes
reachable_locks-AreSafe_example = reachable_locks-AreSafe 2 one_closes (
    then_step Locks.at_start one_closes here
      (moves 1 Locks.idle Locks.close_wait one_closes.shared (omega arith) refl Locks.start_close))

abbrev blank : Transfer
blank = record {
  timeout = record { sec = 0; usec = 0 };
  transferred = 0;
  in_flight = false;
  cancelling = false;
  device_disappeared = false;
  os_handles_timeout = false;
  timeout_handled = false;
  has_timed_out = false;
  dev_handle = 0;
  device = 0;
  short_not_ok = false;
  is_control = false;
  timeout_ms = 0;
  length = 0;
  status = completed;
  actual_length = 0;
}

-- The event pipe and one file of the backend's are polled, and both have events.
abbrev between_rounds : State
between_rounds = record {
  events = record initial {
    ipollfds = record { fd = 5; events = 1 } ∷ record { fd = 8; events = 4 } ∷ [];
    pollfds_cnt = 2;
    pollfds_modified = true;
    pipe = 1;
  };
  transfers = record {
    flying = [];
    store = λ id. blank;
    using_timerfd = false;
    armed = none;
    refs = λ d. 0;
  };
  handling = false;
}

abbrev both_ready : Handling.Answers
both_ready = record {
  calloc = true;
  poll = λ fds. ready (true ∷ true ∷ []);
  complete = λ id t. (none, t);
  clock = ok (record { sec = 0; nsec = 0 });
  cancels = λ id. ok tt;
  timer_works = true;
  backend = λ fds revents r. none;
}

handle_events-IsRound_example :
    IsRound false both_ready between_rounds (handle_events both_ready between_rounds)
handle_events-IsRound_example =
    handle_events-IsRound both_ready between_rounds (λ e. cc) (omega arith) (refl, omega arith)
      (λ id t. refl)
