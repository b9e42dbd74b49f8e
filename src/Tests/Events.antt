-- ===== src/Tests/Events.antt =====
-- Events and waiting in libusb/libusb/io.c and libusb/libusb/sync.c.
use zerousb.Prelude.{ℕ, zero, suc, ◌≢◌, refl, true, false, none, some, [], ◌∷◌, arith, ◌==◌}
use zerousb.Usb.{Success, success, Result, ok, err, no_device, interrupted}
use zerousb.Io.Time.{TimeVal, TimeSpec, timeval_of}
use zerousb.Io.Time.Deadline.{micros}
use zerousb.Io.Transfer.{completed, Transfer, Context}
use zerousb.Io.Flying.{next_timeout}
use zerousb.Io.Lifecycle.Invariant.{IsValid}
use zerousb.Io.Events.{EventData, notify_hotplug, begin_take, begin_close}
use zerousb.Io.Events.Signal.{
  System, system, IsSignalled, start, then_step, hotplug, take, close, initial,
  reachable-IsSignalled,
}
use zerousb.Io.Disconnect.{handle_disconnect}
use zerousb.Io.Disconnect.Drained.{Drains, handle_disconnect-IsDrained}
use zerousb.Io.Upcoming.{get_next_timeout}
use zerousb.Io.Upcoming.Wait.{Waits, get_next_timeout-Waits}
use zerousb.Sync.Wait.{Shared, Env}
use zerousb.Sync.Transfer.{Request, Setup, control_transfer, do_sync_bulk_transfer}
use zerousb.Sync.Calls.{Returns, ToldByValue, ToldAside, synchronous_calls-Returns}

-- The handler takes out a hotplug message while a device is being closed.
abbrev plugged : EventData
plugged = notify_hotplug 7 initial

plugged-pipe : plugged.pipe ≢ 0
unfolding notify_hotplug
plugged-pipe e = absurd (omega arith)

abbrev closing : System
closing = system (some none) (begin_close (begin_take plugged).1)

reachable-IsSignalled_example : IsSignalled closing
reachable-IsSignalled_example = reachable-IsSignalled closing (
    then_step (then_step (then_step start (hotplug none initial 7)) (take plugged plugged-pipe))
      (close (some none) (begin_take plugged).1))

-- An interrupt transfer of one second, in flight or not.
abbrev interrupt_transfer : ℕ → Transfer
interrupt_transfer id = record {
  timeout = record { sec = 8; usec = 0 };
  transferred = 0;
  in_flight = id == 1;
  cancelling = false;
  device_disappeared = false;
  os_handles_timeout = false;
  timeout_handled = false;
  has_timed_out = false;
  dev_handle = 3;
  device = 0;
  short_not_ok = false;
  is_control = false;
  timeout_ms = 1000;
  length = 8;
  status = completed;
  actual_length = 0;
}

abbrev one_flying : Context
one_flying = record {
  flying = 1 ∷ [];
  store = interrupt_transfer;
  using_timerfd = false;
  armed = none;
  refs = λ dev. 2;
}

one_flying-IsValid : IsValid one_flying
one_flying-IsValid = record {
  distinct = (refl, tt);
  sorted = (tt, tt);
  listed = λ id. ground arith;
}

abbrev ignore : ℕ → Context → Context
ignore id ctx = ctx

handle_disconnect-IsDrained_example : Drains 3 (handle_disconnect 2 true ignore 3 one_flying)
handle_disconnect-IsDrained_example =
    handle_disconnect-IsDrained 2 true ignore 3 one_flying
      (λ id. record { valid = λ c v. v; no_more = λ c v. omega arith }) one_flying-IsValid
      (omega arith)

abbrev now : TimeSpec
now = record { sec = 7; nsec = 500000000 }

abbrev minute : TimeVal
minute = record { sec = 60; usec = 0 }

get_next_timeout-Waits_example :
    Waits
      (micros (timeval_of now))
      minute
      (next_timeout one_flying.store one_flying.flying)
      (get_next_timeout (ok now) minute one_flying)
get_next_timeout-Waits_example =
    get_next_timeout-Waits now minute one_flying refl one_flying-IsValid.sorted (omega arith, tt)
      (omega arith) (omega arith)

-- Event handling that is interrupted at first and completes the transfer then.
abbrev completes_second : ℕ → Shared → Result Success × Shared
completes_second zero sh = (err interrupted, sh)
completes_second (suc k) sh = (ok success, record sh { completed = true })

abbrev env : Env
env = record {
  handling_events = false;
  transfer_granted = true;
  buffer_granted = true;
  stale = [];
  submission = record { clock = ok now; timer_works = true; submitted = ok tt };
  handle_events = completes_second;
  cancellation = λ k. err no_device;
}

abbrev asked : Request
asked = record { dev_handle = 3; device = 0; id = 2; timeout_ms = 100 }

abbrev get_status : Setup
get_status = record { bm_request_type = 128; b_request = 0; w_value = 0; w_index = 0; w_length = 2 }

abbrev before : Shared
before = record { ctx = one_flying; completed = false; buffer = [] }

synchronous_calls-Returns_example :
    Returns env 2 []
      (ToldByValue 2)
      (control_transfer 3 env asked get_status (0 ∷ 0 ∷ []) before [])
    × Returns env 2 [] (ToldAside 2) (do_sync_bulk_transfer 3 env asked 2 (0 ∷ 0 ∷ []) before [])
synchronous_calls-Returns_example =
    synchronous_calls-Returns 3 1 env asked get_status 2 (0 ∷ 0 ∷ []) before [] (λ s. refl)
      (omega arith)
