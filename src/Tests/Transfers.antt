-- ===== src/Tests/Transfers.antt =====
-- One transfer in flight, or none, through libusb/libusb/io.c.
use zerousb.Prelude.{◌≡◌, refl, Bool, true, false, none, [], ◌∷◌, arith, ◌==◌}
use zerousb.Usb.{ok}
use zerousb.Io.Time.{TimeSpec, timeval_of}
use zerousb.Io.Transfer.{completed, Transfer, Context}
use zerousb.Io.Lifecycle.{
  Answers, submit_transfer, final_status, handle_transfer_completion, handle_timeouts,
}
use zerousb.Io.Lifecycle.Invariant.{IsValid}
use zerousb.Io.Lifecycle.Submit.{Submitted, submit_transfer-Submitted}
use zerousb.Io.Lifecycle.Complete.{Seen, Dropped, handle_transfer_completion-Seen}
use zerousb.Io.Lifecycle.Timeouts.{TimedOut, handle_timeouts-settled}

-- A bulk transfer of 64 bytes with a timeout of 100 ms.
abbrev bulk : Bool → Transfer
bulk flying = record {
  timeout = record { sec = 5; usec = 100000 };
  transferred = 64;
  in_flight = flying;
  cancelling = false;
  device_disappeared = false;
  os_handles_timeout = false;
  timeout_handled = false;
  has_timed_out = false;
  dev_handle = 0;
  device = 0;
  short_not_ok = true;
  is_control = false;
  timeout_ms = 100;
  length = 64;
  status = completed;
  actual_length = 0;
}

abbrev idle : Context
idle = record {
  flying = [];
  store = λ id. bulk false;
  using_timerfd = true;
  armed = none;
  refs = λ dev. 1;
}

abbrev one_flying : Context
one_flying = record idle { flying = 1 ∷ []; store = λ id. bulk (id == 1) }

idle-IsValid : IsValid idle
idle-IsValid = record { distinct = tt; sorted = tt; listed = λ id. refl }

one_flying-IsValid : IsValid one_flying
one_flying-IsValid = record {
  distinct = (refl, tt);
  sorted = (tt, tt);
  listed = λ id. ground arith;
}

abbrev now : TimeSpec
now = record { sec = 5; nsec = 0 }

abbrev working : Answers
working = record { clock = ok now; timer_works = true; submitted = ok tt }

submit_transfer-Submitted_example : Submitted working 1 idle (submit_transfer working 1 idle)
submit_transfer-Submitted_example = submit_transfer-Submitted working 1 idle idle-IsValid

abbrev resubmit : Context → Context
resubmit ctx = ctx

handle_transfer_completion-Seen_example :
    (seen : Context) × Seen 1 completed one_flying seen
    × Dropped 0 (resubmit seen) (handle_transfer_completion true resubmit 1 completed one_flying).1
handle_transfer_completion-Seen_example =
    handle_transfer_completion-Seen true resubmit 1 completed one_flying one_flying-IsValid

bulk-completed : final_status (bulk true) completed ≡ completed
unfolding final_status
bulk-completed = refl

-- Ten seconds, when the deadline of 5.1 seconds has passed.
abbrev late : TimeSpec
late = record { sec = 10; nsec = 0 }

handle_timeouts-settled_example :
    let (r, ctx') = handle_timeouts (ok late) (λ id. ok tt) one_flying in
    (r ≡ ok tt) × TimedOut (timeval_of late) (λ id. ok tt) one_flying ctx'
handle_timeouts-settled_example =
    handle_timeouts-settled late (λ id. ok tt) one_flying one_flying-IsValid
