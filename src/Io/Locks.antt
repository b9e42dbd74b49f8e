-- ===== src/Io/Locks.antt =====
-- The lock of the event handler and the waiting for it in libusb/libusb/io.c
-- (`libusb_handle_events_timeout_completed`, `libusb_try_lock_events`, `libusb_lock_events`,
-- `libusb_unlock_events`, `libusb_event_handler_active`, `libusb_wait_for_event`) and in `libusb_close` of
-- libusb/libusb/core.c, for any number of threads. Each access to the shared state is a step of its own.
pub mod Invariant
pub mod Moves
pub mod Safety
pub mod Steps
use zerousb.Prelude.{
  ℕ, ◌+◌, ◌-◌, ◌≡◌, ◌≢◌, ◌<◌, Bool, true, false, Option, none, some, if◌then◌else◌, ◌==◌,
}

-- Where a thread is:
--   `idle`: in none of these functions;
--   `try_check`, `try_lock`, `set_active`: in libusb_try_lock_events, before device_close is read, before
--   the lock is tried, and with the lock;
--   `handling`: between the lock and libusb_unlock_events;
--   `releasing`, `broadcasting`, `signalling`: in libusb_unlock_events, before the lock is given up, before
--   event_waiters_lock is taken, and with it;
--   `lock_waiters`: before event_waiters_lock is taken to wait; `look_close` and `look_active`: with it,
--   in libusb_event_handler_active; `retrying`: before it is given up to try again; `to_wait`: before the
--   wait for the condition; `waiting`: in it; `woken`: before event_waiters_lock is taken again;
--   `leaving`: with it, before the return;
--   `close_wait`, `close_active`: in libusb_close, before the lock is taken, and with it; `closing`: in
--   do_close; `close_done`: after device_close was counted down.
pub data Pc : Type 0 where
  idle try_check try_lock set_active handling releasing broadcasting signalling : Pc
  lock_waiters look_close look_active retrying to_wait waiting woken leaving : Pc
  close_wait close_active closing close_done : Pc

-- The owners of `events_lock` and `event_waiters_lock`, and two fields of the context.
pub record Shared : Type 0 where
  pub events_lock : Option ℕ
  pub waiters_lock : Option ℕ
  pub event_handler_active : Bool
  pub device_close : ℕ

abbrev pub lock_events : ℕ → Shared → Shared
lock_events i s = record s { events_lock = some i }

abbrev pub unlock_events : Shared → Shared
unlock_events s = record s { events_lock = none }

abbrev pub lock_waiters_of : ℕ → Shared → Shared
lock_waiters_of i s = record s { waiters_lock = some i }

abbrev pub unlock_waiters : Shared → Shared
unlock_waiters s = record s { waiters_lock = none }

abbrev pub set_handler_active : Bool → Shared → Shared
set_handler_active b s = record s { event_handler_active = b }

-- A step of a thread that leaves the other threads where they are.
pub data Move (i : ℕ) (s : Shared) : Pc → Pc → Shared → Type 0 where
  start : Move i s Pc.idle Pc.try_check s
  start_close : Move i s Pc.idle Pc.close_wait (record s { device_close = s.device_close + 1 })
  -- libusb_try_lock_events
  busy_close : s.device_close ≢ 0 → Move i s Pc.try_check Pc.lock_waiters s
  no_close : s.device_close ≡ 0 → Move i s Pc.try_check Pc.try_lock s
  try_fails : s.events_lock ≢ none → Move i s Pc.try_lock Pc.lock_waiters s
  try_locks : s.events_lock ≡ none → Move i s Pc.try_lock Pc.set_active (lock_events i s)
  activates : Move i s Pc.set_active Pc.handling (set_handler_active true s)
  -- libusb_unlock_events
  deactivates : Move i s Pc.handling Pc.releasing (set_handler_active false s)
  releases : Move i s Pc.releasing Pc.broadcasting (unlock_events s)
  before_broadcast :
      s.waiters_lock ≡ none → Move i s Pc.broadcasting Pc.signalling (lock_waiters_of i s)
  -- Another thread has the lock, or a device is being closed.
  locks_waiters :
      s.waiters_lock ≡ none → Move i s Pc.lock_waiters Pc.look_close (lock_waiters_of i s)
  already_done : Move i s Pc.look_close Pc.leaving s
  sees_close : s.device_close ≢ 0 → Move i s Pc.look_close Pc.to_wait s
  sees_no_close : s.device_close ≡ 0 → Move i s Pc.look_close Pc.look_active s
  sees_active : s.event_handler_active ≡ true → Move i s Pc.look_active Pc.to_wait s
  sees_inactive : s.event_handler_active ≡ false → Move i s Pc.look_active Pc.retrying s
  retries : Move i s Pc.retrying Pc.try_check (unlock_waiters s)
  -- libusb_wait_for_event, which may also end by its time or for no reason.
  waits : Move i s Pc.to_wait Pc.waiting (unlock_waiters s)
  times_out : Move i s Pc.waiting Pc.woken s
  locks_again : s.waiters_lock ≡ none → Move i s Pc.woken Pc.leaving (lock_waiters_of i s)
  leaves : Move i s Pc.leaving Pc.idle (unlock_waiters s)
  -- libusb_close outside of event handling
  close_locks : s.events_lock ≡ none → Move i s Pc.close_wait Pc.close_active (lock_events i s)
  close_activates : Move i s Pc.close_active Pc.closing (set_handler_active true s)
  closed : Move i s Pc.closing Pc.close_done (record s { device_close = s.device_close - 1 })
  close_deactivates : Move i s Pc.close_done Pc.releasing (set_handler_active false s)

pub record System : Type 0 where
  pub pc : ℕ → Pc
  pub shared : Shared

abbrev pub set_pc : ℕ → Pc → (ℕ → Pc) → ℕ → Pc
set_pc i p pc j = if j == i then p else pc j

-- usbi_cond_broadcast, for one thread.
abbrev pub wake : Pc → Pc
wake p = elim p [ waiting ↦ Pc.woken | other ↦ other ]

-- A step of one of `n` threads. The broadcast wakes all that wait, and the lock of the waiters is given
-- up.
pub data Step (n : ℕ) (s : System) : System → Type 0 where
  moves :
      (i : ℕ) (p q : Pc) (t : Shared)
      → i < n
      → s.pc i ≡ p
      → Move i s.shared p q t
      → Step n s (record { pc = set_pc i q s.pc; shared = t })
  broadcasts :
      (i : ℕ)
      → i < n
      → s.pc i ≡ Pc.signalling
      → Step n s
          (record { pc = λ j. wake (set_pc i Pc.idle s.pc j); shared = unlock_waiters s.shared })

pub data Reach (n : ℕ) (s : System) : System → Type 0 where
  here : Reach n s s
  then_step : (a b : System) → Reach n s a → Step n a b → Reach n s b

-- All threads are outside, and nothing is locked.
abbrev pub at_start : System
at_start = record {
  pc = λ j. Pc.idle;
  shared = record {
    events_lock = none;
    waiters_lock = none;
    event_handler_active = false;
    device_close = 0;
  };
}
