-- ===== src/Io/Locks/Moves.antt =====
-- What a step of one thread in libusb/libusb/io.c changes, of the locks and of the places.
use zerousb.Prelude.{ℕ, ◌+◌, ◌≡◌, ◌≢◌, ◌≤◌, ◌⊎◌, refl, true, false, none, ◌==◌, arith, inl, inr}
use zerousb.Io.Locks.{
  Pc, Shared, Move, start, try_fails, try_locks, before_broadcast, locks_waiters, sees_close,
  sees_active, waits, locks_again, close_locks,
}
use zerousb.Io.Locks.Invariant.{
  has_events, has_waiters, is_active, closes, will_wake, waits_now, owns,
}

pub Move-has_events :
    {i : ℕ} {s : Shared} {p q : Pc} {t : Shared}
    → Move i s p q t
    → has_events p ≡ owns i s.events_lock
    → has_events q ≡ owns i t.events_lock
Move-has_events start h = ground arith
Move-has_events _ h = ground arith

-- The lock of any other thread is left alone.
pub Move-other_events :
    {i : ℕ} {s : Shared} {p q : Pc} {t : Shared}
    → Move i s p q t
    → has_events p ≡ owns i s.events_lock
    → (j : ℕ) → (j == i) ≡ false
    → owns j t.events_lock ≡ owns j s.events_lock
Move-other_events (try_locks g) h j e = ground arith
Move-other_events (close_locks g) h j e = ground arith
Move-other_events _ h j e = ground arith

pub Move-has_waiters :
    {i : ℕ} {s : Shared} {p q : Pc} {t : Shared}
    → Move i s p q t
    → has_waiters p ≡ owns i s.waiters_lock
    → has_waiters q ≡ owns i t.waiters_lock
Move-has_waiters start h = ground arith
Move-has_waiters _ h = ground arith

pub Move-other_waiters :
    {i : ℕ} {s : Shared} {p q : Pc} {t : Shared}
    → Move i s p q t
    → has_waiters p ≡ owns i s.waiters_lock
    → (j : ℕ) → (j == i) ≡ false
    → owns j t.waiters_lock ≡ owns j s.waiters_lock
Move-other_waiters (before_broadcast g) h j e = ground arith
Move-other_waiters (locks_waiters g) h j e = ground arith
Move-other_waiters (locks_again g) h j e = ground arith
Move-other_waiters _ h j e = ground arith

pub Move-is_active :
    {i : ℕ} {s : Shared} {p q : Pc} {t : Shared}
    → Move i s p q t
    → (has_events p ≡ true → is_active p ≡ s.event_handler_active)
    → (s.events_lock ≡ none → s.event_handler_active ≡ false)
    → has_events q ≡ true
    → is_active q ≡ t.event_handler_active
Move-is_active (try_locks g) h f e = ground arith
Move-is_active (close_locks g) h f e = ground arith
Move-is_active _ h f e = ground arith

-- Only a thread with the lock sets event_handler_active.
pub Move-other_active :
    {i : ℕ} {s : Shared} {p q : Pc} {t : Shared}
    → Move i s p q t
    → has_events p ≡ false
    → t.event_handler_active ≡ s.event_handler_active
Move-other_active start h = ground arith
Move-other_active _ h = ground arith

pub Move-free :
    {i : ℕ} {s : Shared} {p q : Pc} {t : Shared}
    → Move i s p q t
    → has_events p ≡ owns i s.events_lock
    → (has_events p ≡ true → is_active p ≡ s.event_handler_active)
    → (s.events_lock ≡ none → s.event_handler_active ≡ false)
    → t.events_lock ≡ none
    → t.event_handler_active ≡ false
Move-free (try_fails g) h a f e = ground arith
Move-free _ h a f e = ground arith

pub Move-closes :
    {i : ℕ} {s : Shared} {p q : Pc} {t : Shared}
    → Move i s p q t
    → closes p ≤ s.device_close
    → t.device_close + closes p ≡ s.device_close + closes q
Move-closes start h = ground arith
Move-closes _ h = ground arith

pub Move-will_wake :
    {i : ℕ} {s : Shared} {p q : Pc} {t : Shared}
    → Move i s p q t
    → will_wake p ≡ true
    → will_wake q ≡ true
Move-will_wake start h = ground arith
Move-will_wake _ h = ground arith

-- A thread makes up its mind to wait only where it sees that a device is closed or events are handled.
pub Move-waits_now :
    {i : ℕ} {s : Shared} {p q : Pc} {t : Shared}
    → Move i s p q t
    → waits_now q ≡ true
    → (waits_now p ≡ true) ⊎ ((s.device_close ≢ 0) ⊎ (s.event_handler_active ≡ true))
Move-waits_now (sees_close g) h = inr (inl g)
Move-waits_now (sees_active g) h = inr (inr g)
Move-waits_now waits h = inl refl
Move-waits_now _ h = ground arith
