-- ===== src/Io/Locks/Invariant.antt =====
-- What the places of the threads say of the locks of the event handler in libusb/libusb/io.c.
use zerousb.Prelude.{ℕ, zero, suc, ◌+◌, ◌≡◌, ◌≤◌, Bool, true, false, Option, none, some, ◌==◌}
use zerousb.Io.Locks.{
  Pc, idle, set_active, handling, releasing, broadcasting, signalling, look_close, look_active,
  retrying, to_wait, waiting, leaving, close_wait, close_active, closing, close_done, System,
}

-- Where a thread has the lock of the event handler.
abbrev pub has_events : Pc → Bool
has_events p = elim p [
  | set_active ↦ true
  | handling ↦ true
  | releasing ↦ true
  | close_active ↦ true
  | closing ↦ true
  | close_done ↦ true
  | other ↦ false
]

abbrev pub has_waiters : Pc → Bool
has_waiters p = elim p [
  | signalling ↦ true
  | look_close ↦ true
  | look_active ↦ true
  | retrying ↦ true
  | to_wait ↦ true
  | leaving ↦ true
  | other ↦ false
]

-- Where event_handler_active is set.
abbrev pub is_active : Pc → Bool
is_active p = elim p [ handling ↦ true | closing ↦ true | close_done ↦ true | other ↦ false ]

-- Where the thread is counted in device_close.
abbrev pub closes : Pc → ℕ
closes p = elim p [ close_wait ↦ 1 | close_active ↦ 1 | closing ↦ 1 | other ↦ 0 ]

-- Where the thread will still wake all that wait.
abbrev pub will_wake : Pc → Bool
will_wake p = elim p [
  | handling ↦ true
  | releasing ↦ true
  | broadcasting ↦ true
  | signalling ↦ true
  | close_wait ↦ true
  | close_active ↦ true
  | closing ↦ true
  | close_done ↦ true
  | other ↦ false
]

-- Where the thread waits, or has made up its mind to.
abbrev pub waits_now : Pc → Bool
waits_now p = elim p [ to_wait ↦ true | waiting ↦ true | other ↦ false ]

abbrev pub owns : ℕ → Option ℕ → Bool
owns i none = false
owns i (some j) = i == j

abbrev pub total : ℕ → (ℕ → Pc) → ℕ
total zero pc = 0
total (suc n) pc = closes (pc n) + total n pc

-- The places agree with the locks, with event_handler_active and with device_close; and where a thread
-- waits, there is one that will wake it.
pub record IsSound (n : ℕ) (s : System) : Type 0 where
  pub events_lem : (j : ℕ) → has_events (s.pc j) ≡ owns j s.shared.events_lock
  pub waiters_lem : (j : ℕ) → has_waiters (s.pc j) ≡ owns j s.shared.waiters_lock
  pub active_lem :
      (j : ℕ) → has_events (s.pc j) ≡ true → is_active (s.pc j) ≡ s.shared.event_handler_active
  pub free_lem : s.shared.events_lock ≡ none → s.shared.event_handler_active ≡ false
  pub close_lem : s.shared.device_close ≡ total n s.pc
  pub outside_lem : (j : ℕ) → n ≤ j → s.pc j ≡ idle
  pub wake_lem : (j : ℕ) → waits_now (s.pc j) ≡ true → (k : ℕ) × (will_wake (s.pc k) ≡ true)
