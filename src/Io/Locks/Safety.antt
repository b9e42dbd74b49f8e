-- ===== src/Io/Locks/Safety.antt =====
-- Who can go on while threads wait for the event handler of libusb/libusb/io.c, and the theorem on its
-- locks.
use zerousb.Prelude.{
  ℕ, ◌≡◌, ◌↔◌, ◌∙◌, ◌≢◌, ◌<◌, ◌⊎◌, refl, sym, ap, subst, true, none, ◌==◌, arith, Bool-cases, inl,
  inr, ltb, Option-cases,
}
use zerousb.Io.Locks.{
  Pc, idle, set_active, handling, releasing, broadcasting, signalling, look_close, look_active,
  retrying, to_wait, waiting, leaving, close_wait, close_active, closing, close_done, Shared,
  lock_events, lock_waiters_of, Move, activates, deactivates, releases, before_broadcast,
  already_done, sees_active, sees_inactive, retries, waits, leaves, close_locks, close_activates,
  closed, close_deactivates, System,
}
use zerousb.Io.Locks.{Reach, at_start}
use zerousb.Io.Locks.Invariant.{
  has_events, has_waiters, is_active, will_wake, waits_now, total, IsSound,
}
use zerousb.Io.Locks.Steps.{owns-other, Reach-IsSound}

-- A step of the thread is there, or it can broadcast.
abbrev pub Able : ℕ → Shared → Pc → Type 0
Able i s p = ((q : Pc) × (t : Shared) × Move i s p q t) ⊎ (p ≡ signalling)

Able-has_events : (i : ℕ) (s : Shared) (p : Pc) → has_events p ≡ true → Able i s p
Able-has_events i s set_active h = inl (_, _, activates)
Able-has_events i s handling h = inl (_, _, deactivates)
Able-has_events i s releasing h = inl (_, _, releases)
Able-has_events i s close_active h = inl (_, _, close_activates)
Able-has_events i s closing h = inl (_, _, closed)
Able-has_events i s close_done h = inl (_, _, close_deactivates)
Able-has_events i s _ h = cc

Able-has_waiters : (i : ℕ) (s : Shared) (p : Pc) → has_waiters p ≡ true → Able i s p
Able-has_waiters i s signalling h = inr refl
Able-has_waiters i s look_close h = inl (_, _, already_done)
Able-has_waiters i s look_active h = elim (Bool-cases s.event_handler_active) [
  | inl e ↦ inl (_, _, sees_active e)
  | inr e ↦ inl (_, _, sees_inactive e)
]
Able-has_waiters i s retrying h = inl (_, _, retries)
Able-has_waiters i s to_wait h = inl (_, _, waits)
Able-has_waiters i s leaving h = inl (_, _, leaves)
Able-has_waiters i s _ h = cc

has_events-ne : (p : Pc) → has_events p ≡ true → (p ≢ waiting) × (p ≢ idle)
has_events-ne p h = (λ e. let f = ap has_events e in cc, λ e. let f = ap has_events e in cc)

has_waiters-ne : (p : Pc) → has_waiters p ≡ true → (p ≢ waiting) × (p ≢ idle)
has_waiters-ne p h = (λ e. let f = ap has_waiters e in cc, λ e. let f = ap has_waiters e in cc)

will_wake-ne : (p : Pc) → will_wake p ≡ true → (p ≢ waiting) × (p ≢ idle)
will_wake-ne p h = (λ e. let f = ap will_wake e in cc, λ e. let f = ap will_wake e in cc)

-- One of the threads, which does not wait for the condition, can go on.
abbrev pub GoesOn : ℕ → System → Type 0
GoesOn n s = (m : ℕ) × (m < n) × (s.pc m ≢ waiting) × Able m s.shared (s.pc m)

goes_on :
    (n : ℕ) (s : System) (m : ℕ)
    → IsSound n s
    → (s.pc m ≢ waiting) × (s.pc m ≢ idle)
    → Able m s.shared (s.pc m)
    → GoesOn n s
goes_on n s m v (w, i) a = elim (Bool-cases (ltb m n)) [
  | inl e ↦ (m, ground arith, w, a)
  | inr e ↦ absurd (i (v.outside_lem m (ground arith)))
]

owner-GoesOn : (n : ℕ) (s : System) (j : ℕ) → IsSound n s → has_events (s.pc j) ≡ true → GoesOn n s
owner-GoesOn n s j v h =
    goes_on n s j v (has_events-ne (s.pc j) h) (Able-has_events j s.shared (s.pc j) h)

-- Its owner goes on where the lock is taken.
events-GoesOn :
    (n : ℕ) (s : System) → IsSound n s → (s.shared.events_lock ≡ none → GoesOn n s) → GoesOn n s
events-GoesOn n s v f = elim (Option-cases s.shared.events_lock) [
  | inl e ↦ f e
  | inr (j, e) ↦ owner-GoesOn n s j v (ground (arith, v.events_lem j))
]

waiters-GoesOn :
    (n : ℕ) (s : System) → IsSound n s → (s.shared.waiters_lock ≡ none → GoesOn n s) → GoesOn n s
waiters-GoesOn n s v f = elim (Option-cases s.shared.waiters_lock) [
  | inl e ↦ f e
  | inr (j, e) ↦
      let h : has_waiters (s.pc j) ≡ true = ground (arith, v.waiters_lem j) in
      goes_on n s j v (has_waiters-ne (s.pc j) h) (Able-has_waiters j s.shared (s.pc j) h)
]

will_wake-GoesOn :
    (n : ℕ) (s : System) (k : ℕ) (p : Pc)
    → IsSound n s
    → s.pc k ≡ p
    → will_wake p ≡ true
    → GoesOn n s
will_wake-GoesOn n s k broadcasting v e h = waiters-GoesOn n s v (λ f.
    goes_on n s k v (will_wake-ne (s.pc k) (rw e refl)) (
      inl (
        _,
        _,
        subst (λ x. Move k s.shared x signalling (lock_waiters_of k s.shared)) (sym e)
            (before_broadcast f),
      )))
will_wake-GoesOn n s k close_wait v e h = events-GoesOn n s v (λ f.
    goes_on n s k v (will_wake-ne (s.pc k) (rw e refl)) (
      inl (
        _,
        _,
        subst (λ x. Move k s.shared x close_active (lock_events k s.shared)) (sym e)
            (close_locks f),
      )))
will_wake-GoesOn n s k signalling v e h =
    goes_on n s k v (will_wake-ne (s.pc k) (rw e refl)) (inr e)
will_wake-GoesOn n s k handling v e h = owner-GoesOn n s k v (ap has_events e)
will_wake-GoesOn n s k releasing v e h = owner-GoesOn n s k v (ap has_events e)
will_wake-GoesOn n s k close_active v e h = owner-GoesOn n s k v (ap has_events e)
will_wake-GoesOn n s k closing v e h = owner-GoesOn n s k v (ap has_events e)
will_wake-GoesOn n s k close_done v e h = owner-GoesOn n s k v (ap has_events e)
will_wake-GoesOn n s k _ v e h = absurd (cc)

exclusive :
    (n : ℕ) (s : System)
    → IsSound n s
    → (i j : ℕ) → has_events (s.pc i) ≡ true
    → has_events (s.pc j) ≡ true
    → i ≡ j
exclusive n s v i j hi hj = elim (Bool-cases (i == j)) [
  | inl e ↦ ground arith
  | inr e ↦
      let f = owns-other i j s.shared.events_lock (sym (v.events_lem i) ∙ hi) e in
      let g = v.events_lem j in absurd (cc)
]

active-owner :
    (n : ℕ) (s : System)
    → IsSound n s
    → s.shared.event_handler_active ≡ true
    → (k : ℕ) × (is_active (s.pc k) ≡ true)
active-owner n s v h = elim (Option-cases s.shared.events_lock) [
  | inl e ↦ let f = v.free_lem e in absurd (cc)
  | inr (k, e) ↦
      let o : has_events (s.pc k) ≡ true = ground (arith, v.events_lem k) in
      (k, v.active_lem k o ∙ h)
]

is_active-has_events : (p : Pc) → is_active p ≡ true → has_events p ≡ true
is_active-has_events idle h = cc
is_active-has_events _ h = ground arith

-- What the threads can rely on.
pub record AreSafe (n : ℕ) (s : System) : Type 0 where
  pub exclusive_lem : (i j : ℕ) → has_events (s.pc i) ≡ true → has_events (s.pc j) ≡ true → i ≡ j
  pub active_lem : (s.shared.event_handler_active ≡ true) ↔ ((k : ℕ) × (is_active (s.pc k) ≡ true))
  pub close_lem : s.shared.device_close ≡ total n s.pc
  pub wake_lem :
      (i : ℕ) → waits_now (s.pc i) ≡ true → ((k : ℕ) × (will_wake (s.pc k) ≡ true)) × GoesOn n s

-- However n threads interleave in handling events, waiting for the handler and closing devices, with
-- waits that may end by their time or for no reason: one thread at most has the lock of the event
-- handler, so that no device is closed while another thread handles events; event_handler_active is
-- set exactly while a thread handles events or closes a device with the lock; device_close counts the
-- threads that close a device; and where a thread waits for the handler to end, or has made up its mind
-- to, no wakeup is lost: there is a thread that will still broadcast, and one of the threads that do
-- not wait for the condition can go on, so that the threads are not deadlocked.
pub reachable_locks-AreSafe : (n : ℕ) (s : System) → Reach n at_start s → AreSafe n s
reachable_locks-AreSafe n s r =
    let v = Reach-IsSound n s r in
    record {
      exclusive_lem = exclusive n s v;
      active_lem = (
        active-owner n s v,
        λ (k, h). sym (v.active_lem k (is_active-has_events (s.pc k) h)) ∙ h,
      );
      close_lem = v.close_lem;
      wake_lem =
          λ i h. let (k, w) = v.wake_lem i h in ((k, w), will_wake-GoesOn n s k (s.pc k) v refl w);
    }
