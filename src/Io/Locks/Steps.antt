-- ===== src/Io/Locks/Steps.antt =====
-- Every step of the threads keeps the places in agreement with the locks of libusb/libusb/io.c.
use zerousb.Prelude.{
  ℕ, zero, suc, ◌+◌, ◌≡◌, ◌∙◌, ◌≢◌, ◌<◌, ◌≤◌, ◌⊎◌, refl, sym, ap, subst, true, false, Option, none,
  some, if◌then◌else◌, ◌==◌, arith, Bool-cases, inl, inr,
}
use zerousb.Io.Locks.{Pc, idle, signalling, Shared, unlock_waiters, Move, System, set_pc, wake}
use zerousb.Io.Locks.{moves, broadcasts, Reach, here, then_step, at_start}
use zerousb.Io.Locks.Invariant.{
  has_events, has_waiters, is_active, closes, will_wake, waits_now, owns, total, IsSound,
}
use zerousb.Io.Locks.Moves.{
  Move-has_events, Move-other_events, Move-has_waiters, Move-other_waiters, Move-is_active,
  Move-other_active, Move-free, Move-closes, Move-will_wake, Move-waits_now,
}

closes-will_wake : (p : Pc) → closes p ≢ 0 → will_wake p ≡ true
closes-will_wake idle h = ground arith
closes-will_wake _ h = ground arith

is_active-will_wake : (p : Pc) → is_active p ≡ true → will_wake p ≡ true
is_active-will_wake idle h = ground arith
is_active-will_wake _ h = ground arith

-- A thread that is counted in device_close will wake the others.
total-ne-zero : (n : ℕ) (pc : ℕ → Pc) → total n pc ≢ 0 → (k : ℕ) × (will_wake (pc k) ≡ true)
total-ne-zero zero pc h = absurd (h refl)
total-ne-zero (suc n) pc h = elim (Bool-cases (closes (pc n) == 0)) [
  | inl e ↦ total-ne-zero n pc (ground arith)
  | inr e ↦ (n, closes-will_wake (pc n) (ground arith))
]

closes-le-total : (i n : ℕ) (pc : ℕ → Pc) → i < n → closes (pc i) ≤ total n pc
closes-le-total i zero pc l = elim l [ ]
closes-le-total i (suc n) pc l = elim (Bool-cases (i == n)) [
  | inl e ↦ let q : i ≡ n = ground arith in rw q (omega arith)
  | inr e ↦ omega (arith, closes-le-total i n pc (ground arith))
]

total-other : (i n : ℕ) (q : Pc) (pc : ℕ → Pc) → n ≤ i → total n (set_pc i q pc) ≡ total n pc
total-other i zero q pc l = refl
total-other i (suc n) q pc l =
    let e : (n == i) ≡ false = ground arith in rw e (omega (arith, total-other i n q pc))

total-set_pc :
    (i n : ℕ) (q : Pc) (pc : ℕ → Pc)
    → i < n
    → total n (set_pc i q pc) + closes (pc i) ≡ total n pc + closes q
total-set_pc i zero q pc l = elim l [ ]
total-set_pc i (suc n) q pc l = elim (Bool-cases (n == i)) [
  | inl e ↦
      let k : n ≡ i = ground arith in
      rw (e, total-other i n q pc (omega arith)) (rw k (omega arith))
  | inr e ↦ rw e (omega (arith, total-set_pc i n q pc (ground arith)))
]

-- A property of all places after one has changed.
on_set :
    (P : ℕ → Pc → Type 0) (i : ℕ) (q : Pc) (pc : ℕ → Pc)
    → P i q
    → ((j : ℕ) → (j == i) ≡ false → P j (pc j))
    → (j : ℕ) → P j (set_pc i q pc j)
on_set P i q pc h f j = elim (Bool-cases (j == i)) [
  | inl e ↦
      let k : i ≡ j = ground arith in
      subst (λ b. P j (if b then q else pc j)) (sym e) (subst (λ m. P m q) k h)
  | inr e ↦ subst (λ b. P j (if b then q else pc j)) (sym e) (f j e)
]

-- Another thread's witness is its own, and that of the mover moves on.
still_wakes :
    (s : System) (i : ℕ) (q : Pc)
    → (will_wake (s.pc i) ≡ true → will_wake q ≡ true)
    → (k : ℕ) × (will_wake (s.pc k) ≡ true)
    → (k : ℕ) × (will_wake (set_pc i q s.pc k) ≡ true)
still_wakes s i q f (k, h) = elim (Bool-cases (k == i)) [
  | inl e ↦
      let r : k ≡ i = ground arith in (k, rw e (f (subst (λ m. will_wake (s.pc m) ≡ true) r h)))
  | inr e ↦ (k, rw e h)
]

active-will_wake :
    (n : ℕ) (s : System)
    → IsSound n s
    → s.shared.event_handler_active ≡ true
    → (k : ℕ) × (will_wake (s.pc k) ≡ true)
active-will_wake n s v h = by_owner s.shared.events_lock refl
  where
    by_owner : (o : Option ℕ) → s.shared.events_lock ≡ o → (k : ℕ) × (will_wake (s.pc k) ≡ true)
    by_owner none e = let f = v.free_lem e in cc
    by_owner (some k) e =
        let o : has_events (s.pc k) ≡ true = ground (arith, v.events_lem k) in
        (k, is_active-will_wake (s.pc k) (v.active_lem k o ∙ h))

pub owns-other : (j i : ℕ) (o : Option ℕ) → owns j o ≡ true → (j == i) ≡ false → owns i o ≡ false
owns-other j i none h e = refl
owns-other j i (some k) h e = ground arith

moves-IsSound :
    (n : ℕ) (s : System) (i : ℕ) (q : Pc) (t : Shared)
    → IsSound n s
    → i < n
    → Move i s.shared (s.pc i) q t
    → IsSound n (record { pc = set_pc i q s.pc; shared = t })
moves-IsSound n s i q t v l m = record {
  events_lem =
      on_set (λ j r. has_events r ≡ owns j t.events_lock) i q s.pc
        (Move-has_events m (v.events_lem i))
        (λ j e. v.events_lem j ∙ sym (Move-other_events m (v.events_lem i) j e));
  waiters_lem =
      on_set (λ j r. has_waiters r ≡ owns j t.waiters_lock) i q s.pc
        (Move-has_waiters m (v.waiters_lem i))
        (λ j e. v.waiters_lem j ∙ sym (Move-other_waiters m (v.waiters_lem i) j e));
  active_lem =
      on_set (λ j r. has_events r ≡ true → is_active r ≡ t.event_handler_active) i q s.pc
        (Move-is_active m (v.active_lem i) v.free_lem)
        (λ j e h. v.active_lem j h ∙ sym (Move-other_active m (other_free j e h)));
  free_lem = Move-free m (v.events_lem i) (v.active_lem i) v.free_lem;
  close_lem =
      let b = closes-le-total i n s.pc l in
      omega
        (arith, v.close_lem, total-set_pc i n q s.pc l, Move-closes m (omega (arith, v.close_lem)));
  outside_lem =
      on_set (λ j r. n ≤ j → r ≡ idle) i q s.pc (λ h. absurd (omega arith))
        (λ j e. v.outside_lem j);
  wake_lem =
      on_set (λ j r. waits_now r ≡ true → (k : ℕ) × (will_wake (set_pc i q s.pc k) ≡ true)) i q s.pc
        (λ h. still_wakes s i q (Move-will_wake m) (by_reason (Move-waits_now m h)))
        (λ j e h. still_wakes s i q (Move-will_wake m) (v.wake_lem j h));
}
  where
    -- Where another thread has the lock, this one has not.
    other_free :
        (j : ℕ) → (j == i) ≡ false → has_events (s.pc j) ≡ true → has_events (s.pc i) ≡ false
    other_free j e h =
        v.events_lem i ∙ owns-other j i s.shared.events_lock (sym (v.events_lem j) ∙ h) e

    by_reason :
        (waits_now (s.pc i) ≡ true)
          ⊎ ((s.shared.device_close ≢ 0) ⊎ (s.shared.event_handler_active ≡ true))
        → (k : ℕ) × (will_wake (s.pc k) ≡ true)
    by_reason (inl h) = v.wake_lem i h
    by_reason (inr (inl h)) = total-ne-zero n s.pc (λ z. h (v.close_lem ∙ z))
    by_reason (inr (inr h)) = active-will_wake n s v h

wake-keeps :
    (p : Pc)
    → (has_events (wake p) ≡ has_events p)
      × (has_waiters (wake p) ≡ has_waiters p)
      × (is_active (wake p) ≡ is_active p)
      × (closes (wake p) ≡ closes p)
wake-keeps idle = (refl, refl, refl, refl)
wake-keeps _ = (refl, refl, refl, refl)

-- Behind a broadcast only a thread that has event_waiters_lock can be about to wait.
waits_now-wake : (p : Pc) → waits_now (wake p) ≡ true → has_waiters p ≡ true
waits_now-wake idle h = ground arith
waits_now-wake _ h = ground arith

total-wake : (n : ℕ) (pc : ℕ → Pc) → total n (λ j. wake (pc j)) ≡ total n pc
total-wake zero pc = refl
total-wake (suc n) pc = omega (arith, total-wake n pc, (wake-keeps (pc n)).3)

broadcasts-IsSound :
    (n : ℕ) (s : System) (i : ℕ)
    → IsSound n s
    → i < n
    → s.pc i ≡ signalling
    → IsSound n (record { pc = λ j. wake (set_pc i idle s.pc j); shared = unlock_waiters s.shared })
broadcasts-IsSound n s i v l e = record {
  events_lem =
      on_set (λ j r. has_events (wake r) ≡ owns j s.shared.events_lock) i idle s.pc
        (sym (ap has_events e) ∙ v.events_lem i) (λ j o. (wake-keeps (s.pc j)).0 ∙ v.events_lem j);
  waiters_lem =
      on_set (λ j r. has_waiters (wake r) ≡ false) i idle s.pc refl
        (λ j o. (wake-keeps (s.pc j)).1 ∙ other_free j o);
  active_lem =
      on_set
        (λ j r. has_events (wake r) ≡ true → is_active (wake r) ≡ s.shared.event_handler_active) i
        idle s.pc (λ h. cc)
        (λ j o h. (wake-keeps (s.pc j)).2 ∙ v.active_lem j (sym (wake-keeps (s.pc j)).0 ∙ h));
  free_lem = v.free_lem;
  close_lem =
      let z : closes (s.pc i) ≡ 0 = ap closes e in
      omega
        (arith, v.close_lem, total-wake n (set_pc i idle s.pc), total-set_pc i n idle s.pc l, z);
  outside_lem =
      on_set (λ j r. n ≤ j → wake r ≡ idle) i idle s.pc (λ h. refl)
        (λ j o h. ap wake (v.outside_lem j h));
  wake_lem =
      on_set
        (λ j r.
          waits_now (wake r) ≡ true → (k : ℕ) × (will_wake (wake (set_pc i idle s.pc k)) ≡ true))
        i idle s.pc (λ h. cc)
        (λ j o h. let w = waits_now-wake (s.pc j) h in let f = other_free j o in cc);
}
  where
    other_free : (j : ℕ) → (j == i) ≡ false → has_waiters (s.pc j) ≡ false
    other_free j o =
        v.waiters_lem j
        ∙ owns-other i j s.shared.waiters_lock (sym (v.waiters_lem i) ∙ ap has_waiters e)
            (ground arith)

pub Reach-IsSound : (n : ℕ) (s : System) → Reach n at_start s → IsSound n s
Reach-IsSound n s here = record {
  events_lem = λ j. refl;
  waiters_lem = λ j. refl;
  active_lem = λ j h. cc;
  free_lem = λ h. refl;
  close_lem = total-start n;
  outside_lem = λ j h. refl;
  wake_lem = λ j h. cc;
}
  where
    total-start : (m : ℕ) → 0 ≡ total m (λ j. idle)
    total-start zero = refl
    total-start (suc m) = omega (arith, total-start m)
Reach-IsSound n _ (then_step a _ r (moves i p q t l e m)) =
    moves-IsSound n a i q t (Reach-IsSound n a r) l (subst (λ x. Move i a.shared x q t) (sym e) m)
Reach-IsSound n _ (then_step a _ r (broadcasts i l e)) =
    broadcasts-IsSound n a i (Reach-IsSound n a r) l e
