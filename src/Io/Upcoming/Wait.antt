-- ===== src/Io/Upcoming/Wait.antt =====
-- poll() in libusb/libusb/io.c neither waits past a deadline nor longer than the caller allows.
use zerousb.Prelude.{
  ℕ, ◌+◌, ◌-◌, ◌≡◌, ◌≤◌, ◌<◌, refl, not, true, false, Option, none, some, List, [], ◌∷◌,
  if◌then◌else◌, ltb, arith, Bool-cases, inl, inr, All,
}
use zerousb.Usb.{ok}
use zerousb.Io.Time.{TimeVal, TimeSpec, timeval_of, unset, is_set}
use zerousb.Io.Time.Deadline.{micros}
use zerousb.Io.Transfer.{Transfer, Context, needs_no_timeout}
use zerousb.Io.Flying.{next_timeout}
use zerousb.Io.Flying.Sorted.{Before, IsSorted}
use zerousb.Io.Upcoming.{
  is_before, time_between, soonest, remaining, smallest, get_next_timeout_of, get_next_timeout,
}

-- A deadline as `libusb_get_next_timeout` writes it: no deadline is the time 0.
abbrev pub or_unset : Option TimeVal → TimeVal
or_unset none = unset
or_unset (some t) = t

soonest-unset :
    (st : ℕ → Transfer) (a : TimeVal) (xs : List ℕ)
    → is_set a ≡ false
    → Before st a xs
    → soonest st xs ≡ unset
unfolding soonest
soonest-unset st a [] h b = refl
soonest-unset st a (x ∷ xs) h b =
    let r = soonest-unset st a xs h b.1 in
    let e : is_set (st x).timeout ≡ false = ground (arith, b.0) in
    elim (Bool-cases (needs_no_timeout (st x))) [ inl p ↦ rw p r | inr p ↦ rw (p, e) refl ]

-- On a list in order, `libusb_get_next_timeout` looks at the very deadline for which
-- `arm_timerfd_for_next_timeout` sets the timer, although it passes over handled transfers first and
-- goes on behind those without a deadline.
pub soonest-next_timeout :
    (st : ℕ → Transfer) (xs : List ℕ)
    → IsSorted st xs
    → soonest st xs ≡ or_unset (next_timeout st xs)
unfolding soonest next_timeout
soonest-next_timeout st [] s = refl
soonest-next_timeout st (x ∷ xs) s = elim (Bool-cases (needs_no_timeout (st x))) [
  | inr p ↦ elim (Bool-cases (is_set (st x).timeout)) [
    | inl q ↦ rw (p, q) refl
    | inr q ↦ rw (p, q) refl
  ]
  | inl p ↦ elim (Bool-cases (is_set (st x).timeout)) [
    | inl q ↦ rw (p, q) (soonest-next_timeout st xs s.1)
    | inr q ↦ rw (p, q) (soonest-unset st (st x).timeout xs q s.0)
  ]
]

-- Microseconds are below a second.
abbrev pub IsNormal : TimeVal → Type 0
IsNormal t = t.usec < 1000000

micros-is_before :
    (a b : TimeVal) → IsNormal a → IsNormal b → is_before a b ≡ true → micros a < micros b
micros-is_before a b n m h = ground arith

micros-not_before :
    (a b : TimeVal) → IsNormal a → IsNormal b → is_before a b ≡ false → micros b ≤ micros a
micros-not_before a b n m h = ground arith

micros-time_between :
    (a b : TimeVal)
    → IsNormal a
    → IsNormal b
    → is_before b a ≡ true
    → micros b + micros (time_between a b) ≡ micros a
micros-time_between a b n m h = ground arith

IsNormal-time_between : (a b : TimeVal) → IsNormal a → IsNormal b → IsNormal (time_between a b)
IsNormal-time_between a b n m = ground arith

is_set-micros : (t : TimeVal) → is_set t ≡ true → 0 < micros t
is_set-micros t h = ground arith

unset-micros : (t : TimeVal) → is_set t ≡ false → micros t ≡ 0
unset-micros t h = ground arith

next_timeout-some :
    (st : ℕ → Transfer) (xs : List ℕ) (t : TimeVal)
    → All (λ id. IsNormal (st id).timeout) xs
    → next_timeout st xs ≡ some t
    → (is_set t ≡ true) × IsNormal t
unfolding next_timeout
next_timeout-some st [] t n e = cc
next_timeout-some st (x ∷ xs) t n e = elim (Bool-cases (is_set (st x).timeout)) [
  | inr p ↦ absurd (none≢some (rw p at e))
  | inl p ↦ elim (Bool-cases (needs_no_timeout (st x))) [
    | inl q ↦ next_timeout-some st xs t n.1 (rw (p, q) at e)
    | inr q ↦ let f : (st x).timeout ≡ t = some-injective (rw (p, q) at e) in rw⁻¹ f (p, n.0)
  ]
]
  where
    none≢some : {u : TimeVal} → none ≡ some u → ⊥
    none≢some e = cc

    some-injective : {a b : TimeVal} → some a ≡ some b → a ≡ b
    some-injective e = cc

-- How long to wait at the time `now` in microseconds, for a next deadline and a caller's limit.
abbrev pub Waits : ℕ → TimeVal → Option TimeVal → Option TimeVal → Type 0
Waits now tv none none = ⊥
Waits now tv none (some w) = w ≡ tv
Waits now tv (some d) none = micros d ≤ now
Waits now tv (some d) (some w) =
    (now < micros d)
    × (micros w ≡ (if ltb (micros d - now) (micros tv) then micros d - now else micros tv))

-- What `libusb_get_next_timeout` gives out for the deadline that it looks at.
abbrev given : TimeVal → TimeVal → Option TimeVal
given cur next = if not (is_set next) then none else some (remaining cur next)

get_next_timeout_of-given :
    (now : TimeSpec) (ctx : Context)
    → ctx.using_timerfd ≡ false
    → get_next_timeout_of (ok now) ctx ≡ given (timeval_of now) (soonest ctx.store ctx.flying)
unfolding get_next_timeout_of
get_next_timeout_of-given now ctx u = ground arith

if-least : (a w t : ℕ) → w ≡ a → w < t → w ≡ (if ltb a t then a else t)
if-least a w t e l = ground arith

if-most : (a t : ℕ) → t ≤ a → t ≡ (if ltb a t then a else t)
if-most a t l = ground arith

smallest-Waits :
    (cur tv d w : TimeVal)
    → micros cur + micros w ≡ micros d
    → micros cur < micros d
    → IsNormal w
    → IsNormal tv
    → Waits (micros cur) tv (some d) (smallest tv (some w))
smallest-Waits cur tv d w e l n m =
    let s : is_set w ≡ true = ground arith in
    elim (Bool-cases (is_before w tv)) [
      | inl p ↦
          let b = micros-is_before w tv n m p in
          rw (s, p) (l, if-least (micros d - micros cur) (micros w) (micros tv) (omega arith) b)
      | inr p ↦
          let b = micros-not_before w tv n m p in
          rw (s, p) (l, if-most (micros d - micros cur) (micros tv) (omega arith))
    ]

given-Waits :
    (cur tv : TimeVal) (next : Option TimeVal)
    → IsNormal cur
    → IsNormal tv
    → ((t : TimeVal) → next ≡ some t → (is_set t ≡ true) × IsNormal t)
    → Waits (micros cur) tv next (smallest tv (given cur (or_unset next)))
given-Waits cur tv none n m k = refl
given-Waits cur tv (some d) n m k =
    let (s, o) = k d refl in
    elim (Bool-cases (is_before cur d)) [
      | inl p ↦
          rw (s, p)
            (smallest-Waits cur tv d (time_between d cur) (micros-time_between d cur o n p)
              (micros-is_before cur d n o p) (IsNormal-time_between d cur o n) m)
      | inr p ↦ rw (s, p) (micros-not_before cur d n o p)
    ]

-- Without a timerfd, with the list of transfers in order, all times normal and the clock readable,
-- `get_next_timeout` finds a deadline expired only if it has passed; otherwise poll() waits exactly as
-- long as the caller allows or up to the next deadline that the library has to act on, whichever is
-- shorter, and as long as the caller allows if there is no such deadline.
pub get_next_timeout-Waits :
    (now : TimeSpec) (tv : TimeVal) (ctx : Context)
    → ctx.using_timerfd ≡ false
    → IsSorted ctx.store ctx.flying
    → All (λ id. IsNormal (ctx.store id).timeout) ctx.flying
    → now.nsec < 1000000000
    → IsNormal tv
    → Waits
        (micros (timeval_of now))
        tv
        (next_timeout ctx.store ctx.flying)
        (get_next_timeout (ok now) tv ctx)
unfolding get_next_timeout
get_next_timeout-Waits now tv ctx u s n c m =
    rw (get_next_timeout_of-given now ctx u, soonest-next_timeout ctx.store ctx.flying s)
      (given-Waits (timeval_of now) tv (next_timeout ctx.store ctx.flying) (omega arith) m
        (λ t e. next_timeout-some ctx.store ctx.flying t n e))
