-- ===== src/Io/Lifecycle/Adding.antt =====
-- A submission in libusb/libusb/io.c up to the place where the transfer is listed, and what may fail on the way.
use zerousb.Prelude.{
  ℕ, ◌≡◌, refl, ap, sym, subst, ◌∙◌, Bool, true, false, ◌&&◌, ◌||◌, not, if◌then◌else◌, ◌⊎◌, arith,
  Option, some, ◌==◌, Bool-cases, inl, inr, ==_iff,
}
use zerousb.Usb.{Error, other, Result, ok, err}
use zerousb.Io.Time.{TimeVal, unset, is_set, deadline}
use zerousb.Io.Transfer.{Transfer, Context}
use zerousb.Io.Flying.{
  Clock, insert_flying, delete, is_first, settime, set_timeout, calculate_timeout, arm_first,
  add_to_flying_list,
}
use zerousb.Io.Flying.Lists.{delete-insert_flying}
use zerousb.Io.Lifecycle.{Answers}
use zerousb.Io.Lifecycle.Invariant.{
  IsOpen, modify-IsOpen, armed-IsOpen, insert-IsOpen, delete-IsOpen,
}

-- The transfer as a submission leaves it, with its deadline and whether it is in flight.
abbrev pub fresh : TimeVal → Bool → Transfer → Transfer
fresh t on tr = record tr {
  timeout = t;
  transferred = 0;
  in_flight = on;
  cancelling = false;
  device_disappeared = false;
  os_handles_timeout = false;
  timeout_handled = false;
  has_timed_out = false;
}

-- The deadline of a transfer that is submitted now, where the clock answers.
abbrev pub due : Clock → Transfer → Result TimeVal
due (ok now) tr = ok (deadline tr.timeout_ms now)
due (err x) tr = if tr.timeout_ms == 0 then ok unset else err x

-- The transfer is reset, with the deadline `t`; the other transfers and the references are as they were.
abbrev pub Reset : ℕ → TimeVal → Bool → Context → Context → Type 0
Reset id t on before ctx =
    (ctx.store id ≡ fresh t on (before.store id))
    × ((j : ℕ) → (j == id) ≡ false → ctx.store j ≡ before.store j)

abbrev pub Quiet : ℕ → TimeVal → Context → Context → Type 0
Quiet id t before ctx = Reset id t false before ctx × (ctx.refs ≡ before.refs)

-- The timer is not needed for the transfer, or works: it is needed for one with a deadline that is first
-- in line.
abbrev pub is_timed : Answers → TimeVal → ℕ → Context → Bool
is_timed a t id ctx = not (is_first id ctx.flying && ctx.using_timerfd && is_set t) || a.timer_works

-- Why a submission fails with an error: the clock, which is read for a transfer with a timeout, or the
-- timer, or the backend.
abbrev pub Fails : Answers → Transfer → Error → Type 0
Fails a tr x =
    (due a.clock tr ≡ err x) ⊎ ((a.timer_works ≡ false) × (x ≡ other)) ⊎ (a.submitted ≡ err x)

-- Where a step of the submission leaves the transfer listed, or else the list as it was.
abbrev pub Step : Answers → ℕ → Context → Result (Unit {0}) × Context → Type 0
Step a id before (ok u, ctx) =
    IsOpen id true ctx
    × (delete id ctx.flying ≡ before.flying)
    × ((t : TimeVal) × (due a.clock (before.store id) ≡ ok t)
        × Quiet id t before ctx
        × (is_timed a t id ctx ≡ true))
Step a id before (err x, ctx) =
    IsOpen id false ctx
    × (ctx.flying ≡ before.flying)
    × Fails a (before.store id) x
    × ((t : TimeVal) × Quiet id t before ctx)

abbrev Prepared : Clock → ℕ → Context → Result (Unit {0}) × Context → Type 0
Prepared clock id before (ok u, ctx) =
    IsOpen id false ctx
    × (ctx.flying ≡ before.flying)
    × ((t : TimeVal) × (due clock (before.store id) ≡ ok t) × Quiet id t before ctx)
Prepared clock id before (err x, ctx) =
    IsOpen id false ctx
    × (ctx.flying ≡ before.flying)
    × (due clock (before.store id) ≡ err x)
    × ((t : TimeVal) × Quiet id t before ctx)

set_timeout-Quiet :
    (t t' : TimeVal) (id : ℕ) (before ctx : Context)
    → Quiet id t before ctx
    → Quiet id t' before (set_timeout id t' ctx)
set_timeout-Quiet t t' id before ctx ((p, k), r) = (
  (
    rw ((==_iff id id).1 refl) (ap {A = Transfer} (λ tr. record tr { timeout = t' }) p),
    λ j e. rw e (k j e),
  ),
  r,
)

calculate_timeout-Prepared :
    (clock : Clock) (id : ℕ) (t : TimeVal) (before ctx : Context)
    → IsOpen id false ctx
    → ctx.flying ≡ before.flying
    → Quiet id t before ctx
    → Prepared clock id before (calculate_timeout clock id ctx)
unfolding calculate_timeout deadline
calculate_timeout-Prepared clock id t before ctx v f q =
    elim (Bool-cases ((ctx.store id).timeout_ms == 0)) [
      | inl p ↦ rw p (set clock unset (by_clock clock (rw (← ms) p)))
      | inr p ↦ rw p (read clock (rw (← ms) p))
    ]
  where
    ms : (ctx.store id).timeout_ms ≡ (before.store id).timeout_ms
    ms = ap (λ tr. tr.timeout_ms) q.0.0

    set :
        (c : Clock) (t' : TimeVal)
        → due c (before.store id) ≡ ok t'
        → Prepared c id before (ok tt, set_timeout id t' ctx)
    set c t' e = (
      modify-IsOpen id (λ tr. record tr { timeout = t' }) ctx v.is_here v,
      f,
      (t', e, set_timeout-Quiet t t' id before ctx q),
    )

    by_clock :
        (c : Clock) → (before.store id).timeout_ms == 0 ≡ true → due c (before.store id) ≡ ok unset
    by_clock (ok now) p = rw p refl
    by_clock (err x) p = rw p refl

    read :
        (c : Clock)
        → (before.store id).timeout_ms == 0 ≡ false
        → Prepared c id before (elim c [
          | err x ↦ (err x, ctx)
          | ok now ↦ (ok tt, set_timeout id (deadline (ctx.store id).timeout_ms now) ctx)
        ])
    read (err x) p = (v, f, rw p refl, (t, q))
    read (ok now) p =
        set (ok now) (deadline (ctx.store id).timeout_ms now)
          (ap {A = ℕ} (λ m. Result.ok (deadline m now)) (sym ms))

arm_first-Step :
    (a : Answers) (id : ℕ) (t : TimeVal) (before ctx : Context)
    → IsOpen id true ctx
    → delete id ctx.flying ≡ before.flying
    → due a.clock (before.store id) ≡ ok t
    → Quiet id t before ctx
    → Step a id before (arm_first a.timer_works id ctx)
unfolding arm_first
arm_first-Step a id t before ctx v d e q =
    elim (Bool-cases
      (is_first id ctx.flying && ctx.using_timerfd && is_set (ctx.store id).timeout)) [
        | inr p ↦ rw p (v, d, (t, e, q, subst (λ x. is_timed a x id ctx ≡ true) same (rw p refl)))
        | inl p ↦ rw p (go a.timer_works refl)
      ]
  where
    same : (ctx.store id).timeout ≡ t
    same = ap (λ tr. tr.timeout) q.0.0

    due_at : Option TimeVal
    due_at = some (ctx.store id).timeout

    go :
        (works : Bool)
        → a.timer_works ≡ works
        → Step a id before (elim (settime works due_at ctx).0 [
          | ok u ↦ (ok tt, (settime works due_at ctx).1)
          | err x ↦ (err x, record (settime works due_at ctx).1 { flying = delete id ctx.flying })
        ])
    go true w = (armed-IsOpen id true due_at ctx v, d, (t, e, q, ground (arith, w)))
    go false w = (delete-IsOpen id true ctx v, d, inr (inl (w, refl)), (t, q))

pub add_to_flying_list-Step :
    (a : Answers) (id : ℕ) (t : TimeVal) (before ctx : Context)
    → IsOpen id false ctx
    → ctx.flying ≡ before.flying
    → Quiet id t before ctx
    → Step a id before (add_to_flying_list a.clock a.timer_works id ctx)
unfolding add_to_flying_list
add_to_flying_list-Step a id t before ctx v f q =
    go (calculate_timeout a.clock id ctx) (calculate_timeout-Prepared a.clock id t before ctx v f q)
  where
    go :
        (r : Result (Unit {0}) × Context)
        → Prepared a.clock id before r
        → Step a id before (elim r.0 [
          | err x ↦ (err x, r.1)
          | ok u ↦
              arm_first a.timer_works id (record r.1 {
                flying = insert_flying r.1.store (r.1.store id).timeout id r.1.flying;
              })
        ])
    go (err x, c) (w, g, e, p) = (w, g, inl e, p)
    go (ok u, c) (w, g, (t', e, p)) =
        arm_first-Step a id t' before _ (insert-IsOpen id c w)
          (delete-insert_flying c.store (c.store id).timeout id c.flying w.is_here ∙ g) e p
