-- ===== src/Io/Lifecycle/Complete.antt =====
-- Completion and cancellation of a transfer in libusb/libusb/io.c.
use zerousb.Prelude.{
  ℕ, ◌+◌, ◌-◌, ◌&&◌, ◌≡◌, refl, not, Bool, true, false, ◌||◌, if◌then◌else◌, ◌==◌, arith,
  Bool-cases, inl, inr, ==_iff,
}
use zerousb.Usb.{not_found, Result, ok, err}
use zerousb.Io.Transfer.{
  Status, Transfer, Context, modify, completed, error, timed_out, cancelled, stall, no_device,
  overflow,
}
use zerousb.Io.Flying.{delete}
use zerousb.Io.Flying.Lists.{mem}
use zerousb.Io.Lifecycle.{
  unref_device, is_no_device, cancel_transfer, finish, final_status, handle_transfer_completion,
}
use zerousb.Io.Lifecycle.Invariant.{
  IsValid, modify-IsValid, close, IsOpen-valid, delete-IsOpen, armed-IsOpen,
  remove_from_flying_list_lem,
}

-- The status that a transfer is reported with: a completed one that moved fewer bytes than were asked
-- for is an error, if the user wants that; the length of a control transfer counts its 8 bytes of setup.
abbrev pub reported : Status → Transfer → Status
reported completed t =
    if t.short_not_ok
      && not (t.length == (if t.is_control then t.transferred + 8 else t.transferred))
    then error
    else completed
reported s t = s

final_status-reported : (t : Transfer) (s : Status) → final_status t s ≡ reported s t
unfolding final_status
final_status-reported t completed = ground arith
final_status-reported t error = refl
final_status-reported t timed_out = refl
final_status-reported t cancelled = refl
final_status-reported t stall = refl
final_status-reported t no_device = refl
final_status-reported t overflow = refl

-- What the callback of the transfer `id` finds when it was in flight in `before` and ends with status
-- `s`: a valid context in which this transfer alone has left the list, with its final fields.
pub record Seen (id : ℕ) (s : Status) (before seen : Context) : Type 0 where
  pub valid : IsValid seen
  pub flying_lem : seen.flying ≡ delete id before.flying
  pub not_listed : mem id seen.flying ≡ false
  pub finished : seen.store id ≡ record (before.store id) {
    in_flight = false;
    status = reported s (before.store id);
    actual_length = (before.store id).transferred;
  }
  pub others : (j : ℕ) → (j == id) ≡ false → seen.store j ≡ before.store j
  pub refs_lem : seen.refs ≡ before.refs

-- What becomes of the context that the callback left: one reference to the device less.
pub record Dropped (dev : ℕ) (left after : Context) : Type 0 where
  pub refs_lem : after.refs dev ≡ left.refs dev - 1
  pub other_refs : (j : ℕ) → (j == dev) ≡ false → after.refs j ≡ left.refs j
  pub store_lem : after.store ≡ left.store
  pub flying_lem : after.flying ≡ left.flying
  pub armed_lem : after.armed ≡ left.armed
  pub timer_lem : after.using_timerfd ≡ left.using_timerfd

-- The completion as the callback's work on what it sees, and the reference dropped behind it.
pub handle_transfer_completion_lem :
    (works : Bool) (callback : Context → Context) (id : ℕ) (s : Status) (ctx : Context)
    → IsValid ctx
    → (seen : Context) × ((handle_transfer_completion works callback id s ctx).1
        ≡ unref_device (ctx.store id).device (callback seen))
      × Seen id s ctx seen
unfolding handle_transfer_completion
handle_transfer_completion_lem works callback id s ctx v =
    let (t, p) = remove_from_flying_list_lem works id ctx in
    let c : Context = record ctx { flying = delete id ctx.flying; armed = t } in
    let o =
      armed-IsOpen id false t _
        (delete-IsOpen id (mem id ctx.flying) ctx (IsOpen-valid id _ ctx refl v)) in
    (
      modify id (finish s) c,
      rw p refl,
      record {
        valid = close id false (finish s) c refl refl o;
        flying_lem = refl;
        not_listed = o.is_here;
        finished = rw ((==_iff id id).1 refl) (rw (final_status-reported (ctx.store id) s) refl);
        others = λ j e. rw e refl;
        refs_lem = refl;
      },
    )

unref_device-Dropped : (dev : ℕ) (c : Context) → Dropped dev c (unref_device dev c)
unref_device-Dropped dev c = record {
  refs_lem = rw ((==_iff dev dev).1 refl) refl;
  other_refs = λ j e. rw e refl;
  store_lem = refl;
  flying_lem = refl;
  armed_lem = refl;
  timer_lem = refl;
}

-- `usbi_handle_transfer_completion` in a valid context hands the callback a valid context, in which the
-- transfer is off the list and not in flight; its length is that of the bytes moved, and its status the
-- one given, but an error for a completed transfer that came out short where the user wants that; all
-- other transfers and all references are as they were. Then, of what the callback left, it drops one
-- reference, to the device that the transfer had, and changes nothing else.
pub handle_transfer_completion-Seen :
    (works : Bool) (callback : Context → Context) (id : ℕ) (s : Status) (ctx : Context)
    → IsValid ctx
    → (seen : Context) × Seen id s ctx seen
      × Dropped
          (ctx.store id).device
          (callback seen)
          (handle_transfer_completion works callback id s ctx).1
handle_transfer_completion-Seen works callback id s ctx v =
    let (seen, p, q) = handle_transfer_completion_lem works callback id s ctx v in
    (seen, q, rw p (unref_device-Dropped (ctx.store id).device (callback seen)))

-- A valid context stays valid through a completion, if the callback keeps contexts valid.
pub handle_transfer_completion-IsValid :
    (works : Bool) (callback : Context → Context) (id : ℕ) (s : Status) (ctx : Context)
    → ((c : Context) → IsValid c → IsValid (callback c))
    → IsValid ctx
    → IsValid (handle_transfer_completion works callback id s ctx).1
handle_transfer_completion-IsValid works callback id s ctx k v =
    let (seen, p, q) = handle_transfer_completion_lem works callback id s ctx v in
    let w = k seen q.valid in
    rw p (record { distinct = w.distinct; sorted = w.sorted; listed = w.listed })

-- A transfer reported as completed moved all the bytes that were asked for, if the user wanted short
-- transfers as errors; a control transfer's length counts its 8 bytes of setup.
pub final_status-completed :
    (t : Transfer) (s : Status)
    → final_status t s ≡ completed
    → t.short_not_ok ≡ true
    → (s ≡ completed) × (t.length ≡ (if t.is_control then t.transferred + 8 else t.transferred))
unfolding final_status
final_status-completed t completed h k = ground arith
final_status-completed t s h k = cc

pub cancel_transfer-IsValid :
    (answer : Result (Unit {0})) (id : ℕ) (ctx : Context)
    → IsValid ctx
    → IsValid (cancel_transfer answer id ctx).1
unfolding cancel_transfer
cancel_transfer-IsValid answer id ctx v =
    elim (Bool-cases (not (ctx.store id).in_flight || (ctx.store id).cancelling)) [
      | inl p ↦ rw p v
      | inr p ↦ rw p (by_answer answer)
    ]
  where
    by_answer :
        (r : Result (Unit {0}))
        → IsValid
            (elim r as (λ r'. Result (Unit {0}) × Context) [
              | ok u ↦ (ok u, modify id (λ t. record t { cancelling = true }) ctx)
              | err x ↦ (
                err x,
                modify id
                    (λ t. record t {
                      cancelling = true;
                      device_disappeared = t.device_disappeared || is_no_device x;
                    })
                    ctx,
              )
            ]).1
    by_answer (ok u) = modify-IsValid id (λ t. record t { cancelling = true }) ctx refl refl v
    by_answer (err x) =
        modify-IsValid id
          (λ t. record t {
            cancelling = true;
            device_disappeared = t.device_disappeared || is_no_device x;
          })
          ctx refl refl v

-- The test on which `libusb_cancel_transfer` finds nothing to cancel.
abbrev is_idle : ℕ → Context → Bool
is_idle id ctx = not (ctx.store id).in_flight || (ctx.store id).cancelling

or-true : (b : Bool) → (b || true) ≡ true
or-true true = refl
or-true false = refl

cancelled-is_idle :
    (answer : Result (Unit {0})) (id : ℕ) (ctx : Context)
    → is_idle id (cancel_transfer answer id ctx).1 ≡ true
unfolding cancel_transfer
cancelled-is_idle (ok u) id ctx = elim (Bool-cases (is_idle id ctx)) [
  | inl p ↦ rw p p
  | inr p ↦ rw (p, (==_iff id id).1 refl) (or-true _)
]
cancelled-is_idle (err x) id ctx = elim (Bool-cases (is_idle id ctx)) [
  | inl p ↦ rw p p
  | inr p ↦ rw (p, (==_iff id id).1 refl) (or-true _)
]

idle-refused :
    (answer : Result (Unit {0})) (id : ℕ) (ctx : Context)
    → is_idle id ctx ≡ true
    → cancel_transfer answer id ctx ≡ (err not_found, ctx)
unfolding cancel_transfer
idle-refused answer id ctx p = rw p refl

-- A transfer can be cancelled once: after a call, whatever the backend answered to it, another call
-- finds nothing to cancel and changes nothing.
pub cancel_transfer_twice :
    (answer again : Result (Unit {0})) (id : ℕ) (ctx : Context)
    → cancel_transfer again id (cancel_transfer answer id ctx).1
      ≡ (err not_found, (cancel_transfer answer id ctx).1)
cancel_transfer_twice answer again id ctx =
    idle-refused again id (cancel_transfer answer id ctx).1 (cancelled-is_idle answer id ctx)
