-- ===== src/Io/Lifecycle/Submit.antt =====
-- `libusb_submit_transfer` of libusb/libusb/io.c on every path.
use zerousb.Prelude.{ℕ, ◌+◌, ◌≡◌, refl, ap, sym, ◌∙◌, Bool, true, false, ◌==◌, inr, ==_iff}
use zerousb.Usb.{busy, Result, ok, err}
use zerousb.Io.Time.{TimeVal}
use zerousb.Io.Transfer.{Transfer, Context, update, modify}
use zerousb.Io.Flying.{delete, add_to_flying_list, remove_from_flying_list}
use zerousb.Io.Flying.Lists.{mem}
use zerousb.Io.Lifecycle.{Answers, reset, ref_device, submit_to_backend, submit_transfer}
use zerousb.Io.Lifecycle.Invariant.{
  IsValid, IsOpen, modify-IsOpen, close, settle, armed-IsOpen, remove_from_flying_list_lem,
  IsOpen-valid, delete-IsOpen,
}
use zerousb.Io.Lifecycle.Adding.{due, Reset, Quiet, is_timed, Fails, Step, add_to_flying_list-Step}

-- What a submission leaves. On success the clock, the timer and the backend granted it; the transfer is
-- listed and in flight, with its deadline and with nothing left of an earlier submission, and its device
-- has one more reference. On an error one of the three failed; the list and the references are as they
-- were, and the transfer is not in flight.
abbrev pub Submitted : Answers → ℕ → Context → Result (Unit {0}) × Context → Type 0
Submitted a id before (ok u, ctx) =
    IsValid ctx
    × (mem id ctx.flying ≡ true)
    × (delete id ctx.flying ≡ before.flying)
    × (ctx.refs (before.store id).device ≡ before.refs (before.store id).device + 1)
    × ((j : ℕ) → (j == (before.store id).device) ≡ false → ctx.refs j ≡ before.refs j)
    × (a.submitted ≡ ok tt)
    × ((t : TimeVal) × (due a.clock (before.store id) ≡ ok t)
        × Reset id t true before ctx
        × (is_timed a t id ctx ≡ true))
Submitted a id before (err x, ctx) =
    IsValid ctx
    × (ctx.flying ≡ before.flying)
    × (ctx.refs ≡ before.refs)
    × Fails a (before.store id) x
    × ((t : TimeVal) × Reset id t false before ctx)

-- The same, for a transfer that is or is not in flight.
abbrev pub Submits : Bool → Answers → ℕ → Context → Result (Unit {0}) × Context → Type 0
Submits true a id before r = r ≡ (err busy, before)
Submits false a id before r = Submitted a id before r

update_self : (f : ℕ → ℕ) (k v : ℕ) → update f k v k ≡ v
update_self f k v = rw ((==_iff k k).1 refl)

submit_to_backend-Submitted :
    (a : Answers) (id : ℕ) (t : TimeVal) (before ctx : Context)
    → IsOpen id true ctx
    → delete id ctx.flying ≡ before.flying
    → due a.clock (before.store id) ≡ ok t
    → Quiet id t before ctx
    → is_timed a t id ctx ≡ true
    → Submitted a id before (submit_to_backend a id ctx)
unfolding submit_to_backend
submit_to_backend-Submitted a id t before ctx v d e q m = by_answer a.submitted refl
  where
    dev : (ctx.store id).device ≡ (before.store id).device
    dev = ap (λ tr. tr.device) q.0.0

    by_answer :
        (r : Result (Unit {0}))
        → a.submitted ≡ r
        → Submitted a id before (elim r [
          | ok u ↦ (
            ok tt,
            ref_device (ctx.store id).device (modify id (λ t. record t { in_flight = true }) ctx),
          )
          | err x ↦ (err x, (remove_from_flying_list a.timer_works id ctx).1)
        ])
    by_answer (ok u) s =
        let w = close id true (λ t. record t { in_flight = true }) ctx refl refl v in
        (
          record { distinct = w.distinct; sorted = w.sorted; listed = w.listed },
          v.is_here,
          d,
          rw (← dev) (
              update_self ctx.refs (ctx.store id).device (ctx.refs (ctx.store id).device + 1)
              ∙ ap (λ f. f (ctx.store id).device + 1) q.1),
          λ j k. rw dev (rw k (ap (λ f. f j) q.1)),
          s,
          (
            t,
            e,
            (
              rw ((==_iff id id).1 refl)
                  (ap {A = Transfer} (λ tr. record tr { in_flight = true }) q.0.0),
              λ j k. rw k (q.0.1 j k),
            ),
            m,
          ),
        )
    by_answer (err x) s =
        let (t', p) = remove_from_flying_list_lem a.timer_works id ctx in
        rw p (
          settle id false _ (ap (λ tr. tr.in_flight) q.0.0)
              (armed-IsOpen id false t' _ (delete-IsOpen id true ctx v)),
          d,
          q.1,
          inr (inr s),
          (t, q.0),
        )

-- In a valid context a submission of a transfer in flight is refused as busy and changes nothing. Any
-- other one leaves a valid context. It succeeds only if the backend takes the transfer, the clock can be
-- read where the transfer has a timeout, and the timer can be set where it is due first. Then the
-- transfer is in flight with the deadline that follows, its counter and its other flags are reset, its
-- device has one more reference, and taking it off again gives the list before. It fails only with the
-- error of the clock, the timer or the backend, and then the list and the references are as they were
-- and the transfer is reset and not in flight. No other transfer or reference changes.
pub submit_transfer-Submitted :
    (a : Answers) (id : ℕ) (ctx : Context)
    → IsValid ctx
    → Submits (ctx.store id).in_flight a id ctx (submit_transfer a id ctx)
unfolding submit_transfer
submit_transfer-Submitted a id ctx v = by_flight (ctx.store id).in_flight refl
  where
    c : Context
    c = modify id reset ctx

    finish :
        (r : Result (Unit {0}) × Context)
        → Step a id ctx r
        → Submitted a id ctx (elim r.0 [ err x ↦ (err x, r.1) | ok u ↦ submit_to_backend a id r.1 ])
    finish (err x, c') (w, f, h, (t, q)) =
        (settle id false c' (ap (λ tr. tr.in_flight) q.0.0) w, f, q.1, h, (t, q.0))
    finish (ok u, c') (w, d, (t, e, q, m)) = submit_to_backend-Submitted a id t ctx c' w d e q m

    after :
        (ctx.store id).in_flight ≡ false
        → Submitted a id ctx (elim (add_to_flying_list a.clock a.timer_works id c).0 [
          | err x ↦ (err x, (add_to_flying_list a.clock a.timer_works id c).1)
          | ok u ↦ submit_to_backend a id (add_to_flying_list a.clock a.timer_works id c).1
        ])
    after p = finish (add_to_flying_list a.clock a.timer_works id c) (
        add_to_flying_list-Step a id (ctx.store id).timeout ctx c
          (modify-IsOpen id reset ctx m (IsOpen-valid id false ctx m v)) refl
          ((rw ((==_iff id id).1 refl) refl, λ j e. rw e refl), refl))
      where
        m : mem id ctx.flying ≡ false
        m = sym (v.listed id) ∙ p

    by_flight :
        (b : Bool) → (ctx.store id).in_flight ≡ b → Submits b a id ctx (submit_transfer a id ctx)
    by_flight true p = rw p refl
    by_flight false p = rw p (after p)
