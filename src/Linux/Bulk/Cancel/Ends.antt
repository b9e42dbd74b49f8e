-- ===== src/Linux/Bulk/Cancel/Ends.antt =====
-- A cancelled transfer of libusb/libusb/os/linux_usbfs.c is reported as cancelled.
use zerousb.Prelude.{
  ℕ, zero, suc, ◌+◌, ◌-◌, ◌≡◌, ◌≢◌, ◌<◌, refl, ap, ap₂, ◌∙◌, not, Bool, true, false, Option, none,
  some, List, [], ◌∷◌, if◌then◌else◌, length, arith,
}
use zerousb.Usb.{Error, not_found, success, ok, err}
use zerousb.Linux.Bulk.Submit.{
  ReapAction, normal, submit_failed, cancelled, completed_early, error, Priv,
}
use zerousb.Linux.Bulk.Reap.{Reaped, Reap, handle_cancellation, is_normal, report_as, reap_all}
use zerousb.Linux.Bulk.Drain.{total_length, reap_all-IsDrained}
use zerousb.Linux.Bulk.Cancel.{
  DiscardErrno, discard_loop, discard_urbs, cancelled_action, Cancelled, after_discard,
  op_cancel_transfer,
}

-- n - 1 down to 0.
abbrev pub downwards : ℕ → List ℕ
downwards zero = []
downwards (suc n) = n ∷ downwards n

discard_loop-asked :
    (ioctl : ℕ → Option DiscardErrno) (last n : ℕ) (ret : Option Error)
    → (discard_loop ioctl 0 last n ret).1 ≡ downwards n
unfolding discard_loop
discard_loop-asked ioctl last zero ret = refl
discard_loop-asked ioctl last (suc n) ret =
    let z : 0 + n ≡ n = omega arith in ap₂ (λ i is. i ∷ is) z (discard_loop-asked ioctl last n _)

-- The state with what the cancellation left.
abbrev pub with_priv : Priv → Reap → Reap
with_priv p s = record s { priv = p }

-- What a successful cancellation comes to: all URBs were asked back, the last one first; and once those
-- that are outstanding are given back, the transfer is reported as cancelled.
abbrev pub IsCancelled : List Reaped → Reap → Cancelled → Type 0
IsCancelled us s c =
    (c.asked ≡ downwards s.priv.num_urbs)
    × (end : Reap) × (reap_all us (with_priv c.priv s) ≡ (handle_cancellation end, []))
    × (end.transferred ≡ s.transferred + total_length us)
    × (end.priv.urbs ≡ false)

cancelled_action-cancelled :
    (is_bulk : Bool) (a : ReapAction) → a ≢ error → cancelled_action is_bulk a ≡ cancelled
cancelled_action-cancelled is_bulk normal h = refl
cancelled_action-cancelled is_bulk submit_failed h = refl
cancelled_action-cancelled is_bulk cancelled h = refl
cancelled_action-cancelled is_bulk completed_early h = refl
cancelled_action-cancelled is_bulk error h = absurd (h refl)

drained-IsCancelled :
    (us : List Reaped) (s : Reap) (a : ReapAction) (is : List ℕ)
    → a ≡ cancelled
    → 0 < length us
    → s.priv.num_retired + length us ≡ s.priv.num_urbs
    → is ≡ downwards s.priv.num_urbs
    → IsCancelled us s
        (record { r = ok success; priv = record s.priv { reap_action = a }; asked = is })
drained-IsCancelled us s a is e z l d =
    let (end, q, b, f, st) =
      reap_all-IsDrained us (with_priv (record s.priv { reap_action = a }) s) (ap is_normal e) z
        l in
    (d, end, q ∙ ap (λ w. (report_as w end, [])) e, b, f)

-- If `op_cancel_transfer` succeeds on a transfer without a low-level error, whatever else happened to it
-- before, then it has asked all URBs back, the last one first; and once the URBs that are outstanding
-- are given back, in whatever order and with whatever statuses and lengths, the last of them reports
-- the transfer as cancelled, with the bytes of all of them counted.
pub op_cancel_transfer-IsCancelled :
    (ioctl : ℕ → Option DiscardErrno) (is_bulk : Bool) (us : List Reaped) (s : Reap)
    → s.priv.reap_action ≢ error
    → 0 < length us
    → s.priv.num_retired + length us ≡ s.priv.num_urbs
    → (op_cancel_transfer ioctl is_bulk s.priv).r ≡ ok success
    → IsCancelled us s (op_cancel_transfer ioctl is_bulk s.priv)
unfolding op_cancel_transfer discard_urbs
op_cancel_transfer-IsCancelled ioctl is_bulk us s h z l e = by_urbs s.priv.urbs e
  where
    by_discard :
        (o : Option Error × List ℕ)
        → o.1 ≡ downwards s.priv.num_urbs
        → (after_discard is_bulk s.priv o).r ≡ ok success
        → IsCancelled us s (after_discard is_bulk s.priv o)
    by_discard (some x, is) d e = cc
    by_discard (none, is) d e =
        drained-IsCancelled us s (cancelled_action is_bulk s.priv.reap_action) is
          (cancelled_action-cancelled is_bulk s.priv.reap_action h) z l d

    answer : Bool → Cancelled
    answer b =
        if not b
        then record { r = err not_found; priv = s.priv; asked = [] }
        else after_discard is_bulk s.priv (discard_urbs ioctl 0 s.priv.num_urbs)

    by_urbs : (b : Bool) → (answer b).r ≡ ok success → IsCancelled us s (answer b)
    by_urbs false e = cc
    by_urbs true e =
        let n : s.priv.num_urbs - 0 ≡ s.priv.num_urbs = omega arith in
        by_discard _
          (discard_loop-asked ioctl s.priv.num_urbs (s.priv.num_urbs - 0) none ∙ ap downwards n) e
