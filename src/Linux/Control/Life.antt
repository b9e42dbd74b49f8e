-- ===== src/Linux/Control/Life.antt =====
-- A control transfer of libusb/libusb/os/linux_usbfs.c from its submission to its report.
use zerousb.Prelude.{
  ℕ, ◌+◌, ◌≡◌, refl, ap, subst, ◌∙◌, Bool, true, false, not, ◌||◌, Option, none, some, List, [],
  ◌∷◌, if◌then◌else◌, ltb,
}
use zerousb.Usb.{Error, not_found, invalid_param, no_mem, Success, success, Result, ok, err}
use zerousb.Linux.Bulk.Submit.{
  ReapAction, normal, submit_failed, cancelled, completed_early, error, Priv, Errno,
}
use zerousb.Linux.Bulk.Cancel.{
  DiscardErrno, cancelled_action, Cancelled, after_discard, discard_urbs, op_cancel_transfer,
}
use zerousb.Linux.Control.{
  max_ctrl_buffer_length, control_setup_size, after_ioctl, submitted, submit_control_transfer,
  ControlStatus, status_of, cancellation, completion, report_of, handle_control_completion,
}

-- Attempts to cancel a transfer that is no bulk transfer, with the kernel's answers to each: whether one
-- of them succeeded, and the transfer then.
abbrev pub is_ok : Result Success → Bool
is_ok (ok u) = true
is_ok (err x) = false

abbrev pub attempts : List (ℕ → Option DiscardErrno) → Priv → Bool × Priv
attempts [] p = (false, p)
attempts (ioctl ∷ ioctls) p =
    let c = op_cancel_transfer ioctl false p in
    let (b, q) = attempts ioctls c.priv in (is_ok c.r || b, q)

cancelled_action-cancelled : (a : ReapAction) → cancelled_action false a ≡ cancelled
cancelled_action-cancelled normal = refl
cancelled_action-cancelled submit_failed = refl
cancelled_action-cancelled cancelled = refl
cancelled_action-cancelled completed_early = refl
cancelled_action-cancelled error = refl

-- The URB is with the kernel, and the transfer is marked as cancelled or not.
abbrev pub IsMarked : Bool → Priv → Type 0
IsMarked b p = (p.urbs ≡ true) × (p.reap_action ≡ (if b then cancelled else normal))

or_false : (c : Bool) → (c || false) ≡ c
or_false true = refl
or_false false = refl

or_true : (c : Bool) → (c || true) ≡ true
or_true true = refl
or_true false = refl

or_assoc : (a b c : Bool) → ((a || b) || c) ≡ (a || (b || c))
or_assoc true b c = refl
or_assoc false b c = refl

op_cancel_transfer-IsMarked :
    (ioctl : ℕ → Option DiscardErrno) (b : Bool) (p : Priv)
    → IsMarked b p
    → (let c = op_cancel_transfer ioctl false p in IsMarked (b || is_ok c.r) c.priv)
unfolding op_cancel_transfer
op_cancel_transfer-IsMarked ioctl b p (u, m) = by_urbs p.urbs u
  where
    by_discard :
        (o : Option Error × List ℕ)
        → (let c = after_discard false p o in IsMarked (b || is_ok c.r) c.priv)
    by_discard (some x, is) = (u, rw (or_false b) m)
    by_discard (none, is) = (u, rw (or_true b) (cancelled_action-cancelled p.reap_action))

    answer : Bool → Cancelled
    answer c =
        if not c
        then record { r = err not_found; priv = p; asked = [] }
        else after_discard false p (discard_urbs ioctl 0 p.num_urbs)

    by_urbs : (c : Bool) → c ≡ true → IsMarked (b || is_ok (answer c).r) (answer c).priv
    by_urbs true e = by_discard (discard_urbs ioctl 0 p.num_urbs)
    by_urbs false e = cc

attempts-IsMarked :
    (ioctls : List (ℕ → Option DiscardErrno)) (b : Bool) (p : Priv)
    → IsMarked b p
    → (let (c, q) = attempts ioctls p in IsMarked (b || c) q)
attempts-IsMarked [] b p m = (m.0, rw (or_false b) m.1)
attempts-IsMarked (ioctl ∷ ioctls) b p m =
    let c = op_cancel_transfer ioctl false p in
    let rest =
      attempts-IsMarked ioctls (b || is_ok c.r) c.priv (op_cancel_transfer-IsMarked ioctl b p m) in
    let (d, q) = attempts ioctls c.priv in subst (λ z. IsMarked z q) (or_assoc b (is_ok c.r) d) rest

submitted-IsMarked :
    (ioctl : Option Errno) (granted : Bool) (length : ℕ) (p : Priv)
    → (submit_control_transfer ioctl granted length p).0 ≡ ok success
    → IsMarked false (submit_control_transfer ioctl granted length p).1
unfolding submit_control_transfer
submitted-IsMarked ioctl granted length p e =
    by_tests (ltb (max_ctrl_buffer_length + control_setup_size) length) granted ioctl e
  where
    answer : Bool → Bool → Option Errno → Result Success × Priv
    answer large g o =
        if large
        then (err invalid_param, p)
        else if not g
        then (err no_mem, p)
        else after_ioctl o (submitted p)

    by_tests :
        (large g : Bool) (o : Option Errno)
        → (answer large g o).0 ≡ ok success
        → IsMarked false (answer large g o).1
    by_tests true g o e = cc
    by_tests false false o e = cc
    by_tests false true none e = (refl, refl)
    by_tests false true (some x) e = cc

-- After a successful `submit_control_transfer` and any number of attempts to cancel the transfer,
-- whatever the kernel answers to them, the completion of its URB frees the URB and reports the
-- transfer: as cancelled if an attempt succeeded, and otherwise with the status that belongs to the
-- URB's; the bytes of the URB are counted.
pub handle_control_completion-submit_control_transfer :
    (ioctl : Option Errno) (granted : Bool) (length : ℕ) (p : Priv)
    (ioctls : List (ℕ → Option DiscardErrno)) (st : ControlStatus) (n transferred : ℕ)
    → (submit_control_transfer ioctl granted length p).0 ≡ ok success
    → (let (was_cancelled, q) =
          attempts ioctls (submit_control_transfer ioctl granted length p).1 in
        (q.urbs ≡ true)
        × (handle_control_completion st n q transferred ≡ (
          (if was_cancelled then cancellation else completion (status_of st)),
          record q { urbs = false },
          transferred + n,
        )))
unfolding handle_control_completion
handle_control_completion-submit_control_transfer ioctl granted length p ioctls st n transferred e =
    let (c, q) = attempts ioctls (submit_control_transfer ioctl granted length p).1 in
    let (u, m) = attempts-IsMarked ioctls false _ (submitted-IsMarked ioctl granted length p e) in
    (
      u,
      ap (λ r. (r, record q { urbs = false }, transferred + n))
          (ap (λ a. report_of a st) m ∙ by_mark c),
    )
  where
    by_mark :
        (c : Bool)
        → report_of (if c then cancelled else normal) st
          ≡ (if c then cancellation else completion (status_of st))
    by_mark true = refl
    by_mark false = refl
