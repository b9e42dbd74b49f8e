-- ===== src/Linux/Bulk/Cancel.antt =====
-- Cancellation in libusb/libusb/os/linux_usbfs.c: `discard_urbs` and `op_cancel_transfer`.
pub mod Ends
use zerousb.Prelude.{
  ℕ, zero, suc, ◌+◌, ◌-◌, not, Bool, Option, none, some, List, [], ◌∷◌, if◌then◌else◌, ◌==◌,
}
use zerousb.Usb.{Error, no_device, not_found, other, Success, success, Result, ok, err}
use zerousb.Linux.Bulk.Submit.{ReapAction, error, cancelled, Priv}

-- errno of IOCTL_USBFS_DISCARDURB, where it is not 0.
pub data DiscardErrno : Type 0 where
  einval no_such_device other_discard : DiscardErrno

-- `ret` after the i-th URB.
abbrev pub discard_ret : Option DiscardErrno → ℕ → ℕ → Option Error → Option Error
discard_ret none i last_plus_one ret = ret
discard_ret (some einval) i last_plus_one ret =
    if i == last_plus_one - 1 then some not_found else ret
discard_ret (some no_such_device) i last_plus_one ret = some no_device
discard_ret (some other_discard) i last_plus_one ret = some other

-- for (i = last_plus_one - 1; i >= first; i--) with `left` URBs left: the value returned, and the URBs
-- in the order in which they are asked back.
unfoldable pub discard_loop :
    (ℕ → Option DiscardErrno) → ℕ → ℕ → ℕ → Option Error → Option Error × List ℕ
discard_loop ioctl first last_plus_one zero ret = (ret, [])
discard_loop ioctl first last_plus_one (suc left) ret =
    let i = first + left in
    let (r, is) =
      discard_loop ioctl first last_plus_one left (discard_ret (ioctl i) i last_plus_one ret) in
    (r, i ∷ is)

unfoldable pub discard_urbs : (ℕ → Option DiscardErrno) → ℕ → ℕ → Option Error × List ℕ
unfolding discard_loop
discard_urbs ioctl first last_plus_one =
    discard_loop ioctl first last_plus_one (last_plus_one - first) none

-- The switch on the transfer's type: a low-level error is kept in a bulk transfer, and the others are
-- marked as cancelled.
abbrev pub cancelled_action : Bool → ReapAction → ReapAction
cancelled_action is_bulk error = if is_bulk then error else cancelled
cancelled_action is_bulk a = cancelled

-- What op_cancel_transfer answers, leaves and asks back.
pub record Cancelled : Type 0 where
  pub r : Result Success
  pub priv : Priv
  pub asked : List ℕ

abbrev pub after_discard : Bool → Priv → Option Error × List ℕ → Cancelled
after_discard is_bulk p (some x, is) = record { r = err x; priv = p; asked = is }
after_discard is_bulk p (none, is) = record {
  r = ok success;
  priv = record p { reap_action = cancelled_action is_bulk p.reap_action };
  asked = is;
}

unfoldable pub op_cancel_transfer : (ℕ → Option DiscardErrno) → Bool → Priv → Cancelled
unfolding discard_urbs
op_cancel_transfer ioctl is_bulk p =
    if not p.urbs
    then record { r = err not_found; priv = p; asked = [] }
    else after_discard is_bulk p (discard_urbs ioctl 0 p.num_urbs)
