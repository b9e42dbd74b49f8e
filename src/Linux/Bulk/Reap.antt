-- ===== src/Linux/Bulk/Reap.antt =====
-- `handle_bulk_completion` of libusb/libusb/os/linux_usbfs.c takes the URBs of a transfer back.
use zerousb.Prelude.{
  ℕ, ◌+◌, ◌-◌, not, Bool, true, false, List, [], ◌∷◌, ◌++◌, if◌then◌else◌, ◌==◌, ltb,
}
use zerousb.Io.Transfer.{Status, completed, stall}
use zerousb.Linux.Bulk.Submit.{Priv, ReapAction, Urb, cancelled, completed_early, error, normal}

-- urb->status: 0, EREMOTEIO, ENOENT or ECONNRESET, ENODEV or ESHUTDOWN, EPIPE, EOVERFLOW, and the others.
pub data UrbStatus : Type 0 where
  done remoteio unlinked gone stalled overflowed low_level unrecognised : UrbStatus

-- An URB that the kernel gives back.
pub record Reaped : Type 0 where
  pub idx : ℕ
  pub urb : Urb
  pub status : UrbStatus
  pub actual_length : ℕ

-- The moves of surplus data in the buffer: from, to, how much.
pub record Move : Type 0 where
  pub source : ℕ
  pub target : ℕ
  pub size : ℕ

pub record Reap : Type 0 where
  pub priv : Priv
  pub transferred : ℕ
  pub moves : List Move
  pub discards : List (ℕ × ℕ)

-- The transfer goes on, or the array is freed and the transfer is reported: as cancelled, or with a
-- status.
pub data Outcome : Type 0 where
  waiting : Reap → Outcome
  handle_cancellation : Reap → Outcome
  handle_completion : Reap → Status → Outcome

abbrev pub is_normal : ReapAction → Bool
is_normal normal = true
is_normal a = false

abbrev pub is_completed : Status → Bool
is_completed completed = true
is_completed s = false

-- completed: the array is freed.
abbrev pub report_as : ReapAction → Reap → Outcome
report_as cancelled s = handle_cancellation s
report_as a s = handle_completion s s.priv.reap_status

abbrev pub report : Reap → Outcome
report s = report_as s.priv.reap_action (record s { priv = record s.priv { urbs = false } })

abbrev pub set_action : ReapAction → Reap → Reap
set_action a s = record s { priv = record s.priv { reap_action = a } }

-- reap_status = s, if it is still LIBUSB_TRANSFER_COMPLETED.
abbrev pub set_status : Status → Reap → Reap
set_status st s = record s {
  priv = record s.priv {
    reap_status = if is_completed s.priv.reap_status then st else s.priv.reap_status;
  };
}

-- cancel_remaining: the URBs behind the i-th are asked back, unless all are retired.
abbrev pub low_level_status : ReapAction → Reap → Reap
low_level_status error s = set_status Status.error s
low_level_status a s = s

abbrev pub cancel_retired : ℕ → Reap → Outcome
cancel_retired i s =
    if s.priv.num_retired == s.priv.num_urbs
    then report s
    else waiting (record s { discards = s.discards ++ (i + 1, s.priv.num_urbs) ∷ [] })

abbrev pub cancel_remaining : ℕ → Reap → Outcome
cancel_remaining i s = cancel_retired i (low_level_status s.priv.reap_action s)

-- After a status that is no error.
abbrev pub after_status : Reaped → Reap → Outcome
after_status u s =
    if u.idx == s.priv.num_urbs - 1
    then report s
    else if ltb u.actual_length u.urb.buffer_length
    then cancel_remaining u.idx
        (if is_normal s.priv.reap_action then set_action completed_early s else s)
    else waiting s

-- The switch on the status.
abbrev pub by_status : UrbStatus → Reaped → Reap → Outcome
by_status done u s = after_status u s
by_status remoteio u s = after_status u s
by_status unlinked u s = after_status u s
by_status gone u s =
    cancel_remaining u.idx (record s { priv = record s.priv { reap_status = Status.no_device } })
by_status stalled u s = cancel_remaining u.idx (set_status stall s)
by_status overflowed u s = report (set_status Status.overflow s)
by_status low_level u s = cancel_remaining u.idx (set_action error s)
by_status unrecognised u s = cancel_remaining u.idx (set_action error s)

-- Surplus data is moved to the end of what was transferred.
abbrev pub add_surplus : Reaped → Reap → Reap
add_surplus u s =
    if ltb 0 u.actual_length
    then record s {
      moves =
          if u.urb.offset == s.transferred
          then s.moves
          else s.moves
            ++ record { source = u.urb.offset; target = s.transferred; size = u.actual_length }
              ∷ [];
      transferred = s.transferred + u.actual_length;
    }
    else s

-- reap_status = LIBUSB_TRANSFER_ERROR, except where the transfer ended early.
abbrev pub abnormal_status : ReapAction → Reap → Reap
abnormal_status completed_early s = s
abnormal_status a s = set_status Status.error s

-- Where reap_action is not NORMAL.
abbrev pub reap_abnormal : Reaped → Reap → Outcome
reap_abnormal u s =
    let s' = add_surplus u s in
    if s.priv.num_retired == s.priv.num_urbs
    then report (abnormal_status s.priv.reap_action s')
    else waiting s'

abbrev pub retire : Reap → Reap
retire s = record s { priv = record s.priv { num_retired = s.priv.num_retired + 1 } }

unfoldable pub handle_bulk_completion : Reaped → Reap → Outcome
handle_bulk_completion u s =
    if not (is_normal s.priv.reap_action)
    then reap_abnormal u (retire s)
    else by_status u.status u (record (retire s) { transferred = s.transferred + u.actual_length })

-- URBs given back one after the other, until the transfer is reported; and the URBs not looked at.
unfoldable pub reap_all : List Reaped → Reap → Outcome × List Reaped
unfolding handle_bulk_completion
reap_all [] s = (waiting s, [])
reap_all (u ∷ us) s = elim (handle_bulk_completion u s) [
  | waiting s' ↦ reap_all us s'
  | handle_cancellation s' ↦ (handle_cancellation s', us)
  | handle_completion s' st ↦ (handle_completion s' st, us)
]
