-- ===== src/Tests/Bulk.antt =====
-- A bulk transfer of 40000 bytes on an old kernel, and a control transfer, through libusb/libusb/os/linux_usbfs.c.
use zerousb.Prelude.{
  ◌+◌, ℕ, ◌≡◌, ◌<◌, refl, true, false, Option, none, some, [], ◌∷◌, arith, ◌==◌, if◌then◌else◌,
}
use zerousb.Usb.{ok, success}
use zerousb.Io.Transfer.{stall}
use zerousb.Linux.Bulk.Submit.{
  Caps, Bulk, Errno, enodev, bulk_buffer_len, urbs_needed, submit_bulk_transfer, completed_early,
  make_urb, fresh_priv,
}
use zerousb.Linux.Bulk.Reap.{done, Reaped, Reap, handle_completion, reap_all}
use zerousb.Linux.Bulk.Split.{IsSent, submit_bulk_transfer-IsSent}
use zerousb.Linux.Bulk.Drain.{IsDrained, reap_all-IsDrained}
use zerousb.Linux.Bulk.Cancel.{DiscardErrno, einval, op_cancel_transfer}
use zerousb.Linux.Bulk.Cancel.Ends.{IsCancelled, op_cancel_transfer-IsCancelled}
use zerousb.Linux.Control.{
  submit_control_transfer, unlinked, status_of, cancellation, completion, handle_control_completion,
}
use zerousb.Linux.Control.Life.{attempts, handle_control_completion-submit_control_transfer}
use zerousb.Linux.Bulk.Early.{stalls, unlinks, under_way, reap_all-stalled}

abbrev old_kernel : Caps
old_kernel = record {
  zero_packet = false;
  bulk_continuation = false;
  no_packet_size_lim = false;
  bulk_scatter_gather = false;
}

abbrev inward : Bulk
inward = record { length = 40000; is_out = false; add_zero_packet = false }

-- The second URB is refused.
abbrev second_refused : ℕ → Option Errno
second_refused i = if i == 1 then some enodev else none

submit_bulk_transfer-IsSent_example :
    IsSent 40000
      (urbs_needed 40000 (bulk_buffer_len old_kernel 40000))
      (submit_bulk_transfer second_refused true old_kernel inward (fresh_priv 0))
submit_bulk_transfer-IsSent_example =
    submit_bulk_transfer-IsSent second_refused old_kernel inward (fresh_priv 0) refl

abbrev reaped : ℕ → ℕ → Reaped
reaped i n = record {
  idx = i;
  urb = make_urb old_kernel inward 16384 3 i;
  status = done;
  actual_length = n;
}

-- The first URB was short.
abbrev short : Reap
short = record {
  priv = record (fresh_priv 3) { reap_action = completed_early; num_retired = 1 };
  transferred = 100;
  moves = [];
  discards = (1, 3) ∷ [];
}

reap_all-IsDrained_example :
    IsDrained
      (reaped 2 0 ∷ reaped 1 512 ∷ [])
      short
      (reap_all (reaped 2 0 ∷ reaped 1 512 ∷ []) short)
reap_all-IsDrained_example =
    reap_all-IsDrained (reaped 2 0 ∷ reaped 1 512 ∷ []) short refl (omega arith) (omega arith)

abbrev begun : Reap
begun = record { priv = fresh_priv 3; transferred = 0; moves = []; discards = [] }

reap_all-stalled_example :
    (end : Reap) × (reap_all
        (stalls (reaped 0 0) ∷ unlinks (reaped 2 0) 3 ∷ reaped 1 0 ∷ [])
        (under_way begun)
      ≡ (handle_completion end stall, reaped 1 0 ∷ []))
    × (end.priv.urbs ≡ false)
    × (end.priv.num_retired < end.priv.num_urbs)
reap_all-stalled_example =
    reap_all-stalled (reaped 0 0) (reaped 2 0) begun (reaped 1 0 ∷ []) (omega arith)

abbrev all_found : ℕ → Option DiscardErrno
all_found i = none

abbrev never_found : ℕ → Option DiscardErrno
never_found i = some einval

begun-cancelled : (op_cancel_transfer all_found true (fresh_priv 3)).r ≡ ok success
unfolding op_cancel_transfer
begun-cancelled = refl

op_cancel_transfer-IsCancelled_example :
    IsCancelled
      (reaped 2 0 ∷ reaped 1 0 ∷ reaped 0 64 ∷ [])
      begun
      (op_cancel_transfer all_found true (fresh_priv 3))
op_cancel_transfer-IsCancelled_example =
    op_cancel_transfer-IsCancelled all_found true (reaped 2 0 ∷ reaped 1 0 ∷ reaped 0 64 ∷ []) begun
      (λ e. cc) (omega arith) (omega arith) begun-cancelled

control-submitted : (submit_control_transfer none true 10 (fresh_priv 0)).0 ≡ ok success
unfolding submit_control_transfer
control-submitted = refl

-- The second attempt to cancel finds the URB.
handle_control_completion-submit_control_transfer_example :
    let (was_cancelled, q) =
      attempts
        (never_found ∷ all_found ∷ [])
        (submit_control_transfer none true 10 (fresh_priv 0)).1 in
    (q.urbs ≡ true)
    × (handle_control_completion unlinked 2 q 0 ≡ (
      (if was_cancelled then cancellation else completion (status_of unlinked)),
      record q { urbs = false },
      0 + 2,
    ))
handle_control_completion-submit_control_transfer_example =
    handle_control_completion-submit_control_transfer none true 10 (fresh_priv 0)
      (never_found ∷ all_found ∷ []) unlinked 2 0 control-submitted
