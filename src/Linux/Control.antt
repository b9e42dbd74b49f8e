-- ===== src/Linux/Control.antt =====
-- Control transfers in libusb/libusb/os/linux_usbfs.c: `submit_control_transfer` and
-- `handle_control_completion`. A control transfer is a single URB.
pub mod Life
use zerousb.Prelude.{ℕ, ◌+◌, not, Bool, true, false, Option, none, some, if◌then◌else◌, ltb}
use zerousb.Usb.{Error, io, no_device, no_mem, invalid_param, Success, success, Result, ok, err}
use zerousb.Io.Transfer.{Status, completed, stall}
use zerousb.Linux.Bulk.Submit.{ReapAction, normal, cancelled, Priv, Errno, submit_error}

-- MAX_CTRL_BUFFER_LENGTH and LIBUSB_CONTROL_SETUP_SIZE
abbrev pub max_ctrl_buffer_length : ℕ
max_ctrl_buffer_length = 4096

abbrev pub control_setup_size : ℕ
control_setup_size = 8

-- What the kernel answers to the submission; `submitted` is the transfer with its URB.
abbrev pub submitted : Priv → Priv
submitted p = record p { urbs = true; num_urbs = 1; reap_action = normal }

abbrev pub after_ioctl : Option Errno → Priv → Result Success × Priv
after_ioctl none p = (ok success, p)
after_ioctl (some e) p = (err (submit_error e), record p { urbs = false })

-- submit_control_transfer of `length` bytes; `granted` is whether calloc gives memory.
unfoldable pub submit_control_transfer : Option Errno → Bool → ℕ → Priv → Result Success × Priv
submit_control_transfer ioctl granted length p =
    if ltb (max_ctrl_buffer_length + control_setup_size) length
    then (err invalid_param, p)
    else if not granted
    then (err no_mem, p)
    else after_ioctl ioctl (submitted p)

-- urb->status: 0, ENOENT, ENODEV or ESHUTDOWN, EPIPE, EOVERFLOW, and the others.
pub data ControlStatus : Type 0 where
  done unlinked gone unsupported overflowed low_level unrecognised : ControlStatus

unfoldable pub status_of : ControlStatus → Status
status_of done = completed
status_of unlinked = Status.cancelled
status_of gone = Status.no_device
status_of unsupported = stall
status_of overflowed = Status.overflow
status_of low_level = Status.error
status_of unrecognised = Status.error

-- The report: usbi_handle_transfer_cancellation, or usbi_handle_transfer_completion with a status.
pub data Report : Type 0 where
  cancellation : Report
  completion : Status → Report

abbrev pub report_of : ReapAction → ControlStatus → Report
report_of cancelled st = cancellation
report_of a st = completion (status_of st)

-- The report, the transfer then and the bytes transferred.
unfoldable pub handle_control_completion : ControlStatus → ℕ → Priv → ℕ → Report × Priv × ℕ
unfolding status_of
handle_control_completion st actual_length p transferred =
    (report_of p.reap_action st, record p { urbs = false }, transferred + actual_length)
