-- ===== src/Linux/Bulk/Submit.antt =====
-- `submit_bulk_transfer` of libusb/libusb/os/linux_usbfs.c splits a transfer into requests for the
-- kernel (URBs). The kernel's answers are arguments.
use zerousb.Prelude.{
  ℕ, zero, suc, ◌+◌, ◌-◌, ◌*◌, ◌/◌, ◌%◌, not, Bool, true, false, ◌&&◌, Option, none, some, List, [],
  ◌∷◌, ◌++◌, if◌then◌else◌, ◌==◌, ltb,
}
use zerousb.Usb.{Error, io, no_device, no_mem, not_supported, Success, success, Result, ok, err}
use zerousb.Io.Transfer.{Status, completed}

-- enum reap_action
pub data ReapAction : Type 0 where
  normal submit_failed cancelled completed_early error : ReapAction

-- The USBFS_CAP_ flags of the handle that are used here.
pub record Caps : Type 0 where
  pub zero_packet : Bool
  pub bulk_continuation : Bool
  pub no_packet_size_lim : Bool
  pub bulk_scatter_gather : Bool

-- What is read of the transfer; `add_zero_packet` is LIBUSB_TRANSFER_ADD_ZERO_PACKET.
pub record Bulk : Type 0 where
  pub length : ℕ
  pub is_out : Bool
  pub add_zero_packet : Bool

-- struct usbfs_urb: the offset of its buffer in that of the transfer, its length and its flags.
pub record Urb : Type 0 where
  pub offset : ℕ
  pub buffer_length : ℕ
  pub short_not_ok : Bool
  pub continuation : Bool
  pub zero_packet : Bool

-- struct linux_transfer_priv; `urbs` is whether the array is allocated.
pub record Priv : Type 0 where
  pub urbs : Bool
  pub reap_action : ReapAction
  pub num_urbs : ℕ
  pub num_retired : ℕ
  pub reap_status : Status

-- MAX_BULK_BUFFER_LENGTH
abbrev pub max_bulk_buffer_length : ℕ
max_bulk_buffer_length = 16384

abbrev pub whole_length : ℕ → ℕ
whole_length len = if len == 0 then 1 else len

unfoldable pub bulk_buffer_len : Caps → ℕ → ℕ
bulk_buffer_len caps len =
    if caps.bulk_scatter_gather
    then whole_length len
    else if caps.bulk_continuation
    then max_bulk_buffer_length
    else if caps.no_packet_size_lim
    then whole_length len
    else max_bulk_buffer_length

abbrev pub use_bulk_continuation : Caps → Bool
use_bulk_continuation caps = not caps.bulk_scatter_gather && caps.bulk_continuation

-- length % bulk_buffer_len > 0, of a length that is not 0.
abbrev pub last_urb_partial : ℕ → ℕ → Bool
last_urb_partial len part = not (len == 0) && ltb 0 (len % part)

unfoldable pub urbs_needed : ℕ → ℕ → ℕ
urbs_needed len part =
    if len == 0 then 1 else if ltb 0 (len % part) then len / part + 1 else len / part

-- urb->buffer_length of urbs[i], of n.
abbrev pub urb_length : ℕ → ℕ → ℕ → ℕ → ℕ
urb_length len part n i =
    if i == n - 1 && last_urb_partial len part then len % part else if len == 0 then 0 else part

-- urbs[i], of n.
unfoldable pub make_urb : Caps → Bulk → ℕ → ℕ → ℕ → Urb
make_urb caps t part n i = record {
  offset = i * part;
  buffer_length = urb_length t.length part n i;
  short_not_ok = use_bulk_continuation caps && not t.is_out && ltb i (n - 1);
  continuation = ltb 0 i && use_bulk_continuation caps;
  zero_packet = t.is_out && i == n - 1 && t.add_zero_packet;
}

-- errno of IOCTL_USBFS_SUBMITURB.
pub data Errno : Type 0 where
  enodev eremoteio other_errno : Errno

-- What a submission leaves: the URBs that the kernel took, and those asked back, as the arguments of
-- `discard_urbs`.
pub record Sent : Type 0 where
  pub r : Result Success
  pub priv : Priv
  pub taken : List Urb
  pub discards : List (ℕ × ℕ)

abbrev pub submit_error : Errno → Error
submit_error enodev = no_device
submit_error e = io

abbrev pub failed_action : Errno → ReapAction
failed_action eremoteio = completed_early
failed_action e = submit_failed

abbrev pub failed_discards : Errno → ℕ → List (ℕ × ℕ)
failed_discards eremoteio i = []
failed_discards e i = (0, i) ∷ []

-- The kernel refused urbs[i].
unfoldable pub fail_submit : Errno → ℕ → Priv → List Urb → Sent
fail_submit e i p taken =
    if i == 0
    then record {
      r = err (submit_error e);
      priv = record p { urbs = false };
      taken = taken;
      discards = [];
    }
    else record {
      r = ok success;
      priv = record p {
        reap_action = failed_action e;
        num_retired = p.num_retired + (p.num_urbs - i);
      };
      taken = taken;
      discards = failed_discards e i;
    }

-- for (i = 0; i < num_urbs; i++): `left` URBs from the i-th on. `ioctl` answers for each.
unfoldable pub submit_loop : (ℕ → Option Errno) → (ℕ → Urb) → ℕ → ℕ → Priv → List Urb → Sent
unfolding fail_submit
submit_loop ioctl urb zero i p taken = record {
  r = ok success;
  priv = p;
  taken = taken;
  discards = [];
}
submit_loop ioctl urb (suc left) i p taken = elim (ioctl i) [
  | none ↦ submit_loop ioctl urb left (i + 1) p (taken ++ urb i ∷ [])
  | some e ↦ fail_submit e i p taken
]

abbrev pub fresh_priv : ℕ → Priv
fresh_priv n = record {
  urbs = true;
  reap_action = normal;
  num_urbs = n;
  num_retired = 0;
  reap_status = completed;
}

abbrev pub unsent : Error → Priv → Sent
unsent x p = record { r = err x; priv = p; taken = []; discards = [] }

-- submit_bulk_transfer; `granted` is whether calloc gives memory.
unfoldable pub submit_bulk_transfer : (ℕ → Option Errno) → Bool → Caps → Bulk → Priv → Sent
unfolding bulk_buffer_len urbs_needed make_urb submit_loop
submit_bulk_transfer ioctl granted caps t p =
    let part = bulk_buffer_len caps t.length in
    let n = urbs_needed t.length part in
    if t.is_out && t.add_zero_packet && not caps.zero_packet
    then unsent not_supported p
    else if not granted
    then unsent no_mem p
    else submit_loop ioctl (make_urb caps t part n) n 0 (fresh_priv n) []
