-- ===== src/Linux/Iso.antt =====
-- The isochronous transfers of libusb/libusb/os/linux_usbfs.c: `submit_iso_transfer`, which cuts the
-- packets of a transfer into URBs.
pub mod Copy
pub mod Cut
pub mod Ends
pub mod Reap
pub mod Submitted
use zerousb.Prelude.{
  ℕ, zero, suc, ◌+◌, ◌-◌, ◌/◌, ◌%◌, ◌^◌, not, Bool, true, false, Option, none, some, List, [], ◌∷◌,
  ◌++◌, if◌then◌else◌, ◌==◌, ltb, length, take, drop,
}
use zerousb.Usb.{Error, io, no_device, no_mem, invalid_param, Success, success, Result, ok, err}
use zerousb.Linux.Bulk.Submit.{ReapAction, normal, submit_failed}

-- What is read of the transfer: the length of its buffer, and those of its packets, of which there are
-- num_iso_packets.
pub record IsoTransfer : Type 0 where
  pub length : ℕ
  pub packets : List ℕ

-- struct usbfs_urb: where its buffer starts in that of the transfer, and the lengths of its packets.
pub record Urb : Type 0 where
  pub offset : ℕ
  pub packets : List ℕ

-- struct linux_transfer_priv; `urbs` is whether the array is allocated.
pub record Priv : Type 0 where
  pub urbs : Bool
  pub reap_action : ReapAction
  pub num_urbs : ℕ
  pub num_retired : ℕ
  pub iso_packet_offset : ℕ

-- MAX_ISO_PACKETS_PER_URB
abbrev pub max_packets : ℕ
max_packets = 128

-- The loop over the packets; `total_len` is an unsigned int.
unfoldable pub sum_packets : ℕ → ℕ → List ℕ → Result ℕ
sum_packets max_len total [] = ok total
sum_packets max_len total (len ∷ lens) =
    let rest = sum_packets max_len ((total + len) % 2 ^ 32) lens in
    if ltb max_len len then err invalid_param else rest

-- transfer->length < (int)total_len
abbrev pub is_too_short : ℕ → ℕ → Bool
is_too_short len total = if ltb total 0x80000000 then ltb len total else false

-- (num_packets + (MAX_ISO_PACKETS_PER_URB - 1)) / MAX_ISO_PACKETS_PER_URB
abbrev pub urbs_needed : ℕ → ℕ
urbs_needed n = (n + (max_packets - 1)) / max_packets

-- buffer_length
unfoldable pub sum : List ℕ → ℕ
sum [] = 0
sum (x ∷ xs) = x + sum xs

-- for (i = 0, j = 0; i < num_urbs; i++): `left` URBs from the i-th on, for the packets that remain.
-- `granted` is whether calloc gives memory for urbs[i]; `none` where it does not.
unfoldable pub make_urbs : (ℕ → Bool) → ℕ → ℕ → ℕ → List ℕ → Option (List Urb)
make_urbs granted zero i offset packets = some []
make_urbs granted (suc left) i offset packets =
    let here = take max_packets packets in
    let rest = make_urbs granted left (i + 1) (offset + sum here) (drop max_packets packets) in
    if not (granted i) then none else elim rest [
      | none ↦ none
      | some urbs ↦ some (record { offset = offset; packets = here } ∷ urbs)
    ]

-- errno of IOCTL_USBFS_SUBMITURB.
pub data Errno : Type 0 where
  enodev einval emsgsize other_errno : Errno

abbrev pub submit_error : Errno → Error
submit_error enodev = no_device
submit_error einval = invalid_param
submit_error emsgsize = invalid_param
submit_error other_errno = io

-- What a submission leaves: the URBs that the kernel took, and those asked back, as the arguments of
-- `discard_urbs`.
pub record Sent : Type 0 where
  pub r : Result Success
  pub priv : Priv
  pub taken : List Urb
  pub discards : List (ℕ × ℕ)

abbrev pub refused : Error → Priv → Sent
refused x p = record { r = err x; priv = p; taken = []; discards = [] }

-- free_iso_urbs
abbrev pub free_iso_urbs : Priv → Priv
free_iso_urbs p = record p { urbs = false }

-- The kernel refused urbs[i].
abbrev pub fail_submit : Errno → ℕ → Priv → List Urb → Sent
fail_submit e i p taken =
    if i == 0
    then record { r = err (submit_error e); priv = free_iso_urbs p; taken = taken; discards = [] }
    else record {
      r = ok success;
      priv = record p { reap_action = submit_failed; num_retired = p.num_urbs - i };
      taken = taken;
      discards = (0, i) ∷ [];
    }

-- for (i = 0; i < num_urbs; i++) over the URBs from the i-th on, `taken` being those before.
unfoldable pub submit_loop : (ℕ → Option Errno) → List Urb → ℕ → Priv → List Urb → Sent
submit_loop ioctl [] i p taken = record { r = ok success; priv = p; taken = taken; discards = [] }
submit_loop ioctl (u ∷ us) i p taken = elim (ioctl i) [
  | none ↦ submit_loop ioctl us (i + 1) p (taken ++ u ∷ [])
  | some e ↦ fail_submit e i p taken
]

-- What the system answers: memory for the array and for each URB, and the kernel's answers.
pub record Answers : Type 0 where
  pub array : Bool
  pub urb : ℕ → Bool
  pub ioctl : ℕ → Option Errno

abbrev pub start_priv : ℕ → Priv
start_priv n = record {
  urbs = true;
  reap_action = normal;
  num_urbs = n;
  num_retired = 0;
  iso_packet_offset = 0;
}

abbrev pub submit_made : Answers → Priv → Option (List Urb) → Sent
submit_made a p none = refused no_mem (free_iso_urbs p)
submit_made a p (some urbs) = submit_loop a.ioctl urbs 0 p []

-- Behind the loop over the packets.
abbrev pub submit_summed : Answers → IsoTransfer → Priv → Result ℕ → Sent
submit_summed a t p (err x) = refused x p
submit_summed a t p (ok total) =
    let n = urbs_needed (length t.packets) in
    if is_too_short t.length total
    then refused invalid_param p
    else if not a.array
    then refused no_mem p
    else submit_made a (start_priv n) (make_urbs a.urb n 0 0 t.packets)

-- submit_iso_transfer; `max_len` is max_iso_packet_len, `p` what was there of an earlier transfer.
unfoldable pub submit_iso_transfer : ℕ → Answers → IsoTransfer → Priv → Sent
unfolding sum_packets make_urbs submit_loop
submit_iso_transfer max_len a t p =
    if ltb (length t.packets) 1
    then refused invalid_param p
    else submit_summed a t p (sum_packets max_len 0 t.packets)
