-- ===== src/Linux/Iso/Reap.antt =====
-- `handle_iso_completion` of libusb/libusb/os/linux_usbfs.c: the results of a URB are put into the
-- descriptors of the transfer's packets, and the transfer ends with its last URB.
use zerousb.Prelude.{
  ℕ, ◌+◌, not, Bool, true, false, Option, none, some, List, [], ◌∷◌, if◌then◌else◌, ◌==◌,
}
use zerousb.Io.Transfer.{Status, completed, error, stall, no_device, overflow}
use zerousb.Linux.Bulk.Submit.{ReapAction, normal, cancelled}
use zerousb.Linux.Iso.{Priv, free_iso_urbs}

-- The status of a packet, or of a URB: 0, or the errno that is told apart.
pub data PacketStatus : Type 0 where
  done enoent econnreset enodev eshutdown epipe eoverflow low_level unknown : PacketStatus

-- The switch over the status of a packet; `low_level` is ETIME, EPROTO, EILSEQ, ECOMM, ENOSR or EXDEV.
abbrev pub packet_status : PacketStatus → Status
packet_status done = completed
packet_status enoent = completed
packet_status econnreset = completed
packet_status enodev = no_device
packet_status eshutdown = no_device
packet_status epipe = stall
packet_status eoverflow = overflow
packet_status low_level = error
packet_status unknown = error

-- The switch over the status of a URB.
abbrev pub urb_status : PacketStatus → Status
urb_status done = completed
urb_status enoent = completed
urb_status econnreset = completed
urb_status eshutdown = no_device
urb_status other = error

-- struct usbfs_iso_packet_desc, and struct libusb_iso_packet_descriptor but for its length.
pub record Packet : Type 0 where
  pub status : PacketStatus
  pub actual_length : ℕ

pub record PacketResult : Type 0 where
  pub status : Status
  pub actual_length : ℕ

-- A URB that the kernel gives back: its place among the URBs of the transfer, if it is one of them.
pub record Reaped : Type 0 where
  pub index : Option ℕ
  pub status : PacketStatus
  pub packets : List Packet

-- The backend's data of the transfer and the results of its packets, by their numbers.
pub record Reap : Type 0 where
  pub priv : Priv
  pub results : ℕ → PacketResult

-- What a URB comes to: the transfer goes on, it ends with a status, its cancellation ends, or the URB is
-- none of the transfer (LIBUSB_ERROR_NOT_FOUND).
pub data Outcome : Type 0 where
  goes_on : Reap → Outcome
  ends : Status → Reap → Outcome
  ends_cancelled : Reap → Outcome
  not_found : Reap → Outcome

abbrev pub set_result : ℕ → PacketResult → (ℕ → PacketResult) → ℕ → PacketResult
set_result k v f j = if j == k then v else f j

-- for (i = 0; i < urb->number_of_packets; i++)
abbrev pub copy_results : List Packet → Reap → Reap
copy_results [] s = s
copy_results (p ∷ ps) s =
    let o = s.priv.iso_packet_offset in
    copy_results ps (record {
      priv = record s.priv { iso_packet_offset = o + 1 };
      results =
          set_result o (record { status = packet_status p.status; actual_length = p.actual_length })
            s.results;
    })

abbrev pub is_normal : ReapAction → Bool
is_normal a = elim a [ normal ↦ true | other ↦ false ]

abbrev pub is_cancelled : ReapAction → Bool
is_cancelled a = elim a [ cancelled ↦ true | other ↦ false ]

abbrev pub freed : Reap → Reap
freed s = record s { priv = free_iso_urbs s.priv }

-- From num_retired++ on; `idx` is urb_idx.
abbrev pub after_copy : ℕ → PacketStatus → Reap → Outcome
after_copy idx status s0 =
    let s = record s0 { priv = record s0.priv { num_retired = s0.priv.num_retired + 1 } } in
    if not (is_normal s.priv.reap_action)
    then (if s.priv.num_retired == s.priv.num_urbs
        then (if is_cancelled s.priv.reap_action
            then ends_cancelled (freed s)
            else ends error (freed s))
        else goes_on s)
    else if idx == s.priv.num_urbs
    then ends (urb_status status) (freed s)
    else goes_on s

abbrev pub handle_at : Option ℕ → Reaped → Reap → Outcome
handle_at none u s = not_found s
handle_at (some i) u s = after_copy (i + 1) u.status (copy_results u.packets s)

-- handle_iso_completion
unfoldable pub handle_iso_completion : Reaped → Reap → Outcome
handle_iso_completion u s = handle_at u.index u s

abbrev pub go_on : Outcome → (Reap → Outcome) → Outcome
go_on (goes_on s) k = k s
go_on other k = other

-- The URBs that the kernel gives back one after the other, up to the end of the transfer.
unfoldable pub reap_all : List Reaped → Reap → Outcome
unfolding handle_iso_completion
reap_all [] s = goes_on s
reap_all (u ∷ us) s = go_on (handle_iso_completion u s) (reap_all us)
