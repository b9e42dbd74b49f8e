-- ===== src/Linux/Iso/Ends.antt =====
-- When an isochronous transfer of libusb/libusb/os/linux_usbfs.c ends, and with which results.
use zerousb.Prelude.{ℕ, ◌+◌, ◌≡◌, ◌⊎◌, false, some, List, [], ◌∷◌, if◌then◌else◌, length, map}
use zerousb.Io.Transfer.{Status, error}
use zerousb.Linux.Bulk.Submit.{normal}
use zerousb.Linux.Iso.Reap.{
  PacketStatus, urb_status, Packet, Reaped, Reap, Outcome, goes_on, ends, ends_cancelled, not_found,
  copy_results, is_normal, is_cancelled,
}
use zerousb.Linux.Iso.Copy.{result_of, written}

-- The array is freed, and the packets' results are those given, the other ones being what they were.
abbrev pub Finished : List Packet → Reap → Reap → Type 0
Finished ps s fin =
    (fin.priv.urbs ≡ false)
    × (fin.priv.num_retired ≡ s.priv.num_urbs)
    × ((j : ℕ) → fin.results j ≡ written s.priv.iso_packet_offset (map result_of ps) s.results j)

abbrev pub EndsAs : Status → List Packet → Reap → Outcome → Type 0
EndsAs st ps s (ends t fin) = (t ≡ st) × Finished ps s fin
EndsAs st ps s (goes_on fin) = ⊥
EndsAs st ps s (ends_cancelled fin) = ⊥
EndsAs st ps s (not_found fin) = ⊥

abbrev pub EndsCancelled : List Packet → Reap → Outcome → Type 0
EndsCancelled ps s (ends_cancelled fin) = Finished ps s fin
EndsCancelled ps s (goes_on fin) = ⊥
EndsCancelled ps s (ends st fin) = ⊥
EndsCancelled ps s (not_found fin) = ⊥

-- The end of a transfer whose submission broke off or that was cancelled.
abbrev pub EndsAbnormally : List Packet → Reap → Outcome → Type 0
EndsAbnormally ps s o =
    if is_cancelled s.priv.reap_action then EndsCancelled ps s o else EndsAs error ps s o

-- The URBs come back in the order of their places, from the i-th on.
abbrev pub InOrder : ℕ → List Reaped → Type 0
InOrder i [] = Unit {0}
InOrder i (u ∷ us) = (u.index ≡ some i) × InOrder (i + 1) us

-- Each is one of the transfer's.
abbrev pub Known : List Reaped → Type 0
Known [] = Unit {0}
Known (u ∷ us) = ((i : ℕ) × (u.index ≡ some i)) × Known us

abbrev pub last_status : PacketStatus → List Reaped → PacketStatus
last_status st [] = st
last_status st (u ∷ us) = last_status u.status us

-- The URB behind which the transfer goes on.
abbrev counted : List Packet → Reap → Reap
counted ps s =
    let c = copy_results ps s in
    record c { priv = record c.priv { num_retired = c.priv.num_retired + 1 } }

-- What the kernel gives back of a transfer that is under way: all its URBs that are not retired, in
-- their order; or, where the submission broke off or the transfer was cancelled, in any order.
abbrev pub IsGivenBack : List Reaped → Reap → Type 0
IsGivenBack us s =
    (s.priv.num_urbs ≡ s.priv.num_retired + length us)
    × (((s.priv.reap_action ≡ normal) × InOrder s.priv.num_retired us)
        ⊎ ((is_normal s.priv.reap_action ≡ false) × Known us))

abbrev pub IsOver : PacketStatus → List Packet → Reap → Outcome → Type 0
IsOver st ps s o =
    if is_normal s.priv.reap_action then EndsAs (urb_status st) ps s o else EndsAbnormally ps s o
