-- ===== src/Linux/Iso/Copy.antt =====
-- How `handle_iso_completion` of libusb/libusb/os/linux_usbfs.c copies the results of the packets.
use zerousb.Prelude.{
  ℕ, suc, ◌+◌, ◌-◌, ◌≡◌, refl, sym, ap, ◌∙◌, true, false, List, [], ◌∷◌, ◌++◌, if◌then◌else◌, ◌==◌,
  ltb, length, get_or, map, Bool-cases, inl, inr, arith,
}
use zerousb.Linux.Iso.Reap.{
  packet_status, Packet, PacketResult, Reaped, Reap, set_result, copy_results,
}

abbrev pub result_of : Packet → PacketResult
result_of p = record { status = packet_status p.status; actual_length = p.actual_length }

-- The results from the o-th on are given, and the others are what they were.
abbrev pub written : ℕ → List PacketResult → (ℕ → PacketResult) → ℕ → PacketResult
written o rs f j = if ltb j o then f j else get_or rs (j - o) (f j)

-- The packets of the URBs, in the order in which these come back.
abbrev pub all_packets : List Reaped → List Packet
all_packets [] = []
all_packets (u ∷ us) = u.packets ++ all_packets us

written-set_result :
    (o : ℕ) (r : PacketResult) (rs : List PacketResult) (f : ℕ → PacketResult) (j : ℕ)
    → written (o + 1) rs (set_result o r f) j ≡ written o (r ∷ rs) f j
written-set_result o r rs f j = elim (Bool-cases (ltb j o)) [
  | inl e ↦
      let a : ltb j (o + 1) ≡ true = ground arith in
      let b : (j == o) ≡ false = ground arith in rw (e, a, b) refl
  | inr e ↦ elim (Bool-cases (j == o)) [
    | inl q ↦
        let a : ltb j (o + 1) ≡ true = ground arith in
        let z : j - o ≡ 0 = ground arith in rw (e, a, q, z) refl
    | inr q ↦
        let a : ltb j (o + 1) ≡ false = ground arith in
        let z : j - o ≡ suc (j - (o + 1)) = ground arith in rw (e, a, q, z) refl
  ]
]

-- What is written depends on what was there at the place only.
pub written-same :
    (o : ℕ) (rs : List PacketResult) (f g : ℕ → PacketResult) (j : ℕ)
    → f j ≡ g j
    → written o rs f j ≡ written o rs g j
written-same o rs f g j e = rw e refl

pub copy-results :
    (ps : List Packet) (s : Reap) (j : ℕ)
    → (copy_results ps s).results j
      ≡ written s.priv.iso_packet_offset (map result_of ps) s.results j
copy-results [] s j = ground arith
copy-results (p ∷ ps) s j =
    copy-results ps _ j
    ∙ written-set_result s.priv.iso_packet_offset (result_of p) (map result_of ps) s.results j

pub copy-priv :
    (ps : List Packet) (s : Reap)
    → (copy_results ps s).priv
      ≡ record s.priv { iso_packet_offset = s.priv.iso_packet_offset + length ps }
copy-priv [] s = ground arith
copy-priv (p ∷ ps) s = copy-priv ps _ ∙ ground arith

pub append-nil : (xs : List Packet) → xs ++ [] ≡ xs
append-nil [] = refl
append-nil (x ∷ xs) = ap (x ∷◌) (append-nil xs)

pub written-append :
    (o : ℕ) (ps qs : List Packet) (f : ℕ → PacketResult) (j : ℕ)
    → written (o + length ps) (map result_of qs) (written o (map result_of ps) f) j
      ≡ written o (map result_of (ps ++ qs)) f j
written-append o [] qs f j =
    let z : o + 0 ≡ o = omega arith in
    rw z (written-same o (map result_of qs) (written o [] f) f j (ground arith))
written-append o (p ∷ ps) qs f j =
    let n : o + suc (length ps) ≡ o + 1 + length ps = omega arith in
    rw n (
      written-same (o + 1 + length ps) (map result_of qs) (written o (map result_of (p ∷ ps)) f)
        (written (o + 1) (map result_of ps) (set_result o (result_of p) f)) j
        (sym (written-set_result o (result_of p) (map result_of ps) f j))
      ∙ written-append (o + 1) ps qs (set_result o (result_of p) f) j
      ∙ written-set_result o (result_of p) (map result_of (ps ++ qs)) f j)
