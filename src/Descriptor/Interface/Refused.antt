-- ===== src/Descriptor/Interface/Refused.antt =====
-- `parse_interface` of libusb/libusb/descriptor.c where it leaves memory behind.
use zerousb.Prelude.{
  ℕ, suc, ◌≡◌, ◌≢◌, ◌≤◌, refl, true, false, Option, none, some, List, [], ◌∷◌, ◌==◌, ltb, Outcome,
  ret, arith, length, replicate,
}
use zerousb.Usb.{ok, dt_interface}
use zerousb.Descriptor.Format.{Endian, num, bus, byte, parse_descriptor}
use zerousb.Descriptor.Format.Reads.{parse_descriptor_total}
use zerousb.Descriptor.Cursor.{Cursor}
use zerousb.Descriptor.Heap.{Grants, Heap}
use zerousb.Descriptor.Interface.Setting.{Interface, AltSetting, items, zero_interface, store_alt}
use zerousb.Descriptor.Interface.Loop.{
  InterfaceResult, unexpected, interface_loop, parse_interface, grow, alt_round, check_alt,
}

alt_round-stray :
    (g : Grants) (alt : AltSetting) (usb : Interface) (number : Option ℕ) (parsed : ℕ) (c : Cursor)
    (e : Endian) (h : Heap) (again : Interface → ℕ → ℕ → Cursor → Heap → Outcome InterfaceResult)
    → (alt.b_descriptor_type == dt_interface) ≡ false
    → alt_round g alt usb number parsed c e h again ≡ ret (ok parsed, usb, h)
unfolding alt_round
alt_round-stray g alt usb number parsed c e h again p =
    let k : check_alt alt c.size ≡ unexpected = rw p refl in rw (k, alt_round) refl

-- On bytes that hold an interface descriptor's length but start with a descriptor of another type, and
-- if memory is granted, `parse_interface` returns 0 bytes parsed, and has allocated an array that it
-- leaves in an interface without settings.
pub parse_interface-stray :
    (g : Grants) (l t : ℕ) (bytes : List ℕ) (size : ℕ) (e : Endian) (h : Heap)
    → 9 ≤ size
    → size ≤ length (l ∷ t ∷ bytes)
    → t ≢ dt_interface
    → g h.calls ≡ true
    → parse_interface g zero_interface (record { buffer = l ∷ t ∷ bytes; size = size }) e h
      ≡ ret (
        ok 0,
        record { altsetting = items []; num_altsetting = 0 },
        record { calls = suc h.calls; live = suc h.live },
      )
unfolding parse_interface interface_loop grow parse_descriptor
parse_interface-stray g l t bytes size e h s v n r =
    let p : ltb size 9 ≡ false = ground arith in
    let q : (t == 4) ≡ false = ground arith in
    let (ws, w) = parse_descriptor_total (replicate 7 byte) bytes 2 bus (omega arith) in
    rw (p, r, w)
      (alt_round-stray g (store_alt ((0, num l) ∷ (1, num t) ∷ ws))
        (record { altsetting = items []; num_altsetting = 0 }) none 0
        (record { buffer = l ∷ t ∷ bytes; size = size }) e
        (record { calls = suc h.calls; live = suc h.live })
        (λ u n' p' c' h''. interface_loop size g u (some n') p' c' e h'') q)
