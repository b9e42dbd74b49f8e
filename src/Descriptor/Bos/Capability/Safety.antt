-- ===== src/Descriptor/Bos/Capability/Safety.antt =====
-- The capability readers of libusb/libusb/descriptor.c on the blocks that `parse_bos` makes.
use zerousb.Prelude.{
  ℕ, suc, ◌≡◌, ◌≤◌, refl, List, [], ◌∷◌, Bool-cases, inl, inr, arith, Returns, ltb, ◌==◌,
}
use zerousb.Usb.{Result, ok, err}
use zerousb.Descriptor.Format.{Letter, bus, Writes, parse_descriptor, width}
use zerousb.Descriptor.Format.Reads.{parse_descriptor_total}
use zerousb.Descriptor.Heap.{Grants, Heap}
use zerousb.Descriptor.Bos.Accounts.{IsBlock}
use zerousb.Descriptor.Bos.Capability.{
  get_capability, get_usb_2_0_extension, get_ss_usb_device_capability, get_container_id,
}

-- On success the caller has one block more, and otherwise none.
abbrev pub Allocates {ℓ} : {A : Type ℓ} → Heap → Result A × Heap → Type 0
Allocates h (ok a, h') = h'.live ≡ suc h.live
Allocates h (err x, h') = h'.live ≡ h.live

module _ {A : Type 0} (kind smallest : ℕ) (format : List Letter) (store : Writes → A)
    (enough : width format ≤ smallest) where
  get_capability-Allocates :
      (g : Grants) (cap : List ℕ) (h : Heap)
      → IsBlock cap
      → Returns (get_capability kind smallest format store g cap h) (Allocates h)
  unfolding get_capability parse_descriptor
  get_capability-Allocates g [] h b = absurd (omega arith)
  get_capability-Allocates g (x ∷ []) h b = absurd (omega arith)
  get_capability-Allocates g (x ∷ y ∷ []) h b = absurd (omega arith)
  get_capability-Allocates g (len ∷ y ∷ t ∷ cap) h b = elim (Bool-cases (t == kind)) [
    | inr p ↦ rw p refl
    | inl p ↦ elim (Bool-cases (ltb len smallest)) [
      | inl q ↦ rw (p, q) refl
      | inr q ↦ elim (Bool-cases (g h.calls)) [
        | inr k ↦ rw (p, q, k) refl
        | inl k ↦
            let s : smallest ≤ len = ground arith in
            let (ws, r) = parse_descriptor_total format (len ∷ y ∷ t ∷ cap) 0 bus (omega arith) in
            rw (p, q, k, r) refl
      ]
    ]
  ]

-- Each of the three readers, on any block that is as long as its bLength, reads nothing past the block
-- and returns; the caller has one block more on success, and none on an error.
pub capabilities-Allocates :
    (g : Grants) (cap : List ℕ) (h : Heap)
    → IsBlock cap
    → Returns (get_usb_2_0_extension g cap h) (Allocates h)
      × Returns (get_ss_usb_device_capability g cap h) (Allocates h)
      × Returns (get_container_id g cap h) (Allocates h)
unfolding get_usb_2_0_extension get_ss_usb_device_capability get_container_id
capabilities-Allocates g cap h b = (
  get_capability-Allocates _ 7 _ _ (omega arith) g cap h b,
  get_capability-Allocates _ 10 _ _ (omega arith) g cap h b,
  get_capability-Allocates _ 20 _ _ (omega arith) g cap h b,
)
