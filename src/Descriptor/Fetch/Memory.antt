-- ===== src/Descriptor/Fetch/Memory.antt =====
-- The memory of a configuration that libusb/libusb/descriptor.c asks the backend for.
use zerousb.Prelude.{
  ℕ, suc, ◌+◌, ◌-◌, ◌≡◌, refl, ap, subst, ◌∙◌, Option, none, some, List, [], ◌∷◌, ◌++◌, take,
  Bool-cases, inl, inr, Outcome, ret, fault, ◌>>=◌, Guarded, Guarded-bind, length, length-append,
  replicate, arith, ltb, leb,
}
use zerousb.Usb.{Result, ok, err}
use zerousb.Descriptor.Format.{Endian, field_at}
use zerousb.Descriptor.Format.Reads.{parse_descriptor_total}
use zerousb.Descriptor.Cursor.{Cursor}
use zerousb.Descriptor.Heap.{Grants, Heap, free, block}
use zerousb.Descriptor.Interface.Setting.{
  AltSetting, freed_alts, Interface, Array, null, dangling, items, clear_interface,
}
use zerousb.Descriptor.Interface.Ownership.{Refuses, usb_of}
use zerousb.Descriptor.Config.{
  Config, clear_interfaces, clear_configuration, free_config_descriptor, raw_desc_to_config,
}
use zerousb.Descriptor.Config.Memory.{RawPost, declared, raw_desc_to_config-Guarded}
use zerousb.Descriptor.Fetch.{
  Request, head_format, second_answer, first_answer, get_config_descriptor,
}

free-free : (a b : ℕ) (h : Heap) → free a (free b h) ≡ free b (free a h)
free-free a b h = λ i. record { calls = h.calls; live = swapped i }
  where
    swapped : h.live - b - a ≡ h.live - a - b
    swapped = omega arith

-- Freeing one block more before does the same as freeing it after.
abbrev Shifts : (Heap → Outcome Heap) → Type 0
Shifts f = (h : Heap) → f (free 1 h) ≡ (do h' ← f h; ret (free 1 h'))

clear_first-Shifts :
    (a : Array AltSetting) (count : ℕ) (usbs : List Interface)
    → Shifts (clear_interfaces usbs)
    → Shifts (clear_interfaces (usb_of a count ∷ usbs))
unfolding clear_interfaces clear_interface
clear_first-Shifts null count usbs ih h = ih h
clear_first-Shifts dangling count usbs ih h = refl
clear_first-Shifts (items alts) count usbs ih h =
    let n = freed_alts (take count alts) + 1 in
    ap (clear_interfaces usbs) (free-free n 1 h) ∙ ih (free n h)

clear_interfaces-Shifts : (usbs : List Interface) → Shifts (clear_interfaces usbs)
unfolding clear_interfaces
clear_interfaces-Shifts [] h = refl
clear_interfaces-Shifts (usb ∷ usbs) h =
    clear_first-Shifts usb.altsetting usb.num_altsetting usbs (clear_interfaces-Shifts usbs) h

tail-Shifts :
    (b : ℕ) (o : Outcome Heap)
    → (do h' ← (do k ← o; ret (free 1 k)); ret (free b (free 1 h')))
      ≡ (do h' ← (do k ← o; ret (free b (free 1 k))); ret (free 1 h'))
tail-Shifts b (ret k) = ap ret (free-free b 1 (free 1 k))
tail-Shifts b (fault e) = refl

clear_configuration-Shifts : (config : Config) → Shifts (clear_configuration config)
unfolding clear_configuration
clear_configuration-Shifts config h = by_interfaces config.interfaces
  where
    by_interfaces :
        (o : Option (List Interface))
        → clear_configuration (record config { interfaces = o }) (free 1 h)
          ≡ (do h' ← clear_configuration (record config { interfaces = o }) h; ret (free 1 h'))
    by_interfaces none = ap ret (free-free (block config.extra) 1 h)
    by_interfaces (some usbs) =
        ap (λ (o : Outcome Heap). do h' ← o; ret (free (block config.extra) (free 1 h')))
          (clear_interfaces-Shifts (take config.b_num_interfaces usbs) h)
        ∙ tail-Shifts (block config.extra) (clear_interfaces (take config.b_num_interfaces usbs) h)

free_config_descriptor-Shifts : (config : Config) → Shifts (free_config_descriptor (some config))
unfolding free_config_descriptor
free_config_descriptor-Shifts config h =
    ap (λ (o : Outcome Heap). do h' ← o; ret (free 1 h')) (clear_configuration-Shifts config h)

drop_answer :
    (n live : ℕ) (r : Result Config) (h : Heap)
    → RawPost n (suc live) (r, h)
    → RawPost n live (r, free 1 h)
drop_answer n live (err x) h p = omega arith
drop_answer n live (ok config) h (l, m, (h', lost, e, k, a, w)) = (
  l,
  m,
  (free 1 h', lost, rw (free_config_descriptor-Shifts config h, e) refl, omega arith, a, w),
)

-- The promise of `raw_desc_to_config`, whatever number of interfaces the device declares.
abbrev pub Fetched : ℕ → Result Config × Heap → Type 0
Fetched live o = (n : ℕ) × RawPost n live o

second_answer-Fetched :
    (g : Grants) (total live : ℕ) (a : Result (List ℕ) × Endian) (h : Heap)
    → h.live ≡ suc live
    → Guarded (Refuses g) (second_answer g total a h) (Fetched live)
unfolding second_answer
second_answer-Fetched g total live (err x, e) h l = (0, omega arith)
second_answer-Fetched g total live (ok answer, e) h l =
    let bytes = take total answer in
    let c : Cursor = record {
      buffer = bytes ++ replicate (total - length bytes) 0;
      size = length bytes;
    } in
    Guarded-bind (Refuses g) (raw_desc_to_config g c e h) (RawPost (declared c) h.live) _ _
      (raw_desc_to_config-Guarded g c e h
        (omega (arith, length-append bytes (replicate (total - length bytes) 0))))
      (λ (r, h') p. (
        declared c,
        drop_answer (declared c) live r h' (subst (λ (k : ℕ). RawPost (declared c) k (r, h')) l p),
      ))

first_answer-Fetched :
    (g : Grants) (request : Request) (a : Result (List ℕ) × Endian) (h : Heap)
    → Guarded (Refuses g) (first_answer g request a h) (Fetched h.live)
unfolding first_answer
first_answer-Fetched g request (err x, e) h = (0, refl)
first_answer-Fetched g request (ok bytes, e) h = elim (Bool-cases (ltb (length bytes) 9)) [
  | inl p ↦ rw p (0, refl)
  | inr p ↦
      let (ws, q) = parse_descriptor_total head_format bytes 0 e (ground arith) in
      elim (Bool-cases (g h.calls)) [
        | inr k ↦ rw (p, q, k) (0, refl)
        | inl k ↦
            rw (p, q, k)
              (second_answer-Fetched g (field_at ws 2 0) h.live (request (field_at ws 2 0)) _ refl)
      ]
]

-- Whatever the backend answers, and whatever allocations are granted, `libusb_get_config_descriptor`
-- ends and reads nothing past the answers; it reads freed memory only if some allocation is refused.
-- On an error no block is left. On success `libusb_free_config_descriptor` leaves the blocks that were
-- there before, and one more at the most.
pub get_config_descriptor-Fetched :
    (g : Grants) (num_configurations : ℕ) (request : ℕ → Request) (index : ℕ) (h : Heap)
    → Guarded
        (Refuses g)
        (get_config_descriptor g num_configurations request index h)
        (Fetched h.live)
unfolding get_config_descriptor
get_config_descriptor-Fetched g n request index h = elim (Bool-cases (leb n index)) [
  | inl p ↦ rw p (0, refl)
  | inr p ↦ rw p (first_answer-Fetched g (request index) (request index 9) h)
]
