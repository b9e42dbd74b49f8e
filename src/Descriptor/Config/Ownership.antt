-- ===== src/Descriptor/Config/Ownership.antt =====
-- `parse_configuration` of libusb/libusb/descriptor.c on any bytes and any allocator: it returns,
-- stays within the buffer, and accounts for every block.
use zerousb.Prelude.{
  ℕ, zero, suc, ◌+◌, ◌-◌, ◌≤◌, ◌≡◌, ◌≢◌, refl, ap, none, some, List, [], ◌∷◌, Outcome, ret, ◌>>=◌,
  arith, length, take, ◌==◌, Returns, Returns-inv, Bool-cases, inl, inr, ge→ltb, replicate,
  take-length, Guarded, Guarded-bind, All,
}
use zerousb.Usb.{Result, ok, err}
use zerousb.Descriptor.Format.{Endian}
use zerousb.Descriptor.Cursor.{
  Cursor, IsValid, advance-IsValid, advance, Skip, stopped, short, bad_length, Skips, skip,
  skip-Returns,
}
use zerousb.Descriptor.Heap.{Grants, Heap, block, block-take}
use zerousb.Descriptor.Interface.Setting.{
  AltSetting, Interface, zero_interface, Array, null, dangling, items, freed_alts, clear_interface,
}
use zerousb.Descriptor.Interface.Loop.{parse_interface}
use zerousb.Descriptor.Interface.Ownership.{
  Refuses, InterfacePost, Owned, held, parse_interface-Guarded, usb_of,
}
use zerousb.Descriptor.Config.{
  Config, clear_interfaces, LoopResult, count_interface, keep_extra, after_interface, after_skip,
  parse_interfaces,
}

-- The blocks that `clear_interface` frees.
abbrev pub freed_array : ℕ → Array AltSetting → ℕ
freed_array num null = 0
freed_array num dangling = 0
freed_array num (items alts) = freed_alts (take num alts) + 1

abbrev pub freed_interface : Interface → ℕ
freed_interface usb = freed_array usb.num_altsetting usb.altsetting

abbrev pub freed_interfaces : List Interface → ℕ
freed_interfaces [] = 0
freed_interfaces (usb ∷ usbs) = freed_interface usb + freed_interfaces usbs

abbrev pub IsClear : Interface → Type 0
IsClear usb = usb.altsetting ≢ dangling

clear_interface-freed :
    (a : Array AltSetting) (num : ℕ) (h : Heap)
    → a ≢ dangling
    → (usb : Interface) × (h' : Heap) × (clear_interface (usb_of a num) h ≡ ret (usb, h'))
      × (h'.live ≡ h.live - freed_array num a)
unfolding clear_interface
clear_interface-freed null num h z = (_, _, refl, omega arith)
clear_interface-freed dangling num h z = absurd (z refl)
clear_interface-freed (items alts) num h z = (_, _, refl, refl)

pub clear_interfaces-freed :
    (usbs : List Interface) (h : Heap)
    → All IsClear usbs
    → (h' : Heap) × (clear_interfaces usbs h ≡ ret h') × (h'.live ≡ h.live - freed_interfaces usbs)
unfolding clear_interfaces
clear_interfaces-freed [] h z = (h, refl, omega arith)
clear_interfaces-freed (usb ∷ usbs) h z =
    let (usb', h', p, q) = clear_interface-freed usb.altsetting usb.num_altsetting h z.0 in
    let (h'', r, s) = clear_interfaces-freed usbs h' z.1 in (h'', rw (p, r), omega arith)

pub All-take : (n : ℕ) (usbs : List Interface) → All IsClear usbs → All IsClear (take n usbs)
All-take zero usbs z = tt
All-take (suc n) [] z = tt
All-take (suc n) (usb ∷ usbs) z = (z.0, All-take n usbs z.1)

zeros-IsClear : (n : ℕ) → All IsClear (replicate n zero_interface)
zeros-IsClear zero = tt
zeros-IsClear (suc n) = ((cc), zeros-IsClear n)

freed-zeros : (k n : ℕ) → freed_interfaces (take k (replicate n zero_interface)) ≡ 0
freed-zeros zero n = refl
freed-zeros (suc k) zero = refl
freed-zeros (suc k) (suc n) = omega (arith, freed-zeros k n)

-- The blocks that `libusb_free_config_descriptor` frees, less the configuration's own.
abbrev pub freed_config : Config → ℕ
freed_config config = block config.extra + elim config.interfaces [
  | none ↦ 0
  | some usbs ↦ freed_interfaces (take config.b_num_interfaces usbs) + 1
]

-- What the loop leaves live: `lost` counts blocks that no pointer within the first bNumInterfaces
-- interfaces leads to.
abbrev pub LoopPost : ℕ → ℕ → ℕ → LoopResult → Type 0
LoopPost n base total (err x, extra, usbs, h) =
    All IsClear usbs × (h.live ≡ base + block extra + freed_interfaces (take n usbs))
LoopPost n base total (ok (i, left), extra, usbs, h) =
    All IsClear usbs
    × (i ≤ n)
    × (left ≤ total)
    × ((lost : ℕ) × (h.live ≡ base + block extra + freed_interfaces (take i usbs) + lost)
        × (lost ≤ 1)
        × (i ≡ n → lost ≡ 0))

Owned-freed :
    (g : Grants) (base num live : ℕ) (a : Array AltSetting)
    → Owned g base num live a
    → a ≢ dangling
    → (live ≡ base + freed_array num a) × (held a ≡ 0 → freed_array num a ≤ 1)
Owned-freed g base num live null o z = omega arith
Owned-freed g base num live dangling o z = absurd (z refl)
Owned-freed g base num live (items alts) o z =
    let e : freed_alts (take num alts) ≡ freed_alts alts =
      rw o.0 (ap freed_alts (take-length alts)) in
    omega arith

abbrev Kept : ℕ → List ℕ → Result (List ℕ) × Heap → Type 0
Kept base extra (ok extra', h) = h.live ≡ base + block extra'
Kept base extra (err x, h) = h.live ≡ base + block extra

keep_extra-Returns :
    (g : Grants) (extra : List ℕ) (n : ℕ) (c : Cursor) (h : Heap) (base : ℕ)
    → n ≤ length c.buffer
    → h.live ≡ base + block extra
    → Returns (keep_extra g extra n c h) (Kept base extra)
unfolding keep_extra
keep_extra-Returns g [] n c h base l o = elim (Bool-cases (n == 0)) [
  | inl p ↦ rw p o
  | inr p ↦ rw p (elim (Bool-cases (g h.calls)) [
    | inr q ↦ rw q o
    | inl q ↦ rw (q, ge→ltb (length c.buffer) n l) (ground (arith, block-take n c.buffer))
  ])
]
keep_extra-Returns g (x ∷ extra) n c h base l o = o

count-Post :
    (n base total : ℕ) (usb : Interface) (r : LoopResult)
    → IsClear usb
    → LoopPost n (base + freed_interface usb) total r
    → LoopPost (suc n) base total (count_interface r.0, r.1, usb ∷ r.2, r.3)
count-Post n base total usb (err x, extra, usbs, h) z p = ((z, p.0), omega arith)
count-Post n base total usb (ok (i, left), extra, usbs, h) z p =
    ((z, p.0), omega arith, p.2, (p.3.0, omega arith, p.3.2, λ e. p.3.3 (omega arith)))

after_interface-Guarded :
    (g : Grants) (r : Result ℕ) (usb : Interface) (n : ℕ) (extra : List ℕ) (c : Cursor) (h : Heap)
    (go_on : ℕ → Outcome LoopResult) (base total : ℕ)
    → c.size ≤ total
    → InterfacePost g (base + block extra) c.size (r, usb, h)
    → ((k : ℕ)
        → k ≤ c.size
        → h.live ≡ base + freed_interface usb + block extra
        → Guarded (Refuses g) (go_on k) (LoopPost n (base + freed_interface usb) total))
    → Guarded (Refuses g) (after_interface r usb n extra c h go_on) (LoopPost (suc n) base total)
unfolding after_interface
after_interface-Guarded g (err x) usb n extra c h go_on base total l p k =
    let e : freed_interface usb ≡ 0 = ap (freed_array usb.num_altsetting) p.0 in
    ((rw p.0 (cc), zeros-IsClear n), omega (arith, freed-zeros n n))
after_interface-Guarded g (ok m) usb n extra c h go_on base total l p k =
    let (e, small) =
      Owned-freed g (base + block extra) usb.num_altsetting h.live usb.altsetting p.1 p.2 in
    elim (Bool-cases (m == 0)) [
      | inl q ↦ rw q (
        (p.2, zeros-IsClear n),
        omega arith,
        l,
        (freed_interface usb, omega arith, small (p.3 (ground arith)), λ y. absurd (omega arith)),
      )
      | inr q ↦ rw q (
          Guarded-bind (Refuses g) (go_on m) (LoopPost n (base + freed_interface usb) total) _ _
            (k m p.0 (omega arith)) (λ r w. count-Post n base total usb r p.2 w))
    ]

after_skip-Guarded :
    (g : Grants) (s : Skip) (n : ℕ) (extra : List ℕ) (c : Cursor) (e : Endian) (h : Heap)
    (go_on : List ℕ → Cursor → Heap → Outcome LoopResult) (base total : ℕ)
    → IsValid c
    → c.size ≤ total
    → Skips c.size s
    → h.live ≡ base + block extra
    → ((base : ℕ) (extra : List ℕ) (c : Cursor) (h : Heap)
        → IsValid c
        → c.size ≤ total
        → h.live ≡ base + block extra
        → Guarded (Refuses g) (go_on extra c h) (LoopPost n base total))
    → Guarded (Refuses g) (after_skip g s n extra c e h go_on) (LoopPost (suc n) base total)
unfolding after_skip
after_skip-Guarded g bad_length n extra c e h go_on base total v l s o k =
    (zeros-IsClear (suc n), omega (arith, freed-zeros (suc n) (suc n)))
after_skip-Guarded g (short m) n extra c e h go_on base total v l s o k =
    (zeros-IsClear (suc n), omega arith, omega arith, (0, omega arith, omega arith, λ y. refl))
after_skip-Guarded g (stopped m) n extra c e h go_on base total v l s o k =
    let (r, p, q) =
      Returns-inv (keep_extra g extra m c h) (Kept base extra)
        (keep_extra-Returns g extra m c h base (omega arith) o) in
    rw p (kept r.0 r.1 q)
  where
    c' : Cursor
    c' = advance m c

    kept :
        (r : Result (List ℕ)) (h' : Heap)
        → Kept base extra (r, h')
        → Guarded
            (Refuses g)
            (elim r [
              | err x ↦ ret (err x, extra, replicate (suc n) zero_interface, h')
              | ok extra' ↦ do
                (r, usb, h'') ← parse_interface g zero_interface c' e h'
                after_interface r usb n extra' c' h'' (λ k. go_on extra' (advance k c') h'')
            ])
            (LoopPost (suc n) base total)
    kept (err x) h' q = (zeros-IsClear (suc n), omega (arith, freed-zeros (suc n) (suc n)))
    kept (ok extra') h' q =
        Guarded-bind (Refuses g) (parse_interface g zero_interface c' e h')
          (InterfacePost g h'.live c'.size) _ _
          (parse_interface-Guarded g c' e h' (advance-IsValid m c v))
          (λ r w.
            after_interface-Guarded g r.0 r.1 n extra' c' r.2 _ base total (omega arith) (rw q at w)
              (λ j y u.
                k (base + freed_interface r.1) extra' (advance j c') r.2
                  (advance-IsValid j c' (advance-IsValid m c v)) (omega arith) u))

pub parse_interfaces-Guarded :
    (g : Grants) (n : ℕ) (extra : List ℕ) (c : Cursor) (e : Endian) (h : Heap) (base total : ℕ)
    → IsValid c
    → c.size ≤ total
    → h.live ≡ base + block extra
    → Guarded (Refuses g) (parse_interfaces g n extra c e h) (LoopPost n base total)
unfolding parse_interfaces
parse_interfaces-Guarded g zero extra c e h base total v l o =
    (tt, omega arith, l, (0, omega arith, omega arith, λ y. refl))
parse_interfaces-Guarded g (suc n) extra c e h base total v l o =
    let (s, p, q) = Returns-inv (skip c) (Skips c.size) (skip-Returns c v) in
    rw p (
      after_skip-Guarded g s n extra c e h _ base total v l q o (λ base extra c' h' v' l' o'.
        parse_interfaces-Guarded g n extra c' e h' base total v' l' o'))
