-- ===== src/Descriptor/Interface/Ownership.antt =====
-- `parse_interface` of libusb/libusb/descriptor.c on any bytes and any allocator.
use zerousb.Prelude.{
  ℕ, zero, suc, ◌+◌, ◌≤◌, ◌<◌, ◌≡◌, ◌≢◌, ◌⊎◌, ◌∙◌, refl, ap, Bool, true, false, Option, none, some,
  List, [], ◌∷◌, ◌++◌, Outcome, arith, ltb, length, take, ◌==◌, Returns, Returns-inv, Bool-cases,
  inl, inr, ltb→ge, replicate, take-length, length-append, Guarded, Guarded-bind, Returns-Guarded,
}
use zerousb.Usb.{Error, io, no_mem, ok, err, dt_interface, max_endpoints}
use zerousb.Descriptor.Format.{byte, bus, Endian}
use zerousb.Descriptor.Format.Reads.{parse_descriptor_total}
use zerousb.Descriptor.Cursor.{Cursor, IsValid}
use zerousb.Descriptor.Heap.{Grants, Heap}
use zerousb.Descriptor.Interface.Setting.{
  zero_interface, AltSetting, Interface, Array, null, dangling, items, freed_alt, freed_alts,
  clear_interface, store_alt, interface_format,
}
use zerousb.Descriptor.Interface.Body.{Body, failed, cut, next, alt_body}
use zerousb.Descriptor.Interface.Loop.{
  grow, add_alt, InterfaceResult, fail_interface, after_body, alt_round, is_alternate, first_number,
  unexpected, invalid, good, check_alt, interface_loop, parse_interface,
}
use zerousb.Descriptor.Interface.Safety.{BodyPost, Ends, alt_body-Returns}

-- Some allocation is refused.
abbrev pub Refuses : Grants → Type 0
Refuses g = (k : ℕ) × (g k ≡ false)

-- The array counts its entries, and the live blocks are `base` and what `clear_interface` frees.
abbrev pub Owned : Grants → ℕ → ℕ → ℕ → Array AltSetting → Type 0
Owned g base num live null = (num ≡ 0) × (live ≡ base)
Owned g base num live dangling = Refuses g
Owned g base num live (items alts) = (num ≡ length alts) × (live ≡ base + freed_alts alts + 1)

abbrev pub Owns : Grants → ℕ → Interface → Heap → Type 0
Owns g base usb h = Owned g base usb.num_altsetting h.live usb.altsetting

-- On an error the array is gone and nothing that was allocated is left.
abbrev pub Cleared : ℕ → InterfaceResult → Type 0
Cleared base r = (r.1.altsetting ≡ null) × (r.2.live ≡ base)

-- As a structure, so that a proof can split on the array.
abbrev pub usb_of : Array AltSetting → ℕ → Interface
usb_of a num = record { altsetting = a; num_altsetting = num }

-- The blocks behind the entries of an array.
abbrev pub held : Array AltSetting → ℕ
held null = 0
held dangling = 0
held (items alts) = freed_alts alts

-- What `grow` leaves: room for one more entry, or an interface that `fail_interface` can clear.
abbrev Grown : Grants → ℕ → ℕ → Bool × Interface × Heap → Type 0
Grown g base n r =
    ((alts : List AltSetting) × (h : Heap) × (r ≡ (true, usb_of (items alts) (length alts), h))
      × (h.live ≡ base + freed_alts alts + 1)
      × (freed_alts alts ≡ n))
    ⊎ ((usb : Interface) × (h : Heap) × (r ≡ (false, usb, h)) × Owns g base usb h)

grow-Grown :
    (g : Grants) (a : Array AltSetting) (num : ℕ) (h : Heap) (base : ℕ)
    → Owned g base num h.live a
    → Grown g base (held a) (grow g (usb_of a num) h)
unfolding grow
grow-Grown g null num h base o = elim (Bool-cases (g h.calls)) [
  | inl p ↦ rw (p, o.0) (inl ([], _, refl, omega arith, refl))
  | inr p ↦ rw p (inr (_, _, refl, o))
]
grow-Grown g dangling num h base o = inr (_, _, refl, o)
grow-Grown g (items alts) num h base o = elim (Bool-cases (g h.calls)) [
  | inl p ↦ rw (p, o.0) (inl (alts, _, refl, o.1, refl))
  | inr p ↦ rw p (inr (_, _, refl, (h.calls, p)))
]

is_alternate-Returns :
    (c : Cursor) (number : ℕ) → IsValid c → Returns (is_alternate c number) (λ b. Unit)
unfolding is_alternate
is_alternate-Returns c number v = elim (Bool-cases (ltb c.size 9)) [
  | inl p ↦ rw p tt
  | inr p ↦
      let (ws, q) = parse_descriptor_total (replicate 3 byte) c.buffer 0 bus (ground arith) in
      rw (p, q) tt
]

freed_alts-append :
    (xs ys : List AltSetting) → freed_alts (xs ++ ys) ≡ freed_alts xs + freed_alts ys
freed_alts-append [] ys = omega arith
freed_alts-append (x ∷ xs) ys = omega (arith, freed_alts-append xs ys)

add_alt-Owns :
    (g : Grants) (base live : ℕ) (alt : AltSetting) (alts : List AltSetting) (h : Heap)
    → live ≡ base + freed_alts alts + 1
    → h.live ≡ live + freed_alt alt
    → Owns g base (add_alt alt (usb_of (items alts) (length alts))) h
add_alt-Owns g base live alt alts h l k =
    omega (arith, freed_alts-append alts (alt ∷ []), length-append alts (alt ∷ []))

-- On success the bytes consumed are within the size, the array is there or was never needed, and
-- none are consumed only if at most the array itself was allocated.
abbrev pub Parsed : Grants → ℕ → ℕ → ℕ → InterfaceResult → Type 0
Parsed g base total n r =
    (n ≤ total)
    × Owns g base r.1 r.2
    × (r.1.altsetting ≢ dangling)
    × (n ≡ 0 → held r.1.altsetting ≡ 0)

abbrev pub InterfacePost : Grants → ℕ → ℕ → InterfaceResult → Type 0
InterfacePost g base total (err x, usb, h) = Cleared base (err x, usb, h)
InterfacePost g base total (ok n, usb, h) = Parsed g base total n (ok n, usb, h)

fail_interface-Guarded :
    (g : Grants) (x : Error) (a : Array AltSetting) (num : ℕ) (h : Heap) (base total : ℕ)
    → Owned g base num h.live a
    → Guarded (Refuses g) (fail_interface x (usb_of a num) h) (InterfacePost g base total)
unfolding fail_interface clear_interface
fail_interface-Guarded g x null num h base total o = (refl, o.1)
fail_interface-Guarded g x dangling num h base total o = o
fail_interface-Guarded g x (items alts) num h base total o =
    (refl, omega (arith, ap (λ k. freed_alts (take k alts)) o.0, ap freed_alts (take-length alts)))

check_alt-cases :
    (alt : AltSetting) (size : ℕ)
    → (check_alt alt size ≡ unexpected)
      ⊎ (check_alt alt size ≡ invalid)
      ⊎ ((check_alt alt size ≡ good) × (9 ≤ alt.b_length) × (alt.b_length ≤ size))
check_alt-cases alt size = elim (Bool-cases (alt.b_descriptor_type == dt_interface)) [
  | inr p ↦ rw p (inl refl)
  | inl p ↦ rw p (elim (Bool-cases (ltb alt.b_length 9)) [
    | inl q ↦ rw q (inr (inl refl))
    | inr q ↦ rw q (elim (Bool-cases (ltb size alt.b_length)) [
      | inl r ↦ rw r (inl refl)
      | inr r ↦ rw r (elim (Bool-cases (ltb max_endpoints alt.b_num_endpoints)) [
        | inl t ↦ rw t (inr (inl refl))
        | inr t ↦ rw t (inr (inr (refl, ltb→ge alt.b_length 9 q, ltb→ge size alt.b_length r)))
      ])
    ])
  ])
]

-- The state in the loop behind a body that began with the settings `alts`.
after_body-Guarded :
    (g : Grants) (b : Body) (parsed size total num : ℕ) (alts : List AltSetting) (h : Heap)
    (base : ℕ) (go_on : ℕ → Cursor → Outcome InterfaceResult)
    → parsed + size ≡ total
    → Ends size b
    → Owned g base num h.live (items alts)
    → ((n : ℕ) (c : Cursor)
        → Ends size (next n c)
        → Guarded (Refuses g) (go_on n c) (InterfacePost g base total))
    → Guarded
        (Refuses g)
        (after_body b parsed (usb_of (items alts) num) h go_on)
        (InterfacePost g base total)
unfolding after_body
after_body-Guarded g (failed x) parsed size total num alts h base go_on l p o k =
    fail_interface-Guarded g x (items alts) num h base total o
after_body-Guarded g (cut n) parsed size total num alts h base go_on l p o k =
    (omega arith, o, (cc), omega arith)
after_body-Guarded g (next n c) parsed size total num alts h base go_on l p o k = k n c p

-- What the next round of the loop is given, and promises.
abbrev Again :
    Grants → ℕ → ℕ → ℕ → (Interface → ℕ → ℕ → Cursor → Heap → Outcome InterfaceResult) → Type 0
Again g base total size again =
    (alts : List AltSetting) (num number parsed : ℕ) (c : Cursor) (h : Heap)
    → IsValid c
    → parsed + c.size ≡ total
    → c.size < size
    → Owned g base num h.live (items alts)
    → 9 ≤ parsed
    → Guarded (Refuses g) (again (usb_of (items alts) num) number parsed c h)
        (InterfacePost g base total)

alt_round-Guarded :
    (g : Grants) (alt : AltSetting) (alts : List AltSetting) (number : Option ℕ) (parsed total : ℕ)
    (c : Cursor) (e : Endian) (h : Heap) (base : ℕ)
    (again : Interface → ℕ → ℕ → Cursor → Heap → Outcome InterfaceResult)
    → IsValid c
    → parsed + c.size ≡ total
    → freed_alt alt ≡ 0
    → h.live ≡ base + freed_alts alts + 1
    → (parsed ≡ 0 → freed_alts alts ≡ 0)
    → Again g base total c.size again
    → Guarded
        (Refuses g)
        (alt_round g alt (usb_of (items alts) (length alts)) number parsed c e h again)
        (InterfacePost g base total)
unfolding alt_round
alt_round-Guarded g alt alts number parsed total c e h base again v b x o w k =
    elim (check_alt-cases alt c.size) [
      | inl p ↦ rw (p, alt_round) (omega arith, (refl, o), (cc), w)
      | inr (inl p) ↦
          rw (p, alt_round)
            (fail_interface-Guarded g io (items alts) (length alts) h base total (refl, o))
      | inr (inr (p, y, z)) ↦
          let (r, s, t) =
            Returns-inv (alt_body g alt c e h) (BodyPost c.size h.live)
              (alt_body-Returns g alt c e h v y z x) in
          let owns = add_alt-Owns g base h.live r.1 alts r.2 o t.1 in
          rw (p, alt_round)
            (rw s (
              after_body-Guarded g r.0 parsed c.size total (suc (length alts)) (alts ++ r.1 ∷ [])
                r.2 base _ b t.0 owns
                (λ n c' n'.
                  Guarded-bind (Refuses g)
                    (is_alternate c' (first_number number alt.b_interface_number)) (λ b. Unit) _
                    (InterfacePost g base total)
                    (Returns-Guarded (Refuses g) _ (λ b. Unit) (is_alternate-Returns c' _ n'.0.0))
                    (λ alternate _. elim (Bool-cases alternate) [
                      | inl q ↦ rw q (
                          k _ _ _ (parsed + n) c' r.2 n'.0.0 (omega (arith, n'.0.1))
                            (omega (arith, n'.1, n'.0.1)) owns (omega (arith, n'.1)))
                      | inr q ↦
                          rw q
                            (omega (arith, n'.0.1), owns, (cc), λ z. absurd (omega (arith, n'.1)))
                    ]))))
    ]

interface_loop-Guarded :
    (f : ℕ) (g : Grants) (a : Array AltSetting) (num : ℕ) (number : Option ℕ) (parsed total : ℕ)
    (c : Cursor) (e : Endian) (h : Heap) (base : ℕ)
    → IsValid c
    → parsed + c.size ≡ total
    → c.size < f
    → Owned g base num h.live a
    → a ≢ dangling
    → (parsed ≡ 0 → held a ≡ 0)
    → Guarded
        (Refuses g)
        (interface_loop f g (usb_of a num) number parsed c e h)
        (InterfacePost g base total)
unfolding interface_loop
interface_loop-Guarded zero g a num number parsed total c e h base v b l o z w =
    absurd (omega arith)
interface_loop-Guarded (suc f) g a num number parsed total c e h base v b l o z w =
    elim (Bool-cases (ltb c.size 9)) [
      | inl p ↦ rw p (omega arith, o, z, w)
      | inr p ↦ rw p (elim (grow-Grown g a num h base o) [
        | inr (usb', h', q, o') ↦
            rw q
              (fail_interface-Guarded g no_mem usb'.altsetting usb'.num_altsetting h' base total o')
        | inl (alts, h', q, o', k) ↦
            let (ws, d) = parse_descriptor_total interface_format c.buffer 0 bus (ground arith) in
            rw (q, d)
              (alt_round-Guarded g (store_alt ws) alts number parsed total c e h' base _ v b refl o'
                (λ y. k ∙ w y)
                (λ alts' num' n p' c' h'' v' b' s o'' nine.
                  interface_loop-Guarded f g (items alts') num' (some n) p' total c' e h'' base v'
                    b' (omega arith) o'' (cc) (λ y. absurd (omega arith))))
      ])
    ]

-- On any bytes, of at least the size, and any allocator `parse_interface` neither reads past the size nor runs on; it reads
-- freed memory only if an allocation is refused. It consumes at most the size. On an error nothing
-- that it allocated is left; on success `clear_interface` has to free what is.
pub parse_interface-Guarded :
    (g : Grants) (c : Cursor) (e : Endian) (h : Heap)
    → IsValid c
    → Guarded (Refuses g) (parse_interface g zero_interface c e h) (InterfacePost g h.live c.size)
unfolding parse_interface
parse_interface-Guarded g c e h v =
    interface_loop-Guarded (suc c.size) g null 0 none 0 c.size c e h h.live v (omega arith)
      (omega arith) (refl, refl) (cc) (λ y. refl)
