-- ===== src/Descriptor/Companion/Search.antt =====
-- What the search for a companion descriptor in libusb/libusb/descriptor.c finds.
use zerousb.Prelude.{
  ℕ, zero, suc, ◌+◌, ◌-◌, ◌*◌, ◌≡◌, ◌≢◌, ◌≤◌, ◌<◌, refl, ap, ap₂, ◌∙◌, ◌||◌, true, false, List, [],
  ◌∷◌, ret, ltb, length, ◌==◌, All, Bool-cases, inl, inr, arith, Returns, length-append,
}
use zerousb.Usb.{ok, err, dt_ss_endpoint_companion}
use zerousb.Descriptor.Format.{parse_descriptor, bus}
use zerousb.Descriptor.Format.Reads.{parse_descriptor_total}
use zerousb.Descriptor.Cursor.{Cursor, advance, header, header_total, IsValid, advance-IsValid}
use zerousb.Descriptor.Heap.{Grants, Heap}
use zerousb.Descriptor.Endpoint.{Endpoint}
use zerousb.Descriptor.Chain.{
  Desc, size_of, encode, total, at, advance-at, header-encode, length-encode,
}
use zerousb.Descriptor.Companion.{
  Companion, companion_format, take_companion, companion_loop, CompanionResult,
  get_ss_endpoint_companion,
}

-- On success the caller has one block more, and otherwise none.
abbrev pub Allocates : Heap → CompanionResult → Type 0
Allocates h (ok comp, h') = h'.live ≡ suc h.live
Allocates h (err x, h') = h'.live ≡ h.live

take_companion-Allocates :
    (g : Grants) (len : ℕ) (c : Cursor) (h : Heap)
    → IsValid c
    → len ≤ c.size
    → Returns (take_companion g len c h) (Allocates h)
unfolding take_companion
take_companion-Allocates g len c h v l = elim (Bool-cases (ltb len 6)) [
  | inl p ↦ rw p refl
  | inr p ↦ elim (Bool-cases (g h.calls)) [
    | inr q ↦ rw (p, q) refl
    | inl q ↦
        let b : 6 ≤ len = ground arith in
        let (ws, r) = parse_descriptor_total companion_format c.buffer 0 bus (omega arith) in
        rw (p, q, r) refl
  ]
]

companion_loop-Allocates :
    (f : ℕ) (g : Grants) (c : Cursor) (h : Heap)
    → IsValid c
    → c.size < f
    → Returns (companion_loop f g c h) (Allocates h)
unfolding companion_loop
companion_loop-Allocates zero g c h v l = absurd (omega arith)
companion_loop-Allocates (suc f) g c h v l = elim (Bool-cases (ltb c.size 2)) [
  | inl p ↦ rw p refl
  | inr p ↦
      let (len, t, e) = header_total c v (ground arith) in
      elim (Bool-cases (ltb len 2 || ltb c.size len)) [
        | inl q ↦ rw (p, e, q) refl
        | inr q ↦
            let hl : len ≤ c.size = ground arith in
            let hd : c.size - len < f = ground arith in
            elim (Bool-cases (t == dt_ss_endpoint_companion)) [
              | inl k ↦ rw (p, e, q, k) (take_companion-Allocates g len c h v hl)
              | inr k ↦
                  rw (p, e, q, k)
                    (companion_loop-Allocates f g (advance len c) h (advance-IsValid len c v) hd)
            ]
      ]
]

-- On any extra data and any allocator the search returns: it ends, and reads nothing past the data.
-- The caller has one block more on success, and none on an error.
pub get_ss_endpoint_companion-Allocates :
    (g : Grants) (ep : Endpoint) (h : Heap)
    → Returns (get_ss_endpoint_companion g ep h) (Allocates h)
unfolding get_ss_endpoint_companion
get_ss_endpoint_companion-Allocates g ep h =
    companion_loop-Allocates (suc (length ep.extra)) g
      (record { buffer = ep.extra; size = length ep.extra }) h (omega arith) (omega arith)

loop-passes :
    (f : ℕ) (g : Grants) (d : Desc) (ds : List Desc) (rest : List ℕ) (h : Heap)
    → d.kind ≢ dt_ss_endpoint_companion
    → companion_loop (suc f) g (at (d ∷ ds) rest) h ≡ companion_loop f g (at ds rest) h
unfolding companion_loop
loop-passes f g d ds rest h k =
    let n = total (d ∷ ds) + length rest in
    let p : ltb n 2 ≡ false = ground arith in
    let q : (ltb (size_of d) 2 || ltb n (size_of d)) ≡ false = ground arith in
    let r : (d.kind == dt_ss_endpoint_companion) ≡ false = ground arith in
    rw (p, header-encode d ds rest n, q, r)
      (ap (λ c. companion_loop f g c h) (advance-at d ds rest))

-- The companion descriptor with these fields, and what vendors may add to it.
abbrev pub companion : ℕ → ℕ → ℕ → ℕ → List ℕ → Desc
companion burst attributes low high more = record {
  kind = dt_ss_endpoint_companion;
  body = burst ∷ attributes ∷ low ∷ high ∷ more;
}

loop-takes :
    (f len : ℕ) (g : Grants) (c : Cursor) (h : Heap)
    → header c ≡ ret (len, dt_ss_endpoint_companion)
    → 2 ≤ len
    → len ≤ c.size
    → companion_loop (suc f) g c h ≡ take_companion g len c h
unfolding companion_loop
loop-takes f len g c h e l k =
    let p : ltb c.size 2 ≡ false = ground arith in
    let q : (ltb len 2 || ltb c.size len) ≡ false = ground arith in rw (p, e, q)

-- The descriptor as the caller gets it.
abbrev pub parsed : ℕ → ℕ → ℕ → ℕ → List ℕ → Companion
parsed burst attributes low high more = record {
  b_length = size_of (companion burst attributes low high more);
  b_descriptor_type = dt_ss_endpoint_companion;
  b_max_burst = burst;
  bm_attributes = attributes;
  w_bytes_per_interval = high * 256 + low;
}

take_companion-companion :
    (g : Grants) (burst attributes low high : ℕ) (more rest : List ℕ) (n : ℕ) (h : Heap)
    → g h.calls ≡ true
    → take_companion g
        (size_of (companion burst attributes low high more))
        (record { buffer = encode (companion burst attributes low high more ∷ []) rest; size = n })
        h
      ≡ ret (
        ok (parsed burst attributes low high more),
        record { calls = suc h.calls; live = suc h.live },
      )
unfolding take_companion parse_descriptor
take_companion-companion g burst attributes low high more rest n h k =
    let p : ltb (size_of (companion burst attributes low high more)) 6 ≡ false = ground arith in
    rw (p, k) refl

loop-finds :
    (f : ℕ) (g : Grants) (ds : List Desc) (burst attributes low high : ℕ) (more rest : List ℕ)
    (h : Heap)
    → All (λ d. d.kind ≢ dt_ss_endpoint_companion) ds
    → total ds < f
    → g h.calls ≡ true
    → companion_loop f g (at ds (encode (companion burst attributes low high more ∷ []) rest)) h
      ≡ ret (
        ok (parsed burst attributes low high more),
        record { calls = suc h.calls; live = suc h.live },
      )
loop-finds zero g ds burst attributes low high more rest h a l k = absurd (omega arith)
loop-finds (suc f) g (d ∷ ds) burst attributes low high more rest h a l k =
    loop-passes f g d ds (encode (companion burst attributes low high more ∷ []) rest) h a.0
    ∙ loop-finds f g ds burst attributes low high more rest h a.1 (omega arith) k
loop-finds (suc f) g [] burst attributes low high more rest h a l k =
    let d = companion burst attributes low high more in
    let n = 0 + length (encode (d ∷ []) rest) in
    loop-takes f (size_of d) g (at [] (encode (d ∷ []) rest)) h (header-encode d [] rest n)
      (omega arith) (omega (arith, length-append more rest))
    ∙ take_companion-companion g burst attributes low high more rest n h k

-- On extra data that is a run of descriptors of other types, a companion descriptor and whatever
-- follows, the search returns the companion's fields, if memory is granted.
pub get_ss_endpoint_companion-finds :
    (g : Grants) (ep : Endpoint) (ds : List Desc) (burst attributes low high : ℕ)
    (more rest : List ℕ) (h : Heap)
    → ep.extra ≡ encode ds (encode (companion burst attributes low high more ∷ []) rest)
    → All (λ d. d.kind ≢ dt_ss_endpoint_companion) ds
    → g h.calls ≡ true
    → get_ss_endpoint_companion g ep h
      ≡ ret (
        ok (parsed burst attributes low high more),
        record { calls = suc h.calls; live = suc h.live },
      )
unfolding get_ss_endpoint_companion
get_ss_endpoint_companion-finds g ep ds burst attributes low high more rest h e a k =
    let tail = encode (companion burst attributes low high more ∷ []) rest in
    let n : length ep.extra ≡ total ds + length tail = ap length e ∙ length-encode ds tail in
    ap₂ (λ (m : ℕ) (b : List ℕ). companion_loop (suc m) g (record { buffer = b; size = m }) h) n e
    ∙ loop-finds (suc (total ds + length tail)) g ds burst attributes low high more rest h a
        (omega arith) k
