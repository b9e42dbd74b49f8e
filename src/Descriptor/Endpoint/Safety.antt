-- ===== src/Descriptor/Endpoint/Safety.antt =====
-- `parse_endpoint` of libusb/libusb/descriptor.c on any bytes: it returns, stays within the buffer,
-- and accounts for the block that it allocates.
use zerousb.Prelude.{
  ℕ, ◌+◌, ◌≤◌, ◌≡◌, ◌∙◌, refl, [], ret, ◌>>=◌, arith, ltb, leb, length, ◌==◌, Returns, Returns-inv,
  Bool-cases, inl, inr, ge→ltb, ltb→ge,
}
use zerousb.Usb.{Result, ok, err, dt_endpoint}
use zerousb.Descriptor.Format.{Endian}
use zerousb.Descriptor.Format.Reads.{parse_descriptor_total}
use zerousb.Descriptor.Cursor.{
  Cursor, IsValid, advance-IsValid, advance, header_total, Skip, Skips, skip-Returns, stopped,
  short, bad_length, skip,
}
use zerousb.Descriptor.Heap.{Grants, Heap, block, block-take}
use zerousb.Descriptor.Endpoint.{
  Endpoint, EndpointResult, endpoint_extra, endpoint_fields, endpoint_body, parse_endpoint,
  audio_format, endpoint_format,
}

-- No more bytes are consumed than there are; none, only if no block was kept.
abbrev pub Consumes : ℕ → Endpoint → Result ℕ → Type 0
Consumes size ep (ok n) = (n ≤ size) × (n ≡ 0 → block ep.extra ≡ 0)
Consumes size ep (err e) = Unit

-- The blocks live after the call are those before it and the endpoint's.
abbrev pub Accounts : ℕ → ℕ → EndpointResult → Type 0
Accounts size live r = Consumes size r.1 r.0 × (r.2.live ≡ live + block r.1.extra)

endpoint_extra-Accounts :
    (g : Grants) (len : ℕ) (ep : Endpoint) (c : Cursor) (s : Skip) (h : Heap)
    → IsValid c
    → Skips c.size s
    → ep.extra ≡ []
    → 1 ≤ len
    → Returns (endpoint_extra g len ep c s h) (Accounts (len + c.size) h.live)
unfolding endpoint_extra
endpoint_extra-Accounts g len ep c bad_length h v k e l = rw e (ground arith)
endpoint_extra-Accounts g len ep c (short n) h v k e l = rw e (ground arith)
endpoint_extra-Accounts g len ep c (stopped n) h v k e l = elim (Bool-cases (n == 0)) [
  | inl p ↦ rw p (ground arith)
  | inr p ↦ rw p (elim (Bool-cases (g h.calls)) [
    | inl q ↦
        rw (q, ge→ltb (length c.buffer) n (omega arith)) (ground (arith, block-take n c.buffer))
    | inr q ↦ rw q (ground arith)
  ])
]

-- The fields are read, with no block added, exactly when bLength is long enough for an endpoint.
abbrev Fields : ℕ → Endpoint → Result Endpoint → Type 0
Fields len ep (ok ep') = (7 ≤ len) × (ep'.extra ≡ ep.extra)
Fields len ep (err e) = Unit

endpoint_fields-Fields :
    (len : ℕ) (ep : Endpoint) (c : Cursor) (e : Endian)
    → len ≤ length c.buffer
    → Returns (endpoint_fields len ep c e) (Fields len ep)
unfolding endpoint_fields
endpoint_fields-Fields len ep c e v = elim (Bool-cases (leb 9 len)) [
  | inl p ↦
      let (ws, r) = parse_descriptor_total audio_format c.buffer 0 e (ground arith) in
      rw (p, r) (ground arith, refl)
  | inr p ↦ rw p (elim (Bool-cases (leb 7 len)) [
    | inl q ↦
        let (ws, r) = parse_descriptor_total endpoint_format c.buffer 0 e (ground arith) in
        rw (q, r) (ground arith, refl)
    | inr q ↦ rw q tt
  ])
]

endpoint_body-Accounts :
    (g : Grants) (len t : ℕ) (ep : Endpoint) (c : Cursor) (e : Endian) (h : Heap)
    → IsValid c
    → ep.extra ≡ []
    → Returns (endpoint_body g len t ep c e h) (Accounts c.size h.live)
unfolding endpoint_body
endpoint_body-Accounts g len t ep c e h v x = elim (Bool-cases (t == dt_endpoint)) [
  | inr p ↦ rw (p, x) (ground arith)
  | inl p ↦ rw p (elim (Bool-cases (ltb c.size len)) [
    | inl q ↦ rw (q, x) (ground arith)
    | inr q ↦ rw q (
        let size = ltb→ge c.size len q in
        let (r, s, f) =
          Returns-inv (endpoint_fields len ep c e) (Fields len ep)
            (endpoint_fields-Fields len ep c e (omega arith)) in
        rw s (after r f size))
  ])
]
  where
    after :
        (r : Result Endpoint)
        → Fields len ep r
        → len ≤ c.size
        → Returns
            (elim r [
              | err x ↦ ret (err x, ep, h)
              | ok ep' ↦ do s ← skip (advance len c); endpoint_extra g len ep' (advance len c) s h
            ])
            (Accounts c.size h.live)
    after (err y) f l = rw x (tt, omega arith)
    after (ok ep') f l =
        let c' = advance len c in
        let v' = advance-IsValid len c v in
        let (s, p, k) = Returns-inv (skip c') (Skips c'.size) (skip-Returns c' v') in
        let d : len + c'.size ≡ c.size = omega arith in
        rw (p)
          (rw d at (endpoint_extra-Accounts g len ep' c' s h v' k (f.1 ∙ x) (omega (arith, f.0))))

-- On any bytes, of at least the size, any allocator and an endpoint without extra data,
-- `parse_endpoint` returns (it neither reads past the size nor runs on), consumes at most `size`
-- bytes, and leaves live what was live and the endpoint's extra block.
pub parse_endpoint-Accounts :
    (g : Grants) (ep : Endpoint) (c : Cursor) (e : Endian) (h : Heap)
    → IsValid c
    → ep.extra ≡ []
    → Returns (parse_endpoint g ep c e h) (Accounts c.size h.live)
unfolding parse_endpoint
parse_endpoint-Accounts g ep c e h v x = elim (Bool-cases (ltb c.size 2)) [
  | inl p ↦ rw (p, x) (tt, omega arith)
  | inr p ↦
      let (len, t, q) = header_total c v (ltb→ge c.size 2 p) in
      rw (p, q) (endpoint_body-Accounts g len t ep c e h v x)
]
