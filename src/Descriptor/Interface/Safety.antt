-- ===== src/Descriptor/Interface/Safety.antt =====
-- The loop over the endpoints in `parse_interface` of libusb/libusb/descriptor.c, and the body of its
-- loop over the settings: they return, stay within the buffer, and account for their blocks.
use zerousb.Prelude.{
  ℕ, zero, suc, ◌+◌, ◌-◌, ◌≤◌, ◌≡◌, refl, some, ◌∷◌, ret, ◌>>=◌, arith, if◌then◌else◌, length, take,
  ◌==◌, Returns, Returns-inv, Bool-cases, inl, inr, ge→ltb, replicate,
}
use zerousb.Usb.{Result, ok, err}
use zerousb.Descriptor.Format.{Endian}
use zerousb.Descriptor.Cursor.{
  Cursor, IsValid, advance-IsValid, advance, Skip, Skips, skip-Returns, stopped, short, bad_length,
  skip,
}
use zerousb.Descriptor.Heap.{Grants, Heap, block, block-take}
use zerousb.Descriptor.Endpoint.{Endpoint, zero_endpoint, parse_endpoint}
use zerousb.Descriptor.Endpoint.Safety.{parse_endpoint-Accounts, Accounts}
use zerousb.Descriptor.Interface.Setting.{AltSetting, blocks_extra, freed_alt}
use zerousb.Descriptor.Interface.Body.{
  EndpointsResult, count_endpoint, parse_endpoints, Body, failed, cut, next, BodyResult,
  alt_endpoints, alt_extra, alt_body,
}

blocks_extra-replicate : (n : ℕ) → blocks_extra (take n (replicate n zero_endpoint)) ≡ 0
blocks_extra-replicate zero = refl
blocks_extra-replicate (suc n) = omega (arith, blocks_extra-replicate n)

-- The cursor behind `parsed` bytes.
abbrev Behind : ℕ → ℕ → Cursor → Type 0
Behind total parsed c = IsValid c × (parsed + c.size ≡ total)

abbrev EndpointsPost : ℕ → ℕ → ℕ → EndpointsResult → Type 0
EndpointsPost n total live (err x, eps, h) = h.live ≡ live + blocks_extra (take n eps)
EndpointsPost n total live (ok (i, parsed, c), eps, h) =
    (i ≤ n) × Behind total parsed c × (h.live ≡ live + blocks_extra (take i eps))

parse_endpoints-Returns :
    (g : Grants) (n : ℕ) (c : Cursor) (e : Endian) (h : Heap)
    → IsValid c
    → Returns (parse_endpoints g n c e h) (EndpointsPost n c.size h.live)
unfolding parse_endpoints
parse_endpoints-Returns g zero c e h v = (omega arith, (v, omega arith), omega arith)
parse_endpoints-Returns g (suc n) c e h v =
    let (r, p, a) =
      Returns-inv (parse_endpoint g zero_endpoint c e h) (Accounts c.size h.live)
        (parse_endpoint-Accounts g zero_endpoint c e h v refl) in
    rw p (after r.0 r.1 r.2 a (parse_endpoints-Returns g n))
  where
    after :
        (r : Result ℕ) (ep : Endpoint) (h' : Heap)
        → Accounts c.size h.live (r, ep, h')
        → ((c : Cursor) (e : Endian) (h : Heap)
            → IsValid c
            → Returns (parse_endpoints g n c e h) (EndpointsPost n c.size h.live))
        → Returns
            (elim r [
              | err x ↦ ret (err x, ep ∷ replicate n zero_endpoint, h')
              | ok k ↦
                  let rest = parse_endpoints g n (advance k c) e h' in
                  if k == 0
                  then ret (ok (0, 0, c), ep ∷ replicate n zero_endpoint, h')
                  else (do (s, eps, h'') ← rest; ret (count_endpoint k s, ep ∷ eps, h''))
            ])
            (EndpointsPost (suc n) c.size h.live)
    after (err x) ep h' a ih = omega (arith, blocks_extra-replicate n)
    after (ok k) ep h' a ih = elim (Bool-cases (k == 0)) [
      | inl p ↦ rw p (omega arith, (v, omega arith), ground arith)
      | inr p ↦
          let c' = advance k c in
          let (s, q, b) =
            Returns-inv (parse_endpoints g n c' e h') (EndpointsPost n c'.size h'.live)
              (ih c' e h' (advance-IsValid k c v)) in
          rw (p, q) (finish s b)
    ]
      where
        finish :
            (s : EndpointsResult)
            → EndpointsPost n (c.size - k) h'.live s
            → EndpointsPost (suc n) c.size h.live (count_endpoint k s.0, ep ∷ s.1, s.2)
        finish (err x, eps, h'') b = omega arith
        finish (ok (i, parsed, c'), eps, h'') b = (omega arith, (b.1.0, omega arith), omega arith)

-- The three ways in which the body of the loop over the settings ends.
abbrev pub Ends : ℕ → Body → Type 0
Ends total (failed x) = Unit
Ends total (cut n) = (n ≤ total) × (9 ≤ n)
Ends total (next n c) = Behind total n c × (9 ≤ n)

abbrev pub BodyPost : ℕ → ℕ → BodyResult → Type 0
BodyPost total live r = Ends total r.0 × (r.2.live ≡ live + freed_alt r.1)

alt_endpoints-Returns :
    (g : Grants) (alt : AltSetting) (parsed total : ℕ) (c : Cursor) (e : Endian) (h : Heap)
    (live : ℕ)
    → Behind total parsed c
    → 9 ≤ parsed
    → freed_alt alt ≡ block alt.extra
    → h.live ≡ live + block alt.extra
    → Returns (alt_endpoints g alt parsed c e h) (BodyPost total live)
unfolding alt_endpoints
alt_endpoints-Returns g alt parsed total c e h live b k x l =
    elim (Bool-cases (alt.b_num_endpoints == 0)) [
      | inl p ↦ rw p ((b, k), omega arith)
      | inr p ↦ rw p (elim (Bool-cases (g h.calls)) [
        | inr q ↦ rw q (tt, omega arith)
        | inl q ↦
            let h' : Heap = record { calls = suc h.calls; live = suc h.live } in
            let (r, s, a) =
              Returns-inv (parse_endpoints g alt.b_num_endpoints c e h')
                (EndpointsPost alt.b_num_endpoints c.size h'.live)
                (parse_endpoints-Returns g alt.b_num_endpoints c e h' b.0) in
            rw (q, s) (after r a)
      ])
    ]
  where
    after :
        (r : EndpointsResult)
        → EndpointsPost alt.b_num_endpoints c.size (suc h.live) r
        → Returns
            (elim r.0 [
              | err x ↦ ret (failed x, record alt { endpoints = some r.1 }, r.2)
              | ok (i, n, c') ↦ ret (
                next (parsed + n) c',
                record alt { endpoints = some r.1; b_num_endpoints = i },
                r.2,
              )
            ])
            (BodyPost total live)
    after (err y, eps, h') a = (tt, omega arith)
    after (ok (i, n, c'), eps, h') a = (((a.1.0, omega arith), omega arith), omega arith)

alt_extra-Returns :
    (g : Grants) (alt : AltSetting) (parsed total : ℕ) (c : Cursor) (s : Skip) (e : Endian)
    (h : Heap)
    → Behind total parsed c
    → 9 ≤ parsed
    → Skips c.size s
    → freed_alt alt ≡ 0
    → Returns (alt_extra g alt parsed c s e h) (BodyPost total h.live)
unfolding alt_extra
alt_extra-Returns g alt parsed total c bad_length e h b k v x = (tt, omega arith)
alt_extra-Returns g alt parsed total c (short n) e h b k v x =
    ((omega arith, omega arith), omega arith)
alt_extra-Returns g alt parsed total c (stopped n) e h b k v x = elim (Bool-cases (n == 0)) [
  | inl p ↦
      rw p (alt_endpoints-Returns g alt parsed total c e h h.live b k (omega arith) (omega arith))
  | inr p ↦ rw p (elim (Bool-cases (g h.calls)) [
    | inr q ↦ rw q (tt, omega arith)
    | inl q ↦
        let y = block-take n c.buffer (ground arith) (omega arith) in
        rw (q, ge→ltb (length c.buffer) n (omega arith))
          (alt_endpoints-Returns g (record alt { extra = take n c.buffer }) (parsed + n) total
            (advance n c) e (record { calls = suc h.calls; live = suc h.live }) h.live
            (advance-IsValid n c b.0, omega arith) (omega arith) (omega arith) (omega arith))
  ])
]

-- The body behind the checks returns on any bytes, consumes at least the interface descriptor, and
-- leaves live what was live and what `clear_interface` frees for the setting.
pub alt_body-Returns :
    (g : Grants) (alt : AltSetting) (c : Cursor) (e : Endian) (h : Heap)
    → IsValid c
    → 9 ≤ alt.b_length
    → alt.b_length ≤ c.size
    → freed_alt alt ≡ 0
    → Returns (alt_body g alt c e h) (BodyPost c.size h.live)
unfolding alt_body
alt_body-Returns g alt c e h v k l x =
    let c' = advance alt.b_length c in
    let v' = advance-IsValid alt.b_length c v in
    let (s, p, y) = Returns-inv (skip c') (Skips c'.size) (skip-Returns c' v') in
    rw p (alt_extra-Returns g alt alt.b_length c.size c' s e h (v', omega arith) k y x)
