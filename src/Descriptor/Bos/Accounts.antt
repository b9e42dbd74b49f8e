-- ===== src/Descriptor/Bos/Accounts.antt =====
-- The memory of the Binary Device Object Store of libusb/libusb/descriptor.c.
use zerousb.Prelude.{
  ℕ, zero, suc, ◌+◌, ◌-◌, ◌≡◌, ◌≤◌, refl, sym, subst, ◌∙◌, not, false, Option, none, some, List, [],
  ◌∷◌, ◌++◌, Outcome, ret, ◌>>=◌, ltb, if◌then◌else◌, length, take, drop, replicate, get_or, All,
  Bool-cases, inl, inr, arith, Returns, Returns-bind, length-take, length-append, ge→ltb,
}
use zerousb.Usb.{Error, Result, ok, err, io, no_mem}
use zerousb.Descriptor.Format.{Endian, bus, parse_descriptor, byte, field_at}
use zerousb.Descriptor.Format.Reads.{parse_descriptor_total}
use zerousb.Descriptor.Cursor.{Cursor, advance, IsValid, advance-IsValid}
use zerousb.Descriptor.Heap.{Grants, Heap, free, malloc}
use zerousb.Descriptor.Bos.{
  Bos, bos_format, store_bos, Check, stop, invalid, good, check_cap, CapsResult, after_check,
  caps_loop, finish_bos, free_bos_descriptor, header_is_good, parse_bos, Request, second_answer,
  get_bos_descriptor,
}

-- A capability's block is as long as its bLength, and has the bytes that a capability starts with.
abbrev pub IsBlock : List ℕ → Type 0
IsBlock cap = (3 ≤ length cap) × (get_or cap 0 0 ≡ length cap)

abbrev bytes_in : List (List ℕ) → ℕ
bytes_in [] = 0
bytes_in (cap ∷ caps) = length cap + bytes_in caps

abbrev CapsPost : ℕ → ℕ → ℕ → CapsResult → Type 0
CapsPost n size live (x, caps, h) =
    (length caps ≤ n) × (bytes_in caps ≤ size) × (h.live ≡ live + length caps) × All IsBlock caps

nothing :
    (n size live : ℕ) (x : Option Error) (h : Heap)
    → h.live ≡ live
    → CapsPost n size live (x, [], h)
nothing n size live x h e = (omega arith, omega arith, omega arith, tt)

-- A first byte within a block stays its first byte.
get_or-take : (n : ℕ) (x : ℕ) (b : List ℕ) → 1 ≤ n → get_or (take n (x ∷ b)) 0 0 ≡ x
get_or-take zero x b h = absurd (omega arith)
get_or-take (suc n) x b h = refl

after_check-Post :
    (k : Check) (n : ℕ) (g : Grants) (len size : ℕ) (b : List ℕ) (h : Heap)
    (rest : Heap → Outcome CapsResult)
    → ((h' : Heap) → Returns (rest h') (CapsPost n (size - len) h'.live))
    → (k ≡ good → (3 ≤ len) × (len ≤ size))
    → size ≤ length (len ∷ b)
    → Returns (after_check k g len (len ∷ b) h rest) (CapsPost (suc n) size h.live)
unfolding after_check
after_check-Post stop n g len size b h rest ih good_len v = nothing (suc n) size h.live none h refl
after_check-Post invalid n g len size b h rest ih good_len v =
    nothing (suc n) size h.live (some io) h refl
after_check-Post good n g len size b h rest ih good_len v = elim (Bool-cases (g h.calls)) [
  | inr q ↦ rw q (
      nothing (suc n) size h.live (some no_mem) (record { calls = suc h.calls; live = h.live })
        refl)
  | inl q ↦
      let (three, fits) = good_len refl in
      let p : ltb (length (len ∷ b)) len ≡ false = ge→ltb (length (len ∷ b)) len (omega arith) in
      let cap = take len (len ∷ b) in
      let l : length cap ≡ len = omega (arith, length-take len (len ∷ b)) in
      let block : IsBlock cap = (omega arith, get_or-take len len b (omega arith) ∙ sym l) in
      rw (q, p)
        (Returns-bind (rest (record { calls = suc h.calls; live = suc h.live }))
          (CapsPost n (size - len) (suc h.live)) _ _
          (ih (record { calls = suc h.calls; live = suc h.live }))
          (λ (x, caps, h') (a, s, m, bs). (omega arith, omega arith, omega arith, (block, bs))))
]

check_cap-good : (len t size : ℕ) → check_cap len t size ≡ good → (3 ≤ len) × (len ≤ size)
check_cap-good len t size e = ground arith

caps_round :
    (n : ℕ) (g : Grants) (b : List ℕ) (size : ℕ) (e : Endian) (h : Heap)
    → ((b' : List ℕ) (size' : ℕ) (h' : Heap)
        → size' ≤ length b'
        → Returns
            (caps_loop n g (record { buffer = b'; size = size' }) e h')
            (CapsPost n size' h'.live))
    → size ≤ length b
    → 3 ≤ size
    → Returns
        (do
          (ws, k) ← parse_descriptor (replicate 3 byte) b 0 e
          let len = field_at ws 0 0
          after_check
              (check_cap len (field_at ws 1 0) size)
              g
              len
              b
              h
              (λ h'. caps_loop n g (advance len (record { buffer = b; size = size })) e h'))
        (CapsPost (suc n) size h.live)
unfolding parse_descriptor
caps_round n g (len ∷ t ∷ z ∷ b) size e h ih v k =
    after_check-Post (check_cap len t size) n g len size (t ∷ z ∷ b) h _
      (λ h'.
        ih (drop len (len ∷ t ∷ z ∷ b)) (size - len) h'
          (advance-IsValid len (record { buffer = len ∷ t ∷ z ∷ b; size = size }) v))
      (check_cap-good len t size) v
caps_round n g [] size e h ih v k = absurd (omega arith)
caps_round n g (x ∷ []) size e h ih v k = absurd (omega arith)
caps_round n g (x ∷ y ∷ []) size e h ih v k = absurd (omega arith)

caps_loop-Post :
    (n : ℕ) (g : Grants) (b : List ℕ) (size : ℕ) (e : Endian) (h : Heap)
    → size ≤ length b
    → Returns (caps_loop n g (record { buffer = b; size = size }) e h) (CapsPost n size h.live)
unfolding caps_loop
caps_loop-Post zero g b size e h v = nothing 0 size h.live none h refl
caps_loop-Post (suc n) g b size e h v = elim (Bool-cases (ltb size 3)) [
  | inl p ↦ rw p (nothing (suc n) size h.live none h refl)
  | inr p ↦
      rw p (
        caps_round n g b size e h (λ b' size' h'. caps_loop-Post n g b' size' e h') v
          (ground arith))
]

-- What `parse_bos` leaves: on an error no block; on success the capabilities that bNumDeviceCaps
-- counts, none more than declared, each a block as long as it says, and all within the size; and
-- `libusb_free_bos_descriptor` frees all of it.
abbrev pub BosPost : ℕ → ℕ → Result Bos × Heap → Type 0
BosPost size live (err x, h) = h.live ≡ live
BosPost size live (ok bos, h) =
    (bos.b_num_device_caps ≡ length bos.dev_capability)
    × (bytes_in bos.dev_capability ≤ size)
    × All IsBlock bos.dev_capability
    × ((free_bos_descriptor (some bos) h).live ≡ live)

finish_bos-BosPost :
    (bos : Bos) (size live : ℕ) (r : CapsResult)
    → CapsPost bos.b_num_device_caps size (suc live) r
    → BosPost size live (finish_bos bos r)
unfolding finish_bos
finish_bos-BosPost bos size live (none, caps, h) (n, s, m, bs) =
    (refl, s, bs, omega (arith, length-take (length caps) caps))
finish_bos-BosPost bos size live (some x, caps, h) (n, s, m, bs) =
    omega (arith, length-take bos.b_num_device_caps caps)

-- On any bytes, of at least the size, and any allocator `parse_bos` returns: it ends, and reads
-- nothing past the size. On an error no block is left. On success bNumDeviceCaps counts the
-- capabilities, each of them a block as long as its bLength, all of them within the size, and
-- `libusb_free_bos_descriptor` frees all that was allocated.
pub parse_bos-BosPost :
    (g : Grants) (c : Cursor) (e : Endian) (h : Heap)
    → IsValid c
    → Returns (parse_bos g c e h) (BosPost c.size h.live)
unfolding parse_bos
parse_bos-BosPost g c e h v = elim (Bool-cases (ltb c.size 5)) [
  | inl p ↦ rw p refl
  | inr p ↦
      let (ws, q) = parse_descriptor_total bos_format c.buffer 0 e (ground arith) in
      elim (Bool-cases (header_is_good (store_bos ws) c.size)) [
        | inr k ↦ rw (p, q, k) refl
        | inl k ↦ elim (Bool-cases (g h.calls)) [
          | inr m ↦ rw (p, q, k, m) refl
          | inl m ↦
              rw (p, q, k, m)
                (let bos = store_bos ws in
                  let c' = advance bos.b_length c in
                  Returns-bind
                    (caps_loop bos.b_num_device_caps g c' e
                      (record { calls = suc h.calls; live = suc h.live }))
                    (CapsPost bos.b_num_device_caps c'.size (suc h.live)) _ _
                    (caps_loop-Post bos.b_num_device_caps g c'.buffer c'.size e _
                      (advance-IsValid bos.b_length c v))
                    (λ (x, caps, h') (a, s, l, bs).
                      finish_bos-BosPost bos c.size h.live (x, caps, h') (a, omega arith, l, bs)))
        ]
      ]
]

-- Freeing the block of the answer leaves what was promised, of one block less.
drop_answer :
    (size live : ℕ) (r : Result Bos) (h : Heap)
    → BosPost size (suc live) (r, h)
    → BosPost size live (r, free 1 h)
unfolding free_bos_descriptor
drop_answer size live (err x) h p = omega arith
drop_answer size live (ok bos) h (n, s, bs, f) = (n, s, bs, omega arith)

abbrev pub Fetched : ℕ → Result Bos × Heap → Type 0
Fetched live o = (size : ℕ) × BosPost size live o

second_answer-Fetched :
    (g : Grants) (total live : ℕ) (r : Result (List ℕ)) (h : Heap)
    → h.live ≡ suc live
    → Returns (second_answer g total r h) (Fetched live)
unfolding second_answer
second_answer-Fetched g total live (err x) h l = (0, omega arith)
second_answer-Fetched g total live (ok bytes) h l =
    let c : Cursor = record {
      buffer = bytes ++ replicate (total - length bytes) 0;
      size = length bytes;
    } in
    Returns-bind (parse_bos g c bus h) (BosPost (length bytes) h.live) _ _
      (parse_bos-BosPost g c bus h
        (omega (arith, length-append bytes (replicate (total - length bytes) 0))))
      (λ (r, h') p. (
        length bytes,
        drop_answer (length bytes) live r h'
            (subst (λ (k : ℕ). BosPost (length bytes) k (r, h')) l p),
      ))

-- Whatever a device answers to the two requests, `libusb_get_bos_descriptor` returns, having read
-- nothing past the answers. On an error no block is left; on success what is left is what
-- `libusb_free_bos_descriptor` frees, and the capabilities are blocks as long as their bLength.
pub get_bos_descriptor-Fetched :
    (first second : Request) (g : Grants) (h : Heap)
    → Returns (get_bos_descriptor first second g h) (Fetched h.live)
unfolding get_bos_descriptor
get_bos_descriptor-Fetched first second g h = by_answer (first 5)
  where
    by_answer :
        (r : Result (List ℕ))
        → Returns
            (elim r as (λ x. Outcome (Result Bos × Heap)) [
              | err x ↦ ret (err x, h)
              | ok bytes ↦ if ltb (length bytes) 5 then ret (err io, h) else (do
                (ws, n) ← parse_descriptor bos_format bytes 0 bus
                let total = field_at ws 2 0
                let (granted, h') = malloc g h
                if not granted
                    then ret (err no_mem, h')
                    else second_answer g total (second total) h')
            ])
            (Fetched h.live)
    by_answer (err x) = (0, refl)
    by_answer (ok bytes) = elim (Bool-cases (ltb (length bytes) 5)) [
      | inl p ↦ rw p (0, refl)
      | inr p ↦
          let (ws, q) = parse_descriptor_total bos_format bytes 0 bus (ground arith) in
          elim (Bool-cases (g h.calls)) [
            | inr k ↦ rw (p, q, k) (0, refl)
            | inl k ↦
                rw (p, q, k)
                  (second_answer-Fetched g (field_at ws 2 0) h.live (second (field_at ws 2 0)) _
                    refl)
          ]
    ]
