-- ===== src/Descriptor/Cursor.antt =====
-- The pointer and the count of bytes left with which the parsers of libusb/libusb/descriptor.c walk
-- over a buffer, and the loop by which they skip class and vendor descriptors.
use zerousb.Prelude.{
  ℕ, zero, suc, ◌+◌, ◌-◌, ◌≤◌, ◌<◌, ◌≡◌, ◌||◌, Bool, List, [], ◌∷◌, Outcome, ret, fault,
  out_of_fuel, ◌>>=◌, arith, ltb, length-drop, if◌then◌else◌, length, drop, ◌==◌, Bool-cases,
  ltb→ge, Returns, inl, inr,
}
use zerousb.Usb.{dt_device, dt_config, dt_interface, dt_endpoint}
use zerousb.Descriptor.Format.{byte, bus, parse_descriptor, field_at}
use zerousb.Descriptor.Format.Reads.{parse_descriptor_total}

-- `buffer` is the memory from the pointer on; `size` is what the code believes is left of it.
pub record Cursor : Type 0 where
  pub buffer : List ℕ
  pub size : ℕ

-- buffer += n; size -= n
abbrev pub advance : ℕ → Cursor → Cursor
advance n c = record { buffer = drop n c.buffer; size = c.size - n }

-- The size does not exceed the memory.
abbrev pub IsValid : Cursor → Type 0
IsValid c = c.size ≤ length c.buffer

pub advance-IsValid : (n : ℕ) (c : Cursor) → IsValid c → IsValid (advance n c)
advance-IsValid n c v = omega (arith, length-drop n c.buffer)

-- usbi_parse_descriptor(buffer, "bb", &header, 0): bLength and bDescriptorType.
unfoldable pub header : Cursor → Outcome (ℕ × ℕ)
unfolding parse_descriptor
header c = do
  (ws, n) ← parse_descriptor (byte ∷ byte ∷ []) c.buffer 0 bus
  ret (field_at ws 0 0, field_at ws 1 0)

-- "If we find another "proper" descriptor then we're done"
abbrev pub is_proper : ℕ → Bool
is_proper t = t == dt_endpoint || t == dt_interface || t == dt_config || t == dt_device

-- How the skipping loop ends, with the bytes skipped so far: `stopped` at a proper descriptor or at
-- fewer than two bytes left, `bad_length` at a bLength below 2, `short` at a bLength above the size.
pub data Skip : Type 0 where
  stopped short : ℕ → Skip
  bad_length : Skip

-- while (size >= DESC_HEADER_LENGTH) { ... }, with `n` bytes skipped before.
unfoldable pub skip_loop : ℕ → Cursor → ℕ → Outcome Skip
unfolding header
skip_loop zero c n = fault out_of_fuel
skip_loop (suc f) c n = if ltb c.size 2 then ret (stopped n) else (do
  (len, t) ← header c
  let rest = skip_loop f (advance len c) (n + len)
  if ltb len 2
      then ret bad_length
      else if ltb c.size len
      then ret (short n)
      else if is_proper t
      then ret (stopped n)
      else rest)

-- Each round but the last lowers the size, so the size bounds the rounds.
unfoldable pub skip : Cursor → Outcome Skip
unfolding skip_loop
skip c = skip_loop (suc c.size) c 0

pub header_total :
    (c : Cursor) → IsValid c → 2 ≤ c.size → (len : ℕ) × (t : ℕ) × (header c ≡ ret (len, t))
unfolding header
header_total c v h =
    let (ws, p) = parse_descriptor_total (byte ∷ byte ∷ []) c.buffer 0 bus (omega arith) in
    (field_at ws 0 0, field_at ws 1 0, rw p)

-- What the loop's result promises: no more is skipped than there was.
abbrev pub Skips : ℕ → Skip → Type 0
Skips total (stopped n) = n ≤ total
Skips total (short n) = n ≤ total
Skips total bad_length = Unit

skip_loop-Returns :
    (f : ℕ) (c : Cursor) (n : ℕ)
    → IsValid c
    → c.size < f
    → Returns (skip_loop f c n) (Skips (n + c.size))
unfolding skip_loop
skip_loop-Returns zero c n v h = absurd (omega arith)
skip_loop-Returns (suc f) c n v h = elim (Bool-cases (ltb c.size 2)) [
  | inl e ↦ rw e (omega arith)
  | inr e ↦
      let (len, t, p) = header_total c v (ltb→ge c.size 2 e) in
      let rest = λ (h2 : 2 ≤ len) (hs : len ≤ c.size).
        skip_loop-Returns f (advance len c) (n + len) (advance-IsValid len c v) (omega arith) in
      rw (e, p)
        (elim (Bool-cases (ltb len 2)) [
          | inl e1 ↦ rw e1 tt
          | inr e1 ↦ rw e1 (elim (Bool-cases (ltb c.size len)) [
            | inl e2 ↦ rw e2 (omega arith)
            | inr e2 ↦ rw e2 (elim (Bool-cases (is_proper t)) [
              | inl e3 ↦ rw e3 (omega arith)
              | inr e3 ↦
                  let d : n + len + (c.size - len) ≡ n + c.size =
                    omega (arith, ltb→ge c.size len e2) in
                  rw e3 (rw d at (rest (ltb→ge len 2 e1) (ltb→ge c.size len e2)))
            ])
          ])
        ])
]

-- The skipping loop of a valid cursor ends, reads nothing past the memory, and skips no more than
-- the size.
pub skip-Returns : (c : Cursor) → IsValid c → Returns (skip c) (Skips c.size)
unfolding skip
skip-Returns c v =
    let d : 0 + c.size ≡ c.size = omega arith in
    rw d at (skip_loop-Returns (suc c.size) c 0 v (omega arith))
