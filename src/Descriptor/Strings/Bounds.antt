-- ===== src/Descriptor/Strings/Bounds.antt =====
-- The bounds of `libusb_get_string_descriptor_ascii` of libusb/libusb/descriptor.c: of its own buffer
-- and of the caller's.
use zerousb.Prelude.{
  ℕ, zero, suc, ◌+◌, ◌*◌, ◌≡◌, ◌≤◌, ◌<◌, refl, Bool, true, false, List, [], ◌∷◌, get_or, ltb, leb,
  if◌then◌else◌, length, ◌==◌, Returns, Returns-bind, Bool-cases, inl, inr, arith, lt→ltb,
}
use zerousb.Usb.{Result-cases, Result, ok, err, dt_string}
use zerousb.Descriptor.Strings.{
  Buffer, write, is_foreign, ascii_loop, terminate, convert, get_string_descriptor_ascii,
}
use zerousb.Descriptor.Strings.Ascii.{IsAscii}

-- ASCII characters, fewer than there is room for behind those before.
abbrev Fills : ℕ → ℕ → List ℕ → Type 0
Fills room di cs = IsAscii cs × (di + length cs < room)

is_foreign-Returns :
    (b : Buffer) (si : ℕ)
    → si + 1 < 255
    → Returns (is_foreign b si) (λ foreign. foreign ≡ false → b si < 128)
unfolding is_foreign
is_foreign-Returns b si l =
    let r0 : ltb si 255 ≡ true = lt→ltb _ _ (omega arith) in
    let r1 : ltb (si + 1) 255 ≡ true = lt→ltb _ _ l in
    elim (Bool-cases (leb 128 (b si))) [
      | inl p ↦ rw (r0, p) (λ e. cc)
      | inr p ↦ rw (r0, p, r1) (λ e. ground arith)
    ]

ascii_loop-Fills :
    (f : ℕ) (b : Buffer) (room si di : ℕ)
    → b 0 < 255
    → si ≤ 255
    → 255 < si + 2 * f
    → di < room
    → Returns (ascii_loop f b room si di) (Fills room di)
unfolding ascii_loop
ascii_loop-Fills zero b room si di l ls lf lr = absurd (omega arith)
ascii_loop-Fills (suc f) b room si di l ls lf lr = elim (Bool-cases (leb (b 0) si)) [
  | inl p ↦ rw p (tt, omega arith)
  | inr p ↦ elim (Bool-cases (leb room (di + 1))) [
    | inl q ↦ rw (p, q) (tt, omega arith)
    | inr q ↦
        let k : si < b 0 = ground arith in
        let r : ltb si 255 ≡ true = lt→ltb _ _ (omega arith) in
        let ih =
          ascii_loop-Fills f b room (si + 2) (di + 1) l (omega arith) (omega arith)
            (ground arith) in
        rw (p, q)
          (Returns-bind (is_foreign b si) (λ foreign. foreign ≡ false → b si < 128) _ _
            (is_foreign-Returns b si (omega arith))
            (λ foreign a. rw r (
              Returns-bind (ascii_loop f b room (si + 2) (di + 1)) (Fills room (di + 1)) _ _ ih
                (λ cs (x, y). ((letter foreign a, x), omega arith)))))
  ]
]
  where
    letter :
        (foreign : Bool) → (foreign ≡ false → b si < 128) → (if foreign then b'?' else b si) < 128
    letter true a = omega arith
    letter false a = a refl

-- What is promised of the result, with room for `room` bytes.
abbrev pub Text : ℕ → Result (List ℕ) → Type 0
Text room (ok cs) = IsAscii cs × (length cs < room)
Text room (err x) = Unit

convert-Text :
    (b : Buffer) (r room : ℕ) → b 0 < 255 → 0 < room → Returns (convert b r room) (Text room)
unfolding convert terminate
convert-Text b r room l k = elim (Bool-cases (b 1 == dt_string)) [
  | inr p ↦ rw p tt
  | inl p ↦ elim (Bool-cases (ltb r (b 0))) [
    | inl q ↦ rw (p, q) tt
    | inr q ↦
        rw (p, q)
          (Returns-bind (ascii_loop 128 b room 2 0) (Fills room 0) _ _
            (ascii_loop-Fills 128 b room 2 0 l (omega arith) (omega arith) k)
            (λ cs (a, m).
              let t : ltb (length cs) room ≡ true = lt→ltb _ _ (omega arith) in
              rw t (a, omega arith)))
  ]
]

-- No answer starts with the byte 255.
abbrev pub IsTame : (ℕ → ℕ → Result (List ℕ)) → Type 0
IsTame request =
    (i langid : ℕ) (bytes : List ℕ) → request i langid ≡ ok bytes → get_or bytes 0 0 < 255

write-lt :
    (bytes : List ℕ) (b : Buffer) → get_or bytes 0 0 < 255 → b 0 < 255 → write bytes b 0 < 255
write-lt [] b h k = k
write-lt (x ∷ bytes) b h k = h

write-lt_first :
    (bytes : List ℕ) (b : Buffer)
    → get_or bytes 0 0 < 255
    → 4 ≤ length bytes
    → write bytes b 0 < 255
write-lt_first [] b h l = absurd (omega arith)
write-lt_first (x ∷ bytes) b h l = h

-- Whatever the device answers: if no answer starts with the byte 255
-- and `data` has room for a byte, the function returns, having read nothing past its buffer and
-- written nothing past `data`; on success it has put ASCII characters there, and has room for the
-- byte behind them.
pub get_string_descriptor_ascii-Text :
    (request : ℕ → ℕ → Result (List ℕ)) (garbage : Buffer) (index room : ℕ)
    → IsTame request
    → 0 < room
    → Returns (get_string_descriptor_ascii request garbage index room) (Text room)
unfolding get_string_descriptor_ascii
get_string_descriptor_ascii-Text request garbage index room tame k =
    elim (Bool-cases (index == 0)) [
      | inl p ↦ rw p tt
      | inr p ↦ elim (Result-cases (request 0 0)) [
        | inl (x, e) ↦ rw (p, e) tt
        | inr (bytes, e) ↦ elim (Bool-cases (ltb (length bytes) 4)) [
          | inl q ↦ rw (p, e, q) tt
          | inr q ↦
              let b = write bytes garbage in
              let first : b 0 < 255 =
                write-lt_first bytes garbage (tame 0 0 bytes e) (ground arith) in
              elim (Result-cases (request index (b 2 + b 3 * 256))) [
                | inl (x, m) ↦ rw (p, e, q, m) tt
                | inr (answer, m) ↦
                    rw (p, e, q, m)
                      (convert-Text (write answer b) (length answer) room
                        (write-lt answer b (tame index (b 2 + b 3 * 256) answer m) first) k)
              ]
        ]
      ]
    ]
