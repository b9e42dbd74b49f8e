-- ===== src/Descriptor/Strings/Ascii.antt =====
-- What `libusb_get_string_descriptor_ascii` of libusb/libusb/descriptor.c makes of the answers.
use zerousb.Prelude.{
  ℕ, zero, suc, ◌+◌, ◌*◌, ◌≡◌, ◌≢◌, ◌≤◌, ◌<◌, refl, ap, ◌∙◌, true, false, some, List, [], ◌∷◌,
  get_elem?, All, ret, ltb, leb, length, ◌==◌, arith, ge→ltb, lt→ltb,
}
use zerousb.Usb.{Result, ok, dt_string}
use zerousb.Descriptor.Strings.{
  Buffer, write, is_foreign, ascii_loop, terminate, convert, get_string_descriptor_ascii,
}

-- A text in UTF-16, as a string descriptor holds it.
abbrev pub utf16 : List ℕ → List ℕ
utf16 [] = []
utf16 (c ∷ cs) = c ∷ 0 ∷ utf16 cs

abbrev pub string_descriptor : List ℕ → List ℕ
string_descriptor cs = (2 * length cs + 2) ∷ dt_string ∷ utf16 cs

abbrev pub IsAscii : List ℕ → Type 0
IsAscii = All (λ c. c < 128)

-- The buffer from `si` on holds the text.
abbrev Holds : Buffer → ℕ → List ℕ → Type 0
Holds b si [] = Unit
Holds b si (c ∷ cs) = (b si ≡ c) × (b (si + 1) ≡ 0) × Holds b (si + 2) cs

Holds-write :
    (answer : List ℕ) (b : Buffer) (si : ℕ) (cs : List ℕ)
    → ((k : ℕ) → get_elem? answer (si + k) ≡ get_elem? (utf16 cs) k)
    → Holds (write answer b) si cs
Holds-write answer b si [] h = tt
Holds-write answer b si (c ∷ cs) h =
    let z : si ≡ si + 0 = omega arith in
    let o : si + 1 ≡ si + suc 0 = omega arith in
    let at_si : get_elem? answer si ≡ some c = ap (get_elem? answer) z ∙ h 0 in
    let at_next : get_elem? answer (si + 1) ≡ some 0 = ap (get_elem? answer) o ∙ h (suc 0) in
    (
      rw (at_si, write) refl,
      rw (at_next, write) refl,
      Holds-write answer b (si + 2) cs (λ k.
          let t : si + 2 + k ≡ si + suc (suc k) = omega arith in
          ap (get_elem? answer) t ∙ h (suc (suc k))),
    )

ascii_loop-text :
    (f : ℕ) (b : Buffer) (room si di : ℕ) (cs : List ℕ)
    → Holds b si cs
    → IsAscii cs
    → b 0 ≡ si + 2 * length cs
    → si + 2 * length cs < 255
    → length cs < f
    → di + length cs < room
    → ascii_loop f b room si di ≡ ret cs
unfolding ascii_loop is_foreign
ascii_loop-text zero b room si di cs h a e l lf lr = absurd (omega arith)
ascii_loop-text (suc f) b room si di [] h a e l lf lr =
    let p : leb (b 0) si ≡ true = ground arith in rw p
ascii_loop-text (suc f) b room si di (c ∷ cs) h a e l lf lr =
    let p : leb (b 0) si ≡ false = ground arith in
    let q : leb room (di + 1) ≡ false = ground arith in
    let r0 : ltb si 255 ≡ true = ground arith in
    let r1 : ltb (si + 1) 255 ≡ true = ground arith in
    let s : leb 128 c ≡ false = ground arith in
    let ih =
      ascii_loop-text f b room (si + 2) (di + 1) cs h.2 a.1 (omega arith) (omega arith)
        (omega arith) (omega arith) in
    rw (p, q, r0, r1, h.0, s, h.1, ih) refl

length-utf16 : (cs : List ℕ) → length (utf16 cs) ≡ 2 * length cs
length-utf16 [] = refl
length-utf16 (c ∷ cs) = omega (arith, length-utf16 cs)

convert-text :
    (b : Buffer) (room : ℕ) (cs : List ℕ)
    → IsAscii cs
    → length cs ≤ 126
    → length cs < room
    → convert (write (string_descriptor cs) b) (length (string_descriptor cs)) room ≡ ret (ok cs)
unfolding convert terminate
convert-text b room cs a l lr =
    let answer = string_descriptor cs in
    let n : length answer ≡ 2 * length cs + 2 = omega (arith, length-utf16 cs) in
    let fits : ltb (length answer) (2 * length cs + 2) ≡ false = ge→ltb _ _ (omega arith) in
    let holds : Holds (write answer b) 2 cs =
      Holds-write answer b 2 cs
        (λ k. let t : 2 + k ≡ suc (suc k) = omega arith in ap (get_elem? answer) t) in
    let cs_lem : ascii_loop 128 (write answer b) room 2 0 ≡ ret cs =
      ascii_loop-text 128 (write answer b) room 2 0 cs holds a (omega arith) (omega arith)
        (omega arith) (omega arith) in
    let r : ltb (length cs) room ≡ true = lt→ltb _ _ lr in rw (fits, cs_lem, r) refl

-- If the device answers the request for its languages with four bytes or more, and the request for a
-- string by the descriptor of an ASCII text of at most 126 characters, then with room for the text and
-- a byte more the function gives back the text.
pub get_string_descriptor_ascii-string_descriptor :
    (request : ℕ → ℕ → Result (List ℕ)) (garbage : Buffer) (index room : ℕ) (languages cs : List ℕ)
    → index ≢ 0
    → request 0 0 ≡ ok languages
    → 4 ≤ length languages
    → ((langid : ℕ) → request index langid ≡ ok (string_descriptor cs))
    → IsAscii cs
    → length cs ≤ 126
    → length cs < room
    → get_string_descriptor_ascii request garbage index room ≡ ret (ok cs)
unfolding get_string_descriptor_ascii
get_string_descriptor_ascii-string_descriptor request garbage index room languages cs z e l answer a
      n r =
    let p : (index == 0) ≡ false = ground arith in
    let q : ltb (length languages) 4 ≡ false = ground arith in
    let b = write languages garbage in
    rw (p, e, q, answer (b 2 + b 3 * 256)) (convert-text b room cs a n r)
