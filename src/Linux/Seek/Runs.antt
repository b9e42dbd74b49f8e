-- ===== src/Linux/Seek/Runs.antt =====
-- `seek_to_next_descriptor` of libusb/libusb/os/linux_usbfs.c on runs of descriptors.
use zerousb.Prelude.{
  ℕ, zero, suc, ◌+◌, ◌≡◌, ◌≢◌, ◌≤◌, ◌<◌, ◌⊎◌, refl, ap, ◌∙◌, not, true, false, if◌then◌else◌,
  Bool-cases, ==_iff, ◌&&◌, List, [], ◌∷◌, ret, ◌==◌, ltb, All, arith, inl, inr, length,
}
use zerousb.Usb.{Result, not_found, ok, err}
use zerousb.Descriptor.Format.{parse_descriptor}
use zerousb.Descriptor.Cursor.{Cursor, advance, header}
use zerousb.Descriptor.Chain.{at, advance-at, Desc, size_of, encode, total, header-encode}
use zerousb.Linux.Seek.{seek_loop, seek_to_next_descriptor}

header-bytes :
    (l t : ℕ) (rest : List ℕ) (n : ℕ)
    → header (record { buffer = l ∷ t ∷ rest; size = n }) ≡ ret (l, t)
unfolding header parse_descriptor
header-bytes l t rest n = refl

-- A round passes over a descriptor that fits and is not the one that is looked for.
seek_loop-step :
    (f kind i len t : ℕ) (c : Cursor)
    → header c ≡ ret (len, t)
    → 2 ≤ c.size
    → len ≤ c.size
    → (not (i == 0) && t == kind) ≡ false
    → seek_loop (suc f) kind c i ≡ seek_loop f kind (advance len c) (i + len)
unfolding seek_loop
seek_loop-step f kind i len t c e h2 hl h =
    let s0 : (c.size == 0) ≡ false = ground arith in
    let s1 : ltb c.size 2 ≡ false = ground arith in
    let s2 : ltb c.size len ≡ false = ground arith in rw (s0, s1, e, h, s2)

-- A round ends at the descriptor that is looked for.
seek_loop-hit :
    (f kind i len : ℕ) (c : Cursor)
    → header c ≡ ret (len, kind)
    → 2 ≤ c.size
    → i ≢ 0
    → seek_loop (suc f) kind c i ≡ ret (ok i)
unfolding seek_loop
seek_loop-hit f kind i len c e h2 z =
    let s0 : (c.size == 0) ≡ false = ground arith in
    let s1 : ltb c.size 2 ≡ false = ground arith in
    let s2 : (not (i == 0) && kind == kind) ≡ true = ground arith in rw (s0, s1, e, s2)

at-step :
    (f kind i : ℕ) (d : Desc) (ds : List Desc) (rest : List ℕ)
    → (i ≡ 0) ⊎ (d.kind ≢ kind)
    → seek_loop (suc f) kind (at (d ∷ ds) rest) i ≡ seek_loop f kind (at ds rest) (i + size_of d)
at-step f kind i d ds rest h =
    let s : (not (i == 0) && d.kind == kind) ≡ false = ground arith in
    seek_loop-step f kind i (size_of d) d.kind (at (d ∷ ds) rest)
      (header-encode d ds rest (total (d ∷ ds) + length rest)) (omega arith) (omega arith) s
    ∙ ap (λ c. seek_loop f kind c (i + size_of d)) (advance-at d ds rest)

-- Behind a run of other descriptors the loop finds the one that is looked for.
loop-found :
    (f kind i : ℕ) (ds : List Desc) (d : Desc) (more : List Desc) (rest : List ℕ)
    → total ds < f
    → i ≢ 0
    → All (λ e. e.kind ≢ kind) ds
    → d.kind ≡ kind
    → seek_loop f kind (at ds (encode (d ∷ more) rest)) i ≡ ret (ok (i + total ds))
loop-found zero kind i ds d more rest hf z a k = absurd (omega arith)
loop-found (suc f) kind i [] d more rest hf z a k =
    let n = 0 + length (encode (d ∷ more) rest) in
    let e : header (at [] (encode (d ∷ more) rest)) ≡ ret (size_of d, kind) =
      header-encode d more rest n ∙ ap (λ x. ret (size_of d, x)) k in
    let s : i ≡ i + 0 = omega arith in
    seek_loop-hit f kind i (size_of d) (at [] (encode (d ∷ more) rest)) e (omega arith) z
    ∙ ap (λ x. ret (ok x)) s
loop-found (suc f) kind i (e ∷ ds) d more rest hf z a k =
    let s : i + size_of e + total ds ≡ i + total (e ∷ ds) = omega arith in
    at-step f kind i e ds (encode (d ∷ more) rest) (inr a.0)
    ∙ loop-found f kind (i + size_of e) ds d more rest (omega arith) (omega arith) a.1 k
    ∙ ap (λ x. ret (ok x)) s

-- A run without the descriptor that is looked for is gone through to its end.
loop-absent :
    (f kind i : ℕ) (ds : List Desc)
    → total ds < f
    → All (λ e. e.kind ≢ kind) ds
    → seek_loop f kind (at ds []) i ≡ ret (err not_found)
unfolding seek_loop
loop-absent zero kind i ds hf a = absurd (omega arith)
loop-absent (suc f) kind i [] hf a = refl
loop-absent (suc f) kind i (e ∷ ds) hf a =
    at-step f kind i e ds [] (inr a.0) ∙ loop-absent f kind (i + size_of e) ds (omega arith) a.1

-- On a first descriptor of any type, descriptors of other types and one of the type that is looked
-- for, the function returns the offset of that one.
pub seek_to_next_descriptor-found :
    (kind : ℕ) (e : Desc) (ds : List Desc) (d : Desc) (more : List Desc) (rest : List ℕ)
    → All (λ x. x.kind ≢ kind) ds
    → d.kind ≡ kind
    → seek_to_next_descriptor kind (at (e ∷ ds) (encode (d ∷ more) rest))
      ≡ ret (ok (size_of e + total ds))
unfolding seek_to_next_descriptor
seek_to_next_descriptor-found kind e ds d more rest a k =
    let n = total (e ∷ ds) + length (encode (d ∷ more) rest) in
    let s : 0 + size_of e + total ds ≡ size_of e + total ds = omega arith in
    at-step n kind 0 e ds (encode (d ∷ more) rest) (inl refl)
    ∙ loop-found n kind (0 + size_of e) ds d more rest (omega arith) (omega arith) a k
    ∙ ap (λ x. ret (ok x)) s

-- On a first descriptor of any type and descriptors of types other than the one that is looked for,
-- the function returns LIBUSB_ERROR_NOT_FOUND.
pub seek_to_next_descriptor-absent :
    (kind : ℕ) (e : Desc) (ds : List Desc)
    → All (λ x. x.kind ≢ kind) ds
    → seek_to_next_descriptor kind (at (e ∷ ds) []) ≡ ret (err not_found)
unfolding seek_to_next_descriptor
seek_to_next_descriptor-absent kind e ds a =
    let n = total (e ∷ ds) + length {A = ℕ} [] in
    at-step n kind 0 e ds [] (inl refl) ∙ loop-absent n kind (0 + size_of e) ds (omega arith) a

-- The offset of the first descriptor of the type in a run that starts at offset `i`.
abbrev pub first_offset : ℕ → ℕ → List Desc → Result ℕ
first_offset kind i [] = err not_found
first_offset kind i (d ∷ ds) = if d.kind == kind then ok i else first_offset kind (i + size_of d) ds

loop-first_offset :
    (f kind i : ℕ) (ds : List Desc)
    → total ds < f
    → i ≢ 0
    → seek_loop f kind (at ds []) i ≡ ret (first_offset kind i ds)
unfolding seek_loop
loop-first_offset zero kind i ds hf z = absurd (omega arith)
loop-first_offset (suc f) kind i [] hf z = refl
loop-first_offset (suc f) kind i (d ∷ ds) hf z = elim (Bool-cases (d.kind == kind)) [
  | inl p ↦
      let k : d.kind ≡ kind = (==_iff d.kind kind).0 p in
      let e : header (at (d ∷ ds) []) ≡ ret (size_of d, kind) =
        header-encode d ds [] (total (d ∷ ds) + length {A = ℕ} [])
        ∙ ap (λ x. ret (size_of d, x)) k in
      rw p (seek_loop-hit f kind i (size_of d) (at (d ∷ ds) []) e (omega arith) z)
  | inr p ↦
      let different : d.kind ≢ kind = λ e. absurd (ground (arith, e)) in
      rw p (
        at-step f kind i d ds [] (inr different)
        ∙ loop-first_offset f kind (i + size_of d) ds (omega arith) (omega arith))
]

-- On any run of well-formed descriptors that fills the buffer, `seek_to_next_descriptor` returns the
-- offset of the first descriptor of the type behind the first one, whose type does not matter, and
-- LIBUSB_ERROR_NOT_FOUND if there is none.
pub seek_to_next_descriptor-first_offset :
    (kind : ℕ) (e : Desc) (ds : List Desc)
    → seek_to_next_descriptor kind (at (e ∷ ds) []) ≡ ret (first_offset kind (size_of e) ds)
unfolding seek_to_next_descriptor
seek_to_next_descriptor-first_offset kind e ds =
    let n = total (e ∷ ds) + length {A = ℕ} [] in
    let z : 0 + size_of e ≡ size_of e = omega arith in
    at-step n kind 0 e ds [] (inl refl)
    ∙ loop-first_offset n kind (0 + size_of e) ds (omega arith) (omega arith)
    ∙ ap (λ i. ret (first_offset kind i ds)) z
