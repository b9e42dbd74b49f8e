-- ===== src/Linux/Iso/Cut.antt =====
-- How `submit_iso_transfer` of libusb/libusb/os/linux_usbfs.c cuts the packets of a transfer.
use zerousb.Prelude.{
  ℕ, zero, suc, ◌+◌, ◌≡◌, ◌≤◌, ◌<◌, refl, ap, subst, Bool, Option, some, List, [], ◌∷◌, ◌++◌,
  length, take, drop, Bool-cases, Option-cases, inl, inr, arith, length-take, length-drop, min,
}
use zerousb.Linux.Iso.{Urb, max_packets, urbs_needed, sum, make_urbs}

-- The URBs take the packets in their order, each at least one and at most 128, up to the packets that
-- are left, and their buffers follow each other from the offset on.
abbrev pub Cuts : ℕ → List Urb → List ℕ → List ℕ → Type 0
Cuts offset [] packets left = packets ≡ left
Cuts offset (u ∷ us) packets left =
    (u.offset ≡ offset)
    × (0 < length u.packets)
    × (length u.packets ≤ max_packets)
    × ((rest : List ℕ) × (packets ≡ u.packets ++ rest) × Cuts (offset + sum u.packets) us rest left)

take-drop {ℓ} : {A : Type ℓ} (n : ℕ) (xs : List A) → xs ≡ take n xs ++ drop n xs
take-drop zero xs = refl
take-drop (suc n) [] = refl
take-drop (suc n) (x ∷ xs) = ap (x ∷◌) (take-drop n xs)

empty_lem : (xs : List ℕ) → length xs ≡ 0 → xs ≡ []
empty_lem [] h = refl
empty_lem (x ∷ xs) h = absurd (omega arith)

-- All packets are cut.
pub make_urbs-Cuts :
    (granted : ℕ → Bool) (n i offset : ℕ) (packets : List ℕ) (urbs : List Urb)
    → n ≡ urbs_needed (length packets)
    → make_urbs granted n i offset packets ≡ some urbs
    → Cuts offset urbs packets [] × (length urbs ≡ n)
unfolding make_urbs
make_urbs-Cuts granted zero i offset packets urbs e m =
    let z : length packets ≡ 0 = omega arith in
    let none_made : [] ≡ urbs = ground arith in
    subst (λ us. Cuts offset us packets [] × (length us ≡ 0)) none_made (empty_lem packets z, refl)
make_urbs-Cuts granted (suc n) i offset packets urbs e m = elim (Bool-cases (granted i)) [
  | inl g ↦ elim (Option-cases (make_urbs granted n (i + 1) after rest)) [
    | inl z ↦ absurd (let f = rw (g, z) at m in cc)
    | inr (us, z) ↦
        let f : Option.some (first ∷ us) ≡ some urbs = rw (g, z) at m in
        let same : first ∷ us ≡ urbs = ground (arith, f) in
        let size : length here ≡ min max_packets (length packets) =
          length-take max_packets packets in
        let (c, l) =
          make_urbs-Cuts granted n (i + 1) after rest us
            (omega (arith, length-drop max_packets packets)) z in
        subst (λ xs. Cuts offset xs packets [] × (length xs ≡ suc n)) same
          ((refl, omega arith, omega arith, (rest, take-drop max_packets packets, c)), ap suc l)
  ]
  | inr g ↦ absurd (let f = rw g at m in cc)
]
  where
    here : List ℕ
    here = take max_packets packets

    rest : List ℕ
    rest = drop max_packets packets

    after : ℕ
    after = offset + sum here

    first : Urb
    first = record { offset = offset; packets = here }

pub Cuts-prefix :
    (offset : ℕ) (us vs : List Urb) (packets left : List ℕ)
    → Cuts offset (us ++ vs) packets left
    → (mid : List ℕ) × Cuts offset us packets mid × (vs ≡ [] → mid ≡ left)
Cuts-prefix offset [] [] packets left c = (packets, refl, λ e. c)
Cuts-prefix offset [] (v ∷ vs) packets left c = (packets, refl, λ e. cc)
Cuts-prefix offset (u ∷ us) vs packets left (o, l, m, (rest, e, c)) =
    let (mid, d, f) = Cuts-prefix (offset + sum u.packets) us vs rest left c in
    (mid, (o, l, m, (rest, e, d)), f)
