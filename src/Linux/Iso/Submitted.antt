-- ===== src/Linux/Iso/Submitted.antt =====
-- What `submit_iso_transfer` of libusb/libusb/os/linux_usbfs.c leaves with the kernel.
use zerousb.Prelude.{
  ℕ, ◌+◌, ◌%◌, ◌^◌, ◌≡◌, ◌⊎◌, ◌≤◌, ◌<◌, refl, sym, ap, subst, ◌∙◌, false, Option, none, some, List,
  [], ◌∷◌, ◌++◌, ◌==◌, ltb, length, Bool-cases, inl, inr, arith, All, length-append,
}
use zerousb.Usb.{Success, Result, ok, err}
use zerousb.Linux.Bulk.Submit.{normal, submit_failed}
use zerousb.Linux.Iso.{
  IsoTransfer, Urb, Priv, sum_packets, is_too_short, urbs_needed, sum, make_urbs, Errno, Sent,
  fail_submit, submit_loop, Answers, start_priv, submit_made, submit_summed, submit_iso_transfer,
}
use zerousb.Linux.Iso.Cut.{Cuts, make_urbs-Cuts, Cuts-prefix}

-- The URBs with the kernel come first, the others count as retired; where the submission broke off those
-- with the kernel are asked back.
abbrev pub IsSubmittedAs : Result Success → List Urb → Priv → Sent → Type 0
IsSubmittedAs (err x) urbs p s = (s.taken ≡ []) × (s.discards ≡ []) × (s.priv.urbs ≡ false)
IsSubmittedAs (ok u) urbs p s =
    (rest : List Urb) × (urbs ≡ s.taken ++ rest)
    × (0 < length s.taken)
    × (length s.taken + s.priv.num_retired ≡ p.num_urbs)
    × (s.priv.num_urbs ≡ p.num_urbs)
    × (((s.priv.reap_action ≡ normal) × (s.discards ≡ []) × (rest ≡ []))
        ⊎ ((s.priv.reap_action ≡ submit_failed) × (s.discards ≡ (0, length s.taken) ∷ [])))

abbrev pub IsSubmitted : List Urb → Priv → Sent → Type 0
IsSubmitted urbs p s = IsSubmittedAs s.r urbs p s

append-one {ℓ} : {A : Type ℓ} (xs ys : List A) (x : A) → (xs ++ x ∷ []) ++ ys ≡ xs ++ x ∷ ys
append-one [] ys x = refl
append-one (z ∷ xs) ys x = ap (z ∷◌) (append-one xs ys x)

append-nil {ℓ} : {A : Type ℓ} (xs : List A) → xs ++ [] ≡ xs
append-nil [] = refl
append-nil (x ∷ xs) = ap (x ∷◌) (append-nil xs)

no_urbs : (us : List Urb) → length us ≡ 0 → us ≡ []
no_urbs [] e = refl
no_urbs (u ∷ us) e = absurd (omega arith)

submit_loop-IsSubmitted :
    (ioctl : ℕ → Option Errno) (us : List Urb) (i : ℕ) (p : Priv) (taken : List Urb)
    → length taken ≡ i
    → i + length us ≡ p.num_urbs
    → 0 < p.num_urbs
    → p.num_retired ≡ 0
    → p.reap_action ≡ normal
    → IsSubmitted (taken ++ us) p (submit_loop ioctl us i p taken)
unfolding submit_loop
submit_loop-IsSubmitted ioctl [] i p taken e n l z a =
    ([], refl, omega arith, omega arith, refl, inl (a, refl, refl))
submit_loop-IsSubmitted ioctl (u ∷ us) i p taken e n l z a = by_answer (ioctl i) (
    subst (λ xs. IsSubmitted xs p (submit_loop ioctl us (i + 1) p (taken ++ u ∷ [])))
      (append-one taken us u)
      (submit_loop-IsSubmitted ioctl us (i + 1) p (taken ++ u ∷ [])
        (omega (arith, length-append taken (u ∷ []), e)) (omega arith) l z a))
  where
    failed : (x : Errno) → IsSubmitted (taken ++ u ∷ us) p (fail_submit x i p taken)
    failed x = elim (Bool-cases (i == 0)) [
      | inl q ↦ rw q (no_urbs taken (ground arith), refl, refl)
      | inr q ↦ rw q (u ∷ us, refl, ground arith, omega arith, refl, inr (refl, ground arith))
    ]

    by_answer :
        (o : Option Errno)
        → IsSubmitted (taken ++ u ∷ us) p (submit_loop ioctl us (i + 1) p (taken ++ u ∷ []))
        → IsSubmitted (taken ++ u ∷ us) p (elim o [
          | none ↦ submit_loop ioctl us (i + 1) p (taken ++ u ∷ [])
          | some x ↦ fail_submit x i p taken
        ])
    by_answer none next = next
    by_answer (some x) next = failed x

sum_packets-total :
    (max_len total : ℕ) (lens : List ℕ) (n : ℕ)
    → total < 0x100000000
    → sum_packets max_len total lens ≡ ok n
    → (n ≡ (total + sum lens) % 0x100000000) × All (λ len. len ≤ max_len) lens
unfolding sum_packets sum
sum_packets-total max_len total [] n l e = (ground arith, tt)
sum_packets-total max_len total (len ∷ lens) n l e = elim (Bool-cases (ltb max_len len)) [
  | inl q ↦ absurd (let f = rw q at e in cc)
  | inr q ↦
      let f : sum_packets max_len ((total + len) % 2 ^ 32) lens ≡ ok n = rw q at e in
      let (s, a) = sum_packets-total max_len ((total + len) % 2 ^ 32) lens n (omega arith) f in
      (omega (arith, s), (ground arith, a))
]

-- What the submission of a transfer comes to.
abbrev pub IsIsoSentAs : Result Success → ℕ → IsoTransfer → Priv → Sent → Type 0
IsIsoSentAs (err x) max_len t p s =
    (s.taken ≡ []) × (s.discards ≡ []) × ((s.priv ≡ p) ⊎ (s.priv.urbs ≡ false))
IsIsoSentAs (ok u) max_len t p s =
    All (λ len. len ≤ max_len) t.packets
    × ((sum t.packets ≤ t.length) ⊎ (0x80000000 ≤ sum t.packets))
    × (0 < length s.taken)
    × (length s.taken + s.priv.num_retired ≡ s.priv.num_urbs)
    × ((left : List ℕ) × Cuts 0 s.taken t.packets left
        × (((s.priv.reap_action ≡ normal) × (s.discards ≡ []) × (left ≡ []))
            ⊎ ((s.priv.reap_action ≡ submit_failed) × (s.discards ≡ (0, length s.taken) ∷ []))))

abbrev pub IsIsoSent : ℕ → IsoTransfer → Priv → Sent → Type 0
IsIsoSent max_len t p s = IsIsoSentAs s.r max_len t p s

Submitted-IsIsoSent :
    (r : Result Success) (max_len : ℕ) (t : IsoTransfer) (p q : Priv) (urbs : List Urb) (s : Sent)
    → All (λ len. len ≤ max_len) t.packets
    → (sum t.packets ≤ t.length) ⊎ (0x80000000 ≤ sum t.packets)
    → Cuts 0 urbs t.packets []
    → IsSubmittedAs r urbs q s
    → IsIsoSentAs r max_len t p s
Submitted-IsIsoSent (err x) max_len t p q urbs s a b c (k, d, u) = (k, d, inr u)
Submitted-IsIsoSent (ok x) max_len t p q urbs s a b c (rest, e, l, n, m, w) =
    let (left, cut, f) =
      Cuts-prefix 0 s.taken rest t.packets [] (subst (λ us. Cuts 0 us t.packets []) e c) in
    (a, b, l, n ∙ sym m, (left, cut, by_action left f w))
  where
    by_action :
        (left : List ℕ)
        → (rest ≡ [] → left ≡ [])
        → ((s.priv.reap_action ≡ normal) × (s.discards ≡ []) × (rest ≡ []))
          ⊎ ((s.priv.reap_action ≡ submit_failed) × (s.discards ≡ (0, length s.taken) ∷ []))
        → ((s.priv.reap_action ≡ normal) × (s.discards ≡ []) × (left ≡ []))
          ⊎ ((s.priv.reap_action ≡ submit_failed) × (s.discards ≡ (0, length s.taken) ∷ []))
    by_action left f (inl (a, d, z)) = inl (a, d, f z)
    by_action left f (inr w) = inr w

made-IsIsoSent :
    (max_len : ℕ) (a : Answers) (t : IsoTransfer) (p : Priv)
    → All (λ len. len ≤ max_len) t.packets
    → (sum t.packets ≤ t.length) ⊎ (0x80000000 ≤ sum t.packets)
    → 0 < length t.packets
    → let n = urbs_needed (length t.packets) in
      IsIsoSent max_len t p (submit_made a (start_priv n) (make_urbs a.urb n 0 0 t.packets))
made-IsIsoSent max_len a t p l b z = by_made (make_urbs a.urb n 0 0 t.packets) refl
  where
    n : ℕ
    n = urbs_needed (length t.packets)

    by_made :
        (o : Option (List Urb))
        → make_urbs a.urb n 0 0 t.packets ≡ o
        → IsIsoSent max_len t p (submit_made a (start_priv n) o)
    by_made none e = (refl, refl, inr refl)
    by_made (some urbs) e =
        let (c, m) = make_urbs-Cuts a.urb n 0 0 t.packets urbs refl e in
        Submitted-IsIsoSent _ max_len t p (start_priv n) urbs _ l b c (
          submit_loop-IsSubmitted a.ioctl urbs 0 (start_priv n) [] refl (omega (arith, m))
            (omega arith) refl refl)

-- Below 2^31 bytes the sum does not wrap round.
fits_lem :
    (len total n : ℕ)
    → total ≡ n % 0x100000000
    → is_too_short len total ≡ false
    → (n ≤ len) ⊎ (0x80000000 ≤ n)
fits_lem len total n s q = elim (Bool-cases (ltb n 0x80000000)) [
  | inl l ↦
      let k : n < 0x80000000 = ground arith in
      let e : total ≡ n = omega (arith, s, k) in inl (ground (arith, e, q, k))
  | inr l ↦ inr (ground arith)
]

-- A submission of an isochronous transfer, whatever memory is refused and whichever URBs the kernel
-- refuses: if it fails, no URB is with the kernel, and the array is freed or was not there yet. If it
-- succeeds, the transfer has packets, none longer than the limit, and they lie within its buffer, or
-- have 2^31 bytes or more together; the URBs that are with the kernel take the packets
-- in their order, at least one and at most 128 each, with buffers that follow each other; the other
-- URBs count as retired; and either all packets are with the kernel, or the submission broke off and
-- exactly the URBs with the kernel were asked back.
pub submit_iso_transfer-IsIsoSent :
    (max_len : ℕ) (a : Answers) (t : IsoTransfer) (p : Priv)
    → IsIsoSent max_len t p (submit_iso_transfer max_len a t p)
unfolding submit_iso_transfer
submit_iso_transfer-IsIsoSent max_len a t p = elim (Bool-cases (ltb (length t.packets) 1)) [
  | inl e ↦ rw e (refl, refl, inl refl)
  | inr e ↦ rw e (by_sum (sum_packets max_len 0 t.packets) refl (ground arith))
]
  where
    by_sum :
        (r : Result ℕ)
        → sum_packets max_len 0 t.packets ≡ r
        → 0 < length t.packets
        → IsIsoSent max_len t p (submit_summed a t p r)
    by_sum (err x) e l = (refl, refl, inl refl)
    by_sum (ok total) e l =
        let (s, k) = sum_packets-total max_len 0 t.packets total (omega arith) e in
        elim (Bool-cases (is_too_short t.length total)) [
          | inl q ↦ rw q (refl, refl, inl refl)
          | inr q ↦ elim (Bool-cases a.array) [
            | inl g ↦
                rw (q, g)
                  (made-IsIsoSent max_len a t p k
                    (fits_lem t.length total (sum t.packets) (omega (arith, s)) q) l)
            | inr g ↦ rw (q, g) (refl, refl, inl refl)
          ]
        ]
