-- ===== src/Linux/Bulk/Split.antt =====
-- A split bulk transfer of libusb/libusb/os/linux_usbfs.c covers its buffer.
use zerousb.Prelude.{
  ℕ, zero, suc, ◌+◌, ◌-◌, ◌*◌, ◌/◌, ◌%◌, ◌≡◌, ◌<◌, refl, sym, ap, ◌∙◌, not, Bool, true, false, ◌&&◌,
  Option, none, some, List, [], ◌∷◌, ◌++◌, if◌then◌else◌, ◌==◌, ltb, arith, length, length-append,
  Bool-cases, inl, inr, ==_iff,
}
use native.Mathlib.Omega.{div_any}
use zerousb.Usb.{ok, err}
use zerousb.Linux.Bulk.Submit.{
  normal, Caps, Bulk, Urb, Priv, bulk_buffer_len, urbs_needed, make_urb, urb_length, failed_action,
  Errno, enodev, eremoteio, other_errno, Sent, fail_submit, submit_loop, fresh_priv,
  submit_bulk_transfer,
}

-- The URBs follow each other from `start` to `stop`.
abbrev pub Tiles : ℕ → List Urb → ℕ → Type 0
Tiles start [] stop = start ≡ stop
Tiles start (u ∷ us) stop = (u.offset ≡ start) × Tiles (start + u.buffer_length) us stop

Tiles-append :
    (start middle stop : ℕ) (us vs : List Urb)
    → Tiles start us middle
    → Tiles middle vs stop
    → Tiles start (us ++ vs) stop
Tiles-append start middle stop [] vs h k = rw h k
Tiles-append start middle stop (u ∷ us) vs h k =
    (h.0, Tiles-append (start + u.buffer_length) middle stop us vs h.1 k)

-- The end of the i-th URB of n.
abbrev reach : ℕ → ℕ → ℕ → ℕ → ℕ
reach len part n i = if i == n then len else i * part

bulk_buffer_len-positive : (caps : Caps) (len : ℕ) → 0 < bulk_buffer_len caps len
unfolding bulk_buffer_len
bulk_buffer_len-positive caps len = ground arith

next_multiple : (i part : ℕ) → (i + 1) * part ≡ i * part + part
next_multiple i part = omega arith

split_length : (len part : ℕ) → len ≡ len / part * part + len % part
split_length len part = omega (arith, div_any len part)

-- The length that is not 0 is q times the part and r.
last_partial :
    (len part q r i : ℕ)
    → len ≡ q * part + r
    → i < q + 1
    → i * part + (if i == q + 1 - 1 then r else part) ≡ reach len part (q + 1) (i + 1)
last_partial len part q r i e l = elim (Bool-cases (i == q)) [
  | inl p ↦
      let same : i ≡ q = (==_iff i q).0 p in
      let a : (i == q + 1 - 1) ≡ true = ground arith in
      let b : (i + 1 == q + 1) ≡ true = ground arith in
      let c : i * part ≡ q * part = ap (◌* part) same in rw (a, b) (omega (arith, c, e))
  | inr p ↦
      let a : (i == q + 1 - 1) ≡ false = ground arith in
      let b : (i + 1 == q + 1) ≡ false = ground arith in rw (a, b) (sym (next_multiple i part))
]

all_whole : (len part q i : ℕ) → len ≡ q * part → i * part + part ≡ reach len part q (i + 1)
all_whole len part q i e = elim (Bool-cases (i + 1 == q)) [
  | inl p ↦
      let same : i + 1 ≡ q = (==_iff (i + 1) q).0 p in
      let c : (i + 1) * part ≡ q * part = ap (◌* part) same in
      rw p (sym (next_multiple i part) ∙ c ∙ sym e)
  | inr p ↦ rw p (sym (next_multiple i part))
]

and_true : (b : Bool) → (b && true) ≡ b
and_true true = refl
and_true false = refl

and_false : (b : Bool) → (b && false) ≡ false
and_false true = refl
and_false false = refl

no_rest : (len part : ℕ) → ltb 0 (len % part) ≡ false → len ≡ len / part * part
no_rest len part h =
    let r : len % part ≡ 0 = ground arith in let e = split_length len part in omega (arith, r, e)

quotient-positive : (len part q : ℕ) → 0 < len → len ≡ q * part → 0 < q
quotient-positive len part zero h e = absurd (omega arith)
quotient-positive len part (suc q) h e = omega arith

urbs_needed-positive : (len part : ℕ) → 0 < urbs_needed len part
unfolding urbs_needed
urbs_needed-positive len part = elim (Bool-cases (len == 0)) [
  | inl p ↦ rw p (omega arith)
  | inr p ↦ elim (Bool-cases (ltb 0 (len % part))) [
    | inl q ↦ rw (p, q) (omega arith)
    | inr q ↦
        rw (p, q) (quotient-positive len part (len / part) (ground (arith, p)) (no_rest len part q))
  ]
]

ends_empty : (len part i : ℕ) → len == 0 ≡ true → i < 1 → i * part + 0 ≡ reach len part 1 (i + 1)
ends_empty len part zero p k = ground arith
ends_empty len part (suc i) p k = absurd (omega arith)

urb_length-end :
    (len part i : ℕ)
    → i < urbs_needed len part
    → i * part + urb_length len part (urbs_needed len part) i
      ≡ reach len part (urbs_needed len part) (i + 1)
unfolding urbs_needed
urb_length-end len part i k = elim (Bool-cases (len == 0)) [
  | inl p ↦ rw (p, and_false (i == 1 - 1)) (ends_empty len part i p (rw p at k))
  | inr p ↦ elim (Bool-cases (ltb 0 (len % part))) [
    | inl q ↦
        rw (p, q, and_true (i == len / part + 1 - 1))
          (last_partial len part (len / part) (len % part) i (split_length len part)
            (rw (p, q) at k))
    | inr q ↦
        rw (p, q, and_false (i == len / part - 1))
          (all_whole len part (len / part) i (no_rest len part q))
  ]
]

-- A submission of n URBs for a buffer of `len` bytes: if it fails nothing is with the kernel and the
-- array is freed; else the URBs with the kernel follow each other from the start of the buffer, they are
-- those that are not retired, and unless the submission broke off they reach the buffer's end.
abbrev pub IsSent : ℕ → ℕ → Sent → Type 0
IsSent len n s = elim s.r [
  | err x ↦ (s.priv.urbs ≡ false) × (s.taken ≡ [])
  | ok u ↦
      (stop : ℕ) × Tiles 0 s.taken stop
      × (0 < length s.taken)
      × (length s.taken + s.priv.num_retired ≡ n)
      × (s.priv.num_urbs ≡ n)
      × (s.priv.reap_action ≡ normal → stop ≡ len)
]

reach-zero : (len part n : ℕ) → 0 < n → 0 ≡ reach len part n 0
reach-zero len part n l = ground arith

failed_action-abnormal : (e : Errno) → failed_action e ≡ normal → ⊥
failed_action-abnormal enodev h = cc
failed_action-abnormal eremoteio h = cc
failed_action-abnormal other_errno h = cc

length-zero : (us : List Urb) → length us ≡ 0 → us ≡ []
length-zero [] e = refl
length-zero (u ∷ us) e = absurd (omega arith)

module _ (len part n : ℕ) (urb : ℕ → Urb) (starts : (j : ℕ) → (urb j).offset ≡ j * part)
    (ends : (j : ℕ) → j < n → j * part + (urb j).buffer_length ≡ reach len part n (j + 1)) where
  fail-IsSent :
      (e : Errno) (i : ℕ) (taken : List Urb)
      → i < n
      → length taken ≡ i
      → Tiles 0 taken (reach len part n i)
      → IsSent len n (fail_submit e i (fresh_priv n) taken)
  unfolding fail_submit
  fail-IsSent e zero taken l c t = (refl, length-zero taken c)
  fail-IsSent e (suc i) taken l c t =
      let z : (suc i == 0) ≡ false = ground arith in
      rw z
        (_, t, omega (arith, c), omega (arith, c), refl, λ h. absurd (failed_action-abnormal e h))

  one_more :
      (i : ℕ) (taken : List Urb)
      → i < n
      → Tiles 0 taken (reach len part n i)
      → Tiles 0 (taken ++ urb i ∷ []) (reach len part n (i + 1))
  one_more i taken l t =
      let e : (i == n) ≡ false = ground arith in
      Tiles-append 0 (i * part) _ taken (urb i ∷ []) (rw e at t) (starts i, ends i l)

  submit_loop-IsSent :
      (ioctl : ℕ → Option Errno) (left i : ℕ) (taken : List Urb)
      → i + left ≡ n
      → 0 < n
      → length taken ≡ i
      → Tiles 0 taken (reach len part n i)
      → IsSent len n (submit_loop ioctl urb left i (fresh_priv n) taken)
  unfolding submit_loop
  submit_loop-IsSent ioctl zero i taken s z c t =
      let e : (i == n) ≡ true = ground arith in
      (_, t, omega (arith, c, s), omega (arith, c, s), refl, λ h. rw e refl)
  submit_loop-IsSent ioctl (suc left) i taken s z c t =
      let l : i < n = omega (arith, s) in
      by_answer (ioctl i)
        (submit_loop-IsSent ioctl left (i + 1) (taken ++ urb i ∷ []) (omega (arith, s)) z
          (omega (arith, c, length-append taken (urb i ∷ []))) (one_more i taken l t))
        (λ e. fail-IsSent e i taken l c t)
    where
      by_answer :
          (o : Option Errno)
          → IsSent len n (submit_loop ioctl urb left (i + 1) (fresh_priv n) (taken ++ urb i ∷ []))
          → ((e : Errno) → IsSent len n (fail_submit e i (fresh_priv n) taken))
          → IsSent len n (elim o [
            | none ↦ submit_loop ioctl urb left (i + 1) (fresh_priv n) (taken ++ urb i ∷ [])
            | some e ↦ fail_submit e i (fresh_priv n) taken
          ])
      by_answer none q f = q
      by_answer (some e) q f = f e

-- `submit_bulk_transfer`, where it is not refused at once, and whichever URB the kernel refuses: on
-- failure nothing is with the kernel and the array is freed. On success the kernel has at least one
-- URB; the URBs that it has follow each other without gap from the start of the buffer, and reach its
-- end if none was refused; with those that are counted as retired they are `num_urbs`.
pub submit_bulk_transfer-IsSent :
    (ioctl : ℕ → Option Errno) (caps : Caps) (t : Bulk) (p : Priv)
    → (t.is_out && t.add_zero_packet && not caps.zero_packet) ≡ false
    → IsSent t.length
        (urbs_needed t.length (bulk_buffer_len caps t.length))
        (submit_bulk_transfer ioctl true caps t p)
unfolding submit_bulk_transfer make_urb
submit_bulk_transfer-IsSent ioctl caps t p h =
    let part = bulk_buffer_len caps t.length in
    let n = urbs_needed t.length part in
    rw h (
      submit_loop-IsSent t.length part n (make_urb caps t part n) (λ j. refl)
        (λ j l. urb_length-end t.length part j l) ioctl n 0 [] (omega arith)
        (urbs_needed-positive t.length part) refl
        (reach-zero t.length part n (urbs_needed-positive t.length part)))
