-- ===== src/Core/Devices/Ports.antt =====
-- `libusb_get_port_numbers` of libusb/libusb/core.c.
use zerousb.Prelude.{
  ℕ, zero, suc, ◌-◌, ◌≡◌, ◌≤◌, ◌<◌, refl, sym, ap, ap₂, ◌∙◌, Bool, true, false, List, [], ◌∷◌, ◌++◌,
  take, drop, length, length-append, length-take, length-drop, take-length, ltb, if◌then◌else◌,
  ◌==◌, arith, Bool-cases, inl, inr,
}
use zerousb.Usb.{overflow, Result, ok, err}
use zerousb.Core.Devices.{
  Device, Context, write_at, port_loop, move_down, answer_ports, get_port_numbers,
}

-- The ports from the root hub to a device, whose chain of parents is given; a port 0 ends the chain.
abbrev pub path : (ℕ → Device) → List ℕ → List ℕ
path devices [] = []
path devices (dev ∷ devs) =
    if (devices dev).port_number == 0
    then []
    else path devices devs ++ (devices dev).port_number ∷ []

write_at-append :
    (i v : ℕ) (pre done : List ℕ)
    → length pre ≡ suc i
    → write_at i v (pre ++ done) ≡ take i pre ++ v ∷ done
write_at-append i v [] done e = absurd (omega arith)
write_at-append zero v (x ∷ []) done e = refl
write_at-append zero v (x ∷ y ∷ pre) done e = absurd (omega arith)
write_at-append (suc i) v (x ∷ pre) done e = ap (x ∷◌) (write_at-append i v pre done (omega arith))

append-one : (xs ys : List ℕ) (x : ℕ) → (xs ++ x ∷ []) ++ ys ≡ xs ++ x ∷ ys
append-one [] ys x = refl
append-one (z ∷ xs) ys x = ap (z ∷◌) (append-one xs ys x)

-- The state of the loop once it has written the path in front of `done`.
abbrev Written : ℕ → List ℕ → List ℕ → Result (ℕ × List ℕ) → Type 0
Written left p done r =
    (pre : List ℕ) × (r ≡ ok (left - length p, pre ++ (p ++ done))) × (length pre ≡ left - length p)

port_loop-fits :
    (devices : ℕ → Device) (chain : List ℕ) (left : ℕ) (pre done : List ℕ)
    → length pre ≡ left
    → length (path devices chain) ≤ left
    → Written left (path devices chain) done (port_loop devices chain left (pre ++ done))
unfolding port_loop
port_loop-fits devices [] left pre done e l =
    (pre, ap (λ n. ok (n, pre ++ done)) (omega arith), omega (arith, e))
port_loop-fits devices (dev ∷ devs) left pre done e l =
    elim (Bool-cases ((devices dev).port_number == 0)) [
      | inl z ↦ rw z (pre, ap (λ n. ok (n, pre ++ done)) (omega arith), omega (arith, e))
      | inr z ↦
          let m = length-append (path devices devs) ((devices dev).port_number ∷ []) in
          let k = rw z at l in
          let y : (left == 0) ≡ false = ground (arith, m, k) in
          rw (z, y)
            (write_one (devices dev).port_number (omega (arith, k, m)) (
              port_loop-fits devices devs (left - 1) (take (left - 1) pre)
                ((devices dev).port_number ∷ done) (omega (arith, e, length-take (left - 1) pre))
                (omega (arith, k, m))))
    ]
  where
    write_one :
        (v : ℕ)
        → 0 < left
        → Written
            (left - 1)
            (path devices devs)
            (v ∷ done)
            (port_loop devices devs (left - 1) (take (left - 1) pre ++ v ∷ done))
        → Written left
            (path devices devs ++ v ∷ [])
            done
            (port_loop devices devs (left - 1) (write_at (left - 1) v (pre ++ done)))
    write_one v y (pre', q, r) =
        let m = length-append (path devices devs) (v ∷ []) in
        let n : left - 1 - length (path devices devs)
            ≡ left - length (path devices devs ++ v ∷ []) =
          omega (arith, m) in
        (
          pre',
          ap (port_loop devices devs (left - 1))
                (write_at-append (left - 1) v pre done (omega (arith, e)))
              ∙ q
              ∙ ap₂ (λ k xs. ok (k, pre' ++ xs)) n (sym (append-one (path devices devs) done v)),
          r ∙ n,
        )

port_loop-overflow :
    (devices : ℕ → Device) (chain : List ℕ) (left : ℕ) (array : List ℕ)
    → left < length (path devices chain)
    → port_loop devices chain left array ≡ err overflow
unfolding port_loop
port_loop-overflow devices [] left array l = absurd (omega arith)
port_loop-overflow devices (dev ∷ devs) left array l =
    elim (Bool-cases ((devices dev).port_number == 0)) [
      | inl z ↦ absurd (omega (arith, rw z at l))
      | inr z ↦ elim (Bool-cases (left == 0)) [
        | inl y ↦ rw (z, y) refl
        | inr y ↦
            let more = length-append (path devices devs) ((devices dev).port_number ∷ []) in
            let m = rw z at l in
            rw (z, y) (port_loop-overflow devices devs (left - 1) _ (ground (arith, more, m, y)))
      ]
    ]

drop-append : (n : ℕ) (xs ys : List ℕ) → length xs ≡ n → drop n (xs ++ ys) ≡ ys
drop-append zero [] ys e = refl
drop-append zero (x ∷ xs) ys e = absurd (omega arith)
drop-append (suc n) [] ys e = absurd (omega arith)
drop-append (suc n) (x ∷ xs) ys e = drop-append n xs ys (omega arith)

append-nil : (xs : List ℕ) → xs ++ [] ≡ xs
append-nil [] = refl
append-nil (x ∷ xs) = ap (x ∷◌) (append-nil xs)

move_down-copied :
    (len i n : ℕ) (xs p : List ℕ)
    → ltb i len ≡ true
    → len - i ≡ n
    → take n (drop i xs) ≡ p
    → move_down len (i, xs) ≡ (n, p ++ drop n xs)
move_down-copied len i n xs p t g q = rw (t, g, q) refl

-- The answer once the path stands at the end of the array.
moved :
    (pre p : List ℕ) (len : ℕ)
    → length pre ≡ len - length p
    → length p ≤ len
    → (rest : List ℕ) × (move_down len (len - length p, pre ++ (p ++ [])) ≡ (length p, p ++ rest))
      × (length (p ++ rest) ≡ len)
moved pre [] len e l =
    let f : ltb (len - 0) len ≡ false = ground arith in
    let g : len - (len - 0) ≡ 0 = omega arith in
    let m = ap length (append-nil pre) in (pre ++ [], rw (f, g) refl, omega (arith, m, e))
moved pre (x ∷ ps) len e l =
    let p = x ∷ ps in
    let i = len - length p in
    let n = append-nil p in
    let whole = pre ++ (p ++ []) in
    let found : take (length p) (drop i whole) ≡ p =
      ap (take (length p)) (drop-append i pre (p ++ []) e ∙ n) ∙ take-length p in
    let rest = drop (length p) whole in
    let a = length-append p rest in
    let b = length-drop (length p) whole in
    let c = length-append pre (p ++ []) in
    let d = ap length n in
    (
      rest,
      move_down-copied len i (length p) whole p (ground arith) (omega arith) found,
      omega (arith, a, b, c, d, e),
    )

if-false : (x y : Result (ℕ × List ℕ)) (b : Bool) → b ≡ false → (if b then x else y) ≡ y
if-false x y true e = cc
if-false x y false e = refl

get_port_numbers-answer :
    (dev : ℕ) (array : List ℕ) (len : ℕ) (ctx : Context)
    → 0 < len
    → get_port_numbers dev array len ctx
      ≡ answer_ports len (port_loop ctx.devices (dev ∷ (ctx.devices dev).ancestors) len array)
unfolding get_port_numbers
get_port_numbers-answer dev array len ctx l = if-false _ _ (len == 0) (ground arith)

-- `libusb_get_port_numbers` with an array of `len` bytes, which is not 0, gives the path of ports from
-- the root hub to the device, a port 0 being where the path begins: it returns the path's length with
-- the path at the start of the array, if the array is large enough, and LIBUSB_ERROR_OVERFLOW if and
-- only if the path is longer than it.
pub get_port_numbers-path :
    (dev : ℕ) (array : List ℕ) (ctx : Context)
    → 0 < length array
    → (let p = path ctx.devices (dev ∷ (ctx.devices dev).ancestors) in
        (length p ≤ length array
          → (rest : List ℕ) × (get_port_numbers dev array (length array) ctx
              ≡ ok (length p, p ++ rest))
            × (length (p ++ rest) ≡ length array))
        × (length array < length p → get_port_numbers dev array (length array) ctx ≡ err overflow))
get_port_numbers-path dev array ctx l =
    let len = length array in
    let chain = dev ∷ (ctx.devices dev).ancestors in
    let p = path ctx.devices chain in
    let answer = get_port_numbers-answer dev array len ctx l in
    (
      λ fit.
          let (pre, q, r) = port_loop-fits ctx.devices chain len array [] refl fit in
          let (rest, m, n) = moved pre p len r fit in
          let whole = ap (port_loop ctx.devices chain len) (sym (append-nil array)) in
          (rest, answer ∙ ap (answer_ports len) (whole ∙ q) ∙ ap ok m, n),
      λ over. answer ∙ ap (answer_ports len) (port_loop-overflow ctx.devices chain len array over),
    )
