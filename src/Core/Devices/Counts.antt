-- ===== src/Core/Devices/Counts.antt =====
-- The counts of references in libusb/libusb/core.c under lists of references and of their release.
use zerousb.Prelude.{
  ℕ, suc, ◌+◌, ◌-◌, ◌≡◌, ◌<◌, refl, sym, subst, false, List, [], ◌∷◌, ◌++◌, if◌then◌else◌, ◌==◌,
  arith, All, ==_iff,
}
use zerousb.Core.Devices.{
  Context, set_refcnt, ref_device, unref_chain, unref_device, remove, ref_all, unref_all,
}

-- How often a device is in a list.
abbrev pub count : ℕ → List ℕ → ℕ
count j [] = 0
count j (x ∷ xs) = if j == x then suc (count j xs) else count j xs

pub count-append_one :
    (j x : ℕ) (xs : List ℕ) → count j (xs ++ x ∷ []) ≡ count j xs + (if j == x then 1 else 0)
count-append_one j x [] = ground arith
count-append_one j x (y ∷ xs) = ground (arith, count-append_one j x xs)

pub count-remove :
    (j c : ℕ) (xs : List ℕ) → count j (remove c xs) ≡ count j xs - (if j == c then 1 else 0)
count-remove j c [] = ground arith
count-remove j c (x ∷ xs) = ground (arith, count-remove j c xs)

-- A context but for the counts.
abbrev pub frame : Context → Context
frame ctx = record ctx { refcnt = λ j. 0 }

-- A context that differs from another only in its counts, which are `f`; no device is freed.
abbrev pub Counts : (ℕ → ℕ) → Context → Context → Type 0
Counts f ctx c = ((j : ℕ) → c.refcnt j ≡ f j) × (frame c ≡ frame ctx)

pub unref_device-set :
    (dev : ℕ) (c : Context)
    → 1 < c.refcnt dev
    → unref_device dev c ≡ set_refcnt dev (c.refcnt dev - 1) c
unfolding unref_device unref_chain
unref_device-set dev c l = let z : (c.refcnt dev - 1 == 0) ≡ false = ground arith in rw z refl

pub unref_all-Counts :
    (f : ℕ → ℕ) (xs : List ℕ) (c : Context)
    → ((j : ℕ) → c.refcnt j ≡ f j + count j xs)
    → All (λ x. 0 < f x) xs
    → Counts f c (unref_all xs c)
unref_all-Counts f [] c e l = (λ j. ground (arith, e j), refl)
unref_all-Counts f (x ∷ xs) c e l =
    let more = e x in
    let step = unref_device-set x c (ground arith) in
    let (p, q) =
      unref_all-Counts f xs (set_refcnt x (c.refcnt x - 1) c)
        (λ j. ground (arith, e j, e x, ==_iff j x)) l.1 in
    subst (λ d. Counts f c (unref_all xs d)) (sym step) (p, q)

pub ref_all-Counts :
    (f : ℕ → ℕ) (xs : List ℕ) (c : Context)
    → ((j : ℕ) → c.refcnt j ≡ f j)
    → Counts (λ j. f j + count j xs) c (ref_all xs c)
unfolding ref_device
ref_all-Counts f [] c e = (λ j. omega (arith, e j), refl)
ref_all-Counts f (x ∷ xs) c e =
    let (p, q) =
      ref_all-Counts (λ j. f j + (if j == x then 1 else 0)) xs (ref_device x c)
        (λ j. ground (arith, e j, e x, ==_iff j x)) in
    (λ j. ground (arith, p j), q)
