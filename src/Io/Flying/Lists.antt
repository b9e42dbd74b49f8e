-- ===== src/Io/Flying/Lists.antt =====
-- Which transfers are in the list after an insertion and a removal.
use zerousb.Prelude.{
  ℕ, ◌≡◌, refl, Bool, true, false, List, [], ◌∷◌, ◌++◌, arith, if◌then◌else◌, ◌==◌, ==_iff,
  Bool-cases, inl, inr,
}
use zerousb.Io.Time.{TimeVal}
use zerousb.Io.Transfer.{Transfer}
use zerousb.Io.Flying.{insert_by_deadline, insert_flying, delete}

abbrev pub mem : ℕ → List ℕ → Bool
mem id [] = false
mem id (x ∷ xs) = if x == id then true else mem id xs

abbrev pub Distinct : List ℕ → Type 0
Distinct [] = Unit
Distinct (x ∷ xs) = (mem x xs ≡ false) × Distinct xs

pub mem-append_one :
    (j id : ℕ) (xs : List ℕ) → mem j (xs ++ id ∷ []) ≡ (if id == j then true else mem j xs)
mem-append_one j id [] = refl
mem-append_one j id (x ∷ xs) = ground (arith, mem-append_one j id xs)

mem-insert_by_deadline :
    (st : ℕ → Transfer) (t : TimeVal) (j id : ℕ) (xs : List ℕ)
    → mem j (insert_by_deadline st t id xs) ≡ (if id == j then true else mem j xs)
unfolding insert_by_deadline
mem-insert_by_deadline st t j id [] = refl
mem-insert_by_deadline st t j id (x ∷ xs) = ground (arith, mem-insert_by_deadline st t j id xs)

pub mem-insert_flying :
    (st : ℕ → Transfer) (t : TimeVal) (j id : ℕ) (xs : List ℕ)
    → mem j (insert_flying st t id xs) ≡ (if id == j then true else mem j xs)
unfolding insert_flying
mem-insert_flying st t j id xs =
    ground (arith, mem-insert_by_deadline st t j id xs, mem-append_one j id xs)

pub mem-delete_ne : (j id : ℕ) (xs : List ℕ) → (id == j) ≡ false → mem j (delete id xs) ≡ mem j xs
unfolding delete
mem-delete_ne j id [] h = refl
mem-delete_ne j id (x ∷ xs) h = ground (arith, mem-delete_ne j id xs h)

pub mem-delete_self : (id : ℕ) (xs : List ℕ) → Distinct xs → mem id (delete id xs) ≡ false
unfolding delete
mem-delete_self id [] d = refl
mem-delete_self id (x ∷ xs) d = elim (Bool-cases (x == id)) [
  | inl p ↦ let e : x ≡ id = (==_iff x id).0 p in rw p (rw e at d.0)
  | inr p ↦ rw (p, p) (mem-delete_self id xs d.1)
]

pub delete-Distinct : (id : ℕ) (xs : List ℕ) → Distinct xs → Distinct (delete id xs)
unfolding delete
delete-Distinct id [] d = tt
delete-Distinct id (x ∷ xs) d = elim (Bool-cases (x == id)) [
  | inl p ↦ rw p d.1
  | inr p ↦ rw p (rw (mem-delete_ne x id xs (ground arith)) d.0, delete-Distinct id xs d.1)
]

Distinct-insert_by_deadline :
    (st : ℕ → Transfer) (t : TimeVal) (id : ℕ) (xs : List ℕ)
    → mem id xs ≡ false
    → Distinct xs
    → Distinct (insert_by_deadline st t id xs)
unfolding insert_by_deadline
Distinct-insert_by_deadline st t id [] m d = (refl, tt)
Distinct-insert_by_deadline st t id (x ∷ xs) m d =
    ground (arith, mem-insert_by_deadline st t x id xs, Distinct-insert_by_deadline st t id xs)

Distinct-append_one :
    (id : ℕ) (xs : List ℕ) → mem id xs ≡ false → Distinct xs → Distinct (xs ++ id ∷ [])
Distinct-append_one id [] m d = (refl, tt)
Distinct-append_one id (x ∷ xs) m d =
    ground (arith, mem-append_one x id xs, Distinct-append_one id xs)

pub insert_flying-Distinct :
    (st : ℕ → Transfer) (t : TimeVal) (id : ℕ) (xs : List ℕ)
    → mem id xs ≡ false
    → Distinct xs
    → Distinct (insert_flying st t id xs)
unfolding insert_flying
insert_flying-Distinct st t id xs m d =
    ground (arith, Distinct-insert_by_deadline st t id xs m d, Distinct-append_one id xs m d)

delete-insert_by_deadline :
    (st : ℕ → Transfer) (t : TimeVal) (id : ℕ) (xs : List ℕ)
    → mem id xs ≡ false
    → delete id (insert_by_deadline st t id xs) ≡ xs
unfolding insert_by_deadline delete
delete-insert_by_deadline st t id [] m = ground arith
delete-insert_by_deadline st t id (x ∷ xs) m = ground (arith, delete-insert_by_deadline st t id xs)

delete-append_one : (id : ℕ) (xs : List ℕ) → mem id xs ≡ false → delete id (xs ++ id ∷ []) ≡ xs
unfolding delete
delete-append_one id [] m = ground arith
delete-append_one id (x ∷ xs) m = ground (arith, delete-append_one id xs)

-- Taking a transfer off again leaves the list as it was.
pub delete-insert_flying :
    (st : ℕ → Transfer) (t : TimeVal) (id : ℕ) (xs : List ℕ)
    → mem id xs ≡ false
    → delete id (insert_flying st t id xs) ≡ xs
unfolding insert_flying
delete-insert_flying st t id xs m =
    ground (arith, delete-insert_by_deadline st t id xs m, delete-append_one id xs m)
