-- ===== src/Io/Flying/Sorted.antt =====
-- The list of transfers in flight is kept in the order of the deadlines, those without one last.
use zerousb.Prelude.{
  ℕ, ◌≡◌, not, Bool, true, false, ◌&&◌, ◌||◌, Option, none, some, List, [], ◌∷◌, ◌++◌, arith, ◌==◌,
  Bool-cases, inl, inr, All, All-append,
}
use zerousb.Io.Time.{TimeVal, is_set, is_later}
use zerousb.Io.Transfer.{Transfer, needs_no_timeout}
use zerousb.Io.Flying.{insert_by_deadline, insert_flying, delete, next_timeout}
use zerousb.Io.Flying.Lists.{mem}

-- A transfer with deadline a may stand before one with deadline b.
abbrev pub in_order : TimeVal → TimeVal → Bool
in_order a b = not (is_set b) || (is_set a && not (is_later a b))

abbrev pub Before : (ℕ → Transfer) → TimeVal → List ℕ → Type 0
Before st a xs = All (λ y. in_order a (st y).timeout ≡ true) xs

abbrev pub IsSorted : (ℕ → Transfer) → List ℕ → Type 0
IsSorted st [] = Unit
IsSorted st (x ∷ xs) = Before st (st x).timeout xs × IsSorted st xs

in_order_trans : (a b c : TimeVal) → in_order a b ≡ true → in_order b c ≡ true → in_order a c ≡ true
in_order_trans a b c h k = ground arith

Before-trans :
    (st : ℕ → Transfer) (a b : TimeVal) (xs : List ℕ)
    → in_order a b ≡ true
    → Before st b xs
    → Before st a xs
Before-trans st a b [] h k = tt
Before-trans st a b (x ∷ xs) h k =
    (in_order_trans a b (st x).timeout h k.0, Before-trans st a b xs h k.1)

Before-insert :
    (st : ℕ → Transfer) (a t : TimeVal) (id : ℕ) (xs : List ℕ)
    → in_order a (st id).timeout ≡ true
    → Before st a xs
    → Before st a (insert_by_deadline st t id xs)
unfolding insert_by_deadline
Before-insert st a t id [] h k = (h, tt)
Before-insert st a t id (x ∷ xs) h k =
    elim (Bool-cases (not (is_set (st x).timeout) || is_later (st x).timeout t)) [
      | inl p ↦ rw p (h, k)
      | inr p ↦ rw p (k.0, Before-insert st a t id xs h k.1)
    ]

stops :
    (c t : TimeVal)
    → (not (is_set c) || is_later c t) ≡ true
    → is_set t ≡ true
    → in_order t c ≡ true
stops c t h k = ground arith

goes_on : (c t : TimeVal) → (not (is_set c) || is_later c t) ≡ false → in_order c t ≡ true
goes_on c t h = ground arith

insert_by_deadline-IsSorted :
    (st : ℕ → Transfer) (id : ℕ) (xs : List ℕ)
    → is_set (st id).timeout ≡ true
    → IsSorted st xs
    → IsSorted st (insert_by_deadline st (st id).timeout id xs)
unfolding insert_by_deadline
insert_by_deadline-IsSorted st id [] h s = (tt, tt)
insert_by_deadline-IsSorted st id (x ∷ xs) h s =
    let t = (st id).timeout in
    let c = (st x).timeout in
    elim (Bool-cases (not (is_set c) || is_later c t)) [
      | inl p ↦ let e = stops c t p h in rw p ((e, Before-trans st t c xs e s.0), s)
      | inr p ↦ rw p (
        Before-insert st c t id xs (goes_on c t p) s.0,
        insert_by_deadline-IsSorted st id xs h s.1,
      )
    ]

append-IsSorted :
    (st : ℕ → Transfer) (id : ℕ) (xs : List ℕ)
    → is_set (st id).timeout ≡ false
    → IsSorted st xs
    → IsSorted st (xs ++ id ∷ [])
append-IsSorted st id [] h s = (tt, tt)
append-IsSorted st id (x ∷ xs) h s =
    (All-append _ xs (id ∷ []) s.0 (ground arith, tt), append-IsSorted st id xs h s.1)

-- The insertion of `add_to_flying_list` leaves a list that is in order so, wherever the new
-- transfer's deadline lies.
pub insert_flying-IsSorted :
    (st : ℕ → Transfer) (id : ℕ) (xs : List ℕ)
    → IsSorted st xs
    → IsSorted st (insert_flying st (st id).timeout id xs)
unfolding insert_flying
insert_flying-IsSorted st id xs s = elim (Bool-cases (is_set (st id).timeout)) [
  | inl p ↦ rw p (insert_by_deadline-IsSorted st id xs p s)
  | inr p ↦ rw p (append-IsSorted st id xs p s)
]

Before-delete :
    (st : ℕ → Transfer) (a : TimeVal) (id : ℕ) (xs : List ℕ)
    → Before st a xs
    → Before st a (delete id xs)
unfolding delete
Before-delete st a id [] h = tt
Before-delete st a id (x ∷ xs) h = elim (Bool-cases (x == id)) [
  | inl p ↦ rw p h.1
  | inr p ↦ rw p (h.0, Before-delete st a id xs h.1)
]

pub delete-IsSorted :
    (st : ℕ → Transfer) (id : ℕ) (xs : List ℕ) → IsSorted st xs → IsSorted st (delete id xs)
unfolding delete
delete-IsSorted st id [] s = tt
delete-IsSorted st id (x ∷ xs) s = elim (Bool-cases (x == id)) [
  | inl p ↦ rw p s.1
  | inr p ↦ rw p (Before-delete st (st x).timeout id xs s.0, delete-IsSorted st id xs s.1)
]

-- The deadlines of the listed transfers alone matter.
Before-congr :
    (st st' : ℕ → Transfer) (a : TimeVal) (xs : List ℕ)
    → ((j : ℕ) → mem j xs ≡ true → (st' j).timeout ≡ (st j).timeout)
    → Before st a xs
    → Before st' a xs
Before-congr st st' a [] e h = tt
Before-congr st st' a (x ∷ xs) e h =
    (rw (e x (ground arith)) h.0, Before-congr st st' a xs (λ j m. e j (ground arith)) h.1)

pub IsSorted-congr :
    (st st' : ℕ → Transfer) (xs : List ℕ)
    → ((j : ℕ) → mem j xs ≡ true → (st' j).timeout ≡ (st j).timeout)
    → IsSorted st xs
    → IsSorted st' xs
IsSorted-congr st st' [] e s = tt
IsSorted-congr st st' (x ∷ xs) e s = (
  rw (e x (ground arith)) (Before-congr st st' (st x).timeout xs (λ j m. e j (ground arith)) s.0),
  IsSorted-congr st st' xs (λ j m. e j (ground arith)) s.1,
)

-- What `arm_timerfd_for_next_timeout` picks is no later than any deadline that the library still has
-- to act on; it picks none only if there is no such deadline.
abbrev pub IsNext : (ℕ → Transfer) → Option TimeVal → List ℕ → Type 0
IsNext st none xs = All (λ y. (needs_no_timeout (st y) || not (is_set (st y).timeout)) ≡ true) xs
IsNext st (some t) xs = All (λ y. (needs_no_timeout (st y) || in_order t (st y).timeout) ≡ true) xs

none_left :
    (st : ℕ → Transfer) (a : TimeVal) (xs : List ℕ)
    → is_set a ≡ false
    → Before st a xs
    → IsNext st none xs
none_left st a [] h b = tt
none_left st a (x ∷ xs) h b = (ground arith, none_left st a xs h b.1)

some_left : (st : ℕ → Transfer) (a : TimeVal) (xs : List ℕ) → Before st a xs → IsNext st (some a) xs
some_left st a [] b = tt
some_left st a (x ∷ xs) b = (ground arith, some_left st a xs b.1)

-- In a list in order, `next_timeout` is the earliest deadline that the library has to act on itself,
-- and there is none only if no transfer has such a deadline.
pub next_timeout-IsNext :
    (st : ℕ → Transfer) (xs : List ℕ) → IsSorted st xs → IsNext st (next_timeout st xs) xs
unfolding next_timeout
next_timeout-IsNext st [] s = tt
next_timeout-IsNext st (x ∷ xs) s = elim (Bool-cases (is_set (st x).timeout)) [
  | inr p ↦ rw p (ground arith, none_left st (st x).timeout xs p s.0)
  | inl p ↦ elim (Bool-cases (needs_no_timeout (st x))) [
    | inr q ↦ rw (p, q) (ground arith, some_left st (st x).timeout xs s.0)
    | inl q ↦ rw (p, q) (skip_head (next_timeout st xs) q (next_timeout-IsNext st xs s.1))
  ]
]
  where
    skip_head :
        (o : Option TimeVal)
        → needs_no_timeout (st x) ≡ true
        → IsNext st o xs
        → IsNext st o (x ∷ xs)
    skip_head none q h = (ground arith, h)
    skip_head (some t) q h = (ground arith, h)
