-- ===== src/Core/Handles/Close.antt =====
-- `do_close` of libusb/libusb/core.c takes the transfers of a handle off the list of those in flight.
use zerousb.Prelude.{
  ℕ, ◌+◌, ◌≡◌, ◌⊎◌, ◌≢◌, ◌≤◌, ◌<◌, refl, ap, subst, ◌∙◌, Bool, true, false, not, List, [], ◌∷◌, map,
  if◌then◌else◌, ◌==◌, ==_iff, Bool-cases, inl, inr, arith, All,
}
use zerousb.Core.Devices.{remove}
use zerousb.Core.Devices.Counts.{count, count-remove, frame, unref_device-set}
use zerousb.Core.Handles.{Handles, set_at, close_transfers, do_close, close_device}
use zerousb.Core.Handles.Balance.{IsBalanced}

abbrev pub keep : (ℕ → Bool) → List ℕ → List ℕ
keep f [] = []
keep f (x ∷ xs) = if f x then x ∷ keep f xs else keep f xs

-- Only the transfers of the handle are changed.
close_transfers-other :
    (h : ℕ) (ts : List ℕ) (dh : ℕ → ℕ) (t : ℕ)
    → (dh t == h) ≡ false
    → (close_transfers h ts dh).1 t ≡ dh t
close_transfers-other h [] dh t n = refl
close_transfers-other h (x ∷ xs) dh t n = elim (Bool-cases (dh x == h)) [
  | inl e ↦
      let k : (t == x) ≡ false = ground arith in
      rw e (close_transfers-other h xs (set_at x 0 dh) t (rw k n) ∙ rw k refl)
  | inr e ↦ rw e (close_transfers-other h xs dh t n)
]

-- `dh` are the handles before the loop.
close_transfers-keep :
    (h : ℕ) (ts : List ℕ) (dh dh' : ℕ → ℕ)
    → ((t : ℕ) → count t ts ≤ 1)
    → ((t : ℕ) → 0 < count t ts → dh' t ≡ dh t)
    → (close_transfers h ts dh').0 ≡ keep (λ t. not (dh t == h)) ts
close_transfers-keep h [] dh dh' o e = refl
close_transfers-keep h (x ∷ xs) dh dh' o e =
    let here : dh' x ≡ dh x = e x (ground arith) in
    let rest : (close_transfers h xs (if dh' x == h then set_at x 0 dh' else dh')).0
        ≡ keep (λ t. not (dh t == h)) xs =
      close_transfers-keep h xs dh _ (λ t. ground (arith, o t))
        (λ t l. ground (arith, o t, e t, ==_iff t x)) in
    elim (Bool-cases (dh x == h)) [
      | inl q ↦
          let q' : (dh' x == h) ≡ true = rw here q in
          rw (q, q')
            (subst
              (λ b.
                (close_transfers h xs (if b then set_at x 0 dh' else dh')).0
                ≡ keep (λ t. not (dh t == h)) xs)
              q' rest)
      | inr q ↦
          let q' : (dh' x == h) ≡ false = rw here q in
          rw (q, q')
            (ap (x ∷◌) (
              subst
                (λ b.
                  (close_transfers h xs (if b then set_at x 0 dh' else dh')).0
                  ≡ keep (λ t. not (dh t == h)) xs)
                q' rest))
    ]

count-keep-le : (f : ℕ → Bool) (t : ℕ) (xs : List ℕ) → count t (keep f xs) ≤ count t xs
count-keep-le f t [] = omega arith
count-keep-le f t (x ∷ xs) = ground (arith, count-keep-le f t xs)

count-map-remove :
    (f : ℕ → ℕ) (j h : ℕ) (xs : List ℕ)
    → 0 < count h xs
    → count j (map f (remove h xs)) + (if j == f h then 1 else 0) ≡ count j (map f xs)
count-map-remove f j h [] l = elim l [ ]
count-map-remove f j h (x ∷ xs) l = elim (Bool-cases (x == h)) [
  | inl e ↦ let q : x ≡ h = ground arith in rw e (rw q (ground arith))
  | inr e ↦ rw e (ground (arith, count-map-remove f j h xs))
]

-- The transfers that stay listed have their handles, which stay open.
kept-All :
    (h : ℕ) (dh dh' : ℕ → ℕ) (opened ts : List ℕ)
    → ((t : ℕ) → (dh t == h) ≡ false → dh' t ≡ dh t)
    → All (λ t. 0 < count (dh t) opened) ts
    → All (λ t. 0 < count (dh' t) (remove h opened)) (keep (λ t. not (dh t == h)) ts)
kept-All h dh dh' opened [] e l = tt
kept-All h dh dh' opened (x ∷ xs) e l = elim (Bool-cases (dh x == h)) [
  | inl q ↦ rw q (kept-All h dh dh' opened xs e l.1)
  | inr q ↦ rw q (
    (rw (e x q) (ground (arith, count-remove (dh x) h opened, l.0))),
    kept-All h dh dh' opened xs e l.1,
  )
]

-- What a close leaves.
abbrev pub Closed : (ℕ → ℕ) → ℕ → Handles → Handles → Type 0
Closed base h s s' =
    IsBalanced base s'
    × (s'.open_devs ≡ remove h s.open_devs)
    × (s'.flying ≡ keep (λ t. not (s.dev_handle t == h)) s.flying)
    × ((t : ℕ) → (s'.dev_handle t ≡ s.dev_handle t) ⊎ (s.dev_handle t ≡ h))
    × (frame s'.ctx ≡ frame s.ctx)

-- A close of an open handle to a device with a further reference: the device has one reference less, and
-- is not freed; the handle is neither open nor in memory any more, and the others are; exactly the
-- transfers of other handles stay in flight, in their order, with their handles.
pub close_device-Closed :
    (base : ℕ → ℕ) (h : ℕ) (s : Handles)
    → IsBalanced base s
    → h ≢ 0
    → 0 < count h s.open_devs
    → 0 < base (s.handle_dev h)
    → Closed base h s (close_device h s)
unfolding close_device do_close
close_device-Closed base h s v nz l b =
    let z : (h == 0) ≡ false = ground arith in
    let kept =
      close_transfers-keep h s.flying s.dev_handle s.dev_handle v.transfers_lem (λ t k. refl) in
    let other = close_transfers-other h s.flying s.dev_handle in
    let many : 1 < s.ctx.refcnt (s.handle_dev h) =
      omega (arith, v.refs_lem (s.handle_dev h), own_lem) in
    let unref = unref_device-set (s.handle_dev h) s.ctx many in
    rw z (
      record {
        refs_lem = λ j.
            rw unref
              (ground (arith, v.refs_lem j, count-map-remove s.handle_dev j h s.open_devs l));
        once_lem = λ k. ground (arith, v.once_lem k, count-remove k h s.open_devs);
        memory_lem = λ k.
            ground
              (arith, v.memory_lem k, count-remove k h s.open_devs, count-remove k h s.allocated);
        transfers_lem = λ t. rw kept (
            ground (
              arith,
              v.transfers_lem t,
              count-keep-le (λ t. not (s.dev_handle t == h)) t s.flying,
            ));
        flying_lem = rw kept (kept-All h s.dev_handle _ s.open_devs s.flying other v.flying_lem);
      },
      refl,
      kept,
      λ t. elim (Bool-cases (s.dev_handle t == h)) [
        | inl e ↦ inr (ground arith)
        | inr e ↦ inl (other t e)
      ],
      rw unref refl,
    )
  where
    own_lem : 0 < count (s.handle_dev h) (map s.handle_dev s.open_devs)
    own_lem = ground (arith, count-map-remove s.handle_dev (s.handle_dev h) h s.open_devs l)
