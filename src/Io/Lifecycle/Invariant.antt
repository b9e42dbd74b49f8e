-- ===== src/Io/Lifecycle/Invariant.antt =====
-- The list of transfers in flight under the operations of libusb/libusb/io.c.
use zerousb.Prelude.{
  ℕ, ◌≡◌, refl, ap, sym, ◌∙◌, Bool, true, false, ◌&&◌, Option, List, ◌==◌, arith, Bool-cases, inl,
  inr, ==_iff,
}
use zerousb.Io.Time.{TimeVal, is_set}
use zerousb.Io.Transfer.{Transfer, Context, update, modify}
use zerousb.Io.Flying.{
  insert_flying, delete, is_first, remove_from_flying_list, arm_for_next_timeout, next_timeout,
}
use zerousb.Io.Flying.Lists.{
  mem, Distinct, mem-insert_flying, mem-delete_ne, mem-delete_self, delete-Distinct,
  insert_flying-Distinct,
}
use zerousb.Io.Flying.Sorted.{IsSorted, insert_flying-IsSorted, delete-IsSorted, IsSorted-congr}

-- The list holds each transfer in flight once, and no other, in the order of the deadlines.
pub record IsValid (ctx : Context) : Type 0 where
  pub distinct : Distinct ctx.flying
  pub sorted : IsSorted ctx.store ctx.flying
  pub listed : (id : ℕ) → (ctx.store id).in_flight ≡ mem id ctx.flying

pub field-update {ℓ} :
    {A : Type ℓ} (st : ℕ → Transfer) (id : ℕ) (t : Transfer) (g : Transfer → A) (j : ℕ)
    → g t ≡ g (st id)
    → g (update st id t j) ≡ g (st j)
field-update st id t g j e = elim (Bool-cases (j == id)) [
  | inl p ↦ let q : j ≡ id = (==_iff j id).0 p in rw p (rw q e)
  | inr p ↦ rw p
]

pub field-update_ne {ℓ} :
    {A : Type ℓ} (st : ℕ → Transfer) (id : ℕ) (t : Transfer) (g : Transfer → A) (j : ℕ)
    → (j == id) ≡ false
    → g (update st id t j) ≡ g (st j)
field-update_ne st id t g j e = rw e

-- Writes to a transfer's other fields keep the invariant.
pub modify-IsValid :
    (id : ℕ) (f : Transfer → Transfer) (ctx : Context)
    → (f (ctx.store id)).timeout ≡ (ctx.store id).timeout
    → (f (ctx.store id)).in_flight ≡ (ctx.store id).in_flight
    → IsValid ctx
    → IsValid (modify id f ctx)
modify-IsValid id f ctx e k v = record {
  distinct = v.distinct;
  sorted =
      IsSorted-congr ctx.store (update ctx.store id (f (ctx.store id))) ctx.flying
        (λ j m. field-update ctx.store id (f (ctx.store id)) (λ t. t.timeout) j e) v.sorted;
  listed = λ j. field-update ctx.store id (f (ctx.store id)) (λ t. t.in_flight) j k ∙ v.listed j;
}

-- Between the writes of an operation: the transfer `id` is listed or not, whatever its flag says.
pub record IsOpen (id : ℕ) (here : Bool) (ctx : Context) : Type 0 where
  pub distinct : Distinct ctx.flying
  pub sorted : IsSorted ctx.store ctx.flying
  pub listed : (j : ℕ) → (j == id) ≡ false → (ctx.store j).in_flight ≡ mem j ctx.flying
  pub is_here : mem id ctx.flying ≡ here

pub mem-ne : (id j : ℕ) (xs : List ℕ) → mem id xs ≡ false → mem j xs ≡ true → (j == id) ≡ false
mem-ne id j xs h k = elim (Bool-cases (j == id)) [
  | inl p ↦ absurd (true≢false (sym k ∙ ap (λ i. mem i xs) ((==_iff j id).0 p) ∙ h))
  | inr p ↦ p
]
  where
    true≢false : true ≡ false → ⊥
    true≢false e = cc

pub modify-IsOpen :
    (id : ℕ) (f : Transfer → Transfer) (ctx : Context)
    → mem id ctx.flying ≡ false
    → IsOpen id false ctx
    → IsOpen id false (modify id f ctx)
modify-IsOpen id f ctx m v = record {
  distinct = v.distinct;
  sorted =
      IsSorted-congr ctx.store (update ctx.store id (f (ctx.store id))) ctx.flying
        (λ j k.
          field-update_ne ctx.store id (f (ctx.store id)) (λ t. t.timeout) j
            (mem-ne id j ctx.flying m k))
        v.sorted;
  listed =
      λ j e. field-update_ne ctx.store id (f (ctx.store id)) (λ t. t.in_flight) j e ∙ v.listed j e;
  is_here = v.is_here;
}

-- Setting the flag as the list has it closes the operation.
pub close :
    (id : ℕ) (here : Bool) (f : Transfer → Transfer) (ctx : Context)
    → (f (ctx.store id)).timeout ≡ (ctx.store id).timeout
    → (f (ctx.store id)).in_flight ≡ here
    → IsOpen id here ctx
    → IsValid (modify id f ctx)
close id here f ctx e k v = record {
  distinct = v.distinct;
  sorted =
      IsSorted-congr ctx.store (update ctx.store id (f (ctx.store id))) ctx.flying
        (λ j m. field-update ctx.store id (f (ctx.store id)) (λ t. t.timeout) j e) v.sorted;
  listed = λ j. elim (Bool-cases (j == id)) [
    | inl p ↦
        let q : j ≡ id = (==_iff j id).0 p in
        rw p (k ∙ sym v.is_here ∙ ap (λ i. mem i ctx.flying) (sym q))
    | inr p ↦ field-update_ne ctx.store id (f (ctx.store id)) (λ t. t.in_flight) j p ∙ v.listed j p
  ];
}

pub settle :
    (id : ℕ) (here : Bool) (ctx : Context)
    → (ctx.store id).in_flight ≡ here
    → IsOpen id here ctx
    → IsValid ctx
settle id here ctx k v = record {
  distinct = v.distinct;
  sorted = v.sorted;
  listed = λ j. elim (Bool-cases (j == id)) [
    | inl p ↦
        let q : j ≡ id = (==_iff j id).0 p in
        ap (λ i. (ctx.store i).in_flight) q ∙ k ∙ sym v.is_here ∙ ap (λ i. mem i ctx.flying) (sym q)
    | inr p ↦ v.listed j p
  ];
}

pub IsOpen-valid :
    (id : ℕ) (here : Bool) (ctx : Context)
    → mem id ctx.flying ≡ here
    → IsValid ctx
    → IsOpen id here ctx
IsOpen-valid id here ctx m v = record {
  distinct = v.distinct;
  sorted = v.sorted;
  listed = λ j e. v.listed j;
  is_here = m;
}

pub insert-IsOpen :
    (id : ℕ) (ctx : Context)
    → IsOpen id false ctx
    → IsOpen id true
        (record ctx { flying = insert_flying ctx.store (ctx.store id).timeout id ctx.flying })
insert-IsOpen id ctx v = record {
  distinct =
      insert_flying-Distinct ctx.store (ctx.store id).timeout id ctx.flying v.is_here v.distinct;
  sorted = insert_flying-IsSorted ctx.store id ctx.flying v.sorted;
  listed = λ j e.
      v.listed j e
      ∙ sym
          (rw (mem-insert_flying ctx.store (ctx.store id).timeout j id ctx.flying) (ground arith));
  is_here = rw (mem-insert_flying ctx.store (ctx.store id).timeout id id ctx.flying) (ground arith);
}

pub delete-IsOpen :
    (id : ℕ) (here : Bool) (ctx : Context)
    → IsOpen id here ctx
    → IsOpen id false (record ctx { flying = delete id ctx.flying })
delete-IsOpen id here ctx v = record {
  distinct = delete-Distinct id ctx.flying v.distinct;
  sorted = delete-IsSorted ctx.store id ctx.flying v.sorted;
  listed = λ j e. v.listed j e ∙ sym (mem-delete_ne j id ctx.flying (ground arith));
  is_here = mem-delete_self id ctx.flying v.distinct;
}

-- Whatever becomes of the timer, `remove_from_flying_list` takes the transfer off the list and changes
-- nothing else.
pub remove_from_flying_list_lem :
    (works : Bool) (id : ℕ) (ctx : Context)
    → (t : Option TimeVal) × ((remove_from_flying_list works id ctx).1
        ≡ record ctx { flying = delete id ctx.flying; armed = t })
unfolding remove_from_flying_list arm_for_next_timeout
remove_from_flying_list_lem works id ctx =
    elim (Bool-cases
      (ctx.using_timerfd && (is_set (ctx.store id).timeout && is_first id ctx.flying))) [
        | inr p ↦ (ctx.armed, rw p refl)
        | inl p ↦ elim (Bool-cases works) [
          | inl w ↦ (next_timeout ctx.store (delete id ctx.flying), rw (p, w) refl)
          | inr w ↦ (ctx.armed, rw (p, w) refl)
        ]
      ]

pub armed-IsOpen :
    (id : ℕ) (here : Bool) (t : Option TimeVal) (ctx : Context)
    → IsOpen id here ctx
    → IsOpen id here (record ctx { armed = t })
armed-IsOpen id here t ctx v = record {
  distinct = v.distinct;
  sorted = v.sorted;
  listed = v.listed;
  is_here = v.is_here;
}
