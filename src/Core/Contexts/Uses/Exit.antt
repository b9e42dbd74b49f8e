-- ===== src/Core/Contexts/Uses/Exit.antt =====
-- `libusb_exit` of libusb/libusb/core.c gives a use of a context back.
use zerousb.Prelude.{
  ℕ, ◌-◌, ◌≡◌, ◌≤◌, ◌<◌, refl, sym, subst, ltb, true, false, Option, none, some, List, Bool-cases,
  inl, inr, arith, Returns, [], ◌∷◌, fault, use_after_free,
}
use zerousb.Core.Devices.Counts.{count}
use zerousb.Core.Contexts.Uses.Defs.{
  Uses, set_use, Shared, Holds, Represents, Holds-remove, contains-count, single_at,
}
use zerousb.Core.Contexts.{
  Globals, drop_default, contains, is_default, get_context, destroy, exit_of, exit,
}

destroy-Represents :
    (u : Uses) (c : ℕ) (g : Globals)
    → u c ≡ 1
    → Holds u g.active
    → Holds u g.allocated
    → Holds u g.backends
    → Shared (set_use c 0 u) g.default_context g.default_context_refcnt
    → ((j : ℕ) → is_default j g.default_context ≡ false → set_use c 0 u j ≤ 1)
    → Returns (destroy c g) (Represents (set_use c 0 u))
destroy-Represents u c g e a m b s o =
    let here : contains c g.allocated ≡ true = contains-count c g.allocated (omega (arith, m c)) in
    rw here (record {
      default_lem = s;
      single_lem = o;
      active_lem = Holds-remove u c g.active (omega arith) a;
      allocated_lem = Holds-remove u c g.allocated (omega arith) m;
      backends_lem = Holds-remove u c g.backends (omega arith) b;
    })

is_default-eq : (c : ℕ) (o : Option ℕ) → is_default c o ≡ true → o ≡ some c
is_default-eq c none h = cc
is_default-eq c (some d) h = ground arith

-- The use that is given back is not the last one.
keep-Represents :
    (u : Uses) (c : ℕ) (g : Globals)
    → Represents u g
    → g.default_context ≡ some c
    → g.default_context_refcnt ≡ u c
    → 1 < u c
    → Represents
        (set_use c (u c - 1) u)
        (record g { default_context_refcnt = g.default_context_refcnt - 1 })
keep-Represents u c g v e n l =
    let kept : (xs : List ℕ) → Holds u xs → Holds (set_use c (u c - 1) u) xs =
      λ xs h j. ground (arith, h j) in
    record {
      default_lem = rw e (ground arith);
      single_lem = λ j h. ground (arith, v.single_lem j, rw e at h);
      active_lem = kept g.active v.active_lem;
      allocated_lem = kept g.allocated v.allocated_lem;
      backends_lem = kept g.backends v.backends_lem;
    }

Shared-other :
    (u : Uses) (c : ℕ) (o : Option ℕ) (n : ℕ)
    → is_default c o ≡ false
    → Shared u o n
    → Shared (set_use c 0 u) o n
Shared-other u c none n h s = s
Shared-other u c (some d) n h s = ground arith

pub exit_of-Represents :
    (u : Uses) (c : ℕ) (g : Globals)
    → Represents u g
    → 0 < u c
    → Returns (exit_of (some c) g) (Represents (set_use c (u c - 1) u))
exit_of-Represents u c g v l = elim (Bool-cases (is_default c g.default_context)) [
  | inr h ↦
      let z : 0 ≡ u c - 1 = omega (arith, v.single_lem c h) in
      rw h (
        subst (λ n. Returns (destroy c g) (Represents (set_use c n u))) z
          (destroy-Represents u c g (omega (arith, v.single_lem c h)) v.active_lem v.allocated_lem
            v.backends_lem (Shared-other u c _ _ h v.default_lem)
            (λ j o. ground (arith, v.single_lem j o))))
  | inl h ↦
      let e = is_default-eq c g.default_context h in
      let (n, m) = subst (λ o. Shared u o g.default_context_refcnt) e v.default_lem in
      elim (Bool-cases (ltb 0 (g.default_context_refcnt - 1))) [
        | inl k ↦ rw (h, k) (keep-Represents u c g v e n (ground arith))
        | inr k ↦
            let z : 0 ≡ u c - 1 = ground arith in
            let one : u c ≡ 1 = ground arith in
            rw (h, k)
              (subst (λ n. Returns (destroy c (drop_default g)) (Represents (set_use c n u))) z
                (destroy-Represents u c (drop_default g) one v.active_lem v.allocated_lem
                  v.backends_lem (ground arith) (λ j o. ground (arith, single_at v e j))))
      ]
]

none_contained : (c : ℕ) (xs : List ℕ) → count c xs ≡ 0 → contains c xs ≡ false
none_contained c [] z = refl
none_contained c (x ∷ xs) z = ground (arith, none_contained c xs)

unused-default :
    (u : Uses) (c : ℕ) (o : Option ℕ) (n : ℕ) → Shared u o n → u c ≡ 0 → is_default c o ≡ false
unused-default u c none n s z = refl
unused-default u c (some d) n s z = ground arith

pub exit_of-unused :
    (u : Uses) (c : ℕ) (g : Globals)
    → Represents u g
    → u c ≡ 0
    → exit_of (some c) g ≡ fault use_after_free
exit_of-unused u c g v z =
    let d = unused-default u c g.default_context g.default_context_refcnt v.default_lem z in
    let f = none_contained c g.allocated (omega (arith, v.allocated_lem c, z)) in rw (d, f) refl

-- An exit gives one use of its context back: it always returns, without reading freed memory, if the
-- context is in use; the context is destroyed if that was its last use, and stays otherwise.
pub exit-Represents :
    (u : Uses) (ctx : Option ℕ) (c : ℕ) (g : Globals)
    → Represents u g
    → get_context ctx g ≡ some c
    → 0 < u c
    → Returns (exit ctx g) (Represents (set_use c (u c - 1) u))
unfolding exit
exit-Represents u ctx c g v e l =
    subst (λ o. Returns (exit_of o g) (Represents (set_use c (u c - 1) u))) (sym e)
      (exit_of-Represents u c g v l)
