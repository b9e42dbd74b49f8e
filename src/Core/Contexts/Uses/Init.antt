-- ===== src/Core/Contexts/Uses/Init.antt =====
-- `libusb_init` of libusb/libusb/core.c uses a context once more.
use zerousb.Prelude.{
  ℕ, ◌+◌, ◌≡◌, ◌≤◌, refl, subst, Bool, true, false, Option, none, some, List, ◌∷◌, if◌then◌else◌,
  ◌==◌, Option-cases, inl, inr, arith,
}
use zerousb.Usb.{Error, Success, Result, ok, err}
use zerousb.Core.Devices.{Context, remove}
use zerousb.Io.Setup
use zerousb.Io.Setup.{Io, io_init}
use zerousb.Core.Contexts.Uses.Defs.{Uses, set_use, Shared, Holds, Represents, Holds-add, single_at}
use zerousb.Core.Contexts.{
  Globals, Answers, is_default, set_context, undo, enlist, set_up_io, set_up, create_at, create,
  reuse, init,
}

-- A call that succeeds uses the context that it answers once more; one that fails changes no use.
abbrev pub Uses-init : Uses → Result ℕ × Globals → Type 0
Uses-init u (err x, g) = Represents u g
Uses-init u (ok c, g) = Represents (set_use c (u c + 1) u) g

-- What `Represents` is about is left as it was.
Represents-same :
    (u : Uses) (g h : Globals)
    → Represents u g
    → h.default_context ≡ g.default_context
    → h.default_context_refcnt ≡ g.default_context_refcnt
    → h.active ≡ g.active
    → h.allocated ≡ g.allocated
    → h.backends ≡ g.backends
    → Represents u h
Represents-same u g h v ed en ea em eb = record {
  default_lem = rw (ed, en) v.default_lem;
  single_lem = λ j o. v.single_lem j (rw ed at o);
  active_lem = rw ea v.active_lem;
  allocated_lem = rw em v.allocated_lem;
  backends_lem = rw eb v.backends_lem;
}

remove_head : (x : ℕ) (xs : List ℕ) → remove x (x ∷ xs) ≡ xs
remove_head x xs = ground arith

-- Up to the backend's initialisation, only the new context was put on two of the lists.
Follows : ℕ → Globals → Globals → Type 0
Follows c g h =
    (h.default_context ≡ (enlist c g).default_context)
    × (h.default_context_refcnt ≡ (enlist c g).default_context_refcnt)
    × (h.active ≡ c ∷ g.active)
    × (h.allocated ≡ c ∷ g.allocated)

undo-default :
    (u : Uses) (c : ℕ) (g h : Globals)
    → Represents u g
    → u c ≡ 0
    → Follows c g h
    → ((undo c h).default_context ≡ g.default_context)
      × ((undo c h).default_context_refcnt ≡ g.default_context_refcnt)
unfolding Follows
undo-default u c g h v z (ed, en, ea, em) = elim (Option-cases g.default_context) [
  | inl e ↦
      let hd : h.default_context ≡ some c = rw e at ed in
      let hn : h.default_context_refcnt ≡ g.default_context_refcnt + 1 = rw e at en in
      rw (hd, e) (ground arith)
  | inr (d, e) ↦
      let hd : h.default_context ≡ some d = rw e at ed in
      let hn : h.default_context_refcnt ≡ g.default_context_refcnt = rw e at en in
      let (n, l) = subst (λ o. Shared u o g.default_context_refcnt) e v.default_lem in
      let other : (c == d) ≡ false = ground arith in rw (hd, e, other) (ground arith)
]

undo-Represents :
    (u : Uses) (c : ℕ) (g h : Globals)
    → Represents u g
    → u c ≡ 0
    → Follows c g h
    → h.backends ≡ g.backends
    → Represents u (undo c h)
unfolding Follows
undo-Represents u c g h v z f b =
    let (ed, en) = undo-default u c g h v z f in
    Represents-same u g (undo c h) v ed en (rw f.2 (remove_head c g.active))
      (rw f.3 (remove_head c g.allocated)) (ground (arith, b))

enlist-Follows :
    (c : ℕ) (g : Globals) → Follows c g (enlist c g) × ((enlist c g).backends ≡ g.backends)
unfolding Follows
enlist-Follows c g = elim (Option-cases g.default_context) [
  | inl e ↦ rw e (ground arith)
  | inr (d, e) ↦ rw e (ground arith)
]

enlisted-default :
    (u : Uses) (c : ℕ) (g h : Globals)
    → Represents u g
    → u c ≡ 0
    → Follows c g h
    → Shared (set_use c 1 u) h.default_context h.default_context_refcnt
      × ((j : ℕ) → is_default j h.default_context ≡ false → set_use c 1 u j ≤ 1)
unfolding Follows
enlisted-default u c g h v z (ed, en, ea, em) = elim (Option-cases g.default_context) [
  | inl e ↦
      let hd : h.default_context ≡ some c = rw e at ed in
      let hn : h.default_context_refcnt ≡ g.default_context_refcnt + 1 = rw e at en in
      let n = subst (λ o. Shared u o g.default_context_refcnt) e v.default_lem in
      rw (hd, hn) ((ground arith, ground arith), λ j o. ground (arith, v.single_lem j (rw e refl)))
  | inr (d, e) ↦
      let hd : h.default_context ≡ some d = rw e at ed in
      let hn : h.default_context_refcnt ≡ g.default_context_refcnt = rw e at en in
      let (n, l) = subst (λ o. Shared u o g.default_context_refcnt) e v.default_lem in
      rw (hd, hn) ((ground arith, ground arith), λ j o. ground (arith, single_at v e j))
]

enlisted-Represents :
    (u : Uses) (c : ℕ) (g h : Globals)
    → Represents u g
    → u c ≡ 0
    → Follows c g h
    → h.backends ≡ c ∷ g.backends
    → Represents (set_use c 1 u) h
unfolding Follows
enlisted-Represents u c g h v z f b =
    let (s, o) = enlisted-default u c g h v z f in
    record {
      default_lem = s;
      single_lem = o;
      active_lem = rw f.2 (Holds-add u c g.active z v.active_lem);
      allocated_lem = rw f.3 (Holds-add u c g.allocated z v.allocated_lem);
      backends_lem = rw b (Holds-add u c g.backends z v.backends_lem);
    }

set_up_io-Uses :
    (u : Uses) (c : ℕ) (r : Result Success × Io) (g h : Globals)
    → Represents u g
    → u c ≡ 0
    → Follows c g h
    → h.backends ≡ c ∷ g.backends
    → Uses-init u (set_up_io c r h)
unfolding Follows
set_up_io-Uses u c (err x, s) g h v z f b =
    undo-Represents u c g (record h { backends = remove c h.backends; fds = s.fds }) v z f
      (rw b (remove_head c g.backends))
set_up_io-Uses u c (ok x, s) g h v z f b =
    let one : 1 ≡ u c + 1 = omega arith in
    subst
      (λ n.
        Represents (set_use c n u)
          (record h { io = λ j. if j == c then s else h.io j; fds = s.fds }))
      one
      (enlisted-Represents u c g (record h { io = λ j. if j == c then s else h.io j; fds = s.fds })
        v z f b)

set_up-Uses :
    (u : Uses) (c : ℕ) (a : Setup.Answers) (r : Option Error × Context) (g h : Globals)
    → Represents u g
    → u c ≡ 0
    → Follows c g h
    → h.backends ≡ g.backends
    → Uses-init u (set_up c a r h)
unfolding Follows
set_up-Uses u c a (some x, ctx) g h v z f b = undo-Represents u c g (set_context c ctx h) v z f b
set_up-Uses u c a (none, ctx) g h v z f b =
    set_up_io-Uses u c (io_init a h.fds) g
      (record (set_context c ctx h) { backends = c ∷ h.backends }) v z f (rw b refl)

create-Uses :
    (u : Uses) (a : Answers) (g : Globals)
    → Represents u g
    → ((c : ℕ) → a.calloc ≡ some c → u c ≡ 0)
    → Uses-init u (create a g)
create-Uses u a g v fresh = by_calloc a.calloc refl
  where
    by_calloc : (o : Option ℕ) → a.calloc ≡ o → Uses-init u (create_at o a g)
    by_calloc none e = v
    by_calloc (some c) e =
        let (f, b) = enlist-Follows c g in
        set_up-Uses u c a.io (a.backend_init (g.contexts c)) g (enlist c g) v (fresh c e) f b

reuse-Represents :
    (u : Uses) (d : ℕ) (g : Globals)
    → Represents u g
    → g.default_context ≡ some d
    → Represents
        (set_use d (u d + 1) u)
        (record g { default_context_refcnt = g.default_context_refcnt + 1 })
reuse-Represents u d g v e =
    let (n, l) = subst (λ o. Shared u o g.default_context_refcnt) e v.default_lem in
    let kept : (xs : List ℕ) → Holds u xs → Holds (set_use d (u d + 1) u) xs =
      λ xs h j. ground (arith, h j) in
    record {
      default_lem = rw e (ground arith);
      single_lem = λ j h. ground (arith, v.single_lem j, rw e at h);
      active_lem = kept g.active v.active_lem;
      allocated_lem = kept g.allocated v.allocated_lem;
      backends_lem = kept g.backends v.backends_lem;
    }

-- A first call without a place for the context, and any call with one, makes a context; a further call
-- without one uses the default context. Where the allocation, the backend or the event handling
-- fails, it is all undone.
pub init-Uses :
    (u : Uses) (given : Bool) (a : Answers) (g : Globals)
    → Represents u g
    → ((c : ℕ) → a.calloc ≡ some c → u c ≡ 0)
    → Uses-init u (init given a g)
unfolding init
init-Uses u true a g v fresh = create-Uses u a g v fresh
init-Uses u false a g v fresh = by_default g.default_context refl
  where
    by_default : (o : Option ℕ) → g.default_context ≡ o → Uses-init u (reuse o a g)
    by_default none e = create-Uses u a g v fresh
    by_default (some d) e = reuse-Represents u d g v e
