-- ===== src/Core/Contexts/Reach.antt =====
-- Sequences of `libusb_init` and `libusb_exit` calls of libusb/libusb/core.c, by all users of the
-- contexts.
use zerousb.Prelude.{
  ℕ, ◌+◌, ◌-◌, ◌≡◌, ◌<◌, refl, Bool, Option, none, some, [], arith, subst, Outcome, ret, Returns,
  fault, null_deref, use_after_free, if◌then◌else◌, ◌==◌, Bool-cases, inl, inr,
}
use zerousb.Usb.{Result, ok, err}
use zerousb.Core.Devices.{Context}
use zerousb.Core.Contexts.{Globals, Answers, init, exit_of, exit, get_context}
use zerousb.Core.Contexts.Uses.Defs.{Uses, set_use, Represents}
use zerousb.Core.Contexts.Uses.Exit.{exit-Represents, exit_of-unused, exit_of-Represents}
use zerousb.Core.Contexts.Uses.Init.{Uses-init, init-Uses}
use zerousb.Io.Setup.{Io}

abbrev pub uses_after : Uses → Result ℕ → Uses
uses_after u (ok c) = set_use c (u c + 1) u
uses_after u (err x) = u

-- The process before the first call.
abbrev pub at_start : (ℕ → Context) → (ℕ → Io) → Globals
at_start contexts io = record {
  default_context = none;
  default_context_refcnt = 0;
  active = [];
  allocated = [];
  backends = [];
  contexts = contexts;
  io = io;
  fds = [];
}

-- An exit is called only by one who still has a use of the context; memory that calloc gives is not in
-- use.
pub data Reach : Uses → Globals → Type 0 where
  start : (contexts : ℕ → Context) (io : ℕ → Io) → Reach (λ c. 0) (at_start contexts io)
  then_init :
      (u : Uses) (g : Globals) (given : Bool) (a : Answers)
      → Reach u g
      → ((c : ℕ) → a.calloc ≡ some c → u c ≡ 0)
      → Reach (uses_after u (init given a g).0) (init given a g).1
  then_exit :
      (u : Uses) (g : Globals) (ctx : Option ℕ) (c : ℕ) (g' : Globals)
      → Reach u g
      → get_context ctx g ≡ some c
      → 0 < u c
      → exit ctx g ≡ ret g'
      → Reach (set_use c (u c - 1) u) g'

Represents-after :
    (u : Uses) (r : Result ℕ × Globals) → Uses-init u r → Represents (uses_after u r.0) r.1
Represents-after u (ok c, g) v = v
Represents-after u (err x, g) v = v

Reach-Represents : (u : Uses) (g : Globals) → Reach u g → Represents u g
Reach-Represents u g (start contexts io) = record {
  default_lem = omega arith;
  single_lem = λ c h. omega arith;
  active_lem = λ c. omega arith;
  allocated_lem = λ c. omega arith;
  backends_lem = λ c. omega arith;
}
Reach-Represents _ _ (then_init u g given a r fresh) =
    Represents-after u (init given a g) (init-Uses u given a g (Reach-Represents u g r) fresh)
Reach-Represents _ _ (then_exit u g ctx c g' r e l q) =
    subst (λ o. Returns o (Represents (set_use c (u c - 1) u))) q
      (exit-Represents u ctx c g (Reach-Represents u g r) e l)

-- What an exit comes to.
abbrev pub Exits : Uses → Option ℕ → Outcome Globals → Type 0
Exits u none o = o ≡ fault null_deref
Exits u (some c) o =
    if u c == 0 then o ≡ fault use_after_free else Returns o (Represents (set_use c (u c - 1) u))

-- After every sequence of libusb_init calls, with a place for the context or without, whichever of
-- them fail and wherever, and of libusb_exit calls by those who have a use of the context: the
-- reference count of the default context is the number of its uses, it is 0 without a default context,
-- any other context is used once, and the contexts that are active, allocated and known to the backend
-- are those in use, each once. There, a further exit of a context in use returns without reading freed
-- memory, gives back one use, and destroys the context exactly if no other use is left; only an exit
-- of a context that is not in use reads freed memory, and only one of no context, where there is no
-- default one, reads through NULL.
pub reachable_contexts-Represents :
    (u : Uses) (g : Globals)
    → Reach u g
    → Represents u g × ((ctx : Option ℕ) → Exits u (get_context ctx g) (exit ctx g))
unfolding exit
reachable_contexts-Represents u g r =
    let v = Reach-Represents u g r in (v, λ ctx. by_context v (get_context ctx g))
  where
    by_context : Represents u g → (o : Option ℕ) → Exits u o (exit_of o g)
    by_context v none = refl
    by_context v (some c) = elim (Bool-cases (u c == 0)) [
      | inl e ↦ rw e (exit_of-unused u c g v (ground arith))
      | inr e ↦ rw e (exit_of-Represents u c g v (ground arith))
    ]
