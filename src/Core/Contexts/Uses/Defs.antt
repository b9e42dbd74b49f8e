-- ===== src/Core/Contexts/Uses/Defs.antt =====
-- The uses of the contexts of libusb/libusb/core.c: each `libusb_init` that succeeds is one, which a
-- `libusb_exit` gives back. A context is there as long as it is used.
use zerousb.Prelude.{
  ℕ, ◌≡◌, ◌≤◌, ◌<◌, min, true, false, Option, none, some, List, [], ◌∷◌, if◌then◌else◌, ◌==◌, arith,
}
use zerousb.Core.Devices.{remove}
use zerousb.Core.Devices.Counts.{count, count-remove}
use zerousb.Core.Contexts.{Globals, contains, is_default}

-- How often each context is used.
abbrev pub Uses : Type 0
Uses = ℕ → ℕ

abbrev pub set_use : ℕ → ℕ → Uses → Uses
set_use c n u j = if j == c then n else u j

abbrev pub Shared : Uses → Option ℕ → ℕ → Type 0
Shared u none n = n ≡ 0
Shared u (some d) n = (n ≡ u d) × (0 < u d)

-- A list holds each context that is used once, and no other.
abbrev pub Holds : Uses → List ℕ → Type 0
Holds u xs = (c : ℕ) → count c xs ≡ min 1 (u c)

-- The count is that of the uses of the default context, and it is 0 without one; any other context is
-- used once; and the lists hold the contexts that are used.
pub record Represents (u : Uses) (g : Globals) : Type 0 where
  pub default_lem : Shared u g.default_context g.default_context_refcnt
  pub single_lem : (c : ℕ) → is_default c g.default_context ≡ false → u c ≤ 1
  pub active_lem : Holds u g.active
  pub allocated_lem : Holds u g.allocated
  pub backends_lem : Holds u g.backends

pub Holds-add :
    (u : Uses) (c : ℕ) (xs : List ℕ) → u c ≡ 0 → Holds u xs → Holds (set_use c 1 u) (c ∷ xs)
Holds-add u c xs z h j = ground (arith, h j, h c)

pub Holds-remove :
    (u : Uses) (c : ℕ) (xs : List ℕ) → u c ≤ 1 → Holds u xs → Holds (set_use c 0 u) (remove c xs)
Holds-remove u c xs z h j = ground (arith, h j, h c, count-remove j c xs)

pub contains-count : (c : ℕ) (xs : List ℕ) → 0 < count c xs → contains c xs ≡ true
contains-count c [] l = ground arith
contains-count c (x ∷ xs) l = ground (arith, contains-count c xs)

pub single_at :
    {u : Uses} {c : ℕ} {g : Globals}
    → Represents u g
    → g.default_context ≡ some c
    → (j : ℕ) → (j == c) ≡ false
    → u j ≤ 1
single_at v e j h = v.single_lem j (rw e h)
