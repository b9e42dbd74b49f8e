-- ===== src/Descriptor/Heap.antt =====
-- malloc, calloc, realloc and free as libusb/libusb/descriptor.c uses them. The allocator is not
-- part of the repository: a function says of each call in turn whether it is granted.
use zerousb.Prelude.{
  ℕ, zero, suc, ◌-◌, ◌≤◌, ◌≡◌, refl, Bool, List, [], ◌∷◌, Outcome, ret, fault, overrun, arith, ltb,
  if◌then◌else◌, length, take,
}

-- `grants n` says whether the n-th allocation succeeds.
abbrev pub Grants : Type 0
Grants = ℕ → Bool

-- The allocations asked for so far, and the blocks that are allocated and not freed.
pub record Heap : Type 0 where
  pub calls : ℕ
  pub live : ℕ

-- malloc or calloc: whether the block was granted, and the heap after it.
abbrev pub malloc : Grants → Heap → Bool × Heap
malloc g h =
    (g h.calls, record { calls = suc h.calls; live = if g h.calls then suc h.live else h.live })

-- `free` of n blocks.
abbrev pub free : ℕ → Heap → Heap
free n h = record h { live = h.live - n }

-- A pointer to a block of bytes: the empty list is NULL.
abbrev pub block : List ℕ → ℕ
block [] = 0
block (x ∷ xs) = 1

-- memcpy of n bytes.
abbrev pub copy : ℕ → List ℕ → Outcome (List ℕ)
copy n xs = if ltb (length xs) n then fault overrun else ret (take n xs)

pub block-take : (n : ℕ) (xs : List ℕ) → 1 ≤ n → n ≤ length xs → block (take n xs) ≡ 1
block-take zero xs h k = absurd (omega arith)
block-take (suc n) [] h k = absurd (omega arith)
block-take (suc n) (x ∷ xs) h k = refl
