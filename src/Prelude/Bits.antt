-- ===== src/Prelude/Bits.antt =====
-- Single-bit masks of C flag words: `x & (1 << k)`, `x |= 1 << k` and `x &= ~(1 << k)`, by the
-- binary digits of the word.
use Prim.Native.Nat.{ℕ, zero, suc, ◌+◌, ◌*◌, ◌/◌, ◌%◌, ◌^◌, ◌<◌}
use mathlib.Core.Path.{◌≡◌, refl}
use mathlib.Core.Logic.{◌≢◌}
use mathlib.Core.Bool.{Bool, true, false}
use native.Mathlib.Nat.{pow-suc}
use native.Mathlib.Omega.{arith}
use zerousb.Prelude.Tests.{◌==◌}

-- x & (1 << k), as a test.
unfoldable pub test_bit : ℕ → ℕ → Bool
test_bit x zero = x % 2 == 1
test_bit x (suc k) = test_bit (x / 2) k

-- x | (1 << k)
unfoldable pub set_bit : ℕ → ℕ → ℕ
set_bit x zero = x / 2 * 2 + 1
set_bit x (suc k) = x % 2 + 2 * set_bit (x / 2) k

-- x & ~(1 << k)
unfoldable pub clear_bit : ℕ → ℕ → ℕ
clear_bit x zero = x / 2 * 2
clear_bit x (suc k) = x % 2 + 2 * clear_bit (x / 2) k

pub test_bit-set_bit_self : (x k : ℕ) → test_bit (set_bit x k) k ≡ true
unfolding test_bit set_bit
test_bit-set_bit_self x zero = ground arith
test_bit-set_bit_self x (suc k) =
    let e : (x % 2 + 2 * set_bit (x / 2) k) / 2 ≡ set_bit (x / 2) k = omega arith in
    rw e (test_bit-set_bit_self (x / 2) k)

pub test_bit-clear_bit_self : (x k : ℕ) → test_bit (clear_bit x k) k ≡ false
unfolding test_bit clear_bit
test_bit-clear_bit_self x zero = ground arith
test_bit-clear_bit_self x (suc k) =
    let e : (x % 2 + 2 * clear_bit (x / 2) k) / 2 ≡ clear_bit (x / 2) k = omega arith in
    rw e (test_bit-clear_bit_self (x / 2) k)

pub test_bit-set_bit_ne : (x k j : ℕ) → k ≢ j → test_bit (set_bit x k) j ≡ test_bit x j
unfolding test_bit set_bit
test_bit-set_bit_ne x zero zero h = absurd (h refl)
test_bit-set_bit_ne x zero (suc j) h = let e : (x / 2 * 2 + 1) / 2 ≡ x / 2 = omega arith in rw e
test_bit-set_bit_ne x (suc k) zero h =
    let e : (x % 2 + 2 * set_bit (x / 2) k) % 2 ≡ x % 2 = omega arith in rw e
test_bit-set_bit_ne x (suc k) (suc j) h =
    let e : (x % 2 + 2 * set_bit (x / 2) k) / 2 ≡ set_bit (x / 2) k = omega arith in
    rw e (test_bit-set_bit_ne (x / 2) k j (omega arith))

pub test_bit-clear_bit_ne : (x k j : ℕ) → k ≢ j → test_bit (clear_bit x k) j ≡ test_bit x j
unfolding test_bit clear_bit
test_bit-clear_bit_ne x zero zero h = absurd (h refl)
test_bit-clear_bit_ne x zero (suc j) h = let e : x / 2 * 2 / 2 ≡ x / 2 = omega arith in rw e
test_bit-clear_bit_ne x (suc k) zero h =
    let e : (x % 2 + 2 * clear_bit (x / 2) k) % 2 ≡ x % 2 = omega arith in rw e
test_bit-clear_bit_ne x (suc k) (suc j) h =
    let e : (x % 2 + 2 * clear_bit (x / 2) k) / 2 ≡ clear_bit (x / 2) k = omega arith in
    rw e (test_bit-clear_bit_ne (x / 2) k j (omega arith))

-- Setting a bit of a word below 2 ^ w stays below it, at a bit below w.
pub set_bit-lt : (w x k : ℕ) → x < 2 ^ w → k < w → set_bit x k < 2 ^ w
unfolding set_bit
set_bit-lt zero x k h hk = elim hk [ ]
set_bit-lt (suc w) x zero h hk = omega (arith, pow-suc 2 w)
set_bit-lt (suc w) x (suc k) h hk =
    omega (arith, pow-suc 2 w, set_bit-lt w (x / 2) k (omega (arith, pow-suc 2 w)) (omega arith))
