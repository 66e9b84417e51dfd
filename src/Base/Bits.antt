-- ===== src/Base/Bits.antt =====
-- What `&` with a mask of low ones, and with a single bit, means as arithmetic.
use Prim.Native.Nat.{
  ℕ, zero, suc, ◌+◌, ◌-◌, ◌*◌, ◌/◌, ◌%◌, ◌^◌, ◌≤◌, ◌<◌, min, bit_and, digits, bit_and-bitwise,
}
use mathlib.Core.Path.{◌≡◌, refl, ap}
use native.Mathlib.Nat.{pow-suc, one-le-pow}
use native.Mathlib.Omega.{arith}

-- The library's `digits` at `&`, whose fuel does not matter once it is at least the first number.
abbrev conj_digits : ℕ → ℕ → ℕ → ℕ
conj_digits = digits (λ _. zero) min

conj_digits-fuel : (m k x y : ℕ) → x ≤ m → x ≤ k → conj_digits m x y ≡ conj_digits k x y
conj_digits-fuel zero zero x y p q = refl
conj_digits-fuel zero (suc k) zero y p q = refl
conj_digits-fuel zero (suc k) (suc x) y p q = absurd (omega arith)
conj_digits-fuel (suc m) zero zero y p q = refl
conj_digits-fuel (suc m) zero (suc x) y p q = absurd (omega arith)
conj_digits-fuel (suc m) (suc k) zero y p q = refl
conj_digits-fuel (suc m) (suc k) (suc x) y p q =
    rw (conj_digits-fuel m k (suc x / 2) (y / 2) (omega arith) (omega arith))

-- One binary digit at a time.
pub bit_and_digit : (x y : ℕ) → bit_and x y ≡ bit_and (x / 2) (y / 2) * 2 + min (x % 2) (y % 2)
bit_and_digit zero y = simp bit_and-bitwise (omega arith)
bit_and_digit (suc x) y = omega (
  arith,
  bit_and-bitwise (suc x) y,
  bit_and-bitwise (suc x / 2) (y / 2),
  conj_digits-fuel x (suc x / 2) (suc x / 2) (y / 2) (omega arith) (omega arith),
)

bit_and-zero_below : (n x : ℕ) → x ≤ n → bit_and x 0 ≡ 0
bit_and-zero_below n zero h = refl
bit_and-zero_below zero (suc x) h = absurd (omega arith)
bit_and-zero_below (suc n) (suc x) h =
    omega (arith, bit_and_digit (suc x) 0, bit_and-zero_below n (suc x / 2) (omega arith))

pub bit_and-zero : (x : ℕ) → bit_and x 0 ≡ 0
bit_and-zero x = bit_and-zero_below x x (omega arith)

double-mul : (q p : ℕ) → q * (2 * p) ≡ 2 * (q * p)
double-mul q p = omega arith

-- A number made of a multiple of `2 ^ k` and a rest below it keeps the rest under `& (2 ^ k - 1)`.
mask_of_parts : (k q r : ℕ) → r < 2 ^ k → bit_and (q * 2 ^ k + r) (2 ^ k - 1) ≡ r
mask_of_parts zero q r h = ground (arith, bit_and-zero (q * 2 ^ 0 + r))
mask_of_parts (suc k) q r h = ground (
  arith,
  bit_and_digit (q * 2 ^ suc k + r) (2 ^ suc k - 1),
  pow-suc 2 k,
  ap (λ (t : ℕ). q * t) (pow-suc 2 k),
  mask_of_parts k q (r / 2) (omega (arith, pow-suc 2 k)),
)

-- `x & (2 ^ k - 1)` is the remainder by `2 ^ k`.
pub bit_and_mask : (k x : ℕ) → bit_and x (2 ^ k - 1) ≡ x % 2 ^ k
bit_and_mask k x = ground (arith, one-le-pow k 2, mask_of_parts k (x / 2 ^ k) (x % 2 ^ k))

bit_of_parts : (k q r : ℕ) → r < 2 ^ k → bit_and (q * 2 ^ k + r) (2 ^ k) ≡ q % 2 * 2 ^ k
bit_of_parts zero q r h =
    ground (arith, bit_and_digit (q * 2 ^ 0 + r) 1, bit_and-zero ((q * 2 ^ 0 + r) / 2))
bit_of_parts (suc k) q r h = ground (
  arith,
  bit_and_digit (q * 2 ^ suc k + r) (2 ^ suc k),
  pow-suc 2 k,
  ap (λ (t : ℕ). q * t) (pow-suc 2 k),
  ap (λ (t : ℕ). q % 2 * t) (pow-suc 2 k),
  bit_of_parts k q (r / 2) (omega (arith, pow-suc 2 k)),
)

-- `x & 2 ^ k` is bit `k` of `x`, in place.
pub bit_and_bit : (k x : ℕ) → bit_and x (2 ^ k) ≡ x / 2 ^ k % 2 * 2 ^ k
bit_and_bit k x = ground (arith, one-le-pow k 2, bit_of_parts k (x / 2 ^ k) (x % 2 ^ k))

bit_and_self_below : (n x : ℕ) → x ≤ n → bit_and x x ≡ x
bit_and_self_below n zero h = refl
bit_and_self_below zero (suc x) h = absurd (omega arith)
bit_and_self_below (suc n) (suc x) h =
    omega (arith, bit_and_digit (suc x) (suc x), bit_and_self_below n (suc x / 2) (omega arith))

pub bit_and_self : (x : ℕ) → bit_and x x ≡ x
bit_and_self x = bit_and_self_below x x (omega arith)
