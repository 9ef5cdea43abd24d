-- ===== src/Common/Bits.antt =====
-- Words that are put together from fields with `|`.
use Prim.Native.Nat.{
  ℕ, zero, suc, ◌+◌, ◌*◌, ◌/◌, ◌%◌, ◌^◌, ◌≤◌, ◌<◌, max, bit_or, digits, bit_or-bitwise,
}
use mathlib.Core.Path.{◌≡◌, refl, ap}
use native.Mathlib.Nat.{pow-suc}
use native.Mathlib.Omega.{arith}

-- The recursion on the digits that `bit_or` stands for: fuel `a` is enough.
abbrev or_digits : (fuel a b : ℕ) → ℕ
or_digits n a b = digits (λ x. x) max n a b

or_digits-enough : (a b n m : ℕ) → a ≤ n → a ≤ m → or_digits n a b ≡ or_digits m a b
or_digits-enough zero b zero zero h g = refl
or_digits-enough zero b zero (suc m) h g = refl
or_digits-enough zero b (suc n) zero h g = refl
or_digits-enough zero b (suc n) (suc m) h g = refl
or_digits-enough (suc a) b zero m h g = absurd (omega arith)
or_digits-enough (suc a) b (suc n) zero h g = absurd (omega arith)
or_digits-enough (suc a) b (suc n) (suc m) h g =
    omega (arith, or_digits-enough (suc a / 2) (b / 2) n m (omega arith) (omega arith))

zero-bit_or : (b : ℕ) → bit_or 0 b ≡ b
zero-bit_or b = bit_or-bitwise 0 b

-- The lowest digit and the others.
pub bit_or-lowest : (a b : ℕ) → bit_or a b ≡ bit_or (a / 2) (b / 2) * 2 + max (a % 2) (b % 2)
bit_or-lowest zero b = omega (arith, zero-bit_or b, zero-bit_or (b / 2))
bit_or-lowest (suc a) b = omega (
  arith,
  bit_or-bitwise (suc a) b,
  bit_or-bitwise (suc a / 2) (b / 2),
  or_digits-enough (suc a / 2) (b / 2) a (suc a / 2) (omega arith) (omega arith),
)

-- A field that is put above `k` bits.
pub bit_or-above : (k a b : ℕ) → a < 2 ^ k → bit_or a (b * 2 ^ k) ≡ a + b * 2 ^ k
bit_or-above zero zero b h = omega (arith, zero-bit_or (b * 2 ^ 0))
bit_or-above zero (suc a) b h = absurd (omega arith)
bit_or-above (suc k) a b h =
    let half : b * 2 ^ suc k ≡ 2 * (b * 2 ^ k) =
      omega (arith, ap (λ (t : ℕ). b * t) (pow-suc 2 k)) in
    rw half (
      omega (
        arith,
        pow-suc 2 k,
        bit_or-lowest a (2 * (b * 2 ^ k)),
        ap (bit_or (a / 2)) {x = 2 * (b * 2 ^ k) / 2} {y = b * 2 ^ k} (omega arith),
        bit_or-above k (a / 2) b (omega (arith, pow-suc 2 k)),
      ))

bit_or-zero_fuel : (n a : ℕ) → a ≤ n → bit_or a 0 ≡ a
bit_or-zero_fuel n zero h = zero-bit_or 0
bit_or-zero_fuel zero (suc a) h = absurd (omega arith)
bit_or-zero_fuel (suc n) (suc a) h =
    omega (arith, bit_or-lowest (suc a) 0, bit_or-zero_fuel n (suc a / 2) (omega arith))

-- A field that is put below `k` bits.
pub bit_or-below : (k a b : ℕ) → a < 2 ^ k → bit_or (b * 2 ^ k) a ≡ a + b * 2 ^ k
bit_or-below zero zero b h = omega (arith, bit_or-zero_fuel (b * 2 ^ 0) (b * 2 ^ 0) (omega arith))
bit_or-below zero (suc a) b h = absurd (omega arith)
bit_or-below (suc k) a b h =
    let half : b * 2 ^ suc k ≡ 2 * (b * 2 ^ k) =
      omega (arith, ap (λ (t : ℕ). b * t) (pow-suc 2 k)) in
    rw half (
      omega (
        arith,
        pow-suc 2 k,
        bit_or-lowest (2 * (b * 2 ^ k)) a,
        ap (λ (t : ℕ). bit_or t (a / 2)) {x = 2 * (b * 2 ^ k) / 2} {y = b * 2 ^ k} (omega arith),
        bit_or-below k (a / 2) b (omega (arith, pow-suc 2 k)),
      ))
