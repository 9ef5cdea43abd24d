-- ===== src/Common/Masks.antt =====
-- The bits of a word, under the masks of C: `v | 1 << b` and `v & ~(1 << b)`.
use Prim.Native.Nat.{
  ℕ, zero, suc, ◌+◌, ◌-◌, ◌*◌, ◌/◌, ◌%◌, ◌^◌, ◌≤◌, ◌<◌, min, bit_and, bit_or, digits,
  bit_and-bitwise,
}
use mathlib.Core.Path.{◌≡◌, refl, ap, ◌∙◌}
use mathlib.Core.Bool.{Bool, false, not, ◌&&◌, ◌||◌}
use native.Mathlib.Nat.{pow-suc}
use native.Mathlib.Omega.{arith}
use baremetal_crt.Common.Tests.{◌==◌}
use baremetal_crt.Common.Bits.{bit_or-lowest}

-- Bit `j` of `v`.
unfoldable pub bit : (j v : ℕ) → Bool
bit zero v = v % 2 == 1
bit (suc j) v = bit j (v / 2)

abbrev and_digits : (fuel a b : ℕ) → ℕ
and_digits n a b = digits (λ x. zero) min n a b

and_digits-enough : (a b n m : ℕ) → a ≤ n → a ≤ m → and_digits n a b ≡ and_digits m a b
and_digits-enough zero b zero zero h g = refl
and_digits-enough zero b zero (suc m) h g = refl
and_digits-enough zero b (suc n) zero h g = refl
and_digits-enough zero b (suc n) (suc m) h g = refl
and_digits-enough (suc a) b zero m h g = absurd (omega arith)
and_digits-enough (suc a) b (suc n) zero h g = absurd (omega arith)
and_digits-enough (suc a) b (suc n) (suc m) h g =
    omega (arith, and_digits-enough (suc a / 2) (b / 2) n m (omega arith) (omega arith))

zero-bit_and : (b : ℕ) → bit_and 0 b ≡ 0
zero-bit_and b = bit_and-bitwise 0 b

bit_and-lowest : (a b : ℕ) → bit_and a b ≡ bit_and (a / 2) (b / 2) * 2 + min (a % 2) (b % 2)
bit_and-lowest zero b = omega (arith, zero-bit_and b, zero-bit_and (b / 2))
bit_and-lowest (suc a) b = omega (
  arith,
  bit_and-bitwise (suc a) b,
  bit_and-bitwise (suc a / 2) (b / 2),
  and_digits-enough (suc a / 2) (b / 2) a (suc a / 2) (omega arith) (omega arith),
)

pub bit-or : (j a b : ℕ) → bit j (bit_or a b) ≡ (bit j a || bit j b)
unfolding bit
bit-or zero a b = ground (arith, bit_or-lowest a b)
bit-or (suc j) a b =
    let half : bit_or a b / 2 ≡ bit_or (a / 2) (b / 2) = omega (arith, bit_or-lowest a b) in
    ap (bit j) half ∙ bit-or j (a / 2) (b / 2)

pub bit-and : (j a b : ℕ) → bit j (bit_and a b) ≡ (bit j a && bit j b)
unfolding bit
bit-and zero a b = ground (arith, bit_and-lowest a b)
bit-and (suc j) a b =
    let half : bit_and a b / 2 ≡ bit_and (a / 2) (b / 2) = omega (arith, bit_and-lowest a b) in
    ap (bit j) half ∙ bit-and j (a / 2) (b / 2)

pub bit-zero : (j : ℕ) → bit j 0 ≡ false
unfolding bit
bit-zero zero = refl
bit-zero (suc j) = bit-zero j

pub bit-pow : (j b : ℕ) → bit j (2 ^ b) ≡ (j == b)
unfolding bit
bit-pow zero zero = refl
bit-pow zero (suc b) =
    let even : 2 ^ suc b % 2 ≡ 0 = omega (arith, pow-suc 2 b) in ground (arith, even)
bit-pow (suc j) zero = bit-zero j ∙ ground arith
bit-pow (suc j) (suc b) =
    let half : 2 ^ suc b / 2 ≡ 2 ^ b = omega (arith, pow-suc 2 b) in
    let same : (j == b) ≡ (suc j == suc b) = ground arith in ap (bit j) half ∙ bit-pow j b ∙ same

pub bit-complement : (j w v : ℕ) → j < w → v < 2 ^ w → bit j (2 ^ w - 1 - v) ≡ not (bit j v)
unfolding bit
bit-complement j zero v h l = absurd (omega arith)
bit-complement zero (suc w) v h l =
    let odd : (2 ^ suc w - 1 - v) % 2 ≡ 1 - v % 2 = omega (arith, pow-suc 2 w) in
    ground (arith, odd)
bit-complement (suc j) (suc w) v h l =
    let half : (2 ^ suc w - 1 - v) / 2 ≡ 2 ^ w - 1 - v / 2 = omega (arith, pow-suc 2 w) in
    ap (bit j) half ∙ bit-complement j w (v / 2) (omega arith) (omega (arith, pow-suc 2 w))

-- `v | 1 << b`
pub bit-set : (j b v : ℕ) → bit j (bit_or v (2 ^ b)) ≡ (bit j v || (j == b))
bit-set j b v = bit-or j v (2 ^ b) ∙ ap (λ t. bit j v || t) (bit-pow j b)

-- `v & ~(1 << b)`, on `w` bits.
pub bit-clear :
    (j b v w : ℕ)
    → j < w
    → 2 ^ b < 2 ^ w
    → bit j (bit_and v (2 ^ w - 1 - 2 ^ b)) ≡ (bit j v && not (j == b))
bit-clear j b v w h l =
    bit-and j v (2 ^ w - 1 - 2 ^ b)
    ∙ ap (λ t. bit j v && t) (bit-complement j w (2 ^ b) h l ∙ ap not (bit-pow j b))

-- The bits of a byte.
pub bit-byte : (j v : ℕ) → j < 8 → bit j (v % 256) ≡ bit j v
unfolding bit
bit-byte zero v l = ap (λ t. t == 1) (omega arith)
bit-byte (suc zero) v l = ap (λ t. t == 1) (omega arith)
bit-byte (suc (suc zero)) v l = ap (λ t. t == 1) (omega arith)
bit-byte (suc (suc (suc zero))) v l = ap (λ t. t == 1) (omega arith)
bit-byte (suc (suc (suc (suc zero)))) v l = ap (λ t. t == 1) (omega arith)
bit-byte (suc (suc (suc (suc (suc zero))))) v l = ap (λ t. t == 1) (omega arith)
bit-byte (suc (suc (suc (suc (suc (suc zero)))))) v l = ap (λ t. t == 1) (omega arith)
bit-byte (suc (suc (suc (suc (suc (suc (suc zero))))))) v l = ap (λ t. t == 1) (omega arith)
bit-byte (suc (suc (suc (suc (suc (suc (suc (suc n)))))))) v l = absurd (omega arith)
