-- ===== src/Prelude/Words.antt =====
-- Machine words as native numbers: 32-bit addition and subtraction, and what a mask does.
use Prim.Native.Nat.{
  ℕ, zero, suc, ◌+◌, ◌-◌, ◌*◌, ◌/◌, ◌%◌, ◌^◌, ◌≤◌, ◌<◌, min, bit_and, digits, bit_and-bitwise,
}
use mathlib.Core.Path.{◌≡◌, refl, ap, ◌∙◌}
use native.Mathlib.Omega.{arith}

abbrev pub u32_mod : ℕ
u32_mod = 2 ^ 32

-- uint32_t a + b and a - b.
abbrev pub add32 : ℕ → ℕ → ℕ
add32 a b = (a + b) % u32_mod

abbrev pub sub32 : ℕ → ℕ → ℕ
sub32 a b = (a + u32_mod - b) % u32_mod

-- The digit count that a bitwise operation starts from is large enough, and any larger one serves.
module _ (z : ℕ → ℕ) (f : ℕ → ℕ → ℕ) where
  digits_stable : (n k a b : ℕ) → a ≤ n → a ≤ k → digits z f n a b ≡ digits z f k a b
  digits_stable n k zero b p q = at_zero n ∙ at_zero' k
    where
      at_zero : (i : ℕ) → digits z f i zero b ≡ z b
      at_zero zero = refl
      at_zero (suc i) = refl

      at_zero' : (i : ℕ) → z b ≡ digits z f i zero b
      at_zero' zero = refl
      at_zero' (suc i) = refl
  digits_stable zero k (suc a) b p q = absurd (omega arith)
  digits_stable (suc n) zero (suc a) b p q = absurd (omega arith)
  digits_stable (suc n) (suc k) (suc a) b p q =
      ap (λ t. t * 2 + f (suc a % 2) (b % 2))
        (digits_stable n k (suc a / 2) (b / 2) (omega arith) (omega arith))

-- The lowest digit of `a & b`, and the rest.
low_digit : (a b : ℕ) → bit_and a b ≡ bit_and (a / 2) (b / 2) * 2 + min (a % 2) (b % 2)
low_digit zero b = omega (arith, bit_and-bitwise 0 b, bit_and-bitwise 0 (b / 2))
low_digit (suc a) b = omega (
  arith,
  bit_and-bitwise (suc a) b,
  bit_and-bitwise (suc a / 2) (b / 2),
  digits_stable (λ _. 0) min a (suc a / 2) (suc a / 2) (b / 2) (omega arith) (omega arith),
)

-- A mask that ends in zeros clears that many digits.
bit_and_even : (a m : ℕ) → bit_and a (2 * m) ≡ 2 * bit_and (a / 2) m
bit_and_even a m =
    let e : 2 * m / 2 ≡ m = omega arith in
    omega (arith, low_digit a (2 * m), ap (λ t. bit_and (a / 2) t) e)

abbrev pub shift : ℕ → ℕ → ℕ
shift zero m = m
shift (suc k) m = 2 * shift k m

-- The mask of `k` ones.
abbrev pub ones : ℕ → ℕ
ones zero = 0
ones (suc k) = 2 * ones k + 1

bit_and_odd : (a m : ℕ) → bit_and a (2 * m + 1) ≡ 2 * bit_and (a / 2) m + a % 2
bit_and_odd a m =
    let e : (2 * m + 1) / 2 ≡ m = omega arith in
    omega (arith, low_digit a (2 * m + 1), ap (λ t. bit_and (a / 2) t) e)

bit_and-nil : (n a : ℕ) → a ≤ n → bit_and a 0 ≡ 0
bit_and-nil n zero h = refl
bit_and-nil zero (suc a) h = absurd (omega arith)
bit_and-nil (suc n) (suc a) h =
    omega (arith, low_digit (suc a) 0, bit_and-nil n (suc a / 2) (omega arith))

abbrev pow2 : ℕ → ℕ
pow2 zero = 1
pow2 (suc k) = 2 * pow2 k

-- `k` ones keep a number of at most `k` digits.
bit_and-ones : (k a : ℕ) → a < pow2 k → bit_and a (ones k) ≡ a
bit_and-ones zero a h = omega (arith, bit_and-nil a a (omega arith))
bit_and-ones (suc k) a h =
    omega (arith, bit_and_odd a (ones k), bit_and-ones k (a / 2) (omega arith))

abbrev halve : ℕ → ℕ → ℕ
halve zero a = a
halve (suc k) a = halve k (a / 2)

bit_and-shift : (k a m : ℕ) → bit_and a (shift k m) ≡ shift k (bit_and (halve k a) m)
bit_and-shift zero a m = refl
bit_and-shift (suc k) a m = omega (arith, bit_and_even a (shift k m), bit_and-shift k (a / 2) m)

-- `val & ~4095` on a 32-bit word.
pub bit_and-page : (a : ℕ) → a < 2 ^ 32 → bit_and a 0xffff_f000 ≡ a / 4096 * 4096
bit_and-page a h =
    omega (arith, bit_and-shift 12 a (ones 20), bit_and-ones 20 (halve 12 a) (omega arith))
