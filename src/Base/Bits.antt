-- ===== src/Base/Bits.antt =====
-- `|` and `&` on numbers: the law for the lowest digit, and the two uses that the program makes of
-- them, a field placed beside another and the low bits of a number.
use Prim.Native.Nat.{
  ℕ, zero, suc, ◌+◌, ◌*◌, ◌/◌, ◌%◌, ◌≤◌, ◌<◌, min, max, bit_and, bit_or, digits, bit_and-bitwise,
  bit_or-bitwise,
}
use mathlib.Core.Path.{◌≡◌, refl, ap}
use native.Mathlib.Omega.{arith}

-- The count of digits to go is of no account once it covers the first number.
module _ (rest : ℕ → ℕ) (f : ℕ → ℕ → ℕ) where
  digits_enough : (n m a b : ℕ) → a ≤ n → a ≤ m → digits rest f n a b ≡ digits rest f m a b
  digits_enough zero zero a b h g = refl
  digits_enough zero (suc m) zero b h g = refl
  digits_enough (suc n) zero zero b h g = refl
  digits_enough (suc n) (suc m) zero b h g = refl
  digits_enough zero m (suc a) b h g = absurd (omega arith)
  digits_enough (suc n) zero (suc a) b h g = absurd (omega arith)
  digits_enough (suc n) (suc m) (suc a) b h g =
      omega (arith, digits_enough n m (suc a / 2) (b / 2) (omega arith) (omega arith))

zero-bit_or : (b : ℕ) → bit_or 0 b ≡ b
zero-bit_or b = bit_or-bitwise 0 b

pub bit_or_digits : (a b : ℕ) → bit_or a b ≡ bit_or (a / 2) (b / 2) * 2 + max (a % 2) (b % 2)
bit_or_digits zero b = omega (arith, zero-bit_or b, zero-bit_or (b / 2))
bit_or_digits (suc a) b = omega (
  arith,
  bit_or-bitwise (suc a) b,
  bit_or-bitwise (suc a / 2) (b / 2),
  digits_enough (λ r. r) max a (suc a / 2) (suc a / 2) (b / 2) (omega arith) (omega arith),
)

none-bit_and : (b : ℕ) → bit_and 0 b ≡ 0
none-bit_and b = bit_and-bitwise 0 b

pub bit_and_digits : (a b : ℕ) → bit_and a b ≡ bit_and (a / 2) (b / 2) * 2 + min (a % 2) (b % 2)
bit_and_digits zero b = omega (arith, none-bit_and b, none-bit_and (b / 2))
bit_and_digits (suc a) b = omega (
  arith,
  bit_and-bitwise (suc a) b,
  bit_and-bitwise (suc a / 2) (b / 2),
  digits_enough (λ r. zero) min a (suc a / 2) (suc a / 2) (b / 2) (omega arith) (omega arith),
)

-- x << k, and the mask of k ones.
abbrev pub shifted : ℕ → ℕ → ℕ
shifted zero x = x
shifted (suc k) x = shifted k x * 2

abbrev pub ones : ℕ → ℕ
ones zero = 0
ones (suc k) = ones k * 2 + 1

bit_or-zero : (k a : ℕ) → a ≤ k → bit_or a 0 ≡ a
bit_or-zero k zero h = zero-bit_or 0
bit_or-zero zero (suc a) h = absurd (omega arith)
bit_or-zero (suc k) (suc a) h =
    omega (arith, bit_or_digits (suc a) 0, bit_or-zero k (suc a / 2) (omega arith))

-- An even first number, and a mask that ends in one.
even_half : (a : ℕ) → a * 2 / 2 ≡ a
even_half a = omega arith

odd_half : (a : ℕ) → (a * 2 + 1) / 2 ≡ a
odd_half a = omega arith

bit_or-even : (a b : ℕ) → bit_or (a * 2) b ≡ bit_or a (b / 2) * 2 + b % 2
bit_or-even a b = omega (arith, bit_or_digits (a * 2) b, ap (λ c. bit_or c (b / 2)) (even_half a))

bit_and-odd : (a m : ℕ) → bit_and a (m * 2 + 1) ≡ bit_and (a / 2) m * 2 + a % 2
bit_and-odd a m =
    omega (arith, bit_and_digits a (m * 2 + 1), ap (λ c. bit_and (a / 2) c) (odd_half m))

-- A number below 2^k takes the place that the shift leaves.
pub bit_or-shifted : (k x y : ℕ) → y < shifted k 1 → bit_or (shifted k x) y ≡ shifted k x + y
bit_or-shifted zero x zero h = omega (arith, bit_or-zero x x (omega arith))
bit_or-shifted zero x (suc y) h = absurd (omega arith)
bit_or-shifted (suc k) x y h =
    omega (arith, bit_or-even (shifted k x) y, bit_or-shifted k x (y / 2) (omega arith))

-- Two numbers shifted alike.
pub bit_or-shifted_both : (k x y : ℕ) → bit_or (shifted k x) (shifted k y) ≡ shifted k (bit_or x y)
bit_or-shifted_both zero x y = refl
bit_or-shifted_both (suc k) x y = omega (
  arith,
  bit_or-even (shifted k x) (shifted k y * 2),
  ap (bit_or (shifted k x)) (even_half (shifted k y)),
  bit_or-shifted_both k x y,
)

bit_and-zero : (k x : ℕ) → x ≤ k → bit_and x 0 ≡ 0
bit_and-zero k zero h = none-bit_and 0
bit_and-zero zero (suc x) h = absurd (omega arith)
bit_and-zero (suc k) (suc x) h =
    omega (arith, bit_and_digits (suc x) 0, bit_and-zero k (suc x / 2) (omega arith))

-- Under the mask of k ones a number is below 2^k, and a number below 2^k stays as it is.
pub bit_and-ones-lt : (k x : ℕ) → bit_and x (ones k) < shifted k 1
bit_and-ones-lt zero x = omega (arith, bit_and-zero x x (omega arith))
bit_and-ones-lt (suc k) x = omega (arith, bit_and-odd x (ones k), bit_and-ones-lt k (x / 2))

pub bit_and-ones_of_lt : (k x : ℕ) → x < shifted k 1 → bit_and x (ones k) ≡ x
bit_and-ones_of_lt zero zero h = none-bit_and 0
bit_and-ones_of_lt zero (suc x) h = absurd (omega arith)
bit_and-ones_of_lt (suc k) x h =
    omega (arith, bit_and-odd x (ones k), bit_and-ones_of_lt k (x / 2) (omega arith))
