-- ===== src/Base/Bits.antt =====
-- Single bits of an unsigned word, and how `&`, `|` and `!` act on them.
use Prim.Native.Nat.{
  ℕ, zero, suc, ◌+◌, ◌-◌, ◌*◌, ◌/◌, ◌%◌, ◌^◌, ◌≤◌, ◌<◌, min, max, bit_and, bit_or, digits,
  bit_and-bitwise, bit_or-bitwise,
}
use mathlib.Core.Path.{◌≡◌, refl, ap, ◌∙◌}
use mathlib.Core.Bool.{Bool, false, not, ◌&&◌, ◌||◌}
use native.Mathlib.Omega.{arith}
use native.Mathlib.Nat.{pow-suc}
use opencord_server.Base.Test.{nat_eqb}

-- Bit i of a, counted from the lowest.
unfoldable pub test_bit : ℕ → ℕ → Bool
test_bit a zero = nat_eqb (a % 2) 1
test_bit a (suc i) = test_bit (a / 2) i

pub test_bit-zero : (i : ℕ) → test_bit 0 i ≡ false
unfolding test_bit
test_bit-zero zero = refl
test_bit-zero (suc i) = test_bit-zero i

-- The native operations recurse on digits, on fuel; any fuel from the first operand on will do.
module _ (z : ℕ → ℕ) (f : ℕ → ℕ → ℕ) where
  same_digits : (x j k y : ℕ) → x ≤ min j k → digits z f j x y ≡ digits z f k x y
  same_digits zero zero zero y le = refl
  same_digits zero zero (suc k) y le = refl
  same_digits zero (suc j) zero y le = refl
  same_digits zero (suc j) (suc k) y le = refl
  same_digits (suc x) zero k y le = absurd (omega arith)
  same_digits (suc x) (suc j) zero y le = absurd (omega arith)
  same_digits (suc x) (suc j) (suc k) y le =
      ap (λ high. high * 2 + f (suc x % 2) (y % 2))
        (same_digits (suc x / 2) j k (y / 2) (omega arith))

-- `&` and `|` on the lowest digit and on the rest.
bit_and_step : (x y : ℕ) → bit_and x y ≡ bit_and (x / 2) (y / 2) * 2 + min (x % 2) (y % 2)
bit_and_step zero y = omega (arith, bit_and-bitwise 0 y, bit_and-bitwise 0 (y / 2))
bit_and_step (suc x) y =
    let rest = same_digits (λ _. zero) min (suc x / 2) x (suc x / 2) (y / 2) (omega arith) in
    omega (arith, rest, bit_and-bitwise (suc x) y, bit_and-bitwise (suc x / 2) (y / 2))

bit_or_step : (x y : ℕ) → bit_or x y ≡ bit_or (x / 2) (y / 2) * 2 + max (x % 2) (y % 2)
bit_or_step zero y = omega (arith, bit_or-bitwise 0 y, bit_or-bitwise 0 (y / 2))
bit_or_step (suc x) y =
    let rest = same_digits (λ d. d) max (suc x / 2) x (suc x / 2) (y / 2) (omega arith) in
    omega (arith, rest, bit_or-bitwise (suc x) y, bit_or-bitwise (suc x / 2) (y / 2))

pub test_bit-bit_and : (i a b : ℕ) → test_bit (bit_and a b) i ≡ (test_bit a i && test_bit b i)
unfolding test_bit
test_bit-bit_and zero a b = ground (arith, bit_and_step a b)
test_bit-bit_and (suc i) a b =
    let half : bit_and a b / 2 ≡ bit_and (a / 2) (b / 2) = omega (arith, bit_and_step a b) in
    rw half (test_bit-bit_and i (a / 2) (b / 2))

pub test_bit-bit_or : (i a b : ℕ) → test_bit (bit_or a b) i ≡ (test_bit a i || test_bit b i)
unfolding test_bit
test_bit-bit_or zero a b = ground (arith, bit_or_step a b)
test_bit-bit_or (suc i) a b =
    let half : bit_or a b / 2 ≡ bit_or (a / 2) (b / 2) = omega (arith, bit_or_step a b) in
    rw half (test_bit-bit_or i (a / 2) (b / 2))

-- `!a` on a w-bit word.
unfoldable pub bit_not : ℕ → ℕ → ℕ
bit_not w a = 2 ^ w - 1 - a

-- Below the width, `!` flips the bit.
pub test_bit-bit_not :
    (w i a : ℕ) → i < w → a < 2 ^ w → test_bit (bit_not w a) i ≡ not (test_bit a i)
unfolding test_bit bit_not
test_bit-bit_not zero i a h lt = absurd (omega arith)
test_bit-bit_not (suc w) zero a h lt = ground (arith, pow-suc 2 w)
test_bit-bit_not (suc w) (suc i) a h lt =
    let half : (2 ^ suc w - 1 - a) / 2 ≡ 2 ^ w - 1 - a / 2 = omega (arith, pow-suc 2 w) in
    rw half (test_bit-bit_not w i (a / 2) (omega arith) (omega (arith, pow-suc 2 w)))

-- `a & (1 << i) != 0` tests bit i.
bit_and-zero : (a : ℕ) → bit_and a 0 ≡ 0
bit_and-zero a = zero_fuel a a (omega arith)
  where
    zero_fuel : (n a : ℕ) → a ≤ n → bit_and a 0 ≡ 0
    zero_fuel n zero h = refl
    zero_fuel zero (suc a) h = absurd (omega arith)
    zero_fuel (suc n) (suc a) h =
        omega (arith, bit_and_step (suc a) 0, zero_fuel n (suc a / 2) (omega arith))

pub bit_and-pow : (i a : ℕ) → not (nat_eqb (bit_and a (2 ^ i)) 0) ≡ test_bit a i
unfolding test_bit
bit_and-pow zero a = ground (arith, bit_and_step a 1, bit_and-zero (a / 2))
bit_and-pow (suc i) a =
    let half : 2 ^ suc i / 2 ≡ 2 ^ i = omega (arith, pow-suc 2 i) in
    let even : 2 ^ suc i % 2 ≡ 0 = omega (arith, pow-suc 2 i) in
    ground (arith, bit_and_step a (2 ^ suc i), half, even, bit_and-pow i (a / 2))

-- Words stay words.
pub bit_or-lt : (w a b : ℕ) → a < 2 ^ w → b < 2 ^ w → bit_or a b < 2 ^ w
bit_or-lt zero a b p q = ground (arith, bit_or_step a b)
bit_or-lt (suc w) a b p q = omega (
  arith,
  bit_or_step a b,
  pow-suc 2 w,
  bit_or-lt w (a / 2) (b / 2) (omega (arith, pow-suc 2 w)) (omega (arith, pow-suc 2 w)),
)

pub bit_and-lt : (w a b : ℕ) → a < 2 ^ w → bit_and a b < 2 ^ w
bit_and-lt zero zero b p = omega (arith, bit_and-bitwise 0 b)
bit_and-lt zero (suc a) b p = absurd (omega arith)
bit_and-lt (suc w) a b p = omega (
  arith,
  bit_and_step a b,
  pow-suc 2 w,
  bit_and-lt w (a / 2) (b / 2) (omega (arith, pow-suc 2 w)),
)

pub bit_not-lt : (w a : ℕ) → bit_not w a < 2 ^ w
unfolding bit_not
bit_not-lt zero a = omega arith
bit_not-lt (suc w) a = omega (arith, pow-suc 2 w, bit_not-lt w a)

pub test_bit-pow : (i j : ℕ) → test_bit (2 ^ i) j ≡ nat_eqb i j
unfolding test_bit
test_bit-pow zero zero = refl
test_bit-pow zero (suc j) = test_bit-zero j ∙ ground arith
test_bit-pow (suc i) zero = ground (arith, pow-suc 2 i)
test_bit-pow (suc i) (suc j) =
    let half : 2 ^ suc i / 2 ≡ 2 ^ i = omega (arith, pow-suc 2 i) in
    rw half (test_bit-pow i j ∙ ground arith)

-- A word is determined by its bits.
pub test_bit-ext :
    (w a b : ℕ) → a < 2 ^ w → b < 2 ^ w → ((i : ℕ) → i < w → test_bit a i ≡ test_bit b i) → a ≡ b
test_bit-ext zero a b p q h = omega arith
test_bit-ext (suc w) a b p q h =
    let rest =
      test_bit-ext w (a / 2) (b / 2) (omega (arith, pow-suc 2 w)) (omega (arith, pow-suc 2 w))
        (λ i hi. unfold test_bit in h (suc i) (omega arith)) in
    let low : nat_eqb (a % 2) 1 ≡ nat_eqb (b % 2) 1 = unfold test_bit in h 0 (omega arith) in
    ground (arith, rest, low)
