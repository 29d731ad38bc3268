-- ===== src/Common/Digits.antt =====
-- `&` and `|` of numbers whose highest bit is a flag.
use Prim.Native.Nat.{
  ℕ, zero, suc, ◌+◌, ◌-◌, ◌*◌, ◌/◌, ◌%◌, ◌^◌, ◌≤◌, ◌<◌, min, max, bit_and, bit_or, digits,
  bit_and-bitwise, bit_or-bitwise,
}
use mathlib.Core.Path.{◌≡◌, refl}
use native.Mathlib.Omega.{arith}
use native.Mathlib.Nat.{pow-suc, one-le-pow}

-- Fuel beyond the number of digits changes nothing.
enough_fuel :
    (z : ℕ → ℕ) (f : ℕ → ℕ → ℕ) (a b i j : ℕ) → a ≤ i → a ≤ j → digits z f i a b ≡ digits z f j a b
enough_fuel z f zero b zero zero hi hj = refl
enough_fuel z f zero b zero (suc j) hi hj = refl
enough_fuel z f zero b (suc i) zero hi hj = refl
enough_fuel z f zero b (suc i) (suc j) hi hj = refl
enough_fuel z f (suc a) b zero j hi hj = absurd (omega arith)
enough_fuel z f (suc a) b (suc i) zero hi hj = absurd (omega arith)
enough_fuel z f (suc a) b (suc i) (suc j) hi hj =
    omega (arith, enough_fuel z f (suc a / 2) (b / 2) i j (omega arith) (omega arith))

bit_and_digit : (a b : ℕ) → bit_and a b ≡ 2 * bit_and (a / 2) (b / 2) + min (a % 2) (b % 2)
bit_and_digit zero b = omega (arith, bit_and-bitwise 0 b, bit_and-bitwise 0 (b / 2))
bit_and_digit (suc a) b = omega (
  arith,
  bit_and-bitwise (suc a) b,
  bit_and-bitwise (suc a / 2) (b / 2),
  enough_fuel (λ y. 0) min (suc a / 2) (b / 2) (suc a / 2) a (omega arith) (omega arith),
)

bit_or_digit : (a b : ℕ) → bit_or a b ≡ 2 * bit_or (a / 2) (b / 2) + max (a % 2) (b % 2)
bit_or_digit zero b = omega (arith, bit_or-bitwise 0 b, bit_or-bitwise 0 (b / 2))
bit_or_digit (suc a) b = omega (
  arith,
  bit_or-bitwise (suc a) b,
  bit_or-bitwise (suc a / 2) (b / 2),
  enough_fuel (λ y. y) max (suc a / 2) (b / 2) (suc a / 2) a (omega arith) (omega arith),
)

half_flag : (k b : ℕ) → (b + 2 ^ suc k) / 2 ≡ b / 2 + 2 ^ k
half_flag k b = omega (arith, pow-suc 2 k)

low_flag : (k b : ℕ) → (b + 2 ^ suc k) % 2 ≡ b % 2
low_flag k b = omega (arith, pow-suc 2 k)

half_lt : (k a : ℕ) → a < 2 ^ suc k → a / 2 < 2 ^ k
half_lt k a h = omega (arith, pow-suc 2 k)

-- `&` keeps a flag that both have, and loses one that only the second has.
pub bit_and_flags :
    (k a b : ℕ) → a < 2 ^ k → b < 2 ^ k → bit_and (a + 2 ^ k) (b + 2 ^ k) ≡ bit_and a b + 2 ^ k
bit_and_flags zero zero zero ha hb = refl
bit_and_flags zero zero (suc b) ha hb = absurd (omega arith)
bit_and_flags zero (suc a) b ha hb = absurd (omega arith)
bit_and_flags (suc k) a b ha hb =
    rw
      (
        bit_and_digit (a + 2 ^ suc k) (b + 2 ^ suc k),
        half_flag k a,
        half_flag k b,
        low_flag k a,
        low_flag k b,
      )
      omega
      (
        arith,
        pow-suc 2 k,
        bit_and_digit a b,
        bit_and_flags k (a / 2) (b / 2) (half_lt k a ha) (half_lt k b hb),
      )

pub bit_and_flag : (k a b : ℕ) → a < 2 ^ k → b < 2 ^ k → bit_and a (b + 2 ^ k) ≡ bit_and a b
bit_and_flag zero zero b ha hb = omega (
  arith,
  bit_and_digit 0 (b + 1),
  bit_and_digit 0 b,
  bit_and-bitwise 0 (b + 1),
  bit_and-bitwise 0 b,
)
bit_and_flag zero (suc a) b ha hb = absurd (omega arith)
bit_and_flag (suc k) a b ha hb =
    rw (bit_and_digit a (b + 2 ^ suc k), half_flag k b, low_flag k b) omega
      (arith, bit_and_digit a b, bit_and_flag k (a / 2) (b / 2) (half_lt k a ha) (half_lt k b hb))

half_pow : (k : ℕ) → 2 ^ suc k / 2 ≡ 2 ^ k
half_pow k = omega (arith, pow-suc 2 k)

low_pow : (k : ℕ) → 2 ^ suc k % 2 ≡ 0
low_pow k = omega (arith, pow-suc 2 k)

-- `|` adds a flag that is not there.
pub bit_or_flag : (k a : ℕ) → a < 2 ^ k → bit_or a (2 ^ k) ≡ a + 2 ^ k
bit_or_flag zero zero ha = refl
bit_or_flag zero (suc a) ha = absurd (omega arith)
bit_or_flag (suc k) a ha =
    rw (bit_or_digit a (2 ^ suc k), half_pow k, low_pow k) omega
      (arith, pow-suc 2 k, bit_or_flag k (a / 2) (half_lt k a ha))

bit_and-none : (n a : ℕ) → a ≤ n → bit_and a 0 ≡ 0
bit_and-none n zero h = refl
bit_and-none zero (suc a) h = absurd (omega arith)
bit_and-none (suc n) (suc a) h =
    omega (arith, bit_and_digit (suc a) 0, bit_and-none n (suc a / 2) (omega arith))

-- What `&` leaves fits where its second argument fits.
pub bit_and-lt : (k a b : ℕ) → b < 2 ^ k → bit_and a b < 2 ^ k
bit_and-lt zero a zero hb = omega (arith, bit_and-none a a (omega arith))
bit_and-lt zero a (suc b) hb = absurd (omega arith)
bit_and-lt (suc k) a b hb =
    omega (arith, pow-suc 2 k, bit_and_digit a b, bit_and-lt k (a / 2) (b / 2) (half_lt k b hb))

-- `&` with ones below, and with ones above three zeros, `& !7`.
pub bit_and_ones : (k a : ℕ) → a < 2 ^ k → bit_and a (2 ^ k - 1) ≡ a
bit_and_ones zero zero h = refl
bit_and_ones zero (suc a) h = absurd (omega arith)
bit_and_ones (suc k) a h =
    let half : (2 ^ suc k - 1) / 2 ≡ 2 ^ k - 1 = omega (arith, pow-suc 2 k, one-le-pow k 2) in
    let odd : (2 ^ suc k - 1) % 2 ≡ 1 = omega (arith, pow-suc 2 k, one-le-pow k 2) in
    rw (bit_and_digit a (2 ^ suc k - 1), half, odd) omega
      (arith, bit_and_ones k (a / 2) (half_lt k a h))

pub bit_and_round : (a : ℕ) → a < 2 ^ 64 → bit_and a (2 ^ 64 - 8) ≡ 8 * (a / 8)
bit_and_round a h = omega (
  arith,
  bit_and_digit a (2 ^ 64 - 8),
  bit_and_digit (a / 2) (2 ^ 63 - 4),
  bit_and_digit (a / 2 / 2) (2 ^ 62 - 2),
  bit_and_ones 61 (a / 2 / 2 / 2) (omega arith),
)
