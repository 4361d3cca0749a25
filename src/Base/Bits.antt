-- ===== src/Base/Bits.antt =====
-- `|` of fields that do not overlap and `&` with a mask, as arithmetic, at every width.
use Prim.Native.Nat.{
  min, max, digits, bitwise, bit_and-bitwise, bit_or-bitwise, bit_xor, differ, bit_xor-bitwise,
}
use native.Mathlib.Nat.{
  pow-suc, one-le-pow, mul-one, div-add-mod, mod-lt, mod-eq_of_lt, add-mul-mod_self_left, add-zero,
}
use mathlib.Core.Path.{ap₂}
use soft_hier_release_test.Base.{
  ℕ, zero, suc, ◌+◌, ◌-◌, ◌*◌, ◌/◌, ◌%◌, ◌^◌, ◌≤◌, ◌<◌, bit_and, bit_or, ◌≡◌, refl, ap, ◌∙◌, arith,
}

-- The native operations stand for a recursion on binary digits. Its fuel is the first number.
module _ (z : ℕ → ℕ) (f : ℕ → ℕ → ℕ) where
  enough_digits : (n m a b : ℕ) → a ≤ n → a ≤ m → digits z f n a b ≡ digits z f m a b
  enough_digits zero zero a b p q = refl
  enough_digits zero (suc m) zero b p q = refl
  enough_digits zero (suc m) (suc a) b p q = absurd (omega arith)
  enough_digits (suc n) zero zero b p q = refl
  enough_digits (suc n) zero (suc a) b p q = absurd (omega arith)
  enough_digits (suc n) (suc m) zero b p q = refl
  enough_digits (suc n) (suc m) (suc a) b p q =
      omega (arith, enough_digits n m (suc a / 2) (b / 2) (omega arith) (omega arith))

  bitwise_low_digit :
      (a b : ℕ)
      → bitwise z f (suc a) b ≡ bitwise z f (suc a / 2) (b / 2) * 2 + f (suc a % 2) (b % 2)
  bitwise_low_digit a b =
      omega (arith, enough_digits a (suc a / 2) (suc a / 2) (b / 2) (omega arith) (omega arith))

zero-bit_and : (b : ℕ) → bit_and 0 b ≡ 0
zero-bit_and b = bit_and-bitwise 0 b

zero-bit_or : (b : ℕ) → bit_or 0 b ≡ b
zero-bit_or b = bit_or-bitwise 0 b

-- One binary digit of each operation.
pub bit_or_digit : (a b : ℕ) → bit_or a b ≡ bit_or (a / 2) (b / 2) * 2 + max (a % 2) (b % 2)
bit_or_digit zero b = omega (arith, zero-bit_or b, zero-bit_or (b / 2))
bit_or_digit (suc a) b = omega (
  arith,
  bit_or-bitwise (suc a) b,
  bit_or-bitwise (suc a / 2) (b / 2),
  bitwise_low_digit (λ y. y) max a b,
)

pub bit_and_digit : (a b : ℕ) → bit_and a b ≡ bit_and (a / 2) (b / 2) * 2 + min (a % 2) (b % 2)
bit_and_digit zero b = omega (arith, zero-bit_and b, zero-bit_and (b / 2))
bit_and_digit (suc a) b = omega (
  arith,
  bit_and-bitwise (suc a) b,
  bit_and-bitwise (suc a / 2) (b / 2),
  bitwise_low_digit (λ y. zero) min a b,
)

zero-bit_xor : (b : ℕ) → bit_xor 0 b ≡ b
zero-bit_xor b = bit_xor-bitwise 0 b

pub bit_xor_digit : (a b : ℕ) → bit_xor a b ≡ bit_xor (a / 2) (b / 2) * 2 + differ (a % 2) (b % 2)
bit_xor_digit zero b = omega (arith, zero-bit_xor b, zero-bit_xor (b / 2))
bit_xor_digit (suc a) b = omega (
  arith,
  bit_xor-bitwise (suc a) b,
  bit_xor-bitwise (suc a / 2) (b / 2),
  bitwise_low_digit (λ y. y) differ a b,
)

bit_or-zero_below : (n a : ℕ) → a ≤ n → bit_or a 0 ≡ a
bit_or-zero_below n zero h = zero-bit_or 0
bit_or-zero_below zero (suc a) h = absurd (omega arith)
bit_or-zero_below (suc n) (suc a) h =
    omega (arith, bit_or_digit (suc a) 0, bit_or-zero_below n (suc a / 2) (omega arith))

bit_and-zero_below : (n a : ℕ) → a ≤ n → bit_and a 0 ≡ 0
bit_and-zero_below n zero h = zero-bit_and 0
bit_and-zero_below zero (suc a) h = absurd (omega arith)
bit_and-zero_below (suc n) (suc a) h =
    omega (arith, bit_and_digit (suc a) 0, bit_and-zero_below n (suc a / 2) (omega arith))

pub bit_or-zero : (a : ℕ) → bit_or a 0 ≡ a
bit_or-zero a = bit_or-zero_below a a (omega arith)

pub bit_and-zero : (a : ℕ) → bit_and a 0 ≡ 0
bit_and-zero a = bit_and-zero_below a a (omega arith)

mul-pow_double : (q k : ℕ) → q * 2 ^ suc k ≡ 2 * (q * 2 ^ k)
mul-pow_double q k = omega (arith, ap (λ (t : ℕ). q * t) (pow-suc 2 k))

-- `r | (q << k)` is a sum if `r` fits in `k` bits.
pub low-bit_or-high : (k r q : ℕ) → r < 2 ^ k → bit_or r (q * 2 ^ k) ≡ r + q * 2 ^ k
low-bit_or-high zero r q fits =
    let none_left : r ≡ 0 = omega arith in rw none_left (omega (arith, zero-bit_or (q * 2 ^ 0)))
low-bit_or-high (suc k) r q fits = omega (
  arith,
  bit_or_digit r (q * 2 ^ suc k),
  mul-pow_double q k,
  pow-suc 2 k,
  ap (λ (t : ℕ). bit_or (r / 2) t) (halved q k),
  low-bit_or-high k (r / 2) q (omega (arith, pow-suc 2 k)),
)
  where
    halved : (q k : ℕ) → q * 2 ^ suc k / 2 ≡ q * 2 ^ k
    halved q k = omega (arith, mul-pow_double q k)

-- `(q << k) | r` is a sum if `r` fits in `k` bits.
pub high-bit_or-low : (k q r : ℕ) → r < 2 ^ k → bit_or (q * 2 ^ k) r ≡ q * 2 ^ k + r
high-bit_or-low zero q r fits =
    let none_left : r ≡ 0 = omega arith in rw none_left (omega (arith, bit_or-zero (q * 2 ^ 0)))
high-bit_or-low (suc k) q r fits = omega (
  arith,
  bit_or_digit (q * 2 ^ suc k) r,
  mul-pow_double q k,
  pow-suc 2 k,
  ap (λ (t : ℕ). bit_or t (r / 2)) (halved q k),
  high-bit_or-low k q (r / 2) (omega (arith, pow-suc 2 k)),
)
  where
    halved : (q k : ℕ) → q * 2 ^ suc k / 2 ≡ q * 2 ^ k
    halved q k = omega (arith, mul-pow_double q k)

mod_double : (a m : ℕ) → 0 < m → a % (2 * m) ≡ a / 2 % m * 2 + a % 2
mod_double a m pos =
    let split : a ≡ (a / 2 % m * 2 + a % 2) + 2 * m * (a / 2 / m) =
      omega (arith, div-add-mod (a / 2) m) in
    ap (λ (t : ℕ). t % (2 * m)) split
    ∙ add-mul-mod_self_left (a / 2 % m * 2 + a % 2) (2 * m) (a / 2 / m)
    ∙ mod-eq_of_lt (omega (arith, mod-lt (a / 2) pos))

-- `&` with a mask of the `k` lowest bits is the remainder by `2 ^ k`.
pub bit_and_ones : (k a : ℕ) → bit_and a (2 ^ k - 1) ≡ a % 2 ^ k
bit_and_ones zero a = omega (arith, bit_and-zero a)
bit_and_ones (suc k) a =
    let half_mask : (2 ^ suc k - 1) / 2 ≡ 2 ^ k - 1 = omega (arith, pow-suc 2 k, one-le-pow k 2) in
    let odd : (2 ^ suc k - 1) % 2 ≡ 1 = omega (arith, pow-suc 2 k, one-le-pow k 2) in
    let modulus : 2 ^ suc k ≡ 2 * 2 ^ k = omega (arith, pow-suc 2 k) in
    bit_and_digit a (2 ^ suc k - 1)
    ∙ omega (
      arith,
      odd,
      ap (λ (t : ℕ). bit_and (a / 2) t) half_mask,
      bit_and_ones k (a / 2),
      ap (λ (t : ℕ). a % t) modulus,
      mod_double a (2 ^ k) (omega (arith, one-le-pow k 2)),
    )

-- A mask that is shifted up by `k` bits keeps a shifted number's digits.
pub bit_and_shifted : (k a m : ℕ) → bit_and (a * 2 ^ k) (m * 2 ^ k) ≡ bit_and a m * 2 ^ k
bit_and_shifted zero a m = simp mul-one
bit_and_shifted (suc k) a m =
    let half_a : a * 2 ^ suc k / 2 ≡ a * 2 ^ k = omega (arith, mul-pow_double a k) in
    let half_m : m * 2 ^ suc k / 2 ≡ m * 2 ^ k = omega (arith, mul-pow_double m k) in
    bit_and_digit (a * 2 ^ suc k) (m * 2 ^ suc k)
    ∙ omega (
      arith,
      mul-pow_double a k,
      mul-pow_double m k,
      mul-pow_double (bit_and a m) k,
      ap₂ bit_and half_a half_m,
      bit_and_shifted k a m,
    )

-- A mask of high bits takes the low ones away.
pub bit_and-high_mask :
    (k q r m : ℕ) → r < 2 ^ k → bit_and (q * 2 ^ k + r) (m * 2 ^ k) ≡ bit_and q m * 2 ^ k
bit_and-high_mask zero q r m fits =
    let none_left : r ≡ 0 = omega arith in rw none_left (simp (mul-one, add-zero))
bit_and-high_mask (suc k) q r m fits =
    let half_a : (q * 2 ^ suc k + r) / 2 ≡ q * 2 ^ k + r / 2 = omega (arith, mul-pow_double q k) in
    let half_m : m * 2 ^ suc k / 2 ≡ m * 2 ^ k = omega (arith, mul-pow_double m k) in
    bit_and_digit (q * 2 ^ suc k + r) (m * 2 ^ suc k)
    ∙ omega (
      arith,
      mul-pow_double m k,
      mul-pow_double (bit_and q m) k,
      ap₂ bit_and half_a half_m,
      bit_and-high_mask k q (r / 2) m (omega (arith, pow-suc 2 k)),
    )

-- `&` of numbers in two parts.
pub bit_and-split :
    (k q r m n : ℕ)
    → r < 2 ^ k
    → n < 2 ^ k
    → bit_and (q * 2 ^ k + r) (m * 2 ^ k + n) ≡ bit_and q m * 2 ^ k + bit_and r n
bit_and-split zero q r m n fits small =
    let no_r : r ≡ 0 = omega arith in
    let no_n : n ≡ 0 = omega arith in
    rw (no_r, no_n) (omega (arith, bit_and-zero 0, ap₂ bit_and (whole q) (whole m)))
  where
    whole : (a : ℕ) → a * 2 ^ 0 + 0 ≡ a
    whole a = omega arith
bit_and-split (suc k) q r m n fits small =
    let half_a : (q * 2 ^ suc k + r) / 2 ≡ q * 2 ^ k + r / 2 = omega (arith, mul-pow_double q k) in
    let half_m : (m * 2 ^ suc k + n) / 2 ≡ m * 2 ^ k + n / 2 = omega (arith, mul-pow_double m k) in
    bit_and_digit (q * 2 ^ suc k + r) (m * 2 ^ suc k + n)
    ∙ omega (
      arith,
      mul-pow_double q k,
      mul-pow_double m k,
      mul-pow_double (bit_and q m) k,
      ap₂ bit_and half_a half_m,
      bit_and_digit r n,
      bit_and-split k q (r / 2) m (n / 2) (omega (arith, pow-suc 2 k)) (omega (arith, pow-suc 2 k)),
    )

pub round_down :
    (k j q r : ℕ)
    → r < 2 ^ k
    → q < 2 ^ j
    → bit_and (q * 2 ^ k + r) ((2 ^ j - 1) * 2 ^ k) ≡ q * 2 ^ k
round_down k j q r fits bound =
    bit_and-high_mask k q r (2 ^ j - 1) fits
    ∙ ap (λ (t : ℕ). t * 2 ^ k) (bit_and_ones j q ∙ mod-eq_of_lt bound)

pub pow_split : (i k : ℕ) → 2 ^ i * 2 ^ k ≡ 2 ^ (i + k)
pow_split i zero = simp (mul-one, add-zero)
pow_split i (suc k) =
    let next : i + suc k ≡ suc (i + k) = omega arith in
    rw next (omega (arith, mul-pow_double (2 ^ i) k, pow_split i k, pow-suc 2 (i + k)))
