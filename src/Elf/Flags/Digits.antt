-- ===== src/Elf/Flags/Digits.antt =====
-- The digits of the ELF flags (elf32-riscv.c) that the merging reads.
use Prim.Native.Nat.{bit_xor, max, differ}
use soft_hier_release_test.Base.{
  ℕ, zero, suc, ◌/◌, ◌%◌, ◌<◌, bit_and, bit_or, ◌≡◌, refl, sym, ap, arith,
}
use soft_hier_release_test.Base.Bits.{
  bit_or_digit, bit_and_digit, bit_xor_digit, bit_and_ones, bit_or-zero,
}

-- The float ABI of the flags, and whether there are compressed instructions.
abbrev pub float_of : ℕ → ℕ
float_of flags = flags / 2 % 4

abbrev pub rvc_of : ℕ → ℕ
rvc_of flags = flags % 2

pub merged-rvc : (old new : ℕ) → rvc_of (bit_or old (bit_and new 1)) ≡ max (rvc_of old) (rvc_of new)
merged-rvc old new = omega (arith, bit_or_digit old (bit_and new 1), bit_and_ones 1 new)

pub merged-float : (old new : ℕ) → float_of (bit_or old (bit_and new 1)) ≡ float_of old
merged-float old new =
    let small : bit_and new 1 / 2 ≡ 0 = omega (arith, bit_and_ones 1 new) in
    omega (
      arith,
      bit_or_digit old (bit_and new 1),
      bit_and_ones 1 new,
      ap (λ (t : ℕ). bit_or (old / 2) t) small,
      bit_or-zero (old / 2),
    )

-- The two digits of the float ABI are the same.
same-digit : (a b : ℕ) → a < 2 → b < 2 → differ a b ≡ 0 → a ≡ b
same-digit zero b p q e = sym e
same-digit (suc zero) zero p q e = omega (arith, e)
same-digit (suc zero) (suc zero) p q e = refl
same-digit (suc zero) (suc (suc b)) p q e = absurd (omega arith)
same-digit (suc (suc a)) b p q e = absurd (omega arith)

differ-lt : (a b : ℕ) → a < 2 → b < 2 → differ a b < 2
differ-lt zero b p q = q
differ-lt (suc zero) zero p q = p
differ-lt (suc zero) (suc zero) p q = omega arith
differ-lt (suc zero) (suc (suc b)) p q = absurd (omega arith)
differ-lt (suc (suc a)) b p q = absurd (omega arith)

-- The test of the float ABI.
pub float_test : (a b : ℕ) → bit_and (bit_xor a b) 6 ≡ 0 → float_of a ≡ float_of b
float_test a b none_left =
    let c = a / 2 in
    let d = b / 2 in
    let half : bit_xor a b / 2 ≡ bit_xor c d =
      omega (arith, bit_xor_digit a b, differ-lt (a % 2) (b % 2) (omega arith) (omega arith)) in
    let clear : bit_xor c d % 4 ≡ 0 = omega (
      arith,
      none_left,
      bit_and_digit (bit_xor a b) 6,
      ap (λ (t : ℕ). bit_and t 3) half,
      bit_and_ones 2 (bit_xor c d),
    ) in
    let low = differ-lt (c % 2) (d % 2) (omega arith) (omega arith) in
    let high = differ-lt (c / 2 % 2) (d / 2 % 2) (omega arith) (omega arith) in
    let first = bit_xor_digit c d in
    let second = bit_xor_digit (c / 2) (d / 2) in
    let one =
      same-digit (c % 2) (d % 2) (omega arith) (omega arith)
        (omega (arith, clear, low, high, first, second)) in
    let two =
      same-digit (c / 2 % 2) (d / 2 % 2) (omega arith) (omega arith)
        (omega (arith, clear, low, high, first, second)) in
    omega (arith, one, two)
