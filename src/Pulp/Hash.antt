-- ===== src/Pulp/Hash.antt =====
-- The hash of a symbol's name, its chain in a table, and the search for a name in a chain
-- (elf32-riscv.c, `hash_sdbm` and the loops over `PtEntry`).
use soft_hier_release_test.Base.{
  ℕ, ◌+◌, ◌-◌, ◌*◌, ◌%◌, ◌^◌, ◌<◌, ◌≡◌, refl, arith, Bool, true, false, ◌&&◌, List, [], ◌∷◌, ltb,
  ◌==◌, if◌then◌else◌, u64, ◌<<<◌, ◌↔◌, ap, ◌∙◌, ==_iff,
}

-- A name is the bytes of a `char *` before its terminator.
abbrev pub Name : Type 0
Name = List ℕ

-- `HASH_IMPORT_E`, the number of chains of a table.
abbrev pub hash_import_e : ℕ
hash_import_e = 1024

-- `c = *str++`: a `char` is signed, so a byte from 128 on is negative in the sum of 64 bits.
unfoldable pub char_to_long : ℕ → ℕ
char_to_long c = if ltb c 128 then c else 2 ^ 64 - 256 + c

-- `hash = c + (hash << 6) + (hash << 16) - hash` on an `unsigned long`.
unfoldable pub hash_step : ℕ → ℕ → ℕ
unfolding char_to_long
hash_step hash c = u64 (char_to_long c + (hash <<< 6) + (hash <<< 16) + (2 ^ 64 - hash))

hash_loop : ℕ → Name → ℕ
unfolding hash_step
hash_loop hash [] = hash
hash_loop hash (c ∷ str) = hash_loop (hash_step hash c) str

unfoldable pub hash_sdbm : Name → ℕ
unfolding hash_loop
hash_sdbm str = hash_loop 0 str % hash_import_e

-- `strcmp (a, b) == 0`.
unfoldable pub same_name : Name → Name → Bool
same_name [] [] = true
same_name [] (y ∷ ys) = false
same_name (x ∷ xs) [] = false
same_name (x ∷ xs) (y ∷ ys) = x == y && same_name xs ys

pub same_name_iff : (a b : Name) → (same_name a b ≡ true) ↔ (a ≡ b)
unfolding same_name
same_name_iff [] [] = ground arith
same_name_iff [] (y ∷ ys) = ground arith
same_name_iff (x ∷ xs) [] = ground arith
same_name_iff (x ∷ xs) (y ∷ ys) = ground (arith, same_name_iff xs ys, ==_iff x y)

pub hash_sdbm-lt : (str : Name) → hash_sdbm str < hash_import_e
unfolding hash_sdbm
hash_sdbm-lt str = omega arith

-- The polynomial in 63 of the characters, modulo the number of chains.
abbrev pub poly63 : ℕ → Name → ℕ
poly63 h [] = h
poly63 h (c ∷ str) = poly63 ((h * 63 + c) % hash_import_e) str

abbrev pub IsAscii : Name → Type 0
IsAscii [] = Unit {0}
IsAscii (c ∷ str) = (c < 128) × IsAscii str

hash_step_mod : (h c : ℕ) → h < 2 ^ 64 → c < 128 → hash_step h c % 1024 ≡ (h % 1024 * 63 + c) % 1024
unfolding hash_step
hash_step_mod h c hh hc = ground arith

hash_step-lt : (h c : ℕ) → hash_step h c < 2 ^ 64
unfolding hash_step
hash_step-lt h c = omega arith

hash_loop_mod :
    (h : ℕ) (str : Name)
    → h < 2 ^ 64
    → IsAscii str
    → hash_loop h str % hash_import_e ≡ poly63 (h % hash_import_e) str
unfolding hash_loop
hash_loop_mod h [] hh a = refl
hash_loop_mod h (c ∷ str) hh a =
    hash_loop_mod (hash_step h c) str (hash_step-lt h c) a.1
    ∙ ap (λ (t : ℕ). poly63 t str) (hash_step_mod h c hh a.0)

-- For a name of ASCII characters the wrap-around of the 64-bit sum does not show: the chain is the
-- one of the polynomial in 63 of the characters modulo 1024.
pub hash_sdbm-eq-poly63 : (str : Name) → IsAscii str → hash_sdbm str ≡ poly63 0 str
unfolding hash_sdbm
hash_sdbm-eq-poly63 str a = hash_loop_mod 0 str (omega arith) a
