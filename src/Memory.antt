-- ===== src/Memory.antt =====
-- Blocks of memory as lists of cells, for the buffers that elf32-riscv.c fills through pointers: a
-- write or a read outside a block is a fault. Words are little-endian, as on the hosts of the tool.
pub mod Frame
pub mod Splice
use soft_hier_release_test.Base.{ℕ, zero, suc, ◌+◌, ◌*◌, ◌/◌, ◌%◌, ◌<◌, List, [], ◌∷◌}

-- What a run of C code leaves: a value, `return FALSE`, or undefined behaviour.
pub data Outcome {ℓ} (A : Type ℓ) : Type ℓ where
  done : A → Outcome A
  failed : Outcome A
  fault : Outcome A

infixl 5 ◌>>=◌
abbrev pub ◌>>=◌ {ℓ κ} : {A : Type ℓ} {B : Type κ} → Outcome A → (A → Outcome B) → Outcome B
done a >>= f = f a
failed >>= f = failed
fault >>= f = fault

module _ {ℓ} {A : Type ℓ} where
  -- A store of one cell.
  unfoldable pub write : List A → ℕ → A → Outcome (List A)
  write [] i v = fault
  write (x ∷ xs) zero v = done (v ∷ xs)
  write (x ∷ xs) (suc i) v = do r ← write xs i v; done (x ∷ r)

  -- Stores to consecutive cells, in increasing order.
  unfoldable pub write_all : List A → ℕ → List A → Outcome (List A)
  unfolding write
  write_all m i [] = done m
  write_all m i (v ∷ vs) = do m' ← write m i v; write_all m' (suc i) vs

  -- A load of one cell.
  unfoldable pub read : List A → ℕ → Outcome A
  read [] i = fault
  read (x ∷ xs) zero = done x
  read (x ∷ xs) (suc i) = read xs i

-- The bytes of an `unsigned int`.
unfoldable pub le32 : ℕ → List ℕ
le32 w = (w % 256) ∷ (w / 256 % 256) ∷ (w / 65536 % 256) ∷ (w / 16777216 % 256) ∷ []

unfoldable pub le32_all : List ℕ → List ℕ
unfolding le32
le32_all [] = []
le32_all (w ∷ ws) =
    (w % 256) ∷ (w / 256 % 256) ∷ (w / 65536 % 256) ∷ (w / 16777216 % 256) ∷ le32_all ws

-- A store of an `unsigned int` at a byte offset.
unfoldable pub put_word : List ℕ → ℕ → ℕ → Outcome (List ℕ)
unfolding write_all le32
put_word m i w = write_all m i (le32 w)

-- A load of an `unsigned int` from the front of a block, with what is behind it.
unfoldable pub next_word : List ℕ → Outcome (ℕ × List ℕ)
next_word (a ∷ b ∷ c ∷ d ∷ r) = done (a + b * 256 + c * 65536 + d * 16777216, r)
next_word _ = fault

-- `n` words in a row.
unfoldable pub next_words : ℕ → List ℕ → Outcome (List ℕ)
unfolding next_word
next_words zero m = done []
next_words (suc n) m = do (w, r) ← next_word m; ws ← next_words n r; done (w ∷ ws)

-- The string at a `char *`, with what is behind its terminator.
unfoldable pub c_string : List ℕ → Outcome (List ℕ × List ℕ)
c_string [] = fault
c_string (zero ∷ r) = done ([], r)
c_string (suc c ∷ r) = do (s, r') ← c_string r; done (suc c ∷ s, r')

-- Every number of the list is below `n`.
abbrev pub AllBelow : ℕ → List ℕ → Type 0
AllBelow n [] = Unit {0}
AllBelow n (x ∷ xs) = (x < n) × AllBelow n xs

-- The bytes of a C string hold no terminator.
abbrev pub NoZero : List ℕ → Type 0
NoZero [] = Unit {0}
NoZero (x ∷ xs) = (0 < x) × NoZero xs
