-- ===== src/Pulp/Import/Sections/Size.antt =====
-- The sizes of the import sections, in terms of what they are to hold.
use soft_hier_release_test.Base.{
  ℕ, zero, suc, ◌+◌, ◌*◌, ◌^◌, ◌≤◌, ◌<◌, Bool, true, false, some, List, [], ◌∷◌, ◌++◌, length, ◌≡◌,
  refl, sym, ap, ap₂, ◌∙◌, arith, inl, inr, Bool-cases, length-append, length-map, u32, align4,
}
use mathlib.Core.List.{flatten}
use soft_hier_release_test.Bfd.{Rela}
use soft_hier_release_test.Pulp.Import.{ImportEntry, ImportTable, is_pair}
use soft_hier_release_test.Pulp.Import.Sections.{
  pairs_with, is_empty, Sizes, size_refs, size_import, size_import_chain, size_import_chains,
  import_sections_size,
}
use soft_hier_release_test.Pulp.Import.Sections.Spec.{
  Code, codes_of, codes_of-cons, after, length-after, Import, imports_of, code_word, import_words,
  relocs_body, cons_import-some,
}

size_refs-after :
    (r : Rela) (rs : List Rela) (size : ℕ)
    → size_refs rs (pairs_with r rs, size) ≡ size_refs (after r rs) (false, size)
size_refs-after r [] size = refl
size_refs-after r (r' ∷ rs) size = elim (Bool-cases (is_pair r r')) [
  | inl pair ↦ rw pair (unfold size_refs in refl)
  | inr single ↦ rw single
]

-- The size of one name's relocations.
size_refs_lem :
    (n : ℕ) (rs : List Rela) (cs : List Code) (size : ℕ)
    → length rs ≤ n
    → codes_of rs ≡ some cs
    → size + 4 * length cs < 2 ^ 32
    → size_refs rs (false, size) ≡ (false, size + 4 * length cs)
unfolding size_refs
size_refs_lem n [] (c ∷ cs) size bound coded fits = cc
size_refs_lem n [] [] size bound coded fits = ground arith
size_refs_lem zero (r ∷ rs) cs size bound coded fits = absurd (omega arith)
size_refs_lem (suc n) (r ∷ rs) cs size bound coded fits =
    let (code, tail, is_code, rest, split) = codes_of-cons r rs cs coded in
    let len : length cs ≡ suc (length tail) = ap length split in
    size_refs-after r rs (u32 (size + 4))
    ∙ size_refs_lem n (after r rs) tail (u32 (size + 4)) (omega (arith, length-after r rs)) rest
        (omega arith)
    ∙ ap (λ (k : ℕ). let p : Bool × ℕ = (false, k) in p) (omega arith)

-- The bytes of the names section before its padding.
abbrev pub names_bytes : List Import → ℕ
names_bytes [] = 0
names_bytes (i ∷ is) = 4 + (length i.0 + 1) + names_bytes is

abbrev sizes : ℕ → ℕ → ℕ → Sizes
sizes a b n = record { name_size = a; ref_size = b; n_imp = n; skip = false }

length-le_names_bytes : (is : List Import) → length is ≤ names_bytes is
length-le_names_bytes [] = omega arith
length-le_names_bytes (i ∷ is) = omega (arith, length-le_names_bytes is)

sizes_eq : {a a' b b' n n' : ℕ} → a ≡ a' → b ≡ b' → n ≡ n' → sizes a b n ≡ sizes a' b' n'
sizes_eq p q r i = record { name_size = p i; ref_size = q i; n_imp = r i; skip = false }

size_import-skip :
    (e : ImportEntry) (s : Sizes) → is_empty e.refs ≡ true → size_import 0 false e s ≡ s
unfolding size_import
size_import-skip e s h = rw h

size_import-entry :
    (e : ImportEntry) (cs : List Code) (a b n : ℕ)
    → is_empty e.refs ≡ false
    → codes_of e.refs ≡ some cs
    → a + (4 + (length e.name + 1)) < 2 ^ 32
    → b + 4 * suc (length cs) < 2 ^ 32
    → n + 1 < 2 ^ 32
    → size_import 0 false e (sizes a b n)
      ≡ sizes (a + (4 + (length e.name + 1))) (b + 4 * suc (length cs)) (n + 1)
unfolding size_import
size_import-entry e cs a b n some_here coded ha hb hn =
    rw
      (
        some_here,
        size_refs_lem (length e.refs) e.refs cs (u32 (b + 2 + 2)) (omega arith) coded (omega arith),
      )
      (sizes_eq (omega arith) (omega arith) (omega arith))

size_import_chain_lem :
    (es : List ImportEntry) (is : List Import) (a b n m : ℕ)
    → imports_of es ≡ some is
    → a + names_bytes is < 2 ^ 32
    → b + 4 * length (relocs_body m is) < 2 ^ 32
    → n + length is < 2 ^ 32
    → size_import_chain 0 false es (sizes a b n)
      ≡ sizes (a + names_bytes is) (b + 4 * length (relocs_body m is)) (n + length is)
unfolding size_import_chain
size_import_chain_lem [] (i ∷ is) a b n m known ha hb hn = cc
size_import_chain_lem [] [] a b n m known ha hb hn =
    sizes_eq (omega arith) (omega arith) (omega arith)
size_import_chain_lem (e ∷ es) is a b n m known ha hb hn = elim (Bool-cases (is_empty e.refs)) [
  | inl none_here ↦
      rw (size_import-skip e (sizes a b n) none_here)
        (size_import_chain_lem es is a b n m (rw none_here at known) ha hb hn)
  | inr some_here ↦
      let (cs, tail, coded, rest, split) =
        cons_import-some e.name (codes_of e.refs) (imports_of es) is (rw some_here at known) in
      let i : Import = (e.name, cs) in
      let bytes : names_bytes is ≡ 4 + (length e.name + 1) + names_bytes tail =
        ap names_bytes split in
      let count : length is ≡ suc (length tail) = ap length split in
      let words : length (relocs_body m is) ≡ suc (length cs) + length (relocs_body (m + 1) tail) =
        ap (λ (t : List Import). length (relocs_body m t)) split
        ∙ length-append (import_words m cs) (relocs_body (m + 1) tail)
        ∙ ap (λ (k : ℕ). suc k + length (relocs_body (m + 1) tail)) (length-map code_word cs) in
      rw
        (
          size_import-entry e cs a b n some_here coded (omega (arith, bytes)) (omega (arith, words))
              (omega (arith, count)),
          size_import_chain_lem es tail (a + (4 + (length e.name + 1))) (b + 4 * suc (length cs))
              (n + 1) (m + 1) rest (omega (arith, bytes)) (omega (arith, words))
              (omega (arith, count)),
        )
        (sizes_eq (omega (arith, bytes)) (omega (arith, words)) (omega (arith, count)))
]

size_import_chain-append :
    (xs ys : List ImportEntry) (s : Sizes)
    → size_import_chain 0 false (xs ++ ys) s
      ≡ size_import_chain 0 false ys (size_import_chain 0 false xs s)
unfolding size_import_chain
size_import_chain-append [] ys s = refl
size_import_chain-append (e ∷ xs) ys s = size_import_chain-append xs ys (size_import 0 false e s)

size_import_chains-flatten :
    (table : ImportTable) (s : Sizes)
    → size_import_chains 0 false table s ≡ size_import_chain 0 false (flatten table) s
unfolding size_import_chains size_import_chain flatten
size_import_chains-flatten [] s = refl
size_import_chains-flatten (c ∷ cs) s =
    size_import_chains-flatten cs (size_import_chain 0 false c s)
    ∙ sym (size_import_chain-append c (flatten cs) s)

-- `PulpImportSectionsSize` in mode 0, on the references that have been kept, if each has a kind and
-- the sizes are below 2^32: four bytes, an index and a terminated name for each import, brought to a
-- multiple of four; a head word, and for each import a word and a word for each relocation, a pair
-- taken as one; and the number of the imports.
pub import_sections_size_lem :
    (table : ImportTable) (is : List Import)
    → imports_of (flatten table) ≡ some is
    → 4 + names_bytes is < 2 ^ 32
    → 4 + 4 * length (relocs_body 0 is) < 2 ^ 32
    → import_sections_size 0 false table
      ≡ (align4 (4 + names_bytes is), 4 * suc (length (relocs_body 0 is)), length is)
unfolding import_sections_size
import_sections_size_lem table is known ha hb =
    rw
      (
        size_import_chains-flatten table (sizes 4 4 0),
        size_import_chain_lem (flatten table) is 4 4 0 0 known ha hb
            (omega (arith, length-le_names_bytes is)),
      )
      (ap₂ (λ (x y : ℕ). let t : ℕ × ℕ × ℕ = (align4 (4 + names_bytes is), x, y) in t) (omega arith)
        (omega arith))
