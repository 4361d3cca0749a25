-- ===== src/Pulp/Import/Sections/Spec.antt =====
-- What the import sections are to hold: for each name with references, the kinds and offsets of its
-- relocations, a `lui` and its `addi` taken as one.
use soft_hier_release_test.Base.{
  ℕ, ◌+◌, ◌≤◌, Option, none, some, List, [], ◌∷◌, ◌++◌, map, length, ◌≡◌, refl, arith, inl, inr,
  Bool-cases, if◌then◌else◌,
}
use soft_hier_release_test.Bfd.{Rela}
use soft_hier_release_test.Pulp.Hash.{Name}
use soft_hier_release_test.Pulp.Import.{ImportEntry, is_pair}
use soft_hier_release_test.Pulp.Import.Sections.{
  rel_code, ref_code, reloc_word, reloc_head, is_empty,
}

-- A relocation of the section: its kind and its offset.
abbrev pub Code : Type 0
Code = ℕ × ℕ

abbrev pub cons_code : Option ℕ → ℕ → Option (List Code) → Option (List Code)
cons_code none offset cs = none
cons_code (some code) offset none = none
cons_code (some code) offset (some cs) = some ((code, offset) ∷ cs)

-- The relocations of a list of references; `none` if one has no kind.
abbrev pub codes_of : List Rela → Option (List Code)
codes_of [] = some []
codes_of (r ∷ []) = cons_code (rel_code r.r_type) r.r_offset (some [])
codes_of (r ∷ r' ∷ rs) =
    if is_pair r r'
    then cons_code (some 1) r.r_offset (codes_of rs)
    else cons_code (rel_code r.r_type) r.r_offset (codes_of (r' ∷ rs))

-- The references behind the one at the head, less the low half of its pair.
abbrev pub after : Rela → List Rela → List Rela
after r [] = []
after r (r' ∷ rs) = if is_pair r r' then rs else r' ∷ rs

-- A name with its relocations.
abbrev pub Import : Type 0
Import = Name × List Code

abbrev pub cons_import : Name → Option (List Code) → Option (List Import) → Option (List Import)
cons_import name none is = none
cons_import name (some cs) none = none
cons_import name (some cs) (some is) = some ((name, cs) ∷ is)

-- The names that have references, in the table's order.
abbrev pub imports_of : List ImportEntry → Option (List Import)
imports_of [] = some []
imports_of (e ∷ es) =
    if is_empty e.refs then imports_of es else cons_import e.name (codes_of e.refs) (imports_of es)

abbrev pub code_word : Code → ℕ
code_word c = reloc_word c.0 c.1

-- The words of one name, behind `n` names.
abbrev pub import_words : ℕ → List Code → List ℕ
import_words n cs = reloc_head n (length cs) ∷ map code_word cs

-- The words of the relocation section behind its head.
abbrev pub relocs_body : ℕ → List Import → List ℕ
relocs_body n [] = []
relocs_body n (i ∷ is) = import_words n i.1 ++ relocs_body (n + 1) is

pub cons_code-some :
    (o : Option ℕ) (offset : ℕ) (rest : Option (List Code)) (cs : List Code)
    → cons_code o offset rest ≡ some cs
    → (code : ℕ) × (tail : List Code) × (o ≡ some code)
      × (rest ≡ some tail)
      × (cs ≡ (code, offset) ∷ tail)
cons_code-some none offset rest cs h = cc
cons_code-some (some code) offset none cs h = cc
cons_code-some (some code) offset (some tail) cs h = (code, tail, refl, refl, cc)

pub length-after : (r : Rela) (rs : List Rela) → length (after r rs) ≤ length rs
length-after r [] = omega arith
length-after r (r' ∷ rs) = ground arith

-- The relocations of a list of references begin with that of its head.
pub codes_of-cons :
    (r : Rela) (rs : List Rela) (cs : List Code)
    → codes_of (r ∷ rs) ≡ some cs
    → (code : ℕ) × (tail : List Code) × (ref_code r rs ≡ some code)
      × (codes_of (after r rs) ≡ some tail)
      × (cs ≡ (code, r.r_offset) ∷ tail)
unfolding ref_code
codes_of-cons r [] cs h = cons_code-some (rel_code r.r_type) r.r_offset (some []) cs h
codes_of-cons r (r' ∷ rs) cs h = elim (Bool-cases (is_pair r r')) [
  | inl pair ↦ rw pair (cons_code-some (some 1) r.r_offset (codes_of rs) cs (rw pair at h))
  | inr single ↦
      rw single
        (cons_code-some (rel_code r.r_type) r.r_offset (codes_of (r' ∷ rs)) cs (rw single at h))
]

pub cons_import-some :
    (name : Name) (codes : Option (List Code)) (rest : Option (List Import)) (is : List Import)
    → cons_import name codes rest ≡ some is
    → (cs : List Code) × (tail : List Import) × (codes ≡ some cs)
      × (rest ≡ some tail)
      × (is ≡ (name, cs) ∷ tail)
cons_import-some name none rest is h = cc
cons_import-some name (some cs) none is h = cc
cons_import-some name (some cs) (some tail) is h = (cs, tail, refl, refl, cc)
