-- ===== src/Pulp/Import/Link.antt =====
-- The path of the import sections through a link (elf32-riscv.c): made by
-- `PulpImportCreateNameAndRelocSections`, moved by `AdjustRelocsImport` in resident mode, and listed by
-- `DiassembleImports`.
use soft_hier_release_test.Base.{
  ℕ, suc, ◌+◌, ◌*◌, ◌^◌, ◌<◌, Option, some, List, [], ◌∷◌, ◌++◌, map, length, ◌≡◌, refl, sym, ap,
  ap₂, ◌∙◌, arith, length-map,
}
use mathlib.Core.List.{flatten}
use soft_hier_release_test.Memory.{done, le32}
use soft_hier_release_test.Memory.Frame.{length-le32}
use soft_hier_release_test.Pulp.Import.{ImportTable}
use soft_hier_release_test.Pulp.Import.Sections.{
  section_head, ImportSections, import_create_sections,
}
use soft_hier_release_test.Pulp.Import.Sections.Spec.{Import, imports_of, relocs_body}
use soft_hier_release_test.Pulp.Import.Sections.Size.{names_bytes}
use soft_hier_release_test.Pulp.Import.Sections.Strings.{
  name_indices, name_strings, length-name_strings,
}
use soft_hier_release_test.Pulp.Import.Sections.Names.{
  names_size, names_section, length-names_section, import_create_sections_lem,
}
use soft_hier_release_test.Pulp.Import.Adjust.{
  adjust_relocs_import, shift_import, EvenImports, adjust-relocs_body,
}
use soft_hier_release_test.Pulp.Import.Read.{
  disassemble_imports, ImportsFit, disassemble_imports-sections,
}

-- The sections list what they were made of.
disassemble_imports-made :
    (is : List Import) (size : ℕ)
    → names_bytes is + 8 < 2 ^ 32
    → length is < 2 ^ 12
    → ImportsFit is
    → disassemble_imports (names_section is) (section_head (length is) size ∷ relocs_body 0 is)
      ≡ done is
disassemble_imports-made is size fits few fit =
    let head = section_head (length is) (names_size is) in
    disassemble_imports-sections is head size _ (length-le32 head) few fit
      (omega (arith, length-name_strings is))

-- Making the import sections in mode 0 and listing them: with a kind for every reference, blocks of
-- the computed sizes, sizes below 2^32, less than 4096 imports, no zero byte in a name, less than
-- 65536 relocations for each name, and every kind below 16 at an even offset below 2^29,
-- `PulpImportCreateNameAndRelocSections` returns two sections that are exactly as long as their
-- computed sizes, from which `DiassembleImports` reads every name of the table that has references
-- and the kind and offset of each of its relocations, in the order of registration.
pub disassemble-import_create :
    (table : ImportTable) (is : List Import) (bytes words : ℕ → Option (List ℕ)) (b w : List ℕ)
    → imports_of (flatten table) ≡ some is
    → names_bytes is + 8 < 2 ^ 32
    → 4 + 4 * length (relocs_body 0 is) < 2 ^ 32
    → length is < 2 ^ 12
    → ImportsFit is
    → bytes (names_size is) ≡ some b
    → length b ≡ names_size is
    → words (4 * suc (length (relocs_body 0 is))) ≡ some w
    → length w ≡ suc (length (relocs_body 0 is))
    → (s : ImportSections) × (import_create_sections 0 bytes words table ≡ done s)
      × (length s.names ≡ s.names_size)
      × (4 * length s.relocs ≡ s.relocs_size)
      × (disassemble_imports s.names s.relocs ≡ done is)
disassemble-import_create table is bytes words b w known fits room few fit have_b len_b have_w
      len_w =
    (
      _,
      import_create_sections_lem table is bytes words b w known fits room have_b len_b have_w len_w,
      length-names_section is (omega arith),
      refl,
      disassemble_imports-made is (4 * suc (length (relocs_body 0 is))) fits few fit,
    )

name_strings-shift :
    (base : ℕ) (is : List Import) → name_strings (map (shift_import base) is) ≡ name_strings is
name_strings-shift base [] = refl
name_strings-shift base ((name, cs) ∷ is) =
    ap (λ (t : List ℕ). (name ++ 0 ∷ []) ++ t) (name_strings-shift base is)

name_indices-shift :
    (base at : ℕ) (is : List Import)
    → name_indices at (map (shift_import base) is) ≡ name_indices at is
name_indices-shift base at [] = refl
name_indices-shift base at ((name, cs) ∷ is) =
    ap (λ (t : List ℕ). le32 at ++ t) (name_indices-shift base (at + (length name + 1)) is)

names_bytes-shift :
    (base : ℕ) (is : List Import) → names_bytes (map (shift_import base) is) ≡ names_bytes is
names_bytes-shift base [] = refl
names_bytes-shift base ((name, cs) ∷ is) = omega (arith, names_bytes-shift base is)

names_section-shift :
    (base : ℕ) (is : List Import) → names_section (map (shift_import base) is) ≡ names_section is
names_section-shift base is = simp (
  names_bytes-shift base is,
  length-map (shift_import base) is,
  name_strings-shift base is,
  name_indices-shift base (4 + 4 * length is) is,
)

-- The names section lists with the relocations of moved offsets.
pub disassemble_imports-moved :
    (base : ℕ) (is : List Import) (size : ℕ)
    → names_bytes is + 8 < 2 ^ 32
    → length is < 2 ^ 12
    → ImportsFit (map (shift_import base) is)
    → disassemble_imports
        (names_section is)
        (section_head (length is) size ∷ relocs_body 0 (map (shift_import base) is))
      ≡ done (map (shift_import base) is)
disassemble_imports-moved base is size fits few fit =
    let moved = map (shift_import base) is in
    ap₂ (λ (t : List ℕ) (k : ℕ). disassemble_imports t (section_head k size ∷ relocs_body 0 moved))
      (sym (names_section-shift base is)) (sym (length-map (shift_import base) is))
    ∙ disassemble_imports-made moved size (omega (arith, names_bytes-shift base is))
        (omega (arith, length-map (shift_import base) is)) fit

-- The resident program: under the same conditions, with even offsets before and after and the moved
-- ones below 2^29, `AdjustRelocsImport` adds the address of `.text` to the relocation section that
-- was made, without an access out of range, and the two sections then read as the same names with
-- the same kinds, each offset moved by that address.
pub disassemble-adjust-import_create :
    (table : ImportTable) (is : List Import) (bytes words : ℕ → Option (List ℕ)) (b w : List ℕ)
    (base : ℕ)
    → imports_of (flatten table) ≡ some is
    → names_bytes is + 8 < 2 ^ 32
    → 4 + 4 * length (relocs_body 0 is) < 2 ^ 32
    → length is < 2 ^ 12
    → EvenImports is
    → ImportsFit (map (shift_import base) is)
    → bytes (names_size is) ≡ some b
    → length b ≡ names_size is
    → words (4 * suc (length (relocs_body 0 is))) ≡ some w
    → length w ≡ suc (length (relocs_body 0 is))
    → (s : ImportSections) × (m : List ℕ) × (import_create_sections 0 bytes words table ≡ done s)
      × (adjust_relocs_import base s.relocs ≡ done m)
      × (disassemble_imports s.names m ≡ done (map (shift_import base) is))
disassemble-adjust-import_create table is bytes words b w base known fits room few even fit have_b
      len_b have_w len_w =
    let size = 4 * suc (length (relocs_body 0 is)) in
    (
      _,
      _,
      import_create_sections_lem table is bytes words b w known fits room have_b len_b have_w len_w,
      adjust-relocs_body base 0 size is few even,
      disassemble_imports-moved base is size fits few fit,
    )
