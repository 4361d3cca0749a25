-- ===== src/Tests.antt =====
-- Concrete runs of the code, and the theorems of the other modules at concrete inputs.
mod Link
mod Alloc
mod Relax
mod Shorten
mod Final
mod Dynamic
mod Relocate
mod Flags
mod Create
use soft_hier_release_test.Base.{
  ℕ, ◌*◌, true, false, ◌||◌, Option, none, some, List, [], ◌∷◌, map, length, replicate,
  length-replicate, ◌⊎◌, ◌≡◌, refl, arith, if◌then◌else◌, sym, ap, Bool,
}
use mathlib.Core.List.{flatten}
use mathlib.Core.Option.{some-injective}
use soft_hier_release_test.Memory.{done, failed, fault, NoZero}
use soft_hier_release_test.Bfd.{Rela, is_lo12_i, r_hi20, r_lo12_i, r_jal}
use soft_hier_release_test.Pulp.Hash.{
  Name, hash_import_e, hash_sdbm, same_name, poly63, hash_sdbm-eq-poly63,
}
use soft_hier_release_test.Pulp.Export.{
  ExportTable, Definition, export_value, new_export, no_exports, insert_export_entry, export_lookup,
  release_export_entry, export_create_section, disassemble_exports, export_section_size,
  size_export_chains, size_export_chain, fill_export_section, emit_chains, emit_chain,
}
use soft_hier_release_test.Pulp.Export.Table.{
  IsHashed, no_exports-IsHashed, lookup-insert, insert_no_memory, lookup-release, insert-IsHashed,
}
use soft_hier_release_test.Pulp.Export.Create.{section_bytes}
use soft_hier_release_test.Pulp.Export.Undefined.{AllDefined, export_create_section-undefined}
use soft_hier_release_test.Pulp.Export.Read.{section_and_name, disassemble-create}
use soft_hier_release_test.Pulp.Import.{
  ImportEntry, ImportTable, ImportState, find_import, new_import, no_imports,
}
use soft_hier_release_test.Pulp.Import.Table.{import_lookup, count_both, count_both-uncounted}
use soft_hier_release_test.Pulp.Import.Collect.{collect_all, collect_all-null}
use soft_hier_release_test.Pulp.Import.Sections.{
  rel_code, section_head, ImportSections, import_create_sections, import_sections_size,
}
use soft_hier_release_test.Pulp.Import.Sections.Spec.{Import, relocs_body}
use soft_hier_release_test.Pulp.Import.Sections.Size.{import_sections_size_lem}
use soft_hier_release_test.Pulp.Import.Adjust.{
  adjust_relocs_import, shift_import, adjust-relocs_body,
}
use soft_hier_release_test.Pulp.Import.Read.{disassemble_imports}
use soft_hier_release_test.Pulp.Import.Link.{
  disassemble-import_create, disassemble-adjust-import_create,
}

abbrev foo : Name
foo = 102 ∷ 111 ∷ 111 ∷ []

abbrev bar : Name
bar = 98 ∷ 97 ∷ 114 ∷ []

abbrev exported : ExportTable
exported = (new_export foo ∷ []) ∷ [] ∷ (new_export bar ∷ []) ∷ []

abbrev defined : Name → Option Definition
defined name =
    some (record { is_defined = true; value = length name; output_offset = 16; output_vma = 4096 })

-- Memory that holds no particular bytes.
abbrev block : ℕ → Option (List ℕ)
block n = some (replicate n 204)

foo-NoZero : NoZero foo
foo-NoZero = (omega arith, (omega arith, (omega arith, tt)))

bar-NoZero : NoZero bar
bar-NoZero = (omega arith, (omega arith, (omega arith, tt)))

disassemble-create_example :
    (m : List ℕ) × (export_create_section true defined block true exported
      ≡ done (some m, section_bytes (flatten exported)))
    × (length m ≡ section_bytes (flatten exported))
    × (disassemble_exports m ≡ done (true, map section_and_name (flatten exported), 19 ∷ 19 ∷ []))
unfolding flatten export_value
disassemble-create_example =
    disassemble-create true defined block exported (replicate 24 204) (19 ∷ 19 ∷ []) refl (λ e. cc)
      (omega arith) (omega arith) (foo-NoZero, (bar-NoZero, tt)) refl refl

abbrev hi : Rela
hi = record { r_offset = 8; r_sym = 0; r_type = r_hi20; r_addend = 0 }

abbrev lo : Rela
lo = record { r_offset = 12; r_sym = 0; r_type = r_lo12_i; r_addend = 0 }

abbrev jal : Rela
jal = record { r_offset = 20; r_sym = 0; r_type = r_jal; r_addend = 0 }

-- Two names: one with a pair and a jump, one with a jump.
abbrev imported : ImportTable
imported =
    (record { name = foo; reloc_count = 0; refs = hi ∷ lo ∷ jal ∷ [] } ∷ [])
    ∷ []
    ∷ (record { name = bar; reloc_count = 0; refs = jal ∷ [] } ∷ [])
    ∷ []

abbrev imports : List Import
imports = (foo, (1, 8) ∷ (0, 20) ∷ []) ∷ (bar, (0, 20) ∷ []) ∷ []

abbrev bytes : List ℕ
bytes = replicate 20 204

abbrev words : List ℕ
words = replicate 6 204

-- Only `foo` is defined.
abbrev foo_only : Name → Option Definition
foo_only name = if same_name name foo then defined name else none

foo_only-AllDefined : AllDefined foo_only
foo_only-AllDefined name h found = known (same_name name foo) found
  where
    known : (b : Bool) → (if b then defined name else none) ≡ some h → h.is_defined ≡ true
    known true e = sym (ap (λ (x : Definition). x.is_defined) (some-injective _ h e))
    known false e = cc e

-- A name that is only referred to is read all the same.
abbrev referred : Name → Option Definition
referred name = some (record { is_defined = false; value = 0; output_offset = 0; output_vma = 0 })

export_referred : export_create_section true referred block true exported ≡ fault
unfolding export_create_section export_section_size size_export_chains size_export_chain
    fill_export_section emit_chains emit_chain
export_referred = refl

export_create_section-undefined_example :
    export_create_section true foo_only block true exported ≡ failed
unfolding flatten same_name
export_create_section-undefined_example =
    export_create_section-undefined true foo_only block exported (replicate 24 204)
      foo_only-AllDefined refl (λ e. cc) (omega arith) refl refl

disassemble-import_create_example :
    (s : ImportSections) × (import_create_sections 0 block (λ n. some words) imported ≡ done s)
    × (length s.names ≡ s.names_size)
    × (4 * length s.relocs ≡ s.relocs_size)
    × (disassemble_imports s.names s.relocs ≡ done imports)
unfolding flatten rel_code
disassemble-import_create_example =
    disassemble-import_create imported imports block (λ n. some words) bytes words refl
      (omega arith) (omega arith) (omega arith)
      (
        foo-NoZero,
        omega arith,
        (omega arith, refl, omega arith, (omega arith, refl, omega arith, tt)),
        (bar-NoZero, omega arith, (omega arith, refl, omega arith, tt), tt),
      )
      refl refl refl refl

disassemble-adjust-import_create_example :
    (s : ImportSections) × (m : List ℕ) × (import_create_sections 0 block (λ n. some words) imported
      ≡ done s)
    × (adjust_relocs_import 4096 s.relocs ≡ done m)
    × (disassemble_imports s.names m ≡ done (map (shift_import 4096) imports))
unfolding flatten rel_code
disassemble-adjust-import_create_example =
    disassemble-adjust-import_create imported imports block (λ n. some words) bytes words 4096 refl
      (omega arith) (omega arith) (omega arith)
      (
        omega arith,
        (omega arith, refl, (omega arith, refl, tt)),
        (omega arith, (omega arith, refl, tt), tt),
      )
      (
        foo-NoZero,
        omega arith,
        (omega arith, refl, omega arith, (omega arith, refl, omega arith, tt)),
        (bar-NoZero, omega arith, (omega arith, refl, omega arith, tt), tt),
      )
      refl refl refl refl

adjust-relocs_body_example :
    adjust_relocs_import 4096 (section_head 2 24 ∷ relocs_body 0 imports)
    ≡ done (section_head 2 24 ∷ relocs_body 0 (map (shift_import 4096) imports))
adjust-relocs_body_example = adjust-relocs_body 4096 0 24 imports (omega arith) (
  omega arith,
  (omega arith, refl, (omega arith, refl, tt)),
  (omega arith, (omega arith, refl, tt), tt),
)

import_sections_size_lem_example : import_sections_size 0 false imported ≡ (20, 24, 2)
unfolding flatten rel_code
import_sections_size_lem_example =
    import_sections_size_lem imported imports refl (omega arith) (omega arith)

hash_sdbm-eq-poly63_example : hash_sdbm foo ≡ poly63 0 foo
hash_sdbm-eq-poly63_example =
    hash_sdbm-eq-poly63 foo (omega arith, (omega arith, (omega arith, tt)))

lookup-insert_example :
    ((insert_export_entry true true foo no_exports).0 ≡ true)
    × (export_lookup foo (insert_export_entry true true foo no_exports).1
        ≡ (same_name foo foo || export_lookup foo no_exports))
lookup-insert_example = lookup-insert no_exports foo foo no_exports-IsHashed.width

insert_no_memory_example :
    insert_export_entry true false foo no_exports ≡ (export_lookup foo no_exports, no_exports)
insert_no_memory_example = insert_no_memory true false no_exports foo refl

lookup-release_example : export_lookup foo (release_export_entry exported).1 ≡ false
lookup-release_example = lookup-release exported foo

insert-IsHashed_example : IsHashed (insert_export_entry true true foo no_exports).1
insert-IsHashed_example = insert-IsHashed true true foo no_exports no_exports-IsHashed

no_imports-length : length no_imports.table ≡ hash_import_e
no_imports-length = length-replicate {A = List ImportEntry} hash_import_e []

abbrev after_hi : ImportState
after_hi = record no_imports { last_rel = some jal }

count_both-uncounted_example :
    (t : ImportState) × (count_both foo hi bar lo after_hi ≡ done (true, t))
    × (import_lookup bar t.table ≡ some (new_import bar))
unfolding same_name find_import hash_sdbm
count_both-uncounted_example =
    count_both-uncounted foo bar hi lo jal after_hi no_imports-length refl refl refl refl

collect_all-null_example :
    ((is_lo12_i lo.r_type ≡ true)
      × (collect_all true ((foo, lo, 0) ∷ (bar, jal, 4) ∷ []) no_imports ≡ fault))
    ⊎ ((is_lo12_i lo.r_type ≡ false)
        × (t : ImportState) × (collect_all true ((foo, lo, 0) ∷ (bar, jal, 4) ∷ []) no_imports
            ≡ done t))
collect_all-null_example = collect_all-null foo lo 0 ((bar, jal, 4) ∷ []) true no_imports refl
