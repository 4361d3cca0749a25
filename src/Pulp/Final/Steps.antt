-- ===== src/Pulp/Final/Steps.antt =====
-- The import part and the export part of the end of a link (elf32-riscv.c, `_bfd_riscv_elf32_final_link`).
use soft_hier_release_test.Base.{
  ℕ, suc, ◌*◌, ◌^◌, ◌<◌, Bool, true, false, Option, none, some, List, [], ◌∷◌, ◌++◌, map, length,
  ◌==◌, u32, ◌≡◌, refl, ap₂, arith,
}
use mathlib.Core.List.{flatten}
use soft_hier_release_test.Memory.{Outcome, done, read}
use soft_hier_release_test.Pulp.Export.{release_export_entry, disassemble_exports}
use soft_hier_release_test.Pulp.Export.Read.{section_and_name, disassemble-create}
use soft_hier_release_test.Pulp.Import.{release_import_entry}
use soft_hier_release_test.Pulp.Import.Sections.{ImportSections, section_head}
use soft_hier_release_test.Pulp.Import.Sections.Spec.{Code, Import, relocs_body}
use soft_hier_release_test.Pulp.Import.Sections.Names.{names_size, names_section}
use soft_hier_release_test.Pulp.Import.Adjust.{
  shift_code, shift_import, EvenImports, adjust-relocs_body,
}
use soft_hier_release_test.Pulp.Import.Read.{read_imports, disassemble_imports}
use soft_hier_release_test.Pulp.Import.Link.{disassemble_imports-moved}
use soft_hier_release_test.Pulp.Final.{
  Report, no_text, FinalHost, Final, set_contents, set_if_there, move_relocs, fill_import,
  empty_import, finish_import, entry_reports, fill_export, finish_export,
}
use soft_hier_release_test.Pulp.Final.Ready.{
  moved_by, ImportsReady, ExportsReady, SectionsReady, released,
}

shift_code_zero : (cs : List Code) → map (shift_code 0) cs ≡ cs
shift_code_zero [] = refl
shift_code_zero ((kind, offset) ∷ cs) =
    ap₂ (λ (o : ℕ) (t : List Code). (kind, o) ∷ t) (omega arith) (shift_code_zero cs)

shift_import_zero : (is : List Import) → map (shift_import 0) is ≡ is
shift_import_zero [] = refl
shift_import_zero ((name, cs) ∷ is) =
    ap₂ (λ (c : List Code) (t : List Import). (name, c) ∷ t) (shift_code_zero cs)
      (shift_import_zero is)

-- The relocation section that was made, moved.
move_relocs-made :
    (component : Bool) (lma : Option ℕ) (size : ℕ) (is : List Import)
    → length is < 2 ^ 12
    → EvenImports is
    → (reports : List Report) × (move_relocs component lma
          (section_head (length is) size ∷ relocs_body 0 is)
        ≡ done (
          section_head (length is) size
              ∷ relocs_body 0 (map (shift_import (moved_by component lma)) is),
          reports,
        ))
unfolding move_relocs
move_relocs-made true lma size is few even = ([], rw (shift_import_zero is) refl)
move_relocs-made false none size is few even = (no_text ∷ [], rw (shift_import_zero is) refl)
move_relocs-made false (some lma) size is few even =
    ([], rw (adjust-relocs_body (u32 lma) 0 size is few even) refl)

-- A section that is there takes its contents.
set_contents-there :
    (set : Bool) (section : Option (List ℕ)) (old contents : List ℕ)
    → set ≡ true
    → section ≡ some old
    → set_contents set section contents ≡ done (some contents)
unfolding set_contents
set_contents-there set section old contents allowed there = rw (there, allowed) refl

set_if_there-there :
    (set : Bool) (section : Option (List ℕ)) (old contents : List ℕ)
    → set ≡ true
    → section ≡ some old
    → set_if_there set section contents ≡ done (some contents)
unfolding set_if_there
set_if_there-there set section old contents allowed there = rw (there, allowed) refl

-- The zero words that stand for no imports.
no_imports-read : disassemble_imports (0 ∷ 0 ∷ 0 ∷ 0 ∷ []) (0 ∷ []) ≡ done []
unfolding disassemble_imports read_imports read
no_imports-read = refl

module _ (host : FinalHost) (s : Final) where
  abbrev base : ℕ
  base = moved_by host.component_mode host.text_lma

  -- The sections that are made of the table.
  abbrev pub made : List Import → ImportSections
  made is = record {
    names = names_section is;
    names_size = names_size is;
    relocs = section_head (length is) (4 * suc (length (relocs_body 0 is))) ∷ relocs_body 0 is;
    relocs_size = 4 * suc (length (relocs_body 0 is));
    n_import = length is;
  }

  -- The state behind the imports.
  abbrev pub ImportsDone : List Import → Outcome Final → Type 0
  ImportsDone is o =
      (t : Final) × (n : List ℕ) × (r : List ℕ) × (o ≡ done t)
      × (t.import_names ≡ some n)
      × (t.import_relocs ≡ some r)
      × (disassemble_imports n r ≡ done (map (shift_import base) is))
      × (t.imports ≡ released is s.imports)
      × (t.exports ≡ s.exports)
      × (t.export_section ≡ s.export_section)

  abbrev emptied : Final
  emptied = record s { import_names = some (0 ∷ 0 ∷ 0 ∷ 0 ∷ []); import_relocs = some (0 ∷ []) }

  abbrev filled : List ℕ → List ℕ → List Report → Final
  filled names relocs reports = record s {
    imports = (release_import_entry s.imports).1;
    import_names = some names;
    import_relocs = some relocs;
    reports = s.reports ++ reports;
  }

  empty_import-emptied : SectionsReady host s → empty_import host s ≡ done emptied
  unfolding empty_import
  empty_import-emptied sections =
      rw
        (
          set_if_there-there host.names_set s.import_names sections.old_names (0 ∷ 0 ∷ 0 ∷ 0 ∷ [])
              sections.names_set sections.has_names,
          set_if_there-there host.relocs_set s.import_relocs sections.old_relocs (0 ∷ [])
              sections.relocs_set sections.has_relocs,
        )
        refl

  fill_import-filled :
      (made : ImportSections) (moved : List ℕ) (reports : List Report)
      → SectionsReady host s
      → move_relocs host.component_mode host.text_lma made.relocs ≡ done (moved, reports)
      → fill_import host made s ≡ done (filled made.names moved reports)
  unfolding fill_import
  fill_import-filled made moved reports sections step =
      rw
        (
          step,
          set_contents-there host.names_set s.import_names sections.old_names made.names
              sections.names_set sections.has_names,
          set_contents-there host.relocs_set s.import_relocs sections.old_relocs moved
              sections.relocs_set sections.has_relocs,
        )
        refl

  pub finish_import-done :
      (is : List Import)
      → ImportsReady host s.imports.table is
      → SectionsReady host s
      → ImportsDone is (finish_import host (made is) s)
  unfolding finish_import
  finish_import-done [] ready sections = (
    emptied,
    0 ∷ 0 ∷ 0 ∷ 0 ∷ [],
    0 ∷ [],
    empty_import-emptied sections,
    refl,
    refl,
    no_imports-read,
    refl,
    refl,
    refl,
  )
  finish_import-done (i ∷ is) ready sections =
      let all = i ∷ is in
      let size = 4 * suc (length (relocs_body 0 all)) in
      let (reports, moved) =
        move_relocs-made host.component_mode host.text_lma size all ready.few ready.even in
      let some_import : (length all == 0) ≡ false = ground arith in
      (
        filled (names_section all)
            (section_head (length all) size ∷ relocs_body 0 (map (shift_import base) all)) reports,
        names_section all,
        section_head (length all) size ∷ relocs_body 0 (map (shift_import base) all),
        rw (some_import, finish_import) (fill_import-filled (made all) _ reports sections moved),
        refl,
        refl,
        disassemble_imports-moved base all size ready.names_fit ready.few ready.fit,
        refl,
        refl,
        refl,
      )

  -- The state behind the exports.
  abbrev pub ExportsDone : List ℕ → Outcome Final → Type 0
  ExportsDone values o =
      (t : Final) × (e : List ℕ) × (o ≡ done t)
      × (t.export_section ≡ some e)
      × (disassemble_exports e
          ≡ done (host.component_mode, map section_and_name (flatten s.exports), values))
      × (t.exports ≡ (release_export_entry s.exports).1)
      × (t.import_names ≡ s.import_names)
      × (t.import_relocs ≡ s.import_relocs)
      × (t.imports ≡ s.imports)

  pub finish_export-done :
      (values : List ℕ) (old : List ℕ)
      → ExportsReady host s.exports values
      → s.export_section ≡ some old
      → host.export_set ≡ true
      → ExportsDone values (finish_export host s)
  unfolding finish_export fill_export
  finish_export-done values old ready there allowed =
      let (m, here, bytes, reads) =
        disassemble-create host.component_mode host.lookup host.export_bytes s.exports ready.block
          values ready.defined ready.some_entry ready.few ready.small ready.names ready.have_block
          ready.length_block in
      (
        record s {
          export_section = some m;
          exports = (release_export_entry s.exports).1;
          reports = s.reports ++ entry_reports host.component_mode host.component_entry s.exports;
        },
        m,
        rw
            (
              ready.entries,
              here,
              set_contents-there host.export_set s.export_section old m allowed there,
            )
            refl,
        refl,
        reads,
        refl,
        refl,
        refl,
        refl,
      )
