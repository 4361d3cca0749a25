-- ===== src/Pulp/Final.antt =====
-- The end of a link (elf32-riscv.c, `_bfd_riscv_elf32_final_link`): the sections of the imports and the
-- exports get their contents, and the tables are released.
pub mod Ready
pub mod Steps
pub mod Reads
use soft_hier_release_test.Base.{
  ℕ, Bool, true, false, Option, none, some, List, [], ◌∷◌, ◌++◌, ◌==◌, if◌then◌else◌, u32,
}
use soft_hier_release_test.Memory.{Outcome, done, failed, ◌>>=◌}
use soft_hier_release_test.Pulp.Hash.{Name}
use soft_hier_release_test.Pulp.Export.{
  ExportTable, Definition, export_lookup, export_create_section, release_export_entry,
}
use soft_hier_release_test.Pulp.Import.{ImportState, release_import_entry}
use soft_hier_release_test.Pulp.Import.Sections.{ImportSections, import_create_sections}
use soft_hier_release_test.Pulp.Import.Adjust.{adjust_relocs_import}

-- What `_bfd_error_handler` is told without an end of the link.
pub data Report : Type 0 where
  no_text no_entry entry_not_exported empty_export : Report

-- The options, what the link knows, and the replies of BFD: the address of `.text` in the output, the blocks
-- of memory, and whether the contents of the three sections can be set.
pub record FinalHost : Type 0 where
  pub final_linked : Bool
  pub component_mode : Bool
  pub component_entry : Option Name
  pub text_lma : Option ℕ
  pub import_bytes : ℕ → Option (List ℕ)
  pub import_words : ℕ → Option (List ℕ)
  pub export_bytes : ℕ → Option (List ℕ)
  pub entries_given : Bool
  pub lookup : Name → Option Definition
  pub names_set : Bool
  pub relocs_set : Bool
  pub export_set : Bool

-- The tables, the contents of `.pulp.import.names`, `.pulp.import.relocs` (by words) and `.pulp.export`, `none`
-- where the output has no such section, and what was reported.
pub record Final : Type 0 where
  pub exports : ExportTable
  pub imports : ImportState
  pub import_names : Option (List ℕ)
  pub import_relocs : Option (List ℕ)
  pub export_section : Option (List ℕ)
  pub reports : List Report

-- The contents of a section that has to be there.
unfoldable pub set_contents : Bool → Option (List ℕ) → List ℕ → Outcome (Option (List ℕ))
set_contents set none contents = failed
set_contents set (some old) contents = if set then done (some contents) else failed

-- The contents of a section that may be missing.
unfoldable pub set_if_there : Bool → Option (List ℕ) → List ℕ → Outcome (Option (List ℕ))
set_if_there set none contents = done none
set_if_there set (some old) contents = if set then done (some contents) else failed

-- The relocations of a resident program, moved by the address of `.text`, with what is reported.
unfoldable pub move_relocs : Bool → Option ℕ → List ℕ → Outcome (List ℕ × List Report)
move_relocs true lma relocs = done (relocs, [])
move_relocs false none relocs = done (relocs, no_text ∷ [])
move_relocs false (some lma) relocs = do
  moved ← adjust_relocs_import (u32 lma) relocs
  done (moved, [])

-- The test of the component's entry, which only reports.
unfoldable pub entry_reports : Bool → Option Name → ExportTable → List Report
entry_reports false entry exports = []
entry_reports true none exports = no_entry ∷ []
entry_reports true (some name) exports =
    if export_lookup name exports then [] else entry_not_exported ∷ []

module _ (host : FinalHost) where
  -- `if (NImport)`: both sections, and the release of the table.
  unfoldable pub fill_import : ImportSections → Final → Outcome Final
  fill_import made s = do
    (moved, reports) ← move_relocs host.component_mode host.text_lma made.relocs
    names ← set_contents host.names_set s.import_names made.names
    relocs ← set_contents host.relocs_set s.import_relocs moved
    done (record s {
      imports = (release_import_entry s.imports).1;
      import_names = names;
      import_relocs = relocs;
      reports = s.reports ++ reports;
    })

  -- The other branch: one zero word in each section that is there.
  unfoldable pub empty_import : Final → Outcome Final
  empty_import s = do
    names ← set_if_there host.names_set s.import_names (0 ∷ 0 ∷ 0 ∷ 0 ∷ [])
    relocs ← set_if_there host.relocs_set s.import_relocs (0 ∷ [])
    done (record s { import_names = names; import_relocs = relocs })

  unfoldable pub finish_import : ImportSections → Final → Outcome Final
  finish_import made s = elim (made.n_import == 0) [
    | true ↦ empty_import s
    | false ↦ fill_import made s
  ]

  -- `.pulp.export`, and the release of the table.
  unfoldable pub fill_export : Option (List ℕ) → Final → Outcome Final
  fill_export none s =
      done (record s {
        reports = s.reports ++ (if host.component_mode then empty_export ∷ [] else []);
      })
  fill_export (some contents) s = do
    section ← set_contents host.export_set s.export_section contents
    done (record s { export_section = section; exports = (release_export_entry s.exports).1 })

  unfoldable pub finish_export : Final → Outcome Final
  finish_export s = do
    made ←
        export_create_section host.component_mode host.lookup host.export_bytes host.entries_given
          s.exports
    fill_export made.0 (record s {
      reports = s.reports ++ entry_reports host.component_mode host.component_entry s.exports;
    })

  -- The sections, once the link itself has succeeded.
  unfoldable pub final_sections : Final → Outcome Final
  final_sections s = do
    made ← import_create_sections 0 host.import_bytes host.import_words s.imports.table
    t ← finish_import made s
    finish_export t

-- `if (!bfd_elf_final_link (abfd, info)) return FALSE`.
unfoldable pub if_linked : Bool → Outcome Final → Outcome Final
if_linked false o = failed
if_linked true o = o

-- `_bfd_riscv_elf32_final_link` without the dumps that an option asks for.
unfoldable pub final_link : FinalHost → Final → Outcome Final
final_link host s = if_linked host.final_linked (final_sections host s)
