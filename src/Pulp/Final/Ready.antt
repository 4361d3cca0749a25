-- ===== src/Pulp/Final/Ready.antt =====
-- What a link needs for its last sections (elf32-riscv.c, `_bfd_riscv_elf32_final_link`).
use soft_hier_release_test.Base.{
  ℕ, suc, ◌+◌, ◌*◌, ◌^◌, ◌<◌, Bool, true, false, Option, none, some, List, [], ◌∷◌, map, length,
  u32, ◌≡◌, ◌≢◌,
}
use mathlib.Core.List.{flatten}
use soft_hier_release_test.Pulp.Export.{ExportTable}
use soft_hier_release_test.Pulp.Export.Layout.{export_values}
use soft_hier_release_test.Pulp.Export.Create.{section_bytes, values_at}
use soft_hier_release_test.Pulp.Export.Read.{NoZeroNames}
use soft_hier_release_test.Pulp.Import.{ImportState, ImportTable, release_import_entry}
use soft_hier_release_test.Pulp.Import.Sections.Spec.{Import, imports_of, relocs_body}
use soft_hier_release_test.Pulp.Import.Sections.Size.{names_bytes}
use soft_hier_release_test.Pulp.Import.Sections.Names.{names_size}
use soft_hier_release_test.Pulp.Import.Adjust.{shift_import, EvenImports}
use soft_hier_release_test.Pulp.Import.Read.{ImportsFit}
use soft_hier_release_test.Pulp.Final.{FinalHost, Final}

-- By how much the offsets of imports are moved.
abbrev pub moved_by : Bool → Option ℕ → ℕ
moved_by true lma = 0
moved_by false none = 0
moved_by false (some lma) = u32 lma

-- The references of the table as `is`, within the bounds of the sections' fields, and blocks of the
-- sizes that are asked for.
pub record ImportsReady (host : FinalHost) (table : ImportTable) (is : List Import) : Type 0 where
  pub known : imports_of (flatten table) ≡ some is
  pub names_fit : names_bytes is + 8 < 2 ^ 32
  pub relocs_fit : 4 + 4 * length (relocs_body 0 is) < 2 ^ 32
  pub few : length is < 2 ^ 12
  pub even : EvenImports is
  pub fit : ImportsFit (map (shift_import (moved_by host.component_mode host.text_lma)) is)
  pub bytes : List ℕ
  pub have_bytes : host.import_bytes (names_size is) ≡ some bytes
  pub length_bytes : length bytes ≡ names_size is
  pub words : List ℕ
  pub have_words : host.import_words (4 * suc (length (relocs_body 0 is))) ≡ some words
  pub length_words : length words ≡ suc (length (relocs_body 0 is))

-- The same for the exports, each of which is defined; `values` are their values.
pub record ExportsReady (host : FinalHost) (table : ExportTable) (values : List ℕ) : Type 0 where
  pub defined : export_values host.component_mode host.lookup (flatten table) ≡ some values
  pub some_entry : flatten table ≢ []
  pub few : length (flatten table) < 2 ^ 15
  pub small : values_at (flatten table) < 2 ^ 18
  pub names : NoZeroNames (flatten table)
  pub block : List ℕ
  pub have_block : host.export_bytes (section_bytes (flatten table)) ≡ some block
  pub length_block : length block ≡ section_bytes (flatten table)
  pub entries : host.entries_given ≡ true

-- The three sections are there and take their contents.
pub record SectionsReady (host : FinalHost) (s : Final) : Type 0 where
  pub old_names : List ℕ
  pub has_names : s.import_names ≡ some old_names
  pub old_relocs : List ℕ
  pub has_relocs : s.import_relocs ≡ some old_relocs
  pub old_export : List ℕ
  pub has_export : s.export_section ≡ some old_export
  pub names_set : host.names_set ≡ true
  pub relocs_set : host.relocs_set ≡ true
  pub export_set : host.export_set ≡ true

-- The table is released if it has references.
abbrev pub released : List Import → ImportState → ImportState
released [] imports = imports
released (i ∷ is) imports = (release_import_entry imports).1
