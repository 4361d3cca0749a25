-- ===== src/Pulp/Final/Reads.antt =====
-- What the sections hold at the end of a link (elf32-riscv.c, `_bfd_riscv_elf32_final_link`), as their
-- readers list it.
use soft_hier_release_test.Base.{
  ℕ, Bool, true, false, some, List, map, ◌≡◌, refl, sym, ap, subst, ◌∙◌,
}
use mathlib.Core.List.{flatten}
use soft_hier_release_test.Memory.{Outcome, done}
use soft_hier_release_test.Pulp.Hash.{Name}
use soft_hier_release_test.Pulp.Export.{ExportTable, export_lookup, disassemble_exports}
use soft_hier_release_test.Pulp.Export.Table.{lookup-release}
use soft_hier_release_test.Pulp.Export.Read.{section_and_name}
use soft_hier_release_test.Pulp.Import.Sections.{ImportSections, import_create_sections}
use soft_hier_release_test.Pulp.Import.Sections.Spec.{Import}
use soft_hier_release_test.Pulp.Import.Sections.Names.{import_create_sections_lem}
use soft_hier_release_test.Pulp.Import.Adjust.{shift_import}
use soft_hier_release_test.Pulp.Import.Read.{disassemble_imports}
use soft_hier_release_test.Pulp.Final.{
  FinalHost, Final, finish_import, finish_export, final_sections, if_linked, final_link,
}
use soft_hier_release_test.Pulp.Final.Ready.{
  moved_by, ImportsReady, ExportsReady, SectionsReady, released,
}
use soft_hier_release_test.Pulp.Final.Steps.{finish_import-done, finish_export-done}

if_linked-true : (b : Bool) (o : Outcome Final) → b ≡ true → if_linked b o ≡ o
unfolding if_linked
if_linked-true true o e = refl
if_linked-true false o e = cc

final_link-done :
    (host : FinalHost) (s : Final) (made_of : ImportSections) (a t : Final)
    → host.final_linked ≡ true
    → import_create_sections 0 host.import_bytes host.import_words s.imports.table ≡ done made_of
    → finish_import host made_of s ≡ done a
    → finish_export host a ≡ done t
    → final_link host s ≡ done t
unfolding final_link final_sections
final_link-done host s made_of a t linked made_step step last =
    if_linked-true host.final_linked (final_sections host s) linked
    ∙ rw (final_sections, made_step, step) last

-- A link with at least one export, with the three sections there and settable, and with both tables within
-- the bounds of their sections' fields and in blocks of the right sizes, all exports defined and no
-- reference without a kind: the answer is TRUE. The import sections then list as the references of the table, each offset
-- moved by the address of `.text` in a resident program that has one and by nothing otherwise; without any
-- reference they list as no import. The export section lists as the mode, the exported names and
-- their values. The import table is released if it had references, and no name is found in the
-- export table any more.
pub final_link-reads :
    (host : FinalHost) (s : Final) (is : List Import) (values : List ℕ)
    → host.final_linked ≡ true
    → ImportsReady host s.imports.table is
    → ExportsReady host s.exports values
    → SectionsReady host s
    → (t : Final) × (n : List ℕ) × (r : List ℕ) × (e : List ℕ) × (final_link host s ≡ done t)
      × (t.import_names ≡ some n)
      × (t.import_relocs ≡ some r)
      × (disassemble_imports n r
          ≡ done (map (shift_import (moved_by host.component_mode host.text_lma)) is))
      × (t.export_section ≡ some e)
      × (disassemble_exports e
          ≡ done (host.component_mode, map section_and_name (flatten s.exports), values))
      × (t.imports ≡ released is s.imports)
      × ((q : Name) → export_lookup q t.exports ≡ false)
final_link-reads host s is values linked imports exports sections =
    let made_is =
      import_create_sections_lem s.imports.table is host.import_bytes host.import_words
        imports.bytes imports.words imports.known imports.names_fit imports.relocs_fit
        imports.have_bytes imports.length_bytes imports.have_words imports.length_words in
    let (a, n, r, step, has_n, has_r, lists, released_a, same_exports, same_section) =
      finish_import-done host s is imports sections in
    let ready =
      subst (λ (x : ExportTable). ExportsReady host x values) (sym same_exports) exports in
    let (t, e, last, has_e, lists_e, released_e, same_n, same_r, same_imports) =
      finish_export-done host a values sections.old_export ready
        (same_section ∙ sections.has_export) sections.export_set in
    (
      t,
      n,
      r,
      e,
      final_link-done host s _ a t linked made_is step last,
      same_n ∙ has_n,
      same_r ∙ has_r,
      lists,
      has_e,
      lists_e
          ∙ ap
              (λ (x : ExportTable).
                done (host.component_mode, map section_and_name (flatten x), values))
              same_exports,
      same_imports ∙ released_a,
      λ q. ap (export_lookup q) released_e ∙ lookup-release a.exports q,
    )
