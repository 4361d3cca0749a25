-- ===== src/Tests/Final.antt =====
-- The end of a link that has two imports and two exports.
use soft_hier_release_test.Base.{
  ℕ, true, false, none, some, List, [], ◌∷◌, map, replicate, ◌≡◌, refl, arith,
}
use mathlib.Core.List.{flatten}
use soft_hier_release_test.Memory.{done}
use soft_hier_release_test.Pulp.Hash.{Name}
use soft_hier_release_test.Pulp.Export.{export_value, export_lookup, disassemble_exports}
use soft_hier_release_test.Pulp.Export.Read.{section_and_name}
use soft_hier_release_test.Pulp.Import.{no_imports, release_import_entry}
use soft_hier_release_test.Pulp.Import.Sections.{rel_code}
use soft_hier_release_test.Pulp.Import.Adjust.{shift_import}
use soft_hier_release_test.Pulp.Import.Read.{disassemble_imports}
use soft_hier_release_test.Pulp.Final.{FinalHost, Final, final_link}
use soft_hier_release_test.Pulp.Final.Ready.{ImportsReady, ExportsReady, SectionsReady}
use soft_hier_release_test.Pulp.Final.Reads.{final_link-reads}
use soft_hier_release_test.Tests.{
  exported, defined, block, imported, imports, bytes, words, foo-NoZero, bar-NoZero,
}

abbrev host : FinalHost
host = record {
  final_linked = true;
  component_mode = false;
  component_entry = none;
  text_lma = some 4096;
  import_bytes = block;
  import_words = λ n. some words;
  export_bytes = block;
  entries_given = true;
  lookup = defined;
  names_set = true;
  relocs_set = true;
  export_set = true;
}

abbrev before : Final
before = record {
  exports = exported;
  imports = record no_imports { table = imported };
  import_names = some [];
  import_relocs = some [];
  export_section = some [];
  reports = [];
}

imports_ready : ImportsReady host before.imports.table imports
unfolding flatten rel_code
imports_ready = record {
  known = refl;
  names_fit = omega arith;
  relocs_fit = omega arith;
  few = omega arith;
  even = (
    omega arith,
    (omega arith, refl, (omega arith, refl, tt)),
    (omega arith, (omega arith, refl, tt), tt),
  );
  fit = (
    foo-NoZero,
    omega arith,
    (omega arith, refl, omega arith, (omega arith, refl, omega arith, tt)),
    (bar-NoZero, omega arith, (omega arith, refl, omega arith, tt), tt),
  );
  bytes = bytes;
  have_bytes = refl;
  length_bytes = refl;
  words = words;
  have_words = refl;
  length_words = refl;
}

exports_ready : ExportsReady host before.exports (4115 ∷ 4115 ∷ [])
unfolding flatten export_value
exports_ready = record {
  defined = refl;
  some_entry = λ e. cc;
  few = omega arith;
  small = omega arith;
  names = (foo-NoZero, (bar-NoZero, tt));
  block = replicate 24 204;
  have_block = refl;
  length_block = refl;
  entries = refl;
}

sections_ready : SectionsReady host before
sections_ready = record {
  old_names = [];
  has_names = refl;
  old_relocs = [];
  has_relocs = refl;
  old_export = [];
  has_export = refl;
  names_set = refl;
  relocs_set = refl;
  export_set = refl;
}

final_link-reads_example :
    (t : Final) × (n : List ℕ) × (r : List ℕ) × (e : List ℕ) × (final_link host before ≡ done t)
    × (t.import_names ≡ some n)
    × (t.import_relocs ≡ some r)
    × (disassemble_imports n r ≡ done (map (shift_import 4096) imports))
    × (t.export_section ≡ some e)
    × (disassemble_exports e
        ≡ done (false, map section_and_name (flatten exported), 4115 ∷ 4115 ∷ []))
    × (t.imports ≡ (release_import_entry before.imports).1)
    × ((q : Name) → export_lookup q t.exports ≡ false)
final_link-reads_example =
    final_link-reads host before imports (4115 ∷ 4115 ∷ []) refl imports_ready exports_ready
      sections_ready
