-- ===== src/Tests/Relocate.antt =====
-- A section that is relocated.
use soft_hier_release_test.Base.{
  ℕ, ◌-◌, ◌^◌, true, false, none, some, List, [], ◌∷◌, set, ◌≡◌, refl, replicate,
}
use soft_hier_release_test.Memory.{done, put_word, write_all, write, le32}
use soft_hier_release_test.Bfd.{Rela, RelocType, r_none, r_hi20, r_lo12_i, r_add32}
use soft_hier_release_test.Pulp.Hash.{hash_sdbm, same_name}
use soft_hier_release_test.Pulp.Import.{
  ImportState, no_imports, insert_import_entry, enter_import, update_import, find_import,
  collect_counts, count_ref, output_ref, add_ref,
}
use soft_hier_release_test.Elf.{Symbol, defined, defweak, follow, put}
use soft_hier_release_test.Elf.Check.{pulp_import}
use soft_hier_release_test.Elf.Alloc.{DynSymbol, input_section, offset}
use soft_hier_release_test.Elf.Reloc.{encode, place_value, patch, perform_relocation}
use soft_hier_release_test.Elf.Reloc.Pcrel.{
  init_pcrel_relocs, resolve_pcrel_lo_relocs, resolve_loop,
}
use soft_hier_release_test.Elf.Relocate.{
  Resolved, RelocHost, Relocating, register_import_reloc, import_section, import_symbol,
  enter_reloc, add_value,
}
use soft_hier_release_test.Elf.Relocate.Got.{got_entry, global_got, init_got}
use soft_hier_release_test.Elf.Relocate.Turn.{
  handle, is_reported, answer, perform, relocate_resolved, find_global, relocate_global,
  relocate_turn, relocate_loop, finish_section, relocate_section,
}
use soft_hier_release_test.Elf.Relocate.Once.{got_entry-once}
use soft_hier_release_test.Elf.Relocate.Imports.Registered.{
  register_all, relocate_section-register_all,
}
use soft_hier_release_test.Tests.Alloc.{latest}
use soft_hier_release_test.Tests.Shorten.{codec}

-- The function `f`, which is imported.
abbrev imported : Symbol
imported = record {
  string = 102 ∷ [];
  h_type = defweak;
  link = 0;
  section = some (record { id = 9; section_name = pulp_import; output_offset = 0 });
  def_regular = false;
}

abbrev dynamic : DynSymbol
dynamic = record {
  h_type = defined;
  is_function = true;
  needs_plt = false;
  plt = offset none;
  got = offset (some 8);
  tls_type = 1;
  default_visibility = true;
  weak_definition = none;
  home = input_section 3;
  value = 8;
  size = 4;
  non_got_ref = false;
  needs_copy = false;
  def_regular = true;
  def_dynamic = false;
  dynindx = none;
  forced_local = false;
  dyn_relocs = [];
}

abbrev resolved : Rela → Resolved
resolved rel = record {
  relocation = 0x12345678;
  rel = rel;
  unresolved = false;
  warned = false;
  discarded = false;
}

-- A static link; the section is at 0x1000, and behind 64 bytes of others in the output.
abbrev host : RelocHost
host = record {
  codec = codec;
  htab_find = latest;
  howto_of =
      λ t. record { pc_relative = false; rightshift = 0; bitsize = 32; dst_mask = 2 ^ 32 - 1 };
  rs1_mask = 0xf8000;
  tp_base = 0x20000;
  gp_base = 0x18000;
  gp = 0x800;
  tp_offset = 0;
  tls_vma = none;
  memory = true;
  table_made = true;
  relocatable = false;
  pic = false;
  has_hashes = true;
  has_wrap = false;
  unwrap = λ i. i;
  sh_info = 1;
  sym_hashes = λ i. i;
  symbols = λ i. imported;
  depth = 1;
  dyn_symbols = λ i. dynamic;
  section_has_output = λ i. true;
  resolve_local = resolved;
  resolve_global = λ rel h. resolved rel;
  clear_reloc = λ rel m. done m;
  section_offset = λ at. at;
  will_finish = λ h. false;
  references_local = λ h. true;
  calls_local = λ h. true;
  symbolic_bind = λ h. false;
  sec_addr = 0x1000;
  output_vma = some 0x1000;
  output_offset = 64;
  debugging = false;
  alloc = true;
  sgot_addr = 0x2000;
  splt_addr = 0x3000;
  local_tls = λ i. 1;
}

abbrev before : Relocating
before = record {
  contents = replicate 12 0;
  sgot = replicate 12 0;
  relgot = record { entries = []; reloc_count = 0 };
  sreloc = record { entries = []; reloc_count = 0 };
  got_offset = λ i. 8;
  local_got = λ i. 4;
  pcrel = record { hi_relocs = []; lo_relocs = [] };
  imports = no_imports;
  kept = [];
}

abbrev rela : ℕ → ℕ → RelocType → Rela
rela at sym type = record { r_offset = at; r_sym = sym; r_type = type; r_addend = 0 }

-- `lui` and `addi` of the imported function, and a word with the distance of two places in this section.
abbrev rels : List Rela
rels = rela 0 1 r_hi20 ∷ rela 4 1 r_lo12_i ∷ rela 8 0 r_add32 ∷ rela 0 0 r_none ∷ []

-- The entry of `f` has both places.
abbrev entered : ImportState
entered = record no_imports {
  table = set no_imports.table 102 (
      record { name = 102 ∷ []; reloc_count = 0; refs = rela 64 0 r_hi20 ∷ rela 68 0 r_lo12_i ∷ [] }
      ∷ []);
}

abbrev relocated : Relocating
relocated = record before {
  contents = 0 ∷ 80 ∷ 52 ∷ 18 ∷ 0 ∷ 0 ∷ 128 ∷ 103 ∷ 120 ∷ 86 ∷ 52 ∷ 18 ∷ [];
  imports = entered;
  kept = 9 ∷ 9 ∷ [];
}

-- The instructions and the word are patched, and the entry is made.
relocate_run : relocate_section host rels before ≡ done (true, relocated)
unfolding relocate_section relocate_loop relocate_turn find_global relocate_global relocate_resolved
    perform answer is_reported handle finish_section init_pcrel_relocs resolve_pcrel_lo_relocs
    resolve_loop register_import_reloc import_section import_symbol enter_reloc add_value follow
    same_name insert_import_entry enter_import update_import find_import collect_counts count_ref
    output_ref add_ref hash_sdbm perform_relocation encode place_value patch
relocate_run = refl

relocate_section-register_all_example : register_all host rels no_imports ≡ done entered
relocate_section-register_all_example =
    relocate_section-register_all host rels before relocated relocate_run

-- The first reference to the entry of a global symbol fills it.
abbrev filled : Relocating
filled = record before {
  sgot = 0 ∷ 0 ∷ 0 ∷ 0 ∷ 0 ∷ 0 ∷ 0 ∷ 0 ∷ 120 ∷ 86 ∷ 52 ∷ 18 ∷ [];
  got_offset = put before.got_offset 2 9;
}

got_run : got_entry host (some 2) 5 0x12345678 false before ≡ done (8, false, filled)
unfolding got_entry global_got init_got put_word write_all write le32
got_run = refl

got_entry-once_example : got_entry host (some 2) 5 7 false filled ≡ done (8, false, filled)
got_entry-once_example =
    got_entry-once host (some 2) 5 0x12345678 7 false before (8, false, filled) got_run
