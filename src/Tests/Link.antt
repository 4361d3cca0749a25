-- ===== src/Tests/Link.antt =====
-- A section with four relocations, checked and swept.
use soft_hier_release_test.Base.{ℕ, ◌+◌, true, false, none, some, List, [], ◌∷◌, ◌≡◌, refl}
use soft_hier_release_test.Memory.{Outcome, done, failed, fault}
use soft_hier_release_test.Bfd.{RelocType, Rela, r_got_hi20, r_tprel_hi20, r_call_plt}
use soft_hier_release_test.Pulp.Import.{no_imports}
use soft_hier_release_test.Elf.{
  undefined, Symbol, SymbolRefs, Input, Host, LinkState, follow, symbol_of,
}
use soft_hier_release_test.Elf.Check.{
  is_mixed, record_tls_type, record_got_reference, got_reference, is_copied, count_dyn_reloc,
  copy_reloc, static_reloc, check_type, pre_import, check_reloc, check_loop, check_relocs,
}
use soft_hier_release_test.Elf.Sweep.{gc_sweep_hook}
use soft_hier_release_test.Elf.Locals.{local_count}
use soft_hier_release_test.Elf.Locals.Hits.{LocallyGrown}
use soft_hier_release_test.Elf.Counts.{tprel_weight, check_weight}
use soft_hier_release_test.Elf.Restore.{hits, Grown, check_relocs-Grown, sweep-check}

abbrev outside : Symbol
outside = record {
  string = 102 ∷ [];
  h_type = undefined;
  link = 0;
  section = none;
  def_regular = false;
}

abbrev no_refs : SymbolRefs
no_refs = record {
  non_ir_ref = false;
  needs_plt = false;
  non_got_ref = false;
  got_refcount = 0;
  plt_refcount = 0;
  tls_type = 0;
  dyn_relocs = [];
}

abbrev input : Input
input = record {
  relocatable = false;
  pic = false;
  executable = true;
  symbolic = false;
  num_symbols = 8;
  sh_info = 4;
  sym_hashes = λ i. i;
  symbols = λ i. outside;
  depth = 4;
  sec = 7;
  sec_alloc = true;
}

abbrev host : Host
host = record {
  pc_relative = λ t. false;
  local_section = λ i. some 7;
  memory = true;
  got_made = true;
  reloc_section_made = true;
  vtinherit_recorded = λ r. true;
  vtentry_recorded = λ r. true;
}

abbrev start : LinkState
start = record {
  refs = λ i. no_refs;
  local_got = none;
  local_tls = λ i. 0;
  local_dynrel = λ i. [];
  imports = no_imports;
  kept = [];
  static_tls = false;
  sgot = false;
  sreloc = false;
}

abbrev reloc : RelocType → ℕ → Rela
reloc t i = record { r_offset = 0; r_sym = i; r_type = t; r_addend = 0 }

abbrev rels : List Rela
rels = reloc r_got_hi20 5 ∷ reloc r_got_hi20 2 ∷ reloc r_call_plt 6 ∷ reloc r_tprel_hi20 6 ∷ []

abbrev state_of : Outcome LinkState → LinkState
state_of (done s) = s
state_of failed = start
state_of fault = start

abbrev checked : LinkState
checked = state_of (check_relocs input host rels start)

checked_done : check_relocs input host rels start ≡ done checked
unfolding check_relocs check_loop check_reloc symbol_of follow pre_import check_type got_reference
    record_got_reference record_tls_type is_mixed static_reloc is_copied copy_reloc count_dyn_reloc
checked_done = refl

check_relocs-Grown_example :
    Grown input (check_weight false) rels start checked × LocallyGrown input rels start checked
check_relocs-Grown_example = check_relocs-Grown input host rels start checked refl checked_done

sweep-check_example :
    (u : LinkState) × (gc_sweep_hook input rels checked ≡ done u)
    × ((i : ℕ)
        → ((u.refs i).got_refcount ≡ (start.refs i).got_refcount)
          × ((u.refs i).plt_refcount
              ≡ (start.refs i).plt_refcount + hits input (tprel_weight false) i rels))
    × ((k : ℕ) → local_count u.local_got k ≡ local_count start.local_got k)
sweep-check_example = sweep-check input host rels start checked refl checked_done
