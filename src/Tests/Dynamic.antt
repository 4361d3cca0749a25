-- ===== src/Tests/Dynamic.antt =====
-- Dynamic sections that are sized and filled.
use soft_hier_release_test.Base.{
  ℕ, ◌+◌, ◌*◌, ◌≤◌, ◌<◌, false, true, none, some, [], ◌∷◌, get_elem?, replicate, u64, ◌≡◌, inr,
  refl, arith,
}
use soft_hier_release_test.Memory.{done}
use soft_hier_release_test.Bfd.{Rela, r_none}
use soft_hier_release_test.Elf.Alloc.{
  allocate_all, allocate_dynrelocs, allocate_plt, allocate_got, allocate_copied, make_dynamic,
  plt_entry, got_slots, got_relocs, keep_pic, keep_fixed, allocate_relocs,
}
use soft_hier_release_test.Elf.Alloc.Size.{
  LocalGot, local_slots, local_relocs, ie_off, size_local_got,
}
use soft_hier_release_test.Elf.Alloc.Local.{size_local_got-disjoint, size_local_got-overlap}
use soft_hier_release_test.Elf.Dynamic.{Insns, DynLink, Appended, Contents, finish_plt, plt_sym_val}
use soft_hier_release_test.Elf.Dynamic.Filled.{IsFilled, finish_plt-allocated}
use soft_hier_release_test.Elf.Dynamic.Sections.{DynHost, DynState, finish_dynamic_sections}
use soft_hier_release_test.Elf.Dynamic.Finished.{IsHeaded, finish_dynamic_sections-IsHeaded}
use soft_hier_release_test.Tests.Alloc.{two, sizes, output, allocated, allocated_done, no_entries}

abbrev insns : Insns
insns = record {
  pcrel_high_part = λ a b. a + b;
  pcrel_low_part = λ a b. a;
  auipc = λ rd imm. imm * 4096 + rd * 128 + 0x17;
  sub = λ rd a b. 0x40000033;
  lw = λ rd a imm. 0x2003;
  addi = λ rd a imm. 0x13;
  srli = λ rd a imm. 0x5013;
  jalr = λ rd a imm. 0x67;
  nop = 0x13;
  x_t0 = 5;
  x_t1 = 6;
  x_t2 = 7;
  x_t3 = 28;
}

abbrev link : DynLink
link = record {
  insns = insns;
  splt_addr = 0x1000;
  sgotplt_addr = 0x2000;
  sgot_addr = 0x3000;
  pic = false;
  symbolic = false;
  home_addr = λ h. 0x4000;
  is_dynrelro = λ h. false;
}

abbrev no_relocs : Appended
no_relocs = record { entries = []; reloc_count = 0 }

abbrev blank : Rela
blank = record { r_offset = 0; r_sym = 0; r_type = r_none; r_addend = 0 }

-- Contents of the sizes that two PLT entries need, all zero.
abbrev zeroed : Contents
zeroed = record {
  splt = replicate 64 0;
  sgotplt = replicate 16 0;
  sgot = replicate 4 0;
  relplt = blank ∷ blank ∷ [];
  relgot = no_relocs;
  relbss = no_relocs;
  reldynrelro = no_relocs;
}

finish_plt-allocated_example :
    (t : Contents) × (finish_plt link (some 1) 48 zeroed ≡ done t)
    × IsFilled link 1 (some 1) zeroed t
    × (plt_sym_val 1 0x1000 ≡ u64 (0x1000 + 48))
unfolding allocate_all allocate_dynrelocs allocate_plt allocate_got allocate_copied make_dynamic
    plt_entry got_slots got_relocs keep_pic keep_fixed allocate_relocs
finish_plt-allocated_example =
    finish_plt-allocated output two sizes allocated link (some 1) zeroed 1 48 no_entries
      (refl, (refl, tt)) allocated_done refl refl refl (omega arith) (omega arith) refl

abbrev host : DynHost
host = record {
  dynamic_sections_created = true;
  srelplt_addr = 0x5000;
  srelplt_size = 24;
  sdyn_addr = some 0x6000;
  has_sgotplt = true;
  has_sgot = true;
  sgotplt_discarded = false;
}

abbrev state : DynState
state = record {
  contents = zeroed;
  dynamic = [];
  plt_entsize = none;
  gotplt_entsize = none;
  got_entsize = none;
}

finish_dynamic_sections-IsHeaded_example :
    (t : DynState) × (finish_dynamic_sections link host state ≡ done t) × IsHeaded state t
finish_dynamic_sections-IsHeaded_example =
    finish_dynamic_sections-IsHeaded link host state refl (inr (omega arith)) (inr (omega arith))
      (inr (omega arith))

-- A local symbol with both kinds of thread-local access, and an ordinary one.
abbrev both : LocalGot
both = record { got_refcount = 2; local_tls_type = 6 }

abbrev plain : LocalGot
plain = record { got_refcount = 1; local_tls_type = 1 }

size_local_got-disjoint_example :
    (sizes.got_size ≤ sizes.got_size)
    × (sizes.got_size + local_slots 6 * 4
        ≤ (size_local_got output (both ∷ plain ∷ []) sizes).1.got_size)
    × ((j b : ℕ)
        → 0 < j
        → get_elem? (size_local_got output (both ∷ plain ∷ []) sizes).0 j ≡ some (some b)
        → sizes.got_size + local_slots 6 * 4 ≤ b)
unfolding size_local_got
size_local_got-disjoint_example =
    size_local_got-disjoint output (both ∷ plain ∷ []) sizes 0 both sizes.got_size refl refl

size_local_got-overlap_example :
    (a : ℕ) × (get_elem? (size_local_got output (both ∷ plain ∷ []) sizes).0 0 ≡ some (some a))
    × (get_elem? (size_local_got output (both ∷ plain ∷ []) sizes).0 1 ≡ some (some (a + ie_off 6)))
    × (local_relocs false 6 ≡ 1)
size_local_got-overlap_example = size_local_got-overlap output both plain [] sizes refl refl refl
