-- ===== src/Tests/Alloc.antt =====
-- Symbols that are allocated and merged, and relocations that are performed.
use soft_hier_release_test.Base.{
  ℕ, ◌+◌, true, false, none, some, List, [], ◌∷◌, ◌≡◌, refl, if◌then◌else◌, ◌==◌, sub64, sym, ap,
}
use soft_hier_release_test.Memory.{Outcome, done, failed, fault, ◌>>=◌}
use soft_hier_release_test.Bfd.{r_pcrel_lo12_i}
use soft_hier_release_test.Elf.{defined, DynRelocs}
use soft_hier_release_test.Elf.Alloc.{
  refcount, offset, input_section, DynSymbol, Sizes, Output, make_dynamic, plt_entry, allocate_plt,
  allocate_got, got_slots, got_relocs, keep_pic, keep_fixed, allocate_relocs, allocate_copied,
  allocate_dynrelocs, allocate_all, adjust_dynamic_symbol, adjust_variable, copy_variable,
  any_readonly,
}
use soft_hier_release_test.Elf.Alloc.Slots.{
  PltSized, plt_offsets, entries_from, allocate_all-PltSized,
}
use soft_hier_release_test.Memory.Frame.{done-injective}
use soft_hier_release_test.Elf.Alloc.Copy.{copy_bytes, adjust_dynamic_symbol-copy_bytes}
use soft_hier_release_test.Elf.Alloc.Merge.{
  copy_indirect_symbol, total, pc_total, copy_indirect_symbol-total,
}
use soft_hier_release_test.Elf.Reloc.{Howto, Codec, perform_relocation}
use soft_hier_release_test.Elf.Reloc.Pcrel.{
  HtabFind, FindsLatest, LoReloc, PcrelRelocs, record_pcrel_hi_reloc, record_pcrel_lo_reloc,
  resolve_loop, resolve_pcrel_lo_relocs, resolve-record,
}

abbrev function : List DynRelocs → DynSymbol
function copied = record {
  h_type = defined;
  is_function = true;
  needs_plt = true;
  plt = refcount 2;
  got = refcount 1;
  tls_type = 1;
  default_visibility = true;
  weak_definition = none;
  home = input_section 3;
  value = 8;
  size = 4;
  non_got_ref = false;
  needs_copy = false;
  def_regular = false;
  def_dynamic = true;
  dynindx = none;
  forced_local = false;
  dyn_relocs = copied;
}

abbrev count : ℕ → ℕ → DynRelocs
count s n = record { sec = s; count = n; pc_count = 1 }

abbrev pub two : List DynSymbol
two = function (count 3 2 ∷ []) ∷ function [] ∷ []

abbrev pub sizes : Sizes
sizes = record {
  plt_size = 0;
  gotplt_size = 8;
  relplt_size = 0;
  got_size = 4;
  relgot_size = 0;
  relbss_size = 0;
  reldynrelro_size = 0;
  sreloc_size = λ i. 0;
}

abbrev pub output : Output
output = record {
  pic = false;
  nocopyreloc = false;
  dynamic_sections_created = true;
  output_readonly = λ i. false;
  home_readonly = λ h. false;
  home_alloc = λ h. true;
  calls_local = λ h. false;
  will_finish = λ dyn shared h. dyn;
  record_dynamic = λ h. some (some 1, false);
  adjust_copy = λ s h. done h;
}

abbrev result_of : Outcome (List DynSymbol × Sizes) → List DynSymbol × Sizes
result_of (done r) = r
result_of failed = ([], sizes)
result_of fault = ([], sizes)

abbrev pub allocated : List DynSymbol × Sizes
allocated = result_of (allocate_all output two sizes)

pub allocated_done : allocate_all output two sizes ≡ done allocated
unfolding allocate_all allocate_dynrelocs allocate_plt allocate_got allocate_copied make_dynamic
    plt_entry got_slots got_relocs keep_pic keep_fixed allocate_relocs
allocated_done = refl

pub no_entries : PltSized 8 0 sizes
no_entries = record { entries = refl; gotplt = refl; relplt = refl }

allocate_all-PltSized_example :
    (k : ℕ) × (plt_offsets allocated.0 ≡ entries_from 0 k) × PltSized 8 (0 + k) allocated.1
allocate_all-PltSized_example =
    allocate_all-PltSized output 8 two 0 sizes allocated no_entries (refl, (refl, tt))
      allocated_done

-- A variable of a shared library, with a reference in a read-only section.
abbrev variable : DynSymbol
variable = record (function (count 3 1 ∷ [])) {
  is_function = false;
  needs_plt = false;
  non_got_ref = true;
}

abbrev read_only : Output
read_only = record output { output_readonly = λ i. true }

abbrev adjusted : DynSymbol × Sizes
adjusted =
    (record variable { plt = offset none; needs_copy = true }, record sizes { relbss_size = 12 })

adjusted_done : adjust_dynamic_symbol read_only variable sizes ≡ done adjusted
unfolding adjust_dynamic_symbol adjust_variable copy_variable any_readonly
adjusted_done = refl

adjust_dynamic_symbol-copy_bytes_example :
    copy_bytes adjusted.1 ≡ copy_bytes sizes + (if adjusted.0.needs_copy then 12 else 0)
adjust_dynamic_symbol-copy_bytes_example =
    adjust_dynamic_symbol-copy_bytes read_only
      (λ c h d e. ap (λ (t : DynSymbol). t.needs_copy) (sym (done-injective h d e))) variable sizes
      adjusted refl adjusted_done

copy_indirect_symbol-total_example :
    let r =
      copy_indirect_symbol
        (λ x. x)
        (function (count 3 2 ∷ []))
        (function (count 3 1 ∷ count 4 1 ∷ [])) in
    (total 3 r.0.dyn_relocs ≡ total 3 (count 3 1 ∷ count 4 1 ∷ []) + total 3 (count 3 2 ∷ []))
    × (pc_total 3 r.0.dyn_relocs
        ≡ pc_total 3 (count 3 1 ∷ count 4 1 ∷ []) + pc_total 3 (count 3 2 ∷ []))
    × (r.1.dyn_relocs ≡ [])
copy_indirect_symbol-total_example =
    copy_indirect_symbol-total (function (count 3 2 ∷ [])) (function (count 3 1 ∷ count 4 1 ∷ [])) 3

-- Encodings that keep the value.
abbrev codec : Codec
codec = record {
  const_high_part = λ v. v;
  encode_utype = λ v. v;
  encode_itype = λ v. v;
  encode_stype = λ v. v;
  encode_i1type_u = λ v. v;
  encode_ujtype = λ v. v;
  encode_sbtype = λ v. v;
  encode_rvc_b = λ v. v;
  encode_rvc_j = λ v. v;
  encode_rvc_lui = λ v. v;
  valid_itype = λ v. true;
  valid_stype = λ v. true;
  valid_ujtype = λ v. true;
  valid_sbtype = λ v. true;
  valid_rvc_b = λ v. true;
  valid_rvc_j = λ v. true;
  valid_rvc_lui = λ v. true;
  bfd_get = λ bits m i. done 0;
  bfd_put = λ bits v m i. done (v ∷ []);
}

abbrev howto : Howto
howto = record { pc_relative = true; rightshift = 0; bitsize = 32; dst_mask = 4294967295 }

abbrev low : LoReloc
low = record {
  howto = howto;
  reloc = record { r_offset = 8; r_sym = 0; r_type = r_pcrel_lo12_i; r_addend = 0 };
  addr = 100;
}

abbrev none_met : PcrelRelocs
none_met = record { hi_relocs = []; lo_relocs = [] }

-- A table that is searched from its latest entry on.
unfoldable pub latest : HtabFind
latest [] addr = none
latest (h ∷ hs) addr = if h.address == addr then some h.hi_value else latest hs addr

latest-FindsLatest : FindsLatest latest
unfolding latest FindsLatest
latest-FindsLatest entry stored addr = refl

resolve-record_example :
    (q : PcrelRelocs) × (record_pcrel_hi_reloc true none_met low.addr 164
        >>= (λ r. record_pcrel_lo_reloc true r low)
      ≡ done q)
    × (record_pcrel_lo_reloc true none_met low >>= (λ r. record_pcrel_hi_reloc true r low.addr 164)
        ≡ done q)
    × (resolve_pcrel_lo_relocs codec latest 0 q (1 ∷ [])
        ≡ perform_relocation codec low.howto low.reloc (sub64 164 low.addr) 0 (1 ∷ []) false
          >>= (λ s. resolve_loop codec latest 0 q.hi_relocs none_met.lo_relocs s.1))
resolve-record_example = resolve-record codec latest 0 none_met low 164 (1 ∷ []) latest-FindsLatest
