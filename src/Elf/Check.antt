-- ===== src/Elf/Check.antt =====
-- `riscv_elf_check_relocs` of elf32-riscv.c: the references of a section are counted before the symbols are
-- allocated.
use soft_hier_release_test.Base.{
  ℕ, ◌+◌, bit_and, bit_or, Bool, true, false, not, ◌&&◌, ◌||◌, Option, none, some, List, [], ◌∷◌,
  ltb, ◌==◌, if◌then◌else◌,
}
use soft_hier_release_test.Memory.{Outcome, done, failed, ◌>>=◌}
use soft_hier_release_test.Bfd.{
  RelocType, Rela, r_tls_gd_hi20, r_tls_got_hi20, r_got_hi20, r_call_plt, r_call, r_jal, r_branch,
  r_rvc_branch, r_rvc_jump, r_pcrel_hi20, r_tprel_hi20, r_hi20, r_copy, r_jump_slot, r_relative,
  r_64, r_32, r_gnu_vtinherit, r_gnu_vtentry,
}
use soft_hier_release_test.Pulp.Hash.{Name, same_name}
use soft_hier_release_test.Pulp.Import.{insert_import_entry}
use soft_hier_release_test.Elf.{
  is_defweak, DynRelocs, SymbolRefs, got_normal, got_tls_gd, got_tls_ie, got_tls_le, Input, Host,
  LinkState, put, update_refs, update_symbol, symbol_of,
}

-- `".pulp.import"`.
abbrev pub pulp_import : Name
pulp_import = 46 ∷ 112 ∷ 117 ∷ 108 ∷ 112 ∷ 46 ∷ 105 ∷ 109 ∷ 112 ∷ 111 ∷ 114 ∷ 116 ∷ []

abbrev pub set_non_ir_ref : SymbolRefs → SymbolRefs
set_non_ir_ref r = record r { non_ir_ref = true }

abbrev pub add_got : SymbolRefs → SymbolRefs
add_got r = record r { got_refcount = r.got_refcount + 1 }

abbrev pub need_plt : SymbolRefs → SymbolRefs
need_plt r = record r { needs_plt = true; plt_refcount = r.plt_refcount + 1 }

-- `non_got_ref`, and the count for a `.plt` entry if the output is not position-independent.
abbrev pub static_ref : Bool → SymbolRefs → SymbolRefs
static_ref pic r = record r {
  non_got_ref = true;
  plt_refcount = if pic then r.plt_refcount else r.plt_refcount + 1;
}

-- The test on a `tls_type` with the new bit: `GOT_NORMAL` and another one.
unfoldable pub is_mixed : ℕ → Bool
is_mixed t = bit_and t got_normal == 1 && not (bit_and t 254 == 0)

module _ (input : Input) (host : Host) where
  -- `riscv_elf_record_tls_type`. For a local symbol the array is there when a GOT reference has been
  -- recorded; the code asks for it nowhere else.
  unfoldable pub record_tls_type : Option ℕ → ℕ → ℕ → LinkState → Outcome LinkState
  record_tls_type (some h) r_symndx tls_type s =
      let t = bit_or (s.refs h).tls_type tls_type in
      if is_mixed t
      then failed
      else done (update_refs h (λ (r : SymbolRefs). record r { tls_type = t }) s)
  record_tls_type none r_symndx tls_type s =
      let t = bit_or (s.local_tls r_symndx) tls_type in
      if is_mixed t then failed else done (record s { local_tls = put s.local_tls r_symndx t })

  -- `riscv_elf_record_got_reference`.
  unfoldable pub record_got_reference : Option ℕ → ℕ → LinkState → Outcome LinkState
  record_got_reference h r_symndx s =
      let local = λ (counts : ℕ → ℕ).
        done (record s {
          sgot = true;
          local_got = some (put counts r_symndx (counts r_symndx + 1));
        }) in
      if s.sgot || host.got_made
      then elim h [
        | some h' ↦ done (update_refs h' add_got (record s { sgot = true }))
        | none ↦ elim s.local_got [
          | some counts ↦ local counts
          | none ↦ if host.memory then local (λ i. 0) else failed
        ]
      ]
      else failed

  -- A reference through the GOT, with the access that it makes.
  unfoldable pub got_reference : Option ℕ → ℕ → ℕ → LinkState → Outcome LinkState
  got_reference h r_symndx tls_type s =
      record_got_reference h r_symndx s >>= record_tls_type h r_symndx tls_type

  -- Whether the relocation has to be copied into the output.
  unfoldable pub is_copied : Option ℕ → RelocType → Bool
  is_copied h r_type =
      let weak_or_outside =
        λ (i : ℕ). is_defweak (input.symbols i).h_type || not (input.symbols i).def_regular in
      let bound_elsewhere : Bool = elim h [
        | none ↦ false
        | some i ↦ if input.pic then not input.symbolic || weak_or_outside i else weak_or_outside i
      ] in
      input.sec_alloc
      && (if input.pic then not (host.pc_relative r_type) || bound_elsewhere else bound_elsewhere)

  -- The count of the section at the head of the list, which is made first if it is not there.
  unfoldable pub count_dyn_reloc : Bool → List DynRelocs → List DynRelocs
  count_dyn_reloc pc [] = record { sec = input.sec; count = 1; pc_count = if pc then 1 else 0 } ∷ []
  count_dyn_reloc pc (p ∷ ps) =
      if p.sec == input.sec
      then record p { count = p.count + 1; pc_count = if pc then p.pc_count + 1 else p.pc_count }
        ∷ ps
      else record { sec = input.sec; count = 1; pc_count = if pc then 1 else 0 } ∷ p ∷ ps

  abbrev pub is_at_head : List DynRelocs → Bool
  is_at_head [] = false
  is_at_head (p ∷ ps) = p.sec == input.sec

  -- The list that counts the copies: the symbol's, or that of the section of a local symbol.
  unfoldable pub copy_reloc : Option ℕ → Rela → LinkState → Outcome LinkState
  copy_reloc h rel s =
      let pc = host.pc_relative rel.r_type in
      if s.sreloc || host.reloc_section_made
      then elim h [
        | some i ↦
            if is_at_head (s.refs i).dyn_relocs || host.memory
            then done (
                update_refs i
                  (λ (r : SymbolRefs). record r { dyn_relocs = count_dyn_reloc pc r.dyn_relocs })
                  (record s { sreloc = true }))
            else failed
        | none ↦ elim (host.local_section rel.r_sym) [
          | none ↦ failed
          | some k ↦
              if is_at_head (s.local_dynrel k) || host.memory
              then done (record s {
                sreloc = true;
                local_dynrel = put s.local_dynrel k (count_dyn_reloc pc (s.local_dynrel k));
              })
              else failed
        ]
      ]
      else failed

  -- From the label `static_reloc` on.
  unfoldable pub static_reloc : Option ℕ → Rela → LinkState → Outcome LinkState
  static_reloc h rel s =
      let s' = update_symbol h (static_ref input.pic) s in
      if is_copied h rel.r_type then copy_reloc h rel s' else done s'

  -- The references that bind locally in a shared library.
  abbrev pub local_reloc : Option ℕ → Rela → LinkState → Outcome LinkState
  local_reloc h rel s = if input.pic then done s else static_reloc h rel s

  -- The `switch` on the type.
  unfoldable pub check_type : RelocType → Option ℕ → Rela → LinkState → Outcome LinkState
  check_type r_tls_gd_hi20 h rel s = got_reference h rel.r_sym got_tls_gd s
  check_type r_tls_got_hi20 h rel s =
      got_reference h rel.r_sym got_tls_ie (record s { static_tls = s.static_tls || input.pic })
  check_type r_got_hi20 h rel s = got_reference h rel.r_sym got_normal s
  check_type r_call_plt none rel s = done s
  check_type r_call_plt (some i) rel s = done (update_refs i need_plt s)
  check_type r_call h rel s = local_reloc h rel s
  check_type r_jal h rel s = local_reloc h rel s
  check_type r_branch h rel s = local_reloc h rel s
  check_type r_rvc_branch h rel s = local_reloc h rel s
  check_type r_rvc_jump h rel s = local_reloc h rel s
  check_type r_pcrel_hi20 h rel s = local_reloc h rel s
  check_type r_tprel_hi20 none rel s = if input.executable then static_reloc none rel s else failed
  check_type r_tprel_hi20 (some i) rel s =
      -- The result of `riscv_elf_record_tls_type` is ignored, but its store is made in any case.
      let t = bit_or (s.refs i).tls_type got_tls_le in
      if input.executable
      then static_reloc (some i) rel
          (update_refs i (λ (r : SymbolRefs). record r { tls_type = t }) s)
      else failed
  check_type r_hi20 h rel s = if input.pic then failed else static_reloc h rel s
  check_type r_copy h rel s = static_reloc h rel s
  check_type r_jump_slot h rel s = static_reloc h rel s
  check_type r_relative h rel s = static_reloc h rel s
  check_type r_64 h rel s = static_reloc h rel s
  check_type r_32 h rel s = static_reloc h rel s
  check_type r_gnu_vtinherit h rel s = if host.vtinherit_recorded rel then done s else failed
  check_type r_gnu_vtentry h rel s = if host.vtentry_recorded rel then done s else failed
  check_type _ h rel s = done s

  -- A weak symbol that stands for an import: its section is kept, and the reference is counted in the
  -- import table. The answer of `InsertImportEntry` is ignored.
  unfoldable pub pre_import : ℕ → Rela → LinkState → Outcome LinkState
  pre_import i rel s =
      let symbol = input.symbols i in
      if is_defweak symbol.h_type
      then elim symbol.section [
        | none ↦ done s
        | some sec ↦
            if same_name sec.section_name pulp_import
            then (do
              (ok, imports') ←
                  insert_import_entry host.memory host.memory host.memory symbol.string rel
                    sec.output_offset true s.imports
              done (record s { kept = sec.id ∷ s.kept; imports = imports' }))
            else done s
      ]
      else done s

  -- One turn of the loop.
  unfoldable pub check_reloc : Rela → LinkState → Outcome LinkState
  check_reloc rel s =
      if ltb rel.r_sym input.num_symbols
      then (do
        h ← symbol_of input rel.r_sym
        s' ← elim h [ none ↦ done s | some i ↦ pre_import i rel (update_refs i set_non_ir_ref s) ]
        check_type rel.r_type h rel s')
      else failed

  unfoldable pub check_loop : List Rela → LinkState → Outcome LinkState
  check_loop [] s = done s
  check_loop (rel ∷ rels) s = check_reloc rel s >>= check_loop rels

  -- `riscv_elf_check_relocs`.
  unfoldable pub check_relocs : List Rela → LinkState → Outcome LinkState
  check_relocs rels s =
      if input.relocatable then done s else check_loop rels (record s { sreloc = false })
