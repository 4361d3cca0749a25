-- ===== src/Elf/Sweep.antt =====
-- `riscv_elf_gc_sweep_hook` and `riscv_elf_gc_mark_hook` of elf32-riscv.c: the references of a section that is
-- removed are taken back.
use soft_hier_release_test.Base.{
  ℕ, ◌-◌, Bool, Option, none, some, List, [], ◌∷◌, ◌==◌, if◌then◌else◌,
}
use soft_hier_release_test.Memory.{Outcome, done, ◌>>=◌}
use soft_hier_release_test.Bfd.{
  RelocType, Rela, r_tls_gd_hi20, r_tls_got_hi20, r_got_hi20, r_call_plt, r_call, r_jal, r_branch,
  r_rvc_branch, r_rvc_jump, r_pcrel_hi20, r_hi20, r_copy, r_jump_slot, r_relative, r_64, r_32,
  r_gnu_vtinherit, r_gnu_vtentry,
}
use soft_hier_release_test.Elf.{
  DynRelocs, SymbolRefs, Input, LinkState, put, update_refs, update_symbol, symbol_of,
}

abbrev pub drop_got : SymbolRefs → SymbolRefs
drop_got r = record r { got_refcount = r.got_refcount - 1 }

abbrev pub drop_plt : SymbolRefs → SymbolRefs
drop_plt r = record r { plt_refcount = r.plt_refcount - 1 }

-- The first count of the section is taken out of the list.
unfoldable pub remove_section : ℕ → List DynRelocs → List DynRelocs
remove_section sec [] = []
remove_section sec (p ∷ ps) = if p.sec == sec then ps else p ∷ remove_section sec ps

abbrev pub forget_section : ℕ → SymbolRefs → SymbolRefs
forget_section sec r = record r { dyn_relocs = remove_section sec r.dyn_relocs }

-- The count of a symbol, or of a local one, stops at 0.
unfoldable pub sweep_got : Option ℕ → ℕ → LinkState → LinkState
sweep_got (some i) r_symndx s = update_refs i drop_got s
sweep_got none r_symndx s = elim s.local_got [
  | none ↦ s
  | some counts ↦ record s { local_got = some (put counts r_symndx (counts r_symndx - 1)) }
]

unfoldable pub sweep_plt : Option ℕ → LinkState → LinkState
sweep_plt h s = update_symbol h drop_plt s

-- The `switch` on the type.
unfoldable pub sweep_type : Bool → RelocType → Option ℕ → ℕ → LinkState → LinkState
sweep_type pic r_got_hi20 h r_symndx s = sweep_got h r_symndx s
sweep_type pic r_tls_got_hi20 h r_symndx s = sweep_got h r_symndx s
sweep_type pic r_tls_gd_hi20 h r_symndx s = sweep_got h r_symndx s
sweep_type pic r_hi20 h r_symndx s = if pic then s else sweep_plt h s
sweep_type pic r_pcrel_hi20 h r_symndx s = if pic then s else sweep_plt h s
sweep_type pic r_copy h r_symndx s = if pic then s else sweep_plt h s
sweep_type pic r_jump_slot h r_symndx s = if pic then s else sweep_plt h s
sweep_type pic r_relative h r_symndx s = if pic then s else sweep_plt h s
sweep_type pic r_64 h r_symndx s = if pic then s else sweep_plt h s
sweep_type pic r_32 h r_symndx s = if pic then s else sweep_plt h s
sweep_type pic r_branch h r_symndx s = if pic then s else sweep_plt h s
sweep_type pic r_call h r_symndx s = if pic then s else sweep_plt h s
sweep_type pic r_jal h r_symndx s = if pic then s else sweep_plt h s
sweep_type pic r_rvc_branch h r_symndx s = if pic then s else sweep_plt h s
sweep_type pic r_rvc_jump h r_symndx s = if pic then s else sweep_plt h s
sweep_type pic r_call_plt h r_symndx s = sweep_plt h s
sweep_type pic _ h r_symndx s = s

module _ (input : Input) where
  -- One turn of the loop.
  unfoldable pub sweep_reloc : Rela → LinkState → Outcome LinkState
  sweep_reloc rel s = do
    h ← symbol_of input rel.r_sym
    done
        (sweep_type input.pic rel.r_type h rel.r_sym (update_symbol h (forget_section input.sec) s))

  unfoldable pub sweep_loop : List Rela → LinkState → Outcome LinkState
  sweep_loop [] s = done s
  sweep_loop (rel ∷ rels) s = sweep_reloc rel s >>= sweep_loop rels

  -- `riscv_elf_gc_sweep_hook`.
  unfoldable pub gc_sweep_hook : List Rela → LinkState → Outcome LinkState
  gc_sweep_hook rels s =
      if input.relocatable
      then done s
      else sweep_loop rels (record s { local_dynrel = put s.local_dynrel input.sec [] })

-- `riscv_elf_gc_mark_hook`: `generic` is what `_bfd_elf_gc_mark_hook` answers.
unfoldable pub gc_mark_hook : Option ℕ → RelocType → Option ℕ → Option ℕ
gc_mark_hook generic r_gnu_vtinherit (some h) = none
gc_mark_hook generic r_gnu_vtentry (some h) = none
gc_mark_hook generic _ h = generic
