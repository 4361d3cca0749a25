-- ===== src/Elf/Relocate/Turn.antt =====
-- The loop of `riscv_elf_relocate_section` in elf32-riscv.c.
use soft_hier_release_test.Base.{
  ℕ, ◌+◌, ◌-◌, ◌^◌, Bool, true, false, not, ◌&&◌, Option, none, some, List, [], ◌∷◌, ltb, ◌==◌,
  if◌then◌else◌, u64,
}
use soft_hier_release_test.Memory.{Outcome, done, ◌>>=◌, failed}
use soft_hier_release_test.Bfd.{
  RelocType, Rela, r_none, r_32, r_64, r_relative, r_copy, r_jump_slot, r_tls_dtprel32,
  r_tls_dtprel64, r_branch, r_jal, r_call, r_call_plt, r_got_hi20, r_tls_got_hi20, r_tls_gd_hi20,
  r_pcrel_hi20, r_pcrel_lo12_i, r_pcrel_lo12_s, r_hi20, r_lo12_i, r_lo12_s, r_tprel_hi20,
  r_tprel_lo12_i, r_tprel_lo12_s, r_tprel_add, r_add8, r_add16, r_add32, r_add64, r_sub8, r_sub16,
  r_sub32, r_sub64, r_gnu_vtinherit, r_gnu_vtentry, r_rvc_branch, r_rvc_jump, r_rvc_lui, r_gprel_i,
  r_gprel_s, r_tprel_i, r_tprel_s, r_relax, r_sub6, r_set6, r_set8, r_set16, r_set32, r_12_i,
  r_12_s, r_rel12, r_relu5,
}
use soft_hier_release_test.Elf.{follow}
use soft_hier_release_test.Elf.Reloc.{
  Status, reloc_ok, reloc_overflow, reloc_not_supported, tpoff, dtpoff, perform_relocation,
}
use soft_hier_release_test.Elf.Reloc.Pcrel.{init_pcrel_relocs, resolve_pcrel_lo_relocs}
use soft_hier_release_test.Elf.Relocate.{
  Resolved, RelocHost, Relocating, Handled, skipped, go, register_import_reloc, add_value,
  sub_value, call_value, tprel_value, gprel_value, pcrel_hi, pcrel_lo,
}
use soft_hier_release_test.Elf.Relocate.Got.{got_hi20, tls_got, word_value}

abbrev pub or_start : Option ℕ → ℕ
or_start none = 0
or_start (some a) = a

-- The answer of a turn: to go on, or `goto out`.
pub data Answer : Type 0 where
  next stop : Relocating → Answer

abbrev pub is_vtable : RelocType → Bool
is_vtable r_gnu_vtinherit = true
is_vtable r_gnu_vtentry = true
is_vtable _ = false

-- What the status of a relocation leads to.
unfoldable pub answer : Status → Relocating → Answer
answer reloc_ok s = next s
answer reloc_overflow s = stop s
answer reloc_not_supported s = stop s

module _ (host : RelocHost) where
  -- `r_type` of a symbol's relocation, the `switch`.
  unfoldable pub handle : RelocType → Option ℕ → ℕ → Rela → ℕ → Bool → Relocating → Outcome Handled
  handle r_none h pc rel v un s = done (skipped s)
  handle r_relax h pc rel v un s = done (skipped s)
  handle r_tprel_add h pc rel v un s = done (skipped s)
  handle r_copy h pc rel v un s = done (skipped s)
  handle r_jump_slot h pc rel v un s = done (skipped s)
  handle r_relative h pc rel v un s = done (skipped s)
  handle r_hi20 h pc rel v un s = done (go reloc_ok rel v un s)
  handle r_branch h pc rel v un s = done (go reloc_ok rel v un s)
  handle r_rvc_branch h pc rel v un s = done (go reloc_ok rel v un s)
  handle r_rvc_lui h pc rel v un s = done (go reloc_ok rel v un s)
  handle r_lo12_i h pc rel v un s = done (go reloc_ok rel v un s)
  handle r_lo12_s h pc rel v un s = done (go reloc_ok rel v un s)
  handle r_relu5 h pc rel v un s = done (go reloc_ok rel v un s)
  handle r_rel12 h pc rel v un s = done (go reloc_ok rel v un s)
  handle r_12_i h pc rel v un s = done (go reloc_ok rel v un s)
  handle r_12_s h pc rel v un s = done (go reloc_ok rel v un s)
  handle r_set6 h pc rel v un s = done (go reloc_ok rel v un s)
  handle r_set8 h pc rel v un s = done (go reloc_ok rel v un s)
  handle r_set16 h pc rel v un s = done (go reloc_ok rel v un s)
  handle r_set32 h pc rel v un s = done (go reloc_ok rel v un s)
  handle r_got_hi20 h pc rel v un s = got_hi20 host h pc rel v un s
  handle r_add8 h pc rel v un s = add_value host rel v un s
  handle r_add16 h pc rel v un s = add_value host rel v un s
  handle r_add32 h pc rel v un s = add_value host rel v un s
  handle r_add64 h pc rel v un s = add_value host rel v un s
  handle r_sub6 h pc rel v un s = sub_value host rel v un s
  handle r_sub8 h pc rel v un s = sub_value host rel v un s
  handle r_sub16 h pc rel v un s = sub_value host rel v un s
  handle r_sub32 h pc rel v un s = sub_value host rel v un s
  handle r_sub64 h pc rel v un s = sub_value host rel v un s
  handle r_call_plt h pc rel v un s = done (call_value host h rel v un s)
  handle r_call h pc rel v un s = done (call_value host h rel v un s)
  handle r_jal h pc rel v un s = done (call_value host h rel v un s)
  handle r_rvc_jump h pc rel v un s = done (call_value host h rel v un s)
  handle r_tprel_hi20 h pc rel v un s =
      done (go reloc_ok rel (tpoff host.tp_offset host.tls_vma v) un s)
  handle r_tprel_lo12_i h pc rel v un s =
      done (go reloc_ok rel (tpoff host.tp_offset host.tls_vma v) un s)
  handle r_tprel_lo12_s h pc rel v un s =
      done (go reloc_ok rel (tpoff host.tp_offset host.tls_vma v) un s)
  handle r_tprel_i h pc rel v un s = tprel_value host rel v un s
  handle r_tprel_s h pc rel v un s = tprel_value host rel v un s
  handle r_gprel_i h pc rel v un s = gprel_value host rel v un s
  handle r_gprel_s h pc rel v un s = gprel_value host rel v un s
  handle r_pcrel_hi20 h pc rel v un s = done (pcrel_hi host pc rel v un s)
  handle r_pcrel_lo12_i h pc rel v un s = done (pcrel_lo host rel v un s)
  handle r_pcrel_lo12_s h pc rel v un s = done (pcrel_lo host rel v un s)
  handle r_tls_dtprel32 h pc rel v un s = done (go reloc_ok rel (dtpoff host.tls_vma v) un s)
  handle r_tls_dtprel64 h pc rel v un s = done (go reloc_ok rel (dtpoff host.tls_vma v) un s)
  handle r_32 h pc rel v un s = word_value host h rel v un s
  handle r_64 h pc rel v un s = word_value host h rel v un s
  handle r_tls_got_hi20 h pc rel v un s = tls_got host true h pc rel v s
  handle r_tls_gd_hi20 h pc rel v un s = tls_got host false h pc rel v s
  handle _ h pc rel v un s = done (go reloc_not_supported rel v un s)

  -- An unresolved relocation is reported and passed over, unless it stands in a section for debugging and
  -- the symbol is defined in a shared library, or its place is not in the output.
  unfoldable pub is_reported : Option ℕ → Rela → Bool → Bool
  is_reported none rel unresolved = false
  is_reported (some i) rel unresolved =
      unresolved
      && not (host.debugging && (host.dyn_symbols i).def_dynamic)
      && not (host.section_offset rel.r_offset == 2 ^ 64 - 1)

  -- The end of a turn.
  unfoldable pub perform : Bool → Option ℕ → Handled → Outcome Answer
  perform is_import h (skipped s) = done (next s)
  perform is_import h (go reloc_ok rel value unresolved s) =
      if is_reported h rel unresolved
      then done (next s)
      else perform_relocation host.codec (host.howto_of rel.r_type) rel value host.sec_addr
          s.contents is_import
        >>= (λ p. done (answer p.0 (record s { contents = p.1 })))
  perform is_import h (go status rel value unresolved s) =
      done (if is_reported h rel unresolved then next s else answer status s)

  -- The part behind the look-up of the symbol.
  unfoldable pub relocate_resolved : Bool → Option ℕ → Resolved → Relocating → Outcome Answer
  relocate_resolved is_import h resolved s =
      if resolved.discarded
      then host.clear_reloc resolved.rel s.contents
        >>= (λ m. done (next (record s { contents = m })))
      else if host.relocatable
      then done (next s)
      else (do
        let rel = resolved.rel
        let value = if resolved.warned then or_start host.output_vma else resolved.relocation
        handled ←
            handle rel.r_type h (u64 (host.sec_addr + rel.r_offset)) rel value resolved.unresolved s
        perform is_import h handled)

  -- The search of `RELOC_FOR_GLOBAL_SYMBOL`, which returns FALSE if there are no symbols.
  unfoldable pub find_global : Rela → Outcome ℕ
  find_global rel =
      if host.has_hashes
      then follow host.symbols host.depth (host.sym_hashes (rel.r_sym - host.sh_info))
      else failed

  -- A turn for a global symbol, which may be an import.
  unfoldable pub relocate_global : Rela → Relocating → Outcome Answer
  relocate_global rel s = do
    registered ← register_import_reloc host rel s
    h ← find_global rel
    relocate_resolved registered.0 (some h) (host.resolve_global rel h) registered.1

  -- A turn of the loop.
  unfoldable pub relocate_turn : Rela → Relocating → Outcome Answer
  relocate_turn rel s =
      let global = relocate_global rel s in
      let resolved : Resolved = record (host.resolve_local rel) { warned = false } in
      let local = relocate_resolved false none resolved s in
      if is_vtable rel.r_type
      then done (next s)
      else if ltb rel.r_sym host.sh_info
      then local
      else global

  -- The loop; `false` is `goto out`.
  unfoldable pub relocate_loop : List Rela → Relocating → Outcome (Bool × Relocating)
  relocate_loop [] s = done (true, s)
  relocate_loop (rel ∷ rels) s = do
    a ← relocate_turn rel s
    elim a [ next t ↦ relocate_loop rels t | stop t ↦ done (false, t) ]

  -- The low parts that wait for their high parts, if the loop came to its end. A low part without its high
  -- part is reported and ends the work, but the answer is TRUE all the same.
  unfoldable pub finish_section : Bool × Relocating → Outcome (Bool × Relocating)
  finish_section (false, s) = done (false, s)
  finish_section (true, s) = do
    r ← resolve_pcrel_lo_relocs host.codec host.htab_find host.sec_addr s.pcrel s.contents
    done (true, record s { contents = r.1 })

  -- `riscv_elf_relocate_section`.
  unfoldable pub relocate_section : List Rela → Relocating → Outcome (Bool × Relocating)
  relocate_section rels s = do
    p ← init_pcrel_relocs host.table_made
    r ← relocate_loop rels (record s { pcrel = p })
    finish_section r
