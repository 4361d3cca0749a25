-- ===== src/Elf/Relax/Import.antt =====
-- The relaxations for imported symbols and for components (elf32-riscv.c,
-- `_bfd_riscv_relax_import_pcrel` and `_bfd_riscv_relax_got_ref`).
use soft_hier_release_test.Base.{ℕ, suc, true, false, bit_and, bit_or, u64, ◌<<<◌}
use soft_hier_release_test.Memory.{Outcome, done, ◌>>=◌}
use soft_hier_release_test.Bfd.{RelocType, Rela, r_hi20, r_lo12_i, r_pcrel_hi20, r_pcrel_lo12_i}
use soft_hier_release_test.Elf.Relax.Site.{
  Link, Site, Relaxing, retype, rela_at, set_rela, put_bits,
}

-- `(rel+1)->r_info = ELF32_R_INFO (sym, R_RISCV_LO12_I)`.
abbrev pub low_part : ℕ → Rela → Rela
low_part symbol r = record r { r_sym = symbol; r_type = r_lo12_i }

module _ (link : Link) (site : Site) where
  -- `lui & (OP_MASK_RD << OP_SH_RD) | MATCH_LUI`.
  abbrev pub as_lui : ℕ → ℕ
  as_lui word =
      bit_or (bit_and word (u64 (link.opcodes.op_mask_rd <<< link.opcodes.op_sh_rd)))
        link.opcodes.match_lui

  -- `low_part_ref & (rd and rs1) | MATCH_ADDI`.
  abbrev pub as_addi : ℕ → ℕ
  as_addi word =
      let registers =
        bit_or (u64 (link.opcodes.op_mask_rd <<< link.opcodes.op_sh_rd))
          (u64 (link.opcodes.op_mask_rs1 <<< link.opcodes.op_sh_rs1)) in
      bit_or (bit_and word registers) link.opcodes.match_addi

  -- The `switch` for an imported symbol; the types without a case go to the end of the function.
  unfoldable pub absolute_ref : Rela → RelocType → Relaxing → Outcome Relaxing
  absolute_ref rel r_pcrel_lo12_i s = set_rela (retype r_lo12_i) site.index s
  absolute_ref rel r_pcrel_hi20 s = do
    lui ← link.codec.bfd_get 32 s.section.contents rel.r_offset
    s1 ← put_bits link.codec 32 (as_lui lui) rel.r_offset s
    s2 ← set_rela (retype r_hi20) site.index s1
    set_rela (low_part rel.r_sym) (suc site.index) s2
  absolute_ref rel _ s = done (record s { again = false })

  -- `_bfd_riscv_relax_import_pcrel`.
  unfoldable pub relax_import_pcrel : Relaxing → Outcome Relaxing
  relax_import_pcrel s = do
    rel ← rela_at s.section.relocs site.index
    elim site.is_import [
      | true ↦ absolute_ref rel rel.r_type s
      | false ↦ done (record s { again = false })
    ]

  -- `_bfd_riscv_relax_got_ref`.
  unfoldable pub relax_got_ref : Relaxing → Outcome Relaxing
  relax_got_ref s = do
    s1 ← set_rela (retype r_pcrel_hi20) site.index s
    low ← rela_at s1.section.relocs (suc site.index)
    word ← link.codec.bfd_get 32 s1.section.contents low.r_offset
    s2 ← put_bits link.codec 32 (as_addi word) low.r_offset s1
    set_rela (retype r_pcrel_lo12_i) (suc site.index) s2
