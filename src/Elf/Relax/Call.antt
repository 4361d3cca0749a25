-- ===== src/Elf/Relax/Call.antt =====
-- The relaxations that shorten calls and the references to symbols near 0, gp or tp (elf32-riscv.c,
-- `_bfd_riscv_relax_call`, `_bfd_riscv_relax_lui` and `_bfd_riscv_relax_tls_le`).
use soft_hier_release_test.Base.{
  ℕ, ◌+◌, ◌-◌, ◌*◌, ◌/◌, ◌^◌, Bool, true, false, not, ◌&&◌, ◌||◌, bit_and, bit_or, ltb, leb, ◌==◌,
  if◌then◌else◌, u64, sub64, ◌<<<◌, ◌>>>◌,
}
use soft_hier_release_test.Memory.{Outcome, done, fault, ◌>>=◌}
use soft_hier_release_test.Bfd.{
  RelocType, Rela, is_hi20, r_hi20, r_lo12_i, r_lo12_s, r_gprel_i, r_gprel_s, r_rvc_jump, r_jal,
  r_rvc_lui, r_tprel_hi20, r_tprel_add, r_tprel_lo12_i, r_tprel_lo12_s, r_tprel_i, r_tprel_s,
}
use soft_hier_release_test.Elf.Reloc.{tpoff}
use soft_hier_release_test.Elf.Relax.Site.{
  Link, Site, Relaxing, retype, clear_rela, rela_at, set_rela, put_bits, delete_again,
}

-- The static `Mem20Range`.
abbrev pub mem20_range : Bool
mem20_range = true

-- `ELF_MAXPAGESIZE`.
abbrev pub elf_maxpagesize : ℕ
elf_maxpagesize = 0x1000

module _ (link : Link) (site : Site) where
  -- `symval + RISCV_IMM_REACH/2 < RISCV_IMM_REACH`.
  abbrev pub near_zero : Bool
  near_zero = ltb (u64 (site.symval + link.opcodes.imm_reach / 2)) link.opcodes.imm_reach

  -- `foff`, with room for the alignment where the call leaves its output section.
  unfoldable pub call_offset : Rela → ℕ
  call_offset rel =
      let foff = sub64 site.symval (u64 (link.sec_addr + rel.r_offset)) in
      if link.codec.valid_ujtype foff && not (site.sym_output == link.output_section)
      then (if leb (2 ^ 63) foff
          then sub64 foff site.max_alignment
          else u64 (foff + site.max_alignment))
      else foff

  -- The two conditions that stand one behind the other.
  unfoldable pub is_far : ℕ → Bool
  is_far foff =
      let far = not (link.codec.valid_ujtype foff) && not (not link.pic && near_zero) in
      far && ((site.is_import && not mem20_range) || far)

  -- The shorter call: its instruction, the type of its relocation and its length.
  unfoldable pub short_call : ℕ → ℕ → ℕ × RelocType × ℕ
  short_call foff jalr =
      let rd = bit_and (jalr >>> link.opcodes.op_sh_rd) link.opcodes.op_mask_rd in
      let rvc = link.rvc && link.codec.valid_rvc_j foff && not site.is_import in
      if rvc && (rd == 0 || rd == link.opcodes.x_ra)
      then ((if rd == 0 then link.opcodes.match_c_j else link.opcodes.match_c_jal), r_rvc_jump, 2)
      else (if link.codec.valid_ujtype foff || site.is_import
          then (bit_or link.opcodes.match_jal (u64 (rd <<< link.opcodes.op_sh_rd)), r_jal, 4)
          else (bit_or link.opcodes.match_jalr (u64 (rd <<< link.opcodes.op_sh_rd)), r_lo12_i, 4))

  -- The replacement of a call.
  unfoldable pub shorten_call : Rela → ℕ → Relaxing → Outcome Relaxing
  shorten_call rel foff s = do
    auipc ← link.codec.bfd_get 32 s.section.contents rel.r_offset
    jalr ← link.codec.bfd_get 32 s.section.contents (rel.r_offset + 4)
    let short = short_call foff jalr
    s1 ← set_rela (retype short.1) site.index s
    s2 ← put_bits link.codec (8 * short.2) short.0 rel.r_offset s1
    delete_again (rel.r_offset + short.2) (8 - short.2) s2

  -- `_bfd_riscv_relax_call`; its assertion only reports.
  unfoldable pub relax_call : Relaxing → Outcome Relaxing
  relax_call s = do
    rel ← rela_at s.section.relocs site.index
    let foff = call_offset rel
    elim (is_far foff) [ true ↦ done s | false ↦ shorten_call rel foff s ]

  -- `max_alignment`, which is that of one output section if gp and the symbol share it.
  unfoldable pub gp_alignment : ℕ
  gp_alignment =
      if not (link.gp == 0) && (link.gp_output == site.sym_output)
      then u64 (1 <<< site.sym_output_alignment)
      else site.max_alignment

  -- Whether the reference is in range of x0 or gp.
  unfoldable pub is_near_gp : Bool
  is_near_gp =
      link.codec.valid_itype site.symval
      || ((leb link.gp site.symval
            && link.codec.valid_itype
                (u64 (sub64 site.symval link.gp + gp_alignment + site.reserve_size)))
          || (ltb site.symval link.gp
              && link.codec.valid_itype
                  (sub64 (sub64 (sub64 site.symval link.gp) gp_alignment) site.reserve_size)))

  -- The `switch` for a near reference.
  unfoldable pub relax_near : RelocType → ℕ → Relaxing → Outcome Relaxing
  relax_near r_lo12_i offset s = set_rela (retype r_gprel_i) site.index s
  relax_near r_lo12_s offset s = set_rela (retype r_gprel_s) site.index s
  relax_near r_hi20 offset s = set_rela clear_rela site.index s >>= delete_again offset 4
  relax_near _ offset s = fault

  -- Whether C.LUI can hold the high part, wherever the section moves within a page.
  unfoldable pub is_c_lui : RelocType → Bool
  is_c_lui type =
      link.rvc
      && is_hi20 type
      && link.codec.valid_rvc_lui (link.codec.const_high_part site.symval)
      && link.codec.valid_rvc_lui (link.codec.const_high_part (u64 (site.symval + elf_maxpagesize)))

  -- The replacement of LUI by C.LUI, unless the register is sp.
  unfoldable pub compress_lui : ℕ → Relaxing → Outcome Relaxing
  compress_lui offset s = do
    lui ← link.codec.bfd_get 32 s.section.contents offset
    let to_sp = bit_and (lui >>> link.opcodes.op_sh_rd) link.opcodes.op_mask_rd == link.opcodes.x_sp
    let c_lui =
        bit_or (bit_and lui (u64 (link.opcodes.op_mask_rd <<< link.opcodes.op_sh_rd)))
          link.opcodes.match_c_lui
    elim to_sp [
      | true ↦ done s
      | false ↦ do
        s1 ← put_bits link.codec 32 c_lui offset s
        s2 ← set_rela (retype r_rvc_lui) site.index s1
        delete_again (offset + 2) 2 s2
    ]

  -- `_bfd_riscv_relax_lui`.
  unfoldable pub relax_lui : Relaxing → Outcome Relaxing
  relax_lui s = do
    rel ← rela_at s.section.relocs site.index
    elim (site.is_import || site.sym_merge_or_code) [
      | true ↦ done s
      | false ↦ elim is_near_gp [
        | true ↦ relax_near rel.r_type rel.r_offset s
        | false ↦ elim (is_c_lui rel.r_type) [ true ↦ compress_lui rel.r_offset s | false ↦ done s ]
      ]
    ]

  -- The `switch` of `_bfd_riscv_relax_tls_le`.
  unfoldable pub relax_near_tp : RelocType → ℕ → Relaxing → Outcome Relaxing
  relax_near_tp r_tprel_lo12_i offset s = set_rela (retype r_tprel_i) site.index s
  relax_near_tp r_tprel_lo12_s offset s = set_rela (retype r_tprel_s) site.index s
  relax_near_tp r_tprel_hi20 offset s = set_rela clear_rela site.index s >>= delete_again offset 4
  relax_near_tp r_tprel_add offset s = set_rela clear_rela site.index s >>= delete_again offset 4
  relax_near_tp _ offset s = fault

  -- `_bfd_riscv_relax_tls_le`.
  unfoldable pub relax_tls_le : Relaxing → Outcome Relaxing
  relax_tls_le s = do
    rel ← rela_at s.section.relocs site.index
    let far = not (link.codec.const_high_part (tpoff link.tp_offset link.tls_vma site.symval) == 0)
    elim (far || site.is_import) [ true ↦ done s | false ↦ relax_near_tp rel.r_type rel.r_offset s ]
