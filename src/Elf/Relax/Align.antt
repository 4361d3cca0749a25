-- ===== src/Elf/Relax/Align.antt =====
-- The implementation of R_RISCV_ALIGN (elf32-riscv.c, `_bfd_riscv_relax_align`).
use soft_hier_release_test.Base.{
  ℕ, zero, suc, ◌+◌, ◌-◌, ◌*◌, ◌/◌, ◌%◌, ◌^◌, true, false, bit_and, ltb, leb, ◌==◌, if◌then◌else◌,
  u64, sub64,
}
use soft_hier_release_test.Memory.{Outcome, done, failed, fault, ◌>>=◌}
use soft_hier_release_test.Bfd.{Rela}
use soft_hier_release_test.Elf.Relax.{delete_bytes}
use soft_hier_release_test.Elf.Relax.Site.{
  Link, Site, Relaxing, clear_rela, rela_at, set_rela, put_bits,
}

-- `while (alignment <= addend) alignment *= 2`, which never ends for an addend of 2 ^ 63 or more.
unfoldable pub next_power : ℕ → ℕ → ℕ → Outcome ℕ
next_power zero alignment addend = fault
next_power (suc fuel) alignment addend =
    let next = next_power fuel (u64 (alignment * 2)) addend in
    if leb alignment addend then next else done alignment

-- `nop_bytes`, the bytes from `start` to the next multiple of the alignment.
unfoldable pub nops_to : ℕ → ℕ → ℕ
nops_to alignment start =
    sub64 (u64 (bit_and (sub64 start 1) (2 ^ 64 - 1 - sub64 alignment 1) + alignment)) start

module _ (link : Link) where
  -- The loop that writes `count` NOPs from `pos` on.
  unfoldable pub put_nops : ℕ → ℕ → Relaxing → Outcome Relaxing
  put_nops zero offset s = done s
  put_nops (suc count) offset s = do
    s1 ← put_bits link.codec 32 link.opcodes.riscv_nop offset s
    put_nops count (offset + 4) s1

  -- The NOPs, the last of them an RVC one if need be.
  unfoldable pub fill_nops : ℕ → ℕ → Relaxing → Outcome Relaxing
  fill_nops offset nop_bytes s = do
    s1 ← put_nops (nop_bytes / 4) offset s
    elim (nop_bytes % 4 == 0) [
      | true ↦ done s1
      | false ↦ put_bits link.codec 16 link.opcodes.rvc_nop (offset + nop_bytes / 4 * 4) s1
    ]

  -- What is left to do once the relocation is deleted.
  unfoldable pub trim_nops : Rela → ℕ → Relaxing → Outcome Relaxing
  trim_nops rel nop_bytes s = elim (nop_bytes == rel.r_addend) [
    | true ↦ done s
    | false ↦ do
      s1 ← fill_nops rel.r_offset nop_bytes s
      section ← delete_bytes (rel.r_offset + nop_bytes) (rel.r_addend - nop_bytes) s1.section
      done (record s1 { section = section })
  ]

  -- What follows the search of the alignment; a failure leaves the flag set, which `failed` does not show.
  unfoldable pub align_to : Site → Rela → Relaxing → ℕ → Outcome Relaxing
  align_to site rel s alignment =
      let nop_bytes = nops_to alignment (sub64 site.symval rel.r_addend) in
      elim (ltb rel.r_addend nop_bytes) [
        | true ↦ failed
        | false ↦ do
          s1 ← set_rela clear_rela site.index (record s { sec_flg0 = true })
          trim_nops rel nop_bytes s1
      ]

  -- `_bfd_riscv_relax_align`.
  unfoldable pub relax_align : Site → Relaxing → Outcome Relaxing
  relax_align site s = do
    rel ← rela_at s.section.relocs site.index
    alignment ← next_power 65 1 rel.r_addend
    align_to site rel s alignment
