-- ===== src/Bfd.antt =====
-- What elf32-riscv.c takes from the headers of BFD, as far as its own code looks at it: relocation
-- types by the names that the code uses, and relocation entries.
use soft_hier_release_test.Base.{ℕ, Bool, true, false}

-- The `R_RISCV_` types that the code names, and every other type by its number.
pub data RelocType : Type 0 where
  r_none r_32 r_64 r_relative r_copy r_jump_slot : RelocType
  r_tls_dtpmod32 r_tls_dtprel32 r_tls_dtprel64 r_tls_tprel32 : RelocType
  r_branch r_jal r_call r_call_plt r_got_hi20 r_tls_got_hi20 r_tls_gd_hi20 : RelocType
  r_pcrel_hi20 r_pcrel_lo12_i r_pcrel_lo12_s r_hi20 r_lo12_i r_lo12_s : RelocType
  r_tprel_hi20 r_tprel_lo12_i r_tprel_lo12_s r_tprel_add : RelocType
  r_add8 r_add16 r_add32 r_add64 r_sub8 r_sub16 r_sub32 r_sub64 : RelocType
  r_gnu_vtinherit r_gnu_vtentry r_align r_rvc_branch r_rvc_jump r_rvc_lui : RelocType
  r_gprel_i r_gprel_s r_tprel_i r_tprel_s r_relax : RelocType
  r_sub6 r_set6 r_set8 r_set16 r_set32 : RelocType
  r_12_i r_12_s r_rel12 r_relu5 : RelocType
  other : ℕ → RelocType

-- `Elf_Internal_Rela`; `r_info` is kept as the symbol index and the type that `ELF32_R_SYM` and
-- `ELF32_R_TYPE` take out of it. The addend is a word of 64 bits.
pub record Rela : Type 0 where
  pub r_offset : ℕ
  pub r_sym : ℕ
  pub r_type : RelocType
  pub r_addend : ℕ

abbrev pub is_hi20 : RelocType → Bool
is_hi20 r_hi20 = true
is_hi20 _ = false

abbrev pub is_lo12_i : RelocType → Bool
is_lo12_i r_lo12_i = true
is_lo12_i _ = false
