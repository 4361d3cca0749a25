-- ===== src/Elf/Relax/Site.antt =====
-- What the relaxations of elf32-riscv.c work on: the section that shrinks, the relocation that is
-- looked at, and the constants of opcode/riscv.h.
use soft_hier_release_test.Base.{ℕ, zero, suc, Bool, true, Option, List, [], ◌∷◌}
use soft_hier_release_test.Memory.{Outcome, done, fault, ◌>>=◌}
use soft_hier_release_test.Bfd.{RelocType, Rela, r_none}
use soft_hier_release_test.Elf.Reloc.{Codec}
use soft_hier_release_test.Elf.Relax.{Relaxed, delete_bytes}

-- The constants of opcode/riscv.h, and the macro `VALID_RVC_LUI_IMM` on a high part.
pub record Opcodes : Type 0 where
  pub imm_reach : ℕ
  pub op_sh_rd : ℕ
  pub op_mask_rd : ℕ
  pub op_sh_rs1 : ℕ
  pub op_mask_rs1 : ℕ
  pub x_ra : ℕ
  pub x_sp : ℕ
  pub match_jal : ℕ
  pub match_jalr : ℕ
  pub match_c_j : ℕ
  pub match_c_jal : ℕ
  pub match_lui : ℕ
  pub match_c_lui : ℕ
  pub match_addi : ℕ
  pub riscv_nop : ℕ
  pub rvc_nop : ℕ

-- The link and the input section, as far as no relaxation changes them. `gp` is the value of the global
-- pointer (0 without one) and `gp_output` the output section of its symbol.
pub record Link : Type 0 where
  pub codec : Codec
  pub opcodes : Opcodes
  pub pic : Bool
  pub rvc : Bool
  pub sec_addr : ℕ
  pub output_section : ℕ
  pub gp : ℕ
  pub gp_output : ℕ
  pub tp_offset : ℕ
  pub tls_vma : Option ℕ

-- The arguments of a `relax_func_t`: `index` is the place of `rel` among the relocations of the section.
pub record Site : Type 0 where
  pub index : ℕ
  pub symval : ℕ
  pub max_alignment : ℕ
  pub reserve_size : ℕ
  pub is_import : Bool
  pub sym_output : ℕ
  pub sym_output_alignment : ℕ
  pub sym_merge_or_code : Bool

-- The section, `*again`, and the flag `sec_flg0` that ends its relaxation.
pub record Relaxing : Type 0 where
  pub section : Relaxed
  pub again : Bool
  pub sec_flg0 : Bool

-- `rel->r_info = ELF32_R_INFO (ELF32_R_SYM (rel->r_info), r_type)`.
abbrev pub retype : RelocType → Rela → Rela
retype t r = record r { r_type = t }

-- `rel->r_info = ELF32_R_INFO (0, R_RISCV_NONE)`.
abbrev pub clear_rela : Rela → Rela
clear_rela r = record r { r_sym = 0; r_type = r_none }

-- A load of the relocation at an index.
unfoldable pub rela_at : List Rela → ℕ → Outcome Rela
rela_at [] i = fault
rela_at (r ∷ rs) zero = done r
rela_at (r ∷ rs) (suc i) = rela_at rs i

-- A change of the relocation at an index.
unfoldable pub update_rela : (Rela → Rela) → List Rela → ℕ → Outcome (List Rela)
update_rela f [] i = fault
update_rela f (r ∷ rs) zero = done (f r ∷ rs)
update_rela f (r ∷ rs) (suc i) = do rest ← update_rela f rs i; done (r ∷ rest)

unfoldable pub set_rela : (Rela → Rela) → ℕ → Relaxing → Outcome Relaxing
set_rela f i s = do
  relocs ← update_rela f s.section.relocs i
  done (record s { section = record s.section { relocs = relocs } })

-- `bfd_put`.
unfoldable pub put_bits : Codec → ℕ → ℕ → ℕ → Relaxing → Outcome Relaxing
put_bits codec bits value offset s = do
  contents ← codec.bfd_put bits value s.section.contents offset
  done (record s { section = record s.section { contents = contents } })

-- `*again = TRUE` with the deletion that follows it.
unfoldable pub delete_again : ℕ → ℕ → Relaxing → Outcome Relaxing
delete_again addr count s = do
  section ← delete_bytes addr count s.section
  done (record s { section = section; again = true })
