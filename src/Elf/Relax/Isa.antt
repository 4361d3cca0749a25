-- ===== src/Elf/Relax/Isa.antt =====
-- The instructions of RISC-V that the relaxations of elf32-riscv.c write, as numbers.
use soft_hier_release_test.Base.{
  ℕ, ◌+◌, ◌*◌, ◌/◌, ◌%◌, ◌^◌, ◌<◌, bit_and, bit_or, u64, ◌<<<◌, ◌>>>◌, ◌≡◌, ap, ap₂, ◌∙◌, arith,
}
use soft_hier_release_test.Base.Bits.{
  bit_and_ones, bit_and-high_mask, bit_and-split, low-bit_or-high, high-bit_or-low,
}
use soft_hier_release_test.Elf.Relax.Site.{Opcodes}

-- The constants of opcode/riscv.h are those of the instruction set.
pub record IsRiscv (o : Opcodes) : Type 0 where
  pub sh_rd : o.op_sh_rd ≡ 7
  pub mask_rd : o.op_mask_rd ≡ 31
  pub sh_rs1 : o.op_sh_rs1 ≡ 15
  pub mask_rs1 : o.op_mask_rs1 ≡ 31
  pub ra : o.x_ra ≡ 1
  pub jal : o.match_jal ≡ 0x6f
  pub jalr : o.match_jalr ≡ 0x67
  pub c_j : o.match_c_j ≡ 0xa001
  pub c_jal : o.match_c_jal ≡ 0x2001
  pub lui : o.match_lui ≡ 0x37
  pub addi : o.match_addi ≡ 0x13

-- The registers of an instruction.
abbrev pub rd_of : ℕ → ℕ
rd_of word = word / 128 % 32

abbrev pub rs1_of : ℕ → ℕ
rs1_of word = word / 32768 % 32

-- An instruction of the format with an immediate of 20 bits, which is 0.
abbrev pub with_rd : ℕ → ℕ → ℕ
with_rd opcode rd = opcode + 128 * rd

pub rd_field : (sh mask word : ℕ) → sh ≡ 7 → mask ≡ 31 → bit_and (word >>> sh) mask ≡ rd_of word
rd_field sh mask word seven ones =
    ap₂ (λ (s m : ℕ). bit_and (word >>> s) m) seven ones ∙ bit_and_ones 5 (word / 128)

pub or_field :
    (opcode value sh rd : ℕ)
    → opcode ≡ value
    → sh ≡ 7
    → value < 128
    → rd < 32
    → bit_or opcode (u64 (rd <<< sh)) ≡ with_rd value rd
or_field opcode value sh rd same seven small below =
    ap₂ (λ (o s : ℕ). bit_or o (u64 (rd <<< s))) same seven
    ∙ ap (λ (n : ℕ). bit_or value n) (omega arith)
    ∙ low-bit_or-high 7 value rd small
    ∙ omega arith

-- The register rd of a word, in its place.
kept_rd : (word : ℕ) → bit_and word 3968 ≡ rd_of word * 2 ^ 7
kept_rd word =
    ap (λ (n : ℕ). bit_and n 3968) (omega arith)
    ∙ bit_and-high_mask 7 (word / 128) (word % 128) 31 (omega arith)
    ∙ ap (λ (n : ℕ). n * 2 ^ 7) (bit_and_ones 5 (word / 128))

-- And both registers.
kept_registers : (word : ℕ) → bit_and word 1019776 ≡ (rd_of word + 256 * rs1_of word) * 2 ^ 7
kept_registers word =
    let q = word / 128 in
    let high = bit_and-high_mask 7 q (word % 128) 7967 (omega arith) in
    let parts = bit_and-split 8 (q / 256) (q % 256) 31 31 (omega arith) (omega arith) in
    ap (λ (n : ℕ). bit_and n 1019776) (omega arith)
    ∙ high
    ∙ omega (
      arith,
      ap (λ (n : ℕ). bit_and n 7967) (whole q),
      parts,
      bit_and_ones 5 (q / 256),
      bit_and_ones 5 (q % 256),
    )
  where
    whole : (q : ℕ) → q ≡ q / 256 * 2 ^ 8 + q % 256
    whole q = omega arith

module _ (o : Opcodes) (isa : IsRiscv o) where
  -- A word that keeps its register rd under the opcode of LUI.
  pub lui_word :
      (word : ℕ)
      → bit_or (bit_and word (u64 (o.op_mask_rd <<< o.op_sh_rd))) o.match_lui
        ≡ with_rd 0x37 (rd_of word)
  lui_word word =
      ap₂ (λ (m s : ℕ). bit_or (bit_and word (u64 (m <<< s))) o.match_lui) isa.mask_rd isa.sh_rd
      ∙ ap₂ bit_or (kept_rd word) isa.lui
      ∙ high-bit_or-low 7 (rd_of word) 0x37 (omega arith)
      ∙ omega arith

  -- A word that keeps both registers under the opcode of ADDI.
  pub addi_word :
      (word : ℕ)
      → bit_or
          (bit_and word
            (bit_or (u64 (o.op_mask_rd <<< o.op_sh_rd)) (u64 (o.op_mask_rs1 <<< o.op_sh_rs1))))
          o.match_addi
        ≡ with_rd 0x13 (rd_of word) + 32768 * rs1_of word
  addi_word word =
      let rd : u64 (o.op_mask_rd <<< o.op_sh_rd) ≡ 3968 =
        ap₂ (λ (m s : ℕ). u64 (m <<< s)) isa.mask_rd isa.sh_rd in
      let rs1 : u64 (o.op_mask_rs1 <<< o.op_sh_rs1) ≡ 1015808 =
        ap₂ (λ (m s : ℕ). u64 (m <<< s)) isa.mask_rs1 isa.sh_rs1 in
      ap₂ (λ (a b : ℕ). bit_or (bit_and word (bit_or a b)) o.match_addi) rd rs1
      ∙ ap₂ bit_or (kept_registers word) isa.addi
      ∙ high-bit_or-low 7 (rd_of word + 256 * rs1_of word) 0x13 (omega arith)
      ∙ omega arith
