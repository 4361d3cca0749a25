-- ===== src/Pulp/Import/Fields.antt =====
-- The fields of the words of the import sections (elf32-riscv.c).
use soft_hier_release_test.Base.{ℕ, ◌+◌, ◌*◌, ◌/◌, ◌%◌, ◌^◌, ◌<◌, ◌≡◌, arith, u32}
use soft_hier_release_test.Base.Bits.{
  low-bit_or-high, high-bit_or-low, bit_and_ones, bit_and_shifted,
}
use soft_hier_release_test.Pulp.Import.Sections.{reloc_word, reloc_head, section_head}

pub reloc_word_fields :
    (code offset : ℕ) → code < 16 → reloc_word code offset ≡ code * 2 ^ 28 + offset / 2 % 2 ^ 28
unfolding reloc_word
reloc_word_fields code offset h =
    ground (arith, bit_and_ones 28 (offset / 2), high-bit_or-low 28 code (offset / 2 % 2 ^ 28))

pub reloc_head_fields :
    (n count : ℕ) → count < 2 ^ 16 → reloc_head n count ≡ 4 * (n + 1) % 2 ^ 16 + count * 2 ^ 16
unfolding reloc_head
reloc_head_fields n count h = ground (
  arith,
  bit_and_ones 16 (u32 (4 * (n + 1))),
  bit_and_ones 16 count,
  bit_and_shifted 16 count 0xffff,
  low-bit_or-high 16 (4 * (n + 1) % 2 ^ 16) count,
)

pub section_head_fields :
    (n size : ℕ) → section_head n size ≡ n % 2 ^ 12 + size / 4 % 2 ^ 20 * 2 ^ 12
unfolding section_head
section_head_fields n size =
    ground (arith, bit_and_ones 12 n, low-bit_or-high 12 (n % 2 ^ 12) (size / 4 % 2 ^ 20))
