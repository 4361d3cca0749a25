-- ===== src/Elf/Reloc.antt =====
-- The relocation of one place, and the pairs of a high and a low part relative to the program counter
-- (elf32-riscv.c, `perform_relocation` and the functions on `riscv_pcrel_relocs`).
pub mod Pcrel
use soft_hier_release_test.Base.{
  ℕ, ◌+◌, ◌-◌, ◌^◌, bit_and, bit_or, Bool, ◌||◌, Option, none, some, List, if◌then◌else◌, u64,
  sub64, ◌<<<◌, ◌>>>◌,
}
use soft_hier_release_test.Memory.{Outcome, done, ◌>>=◌}
use soft_hier_release_test.Bfd.{
  RelocType, Rela, r_32, r_64, r_tls_dtprel32, r_tls_dtprel64, r_branch, r_jal, r_call, r_call_plt,
  r_got_hi20, r_tls_got_hi20, r_tls_gd_hi20, r_pcrel_hi20, r_pcrel_lo12_i, r_pcrel_lo12_s, r_hi20,
  r_lo12_i, r_lo12_s, r_tprel_hi20, r_tprel_lo12_i, r_tprel_lo12_s, r_add8, r_add16, r_add32,
  r_add64, r_sub8, r_sub16, r_sub32, r_sub64, r_rvc_branch, r_rvc_jump, r_rvc_lui, r_gprel_i,
  r_gprel_s, r_tprel_i, r_tprel_s, r_sub6, r_set6, r_set8, r_set16, r_set32, r_12_i, r_12_s,
  r_rel12, r_relu5,
}

-- `reloc_howto_type`, as far as it is looked at.
pub record Howto : Type 0 where
  pub pc_relative : Bool
  pub rightshift : ℕ
  pub bitsize : ℕ
  pub dst_mask : ℕ

-- The macros of opcode/riscv.h, and the access of BFD to the contents of a section.
pub record Codec : Type 0 where
  pub const_high_part : ℕ → ℕ
  pub encode_utype : ℕ → ℕ
  pub encode_itype : ℕ → ℕ
  pub encode_stype : ℕ → ℕ
  pub encode_i1type_u : ℕ → ℕ
  pub encode_ujtype : ℕ → ℕ
  pub encode_sbtype : ℕ → ℕ
  pub encode_rvc_b : ℕ → ℕ
  pub encode_rvc_j : ℕ → ℕ
  pub encode_rvc_lui : ℕ → ℕ
  pub valid_itype : ℕ → Bool
  pub valid_stype : ℕ → Bool
  pub valid_ujtype : ℕ → Bool
  pub valid_sbtype : ℕ → Bool
  pub valid_rvc_b : ℕ → Bool
  pub valid_rvc_j : ℕ → Bool
  pub valid_rvc_lui : ℕ → Bool
  pub bfd_get : ℕ → List ℕ → ℕ → Outcome ℕ
  pub bfd_put : ℕ → ℕ → List ℕ → ℕ → Outcome (List ℕ)

-- `bfd_reloc_status_type`, with the value that is stored if it is `bfd_reloc_ok`.
pub data Encoded : Type 0 where
  ok : ℕ → Encoded
  overflow : Encoded
  not_supported : Encoded

-- The type of a status alone.
pub data Status : Type 0 where
  reloc_ok reloc_overflow reloc_not_supported : Status

module _ (codec : Codec) where
  abbrev pub if_valid : Bool → ℕ → Encoded
  if_valid valid value = if valid then ok value else overflow

  -- The `switch` of `perform_relocation`, with `ARCH_SIZE` 32.
  unfoldable pub encode : RelocType → ℕ → Bool → ℕ → Encoded
  encode r_hi20 shift is_import value = ok (codec.encode_utype (codec.const_high_part value))
  encode r_tprel_hi20 shift is_import value = ok (codec.encode_utype (codec.const_high_part value))
  encode r_pcrel_hi20 shift is_import value = ok (codec.encode_utype (codec.const_high_part value))
  encode r_got_hi20 shift is_import value = ok (codec.encode_utype (codec.const_high_part value))
  encode r_tls_got_hi20 shift is_import value =
      ok (codec.encode_utype (codec.const_high_part value))
  encode r_tls_gd_hi20 shift is_import value = ok (codec.encode_utype (codec.const_high_part value))
  encode r_12_i shift is_import value =
      if_valid (codec.valid_itype value) (codec.encode_itype value)
  encode r_12_s shift is_import value =
      if_valid (codec.valid_stype value) (codec.encode_stype value)
  encode r_rel12 shift is_import value = ok (codec.encode_itype (value >>> shift))
  encode r_relu5 shift is_import value = ok (codec.encode_i1type_u (value >>> shift))
  encode r_lo12_i shift is_import value = ok (codec.encode_itype value)
  encode r_gprel_i shift is_import value = ok (codec.encode_itype value)
  encode r_tprel_lo12_i shift is_import value = ok (codec.encode_itype value)
  encode r_tprel_i shift is_import value = ok (codec.encode_itype value)
  encode r_pcrel_lo12_i shift is_import value = ok (codec.encode_itype value)
  encode r_lo12_s shift is_import value = ok (codec.encode_stype value)
  encode r_gprel_s shift is_import value = ok (codec.encode_stype value)
  encode r_tprel_lo12_s shift is_import value = ok (codec.encode_stype value)
  encode r_tprel_s shift is_import value = ok (codec.encode_stype value)
  encode r_pcrel_lo12_s shift is_import value = ok (codec.encode_stype value)
  encode r_call shift is_import value = ok (
      bit_or (codec.encode_utype (codec.const_high_part value))
        (u64 (codec.encode_itype value <<< 32)))
  encode r_call_plt shift is_import value = ok (
      bit_or (codec.encode_utype (codec.const_high_part value))
        (u64 (codec.encode_itype value <<< 32)))
  encode r_jal shift is_import value =
      if_valid (is_import || codec.valid_ujtype value) (codec.encode_ujtype value)
  encode r_branch shift is_import value =
      if_valid (codec.valid_sbtype value) (codec.encode_sbtype value)
  encode r_rvc_branch shift is_import value =
      if_valid (codec.valid_rvc_b value) (codec.encode_rvc_b value)
  encode r_rvc_jump shift is_import value =
      if_valid (codec.valid_rvc_j value) (codec.encode_rvc_j value)
  encode r_rvc_lui shift is_import value =
      if_valid (codec.valid_rvc_lui (codec.const_high_part value))
        (codec.encode_rvc_lui (codec.const_high_part value))
  encode r_32 shift is_import value = ok value
  encode r_64 shift is_import value = ok value
  encode r_add8 shift is_import value = ok value
  encode r_add16 shift is_import value = ok value
  encode r_add32 shift is_import value = ok value
  encode r_add64 shift is_import value = ok value
  encode r_sub6 shift is_import value = ok value
  encode r_sub8 shift is_import value = ok value
  encode r_sub16 shift is_import value = ok value
  encode r_sub32 shift is_import value = ok value
  encode r_sub64 shift is_import value = ok value
  encode r_set6 shift is_import value = ok value
  encode r_set8 shift is_import value = ok value
  encode r_set16 shift is_import value = ok value
  encode r_set32 shift is_import value = ok value
  encode r_tls_dtprel32 shift is_import value = ok value
  encode r_tls_dtprel64 shift is_import value = ok value
  encode _ shift is_import value = not_supported

  -- The value before the `switch`: relative to the place if the type is, with the addend.
  unfoldable pub place_value : Howto → Rela → ℕ → ℕ → ℕ
  place_value howto rel value sec_addr =
      let relative = if howto.pc_relative then sub64 value (sec_addr + rel.r_offset) else value in
      u64 (relative + rel.r_addend)

  -- `word & ~howto->dst_mask | value & howto->dst_mask`, stored at the place.
  unfoldable pub patch : Howto → Rela → ℕ → List ℕ → Outcome (List ℕ)
  patch howto rel value contents = do
    word ← codec.bfd_get howto.bitsize contents rel.r_offset
    codec.bfd_put howto.bitsize
        (bit_or (bit_and word (2 ^ 64 - 1 - howto.dst_mask)) (bit_and value howto.dst_mask))
        contents rel.r_offset

  -- `perform_relocation`; `sec_addr` is that of the input section.
  unfoldable pub perform_relocation :
      Howto → Rela → ℕ → ℕ → List ℕ → Bool → Outcome (Status × List ℕ)
  perform_relocation howto rel value sec_addr contents is_import =
      elim (encode rel.r_type howto.rightshift is_import (place_value howto rel value sec_addr)) [
        | ok v ↦ patch howto rel v contents >>= λ c. done (reloc_ok, c)
        | overflow ↦ done (reloc_overflow, contents)
        | not_supported ↦ done (reloc_not_supported, contents)
      ]

-- `dtpoff` and `tpoff`: an address relative to the thread-local section, and 0 without one.
unfoldable pub dtpoff : Option ℕ → ℕ → ℕ
dtpoff none address = 0
dtpoff (some tls_vma) address = sub64 (sub64 address tls_vma) 0x800

unfoldable pub tpoff : ℕ → Option ℕ → ℕ → ℕ
tpoff tp_offset none address = 0
tpoff tp_offset (some tls_vma) address = sub64 (sub64 address tls_vma) tp_offset
