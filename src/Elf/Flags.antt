-- ===== src/Elf/Flags.antt =====
-- The flags of the ELF headers of a link (elf32-riscv.c, `_bfd_riscv_elf_merge_private_bfd_data`).
pub mod Digits
pub mod Merged
use Prim.Native.Nat.{bit_xor}
use soft_hier_release_test.Base.{
  ℕ, Bool, true, not, ◌||◌, List, [], ◌∷◌, bit_and, bit_or, ◌==◌, if◌then◌else◌,
}
use soft_hier_release_test.Memory.{Outcome, done, failed, ◌>>=◌}
use soft_hier_release_test.Pulp.Hash.{Name, same_name}

-- `EF_RISCV_FLOAT_ABI` and `EF_RISCV_RVC` of elf/riscv.h.
pub record FlagMasks : Type 0 where
  pub float_abi : ℕ
  pub rvc : ℕ

-- What is read of an input file, and what `_bfd_elf_merge_object_attributes` answers for it.
pub record InputFlags : Type 0 where
  pub is_riscv : Bool
  pub target : Name
  pub attributes_merge : Bool
  pub e_flags : ℕ

-- The output file.
pub record OutputFlags : Type 0 where
  pub out_riscv : Bool
  pub out_target : Name
  pub flags_init : Bool
  pub out_flags : ℕ

module _ (masks : FlagMasks) where
  -- The part behind the merging of the attributes.
  unfoldable pub merge_flags : ℕ → OutputFlags → Outcome OutputFlags
  merge_flags new_flags out =
      if not out.flags_init
      then done (record out { flags_init = true; out_flags = new_flags })
      else if not (bit_and (bit_xor out.out_flags new_flags) masks.float_abi == 0)
      then failed
      else done (record out { out_flags = bit_or out.out_flags (bit_and new_flags masks.rvc) })

  -- `_bfd_riscv_elf_merge_private_bfd_data`.
  unfoldable pub merge_private_bfd_data : InputFlags → OutputFlags → Outcome OutputFlags
  merge_private_bfd_data input out =
      if not input.is_riscv || not out.out_riscv
      then done out
      else if not (same_name input.target out.out_target)
      then failed
      else if not input.attributes_merge
      then failed
      else merge_flags input.e_flags out

  -- The files of a link, one after the other.
  unfoldable pub merge_all : List InputFlags → OutputFlags → Outcome OutputFlags
  merge_all [] out = done out
  merge_all (input ∷ inputs) out = merge_private_bfd_data input out >>= merge_all inputs
