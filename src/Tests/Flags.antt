-- ===== src/Tests/Flags.antt =====
-- The flags of three files that are linked.
use soft_hier_release_test.Base.{Bool, true, false, List, [], ◌∷◌, ◌≡◌, refl, ℕ}
use soft_hier_release_test.Memory.{done, failed}
use soft_hier_release_test.Pulp.Hash.{same_name}
use soft_hier_release_test.Elf.Flags.{
  InputFlags, OutputFlags, merge_flags, merge_private_bfd_data, merge_all,
}
use soft_hier_release_test.Elf.Flags.Merged.{riscv_masks, IsMerged, merge_all-IsMerged}

abbrev file : Bool → ℕ → InputFlags
file riscv flags = record {
  is_riscv = riscv;
  target = 101 ∷ [];
  attributes_merge = true;
  e_flags = flags;
}

abbrev before : OutputFlags
before = record { out_riscv = true; out_target = 101 ∷ []; flags_init = false; out_flags = 0 }

-- Two files with the float ABI of single precision, the second with compressed instructions, and a foreign one.
abbrev files : List InputFlags
files = file true 2 ∷ file false 77 ∷ file true 3 ∷ []

abbrev after : OutputFlags
after = record before { flags_init = true; out_flags = 3 }

merge_run : merge_all riscv_masks files before ≡ done after
unfolding merge_all merge_private_bfd_data merge_flags same_name
merge_run = refl

-- Double precision does not go with it.
merge_clash : merge_all riscv_masks (file true 2 ∷ file true 4 ∷ []) before ≡ failed
unfolding merge_all merge_private_bfd_data merge_flags same_name
merge_clash = refl

merge_all-IsMerged_example : IsMerged files after
merge_all-IsMerged_example = merge_all-IsMerged files before after refl refl merge_run refl
