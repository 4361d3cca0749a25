-- ===== src/Elf/Alloc/Copy.antt =====
-- The copy relocations that `riscv_elf_adjust_dynamic_symbol` of elf32-riscv.c reserves.
use soft_hier_release_test.Base.{ℕ, ◌+◌, false, none, if◌then◌else◌, ◌≡◌, subst, arith}
use soft_hier_release_test.Memory.{done}
use soft_hier_release_test.Memory.Frame.{done-step, done-injective}
use soft_hier_release_test.Elf.Alloc.{
  DynSymbol, Sizes, Output, CopySection, offset, copy_variable, adjust_variable,
  adjust_dynamic_symbol,
}

-- The bytes for copy relocations, in either section.
abbrev pub copy_bytes : Sizes → ℕ
copy_bytes s = s.relbss_size + s.reldynrelro_size

-- What a step reserves: room for one relocation exactly if the symbol needs a copy.
abbrev Reserved : ℕ → DynSymbol × Sizes → Type 0
Reserved n a = copy_bytes a.1 ≡ n + (if a.0.needs_copy then 12 else 0)

module _ (output : Output)
    (keeps : (c : CopySection) (h d : DynSymbol)
      → output.adjust_copy c h ≡ done d
      → d.needs_copy ≡ h.needs_copy) where
  copy_variable-Reserved :
      (h : DynSymbol) (s : Sizes) (a : DynSymbol × Sizes)
      → h.needs_copy ≡ false
      → copy_variable output h s ≡ done a
      → Reserved (copy_bytes s) a
  unfolding copy_variable
  copy_variable-Reserved h s a fresh e =
      let (d, adjusted, e') = done-step (output.adjust_copy _ _) _ a e in
      subst (Reserved (copy_bytes s)) (done-injective _ a e')
        (ground (arith, keeps _ _ d adjusted, fresh))

  adjust_variable-Reserved :
      (h : DynSymbol) (s : Sizes) (a : DynSymbol × Sizes)
      → h.needs_copy ≡ false
      → adjust_variable output h s ≡ done a
      → Reserved (copy_bytes s) a
  unfolding adjust_variable
  adjust_variable-Reserved h s a fresh e =
      ground (arith, e, fresh, copy_variable-Reserved h s a fresh)

  -- Adjusting a symbol that needs no copy so far, with the answer TRUE, if `_bfd_elf_adjust_dynamic_copy` leaves
  -- `needs_copy` as it is: room for one more copy relocation is reserved exactly if the symbol needs
  -- a copy afterwards.
  pub adjust_dynamic_symbol-copy_bytes :
      (h : DynSymbol) (s : Sizes) (a : DynSymbol × Sizes)
      → h.needs_copy ≡ false
      → adjust_dynamic_symbol output h s ≡ done a
      → copy_bytes a.1 ≡ copy_bytes s + (if a.0.needs_copy then 12 else 0)
  unfolding adjust_dynamic_symbol
  adjust_dynamic_symbol-copy_bytes h s a fresh e =
      ground (arith, e, fresh, adjust_variable-Reserved (record h { plt = offset none }) s a fresh)
