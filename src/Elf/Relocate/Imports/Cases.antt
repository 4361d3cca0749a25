-- ===== src/Elf/Relocate/Imports/Cases.antt =====
-- The other cases of `riscv_elf_relocate_section` (elf32-riscv.c) leave the import table as it is.
use soft_hier_release_test.Base.{
  ℕ, ◌+◌, ◌-◌, ◌^◌, bit_and, bit_or, Bool, true, false, Option, none, some, ◌==◌, if◌then◌else◌,
  u64, ◌≡◌, refl,
}
use soft_hier_release_test.Memory.{Outcome, done, failed, fault}
use soft_hier_release_test.Bfd.{Rela}
use soft_hier_release_test.Elf.Dynamic.{append_rela}
use soft_hier_release_test.Elf.Reloc.{reloc_ok, reloc_overflow}
use soft_hier_release_test.Elf.Reloc.Pcrel.{PcrelRelocs, record_pcrel_lo_reloc}
use soft_hier_release_test.Elf.Relocate.{
  RelocHost, Relocating, skipped, go, add_value, sub_value, call_value, plt_of, set_base,
  tprel_value, gprel_value, pcrel_hi, pcrel_lo,
}
use soft_hier_release_test.Elf.Relocate.Got.{word_rela, append_word, word_value}
use soft_hier_release_test.Elf.Relocate.Imports.{
  Same, itself, state_of, Same-done, Same-if, Same-read, Same-then,
}
use soft_hier_release_test.Elf.Relocate.Imports.GotCases.{record_hi-imports}

module _ (host : RelocHost) where
  pub word_value-Same :
      (h : Option ℕ) (rel : Rela) (v : ℕ) (un : Bool) (s : Relocating)
      → Same state_of s (word_value host h rel v un s)
  unfolding word_value append_word
  word_value-Same h rel v un s =
      Same-if state_of s _ _ _
        (Same-read state_of s
          (append_rela (word_rela host h rel v (host.section_offset rel.r_offset)) s.sreloc) _
          (λ r. Same-done state_of s _ (
            choose (host.section_offset rel.r_offset == 2 ^ 64 - 2) (record s { sreloc = r })
              refl)))
        (Same-done state_of s _ refl)
    where
      choose :
          (b : Bool) (t : Relocating)
          → t.imports ≡ s.imports
          → (state_of (if b then go reloc_ok rel v un t else skipped t)).imports ≡ s.imports
      choose true t p = p
      choose false t p = p

  pub add_value-Same :
      (rel : Rela) (v : ℕ) (un : Bool) (s : Relocating)
      → Same state_of s (add_value host rel v un s)
  unfolding add_value
  add_value-Same rel v un s =
      Same-read state_of s
        (host.codec.bfd_get (host.howto_of rel.r_type).bitsize s.contents rel.r_offset) _
        (λ o. Same-done state_of s _ refl)

  pub sub_value-Same :
      (rel : Rela) (v : ℕ) (un : Bool) (s : Relocating)
      → Same state_of s (sub_value host rel v un s)
  unfolding sub_value
  sub_value-Same rel v un s =
      Same-read state_of s
        (host.codec.bfd_get (host.howto_of rel.r_type).bitsize s.contents rel.r_offset) _
        (λ o. Same-done state_of s _ refl)

  pub call_value-imports :
      (h : Option ℕ) (rel : Rela) (v : ℕ) (un : Bool) (s : Relocating)
      → (state_of (call_value host h rel v un s)).imports ≡ s.imports
  unfolding call_value
  call_value-imports h rel v un s = choose (plt_of host h)
    where
      choose :
          (o : Option ℕ)
          → (state_of (elim o [
            | none ↦ go reloc_ok rel v un s
            | some a ↦ go reloc_ok rel (u64 (host.splt_addr + a)) false s
          ])).imports
            ≡ s.imports
      choose none = refl
      choose (some a) = refl

  set_base-Same :
      (rel : Rela) (base : ℕ) (s : Relocating) → Same itself s (set_base host rel base s)
  unfolding set_base
  set_base-Same rel base s =
      Same-read itself s (host.codec.bfd_get 32 s.contents rel.r_offset) _ (λ insn.
        Same-read itself s
          (host.codec.bfd_put 32 (bit_or (bit_and insn (2 ^ 64 - 1 - host.rs1_mask)) base)
            s.contents rel.r_offset)
          _ (λ m. Same-done itself s _ refl))

  pub tprel_value-Same :
      (rel : Rela) (v : ℕ) (un : Bool) (s : Relocating)
      → Same state_of s (tprel_value host rel v un s)
  unfolding tprel_value
  tprel_value-Same rel v un s =
      Same-if state_of s _ _ _
        (Same-then state_of s itself (set_base host rel host.tp_base s) _
          (set_base-Same rel host.tp_base s) (λ t. Same-done state_of t _ refl))
        (Same-done state_of s _ refl)

  pub gprel_value-Same :
      (rel : Rela) (v : ℕ) (un : Bool) (s : Relocating)
      → Same state_of s (gprel_value host rel v un s)
  unfolding gprel_value
  gprel_value-Same rel v un s =
      Same-if state_of s _ _ _
        (Same-then state_of s itself (set_base host rel 0 s) _ (set_base-Same rel 0 s)
          (λ t. Same-done state_of t _ refl))
        (Same-if state_of s _ _ _
          (Same-then state_of s itself (set_base host rel host.gp_base s) _
            (set_base-Same rel host.gp_base s) (λ t. Same-done state_of t _ refl))
          (Same-done state_of s _ refl))

  pub pcrel_hi-imports :
      (pc : ℕ) (rel : Rela) (v : ℕ) (un : Bool) (s : Relocating)
      → (state_of (pcrel_hi host pc rel v un s)).imports ≡ s.imports
  unfolding pcrel_hi
  pcrel_hi-imports pc rel v un s = record_hi-imports host pc (u64 (v + rel.r_addend)) s

  pub pcrel_lo-imports :
      (rel : Rela) (v : ℕ) (un : Bool) (s : Relocating)
      → (state_of (pcrel_lo host rel v un s)).imports ≡ s.imports
  unfolding pcrel_lo
  pcrel_lo-imports rel v un s = choose (
      record_pcrel_lo_reloc host.memory s.pcrel
        (record { howto = host.howto_of rel.r_type; reloc = rel; addr = v }))
    where
      choose :
          (o : Outcome PcrelRelocs)
          → (state_of (elim o [
            | done p ↦ skipped (record s { pcrel = p })
            | failed ↦ go reloc_overflow rel v un s
            | fault ↦ go reloc_overflow rel v un s
          ])).imports
            ≡ s.imports
      choose (done p) = refl
      choose failed = refl
      choose fault = refl
