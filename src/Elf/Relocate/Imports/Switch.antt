-- ===== src/Elf/Relocate/Imports/Switch.antt =====
-- The `switch` of `riscv_elf_relocate_section` (elf32-riscv.c) and the import table.
use soft_hier_release_test.Base.{ℕ, ◌+◌, Bool, true, false, Option, if◌then◌else◌, ◌≡◌, refl, u64}
use soft_hier_release_test.Bfd.{
  RelocType, Rela, r_12_i, r_12_s, r_32, r_64, r_add16, r_add32, r_add64, r_add8, r_branch, r_call,
  r_call_plt, r_copy, r_got_hi20, r_gprel_i, r_gprel_s, r_hi20, r_jal, r_jump_slot, r_lo12_i,
  r_lo12_s, r_none, r_pcrel_hi20, r_pcrel_lo12_i, r_pcrel_lo12_s, r_rel12, r_relative, r_relax,
  r_relu5, r_rvc_branch, r_rvc_jump, r_rvc_lui, r_set16, r_set32, r_set6, r_set8, r_sub16, r_sub32,
  r_sub6, r_sub64, r_sub8, r_tls_dtprel32, r_tls_dtprel64, r_tls_gd_hi20, r_tls_got_hi20,
  r_tprel_add, r_tprel_hi20, r_tprel_i, r_tprel_lo12_i, r_tprel_lo12_s, r_tprel_s,
}
use soft_hier_release_test.Elf.Reloc.{
  Status, reloc_ok, reloc_overflow, reloc_not_supported, perform_relocation,
}
use soft_hier_release_test.Elf.Relocate.{Resolved, RelocHost, Relocating, Handled, skipped, go}
use soft_hier_release_test.Elf.Relocate.Turn.{
  Answer, next, stop, handle, is_reported, answer, perform, relocate_resolved, or_start,
}
use soft_hier_release_test.Elf.Relocate.Imports.{
  Same, state_of, Same-done, Same-if, Same-read, Same-then,
}
use soft_hier_release_test.Elf.Relocate.Imports.GotCases.{got_hi20-Same, tls_got-Same}
use soft_hier_release_test.Elf.Relocate.Imports.Cases.{
  word_value-Same, add_value-Same, sub_value-Same, call_value-imports, tprel_value-Same,
  gprel_value-Same, pcrel_hi-imports, pcrel_lo-imports,
}

abbrev pub state_after : Answer → Relocating
state_after (next s) = s
state_after (stop s) = s

module _ (host : RelocHost) where
  -- No case of the `switch` changes the import table.
  handle-Same :
      (t : RelocType) (h : Option ℕ) (pc : ℕ) (rel : Rela) (v : ℕ) (un : Bool) (s : Relocating)
      → Same state_of s (handle host t h pc rel v un s)
  unfolding handle
  handle-Same r_none h pc rel v un s = Same-done state_of s _ refl
  handle-Same r_relax h pc rel v un s = Same-done state_of s _ refl
  handle-Same r_tprel_add h pc rel v un s = Same-done state_of s _ refl
  handle-Same r_copy h pc rel v un s = Same-done state_of s _ refl
  handle-Same r_jump_slot h pc rel v un s = Same-done state_of s _ refl
  handle-Same r_relative h pc rel v un s = Same-done state_of s _ refl
  handle-Same r_hi20 h pc rel v un s = Same-done state_of s _ refl
  handle-Same r_branch h pc rel v un s = Same-done state_of s _ refl
  handle-Same r_rvc_branch h pc rel v un s = Same-done state_of s _ refl
  handle-Same r_rvc_lui h pc rel v un s = Same-done state_of s _ refl
  handle-Same r_lo12_i h pc rel v un s = Same-done state_of s _ refl
  handle-Same r_lo12_s h pc rel v un s = Same-done state_of s _ refl
  handle-Same r_relu5 h pc rel v un s = Same-done state_of s _ refl
  handle-Same r_rel12 h pc rel v un s = Same-done state_of s _ refl
  handle-Same r_12_i h pc rel v un s = Same-done state_of s _ refl
  handle-Same r_12_s h pc rel v un s = Same-done state_of s _ refl
  handle-Same r_set6 h pc rel v un s = Same-done state_of s _ refl
  handle-Same r_set8 h pc rel v un s = Same-done state_of s _ refl
  handle-Same r_set16 h pc rel v un s = Same-done state_of s _ refl
  handle-Same r_set32 h pc rel v un s = Same-done state_of s _ refl
  handle-Same r_got_hi20 h pc rel v un s = got_hi20-Same host h pc rel v un s
  handle-Same r_add8 h pc rel v un s = add_value-Same host rel v un s
  handle-Same r_add16 h pc rel v un s = add_value-Same host rel v un s
  handle-Same r_add32 h pc rel v un s = add_value-Same host rel v un s
  handle-Same r_add64 h pc rel v un s = add_value-Same host rel v un s
  handle-Same r_sub6 h pc rel v un s = sub_value-Same host rel v un s
  handle-Same r_sub8 h pc rel v un s = sub_value-Same host rel v un s
  handle-Same r_sub16 h pc rel v un s = sub_value-Same host rel v un s
  handle-Same r_sub32 h pc rel v un s = sub_value-Same host rel v un s
  handle-Same r_sub64 h pc rel v un s = sub_value-Same host rel v un s
  handle-Same r_call_plt h pc rel v un s =
      Same-done state_of s _ (call_value-imports host h rel v un s)
  handle-Same r_call h pc rel v un s = Same-done state_of s _ (call_value-imports host h rel v un s)
  handle-Same r_jal h pc rel v un s = Same-done state_of s _ (call_value-imports host h rel v un s)
  handle-Same r_rvc_jump h pc rel v un s =
      Same-done state_of s _ (call_value-imports host h rel v un s)
  handle-Same r_tprel_hi20 h pc rel v un s = Same-done state_of s _ refl
  handle-Same r_tprel_lo12_i h pc rel v un s = Same-done state_of s _ refl
  handle-Same r_tprel_lo12_s h pc rel v un s = Same-done state_of s _ refl
  handle-Same r_tprel_i h pc rel v un s = tprel_value-Same host rel v un s
  handle-Same r_tprel_s h pc rel v un s = tprel_value-Same host rel v un s
  handle-Same r_gprel_i h pc rel v un s = gprel_value-Same host rel v un s
  handle-Same r_gprel_s h pc rel v un s = gprel_value-Same host rel v un s
  handle-Same r_pcrel_hi20 h pc rel v un s =
      Same-done state_of s _ (pcrel_hi-imports host pc rel v un s)
  handle-Same r_pcrel_lo12_i h pc rel v un s =
      Same-done state_of s _ (pcrel_lo-imports host rel v un s)
  handle-Same r_pcrel_lo12_s h pc rel v un s =
      Same-done state_of s _ (pcrel_lo-imports host rel v un s)
  handle-Same r_tls_dtprel32 h pc rel v un s = Same-done state_of s _ refl
  handle-Same r_tls_dtprel64 h pc rel v un s = Same-done state_of s _ refl
  handle-Same r_32 h pc rel v un s = word_value-Same host h rel v un s
  handle-Same r_64 h pc rel v un s = word_value-Same host h rel v un s
  handle-Same r_tls_got_hi20 h pc rel v un s = tls_got-Same host true h pc rel v s
  handle-Same r_tls_gd_hi20 h pc rel v un s = tls_got-Same host false h pc rel v s
  handle-Same _ h pc rel v un s = Same-done state_of s _ refl

  answer-imports :
      (status : Status) (s : Relocating) → (state_after (answer status s)).imports ≡ s.imports
  unfolding answer
  answer-imports reloc_ok s = refl
  answer-imports reloc_overflow s = refl
  answer-imports reloc_not_supported s = refl

  stopped :
      (b : Bool) (status : Status) (s : Relocating)
      → (state_after (if b then next s else answer status s)).imports ≡ s.imports
  stopped true status s = refl
  stopped false status s = answer-imports status s

  perform-Same :
      (b : Bool) (h : Option ℕ) (x : Handled) → Same state_after (state_of x) (perform host b h x)
  unfolding perform
  perform-Same b h (skipped s) = Same-done state_after s _ refl
  perform-Same b h (go reloc_ok rel v un s) =
      Same-if state_after s _ _ _ (Same-done state_after s _ refl) (
        Same-read state_after s
          (perform_relocation host.codec (host.howto_of rel.r_type) rel v host.sec_addr s.contents
            b)
          _ (λ p. Same-done state_after s _ (answer-imports p.0 (record s { contents = p.1 }))))
  perform-Same b h (go reloc_overflow rel v un s) =
      Same-done state_after s _ (stopped (is_reported host h rel un) reloc_overflow s)
  perform-Same b h (go reloc_not_supported rel v un s) =
      Same-done state_after s _ (stopped (is_reported host h rel un) reloc_not_supported s)

  pub relocate_resolved-Same :
      (b : Bool) (h : Option ℕ) (r : Resolved) (s : Relocating)
      → Same state_after s (relocate_resolved host b h r s)
  unfolding relocate_resolved
  relocate_resolved-Same b h r s =
      Same-if state_after s r.discarded _ _
        (Same-read state_after s (host.clear_reloc r.rel s.contents) _
          (λ m. Same-done state_after s _ refl))
        (Same-if state_after s host.relocatable _ _ (Same-done state_after s _ refl) (
          Same-then state_after s state_of
            (handle host r.rel.r_type h (u64 (host.sec_addr + r.rel.r_offset)) r.rel
              (if r.warned then or_start host.output_vma else r.relocation) r.unresolved s)
            _
            (handle-Same r.rel.r_type h (u64 (host.sec_addr + r.rel.r_offset)) r.rel
              (if r.warned then or_start host.output_vma else r.relocation) r.unresolved s)
            (λ x. perform-Same b h x)))
