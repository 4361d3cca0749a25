-- ===== src/Elf/Relocate/Imports/GotCases.antt =====
-- The GOT cases of `riscv_elf_relocate_section` (elf32-riscv.c) leave the import table as it is.
use soft_hier_release_test.Base.{
  ℕ, ◌+◌, Bool, true, false, Option, none, some, ◌==◌, if◌then◌else◌, u32, u64, ◌≡◌, refl, ◌∙◌,
}
use soft_hier_release_test.Memory.{Outcome, done, failed, fault, put_word}
use soft_hier_release_test.Bfd.{Rela, r_tls_dtpmod32}
use soft_hier_release_test.Elf.Alloc.{word_bytes}
use soft_hier_release_test.Elf.Alloc.Size.{ie_off}
use soft_hier_release_test.Elf.Dynamic.{append_rela}
use soft_hier_release_test.Elf.Reloc.{Status, reloc_ok, reloc_overflow}
use soft_hier_release_test.Elf.Reloc.Pcrel.{PcrelRelocs, record_pcrel_hi_reloc}
use soft_hier_release_test.Elf.Relocate.{RelocHost, Relocating, record_hi}
use soft_hier_release_test.Elf.Relocate.Got.{
  put_got, append_got, init_got, global_got, fill_local_got, local_got, got_entry, got_hi20,
  take_tls, tls_type_of, fill_dtprel, fill_gd, fill_ie, fill_if_gd, fill_if_ie, fill_tls, tls_got,
  is_marked, tls_index, need_relocs, tls_rela, relative_rela,
}
use soft_hier_release_test.Elf.Relocate.Imports.{
  Same, itself, state_of, Same-done, Same-if, Same-read, Same-then,
}

module _ (host : RelocHost) where
  put_got-Same : (off v : ℕ) (s : Relocating) → Same itself s (put_got host off v s)
  put_got-Same off v s =
      Same-read itself s (put_word s.sgot off (u32 v)) _ (λ m. Same-done itself s _ refl)

  append_got-Same : (rela : Rela) (s : Relocating) → Same itself s (append_got host rela s)
  append_got-Same rela s =
      Same-read itself s (append_rela rela s.relgot) _ (λ r. Same-done itself s _ refl)

  abbrev behind : ℕ × Relocating → Relocating
  behind r = r.1

  abbrev behind_two : ℕ × Bool × Relocating → Relocating
  behind_two r = r.2

  init_got-Same : (i v : ℕ) (s : Relocating) → Same behind s (init_got host i v s)
  unfolding init_got
  init_got-Same i v s =
      Same-if behind s (is_marked (s.got_offset i)) _ _ (Same-done behind s _ refl) (
        Same-then behind s itself (put_got host (s.got_offset i) v s) _
          (put_got-Same (s.got_offset i) v s) (λ t. Same-done behind t _ refl))

  global_got-Same :
      (i v : ℕ) (un : Bool) (s : Relocating) → Same behind_two s (global_got host i v un s)
  unfolding global_got
  global_got-Same i v un s =
      Same-if behind_two s _ _ _
        (Same-then behind_two s behind (init_got host i v s) _ (init_got-Same i v s)
          (λ r. Same-done behind_two r.1 _ refl))
        (Same-done behind_two s _ refl)

  fill_local_got-Same : (off v : ℕ) (s : Relocating) → Same itself s (fill_local_got host off v s)
  unfolding fill_local_got
  fill_local_got-Same off v s =
      Same-if itself s host.pic _ _
        (Same-then itself s itself (append_got host (relative_rela host off v) s) _
          (append_got-Same (relative_rela host off v) s) (λ t. put_got-Same off 0 t))
        (put_got-Same off v s)

  local_got-Same : (i v : ℕ) (s : Relocating) → Same behind s (local_got host i v s)
  unfolding local_got
  local_got-Same i v s =
      Same-if behind s (is_marked (s.local_got i)) _ _ (Same-done behind s _ refl) (
        Same-then behind s itself (fill_local_got host (s.local_got i) v s) _
          (fill_local_got-Same (s.local_got i) v s) (λ t. Same-done behind t _ refl))

  got_entry-Same :
      (h : Option ℕ) (i v : ℕ) (un : Bool) (s : Relocating)
      → Same behind_two s (got_entry host h i v un s)
  unfolding got_entry
  got_entry-Same none i v un s =
      Same-then behind_two s behind (local_got host i v s) _ (local_got-Same i v s)
        (λ r. Same-done behind_two r.1 _ refl)
  got_entry-Same (some j) i v un s = global_got-Same j v un s

  -- Recording a high part does not touch the table.
  pub record_hi-imports :
      (pc v : ℕ) (s : Relocating) → (record_hi host pc v s).1.imports ≡ s.imports
  unfolding record_hi
  record_hi-imports pc v s = choose (record_pcrel_hi_reloc host.memory s.pcrel pc v)
    where
      choose :
          (o : Outcome PcrelRelocs)
          → (elim o as (λ (x : Outcome PcrelRelocs). Status × Relocating) [
            | done p ↦ (reloc_ok, record s { pcrel = p })
            | failed ↦ (reloc_overflow, s)
            | fault ↦ (reloc_overflow, s)
          ]).1.imports
            ≡ s.imports
      choose (done p) = refl
      choose failed = refl
      choose fault = refl

  pub got_hi20-Same :
      (h : Option ℕ) (pc : ℕ) (rel : Rela) (v : ℕ) (un : Bool) (s : Relocating)
      → Same state_of s (got_hi20 host h pc rel v un s)
  unfolding got_hi20
  got_hi20-Same h pc rel v un s =
      Same-then state_of s behind_two (got_entry host h rel.r_sym v un s) _
        (got_entry-Same h rel.r_sym v un s)
        (λ e. Same-done state_of e.2 _ (record_hi-imports pc (u64 (host.sgot_addr + e.0)) e.2))

  fill_dtprel-Same : (off i v : ℕ) (s : Relocating) → Same itself s (fill_dtprel host off i v s)
  unfolding fill_dtprel
  fill_dtprel-Same off i v s = Same-if itself s (i == 0) _ _ (put_got-Same _ _ s) (
      Same-then itself s itself (put_got host (off + word_bytes) 0 s) _
        (put_got-Same (off + word_bytes) 0 s) (λ t. append_got-Same _ t))

  fill_gd-Same :
      (off i : ℕ) (need : Bool) (v : ℕ) (s : Relocating)
      → Same itself s (fill_gd host off i need v s)
  unfolding fill_gd
  fill_gd-Same off i false v s =
      Same-then itself s itself (put_got host off 1 s) _ (put_got-Same off 1 s)
        (λ t. put_got-Same _ _ t)
  fill_gd-Same off i true v s =
      Same-then itself s itself (put_got host off 0 s) _ (put_got-Same off 0 s) (λ a.
        Same-then itself a itself (append_got host (tls_rela host off i r_tls_dtpmod32 0) a) _
          (append_got-Same (tls_rela host off i r_tls_dtpmod32 0) a)
          (λ b. fill_dtprel-Same off i v b))

  fill_ie-Same :
      (off i : ℕ) (need : Bool) (v : ℕ) (s : Relocating)
      → Same itself s (fill_ie host off i need v s)
  unfolding fill_ie
  fill_ie-Same off i false v s = put_got-Same _ _ s
  fill_ie-Same off i true v s =
      Same-then itself s itself (put_got host off 0 s) _ (put_got-Same off 0 s)
        (λ t. append_got-Same _ t)

  fill_tls-Same :
      (h : Option ℕ) (tls off v : ℕ) (s : Relocating) → Same itself s (fill_tls host h tls off v s)
  unfolding fill_tls fill_if_gd fill_if_ie
  fill_tls-Same h tls off v s =
      Same-then itself s itself (fill_if_gd host h tls off v s) _
        (Same-if itself s _ _ _ (fill_gd-Same off (tls_index host h) (need_relocs host h) v s)
          (Same-done itself s s refl))
        (λ t.
          Same-if itself t _ _ _
            (fill_ie-Same (off + ie_off tls) (tls_index host h) (need_relocs host h) v t)
            (Same-done itself t t refl))

  take_tls-imports :
      (h : Option ℕ) (i : ℕ) (s : Relocating) → (take_tls host h i s).1.imports ≡ s.imports
  unfolding take_tls
  take_tls-imports none i s = refl
  take_tls-imports (some j) i s = refl

  pub tls_got-Same :
      (ie : Bool) (h : Option ℕ) (pc : ℕ) (rel : Rela) (v : ℕ) (s : Relocating)
      → Same state_of s (tls_got host ie h pc rel v s)
  unfolding tls_got
  tls_got-Same ie h pc rel v s r e =
      let taken = take_tls host h rel.r_sym s in
      let tls = tls_type_of host h rel.r_sym in
      Same-then state_of taken.1 itself
        (if is_marked taken.0 then done taken.1 else fill_tls host h tls taken.0 v taken.1) _
        (Same-if itself taken.1 (is_marked taken.0) _ _ (Same-done itself taken.1 taken.1 refl)
          (fill_tls-Same h tls taken.0 v taken.1))
        (λ t. Same-done state_of t _ (record_hi-imports pc _ t)) r e
      ∙ take_tls-imports h rel.r_sym s
