-- ===== src/Elf/Relax/Bounds.antt =====
-- The bounds that a whole relaxation keeps (elf32-riscv.c, `_bfd_riscv_relax_section`).
use soft_hier_release_test.Base.{
  ℕ, zero, suc, ◌+◌, ◌/◌, Bool, true, false, ◌&&◌, ◌||◌, Option, none, some, length, get_elem?,
  ◌==◌, ◌≡◌, refl, ap, subst, ◌∙◌, if◌then◌else◌,
}
use soft_hier_release_test.Memory.{Outcome, done, failed}
use soft_hier_release_test.Memory.Frame.{done-step, done-injective}
use soft_hier_release_test.Bfd.{
  RelocType, Rela, r_hi20, r_lo12_i, r_lo12_s, r_tprel_hi20, r_tprel_add, r_tprel_lo12_i,
  r_tprel_lo12_s, r_pcrel_hi20, r_pcrel_lo12_i,
}
use soft_hier_release_test.Elf.Relax.Site.{Link, Site, Relaxing, rela_at, clear_rela, set_rela}
use soft_hier_release_test.Elf.Relax.Call.{
  relax_call, shorten_call, relax_lui, relax_near, is_near_gp, is_c_lui, compress_lui, relax_tls_le,
  relax_near_tp,
}
use soft_hier_release_test.Elf.Relax.Align.{
  next_power, align_to, relax_align, put_nops, fill_nops, trim_nops,
}
use soft_hier_release_test.Elf.Relax.Import.{relax_import_pcrel, absolute_ref, relax_got_ref}
use soft_hier_release_test.Elf.Relax.Section.{
  RelaxInput, RelaxFunc, call_func, lui_func, tls_le_func, import_pcrel_func, got_ref_func,
  align_func, Target, site_of, target_of, apply_func, relax_rela, relax_target, relax_step, func_of,
  relax_loop, relax_section, nothing_to_relax,
}
use soft_hier_release_test.Elf.Relax.Shrink.{
  IsShrunk, IsShrunk-trans, KeepsLength, Shrinks, Shrinks-same, Shrinks-done, Shrinks-failed,
  Shrinks-fault, Shrinks-then, Shrinks-read, Shrinks-elim, Shrinks-flagged, set_rela-Shrinks,
  put_bits-Shrinks, delete_section-Shrinks, delete_again-Shrinks,
}

module _ (link : Link) (keeps : KeepsLength link.codec) where
  relax_call-Shrinks : (site : Site) (s : Relaxing) → Shrinks s (relax_call link site s)
  unfolding relax_call shorten_call
  relax_call-Shrinks site s = Shrinks-read s (rela_at s.section.relocs site.index) _ (λ rel.
      Shrinks-elim s _ _ _ (Shrinks-done s) (
        Shrinks-read s (link.codec.bfd_get 32 s.section.contents rel.r_offset) _ (λ auipc.
          Shrinks-read s (link.codec.bfd_get 32 s.section.contents (rel.r_offset + 4)) _ (λ jalr.
            Shrinks-then s _ _ (set_rela-Shrinks _ _ s) (λ a.
              Shrinks-then a _ _ (put_bits-Shrinks link.codec keeps _ _ _ a)
                (λ b. delete_again-Shrinks _ _ b))))))

  relax_near-Shrinks :
      (site : Site) (type : RelocType) (offset : ℕ) (s : Relaxing)
      → Shrinks s (relax_near link site type offset s)
  unfolding relax_near
  relax_near-Shrinks site r_lo12_i offset s = set_rela-Shrinks _ _ s
  relax_near-Shrinks site r_lo12_s offset s = set_rela-Shrinks _ _ s
  relax_near-Shrinks site r_hi20 offset s =
      Shrinks-then s _ _ (set_rela-Shrinks _ _ s) (λ a. delete_again-Shrinks _ _ a)
  relax_near-Shrinks site _ offset s = Shrinks-fault s

  compress_lui-Shrinks :
      (site : Site) (offset : ℕ) (s : Relaxing) → Shrinks s (compress_lui link site offset s)
  unfolding compress_lui
  compress_lui-Shrinks site offset s =
      Shrinks-read s (link.codec.bfd_get 32 s.section.contents offset) _ (λ lui.
        Shrinks-elim s _ _ _ (Shrinks-done s) (
          Shrinks-then s _ _ (put_bits-Shrinks link.codec keeps _ _ _ s)
            (λ a. Shrinks-then a _ _ (set_rela-Shrinks _ _ a) (λ b. delete_again-Shrinks _ _ b))))

  relax_lui-Shrinks : (site : Site) (s : Relaxing) → Shrinks s (relax_lui link site s)
  unfolding relax_lui
  relax_lui-Shrinks site s = Shrinks-read s (rela_at s.section.relocs site.index) _ (λ rel.
      Shrinks-elim s (site.is_import || site.sym_merge_or_code) _ _ (Shrinks-done s) (
        Shrinks-elim s (is_near_gp link site) _ _
          (relax_near-Shrinks site rel.r_type rel.r_offset s)
          (Shrinks-elim s (is_c_lui link site rel.r_type) _ _
            (compress_lui-Shrinks site rel.r_offset s) (Shrinks-done s))))

  relax_near_tp-Shrinks :
      (site : Site) (type : RelocType) (offset : ℕ) (s : Relaxing)
      → Shrinks s (relax_near_tp link site type offset s)
  unfolding relax_near_tp
  relax_near_tp-Shrinks site r_tprel_lo12_i offset s = set_rela-Shrinks _ _ s
  relax_near_tp-Shrinks site r_tprel_lo12_s offset s = set_rela-Shrinks _ _ s
  relax_near_tp-Shrinks site r_tprel_hi20 offset s =
      Shrinks-then s _ _ (set_rela-Shrinks _ _ s) (λ a. delete_again-Shrinks _ _ a)
  relax_near_tp-Shrinks site r_tprel_add offset s =
      Shrinks-then s _ _ (set_rela-Shrinks _ _ s) (λ a. delete_again-Shrinks _ _ a)
  relax_near_tp-Shrinks site _ offset s = Shrinks-fault s

  relax_tls_le-Shrinks : (site : Site) (s : Relaxing) → Shrinks s (relax_tls_le link site s)
  unfolding relax_tls_le
  relax_tls_le-Shrinks site s = Shrinks-read s (rela_at s.section.relocs site.index) _ (λ rel.
      Shrinks-elim s _ _ _ (Shrinks-done s) (relax_near_tp-Shrinks site rel.r_type rel.r_offset s))

  put_nops-Shrinks : (n offset : ℕ) (s : Relaxing) → Shrinks s (put_nops link n offset s)
  unfolding put_nops
  put_nops-Shrinks zero offset s = Shrinks-done s
  put_nops-Shrinks (suc n) offset s =
      Shrinks-then s _ _ (put_bits-Shrinks link.codec keeps _ _ _ s)
        (λ a. put_nops-Shrinks n (offset + 4) a)

  fill_nops-Shrinks : (offset n : ℕ) (s : Relaxing) → Shrinks s (fill_nops link offset n s)
  unfolding fill_nops
  fill_nops-Shrinks offset n s =
      Shrinks-then s _ _ (put_nops-Shrinks (n / 4) offset s)
        (λ a. Shrinks-elim a _ _ _ (Shrinks-done a) (put_bits-Shrinks link.codec keeps _ _ _ a))

  relax_align-Shrinks : (site : Site) (s : Relaxing) → Shrinks s (relax_align link site s)
  unfolding relax_align align_to trim_nops
  relax_align-Shrinks site s = Shrinks-read s (rela_at s.section.relocs site.index) _ (λ rel.
      Shrinks-read s (next_power 65 1 rel.r_addend) _ (λ alignment.
        Shrinks-elim s _ _ _ (Shrinks-failed s) (
          Shrinks-then s _ _
            (Shrinks-flagged s (set_rela clear_rela site.index (record s { sec_flg0 = true }))
              (set_rela-Shrinks clear_rela site.index (record s { sec_flg0 = true })))
            (λ a. Shrinks-elim a _ _ _ (Shrinks-done a) (
              Shrinks-then a _ _ (fill_nops-Shrinks _ _ a)
                (λ b. delete_section-Shrinks _ _ b b.again))))))

  absolute_ref-Shrinks :
      (site : Site) (rel : Rela) (type : RelocType) (s : Relaxing)
      → Shrinks s (absolute_ref link site rel type s)
  unfolding absolute_ref
  absolute_ref-Shrinks site rel r_pcrel_lo12_i s = set_rela-Shrinks _ _ s
  absolute_ref-Shrinks site rel r_pcrel_hi20 s =
      Shrinks-read s (link.codec.bfd_get 32 s.section.contents rel.r_offset) _ (λ lui.
        Shrinks-then s _ _ (put_bits-Shrinks link.codec keeps _ _ _ s)
          (λ a. Shrinks-then a _ _ (set_rela-Shrinks _ _ a) (λ b. set_rela-Shrinks _ _ b)))
  absolute_ref-Shrinks site rel _ s = Shrinks-same s _ refl

  relax_import_pcrel-Shrinks :
      (site : Site) (s : Relaxing) → Shrinks s (relax_import_pcrel link site s)
  unfolding relax_import_pcrel
  relax_import_pcrel-Shrinks site s = Shrinks-read s (rela_at s.section.relocs site.index) _ (λ rel.
      Shrinks-elim s _ _ _ (absolute_ref-Shrinks site rel rel.r_type s) (Shrinks-same s _ refl))

  relax_got_ref-Shrinks : (site : Site) (s : Relaxing) → Shrinks s (relax_got_ref link site s)
  unfolding relax_got_ref
  relax_got_ref-Shrinks site s = Shrinks-then s _ _ (set_rela-Shrinks _ _ s) (λ a.
      Shrinks-read a (rela_at a.section.relocs (suc site.index)) _ (λ low.
        Shrinks-read a (link.codec.bfd_get 32 a.section.contents low.r_offset) _ (λ word.
          Shrinks-then a _ _ (put_bits-Shrinks link.codec keeps _ _ _ a)
            (λ b. set_rela-Shrinks _ _ b))))

module _ (input : RelaxInput) (keeps : KeepsLength input.link.codec) where
  apply_func-Shrinks :
      (func : RelaxFunc) (site : Site) (s : Relaxing) → Shrinks s (apply_func input func site s)
  unfolding apply_func
  apply_func-Shrinks call_func site s = relax_call-Shrinks input.link keeps site s
  apply_func-Shrinks lui_func site s = relax_lui-Shrinks input.link keeps site s
  apply_func-Shrinks tls_le_func site s = relax_tls_le-Shrinks input.link keeps site s
  apply_func-Shrinks import_pcrel_func site s = relax_import_pcrel-Shrinks input.link keeps site s
  apply_func-Shrinks got_ref_func site s = relax_got_ref-Shrinks input.link keeps site s
  apply_func-Shrinks align_func site s = relax_align-Shrinks input.link keeps site s

  -- A reply with the section behind it.
  abbrev ShrinksBeside : Relaxing → Outcome (ℕ × Relaxing) → Type 0
  ShrinksBeside s o = (r : ℕ × Relaxing) → o ≡ done r → IsShrunk s r.1

  relax_target-Shrinks :
      (index : ℕ) (rel : Rela) (func : RelaxFunc) (s : Relaxing) (reserve : ℕ)
      (target : Option Target)
      → ShrinksBeside s (relax_target input index rel func s reserve target)
  unfolding relax_target
  relax_target-Shrinks index rel func s reserve none r e =
      Shrinks-done s r.1
        (ap done (ap (λ (x : ℕ × Relaxing). x.1) (done-injective (reserve, s) r e)))
  relax_target-Shrinks index rel func s reserve (some t) r e =
      let (a, here, last) =
        done-step (apply_func input func (site_of input index rel reserve t) s) _ r e in
      apply_func-Shrinks func (site_of input index rel reserve t) s r.1
        (here ∙ ap done (ap (λ (x : ℕ × Relaxing). x.1) (done-injective (reserve, a) r last)))

  relax_rela-Shrinks :
      (index : ℕ) (rel : Rela) (func : RelaxFunc) (reserve : ℕ) (s : Relaxing)
      → ShrinksBeside s (relax_rela input index rel func reserve s)
  unfolding relax_rela
  relax_rela-Shrinks index rel func reserve s r e =
      let (target, here, last) =
        done-step
          (if input.contents_read && (input.sh_info == 0 || input.symbols_read)
            then target_of input rel (input.symbol_at rel.r_sym) s.section.symbols reserve
            else failed)
          _ r e in
      relax_target-Shrinks index rel func s target.0 target.1 r last

  relax_step-Shrinks :
      (i : ℕ) (rel : Rela) (func : Option RelaxFunc) (reserve : ℕ) (s : Relaxing)
      (r : Bool × ℕ × Relaxing)
      → relax_step input i rel func reserve s ≡ done r
      → IsShrunk s r.2
  unfolding relax_step
  relax_step-Shrinks i rel none reserve s r e =
      Shrinks-done s r.2
        (ap done (ap (λ (x : Bool × ℕ × Relaxing). x.2) (done-injective (false, reserve, s) r e)))
  relax_step-Shrinks i rel (some func) reserve s r e =
      let (a, here, last) = done-step (relax_rela input i rel func reserve s) _ r e in
      subst (λ (x : Bool × ℕ × Relaxing). IsShrunk s x.2) (done-injective _ r last)
        (relax_rela-Shrinks i rel func reserve s a here)

  relax_loop-Shrinks :
      (left i : ℕ) (skip : Bool) (reserve : ℕ) (s : Relaxing)
      → Shrinks s (relax_loop input left i skip reserve s)
  unfolding relax_loop
  relax_loop-Shrinks zero i skip reserve s = Shrinks-done s
  relax_loop-Shrinks (suc left) i true reserve s = relax_loop-Shrinks left (suc i) false reserve s
  relax_loop-Shrinks (suc left) i false reserve s =
      Shrinks-read s (rela_at s.section.relocs i) _ (λ rel t e.
        let (r, here, last) =
          done-step
            (relax_step input i rel (func_of input rel (get_elem? s.section.relocs (suc i))) reserve
              s)
            _ t e in
        IsShrunk-trans s r.2 t (relax_step-Shrinks i rel _ reserve s r here)
          (relax_loop-Shrinks left (suc i) r.0 r.1 r.2 t last))

  -- If the access to the section's bytes keeps the length of their block: whenever the relaxation of a
  -- section answers TRUE, the section is not larger than before, its block has the same length, and it has
  -- as many relocations and its file as many symbols as before.
  pub relax_section-IsShrunk : (s t : Relaxing) → relax_section input s ≡ done t → IsShrunk s t
  unfolding relax_section
  relax_section-IsShrunk s t e =
      Shrinks-elim s (nothing_to_relax input s) _ _
        (Shrinks-same s (record s { again = false }) refl)
        (Shrinks-elim s input.relocs_read _ _
          (λ u h.
            let p =
              relax_loop-Shrinks (length s.section.relocs) 0 false 0 (record s { again = false }) u
                h in
            record { block = p.block; size = p.size; relocs = p.relocs; symbols = p.symbols })
          (Shrinks-failed s))
        t e
