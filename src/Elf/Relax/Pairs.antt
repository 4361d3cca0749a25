-- ===== src/Elf/Relax/Pairs.antt =====
-- What the relaxations of imported symbols and of the GOT do to the relocation behind their own, which
-- `_bfd_riscv_relax_section` requires to be the R_RISCV_RELAX of the same place (elf32-riscv.c).
use soft_hier_release_test.Base.{
  ℕ, suc, ◌+◌, ◌*◌, Bool, true, false, ◌&&◌, some, List, ==_iff, ◌≡◌, ◌≢◌, refl, sym, ap, ap₂, ◌∙◌,
  arith,
}
use soft_hier_release_test.Memory.{done}
use soft_hier_release_test.Memory.Frame.{done-step, done-injective}
use soft_hier_release_test.Bfd.{Rela, r_hi20, r_lo12_i, r_pcrel_hi20, r_pcrel_lo12_i}
use soft_hier_release_test.Elf.Relax.Site.{
  Link, Site, Relaxing, retype, rela_at, set_rela, put_bits,
}
use soft_hier_release_test.Elf.Relax.Import.{
  low_part, as_lui, as_addi, absolute_ref, relax_import_pcrel, relax_got_ref,
}
use soft_hier_release_test.Elf.Relax.Isa.{IsRiscv, rd_of, rs1_of, with_rd, lui_word, addi_word}
use soft_hier_release_test.Elf.Relax.Section.{is_relax, is_paired}
use soft_hier_release_test.Elf.Relax.Shorter.{
  rela_at-update_rela, rela_at-update_rela_ne, set_rela-section, put_bits-section,
}

and_right : (a b : Bool) → (a && b) ≡ true → b ≡ true
and_right true b e = e
and_right false b e = cc

is_paired-offset :
    (rel next : Rela) → is_paired rel (some next) ≡ true → rel.r_offset ≡ next.r_offset
unfolding is_paired
is_paired-offset rel next e =
    (==_iff rel.r_offset next.r_offset).0 (and_right (is_relax next.r_type) _ e)

next_ne : (i : ℕ) → i ≢ suc i
next_ne i e = absurd (omega (arith, e))

pub set_rela_self :
    (f : Rela → Rela) (i : ℕ) (s t : Relaxing) (r : Rela)
    → rela_at s.section.relocs i ≡ done r
    → set_rela f i s ≡ done t
    → rela_at t.section.relocs i ≡ done (f r)
set_rela_self f i s t r found e =
    rela_at-update_rela f s.section.relocs t.section.relocs i r found (set_rela-section f i s t e).0

pub set_rela_ne :
    (f : Rela → Rela) (i j : ℕ) (s t : Relaxing)
    → i ≢ j
    → set_rela f i s ≡ done t
    → rela_at t.section.relocs j ≡ rela_at s.section.relocs j
set_rela_ne f i j s t ne e =
    rela_at-update_rela_ne f s.section.relocs t.section.relocs i j ne (set_rela-section f i s t e).0

module _ (link : Link) (site : Site) (isa : IsRiscv link.opcodes) where
  -- A reference to an imported symbol by R_RISCV_PCREL_HI20 with the R_RISCV_RELAX of its place directly behind it,
  -- whenever the answer is TRUE and the constants are those of the instruction set: the instruction of the place is
  -- stored as a LUI of 0 to the register that it wrote before, its relocation is R_RISCV_HI20, and the R_RISCV_RELAX has become an R_RISCV_LO12_I of the same symbol at the place of the LUI.
  pub relax_import_pcrel-pair :
      (s t : Relaxing) (rel next : Rela) (word : ℕ)
      → site.is_import ≡ true
      → rela_at s.section.relocs site.index ≡ done rel
      → rela_at s.section.relocs (suc site.index) ≡ done next
      → rel.r_type ≡ r_pcrel_hi20
      → is_paired rel (some next) ≡ true
      → link.codec.bfd_get 32 s.section.contents rel.r_offset ≡ done word
      → relax_import_pcrel link site s ≡ done t
      → (low : Rela) × (link.codec.bfd_put 32
            (with_rd 0x37 (rd_of word))
            s.section.contents
            rel.r_offset
          ≡ done t.section.contents)
        × (rela_at t.section.relocs site.index ≡ done (retype r_hi20 rel))
        × (rela_at t.section.relocs (suc site.index) ≡ done low)
        × (low.r_type ≡ r_lo12_i)
        × (low.r_sym ≡ rel.r_sym)
        × (low.r_offset ≡ rel.r_offset)
  unfolding relax_import_pcrel absolute_ref
  relax_import_pcrel-pair s t rel next word import found behind type paired read e =
      let opened : absolute_ref link site rel r_pcrel_hi20 s ≡ done t =
        rw (found, import, type) at e in
      let (lui, e0, rest0) =
        done-step (link.codec.bfd_get 32 s.section.contents rel.r_offset) _ t opened in
      let same : lui ≡ word = done-injective lui word (sym e0 ∙ read) in
      let (a, e1, rest1) =
        done-step (put_bits link.codec 32 (as_lui link site lui) rel.r_offset s) _ t rest0 in
      let (b, e2, rest2) = done-step (set_rela (retype r_hi20) site.index a) _ t rest1 in
      let put_a = put_bits-section link.codec 32 (as_lui link site lui) rel.r_offset s a e1 in
      let set_b = set_rela-section (retype r_hi20) site.index a b e2 in
      let set_t = set_rela-section (low_part rel.r_sym) (suc site.index) b t rest2 in
      let at_a = λ (j : ℕ). ap (λ (l : List Rela). rela_at l j) put_a.1 in
      let own = set_rela_self (retype r_hi20) site.index a b rel (at_a site.index ∙ found) e2 in
      let other =
        set_rela_ne (retype r_hi20) site.index (suc site.index) a b (next_ne site.index) e2
        ∙ at_a (suc site.index)
        ∙ behind in
      (
        low_part rel.r_sym next,
        ap (λ (w : ℕ). link.codec.bfd_put 32 w s.section.contents rel.r_offset)
              (sym (lui_word link.opcodes isa word) ∙ ap (as_lui link site) (sym same))
            ∙ put_a.0
            ∙ ap done (sym (set_t.1 ∙ set_b.1)),
        set_rela_ne (low_part rel.r_sym) (suc site.index) site.index b t
              (λ i. next_ne site.index (sym i)) rest2
            ∙ own,
        set_rela_self (low_part rel.r_sym) (suc site.index) b t next other rest2,
        refl,
        refl,
        sym (is_paired-offset rel next paired),
      )

  -- A reference through the GOT by R_RISCV_GOT_HI20 with the R_RISCV_RELAX of its place directly behind it, whenever
  -- the answer is TRUE and the constants are those of the instruction set: the relocation is R_RISCV_PCREL_HI20, but the
  -- instruction of the same place is stored as an ADDI of 0 with the fields rd and rs1 that it had, and the R_RISCV_RELAX has become an R_RISCV_PCREL_LO12_I of that place.
  pub relax_got_ref-pair :
      (s t : Relaxing) (rel next : Rela) (word : ℕ)
      → rela_at s.section.relocs site.index ≡ done rel
      → rela_at s.section.relocs (suc site.index) ≡ done next
      → is_paired rel (some next) ≡ true
      → link.codec.bfd_get 32 s.section.contents rel.r_offset ≡ done word
      → relax_got_ref link site s ≡ done t
      → (low : Rela) × (link.codec.bfd_put 32
            (with_rd 0x13 (rd_of word) + 32768 * rs1_of word)
            s.section.contents
            rel.r_offset
          ≡ done t.section.contents)
        × (rela_at t.section.relocs site.index ≡ done (retype r_pcrel_hi20 rel))
        × (rela_at t.section.relocs (suc site.index) ≡ done low)
        × (low.r_type ≡ r_pcrel_lo12_i)
        × (low.r_offset ≡ rel.r_offset)
  unfolding relax_got_ref
  relax_got_ref-pair s t rel next word found behind paired read e =
      let (a, e1, rest1) = done-step (set_rela (retype r_pcrel_hi20) site.index s) _ t e in
      let (low, e2, rest2) = done-step (rela_at a.section.relocs (suc site.index)) _ t rest1 in
      let at_a =
        set_rela_ne (retype r_pcrel_hi20) site.index (suc site.index) s a (next_ne site.index) e1 in
      let same : low ≡ next = done-injective low next (sym e2 ∙ at_a ∙ behind) in
      let place : low.r_offset ≡ rel.r_offset =
        ap (λ (r : Rela). r.r_offset) same ∙ sym (is_paired-offset rel next paired) in
      let (got, e3, rest3) =
        done-step (link.codec.bfd_get 32 a.section.contents low.r_offset) _ t rest2 in
      let (b, e4, rest4) =
        done-step (put_bits link.codec 32 (as_addi link site got) low.r_offset a) _ t rest3 in
      let set_a = set_rela-section (retype r_pcrel_hi20) site.index s a e1 in
      let put_b = put_bits-section link.codec 32 (as_addi link site got) low.r_offset a b e4 in
      let set_t = set_rela-section (retype r_pcrel_lo12_i) (suc site.index) b t rest4 in
      let own = set_rela_self (retype r_pcrel_hi20) site.index s a rel found e1 in
      let at_b = λ (j : ℕ). ap (λ (l : List Rela). rela_at l j) put_b.1 in
      let word_same : got ≡ word =
        done-injective got word (sym e3 ∙ ap₂ (link.codec.bfd_get 32) set_a.1 place ∙ read) in
      (
        retype r_pcrel_lo12_i low,
        ap (λ (w : ℕ). link.codec.bfd_put 32 w s.section.contents rel.r_offset)
              (sym (addi_word link.opcodes isa word) ∙ ap (as_addi link site) (sym word_same))
            ∙ ap₂ (link.codec.bfd_put 32 (as_addi link site got)) (sym set_a.1) (sym place)
            ∙ put_b.0
            ∙ ap done (sym set_t.1),
        set_rela_ne (retype r_pcrel_lo12_i) (suc site.index) site.index b t
              (λ i. next_ne site.index (sym i)) rest4
            ∙ at_b site.index
            ∙ own,
        set_rela_self (retype r_pcrel_lo12_i) (suc site.index) b t low (at_b (suc site.index) ∙ e2)
            rest4,
        refl,
        place,
      )
