-- ===== src/Elf/Relax/Shrink.antt =====
-- What no relaxation of elf32-riscv.c changes: the number of relocations and of symbols, and the block
-- that holds the bytes of the section, which only gets shorter in it.
use soft_hier_release_test.Base.{
  inl, inr, ℕ, zero, suc, ◌+◌, ◌-◌, ◌≤◌, Bool, true, false, ◌&&◌, List, [], ◌∷◌, ◌++◌, length, take,
  drop, leb, sub64, ◌≡◌, refl, sym, ap, ◌∙◌, subst, arith, length-append, length-take, length-drop,
  length-map, Bool-cases,
}
use soft_hier_release_test.Memory.{Outcome, done, failed, fault, ◌>>=◌}
use soft_hier_release_test.Memory.Frame.{done-step, done-injective}
use soft_hier_release_test.Bfd.{Rela}
use soft_hier_release_test.Elf.Reloc.{Codec}
use soft_hier_release_test.Elf.Relax.{Relaxed, adjust_rela, adjust_symbol, move_bytes, delete_bytes}
use soft_hier_release_test.Elf.Relax.Site.{Relaxing, update_rela, set_rela, put_bits, delete_again}

-- The section after some steps.
pub record IsShrunk (s t : Relaxing) : Type 0 where
  pub block : length t.section.contents ≡ length s.section.contents
  pub size : t.section.sec_size ≤ s.section.sec_size
  pub relocs : length t.section.relocs ≡ length s.section.relocs
  pub symbols : length t.section.symbols ≡ length s.section.symbols

-- The access of BFD stores into a block and leaves its length.
abbrev pub KeepsLength : Codec → Type 0
KeepsLength codec =
    (bits value offset : ℕ) (m m' : List ℕ)
    → codec.bfd_put bits value m offset ≡ done m'
    → length m' ≡ length m

-- A run from `s`, whenever it is done, leaves a section as above.
abbrev pub Shrinks : Relaxing → Outcome Relaxing → Type 0
Shrinks s o = (t : Relaxing) → o ≡ done t → IsShrunk s t

pub IsShrunk-trans : (a b c : Relaxing) → IsShrunk a b → IsShrunk b c → IsShrunk a c
IsShrunk-trans a b c p q = record {
  block = q.block ∙ p.block;
  size = omega (arith, p.size, q.size);
  relocs = q.relocs ∙ p.relocs;
  symbols = q.symbols ∙ p.symbols;
}

pub Shrinks-same : (s t : Relaxing) → s.section ≡ t.section → Shrinks s (done t)
Shrinks-same s t same u e =
    let here = ap (λ (x : Relaxing). x.section) (sym (done-injective t u e)) ∙ sym same in
    record {
      block = ap (λ (x : Relaxed). length x.contents) here;
      size = omega (arith, ap (λ (x : Relaxed). x.sec_size) here);
      relocs = ap (λ (x : Relaxed). length x.relocs) here;
      symbols = ap (λ (x : Relaxed). length x.symbols) here;
    }

pub Shrinks-done : (s : Relaxing) → Shrinks s (done s)
Shrinks-done s = Shrinks-same s s refl

pub Shrinks-failed : (s : Relaxing) → Shrinks s failed
Shrinks-failed s t e = cc

pub Shrinks-fault : (s : Relaxing) → Shrinks s fault
Shrinks-fault s t e = cc

-- A step that changes the section, and what comes behind it.
pub Shrinks-then :
    (s : Relaxing) (o : Outcome Relaxing) (k : Relaxing → Outcome Relaxing)
    → Shrinks s o
    → ((a : Relaxing) → Shrinks a (k a))
    → Shrinks s (o >>= k)
Shrinks-then s o k first next t e =
    let (a, here, rest) = done-step o k t e in IsShrunk-trans s a t (first a here) (next a t rest)

-- A step that only reads.
pub Shrinks-read {ℓ} :
    {A : Type ℓ} (s : Relaxing) (o : Outcome A) (k : A → Outcome Relaxing)
    → ((a : A) → Shrinks s (k a))
    → Shrinks s (o >>= k)
Shrinks-read s o k next t e = let (a, here, rest) = done-step o k t e in next a t rest

pub Shrinks-elim :
    (s : Relaxing) (b : Bool) (x y : Outcome Relaxing)
    → Shrinks s x
    → Shrinks s y
    → Shrinks s (elim b [ true ↦ x | false ↦ y ])
Shrinks-elim s true x y p q = p
Shrinks-elim s false x y p q = q

-- The flag is no part of the section.
pub Shrinks-flagged :
    (s : Relaxing) (o : Outcome Relaxing) → Shrinks (record s { sec_flg0 = true }) o → Shrinks s o
Shrinks-flagged s o h t e =
    let p = h t e in
    record { block = p.block; size = p.size; relocs = p.relocs; symbols = p.symbols }

length-update_rela :
    (f : Rela → Rela) (rs : List Rela) (i : ℕ) (rs' : List Rela)
    → update_rela f rs i ≡ done rs'
    → length rs' ≡ length rs
unfolding update_rela
length-update_rela f [] i rs' e = cc
length-update_rela f (r ∷ rs) zero rs' e = ap length (sym (done-injective (f r ∷ rs) rs' e))
length-update_rela f (r ∷ rs) (suc i) rs' e =
    let (rest, here, last) = done-step (update_rela f rs i) (λ rest. done (r ∷ rest)) rs' e in
    ap length (sym (done-injective (r ∷ rest) rs' last))
    ∙ ap suc (length-update_rela f rs i rest here)

pub set_rela-Shrinks : (f : Rela → Rela) (i : ℕ) (s : Relaxing) → Shrinks s (set_rela f i s)
unfolding set_rela
set_rela-Shrinks f i s t e =
    let (rs, here, last) = done-step (update_rela f s.section.relocs i) _ t e in
    let same = done-injective _ t last in
    subst (IsShrunk s) same (record {
      block = refl;
      size = omega arith;
      relocs = length-update_rela f s.section.relocs i rs here;
      symbols = refl;
    })

pub put_bits-Shrinks :
    (codec : Codec)
    → KeepsLength codec
    → (bits value offset : ℕ) (s : Relaxing) → Shrinks s (put_bits codec bits value offset s)
unfolding put_bits
put_bits-Shrinks codec keeps bits value offset s t e =
    let (m, here, last) = done-step (codec.bfd_put bits value s.section.contents offset) _ t e in
    subst (IsShrunk s) (done-injective _ t last) (record {
      block = keeps bits value offset s.section.contents m here;
      size = omega arith;
      relocs = refl;
      symbols = refl;
    })

-- The moved bytes fill the block, and there were `count` of them to delete.
move_bytes-length :
    (contents : List ℕ) (addr count toaddr : ℕ) (m : List ℕ)
    → move_bytes contents addr count toaddr ≡ done m
    → (length m ≡ length contents) × (addr + count ≤ toaddr)
unfolding move_bytes
move_bytes-length contents addr count toaddr m e =
    elim (Bool-cases (leb (addr + count) toaddr && leb toaddr (length contents))) [
      | inl holds ↦
          let room : addr + count ≤ toaddr = ground (arith, holds) in
          let inside : toaddr ≤ length contents = ground (arith, holds) in
          let here = done-injective _ m (rw holds at e) in
          let size = length-append (take addr contents) (
            take (toaddr - (addr + count)) (drop (addr + count) contents)
            ++ drop (toaddr - count) contents) in
          let rest =
            length-append (take (toaddr - (addr + count)) (drop (addr + count) contents))
              (drop (toaddr - count) contents) in
          let front = length-take addr contents (omega arith) in
          let behind = length-drop (addr + count) contents in
          let middle =
            length-take (toaddr - (addr + count)) (drop (addr + count) contents) (omega arith) in
          let tail = length-drop (toaddr - count) contents in
          (ap length (sym here) ∙ omega arith, room)
      | inr wrong_range ↦ let wrong = rw wrong_range at e in absurd (cc)
    ]

pub delete_bytes-size :
    (addr count : ℕ) (s t : Relaxed)
    → delete_bytes addr count s ≡ done t
    → (length t.contents ≡ length s.contents)
      × (t.sec_size ≡ sub64 s.sec_size count)
      × (addr + count ≤ s.sec_size)
      × (length t.relocs ≡ length s.relocs)
      × (length t.symbols ≡ length s.symbols)
unfolding delete_bytes
delete_bytes-size addr count s t e =
    let (m, here, last) = done-step (move_bytes s.contents addr count s.sec_size) _ t e in
    let sizes = move_bytes-length s.contents addr count s.sec_size m here in
    let same = done-injective _ t last in
    (
      ap (λ (x : Relaxed). length x.contents) (sym same) ∙ sizes.0,
      ap (λ (x : Relaxed). x.sec_size) (sym same),
      sizes.1,
      ap (λ (x : Relaxed). length x.relocs) (sym same)
          ∙ length-map (adjust_rela addr count s.sec_size) s.relocs,
      ap (λ (x : Relaxed). length x.symbols) (sym same)
          ∙ length-map (adjust_symbol addr count s.sec_size) s.symbols,
    )

pub delete_section-Shrinks :
    (addr count : ℕ) (s : Relaxing) (again : Bool)
    → Shrinks s
        (delete_bytes addr count s.section >>= λ d. done (record s { section = d; again = again }))
delete_section-Shrinks addr count s again t e =
    let (d, here, last) = done-step (delete_bytes addr count s.section) _ t e in
    let (block, size, room, relocs, symbols) = delete_bytes-size addr count s.section d here in
    subst (IsShrunk s) (done-injective _ t last) (record {
      block = block;
      size = omega (arith, size, room);
      relocs = relocs;
      symbols = symbols;
    })

pub delete_again-Shrinks : (addr count : ℕ) (s : Relaxing) → Shrinks s (delete_again addr count s)
unfolding delete_again
delete_again-Shrinks addr count s = delete_section-Shrinks addr count s true
