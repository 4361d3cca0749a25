-- ===== src/Elf/Relax/Aligned.antt =====
-- What R_RISCV_ALIGN reaches (elf32-riscv.c, `_bfd_riscv_relax_align`).
use native.Mathlib.Nat.{pow-suc, one-le-pow, div-add-mod, mod-lt, div-lt_iff_lt-mul}
use soft_hier_release_test.Base.{
  ℕ, zero, suc, ◌+◌, ◌-◌, ◌*◌, ◌/◌, ◌%◌, ◌^◌, ◌≤◌, ◌<◌, bit_and, Bool, true, false, leb, ltb, ◌==◌,
  u64, sub64, ◌≡◌, ◌⊎◌, inl, inr, refl, sym, ap, ap₂, ◌∙◌, subst, arith, Bool-cases,
}
use soft_hier_release_test.Base.Bits.{round_down, pow_split}
use soft_hier_release_test.Memory.{Outcome, done, failed, ◌>>=◌}
use soft_hier_release_test.Memory.Frame.{done-step, done-injective}
use soft_hier_release_test.Bfd.{Rela}
use soft_hier_release_test.Elf.Reloc.{Codec}
use soft_hier_release_test.Elf.Relax.{delete_bytes}
use soft_hier_release_test.Elf.Relax.Shrink.{delete_bytes-size}
use soft_hier_release_test.Elf.Relax.Site.{
  Link, Site, Relaxing, rela_at, update_rela, clear_rela, set_rela, put_bits,
}
use soft_hier_release_test.Elf.Relax.Align.{
  next_power, nops_to, put_nops, fill_nops, trim_nops, align_to, relax_align,
}

next_power-smallest :
    (fuel j addend : ℕ)
    → j + fuel ≡ 65
    → j ≤ 63
    → addend < 2 ^ 63
    → (k : ℕ) × (next_power fuel (2 ^ j) addend ≡ done (2 ^ k))
      × (k ≤ 63)
      × (addend < 2 ^ k)
      × ((k ≡ j) ⊎ (2 ^ k ≤ 2 * addend))
unfolding next_power
next_power-smallest zero j addend left low bound = absurd (omega arith)
next_power-smallest (suc fuel) j addend left low bound = elim (Bool-cases (leb (2 ^ j) addend)) [
  | inr enough ↦ (j, ground (arith, enough), low, ground (arith, enough), inl refl)
  | inl small ↦
      let below : 2 ^ j ≤ addend = ground (arith, small) in
      let room : suc j ≤ 63 = not_last j low below bound in
      let double : u64 (2 ^ j * 2) ≡ 2 ^ suc j = omega (arith, pow-suc 2 j, below) in
      let (k, here, most, above, least) =
        next_power-smallest fuel (suc j) addend (omega arith) room bound in
      let first : next_power (suc fuel) (2 ^ j) addend ≡ done (2 ^ k) = rw (small, double) here in
      let smallest : (k ≡ j) ⊎ (2 ^ k ≤ 2 * addend) = inr (at_most k least below) in
      (k, first, most, above, smallest)
]
  where
    at_most : (k : ℕ) → (k ≡ suc j) ⊎ (2 ^ k ≤ 2 * addend) → 2 ^ j ≤ addend → 2 ^ k ≤ 2 * addend
    at_most k (inl same) below =
        subst (λ (i : ℕ). 2 ^ i ≤ 2 * addend) (sym same) (omega (arith, pow-suc 2 j))
    at_most k (inr least) below = least

    not_last : (j : ℕ) → j ≤ 63 → 2 ^ j ≤ addend → addend < 2 ^ 63 → suc j ≤ 63
    not_last j low below bound = elim (Bool-cases (ltb j 63)) [
      | inl less ↦ ground (arith, less)
      | inr more ↦
          let last : j ≡ 63 = ground (arith, more) in
          let wrong : 2 ^ 63 ≤ addend = subst (λ (i : ℕ). 2 ^ i ≤ addend) last below in
          absurd (omega arith)
    ]

pred_mul : (m p : ℕ) → (0 < 2 → 1 ≤ m) → (m - 1) * p + p ≡ m * p
pred_mul zero p some = absurd (omega (arith, some (omega arith)))
pred_mul (suc m) p some = let same : suc m - 1 ≡ m = omega arith in rw same (omega arith)

-- The next multiple behind `start - 1`.
nops_to-multiple :
    (k start : ℕ)
    → k ≤ 63
    → 0 < start
    → start + 2 ^ k < 2 ^ 64
    → (q : ℕ) × (start + nops_to (2 ^ k) start ≡ q * 2 ^ k) × (nops_to (2 ^ k) start < 2 ^ k)
unfolding nops_to
nops_to-multiple k start most some_bytes room =
    let q = (start - 1) / 2 ^ k in
    let r = (start - 1) % 2 ^ k in
    let some_power : 0 < 2 ^ k = omega (arith, one-le-pow k 2) in
    let split : start - 1 ≡ q * 2 ^ k + r = omega (arith, div-add-mod (start - 1) (2 ^ k)) in
    let fits : r < 2 ^ k = mod-lt (start - 1) some_power in
    let whole : 64 - k + k ≡ 64 = omega arith in
    let parts : 2 ^ (64 - k) * 2 ^ k ≡ 2 ^ 64 =
      pow_split (64 - k) k ∙ ap (λ (i : ℕ). 2 ^ i) whole in
    let mask : 2 ^ 64 - 1 - sub64 (2 ^ k) 1 ≡ (2 ^ (64 - k) - 1) * 2 ^ k =
      omega
        (arith, parts, some_power, room, pred_mul (2 ^ (64 - k)) (2 ^ k) (one-le-pow (64 - k) 2)) in
    let bound : q < 2 ^ (64 - k) = (div-lt_iff_lt-mul some_power).1 (omega (arith, parts)) in
    let rounded : bit_and (sub64 start 1) (2 ^ 64 - 1 - sub64 (2 ^ k) 1) ≡ q * 2 ^ k =
      ap₂ bit_and (omega (arith, split)) mask ∙ round_down k (64 - k) q r fits bound in
    (suc q, omega (arith, rounded, split, fits, room), omega (arith, rounded, split, fits, room))

-- The sizes of the steps before the deletion.
abbrev SameSize : Relaxing → Outcome Relaxing → Type 0
SameSize s o =
    (t : Relaxing)
    → o ≡ done t
    → (t.section.sec_size ≡ s.section.sec_size) × (t.sec_flg0 ≡ s.sec_flg0)

SameSize-same :
    (s t : Relaxing)
    → t.section.sec_size ≡ s.section.sec_size
    → t.sec_flg0 ≡ s.sec_flg0
    → SameSize s (done t)
SameSize-same s t size flag u e =
    subst (λ (x : Relaxing). (x.section.sec_size ≡ s.section.sec_size) × (x.sec_flg0 ≡ s.sec_flg0))
      (done-injective t u e) (size, flag)

pub SameSize-then :
    (s : Relaxing) (o : Outcome Relaxing) (k : Relaxing → Outcome Relaxing)
    → SameSize s o
    → ((a : Relaxing) → SameSize a (k a))
    → SameSize s (o >>= k)
SameSize-then s o k first next t e =
    let (a, here, rest) = done-step o k t e in
    let p = first a here in let q = next a t rest in (q.0 ∙ p.0, q.1 ∙ p.1)

pub set_rela-SameSize : (f : Rela → Rela) (i : ℕ) (s : Relaxing) → SameSize s (set_rela f i s)
unfolding set_rela
set_rela-SameSize f i s t e =
    let (rs, here, last) = done-step (update_rela f s.section.relocs i) _ t e in
    SameSize-same s _ refl refl t last

pub put_bits-SameSize :
    (codec : Codec) (bits value offset : ℕ) (s : Relaxing)
    → SameSize s (put_bits codec bits value offset s)
unfolding put_bits
put_bits-SameSize codec bits value offset s t e =
    let (m, here, last) = done-step (codec.bfd_put bits value s.section.contents offset) _ t e in
    SameSize-same s _ refl refl t last

module _ (link : Link) where
  put_nops-SameSize : (n offset : ℕ) (s : Relaxing) → SameSize s (put_nops link n offset s)
  unfolding put_nops
  put_nops-SameSize zero offset s = SameSize-same s s refl refl
  put_nops-SameSize (suc n) offset s =
      SameSize-then s _ _ (put_bits-SameSize link.codec _ _ _ s)
        (λ a. put_nops-SameSize n (offset + 4) a)

  fill_nops-SameSize : (offset n : ℕ) (s : Relaxing) → SameSize s (fill_nops link offset n s)
  unfolding fill_nops
  fill_nops-SameSize offset n s =
      SameSize-then s _ _ (put_nops-SameSize (n / 4) offset s) (λ a. last a (n % 4 == 0))
    where
      last :
          (a : Relaxing) (b : Bool)
          → SameSize a (elim b [
            | true ↦ done a
            | false ↦ put_bits link.codec 16 link.opcodes.rvc_nop (offset + n / 4 * 4) a
          ])
      last a true = SameSize-same a a refl refl
      last a false = put_bits-SameSize link.codec _ _ _ a

  -- `rel.r_addend - n` bytes go, none of them if the number of NOPs is right already.
  trim_nops-size :
      (rel : Rela) (n : ℕ) (s t : Relaxing)
      → s.section.sec_size < 2 ^ 64
      → n ≤ rel.r_addend
      → trim_nops link rel n s ≡ done t
      → (t.section.sec_size + (rel.r_addend - n) ≡ s.section.sec_size) × (t.sec_flg0 ≡ s.sec_flg0)
  unfolding trim_nops
  trim_nops-size rel n s t bound fits e = elim (Bool-cases (n == rel.r_addend)) [
    | inl equal ↦
        let p = SameSize-same s s refl refl t (rw (equal, trim_nops) at e) in
        let no_excess : rel.r_addend - n ≡ 0 = ground (arith, equal) in
        (omega (arith, p.0, no_excess), p.1)
    | inr more ↦
        let (a, here, rest) =
          done-step (fill_nops link rel.r_offset n s) _ t (rw (more, trim_nops) at e) in
        let p = fill_nops-SameSize rel.r_offset n s a here in
        let (d, gone, last) =
          done-step (delete_bytes (rel.r_offset + n) (rel.r_addend - n) a.section) _ t rest in
        let (block, size, room, relocs, symbols) =
          delete_bytes-size (rel.r_offset + n) (rel.r_addend - n) a.section d gone in
        let q = ap (λ (x : Relaxing). x.section.sec_size) (done-injective _ t last) in
        (
          omega (arith, q, size, room, p.0),
          sym (ap (λ (x : Relaxing). x.sec_flg0) (done-injective _ t last)) ∙ p.1,
        )
  ]

  align_found :
      (site : Site) (s : Relaxing) (rel : Rela) (alignment : ℕ)
      → rela_at s.section.relocs site.index ≡ done rel
      → next_power 65 1 rel.r_addend ≡ done alignment
      → relax_align link site s ≡ align_to link site rel s alignment
  unfolding relax_align
  align_found site s rel alignment found power = rw (found, power) refl

  relax_align-failed :
      (site : Site) (s : Relaxing) (rel : Rela) (alignment : ℕ)
      → rela_at s.section.relocs site.index ≡ done rel
      → next_power 65 1 rel.r_addend ≡ done alignment
      → rel.r_addend < nops_to alignment (sub64 site.symval rel.r_addend)
      → relax_align link site s ≡ failed
  unfolding align_to
  relax_align-failed site s rel alignment found power less =
      let test : ltb rel.r_addend (nops_to alignment (sub64 site.symval rel.r_addend)) ≡ true =
        ground arith in
      align_found site s rel alignment found power ∙ rw (test, align_to) refl

  relax_align-done :
      (site : Site) (s : Relaxing) (rel : Rela) (alignment : ℕ)
      → rela_at s.section.relocs site.index ≡ done rel
      → next_power 65 1 rel.r_addend ≡ done alignment
      → s.section.sec_size < 2 ^ 64
      → let n = nops_to alignment (sub64 site.symval rel.r_addend) in
        n ≤ rel.r_addend
        → (t : Relaxing) → relax_align link site s ≡ done t
        → (t.section.sec_size + (rel.r_addend - n) ≡ s.section.sec_size) × (t.sec_flg0 ≡ true)
  unfolding align_to
  relax_align-done site s rel alignment found power size fits t e =
      let n = nops_to alignment (sub64 site.symval rel.r_addend) in
      let test : ltb rel.r_addend (nops_to alignment (sub64 site.symval rel.r_addend)) ≡ false =
        ground arith in
      let flagged : Relaxing = record s { sec_flg0 = true } in
      let (a, here, rest) =
        done-step (set_rela clear_rela site.index flagged) (trim_nops link rel n) t
          (rw (test, align_to) at (sym (align_found site s rel alignment found power) ∙ e)) in
      let p = set_rela-SameSize clear_rela site.index flagged a here in
      let q = trim_nops-size rel n a t (omega (arith, p.0)) fits rest in
      (omega (arith, q.0, p.0), q.1 ∙ p.1)

  -- The relaxation of R_RISCV_ALIGN for an addend below 2 ^ 63, where the NOPs start behind address 0, their
  -- addresses and one more addend fit 64 bits, and the size of the section fits 64 bits. There are a power of
  -- two above the addend, 1 or at most twice the addend, and a number of bytes below the power from the start
  -- to a multiple of it. If the addend is less than that number, the answer is FALSE. Otherwise, whenever the
  -- answer is TRUE, the section has lost exactly the rest of the addend, and the flag that ends its relaxation
  -- is set.
  pub relax_align-multiple :
      (site : Site) (s : Relaxing) (rel : Rela)
      → rela_at s.section.relocs site.index ≡ done rel
      → rel.r_addend < 2 ^ 63
      → rel.r_addend < site.symval
      → site.symval + rel.r_addend + 1 < 2 ^ 64
      → s.section.sec_size < 2 ^ 64
      → (k : ℕ) × (q : ℕ) × (n : ℕ) × (rel.r_addend < 2 ^ k)
        × ((k ≡ 0) ⊎ (2 ^ k ≤ 2 * rel.r_addend))
        × (n < 2 ^ k)
        × (site.symval - rel.r_addend + n ≡ q * 2 ^ k)
        × (rel.r_addend < n → relax_align link site s ≡ failed)
        × (n ≤ rel.r_addend
            → (t : Relaxing) → relax_align link site s ≡ done t
            → (t.section.sec_size + (rel.r_addend - n) ≡ s.section.sec_size) × (t.sec_flg0 ≡ true))
  relax_align-multiple site s rel found bound start room size =
      let (k, power, most, above, least) =
        next_power-smallest 65 0 rel.r_addend refl (omega arith) bound in
      let begin = sub64 site.symval rel.r_addend in
      let here : begin ≡ site.symval - rel.r_addend = omega arith in
      let (q, multiple, below) =
        nops_to-multiple k begin most (omega (arith, here)) (end k (omega (arith, here)) least) in
      (
        k,
        q,
        nops_to (2 ^ k) begin,
        above,
        least,
        below,
        omega (arith, here, multiple),
        relax_align-failed site s rel (2 ^ k) found power,
        relax_align-done site s rel (2 ^ k) found power size,
      )
    where
      end :
          (k : ℕ)
          → sub64 site.symval rel.r_addend + 2 * rel.r_addend + 1 < 2 ^ 64
          → (k ≡ 0) ⊎ (2 ^ k ≤ 2 * rel.r_addend)
          → sub64 site.symval rel.r_addend + 2 ^ k < 2 ^ 64
      end k room (inl first) = rw first (omega arith)
      end k room (inr least) = omega arith
