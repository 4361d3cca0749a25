-- ===== src/Elf/Alloc/Local.antt =====
-- The places of local symbols in the GOT (elf32-riscv.c, `riscv_elf_size_dynamic_sections`).
use mathlib.Core.Option.{some-injective}
use soft_hier_release_test.Base.{
  ℕ, zero, suc, ◌+◌, ◌*◌, ◌≤◌, ◌<◌, Bool, true, false, none, some, List, [], ◌∷◌, get_elem?, ◌==◌,
  if◌then◌else◌, ◌≡◌, refl, ap, ◌∙◌, arith,
}
use soft_hier_release_test.Elf.Alloc.{Sizes, Output, word_bytes, rela_bytes}
use soft_hier_release_test.Elf.Alloc.Size.{
  LocalGot, local_slots, local_relocs, ie_off, size_local_got,
}

-- The offset that a symbol gets.
placed :
    (unused : Bool) (n b : ℕ)
    → some (if unused then none else some n) ≡ some (some b)
    → (unused ≡ false) × (n ≡ b)
placed true n b e = let wrong = some-injective none (some b) e in absurd (cc)
placed false n b e = (refl, some-injective n b (some-injective (some n) (some b) e))

-- What the two functions take for a symbol with both kinds of thread-local access.
both_kinds :
    (pic : Bool) (tls_type : ℕ)
    → tls_type ≡ 6
    → (local_slots tls_type ≡ 2) × (ie_off tls_type ≡ 8) × (local_relocs pic tls_type ≡ 1)
unfolding local_slots ie_off local_relocs
both_kinds true tls_type both = rw both (refl, refl, refl)
both_kinds false tls_type both = rw both (refl, refl, refl)

given :
    (unused : Bool) (n m : ℕ)
    → unused ≡ false
    → n ≡ m
    → some (if unused then none else some n) ≡ some (some m)
given true n m e same = cc
given false n m e same = ap (λ (x : ℕ). some (some x)) same

module _ (output : Output) where
  -- The sizes behind one local symbol.
  abbrev counted : LocalGot → Sizes → Sizes
  counted l s = if l.got_refcount == 0 then s else record s {
    got_size = s.got_size + local_slots l.local_tls_type * word_bytes;
    relgot_size = s.relgot_size + local_relocs output.pic l.local_tls_type * rela_bytes;
  }

  counted-grows : (l : LocalGot) (s : Sizes) → s.got_size ≤ (counted l s).got_size
  counted-grows l s = choose (l.got_refcount == 0)
    where
      choose :
          (b : Bool)
          → s.got_size
            ≤ (if b then s else record s {
              got_size = s.got_size + local_slots l.local_tls_type * word_bytes;
              relgot_size = s.relgot_size + local_relocs output.pic l.local_tls_type * rela_bytes;
            }).got_size
      choose true = omega arith
      choose false = omega arith

  size_local_got-grows :
      (ls : List LocalGot) (s : Sizes) → s.got_size ≤ (size_local_got output ls s).1.got_size
  unfolding size_local_got
  size_local_got-grows [] s = omega arith
  size_local_got-grows (l ∷ ls) s =
      omega (arith, counted-grows l s, size_local_got-grows ls (counted l s))

  size_local_got-above :
      (ls : List LocalGot) (s : Sizes) (j b : ℕ)
      → get_elem? (size_local_got output ls s).0 j ≡ some (some b)
      → s.got_size ≤ b
  unfolding size_local_got
  size_local_got-above [] s j b e = cc
  size_local_got-above (l ∷ ls) s zero b e =
      omega (arith, (placed (l.got_refcount == 0) s.got_size b e).1)
  size_local_got-above (l ∷ ls) s (suc j) b e =
      omega (arith, counted-grows l s, size_local_got-above ls (counted l s) j b e)

  counted-used :
      (l : LocalGot) (s : Sizes)
      → (l.got_refcount == 0) ≡ false
      → ((counted l s).got_size ≡ s.got_size + local_slots l.local_tls_type * 4)
        × ((counted l s).relgot_size
            ≡ s.relgot_size + local_relocs output.pic l.local_tls_type * 12)
  counted-used l s used = rw used (refl, refl)

  -- The loop over the local symbols of a file: a symbol with an offset has it at or behind the old end of the
  -- GOT, the words that it needs by the code's own count end at or before the new end, and they end at or
  -- before the offset of every later symbol that has one.
  pub size_local_got-disjoint :
      (ls : List LocalGot) (s : Sizes) (i : ℕ) (l : LocalGot) (a : ℕ)
      → get_elem? ls i ≡ some l
      → get_elem? (size_local_got output ls s).0 i ≡ some (some a)
      → (s.got_size ≤ a)
        × (a + local_slots l.local_tls_type * 4 ≤ (size_local_got output ls s).1.got_size)
        × ((j b : ℕ)
            → i < j
            → get_elem? (size_local_got output ls s).0 j ≡ some (some b)
            → a + local_slots l.local_tls_type * 4 ≤ b)
  unfolding size_local_got
  size_local_got-disjoint [] s i l a e place = cc
  size_local_got-disjoint (k ∷ ls) s zero l a e place =
      let same = some-injective k l e in
      let (used, start) = placed (k.got_refcount == 0) s.got_size a place in
      let (size, relocs) = counted-used k s used in
      let slots = ap (λ (x : LocalGot). local_slots x.local_tls_type) same in
      (
        omega (arith, start),
        omega (arith, start, size, slots, size_local_got-grows ls (counted k s)),
        λ j b later at. behind j b later at,
      )
    where
      behind :
          (j b : ℕ)
          → 0 < j
          → get_elem? (size_local_got output (k ∷ ls) s).0 j ≡ some (some b)
          → a + local_slots l.local_tls_type * 4 ≤ b
      behind zero b later at = absurd (omega arith)
      behind (suc j) b later at =
          let (used, start) = placed (k.got_refcount == 0) s.got_size a place in
          let (size, relocs) = counted-used k s used in
          let slots = ap (λ (x : LocalGot). local_slots x.local_tls_type) (some-injective k l e) in
          omega (arith, start, size, slots, size_local_got-above ls (counted k s) j b at)
  size_local_got-disjoint (k ∷ ls) s (suc i) l a e place =
      let (above, below, apart) = size_local_got-disjoint ls (counted k s) i l a e place in
      (
        omega (arith, above, counted-grows k s),
        below,
        λ j b later at. later_ones apart j b later at,
      )
    where
      later_ones :
          ((j b : ℕ)
            → i < j
            → get_elem? (size_local_got output ls (counted k s)).0 j ≡ some (some b)
            → a + local_slots l.local_tls_type * 4 ≤ b)
          → (j b : ℕ) → suc i < j
          → get_elem? (size_local_got output (k ∷ ls) s).0 j ≡ some (some b)
          → a + local_slots l.local_tls_type * 4 ≤ b
      later_ones apart zero b later at = absurd (omega arith)
      later_ones apart (suc j) b later at = apart j b (omega arith) at

  -- Two local symbols in a row with references through the GOT, the first of them by both kinds of
  -- thread-local access: the place of its IE word, which `riscv_elf_relocate_section` stores, is the first
  -- word of the second symbol, and only one relocation is reserved for the first symbol's slots.
  pub size_local_got-overlap :
      (k l : LocalGot) (ls : List LocalGot) (s : Sizes)
      → k.local_tls_type ≡ 6
      → (k.got_refcount == 0) ≡ false
      → (l.got_refcount == 0) ≡ false
      → (a : ℕ) × (get_elem? (size_local_got output (k ∷ l ∷ ls) s).0 0 ≡ some (some a))
        × (get_elem? (size_local_got output (k ∷ l ∷ ls) s).0 1
            ≡ some (some (a + ie_off k.local_tls_type)))
        × (local_relocs output.pic k.local_tls_type ≡ 1)
  unfolding size_local_got
  size_local_got-overlap k l ls s both used used_too = (
    s.got_size,
    given (k.got_refcount == 0) s.got_size s.got_size used refl,
    given (l.got_refcount == 0) (counted k s).got_size (s.got_size + ie_off k.local_tls_type)
        used_too
        ((counted-used k s used).0
          ∙ omega (
            arith,
            (both_kinds output.pic k.local_tls_type both).0,
            (both_kinds output.pic k.local_tls_type both).1,
          )),
    (both_kinds output.pic k.local_tls_type both).2,
  )
