-- ===== src/Elf/Alloc/Slots.antt =====
-- The places in the PLT that `allocate_dynrelocs` of elf32-riscv.c gives to the symbols of a link.
use soft_hier_release_test.Base.{
  ℕ, zero, suc, ◌+◌, ◌*◌, Bool, true, false, ◌&&◌, Option, none, some, List, [], ◌∷◌, ◌==◌,
  if◌then◌else◌, ◌≡◌, refl, ap, subst, ◌∙◌, ◌⊎◌, inl, inr, Bool-cases, arith,
}
use soft_hier_release_test.Memory.{Outcome, done, ◌>>=◌}
use soft_hier_release_test.Memory.Frame.{done-step, done-injective}
use soft_hier_release_test.Elf.{DynRelocs}
use soft_hier_release_test.Elf.Alloc.{
  Place, refcount, offset, no_plt, is_nil, is_indirect, DynSymbol, Sizes, Output, is_referenced,
  is_dynamic, drop_pc_relative, make_dynamic, plt_entry, allocate_plt, allocate_got, keep_pic,
  keep_fixed, allocate_relocs, allocate_copied, allocate_dynrelocs, allocate_all,
}

-- The sizes of the three sections of the PLT with `n` entries, over an empty `.got.plt` of `base` bytes.
pub record PltSized (base n : ℕ) (s : Sizes) : Type 0 where
  pub entries : s.plt_size ≡ (if n == 0 then 0 else 32 + 16 * n)
  pub gotplt : s.gotplt_size ≡ base + 4 * n
  pub relplt : s.relplt_size ≡ 12 * n

-- The offset that a symbol has in the PLT.
abbrev pub slot : Place → Option ℕ
slot (refcount n) = none
slot (offset o) = o

abbrev pub cons_slot : Option ℕ → List ℕ → List ℕ
cons_slot none os = os
cons_slot (some o) os = o ∷ os

-- The offsets of the PLT entries that the symbols have.
abbrev pub plt_offsets : List DynSymbol → List ℕ
plt_offsets [] = []
plt_offsets (h ∷ hs) = cons_slot (slot h.plt) (plt_offsets hs)

-- The offsets of the entries `n`, `n + 1`, ….
abbrev pub entries_from : ℕ → ℕ → List ℕ
entries_from n zero = []
entries_from n (suc k) = (32 + 16 * n) ∷ entries_from (n + 1) k

-- No symbol has an offset yet.
abbrev pub AllCounted : List DynSymbol → Type 0
AllCounted [] = Unit {0}
AllCounted (h ∷ hs) = (slot h.plt ≡ none) × AllCounted hs

-- What a step leaves of the PLT: the symbol's place in it, and the three sizes.
abbrev SamePlt : DynSymbol × Sizes → DynSymbol × Sizes → Type 0
SamePlt (h, s) (h', s') =
    (h'.plt ≡ h.plt)
    × (s'.plt_size ≡ s.plt_size)
    × (s'.gotplt_size ≡ s.gotplt_size)
    × (s'.relplt_size ≡ s.relplt_size)

module _ (output : Output) where
  make_dynamic-plt : (h h' : DynSymbol) → make_dynamic output h ≡ done h' → h'.plt ≡ h.plt
  unfolding make_dynamic
  make_dynamic-plt h h' e = ground arith

  allocate_got-SamePlt :
      (h : DynSymbol) (s : Sizes) (a : DynSymbol × Sizes)
      → allocate_got output h s ≡ done a
      → SamePlt (h, s) a
  unfolding allocate_got
  allocate_got-SamePlt h s a e = elim (Bool-cases (is_referenced h.got)) [
    | inl used ↦
        let (g, made, e') = done-step (make_dynamic output h) _ a (rw used at e) in
        subst (SamePlt (h, s)) (done-injective _ a e') (make_dynamic-plt h g made, refl, refl, refl)
    | inr unused ↦
        subst (SamePlt (h, s)) (done-injective _ a (rw unused at e)) (refl, refl, refl, refl)
  ]

  -- A step behind `make_dynamic` that keeps the place.
  made-plt :
      (h h' : DynSymbol) (k : DynSymbol → Outcome DynSymbol)
      → ((g d : DynSymbol) → k g ≡ done d → d.plt ≡ g.plt)
      → make_dynamic output h >>= k ≡ done h'
      → h'.plt ≡ h.plt
  made-plt h h' k keeps e =
      let (g, made, e') = done-step (make_dynamic output h) k h' e in
      keeps g h' e' ∙ make_dynamic-plt h g made

  keep_pic-plt : (h h' : DynSymbol) → keep_pic output h ≡ done h' → h'.plt ≡ h.plt
  unfolding keep_pic
  keep_pic-plt h h' e =
      let kept =
        if output.calls_local h then drop_pc_relative output h.dyn_relocs else h.dyn_relocs in
      ground (arith, e, make_dynamic-plt (record h { dyn_relocs = kept }) h')

  keep_fixed-plt : (h h' : DynSymbol) → keep_fixed output h ≡ done h' → h'.plt ≡ h.plt
  unfolding keep_fixed
  keep_fixed-plt h h' e = ground (
    arith,
    e,
    made-plt h h' (λ g. done (if is_dynamic output g then g else record g { dyn_relocs = [] }))
        (λ g d f. ground (arith, f)),
  )

  allocate_relocs-SamePlt :
      (ps : List DynRelocs) (h : DynSymbol) (s : Sizes)
      → SamePlt (h, s) (h, allocate_relocs output ps s)
  unfolding allocate_relocs
  allocate_relocs-SamePlt [] h s = (refl, refl, refl, refl)
  allocate_relocs-SamePlt (p ∷ ps) h s = allocate_relocs-SamePlt ps h _

  allocate_copied-SamePlt :
      (h : DynSymbol) (s : Sizes) (a : DynSymbol × Sizes)
      → allocate_copied output h s ≡ done a
      → SamePlt (h, s) a
  unfolding allocate_copied
  allocate_copied-SamePlt h s a e = elim (Bool-cases (is_nil output h.dyn_relocs)) [
    | inl empty ↦
        subst (SamePlt (h, s)) (done-injective _ a (rw empty at e)) (refl, refl, refl, refl)
    | inr some_here ↦
        let (g, kept, e') =
          done-step (if output.pic then keep_pic output h else keep_fixed output h) _ a
            (rw some_here at e) in
        let same : g.plt ≡ h.plt = kept_plt output.pic g kept in
        let sized = allocate_relocs-SamePlt g.dyn_relocs g s in
        subst (SamePlt (h, s)) (done-injective _ a e') (same, sized.1, sized.2, sized.3)
  ]
    where
      kept_plt :
          (pic : Bool) (g : DynSymbol)
          → (if pic then keep_pic output h else keep_fixed output h) ≡ done g
          → g.plt ≡ h.plt
      kept_plt true g k = keep_pic-plt h g k
      kept_plt false g k = keep_fixed-plt h g k

  module _ (base : ℕ) where
    -- What the allocation of a symbol does to the PLT: nothing, or the next entry is its.
    abbrev Turn : ℕ → DynSymbol × Sizes → Type 0
    Turn n (h, s) =
        ((slot h.plt ≡ none) × PltSized base n s)
        ⊎ ((slot h.plt ≡ some (32 + 16 * n)) × PltSized base (n + 1) s)

    plt_entry-Turn :
        (n : ℕ) (h : DynSymbol) (s : Sizes) → PltSized base n s → Turn n (plt_entry output h s)
    unfolding plt_entry
    plt_entry-Turn n h s sized = inr (
      ap (λ (o : ℕ). some o) (ground (arith, sized.entries)),
      record {
        entries = ground (arith, sized.entries);
        gotplt = omega (arith, sized.gotplt);
        relplt = omega (arith, sized.relplt);
      },
    )

    allocate_plt-Turn :
        (n : ℕ) (h : DynSymbol) (s : Sizes) (a : DynSymbol × Sizes)
        → PltSized base n s
        → allocate_plt output h s ≡ done a
        → Turn n a
    unfolding allocate_plt
    allocate_plt-Turn n h s a sized e =
        elim (Bool-cases (output.dynamic_sections_created && is_referenced h.plt)) [
          | inl used ↦
              let (g, made, e') = done-step (make_dynamic output h) _ a (rw used at e) in
              finished (output.will_finish true output.pic g) g e'
          | inr unused ↦ subst (Turn n) (done-injective _ a (rw unused at e)) (inl (refl, sized))
        ]
      where
        finished :
            (b : Bool) (g : DynSymbol)
            → done (if b then plt_entry output g s else (no_plt g, s)) ≡ done a
            → Turn n a
        finished true g e' =
            subst (Turn n) (done-injective (plt_entry output g s) a e') (plt_entry-Turn n g s sized)
        finished false g e' = subst (Turn n) (done-injective (no_plt g, s) a e') (inl (refl, sized))

    SamePlt-Turn : (n : ℕ) (a b : DynSymbol × Sizes) → SamePlt a b → Turn n a → Turn n b
    SamePlt-Turn n (h, s) (g, t) (same, plt, gotplt, relplt) (inl (place, sized)) = inl (
      ap slot same ∙ place,
      record {
        entries = plt ∙ sized.entries;
        gotplt = gotplt ∙ sized.gotplt;
        relplt = relplt ∙ sized.relplt;
      },
    )
    SamePlt-Turn n (h, s) (g, t) (same, plt, gotplt, relplt) (inr (place, sized)) = inr (
      ap slot same ∙ place,
      record {
        entries = plt ∙ sized.entries;
        gotplt = gotplt ∙ sized.gotplt;
        relplt = relplt ∙ sized.relplt;
      },
    )

    allocate_dynrelocs-Turn :
        (n : ℕ) (h : DynSymbol) (s : Sizes) (a : DynSymbol × Sizes)
        → PltSized base n s
        → slot h.plt ≡ none
        → allocate_dynrelocs output h s ≡ done a
        → Turn n a
    unfolding allocate_dynrelocs
    allocate_dynrelocs-Turn n h s a sized counted e = elim (Bool-cases (is_indirect h.h_type)) [
      | inl forwarded ↦
          subst (Turn n) (done-injective (h, s) a (rw forwarded at e)) (inl (counted, sized))
      | inr real ↦
          let (c, first, e') = done-step _ _ a (rw real at e) in
          let (b, planned, gotten) = done-step (allocate_plt output h s) _ c first in
          SamePlt-Turn n c a (allocate_copied-SamePlt c.0 c.1 a e') (
            SamePlt-Turn n b c (allocate_got-SamePlt b.0 b.1 c gotten)
              (allocate_plt-Turn n h s b sized planned))
    ]

    -- The next `k` entries of the PLT belong to the symbols, and its sections are as long as it takes.
    abbrev Filled : ℕ → List DynSymbol × Sizes → Type 0
    Filled n r = (k : ℕ) × (plt_offsets r.0 ≡ entries_from n k) × PltSized base (n + k) r.1

    Turn-Filled :
        (n : ℕ) (g : DynSymbol) (u : Sizes) (gs : List DynSymbol) (t : Sizes)
        → Turn n (g, u)
        → ((m : ℕ) → PltSized base m u → Filled m (gs, t))
        → Filled n (g ∷ gs, t)
    Turn-Filled n g u gs t (inl (place, sized)) rest =
        let (k, offsets, filled) = rest n sized in
        (k, ap (λ (o : Option ℕ). cons_slot o (plt_offsets gs)) place ∙ offsets, filled)
    Turn-Filled n g u gs t (inr (place, sized)) rest =
        let (k, offsets, filled) = rest (n + 1) sized in
        let entry = 32 + 16 * n in
        (
          suc k,
          ap (λ (o : Option ℕ). cons_slot o (plt_offsets gs)) place
              ∙ ap (λ (t : List ℕ). entry ∷ t) offsets,
          subst (λ (m : ℕ). PltSized base m t) (omega arith) filled,
        )

    -- A whole traversal with the answer TRUE: if no symbol has an offset yet, and the PLT has `n`
    -- entries, `.got.plt` as many words behind `base` bytes and `.rela.plt` as many relocations,
    -- then the traversal gives some `k` symbols the next `k` entries, in its order, and the three
    -- sections have the sizes of `n + k` entries.
    pub allocate_all-PltSized :
        (hs : List DynSymbol) (n : ℕ) (s : Sizes) (r : List DynSymbol × Sizes)
        → PltSized base n s
        → AllCounted hs
        → allocate_all output hs s ≡ done r
        → (k : ℕ) × (plt_offsets r.0 ≡ entries_from n k) × PltSized base (n + k) r.1
    unfolding allocate_all
    allocate_all-PltSized [] n s r sized counted e =
        let nothing : Filled n ([], s) =
          (0, refl, subst (λ (m : ℕ). PltSized base m s) (omega arith) sized) in
        subst (Filled n) (done-injective _ r e) nothing
    allocate_all-PltSized (h ∷ hs) n s r sized (place, counted) e =
        let (a, first, e') = done-step (allocate_dynrelocs output h s) _ r e in
        let (b, others, e'') = done-step (allocate_all output hs a.1) _ r e' in
        subst (Filled n) (done-injective (a.0 ∷ b.0, b.1) r e'') (
          Turn-Filled n a.0 a.1 b.0 b.1 (allocate_dynrelocs-Turn n h s a sized place first)
            (λ m sized'. allocate_all-PltSized hs m a.1 b sized' counted others))
