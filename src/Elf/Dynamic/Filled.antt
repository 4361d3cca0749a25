-- ===== src/Elf/Dynamic/Filled.antt =====
-- The PLT entries that `allocate_dynrelocs` gives and `riscv_elf_finish_dynamic_symbol` fills
-- (elf32-riscv.c).
use mathlib.Core.Option.{some-injective}
use soft_hier_release_test.Base.{
  ℕ, zero, suc, ◌+◌, ◌*◌, ◌^◌, ◌≤◌, ◌<◌, Option, some, List, [], ◌∷◌, ◌++◌, map, length, get_elem?,
  set, take, drop, u32, u64, sub64, ◌≡◌, ◌≢◌, refl, sym, ap, ◌∙◌, arith, length-set,
}
use soft_hier_release_test.Memory.{done, next_word, le32_all}
use soft_hier_release_test.Memory.Frame.{done-injective}
use soft_hier_release_test.Memory.Splice.{
  write-set, get_elem?-set_self, get_elem?-set_ne, splice, put_word-splice, length-splice,
  next_word-splice,
}
use soft_hier_release_test.Elf.Alloc.{DynSymbol, Sizes, Output, allocate_all}
use soft_hier_release_test.Elf.Alloc.Slots.{
  PltSized, plt_offsets, entries_from, AllCounted, allocate_all-PltSized,
}
use soft_hier_release_test.Elf.Dynamic.Words.{put_words32-done, put_words32-at}
use soft_hier_release_test.Elf.Dynamic.{
  DynLink, Contents, make_plt_entry, plt_index, plt_sym_val, got_plt_val, jump_slot, fill_plt,
  finish_plt,
}

-- The entries stand at their offsets.
entries_from-at :
    (k n j o : ℕ) → get_elem? (entries_from n k) j ≡ some o → (j < k) × (o ≡ 32 + 16 * (n + j))
entries_from-at zero n j o e = cc
entries_from-at (suc k) n zero o e =
    (omega arith, sym (some-injective (32 + 16 * n) o e) ∙ omega arith)
entries_from-at (suc k) n (suc j) o e =
    let (below, place) = entries_from-at k (n + 1) j o e in
    (omega (arith, below), omega (arith, place))

plt_index-entry : (j : ℕ) → 32 + 16 * j < 2 ^ 64 → plt_index (32 + 16 * j) ≡ j
unfolding plt_index
plt_index-entry j bound = omega arith

-- The four instructions of an entry at `at`, which load the word at `slot` of `.got.plt` relative to the program
-- counter and jump to it, with the return address in t1.
abbrev pub entry_code : DynLink → ℕ → ℕ → List ℕ
entry_code link at slot =
    let i = link.insns in
    let word = link.sgotplt_addr + slot in
    let here = u64 (link.splt_addr + at) in
    i.auipc i.x_t3 (i.pcrel_high_part word here)
    ∷ i.lw i.x_t3 i.x_t3 (i.pcrel_low_part word here)
    ∷ i.jalr i.x_t1 i.x_t3 0
    ∷ i.nop
    ∷ []

-- What the writing of one entry leaves.
pub record IsFilled (link : DynLink) (j : ℕ) (dynindx : Option ℕ) (s t : Contents) : Type 0 where
  pub splt_length : length t.splt ≡ length s.splt
  pub entry_words :
      t.splt
      ≡ take (32 + 16 * j) s.splt
        ++ (le32_all (map u32 (entry_code link (32 + 16 * j) (8 + 4 * j)))
            ++ drop 16 (drop (32 + 16 * j) s.splt))
  pub sgotplt_length : length t.sgotplt ≡ length s.sgotplt
  pub relplt_length : length t.relplt ≡ length s.relplt
  pub slot_word :
      next_word (drop (8 + 4 * j) t.sgotplt)
      ≡ done (u32 link.splt_addr, drop 4 (drop (8 + 4 * j) s.sgotplt))
  pub own : get_elem? t.relplt j ≡ some (jump_slot link j dynindx)
  pub others : (i : ℕ) → j ≢ i → get_elem? t.relplt i ≡ get_elem? s.relplt i
  pub got_kept : t.sgot ≡ s.sgot

length-make_plt_entry :
    (link : DynLink) (got addr : ℕ) → length (make_plt_entry link.insns got addr) ≡ 4
unfolding make_plt_entry
length-make_plt_entry link got addr = refl

-- The place of an entry's word in `.got.plt`.
got_plt_place :
    (link : DynLink) (j : ℕ)
    → link.sgotplt_addr + (8 + 4 * j) < 2 ^ 64
    → sub64 (got_plt_val link j) link.sgotplt_addr ≡ 8 + 4 * j
unfolding got_plt_val
got_plt_place link j addr = omega arith

got_plt_word :
    (link : DynLink) (j : ℕ)
    → link.sgotplt_addr + (8 + 4 * j) < 2 ^ 64
    → got_plt_val link j ≡ link.sgotplt_addr + (8 + 4 * j)
unfolding got_plt_val
got_plt_word link j addr = omega arith

module _ (link : DynLink) (dynindx : Option ℕ) (s : Contents) where
  -- The sections hold `k` entries.
  pub record HasRoom (k : ℕ) : Type 0 where
    pub splt : length s.splt ≡ 32 + 16 * k
    pub sgotplt : length s.sgotplt ≡ 8 + 4 * k
    pub relplt : length s.relplt ≡ k
    pub plt_bound : 32 + 16 * k < 2 ^ 64
    pub got_bound : link.sgotplt_addr + (8 + 4 * k) < 2 ^ 64

  fill_plt-IsFilled :
      (j k : ℕ)
      → j < k
      → HasRoom k
      → (t : Contents) × (fill_plt link dynindx (32 + 16 * j) j s ≡ done t)
        × IsFilled link j dynindx s t
  unfolding fill_plt make_plt_entry
  fill_plt-IsFilled j k below room =
      let at = 32 + 16 * j in
      let entry = make_plt_entry link.insns (got_plt_val link j) (u64 (link.splt_addr + at)) in
      let four = length-make_plt_entry link (got_plt_val link j) (u64 (link.splt_addr + at)) in
      let (m, stored, size, after) =
        put_words32-done entry s.splt at (omega (arith, room.splt, four)) in
      let place = got_plt_place link j (omega (arith, room.got_bound)) in
      let inside : 8 + 4 * j + 4 ≤ length s.sgotplt = omega (arith, room.sgotplt) in
      let word = put_word-splice s.sgotplt (8 + 4 * j) (u32 link.splt_addr) inside in
      let slot_at : j < length s.relplt = omega (arith, room.relplt) in
      let entered = write-set s.relplt j (jump_slot link j dynindx) slot_at in
      (
        record s {
          splt = m;
          sgotplt = splice s.sgotplt (8 + 4 * j) (u32 link.splt_addr);
          relplt = set s.relplt j (jump_slot link j dynindx);
        },
        rw (stored, place, word, entered) refl,
        record {
          splt_length = size;
          entry_words = done-injective m _ (
              sym stored
              ∙ put_words32-at entry s.splt at (omega (arith, room.splt, four))
              ∙ ap
                  (λ (got : ℕ). done (
                    take at s.splt
                    ++ (le32_all
                          (map u32 (make_plt_entry link.insns got (u64 (link.splt_addr + at))))
                        ++ drop 16 (drop at s.splt))))
                  (got_plt_word link j (omega (arith, room.got_bound))));
          sgotplt_length = length-splice s.sgotplt (8 + 4 * j) (u32 link.splt_addr) inside;
          relplt_length = length-set s.relplt j (jump_slot link j dynindx);
          slot_word =
              next_word-splice s.sgotplt (8 + 4 * j) (u32 link.splt_addr) inside (omega arith);
          own = get_elem?-set_self s.relplt j (jump_slot link j dynindx) slot_at;
          others = λ i ne. get_elem?-set_ne s.relplt j i (jump_slot link j dynindx) ne;
          got_kept = refl;
        },
      )

  finish_plt-IsFilled :
      (j k : ℕ)
      → j < k
      → HasRoom k
      → (t : Contents) × (finish_plt link dynindx (32 + 16 * j) s ≡ done t)
        × IsFilled link j dynindx s t
  unfolding finish_plt
  finish_plt-IsFilled j k below room =
      let (t, filled, facts) = fill_plt-IsFilled j k below room in
      (
        t,
        ap (λ (i : ℕ). fill_plt link dynindx (32 + 16 * j) i s)
              (plt_index-entry j (omega (arith, room.plt_bound)))
            ∙ filled,
        facts,
      )

plt_sym_val-entry :
    (j n vma o : ℕ) → o ≡ 32 + 16 * (n + j) → n ≡ 0 → plt_sym_val j vma ≡ u64 (vma + o)
unfolding plt_sym_val
plt_sym_val-entry j n vma o place first = ap u64 (omega arith)

HasRoom-sized :
    (link : DynLink) (dynindx : Option ℕ) (c : Contents) (j k : ℕ) (sizes : Sizes)
    → j < k
    → PltSized 8 (0 + k) sizes
    → length c.splt ≡ sizes.plt_size
    → length c.sgotplt ≡ sizes.gotplt_size
    → 12 * length c.relplt ≡ sizes.relplt_size
    → sizes.plt_size < 2 ^ 64
    → link.sgotplt_addr + sizes.gotplt_size < 2 ^ 64
    → HasRoom link dynindx c k
HasRoom-sized link dynindx c j k sizes below sized splt sgotplt relplt bound addr =
    let entries : sizes.plt_size ≡ 32 + 16 * k = ground (arith, sized.entries) in
    record {
      splt = splt ∙ entries;
      sgotplt = omega (arith, sgotplt, sized.gotplt);
      relplt = omega (arith, relplt, sized.relplt);
      plt_bound = omega (arith, entries, bound);
      got_bound = omega (arith, addr, sized.gotplt);
    }

-- The symbols of a whole traversal by `allocate_dynrelocs` with the answer TRUE, from an empty PLT and the
-- header of `.got.plt`, no symbol having an offset before; then contents of just the sizes that were
-- computed, which fit the address space. For the `j`-th symbol that has a PLT entry, with any dynamic index,
-- every store of `riscv_elf_finish_dynamic_symbol` for that entry is in bounds; the sections keep their
-- sizes, the PLT keeps its bytes but for the 16 of that entry, which are the instructions that load word `j` of
-- `.got.plt` from there and jump to it, word `j` of `.got.plt` behind its header is the address of the PLT, entry `j` of `.rela.plt` is the
-- JUMP_SLOT of that word and index while the other entries stay, the GOT stays, and `riscv_elf_plt_sym_val`
-- gives for `j` the address of that PLT entry.
pub finish_plt-allocated :
    (output : Output) (hs : List DynSymbol) (sizes : Sizes) (r : List DynSymbol × Sizes)
    (link : DynLink) (dynindx : Option ℕ) (c : Contents) (j o : ℕ)
    → PltSized 8 0 sizes
    → AllCounted hs
    → allocate_all output hs sizes ≡ done r
    → length c.splt ≡ r.1.plt_size
    → length c.sgotplt ≡ r.1.gotplt_size
    → 12 * length c.relplt ≡ r.1.relplt_size
    → r.1.plt_size < 2 ^ 64
    → link.sgotplt_addr + r.1.gotplt_size < 2 ^ 64
    → get_elem? (plt_offsets r.0) j ≡ some o
    → (t : Contents) × (finish_plt link dynindx o c ≡ done t)
      × IsFilled link j dynindx c t
      × (plt_sym_val j link.splt_addr ≡ u64 (link.splt_addr + o))
finish_plt-allocated output hs sizes r link dynindx c j o sized counted run splt sgotplt relplt
      bound addr entry =
    let (k, offsets, filled) = allocate_all-PltSized output 8 hs 0 sizes r sized counted run in
    let (below, place) =
      entries_from-at k 0 j o (ap (λ (l : List ℕ). get_elem? l j) (sym offsets) ∙ entry) in
    let room = HasRoom-sized link dynindx c j k r.1 below filled splt sgotplt relplt bound addr in
    let (t, done_at, facts) = finish_plt-IsFilled link dynindx c j k below room in
    let here : o ≡ 32 + 16 * j = omega (arith, place) in
    (
      t,
      ap (λ (i : ℕ). finish_plt link dynindx i c) here ∙ done_at,
      facts,
      plt_sym_val-entry j 0 link.splt_addr o place refl,
    )
