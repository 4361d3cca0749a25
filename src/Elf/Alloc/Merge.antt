-- ===== src/Elf/Alloc/Merge.antt =====
-- `riscv_elf_copy_indirect_symbol` of elf32-riscv.c: what a forwarded symbol has gathered goes over to the
-- symbol that it stands for.
use soft_hier_release_test.Base.{
  ℕ, ◌+◌, not, ◌&&◌, Option, none, some, List, [], ◌∷◌, ◌==◌, if◌then◌else◌, ◌≡◌, refl, arith, inl,
  inr, Option-cases,
}
use soft_hier_release_test.Elf.{DynRelocs}
use soft_hier_release_test.Elf.Alloc.{DynSymbol, is_indirect, is_referenced}

-- The counts of `p` are added to the first entry of its section, if there is one.
unfoldable pub add_counts : DynRelocs → List DynRelocs → Option (List DynRelocs)
add_counts p [] = none
add_counts p (q ∷ qs) =
    let rest = add_counts p qs in
    if q.sec == p.sec
    then some (record q { pc_count = q.pc_count + p.pc_count; count = q.count + p.count } ∷ qs)
    else elim rest [ none ↦ none | some qs' ↦ some (q ∷ qs') ]

-- The loop over the entries of the forwarded symbol, with the other symbol's entries behind those that are
-- left.
unfoldable pub merge_dyn_relocs : List DynRelocs → List DynRelocs → List DynRelocs
merge_dyn_relocs [] dir = dir
merge_dyn_relocs (p ∷ ps) dir = elim (add_counts p dir) [
  | some dir' ↦ merge_dyn_relocs ps dir'
  | none ↦ p ∷ merge_dyn_relocs ps dir
]

-- The list of the other symbol afterwards.
unfoldable pub merged : List DynRelocs → List DynRelocs → List DynRelocs
merged [] dir = dir
merged (p ∷ ps) [] = p ∷ ps
merged (p ∷ ps) (q ∷ qs) = merge_dyn_relocs (p ∷ ps) (q ∷ qs)

-- `dir` and `ind` afterwards; `copy` is `_bfd_elf_link_hash_copy_indirect`.
unfoldable pub copy_indirect_symbol :
    (DynSymbol × DynSymbol → DynSymbol × DynSymbol) → DynSymbol → DynSymbol → DynSymbol × DynSymbol
copy_indirect_symbol copy dir ind =
    let moves = is_indirect ind.h_type && not (is_referenced dir.got) in
    copy (
      record dir {
        dyn_relocs = merged ind.dyn_relocs dir.dyn_relocs;
        tls_type = if moves then ind.tls_type else dir.tls_type;
      },
      record ind { dyn_relocs = []; tls_type = if moves then 0 else ind.tls_type },
    )

-- The relocations that a list counts for a section, all of them and those relative to the program counter.
abbrev pub total : ℕ → List DynRelocs → ℕ
total sec [] = 0
total sec (p ∷ ps) = (if p.sec == sec then p.count else 0) + total sec ps

abbrev pub pc_total : ℕ → List DynRelocs → ℕ
pc_total sec [] = 0
pc_total sec (p ∷ ps) = (if p.sec == sec then p.pc_count else 0) + pc_total sec ps

add_counts-total :
    (p : DynRelocs) (dir dir' : List DynRelocs) (sec : ℕ)
    → add_counts p dir ≡ some dir'
    → (total sec dir' ≡ total sec (p ∷ []) + total sec dir)
      × (pc_total sec dir' ≡ pc_total sec (p ∷ []) + pc_total sec dir)
unfolding add_counts
add_counts-total p [] dir' sec e = cc
add_counts-total p (q ∷ qs) dir' sec e = elim (Option-cases (add_counts p qs)) [
  | inl absent ↦ (ground (arith, absent), ground (arith, absent))
  | inr (qs', joined) ↦
      let rest = add_counts-total p qs qs' sec joined in
      (ground (arith, joined, rest.0), ground (arith, joined, rest.1))
]

merge-total :
    (ind dir : List DynRelocs) (sec : ℕ)
    → (total sec (merge_dyn_relocs ind dir) ≡ total sec ind + total sec dir)
      × (pc_total sec (merge_dyn_relocs ind dir) ≡ pc_total sec ind + pc_total sec dir)
unfolding merge_dyn_relocs
merge-total [] dir sec = (omega arith, omega arith)
merge-total (p ∷ ps) dir sec = elim (Option-cases (add_counts p dir)) [
  | inl fresh ↦
      let rest = merge-total ps dir sec in
      rw (fresh, merge_dyn_relocs) (omega (arith, rest.0), omega (arith, rest.1))
  | inr (dir', joined) ↦
      let rest = merge-total ps dir' sec in
      let added = add_counts-total p dir dir' sec joined in
      rw (joined, merge_dyn_relocs) (omega (arith, rest.0, added.0), omega (arith, rest.1, added.1))
]

-- Handing a forwarded symbol's relocations over, before `_bfd_elf_link_hash_copy_indirect` is
-- called: for every section, the symbol that it stands for counts afterwards what the two have
-- counted before, in all and relative to the program counter, and the forwarded symbol counts
-- nothing.
pub copy_indirect_symbol-total :
    (dir ind : DynSymbol) (sec : ℕ)
    → let r = copy_indirect_symbol (λ x. x) dir ind in
      (total sec r.0.dyn_relocs ≡ total sec ind.dyn_relocs + total sec dir.dyn_relocs)
      × (pc_total sec r.0.dyn_relocs ≡ pc_total sec ind.dyn_relocs + pc_total sec dir.dyn_relocs)
      × (r.1.dyn_relocs ≡ [])
unfolding copy_indirect_symbol
copy_indirect_symbol-total dir ind sec =
    let sums = merged-total ind.dyn_relocs dir.dyn_relocs sec in (sums.0, sums.1, refl)
  where
    merged-total :
        (is ds : List DynRelocs) (sec : ℕ)
        → (total sec (merged is ds) ≡ total sec is + total sec ds)
          × (pc_total sec (merged is ds) ≡ pc_total sec is + pc_total sec ds)
    merged-total [] ds sec = unfold merged in (omega arith, omega arith)
    merged-total (p ∷ ps) [] sec = unfold merged in (omega arith, omega arith)
    merged-total (p ∷ ps) (q ∷ qs) sec = unfold merged in merge-total (p ∷ ps) (q ∷ qs) sec
