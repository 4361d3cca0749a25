-- ===== src/Pulp/Import/Collect.antt =====
-- The counting pass of `InsertImportEntry` (elf32-riscv.c) over several registrations.
use soft_hier_release_test.Base.{
  ℕ, Bool, true, false, not, Option, none, some, List, [], ◌∷◌, get_or, set, ◌≡◌, refl, ap, ◌∙◌,
  inl, inr, Bool-cases, ◌⊎◌, ◌&&◌, sub64, ◌==◌,
}
use soft_hier_release_test.Memory.{Outcome, done, fault, ◌>>=◌}
use soft_hier_release_test.Bfd.{Rela, is_hi20, is_lo12_i}
use soft_hier_release_test.Pulp.Hash.{Name, hash_sdbm}
use soft_hier_release_test.Pulp.Import.{
  ImportState, update_import, collect_counts, count_ref, insert_import_entry,
}
use soft_hier_release_test.Pulp.Import.Table.{find_import-entered}

-- The counting pass over registrations, each with its name, its relocation and the offset of its section.
unfoldable pub collect_all : Bool → List (Name × Rela × ℕ) → ImportState → Outcome ImportState
collect_all ref_ok [] s = done s
collect_all ref_ok ((name, rel, out_offset) ∷ rs) s =
    insert_import_entry true true ref_ok name rel out_offset true s
    >>= (λ r. collect_all ref_ok rs r.1)

collect-fault :
    (name : Name) (rel : Rela) (out_offset : ℕ) (ref_ok : Bool) (s : ImportState)
    → s.last_rel ≡ none
    → is_lo12_i rel.r_type ≡ true
    → insert_import_entry true true ref_ok name rel out_offset true s ≡ fault
unfolding insert_import_entry collect_counts
collect-fault name rel out_offset ref_ok s first low =
    let (es', entered, chain) =
      find_import-entered (λ e. e) (λ e. refl) name (get_or s.table (hash_sdbm name) []) in
    rw (entered, first, low, insert_import_entry)

collect-done :
    (name : Name) (rel : Rela) (out_offset : ℕ) (ref_ok counts : Bool) (s : ImportState)
    → collect_counts s.last_rel rel ≡ done counts
    → (t : ImportState) × (insert_import_entry true true ref_ok name rel out_offset true s
        ≡ done (true, t))
      × (t.last_rel ≡ some rel)
unfolding insert_import_entry
collect-done name rel out_offset ref_ok counts s counted =
    let (es', entered, chain) =
      find_import-entered (λ e. e) (λ e. refl) name (get_or s.table (hash_sdbm name) []) in
    let t : ImportState = record {
      table = set s.table (hash_sdbm name) (update_import name (count_ref counts) es');
      last_rel = some rel;
    } in
    (t, rw (entered, counted, insert_import_entry) refl, refl)

-- Behind a first registration the counting pass cannot fail.
collect_all-behind :
    (rs : List (Name × Rela × ℕ)) (ref_ok : Bool) (l : Rela) (s : ImportState)
    → s.last_rel ≡ some l
    → (t : ImportState) × (collect_all ref_ok rs s ≡ done t)
unfolding collect_all
collect_all-behind [] ref_ok l s last = (s, refl)
collect_all-behind ((name, rel, out_offset) ∷ rs) ref_ok l s last =
    let (counts, counted) = some_last rel in
    let (m, entered, next) =
      collect-done name rel out_offset ref_ok counts s
        (ap (λ (o : Option Rela). collect_counts o rel) last ∙ counted) in
    let (t, others) = collect_all-behind rs ref_ok rel m next in
    (
      t,
      ap (λ (o : Outcome (Bool × ImportState)). o >>= (λ r. collect_all ref_ok rs r.1)) entered
          ∙ others,
    )
  where
    some_last : (rel : Rela) → (b : Bool) × (collect_counts (some l) rel ≡ done b)
    some_last rel =
        unfold collect_counts in
        elim (Bool-cases (is_lo12_i rel.r_type)) [
          | inl low ↦ (not (is_hi20 l.r_type && (sub64 rel.r_offset l.r_offset == 4)), rw low refl)
          | inr other ↦ (true, rw other refl)
        ]

-- The counting pass with memory, from the state in which no relocation has been registered, over any registrations of
-- which there is a first: it goes through the null pointer `LastRel` if the first one is that of an `addi`, and
-- otherwise it comes to its end, whatever the types and the order of the others are.
pub collect_all-null :
    (name : Name) (rel : Rela) (out_offset : ℕ) (rs : List (Name × Rela × ℕ)) (ref_ok : Bool)
    (s : ImportState)
    → s.last_rel ≡ none
    → ((is_lo12_i rel.r_type ≡ true)
        × (collect_all ref_ok ((name, rel, out_offset) ∷ rs) s ≡ fault))
      ⊎ ((is_lo12_i rel.r_type ≡ false)
          × (t : ImportState) × (collect_all ref_ok ((name, rel, out_offset) ∷ rs) s ≡ done t))
unfolding collect_all collect_counts
collect_all-null name rel out_offset rs ref_ok s first = elim (Bool-cases (is_lo12_i rel.r_type)) [
  | inl low ↦ inl (
    low,
    ap (λ (o : Outcome (Bool × ImportState)). o >>= (λ r. collect_all ref_ok rs r.1))
        (collect-fault name rel out_offset ref_ok s first low),
  )
  | inr other ↦
      let (m, here, next) = collect-done name rel out_offset ref_ok true s (rw other refl) in
      let (t, others) = collect_all-behind rs ref_ok rel m next in
      inr (
        other,
        t,
        ap (λ (o : Outcome (Bool × ImportState)). o >>= (λ r. collect_all ref_ok rs r.1)) here
            ∙ others,
      )
]
