-- ===== src/Pulp/Export/Table.antt =====
-- The laws of the export table (elf32-riscv.c, `ExportLookup`, `InsertExportEntry`, `ReleaseExportEntry`).
use soft_hier_release_test.Base.{
  ℕ, zero, suc, Bool, true, false, ◌&&◌, ◌||◌, Option, none, some, List, [], ◌∷◌, ◌++◌, length,
  get_or, set, if◌then◌else◌, ◌≡◌, refl, sym, ap, subst, ◌∙◌, arith, inl, inr, Bool-cases,
  Option-cases, get_or-set_self, get_or-set_ne, length-set, length-replicate, get_or-replicate,
}
use native.Mathlib.Decide.{ℕ_discrete}
use soft_hier_release_test.Pulp.Hash.{
  Name, hash_import_e, hash_sdbm, same_name, same_name_iff, hash_sdbm-lt,
}
use soft_hier_release_test.Pulp.Export.{
  ExportEntry, new_export, no_exports, ExportTable, empty_chains, find_export, export_lookup,
  insert_export_entry, release_export_entry,
}

find_export-append_one :
    (q name : Name) (es : List ExportEntry)
    → find_export name es ≡ none
    → find_export q (es ++ new_export name ∷ [])
      ≡ (if same_name name q then some (new_export name) else find_export q es)
unfolding find_export
find_export-append_one q name [] h = refl
find_export-append_one q name (e ∷ es) h = ground (
  arith,
  find_export-append_one q name es,
  same_name_iff e.name q,
  same_name_iff e.name name,
  same_name_iff name q,
)

abbrev found_in : ExportTable → Name → Option ExportEntry
found_in table q = find_export q (get_or table (hash_sdbm q) [])

found_in-set :
    (table : ExportTable) (name q : Name)
    → length table ≡ hash_import_e
    → found_in table name ≡ none
    → let chain = get_or table (hash_sdbm name) [] in
      found_in (set table (hash_sdbm name) (chain ++ new_export name ∷ [])) q
      ≡ (if same_name name q then some (new_export name) else found_in table q)
found_in-set table name q len absent =
    let chain = get_or table (hash_sdbm name) [] in
    let longer = chain ++ new_export name ∷ [] in
    elim (ℕ_discrete (hash_sdbm name) (hash_sdbm q)) [
      | yes e ↦ rw (
        ← e,
        get_or-set_self table (hash_sdbm name) longer [] (rw len (hash_sdbm-lt name)),
        find_export-append_one q name chain absent,
        e,
      )
      | no ne ↦
          rw (get_or-set_ne table (hash_sdbm name) (hash_sdbm q) longer [] ne)
            (elim (Bool-cases (same_name name q)) [
              | inl same ↦ absurd (ne (ap hash_sdbm ((same_name_iff name q).0 same)))
              | inr other ↦ rw other
            ])
    ]

same_found :
    (table : ExportTable) (name q : Name)
    → same_name name q ≡ true
    → found_in table q ≡ found_in table name
same_found table name q same =
    ap (λ (t : Name). found_in table t) (sym ((same_name_iff name q).0 same))

-- What `InsertExportEntry` does to every look-up in a table of 1024 chains when its allocations
-- succeed: it answers TRUE, the name is found from then on, and no other name is found or lost.
pub lookup-insert :
    (table : ExportTable) (name q : Name)
    → length table ≡ hash_import_e
    → let r = insert_export_entry true true name table in
      (r.0 ≡ true) × (export_lookup q r.1 ≡ (same_name name q || export_lookup q table))
unfolding insert_export_entry export_lookup
lookup-insert table name q len =
    ground (arith, found_in-set table name q len, same_found table name q)

-- When an allocation fails, `InsertExportEntry` answers FALSE exactly if the name is new, and the
-- table is left as it was in either case.
pub insert_no_memory :
    (entry_ok name_ok : Bool) (table : ExportTable) (name : Name)
    → (entry_ok && name_ok) ≡ false
    → insert_export_entry entry_ok name_ok name table ≡ (export_lookup name table, table)
unfolding insert_export_entry export_lookup
insert_no_memory entry_ok name_ok table name h = ground arith

-- After `ReleaseExportEntry` no name is found.
pub lookup-release :
    (table : ExportTable) (q : Name) → export_lookup q (release_export_entry table).1 ≡ false
unfolding release_export_entry export_lookup find_export
lookup-release table q = rw (nothing_in table (hash_sdbm q), export_lookup)
  where
    nothing_in : (t : ExportTable) (i : ℕ) → get_or (empty_chains t) i [] ≡ []
    nothing_in [] i = refl
    nothing_in (c ∷ t) zero = refl
    nothing_in (c ∷ t) (suc i) = nothing_in t i

-- Every entry of a chain belongs there, and the chain has no name twice.
abbrev pub IsChain : ℕ → List ExportEntry → Type 0
IsChain i [] = Unit {0}
IsChain i (e ∷ es) = (hash_sdbm e.name ≡ i) × (find_export e.name es ≡ none) × IsChain i es

-- A table of 1024 chains in which each name stands at most once, in the chain of its hash.
pub record IsHashed (table : ExportTable) : Type 0 where
  pub width : length table ≡ hash_import_e
  pub chains : (i : ℕ) → IsChain i (get_or table i [])

pub no_exports-IsHashed : IsHashed no_exports
no_exports-IsHashed = record {
  width = length-replicate {A = List ExportEntry} hash_import_e [];
  chains = λ i. rw (get_or-replicate {A = List ExportEntry} hash_import_e i []) tt;
}

append_one-IsChain :
    (name : Name) (es : List ExportEntry)
    → IsChain (hash_sdbm name) es
    → find_export name es ≡ none
    → IsChain (hash_sdbm name) (es ++ new_export name ∷ [])
unfolding find_export
append_one-IsChain name [] h absent = (refl, refl, tt)
append_one-IsChain name (e ∷ es) h absent = (
  h.0,
  ground (
    arith,
    find_export-append_one e.name name es,
    same_name_iff e.name name,
    same_name_iff name e.name,
  ),
  append_one-IsChain name es h.2 (ground arith),
)

set-IsHashed :
    (name : Name) (table : ExportTable)
    → IsHashed table
    → found_in table name ≡ none
    → IsHashed
        (set table (hash_sdbm name) (get_or table (hash_sdbm name) [] ++ new_export name ∷ []))
set-IsHashed name table h absent =
    let index = hash_sdbm name in
    let longer = get_or table index [] ++ new_export name ∷ [] in
    record {
      width = length-set table index longer ∙ h.width;
      chains = λ i. elim (ℕ_discrete index i) [
        | yes e ↦
            subst (λ j. IsChain j (get_or (set table index longer) j [])) e
              (rw (get_or-set_self table index longer [] (rw h.width (hash_sdbm-lt name)))
                (append_one-IsChain name (get_or table index []) (h.chains index) absent))
        | no ne ↦ rw (get_or-set_ne table index i longer [] ne) (h.chains i)
      ];
    }

inserted_old :
    (entry_ok name_ok : Bool) (name : Name) (table : ExportTable) (e : ExportEntry)
    → found_in table name ≡ some e
    → (insert_export_entry entry_ok name_ok name table).1 ≡ table
unfolding insert_export_entry
inserted_old entry_ok name_ok name table e found = ground arith

inserted_new :
    (entry_ok name_ok : Bool) (name : Name) (table : ExportTable)
    → found_in table name ≡ none
    → (insert_export_entry entry_ok name_ok name table).1 ≡ (
        if entry_ok && name_ok
        then set table (hash_sdbm name) (get_or table (hash_sdbm name) [] ++ new_export name ∷ [])
        else table)
unfolding insert_export_entry
inserted_new entry_ok name_ok name table absent = ground arith

-- `InsertExportEntry` keeps a table well formed, whatever its allocations give: 1024 chains, in
-- which each name stands at most once, in the chain of its hash.
pub insert-IsHashed :
    (entry_ok name_ok : Bool) (name : Name) (table : ExportTable)
    → IsHashed table
    → IsHashed (insert_export_entry entry_ok name_ok name table).1
insert-IsHashed entry_ok name_ok name table h = elim (Option-cases (found_in table name)) [
  | inr (e, found) ↦ rw (inserted_old entry_ok name_ok name table e found) h
  | inl absent ↦
      rw (inserted_new entry_ok name_ok name table absent)
        (elim (Bool-cases (entry_ok && name_ok)) [
          | inl got ↦ rw got (set-IsHashed name table h absent)
          | inr lost ↦ rw lost h
        ])
]
