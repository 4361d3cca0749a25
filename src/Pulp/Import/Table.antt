-- ===== src/Pulp/Import/Table.antt =====
-- The laws of the import table: what a registration does to every look-up, in the counting pass and in
-- the one that keeps the references (elf32-riscv.c, `InsertImportEntry`).
use soft_hier_release_test.Base.{
  ℕ, Bool, true, false, not, Option, none, some, List, [], ◌∷◌, ◌++◌, length, get_or, set,
  if◌then◌else◌, ◌≡◌, refl, ap, ◌∙◌, arith, inl, inr, Bool-cases, Option-cases, get_or-set_self,
  get_or-set_ne, length-set,
}
use native.Mathlib.Decide.{ℕ_discrete}
use soft_hier_release_test.Memory.{Outcome, done, ◌>>=◌}
use soft_hier_release_test.Bfd.{Rela}
use soft_hier_release_test.Pulp.Hash.{
  Name, hash_import_e, hash_sdbm, same_name, same_name_iff, hash_sdbm-lt,
}
use soft_hier_release_test.Pulp.Import.{
  ImportEntry, new_import, ImportTable, ImportState, find_import, update_import, enter_import,
  is_pair, collect_counts, count_ref, insert_import_entry,
}

-- The entry of a name, as the search in its chain finds it.
abbrev pub import_lookup : Name → ImportTable → Option ImportEntry
import_lookup q table = find_import q (get_or table (hash_sdbm q) [])

abbrev or_new : Name → Option ImportEntry → ImportEntry
or_new name none = new_import name
or_new name (some e) = e

-- The entry of a name, or the one that is made for it.
abbrev pub entry_of : Name → ImportTable → ImportEntry
entry_of name table = or_new name (import_lookup name table)

find_import-append_one :
    (q name : Name) (es : List ImportEntry)
    → find_import name es ≡ none
    → find_import q (es ++ new_import name ∷ [])
      ≡ (if same_name name q then some (new_import name) else find_import q es)
unfolding find_import
find_import-append_one q name [] h = refl
find_import-append_one q name (e ∷ es) h = ground (
  arith,
  find_import-append_one q name es,
  same_name_iff e.name q,
  same_name_iff e.name name,
  same_name_iff name q,
)

find_import-name :
    (q : Name) (es : List ImportEntry) (e : ImportEntry) → find_import q es ≡ some e → e.name ≡ q
unfolding find_import
find_import-name q [] e h = cc
find_import-name q (e' ∷ es) e h = ground (arith, find_import-name q es e, same_name_iff e'.name q)

module _ (f : ImportEntry → ImportEntry) (keeps : (e : ImportEntry) → (f e).name ≡ e.name) where
  -- A store through the pointer that the search for `name` leaves.
  find_import-update :
      (q name : Name) (es : List ImportEntry) (e : ImportEntry)
      → find_import name es ≡ some e
      → find_import q (update_import name f es)
        ≡ (if same_name name q then some (f e) else find_import q es)
  unfolding find_import update_import
  find_import-update q name [] e h = cc
  find_import-update q name (e' ∷ es) e h = ground (
    arith,
    find_import-update q name es e,
    keeps e',
    same_name_iff e'.name q,
    same_name_iff e'.name name,
    same_name_iff name q,
  )

  -- Search or append, and the store behind it.
  pub find_import-entered :
      (name : Name) (es : List ImportEntry)
      → (es' : List ImportEntry) × (enter_import true true name es ≡ some es')
        × ((q : Name)
            → find_import q (update_import name f es') ≡ (
                if same_name name q
                then some (f (or_new name (find_import name es)))
                else find_import q es))
  unfolding enter_import
  find_import-entered name es = elim (Option-cases (find_import name es)) [
    | inr (e, found) ↦ (
      es,
      rw (found, enter_import),
      λ q. find_import-update q name es e found ∙ rw (found, enter_import),
    )
    | inl absent ↦
        let longer = es ++ new_import name ∷ [] in
        let found =
          find_import-append_one name name es absent ∙ rw ((same_name_iff name name).1 refl) in
        (
          longer,
          rw (absent, enter_import),
          λ q.
              find_import-update q name longer (new_import name) found
              ∙ ground (arith, absent, find_import-append_one q name es absent),
        )
  ]

  -- The table behind the store.
  lookup-stored :
      (name q : Name) (table : ImportTable) (es' : List ImportEntry)
      → length table ≡ hash_import_e
      → ((p : Name)
          → find_import p (update_import name f es') ≡ (
              if same_name name p
              then some (f (entry_of name table))
              else find_import p (get_or table (hash_sdbm name) [])))
      → import_lookup q (set table (hash_sdbm name) (update_import name f es'))
        ≡ (if same_name name q then some (f (entry_of name table)) else import_lookup q table)
  lookup-stored name q table es' len chain =
      let index = hash_sdbm name in
      let stored = update_import name f es' in
      elim (ℕ_discrete index (hash_sdbm q)) [
        | yes e ↦
            rw (← e, get_or-set_self table index stored [] (rw len (hash_sdbm-lt name)), chain q, e)
        | no ne ↦
            rw (get_or-set_ne table index (hash_sdbm q) stored [] ne)
              (elim (Bool-cases (same_name name q)) [
                | inl same ↦ absurd (ne (ap hash_sdbm ((same_name_iff name q).0 same)))
                | inr other ↦ rw other
              ])
      ]

count_ref-name : (counts : Bool) (e : ImportEntry) → (count_ref counts e).name ≡ e.name
unfolding count_ref
count_ref-name counts e = refl

inserted_count :
    (name : Name) (rel : Rela) (out_offset : ℕ) (s : ImportState) (es' : List ImportEntry)
    (ref_ok counts : Bool)
    → enter_import true true name (get_or s.table (hash_sdbm name) []) ≡ some es'
    → collect_counts s.last_rel rel ≡ done counts
    → insert_import_entry true true ref_ok name rel out_offset true s
      ≡ done (
        true,
        record {
          table = set s.table (hash_sdbm name) (update_import name (count_ref counts) es');
          last_rel = some rel;
        },
      )
unfolding insert_import_entry
inserted_count name rel out_offset s es' ref_ok counts entered counted =
    rw (entered, counted, insert_import_entry)

pub lookup-insert_count :
    (name : Name) (rel last : Rela) (out_offset : ℕ) (ref_ok : Bool) (s : ImportState)
    → length s.table ≡ hash_import_e
    → s.last_rel ≡ some last
    → (t : ImportState) × (insert_import_entry true true ref_ok name rel out_offset true s
        ≡ done (true, t))
      × (t.last_rel ≡ some rel)
      × (length t.table ≡ hash_import_e)
      × ((q : Name)
          → import_lookup q t.table ≡ (
              if same_name name q
              then some (count_ref (not (is_pair last rel)) (entry_of name s.table))
              else import_lookup q s.table))
lookup-insert_count name rel last out_offset ref_ok s len behind =
    let counts = not (is_pair last rel) in
    let f = count_ref counts in
    let (es', entered, chain) =
      find_import-entered f (count_ref-name counts) name (get_or s.table (hash_sdbm name) []) in
    (
      _,
      inserted_count name rel out_offset s es' ref_ok counts entered
          (ap (λ o. collect_counts o rel) behind ∙ counts_behind last rel),
      refl,
      length-set s.table (hash_sdbm name) _ ∙ len,
      λ q. lookup-stored f (count_ref-name counts) name q s.table es' len chain,
    )
  where
    counts_behind : (l r : Rela) → collect_counts (some l) r ≡ done (not (is_pair l r))
    counts_behind l r = unfold collect_counts in ground arith

-- A second reference in the counting pass.
abbrev pub count_both : Name → Rela → Name → Rela → ImportState → Outcome (Bool × ImportState)
count_both a hi b lo s = insert_import_entry true true true a hi 0 true s >>= λ r.
    insert_import_entry true true true b lo 0 true r.1

-- In the counting pass on a table of 1024 chains, behind a first reference and with memory: a `lui`
-- of one name and, four bytes behind it, an `addi` of another name that is new. The code takes them
-- for a pair without comparing the names, so the second name is entered with a count of 0, though
-- the answer is TRUE.
pub count_both-uncounted :
    (a b : Name) (hi lo last : Rela) (s : ImportState)
    → length s.table ≡ hash_import_e
    → s.last_rel ≡ some last
    → same_name a b ≡ false
    → import_lookup b s.table ≡ none
    → is_pair hi lo ≡ true
    → (t : ImportState) × (count_both a hi b lo s ≡ done (true, t))
      × (import_lookup b t.table ≡ some (new_import b))
count_both-uncounted a b hi lo last s len behind other absent pair =
    let (t, first, behind', len', found) = lookup-insert_count a hi last 0 true s len behind in
    let (u, second, behind'', len'', found') = lookup-insert_count b lo hi 0 true t len' behind' in
    let absent' : import_lookup b t.table ≡ none = found b ∙ rw other absent in
    let itself = (same_name_iff b b).1 refl in
    (u, rw (first, second), found' b ∙ rw (itself, absent', pair) (unfold count_ref in refl))
