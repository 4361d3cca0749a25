-- ===== src/Pulp/Import.antt =====
-- The import table (elf32-riscv.c, `ImportEntries`): the registration of references, and release.
pub mod Table
pub mod Collect
pub mod Sections
pub mod Adjust
pub mod Fields
pub mod Read
pub mod Link
use soft_hier_release_test.Base.{
  ℕ, ◌+◌, Bool, true, false, not, ◌&&◌, Option, none, some, List, [], ◌∷◌, ◌++◌, get_or, set,
  replicate, ◌==◌, if◌then◌else◌, u64, sub64,
}
use soft_hier_release_test.Memory.{Outcome, done, fault, ◌>>=◌}
use soft_hier_release_test.Bfd.{Rela, is_hi20, is_lo12_i}
use soft_hier_release_test.Pulp.Hash.{Name, hash_import_e, hash_sdbm, same_name}

-- `PulpImportEntry`; the lists are the chains of `Next`, and `refs` that of `PulpImportRef`.
pub record ImportEntry : Type 0 where
  pub name : Name
  pub reloc_count : ℕ
  pub refs : List Rela

abbrev pub new_import : Name → ImportEntry
new_import name = record { name = name; reloc_count = 0; refs = [] }

abbrev pub ImportTable : Type 0
ImportTable = List (List ImportEntry)

-- The table, and the static `LastRel` of `InsertImportEntry`, null at first. The entry that it points
-- to is taken to be as it was when the pointer was set.
pub record ImportState : Type 0 where
  pub table : ImportTable
  pub last_rel : Option Rela

abbrev pub no_imports : ImportState
no_imports = record { table = replicate hash_import_e []; last_rel = none }

unfoldable pub find_import : Name → List ImportEntry → Option ImportEntry
unfolding same_name
find_import name [] = none
find_import name (e ∷ es) = if same_name e.name name then some e else find_import name es

-- A store through `PtEntry` when the search has stopped at `name`.
unfoldable pub update_import :
    Name → (ImportEntry → ImportEntry) → List ImportEntry → List ImportEntry
unfolding same_name
update_import name f [] = []
update_import name f (e ∷ es) =
    if same_name e.name name then f e ∷ es else e ∷ update_import name f es

-- The test for a `lui` and the `addi` behind it, which one reference stands for.
abbrev pub is_pair : Rela → Rela → Bool
is_pair hi lo = is_hi20 hi.r_type && (is_lo12_i lo.r_type && (sub64 lo.r_offset hi.r_offset == 4))

-- Whether the search has found the name, or an entry could be made for it.
unfoldable pub enter_import : Bool → Bool → Name → List ImportEntry → Option (List ImportEntry)
unfolding find_import
enter_import entry_ok name_ok name chain = elim (find_import name chain) [
  | some e ↦ some chain
  | none ↦ if entry_ok && name_ok then some (chain ++ new_import name ∷ []) else none
]

-- `if (Collect) …`: whether `rel` counts, or follows the last one as the low half of a pair. The code
-- compares `LastEntry` with `PtEntry` just after it has made them equal, so no entry is compared.
-- `LastRel` is read only at a `R_RISCV_LO12_I`; at the very first call it is null.
unfoldable pub collect_counts : Option Rela → Rela → Outcome Bool
collect_counts last rel =
    if is_lo12_i rel.r_type
    then elim last [
      | none ↦ fault
      | some l ↦ done (not (is_hi20 l.r_type && (sub64 rel.r_offset l.r_offset == 4)))
    ]
    else done true

unfoldable pub count_ref : Bool → ImportEntry → ImportEntry
count_ref counts e = record e { reloc_count = if counts then e.reloc_count + 1 else e.reloc_count }

-- The reference that is kept: `r_info` is reduced to the type, and the offset is that in the output.
unfoldable pub output_ref : Rela → ℕ → Rela
output_ref rel out_offset = record {
  r_offset = u64 (rel.r_offset + out_offset);
  r_sym = 0;
  r_type = rel.r_type;
  r_addend = rel.r_addend;
}

unfoldable pub add_ref : Rela → ImportEntry → ImportEntry
add_ref ref e = record e { refs = e.refs ++ ref ∷ [] }

-- `InsertImportEntry`, with what its three calls of `bfd_malloc` give.
unfoldable pub insert_import_entry :
    Bool → Bool → Bool → Name → Rela → ℕ → Bool → ImportState → Outcome (Bool × ImportState)
unfolding enter_import update_import collect_counts count_ref output_ref add_ref
insert_import_entry entry_ok name_ok ref_ok name rel out_offset collect s =
    let index = hash_sdbm name in
    elim (enter_import entry_ok name_ok name (get_or s.table index [])) [
      | none ↦ done (false, s)
      | some chain ↦
          let store =
            λ (f : ImportEntry → ImportEntry). set s.table index (update_import name f chain) in
          if collect
          then (do
            counts ← collect_counts s.last_rel rel
            done (true, record { table = store (count_ref counts); last_rel = some rel }))
          else if ref_ok
          then done (true, record s { table = store (add_ref (output_ref rel out_offset)) })
          else done (false, record s { table = set s.table index chain })
    ]

empty_chains : ImportTable → ImportTable
empty_chains [] = []
empty_chains (c ∷ cs) = [] ∷ empty_chains cs

-- `ReleaseImportEntry`; `LastRel` keeps its value.
unfoldable pub release_import_entry : ImportState → Bool × ImportState
unfolding empty_chains
release_import_entry s = (true, record s { table = empty_chains s.table })
