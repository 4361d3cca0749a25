-- ===== src/Pulp/Import/Sections.antt =====
-- The sections `.pulp.import.names` and `.pulp.import.relocs` (elf32-riscv.c): their sizes, and their
-- making.
pub mod Spec
pub mod Emit
pub mod Make
pub mod Size
pub mod Strings
pub mod Names
use soft_hier_release_test.Base.{
  ℕ, ◌+◌, ◌*◌, bit_and, bit_or, Bool, true, false, Option, none, some, List, [], ◌∷◌, ◌++◌, length,
  replicate, ◌==◌, if◌then◌else◌, u32, align4, ◌<<<◌, ◌>>>◌,
}
use soft_hier_release_test.Memory.{Outcome, done, failed, ◌>>=◌, write, write_all, put_word}
use soft_hier_release_test.Bfd.{RelocType, r_hi20, r_lo12_i, r_lo12_s, r_jal, Rela}
use soft_hier_release_test.Pulp.Import.{ImportEntry, ImportTable, is_pair}

-- Whether the reference at the head begins a pair with the one behind it.
abbrev pub pairs_with : Rela → List Rela → Bool
pairs_with r [] = false
pairs_with r (r' ∷ rs) = is_pair r r'

-- The loop over the references of one name, on `Skip` and `RefSize`.
unfoldable pub size_refs : List Rela → Bool × ℕ → Bool × ℕ
size_refs [] s = s
size_refs (r ∷ rs) (true, size) = size_refs rs (false, size)
size_refs (r ∷ rs) (false, size) = size_refs rs (pairs_with r rs, u32 (size + 4))

-- The variables of `PulpImportSectionsSize`.
pub record Sizes : Type 0 where
  pub name_size : ℕ
  pub ref_size : ℕ
  pub n_imp : ℕ
  pub skip : Bool

abbrev pub is_empty : List Rela → Bool
is_empty [] = true
is_empty (r ∷ rs) = false

-- `continue` on a name with nothing to relocate.
abbrev pub is_skipped : Bool → ImportEntry → Bool
is_skipped collect e = if collect then e.reloc_count == 0 else is_empty e.refs

unfoldable pub size_import : ℕ → Bool → ImportEntry → Sizes → Sizes
size_import mode collect e s =
    if is_skipped collect e
    then s
    else (let sized =
          if collect
          then (s.skip, u32 (u32 (s.ref_size + 2 + 2) + u32 (e.reloc_count * 4)))
          else size_refs e.refs (s.skip, u32 (s.ref_size + 2 + 2)) in
        record {
          name_size =
              if mode == 0
              then u32 (u32 (s.name_size + 4) + u32 (length e.name + 1))
              else u32 (s.name_size + 4);
          ref_size = sized.1;
          n_imp = u32 (s.n_imp + 1);
          skip = sized.0;
        })

unfoldable pub size_import_chain : ℕ → Bool → List ImportEntry → Sizes → Sizes
size_import_chain mode collect [] s = s
size_import_chain mode collect (e ∷ es) s =
    size_import_chain mode collect es (size_import mode collect e s)

unfoldable pub size_import_chains : ℕ → Bool → ImportTable → Sizes → Sizes
size_import_chains mode collect [] s = s
size_import_chains mode collect (c ∷ cs) s =
    size_import_chains mode collect cs (size_import_chain mode collect c s)

-- `PulpImportSectionsSize`: the sizes of the two sections and the number of imports.
unfoldable pub import_sections_size : ℕ → Bool → ImportTable → ℕ × ℕ × ℕ
import_sections_size mode collect table =
    let s =
      size_import_chains mode collect table
        (record { name_size = 4; ref_size = 4; n_imp = 0; skip = false }) in
    (align4 s.name_size, s.ref_size, s.n_imp)

-- The variables of the loop that makes the names.
pub record NameState : Type 0 where
  pub mem : List ℕ
  pub head_name : ℕ
  pub n_imp : ℕ

unfoldable pub name_entry : ℕ → ImportEntry → NameState → Outcome NameState
name_entry mode e s = do
  m ← put_word s.mem (4 * (1 + s.n_imp)) s.head_name
  m' ← (if mode == 1 then done m else write_all m s.head_name (e.name ++ 0 ∷ []))
  done (record {
    mem = m';
    head_name = if mode == 1 then s.head_name else u32 (s.head_name + u32 (length e.name + 1));
    n_imp = u32 (s.n_imp + 1);
  })

unfoldable pub name_chain : ℕ → List ImportEntry → NameState → Outcome NameState
name_chain mode [] s = done s
name_chain mode (e ∷ es) s =
    (if is_empty e.refs then done s else name_entry mode e s) >>= name_chain mode es

unfoldable pub name_chains : ℕ → ImportTable → NameState → Outcome NameState
name_chains mode [] s = done s
name_chains mode (c ∷ cs) s = name_chain mode c s >>= name_chains mode cs

-- The kinds of relocation of the section: 0 to 4, and 1 for a pair.
unfoldable pub rel_code : RelocType → Option ℕ
rel_code r_jal = some 0
rel_code r_hi20 = some 2
rel_code r_lo12_i = some 3
rel_code r_lo12_s = some 4
rel_code _ = none

unfoldable pub ref_code : Rela → List Rela → Option ℕ
unfolding rel_code
ref_code r rs = if pairs_with r rs then some 1 else rel_code r.r_type

-- `(Rel<<28) | ((PtRef->Rel.r_offset>>1) & 0x0FFFFFFF)`, stored in an `unsigned int`.
unfoldable pub reloc_word : ℕ → ℕ → ℕ
reloc_word code offset = u32 (bit_or (u32 (code <<< 28)) (bit_and (offset >>> 1) 0x0fffffff))

-- `((4*(N_Imp+1))&0x0FFFF) | ((RelCount<<16)&0xFFFF0000)`.
unfoldable pub reloc_head : ℕ → ℕ → ℕ
reloc_head n_imp count =
    bit_or (bit_and (u32 (4 * (n_imp + 1))) 0xffff) (bit_and (u32 (count <<< 16)) 0xffff0000)

-- `(N_Import&0x0FFF) | ((Size>>2)<<12)`, the head of either section.
unfoldable pub section_head : ℕ → ℕ → ℕ
section_head n_import size = bit_or (bit_and n_import 0x0fff) (u32 ((size >>> 2) <<< 12))

-- The variables of the loops that make the relocations; the section is an array of words. Each
-- counter is bounded by the words that have been stored, so that none wraps.
pub record Relocs : Type 0 where
  pub mem : List ℕ
  pub head_rel : ℕ
  pub skip : Bool

unfoldable pub emit_refs : List Rela → ℕ → Relocs → Outcome (ℕ × Relocs)
emit_refs [] count s = done (count, s)
emit_refs (r ∷ rs) count s = elim s.skip [
  | true ↦ emit_refs rs count (record s { skip = false })
  | false ↦ elim (ref_code r rs) [
    | none ↦ failed
    | some code ↦ do
      m ← write s.mem s.head_rel (reloc_word code r.r_offset)
      emit_refs rs (count + 1)
          (record { mem = m; head_rel = s.head_rel + 1; skip = pairs_with r rs })
  ]
]

unfoldable pub reloc_entry : ImportEntry → ℕ → Relocs → Outcome Relocs
reloc_entry e n_imp s = do
  (count, s') ← emit_refs e.refs 0 (record s { head_rel = s.head_rel + 1 })
  m ← write s'.mem s.head_rel (reloc_head n_imp count)
  done (record s' { mem = m })

unfoldable pub reloc_chain : List ImportEntry → ℕ × Relocs → Outcome (ℕ × Relocs)
reloc_chain [] s = done s
reloc_chain (e ∷ es) (n_imp, s) =
    (if is_empty e.refs
      then done (n_imp, s)
      else reloc_entry e n_imp s >>= λ s'. done (n_imp + 1, s'))
    >>= reloc_chain es

unfoldable pub reloc_chains : ImportTable → ℕ × Relocs → Outcome (ℕ × Relocs)
reloc_chains [] s = done s
reloc_chains (c ∷ cs) s = reloc_chain c s >>= reloc_chains cs

-- The names: the block is cleared, the head is written, and then the names.
unfoldable pub make_names : ℕ → List ℕ → ℕ → ℕ → ImportTable → Outcome (List ℕ)
make_names mode block size n_import table = do
  m ← write_all block 0 (replicate ((size >>> 2) * 4) 0)
  m' ← put_word m 0 (section_head n_import size)
  s ←
      name_chains mode table
        (record { mem = m'; head_name = u32 (u32 (1 + n_import) * 4); n_imp = 0 })
  done s.mem

-- The relocations.
unfoldable pub make_relocs : List ℕ → ℕ → ℕ → ImportTable → Outcome (List ℕ)
make_relocs block size n_import table = do
  m ← write_all block 0 (replicate (size >>> 2) 0)
  m' ← write m 0 (section_head n_import size)
  r ← reloc_chains table (0, record { mem = m'; head_rel = 1; skip = false })
  done r.1.mem

-- What `PulpImportCreateNameAndRelocSections` passes back.
pub record ImportSections : Type 0 where
  pub names : List ℕ
  pub names_size : ℕ
  pub relocs : List ℕ
  pub relocs_size : ℕ
  pub n_import : ℕ

-- The part behind the computation of the sizes. `bytes` and `words` are the blocks that `bfd_malloc`
-- gives for the two sizes.
unfoldable pub make_sections :
    ℕ
    → (ℕ → Option (List ℕ))
    → (ℕ → Option (List ℕ))
    → ImportTable
    → ℕ × ℕ × ℕ
    → Outcome ImportSections
make_sections mode bytes words table (names_size, relocs_size, n_import) = elim (bytes names_size) [
  | none ↦ failed
  | some b ↦ elim (words relocs_size) [
    | none ↦ failed
    | some w ↦ do
      names ← make_names mode b names_size n_import table
      relocs ← make_relocs w relocs_size n_import table
      done (record {
        names = names;
        names_size = names_size;
        relocs = relocs;
        relocs_size = relocs_size;
        n_import = n_import;
      })
  ]
]

-- `PulpImportCreateNameAndRelocSections`.
unfoldable pub import_create_sections :
    ℕ → (ℕ → Option (List ℕ)) → (ℕ → Option (List ℕ)) → ImportTable → Outcome ImportSections
import_create_sections mode bytes words table =
    make_sections mode bytes words table (import_sections_size mode false table)
