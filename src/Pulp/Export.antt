-- ===== src/Pulp/Export.antt =====
-- The export table (elf32-riscv.c, `ExportEntries`): its chains, look-up, insertion, release, the
-- size of the section, and the making and the reading of the section `.pulp.export`.
pub mod Table
pub mod Layout
pub mod Create
pub mod Read
pub mod Undefined
use soft_hier_release_test.Base.{
  ℕ, zero, suc, ◌+◌, ◌*◌, ◌%◌, bit_and, bit_or, Bool, true, false, Option, none, some, List, [],
  ◌∷◌, ◌++◌, length, get_or, set, drop, replicate, ◌==◌, if◌then◌else◌, u32, align4, ◌<<<◌, ◌>>>◌,
}
use soft_hier_release_test.Memory.{
  Outcome, done, failed, fault, ◌>>=◌, write, write_all, put_word, next_word, next_words, c_string,
}
use soft_hier_release_test.Pulp.Hash.{Name, hash_import_e, hash_sdbm, same_name}

-- `PulpExportEntry`; the list that holds it is the `Next` chain.
pub record ExportEntry : Type 0 where
  pub name : Name
  pub address : ℕ

-- The entry that is made for a name.
abbrev pub new_export : Name → ExportEntry
new_export name = record { name = name; address = 0 }

abbrev pub ExportTable : Type 0
ExportTable = List (List ExportEntry)

-- The static array before anything is put in.
abbrev pub no_exports : ExportTable
no_exports = replicate hash_import_e []

-- `while (PtEntry && strcmp (PtEntry->Name, Name) != 0) PtEntry = PtEntry->Next`.
unfoldable pub find_export : Name → List ExportEntry → Option ExportEntry
unfolding same_name
find_export name [] = none
find_export name (e ∷ es) = if same_name e.name name then some e else find_export name es

unfoldable pub export_lookup : Name → ExportTable → Bool
unfolding find_export
export_lookup name table = elim (find_export name (get_or table (hash_sdbm name) [])) [
  | none ↦ false
  | some e ↦ true
]

-- `entry_ok` and `name_ok`: whether the two calls of `bfd_malloc` give a block.
unfoldable pub insert_export_entry : Bool → Bool → Name → ExportTable → Bool × ExportTable
unfolding find_export
insert_export_entry entry_ok name_ok name table =
    let index = hash_sdbm name in
    let chain = get_or table index [] in
    elim (find_export name chain) [
      | some e ↦ (true, table)
      | none ↦
          if entry_ok
          then if name_ok
            then (true, set table index (chain ++ new_export name ∷ []))
            else (false, table)
          else (false, table)
    ]

-- The inner loop of `ExportSectionSize`, on `Size` and `Entry`.
unfoldable pub size_export_chain : ℕ × ℕ → List ExportEntry → ℕ × ℕ
size_export_chain acc [] = acc
size_export_chain (size, entry) (e ∷ es) =
    size_export_chain (u32 (size + (length e.name + 1 + 1)), u32 (entry + 1)) es

unfoldable pub size_export_chains : ℕ × ℕ → ExportTable → ℕ × ℕ
unfolding size_export_chain
size_export_chains acc [] = acc
size_export_chains acc (c ∷ cs) = size_export_chains (size_export_chain acc c) cs

-- The size of the section and the number of its entries.
unfoldable pub export_section_size : ExportTable → ℕ × ℕ
export_section_size table =
    let (size, entry) = size_export_chains (4, 0) table in
    let size' = u32 (align4 size + u32 (entry * 4)) in (if entry == 0 then 0 else size', entry)

empty_chains : ExportTable → ExportTable
empty_chains [] = []
empty_chains (c ∷ cs) = [] ∷ empty_chains cs

-- Every entry is freed and every chain is emptied.
unfoldable pub release_export_entry : ExportTable → Bool × ExportTable
unfolding empty_chains
release_export_entry table = (true, empty_chains table)

-- The symbol that `bfd_link_hash_lookup` finds: whether `u.def` is the member of its union that is in use, which
-- it is not for a name that is only referred to, and then `u.def.value` and the place of `u.def.section` in
-- the output.
pub record Definition : Type 0 where
  pub is_defined : Bool
  pub value : ℕ
  pub output_offset : ℕ
  pub output_vma : ℕ

-- The value that is recorded for a symbol: an offset in component mode, else an address.
unfoldable pub export_value : Bool → Definition → ℕ
export_value component h =
    if component
    then u32 (h.value + h.output_offset)
    else u32 (h.value + (h.output_vma + h.output_offset))

-- `Base[0] = 0`, the name from `Base[1]` on, and its terminator.
unfoldable pub put_name : List ℕ → ℕ → Name → Outcome (List ℕ)
unfolding write write_all
put_name m base name = do
  m₀ ← write m base 0
  m₁ ← write_all m₀ (base + 1) name
  write m₁ (base + 1 + length name) 0

-- The variables of the first loop: the section, the offset of `Base` in it, `Addr` and `Entries`.
pub record Emit : Type 0 where
  pub mem : List ℕ
  pub base : ℕ
  pub addr : ℕ
  pub entries : List ℕ

-- The variables after the entry `e` with the definition `h` is written to `m`.
abbrev pub emit_next : Bool → ExportEntry → Definition → Emit → List ℕ → Emit
emit_next component e h s m = record {
  mem = m;
  base = s.base + (length e.name + 2);
  addr = u32 (s.addr + (length e.name + 2));
  entries = s.entries ++ export_value component h ∷ [];
}

module _ (component : Bool) (lookup : Name → Option Definition) where
  unfoldable pub emit_chain : List ExportEntry → Emit → Outcome Emit
  unfolding put_name export_value
  emit_chain [] s = done s
  emit_chain (e ∷ es) s = elim (lookup e.name) [
    | none ↦ failed
    | some h ↦ elim h.is_defined [
      -- The code does not test the type of the symbol before it reads `u.def`.
      | false ↦ fault
      | true ↦ do m ← put_name s.mem s.base e.name; emit_chain es (emit_next component e h s m)
    ]
  ]

  unfoldable pub emit_chains : ExportTable → Emit → Outcome Emit
  unfolding emit_chain
  emit_chains [] s = done s
  emit_chains (c ∷ cs) s = do s' ← emit_chain c s; emit_chains cs s'

-- `BaseI[Entry] = Entries[Entry]` for every entry; `BaseI` is a byte offset here.
unfoldable pub put_words : List ℕ → ℕ → List ℕ → Outcome (List ℕ)
put_words m base [] = done m
put_words m base (v ∷ vs) = do m' ← put_word m base v; put_words m' (base + 4) vs

-- `(ComponentMode&0x01) | ((Entry<<1)&0x0FFFE) | ((BaseLinkedVal>>2) << 16)`.
unfoldable pub export_header : Bool → ℕ → ℕ → ℕ
export_header component entry base =
    bit_or (bit_or (if component then 1 else 0) (bit_and (u32 (entry <<< 1)) 0xfffe))
      (u32 ((base >>> 2) <<< 16))

-- `if (Base1 % 4) Base1 = ((Base1>>2)+1)<<2` on the pointer; the block itself is aligned.
abbrev pub align_pointer : ℕ → ℕ
align_pointer base = if base % 4 == 0 then base else ((base >>> 2) + 1) <<< 2

-- `PulpExportCreateSection`. `section` is the block that `bfd_malloc` gives for a size, its bytes not
-- set, and `entries_ok` says whether the block for `Entries` is given. The result is the section
-- and its size; `none` is the section that is not made as there is nothing to export.
module _ (component : Bool) (lookup : Name → Option Definition) where
  unfoldable pub fill_export_section : List ℕ → ExportTable → Outcome (List ℕ)
  fill_export_section block table = do
    s ←
        emit_chains component lookup table
          (record { mem = block; base = 4; addr = 4; entries = [] })
    m ← put_words s.mem (align_pointer s.base) s.entries
    put_word m 0 (export_header component (length s.entries) (align4 s.addr))

  unfoldable pub export_create_section :
      (ℕ → Option (List ℕ)) → Bool → ExportTable → Outcome (Option (List ℕ) × ℕ)
  export_create_section section entries_ok table =
      let size = (export_section_size table).0 in
      let make = λ (block : List ℕ). fill_export_section block table >>= λ m. done (some m, size) in
      if size == 0 then done (none, 0) else elim (section size) [
        | none ↦ failed
        | some block ↦ if entries_ok then make block else failed
      ]

-- The first loop of `DiassembleExports`, at `Base`.
unfoldable pub read_export_names : ℕ → List ℕ → Outcome (List (ℕ × Name))
unfolding c_string
read_export_names zero m = done []
read_export_names (suc n) [] = fault
read_export_names (suc n) (sec ∷ m) = do
  (name, rest) ← c_string m
  names ← read_export_names n rest
  done ((sec, name) ∷ names)

-- `DiassembleExports`: the mode, and the entries with their values.
unfoldable pub disassemble_exports : List ℕ → Outcome (Bool × List (ℕ × Name) × List ℕ)
unfolding read_export_names next_word next_words
disassemble_exports m = do
  (head, body) ← next_word m
  names ← read_export_names (bit_and head 0xffff >>> 1) body
  values ← next_words (bit_and head 0xffff >>> 1) (drop (4 * (head >>> 16)) m)
  done (bit_and head 1 == 1, names, values)
