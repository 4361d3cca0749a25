-- ===== src/Pulp/Export/Read.antt =====
-- Reading a section back: `DiassembleExports` on what `PulpExportCreateSection` laid out.
use soft_hier_release_test.Base.{
  ℕ, ◌+◌, ◌*◌, ◌/◌, ◌^◌, ◌<◌, bit_and, Bool, true, Option, some, List, [], ◌∷◌, ◌++◌, map, length,
  drop, ◌≡◌, ◌≢◌, refl, sym, ap₂, ◌∙◌, arith, ◌==◌, if◌then◌else◌, length-append,
  drop-append_length, ◌>>>◌,
}
use soft_hier_release_test.Base.Bits.{low-bit_or-high, bit_and_ones, bit_and_shifted}
use mathlib.Core.List.{append_assoc, append-nil, flatten}
use mathlib.Core.Option.{some-injective}
use soft_hier_release_test.Memory.{done, le32, le32_all, next_words, NoZero, AllBelow}
use soft_hier_release_test.Memory.Frame.{
  next_word-le32, next_words-le32_all, c_string-append, length-le32,
}
use soft_hier_release_test.Pulp.Hash.{Name}
use soft_hier_release_test.Pulp.Export.{
  ExportEntry, ExportTable, Definition, export_value, export_header, export_create_section,
  read_export_names, disassemble_exports,
}
use soft_hier_release_test.Pulp.Export.Layout.{names_region, export_values, values-some}
use soft_hier_release_test.Pulp.Export.Create.{
  values_at, section_bytes, section_layout, length-values, padding_of, export_create_section_lem,
}

-- The fields of the head word, where they fit.
export_header_fields :
    (component : Bool) (n b : ℕ)
    → n < 2 ^ 15
    → b < 2 ^ 18
    → export_header component n b ≡ (if component then 1 else 0) + n * 2 + (b / 4) * 65536
unfolding export_header
export_header_fields component n b hn hb = ground (
  arith,
  bit_and_shifted 1 n 0x7fff,
  bit_and_ones 15 n,
  low-bit_or-high 1 (if component then 1 else 0) n,
  low-bit_or-high 16 ((if component then 1 else 0) + n * 2) (b / 4),
)

abbrev pub NoZeroNames : List ExportEntry → Type 0
NoZeroNames [] = Unit {0}
NoZeroNames (e ∷ es) = NoZero e.name × NoZeroNames es

abbrev pub section_and_name : ExportEntry → ℕ × Name
section_and_name e = (0, e.name)

read_export_names-names_region :
    (es : List ExportEntry) (post : List ℕ)
    → NoZeroNames es
    → read_export_names (length es) (names_region es ++ post) ≡ done (map section_and_name es)
unfolding read_export_names
read_export_names-names_region [] post h = refl
read_export_names-names_region (e ∷ es) post h =
    let shape : (e.name ++ 0 ∷ []) ++ names_region es ++ post
        ≡ e.name ++ 0 ∷ (names_region es ++ post) =
      simp append_assoc in
    rw (
      shape,
      c_string-append e.name (names_region es ++ post) h.0,
      read_export_names-names_region es post h.1,
    )

values_behind :
    (component : Bool) (es : List ExportEntry) (pad vs : List ℕ)
    → 4 + length (names_region es) + length pad ≡ values_at es
    → drop (values_at es) (section_layout component es pad vs) ≡ le32_all vs
values_behind component es pad vs padded =
    let head = le32 (export_header component (length es) (values_at es)) in
    let front = head ++ (names_region es ++ pad) in
    let size : values_at es ≡ length front = omega (
      arith,
      length-append head (names_region es ++ pad),
      length-append (names_region es) pad,
      length-le32 (export_header component (length es) (values_at es)),
      padded,
    ) in
    let shape : section_layout component es pad vs ≡ front ++ le32_all vs = simp append_assoc in
    ap₂ (λ (n : ℕ) (m : List ℕ). drop n m) size shape ∙ drop-append_length front (le32_all vs)

-- Reading a laid-out section gives back the mode, the names in the table's order, each with the
-- section byte 0, and the values, if the counts fit the fields of the head word.
pub disassemble_exports-section_layout :
    (component : Bool) (es : List ExportEntry) (pad vs : List ℕ)
    → length es < 2 ^ 15
    → values_at es < 2 ^ 18
    → 4 + length (names_region es) + length pad ≡ values_at es
    → length vs ≡ length es
    → NoZeroNames es
    → AllBelow (2 ^ 32) vs
    → disassemble_exports (section_layout component es pad vs)
      ≡ done (component, map section_and_name es, vs)
unfolding disassemble_exports
disassemble_exports-section_layout component es pad vs few small padded count names below =
    let head = export_header component (length es) (values_at es) in
    let fields = export_header_fields component (length es) (values_at es) few small in
    let mode : (bit_and head 1 == 1) ≡ component = ground (arith, fields, bit_and_ones 1 head) in
    let number : bit_and head 0xffff >>> 1 ≡ length es =
      ground (arith, fields, bit_and_ones 16 head) in
    let place : 4 * (head >>> 16) ≡ values_at es = ground (arith, fields) in
    let values : next_words (length es) (le32_all vs) ≡ done vs =
      ap₂ next_words (sym count) (sym (append-nil (le32_all vs)))
      ∙ next_words-le32_all vs [] below in
    rw (
      next_word-le32 head (names_region es ++ (pad ++ le32_all vs)) (ground (arith, fields)),
      number,
      read_export_names-names_region es (pad ++ le32_all vs) names,
      place,
      values_behind component es pad vs padded,
      values,
      mode,
    )

values-AllBelow :
    (component : Bool) (lookup : Name → Option Definition) (es : List ExportEntry) (vs : List ℕ)
    → export_values component lookup es ≡ some vs
    → AllBelow (2 ^ 32) vs
values-AllBelow component lookup [] vs h = rw (some-injective vs [] (sym h)) tt
values-AllBelow component lookup (e ∷ es) vs h =
    let (d, vs', found, known, rest, split) = values-some component lookup e es vs h in
    rw split (export_value-lt component d, values-AllBelow component lookup es vs' rest)
  where
    export_value-lt : (component : Bool) (d : Definition) → export_value component d < 2 ^ 32
    export_value-lt component d = unfold export_value in ground arith

-- Making the export section and reading it back: with the symbols defined, at least one name, the
-- memory given, no zero byte in a name, less than 32768 names and the values below offset 2^18,
-- `PulpExportCreateSection` returns a section of the computed size, from which `DiassembleExports`
-- reads the mode, every exported name of the table and its link-time value, in the table's order.
pub disassemble-create :
    (component : Bool) (lookup : Name → Option Definition) (section : ℕ → Option (List ℕ))
    (table : ExportTable) (block vs : List ℕ)
    → export_values component lookup (flatten table) ≡ some vs
    → flatten table ≢ []
    → length (flatten table) < 2 ^ 15
    → values_at (flatten table) < 2 ^ 18
    → NoZeroNames (flatten table)
    → section (section_bytes (flatten table)) ≡ some block
    → length block ≡ section_bytes (flatten table)
    → (m : List ℕ) × (export_create_section component lookup section true table
        ≡ done (some m, section_bytes (flatten table)))
      × (length m ≡ section_bytes (flatten table))
      × (disassemble_exports m ≡ done (component, map section_and_name (flatten table), vs))
disassemble-create component lookup section table block vs defined some_entry few small names given
      size =
    let es = flatten table in
    let (pad, short, made, bytes) =
      export_create_section_lem component lookup section table block vs defined some_entry
        (omega arith) given size in
    let count = length-values component lookup es vs defined in
    (
      section_layout component es pad vs,
      made,
      bytes,
      disassemble_exports-section_layout component es pad vs few small
          (padding_of component es pad vs count bytes) count names
          (values-AllBelow component lookup es vs defined),
    )
