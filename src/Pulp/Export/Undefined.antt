-- ===== src/Pulp/Export/Undefined.antt =====
-- `PulpExportCreateSection` of elf32-riscv.c with an exported name that the link does not know.
use soft_hier_release_test.Base.{
  ℕ, ◌+◌, ◌^◌, ◌<◌, Bool, true, false, Option, none, some, List, [], ◌∷◌, ◌++◌, length, take, drop,
  ◌≡◌, ◌≢◌, sym, ap, ap₂, ◌∙◌, arith, inl, inr, Option-cases, ◌==◌, length-append, length-take,
  length-drop, take-append-drop,
}
use mathlib.Core.List.{append_assoc, flatten}
use soft_hier_release_test.Memory.{done, failed, ◌>>=◌}
use soft_hier_release_test.Memory.Frame.{cut}
use soft_hier_release_test.Pulp.Hash.{Name}
use soft_hier_release_test.Pulp.Export.{
  ExportEntry, ExportTable, Definition, put_name, emit_next, emit_chain, fill_export_section,
  export_create_section,
}
use soft_hier_release_test.Pulp.Export.Layout.{
  emit, name_cell, names_region, length-name_cell, put_name_frame, export_values, emit_chain-none,
  emit_chain-some, emit_chains-flatten,
}
use soft_hier_release_test.Pulp.Export.Create.{
  section_bytes, section_size_lem, align_pointer_bounds,
}

-- Every symbol that is found is defined.
abbrev pub AllDefined : (Name → Option Definition) → Type 0
AllDefined lookup = (name : Name) (h : Definition) → lookup name ≡ some h → h.is_defined ≡ true

module _ (component : Bool) (lookup : Name → Option Definition) (linked : AllDefined lookup) where
  values-none :
      (e : ExportEntry) (es : List ExportEntry) (h : Definition)
      → lookup e.name ≡ some h
      → export_values component lookup (e ∷ es) ≡ none
      → export_values component lookup es ≡ none
  values-none e es h found undefined = ground (arith, linked e.name h found)

  -- The loop stops at the first name that is not defined, and has stored inside the names before.
  emit_chain-undefined :
      (es : List ExportEntry) (pre mid post m : List ℕ) (b a : ℕ) (vs : List ℕ)
      → m ≡ pre ++ (mid ++ post)
      → b ≡ length pre
      → export_values component lookup es ≡ none
      → length mid ≡ length (names_region es)
      → emit_chain component lookup es (emit m b a vs) ≡ failed
  emit_chain-undefined [] pre mid post m b a vs at here undefined size = cc
  emit_chain-undefined (e ∷ es) pre mid post m b a vs at here undefined size =
      elim (Option-cases (lookup e.name)) [
        | inl absent ↦ emit_chain-none component lookup e es (emit m b a vs) absent
        | inr (h, found) ↦
            let n = length e.name + 2 in
            let cell = name_cell e.name in
            let sizes : length (names_region (e ∷ es)) ≡ n + length (names_region es) =
              length-append cell (names_region es)
              ∙ ap (λ (t : ℕ). t + length (names_region es)) (length-name_cell e.name) in
            let m' = pre ++ (cell ++ (drop n mid ++ post)) in
            let written : put_name m b e.name ≡ done m' =
              ap₂ (λ (t : List ℕ) (k : ℕ). put_name t k e.name) (at ∙ cut n pre mid post) here
              ∙ put_name_frame pre (take n mid) (drop n mid ++ post) e.name
                  (length-take n mid (omega (arith, sizes))) in
            emit_chain-some component lookup e es (emit m b a vs) h found (linked e.name h found)
            ∙ ap
                (λ r. r >>= (λ t.
                  emit_chain component lookup es (emit_next component e h (emit m b a vs) t)))
                written
            ∙ emit_chain-undefined es (pre ++ cell) (drop n mid) post m' (b + n) _ _
                (sym (append_assoc pre cell (drop n mid ++ post)))
                (omega (arith, length-append pre cell, length-name_cell e.name))
                (values-none e es h found undefined) (omega (arith, length-drop n mid, sizes))
      ]

  fill_export_section-undefined :
      (table : ExportTable) (block : List ℕ)
      → export_values component lookup (flatten table) ≡ none
      → length block ≡ section_bytes (flatten table)
      → fill_export_section component lookup block table ≡ failed
  unfolding fill_export_section
  fill_export_section-undefined table block undefined size =
      let es = flatten table in
      let r = length (names_region es) in
      let rest = drop 4 block in
      let bounds = align_pointer_bounds (4 + r) in
      let parts : block ≡ take 4 block ++ (take r rest ++ drop r rest) = sym (
        ap (λ (t : List ℕ). take 4 block ++ t) (take-append-drop r rest)
        ∙ take-append-drop 4 block) in
      let looped =
        emit_chains-flatten component lookup table (emit block 4 4 [])
        ∙ emit_chain-undefined es (take 4 block) (take r rest) (drop r rest) block 4 4 [] parts
            (sym (length-take 4 block (omega (arith, bounds)))) undefined
            (length-take r rest (omega (arith, length-drop 4 block, bounds))) in
      rw looped

-- An exported name that the link does not know, while every name that it knows is defined: with a size below 2^32
-- and the memory given,
-- `PulpExportCreateSection` answers FALSE, wherever the name stands in the table, and before that no
-- store is outside the block.
pub export_create_section-undefined :
    (component : Bool) (lookup : Name → Option Definition) (section : ℕ → Option (List ℕ))
    (table : ExportTable) (block : List ℕ)
    → AllDefined lookup
    → export_values component lookup (flatten table) ≡ none
    → flatten table ≢ []
    → section_bytes (flatten table) < 2 ^ 32
    → section (section_bytes (flatten table)) ≡ some block
    → length block ≡ section_bytes (flatten table)
    → export_create_section component lookup section true table ≡ failed
unfolding export_create_section
export_create_section-undefined component lookup section table block linked undefined some_entry
      fits given size =
    let es = flatten table in
    let bounds = align_pointer_bounds (4 + length (names_region es)) in
    let size_eq = section_size_lem table fits some_entry in
    let not_empty : (section_bytes es == 0) ≡ false = ground (arith, bounds) in
    let filled = fill_export_section-undefined component lookup linked table block undefined size in
    rw (size_eq, not_empty, given, filled)
