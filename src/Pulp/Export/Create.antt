-- ===== src/Pulp/Export/Create.antt =====
-- `PulpExportCreateSection` of elf32-riscv.c as a whole: its size and its bytes.
use soft_hier_release_test.Base.{
  ℕ, suc, ◌+◌, ◌-◌, ◌*◌, ◌^◌, ◌≤◌, ◌<◌, Bool, true, false, Option, some, List, [], ◌∷◌, ◌++◌,
  length, take, drop, ◌≡◌, ◌≢◌, refl, sym, ap, ap₂, ◌∙◌, arith, length-append, length-take,
  length-drop, take-append-drop, u32, align4, ◌==◌,
}
use mathlib.Core.List.{append_assoc, append-nil, flatten}
use mathlib.Core.Option.{some-injective}
use soft_hier_release_test.Memory.{done, ◌>>=◌, put_word, le32, le32_all}
use soft_hier_release_test.Memory.Frame.{cut, put_word_frame, length-le32, length-le32_all}
use soft_hier_release_test.Pulp.Hash.{Name}
use soft_hier_release_test.Pulp.Export.{
  ExportEntry, ExportTable, Definition, put_words, size_export_chain, size_export_chains,
  export_section_size, export_header, align_pointer, fill_export_section, export_create_section,
}
use soft_hier_release_test.Pulp.Export.Layout.{
  names_region, length-name_cell, name_cell, export_values, emit, emit_chains-flatten,
  emit_chain_frame, values-some,
}

size_export_chain-append :
    (xs ys : List ExportEntry) (acc : ℕ × ℕ)
    → size_export_chain acc (xs ++ ys) ≡ size_export_chain (size_export_chain acc xs) ys
unfolding size_export_chain
size_export_chain-append [] ys acc = refl
size_export_chain-append (e ∷ xs) ys (s, n) =
    size_export_chain-append xs ys (u32 (s + (length e.name + 1 + 1)), u32 (n + 1))

size_export_chains-flatten :
    (acc : ℕ × ℕ) (table : ExportTable)
    → size_export_chains acc table ≡ size_export_chain acc (flatten table)
unfolding size_export_chains size_export_chain flatten
size_export_chains-flatten acc [] = refl
size_export_chains-flatten acc (c ∷ cs) =
    size_export_chains-flatten (size_export_chain acc c) cs
    ∙ sym (size_export_chain-append c (flatten cs) acc)

size_export_chain_lem :
    (s n : ℕ) (es : List ExportEntry)
    → s + length (names_region es) < 2 ^ 32
    → n + length es < 2 ^ 32
    → size_export_chain (s, n) es ≡ (s + length (names_region es), n + length es)
unfolding size_export_chain
size_export_chain_lem s n [] hs hn = ground arith
size_export_chain_lem s n (e ∷ es) hs hn =
    let sizes =
      length-append (name_cell e.name) (names_region es)
      ∙ ap (λ (t : ℕ). t + length (names_region es)) (length-name_cell e.name) in
    size_export_chain_lem (u32 (s + (length e.name + 1 + 1))) (u32 (n + 1)) es
      (omega (arith, sizes)) (omega arith)
    ∙ ap₂ (λ (x y : ℕ). let p : ℕ × ℕ = (x, y) in p) (omega (arith, sizes)) (omega arith)

-- The bytes up to the values.
abbrev pub values_at : List ExportEntry → ℕ
values_at es = align_pointer (4 + length (names_region es))

abbrev pub section_bytes : List ExportEntry → ℕ
section_bytes es = values_at es + length es * 4

le32_split :
    (v : ℕ) (vs post : List ℕ) → le32 v ++ (le32_all vs ++ post) ≡ le32_all (v ∷ vs) ++ post
unfolding le32 le32_all
le32_split v vs post = refl

put_words_frame :
    (vs pre mid post : List ℕ) (m : List ℕ) (b : ℕ)
    → m ≡ pre ++ (mid ++ post)
    → b ≡ length pre
    → length mid ≡ length vs * 4
    → put_words m b vs ≡ done (pre ++ (le32_all vs ++ post))
unfolding put_words le32_all
put_words_frame [] pre [] post m b at here size = ap done at
put_words_frame [] pre (x ∷ mid) post m b at here size = absurd (omega arith)
put_words_frame (v ∷ vs) pre mid post m b at here size =
    let written : put_word m b v ≡ done (pre ++ (le32 v ++ (drop 4 mid ++ post))) =
      ap₂ (λ (t : List ℕ) (k : ℕ). put_word t k v) (at ∙ cut 4 pre mid post) here
      ∙ put_word_frame pre (take 4 mid) (drop 4 mid ++ post) v (length-take 4 mid (omega arith)) in
    ap (λ r. r >>= (λ m'. put_words m' (b + 4) vs)) written
    ∙ put_words_frame vs (pre ++ le32 v) (drop 4 mid) post _ (b + 4)
        (sym (append_assoc pre (le32 v) (drop 4 mid ++ post)))
        (omega (arith, length-append pre (le32 v), length-le32 v, here))
        (omega (arith, length-drop 4 mid))
    ∙ ap done (
        append_assoc pre (le32 v) (le32_all vs ++ post)
        ∙ ap (λ (t : List ℕ). pre ++ t) (le32_split v vs post))

align4-eq_align_pointer : (a : ℕ) → align_pointer a < 2 ^ 32 → align4 a ≡ align_pointer a
align4-eq_align_pointer a h = ground arith

pub align_pointer_bounds : (a : ℕ) → (a ≤ align_pointer a) × (align_pointer a < a + 4)
align_pointer_bounds a = ground arith

-- The bytes of the section, given those of the padding.
abbrev pub section_layout : Bool → List ExportEntry → List ℕ → List ℕ → List ℕ
section_layout component es pad vs =
    le32 (export_header component (length es) (values_at es))
    ++ (names_region es ++ (pad ++ le32_all vs))

module _ (component : Bool) (lookup : Name → Option Definition) where
  pub length-values :
      (es : List ExportEntry) (vs : List ℕ)
      → export_values component lookup es ≡ some vs
      → length vs ≡ length es
  length-values [] vs h = ap length (some-injective vs [] (sym h))
  length-values (e ∷ es) vs h =
      let (d, vs', found, known, rest, split) = values-some component lookup e es vs h in
      ap length split ∙ ap suc (length-values es vs' rest)

  -- A block that is cut into the head word, the names, the padding and the values.
  fill_cut_block :
      (table : ExportTable) (head mid pad vals vs : List ℕ)
      → export_values component lookup (flatten table) ≡ some vs
      → length head ≡ 4
      → length mid ≡ length (names_region (flatten table))
      → 4 + length (names_region (flatten table)) + length pad ≡ values_at (flatten table)
      → length vals ≡ length (flatten table) * 4
      → values_at (flatten table) < 2 ^ 32
      → fill_export_section component lookup (head ++ (mid ++ (pad ++ vals))) table
        ≡ done (section_layout component (flatten table) pad vs)
  unfolding fill_export_section
  fill_cut_block table head mid pad vals vs defined four names padded size fits =
      let es = flatten table in
      let r = length (names_region es) in
      let pre = head ++ (names_region es ++ pad) in
      let block = head ++ (mid ++ (pad ++ vals)) in
      let after = head ++ (names_region es ++ (pad ++ vals)) in
      let emitted =
        emit_chains-flatten component lookup table (emit block 4 4 [])
        ∙ emit_chain_frame component lookup es head mid (pad ++ vals) block 4 4 [] vs refl
            (sym four) defined names (omega (arith, padded)) in
      let valued =
        put_words_frame vs pre vals [] after (values_at es) (simp (append_assoc, append-nil))
          (omega (
            arith,
            length-append head (names_region es ++ pad),
            length-append (names_region es) pad,
          ))
          (omega (arith, length-values es vs defined)) in
      let headed =
        put_word_frame [] head (names_region es ++ (pad ++ le32_all vs))
          (export_header component (length es) (values_at es)) four in
      let regrouped : pre ++ (le32_all vs ++ [])
          ≡ head ++ (names_region es ++ (pad ++ le32_all vs)) =
        simp (append_assoc, append-nil) in
      rw
        (
          emitted,
          valued,
          regrouped,
          length-values es vs defined,
          align4-eq_align_pointer (4 + r) fits,
        )
        headed

  -- Filling a block of the right size never stores outside it, and leaves the layout.
  pub fill_export_section_lem :
      (table : ExportTable) (block vs : List ℕ)
      → export_values component lookup (flatten table) ≡ some vs
      → length block ≡ section_bytes (flatten table)
      → section_bytes (flatten table) < 2 ^ 32
      → (pad : List ℕ) × (4 + length (names_region (flatten table)) + length pad
          ≡ values_at (flatten table))
        × (fill_export_section component lookup block table
            ≡ done (section_layout component (flatten table) pad vs))
  fill_export_section_lem table block vs defined size fits =
      let es = flatten table in
      let r = length (names_region es) in
      let p = values_at es - (4 + r) in
      let bounds = align_pointer_bounds (4 + r) in
      let rest = drop 4 block in
      let post = drop r rest in
      let rest_len = length-drop 4 block in
      let post_len = length-drop r rest in
      let pad_len = length-take p post (omega (arith, post_len, rest_len, bounds)) in
      let padded : 4 + r + length (take p post) ≡ values_at es = omega (arith, pad_len, bounds) in
      let parts : block ≡ take 4 block ++ (take r rest ++ (take p post ++ drop p post)) = sym (
        ap (λ (t : List ℕ). take 4 block ++ (take r rest ++ t)) (take-append-drop p post)
        ∙ ap (λ (t : List ℕ). take 4 block ++ t) (take-append-drop r rest)
        ∙ take-append-drop 4 block) in
      (
        take p post,
        padded,
        ap (λ (t : List ℕ). fill_export_section component lookup t table) parts
            ∙ fill_cut_block table (take 4 block) (take r rest) (take p post) (drop p post) vs
                defined (length-take 4 block (omega (arith, bounds)))
                (length-take r rest (omega (arith, rest_len, bounds))) padded
                (omega (arith, length-drop p post, post_len, rest_len, bounds)) (omega arith),
      )

length-pos : (es : List ExportEntry) → es ≢ [] → 0 < length es
length-pos [] ne = absurd (ne refl)
length-pos (e ∷ es) ne = omega arith

pub section_size_lem :
    (table : ExportTable)
    → section_bytes (flatten table) < 2 ^ 32
    → flatten table ≢ []
    → (export_section_size table).0 ≡ section_bytes (flatten table)
unfolding export_section_size
section_size_lem table fits some_entry =
    let es = flatten table in
    let r = length (names_region es) in
    let bounds = align_pointer_bounds (4 + r) in
    let counted =
      size_export_chains-flatten (4, 0) table
      ∙ size_export_chain_lem 4 0 es (omega (arith, bounds)) (omega arith) in
    rw counted
      (ground (arith, align4-eq_align_pointer (4 + r) (omega arith), length-pos es some_entry))

length-section_layout :
    (component : Bool) (es : List ExportEntry) (pad vs : List ℕ)
    → length (section_layout component es pad vs)
      ≡ 4 + length (names_region es) + length pad + length vs * 4
length-section_layout component es pad vs =
    let head = le32 (export_header component (length es) (values_at es)) in
    omega (
      arith,
      length-append head (names_region es ++ (pad ++ le32_all vs)),
      length-le32 (export_header component (length es) (values_at es)),
      length-append (names_region es) (pad ++ le32_all vs),
      length-append pad (le32_all vs),
      length-le32_all vs,
    )

pub padding_of :
    (component : Bool) (es : List ExportEntry) (pad vs : List ℕ)
    → length vs ≡ length es
    → length (section_layout component es pad vs) ≡ section_bytes es
    → 4 + length (names_region es) + length pad ≡ values_at es
padding_of component es pad vs count size = omega (arith, length-section_layout component es pad vs)

-- With the symbols defined and the memory given, `PulpExportCreateSection` succeeds without a store
-- outside its blocks. The section has exactly the size that `ExportSectionSize` computes, and
-- consists of the head word, the names, at most three bytes of padding and the values.
pub export_create_section_lem :
    (component : Bool) (lookup : Name → Option Definition) (section : ℕ → Option (List ℕ))
    (table : ExportTable) (block vs : List ℕ)
    → export_values component lookup (flatten table) ≡ some vs
    → flatten table ≢ []
    → section_bytes (flatten table) < 2 ^ 32
    → section (section_bytes (flatten table)) ≡ some block
    → length block ≡ section_bytes (flatten table)
    → (pad : List ℕ) × (length pad < 4)
      × (export_create_section component lookup section true table
          ≡ done (
            some (section_layout component (flatten table) pad vs),
            section_bytes (flatten table),
          ))
      × (length (section_layout component (flatten table) pad vs) ≡ section_bytes (flatten table))
unfolding export_create_section
export_create_section_lem component lookup section table block vs defined some_entry fits given
      size =
    let es = flatten table in
    let bounds = align_pointer_bounds (4 + length (names_region es)) in
    let (pad, padded, filled) =
      fill_export_section_lem component lookup table block vs defined size fits in
    let size_eq = section_size_lem table fits some_entry in
    let not_empty : (section_bytes es == 0) ≡ false = ground (arith, bounds) in
    (
      pad,
      omega (arith, padded, bounds),
      rw (size_eq, not_empty, given, filled, size_eq),
      omega (
        arith,
        length-section_layout component es pad vs,
        padded,
        length-values component lookup es vs defined,
      ),
    )
