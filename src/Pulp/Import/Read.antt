-- ===== src/Pulp/Import/Read.antt =====
-- `DiassembleImports` of elf32-riscv.c: what it lists of the relocation section, with the names that it
-- finds through the indices of the names section.
use soft_hier_release_test.Base.{
  ℕ, zero, suc, ◌+◌, ◌*◌, ◌/◌, ◌%◌, ◌^◌, ◌≤◌, ◌<◌, bit_and, List, [], ◌∷◌, ◌++◌, map, length, drop,
  ◌≡◌, refl, sym, ap, ap₂, ◌∙◌, arith, u32, ◌<<<◌, ◌>>>◌, length-append, drop-append_length,
  length-map,
}
use soft_hier_release_test.Base.Bits.{bit_and_ones}
use mathlib.Core.List.{append_assoc}
use soft_hier_release_test.Memory.{Outcome, done, ◌>>=◌, read, next_word, c_string, le32, NoZero}
use soft_hier_release_test.Memory.Frame.{read_frame, next_word-le32, c_string-append, length-le32}
use soft_hier_release_test.Pulp.Hash.{Name}
use soft_hier_release_test.Pulp.Import.Sections.{reloc_word, reloc_head, section_head}
use soft_hier_release_test.Pulp.Import.Sections.Spec.{Code, Import, code_word, relocs_body}
use soft_hier_release_test.Pulp.Import.Sections.Strings.{
  name_indices, name_strings, length-name_indices,
}
use soft_hier_release_test.Pulp.Import.Fields.{
  reloc_word_fields, reloc_head_fields, section_head_fields,
}

-- `Type` and `Offset` of a relocation.
unfoldable pub read_code : ℕ → Code
read_code rel = (rel >>> 28, u32 (bit_and rel 0x0fffffff <<< 1))

-- The inner loop; `i` is `Addr/4`.
unfoldable pub read_codes : ℕ → ℕ → List ℕ → Outcome (ℕ × List Code)
read_codes zero i m = done (i, [])
read_codes (suc left) i m = do
  rel ← read m i
  (i', cs) ← read_codes left (i + 1) m
  done (i', read_code rel ∷ cs)

-- `((char *) ImportNames) + ImportNames[Entry>>2]`.
unfoldable pub read_name : List ℕ → ℕ → Outcome Name
read_name names entry = do
  (at, rest) ← next_word (drop (4 * (entry >>> 2)) names)
  (name, rest') ← c_string (drop at names)
  done name

unfoldable pub read_imports : ℕ → ℕ → List ℕ → List ℕ → Outcome (List Import)
read_imports zero i names m = done []
read_imports (suc left) i names m = do
  head ← read m i
  name ← read_name names (bit_and head 0xffff)
  (i', cs) ← read_codes (bit_and (head >>> 16) 0xffff) (i + 1) m
  is ← read_imports left i' names m
  done ((name, cs) ∷ is)

unfoldable pub disassemble_imports : List ℕ → List ℕ → Outcome (List Import)
disassemble_imports names relocs = do
  head ← read relocs 0
  read_imports (bit_and head 0x0fff) 1 names relocs

-- Relocations that fit the fields of a word.
abbrev pub CodesFit : List Code → Type 0
CodesFit [] = Unit {0}
CodesFit (c ∷ cs) = (c.0 < 16) × (c.1 % 2 ≡ 0) × (c.1 < 2 ^ 29) × CodesFit cs

abbrev pub ImportsFit : List Import → Type 0
ImportsFit [] = Unit {0}
ImportsFit (i ∷ is) = NoZero i.0 × (length i.1 < 2 ^ 16) × CodesFit i.1 × ImportsFit is

abbrev code : ℕ → ℕ → Code
code a b = (a, b)

code_eq : {a a' b b' : ℕ} → a ≡ a' → b ≡ b' → code a b ≡ code a' b'
code_eq p q i = (p i, q i)

read_code-code_word :
    (c : Code) → c.0 < 16 → c.1 % 2 ≡ 0 → c.1 < 2 ^ 29 → read_code (code_word c) ≡ c
unfolding read_code
read_code-code_word (kind, offset) small even short =
    let fields = reloc_word_fields kind offset small in
    code_eq (ground (arith, fields))
      (ground (arith, fields, bit_and_ones 28 (reloc_word kind offset)))

read_codes_step :
    (left i word : ℕ) (c : Code) (m : List ℕ) (i' : ℕ) (cs : List Code)
    → read m i ≡ done word
    → read_code word ≡ c
    → read_codes left (i + 1) m ≡ done (i', cs)
    → read_codes (suc left) i m ≡ done (i', c ∷ cs)
unfolding read_codes
read_codes_step left i word c m i' cs loaded decoded rest = rw (loaded, decoded, rest)

read_codes-code_words :
    (cs : List Code) (i : ℕ) (pre post m : List ℕ)
    → CodesFit cs
    → m ≡ pre ++ (map code_word cs ++ post)
    → i ≡ length pre
    → read_codes (length cs) i m ≡ done (i + length cs, cs)
read_codes-code_words [] i pre post m fit at here =
    unfold read_codes in
    ap (λ (k : ℕ). let r : Outcome (ℕ × List Code) = done (k, []) in r) (omega arith)
read_codes-code_words (c ∷ cs) i pre post m fit at here =
    let word = code_word c in
    let rest = map code_word cs ++ post in
    read_codes_step (length cs) i word c m (i + 1 + length cs) cs
      (ap₂ read at here ∙ read_frame pre word rest) (read_code-code_word c fit.0 fit.1 fit.2)
      (read_codes-code_words cs (i + 1) (pre ++ word ∷ []) post m fit.3
        (at ∙ sym (append_assoc pre (word ∷ []) rest))
        (omega (arith, length-append pre (word ∷ []))))
    ∙ ap (λ (k : ℕ). let r : Outcome (ℕ × List Code) = done (k, c ∷ cs) in r) (omega arith)

-- A name is found through its index.
read_name-name :
    (names name front after : List ℕ) (entry at : ℕ) (pre tail : List ℕ)
    → names ≡ pre ++ (le32 at ++ tail)
    → length pre ≡ 4 * (entry / 4)
    → at < 2 ^ 32
    → names ≡ front ++ (name ++ 0 ∷ after)
    → length front ≡ at
    → NoZero name
    → read_name names entry ≡ done name
unfolding read_name
read_name-name names name front after entry at pre tail index place below string here whole =
    let first : drop (4 * (entry >>> 2)) names ≡ le32 at ++ tail =
      ap₂ (λ (k : ℕ) (t : List ℕ). drop k t) (sym place) index
      ∙ drop-append_length pre (le32 at ++ tail) in
    let second : drop at names ≡ name ++ 0 ∷ after =
      ap₂ (λ (k : ℕ) (t : List ℕ). drop k t) (sym here) string
      ∙ drop-append_length front (name ++ 0 ∷ after) in
    rw (first, next_word-le32 at tail below, second, c_string-append name after whole)

read_imports_step :
    (left i head entry count : ℕ) (names m : List ℕ) (name : Name) (i' : ℕ) (cs : List Code)
    (is : List Import)
    → read m i ≡ done head
    → bit_and head 0xffff ≡ entry
    → bit_and (head >>> 16) 0xffff ≡ count
    → read_name names entry ≡ done name
    → read_codes count (i + 1) m ≡ done (i', cs)
    → read_imports left i' names m ≡ done is
    → read_imports (suc left) i names m ≡ done ((name, cs) ∷ is)
unfolding read_imports
read_imports_step left i head entry count names m name i' cs is loaded index counted called coded
      rest =
    rw (loaded, index, counted, called, coded, rest)

-- The fields of a name's head.
head_entry :
    (n count : ℕ) → n < 2 ^ 12 → count < 2 ^ 16 → bit_and (reloc_head n count) 0xffff ≡ 4 * (n + 1)
head_entry n count few h =
    ground (arith, reloc_head_fields n count, bit_and_ones 16 (reloc_head n count))

head_count : (n count : ℕ) → count < 2 ^ 16 → bit_and (reloc_head n count >>> 16) 0xffff ≡ count
head_count n count h =
    ground (arith, reloc_head_fields n count, bit_and_ones 16 (reloc_head n count / 2 ^ 16))

-- The names behind `n` names: their indices at word `n + 1`, and their strings where these say.
read_imports-relocs_body :
    (is : List Import) (n i at : ℕ) (pre m ixs strs pad names : List ℕ)
    → ImportsFit is
    → n + length is ≤ 2 ^ 12
    → m ≡ pre ++ relocs_body n is
    → i ≡ length pre
    → names ≡ ixs ++ (name_indices at is ++ (strs ++ (name_strings is ++ pad)))
    → length ixs ≡ 4 * (n + 1)
    → at ≡ 4 * (n + 1) + 4 * length is + length strs
    → at + length (name_strings is) < 2 ^ 32
    → read_imports (length is) i names m ≡ done is
read_imports-relocs_body [] n i at pre m ixs strs pad names fit few rels here shape words start
      small =
    unfold read_imports in refl
read_imports-relocs_body ((name, cs) ∷ is) n i at pre m ixs strs pad names fit few rels here shape
      words start small =
    let head = reloc_head n (length cs) in
    let rest = relocs_body (n + 1) is in
    let cell = name ++ 0 ∷ [] in
    let at' = at + (length name + 1) in
    let indices = name_indices at' is in
    let strings = name_strings is in
    let front = ixs ++ ((le32 at ++ indices) ++ strs) in
    let pre' = (pre ++ head ∷ []) ++ map code_word cs in
    let cell_len = length-append name (0 ∷ []) in
    let total = length-append cell strings in
    let front_len : length front ≡ at = omega (
      arith,
      length-append ixs ((le32 at ++ indices) ++ strs),
      length-append (le32 at ++ indices) strs,
      length-append (le32 at) indices,
      length-le32 at,
      length-name_indices at' is,
      words,
      start,
    ) in
    let called =
      read_name-name names name front (strings ++ pad) (4 * (n + 1)) at ixs
        (indices ++ (strs ++ ((cell ++ strings) ++ pad))) (shape ∙ simp append_assoc)
        (omega (arith, words)) (omega (arith, small)) (shape ∙ simp append_assoc) front_len fit.0 in
    let coded =
      read_codes-code_words cs (i + 1) (pre ++ head ∷ []) rest m fit.2 (rels ∙ simp append_assoc)
        (omega (arith, here, length-append pre (head ∷ []))) in
    let loaded : read m i ≡ done head =
      ap₂ read rels here ∙ read_frame pre head (map code_word cs ++ rest) in
    read_imports_step (length is) i head (4 * (n + 1)) (length cs) names m name _ cs is loaded
      (head_entry n (length cs) (omega (arith, few)) fit.1) (head_count n (length cs) fit.1) called
      coded
      (read_imports-relocs_body is (n + 1) (i + 1 + length cs) at' pre' m (ixs ++ le32 at)
        (strs ++ cell) pad names fit.3 (omega (arith, few)) (rels ∙ simp append_assoc)
        (omega (
          arith,
          here,
          length-append (pre ++ head ∷ []) (map code_word cs),
          length-append pre (head ∷ []),
          length-map code_word cs,
        ))
        (shape ∙ simp append_assoc)
        (omega (arith, words, length-append ixs (le32 at), length-le32 at))
        (omega (arith, start, length-append strs cell, cell_len))
        (omega (arith, small, total, cell_len)))

-- Whatever is in the two sections, what is listed of them is what they were made of.
pub disassemble_imports-sections :
    (is : List Import) (head size : ℕ) (pad : List ℕ)
    → length (le32 head) ≡ 4
    → length is < 2 ^ 12
    → ImportsFit is
    → 4 + 4 * length is + length (name_strings is) < 2 ^ 32
    → disassemble_imports
        (le32 head ++ (name_indices (4 + 4 * length is) is ++ (name_strings is ++ pad)))
        (section_head (length is) size ∷ relocs_body 0 is)
      ≡ done is
unfolding disassemble_imports read
disassemble_imports-sections is head size pad four few fit small =
    let number : bit_and (section_head (length is) size) 0x0fff ≡ length is = ground (
      arith,
      section_head_fields (length is) size,
      bit_and_ones 12 (section_head (length is) size),
    ) in
    rw number (
      read_imports-relocs_body is 0 1 (4 + 4 * length is) (section_head (length is) size ∷ [])
        (section_head (length is) size ∷ relocs_body 0 is) (le32 head) [] pad _ fit
        (omega (arith, few)) refl refl refl (omega (arith, four)) (omega arith) small)
