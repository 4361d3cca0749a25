-- ===== src/Pulp/Import/Adjust.antt =====
-- `AdjustRelocsImport` of elf32-riscv.c: in resident mode the address of `.text` is added to every
-- relocation of the section, in place.
use soft_hier_release_test.Base.{
  ℕ, zero, suc, ◌+◌, ◌*◌, ◌/◌, ◌%◌, ◌^◌, ◌<◌, bit_and, bit_or, List, [], ◌∷◌, ◌++◌, map, length,
  ◌≡◌, refl, sym, ap, ap₂, ◌∙◌, arith, u32, ◌<<<◌, ◌>>>◌, length-append, length-map,
}
use soft_hier_release_test.Base.Bits.{high-bit_or-low, bit_and_ones}
use mathlib.Core.List.{append_assoc}
use soft_hier_release_test.Memory.{Outcome, done, ◌>>=◌, write, read}
use soft_hier_release_test.Memory.Frame.{write_frame, read_frame}
use soft_hier_release_test.Pulp.Import.Sections.{reloc_word, reloc_head, section_head}
use soft_hier_release_test.Pulp.Import.Sections.Spec.{Code, Import, code_word, relocs_body}
use soft_hier_release_test.Pulp.Import.Fields.{
  reloc_word_fields, reloc_head_fields, section_head_fields,
}

-- The new word: `Offset = (((Rel & 0x0FFFFFFF)<<1)+BaseText)>>1`, with the type kept.
unfoldable pub adjust_word : ℕ → ℕ → ℕ
adjust_word base_text rel =
    let offset = u32 (u32 (bit_and rel 0x0fffffff <<< 1) + base_text) >>> 1 in
    bit_or (u32 ((rel >>> 28) <<< 28)) (bit_and offset 0x0fffffff)

module _ (base_text : ℕ) where
  -- The inner loop; `i` is `Addr/4`.
  unfoldable pub adjust_refs : ℕ → ℕ → List ℕ → Outcome (ℕ × List ℕ)
  adjust_refs zero i m = done (i, m)
  adjust_refs (suc left) i m = do
    rel ← read m i
    m' ← write m i (adjust_word base_text rel)
    adjust_refs left (i + 1) m'

  unfoldable pub adjust_imports : ℕ → ℕ → List ℕ → Outcome (List ℕ)
  adjust_imports zero i m = done m
  adjust_imports (suc left) i m = do
    head ← read m i
    (i', m') ← adjust_refs (bit_and (head >>> 16) 0xffff) (i + 1) m
    adjust_imports left i' m'

  unfoldable pub adjust_relocs_import : List ℕ → Outcome (List ℕ)
  adjust_relocs_import m = do head ← read m 0; adjust_imports (bit_and head 0x0fff) 1 m

-- A relocation at an offset that is moved.
abbrev pub shift_code : ℕ → Code → Code
shift_code base (code, offset) = (code, offset + base)

abbrev pub shift_import : ℕ → Import → Import
shift_import base (name, cs) = (name, map (shift_code base) cs)

-- Relocations with a kind of four bits, at even offsets.
abbrev pub EvenCodes : List Code → Type 0
EvenCodes [] = Unit {0}
EvenCodes (c ∷ cs) = (c.0 < 16) × (c.1 % 2 ≡ 0) × EvenCodes cs

-- At most 65535 relocations for each name, which are such.
abbrev pub EvenImports : List Import → Type 0
EvenImports [] = Unit {0}
EvenImports (i ∷ is) = (length i.1 < 2 ^ 16) × EvenCodes i.1 × EvenImports is

pub adjust_word-code_word :
    (base : ℕ) (c : Code)
    → c.0 < 16
    → c.1 % 2 ≡ 0
    → adjust_word base (code_word c) ≡ code_word (shift_code base c)
unfolding adjust_word
adjust_word-code_word base (code, offset) small even =
    let word = reloc_word code offset in
    let moved = u32 (u32 (word % 2 ^ 28 * 2) + base) / 2 in
    ground (
      arith,
      reloc_word_fields code offset,
      reloc_word_fields code (offset + base),
      bit_and_ones 28 word,
      bit_and_ones 28 moved,
      high-bit_or-low 28 code (moved % 2 ^ 28),
    )

module _ (base : ℕ) where
  adjust_refs_step :
      (left i word word' : ℕ) (m m' : List ℕ)
      → read m i ≡ done word
      → adjust_word base word ≡ word'
      → write m i word' ≡ done m'
      → adjust_refs base (suc left) i m ≡ adjust_refs base left (i + 1) m'
  unfolding adjust_refs
  adjust_refs_step left i word word' m m' loaded adjusted stored = rw (loaded, adjusted, stored)

  adjust_refs_frame :
      (cs : List Code) (i : ℕ) (pre post m : List ℕ)
      → EvenCodes cs
      → m ≡ pre ++ (map code_word cs ++ post)
      → i ≡ length pre
      → adjust_refs base (length cs) i m
        ≡ done (i + length cs, pre ++ (map code_word (map (shift_code base) cs) ++ post))
  adjust_refs_frame [] i pre post m even at here =
      unfold adjust_refs in ap₂ at_index (sym (omega arith)) at
    where
      at_index : ℕ → List ℕ → Outcome (ℕ × List ℕ)
      at_index k t = done (k, t)
  adjust_refs_frame (c ∷ cs) i pre post m even at here =
      let word = code_word c in
      let word' = code_word (shift_code base c) in
      let rest = map code_word cs ++ post in
      let loaded : read m i ≡ done word = ap₂ read at here ∙ read_frame pre word rest in
      let stored : write m i word' ≡ done ((pre ++ word' ∷ []) ++ rest) =
        ap₂ (λ (t : List ℕ) (k : ℕ). write t k word') at here
        ∙ write_frame pre word rest word'
        ∙ ap done (sym (append_assoc pre (word' ∷ []) rest)) in
      adjust_refs_step (length cs) i word word' m _ loaded
        (adjust_word-code_word base c even.0 even.1) stored
      ∙ adjust_refs_frame cs (i + 1) (pre ++ word' ∷ []) post _ even.2 refl
          (omega (arith, length-append pre (word' ∷ [])))
      ∙ ap₂ (λ (k : ℕ) (t : List ℕ). let r : Outcome (ℕ × List ℕ) = done (k, t) in r) (omega arith)
          (append_assoc pre (word' ∷ []) (map code_word (map (shift_code base) cs) ++ post))

  adjust_imports_step :
      (left i count : ℕ) (head : ℕ) (m m' : List ℕ) (i' : ℕ)
      → read m i ≡ done head
      → bit_and (head >>> 16) 0xffff ≡ count
      → adjust_refs base count (i + 1) m ≡ done (i', m')
      → adjust_imports base (suc left) i m ≡ adjust_imports base left i' m'
  unfolding adjust_imports
  adjust_imports_step left i count head m m' i' loaded counted inner = rw (loaded, counted, inner)

  head_count : (n count : ℕ) → count < 2 ^ 16 → bit_and (reloc_head n count >>> 16) 0xffff ≡ count
  head_count n count h =
      ground (arith, reloc_head_fields n count, bit_and_ones 16 (reloc_head n count / 2 ^ 16))

  adjust_imports_frame :
      (is : List Import) (n i : ℕ) (pre m : List ℕ)
      → EvenImports is
      → m ≡ pre ++ relocs_body n is
      → i ≡ length pre
      → adjust_imports base (length is) i m
        ≡ done (pre ++ relocs_body n (map (shift_import base) is))
  adjust_imports_frame [] n i pre m even at here = unfold adjust_imports in ap done at
  adjust_imports_frame ((name, cs) ∷ is) n i pre m even at here =
      let head = reloc_head n (length cs) in
      let rest = relocs_body (n + 1) is in
      let cs' = map (shift_code base) cs in
      let pre' = (pre ++ head ∷ []) ++ map code_word cs' in
      let loaded : read m i ≡ done head =
        ap₂ read at here ∙ read_frame pre head (map code_word cs ++ rest) in
      let inner =
        adjust_refs_frame cs (i + 1) (pre ++ head ∷ []) rest m even.1
          (at ∙ sym (append_assoc pre (head ∷ []) (map code_word cs ++ rest)))
          (omega (arith, length-append pre (head ∷ []))) in
      adjust_imports_step (length is) i (length cs) head m _ _ loaded
        (head_count n (length cs) even.0) inner
      ∙ adjust_imports_frame is (n + 1) (i + 1 + length cs) pre'
          ((pre ++ head ∷ []) ++ (map code_word cs' ++ rest)) even.2
          (sym (append_assoc (pre ++ head ∷ []) (map code_word cs') rest))
          (omega (
            arith,
            length-append (pre ++ head ∷ []) (map code_word cs'),
            length-append pre (head ∷ []),
            length-map code_word cs',
            length-map (shift_code base) cs,
          ))
      ∙ ap done (simp (append_assoc, length-map))

-- Adjusting a relocation section of less than 4096 names, with less than 65536 relocations each,
-- kinds below 16 and even offsets, is the same as making it from the moved offsets: names, kinds and
-- counts stay as they are.
pub adjust-relocs_body :
    (base n size : ℕ) (is : List Import)
    → length is < 2 ^ 12
    → EvenImports is
    → adjust_relocs_import base (section_head (length is) size ∷ relocs_body 0 is)
      ≡ done (section_head (length is) size ∷ relocs_body 0 (map (shift_import base) is))
unfolding adjust_relocs_import read
adjust-relocs_body base n size is few even =
    let head = section_head (length is) size in
    let number : bit_and head 0x0fff ≡ length is =
      ground (arith, section_head_fields (length is) size, bit_and_ones 12 head) in
    rw number
      (adjust_imports_frame base is 0 1 (head ∷ []) (head ∷ relocs_body 0 is) even refl refl)
