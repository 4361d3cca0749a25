-- ===== src/Pulp/Import/Sections/Names.antt =====
-- The names section as a whole, and both sections that `PulpImportCreateNameAndRelocSections` of
-- elf32-riscv.c makes.
use soft_hier_release_test.Base.{
  ℕ, zero, suc, ◌+◌, ◌-◌, ◌*◌, ◌%◌, ◌^◌, ◌≤◌, ◌<◌, Option, some, List, [], ◌∷◌, ◌++◌, length,
  replicate, ◌≡◌, refl, sym, ap, ◌∙◌, arith, if◌then◌else◌, length-append, length-replicate, u32,
  align4, ◌>>>◌,
}
use mathlib.Core.Path.{fun_ext}
use mathlib.Core.List.{append-nil, flatten}
use soft_hier_release_test.Memory.{done, ◌>>=◌, write_all, put_word, le32}
use soft_hier_release_test.Memory.Frame.{write_all_frame, put_word_frame, >>=_assoc, length-le32}
use soft_hier_release_test.Pulp.Import.{ImportEntry, ImportTable}
use soft_hier_release_test.Pulp.Import.Sections.{
  section_head, is_empty, NameState, name_entry, name_chain, name_chains, make_names, make_relocs,
  make_sections, import_create_sections,
}
use soft_hier_release_test.Pulp.Import.Sections.Spec.{Import, imports_of, relocs_body}
use soft_hier_release_test.Pulp.Import.Sections.Size.{names_bytes, import_sections_size_lem}
use soft_hier_release_test.Pulp.Import.Sections.Make.{make_relocs_lem}
use soft_hier_release_test.Pulp.Import.Sections.Strings.{
  name_indices, name_strings, name_state, length-name_strings, length-name_indices,
  name_chain_frame,
}

name_chain-append :
    (xs ys : List ImportEntry) (s : NameState)
    → name_chain 0 (xs ++ ys) s ≡ name_chain 0 xs s >>= name_chain 0 ys
unfolding name_chain
name_chain-append [] ys s = refl
name_chain-append (e ∷ xs) ys s =
    ap (λ k. (if is_empty e.refs then done s else name_entry 0 e s) >>= k)
      (fun_ext (name_chain-append xs ys))
    ∙ sym (>>=_assoc _ (name_chain 0 xs) (name_chain 0 ys))

name_chains-flatten :
    (table : ImportTable) (s : NameState) → name_chains 0 table s ≡ name_chain 0 (flatten table) s
unfolding name_chains name_chain flatten
name_chains-flatten [] s = refl
name_chains-flatten (c ∷ cs) s =
    ap (λ k. name_chain 0 c s >>= k) (fun_ext (name_chains-flatten cs))
    ∙ sym (name_chain-append c (flatten cs) s)

abbrev zeros : ℕ → List ℕ
zeros n = replicate n 0

zeros-add : (a b : ℕ) → zeros (a + b) ≡ zeros a ++ zeros b
zeros-add zero b = ap zeros (omega arith)
zeros-add (suc a) b =
    let next : suc a + b ≡ suc (a + b) = omega arith in
    ap zeros next ∙ ap (λ (t : List ℕ). 0 ∷ t) (zeros-add a b)

abbrev pub names_size : List Import → ℕ
names_size is = align4 (4 + names_bytes is)

-- What the names section is to hold.
abbrev pub names_section : List Import → List ℕ
names_section is =
    le32 (section_head (length is) (names_size is))
    ++ (name_indices (4 + 4 * length is) is
        ++ (name_strings is ++ zeros (names_size is - (4 + names_bytes is))))

length-zeros : (n : ℕ) → length (zeros n) ≡ n
length-zeros n = length-replicate {A = ℕ} n 0

align4-bounds : (n : ℕ) → n + 4 < 2 ^ 32 → (n ≤ align4 n) × (align4 n % 4 ≡ 0)
align4-bounds n h = (ground arith, ground arith)

-- The cleared block, cut at the head, the indices, the strings and the padding.
cleared_cut :
    (size a b c : ℕ)
    → size ≡ 4 + (a + (b + c))
    → zeros size ≡ zeros 4 ++ (zeros a ++ (zeros b ++ zeros c))
cleared_cut size a b c h =
    ap zeros h
    ∙ zeros-add 4 (a + (b + c))
    ∙ ap (λ (t : List ℕ). zeros 4 ++ t)
        (zeros-add a (b + c) ∙ ap (λ (t : List ℕ). zeros a ++ t) (zeros-add b c))

-- The names section, made in a block of its size.
pub make_names_lem :
    (table : ImportTable) (is : List Import) (block : List ℕ)
    → imports_of (flatten table) ≡ some is
    → names_bytes is + 8 < 2 ^ 32
    → length block ≡ names_size is
    → make_names 0 block (names_size is) (length is) table ≡ done (names_section is)
unfolding make_names
make_names_lem table is block known fits room =
    let n = length is in
    let size = names_size is in
    let (fit, whole) = align4-bounds (4 + names_bytes is) (omega arith) in
    let bytes = length-name_strings is in
    let b = length (name_strings is) in
    let c = size - (4 + names_bytes is) in
    let words : (size >>> 2) * 4 ≡ size = omega (arith, whole) in
    let start : u32 (u32 (1 + n) * 4) ≡ 4 + 4 * n = omega (arith, bytes) in
    let shape = cleared_cut size (4 * n) b c (omega (arith, fit, bytes)) in
    let cleared : write_all block 0 (zeros size) ≡ done (zeros size) =
      ap (λ (t : List ℕ). write_all t 0 (zeros size)) (sym (append-nil block))
      ∙ write_all_frame [] block [] (zeros size) (omega (arith, length-zeros size))
      ∙ ap done (append-nil (zeros size)) in
    let head = section_head n size in
    let body = zeros (4 * n) ++ (zeros b ++ zeros c) in
    let headed : put_word (zeros size) 0 head ≡ done (le32 head ++ body) =
      ap (λ (t : List ℕ). put_word t 0 head) shape ∙ put_word_frame [] (zeros 4) body head refl in
    let looped =
      name_chains-flatten table (name_state (le32 head ++ body) (4 + 4 * n) 0)
      ∙ name_chain_frame (flatten table) is (le32 head) (zeros (4 * n)) [] (zeros b) (zeros c)
          (le32 head ++ body) (4 + 4 * n) 0 known refl (length-zeros (4 * n)) (length-zeros b)
          (omega (arith, length-le32 head)) (omega (arith, length-le32 head, length-zeros (4 * n)))
          (omega (arith, length-zeros b, bytes)) (omega (arith, bytes)) in
    rw (words, cleared, start, headed, looped) refl

make_sections_made :
    (bytes words : ℕ → Option (List ℕ)) (table : ImportTable) (a r n : ℕ) (b w ns rs : List ℕ)
    → bytes a ≡ some b
    → words r ≡ some w
    → make_names 0 b a n table ≡ done ns
    → make_relocs w r n table ≡ done rs
    → make_sections 0 bytes words table (a, r, n)
      ≡ done (record { names = ns; names_size = a; relocs = rs; relocs_size = r; n_import = n })
unfolding make_sections
make_sections_made bytes words table a r n b w ns rs have_b have_w ns_made rs_made =
    rw (have_b, have_w, ns_made, rs_made, make_sections)

-- The sections of a table, made in blocks of the sizes that are computed for them: no store is out
-- of either block.
pub import_create_sections_lem :
    (table : ImportTable) (is : List Import) (bytes words : ℕ → Option (List ℕ)) (b w : List ℕ)
    → imports_of (flatten table) ≡ some is
    → names_bytes is + 8 < 2 ^ 32
    → 4 + 4 * length (relocs_body 0 is) < 2 ^ 32
    → bytes (names_size is) ≡ some b
    → length b ≡ names_size is
    → words (4 * suc (length (relocs_body 0 is))) ≡ some w
    → length w ≡ suc (length (relocs_body 0 is))
    → import_create_sections 0 bytes words table
      ≡ done (record {
        names = names_section is;
        names_size = names_size is;
        relocs = section_head (length is) (4 * suc (length (relocs_body 0 is))) ∷ relocs_body 0 is;
        relocs_size = 4 * suc (length (relocs_body 0 is));
        n_import = length is;
      })
unfolding import_create_sections
import_create_sections_lem table is bytes words b w known fits room have_b len_b have_w len_w =
    ap (make_sections 0 bytes words table)
      (import_sections_size_lem table is known (omega arith) room)
    ∙ make_sections_made bytes words table (names_size is) (4 * suc (length (relocs_body 0 is)))
        (length is) b w (names_section is)
        (section_head (length is) (4 * suc (length (relocs_body 0 is))) ∷ relocs_body 0 is) have_b
        have_w (make_names_lem table is b known fits len_b)
        (make_relocs_lem table is w (4 * suc (length (relocs_body 0 is))) (length is) known len_w
          (omega arith))

-- The names section has the computed size.
pub length-names_section :
    (is : List Import) → names_bytes is + 8 < 2 ^ 32 → length (names_section is) ≡ names_size is
length-names_section is fits =
    let head = section_head (length is) (names_size is) in
    let (fit, whole) = align4-bounds (4 + names_bytes is) (omega arith) in
    let pad = names_size is - (4 + names_bytes is) in
    let at = 4 + 4 * length is in
    omega (
      arith,
      fit,
      length-append (le32 head) (name_indices at is ++ (name_strings is ++ zeros pad)),
      length-append (name_indices at is) (name_strings is ++ zeros pad),
      length-append (name_strings is) (zeros pad),
      length-le32 head,
      length-name_indices at is,
      length-name_strings is,
      length-zeros pad,
    )
