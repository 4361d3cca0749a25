-- ===== src/Pulp/Import/Sections/Make.antt =====
-- The relocation section as a whole.
use soft_hier_release_test.Base.{
  ℕ, suc, ◌+◌, ◌*◌, false, some, List, [], ◌∷◌, ◌++◌, length, replicate, ◌≡◌, refl, sym, ap, ◌∙◌,
  arith, if◌then◌else◌, length-replicate, ◌>>>◌,
}
use mathlib.Core.Path.{fun_ext}
use mathlib.Core.List.{append-nil, flatten}
use soft_hier_release_test.Memory.{done, ◌>>=◌, write_all}
use soft_hier_release_test.Memory.Frame.{write_frame, write_all_frame, >>=_assoc}
use soft_hier_release_test.Pulp.Import.{ImportEntry, ImportTable}
use soft_hier_release_test.Pulp.Import.Sections.{
  section_head, Relocs, reloc_entry, reloc_chain, reloc_chains, make_relocs, is_empty,
}
use soft_hier_release_test.Pulp.Import.Sections.Spec.{Import, imports_of, relocs_body}
use soft_hier_release_test.Pulp.Import.Sections.Emit.{relocs, reloc_chain_frame}

reloc_chain-append :
    (xs ys : List ImportEntry) (s : ℕ × Relocs)
    → reloc_chain (xs ++ ys) s ≡ reloc_chain xs s >>= reloc_chain ys
unfolding reloc_chain
reloc_chain-append [] ys s = refl
reloc_chain-append (e ∷ xs) ys (n, s) =
    ap
      (λ k.
        (if is_empty e.refs then done (n, s) else reloc_entry e n s >>= λ s'. done (n + 1, s'))
        >>= k)
      (fun_ext (reloc_chain-append xs ys))
    ∙ sym (>>=_assoc _ (reloc_chain xs) (reloc_chain ys))

reloc_chains-flatten :
    (table : ImportTable) (s : ℕ × Relocs) → reloc_chains table s ≡ reloc_chain (flatten table) s
unfolding reloc_chains reloc_chain flatten
reloc_chains-flatten [] s = refl
reloc_chains-flatten (c ∷ cs) s =
    ap (λ k. reloc_chain c s >>= k) (fun_ext (reloc_chains-flatten cs))
    ∙ sym (reloc_chain-append c (flatten cs) s)

-- The relocation section, made in a block of the right number of words: its head, and for each name
-- a head with the number of its relocations and these in the order of registration. Every store
-- is inside the block, and every word of it is stored.
pub make_relocs_lem :
    (table : ImportTable) (is : List Import) (block : List ℕ) (size n : ℕ)
    → imports_of (flatten table) ≡ some is
    → length block ≡ suc (length (relocs_body 0 is))
    → size ≡ 4 * length block
    → make_relocs block size n table ≡ done (section_head n size ∷ relocs_body 0 is)
unfolding make_relocs
make_relocs_lem table is block size n known room whole =
    let k = length (relocs_body 0 is) in
    let rest : List ℕ = replicate k 0 in
    let words : size >>> 2 ≡ suc k = omega arith in
    let count : length rest ≡ k = length-replicate {A = ℕ} k 0 in
    let cleared : write_all block 0 (0 ∷ rest) ≡ done (0 ∷ rest) =
      ap (λ (t : List ℕ). write_all t 0 (0 ∷ rest)) (sym (append-nil block))
      ∙ write_all_frame [] block [] (0 ∷ rest) (omega arith)
      ∙ ap done (append-nil (0 ∷ rest)) in
    let head = section_head n size in
    let looped =
      reloc_chains-flatten table (0, relocs (head ∷ rest) 1 false)
      ∙ reloc_chain_frame (flatten table) is 0 1 (head ∷ []) rest [] (head ∷ rest) known
          (ap (λ (t : List ℕ). head ∷ t) (sym (append-nil rest))) refl count in
    rw (words, cleared, write_frame {A = ℕ} [] 0 rest head, looped, append-nil)
