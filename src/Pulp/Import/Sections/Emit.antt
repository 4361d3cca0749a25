-- ===== src/Pulp/Import/Sections/Emit.antt =====
-- The loops that make the relocation section, against what it is to hold.
use soft_hier_release_test.Base.{
  ℕ, zero, suc, ◌+◌, ◌≤◌, ◌<◌, Bool, true, false, some, List, [], ◌∷◌, ◌++◌, map, length, drop, ◌≡◌,
  refl, sym, ap, ap₂, ◌∙◌, arith, inl, inr, Bool-cases, length-append, length-drop, length-map,
  take, length-take,
}
use mathlib.Core.List.{append_assoc}
use native.Mathlib.Nat.{zero-add}
use soft_hier_release_test.Memory.{done, write}
use soft_hier_release_test.Memory.Frame.{write_frame, cut}
use soft_hier_release_test.Bfd.{Rela}
use soft_hier_release_test.Pulp.Hash.{Name}
use soft_hier_release_test.Pulp.Import.{ImportEntry, is_pair}
use soft_hier_release_test.Pulp.Import.Sections.{
  pairs_with, ref_code, reloc_word, reloc_head, Relocs, emit_refs, reloc_entry, reloc_chain,
  is_empty,
}
use soft_hier_release_test.Pulp.Import.Sections.Spec.{
  Code, codes_of, codes_of-cons, after, length-after, Import, imports_of, code_word, import_words,
  relocs_body, cons_import-some,
}

abbrev pub relocs : List ℕ → ℕ → Bool → Relocs
relocs m h k = record { mem = m; head_rel = h; skip = k }

relocs_eq : {m m' : List ℕ} {h h' : ℕ} → m ≡ m' → h ≡ h' → relocs m h false ≡ relocs m' h' false
relocs_eq p q i = record { mem = p i; head_rel = q i; skip = false }

-- One reference that is stored.
emit_refs_step :
    (r : Rela) (rs : List Rela) (count code h : ℕ) (m m' : List ℕ)
    → ref_code r rs ≡ some code
    → write m h (reloc_word code r.r_offset) ≡ done m'
    → emit_refs (r ∷ rs) count (relocs m h false)
      ≡ emit_refs rs (count + 1) (relocs m' (h + 1) (pairs_with r rs))
unfolding emit_refs
emit_refs_step r rs count code h m m' coded written = ground arith

-- The same, on a block cut at the word that it stores to.
emit_refs_store :
    (r : Rela) (rs : List Rela) (count code h : ℕ) (pre mid post m : List ℕ)
    → ref_code r rs ≡ some code
    → m ≡ pre ++ (mid ++ post)
    → h ≡ length pre
    → 0 < length mid
    → emit_refs (r ∷ rs) count (relocs m h false)
      ≡ emit_refs rs (count + 1) (
          relocs
            ((pre ++ reloc_word code r.r_offset ∷ []) ++ (drop 1 mid ++ post))
            (h + 1)
            (pairs_with r rs))
emit_refs_store r rs count code h pre [] post m coded at here room = absurd (omega arith)
emit_refs_store r rs count code h pre (x ∷ mid) post m coded at here room =
    let word = reloc_word code r.r_offset in
    emit_refs_step r rs count code h m _ coded (
      ap₂ (λ (t : List ℕ) (k : ℕ). write t k word) at here
      ∙ write_frame pre x (mid ++ post) word
      ∙ ap done (sym (append_assoc pre (word ∷ []) (mid ++ post))))

-- What the loop ends in after the relocations `cs`.
abbrev stored : List Code → ℕ → ℕ → List ℕ → List ℕ → ℕ × Relocs
stored cs count h pre post =
    (count + length cs, relocs (pre ++ (map code_word cs ++ post)) (h + length cs) false)

stored-cons :
    (c : Code) (cs : List Code) (count h : ℕ) (pre post : List ℕ)
    → stored cs (count + 1) (h + 1) (pre ++ code_word c ∷ []) post
      ≡ stored (c ∷ cs) count h pre post
stored-cons c cs count h pre post i = (
  add_one count i,
  record {
    mem = append_assoc pre (code_word c ∷ []) (map code_word cs ++ post) i;
    head_rel = add_one h i;
    skip = false;
  },
)
  where
    add_one : (n : ℕ) → n + 1 + length cs ≡ n + suc (length cs)
    add_one n = omega arith

-- The reference that a pair takes along is passed over.
emit_refs-after :
    (r : Rela) (rs : List Rela) (count h : ℕ) (m : List ℕ)
    → emit_refs rs count (relocs m h (pairs_with r rs))
      ≡ emit_refs (after r rs) count (relocs m h false)
emit_refs-after r [] count h m = refl
emit_refs-after r (r' ∷ rs) count h m = elim (Bool-cases (is_pair r r')) [
  | inl pair ↦ rw pair (unfold emit_refs in refl)
  | inr single ↦ rw single
]

-- The references of one name fill exactly the words of its relocations.
emit_refs_frame :
    (n : ℕ) (rs : List Rela) (cs : List Code) (count h : ℕ) (pre mid post m : List ℕ)
    → length rs ≤ n
    → codes_of rs ≡ some cs
    → m ≡ pre ++ (mid ++ post)
    → h ≡ length pre
    → length mid ≡ length cs
    → emit_refs rs count (relocs m h false) ≡ done (stored cs count h pre post)
emit_refs_frame n [] (c ∷ cs) count h pre mid post m bound coded at here size = cc
emit_refs_frame n [] [] count h pre (x ∷ mid) post m bound coded at here size = absurd (omega arith)
emit_refs_frame n [] [] count h pre [] post m bound coded at here size =
    unfold emit_refs in ground (arith, at)
emit_refs_frame zero (r ∷ rs) cs count h pre mid post m bound coded at here size =
    absurd (omega arith)
emit_refs_frame (suc n) (r ∷ rs) cs count h pre mid post m bound coded at here size =
    let (code, tail, is_code, rest, split) = codes_of-cons r rs cs coded in
    let len : length cs ≡ suc (length tail) = ap length split in
    let pre' = pre ++ reloc_word code r.r_offset ∷ [] in
    let m' = pre' ++ (drop 1 mid ++ post) in
    emit_refs_store r rs count code h pre mid post m is_code at here (omega arith)
    ∙ emit_refs-after r rs (count + 1) (h + 1) m'
    ∙ emit_refs_frame n (after r rs) tail (count + 1) (h + 1) pre' (drop 1 mid) post m'
        (omega (arith, length-after r rs)) rest refl
        (omega (arith, length-append pre (reloc_word code r.r_offset ∷ [])))
        (omega (arith, length-drop 1 mid))
    ∙ ap done (
        stored-cons (code, r.r_offset) tail count h pre post
        ∙ ap (λ (t : List Code). stored t count h pre post) (sym split))

-- The words of one name replace as many words of the block.
reloc_entry_frame :
    (e : ImportEntry) (cs : List Code) (n h : ℕ) (pre mid post m : List ℕ)
    → codes_of e.refs ≡ some cs
    → m ≡ pre ++ (mid ++ post)
    → h ≡ length pre
    → length mid ≡ suc (length cs)
    → reloc_entry e n (relocs m h false)
      ≡ done (relocs (pre ++ (import_words n cs ++ post)) (h + length (import_words n cs)) false)
unfolding reloc_entry
reloc_entry_frame e cs n h pre [] post m coded at here size = absurd (omega arith)
reloc_entry_frame e cs n h pre (x ∷ mid) post m coded at here size =
    let emitted =
      emit_refs_frame (length e.refs) e.refs cs 0 (h + 1) (pre ++ x ∷ []) mid post m (omega arith)
        coded (at ∙ sym (append_assoc pre (x ∷ []) (mid ++ post)))
        (omega (arith, length-append pre (x ∷ []))) (omega arith) in
    let body = map code_word cs ++ post in
    let headed : write ((pre ++ x ∷ []) ++ body) h (reloc_head n (length cs))
        ≡ done (pre ++ reloc_head n (length cs) ∷ body) =
      ap₂ (λ (t : List ℕ) (k : ℕ). write t k (reloc_head n (length cs)))
        (append_assoc pre (x ∷ []) body) here
      ∙ write_frame pre x body (reloc_head n (length cs)) in
    rw (emitted, zero-add, headed)
      (ap done (relocs_eq refl (omega (arith, length-map code_word cs))))

-- One name of the chain, and the names behind it.
reloc_chain-skip :
    (e : ImportEntry) (es : List ImportEntry) (s : ℕ × Relocs)
    → is_empty e.refs ≡ true
    → reloc_chain (e ∷ es) s ≡ reloc_chain es s
unfolding reloc_chain
reloc_chain-skip e es (n, s) h = rw h

reloc_chain-entry :
    (e : ImportEntry) (es : List ImportEntry) (n : ℕ) (s s' : Relocs)
    → is_empty e.refs ≡ false
    → reloc_entry e n s ≡ done s'
    → reloc_chain (e ∷ es) (n, s) ≡ reloc_chain es (n + 1, s')
unfolding reloc_chain
reloc_chain-entry e es n s s' h entered = rw (h, entered)

-- What the loop ends in after the names `is`.
abbrev pub ended : List Import → ℕ → ℕ → List ℕ → List ℕ → ℕ × Relocs
ended is n h pre post = (
  n + length is,
  relocs (pre ++ (relocs_body n is ++ post)) (h + length (relocs_body n is)) false,
)

ended-cons :
    (name : Name) (cs : List Code) (is : List Import) (n h : ℕ) (pre post : List ℕ)
    → ended is (n + 1) (h + length (import_words n cs)) (pre ++ import_words n cs) post
      ≡ ended ((name, cs) ∷ is) n h pre post
ended-cons name cs is n h pre post i = (counted i, relocs_eq shape sizes i)
  where
    ws : List ℕ
    ws = import_words n cs

    body : List ℕ
    body = relocs_body (n + 1) is

    counted : n + 1 + length is ≡ n + suc (length is)
    counted = omega arith

    shape : (pre ++ ws) ++ (body ++ post) ≡ pre ++ ((ws ++ body) ++ post)
    shape = simp append_assoc

    sizes : h + length ws + length body ≡ h + length (ws ++ body)
    sizes = omega (arith, length-append ws body)

-- The names of a chain fill exactly the words of their relocations.
pub reloc_chain_frame :
    (es : List ImportEntry) (is : List Import) (n h : ℕ) (pre mid post m : List ℕ)
    → imports_of es ≡ some is
    → m ≡ pre ++ (mid ++ post)
    → h ≡ length pre
    → length mid ≡ length (relocs_body n is)
    → reloc_chain es (n, relocs m h false) ≡ done (ended is n h pre post)
reloc_chain_frame [] (i ∷ is) n h pre mid post m known at here size = cc
reloc_chain_frame [] [] n h pre (x ∷ mid) post m known at here size = absurd (omega arith)
reloc_chain_frame [] [] n h pre [] post m known at here size =
    unfold reloc_chain in ground (arith, at)
reloc_chain_frame (e ∷ es) is n h pre mid post m known at here size =
    elim (Bool-cases (is_empty e.refs)) [
      | inl none_here ↦
          reloc_chain-skip e es (n, relocs m h false) none_here
          ∙ reloc_chain_frame es is n h pre mid post m (rw none_here at known) at here size
      | inr some_here ↦
          let (cs, tail, coded, rest, split) =
            cons_import-some e.name (codes_of e.refs) (imports_of es) is (rw some_here at known) in
          let ws = import_words n cs in
          let k = length ws in
          let wide = length-map code_word cs in
          let sizes : length (relocs_body n is) ≡ k + length (relocs_body (n + 1) tail) =
            ap (λ (t : List Import). length (relocs_body n t)) split
            ∙ length-append ws (relocs_body (n + 1) tail) in
          let room : k ≤ length mid = omega (arith, sizes) in
          let entered =
            reloc_entry_frame e cs n h pre (take k mid) (drop k mid ++ post) m coded
              (at ∙ cut k pre mid post) here (length-take k mid room ∙ ap suc wide) in
          reloc_chain-entry e es n (relocs m h false) _ some_here entered
          ∙ reloc_chain_frame es tail (n + 1) (h + k) (pre ++ ws) (drop k mid) post _ rest
              (sym (append_assoc pre ws (drop k mid ++ post))) (omega (arith, length-append pre ws))
              (omega (arith, length-drop k mid, sizes))
          ∙ ap done (
              ended-cons e.name cs tail n h pre post
              ∙ ap (λ (t : List Import). ended t n h pre post) (sym split))
    ]
