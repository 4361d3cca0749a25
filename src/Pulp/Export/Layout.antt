-- ===== src/Pulp/Export/Layout.antt =====
-- What the first loop of `PulpExportCreateSection` (elf32-riscv.c) lays out for each entry.
use soft_hier_release_test.Base.{
  ℕ, ◌+◌, ◌^◌, ◌<◌, Bool, Option, none, some, List, [], ◌∷◌, ◌++◌, length, take, drop, ◌≡◌, refl,
  sym, ap, ap₂, ◌∙◌, arith, inl, inr, Option-cases, length-append, length-take, length-drop, u32,
  Bool-cases, true, false,
}
use mathlib.Core.Path.{fun_ext}
use mathlib.Core.List.{append_assoc, append-nil, flatten}
use mathlib.Core.Option.{some-injective}
use native.Mathlib.Numerals.{add-one}
use soft_hier_release_test.Memory.{Outcome, done, failed, ◌>>=◌, write, write_all, fault}
use soft_hier_release_test.Memory.Frame.{
  write_all_frame, write_all-append, >>=_assoc, >>=-done, cut,
}
use soft_hier_release_test.Pulp.Hash.{Name}
use soft_hier_release_test.Pulp.Export.{
  ExportEntry, ExportTable, Definition, Emit, emit_next, export_value, put_name, emit_chain,
  emit_chains,
}

-- The bytes of one entry.
abbrev pub name_cell : Name → List ℕ
name_cell name = 0 ∷ (name ++ 0 ∷ [])

-- The bytes of the entries, one after the other.
abbrev pub names_region : List ExportEntry → List ℕ
names_region [] = []
names_region (e ∷ es) = name_cell e.name ++ names_region es

pub length-name_cell : (name : Name) → length (name_cell name) ≡ length name + 2
length-name_cell name = omega (arith, length-append name (0 ∷ []))

-- The values of the entries; `none` if a name is not known to the link, or not defined.
abbrev pub export_values : Bool → (Name → Option Definition) → List ExportEntry → Option (List ℕ)
export_values component lookup [] = some []
export_values component lookup (e ∷ es) = elim (lookup e.name) [
  | none ↦ none
  | some h ↦ elim h.is_defined [
    | false ↦ none
    | true ↦ elim (export_values component lookup es) [
      | none ↦ none
      | some vs ↦ some (export_value component h ∷ vs)
    ]
  ]
]

write_all-one : (m : List ℕ) (i v : ℕ) → write_all m i (v ∷ []) ≡ write m i v
unfolding write_all
write_all-one m i v = >>=-done (write m i v)

put_name-eq :
    (m : List ℕ) (base : ℕ) (name : Name) → put_name m base name ≡ write_all m base (name_cell name)
unfolding put_name write_all
put_name-eq m base name = simp (add-one, write_all-append, write_all-one)

pub put_name_frame :
    (pre mid post : List ℕ) (name : Name)
    → length mid ≡ length name + 2
    → put_name (pre ++ (mid ++ post)) (length pre) name ≡ done (pre ++ (name_cell name ++ post))
put_name_frame pre mid post name e =
    put_name-eq (pre ++ (mid ++ post)) (length pre) name
    ∙ write_all_frame pre mid post (name_cell name) (e ∙ sym (length-name_cell name))

abbrev pub emit : List ℕ → ℕ → ℕ → List ℕ → Emit
emit m b a vs = record { mem = m; base = b; addr = a; entries = vs }

emit_eq :
    {m m' : List ℕ} {b b' a a' : ℕ} {vs vs' : List ℕ}
    → m ≡ m'
    → b ≡ b'
    → a ≡ a'
    → vs ≡ vs'
    → emit m b a vs ≡ emit m' b' a' vs'
emit_eq p q r s i = record { mem = p i; base = q i; addr = r i; entries = s i }

regroup :
    (pre cell rest post : List ℕ)
    → (pre ++ cell) ++ (rest ++ post) ≡ pre ++ ((cell ++ rest) ++ post)
regroup pre cell rest post = simp append_assoc

module _ (component : Bool) (lookup : Name → Option Definition) where
  pub emit_chain-none :
      (e : ExportEntry) (es : List ExportEntry) (s : Emit)
      → lookup e.name ≡ none
      → emit_chain component lookup (e ∷ es) s ≡ failed
  unfolding emit_chain
  emit_chain-none e es s h = ground arith

  pub emit_chain-some :
      (e : ExportEntry) (es : List ExportEntry) (s : Emit) (h : Definition)
      → lookup e.name ≡ some h
      → h.is_defined ≡ true
      → emit_chain component lookup (e ∷ es) s
        ≡ put_name s.mem s.base e.name
          >>= (λ m. emit_chain component lookup es (emit_next component e h s m))
  unfolding emit_chain
  emit_chain-some e es s h found defined = ap at found ∙ ap (in_use h) defined
    where
      in_use : Definition → Bool → Outcome Emit
      in_use h false = fault
      in_use h true =
          put_name s.mem s.base e.name
          >>= (λ m. emit_chain component lookup es (emit_next component e h s m))

      at : Option Definition → Outcome Emit
      at none = failed
      at (some h) = in_use h h.is_defined

  -- A symbol that is known, but not defined.
  pub emit_chain-fault :
      (e : ExportEntry) (es : List ExportEntry) (s : Emit) (h : Definition)
      → lookup e.name ≡ some h
      → h.is_defined ≡ false
      → emit_chain component lookup (e ∷ es) s ≡ fault
  unfolding emit_chain
  emit_chain-fault e es s h found undefined = ap at found ∙ ap (in_use h) undefined
    where
      in_use : Definition → Bool → Outcome Emit
      in_use h false = fault
      in_use h true =
          put_name s.mem s.base e.name
          >>= (λ m. emit_chain component lookup es (emit_next component e h s m))

      at : Option Definition → Outcome Emit
      at none = failed
      at (some h) = in_use h h.is_defined

  emit_chain-append :
      (xs ys : List ExportEntry) (s : Emit)
      → emit_chain component lookup (xs ++ ys) s
        ≡ emit_chain component lookup xs s >>= emit_chain component lookup ys
  emit_chain-append [] ys s = unfold emit_chain in refl
  emit_chain-append (e ∷ xs) ys s = elim (Option-cases (lookup e.name)) [
    | inl absent ↦ rw (emit_chain-none e (xs ++ ys) s absent, emit_chain-none e xs s absent)
    | inr (h, found) ↦ elim (Bool-cases h.is_defined) [
      | inl defined ↦
          emit_chain-some e (xs ++ ys) s h found defined
          ∙ ap (λ k. put_name s.mem s.base e.name >>= k)
              (fun_ext (λ m. emit_chain-append xs ys (emit_next component e h s m)))
          ∙ sym (>>=_assoc (put_name s.mem s.base e.name) _ _)
          ∙ ap (λ r. r >>= emit_chain component lookup ys)
              (sym (emit_chain-some e xs s h found defined))
      | inr undefined ↦
          emit_chain-fault e (xs ++ ys) s h found undefined
          ∙ ap (λ r. r >>= emit_chain component lookup ys)
              (sym (emit_chain-fault e xs s h found undefined))
    ]
  ]

  -- The loop over the chains is one loop over all entries.
  pub emit_chains-flatten :
      (table : ExportTable) (s : Emit)
      → emit_chains component lookup table s ≡ emit_chain component lookup (flatten table) s
  unfolding emit_chains emit_chain flatten
  emit_chains-flatten [] s = refl
  emit_chains-flatten (c ∷ cs) s =
      ap (λ k. emit_chain component lookup c s >>= k) (fun_ext (emit_chains-flatten cs))
      ∙ sym (emit_chain-append c (flatten cs) s)

  pub values-some :
      (e : ExportEntry) (es : List ExportEntry) (vs : List ℕ)
      → export_values component lookup (e ∷ es) ≡ some vs
      → (h : Definition) × (vs' : List ℕ) × (lookup e.name ≡ some h)
        × (h.is_defined ≡ true)
        × (export_values component lookup es ≡ some vs')
        × (vs ≡ export_value component h ∷ vs')
  values-some e es vs defined =
      go (lookup e.name) (export_values component lookup es) refl refl defined
    where
      known :
          (h : Definition) (b : Bool) (r : Option (List ℕ))
          → lookup e.name ≡ some h
          → h.is_defined ≡ b
          → export_values component lookup es ≡ r
          → elim b [
            | false ↦ none
            | true ↦ elim r [ none ↦ none | some vs ↦ some (export_value component h ∷ vs) ]
          ]
            ≡ some vs
          → (h : Definition) × (vs' : List ℕ) × (lookup e.name ≡ some h)
            × (h.is_defined ≡ true)
            × (export_values component lookup es ≡ some vs')
            × (vs ≡ export_value component h ∷ vs')
      known h false r p u q d = cc
      known h true none p u q d = cc
      known h true (some vs') p u q d = (h, vs', p, u, q, cc)

      go :
          (d : Option Definition) (r : Option (List ℕ))
          → lookup e.name ≡ d
          → export_values component lookup es ≡ r
          → elim d [
            | none ↦ none
            | some h ↦ elim h.is_defined [
              | false ↦ none
              | true ↦ elim r [ none ↦ none | some vs ↦ some (export_value component h ∷ vs) ]
            ]
          ]
            ≡ some vs
          → (h : Definition) × (vs' : List ℕ) × (lookup e.name ≡ some h)
            × (h.is_defined ≡ true)
            × (export_values component lookup es ≡ some vs')
            × (vs ≡ export_value component h ∷ vs')
      go none r p q d = cc
      go (some h) r p q d = known h h.is_defined r p refl q d

  -- The loop writes the entries' bytes from `Base` on, and collects their values.
  pub emit_chain_frame :
      (es : List ExportEntry) (pre mid post : List ℕ) (m : List ℕ) (b a : ℕ) (done_vs vs : List ℕ)
      → m ≡ pre ++ (mid ++ post)
      → b ≡ length pre
      → export_values component lookup es ≡ some vs
      → length mid ≡ length (names_region es)
      → a + length (names_region es) < 2 ^ 32
      → emit_chain component lookup es (emit m b a done_vs)
        ≡ done (
            emit
              (pre ++ (names_region es ++ post))
              (b + length (names_region es))
              (a + length (names_region es))
              (done_vs ++ vs))
  unfolding emit_chain
  emit_chain_frame [] pre [] post m b a done_vs vs at here defined size fits = ap done (
      emit_eq at (omega arith) (omega arith)
        (sym (append-nil done_vs) ∙ ap (λ t. done_vs ++ t) (some-injective [] vs defined)))
  emit_chain_frame [] pre (x ∷ mid) post m b a done_vs vs at here defined size fits =
      absurd (omega arith)
  emit_chain_frame (e ∷ es) pre mid post m b a done_vs vs at here defined size fits =
      let (h, vs', found, known, rest, split) = values-some e es vs defined in
      let n = length e.name + 2 in
      let cell = name_cell e.name in
      let sizes : length (names_region (e ∷ es)) ≡ n + length (names_region es) =
        length-append cell (names_region es)
        ∙ ap (λ (t : ℕ). t + length (names_region es)) (length-name_cell e.name) in
      let written : put_name m b e.name ≡ done (pre ++ (cell ++ (drop n mid ++ post))) =
        ap₂ (λ (t : List ℕ) (k : ℕ). put_name t k e.name) (at ∙ cut n pre mid post) here
        ∙ put_name_frame pre (take n mid) (drop n mid ++ post) e.name
            (length-take n mid (omega (arith, sizes))) in
      let m' = pre ++ (cell ++ (drop n mid ++ post)) in
      emit_chain-some e es (emit m b a done_vs) h found known
      ∙ ap
          (λ r. r >>= (λ m.
            emit_chain component lookup es (emit_next component e h (emit m b a done_vs) m)))
          written
      ∙ emit_chain_frame es (pre ++ cell) (drop n mid) post m' (b + n) (u32 (a + n))
          (done_vs ++ export_value component h ∷ []) vs'
          (sym (append_assoc pre cell (drop n mid ++ post)))
          (omega (arith, length-append pre cell, length-name_cell e.name)) rest
          (omega (arith, length-drop n mid, sizes)) (omega (arith, sizes))
      ∙ ap done (
          emit_eq (regroup pre cell (names_region es) post) (omega (arith, sizes))
            (omega (arith, sizes))
            (append_assoc done_vs (export_value component h ∷ []) vs'
              ∙ ap (λ t. done_vs ++ t) (sym split)))
