-- ===== src/Elf/Restore.antt =====
-- Checking the references of a section and sweeping them again (elf32-riscv.c): what is left of the counts.
use soft_hier_release_test.Base.{
  ℕ, ◌+◌, ◌-◌, Bool, true, false, Option, none, some, List, [], ◌∷◌, if◌then◌else◌, ◌≡◌, refl, sym,
  ap, ◌∙◌, arith,
}
use soft_hier_release_test.Memory.{Outcome, done, failed, fault, ◌>>=◌}
use soft_hier_release_test.Memory.Frame.{done-step}
use soft_hier_release_test.Bfd.{
  RelocType, Rela, r_tls_gd_hi20, r_tls_got_hi20, r_got_hi20, r_call_plt, r_call, r_jal, r_branch,
  r_rvc_branch, r_rvc_jump, r_pcrel_hi20, r_hi20, r_copy, r_jump_slot, r_relative, r_64, r_32,
}
use soft_hier_release_test.Elf.{Input, Host, LinkState, put, update_refs, update_symbol, symbol_of}
use soft_hier_release_test.Elf.Check.{
  set_non_ir_ref, check_type, pre_import, check_reloc, check_loop, check_relocs,
}
use soft_hier_release_test.Elf.Sweep.{
  forget_section, sweep_got, sweep_plt, sweep_type, sweep_reloc, sweep_loop, gc_sweep_hook,
}
use soft_hier_release_test.Elf.Counts.{
  got_weight, plt_weight, tprel_weight, check_weight, check_weight-sum, at_symbol, Counted,
  Counted-self, idle-Counted, Counted-update, type-Counted, import-Counted,
}
use soft_hier_release_test.Elf.Locals.{local_count}
use soft_hier_release_test.Elf.Locals.Hits.{
  LocallyGrown, sweep_loop-locals, check_loop-LocallyGrown,
}

-- The symbol of a relocation, where there is one.
abbrev pub target : Outcome (Option ℕ) → Option ℕ
target (done h) = h
target failed = none
target fault = none

-- The sum of the weights of the relocations against symbol `i`.
abbrev pub hits : Input → (RelocType → ℕ) → ℕ → List Rela → ℕ
hits input weight i [] = 0
hits input weight i (rel ∷ rels) =
    at_symbol (target (symbol_of input rel.r_sym)) i (weight rel.r_type) + hits input weight i rels

-- Every symbol of the list is found.
abbrev Resolved : Input → List Rela → Type 0
Resolved input [] = Unit {0}
Resolved input (rel ∷ rels) =
    ((h : Option ℕ) × (symbol_of input rel.r_sym ≡ done h)) × Resolved input rels

-- The counts of every symbol shrink by `g` and `p` if it is `h`, but not below 0.
abbrev Swept : Option ℕ → ℕ → ℕ → LinkState → LinkState → Type 0
Swept h g p s t =
    (i : ℕ)
    → ((t.refs i).got_refcount ≡ (s.refs i).got_refcount - at_symbol h i g)
      × ((t.refs i).plt_refcount ≡ (s.refs i).plt_refcount - at_symbol h i p)

got-Swept : (h : Option ℕ) (n : ℕ) (s : LinkState) → Swept h 1 0 s (sweep_got h n s)
unfolding sweep_got
got-Swept none n s i = (ground arith, ground arith)
got-Swept (some h) n s i = (ground arith, ground arith)

sweep_plt-Swept : (h : Option ℕ) (s : LinkState) → Swept h 0 1 s (sweep_plt h s)
unfolding sweep_plt
sweep_plt-Swept none s i = (omega arith, omega arith)
sweep_plt-Swept (some h) s i = (ground arith, ground arith)

none-Swept : (h : Option ℕ) (s : LinkState) → Swept h 0 0 s s
none-Swept none s i = (omega arith, omega arith)
none-Swept (some h) s i = (ground arith, ground arith)

unless_pic-Swept :
    (pic : Bool) (h : Option ℕ) (s : LinkState)
    → Swept h 0 (if pic then 0 else 1) s (if pic then s else sweep_plt h s)
unless_pic-Swept true h s = none-Swept h s
unless_pic-Swept false h s = sweep_plt-Swept h s

type-Swept :
    (pic : Bool) (r_type : RelocType) (h : Option ℕ) (n : ℕ) (s : LinkState)
    → Swept h (got_weight r_type) (plt_weight pic r_type) s (sweep_type pic r_type h n s)
unfolding sweep_type
type-Swept pic r_got_hi20 h n s = got-Swept h n s
type-Swept pic r_tls_got_hi20 h n s = got-Swept h n s
type-Swept pic r_tls_gd_hi20 h n s = got-Swept h n s
type-Swept pic r_hi20 h n s = unless_pic-Swept pic h s
type-Swept pic r_pcrel_hi20 h n s = unless_pic-Swept pic h s
type-Swept pic r_copy h n s = unless_pic-Swept pic h s
type-Swept pic r_jump_slot h n s = unless_pic-Swept pic h s
type-Swept pic r_relative h n s = unless_pic-Swept pic h s
type-Swept pic r_64 h n s = unless_pic-Swept pic h s
type-Swept pic r_32 h n s = unless_pic-Swept pic h s
type-Swept pic r_branch h n s = unless_pic-Swept pic h s
type-Swept pic r_call h n s = unless_pic-Swept pic h s
type-Swept pic r_jal h n s = unless_pic-Swept pic h s
type-Swept pic r_rvc_branch h n s = unless_pic-Swept pic h s
type-Swept pic r_rvc_jump h n s = unless_pic-Swept pic h s
type-Swept pic r_call_plt h n s = sweep_plt-Swept h s
type-Swept pic _ h n s = none-Swept h s

-- The counts after a whole loop, as sums over its relocations.
abbrev pub Grown : Input → (RelocType → ℕ) → List Rela → LinkState → LinkState → Type 0
Grown input weight rels s t =
    (i : ℕ)
    → ((t.refs i).got_refcount ≡ (s.refs i).got_refcount + hits input got_weight i rels)
      × ((t.refs i).plt_refcount ≡ (s.refs i).plt_refcount + hits input weight i rels)

module _ (input : Input) where
  -- The part of a turn before the `switch`.
  forget_section-Counted :
      (h : Option ℕ) (s : LinkState)
      → Counted h 0 0 s (update_symbol h (forget_section input.sec) s)
  forget_section-Counted none s i = (omega arith, omega arith)
  forget_section-Counted (some h) s i = (ground arith, ground arith)

  turn-Swept :
      (rel : Rela) (h : Option ℕ) (s : LinkState)
      → symbol_of input rel.r_sym ≡ done h
      → (t : LinkState) × (sweep_reloc input rel s ≡ done t)
        × Swept
            (target (symbol_of input rel.r_sym))
            (got_weight rel.r_type)
            (plt_weight input.pic rel.r_type)
            s
            t
  unfolding sweep_reloc
  turn-Swept rel h s found =
      let m = update_symbol h (forget_section input.sec) s in
      let idle = forget_section-Counted h s in
      let last = type-Swept input.pic rel.r_type h rel.r_sym m in
      let t = sweep_type input.pic rel.r_type h rel.r_sym m in
      (
        t,
        rw found,
        rw found (
            after_idle h (got_weight rel.r_type) (plt_weight input.pic rel.r_type) s m t idle last),
      )
    where
      after_idle :
          (h : Option ℕ) (g p : ℕ) (s m t : LinkState)
          → Counted h 0 0 s m
          → Swept h g p m t
          → Swept h g p s t
      after_idle none g p s m t first second i =
          (omega (arith, (first i).0, (second i).0), omega (arith, (first i).1, (second i).1))
      after_idle (some h) g p s m t first second i =
          (ground (arith, (first i).0, (second i).0), ground (arith, (first i).1, (second i).1))

  -- The loop of the sweep ends, and takes every sum back.
  loop-Swept :
      (rels : List Rela) (s : LinkState)
      → Resolved input rels
      → (t : LinkState) × (sweep_loop input rels s ≡ done t)
        × ((i : ℕ)
            → ((t.refs i).got_refcount ≡ (s.refs i).got_refcount - hits input got_weight i rels)
              × ((t.refs i).plt_refcount
                  ≡ (s.refs i).plt_refcount - hits input (plt_weight input.pic) i rels))
  unfolding sweep_loop
  loop-Swept [] s found = (s, refl, λ i. (omega arith, omega arith))
  loop-Swept (rel ∷ rels) s ((h, found), rest) =
      let (m, turned, fewer) = turn-Swept rel h s found in
      let (t, looped, left) = loop-Swept rels m rest in
      (
        t,
        rw (turned, looped),
        λ i. (omega (arith, (fewer i).0, (left i).0), omega (arith, (fewer i).1, (left i).1)),
      )

if_not : (b : Bool) (x y : Outcome LinkState) → b ≡ false → (if b then x else y) ≡ y
if_not true x y e = cc
if_not false x y e = refl

module _ (input : Input) (host : Host) where
  set_non_ir_ref-Counted :
      (h : ℕ) (s : LinkState) → Counted (some h) 0 0 s (update_refs h set_non_ir_ref s)
  set_non_ir_ref-Counted h s = Counted-update h 0 0 set_non_ir_ref s (omega arith) (omega arith)

  if_done :
      (b : Bool) (o : Outcome LinkState) (t : LinkState)
      → (if b then o else failed) ≡ done t
      → o ≡ done t
  if_done true o t e = e
  if_done false o t e = cc

  -- One turn of the check, behind the search for the symbol.
  found-Counted :
      (rel : Rela) (h : Option ℕ) (s t : LinkState)
      → (elim h [
        | none ↦ done s
        | some i ↦ pre_import input host i rel (update_refs i set_non_ir_ref s)
      ])
          >>= check_type input host rel.r_type h rel
        ≡ done t
      → Counted h (got_weight rel.r_type) (check_weight input.pic rel.r_type) s t
  found-Counted rel none s t e = type-Counted input host rel.r_type none rel s t e
  found-Counted rel (some i) s t e =
      let m = update_refs i set_non_ir_ref s in
      let g = got_weight rel.r_type in
      let p = check_weight input.pic rel.r_type in
      let (m', entered, e') =
        done-step (pre_import input host i rel m) (check_type input host rel.r_type (some i) rel) t
          e in
      idle-Counted (some i) g p s m t (set_non_ir_ref-Counted i s) (
        idle-Counted (some i) g p m m' t
          (Counted-self (some i) m m' (import-Counted input host i rel m m' entered))
          (type-Counted input host rel.r_type (some i) rel m' t e'))

  turn-Counted :
      (rel : Rela) (s t : LinkState)
      → check_reloc input host rel s ≡ done t
      → (h : Option ℕ) × (symbol_of input rel.r_sym ≡ done h)
        × Counted h (got_weight rel.r_type) (check_weight input.pic rel.r_type) s t
  unfolding check_reloc
  turn-Counted rel s t e =
      let (h, found, e') = done-step (symbol_of input rel.r_sym) _ t (if_done _ _ t e) in
      (h, found, found-Counted rel h s t e')

  -- The loop of the check: every symbol is found, and every sum is added.
  loop-Counted :
      (rels : List Rela) (s t : LinkState)
      → check_loop input host rels s ≡ done t
      → Resolved input rels × Grown input (check_weight input.pic) rels s t
  unfolding check_loop
  loop-Counted [] s t e = (tt, λ i. (ground arith, ground arith))
  loop-Counted (rel ∷ rels) s t e =
      let (m, turned, looped) =
        done-step (check_reloc input host rel s) (check_loop input host rels) t e in
      let (h, found, more) = turn-Counted rel s m turned in
      let (rest, grown) = loop-Counted rels m t looped in
      (
        ((h, found), rest),
        λ i.
            rw found
              (omega (arith, (more i).0, (grown i).0), omega (arith, (more i).1, (grown i).1)),
      )

  -- Checking a section in a link that is not relocatable, if the answer is TRUE: the GOT count of
  -- each global symbol grows by the number of its GOT relocations, and its PLT count by that of its PLT
  -- calls and, unless the output is position-independent, of its other references that may need a
  -- PLT entry. The GOT count of each local symbol of the file grows by the number of the GOT relocations
  -- with its index, which count as 0 before the array of counts is made. No other count changes.
  pub check_relocs-Grown :
      (rels : List Rela) (s t : LinkState)
      → input.relocatable ≡ false
      → check_relocs input host rels s ≡ done t
      → Grown input (check_weight input.pic) rels s t × LocallyGrown input rels s t
  unfolding check_relocs
  check_relocs-Grown rels s t final e =
      let looped = sym (if_not input.relocatable _ _ final) ∙ e in
      let start : LinkState = record s { sreloc = false } in
      ((loop-Counted rels start t looped).1, check_loop-LocallyGrown input host rels start t looped)

  hits-sum :
      (rels : List Rela) (i : ℕ)
      → hits input (check_weight input.pic) i rels
        ≡ hits input (plt_weight input.pic) i rels + hits input (tprel_weight input.pic) i rels
  hits-sum [] i = omega arith
  hits-sum (rel ∷ rels) i = omega (
    arith,
    hits-sum rels i,
    at_symbol-sum (target (symbol_of input rel.r_sym)) (plt_weight input.pic rel.r_type)
        (tprel_weight input.pic rel.r_type),
    ap (at_symbol (target (symbol_of input rel.r_sym)) i) (check_weight-sum input.pic rel.r_type),
  )
    where
      at_symbol-sum :
          (h : Option ℕ) (a b : ℕ) → at_symbol h i (a + b) ≡ at_symbol h i a + at_symbol h i b
      at_symbol-sum none a b = omega arith
      at_symbol-sum (some h) a b = ground arith

  -- Sweeping a section that has been checked with the answer TRUE, in a link that is not
  -- relocatable: `riscv_elf_gc_sweep_hook` answers TRUE and takes every GOT count, of global symbols and of local
  -- ones, back to what it was before the check. The PLT counts come back as well, but for the `TPREL_HI20` relocations of
  -- an output that is not position-independent, which the check counts and the sweep does not take
  -- back.
  pub sweep-check :
      (rels : List Rela) (s t : LinkState)
      → input.relocatable ≡ false
      → check_relocs input host rels s ≡ done t
      → (u : LinkState) × (gc_sweep_hook input rels t ≡ done u)
        × ((i : ℕ)
            → ((u.refs i).got_refcount ≡ (s.refs i).got_refcount)
              × ((u.refs i).plt_refcount
                  ≡ (s.refs i).plt_refcount + hits input (tprel_weight input.pic) i rels))
        × ((k : ℕ) → local_count u.local_got k ≡ local_count s.local_got k)
  unfolding check_relocs gc_sweep_hook
  sweep-check rels s t final e =
      let looped = sym (if_not input.relocatable _ _ final) ∙ e in
      let (found, grown) = loop-Counted rels (record s { sreloc = false }) t looped in
      let more = check_loop-LocallyGrown input host rels (record s { sreloc = false }) t looped in
      let cleared : LinkState = record t { local_dynrel = put t.local_dynrel input.sec [] } in
      let (u, swept, left) = loop-Swept input rels cleared found in
      (
        u,
        if_not input.relocatable _ _ final ∙ swept,
        λ i. (
          omega (arith, (left i).0, (grown i).0),
          omega (arith, (left i).1, (grown i).1, hits-sum rels i),
        ),
        λ k. omega (arith, sweep_loop-locals input rels cleared u swept k, more k),
      )
