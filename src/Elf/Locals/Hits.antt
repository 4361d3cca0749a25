-- ===== src/Elf/Locals/Hits.antt =====
-- The GOT counts of local symbols over the whole loops of `riscv_elf_check_relocs` and `riscv_elf_gc_sweep_hook`
-- (elf32-riscv.c).
use soft_hier_release_test.Base.{
  ℕ, ◌+◌, ◌-◌, Bool, true, false, ◌&&◌, Option, none, some, List, [], ◌∷◌, ltb, ◌==◌, if◌then◌else◌,
  ◌≡◌, refl, sym, ap, ◌∙◌, arith,
}
use soft_hier_release_test.Memory.{Outcome, done, failed, ◌>>=◌}
use soft_hier_release_test.Memory.Frame.{done-step, done-injective}
use soft_hier_release_test.Bfd.{Rela}
use soft_hier_release_test.Elf.{
  Input, Host, LinkState, update_refs, update_symbol, symbol_of, follow,
}
use soft_hier_release_test.Elf.Check.{
  set_non_ir_ref, check_type, pre_import, check_reloc, check_loop,
}
use soft_hier_release_test.Elf.Sweep.{forget_section, sweep_reloc, sweep_loop}
use soft_hier_release_test.Elf.Counts.{got_weight}
use soft_hier_release_test.Elf.Locals.{
  local_count, at_local, Tallied, Untallied, type-Tallied, import-kept, sweep_type-Untallied,
}

-- The number of GOT relocations against the local symbol `k`.
unfoldable pub local_hits : Input → ℕ → List Rela → ℕ
local_hits input k [] = 0
local_hits input k (rel ∷ rels) =
    (if ltb rel.r_sym input.sh_info && (rel.r_sym == k) then got_weight rel.r_type else 0)
    + local_hits input k rels

-- The counts of the local symbols grow by these numbers.
abbrev pub LocallyGrown : Input → List Rela → LinkState → LinkState → Type 0
LocallyGrown input rels s t =
    (k : ℕ) → local_count t.local_got k ≡ local_count s.local_got k + local_hits input k rels

module _ (input : Input) where
  at_local-symbol_of :
      (n : ℕ) (h : Option ℕ) (k w : ℕ)
      → symbol_of input n ≡ done h
      → at_local h n k w ≡ (if ltb n input.sh_info && (n == k) then w else 0)
  unfolding symbol_of
  at_local-symbol_of n h k w = choose (ltb n input.sh_info)
    where
      choose :
          (b : Bool)
          → (if b
              then done none
              else follow input.symbols input.depth (input.sym_hashes (n - input.sh_info))
                >>= (λ i. done (some i)))
            ≡ done h
          → at_local h n k w ≡ (if b && (n == k) then w else 0)
      choose true e = ap (λ (x : Option ℕ). at_local x n k w) (sym (done-injective none h e))
      choose false e =
          let (i, here, last) =
            done-step (follow input.symbols input.depth (input.sym_hashes (n - input.sh_info)))
              (λ i. done (some i)) h e in
          ap (λ (x : Option ℕ). at_local x n k w) (sym (done-injective (some i) h last))

  forget-kept :
      (h : Option ℕ) (s : LinkState)
      → s.local_got ≡ (update_symbol h (forget_section input.sec) s).local_got
  forget-kept none s = refl
  forget-kept (some i) s = refl

  sweep_reloc-Untallied :
      (rel : Rela) (s t : LinkState)
      → sweep_reloc input rel s ≡ done t
      → (h : Option ℕ) × (symbol_of input rel.r_sym ≡ done h)
        × Untallied h rel.r_sym (got_weight rel.r_type) s t
  unfolding sweep_reloc
  sweep_reloc-Untallied rel s t e =
      let (h, found, last) = done-step (symbol_of input rel.r_sym) _ t e in
      let m = update_symbol h (forget_section input.sec) s in
      (
        h,
        found,
        λ k.
            ap (λ (x : LinkState). local_count x.local_got k) (sym (done-injective _ t last))
            ∙ sweep_type-Untallied input.pic rel.r_type h rel.r_sym m k
            ∙ ap
                (λ (l : Option (ℕ → ℕ)).
                  local_count l k - at_local h rel.r_sym k (got_weight rel.r_type))
                (sym (forget-kept h s)),
      )

  -- The sweep takes the numbers back.
  pub sweep_loop-locals :
      (rels : List Rela) (s t : LinkState)
      → sweep_loop input rels s ≡ done t
      → (k : ℕ) → local_count t.local_got k ≡ local_count s.local_got k - local_hits input k rels
  unfolding sweep_loop local_hits
  sweep_loop-locals [] s t e k =
      ap (λ (x : LinkState). local_count x.local_got k) (sym (done-injective s t e)) ∙ omega arith
  sweep_loop-locals (rel ∷ rels) s t e k =
      let (m, first, rest) = done-step (sweep_reloc input rel s) (sweep_loop input rels) t e in
      let (h, found, fewer) = sweep_reloc-Untallied rel s m first in
      omega (
        arith,
        fewer k,
        sweep_loop-locals rels m t rest k,
        at_local-symbol_of rel.r_sym h k (got_weight rel.r_type) found,
      )

  module _ (host : Host) where
    if_done :
        (b : Bool) (o : Outcome LinkState) (t : LinkState)
        → (if b then o else failed) ≡ done t
        → o ≡ done t
    if_done true o t e = e
    if_done false o t e = cc

    found-Tallied :
        (rel : Rela) (h : Option ℕ) (s t : LinkState)
        → (elim h [
          | none ↦ done s
          | some i ↦ pre_import input host i rel (update_refs i set_non_ir_ref s)
        ])
            >>= check_type input host rel.r_type h rel
          ≡ done t
        → Tallied h rel.r_sym (got_weight rel.r_type) s t
    found-Tallied rel none s t e k = type-Tallied input host rel.r_type none rel s t e k
    found-Tallied rel (some i) s t e k =
        let m = update_refs i set_non_ir_ref s in
        let (m', entered, e') =
          done-step (pre_import input host i rel m) (check_type input host rel.r_type (some i) rel)
            t e in
        type-Tallied input host rel.r_type (some i) rel m' t e' k
        ∙ ap (λ (l : Option (ℕ → ℕ)). local_count l k + 0)
            (sym (import-kept input host i rel m m' entered))

    check_reloc-Tallied :
        (rel : Rela) (s t : LinkState)
        → check_reloc input host rel s ≡ done t
        → (h : Option ℕ) × (symbol_of input rel.r_sym ≡ done h)
          × Tallied h rel.r_sym (got_weight rel.r_type) s t
    unfolding check_reloc
    check_reloc-Tallied rel s t e =
        let (h, found, e') = done-step (symbol_of input rel.r_sym) _ t (if_done _ _ t e) in
        (h, found, found-Tallied rel h s t e')

    pub check_loop-LocallyGrown :
        (rels : List Rela) (s t : LinkState)
        → check_loop input host rels s ≡ done t
        → LocallyGrown input rels s t
    unfolding check_loop local_hits
    check_loop-LocallyGrown [] s t e k =
        ap (λ (x : LinkState). local_count x.local_got k) (sym (done-injective s t e)) ∙ omega arith
    check_loop-LocallyGrown (rel ∷ rels) s t e k =
        let (m, first, rest) =
          done-step (check_reloc input host rel s) (check_loop input host rels) t e in
        let (h, found, more) = check_reloc-Tallied rel s m first in
        omega (
          arith,
          more k,
          check_loop-LocallyGrown rels m t rest k,
          at_local-symbol_of rel.r_sym h k (got_weight rel.r_type) found,
        )
