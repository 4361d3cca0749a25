-- ===== src/Elf/Relocate/Imports/Registered.antt =====
-- The import table that `riscv_elf_relocate_section` (elf32-riscv.c) leaves.
use soft_hier_release_test.Base.{
  ℕ, Bool, true, false, not, ◌||◌, Option, none, some, List, [], ◌∷◌, ltb, if◌then◌else◌, ◌≡◌, refl,
  sym, ap, ◌∙◌,
}
use soft_hier_release_test.Memory.{Outcome, done, ◌>>=◌}
use soft_hier_release_test.Memory.Frame.{done-step, done-injective}
use soft_hier_release_test.Bfd.{Rela}
use soft_hier_release_test.Pulp.Import.{ImportState, insert_import_entry}
use soft_hier_release_test.Elf.{Symbol, Section, follow}
use soft_hier_release_test.Elf.Reloc.Pcrel.{init_pcrel_relocs, resolve_pcrel_lo_relocs}
use soft_hier_release_test.Elf.Relocate.{
  RelocHost, Relocating, import_section, import_symbol, enter_reloc, register_import_reloc,
}
use soft_hier_release_test.Elf.Relocate.Turn.{
  Answer, next, stop, relocate_resolved, is_vtable, find_global, relocate_global, relocate_turn,
  relocate_loop, finish_section, relocate_section,
}
use soft_hier_release_test.Elf.Relocate.Imports.Switch.{state_after, relocate_resolved-Same}

module _ (host : RelocHost) where
  -- The entry of a reference to the symbol, if it is an import.
  unfoldable pub register_symbol :
      Rela → Symbol → Option Section → ImportState → Outcome ImportState
  register_symbol rel h none s = done s
  register_symbol rel h (some sec) s =
      insert_import_entry host.memory host.memory host.memory h.string rel host.output_offset false
        s
      >>= (λ r. done r.1)

  -- The entry for a relocation against a global symbol.
  unfoldable pub register_one : Rela → ImportState → Outcome ImportState
  register_one rel s =
      if is_vtable rel.r_type || ltb rel.r_sym host.sh_info || not host.has_hashes
      then done s
      else (do
        i ← follow host.symbols host.depth (import_symbol host rel.r_sym)
        register_symbol rel (host.symbols i) (import_section host (host.symbols i)) s)

  -- The entries for all relocations, in their order.
  unfoldable pub register_all : List Rela → ImportState → Outcome ImportState
  register_all [] s = done s
  register_all (rel ∷ rels) s = register_one rel s >>= register_all rels

  -- A registered symbol.
  enter_reloc-registers :
      (rel : Rela) (h : Symbol) (o : Option Section) (s : Relocating) (x : Bool × Relocating)
      → enter_reloc host rel h o s ≡ done x
      → register_symbol rel h o s.imports ≡ done x.1.imports
  unfolding enter_reloc register_symbol
  enter_reloc-registers rel h none s x e =
      ap (λ (y : Bool × Relocating). done y.1.imports) (done-injective (false, s) x e)
  enter_reloc-registers rel h (some sec) s x e =
      let (r, here, last) =
        done-step
          (insert_import_entry host.memory host.memory host.memory h.string rel host.output_offset
            false s.imports)
          (λ q. done (true, record s { imports = q.1; kept = sec.id ∷ s.kept })) x e in
      ap (λ (o : Outcome (Bool × ImportState)). o >>= (λ q. done q.1)) here
      ∙ ap (λ (y : Bool × Relocating). done y.1.imports) (done-injective _ x last)

  abbrev when_hashes : Rela → ImportState → Bool → Outcome ImportState
  when_hashes rel s b = if not b then done s else (do
    i ← follow host.symbols host.depth (import_symbol host rel.r_sym)
    register_symbol rel (host.symbols i) (import_section host (host.symbols i)) s)

  when_hashes-registers :
      (b : Bool) (rel : Rela) (s : Relocating) (x : Bool × Relocating)
      → (if b
          then (do
            i ← follow host.symbols host.depth (import_symbol host rel.r_sym)
            enter_reloc host rel (host.symbols i) (import_section host (host.symbols i)) s)
          else done (false, s))
        ≡ done x
      → when_hashes rel s.imports b ≡ done x.1.imports
  when_hashes-registers false rel s x e =
      ap (λ (y : Bool × Relocating). done y.1.imports) (done-injective (false, s) x e)
  when_hashes-registers true rel s x e =
      let (i, here, last) =
        done-step (follow host.symbols host.depth (import_symbol host rel.r_sym))
          (λ i. enter_reloc host rel (host.symbols i) (import_section host (host.symbols i)) s) x
          e in
      ap
        (λ (o : Outcome ℕ). o >>= (λ i.
          register_symbol rel (host.symbols i) (import_section host (host.symbols i)) s.imports))
        here
      ∙ enter_reloc-registers rel (host.symbols i) (import_section host (host.symbols i)) s x last

  relocate_global-registers :
      (rel : Rela) (s : Relocating) (a : Answer)
      → relocate_global host rel s ≡ done a
      → when_hashes rel s.imports host.has_hashes ≡ done (state_after a).imports
  unfolding relocate_global register_import_reloc
  relocate_global-registers rel s a e =
      let (x, first, then_) =
        done-step (register_import_reloc host rel s)
          (λ x.
            find_global host rel
            >>= (λ h. relocate_resolved host x.0 (some h) (host.resolve_global rel h) x.1))
          a e in
      let (h, found, last) =
        done-step (find_global host rel)
          (λ h. relocate_resolved host x.0 (some h) (host.resolve_global rel h) x.1) a then_ in
      when_hashes-registers host.has_hashes rel s x first
      ∙ ap done
          (sym (relocate_resolved-Same host x.0 (some h) (host.resolve_global rel h) x.1 a last))

  relocate_turn-registers :
      (rel : Rela) (s : Relocating) (a : Answer)
      → relocate_turn host rel s ≡ done a
      → register_one rel s.imports ≡ done (state_after a).imports
  unfolding relocate_turn register_one
  relocate_turn-registers rel s a = choose (is_vtable rel.r_type) (ltb rel.r_sym host.sh_info)
    where
      choose :
          (v l : Bool)
          → (if v
              then done (next s)
              else if l
              then relocate_resolved host false none
                  (record (host.resolve_local rel) { warned = false })
                  s
              else relocate_global host rel s)
            ≡ done a
          → (if v || l || not host.has_hashes then done s.imports else (do
            i ← follow host.symbols host.depth (import_symbol host rel.r_sym)
            register_symbol rel (host.symbols i) (import_section host (host.symbols i)) s.imports))
            ≡ done (state_after a).imports
      choose true l e =
          ap (λ (y : Answer). done (state_after y).imports) (done-injective (next s) a e)
      choose false true e = ap done (
          sym (
            relocate_resolved-Same host false none
              (record (host.resolve_local rel) { warned = false }) s a e))
      choose false false e = relocate_global-registers rel s a e

  abbrev after_turn : List Rela → Answer → Outcome (Bool × Relocating)
  after_turn rels (next u) = relocate_loop host rels u
  after_turn rels (stop u) = done (false, u)

  -- A loop that comes to its end has not stopped at a turn.
  after_turn-registers :
      (rels : List Rela) (t : Relocating) (a : Answer)
      → ((u : Relocating)
          → relocate_loop host rels u ≡ done (true, t)
          → register_all rels u.imports ≡ done t.imports)
      → after_turn rels a ≡ done (true, t)
      → register_all rels (state_after a).imports ≡ done t.imports
  after_turn-registers rels t (next u) others e = others u e
  after_turn-registers rels t (stop u) others e =
      cc (ap (λ (y : Bool × Relocating). y.0) (done-injective (false, u) (true, t) e))

  relocate_loop-registers :
      (rels : List Rela) (s t : Relocating)
      → relocate_loop host rels s ≡ done (true, t)
      → register_all rels s.imports ≡ done t.imports
  unfolding relocate_loop register_all
  relocate_loop-registers [] s t e =
      ap (λ (y : Bool × Relocating). done y.1.imports) (done-injective (true, s) (true, t) e)
  relocate_loop-registers (rel ∷ rels) s t e =
      let (a, here, last) = done-step (relocate_turn host rel s) (after_turn rels) (true, t) e in
      ap (λ (o : Outcome ImportState). o >>= register_all rels)
        (relocate_turn-registers rel s a here)
      ∙ after_turn-registers rels t a (λ u. relocate_loop-registers rels u t) last

  -- The end keeps the table, and does not turn a stop into a success.
  finish_section-imports :
      (r : Bool × Relocating) (t : Relocating)
      → finish_section host r ≡ done (true, t)
      → (r.0 ≡ true) × (r.1.imports ≡ t.imports)
  unfolding finish_section
  finish_section-imports (false, s) t e =
      cc (ap (λ (y : Bool × Relocating). y.0) (done-injective (false, s) (true, t) e))
  finish_section-imports (true, s) t e =
      let (r, here, last) =
        done-step
          (resolve_pcrel_lo_relocs host.codec host.htab_find host.sec_addr s.pcrel s.contents)
          (λ r. done (true, record s { contents = r.1 })) (true, t) e in
      (refl, ap (λ (y : Bool × Relocating). y.1.imports) (done-injective _ (true, t) last))

  -- If the relocation of a section succeeds, the import table is what it was, with the entries for those of the
  -- relocations that are against an imported symbol, inserted in the order of the relocations; no other
  -- relocation, and no case of the `switch`, changes it.
  pub relocate_section-register_all :
      (rels : List Rela) (s t : Relocating)
      → relocate_section host rels s ≡ done (true, t)
      → register_all rels s.imports ≡ done t.imports
  unfolding relocate_section
  relocate_section-register_all rels s t e =
      let (p, made, then_) =
        done-step (init_pcrel_relocs host.table_made)
          (λ p. relocate_loop host rels (record s { pcrel = p }) >>= finish_section host) (true, t)
          e in
      let (r, looped, last) =
        done-step (relocate_loop host rels (record s { pcrel = p })) (finish_section host) (true, t)
          then_ in
      let (success, kept) = finish_section-imports r t last in
      relocate_loop-registers rels (record s { pcrel = p }) r.1
        (looped ∙ ap (λ (b : Bool). done (b, r.1)) success)
      ∙ ap done kept
