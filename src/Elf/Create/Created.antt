-- ===== src/Elf/Create/Created.antt =====
-- What the making of the dynamic sections (elf32-riscv.c) leaves.
use soft_hier_release_test.Base.{
  ℕ, Bool, true, false, not, ◌&&◌, ◌||◌, none, some, if◌then◌else◌, ◌≡◌, refl, sym, ap, ◌∙◌,
}
use soft_hier_release_test.Memory.{done, fault}
use soft_hier_release_test.Memory.Frame.{done-injective}
use soft_hier_release_test.Elf.Dynamic.{gotplt_header_size}
use soft_hier_release_test.Elf.Create.{
  DynSections, CreateHost, has, define_got_sym, make_gotplt, make_got, create_got_section,
  make_tdata, is_missing, create_dynamic_sections,
}

module _ (host : CreateHost) where
  -- The GOT and its part for the PLT, from `s` to `t`.
  pub IsGot : DynSections → DynSections → Type 0
  IsGot s t =
      (t.sgot ≡ some host.got_header_size)
      × (t.sgotplt ≡ (if host.want_got_plt then some gotplt_header_size else s.sgotplt))

  -- Runs that end with TRUE.
  Ends : Bool × DynSections → DynSections → Type 0
  Ends r t = r ≡ (true, t)

  abbrev sym_if : Bool → DynSections → Bool × DynSections
  sym_if b s = if b then (has host.linkage_sym, record s { hgot = host.linkage_sym }) else (true, s)

  sym_if-keeps :
      (b : Bool) (s t : DynSections)
      → Ends (sym_if b s) t
      → (s.sgot ≡ t.sgot) × (s.sgotplt ≡ t.sgotplt)
  unfolding Ends
  sym_if-keeps true s t e =
      (ap (λ (r : Bool × DynSections). r.1.sgot) e, ap (λ (r : Bool × DynSections). r.1.sgotplt) e)
  sym_if-keeps false s t e =
      (ap (λ (r : Bool × DynSections). r.1.sgot) e, ap (λ (r : Bool × DynSections). r.1.sgotplt) e)

  abbrev gotplt_if : Bool → Bool → DynSections → Bool × DynSections
  gotplt_if want made s =
      if not want
      then sym_if host.want_got_sym s
      else if made
      then sym_if host.want_got_sym (record s { sgotplt = some gotplt_header_size })
      else (false, s)

  gotplt_if-makes :
      (want made : Bool) (s t : DynSections)
      → Ends (gotplt_if want made s) t
      → (t.sgot ≡ s.sgot) × (t.sgotplt ≡ (if want then some gotplt_header_size else s.sgotplt))
  unfolding Ends
  gotplt_if-makes false made s t e =
      let (got, gotplt) = sym_if-keeps host.want_got_sym s t e in (sym got, sym gotplt)
  gotplt_if-makes true true s t e =
      let (got, gotplt) =
        sym_if-keeps host.want_got_sym (record s { sgotplt = some gotplt_header_size }) t e in
      (sym got, sym gotplt)
  gotplt_if-makes true false s t e = cc (ap (λ (r : Bool × DynSections). r.0) e)

  make_got-IsGot : (s t : DynSections) → Ends (make_got host s) t → IsGot s t
  unfolding make_got make_gotplt define_got_sym Ends IsGot
  make_got-IsGot s t e = choose host.got_made e
    where
      choose :
          (b : Bool)
          → Ends
              (if◌then◌else◌ {A = Bool × DynSections} b
                (gotplt_if host.want_got_plt host.gotplt_made
                  (record s { sgot = some host.got_header_size }))
                (false, s))
              t
          → (t.sgot ≡ some host.got_header_size)
            × (t.sgotplt ≡ (if host.want_got_plt then some gotplt_header_size else s.sgotplt))
      choose true q =
          gotplt_if-makes host.want_got_plt host.gotplt_made
            (record s { sgot = some host.got_header_size }) t q
      choose false q = cc (ap (λ (r : Bool × DynSections). r.0) q)

  create_got_section-IsGot :
      (s t : DynSections) → has s.sgot ≡ false → create_got_section host s ≡ (true, t) → IsGot s t
  unfolding create_got_section IsGot Ends
  create_got_section-IsGot s t absent e = choose (has s.sgot) host.relgot_made absent e
    where
      choose :
          (b made : Bool)
          → b ≡ false
          → Ends
              (if◌then◌else◌ {A = Bool × DynSections} b
                (true, s)
                (if◌then◌else◌ {A = Bool × DynSections} made
                  (make_got host (record s { srelgot = some 0 }))
                  (false, s)))
              t
          → IsGot s t
      choose true made p q = cc p
      choose false true p q = make_got-IsGot (record s { srelgot = some 0 }) t q
      choose false false p q = cc (ap (λ (r : Bool × DynSections). r.0) q)

  -- A second call finds the GOT.
  create_got_section-again :
      (t : DynSections) (size : ℕ) → t.sgot ≡ some size → create_got_section host t ≡ (true, t)
  unfolding create_got_section
  create_got_section-again t size made = choose (has t.sgot) (ap has made)
    where
      choose :
          (b : Bool)
          → b ≡ true
          → if◌then◌else◌ {A = Bool × DynSections} b
              (true, t)
              (if◌then◌else◌ {A = Bool × DynSections} host.relgot_made
                (make_got host (record t { srelgot = some 0 }))
                (false, t))
            ≡ (true, t)
      choose true p = refl
      choose false p = cc p

  -- With a GOT, `_bfd_elf_create_dynamic_sections` makes no other one.
  unfoldable pub KeepsGot : Type 0
  KeepsGot =
      (u : DynSections)
      → has u.sgot ≡ true
      → ((host.create_others u).1.sgot ≡ u.sgot) × ((host.create_others u).1.sgotplt ≡ u.sgotplt)

  -- The sections that the rest of the back end takes for granted.
  pub IsComplete : DynSections → Type 0
  IsComplete t =
      (has t.splt ≡ true)
      × (has t.srelplt ≡ true)
      × (has t.sdynbss ≡ true)
      × ((host.pic || (has t.srelbss && has t.sdyntdata)) ≡ true)

  none_missing :
      (a b c p d e : Bool)
      → (not a || not b || not c || (not p && (not d || not e))) ≡ false
      → (a ≡ true) × (b ≡ true) × (c ≡ true) × ((p || (d && e)) ≡ true)
  none_missing true true true true d e q = (refl, refl, refl, refl)
  none_missing true true true false true true q = (refl, refl, refl, refl)
  none_missing true true true false true false q = cc q
  none_missing true true true false false e q = cc q
  none_missing true true false p d e q = cc q
  none_missing true false c p d e q = cc q
  none_missing false b c p d e q = cc q

  pub IsCreated : DynSections → DynSections → Type 0
  IsCreated s t = IsGot s t × IsComplete t × (create_got_section host t ≡ (true, t))

  make_tdata-keeps :
      (u : DynSections)
      → ((make_tdata host u).sgot ≡ u.sgot) × ((make_tdata host u).sgotplt ≡ u.sgotplt)
  unfolding make_tdata
  make_tdata-keeps u = choose host.pic
    where
      with_tdata : Bool → DynSections
      with_tdata b =
          if b then u else record u { sdyntdata = if host.tdata_made then some 0 else none }

      choose : (b : Bool) → ((with_tdata b).sgot ≡ u.sgot) × ((with_tdata b).sgotplt ≡ u.sgotplt)
      choose true = (refl, refl)
      choose false = (refl, refl)

  all_made :
      (got others : Bool × DynSections) (made t : DynSections) (missing : Bool)
      → (if not got.0
          then done got
          else if not others.0
          then done others
          else if missing
          then fault
          else done (true, made))
        ≡ done (true, t)
      → (got.0 ≡ true) × (missing ≡ false) × (made ≡ t)
  all_made (false, g) others made t missing e =
      cc (ap (λ (r : Bool × DynSections). r.0) (done-injective (false, g) (true, t) e))
  all_made (true, g) (false, o) made t missing e =
      cc (ap (λ (r : Bool × DynSections). r.0) (done-injective (false, o) (true, t) e))
  all_made (true, g) (true, o) made t true e = cc e
  all_made (true, g) (true, o) made t false e =
      (refl, refl, ap (λ (r : Bool × DynSections). r.1) (done-injective (true, made) (true, t) e))

  -- If the making of the dynamic sections succeeds for a hash table without a GOT, and BFD keeps a GOT that is there, then
  -- the GOT has the size of its header, and so has its part for the PLT where the back end wants one, all
  -- the sections that are used without a test exist, and another call of `riscv_elf_create_got_section`
  -- succeeds without a change.
  pub create_dynamic_sections-IsCreated :
      (s t : DynSections)
      → KeepsGot
      → has s.sgot ≡ false
      → create_dynamic_sections host s ≡ done (true, t)
      → IsCreated s t
  unfolding create_dynamic_sections is_missing KeepsGot IsCreated IsGot IsComplete
  create_dynamic_sections-IsCreated s t keeps absent e =
      let got = create_got_section host s in
      let others = host.create_others got.1 in
      let made = make_tdata host others.1 in
      let (success, complete, same) = all_made got others made t (is_missing host made) e in
      let (size, plt_size) =
        create_got_section-IsGot s got.1 absent (ap (λ (b : Bool). (b, got.1)) success) in
      let (kept, plt_kept) = keeps got.1 (ap has size) in
      let (last, plt_last) = make_tdata-keeps others.1 in
      let here : t.sgot ≡ some host.got_header_size =
        ap (λ (x : DynSections). x.sgot) (sym same) ∙ last ∙ kept ∙ size in
      (
        (here, ap (λ (x : DynSections). x.sgotplt) (sym same) ∙ plt_last ∙ plt_kept ∙ plt_size),
        none_missing (has t.splt) (has t.srelplt) (has t.sdynbss) host.pic (has t.srelbss)
            (has t.sdyntdata) (ap (is_missing host) (sym same) ∙ complete),
        create_got_section-again t host.got_header_size here,
      )
