-- ===== src/Elf/Counts.antt =====
-- What one turn of the loop of `riscv_elf_check_relocs` (elf32-riscv.c) does to the reference counts.
use soft_hier_release_test.Base.{
  ℕ, ◌+◌, Bool, true, false, ◌||◌, Option, none, some, ◌==◌, if◌then◌else◌, bit_or, ◌≡◌, refl, sym,
  ap, ◌∙◌, arith, inl, inr, Bool-cases, Option-cases,
}
use soft_hier_release_test.Memory.{Outcome, done, failed}
use soft_hier_release_test.Memory.Frame.{done-step}
use soft_hier_release_test.Bfd.{
  RelocType, Rela, r_tls_gd_hi20, r_tls_got_hi20, r_got_hi20, r_call_plt, r_call, r_jal, r_branch,
  r_rvc_branch, r_rvc_jump, r_pcrel_hi20, r_tprel_hi20, r_hi20, r_copy, r_jump_slot, r_relative,
  r_64, r_32, r_gnu_vtinherit, r_gnu_vtentry,
}
use soft_hier_release_test.Elf.{
  SymbolRefs, Input, Host, LinkState, update_refs, update_symbol, got_normal, got_tls_gd,
  got_tls_ie, got_tls_le,
}
use soft_hier_release_test.Elf.Check.{
  static_ref, is_copied, record_tls_type, record_got_reference, got_reference, copy_reloc,
  static_reloc, check_type, pre_import,
}

-- What a type of relocation counts for its symbol, in the GOT and in the PLT.
abbrev pub got_weight : RelocType → ℕ
got_weight r_tls_gd_hi20 = 1
got_weight r_tls_got_hi20 = 1
got_weight r_got_hi20 = 1
got_weight _ = 0

abbrev pub plt_weight : Bool → RelocType → ℕ
plt_weight pic r_call_plt = 1
plt_weight pic r_call = if pic then 0 else 1
plt_weight pic r_jal = if pic then 0 else 1
plt_weight pic r_branch = if pic then 0 else 1
plt_weight pic r_rvc_branch = if pic then 0 else 1
plt_weight pic r_rvc_jump = if pic then 0 else 1
plt_weight pic r_pcrel_hi20 = if pic then 0 else 1
plt_weight pic r_hi20 = if pic then 0 else 1
plt_weight pic r_copy = if pic then 0 else 1
plt_weight pic r_jump_slot = if pic then 0 else 1
plt_weight pic r_relative = if pic then 0 else 1
plt_weight pic r_64 = if pic then 0 else 1
plt_weight pic r_32 = if pic then 0 else 1
plt_weight pic _ = 0

-- A thread-local reference of an executable, counted for the PLT as well.
abbrev pub tprel_weight : Bool → RelocType → ℕ
tprel_weight pic r_tprel_hi20 = if pic then 0 else 1
tprel_weight pic _ = 0

-- What the check counts for the PLT: the weight of the type, with thread-local references.
abbrev pub check_weight : Bool → RelocType → ℕ
check_weight pic r_tprel_hi20 = if pic then 0 else 1
check_weight pic r_type = plt_weight pic r_type

pub check_weight-sum :
    (pic : Bool) (r_type : RelocType)
    → check_weight pic r_type ≡ plt_weight pic r_type + tprel_weight pic r_type
check_weight-sum pic r_tprel_hi20 = omega arith
check_weight-sum pic r_type = omega arith

-- `n` if the relocation is against symbol `i`.
abbrev pub at_symbol : Option ℕ → ℕ → ℕ → ℕ
at_symbol none i n = 0
at_symbol (some h) i n = if h == i then n else 0

-- The counts of every symbol grow by `g` and `p` if it is `h`.
abbrev pub Counted : Option ℕ → ℕ → ℕ → LinkState → LinkState → Type 0
Counted h g p s t =
    (i : ℕ)
    → ((t.refs i).got_refcount ≡ (s.refs i).got_refcount + at_symbol h i g)
      × ((t.refs i).plt_refcount ≡ (s.refs i).plt_refcount + at_symbol h i p)

pub Counted-self : (h : Option ℕ) (s t : LinkState) → s.refs ≡ t.refs → Counted h 0 0 s t
Counted-self none s t e i = (
  ap (λ r. (r i).got_refcount) (sym e) ∙ omega arith,
  ap (λ r. (r i).plt_refcount) (sym e) ∙ omega arith,
)
Counted-self (some h) s t e i = (
  ap (λ r. (r i).got_refcount) (sym e) ∙ ground arith,
  ap (λ r. (r i).plt_refcount) (sym e) ∙ ground arith,
)

-- A step that counts, and one that does not, in either order.
Counted-idle :
    (h : Option ℕ) (g p : ℕ) (s t u : LinkState)
    → Counted h g p s t
    → Counted h 0 0 t u
    → Counted h g p s u
Counted-idle none g p s t u first second i =
    (omega (arith, (first i).0, (second i).0), omega (arith, (first i).1, (second i).1))
Counted-idle (some h) g p s t u first second i =
    (ground (arith, (first i).0, (second i).0), ground (arith, (first i).1, (second i).1))

pub idle-Counted :
    (h : Option ℕ) (g p : ℕ) (s t u : LinkState)
    → Counted h 0 0 s t
    → Counted h g p t u
    → Counted h g p s u
idle-Counted none g p s t u first second i =
    (omega (arith, (first i).0, (second i).0), omega (arith, (first i).1, (second i).1))
idle-Counted (some h) g p s t u first second i =
    (ground (arith, (first i).0, (second i).0), ground (arith, (first i).1, (second i).1))

-- A change of one symbol.
pub Counted-update :
    (h g p : ℕ) (f : SymbolRefs → SymbolRefs) (s : LinkState)
    → (f (s.refs h)).got_refcount ≡ (s.refs h).got_refcount + g
    → (f (s.refs h)).plt_refcount ≡ (s.refs h).plt_refcount + p
    → Counted (some h) g p s (update_refs h f s)
Counted-update h g p f s got plt i = (ground arith, ground arith)

module _ (input : Input) (host : Host) where
  got-Counted :
      (h : Option ℕ) (n : ℕ) (s t : LinkState)
      → record_got_reference input host h n s ≡ done t
      → Counted h 1 0 s t
  unfolding record_got_reference
  got-Counted (some h) n s t e i = (ground arith, ground arith)
  got-Counted none n s t e i = (ground arith, ground arith)

  tls-Counted :
      (h : Option ℕ) (n k : ℕ) (s t : LinkState)
      → record_tls_type input host h n k s ≡ done t
      → Counted h 0 0 s t
  unfolding record_tls_type
  tls-Counted (some h) n k s t e i = (ground arith, ground arith)
  tls-Counted none n k s t e i = (ground arith, ground arith)

  copy-Counted :
      (h : Option ℕ) (rel : Rela) (s t : LinkState)
      → copy_reloc input host h rel s ≡ done t
      → Counted h 0 0 s t
  unfolding copy_reloc
  copy-Counted (some h) rel s t e i = (ground arith, ground arith)
  copy-Counted none rel s t e i = (ground arith, ground arith)

  reference-Counted :
      (h : Option ℕ) (n k : ℕ) (s t : LinkState)
      → got_reference input host h n k s ≡ done t
      → Counted h 1 0 s t
  unfolding got_reference
  reference-Counted h n k s t e =
      let (m, first, second) =
        done-step (record_got_reference input host h n s) (record_tls_type input host h n k) t e in
      Counted-idle h 1 0 s m t (got-Counted h n s m first) (tls-Counted h n k m t second)

  static_ref-Counted :
      (h : Option ℕ) (s : LinkState)
      → Counted h 0 (if input.pic then 0 else 1) s (update_symbol h (static_ref input.pic) s)
  static_ref-Counted none s i = (omega arith, omega arith)
  static_ref-Counted (some h) s i = (ground arith, ground arith)

  static-Counted :
      (h : Option ℕ) (rel : Rela) (s t : LinkState)
      → static_reloc input host h rel s ≡ done t
      → Counted h 0 (if input.pic then 0 else 1) s t
  unfolding static_reloc
  static-Counted h rel s t e =
      let p : ℕ = if input.pic then 0 else 1 in
      let m = update_symbol h (static_ref input.pic) s in
      elim (Bool-cases (is_copied input host h rel.r_type)) [
        | inl copied ↦
            Counted-idle h 0 p s m t (static_ref-Counted h s)
              (copy-Counted h rel m t (rw copied at e))
        | inr kept ↦ Counted-idle h 0 p s m t (static_ref-Counted h s) (Counted-self h m t (cc))
      ]

  -- A reference that is not counted in a shared library.
  unless_pic-Counted :
      (pic : Bool) (h : Option ℕ) (o : Outcome LinkState) (s t : LinkState)
      → (o ≡ done t → Counted h 0 (if pic then 0 else 1) s t)
      → (if pic then done s else o) ≡ done t
      → Counted h 0 (if pic then 0 else 1) s t
  unless_pic-Counted true h o s t f e = Counted-self h s t cc
  unless_pic-Counted false h o s t f e = f e

  local-Counted :
      (h : Option ℕ) (rel : Rela) (s t : LinkState)
      → (if input.pic then done s else static_reloc input host h rel s) ≡ done t
      → Counted h 0 (if input.pic then 0 else 1) s t
  local-Counted h rel s t e =
      unless_pic-Counted input.pic h (static_reloc input host h rel s) s t
        (static-Counted h rel s t) e

  if_done :
      (b : Bool) (o : Outcome LinkState) (t : LinkState)
      → (if b then o else failed) ≡ done t
      → o ≡ done t
  if_done true o t e = e
  if_done false o t e = cc

  if_failed :
      (b : Bool) (o : Outcome LinkState) (t : LinkState)
      → (if b then failed else o) ≡ done t
      → o ≡ done t
  if_failed true o t e = cc
  if_failed false o t e = e

  if_same : (b : Bool) (s t : LinkState) → (if b then done s else failed) ≡ done t → s.refs ≡ t.refs
  if_same true s t e = cc
  if_same false s t e = cc

  pub type-Counted :
      (r_type : RelocType) (h : Option ℕ) (rel : Rela) (s t : LinkState)
      → check_type input host r_type h rel s ≡ done t
      → Counted h (got_weight r_type) (check_weight input.pic r_type) s t
  unfolding check_type
  type-Counted r_tls_gd_hi20 h rel s t e = reference-Counted h rel.r_sym got_tls_gd s t e
  type-Counted r_tls_got_hi20 h rel s t e =
      let m : LinkState = record s { static_tls = s.static_tls || input.pic } in
      idle-Counted h 1 0 s m t (Counted-self h s m refl)
        (reference-Counted h rel.r_sym got_tls_ie m t e)
  type-Counted r_got_hi20 h rel s t e = reference-Counted h rel.r_sym got_normal s t e
  type-Counted r_call_plt none rel s t e = λ i. (ground arith, ground arith)
  type-Counted r_call_plt (some h) rel s t e = λ i. (ground arith, ground arith)
  type-Counted r_call h rel s t e = local-Counted h rel s t e
  type-Counted r_jal h rel s t e = local-Counted h rel s t e
  type-Counted r_branch h rel s t e = local-Counted h rel s t e
  type-Counted r_rvc_branch h rel s t e = local-Counted h rel s t e
  type-Counted r_rvc_jump h rel s t e = local-Counted h rel s t e
  type-Counted r_pcrel_hi20 h rel s t e = local-Counted h rel s t e
  type-Counted r_tprel_hi20 none rel s t e =
      static-Counted none rel s t (if_done input.executable _ t e)
  type-Counted r_tprel_hi20 (some h) rel s t e =
      let f = λ (r : SymbolRefs). record r { tls_type = bit_or (s.refs h).tls_type got_tls_le } in
      let m = update_refs h f s in
      idle-Counted (some h) 0 (if input.pic then 0 else 1) s m t
        (Counted-update h 0 0 f s (omega arith) (omega arith))
        (static-Counted (some h) rel m t (if_done input.executable _ t e))
  type-Counted r_hi20 h rel s t e = static-Counted h rel s t (if_failed input.pic _ t e)
  type-Counted r_copy h rel s t e = static-Counted h rel s t e
  type-Counted r_jump_slot h rel s t e = static-Counted h rel s t e
  type-Counted r_relative h rel s t e = static-Counted h rel s t e
  type-Counted r_64 h rel s t e = static-Counted h rel s t e
  type-Counted r_32 h rel s t e = static-Counted h rel s t e
  type-Counted r_gnu_vtinherit h rel s t e =
      Counted-self h s t (if_same (host.vtinherit_recorded rel) s t e)
  type-Counted r_gnu_vtentry h rel s t e =
      Counted-self h s t (if_same (host.vtentry_recorded rel) s t e)
  type-Counted _ h rel s t e = Counted-self h s t cc

  pub import-Counted :
      (i : ℕ) (rel : Rela) (s t : LinkState)
      → pre_import input host i rel s ≡ done t
      → s.refs ≡ t.refs
  unfolding pre_import
  import-Counted i rel s t e = ground (arith, Option-cases (input.symbols i).section)
