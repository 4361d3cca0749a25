-- ===== src/Elf/Locals.antt =====
-- What one turn of the loops of `riscv_elf_check_relocs` and `riscv_elf_gc_sweep_hook` (elf32-riscv.c) does to the
-- GOT counts of local symbols.
pub mod Hits
use soft_hier_release_test.Base.{
  ℕ, ◌+◌, Bool, true, false, ◌||◌, Option, none, some, ◌==◌, if◌then◌else◌, bit_or, ◌≡◌, refl, sym,
  ap, ◌∙◌, arith, inl, inr, Bool-cases, Option-cases,
}
use soft_hier_release_test.Memory.{Outcome, done, failed}
use soft_hier_release_test.Memory.Frame.{done-step, done-injective}
use soft_hier_release_test.Bfd.{
  RelocType, Rela, r_tls_gd_hi20, r_tls_got_hi20, r_got_hi20, r_call_plt, r_call, r_jal, r_branch,
  r_rvc_branch, r_rvc_jump, r_pcrel_hi20, r_tprel_hi20, r_hi20, r_copy, r_jump_slot, r_relative,
  r_64, r_32, r_gnu_vtinherit, r_gnu_vtentry,
}
use soft_hier_release_test.Elf.{
  SymbolRefs, Input, Host, LinkState, update_refs, update_symbol, got_normal, got_tls_gd,
  got_tls_ie, got_tls_le,
}
use soft_hier_release_test.Elf.Check.{
  static_ref, is_copied, record_tls_type, record_got_reference, got_reference, copy_reloc,
  static_reloc, check_type, pre_import,
}
use soft_hier_release_test.Base.{◌-◌}
use soft_hier_release_test.Elf.{put}
use soft_hier_release_test.Elf.Counts.{got_weight}
use soft_hier_release_test.Elf.Sweep.{sweep_got, sweep_plt, sweep_type}

-- The count of local symbol `k`, 0 as long as there are no counts.
abbrev pub local_count : Option (ℕ → ℕ) → ℕ → ℕ
local_count none k = 0
local_count (some counts) k = counts k

-- `n` if the relocation is against the local symbol `k`.
abbrev pub at_local : Option ℕ → ℕ → ℕ → ℕ → ℕ
at_local none r_symndx k n = if r_symndx == k then n else 0
at_local (some h) r_symndx k n = 0

-- The counts of every local symbol grow by `g` if the relocation is against it.
abbrev pub Tallied : Option ℕ → ℕ → ℕ → LinkState → LinkState → Type 0
Tallied h n g s t =
    (k : ℕ) → local_count t.local_got k ≡ local_count s.local_got k + at_local h n k g

-- And they shrink by it, but not below 0.
abbrev pub Untallied : Option ℕ → ℕ → ℕ → LinkState → LinkState → Type 0
Untallied h n g s t =
    (k : ℕ) → local_count t.local_got k ≡ local_count s.local_got k - at_local h n k g

at_local-zero : (h : Option ℕ) (n k : ℕ) → at_local h n k 0 ≡ 0
at_local-zero none n k = ground arith
at_local-zero (some h) n k = refl

pub kept-Tallied :
    (h : Option ℕ) (n : ℕ) (s t : LinkState) → s.local_got ≡ t.local_got → Tallied h n 0 s t
kept-Tallied h n s t e k =
    ap (λ (l : Option (ℕ → ℕ)). local_count l k) (sym e) ∙ omega (arith, at_local-zero h n k)

pub kept-Untallied :
    (h : Option ℕ) (n : ℕ) (s t : LinkState) → s.local_got ≡ t.local_got → Untallied h n 0 s t
kept-Untallied h n s t e k =
    ap (λ (l : Option (ℕ → ℕ)). local_count l k) (sym e) ∙ omega (arith, at_local-zero h n k)

module _ (input : Input) (host : Host) where
  tls-kept :
      (h : Option ℕ) (n k : ℕ) (s t : LinkState)
      → record_tls_type input host h n k s ≡ done t
      → s.local_got ≡ t.local_got
  unfolding record_tls_type
  tls-kept (some h) n k s t e = ground arith
  tls-kept none n k s t e = ground arith

  copy-kept :
      (h : Option ℕ) (rel : Rela) (s t : LinkState)
      → copy_reloc input host h rel s ≡ done t
      → s.local_got ≡ t.local_got
  unfolding copy_reloc
  copy-kept (some h) rel s t e = ground arith
  copy-kept none rel s t e = ground arith

  static-kept :
      (h : Option ℕ) (rel : Rela) (s t : LinkState)
      → static_reloc input host h rel s ≡ done t
      → s.local_got ≡ t.local_got
  unfolding static_reloc
  static-kept none rel s t e = elim (Bool-cases (is_copied input host none rel.r_type)) [
    | inl copied ↦ copy-kept none rel s t (rw copied at e)
    | inr kept ↦ cc
  ]
  static-kept (some h) rel s t e =
      let m = update_symbol (some h) (static_ref input.pic) s in
      elim (Bool-cases (is_copied input host (some h) rel.r_type)) [
        | inl copied ↦ copy-kept (some h) rel m t (rw copied at e)
        | inr kept ↦ ap (λ (x : LinkState). x.local_got) (done-injective m t (rw kept at e))
      ]

  if_pic :
      (pic : Bool) (o : Outcome LinkState) (s t : LinkState)
      → (o ≡ done t → s.local_got ≡ t.local_got)
      → (if pic then done s else o) ≡ done t
      → s.local_got ≡ t.local_got
  if_pic true o s t f e = ap (λ (x : LinkState). x.local_got) (done-injective s t e)
  if_pic false o s t f e = f e

  local-kept :
      (h : Option ℕ) (rel : Rela) (s t : LinkState)
      → (if input.pic then done s else static_reloc input host h rel s) ≡ done t
      → s.local_got ≡ t.local_got
  local-kept h rel s t e =
      if_pic input.pic (static_reloc input host h rel s) s t (static-kept h rel s t) e

  if_done :
      (b : Bool) (o : Outcome LinkState) (t : LinkState)
      → (if b then o else failed) ≡ done t
      → o ≡ done t
  if_done true o t e = e
  if_done false o t e = cc

  if_failed :
      (b : Bool) (o : Outcome LinkState) (t : LinkState)
      → (if b then failed else o) ≡ done t
      → o ≡ done t
  if_failed true o t e = cc
  if_failed false o t e = e

  got-Tallied :
      (h : Option ℕ) (n : ℕ) (s t : LinkState)
      → record_got_reference input host h n s ≡ done t
      → Tallied h n 1 s t
  unfolding record_got_reference
  got-Tallied (some h) n s t e k = ground arith
  got-Tallied none n s t e k = counts s.local_got refl (if_done (s.sgot || host.got_made) _ t e)
    where
      grown : (f : ℕ → ℕ) → put f n (f n + 1) k ≡ f k + at_local none n k 1
      grown f = ground arith

      counts :
          (l : Option (ℕ → ℕ))
          → s.local_got ≡ l
          → elim l as (λ (x : Option (ℕ → ℕ)). Outcome LinkState) [
            | some c ↦ done (record s { sgot = true; local_got = some (put c n (c n + 1)) })
            | none ↦
                if host.memory
                then done (record s { sgot = true; local_got = some (put (λ (i : ℕ). 0) n 1) })
                else failed
          ]
            ≡ done t
          → local_count t.local_got k ≡ local_count s.local_got k + at_local none n k 1
      counts (some c) was q =
          ap (λ (x : LinkState). local_count x.local_got k) (sym (done-injective _ t q))
          ∙ grown c
          ∙ ap (λ (x : Option (ℕ → ℕ)). local_count x k + at_local none n k 1) (sym was)
      counts none was q =
          ap (λ (x : LinkState). local_count x.local_got k)
            (sym (done-injective _ t (if_done host.memory _ t q)))
          ∙ grown (λ (i : ℕ). 0)
          ∙ ap (λ (x : Option (ℕ → ℕ)). local_count x k + at_local none n k 1) (sym was)

  reference-Tallied :
      (h : Option ℕ) (n kind : ℕ) (s t : LinkState)
      → got_reference input host h n kind s ≡ done t
      → Tallied h n 1 s t
  unfolding got_reference
  reference-Tallied h n kind s t e k =
      let (m, first, second) =
        done-step (record_got_reference input host h n s) (record_tls_type input host h n kind) t
          e in
      ap (λ (l : Option (ℕ → ℕ)). local_count l k) (sym (tls-kept h n kind m t second))
      ∙ got-Tallied h n s m first k

  pub type-Tallied :
      (r_type : RelocType) (h : Option ℕ) (rel : Rela) (s t : LinkState)
      → check_type input host r_type h rel s ≡ done t
      → Tallied h rel.r_sym (got_weight r_type) s t
  unfolding check_type
  type-Tallied r_tls_gd_hi20 h rel s t e = reference-Tallied h rel.r_sym got_tls_gd s t e
  type-Tallied r_tls_got_hi20 h rel s t e =
      reference-Tallied h rel.r_sym got_tls_ie (record s { static_tls = s.static_tls || input.pic })
        t e
  type-Tallied r_got_hi20 h rel s t e = reference-Tallied h rel.r_sym got_normal s t e
  type-Tallied r_call_plt none rel s t e = kept-Tallied none rel.r_sym s t cc
  type-Tallied r_call_plt (some h) rel s t e =
      kept-Tallied (some h) rel.r_sym s t
        (ap (λ (x : LinkState). x.local_got) (done-injective _ t e))
  type-Tallied r_call h rel s t e = kept-Tallied h rel.r_sym s t (local-kept h rel s t e)
  type-Tallied r_jal h rel s t e = kept-Tallied h rel.r_sym s t (local-kept h rel s t e)
  type-Tallied r_branch h rel s t e = kept-Tallied h rel.r_sym s t (local-kept h rel s t e)
  type-Tallied r_rvc_branch h rel s t e = kept-Tallied h rel.r_sym s t (local-kept h rel s t e)
  type-Tallied r_rvc_jump h rel s t e = kept-Tallied h rel.r_sym s t (local-kept h rel s t e)
  type-Tallied r_pcrel_hi20 h rel s t e = kept-Tallied h rel.r_sym s t (local-kept h rel s t e)
  type-Tallied r_tprel_hi20 none rel s t e =
      kept-Tallied none rel.r_sym s t (static-kept none rel s t (if_done input.executable _ t e))
  type-Tallied r_tprel_hi20 (some h) rel s t e =
      let f = λ (r : SymbolRefs). record r { tls_type = bit_or (s.refs h).tls_type got_tls_le } in
      kept-Tallied (some h) rel.r_sym s t
        (static-kept (some h) rel (update_refs h f s) t (if_done input.executable _ t e))
  type-Tallied r_hi20 h rel s t e =
      kept-Tallied h rel.r_sym s t (static-kept h rel s t (if_failed input.pic _ t e))
  type-Tallied r_copy h rel s t e = kept-Tallied h rel.r_sym s t (static-kept h rel s t e)
  type-Tallied r_jump_slot h rel s t e = kept-Tallied h rel.r_sym s t (static-kept h rel s t e)
  type-Tallied r_relative h rel s t e = kept-Tallied h rel.r_sym s t (static-kept h rel s t e)
  type-Tallied r_64 h rel s t e = kept-Tallied h rel.r_sym s t (static-kept h rel s t e)
  type-Tallied r_32 h rel s t e = kept-Tallied h rel.r_sym s t (static-kept h rel s t e)
  type-Tallied r_gnu_vtinherit h rel s t e = kept-Tallied h rel.r_sym s t (
      ap (λ (x : LinkState). x.local_got)
        (done-injective s t (if_done (host.vtinherit_recorded rel) _ t e)))
  type-Tallied r_gnu_vtentry h rel s t e = kept-Tallied h rel.r_sym s t (
      ap (λ (x : LinkState). x.local_got)
        (done-injective s t (if_done (host.vtentry_recorded rel) _ t e)))
  type-Tallied _ h rel s t e =
      kept-Tallied h rel.r_sym s t (ap (λ (x : LinkState). x.local_got) (done-injective s t e))

  pub import-kept :
      (i : ℕ) (rel : Rela) (s t : LinkState)
      → pre_import input host i rel s ≡ done t
      → s.local_got ≡ t.local_got
  unfolding pre_import
  import-kept i rel s t e = ground (arith, Option-cases (input.symbols i).section)

-- The sweep of one reference.
sweep_got-Untallied : (h : Option ℕ) (n : ℕ) (s : LinkState) → Untallied h n 1 s (sweep_got h n s)
unfolding sweep_got
sweep_got-Untallied (some h) n s k = omega arith
sweep_got-Untallied none n s k = ground (arith, Option-cases s.local_got)

sweep_plt-kept : (h : Option ℕ) (s : LinkState) → s.local_got ≡ (sweep_plt h s).local_got
unfolding sweep_plt
sweep_plt-kept none s = refl
sweep_plt-kept (some h) s = refl

unless_pic-kept :
    (pic : Bool) (h : Option ℕ) (s : LinkState)
    → s.local_got ≡ (if pic then s else sweep_plt h s).local_got
unless_pic-kept true h s = refl
unless_pic-kept false h s = sweep_plt-kept h s

pub sweep_type-Untallied :
    (pic : Bool) (r_type : RelocType) (h : Option ℕ) (n : ℕ) (s : LinkState)
    → Untallied h n (got_weight r_type) s (sweep_type pic r_type h n s)
unfolding sweep_type
sweep_type-Untallied pic r_got_hi20 h n s = sweep_got-Untallied h n s
sweep_type-Untallied pic r_tls_got_hi20 h n s = sweep_got-Untallied h n s
sweep_type-Untallied pic r_tls_gd_hi20 h n s = sweep_got-Untallied h n s
sweep_type-Untallied pic r_hi20 h n s =
    kept-Untallied h n s (if pic then s else sweep_plt h s) (unless_pic-kept pic h s)
sweep_type-Untallied pic r_pcrel_hi20 h n s =
    kept-Untallied h n s (if pic then s else sweep_plt h s) (unless_pic-kept pic h s)
sweep_type-Untallied pic r_copy h n s =
    kept-Untallied h n s (if pic then s else sweep_plt h s) (unless_pic-kept pic h s)
sweep_type-Untallied pic r_jump_slot h n s =
    kept-Untallied h n s (if pic then s else sweep_plt h s) (unless_pic-kept pic h s)
sweep_type-Untallied pic r_relative h n s =
    kept-Untallied h n s (if pic then s else sweep_plt h s) (unless_pic-kept pic h s)
sweep_type-Untallied pic r_64 h n s =
    kept-Untallied h n s (if pic then s else sweep_plt h s) (unless_pic-kept pic h s)
sweep_type-Untallied pic r_32 h n s =
    kept-Untallied h n s (if pic then s else sweep_plt h s) (unless_pic-kept pic h s)
sweep_type-Untallied pic r_branch h n s =
    kept-Untallied h n s (if pic then s else sweep_plt h s) (unless_pic-kept pic h s)
sweep_type-Untallied pic r_call h n s =
    kept-Untallied h n s (if pic then s else sweep_plt h s) (unless_pic-kept pic h s)
sweep_type-Untallied pic r_jal h n s =
    kept-Untallied h n s (if pic then s else sweep_plt h s) (unless_pic-kept pic h s)
sweep_type-Untallied pic r_rvc_branch h n s =
    kept-Untallied h n s (if pic then s else sweep_plt h s) (unless_pic-kept pic h s)
sweep_type-Untallied pic r_rvc_jump h n s =
    kept-Untallied h n s (if pic then s else sweep_plt h s) (unless_pic-kept pic h s)
sweep_type-Untallied pic r_call_plt h n s =
    kept-Untallied h n s (sweep_plt h s) (sweep_plt-kept h s)
sweep_type-Untallied pic _ h n s = kept-Untallied h n s s refl
