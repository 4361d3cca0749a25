-- ===== src/Elf/Reloc/Pcrel.antt =====
-- The high parts that have been met, and the low parts that wait for them (elf32-riscv.c,
-- `riscv_pcrel_relocs`); all low parts of one such record stand in the same section.
use soft_hier_release_test.Base.{
  ℕ, Bool, true, false, Option, none, some, List, [], ◌∷◌, ◌==◌, if◌then◌else◌, sub64, ◌≡◌, refl,
  ◌∙◌, arith,
}
use soft_hier_release_test.Memory.{Outcome, done, failed, ◌>>=◌}
use soft_hier_release_test.Bfd.{Rela}
use soft_hier_release_test.Elf.Reloc.{Howto, Codec, perform_relocation}

-- `riscv_pcrel_hi_reloc`.
pub record HiReloc : Type 0 where
  pub address : ℕ
  pub hi_value : ℕ

-- `riscv_pcrel_lo_reloc`.
pub record LoReloc : Type 0 where
  pub howto : Howto
  pub reloc : Rela
  pub addr : ℕ

-- The entries that have been stored in the hash table of the high parts, the latest first, and the list of the low
-- parts.
pub record PcrelRelocs : Type 0 where
  pub hi_relocs : List HiReloc
  pub lo_relocs : List LoReloc

-- `riscv_init_pcrel_relocs`; `made` says whether `htab_create` gives a table.
unfoldable pub init_pcrel_relocs : Bool → Outcome PcrelRelocs
init_pcrel_relocs made = if made then done (record { hi_relocs = []; lo_relocs = [] }) else failed

-- `htab_find` of libiberty, which is a parameter below: what it finds at an address in a table, given the entries that
-- have been stored in it, the latest first. Two entries of one address share a slot, as `riscv_pcrel_reloc_eq` tells.
abbrev pub HtabFind : Type 0
HtabFind = List HiReloc → ℕ → Option ℕ

-- It finds the latest entry of an address.
unfoldable pub FindsLatest : HtabFind → Type 0
FindsLatest find =
    (entry : HiReloc) (stored : List HiReloc) (addr : ℕ)
    → find (entry ∷ stored) addr
      ≡ (if entry.address == addr then some entry.hi_value else find stored addr)

-- `riscv_record_pcrel_hi_reloc`; its assertion only reports.
unfoldable pub record_pcrel_hi_reloc : Bool → PcrelRelocs → ℕ → ℕ → Outcome PcrelRelocs
record_pcrel_hi_reloc memory p addr value =
    if memory
    then done (record p {
      hi_relocs = record { address = addr; hi_value = sub64 value addr } ∷ p.hi_relocs;
    })
    else failed

-- `riscv_record_pcrel_lo_reloc`.
unfoldable pub record_pcrel_lo_reloc : Bool → PcrelRelocs → LoReloc → Outcome PcrelRelocs
record_pcrel_lo_reloc memory p lo =
    if memory then done (record p { lo_relocs = lo ∷ p.lo_relocs }) else failed

module _ (codec : Codec) (htab_find : HtabFind) (sec_addr : ℕ) where
  -- The loop of `riscv_resolve_pcrel_lo_relocs`: it ends at a low part without its high part, and the
  -- status of a relocation is ignored. The flag says whether all of them were performed; the answer of the
  -- function is TRUE either way.
  unfoldable pub resolve_loop : List HiReloc → List LoReloc → List ℕ → Outcome (Bool × List ℕ)
  resolve_loop his [] contents = done (true, contents)
  resolve_loop his (r ∷ rs) contents =
      let rest = resolve_loop his rs in
      elim (htab_find his r.addr) [
        | none ↦ done (false, contents)
        | some value ↦
            perform_relocation codec r.howto r.reloc value sec_addr contents false >>= λ s. rest s.1
      ]

  unfoldable pub resolve_pcrel_lo_relocs : PcrelRelocs → List ℕ → Outcome (Bool × List ℕ)
  resolve_pcrel_lo_relocs p contents = resolve_loop p.hi_relocs p.lo_relocs contents

resolve_loop-found :
    (codec : Codec) (htab_find : HtabFind) (sec_addr : ℕ) (his : List HiReloc) (r : LoReloc)
    (rs : List LoReloc) (contents : List ℕ) (value : ℕ)
    → htab_find his r.addr ≡ some value
    → resolve_loop codec htab_find sec_addr his (r ∷ rs) contents
      ≡ perform_relocation codec r.howto r.reloc value sec_addr contents false
        >>= (λ s. resolve_loop codec htab_find sec_addr his rs s.1)
unfolding resolve_loop
resolve_loop-found codec htab_find sec_addr his r rs contents value found = rw (found, resolve_loop)

-- If `htab_find` finds the latest entry of an address, a low part and its high part recorded with memory, in either
-- order: the record is the same, and
-- the low part is resolved first of all, with the distance of the high part's value from its
-- address, and then those recorded earlier.
pub resolve-record :
    (codec : Codec) (htab_find : HtabFind) (sec_addr : ℕ) (p : PcrelRelocs) (lo : LoReloc)
    (value : ℕ) (contents : List ℕ)
    → FindsLatest htab_find
    → (q : PcrelRelocs) × (record_pcrel_hi_reloc true p lo.addr value
          >>= (λ r. record_pcrel_lo_reloc true r lo)
        ≡ done q)
      × (record_pcrel_lo_reloc true p lo >>= (λ r. record_pcrel_hi_reloc true r lo.addr value)
          ≡ done q)
      × (resolve_pcrel_lo_relocs codec htab_find sec_addr q contents
          ≡ perform_relocation codec lo.howto lo.reloc (sub64 value lo.addr) sec_addr contents false
            >>= (λ s. resolve_loop codec htab_find sec_addr q.hi_relocs p.lo_relocs s.1))
unfolding record_pcrel_hi_reloc record_pcrel_lo_reloc resolve_pcrel_lo_relocs FindsLatest
resolve-record codec htab_find sec_addr p lo value contents latest =
    let entry : HiReloc = record { address = lo.addr; hi_value = sub64 value lo.addr } in
    let found : htab_find (entry ∷ p.hi_relocs) lo.addr ≡ some (sub64 value lo.addr) =
      latest entry p.hi_relocs lo.addr ∙ ground arith in
    (
      _,
      refl,
      refl,
      resolve_loop-found codec htab_find sec_addr (entry ∷ p.hi_relocs) lo p.lo_relocs contents
          (sub64 value lo.addr) found,
    )
