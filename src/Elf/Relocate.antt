-- ===== src/Elf/Relocate.antt =====
-- The relocation of a section (elf32-riscv.c, `RegisterImportReloc` and the cases of
-- `riscv_elf_relocate_section`).
pub mod Got
pub mod Turn
pub mod Once
pub mod Imports
use soft_hier_release_test.Base.{
  ℕ, ◌+◌, ◌-◌, ◌^◌, bit_and, bit_or, Bool, true, false, ◌&&◌, Option, none, some, List, ◌∷◌,
  if◌then◌else◌, u64, sub64,
}
use soft_hier_release_test.Memory.{Outcome, done, failed, fault, ◌>>=◌}
use soft_hier_release_test.Bfd.{RelocType, Rela}
use soft_hier_release_test.Pulp.Hash.{same_name}
use soft_hier_release_test.Pulp.Import.{ImportState, insert_import_entry}
use soft_hier_release_test.Elf.{is_defweak, Symbol, Section, follow}
use soft_hier_release_test.Elf.Check.{pulp_import}
use soft_hier_release_test.Elf.Alloc.{refcount, offset, DynSymbol}
use soft_hier_release_test.Elf.Dynamic.{Appended}
use soft_hier_release_test.Elf.Reloc.{Howto, Codec, Status, reloc_ok, reloc_overflow, tpoff}
use soft_hier_release_test.Elf.Reloc.Pcrel.{
  HtabFind, LoReloc, PcrelRelocs, record_pcrel_hi_reloc, record_pcrel_lo_reloc,
}

-- What `_bfd_elf_rela_local_sym` and `RELOC_FOR_GLOBAL_SYMBOL` give for the symbol of a relocation: its value, the
-- relocation with its addend adjusted, and the flags.
pub record Resolved : Type 0 where
  pub relocation : ℕ
  pub rel : Rela
  pub unresolved : Bool
  pub warned : Bool
  pub discarded : Bool

-- The link, the input section, and the code that is called. The three numbers of the base registers are
-- `OP_MASK_RS1 << OP_SH_RS1`, `X_TP << OP_SH_RS1` and `X_GP << OP_SH_RS1`; `unwrap` is `unwrap_hash_lookup`.
pub record RelocHost : Type 0 where
  pub codec : Codec
  pub htab_find : HtabFind
  pub howto_of : RelocType → Howto
  pub rs1_mask : ℕ
  pub tp_base : ℕ
  pub gp_base : ℕ
  pub gp : ℕ
  pub tp_offset : ℕ
  pub tls_vma : Option ℕ
  pub memory : Bool
  pub table_made : Bool
  pub relocatable : Bool
  pub pic : Bool
  pub has_hashes : Bool
  pub has_wrap : Bool
  pub unwrap : ℕ → ℕ
  pub sh_info : ℕ
  pub sym_hashes : ℕ → ℕ
  pub symbols : ℕ → Symbol
  pub depth : ℕ
  pub dyn_symbols : ℕ → DynSymbol
  pub section_has_output : ℕ → Bool
  pub resolve_local : Rela → Resolved
  pub resolve_global : Rela → ℕ → Resolved
  pub clear_reloc : Rela → List ℕ → Outcome (List ℕ)
  pub section_offset : ℕ → ℕ
  pub will_finish : DynSymbol → Bool
  pub references_local : DynSymbol → Bool
  pub calls_local : Option DynSymbol → Bool
  pub symbolic_bind : DynSymbol → Bool
  pub sec_addr : ℕ
  pub output_vma : Option ℕ
  pub output_offset : ℕ
  pub debugging : Bool
  pub alloc : Bool
  pub sgot_addr : ℕ
  pub splt_addr : ℕ
  pub local_tls : ℕ → ℕ

-- What a relocation changes: the bytes of the section, those of the GOT, the relocations for it and for the section,
-- the offsets in the GOT with their lowest bit as a mark, and the import table.
pub record Relocating : Type 0 where
  pub contents : List ℕ
  pub sgot : List ℕ
  pub relgot : Appended
  pub sreloc : Appended
  pub got_offset : ℕ → ℕ
  pub local_got : ℕ → ℕ
  pub pcrel : PcrelRelocs
  pub imports : ImportState
  pub kept : List ℕ

-- What a `case` leaves: nothing more to do, or the status, the relocation with its value, and whether
-- it is unresolved.
pub data Handled : Type 0 where
  skipped : Relocating → Handled
  go : Status → Rela → ℕ → Bool → Relocating → Handled

module _ (host : RelocHost) where
  -- The test of `RegisterImportReloc` on a symbol: its section, if it is imported.
  unfoldable pub import_section : Symbol → Option Section
  import_section h =
      if is_defweak h.h_type
      then elim h.section [
        | none ↦ none
        | some sec ↦
            if host.section_has_output sec.id && same_name sec.section_name pulp_import
            then some sec
            else none
      ]
      else none

  -- The symbol that `RegisterImportReloc` starts from.
  unfoldable pub import_symbol : ℕ → ℕ
  import_symbol r_symndx =
      let h = host.sym_hashes (r_symndx - host.sh_info) in
      if host.has_wrap && host.debugging then host.unwrap h else h

  unfoldable pub enter_reloc :
      Rela → Symbol → Option Section → Relocating → Outcome (Bool × Relocating)
  enter_reloc rel h none s = done (false, s)
  enter_reloc rel h (some sec) s = do
    (ok, imports) ←
        insert_import_entry host.memory host.memory host.memory h.string rel host.output_offset
          false s.imports
    done (true, record s { imports = imports; kept = sec.id ∷ s.kept })

  -- `RegisterImportReloc`; what `InsertImportEntry` answers is not looked at.
  unfoldable pub register_import_reloc : Rela → Relocating → Outcome (Bool × Relocating)
  register_import_reloc rel s =
      if host.has_hashes
      then (do
        i ← follow host.symbols host.depth (import_symbol rel.r_sym)
        let h = host.symbols i
        enter_reloc rel h (import_section h) s)
      else done (false, s)

  -- `if (!riscv_record_pcrel_hi_reloc (…)) r = bfd_reloc_overflow`.
  unfoldable pub record_hi : ℕ → ℕ → Relocating → Status × Relocating
  record_hi pc value s = elim (record_pcrel_hi_reloc host.memory s.pcrel pc value) [
    | done p ↦ (reloc_ok, record s { pcrel = p })
    | failed ↦ (reloc_overflow, s)
    | fault ↦ (reloc_overflow, s)
  ]

  -- `R_RISCV_ADD…` and `R_RISCV_SUB…`, with the value at the place.
  unfoldable pub add_value : Rela → ℕ → Bool → Relocating → Outcome Handled
  add_value rel relocation unresolved s = do
    old ← host.codec.bfd_get (host.howto_of rel.r_type).bitsize s.contents rel.r_offset
    done (go reloc_ok rel (u64 (old + relocation)) unresolved s)

  unfoldable pub sub_value : Rela → ℕ → Bool → Relocating → Outcome Handled
  sub_value rel relocation unresolved s = do
    old ← host.codec.bfd_get (host.howto_of rel.r_type).bitsize s.contents rel.r_offset
    done (go reloc_ok rel (sub64 old relocation) unresolved s)

  -- The PLT entry of a symbol, where a call is to go through it.
  unfoldable pub plt_of : Option ℕ → Option ℕ
  plt_of none = none
  plt_of (some i) = elim (host.dyn_symbols i).plt [
    | refcount n ↦ none
    | offset o ↦ if host.pic then o else none
  ]

  -- The calls and jumps.
  unfoldable pub call_value : Option ℕ → Rela → ℕ → Bool → Relocating → Handled
  call_value h rel relocation unresolved s = elim (plt_of h) [
    | none ↦ go reloc_ok rel relocation unresolved s
    | some o ↦ go reloc_ok rel (u64 (host.splt_addr + o)) false s
  ]

  -- The instruction at the place, with another base register.
  unfoldable pub set_base : Rela → ℕ → Relocating → Outcome Relocating
  set_base rel base s = do
    insn ← host.codec.bfd_get 32 s.contents rel.r_offset
    contents ←
        host.codec.bfd_put 32 (bit_or (bit_and insn (2 ^ 64 - 1 - host.rs1_mask)) base) s.contents
          rel.r_offset
    done (record s { contents = contents })

  -- `R_RISCV_TPREL_I` and `R_RISCV_TPREL_S`.
  unfoldable pub tprel_value : Rela → ℕ → Bool → Relocating → Outcome Handled
  tprel_value rel relocation unresolved s =
      let value = tpoff host.tp_offset host.tls_vma relocation in
      if host.codec.valid_itype (u64 (value + rel.r_addend))
      then set_base rel host.tp_base s >>= (λ t. done (go reloc_ok rel value unresolved t))
      else done (go reloc_overflow rel value unresolved s)

  -- `R_RISCV_GPREL_I` and `R_RISCV_GPREL_S`: relative to x0, or else to gp with the addend adjusted.
  unfoldable pub gprel_value : Rela → ℕ → Bool → Relocating → Outcome Handled
  gprel_value rel relocation unresolved s =
      let target = u64 (relocation + rel.r_addend) in
      if host.codec.valid_itype target
      then set_base rel 0 s >>= (λ t. done (go reloc_ok rel relocation unresolved t))
      else if host.codec.valid_itype (sub64 target host.gp)
      then set_base rel host.gp_base s >>= (λ t. done (
          go reloc_ok (record rel { r_addend = sub64 rel.r_addend host.gp }) relocation unresolved
            t))
      else done (go reloc_overflow rel relocation unresolved s)

  -- `R_RISCV_PCREL_HI20`.
  unfoldable pub pcrel_hi : ℕ → Rela → ℕ → Bool → Relocating → Handled
  pcrel_hi pc rel relocation unresolved s =
      let r = record_hi pc (u64 (relocation + rel.r_addend)) s in
      go r.0 rel relocation unresolved r.1

  -- `R_RISCV_PCREL_LO12_I` and `R_RISCV_PCREL_LO12_S`.
  unfoldable pub pcrel_lo : Rela → ℕ → Bool → Relocating → Handled
  pcrel_lo rel relocation unresolved s =
      let lo : LoReloc = record {
        howto = host.howto_of rel.r_type;
        reloc = rel;
        addr = relocation;
      } in
      elim (record_pcrel_lo_reloc host.memory s.pcrel lo) [
        | done p ↦ skipped (record s { pcrel = p })
        | failed ↦ go reloc_overflow rel relocation unresolved s
        | fault ↦ go reloc_overflow rel relocation unresolved s
      ]
