-- ===== src/Elf/Create.antt =====
-- The making of the dynamic sections (elf32-riscv.c, `riscv_elf_create_got_section` and
-- `riscv_elf_create_dynamic_sections`).
pub mod Created
use soft_hier_release_test.Base.{
  ℕ, Bool, true, false, not, ◌&&◌, ◌||◌, Option, none, some, if◌then◌else◌,
}
use soft_hier_release_test.Memory.{Outcome, done, fault}
use soft_hier_release_test.Elf.Dynamic.{gotplt_header_size}

abbrev pub has : Option ℕ → Bool
has none = false
has (some a) = true

-- The short-cuts of the hash table: the sizes of the sections that are made, and the symbol of the GOT.
pub record DynSections : Type 0 where
  pub srelgot : Option ℕ
  pub sgot : Option ℕ
  pub sgotplt : Option ℕ
  pub hgot : Option ℕ
  pub splt : Option ℕ
  pub srelplt : Option ℕ
  pub sdynbss : Option ℕ
  pub srelbss : Option ℕ
  pub sdyntdata : Option ℕ

-- The back end's data, and what BFD answers: whether each section can be made and aligned, the symbol
-- `_GLOBAL_OFFSET_TABLE_`, and `_bfd_elf_create_dynamic_sections`.
pub record CreateHost : Type 0 where
  pub got_header_size : ℕ
  pub want_got_plt : Bool
  pub want_got_sym : Bool
  pub relgot_made : Bool
  pub got_made : Bool
  pub gotplt_made : Bool
  pub linkage_sym : Option ℕ
  pub create_others : DynSections → Bool × DynSections
  pub pic : Bool
  pub tdata_made : Bool

module _ (host : CreateHost) where
  unfoldable pub define_got_sym : DynSections → Bool × DynSections
  define_got_sym s =
      if host.want_got_sym
      then (has host.linkage_sym, record s { hgot = host.linkage_sym })
      else (true, s)

  unfoldable pub make_gotplt : DynSections → Bool × DynSections
  make_gotplt s =
      if not host.want_got_plt
      then define_got_sym s
      else if host.gotplt_made
      then define_got_sym (record s { sgotplt = some gotplt_header_size })
      else (false, s)

  unfoldable pub make_got : DynSections → Bool × DynSections
  make_got s =
      if host.got_made
      then make_gotplt (record s { sgot = some host.got_header_size })
      else (false, s)

  -- `riscv_elf_create_got_section`: a failure keeps what has been made before it.
  unfoldable pub create_got_section : DynSections → Bool × DynSections
  create_got_section s =
      if has s.sgot
      then (true, s)
      else if host.relgot_made
      then make_got (record s { srelgot = some 0 })
      else (false, s)

  unfoldable pub make_tdata : DynSections → DynSections
  make_tdata s =
      if host.pic then s else record s { sdyntdata = if host.tdata_made then some 0 else none }

  -- The test in front of `abort`.
  unfoldable pub is_missing : DynSections → Bool
  is_missing s =
      not (has s.splt)
      || not (has s.srelplt)
      || not (has s.sdynbss)
      || (not host.pic && (not (has s.srelbss) || not (has s.sdyntdata)))

  -- `riscv_elf_create_dynamic_sections`.
  unfoldable pub create_dynamic_sections : DynSections → Outcome (Bool × DynSections)
  create_dynamic_sections s =
      let got = create_got_section s in
      let others = host.create_others got.1 in
      let made = make_tdata others.1 in
      if not got.0
      then done got
      else if not others.0
      then done others
      else if is_missing made
      then fault
      else done (true, made)
