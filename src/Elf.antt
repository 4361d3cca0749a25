-- ===== src/Elf.antt =====
-- The reference counts of symbols in a link (elf32-riscv.c): the data, and the search for the symbol of a
-- relocation.
pub mod Check
pub mod Sweep
pub mod Counts
pub mod Locals
pub mod Restore
pub mod Reloc
pub mod Alloc
pub mod Relax
pub mod Dynamic
pub mod Relocate
pub mod Flags
pub mod Create
use soft_hier_release_test.Base.{
  ℕ, zero, suc, ◌-◌, Bool, true, false, Option, none, some, List, ltb, ◌==◌, if◌then◌else◌,
}
use soft_hier_release_test.Memory.{Outcome, done, fault, ◌>>=◌}
use soft_hier_release_test.Bfd.{RelocType, Rela}
use soft_hier_release_test.Pulp.Hash.{Name}
use soft_hier_release_test.Pulp.Import.{ImportState}

-- `enum bfd_link_hash_type`.
pub data HashType : Type 0 where
  new_symbol undefined undefweak defined defweak common indirect warning : HashType

abbrev pub is_defweak : HashType → Bool
is_defweak defweak = true
is_defweak _ = false

abbrev pub is_forwarded : HashType → Bool
is_forwarded indirect = true
is_forwarded warning = true
is_forwarded _ = false

-- `u.def.section` of a definition, as far as it is looked at.
pub record Section : Type 0 where
  pub id : ℕ
  pub section_name : Name
  pub output_offset : ℕ

-- What the functions here read of a symbol and leave as it is; `link` is `u.i.link`.
pub record Symbol : Type 0 where
  pub string : Name
  pub h_type : HashType
  pub link : ℕ
  pub section : Option Section
  pub def_regular : Bool

-- `riscv_elf_dyn_relocs`.
pub record DynRelocs : Type 0 where
  pub sec : ℕ
  pub count : ℕ
  pub pc_count : ℕ

-- What they change of a symbol, or of a local symbol. The counts start at 0 and are never negative here.
pub record SymbolRefs : Type 0 where
  pub non_ir_ref : Bool
  pub needs_plt : Bool
  pub non_got_ref : Bool
  pub got_refcount : ℕ
  pub plt_refcount : ℕ
  pub tls_type : ℕ
  pub dyn_relocs : List DynRelocs

abbrev pub got_normal : ℕ
got_normal = 1

abbrev pub got_tls_gd : ℕ
got_tls_gd = 2

abbrev pub got_tls_ie : ℕ
got_tls_ie = 4

abbrev pub got_tls_le : ℕ
got_tls_le = 8

-- The input file, its section with the relocations, and the options of the link. The symbols of the
-- link are numbered; `depth` bounds the links that are followed.
pub record Input : Type 0 where
  pub relocatable : Bool
  pub pic : Bool
  pub executable : Bool
  pub symbolic : Bool
  pub num_symbols : ℕ
  pub sh_info : ℕ
  pub sym_hashes : ℕ → ℕ
  pub symbols : ℕ → Symbol
  pub depth : ℕ
  pub sec : ℕ
  pub sec_alloc : Bool

-- What the code calls: the table of relocation types, the section of a local symbol (`none` if the symbol
-- is not read), and whether a block, a section or a record could be made.
pub record Host : Type 0 where
  pub pc_relative : RelocType → Bool
  pub local_section : ℕ → Option ℕ
  pub memory : Bool
  pub got_made : Bool
  pub reloc_section_made : Bool
  pub vtinherit_recorded : Rela → Bool
  pub vtentry_recorded : Rela → Bool

-- The state of the link: the symbols, the counts of the file's local symbols (a null pointer at first) with
-- their `tls_type`, the dynamic relocations of local symbols by section, the import table, the sections
-- that are kept, `DF_STATIC_TLS`, and whether the GOT and the section `sreloc` are there.
pub record LinkState : Type 0 where
  pub refs : ℕ → SymbolRefs
  pub local_got : Option (ℕ → ℕ)
  pub local_tls : ℕ → ℕ
  pub local_dynrel : ℕ → List DynRelocs
  pub imports : ImportState
  pub kept : List ℕ
  pub static_tls : Bool
  pub sgot : Bool
  pub sreloc : Bool

-- A store at one index.
abbrev pub put {ℓ} : {A : Type ℓ} → (ℕ → A) → ℕ → A → ℕ → A
put f i a j = if i == j then a else f j

abbrev pub update_refs : ℕ → (SymbolRefs → SymbolRefs) → LinkState → LinkState
update_refs i f s = record s { refs = put s.refs i (f (s.refs i)) }

-- The same for a symbol that may be null.
abbrev pub update_symbol : Option ℕ → (SymbolRefs → SymbolRefs) → LinkState → LinkState
update_symbol none f s = s
update_symbol (some i) f s = update_refs i f s

-- `while (h->root.type == bfd_link_hash_indirect || …) h = h->root.u.i.link`.
unfoldable pub follow : (ℕ → Symbol) → ℕ → ℕ → Outcome ℕ
follow symbols zero i = if is_forwarded (symbols i).h_type then fault else done i
follow symbols (suc depth) i =
    let next = follow symbols depth (symbols i).link in
    if is_forwarded (symbols i).h_type then next else done i

-- `h`, null for a local symbol.
unfoldable pub symbol_of : Input → ℕ → Outcome (Option ℕ)
symbol_of input r_symndx = if ltb r_symndx input.sh_info then done none else (do
  h ← follow input.symbols input.depth (input.sym_hashes (r_symndx - input.sh_info))
  done (some h))
