-- ===== src/Elf/Relax/Section.antt =====
-- The traversal of a section's relocations (elf32-riscv.c, `_bfd_riscv_relax_section`).
use soft_hier_release_test.Base.{
  ℕ, zero, suc, ◌+◌, Bool, true, false, not, ◌&&◌, ◌||◌, Option, none, some, List, [], ◌∷◌, length,
  get_elem?, ltb, ◌==◌, if◌then◌else◌, u64, sub64, ◌<<<◌,
}
use soft_hier_release_test.Memory.{Outcome, done, failed, fault, ◌>>=◌}
use soft_hier_release_test.Bfd.{
  RelocType, Rela, r_call, r_call_plt, r_hi20, r_lo12_i, r_lo12_s, r_tprel_hi20, r_tprel_add,
  r_tprel_lo12_i, r_tprel_lo12_s, r_pcrel_hi20, r_pcrel_lo12_i, r_got_hi20, r_align, r_relax,
}
use soft_hier_release_test.Elf.{HashType, defined, defweak, is_defweak}
use soft_hier_release_test.Pulp.Hash.{Name, same_name}
use soft_hier_release_test.Elf.Relax.{SectionSymbol}
use soft_hier_release_test.Elf.Relax.Site.{Link, Site, Relaxing, rela_at}
use soft_hier_release_test.Elf.Relax.Call.{relax_call, relax_lui, relax_tls_le}
use soft_hier_release_test.Elf.Relax.Align.{relax_align}
use soft_hier_release_test.Elf.Relax.Import.{relax_import_pcrel, relax_got_ref}

-- The section of a symbol, with its output section.
pub record SymSection : Type 0 where
  pub sec_addr : ℕ
  pub output : ℕ
  pub output_alignment : ℕ
  pub merge_or_code : Bool

-- A symbol as the relaxation finds it, once links are followed. `slot` is the place of a global symbol's
-- value and size among those that the deletion of bytes adjusts; a local one stands at its own number.
pub data RelaxSymbol : Type 0 where
  local_undef : RelaxSymbol
  local_in : SymSection → RelaxSymbol
  global :
      (plt : Option ℕ) (h_type : HashType) (has_output is_func : Bool) (slot : ℕ)
      → SymSection
      → RelaxSymbol

-- The link, the file and the section, and the replies of the functions that read from the file.
pub record RelaxInput : Type 0 where
  pub link : Link
  pub relocatable : Bool
  pub sec_reloc : Bool
  pub no_optimizations : Bool
  pub first_pass : Bool
  pub component_mode : Bool
  pub sec_name : Name
  pub own : SymSection
  pub sh_info : ℕ
  pub symbol_at : ℕ → RelaxSymbol
  pub splt_addr : ℕ
  pub alignment_powers : List ℕ
  pub relocs_read : Bool
  pub contents_read : Bool
  pub symbols_read : Bool

-- `relax_func`.
pub data RelaxFunc : Type 0 where
  call_func lui_func tls_le_func import_pcrel_func got_ref_func align_func : RelaxFunc

-- The choice of `relax_func` in pass 0.
unfoldable pub first_pass_func : Bool → RelocType → Option RelaxFunc
first_pass_func component r_call = some call_func
first_pass_func component r_call_plt = some call_func
first_pass_func component r_hi20 = some lui_func
first_pass_func component r_lo12_i = some lui_func
first_pass_func component r_lo12_s = some lui_func
first_pass_func component r_tprel_hi20 = some tls_le_func
first_pass_func component r_tprel_add = some tls_le_func
first_pass_func component r_tprel_lo12_i = some tls_le_func
first_pass_func component r_tprel_lo12_s = some tls_le_func
first_pass_func component r_pcrel_hi20 = some import_pcrel_func
first_pass_func component r_pcrel_lo12_i = some import_pcrel_func
first_pass_func component r_got_hi20 = if component then some got_ref_func else none
first_pass_func component _ = none

-- The choice in pass 1.
unfoldable pub second_pass_func : RelocType → Option RelaxFunc
second_pass_func r_align = some align_func
second_pass_func _ = none

abbrev pub is_relax : RelocType → Bool
is_relax r_relax = true
is_relax _ = false

-- Whether the next relocation is the R_RISCV_RELAX of this one.
unfoldable pub is_paired : Rela → Option Rela → Bool
is_paired rel none = false
is_paired rel (some next) = is_relax next.r_type && rel.r_offset == next.r_offset

-- The name that the section's own name is compared with: "pulp.import".
abbrev pub import_name : Name
import_name = 112 ∷ 117 ∷ 108 ∷ 112 ∷ 46 ∷ 105 ∷ 109 ∷ 112 ∷ 111 ∷ 114 ∷ 116 ∷ []

-- `_bfd_riscv_get_max_alignment`.
unfoldable pub max_power : List ℕ → ℕ → ℕ
max_power [] highest = highest
max_power (p ∷ ps) highest = max_power ps (if ltb highest p then p else highest)

unfoldable pub get_max_alignment : List ℕ → ℕ
get_max_alignment powers = u64 (1 <<< max_power powers 0)

-- What is known of the symbol of a relocation.
pub record Target : Type 0 where
  pub symval : ℕ
  pub is_import : Bool
  pub sym_sec : SymSection

-- The bytes of the symbol behind the addend, and 0 where the difference wraps.
unfoldable pub size_behind : ℕ → ℕ → ℕ
size_behind st_size addend = if ltb st_size (sub64 st_size addend) then 0 else sub64 st_size addend

-- A load of a symbol.
unfoldable pub load_symbol : List SectionSymbol → ℕ → Outcome SectionSymbol
load_symbol symbols i = elim (get_elem? symbols i) [ none ↦ fault | some s ↦ done s ]

module _ (input : RelaxInput) where
  -- The target of a local symbol, `none` where the relocation is passed over, and `reserve_size`.
  unfoldable pub local_target : SymSection → Rela → SectionSymbol → ℕ × Option Target
  local_target sec rel isym = (
    size_behind isym.st_size rel.r_addend,
    (if sec.sec_addr == 0
        then none
        else some (record {
          symval = u64 (sec.sec_addr + isym.st_value);
          is_import = false;
          sym_sec = sec;
        })),
  )

  -- The value of a global symbol, `none` where the relocation is passed over.
  unfoldable pub global_symval : Option ℕ → HashType → Bool → SymSection → SectionSymbol → Option ℕ
  global_symval (some offset) h_type has_output sec h = some (u64 (input.splt_addr + offset))
  global_symval none defined true sec h = some (u64 (sec.sec_addr + h.st_value))
  global_symval none defweak true sec h = some (u64 (sec.sec_addr + h.st_value))
  global_symval none _ has_output sec h = none

  -- `reserve_size` is left as it is for a function, and where the relocation is passed over.
  unfoldable pub global_target :
      HashType → Bool → SymSection → Rela → SectionSymbol → ℕ → Option ℕ → ℕ × Option Target
  global_target h_type is_func sec rel h reserve none = (reserve, none)
  global_target h_type is_func sec rel h reserve (some value) = (
    (if is_func then reserve else size_behind h.st_size rel.r_addend),
    some (record {
      symval = value;
      is_import = is_defweak h_type && not (same_name input.sec_name import_name);
      sym_sec = sec;
    }),
  )

  unfoldable pub target_of :
      Rela → RelaxSymbol → List SectionSymbol → ℕ → Outcome (ℕ × Option Target)
  target_of rel local_undef symbols reserve = do
    isym ← load_symbol symbols rel.r_sym
    done (
      size_behind isym.st_size rel.r_addend,
      some (record {
        symval = u64 (input.link.sec_addr + rel.r_offset);
        is_import = false;
        sym_sec = input.own;
      }),
    )
  target_of rel (local_in sec) symbols reserve = do
    isym ← load_symbol symbols rel.r_sym
    done (local_target sec rel isym)
  target_of rel (global plt h_type has_output is_func slot sec) symbols reserve = do
    h ← load_symbol symbols slot
    done
        (global_target h_type is_func sec rel h reserve (global_symval plt h_type has_output sec h))

  unfoldable pub site_of : ℕ → Rela → ℕ → Target → Site
  site_of index rel reserve t = record {
    index = index;
    symval = u64 (t.symval + rel.r_addend);
    max_alignment = get_max_alignment input.alignment_powers;
    reserve_size = reserve;
    is_import = t.is_import;
    sym_output = t.sym_sec.output;
    sym_output_alignment = t.sym_sec.output_alignment;
    sym_merge_or_code = t.sym_sec.merge_or_code;
  }

  -- The call of `relax_func`.
  unfoldable pub apply_func : RelaxFunc → Site → Relaxing → Outcome Relaxing
  apply_func call_func site s = relax_call input.link site s
  apply_func lui_func site s = relax_lui input.link site s
  apply_func tls_le_func site s = relax_tls_le input.link site s
  apply_func import_pcrel_func site s = relax_import_pcrel input.link site s
  apply_func got_ref_func site s = relax_got_ref input.link site s
  apply_func align_func site s = relax_align input.link site s

  -- The call of `relax_func` for a target, with `reserve_size`.
  unfoldable pub relax_target :
      ℕ → Rela → RelaxFunc → Relaxing → ℕ → Option Target → Outcome (ℕ × Relaxing)
  relax_target index rel func s reserve none = done (reserve, s)
  relax_target index rel func s reserve (some t) = do
    s1 ← apply_func func (site_of index rel reserve t) s
    done (reserve, s1)

  -- The body of the loop behind the choice of `relax_func`.
  unfoldable pub relax_rela : ℕ → Rela → RelaxFunc → ℕ → Relaxing → Outcome (ℕ × Relaxing)
  relax_rela index rel func reserve s = do
    target ←
        if input.contents_read && (input.sh_info == 0 || input.symbols_read)
        then target_of rel (input.symbol_at rel.r_sym) s.section.symbols reserve
        else failed
    relax_target index rel func s target.0 target.1

  -- `relax_func`, with the test of the pair in pass 0; `none` where the relocation is passed over.
  unfoldable pub func_of : Rela → Option Rela → Option RelaxFunc
  func_of rel next =
      if input.first_pass
      then (if is_paired rel next then first_pass_func input.component_mode rel.r_type else none)
      else second_pass_func rel.r_type

  -- One turn of the loop; the answer says first whether to skip the next relocation.
  unfoldable pub relax_step :
      ℕ → Rela → Option RelaxFunc → ℕ → Relaxing → Outcome (Bool × ℕ × Relaxing)
  relax_step i rel none reserve s = done (false, reserve, s)
  relax_step i rel (some func) reserve s = do
    r ← relax_rela i rel func reserve s
    done (input.first_pass, r.0, r.1)

  -- The loop, with the number of relocations that are left. The second one of a pair is skipped.
  unfoldable pub relax_loop : ℕ → ℕ → Bool → ℕ → Relaxing → Outcome Relaxing
  relax_loop zero i skip reserve s = done s
  relax_loop (suc left) i true reserve s = relax_loop left (suc i) false reserve s
  relax_loop (suc left) i false reserve s = do
    rel ← rela_at s.section.relocs i
    r ← relax_step i rel (func_of rel (get_elem? s.section.relocs (suc i))) reserve s
    relax_loop left (suc i) r.0 r.1 r.2

  -- Whether there is nothing to relax.
  unfoldable pub nothing_to_relax : Relaxing → Bool
  nothing_to_relax s =
      input.relocatable
      || s.sec_flg0
      || not input.sec_reloc
      || length s.section.relocs == 0
      || (input.no_optimizations && input.first_pass)

  -- `_bfd_riscv_relax_section`; a failure leaves what was changed until then, which `failed` does not show.
  unfoldable pub relax_section : Relaxing → Outcome Relaxing
  relax_section s =
      let start = record s { again = false } in
      elim (nothing_to_relax s) [
        | true ↦ done start
        | false ↦ elim input.relocs_read [
          | false ↦ failed
          | true ↦ relax_loop (length s.section.relocs) 0 false 0 start
        ]
      ]
