-- ===== src/Elf/Alloc.antt =====
-- What is allocated for a symbol of the link (elf32-riscv.c, `riscv_elf_adjust_dynamic_symbol` and
-- `allocate_dynrelocs`): entries of the PLT and the GOT, and dynamic relocations.
pub mod Slots
pub mod Copy
pub mod Merge
pub mod Size
pub mod Local
use soft_hier_release_test.Base.{
  ℕ, ◌+◌, ◌-◌, ◌*◌, bit_and, Bool, true, false, not, ◌&&◌, ◌||◌, Option, none, some, List, [], ◌∷◌,
  ◌==◌, if◌then◌else◌,
}
use soft_hier_release_test.Memory.{Outcome, done, failed, fault, ◌>>=◌}
use soft_hier_release_test.Elf.{
  HashType, indirect, undefweak, undefined, DynRelocs, got_tls_gd, got_tls_ie, put,
}

-- The unions `plt` and `got`: a count before the allocation, and then an offset, `none` for -1. Read as a
-- count, -1 is negative and an offset is itself.
pub data Place : Type 0 where
  refcount : ℕ → Place
  offset : Option ℕ → Place

abbrev pub is_referenced : Place → Bool
is_referenced (refcount n) = not (n == 0)
is_referenced (offset none) = false
is_referenced (offset (some o)) = not (o == 0)

-- A section, for the definition of a symbol: one of the inputs, or `.plt`.
pub data Home : Type 0 where
  input_section : ℕ → Home
  splt : Home

-- The symbol, as far as it is looked at; `weak_definition` is the definition of `u.weakdef`.
pub record DynSymbol : Type 0 where
  pub h_type : HashType
  pub is_function : Bool
  pub needs_plt : Bool
  pub plt : Place
  pub got : Place
  pub tls_type : ℕ
  pub default_visibility : Bool
  pub weak_definition : Option (Home × ℕ)
  pub home : Home
  pub value : ℕ
  pub size : ℕ
  pub non_got_ref : Bool
  pub needs_copy : Bool
  pub def_regular : Bool
  pub def_dynamic : Bool
  pub dynindx : Option ℕ
  pub forced_local : Bool
  pub dyn_relocs : List DynRelocs

-- The sizes of the sections that the linker makes; `sreloc` is that of the relocations of an input section.
pub record Sizes : Type 0 where
  pub plt_size : ℕ
  pub gotplt_size : ℕ
  pub relplt_size : ℕ
  pub got_size : ℕ
  pub relgot_size : ℕ
  pub relbss_size : ℕ
  pub reldynrelro_size : ℕ
  pub sreloc_size : ℕ → ℕ

abbrev pub plt_header_size : ℕ
plt_header_size = 32

abbrev pub plt_entry_size : ℕ
plt_entry_size = 16

abbrev pub word_bytes : ℕ
word_bytes = 4

-- `sizeof (Elf32_External_Rela)`.
abbrev pub rela_bytes : ℕ
rela_bytes = 12

-- The sections of `_bfd_elf_adjust_dynamic_copy`.
pub data CopySection : Type 0 where
  sdyntdata sdynrelro sdynbss : CopySection

-- The options of the link, the sections, and what the code calls: `SYMBOL_CALLS_LOCAL`,
-- `WILL_CALL_FINISH_DYNAMIC_SYMBOL`, `bfd_elf_link_record_dynamic_symbol` (the new index and
-- `forced_local`) and `_bfd_elf_adjust_dynamic_copy`.
pub record Output : Type 0 where
  pub pic : Bool
  pub nocopyreloc : Bool
  pub dynamic_sections_created : Bool
  pub output_readonly : ℕ → Bool
  pub home_readonly : Home → Bool
  pub home_alloc : Home → Bool
  pub calls_local : DynSymbol → Bool
  pub will_finish : Bool → Bool → DynSymbol → Bool
  pub record_dynamic : DynSymbol → Option (Option ℕ × Bool)
  pub adjust_copy : CopySection → DynSymbol → Outcome DynSymbol

-- Whether some copied relocation stands in a read-only section of the output.
unfoldable pub any_readonly : (ℕ → Bool) → List DynRelocs → Bool
any_readonly readonly [] = false
any_readonly readonly (p ∷ ps) = readonly p.sec || any_readonly readonly ps

abbrev pub is_undefweak : HashType → Bool
is_undefweak undefweak = true
is_undefweak _ = false

abbrev pub is_outside : HashType → Bool
is_outside undefweak = true
is_outside undefined = true
is_outside _ = false

abbrev pub is_indirect : HashType → Bool
is_indirect indirect = true
is_indirect _ = false

abbrev pub no_plt : DynSymbol → DynSymbol
no_plt h = record h { plt = offset none; needs_plt = false }

module _ (output : Output) where
  -- The copy of a variable into the executable.
  unfoldable pub copy_variable : DynSymbol → Sizes → Outcome (DynSymbol × Sizes)
  copy_variable h s =
      let readonly = output.home_readonly h.home in
      let copied = output.home_alloc h.home && not (h.size == 0) in
      let h' : DynSymbol = if copied then record h { needs_copy = true } else h in
      let s' : Sizes =
        if copied
        then if readonly
          then record s { reldynrelro_size = s.reldynrelro_size + rela_bytes }
          else record s { relbss_size = s.relbss_size + rela_bytes }
        else s in
      let section : CopySection =
        if bit_and h.tls_type 254 == 0
        then if readonly then sdynrelro else sdynbss
        else sdyntdata in
      output.adjust_copy section h' >>= λ a. done (a, s')

  -- A symbol that is no function, behind `h->plt.offset = -1`.
  unfoldable pub adjust_variable : DynSymbol → Sizes → Outcome (DynSymbol × Sizes)
  adjust_variable h s = elim h.weak_definition [
    | some (home, value) ↦ done (record h { home = home; value = value }, s)
    | none ↦
        if output.pic || not h.non_got_ref
        then done (h, s)
        else if output.nocopyreloc || not (any_readonly output.output_readonly h.dyn_relocs)
        then done (record h { non_got_ref = false }, s)
        else copy_variable h s
  ]

  -- `riscv_elf_adjust_dynamic_symbol`.
  unfoldable pub adjust_dynamic_symbol : DynSymbol → Sizes → Outcome (DynSymbol × Sizes)
  adjust_dynamic_symbol h s =
      let unneeded =
        not (is_referenced h.plt)
        || output.calls_local h
        || (not h.default_visibility && is_undefweak h.h_type) in
      if h.is_function || h.needs_plt
      then done (if unneeded then no_plt h else h, s)
      else adjust_variable (record h { plt = offset none }) s

  -- "Make sure this symbol is output as a dynamic symbol."
  unfoldable pub make_dynamic : DynSymbol → Outcome DynSymbol
  make_dynamic h = elim h.dynindx [
    | some i ↦ done h
    | none ↦ if h.forced_local then done h else elim (output.record_dynamic h) [
      | none ↦ failed
      | some (index, local) ↦ done (record h { dynindx = index; forced_local = local })
    ]
  ]

  -- The entry of the PLT, with those of `.got.plt` and `.rela.plt`.
  unfoldable pub plt_entry : DynSymbol → Sizes → DynSymbol × Sizes
  plt_entry h s =
      let at = if s.plt_size == 0 then plt_header_size else s.plt_size in
      let moved = not output.pic && not h.def_regular in
      (
        record h {
          plt = offset (some at);
          home = if moved then splt else h.home;
          value = if moved then at else h.value;
        },
        record s {
          plt_size = at + plt_entry_size;
          gotplt_size = s.gotplt_size + word_bytes;
          relplt_size = s.relplt_size + rela_bytes;
        },
      )

  unfoldable pub allocate_plt : DynSymbol → Sizes → Outcome (DynSymbol × Sizes)
  allocate_plt h s =
      if output.dynamic_sections_created && is_referenced h.plt
      then make_dynamic h >>= (λ h'.
        done (if output.will_finish true output.pic h' then plt_entry h' s else (no_plt h', s)))
      else done (no_plt h, s)

  -- The slots of the GOT that a symbol needs, and the relocations for them.
  unfoldable pub got_slots : DynSymbol → ℕ
  got_slots h =
      let gd = if bit_and h.tls_type got_tls_gd == 0 then 0 else 2 in
      let ie = if bit_and h.tls_type got_tls_ie == 0 then 0 else 1 in
      if bit_and h.tls_type 6 == 0 then 1 else gd + ie

  unfoldable pub got_relocs : DynSymbol → ℕ
  got_relocs h =
      if bit_and h.tls_type 6 == 0
      then (if output.will_finish output.dynamic_sections_created output.pic h then 1 else 0)
      else got_slots h

  unfoldable pub allocate_got : DynSymbol → Sizes → Outcome (DynSymbol × Sizes)
  allocate_got h s =
      if is_referenced h.got
      then make_dynamic h >>= (λ h'. done (
        record h' { got = offset (some s.got_size) },
        record s {
          got_size = s.got_size + got_slots h' * word_bytes;
          relgot_size = s.relgot_size + got_relocs h' * rela_bytes;
        },
      ))
      else done (record h { got = offset none }, s)

  -- The relocations that are relative to the program counter are not needed against a local symbol.
  unfoldable pub drop_pc_relative : List DynRelocs → List DynRelocs
  drop_pc_relative [] = []
  drop_pc_relative (p ∷ ps) =
      let rest = drop_pc_relative ps in
      if p.count - p.pc_count == 0
      then rest
      else record p { count = p.count - p.pc_count; pc_count = 0 } ∷ rest

  abbrev pub is_nil : List DynRelocs → Bool
  is_nil [] = true
  is_nil (p ∷ ps) = false

  -- The relocations that are kept in a position-independent output.
  unfoldable pub keep_pic : DynSymbol → Outcome DynSymbol
  keep_pic h =
      let kept = if output.calls_local h then drop_pc_relative h.dyn_relocs else h.dyn_relocs in
      let h' : DynSymbol = record h { dyn_relocs = kept } in
      if not (is_nil kept) && is_undefweak h.h_type
      then if h.default_visibility then make_dynamic h' else done (record h' { dyn_relocs = [] })
      else done h'

  abbrev pub is_dynamic : DynSymbol → Bool
  is_dynamic h = elim h.dynindx [ none ↦ false | some i ↦ true ]

  -- And in another output.
  unfoldable pub keep_fixed : DynSymbol → Outcome DynSymbol
  keep_fixed h =
      let wanted =
        not h.non_got_ref
        && (h.def_dynamic && not h.def_regular
            || output.dynamic_sections_created && is_outside h.h_type) in
      if wanted
      then make_dynamic h
        >>= (λ h'. done (if is_dynamic h' then h' else record h' { dyn_relocs = [] }))
      else done (record h { dyn_relocs = [] })

  unfoldable pub allocate_relocs : List DynRelocs → Sizes → Sizes
  allocate_relocs [] s = s
  allocate_relocs (p ∷ ps) s = allocate_relocs ps (record s {
    sreloc_size = put s.sreloc_size p.sec (s.sreloc_size p.sec + p.count * rela_bytes);
  })

  unfoldable pub allocate_copied : DynSymbol → Sizes → Outcome (DynSymbol × Sizes)
  allocate_copied h s =
      if is_nil h.dyn_relocs
      then done (h, s)
      else (if output.pic then keep_pic h else keep_fixed h) >>= λ h'.
          done (h', allocate_relocs h'.dyn_relocs s)

  -- `allocate_dynrelocs`.
  unfoldable pub allocate_dynrelocs : DynSymbol → Sizes → Outcome (DynSymbol × Sizes)
  allocate_dynrelocs h s =
      if is_indirect h.h_type
      then done (h, s)
      else allocate_plt h s >>= (λ a. allocate_got a.0 a.1) >>= (λ a. allocate_copied a.0 a.1)

  -- `elf_link_hash_traverse` with it.
  unfoldable pub allocate_all : List DynSymbol → Sizes → Outcome (List DynSymbol × Sizes)
  allocate_all [] s = done ([], s)
  allocate_all (h ∷ hs) s =
      allocate_dynrelocs h s >>= λ a. allocate_all hs a.1 >>= λ b. done (a.0 ∷ b.0, b.1)

  -- The symbol and the sizes at an answer FALSE of `allocate_dynrelocs`, which keeps what has been done.
  unfoldable pub stopped_copied : DynSymbol → DynSymbol
  stopped_copied h =
      if output.pic && output.calls_local h
      then record h { dyn_relocs = drop_pc_relative h.dyn_relocs }
      else h

  unfoldable pub stopped_dynrelocs : DynSymbol → Sizes → DynSymbol × Sizes
  stopped_dynrelocs h s = elim (allocate_plt h s) [
    | failed ↦ (h, s)
    | fault ↦ (h, s)
    | done a ↦ elim (allocate_got a.0 a.1) [
      | failed ↦ a
      | fault ↦ a
      | done b ↦ (stopped_copied b.0, b.1)
    ]
  ]

  -- The traversal as its caller sees it, which does not look at the answer: it ends at the first FALSE.
  unfoldable pub traverse_all : List DynSymbol → Sizes → List DynSymbol × Sizes
  traverse_all [] s = ([], s)
  traverse_all (h ∷ hs) s =
      let rest = traverse_all hs in
      elim (allocate_dynrelocs h s) [
        | done a ↦ (a.0 ∷ (rest a.1).0, (rest a.1).1)
        | failed ↦ ((stopped_dynrelocs h s).0 ∷ hs, (stopped_dynrelocs h s).1)
        | fault ↦ ((stopped_dynrelocs h s).0 ∷ hs, (stopped_dynrelocs h s).1)
      ]

-- `readonly_dynrelocs`: whether the traversal goes on, and `DF_TEXTREL`.
unfoldable pub readonly_dynrelocs : (ℕ → Bool) → DynSymbol → Bool → Bool × Bool
readonly_dynrelocs readonly h textrel =
    if any_readonly readonly h.dyn_relocs then (false, true) else (true, textrel)
