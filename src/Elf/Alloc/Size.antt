-- ===== src/Elf/Alloc/Size.antt =====
-- The sizes of the dynamic sections (elf32-riscv.c, `riscv_elf_size_dynamic_sections`).
use soft_hier_release_test.Base.{
  ℕ, ◌+◌, ◌*◌, bit_and, bit_or, Bool, true, false, not, ◌&&◌, ◌||◌, Option, none, some, List, [],
  ◌∷◌, ◌++◌, replicate, ◌==◌, if◌then◌else◌,
}
use soft_hier_release_test.Memory.{Outcome, done, failed, ◌>>=◌}
use soft_hier_release_test.Elf.{DynRelocs, got_tls_gd, got_tls_ie, put}
use soft_hier_release_test.Elf.Alloc.{
  DynSymbol, Sizes, Output, word_bytes, rela_bytes, traverse_all, readonly_dynrelocs,
}

-- A local symbol: its count in the GOT, and `local_tls_type`.
pub record LocalGot : Type 0 where
  pub got_refcount : ℕ
  pub local_tls_type : ℕ

-- An input file that is one of this back end: the dynamic relocations of the local symbols, and the local
-- symbols themselves (`none` where there are no counts).
pub record InputBfd : Type 0 where
  pub local_dynrel : List DynRelocs
  pub local_got : Option (List LocalGot)

-- A section that the linker made.
pub data SectionKind : Type 0 where
  made_here rela_section foreign : SectionKind

pub record DynSection : Type 0 where
  pub kind : SectionKind
  pub linker_created : Bool
  pub has_contents : Bool
  pub section_size : ℕ
  pub excluded : Bool
  pub reloc_counter : ℕ
  pub bytes : Option (List ℕ)

-- The tags that are added to `.dynamic`.
pub data AddedTag : Type 0 where
  dt_debug dt_pltgot dt_pltrelsz dt_pltrel dt_jmprel dt_rela dt_relasz dt_relaent dt_textrel :
      AddedTag

-- What is known of the link: `is_discarded` is the test of the two output sections, `has_gotplt` whether there
-- is a `.got.plt`, `got_symbol` whether `_GLOBAL_OFFSET_TABLE_` is there with a strong reference, and the last two
-- are the replies of `bfd_zalloc` and `_bfd_elf_add_dynamic_entry`.
pub record SizeHost : Type 0 where
  pub executable : Bool
  pub nointerp : Bool
  pub is_discarded : ℕ → Bool
  pub has_gotplt : Bool
  pub got_symbol : Bool
  pub got_header_size : ℕ
  pub memory : ℕ → Bool
  pub entry_added : AddedTag → Bool

-- What the function changes besides the symbols.
pub record SizeState : Type 0 where
  pub sizes : Sizes
  pub textrel : Bool
  pub interp_size : ℕ
  pub dynamic : List AddedTag

-- `strlen ("/lib32/ld.so.1") + 1`.
abbrev pub interpreter_bytes : ℕ
interpreter_bytes = 15

-- The slots of the GOT for a local symbol.
unfoldable pub local_slots : ℕ → ℕ
local_slots tls_type = if bit_and tls_type got_tls_gd == 0 then 1 else 2

-- The relocations for them.
unfoldable pub local_relocs : Bool → ℕ → ℕ
local_relocs pic tls_type =
    if pic || not (bit_and tls_type (bit_or got_tls_gd got_tls_ie) == 0) then 1 else 0

-- `ie_off` of `riscv_elf_relocate_section`: where a symbol with both kinds of thread-local slots has the word
-- of its IE reference.
unfoldable pub ie_off : ℕ → ℕ
ie_off tls_type =
    if not (bit_and tls_type got_tls_gd == 0) && not (bit_and tls_type got_tls_ie == 0)
    then 2 * word_bytes
    else 0

module _ (output : Output) where
  -- The loop over `local_got`: the offsets, `none` for -1, and the sizes.
  unfoldable pub size_local_got : List LocalGot → Sizes → List (Option ℕ) × Sizes
  size_local_got [] s = ([], s)
  size_local_got (l ∷ ls) s =
      let next : Sizes = if l.got_refcount == 0 then s else record s {
        got_size = s.got_size + local_slots l.local_tls_type * word_bytes;
        relgot_size = s.relgot_size + local_relocs output.pic l.local_tls_type * rela_bytes;
      } in
      let rest = size_local_got ls next in
      ((if l.got_refcount == 0 then none else some s.got_size) ∷ rest.0, rest.1)

  module _ (host : SizeHost) where
    -- One entry of `local_dynrel`.
    unfoldable pub size_dynrel : DynRelocs → SizeState → SizeState
    size_dynrel p s = if host.is_discarded p.sec || p.count == 0 then s else record s {
      sizes = record s.sizes {
        sreloc_size =
            put s.sizes.sreloc_size p.sec (s.sizes.sreloc_size p.sec + p.count * rela_bytes);
      };
      textrel = s.textrel || output.output_readonly p.sec;
    }

    unfoldable pub size_dynrels : List DynRelocs → SizeState → SizeState
    size_dynrels [] s = s
    size_dynrels (p ∷ ps) s = size_dynrels ps (size_dynrel p s)

    -- The body of the loop over the input files.
    unfoldable pub size_input : InputBfd → SizeState → List (Option ℕ) × SizeState
    size_input ibfd s =
        let t = size_dynrels ibfd.local_dynrel s in
        elim ibfd.local_got [
          | none ↦ ([], t)
          | some ls ↦ let r = size_local_got ls t.sizes in (r.0, record t { sizes = r.1 })
        ]

    unfoldable pub size_inputs : List InputBfd → SizeState → List (List (Option ℕ)) × SizeState
    size_inputs [] s = ([], s)
    size_inputs (b ∷ bs) s =
        let r = size_input b s in let rest = size_inputs bs r.1 in (r.0 ∷ rest.0, rest.1)

    -- `.got.plt` is dropped if nothing but its header is in it and nothing refers to it.
    unfoldable pub drop_gotplt : Sizes → Sizes
    drop_gotplt s =
        if host.has_gotplt
          && not host.got_symbol
          && s.gotplt_size == 8
          && s.plt_size == 0
          && (s.got_size == host.got_header_size)
        then record s { gotplt_size = 0 }
        else s

    -- The memory of a section that is kept.
    unfoldable pub allocate_bytes : DynSection → Outcome DynSection
    allocate_bytes s =
        if s.section_size == 0
        then done (record s { excluded = true })
        else if not s.has_contents
        then done s
        else if host.memory s.section_size
        then done (record s { bytes = some (replicate s.section_size 0) })
        else failed

    -- The body of the loop over `dynobj->sections`.
    unfoldable pub size_section : DynSection → SectionKind → Outcome DynSection
    size_section s made_here = if s.linker_created then allocate_bytes s else done s
    size_section s rela_section =
        if s.linker_created
        then allocate_bytes (if s.section_size == 0 then s else record s { reloc_counter = 0 })
        else done s
    size_section s foreign = done s

    unfoldable pub size_sections : List DynSection → Outcome (List DynSection)
    size_sections [] = done []
    size_sections (s ∷ ss) = do t ← size_section s s.kind; ts ← size_sections ss; done (t ∷ ts)

    -- `add_dynamic_entry` for some tags, up to the first that fails.
    unfoldable pub add_entries : List AddedTag → SizeState → Outcome SizeState
    add_entries [] s = done s
    add_entries (t ∷ ts) s =
        let rest = add_entries ts (record s { dynamic = s.dynamic ++ t ∷ [] }) in
        if host.entry_added t then rest else failed

    -- The traversal with `readonly_dynrelocs`.
    unfoldable pub text_relocs : List DynSymbol → Bool → Bool
    text_relocs [] textrel = textrel
    text_relocs (h ∷ hs) textrel =
        let r = readonly_dynrelocs output.output_readonly h textrel in
        let rest = text_relocs hs r.1 in if r.0 then rest else r.1

    -- The entries of `.dynamic`.
    unfoldable pub add_all_entries : List DynSymbol → SizeState → Outcome SizeState
    add_all_entries hs s = do
      a ← add_entries (if host.executable then dt_debug ∷ [] else []) s
      b ←
          add_entries
            (if s.sizes.relplt_size == 0
              then []
              else dt_pltgot ∷ dt_pltrelsz ∷ dt_pltrel ∷ dt_jmprel ∷ [])
            a
      c ← add_entries (dt_rela ∷ dt_relasz ∷ dt_relaent ∷ []) b
      let text = if c.textrel then true else text_relocs hs false
      add_entries (if text then dt_textrel ∷ [] else []) (record c { textrel = text })

    -- `riscv_elf_size_dynamic_sections`. `sections_of` gives the sections that the linker made, with the
    -- sizes that were computed; the result has the local offsets of each file.
    unfoldable pub size_dynamic_sections :
        (Sizes → List DynSection)
        → List InputBfd
        → List DynSymbol
        → SizeState
        → Outcome (List (List (Option ℕ)) × List DynSymbol × List DynSection × SizeState)
    size_dynamic_sections sections_of bfds hs s = do
      let created = output.dynamic_sections_created
      let interp : SizeState =
          if created && host.executable && not host.nointerp
          then record s { interp_size = interpreter_bytes }
          else s
      let locals = size_inputs bfds interp
      let (gs, sizes) = traverse_all output hs locals.1.sizes
      let t : SizeState = record locals.1 { sizes = drop_gotplt sizes }
      sections ← size_sections (sections_of t.sizes)
      u ← if created then add_all_entries gs t else done t
      done (locals.0, gs, sections, u)
