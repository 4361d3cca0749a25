-- ===== src/Elf/Relocate/Got.antt =====
-- The entries of the GOT and the dynamic relocations that `riscv_elf_relocate_section` of elf32-riscv.c
-- makes.
use soft_hier_release_test.Base.{
  ℕ, ◌+◌, ◌-◌, ◌*◌, ◌/◌, ◌%◌, ◌^◌, bit_and, bit_or, Bool, true, false, not, ◌&&◌, ◌||◌, Option,
  none, some, leb, ◌==◌, if◌then◌else◌, u32, u64,
}
use soft_hier_release_test.Memory.{Outcome, done, ◌>>=◌, put_word}
use soft_hier_release_test.Bfd.{
  RelocType, Rela, r_none, r_relative, r_tls_dtpmod32, r_tls_dtprel32, r_tls_tprel32,
}
use soft_hier_release_test.Elf.{got_tls_gd, got_tls_ie, put}
use soft_hier_release_test.Elf.Alloc.{is_undefweak, is_outside, word_bytes}
use soft_hier_release_test.Elf.Alloc.Size.{ie_off}
use soft_hier_release_test.Elf.Dynamic.{append_rela, dyn_sym, is_local}
use soft_hier_release_test.Elf.Reloc.{reloc_ok, tpoff, dtpoff}
use soft_hier_release_test.Elf.Relocate.{RelocHost, Relocating, Handled, skipped, go, record_hi}

-- `off & 1`, and `off | 1`.
abbrev pub is_marked : ℕ → Bool
is_marked off = off % 2 == 1

abbrev pub mark : ℕ → ℕ
mark off = bit_or off 1

module _ (host : RelocHost) where
  abbrev pub put_got : ℕ → ℕ → Relocating → Outcome Relocating
  put_got off value s = put_word s.sgot off (u32 value) >>= λ m. done (record s { sgot = m })

  abbrev pub append_got : Rela → Relocating → Outcome Relocating
  append_got rela s = append_rela rela s.relgot >>= λ r. done (record s { relgot = r })

  -- A symbol whose entry is initialised here: once, which the lowest bit of its offset marks. The
  -- result is the offset.
  unfoldable pub init_got : ℕ → ℕ → Relocating → Outcome (ℕ × Relocating)
  init_got i relocation s =
      let off = s.got_offset i in
      if is_marked off
      then done (off - 1, s)
      else put_got off relocation s
        >>= (λ t. done (off, record t { got_offset = put t.got_offset i (mark off) }))

  -- The entry of a global symbol, and whether it is still unresolved.
  unfoldable pub global_got : ℕ → ℕ → Bool → Relocating → Outcome (ℕ × Bool × Relocating)
  global_got i relocation unresolved s =
      let h = host.dyn_symbols i in
      if not (host.will_finish h) || (host.pic && host.references_local h)
      then init_got i relocation s >>= (λ r. done (r.0, unresolved, r.1))
      else done (s.got_offset i, false, s)

  -- The relative relocation of a local symbol's entry.
  abbrev pub relative_rela : ℕ → ℕ → Rela
  relative_rela off relocation = record {
    r_offset = u64 (host.sgot_addr + off);
    r_sym = 0;
    r_type = r_relative;
    r_addend = relocation;
  }

  -- The entry of a local symbol.
  unfoldable pub fill_local_got : ℕ → ℕ → Relocating → Outcome Relocating
  fill_local_got off relocation s =
      if host.pic
      then append_got (relative_rela off relocation) s >>= put_got off 0
      else put_got off relocation s

  unfoldable pub local_got : ℕ → ℕ → Relocating → Outcome (ℕ × Relocating)
  local_got r_symndx relocation s =
      let off = s.local_got r_symndx in
      if is_marked off
      then done (off - 1, s)
      else fill_local_got off relocation s
        >>= (λ t. done (off, record t { local_got = put t.local_got r_symndx (mark off) }))

  -- The entry of the symbol of a relocation.
  unfoldable pub got_entry : Option ℕ → ℕ → ℕ → Bool → Relocating → Outcome (ℕ × Bool × Relocating)
  got_entry none r_symndx relocation unresolved s =
      local_got r_symndx relocation s >>= λ r. done (r.0, unresolved, r.1)
  got_entry (some i) r_symndx relocation unresolved s = global_got i relocation unresolved s

  -- `R_RISCV_GOT_HI20`.
  unfoldable pub got_hi20 : Option ℕ → ℕ → Rela → ℕ → Bool → Relocating → Outcome Handled
  got_hi20 h pc rel relocation unresolved s = do
    e ← got_entry h rel.r_sym relocation unresolved s
    let value = u64 (host.sgot_addr + e.0)
    let r = record_hi host pc value e.2
    done (go r.0 rel value e.1 r.1)

  -- The offset of a thread-local entry before it is marked, and the mark.
  unfoldable pub take_tls : Option ℕ → ℕ → Relocating → ℕ × Relocating
  take_tls none r_symndx s = (
    s.local_got r_symndx,
    record s { local_got = put s.local_got r_symndx (mark (s.local_got r_symndx)) },
  )
  take_tls (some i) r_symndx s =
      (s.got_offset i, record s { got_offset = put s.got_offset i (mark (s.got_offset i)) })

  abbrev pub tls_type_of : Option ℕ → ℕ → ℕ
  tls_type_of none r_symndx = host.local_tls r_symndx
  tls_type_of (some i) r_symndx = (host.dyn_symbols i).tls_type

  abbrev pub index_of : Option ℕ → ℕ
  index_of none = dyn_sym none
  index_of (some i) = i

  -- `indx`, the dynamic index that the relocations are made for.
  unfoldable pub tls_index : Option ℕ → ℕ
  tls_index none = 0
  tls_index (some i) =
      let h = host.dyn_symbols i in
      if host.will_finish h && (not host.pic || not (host.references_local h))
      then index_of h.dynindx
      else 0

  -- `need_relocs`.
  unfoldable pub need_relocs : Option ℕ → Bool
  need_relocs none = host.pic
  need_relocs (some i) =
      let h = host.dyn_symbols i in
      (host.pic || not (tls_index (some i) == 0))
      && (h.default_visibility || not (is_undefweak h.h_type))

  abbrev pub tls_rela : ℕ → ℕ → RelocType → ℕ → Rela
  tls_rela off indx type addend = record {
    r_offset = u64 (host.sgot_addr + off);
    r_sym = indx;
    r_type = type;
    r_addend = addend;
  }

  -- The second word of general dynamic access, where relocations are made.
  unfoldable pub fill_dtprel : ℕ → ℕ → ℕ → Relocating → Outcome Relocating
  fill_dtprel off indx relocation s =
      if indx == 0
      then put_got (off + word_bytes) (dtpoff host.tls_vma relocation) s
      else put_got (off + word_bytes) 0 s
        >>= append_got (tls_rela (off + word_bytes) indx r_tls_dtprel32 0)

  -- The two words of general dynamic access.
  unfoldable pub fill_gd : ℕ → ℕ → Bool → ℕ → Relocating → Outcome Relocating
  fill_gd off indx false relocation s =
      put_got off 1 s >>= put_got (off + word_bytes) (dtpoff host.tls_vma relocation)
  fill_gd off indx true relocation s = do
    a ← put_got off 0 s
    b ← append_got (tls_rela off indx r_tls_dtpmod32 0) a
    fill_dtprel off indx relocation b

  -- The word of initial-exec access.
  unfoldable pub fill_ie : ℕ → ℕ → Bool → ℕ → Relocating → Outcome Relocating
  fill_ie off indx false relocation s = put_got off (tpoff host.tp_offset host.tls_vma relocation) s
  fill_ie off indx true relocation s =
      let addend = if indx == 0 then tpoff host.tp_offset host.tls_vma relocation else 0 in
      put_got off 0 s >>= append_got (tls_rela off indx r_tls_tprel32 addend)

  abbrev pub has_kind : ℕ → ℕ → Bool
  has_kind tls_type kind = not (bit_and tls_type kind == 0)

  -- The words of general dynamic access, if there is such a reference.
  unfoldable pub fill_if_gd : Option ℕ → ℕ → ℕ → ℕ → Relocating → Outcome Relocating
  fill_if_gd h tls_type off relocation s =
      if has_kind tls_type got_tls_gd
      then fill_gd off (tls_index h) (need_relocs h) relocation s
      else done s

  -- The word of initial-exec access, if there is such a reference.
  unfoldable pub fill_if_ie : Option ℕ → ℕ → ℕ → ℕ → Relocating → Outcome Relocating
  fill_if_ie h tls_type off relocation s =
      if has_kind tls_type got_tls_ie
      then fill_ie (off + ie_off tls_type) (tls_index h) (need_relocs h) relocation s
      else done s

  -- The entry of a symbol that is met for the first time.
  unfoldable pub fill_tls : Option ℕ → ℕ → ℕ → ℕ → Relocating → Outcome Relocating
  fill_tls h tls_type off relocation s =
      fill_if_gd h tls_type off relocation s >>= fill_if_ie h tls_type off relocation

  -- `R_RISCV_TLS_GOT_HI20` (`is_ie`) and `R_RISCV_TLS_GD_HI20`.
  unfoldable pub tls_got : Bool → Option ℕ → ℕ → Rela → ℕ → Relocating → Outcome Handled
  tls_got is_ie h pc rel relocation s = do
    let taken = take_tls h rel.r_sym s
    let tls_type = tls_type_of h rel.r_sym
    t ← if is_marked taken.0 then done taken.1 else fill_tls h tls_type taken.0 relocation taken.1
    let off = taken.0 / 2 * 2 + (if is_ie then ie_off tls_type else 0)
    let value = u64 (host.sgot_addr + off)
    let r = record_hi host pc value t
    done (go r.0 rel value false r.1)

  -- Whether a word is copied to the output as a dynamic relocation.
  unfoldable pub is_dynamic_word : Option ℕ → Bool → Bool
  is_dynamic_word none pc_relative = host.pic && (not pc_relative || not (host.calls_local none))
  is_dynamic_word (some i) pc_relative =
      let h = host.dyn_symbols i in
      (host.pic
        && (h.default_visibility || not (is_undefweak h.h_type))
        && (not pc_relative || not (host.calls_local (some h))))
      || (not host.pic
          && not (is_local h.dynindx)
          && not h.non_got_ref
          && ((h.def_dynamic && not h.def_regular) || is_outside h.h_type))

  -- The symbol that the dynamic relocation names, if it does not become a relative one.
  unfoldable pub dynamic_symbol : Option ℕ → Option ℕ
  dynamic_symbol none = none
  dynamic_symbol (some i) =
      let h = host.dyn_symbols i in
      if host.pic && host.symbolic_bind h && h.def_regular then none else h.dynindx

  -- `outrel`, for the offset that `_bfd_elf_section_offset` gives.
  unfoldable pub word_rela : Option ℕ → Rela → ℕ → ℕ → Rela
  word_rela h rel relocation at =
      if leb (2 ^ 64 - 2) at
      then record { r_offset = 0; r_sym = 0; r_type = r_none; r_addend = 0 }
      else elim (dynamic_symbol h) [
        | some indx ↦ record {
          r_offset = u64 (at + host.sec_addr);
          r_sym = indx;
          r_type = rel.r_type;
          r_addend = rel.r_addend;
        }
        | none ↦ record {
          r_offset = u64 (at + host.sec_addr);
          r_sym = 0;
          r_type = r_relative;
          r_addend = u64 (relocation + rel.r_addend);
        }
      ]

  -- The dynamic relocation; the word itself is left alone unless its offset is -2.
  unfoldable pub append_word : Option ℕ → Rela → ℕ → Bool → Relocating → Outcome Handled
  append_word h rel relocation unresolved s = do
    let at = host.section_offset rel.r_offset
    sreloc ← append_rela (word_rela h rel relocation at) s.sreloc
    let t : Relocating = record s { sreloc = sreloc }
    done (if at == 2 ^ 64 - 2 then go reloc_ok rel relocation unresolved t else skipped t)

  -- `R_RISCV_32` and `R_RISCV_64`.
  unfoldable pub word_value : Option ℕ → Rela → ℕ → Bool → Relocating → Outcome Handled
  word_value h rel relocation unresolved s =
      if host.alloc && is_dynamic_word h (host.howto_of rel.r_type).pc_relative
      then append_word h rel relocation unresolved s
      else done (go reloc_ok rel relocation unresolved s)
