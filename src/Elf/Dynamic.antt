-- ===== src/Elf/Dynamic.antt =====
-- The contents of the dynamic sections (elf32-riscv.c): the PLT, the GOT, and what
-- `riscv_elf_finish_dynamic_symbol` writes for a symbol. The sections hold bytes, those of relocations entries.
pub mod Words
pub mod Sections
pub mod Finished
pub mod Filled
use soft_hier_release_test.Base.{
  ℕ, suc, ◌+◌, ◌-◌, ◌*◌, ◌/◌, ◌^◌, bit_and, bit_or, Bool, true, false, ◌&&◌, ◌||◌, Option, none,
  some, List, [], ◌∷◌, ◌==◌, if◌then◌else◌, u32, u64, sub64,
}
use soft_hier_release_test.Memory.{Outcome, done, ◌>>=◌, write, put_word}
use soft_hier_release_test.Bfd.{Rela, r_32, r_relative, r_copy, r_jump_slot}
use soft_hier_release_test.Elf.{got_tls_gd, got_tls_ie}
use soft_hier_release_test.Elf.Alloc.{
  Place, offset, Home, DynSymbol, plt_header_size, plt_entry_size, word_bytes,
}

-- The encoders and constants of opcode/riscv.h that the PLT is made with, by their names there.
pub record Insns : Type 0 where
  pub pcrel_high_part : ℕ → ℕ → ℕ
  pub pcrel_low_part : ℕ → ℕ → ℕ
  pub auipc : ℕ → ℕ → ℕ
  pub sub : ℕ → ℕ → ℕ → ℕ
  pub lw : ℕ → ℕ → ℕ → ℕ
  pub addi : ℕ → ℕ → ℕ → ℕ
  pub srli : ℕ → ℕ → ℕ → ℕ
  pub jalr : ℕ → ℕ → ℕ → ℕ
  pub nop : ℕ
  pub x_t0 : ℕ
  pub x_t1 : ℕ
  pub x_t2 : ℕ
  pub x_t3 : ℕ

-- `GOTPLT_HEADER_SIZE`.
abbrev pub gotplt_header_size : ℕ
gotplt_header_size = 8

-- `riscv_make_plt_header`; the immediate of the first ADDI is negative.
unfoldable pub make_plt_header : Insns → ℕ → ℕ → List ℕ
make_plt_header i gotplt_addr addr =
    let high = i.pcrel_high_part gotplt_addr addr in
    let low = i.pcrel_low_part gotplt_addr addr in
    i.auipc i.x_t2 high
    ∷ i.sub i.x_t1 i.x_t1 i.x_t3
    ∷ i.lw i.x_t3 i.x_t2 low
    ∷ i.addi i.x_t1 i.x_t1 (sub64 0 (plt_header_size + 12))
    ∷ i.addi i.x_t0 i.x_t2 low
    ∷ i.srli i.x_t1 i.x_t1 2
    ∷ i.lw i.x_t0 i.x_t0 word_bytes
    ∷ i.jalr 0 i.x_t3 0
    ∷ []

-- `riscv_make_plt_entry`.
unfoldable pub make_plt_entry : Insns → ℕ → ℕ → List ℕ
make_plt_entry i got addr =
    i.auipc i.x_t3 (i.pcrel_high_part got addr)
    ∷ i.lw i.x_t3 i.x_t3 (i.pcrel_low_part got addr)
    ∷ i.jalr i.x_t1 i.x_t3 0
    ∷ i.nop
    ∷ []

-- The link: addresses of sections in the output, and options.
pub record DynLink : Type 0 where
  pub insns : Insns
  pub splt_addr : ℕ
  pub sgotplt_addr : ℕ
  pub sgot_addr : ℕ
  pub pic : Bool
  pub symbolic : Bool
  pub home_addr : Home → ℕ
  pub is_dynrelro : Home → Bool

-- A section to which relocations are appended.
pub record Appended : Type 0 where
  pub entries : List Rela
  pub reloc_count : ℕ

-- The contents of the dynamic sections.
pub record Contents : Type 0 where
  pub splt : List ℕ
  pub sgotplt : List ℕ
  pub sgot : List ℕ
  pub relplt : List Rela
  pub relgot : Appended
  pub relbss : Appended
  pub reldynrelro : Appended

-- `sym->st_shndx`, as far as it is written here.
pub data Shndx : Type 0 where
  shn_undef shn_abs : Shndx
  shn : ℕ → Shndx

-- The symbol that is put out.
pub record SymOut : Type 0 where
  pub st_shndx : Shndx
  pub st_value : ℕ

-- `riscv_elf_append_rela`.
unfoldable pub append_rela : Rela → Appended → Outcome Appended
append_rela rela s = do
  entries ← write s.entries s.reloc_count rela
  done (record { entries = entries; reloc_count = suc s.reloc_count })

-- `bfd_put_32` of the words of an array, one behind the other.
unfoldable pub put_words32 : List ℕ → ℕ → List ℕ → Outcome (List ℕ)
put_words32 m at [] = done m
put_words32 m at (w ∷ ws) = do m' ← put_word m at (u32 w); put_words32 m' (at + 4) ws

-- `ELF32_R_SYM` of an info that is made of a dynamic index, which is -1 for `none`.
abbrev pub dyn_sym : Option ℕ → ℕ
dyn_sym none = 2 ^ 24 - 1
dyn_sym (some i) = i

abbrev pub is_local : Option ℕ → Bool
is_local none = true
is_local (some i) = false

-- The index of a PLT entry.
unfoldable pub plt_index : ℕ → ℕ
plt_index at = sub64 at plt_header_size / plt_entry_size

-- `riscv_elf_plt_sym_val` for a section `plt` at an address.
unfoldable pub plt_sym_val : ℕ → ℕ → ℕ
plt_sym_val i plt_vma = u64 (plt_vma + plt_header_size + i * plt_entry_size)

module _ (link : DynLink) where
  -- `riscv_elf_got_plt_val`.
  unfoldable pub got_plt_val : ℕ → ℕ
  got_plt_val index = u64 (link.sgotplt_addr + gotplt_header_size + index * word_bytes)

  -- The relocation of a PLT entry.
  abbrev pub jump_slot : ℕ → Option ℕ → Rela
  jump_slot index dynindx = record {
    r_offset = got_plt_val index;
    r_sym = dyn_sym dynindx;
    r_type = r_jump_slot;
    r_addend = 0;
  }

  -- The PLT entry at an offset, its word in `.got.plt`, and its relocation, by the index of the entry.
  unfoldable pub fill_plt : Option ℕ → ℕ → ℕ → Contents → Outcome Contents
  fill_plt dynindx at index s = do
    let got_address = got_plt_val index
    splt ← put_words32 s.splt at (make_plt_entry link.insns got_address (u64 (link.splt_addr + at)))
    sgotplt ← put_word s.sgotplt (sub64 got_address link.sgotplt_addr) (u32 link.splt_addr)
    relplt ← write s.relplt index (jump_slot index dynindx)
    done (record s { splt = splt; sgotplt = sgotplt; relplt = relplt })

  -- The same for a symbol at an offset.
  unfoldable pub finish_plt : Option ℕ → ℕ → Contents → Outcome Contents
  finish_plt dynindx at s = fill_plt dynindx at (plt_index at) s

  -- The symbol that is put out, if it has a PLT entry.
  unfoldable pub undefined_plt : Bool → DynSymbol → SymOut → SymOut
  undefined_plt ref_regular_nonweak h sym = if h.def_regular then sym else record sym {
    st_shndx = shn_undef;
    st_value = (if ref_regular_nonweak then sym.st_value else 0);
  }

  -- `h->root.u.def.value` in the output.
  abbrev pub home_value : DynSymbol → ℕ
  home_value h = u64 (link.home_addr h.home + h.value)

  -- The relocation of a GOT entry, by the offset without its lowest bit.
  unfoldable pub got_rela : DynSymbol → ℕ → Rela
  got_rela h at =
      if link.pic && (link.symbolic || is_local h.dynindx) && h.def_regular
      then record {
        r_offset = u64 (link.sgot_addr + at);
        r_sym = 0;
        r_type = r_relative;
        r_addend = home_value h;
      }
      else record {
        r_offset = u64 (link.sgot_addr + at);
        r_sym = dyn_sym h.dynindx;
        r_type = r_32;
        r_addend = 0;
      }

  -- The GOT entry, unless it is a thread-local one.
  unfoldable pub finish_got : DynSymbol → Place → Contents → Outcome Contents
  finish_got h (offset (some got)) s =
      if bit_and h.tls_type (bit_or got_tls_gd got_tls_ie) == 0
      then (do
        let at = got / 2 * 2
        sgot ← put_word s.sgot at 0
        relgot ← append_rela (got_rela h at) s.relgot
        done (record s { sgot = sgot; relgot = relgot }))
      else done s
  finish_got h _ s = done s

  -- The copy relocation.
  unfoldable pub finish_copy : DynSymbol → Contents → Outcome Contents
  finish_copy h s =
      let rela : Rela = record {
        r_offset = home_value h;
        r_sym = dyn_sym h.dynindx;
        r_type = r_copy;
        r_addend = 0;
      } in
      if h.needs_copy
      then (if link.is_dynrelro h.home
          then append_rela rela s.reldynrelro >>= (λ r. done (record s { reldynrelro = r }))
          else append_rela rela s.relbss >>= (λ r. done (record s { relbss = r })))
      else done s

  -- The PLT part with the symbol that is put out.
  unfoldable pub finish_entry :
      Bool → DynSymbol → Place → SymOut → Contents → Outcome (SymOut × Contents)
  finish_entry nonweak h (offset (some at)) sym s = do
    t ← finish_plt h.dynindx at s
    done (undefined_plt nonweak h sym, t)
  finish_entry nonweak h _ sym s = done (sym, s)

  -- `riscv_elf_finish_dynamic_symbol`; `special` says whether the symbol is `_DYNAMIC` or that of the GOT or
  -- the PLT. The assertions only report.
  unfoldable pub finish_dynamic_symbol :
      (nonweak special : Bool) → DynSymbol → SymOut → Contents → Outcome (SymOut × Contents)
  finish_dynamic_symbol nonweak special h sym s = do
    a ← finish_entry nonweak h h.plt sym s
    b ← finish_got h h.got a.1
    c ← finish_copy h b
    done ((if special then record a.0 { st_shndx = shn_abs } else a.0), c)
