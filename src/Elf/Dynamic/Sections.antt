-- ===== src/Elf/Dynamic/Sections.antt =====
-- The heads of the dynamic sections (elf32-riscv.c, `riscv_finish_dyn`,
-- `riscv_elf_finish_dynamic_sections`, `riscv_reloc_type_class`).
use soft_hier_release_test.Base.{
  ℕ, ◌-◌, ◌^◌, Bool, Option, none, some, List, [], ◌∷◌, length, map, ◌==◌, if◌then◌else◌,
}
use soft_hier_release_test.Memory.{Outcome, done, failed, ◌>>=◌}
use soft_hier_release_test.Bfd.{RelocType, r_relative, r_copy, r_jump_slot}
use soft_hier_release_test.Elf.Alloc.{plt_entry_size, word_bytes}
use soft_hier_release_test.Elf.Dynamic.{DynLink, Contents, make_plt_header, put_words32}

-- The tags of `.dynamic` that have a case, and every other one by its number.
pub data DynTag : Type 0 where
  dt_pltgot dt_jmprel dt_pltrelsz : DynTag
  dt : ℕ → DynTag

pub record Dyn : Type 0 where
  pub d_tag : DynTag
  pub d_val : ℕ

-- What is read of the sections: the addresses of `.rela.plt` and `.dynamic` (`none` without one), which sections there
-- are, and whether the output of `.got.plt` is discarded.
pub record DynHost : Type 0 where
  pub dynamic_sections_created : Bool
  pub srelplt_addr : ℕ
  pub srelplt_size : ℕ
  pub sdyn_addr : Option ℕ
  pub has_sgotplt : Bool
  pub has_sgot : Bool
  pub sgotplt_discarded : Bool

-- The sections, the entries of `.dynamic`, and `sh_entsize` of the three outputs, where it is set.
pub record DynState : Type 0 where
  pub contents : Contents
  pub dynamic : List Dyn
  pub plt_entsize : Option ℕ
  pub gotplt_entsize : Option ℕ
  pub got_entsize : Option ℕ

abbrev pub or_zero : Option ℕ → ℕ
or_zero none = 0
or_zero (some a) = a

module _ (link : DynLink) (host : DynHost) where
  -- The `switch` of `riscv_finish_dyn`.
  unfoldable pub finish_tag : DynTag → ℕ → ℕ
  finish_tag dt_pltgot value = link.sgotplt_addr
  finish_tag dt_jmprel value = host.srelplt_addr
  finish_tag dt_pltrelsz value = host.srelplt_size
  finish_tag (dt n) value = value

  abbrev pub finish_entry_of : Dyn → Dyn
  finish_entry_of d = record d { d_val = finish_tag d.d_tag d.d_val }

  -- `riscv_finish_dyn`.
  unfoldable pub finish_dyn : List Dyn → List Dyn
  finish_dyn dyns = map finish_entry_of dyns

  -- The words of the PLT's header, unless the section is empty.
  unfoldable pub finish_header : List ℕ → Outcome (List ℕ)
  finish_header splt =
      if length splt == 0
      then done splt
      else put_words32 splt 0 (make_plt_header link.insns link.sgotplt_addr link.splt_addr)

  unfoldable pub finish_plt_section : DynState → Outcome DynState
  finish_plt_section s =
      if host.dynamic_sections_created
      then (do
        splt ← finish_header s.contents.splt
        done (record s {
          contents = record s.contents { splt = splt };
          dynamic = finish_dyn s.dynamic;
          plt_entsize = some plt_entry_size;
        }))
      else done s

  -- The first two words of `.got.plt`.
  unfoldable pub finish_gotplt_section : DynState → Outcome DynState
  finish_gotplt_section s =
      if host.has_sgotplt
      then if host.sgotplt_discarded then failed else (do
        sgotplt ←
            if length s.contents.sgotplt == 0
            then done s.contents.sgotplt
            else put_words32 s.contents.sgotplt 0 ((2 ^ 64 - 1) ∷ 0 ∷ [])
        done (record s {
          contents = record s.contents { sgotplt = sgotplt };
          gotplt_entsize = some word_bytes;
        }))
      else done s

  -- The first word of the GOT.
  unfoldable pub finish_got_section : DynState → Outcome DynState
  finish_got_section s =
      if host.has_sgot
      then (do
        sgot ←
            if length s.contents.sgot == 0
            then done s.contents.sgot
            else put_words32 s.contents.sgot 0 (or_zero host.sdyn_addr ∷ [])
        done (record s {
          contents = record s.contents { sgot = sgot };
          got_entsize = some word_bytes;
        }))
      else done s

  -- `riscv_elf_finish_dynamic_sections`; the assertions only report.
  unfoldable pub finish_dynamic_sections : DynState → Outcome DynState
  finish_dynamic_sections s = do
    a ← finish_plt_section s
    b ← finish_gotplt_section a
    finish_got_section b

-- `enum elf_reloc_type_class`, as far as it is given.
pub data RelocClass : Type 0 where
  reloc_class_normal reloc_class_relative reloc_class_plt reloc_class_copy : RelocClass

-- `riscv_reloc_type_class`.
unfoldable pub reloc_type_class : RelocType → RelocClass
reloc_type_class r_relative = reloc_class_relative
reloc_type_class r_jump_slot = reloc_class_plt
reloc_type_class r_copy = reloc_class_copy
reloc_type_class _ = reloc_class_normal
