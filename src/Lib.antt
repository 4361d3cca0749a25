-- ===== src/Lib.antt =====
-- The PULP back end for RISC-V of the linker library (gapy/gen-debug-info-src/ext/bfd/elf32-riscv.c).
--
-- The file is a template of GNU BFD with an extension of its own: a component can be linked apart from the
-- resident program, which then finds the names that it exports in a section `.pulp.export`, and what is
-- still to be relocated in it in `.pulp.import.names` and `.pulp.import.relocs`.
--
--   * Base, Memory and Bfd hold what the rest shares: machine words, bit fields, blocks of memory in which
--     a store out of range is a fault, and the relocation entries of BFD. A run leaves an `Outcome`: a value,
--     `return FALSE` (failed), or undefined behaviour (fault).
--   * Pulp/Hash: `hash_sdbm`, which chooses the chain of a name in either table.
--   * Pulp/Export: `ExportLookup`, `InsertExportEntry`, `ExportSectionSize`, `ReleaseExportEntry`,
--     `PulpExportCreateSection` and `DiassembleExports`. Its children hold the laws of the table (Table), the
--     bytes that the loops store (Layout), the section as a whole (Create), its reading back (Read) and an
--     undefined name (Undefined).
--   * Pulp/Import: `InsertImportEntry` in its two passes and `ReleaseImportEntry`; Sections holds
--     `PulpImportSectionsSize` and `PulpImportCreateNameAndRelocSections`, Adjust `AdjustRelocsImport`, Read
--     `DiassembleImports`, Link the way of the sections through a link, Table and Collect the laws of the table
--     and of its counting pass.
--   * Pulp/Final: `_bfd_riscv_elf32_final_link`, which makes the sections at the end of a link; Final/Ready is
--     what it needs, Final/Reads what it leaves.
--   * Elf: the reference counts of the symbols of a link. Check is `riscv_elf_check_relocs` with
--     `riscv_elf_record_tls_type` and `riscv_elf_record_got_reference`, Sweep `riscv_elf_gc_sweep_hook` and
--     `riscv_elf_gc_mark_hook`, Counts, Locals and Restore relate the two.
--     Alloc is what is allocated for a symbol (`riscv_elf_adjust_dynamic_symbol`, `allocate_dynrelocs`,
--     `readonly_dynrelocs`, in Alloc/Merge `riscv_elf_copy_indirect_symbol`), Alloc/Slots the places in the
--     PLT, Alloc/Copy the copy relocations, Alloc/Size `riscv_elf_size_dynamic_sections`, and
--     Alloc/Local the slots of local symbols. Dynamic is what the PLT and the GOT hold:
--     `riscv_elf_finish_dynamic_symbol`, in Dynamic/Sections `riscv_elf_finish_dynamic_sections`, in
--     Dynamic/Filled the filling of the PLT entries that were allocated. Reloc is `perform_relocation`,
--     Reloc/Pcrel the functions on `riscv_pcrel_relocs`. Relocate is `RegisterImportReloc` and the cases of
--     `riscv_elf_relocate_section`, Relocate/Got its GOT entries, Relocate/Turn its loop; Relocate/Once and
--     Relocate/Imports follow the GOT and the import table through it. Create is
--     `riscv_elf_create_dynamic_sections` with `riscv_elf_create_got_section`, Flags the merging of the flags of
--     the ELF headers (`_bfd_riscv_elf_merge_private_bfd_data`). Relax/Isa holds the instructions of RISC-V
--     that are written, as numbers. Relax with its children is the relaxation of a section: `riscv_relax_delete_bytes`, the relaxations (Call, Align, Import)
--     and the loop over the relocations (Section). What these call of BFD is a record of replies (`Host`,
--     `Output`, `Codec`, `RelocHost`).
--   * Tests: runs at concrete inputs.
--
-- Every static variable is a field of a state that is passed along: the tables of chains are lists of 1024
-- lists, the next pointers of C are the tails of these lists. `bfd_malloc` is a parameter that may give no
-- block; the bytes of a new block are arbitrary. `bfd_link_hash_lookup` is a parameter as well. `htab_find` of libiberty is a
-- parameter, a function of the entries that have been stored. All loops run
-- over lists or count down; only the search through forwarded symbols (`follow`) has a bound, the field
-- `depth` of its input, and a longer chain of links is a fault.
--
-- Not modelled: the output of `fprintf`, `DumpCEquiv`, the C++ tool gen-debug-info, the Python of gapy, and
-- the vendored library itself. elf64-riscv.c is the same template for 64 bits. Of elf32-riscv.c, the
-- allocation of the hash table and of its entries (`link_hash_newfunc`) is left out.
pub mod Base
pub mod Memory
pub mod Bfd
pub mod Pulp
pub mod Elf
pub mod Tests
