-- ===== src/Pulp.antt =====
-- The PULP import and export sections of gapy/gen-debug-info-src/ext/bfd/elf32-riscv.c: the tables
-- of names, the sections that the linker makes of them, and the readers of those sections.
pub mod Hash
pub mod Export
pub mod Import
pub mod Final
