-- ===== src/Tests/Relax.antt =====
-- A section from which bytes are deleted.
use soft_hier_release_test.Base.{
  ℕ, ◌+◌, ◌-◌, ◌≤◌, ◌<◌, true, [], ◌∷◌, map, get_elem?, ltb, if◌then◌else◌, ◌≡◌, ◌⊎◌, inl, inr,
  refl, arith,
}
use soft_hier_release_test.Memory.{done}
use soft_hier_release_test.Bfd.{r_jal}
use soft_hier_release_test.Elf.Relax.{
  SectionSymbol, Relaxed, adjust_offset, adjust_rela, adjust_symbol, delete_bytes,
  delete_bytes-get_elem?, adjust_symbol-end, adjust_symbol-behind,
}

abbrev symbol : ℕ → ℕ → SectionSymbol
symbol value size = record { is_here = true; st_value = value; st_size = size }

-- Ten bytes, and two symbols before and behind the ones that are deleted.
abbrev section : Relaxed
section = record {
  contents = 0 ∷ 1 ∷ 2 ∷ 3 ∷ 4 ∷ 5 ∷ 6 ∷ 7 ∷ 8 ∷ 9 ∷ [];
  sec_size = 10;
  relocs = record { r_offset = 8; r_sym = 0; r_type = r_jal; r_addend = 0 } ∷ [];
  symbols = symbol 0 9 ∷ symbol 6 4 ∷ [];
}

delete_bytes-get_elem?_example :
    (t : Relaxed) × (delete_bytes 4 2 section ≡ done t)
    × (t.sec_size + 2 ≡ section.sec_size)
    × (t.relocs ≡ map (adjust_rela 4 2 10) section.relocs)
    × ((o : ℕ)
        → (o < 4) ⊎ (4 + 2 ≤ o)
        → o < section.sec_size
        → get_elem? t.contents (adjust_offset 4 2 10 o) ≡ get_elem? section.contents o)
delete_bytes-get_elem?_example =
    delete_bytes-get_elem? 4 2 section (omega arith) (omega arith) (omega arith) (omega arith)

adjust_symbol-end_example :
    let t = adjust_symbol 4 2 10 (symbol 0 9) in
    (t.st_value ≡ (if ltb 4 0 then 0 - 2 else 0))
    × (t.st_value + t.st_size ≡ (if ltb 4 (0 + 9) then 0 + 9 - 2 else 0 + 9))
adjust_symbol-end_example =
    adjust_symbol-end 4 2 10 (symbol 0 9) refl (omega arith) (omega arith) (omega arith)
      (inl (omega arith)) (inr (omega arith))

adjust_symbol-behind_example :
    let t = adjust_symbol 4 2 10 (symbol 6 4) in (t.st_value ≡ 4) × (t.st_size ≡ 4 - 2)
adjust_symbol-behind_example =
    adjust_symbol-behind 4 2 10 (symbol 6 4) refl (omega arith) (omega arith) refl (omega arith)
      (omega arith)
