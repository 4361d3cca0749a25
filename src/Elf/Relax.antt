-- ===== src/Elf/Relax.antt =====
-- The deletion of bytes while a section is relaxed (elf32-riscv.c, `riscv_relax_delete_bytes`).
pub mod Site
pub mod Call
pub mod Align
pub mod Import
pub mod Section
pub mod Shrink
pub mod Bounds
pub mod Aligned
pub mod Isa
pub mod Shorter
pub mod Pairs
use soft_hier_release_test.Base.{
  ℕ, ◌+◌, ◌-◌, ◌^◌, ◌≤◌, ◌<◌, Bool, true, ◌&&◌, List, ◌++◌, map, length, get_elem?, take, drop, ltb,
  leb, if◌then◌else◌, u64, sub64, ◌≡◌, ◌⊎◌, inl, inr, refl, ap, ◌∙◌, arith, length-take,
  length-drop, get_elem?-append_left, get_elem?-append_right, get_elem?-take, get_elem?-drop,
}
use soft_hier_release_test.Memory.{Outcome, done, fault, ◌>>=◌}
use soft_hier_release_test.Bfd.{Rela}

-- A symbol, local or global, and whether it is defined in the section.
pub record SectionSymbol : Type 0 where
  pub is_here : Bool
  pub st_value : ℕ
  pub st_size : ℕ

-- The section, with the symbols of its file.
pub record Relaxed : Type 0 where
  pub contents : List ℕ
  pub sec_size : ℕ
  pub relocs : List Rela
  pub symbols : List SectionSymbol

-- `memmove (contents + addr, contents + addr + count, toaddr - addr - count)`; the length is computed in an
-- unsigned type, so it is huge where the bytes are not all in the section.
unfoldable pub move_bytes : List ℕ → ℕ → ℕ → ℕ → Outcome (List ℕ)
move_bytes contents addr count toaddr =
    if leb (addr + count) toaddr && leb toaddr (length contents)
    then done (
        take addr contents
        ++ (take (toaddr - (addr + count)) (drop (addr + count) contents)
            ++ drop (toaddr - count) contents))
    else fault

module _ (addr count toaddr : ℕ) where
  unfoldable pub adjust_offset : ℕ → ℕ
  adjust_offset offset = if ltb addr offset && ltb offset toaddr then sub64 offset count else offset

  abbrev pub adjust_rela : Rela → Rela
  adjust_rela r = record r { r_offset = adjust_offset r.r_offset }

  unfoldable pub adjust_value : ℕ → ℕ
  adjust_value value = if ltb addr value && leb value toaddr then sub64 value count else value

  -- The size, which is tested with the value that has been adjusted.
  unfoldable pub adjust_size : ℕ → ℕ → ℕ
  adjust_size value size =
      if leb value addr && (ltb addr (u64 (value + size)) && leb (u64 (value + size)) toaddr)
      then sub64 size count
      else size

  unfoldable pub adjust_symbol : SectionSymbol → SectionSymbol
  adjust_symbol s =
      let value = adjust_value s.st_value in
      if s.is_here then record s { st_value = value; st_size = adjust_size value s.st_size } else s

-- `riscv_relax_delete_bytes`.
unfoldable pub delete_bytes : ℕ → ℕ → Relaxed → Outcome Relaxed
delete_bytes addr count s = do
  contents ← move_bytes s.contents addr count s.sec_size
  done (record {
    contents = contents;
    sec_size = sub64 s.sec_size count;
    relocs = map (adjust_rela addr count s.sec_size) s.relocs;
    symbols = map (adjust_symbol addr count s.sec_size) s.symbols;
  })

module _ (contents : List ℕ) (addr count toaddr : ℕ) where
  -- The bytes after the deletion.
  abbrev moved : List ℕ
  moved =
      take addr contents
      ++ (take (toaddr - (addr + count)) (drop (addr + count) contents)
          ++ drop (toaddr - count) contents)

  moved-front :
      (o : ℕ) → o < addr → addr ≤ length contents → get_elem? moved o ≡ get_elem? contents o
  moved-front o before inside =
      get_elem?-append_left (take addr contents) _ o
        (omega (arith, length-take addr contents inside))
      ∙ get_elem?-take addr contents o before

  moved-back :
      (o : ℕ)
      → addr + count ≤ o
      → o < toaddr
      → toaddr ≤ length contents
      → get_elem? moved (o - count) ≡ get_elem? contents o
  moved-back o behind below inside =
      let middle = drop (addr + count) contents in
      let n = toaddr - (addr + count) in
      let i = o - (addr + count) in
      let width = length-take n middle (omega (arith, length-drop (addr + count) contents)) in
      get_elem?-append_right (take addr contents) _ i (o - count)
        (omega (arith, length-take addr contents (omega arith)))
      ∙ get_elem?-append_left (take n middle) (drop (toaddr - count) contents) i
          (omega (arith, width))
      ∙ get_elem?-take n middle i (omega arith)
      ∙ get_elem?-drop (addr + count) contents i o (omega arith)

  move_bytes-done :
      addr + count ≤ toaddr
      → toaddr ≤ length contents
      → move_bytes contents addr count toaddr ≡ done moved
  unfolding move_bytes
  move_bytes-done room inside = ground arith

adjust_offset-front : (addr count toaddr o : ℕ) → o < addr → adjust_offset addr count toaddr o ≡ o
unfolding adjust_offset
adjust_offset-front addr count toaddr o h = ground arith

adjust_offset-back :
    (addr count toaddr o : ℕ)
    → 0 < count
    → addr + count ≤ o
    → o < toaddr
    → toaddr < 2 ^ 64
    → adjust_offset addr count toaddr o ≡ o - count
unfolding adjust_offset
adjust_offset-back addr count toaddr o some_bytes behind below bound = ground arith

-- The section after the deletion, with its new contents.
abbrev deleted : ℕ → ℕ → Relaxed → List ℕ → Relaxed
deleted addr count s m = record {
  contents = m;
  sec_size = sub64 s.sec_size count;
  relocs = map (adjust_rela addr count s.sec_size) s.relocs;
  symbols = map (adjust_symbol addr count s.sec_size) s.symbols;
}

delete_bytes-deleted :
    (addr count : ℕ) (s : Relaxed) (m : List ℕ)
    → move_bytes s.contents addr count s.sec_size ≡ done m
    → delete_bytes addr count s ≡ done (deleted addr count s m)
unfolding delete_bytes
delete_bytes-deleted addr count s m h = rw h

-- The deletion of at least one byte, where the deleted bytes are in the section, the section is in
-- its block and its size fits 64 bits: the answer is TRUE, the section is shorter by their number,
-- the relocations are adjusted, and the byte at an offset of the section that is not deleted stands
-- afterwards at its adjusted offset.
pub delete_bytes-get_elem? :
    (addr count : ℕ) (s : Relaxed)
    → 0 < count
    → addr + count ≤ s.sec_size
    → s.sec_size ≤ length s.contents
    → s.sec_size < 2 ^ 64
    → (t : Relaxed) × (delete_bytes addr count s ≡ done t)
      × (t.sec_size + count ≡ s.sec_size)
      × (t.relocs ≡ map (adjust_rela addr count s.sec_size) s.relocs)
      × ((o : ℕ)
          → (o < addr) ⊎ (addr + count ≤ o)
          → o < s.sec_size
          → get_elem? t.contents (adjust_offset addr count s.sec_size o) ≡ get_elem? s.contents o)
delete_bytes-get_elem? addr count s some_bytes room inside bound = (
  deleted addr count s (moved s.contents addr count s.sec_size),
  delete_bytes-deleted addr count s _
      (move_bytes-done s.contents addr count s.sec_size room inside),
  omega arith,
  refl,
  λ o place below. survives o place below,
)
  where
    survives :
        (o : ℕ)
        → (o < addr) ⊎ (addr + count ≤ o)
        → o < s.sec_size
        → get_elem? (moved s.contents addr count s.sec_size) (adjust_offset addr count s.sec_size o)
          ≡ get_elem? s.contents o
    survives o (inl front) below =
        ap (get_elem? (moved s.contents addr count s.sec_size))
          (adjust_offset-front addr count s.sec_size o front)
        ∙ moved-front s.contents addr count s.sec_size o front (omega arith)
    survives o (inr back) below =
        ap (get_elem? (moved s.contents addr count s.sec_size))
          (adjust_offset-back addr count s.sec_size o some_bytes back below bound)
        ∙ moved-back s.contents addr count s.sec_size o back below inside

-- A symbol inside the section, with the deleted bytes in the section and its size in 64 bits, whose
-- start is not among the bytes that are deleted, nor directly behind them, and whose end is not
-- among them either: its start and its end move like the bytes that they point to.
pub adjust_symbol-end :
    (addr count toaddr : ℕ) (s : SectionSymbol)
    → s.is_here ≡ true
    → addr + count ≤ toaddr
    → toaddr < 2 ^ 64
    → s.st_value + s.st_size ≤ toaddr
    → (s.st_value ≤ addr) ⊎ (addr + count < s.st_value)
    → (s.st_value + s.st_size ≤ addr) ⊎ (addr + count ≤ s.st_value + s.st_size)
    → let t = adjust_symbol addr count toaddr s in
      (t.st_value ≡ (if ltb addr s.st_value then s.st_value - count else s.st_value))
      × (t.st_value + t.st_size ≡ (
          if ltb addr (s.st_value + s.st_size)
          then s.st_value + s.st_size - count
          else s.st_value + s.st_size))
unfolding adjust_symbol adjust_value adjust_size
adjust_symbol-end addr count toaddr s here room bound inside start end =
    (ground arith, ground arith)

-- A symbol inside the section that starts directly behind at least one deleted byte and is larger
-- than they are: the code tests its size with the value that it has already taken down, and so takes
-- the size down as well, though no byte of the symbol is deleted.
pub adjust_symbol-behind :
    (addr count toaddr : ℕ) (s : SectionSymbol)
    → s.is_here ≡ true
    → 0 < count
    → toaddr < 2 ^ 64
    → s.st_value ≡ addr + count
    → count < s.st_size
    → addr + count + s.st_size ≤ toaddr
    → let t = adjust_symbol addr count toaddr s in
      (t.st_value ≡ addr) × (t.st_size ≡ s.st_size - count)
unfolding adjust_symbol adjust_value adjust_size
adjust_symbol-behind addr count toaddr s here some_bytes bound start long inside =
    (ground arith, ground arith)
