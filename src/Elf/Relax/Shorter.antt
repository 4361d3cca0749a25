-- ===== src/Elf/Relax/Shorter.antt =====
-- What a relaxed call looks like (elf32-riscv.c, `_bfd_riscv_relax_call`).
use soft_hier_release_test.Base.{
  ℕ, zero, suc, ◌+◌, ◌-◌, ◌*◌, ◌^◌, ◌<◌, bit_and, bit_or, Bool, true, false, not, ◌&&◌, ◌||◌, List,
  [], ◌∷◌, map, ◌==◌, if◌then◌else◌, u64, ◌<<<◌, ◌>>>◌, ◌≡◌, ◌≢◌, ◌⊎◌, inl, inr, refl, sym, ap, ◌∙◌,
  arith, Bool-cases,
}
use soft_hier_release_test.Memory.{done}
use soft_hier_release_test.Memory.Frame.{done-step, done-injective}
use soft_hier_release_test.Bfd.{RelocType, Rela, r_rvc_jump, r_jal, r_lo12_i}
use soft_hier_release_test.Elf.Reloc.{Codec}
use soft_hier_release_test.Elf.Relax.{
  Relaxed, adjust_rela, adjust_offset-front, move_bytes, delete_bytes,
}
use soft_hier_release_test.Elf.Relax.Site.{
  Link, Site, Relaxing, retype, rela_at, update_rela, set_rela, put_bits, delete_again,
}
use soft_hier_release_test.Elf.Relax.Call.{
  call_offset, is_far, short_call, shorten_call, relax_call,
}
use soft_hier_release_test.Elf.Relax.Isa.{IsRiscv, rd_of, with_rd, rd_field, or_field}
use soft_hier_release_test.Elf.Relax.Shrink.{delete_bytes-size}
use soft_hier_release_test.Elf.Relax.Aligned.{set_rela-SameSize, put_bits-SameSize}

pub rela_at-update_rela :
    (f : Rela → Rela) (rs rs' : List Rela) (i : ℕ) (r : Rela)
    → rela_at rs i ≡ done r
    → update_rela f rs i ≡ done rs'
    → rela_at rs' i ≡ done (f r)
unfolding rela_at update_rela
rela_at-update_rela f [] rs' i r e h = cc
rela_at-update_rela f (x ∷ rs) rs' zero r e h =
    ap (λ (l : List Rela). rela_at l 0) (sym (done-injective (f x ∷ rs) rs' h))
    ∙ ap (λ (y : Rela). done (f y)) (done-injective x r e)
rela_at-update_rela f (x ∷ rs) rs' (suc i) r e h =
    let (rest, here, last) = done-step (update_rela f rs i) (λ l. done (x ∷ l)) rs' h in
    ap (λ (l : List Rela). rela_at l (suc i)) (sym (done-injective (x ∷ rest) rs' last))
    ∙ rela_at-update_rela f rs rest i r e here

pub rela_at-update_rela_ne :
    (f : Rela → Rela) (rs rs' : List Rela) (i j : ℕ)
    → i ≢ j
    → update_rela f rs i ≡ done rs'
    → rela_at rs' j ≡ rela_at rs j
unfolding rela_at update_rela
rela_at-update_rela_ne f [] rs' i j ne h = cc
rela_at-update_rela_ne f (x ∷ rs) rs' zero zero ne h = absurd (ne refl)
rela_at-update_rela_ne f (x ∷ rs) rs' zero (suc j) ne h =
    ap (λ (l : List Rela). rela_at l (suc j)) (sym (done-injective (f x ∷ rs) rs' h))
rela_at-update_rela_ne f (x ∷ rs) rs' (suc i) zero ne h =
    let (rest, here, last) = done-step (update_rela f rs i) (λ l. done (x ∷ l)) rs' h in
    ap (λ (l : List Rela). rela_at l 0) (sym (done-injective (x ∷ rest) rs' last))
rela_at-update_rela_ne f (x ∷ rs) rs' (suc i) (suc j) ne h =
    let (rest, here, last) = done-step (update_rela f rs i) (λ l. done (x ∷ l)) rs' h in
    ap (λ (l : List Rela). rela_at l (suc j)) (sym (done-injective (x ∷ rest) rs' last))
    ∙ rela_at-update_rela_ne f rs rest i j (λ e. ne (ap suc e)) here

-- The relocations and the bytes after a change of one relocation.
pub set_rela-section :
    (f : Rela → Rela) (i : ℕ) (s t : Relaxing)
    → set_rela f i s ≡ done t
    → (update_rela f s.section.relocs i ≡ done t.section.relocs)
      × (t.section.contents ≡ s.section.contents)
unfolding set_rela
set_rela-section f i s t e =
    let (rs, here, last) = done-step (update_rela f s.section.relocs i) _ t e in
    let same = done-injective _ t last in
    (
      here ∙ ap (λ (x : Relaxing). done x.section.relocs) same,
      sym (ap (λ (x : Relaxing). x.section.contents) same),
    )

-- The relocations and the bytes after a store.
pub put_bits-section :
    (codec : Codec) (bits value offset : ℕ) (s t : Relaxing)
    → put_bits codec bits value offset s ≡ done t
    → (codec.bfd_put bits value s.section.contents offset ≡ done t.section.contents)
      × (t.section.relocs ≡ s.section.relocs)
unfolding put_bits
put_bits-section codec bits value offset s t e =
    let (m, here, last) = done-step (codec.bfd_put bits value s.section.contents offset) _ t e in
    let same = done-injective _ t last in
    (
      here ∙ ap (λ (x : Relaxing). done x.section.contents) same,
      sym (ap (λ (x : Relaxing). x.section.relocs) same),
    )

rela_at-map :
    (f : Rela → Rela) (rs : List Rela) (i : ℕ) (r : Rela)
    → rela_at rs i ≡ done r
    → rela_at (map f rs) i ≡ done (f r)
unfolding rela_at
rela_at-map f [] i r e = cc
rela_at-map f (x ∷ rs) zero r e = ap (λ (y : Rela). done (f y)) (done-injective x r e)
rela_at-map f (x ∷ rs) (suc i) r e = rela_at-map f rs i r e

delete_again-section :
    (addr count : ℕ) (s t : Relaxing)
    → delete_again addr count s ≡ done t
    → s.section.sec_size < 2 ^ 64
    → (t.again ≡ true)
      × (t.section.sec_size + count ≡ s.section.sec_size)
      × (move_bytes s.section.contents addr count s.section.sec_size ≡ done t.section.contents)
      × (t.section.relocs ≡ map (adjust_rela addr count s.section.sec_size) s.section.relocs)
unfolding delete_again delete_bytes
delete_again-section addr count s t e bound =
    let (d, gone, last) = done-step (delete_bytes addr count s.section) _ t e in
    let (m, moved, behind) =
      done-step (move_bytes s.section.contents addr count s.section.sec_size) _ d gone in
    let (block, size, room, relocs, symbols) = delete_bytes-size addr count s.section d gone in
    let same = done-injective _ t last in
    (
      sym (ap (λ (x : Relaxing). x.again) same),
      omega (arith, ap (λ (x : Relaxing). x.section.sec_size) same, size, room),
      moved
          ∙ ap done (
              ap (λ (x : Relaxed). x.contents) (done-injective _ d behind)
              ∙ ap (λ (x : Relaxing). x.section.contents) same),
      sym (ap (λ (x : Relaxing). x.section.relocs) same)
          ∙ sym (ap (λ (x : Relaxed). x.relocs) (done-injective _ d behind)),
    )

-- A relocation before the deleted bytes stays as it is.
adjust_rela-front :
    (addr count toaddr : ℕ) (r : Rela) → r.r_offset < addr → adjust_rela addr count toaddr r ≡ r
adjust_rela-front addr count toaddr r before =
    ap (λ (o : ℕ). record r { r_offset = o })
      (adjust_offset-front addr count toaddr r.r_offset before)

-- The three shapes of a shorter call, for the JALR that it replaces: C.J or C.JAL where the JALR writes x0 or ra,
-- a JAL that writes the register of the JALR, and a JALR from x0 that does.
abbrev pub IsShortCall : Link → Site → ℕ → ℕ → RelocType → ℕ → Type 0
IsShortCall link site jalr word type len =
    ((type ≡ r_rvc_jump)
      × (len ≡ 2)
      × (link.rvc ≡ true)
      × (site.is_import ≡ false)
      × (((rd_of jalr ≡ 0) × (word ≡ 0xa001)) ⊎ ((rd_of jalr ≡ 1) × (word ≡ 0x2001))))
    ⊎ (((type ≡ r_jal) × (len ≡ 4) × (word ≡ with_rd 0x6f (rd_of jalr)))
        ⊎ ((type ≡ r_lo12_i)
            × (len ≡ 4)
            × (site.is_import ≡ false)
            × (word ≡ with_rd 0x67 (rd_of jalr))))

-- What the replacement of a call leaves.
abbrev pub IsShortened : Link → Site → Rela → Relaxing → Relaxing → Type 0
IsShortened link site rel s t =
    (t.again ≡ true)
    × (jalr : ℕ) × (word : ℕ) × (type : RelocType) × (len : ℕ) × (link.codec.bfd_get 32
          s.section.contents (rel.r_offset + 4)
        ≡ done jalr)
    × IsShortCall link site jalr word type len
    × (t.section.sec_size + (8 - len) ≡ s.section.sec_size)
    × (m : List ℕ) × (link.codec.bfd_put (8 * len) word s.section.contents rel.r_offset ≡ done m)
    × (move_bytes m (rel.r_offset + len) (8 - len) s.section.sec_size ≡ done t.section.contents)
    × (rela_at t.section.relocs site.index ≡ done (retype type rel))

if_cases {ℓ κ} :
    {A : Type ℓ} (P : A → Type κ) (b : Bool) (x y : A)
    → (b ≡ true → P x)
    → (b ≡ false → P y)
    → P (if b then x else y)
if_cases P true x y p q = p refl
if_cases P false x y p q = q refl

-- The tests of a compressed jump.
and_three : (a b c d : Bool) → (a && b && not c && d) ≡ true → (a ≡ true) × (c ≡ false) × (d ≡ true)
and_three true true false true e = (refl, refl, refl)
and_three true true false false e = cc e
and_three true true true d e = cc
and_three true false c d e = cc
and_three false b c d e = cc

-- The choice between the two jumps that are compressed.
compressed_word :
    (rd ra c_j c_jal : ℕ)
    → ra ≡ 1
    → c_j ≡ 0xa001
    → c_jal ≡ 0x2001
    → (rd == 0 || rd == ra) ≡ true
    → ((rd ≡ 0) × ((if rd == 0 then c_j else c_jal) ≡ 0xa001))
      ⊎ ((rd ≡ 1) × ((if rd == 0 then c_j else c_jal) ≡ 0x2001))
compressed_word rd ra c_j c_jal one j jal known = elim (Bool-cases (rd == 0)) [
  | inl zero_rd ↦ inl (ground (arith, zero_rd), ground (arith, zero_rd, j))
  | inr other ↦ inr (ground (arith, other, known, one), ground (arith, other, jal))
]

or_false : (a c : Bool) → (a || c) ≡ false → c ≡ false
or_false true c e = cc
or_false false c e = e

module _ (link : Link) (site : Site) (isa : IsRiscv link.opcodes) where
  abbrev IsShort : ℕ → ℕ × RelocType × ℕ → Type 0
  IsShort jalr c = IsShortCall link site jalr c.0 c.1 c.2

  short_call-IsShortCall : (foff jalr : ℕ) → IsShort jalr (short_call link site foff jalr)
  unfolding short_call
  short_call-IsShortCall foff jalr =
      let o = link.opcodes in
      let rd = bit_and (jalr >>> o.op_sh_rd) o.op_mask_rd in
      let same : rd ≡ rd_of jalr = rd_field o.op_sh_rd o.op_mask_rd jalr isa.sh_rd isa.mask_rd in
      let below : rd < 32 = omega (arith, same) in
      let ra = rd == 0 || rd == o.x_ra in
      let field = u64 (rd <<< o.op_sh_rd) in
      let jal_word =
        or_field o.match_jal 0x6f o.op_sh_rd rd isa.jal isa.sh_rd (omega arith) below in
      let jalr_word =
        or_field o.match_jalr 0x67 o.op_sh_rd rd isa.jalr isa.sh_rd (omega arith) below in
      if_cases (IsShort jalr) (link.rvc && link.codec.valid_rvc_j foff && not site.is_import && ra)
        ((if rd == 0 then o.match_c_j else o.match_c_jal), r_rvc_jump, 2)
        (if link.codec.valid_ujtype foff || site.is_import
          then (bit_or o.match_jal field, r_jal, 4)
          else (bit_or o.match_jalr field, r_lo12_i, 4))
        (λ compressed.
          let (rvc, own, known) =
            and_three link.rvc (link.codec.valid_rvc_j foff) site.is_import ra compressed in
          inl (
            refl,
            refl,
            rvc,
            own,
            to_rd rd same (if rd == 0 then o.match_c_j else o.match_c_jal) (
                compressed_word rd o.x_ra o.match_c_j o.match_c_jal isa.ra isa.c_j isa.c_jal known),
          ))
        (λ wide.
          if_cases (IsShort jalr) (link.codec.valid_ujtype foff || site.is_import)
            (bit_or o.match_jal field, r_jal, 4) (bit_or o.match_jalr field, r_lo12_i, 4)
            (λ near. inr (inl (refl, refl, jal_word ∙ ap (with_rd 0x6f) same)))
            (λ zero_page. inr (
              inr (
                refl,
                refl,
                or_false (link.codec.valid_ujtype foff) site.is_import zero_page,
                jalr_word ∙ ap (with_rd 0x67) same,
              ))))
    where
      to_rd :
          (rd : ℕ)
          → rd ≡ rd_of jalr
          → (word : ℕ) → ((rd ≡ 0) × (word ≡ 0xa001)) ⊎ ((rd ≡ 1) × (word ≡ 0x2001))
          → ((rd_of jalr ≡ 0) × (word ≡ 0xa001)) ⊎ ((rd_of jalr ≡ 1) × (word ≡ 0x2001))
      to_rd rd same word (inl (zero_rd, w)) = inl (sym same ∙ zero_rd, w)
      to_rd rd same word (inr (one, w)) = inr (sym same ∙ one, w)

  len_bound :
      (jalr word : ℕ) (type : RelocType) (len : ℕ)
      → IsShortCall link site jalr word type len
      → (0 < len) × (len < 8)
  len_bound jalr word type len (inl p) = (omega (arith, p.1), omega (arith, p.1))
  len_bound jalr word type len (inr (inl p)) = (omega (arith, p.1), omega (arith, p.1))
  len_bound jalr word type len (inr (inr p)) = (omega (arith, p.1), omega (arith, p.1))

  shorten_call-section :
      (rel : Rela) (foff : ℕ) (s t : Relaxing)
      → rela_at s.section.relocs site.index ≡ done rel
      → s.section.sec_size < 2 ^ 64
      → shorten_call link site rel foff s ≡ done t
      → IsShortened link site rel s t
  unfolding shorten_call
  shorten_call-section rel foff s t found bound e =
      let (auipc, e1, rest1) =
        done-step (link.codec.bfd_get 32 s.section.contents rel.r_offset) _ t e in
      let (jalr, e2, rest2) =
        done-step (link.codec.bfd_get 32 s.section.contents (rel.r_offset + 4)) _ t rest1 in
      let (value, type, len) = short_call link site foff jalr in
      let shape = short_call-IsShortCall foff jalr in
      let (a, e3, rest3) = done-step (set_rela (retype type) site.index s) _ t rest2 in
      let (b, e4, rest4) =
        done-step (put_bits link.codec (8 * len) value rel.r_offset a) _ t rest3 in
      let size_a = set_rela-SameSize (retype type) site.index s a e3 in
      let size_b = put_bits-SameSize link.codec (8 * len) value rel.r_offset a b e4 in
      let relocs_a = set_rela-section (retype type) site.index s a e3 in
      let relocs_b = put_bits-section link.codec (8 * len) value rel.r_offset a b e4 in
      let gone =
        delete_again-section (rel.r_offset + len) (8 - len) b t rest4
          (omega (arith, bound, size_a.0, size_b.0)) in
      let at_a =
        rela_at-update_rela (retype type) s.section.relocs a.section.relocs site.index rel found
          relocs_a.0 in
      let at_b : rela_at b.section.relocs site.index ≡ done (retype type rel) =
        ap (λ (l : List Rela). rela_at l site.index) relocs_b.1 ∙ at_a in
      (
        gone.0,
        jalr,
        value,
        type,
        len,
        e2,
        shape,
        omega (arith, gone.1, size_a.0, size_b.0),
        b.section.contents,
        ap (λ (c : List ℕ). link.codec.bfd_put (8 * len) value c rel.r_offset) (sym relocs_a.1)
            ∙ relocs_b.0,
        ap (move_bytes b.section.contents (rel.r_offset + len) (8 - len))
              (omega (arith, size_a.0, size_b.0))
            ∙ gone.2,
        ap (λ (l : List Rela). rela_at l site.index) gone.3
            ∙ rela_at-map (adjust_rela (rel.r_offset + len) (8 - len) b.section.sec_size)
                b.section.relocs site.index (retype type rel) at_b
            ∙ ap done (
                adjust_rela-front (rel.r_offset + len) (8 - len) b.section.sec_size
                  (retype type rel) (omega (arith, (len_bound jalr value type len shape).0))),
      )

  -- The relaxation of a call, with the constants of the instruction set and in a section whose size fits 64 bits,
  -- whenever its answer is TRUE: a call that is too far stays, with the whole section. Any other call is
  -- replaced: by C.J or C.JAL of 2 bytes, which needs the RVC flag, a symbol that is not imported and the
  -- register x0 or ra; or by a JAL or a JALR from x0, of 4 bytes, that writes the register that the call's JALR
  -- writes, the JALR only for a symbol that is not imported. That instruction is stored at the place, the bytes
  -- behind it are moved up over the rest of the 8 bytes, by which the section is shorter; the relocation has
  -- kept its place, its symbol and its addend and got the type R_RISCV_RVC_JUMP, R_RISCV_JAL or R_RISCV_LO12_I of
  -- that instruction, and another pass is asked for.
  pub relax_call-IsShortCall :
      (s t : Relaxing) (rel : Rela)
      → rela_at s.section.relocs site.index ≡ done rel
      → s.section.sec_size < 2 ^ 64
      → relax_call link site s ≡ done t
      → ((is_far link site (call_offset link site rel) ≡ true) × (t ≡ s))
        ⊎ ((is_far link site (call_offset link site rel) ≡ false) × IsShortened link site rel s t)
  unfolding relax_call
  relax_call-IsShortCall s t rel found bound e =
      let foff = call_offset link site rel in
      let opened : elim (is_far link site foff) [
        | true ↦ done s
        | false ↦ shorten_call link site rel foff s
      ]
          ≡ done t =
        rw found at e in
      elim (Bool-cases (is_far link site foff)) [
        | inl far ↦ inl (far, sym (done-injective s t (rw far at opened)))
        | inr near ↦ inr (near, shorten_call-section rel foff s t found bound (rw near at opened))
      ]
