-- ===== src/Tests/Shorten.antt =====
-- Sections that are relaxed, with the instructions of RISC-V.
use soft_hier_release_test.Base.{
  ℕ, zero, suc, ◌+◌, ◌-◌, ◌*◌, ◌/◌, ◌%◌, ◌^◌, ◌≤◌, ◌<◌, Bool, true, false, ◌||◌, none, some, List,
  [], ◌∷◌, set, get_or, length, length-set, ltb, leb, ◌≡◌, ◌⊎◌, refl, sym, ap, ◌∙◌, arith,
}
use soft_hier_release_test.Memory.{done, failed}
use soft_hier_release_test.Memory.Frame.{done-injective}
use soft_hier_release_test.Bfd.{
  RelocType, Rela, r_call, r_relax, r_jal, r_align, r_pcrel_hi20, r_hi20, r_lo12_i, r_got_hi20,
  r_pcrel_lo12_i,
}
use soft_hier_release_test.Elf.Reloc.{Codec}
use soft_hier_release_test.Elf.Relax.{
  SectionSymbol, delete_bytes, move_bytes, adjust_offset, adjust_symbol, adjust_value, adjust_size,
}
use soft_hier_release_test.Elf.Relax.Site.{
  Opcodes, Link, Site, Relaxing, rela_at, update_rela, set_rela, put_bits, delete_again,
}
use soft_hier_release_test.Elf.Relax.Call.{
  is_far, call_offset, short_call, shorten_call, relax_call,
}
use soft_hier_release_test.Elf.Relax.Align.{relax_align}
use soft_hier_release_test.Elf.Relax.Import.{absolute_ref, relax_import_pcrel, relax_got_ref}
use soft_hier_release_test.Elf.Relax.Section.{
  SymSection, local_in, RelaxInput, nothing_to_relax, relax_loop, relax_step, relax_rela,
  relax_target, func_of, first_pass_func, is_paired, target_of, local_target, load_symbol,
  size_behind, site_of, get_max_alignment, max_power, apply_func, relax_section,
}
use soft_hier_release_test.Elf.Relax.Shrink.{IsShrunk, KeepsLength}
use soft_hier_release_test.Elf.Relax.Bounds.{relax_section-IsShrunk}
use soft_hier_release_test.Elf.Relax.Aligned.{relax_align-multiple}
use soft_hier_release_test.Elf.Relax.Shorter.{IsShortened, relax_call-IsShortCall}
use soft_hier_release_test.Elf.Relax.Isa.{IsRiscv}
use soft_hier_release_test.Elf.Relax.Pairs.{relax_import_pcrel-pair, relax_got_ref-pair}

-- Little-endian access to the bytes of a section.
abbrev store : ℕ → ℕ → List ℕ → ℕ → List ℕ
store zero v m i = m
store (suc n) v m i = store n (v / 256) (set m i (v % 256)) (suc i)

abbrev load : ℕ → List ℕ → ℕ → ℕ
load zero m i = 0
load (suc n) m i = get_or m i 0 + 256 * load n m (suc i)

length-store : (n v : ℕ) (m : List ℕ) (i : ℕ) → length (store n v m i) ≡ length m
length-store zero v m i = refl
length-store (suc n) v m i =
    length-store n (v / 256) (set m i (v % 256)) (suc i) ∙ length-set m i (v % 256)

abbrev pub codec : Codec
codec = record {
  const_high_part = λ v. (v + 2048) / 4096;
  encode_utype = λ v. v * 4096;
  encode_itype = λ v. v % 4096 * 1048576;
  encode_stype = λ v. v;
  encode_i1type_u = λ v. v;
  encode_ujtype = λ v. v;
  encode_sbtype = λ v. v;
  encode_rvc_b = λ v. v;
  encode_rvc_j = λ v. v;
  encode_rvc_lui = λ v. v;
  valid_itype = λ v. ltb v 2048 || leb (2 ^ 64 - 2048) v;
  valid_stype = λ v. ltb v 2048 || leb (2 ^ 64 - 2048) v;
  valid_ujtype = λ v. ltb v 1048576 || leb (2 ^ 64 - 1048576) v;
  valid_sbtype = λ v. ltb v 4096 || leb (2 ^ 64 - 4096) v;
  valid_rvc_b = λ v. ltb v 256 || leb (2 ^ 64 - 256) v;
  valid_rvc_j = λ v. ltb v 2048 || leb (2 ^ 64 - 2048) v;
  valid_rvc_lui = λ v. ltb v 32;
  bfd_get = λ bits m i. done (load (bits / 8) m i);
  bfd_put = λ bits v m i. done (store (bits / 8) v m i);
}

codec_KeepsLength : KeepsLength codec
codec_KeepsLength bits v i m m' e =
    ap length (sym (done-injective (store (bits / 8) v m i) m' e)) ∙ length-store (bits / 8) v m i

abbrev opcodes : Opcodes
opcodes = record {
  imm_reach = 4096;
  op_sh_rd = 7;
  op_mask_rd = 31;
  op_sh_rs1 = 15;
  op_mask_rs1 = 31;
  x_ra = 1;
  x_sp = 2;
  match_jal = 0x6f;
  match_jalr = 0x67;
  match_c_j = 0xa001;
  match_c_jal = 0x2001;
  match_lui = 0x37;
  match_c_lui = 0x6001;
  match_addi = 0x13;
  riscv_nop = 0x13;
  rvc_nop = 1;
}

abbrev link : Link
link = record {
  codec = codec;
  opcodes = opcodes;
  pic = false;
  rvc = false;
  sec_addr = 0x1000;
  output_section = 1;
  gp = 0;
  gp_output = 0;
  tp_offset = 0;
  tls_vma = none;
}

abbrev site : Bool → ℕ → Site
site import symval = record {
  index = 0;
  symval = symval;
  max_alignment = 4;
  reserve_size = 0;
  is_import = import;
  sym_output = 1;
  sym_output_alignment = 2;
  sym_merge_or_code = true;
}

abbrev rela : ℕ → RelocType → ℕ → Rela
rela offset type addend = record { r_offset = offset; r_sym = 0; r_type = type; r_addend = addend }

abbrev state : List ℕ → ℕ → List Rela → List SectionSymbol → Bool → Bool → Relaxing
state contents size relocs symbols again flag = record {
  section = record { contents = contents; sec_size = size; relocs = relocs; symbols = symbols };
  again = again;
  sec_flg0 = flag;
}

abbrev here : ℕ → SectionSymbol
here value = record { is_here = true; st_value = value; st_size = 4 }

-- `auipc ra, 0` and `jalr ra, ra`, then 8 more bytes with a symbol at the last 4.
abbrev far_call : Relaxing
far_call =
    state (151 ∷ 0 ∷ 0 ∷ 0 ∷ 231 ∷ 128 ∷ 0 ∷ 0 ∷ 1 ∷ 2 ∷ 3 ∷ 4 ∷ 5 ∷ 6 ∷ 7 ∷ 8 ∷ []) 16
      (rela 0 r_call 0 ∷ rela 0 r_relax 0 ∷ []) (here 12 ∷ []) false false

-- `jal ra` in their place.
abbrev near_call : Relaxing
near_call =
    state (239 ∷ 0 ∷ 0 ∷ 0 ∷ 1 ∷ 2 ∷ 3 ∷ 4 ∷ 5 ∷ 6 ∷ 7 ∷ 8 ∷ 5 ∷ 6 ∷ 7 ∷ 8 ∷ []) 12
      (rela 0 r_jal 0 ∷ rela 0 r_relax 0 ∷ []) (here 8 ∷ []) true false

abbrev text : SymSection
text = record { sec_addr = 0x1000; output = 1; output_alignment = 2; merge_or_code = true }

abbrev relax_input : RelaxInput
relax_input = record {
  link = link;
  relocatable = false;
  sec_reloc = true;
  no_optimizations = false;
  first_pass = true;
  component_mode = false;
  sec_name = [];
  own = text;
  sh_info = 1;
  symbol_at = λ i. local_in text;
  splt_addr = 0;
  alignment_powers = 2 ∷ [];
  relocs_read = true;
  contents_read = true;
  symbols_read = true;
}

relax_section_run : relax_section relax_input far_call ≡ done near_call
unfolding relax_section nothing_to_relax relax_loop relax_step relax_rela relax_target func_of
    first_pass_func is_paired target_of local_target load_symbol size_behind site_of
    get_max_alignment max_power apply_func relax_call call_offset is_far short_call shorten_call
    rela_at update_rela set_rela put_bits delete_again delete_bytes move_bytes adjust_offset
    adjust_symbol adjust_value adjust_size
relax_section_run = refl

relax_section-IsShrunk_example : IsShrunk far_call near_call
relax_section-IsShrunk_example =
    relax_section-IsShrunk relax_input codec_KeepsLength far_call near_call relax_section_run

relax_call_run : relax_call link (site false 0x100c) far_call ≡ done near_call
unfolding relax_call call_offset is_far short_call shorten_call rela_at update_rela set_rela
    put_bits delete_again delete_bytes move_bytes adjust_offset adjust_symbol adjust_value
    adjust_size
relax_call_run = refl

first_call : rela_at far_call.section.relocs 0 ≡ done (rela 0 r_call 0)
unfolding rela_at
first_call = refl

isa : IsRiscv opcodes
isa = record {
  sh_rd = refl;
  mask_rd = refl;
  sh_rs1 = refl;
  mask_rs1 = refl;
  ra = refl;
  jal = refl;
  jalr = refl;
  c_j = refl;
  c_jal = refl;
  lui = refl;
  addi = refl;
}

relax_call-IsShortCall_example :
    ((is_far link (site false 0x100c) (call_offset link (site false 0x100c) (rela 0 r_call 0))
        ≡ true)
      × (near_call ≡ far_call))
    ⊎ ((is_far link (site false 0x100c) (call_offset link (site false 0x100c) (rela 0 r_call 0))
          ≡ false)
        × IsShortened link (site false 0x100c) (rela 0 r_call 0) far_call near_call)
relax_call-IsShortCall_example =
    relax_call-IsShortCall link (site false 0x100c) isa far_call near_call (rela 0 r_call 0)
      first_call (omega arith) relax_call_run

-- Six bytes of NOPs from 0x1004 on, of which 4 are needed.
abbrev many_nops : Relaxing
many_nops =
    state (1 ∷ 2 ∷ 3 ∷ 4 ∷ 1 ∷ 0 ∷ 19 ∷ 0 ∷ 0 ∷ 0 ∷ 5 ∷ 6 ∷ []) 12 (rela 4 r_align 6 ∷ []) [] false
      false

align_reloc : rela_at many_nops.section.relocs 0 ≡ done (rela 4 r_align 6)
unfolding rela_at
align_reloc = refl

relax_align-multiple_example :
    (k : ℕ) × (q : ℕ) × (n : ℕ) × (6 < 2 ^ k)
    × ((k ≡ 0) ⊎ (2 ^ k ≤ 2 * 6))
    × (n < 2 ^ k)
    × (0x100a - 6 + n ≡ q * 2 ^ k)
    × (6 < n → relax_align link (site false 0x100a) many_nops ≡ failed)
    × (n ≤ 6
        → (t : Relaxing) → relax_align link (site false 0x100a) many_nops ≡ done t
        → (t.section.sec_size + (6 - n) ≡ many_nops.section.sec_size) × (t.sec_flg0 ≡ true))
relax_align-multiple_example =
    relax_align-multiple link (site false 0x100a) many_nops (rela 4 r_align 6) align_reloc
      (omega arith) (omega arith) (omega arith) (omega arith)

-- `auipc a0, 0` and what follows it, with one relocation and its R_RISCV_RELAX.
abbrev pair : RelocType → Relaxing
pair type =
    state (23 ∷ 5 ∷ 0 ∷ 0 ∷ 19 ∷ 5 ∷ 5 ∷ 0 ∷ []) 8 (rela 0 type 0 ∷ rela 0 r_relax 0 ∷ []) [] false
      false

abbrev import_pair : Relaxing
import_pair =
    state (55 ∷ 5 ∷ 0 ∷ 0 ∷ 19 ∷ 5 ∷ 5 ∷ 0 ∷ []) 8 (rela 0 r_hi20 0 ∷ rela 0 r_lo12_i 0 ∷ []) []
      false false

abbrev got_pair : Relaxing
got_pair =
    state (19 ∷ 5 ∷ 0 ∷ 0 ∷ 19 ∷ 5 ∷ 5 ∷ 0 ∷ []) 8
      (rela 0 r_pcrel_hi20 0 ∷ rela 0 r_pcrel_lo12_i 0 ∷ []) [] false false

pair_at :
    (type : RelocType)
    → (rela_at (pair type).section.relocs 0 ≡ done (rela 0 type 0))
      × (rela_at (pair type).section.relocs 1 ≡ done (rela 0 r_relax 0))
      × (is_paired (rela 0 type 0) (some (rela 0 r_relax 0)) ≡ true)
unfolding rela_at is_paired
pair_at type = (refl, refl, refl)

import_run : relax_import_pcrel link (site true 0) (pair r_pcrel_hi20) ≡ done import_pair
unfolding relax_import_pcrel absolute_ref rela_at update_rela set_rela put_bits
import_run = refl

got_run : relax_got_ref link (site false 0) (pair r_got_hi20) ≡ done got_pair
unfolding relax_got_ref rela_at update_rela set_rela put_bits
got_run = refl

relax_import_pcrel-pair_example :
    (low : Rela) × (codec.bfd_put 32 0x537 (pair r_pcrel_hi20).section.contents 0
      ≡ done import_pair.section.contents)
    × (rela_at import_pair.section.relocs 0 ≡ done (rela 0 r_hi20 0))
    × (rela_at import_pair.section.relocs 1 ≡ done low)
    × (low.r_type ≡ r_lo12_i)
    × (low.r_sym ≡ 0)
    × (low.r_offset ≡ 0)
relax_import_pcrel-pair_example =
    relax_import_pcrel-pair link (site true 0) isa (pair r_pcrel_hi20) import_pair
      (rela 0 r_pcrel_hi20 0) (rela 0 r_relax 0) 0x517 refl (pair_at r_pcrel_hi20).0
      (pair_at r_pcrel_hi20).1 refl (pair_at r_pcrel_hi20).2 refl import_run

relax_got_ref-pair_example :
    (low : Rela) × (codec.bfd_put 32 0x513 (pair r_got_hi20).section.contents 0
      ≡ done got_pair.section.contents)
    × (rela_at got_pair.section.relocs 0 ≡ done (rela 0 r_pcrel_hi20 0))
    × (rela_at got_pair.section.relocs 1 ≡ done low)
    × (low.r_type ≡ r_pcrel_lo12_i)
    × (low.r_offset ≡ 0)
relax_got_ref-pair_example =
    relax_got_ref-pair link (site false 0) isa (pair r_got_hi20) got_pair (rela 0 r_got_hi20 0)
      (rela 0 r_relax 0) 0x517 (pair_at r_got_hi20).0 (pair_at r_got_hi20).1 (pair_at r_got_hi20).2
      refl got_run
