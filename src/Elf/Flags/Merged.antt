-- ===== src/Elf/Flags/Merged.antt =====
-- What the merging of the ELF flags (elf32-riscv.c) comes to for a whole link.
use Prim.Native.Nat.{bit_xor, max}
use soft_hier_release_test.Base.{
  ℕ, Bool, true, false, not, ◌&&◌, ◌||◌, List, [], ◌∷◌, bit_and, bit_or, ◌==◌, if◌then◌else◌, ◌≡◌,
  ◌⊎◌, refl, sym, ap, ap₂, ◌∙◌, arith, inl, inr,
}
use soft_hier_release_test.Memory.{Outcome, done, failed}
use soft_hier_release_test.Memory.Frame.{done-step, done-injective}
use soft_hier_release_test.Pulp.Hash.{same_name}
use soft_hier_release_test.Elf.Flags.Digits.{float_of, rvc_of, merged-rvc, merged-float, float_test}
use soft_hier_release_test.Elf.Flags.{
  FlagMasks, InputFlags, OutputFlags, merge_flags, merge_private_bfd_data, merge_all,
}

-- The masks of the ELF specification of RISC-V.
abbrev pub riscv_masks : FlagMasks
riscv_masks = record { float_abi = 6; rvc = 1 }

-- Every RISC-V file has this float ABI.
pub agree_on : ℕ → List InputFlags → Bool
agree_on abi [] = true
agree_on abi (i ∷ is) = (not i.is_riscv || (float_of i.e_flags == abi)) && agree_on abi is

-- Whether some RISC-V file has compressed instructions.
pub any_rvc : List InputFlags → ℕ
any_rvc [] = 0
any_rvc (i ∷ is) = max (if i.is_riscv then rvc_of i.e_flags else 0) (any_rvc is)

-- What a merged file has to do with the output before and after.
IsMergedInto : ℕ → OutputFlags → OutputFlags → Type 0
IsMergedInto new out t =
    (float_of new ≡ float_of t.out_flags)
    × (float_of t.out_flags ≡ float_of out.out_flags)
    × (rvc_of t.out_flags ≡ max (rvc_of out.out_flags) (rvc_of new))
    × (t.flags_init ≡ true)
    × (t.out_riscv ≡ out.out_riscv)

no_float :
    (old : OutputFlags) (new : ℕ) (b same : Bool) (t : OutputFlags)
    → (same ≡ true → float_of old.out_flags ≡ float_of new)
    → b ≡ true
    → (if not b
        then done (record old { flags_init = true; out_flags = new })
        else if not same
        then failed
        else done (record old { flags_init = b; out_flags = bit_or old.out_flags (bit_and new 1) }))
      ≡ done t
    → IsMergedInto new old t
unfolding IsMergedInto
no_float old new false same t tested init e = cc init
no_float old new true false t tested init e = cc e
no_float old new true true t tested init e =
    let here = done-injective _ t e in
    let flags = ap (λ (o : OutputFlags). o.out_flags) here in
    let kept = ap float_of (sym flags) ∙ merged-float old.out_flags new in
    (
      sym (kept ∙ tested refl),
      kept,
      ap rvc_of (sym flags) ∙ merged-rvc old.out_flags new,
      ap (λ (o : OutputFlags). o.flags_init) (sym here),
      ap (λ (o : OutputFlags). o.out_riscv) (sym here),
    )

merge_flags-IsMergedInto :
    (new : ℕ) (out t : OutputFlags)
    → out.flags_init ≡ true
    → merge_flags riscv_masks new out ≡ done t
    → IsMergedInto new out t
unfolding merge_flags
merge_flags-IsMergedInto new out t init e =
    no_float out new out.flags_init (bit_and (bit_xor out.out_flags new) 6 == 0) t
      (λ same. float_test out.out_flags new (ground (arith, same))) init e

-- A file is passed over, or its flags are merged.
passed_or_merged :
    (riscv known same attributes : Bool) (o : Outcome OutputFlags) (out t : OutputFlags)
    → known ≡ true
    → (if not riscv || not known
        then done out
        else if not same
        then failed
        else if not attributes
        then failed
        else o)
      ≡ done t
    → ((riscv ≡ false) × (out ≡ t)) ⊎ ((riscv ≡ true) × (o ≡ done t))
passed_or_merged false known same attributes o out t is_known e = inl (refl, done-injective out t e)
passed_or_merged true false same attributes o out t is_known e = cc is_known
passed_or_merged true true false attributes o out t is_known e = cc e
passed_or_merged true true true false o out t is_known e = cc e
passed_or_merged true true true true o out t is_known e = inr (refl, e)

merge-cases :
    (i : InputFlags) (out t : OutputFlags)
    → out.out_riscv ≡ true
    → merge_private_bfd_data riscv_masks i out ≡ done t
    → ((i.is_riscv ≡ false) × (out ≡ t))
      ⊎ ((i.is_riscv ≡ true) × (merge_flags riscv_masks i.e_flags out ≡ done t))
unfolding merge_private_bfd_data
merge-cases i out t =
    passed_or_merged i.is_riscv out.out_riscv (same_name i.target out.out_target) i.attributes_merge
      (merge_flags riscv_masks i.e_flags out) out t

-- What a whole list of files has to do with the output before and after.
AreMergedInto : List InputFlags → OutputFlags → OutputFlags → Type 0
AreMergedInto is out t =
    (agree_on (float_of t.out_flags) is ≡ true)
    × (float_of t.out_flags ≡ float_of out.out_flags)
    × (rvc_of t.out_flags ≡ max (rvc_of out.out_flags) (any_rvc is))

into_ready :
    (new : ℕ) (out u : OutputFlags)
    → IsMergedInto new out u
    → (u.flags_init ≡ true) × (u.out_riscv ≡ out.out_riscv)
unfolding IsMergedInto
into_ready new out u (same, kept, rvc, init, known) = (init, known)

max-zero : (n : ℕ) → max n 0 ≡ n
max-zero n = omega arith

-- One more file in front.
next-AreMergedInto :
    (i : InputFlags) (is : List InputFlags) (out u t : OutputFlags)
    → i.is_riscv ≡ true
    → IsMergedInto i.e_flags out u
    → AreMergedInto is u t
    → AreMergedInto (i ∷ is) out t
unfolding IsMergedInto AreMergedInto agree_on any_rvc
next-AreMergedInto i is out u t riscv (same, kept, rvc, init, known) (others, rest_kept, rest_rvc) =
    let here : float_of i.e_flags ≡ float_of t.out_flags = same ∙ sym rest_kept in
    let test : (float_of i.e_flags == float_of t.out_flags) ≡ true = ground (arith, here) in
    (
      ap₂ ◌&&◌ (ap₂ ◌||◌ (ap not riscv) test) others,
      rest_kept ∙ kept,
      omega (
        arith,
        rest_rvc,
        rvc,
        ap (λ (b : Bool). max (if b then rvc_of i.e_flags else 0) (any_rvc is)) riscv,
      ),
    )

passed-AreMergedInto :
    (i : InputFlags) (is : List InputFlags) (out t : OutputFlags)
    → i.is_riscv ≡ false
    → AreMergedInto is out t
    → AreMergedInto (i ∷ is) out t
unfolding AreMergedInto agree_on any_rvc
passed-AreMergedInto i is out t other (others, kept, rvc) = (
  ap₂ ◌&&◌ (ap (λ (b : Bool). not b || (float_of i.e_flags == float_of t.out_flags)) other) others,
  kept,
  omega (arith, rvc, ap (λ (b : Bool). max (if b then rvc_of i.e_flags else 0) (any_rvc is)) other),
)

merge_all-AreMergedInto :
    (is : List InputFlags) (out t : OutputFlags)
    → out.out_riscv ≡ true
    → out.flags_init ≡ true
    → merge_all riscv_masks is out ≡ done t
    → AreMergedInto is out t
unfolding merge_all AreMergedInto agree_on any_rvc
merge_all-AreMergedInto [] out t known init e =
    let here = ap (λ (o : OutputFlags). o.out_flags) (sym (done-injective out t e)) in
    (refl, ap float_of here, ap rvc_of here ∙ sym (max-zero (rvc_of out.out_flags)))
merge_all-AreMergedInto (i ∷ is) out t known init e =
    let (u, here, rest) =
      done-step (merge_private_bfd_data riscv_masks i out) (merge_all riscv_masks is) t e in
    elim (merge-cases i out u known here) [
      | inl (other, same) ↦
          passed-AreMergedInto i is out t other (
            merge_all-AreMergedInto is out t known init (ap (merge_all riscv_masks is) same ∙ rest))
      | inr (riscv, merged) ↦
          let into = merge_flags-IsMergedInto i.e_flags out u init merged in
          let (ready, same) = into_ready i.e_flags out u into in
          next-AreMergedInto i is out u t riscv into
            (merge_all-AreMergedInto is u t (same ∙ known) ready rest)
    ]

first_flags :
    (out u : OutputFlags) (new : ℕ)
    → out.flags_init ≡ false
    → merge_flags riscv_masks new out ≡ done u
    → record out { flags_init = true; out_flags = new } ≡ u
unfolding merge_flags
first_flags out u new init e = choose out.flags_init init e
  where
    choose :
        (b : Bool)
        → b ≡ false
        → (if not b
            then done (record out { flags_init = true; out_flags = new })
            else if not (bit_and (bit_xor out.out_flags new) 6 == 0)
            then failed
            else done (record out { out_flags = bit_or out.out_flags (bit_and new 1) }))
          ≡ done u
        → record out { flags_init = true; out_flags = new } ≡ u
    choose true b e = cc b
    choose false b e = done-injective _ u e

-- What a link leaves in the header of its output.
pub IsMerged : List InputFlags → OutputFlags → Type 0
IsMerged is t = (agree_on (float_of t.out_flags) is ≡ true) × (rvc_of t.out_flags ≡ any_rvc is)

-- The first file that counts.
front-IsMerged :
    (i : InputFlags) (is : List InputFlags) (out t : OutputFlags)
    → i.is_riscv ≡ true
    → AreMergedInto is (record out { flags_init = true; out_flags = i.e_flags }) t
    → IsMerged (i ∷ is) t
unfolding AreMergedInto IsMerged agree_on any_rvc
front-IsMerged i is out t riscv (others, kept, rvc) =
    let test : (float_of i.e_flags == float_of t.out_flags) ≡ true = ground (arith, kept) in
    (
      ap₂ ◌&&◌ (ap₂ ◌||◌ (ap not riscv) test) others,
      omega (
        arith,
        rvc,
        ap (λ (b : Bool). max (if b then rvc_of i.e_flags else 0) (any_rvc is)) riscv,
      ),
    )

passed-IsMerged :
    (i : InputFlags) (is : List InputFlags) (t : OutputFlags)
    → i.is_riscv ≡ false
    → IsMerged is t
    → IsMerged (i ∷ is) t
unfolding IsMerged agree_on any_rvc
passed-IsMerged i is t other (others, rvc) = (
  ap₂ ◌&&◌ (ap (λ (b : Bool). not b || (float_of i.e_flags == float_of t.out_flags)) other) others,
  omega (arith, rvc, ap (λ (b : Bool). max (if b then rvc_of i.e_flags else 0) (any_rvc is)) other),
)

-- If the files of a link are merged one after the other into a RISC-V output whose flags are not set yet, every
-- merge succeeds and the flags are set in the end, then every RISC-V file has the float ABI of the output, and the
-- output is marked as compressed exactly if one of the RISC-V files is. The masks are 6 and 1.
pub merge_all-IsMerged :
    (is : List InputFlags) (out t : OutputFlags)
    → out.out_riscv ≡ true
    → out.flags_init ≡ false
    → merge_all riscv_masks is out ≡ done t
    → t.flags_init ≡ true
    → IsMerged is t
unfolding merge_all
merge_all-IsMerged [] out t known init e set_in_the_end =
    cc (init, ap (λ (o : OutputFlags). o.flags_init) (done-injective out t e), set_in_the_end)
merge_all-IsMerged (i ∷ is) out t known init e set_in_the_end =
    let (u, here, rest) =
      done-step (merge_private_bfd_data riscv_masks i out) (merge_all riscv_masks is) t e in
    elim (merge-cases i out u known here) [
      | inl (other, same) ↦ passed-IsMerged i is t other (
          merge_all-IsMerged is out t known init (ap (merge_all riscv_masks is) same ∙ rest)
            set_in_the_end)
      | inr (riscv, merged) ↦
          let set_now : OutputFlags = record out { flags_init = true; out_flags = i.e_flags } in
          front-IsMerged i is out t riscv (
            merge_all-AreMergedInto is set_now t known refl
              (ap (merge_all riscv_masks is) (first_flags out u i.e_flags init merged) ∙ rest))
    ]
