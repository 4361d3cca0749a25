-- ===== src/Elf/Relocate/Once.antt =====
-- The mark of a GOT entry that has been filled (elf32-riscv.c, the lowest bit of its offset).
use soft_hier_release_test.Base.{
  ℕ, ◌+◌, ◌-◌, ◌*◌, ◌/◌, ◌^◌, Bool, true, false, not, ◌&&◌, ◌||◌, Option, none, some, if◌then◌else◌,
  ◌≡◌, refl, sym, ap, ◌∙◌, subst, arith, Bool-cases, inl, inr,
}
use soft_hier_release_test.Base.Bits.{high-bit_or-low}
use soft_hier_release_test.Memory.{done, ◌>>=◌}
use soft_hier_release_test.Memory.Frame.{done-step, done-injective}
use soft_hier_release_test.Elf.{put}
use soft_hier_release_test.Elf.Relocate.{RelocHost, Relocating}
use soft_hier_release_test.Elf.Relocate.Got.{
  is_marked, mark, put_got, init_got, global_got, fill_local_got, local_got, got_entry,
}

-- The mark of an even offset is its lowest bit.
mark-even : (off : ℕ) → is_marked off ≡ false → mark off ≡ off + 1
mark-even off even =
    let half : off ≡ off / 2 * 2 ^ 1 = ground (arith, even) in
    ap mark half ∙ high-bit_or-low 1 (off / 2) 1 (omega arith) ∙ ap (λ (n : ℕ). n + 1) (sym half)

is_marked-mark :
    (off : ℕ) → is_marked off ≡ false → (is_marked (mark off) ≡ true) × (mark off - 1 ≡ off)
is_marked-mark off even =
    let odd = mark-even off even in (ap is_marked odd ∙ ground (arith, even), omega (arith, odd))

put_self : (f : ℕ → ℕ) (i v : ℕ) → put f i v i ≡ v
put_self f i v = ground arith

module _ (host : RelocHost) where
  -- The entry of a marked offset.
  init_got-marked :
      (i v : ℕ) (s : Relocating)
      → is_marked (s.got_offset i) ≡ true
      → init_got host i v s ≡ done (s.got_offset i - 1, s)
  unfolding init_got
  init_got-marked i v s marked = rw marked refl

  local_got-marked :
      (i v : ℕ) (s : Relocating)
      → is_marked (s.local_got i) ≡ true
      → local_got host i v s ≡ done (s.local_got i - 1, s)
  unfolding local_got
  local_got-marked i v s marked = rw marked refl

  -- A filled entry is found by its mark.
  init_got-filled :
      (i w off : ℕ) (u : Relocating)
      → is_marked off ≡ false
      → let r : Relocating = record u { got_offset = put u.got_offset i (mark off) } in
        init_got host i w r ≡ done (off, r)
  init_got-filled i w off u fresh =
      let r : Relocating = record u { got_offset = put u.got_offset i (mark off) } in
      let (marked, back) = is_marked-mark off fresh in
      let here : r.got_offset i ≡ mark off = put_self u.got_offset i (mark off) in
      init_got-marked i w r (ap is_marked here ∙ marked)
      ∙ ap (λ (n : ℕ). done (n, r)) (ap (λ (n : ℕ). n - 1) here ∙ back)

  local_got-filled :
      (i w off : ℕ) (u : Relocating)
      → is_marked off ≡ false
      → let r : Relocating = record u { local_got = put u.local_got i (mark off) } in
        local_got host i w r ≡ done (off, r)
  local_got-filled i w off u fresh =
      let r : Relocating = record u { local_got = put u.local_got i (mark off) } in
      let (marked, back) = is_marked-mark off fresh in
      let here : r.local_got i ≡ mark off = put_self u.local_got i (mark off) in
      local_got-marked i w r (ap is_marked here ∙ marked)
      ∙ ap (λ (n : ℕ). done (n, r)) (ap (λ (n : ℕ). n - 1) here ∙ back)

  init_got-once :
      (i v w : ℕ) (s : Relocating) (x : ℕ × Relocating)
      → init_got host i v s ≡ done x
      → init_got host i w x.1 ≡ done x
  unfolding init_got
  init_got-once i v w s x e = elim (Bool-cases (is_marked (s.got_offset i))) [
    | inl marked ↦
        subst (λ (y : ℕ × Relocating). init_got host i w y.1 ≡ done y)
          (done-injective (s.got_offset i - 1, s) x (sym (init_got-marked i v s marked) ∙ e))
          (init_got-marked i w s marked)
    | inr fresh ↦
        let off = s.got_offset i in
        let (u, here, last) =
          done-step (put_got host off v s)
            (λ t. done (off, record t { got_offset = put t.got_offset i (mark off) })) x
            (rw (fresh, init_got) at e) in
        subst (λ (y : ℕ × Relocating). init_got host i w y.1 ≡ done y) (done-injective _ x last)
          (init_got-filled i w off u fresh)
  ]

  local_got-once :
      (i v w : ℕ) (s : Relocating) (x : ℕ × Relocating)
      → local_got host i v s ≡ done x
      → local_got host i w x.1 ≡ done x
  unfolding local_got
  local_got-once i v w s x e = elim (Bool-cases (is_marked (s.local_got i))) [
    | inl marked ↦
        subst (λ (y : ℕ × Relocating). local_got host i w y.1 ≡ done y)
          (done-injective (s.local_got i - 1, s) x (sym (local_got-marked i v s marked) ∙ e))
          (local_got-marked i w s marked)
    | inr fresh ↦
        let off = s.local_got i in
        let (u, here, last) =
          done-step (fill_local_got host off v s)
            (λ t. done (off, record t { local_got = put t.local_got i (mark off) })) x
            (rw (fresh, local_got) at e) in
        subst (λ (y : ℕ × Relocating). local_got host i w y.1 ≡ done y) (done-injective _ x last)
          (local_got-filled i w off u fresh)
  ]

  -- Whether a global symbol's entry is filled by the dynamic linker is a question to the symbol alone.
  global_got-once :
      (b : Bool) (i v w : ℕ) (un : Bool) (s : Relocating) (x : ℕ × Bool × Relocating)
      → (if b
          then init_got host i v s >>= (λ r. done (r.0, un, r.1))
          else done (s.got_offset i, false, s))
        ≡ done x
      → (if b
          then init_got host i w x.2 >>= (λ r. done (r.0, un, r.1))
          else done (x.2.got_offset i, false, x.2))
        ≡ done x
  global_got-once true i v w un s x e =
      let (r, here, last) = done-step (init_got host i v s) (λ r. done (r.0, un, r.1)) x e in
      subst
        (λ (y : ℕ × Bool × Relocating).
          init_got host i w y.2 >>= (λ q. done (q.0, un, q.1)) ≡ done y)
        (done-injective (r.0, un, r.1) x last) (rw (init_got-once i v w s r here) refl)
  global_got-once false i v w un s x e =
      subst (λ (y : ℕ × Bool × Relocating). done (y.2.got_offset i, false, y.2) ≡ done y)
        (done-injective (s.got_offset i, false, s) x e) refl

  -- The GOT entry of a symbol, local or global, that a R_RISCV_GOT_HI20 has looked for: another reference to the
  -- same symbol, with any value, changes nothing at all, and finds the same offset and the same answer about
  -- whether the symbol is resolved.
  pub got_entry-once :
      (h : Option ℕ) (r_symndx v w : ℕ) (unresolved : Bool) (s : Relocating)
      (x : ℕ × Bool × Relocating)
      → got_entry host h r_symndx v unresolved s ≡ done x
      → got_entry host h r_symndx w unresolved x.2 ≡ done x
  unfolding got_entry global_got
  got_entry-once none r_symndx v w unresolved s x e =
      let (r, here, last) =
        done-step (local_got host r_symndx v s) (λ r. done (r.0, unresolved, r.1)) x e in
      subst
        (λ (y : ℕ × Bool × Relocating).
          local_got host r_symndx w y.2 >>= (λ q. done (q.0, unresolved, q.1)) ≡ done y)
        (done-injective (r.0, unresolved, r.1) x last)
        (rw (local_got-once r_symndx v w s r here) refl)
  got_entry-once (some i) r_symndx v w unresolved s x e =
      let h = host.dyn_symbols i in
      global_got-once (not (host.will_finish h) || (host.pic && host.references_local h)) i v w
        unresolved s x e
