-- ===== src/Elf/Dynamic/Finished.antt =====
-- What `riscv_elf_finish_dynamic_sections` of elf32-riscv.c leaves of the sections' entries.
use soft_hier_release_test.Base.{
  ℕ, ◌-◌, ◌*◌, ◌^◌, ◌≤◌, Bool, true, false, some, List, [], ◌∷◌, length, get_elem?, ◌==◌,
  if◌then◌else◌, ◌≡◌, ◌⊎◌, inl, inr, refl, ◌∙◌, arith,
}
use soft_hier_release_test.Memory.{Outcome, done, failed}
use soft_hier_release_test.Elf.Alloc.{plt_entry_size, word_bytes}
use soft_hier_release_test.Elf.Dynamic.{DynLink, make_plt_header, put_words32}
use soft_hier_release_test.Elf.Dynamic.Words.{put_words32-done}
use soft_hier_release_test.Elf.Dynamic.Sections.{
  DynHost, DynState, finish_dyn, finish_header, finish_plt_section, finish_gotplt_section, or_zero,
  finish_got_section, finish_dynamic_sections,
}

-- The bytes from `n` on are the same, and the length is.
abbrev pub SameBehind : ℕ → List ℕ → List ℕ → Type 0
SameBehind n m m' = (length m' ≡ length m) × ((j : ℕ) → n ≤ j → get_elem? m' j ≡ get_elem? m j)

-- Only the heads of the three sections may differ.
pub record IsHeaded (s t : DynState) : Type 0 where
  pub splt : SameBehind 32 s.contents.splt t.contents.splt
  pub sgotplt : SameBehind 8 s.contents.sgotplt t.contents.sgotplt
  pub sgot : SameBehind 4 s.contents.sgot t.contents.sgot
  pub relplt : t.contents.relplt ≡ s.contents.relplt

-- A step that ends with such a state.
abbrev Stage : DynState → Outcome DynState → Type 0
Stage s o = (t : DynState) × (o ≡ done t) × IsHeaded s t

SameBehind-trans : (n : ℕ) (a b c : List ℕ) → SameBehind n a b → SameBehind n b c → SameBehind n a c
SameBehind-trans n a b c p q = (q.0 ∙ p.0, λ j h. q.1 j h ∙ p.1 j h)

IsHeaded-refl : (s : DynState) → IsHeaded s s
IsHeaded-refl s = record {
  splt = (refl, λ j h. refl);
  sgotplt = (refl, λ j h. refl);
  sgot = (refl, λ j h. refl);
  relplt = refl;
}

IsHeaded-trans : (a b c : DynState) → IsHeaded a b → IsHeaded b c → IsHeaded a c
IsHeaded-trans a b c p q = record {
  splt = SameBehind-trans 32 a.contents.splt b.contents.splt c.contents.splt p.splt q.splt;
  sgotplt =
      SameBehind-trans 8 a.contents.sgotplt b.contents.sgotplt c.contents.sgotplt p.sgotplt
        q.sgotplt;
  sgot = SameBehind-trans 4 a.contents.sgot b.contents.sgot c.contents.sgot p.sgot q.sgot;
  relplt = q.relplt ∙ p.relplt;
}

if_Stage :
    (b : Bool) (s : DynState) (x : Outcome DynState) → Stage s x → Stage s (if b then x else done s)
if_Stage true s x p = p
if_Stage false s x p = (s, refl, IsHeaded-refl s)

if_kept :
    (b : Bool) (s : DynState) (x : Outcome DynState)
    → b ≡ false
    → Stage s x
    → Stage s (if b then failed else x)
if_kept true s x e p = cc
if_kept false s x e p = p

-- The words at the head of a section that is empty or has room for them.
head_written :
    (ws m : List ℕ)
    → (length m ≡ 0) ⊎ (4 * length ws ≤ length m)
    → (m' : List ℕ) × ((if length m == 0 then done m else put_words32 m 0 ws) ≡ done m')
      × SameBehind (4 * length ws) m m'
head_written ws m (inl empty) = (m, ground (arith, empty), (refl, λ j h. refl))
head_written ws m (inr room) =
    let (m', stored, size, after) = put_words32-done ws m 0 (omega arith) in
    choose (length m == 0) m' stored (size, λ j h. after j (omega (arith, h)))
  where
    choose :
        (b : Bool) (m' : List ℕ)
        → put_words32 m 0 ws ≡ done m'
        → SameBehind (4 * length ws) m m'
        → (m'' : List ℕ) × ((if b then done m else put_words32 m 0 ws) ≡ done m'')
          × SameBehind (4 * length ws) m m''
    choose true m' stored same = (m, refl, (refl, λ j h. refl))
    choose false m' stored same = (m', stored, same)

module _ (link : DynLink) (host : DynHost) (s : DynState) where
  finish_plt_section-headed :
      (length s.contents.splt ≡ 0) ⊎ (32 ≤ length s.contents.splt)
      → Stage s (finish_plt_section link host s)
  unfolding finish_plt_section finish_header make_plt_header
  finish_plt_section-headed room =
      let header = make_plt_header link.insns link.sgotplt_addr link.splt_addr in
      let (m, written, same) = head_written header s.contents.splt room in
      if_Stage host.dynamic_sections_created s _ (
        record s {
          contents = record s.contents { splt = m };
          dynamic = finish_dyn link host s.dynamic;
          plt_entsize = some plt_entry_size;
        },
        rw written refl,
        record {
          splt = same;
          sgotplt = (refl, λ j h. refl);
          sgot = (refl, λ j h. refl);
          relplt = refl;
        },
      )

  finish_gotplt_section-headed :
      host.sgotplt_discarded ≡ false
      → (length s.contents.sgotplt ≡ 0) ⊎ (8 ≤ length s.contents.sgotplt)
      → Stage s (finish_gotplt_section link host s)
  unfolding finish_gotplt_section
  finish_gotplt_section-headed kept room =
      let (m, written, same) = head_written ((2 ^ 64 - 1) ∷ 0 ∷ []) s.contents.sgotplt room in
      if_Stage host.has_sgotplt s _ (
        if_kept host.sgotplt_discarded s _ kept (
          record s {
            contents = record s.contents { sgotplt = m };
            gotplt_entsize = some word_bytes;
          },
          rw written refl,
          record {
            splt = (refl, λ j h. refl);
            sgotplt = same;
            sgot = (refl, λ j h. refl);
            relplt = refl;
          },
        ))

  finish_got_section-headed :
      (length s.contents.sgot ≡ 0) ⊎ (4 ≤ length s.contents.sgot)
      → Stage s (finish_got_section link host s)
  unfolding finish_got_section
  finish_got_section-headed room =
      let (m, written, same) = head_written (or_zero host.sdyn_addr ∷ []) s.contents.sgot room in
      if_Stage host.has_sgot s _ (
        record s { contents = record s.contents { sgot = m }; got_entsize = some word_bytes },
        rw written refl,
        record {
          splt = (refl, λ j h. refl);
          sgotplt = (refl, λ j h. refl);
          sgot = same;
          relplt = refl;
        },
      )

room_kept :
    (n k : ℕ) (m m' : List ℕ)
    → SameBehind k m m'
    → (length m ≡ 0) ⊎ (n ≤ length m)
    → (length m' ≡ 0) ⊎ (n ≤ length m')
room_kept n k m m' same (inl empty) = inl (same.0 ∙ empty)
room_kept n k m m' same (inr room) = inr (omega (arith, same.0))

-- Each of `.plt`, `.got.plt` and `.got` empty or as large as its head of 32, 8 and 4 bytes, and the output of
-- `.got.plt` not discarded: the answer is TRUE, no store is out of bounds, the sections keep their sizes,
-- and every byte behind the heads and every entry of `.rela.plt` is as before.
pub finish_dynamic_sections-IsHeaded :
    (link : DynLink) (host : DynHost) (s : DynState)
    → host.sgotplt_discarded ≡ false
    → (length s.contents.splt ≡ 0) ⊎ (32 ≤ length s.contents.splt)
    → (length s.contents.sgotplt ≡ 0) ⊎ (8 ≤ length s.contents.sgotplt)
    → (length s.contents.sgot ≡ 0) ⊎ (4 ≤ length s.contents.sgot)
    → (t : DynState) × (finish_dynamic_sections link host s ≡ done t) × IsHeaded s t
unfolding finish_dynamic_sections
finish_dynamic_sections-IsHeaded link host s kept plt_room gotplt_room got_room =
    let (a, first, headed_a) = finish_plt_section-headed link host s plt_room in
    let (b, second, headed_b) =
      finish_gotplt_section-headed link host a kept
        (room_kept 8 8 s.contents.sgotplt a.contents.sgotplt headed_a.sgotplt gotplt_room) in
    let behind = IsHeaded-trans s a b headed_a headed_b in
    let (t, third, headed_t) =
      finish_got_section-headed link host b
        (room_kept 4 4 s.contents.sgot b.contents.sgot behind.sgot got_room) in
    (t, rw (first, second) third, IsHeaded-trans s b t behind headed_t)
