-- ===== src/Pulp/Import/Sections/Strings.antt =====
-- The names section as a whole: its head, an index and a terminated name for each import, and zeros up
-- to a multiple of four bytes.
use soft_hier_release_test.Base.{
  ℕ, suc, ◌+◌, ◌*◌, ◌^◌, ◌<◌, true, false, some, List, [], ◌∷◌, ◌++◌, length, take, drop, ◌≡◌, refl,
  sym, ap, ap₂, ◌∙◌, arith, inl, inr, Bool-cases, length-append, length-take, length-drop,
}
use mathlib.Core.List.{append_assoc}
use soft_hier_release_test.Memory.{done, write_all, put_word, le32}
use soft_hier_release_test.Memory.Frame.{cut, write_all_frame, put_word_frame, length-le32}
use soft_hier_release_test.Pulp.Hash.{Name}
use soft_hier_release_test.Pulp.Import.{ImportEntry}
use soft_hier_release_test.Pulp.Import.Sections.{is_empty, NameState, name_entry, name_chain}
use soft_hier_release_test.Pulp.Import.Sections.Spec.{
  Code, codes_of, Import, imports_of, cons_import-some,
}
use soft_hier_release_test.Pulp.Import.Sections.Size.{names_bytes}

-- The indices of the names, from the offset `at` of the first.
abbrev pub name_indices : ℕ → List Import → List ℕ
name_indices at [] = []
name_indices at (i ∷ is) = le32 at ++ name_indices (at + (length i.0 + 1)) is

abbrev pub name_strings : List Import → List ℕ
name_strings [] = []
name_strings (i ∷ is) = (i.0 ++ 0 ∷ []) ++ name_strings is

abbrev pub name_state : List ℕ → ℕ → ℕ → NameState
name_state m h n = record { mem = m; head_name = h; n_imp = n }

name_state_eq :
    {m m' : List ℕ} {h h' n n' : ℕ}
    → m ≡ m'
    → h ≡ h'
    → n ≡ n'
    → name_state m h n ≡ name_state m' h' n'
name_state_eq p q r i = record { mem = p i; head_name = q i; n_imp = r i }

pub length-name_strings :
    (is : List Import) → length (name_strings is) + 4 * length is ≡ names_bytes is
length-name_strings [] = refl
length-name_strings (i ∷ is) = omega (
  arith,
  length-append (i.0 ++ 0 ∷ []) (name_strings is),
  length-append i.0 (0 ∷ []),
  length-name_strings is,
)

pub length-name_indices : (at : ℕ) (is : List Import) → length (name_indices at is) ≡ 4 * length is
length-name_indices at [] = refl
length-name_indices at (i ∷ is) = omega (
  arith,
  length-append (le32 at) (name_indices (at + (length i.0 + 1)) is),
  length-le32 at,
  length-name_indices (at + (length i.0 + 1)) is,
)

-- One name: its index goes to the front of the free indices, and its bytes behind the strings.
name_entry_frame :
    (e : ImportEntry) (pre slot free strings room post m : List ℕ) (h n : ℕ)
    → m ≡ pre ++ (slot ++ (free ++ (strings ++ (room ++ post))))
    → length slot ≡ 4
    → length room ≡ length e.name + 1
    → 4 * (1 + n) ≡ length pre
    → h ≡ length pre + 4 + length free + length strings
    → h + (length e.name + 1) < 2 ^ 32
    → n + 1 < 2 ^ 32
    → name_entry 0 e (name_state m h n)
      ≡ done (
          name_state
            (pre ++ (le32 h ++ (free ++ (strings ++ ((e.name ++ 0 ∷ []) ++ post)))))
            (h + (length e.name + 1))
            (n + 1))
unfolding name_entry
name_entry_frame e pre slot free strings room post m h n at four wide index place fits few =
    let cell = e.name ++ 0 ∷ [] in
    let tail = free ++ (strings ++ (room ++ post)) in
    let indexed : put_word m (4 * (1 + n)) h ≡ done (pre ++ (le32 h ++ tail)) =
      ap₂ (λ (t : List ℕ) (k : ℕ). put_word t k h) at index ∙ put_word_frame pre slot tail h four in
    let front = pre ++ (le32 h ++ (free ++ strings)) in
    let front_len : h ≡ length front = omega (
      arith,
      place,
      length-append pre (le32 h ++ (free ++ strings)),
      length-append (le32 h) (free ++ strings),
      length-append free strings,
      length-le32 h,
    ) in
    let shape : pre ++ (le32 h ++ tail) ≡ front ++ (room ++ post) = simp append_assoc in
    let named : write_all (pre ++ (le32 h ++ tail)) h cell ≡ done (front ++ (cell ++ post)) =
      ap₂ (λ (t : List ℕ) (k : ℕ). write_all t k cell) shape front_len
      ∙ write_all_frame front room post cell (omega (arith, wide, length-append e.name (0 ∷ []))) in
    rw (indexed, named) (ap done (name_state_eq (simp append_assoc) (omega arith) (omega arith)))

name_chain-skip :
    (e : ImportEntry) (es : List ImportEntry) (s : NameState)
    → is_empty e.refs ≡ true
    → name_chain 0 (e ∷ es) s ≡ name_chain 0 es s
unfolding name_chain
name_chain-skip e es s h = rw h

name_chain-entry :
    (e : ImportEntry) (es : List ImportEntry) (s s' : NameState)
    → is_empty e.refs ≡ false
    → name_entry 0 e s ≡ done s'
    → name_chain 0 (e ∷ es) s ≡ name_chain 0 es s'
unfolding name_chain
name_chain-entry e es s s' h entered = rw (h, entered)

-- What the loop ends in after the names `is`.
abbrev pub named : List Import → List ℕ → List ℕ → List ℕ → ℕ → ℕ → NameState
named is pre strings post h n =
    name_state (pre ++ (name_indices h is ++ (strings ++ (name_strings is ++ post))))
      (h + length (name_strings is)) (n + length is)

named-cons :
    (name : Name) (cs : List Code) (is : List Import) (pre strings post : List ℕ) (h n : ℕ)
    → named is (pre ++ le32 h) (strings ++ (name ++ 0 ∷ [])) post (h + (length name + 1)) (n + 1)
      ≡ named ((name, cs) ∷ is) pre strings post h n
named-cons name cs is pre strings post h n =
    name_state_eq (simp append_assoc)
      (omega (arith, length-append (name ++ 0 ∷ []) (name_strings is), length-append name (0 ∷ [])))
      (omega arith)

-- The names of a chain fill exactly their indices and their strings.
pub name_chain_frame :
    (es : List ImportEntry) (is : List Import) (pre slots strings room post m : List ℕ) (h n : ℕ)
    → imports_of es ≡ some is
    → m ≡ pre ++ (slots ++ (strings ++ (room ++ post)))
    → length slots ≡ 4 * length is
    → length room ≡ length (name_strings is)
    → 4 * (1 + n) ≡ length pre
    → h ≡ length pre + length slots + length strings
    → h + length room < 2 ^ 32
    → n + length is < 2 ^ 32
    → name_chain 0 es (name_state m h n) ≡ done (named is pre strings post h n)
name_chain_frame [] (i ∷ is) pre slots strings room post m h n known at four wide index place fits
      few =
    cc
name_chain_frame [] [] pre (x ∷ slots) strings room post m h n known at four wide index place fits
      few =
    absurd (omega arith)
name_chain_frame [] [] pre [] strings (x ∷ room) post m h n known at four wide index place fits
      few =
    absurd (omega arith)
name_chain_frame [] [] pre [] strings [] post m h n known at four wide index place fits few =
    unfold name_chain in ap done (name_state_eq at (omega arith) (omega arith))
name_chain_frame (e ∷ es) is pre slots strings room post m h n known at four wide index place fits
      few =
    elim (Bool-cases (is_empty e.refs)) [
      | inl none_here ↦
          name_chain-skip e es (name_state m h n) none_here
          ∙ name_chain_frame es is pre slots strings room post m h n (rw none_here at known) at four
              wide index place fits few
      | inr some_here ↦
          let (cs, tail, coded, rest, split) =
            cons_import-some e.name (codes_of e.refs) (imports_of es) is (rw some_here at known) in
          let cell = e.name ++ 0 ∷ [] in
          let k = length e.name + 1 in
          let cell_len = length-append e.name (0 ∷ []) in
          let count : length is ≡ suc (length tail) = ap length split in
          let bytes : length (name_strings is) ≡ length cell + length (name_strings tail) =
            ap (λ (t : List Import). length (name_strings t)) split
            ∙ length-append cell (name_strings tail) in
          let slot_len = length-take 4 slots (omega (arith, count)) in
          let free_len = length-drop 4 slots in
          let room_len = length-take k room (omega (arith, bytes, cell_len)) in
          let rest_len = length-drop k room in
          let shape : m
              ≡ pre
                ++ (take 4 slots
                    ++ (drop 4 slots ++ (strings ++ (take k room ++ (drop k room ++ post))))) =
            at
            ∙ ap (λ (t : List ℕ). pre ++ (slots ++ t)) (cut k strings room post)
            ∙ cut 4 pre slots (strings ++ (take k room ++ (drop k room ++ post))) in
          let entered =
            name_entry_frame e pre (take 4 slots) (drop 4 slots) strings (take k room)
              (drop k room ++ post) m h n shape slot_len room_len index
              (omega (arith, free_len, count)) (omega (arith, bytes, cell_len))
              (omega (arith, count)) in
          name_chain-entry e es (name_state m h n) _ some_here entered
          ∙ name_chain_frame es tail (pre ++ le32 h) (drop 4 slots) (strings ++ cell) (drop k room)
              post _ (h + k) (n + 1) rest (simp append_assoc) (omega (arith, free_len, count))
              (omega (arith, rest_len, bytes, cell_len))
              (omega (arith, length-append pre (le32 h), length-le32 h))
              (omega (
                arith,
                length-append pre (le32 h),
                length-le32 h,
                free_len,
                count,
                length-append strings cell,
                cell_len,
              ))
              (omega (arith, rest_len, bytes, cell_len)) (omega (arith, count))
          ∙ ap done (
              named-cons e.name cs tail pre strings post h n
              ∙ ap (λ (t : List Import). named t pre strings post h n) (sym split))
    ]
