-- ===== src/Elf/Dynamic/Words.antt =====
-- Words that are stored one behind the other in a section.
use soft_hier_release_test.Base.{
  ℕ, ◌+◌, ◌-◌, ◌*◌, ◌≤◌, List, [], ◌∷◌, ◌++◌, length, get_elem?, take, drop, u32, ◌≡◌, refl, ◌∙◌,
  arith, sym, ap, ap₂, map, length-append, length-drop, take-append-drop, length-take,
  get_elem?-append_right, get_elem?-drop,
}
use mathlib.Core.List.{append_assoc}
use soft_hier_release_test.Memory.{Outcome, done, ◌>>=◌, le32, le32_all, put_word}
use soft_hier_release_test.Memory.Frame.{length-le32, cut, put_word_frame}
use soft_hier_release_test.Memory.Splice.{splice, put_word-splice, length-splice}
use soft_hier_release_test.Elf.Dynamic.{put_words32}

-- The bytes behind a stored word stay.
pub get_elem?-splice_behind :
    (m : List ℕ) (i w j : ℕ)
    → i + 4 ≤ length m
    → i + 4 ≤ j
    → get_elem? (splice m i w) j ≡ get_elem? m j
get_elem?-splice_behind m i w j room behind =
    get_elem?-append_right (take i m) (le32 w ++ drop 4 (drop i m)) (j - i) j
      (omega (arith, length-take i m (omega arith)))
    ∙ get_elem?-append_right (le32 w) (drop 4 (drop i m)) (j - i - 4) (j - i)
        (omega (arith, length-le32 w))
    ∙ get_elem?-drop 4 (drop i m) (j - i - 4) (j - i) (omega arith)
    ∙ get_elem?-drop i m (j - i) j (omega arith)

-- The words of an array inside a block.
pub put_words32-done :
    (ws m : List ℕ) (at : ℕ)
    → at + 4 * length ws ≤ length m
    → (m' : List ℕ) × (put_words32 m at ws ≡ done m')
      × (length m' ≡ length m)
      × ((j : ℕ) → at + 4 * length ws ≤ j → get_elem? m' j ≡ get_elem? m j)
unfolding put_words32
put_words32-done [] m at room = (m, refl, refl, λ j h. refl)
put_words32-done (w ∷ ws) m at room =
    let same = length-splice m at (u32 w) (omega arith) in
    let (m', rest, size, after) =
      put_words32-done ws (splice m at (u32 w)) (at + 4) (omega (arith, same)) in
    (
      m',
      rw (put_word-splice m at (u32 w) (omega arith)) rest,
      size ∙ same,
      λ j h.
          after j (omega (arith, h))
          ∙ get_elem?-splice_behind m at (u32 w) j (omega arith) (omega (arith, h)),
    )

-- The words of an array over as many bytes of a block, which keeps the bytes before and behind.
put_words32_frame :
    (ws pre mid post : List ℕ)
    → length mid ≡ 4 * length ws
    → put_words32 (pre ++ (mid ++ post)) (length pre) ws
      ≡ done (pre ++ (le32_all (map u32 ws) ++ post))
unfolding put_words32 le32_all
put_words32_frame [] pre [] post size = refl
put_words32_frame [] pre (x ∷ mid) post size = absurd (omega arith)
put_words32_frame (w ∷ ws) pre mid post size =
    let four : length (take 4 mid) ≡ 4 = length-take 4 mid (omega arith) in
    let word = le32 (u32 w) in
    let first : put_word (pre ++ (mid ++ post)) (length pre) (u32 w)
        ≡ done (pre ++ (word ++ (drop 4 mid ++ post))) =
      ap (λ (m : List ℕ). put_word m (length pre) (u32 w)) (cut 4 pre mid post)
      ∙ put_word_frame pre (take 4 mid) (drop 4 mid ++ post) (u32 w) four in
    let next : length pre + 4 ≡ length (pre ++ word) =
      omega (arith, length-append pre word, length-le32 (u32 w)) in
    ap (λ (o : Outcome (List ℕ)). o >>= (λ m. put_words32 m (length pre + 4) ws)) first
    ∙ ap₂ (λ (m : List ℕ) (i : ℕ). put_words32 m i ws)
        (sym (append_assoc pre word (drop 4 mid ++ post))) next
    ∙ put_words32_frame ws (pre ++ word) (drop 4 mid) post (omega (arith, length-drop 4 mid))
    ∙ ap done (append_assoc pre word (le32_all (map u32 ws) ++ post))

-- The same at an offset.
pub put_words32-at :
    (ws m : List ℕ) (at : ℕ)
    → at + 4 * length ws ≤ length m
    → put_words32 m at ws
      ≡ done (take at m ++ (le32_all (map u32 ws) ++ drop (4 * length ws) (drop at m)))
put_words32-at ws m at room =
    let n = 4 * length ws in
    let behind = drop at m in
    let parts : m ≡ take at m ++ (take n behind ++ drop n behind) =
      sym
        (ap (λ (t : List ℕ). take at m ++ t) (take-append-drop n behind) ∙ take-append-drop at m) in
    ap₂ (λ (t : List ℕ) (i : ℕ). put_words32 t i ws) parts (sym (length-take at m (omega arith)))
    ∙ put_words32_frame ws (take at m) (take n behind) (drop n behind)
        (length-take n behind (omega (arith, length-drop at m)))
