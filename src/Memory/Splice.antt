-- ===== src/Memory/Splice.antt =====
-- Stores at an offset of a block that is not cut: what is stored, and what is left of the block.
use soft_hier_release_test.Base.{
  ℕ, zero, suc, ◌+◌, ◌^◌, ◌≤◌, ◌<◌, some, List, [], ◌∷◌, ◌++◌, length, get_elem?, set, take, drop,
  ◌≡◌, ◌≢◌, refl, sym, ap, ap₂, ◌∙◌, arith, length-append, length-take, length-drop,
  take-append-drop, drop-append_length,
}
use soft_hier_release_test.Memory.{done, write, le32, put_word, next_word}
use soft_hier_release_test.Memory.Frame.{put_word_frame, length-le32, next_word-le32}

module _ {ℓ} {A : Type ℓ} where
  pub write-set : (m : List A) (i : ℕ) (v : A) → i < length m → write m i v ≡ done (set m i v)
  unfolding write
  write-set [] i v h = absurd (omega arith)
  write-set (x ∷ m) zero v h = refl
  write-set (x ∷ m) (suc i) v h = rw (write-set m i v (omega arith)) refl

  pub get_elem?-set_self :
      (m : List A) (i : ℕ) (v : A) → i < length m → get_elem? (set m i v) i ≡ some v
  get_elem?-set_self [] i v h = absurd (omega arith)
  get_elem?-set_self (x ∷ m) zero v h = refl
  get_elem?-set_self (x ∷ m) (suc i) v h = get_elem?-set_self m i v (omega arith)

  pub get_elem?-set_ne :
      (m : List A) (i j : ℕ) (v : A) → i ≢ j → get_elem? (set m i v) j ≡ get_elem? m j
  get_elem?-set_ne [] i j v ne = refl
  get_elem?-set_ne (x ∷ m) zero zero v ne = absurd (ne refl)
  get_elem?-set_ne (x ∷ m) zero (suc j) v ne = refl
  get_elem?-set_ne (x ∷ m) (suc i) zero v ne = refl
  get_elem?-set_ne (x ∷ m) (suc i) (suc j) v ne = get_elem?-set_ne m i j v (λ e. ne (ap suc e))

-- The block with a word at an offset.
abbrev pub splice : List ℕ → ℕ → ℕ → List ℕ
splice m i w = take i m ++ (le32 w ++ drop 4 (drop i m))

pub put_word-splice :
    (m : List ℕ) (i w : ℕ) → i + 4 ≤ length m → put_word m i w ≡ done (splice m i w)
put_word-splice m i w room =
    let at : length (take i m) ≡ i = length-take i m (omega arith) in
    let rest = length-drop i m in
    let four : length (take 4 (drop i m)) ≡ 4 = length-take 4 (drop i m) (omega (arith, rest)) in
    let parts : m ≡ take i m ++ (take 4 (drop i m) ++ drop 4 (drop i m)) =
      sym (take-append-drop i m)
      ∙ ap (λ (t : List ℕ). take i m ++ t) (sym (take-append-drop 4 (drop i m))) in
    ap₂ (λ (t : List ℕ) (k : ℕ). put_word t k w) parts (sym at)
    ∙ put_word_frame (take i m) (take 4 (drop i m)) (drop 4 (drop i m)) w four

pub length-splice : (m : List ℕ) (i w : ℕ) → i + 4 ≤ length m → length (splice m i w) ≡ length m
length-splice m i w room = omega (
  arith,
  length-append (take i m) (le32 w ++ drop 4 (drop i m)),
  length-append (le32 w) (drop 4 (drop i m)),
  length-take i m (omega arith),
  length-le32 w,
  length-drop i m,
  length-drop 4 (drop i m),
)

-- The word is read back.
pub next_word-splice :
    (m : List ℕ) (i w : ℕ)
    → i + 4 ≤ length m
    → w < 2 ^ 32
    → next_word (drop i (splice m i w)) ≡ done (w, drop 4 (drop i m))
next_word-splice m i w room small =
    let at : length (take i m) ≡ i = length-take i m (omega arith) in
    ap (λ (k : ℕ). next_word (drop k (splice m i w))) (sym at)
    ∙ ap next_word (drop-append_length (take i m) (le32 w ++ drop 4 (drop i m)))
    ∙ next_word-le32 w (drop 4 (drop i m)) small
