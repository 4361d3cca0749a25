-- ===== src/Memory/Frame.antt =====
-- Stores and loads on a block that is cut into the part before, the part concerned and the rest.
use soft_hier_release_test.Base.{
  ℕ, zero, suc, ◌+◌, ◌*◌, ◌/◌, ◌%◌, ◌^◌, ◌<◌, ◌≡◌, refl, ap, sym, ◌∙◌, arith, List, [], ◌∷◌, ◌++◌,
  length, length-append, take, drop, take-append-drop,
}
use mathlib.Core.List.{append_assoc}
use mathlib.Core.Path.{fun_ext}
use native.Mathlib.Nat.{add-zero}
use soft_hier_release_test.Memory.{
  Outcome, done, failed, fault, ◌>>=◌, write, write_all, read, le32, le32_all, put_word, next_word,
  next_words, c_string, AllBelow, NoZero,
}

module _ {ℓ} {A : Type ℓ} where
  pub write_frame :
      (pre : List A) (x : A) (post : List A) (v : A)
      → write (pre ++ x ∷ post) (length pre) v ≡ done (pre ++ v ∷ post)
  unfolding write
  write_frame [] x post v = refl
  write_frame (p ∷ pre) x post v = rw (write_frame pre x post v)

  snoc_cons : (pre : List A) (x : A) (post : List A) → (pre ++ x ∷ []) ++ post ≡ pre ++ x ∷ post
  snoc_cons pre x post = append_assoc pre (x ∷ []) post

  length-snoc : (pre : List A) (x : A) → length (pre ++ x ∷ []) ≡ suc (length pre)
  length-snoc pre x = omega (arith, length-append pre (x ∷ []))

  -- Consecutive stores replace exactly the cells that they name.
  pub write_all_frame :
      (pre mid post vs : List A)
      → length mid ≡ length vs
      → write_all (pre ++ (mid ++ post)) (length pre) vs ≡ done (pre ++ (vs ++ post))
  unfolding write_all
  write_all_frame pre [] post [] e = refl
  write_all_frame pre [] post (v ∷ vs) e = absurd (omega arith)
  write_all_frame pre (m ∷ mid) post [] e = absurd (omega arith)
  write_all_frame pre (m ∷ mid) post (v ∷ vs) e =
      let rest = write_all_frame (pre ++ v ∷ []) mid post vs (omega arith) in
      let rest' =
        rw (length-snoc pre v, snoc_cons pre v (mid ++ post), snoc_cons pre v (vs ++ post)) at
          rest in
      rw (write_frame pre m (mid ++ post) v) rest'

  pub read_frame :
      (pre : List A) (x : A) (post : List A) → read (pre ++ x ∷ post) (length pre) ≡ done x
  unfolding read
  read_frame [] x post = refl
  read_frame (p ∷ pre) x post = read_frame pre x post

pub length-le32 : (w : ℕ) → length (le32 w) ≡ 4
unfolding le32
length-le32 w = refl

pub length-le32_all : (ws : List ℕ) → length (le32_all ws) ≡ length ws * 4
unfolding le32_all
length-le32_all [] = refl
length-le32_all (w ∷ ws) = omega (arith, length-le32_all ws)

pub put_word_frame :
    (pre mid post : List ℕ) (w : ℕ)
    → length mid ≡ 4
    → put_word (pre ++ (mid ++ post)) (length pre) w ≡ done (pre ++ (le32 w ++ post))
unfolding put_word
put_word_frame pre mid post w e = write_all_frame pre mid post (le32 w) (e ∙ sym (length-le32 w))

-- A word is read back as it was stored.
pub next_word-le32 :
    (w : ℕ) (post : List ℕ) → w < 2 ^ 32 → next_word (le32 w ++ post) ≡ done (w, post)
unfolding next_word le32
next_word-le32 w post h = ground arith

pub next_words-le32_all :
    (ws post : List ℕ)
    → AllBelow (2 ^ 32) ws
    → next_words (length ws) (le32_all ws ++ post) ≡ done ws
unfolding next_words le32_all
next_words-le32_all [] post h = refl
next_words-le32_all (w ∷ ws) post h = rw (four_bytes w h.0, next_words-le32_all ws post h.1)
  where
    four_bytes :
        (w : ℕ)
        → w < 2 ^ 32
        → w % 256 + w / 256 % 256 * 256 + w / 65536 % 256 * 65536 + w / 16777216 % 256 * 16777216
          ≡ w
    four_bytes w h = omega arith

-- A string without a zero byte is read back up to its terminator.
pub c_string-append : (s post : List ℕ) → NoZero s → c_string (s ++ 0 ∷ post) ≡ done (s, post)
unfolding c_string
c_string-append [] post h = refl
c_string-append (zero ∷ s) post h = absurd (omega (arith, h.0))
c_string-append (suc c ∷ s) post h = rw (c_string-append s post h.1)

pub >>=_assoc {ℓ κ μ} :
    {A : Type ℓ} {B : Type κ} {C : Type μ} (r : Outcome A) (f : A → Outcome B) (g : B → Outcome C)
    → r >>= f >>= g ≡ r >>= (λ a. f a >>= g)
>>=_assoc (done a) f g = refl
>>=_assoc failed f g = refl
>>=_assoc fault f g = refl

pub >>=-done {ℓ} : {A : Type ℓ} (r : Outcome A) → r >>= done ≡ r
>>=-done (done a) = refl
>>=-done failed = refl
>>=-done fault = refl

pub write_all-append {ℓ} :
    {A : Type ℓ} (m : List A) (i : ℕ) (xs ys : List A)
    → write_all m i (xs ++ ys) ≡ write_all m i xs >>= (λ m'. write_all m' (i + length xs) ys)
unfolding write_all
write_all-append m i [] ys = rw add-zero
write_all-append m i (x ∷ xs) ys =
    let front = write m i x >>= (λ m'. write_all m' (suc i) xs) in
    let next : suc i + length xs ≡ i + suc (length xs) = omega arith in
    ap (λ k. write m i x >>= k) (fun_ext (λ m'. write_all-append m' (suc i) xs ys))
    ∙ sym (>>=_assoc (write m i x) (λ m'. write_all m' (suc i) xs) _)
    ∙ ap (λ n. front >>= (λ m'. write_all m' n ys)) next

-- A cut of `mid` behind its first cells.
pub cut {ℓ} :
    {A : Type ℓ} (n : ℕ) (pre mid post : List A)
    → pre ++ (mid ++ post) ≡ pre ++ (take n mid ++ (drop n mid ++ post))
cut {A} n pre mid post =
    ap (λ (t : List A). pre ++ t)
      (ap (λ (t : List A). t ++ post) (sym (take-append-drop n mid))
        ∙ append_assoc (take n mid) (drop n mid) post)

-- What stands behind a step that is done.
pub done-step {ℓ κ} :
    {A : Type ℓ} {B : Type κ} (o : Outcome A) (k : A → Outcome B) (b : B)
    → o >>= k ≡ done b
    → (a : A) × (o ≡ done a) × (k a ≡ done b)
done-step (done a) k b e = (a, refl, e)
done-step failed k b e = cc
done-step fault k b e = cc

pub done-injective {ℓ} : {A : Type ℓ} (a b : A) → done a ≡ done b → a ≡ b
done-injective {A} a b e = ap value e
  where
    value : Outcome A → A
    value (done x) = x
    value failed = a
    value fault = a
