-- ===== src/Elf/Relocate/Imports.antt =====
-- The import table and the relocation of a section (elf32-riscv.c): nothing but `RegisterImportReloc` changes it.
pub mod GotCases
pub mod Cases
pub mod Switch
pub mod Registered
use soft_hier_release_test.Base.{Bool, true, false, if◌then◌else◌, ◌≡◌, sym, ap, ◌∙◌}
use soft_hier_release_test.Memory.{Outcome, done, ◌>>=◌}
use soft_hier_release_test.Memory.Frame.{done-step, done-injective}
use soft_hier_release_test.Elf.Relocate.{Relocating, Handled, skipped, go}

-- A run from `s` whose answer, whenever there is one, has a state with the same import table.
abbrev pub Same {ℓ} : {A : Type ℓ} → (A → Relocating) → Relocating → Outcome A → Type ℓ
Same f s o = (a : _) → o ≡ done a → (f a).imports ≡ s.imports

abbrev pub itself : Relocating → Relocating
itself s = s

abbrev pub state_of : Handled → Relocating
state_of (skipped s) = s
state_of (go status rel value unresolved s) = s

module _ {ℓ} {A : Type ℓ} (f : A → Relocating) (s : Relocating) where
  pub Same-done : (a : A) → (f a).imports ≡ s.imports → Same f s (done a)
  Same-done a same b e = ap (λ (x : A). (f x).imports) (sym (done-injective a b e)) ∙ same

  pub Same-if :
      (b : Bool) (x y : Outcome A) → Same f s x → Same f s y → Same f s (if b then x else y)
  Same-if true x y p q = p
  Same-if false x y p q = q

  -- A step that only reads.
  pub Same-read {κ} :
      {B : Type κ} (o : Outcome B) (k : B → Outcome A)
      → ((b : B) → Same f s (k b))
      → Same f s (o >>= k)
  Same-read o k next a e = let (b, here, rest) = done-step o k a e in next b a rest

  -- A step with a state of its own.
  pub Same-then {κ} :
      {B : Type κ} (g : B → Relocating) (o : Outcome B) (k : B → Outcome A)
      → Same g s o
      → ((b : B) → Same f (g b) (k b))
      → Same f s (o >>= k)
  Same-then g o k first next a e =
      let (b, here, rest) = done-step o k a e in next b a rest ∙ first b here
