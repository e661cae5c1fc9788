-- ===== src/Prelude/Outcome.antt =====
-- What a Go call comes to: it returns a value, or it panics.
use mathlib.Core.Path.{◌≡◌, refl}
use mathlib.Core.List.{List, [], ◌∷◌}
use mathlib.Core.List

pub data Outcome {ℓ} (A : Type ℓ) : Type ℓ where
  returned : A → Outcome A
  panicked : Outcome A

infixl 5 ◌>>=◌
abbrev pub ◌>>=◌ {ℓ κ} : {A : Type ℓ} {B : Type κ} → Outcome A → (A → Outcome B) → Outcome B
returned a >>= f = f a
panicked >>= f = panicked

-- A loop over a slice that stops at the first panic.
module _ {ℓ κ} {A : Type ℓ} {B : Type κ} where
  unfoldable pub traverse : (A → Outcome B) → List A → Outcome (List B)
  traverse f [] = returned []
  traverse f (x ∷ xs) = do y ← f x; ys ← traverse f xs; returned (y ∷ ys)

  pub traverse-returned :
      (f : A → Outcome B) (g : A → B)
      → ((x : A) → f x ≡ returned (g x))
      → (xs : List A) → traverse f xs ≡ returned (List.map g xs)
  unfolding traverse
  traverse-returned f g h [] = refl
  traverse-returned f g h (x ∷ xs) = rw (h x, traverse-returned f g h xs)
