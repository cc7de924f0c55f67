-- ===== src/Prelude/Snoc.antt =====
-- A list with one more element at its end.
use mathlib.Core.Path.{◌≡◌, refl}
use mathlib.Core.Bool.{false}
use mathlib.Core.List.{List, [], ◌∷◌, ◌++◌}
use native.Mathlib.Omega.{arith}
use websockets.Prelude.Lists.{length, is_empty, length-append}
use websockets.Prelude.Tests.{◌==◌}

module _ {ℓ} {A : Type ℓ} where
  pub is_empty_snoc : (xs : List A) (x : A) → is_empty (xs ++ x ∷ []) ≡ false
  is_empty_snoc [] x = refl
  is_empty_snoc (y ∷ xs) x = refl

  pub length_snoc : (xs : List A) (x : A) → (length (xs ++ x ∷ []) == 1) ≡ is_empty xs
  length_snoc [] x = refl
  length_snoc (y ∷ xs) x = ground (arith, length-append xs (x ∷ []))
