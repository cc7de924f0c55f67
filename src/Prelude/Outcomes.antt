-- ===== src/Prelude/Outcomes.antt =====
-- What holds of the result of a step that may have none.
use mathlib.Core.Option.{Option, none, some}

module _ {ℓ} {A : Type ℓ} (P : A → Type 0) where
  -- There is a result, and it has the property.
  abbrev pub Ensures : Option A → Type 0
  Ensures none = ⊥
  Ensures (some x) = P x

  -- If there is a result, it has the property.
  abbrev pub Whenever : Option A → Type 0
  Whenever none = Unit
  Whenever (some x) = P x
