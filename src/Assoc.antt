-- ===== src/Assoc.antt =====
-- std::map and std::unordered_map as association lists: `lookup` is `find`, `insert` is
-- `m[k] = v`, `erase` is `erase`. A map holds each key once; the order is that of first insertion.
pub mod Laws
pub mod Erase
use websockets.Prelude.{
  ℕ, ◌≡◌, ◌↔◌, Bool, true, Option, none, some, List, [], ◌∷◌, ◌==◌, ==_iff, if◌then◌else◌, map,
}
use websockets.Text.{Text, text_eq}
use websockets.Text.Laws.{text_eq_iff}

-- The equality of the keys.
pub record Key (K : Type 0) : Type 0 where
  pub same : K → K → Bool
  pub same_iff : (a b : K) → (same a b ≡ true) ↔ (a ≡ b)

instance abbrev pub nat_key : Key ℕ
nat_key = record { same = ◌==◌; same_iff = ==_iff }

instance abbrev pub text_key : Key Text
text_key = record { same = text_eq; same_iff = text_eq_iff }

abbrev pub Assoc : Type 0 → Type 0 → Type 0
Assoc K V = List (K × V)

module _ {K V : Type 0} ⦃k : Key K⦄ where
  unfoldable pub lookup : K → Assoc K V → Option V
  lookup a [] = none
  lookup a ((b, v) ∷ m) = if k.same b a then some v else lookup a m

  unfoldable pub insert : K → V → Assoc K V → Assoc K V
  insert a v [] = (a, v) ∷ []
  insert a v ((b, w) ∷ m) = if k.same b a then (b, v) ∷ m else (b, w) ∷ insert a v m

  unfoldable pub erase : K → Assoc K V → Assoc K V
  erase a [] = []
  erase a ((b, w) ∷ m) = if k.same b a then m else (b, w) ∷ erase a m

abbrev pub keys : {K V : Type 0} → Assoc K V → List K
keys = map (λ e. e.0)
