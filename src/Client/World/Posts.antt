-- ===== src/Client/World/Posts.antt =====
-- What waits for a session, counted.
use websockets.Prelude.{
  ℕ, zero, suc, ◌+◌, ◌≡◌, refl, Bool, true, false, ◌&&◌, Option, none, some, List, [], ◌∷◌, ◌++◌,
  ◌==◌, if◌then◌else◌, arith,
}
use websockets.Server.Lifecycle.{pick}
use websockets.Client.World.{Post, connects, closes}

abbrev pub is_close : Post → Bool
is_close closes = true
is_close _ = false

abbrev pub is_connect : Post → Bool
is_connect (connects host port resource headers) = true
is_connect _ = false

abbrev pub hit : (Post → Bool) → ℕ → ℕ × Post → ℕ
hit is k (j, p) = if is p && j == k then 1 else 0

abbrev pub num_waiting : (Post → Bool) → ℕ → List (ℕ × Post) → ℕ
num_waiting is k [] = 0
num_waiting is k (x ∷ rest) = hit is k x + num_waiting is k rest

pub num_waiting-append :
    (is : Post → Bool) (k : ℕ) (xs ys : List (ℕ × Post))
    → num_waiting is k (xs ++ ys) ≡ num_waiting is k xs + num_waiting is k ys
num_waiting-append is k [] ys = omega arith
num_waiting-append is k (x ∷ xs) ys = omega (arith, num_waiting-append is k xs ys)

-- What is picked is counted no longer.
abbrev pub Less :
    (Post → Bool) → ℕ → List (ℕ × Post) → Option ((ℕ × Post) × List (ℕ × Post)) → Type 0
Less is k inbox none = Unit
Less is k inbox (some (x, rest)) = num_waiting is k inbox ≡ hit is k x + num_waiting is k rest

pub Less-pick :
    (is : Post → Bool) (k n : ℕ) (inbox : List (ℕ × Post)) → Less is k inbox (pick n inbox)
Less-pick is k n [] = tt
Less-pick is k zero (x ∷ inbox) = refl
Less-pick is k (suc n) (x ∷ inbox) = later (pick n inbox) (Less-pick is k n inbox)
  where
    later :
        (o : Option ((ℕ × Post) × List (ℕ × Post)))
        → Less is k inbox o
        → Less is k (x ∷ inbox) (elim o [ none ↦ none | some (q, qs) ↦ some (q, x ∷ qs) ])
    later none l = tt
    later (some (q, qs)) l = omega (arith, l)
