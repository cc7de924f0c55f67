-- ===== src/Target/Query.antt =====
-- The query loop of `ParseTarget` visits the pieces between the '&' signs, each once and in order.
use websockets.Prelude.{
  ℕ, zero, suc, ◌+◌, ◌-◌, ◌≤◌, ◌<◌, ◌≡◌, refl, sym, ap, ◌∙◌, true, Option, none, some, List, [],
  ◌∷◌, ◌==◌, leb, if◌then◌else◌, length, take, drop, arith, Bool-cases, ◌⊎◌, inl, inr,
}
use websockets.Text.{Text, find, find_from}
use websockets.Target.{Parameters, add_pair, query_loop, target_path, parse_target}

-- The text before the first `c`, and the text after it.
abbrev pub before : ℕ → Text → Text
before c [] = []
before c (x ∷ s) = if x == c then [] else x ∷ before c s

abbrev pub after : ℕ → Text → Option Text
after c [] = none
after c (x ∷ s) = if x == c then some s else after c s

-- The pieces of a text between separators: always at least one.
abbrev extend : ℕ → List Text → List Text
extend x [] = (x ∷ []) ∷ []
extend x (p ∷ ps) = (x ∷ p) ∷ ps

unfoldable pub split_on : ℕ → Text → List Text
split_on c [] = [] ∷ []
split_on c (x ∷ s) = if x == c then [] ∷ split_on c s else extend x (split_on c s)

-- The reference: add the pieces of the query one after the other.
abbrev pub add_pairs : List Text → Parameters → Parameters
add_pairs [] params = params
add_pairs (p ∷ ps) params = add_pairs ps (add_pair p params)

split_on_cases :
    (c : ℕ) (s : Text)
    → ((find c s ≡ none) × (split_on c s ≡ s ∷ []))
      ⊎ ((i : ℕ) × (find c s ≡ some i)
          × (i < length s)
          × (split_on c s ≡ take i s ∷ split_on c (drop (suc i) s)))
unfolding find split_on
split_on_cases c [] = inl (refl, refl)
split_on_cases c (x ∷ s) = elim (Bool-cases (x == c)) [
  | inl e ↦ inr (0, rw e, omega arith, rw e)
  | inr e ↦ elim (split_on_cases c s) [
    | inl (n, h) ↦ inl (rw (e, n), rw (e, h))
    | inr (i, f, l, h) ↦ inr (suc i, rw (e, f), omega arith, rw (e, h))
  ]
]

length-drop : (n : ℕ) (s : Text) → length (drop n s) ≡ length s - n
length-drop zero s = omega arith
length-drop (suc n) [] = omega arith
length-drop (suc n) (x ∷ s) = omega (arith, length-drop n s)

drop-nil : (n : ℕ) → drop {A = ℕ} n [] ≡ []
drop-nil zero = refl
drop-nil (suc n) = refl

drop-drop : (n m : ℕ) (s : Text) → drop m (drop n s) ≡ drop (n + m) s
drop-drop zero m s = ap (λ k. drop k s) (omega arith)
drop-drop (suc n) m [] = drop-nil m ∙ sym (drop-nil (suc n + m))
drop-drop (suc n) m (x ∷ s) =
    let e : suc (n + m) ≡ suc n + m = omega arith in drop-drop n m s ∙ ap (λ k. drop k (x ∷ s)) e

take_all : (n : ℕ) (s : Text) → length s ≡ n → take n s ≡ s
take_all zero [] h = refl
take_all (suc n) [] h = refl
take_all zero (x ∷ s) h = absurd (omega arith)
take_all (suc n) (x ∷ s) h = ap (◌∷◌ x) (take_all n s (omega arith))

-- One round of the loop, with the piece that it reads.
module _ (fuel : ℕ) (query : Text) (start : ℕ) (params : Parameters) where
  query_loop_done : length query < start → query_loop (suc fuel) query start params ≡ some params
  unfolding query_loop
  query_loop_done h = ground arith

  query_loop_last :
      start ≤ length query
      → find b'&' (drop start query) ≡ none
      → query_loop (suc fuel) query start params
        ≡ query_loop fuel query (length query + 1) (add_pair (drop start query) params)
  unfolding query_loop find_from
  query_loop_last h f =
      let e = take_all (length query - start) (drop start query) (length-drop start query) in
      let t : leb start (length query) ≡ true = ground arith in rw (t, f, e)

  query_loop_next :
      (i : ℕ)
      → start ≤ length query
      → find b'&' (drop start query) ≡ some i
      → query_loop (suc fuel) query start params
        ≡ query_loop fuel query (start + i + 1) (add_pair (take i (drop start query)) params)
  unfolding query_loop find_from
  query_loop_next i h f =
      let t : leb start (length query) ≡ true = ground arith in
      let d : start + i - start ≡ i = omega arith in rw (t, f, d)

-- With enough fuel the loop ends, and has added the pieces of the rest of the query.
pub query_loop_lem :
    (fuel : ℕ) (query : Text) (start : ℕ) (params : Parameters)
    → start ≤ length query
    → length query + 2 ≤ fuel + start
    → query_loop fuel query start params
      ≡ some (add_pairs (split_on b'&' (drop start query)) params)
query_loop_lem zero query start params h g = absurd (omega arith)
query_loop_lem (suc zero) query start params h g = absurd (omega arith)
query_loop_lem (suc (suc fuel)) query start params h g =
    elim (split_on_cases b'&' (drop start query)) [
      | inl (f, s) ↦
          query_loop_last (suc fuel) query start params h f
          ∙ (query_loop_done fuel query (length query + 1) _ (omega arith) ∙ rw s)
      | inr (i, f, l, s) ↦
          let l' : start + i + 1 ≤ length query = omega (arith, length-drop start query) in
          let e : start + suc i ≡ start + i + 1 = omega arith in
          query_loop_next (suc fuel) query start params i h f
          ∙ (query_loop_lem (suc fuel) query (start + i + 1) _ l' (omega arith)
              ∙ rw (s, drop-drop start (suc i) query, e))
    ]

find_cases :
    (c : ℕ) (s : Text)
    → ((find c s ≡ none) × (after c s ≡ none) × (before c s ≡ s))
      ⊎ ((i : ℕ) × (find c s ≡ some i)
          × (after c s ≡ some (drop (i + 1) s))
          × (before c s ≡ take i s))
unfolding find
find_cases c [] = inl (refl, refl, refl)
find_cases c (x ∷ s) = elim (Bool-cases (x == c)) [
  | inl e ↦ inr (0, rw e, rw e, rw e)
  | inr e ↦ elim (find_cases c s) [
    | inl (f, a, b) ↦ inl (rw (e, f), rw (e, a), rw (e, b))
    | inr (i, f, a, b) ↦
        let d : suc (i + 1) ≡ suc i + 1 = omega arith in
        inr (suc i, rw (e, f), rw e (a ∙ ap (λ k. some (drop k (x ∷ s))) d), rw (e, b))
  ]
]

pub target_path_lem : (target : Text) → target_path target ≡ before b'?' target
unfolding target_path
target_path_lem target = elim (find_cases b'?' target) [
  | inl (f, a, b) ↦ rw (f, target_path, b)
  | inr (i, f, a, b) ↦ rw (f, target_path, b)
]

-- The parameters that a query stands for.
abbrev pub query_parameters : Option Text → Parameters
query_parameters none = []
query_parameters (some query) = add_pairs (split_on b'&' query) []

-- `ParseTarget` terminates on every target. The path is what stands before the first '?'; the
-- parameters are the pieces of the text after it, split at '&' and added from left to right.
pub parse_target_lem :
    (target : Text)
    → parse_target target ≡ some (before b'?' target, query_parameters (after b'?' target))
unfolding parse_target
parse_target_lem target = elim (find_cases b'?' target) [
  | inl (f, a, b) ↦ rw (f, parse_target, target_path_lem target, a)
  | inr (i, f, a, b) ↦
      let query = drop (i + 1) target in
      let loop = query_loop_lem (length query + 2) query 0 [] (omega arith) (omega arith) in
      rw (f, parse_target, loop, target_path_lem target, a)
]
