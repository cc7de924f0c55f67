-- ===== src/Service/Order.antt =====
-- The payloads that the server sends to a session, when the posts to its strand run in the order in
-- which they were made, as those to a strand of Asio do.
pub mod Flow
pub mod Runs
pub mod Silent
use websockets.Prelude.{
  Whenever, ℕ, zero, suc, ◌≡◌, ◌≢◌, ◌⊎◌, inl, inr, refl, sym, ap, ◌∙◌, Bool, true, false, Option,
  none, some, List, [], ◌∷◌, ◌++◌, ◌==◌, ==_iff, ==_refl, if◌then◌else◌, if_elim, length, drop,
  append-nil, append_assoc,
}
use websockets.Payload.{Payload}
use websockets.Server.Lifecycle.{pick}
use websockets.Service.{World, Event, Post, sends, closes, delivers, step, Enabled, IsNew, Reach}

-- What a post sends to session `k`.
abbrev pub sent_by : ℕ → ℕ × Post → List Payload
sent_by k (j, sends payload) = if j == k then payload ∷ [] else []
sent_by k (j, closes) = []

abbrev pub sent_to : ℕ → List (ℕ × Post) → List Payload
sent_to k [] = []
sent_to k (post ∷ posts) = sent_by k post ++ sent_to k posts

-- The posts that an event has made.
abbrev pub fresh_posts : Event → World → World → List (ℕ × Post)
fresh_posts (delivers n) w v = []
fresh_posts e w v = drop (length w.inbox) v.inbox

-- The post is for session `k`, and none before it is.
abbrev pub Oldest : ℕ → ℕ → List (ℕ × Post) → Type 0
Oldest k n [] = ⊥
Oldest k zero ((j, p) ∷ posts) = j ≡ k
Oldest k (suc n) ((j, p) ∷ posts) = (j ≢ k) × Oldest k n posts

-- Of the posts for a session the oldest runs first.
abbrev pub InOrder : World → Event → Type 0
InOrder w (delivers n) = (k : ℕ) × Oldest k n w.inbox
InOrder w _ = Unit

-- A run in that order, with all that was posted.
pub data Ordered : World → List (ℕ × Post) → Type 0 where
  here : {w : World} → IsNew w → Ordered w []
  next :
      {w v : World} {log : List (ℕ × Post)} (e : Event)
      → Ordered w log
      → Enabled w e
      → InOrder w e
      → step w e ≡ some v
      → Ordered v (log ++ fresh_posts e w v)

pub Ordered-Reach : {w : World} {log : List (ℕ × Post)} → Ordered w log → Reach w
Ordered-Reach (here n) = Reach.here n
Ordered-Reach (next e r enabled in_order stepped) = Reach.next e (Ordered-Reach r) enabled stepped

pub sent_to-append :
    (k : ℕ) (xs ys : List (ℕ × Post)) → sent_to k (xs ++ ys) ≡ sent_to k xs ++ sent_to k ys
sent_to-append k [] ys = refl
sent_to-append k (x ∷ xs) ys =
    ap (◌++◌ (sent_by k x)) (sent_to-append k xs ys)
    ∙ sym (append_assoc (sent_by k x) (sent_to k xs) (sent_to k ys))

-- Posts for different sessions do not send to the same one.
sent_by_one : (k : ℕ) (x y : ℕ × Post) → x.0 ≢ y.0 → (sent_by k x ≡ []) ⊎ (sent_by k y ≡ [])
sent_by_one k (i, closes) y apart = inl refl
sent_by_one k (i, sends q) (j, closes) apart = inr refl
sent_by_one k (i, sends q) (j, sends r) apart =
    if_elim (λ (l : List Payload). (l ≡ []) ⊎ ((if j == k then r ∷ [] else []) ≡ [])) (i == k)
      (λ here_. inr (
        if_elim (λ (l : List Payload). l ≡ []) (j == k)
          (λ there. absurd (apart ((==_iff i k).0 here_ ∙ sym ((==_iff j k).0 there))))
          (λ _. refl)))
      (λ _. inl refl)

commute :
    (k : ℕ) (x y : ℕ × Post) (l : List Payload)
    → x.0 ≢ y.0
    → sent_by k x ++ (sent_by k y ++ l) ≡ sent_by k y ++ (sent_by k x ++ l)
commute k x y l apart = elim (sent_by_one k x y apart) [
  | inl nothing ↦ rw nothing refl
  | inr nothing ↦ rw nothing refl
]

-- What is picked was the next that is sent to its session; the others lose nothing.
abbrev pub Taken : ℕ → List (ℕ × Post) → ((ℕ × Post) × List (ℕ × Post)) → Type 0
Taken k inbox (post, rest) =
    (post.0 ≡ k) × ((j : ℕ) → sent_to j inbox ≡ sent_by j post ++ sent_to j rest)

pub Taken-pick :
    (k n : ℕ) (inbox : List (ℕ × Post)) → Oldest k n inbox → Whenever (Taken k inbox) (pick n inbox)
Taken-pick k n [] oldest = tt
Taken-pick k zero (x ∷ inbox) oldest = (oldest, λ j. refl)
Taken-pick k (suc n) (x ∷ inbox) (apart, oldest) =
    later (pick n inbox) (Taken-pick k n inbox oldest)
  where
    later :
        (o : Option ((ℕ × Post) × List (ℕ × Post)))
        → Whenever (Taken k inbox) o
        → Whenever (Taken k (x ∷ inbox)) (elim o [ none ↦ none | some (q, qs) ↦ some (q, x ∷ qs) ])
    later none t = tt
    later (some (q, qs)) (its, same) = (
      its,
      λ j. ap (◌++◌ (sent_by j x)) (same j) ∙ commute j x q (sent_to j qs) (λ e. apart (e ∙ its)),
    )
