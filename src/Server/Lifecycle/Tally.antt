-- ===== src/Server/Lifecycle/Tally.antt =====
-- Counting the callbacks of one client in a list of calls, in the map and among the due notifications.
use websockets.Prelude.{
  ℕ, zero, suc, ◌+◌, ◌≡◌, ◌≢◌, refl, Bool, none, some, List, [], ◌∷◌, ◌++◌, ◌==◌, if◌then◌else◌,
  arith, Option-cases, inl, inr,
}
use websockets.Text.{Text}
use websockets.Assoc.{Assoc, lookup, insert, erase, nat_key}
use websockets.Assoc.Laws.{IsFresh}
use websockets.Server.{Handler, ClientEntry, Call, added, closed, connection_change}
use websockets.Server.Clients.{post_if, invoke_if}
use websockets.Server.Lifecycle.{calls_of, uris_of, pick}

module _ (id : ℕ) where
  -- How often the client's added callback is among the calls, and its closed callback.
  abbrev pub num_added : List Call → ℕ
  num_added [] = 0
  num_added (added h i append ssl ∷ t) = (if i == id then 1 else 0) + num_added t
  num_added (_ ∷ t) = num_added t

  abbrev pub num_closed : List Call → ℕ
  num_closed [] = 0
  num_closed (closed h i ∷ t) = (if i == id then 1 else 0) + num_closed t
  num_closed (_ ∷ t) = num_closed t

  -- How often the client stands in the map, and among the due notifications.
  abbrev pub num_connected : Assoc ℕ ClientEntry → ℕ
  num_connected [] = 0
  num_connected ((i, e) ∷ m) = (if i == id then 1 else 0) + num_connected m

  abbrev pub num_due : List (ℕ × Text) → ℕ
  num_due [] = 0
  num_due ((i, uri) ∷ ps) = (if i == id then 1 else 0) + num_due ps

  pub num_added-append : (s t : List Call) → num_added (s ++ t) ≡ num_added s + num_added t
  num_added-append [] t = omega arith
  num_added-append (added h i a b ∷ s) t = omega (arith, num_added-append s t)
  num_added-append (c ∷ s) t = num_added-append s t

  pub num_closed-append : (s t : List Call) → num_closed (s ++ t) ≡ num_closed s + num_closed t
  num_closed-append [] t = omega arith
  num_closed-append (closed h i ∷ s) t = omega (arith, num_closed-append s t)
  num_closed-append (c ∷ s) t = num_closed-append s t

  pub num_due-append : (s t : List (ℕ × Text)) → num_due (s ++ t) ≡ num_due s + num_due t
  num_due-append [] t = omega arith
  num_due-append ((i, uri) ∷ s) t = omega (arith, num_due-append s t)

  pub num_due-uris_of : (m : Assoc ℕ ClientEntry) → num_due (uris_of m) ≡ num_connected m
  num_due-uris_of [] = refl
  num_due-uris_of ((i, e) ∷ m) = omega (arith, num_due-uris_of m)

  pub num_due-pick :
      (n i : ℕ) (uri : Text) (ps rest : List (ℕ × Text))
      → pick n ps ≡ some ((i, uri), rest)
      → num_due ps ≡ num_due rest + (if i == id then 1 else 0)
  num_due-pick n i uri [] rest e = cc
  num_due-pick zero i uri (p ∷ ps) rest e = ground arith
  num_due-pick (suc n) i uri (p ∷ ps) rest e = elim (Option-cases (pick n ps)) [
    | inl missed ↦ cc (rw missed at e)
    | inr ((q, qs), found) ↦ ground (arith, num_due-pick n i uri ps qs)
  ]

  pub num_connected-insert :
      (i : ℕ) (entry : ClientEntry) (m : Assoc ℕ ClientEntry)
      → IsFresh i m
      → num_connected (insert i entry m) ≡ num_connected m + (if i == id then 1 else 0)
  unfolding insert
  num_connected-insert i entry [] h = omega arith
  num_connected-insert i entry ((j, e) ∷ m) h = ground (arith, num_connected-insert i entry m h.1)

  pub num_connected-erase :
      (i : ℕ) (entry : ClientEntry) (m : Assoc ℕ ClientEntry)
      → lookup i m ≡ some entry
      → num_connected m ≡ num_connected (erase i m) + (if i == id then 1 else 0)
  unfolding lookup erase
  num_connected-erase i entry [] h = cc
  num_connected-erase i entry ((j, e) ∷ m) h = ground (arith, num_connected-erase i entry m)

  -- What the effects of a registration and of a closed connection add to the tallies.
  pub added_posted :
      (a c : Handler) (i n : ℕ) (append : Text) (ssl : Bool)
      → a ≢ none
      → let calls =
          calls_of
            (post_if a (λ h. added h i append ssl) ++ post_if c (λ h. connection_change h n)) in
        (num_added calls ≡ (if i == id then 1 else 0)) × (num_closed calls ≡ 0)
  added_posted none c i n append ssl s = absurd (s refl)
  added_posted (some x) none i n append ssl s = (omega arith, refl)
  added_posted (some x) (some y) i n append ssl s = (omega arith, refl)

  pub closed_posted :
      (a c : Handler) (i n : ℕ)
      → a ≢ none
      → let calls =
          calls_of (post_if a (λ h. closed h i) ++ post_if c (λ h. connection_change h n)) in
        (num_added calls ≡ 0) × (num_closed calls ≡ (if i == id then 1 else 0))
  closed_posted none c i n s = absurd (s refl)
  closed_posted (some x) none i n s = (refl, omega arith)
  closed_posted (some x) (some y) i n s = (refl, omega arith)

  pub closed_invoked :
      (a c : Handler) (i n : ℕ)
      → a ≢ none
      → let calls =
          calls_of (invoke_if a (λ h. closed h i) ++ invoke_if c (λ h. connection_change h n)) in
        (num_added calls ≡ 0) × (num_closed calls ≡ (if i == id then 1 else 0))
  closed_invoked none c i n s = absurd (s refl)
  closed_invoked (some x) none i n s = (refl, omega arith)
  closed_invoked (some x) (some y) i n s = (refl, omega arith)
