-- ===== src/Client/Impl/Sessions.antt =====
-- The client keeps hold of its newest session only, and leaks none of the others.
use websockets.Prelude.{
  ℕ, ◌≡◌, ◌<◌, refl, Bool, true, false, none, List, [], ◌∷◌, ◌++◌, ◌==◌, arith, ◌||◌,
}
use websockets.Text.{Text}
use websockets.Client.Impl.{
  Client, ClientSettings, Effect, close_session, new_client, shut_down, do_connect, async_connect,
  on_attempt, is_current, close,
}

-- The client with the effects so far and the attempts that failed.
pub record History : Type 0 where
  pub client : Client
  pub effects : List Effect
  pub failures : List ℕ

pub data Event : Type 0 where
  connects : Text → ℕ → Text → Event
  completes : ℕ → Bool → Event
  closes shuts_down : Event

abbrev pub act : History → Client × List Effect → History
act h (c, effects) = record h { client = c; effects = h.effects ++ effects }

abbrev failed : ℕ → Bool → List ℕ
failed id true = []
failed id false = id ∷ []

pub step : History → Event → History
unfolding async_connect on_attempt close shut_down
step h (connects host port resource) = act h (async_connect h.client host port resource)
step h (completes id ok) = record (act h (on_attempt h.client id ok)) {
  failures = h.failures ++ failed id ok;
}
step h closes = act h (h.client, close h.client)
step h shuts_down = act h (shut_down h.client)

pub run : History → List Event → History
unfolding step
run h [] = h
run h (e ∷ es) = run (step h e) es

new_history : ClientSettings → History
unfolding new_client
new_history settings = record { client = new_client settings; effects = []; failures = [] }

-- The session was asked to close.
abbrev pub was_closed : ℕ → List Effect → Bool
was_closed id [] = false
was_closed id (close_session j ∷ rest) = j == id || was_closed id rest
was_closed id (_ ∷ rest) = was_closed id rest

abbrev pub has_failed : ℕ → List ℕ → Bool
has_failed id [] = false
has_failed id (j ∷ rest) = j == id || has_failed id rest

was_closed-append :
    (id : ℕ) (xs ys : List Effect) → was_closed id (xs ++ ys) ≡ was_closed id xs || was_closed id ys
was_closed-append id [] ys = refl
was_closed-append id (close_session j ∷ xs) ys = ground (arith, was_closed-append id xs ys)
was_closed-append id (x ∷ xs) ys = was_closed-append id xs ys

has_failed-append :
    (id : ℕ) (xs ys : List ℕ) → has_failed id (xs ++ ys) ≡ has_failed id xs || has_failed id ys
has_failed-append id [] ys = refl
has_failed-append id (j ∷ xs) ys = ground (arith, has_failed-append id xs ys)

-- Every session made so far is the current one, or was closed, or failed to connect.
record Inv (h : History) : Type 0 where
  kept :
      (id : ℕ)
      → id < h.client.next_session
      → (is_current h.client.session id || (was_closed id h.effects || has_failed id h.failures))
        ≡ true
  ended : h.client.shutdown ≡ true → h.client.session ≡ none

ruleset histories = (arith, was_closed-append, has_failed-append)

module _ (h : History) (v : Inv h) where
  connects-kept :
      (host : Text) (port : ℕ) (resource : Text) (id : ℕ)
      → let c = (step h (connects host port resource)) in
        id < c.client.next_session
        → (is_current c.client.session id || (was_closed id c.effects || has_failed id c.failures))
          ≡ true
  unfolding step do_connect
  connects-kept host port resource id l = grind (histories, v.kept id)

  completes-kept :
      (j : ℕ) (ok : Bool) (id : ℕ)
      → let c = (step h (completes j ok)) in
        id < c.client.next_session
        → (is_current c.client.session id || (was_closed id c.effects || has_failed id c.failures))
          ≡ true
  unfolding step
  completes-kept j true id l = grind (histories, v.kept id)
  completes-kept j false id l = grind (histories, v.kept id)

  closes-kept :
      (id : ℕ)
      → id < h.client.next_session
      → (is_current h.client.session id
          || (was_closed id (step h closes).effects || has_failed id h.failures))
        ≡ true
  unfolding step
  closes-kept id l = grind (histories, v.kept id)

  shuts_down-kept :
      (id : ℕ)
      → let c = (step h shuts_down) in
        id < c.client.next_session
        → (is_current c.client.session id || (was_closed id c.effects || has_failed id c.failures))
          ≡ true
  unfolding step
  shuts_down-kept id l = grind (histories, v.kept id)

step-Inv : (h : History) (e : Event) → Inv h → Inv (step h e)
unfolding step do_connect
step-Inv h (connects host port resource) v = record {
  kept = connects-kept h v host port resource;
  ended = ground arith;
}
step-Inv h (completes id true) v = record { kept = completes-kept h v id true; ended = v.ended }
step-Inv h (completes id false) v = record {
  kept = completes-kept h v id false;
  ended = ground arith;
}
step-Inv h closes v = record { kept = closes-kept h v; ended = v.ended }
step-Inv h shuts_down v = record { kept = shuts_down-kept h v; ended = ground arith }

run-Inv : (h : History) (es : List Event) → Inv h → Inv (run h es)
unfolding run
run-Inv h [] v = v
run-Inv h (e ∷ es) v = run-Inv (step h e) es (step-Inv h e v)

-- After any operations of a new client, every session that it has made is its current one, or was
-- asked to close, or failed to connect.
run-kept :
    (settings : ClientSettings) (es : List Event) (id : ℕ)
    → id < (run (new_history settings) es).client.next_session
    → let h = run (new_history settings) es in
      (is_current h.client.session id || (was_closed id h.effects || has_failed id h.failures))
      ≡ true
unfolding new_history new_client
run-kept settings es id l =
    (run-Inv (new_history settings) es
        (record { kept = λ i k. elim k [ ]; ended = λ e. refl })).kept
      id l
