-- ===== src/Examples/EchoServer/Posted.antt =====
-- What the echo server posts to its work queue for what it has read.
use websockets.Prelude.{
  append-nil, ℕ, ◌≡◌, refl, sym, subst, Bool, true, false, Option, none, some, List, [], ◌∷◌, ◌++◌,
  if◌then◌else◌, if_elim, inl, inr, Option-cases, arith, ◌⊎◌, is_empty,
}
use websockets.Text.{Text}
use websockets.Assoc.{Assoc, lookup, nat_key, text_key, insert}
use websockets.Assoc.Laws.{lookup-insert}
use websockets.Payload.{Payload, text, content}
use websockets.Server.{Server, Call, Effect, Handler, UriCallbacks}
use websockets.Server.Routing.{uri_handler}
use websockets.Server.Lifecycle.{calls_of}
use websockets.Server.Receive.{
  on_ws_message, on_ws_content, lookup_receive_callbacks, uri_receiver, post_both,
}
use websockets.Session.{
  ErrorCode, fails, on_read, handle_closed, on_message, on_content, async_read,
}
use websockets.Session.Strand.{Strand, read_done}
use websockets.Session.Strand.Reads.{heard}
use websockets.Examples.EchoServer.{api_callbacks, sends_back}
use websockets.Examples.EchoServer.Runs.{told, reports}

-- No uri has a callback for what is received.
pub record Plain (uris : Assoc Text UriCallbacks) : Type 0 where
  pub messages : (uri : Text) → uri_handler (λ c. c.on_client_message_received) uris uri ≡ none
  pub contents : (uri : Text) → uri_handler (λ c. c.on_client_content_received) uris uri ≡ none

abbrev Unset : (UriCallbacks → Handler) → Option UriCallbacks → Type 0
Unset field found = elim found as (λ _. Handler) [ none ↦ none | some own ↦ field own ] ≡ none

-- A handler that none of the callbacks for uris has stays unset.
without :
    (field : UriCallbacks → Handler) (uris : Assoc Text UriCallbacks) (uri other : Text)
    (cbs : UriCallbacks)
    → field cbs ≡ none
    → uri_handler field uris other ≡ none
    → uri_handler field (insert uri cbs uris) other ≡ none
unfolding uri_handler
without field uris uri other cbs empty before =
    subst (Unset field) (sym (lookup-insert uri other cbs uris))
      (if_elim (Unset field) (text_key.same uri other) (λ _. empty) (λ _. before))

pub Plain-insert :
    (uris : Assoc Text UriCallbacks) (uri : Text)
    → Plain uris
    → Plain (insert uri api_callbacks uris)
Plain-insert uris uri p = record {
  messages = λ other.
      without (λ c. c.on_client_message_received) uris uri other api_callbacks refl
        (p.messages other);
  contents = λ other.
      without (λ c. c.on_client_content_received) uris uri other api_callbacks refl
        (p.contents other);
}

-- At most one call, which sends back what was read.
abbrev pub SendsBack : ℕ → Payload → List Call → Type 0
SendsBack id p calls =
    (calls ≡ []) ⊎ ((c : Call) × (calls ≡ c ∷ []) × (sends_back c ≡ some (id, p)))

module _ (s : Server) (plain : Plain s.uris) (id : ℕ) (m : Text) where
  pub receiver_unset :
      (field : UriCallbacks → Handler)
      → ((uri : Text) → uri_handler field s.uris uri ≡ none)
      → uri_receiver field s id ≡ none
  unfolding uri_receiver
  receiver_unset field unset = elim (Option-cases (lookup id s.clients)) [
    | inl e ↦ rw (e, uri_receiver) refl
    | inr (entry, e) ↦
        rw (e, uri_receiver)
          (if_elim (λ (h : Handler). h ≡ none) (is_empty entry.uri) (λ _. refl)
            (λ _. unset entry.uri))
  ]

  post_one :
      (h u : Handler) (call : ℕ → Call) (p : Payload)
      → u ≡ none
      → ((g : ℕ) → sends_back (call g) ≡ some (id, p))
      → SendsBack id p (calls_of (post_both (h, u) call))
  post_one none none call p unset back = inl refl
  post_one (some g) none call p unset back = inr (call g, refl, back g)
  post_one h (some g) call p unset back = cc

  message_posted : SendsBack id (text m) (calls_of (on_ws_message s id m))
  unfolding on_ws_message lookup_receive_callbacks sends_back
  message_posted =
      post_one _ _ _ (text m) (receiver_unset (λ c. c.on_client_message_received) plain.messages)
        (λ g. refl)

  content_posted : SendsBack id (content m) (calls_of (on_ws_content s id m))
  unfolding on_ws_content lookup_receive_callbacks sends_back
  content_posted =
      post_one _ _ _ (content m) (receiver_unset (λ c. c.on_client_content_received) plain.contents)
        (λ g. refl)

-- What a read posts: nothing, or the call that sends back what was read, to the session's own id.
abbrev pub Answers : Strand → ErrorCode → List Payload → List Call → Type 0
Answers t ec got calls =
    (calls ≡ [])
    ⊎ ((c : Call) × (p : Payload) × (calls ≡ c ∷ [])
        × (sends_back c ≡ some (t.session.client_id, p))
        × (got ≡ p ∷ [])
        × (fails ec ≡ false))

closed_silent :
    (s : Server) (t : Strand) (ec : ErrorCode)
    → calls_of (told s (reports (handle_closed t.session ec))) ≡ []
unfolding handle_closed
closed_silent s t ec = ground arith

answers :
    (s : Server) (t : Strand) (ec : ErrorCode) (p : Payload) (effects : List Effect)
    → fails ec ≡ false
    → SendsBack t.session.client_id p (calls_of effects)
    → Answers t ec (p ∷ []) (calls_of (effects ++ []))
answers s t ec p effects good back =
    subst (λ l. Answers t ec (p ∷ []) (calls_of l)) (sym (append-nil effects))
      (elim back [ inl e ↦ inl e | inr (c, e, sent) ↦ inr (c, p, e, sent, refl, good) ])

pub read-Answers :
    (s : Server) (t : Strand) (ec : ErrorCode) (b : Bool) (m : Text)
    → Plain s.uris
    → Answers t ec
        (heard (read_done ec b m))
        (calls_of (told s (reports (on_read t.session ec b m))))
unfolding on_read
read-Answers s t ec b m plain = ended (fails ec) refl
  where
    reported :
        (b : Bool)
        → fails ec ≡ false
        → Answers t ec ((if b then text m else content m) ∷ []) (
            calls_of (
              told s (
                (if b then on_message t.session.client_id m else on_content t.session.client_id m)
                ∷ async_read
                ∷ [])))
    reported true good =
        answers s t ec (text m) (on_ws_message s t.session.client_id m) good
          (message_posted s plain t.session.client_id m)
    reported false good =
        answers s t ec (content m) (on_ws_content s t.session.client_id m) good
          (content_posted s plain t.session.client_id m)

    ended :
        (bad : Bool)
        → fails ec ≡ bad
        → Answers t ec (if bad then [] else (if b then text m else content m) ∷ []) (
            calls_of (
              told s (
                reports (
                  if bad
                  then handle_closed t.session ec
                  else some (
                    t.session,
                    (if b
                          then on_message t.session.client_id m
                          else on_content t.session.client_id m)
                        ∷ async_read
                        ∷ [],
                  )))))
    ended true bad = inl (closed_silent s t ec)
    ended false good = reported b good
