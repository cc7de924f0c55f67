-- ===== src/Session/Strand/Face.antt =====
-- What the server sees of a session: whether it is open, its id, whether it is asked to close, and
-- what it newly reports.
pub mod Fires
use websockets.Prelude.{
  ℕ, Option-cases, if_elim, ◌≡◌, refl, sym, ap, subst, Bool, true, false, ◌||◌, Option, none, some,
  List, [], ◌∷◌, ◌++◌, length, drop, drop-append, arith, Bool-cases, ◌⊎◌, inl, inr, if◌then◌else◌,
}
use websockets.Text.{Text}
use websockets.Payload.{Payload}
use websockets.Session.{
  Session, ErrorCode, success, fails, Action, async_accept, async_read, async_close, cancel,
  async_write, on_message, on_content, on_closed, log_backlog_full, log_accept, log_connection,
  Outcome, on_send, on_close, on_accept, on_read, on_write, handle_closed, accept_log,
  operation_aborted, is_expected, after_write,
}
use websockets.Session.Strand.{
  Strand, Event, accept_done, send, close, read_done, write_done, close_done, start_action,
  start_actions, perform, fire, accepts,
}

pub record Face : Type 0 where
  pub is_open : Bool
  pub client_id : ℕ
  pub close_requested : Bool

abbrev pub face_of : Session → Face
face_of s = record {
  is_open = s.is_open;
  client_id = s.client_id;
  close_requested = s.close_requested;
}

-- What a session has added to its trace.
abbrev pub news : Strand → Strand → List Action
news t u = drop (length t.trace) u.trace

-- The ends that a session reports.
abbrev pub ends : List Action → List ℕ
ends [] = []
ends (on_closed id ∷ rest) = id ∷ ends rest
ends (_ ∷ rest) = ends rest

-- The result has the new state of the session and the reports of the handler.
abbrev pub Shows : (Face → List ℕ → Type 0) → Strand → Option Strand → Type 0
Shows P t none = Unit
Shows P t (some u) = P (face_of u.session) (ends (news t u))

abbrev ShowsOutcome : (Face → List ℕ → Type 0) → Outcome → Type 0
ShowsOutcome P none = Unit
ShowsOutcome P (some (s, actions)) = P (face_of s) (ends actions)

start_action_keeps :
    (u : Strand) (a : Action) {u' : Strand}
    → start_action u a ≡ some u'
    → (u'.session ≡ u.session) × (u'.trace ≡ u.trace)
unfolding start_action
start_action_keeps u async_read e = ground arith
start_action_keeps u (async_write p) e = ground arith
start_action_keeps u async_close e = ground arith
start_action_keeps u async_accept e = ground arith
start_action_keeps u cancel e = ground arith
start_action_keeps u (on_message id m) e = ground arith
start_action_keeps u (on_content id m) e = ground arith
start_action_keeps u (on_closed id) e = ground arith
start_action_keeps u log_backlog_full e = ground arith
start_action_keeps u log_accept e = ground arith
start_action_keeps u log_connection e = ground arith

started-Shows :
    (P : Face → List ℕ → Type 0) (t u : Strand) (rest : List Action)
    → P (face_of u.session) (ends (news t u))
    → Shows P t (start_actions u rest)
unfolding start_actions
started-Shows P t u [] p = p
started-Shows P t u (a ∷ rest) p = elim (Option-cases (start_action u a)) [
  | inl e ↦ rw (e, start_actions) tt
  | inr (u', e) ↦
      let (same_session, same_trace) = start_action_keeps u a e in
      rw (e, start_actions) (started-Shows P t u' rest (rw (same_session, same_trace) p))
]

-- A handler of the session, performed by the strand.
pub performed-Shows :
    (P : Face → List ℕ → Type 0) (t u : Strand) (o : Outcome)
    → u.trace ≡ t.trace
    → ShowsOutcome P o
    → Shows P t (perform u o)
unfolding perform
performed-Shows P t u none e p = tt
performed-Shows P t u (some (s, actions)) e p =
    started-Shows P t (record u { session = s; trace = u.trace ++ actions }) actions
      (subst (λ (l : List Action). P (face_of s) (ends (drop (length t.trace) (l ++ actions))))
        (sym e) (rw (drop-append t.trace actions) p))

-- Nothing changes, or the client has ended and this is reported.
abbrev pub Ends : Face → Face → List ℕ → Type 0
Ends f g reported =
    ((g ≡ f) × (reported ≡ []))
    ⊎ ((f.is_open ≡ true) × (g ≡ record f { is_open = false }) × (reported ≡ f.client_id ∷ []))

handle_closed-Ends :
    (s : Session) (ec : ErrorCode) → ShowsOutcome (Ends (face_of s)) (handle_closed s ec)
unfolding handle_closed
handle_closed-Ends s ec = elim (Bool-cases s.is_open) [
  | inr shut ↦ rw shut (inl (refl, refl))
  | inl open_ ↦ rw open_ (
      if_elim (ShowsOutcome (Ends (record (face_of s) { is_open = true })))
        (is_expected ec || s.close_requested) (λ _. inr (refl, refl, refl))
        (λ _. inr (refl, refl, refl)))
]

-- A handler that reports no end and keeps the face.
abbrev pub Same : Face → Face → List ℕ → Type 0
Same f g reported = (g ≡ f) × (reported ≡ [])

after_write-Same : (s : Session) → ShowsOutcome (Same (face_of s)) (after_write s)
unfolding after_write
after_write-Same s = ground arith

Same-Ends : (f : Face) (o : Outcome) → ShowsOutcome (Same f) o → ShowsOutcome (Ends f) o
Same-Ends f none h = tt
Same-Ends f (some (s, actions)) h = inl h

pub on_read-Ends :
    (s : Session) (ec : ErrorCode) (b : Bool) (m : Text)
    → ShowsOutcome (Ends (face_of s)) (on_read s ec b m)
unfolding on_read
on_read-Ends s ec b m =
    if_elim (ShowsOutcome (Ends (face_of s))) (fails ec) (λ _. handle_closed-Ends s ec)
      (λ _. inl (refl, if_elim (λ a. ends (a ∷ async_read ∷ []) ≡ []) b (λ _. refl) (λ _. refl)))

pub on_write-Ends : (s : Session) (ec : ErrorCode) → ShowsOutcome (Ends (face_of s)) (on_write s ec)
unfolding on_write
on_write-Ends s ec =
    if_elim (ShowsOutcome (Ends (face_of s))) (fails ec) (λ _. handle_closed-Ends s ec)
      (λ _. written s.write_queue)
  where
    written :
        (queue : List Payload)
        → ShowsOutcome (Ends (face_of s)) (elim queue as (λ _. Outcome) [
          | [] ↦ none
          | payload ∷ rest ↦ after_write (record s { write_queue = rest })
        ])
    written [] = tt
    written (payload ∷ rest) =
        Same-Ends (face_of s) _ (after_write-Same (record s { write_queue = rest }))

pub on_send-Same : (s : Session) (p : Payload) → ShowsOutcome (Same (face_of s)) (on_send s p)
unfolding on_send
on_send-Same s p = ground arith

-- Asked to close, a session keeps its face otherwise.
pub on_close-Same :
    (s : Session) → ShowsOutcome (Same (record (face_of s) { close_requested = true })) (on_close s)
unfolding on_close
on_close-Same s = ground arith

-- An accept that succeeds opens the session under its id, which is 0 if it was rejected.
abbrev pub Opens : Face → ℕ → Face → List ℕ → Type 0
Opens f id g reported =
    (reported ≡ [])
    × (g.is_open ≡ true)
    × (g.client_id ≡ id)
    × (f.close_requested ≡ true → g.close_requested ≡ true)
    × (id ≡ 0 → g.close_requested ≡ true)

pub on_accept-Opens :
    (s : Session) (id : ℕ) → ShowsOutcome (Opens (face_of s) id) (on_accept s success (some id))
unfolding on_accept
on_accept-Opens s id = ground arith

ends-accept_log : (ec : ErrorCode) → ends (accept_log ec) ≡ []
ends-accept_log operation_aborted = refl
ends-accept_log ec = ground arith

pub on_accept-Same :
    (s : Session) (ec : ErrorCode) (id : ℕ)
    → fails ec ≡ true
    → ShowsOutcome (Same (face_of s)) (on_accept s ec (some id))
unfolding on_accept
on_accept-Same s ec id e = rw e (refl, ends-accept_log ec)

pub drop-length : (xs : List Action) → drop (length xs) xs ≡ []
drop-length [] = refl
drop-length (x ∷ xs) = drop-length xs

-- The events that Beast causes after the accept.
abbrev pub is_internal : Event → Bool
is_internal (read_done ec b m) = true
is_internal (write_done ec) = true
is_internal close_done = true
is_internal _ = false
