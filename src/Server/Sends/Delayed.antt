-- ===== src/Server/Sends/Delayed.antt =====
-- The delayed sends: the payload is built when it is needed, and then what is sent is the same.
use websockets.Prelude.{
  ℕ, suc, ◌≡◌, ◌≢◌, ◌↔◌, inl, inr, refl, sym, ap, ◌∙◌, true, false, not, Option, none, some, List,
  [], ◌∷◌, ltb, is_empty, length, arith, Bool-cases,
}
use websockets.Text.{Text}
use websockets.Assoc.{Assoc, lookup, nat_key, text_key}
use websockets.Payload.{Payload}
use websockets.Server.{Server, ClientEntry}
use websockets.Server.Clients.{count_or_zero}
use websockets.Server.Clients.Counts.{num_at}
use websockets.Server.Clients.Invariant.{WellFormed}
use websockets.Server.Sends.{sessions_for, send_all, broadcast, any_clients, send_delayed, positive}

-- A uri that a client can have: any but "".
abbrev pub IsTarget : Option Text → Type 0
IsTarget none = Unit
IsTarget (some uri) = uri ≢ []

length-sessions_for :
    (uri : Text) (m : Assoc ℕ ClientEntry) → length (sessions_for (some uri) m) ≡ num_at uri m
unfolding sessions_for
length-sessions_for uri [] = refl
length-sessions_for uri ((i, x) ∷ m) = ground (arith, length-sessions_for uri m)

length-sessions_for_all : (m : Assoc ℕ ClientEntry) → length (sessions_for none m) ≡ length m
unfolding sessions_for
length-sessions_for_all [] = refl
length-sessions_for_all ((i, x) ∷ m) = ap suc (length-sessions_for_all m)

length-send_all : (payload : Payload) (l : List ℕ) → length (send_all payload l) ≡ length l
length-send_all payload [] = refl
length-send_all payload (x ∷ l) = ap suc (length-send_all payload l)

not-is_empty : {A : Type 0} (l : List A) → not (is_empty l) ≡ ltb 0 (length l)
not-is_empty [] = refl
not-is_empty (x ∷ l) = ground arith

positive-count : (o : Option ℕ) → positive o ≡ ltb 0 (count_or_zero o)
positive-count none = refl
positive-count (some n) = refl

any_clients-length :
    (s : Server) (uri : Option Text) (payload : Payload)
    → WellFormed s
    → IsTarget uri
    → any_clients s uri ≡ ltb 0 (length (broadcast s uri payload))
unfolding any_clients broadcast
any_clients-length s none payload v t =
    not-is_empty s.clients
    ∙ ap (ltb 0) (
        sym (
          length-send_all payload (sessions_for none s.clients)
          ∙ length-sessions_for_all s.clients))
any_clients-length s (some uri) payload v t =
    positive-count (lookup uri s.uri_counts)
    ∙ ap (ltb 0) (
        v.counted uri t
        ∙ sym (
            length-send_all payload (sessions_for (some uri) s.clients)
            ∙ length-sessions_for uri s.clients))

length_iff : {A : Type 0} (l : List A) → (ltb 0 (length l) ≡ true) ↔ (l ≢ [])
length_iff [] = (λ e. cc, λ n. absurd (n refl))
length_iff (x ∷ l) = (λ e n. cc, λ n. ground arith)

-- `AnyClients` holds exactly when a broadcast sends something.
pub any_clients_iff :
    (s : Server) (uri : Option Text) (payload : Payload)
    → WellFormed s
    → IsTarget uri
    → (any_clients s uri ≡ true) ↔ (broadcast s uri payload ≢ [])
any_clients_iff s uri payload v t =
    let e = any_clients-length s uri payload v t in
    let (to, from) = length_iff (broadcast s uri payload) in (λ h. to (sym e ∙ h), λ h. e ∙ from h)

-- A delayed send to all clients, or to those of a uri other than "", sends what the immediate one
-- sends, if no other thread comes between its test and its broadcast.
send_delayed_lem :
    (s : Server) (uri : Option Text) (make : Text → Payload) (fill : Text → Text)
    → WellFormed s
    → IsTarget uri
    → (send_delayed s s uri make (some fill)).1 ≡ broadcast s uri (make (fill []))
unfolding send_delayed
send_delayed_lem s uri make fill v t = elim (Bool-cases (any_clients s uri)) [
  | inl e ↦ rw e
  | inr e ↦ rw e (
      sym (
        empty_of_length (broadcast s uri (make (fill [])))
          (sym (any_clients-length s uri (make (fill [])) v t) ∙ e)))
]
  where
    empty_of_length : {A : Type 0} (l : List A) → ltb 0 (length l) ≡ false → l ≡ []
    empty_of_length [] h = refl
    empty_of_length (x ∷ l) h = absurd (ground arith)

-- The payload is built exactly when the test finds a client.
send_delayed_builds :
    (checked current : Server) (uri : Option Text) (make : Text → Payload) (fill : Text → Text)
    (payload : Payload)
    → WellFormed checked
    → IsTarget uri
    → ((send_delayed checked current uri make (some fill)).0 ≡ true)
      ↔ (broadcast checked uri payload ≢ [])
unfolding send_delayed
send_delayed_builds checked current uri make fill payload v t =
    let (to, from) = any_clients_iff checked uri payload v t in
    (λ h. to (ground arith), λ h. rw (from h))
