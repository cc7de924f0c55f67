-- ===== src/Server/Sends/Reach.antt =====
-- Whom a broadcast reaches.
use websockets.Prelude.{
  ℕ, ◌≡◌, refl, ◌↔◌, ◌⊎◌, inl, inr, ap, subst, ◌∙◌, true, false, Option, none, some, List, [], ◌∷◌,
  arith, Bool-cases, if_elim, ==_refl, ◌==◌, ==_iff,
}
use websockets.Text.{Text}
use websockets.Text.Laws.{text_eq_iff}
use websockets.Assoc.{Assoc, lookup, nat_key, text_key}
use websockets.Assoc.Laws.{IsMap, IsFresh, lookup_fresh}
use websockets.Payload.{Payload}
use websockets.Server.{Server, ClientEntry, Effect, send}
use websockets.Server.Clients.Invariant.{WellFormed}
use websockets.Server.Sends.{selected, sessions_for, send_all, broadcast}

-- An effect stands in a list.
abbrev pub Occurs : Effect → List Effect → Type 0
Occurs x [] = ⊥
Occurs x (y ∷ ys) = (y ≡ x) ⊎ Occurs x ys

-- The clients meant: all of them, or those whose uri is the given one.
abbrev pub IsMeant : Option Text → ClientEntry → Type 0
IsMeant none entry = Unit
IsMeant (some uri) entry = entry.uri ≡ uri

selected_iff :
    (uri : Option Text) (entry : ClientEntry) → (selected uri entry ≡ true) ↔ IsMeant uri entry
selected_iff none entry = (λ _. tt, λ _. refl)
selected_iff (some uri) entry = text_eq_iff entry.uri uri

-- A connected client who is meant, and whose session is the given one.
pub record Selected (s : Server) (uri : Option Text) (session : ℕ) : Type 0 where
  pub id : ℕ
  pub entry : ClientEntry
  pub connected : lookup id s.clients ≡ some entry
  pub chosen : IsMeant uri entry
  pub its_session : entry.session ≡ session

-- The same of a part of the map.
record SelectedIn (m : Assoc ℕ ClientEntry) (uri : Option Text) (session : ℕ) : Type 0 where
  id : ℕ
  entry : ClientEntry
  connected : lookup id m ≡ some entry
  chosen : selected uri entry ≡ true
  its_session : entry.session ≡ session

apart :
    (i j : ℕ) (m : Assoc ℕ ClientEntry) {entry : ClientEntry}
    → IsFresh i m
    → lookup j m ≡ some entry
    → (i == j) ≡ false
apart i j m fresh found = elim (Bool-cases (i == j)) [
  | inl same ↦ cc (lookup_fresh j m (subst (λ k. IsFresh k m) ((==_iff i j).0 same) fresh))
  | inr other ↦ other
]

module _ (uri : Option Text) (payload : Payload) where
  reaches :
      (m : Assoc ℕ ClientEntry) (id : ℕ) (entry : ClientEntry)
      → lookup id m ≡ some entry
      → selected uri entry ≡ true
      → Occurs (send entry.session payload) (send_all payload (sessions_for uri m))
  unfolding lookup sessions_for
  reaches [] id entry e c = cc
  reaches ((i, x) ∷ m) id entry e c = elim (Bool-cases (i == id)) [
    | inl hit ↦
        let same : x ≡ entry = ground arith in
        rw (ap (selected uri) same ∙ c) (inl (ap (λ y. send y.session payload) same))
    | inr miss ↦
        let there = reaches m id entry (ground arith) c in
        if_elim (λ l. Occurs (send entry.session payload) (send_all payload l)) (selected uri x)
          (λ _. inr there) (λ _. there)
  ]

  later_in :
      (i : ℕ) (x : ClientEntry) (m : Assoc ℕ ClientEntry) (session : ℕ)
      → IsFresh i m
      → SelectedIn m uri session
      → SelectedIn ((i, x) ∷ m) uri session
  unfolding lookup
  later_in i x m session fresh v = record {
    id = v.id;
    entry = v.entry;
    connected = rw (apart i v.id m fresh v.connected) v.connected;
    chosen = v.chosen;
    its_session = v.its_session;
  }

  reached :
      (m : Assoc ℕ ClientEntry) (session : ℕ)
      → IsMap m
      → Occurs (send session payload) (send_all payload (sessions_for uri m))
      → SelectedIn m uri session
  unfolding lookup sessions_for
  reached [] session d o = elim o [ ]
  reached ((i, x) ∷ m) session d o =
      if_elim
        (λ l.
          Occurs (send session payload) (send_all payload l) → SelectedIn ((i, x) ∷ m) uri session)
        (selected uri x)
        (λ chosen here. elim here [
          | inl e ↦ record {
            id = i;
            entry = x;
            connected = rw (==_refl i);
            chosen = chosen;
            its_session = cc;
          }
          | inr rest ↦ later_in i x m session d.0 (reached m session d.1 rest)
        ])
        (λ _ rest. later_in i x m session d.0 (reached m session d.1 rest)) o

-- A broadcast sends the payload to a session exactly when a connected client has this
-- session, and no uri is given or it is the client's.
pub broadcast_iff :
    (s : Server) (uri : Option Text) (payload : Payload) (session : ℕ)
    → WellFormed s
    → Occurs (send session payload) (broadcast s uri payload) ↔ Selected s uri session
unfolding broadcast
broadcast_iff s uri payload session v = (
  λ o.
      let r = reached uri payload s.clients session v.distinct o in
      record {
        id = r.id;
        entry = r.entry;
        connected = r.connected;
        chosen = (selected_iff uri r.entry).0 r.chosen;
        its_session = r.its_session;
      },
  λ r.
      subst (λ k. Occurs (send k payload) (broadcast s uri payload)) r.its_session
        (reaches uri payload s.clients r.id r.entry r.connected
          ((selected_iff uri r.entry).1 r.chosen)),
)
