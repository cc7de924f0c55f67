-- ===== src/Service/Lineage.antt =====
-- Which clients a server may have after an event: those of before, and new ones under new ids.
use websockets.Prelude.{
  ◌||◌, not, Whenever, ℕ, ◌+◌, ◌^◌, ◌<◌, ◌≤◌, ◌≡◌, refl, sym, ap, ◌∙◌, Bool, Option, none, some,
  List, [], ◌∷◌, ◌==◌, ==_iff, arith, inl, inr, ◌⊎◌, if_elim, Option-cases, Bool-cases,
}
use websockets.Text.{Text}
use websockets.Assoc.{lookup, nat_key}
use websockets.Assoc.Laws.{IsMap, IsMap-insert, IsMap-erase, lookup-insert, lookup-erase}
use websockets.Target.{target_path}
use websockets.Server.Routing.{longest_uri_match}
use websockets.Server.{Server, ClientEntry, Effect, ClientCallbacks}
use websockets.Server.Clients.{
  register_ws_client, register_locked, on_ws_closed, remove_client, release_client, stop,
  stop_locked, shut_down, start, start_locked, add_uri, remove_uri, take_connection_id, is_some,
}
use websockets.Server.Lifecycle.{pick}
use websockets.Session.Strand.{Strand, fire}
use websockets.Session.Strand.Face.{ends, news}
use websockets.Service.{
  World, Event, Post, handler_of, hear, ran, after_start, step, Enabled, accepted, refused, acts,
  delivers, starts, stops, shuts_down, takes_id, removes, sends_to, broadcasts, adds_uri,
  removes_uri,
}
use websockets.Service.Sound.{Sound}

pub record Descends (s s' : Server) : Type 0 where
  pub from_before :
      (id : ℕ) (e : ClientEntry)
      → lookup id s'.clients ≡ some e
      → (lookup id s.clients ≡ some e) ⊎ (s.next_connection_id ≤ id)
  pub grows : s.next_connection_id ≤ s'.next_connection_id

-- The same clients, and no fewer ids in use.
same_clients :
    (s s' : Server)
    → s'.clients ≡ s.clients
    → s.next_connection_id ≤ s'.next_connection_id
    → Descends s s'
same_clients s s' same grows = record {
  from_before = λ id e found. inl (ap (lookup id) (sym same) ∙ found);
  grows = grows;
}

trans : {s t u : Server} → Descends s t → Descends t u → Descends s u
trans d f = record {
  from_before = λ id e found. elim (f.from_before id e found) [
    | inl older ↦ d.from_before id e older
    | inr new ↦ inr (omega (arith, d.grows))
  ];
  grows = omega (arith, d.grows, f.grows);
}

module _ (s : Server) where
  registered :
      (k : ℕ) (matched : Text) (ssl : Bool)
      → s.next_connection_id + 1 < 2 ^ 32
      → Descends s (register_locked s k matched ssl)
  unfolding register_locked
  registered k matched ssl room = record {
    from_before = λ id e found. elim (Bool-cases (s.next_connection_id == id)) [
      | inl new ↦ inr (omega (arith, (==_iff s.next_connection_id id).0 new))
      | inr old ↦ inl (
          rw old at (
            sym (
              lookup-insert s.next_connection_id id
                (record { session = k; uri = matched; is_ssl = ssl }) s.clients)
            ∙ found))
    ];
    grows = omega arith;
  }

  pub register-Descends :
      (k : ℕ) (target : Text) (ssl : Bool)
      → s.next_connection_id + 1 < 2 ^ 32
      → Descends s (register_ws_client s k target ssl).0
  unfolding register_ws_client
  register-Descends k target ssl room = elim (Bool-cases (s.shutdown || not (is_some s.acceptor))) [
    | inl deaf ↦ rw (deaf, register_ws_client) (same_clients s s refl (omega arith))
    | inr open_ ↦
        rw (open_, register_ws_client)
          (registered k (longest_uri_match s.uris (target_path target)) ssl room)
  ]

  register-IsMap :
      IsMap s.clients
      → (k : ℕ) (target : Text) (ssl : Bool) → IsMap (register_ws_client s k target ssl).0.clients
  unfolding register_ws_client register_locked
  register-IsMap distinct k target ssl =
      elim (Bool-cases (s.shutdown || not (is_some s.acceptor))) [
        | inl deaf ↦ rw (deaf, register_ws_client) distinct
        | inr open_ ↦
            rw (open_, register_ws_client) (IsMap-insert s.next_connection_id _ s.clients distinct)
      ]

  module _ (distinct : IsMap s.clients) where
    erase-Descends : (id : ℕ) (entry : ClientEntry) → Descends s (release_client s id entry)
    unfolding release_client
    erase-Descends id entry = record {
      from_before = λ j e found. inl (
          if_elim (λ (o : Option ClientEntry). o ≡ some e → lookup j s.clients ≡ some e) (id == j)
            (λ _ h. cc) (λ _ h. h) (sym (lookup-erase id j s.clients distinct) ∙ found));
      grows = omega arith;
    }

    closed-Descends :
        (id : ℕ) → Descends s (on_ws_closed s id).0 × IsMap (on_ws_closed s id).0.clients
    unfolding on_ws_closed release_client
    closed-Descends id = elim (Option-cases (lookup id s.clients)) [
      | inl e ↦ rw (e, on_ws_closed) (same_clients s s refl (omega arith), distinct)
      | inr (entry, e) ↦
          rw (e, on_ws_closed) (erase-Descends id entry, IsMap-erase id s.clients distinct)
    ]

    removed-Descends : (id : ℕ) → Descends s (remove_client s id).0
    unfolding remove_client
    removed-Descends id = elim (Option-cases (lookup id s.clients)) [
      | inl e ↦ rw (e, remove_client) (same_clients s s refl (omega arith))
      | inr (entry, e) ↦ rw (e, remove_client) (erase-Descends id entry)
    ]

  nobody :
      (s' : Server) → s'.clients ≡ [] → s'.next_connection_id ≡ s.next_connection_id → Descends s s'
  unfolding lookup
  nobody s' none_left next = record {
    from_before = λ id e found. cc (sym (ap (lookup id) none_left) ∙ found);
    grows = omega (arith, next);
  }

  stop-Descends : Descends s (stop s).0
  unfolding stop stop_locked
  stop-Descends = nobody (stop s).0 refl refl

  shut_down-Descends : Descends s (shut_down s).0
  unfolding shut_down stop stop_locked
  shut_down-Descends =
      if_elim (λ (r : Server × List Effect). Descends s r.0) s.shutdown
        (λ _. same_clients s s refl (omega arith)) (λ _. nobody _ refl refl)

hear-Descends : (ids : List ℕ) (s : Server) → IsMap s.clients → Descends s (hear s ids)
hear-Descends [] s distinct = same_clients s s refl (omega arith)
hear-Descends (id ∷ ids) s distinct =
    let (first, still) = closed-Descends s distinct id in
    trans first (hear-Descends ids (on_ws_closed s id).0 still)

ran-Descends :
    (w : World) (k : ℕ) (o : Option Strand)
    → IsMap w.server.clients
    → Whenever (λ v. Descends w.server v.server) (ran w k o)
ran-Descends w k none distinct = tt
ran-Descends w k (some u) distinct = hear-Descends (ends (news (w.sessions k) u)) w.server distinct

start-Descends :
    (w : World) (bound : Option ℕ) (acceptor : ℕ) (cbs : ClientCallbacks)
    → Descends w.server (after_start w (start w.server acceptor bound cbs)).server
unfolding start start_locked
start-Descends w bound acceptor cbs =
    let (clients, next) = unchanged bound in same_clients w.server _ clients (omega (arith, next))
  where
    unchanged :
        (bound : Option ℕ)
        → let s = (after_start w (start w.server acceptor bound cbs)).server in
          (s.clients ≡ w.server.clients) × (s.next_connection_id ≡ w.server.next_connection_id)
    unchanged none = ground arith
    unchanged (some port) = ground arith

pub step-Descends :
    (w : World) (e : Event)
    → Sound w
    → Enabled w e
    → Whenever (λ v. Descends w.server v.server) (step w e)
unfolding step add_uri remove_uri take_connection_id
step-Descends w (accepted k) v (waits, room) =
    let t = w.sessions k in
    let s = w.server in
    let r = register_ws_client s k t.session.target t.session.is_ssl in
    entered (record w { server = r.0 }) k _
      (register-Descends s k t.session.target t.session.is_ssl room)
      (register-IsMap s v.linked.well.distinct k t.session.target t.session.is_ssl)
  where
    entered :
        (x : World) (k : ℕ) (o : Option Strand)
        → Descends w.server x.server
        → IsMap x.server.clients
        → Whenever (λ y. Descends w.server y.server) (ran x k o)
    entered x k none d distinct = tt
    entered x k (some u) d distinct =
        trans d (hear-Descends (ends (news (x.sessions k) u)) x.server distinct)
step-Descends w (refused k ec) v enabled = ran-Descends w k _ v.linked.well.distinct
step-Descends w (acts k e) v enabled = ran-Descends w k _ v.linked.well.distinct
step-Descends w (delivers n) v enabled = delivered (pick n w.inbox)
  where
    delivered :
        (o : Option ((ℕ × Post) × List (ℕ × Post)))
        → Whenever
            (λ y. Descends w.server y.server)
            (elim o as (λ _. Option World) [
              | none ↦ some w
              | some ((k, p), rest) ↦
                  ran (record w { inbox = rest }) k (fire (w.sessions k) (handler_of p))
            ])
    delivered none = same_clients w.server w.server refl (omega arith)
    delivered (some ((k, p), rest)) =
        ran-Descends (record w { inbox = rest }) k (fire (w.sessions k) (handler_of p))
          v.linked.well.distinct
step-Descends w (starts acceptor bound cbs) v enabled = start-Descends w bound acceptor cbs
step-Descends w stops v enabled = stop-Descends w.server
step-Descends w shuts_down v enabled = shut_down-Descends w.server
step-Descends w takes_id v room = same_clients w.server _ refl (omega arith)
step-Descends w (removes id) v enabled = removed-Descends w.server v.linked.well.distinct id
step-Descends w (sends_to id payload) v enabled = same_clients w.server w.server refl (omega arith)
step-Descends w (broadcasts uri payload) v enabled =
    same_clients w.server w.server refl (omega arith)
step-Descends w (adds_uri uri cbs) v enabled = same_clients w.server _ refl (omega arith)
step-Descends w (removes_uri uri) v enabled = same_clients w.server _ refl (omega arith)
