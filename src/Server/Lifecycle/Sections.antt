-- ===== src/Server/Lifecycle/Sections.antt =====
-- What each section of the server does to the tallies of a client's callbacks.
use websockets.Prelude.{
  ℕ, ◌+◌, ◌≤◌, ◌≡◌, ◌≢◌, refl, sym, subst, none, some, List, [], ◌∷◌, ◌++◌, arith, Option-cases,
  ◌⊎◌, inl, inr, append-nil,
}
use websockets.Text.{Text}
use websockets.Assoc.{Assoc, lookup, nat_key}
use websockets.Assoc.Laws.{IsFresh, lookup_fresh}
use websockets.Server.{Server, ServerSettings, ClientCallbacks, ClientEntry, Effect, new_server}
use websockets.Server.Clients.{
  release_client, notify_closed_sync, stop_locked, change_handler, uri_count,
}
use websockets.Server.Clients.Invariant.{
  WellFormed, new_server-WellFormed, release_client-WellFormed, stop_locked-WellFormed,
}
use websockets.Server.Lifecycle.{
  System, calls_of, uris_of, pick, act, stop_section, remove_section, notify_section, new_system,
}
use websockets.Server.Lifecycle.Tally.{
  num_added, num_closed, num_connected, num_due, num_added-append, num_closed-append,
  num_due-append, num_due-uris_of, num_due-pick, num_connected-erase, closed_invoked,
}

-- Both callbacks of a client's life are set.
abbrev pub AreSet : ClientCallbacks → Type 0
AreSet cbs = (cbs.on_client_added ≢ none) × (cbs.on_client_closed ≢ none)

abbrev pub Idle : System → Type 0
Idle sys = (sys.server.acceptor ≡ none) × (sys.server.clients ≡ []) × (sys.pending ≡ [])

-- Each added callback of a client is matched by its connection, by a due notification or by a
-- closed callback.
pub record Inv (sys : System) : Type 0 where
  pub well : WellFormed sys.server
  pub balance :
      (id : ℕ)
      → num_closed id sys.chosen + (num_connected id sys.server.clients + num_due id sys.pending)
        ≡ num_added id sys.chosen
  pub once : (id : ℕ) → num_added id sys.chosen ≤ 1
  pub unused : (id : ℕ) → sys.server.next_connection_id ≤ id → num_added id sys.chosen ≡ 0
  pub ready : AreSet sys.server.client_cbs ⊎ Idle sys

pub new_system-Inv : (settings : ServerSettings) → Inv (new_system settings)
unfolding new_system new_server
new_system-Inv settings = record {
  well = new_server-WellFormed settings;
  balance = λ id. refl;
  once = λ id. omega arith;
  unused = λ id h. refl;
  ready = inr (refl, refl, refl);
}

pub empty_lookup :
    (id : ℕ) (m : Assoc ℕ ClientEntry) {e : ClientEntry} → lookup id m ≡ some e → m ≢ []
empty_lookup id m found h = cc (lookup_fresh id m (subst (IsFresh id) (sym h) tt))

empty_pick :
    (n : ℕ) (ps : List (ℕ × Text)) {q : (ℕ × Text) × List (ℕ × Text)} → pick n ps ≡ some q → ps ≢ []
empty_pick n [] found h = cc
empty_pick n (p ∷ ps) found h = cc

-- A system that is not idle has both callbacks.
pub set_of_ready :
    (sys : System)
    → AreSet sys.server.client_cbs ⊎ Idle sys
    → ¬ (Idle sys)
    → AreSet sys.server.client_cbs
set_of_ready sys (inl s) busy = s
set_of_ready sys (inr i) busy = absurd (busy i)

module _ (sys : System) (v : Inv sys) where
  due_stop :
      (id : ℕ)
      → num_due id (sys.pending ++ uris_of sys.server.clients)
        ≡ num_due id sys.pending + num_connected id sys.server.clients
  due_stop id = omega (
    arith,
    num_due-append id sys.pending (uris_of sys.server.clients),
    num_due-uris_of id sys.server.clients,
  )

  pub stop_section-Inv : Inv (stop_section sys)
  unfolding stop_section stop_locked
  stop_section-Inv = record {
    well = stop_locked-WellFormed sys.server v.well;
    balance = λ id. omega (arith, due_stop id, v.balance id);
    once = v.once;
    unused = v.unused;
    ready = elim v.ready [ inl s ↦ inl s | inr (a, c, p) ↦ inr (refl, refl, rw (c, p)) ];
  }

  pub remove_section-Inv : (id : ℕ) → Inv (remove_section sys id)
  unfolding remove_section release_client
  remove_section-Inv id = elim (Option-cases (lookup id sys.server.clients)) [
    | inl e ↦ rw (e, remove_section) v
    | inr (entry, e) ↦
        let set = set_of_ready sys v.ready (λ i. empty_lookup id sys.server.clients e i.1) in
        rw (e, remove_section)
          (record {
            well = release_client-WellFormed sys.server v.well id entry e;
            balance = λ j. omega (
              arith,
              num_connected-erase j id entry sys.server.clients e,
              num_due-append j sys.pending ((id, entry.uri) ∷ []),
              v.balance j,
            );
            once = v.once;
            unused = v.unused;
            ready = inl set;
          })
  ]

  pub notify_section-Inv : (n : ℕ) → Inv (notify_section sys n)
  unfolding notify_section notify_closed_sync
  notify_section-Inv n = elim (Option-cases (pick n sys.pending)) [
    | inl e ↦ rw (e, notify_section) v
    | inr (((id, uri), rest), e) ↦
        let set = set_of_ready sys v.ready (λ i. empty_pick n sys.pending e i.2) in
        let s = sys.server in
        let effects = notify_closed_sync s id uri in
        let told = λ (j : ℕ).
          closed_invoked j s.client_cbs.on_client_closed (change_handler s.uris uri) id
            (uri_count s.uri_counts uri) set.1 in
        let added_same = λ (j : ℕ). num_added-append j sys.chosen (calls_of effects) in
        rw (e, notify_section)
          (record {
            well = v.well;
            balance = λ j. omega (
              arith,
              num_due-pick j n id uri sys.pending rest e,
              num_closed-append j sys.chosen (calls_of effects),
              added_same j,
              told j,
              v.balance j,
            );
            once = λ j. omega (arith, added_same j, told j, v.once j);
            unused = λ j h. omega (arith, added_same j, told j, v.unused j h);
            ready = inl set;
          })
  ]

  -- A section that chooses no call and changes no client.
  pub quiet-Inv :
      (s : Server) (effects : List Effect)
      → calls_of effects ≡ []
      → WellFormed s
      → s.clients ≡ sys.server.clients
      → sys.server.next_connection_id ≤ s.next_connection_id
      → AreSet s.client_cbs ⊎ Idle (act sys s effects)
      → Inv (act sys s effects)
  quiet-Inv s effects silent w same grows r = record {
    well = w;
    balance = λ j. rw (silent, append-nil sys.chosen, same) (v.balance j);
    once = λ j. rw (silent, append-nil sys.chosen) (v.once j);
    unused = λ j h. rw (silent, append-nil sys.chosen) (v.unused j (omega arith));
    ready = r;
  }
