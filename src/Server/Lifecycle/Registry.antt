-- ===== src/Server/Lifecycle/Registry.antt =====
-- A client comes and goes: `RegisterWsClient` and `OnWsClosed` as steps of the server.
use websockets.Prelude.{
  ℕ, ◌+◌, ◌^◌, ◌<◌, ◌≢◌, refl, Bool, none, [], ◌++◌, arith, Bool-cases, Option-cases, inl, inr,
  ◌||◌, not,
}
use websockets.Text.{Text}
use websockets.Assoc.{lookup, nat_key}
use websockets.Server.{ClientEntry, Handler, closed, added, connection_change}
use websockets.Server.Clients.{
  post_if, register_ws_client, register_locked, on_ws_closed, release_client, is_some,
  change_handler, decrement_uri_count,
}
use websockets.Server.Clients.Counts.{Between-IsFresh}
use websockets.Server.Clients.Invariant.{register_locked-WellFormed, release_client-WellFormed}
use websockets.Server.Lifecycle.{System, registers, closes, calls_of, act, step}
use websockets.Server.Lifecycle.Sections.{Inv, set_of_ready, empty_lookup, quiet-Inv}
use websockets.Server.Lifecycle.Tally.{
  num_added-append, num_closed-append, num_connected-insert, num_connected-erase, added_posted,
  closed_posted,
}

module _ (sys : System) (v : Inv sys) where
  pub closes-Inv : (id : ℕ) → Inv (step sys (closes id))
  unfolding step on_ws_closed release_client
  closes-Inv id = elim (Option-cases (lookup id sys.server.clients)) [
    | inl e ↦
        rw (e, on_ws_closed) (quiet-Inv sys v sys.server [] refl v.well refl (omega arith) v.ready)
    | inr (entry, e) ↦
        let set = set_of_ready sys v.ready (λ i. empty_lookup id sys.server.clients e i.1) in
        let s = sys.server in
        let count = (decrement_uri_count entry.uri s.uri_counts).1 in
        let effects =
          post_if s.client_cbs.on_client_closed (λ h. closed h id)
          ++ post_if (change_handler s.uris entry.uri) (λ h. connection_change h count) in
        let told = λ (j : ℕ).
          closed_posted j s.client_cbs.on_client_closed (change_handler s.uris entry.uri) id count
            set.1 in
        let added_same = λ (j : ℕ). num_added-append j sys.chosen (calls_of effects) in
        rw (e, on_ws_closed)
          (record {
            well = release_client-WellFormed s v.well id entry e;
            balance = λ j. omega (
              arith,
              num_connected-erase j id entry s.clients e,
              num_closed-append j sys.chosen (calls_of effects),
              added_same j,
              told j,
              v.balance j,
            );
            once = λ j. omega (arith, added_same j, told j, v.once j);
            unused = λ j h. omega (arith, added_same j, told j, v.unused j h);
            ready = inl set;
          })
  ]

  -- A registration, with the uri that was matched and the callbacks that it chooses.
  register-Inv :
      (session : ℕ) (matched append : Text) (is_ssl : Bool) (change : Handler) (count : ℕ)
      → sys.server.acceptor ≢ none
      → sys.server.next_connection_id + 1 < 2 ^ 32
      → let s = sys.server in
        Inv (
          act sys (register_locked s session matched is_ssl) (
            post_if s.client_cbs.on_client_added (λ h. added h s.next_connection_id append is_ssl)
            ++ post_if change (λ h. connection_change h count)))
  unfolding register_locked
  register-Inv session matched append is_ssl change count open_ room =
      let s = sys.server in
      let n = s.next_connection_id in
      let set = set_of_ready sys v.ready (λ i. open_ i.0) in
      let entry : ClientEntry = record { session = session; uri = matched; is_ssl = is_ssl } in
      let effects =
        post_if s.client_cbs.on_client_added (λ h. added h n append is_ssl)
        ++ post_if change (λ h. connection_change h count) in
      let told =
        λ (j : ℕ). added_posted j s.client_cbs.on_client_added change n count append is_ssl set.0 in
      let added_more = λ (j : ℕ). num_added-append j sys.chosen (calls_of effects) in
      let fresh = Between-IsFresh n s.clients v.well.ids in
      record {
        well = register_locked-WellFormed s v.well session matched is_ssl open_ room;
        balance = λ j. omega (
          arith,
          num_connected-insert j n entry s.clients fresh,
          num_closed-append j sys.chosen (calls_of effects),
          added_more j,
          told j,
          v.balance j,
        );
        once = λ j. ground (arith, added_more j, told j, v.once j, v.unused j);
        unused = λ j h. ground (arith, added_more j, told j, v.unused j);
        ready = inl set;
      }

  pub registers-Inv :
      (session : ℕ) (target : Text) (is_ssl : Bool)
      → sys.server.next_connection_id + 1 < 2 ^ 32
      → Inv (step sys (registers session target is_ssl))
  unfolding step register_ws_client
  registers-Inv session target is_ssl room =
      elim (Bool-cases (sys.server.shutdown || not (is_some sys.server.acceptor))) [
        | inl e ↦ rw e (quiet-Inv sys v sys.server [] refl v.well refl (omega arith) v.ready)
        | inr e ↦ rw e (register-Inv session _ _ is_ssl _ _ (λ a. ground arith) room)
      ]
