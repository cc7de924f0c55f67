-- ===== src/Server/Clients/Invariant.antt =====
-- The state of the server stays well formed under every section that it runs under its lock.
use websockets.Prelude.{
  ℕ, ◌+◌, ◌^◌, ◌<◌, ◌≡◌, ◌≢◌, refl, sym, subst, ◌∙◌, Bool, none, some, [], length, arith,
}
use websockets.Text.{Text}
use websockets.Assoc.{Assoc, lookup, insert, erase, text_key, nat_key}
use websockets.Assoc.Laws.{IsFresh, lookup_fresh, IsMap, IsMap-insert, IsMap-erase}
use websockets.Server.{
  Server, ClientEntry, ClientCallbacks, UriCallbacks, ServerSettings, new_server,
}
use websockets.Server.Clients.{
  uri_count, count_client, register_locked, release_client, stop_locked, next_id, start_locked,
  take_connection_id,
}
use websockets.Server.Clients.Counts.{
  num_at, num_at-insert, num_at-erase, num_at-le, length-insert, length-erase, Between,
  Between-IsFresh, Between-mono, Between-insert, Between-erase, counted_register, counted_release,
}

pub record WellFormed (s : Server) : Type 0 where
  -- ids are in use between 1 and the next one, and distinct
  pub ids : Between s.next_connection_id s.clients
  pub distinct : IsMap s.clients
  pub fewer : length s.clients < s.next_connection_id
  pub no_wrap : s.next_connection_id < 2 ^ 32
  -- the count of a uri is the number of clients on it
  pub counted : (uri : Text) → uri ≢ [] → uri_count s.uri_counts uri ≡ num_at uri s.clients
  -- a server that does not listen has no clients
  pub listening : s.acceptor ≡ none → s.clients ≡ []

pub new_server-WellFormed : (settings : ServerSettings) → WellFormed (new_server settings)
unfolding new_server lookup
new_server-WellFormed settings = record {
  ids = tt;
  distinct = tt;
  fewer = omega arith;
  no_wrap = omega arith;
  counted = λ uri u. refl;
  listening = λ e. refl;
}

module _ (s : Server) (v : WellFormed s) where
  pub fresh : IsFresh s.next_connection_id s.clients
  fresh = Between-IsFresh s.next_connection_id s.clients v.ids

  pub succ_id :
      s.next_connection_id + 1 < 2 ^ 32 → next_id s.next_connection_id ≡ s.next_connection_id + 1
  succ_id room = omega arith

  module _ (session : ℕ) (matched : Text) (is_ssl : Bool) where
    abbrev pub new_entry : ClientEntry
    new_entry = record { session = session; uri = matched; is_ssl = is_ssl }

    pub register-counted :
        (uri : Text)
        → uri ≢ []
        → uri_count (count_client matched s.uri_counts) uri
          ≡ num_at uri (insert s.next_connection_id new_entry s.clients)
    register-counted uri u =
        counted_register matched uri s.uri_counts (num_at uri s.clients) u
          (λ m. omega (arith, v.counted matched m, num_at-le matched s.clients, v.fewer, v.no_wrap))
          (v.counted uri u)
        ∙ sym (num_at-insert uri s.next_connection_id new_entry s.clients fresh)

    -- Registration keeps the state well formed while ids remain.
    pub register_locked-WellFormed :
        s.acceptor ≢ none
        → s.next_connection_id + 1 < 2 ^ 32
        → WellFormed (register_locked s session matched is_ssl)
    unfolding register_locked
    register_locked-WellFormed a room =
        let n = s.next_connection_id in
        record {
          ids =
              subst (λ k. Between k (insert n new_entry s.clients)) (sym (succ_id room))
                (Between-insert (n + 1) n new_entry s.clients (omega (arith, v.fewer)) (omega arith)
                  (Between-mono n (n + 1) s.clients (omega arith) v.ids));
          distinct = IsMap-insert n new_entry s.clients v.distinct;
          fewer = omega (arith, length-insert n new_entry s.clients fresh, succ_id room, v.fewer);
          no_wrap = omega (arith, succ_id room);
          counted = register-counted;
          listening = λ e. absurd (a e);
        }

  -- So does the release of a client of the map.
  pub release_client-WellFormed :
      (id : ℕ) (entry : ClientEntry)
      → lookup id s.clients ≡ some entry
      → WellFormed (release_client s id entry)
  unfolding release_client
  release_client-WellFormed id entry e = record {
    ids = Between-erase s.next_connection_id id s.clients v.ids;
    distinct = IsMap-erase id s.clients v.distinct;
    fewer = omega (arith, length-erase id entry s.clients e, v.fewer);
    no_wrap = v.no_wrap;
    counted = λ uri u.
        counted_release entry.uri uri s.uri_counts (num_at uri (erase id s.clients)) u
          (v.counted uri u ∙ num_at-erase uri id entry s.clients e);
    listening = λ a. absurd (no_client (v.listening a));
  }
    where
      no_client : ¬ (s.clients ≡ [])
      no_client h = cc (lookup_fresh id s.clients (subst (IsFresh id) (sym h) tt))

  pub stop_locked-WellFormed : WellFormed (stop_locked s)
  unfolding stop_locked lookup
  stop_locked-WellFormed = record {
    ids = tt;
    distinct = tt;
    fewer = omega (arith, v.fewer);
    no_wrap = v.no_wrap;
    counted = λ uri u. refl;
    listening = λ e. refl;
  }

  pub start_locked-WellFormed :
      (acceptor port : ℕ) (cbs : ClientCallbacks) → WellFormed (start_locked s acceptor port cbs)
  unfolding start_locked
  start_locked-WellFormed acceptor port cbs = record {
    ids = v.ids;
    distinct = v.distinct;
    fewer = v.fewer;
    no_wrap = v.no_wrap;
    counted = v.counted;
    listening = λ e. cc;
  }

  pub take_connection_id-WellFormed :
      s.next_connection_id + 1 < 2 ^ 32 → WellFormed (take_connection_id s).0
  unfolding take_connection_id
  take_connection_id-WellFormed room = record {
    ids =
        subst (λ k. Between k s.clients) (sym (succ_id room))
          (Between-mono s.next_connection_id (s.next_connection_id + 1) s.clients (omega arith)
            v.ids);
    distinct = v.distinct;
    fewer = omega (arith, succ_id room, v.fewer);
    no_wrap = omega (arith, succ_id room);
    counted = v.counted;
    listening = v.listening;
  }

  -- Neither the flag of the shutdown nor the registered uris matter.
  pub flags-WellFormed :
      (shutdown : Bool) (uris : Assoc Text UriCallbacks)
      → WellFormed (record s { shutdown = shutdown; uris = uris })
  flags-WellFormed shutdown uris = record {
    ids = v.ids;
    distinct = v.distinct;
    fewer = v.fewer;
    no_wrap = v.no_wrap;
    counted = v.counted;
    listening = v.listening;
  }
