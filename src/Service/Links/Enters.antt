-- ===== src/Service/Links/Enters.antt =====
-- A session opens: `RegisterWsClient` makes it a client, or it is told to close.
use websockets.Prelude.{
  ℕ, ◌+◌, ◌^◌, ◌<◌, ◌≤◌, ◌≡◌, ◌≢◌, refl, sym, ap, subst, ◌∙◌, Bool, true, false, not, ◌||◌, none,
  some, List, [], ◌==◌, ==_iff, ==_refl, arith, ◌⊎◌, inl, inr, Bool-cases,
}
use websockets.Text.{Text}
use websockets.Assoc.{lookup, insert, nat_key}
use websockets.Assoc.Laws.{lookup-insert, lookup_fresh}
use websockets.Target.{target_path}
use websockets.Server.{Server, ClientEntry}
use websockets.Server.Routing.{longest_uri_match}
use websockets.Server.Clients.{register_locked, register_ws_client, is_some}
use websockets.Server.Clients.Invariant.{WellFormed, register_locked-WellFormed, succ_id, fresh}
use websockets.Session.Strand.Face.{Face, Opens}
use websockets.Service.{Post, set}
use websockets.Service.Links.{Covered, Linked, set_elim, set_at, set_off}

session_of : (x e : ClientEntry) → some x ≡ some e → e.session ≡ x.session
session_of x e same = ground arith

-- What the opening of a session needs of the server that it leaves.
record Takes (s s' : Server) (f : ℕ → Face) (k : ℕ) (g : Face) (inbox : List (ℕ × Post))
    : Type 0 where
  well : WellFormed s'
  grows : s.next_connection_id ≤ s'.next_connection_id
  found :
      (id : ℕ) (e : ClientEntry)
      → lookup id s'.clients ≡ some e
      → (lookup id s.clients ≡ some e) ⊎ ((e.session ≡ k) × (g.client_id ≡ id))
  stays : (id : ℕ) (e : ClientEntry) → lookup id s.clients ≡ some e → lookup id s'.clients ≡ some e
  opened : g.is_open ≡ true
  below : g.client_id < s'.next_connection_id
  unique : (j : ℕ) → (f j).is_open ≡ true → g.client_id ≢ 0 → (f j).client_id ≢ g.client_id
  covers : Covered s' g inbox k

module _ (s : Server) (f : ℕ → Face) (inbox : List (ℕ × Post)) (v : Linked s f inbox) (k : ℕ)
    (g : Face) (shut : (f k).is_open ≡ false) where
  -- No client has this session yet.
  not_seated : (id : ℕ) (e : ClientEntry) → lookup id s.clients ≡ some e → e.session ≢ k
  not_seated id e found same =
      cc (sym shut ∙ (ap (λ j. (f j).is_open) (sym same) ∙ (v.seated id e found).0))

  opened-known :
      (s' : Server)
      → Takes s s' f k g inbox
      → (j : ℕ) → (set f k g j).is_open ≡ true
      → (set f k g j).client_id < s'.next_connection_id
  opened-known s' t j =
      set_elim (λ i y. y.is_open ≡ true → y.client_id < s'.next_connection_id) f k g j
        (λ e o. t.below) (λ other o. omega (arith, v.known j o, t.grows))

  opened-apart :
      (s' : Server)
      → Takes s s' f k g inbox
      → (i j : ℕ) → (set f k g i).is_open ≡ true
      → (set f k g j).is_open ≡ true
      → (set f k g i).client_id ≡ (set f k g j).client_id
      → (set f k g i).client_id ≢ 0
      → i ≡ j
  opened-apart s' t i j =
      set_elim
        (λ i y.
          y.is_open ≡ true
          → (set f k g j).is_open ≡ true
          → y.client_id ≡ (set f k g j).client_id
          → y.client_id ≢ 0
          → i ≡ j)
        f k g i
        (λ ei oi.
          set_elim (λ j y. y.is_open ≡ true → g.client_id ≡ y.client_id → g.client_id ≢ 0 → i ≡ j) f
            k g j (λ ej oj h n. ei ∙ sym ej) (λ other oj h n. absurd (t.unique j oj n (sym h))))
        (λ other oi.
          set_elim
            (λ j y. y.is_open ≡ true → (f i).client_id ≡ y.client_id → (f i).client_id ≢ 0 → i ≡ j)
            f k g j (λ ej oj h n. absurd (t.unique i oi (λ z. n (h ∙ z)) h))
            (λ other' oj h n. v.apart i j oi oj h n))

  Linked-opened : (s' : Server) → Takes s s' f k g inbox → Linked s' (set f k g) inbox
  Linked-opened s' t = record {
    well = t.well;
    seated = λ id e there. elim (t.found id e there) [
      | inl old ↦
          subst (λ (y : Face). (y.is_open ≡ true) × (y.client_id ≡ id))
            (sym (set_off f k g e.session (not_seated id e old))) (v.seated id e old)
      | inr (mine, i) ↦
          subst (λ j. ((set f k g j).is_open ≡ true) × ((set f k g j).client_id ≡ id)) (sym mine)
            (subst (λ (y : Face). (y.is_open ≡ true) × (y.client_id ≡ id)) (sym (set_at f k g))
              (t.opened, i))
    ];
    known = opened-known s' t;
    apart = opened-apart s' t;
    covered = λ j.
        set_elim (λ j y. y.is_open ≡ true → Covered s' y inbox j) f k g j
          (λ e o. subst (Covered s' g inbox) (sym e) t.covers)
          (λ other o. elim (v.covered j o) [
            | inl asked ↦ inl asked
            | inr (inl (e, there, its)) ↦ inr (inl (e, t.stays _ e there, its))
            | inr (inr waits) ↦ inr (inr waits)
          ]);
  }

  -- The session was rejected: its id is 0, and it closes.
  Takes-rejected : Opens (f k) 0 g [] → Takes s s f k g inbox
  Takes-rejected (r, o, i, keeps, asked) = record {
    well = v.well;
    grows = omega arith;
    found = λ id e there. inl there;
    stays = λ id e there. there;
    opened = o;
    below = omega (arith, i, v.well.fewer);
    unique = λ j oj n. absurd (n i);
    covers = inl (asked refl);
  }

  -- The session became a client.
  Takes-registered :
      (matched : Text) (is_ssl : Bool)
      → s.acceptor ≢ none
      → s.next_connection_id + 1 < 2 ^ 32
      → Opens (f k) s.next_connection_id g []
      → Takes s (register_locked s k matched is_ssl) f k g inbox
  unfolding register_locked
  Takes-registered matched is_ssl listening room (r, o, i, keeps, asked) =
      let n = s.next_connection_id in
      let entry : ClientEntry = record { session = k; uri = matched; is_ssl = is_ssl } in
      let look = λ (id : ℕ). lookup-insert n id entry s.clients in
      record {
        well = register_locked-WellFormed s v.well k matched is_ssl listening room;
        grows = omega (arith, succ_id s v.well room);
        found = λ id e there. elim (Bool-cases (n == id)) [
          | inr miss ↦ inl (rw miss at (sym (look id) ∙ there))
          | inl hit ↦
              inr (session_of entry e (rw hit at (sym (look id) ∙ there)), i ∙ (==_iff n id).0 hit)
        ];
        stays = λ id e there. elim (Bool-cases (n == id)) [
          | inr miss ↦ look id ∙ rw miss there
          | inl hit ↦
              let nobody : lookup n s.clients ≡ none = lookup_fresh n s.clients (fresh s v.well) in
              cc (sym nobody ∙ (ap (λ j. lookup j s.clients) ((==_iff n id).0 hit) ∙ there))
        ];
        opened = o;
        below = omega (arith, i, succ_id s v.well room);
        unique = λ j oj z h. omega (arith, v.known j oj, i, h);
        covers = inr (
            inl (
              entry,
              ap (λ j. lookup j (insert n entry s.clients)) i ∙ (look n ∙ rw (==_refl n)),
              refl,
            ));
      }

  -- `OnAccept`, when the accept has succeeded.
  pub Linked-accepted :
      (target : Text) (is_ssl : Bool)
      → s.next_connection_id + 1 < 2 ^ 32
      → let r = register_ws_client s k target is_ssl in
        Opens (f k) r.1 g [] → Linked r.0 (set f k g) inbox
  unfolding register_ws_client
  Linked-accepted target is_ssl room = elim (Bool-cases (s.shutdown || not (is_some s.acceptor))) [
    | inl e ↦ rw (e, register_ws_client) (λ o. Linked-opened s (Takes-rejected o))
    | inr e ↦
        rw (e, register_ws_client)
          (λ o. Linked-opened _ (
            Takes-registered (longest_uri_match s.uris (target_path target)) is_ssl
              (λ a. ground arith) room o))
  ]
