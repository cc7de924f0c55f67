-- ===== src/Service/Links/Ends.antt =====
-- The end of a session, `RemoveClient`, `Stop` and `RegisterWsClient` keep the links.
use websockets.Prelude.{
  ℕ, ◌≡◌, ◌≢◌, refl, sym, ap, subst, ◌∙◌, true, false, Option, none, some, List, [], ◌∷◌, ◌++◌,
  ◌==◌, ==_iff, arith, inl, inr, Bool-cases, Option-cases, if_elim, append-nil,
}
use websockets.Assoc.{Assoc, lookup, nat_key}
use websockets.Server.{Server, ClientEntry, Effect, close_session, stop_work_queue}
use websockets.Server.Clients.{
  on_ws_closed, remove_client, stop, stop_locked, shut_down, close_all, notify_all,
  close_acceptor_of,
}
use websockets.Server.Clients.Invariant.{stop_locked-WellFormed, flags-WellFormed}
use websockets.Session.Strand.Face.{Face}
use websockets.Service.{Post, sends, closes, set, posts_of}
use websockets.Service.Links.{
  HasClose, HasClose-append_left, HasClose-append_right, Covered, Linked, Linked-posted,
  Linked-server, set_elim, set_off,
}
use websockets.Service.Links.Leaves.{positive_id, Linked-released}

abbrev pub shut : Face → Face
shut f = record f { is_open = false }

module _ (s : Server) (f : ℕ → Face) (inbox : List (ℕ × Post)) (v : Linked s f inbox) where
  -- What stays of an open session when another is shut.
  open_off :
      (k j : ℕ) → (set f k (shut (f k)) j).is_open ≡ true → (set f k (shut (f k)) j ≡ f j) × (j ≢ k)
  open_off k j =
      set_elim (λ i y. y.is_open ≡ true → (y ≡ f i) × (i ≢ k)) f k (shut (f k)) j (λ e o. cc)
        (λ other o. (refl, other))

  module _ (k : ℕ) (open_ : (f k).is_open ≡ true) where
    -- The session was no client's.
    shut_alone : lookup (f k).client_id s.clients ≡ none → Linked s (set f k (shut (f k))) inbox
    shut_alone nobody = record {
      well = v.well;
      seated = λ id e found.
          let same = set_off f k (shut (f k)) e.session (not_mine id e found) in
          subst (λ (y : Face). (y.is_open ≡ true) × (y.client_id ≡ id)) (sym same)
            (v.seated id e found);
      known = λ j o.
          let same = (open_off k j o).0 in
          omega (
            arith,
            v.known j (ap (λ (y : Face). y.is_open) (sym same) ∙ o),
            ap (λ (y : Face). y.client_id) same,
          );
      apart = λ i j oi oj h n.
          let si = (open_off k i oi).0 in
          let sj = (open_off k j oj).0 in
          v.apart i j (ap (λ (y : Face). y.is_open) (sym si) ∙ oi)
            (ap (λ (y : Face). y.is_open) (sym sj) ∙ oj)
            (ap (λ (y : Face). y.client_id) (sym si) ∙ (h ∙ ap (λ (y : Face). y.client_id) sj))
            (λ z. n (ap (λ (y : Face). y.client_id) si ∙ z));
      covered = λ j o.
          let same = (open_off k j o).0 in
          subst (λ y. Covered s y inbox j) (sym same)
            (v.covered j (ap (λ (y : Face). y.is_open) (sym same) ∙ o));
    }
      where
        not_mine : (id : ℕ) (e : ClientEntry) → lookup id s.clients ≡ some e → e.session ≢ k
        not_mine id e found same =
            let i : (f k).client_id ≡ id =
              ap (λ j. (f j).client_id) (sym same) ∙ (v.seated id e found).1 in
            cc (sym nobody ∙ (ap (λ j. lookup j s.clients) i ∙ found))

    -- `OnWsClosed` for a session that ends.
    pub Linked-ended : Linked (on_ws_closed s (f k).client_id).0 (set f k (shut (f k))) inbox
    unfolding on_ws_closed
    Linked-ended = elim (Option-cases (lookup (f k).client_id s.clients)) [
      | inl e ↦ rw (e, on_ws_closed) (shut_alone e)
      | inr (entry, e) ↦
          let (eo, ei) = v.seated (f k).client_id entry e in
          let n = positive_id s.next_connection_id (f k).client_id s.clients v.well.ids e in
          let mine : entry.session ≡ k =
            v.apart entry.session k eo open_ ei (λ z. n (sym ei ∙ z)) in
          rw (e, on_ws_closed)
            (Linked-released s f inbox v (f k).client_id entry e (set f k (shut (f k))) inbox
              (λ j other. set_off f k (shut (f k)) j (λ h. other (h ∙ sym mine)))
              (λ j o. let (same, other) = open_off k j o in (same, inl (λ h. other (h ∙ mine))))
              (λ j h. h))
    ]

  -- `RemoveClient`
  pub Linked-removed : (id : ℕ) → let r = remove_client s id in Linked r.0 f (inbox ++ posts_of r.1)
  unfolding remove_client
  Linked-removed id = elim (Option-cases (lookup id s.clients)) [
    | inl e ↦ rw (e, remove_client) (Linked-posted s f inbox v [])
    | inr (entry, e) ↦
        rw (e, remove_client)
          (Linked-released s f inbox v id entry e f _ (λ j other. refl)
            (λ j o. (
              refl,
              elim (Bool-cases (entry.session == j)) [
                | inl same ↦
                    inr (HasClose-append_right j inbox _ (inl ((==_iff entry.session j).0 same)))
                | inr other ↦ inl (λ h. cc ((==_iff entry.session j).1 (sym h)))
              ],
            ))
            (λ j h. HasClose-append_left j inbox _ h))
  ]

HasClose-close_all :
    (id : ℕ) (e : ClientEntry) (m : Assoc ℕ ClientEntry) (rest : List Effect)
    → lookup id m ≡ some e
    → HasClose e.session (posts_of (close_all m ++ rest))
unfolding lookup
HasClose-close_all id e [] rest found = cc
HasClose-close_all id e ((i, x) ∷ m) rest found = elim (Bool-cases (i == id)) [
  | inl hit ↦ inl (ground arith)
  | inr miss ↦ inr (HasClose-close_all id e m rest (rw miss at found))
]

posts_of-close_acceptor :
    (a : Option ℕ) (rest : List Effect) → posts_of (close_acceptor_of a ++ rest) ≡ posts_of rest
posts_of-close_acceptor none rest = refl
posts_of-close_acceptor (some a) rest = refl

posts_of-append : (xs ys : List Effect) → posts_of (xs ++ ys) ≡ posts_of xs ++ posts_of ys
posts_of-append [] ys = refl
posts_of-append (close_session k ∷ xs) ys = ap (◌∷◌ (k, closes)) (posts_of-append xs ys)
posts_of-append (Effect.send k p ∷ xs) ys = ap (◌∷◌ (k, sends p)) (posts_of-append xs ys)
posts_of-append (x ∷ xs) ys = posts_of-append xs ys

-- The notifications that `Stop` makes.
abbrev told : Server → List Effect
told s = notify_all (stop_locked s) s.clients

-- `Stop`
pub Linked-stopped :
    (s : Server) (f : ℕ → Face) (inbox : List (ℕ × Post))
    → Linked s f inbox
    → let r = stop s in Linked r.0 f (inbox ++ posts_of r.1)
unfolding stop stop_locked lookup
Linked-stopped s f inbox v = record {
  well = stop_locked-WellFormed s v.well;
  seated = λ id e found. cc;
  known = v.known;
  apart = v.apart;
  covered = λ k o. elim (v.covered k o) [
    | inl asked ↦ inl asked
    | inr (inr waits) ↦ inr (inr (HasClose-append_left k inbox _ waits))
    | inr (inl (e, found, its)) ↦ inr (
        inr (
          HasClose-append_right k inbox _ (
            rw (posts_of-close_acceptor s.acceptor (close_all s.clients ++ told s)) (
              subst (λ j. HasClose j (posts_of (close_all s.clients ++ told s))) its
                (HasClose-close_all (f k).client_id e s.clients (told s) found)))))
  ];
}

-- `Shutdown`
pub Linked-shut_down :
    (s : Server) (f : ℕ → Face) (inbox : List (ℕ × Post))
    → Linked s f inbox
    → let r = shut_down s in Linked r.0 f (inbox ++ posts_of r.1)
unfolding shut_down
Linked-shut_down s f inbox v =
    if_elim (λ (r : Server × List Effect). Linked r.0 f (inbox ++ posts_of r.1)) s.shutdown
      (λ _. Linked-posted s f inbox v [])
      (λ _.
        let s' = record s { shutdown = true } in
        let w = flags-WellFormed s v.well true s.uris in
        let l = Linked-stopped s' f inbox (Linked-server s f inbox v s' w refl (omega arith)) in
        let same = posts_of-append (stop s').1 (stop_work_queue ∷ []) ∙ append-nil _ in
        subst (λ posts. Linked (stop s').0 f (inbox ++ posts)) (sym same) l)
