-- ===== src/Examples/EchoServer/Waiting.antt =====
-- The calls that wait in the work queue of the echo server, and whom they send back to.
use websockets.Prelude.{
  ◌⊎◌, ℕ, ◌<◌, ◌≡◌, refl, sym, ap, ◌∙◌, subst, Bool, true, false, Option, none, some, List, [], ◌∷◌,
  ◌++◌, ◌==◌, if◌then◌else◌, map, inl, inr, arith, append-nil, append_assoc,
}
use mathlib.Core.List.Sublist
use mathlib.Core.List.{Sublist, nil-sublist}
use websockets.Text.{Text}
use websockets.Assoc.{lookup, nat_key, text_key}
use websockets.Payload.{Payload}
use websockets.Server.{Server, Call, ClientEntry}
use websockets.Session.{ErrorCode, fails}
use websockets.Session.Strand.{Strand, read_done}
use websockets.Session.Strand as Strand
use websockets.Session.Strand.Safety.{Inv}
use websockets.Session.Strand.Reads.{heard}
use websockets.Service.{
  World, Event, acts, starts, removes, sends_to, broadcasts, adds_uri, removes_uri, accepted,
  refused, delivers, stops, shuts_down, takes_id, Enabled,
}
use websockets.Service.Sound.{Sound}
use websockets.Service.Links.Leaves.{positive_id}
use websockets.Service.Lineage.{Descends}
use websockets.Service.Heard.{heard_at}
use websockets.Examples.EchoServer.{sends_back}
use websockets.Examples.EchoServer.Runs.{posted}
use websockets.Examples.EchoServer.Posted.{Plain, Answers, read-Answers}

-- What a waiting call sends back to session `k`, if the client that it names is still there.
abbrev pub payload_of : Option (ℕ × Payload) → List Payload
payload_of none = []
payload_of (some (id, p)) = p ∷ []

abbrev pub back : ℕ → ℕ × Call → List Payload
back k (j, c) = if j == k then payload_of (sends_back c) else []

abbrev pub pending : ℕ → List (ℕ × Call) → List Payload
pending k [] = []
pending k (x ∷ queue) = back k x ++ pending k queue

pub pending-append :
    (k : ℕ) (xs ys : List (ℕ × Call)) → pending k (xs ++ ys) ≡ pending k xs ++ pending k ys
pending-append k [] ys = refl
pending-append k (x ∷ xs) ys =
    ap (◌++◌ (back k x)) (pending-append k xs ys) ∙ sym (append_assoc (back k x) _ _)

-- The id that a call sends to is in use, by the session that the call comes from or by none.
abbrev pub Owns : Server → ℕ → ℕ → Type 0
Owns s j id =
    (id < s.next_connection_id) × ((e : ClientEntry) → lookup id s.clients ≡ some e → e.session ≡ j)

abbrev pub Owned : Server → List (ℕ × Call) → Type 0
Owned s [] = Unit
Owned s ((j, c) ∷ queue) =
    ((id : ℕ) (p : Payload) → sends_back c ≡ some (id, p) → Owns s j id) × Owned s queue

pub Owned-append :
    (s : Server) (xs ys : List (ℕ × Call)) → Owned s xs → Owned s ys → Owned s (xs ++ ys)
Owned-append s [] ys o p = p
Owned-append s (x ∷ xs) ys (first, o) p = (first, Owned-append s xs ys o p)

Owns-Descends : (s s' : Server) (j id : ℕ) → Descends s s' → Owns s j id → Owns s' j id
Owns-Descends s s' j id d (below, its) = (
  omega (arith, below, d.grows),
  λ e found. elim (d.from_before id e found) [
    | inl older ↦ its e older
    | inr new ↦ absurd (omega (arith, below, new))
  ],
)

pub Owned-Descends :
    (s s' : Server) (queue : List (ℕ × Call)) → Descends s s' → Owned s queue → Owned s' queue
Owned-Descends s s' [] d o = tt
Owned-Descends s s' ((j, c) ∷ queue) d (first, o) =
    (λ id p sent. Owns-Descends s s' j id d (first id p sent), Owned-Descends s s' queue d o)

-- A session that reads is open.
reader_open :
    (t : Strand) (ec : ErrorCode) (b : Bool) (m : Text)
    → Inv t
    → Strand.Enabled t (read_done ec b m)
    → fails ec ≡ false
    → t.session.is_open ≡ true
reader_open t ec b m v e good = ground arith

same_id : (x y : ℕ × Payload) → some x ≡ some y → x.0 ≡ y.0
same_id x y e =
    ap (λ (o : Option (ℕ × Payload)). elim o as (λ _. ℕ) [ none ↦ x.0 | some q ↦ q.0 ]) e

-- Only reads post anything.
abbrev Posts : World → Event → Type 0
Posts w e =
    (posted w e ≡ [])
    ⊎ ((k : ℕ) × (ec : ErrorCode) × (b : Bool) × (m : Text) × (e ≡ acts k (read_done ec b m)))

posts : (w : World) (e : Event) → Posts w e
posts w (acts k (read_done ec b m)) = inr (k, ec, b, m, refl)
posts w (acts k (Strand.accept_done ec r)) = inl refl
posts w (acts k (Strand.send p)) = inl refl
posts w (acts k Strand.close) = inl refl
posts w (acts k (Strand.write_done ec)) = inl refl
posts w (acts k Strand.close_done) = inl refl
posts w (accepted k) = inl refl
posts w (refused k ec) = inl refl
posts w (delivers n) = inl refl
posts w (starts acceptor bound cbs) = inl refl
posts w stops = inl refl
posts w shuts_down = inl refl
posts w takes_id = inl refl
posts w (removes id) = inl refl
posts w (sends_to id payload) = inl refl
posts w (broadcasts uri payload) = inl refl
posts w (adds_uri uri cbs) = inl refl
posts w (removes_uri uri) = inl refl

module _ (w : World) (v : Sound w) where
  -- An open session owns its id.
  pub open-Owns :
      (k : ℕ)
      → (w.sessions k).session.is_open ≡ true
      → Owns w.server k (w.sessions k).session.client_id
  open-Owns k o = (
    v.linked.known k o,
    λ e found.
        let (seat, its) = v.linked.seated _ e found in
        v.linked.apart e.session k seat o its
          (λ z. positive_id _ _ w.server.clients v.linked.well.ids found (sym its ∙ z)),
  )

  read-Owned :
      (k : ℕ) (ec : ErrorCode) (b : Bool) (m : Text)
      → Plain w.server.uris
      → Strand.Enabled (w.sessions k) (read_done ec b m)
      → Owned w.server (posted w (acts k (read_done ec b m)))
  read-Owned k ec b m plain enabled = go _ (read-Answers w.server (w.sessions k) ec b m plain)
    where
      go :
          (calls : List Call)
          → Answers (w.sessions k) ec (heard (read_done ec b m)) calls
          → Owned w.server (map (λ c. (k, c)) calls)
      go calls (inl none_) = subst (λ l. Owned w.server (map (λ c. (k, c)) l)) (sym none_) tt
      go calls (inr (c, p, one, sent, got, good)) =
          subst (λ l. Owned w.server (map (λ c. (k, c)) l)) (sym one)
            (
              (λ id q sends_.
                  subst (Owns w.server k) (same_id (_, p) (id, q) (sym sent ∙ sends_))
                    (open-Owns k (reader_open (w.sessions k) ec b m (v.strands k) enabled good))),
              tt,
            )

  pub posted-Owned : (e : Event) → Plain w.server.uris → Enabled w e → Owned w.server (posted w e)
  posted-Owned e plain enabled = elim (posts w e) [
    | inl none_ ↦ subst (Owned w.server) (sym none_) tt
    | inr (k, ec, b, m, its) ↦
        subst (λ x. Enabled w x → Owned w.server (posted w x)) (sym its)
          (λ allowed. read-Owned k ec b m plain allowed.1) enabled
  ]

-- Of what an event reads at a session, it posts at most that to be sent back to the same session.
read-back :
    (k : ℕ) (w : World) (j : ℕ) (ec : ErrorCode) (b : Bool) (m : Text)
    → Plain w.server.uris
    → Sublist
        (pending k (posted w (acts j (read_done ec b m))))
        (heard_at k (acts j (read_done ec b m)))
read-back k w j ec b m plain = go _ (read-Answers w.server (w.sessions j) ec b m plain)
  where
    go :
        (calls : List Call)
        → Answers (w.sessions j) ec (heard (read_done ec b m)) calls
        → Sublist (pending k (map (λ c. (j, c)) calls)) (heard_at k (acts j (read_done ec b m)))
    go calls (inl none_) = rw none_ (nil-sublist _)
    go calls (inr (c, p, one, sent, got, good)) = rw (one, got, sent, append-nil) (Sublist.refl _)

pub posted-back :
    (k : ℕ) (w : World) (e : Event)
    → Plain w.server.uris
    → Sublist (pending k (posted w e)) (heard_at k e)
posted-back k w e plain = elim (posts w e) [
  | inl none_ ↦ rw none_ (nil-sublist (heard_at k e))
  | inr (j, ec, b, m, its) ↦
      subst (λ x. Sublist (pending k (posted w x)) (heard_at k x)) (sym its)
        (read-back k w j ec b m plain)
]
