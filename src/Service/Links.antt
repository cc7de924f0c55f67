-- ===== src/Service/Links.antt =====
-- How the clients of the server and its open sessions belong together.
pub mod Leaves
pub mod Ends
pub mod Enters
use websockets.Prelude.{
  ℕ, ◌+◌, ◌^◌, ◌<◌, ◌≤◌, ◌≡◌, ◌≢◌, refl, sym, ap, subst, ◌∙◌, Bool, true, false, Option, none, some,
  List, [], ◌∷◌, ◌++◌, ◌==◌, ==_iff, ==_refl, if◌then◌else◌, arith, ◌⊎◌, inl, inr, Bool-cases,
  Option-cases, if_elim,
}
use websockets.Payload.{Payload}
use websockets.Assoc.{lookup, nat_key}
use websockets.Server.{Server, ClientEntry}
use websockets.Server.Clients.Invariant.{WellFormed}
use websockets.Session.Strand.Face.{Face}
use websockets.Service.{Post, sends, closes, set}

-- A close waits for the session.
abbrev pub HasClose : ℕ → List (ℕ × Post) → Type 0
HasClose k [] = ⊥
HasClose k ((j, sends p) ∷ rest) = HasClose k rest
HasClose k ((j, closes) ∷ rest) = (j ≡ k) ⊎ HasClose k rest

-- The session is that of a client of the server.
abbrev pub Sits : Server → Face → ℕ → Type 0
Sits s f k = (e : ClientEntry) × (lookup f.client_id s.clients ≡ some e) × (e.session ≡ k)

-- An open session was asked to close, or is a client's, or its close is posted.
abbrev pub Covered : Server → Face → List (ℕ × Post) → ℕ → Type 0
Covered s f inbox k = (f.close_requested ≡ true) ⊎ (Sits s f k ⊎ HasClose k inbox)

pub record Linked (s : Server) (f : ℕ → Face) (inbox : List (ℕ × Post)) : Type 0 where
  pub well : WellFormed s
  pub seated :
      (id : ℕ) (e : ClientEntry)
      → lookup id s.clients ≡ some e
      → ((f e.session).is_open ≡ true) × ((f e.session).client_id ≡ id)
  pub known : (k : ℕ) → (f k).is_open ≡ true → (f k).client_id < s.next_connection_id
  pub apart :
      (j k : ℕ)
      → (f j).is_open ≡ true
      → (f k).is_open ≡ true
      → (f j).client_id ≡ (f k).client_id
      → (f j).client_id ≢ 0
      → j ≡ k
  pub covered : (k : ℕ) → (f k).is_open ≡ true → Covered s (f k) inbox k

pub HasClose-append_left : (k : ℕ) (xs ys : List (ℕ × Post)) → HasClose k xs → HasClose k (xs ++ ys)
HasClose-append_left k [] ys h = elim h [ ]
HasClose-append_left k ((j, sends p) ∷ xs) ys h = HasClose-append_left k xs ys h
HasClose-append_left k ((j, closes) ∷ xs) ys (inl e) = inl e
HasClose-append_left k ((j, closes) ∷ xs) ys (inr h) = inr (HasClose-append_left k xs ys h)

pub HasClose-append_right :
    (k : ℕ) (xs ys : List (ℕ × Post)) → HasClose k ys → HasClose k (xs ++ ys)
HasClose-append_right k [] ys h = h
HasClose-append_right k ((j, sends p) ∷ xs) ys h = HasClose-append_right k xs ys h
HasClose-append_right k ((j, closes) ∷ xs) ys h = inr (HasClose-append_right k xs ys h)

-- A property of a family that was changed at one place.
pub set_elim :
    {A : Type 0} (P : ℕ → A → Type 0) (f : ℕ → A) (k : ℕ) (x : A) (j : ℕ)
    → (j ≡ k → P j x)
    → (j ≢ k → P j (f j))
    → P j (set f k x j)
set_elim P f k x j here_ there =
    if_elim (λ y. P j y) (j == k) (λ e. here_ ((==_iff j k).0 e))
      (λ e. there (λ same. cc ((==_iff j k).1 same)))

pub set_at : {A : Type 0} (f : ℕ → A) (k : ℕ) (x : A) → set f k x k ≡ x
set_at f k x = rw (==_refl k)

pub set_off : {A : Type 0} (f : ℕ → A) (k : ℕ) (x : A) (j : ℕ) → j ≢ k → set f k x j ≡ f j
set_off f k x j other = set_elim (λ i y. y ≡ f i) f k x j (λ e. absurd (other e)) (λ _. refl)

module _ (s : Server) (f : ℕ → Face) (inbox : List (ℕ × Post)) (v : Linked s f inbox) where
  -- More posts.
  pub Linked-posted : (more : List (ℕ × Post)) → Linked s f (inbox ++ more)
  Linked-posted more = record {
    well = v.well;
    seated = v.seated;
    known = v.known;
    apart = v.apart;
    covered = λ k o. elim (v.covered k o) [
      | inl asked ↦ inl asked
      | inr (inl sits) ↦ inr (inl sits)
      | inr (inr waits) ↦ inr (inr (HasClose-append_left k inbox more waits))
    ];
  }

  -- A server with the same clients.
  pub Linked-server :
      (s' : Server)
      → WellFormed s'
      → s'.clients ≡ s.clients
      → s.next_connection_id ≤ s'.next_connection_id
      → Linked s' f inbox
  Linked-server s' w same grows = record {
    well = w;
    seated = λ id e found. v.seated id e (ap (lookup id) (sym same) ∙ found);
    known = λ k o. omega (arith, v.known k o);
    apart = v.apart;
    covered = λ k o. elim (v.covered k o) [
      | inl asked ↦ inl asked
      | inr (inl (e, found, its)) ↦ inr (inl (e, ap (lookup (f k).client_id) same ∙ found, its))
      | inr (inr waits) ↦ inr (inr waits)
    ];
  }

  -- Faces that differ in what they are asked at most, and are covered.
  Linked-like :
      (g : ℕ → Face) (rest : List (ℕ × Post))
      → ((j : ℕ) → ((g j).is_open ≡ (f j).is_open) × ((g j).client_id ≡ (f j).client_id))
      → ((j : ℕ) → (f j).is_open ≡ true → Covered s (f j) inbox j → Covered s (g j) rest j)
      → Linked s g rest
  Linked-like g rest same cover = record {
    well = v.well;
    seated = λ id e found.
        let (o, i) = v.seated id e found in ((same e.session).0 ∙ o, (same e.session).1 ∙ i);
    known = λ k o. omega (arith, v.known k (sym (same k).0 ∙ o), (same k).1);
    apart = λ j k oj ok e n.
        v.apart j k (sym (same j).0 ∙ oj) (sym (same k).0 ∙ ok) (sym (same j).1 ∙ (e ∙ (same k).1))
          (λ z. n ((same j).1 ∙ z));
    covered = λ k o. let open_ = sym (same k).0 ∙ o in cover k open_ (v.covered k open_);
  }

  -- A session is asked to close; the post that did so may be gone.
  pub Linked-asked :
      (k : ℕ) (rest : List (ℕ × Post))
      → ((j : ℕ) → j ≢ k → HasClose j inbox → HasClose j rest)
      → Linked s (set f k (record (f k) { close_requested = true })) rest
  Linked-asked k rest keeps =
      Linked-like (set f k (record (f k) { close_requested = true })) rest
        (λ j.
          set_elim (λ i y. (y.is_open ≡ (f i).is_open) × (y.client_id ≡ (f i).client_id)) f k
            (record (f k) { close_requested = true }) j
            (λ e. (ap (λ i. (f i).is_open) (sym e), ap (λ i. (f i).client_id) (sym e)))
            (λ other. (refl, refl)))
        (λ j o c.
          set_elim (λ i y. Covered s (f i) inbox i → Covered s y rest i) f k
            (record (f k) { close_requested = true }) j (λ e d. inl refl)
            (λ other d. elim d [
              | inl asked ↦ inl asked
              | inr (inl sits) ↦ inr (inl sits)
              | inr (inr waits) ↦ inr (inr (keeps j other waits))
            ])
            c)

  -- A payload has been delivered, or nothing has changed.
  pub Linked-delivered :
      (rest : List (ℕ × Post)) → ((j : ℕ) → HasClose j inbox → HasClose j rest) → Linked s f rest
  Linked-delivered rest keeps =
      Linked-like f rest (λ j. (refl, refl))
        (λ j o c. elim c [
          | inl asked ↦ inl asked
          | inr (inl sits) ↦ inr (inl sits)
          | inr (inr waits) ↦ inr (inr (keeps j waits))
        ])
