-- ===== src/Service/Links/Leaves.antt =====
-- A client leaves, and a client enters.
use websockets.Prelude.{
  ℕ, ◌≡◌, ◌≢◌, refl, sym, ap, subst, ◌∙◌, true, Option, none, some, List, [], ◌∷◌, ◌==◌, ==_iff,
  if◌then◌else◌, arith, ◌⊎◌, inl, inr, Bool-cases, if_elim,
}
use websockets.Assoc.{Assoc, lookup, erase, nat_key}
use websockets.Assoc.Laws.{lookup-erase}
use websockets.Server.{Server, ClientEntry}
use websockets.Server.Clients.{release_client}
use websockets.Server.Clients.Counts.{Between}
use websockets.Server.Clients.Invariant.{release_client-WellFormed}
use websockets.Session.Strand.Face.{Face}
use websockets.Service.{Post}
use websockets.Service.Links.{HasClose, Sits, Covered, Linked}

pub positive_id :
    (n id : ℕ) (m : Assoc ℕ ClientEntry) {e : ClientEntry}
    → Between n m
    → lookup id m ≡ some e
    → id ≢ 0
unfolding lookup
positive_id n id [] b found = cc
positive_id n id ((i, x) ∷ m) {e} b found = elim (Bool-cases (i == id)) [
  | inl hit ↦ λ z. omega (arith, b.0.0, (==_iff i id).0 hit)
  | inr miss ↦ positive_id n id m b.1 (rw miss at found)
]

module _ (s : Server) (f : ℕ → Face) (inbox : List (ℕ × Post)) (v : Linked s f inbox) where
  -- Another client is still found after one has left.
  still : (id j : ℕ) → id ≢ j → lookup j (erase id s.clients) ≡ lookup j s.clients
  still id j other =
      lookup-erase id j s.clients v.well.distinct
      ∙ if_elim (λ (o : Option ClientEntry). o ≡ lookup j s.clients) (id == j)
          (λ e. absurd (other ((==_iff id j).0 e))) (λ _. refl)

  gone_found :
      (id j : ℕ) (e : ClientEntry)
      → lookup j (erase id s.clients) ≡ some e
      → (id ≢ j) × (lookup j s.clients ≡ some e)
  gone_found id j e found =
      let found' : (if id == j then none else lookup j s.clients) ≡ some e =
        sym (lookup-erase id j s.clients v.well.distinct) ∙ found in
      elim (Bool-cases (id == j)) [
        | inl same ↦ cc (rw same at found')
        | inr other ↦ ((λ h. cc ((==_iff id j).1 h)), rw other at found')
      ]

  module _ (id : ℕ) (e : ClientEntry) (found : lookup id s.clients ≡ some e) where
    -- Another client has another session.
    other_session :
        (j : ℕ) (x : ClientEntry) → id ≢ j → lookup j s.clients ≡ some x → x.session ≢ e.session
    other_session j x other there same = other (
        sym (v.seated id e found).1
        ∙ (ap (λ k. (f k).client_id) (sym same) ∙ (v.seated j x there).1))

    -- The client is released. Its session is shut, or a close is posted to it.
    pub Linked-released :
        (g : ℕ → Face) (rest : List (ℕ × Post))
        → ((j : ℕ) → j ≢ e.session → g j ≡ f j)
        → ((j : ℕ) → (g j).is_open ≡ true → (g j ≡ f j) × ((j ≢ e.session) ⊎ HasClose j rest))
        → ((j : ℕ) → HasClose j inbox → HasClose j rest)
        → Linked (release_client s id e) g rest
    unfolding release_client
    Linked-released g rest off opens keeps = record {
      well = release_client-WellFormed s v.well id e found;
      seated = λ j x there.
          let (other, there') = gone_found id j x there in
          let same = off x.session (other_session j x other there') in
          subst (λ (y : Face). (y.is_open ≡ true) × (y.client_id ≡ j)) (sym same)
            (v.seated j x there');
      known = λ k o.
          let same = (opens k o).0 in
          let bound = v.known k (ap (λ (y : Face). y.is_open) (sym same) ∙ o) in
          omega (arith, bound, ap (λ (y : Face). y.client_id) same);
      apart = λ j k oj ok h n.
          let sj = (opens j oj).0 in
          let sk = (opens k ok).0 in
          v.apart j k (ap (λ (y : Face). y.is_open) (sym sj) ∙ oj)
            (ap (λ (y : Face). y.is_open) (sym sk) ∙ ok)
            (ap (λ (y : Face). y.client_id) (sym sj) ∙ (h ∙ ap (λ (y : Face). y.client_id) sk))
            (λ z. n (ap (λ (y : Face). y.client_id) sj ∙ z));
      covered = λ k o. covered_after k o;
    }
      where
        still_sits : (k : ℕ) → k ≢ e.session → Sits s (f k) k → Sits (release_client s id e) (f k) k
        still_sits k other (x, there, its) =
            let differ : id ≢ (f k).client_id =
              λ h. other (sym its ∙ same_entry x (ap (λ i. lookup i s.clients) h ∙ there)) in
            (x, still id (f k).client_id differ ∙ there, its)
          where
            same_entry : (x : ClientEntry) → lookup id s.clients ≡ some x → x.session ≡ e.session
            same_entry x h = ground arith

        covered_after :
            (k : ℕ) → (g k).is_open ≡ true → Covered (release_client s id e) (g k) rest k
        covered_after k o =
            let (same, why) = opens k o in
            let was = v.covered k (ap (λ (y : Face). y.is_open) (sym same) ∙ o) in
            subst (λ y. Covered (release_client s id e) y rest k) (sym same)
              (elim why [
                | inr waits ↦ inr (inr waits)
                | inl other ↦ elim was [
                  | inl asked ↦ inl asked
                  | inr (inl sits) ↦ inr (inl (still_sits k other sits))
                  | inr (inr waits) ↦ inr (inr (keeps k waits))
                ]
              ])
