-- ===== src/Gateway/Frames.antt =====
-- A session that is not made stays so until it is made, which disturbs no other.
use websockets.Prelude.{
  ◌<◌, ◌≢◌, Whenever, ℕ, ◌≡◌, refl, sym, subst, Bool, true, false, none, some, List, [], arith, inl,
  inr,
}
use websockets.Text.{Text}
use websockets.Assoc.{nat_key}
use websockets.Server.{Server}
use websockets.Session.{on_send, on_close, on_accept, on_read, on_write}
use websockets.Session.Strand.{
  Strand, accept_done, send, close, read_done, write_done, close_done, fire,
}
use websockets.Session.Strand as Strand
use websockets.Service.{World, Post}
use websockets.Session.Strand.{new_strand}
use websockets.Session.Strand.Safety.{Inv, new_strand-Inv, new_strand-shut}
use websockets.Session.Strand.Face.{Face}
use websockets.Service.Links.{Linked, Covered, set_elim}
use websockets.Service.{set}
use websockets.Service.Sound.{Sound, faces, faces-set}
use websockets.Gateway.{unmade}
use websockets.Session.Strand.Steady.{Moved}

-- A session that is not open and waits for no accept.
pub record Quiet (t : Strand) : Type 0 where
  pub not_accepting : t.accepting ≡ false
  pub shut : t.session.is_open ≡ false

fire-Quiet :
    (t : Strand) (e : Strand.Event) → Strand.Enabled t e → Quiet t → Whenever Quiet (fire t e)
unfolding fire on_accept on_send on_close on_read on_write
fire-Quiet t (accept_done ec none) a q = grind arith
fire-Quiet t (accept_done ec (some id)) a q = grind arith
fire-Quiet t (send p) a q = grind arith
fire-Quiet t close a q = grind arith
fire-Quiet t (read_done ec b m) a q = grind arith
fire-Quiet t (write_done ec) a q = grind arith
fire-Quiet t close_done a q = grind arith

pub Moved-Quiet : {t u : Strand} → Moved t u → Quiet t → Quiet u
Moved-Quiet (inl same) q = subst Quiet (sym same) q
Moved-Quiet {t} (inr (e, enabled, fired)) q =
    subst (Whenever Quiet) fired (fire-Quiet t e enabled q)

pub unmade-Quiet : Quiet unmade
unfolding new_strand
unmade-Quiet = record { not_accepting = refl; shut = new_strand-shut 0 false [] }

pub unmade-Inv : Inv unmade
unfolding new_strand
unmade-Inv = ground arith

-- A session that is not open may be exchanged for another one that is not.
Linked-fresh :
    (s : Server) (f : ℕ → Face) (inbox : List (ℕ × Post))
    → Linked s f inbox
    → (k : ℕ) (g : Face) → (f k).is_open ≡ false
    → g.is_open ≡ false
    → Linked s (set f k g) inbox
Linked-fresh s f inbox v k g shut new = record {
  well = v.well;
  seated = λ id e found.
      set_elim (λ i y. (y.is_open ≡ true) × (y.client_id ≡ id)) f k g e.session
        (λ same.
          absurd (closed k shut (subst (λ i. (f i).is_open ≡ true) same (v.seated id e found).0)))
        (λ _. v.seated id e found);
  known = λ j.
      set_elim (λ i y. y.is_open ≡ true → y.client_id < s.next_connection_id) f k g j
        (λ _ o. absurd (never o)) (λ _. v.known j);
  apart = λ i j.
      set_elim
        (λ _ y.
          y.is_open ≡ true
          → (set f k g j).is_open ≡ true
          → y.client_id ≡ (set f k g j).client_id
          → y.client_id ≢ 0
          → i ≡ j)
        f k g i (λ _ o. absurd (never o))
        (λ _.
          set_elim
            (λ _ y.
              (f i).is_open ≡ true
              → y.is_open ≡ true
              → (f i).client_id ≡ y.client_id
              → (f i).client_id ≢ 0
              → i ≡ j)
            f k g j (λ _ p o. absurd (never o)) (λ _. v.apart i j));
  covered = λ j.
      set_elim (λ i y. y.is_open ≡ true → Covered s y inbox i) f k g j (λ _ o. absurd (never o))
        (λ _. v.covered j);
}
  where
    never : g.is_open ≢ true
    never o = cc

    closed : (i : ℕ) → (f i).is_open ≡ false → (f i).is_open ≢ true
    closed i shut o = cc

pub Sound-made :
    (w : World) (k cap : ℕ) (ssl : Bool) (target : Text)
    → Sound w
    → Quiet (w.sessions k)
    → Sound (record w { sessions = set w.sessions k (new_strand cap ssl target) })
Sound-made w k cap ssl target v q = record {
  strands = λ j.
      set_elim (λ i t. Inv t) w.sessions k (new_strand cap ssl target) j
        (λ _. new_strand-Inv cap ssl target) (λ _. v.strands j);
  linked =
      subst (λ f. Linked w.server f w.inbox)
        (sym (faces-set w.sessions k (new_strand cap ssl target)))
        (Linked-fresh w.server (faces w.sessions) w.inbox v.linked k _ q.shut
          (new_strand-shut cap ssl target));
}
