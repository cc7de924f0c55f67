-- ===== src/Service/Sound.antt =====
-- What holds of a server with its sessions in every run, and a handler of a session that keeps it.
use websockets.Prelude.{
  Ensures, ℕ, zero, suc, ◌≡◌, refl, sym, ap, subst, Option, none, some, List, [], ◌∷◌, ◌==◌, ◌⊎◌,
  inl, inr, if_elim,
}
use mathlib.Core.Path.{fun_ext}
use websockets.Server.Lifecycle.{pick}
use websockets.Session.Strand.{Strand}
use websockets.Session.Strand.Safety.{Inv}
use websockets.Session.Strand.Face.{Face, face_of, Shows, ends, news}
use websockets.Service.{World, Post, sends, closes, set, hear, ran}
use websockets.Service.Links.{HasClose, Linked, set_elim}

abbrev pub faces : (ℕ → Strand) → ℕ → Face
faces sessions k = face_of (sessions k).session

pub record Sound (w : World) : Type 0 where
  pub strands : (k : ℕ) → Inv (w.sessions k)
  pub linked : Linked w.server (faces w.sessions) w.inbox

abbrev pub Keeps : Option World → Type 0
Keeps none = ⊥
Keeps (some w) = Sound w

pub faces-set :
    (sessions : ℕ → Strand) (k : ℕ) (u : Strand)
    → faces (set sessions k u) ≡ set (faces sessions) k (face_of u.session)
faces-set sessions k u = fun_ext (λ j.
    if_elim (λ (t : Strand). face_of t.session ≡ set (faces sessions) k (face_of u.session) j)
      (j == k) (λ e. rw e refl) (λ e. rw e refl))

pub set_same : (f : ℕ → Face) (k : ℕ) → set f k (f k) ≡ f
set_same f k = fun_ext (λ j. set_elim (λ i y. y ≡ f i) f k (f k) j (λ e. ap f (sym e)) (λ _. refl))

-- A handler of a session that keeps its strand sound, and what it shows of it.
pub ran-Sound :
    (w : World) (k : ℕ) (P : Face → List ℕ → Type 0) (o : Option Strand)
    → ((j : ℕ) → Inv (w.sessions j))
    → Ensures Inv o
    → Shows P (w.sessions k) o
    → ((g : Face) (reported : List ℕ)
        → P g reported
        → Linked (hear w.server reported) (set (faces w.sessions) k g) w.inbox)
    → Keeps (ran w k o)
ran-Sound w k P none strands inv shows linked = inv
ran-Sound w k P (some u) strands inv shows linked = record {
  strands = λ j. set_elim (λ i t. Inv t) w.sessions k u j (λ e. inv) (λ other. strands j);
  linked =
      subst (λ f. Linked (hear w.server (ends (news (w.sessions k) u))) f w.inbox)
        (sym (faces-set w.sessions k u)) (linked _ _ shows);
}

-- What is picked is gone; every other close still waits.
abbrev pub Left : ℕ → List (ℕ × Post) → Option ((ℕ × Post) × List (ℕ × Post)) → Type 0
Left j inbox none = Unit
Left j inbox (some ((k, p), rest)) = HasClose j inbox → ((p ≡ closes) × (k ≡ j)) ⊎ HasClose j rest

pub Left-pick : (j n : ℕ) (inbox : List (ℕ × Post)) → Left j inbox (pick n inbox)
Left-pick j n [] = tt
Left-pick j zero ((i, sends q) ∷ inbox) = λ h. inr h
Left-pick j zero ((i, closes) ∷ inbox) = λ h. elim h [ inl e ↦ inl (refl, e) | inr h' ↦ inr h' ]
Left-pick j (suc n) (x ∷ inbox) = later x (pick n inbox) (Left-pick j n inbox)
  where
    later :
        (x : ℕ × Post) (o : Option ((ℕ × Post) × List (ℕ × Post)))
        → Left j inbox o
        → Left j (x ∷ inbox) (elim o [ none ↦ none | some (q, qs) ↦ some (q, x ∷ qs) ])
    later x none l = tt
    later (i, sends q) (some ((k, p), rest)) l = l
    later (i, closes) (some ((k, p), rest)) l = λ h. elim h [
      | inl e ↦ inr (inl e)
      | inr h' ↦ elim (l h') [ inl mine ↦ inl mine | inr waits ↦ inr (inr waits) ]
    ]
