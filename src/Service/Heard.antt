-- ===== src/Service/Heard.antt =====
-- What an event reads at a session, and which events send nothing.
use websockets.Prelude.{
  Whenever, ℕ, ◌≡◌, refl, sym, ap, subst, ◌∙◌, Bool, true, false, Option, none, some, List, [],
  ◌++◌, ◌==◌, ==_iff, ==_refl, if◌then◌else◌, if_elim, append-nil,
}
use websockets.Assoc.{nat_key}
use websockets.Payload.{Payload}
use websockets.Service.Simulation.{after_start-sessions}
use websockets.Server.Clients.{
  register_ws_client, start, stop, shut_down, remove_client, add_uri, remove_uri,
  take_connection_id,
}
use websockets.Server.Lifecycle.{pick}
use websockets.Session.{success}
use websockets.Session.Strand.{Strand, accept_done, fire}
use websockets.Session.Strand as Strand
use websockets.Session.Strand.Reads.{reads, heard, fire-reads}
use websockets.Service.{
  World, Event, Post, sends, closes, handler_of, ran, after_start, step, accepted, refused, acts,
  delivers, starts, stops, shuts_down, takes_id, removes, sends_to, broadcasts, adds_uri,
  removes_uri,
}

-- The payloads that the event reads at session `k`.
abbrev pub heard_at : ℕ → Event → List Payload
heard_at k (acts j e) = if j == k then heard e else []
heard_at k _ = []

abbrev pub Adds : ℕ → World → List Payload → World → Type 0
Adds k w more v = reads (v.sessions k).trace ≡ reads (w.sessions k).trace ++ more

unmoved : (k : ℕ) (w v : World) → v.sessions ≡ w.sessions → Adds k w [] v
unmoved k w v same = ap (λ (f : ℕ → Strand). reads (f k).trace) same ∙ sym (append-nil _)

ran-Adds :
    (k : ℕ) (w x : World) (j : ℕ) (o : Option Strand) (more : List Payload)
    → x.sessions ≡ w.sessions
    → Whenever (λ u. reads u.trace ≡ reads (w.sessions j).trace ++ more) o
    → Whenever (Adds k w (if j == k then more else [])) (ran x j o)
ran-Adds k w x j none more same r = tt
ran-Adds k w x j (some u) more same r =
    if_elim
      (λ (t : Strand). reads t.trace ≡ reads (w.sessions k).trace ++ (if j == k then more else []))
      (k == j)
      (λ hit.
        let e = (==_iff k j).0 hit in
        subst (λ i. reads u.trace ≡ reads (w.sessions i).trace ++ (if j == i then more else []))
          (sym e) (rw (==_refl j) r))
      (λ miss.
        if_elim (λ l. reads (x.sessions k).trace ≡ reads (w.sessions k).trace ++ l) (j == k)
          (λ hit. cc (sym miss ∙ (ap (λ i. k == i) ((==_iff j k).0 hit) ∙ ==_refl k)))
          (λ _. ap (λ (f : ℕ → Strand). reads (f k).trace) same ∙ sym (append-nil _)))

if_same : {A : Type 0} (b : Bool) (x : A) → (if b then x else x) ≡ x
if_same true x = refl
if_same false x = refl

-- A handler that reads nothing.
ran-still :
    (k : ℕ) (w x : World) (j : ℕ) (o : Option Strand)
    → x.sessions ≡ w.sessions
    → Whenever (λ u. reads u.trace ≡ reads (w.sessions j).trace ++ []) o
    → Whenever (Adds k w []) (ran x j o)
ran-still k w x j o same r =
    subst (λ l. Whenever (Adds k w l) (ran x j o)) (if_same (j == k) [])
      (ran-Adds k w x j o [] same r)

pub step-Adds : (k : ℕ) (w : World) (e : Event) → Whenever (Adds k w (heard_at k e)) (step w e)
unfolding step start stop shut_down remove_client add_uri remove_uri take_connection_id
step-Adds k w (accepted j) =
    let t = w.sessions j in
    let r = register_ws_client w.server j t.session.target t.session.is_ssl in
    ran-still k w (record w { server = r.0 }) j _ refl
      (fire-reads t (accept_done success (some r.1)))
step-Adds k w (refused j ec) =
    ran-still k w w j _ refl (fire-reads (w.sessions j) (accept_done ec (some 0)))
step-Adds k w (acts j e) = ran-Adds k w w j _ (heard e) refl (fire-reads (w.sessions j) e)
step-Adds k w (delivers n) = delivered (pick n w.inbox)
  where
    posted :
        (j : ℕ) (p : Post)
        → Whenever
            (λ u. reads u.trace ≡ reads (w.sessions j).trace ++ [])
            (fire (w.sessions j) (handler_of p))
    posted j (sends q) = fire-reads (w.sessions j) (Strand.send q)
    posted j closes = fire-reads (w.sessions j) Strand.close

    delivered :
        (o : Option ((ℕ × Post) × List (ℕ × Post)))
        → Whenever (Adds k w []) (elim o as (λ _. Option World) [
          | none ↦ some w
          | some ((j, p), rest) ↦
              ran (record w { inbox = rest }) j (fire (w.sessions j) (handler_of p))
        ])
    delivered none = unmoved k w w refl
    delivered (some ((j, p), rest)) =
        ran-still k w (record w { inbox = rest }) j _ refl (posted j p)
step-Adds k w (starts acceptor bound cbs) =
    unmoved k w (after_start w (start w.server acceptor bound cbs))
      (after_start-sessions w (start w.server acceptor bound cbs))
step-Adds k w stops = sym (append-nil _)
step-Adds k w shuts_down = sym (append-nil _)
step-Adds k w takes_id = sym (append-nil _)
step-Adds k w (removes id) = sym (append-nil _)
step-Adds k w (sends_to id payload) = sym (append-nil _)
step-Adds k w (broadcasts uri payload) = sym (append-nil _)
step-Adds k w (adds_uri uri cbs) = sym (append-nil _)
step-Adds k w (removes_uri uri) = sym (append-nil _)
