-- ===== src/Service/Order/Flow.antt =====
-- What every event does to the payloads on their way to a session.
use websockets.Prelude.{
  eq_cases, Whenever, ℕ, ◌≡◌, inl, inr, refl, sym, ap, subst, ◌∙◌, true, Option, none, some, List,
  [], ◌∷◌, ◌++◌, ==_refl, if_elim, length, drop, append-nil, drop-append,
}
use mathlib.Core.List.Sublist
use mathlib.Core.List.{Sublist, nil-sublist}
use websockets.Payload.{Payload}
use websockets.Server.{Server, Effect}
use websockets.Server.Clients.{
  StartResult, started, failed, start, register_ws_client, stop, shut_down, remove_client,
}
use websockets.Server.Sends.{send_to_client, broadcast}
use websockets.Server.Lifecycle.{pick}
use websockets.Session.{success}
use websockets.Session.Strand.{Strand, accept_done, fire, accepts}
use websockets.Session.Strand as Strand
use websockets.Session.Strand.Steady.{queued, Steady, fire-Steady}
use websockets.Session.Strand.Face.{is_internal}
use websockets.Service.{
  World, Event, Post, sends, closes, set, handler_of, ran, after, after_start, step, Enabled,
  posts_of, accepted, refused, acts, delivers, starts, stops, shuts_down, takes_id, removes,
  sends_to, broadcasts, adds_uri, removes_uri,
}
use websockets.Service.Links.{set_elim, set_at, set_off}
use websockets.Service.Order.{
  sent_by, sent_to, fresh_posts, InOrder, sent_to-append, Taken, Taken-pick,
}

-- At session `k` the payloads `taken` arrive, of which some are queued; the others wait on.
pub record Flow (k : ℕ) (w v : World) (made : List (ℕ × Post)) : Type 0 where
  pub taken : List Payload
  pub more : List Payload
  pub waiting : taken ++ sent_to k v.inbox ≡ sent_to k w.inbox ++ sent_to k made
  pub grown : (v.sessions k).accepted ≡ (w.sessions k).accepted ++ more
  pub in_order : Sublist more taken

-- Nothing arrives: the sessions queue nothing, and `made` is posted.
still :
    (k : ℕ) (w v : World) (made : List (ℕ × Post))
    → v.inbox ≡ w.inbox ++ made
    → (v.sessions k).accepted ≡ (w.sessions k).accepted
    → Flow k w v (drop (length w.inbox) v.inbox)
still k w v made grows same = record {
  taken = [];
  more = [];
  waiting =
      ap (sent_to k) grows
      ∙ (sent_to-append k w.inbox made
          ∙ ap (λ l. sent_to k w.inbox ++ sent_to k l)
              (sym (ap (drop (length w.inbox)) grows ∙ drop-append w.inbox made)));
  grown = same ∙ sym (append-nil _);
  in_order = Sublist.refl [];
}

-- A handler that queues nothing.
idle :
    (k : ℕ) (w : World) (s : Server) (j : ℕ) (e : Strand.Event)
    → queued (w.sessions j) e ≡ []
    → Whenever
        (λ v. Flow k w v (drop (length w.inbox) v.inbox))
        (ran (record w { server = s }) j (fire (w.sessions j) e))
idle k w server j e nothing = ran_idle (fire (w.sessions j) e) (fire-Steady (w.sessions j) e)
  where
    ran_idle :
        (o : Option Strand)
        → Whenever (λ u. Steady (w.sessions j) u (queued (w.sessions j) e)) o
        → Whenever
            (λ v. Flow k w v (drop (length w.inbox) v.inbox))
            (ran (record w { server = server }) j o)
    ran_idle none s = tt
    ran_idle (some u) s = still k w _ [] (sym (append-nil w.inbox)) (
        set_elim (λ i (t : Strand). t.accepted ≡ (w.sessions i).accepted) w.sessions j u k
          (λ same.
            s.grown
            ∙ (ap (λ l. (w.sessions j).accepted ++ l) nothing
                ∙ (append-nil _ ∙ ap (λ i. (w.sessions i).accepted) (sym same))))
          (λ other. refl))

internal_idle : (t : Strand) (e : Strand.Event) → is_internal e ≡ true → queued t e ≡ []
internal_idle t (Strand.read_done ec b m) i = refl
internal_idle t (Strand.write_done ec) i = refl
internal_idle t Strand.close_done i = refl
internal_idle t (Strand.send p) i = cc
internal_idle t Strand.close i = refl
internal_idle t (Strand.accept_done ec r) i = refl

-- Of what a post sends, the handler queues all or nothing.
queued-sublist :
    (k : ℕ) (t : Strand) (p : Post) → Sublist (queued t (handler_of p)) (sent_by k (k, p))
queued-sublist k t closes = Sublist.refl []
queued-sublist k t (sends q) = rw (==_refl k) (
    if_elim (λ (l : List Payload). Sublist l (q ∷ [])) (accepts t.session)
      (λ _. Sublist.refl (q ∷ [])) (λ _. nil-sublist (q ∷ [])))

-- The oldest post for a session runs.
arrives :
    (k j : ℕ) (w : World) (p : Post) (rest : List (ℕ × Post))
    → ((i : ℕ) → sent_to i w.inbox ≡ sent_by i (j, p) ++ sent_to i rest)
    → (o : Option Strand)
    → Whenever (λ u. Steady (w.sessions j) u (queued (w.sessions j) (handler_of p))) o
    → Whenever (λ v. Flow k w v []) (ran (record w { inbox = rest }) j o)
arrives k j w p rest same none s = tt
arrives k j w p rest same (some u) s =
    let eq = sym (same k) ∙ sym (append-nil _) in
    elim (eq_cases k j) [
      | inl here_ ↦ record {
        taken = sent_by k (j, p);
        more = queued (w.sessions j) (handler_of p);
        waiting = eq;
        grown =
            subst
              (λ i.
                (set w.sessions j u i).accepted
                ≡ (w.sessions i).accepted ++ queued (w.sessions j) (handler_of p))
              (sym here_) (ap (λ (t : Strand). t.accepted) (set_at w.sessions j u) ∙ s.grown);
        in_order =
            subst (λ i. Sublist (queued (w.sessions j) (handler_of p)) (sent_by i (j, p)))
              (sym here_) (queued-sublist j (w.sessions j) p);
      }
      | inr other ↦ record {
        taken = sent_by k (j, p);
        more = [];
        waiting = eq;
        grown =
            ap (λ (t : Strand). t.accepted) (set_off w.sessions j u k other) ∙ sym (append-nil _);
        in_order = nil-sublist _;
      }
    ]

started_still :
    (k : ℕ) (w : World) (r : StartResult)
    → let v = after_start w r in Flow k w v (drop (length w.inbox) v.inbox)
started_still k w (started s effects) =
    still k w (after w (s, effects)) (posts_of effects) refl refl
started_still k w (failed e) = still k w w [] (sym (append-nil w.inbox)) refl

-- A call of the user, with its effects.
called :
    (k : ℕ) (w : World) (r : Server × List Effect)
    → let v = after w r in Flow k w v (drop (length w.inbox) v.inbox)
called k w r = still k w (after w r) (posts_of r.1) refl refl

pub step-Flow :
    (k : ℕ) (w : World) (e : Event)
    → Enabled w e
    → InOrder w e
    → Whenever (λ v. Flow k w v (fresh_posts e w v)) (step w e)
unfolding step
step-Flow k w (accepted j) enabled in_order =
    let t = w.sessions j in
    let r = register_ws_client w.server j t.session.target t.session.is_ssl in
    idle k w r.0 j (accept_done success (some r.1)) refl
step-Flow k w (refused j ec) enabled in_order = idle k w w.server j (accept_done ec (some 0)) refl
step-Flow k w (acts j e) (internal, enabled) in_order =
    idle k w w.server j e (internal_idle (w.sessions j) e internal)
step-Flow k w (delivers n) enabled (i, oldest) =
    delivered (pick n w.inbox) (Taken-pick i n w.inbox oldest)
  where
    delivered :
        (o : Option ((ℕ × Post) × List (ℕ × Post)))
        → Whenever (Taken i w.inbox) o
        → Whenever
            (λ v. Flow k w v [])
            (elim o as (λ _. Option World) [
              | none ↦ some w
              | some ((j, p), rest) ↦
                  ran (record w { inbox = rest }) j (fire (w.sessions j) (handler_of p))
            ])
    delivered none taken = record {
      taken = [];
      more = [];
      waiting = sym (append-nil _);
      grown = sym (append-nil _);
      in_order = Sublist.refl [];
    }
    delivered (some ((j, p), rest)) taken =
        arrives k j w p rest taken.1 (fire (w.sessions j) (handler_of p))
          (fire-Steady (w.sessions j) (handler_of p))
step-Flow k w (starts acceptor bound cbs) enabled in_order =
    started_still k w (start w.server acceptor bound cbs)
step-Flow k w stops enabled in_order = called k w (stop w.server)
step-Flow k w shuts_down enabled in_order = called k w (shut_down w.server)
step-Flow k w takes_id enabled in_order = still k w _ [] (sym (append-nil w.inbox)) refl
step-Flow k w (removes id) enabled in_order = called k w (remove_client w.server id)
step-Flow k w (sends_to id payload) enabled in_order =
    called k w (w.server, send_to_client w.server id payload)
step-Flow k w (broadcasts uri payload) enabled in_order =
    called k w (w.server, broadcast w.server uri payload)
step-Flow k w (adds_uri uri cbs) enabled in_order = still k w _ [] (sym (append-nil w.inbox)) refl
step-Flow k w (removes_uri uri) enabled in_order = still k w _ [] (sym (append-nil w.inbox)) refl
