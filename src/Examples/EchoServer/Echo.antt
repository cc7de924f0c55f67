-- ===== src/Examples/EchoServer/Echo.antt =====
-- The echo server sends back what it is told, to whom told it and in order.
use websockets.Prelude.{
  Whenever, ℕ, ◌≡◌, refl, sym, ap, ◌∙◌, subst, false, Option, none, some, List, [], ◌∷◌, ◌++◌, ◌==◌,
  if◌then◌else◌, inl, inr, Option-cases, append-nil, append_assoc, drop-append,
}
use mathlib.Core.List.Sublist
use mathlib.Core.List.{Sublist, nil-sublist, sublist-append_left, sublist-append_right}
use websockets.Text.{Text}
use websockets.Assoc.{Assoc, lookup, insert, nat_key, text_key}
use websockets.Payload.{Payload}
use websockets.Server.Routing.{uri_handler}
use websockets.Server.{ServerSettings, Server, Call, UriCallbacks, new_server}
use websockets.Server.Sends.{send_to_client}
use websockets.Session.Strand.Reads.{reads}
use websockets.Session.Strand.Order.{writes}
use websockets.Service.{
  World, Event, Post, acts, starts, removes, sends_to, broadcasts, adds_uri, removes_uri, accepted,
  refused, delivers, stops, shuts_down, takes_id, step, Enabled, IsNew, posts_of,
}
use websockets.Service.Sound.{Sound}
use websockets.Service.Runs.{Reach-Sound}
use websockets.Service.Lineage.{Descends, step-Descends}
use websockets.Service.Settings.{Like, uris_after, step-fixed}
use websockets.Service.Heard.{Adds, heard_at, step-Adds}
use websockets.Service.Order.{sent_to, sent_to-append, fresh_posts, Ordered-Reach}
use websockets.Service.Order.Silent.{is_send, Silent, step-Silent}
use websockets.Service.Order.Runs.{sent_in_order}
use websockets.Examples.EchoServer.{sends_back}
use websockets.Examples.EchoServer.Runs.{
  posted, Occurs, Runs, here, occurs, echoes, passes, Runs-Ordered,
}
use websockets.Examples.EchoServer.Posted.{Plain, Plain-insert}
use websockets.Examples.EchoServer.Waiting.{
  back, pending, pending-append, Owns, Owned, Owned-append, Owned-Descends, posted-Owned,
  posted-back,
}

record Paired (w : World) (queue : List (ℕ × Call)) (log : List (ℕ × Post)) : Type 0 where
  plain : Plain w.server.uris
  owned : Owned w.server queue
  kept : (k : ℕ) → Sublist (sent_to k log ++ pending k queue) (reads (w.sessions k).trace)

-- What was read comes to what was there, and what is posted to what is pending.
grown :
    (k : ℕ) (log made : List (ℕ × Post)) (queue more : List (ℕ × Call)) (before now : List Payload)
    → Sublist (sent_to k log ++ pending k queue) before
    → sent_to k made ≡ []
    → Sublist (pending k more) now
    → Sublist (sent_to k (log ++ made) ++ pending k (queue ++ more)) (before ++ now)
grown k log made queue more before now kept silent new =
    subst (λ l. Sublist l (before ++ now))
      (append_assoc (sent_to k log) (pending k queue) (pending k more)
        ∙ (ap (◌++◌ (sent_to k log)) (sym (pending-append k queue more))
            ∙ ap (λ l. l ++ pending k (queue ++ more))
                (sym (append-nil (sent_to k log))
                  ∙ (ap (◌++◌ (sent_to k log)) (sym silent) ∙ sym (sent_to-append k log made)))))
      (Sublist.append kept new)

-- A send to a client goes to the session that owns its id, if it goes anywhere.
sent_back :
    (s : Server) (k j : ℕ) (id : ℕ) (p : Payload)
    → Owns s j id
    → Sublist (sent_to k (posts_of (send_to_client s id p))) (if j == k then p ∷ [] else [])
unfolding send_to_client
sent_back s k j id p (below, its) = elim (Option-cases (lookup id s.clients)) [
  | inl e ↦ rw (e, send_to_client) (nil-sublist _)
  | inr (entry, e) ↦ rw (e, send_to_client, append-nil, its entry e) (Sublist.refl _)
]

-- What occurs adds no callback for what is received to a uri, and sends nothing.
Occurs-Plain :
    (e : Event) (uris : Assoc Text UriCallbacks)
    → Occurs e
    → Plain uris
    → Plain (uris_after e uris) × (is_send e ≡ false)
Occurs-Plain (adds_uri uri cbs) uris same p =
    (subst (λ c. Plain (insert uri c uris)) (sym same) (Plain-insert uris uri p), refl)
Occurs-Plain (removes_uri uri) uris never p = absurd never
Occurs-Plain (sends_to id payload) uris never p = absurd never
Occurs-Plain (broadcasts uri payload) uris never p = absurd never
Occurs-Plain (starts acceptor bound cbs) uris o p = (p, refl)
Occurs-Plain (accepted k) uris o p = (p, refl)
Occurs-Plain (refused k ec) uris o p = (p, refl)
Occurs-Plain (acts k e) uris o p = (p, refl)
Occurs-Plain (delivers n) uris o p = (p, refl)
Occurs-Plain stops uris o p = (p, refl)
Occurs-Plain shuts_down uris o p = (p, refl)
Occurs-Plain takes_id uris o p = (p, refl)
Occurs-Plain (removes id) uris o p = (p, refl)

event-Paired :
    (w : World) (queue : List (ℕ × Call)) (log : List (ℕ × Post)) (e : Event)
    → Paired w queue log
    → Sound w
    → Occurs e
    → Enabled w e
    → Whenever (λ v. Paired v (queue ++ posted w e) (log ++ fresh_posts e w v)) (step w e)
event-Paired w queue log e v sound own enabled =
    let (plain, quiet) = Occurs-Plain e w.server.uris own v.plain in
    go plain (step w e) (step-fixed w e) (step-Descends w e sound enabled) (λ k. step-Adds k w e)
      (λ k. step-Silent k w e quiet)
  where
    go :
        Plain (uris_after e w.server.uris)
        → (o : Option World)
        → Whenever (Like (record w.server { uris = uris_after e w.server.uris })) o
        → Whenever (λ u. Descends w.server u.server) o
        → ((k : ℕ) → Whenever (Adds k w (heard_at k e)) o)
        → ((k : ℕ) → Whenever (Silent k e w) o)
        → Whenever (λ u. Paired u (queue ++ posted w e) (log ++ fresh_posts e w u)) o
    go plain none f d adds silent = tt
    go plain (some u) f d adds silent = record {
      plain =
          subst Plain (sym (ap (λ (q : ServerSettings × Assoc Text UriCallbacks). q.1) f)) plain;
      owned =
          Owned-append u.server queue (posted w e)
            (Owned-Descends w.server u.server queue d v.owned)
            (Owned-Descends w.server u.server (posted w e) d
              (posted-Owned w sound e v.plain enabled));
      kept = λ k.
          subst (Sublist (sent_to k (log ++ fresh_posts e w u) ++ pending k (queue ++ posted w e)))
            (sym (adds k))
            (grown k log (fresh_posts e w u) queue (posted w e) (reads (w.sessions k).trace)
              (heard_at k e) (v.kept k) (silent k) (posted-back k w e v.plain));
    }

reply-Paired :
    (w : World) (queue : List (ℕ × Call)) (log : List (ℕ × Post)) (j : ℕ) (c : Call) (id : ℕ)
    (p : Payload)
    → Paired w ((j, c) ∷ queue) log
    → sends_back c ≡ some (id, p)
    → Whenever
        (λ v. Paired v queue (log ++ fresh_posts (sends_to id p) w v))
        (step w (sends_to id p))
unfolding step
reply-Paired w queue log j c id p v sent = record {
  plain = v.plain;
  owned = v.owned.1;
  kept = λ k.
      let made = posts_of (send_to_client w.server id p) in
      subst (λ l. Sublist (sent_to k (log ++ l) ++ pending k queue) (reads (w.sessions k).trace))
        (sym (drop-append w.inbox made))
        (subst (λ l. Sublist (l ++ pending k queue) (reads (w.sessions k).trace))
          (sym (sent_to-append k log made))
          (Sublist.trans
            (subst (λ l. Sublist l (sent_to k log ++ pending k ((j, c) ∷ queue)))
              (sym (append_assoc (sent_to k log) (sent_to k made) (pending k queue)))
              (Sublist.append (Sublist.refl (sent_to k log)) (
                Sublist.append (rw sent (sent_back w.server k j id p (v.owned.0 id p sent)))
                  (Sublist.refl (pending k queue)))))
            (v.kept k)));
}

new-Paired : (w : World) → IsNew w → Paired w [] []
unfolding new_server uri_handler lookup
new-Paired w n = record {
  plain =
      subst (λ (s : Server). Plain s.uris) (sym n.server_is_new)
        (record { messages = λ uri. refl; contents = λ uri. refl });
  owned = tt;
  kept = λ k. nil-sublist (reads (w.sessions k).trace);
}

Runs-Paired :
    {w : World} {queue : List (ℕ × Call)} {log : List (ℕ × Post)}
    → Runs w queue log
    → Paired w queue log
Runs-Paired (here {w} n) = new-Paired w n
Runs-Paired (occurs {w} {v} {queue} {log} e r own enabled in_order stepped) =
    subst (Whenever (λ u. Paired u (queue ++ posted w e) (log ++ fresh_posts e w u))) stepped (
      event-Paired w queue log e (Runs-Paired r) (Reach-Sound (Ordered-Reach (Runs-Ordered r))) own
        enabled)
Runs-Paired (echoes {w} {v} {queue} {log} k c id payload r sent stepped) =
    subst (Whenever (λ u. Paired u queue (log ++ fresh_posts (sends_to id payload) w u))) stepped
      (reply-Paired w queue log k c id payload (Runs-Paired r) sent)
Runs-Paired (passes {w} {queue} {log} k c r) =
    let v = Runs-Paired r in
    record {
      plain = v.plain;
      owned = v.owned.1;
      kept = λ j.
          Sublist.trans
            (Sublist.append (Sublist.refl (sent_to j log))
              (sublist-append_right (back j (k, c)) (pending j queue)))
            (v.kept j);
    }

-- In every run of the echo server and its clients in which the posts to each session run in the
-- order in which they were made, what a session has written to its client is among what it has read
-- from this client: text as text and bytes as bytes, in the same order, and none more often.
pub echoed_in_order :
    {w : World} {queue : List (ℕ × Call)} {log : List (ℕ × Post)} (k : ℕ)
    → Runs w queue log
    → Sublist (writes (w.sessions k).trace) (reads (w.sessions k).trace)
echoed_in_order {w} {queue} {log} k r =
    Sublist.trans (sent_in_order k (Runs-Ordered r)) (
      Sublist.trans (sublist-append_left (sent_to k log) (pending k queue))
        ((Runs-Paired r).kept k))

-- No uri of the echo server has a callback for what is received.
pub Runs-Plain :
    {w : World} {queue : List (ℕ × Call)} {log : List (ℕ × Post)}
    → Runs w queue log
    → Plain w.server.uris
Runs-Plain r = (Runs-Paired r).plain

pub Runs-Owned :
    {w : World} {queue : List (ℕ × Call)} {log : List (ℕ × Post)}
    → Runs w queue log
    → Owned w.server queue
Runs-Owned r = (Runs-Paired r).owned
