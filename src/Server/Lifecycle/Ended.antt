-- ===== src/Server/Lifecycle/Ended.antt =====
-- The server after `Shutdown`.
use websockets.Prelude.{
  ℕ, ◌≡◌, ◌≢◌, refl, sym, ap, subst, ◌∙◌, Bool, true, Option, none, some, List, [], ◌∷◌, ◌++◌,
  if_elim, arith, Option-cases, inl, inr,
}
use websockets.Text.{Text}
use websockets.Assoc.{lookup, nat_key}
use websockets.Server.{Server, ServerSettings, ClientCallbacks, ClientEntry, new_server}
use websockets.Server.Clients.{
  start, start_locked, failed, is_shut_down, register_ws_client, register_locked, on_ws_closed,
  stop_locked, release_client, add_uri, remove_uri, take_connection_id,
}
use websockets.Server.Lifecycle.{
  System, Event, starts, stops, shuts_down, takes_id, registers, closes, removes, notifies,
  adds_uri, removes_uri, pick, stop_section, remove_section, notify_section, shut_down_section,
  step, run, new_system, after_start,
}

-- A server that is shut down does not listen and has no clients.
abbrev Settled : Server → Type 0
Settled s = s.shutdown ≡ true → (s.acceptor ≡ none) × (s.clients ≡ [])

-- Once shut down, always so.
abbrev Final : Server → Server → Type 0
Final s s' = s.shutdown ≡ true → s'.shutdown ≡ true

-- Both, of a change.
abbrev Goes : Server → Server → Type 0
Goes s s' = Settled s' × Final s s'

start-Goes :
    (sys : System) (acceptor : ℕ) (bound : Option ℕ) (cbs : ClientCallbacks)
    → Settled sys.server
    → Goes sys.server (after_start sys (start sys.server acceptor bound cbs)).server
unfolding start start_locked
start-Goes sys acceptor none cbs v = ground arith
start-Goes sys acceptor (some port) cbs v = ground arith

register-Goes :
    (s : Server) (session : ℕ) (target : Text) (is_ssl : Bool)
    → Settled s
    → Goes s (register_ws_client s session target is_ssl).0
unfolding register_ws_client register_locked
register-Goes s session target is_ssl v = ground arith

nobody :
    (s : Server) (id : ℕ) {e : ClientEntry}
    → Settled s
    → lookup id s.clients ≡ some e
    → s.shutdown ≢ true
unfolding lookup
nobody s id v found h = cc (sym found ∙ ap (lookup id) (v h).1)

released-Goes :
    (s : Server) (id : ℕ) (e : ClientEntry)
    → Settled s
    → lookup id s.clients ≡ some e
    → Goes s (release_client s id e)
unfolding release_client
released-Goes s id e v found = ((λ h. absurd (nobody s id v found h)), λ h. h)

step-Goes : (sys : System) (e : Event) → Settled sys.server → Goes sys.server (step sys e).server
unfolding step stop_section remove_section notify_section shut_down_section stop_locked on_ws_closed
    add_uri remove_uri take_connection_id
step-Goes sys (starts acceptor bound cbs) v = start-Goes sys acceptor bound cbs v
step-Goes sys stops v = ((λ h. (refl, refl)), λ h. h)
step-Goes sys shuts_down v =
    if_elim (λ (s' : System). Goes sys.server s'.server) sys.server.shutdown (λ _. (v, λ h. h))
      (λ _. ((λ h. (refl, refl)), λ h. refl))
step-Goes sys takes_id v = (v, λ h. h)
step-Goes sys (registers session target is_ssl) v = register-Goes sys.server session target is_ssl v
step-Goes sys (closes id) v = elim (Option-cases (lookup id sys.server.clients)) [
  | inl e ↦ rw (e, on_ws_closed) (v, λ h. h)
  | inr (entry, e) ↦ rw (e, on_ws_closed) (released-Goes sys.server id entry v e)
]
step-Goes sys (removes id) v = elim (Option-cases (lookup id sys.server.clients)) [
  | inl e ↦ rw (e, remove_section) (v, λ h. h)
  | inr (entry, e) ↦ rw (e, remove_section) (released-Goes sys.server id entry v e)
]
step-Goes sys (notifies n) v = elim (Option-cases (pick n sys.pending)) [
  | inl e ↦ rw (e, notify_section) (v, λ h. h)
  | inr (p, e) ↦ rw (e, notify_section) (v, λ h. h)
]
step-Goes sys (adds_uri uri cbs) v = (v, λ h. h)
step-Goes sys (removes_uri uri) v = (v, λ h. h)

run-Goes :
    (sys : System) (es : List Event) → Settled sys.server → Goes sys.server (run sys es).server
unfolding run
run-Goes sys [] v = (v, λ h. h)
run-Goes sys (e ∷ es) v =
    let (v', f) = step-Goes sys e v in
    let (v'', g) = run-Goes (step sys e) es v' in (v'', λ h. g (f h))

shut_down-flag : (sys : System) → (step sys shuts_down).server.shutdown ≡ true
unfolding step shut_down_section stop_section stop_locked
shut_down-flag sys = ground arith

run-append : (sys : System) (xs ys : List Event) → run sys (xs ++ ys) ≡ run (run sys xs) ys
unfolding run
run-append sys [] ys = refl
run-append sys (x ∷ xs) ys = run-append (step sys x) xs ys

-- After `Shutdown`, whatever came before it and comes after it, the server has no acceptor and no
-- client, `Start` fails with the error that the server is shut down, and every registration of a
-- session is rejected: it changes nothing, makes no callback, and gives the id 0.
pub run-shut_down :
    (settings : ServerSettings) (before later : List Event)
    → let s = (run (new_system settings) (before ++ shuts_down ∷ later)).server in
      (s.acceptor ≡ none)
      × (s.clients ≡ [])
      × ((acceptor : ℕ) (bound : Option ℕ) (cbs : ClientCallbacks)
          → start s acceptor bound cbs ≡ failed is_shut_down)
      × ((session : ℕ) (target : Text) (is_ssl : Bool)
          → register_ws_client s session target is_ssl ≡ (s, 0, []))
unfolding new_system new_server run start register_ws_client
run-shut_down settings before later =
    let v : Settled (new_system settings).server = λ h. cc in
    let there = run (new_system settings) before in
    let middle = step there shuts_down in
    let (v1, f1) = run-Goes (new_system settings) before v in
    let (v2, f2) = step-Goes there shuts_down v1 in
    let (v3, f3) = run-Goes middle later v2 in
    let flag = f3 (shut_down-flag there) in
    subst
      (λ (sys : System).
        let s = sys.server in
        (s.acceptor ≡ none)
        × (s.clients ≡ [])
        × ((acceptor : ℕ) (bound : Option ℕ) (cbs : ClientCallbacks)
            → start s acceptor bound cbs ≡ failed is_shut_down)
        × ((session : ℕ) (target : Text) (is_ssl : Bool)
            → register_ws_client s session target is_ssl ≡ (s, 0, [])))
      (sym (run-append (new_system settings) before (shuts_down ∷ later)))
      (
        (v3 flag).0,
        (v3 flag).1,
        (λ acceptor bound cbs. rw (flag, start)),
        (λ session target is_ssl. rw (flag, register_ws_client)),
      )
