-- ===== src/Http/Cycle/Stream.antt =====
-- A connection keeps the kind of its stream.
use websockets.Prelude.{
  Ensures, Whenever, ◌≡◌, refl, sym, subst, ◌∙◌, Bool, false, Option, none, some, List, [], ◌∷◌,
  arith,
}
use websockets.Http.Connection.{
  Action, async_handshake, async_read, async_shutdown, shutdown_send, async_write, accept_session,
  post_request, log_unexpected, uncaught, HttpResponse, run, send_response, on_handshake, on_write,
  on_read,
}
use websockets.Http.Cycle.{
  Conn, Event, handshake_done, read_done, replied, write_done, start_action, start_actions, fire,
  new_conn, Reach, runs, next, run-Inv, Inv, conn_safe, Enabled,
}

abbrev Same : Conn → Conn → Type 0
Same c d = d.ssl ≡ c.ssl

action-Same : (c : Conn) (a : Action) → Whenever (Same c) (start_action c a)
unfolding start_action
action-Same c async_handshake = ground arith
action-Same c async_read = ground arith
action-Same c async_shutdown = refl
action-Same c shutdown_send = refl
action-Same c (async_write r) = ground arith
action-Same c (accept_session request) = ground arith
action-Same c (post_request handler wrapper) = ground arith
action-Same c log_unexpected = refl
action-Same c uncaught = refl

actions-Same : (c : Conn) (actions : List Action) → Whenever (Same c) (start_actions c actions)
unfolding start_actions
actions-Same c [] = refl
actions-Same c (a ∷ rest) = go (start_action c a) (action-Same c a) (λ d. actions-Same d rest)
  where
    go :
        (o : Option Conn)
        → Whenever (Same c) o
        → ((d : Conn) → Whenever (Same d) (start_actions d rest))
        → Whenever
            (Same c)
            (elim o as (λ _. Option Conn) [ none ↦ none | some d ↦ start_actions d rest ])
    go none s later = tt
    go (some d) s later = onward (start_actions d rest) (later d)
      where
        onward : (p : Option Conn) → Whenever (Same d) p → Whenever (Same c) p
        onward none t = tt
        onward (some e) t = t ∙ s

fire-Same : (c : Conn) (e : Event) → Whenever (Same c) (fire c e)
unfolding fire
fire-Same c (handshake_done ec) = actions-Same (record c { shaking = false }) (on_handshake ec)
fire-Same c (read_done server ec request) =
    actions-Same (record c { reading = false; requests = _ }) (on_read server ec request).1
fire-Same c (replied msg) = actions-Same (record c { waiting = false }) (send_response msg)
fire-Same c (write_done ec) = written c.writing
  where
    written :
        (o : Option HttpResponse)
        → Whenever (Same c) (elim o as (λ _. Option Conn) [
          | none ↦ none
          | some r ↦ start_actions (record c { writing = none }) (on_write c.ssl r ec)
        ])
    written none = tt
    written (some r) = actions-Same (record c { writing = none }) (on_write c.ssl r ec)

Reach-ssl : (ssl : Bool) {c : Conn} → Reach ssl c → c.ssl ≡ ssl
unfolding new_conn
Reach-ssl ssl (runs e) =
    subst (Whenever (Same (new_conn ssl))) e (actions-Same (new_conn ssl) (run ssl))
Reach-ssl ssl (next {c} e r enabled step) =
    subst (Whenever (Same c)) step (fire-Same c e) ∙ Reach-ssl ssl r

-- A run of a connection, with the kind of its own stream.
abbrev pub Runs : Conn → Type 0
Runs c = Reach c.ssl c

Reach-Runs : (ssl : Bool) {c : Conn} → Reach ssl c → Runs c
Reach-Runs ssl {c} r = subst (λ b. Reach b c) (sym (Reach-ssl ssl r)) r

pub run-Runs :
    (ssl : Bool) → Ensures (λ c. (c.ssl ≡ ssl) × Runs c) (start_actions (new_conn ssl) (run ssl))
run-Runs ssl = go (start_actions (new_conn ssl) (run ssl)) refl (run-Inv ssl)
  where
    go :
        (o : Option Conn)
        → start_actions (new_conn ssl) (run ssl) ≡ o
        → Ensures Inv o
        → Ensures (λ c. (c.ssl ≡ ssl) × Runs c) o
    go none e v = v
    go (some c) e v = (Reach-ssl ssl (runs e), Reach-Runs ssl (runs e))

-- An event of a running connection goes well, and the connection runs on or has ended the program.
pub fire-Runs :
    (c : Conn) (e : Event)
    → Runs c
    → Enabled c e
    → Ensures (λ d. (d.ssl ≡ c.ssl) × Runs d) (fire c e)
fire-Runs c e r enabled =
    let (d, fired, ended) = conn_safe c.ssl e r enabled in
    subst (Ensures (λ d. (d.ssl ≡ c.ssl) × Runs d)) (sym fired)
      (subst (Whenever (Same c)) fired (fire-Same c e), Reach-Runs c.ssl (next e r enabled fired))
