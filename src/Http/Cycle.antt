-- ===== src/Http/Cycle.antt =====
-- The request cycle of a connection: one operation at a time, and one response to each request.
pub mod Stream
mod Tests
use websockets.Prelude.{
  Ensures, ℕ, ◌+◌, ◌≤◌, ◌<◌, ◌≡◌, ◌≢◌, ◌↔◌, ◌⊎◌, refl, subst, Bool, true, false, ◌||◌, List, [],
  ◌∷◌, Option, none, some, if◌then◌else◌, arith, if_elim, Option-cases, inl, inr,
}
use websockets.Server.{Server}
use websockets.Target.{parse_target}
use websockets.Server.Routing.{upgrade_allowed, find_http_handler}
use websockets.Server.Clients.{take_connection_id}
use websockets.Http.{HttpMsg}
use websockets.Http.Wrapper.{HttpWrapper}
use websockets.Http.Connection.{
  ErrorCode, success, end_of_stream, operation_aborted, timeout, other, fails, HttpRequest,
  HttpResponse, Action, async_handshake, async_read, async_write, accept_session, post_request,
  log_unexpected, uncaught, run, on_handshake, send_response, on_write, on_read, handle_upgrade,
  handle_http_request, read_log, log_unexpected_error,
}
use websockets.Http.Connection.Starts.{Starts, read-Starts}

-- What the connection waits for.
pub record Conn : Type 0 where
  pub ssl : Bool
  pub shaking : Bool
  pub reading : Bool
  -- a handler has the wrapper, and has not replied
  pub waiting : Bool
  pub writing : Option HttpResponse
  -- an exception has left the IO thread, and ended the program
  pub terminated : Bool
  -- how many requests were read that are no upgrade which was taken, and how many responses begun
  pub requests : ℕ
  pub responses : ℕ

pub data Event : Type 0 where
  handshake_done : ErrorCode → Event
  read_done : Option Server → ErrorCode → HttpRequest → Event
  -- the response that the wrapper posts
  replied : HttpMsg → Event
  write_done : ErrorCode → Event

abbrev pub is_writing : Option HttpResponse → Bool
is_writing none = false
is_writing (some r) = true

-- Another operation is outstanding.
abbrev pub busy : Conn → Bool
busy c = c.shaking || (c.reading || (c.waiting || is_writing c.writing))

-- Beast wants one operation at a time on this stream; `none` means that this is violated.
unfoldable pub start_action : Conn → Action → Option Conn
start_action c async_handshake = if busy c then none else some (record c { shaking = true })
start_action c async_read = if busy c then none else some (record c { reading = true })
start_action c (async_write r) =
    if busy c then none else some (record c { writing = some r; responses = c.responses + 1 })
start_action c (post_request handler wrapper) =
    if busy c then none else some (record c { waiting = true })
start_action c (accept_session request) = if busy c then none else some c
start_action c uncaught = some (record c { terminated = true })
start_action c _ = some c

unfoldable pub start_actions : Conn → List Action → Option Conn
unfolding start_action
start_actions c [] = some c
start_actions c (a ∷ rest) = elim (start_action c a) [
  | none ↦ none
  | some c' ↦ start_actions c' rest
]

-- A request that this connection has to answer: it was read, and no session took it.
abbrev pub answered_here : List Action → ℕ
answered_here [] = 0
answered_here (async_write r ∷ rest) = 1
answered_here (post_request handler wrapper ∷ rest) = 1
answered_here (a ∷ rest) = answered_here rest

unfoldable pub fire : Conn → Event → Option Conn
unfolding start_actions on_handshake on_read send_response on_write
fire c (handshake_done ec) = start_actions (record c { shaking = false }) (on_handshake ec)
fire c (read_done server ec request) =
    let actions = (on_read server ec request).1 in
    start_actions (record c { reading = false; requests = c.requests + answered_here actions })
      actions
fire c (replied msg) = start_actions (record c { waiting = false }) (send_response msg)
fire c (write_done ec) = elim c.writing [
  | none ↦ none
  | some r ↦ start_actions (record c { writing = none }) (on_write c.ssl r ec)
]

-- What may happen, while the program runs: the completion of an operation that is outstanding, or
-- the reply of a wrapper that a handler holds.
abbrev pub Enabled : Conn → Event → Type 0
Enabled c (handshake_done ec) = (c.terminated ≡ false) × (c.shaking ≡ true)
Enabled c (read_done server ec request) = (c.terminated ≡ false) × (c.reading ≡ true)
Enabled c (replied msg) = (c.terminated ≡ false) × (c.waiting ≡ true)
Enabled c (write_done ec) = (c.terminated ≡ false) × (is_writing c.writing ≡ true)

-- A reply that Beast does not take: its status has more than three digits, or has no body and is
-- given one.
abbrev pub Refused : Event → Type 0
Refused (replied msg) =
    let status = msg.response_code in
    (999 < status)
    ⊎ ((((100 ≤ status) × (status < 200)) ⊎ ((status ≡ 204) ⊎ (status ≡ 304))) × (msg.body ≢ []))
Refused _ = ⊥

abbrev count : Bool → ℕ
count b = if b then 1 else 0

pub record Inv (c : Conn) : Type 0 where
  one : count c.shaking + (count c.reading + (count c.waiting + count (is_writing c.writing))) ≤ 1
  matched : c.responses + (count c.waiting + count c.terminated) ≡ c.requests

-- What an event leaves: the invariant, and whether the program has ended.
abbrev After : Event → Conn → Type 0
After e d = Inv d × ((d.terminated ≡ true) ↔ Refused e)

-- An event that does not end the program.
abbrev Goes : Conn → Type 0
Goes d = Inv d × (d.terminated ≡ false)

Goes-After : (e : Event) (o : Option Conn) → ¬ Refused e → Ensures Goes o → Ensures (After e) o
Goes-After e none fine v = v
Goes-After e (some d) fine (v, goes) = (v, ((λ ended. cc), λ refused. absurd (fine refused)))

handshake-Goes :
    (c : Conn) (ec : ErrorCode)
    → Inv c
    → Enabled c (handshake_done ec)
    → Ensures Goes (fire c (handshake_done ec))
unfolding fire
handshake-Goes c ec v e = ground arith

write-Goes :
    (c : Conn) (ec : ErrorCode)
    → Inv c
    → Enabled c (write_done ec)
    → Ensures Goes (fire c (write_done ec))
unfolding fire
write-Goes c ec v e = ground arith

reply-After :
    (c : Conn) (msg : HttpMsg)
    → Inv c
    → Enabled c (replied msg)
    → Ensures (After (replied msg)) (fire c (replied msg))
unfolding fire
reply-After c msg v e = ground arith

started-Goes :
    (c : Conn) (actions : List Action)
    → Inv c
    → (c.terminated ≡ false) × (c.reading ≡ true)
    → Starts actions
    → Ensures Goes (
        start_actions
          (record c { reading = false; requests = c.requests + answered_here actions })
          actions)
unfolding start_actions
started-Goes c [] v e s = ground arith
started-Goes c (async_write r ∷ []) v e s = ground arith
started-Goes c (post_request handler wrapper ∷ []) v e s = ground arith
started-Goes c (accept_session request ∷ []) v e s = ground arith
started-Goes c (log_unexpected ∷ []) v e s = ground arith
started-Goes c (_ ∷ _) v e s = absurd s

fire-After : (c : Conn) (e : Event) → Inv c → Enabled c e → Ensures (After e) (fire c e)
unfolding fire
fire-After c (handshake_done ec) v e =
    Goes-After (handshake_done ec) (fire c (handshake_done ec)) (λ r. r) (handshake-Goes c ec v e)
fire-After c (read_done s ec r) v e =
    Goes-After (read_done s ec r) (fire c (read_done s ec r)) (λ q. q)
      (started-Goes c (on_read s ec r).1 v e (read-Starts s ec r))
fire-After c (replied msg) v e = reply-After c msg v e
fire-After c (write_done ec) v e =
    Goes-After (write_done ec) (fire c (write_done ec)) (λ r. r) (write-Goes c ec v e)

-- A connection before `Run`, and after it.
unfoldable pub new_conn : Bool → Conn
new_conn ssl = record {
  ssl = ssl;
  shaking = false;
  reading = false;
  waiting = false;
  writing = none;
  terminated = false;
  requests = 0;
  responses = 0;
}

pub data Reach (ssl : Bool) : Conn → Type 0 where
  runs : {c : Conn} → start_actions (new_conn ssl) (run ssl) ≡ some c → Reach ssl c
  next : {c d : Conn} (e : Event) → Reach ssl c → Enabled c e → fire c e ≡ some d → Reach ssl d

pub run-Inv : (ssl : Bool) → Ensures Inv (start_actions (new_conn ssl) (run ssl))
unfolding start_actions new_conn run
run-Inv true = ground arith
run-Inv false = ground arith

Reach-Inv : (ssl : Bool) {c : Conn} → Reach ssl c → Inv c
Reach-Inv ssl (runs e) = subst (Ensures Inv) e (run-Inv ssl)
Reach-Inv ssl (next {c} e r enabled step) =
    (subst (Ensures (After e)) step (fire-After c e (Reach-Inv ssl r) enabled)).0

-- In every state that a connection can reach, whatever may happen next is handled with at most one
-- operation of the stream at a time. An exception leaves the IO thread, and ends the program, for a
-- reply that Beast refuses, and for nothing else: its status is above 999, or it has a body with a
-- status 1xx, 204 or 304.
pub conn_safe :
    (ssl : Bool) {c : Conn} (e : Event)
    → Reach ssl c
    → Enabled c e
    → (d : Conn) × (fire c e ≡ some d) × ((d.terminated ≡ true) ↔ Refused e)
conn_safe ssl {c} e r enabled = go (fire c e) refl (fire-After c e (Reach-Inv ssl r) enabled)
  where
    go :
        (o : Option Conn)
        → fire c e ≡ o
        → Ensures (After e) o
        → (d : Conn) × (fire c e ≡ some d) × ((d.terminated ≡ true) ↔ Refused e)
    go none fired v = absurd v
    go (some d) fired (v, ended) = (d, fired, ended)

-- The responses begun are as many as the requests to be answered, less one while a handler has not
-- replied, or if its reply was refused.
responses_matched :
    (ssl : Bool) {c : Conn}
    → Reach ssl c
    → c.responses + (count c.waiting + count c.terminated) ≡ c.requests
responses_matched ssl r = (Reach-Inv ssl r).matched
