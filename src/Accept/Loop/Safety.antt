-- ===== src/Accept/Loop/Safety.antt =====
-- The accept loop goes on, one accept at a time, and every socket is served.
use websockets.Prelude.{
  Ensures, ℕ, Bool-cases, ◌⊎◌, inl, inr, ◌+◌, ◌≡◌, ◌≢◌, refl, sym, subst, Bool, true, false, not,
  ◌||◌, Option, none, List, [], ◌∷◌, ◌++◌, length, arith, All, All-append,
}
use websockets.Server.{ServerSettings}
use websockets.Http.Connection.{request_expiry}
use websockets.Accept.{
  detect, ErrorCode, success, operation_aborted, other, async_detect_ssl, run_connection,
  has_ssl_context, on_accept, do_accept, on_async_accept,
}
use websockets.Accept.Loop.{
  Loop, Event, fire, Enabled, new_loop, Reach, Fits, accepts, detects, closes, dies, here, next,
}

record Inv (settings : ServerSettings) (l : Loop) : Type 0 where
  goes_on : l.alive ≡ true → l.is_open ≡ true → l.accepting ≡ true
  counted : l.sockets ≡ length l.connections + (l.detecting + l.dropped)
  fit : All (Fits settings) l.connections
  detects_only :
      l.detecting ≢ 0 → (has_ssl_context settings ≡ true) × (settings.ssl_required ≡ false)

length_snoc : (xs : List Bool) (x : Bool) → length (xs ++ x ∷ []) ≡ length xs + 1
length_snoc [] x = refl
length_snoc (y ∷ xs) x = omega (arith, length_snoc xs x)

All-snoc :
    (settings : ServerSettings) (xs : List Bool) (x : Bool)
    → All (Fits settings) xs
    → Fits settings x
    → All (Fits settings) (xs ++ x ∷ [])
All-snoc settings xs x h f = All-append (Fits settings) xs (x ∷ []) h (f, tt)

-- `OnAccept` starts one thing: a connection that fits, or a detection where both fit.
pub on_accept_cases :
    (settings : ServerSettings)
    → ((is_ssl : Bool) × (on_accept settings ≡ run_connection is_ssl ∷ []) × Fits settings is_ssl)
      ⊎ ((expiry : Option ℕ) × (on_accept settings ≡ async_detect_ssl expiry ∷ [])
          × (has_ssl_context settings ≡ true)
          × (settings.ssl_required ≡ false))
unfolding on_accept detect
on_accept_cases settings = elim (Bool-cases (has_ssl_context settings)) [
  | inr plain ↦ inl (false, rw (plain, on_accept), rw plain)
  | inl context ↦ elim (Bool-cases settings.ssl_required) [
    | inl required ↦ inl (true, rw (context, required, on_accept), rw context)
    | inr optional ↦
        inr (request_expiry settings, rw (context, optional, on_accept), context, optional)
  ]
]

accepted-Inv :
    (settings : ServerSettings) (l : Loop)
    → Inv settings l
    → (gone : Bool) → (not l.alive || not l.is_open) ≡ gone
    → Ensures (Inv settings) (fire settings l (accepts success))
unfolding fire on_async_accept do_accept
accepted-Inv settings l v true gone = rw gone (ground arith)
accepted-Inv settings l v false there = elim (on_accept_cases settings) [
  | inl (b, e, f) ↦
      rw (there, e)
        (ground (arith, length_snoc l.connections b, All-snoc settings l.connections b v.fit f))
  | inr (expiry, e, context, optional) ↦ rw (there, e) (ground arith)
]

accepts-Inv :
    (settings : ServerSettings) (l : Loop) (ec : ErrorCode)
    → Inv settings l
    → Enabled l (accepts ec)
    → Ensures (Inv settings) (fire settings l (accepts ec))
unfolding fire do_accept
accepts-Inv settings l success v e = accepted-Inv settings l v _ refl
accepts-Inv settings l operation_aborted v e = ground arith
accepts-Inv settings l other v e = ground arith

detects-Inv :
    (settings : ServerSettings) (l : Loop) (ec : ErrorCode) (is_ssl : Bool)
    → Inv settings l
    → Enabled l (detects ec is_ssl)
    → Ensures (Inv settings) (fire settings l (detects ec is_ssl))
unfolding fire
detects-Inv settings l ec is_ssl v e =
    ground (arith, length_snoc l.connections is_ssl, All-snoc settings l.connections is_ssl)

fire-Inv :
    (settings : ServerSettings) (l : Loop) (e : Event)
    → Inv settings l
    → Enabled l e
    → Ensures (Inv settings) (fire settings l e)
unfolding fire
fire-Inv settings l (accepts ec) v e = accepts-Inv settings l ec v e
fire-Inv settings l (detects ec is_ssl) v e = detects-Inv settings l ec is_ssl v e
fire-Inv settings l closes v e = ground arith
fire-Inv settings l dies v e = ground arith

new_loop-Inv : (settings : ServerSettings) → Inv settings new_loop
unfolding new_loop
new_loop-Inv settings = ground arith

Reach-Inv : (settings : ServerSettings) {l : Loop} → Reach settings l → Inv settings l
Reach-Inv settings (here same) = subst (Inv settings) (sym same) (new_loop-Inv settings)
Reach-Inv settings (next {l} e r enabled step) =
    subst (Ensures (Inv settings)) step (fire-Inv settings l e (Reach-Inv settings r) enabled)

-- In every state that the accept loop can reach, whatever may happen next is handled without a
-- second accept on the acceptor.
accept_loop_safe :
    (settings : ServerSettings) {l : Loop} (e : Event)
    → Reach settings l
    → Enabled l e
    → fire settings l e ≢ none
accept_loop_safe settings {l} e r enabled stuck =
    subst (Ensures (Inv settings)) stuck (fire-Inv settings l e (Reach-Inv settings r) enabled)

-- As long as the server is there and its acceptor open, an accept is outstanding, whatever errors
-- there were.
pub accept_loop_continues :
    (settings : ServerSettings) {l : Loop}
    → Reach settings l
    → l.alive ≡ true
    → l.is_open ≡ true
    → l.accepting ≡ true
accept_loop_continues settings r = (Reach-Inv settings r).goes_on

-- Every socket that the server took was made a connection, or is being detected, or its detection
-- failed; and the connections fit the settings: none is over ssl without an ssl context, and none
-- in plain if ssl is required.
pub sockets_served :
    (settings : ServerSettings) {l : Loop}
    → Reach settings l
    → (l.sockets ≡ length l.connections + (l.detecting + l.dropped))
      × All (Fits settings) l.connections
sockets_served settings r = let v = Reach-Inv settings r in (v.counted, v.fit)
