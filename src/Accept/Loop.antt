-- ===== src/Accept/Loop.antt =====
-- The accept loop of one acceptor, with what it has outstanding.
pub mod Safety
mod Tests
use websockets.Prelude.{
  ℕ, zero, suc, Bool-cases, Option-cases, ◌⊎◌, inl, inr, ◌+◌, ◌≤◌, ◌≡◌, ◌≢◌, refl, sym, ap, subst,
  ◌∙◌, Bool, true, false, not, ◌||◌, ◌&&◌, Option, none, some, List, [], ◌∷◌, ◌++◌, ◌==◌,
  if◌then◌else◌, length, arith, All, All-append,
}
use websockets.Server.{ServerSettings}
use websockets.Http.Connection.{request_expiry}
use websockets.Accept.{
  detect, ErrorCode, success, operation_aborted, other, fails, Action, async_accept, log_accept,
  async_detect_ssl, run_connection, has_ssl_context, on_detect, on_accept, do_accept,
  on_async_accept,
}

pub record Loop : Type 0 where
  -- the server is there, and the acceptor is open
  pub alive : Bool
  pub is_open : Bool
  pub accepting : Bool
  -- how many detections are outstanding, and how many have failed
  pub detecting : ℕ
  pub dropped : ℕ
  -- how many sockets the live server took, and the connections that were run, ssl or not
  pub sockets : ℕ
  pub connections : List Bool

pub data Event : Type 0 where
  accepts : ErrorCode → Event
  detects : ErrorCode → Bool → Event
  -- the acceptor is closed, by `Stop`; the server is destroyed
  closes dies : Event

-- One accept at a time on an acceptor; `none` means that this is violated.
pub start_action : Loop → Action → Option Loop
start_action l async_accept = if l.accepting then none else some (record l { accepting = true })
start_action l log_accept = some l
start_action l (async_detect_ssl expiry) = some (record l { detecting = l.detecting + 1 })
start_action l (run_connection is_ssl) =
    some (record l { connections = l.connections ++ is_ssl ∷ [] })

pub start_actions : Loop → List Action → Option Loop
unfolding start_action
start_actions l [] = some l
start_actions l (a ∷ rest) = elim (start_action l a) [
  | none ↦ none
  | some l' ↦ start_actions l' rest
]

-- The socket of a completed accept is taken, unless the handler returns early.
abbrev pub taken : Loop → ErrorCode → ℕ
taken l ec = if fails ec || (not l.alive || not l.is_open) then 0 else 1

pub fire : ServerSettings → Loop → Event → Option Loop
unfolding start_actions on_async_accept on_detect
fire settings l (accepts ec) =
    start_actions (record l { accepting = false; sockets = l.sockets + taken l ec })
      (on_async_accept settings l.alive l.is_open ec)
fire settings l (detects ec is_ssl) = elim l.detecting [
  | zero ↦ none
  | suc n ↦
      start_actions (record l { detecting = n; dropped = l.dropped + (if fails ec then 1 else 0) })
        (on_detect ec is_ssl)
]
fire settings l closes = some (record l { is_open = false })
fire settings l dies = some (record l { alive = false })

-- What may happen. An accept is aborted only when its acceptor is closed.
abbrev pub Enabled : Loop → Event → Type 0
Enabled l (accepts ec) = (l.accepting ≡ true) × (ec ≡ operation_aborted → l.is_open ≡ false)
Enabled l (detects ec is_ssl) = l.detecting ≢ 0
Enabled l _ = Unit

-- `Start` has called `DoAccept`.
pub new_loop : Loop
new_loop = record {
  alive = true;
  is_open = true;
  accepting = true;
  detecting = 0;
  dropped = 0;
  sockets = 0;
  connections = [];
}

pub data Reach (settings : ServerSettings) : Loop → Type 0 where
  here : {l : Loop} → l ≡ new_loop → Reach settings l
  next :
      {l k : Loop} (e : Event)
      → Reach settings l
      → Enabled l e
      → fire settings l e ≡ some k
      → Reach settings k

-- What the settings ask of a connection: plain without an ssl context, and ssl if it is required.
abbrev pub fits : ServerSettings → Bool → Bool
fits settings is_ssl =
    if has_ssl_context settings then is_ssl || not settings.ssl_required else not is_ssl

abbrev pub Fits : ServerSettings → Bool → Type 0
Fits settings is_ssl = fits settings is_ssl ≡ true
