-- ===== src/Accept/Loop/Tests.antt =====
-- A run of the accept loop of a server that requires ssl.
use websockets.Prelude.{◌+◌, ◌≡◌, refl, true, Option, none, some, length, All}
use websockets.Server.{ServerSettings, default_settings}
use websockets.Accept.{success, other}
use websockets.Accept.Loop.Safety.{accept_loop_continues, sockets_served}
use websockets.Accept.Loop.{Loop, accepts, new_loop, fire, Fits, Reach, here, next}

abbrev secure : ServerSettings
secure = record default_settings { ssl_context = some (some 1); ssl_required = true }

abbrev or_new : Option Loop → Loop
or_new none = new_loop
or_new (some l) = l

-- An accept fails, and the next one brings a socket.
abbrev failed_once : Loop
failed_once = or_new (fire secure new_loop (accepts other))

abbrev served : Loop
served = or_new (fire secure failed_once (accepts success))

served-Reach : Reach secure served
unfolding fire new_loop
served-Reach =
    next (accepts success) (next (accepts other) (here refl) (refl, λ e. cc) refl) (refl, λ e. cc)
      refl

accept_loop_continues_example : served.accepting ≡ true
unfolding fire new_loop
accept_loop_continues_example = accept_loop_continues secure served-Reach refl refl

sockets_served_example :
    (served.sockets ≡ length served.connections + (served.detecting + served.dropped))
    × All (Fits secure) served.connections
sockets_served_example = sockets_served secure served-Reach
