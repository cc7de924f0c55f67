-- ===== src/Session/Strand/Reads.antt =====
-- What a session has read of its client.
use websockets.Prelude.{
  Whenever, ◌≡◌, refl, ap, none, some, List, [], ◌∷◌, ◌++◌, if◌then◌else◌, arith, append-nil,
}
use websockets.Payload.{Payload, text, content}
use websockets.Session.{
  fails, Action, on_message, on_content, on_send, on_close, on_accept, on_read, on_write,
}
use websockets.Session.Strand.{
  Strand, Event, accept_done, send, close, read_done, write_done, close_done, fire,
}

-- The payloads that were reported to the server.
abbrev pub reads : List Action → List Payload
reads [] = []
reads (on_message id m ∷ rest) = text m ∷ reads rest
reads (on_content id m ∷ rest) = content m ∷ reads rest
reads (_ ∷ rest) = reads rest

reads-append : (xs ys : List Action) → reads (xs ++ ys) ≡ reads xs ++ reads ys
reads-append [] ys = refl
reads-append (on_message id m ∷ xs) ys = ap (◌∷◌ (text m)) (reads-append xs ys)
reads-append (on_content id m ∷ xs) ys = ap (◌∷◌ (content m)) (reads-append xs ys)
reads-append (x ∷ xs) ys = reads-append xs ys

-- What the handler of an event reads.
abbrev pub heard : Event → List Payload
heard (read_done ec got_text m) =
    if fails ec then [] else (if got_text then text m else content m) ∷ []
heard _ = []

ruleset read_laws = (arith, reads-append, append-nil)

module _ (t : Strand) where
  pub fire-reads : (e : Event) → Whenever (λ u. reads u.trace ≡ reads t.trace ++ heard e) (fire t e)
  unfolding fire on_accept on_send on_close on_read on_write
  fire-reads (accept_done ec none) = grind read_laws
  fire-reads (accept_done ec (some id)) = grind read_laws
  fire-reads (send p) = grind read_laws
  fire-reads close = grind read_laws
  fire-reads (read_done ec b m) = grind read_laws
  fire-reads (write_done ec) = grind read_laws
  fire-reads close_done = grind read_laws
