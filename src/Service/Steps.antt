-- ===== src/Service/Steps.antt =====
-- Every event keeps the strands sound and the clients linked to their sessions.
use websockets.Prelude.{
  ℕ, refl, sym, subst, true, Option, none, some, List, [], ◌∷◌, ◌++◌, if◌then◌else◌, arith, inl,
  inr, if_elim,
}
use websockets.Text.{Text}
use websockets.Assoc.{Assoc}
use websockets.Server.{Server, ClientCallbacks, UriCallbacks, accept_next}
use websockets.Server.Clients.{
  register_ws_client, start, start_locked, is_some, StartResult, started, failed, cannot_listen,
  already_started, add_uri, remove_uri, take_connection_id,
}
use websockets.Server.Clients.Invariant.{
  start_locked-WellFormed, take_connection_id-WellFormed, flags-WellFormed, succ_id,
}
use websockets.Server.Lifecycle.{pick}
use websockets.Session.{ErrorCode, success}
use websockets.Session.Strand.{Strand, accept_done, fire, new_strand}
use websockets.Session.Strand as Strand
use websockets.Session.Strand.Safety.{fire-Inv}
use websockets.Session.Strand.Face.{face_of, Ends, Same, Opens}
use websockets.Session.Strand.Face.Fires.{
  internal-Shows, send-Shows, close-Shows, accept-Shows, refuse-Shows,
}
use websockets.Service.{
  World, Event, Post, sends, closes, set, handler_of, hear, ran, after_start, step, Enabled,
  accepted, refused, acts, delivers, starts, stops, shuts_down, takes_id, removes, sends_to,
  broadcasts, adds_uri, removes_uri,
}
use websockets.Service.Links.{Linked, Linked-posted, Linked-server, Linked-asked, Linked-delivered}
use websockets.Service.Links.Ends.{Linked-ended, Linked-removed, Linked-stopped, Linked-shut_down}
use websockets.Service.Links.Enters.{Linked-accepted}
use websockets.Service.Sound.{faces, Sound, Keeps, set_same, ran-Sound, Left, Left-pick}

module _ (w : World) (v : Sound w) where
  accepted-Sound : (k : ℕ) → Enabled w (accepted k) → Keeps (step w (accepted k))
  unfolding step
  accepted-Sound k (waits, room) =
      let t = w.sessions k in
      let r = register_ws_client w.server k t.session.target t.session.is_ssl in
      ran-Sound (record w { server = r.0 }) k (Opens (face_of t.session) r.1) _ v.strands
        (fire-Inv t (accept_done success (some r.1)) (v.strands k) waits) (accept-Shows t r.1)
        (λ g reported (nothing, o, i, c, z).
          subst (λ ids. Linked (hear r.0 ids) (set (faces w.sessions) k g) w.inbox) (sym nothing)
            (Linked-accepted w.server (faces w.sessions) w.inbox v.linked k g
              ((v.strands k).fresh waits).0 t.session.target t.session.is_ssl room
              (refl, o, i, c, z)))

  refused-Sound :
      (k : ℕ) (ec : ErrorCode) → Enabled w (refused k ec) → Keeps (step w (refused k ec))
  unfolding step
  refused-Sound k ec (waits, fail) =
      let t = w.sessions k in
      ran-Sound w k (Same (face_of t.session)) _ v.strands
        (fire-Inv t (accept_done ec (some 0)) (v.strands k) waits) (refuse-Shows t ec 0 fail)
        (λ g reported (same, nothing). rw (same, nothing, set_same (faces w.sessions) k) v.linked)

  acts-Sound : (k : ℕ) (e : Strand.Event) → Enabled w (acts k e) → Keeps (step w (acts k e))
  unfolding step
  acts-Sound k e (internal, enabled) =
      let t = w.sessions k in
      ran-Sound w k (Ends (face_of t.session)) _ v.strands (fire-Inv t e (v.strands k) enabled)
        (internal-Shows t e internal)
        (λ g reported outcome. elim outcome [
          | inl (same, nothing) ↦ rw (same, nothing, set_same (faces w.sessions) k) v.linked
          | inr (open_, closed, told) ↦
              rw (closed, told) (Linked-ended w.server (faces w.sessions) w.inbox v.linked k open_)
        ])

  -- One of the posts runs, which `o` is with those that remain.
  delivered-Sound :
      (o : Option ((ℕ × Post) × List (ℕ × Post)))
      → ((j : ℕ) → Left j w.inbox o)
      → Keeps (elim o as (λ _. Option World) [
        | none ↦ some w
        | some ((k, p), rest) ↦
            ran (record w { inbox = rest }) k (fire (w.sessions k) (handler_of p))
      ])
  delivered-Sound none left = v
  delivered-Sound (some ((k, sends p), rest)) left =
      let t = w.sessions k in
      ran-Sound (record w { inbox = rest }) k (Same (face_of t.session)) _ v.strands
        (fire-Inv t (Strand.send p) (v.strands k) tt) (send-Shows t p)
        (λ g reported (same, nothing).
          rw (same, nothing, set_same (faces w.sessions) k)
            (Linked-delivered w.server (faces w.sessions) w.inbox v.linked rest
              (λ j h. elim (left j h) [ inl (other, its) ↦ cc | inr waits ↦ waits ])))
  delivered-Sound (some ((k, closes), rest)) left =
      let t = w.sessions k in
      ran-Sound (record w { inbox = rest }) k
        (Same (record (face_of t.session) { close_requested = true })) _ v.strands
        (fire-Inv t Strand.close (v.strands k) tt) (close-Shows t)
        (λ g reported (same, nothing).
          rw (same, nothing)
            (Linked-asked w.server (faces w.sessions) w.inbox v.linked k rest (λ j other h.
              elim (left j h) [ inl (_, its) ↦ absurd (other (sym its)) | inr waits ↦ waits ])))

  -- A server with the same clients, and posts that were made to them.
  served :
      (s' : Server) (more : List (ℕ × Post))
      → Linked s' (faces w.sessions) (w.inbox ++ more)
      → Sound (record w { server = s'; inbox = w.inbox ++ more })
  served s' more l = record { strands = v.strands; linked = l }

  started-Sound :
      (acceptor : ℕ) (bound : Option ℕ) (cbs : ClientCallbacks)
      → Sound (after_start w (start w.server acceptor bound cbs))
  unfolding start start_locked
  started-Sound acceptor bound cbs =
      if_elim (λ r. Sound (after_start w r)) w.server.shutdown (λ _. v) (λ _. opened bound)
    where
      opened :
          (bound : Option ℕ)
          → Sound (
              after_start w (elim bound as (λ _. StartResult) [
                | none ↦ failed cannot_listen
                | some port ↦
                    if is_some w.server.acceptor
                    then failed already_started
                    else started
                        (start_locked w.server acceptor port cbs)
                        (accept_next acceptor ∷ [])
              ]))
      opened none = v
      opened (some port) =
          if_elim (λ r. Sound (after_start w r)) (is_some w.server.acceptor) (λ _. v)
            (λ _. served _ [] (
              Linked-posted _ _ _
                (Linked-server w.server (faces w.sessions) w.inbox v.linked _
                  (start_locked-WellFormed w.server v.linked.well acceptor port cbs) refl
                  (omega arith))
                []))

  taken-Sound : Enabled w takes_id → Sound (record w { server = (take_connection_id w.server).0 })
  unfolding take_connection_id
  taken-Sound room = record {
    strands = v.strands;
    linked =
        Linked-server w.server (faces w.sessions) w.inbox v.linked _
          (take_connection_id-WellFormed w.server v.linked.well room) refl
          (omega (arith, succ_id w.server v.linked.well room));
  }

  uris-Sound :
      (uris : Assoc Text UriCallbacks)
      → Sound (record w { server = record w.server { uris = uris } })
  uris-Sound uris = record {
    strands = v.strands;
    linked =
        Linked-server w.server (faces w.sessions) w.inbox v.linked _
          (flags-WellFormed w.server v.linked.well w.server.shutdown uris) refl (omega arith);
  }

  -- Every event.
  pub step-Sound : (e : Event) → Enabled w e → Keeps (step w e)
  unfolding step add_uri remove_uri
  step-Sound (accepted k) enabled = accepted-Sound k enabled
  step-Sound (refused k ec) enabled = refused-Sound k ec enabled
  step-Sound (acts k e) enabled = acts-Sound k e enabled
  step-Sound (delivers n) enabled = delivered-Sound (pick n w.inbox) (λ j. Left-pick j n w.inbox)
  step-Sound (starts acceptor bound cbs) enabled = started-Sound acceptor bound cbs
  step-Sound stops enabled =
      served _ _ (Linked-stopped w.server (faces w.sessions) w.inbox v.linked)
  step-Sound shuts_down enabled =
      served _ _ (Linked-shut_down w.server (faces w.sessions) w.inbox v.linked)
  step-Sound takes_id enabled = taken-Sound enabled
  step-Sound (removes id) enabled =
      served _ _ (Linked-removed w.server (faces w.sessions) w.inbox v.linked id)
  step-Sound (sends_to id payload) enabled =
      served _ _ (Linked-posted w.server (faces w.sessions) w.inbox v.linked _)
  step-Sound (broadcasts uri payload) enabled =
      served _ _ (Linked-posted w.server (faces w.sessions) w.inbox v.linked _)
  step-Sound (adds_uri uri cbs) enabled = uris-Sound _
  step-Sound (removes_uri uri) enabled = uris-Sound _
