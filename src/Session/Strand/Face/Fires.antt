-- ===== src/Session/Strand/Face/Fires.antt =====
-- What the strand shows of its session, for every event.
use websockets.Prelude.{
  ℕ, ◌≡◌, refl, ap, true, false, ◌||◌, some, [], ◌∷◌, ◌++◌, inl, if◌then◌else◌,
}
use websockets.Payload.{Payload}
use websockets.Session.{ErrorCode, success, fails, on_send, on_close, on_accept, on_read, on_write}
use websockets.Session.Strand.{
  Strand, Event, accept_done, send, close, read_done, write_done, close_done, fire, accepts,
}
use websockets.Session.Strand.Face.{
  face_of, ends, Shows, performed-Shows, Ends, Same, on_read-Ends, on_write-Ends, on_send-Same,
  on_close-Same, Opens, on_accept-Opens, on_accept-Same, drop-length, is_internal,
}

module _ (t : Strand) where
  pub internal-Shows :
      (e : Event) → is_internal e ≡ true → Shows (Ends (face_of t.session)) t (fire t e)
  unfolding fire
  internal-Shows (read_done ec b m) i =
      performed-Shows (Ends (face_of t.session)) t
        (record t { reading = false; failed = t.failed || fails ec }) (on_read t.session ec b m)
        refl (on_read-Ends t.session ec b m)
  internal-Shows (write_done ec) i =
      performed-Shows (Ends (face_of t.session)) t
        (record t { writing = false; failed = t.failed || fails ec }) (on_write t.session ec) refl
        (on_write-Ends t.session ec)
  internal-Shows close_done i = inl (refl, ap ends (drop-length t.trace))
  internal-Shows _ i = cc

  pub send-Shows : (p : Payload) → Shows (Same (face_of t.session)) t (fire t (send p))
  unfolding fire
  send-Shows p =
      performed-Shows (Same (face_of t.session)) t
        (record t { accepted = if accepts t.session then t.accepted ++ p ∷ [] else t.accepted })
        (on_send t.session p) refl (on_send-Same t.session p)

  pub close-Shows :
      Shows (Same (record (face_of t.session) { close_requested = true })) t (fire t close)
  unfolding fire
  close-Shows =
      performed-Shows (Same (record (face_of t.session) { close_requested = true })) t t
        (on_close t.session) refl (on_close-Same t.session)

  pub accept-Shows :
      (id : ℕ) → Shows (Opens (face_of t.session) id) t (fire t (accept_done success (some id)))
  unfolding fire
  accept-Shows id =
      performed-Shows (Opens (face_of t.session) id) t (record t { accepting = false })
        (on_accept t.session success (some id)) refl (on_accept-Opens t.session id)

  pub refuse-Shows :
      (ec : ErrorCode) (id : ℕ)
      → fails ec ≡ true
      → Shows (Same (face_of t.session)) t (fire t (accept_done ec (some id)))
  unfolding fire
  refuse-Shows ec id f =
      performed-Shows (Same (face_of t.session)) t (record t { accepting = false })
        (on_accept t.session ec (some id)) refl (on_accept-Same t.session ec id f)
