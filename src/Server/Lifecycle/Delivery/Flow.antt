-- ===== src/Server/Lifecycle/Delivery/Flow.antt =====
-- Where the chosen calls are: made, in the queue, or still with their threads. A call is counted by
-- `num`.
use websockets.Prelude.{
  ℕ, zero, suc, ◌+◌, ◌≤◌, ◌≡◌, refl, ap, sym, ◌∙◌, false, Option, none, some, List, [], ◌∷◌, ◌++◌,
  append-nil, if_elim, Option-cases, inl, inr, arith,
}
use websockets.Assoc.{lookup, nat_key}
use websockets.Server.{ClientCallbacks, Call}
use websockets.Server.Clients.{start, is_some}
use websockets.Server.Lifecycle.{
  System, Event, starts, stops, shuts_down, takes_id, registers, closes, removes, notifies,
  adds_uri, removes_uri, pick, after_start, stop_section, remove_section, notify_section,
  shut_down_section, step,
}
use websockets.Server.Lifecycle.Delivery.{
  Delivery, Turn, enters, posts, makes, works, stops_queue, to_post, to_call, post_next, call_next,
  work, turn, turns, Settled,
}

starts-chosen :
    (sys : System) (acceptor : ℕ) (bound : Option ℕ) (cbs : ClientCallbacks)
    → (step sys (starts acceptor bound cbs)).chosen ≡ sys.chosen ++ []
unfolding step start
starts-chosen sys acceptor none cbs =
    if_elim (λ r. (after_start sys r).chosen ≡ sys.chosen ++ []) sys.server.shutdown
      (λ _. sym (append-nil _)) (λ _. sym (append-nil _))
starts-chosen sys acceptor (some port) cbs =
    if_elim (λ r. (after_start sys r).chosen ≡ sys.chosen ++ []) sys.server.shutdown
      (λ _. sym (append-nil _))
      (λ _.
        if_elim (λ r. (after_start sys r).chosen ≡ sys.chosen ++ []) (is_some sys.server.acceptor)
          (λ _. sym (append-nil _)) (λ _. refl))

shuts_down-chosen : (sys : System) → (shut_down_section sys).chosen ≡ sys.chosen ++ []
unfolding shut_down_section stop_section
shuts_down-chosen sys =
    if_elim (λ (t : System). t.chosen ≡ sys.chosen ++ []) sys.server.shutdown
      (λ _. sym (append-nil _)) (λ _. sym (append-nil _))

removes-chosen : (sys : System) (id : ℕ) → (remove_section sys id).chosen ≡ sys.chosen ++ []
unfolding remove_section
removes-chosen sys id = elim (Option-cases (lookup id sys.server.clients)) [
  | inl e ↦ rw (remove_section, e) (sym (append-nil _))
  | inr (entry, e) ↦ rw (remove_section, e) (sym (append-nil _))
]

notifies-chosen :
    (sys : System) (n : ℕ) → (notify_section sys n).chosen ≡ sys.chosen ++ to_call sys (notifies n)
unfolding notify_section to_call
notifies-chosen sys n = elim (Option-cases (pick n sys.pending)) [
  | inl e ↦ rw (notify_section, to_call, e) (sym (append-nil _))
  | inr (((id, uri), rest), e) ↦ rw (notify_section, to_call, e) refl
]

-- A section chooses what its thread has to post and to call.
step-chosen :
    (sys : System) (e : Event)
    → (step sys e).chosen ≡ sys.chosen ++ (to_post sys e ++ to_call sys e)
unfolding step to_post to_call stop_section
step-chosen sys (starts acceptor bound cbs) = starts-chosen sys acceptor bound cbs
step-chosen sys stops = sym (append-nil _)
step-chosen sys shuts_down = shuts_down-chosen sys
step-chosen sys takes_id = refl
step-chosen sys (registers session target is_ssl) = ap (λ l. sys.chosen ++ l) (sym (append-nil _))
step-chosen sys (closes id) = ap (λ l. sys.chosen ++ l) (sym (append-nil _))
step-chosen sys (removes id) = removes-chosen sys id
step-chosen sys (notifies n) = notifies-chosen sys n
step-chosen sys (adds_uri uri cbs) = refl
step-chosen sys (removes_uri uri) = refl

module _ (num : List Call → ℕ) (num-nil : num [] ≡ 0)
    (num-append : (s t : List Call) → num (s ++ t) ≡ num s + num t) where
  abbrev total : List (List Call) → ℕ
  total [] = 0
  total (calls ∷ rest) = num calls + total rest

  total-pick :
      (n : ℕ) (calls : List Call) (all rest : List (List Call))
      → pick n all ≡ some (calls, rest)
      → total all ≡ num calls + total rest
  total-pick n calls [] rest e = cc
  total-pick zero calls (p ∷ ps) rest e = ground arith
  total-pick (suc n) calls (p ∷ ps) rest e = elim (Option-cases (pick n ps)) [
    | inl missed ↦ cc (rw missed at e)
    | inr ((q, qs), found) ↦ ground (arith, total-pick n q ps qs)
  ]

  -- Every chosen call is at one place, unless the queue has discarded it.
  abbrev where_ : Delivery → ℕ
  where_ d = num d.made + (num d.queue + (total d.unposted + total d.uncalled))

  pub record Flow (d : Delivery) : Type 0 where
    pub most : where_ d ≤ num d.system.chosen
    pub all : d.queue_stopped ≡ false → where_ d ≡ num d.system.chosen

  module _ (d : Delivery) (v : Flow d) where
    enters-Flow : (e : Event) → Flow (turn d (enters e))
    unfolding turn
    enters-Flow e =
        let sum : num (step d.system e).chosen
            ≡ num d.system.chosen + (num (to_post d.system e) + num (to_call d.system e)) =
          ap num (step-chosen d.system e)
          ∙ (num-append d.system.chosen _
              ∙ ap (λ k. num d.system.chosen + k) (num-append (to_post d.system e) _)) in
        record { most = omega (arith, sum, v.most); all = λ h. omega (arith, sum, v.all h) }

    post_next-Flow :
        (o : Option (List Call × List (List Call)))
        → ((calls : List Call) (rest : List (List Call))
            → o ≡ some (calls, rest)
            → total d.unposted ≡ num calls + total rest)
        → Flow (post_next d o)
    post_next-Flow none taken = v
    post_next-Flow (some ([], rest)) taken = record {
      most = omega (arith, num-nil, taken [] rest refl, v.most);
      all = λ h. omega (arith, num-nil, taken [] rest refl, v.all h);
    }
    post_next-Flow (some (call ∷ calls, rest)) taken =
        let sum = taken (call ∷ calls) rest refl in
        let one = num-append (call ∷ []) calls in
        let more = num-append d.queue (call ∷ []) in
        record {
          most = ground (arith, sum, one, more, v.most);
          all = λ h. ground (arith, sum, one, more, v.all h);
        }

    call_next-Flow :
        (o : Option (List Call × List (List Call)))
        → ((calls : List Call) (rest : List (List Call))
            → o ≡ some (calls, rest)
            → total d.uncalled ≡ num calls + total rest)
        → Flow (call_next d o)
    call_next-Flow none taken = v
    call_next-Flow (some ([], rest)) taken = record {
      most = omega (arith, num-nil, taken [] rest refl, v.most);
      all = λ h. omega (arith, num-nil, taken [] rest refl, v.all h);
    }
    call_next-Flow (some (call ∷ calls, rest)) taken =
        let sum = taken (call ∷ calls) rest refl in
        let one = num-append (call ∷ []) calls in
        let more = num-append d.made (call ∷ []) in
        record {
          most = omega (arith, sum, one, more, v.most);
          all = λ h. omega (arith, sum, one, more, v.all h);
        }

    work-Flow : (queue : List Call) → d.queue ≡ queue → Flow (work d queue)
    work-Flow [] e = v
    work-Flow (call ∷ calls) e =
        let one = ap num e ∙ num-append (call ∷ []) calls in
        let more = num-append d.made (call ∷ []) in
        record {
          most = omega (arith, one, more, v.most);
          all = λ h. omega (arith, one, more, v.all h);
        }

    turn-Flow : (t : Turn) → Flow (turn d t)
    unfolding turn
    turn-Flow (enters e) = enters-Flow e
    turn-Flow (posts n) =
        post_next-Flow (pick n d.unposted) (λ calls rest e. total-pick n calls d.unposted rest e)
    turn-Flow (makes n) =
        call_next-Flow (pick n d.uncalled) (λ calls rest e. total-pick n calls d.uncalled rest e)
    turn-Flow works = work-Flow d.queue refl
    turn-Flow stops_queue =
        if_elim Flow d.system.server.shutdown
          (λ _. record { most = omega (arith, num-nil, v.most); all = λ h. cc }) (λ _. v)

  pub turns-Flow : (d : Delivery) (ts : List Turn) → Flow d → Flow (turns d ts)
  unfolding turns
  turns-Flow d [] v = v
  turns-Flow d (t ∷ ts) v = turns-Flow (turn d t) ts (turn-Flow d v t)

  -- With nothing waiting, all that was chosen has been made.
  pub Settled-made : (d : Delivery) → Flow d → Settled d → num d.made ≡ num d.system.chosen
  Settled-made d v s = omega (
    arith,
    num-nil,
    v.all s.goes,
    ap num s.queue_empty,
    ap total s.all_posted,
    ap total s.all_called,
  )
