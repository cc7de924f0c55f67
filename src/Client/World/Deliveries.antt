-- ===== src/Client/World/Deliveries.antt =====
-- A post to a session runs, or an operation of it completes.
use websockets.Prelude.{
  eq_cases, ℕ, ltb, ◌<◌, ◌≤◌, ◌≡◌, ◌≢◌, refl, sym, ap, Bool, true, false, Option, none, some, List,
  ◌++◌, ◌==◌, ==_iff, ==_refl, if_elim, arith, ◌⊎◌, inl, inr, Bool-cases,
}
use websockets.Client.Session.Strand.{Strand, fire, new_strand}
use websockets.Client.Session.Strand as Strand
use websockets.Client.Session.Strand.Safety.{bit}
use websockets.Client.World.{
  World, Post, connects, sends, closes, acts, step, ran, clear, handler_of, Enabled,
}
use websockets.Client.World.Posts.{is_close, is_connect, num_waiting, num_waiting-append, Less}
use websockets.Client.World.Handlers.{
  completion-Handled, connect-Handled, send-Handled, close-Handled,
}
use websockets.Client.World.Linked.{Linked, Keeps, ran-Linked}

split : (a b : ℕ) → (a < b) ⊎ (b ≤ a)
split a b = elim (Bool-cases (ltb a b)) [ inl e ↦ inl (ground arith) | inr e ↦ inr (ground arith) ]

bit_set : (b : Bool) → 1 ≤ bit b → b ≡ true
bit_set b h = ground arith

hit_here : (k : ℕ) → bit (k == k) ≡ 1
hit_here k = rw (==_refl k) refl

pub hit_same : (i k : ℕ) → i ≡ k → bit (i == k) ≡ 1
hit_same i k same = rw (same, ==_refl k) refl

pub hit_other : (k j : ℕ) → j ≢ k → bit (k == j) ≡ 0
hit_other k j other =
    if_elim (λ (n : ℕ). n ≡ 0) (k == j) (λ e. absurd (other (sym ((==_iff k j).0 e)))) (λ _. refl)

module _ (w : World) (v : Linked w) where
  -- Posts that begin no session.
  pub Linked-posted :
      (more : List (ℕ × Post))
      → ((k : ℕ) → num_waiting is_connect k more ≡ 0)
      → Linked (record w { inbox = w.inbox ++ more })
  Linked-posted more no_connect = record {
    strands = v.strands;
    covered = λ k made live. elim (v.covered k made live) [
      | inl asked ↦ inl asked
      | inr (inl current) ↦ inr (inl current)
      | inr (inr waits) ↦
          inr (inr (omega (arith, waits, num_waiting-append is_close k w.inbox more)))
    ];
    dialled = λ k made.
        omega (arith, v.dialled k made, no_connect k, num_waiting-append is_connect k w.inbox more);
    unmade = λ k far.
        omega (arith, v.unmade k far, no_connect k, num_waiting-append is_connect k w.inbox more);
    ended = v.ended;
  }

  pub acts-Linked : (k : ℕ) (e : Strand.Event) → Enabled w (acts k e) → Keeps (step w (acts k e))
  unfolding step
  acts-Linked k e (completion, enabled) =
      let t = w.sessions k in
      ran-Linked w v k false t.unstarted w.inbox (λ j h. inl h) (λ j other. refl) (v.dialled k)
        v.unmade (fire (clear t) e) (completion-Handled t (v.strands k) e completion enabled)

  -- A session whose beginning is posted was made, and has not begun.
  unbegun :
      (k : ℕ)
      → 1 ≤ num_waiting is_connect k w.inbox
      → (k < w.client.next_session) × ((w.sessions k).unstarted ≡ true)
  unbegun k waits = elim (split k w.client.next_session) [
    | inr far ↦ absurd (omega (arith, waits, v.unmade k far))
    | inl made ↦ (made, bit_set (w.sessions k).unstarted (omega (arith, waits, v.dialled k made)))
  ]

  -- One of the posts runs, which `o` is with those that remain.
  pub delivered-Linked :
      (o : Option ((ℕ × Post) × List (ℕ × Post)))
      → ((is : Post → Bool) (j : ℕ) → Less is j w.inbox o)
      → Keeps (elim o as (λ _. Option World) [
        | none ↦ some w
        | some ((k, p), rest) ↦
            ran (record w { inbox = rest }) k (fire (clear (w.sessions k)) (handler_of p))
      ])
  delivered-Linked none less = v
  delivered-Linked (some ((k, sends m), rest)) less =
      ran-Linked w v k false (w.sessions k).unstarted rest
        (λ j h. inl (omega (arith, h, less is_close j)))
        (λ j other. omega (arith, less is_connect j))
        (λ made. omega (arith, less is_connect k, v.dialled k made))
        (λ j far. omega (arith, less is_connect j, v.unmade j far))
        (fire (clear (w.sessions k)) (Strand.send m)) (send-Handled (w.sessions k) (v.strands k) m)
  delivered-Linked (some ((k, closes), rest)) less =
      ran-Linked w v k true (w.sessions k).unstarted rest
        (λ j h. elim (eq_cases j k) [
          | inl same ↦ inr (same, refl)
          | inr other ↦ inl (omega (arith, h, less is_close j, hit_other k j other))
        ])
        (λ j other. omega (arith, less is_connect j))
        (λ made. omega (arith, less is_connect k, v.dialled k made))
        (λ j far. omega (arith, less is_connect j, v.unmade j far))
        (fire (clear (w.sessions k)) Strand.close) (close-Handled (w.sessions k) (v.strands k))
  delivered-Linked (some ((k, connects host port resource headers), rest)) less =
      let begins = unbegun k (omega (arith, less is_connect k, hit_here k)) in
      ran-Linked w v k false false rest (λ j h. inl (omega (arith, h, less is_close j)))
        (λ j other. omega (arith, less is_connect j, hit_other k j other))
        (λ made. omega (arith, less is_connect k, hit_here k, v.dialled k made, ap bit begins.1))
        (λ j far. omega (arith, less is_connect j, v.unmade j far))
        (fire (clear (w.sessions k)) (Strand.connect host port resource headers))
        (connect-Handled (w.sessions k) (v.strands k) host port resource headers begins.1)
