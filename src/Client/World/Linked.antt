-- ===== src/Client/World/Linked.antt =====
-- Which sessions of a client may still be alive, and a handler of one of them.
use websockets.Prelude.{
  Ensures, ℕ, ◌<◌, ◌≤◌, ◌≡◌, ◌≢◌, refl, sym, ap, subst, ◌∙◌, Bool, true, false, Option, none, some,
  List, [], ◌∷◌, ==_iff, if_elim, arith, ◌⊎◌, inl, inr,
}
use websockets.Client.Session.{Action, complete}
use websockets.Client.Session.Strand.{Strand}
use websockets.Client.Session.Strand.Safety.{Inv, bit}
use websockets.Client.Impl.{Client, is_current, on_attempt}
use websockets.Service.{set}
use websockets.Service.Links.{set_elim}
use websockets.Client.World.{World, Post, hear, ran, is_live, gives_up}
use websockets.Client.World.Posts.{is_close, is_connect, num_waiting}
use websockets.Client.World.Handlers.{Handled}

-- The session was asked to close, or is the client's, or a close waits for it.
abbrev pub Covered : Client → Strand → List (ℕ × Post) → ℕ → Type 0
Covered c t inbox k =
    (t.session.close_requested ≡ true)
    ⊎ ((is_current c.session k ≡ true) ⊎ (1 ≤ num_waiting is_close k inbox))

pub record Linked (w : World) : Type 0 where
  pub strands : (k : ℕ) → Inv (w.sessions k)
  pub covered :
      (k : ℕ)
      → k < w.client.next_session
      → is_live (w.sessions k) ≡ true
      → Covered w.client (w.sessions k) w.inbox k
  -- a session that was made and not begun has its beginning posted, once
  pub dialled :
      (k : ℕ)
      → k < w.client.next_session
      → num_waiting is_connect k w.inbox ≡ bit (w.sessions k).unstarted
  pub unmade : (k : ℕ) → w.client.next_session ≤ k → num_waiting is_connect k w.inbox ≡ 0
  pub ended : w.client.shutdown ≡ true → w.client.session ≡ none

abbrev pub Keeps : Option World → Type 0
Keeps none = ⊥
Keeps (some w) = Linked w

-- What the client makes of the reports of a session: nothing, or it lets go of it.
Heard : Client → ℕ → List Action → Client → Type 0
Heard c k actions d =
    (d ≡ c)
    ⊎ ((gives_up actions ≡ true)
        × (is_current c.session k ≡ true)
        × (d ≡ record c { session = none }))

let_go :
    (c : Client) (k : ℕ)
    → let d = (on_attempt c k false).0 in
      (d ≡ c) ⊎ ((is_current c.session k ≡ true) × (d ≡ record c { session = none }))
unfolding on_attempt
let_go c k =
    if_elim (λ d. (d ≡ c) ⊎ ((is_current c.session k ≡ true) × (d ≡ record c { session = none })))
      (is_current c.session k) (λ e. inr (e, refl)) (λ _. inl refl)

hear-none : (c : Client) (k : ℕ) (actions : List Action) → c.session ≡ none → hear c k actions ≡ c
unfolding on_attempt
hear-none c k [] e = refl
hear-none c k (complete true ∷ rest) e = hear-none c k rest e
hear-none c k (complete false ∷ rest) e = elim (let_go c k) [
  | inl same ↦ ap (λ d. hear d k rest) same ∙ hear-none c k rest e
  | inr (current, _) ↦ cc (sym (ap (λ o. is_current o k) e) ∙ current)
]
hear-none c k (_ ∷ rest) e = hear-none c k rest e

hear-Heard : (c : Client) (k : ℕ) (actions : List Action) → Heard c k actions (hear c k actions)
unfolding Heard on_attempt
hear-Heard c k [] = inl refl
hear-Heard c k (complete true ∷ rest) = hear-Heard c k rest
hear-Heard c k (complete false ∷ rest) = elim (let_go c k) [
  | inr (current, gone) ↦ inr (
    refl,
    current,
    ap (λ d. hear d k rest) gone ∙ hear-none (record c { session = none }) k rest refl,
  )
  | inl kept ↦ elim (hear-Heard c k rest) [
    | inl same ↦ inl (ap (λ d. hear d k rest) kept ∙ same)
    | inr (gives, current, d) ↦ inr (refl, current, ap (λ d. hear d k rest) kept ∙ d)
  ]
]
hear-Heard c k (_ ∷ rest) = hear-Heard c k rest

is_current-same : (o : Option ℕ) (j k : ℕ) → is_current o j ≡ true → is_current o k ≡ true → j ≡ k
is_current-same none j k a b = cc
is_current-same (some i) j k a b = sym ((==_iff i j).0 a) ∙ (==_iff i k).0 b

-- A handler of session `k`, after which `rest` waits.
module _ (w : World) (v : Linked w) (k : ℕ) (asks waits : Bool) (rest : List (ℕ × Post))
    (closed : (j : ℕ)
      → 1 ≤ num_waiting is_close j w.inbox
      → (1 ≤ num_waiting is_close j rest) ⊎ ((j ≡ k) × (asks ≡ true)))
    (dial_others : (j : ℕ)
      → j ≢ k
      → num_waiting is_connect j rest ≡ num_waiting is_connect j w.inbox)
    (dial : k < w.client.next_session → num_waiting is_connect k rest ≡ bit waits)
    (dial_unmade : (j : ℕ) → w.client.next_session ≤ j → num_waiting is_connect j rest ≡ 0) where
  -- The cover of a session, when the client has become `d`.
  Covered-after :
      (u : Strand) (d : Client)
      → Handled asks waits (w.sessions k) u
      → Heard w.client k u.trace d
      → (j : ℕ) → j < w.client.next_session
      → is_live (set w.sessions k u j) ≡ true
      → Covered d (set w.sessions k u j) rest j
  unfolding Heard
  Covered-after u d (sound, ages, asked_now) heard j made =
      set_elim (λ i t. is_live t ≡ true → Covered d t rest j) w.sessions k u j
        (λ same live.
          elim (v.covered j made
            (subst (λ i. is_live (w.sessions i) ≡ true) (sym same) (ages.lives live))) [
              | inl asked ↦ inl (
                  ages.asked
                    (subst (λ i. (w.sessions i).session.close_requested ≡ true) same asked))
              | inr (inl current) ↦ elim heard [
                | inl kept ↦ inr (inl (ap (λ (c : Client). is_current c.session j) kept ∙ current))
                | inr (gave, its, d') ↦ cc (sym live ∙ ages.fails_dead gave)
              ]
              | inr (inr waiting) ↦ elim (closed j waiting) [
                | inl still ↦ inr (inr still)
                | inr (_, is_asked) ↦ inl (asked_now is_asked)
              ]
            ])
        (λ other live. elim (v.covered j made live) [
          | inl asked ↦ inl asked
          | inr (inl current) ↦ elim heard [
            | inl kept ↦ inr (inl (ap (λ (c : Client). is_current c.session j) kept ∙ current))
            | inr (gave, its, d') ↦
                absurd (other (is_current-same w.client.session j k current its))
          ]
          | inr (inr waiting) ↦ elim (closed j waiting) [
            | inl still ↦ inr (inr still)
            | inr (same, _) ↦ absurd (other same)
          ]
        ])

  -- The new client has made as many sessions, and is shut down and holds none as before.
  after-Linked :
      (u : Strand) (d : Client)
      → Handled asks waits (w.sessions k) u
      → Heard w.client k u.trace d
      → Linked (record { client = d; sessions = set w.sessions k u; inbox = rest })
  unfolding Heard
  after-Linked u d h heard =
      let number : d.next_session ≡ w.client.next_session = elim heard [
        | inl e ↦ ap (λ (c : Client). c.next_session) e
        | inr (_, _, e) ↦ ap (λ (c : Client). c.next_session) e
      ] in
      record {
        strands = λ j. set_elim (λ i t. Inv t) w.sessions k u j (λ e. h.0) (λ other. v.strands j);
        covered = λ j made. Covered-after u d h heard j (omega (arith, made, number));
        dialled = λ j made.
            set_elim (λ i t. num_waiting is_connect j rest ≡ bit t.unstarted) w.sessions k u j
              (λ same.
                ap (λ i. num_waiting is_connect i rest) same
                ∙ (dial (omega (arith, made, number, same)) ∙ ap bit (sym h.1.unstarted_after)))
              (λ other. dial_others j other ∙ v.dialled j (omega (arith, made, number)));
        unmade = λ j far. dial_unmade j (omega (arith, far, number));
        ended = λ flag. elim heard [
          | inl e ↦
              ap (λ (c : Client). c.session) e
              ∙ v.ended (ap (λ (c : Client). c.shutdown) (sym e) ∙ flag)
          | inr (_, _, e) ↦ ap (λ (c : Client). c.session) e
        ];
      }

  pub ran-Linked :
      (o : Option Strand)
      → Ensures (Handled asks waits (w.sessions k)) o
      → Keeps (ran (record w { inbox = rest }) k o)
  ran-Linked none h = h
  ran-Linked (some u) h = after-Linked u _ h (hear-Heard w.client k u.trace)
