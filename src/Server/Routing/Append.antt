-- ===== src/Server/Routing/Append.antt =====
-- What `RegisterWsClient` passes as `uriAppend`.
use websockets.Prelude.{
  ◌≡◌, inl, inr, refl, sym, ap, subst, ◌∙◌, false, List, [], ◌∷◌, ◌++◌, ltb, length, drop, arith,
  Bool-cases, Option-cases, drop-append, length-append, append_assoc, ◌==◌,
}
use websockets.Text.{Text}
use websockets.Target.{target_path}
use websockets.Target.Matching.{uri_matches_prefix}
use websockets.Target.Query.{before, target_path_lem}
use websockets.Server.{Server}
use websockets.Server.Routing.{longest_uri_match, append_base, uri_append}
use websockets.Server.Routing.Laws.{IsLongest, longest_from_lem, longest_uri_match-IsLongest}

-- One text begins with another.
abbrev pub Begins : Text → Text → Type 0
Begins base t = (rest : Text) × (t ≡ base ++ rest)

Begins-trans : (a b c : Text) → Begins a b → Begins b c → Begins a c
Begins-trans a b c (r, e) (q, f) = (r ++ q, f ∙ (ap (λ t. t ++ q) e ∙ append_assoc a r q))

before-Begins : (t : Text) → Begins (before b'?' t) t
before-Begins [] = ([], refl)
before-Begins (x ∷ t) = elim (Bool-cases (x == b'?')) [
  | inl e ↦ (x ∷ t, rw e)
  | inr e ↦ let (rest, f) = before-Begins t in (rest, rw e (ap (◌∷◌ x) f))
]

target_path-Begins : (target : Text) → Begins (target_path target) target
target_path-Begins target =
    subst (λ t. Begins t target) (sym (target_path_lem target)) (before-Begins target)

IsLongest-Begins :
    (path : Text) (uris : List Text) (result : Text)
    → IsLongest path uris [] result
    → Begins result path
IsLongest-Begins path uris result v = elim v.chosen [
  | inl e ↦ (path, rw e)
  | inr (h, m) ↦ (drop (length result) path, uri_matches_prefix result path m)
]

append_base-Begins :
    (s : Server) (path matched : Text)
    → Begins matched path
    → Begins (append_base s matched path) path
unfolding append_base
append_base-Begins s path [] b = elim (Option-cases s.settings.allowed_uris) [
  | inl e ↦ rw (e, append_base) b
  | inr (allowed, e) ↦
      rw (e, append_base) (IsLongest-Begins path allowed _ (longest_from_lem path allowed []))
]
append_base-Begins s path (c ∷ matched) b = b

uri_append_lem : (base rest : Text) → uri_append base (base ++ rest) ≡ rest
unfolding uri_append
uri_append_lem base rest =
    let short : ltb (length (base ++ rest)) (length base) ≡ false =
      ground (arith, length-append {0} base rest) in
    rw short (drop-append base rest)

-- The base and `uriAppend` make up the whole target, query string included.
append_base-uri_append :
    (s : Server) (target : Text)
    → let base =
        append_base s (longest_uri_match s.uris (target_path target)) (target_path target) in
      base ++ uri_append base target ≡ target
append_base-uri_append s target =
    let path = target_path target in
    let matched = longest_uri_match s.uris path in
    let base = append_base s matched path in
    let (rest, e) =
      Begins-trans base path target
        (append_base-Begins s path matched
          (IsLongest-Begins path _ matched (longest_uri_match-IsLongest s.uris path)))
        (target_path-Begins target) in
    let step : uri_append base target ≡ rest = ap (uri_append base) e ∙ uri_append_lem base rest in
    ap (◌++◌ base) step ∙ sym e
