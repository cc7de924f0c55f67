-- ===== src/Server/Routing/Laws.antt =====
-- The longest match is a registered uri that matches, none is longer, and the order in which the
-- uris are visited does not matter.
use websockets.Prelude.{
  ◌≡◌, ◌≤◌, ◌<◌, ◌↔◌, ◌⊎◌, inl, inr, refl, sym, ap, subst, ◌∙◌, true, false, ◌&&◌, List, [], ◌∷◌,
  ltb, length, arith, Bool-cases,
}
use websockets.Text.{Text}
use websockets.Assoc.{Assoc, text_key, keys}
use websockets.Target.{uri_matches}
use websockets.Target.Matching.{uri_matches_unique, not_uri_matches_empty}
use websockets.Server.{UriCallbacks}
use websockets.Server.Routing.{longest_from, longest_uri_match}

-- A list of uris holds a uri.
abbrev pub Holds : Text → List Text → Type 0
Holds uri [] = ⊥
Holds uri (u ∷ us) = (u ≡ uri) ⊎ Holds uri us

module _ (path : Text) where
  -- The result of the loop: the start or a uri that matches; no uri that matches is longer.
  pub record IsLongest (uris : List Text) (best result : Text) : Type 0 where
    pub chosen : (result ≡ best) ⊎ (Holds result uris × (uri_matches result path ≡ true))
    pub longest :
        (uri : Text) → Holds uri uris → uri_matches uri path ≡ true → length uri ≤ length result
    pub at_least : length best ≤ length result

  IsLongest-take :
      (u : Text) (us : List Text) (best result : Text)
      → uri_matches u path ≡ true
      → length best < length u
      → IsLongest us u result
      → IsLongest (u ∷ us) best result
  IsLongest-take u us best result m l v = record {
    chosen = elim v.chosen [
      | inl e ↦ inr (inl (sym e), subst (λ t. uri_matches t path ≡ true) (sym e) m)
      | inr (h, k) ↦ inr (inr h, k)
    ];
    longest = λ uri h k. elim h [
      | inl e ↦ omega (arith, ap length e, v.at_least)
      | inr later ↦ v.longest uri later k
    ];
    at_least = omega (arith, v.at_least);
  }

  IsLongest-skip :
      (u : Text) (us : List Text) (best result : Text)
      → (uri_matches u path ≡ true → length u ≤ length best)
      → IsLongest us best result
      → IsLongest (u ∷ us) best result
  IsLongest-skip u us best result l v = record {
    chosen = elim v.chosen [ inl e ↦ inl e | inr (h, k) ↦ inr (inr h, k) ];
    longest = λ uri h k. elim h [
      | inl e ↦
          omega
            (arith, ap length e, v.at_least, l (subst (λ t. uri_matches t path ≡ true) (sym e) k))
      | inr later ↦ v.longest uri later k
    ];
    at_least = v.at_least;
  }

  pub longest_from_lem :
      (uris : List Text) (best : Text) → IsLongest uris best (longest_from path uris best)
  unfolding longest_from
  longest_from_lem [] best = record {
    chosen = inl refl;
    longest = λ uri h. elim h [ ];
    at_least = omega arith;
  }
  longest_from_lem (u ∷ us) best =
      elim (Bool-cases (uri_matches u path && ltb (length best) (length u))) [
        | inl e ↦
            rw e (IsLongest-take u us best _ (ground arith) (ground arith) (longest_from_lem us u))
        | inr e ↦ rw e (IsLongest-skip u us best _ (λ m. ground arith) (longest_from_lem us best))
      ]

  matches_nonempty : (uri : Text) → uri_matches uri path ≡ true → 0 < length uri
  matches_nonempty [] m = cc (not_uri_matches_empty path)
  matches_nonempty (c ∷ uri) m = omega arith

  not_longer :
      (us vs : List Text) (r t : Text)
      → ((u : Text) → Holds u vs → Holds u us)
      → IsLongest us [] r
      → IsLongest vs [] t
      → length t ≤ length r
  not_longer us vs r t sub v w = elim w.chosen [
    | inl e ↦ omega (arith, ap length e)
    | inr (h, m) ↦ v.longest t (sub t h) m
  ]

  -- There is one longest match.
  IsLongest-unique :
      (us vs : List Text) (r t : Text)
      → ((u : Text) → Holds u us ↔ Holds u vs)
      → IsLongest us [] r
      → IsLongest vs [] t
      → r ≡ t
  IsLongest-unique us vs r t same v w =
      let le : length t ≤ length r = not_longer us vs r t (λ u. (same u).1) v w in
      let ge : length r ≤ length t = not_longer vs us t r (λ u. (same u).0) w v in
      let eq : length r ≡ length t = omega arith in meet r t v.chosen w.chosen eq
    where
      meet :
          (r t : Text)
          → (r ≡ []) ⊎ (Holds r us × (uri_matches r path ≡ true))
          → (t ≡ []) ⊎ (Holds t vs × (uri_matches t path ≡ true))
          → length r ≡ length t
          → r ≡ t
      meet r t (inl a) (inl b) e = a ∙ sym b
      meet r t (inl a) (inr (h, m)) e = absurd (omega (arith, ap length a, matches_nonempty t m))
      meet r t (inr (h, m)) (inl b) e = absurd (omega (arith, ap length b, matches_nonempty r m))
      meet r t (inr (h, m)) (inr (k, n)) e = uri_matches_unique r t path m n e

  -- The order and the repetition of the candidates do not change the result.
  pub longest_from_unordered :
      (us vs : List Text)
      → ((u : Text) → Holds u us ↔ Holds u vs)
      → longest_from path us [] ≡ longest_from path vs []
  longest_from_unordered us vs same =
      IsLongest-unique us vs _ _ same (longest_from_lem us []) (longest_from_lem vs [])

pub longest_uri_match-IsLongest :
    (uris : Assoc Text UriCallbacks) (path : Text)
    → IsLongest path (keys uris) [] (longest_uri_match uris path)
unfolding longest_uri_match
longest_uri_match-IsLongest uris path = longest_from_lem path (keys uris) []

-- The result of `LongestUriMatchLocked` is "", or a registered uri that matches the path.
longest_uri_match_chosen :
    (uris : Assoc Text UriCallbacks) (path : Text)
    → let result = longest_uri_match uris path in
      (result ≡ []) ⊎ (Holds result (keys uris) × (uri_matches result path ≡ true))
longest_uri_match_chosen uris path = (longest_uri_match-IsLongest uris path).chosen

-- No registered uri that matches the path is longer than the result of `LongestUriMatchLocked`.
longest_uri_match_maximal :
    (uris : Assoc Text UriCallbacks) (path uri : Text)
    → Holds uri (keys uris)
    → uri_matches uri path ≡ true
    → length uri ≤ length (longest_uri_match uris path)
longest_uri_match_maximal uris path uri h m =
    (longest_uri_match-IsLongest uris path).longest uri h m

-- The result is "" exactly when no registered uri matches.
longest_uri_match_empty :
    (uris : Assoc Text UriCallbacks) (path : Text)
    → (longest_uri_match uris path ≡ [])
      ↔ ((uri : Text) → Holds uri (keys uris) → uri_matches uri path ≡ false)
longest_uri_match_empty uris path = (to, from)
  where
    v : IsLongest path (keys uris) [] (longest_uri_match uris path)
    v = longest_uri_match-IsLongest uris path

    to :
        longest_uri_match uris path ≡ []
        → (uri : Text) → Holds uri (keys uris)
        → uri_matches uri path ≡ false
    to e uri h = elim (Bool-cases (uri_matches uri path)) [
      | inr no_match ↦ no_match
      | inl m ↦ absurd (omega (arith, ap length e, v.longest uri h m, matches_nonempty path uri m))
    ]

    from :
        ((uri : Text) → Holds uri (keys uris) → uri_matches uri path ≡ false)
        → longest_uri_match uris path ≡ []
    from none_matches = elim v.chosen [ inl e ↦ e | inr (h, m) ↦ cc (none_matches _ h) ]

-- `LongestUriMatchLocked` returns a text exactly when it is a longest match: it is "" or a
-- registered uri that matches the path, and no registered uri that matches the path is longer.
pub longest_uri_match_iff :
    (uris : Assoc Text UriCallbacks) (path result : Text)
    → (longest_uri_match uris path ≡ result) ↔ IsLongest path (keys uris) [] result
longest_uri_match_iff uris path result = (
  λ e. subst (IsLongest path (keys uris) []) e (longest_uri_match-IsLongest uris path),
  IsLongest-unique path (keys uris) (keys uris) _ result (λ u. ((λ h. h), λ h. h))
      (longest_uri_match-IsLongest uris path),
)
