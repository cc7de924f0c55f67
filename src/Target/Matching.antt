-- ===== src/Target/Matching.antt =====
-- What `UriMatches` accepts: the uri and the paths below it, at path-segment boundaries.
use websockets.Prelude.{
  ◌≤◌, ◌≡◌, refl, sym, ap, ◌∙◌, ◌↔◌, ◌≢◌, true, false, ◌||◌, some, [], ◌∷◌, ◌++◌, ◌==◌,
  if◌then◌else◌, length, take, drop, is_empty, get_elem?, arith, ◌⊎◌, inl, get_elem?-append,
  take-append, take-append-drop, length-append,
}
use websockets.Text.{Text}
use websockets.Text.Laws.{text_eq_iff, text_eq_refl}
use websockets.Target.{uri_matches, last_is, elem_is, is_prefix}

-- The text that follows a matched uri: nothing, or a new segment, unless the uri ends in '/'.
abbrev pub AtBoundary : Text → Text → Type 0
AtBoundary uri rest = (rest ≡ []) ⊎ ((get_elem? rest 0 ≡ some b'/') ⊎ (last_is b'/' uri ≡ true))

-- The path lies within the uri.
abbrev pub Within : Text → Text → Type 0
Within uri path = (uri ≢ []) × ((rest : Text) × (path ≡ uri ++ rest) × AtBoundary uri rest)

is_prefix-append : (uri rest : Text) → is_prefix uri (uri ++ rest) ≡ true
is_prefix-append uri rest = rw (take-append uri rest) (text_eq_refl uri)

length_eq : (uri rest : Text) → (length (uri ++ rest) == length uri) ≡ is_empty rest
length_eq uri [] = ground (arith, length-append {0} uri [])
length_eq uri (x ∷ rest) = ground (arith, length-append {0} uri (x ∷ rest))

-- The test on a path that extends the uri.
uri_matches-append :
    (uri rest : Text)
    → uri_matches uri (uri ++ rest) ≡ (
        if is_empty uri
        then false
        else is_empty rest || (elem_is b'/' (get_elem? rest 0) || last_is b'/' uri))
unfolding uri_matches
uri_matches-append uri rest =
    rw (is_prefix-append uri rest, length_eq uri rest, get_elem?-append uri rest) (ground arith)

pub uri_matches_prefix :
    (uri path : Text) → uri_matches uri path ≡ true → path ≡ uri ++ drop (length uri) path
unfolding uri_matches
uri_matches_prefix uri path h =
    let e : take (length uri) path ≡ uri = (text_eq_iff _ _).0 (ground arith) in
    sym (take-append-drop (length uri) path) ∙ ap (λ t. t ++ drop (length uri) path) e

Boundary-sound :
    (uri rest : Text)
    → (if is_empty uri
        then false
        else is_empty rest || (elem_is b'/' (get_elem? rest 0) || last_is b'/' uri))
      ≡ true
    → (uri ≢ []) × AtBoundary uri rest
Boundary-sound [] rest h = cc
Boundary-sound (c ∷ uri) [] h = (λ e. cc, inl refl)
Boundary-sound (c ∷ uri) (x ∷ rest) h = (λ e. cc, ground arith)

Boundary-complete :
    (uri rest : Text)
    → uri ≢ []
    → AtBoundary uri rest
    → (if is_empty uri
        then false
        else is_empty rest || (elem_is b'/' (get_elem? rest 0) || last_is b'/' uri))
      ≡ true
Boundary-complete [] rest n b = absurd (n refl)
Boundary-complete (c ∷ uri) [] n b = refl
Boundary-complete (c ∷ uri) (x ∷ rest) n b = ground arith

-- `UriMatches` holds exactly when the uri is not empty, the path is the uri followed by some rest,
-- and the rest is empty, or begins with '/', or the uri itself ends in '/'.
pub uri_matches_iff : (uri path : Text) → (uri_matches uri path ≡ true) ↔ Within uri path
uri_matches_iff uri path = (to, from)
  where
    to : uri_matches uri path ≡ true → Within uri path
    to h =
        let rest = drop (length uri) path in
        let e = uri_matches_prefix uri path h in
        let p =
          Boundary-sound uri rest
            (sym (uri_matches-append uri rest) ∙ (ap (uri_matches uri) (sym e) ∙ h)) in
        (p.0, (rest, e, p.1))

    from : Within uri path → uri_matches uri path ≡ true
    from (n, (rest, e, b)) =
        ap (uri_matches uri) e ∙ (uri_matches-append uri rest ∙ Boundary-complete uri rest n b)

take_of_longer : (u v r s : Text) → u ++ r ≡ v ++ s → length u ≡ length v → u ≡ v
take_of_longer [] [] r s e h = refl
take_of_longer [] (y ∷ v) r s e h = absurd (omega arith)
take_of_longer (x ∷ u) [] r s e h = absurd (omega arith)
take_of_longer (x ∷ u) (y ∷ v) r s e h = ground (arith, take_of_longer u v r s)

-- Two uris of one length that match one path are the same uri.
pub uri_matches_unique :
    (u v path : Text)
    → uri_matches u path ≡ true
    → uri_matches v path ≡ true
    → length u ≡ length v
    → u ≡ v
uri_matches_unique u v path hu hv same =
    take_of_longer u v (drop (length u) path) (drop (length v) path)
      (sym (uri_matches_prefix u path hu) ∙ uri_matches_prefix v path hv) same

-- A uri that matches is not longer than the path.
uri_matches-length : (uri path : Text) → uri_matches uri path ≡ true → length uri ≤ length path
uri_matches-length uri path h = omega (
  arith,
  ap length (uri_matches_prefix uri path h),
  length-append {0} uri (drop (length uri) path),
)

pub not_uri_matches_empty : (path : Text) → uri_matches [] path ≡ false
unfolding uri_matches
not_uri_matches_empty path = refl
