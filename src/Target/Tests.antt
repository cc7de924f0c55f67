-- ===== src/Target/Tests.antt =====
-- Targets and uris.
use websockets.Prelude.{◌≡◌, ◌↔◌, refl, true, some, [], ◌∷◌, arith}
use websockets.Text.{Text, codes, text_eq}
use websockets.Target.{Parameters, parse_target, uri_matches}
use websockets.Target.Query.{before, after, query_parameters, parse_target_lem}
use websockets.Target.RoundTrip.{write_target, parse_target-write_target}
use websockets.Target.Matching.{Within, uri_matches_iff}

abbrev query : Text
query = codes "a=1&b=%20"

abbrev target : Text
target = codes "/p?a=1&b"

parse_target_lem_example :
    parse_target target ≡ some (before b'?' target, query_parameters (after b'?' target))
parse_target_lem_example = parse_target_lem target

abbrev params : Parameters
params = (codes "k", codes "&") ∷ (codes "l", []) ∷ []

parse_target-write_target_example :
    parse_target (write_target (codes "/p") params) ≡ some (codes "/p", params)
unfolding text_eq
parse_target-write_target_example =
    parse_target-write_target (codes "/p") params (omega arith, (omega arith, tt))
      (((omega arith, tt), (omega arith, tt)), (((omega arith, tt), tt), tt)) ((refl, tt), (tt, tt))

uri_matches_iff_example :
    (uri_matches (codes "/a") (codes "/a/b") ≡ true) ↔ Within (codes "/a") (codes "/a/b")
uri_matches_iff_example = uri_matches_iff (codes "/a") (codes "/a/b")
