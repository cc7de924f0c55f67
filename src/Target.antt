-- ===== src/Target.antt =====
-- Request targets: `UrlDecode`, `ParseTarget` and `UriMatches` of src/CWebsocketServer.cpp.
pub mod Decode
pub mod Query
pub mod RoundTrip
pub mod Matching
mod Tests
use websockets.Prelude.{
  ℕ, zero, suc, ◌+◌, ◌-◌, ◌*◌, ◌≡◌, Bool, true, false, ◌&&◌, ◌||◌, not, Option, none, some, List,
  [], ◌∷◌, ◌==◌, leb, if◌then◌else◌, length, take, drop, is_empty, get_elem?,
}
use websockets.Text.{Text, text_eq, find, find_from, substr}
use websockets.Assoc.{Assoc, insert, text_key}

-- `std::isxdigit` in the "C" locale.
pub is_xdigit : ℕ → Bool
is_xdigit c =
    (leb b'0' c && leb c b'9') || ((leb b'A' c && leb c b'F') || (leb b'a' c && leb c b'f'))

-- The value of a hexadecimal digit, as `std::stoi(…, nullptr, 16)` reads it.
pub hex_value : ℕ → ℕ
hex_value c = if leb b'a' c then c - 87 else if leb b'A' c then c - 55 else c - 48

abbrev pub plus_to_space : ℕ → ℕ
plus_to_space c = if c == b'+' then b' ' else c

-- `UrlDecode`: the text from index `i` on. With fewer than three bytes left no escape can start.
pub url_decode : Text → Text
unfolding is_xdigit hex_value
url_decode [] = []
url_decode (c ∷ []) = plus_to_space c ∷ []
url_decode (c ∷ a ∷ []) = plus_to_space c ∷ plus_to_space a ∷ []
url_decode (c ∷ a ∷ b ∷ rest) = elim (c == b'%' && (is_xdigit a && is_xdigit b)) [
  | true ↦ (16 * hex_value a + hex_value b) ∷ url_decode rest
  | false ↦ plus_to_space c ∷ url_decode (a ∷ b ∷ rest)
]

-- `HttpQueryParameters`
abbrev pub Parameters : Type 0
Parameters = Assoc Text Text

-- One `key=value` pair of the query; an empty pair is skipped.
pub add_pair : Text → Parameters → Parameters
add_pair [] params = params
add_pair (c ∷ cs) params =
    let pair = c ∷ cs in
    elim (find b'=' pair) [
      | none ↦ insert (url_decode pair) [] params
      | some eq ↦ insert (url_decode (take eq pair)) (url_decode (drop (suc eq) pair)) params
    ]

abbrev pub or_size : Option ℕ → Text → ℕ
or_size none s = length s
or_size (some i) s = i

-- The loop of `ParseTarget` over the query; `none` means that the fuel ran out.
pub query_loop : ℕ → Text → ℕ → Parameters → Option Parameters
query_loop zero query start params = none
query_loop (suc fuel) query start params =
    let end = or_size (find_from b'&' query start) query in
    let rest =
      query_loop fuel query (end + 1) (add_pair (substr query start (end - start)) params) in
    if leb start (length query) then rest else some params

-- `target.substr(0, queryPos)`: the path part of `ParseTarget`.
unfoldable pub target_path : Text → Text
target_path target = elim (find b'?' target) [ none ↦ target | some pos ↦ take pos target ]

-- `ParseTarget`: the path and the decoded parameters.
unfoldable pub parse_target : Text → Option (Text × Parameters)
unfolding target_path query_loop
parse_target target = elim (find b'?' target) [
  | none ↦ some (target_path target, [])
  | some pos ↦
      let query = drop (pos + 1) target in
      elim (query_loop (length query + 2) query 0 []) [
        | none ↦ none
        | some params ↦ some (target_path target, params)
      ]
]

abbrev pub is_prefix : Text → Text → Bool
is_prefix uri path = text_eq (take (length uri) path) uri

abbrev last_is : ℕ → Text → Bool
last_is c [] = false
last_is c (x ∷ []) = x == c
last_is c (x ∷ y ∷ s) = last_is c (y ∷ s)

abbrev pub elem_is : ℕ → Option ℕ → Bool
elem_is c none = false
elem_is c (some x) = x == c

-- `UriMatches`. `path.compare(0, n, uri)` compares the first n bytes of the path with the uri.
unfoldable pub uri_matches : Text → Text → Bool
uri_matches uri path =
    if is_empty uri || not (is_prefix uri path)
    then false
    else length path == length uri
      || (elem_is b'/' (get_elem? path (length uri)) || last_is b'/' uri)
