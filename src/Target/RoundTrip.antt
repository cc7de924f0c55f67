-- ===== src/Target/RoundTrip.antt =====
-- A target written from a path and a list of parameters parses back to both.
use websockets.Prelude.{
  ℕ, suc, ◌≡◌, refl, sym, ap, subst, ◌∙◌, ◌≢◌, some, [], ◌∷◌, ◌++◌, length, take, drop, arith, All,
  All-append, append_assoc, append-nil, take-append,
}
use websockets.Text.{Text, find}
use websockets.Assoc.{insert, text_key}
use websockets.Assoc.Laws.{IsMap, insert_fresh, IsFresh-of_IsMap}
use websockets.Target.{Parameters, url_decode, add_pair, parse_target}
use websockets.Target.Decode.{IsByte, url_encode, url_decode-encode_append, url_encode-Avoids}
use websockets.Target.Query.{before, after, split_on, add_pairs, parse_target_lem}

-- `key=value`
abbrev pub write_pair : Text × Text → Text
write_pair (k, v) = url_encode k ++ b'=' ∷ url_encode v

-- The pairs, joined by '&'.
write_query : Parameters → Text
write_query [] = []
write_query (p ∷ []) = write_pair p
write_query (p ∷ q ∷ ps) = write_pair p ++ b'&' ∷ write_query (q ∷ ps)

pub write_target : Text → Parameters → Text
write_target path ps = path ++ b'?' ∷ write_query ps

abbrev pub Avoids : ℕ → Text → Type 0
Avoids c s = All (λ x. x ≢ c) s

abbrev pub AreBytes : Parameters → Type 0
AreBytes ps = All (λ p. All IsByte p.0 × All IsByte p.1) ps

find-Avoids : (c : ℕ) (s t : Text) → Avoids c s → find c (s ++ c ∷ t) ≡ some (length s)
unfolding find
find-Avoids c [] t h = ground arith
find-Avoids c (x ∷ s) t h = ground (arith, find-Avoids c s t h.1)

before-Avoids : (c : ℕ) (s t : Text) → Avoids c s → before c (s ++ c ∷ t) ≡ s
before-Avoids c [] t h = ground arith
before-Avoids c (x ∷ s) t h = ground (arith, before-Avoids c s t h.1)

after-Avoids : (c : ℕ) (s t : Text) → Avoids c s → after c (s ++ c ∷ t) ≡ some t
after-Avoids c [] t h = ground arith
after-Avoids c (x ∷ s) t h = ground (arith, after-Avoids c s t h.1)

split_on-Avoids : (c : ℕ) (s : Text) → Avoids c s → split_on c s ≡ s ∷ []
unfolding split_on
split_on-Avoids c [] h = refl
split_on-Avoids c (x ∷ s) h = ground (arith, split_on-Avoids c s h.1)

split_on-append : (c : ℕ) (s t : Text) → Avoids c s → split_on c (s ++ c ∷ t) ≡ s ∷ split_on c t
unfolding split_on
split_on-append c [] t h = ground arith
split_on-append c (x ∷ s) t h = ground (arith, split_on-append c s t h.1)

url_decode-encode : (t : Text) → All IsByte t → url_decode (url_encode t) ≡ t
unfolding url_decode
url_decode-encode t h =
    ap url_decode (sym (append-nil (url_encode t)))
    ∙ (url_decode-encode_append t [] h ∙ append-nil t)

-- Decoding undoes the reference encoding of any bytes.
url_decode-url_encode : (t : Text) → All IsByte t → url_decode (url_encode t) ≡ t
url_decode-url_encode t h = url_decode-encode t h

write_pair-Avoids : (p : Text × Text) → All IsByte p.0 → All IsByte p.1 → Avoids b'&' (write_pair p)
write_pair-Avoids (k, v) hk hv =
    All-append (λ x. x ≢ b'&') (url_encode k) (b'=' ∷ url_encode v)
      (url_encode-Avoids b'&' k refl (omega arith) (omega arith) hk)
      ((omega arith), url_encode-Avoids b'&' v refl (omega arith) (omega arith) hv)

find_nil : (c i : ℕ) → find c [] ≢ some i
unfolding find
find_nil c i e = cc

add_pair_of_find :
    (s : Text) (i : ℕ) (params : Parameters)
    → find b'=' s ≡ some i
    → add_pair s params ≡ insert (url_decode (take i s)) (url_decode (drop (suc i) s)) params
unfolding add_pair
add_pair_of_find [] i params e = absurd (find_nil b'=' i e)
add_pair_of_find (c ∷ s) i params e = rw (e, add_pair)

drop-append_suc : (s t : Text) (x : ℕ) → drop (suc (length s)) (s ++ x ∷ t) ≡ t
drop-append_suc [] t x = refl
drop-append_suc (y ∷ s) t x = drop-append_suc s t x

-- A written pair is added under its own key.
add_pair-write_pair :
    (k v : Text) (params : Parameters)
    → All IsByte k
    → All IsByte v
    → add_pair (write_pair (k, v)) params ≡ insert k v params
add_pair-write_pair k v params hk hv =
    let avoid = url_encode-Avoids b'=' k refl (omega arith) (omega arith) hk in
    let f = find-Avoids b'=' (url_encode k) (url_encode v) avoid in
    add_pair_of_find (write_pair (k, v)) (length (url_encode k)) params f
    ∙ rw (
      take-append (url_encode k) (b'=' ∷ url_encode v),
      drop-append_suc (url_encode k) (url_encode v) b'=',
      url_decode-encode k hk,
      url_decode-encode v hv,
    )

add_pair_last :
    (k v : Text) (params rest : Parameters)
    → All IsByte k
    → All IsByte v
    → IsMap (params ++ (k, v) ∷ rest)
    → add_pair (write_pair (k, v)) params ≡ params ++ (k, v) ∷ []
add_pair_last k v params rest hk hv m =
    add_pair-write_pair k v params hk hv
    ∙ insert_fresh k v params (IsFresh-of_IsMap params rest k v m)

-- Pairs with new keys are appended in their order.
add_pairs-write_query :
    (ps params : Parameters) (p : Text × Text)
    → AreBytes (p ∷ ps)
    → IsMap (params ++ p ∷ ps)
    → add_pairs (split_on b'&' (write_query (p ∷ ps))) params ≡ params ++ p ∷ ps
unfolding write_query
add_pairs-write_query [] params (k, v) h m =
    rw (split_on-Avoids b'&' (write_pair (k, v)) (write_pair-Avoids (k, v) h.0.0 h.0.1))
      (add_pair_last k v params [] h.0.0 h.0.1 m)
add_pairs-write_query (q ∷ ps) params (k, v) h m =
    let cut =
      split_on-append b'&' (write_pair (k, v)) (write_query (q ∷ ps))
        (write_pair-Avoids (k, v) h.0.0 h.0.1) in
    let regroup = append_assoc params ((k, v) ∷ []) (q ∷ ps) in
    let first = add_pair_last k v params (q ∷ ps) h.0.0 h.0.1 m in
    let rest = split_on b'&' (write_query (q ∷ ps)) in
    ap (λ l. add_pairs l params) cut
    ∙ (ap (add_pairs rest) first
        ∙ (add_pairs-write_query ps (params ++ (k, v) ∷ []) q h.1 (subst IsMap (sym regroup) m)
            ∙ regroup))

-- Parsing gives back the path and the parameters of a written target, where the path holds no '?',
-- the parameters are bytes, and no key stands twice.
pub parse_target-write_target :
    (path : Text) (ps : Parameters)
    → Avoids b'?' path
    → AreBytes ps
    → IsMap ps
    → parse_target (write_target path ps) ≡ some (path, ps)
unfolding write_target write_query split_on add_pair
parse_target-write_target path [] a h m =
    parse_target_lem _ ∙ rw (before-Avoids b'?' path [] a, after-Avoids b'?' path [] a)
parse_target-write_target path (p ∷ ps) a h m =
    parse_target_lem _
    ∙ rw (
      before-Avoids b'?' path (write_query (p ∷ ps)) a,
      after-Avoids b'?' path (write_query (p ∷ ps)) a,
      add_pairs-write_query ps [] p h m,
    )
