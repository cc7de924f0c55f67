-- ===== src/Server/Clients/Counts.antt =====
-- The count that the server keeps for a uri is the number of its clients on that uri.
use websockets.Prelude.{
  ℕ, ◌+◌, ◌-◌, ◌^◌, ◌≤◌, ◌<◌, ◌≡◌, ◌≢◌, inl, inr, refl, ap, true, some, [], ◌∷◌, ◌==◌,
  if◌then◌else◌, length, arith, Bool-cases, Option-cases, All,
}
use websockets.Text.{Text, text_eq}
use websockets.Text.Laws.{text_eq_iff, text_eq_refl}
use websockets.Assoc.{Assoc, lookup, insert, erase, text_key, nat_key}
use websockets.Assoc.Laws.{IsFresh, lookup-insert}
use websockets.Server.{ClientEntry}
use websockets.Server.Clients.{uri_count, incremented, decrement_uri_count, count_client}

-- The number of clients on a uri.
abbrev pub num_at : Text → Assoc ℕ ClientEntry → ℕ
num_at uri [] = 0
num_at uri ((id, entry) ∷ m) = (if text_eq entry.uri uri then 1 else 0) + num_at uri m

pub num_at-insert :
    (uri : Text) (id : ℕ) (entry : ClientEntry) (m : Assoc ℕ ClientEntry)
    → IsFresh id m
    → num_at uri (insert id entry m) ≡ num_at uri m + (if text_eq entry.uri uri then 1 else 0)
unfolding insert
num_at-insert uri id entry [] h = omega arith
num_at-insert uri id entry ((j, e) ∷ m) h = ground (arith, num_at-insert uri id entry m h.1)

pub num_at-erase :
    (uri : Text) (id : ℕ) (entry : ClientEntry) (m : Assoc ℕ ClientEntry)
    → lookup id m ≡ some entry
    → num_at uri m ≡ num_at uri (erase id m) + (if text_eq entry.uri uri then 1 else 0)
unfolding lookup erase
num_at-erase uri id entry [] h = cc
num_at-erase uri id entry ((j, e) ∷ m) h = elim (Bool-cases (j == id)) [
  | inl hit ↦ rw hit (ground arith)
  | inr miss ↦ rw miss (ground (arith, num_at-erase uri id entry m))
]

pub num_at-le : (uri : Text) (m : Assoc ℕ ClientEntry) → num_at uri m ≤ length m
num_at-le uri [] = omega arith
num_at-le uri ((j, e) ∷ m) = ground (arith, num_at-le uri m)

module _ {V : Type 0} where
  pub length-insert :
      (a : ℕ) (v : V) (m : Assoc ℕ V) → IsFresh a m → length (insert a v m) ≡ length m + 1
  unfolding insert
  length-insert a v [] h = omega arith
  length-insert a v ((b, w) ∷ m) h = ground (arith, length-insert a v m h.1)

  pub length-erase :
      (a : ℕ) (v : V) (m : Assoc ℕ V) → lookup a m ≡ some v → length m ≡ length (erase a m) + 1
  unfolding lookup erase
  length-erase a v [] h = cc
  length-erase a v ((b, w) ∷ m) h = ground (arith, length-erase a v m)

  -- All keys lie between 1 and a bound.
  abbrev pub Between : ℕ → Assoc ℕ V → Type 0
  Between n m = All (λ e. (0 < e.0) × (e.0 < n)) m

  pub Between-IsFresh : (n : ℕ) (m : Assoc ℕ V) → Between n m → IsFresh n m
  Between-IsFresh n [] h = tt
  Between-IsFresh n ((b, w) ∷ m) h = (ground arith, Between-IsFresh n m h.1)

  pub Between-mono : (n k : ℕ) (m : Assoc ℕ V) → n ≤ k → Between n m → Between k m
  Between-mono n k [] l h = tt
  Between-mono n k ((b, w) ∷ m) l h = ((h.0.0, omega arith), Between-mono n k m l h.1)

  pub Between-insert :
      (n a : ℕ) (v : V) (m : Assoc ℕ V) → 0 < a → a < n → Between n m → Between n (insert a v m)
  unfolding insert
  Between-insert n a v [] p l h = ((p, l), tt)
  Between-insert n a v ((b, w) ∷ m) p l h = ground (arith, Between-insert n a v m p l h.1)

  pub Between-erase : (n a : ℕ) (m : Assoc ℕ V) → Between n m → Between n (erase a m)
  unfolding erase
  Between-erase n a [] h = tt
  Between-erase n a ((b, w) ∷ m) h = ground (arith, Between-erase n a m h.1)

pub counted_register :
    (matched uri : Text) (counts : Assoc Text ℕ) (n : ℕ)
    → uri ≢ []
    → (matched ≢ [] → uri_count counts matched + 1 < 2 ^ 64)
    → uri_count counts uri ≡ n
    → uri_count (count_client matched counts) uri ≡ n + (if text_eq matched uri then 1 else 0)
counted_register [] uri counts n u f h = ground (arith, text_eq_iff [] uri)
counted_register (c ∷ m) uri counts n u f h =
    let bound = f (λ e. cc) in
    rw (lookup-insert (c ∷ m) uri (incremented counts (c ∷ m)) counts)
      (ground (arith, text_eq_iff (c ∷ m) uri))

count_of_same :
    (left uri : Text) (counts : Assoc Text ℕ)
    → text_eq left uri ≡ true
    → uri_count counts left ≡ uri_count counts uri
count_of_same left uri counts e = ap (uri_count counts) ((text_eq_iff left uri).0 e)

counted_decrement :
    (c : ℕ) (m uri : Text) (counts : Assoc Text ℕ)
    → uri_count (decrement_uri_count (c ∷ m) counts).0 uri
      ≡ uri_count counts uri - (if text_eq (c ∷ m) uri then 1 else 0)
unfolding decrement_uri_count
counted_decrement c m uri counts = elim (Option-cases (lookup (c ∷ m) counts)) [
  | inl e ↦ rw (e, decrement_uri_count) (ground (arith, count_of_same (c ∷ m) uri counts))
  | inr (k, e) ↦ elim (Bool-cases (k == 0)) [
    | inl z ↦ rw (e, decrement_uri_count, z) (ground (arith, count_of_same (c ∷ m) uri counts))
    | inr p ↦
        rw (e, decrement_uri_count, p)
          (rw (lookup-insert (c ∷ m) uri (k - 1) counts)
            (ground (arith, count_of_same (c ∷ m) uri counts)))
  ]
]

pub counted_release :
    (left uri : Text) (counts : Assoc Text ℕ) (n : ℕ)
    → uri ≢ []
    → uri_count counts uri ≡ n + (if text_eq left uri then 1 else 0)
    → uri_count (decrement_uri_count left counts).0 uri ≡ n
counted_release [] uri counts n u h =
    unfold decrement_uri_count in ground (arith, text_eq_iff [] uri)
counted_release (c ∷ m) uri counts n u h = ground (arith, counted_decrement c m uri counts)

-- The value that `DecrementUriCountLocked` returns is the count that it leaves.
pub decrement_uri_count_lem :
    (uri : Text) (counts : Assoc Text ℕ)
    → uri ≢ []
    → (decrement_uri_count uri counts).1 ≡ uri_count (decrement_uri_count uri counts).0 uri
unfolding decrement_uri_count
decrement_uri_count_lem [] counts u = absurd (u refl)
decrement_uri_count_lem (c ∷ m) counts u = elim (Option-cases (lookup (c ∷ m) counts)) [
  | inl e ↦ rw (e, decrement_uri_count, e)
  | inr (k, e) ↦ elim (Bool-cases (k == 0)) [
    | inl z ↦ rw (e, decrement_uri_count, z, e) (ground arith)
    | inr p ↦
        rw (e, decrement_uri_count, p)
          (rw (lookup-insert (c ∷ m) (c ∷ m) (k - 1) counts, text_eq_refl (c ∷ m)))
  ]
]

-- A registration makes the count of its uri what it posts.
pub count_client_lem :
    (uri : Text) (counts : Assoc Text ℕ)
    → uri ≢ []
    → incremented counts uri ≡ uri_count (count_client uri counts) uri
count_client_lem [] counts u = absurd (u refl)
count_client_lem (c ∷ m) counts u =
    rw (lookup-insert (c ∷ m) (c ∷ m) (incremented counts (c ∷ m)) counts, text_eq_refl (c ∷ m))
