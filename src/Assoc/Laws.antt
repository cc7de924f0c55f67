-- ===== src/Assoc/Laws.antt =====
-- The laws of the maps, and what it means that a map holds each key once.
use websockets.Prelude.{
  ◌≡◌, refl, true, false, none, some, [], ◌∷◌, if◌then◌else◌, arith, ◌≢◌, ◌++◌, All, All-middle,
}
use websockets.Assoc.{Key, Assoc, lookup, insert, erase}

module _ {K : Type 0} ⦃k : Key K⦄ where
  pub same_refl : (a : K) → k.same a a ≡ true
  same_refl a = (k.same_iff a a).1 refl

  pub same_ne : (a b : K) → a ≢ b → k.same a b ≡ false
  same_ne a b h = ground (arith, k.same_iff a b)

module _ {K V : Type 0} ⦃k : Key K⦄ where
  pub lookup-insert :
      (a b : K) (v : V) (m : Assoc K V)
      → lookup b (insert a v m) ≡ (if k.same a b then some v else lookup b m)
  unfolding lookup insert
  lookup-insert a b v [] = refl
  lookup-insert a b v ((c, w) ∷ m) =
      ground (arith, k.same_iff a b, k.same_iff c a, k.same_iff c b, lookup-insert a b v m)

  -- No entry of the map has this key.
  abbrev pub IsFresh : K → Assoc K V → Type 0
  IsFresh a m = All (λ e. k.same e.0 a ≡ false) m

  -- Each key stands once.
  abbrev pub IsMap : Assoc K V → Type 0
  IsMap [] = Unit
  IsMap ((b, w) ∷ m) = IsFresh b m × IsMap m

  pub lookup_fresh : (a : K) (m : Assoc K V) → IsFresh a m → lookup a m ≡ none
  unfolding lookup
  lookup_fresh a [] h = refl
  lookup_fresh a ((b, w) ∷ m) h = ground (arith, lookup_fresh a m)

  pub IsFresh-lookup : (a : K) (m : Assoc K V) → lookup a m ≡ none → IsFresh a m
  unfolding lookup
  IsFresh-lookup a [] h = tt
  IsFresh-lookup a ((b, w) ∷ m) h = ground (arith, IsFresh-lookup a m)

  pub insert_fresh : (a : K) (v : V) (m : Assoc K V) → IsFresh a m → insert a v m ≡ m ++ (a, v) ∷ []
  unfolding insert
  insert_fresh a v [] h = refl
  insert_fresh a v ((b, w) ∷ m) h = ground (arith, insert_fresh a v m)

  pub IsFresh-insert :
      (a b : K) (v : V) (m : Assoc K V)
      → k.same a b ≡ false
      → IsFresh b m
      → IsFresh b (insert a v m)
  unfolding insert
  IsFresh-insert a b v [] n h = (n, tt)
  IsFresh-insert a b v ((c, w) ∷ m) n h = ground (arith, IsFresh-insert a b v m)

  pub IsFresh-erase : (a b : K) (m : Assoc K V) → IsFresh b m → IsFresh b (erase a m)
  unfolding erase
  IsFresh-erase a b [] h = tt
  IsFresh-erase a b ((c, w) ∷ m) h = ground (arith, IsFresh-erase a b m)

  pub IsMap-insert : (a : K) (v : V) (m : Assoc K V) → IsMap m → IsMap (insert a v m)
  unfolding insert
  IsMap-insert a v [] h = (tt, tt)
  IsMap-insert a v ((c, w) ∷ m) h =
      ground (arith, IsMap-insert a v m, IsFresh-insert a c v m, k.same_iff a c, k.same_iff c a)

  pub IsMap-erase : (a : K) (m : Assoc K V) → IsMap m → IsMap (erase a m)
  unfolding erase
  IsMap-erase a [] h = tt
  IsMap-erase a ((c, w) ∷ m) h = ground (arith, IsMap-erase a m, IsFresh-erase a c m)

  pub lookup-erase :
      (a b : K) (m : Assoc K V)
      → IsMap m
      → lookup b (erase a m) ≡ (if k.same a b then none else lookup b m)
  unfolding lookup erase
  lookup-erase a b [] h = ground arith
  lookup-erase a b ((c, w) ∷ m) h =
      ground (
        arith,
        k.same_iff a b,
        k.same_iff c a,
        k.same_iff c b,
        lookup-erase a b m,
        lookup_fresh c m,
      )

  -- A key that stands behind a map is fresh in it.
  pub IsFresh-of_IsMap :
      (m rest : Assoc K V) (a : K) (v : V) → IsMap (m ++ (a, v) ∷ rest) → IsFresh a m
  IsFresh-of_IsMap [] rest a v h = tt
  IsFresh-of_IsMap ((b, w) ∷ m) rest a v h =
      let apart : k.same a b ≡ false = All-middle (λ e. k.same e.0 b ≡ false) m (a, v) rest h.0 in
      (ground (arith, k.same_iff a b, k.same_iff b a), IsFresh-of_IsMap m rest a v h.1)
