-- ===== src/Assoc/Erase.antt =====
-- Taking an entry away, and other changes of the map.
use websockets.Prelude.{◌≡◌, false, refl, [], ◌∷◌, arith}
use websockets.Assoc.{Assoc, Key, insert, erase}
use websockets.Assoc.Laws.{IsFresh, same_refl}

module _ {K V : Type 0} ⦃k : Key K⦄ where
  pub erase-insert_other :
      (a b : K) (v : V) (m : Assoc K V)
      → k.same b a ≡ false
      → erase a (insert b v m) ≡ insert b v (erase a m)
  unfolding erase insert
  erase-insert_other a b v [] n = rw n refl
  erase-insert_other a b v ((c, w) ∷ m) n =
      ground (arith, k.same_iff c a, k.same_iff c b, k.same_iff b a, erase-insert_other a b v m n)

  pub erase-erase_other :
      (a b : K) (m : Assoc K V) → k.same b a ≡ false → erase a (erase b m) ≡ erase b (erase a m)
  unfolding erase
  erase-erase_other a b [] n = refl
  erase-erase_other a b ((c, w) ∷ m) n =
      ground (arith, k.same_iff c a, k.same_iff c b, k.same_iff b a, erase-erase_other a b m n)

  pub erase-insert_fresh :
      (a : K) (v : V) (m : Assoc K V) → IsFresh a m → erase a (insert a v m) ≡ m
  unfolding erase insert
  erase-insert_fresh a v [] h = rw (same_refl a) refl
  erase-insert_fresh a v ((c, w) ∷ m) h = ground (arith, erase-insert_fresh a v m)
