-- ===== src/Text/Laws.antt =====
-- Equality of texts is decided by `text_eq`.
use websockets.Prelude.{◌≡◌, refl, ◌↔◌, true, [], ◌∷◌, arith, subst}
use websockets.Text.{Text, text_eq}

pub text_eq_refl : (a : Text) → text_eq a a ≡ true
unfolding text_eq
text_eq_refl [] = refl
text_eq_refl (x ∷ a) = ground (arith, text_eq_refl a)

text_eq_sound : (a b : Text) → text_eq a b ≡ true → a ≡ b
unfolding text_eq
text_eq_sound [] [] h = refl
text_eq_sound (x ∷ a) (y ∷ b) h = ground (arith, text_eq_sound a b)
text_eq_sound [] (y ∷ b) h = cc
text_eq_sound (x ∷ a) [] h = cc

pub text_eq_iff : (a b : Text) → (text_eq a b ≡ true) ↔ (a ≡ b)
text_eq_iff a b = (text_eq_sound a b, λ e. subst (λ t. text_eq a t ≡ true) e (text_eq_refl a))

text_eq_sym : (a b : Text) → text_eq a b ≡ text_eq b a
text_eq_sym a b = ground (arith, text_eq_iff a b, text_eq_iff b a)
