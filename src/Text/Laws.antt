-- ===== src/Text/Laws.antt =====
-- Equality of texts is decided by the test.
use costpilot.Prelude.{◌≡◌, refl, true, [], ◌∷◌, ◌↔◌, arith, Eq}
use costpilot.Text.{Text, text_eq}

pub text_eq-eq : (s t : Text) → text_eq s t ≡ true → s ≡ t
unfolding text_eq
text_eq-eq [] [] h = refl
text_eq-eq [] (y ∷ ys) h = cc
text_eq-eq (x ∷ xs) [] h = cc
text_eq-eq (x ∷ xs) (y ∷ ys) h = ground (arith, text_eq-eq xs ys)

pub text_eq_refl : (s : Text) → text_eq s s ≡ true
unfolding text_eq
text_eq_refl [] = refl
text_eq_refl (x ∷ xs) = ground (arith, text_eq_refl xs)

pub text_eq_iff : (s t : Text) → (text_eq s t ≡ true) ↔ (s ≡ t)
text_eq_iff s t = (text_eq-eq s t, λ e. rw e (text_eq_refl t))

instance abbrev pub text_instance : Eq Text
text_instance = record { same = text_eq; same_iff = text_eq_iff }
