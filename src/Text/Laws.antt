-- ===== src/Text/Laws.antt =====
-- Laws of the comparison of texts.
use article_sentinel.Base.{true, false, ◌≡◌, refl, ◌≢◌, [], ◌∷◌, arith, Bool-cases, inl, inr}
use article_sentinel.Text.{Text, text_eq}

pub text_eq_refl : (s : Text) → text_eq s s ≡ true
unfolding text_eq
text_eq_refl [] = refl
text_eq_refl (a ∷ s) = ground (arith, text_eq_refl s)

pub eq_of_text_eq : (s t : Text) → text_eq s t ≡ true → s ≡ t
unfolding text_eq
eq_of_text_eq [] [] h = refl
eq_of_text_eq [] (b ∷ t) h = cc
eq_of_text_eq (a ∷ s) [] h = cc
eq_of_text_eq (a ∷ s) (b ∷ t) h = ground (arith, eq_of_text_eq s t)

pub text_eq_of_eq : (s t : Text) → s ≡ t → text_eq s t ≡ true
text_eq_of_eq s t e = rw e (text_eq_refl t)

pub text_eq_of_ne : (s t : Text) → s ≢ t → text_eq s t ≡ false
text_eq_of_ne s t ne = elim (Bool-cases (text_eq s t)) [
  | inl e ↦ absurd (ne (eq_of_text_eq s t e))
  | inr e ↦ e
]
