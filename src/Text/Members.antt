-- ===== src/Text/Members.antt =====
-- Lists of texts as sets: what is a member, no member twice, and the sorted list of a set.
use article_sentinel.Base.{
  true, false, ◌||◌, ◌≡◌, refl, sym, ap, ◌∙◌, inl, inr, List, [], ◌∷◌, ◌++◌, All, insert_by,
  IsSorted, IsTotalOrder, Bool-cases, arith,
}
use article_sentinel.Text.{Text, text_eq}
use article_sentinel.Text.Laws.{eq_of_text_eq, text_eq_refl}
use article_sentinel.Text.Order.{
  text_leb, text_leb_refl, text_leb_trans, text_leb_antisym, text_leb_total, sort_strings,
  contains_string,
}

pub text_order : IsTotalOrder text_leb
text_order = record { trans = text_leb_trans; antisym = text_leb_antisym; total = text_leb_total }

abbrev pub IsDistinct : List Text → Type 0
IsDistinct [] = Unit
IsDistinct (x ∷ xs) = (contains_string xs x ≡ false) × IsDistinct xs

pub contains_string-append :
    (xs ys : List Text) (t : Text)
    → contains_string (xs ++ ys) t ≡ (contains_string xs t || contains_string ys t)
unfolding contains_string
contains_string-append [] ys t = refl
contains_string-append (x ∷ xs) ys t = ground (arith, contains_string-append xs ys t)

contains_string-insert :
    (x : Text) (xs : List Text) (t : Text)
    → contains_string (insert_by text_leb x xs) t ≡ (text_eq x t || contains_string xs t)
unfolding contains_string
contains_string-insert x [] t = refl
contains_string-insert x (y ∷ ys) t = ground (arith, contains_string-insert x ys t)

pub contains_string-sort :
    (xs : List Text) (t : Text) → contains_string (sort_strings xs) t ≡ contains_string xs t
unfolding contains_string
contains_string-sort [] t = refl
contains_string-sort (x ∷ xs) t =
    contains_string-insert x (sort_strings xs) t
    ∙ ap (λ b. text_eq x t || b) (contains_string-sort xs t)

text_eq_sym : (s t : Text) → text_eq s t ≡ text_eq t s
unfolding text_eq
text_eq_sym [] [] = refl
text_eq_sym [] (b ∷ t) = refl
text_eq_sym (a ∷ s) [] = refl
text_eq_sym (a ∷ s) (b ∷ t) = ground (arith, text_eq_sym s t)

insert-IsDistinct :
    (x : Text) (xs : List Text)
    → contains_string xs x ≡ false
    → IsDistinct xs
    → IsDistinct (insert_by text_leb x xs)
unfolding contains_string
insert-IsDistinct x [] h d = (refl, tt)
insert-IsDistinct x (y ∷ ys) h d = elim (Bool-cases (text_leb x y)) [
  | inl e ↦ rw e (h, d)
  | inr e ↦
      let s = text_eq_sym x y in
      let c = contains_string-insert x ys y in
      rw e (ground arith, insert-IsDistinct x ys (ground arith) d.1)
]

pub sort-IsDistinct : (xs : List Text) → IsDistinct xs → IsDistinct (sort_strings xs)
sort-IsDistinct [] d = tt
sort-IsDistinct (x ∷ xs) d =
    insert-IsDistinct x (sort_strings xs) (contains_string-sort xs x ∙ d.0) (sort-IsDistinct xs d.1)

member_after :
    (x : Text) (xs : List Text) (t : Text)
    → All (λ y. text_leb x y ≡ true) xs
    → contains_string xs t ≡ true
    → text_leb x t ≡ true
unfolding contains_string
member_after x [] t h m = cc
member_after x (y ∷ ys) t h m = elim (Bool-cases (text_eq y t)) [
  | inl e ↦ rw (← eq_of_text_eq y t e) h.0
  | inr e ↦ member_after x ys t h.1 (ground arith)
]

-- The first of a sorted list is not after any member.
first_before :
    (x : Text) (xs : List Text) (t : Text)
    → All (λ y. text_leb x y ≡ true) xs
    → contains_string (x ∷ xs) t ≡ true
    → text_leb x t ≡ true
unfolding contains_string
first_before x xs t h m = elim (Bool-cases (text_eq x t)) [
  | inl e ↦ rw (← eq_of_text_eq x t e) (text_leb_refl x)
  | inr e ↦ member_after x xs t h (ground arith)
]

same_rest :
    (x : Text) (xs ys : List Text)
    → contains_string xs x ≡ false
    → contains_string ys x ≡ false
    → ((t : Text) → contains_string (x ∷ xs) t ≡ contains_string (x ∷ ys) t)
    → (t : Text) → contains_string xs t ≡ contains_string ys t
unfolding contains_string
same_rest x xs ys hx hy same t = elim (Bool-cases (text_eq x t)) [
  | inl e ↦ let q = eq_of_text_eq x t e in rw (← q) (hx ∙ sym hy)
  | inr e ↦ let s = same t in ground arith
]

-- A set has one sorted list without repetitions.
pub sorted_unique :
    (xs ys : List Text)
    → IsSorted text_leb xs
    → IsDistinct xs
    → IsSorted text_leb ys
    → IsDistinct ys
    → ((t : Text) → contains_string xs t ≡ contains_string ys t)
    → xs ≡ ys
unfolding contains_string
sorted_unique [] [] sx dx sy dy same = refl
sorted_unique [] (y ∷ ys) sx dx sy dy same =
    let s = same y in let r = text_eq_refl y in absurd (ground arith)
sorted_unique (x ∷ xs) [] sx dx sy dy same =
    let s = same x in let r = text_eq_refl x in absurd (ground arith)
sorted_unique (x ∷ xs) (y ∷ ys) sx dx sy dy same =
    let rx = text_eq_refl x in
    let ry = text_eq_refl y in
    let sx' = same x in
    let sy' = same y in
    let mx : contains_string (y ∷ ys) x ≡ true = ground arith in
    let my : contains_string (x ∷ xs) y ≡ true = ground arith in
    let e = text_leb_antisym x y (first_before x xs y sx.0 my) (first_before y ys x sy.0 mx) in
    let absent : contains_string ys x ≡ false = rw e dy.0 in
    let same' : (t : Text) → contains_string (x ∷ xs) t ≡ contains_string (x ∷ ys) t =
      λ t. same t ∙ ap (λ z. contains_string (z ∷ ys) t) (sym e) in
    ap (λ zs. x ∷ zs)
      (sorted_unique xs ys sx.1 dx.1 sy.1 dy.1 (same_rest x xs ys dx.0 absent same'))
    ∙ ap (λ z. z ∷ ys) e
