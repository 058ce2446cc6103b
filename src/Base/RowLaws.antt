-- ===== src/Base/RowLaws.antt =====
-- Laws of the statements on a table.
use Prim.Native.Nat.{ℕ, ◌+◌, ◌<◌}
use mathlib.Core.Path.{◌≡◌, refl, ap, ◌∙◌}
use mathlib.Core.Logic.{inl, inr}
use mathlib.Core.Bool.{Bool, true, false, not}
use mathlib.Core.Option.{none, some}
use mathlib.Core.List.{List, [], ◌∷◌, ◌++◌, append-nil}
use native.Mathlib.Omega.{arith}
use article_sentinel.Base.Tests.{if◌then◌else◌, Bool-cases, ◌==◌, is_some}
use article_sentinel.Base.Lists.{All}
use article_sentinel.Base.Rows.{
  first_where, select_where, update_where, delete_where, rows_affected, insert_by, sort_by,
}

module _ {ℓ} {A : Type ℓ} where
  -- A row that is looked up by a column that the update leaves alone is updated in place.
  pub first_where-update_where :
      (q p : A → Bool) (f : A → A)
      → ((a : A) → q (f a) ≡ q a)
      → (xs : List A)
      → first_where q (update_where p f xs)
        ≡ elim (first_where q xs) [ none ↦ none | some a ↦ some (if p a then f a else a) ]
  first_where-update_where q p f keep [] = refl
  first_where-update_where q p f keep (x ∷ xs) =
      ground (arith, keep x, first_where-update_where q p f keep xs)

  pub first_where-holds :
      (q : A → Bool) (xs : List A) {a : A} → first_where q xs ≡ some a → q a ≡ true
  first_where-holds q [] h = cc
  first_where-holds q (x ∷ xs) {a} h = ground (arith, first_where-holds q xs {a = a})

  pub rows_affected_pos :
      (q p : A → Bool) (xs : List A) {a : A}
      → first_where q xs ≡ some a
      → p a ≡ true
      → 0 < rows_affected p xs
  rows_affected_pos q p [] h e = cc
  rows_affected_pos q p (x ∷ xs) {a} h e = ground (arith, rows_affected_pos q p xs {a = a})

  pub All-first_where {κ} :
      (P : A → Type κ) (q : A → Bool) (xs : List A) {a : A}
      → All P xs
      → first_where q xs ≡ some a
      → P a
  All-first_where P q [] h e = cc
  All-first_where P q (x ∷ xs) {a} h e = elim (Bool-cases (q x)) [
    | inl t ↦ let e' : x ≡ a = ground arith in rw (← e') h.0
    | inr t ↦ All-first_where P q xs h.1 (ground arith)
  ]

  pub All-update_where {κ} :
      (P : A → Type κ) (p : A → Bool) (f : A → A)
      → ((a : A) → P a → p a ≡ true → P (f a))
      → (xs : List A) → All P xs
      → All P (update_where p f xs)
  All-update_where P p f keep [] h = tt
  All-update_where P p f keep (x ∷ xs) h = (
    elim (Bool-cases (p x)) [ inl e ↦ rw e (keep x h.0 e) | inr e ↦ rw e h.0 ],
    All-update_where P p f keep xs h.1,
  )

  pub All-select_where {κ} :
      (P : A → Type κ) (p : A → Bool) (xs : List A) → All P xs → All P (select_where p xs)
  All-select_where P p [] h = tt
  All-select_where P p (x ∷ xs) h = elim (Bool-cases (p x)) [
    | inl e ↦ rw e (h.0, All-select_where P p xs h.1)
    | inr e ↦ rw e (All-select_where P p xs h.1)
  ]

  pub select_where-holds : (p : A → Bool) (xs : List A) → All (λ a. p a ≡ true) (select_where p xs)
  select_where-holds p [] = tt
  select_where-holds p (x ∷ xs) = elim (Bool-cases (p x)) [
    | inl e ↦ rw e (e, select_where-holds p xs)
    | inr e ↦ rw e (select_where-holds p xs)
  ]

  pub All-insert_by {κ} :
      (P : A → Type κ) (before : A → A → Bool) (x : A) (xs : List A)
      → P x
      → All P xs
      → All P (insert_by before x xs)
  All-insert_by P before x [] px h = (px, tt)
  All-insert_by P before x (y ∷ ys) px h = elim (Bool-cases (before x y)) [
    | inl e ↦ rw e (px, h)
    | inr e ↦ rw e (h.0, All-insert_by P before x ys px h.1)
  ]

  pub All-sort_by {κ} :
      (P : A → Type κ) (before : A → A → Bool) (xs : List A) → All P xs → All P (sort_by before xs)
  All-sort_by P before [] h = tt
  All-sort_by P before (x ∷ xs) h =
      All-insert_by P before x (sort_by before xs) h.0 (All-sort_by P before xs h.1)

  -- The rows that an update leaves out stay as they were.
  pub delete_where-update_where :
      (p : A → Bool) (f : A → A)
      → ((a : A) → p (f a) ≡ p a)
      → (xs : List A) → delete_where p (update_where p f xs) ≡ delete_where p xs
  delete_where-update_where p f keep [] = refl
  delete_where-update_where p f keep (x ∷ xs) =
      ground (arith, keep x, delete_where-update_where p f keep xs)

module _ {ℓ} {A : Type ℓ} (p : A → Bool) where
  pub rows_affected-delete : (xs : List A) → rows_affected p (delete_where p xs) ≡ 0
  rows_affected-delete [] = refl
  rows_affected-delete (x ∷ xs) = ground (arith, rows_affected-delete xs)

  pub rows_affected-append :
      (xs ys : List A) → rows_affected p (xs ++ ys) ≡ rows_affected p xs + rows_affected p ys
  rows_affected-append [] ys = omega arith
  rows_affected-append (x ∷ xs) ys = ground (arith, rows_affected-append xs ys)

  pub delete-append :
      (xs ys : List A) → delete_where p (xs ++ ys) ≡ delete_where p xs ++ delete_where p ys
  delete-append [] ys = refl
  delete-append (x ∷ xs) ys = elim (Bool-cases (p x)) [
    | inl e ↦ rw e (delete-append xs ys)
    | inr e ↦ rw e (ap (λ zs. x ∷ zs) (delete-append xs ys))
  ]

  pub delete-delete : (xs : List A) → delete_where p (delete_where p xs) ≡ delete_where p xs
  delete-delete [] = refl
  delete-delete (x ∷ xs) = elim (Bool-cases (p x)) [
    | inl e ↦ rw e (delete-delete xs)
    | inr e ↦ rw e (rw e (ap (λ zs. x ∷ zs) (delete-delete xs)))
  ]

  -- Rows that `p` selects stand after the replacement where others that it selects stood before.
  pub replace-others :
      (xs ys : List A)
      → delete_where p ys ≡ []
      → delete_where p (delete_where p xs ++ ys) ≡ delete_where p xs
  replace-others xs ys h =
      delete-append (delete_where p xs) ys
      ∙ ap (λ zs. delete_where p (delete_where p xs) ++ zs) h
      ∙ append-nil (delete_where p (delete_where p xs))
      ∙ delete-delete xs

  pub replace-count :
      (xs ys : List A) (n : ℕ)
      → rows_affected p ys ≡ n
      → rows_affected p (delete_where p xs ++ ys) ≡ n
  replace-count xs ys n h =
      let e = rows_affected-append (delete_where p xs) ys in
      let d = rows_affected-delete xs in omega arith

module _ {ℓ} {A : Type ℓ} where
  pub first_where-some :
      (p : A → Bool) (xs : List A) → is_some (first_where p xs) ≡ not (rows_affected p xs == 0)
  first_where-some p [] = refl
  first_where-some p (x ∷ xs) = ground (arith, first_where-some p xs)

  -- The rows that a deletion leaves out are found as before.
  pub first_where-delete_where :
      (q p : A → Bool)
      → ((a : A) → q a ≡ true → p a ≡ false)
      → (xs : List A) → first_where q (delete_where p xs) ≡ first_where q xs
  first_where-delete_where q p other [] = refl
  first_where-delete_where q p other (x ∷ xs) =
      let o = other x in ground (arith, first_where-delete_where q p other xs)

  pub first_where-deleted : (p : A → Bool) (xs : List A) → first_where p (delete_where p xs) ≡ none
  first_where-deleted p [] = refl
  first_where-deleted p (x ∷ xs) = ground (arith, first_where-deleted p xs)

  pub All-delete_where {κ ι} :
      (P : A → Type κ) (Q : A → Type ι) (p : A → Bool)
      → ((a : A) → P a → p a ≡ false → Q a)
      → (xs : List A) → All P xs
      → All Q (delete_where p xs)
  All-delete_where P Q p keep [] h = tt
  All-delete_where P Q p keep (x ∷ xs) h = elim (Bool-cases (p x)) [
    | inl e ↦ rw e (All-delete_where P Q p keep xs h.1)
    | inr e ↦ rw e (keep x h.0 e, All-delete_where P Q p keep xs h.1)
  ]

  pub select_where-append :
      (q : A → Bool) (xs ys : List A)
      → select_where q (xs ++ ys) ≡ select_where q xs ++ select_where q ys
  select_where-append q [] ys = refl
  select_where-append q (x ∷ xs) ys = elim (Bool-cases (q x)) [
    | inl e ↦ rw e (ap (λ zs. x ∷ zs) (select_where-append q xs ys))
    | inr e ↦ rw e (select_where-append q xs ys)
  ]

  pub select_where-delete_where :
      (q p : A → Bool)
      → ((a : A) → q a ≡ true → p a ≡ false)
      → (xs : List A) → select_where q (delete_where p xs) ≡ select_where q xs
  select_where-delete_where q p other [] = refl
  select_where-delete_where q p other (x ∷ xs) =
      let o = other x in ground (arith, select_where-delete_where q p other xs)

  pub select_where-deleted : (p : A → Bool) (xs : List A) → select_where p (delete_where p xs) ≡ []
  select_where-deleted p [] = refl
  select_where-deleted p (x ∷ xs) = ground (arith, select_where-deleted p xs)

  -- Rows that the update leaves out are found as before.
  pub first_where-update_others :
      (q p : A → Bool) (f : A → A)
      → ((a : A) → q (f a) ≡ q a)
      → ((a : A) → q a ≡ true → p a ≡ false)
      → (xs : List A) → first_where q (update_where p f xs) ≡ first_where q xs
  first_where-update_others q p f keep other [] = refl
  first_where-update_others q p f keep other (x ∷ xs) =
      let o = other x in
      let k = keep x in ground (arith, first_where-update_others q p f keep other xs)
