-- ===== src/Base/SortLaws.antt =====
-- Sorting by a total order forgets in which order the list came.
use mathlib.Core.Path.{◌≡◌, refl, sym, ap, ◌∙◌}
use mathlib.Core.Logic.{inl, inr}
use mathlib.Core.Bool.{Bool, true, false}
use mathlib.Core.List.{List, [], ◌∷◌, map}
use article_sentinel.Base.Tests.{Bool-cases}
use article_sentinel.Base.Lists.{All, All-map}
use article_sentinel.Base.Rows.{select_where, insert_by, sort_by}
use article_sentinel.Base.RowLaws.{All-insert_by}

pub record IsTotalOrder {ℓ} {A : Type ℓ} (before : A → A → Bool) : Type ℓ where
  pub trans : (x y z : A) → before x y ≡ true → before y z ≡ true → before x z ≡ true
  pub antisym : (x y : A) → before x y ≡ true → before y x ≡ true → x ≡ y
  pub total : (x y : A) → before x y ≡ false → before y x ≡ true

-- Every element may stand before those that follow it.
abbrev pub IsSorted {ℓ} : {A : Type ℓ} → (A → A → Bool) → List A → Type ℓ
IsSorted before [] = Unit
IsSorted before (x ∷ xs) = All (λ y. before x y ≡ true) xs × IsSorted before xs

module _ {ℓ} {A : Type ℓ} (before : A → A → Bool) where
  insert_first :
      (x : A) (xs : List A) → All (λ y. before x y ≡ true) xs → insert_by before x xs ≡ x ∷ xs
  insert_first x [] h = refl
  insert_first x (y ∷ ys) h = rw h.0 refl

  pub sort_sorted : (xs : List A) → IsSorted before xs → sort_by before xs ≡ xs
  sort_sorted [] h = refl
  sort_sorted (x ∷ xs) h = ap (insert_by before x) (sort_sorted xs h.1) ∙ insert_first x xs h.0

  module _ (order : IsTotalOrder before) where
    insert_same :
        (x y : A) (zs : List A)
        → x ≡ y
        → insert_by before x (insert_by before y zs) ≡ insert_by before y (insert_by before x zs)
    insert_same x y zs e =
        ap (λ w. insert_by before w (insert_by before y zs)) e
        ∙ ap (λ w. insert_by before y (insert_by before w zs)) (sym e)

    insert_swap :
        (x y : A) (zs : List A)
        → before x y ≡ true
        → insert_by before x (insert_by before y zs) ≡ insert_by before y (insert_by before x zs)
    insert_swap x y [] h = elim (Bool-cases (before y x)) [
      | inl e ↦ insert_same x y [] (order.antisym x y h e)
      | inr e ↦ rw (h, e) refl
    ]
    insert_swap x y (z ∷ zs) h = elim (Bool-cases (before y x)) [
      | inl e ↦ insert_same x y (z ∷ zs) (order.antisym x y h e)
      | inr e ↦ elim (Bool-cases (before y z)) [
        | inl f ↦ rw (order.trans x y z h f, e, f, h) refl
        | inr f ↦ elim (Bool-cases (before x z)) [
          | inl g ↦ rw (g, e, f, g) refl
          | inr g ↦ rw (g, f, g) (ap (λ ws. z ∷ ws) (insert_swap x y zs h))
        ]
      ]
    ]

    pub insert_commutes :
        (x y : A) (zs : List A)
        → insert_by before x (insert_by before y zs) ≡ insert_by before y (insert_by before x zs)
    insert_commutes x y zs = elim (Bool-cases (before x y)) [
      | inl e ↦ insert_swap x y zs e
      | inr e ↦ sym (insert_swap y x zs (order.total x y e))
    ]

    insert-IsSorted :
        (x : A) (xs : List A) → IsSorted before xs → IsSorted before (insert_by before x xs)
    insert-IsSorted x [] h = (tt, tt)
    insert-IsSorted x (y ∷ ys) h = elim (Bool-cases (before x y)) [
      | inl e ↦ rw e (
        (
          e,
          All-map (λ z. before y z ≡ true) (λ z. before x z ≡ true) (λ z. order.trans x y z e) ys
              h.0,
        ),
        h,
      )
      | inr e ↦ rw e (
        All-insert_by (λ z. before y z ≡ true) before x ys (order.total x y e) h.0,
        insert-IsSorted x ys h.1,
      )
    ]

    pub sort_by-IsSorted : (xs : List A) → IsSorted before (sort_by before xs)
    sort_by-IsSorted [] = tt
    sort_by-IsSorted (x ∷ xs) = insert-IsSorted x (sort_by before xs) (sort_by-IsSorted xs)

-- Rows that a statement has selected in its own order, then sorted by a value of theirs.
module _ {ℓ κ} {R : Type ℓ} {A : Type κ} (before : A → A → Bool) (order : IsTotalOrder before)
    (d : R → R → Bool) (p : R → Bool) (g : R → A) where
  resort_insert :
      (r : R) (rows : List R)
      → sort_by before (map g (select_where p (insert_by d r rows)))
        ≡ sort_by before (map g (select_where p (r ∷ rows)))
  resort_insert r [] = refl
  resort_insert r (x ∷ rows) = elim (Bool-cases (d r x)) [
    | inl e ↦ rw e refl
    | inr e ↦ elim (Bool-cases (p x)) [
      | inl f ↦ elim (Bool-cases (p r)) [
        | inl k ↦
            let again = ap (insert_by before (g x)) (resort_insert r rows) in
            let swap =
              insert_commutes before order (g x) (g r)
                (sort_by before (map g (select_where p rows))) in
            rw (e, f, k) (again ∙ rw k swap)
        | inr k ↦ rw (e, f, k) (ap (insert_by before (g x)) (resort_insert r rows) ∙ rw k refl)
      ]
      | inr f ↦ rw (e, f) (resort_insert r rows)
    ]
  ]

  pub resort :
      (rows : List R)
      → sort_by before (map g (select_where p (sort_by d rows)))
        ≡ sort_by before (map g (select_where p rows))
  resort [] = refl
  resort (r ∷ rows) = resort_insert r (sort_by d rows) ∙ (elim (Bool-cases (p r)) [
    | inl e ↦ rw e (ap (insert_by before (g r)) (resort rows))
    | inr e ↦ rw e (resort rows)
  ])
