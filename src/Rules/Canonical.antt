-- ===== src/Rules/Canonical.antt =====
-- What `normalizeKeywordScopes` makes of a list of scopes depends on the set that they are.
use article_sentinel.Base.{
  true, false, ◌||◌, ◌≡◌, ◌≢◌, ◌⊎◌, refl, sym, ap, ◌∙◌, inl, inr, List, [], ◌∷◌, ◌++◌, map, All,
  Bool-cases, arith, if◌then◌else◌, ok, failed, IsSorted, sort_by-IsSorted,
}
use article_sentinel.Text.{Text, Unicode, text_eq}
use article_sentinel.Text.Order.{contains_string, sort_strings, text_leb}
use article_sentinel.Text.Members.{
  IsDistinct, contains_string-append, contains_string-sort, sort-IsDistinct, sorted_unique,
  text_order,
}
use article_sentinel.Text.Laws.{eq_of_text_eq, text_eq_of_eq}
use article_sentinel.Domain.{keyword_scopes}
use article_sentinel.Rules.{invalid_keyword_input, unsupported_scope, scopes_are_required}
use article_sentinel.Rules.Normalize.{clean, collect_scopes, normalize_keyword_scopes}

-- Every scope is one of the domain's, once it is cleaned.
abbrev pub AllSupported : Unicode → List Text → Type 0
AllSupported u xs = All (λ s. contains_string keyword_scopes (clean u s) ≡ true) xs

append-IsDistinct :
    (xs : List Text) (x : Text)
    → IsDistinct xs
    → contains_string xs x ≡ false
    → IsDistinct (xs ++ x ∷ [])
unfolding contains_string
append-IsDistinct [] x d h = (refl, tt)
append-IsDistinct (y ∷ ys) x d h =
    let c = contains_string-append ys (x ∷ []) y in
    (
      elim (Bool-cases (text_eq x y)) [
        | inl e ↦
            let q = eq_of_text_eq x y e in
            absurd (let r : text_eq y x ≡ true = text_eq_of_eq y x (sym q) in ground arith)
        | inr e ↦ ground arith
      ],
      append-IsDistinct ys x d.1 (ground arith),
    )

module _ (u : Unicode) where
  -- What the loop has collected.
  abbrev IsCollected : List Text → List Text → List Text → Type 0
  IsCollected xs acc r =
      IsDistinct r
      × ((t : Text)
          → contains_string r t ≡ (contains_string acc t || contains_string (map (clean u) xs) t))

  abbrev collected : List Text → Text → List Text
  collected acc scope = if contains_string acc scope then acc else acc ++ scope ∷ []

  collected-IsDistinct :
      (acc : List Text) (scope : Text) → IsDistinct acc → IsDistinct (collected acc scope)
  collected-IsDistinct acc scope d = elim (Bool-cases (contains_string acc scope)) [
    | inl e ↦ rw e d
    | inr e ↦ rw e (append-IsDistinct acc scope d e)
  ]

  contains_string-collected :
      (acc : List Text) (scope t : Text)
      → contains_string (collected acc scope) t ≡ (contains_string acc t || text_eq scope t)
  unfolding contains_string
  contains_string-collected acc scope t = elim (Bool-cases (contains_string acc scope)) [
    | inl e ↦ elim (Bool-cases (text_eq scope t)) [
      | inl f ↦
          let q = eq_of_text_eq scope t f in
          let m : contains_string acc t ≡ true = rw (← q) e in ground arith
      | inr f ↦ ground arith
    ]
    | inr e ↦ let c = contains_string-append acc (scope ∷ []) t in ground arith
  ]

  collect_supported :
      (xs acc : List Text)
      → IsDistinct acc
      → AllSupported u xs
      → (r : List Text) × (collect_scopes u xs acc ≡ ok r) × IsCollected xs acc r
  unfolding collect_scopes contains_string
  collect_supported [] acc d h = (acc, refl, (d, λ t. ground arith))
  collect_supported (s ∷ xs) acc d h =
      let (r, same, (distinct, members)) =
        collect_supported xs (collected acc (clean u s)) (collected-IsDistinct acc (clean u s) d)
          h.1 in
      (
        r,
        rw h.0 same,
        (
          distinct,
          λ t.
              let c = contains_string-collected acc (clean u s) t in
              let m = members t in ground arith,
        ),
      )

  -- `bad` is the first of the scopes that, once it is cleaned, is not one of the domain's.
  abbrev pub IsFirstUnsupported : List Text → Text → Type 0
  IsFirstUnsupported xs bad =
      (before after : List Text) × (xs ≡ before ++ bad ∷ after)
      × AllSupported u before
      × (contains_string keyword_scopes (clean u bad) ≡ false)

  collect_unsupported :
      (xs acc : List Text)
      → (AllSupported u xs)
        ⊎ ((bad : Text) × (IsFirstUnsupported xs bad)
            × (collect_scopes u xs acc
                ≡ failed (invalid_keyword_input (unsupported_scope (clean u bad)))))
  unfolding collect_scopes contains_string
  collect_unsupported [] acc = inl tt
  collect_unsupported (s ∷ xs) acc =
      elim (Bool-cases (contains_string keyword_scopes (clean u s))) [
        | inl e ↦ elim (collect_unsupported xs (collected acc (clean u s))) [
          | inl h ↦ inl (e, h)
          | inr (bad, (before, after, split, all, refused), same) ↦
              inr (bad, (s ∷ before, after, ap (λ ys. s ∷ ys) split, (e, all), refused), rw e same)
        ]
        | inr e ↦ inr (s, ([], xs, refl, tt, e), rw e refl)
      ]

  -- `r` is the sorted list, without repetitions, of the cleaned scopes.
  abbrev pub IsCanonical : List Text → List Text → Type 0
  IsCanonical xs r =
      IsSorted text_leb r
      × IsDistinct r
      × ((t : Text) → contains_string r t ≡ contains_string (map (clean u) xs) t)

  -- The scopes of an input are refused as missing exactly if there are none; otherwise, if one of
  -- them, in lower case and trimmed, is not a scope of the domain, they are refused with the first
  -- such scope; otherwise the result is the ascending list, without repetitions, of the cleaned
  -- scopes.
  pub normalize_keyword_scopes-IsCanonical :
      (xs : List Text)
      → ((xs ≡ [])
          × (normalize_keyword_scopes u xs ≡ failed (invalid_keyword_input scopes_are_required)))
        ⊎ ((bad : Text) × (IsFirstUnsupported xs bad)
            × (normalize_keyword_scopes u xs
                ≡ failed (invalid_keyword_input (unsupported_scope (clean u bad)))))
        ⊎ ((r : List Text) × (xs ≢ [])
            × AllSupported u xs
            × (normalize_keyword_scopes u xs ≡ ok r)
            × IsCanonical xs r)
  unfolding normalize_keyword_scopes
  normalize_keyword_scopes-IsCanonical [] = inl (refl, refl)
  normalize_keyword_scopes-IsCanonical (x ∷ xs) = elim (collect_unsupported (x ∷ xs) []) [
    | inr (bad, first, same) ↦ inr (inl (bad, first, rw same refl))
    | inl all ↦
        let (r, same, (distinct, members)) = collect_supported (x ∷ xs) [] tt all in
        inr (
          inr (
            sort_strings r,
            λ e. cc,
            all,
            rw same refl,
            (
              sort_by-IsSorted text_leb text_order r,
              sort-IsDistinct r distinct,
              λ t. contains_string-sort r t ∙ members t,
            ),
          ))
  ]

  pub normalized-IsCanonical :
      (xs r : List Text) → normalize_keyword_scopes u xs ≡ ok r → IsCanonical xs r
  normalized-IsCanonical xs r e = elim (normalize_keyword_scopes-IsCanonical xs) [
    | inl (none_given, f) ↦ absurd cc
    | inr (inl (bad, first, f)) ↦ absurd cc
    | inr (inr (r', given, all, f, canonical)) ↦ let q : r' ≡ r = cc in rw (← q) canonical
  ]

  -- Two lists that are the same set of cleaned scopes are normalised to the same list.
  pub normalize_keyword_scopes-same_set :
      (xs ys rx ry : List Text)
      → normalize_keyword_scopes u xs ≡ ok rx
      → normalize_keyword_scopes u ys ≡ ok ry
      → ((t : Text) → contains_string (map (clean u) xs) t ≡ contains_string (map (clean u) ys) t)
      → rx ≡ ry
  normalize_keyword_scopes-same_set xs ys rx ry ex ey same =
      let (sx, dx, mx) = normalized-IsCanonical xs rx ex in
      let (sy, dy, my) = normalized-IsCanonical ys ry ey in
      sorted_unique rx ry sx dx sy dy (λ t. mx t ∙ same t ∙ sym (my t))
