-- ===== src/Rules/View.antt =====
-- What a keyword reads as: the look-up that the join, the sorting and the grouping amount to.
use article_sentinel.Base.{
  ℕ, Bool, false, ◌&&◌, ◌≡◌, ◌≢◌, refl, ap, ◌∙◌, inl, inr, arith, Option, none, some, List, [], ◌∷◌,
  ◌++◌, map, ◌==◌, ==_iff, if◌then◌else◌, contains_id, IsUnique, first_where, select_where, sort_by,
  resort, Bool-cases, Option-cases, Result, ok, failed,
}
use article_sentinel.Text.{Text}
use article_sentinel.Text.Order.{sort_strings, text_leb}
use article_sentinel.Text.Members.{text_order}
use article_sentinel.Model.{InspectionCategory, InspectionKeyword, InspectionKeywordScope}
use article_sentinel.Rules.{World, Env, RuleError, keyword_not_found}
use article_sentinel.Rules.Keywords.{
  KeywordRecord, is_category, is_keyword, is_scope_of, category_rows, joined_rows, keyword_query,
  get_keyword, scope_before, list_scopes,
}
use article_sentinel.Rules.Keywords
use article_sentinel.Rules.KeywordService.{KeywordDto, build_keyword_dto, stored_dto}

-- The server refuses nothing.
pub record IsServing (env : Env) : Type 0 where
  pub count_error : env.count_error ≡ none
  pub write_error : env.write_error ≡ none
  pub delete_scopes_error : env.delete_scopes_error ≡ none
  pub create_scopes_error : env.create_scopes_error ≡ none
  pub commit_error : env.commit_error ≡ none
  pub find_error : env.find_error ≡ none
  pub find_scopes_error : env.find_scopes_error ≡ none

abbrev pub keyword_ids : List InspectionKeyword → List ℕ
keyword_ids keywords = map (λ k. k.id) keywords

-- The keyword with its category's name.
abbrev pub row_of : List InspectionCategory → InspectionKeyword → Option KeywordRecord
row_of categories k = elim (first_where (is_category k.org_id k.category_id) categories) [
  | none ↦ none
  | some c ↦ some record { keyword = k; category_name = c.name }
]

abbrev pub row_of_found : List InspectionCategory → Option InspectionKeyword → Option KeywordRecord
row_of_found categories none = none
row_of_found categories (some k) = row_of categories k

find_row-append :
    (q : KeywordRecord → Bool) (xs ys : List KeywordRecord)
    → first_where q (xs ++ ys)
      ≡ elim (first_where q xs) [ none ↦ first_where q ys | some r ↦ some r ]
find_row-append q [] ys = refl
find_row-append q (x ∷ xs) ys = ground (arith, find_row-append q xs ys)

or_none : (a b : Option KeywordRecord) → b ≡ none → elim a [ none ↦ b | some r ↦ some r ] ≡ a
or_none none b h = h
or_none (some r) b h = refl

module _ (i : ℕ) where
  abbrev has_id : KeywordRecord → Bool
  has_id r = r.keyword.id == i

  find_category_row :
      (k : InspectionKeyword) (categories : List InspectionCategory)
      → first_where has_id (category_rows k categories)
        ≡ (if k.id == i then row_of categories k else none)
  unfolding category_rows is_category
  find_category_row k [] = ground arith
  find_category_row k (c ∷ categories) = ground (arith, find_category_row k categories)

  find_joined_none :
      (categories : List InspectionCategory) (org_id : ℕ) (keywords : List InspectionKeyword)
      → contains_id i (keyword_ids keywords) ≡ false
      → first_where has_id
          (joined_rows categories (select_where (λ k. k.org_id == org_id) keywords))
        ≡ none
  unfolding joined_rows
  find_joined_none categories org_id [] h = refl
  find_joined_none categories org_id (k ∷ keywords) h =
      let rest = find_joined_none categories org_id keywords (ground arith) in
      let first = find_category_row k categories in
      let both =
        find_row-append has_id (category_rows k categories)
          (joined_rows categories (select_where (λ k. k.org_id == org_id) keywords)) in
      let other : (k.id == i) ≡ false = ground arith in
      elim (Bool-cases (k.org_id == org_id)) [
        | inl e ↦ rw e (both ∙ rw (first, other) rest)
        | inr e ↦ rw e rest
      ]

  pub find_joined :
      (categories : List InspectionCategory) (org_id : ℕ) (keywords : List InspectionKeyword)
      → IsUnique (keyword_ids keywords)
      → first_where has_id
          (joined_rows categories (select_where (λ k. k.org_id == org_id) keywords))
        ≡ row_of_found categories (first_where (is_keyword org_id i) keywords)
  unfolding joined_rows is_keyword
  find_joined categories org_id [] h = refl
  find_joined categories org_id (k ∷ keywords) h =
      let rest = find_joined categories org_id keywords h.1 in
      let first = find_category_row k categories in
      let both =
        find_row-append has_id (category_rows k categories)
          (joined_rows categories (select_where (λ k. k.org_id == org_id) keywords)) in
      elim (Bool-cases (k.org_id == org_id)) [
        | inl e ↦ elim (Bool-cases (k.id == i)) [
          | inl f ↦
              let n = find_joined_none categories org_id keywords (ground arith) in
              rw (e, f) (both ∙ rw (first, f) (or_none (row_of categories k) _ n))
          | inr f ↦ rw (e, f) (both ∙ rw (first, f) rest)
        ]
        | inr e ↦ rw e rest
      ]

select-select {ℓ} :
    {A : Type ℓ} (p q r : A → Bool)
    → ((a : A) → (q a && p a) ≡ r a)
    → (xs : List A) → select_where p (select_where q xs) ≡ select_where r xs
select-select p q r h [] = refl
select-select p q r h (x ∷ xs) = let e = h x in ground (arith, select-select p q r h xs)

abbrev pub scopes_of : ℕ → ℕ → World → List Text
scopes_of org_id id w = map (λ s. s.scope) (select_where (is_scope_of org_id id) w.keyword_scopes)

abbrev pub dto_of : KeywordRecord → List Text → KeywordDto
dto_of r scopes =
    let k = r.keyword in
    record {
      id = k.id;
      org_id = k.org_id;
      name = k.name;
      category_id = k.category_id;
      category_name = r.category_name;
      match_type = k.match_type;
      risk_level = k.risk_level;
      suggest_action = k.suggest_action;
      enabled = k.enabled;
      remark = k.remark;
      scopes = scopes;
      creator_id = k.creator_id;
      creator_name = k.creator_name;
      updater_id = k.updater_id;
      updater_name = k.updater_name;
    }

abbrev pub view_of : Option KeywordRecord → List Text → Result RuleError KeywordDto
view_of none scopes = failed keyword_not_found
view_of (some r) scopes = ok (dto_of r scopes)

-- The keyword, its category's name and its scopes in order.
abbrev pub keyword_view : ℕ → ℕ → World → Result RuleError KeywordDto
keyword_view org_id id w =
    view_of (row_of_found w.categories (first_where (is_keyword org_id id) w.keywords))
      (sort_strings (scopes_of org_id id w))

module _ (env : Env) (serving : IsServing env) (org_id id : ℕ) (w : World) where
  listed_scopes :
      (scopes : ℕ → List InspectionKeywordScope) × (list_scopes env org_id (id ∷ []) w ≡ ok scopes)
      × (sort_strings (map (λ s. s.scope) (scopes id)) ≡ sort_strings (scopes_of org_id id w))
  unfolding list_scopes is_scope_of
  listed_scopes =
      let all =
        select_where (λ s. s.org_id == org_id && contains_id s.keyword_id (id ∷ []))
          w.keyword_scopes in
      (
        λ i. select_where (λ s. s.keyword_id == i) (sort_by (scope_before env.collate) all),
        rw serving.find_scopes_error refl,
        resort text_leb text_order (scope_before env.collate) (λ s. s.keyword_id == id)
              (λ s. s.scope) all
            ∙ ap (λ rows. sort_strings (map (λ s. s.scope) rows))
                (select-select _ _ (is_scope_of org_id id) (λ s. ground arith) w.keyword_scopes),
      )

  found_keyword :
      IsUnique (keyword_ids w.keywords)
      → get_keyword env org_id id w
        ≡ elim (row_of_found w.categories (first_where (is_keyword org_id id) w.keywords)) [
          | none ↦ failed keyword_not_found
          | some r ↦ ok r
        ]
  unfolding get_keyword keyword_query
  found_keyword unique =
      rw (serving.find_error, find_joined id w.categories org_id w.keywords unique) refl

  -- If the server refuses nothing, no id of a keyword is there twice and the ids asked for are not
  -- 0, what is read of a keyword by the join, the sorted scopes and their grouping is the look-up
  -- of its row, of the first category with its id, and its scopes in order; the order in which the
  -- server sorts texts does not matter.
  pub stored_dto-view :
      org_id ≢ 0
      → id ≢ 0
      → IsUnique (keyword_ids w.keywords)
      → stored_dto env org_id id w ≡ keyword_view org_id id w
  unfolding stored_dto Keywords.get build_keyword_dto
  stored_dto-view org id_pos unique =
      let (scopes, listed, sorted) = listed_scopes in
      let o = ==_iff org_id 0 in
      let i = ==_iff id 0 in
      let o' : (org_id == 0) ≡ false = ground arith in
      let i' : (id == 0) ≡ false = ground arith in
      elim (Option-cases
        (row_of_found w.categories (first_where (is_keyword org_id id) w.keywords))) [
          | inl e ↦ rw (o', i', found_keyword unique, e) refl
          | inr (r, e) ↦
              rw (o', i', found_keyword unique, e, listed) (ap (λ xs. ok (dto_of r xs)) sorted)
        ]
