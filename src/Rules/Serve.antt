-- ===== src/Rules/Serve.antt =====
-- The changes that a server which refuses nothing makes, and the scopes that they leave.
use article_sentinel.Base.{
  ℕ, suc, Bool, true, false, ◌&&◌, ◌≡◌, ◌≢◌, refl, sym, ap, ◌∙◌, arith, none, some, List, [], ◌∷◌,
  ◌++◌, append-nil, map, ◌==◌, ==_iff, ==_refl, All, is_some, select_where, first_where,
  first_where-some, select_where-append, rows_affected, rows_affected_pos, first_where-holds,
  contains_id, IsUnique, ◌<◌, Result, ok, failed, Bool-cases, inl, inr,
}
use article_sentinel.Text.{Text}
use article_sentinel.Model.{InspectionCategory, InspectionKeyword, InspectionKeywordScope}
use article_sentinel.Rules.{World, Env, RuleError, keyword_not_found}
use article_sentinel.Rules.Keywords.{
  is_category, is_keyword, is_scope_of, scope_rows, create_scopes, ensure_keyword_category_exists,
  found_rows, insert_keyword, set_keyword, keyword_changed,
}
use article_sentinel.Rules.Keywords
use article_sentinel.Rules.KeywordService.{build_keyword_scopes}
use article_sentinel.Rules.View.{IsServing, scopes_of, keyword_ids}
use article_sentinel.Rules.Sound.{IsSound}
use article_sentinel.Rules.Changes.{
  with_scopes, with_no_scopes, created_world, updated_world, deleted_world,
}

row_there {ℓ} :
    {A : Type ℓ} (p : A → Bool) (rows : List A) (a : A)
    → first_where p rows ≡ some a
    → (rows_affected p rows == 0) ≡ false
row_there p rows a h = let e = first_where-some p rows in ground arith

-- Of the rows with an id at most the one that is there changes.
unselected_rows :
    (org_id id : ℕ) (q : InspectionKeyword → Bool) (rows : List InspectionKeyword)
    → contains_id id (keyword_ids rows) ≡ false
    → rows_affected (λ a. is_keyword org_id id a && q a) rows ≡ 0
unfolding is_keyword
unselected_rows org_id id q [] h = refl
unselected_rows org_id id q (k ∷ rows) h =
    let e = ==_iff k.id id in
    let e' = ==_iff id k.id in ground (arith, unselected_rows org_id id q rows)

unchanged_rows :
    (org_id id : ℕ) (q : InspectionKeyword → Bool) (rows : List InspectionKeyword)
    (k0 : InspectionKeyword)
    → IsUnique (keyword_ids rows)
    → first_where (is_keyword org_id id) rows ≡ some k0
    → q k0 ≡ false
    → rows_affected (λ a. is_keyword org_id id a && q a) rows ≡ 0
unfolding is_keyword
unchanged_rows org_id id q [] k0 unique found same = refl
unchanged_rows org_id id q (k ∷ rows) k0 unique found same =
    elim (Bool-cases (k.org_id == org_id && k.id == id)) [
      | inl e ↦
          let here : k ≡ k0 = ground arith in
          let key : k.id ≡ id = let i = ==_iff k.id id in ground arith in
          let absent : contains_id id (keyword_ids rows) ≡ false = rw (← key) unique.0 in
          let off : q k ≡ false = rw here same in
          let rest = unselected_rows org_id id q rows absent in ground arith
      | inr e ↦
          let rest = unchanged_rows org_id id q rows k0 unique.1 (ground arith) same in ground arith
    ]

module _ (env : Env) (serving : IsServing env) (w : World) where
  served_scopes :
      (org_id id : ℕ) (scopes : List InspectionKeywordScope)
      → create_scopes env org_id id scopes w ≡ ok (with_scopes org_id id scopes w)
  unfolding create_scopes
  served_scopes org_id id [] = ap ok (sym (with_no_scopes org_id id w))
  served_scopes org_id id (s ∷ scopes) = rw serving.create_scopes_error refl

module _ (env : Env) (serving : IsServing env) (w : World) (k : InspectionKeyword)
    (scopes : List InspectionKeywordScope) (c : InspectionCategory) (org : k.org_id ≢ 0)
    (category : k.category_id ≢ 0)
    (there : first_where (is_category k.org_id k.category_id) w.categories ≡ some c) where
  served_ensure :
      (r : Result RuleError World)
      → ensure_keyword_category_exists env k.org_id k.category_id w r ≡ r
  served_ensure r =
      let o = ==_iff k.org_id 0 in
      let i = ==_iff k.category_id 0 in
      let o' : (k.org_id == 0) ≡ false = ground arith in
      let i' : (k.category_id == 0) ≡ false = ground arith in
      rw (o', i', serving.count_error, row_there _ _ c there) refl

  pub create_serves : Keywords.create env k scopes w ≡ (ok tt, created_world env k scopes w)
  unfolding Keywords.create
  create_serves =
      rw
        (
          served_ensure _,
          serving.write_error,
          served_scopes env serving (insert_keyword env k w) k.org_id w.next_keyword_id scopes,
          serving.commit_error,
        )
        refl

  pub update_serves :
      (k0 : InspectionKeyword)
      → k.id ≢ 0
      → first_where (is_keyword k.org_id k.id) w.keywords ≡ some k0
      → keyword_changed env (set_keyword k) k0 ≡ true
      → Keywords.update env k scopes w ≡ (ok tt, updated_world k scopes w)
  unfolding Keywords.update
  update_serves k0 id found changed =
      let this = is_keyword k.org_id k.id in
      let n : 0 < rows_affected (λ a. this a && keyword_changed env (set_keyword k) a) w.keywords =
        rows_affected_pos this (λ a. this a && keyword_changed env (set_keyword k) a) w.keywords
          {a = k0} found (rw (first_where-holds this w.keywords {a = k0} found) changed) in
      let n' : (rows_affected (λ a. this a && keyword_changed env (set_keyword k) a) w.keywords
            == 0)
          ≡ false =
        ground arith in
      let o = ==_iff k.org_id 0 in
      let i = ==_iff k.id 0 in
      let o' : (k.org_id == 0) ≡ false = ground arith in
      let i' : (k.id == 0) ≡ false = ground arith in
      rw
        (
          served_ensure _,
          o',
          i',
          serving.write_error,
          n',
          serving.delete_scopes_error,
          served_scopes env serving _ k.org_id k.id scopes,
          serving.commit_error,
        )
        refl

  -- An update that changes nothing in the row, not even the second of `update_at`.
  pub update_unchanged :
      (k0 : InspectionKeyword)
      → IsUnique (keyword_ids w.keywords)
      → k.id ≢ 0
      → first_where (is_keyword k.org_id k.id) w.keywords ≡ some k0
      → keyword_changed env (set_keyword k) k0 ≡ false
      → Keywords.update env k scopes w ≡ (failed keyword_not_found, w)
  unfolding Keywords.update
  update_unchanged k0 unique id found same =
      let n =
        unchanged_rows k.org_id k.id (keyword_changed env (set_keyword k)) w.keywords k0 unique
          found same in
      let o = ==_iff k.org_id 0 in
      let i = ==_iff k.id 0 in
      let o' : (k.org_id == 0) ≡ false = ground arith in
      let i' : (k.id == 0) ≡ false = ground arith in
      rw (served_ensure _, o', i', serving.write_error, n) refl

pub delete_serves :
    (env : Env)
    → IsServing env
    → (org_id id : ℕ) (w : World) (k0 : InspectionKeyword) → org_id ≢ 0
    → id ≢ 0
    → first_where (is_keyword org_id id) w.keywords ≡ some k0
    → Keywords.delete env org_id id w ≡ (ok tt, deleted_world org_id id w)
unfolding Keywords.delete
delete_serves env serving org_id id w k0 org id_pos found =
    let o = ==_iff org_id 0 in
    let i = ==_iff id 0 in
    let o' : (org_id == 0) ≡ false = ground arith in
    let i' : (id == 0) ≡ false = ground arith in
    rw
      (
        o',
        i',
        serving.delete_scopes_error,
        serving.write_error,
        row_there _ _ k0 found,
        serving.commit_error,
      )
      refl

module _ (org_id id : ℕ) where
  rows_of_others :
      (org' id' next : ℕ) (scopes : List InspectionKeywordScope)
      → id' ≢ id
      → select_where (is_scope_of org' id') (scope_rows next org_id id scopes) ≡ []
  unfolding is_scope_of scope_rows
  rows_of_others org' id' next [] ne = refl
  rows_of_others org' id' next (s ∷ scopes) ne =
      let e = ==_iff id id' in ground (arith, rows_of_others org' id' (suc next) scopes)

  rows_of_keyword :
      (next : ℕ) (scopes : List InspectionKeywordScope)
      → map (λ s. s.scope) (select_where (is_scope_of org_id id) (scope_rows next org_id id scopes))
        ≡ map (λ s. s.scope) scopes
  unfolding is_scope_of scope_rows
  rows_of_keyword next [] = refl
  rows_of_keyword next (s ∷ scopes) =
      let a = ==_refl org_id in
      let b = ==_refl id in rw (a, b) (ap (λ xs. s.scope ∷ xs) (rows_of_keyword (suc next) scopes))

pub built_scopes :
    (org_id : ℕ) (scopes : List Text)
    → map (λ s. s.scope) (build_keyword_scopes org_id scopes) ≡ scopes
unfolding build_keyword_scopes
built_scopes org_id [] = refl
built_scopes org_id (x ∷ scopes) = ap (λ xs. x ∷ xs) (built_scopes org_id scopes)

-- No scope of a keyword that is not there.
unlinked_scopes :
    (keywords : List InspectionKeyword) (org_id id : ℕ) (rows : List InspectionKeywordScope)
    → first_where (is_keyword org_id id) keywords ≡ none
    → All (λ s. is_some (first_where (is_keyword s.org_id s.keyword_id) keywords) ≡ true) rows
    → select_where (is_scope_of org_id id) rows ≡ []
unfolding is_scope_of
unlinked_scopes keywords org_id id [] missing h = refl
unlinked_scopes keywords org_id id (s ∷ rows) missing h =
    elim (Bool-cases (s.org_id == org_id && s.keyword_id == id)) [
      | inl e ↦
          let a : s.org_id ≡ org_id = let q = ==_iff s.org_id org_id in ground arith in
          let b : s.keyword_id ≡ id = let q = ==_iff s.keyword_id id in ground arith in
          let linked : is_some (first_where (is_keyword org_id id) keywords) ≡ true =
            rw (← a, ← b) h.0 in
          absurd (ground arith)
      | inr e ↦ rw e (unlinked_scopes keywords org_id id rows missing h.1)
    ]

pub no_scopes :
    (w : World) (org_id id : ℕ)
    → IsSound w
    → first_where (is_keyword org_id id) w.keywords ≡ none
    → select_where (is_scope_of org_id id) w.keyword_scopes ≡ []
no_scopes w org_id id sound missing =
    unlinked_scopes w.keywords org_id id w.keyword_scopes missing sound.linked

module _ (w : World) (scopes : List InspectionKeywordScope) where
  pub with_scopes-others :
      (org' id' org_id id : ℕ)
      → id' ≢ id
      → scopes_of org' id' (with_scopes org_id id scopes w) ≡ scopes_of org' id' w
  with_scopes-others org' id' org_id id ne = ap (map (λ s. s.scope)) (
      select_where-append (is_scope_of org' id') w.keyword_scopes
        (scope_rows w.next_scope_id org_id id scopes)
      ∙ ap (λ xs. select_where (is_scope_of org' id') w.keyword_scopes ++ xs)
          (rows_of_others org_id id org' id' w.next_scope_id scopes ne)
      ∙ append-nil _)

  -- The scopes of a keyword that had none.
  pub with_scopes-own :
      (org_id id : ℕ)
      → select_where (is_scope_of org_id id) w.keyword_scopes ≡ []
      → scopes_of org_id id (with_scopes org_id id scopes w) ≡ map (λ s. s.scope) scopes
  with_scopes-own org_id id no_rows =
      ap (map (λ s. s.scope)) (
        select_where-append (is_scope_of org_id id) w.keyword_scopes
          (scope_rows w.next_scope_id org_id id scopes)
        ∙ ap
            (λ xs.
              xs
              ++ select_where (is_scope_of org_id id) (scope_rows w.next_scope_id org_id id scopes))
            no_rows)
      ∙ rows_of_keyword org_id id w.next_scope_id scopes
