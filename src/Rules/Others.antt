-- ===== src/Rules/Others.antt =====
-- A change of one keyword leaves what is read of the others; a deleted one is not read.
use article_sentinel.Base.{
  ℕ, true, false, ◌≡◌, ◌≢◌, refl, ap, ◌∙◌, inl, inr, arith, Option, none, some, List, [], ◌∷◌,
  ==_iff, map, first_where, first_where-deleted, first_where-delete_where,
  first_where-update_others, select_where, select_where-deleted, select_where-delete_where,
  Bool-cases, ok, failed,
}
use article_sentinel.Text.Order.{sort_strings}
use article_sentinel.Model.{InspectionKeyword, InspectionKeywordScope}
use article_sentinel.Rules.{World, Env, keyword_not_found}
use article_sentinel.Rules.Keywords.{
  is_keyword, is_scope_of, set_keyword, insert_keyword, delete_scopes,
}
use article_sentinel.Rules.Keywords
use article_sentinel.Rules.KeywordService.{delete, get}
use article_sentinel.Rules.View.{
  IsServing, view_of, row_of_found, keyword_view, stored_dto-view, scopes_of,
}
use article_sentinel.Rules.Sound.{IsSound, find_keyword-append, deleted_world-IsSound}
use article_sentinel.Rules.Changes.{
  created_world, updated_world, deleted_world, create-cases, update-cases, delete-cases,
}
use article_sentinel.Rules.Read.{guard_open, get_stored, is_keyword-own}
use article_sentinel.Rules.Serve.{delete_serves, with_scopes-others}

append_nothing :
    (a b : Option InspectionKeyword) → b ≡ none → elim a [ none ↦ b | some k ↦ some k ] ≡ a
append_nothing none b h = h
append_nothing (some k) b h = refl

module _ (o j : ℕ) where
  other_keyword :
      (org_id id : ℕ) (k : InspectionKeyword)
      → j ≢ id
      → is_keyword o j k ≡ true
      → is_keyword org_id id k ≡ false
  unfolding is_keyword
  other_keyword org_id id k ne h = let a = ==_iff k.id j in let b = ==_iff k.id id in ground arith

  other_scope :
      (org_id id : ℕ) (s : InspectionKeywordScope)
      → j ≢ id
      → is_scope_of o j s ≡ true
      → is_scope_of org_id id s ≡ false
  unfolding is_scope_of
  other_scope org_id id s ne h =
      let a = ==_iff s.keyword_id j in let b = ==_iff s.keyword_id id in ground arith

  -- The keyword's view, where its row, its scopes and the categories are the same.
  same_view :
      (w w' : World)
      → w'.categories ≡ w.categories
      → first_where (is_keyword o j) w'.keywords ≡ first_where (is_keyword o j) w.keywords
      → scopes_of o j w' ≡ scopes_of o j w
      → keyword_view o j w' ≡ keyword_view o j w
  same_view w w' categories found scopes =
      ap
        (λ cs.
          view_of (row_of_found cs (first_where (is_keyword o j) w'.keywords))
            (sort_strings (scopes_of o j w')))
        categories
      ∙ ap (λ k. view_of (row_of_found w.categories k) (sort_strings (scopes_of o j w'))) found
      ∙ ap
          (λ xs.
            view_of (row_of_found w.categories (first_where (is_keyword o j) w.keywords))
              (sort_strings xs))
          scopes

  created_same :
      (env : Env) (k : InspectionKeyword) (scopes : List InspectionKeywordScope) (w : World)
      → j ≢ w.next_keyword_id
      → keyword_view o j (created_world env k scopes w) ≡ keyword_view o j w
  created_same env k scopes w ne =
      let row : InspectionKeyword = record k {
        id = w.next_keyword_id;
        enabled = env.stored true k.enabled;
      } in
      let found = find_keyword-append (is_keyword o j) w.keywords (row ∷ []) in
      let not_new : is_keyword o j row ≡ false = elim (Bool-cases (is_keyword o j row)) [
        | inl e ↦ absurd (
            let f = other_keyword k.org_id w.next_keyword_id row ne e in
            let own = is_keyword-own row in cc)
        | inr e ↦ e
      ] in
      same_view w (created_world env k scopes w) refl
        (found ∙ append_nothing (first_where (is_keyword o j) w.keywords) _ (rw not_new refl))
        (with_scopes-others (insert_keyword env k w) scopes o j k.org_id w.next_keyword_id ne)

  kept_scopes :
      (org_id id : ℕ) (w : World)
      → j ≢ id
      → scopes_of o j (delete_scopes org_id id w) ≡ scopes_of o j w
  kept_scopes org_id id w ne = ap (map (λ s. s.scope)) (
      select_where-delete_where (is_scope_of o j) (is_scope_of org_id id)
        (λ s. other_scope org_id id s ne) w.keyword_scopes)

  updated_same :
      (k : InspectionKeyword) (scopes : List InspectionKeywordScope) (w : World)
      → j ≢ k.id
      → keyword_view o j (updated_world k scopes w) ≡ keyword_view o j w
  unfolding is_keyword
  updated_same k scopes w ne =
      same_view w (updated_world k scopes w) refl
        (first_where-update_others (is_keyword o j) (is_keyword k.org_id k.id) (set_keyword k)
          (λ a. refl) (λ a. other_keyword k.org_id k.id a ne) w.keywords)
        (with_scopes-others (delete_scopes k.org_id k.id w) scopes o j k.org_id k.id ne
          ∙ kept_scopes k.org_id k.id w ne)

  deleted_same :
      (org_id id : ℕ) (w : World)
      → j ≢ id
      → keyword_view o j (deleted_world org_id id w) ≡ keyword_view o j w
  deleted_same org_id id w ne =
      same_view w (deleted_world org_id id w) refl
        (first_where-delete_where (is_keyword o j) (is_keyword org_id id)
          (λ a. other_keyword org_id id a ne) w.keywords)
        (kept_scopes org_id id w ne)

  module _ (env : Env) (w : World) where
    -- The creation of a keyword, its update and its deletion, whichever branch they take, leave
    -- what is read of any other keyword, its scopes and the name of its category as they were.
    pub keyword_changes-others :
        (k : InspectionKeyword) (scopes : List InspectionKeywordScope) (org_id id : ℕ)
        → j ≢ w.next_keyword_id
        → j ≢ k.id
        → j ≢ id
        → (keyword_view o j (Keywords.create env k scopes w).1 ≡ keyword_view o j w)
          × (keyword_view o j (Keywords.update env k scopes w).1 ≡ keyword_view o j w)
          × (keyword_view o j (Keywords.delete env org_id id w).1 ≡ keyword_view o j w)
    keyword_changes-others k scopes org_id id not_new not_updated not_deleted = (
      elim (create-cases env k scopes w) [
        | inl e ↦ ap (λ r. keyword_view o j r.1) e ∙ created_same env k scopes w not_new
        | inr (x, e) ↦ ap (λ r. keyword_view o j r.1) e
      ],
      elim (update-cases env k scopes w) [
        | inl e ↦ ap (λ r. keyword_view o j r.1) e ∙ updated_same k scopes w not_updated
        | inr (x, e) ↦ ap (λ r. keyword_view o j r.1) e
      ],
      elim (delete-cases env org_id id w) [
        | inl e ↦ ap (λ r. keyword_view o j r.1) e ∙ deleted_same org_id id w not_deleted
        | inr (x, e) ↦ ap (λ r. keyword_view o j r.1) e
      ],
    )

-- Over sound tables and a server that refuses nothing, the deletion of a keyword that is there,
-- under ids other than 0, succeeds, `Get` does not find the keyword afterwards, and no scope of it
-- is left.
pub delete-get :
    (env : Env)
    → IsServing env
    → (org_id id : ℕ) (w : World) (k0 : InspectionKeyword) → IsSound w
    → org_id ≢ 0
    → id ≢ 0
    → first_where (is_keyword org_id id) w.keywords ≡ some k0
    → let (r, w') = delete env org_id id w in
      (r ≡ ok tt)
      × (get env org_id id w' ≡ failed keyword_not_found)
      × (select_where (is_scope_of org_id id) w'.keyword_scopes ≡ [])
unfolding delete
delete-get env serving org_id id w k0 sound org id_pos found =
    let made = delete_serves env serving org_id id w k0 org id_pos found in
    let all : delete env org_id id w ≡ (ok tt, deleted_world org_id id w) =
      guard_open org_id id _ (Keywords.delete env org_id id w) org id_pos ∙ made in
    let w' = deleted_world org_id id w in
    let missing = first_where-deleted (is_keyword org_id id) w.keywords in
    let read =
      get_stored env org_id id w' org id_pos
      ∙ stored_dto-view env serving org_id id w' org id_pos
          (deleted_world-IsSound w sound org_id id).unique
      ∙ ap (λ k. view_of (row_of_found w.categories k) (sort_strings (scopes_of org_id id w')))
          missing in
    (
      ap (λ r. r.0) all,
      ap (λ r. get env org_id id r.1) all ∙ read,
      ap (λ r. select_where (is_scope_of org_id id) r.1.keyword_scopes) all
          ∙ select_where-deleted (is_scope_of org_id id) w.keyword_scopes,
    )
