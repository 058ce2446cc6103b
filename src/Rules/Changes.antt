-- ===== src/Rules/Changes.antt =====
-- What each change of a keyword makes of the tables, when it is not refused.
use article_sentinel.Base.{
  ℕ, ◌+◌, Bool, true, ◌&&◌, ◌||◌, ◌≡◌, ◌⊎◌, refl, sym, ap, inl, inr, arith, Option, none, some,
  List, [], ◌∷◌, ◌++◌, append-nil, ◌==◌, length, update_where, delete_where, rows_affected,
  Bool-cases, Result, ok, failed,
}
use article_sentinel.Text.{Text}
use article_sentinel.Model.{InspectionKeyword, InspectionKeywordScope}
use article_sentinel.Rules.{
  World, Env, RuleError, invalid_keyword_input, unspecified, keyword_not_found, database, statement,
  transaction,
}
use article_sentinel.Rules.Keywords.{
  is_category, is_keyword, scope_rows, create_scopes, create, found_rows,
  ensure_keyword_category_exists, insert_keyword, set_keyword, delete_scopes, update, delete,
  patch_enabled, keyword_changed,
}

abbrev pub with_scopes : ℕ → ℕ → List InspectionKeywordScope → World → World
with_scopes org_id keyword_id scopes w = record w {
  keyword_scopes = w.keyword_scopes ++ scope_rows w.next_scope_id org_id keyword_id scopes;
  next_scope_id = w.next_scope_id + length scopes;
}

pub with_no_scopes : (org_id keyword_id : ℕ) (w : World) → with_scopes org_id keyword_id [] w ≡ w
unfolding scope_rows
with_no_scopes org_id keyword_id w =
    let e = append-nil w.keyword_scopes in
    let n : w.next_scope_id + 0 ≡ w.next_scope_id = omega arith in rw (e, n) refl

-- The body of a transaction comes to `target` or fails.
abbrev Comes : World → Result RuleError World → Type 0
Comes target r = (r ≡ ok target) ⊎ ((e : RuleError) × (r ≡ failed e))

statement-Comes :
    (target : World) (o : Option Text) (r : Result RuleError World)
    → Comes target r
    → Comes target (statement o r)
statement-Comes target none r h = h
statement-Comes target (some x) r h = inr (database x, refl)

found_rows-Comes :
    (target : World) (n : ℕ) (r : Result RuleError World)
    → Comes target r
    → Comes target (found_rows n r)
found_rows-Comes target n r h = elim (Bool-cases (n == 0)) [
  | inl e ↦ inr (keyword_not_found, rw e refl)
  | inr e ↦ rw e h
]

missing_rows-Comes :
    (target : World) (n : ℕ) (r : Result RuleError World)
    → (n == 0) ≡ true
    → Comes target (found_rows n r)
missing_rows-Comes target n r e = inr (keyword_not_found, rw e refl)

ensure-Comes :
    (target : World) (env : Env) (org_id category_id : ℕ) (w : World) (r : Result RuleError World)
    → Comes target r
    → Comes target (ensure_keyword_category_exists env org_id category_id w r)
ensure-Comes target env org_id category_id w r h =
    elim (Bool-cases (org_id == 0 || category_id == 0)) [
      | inl e ↦ inr (invalid_keyword_input unspecified, rw e refl)
      | inr e ↦ rw e (
          statement-Comes target env.count_error _
            (elim (Bool-cases (rows_affected (is_category org_id category_id) w.categories == 0)) [
              | inl f ↦ rw f (inr (invalid_keyword_input unspecified, refl))
              | inr f ↦ rw f h
            ]))
    ]

transaction-cases :
    (target : World) (o : Option Text) (r : Result RuleError World) (w : World)
    → Comes target r
    → (transaction o r w ≡ (ok tt, target))
      ⊎ ((e : RuleError) × (transaction o r w ≡ (failed e, w)))
transaction-cases target none r w (inl e) = inl (rw e refl)
transaction-cases target (some x) r w (inl e) = inr (database x, rw e refl)
transaction-cases target o r w (inr (x, e)) = inr (x, rw e refl)

unchanged :
    (o : Option Text) (r : Result RuleError World) (w : World)
    → Comes w r
    → (transaction o r w).1 ≡ w
unchanged o r w h = elim (transaction-cases w o r w h) [
  | inl e ↦ rw e refl
  | inr (x, e) ↦ rw e refl
]

create_scopes-Comes :
    (env : Env) (org_id keyword_id : ℕ) (scopes : List InspectionKeywordScope) (w : World)
    → Comes (with_scopes org_id keyword_id scopes w) (create_scopes env org_id keyword_id scopes w)
unfolding create_scopes
create_scopes-Comes env org_id keyword_id [] w =
    inl (ap ok (sym (with_no_scopes org_id keyword_id w)))
create_scopes-Comes env org_id keyword_id (s ∷ scopes) w =
    statement-Comes _ env.create_scopes_error _ (inl refl)

abbrev pub created_world : Env → InspectionKeyword → List InspectionKeywordScope → World → World
created_world env k scopes w =
    with_scopes k.org_id w.next_keyword_id scopes (insert_keyword env k w)

abbrev pub updated_world : InspectionKeyword → List InspectionKeywordScope → World → World
updated_world k scopes w = with_scopes k.org_id k.id scopes (
    delete_scopes k.org_id k.id
      (record w { keywords = update_where (is_keyword k.org_id k.id) (set_keyword k) w.keywords }))

abbrev pub deleted_world : ℕ → ℕ → World → World
deleted_world org_id id w = record (delete_scopes org_id id w) {
  keywords = delete_where (is_keyword org_id id) w.keywords;
}

abbrev pub set_enabled : Bool → ℕ → Text → InspectionKeyword → InspectionKeyword
set_enabled enabled updater_id updater_name row = record row {
  enabled = enabled;
  updater_id = updater_id;
  updater_name = updater_name;
}

abbrev pub patched_world : ℕ → ℕ → Bool → ℕ → Text → World → World
patched_world org_id id enabled updater_id updater_name w = record w {
  keywords =
      update_where (is_keyword org_id id) (set_enabled enabled updater_id updater_name) w.keywords;
}

-- No row is changed where none is selected.
changed_missing :
    (env : Env) (f : InspectionKeyword → InspectionKeyword) (org_id id : ℕ)
    (rows : List InspectionKeyword)
    → (rows_affected (is_keyword org_id id) rows == 0) ≡ true
    → (rows_affected (λ row. is_keyword org_id id row && keyword_changed env f row) rows == 0)
      ≡ true
changed_missing env f org_id id [] h = h
changed_missing env f org_id id (k ∷ rows) h = elim (Bool-cases (is_keyword org_id id k)) [
  | inl e ↦ absurd (ground arith)
  | inr e ↦ rw e (changed_missing env f org_id id rows (ground arith))
]

module _ (env : Env) (k : InspectionKeyword) (scopes : List InspectionKeywordScope)
    (w : World) where
  pub create-cases :
      (create env k scopes w ≡ (ok tt, created_world env k scopes w))
      ⊎ ((e : RuleError) × (create env k scopes w ≡ (failed e, w)))
  unfolding create
  create-cases = transaction-cases (created_world env k scopes w) env.commit_error _ w (
      ensure-Comes _ env k.org_id k.category_id w _ (
        statement-Comes _ env.write_error _
          (create_scopes-Comes env k.org_id w.next_keyword_id scopes (insert_keyword env k w))))

  pub update-cases :
      (update env k scopes w ≡ (ok tt, updated_world k scopes w))
      ⊎ ((e : RuleError) × (update env k scopes w ≡ (failed e, w)))
  unfolding update
  update-cases = elim (Bool-cases (k.id == 0 || k.org_id == 0)) [
    | inl e ↦ inr (invalid_keyword_input unspecified, rw e refl)
    | inr e ↦ rw e (
        transaction-cases (updated_world k scopes w) env.commit_error _ w (
          ensure-Comes _ env k.org_id k.category_id w _ (
            statement-Comes _ env.write_error _ (
              found_rows-Comes _ _ _ (
                statement-Comes _ env.delete_scopes_error _
                  (create_scopes-Comes env k.org_id k.id scopes _))))))
  ]

  -- A keyword that is not there is not updated, and gets no scopes.
  pub update_missing :
      (rows_affected (is_keyword k.org_id k.id) w.keywords == 0) ≡ true
      → (update env k scopes w).1 ≡ w
  unfolding update
  update_missing missing =
      let none_changed = changed_missing env (set_keyword k) k.org_id k.id w.keywords missing in
      elim (Bool-cases (k.id == 0 || k.org_id == 0)) [
        | inl e ↦ rw e refl
        | inr e ↦ rw e (
            unchanged env.commit_error _ w (
              ensure-Comes w env k.org_id k.category_id w _
                (statement-Comes w env.write_error _ (missing_rows-Comes w _ _ none_changed))))
      ]

module _ (env : Env) (org_id id : ℕ) (w : World) where
  pub delete-cases :
      (delete env org_id id w ≡ (ok tt, deleted_world org_id id w))
      ⊎ ((e : RuleError) × (delete env org_id id w ≡ (failed e, w)))
  unfolding delete
  delete-cases = elim (Bool-cases (org_id == 0 || id == 0)) [
    | inl e ↦ inr (invalid_keyword_input unspecified, rw e refl)
    | inr e ↦ rw e (
        transaction-cases (deleted_world org_id id w) env.commit_error _ w (
          statement-Comes _ env.delete_scopes_error _
            (statement-Comes _ env.write_error _ (found_rows-Comes _ _ _ (inl refl)))))
  ]

  pub patch_enabled-cases :
      (enabled : Bool) (updater_id : ℕ) (updater_name : Text)
      → (patch_enabled env org_id id enabled updater_id updater_name w
          ≡ (ok tt, patched_world org_id id enabled updater_id updater_name w))
        ⊎ ((e : RuleError) × (patch_enabled env org_id id enabled updater_id updater_name w
              ≡ (failed e, w)))
  unfolding patch_enabled
  patch_enabled-cases enabled updater_id updater_name = elim (Bool-cases (org_id == 0 || id == 0)) [
    | inl e ↦ inr (invalid_keyword_input unspecified, rw e refl)
    | inr e ↦ rw e (
        transaction-cases (patched_world org_id id enabled updater_id updater_name w) none _ w
          (statement-Comes _ env.write_error _ (found_rows-Comes _ _ _ (inl refl))))
  ]
