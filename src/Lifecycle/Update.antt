-- ===== src/Lifecycle/Update.antt =====
-- lifecycle/service.go: after an edit the article is stored as it was edited.
use mathlib.Core.Path.{subst}
use article_sentinel.Base.{
  Bool, false, ◌||◌, ◌≡◌, refl, sym, inl, inr, arith, Option, none, some, List, [], ◌∷◌, ◌==◌,
  first_where, update_where, first_where-update_where, first_where-holds, Option-cases, Bool-cases,
}
use article_sentinel.Articles.{Article, ArticleInfo, nullable_string_to_string}
use article_sentinel.Lifecycle.Diff.{
  FieldChange, diff_editable_fields, diff_editable_fields-apply_changes, apply_changes,
}
use article_sentinel.Lifecycle.{
  World, Result, ok, failed, database, record_not_found, invalid_action_input,
  UpdateArticleFieldsInput, Env, same_article,
}
use article_sentinel.Lifecycle.Fields.{
  editable_fields, set_fields, set_body, write_fields, update_article_fields,
}
use article_sentinel.Lifecycle.Offline.{find_article}

abbrev find_info : UpdateArticleFieldsInput → World → Option ArticleInfo
find_info input w = first_where (λ i. i.id == input.of.article_id) w.infos

-- The article and its body are stored with these fields.
abbrev pub IsStored : UpdateArticleFieldsInput → World → Type 0
IsStored input w =
    (article : Article) × (info : ArticleInfo) × (find_article input.of w ≡ some article)
    × (find_info input w ≡ some info)
    × (editable_fields article info ≡ input.fields)

abbrev pub IsUpdated : UpdateArticleFieldsInput → World → World → Result (List FieldChange) → Type 0
IsUpdated input w w' (failed e) = w' ≡ w
IsUpdated input w w' (ok changes) = IsStored input w'

abbrev IsOutcome : UpdateArticleFieldsInput → World → Result (List FieldChange) × World → Type 0
IsOutcome input w t = IsUpdated input w t.1 t.0

written-IsStored :
    (input : UpdateArticleFieldsInput) (article : Article) (info : ArticleInfo) (w w' : World)
    → find_article input.of w ≡ some article
    → find_info input w ≡ some info
    → w'.articles
      ≡ update_where
          (same_article input.of.org_id input.of.article_id)
          (set_fields input.fields)
          w.articles
    → w'.infos
      ≡ update_where (λ i. i.id == input.of.article_id) (set_body input.fields.body) w.infos
    → IsStored input w'
unfolding nullable_string_to_string
written-IsStored input article info w w' h i ha hi =
    let same = same_article input.of.org_id input.of.article_id in
    let same_info : ArticleInfo → Bool = λ i. i.id == input.of.article_id in
    let f = first_where-update_where same same (set_fields input.fields) (λ a. refl) w.articles in
    let g = first_where-holds same w.articles {a = article} h in
    let f' =
      first_where-update_where same_info same_info (set_body input.fields.body) (λ a. refl)
        w.infos in
    let g' = first_where-holds same_info w.infos {a = info} i in
    (
      set_fields input.fields article,
      set_body input.fields.body info,
      rw ha (ground arith),
      rw hi (ground arith),
      refl,
    )

write_fields-IsUpdated :
    (env : Env) (input : UpdateArticleFieldsInput) (article : Article) (info : ArticleInfo)
    (changes : List FieldChange) (w : World)
    → find_article input.of w ≡ some article
    → find_info input w ≡ some info
    → IsOutcome input w (write_fields env input article changes w)
unfolding write_fields
write_fields-IsUpdated env input article info changes w h i =
    let t = write_fields env input article changes w in
    elim (Option-cases env.update_error) [
      | inr (x, e) ↦
          let eq : t ≡ (failed (database x), w) = ground arith in
          subst (IsOutcome input w) (sym eq) refl
      | inl e ↦ elim (Option-cases env.body_error) [
        | inr (x, e1) ↦
            let eq : t ≡ (failed (database x), w) = ground arith in
            subst (IsOutcome input w) (sym eq) refl
        | inl e1 ↦ elim (Option-cases env.change_log_error) [
          | inr (x, e2) ↦
              let eq : t ≡ (failed (database x), w) = ground arith in
              subst (IsOutcome input w) (sym eq) refl
          | inl e2 ↦ elim (Option-cases env.log_error) [
            | inr (x, e3) ↦
                let eq : t ≡ (failed (database x), w) = ground arith in
                subst (IsOutcome input w) (sym eq) refl
            | inl e3 ↦
                let ha : t.1.articles
                    ≡ update_where (same_article input.of.org_id input.of.article_id)
                        (set_fields input.fields) w.articles =
                  ground arith in
                let hi : t.1.infos
                    ≡ update_where (λ i. i.id == input.of.article_id) (set_body input.fields.body)
                        w.infos =
                  ground arith in
                let eq : t.0 ≡ ok changes = ground arith in
                subst (IsUpdated input w t.1) (sym eq)
                  (written-IsStored input article info w t.1 h i ha hi)
          ]
        ]
      ]
    ]

found-IsUpdated :
    (env : Env) (input : UpdateArticleFieldsInput) (article : Article) (info : ArticleInfo)
    (w : World)
    → (input.of.org_id == 0 || input.of.article_id == 0) ≡ false
    → env.read_error ≡ none
    → find_article input.of w ≡ some article
    → env.info_error ≡ none
    → find_info input w ≡ some info
    → (changes : List FieldChange)
    → diff_editable_fields (editable_fields article info) input.fields ≡ changes
    → IsOutcome input w (update_article_fields env input w)
unfolding update_article_fields
found-IsUpdated env input article info w e e1 h e2 i [] d =
    let eq : update_article_fields env input w ≡ (ok [], w) = ground arith in
    let same : editable_fields article info ≡ input.fields =
      subst (λ c. apply_changes c (editable_fields article info) ≡ input.fields) d
        (diff_editable_fields-apply_changes (editable_fields article info) input.fields) in
    subst (IsOutcome input w) (sym eq) (article, info, h, i, same)
found-IsUpdated env input article info w e e1 h e2 i (c ∷ changes) d =
    let eq : update_article_fields env input w ≡ write_fields env input article (c ∷ changes) w =
      ground arith in
    subst (IsOutcome input w) (sym eq)
      (write_fields-IsUpdated env input article info (c ∷ changes) w h i)

-- An edit either fails and changes nothing, or the article and its body are stored with the fields of
-- the input, be it because they were so before.
pub update_article_fields-IsUpdated :
    (env : Env) (input : UpdateArticleFieldsInput) (w : World)
    → let (r, w') = update_article_fields env input w in IsUpdated input w w' r
unfolding update_article_fields
update_article_fields-IsUpdated env input w =
    let t = update_article_fields env input w in
    elim (Bool-cases (input.of.org_id == 0 || input.of.article_id == 0)) [
      | inl e ↦
          let eq : t ≡ (failed invalid_action_input, w) = ground arith in
          subst (IsOutcome input w) (sym eq) refl
      | inr e ↦ elim (Option-cases env.read_error) [
        | inr (x, e1) ↦
            let eq : t ≡ (failed (database x), w) = ground arith in
            subst (IsOutcome input w) (sym eq) refl
        | inl e1 ↦ elim (Option-cases (find_article input.of w)) [
          | inl h ↦
              let eq : t ≡ (failed record_not_found, w) = ground arith in
              subst (IsOutcome input w) (sym eq) refl
          | inr (article, h) ↦ elim (Option-cases env.info_error) [
            | inr (x, e2) ↦
                let eq : t ≡ (failed (database x), w) = ground arith in
                subst (IsOutcome input w) (sym eq) refl
            | inl e2 ↦ elim (Option-cases (find_info input w)) [
              | inl i ↦
                  let eq : t ≡ (failed record_not_found, w) = ground arith in
                  subst (IsOutcome input w) (sym eq) refl
              | inr (info, i) ↦ found-IsUpdated env input article info w e e1 h e2 i _ refl
            ]
          ]
        ]
      ]
    ]
