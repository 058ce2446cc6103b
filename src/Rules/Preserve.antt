-- ===== src/Rules/Preserve.antt =====
-- Every change of a keyword keeps the tables sound.
use article_sentinel.Base.{
  ℕ, Bool, true, false, ◌||◌, ◌≡◌, ◌⊎◌, refl, inl, inr, List, [], ◌==◌, if◌then◌else◌, is_some,
  first_where, first_where-some, rows_affected, Result, ok, failed, Result-cases, Bool-cases,
}
use article_sentinel.Model.{InspectionKeyword, InspectionKeywordScope}
use article_sentinel.Rules.{World, Env, Attempt, RuleError}
use article_sentinel.Rules.Normalize.{CreateKeywordInput, normalize_create_keyword_input}
use article_sentinel.Rules.Keywords
use article_sentinel.Rules.KeywordService.{
  KeywordDto, UpdateKeywordInput, PatchKeywordStatusInput, answer, stored_dto, keyword_of,
  build_keyword_scopes, create, update, patch_enabled, delete,
}
use article_sentinel.Rules.Keywords.{
  is_keyword, is_scope_of, scope_rows, set_keyword, insert_keyword,
}
use article_sentinel.Rules.Changes.{
  create-cases, update-cases, update_missing, patch_enabled-cases, delete-cases,
}
use article_sentinel.Rules.Sound.{
  IsSound, created_world-IsSound, updated_world-IsSound, patched_world-IsSound,
  deleted_world-IsSound,
}

module _ (w : World) (sound : IsSound w) where
  found_or_missing :
      (k : InspectionKeyword)
      → ((rows_affected (is_keyword k.org_id k.id) w.keywords == 0) ≡ true)
        ⊎ (is_some (first_where (is_keyword k.org_id k.id) w.keywords) ≡ true)
  found_or_missing k =
      let e = first_where-some (is_keyword k.org_id k.id) w.keywords in
      elim (Bool-cases (rows_affected (is_keyword k.org_id k.id) w.keywords == 0)) [
        | inl m ↦ inl m
        | inr m ↦ inr (rw (e, m) refl)
      ]

  guarded-IsSound {ℓ} :
      {A : Type ℓ} (b : Bool) (e : RuleError) (r : Result RuleError A × World)
      → IsSound r.1
      → IsSound (if b then (failed e, w) else r).1
  guarded-IsSound true e r h = sound
  guarded-IsSound false e r h = h

  answer-IsSound :
      (r : Attempt × World) (read : World → Result RuleError KeywordDto)
      → IsSound r.1
      → IsSound (answer r read).1
  answer-IsSound (failed e, w') read h = h
  answer-IsSound (ok d, w') read h = h

  pub repository_create-IsSound :
      (env : Env) (k : InspectionKeyword) (scopes : List InspectionKeywordScope)
      → IsSound (Keywords.create env k scopes w).1
  repository_create-IsSound env k scopes = elim (create-cases env k scopes w) [
    | inl e ↦ rw e (created_world-IsSound w sound env k scopes)
    | inr (x, e) ↦ rw e sound
  ]

  pub repository_update-IsSound :
      (env : Env) (k : InspectionKeyword) (scopes : List InspectionKeywordScope)
      → IsSound (Keywords.update env k scopes w).1
  repository_update-IsSound env k scopes = elim (found_or_missing k) [
    | inl missing ↦ rw (update_missing env k scopes w missing) sound
    | inr found ↦ elim (update-cases env k scopes w) [
      | inl e ↦ rw e (updated_world-IsSound w sound k scopes found)
      | inr (x, e) ↦ rw e sound
    ]
  ]

  repository_patch-IsSound :
      (env : Env) (patch : PatchKeywordStatusInput)
      → IsSound
          (Keywords.patch_enabled env patch.org_id patch.keyword_id patch.enabled env.operator.id
            env.operator.name w).1
  repository_patch-IsSound env patch =
      elim (patch_enabled-cases env patch.org_id patch.keyword_id w patch.enabled env.operator.id
        env.operator.name) [
          | inl e ↦ rw e (patched_world-IsSound w sound _ _ _ _ _)
          | inr (x, e) ↦ rw e sound
        ]

  pub repository_delete-IsSound :
      (env : Env) (org_id id : ℕ) → IsSound (Keywords.delete env org_id id w).1
  repository_delete-IsSound env org_id id = elim (delete-cases env org_id id w) [
    | inl e ↦ rw e (deleted_world-IsSound w sound org_id id)
    | inr (x, e) ↦ rw e sound
  ]

  -- If the ids of the keywords are unique and below the next one and every scope has its keyword,
  -- all this still holds after a creation, an update, a change of the status and a deletion,
  -- whichever branch each takes and whichever statements the server refuses.
  pub keyword_changes-IsSound :
      (env : Env) (input : CreateKeywordInput) (change : UpdateKeywordInput)
      (patch : PatchKeywordStatusInput) (org_id id : ℕ)
      → IsSound (create env input w).1
        × IsSound (update env change w).1
        × IsSound (patch_enabled env patch w).1
        × IsSound (delete env org_id id w).1
  unfolding create update patch_enabled delete
  keyword_changes-IsSound env input change patch org_id id = (
    elim (Result-cases (normalize_create_keyword_input env.unicode input)) [
      | inl (n, e) ↦
          let scopes = build_keyword_scopes n.org_id n.scopes in
          rw (create, e)
            (answer-IsSound (Keywords.create env (keyword_of env 0 n) scopes w)
              (stored_dto env n.org_id w.next_keyword_id)
              (repository_create-IsSound env (keyword_of env 0 n) scopes))
      | inr (x, e) ↦ rw (create, e) sound
    ],
    elim (Bool-cases (change.id == 0)) [
      | inl z ↦ rw z sound
      | inr z ↦ elim (Result-cases (normalize_create_keyword_input env.unicode change.input)) [
        | inl (n, e) ↦
            let keyword : InspectionKeyword = record (keyword_of env change.id n) {
              creator_id = 0;
              creator_name = [];
            } in
            let scopes = build_keyword_scopes n.org_id n.scopes in
            rw (z, e)
              (answer-IsSound (Keywords.update env keyword scopes w)
                (stored_dto env n.org_id change.id) (repository_update-IsSound env keyword scopes))
        | inr (x, e) ↦ rw (z, e) sound
      ]
    ],
    guarded-IsSound (patch.org_id == 0 || patch.keyword_id == 0) _ _ (
        answer-IsSound
          (Keywords.patch_enabled env patch.org_id patch.keyword_id patch.enabled env.operator.id
            env.operator.name w)
          (stored_dto env patch.org_id patch.keyword_id) (repository_patch-IsSound env patch)),
    guarded-IsSound (org_id == 0 || id == 0) _ (Keywords.delete env org_id id w)
        (repository_delete-IsSound env org_id id),
  )
