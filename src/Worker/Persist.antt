-- ===== src/Worker/Persist.antt =====
-- Writing the result of an article replaces what an earlier run of the task wrote for it.
use article_sentinel.Base.{
  ℕ, suc, ◌≡◌, ◌≢◌, inr, refl, ◌⊎◌, arith, Option, none, some, List, [], ◌∷◌, delete_where,
  rows_affected, replace-others, replace-count, inl, inr, length,
}
use article_sentinel.Text.{Text}
use article_sentinel.Scan.{CandidateArticle, Hit}
use article_sentinel.Worker.{
  World, new_result, new_result_hits, persist_article_result, same_result, same_hit,
}

module _ (org_id task_id : ℕ) where
  new_hits_selected :
      (article_id id result_id : ℕ) (hits : List Hit)
      → rows_affected
          (same_hit org_id task_id article_id)
          (new_result_hits id org_id task_id result_id article_id hits)
        ≡ length hits
  unfolding new_result_hits
  new_hits_selected article_id id result_id [] = refl
  new_hits_selected article_id id result_id (h ∷ hits) =
      ground (arith, new_hits_selected article_id (suc id) result_id hits)

  new_hits_deleted :
      (article_id id result_id : ℕ) (hits : List Hit)
      → delete_where
          (same_hit org_id task_id article_id)
          (new_result_hits id org_id task_id result_id article_id hits)
        ≡ []
  unfolding new_result_hits
  new_hits_deleted article_id id result_id [] = refl
  new_hits_deleted article_id id result_id (h ∷ hits) =
      ground (arith, new_hits_deleted article_id (suc id) result_id hits)

  new_result_selected :
      (id : ℕ) (article : CandidateArticle) (first : Hit) (hits : List Hit)
      → rows_affected
          (same_result org_id task_id article.id)
          (new_result id org_id task_id article first hits ∷ [])
        ≡ 1
  unfolding new_result
  new_result_selected id article first hits = ground arith

  new_result_deleted :
      (id : ℕ) (article : CandidateArticle) (first : Hit) (hits : List Hit)
      → delete_where
          (same_result org_id task_id article.id)
          (new_result id org_id task_id article first hits ∷ [])
        ≡ []
  unfolding new_result
  new_result_deleted id article first hits = ground arith

-- However often an article has been persisted for a task before, one result row and a row for each
-- of its present hits are there afterwards, or the transaction is refused and nothing has changed;
-- the rows of all other articles and tasks are as they were.
pub persist_article_result-replaces :
    (refused : Option Text) (org_id task_id : ℕ) (article : CandidateArticle) (first : Hit)
    (hits : List Hit) (w : World)
    → let (e, w') = persist_article_result refused org_id task_id article first hits w in
      let result = same_result org_id task_id article.id in
      let hit = same_hit org_id task_id article.id in
      (delete_where result w'.results ≡ delete_where result w.results)
      × (delete_where hit w'.result_hits ≡ delete_where hit w.result_hits)
      × (((e ≡ none)
            × (rows_affected result w'.results ≡ 1)
            × (rows_affected hit w'.result_hits ≡ suc (length hits)))
          ⊎ ((e ≢ none) × (w' ≡ w)))
unfolding persist_article_result
persist_article_result-replaces (some x) org_id task_id article first hits w =
    (refl, refl, inr (λ h. cc, refl))
persist_article_result-replaces none org_id task_id article first hits w = (
  replace-others (same_result org_id task_id article.id) w.results _
      (new_result_deleted org_id task_id w.next_result_id article first hits),
  replace-others (same_hit org_id task_id article.id) w.result_hits _
      (new_hits_deleted org_id task_id article.id w.next_hit_id w.next_result_id (first ∷ hits)),
  inl (
    refl,
    replace-count (same_result org_id task_id article.id) w.results _ 1
        (new_result_selected org_id task_id w.next_result_id article first hits),
    replace-count (same_hit org_id task_id article.id) w.result_hits _ (suc (length hits))
        (new_hits_selected org_id task_id article.id w.next_hit_id w.next_result_id (first ∷ hits)),
  ),
)
