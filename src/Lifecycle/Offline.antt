-- ===== src/Lifecycle/Offline.antt =====
-- lifecycle/service.go: what an operation on the state of an article reports is what it has done.
use mathlib.Core.Path.{subst}
use article_sentinel.Base.{
  ℕ, false, ◌||◌, ◌≡◌, refl, sym, inl, inr, arith, Option, none, some, List, ◌==◌, first_where,
  update_where, delete_where, first_where-update_where, first_where-holds,
  delete_where-update_where, Option-cases, Bool-cases,
}
use article_sentinel.Text.{Text}
use article_sentinel.Domain.ArticleState
use article_sentinel.Domain.ActionType
use article_sentinel.Domain.ActionStatus
use article_sentinel.Articles.{Article}
use article_sentinel.Lifecycle.{
  World, Result, ok, failed, ArticleInput, LifecycleActionResult, Env, same_article, set_state,
  write_operation_log, move_article, offline_article, database, record_not_found,
  invalid_action_input, not_offlinable, skipped,
}

abbrev pub find_article : ArticleInput → World → Option Article
find_article input w = first_where (same_article input.org_id input.article_id) w.articles

abbrev pub other_articles : ArticleInput → World → List Article
other_articles input w = delete_where (same_article input.org_id input.article_id) w.articles

write_operation_log-articles :
    (env : Env) (input : ArticleInput) (article_id : ℕ) (operation_type : Text) (before after : ℕ)
    (status snapshot : Text) (w : World)
    → (write_operation_log env input article_id operation_type before after status snapshot
        w).articles
      ≡ w.articles
unfolding write_operation_log
write_operation_log-articles env input article_id operation_type before after status snapshot w =
    ground arith

-- `r` says what became of the article of `input` between `w` and `w'`.
abbrev pub IsReport : ArticleInput → World → World → LifecycleActionResult → Type 0
IsReport input w w' r =
    (article : Article) × (find_article input w ≡ some article)
    × (r.before_state ≡ article.state)
    × (find_article input w' ≡ some (set_state r.after_state article))
    × (other_articles input w' ≡ other_articles input w)

abbrev pub IsReported : ArticleInput → World → World → Result LifecycleActionResult → Type 0
IsReported input w w' (failed e) = w' ≡ w
IsReported input w w' (ok r) = IsReport input w w' r

-- The report of an update that sets the state.
moved-IsReport :
    (input : ArticleInput) (status : Text) (target : ℕ) (article : Article) (w w' : World)
    → find_article input w ≡ some article
    → w'.articles
      ≡ update_where (same_article input.org_id input.article_id) (set_state target) w.articles
    → IsReport input w w' record {
      status = status;
      article_id = article.id;
      before_state = article.state;
      after_state = target;
    }
moved-IsReport input status target article w w' h l =
    let same = same_article input.org_id input.article_id in
    let f = first_where-update_where same same (set_state target) (λ a. refl) w.articles in
    let g = first_where-holds same w.articles {a = article} h in
    let d = delete_where-update_where same (set_state target) (λ a. refl) w.articles in
    (article, h, refl, rw l (ground arith), rw l d)

unmoved-IsReport :
    (input : ArticleInput) (status : Text) (article : Article) (w w' : World)
    → find_article input w ≡ some article
    → w'.articles ≡ w.articles
    → IsReport input w w' record {
      status = status;
      article_id = article.id;
      before_state = article.state;
      after_state = article.state;
    }
unmoved-IsReport input status article w w' h l = (article, h, refl, rw l h, rw l refl)

-- The outcome of an operation.
abbrev IsOutcome : ArticleInput → World → Result LifecycleActionResult × World → Type 0
IsOutcome input w t = IsReported input w t.1 t.0

move_article-IsReported :
    (env : Env) (input : ArticleInput) (operation_type : Text) (target : ℕ) (article : Article)
    (w : World)
    → find_article input w ≡ some article
    → IsOutcome input w (move_article env input operation_type target article w)
unfolding move_article
move_article-IsReported env input operation_type target article w h =
    elim (Option-cases env.update_error) [
      | inl e ↦
          let s = record w {
            articles =
                update_where (same_article input.org_id input.article_id) (set_state target)
                  w.articles;
          } in
          let snapshot = env.snapshot operation_type input none in
          let w' =
            write_operation_log env input article.id operation_type article.state target
              ActionStatus.success snapshot s in
          let l =
            write_operation_log-articles env input article.id operation_type article.state target
              ActionStatus.success snapshot s in
          let r : LifecycleActionResult = record {
            status = ActionStatus.success;
            article_id = article.id;
            before_state = article.state;
            after_state = target;
          } in
          let eq : move_article env input operation_type target article w ≡ (ok r, w') =
            ground arith in
          subst (IsOutcome input w) (sym eq)
            (moved-IsReport input ActionStatus.success target article w w' h l)
      | inr (x, e) ↦
          let eq : move_article env input operation_type target article w
              ≡ (failed (database x), w) =
            ground arith in
          subst (IsOutcome input w) (sym eq) refl
    ]

found-IsReported :
    (env : Env) (input : ArticleInput) (article : Article) (w : World)
    → (input.org_id == 0 || input.article_id == 0) ≡ false
    → env.read_error ≡ none
    → find_article input w ≡ some article
    → IsOutcome input w (offline_article env input w)
unfolding offline_article
found-IsReported env input article w e e1 e2 =
    elim (Bool-cases
      (article.state == ArticleState.offline || article.state == ArticleState.offline_sync)) [
        | inl e3 ↦
            let snapshot = env.snapshot ActionType.offline input none in
            let w' =
              write_operation_log env input article.id ActionType.offline article.state
                article.state ActionStatus.skipped snapshot w in
            let l =
              write_operation_log-articles env input article.id ActionType.offline article.state
                article.state ActionStatus.skipped snapshot w in
            let eq : offline_article env input w ≡ (skipped article, w') = ground arith in
            subst (IsOutcome input w) (sym eq)
              (unmoved-IsReport input ActionStatus.skipped article w w' e2 l)
        | inr e3 ↦ elim (Bool-cases (article.state == ArticleState.online)) [
          | inl e4 ↦
              let eq : offline_article env input w
                  ≡ move_article env input ActionType.offline ArticleState.offline article w =
                ground arith in
              subst (IsOutcome input w) (sym eq) (
                move_article-IsReported env input ActionType.offline ArticleState.offline article w
                  e2)
          | inr e4 ↦
              let eq : offline_article env input w ≡ (failed not_offlinable, w) = ground arith in
              subst (IsOutcome input w) (sym eq) refl
        ]
      ]

-- Taking an article offline either fails and changes nothing, or reports the state that the article
-- had and the state that it has now, with all other articles as they were.
pub offline_article-IsReported :
    (env : Env) (input : ArticleInput) (w : World)
    → let (r, w') = offline_article env input w in IsReported input w w' r
unfolding offline_article
offline_article-IsReported env input w =
    elim (Bool-cases (input.org_id == 0 || input.article_id == 0)) [
      | inl e ↦
          let eq : offline_article env input w ≡ (failed invalid_action_input, w) = ground arith in
          subst (IsOutcome input w) (sym eq) refl
      | inr e ↦ elim (Option-cases env.read_error) [
        | inr (x, e1) ↦
            let eq : offline_article env input w ≡ (failed (database x), w) = ground arith in
            subst (IsOutcome input w) (sym eq) refl
        | inl e1 ↦ elim (Option-cases (find_article input w)) [
          | inl e2 ↦
              let eq : offline_article env input w ≡ (failed record_not_found, w) = ground arith in
              subst (IsOutcome input w) (sym eq) refl
          | inr (article, e2) ↦ found-IsReported env input article w e e1 e2
        ]
      ]
    ]
