-- ===== src/Worker/Paging.antt =====
-- worker/executor.go over articles/repository_candidates.go: the pages of a run together are all
-- of the articles of the task.
use article_sentinel.Base.{
  ℕ, zero, suc, ◌<◌, ◌≤◌, ◌≢◌, Bool, ◌||◌, ◌≡◌, refl, ap, sym, ◌∙◌, arith, none, List, [], ◌∷◌,
  ◌++◌, map, ltb, ◌==◌, if◌then◌else◌, take, drop, length, length-map, length-take, length-drop,
  take-drop, map-append, select_where, Bool-cases, List-cases, inl, inr,
}
use mathlib.Core.Path.{subst}
use article_sentinel.Text.{Text}
use article_sentinel.Model.{InspectionTask}
use article_sentinel.Scan.{CandidateArticle, KeywordRule}
use article_sentinel.Articles.{
  Article, ArticleInfo, page, is_after, is_candidate, candidate_rows, list_candidate_articles,
  last_id,
}
use article_sentinel.Articles.Order.{
  IsKeyOrdered, IsKeyOrdered-select, IsKeyOrdered-after, sort_by-IsKeyOrdered, after-all,
  after-page,
}
use article_sentinel.Articles.Bodies.{stored_candidate, page-stored}
use article_sentinel.Worker.Execute.{Env, Progress, page_filter, scan_items, finished, scan_pages}

scan_items-append :
    (env : Env) (org_id task_id : ℕ) (rs : List KeywordRule) (xs ys : List CandidateArticle)
    (p : Progress)
    → scan_items env org_id task_id rs (xs ++ ys) p
      ≡ scan_items env org_id task_id rs ys (scan_items env org_id task_id rs xs p)
unfolding scan_items
scan_items-append env org_id task_id rs [] ys p = refl
scan_items-append env org_id task_id rs (x ∷ xs) ys p =
    scan_items-append env org_id task_id rs xs ys _

length_zero {ℓ} : {A : Type ℓ} (xs : List A) → length xs ≡ 0 → xs ≡ []
length_zero [] h = refl
length_zero (x ∷ xs) h = absurd (omega arith)

module _ (env : Env) (org_id : ℕ) (task : InspectionTask) (state : ℕ) (rs : List KeywordRule)
    (batch_size : ℕ) where
  scan_pages-last :
      (fuel after_id next : ℕ) (p : Progress)
      → env.list_candidates (page_filter org_id task state after_id batch_size) ≡ page [] next
      → scan_pages env org_id task state rs batch_size (suc fuel) after_id p ≡ finished p
  unfolding scan_pages
  scan_pages-last fuel after_id next p h = ground arith

  scan_pages-step :
      (fuel after_id next : ℕ) (a : CandidateArticle) (items : List CandidateArticle) (p : Progress)
      → env.list_candidates (page_filter org_id task state after_id batch_size)
        ≡ page (a ∷ items) next
      → scan_pages env org_id task state rs batch_size (suc fuel) after_id p ≡ (
          let p' = scan_items env org_id task.id rs (a ∷ items) p in
          if ltb (length (a ∷ items)) batch_size || next == 0 || next == after_id
          then finished p'
          else scan_pages env org_id task state rs batch_size fuel next p')
  unfolding scan_pages
  scan_pages-step fuel after_id next a items p h = ground arith

-- The executor on these tables, which answer every query.
abbrev pub over_tables : (Text → Text → Bool) → List Article → List ArticleInfo → Env → Env
over_tables like articles infos env = record env {
  list_candidates = list_candidate_articles like none none articles infos;
}

module _ (like : Text → Text → Bool) (articles : List Article) (infos : List ArticleInfo)
    (env : Env) (org_id : ℕ) (task : InspectionTask) (state : ℕ) (rs : List KeywordRule)
    (batch_size : ℕ) where
  abbrev tables : Env
  tables = over_tables like articles infos env

  -- The articles of the task.
  abbrev pub matching : List Article
  matching = select_where (is_candidate like (page_filter org_id task state 0 batch_size)) articles

  abbrev rest_after : ℕ → List Article
  rest_after after_id = select_where (is_after after_id) matching

  abbrev scanned : List Article → Progress → Progress
  scanned rows = scan_items tables org_id task.id rs (map (stored_candidate infos) rows)

  module _ (ordered : IsKeyOrdered 0 articles) (small : batch_size ≤ 200)
      (full : 0 < batch_size) where
    candidate_rows-rest :
        (after_id : ℕ)
        → candidate_rows like (page_filter org_id task state after_id batch_size) articles
          ≡ take batch_size (rest_after after_id)
    unfolding candidate_rows
    candidate_rows-rest after_id =
        let o =
          IsKeyOrdered-select (is_candidate like (page_filter org_id task state 0 batch_size)) 0
            articles ordered in
        let e =
          sort_by-IsKeyOrdered after_id (rest_after after_id)
            (IsKeyOrdered-after after_id 0 matching o) in
        ground arith

    page_none :
        (after_id : ℕ)
        → org_id ≢ 0
        → take batch_size (rest_after after_id) ≡ []
        → tables.list_candidates (page_filter org_id task state after_id batch_size) ≡ page [] 0
    unfolding list_candidate_articles
    page_none after_id n h = let e = candidate_rows-rest after_id in ground arith

    page_some :
        (after_id : ℕ) (a : Article) (rows : List Article)
        → org_id ≢ 0
        → take batch_size (rest_after after_id) ≡ a ∷ rows
        → tables.list_candidates (page_filter org_id task state after_id batch_size)
          ≡ page (map (stored_candidate infos) (a ∷ rows)) (last_id (a ∷ rows))
    unfolding list_candidate_articles
    page_some after_id a rows n h =
        let e = candidate_rows-rest after_id in let s = page-stored infos (a ∷ rows) in ground arith

    -- A page and what is left after it.
    scanned-take :
        (after_id : ℕ) (p : Progress)
        → scanned
            (drop batch_size (rest_after after_id))
            (scanned (take batch_size (rest_after after_id)) p)
          ≡ scanned (rest_after after_id) p
    scanned-take after_id p =
        let rest = rest_after after_id in
        let e = take-drop batch_size rest in
        let m = map-append (stored_candidate infos) (take batch_size rest) (drop batch_size rest) in
        let s =
          scan_items-append tables org_id task.id rs
            (map (stored_candidate infos) (take batch_size rest))
            (map (stored_candidate infos) (drop batch_size rest)) p in
        sym s
        ∙ ap (λ xs. scan_items tables org_id task.id rs xs p) (sym m)
        ∙ ap (λ xs. scanned xs p) e

    scan_pages-from :
        (fuel after_id : ℕ) (p : Progress)
        → org_id ≢ 0
        → length (rest_after after_id) < fuel
        → scan_pages tables org_id task state rs batch_size fuel after_id p
          ≡ finished (scanned (rest_after after_id) p)
    unfolding scan_items
    scan_pages-from zero after_id p n h = absurd (omega arith)
    scan_pages-from (suc fuel) after_id p n h =
        elim (List-cases (take batch_size (rest_after after_id))) [
          | inl e ↦
              let rest = rest_after after_id in
              let l = length-take batch_size rest in
              let empty : rest ≡ [] =
                length_zero rest
                  (let e' : length (take batch_size rest) ≡ 0 = ap length e in omega arith) in
              scan_pages-last tables org_id task state rs batch_size fuel after_id 0 p
                (page_none after_id n e)
              ∙ ap (λ xs. finished (scanned xs p)) (sym empty)
          | inr (a, rows, e) ↦
              let rest = rest_after after_id in
              let next = last_id (a ∷ rows) in
              let p' = scanned (a ∷ rows) p in
              let o =
                IsKeyOrdered-select (is_candidate like (page_filter org_id task state 0 batch_size))
                  0 articles ordered in
              let t = length-take batch_size rest in
              let d = length-drop batch_size rest in
              let l : length (take batch_size rest) ≡ suc (length rows) = ap length e in
              let m = length-map (stored_candidate infos) rows in
              let (above, left) = after-page batch_size after_id matching o full (omega arith) in
              let whole : scanned (drop batch_size rest) p' ≡ scanned rest p =
                ap (λ xs. scanned (drop batch_size rest) (scanned xs p)) (sym e)
                ∙ scanned-take after_id p in
              let above' : after_id < next = subst (λ xs. after_id < last_id xs) e above in
              let left' : rest_after next ≡ drop batch_size rest =
                ap (λ xs. rest_after (last_id xs)) (sym e) ∙ left in
              let step =
                scan_pages-step tables org_id task state rs batch_size fuel after_id next
                  (stored_candidate infos a) (map (stored_candidate infos) rows) p
                  (page_some after_id a rows n e) in
              elim (Bool-cases (ltb (suc (length rows)) batch_size)) [
                | inl short ↦
                    let none_left : drop batch_size rest ≡ [] =
                      length_zero (drop batch_size rest) (ground arith) in
                    let done : p' ≡ scanned rest p =
                      ap (λ xs. scanned xs p') (sym none_left) ∙ whole in
                    ground arith
                | inr more ↦
                    let shorter : length (rest_after next) < fuel =
                      let l' = ap length left' in ground arith in
                    let later = scan_pages-from fuel next p' n shorter in
                    let done : scanned (rest_after next) p' ≡ scanned rest p =
                      ap (λ xs. scanned xs p') left' ∙ whole in
                    ground arith
              ]
        ]

-- Over a table of articles in the order of their keys, a batch size of 1 to 200 and an
-- organisation other than 0, on fuel above the number of the articles of the task, the loop ends
-- and has done what one pass over all of these in the order of their keys, each with its stored
-- body, does: none is left out and none is scanned twice.
pub scan_pages-scan_items :
    (like : Text → Text → Bool) (articles : List Article) (infos : List ArticleInfo) (env : Env)
    (org_id : ℕ) (task : InspectionTask) (state : ℕ) (rs : List KeywordRule) (batch_size : ℕ)
    → IsKeyOrdered 0 articles
    → batch_size ≤ 200
    → 0 < batch_size
    → org_id ≢ 0
    → (fuel : ℕ) (p : Progress)
    → length
        (select_where (is_candidate like (page_filter org_id task state 0 batch_size)) articles)
      < fuel
    → let e = over_tables like articles infos env in
      let rows =
        select_where (is_candidate like (page_filter org_id task state 0 batch_size)) articles in
      scan_pages e org_id task state rs batch_size fuel 0 p
      ≡ finished (scan_items e org_id task.id rs (map (stored_candidate infos) rows) p)
scan_pages-scan_items like articles infos env org_id task state rs batch_size ordered small full n
      fuel p h =
    let rows = matching like articles infos env org_id task state rs batch_size in
    let o =
      IsKeyOrdered-select (is_candidate like (page_filter org_id task state 0 batch_size)) 0
        articles ordered in
    let e = after-all 0 0 rows (omega arith) o in
    let l : length (select_where (is_after 0) rows) < fuel = let l' = ap length e in omega arith in
    scan_pages-from like articles infos env org_id task state rs batch_size ordered small full fuel
      0 p n l
    ∙ ap
        (λ xs. finished (
          scan_items (over_tables like articles infos env) org_id task.id rs
            (map (stored_candidate infos) xs) p))
        e
