-- ===== src/Articles.antt =====
-- internal/modules/articleinspect/articles/repository.go and repository_candidates.go: the articles
-- that a task is to scan, a page at a time; the rows are those of domain/model_article_source.go.
-- Seconds since 1970 and the small state numbers are natural numbers.
pub mod Order
pub mod Bodies
use article_sentinel.Base.{
  ℕ, suc, ◌+◌, Bool, true, false, ◌&&◌, Option, none, some, List, [], ◌∷◌, map, ltb, leb, ◌==◌,
  if◌then◌else◌, take, select_where, first_where, sort_by, contains_id, Option-cases,
}
use article_sentinel.Text.{Text, is_empty, trim_space, codes}
use article_sentinel.Domain.ArticleState
use article_sentinel.Scan.{CandidateArticle}

pub record Article : Type 0 where
  pub id : ℕ
  pub org_id : ℕ
  pub title : Text
  pub short_title : Option Text
  pub rich_title : Text
  pub keyword : Text
  pub desc : Text
  pub thumbnail : Text
  pub state : ℕ
  pub publish_at_unix : ℕ
  pub update_at_unix : ℕ

pub record ArticleInfo : Type 0 where
  pub id : ℕ
  pub org_id : ℕ
  pub body : Text
  pub media : Text
  pub relate : Text
  pub share_info : Text

-- `tasks.CandidateArticleFilter`
pub record CandidateArticleFilter : Type 0 where
  pub org_id : ℕ
  pub article_state : ℕ
  pub publish_time_start : Option ℕ
  pub publish_time_end : Option ℕ
  pub article_id : ℕ
  pub title_like : Text
  pub after_id : ℕ
  pub limit : ℕ

-- The articles of a page and the cursor to the next, or an error.
pub data Listing : Type 0 where
  page : List CandidateArticle → ℕ → Listing
  list_failed : Text → Listing

unfoldable pub nullable_string_to_string : Option Text → Text
nullable_string_to_string none = []
nullable_string_to_string (some s) = s

unfoldable pub unix_seconds_pointer : ℕ → Option ℕ
unix_seconds_pointer value = if value == 0 then none else some value

abbrev pub limit_of : ℕ → ℕ
limit_of limit = let l = if limit == 0 then 50 else limit in if ltb 200 l then 200 else l

-- `like` is the server's `title LIKE '%...%'`.
abbrev pub is_candidate : (Text → Text → Bool) → CandidateArticleFilter → Article → Bool
is_candidate like f row =
    row.org_id == f.org_id
    && row.state == (if f.article_state == 0 then ArticleState.online else f.article_state)
    && elim f.publish_time_start [ none ↦ true | some t ↦ leb t row.publish_at_unix ]
    && elim f.publish_time_end [ none ↦ true | some t ↦ leb row.publish_at_unix t ]
    && (if f.article_id == 0 then true else row.id == f.article_id)
    && (let title = trim_space f.title_like in
        if is_empty title then true else like row.title title)

abbrev pub is_after : ℕ → Article → Bool
is_after after_id row = if after_id == 0 then true else ltb after_id row.id

abbrev pub by_id : Article → Article → Bool
by_id a b = leb a.id b.id

-- The rows of a page.
unfoldable pub candidate_rows :
    (Text → Text → Bool) → CandidateArticleFilter → List Article → List Article
candidate_rows like f rows =
    take (limit_of f.limit)
      (sort_by by_id (select_where (is_after f.after_id) (select_where (is_candidate like f) rows)))

-- A `map` as the list of its assignments, the last one first.
unfoldable pub load_bodies : List ArticleInfo → List ℕ → List (ℕ × Text) → List (ℕ × Text)
load_bodies [] ids bodies = bodies
load_bodies (i ∷ infos) ids bodies =
    load_bodies infos ids (if contains_id i.id ids then (i.id, i.body) ∷ bodies else bodies)

unfoldable pub body_of : List (ℕ × Text) → ℕ → Text
body_of bodies id = elim (first_where (λ b. b.0 == id) bodies) [ none ↦ [] | some b ↦ b.1 ]

unfoldable pub candidate_of : List (ℕ × Text) → Article → CandidateArticle
unfolding nullable_string_to_string unix_seconds_pointer body_of
candidate_of bodies row = record {
  id = row.id;
  org_id = row.org_id;
  title = row.title;
  short_title = nullable_string_to_string row.short_title;
  rich_title = row.rich_title;
  keyword = row.keyword;
  desc = row.desc;
  body = body_of bodies row.id;
  state = row.state;
  publish_at_time = unix_seconds_pointer row.publish_at_unix;
}

-- `articles[len(articles)-1].ID`
abbrev pub last_id : List Article → ℕ
last_id [] = 0
last_id (a ∷ []) = a.id
last_id (a ∷ b ∷ rows) = last_id (b ∷ rows)

unfoldable pub list_candidate_articles :
    (Text → Text → Bool)
    → Option Text
    → Option Text
    → List Article
    → List ArticleInfo
    → CandidateArticleFilter
    → Listing
unfolding candidate_rows load_bodies candidate_of
list_candidate_articles like find_error bodies_error articles infos f =
    if f.org_id == 0 then list_failed (codes "invalid task input") else elim find_error [
      | some e ↦ list_failed e
      | none ↦ elim (candidate_rows like f articles) [
        | [] ↦ page [] 0
        | a ∷ rows ↦ elim bodies_error [
          | some e ↦ list_failed e
          | none ↦
              page
                (map (candidate_of (load_bodies infos (map (λ r. r.id) (a ∷ rows)) [])) (a ∷ rows))
                (last_id (a ∷ rows))
        ]
      ]
    ]
