-- ===== src/Articles/Bodies.antt =====
-- articles/repository.go: an article of a page has the body that is stored for it.
use article_sentinel.Base.{
  ℕ, true, ◌≡◌, refl, arith, List, [], ◌∷◌, map, ==_refl, if◌then◌else◌, contains_id, All, All-map,
}
use article_sentinel.Text.{Text}
use article_sentinel.Scan.{CandidateArticle}
use article_sentinel.Articles.{Article, ArticleInfo, load_bodies, body_of, candidate_of}

-- The candidate with the body that is loaded for it alone.
abbrev pub stored_candidate : List ArticleInfo → Article → CandidateArticle
stored_candidate infos row = candidate_of (load_bodies infos (row.id ∷ []) []) row

load_bodies-body_of :
    (id : ℕ) (ids : List ℕ)
    → contains_id id ids ≡ true
    → (infos : List ArticleInfo) (bodies bodies' : List (ℕ × Text))
    → body_of bodies id ≡ body_of bodies' id
    → body_of (load_bodies infos ids bodies) id ≡ body_of (load_bodies infos (id ∷ []) bodies') id
unfolding load_bodies body_of
load_bodies-body_of id ids h [] bodies bodies' e = e
load_bodies-body_of id ids h (i ∷ infos) bodies bodies' e =
    load_bodies-body_of id ids h infos
      (if contains_id i.id ids then (i.id, i.body) ∷ bodies else bodies)
      (if contains_id i.id (id ∷ []) then (i.id, i.body) ∷ bodies' else bodies') (ground arith)

candidate_of-stored :
    (infos : List ArticleInfo) (ids : List ℕ) (row : Article)
    → contains_id row.id ids ≡ true
    → candidate_of (load_bodies infos ids []) row ≡ stored_candidate infos row
unfolding candidate_of
candidate_of-stored infos ids row h = simp (load_bodies-body_of row.id ids h infos [] [] refl)

map-stored :
    (infos : List ArticleInfo) (ids : List ℕ) (rows : List Article)
    → All (λ r. contains_id r.id ids ≡ true) rows
    → map (candidate_of (load_bodies infos ids [])) rows ≡ map (stored_candidate infos) rows
map-stored infos ids [] h = refl
map-stored infos ids (r ∷ rows) h =
    let e = candidate_of-stored infos ids r h.0 in let e' = map-stored infos ids rows h.1 in cc

All-contains_id :
    (rows : List Article) → All (λ r. contains_id r.id (map (λ a. a.id) rows) ≡ true) rows
All-contains_id [] = tt
All-contains_id (r ∷ rows) = (
  ground (arith, ==_refl r.id),
  All-map (λ x. contains_id x.id (map (λ a. a.id) rows) ≡ true)
      (λ x. contains_id x.id (map (λ a. a.id) (r ∷ rows)) ≡ true) (λ x e. ground arith) rows
      (All-contains_id rows),
)

pub page-stored :
    (infos : List ArticleInfo) (rows : List Article)
    → map (candidate_of (load_bodies infos (map (λ a. a.id) rows) [])) rows
      ≡ map (stored_candidate infos) rows
page-stored infos rows = map-stored infos (map (λ a. a.id) rows) rows (All-contains_id rows)
