-- ===== src/Worker/Counters.antt =====
-- worker/executor.go: what the counters of a run say of the articles it has scanned.
use article_sentinel.Base.{
  ℕ, ◌+◌, Bool, true, false, ◌≡◌, arith, none, some, List, [], ◌∷◌, length, rows_affected,
}
use article_sentinel.Scan.{CandidateArticle, KeywordRule}
use article_sentinel.Worker.{Stats, persist_article_result}
use article_sentinel.Worker.Execute.{Env, hits, scan_failed, scan_item, scan_items, Progress}

module _ (env : Env) (org_id task_id : ℕ) (rs : List KeywordRule) where
  -- The scanner has found something in `a`.
  abbrev has_hits : CandidateArticle → Bool
  has_hits a = elim (env.scan_article a rs) [
    | scan_failed e ↦ false
    | hits [] ↦ false
    | hits (h ∷ hs) ↦ true
  ]

  abbrev hits_found : CandidateArticle → ℕ
  hits_found a = elim (env.scan_article a rs) [ scan_failed e ↦ 0 | hits hs ↦ length hs ]

  -- `a` cannot be scanned, or its result cannot be written.
  abbrev fails : CandidateArticle → Bool
  fails a = elim (env.scan_article a rs) [
    | scan_failed e ↦ true
    | hits [] ↦ false
    | hits (h ∷ hs) ↦ elim (env.persist_error a) [ none ↦ false | some e ↦ true ]
  ]

  abbrev all_hits : List CandidateArticle → ℕ
  all_hits [] = 0
  all_hits (a ∷ items) = hits_found a + all_hits items

  abbrev pub IsCountOf : List CandidateArticle → Stats → Stats → Type 0
  IsCountOf items s t =
      (t.total_scanned ≡ s.total_scanned + length items)
      × (t.hit_articles ≡ s.hit_articles + rows_affected has_hits items)
      × (t.hit_count ≡ s.hit_count + all_hits items)
      × (t.fail_count ≡ s.fail_count + rows_affected fails items)

  scan_item-IsCountOf :
      (a : CandidateArticle) (p : Progress)
      → IsCountOf (a ∷ []) p.0 (scan_item env org_id task_id rs a p).0
  unfolding scan_item persist_article_result
  scan_item-IsCountOf a (s, w) = (ground arith, ground arith, ground arith, ground arith)

  -- The counters grow by the number of articles, of those with a hit, of hits, and of the articles that
  -- cannot be scanned or whose result cannot be written.
  pub scan_items-IsCountOf :
      (items : List CandidateArticle) (p : Progress)
      → IsCountOf items p.0 (scan_items env org_id task_id rs items p).0
  unfolding scan_items
  scan_items-IsCountOf [] p = (omega arith, omega arith, omega arith, omega arith)
  scan_items-IsCountOf (a ∷ items) p =
      let (a1, b1, c1, d1) = scan_item-IsCountOf a p in
      let (a2, b2, c2, d2) = scan_items-IsCountOf items (scan_item env org_id task_id rs a p) in
      (ground arith, ground arith, ground arith, ground arith)
