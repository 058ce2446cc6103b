-- ===== src/Scan/Scanner.antt =====
-- scan/scanner.go: `ScanArticle` and the three ways to match a field.
use article_sentinel.Base.{
  ℕ, zero, suc, ◌+◌, ◌||◌, not, Option, none, some, List, [], ◌∷◌, ◌++◌, leb, if◌then◌else◌, length,
  drop,
}
use article_sentinel.Text.{Text, text_eq, is_empty, trim_space, Unicode, to_lower, equal_fold}
use article_sentinel.Text.Find.{index}
use article_sentinel.Domain.MatchType
use article_sentinel.Scan.{
  CandidateArticle, KeywordRule, Hit, KeywordScanner, Run, done, panicked, out_of_fuel, ◌>>=◌,
  checked_slice, article_field_value, build_hit, is_safe_regex_pattern,
}

-- `h` in front of the hits of the rest of a loop.
abbrev pub in_front : Hit → Run (List Hit) → Run (List Hit)
in_front h rest = rest >>= λ hits. done (h ∷ hits)

-- What package regexp makes of a pattern: no expression, or the matches of each text, as pairs of
-- positions.
abbrev pub Regexp : Type 0
Regexp = Text → Option (Text → List (ℕ × ℕ))

module _ (u : Unicode) (s : KeywordScanner) (rule : KeywordRule) (field_name value : Text) where
  -- The loop of `containsHits` from `search_from` on. The needle is not empty, so that each round
  -- moves on and two rounds more than there are bytes are fuel enough.
  unfoldable pub contains_loop : Text → Text → ℕ → ℕ → ℕ → Run (List Hit)
  unfolding checked_slice build_hit
  contains_loop lower_value lower_needle width zero search_from = out_of_fuel
  contains_loop lower_value lower_needle width (suc fuel) search_from =
      if leb search_from (length lower_value)
      then elim (index (drop search_from lower_value) lower_needle) [
        | none ↦ done []
        | some i ↦ elim (checked_slice value (search_from + i) (search_from + i + width)) [
          | done matched ↦
              elim (build_hit rule field_name value matched (search_from + i)
                (search_from + i + width) s.snippet_context) [
                  | done hit ↦
                      in_front hit (
                        contains_loop lower_value lower_needle width fuel (search_from + i + width))
                  | panicked ↦ panicked
                  | out_of_fuel ↦ out_of_fuel
                ]
          | panicked ↦ panicked
          | out_of_fuel ↦ out_of_fuel
        ]
      ]
      else panicked

  unfoldable pub contains_hits : Run (List Hit)
  unfolding contains_loop
  contains_hits =
      let needle = trim_space rule.name in
      let lower_value = to_lower u value in
      if is_empty needle
      then done []
      else contains_loop lower_value (to_lower u needle) (length needle) (length lower_value + 2) 0

  unfoldable pub exact_hits : Run (List Hit)
  unfolding build_hit
  exact_hits =
      let needle = trim_space rule.name in
      let field = trim_space value in
      if is_empty needle || is_empty field || not (equal_fold u field needle)
      then done []
      else (build_hit rule field_name value field 0 (length field) s.snippet_context >>= λ hit.
          done (hit ∷ []))

  unfoldable pub regex_loop : List (ℕ × ℕ) → Run (List Hit)
  unfolding checked_slice build_hit
  regex_loop [] = done []
  regex_loop ((i, j) ∷ locs) = do
    matched ← checked_slice value i j
    hit ← build_hit rule field_name value matched i j s.snippet_context
    in_front hit (regex_loop locs)

  unfoldable pub regex_hits : Regexp → Run (List Hit)
  unfolding regex_loop
  regex_hits compile =
      let pattern = trim_space rule.name in
      if is_empty pattern || not (is_safe_regex_pattern pattern s.max_regex_length)
      then done []
      else elim (compile pattern) [ none ↦ done [] | some find_all ↦ regex_loop (find_all value) ]

  unfoldable pub scan_field : Regexp → Run (List Hit)
  unfolding contains_hits exact_hits regex_hits
  scan_field compile =
      let match_type = to_lower u (trim_space rule.match_type) in
      if text_eq match_type MatchType.contains
      then contains_hits
      else if text_eq match_type MatchType.exact
      then exact_hits
      else if text_eq match_type MatchType.regex
      then regex_hits compile
      else done []

module _ (u : Unicode) (compile : Regexp) (s : KeywordScanner) (article : CandidateArticle) where
  -- The inner loop of `ScanArticle`, over the scopes of a rule.
  unfoldable pub scan_scopes : KeywordRule → List Text → Run (List Hit)
  unfolding scan_field
  scan_scopes rule [] = done []
  scan_scopes rule (scope ∷ scopes) =
      let value = article_field_value article scope in
      let rest = scan_scopes rule scopes in
      if is_empty (trim_space value)
      then rest
      else (scan_field u s rule scope value compile >>= λ hits.
          rest >>= λ more. done (hits ++ more))

  unfoldable pub scan_article : List KeywordRule → Run (List Hit)
  unfolding scan_scopes
  scan_article [] = done []
  scan_article (rule ∷ rules) =
      scan_scopes rule rule.scopes >>= λ hits. scan_article rules >>= λ more. done (hits ++ more)
