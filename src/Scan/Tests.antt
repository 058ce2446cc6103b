-- ===== src/Scan/Tests.antt =====
-- The theorems on the contains match at two fields.
use article_sentinel.Base.{false, ◌≡◌, refl, arith, List, [], ◌∷◌, length}
use article_sentinel.Text.{Text, codes, is_empty, trim_space, Unicode, to_lower}
use article_sentinel.Text.Find.{index, has_prefix}
use article_sentinel.Scan.{KeywordRule, Hit, KeywordScanner, done, panicked}
use article_sentinel.Scan.Scanner.{contains_hits}
use article_sentinel.Scan.Occurrences.{FindsAll, contains_hits-FindsAll, contains_hits-panics}

-- Lower case of the one text that is not ASCII here: "Ⱥx" becomes a byte longer.
abbrev unicode : Unicode
unicode = record { lower = λ t. 0xe2 ∷ 0xb1 ∷ 0xa5 ∷ 0x78 ∷ []; fold_eq = λ s t. false }

abbrev rule : Text → KeywordRule
rule name = record {
  id = 1;
  name = name;
  category = [];
  match_type = [];
  risk_level = [];
  suggest_action = [];
  scopes = [];
}

abbrev scanner : KeywordScanner
scanner = record { snippet_context = 24; max_regex_length = 128 }

finds_example :
    (hits : List Hit) × (contains_hits unicode scanner (rule (codes "b")) [] (codes "aBb")
      ≡ done hits)
    × FindsAll
        (codes "aBb")
        (to_lower unicode (codes "aBb"))
        (to_lower unicode (trim_space (codes "b")))
        (length (trim_space (codes "b")))
        0
        hits
unfolding is_empty trim_space to_lower codes
finds_example =
    contains_hits-FindsAll unicode scanner (rule (codes "b")) [] (codes "aBb") refl refl refl

panics_example :
    contains_hits unicode scanner (rule (codes "x")) [] (0xc8 ∷ 0xba ∷ 0x78 ∷ []) ≡ panicked
unfolding is_empty trim_space to_lower codes index has_prefix
panics_example =
    contains_hits-panics unicode scanner (rule (codes "x")) [] (0xc8 ∷ 0xba ∷ 0x78 ∷ []) 3 refl refl
      (omega arith)
