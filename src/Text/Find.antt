-- ===== src/Text/Find.antt =====
-- `strings.HasPrefix`, `strings.Index` and `strings.Contains`.
use article_sentinel.Base.{
  ℕ, suc, Bool, true, false, ◌&&◌, Option, none, some, [], ◌∷◌, ◌==◌, if◌then◌else◌, is_some,
}
use article_sentinel.Text.{Text}

unfoldable pub has_prefix : Text → Text → Bool
has_prefix s [] = true
has_prefix [] (b ∷ t) = false
has_prefix (a ∷ s) (b ∷ t) = a == b && has_prefix s t

-- `none` is Go's -1.
unfoldable pub index : Text → Text → Option ℕ
unfolding has_prefix
index [] t = if has_prefix [] t then some 0 else none
index (a ∷ s) t =
    let later = index s t in
    if has_prefix (a ∷ s) t then some 0 else elim later [ none ↦ none | some i ↦ some (suc i) ]

unfoldable pub contains : Text → Text → Bool
unfolding index
contains s t = is_some (index s t)
