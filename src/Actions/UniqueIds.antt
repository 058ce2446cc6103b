-- ===== src/Actions/UniqueIds.antt =====
-- actions/service.go: `uniqueUint64s`, which sorts by exchanges.
use article_sentinel.Base.{
  ℕ, zero, suc, List, [], ◌∷◌, ◌++◌, ltb, ◌==◌, if◌then◌else◌, length, contains_id,
}

-- The loop that keeps the first of each value but 0: `seen` holds what `result` holds.
unfoldable pub keep_unique : List ℕ → List ℕ → List ℕ
keep_unique [] result = result
keep_unique (v ∷ values) result =
    keep_unique values
      (if v == 0 then result else if contains_id v result then result else result ++ v ∷ [])

-- The inner loop for one `i`: `x` is `result[i]`, the list what stands after it.
unfoldable pub exchange : ℕ → List ℕ → ℕ × List ℕ
exchange x [] = (x, [])
exchange x (y ∷ ys) =
    let (m, zs) = exchange (if ltb y x then y else x) ys in (m, (if ltb y x then x else y) ∷ zs)

-- The outer loop, on fuel.
unfoldable pub exchange_sort : ℕ → List ℕ → List ℕ
unfolding exchange
exchange_sort zero xs = xs
exchange_sort (suc fuel) [] = []
exchange_sort (suc fuel) (x ∷ xs) = let (m, zs) = exchange x xs in m ∷ exchange_sort fuel zs

-- Each round of the outer loop takes one value, so that there are as many as values.
unfoldable pub unique_uint64s : List ℕ → List ℕ
unfolding keep_unique exchange_sort
unique_uint64s values = let result = keep_unique values [] in exchange_sort (length result) result
