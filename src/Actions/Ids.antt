-- ===== src/Actions/Ids.antt =====
-- actions/service.go: `uniqueUint64s` gives each value but 0 once, in ascending order.
use mathlib.Core.Path.{subst}
use article_sentinel.Base.{
  ℕ, zero, suc, ◌<◌, ◌≤◌, true, false, ◌||◌, ◌&&◌, not, ◌≡◌, refl, sym, ◌∙◌, arith, List, [], ◌∷◌,
  ◌++◌, ltb, ◌==◌, if◌then◌else◌, length, contains_id, contains_id-append, IsUnique, IsUnique-snoc,
  All, All-append, Bool-cases, inl, inr,
}
use article_sentinel.Actions.UniqueIds.{keep_unique, exchange, exchange_sort, unique_uint64s}

keep_unique-contains :
    (a : ℕ) (values result : List ℕ)
    → contains_id a (keep_unique values result)
      ≡ (contains_id a result || (not (a == 0) && contains_id a values))
unfolding keep_unique
keep_unique-contains a [] result = ground arith
keep_unique-contains a (v ∷ values) result =
    let e = contains_id-append a result (v ∷ []) in
    let h =
      keep_unique-contains a values
        (if v == 0 then result else if contains_id v result then result else result ++ v ∷ []) in
    ground arith

-- Each value is at least `lo`, and the list ascends.
abbrev pub IsAscending : ℕ → List ℕ → Type 0
IsAscending lo [] = Unit
IsAscending lo (x ∷ xs) = (lo < x) × IsAscending x xs

exchange-contains :
    (a x : ℕ) (xs : List ℕ)
    → let (m, zs) = exchange x xs in contains_id a (m ∷ zs) ≡ contains_id a (x ∷ xs)
unfolding exchange
exchange-contains a x [] = refl
exchange-contains a x (y ∷ ys) =
    let h = exchange-contains a (if ltb y x then y else x) ys in ground arith

exchange-length : (x : ℕ) (xs : List ℕ) → length (exchange x xs).1 ≡ length xs
unfolding exchange
exchange-length x [] = refl
exchange-length x (y ∷ ys) = let h = exchange-length (if ltb y x then y else x) ys in ground arith

keep_unique-IsUnique :
    (values result : List ℕ) → IsUnique result → IsUnique (keep_unique values result)
unfolding keep_unique
keep_unique-IsUnique [] result u = u
keep_unique-IsUnique (v ∷ values) result u =
    keep_unique-IsUnique values
      (if v == 0 then result else if contains_id v result then result else result ++ v ∷ [])
      (elim (Bool-cases (v == 0)) [
        | inl e ↦ rw e u
        | inr e ↦ elim (Bool-cases (contains_id v result)) [
          | inl e1 ↦ rw (e, e1) u
          | inr e1 ↦ rw (e, e1) (IsUnique-snoc v result u e1)
        ]
      ])

keep_unique-positive :
    (values result : List ℕ)
    → All (λ a. 0 < a) result
    → All (λ a. 0 < a) (keep_unique values result)
unfolding keep_unique
keep_unique-positive [] result u = u
keep_unique-positive (v ∷ values) result u =
    keep_unique-positive values
      (if v == 0 then result else if contains_id v result then result else result ++ v ∷ [])
      (elim (Bool-cases (v == 0)) [
        | inl e ↦ rw e u
        | inr e ↦ elim (Bool-cases (contains_id v result)) [
          | inl e1 ↦ rw (e, e1) u
          | inr e1 ↦ rw (e, e1) (All-append (λ a. 0 < a) result (v ∷ []) u (ground arith, tt))
        ]
      ])

exchange-All :
    (P : ℕ → Type 0) (x : ℕ) (xs : List ℕ)
    → P x
    → All P xs
    → let (m, zs) = exchange x xs in P m × All P zs
unfolding exchange
exchange-All P x [] px h = (px, tt)
exchange-All P x (y ∷ ys) px h = elim (Bool-cases (ltb y x)) [
  | inl e ↦ let (pm, pz) = exchange-All P y ys h.0 h.1 in rw e (pm, (px, pz))
  | inr e ↦ let (pm, pz) = exchange-All P x ys px h.1 in rw e (pm, (h.0, pz))
]

-- The outcome of a round, for the two orders of `x` and `y`.
exchange-smaller :
    (x y : ℕ) (ys : List ℕ)
    → ltb y x ≡ true
    → exchange x (y ∷ ys) ≡ ((exchange y ys).0, x ∷ (exchange y ys).1)
unfolding exchange
exchange-smaller x y ys e = rw e refl

exchange-other :
    (x y : ℕ) (ys : List ℕ)
    → ltb y x ≡ false
    → exchange x (y ∷ ys) ≡ ((exchange x ys).0, y ∷ (exchange x ys).1)
unfolding exchange
exchange-other x y ys e = rw e refl

abbrev IsLeast : ℕ → ℕ × List ℕ → Type 0
IsLeast x t = (t.0 ≤ x) × All (λ z. t.0 ≤ z) t.1

-- The value taken is the least.
exchange-IsLeast : (x : ℕ) (xs : List ℕ) → IsLeast x (exchange x xs)
unfolding exchange
exchange-IsLeast x [] = (omega arith, tt)
exchange-IsLeast x (y ∷ ys) = elim (Bool-cases (ltb y x)) [
  | inl e ↦
      let (l, h) = exchange-IsLeast y ys in
      let l' : (exchange y ys).0 ≤ x = ground arith in
      subst (IsLeast x) (sym (exchange-smaller x y ys e)) (l', (l', h))
  | inr e ↦
      let (l, h) = exchange-IsLeast x ys in
      let l' : (exchange x ys).0 ≤ y = ground arith in
      subst (IsLeast x) (sym (exchange-other x y ys e)) (l, (l', h))
]

exchange-IsUnique :
    (x : ℕ) (xs : List ℕ) → IsUnique (x ∷ xs) → IsUnique ((exchange x xs).0 ∷ (exchange x xs).1)
unfolding exchange
exchange-IsUnique x [] u = u
exchange-IsUnique x (y ∷ ys) u =
    let u0 = u.0 in
    let u1 = u.1.0 in
    elim (Bool-cases (ltb y x)) [
      | inl e ↦
          let h = exchange-IsUnique y ys u.1 in
          let h0 = h.0 in
          let c = exchange-contains x y ys in
          let c1 : contains_id (exchange y ys).0 (x ∷ (exchange y ys).1) ≡ false = ground arith in
          subst (λ t. IsUnique (t.0 ∷ t.1)) (sym (exchange-smaller x y ys e))
            (c1, (ground arith, h.1))
      | inr e ↦
          let h = exchange-IsUnique x ys (ground arith, u.1.1) in
          let h0 = h.0 in
          let c = exchange-contains y x ys in
          let c1 : contains_id (exchange x ys).0 (y ∷ (exchange x ys).1) ≡ false = ground arith in
          subst (λ t. IsUnique (t.0 ∷ t.1)) (sym (exchange-other x y ys e))
            (c1, (ground arith, h.1))
    ]

strictly_above :
    (m : ℕ) (zs : List ℕ) → All (λ z. m ≤ z) zs → contains_id m zs ≡ false → All (λ z. m < z) zs
strictly_above m [] h u = tt
strictly_above m (z ∷ zs) h u =
    (let h0 = h.0 in ground arith, strictly_above m zs h.1 (ground arith))

exchange_sort-IsAscending :
    (fuel lo : ℕ) (xs : List ℕ)
    → length xs ≤ fuel
    → IsUnique xs
    → All (λ x. lo < x) xs
    → IsAscending lo (exchange_sort fuel xs)
unfolding exchange_sort
exchange_sort-IsAscending zero lo [] l u h = tt
exchange_sort-IsAscending zero lo (x ∷ xs) l u h = absurd (omega arith)
exchange_sort-IsAscending (suc fuel) lo [] l u h = tt
exchange_sort-IsAscending (suc fuel) lo (x ∷ xs) l u h =
    let v = exchange-IsUnique x xs u in
    let n = exchange-length x xs in
    (
      (exchange-All (λ y. lo < y) x xs h.0 h.1).0,
      exchange_sort-IsAscending fuel (exchange x xs).0 (exchange x xs).1 (omega arith) v.1
          (strictly_above (exchange x xs).0 (exchange x xs).1 (exchange-IsLeast x xs).1 v.0),
    )

exchange_sort-contains :
    (a fuel : ℕ) (xs : List ℕ) → contains_id a (exchange_sort fuel xs) ≡ contains_id a xs
unfolding exchange_sort
exchange_sort-contains a zero xs = refl
exchange_sort-contains a (suc fuel) [] = refl
exchange_sort-contains a (suc fuel) (x ∷ xs) =
    let h = exchange_sort-contains a fuel (exchange x xs).1 in
    let e = exchange-contains a x xs in ground arith

-- The ids that a batch action works through ascend, so that none is there twice, and are those asked
-- for without 0.
pub unique_uint64s-IsAscending :
    (values : List ℕ)
    → IsAscending 0 (unique_uint64s values)
      × ((a : ℕ) → contains_id a (unique_uint64s values) ≡ (not (a == 0) && contains_id a values))
unfolding unique_uint64s
unique_uint64s-IsAscending values =
    let result = keep_unique values [] in
    (
      exchange_sort-IsAscending (length result) 0 result (omega arith)
          (keep_unique-IsUnique values [] tt) (keep_unique-positive values [] tt),
      λ a. exchange_sort-contains a (length result) result ∙ keep_unique-contains a values [],
    )
