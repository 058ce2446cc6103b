-- ===== src/Auth/OneTime.antt =====
-- A code is worth one session, once and for a limited time.
use article_sentinel.Base.{
  ℕ, zero, suc, Bool, false, ◌≡◌, ◌≢◌, refl, ap, ◌∙◌, inl, inr, arith, Option, none, some, List, [],
  ◌∷◌, ◌++◌, All, first_where, first_where-deleted, delete_where, is_some, Bool-cases, Option-cases,
}
use article_sentinel.Text.{Text, text_eq, is_empty, trim_space}
use article_sentinel.Text.Laws.{eq_of_text_eq}
use article_sentinel.Auth.Codes.{
  AuthExchangeCodeEntry, AuthExchangeCodeStore, has_code, is_expired, cleanup_expired_locked,
  code_expiry, allocate, issue, consume,
}

-- What happens to the store, one operation after another.
pub data Operation : Type 0 where
  issues : ℕ → (ℕ → Option Text) → Text → Option ℕ → Operation
  consumes : ℕ → Text → Operation

unfoldable pub operate : AuthExchangeCodeStore → List Operation → AuthExchangeCodeStore
unfolding issue consume
operate s [] = s
operate s (issues now generate jwt expires_at ∷ operations) =
    operate (issue now generate jwt expires_at s).1 operations
operate s (consumes now code ∷ operations) = operate (consume now code s).1 operations

-- The source of random codes does not give `code`.
abbrev pub IsOther : Text → Operation → Type 0
IsOther code (issues now generate jwt expires_at) = (k : ℕ) → generate k ≢ some code
IsOther code (consumes now c) = Unit

-- No entry has the code.
abbrev IsSpent : Text → AuthExchangeCodeStore → Type 0
IsSpent code s = first_where (has_code code) s.entries ≡ none

deleted_spent :
    (p : AuthExchangeCodeEntry → Bool) (code : Text) (entries : List AuthExchangeCodeEntry)
    → first_where (has_code code) entries ≡ none
    → first_where (has_code code) (delete_where p entries) ≡ none
deleted_spent p code [] h = refl
deleted_spent p code (e ∷ entries) h = ground (arith, deleted_spent p code entries)

appended_spent :
    (code : Text) (entries : List AuthExchangeCodeEntry) (e : AuthExchangeCodeEntry)
    → first_where (has_code code) entries ≡ none
    → text_eq e.code code ≡ false
    → first_where (has_code code) (entries ++ e ∷ []) ≡ none
appended_spent code [] e h other = rw other refl
appended_spent code (x ∷ entries) e h other = ground (arith, appended_spent code entries e)

allocate-IsSpent :
    (code : Text) (generate : ℕ → Option Text) (attempts k : ℕ) (jwt : Text) (expires_at : Option ℕ)
    (expiry : ℕ) (s : AuthExchangeCodeStore)
    → ((k : ℕ) → generate k ≢ some code)
    → IsSpent code s
    → IsSpent code (allocate generate attempts k jwt expires_at expiry s).1
unfolding allocate
allocate-IsSpent code generate zero k jwt expires_at expiry s other spent = spent
allocate-IsSpent code generate (suc attempts) k jwt expires_at expiry s other spent =
    elim (Option-cases (generate k)) [
      | inl e ↦ rw (allocate, e) spent
      | inr (c, e) ↦ elim (Bool-cases (is_some (first_where (has_code c) s.entries))) [
        | inl f ↦
            rw (allocate, e, f)
              (allocate-IsSpent code generate attempts (suc k) jwt expires_at expiry s other spent)
        | inr f ↦
            let ne : text_eq c code ≡ false = elim (Bool-cases (text_eq c code)) [
              | inl q ↦ absurd (other k (e ∙ ap some (eq_of_text_eq c code q)))
              | inr q ↦ q
            ] in
            rw (allocate, e, f) (appended_spent code s.entries _ spent ne)
      ]
    ]

consume-IsSpent :
    (code c : Text) (now : ℕ) (s : AuthExchangeCodeStore)
    → IsSpent code s
    → IsSpent code (consume now c s).1
unfolding consume cleanup_expired_locked
consume-IsSpent code c now s spent =
    let cleaned = deleted_spent (is_expired now) code s.entries spent in
    elim (Bool-cases (is_empty (trim_space c))) [
      | inl e ↦ rw e spent
      | inr e ↦
          elim (Option-cases
            (first_where (has_code (trim_space c)) (delete_where (is_expired now) s.entries))) [
              | inl f ↦ rw (e, f) cleaned
              | inr (entry, f) ↦
                  let gone =
                    deleted_spent (has_code (trim_space c)) code
                      (delete_where (is_expired now) s.entries) cleaned in
                  elim (Bool-cases (is_expired now entry)) [
                    | inl g ↦ rw (e, f, g) gone
                    | inr g ↦ rw (e, f, g) gone
                  ]
            ]
    ]

operate-IsSpent :
    (code : Text) (operations : List Operation) (s : AuthExchangeCodeStore)
    → All (IsOther code) operations
    → IsSpent code s
    → IsSpent code (operate s operations)
unfolding operate issue cleanup_expired_locked
operate-IsSpent code [] s other spent = spent
operate-IsSpent code (issues now generate jwt expires_at ∷ operations) s other spent =
    operate-IsSpent code operations _ other.1 (
      allocate-IsSpent code generate 5 0 jwt expires_at (code_expiry now s.ttl expires_at)
        (cleanup_expired_locked now s) other.0
        (deleted_spent (is_expired now) code s.entries spent))
operate-IsSpent code (consumes now c ∷ operations) s other spent =
    operate-IsSpent code operations _ other.1 (consume-IsSpent code c now s spent)

spent_refuses :
    (now : ℕ) (code : Text) (s : AuthExchangeCodeStore)
    → IsSpent (trim_space code) s
    → (consume now code s).0 ≡ none
unfolding consume cleanup_expired_locked
spent_refuses now code s spent =
    let cleaned = deleted_spent (is_expired now) (trim_space code) s.entries spent in
    elim (Bool-cases (is_empty (trim_space code))) [
      | inl e ↦ rw e refl
      | inr e ↦ rw (e, cleaned) refl
    ]

consumed-IsSpent :
    (now : ℕ) (code : Text) (s : AuthExchangeCodeStore) (entry : AuthExchangeCodeEntry)
    → (consume now code s).0 ≡ some entry
    → IsSpent (trim_space code) (consume now code s).1
unfolding consume cleanup_expired_locked
consumed-IsSpent now code s entry h = elim (Bool-cases (is_empty (trim_space code))) [
  | inl e ↦ let n : (consume now code s).0 ≡ none = rw e refl in absurd cc
  | inr e ↦
      elim (Option-cases
        (first_where (has_code (trim_space code)) (delete_where (is_expired now) s.entries))) [
          | inl f ↦ let n : (consume now code s).0 ≡ none = rw (e, f) refl in absurd cc
          | inr (found, f) ↦
              let gone =
                first_where-deleted (has_code (trim_space code))
                  (delete_where (is_expired now) s.entries) in
              elim (Bool-cases (is_expired now found)) [
                | inl g ↦ rw (e, f, g) gone
                | inr g ↦ rw (e, f, g) gone
              ]
        ]
]

-- After a code has been exchanged for its entry, no later exchange of it succeeds, whatever codes
-- are issued and consumed in between, if the source of random codes does not give the same code
-- again.
pub consume-once :
    (now later : ℕ) (code : Text) (s : AuthExchangeCodeStore) (entry : AuthExchangeCodeEntry)
    (operations : List Operation)
    → (consume now code s).0 ≡ some entry
    → All (IsOther (trim_space code)) operations
    → (consume later code (operate (consume now code s).1 operations)).0 ≡ none
consume-once now later code s entry operations taken other =
    spent_refuses later code (operate (consume now code s).1 operations) (
      operate-IsSpent (trim_space code) operations (consume now code s).1 other
        (consumed-IsSpent now code s entry taken))
