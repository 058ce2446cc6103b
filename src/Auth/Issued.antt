-- ===== src/Auth/Issued.antt =====
-- A code that has been issued is exchanged for its session until it expires.
use article_sentinel.Base.{
  ℕ, zero, suc, ◌≤◌, ◌<◌, Bool, true, false, ◌≡◌, ◌⊎◌, refl, sym, ap, ◌∙◌, inl, inr, arith, Option,
  none, some, List, [], ◌∷◌, ◌++◌, ltb, ltb→lt, if◌then◌else◌, first_where, delete_where, is_some,
  Bool-cases, Option-cases, ok, failed,
}
use article_sentinel.Text.{Text, is_empty, trim_space, codes}
use article_sentinel.Text.Laws.{text_eq_refl}
use article_sentinel.Auth.Codes.{
  AuthExchangeCodeEntry, AuthExchangeCodeStore, has_code, is_expired, cleanup_expired_locked,
  code_expiry, allocate, issue, consume,
}

abbrev pub issued_entry : Text → Text → Option ℕ → ℕ → AuthExchangeCodeEntry
issued_entry code jwt expires_at expiry = record {
  code = code;
  session_jwt = jwt;
  expires_at = expires_at;
  code_expiry = some expiry;
}

allocated :
    (generate : ℕ → Option Text) (attempts k : ℕ) (jwt : Text) (expires_at : Option ℕ) (expiry : ℕ)
    (s : AuthExchangeCodeStore) (code : Text)
    → (allocate generate attempts k jwt expires_at expiry s).0 ≡ ok code
    → (first_where (has_code code) s.entries ≡ none)
      × ((allocate generate attempts k jwt expires_at expiry s).1.entries
          ≡ s.entries ++ issued_entry code jwt expires_at expiry ∷ [])
unfolding allocate
allocated generate zero k jwt expires_at expiry s code h = absurd cc
allocated generate (suc attempts) k jwt expires_at expiry s code h =
    elim (Option-cases (generate k)) [
      | inl e ↦
          let n : (allocate generate (suc attempts) k jwt expires_at expiry s).0
              ≡ failed (codes "read exchange code entropy") =
            rw (allocate, e) refl in
          absurd (let n' = sym n ∙ h in cc)
      | inr (c, e) ↦ elim (Bool-cases (is_some (first_where (has_code c) s.entries))) [
        | inl f ↦
            let n : allocate generate (suc attempts) k jwt expires_at expiry s
                ≡ allocate generate attempts (suc k) jwt expires_at expiry s =
              rw (allocate, e, f) refl in
            let (free, made) =
              allocated generate attempts (suc k) jwt expires_at expiry s code
                (sym (ap (λ r. r.0) n) ∙ h) in
            (free, ap (λ r. r.1.entries) n ∙ made)
        | inr f ↦
            let n : (allocate generate (suc attempts) k jwt expires_at expiry s).0 ≡ ok c =
              rw (allocate, e, f) refl in
            let same : c ≡ code = let n' = sym n ∙ h in cc in
            let g : first_where (has_code c) s.entries ≡ none = ground arith in
            (
              rw (← same) g,
              rw (allocate, e, f)
                  (ap (λ x. s.entries ++ issued_entry x jwt expires_at expiry ∷ []) same),
            )
      ]
    ]

module _ (p : AuthExchangeCodeEntry → Bool) (code : Text) (e : AuthExchangeCodeEntry) where
  last_kept :
      (entries : List AuthExchangeCodeEntry)
      → first_where (has_code code) entries ≡ none
      → has_code code e ≡ true
      → first_where (has_code code) (delete_where p (entries ++ e ∷ []))
        ≡ (if p e then none else some e)
  last_kept [] h own = ground arith
  last_kept (x ∷ entries) h own = ground (arith, last_kept entries)

deleted_free :
    (p : AuthExchangeCodeEntry → Bool) (code : Text) (entries : List AuthExchangeCodeEntry)
    → first_where (has_code code) entries ≡ none
    → first_where (has_code code) (delete_where p entries) ≡ none
deleted_free p code [] h = refl
deleted_free p code (e ∷ entries) h = ground (arith, deleted_free p code entries)

looked_up : ℕ → Option AuthExchangeCodeEntry → Option AuthExchangeCodeEntry
looked_up later none = none
looked_up later (some e) = if is_expired later e then none else some e

consume_found :
    (later : ℕ) (code : Text) (s : AuthExchangeCodeStore)
    → is_empty (trim_space code) ≡ false
    → (consume later code s).0
      ≡ looked_up later
          (first_where (has_code (trim_space code)) (delete_where (is_expired later) s.entries))
unfolding consume cleanup_expired_locked looked_up
consume_found later code s nonempty =
    elim (Option-cases
      (first_where (has_code (trim_space code)) (delete_where (is_expired later) s.entries))) [
        | inl e ↦ rw (nonempty, e) refl
        | inr (x, e) ↦ elim (Bool-cases (is_expired later x)) [
          | inl f ↦ rw (nonempty, e, f) refl
          | inr f ↦ rw (nonempty, e, f) refl
        ]
      ]

-- A code that has been issued is exchanged for the session that it was issued with, until it
-- expires, and for nothing from then on.
pub issue-consume :
    (now later : ℕ) (generate : ℕ → Option Text) (jwt : Text) (expires_at : Option ℕ)
    (s : AuthExchangeCodeStore) (code : Text)
    → (issue now generate jwt expires_at s).0 ≡ ok code
    → trim_space code ≡ code
    → is_empty code ≡ false
    → let expiry = code_expiry now s.ttl expires_at in
      let answer = (consume later code (issue now generate jwt expires_at s).1).0 in
      ((later ≤ expiry) × (answer ≡ some (issued_entry code jwt expires_at expiry)))
      ⊎ ((expiry < later) × (answer ≡ none))
unfolding issue cleanup_expired_locked is_expired looked_up
issue-consume now later generate jwt expires_at s code made trimmed nonempty =
    let expiry = code_expiry now s.ttl expires_at in
    let entry = issued_entry code jwt expires_at expiry in
    let s0 = cleanup_expired_locked now s in
    let s1 = (issue now generate jwt expires_at s).1 in
    let (free, rows) = allocated generate 5 0 jwt expires_at expiry s0 code made in
    let found =
      ap (λ xs. first_where (has_code code) (delete_where (is_expired later) xs)) rows
      ∙ last_kept (is_expired later) code entry s0.entries free (text_eq_refl code) in
    let answer =
      consume_found later code s1 (ap is_empty trimmed ∙ nonempty)
      ∙ ap
          (λ c.
            looked_up later (first_where (has_code c) (delete_where (is_expired later) s1.entries)))
          trimmed
      ∙ ap (looked_up later) found in
    elim (Bool-cases (ltb expiry later)) [
      | inl e ↦ inr (ltb→lt expiry later e, answer ∙ rw e refl)
      | inr e ↦ inl (ground arith, answer ∙ rw (e, e) refl)
    ]
