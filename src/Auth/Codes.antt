-- ===== src/Auth/Codes.antt =====
-- internal/api/handlers/auth.go: the store of the one-time codes, whose operations hold its mutex.
use article_sentinel.Base.{
  ℕ, zero, suc, ◌+◌, Bool, false, Option, none, some, List, [], ◌∷◌, ◌++◌, ltb, if◌then◌else◌,
  first_where, delete_where, is_some, Result, ok, failed,
}
use article_sentinel.Text.{Text, text_eq, is_empty, trim_space, codes}

-- A zero time is `none`.
pub record AuthExchangeCodeEntry : Type 0 where
  pub code : Text
  pub session_jwt : Text
  pub expires_at : Option ℕ
  pub code_expiry : Option ℕ

pub record AuthExchangeCodeStore : Type 0 where
  pub entries : List AuthExchangeCodeEntry
  pub ttl : ℕ

abbrev pub has_code : Text → AuthExchangeCodeEntry → Bool
has_code code entry = text_eq entry.code code

unfoldable pub is_expired : ℕ → AuthExchangeCodeEntry → Bool
is_expired now entry = elim entry.code_expiry [ none ↦ false | some at ↦ ltb at now ]

unfoldable pub cleanup_expired_locked : ℕ → AuthExchangeCodeStore → AuthExchangeCodeStore
unfolding is_expired
cleanup_expired_locked now s = record s { entries = delete_where (is_expired now) s.entries }

-- `codeExpiry` of `Issue`.
unfoldable pub code_expiry : ℕ → ℕ → Option ℕ → ℕ
code_expiry now ttl none = now + ttl
code_expiry now ttl (some at) = if ltb at (now + ttl) then at else now + ttl

-- The attempts that are left; `generate` numbers what the source of random codes gives, and `none` is
-- its error.
unfoldable pub allocate :
    (ℕ → Option Text)
    → ℕ
    → ℕ
    → Text
    → Option ℕ
    → ℕ
    → AuthExchangeCodeStore
    → Result Text Text × AuthExchangeCodeStore
allocate generate zero k jwt expires_at expiry s =
    (failed (codes "unable to allocate exchange code"), s)
allocate generate (suc attempts) k jwt expires_at expiry s =
    let rest = allocate generate attempts (suc k) jwt expires_at expiry s in
    elim (generate k) [
      | none ↦ (failed (codes "read exchange code entropy"), s)
      | some code ↦ if is_some (first_where (has_code code) s.entries) then rest else (
        ok code,
        record s {
          entries =
              s.entries
              ++ record {
                code = code;
                session_jwt = jwt;
                expires_at = expires_at;
                code_expiry = some expiry;
              }
                ∷ [];
        },
      )
    ]

-- `Issue`, but for the time that its answer says is left.
unfoldable pub issue :
    ℕ
    → (ℕ → Option Text)
    → Text
    → Option ℕ
    → AuthExchangeCodeStore
    → Result Text Text × AuthExchangeCodeStore
unfolding cleanup_expired_locked allocate code_expiry
issue now generate jwt expires_at s =
    allocate generate 5 0 jwt expires_at (code_expiry now s.ttl expires_at)
      (cleanup_expired_locked now s)

unfoldable pub consume :
    ℕ → Text → AuthExchangeCodeStore → Option AuthExchangeCodeEntry × AuthExchangeCodeStore
unfolding cleanup_expired_locked is_expired
consume now code s =
    let trimmed = trim_space code in
    let s1 = cleanup_expired_locked now s in
    if is_empty trimmed then (none, s) else elim (first_where (has_code trimmed) s1.entries) [
      | none ↦ (none, s1)
      | some entry ↦
          let s2 : AuthExchangeCodeStore = record s1 {
            entries = delete_where (has_code trimmed) s1.entries;
          } in
          if is_expired now entry then (none, s2) else (some entry, s2)
    ]
