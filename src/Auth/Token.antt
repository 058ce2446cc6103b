-- ===== src/Auth/Token.antt =====
-- A session survives its token, and no session lacks its user or its organisation.
use article_sentinel.Base.{
  ℕ, ◌+◌, ◌≤◌, ◌<◌, false, ◌||◌, ◌≡◌, ◌≢◌, refl, sym, ap, ◌∙◌, inl, inr, arith, none, some, ◌==◌,
  ==_iff, Bool-cases, Option-cases, Result, ok, failed, Result-cases,
}
use article_sentinel.Text.{Text}
use article_sentinel.Auth.{
  AdminSession, AdminSessionClaims, AdminSessionManager, Env, trimmed_session, session_claims,
  sign_session_jwt, parse_session_jwt, unauthorized, signing,
}

-- A signed token reads as its claims, under the same secret and within its dates.
abbrev pub IsReadable : Env → Type 0
IsReadable env =
    (secret token : Text) (claims : AdminSessionClaims) (t : ℕ)
    → env.sign secret claims ≡ ok token
    → claims.not_before ≤ t
    → t < claims.expires_at
    → env.parse secret t token ≡ some claims

pub ok_inj {ℓ κ} : {E : Type ℓ} {A : Type κ} (x y : A) → ◌≡◌ {A = Result E A} (ok x) (ok y) → x ≡ y
ok_inj x y h = cc

module _ (env : Env) (m : AdminSessionManager) where
  pub signed_parts :
      (s : AdminSession) (token : Text) (expires_at : ℕ)
      → sign_session_jwt env m s ≡ ok (token, expires_at)
      → (m.error ≡ none)
        × ((s.user_id == 0 || s.org_id == 0) ≡ false)
        × (env.sign m.secret (session_claims env m s) ≡ ok token)
        × (expires_at ≡ env.now + m.ttl)
  unfolding sign_session_jwt
  signed_parts s token expires_at signed = elim (Option-cases m.error) [
    | inr (x, e) ↦
        let all : sign_session_jwt env m s ≡ failed x = rw e refl in
        absurd (let h = sym all ∙ signed in cc)
    | inl e ↦ elim (Bool-cases (s.user_id == 0 || s.org_id == 0)) [
      | inl b ↦
          let all : sign_session_jwt env m s ≡ failed unauthorized = rw (e, b) refl in
          absurd (let h = sym all ∙ signed in cc)
      | inr b ↦ elim (Result-cases (env.sign m.secret (session_claims env m s))) [
        | inr (x, f) ↦
            let all : sign_session_jwt env m s ≡ failed (signing x) = rw (e, b, f) refl in
            absurd (let h = sym all ∙ signed in cc)
        | inl (made, f) ↦
            let x : Text × ℕ = (made, env.now + m.ttl) in
            let y : Text × ℕ = (token, expires_at) in
            let all : sign_session_jwt env m s ≡ ok x = rw (e, b, f) refl in
            let h : ok x ≡ ok y = sym all ∙ signed in
            let p : x ≡ y = ok_inj x y h in (e, b, f ∙ ap (λ q. ok q.0) p, sym (ap (λ q. q.1) p))
      ]
    ]
  ]

  -- The token signed for a session reads as that session, its texts trimmed, until it expires.
  pub sign-parse :
      (s : AdminSession) (token : Text) (expires_at t : ℕ)
      → IsReadable env
      → sign_session_jwt env m s ≡ ok (token, expires_at)
      → env.now ≤ t
      → t < expires_at
      → parse_session_jwt (record env { now = t }) m token ≡ ok (trimmed_session s)
  unfolding sign_session_jwt parse_session_jwt
  sign-parse s token expires_at t readable signed from until =
      let (no_error, ids, made, expiry) = signed_parts s token expires_at signed in
      let before : t < env.now + m.ttl = omega arith in
      let read = readable m.secret token (session_claims env m s) t made from before in
      rw (no_error, read, ids) refl

  -- A session that is read from a token has a user and an organisation.
  pub parse_session-has_ids :
      (token : Text) (s : AdminSession)
      → parse_session_jwt env m token ≡ ok s
      → (s.user_id ≢ 0) × (s.org_id ≢ 0)
  unfolding parse_session_jwt
  parse_session-has_ids token s h = elim (Option-cases m.error) [
    | inr (x, e) ↦
        let all : parse_session_jwt env m token ≡ failed x = rw e refl in
        absurd (let h' = sym all ∙ h in cc)
    | inl e ↦ elim (Option-cases (env.parse m.secret env.now token)) [
      | inl f ↦
          let all : parse_session_jwt env m token ≡ failed unauthorized =
            rw (parse_session_jwt, e, f) refl in
          absurd (let h' = sym all ∙ h in cc)
      | inr (claims, f) ↦
          elim (Bool-cases (claims.session.user_id == 0 || claims.session.org_id == 0)) [
            | inl b ↦
                let all : parse_session_jwt env m token ≡ failed unauthorized =
                  rw (parse_session_jwt, e, f, b) refl in
                absurd (let h' = sym all ∙ h in cc)
            | inr b ↦
                let all : parse_session_jwt env m token ≡ ok claims.session =
                  rw (parse_session_jwt, e, f, b) refl in
                let h' : ok claims.session ≡ ok s = sym all ∙ h in
                let q : claims.session ≡ s = cc in
                let u = ==_iff claims.session.user_id 0 in
                let o = ==_iff claims.session.org_id 0 in
                (rw (← q) (ground arith), rw (← q) (ground arith))
          ]
    ]
  ]
