-- ===== src/Auth/Flow.antt =====
-- From a foreign token over a code to a session: `Exchange`, `Login` and `SessionContext` in a row.
use mathlib.Core.Path.{subst}
use article_sentinel.Base.{
  ℕ, ◌+◌, ◌-◌, ◌≤◌, ◌<◌, Bool, true, false, ◌≡◌, refl, sym, ap, ◌∙◌, inl, inr, arith, Option, none,
  some, if◌then◌else◌, Bool-cases, Result, ok, failed, check, and_then,
}
use article_sentinel.Text.{Text, Unicode, codes, text_eq, is_empty, trim_space}
use article_sentinel.Auth.{
  AdminSession, AdminSessionManager, Env, AuthError, trimmed_session, Claim, exchange_claims,
  exchange_legacy_jwt, sign_session_jwt, parse_session_jwt, map_legacy_admin_session,
}
use article_sentinel.Auth.Codes.{
  AuthExchangeCodeEntry, AuthExchangeCodeStore, code_expiry, issue, consume,
}
use article_sentinel.Auth.Login.{
  Response, stored, AuthHandler, Request, login_again, login_home, login_jwt, login_get, login,
  exchange_made, exchange_token, exchange, exchanged, session_cookie, consumed, answer, kept,
  read_legacy_jwt_from_exchange_request,
}
use article_sentinel.Auth.Token.{IsReadable, ok_inj, sign-parse, signed_parts}
use article_sentinel.Auth.Origin.{IsSessionOf, map_legacy_admin_session-IsSessionOf}
use article_sentinel.Auth.Issued.{issued_entry, issue-consume}

and_then-passed {ℓ κ ι} :
    {E : Type ℓ} {A : Type κ} {B : Type ι} (r : Result E A) (f : A → Result E B) (b : B)
    → and_then r f ≡ ok b
    → (a : A) × (r ≡ ok a) × (f a ≡ ok b)
and_then-passed (ok a) f b h = (a, refl, h)
and_then-passed (failed e) f b h = absurd cc

check-passed {ℓ κ} :
    {E : Type ℓ} {A : Type κ} (o : Option E) (r : Result E A) (a : A) → check o r ≡ ok a → r ≡ ok a
check-passed none r a h = h
check-passed (some e) r a h = absurd cc

-- A session that is exchanged is that of the claims, and is signed.
claims_signed :
    (env : Env) (m : AdminSessionManager) (o : Option (Text → Option Claim))
    (made : Text × AdminSession × ℕ)
    → exchange_claims env m o ≡ ok made
    → (claims : Text → Option Claim) × (o ≡ some claims)
      × IsSessionOf env claims made.1
      × (sign_session_jwt env m made.1 ≡ ok (made.0, made.2))
unfolding exchange_claims
claims_signed env m none made h = absurd cc
claims_signed env m (some claims) made h =
    let (session, mapped, rest) = and_then-passed (map_legacy_admin_session env claims) _ made h in
    let (pair, signed, same) = and_then-passed (sign_session_jwt env m session) _ made rest in
    let x : Text × AdminSession × ℕ = (pair.0, session, pair.1) in
    let q : x ≡ made = ok_inj x made same in
    (
      claims,
      refl,
      subst (λ y. IsSessionOf env claims y.1) q
          (map_legacy_admin_session-IsSessionOf env claims session mapped),
      subst (λ y. sign_session_jwt env m y.1 ≡ ok (y.0, y.2)) q signed,
    )

exchanged-code :
    (p : Result Text Text × AuthExchangeCodeStore) (code : Text)
    → (exchanged p).0.code ≡ some code
    → p.0 ≡ ok code
exchanged-code (ok c, s) code h = cc
exchanged-code (failed e, s) code h = absurd cc

exchanged-store : (p : Result Text Text × AuthExchangeCodeStore) → (exchanged p).1 ≡ p.1
exchanged-store (ok c, s) = refl
exchanged-store (failed e, s) = refl

exchange_made-code :
    (env : Env) (generate : ℕ → Option Text) (s : AuthExchangeCodeStore)
    (r : Result AuthError (Text × AdminSession × ℕ)) (code : Text)
    → (exchange_made env generate s r).0.code ≡ some code
    → (made : Text × AdminSession × ℕ) × (r ≡ ok made)
      × ((issue env.now generate made.0 (some made.2) s).0 ≡ ok code)
      × ((exchange_made env generate s r).1 ≡ (issue env.now generate made.0 (some made.2) s).1)
unfolding exchange_made
exchange_made-code env generate s (failed e) code h = absurd cc
exchange_made-code env generate s (ok made) code h =
    let p = issue env.now generate made.0 (some made.2) s in
    (made, refl, exchanged-code p code h, exchanged-store p)

-- The session is that of the token, which reads as its claims.
abbrev pub IsOfToken : Env → AuthHandler → Option Text → AdminSession → Type 0
IsOfToken env h token session =
    (jwt : Text) × (claims : Text → Option Claim) × (token ≡ some jwt)
    × (env.parse_legacy h.manager.legacy_secret env.now jwt ≡ some claims)
    × IsSessionOf env claims session

exchange_token-code :
    (env : Env) (generate : ℕ → Option Text) (h : AuthHandler) (s : AuthExchangeCodeStore)
    (o : Option Text) (code : Text)
    → (exchange_token env generate h s o).0.code ≡ some code
    → (made : Text × AdminSession × ℕ) × IsOfToken env h o made.1
      × (sign_session_jwt env h.manager made.1 ≡ ok (made.0, made.2))
      × ((issue env.now generate made.0 (some made.2) s).0 ≡ ok code)
      × ((exchange_token env generate h s o).1 ≡ (issue env.now generate made.0 (some made.2) s).1)
unfolding exchange_token exchange_legacy_jwt
exchange_token-code env generate h s none code given = absurd cc
exchange_token-code env generate h s (some jwt) code given =
    let (made, done, issued, same) =
      exchange_made-code env generate s (exchange_legacy_jwt env h.manager jwt) code given in
    let passed =
      check-passed h.manager.error
        (exchange_claims env h.manager (env.parse_legacy h.manager.legacy_secret env.now jwt)) made
        done in
    let (claims, reads, session, signed) =
      claims_signed env h.manager (env.parse_legacy h.manager.legacy_secret env.now jwt) made
        passed in
    (made, (jwt, claims, refl, reads, session), signed, issued, same)

consumed-cookie :
    (now : ℕ) (again : Response) (home : Text)
    (p : Option AuthExchangeCodeEntry × AuthExchangeCodeStore) (entry : AuthExchangeCodeEntry)
    → p.0 ≡ some entry
    → (consumed now again home p).0.cookie ≡ session_cookie now entry.session_jwt entry.expires_at
consumed-cookie now again home (none, s) entry h = absurd cc
consumed-cookie now again home (some e, s) entry h =
    let q : e ≡ entry = cc in ap (λ x. session_cookie now x.session_jwt x.expires_at) q

if_true {ℓ} : {A : Type ℓ} (b : Bool) (x y : A) → b ≡ true → (if b then x else y) ≡ x
if_true b x y e = rw e refl

if_false {ℓ} : {A : Type ℓ} (b : Bool) (x y : A) → b ≡ false → (if b then x else y) ≡ y
if_false b x y e = rw e refl

module _ (env : Env) (u : Unicode) (generate : ℕ → Option Text) (h : AuthHandler) (r r' : Request)
    (s : AuthExchangeCodeStore) (code : Text) (later : ℕ) (readable : IsReadable env) where
  exchanged_session :
      (exchange env u generate h r s).0.code ≡ some code
      → (made : Text × AdminSession × ℕ) × IsOfToken env h
          (read_legacy_jwt_from_exchange_request u r)
          made.1
        × (sign_session_jwt env h.manager made.1 ≡ ok (made.0, made.2))
        × ((issue env.now generate made.0 (some made.2) s).0 ≡ ok code)
        × ((exchange env u generate h r s).1 ≡ (issue env.now generate made.0 (some made.2) s).1)
  unfolding exchange
  exchanged_session given =
      let token = read_legacy_jwt_from_exchange_request u r in
      let body = exchange_token env generate h s token in
      elim (Bool-cases (text_eq r.method (codes "POST"))) [
        | inl e ↦
            let all : exchange env u generate h r s ≡ body =
              if_true _ body (answer 405 kept, s) e in
            let (made, origin, signed, issued, same) =
              exchange_token-code env generate h s token code
                (sym (ap (λ p. p.0.code) all) ∙ given) in
            (made, origin, signed, issued, ap (λ p. p.1) all ∙ same)
        | inr e ↦
            let all : exchange env u generate h r s ≡ (answer 405 kept, s) =
              if_false _ body (answer 405 kept, s) e in
            absurd (let g = sym (ap (λ p. p.0.code) all) ∙ given in cc)
      ]

  code_open :
      (at : ℕ)
      → at ≡ env.now + h.manager.ttl
      → later ≤ env.now + s.ttl
      → later < env.now + h.manager.ttl
      → later ≤ code_expiry env.now s.ttl (some at)
  unfolding code_expiry
  code_open at e until live = ground arith

  login_code :
      (s' : AuthExchangeCodeStore)
      → text_eq r'.method (codes "GET") ≡ true
      → r'.code ≡ code
      → trim_space code ≡ code
      → is_empty code ≡ false
      → login (record env { now = later }) h r' s'
        ≡ consumed later (login_again h) (login_home h) (consume later code s')
  unfolding login login_get
  login_code s' get_method same trimmed nonempty =
      let env' : Env = record env { now = later } in
      let body : Text → Response × AuthExchangeCodeStore =
        λ c. login_get env' h c (trim_space r'.jwt) s' in
      if_true _ (body (trim_space r'.code)) (answer 405 kept, s') get_method
      ∙ ap body (ap trim_space same ∙ trimmed)
      ∙ if_false (is_empty code) (login_jwt env' h (trim_space r'.jwt) s')
          (consumed later (login_again h) (login_home h) (consume later code s')) nonempty

  -- If a signed token reads as its claims within its dates, and `Exchange` has answered with a
  -- code that is not empty and that trimming leaves alone, then the request to `Exchange` has a
  -- foreign token that reads as claims, and a `Login` with the code by GET, while neither it nor
  -- the session has expired, sets the cookie, for the time that is left, to the token signed for
  -- the session that says, field by field, what these claims do; and the token reads as that
  -- session with its texts trimmed.
  pub exchange-login :
      (exchange env u generate h r s).0.code ≡ some code
      → text_eq r'.method (codes "GET") ≡ true
      → r'.code ≡ code
      → trim_space code ≡ code
      → is_empty code ≡ false
      → env.now ≤ later
      → later ≤ env.now + s.ttl
      → later < env.now + h.manager.ttl
      → let after = (exchange env u generate h r s).1 in
        let env' : Env = record env { now = later } in
        (made : Text × AdminSession × ℕ) × IsOfToken env h
          (read_legacy_jwt_from_exchange_request u r)
          made.1
        × (sign_session_jwt env h.manager made.1 ≡ ok (made.0, made.2))
        × ((login env' h r' after).0.cookie ≡ stored made.0 (made.2 - later))
        × (parse_session_jwt env' h.manager made.0 ≡ ok (trimmed_session made.1))
  exchange-login given get_method same trimmed nonempty from until live =
      let (made, origin, signed, issued, stays) = exchanged_session given in
      let expiry = (signed_parts env h.manager made.1 made.0 made.2 signed).3 in
      let token =
        sign-parse env h.manager made.1 made.0 made.2 later readable signed from (omega arith) in
      let in_time : later ≤ code_expiry env.now s.ttl (some made.2) =
        code_open made.2 expiry until live in
      let s' = (issue env.now generate made.0 (some made.2) s).1 in
      let entry =
        issued_entry code made.0 (some made.2) (code_expiry env.now s.ttl (some made.2)) in
      let answer = login_code s' get_method same trimmed nonempty in
      let env' : Env = record env { now = later } in
      let cookie : (login env' h r' s').0.cookie ≡ stored made.0 (made.2 - later) =
        elim (issue-consume env.now later generate made.0 (some made.2) s code issued trimmed
          nonempty) [
            | inl (in_time', found) ↦
                ap (λ p. p.0.cookie) answer
                ∙ consumed-cookie later (login_again h) (login_home h) (consume later code s') entry
                    found
            | inr (late, none_found) ↦ absurd (omega arith)
          ] in
      (made, origin, signed, ap (λ x. (login env' h r' x).0.cookie) stays ∙ cookie, token)
