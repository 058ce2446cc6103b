-- ===== src/Auth.antt =====
-- internal/identity/admin_session.go and admin_session_token.go: the sessions of the administration
-- and their tokens. Time counts seconds, as the dates of a token do.
pub mod Codes
pub mod Login
pub mod Token
pub mod OneTime
pub mod Issued
pub mod Origin
pub mod Flow
pub mod ClientIp
pub mod Spoofing
mod Tests
use article_sentinel.Base.{
  ℕ, zero, ◌+◌, ◌*◌, [], Bool, true, false, ◌||◌, not, Option, none, some, ◌==◌, if◌then◌else◌,
  List, ℤ, pos, negsuc, Result, ok, failed, check, and_then,
}
use article_sentinel.Text.{Text, codes, is_empty, trim_space}
use article_sentinel.Audit.{Actor}

pub record AdminSession : Type 0 where
  pub user_id : ℕ
  pub org_id : ℕ
  pub org_name : Text
  pub platform : Text
  pub priv : Text
  pub role_id : Text
  pub nickname : Text
  pub avatar : Text
  pub department_id : ℕ
  pub is_open_edu : Bool
  pub status : Text

pub record AdminSessionClaims : Type 0 where
  pub session : AdminSession
  pub subject : Text
  pub issuer : Text
  pub issued_at : ℕ
  pub not_before : ℕ
  pub expires_at : ℕ

-- A value of the claims of a foreign token. Of a floating-point number: whether it is negative,
-- whether it is not zero, and `uint64` of it.
pub data Claim : Type 0 where
  unsigned : ℕ → Claim
  signed : ℤ → Claim
  floating : Bool → Bool → ℕ → Claim
  text : Text → Claim
  boolean : Bool → Claim
  other : Text → Claim

pub data AuthError : Type 0 where
  unauthorized secrets_are_required : AuthError
  signing : Text → AuthError

-- The packages jwt, strconv and fmt: signing and reading a token under a secret at a time.
pub record Env : Type 0 where
  pub now : ℕ
  pub sign : Text → AdminSessionClaims → Result Text Text
  pub parse : Text → ℕ → Text → Option AdminSessionClaims
  pub parse_legacy : Text → ℕ → Text → Option (Text → Option Claim)
  pub parse_uint : Text → Option ℕ
  pub parse_bool : Text → Option Bool
  pub format_uint : ℕ → Text
  pub sprint : Claim → Text

pub record SessionConfig : Type 0 where
  pub legacy_secret : Text
  pub legacy_secret_file : Text
  pub secret : Text
  pub secret_file : Text
  pub issuer : Text
  pub ttl_hours : ℤ
  pub secure_cookie : Bool
  pub login_url : Text
  pub redirect_url : Text

pub record AdminSessionManager : Type 0 where
  pub legacy_secret : Text
  pub secret : Text
  pub issuer : Text
  pub ttl : ℕ
  pub secure_cookie : Bool
  pub error : Option AuthError

-- The hours in seconds, 0 if negative; a `Duration` holds two million hours.
hours : ℤ → ℕ
hours (pos n) = n * 3600
hours (negsuc n) = 0

unfoldable pub new_admin_session_manager : SessionConfig → AdminSessionManager
unfolding trim_space hours
new_admin_session_manager cfg =
    let ttl = hours cfg.ttl_hours in
    let issuer = trim_space cfg.issuer in
    record {
      legacy_secret = cfg.legacy_secret;
      secret = cfg.secret;
      issuer = if is_empty issuer then codes "article-sentinel-admin" else issuer;
      ttl = if ttl == 0 then 86400 else ttl;
      secure_cookie = cfg.secure_cookie;
      error =
          if is_empty (trim_space cfg.legacy_secret) || is_empty (trim_space cfg.secret)
          then some secrets_are_required
          else none;
    }

abbrev pub trimmed_session : AdminSession → AdminSession
trimmed_session s = record {
  user_id = s.user_id;
  org_id = s.org_id;
  org_name = trim_space s.org_name;
  platform = trim_space s.platform;
  priv = trim_space s.priv;
  role_id = trim_space s.role_id;
  nickname = trim_space s.nickname;
  avatar = trim_space s.avatar;
  department_id = s.department_id;
  is_open_edu = s.is_open_edu;
  status = trim_space s.status;
}

abbrev pub session_claims : Env → AdminSessionManager → AdminSession → AdminSessionClaims
session_claims env m s = record {
  session = trimmed_session s;
  subject = env.format_uint s.user_id;
  issuer = m.issuer;
  issued_at = env.now;
  not_before = env.now;
  expires_at = env.now + m.ttl;
}

-- `SignSessionJWT`
unfoldable pub sign_session_jwt :
    Env → AdminSessionManager → AdminSession → Result AuthError (Text × ℕ)
sign_session_jwt env m s = elim m.error [
  | some e ↦ failed e
  | none ↦
      if s.user_id == 0 || s.org_id == 0
      then failed unauthorized
      else elim (env.sign m.secret (session_claims env m s)) [
        | failed e ↦ failed (signing e)
        | ok token ↦ ok (token, env.now + m.ttl)
      ]
]

-- `ParseSessionJWT`
unfoldable pub parse_session_jwt : Env → AdminSessionManager → Text → Result AuthError AdminSession
parse_session_jwt env m token = elim m.error [
  | some e ↦ failed e
  | none ↦ elim (env.parse m.secret env.now token) [
    | none ↦ failed unauthorized
    | some claims ↦
        if claims.session.user_id == 0 || claims.session.org_id == 0
        then failed unauthorized
        else ok claims.session
  ]
]

-- `coerceUint64`
unfoldable pub coerce_uint64 : Env → Claim → Option ℕ
coerce_uint64 env (unsigned n) = some n
coerce_uint64 env (signed (pos n)) = some n
coerce_uint64 env (signed (negsuc n)) = none
coerce_uint64 env (floating negative nonzero n) = if negative then none else some n
coerce_uint64 env (text t) = env.parse_uint (trim_space t)
coerce_uint64 env (boolean b) = none
coerce_uint64 env (other t) = none

abbrev claim_text : Env → Claim → Text
claim_text env (text t) = trim_space t
claim_text env c = trim_space (env.sprint c)

unfoldable pub legacy_string_claim : Env → (Text → Option Claim) → Text → Text
legacy_string_claim env claims key = elim (claims key) [ none ↦ [] | some c ↦ claim_text env c ]

-- `none` is an error.
unfoldable pub legacy_uint64_claim : Env → (Text → Option Claim) → Text → Option ℕ
unfolding coerce_uint64
legacy_uint64_claim env claims key = elim (claims key) [
  | none ↦ none
  | some c ↦ coerce_uint64 env c
]

unfoldable pub legacy_optional_uint64_claim : Env → (Text → Option Claim) → Text → ℕ
unfolding coerce_uint64
legacy_optional_uint64_claim env claims key = elim (claims key) [
  | none ↦ 0
  | some c ↦ elim (coerce_uint64 env c) [ none ↦ 0 | some n ↦ n ]
]

unfoldable pub legacy_optional_bool_claim : Env → (Text → Option Claim) → Text → Bool
legacy_optional_bool_claim env claims key = elim (claims key) [
  | none ↦ false
  | some c ↦ elim c [
    | boolean b ↦ b
    | text t ↦ elim (env.parse_bool (trim_space t)) [ none ↦ false | some b ↦ b ]
    | floating negative nonzero n ↦ nonzero
    | _ ↦ false
  ]
]

abbrev pub legacy_session : Env → (Text → Option Claim) → ℕ → ℕ → AdminSession
legacy_session env claims user_id org_id = record {
  user_id = user_id;
  org_id = org_id;
  org_name = legacy_string_claim env claims (codes "orgname");
  platform = legacy_string_claim env claims (codes "platform");
  priv = legacy_string_claim env claims (codes "priv");
  role_id = legacy_string_claim env claims (codes "roleid");
  nickname = legacy_string_claim env claims (codes "nickname");
  avatar = legacy_string_claim env claims (codes "avatar");
  department_id = legacy_optional_uint64_claim env claims (codes "departmentid");
  is_open_edu = legacy_optional_bool_claim env claims (codes "is_open_edu");
  status = legacy_string_claim env claims (codes "status");
}

unfoldable pub map_legacy_admin_session :
    Env → (Text → Option Claim) → Result AuthError AdminSession
unfolding legacy_uint64_claim legacy_string_claim legacy_optional_uint64_claim
    legacy_optional_bool_claim
map_legacy_admin_session env claims = elim (legacy_uint64_claim env claims (codes "id")) [
  | none ↦ failed unauthorized
  | some user_id ↦
      if user_id == 0
      then failed unauthorized
      else elim (legacy_uint64_claim env claims (codes "orgid")) [
        | none ↦ failed unauthorized
        | some org_id ↦
            if org_id == 0
            then failed unauthorized
            else ok (legacy_session env claims user_id org_id)
      ]
]

-- What the claims of a foreign token are exchanged for; `none` is a token that does not read.
unfoldable pub exchange_claims :
    Env
    → AdminSessionManager
    → Option (Text → Option Claim)
    → Result AuthError (Text × AdminSession × ℕ)
unfolding map_legacy_admin_session sign_session_jwt
exchange_claims env m none = failed unauthorized
exchange_claims env m (some claims) =
    and_then (map_legacy_admin_session env claims)
      (λ session. and_then (sign_session_jwt env m session) (λ made. ok (made.0, session, made.1)))

-- `ExchangeLegacyJWT`
unfoldable pub exchange_legacy_jwt :
    Env → AdminSessionManager → Text → Result AuthError (Text × AdminSession × ℕ)
unfolding exchange_claims
exchange_legacy_jwt env m token =
    check m.error (exchange_claims env m (env.parse_legacy m.legacy_secret env.now token))

-- `AdminSession.Actor`
unfoldable pub actor_of_session : Env → AdminSession → Actor
actor_of_session env s =
    let nickname = trim_space s.nickname in
    let status = trim_space s.status in
    record {
      id = s.user_id;
      username = trim_space (if is_empty nickname then env.format_uint s.user_id else nickname);
      role = trim_space (trim_space s.priv);
      status = trim_space (if is_empty status then codes "active" else status);
    }
