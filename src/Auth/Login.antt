-- ===== src/Auth/Login.antt =====
-- internal/api/handlers/auth.go: `Login`, `Exchange`, `Session` and `Logout`, and `SessionContext` of
-- internal/middleware/session.go. The handler, its manager, its store and the request are there; a
-- response is its status, its target, the code in its body and what it does to the session's cookie.
use article_sentinel.Base.{
  ℕ, ◌-◌, not, Option, none, some, [], ◌∷◌, ◌==◌, if◌then◌else◌, Result, ok, failed,
}
use article_sentinel.Text.{Text, Unicode, codes, text_eq, is_empty, trim_space, equal_fold}
use article_sentinel.Text.Find.{has_prefix}
use article_sentinel.Audit.{Actor}
use article_sentinel.Auth.{
  AdminSession, AdminSessionManager, Env, AuthError, exchange_legacy_jwt, parse_session_jwt,
  actor_of_session,
}
use article_sentinel.Auth.Codes.{AuthExchangeCodeEntry, AuthExchangeCodeStore, issue, consume}

pub data Cookie : Type 0 where
  kept cleared : Cookie
  -- with the session's token and `MaxAge`
  stored : Text → ℕ → Cookie

pub record Response : Type 0 where
  pub status : ℕ
  pub location : Text
  pub code : Option Text
  pub cookie : Cookie

abbrev pub answer : ℕ → Cookie → Response
answer status cookie = record { status = status; location = []; code = none; cookie = cookie }

abbrev pub redirect : Text → Cookie → Response
redirect location cookie = record {
  status = 302;
  location = location;
  code = none;
  cookie = cookie;
}

pub record AuthHandler : Type 0 where
  pub manager : AdminSessionManager
  pub login_url : Text
  pub redirect_url : Text

-- A method and the parameters `code` and `jwt` of the query; the fields of an exchange are its header
-- `Authorization`, whether its body is JSON, and the field `jwt` of its body or its form, `none` where
-- that does not decode.
pub record Request : Type 0 where
  pub method : Text
  pub code : Text
  pub jwt : Text
  pub authorization : Text
  pub content_type : Text
  pub json_jwt : Option Text
  pub form_jwt : Option Text

unfoldable pub normalize_redirect_target : Text → Text → Text
unfolding trim_space
normalize_redirect_target value fallback =
    let trimmed = trim_space value in if is_empty trimmed then fallback else trimmed

abbrev pub default_admin_login_url : Text
default_admin_login_url = codes "https://appadmin.cq.qiludev.com/cq-admin/index.html"

abbrev pub default_admin_redirect_url : Text
default_admin_redirect_url = codes "/"

-- `setAdminSessionCookie`
abbrev pub session_cookie : ℕ → Text → Option ℕ → Cookie
session_cookie now jwt none = stored jwt 0
session_cookie now jwt (some at) = stored jwt (at - now)

-- The answer to a code that has been looked up.
abbrev pub consumed :
    ℕ
    → Response
    → Text
    → Option AuthExchangeCodeEntry × AuthExchangeCodeStore
    → Response × AuthExchangeCodeStore
consumed now again home (none, s) = (again, s)
consumed now again home (some entry, s) =
    (redirect home (session_cookie now entry.session_jwt entry.expires_at), s)

abbrev pub login_again : AuthHandler → Response
login_again h = redirect (normalize_redirect_target h.login_url default_admin_login_url) cleared

abbrev pub login_home : AuthHandler → Text
login_home h = normalize_redirect_target h.redirect_url default_admin_redirect_url

-- `Login` by a foreign token.
abbrev pub login_made :
    ℕ
    → AuthHandler
    → AuthExchangeCodeStore
    → Result AuthError (Text × AdminSession × ℕ)
    → Response × AuthExchangeCodeStore
login_made now h s (failed e) = (login_again h, s)
login_made now h s (ok made) =
    (redirect (login_home h) (session_cookie now made.0 (some made.2)), s)

unfoldable pub login_jwt :
    Env → AuthHandler → Text → AuthExchangeCodeStore → Response × AuthExchangeCodeStore
unfolding normalize_redirect_target exchange_legacy_jwt
login_jwt env h jwt s =
    if is_empty jwt
    then (login_again h, s)
    else login_made env.now h s (exchange_legacy_jwt env h.manager jwt)

unfoldable pub login_get :
    Env → AuthHandler → Text → Text → AuthExchangeCodeStore → Response × AuthExchangeCodeStore
unfolding normalize_redirect_target login_jwt consume
login_get env h code jwt s =
    if is_empty code
    then login_jwt env h jwt s
    else consumed env.now (login_again h) (login_home h) (consume env.now code s)

unfoldable pub login :
    Env → AuthHandler → Request → AuthExchangeCodeStore → Response × AuthExchangeCodeStore
unfolding login_get
login env h r s =
    if text_eq r.method (codes "GET")
    then login_get env h (trim_space r.code) (trim_space r.jwt) s
    else (answer 405 kept, s)

-- The bytes before the first space, and those after it; `none` where there is no space.
unfoldable pub split_space : Text → Option (Text × Text)
split_space [] = none
split_space (a ∷ s) =
    let rest = split_space s in
    if a == 0x20 then some ([], s) else elim rest [ none ↦ none | some p ↦ some (a ∷ p.0, p.1) ]

-- `bearerToken`, here and in internal/middleware/auth.go
unfoldable pub bearer_token : Unicode → Text → Option Text
unfolding split_space equal_fold trim_space
bearer_token u header = elim (split_space header) [
  | none ↦ none
  | some p ↦
      let token = trim_space p.1 in
      if not (equal_fold u p.0 (codes "Bearer"))
      then none
      else if is_empty token
      then none
      else some token
]

unfoldable pub given_token : Option Text → Option Text
unfolding trim_space
given_token none = none
given_token (some t) = let token = trim_space t in if is_empty token then none else some token

unfoldable pub read_legacy_jwt_from_exchange_request : Unicode → Request → Option Text
unfolding bearer_token given_token
read_legacy_jwt_from_exchange_request u r = elim (bearer_token u (trim_space r.authorization)) [
  | some token ↦ some token
  | none ↦
      if has_prefix (trim_space r.content_type) (codes "application/json")
      then given_token r.json_jwt
      else given_token r.form_jwt
]

-- The answer to a code that has been issued.
abbrev pub exchanged : Result Text Text × AuthExchangeCodeStore → Response × AuthExchangeCodeStore
exchanged (failed e, s) = (answer 500 kept, s)
exchanged (ok code, s) =
    (record { status = 200; location = []; code = some code; cookie = kept }, s)

-- The answer to the exchange of a legacy token.
unfoldable pub exchange_made :
    Env
    → (ℕ → Option Text)
    → AuthExchangeCodeStore
    → Result AuthError (Text × AdminSession × ℕ)
    → Response × AuthExchangeCodeStore
unfolding issue
exchange_made env generate s (failed e) = (answer 401 cleared, s)
exchange_made env generate s (ok made) = exchanged (issue env.now generate made.0 (some made.2) s)

unfoldable pub exchange_token :
    Env
    → (ℕ → Option Text)
    → AuthHandler
    → AuthExchangeCodeStore
    → Option Text
    → Response × AuthExchangeCodeStore
unfolding exchange_legacy_jwt exchange_made
exchange_token env generate h s none = (answer 400 cleared, s)
exchange_token env generate h s (some jwt) =
    exchange_made env generate s (exchange_legacy_jwt env h.manager jwt)

unfoldable pub exchange :
    Env
    → Unicode
    → (ℕ → Option Text)
    → AuthHandler
    → Request
    → AuthExchangeCodeStore
    → Response × AuthExchangeCodeStore
unfolding read_legacy_jwt_from_exchange_request exchange_token
exchange env u generate h r s =
    if text_eq r.method (codes "POST")
    then exchange_token env generate h s (read_legacy_jwt_from_exchange_request u r)
    else (answer 405 kept, s)

unfoldable pub session : Request → Option AdminSession → Response
session r s = if not (text_eq r.method (codes "GET")) then answer 405 kept else elim s [
  | none ↦ answer 401 kept
  | some x ↦ answer (if x.org_id == 0 then 401 else 200) kept
]

unfoldable pub logout : Request → Response
logout r = if not (text_eq r.method (codes "POST")) then answer 405 kept else answer 200 cleared

-- What `SessionContext` reads of the cookie, and whether it clears it.
unfoldable pub session_context :
    Env → AdminSessionManager → Option Text → Option (AdminSession × Actor) × Cookie
unfolding parse_session_jwt actor_of_session
session_context env m none = (none, kept)
session_context env m (some token) = elim (parse_session_jwt env m token) [
  | failed e ↦ (none, cleared)
  | ok s ↦ (some (s, actor_of_session env s), kept)
]
