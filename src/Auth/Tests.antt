-- ===== src/Auth/Tests.antt =====
-- A token that lists numbers, a code and a proxy: the theorems on sessions, codes and addresses at them.
use article_sentinel.Base.{
  ℕ, ◌-◌, Bool, true, false, ◌&&◌, ◌≡◌, ◌≢◌, ◌⊎◌, refl, sym, ap, ◌∙◌, inl, inr, arith, Option, none,
  some, List, [], ◌∷◌, ◌++◌, All, ◌==◌, if◌then◌else◌, Bool-cases, Result, ok, failed,
}
use article_sentinel.Text.{Text, Unicode, codes, text_eq, is_empty, trim_space}
use article_sentinel.Auth.{
  AdminSession, AdminSessionClaims, Env, unsigned, trimmed_session, sign_session_jwt,
  parse_session_jwt,
}
use article_sentinel.Auth.Codes.{AuthExchangeCodeEntry, AuthExchangeCodeStore, consume}
use article_sentinel.Auth.Login.{
  AuthHandler, Request, stored, login, exchange, read_legacy_jwt_from_exchange_request,
}
use article_sentinel.Auth.Token.{IsReadable}
use article_sentinel.Auth.OneTime.{Operation, issues, consumes, operate, consume-once}
use article_sentinel.Auth.Flow.{IsOfToken, exchange-login}
use article_sentinel.Auth.ClientIp.{
  Net, client_ip_from_request, remote_ip_from_request, is_trusted_proxy,
  forwarded_client_ip_from_headers, candidates,
}
use article_sentinel.Text.Find.{has_prefix}
use article_sentinel.Auth.ClientIp
use article_sentinel.Auth.Spoofing.{client_ip-untrusted, forwarded_client_ip-last}

-- No field has a text.
abbrev is_bare : AdminSessionClaims → Bool
is_bare c =
    let s = c.session in
    is_empty s.org_name
    && is_empty s.platform
    && is_empty s.priv
    && is_empty s.role_id
    && is_empty s.nickname
    && is_empty s.avatar
    && is_empty s.status
    && is_empty c.subject
    && is_empty c.issuer

abbrev numbers : AdminSessionClaims → Text
numbers c =
    c.session.user_id
    ∷ c.session.org_id
    ∷ c.session.department_id
    ∷ (if c.session.is_open_edu then 1 else 0)
    ∷ c.issued_at
    ∷ c.not_before
    ∷ c.expires_at
    ∷ []

abbrev sign_bare : Text → AdminSessionClaims → Result Text Text
sign_bare secret c = if is_bare c then ok (numbers c) else failed []

abbrev bare_claims : ℕ → ℕ → ℕ → ℕ → ℕ → ℕ → ℕ → AdminSessionClaims
bare_claims user_id org_id department_id open_edu issued_at not_before expires_at = record {
  session = record {
    user_id = user_id;
    org_id = org_id;
    org_name = [];
    platform = [];
    priv = [];
    role_id = [];
    nickname = [];
    avatar = [];
    department_id = department_id;
    is_open_edu = open_edu == 1;
    status = [];
  };
  subject = [];
  issuer = [];
  issued_at = issued_at;
  not_before = not_before;
  expires_at = expires_at;
}

abbrev parse_bare : Text → Option AdminSessionClaims
parse_bare (a ∷ b ∷ c ∷ d ∷ e ∷ f ∷ g ∷ []) = some (bare_claims a b c d e f g)
parse_bare t = none

empty_text : (t : Text) → is_empty t ≡ true → [] ≡ t
unfolding is_empty
empty_text [] h = refl
empty_text (a ∷ t) h = absurd cc

abbrev env : Env
env = record {
  now = 100;
  sign = sign_bare;
  parse = λ secret t token. parse_bare token;
  parse_legacy = λ secret t token. some (λ key. some (unsigned 7));
  parse_uint = λ t. none;
  parse_bool = λ t. none;
  format_uint = λ n. [];
  sprint = λ c. [];
}

bare_same : (c : AdminSessionClaims) → is_bare c ≡ true → parse_bare (numbers c) ≡ some c
bare_same c h =
    let s = c.session in
    let q1 = empty_text s.org_name (ground arith) in
    let q2 = empty_text s.platform (ground arith) in
    let q3 = empty_text s.priv (ground arith) in
    let q4 = empty_text s.role_id (ground arith) in
    let q5 = empty_text s.nickname (ground arith) in
    let q6 = empty_text s.avatar (ground arith) in
    let q7 = empty_text s.status (ground arith) in
    let q8 = empty_text c.subject (ground arith) in
    let q9 = empty_text c.issuer (ground arith) in
    let b : ((if s.is_open_edu then 1 else 0) == 1) ≡ s.is_open_edu = ground arith in
    λ i. some record {
      session = record {
        user_id = s.user_id;
        org_id = s.org_id;
        org_name = q1 i;
        platform = q2 i;
        priv = q3 i;
        role_id = q4 i;
        nickname = q5 i;
        avatar = q6 i;
        department_id = s.department_id;
        is_open_edu = b i;
        status = q7 i;
      };
      subject = q8 i;
      issuer = q9 i;
      issued_at = c.issued_at;
      not_before = c.not_before;
      expires_at = c.expires_at;
    }

env-IsReadable : IsReadable env
env-IsReadable secret token c t signed from until = elim (Bool-cases (is_bare c)) [
  | inl e ↦
      let made : numbers c ≡ token =
        let q : sign_bare secret c ≡ ok (numbers c) = rw e refl in cc in
      ap parse_bare (sym made) ∙ bare_same c e
  | inr e ↦ absurd (let q : sign_bare secret c ≡ failed [] = rw e refl in cc)
]

abbrev unicode : Unicode
unicode = record { lower = λ t. t; fold_eq = text_eq }

abbrev handler : AuthHandler
handler = record {
  manager = record {
    legacy_secret = codes "a";
    secret = codes "b";
    issuer = [];
    ttl = 3600;
    secure_cookie = true;
    error = none;
  };
  login_url = [];
  redirect_url = [];
}

abbrev empty_store : AuthExchangeCodeStore
empty_store = record { entries = []; ttl = 90 }

abbrev post : Request
post = record {
  method = codes "POST";
  code = [];
  jwt = [];
  authorization = codes "Bearer t";
  content_type = [];
  json_jwt = none;
  form_jwt = none;
}

abbrev get : Request
get = record post { method = codes "GET"; code = codes "xyz" }

abbrev generate : ℕ → Option Text
generate k = some (codes "xyz")

abbrev foreign : AdminSession
foreign = record {
  user_id = 7;
  org_id = 7;
  org_name = [];
  platform = [];
  priv = [];
  role_id = [];
  nickname = [];
  avatar = [];
  department_id = 7;
  is_open_edu = false;
  status = [];
}

login_example :
    let after = (exchange env unicode generate handler post empty_store).1 in
    let env' : Env = record env { now = 150 } in
    (made : Text × AdminSession × ℕ) × IsOfToken env handler
      (read_legacy_jwt_from_exchange_request unicode post)
      made.1
    × (sign_session_jwt env handler.manager made.1 ≡ ok (made.0, made.2))
    × ((login env' handler get after).0.cookie ≡ stored made.0 (made.2 - 150))
    × (parse_session_jwt env' handler.manager made.0 ≡ ok (trimmed_session made.1))
unfolding exchange codes text_eq trim_space is_empty
login_example =
    exchange-login env unicode generate handler post get empty_store (codes "xyz") 150
      env-IsReadable refl refl refl refl refl (omega arith) (omega arith) (omega arith)

abbrev entry : AuthExchangeCodeEntry
entry = record { code = codes "xyz"; session_jwt = []; expires_at = none; code_expiry = some 190 }

abbrev store : AuthExchangeCodeStore
store = record { entries = entry ∷ []; ttl = 90 }

abbrev others : List Operation
others = issues 110 (λ k. some (codes "abc")) [] none ∷ consumes 115 (codes "abc") ∷ []

-- The first byte.
abbrev first : Option Text → ℕ
first (some (a ∷ t)) = a
first t = 0

codes_differ : (k : ℕ) → some (codes "abc") ≢ some (trim_space (codes "xyz"))
unfolding codes trim_space
codes_differ k = λ e. omega (arith, ap first e)

code_once_example :
    (consume 120 (codes "xyz") (operate (consume 100 (codes "xyz") store).1 others)).0 ≡ none
unfolding consume codes text_eq trim_space is_empty
code_once_example =
    consume-once 100 120 (codes "xyz") store entry others refl (codes_differ, (tt, tt))

-- Addresses are texts, and the network 10 has those that begin with `1`.
abbrev net : Net Text Text
net = record {
  parse_ip = λ t. some t;
  print_ip = λ ip. ip;
  split_host_port = λ t. none;
  parse_cidr = λ t. some t;
  contains = λ network ip. has_prefix ip network;
}

abbrev spoofed : ClientIp.Request
spoofed = record { remote_addr = codes "2"; forwarded_for = codes "3, 12" ∷ []; real_ip = [] }

abbrev plain : ClientIp.Request
plain = record spoofed { forwarded_for = [] }

untrusted_example :
    client_ip_from_request net spoofed (codes "1" ∷ [])
    ≡ client_ip_from_request net plain (codes "1" ∷ [])
unfolding remote_ip_from_request is_trusted_proxy codes trim_space is_empty has_prefix
untrusted_example =
    client_ip-untrusted net (codes "1" ∷ []) spoofed plain refl (inr (codes "2", refl, refl))

forwarded_example :
    ((forwarded_client_ip_from_headers net spoofed.forwarded_for (codes "1" ∷ []) ≡ none)
      × All
          (λ ip. is_trusted_proxy net ip (codes "1" ∷ []) ≡ true)
          (candidates net spoofed.forwarded_for))
    ⊎ ((before after : List Text) × (ip : Text) × (forwarded_client_ip_from_headers net
            spoofed.forwarded_for
            (codes "1" ∷ [])
          ≡ some ip)
        × (candidates net spoofed.forwarded_for ≡ before ++ ip ∷ after)
        × (is_trusted_proxy net ip (codes "1" ∷ []) ≡ false)
        × All (λ p. is_trusted_proxy net p (codes "1" ∷ []) ≡ true) after)
forwarded_example = forwarded_client_ip-last net (codes "1" ∷ []) spoofed.forwarded_for
