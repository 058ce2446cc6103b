-- ===== src/Auth/Origin.antt =====
-- internal/identity/admin_session_token.go: the session that the claims of a foreign token describe.
use mathlib.Core.Path.{subst}
use article_sentinel.Base.{
  ℕ, ◌≡◌, ◌≢◌, refl, inl, inr, arith, Option, some, ==_iff, Option-cases, ok,
}
use article_sentinel.Text.{Text, codes}
use article_sentinel.Auth.{
  AdminSession, Env, Claim, map_legacy_admin_session, legacy_session, legacy_uint64_claim,
  legacy_string_claim, legacy_optional_uint64_claim, legacy_optional_bool_claim,
}

-- `session` says what the claims of a foreign token do, which name a user and an organisation.
pub record IsSessionOf (env : Env) (claims : Text → Option Claim) (session : AdminSession)
    : Type 0 where
  pub user_id : legacy_uint64_claim env claims (codes "id") ≡ some session.user_id
  pub org_id : legacy_uint64_claim env claims (codes "orgid") ≡ some session.org_id
  pub user_given : session.user_id ≢ 0
  pub org_given : session.org_id ≢ 0
  pub org_name : session.org_name ≡ legacy_string_claim env claims (codes "orgname")
  pub platform : session.platform ≡ legacy_string_claim env claims (codes "platform")
  pub priv : session.priv ≡ legacy_string_claim env claims (codes "priv")
  pub role_id : session.role_id ≡ legacy_string_claim env claims (codes "roleid")
  pub nickname : session.nickname ≡ legacy_string_claim env claims (codes "nickname")
  pub avatar : session.avatar ≡ legacy_string_claim env claims (codes "avatar")
  pub department_id :
      session.department_id ≡ legacy_optional_uint64_claim env claims (codes "departmentid")
  pub is_open_edu :
      session.is_open_edu ≡ legacy_optional_bool_claim env claims (codes "is_open_edu")
  pub status : session.status ≡ legacy_string_claim env claims (codes "status")

legacy_session-IsSessionOf :
    (env : Env) (claims : Text → Option Claim) (user_id org_id : ℕ)
    → legacy_uint64_claim env claims (codes "id") ≡ some user_id
    → legacy_uint64_claim env claims (codes "orgid") ≡ some org_id
    → user_id ≢ 0
    → org_id ≢ 0
    → IsSessionOf env claims (legacy_session env claims user_id org_id)
legacy_session-IsSessionOf env claims user_id org_id user org user_given org_given = record {
  user_id = user;
  org_id = org;
  user_given = user_given;
  org_given = org_given;
  org_name = refl;
  platform = refl;
  priv = refl;
  role_id = refl;
  nickname = refl;
  avatar = refl;
  department_id = refl;
  is_open_edu = refl;
  status = refl;
}

pub map_legacy_admin_session-IsSessionOf :
    (env : Env) (claims : Text → Option Claim) (session : AdminSession)
    → map_legacy_admin_session env claims ≡ ok session
    → IsSessionOf env claims session
unfolding map_legacy_admin_session
map_legacy_admin_session-IsSessionOf env claims session h =
    elim (Option-cases (legacy_uint64_claim env claims (codes "id"))) [
      | inl no_user ↦ absurd (ground arith)
      | inr (user_id, user) ↦ elim (Option-cases (legacy_uint64_claim env claims (codes "orgid"))) [
        | inl no_org ↦ absurd (ground arith)
        | inr (org_id, org) ↦
            let z = ==_iff user_id 0 in
            let z' = ==_iff org_id 0 in
            let same : legacy_session env claims user_id org_id ≡ session = ground arith in
            subst (IsSessionOf env claims) same (
              legacy_session-IsSessionOf env claims user_id org_id user org (ground arith)
                (ground arith))
      ]
    ]
