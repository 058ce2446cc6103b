-- ===== src/Rules/Read.antt =====
-- The guards of the service, passed.
use article_sentinel.Base.{
  ℕ, true, ◌||◌, ◌≡◌, ◌≢◌, refl, arith, ◌==◌, ==_iff, ==_refl, if◌then◌else◌,
}
use article_sentinel.Model.{InspectionKeyword}
use article_sentinel.Rules.{World, Env}
use article_sentinel.Rules.Keywords.{is_keyword}
use article_sentinel.Rules.KeywordService.{stored_dto, get}

pub guard_open {ℓ} :
    {A : Type ℓ} (x y : ℕ) (r s : A) → x ≢ 0 → y ≢ 0 → (if x == 0 || y == 0 then r else s) ≡ s
guard_open x y r s nx ny = let a = ==_iff x 0 in let b = ==_iff y 0 in ground arith

pub guard_passed {ℓ} : {A : Type ℓ} (x : ℕ) (r s : A) → x ≢ 0 → (if x == 0 then r else s) ≡ s
guard_passed x r s nx = let a = ==_iff x 0 in ground arith

pub get_stored :
    (env : Env) (org_id id : ℕ) (w : World)
    → org_id ≢ 0
    → id ≢ 0
    → get env org_id id w ≡ stored_dto env org_id id w
unfolding get
get_stored env org_id id w org id_pos =
    guard_open org_id id _ (stored_dto env org_id id w) org id_pos

pub is_keyword-own : (k : InspectionKeyword) → is_keyword k.org_id k.id k ≡ true
unfolding is_keyword
is_keyword-own k = let a = ==_refl k.org_id in let b = ==_refl k.id in rw (a, b) refl
