-- ===== src/Rules/Sound.antt =====
-- No scope without its keyword, and no id of a keyword given twice: every change keeps it so.
use article_sentinel.Base.{
  ℕ, suc, ◌+◌, ◌<◌, Bool, true, false, ◌≡◌, refl, ap, inl, inr, arith, none, some, List, [], ◌∷◌,
  ◌++◌, ==_refl, All, All-map, All-append, All-update_where, is_some, contains_id, IsUnique,
  IsUnique-snoc, first_where, update_where, delete_where, first_where-update_where,
  first_where-delete_where, All-delete_where, Bool-cases,
}
use article_sentinel.Text.{Text}
use article_sentinel.Model.{InspectionKeyword, InspectionKeywordScope}
use article_sentinel.Rules.{World, Env}
use article_sentinel.Rules.Keywords.{
  is_keyword, is_scope_of, scope_rows, set_keyword, insert_keyword,
}
use article_sentinel.Rules.View.{keyword_ids}
use article_sentinel.Rules.Changes.{
  created_world, updated_world, deleted_world, patched_world, set_enabled,
}

-- The keyword of a scope is there.
abbrev IsLinked : List InspectionKeyword → InspectionKeywordScope → Type 0
IsLinked keywords s = is_some (first_where (is_keyword s.org_id s.keyword_id) keywords) ≡ true

pub record IsSound (w : World) : Type 0 where
  pub unique : IsUnique (keyword_ids w.keywords)
  pub below : All (λ k. k.id < w.next_keyword_id) w.keywords
  pub linked : All (IsLinked w.keywords) w.keyword_scopes

pub fresh_id :
    (n : ℕ) (keywords : List InspectionKeyword)
    → All (λ k. k.id < n) keywords
    → contains_id n (keyword_ids keywords) ≡ false
fresh_id n [] h = refl
fresh_id n (k ∷ keywords) h = let h0 = h.0 in ground (arith, fresh_id n keywords h.1)

keyword_ids-snoc :
    (keywords : List InspectionKeyword) (k : InspectionKeyword)
    → keyword_ids (keywords ++ k ∷ []) ≡ keyword_ids keywords ++ k.id ∷ []
keyword_ids-snoc [] k = refl
keyword_ids-snoc (x ∷ keywords) k = ap (λ ids. x.id ∷ ids) (keyword_ids-snoc keywords k)

pub find_keyword-append :
    (q : InspectionKeyword → Bool) (xs ys : List InspectionKeyword)
    → first_where q (xs ++ ys)
      ≡ elim (first_where q xs) [ none ↦ first_where q ys | some k ↦ some k ]
find_keyword-append q [] ys = refl
find_keyword-append q (x ∷ xs) ys = ground (arith, find_keyword-append q xs ys)

IsLinked-append :
    (keywords more : List InspectionKeyword) (s : InspectionKeywordScope)
    → IsLinked keywords s
    → IsLinked (keywords ++ more) s
IsLinked-append keywords more s h =
    let e = find_keyword-append (is_keyword s.org_id s.keyword_id) keywords more in ground arith

scope_rows-IsLinked :
    (keywords : List InspectionKeyword) (org_id id next : ℕ) (scopes : List InspectionKeywordScope)
    → is_some (first_where (is_keyword org_id id) keywords) ≡ true
    → All (IsLinked keywords) (scope_rows next org_id id scopes)
unfolding scope_rows
scope_rows-IsLinked keywords org_id id next [] h = tt
scope_rows-IsLinked keywords org_id id next (s ∷ scopes) h =
    (h, scope_rows-IsLinked keywords org_id id (suc next) scopes h)

-- A change of a keyword's row that leaves its id and its organisation alone.
module _ (p : InspectionKeyword → Bool) (f : InspectionKeyword → InspectionKeyword)
    (same_id : (k : InspectionKeyword) → (f k).id ≡ k.id)
    (same_org : (k : InspectionKeyword) → (f k).org_id ≡ k.org_id) where
  updated_ids :
      (keywords : List InspectionKeyword)
      → keyword_ids (update_where p f keywords) ≡ keyword_ids keywords
  updated_ids [] = refl
  updated_ids (k ∷ keywords) = let e = same_id k in ground (arith, updated_ids keywords)

  updated-IsLinked :
      (keywords : List InspectionKeyword) (s : InspectionKeywordScope)
      → IsLinked keywords s
      → IsLinked (update_where p f keywords) s
  unfolding is_keyword
  updated-IsLinked keywords s h =
      let e =
        first_where-update_where (is_keyword s.org_id s.keyword_id) p f
          (λ k. let a = same_id k in let b = same_org k in rw (a, b) refl) keywords in
      ground arith

  updated_below :
      (n : ℕ) (keywords : List InspectionKeyword)
      → All (λ k. k.id < n) keywords
      → All (λ k. k.id < n) (update_where p f keywords)
  updated_below n keywords h =
      All-update_where (λ k. k.id < n) p f (λ k below chosen. rw (same_id k) below) keywords h

deleted_contains :
    (p : InspectionKeyword → Bool) (i : ℕ) (keywords : List InspectionKeyword)
    → contains_id i (keyword_ids keywords) ≡ false
    → contains_id i (keyword_ids (delete_where p keywords)) ≡ false
deleted_contains p i [] h = refl
deleted_contains p i (k ∷ keywords) h = ground (arith, deleted_contains p i keywords)

deleted-IsUnique :
    (p : InspectionKeyword → Bool) (keywords : List InspectionKeyword)
    → IsUnique (keyword_ids keywords)
    → IsUnique (keyword_ids (delete_where p keywords))
deleted-IsUnique p [] h = tt
deleted-IsUnique p (k ∷ keywords) h = elim (Bool-cases (p k)) [
  | inl e ↦ rw e (deleted-IsUnique p keywords h.1)
  | inr e ↦ rw e (deleted_contains p k.id keywords h.0, deleted-IsUnique p keywords h.1)
]

deleted-IsLinked :
    (org_id id : ℕ) (keywords : List InspectionKeyword) (s : InspectionKeywordScope)
    → IsLinked keywords s
    → is_scope_of org_id id s ≡ false
    → IsLinked (delete_where (is_keyword org_id id) keywords) s
unfolding is_keyword is_scope_of
deleted-IsLinked org_id id keywords s h kept =
    let e =
      first_where-delete_where (is_keyword s.org_id s.keyword_id) (is_keyword org_id id)
        (λ k chosen. ground arith) keywords in
    rw e h

module _ (w : World) (sound : IsSound w) where
  created_found :
      (env : Env) (k : InspectionKeyword)
      → is_some
          (first_where (is_keyword k.org_id w.next_keyword_id) (insert_keyword env k w).keywords)
        ≡ true
  unfolding is_keyword
  created_found env k =
      let e =
        find_keyword-append (is_keyword k.org_id w.next_keyword_id) w.keywords
          (record k { id = w.next_keyword_id; enabled = env.stored true k.enabled } ∷ []) in
      let r = ==_refl k.org_id in let r' = ==_refl w.next_keyword_id in ground arith

  pub created_world-IsSound :
      (env : Env) (k : InspectionKeyword) (scopes : List InspectionKeywordScope)
      → IsSound (created_world env k scopes w)
  created_world-IsSound env k scopes = record {
    unique = rw (keyword_ids-snoc w.keywords _) (
        IsUnique-snoc w.next_keyword_id (keyword_ids w.keywords) sound.unique
          (fresh_id w.next_keyword_id w.keywords sound.below));
    below =
        All-append (λ x. x.id < w.next_keyword_id + 1) w.keywords _
          (All-map (λ x. x.id < w.next_keyword_id) (λ x. x.id < w.next_keyword_id + 1)
            (λ x h. omega arith) w.keywords sound.below)
          (omega arith, tt);
    linked =
        All-append (IsLinked (created_world env k scopes w).keywords) w.keyword_scopes _
          (All-map (IsLinked w.keywords) (IsLinked (created_world env k scopes w).keywords)
            (λ s h. IsLinked-append w.keywords _ s h) w.keyword_scopes sound.linked)
          (scope_rows-IsLinked _ k.org_id w.next_keyword_id w.next_scope_id scopes
            (created_found env k));
  }

  pub updated_world-IsSound :
      (k : InspectionKeyword) (scopes : List InspectionKeywordScope)
      → is_some (first_where (is_keyword k.org_id k.id) w.keywords) ≡ true
      → IsSound (updated_world k scopes w)
  updated_world-IsSound k scopes found =
      let this = is_keyword k.org_id k.id in
      let keywords = update_where this (set_keyword k) w.keywords in
      let link = updated-IsLinked this (set_keyword k) (λ x. refl) (λ x. refl) w.keywords in
      record {
        unique =
            rw (updated_ids this (set_keyword k) (λ x. refl) (λ x. refl) w.keywords) sound.unique;
        below =
            updated_below this (set_keyword k) (λ x. refl) (λ x. refl) w.next_keyword_id w.keywords
              sound.below;
        linked =
            All-append (IsLinked keywords)
              (delete_where (is_scope_of k.org_id k.id) w.keyword_scopes) _
              (All-delete_where (IsLinked w.keywords) (IsLinked keywords)
                (is_scope_of k.org_id k.id) (λ s h kept. link s h) w.keyword_scopes sound.linked)
              (scope_rows-IsLinked keywords k.org_id k.id w.next_scope_id scopes
                (link (record { id = 0; org_id = k.org_id; keyword_id = k.id; scope = [] }) found));
      }

  pub patched_world-IsSound :
      (org_id id : ℕ) (enabled : Bool) (updater_id : ℕ) (updater_name : Text)
      → IsSound (patched_world org_id id enabled updater_id updater_name w)
  patched_world-IsSound org_id id enabled updater_id updater_name =
      let this = is_keyword org_id id in
      let f = set_enabled enabled updater_id updater_name in
      record {
        unique = rw (updated_ids this f (λ x. refl) (λ x. refl) w.keywords) sound.unique;
        below =
            updated_below this f (λ x. refl) (λ x. refl) w.next_keyword_id w.keywords sound.below;
        linked =
            All-map (IsLinked w.keywords) (IsLinked (update_where this f w.keywords))
              (updated-IsLinked this f (λ x. refl) (λ x. refl) w.keywords) w.keyword_scopes
              sound.linked;
      }

  pub deleted_world-IsSound : (org_id id : ℕ) → IsSound (deleted_world org_id id w)
  deleted_world-IsSound org_id id =
      let this = is_keyword org_id id in
      record {
        unique = deleted-IsUnique this w.keywords sound.unique;
        below =
            All-delete_where (λ k. k.id < w.next_keyword_id) (λ k. k.id < w.next_keyword_id) this
              (λ k h kept. h) w.keywords sound.below;
        linked =
            All-delete_where (IsLinked w.keywords) (IsLinked (delete_where this w.keywords))
              (is_scope_of org_id id) (λ s h kept. deleted-IsLinked org_id id w.keywords s h kept)
              w.keyword_scopes sound.linked;
      }
