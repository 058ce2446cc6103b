-- ===== src/Rules/RoundTrip.antt =====
-- What is created or updated is what is read, and what is deleted is not.
use article_sentinel.Base.{
  ℕ, ◌<◌, true, false, ◌≡◌, ◌≢◌, refl, ap, ◌∙◌, arith, none, some, List, [], ◌∷◌, ==_iff,
  contains_id, is_some, first_where, first_where-holds, first_where-update_where,
  select_where-deleted, ok, failed, ◌⊎◌, inl, inr, Bool-cases,
}
use article_sentinel.Text.{Text}
use article_sentinel.Text.Order.{sort_strings}
use article_sentinel.Model.{InspectionCategory, InspectionKeyword}
use article_sentinel.Rules.{World, Env, keyword_not_found}
use article_sentinel.Rules.Normalize.{
  CreateKeywordInput, NormalizedKeywordInput, normalize_create_keyword_input,
}
use article_sentinel.Rules.Keywords.{
  is_category, is_keyword, is_scope_of, set_keyword, insert_keyword, delete_scopes, keyword_changed,
}
use article_sentinel.Rules.Keywords
use article_sentinel.Rules.KeywordService.{
  KeywordDto, keyword_of, build_keyword_scopes, answer, stored_dto, update_normalized, create,
  update, get,
}
use article_sentinel.Rules.Normalized.{normalized_fields, canonical_scopes}
use article_sentinel.Rules.Read.{guard_passed, get_stored, is_keyword-own}
use article_sentinel.Rules.View.{
  IsServing, dto_of, row_of, keyword_ids, keyword_view, stored_dto-view, scopes_of,
}
use article_sentinel.Rules.Sound.{
  IsSound, fresh_id, find_keyword-append, created_world-IsSound, updated_world-IsSound,
}
use article_sentinel.Rules.Changes.{created_world, updated_world}
use article_sentinel.Rules.Serve.{
  create_serves, update_serves, update_unchanged, built_scopes, no_scopes, with_scopes-own,
}

-- The answer to the input `n` stored under `id`.
abbrev pub created_dto : Env → ℕ → NormalizedKeywordInput → Text → KeywordDto
created_dto env id n category_name =
    dto_of
      (record {
        keyword = record (keyword_of env id n) { enabled = env.stored true n.enabled };
        category_name = category_name;
      })
      n.scopes

abbrev pub updated_dto : Env → ℕ → NormalizedKeywordInput → InspectionKeyword → Text → KeywordDto
updated_dto env id n k0 category_name =
    dto_of
      (record { keyword = set_keyword (keyword_of env id n) k0; category_name = category_name })
      n.scopes

view_found :
    (org_id id : ℕ) (w : World) (k : InspectionKeyword) (c : InspectionCategory)
    (scopes : List Text)
    → first_where (is_keyword org_id id) w.keywords ≡ some k
    → first_where (is_category k.org_id k.category_id) w.categories ≡ some c
    → sort_strings (scopes_of org_id id w) ≡ scopes
    → keyword_view org_id id w ≡ ok (dto_of (record { keyword = k; category_name = c.name }) scopes)
view_found org_id id w k c scopes found there sorted = rw (found, row_of, there, sorted) refl

absent_keyword :
    (org_id id : ℕ) (keywords : List InspectionKeyword)
    → contains_id id (keyword_ids keywords) ≡ false
    → first_where (is_keyword org_id id) keywords ≡ none
unfolding is_keyword
absent_keyword org_id id [] h = refl
absent_keyword org_id id (k ∷ keywords) h =
    let e = ==_iff k.id id in
    let e' = ==_iff id k.id in ground (arith, absent_keyword org_id id keywords)

-- The tables after a creation, and after an update.
abbrev pub new_world : Env → NormalizedKeywordInput → World → World
new_world env n w =
    created_world env (keyword_of env 0 n) (build_keyword_scopes n.org_id n.scopes) w

abbrev pub changed_world : Env → NormalizedKeywordInput → ℕ → World → World
changed_world env n id w =
    updated_world (record (keyword_of env id n) { creator_id = 0; creator_name = [] })
      (build_keyword_scopes n.org_id n.scopes) w

module _ (env : Env) (serving : IsServing env) (w : World) (sound : IsSound w)
    (input : CreateKeywordInput) (n : NormalizedKeywordInput)
    (normal : normalize_create_keyword_input env.unicode input ≡ ok n) (c : InspectionCategory)
    (there : first_where (is_category n.org_id n.category_id) w.categories ≡ some c) where
  created_view :
      keyword_view n.org_id w.next_keyword_id (new_world env n w)
      ≡ ok (created_dto env w.next_keyword_id n c.name)
  created_view =
      let k : InspectionKeyword = record (keyword_of env 0 n) {
        id = w.next_keyword_id;
        enabled = env.stored true n.enabled;
      } in
      let missing =
        absent_keyword n.org_id w.next_keyword_id w.keywords
          (fresh_id w.next_keyword_id w.keywords sound.below) in
      let found = find_keyword-append (is_keyword n.org_id w.next_keyword_id) w.keywords (k ∷ []) in
      let own = is_keyword-own k in
      let scopes =
        with_scopes-own (insert_keyword env (keyword_of env 0 n) w)
          (build_keyword_scopes n.org_id n.scopes) n.org_id w.next_keyword_id
          (no_scopes w n.org_id w.next_keyword_id sound missing) in
      view_found n.org_id w.next_keyword_id (new_world env n w) k c n.scopes
        (found ∙ rw (missing, own) refl) there
        (ap sort_strings (scopes ∙ built_scopes n.org_id n.scopes)
          ∙ canonical_scopes env.unicode input n normal)

  -- Over sound tables whose next id is not 0 and a server that refuses nothing, if the input
  -- normalises to `n` and its category is there, a creation answers with the fields of `n`, its
  -- scopes in order, the name of the category and what the server stores for `enabled`, under the
  -- next id, and the answer to a later `Get` is the same.
  pub create-get :
      0 < w.next_keyword_id
      → (create env input w
          ≡ (ok (created_dto env w.next_keyword_id n c.name), (new_world env n w)))
        × (get env n.org_id w.next_keyword_id (new_world env n w)
            ≡ ok (created_dto env w.next_keyword_id n c.name))
  unfolding create
  create-get pos =
      let (org, category, scopes) = normalized_fields env.unicode input n normal in
      let made =
        create_serves env serving w (keyword_of env 0 n) (build_keyword_scopes n.org_id n.scopes) c
          org category there in
      let sound' =
        created_world-IsSound w sound env (keyword_of env 0 n)
          (build_keyword_scopes n.org_id n.scopes) in
      let read =
        stored_dto-view env serving n.org_id w.next_keyword_id (new_world env n w) org
          (λ z. omega arith) sound'.unique
        ∙ created_view in
      (
        rw (create, normal, made, read) refl,
        get_stored env n.org_id w.next_keyword_id (new_world env n w) org (λ z. omega arith) ∙ read,
      )

  updated_view :
      (id : ℕ) (k0 : InspectionKeyword)
      → first_where (is_keyword n.org_id id) w.keywords ≡ some k0
      → keyword_view n.org_id id (changed_world env n id w) ≡ ok (updated_dto env id n k0 c.name)
  unfolding is_keyword
  updated_view id k0 found =
      let k : InspectionKeyword = record (keyword_of env id n) {
        creator_id = 0;
        creator_name = [];
      } in
      let this = is_keyword n.org_id id in
      let changed = first_where-update_where this this (set_keyword k) (λ a. refl) w.keywords in
      let own = first_where-holds this w.keywords {a = k0} found in
      let org : k0.org_id ≡ n.org_id = let q = ==_iff k0.org_id n.org_id in ground arith in
      let scopes =
        with_scopes-own (delete_scopes n.org_id id w) (build_keyword_scopes n.org_id n.scopes)
          n.org_id id (select_where-deleted (is_scope_of n.org_id id) w.keyword_scopes) in
      view_found n.org_id id (changed_world env n id w) (set_keyword k k0) c n.scopes
        (changed ∙ rw (found, own) refl) (rw org there)
        (ap sort_strings (scopes ∙ built_scopes n.org_id n.scopes)
          ∙ canonical_scopes env.unicode input n normal)

  updated_answer :
      (id : ℕ)
      → id ≢ 0
      → update env (record { id = id; input = input }) w
        ≡ answer
            (Keywords.update env
              (record (keyword_of env id n) { creator_id = 0; creator_name = [] })
              (build_keyword_scopes n.org_id n.scopes)
              w)
            (stored_dto env n.org_id id)
  unfolding update
  updated_answer id id_pos =
      guard_passed id _
        (update_normalized env id w (normalize_create_keyword_input env.unicode input)) id_pos
      ∙ ap (update_normalized env id w) normal

  changed-get :
      (id : ℕ) (k0 : InspectionKeyword)
      → id ≢ 0
      → first_where (is_keyword n.org_id id) w.keywords ≡ some k0
      → keyword_changed env (set_keyword (keyword_of env id n)) k0 ≡ true
      → (update env (record { id = id; input = input }) w
          ≡ (ok (updated_dto env id n k0 c.name), changed_world env n id w))
        × (get env n.org_id id (changed_world env n id w) ≡ ok (updated_dto env id n k0 c.name))
  unfolding update
  changed-get id k0 id_pos found changed =
      let (org, category, scopes) = normalized_fields env.unicode input n normal in
      let k : InspectionKeyword = record (keyword_of env id n) {
        creator_id = 0;
        creator_name = [];
      } in
      let made =
        update_serves env serving w k (build_keyword_scopes n.org_id n.scopes) c org category there
          k0 id_pos found changed in
      let there' : is_some (first_where (is_keyword k.org_id k.id) w.keywords) ≡ true =
        rw found refl in
      let sound' =
        updated_world-IsSound w sound k (build_keyword_scopes n.org_id n.scopes) there' in
      let read =
        stored_dto-view env serving n.org_id id (changed_world env n id w) org id_pos sound'.unique
        ∙ updated_view id k0 found in
      (
        updated_answer id id_pos
            ∙ ap (λ r. answer r (stored_dto env n.org_id id)) made
            ∙ ap (λ r. (r, changed_world env n id w)) read,
        get_stored env n.org_id id (changed_world env n id w) org id_pos ∙ read,
      )

  -- Over sound tables and a server that refuses nothing, if the input normalises and its category
  -- is there, an update of a keyword that is there under an id other than 0 answers with the
  -- fields of the normalised input, exactly its scopes, and the creator as before, and the answer
  -- to a later `Get` is the same, provided that it changes the row of the keyword; if it changes
  -- no column of it, `update_at` included, it answers that the keyword is not found, whatever the
  -- scopes, and the tables stay as they were.
  pub update-get :
      (id : ℕ) (k0 : InspectionKeyword)
      → id ≢ 0
      → first_where (is_keyword n.org_id id) w.keywords ≡ some k0
      → ((keyword_changed env (set_keyword (keyword_of env id n)) k0 ≡ true)
          × (update env (record { id = id; input = input }) w
              ≡ (ok (updated_dto env id n k0 c.name), changed_world env n id w))
          × (get env n.org_id id (changed_world env n id w) ≡ ok (updated_dto env id n k0 c.name)))
        ⊎ ((keyword_changed env (set_keyword (keyword_of env id n)) k0 ≡ false)
            × (update env (record { id = id; input = input }) w ≡ (failed keyword_not_found, w)))
  update-get id k0 id_pos found =
      elim (Bool-cases (keyword_changed env (set_keyword (keyword_of env id n)) k0)) [
        | inl changed ↦
            let (answered, read) = changed-get id k0 id_pos found changed in
            inl (changed, answered, read)
        | inr same ↦ inr (
          same,
          (let (org, category, scopes) = normalized_fields env.unicode input n normal in
              updated_answer id id_pos
              ∙ ap (λ r. answer r (stored_dto env n.org_id id))
                  (update_unchanged env serving w
                    (record (keyword_of env id n) { creator_id = 0; creator_name = [] })
                    (build_keyword_scopes n.org_id n.scopes) c org category there k0 sound.unique
                    id_pos found same)),
        )
      ]
