-- ===== src/Lifecycle/Diff.antt =====
-- internal/modules/articleinspect/lifecycle/diff.go: the fields that an edit changes.
use article_sentinel.Base.{
  sym, ap, ◌∙◌, ℕ, ◌-◌, ◌||◌, ◌≡◌, refl, List, [], ◌∷◌, ◌++◌, leb, ◌==◌, if◌then◌else◌, length,
  take, Bool-cases, inl, inr,
}
use article_sentinel.Text.{Text, text_eq, trim_space, codes}
use article_sentinel.Text.Laws.{eq_of_text_eq}
use article_sentinel.Domain.KeywordScope

pub record EditableArticleFields : Type 0 where
  pub title : Text
  pub short_title : Text
  pub rich_title : Text
  pub keyword : Text
  pub desc : Text
  pub body : Text

pub record FieldChange : Type 0 where
  pub field_name : Text
  pub before_value : Text
  pub after_value : Text
  pub diff_summary : Text

unfoldable pub truncate_diff_text : Text → ℕ → Text
truncate_diff_text value max_length =
    let v = trim_space value in
    if max_length == 0 || leb (length v) max_length
    then v
    else if leb max_length 3
    then take max_length v
    else take (max_length - 3) v ++ codes "..."

unfoldable pub summarize_field_diff : Text → Text → Text → Text
unfolding truncate_diff_text
summarize_field_diff field_name before_value after_value =
    field_name
    ++ codes ": "
    ++ truncate_diff_text before_value 48
    ++ codes " -> "
    ++ truncate_diff_text after_value 48

unfoldable pub append_field_change : List FieldChange → Text → Text → Text → List FieldChange
unfolding summarize_field_diff
append_field_change changes field_name before_value after_value =
    if text_eq before_value after_value
    then changes
    else changes
      ++ record {
        field_name = field_name;
        before_value = before_value;
        after_value = after_value;
        diff_summary = summarize_field_diff field_name before_value after_value;
      }
        ∷ []

unfoldable pub diff_editable_fields :
    EditableArticleFields → EditableArticleFields → List FieldChange
unfolding append_field_change
diff_editable_fields before after =
    let c1 = append_field_change [] KeywordScope.title before.title after.title in
    let c2 = append_field_change c1 KeywordScope.short_title before.short_title after.short_title in
    let c3 = append_field_change c2 KeywordScope.rich_title before.rich_title after.rich_title in
    let c4 = append_field_change c3 KeywordScope.keyword before.keyword after.keyword in
    let c5 = append_field_change c4 KeywordScope.desc before.desc after.desc in
    append_field_change c5 KeywordScope.body before.body after.body

-- What a change does to the fields, by its name.
abbrev set_field : Text → Text → EditableArticleFields → EditableArticleFields
set_field name value f =
    if text_eq name KeywordScope.title
    then record f { title = value }
    else if text_eq name KeywordScope.short_title
    then record f { short_title = value }
    else if text_eq name KeywordScope.rich_title
    then record f { rich_title = value }
    else if text_eq name KeywordScope.keyword
    then record f { keyword = value }
    else if text_eq name KeywordScope.desc
    then record f { desc = value }
    else if text_eq name KeywordScope.body
    then record f { body = value }
    else f

abbrev pub apply_changes : List FieldChange → EditableArticleFields → EditableArticleFields
apply_changes [] f = f
apply_changes (c ∷ changes) f = apply_changes changes (set_field c.field_name c.after_value f)

apply_changes-append :
    (cs ds : List FieldChange) (f : EditableArticleFields)
    → apply_changes (cs ++ ds) f ≡ apply_changes ds (apply_changes cs f)
apply_changes-append [] ds f = refl
apply_changes-append (c ∷ cs) ds f =
    apply_changes-append cs ds (set_field c.field_name c.after_value f)

apply_changes-field :
    (cs : List FieldChange) (name before after : Text) (f : EditableArticleFields)
    → apply_changes (append_field_change cs name before after) f ≡ (
        if text_eq before after
        then apply_changes cs f
        else set_field name after (apply_changes cs f))
unfolding append_field_change
apply_changes-field cs name before after f = elim (Bool-cases (text_eq before after)) [
  | inl e ↦ rw e refl
  | inr e ↦ rw e (apply_changes-append cs _ f)
]

-- A field more: `set` is what the name stands for, and `g` the fields so far.
apply_changes-step :
    (cs : List FieldChange) (name before after : Text)
    (set : Text → EditableArticleFields → EditableArticleFields) (f g : EditableArticleFields)
    → apply_changes cs f ≡ g
    → set before g ≡ g
    → set_field name after g ≡ set after g
    → apply_changes (append_field_change cs name before after) f ≡ set after g
apply_changes-step cs name before after set f g e keep named =
    apply_changes-field cs name before after f ∙ elim (Bool-cases (text_eq before after)) [
      | inl t ↦ let q = eq_of_text_eq before after t in rw (t, e) (sym keep ∙ ap (λ v. set v g) q)
      | inr t ↦ rw (t, e) named
    ]

-- Every field that an edit changes is among the changes: applied to the fields before the edit they
-- give those after it.
pub diff_editable_fields-apply_changes :
    (before after : EditableArticleFields)
    → apply_changes (diff_editable_fields before after) before ≡ after
unfolding diff_editable_fields codes text_eq
diff_editable_fields-apply_changes b a =
    apply_changes-step _ KeywordScope.body b.body a.body (λ v f. record f { body = v }) b
      (record a { body = b.body })
      (apply_changes-step _ KeywordScope.desc b.desc a.desc (λ v f. record f { desc = v }) b
        (record a { body = b.body; desc = b.desc })
        (apply_changes-step _ KeywordScope.keyword b.keyword a.keyword
          (λ v f. record f { keyword = v }) b
          (record a { body = b.body; desc = b.desc; keyword = b.keyword })
          (apply_changes-step _ KeywordScope.rich_title b.rich_title a.rich_title
            (λ v f. record f { rich_title = v }) b
            (record b { title = a.title; short_title = a.short_title })
            (apply_changes-step _ KeywordScope.short_title b.short_title a.short_title
              (λ v f. record f { short_title = v }) b (record b { title = a.title })
              (apply_changes-step [] KeywordScope.title b.title a.title
                (λ v f. record f { title = v }) b b refl refl refl)
              refl refl)
            refl refl)
          refl refl)
        refl refl)
      refl refl
