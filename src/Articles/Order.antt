-- ===== src/Articles/Order.antt =====
-- articles/repository_candidates.go: the table in the order of its key.
use article_sentinel.Base.{
  ℕ, zero, suc, ◌<◌, ◌≤◌, Bool, ◌≡◌, refl, ap, sym, ◌∙◌, arith, List, [], ◌∷◌, take, drop, length,
  select_where, sort_by, Bool-cases, inl, inr, insert_by,
}
use article_sentinel.Articles.{Article, by_id, is_after, last_id}

-- The keys of the rows are above `lo` and ascend.
abbrev pub IsKeyOrdered : ℕ → List Article → Type 0
IsKeyOrdered lo [] = Unit
IsKeyOrdered lo (a ∷ rows) = (lo < a.id) × IsKeyOrdered a.id rows

insert_by-least :
    (a : Article) (rows : List Article) → IsKeyOrdered a.id rows → insert_by by_id a rows ≡ a ∷ rows
insert_by-least a [] h = refl
insert_by-least a (b ∷ rows) h = let h0 = h.0 in ground arith

pub sort_by-IsKeyOrdered :
    (lo : ℕ) (rows : List Article) → IsKeyOrdered lo rows → sort_by by_id rows ≡ rows
sort_by-IsKeyOrdered lo [] h = refl
sort_by-IsKeyOrdered lo (a ∷ rows) h =
    ap (insert_by by_id a) (sort_by-IsKeyOrdered a.id rows h.1) ∙ insert_by-least a rows h.1

pub IsKeyOrdered-lower :
    (lo hi : ℕ) (rows : List Article) → lo ≤ hi → IsKeyOrdered hi rows → IsKeyOrdered lo rows
IsKeyOrdered-lower lo hi [] e h = tt
IsKeyOrdered-lower lo hi (a ∷ rows) e h = (let h0 = h.0 in omega arith, h.1)

pub IsKeyOrdered-select :
    (p : Article → Bool) (lo : ℕ) (rows : List Article)
    → IsKeyOrdered lo rows
    → IsKeyOrdered lo (select_where p rows)
IsKeyOrdered-select p lo [] h = tt
IsKeyOrdered-select p lo (a ∷ rows) h = elim (Bool-cases (p a)) [
  | inl e ↦ rw e (h.0, IsKeyOrdered-select p a.id rows h.1)
  | inr e ↦
      let h0 = h.0 in
      rw e (
        IsKeyOrdered-lower lo a.id (select_where p rows) (omega arith)
          (IsKeyOrdered-select p a.id rows h.1))
]

-- Rows that are all above the cursor.
pub after-all :
    (after_id lo : ℕ) (rows : List Article)
    → after_id ≤ lo
    → IsKeyOrdered lo rows
    → select_where (is_after after_id) rows ≡ rows
after-all after_id lo [] e h = refl
after-all after_id lo (a ∷ rows) e h =
    let h0 = h.0 in let next = after-all after_id a.id rows (omega arith) h.1 in ground arith

pub IsKeyOrdered-after :
    (after_id lo : ℕ) (rows : List Article)
    → IsKeyOrdered lo rows
    → IsKeyOrdered after_id (select_where (is_after after_id) rows)
IsKeyOrdered-after after_id lo [] h = tt
IsKeyOrdered-after after_id lo (a ∷ rows) h = elim (Bool-cases (is_after after_id a)) [
  | inl e ↦
      let h0 = h.0 in
      let above : after_id < a.id = ground arith in
      rw e (rw (after-all after_id a.id rows (omega arith) h.1) (above, h.1))
  | inr e ↦ rw e (IsKeyOrdered-after after_id a.id rows h.1)
]

-- A later cursor only takes rows away.
after-after :
    (a b : ℕ) (rows : List Article)
    → a ≤ b
    → select_where (is_after b) (select_where (is_after a) rows) ≡ select_where (is_after b) rows
after-after a b [] h = refl
after-after a b (x ∷ rows) h = let next = after-after a b rows h in ground arith

-- The last key of a page is the greatest of it.
last_id-above :
    (n lo : ℕ) (rows : List Article)
    → IsKeyOrdered lo rows
    → 0 < n
    → 0 < length rows
    → lo < last_id (take n rows)
last_id-above n lo [] h p q = omega arith
last_id-above zero lo (a ∷ rows) h p q = omega arith
last_id-above (suc zero) lo (a ∷ rows) h p q = h.0
last_id-above (suc (suc n)) lo (a ∷ []) h p q = h.0
last_id-above (suc (suc n)) lo (a ∷ b ∷ rows) h p q =
    let h0 = h.0 in
    let next = last_id-above (suc n) a.id (b ∷ rows) h.1 (omega arith) (omega arith) in omega arith

after-last_id :
    (n lo : ℕ) (rows : List Article)
    → IsKeyOrdered lo rows
    → 0 < n
    → 0 < length rows
    → select_where (is_after (last_id (take n rows))) rows ≡ drop n rows
after-last_id n lo [] h p q = absurd (omega arith)
after-last_id zero lo (a ∷ rows) h p q = absurd (omega arith)
after-last_id (suc zero) lo (a ∷ rows) h p q =
    let h0 = h.0 in let next = after-all a.id a.id rows (omega arith) h.1 in ground arith
after-last_id (suc (suc n)) lo (a ∷ []) h p q = let h0 = h.0 in ground arith
after-last_id (suc (suc n)) lo (a ∷ b ∷ rows) h p q =
    let above = last_id-above (suc n) a.id (b ∷ rows) h.1 (omega arith) (omega arith) in
    let next = after-last_id (suc n) a.id (b ∷ rows) h.1 (omega arith) (omega arith) in ground arith

-- The rows after the last key of a page are those that the page leaves.
pub after-page :
    (n after_id : ℕ) (rows : List Article)
    → IsKeyOrdered 0 rows
    → 0 < n
    → let rest = select_where (is_after after_id) rows in
      0 < length rest
      → (after_id < last_id (take n rest))
        × (select_where (is_after (last_id (take n rest))) rows ≡ drop n rest)
after-page n after_id rows h p q =
    let rest = select_where (is_after after_id) rows in
    let ordered = IsKeyOrdered-after after_id 0 rows h in
    let above = last_id-above n after_id rest ordered p q in
    (
      above,
      sym (after-after after_id (last_id (take n rest)) rows (omega arith))
          ∙ after-last_id n after_id rest ordered p q,
    )
