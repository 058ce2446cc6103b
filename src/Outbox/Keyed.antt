-- ===== src/Outbox/Keyed.antt =====
-- The primary key of the outbox table: no two rows have one id.
use article_sentinel.Base.{
  ℕ, Bool, true, false, ◌≡◌, refl, arith, none, some, List, [], ◌∷◌, ◌==◌, ==_iff, if◌then◌else◌,
  Bool-cases, inl, inr, update_where, rows_affected,
}
use article_sentinel.Outbox.{Message}
use article_sentinel.Outbox.Row.{find_row}

abbrev pub IsKeyed : List Message → Type 0
IsKeyed [] = Unit
IsKeyed (a ∷ rows) = (find_row a.id rows ≡ none) × IsKeyed rows

find_row-update_none :
    (i : ℕ) (p : Message → Bool) (f : Message → Message)
    → ((a : Message) → (f a).id ≡ a.id)
    → (rows : List Message) → find_row i rows ≡ none
    → find_row i (update_where p f rows) ≡ none
find_row-update_none i p f keep [] h = refl
find_row-update_none i p f keep (a ∷ rows) h =
    ground (arith, keep a, find_row-update_none i p f keep rows)

pub update_where-IsKeyed :
    (p : Message → Bool) (f : Message → Message)
    → ((a : Message) → (f a).id ≡ a.id)
    → (rows : List Message) → IsKeyed rows
    → IsKeyed (update_where p f rows)
update_where-IsKeyed p f keep [] h = tt
update_where-IsKeyed p f keep (a ∷ rows) h = (head (p a), update_where-IsKeyed p f keep rows h.1)
  where
    head : (b : Bool) → find_row (if b then f a else a).id (update_where p f rows) ≡ none
    head true = rw (keep a) (find_row-update_none a.id p f keep rows h.0)
    head false = find_row-update_none a.id p f keep rows h.0

module _ (i : ℕ) (p : Message → Bool) (only : (a : Message) → p a ≡ true → a.id ≡ i) where
  pub rows_affected_missing :
      (rows : List Message) → find_row i rows ≡ none → rows_affected p rows ≡ 0
  rows_affected_missing [] h = refl
  rows_affected_missing (a ∷ rows) h = ground (arith, only a, rows_affected_missing rows)

  -- A statement that selects by key affects the row with that key, or none.
  pub rows_affected_keyed :
      (rows : List Message) {a : Message}
      → IsKeyed rows
      → find_row i rows ≡ some a
      → p a ≡ false
      → rows_affected p rows ≡ 0
  rows_affected_keyed [] k found off = refl
  rows_affected_keyed (b ∷ rows) {a} k found off = elim (Bool-cases (b.id == i)) [
    | inl here ↦
        let key : b.id ≡ i = (==_iff b.id i).0 here in
        let same : b ≡ a = ground arith in
        let absent : find_row i rows ≡ none = rw (← key) k.0 in
        let unselected : p b ≡ false = rw same off in
        rw unselected (rows_affected_missing rows absent)
    | inr there ↦ ground (arith, only b, rows_affected_keyed rows {a = a} k.1)
  ]
