-- ===== src/Outbox/Cleanup.antt =====
-- outbox/cleanup.go: the terminal messages past their retention are deleted.
use article_sentinel.Base.{
  ℕ, Bool, false, ◌&&◌, ◌||◌, Option, none, some, List, [], ◌∷◌, map, ltb, leb, ◌==◌, if◌then◌else◌,
  length, take, select_where, sort_by, delete_where, rows_affected,
}
use article_sentinel.Text.{Text, text_eq}
use article_sentinel.Domain.OutboxStatus
use article_sentinel.Outbox.{Message, RelayError, database, World}

-- SQL's `IS NOT NULL AND < now`
abbrev pub is_expired : ℕ → Option ℕ → Bool
is_expired now none = false
is_expired now (some at) = ltb at now

unfoldable pub is_disposable : ℕ → Message → Bool
is_disposable now row =
    (text_eq row.status OutboxStatus.dispatched || text_eq row.status OutboxStatus.dead_letter)
    && is_expired now row.retained_until

abbrev retained_at : Message → ℕ
retained_at row = elim row.retained_until [ none ↦ 0 | some at ↦ at ]

-- `ORDER BY retained_until ASC, id ASC`; no selected row lacks the time.
abbrev pub expires_before : Message → Message → Bool
expires_before a b =
    ltb (retained_at a) (retained_at b) || (retained_at a == retained_at b && leb a.id b.id)

-- A limit that is not positive stands for 100.
unfoldable pub cleanup_scan : ℕ → ℕ → List Message → List Message
unfolding is_disposable
cleanup_scan now limit rows =
    take (if limit == 0 then 100 else limit)
      (sort_by expires_before (select_where (is_disposable now) rows))

-- `id IN ?`
unfoldable pub has_id : List ℕ → ℕ → Bool
has_id [] i = false
has_id (j ∷ ids) i = i == j || has_id ids i

abbrev pub id_of : Message → ℕ
id_of row = row.id

-- The deletion of the rows that were selected.
unfoldable pub delete_ids : Option Text → List ℕ → World → (ℕ × Option RelayError) × World
unfolding has_id
delete_ids delete_error ids w = if length ids == 0 then ((0, none), w) else elim delete_error [
  | some e ↦ ((0, some (database e)), w)
  | none ↦ (
    (rows_affected (λ row. has_id ids row.id) w.outbox, none),
    record w { outbox = delete_where (λ row. has_id ids row.id) w.outbox },
  )
]

unfoldable pub cleanup : ℕ → Option Text → Option Text → ℕ → World → (ℕ × Option RelayError) × World
unfolding cleanup_scan delete_ids
cleanup now scan_error delete_error limit w = elim scan_error [
  | some e ↦ ((0, some (database e)), w)
  | none ↦ delete_ids delete_error (map id_of (cleanup_scan now limit w.outbox)) w
]
