-- ===== src/Outbox/Sweep.antt =====
-- What `CleanupArticleInspectTaskOutbox` deletes.
use mathlib.Core.Path.{subst}
use article_sentinel.Base.{
  ℕ, ◌+◌, ◌≤◌, Bool, true, false, ◌≡◌, refl, sym, ◌≢◌, arith, Option, none, some, List, [], ◌∷◌,
  ◌==◌, ==_iff, if◌then◌else◌, map, length, length-take, length-map, All, All-map, All-take,
  All-sort_by, select_where, sort_by, ◌||◌, delete_where, rows_affected, Bool-cases, inl, inr,
}
use article_sentinel.Text.{Text}
use article_sentinel.Outbox.{Message, World, RelayError}
use article_sentinel.Outbox.Cleanup.{
  is_disposable, expires_before, cleanup_scan, has_id, id_of, delete_ids, cleanup,
}
use article_sentinel.Outbox.Row.{find_row}
use article_sentinel.Outbox.Keyed.{IsKeyed, rows_affected_missing}
use article_sentinel.Outbox.Scan.{IsKeyed-DistinctIds, found_by_key}

find_row-delete :
    (i : ℕ) (p : Message → Bool)
    → ((b : Message) → b.id ≡ i → p b ≡ false)
    → (rows : List Message) → find_row i (delete_where p rows) ≡ find_row i rows
find_row-delete i p spares [] = refl
find_row-delete i p spares (b ∷ rows) = ground (arith, spares b, find_row-delete i p spares rows)

has_id_fresh :
    (i : ℕ) (items : List Message) → All (λ b. i ≢ b.id) items → has_id (map id_of items) i ≡ false
unfolding has_id
has_id_fresh i [] h = refl
has_id_fresh i (b ∷ items) h = ground (arith, has_id_fresh i items h.1)

-- The scan takes disposable rows of the table.
cleanup_scan-All :
    (now limit : ℕ) (rows : List Message)
    → IsKeyed rows
    → All
        (λ b. (is_disposable now b ≡ true) × (find_row b.id rows ≡ some b))
        (cleanup_scan now limit rows)
unfolding cleanup_scan
cleanup_scan-All now limit rows keyed = All-take P _ _ (
    All-sort_by P expires_before _ (both rows (found_by_key rows (IsKeyed-DistinctIds rows keyed))))
  where
    P : Message → Type 0
    P b = (is_disposable now b ≡ true) × (find_row b.id rows ≡ some b)

    both :
        (bs : List Message)
        → All (λ b. find_row b.id rows ≡ some b) bs
        → All P (select_where (is_disposable now) bs)
    both [] h = tt
    both (b ∷ bs) h = elim (Bool-cases (is_disposable now b)) [
      | inl e ↦ rw e ((e, h.0), both bs h.1)
      | inr e ↦ rw e (both bs h.1)
    ]

module _ (now limit : ℕ) (scan_error delete_error : Option Text) (w : World) where
  fresh_of_kept :
      (a : Message)
      → IsKeyed w.outbox
      → find_row a.id w.outbox ≡ some a
      → is_disposable now a ≡ false
      → All (λ b. a.id ≢ b.id) (cleanup_scan now limit w.outbox)
  fresh_of_kept a keyed found kept =
      All-map _ (λ b. a.id ≢ b.id) differs (cleanup_scan now limit w.outbox)
        (cleanup_scan-All now limit w.outbox keyed)
    where
      differs :
          (b : Message)
          → (is_disposable now b ≡ true) × (find_row b.id w.outbox ≡ some b)
          → a.id ≢ b.id
      differs b (gone, there) e =
          let there' : find_row a.id w.outbox ≡ some b =
            subst (λ i. find_row i w.outbox ≡ some b) (sym e) there in
          let same : a ≡ b = ground arith in ground arith

  -- Over a table with a key, a message that is not terminal, or whose retention has not passed,
  -- stays as it is.
  pub cleanup-keeps :
      (a : Message)
      → IsKeyed w.outbox
      → find_row a.id w.outbox ≡ some a
      → is_disposable now a ≡ false
      → find_row a.id (cleanup now scan_error delete_error limit w).1.outbox ≡ some a
  unfolding cleanup
  cleanup-keeps a keyed found kept =
      let ids = map id_of (cleanup_scan now limit w.outbox) in
      let spared =
        has_id_fresh a.id (cleanup_scan now limit w.outbox) (fresh_of_kept a keyed found kept) in
      ground (arith, find_row-delete a.id (λ row. has_id ids row.id) (λ b e. rw e spared) w.outbox)

find_row-delete_all :
    (i : ℕ) (p : Message → Bool)
    → ((b : Message) → b.id ≡ i → p b ≡ true)
    → (rows : List Message) → find_row i (delete_where p rows) ≡ none
find_row-delete_all i p all [] = refl
find_row-delete_all i p all (b ∷ rows) = ground (arith, all b, find_row-delete_all i p all rows)

has_id-cons : (i j : ℕ) (ids : List ℕ) → has_id ids i ≡ true → has_id (j ∷ ids) i ≡ true
unfolding has_id
has_id-cons i j ids h = ground arith

has_id_head : (i : ℕ) (ids : List ℕ) → has_id (i ∷ ids) i ≡ true
unfolding has_id
has_id_head i ids = ground arith

-- The ids of a scan contain each of its rows.
has_id_items : (items : List Message) → All (λ b. has_id (map id_of items) b.id ≡ true) items
has_id_items [] = tt
has_id_items (b ∷ items) = (
  has_id_head b.id (map id_of items),
  All-map (λ c. has_id (map id_of items) c.id ≡ true)
      (λ c. has_id (map id_of (b ∷ items)) c.id ≡ true)
      (λ c h. has_id-cons c.id b.id (map id_of items) h) items (has_id_items items),
)

-- With a key the rows deleted are at most as many as the ids.
rows_affected_or :
    (p q : Message → Bool) (rows : List Message)
    → rows_affected (λ b. p b || q b) rows ≤ rows_affected p rows + rows_affected q rows
rows_affected_or p q [] = omega arith
rows_affected_or p q (b ∷ rows) = ground (arith, rows_affected_or p q rows)

rows_affected_one :
    (i : ℕ) (rows : List Message) → IsKeyed rows → rows_affected (λ b. b.id == i) rows ≤ 1
rows_affected_one i [] k = omega arith
rows_affected_one i (b ∷ rows) k = elim (Bool-cases (b.id == i)) [
  | inr e ↦ ground (arith, rows_affected_one i rows k.1)
  | inl e ↦
      let key : b.id ≡ i = (==_iff b.id i).0 e in
      let absent : find_row i rows ≡ none = rw (← key) k.0 in
      ground
        (arith, rows_affected_missing i (λ c. c.id == i) (λ c h. (==_iff c.id i).0 h) rows absent)
]

rows_affected_none : (rows : List Message) → rows_affected (λ b. false) rows ≡ 0
rows_affected_none [] = refl
rows_affected_none (b ∷ rows) = rows_affected_none rows

rows_affected_ids :
    (ids : List ℕ) (rows : List Message)
    → IsKeyed rows
    → rows_affected (λ b. has_id ids b.id) rows ≤ length ids
unfolding has_id
rows_affected_ids [] rows k = omega (arith, rows_affected_none rows)
rows_affected_ids (i ∷ ids) rows k = omega (
  arith,
  rows_affected_or (λ b. b.id == i) (λ b. has_id ids b.id) rows,
  rows_affected_one i rows k,
  rows_affected_ids ids rows k,
)

-- What a deletion by `ids` that is not refused does to the rows of `items`.
abbrev Deletes : ℕ → List Message → (ℕ × Option RelayError) × World → Type 0
Deletes n items ((deleted, error), w') =
    (error ≡ none) × (deleted ≤ n) × All (λ b. find_row b.id w'.outbox ≡ none) items

delete_ids-runs :
    (i : ℕ) (ids : List ℕ) (w : World)
    → let all = i ∷ ids in
      delete_ids none all w ≡ (
        (rows_affected (λ row. has_id all row.id) w.outbox, none),
        record w { outbox = delete_where (λ row. has_id all row.id) w.outbox },
      )
unfolding delete_ids
delete_ids-runs i ids w = ground arith

delete_ids-Deletes :
    (items : List Message) (w : World)
    → IsKeyed w.outbox
    → Deletes (length items) items (delete_ids none (map id_of items) w)
delete_ids-Deletes [] w keyed = unfold delete_ids in (refl, omega arith, tt)
delete_ids-Deletes (b ∷ items) w keyed =
    subst (Deletes (length (b ∷ items)) (b ∷ items))
      (sym (delete_ids-runs b.id (map id_of items) w))
      (
        refl,
        omega (arith, rows_affected_ids ids w.outbox keyed, length-map id_of items),
        All-map (λ c. has_id ids c.id ≡ true)
            (λ c. find_row c.id (delete_where (λ row. has_id ids row.id) w.outbox) ≡ none)
            (λ c h. find_row-delete_all c.id (λ row. has_id ids row.id) (λ a e. rw e h) w.outbox)
            (b ∷ items) (has_id_items (b ∷ items)),
      )
  where
    ids : List ℕ
    ids = map id_of (b ∷ items)

module _ (now limit : ℕ) (w : World) where
  length-cleanup_scan :
      length (cleanup_scan now limit w.outbox) ≤ (if limit == 0 then 100 else limit)
  unfolding cleanup_scan
  length-cleanup_scan = omega (
    arith,
    length-take (if limit == 0 then 100 else limit)
        (sort_by expires_before (select_where (is_disposable now) w.outbox)),
  )

  -- Over a table with a key, a cleanup that the database does not refuse deletes every row of its
  -- scan, and reports a number that is at most its limit, or a hundred if it has none.
  pub cleanup-deletes :
      IsKeyed w.outbox
      → let ((deleted, error), w') = cleanup now none none limit w in
        (error ≡ none)
        × (deleted ≤ (if limit == 0 then 100 else limit))
        × All (λ b. find_row b.id w'.outbox ≡ none) (cleanup_scan now limit w.outbox)
  unfolding cleanup
  cleanup-deletes keyed =
      let (ok, few, gone) = delete_ids-Deletes (cleanup_scan now limit w.outbox) w keyed in
      (ok, omega (arith, few, length-cleanup_scan), gone)
