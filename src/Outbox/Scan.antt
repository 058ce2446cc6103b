-- ===== src/Outbox/Scan.antt =====
-- What the scan of `DispatchPending` selects.
use article_sentinel.Base.{
  ℕ, zero, suc, Bool, ◌≡◌, sym, ◌≢◌, inl, inr, arith, none, some, List, [], ◌∷◌, ◌==◌, ==_refl,
  Bool-cases, take, All, All-take, All-sort_by, All-insert_by, select_where, insert_by, sort_by,
  All-select_where,
}
use article_sentinel.Text.{text_eq, codes}
use article_sentinel.Outbox.{Message}
use article_sentinel.Outbox.Codec.{is_dispatchable_message}
use article_sentinel.Outbox.Pending.{is_relayable, relays_before, relay_scan}
use article_sentinel.Outbox.Row.{find_row}
use article_sentinel.Outbox.Status.{
  IsKnown, status_case-pending, status_case-claimed, status_case-dispatched,
  status_case-dead_letter,
}
use article_sentinel.Outbox.Keyed.{IsKeyed}

-- On a row with a known status, the condition of the SQL scan and the test in Go agree.
pub relayable-dispatchable :
    (now : ℕ) (m : Message) → IsKnown m.status → is_relayable now m ≡ is_dispatchable_message m now
unfolding is_relayable is_dispatchable_message text_eq codes
relayable-dispatchable now m (inl s) = rw s (ground (arith, status_case-pending))
relayable-dispatchable now m (inr (inl s)) = ground (arith, status_case-claimed)
relayable-dispatchable now m (inr (inr (inl s))) = ground (arith, status_case-dispatched)
relayable-dispatchable now m (inr (inr (inr s))) = ground (arith, status_case-dead_letter)

-- No id occurs twice.
abbrev pub DistinctIds : List Message → Type 0
DistinctIds [] = Unit
DistinctIds (a ∷ rows) = All (λ b. a.id ≢ b.id) rows × DistinctIds rows

insert_by-DistinctIds :
    (before : Message → Message → Bool) (a : Message) (rows : List Message)
    → All (λ b. a.id ≢ b.id) rows
    → DistinctIds rows
    → DistinctIds (insert_by before a rows)
insert_by-DistinctIds before a [] fresh d = (tt, tt)
insert_by-DistinctIds before a (b ∷ rows) fresh d = elim (Bool-cases (before a b)) [
  | inl e ↦ rw e (fresh, d)
  | inr e ↦ rw e (
    All-insert_by (λ c. b.id ≢ c.id) before a rows (λ q. fresh.0 (sym q)) d.0,
    insert_by-DistinctIds before a rows fresh.1 d.1,
  )
]

pub sort_by-DistinctIds :
    (before : Message → Message → Bool) (rows : List Message)
    → DistinctIds rows
    → DistinctIds (sort_by before rows)
sort_by-DistinctIds before [] d = tt
sort_by-DistinctIds before (a ∷ rows) d =
    insert_by-DistinctIds before a (sort_by before rows)
      (All-sort_by (λ b. a.id ≢ b.id) before rows d.0) (sort_by-DistinctIds before rows d.1)

pub take-DistinctIds : (n : ℕ) (rows : List Message) → DistinctIds rows → DistinctIds (take n rows)
take-DistinctIds zero rows d = tt
take-DistinctIds (suc n) [] d = tt
take-DistinctIds (suc n) (a ∷ rows) d =
    (All-take (λ b. a.id ≢ b.id) n rows d.0, take-DistinctIds n rows d.1)

fresh_of_missing : (i : ℕ) (rows : List Message) → find_row i rows ≡ none → All (λ b. i ≢ b.id) rows
fresh_of_missing i [] h = tt
fresh_of_missing i (b ∷ rows) h = elim (Bool-cases (b.id == i)) [
  | inl same ↦ let bad : some b ≡ none = rw same at h in cc
  | inr other ↦ (λ e. ground arith, fresh_of_missing i rows (rw other at h))
]

pub IsKeyed-DistinctIds : (rows : List Message) → IsKeyed rows → DistinctIds rows
IsKeyed-DistinctIds [] k = tt
IsKeyed-DistinctIds (a ∷ rows) k = (fresh_of_missing a.id rows k.0, IsKeyed-DistinctIds rows k.1)

pub select_where-DistinctIds :
    (p : Message → Bool) (rows : List Message)
    → DistinctIds rows
    → DistinctIds (select_where p rows)
select_where-DistinctIds p [] d = tt
select_where-DistinctIds p (a ∷ rows) d = elim (Bool-cases (p a)) [
  | inl e ↦
      rw e (All-select_where (λ b. a.id ≢ b.id) p rows d.0, select_where-DistinctIds p rows d.1)
  | inr e ↦ rw e (select_where-DistinctIds p rows d.1)
]

-- Each row of a table with a key is found by it.
pub found_by_key :
    (rows : List Message) → DistinctIds rows → All (λ a. find_row a.id rows ≡ some a) rows
found_by_key [] d = tt
found_by_key (a ∷ rows) d = (rw (==_refl a.id), later rows d.0 (found_by_key rows d.1))
  where
    later :
        (bs : List Message)
        → All (λ b. a.id ≢ b.id) bs
        → All (λ b. find_row b.id rows ≡ some b) bs
        → All (λ b. find_row b.id (a ∷ rows) ≡ some b) bs
    later [] fresh found = tt
    later (b ∷ bs) fresh found = (ground arith, later bs fresh.1 found.1)

module _ (now limit : ℕ) (rows : List Message) (keyed : IsKeyed rows) where
  pub relay_scan-DistinctIds : DistinctIds (relay_scan now limit rows)
  unfolding relay_scan
  relay_scan-DistinctIds = take-DistinctIds _ _ (
      sort_by-DistinctIds relays_before (select_where (is_relayable now) rows)
        (select_where-DistinctIds (is_relayable now) rows (IsKeyed-DistinctIds rows keyed)))

  -- What holds of every row of the table holds of the scanned ones.
  pub relay_scan-All {κ} : (P : Message → Type κ) → All P rows → All P (relay_scan now limit rows)
  unfolding relay_scan
  relay_scan-All P h = All-take P _ _ (
      All-sort_by P relays_before (select_where (is_relayable now) rows)
        (All-select_where P (is_relayable now) rows h))

  pub relay_scan-found : All (λ a. find_row a.id rows ≡ some a) (relay_scan now limit rows)
  relay_scan-found =
      relay_scan-All (λ a. find_row a.id rows ≡ some a)
        (found_by_key rows (IsKeyed-DistinctIds rows keyed))
