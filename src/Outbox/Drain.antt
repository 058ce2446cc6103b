-- ===== src/Outbox/Drain.antt =====
-- A pass of `DispatchPending` over an outbox whose due rows all fit in it, with a queue that accepts.
use article_sentinel.Base.{
  ℕ, zero, suc, ◌≤◌, ◌<◌, ==_iff, first_where-holds, Bool, true, ◌≡◌, ◌≢◌, refl, arith, none, some,
  List, [], ◌∷◌, All, take, length, select_where, insert_by, sort_by, rows_affected, ◌==◌,
  Bool-cases, inl, inr, All-take, All-sort_by, All-first_where, select_where-holds, Option, sym,
  false, ◌∙◌,
}
use article_sentinel.Text.{text_eq, trim_space}
use article_sentinel.Domain.{message_type_run_task}
use article_sentinel.Domain.OutboxStatus
use article_sentinel.Outbox.{Message, TaskOutboxRelay, Payload, decoded, Env, World}
use article_sentinel.Outbox.Codec.{is_dispatchable_message, is_due, is_lapsed}
use article_sentinel.Outbox.Pending.{
  dispatch_pending, relay_scan, relays_before, is_relayable, with_envs,
}
use article_sentinel.Outbox.Row.{find_row, row_step, verdict, settle}
use article_sentinel.Outbox.Status.{IsKnown}
use article_sentinel.Outbox.Keyed.{IsKeyed}
use article_sentinel.Outbox.Consistent.{IsDispatched}
use article_sentinel.Outbox.Scan.{relayable-dispatchable, relay_scan-All}
use article_sentinel.Outbox.Batch.{IsSettled, dispatch_pending-IsSettled}

-- The clock of a dispatch is not before the scan, and the database refuses none of its statements.
abbrev pub Serves : ℕ → Env → Type 0
Serves now env =
    (now ≤ env.now)
    × (env.load_error ≡ none)
    × (env.reload_error ≡ none)
    × (env.claim_error ≡ none)
    × (env.finish_error ≡ none)

-- The message is one to run a task, and the dispatcher accepts its payload.
abbrev pub Accepts : Env → Message → Type 0
Accepts env a =
    (text_eq (trim_space a.message_type) message_type_run_task ≡ true)
    × (p : Payload) × (env.decode a.payload ≡ decoded p)
    × (env.dispatch p ≡ none)

module _ {ℓ} {A : Type ℓ} where
  take-all : (n : ℕ) (xs : List A) → length xs ≤ n → take n xs ≡ xs
  take-all zero [] h = refl
  take-all zero (x ∷ xs) h = absurd (omega arith)
  take-all (suc n) [] h = refl
  take-all (suc n) (x ∷ xs) h = rw (take-all n xs (omega arith)) refl

  module _ (before : A → A → Bool) where
    length-insert_by : (a : A) (xs : List A) → length (insert_by before a xs) ≡ suc (length xs)
    length-insert_by a [] = refl
    length-insert_by a (x ∷ xs) = ground (arith, length-insert_by a xs)

    length-sort_by : (xs : List A) → length (sort_by before xs) ≡ length xs
    length-sort_by [] = refl
    length-sort_by (x ∷ xs) =
        let i = length-insert_by x (sort_by before xs) in let s = length-sort_by xs in omega arith

    All-inserted {κ} :
        (P : A → Type κ) (a : A) (xs : List A) → All P (insert_by before a xs) → P a × All P xs
    All-inserted P a [] h = h
    All-inserted P a (x ∷ xs) h = elim (Bool-cases (before a x)) [
      | inl e ↦ rw e at h
      | inr e ↦
          let h' : P x × All P (insert_by before a xs) = rw e at h in
          let (pa, rest) = All-inserted P a xs h'.1 in (pa, (h'.0, rest))
    ]

    All-sorted {κ} : (P : A → Type κ) (xs : List A) → All P (sort_by before xs) → All P xs
    All-sorted P [] h = h
    All-sorted P (x ∷ xs) h =
        let (px, rest) = All-inserted P x (sort_by before xs) h in (px, All-sorted P xs rest)

  module _ (p : A → Bool) where
    length-select_where : (xs : List A) → length (select_where p xs) ≡ rows_affected p xs
    length-select_where [] = refl
    length-select_where (x ∷ xs) = ground (arith, length-select_where xs)

    All-selected {κ} :
        (P : A → Type κ) (xs : List A) → All P (select_where p xs) → All (λ x. p x ≡ true → P x) xs
    All-selected P [] h = tt
    All-selected P (x ∷ xs) h = elim (Bool-cases (p x)) [
      | inl e ↦
          let h' : P x × All P (select_where p xs) = rw e at h in
          (λ t. h'.0, All-selected P xs h'.1)
      | inr e ↦ (λ t. absurd (ground arith), All-selected P xs (rw e at h))
    ]

due_later : (now t : ℕ) (at : Option ℕ) → now ≤ t → is_due now at ≡ true → is_due t at ≡ true
due_later now t none h d = refl
due_later now t (some at) h d = ground arith

lapsed_later :
    (now t : ℕ) (at : Option ℕ) → now ≤ t → is_lapsed now at ≡ true → is_lapsed t at ≡ true
lapsed_later now t none h d = refl
lapsed_later now t (some at) h d = ground arith

-- A row that is due at the scan is due later.
relayable_later :
    (now t : ℕ) (a : Message)
    → now ≤ t
    → IsKnown a.status
    → is_relayable now a ≡ true
    → is_dispatchable_message a t ≡ true
unfolding is_dispatchable_message
relayable_later now t a h known due =
    let d : is_dispatchable_message a now ≡ true = sym (relayable-dispatchable now a known) ∙ due in
    let p = due_later now t a.next_attempt_at h in
    let l = lapsed_later now t a.claim_until h in ground arith

accepted_step :
    (r : TaskOutboxRelay) (env : Env) (now : ℕ) (a : Message)
    → Serves now env
    → Accepts env a
    → is_dispatchable_message a env.now ≡ true
    → (row_step r env a).row.status ≡ OutboxStatus.dispatched
unfolding row_step settle verdict
accepted_step r env now a (late, load, reload, claim, finish) (run, p, json, sent) ready =
    rw (ready, claim, finish, json, run, sent, row_step, settle, verdict) refl

module _ (r : TaskOutboxRelay) (now limit : ℕ) (envs : ℕ → Env) (w : World)
    (serves : (i : ℕ) → Serves now (envs i)) where
  -- What each scanned row has come to.
  settled_items :
      (w' : World) (k : ℕ) (rows : List Message)
      → All (IsSettled r w') (with_envs envs k rows)
      → All (λ a. IsKnown a.status × (a.id ≢ 0)) rows
      → All (λ a. is_relayable now a ≡ true) rows
      → All (λ a. (i : ℕ) → Accepts (envs i) a) rows
      → All (λ a. IsDispatched a.id w') rows
  unfolding with_envs
  settled_items w' k [] settled known due accepts = tt
  settled_items w' k (a ∷ rows) settled known due accepts =
      let ready = relayable_later now (envs k).now a (serves k).0 known.0.0 due.0 in
      (
        (
          (row_step r (envs k) a).row,
          settled.0,
          accepted_step r (envs k) now a (serves k) (accepts.0 k) ready,
        ),
        settled_items w' (suc k) rows settled.1 known.1 due.1 accepts.1,
      )

  scan_due : All (λ a. is_relayable now a ≡ true) (relay_scan now limit w.outbox)
  unfolding relay_scan
  scan_due =
      All-take (λ a. is_relayable now a ≡ true) _ _
        (All-sort_by (λ a. is_relayable now a ≡ true) relays_before
          (select_where (is_relayable now) w.outbox)
          (select_where-holds (is_relayable now) w.outbox))

  -- A scan that all due rows fit in has them all.
  scan_complete {κ} :
      (P : Message → Type κ)
      → rows_affected (is_relayable now) w.outbox ≤ limit
      → 0 < limit
      → All P (relay_scan now limit w.outbox)
      → All (λ a. is_relayable now a ≡ true → P a) w.outbox
  unfolding relay_scan
  scan_complete P fits pos h =
      let due = select_where (is_relayable now) w.outbox in
      let n : (limit == 0) ≡ false = let e = ==_iff limit 0 in ground arith in
      let s = length-sort_by relays_before due in
      let l = length-select_where (is_relayable now) w.outbox in
      let all = take-all limit (sort_by relays_before due) (omega arith) in
      All-selected (is_relayable now) P w.outbox
        (All-sorted relays_before P due (let h' = rw n at h in rw all at h'))

  -- With a dispatcher, over a table with a key, ids other than 0 and known statuses, if no more
  -- rows are due than the limit of the pass, the database refuses no statement, no clock runs back
  -- and the dispatcher accepts the payload of each row, all of them messages to run a task, every
  -- row that is due when the pass begins is dispatched when it ends, without an error.
  pub dispatch_pending-drains :
      r.has_dispatcher ≡ true
      → IsKeyed w.outbox
      → All (λ a. IsKnown a.status × (a.id ≢ 0)) w.outbox
      → All (λ a. (i : ℕ) → Accepts (envs i) a) w.outbox
      → 0 < limit
      → rows_affected (is_relayable now) w.outbox ≤ limit
      → (i : ℕ) (a : Message) → find_row i w.outbox ≡ some a
      → is_relayable now a ≡ true
      → let (result, w') = dispatch_pending r now none envs limit w in
        (result.1 ≡ none) × IsDispatched i w'
  dispatch_pending-drains can keyed known accepts pos fits i a found due =
      let (ended, settled) =
        dispatch_pending-IsSettled r now limit envs w can keyed known
          (λ j. ((serves j).1, (serves j).2)) in
      let w' = (dispatch_pending r now none envs limit w).1 in
      let scanned =
        settled_items w' 0 (relay_scan now limit w.outbox) settled
          (relay_scan-All now limit w.outbox keyed (λ b. IsKnown b.status × (b.id ≢ 0)) known)
          scan_due
          (relay_scan-All now limit w.outbox keyed (λ b. (j : ℕ) → Accepts (envs j) b) accepts) in
      let rows = scan_complete (λ b. IsDispatched b.id w') fits pos scanned in
      let done =
        All-first_where (λ b. is_relayable now b ≡ true → IsDispatched b.id w') (λ b. b.id == i)
          w.outbox {a = a} rows found due in
      let key : a.id ≡ i =
        (==_iff a.id i).0 (first_where-holds (λ b. b.id == i) w.outbox {a = a} found) in
      (ended, rw key at done)
