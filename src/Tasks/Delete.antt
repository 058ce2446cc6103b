-- ===== src/Tasks/Delete.antt =====
-- tasks/service.go: `Delete`.
use mathlib.Core.Path.{subst}
use article_sentinel.Base.{
  sym, ap, ℕ, Bool, true, ◌&&◌, ◌||◌, ◌≡◌, ◌≢◌, ◌⊎◌, inl, inr, refl, arith, Option, none, some,
  List, ◌==◌, if◌then◌else◌, first_where, delete_where, rows_affected, rows_affected-delete,
  delete-delete, Option-cases, Bool-cases,
}
use article_sentinel.Text.{Text, text_eq, trim_space}
use article_sentinel.Domain.TaskStatus
use article_sentinel.Model.{InspectionTask}
use article_sentinel.Tasks.{
  World, TaskError, invalid_task_input, task_not_found, task_delete_not_allowed, database,
}

unfoldable pub task_can_be_deleted : Text → Bool
task_can_be_deleted status =
    text_eq (trim_space status) TaskStatus.pending || text_eq (trim_space status) TaskStatus.failed

-- `orgid = ? AND id = ?`
abbrev pub same_task : ℕ → ℕ → InspectionTask → Bool
same_task org_id task_id row = row.org_id == org_id && row.id == task_id

-- `orgid = ? AND task_id = ?`, for a row with these columns.
abbrev pub belongs : ℕ → ℕ → ℕ → ℕ → Bool
belongs org_id task_id row_org_id row_task_id = row_org_id == org_id && row_task_id == task_id

-- The eight deletions.
abbrev pub delete_rows : ℕ → ℕ → World → World
delete_rows org_id task_id w = record w {
  task_keywords = delete_where (λ r. belongs org_id task_id r.org_id r.task_id) w.task_keywords;
  outbox = delete_where (λ r. belongs org_id task_id r.org_id r.task_id) w.outbox;
  result_hits = delete_where (λ r. belongs org_id task_id r.org_id r.task_id) w.result_hits;
  results = delete_where (λ r. belongs org_id task_id r.org_id r.task_id) w.results;
  operation_logs = delete_where (λ r. belongs org_id task_id r.org_id r.task_id) w.operation_logs;
  field_change_logs =
      delete_where (λ r. belongs org_id task_id r.org_id r.task_id) w.field_change_logs;
  actions = delete_where (λ r. belongs org_id task_id r.org_id r.task_id) w.actions;
  tasks = delete_where (same_task org_id task_id) w.tasks;
}

-- One transaction: an error in any of its statements, here `refused`, undoes all of them.
unfoldable pub delete_task_graph : Option Text → ℕ → ℕ → World → Option TaskError × World
delete_task_graph refused org_id task_id w = elim refused [
  | some e ↦ (some (database e), w)
  | none ↦
      if rows_affected (same_task org_id task_id) w.tasks == 0
      then (some task_not_found, w)
      else (none, delete_rows org_id task_id w)
]

unfoldable pub delete_task : Option Text → Option Text → ℕ → ℕ → World → Option TaskError × World
unfolding delete_task_graph task_can_be_deleted
delete_task read_error refused org_id task_id w =
    if org_id == 0 || task_id == 0 then (some invalid_task_input, w) else elim read_error [
      | some e ↦ (some (database e), w)
      | none ↦ elim (first_where (same_task org_id task_id) w.tasks) [
        | none ↦ (some task_not_found, w)
        | some task ↦
            if task_can_be_deleted task.status
            then delete_task_graph refused org_id task_id w
            else (some task_delete_not_allowed, w)
      ]
    ]

-- No row that `p` selects is left, and no other is gone.
abbrev Clears {ℓ} : {A : Type ℓ} → (A → Bool) → List A → List A → Type ℓ
Clears p rows rows' = (rows_affected p rows' ≡ 0) × (delete_where p rows' ≡ delete_where p rows)

clears {ℓ} : {A : Type ℓ} (p : A → Bool) (rows : List A) → Clears p rows (delete_where p rows)
clears p rows = (rows_affected-delete p rows, delete-delete p rows)

-- Of a task that could be deleted nothing is left in any table, and nothing else has changed.
abbrev pub IsCleared : ℕ → ℕ → World → World → Type 0
IsCleared org_id task_id w w' =
    ((task : InspectionTask) × (first_where (same_task org_id task_id) w.tasks ≡ some task)
      × (task_can_be_deleted task.status ≡ true))
    × Clears (same_task org_id task_id) w.tasks w'.tasks
    × Clears (λ r. belongs org_id task_id r.org_id r.task_id) w.task_keywords w'.task_keywords
    × Clears (λ r. belongs org_id task_id r.org_id r.task_id) w.outbox w'.outbox
    × Clears (λ r. belongs org_id task_id r.org_id r.task_id) w.result_hits w'.result_hits
    × Clears (λ r. belongs org_id task_id r.org_id r.task_id) w.results w'.results
    × Clears (λ r. belongs org_id task_id r.org_id r.task_id) w.operation_logs w'.operation_logs
    × Clears (λ r. belongs org_id task_id r.org_id r.task_id) w.field_change_logs
        w'.field_change_logs
    × Clears (λ r. belongs org_id task_id r.org_id r.task_id) w.actions w'.actions

cleared :
    (org_id task_id : ℕ) (task : InspectionTask) (w : World)
    → first_where (same_task org_id task_id) w.tasks ≡ some task
    → task_can_be_deleted task.status ≡ true
    → IsCleared org_id task_id w (delete_rows org_id task_id w)
cleared org_id task_id task w found may = (
  (task, found, may),
  clears (same_task org_id task_id) w.tasks,
  clears (λ r. belongs org_id task_id r.org_id r.task_id) w.task_keywords,
  clears (λ r. belongs org_id task_id r.org_id r.task_id) w.outbox,
  clears (λ r. belongs org_id task_id r.org_id r.task_id) w.result_hits,
  clears (λ r. belongs org_id task_id r.org_id r.task_id) w.results,
  clears (λ r. belongs org_id task_id r.org_id r.task_id) w.operation_logs,
  clears (λ r. belongs org_id task_id r.org_id r.task_id) w.field_change_logs,
  clears (λ r. belongs org_id task_id r.org_id r.task_id) w.actions,
)

abbrev IsOutcome : ℕ → ℕ → World → Option TaskError × World → Type 0
IsOutcome org_id task_id w t =
    ((t.0 ≡ none) × IsCleared org_id task_id w t.1) ⊎ ((t.0 ≢ none) × (t.1 ≡ w))

refused-IsOutcome :
    (org_id task_id : ℕ) (w : World) (e : TaskError) (t : Option TaskError × World)
    → t ≡ (some e, w)
    → IsOutcome org_id task_id w t
refused-IsOutcome org_id task_id w e t h =
    inr (let h0 = ap (λ x. x.0) h in ground arith, ap (λ x. x.1) h)

delete_task_graph-IsOutcome :
    (refused : Option Text) (org_id task_id : ℕ) (task : InspectionTask) (w : World)
    → first_where (same_task org_id task_id) w.tasks ≡ some task
    → task_can_be_deleted task.status ≡ true
    → IsOutcome org_id task_id w (delete_task_graph refused org_id task_id w)
unfolding delete_task_graph
delete_task_graph-IsOutcome (some e) org_id task_id task w found may =
    refused-IsOutcome org_id task_id w (database e) _ refl
delete_task_graph-IsOutcome none org_id task_id task w found may =
    elim (Bool-cases (rows_affected (same_task org_id task_id) w.tasks == 0)) [
      | inl e ↦ refused-IsOutcome org_id task_id w task_not_found _ (ground arith)
      | inr e ↦
          let eq : delete_task_graph none org_id task_id w ≡ (none, delete_rows org_id task_id w) =
            ground arith in
          subst (IsOutcome org_id task_id w) (sym eq)
            (inl (refl, cleared org_id task_id task w found may))
    ]

-- Deleting a task either fails and changes nothing, or the task was pending or failed, nothing is
-- left of it in any of the eight tables, and no other row is gone.
pub delete_task-IsCleared :
    (read_error refused : Option Text) (org_id task_id : ℕ) (w : World)
    → let (e, w') = delete_task read_error refused org_id task_id w in
      ((e ≡ none) × IsCleared org_id task_id w w') ⊎ ((e ≢ none) × (w' ≡ w))
unfolding delete_task
delete_task-IsCleared read_error refused org_id task_id w =
    elim (Bool-cases (org_id == 0 || task_id == 0)) [
      | inl e ↦
          refused-IsOutcome org_id task_id w invalid_task_input
            (delete_task read_error refused org_id task_id w) (ground arith)
      | inr e ↦ elim (Option-cases read_error) [
        | inr (x, r) ↦
            refused-IsOutcome org_id task_id w (database x)
              (delete_task read_error refused org_id task_id w) (ground arith)
        | inl r ↦ elim (Option-cases (first_where (same_task org_id task_id) w.tasks)) [
          | inl f ↦
              refused-IsOutcome org_id task_id w task_not_found
                (delete_task read_error refused org_id task_id w) (ground arith)
          | inr (task, f) ↦ elim (Bool-cases (task_can_be_deleted task.status)) [
            | inr m ↦
                refused-IsOutcome org_id task_id w task_delete_not_allowed
                  (delete_task read_error refused org_id task_id w) (ground arith)
            | inl m ↦
                let eq : delete_task read_error refused org_id task_id w
                    ≡ delete_task_graph refused org_id task_id w =
                  ground arith in
                subst (IsOutcome org_id task_id w) (sym eq)
                  (delete_task_graph-IsOutcome refused org_id task_id task w f m)
          ]
        ]
      ]
    ]
