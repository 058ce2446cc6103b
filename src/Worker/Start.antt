-- ===== src/Worker/Start.antt =====
-- A task is started once.
use article_sentinel.Base.{
  ℕ, false, ◌≡◌, refl, arith, Option, none, List, [], ◌∷◌, update_where, rows_affected,
}
use article_sentinel.Text.{Text, text_eq, codes}
use article_sentinel.Domain.TaskStatus
use article_sentinel.Model.{InspectionTask}
use article_sentinel.Worker.{
  World, task_not_pending, started, not_started, startable, set_running, start_task,
}

running-pending : text_eq TaskStatus.running TaskStatus.pending ≡ false
unfolding text_eq codes
running-pending = refl

-- After the update no row of the task is pending.
none_startable :
    (now task_id org_id : ℕ) (rows : List InspectionTask)
    → rows_affected
        (startable task_id org_id)
        (update_where (startable task_id org_id) (set_running now) rows)
      ≡ 0
none_startable now task_id org_id [] = refl
none_startable now task_id org_id (a ∷ rows) =
    ground (arith, running-pending, none_startable now task_id org_id rows)

-- Once a task has been started, a further start of it whose update the database takes is refused
-- and changes nothing.
pub start_task-once :
    (now now' task_id org_id : ℕ) (read_error : Option Text) (task : InspectionTask) (w : World)
    → (start_task now none read_error task_id org_id w).0 ≡ started task
    → (read_error' : Option Text)
    → let w' = (start_task now none read_error task_id org_id w).1 in
      start_task now' none read_error' task_id org_id w' ≡ (not_started task_not_pending, w')
unfolding start_task
start_task-once now now' task_id org_id read_error task w first read_error' =
    ground (arith, none_startable now task_id org_id w.tasks)
