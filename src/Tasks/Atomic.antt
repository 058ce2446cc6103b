-- ===== src/Tasks/Atomic.antt =====
-- tasks/service.go: a task and its outbox message are written together, and agree.
use mathlib.Core.Path.{subst}
use article_sentinel.Base.{
  true, ◌+◌, ◌≡◌, ◌⊎◌, inl, inr, refl, sym, ap, arith, [], ◌∷◌, ◌++◌, Option-cases,
}
use article_sentinel.Domain.{message_type_run_task}
use article_sentinel.Domain.TaskStatus
use article_sentinel.Domain.OutboxStatus
use article_sentinel.Outbox.{Payload}
use article_sentinel.Tasks.{World, TaskError, database}
use article_sentinel.Tasks.Create.{
  CreateInspectionTaskInput, Env, PreparedTaskCreate, Prepared, prepared, not_prepared,
  prepare_task_create, new_task, persist_prepared_task_graph, new_message, created_task, Created,
  created, not_created, create_with_outbox,
}

-- The rows that a creation leaves.
abbrev pub IsCreated : Env → CreateInspectionTaskInput → World → World → Created → Type 0
IsCreated env input w w' (not_created e) = w' ≡ w
IsCreated env input w w' (created task message) =
    (w'.tasks ≡ w.tasks ++ task ∷ [])
    × (w'.outbox ≡ w.outbox ++ message ∷ [])
    × (task.status ≡ TaskStatus.pending)
    × (task.org_id ≡ input.org_id)
    × (task.include_body ≡ env.stored true input.include_body)
    × (message.status ≡ OutboxStatus.pending)
    × (message.message_type ≡ message_type_run_task)
    × (message.task_id ≡ task.id)
    × (message.org_id ≡ task.org_id)
    × ((p : Payload) × (message.payload ≡ env.marshal_payload p)
        × (p.task_id ≡ task.id)
        × (p.org_id ≡ task.org_id))

Prepared-cases :
    (p : Prepared)
    → ((e : TaskError) × (p ≡ not_prepared e)) ⊎ ((q : PreparedTaskCreate) × (p ≡ prepared q))
Prepared-cases (not_prepared e) = inl (e, refl)
Prepared-cases (prepared q) = inr (q, refl)

prepare_task_create-agrees :
    (env : Env) (input : CreateInspectionTaskInput) (p : PreparedTaskCreate)
    → prepare_task_create env input ≡ prepared p
    → (p.task.status ≡ TaskStatus.pending)
      × (p.task.org_id ≡ input.org_id)
      × (p.task.include_body ≡ input.include_body)
      × (p.payload.org_id ≡ input.org_id)
unfolding prepare_task_create new_task
prepare_task_create-agrees env input p h = ground arith

abbrev IsOutcome : Env → CreateInspectionTaskInput → World → Created × World → Type 0
IsOutcome env input w t = IsCreated env input w t.1 t.0

-- A creation either fails and writes nothing, or adds one pending task of the organisation, with the
-- `include_body` that the database stores of the input under the default true, and one pending
-- message to run it, which names the task and the organisation and whose payload does too.
pub create_with_outbox-IsCreated :
    (env : Env) (input : CreateInspectionTaskInput) (w : World)
    → let (c, w') = create_with_outbox env input w in IsCreated env input w w' c
unfolding create_with_outbox persist_prepared_task_graph
create_with_outbox-IsCreated env input w = elim (Prepared-cases (prepare_task_create env input)) [
  | inl (e, h) ↦
      let eq : create_with_outbox env input w ≡ (not_created e, w) = ground arith in
      subst (IsOutcome env input w) (sym eq) refl
  | inr (p, h) ↦ elim (Option-cases env.refused) [
    | inr (x, r) ↦
        let eq : create_with_outbox env input w ≡ (not_created (database x), w) = ground arith in
        subst (IsOutcome env input w) (sym eq) refl
    | inl r ↦
        let m = new_message env w.next_outbox_id w.next_task_id p in
        let w1 = persist_prepared_task_graph env p w in
        let w' = record w1 {
          outbox = w1.outbox ++ m ∷ [];
          next_outbox_id = w1.next_outbox_id + 1;
        } in
        let eq : create_with_outbox env input w
            ≡ (created (created_task env w.next_task_id p.task) m, w') =
          ground arith in
        let (pending, org, body, payload) = prepare_task_create-agrees env input p h in
        subst (IsOutcome env input w) (sym eq) (
          refl,
          refl,
          pending,
          org,
          ap (env.stored true) body,
          refl,
          refl,
          refl,
          refl,
          (
            record p.payload { task_id = w.next_task_id },
            refl,
            refl,
            let e = sym org in ground arith,
          ),
        )
  ]
]
