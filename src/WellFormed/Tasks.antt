-- ===== src/WellFormed/Tasks.antt =====
-- The requests under way (`handle_proving_requests`, `handle_ongoing_tasks`,
-- `set_orphaned_tasks_to_failed` of validity/src/proposer.rs) keep the rows well-formed.
use mina_evm_l.Prelude.{
  ℕ, ◌≡◌, refl, not, Option, none, some, List, ◌++◌, ltb, All, All-filter, All-append,
}
use mina_evm_l.Request.{witness_generation, execution, prove, failed, Request, Config}
use mina_evm_l.World.{Task, TaskOutcome, running, finished_ok, finished_err, panicked}
use mina_evm_l.World.Safe.{
  Safe, Any, Safe-pure, Safe-fail, Safe-or_err, Safe-unwrap, Safe-gets, Safe-query, Safe-if,
  Safe-catch, Safe-execute, Safe-modify, Safe-bind, Safe-for_each,
}
use mina_evm_l.Env.{
  Env, FulfillmentStatus, unspecified_fulfillment, requested, assigned, fulfilled, unfulfillable,
  ProofKind, core, compressed, plonk, groth16,
}
use mina_evm_l.Proposer.Queue.{remove_task}
use mina_evm_l.Proposer.Tasks.{
  proof_bytes, on_fulfillment, status_of_id, process_proof_request_status, handle_proving_requests,
  retry, settle, finish_task, handle_ongoing_tasks, fail_orphan, set_orphaned_tasks_to_failed,
}
use mina_evm_l.WellFormed.Rows.{
  RowOk, IsWf, update_proof_to_complete-IsWf, update_prove_duration-IsWf,
  update_request_status-IsWf,
}
use mina_evm_l.WellFormed.Fetched.{fetch_requests_by_status-RowOk}
use mina_evm_l.WellFormed.Requests.{handle_failed_request-Safe}
use mina_evm_l.WellFormed.Ranges.{IsSane}

abbrev pub CopyOk : Task → Type 0
CopyOk t = RowOk t.request

pub All-remove_task :
    (id : ℕ) (tasks : List Task) → All CopyOk tasks → All CopyOk (remove_task id tasks)
unfolding remove_task
All-remove_task id tasks h = All-filter CopyOk _ tasks h

module _ {C : Type 0} (env : Env) (config : Config) where
  proof_bytes-Safe :
      (kind : ProofKind) (proof : env.Proof) → Safe C IsWf Any (proof_bytes env config kind proof)
  unfolding proof_bytes
  proof_bytes-Safe compressed proof = Safe-pure _ tt
  proof_bytes-Safe groth16 proof = Safe-pure _ tt
  proof_bytes-Safe plonk proof = Safe-pure _ tt
  proof_bytes-Safe core proof = Safe-fail _

  on_fulfillment-Safe :
      (status : FulfillmentStatus) (request : Request) (id : ℕ)
      → IsSane env
      → env.fulfillment_status id ≡ status
      → RowOk request
      → Safe C IsWf Any (on_fulfillment env config status request id)
  unfolding on_fulfillment
  on_fulfillment-Safe fulfilled request id sane e ok =
      Safe-bind {Q = Any} _ _
        (Safe-unwrap _ (λ absent. let there = sane.fulfilled_has_proof id e in cc) (λ _ _. tt))
        (λ proof _. Safe-bind _ _ (proof_bytes-Safe (env.kind proof) proof) (λ bytes _.
          Safe-bind _ _
            (Safe-execute _ (λ now db tasks. update_proof_to_complete-IsWf request.id bytes now db))
            (λ _ _. Safe-execute _ (λ now db tasks. update_prove_duration-IsWf request.id now db))))
  on_fulfillment-Safe unfulfillable request id sane e ok =
      handle_failed_request-Safe env config sane.data_small request _ ok
  on_fulfillment-Safe unspecified_fulfillment request id sane e ok = Safe-pure tt tt
  on_fulfillment-Safe requested request id sane e ok = Safe-pure tt tt
  on_fulfillment-Safe assigned request id sane e ok = Safe-pure tt tt

  status_of_id-Safe :
      (id : Option ℕ) (request : Request)
      → IsSane env
      → RowOk request
      → Safe C IsWf Any (status_of_id env config id request)
  unfolding status_of_id
  status_of_id-Safe none request sane ok = Safe-pure tt tt
  status_of_id-Safe (some id) request sane ok =
      Safe-if config.use_local_proving _ _ (λ _. Safe-pure tt tt)
        (λ _. Safe-bind {Q = Any} _ _ (Safe-or_err _ _ (λ _ _. tt)) (λ deadline _.
          Safe-if (ltb deadline (env.unix_time request.id)) _ _
            (λ _. handle_failed_request-Safe env config sane.data_small request _ ok)
            (λ _. on_fulfillment-Safe (env.fulfillment_status id) request id sane refl ok)))

  pub handle_proving_requests-Safe :
      IsSane env → Safe C IsWf Any (handle_proving_requests env config)
  unfolding handle_proving_requests process_proof_request_status
  handle_proving_requests-Safe sane =
      Safe-if config.use_local_proving _ _ (λ _. Safe-pure tt tt)
        (λ _.
          Safe-bind _ _
            (Safe-query _ (λ db tasks h. fetch_requests_by_status-RowOk prove _ _ _ db h))
            (λ requests ok.
              Safe-for_each requests _
                (λ request ok'. status_of_id-Safe request.proof_request_id request sane ok') ok))

  settle-Safe :
      (outcome : TaskOutcome) (request : Request)
      → IsSane env
      → RowOk request
      → Safe C IsWf Any (settle env config outcome request)
  unfolding settle retry
  settle-Safe running request sane ok = Safe-pure tt tt
  settle-Safe finished_ok request sane ok = Safe-pure tt tt
  settle-Safe finished_err request sane ok =
      Safe-catch _ _ (handle_failed_request-Safe env config sane.data_small request _ ok)
        (λ e. Safe-pure tt tt)
  settle-Safe panicked request sane ok =
      Safe-catch _ _ (handle_failed_request-Safe env config sane.data_small request _ ok)
        (λ e. Safe-pure tt tt)

  finish_task-Safe :
      (task : Task) → IsSane env → CopyOk task → Safe C IsWf Any (finish_task env config task)
  unfolding finish_task
  finish_task-Safe task sane ok =
      Safe-bind _ _
        (Safe-modify _
          (λ w h. record { rows = h.rows; copies = All-remove_task task.id w.tasks h.copies }))
        (λ _ _. settle-Safe task.outcome task.request sane ok)

  pub handle_ongoing_tasks-Safe : IsSane env → Safe C IsWf Any (handle_ongoing_tasks env config)
  unfolding handle_ongoing_tasks
  handle_ongoing_tasks-Safe sane =
      Safe-bind {Q = All CopyOk} _ _ (Safe-gets _ (λ w h. All-filter CopyOk _ w.tasks h.copies))
        (λ completed ok. Safe-for_each completed _ (λ task h. finish_task-Safe task sane h) ok)

  fail_orphan-Safe : (request : Request) → Safe C IsWf Any (fail_orphan env config request)
  unfolding fail_orphan
  fail_orphan-Safe request = Safe-bind {Q = Any} _ _ (Safe-gets _ (λ _ _. tt)) (λ known _.
      Safe-if (not known) _ _
        (λ _.
          Safe-execute _ (λ now db tasks.
            update_request_status-IsWf request.id failed (λ e. cc) (λ e. cc) now db))
        (λ _. Safe-pure tt tt))

  pub set_orphaned_tasks_to_failed-Safe : Safe C IsWf Any (set_orphaned_tasks_to_failed env config)
  unfolding set_orphaned_tasks_to_failed
  set_orphaned_tasks_to_failed-Safe =
      Safe-bind _ _
        (Safe-query _ (λ db tasks h. fetch_requests_by_status-RowOk witness_generation _ _ _ db h))
        (λ waiting ok.
          Safe-bind _ _
            (Safe-query _ (λ db tasks h. fetch_requests_by_status-RowOk execution _ _ _ db h))
            (λ executing ok'.
              Safe-for_each (waiting ++ executing) _ (λ r _. fail_orphan-Safe r)
                (All-append RowOk waiting executing ok ok')))
