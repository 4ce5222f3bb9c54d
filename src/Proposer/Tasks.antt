-- ===== src/Proposer/Tasks.antt =====
-- Requests under way: `handle_proving_requests`, `process_proof_request_status`,
-- `handle_ongoing_tasks` and `set_orphaned_tasks_to_failed` of validity/src/proposer.rs.
pub mod Orphans
pub mod Settled
pub mod Processed
use mina_evm_l.Prelude.{
  ℕ, Bool, true, false, not, Option, none, some, List, [], ◌∷◌, ◌++◌, ◌==◌, ltb, if◌then◌else◌,
  filter, count_if,
}
use mina_evm_l.Request.{B256, Bytes, witness_generation, execution, prove, failed, Request, Config}
use mina_evm_l.Db.Queries.{fetch_requests_by_status}
use mina_evm_l.Db.Updates.{update_proof_to_complete, update_prove_duration, update_request_status}
use mina_evm_l.World.{
  Task, TaskOutcome, running, finished_ok, finished_err, panicked, Exec, pure, fail, gets, or_err,
  unwrap, query, execute, modify, catch, for_each, ◌>>=◌, ◌>>◌, rpc_error, core_proof,
}
use mina_evm_l.Env.{
  Env, FulfillmentStatus, fulfilled, unfulfillable, unspecified_execution, ProofKind, core,
  compressed, plonk, groth16,
}
use mina_evm_l.Requester.{handle_failed_request}
use mina_evm_l.Proposer.Queue.{remove_task}

abbrev pub is_finished : TaskOutcome → Bool
is_finished running = false
is_finished _ = true

-- `tasks.contains_key(id)`
abbrev pub has_task : ℕ → List Task → Bool
has_task id tasks = ltb 0 (count_if (λ t. t.id == id) tasks)

module _ (env : Env) (config : Config) where
  -- What is stored of a proof, by its kind.
  unfoldable pub proof_bytes : ProofKind → env.Proof → Exec Bytes
  proof_bytes compressed proof = pure (env.serialize proof)
  proof_bytes groth16 proof = pure (env.onchain_bytes proof)
  proof_bytes plonk proof = pure (env.onchain_bytes proof)
  proof_bytes core proof = fail core_proof

  unfoldable pub on_fulfillment : FulfillmentStatus → Request → B256 → Exec (Unit {0})
  unfolding proof_bytes
  on_fulfillment fulfilled request id = do
    proof ← unwrap (env.fulfilled_proof id)
    bytes ← proof_bytes (env.kind proof) proof
    execute (update_proof_to_complete request.id bytes)
    execute (update_prove_duration request.id)
  on_fulfillment unfulfillable request id =
      handle_failed_request env config request (env.execution_status id)
  on_fulfillment _ request id = pure tt

  -- A request with no proof id is only logged.
  unfoldable pub status_of_id : Option B256 → Request → Exec (Unit {0})
  unfolding on_fulfillment
  status_of_id none request = pure tt
  status_of_id (some id) request = if config.use_local_proving then pure tt else (do
    deadline ← or_err rpc_error (env.deadline id)
    if ltb deadline (env.unix_time request.id)
        then handle_failed_request env config request (env.execution_status id)
        else on_fulfillment (env.fulfillment_status id) request id)

  unfoldable pub process_proof_request_status : Request → Exec (Unit {0})
  unfolding status_of_id
  process_proof_request_status request = status_of_id request.proof_request_id request

  unfoldable pub handle_proving_requests : Exec (Unit {0})
  handle_proving_requests = if config.use_local_proving then pure tt else (do
    prove_requests ←
        query
          (fetch_requests_by_status prove config.commitments config.l1_chain_id config.l2_chain_id)
    for_each prove_requests process_proof_request_status)

  -- An error of the retry is only logged.
  unfoldable pub retry : Request → Exec (Unit {0})
  retry request =
      catch (handle_failed_request env config request unspecified_execution) (λ e. pure tt)

  unfoldable pub settle : TaskOutcome → Request → Exec (Unit {0})
  unfolding retry
  settle finished_err request = retry request
  settle panicked request = retry request
  settle _ request = pure tt

  unfoldable pub finish_task : Task → Exec (Unit {0})
  unfolding settle
  finish_task task = do
    modify (λ w. record w { tasks = remove_task task.id w.tasks })
    settle task.outcome task.request

  unfoldable pub handle_ongoing_tasks : Exec (Unit {0})
  unfolding finish_task
  handle_ongoing_tasks = do
    completed ← gets (λ w. filter (λ t. is_finished t.outcome) w.tasks)
    for_each completed finish_task

  unfoldable pub fail_orphan : Request → Exec (Unit {0})
  fail_orphan request = do
    known ← gets (λ w. has_task request.id w.tasks)
    if not known then execute (update_request_status request.id failed) else pure tt

  unfoldable pub set_orphaned_tasks_to_failed : Exec (Unit {0})
  unfolding fail_orphan
  set_orphaned_tasks_to_failed = do
    witnessgen_requests ← query (
        fetch_requests_by_status witness_generation config.commitments config.l1_chain_id
          config.l2_chain_id)
    execution_requests ← query (
        fetch_requests_by_status execution config.commitments config.l1_chain_id config.l2_chain_id)
    for_each (witnessgen_requests ++ execution_requests) fail_orphan
