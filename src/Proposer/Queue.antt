-- ===== src/Proposer/Queue.antt =====
-- Starting proofs: `request_queued_proofs` and `get_next_unrequested_proof` of
-- validity/src/proposer.rs.
pub mod Limits
use mina_evm_l.Prelude.{
  ℕ, ◌+◌, Bool, true, false, not, Option, none, some, List, [], ◌∷◌, ◌==◌, if◌then◌else◌, filter,
}
use mina_evm_l.Request.{RequestStatus, witness_generation, execution, prove, Request, Config}
use mina_evm_l.Db.Queries.{
  fetch_request_count, fetch_unrequested_agg_proof, fetch_first_unrequested_range_proof,
  get_consecutive_complete_range_proofs,
}
use mina_evm_l.World.{Exec, Task, running, pure, query, modify, ◌>>=◌}
use mina_evm_l.Env.{Env}
use mina_evm_l.Proposer.Chain.{reaches, get_latest_proposed_block_number}
use mina_evm_l.Proposer.Aggregate.{validate_aggregation_request}

-- `HashMap::insert` and `remove`.
unfoldable pub remove_task : ℕ → List Task → List Task
remove_task id tasks = filter (λ t. not (t.id == id)) tasks

unfoldable pub insert_task : Task → List Task → List Task
unfolding remove_task
insert_task task tasks = task ∷ remove_task task.id tasks

-- `count >= limit as i64`.
abbrev pub is_full : ℕ → ℕ → Bool
is_full count limit = reaches 0 count limit

module _ (env : Env) (config : Config) where
  unfoldable pub next_range : ℕ → Exec (Option Request)
  next_range latest = query (
      fetch_first_unrequested_range_proof latest config.commitments config.l1_chain_id
        config.l2_chain_id)

  -- The aggregation request if it validates, else a range request.
  unfoldable pub agg_or_range : ℕ → Option Request → Exec (Option Request)
  unfolding next_range
  agg_or_range latest none = next_range latest
  agg_or_range latest (some agg) = do
    range_proofs ← query (
        get_consecutive_complete_range_proofs agg.start_block agg.end_block config.commitments
          config.l1_chain_id config.l2_chain_id)
    if validate_aggregation_request range_proofs agg then pure (some agg) else next_range latest

  unfoldable pub get_next_unrequested_proof : Exec (Option Request)
  unfolding agg_or_range
  get_next_unrequested_proof = do
    latest ← get_latest_proposed_block_number env
    unreq_agg ← query (
        fetch_unrequested_agg_proof latest config.commitments config.l1_chain_id config.l2_chain_id)
    agg_or_range latest unreq_agg

  -- `tokio::spawn(make_proof_request(request))`, with its handle put in the map.
  unfoldable pub spawn : Option Request → Exec (Unit {0})
  spawn none = pure tt
  spawn (some request) = modify (λ w. record w {
    tasks = insert_task (record { id = request.id; outcome = running; request = request }) w.tasks;
  })

  unfoldable pub count_of : RequestStatus → Exec ℕ
  count_of status =
      query (fetch_request_count status config.commitments config.l1_chain_id config.l2_chain_id)

  unfoldable pub request_queued_proofs : Exec (Unit {0})
  unfolding spawn count_of
  request_queued_proofs = do
    witness_gen_count ← count_of witness_generation
    execution_count ← count_of execution
    prove_count ← count_of prove
    if is_full (witness_gen_count + execution_count + prove_count)
          config.max_concurrent_proof_requests
        then pure tt
        else if is_full witness_gen_count config.max_concurrent_witness_gen
        then pure tt
        else (do request ← get_next_unrequested_proof; spawn request)
