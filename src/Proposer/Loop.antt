-- ===== src/Proposer/Loop.antt =====
-- Start-up and one iteration of the loop: `new`, `initialize_proposer`, `log_proposer_metrics` and
-- `run_loop_iteration` of validity/src/proposer.rs.
pub mod Startup
use mina_evm_l.Prelude.{ℕ, ◌^◌, Bool, Option, none, some, List, [], ◌∷◌, max, if◌then◌else◌}
use mina_evm_l.Request.{unrequested, witness_generation, execution, prove, Config, add_word}
use mina_evm_l.Db.Queries.{is_chain_locked, fetch_completed_ranges, fetch_request_count}
use mina_evm_l.Db.Updates.{
  add_chain_lock, update_chain_lock, delete_all_requests_with_statuses,
  cancel_prove_requests_with_different_commitment_config,
}
use mina_evm_l.World.{
  Exec, pure, fail, gets, or_err, unwrap, query, execute, ◌>>=◌, ◌>>◌, rpc_error, chain_locked,
}
use mina_evm_l.Env.{Env}
use mina_evm_l.Proposer.Chain.{to_u64, get_latest_proposed_block_number, validate_contract_config}
use mina_evm_l.Proposer.Cover.{add_new_ranges}
use mina_evm_l.Proposer.Aggregate.{get_highest_proven_contiguous_block, create_aggregation_proofs}
use mina_evm_l.Proposer.Queue.{request_queued_proofs}
use mina_evm_l.Proposer.Submit.{submit_agg_proofs}
use mina_evm_l.Proposer.Tasks.{
  handle_proving_requests, handle_ongoing_tasks, set_orphaned_tasks_to_failed,
}

-- What the gauges are set to.
pub record Metrics : Type 0 where
  pub num_unrequested : ℕ
  pub num_prove : ℕ
  pub num_execution : ℕ
  pub num_witness_generation : ℕ
  pub highest_block_number : ℕ
  pub latest_proposed_block_number : ℕ
  pub l2_unsafe_head : ℕ
  pub l2_finalized : ℕ
  pub min_block_to_prove_to_agg : ℕ

abbrev pub unwrap_or : Option ℕ → ℕ → ℕ
unwrap_or none d = d
unwrap_or (some n) d = n

-- The parts of an iteration; each may get other answers.
pub data Stage : Type 0 where
  checking logging proving adding aggregating requesting submitting settling : Stage

module _ (config : Config) where
  -- The lock that `Proposer::new` takes; the keys that it sets up are in the configuration.
  -- `pg_interval` is `PgInterval::try_from` of the database library, on whole seconds, which
  -- `is_chain_locked` unwraps before it queries.
  unfoldable pub new : (ℕ → Option ℕ) → Exec (Unit {0})
  new pg_interval = do
    now ← gets (λ w. w.now)
    interval ← unwrap (pg_interval config.loop_interval)
    is_locked ← query (is_chain_locked config.l1_chain_id config.l2_chain_id interval now)
    if is_locked
        then fail chain_locked
        else execute (add_chain_lock config.l1_chain_id config.l2_chain_id)

  unfoldable pub initialize_proposer : Env → Exec (Unit {0})
  initialize_proposer env = do
    validate_contract_config env config
    execute (λ now.
        delete_all_requests_with_statuses (unrequested ∷ execution ∷ witness_generation ∷ [])
          config.l1_chain_id config.l2_chain_id)
    execute (λ now.
        cancel_prove_requests_with_different_commitment_config config.commitments config.l1_chain_id
          config.l2_chain_id)

  unfoldable pub log_proposer_metrics : Env → Exec Metrics
  log_proposer_metrics env = do
    latest ← get_latest_proposed_block_number env
    completed ←
        query
          (fetch_completed_ranges config.commitments latest config.l1_chain_id config.l2_chain_id)
    num_unrequested ←
        query
          (fetch_request_count unrequested config.commitments config.l1_chain_id config.l2_chain_id)
    num_prove ←
        query (fetch_request_count prove config.commitments config.l1_chain_id config.l2_chain_id)
    num_execution ←
        query
          (fetch_request_count execution config.commitments config.l1_chain_id config.l2_chain_id)
    num_witness_generation ← query (
        fetch_request_count witness_generation config.commitments config.l1_chain_id
          config.l2_chain_id)
    unsafe_head ← or_err rpc_error env.latest_l2_number
    finalized ← or_err rpc_error env.finalized_l2_number
    answer ← or_err rpc_error env.submission_interval
    contract_interval ← unwrap (to_u64 answer)
    min_block ← unwrap (add_word (2 ^ 64) latest (max contract_interval config.submission_interval))
    pure (record {
      num_unrequested = num_unrequested;
      num_prove = num_prove;
      num_execution = num_execution;
      num_witness_generation = num_witness_generation;
      highest_block_number = unwrap_or (get_highest_proven_contiguous_block completed) latest;
      latest_proposed_block_number = latest;
      l2_unsafe_head = unsafe_head;
      l2_finalized = finalized;
      min_block_to_prove_to_agg = min_block;
    })

  unfoldable pub run_loop_iteration : (Stage → Env) → Exec (Unit {0})
  run_loop_iteration env = do
    validate_contract_config (env checking) config
    metrics ← log_proposer_metrics (env logging)
    handle_ongoing_tasks (env settling) config
    set_orphaned_tasks_to_failed (env settling) config
    handle_proving_requests (env proving) config
    add_new_ranges (env adding) config
    create_aggregation_proofs (env aggregating) config
    request_queued_proofs (env requesting) config
    submit_agg_proofs (env submitting) config
    execute (update_chain_lock config.l1_chain_id config.l2_chain_id)
