-- ===== src/Requester.antt =====
-- The proof requester, validity/src/proof_requester.rs. Logs and gauges are left out.
pub mod Failed
use mina_evm_l.Prelude.{
  ℕ, ◌+◌, ◌-◌, ◌/◌, Bool, true, false, ◌&&◌, ◌||◌, Option, none, some, List, [], ◌∷◌, map, ltb,
  if◌then◌else◌,
}
use mina_evm_l.Ranges.{add_i64}
use mina_evm_l.Request.{
  B256, Address, Bytes, RequestMode, RequestType, range, aggregation, witness_generation, execution,
  failed, is_type, Request, Config, ExecutionReport, new_range_request, new_statistics,
}
use mina_evm_l.Db.Queries.{
  fetch_failed_request_count_by_block_range, get_consecutive_complete_range_proofs,
}
use mina_evm_l.Db.Updates.{
  insert_requests, insert_execution_statistics, update_l1_head_block_number,
  update_proof_to_complete, update_request_status, update_request_to_prove,
  update_witnessgen_duration,
}
use mina_evm_l.World.{
  Exec, pure, fail, or_err, unwrap, query, execute, collect, ◌>>=◌, ◌>>◌, rpc_error, prover_error,
  no_prover, no_checkpointed_block, no_prover_address,
}
use mina_evm_l.Env.{Env, ExecutionStatus, unexecutable}

abbrev pub is_unexecutable : ExecutionStatus → Bool
is_unexecutable unexecutable = true
is_unexecutable _ = false

-- `end_block - start_block > 1` of two `i64`, and a range.
abbrev pub can_split : Request → Bool
can_split request =
    ltb (request.start_block + 1) request.end_block && is_type request.req_type range

module _ (env : Env) (config : Config) where
  open env use {Stdin, Proof, BootInfo}

  -- `OPSuccinctRequest::create_range_request`, which fetches the block data.
  unfoldable pub create_range_request : RequestMode → ℕ → ℕ → B256 → B256 → ℕ → ℕ → Exec Request
  create_range_request mode start end range_vkey rollup_config l1_chain l2_chain = do
    block_data ← or_err rpc_error (env.l2_block_data start end)
    unwrap (
        new_range_request mode start end range_vkey rollup_config block_data l1_chain l2_chain
          env.local_now)

  unfoldable pub record_l1_head : ℕ → Option B256 → Exec (Unit {0})
  record_l1_head id none = pure tt
  record_l1_head id (some l1_head) = do
    number ← or_err rpc_error (env.l1_header_number l1_head)
    execute (λ now. update_l1_head_block_number id number)

  unfoldable pub range_proof_witnessgen : Request → Exec Stdin
  range_proof_witnessgen request = do
    args ←
        or_err rpc_error
          (env.host_fetch request.start_block request.end_block config.safe_db_fallback)
    record_l1_head request.id (env.l1_head_hash args)
    witness ← or_err rpc_error (env.host_run args)
    unwrap (env.sp1_stdin witness)

  -- The `unwrap` of the stored proof and the `expect` of its deserialisation.
  unfoldable pub decode_proof : Request → Exec Proof
  decode_proof request = do bytes ← unwrap request.proof; unwrap (env.deserialize bytes)

  unfoldable pub agg_proof_witnessgen : ℕ → ℕ → B256 → ℕ → ℕ → Address → Exec Stdin
  agg_proof_witnessgen start end l1_hash l1_chain l2_chain prover = do
    range_proofs ←
        query (get_consecutive_complete_range_proofs start end config.commitments l1_chain l2_chain)
    proofs ← collect range_proofs decode_proof
    let boot_infos = map env.public_values proofs
    headers ← or_err rpc_error (env.header_preimages boot_infos l1_hash)
    or_err prover_error (env.agg_stdin proofs boot_infos headers l1_hash prover)

  -- `generate_local_range_proof`, `request_range_proof` and their twins for aggregation.
  unfoldable pub local_proof : (Stdin → Option Proof) → Stdin → Exec Proof
  local_proof prove stdin =
      if config.use_local_proving then or_err prover_error (prove stdin) else fail no_prover

  unfoldable pub request_proof : (Stdin → Option B256) → Stdin → Exec B256
  request_proof request stdin =
      if config.use_local_proving then fail no_prover else or_err prover_error (request stdin)

  -- `generate_mock_range_proof` and `generate_mock_agg_proof`: one of the two provers is there, and
  -- both execute alike.
  unfoldable pub mock_proof : ℕ → Option ExecutionReport → Proof → Exec Proof
  mock_proof id report proof = do
    ran ← or_err prover_error report
    execute (λ now. insert_execution_statistics id (new_statistics ran) env.execution_secs)
    pure proof

  unfoldable pub split_failed : Request → ℕ → ℕ → Exec (Unit {0})
  split_failed request l1_chain l2_chain = do
    sum ← unwrap (add_i64 request.start_block request.end_block)
    let mid_block = sum / 2
    left ←
        create_range_request request.mode request.start_block mid_block
          config.commitments.range_vkey_commitment config.commitments.rollup_config_hash l1_chain
          l2_chain
    right ←
        create_range_request request.mode mid_block request.end_block
          config.commitments.range_vkey_commitment config.commitments.rollup_config_hash l1_chain
          l2_chain
    execute (λ now. insert_requests (left ∷ right ∷ []))

  unfoldable pub handle_failed_request : Request → ExecutionStatus → Exec (Unit {0})
  unfolding split_failed
  handle_failed_request request status = do
    execute (update_request_status request.id failed)
    l1_chain ← or_err rpc_error env.l1_chain_id
    l2_chain ← or_err rpc_error env.l2_chain_id
    if can_split request
        then (do
          num_failed ← query (
              fetch_failed_request_count_by_block_range request.start_block request.end_block
                request.l1_chain_id request.l2_chain_id config.commitments)
          if ltb 2 num_failed || is_unexecutable status
              then split_failed request l1_chain l2_chain
              else pure tt)
        else pure tt

  pub stdin_for : RequestType → Request → Exec Stdin
  stdin_for range request = range_proof_witnessgen request
  stdin_for aggregation request = do
    l1_hash ← or_err no_checkpointed_block request.checkpointed_l1_block_hash
    prover ← or_err no_prover_address request.prover_address
    agg_proof_witnessgen request.start_block request.end_block l1_hash request.l1_chain_id
        request.l2_chain_id prover

  unfoldable pub generate_proof_stdin : Request → Exec Stdin
  unfolding stdin_for
  generate_proof_stdin request = stdin_for request.req_type request

  -- The match of `make_proof_request` on the type, with its three ways to a proof each.
  unfoldable pub prove_request : RequestType → Request → Stdin → Exec (Unit {0})
  prove_request range request stdin =
      if config.mock
      then (do
        proof ← mock_proof request.id (env.execute_range stdin) (env.mock_range_proof stdin)
        execute (update_proof_to_complete request.id (env.serialize proof)))
      else if config.use_local_proving
      then (do
        proof ← local_proof env.prove_range stdin
        execute (update_proof_to_complete request.id (env.serialize proof)))
      else (do
        proof_id ← request_proof env.request_range stdin
        execute (update_request_to_prove request.id proof_id))
  prove_request aggregation request stdin =
      if config.mock
      then (do
        proof ← mock_proof request.id (env.execute_agg stdin) (env.mock_agg_proof stdin)
        execute (update_proof_to_complete request.id (env.onchain_bytes proof)))
      else if config.use_local_proving
      then (do
        proof ← local_proof env.prove_agg stdin
        execute (update_proof_to_complete request.id (env.onchain_bytes proof)))
      else (do
        proof_id ← request_proof env.request_agg stdin
        execute (update_request_to_prove request.id proof_id))

  unfoldable pub make_proof_request : Request → Exec (Unit {0})
  unfolding prove_request
  make_proof_request request = do
    execute (update_request_status request.id witness_generation)
    stdin ← generate_proof_stdin request
    execute (update_witnessgen_duration request.id env.witnessgen_secs)
    if config.mock then execute (update_request_status request.id execution) else pure tt
    prove_request request.req_type request stdin
