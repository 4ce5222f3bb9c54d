-- ===== src/Proposer/Aggregate.antt =====
-- Aggregation requests: `create_aggregation_proofs`, `get_highest_proven_contiguous_block` and
-- `validate_aggregation_request` of validity/src/proposer.rs.
pub mod Linked
pub mod Spaced
pub mod Validated
pub mod Unique
use mina_evm_l.Prelude.{
  ℕ, Bool, true, false, not, Option, none, some, List, [], ◌∷◌, ◌==◌, ltb, max, if◌then◌else◌,
  sort_by,
}
use mina_evm_l.Ranges.{Range}
use mina_evm_l.Request.{B256, Request, new_agg_request, Config}
use mina_evm_l.Db.Queries.{
  fetch_active_agg_proofs_count, fetch_completed_ranges, checkpoint_of,
  fetch_failed_agg_request_with_checkpointed_block_hash,
}
use mina_evm_l.Db.Updates.{insert_request}
use mina_evm_l.World.{
  Exec, pure, fail, or_err, unwrap, query, execute, ◌>>=◌, rpc_error, tx_reverted,
  checkpoint_block_hash,
}
use mina_evm_l.Env.{Env, Receipt, Header}
use mina_evm_l.Proposer.Chain.{to_u64, reaches, mode_of, get_latest_proposed_block_number, send}

-- The loop over the completed ranges after the first, which stops at the first gap.
unfoldable pub extend_end : ℕ → List Range → ℕ
extend_end current_end [] = current_end
extend_end current_end (proof ∷ proofs) =
    let rest = extend_end proof.1 proofs in
    if not (proof.0 == current_end) then current_end else rest

unfoldable pub get_highest_proven_contiguous_block : List Range → Option ℕ
unfolding extend_end
get_highest_proven_contiguous_block [] = none
get_highest_proven_contiguous_block (first ∷ proofs) = some (extend_end first.1 proofs)

abbrev pub last_of : Request → List Request → Request
last_of r [] = r
last_of r (s ∷ proofs) = last_of s proofs

-- The loop over consecutive proofs: a gap, then an overlap, ends it.
pub check_consecutive : Request → List Request → Bool
check_consecutive prev [] = true
check_consecutive prev (curr ∷ proofs) =
    let rest = check_consecutive curr proofs in
    if not (prev.end_block == curr.start_block)
    then false
    else if ltb curr.start_block prev.end_block
    then false
    else rest

pub validate_aggregation_request : List Request → Request → Bool
unfolding check_consecutive
validate_aggregation_request [] agg_request = false
validate_aggregation_request (first ∷ proofs) agg_request =
    if not (first.start_block == agg_request.start_block)
    then false
    else if not ((last_of first proofs).end_block == agg_request.end_block)
    then false
    else check_consecutive first proofs

module _ (env : Env) (config : Config) where
  unfoldable pub confirm : Header → Receipt → Exec (B256 × ℕ)
  confirm header receipt =
      if receipt.status then pure (header.hash, header.number) else fail tx_reverted

  -- The checkpoint of a failed request is used again; else a new one is sent.
  unfoldable pub checkpoint_for : Option Request → Exec (B256 × ℕ)
  unfolding confirm
  checkpoint_for (some existing) = unwrap (checkpoint_of existing)
  checkpoint_for none = do
    header ← or_err rpc_error env.latest_l1_header
    receipt ← send env (checkpoint_block_hash header.number)
    confirm header receipt

  unfoldable pub insert_agg : ℕ → ℕ → Exec (Unit {0})
  unfolding checkpoint_for
  insert_agg latest highest = do
    existing ← query (
        fetch_failed_agg_request_with_checkpointed_block_hash latest highest config.commitments
          config.l1_chain_id config.l2_chain_id)
    checkpoint ← checkpoint_for existing
    execute (λ now. insert_request (
        new_agg_request (mode_of config.mock) latest highest
          config.commitments.range_vkey_commitment config.commitments.agg_vkey_hash
          config.commitments.rollup_config_hash config.l1_chain_id config.l2_chain_id checkpoint.1
          checkpoint.0 config.prover_address env.local_now))

  unfoldable pub aggregate_up_to : ℕ → Option ℕ → Exec (Unit {0})
  unfolding insert_agg
  aggregate_up_to latest none = pure tt
  aggregate_up_to latest (some highest) = do
    answer ← or_err rpc_error env.submission_interval
    contract_interval ← unwrap (to_u64 answer)
    if reaches latest highest (max contract_interval config.submission_interval)
        then insert_agg latest highest
        else pure tt

  unfoldable pub create_aggregation_proofs : Exec (Unit {0})
  unfolding aggregate_up_to
  create_aggregation_proofs = do
    latest ← get_latest_proposed_block_number env
    count ← query (
        fetch_active_agg_proofs_count latest config.commitments config.l1_chain_id
          config.l2_chain_id)
    if ltb 0 count then pure tt else (do
      completed ←
          query
            (fetch_completed_ranges config.commitments latest config.l1_chain_id config.l2_chain_id)
      aggregate_up_to latest (get_highest_proven_contiguous_block (sort_by (λ r. r.0) completed)))
