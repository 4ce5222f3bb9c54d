-- ===== src/Proposer/Submit.antt =====
-- Submission: `submit_agg_proofs` and `relay_aggregation_proof` of validity/src/proposer.rs.
pub mod Sent
use mina_evm_l.Prelude.{ℕ, not, Option, none, some, ◌==◌, if◌then◌else◌}
use mina_evm_l.Request.{B256, Request, Config}
use mina_evm_l.Db.Queries.{fetch_completed_agg_proof_after_block}
use mina_evm_l.Db.Updates.{update_request_to_relayed}
use mina_evm_l.World.{
  Exec, pure, fail, or_err, unwrap, query, execute, ◌>>=◌, rpc_error, tx_reverted, create_game,
  propose_l2_output,
}
use mina_evm_l.Env.{Env, Receipt}
use mina_evm_l.Proposer.Chain.{get_latest_proposed_block_number, send}

-- OP_SUCCINCT_VALIDITY_DISPUTE_GAME_TYPE
abbrev pub validity_game_type : ℕ
validity_game_type = 6

module _ (env : Env) (config : Config) where
  unfoldable pub game_or_proposal : Request → B256 → Exec Receipt
  game_or_proposal agg output_root =
      if not (config.dgf_address == 0)
      then (do
        bond ← or_err rpc_error (env.init_bonds validity_game_type)
        l1_number ← unwrap agg.checkpointed_l1_block_number
        proof ← unwrap agg.proof
        send env (
            create_game output_root agg.end_block l1_number config.prover_address
              config.op_succinct_config_name_hash proof bond))
      else (do
        l1_number ← unwrap agg.checkpointed_l1_block_number
        proof ← unwrap agg.proof
        send env (
            propose_l2_output config.op_succinct_config_name_hash output_root agg.end_block
              l1_number proof config.prover_address))

  unfoldable pub relay_aggregation_proof : Request → Exec B256
  unfolding game_or_proposal
  relay_aggregation_proof agg = do
    output_root ← or_err rpc_error (env.l2_output_root agg.end_block)
    receipt ← game_or_proposal agg output_root
    if receipt.status then pure receipt.transaction_hash else fail tx_reverted

  unfoldable pub relay : Option Request → Exec (Unit {0})
  relay none = pure tt
  relay (some agg) = do
    transaction_hash ← relay_aggregation_proof agg
    execute (update_request_to_relayed agg.id transaction_hash config.l2oo_address)

  unfoldable pub submit_agg_proofs : Exec (Unit {0})
  unfolding relay
  submit_agg_proofs = do
    latest ← get_latest_proposed_block_number env
    completed_agg_proof ← query (
        fetch_completed_agg_proof_after_block latest config.commitments config.l1_chain_id
          config.l2_chain_id)
    relay completed_agg_proof
