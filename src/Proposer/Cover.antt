-- ===== src/Proposer/Cover.antt =====
-- New range requests: `add_new_ranges` of validity/src/proposer.rs.
pub mod Tiling
pub mod Active
pub mod Added
use mina_evm_l.Prelude.{ℕ, Option, none, some, List, [], ◌∷◌, sort_by}
use mina_evm_l.Ranges.{Range, find_gaps, get_ranges_to_prove}
use mina_evm_l.Request.{
  RequestStatus, unrequested, witness_generation, execution, prove, complete, Config,
}
use mina_evm_l.Db.Queries.{fetch_ranges_after_block}
use mina_evm_l.Db.Updates.{insert_requests}
use mina_evm_l.World.{Exec, pure, or_err, unwrap, query, execute, collect, ◌>>=◌, rpc_error}
use mina_evm_l.Env.{Env}
use mina_evm_l.Requester.{create_range_request}
use mina_evm_l.Proposer.Chain.{mode_of, get_latest_proposed_block_number}

-- The statuses of a request that has not failed and is not relayed.
abbrev pub active : List RequestStatus
active = unrequested ∷ witness_generation ∷ execution ∷ prove ∷ complete ∷ []

-- `none`: the ranges cannot be computed, by an overflow or a zero interval.
unfoldable pub ranges_to_prove : ℕ → ℕ → ℕ → List Range → Option (List Range)
ranges_to_prove interval latest finalized requests =
    get_ranges_to_prove (find_gaps latest finalized (sort_by (λ r. r.0) requests)) interval

module _ (env : Env) (config : Config) where
  unfoldable pub insert_ranges : List Range → Exec (Unit {0})
  insert_ranges [] = pure tt
  insert_ranges (r ∷ ranges) = do
    new_range_requests ← collect (r ∷ ranges) (λ range.
        create_range_request env config (mode_of config.mock) range.0 range.1
          config.commitments.range_vkey_commitment config.commitments.rollup_config_hash
          config.l1_chain_id config.l2_chain_id)
    execute (λ now. insert_requests new_range_requests)

  unfoldable pub add_ranges_up_to : ℕ → Option ℕ → Exec (Unit {0})
  unfolding insert_ranges
  add_ranges_up_to latest none = pure tt
  add_ranges_up_to latest (some finalized) = do
    requests ← query (
        fetch_ranges_after_block active latest config.commitments config.l1_chain_id
          config.l2_chain_id)
    ranges ← unwrap (ranges_to_prove config.range_proof_interval latest finalized requests)
    insert_ranges ranges

  unfoldable pub add_new_ranges : Exec (Unit {0})
  unfolding add_ranges_up_to
  add_new_ranges = do
    latest ← get_latest_proposed_block_number env
    finalized ← or_err rpc_error (env.finalized_block latest)
    add_ranges_up_to latest finalized
