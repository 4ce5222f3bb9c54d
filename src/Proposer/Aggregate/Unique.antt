-- ===== src/Proposer/Aggregate/Unique.antt =====
-- What `create_aggregation_proofs` of validity/src/proposer.rs adds.
use mina_evm_l.Prelude.{
  ℕ, ◌≤◌, ◌≡◌, refl, sym, ap, inl, inr, true, Option, none, some, List, arith, ltb, ◌==◌, max,
  if◌then◌else◌, Bool-cases, sort_by, count_if-append,
}
use mina_evm_l.Ranges.{Range}
use mina_evm_l.Request.{B256, Request, new_agg_request, Config}
use mina_evm_l.World.{World, pure, query, ◌>>=◌}
use mina_evm_l.World.Triple.{
  After, After-weaken, After-always, Triple, Triple-known, Triple-pure, Triple-fail, Triple-or_err,
  Triple-unwrap, Triple-query, Triple-execute, Triple-modify, Triple-if, Triple-bind, Triple-subst,
}
use mina_evm_l.Env.{Env}
use mina_evm_l.Db.Table.{Db}
use mina_evm_l.Db.Queries.{fetch_active_agg_proofs_count, fetch_completed_ranges}
use mina_evm_l.Db.Updates.{insert_request}
use mina_evm_l.Proposer.Chain.{reaches, mode_of, get_latest_proposed_block_number, send}
use mina_evm_l.Proposer.Aggregate.{
  get_highest_proven_contiguous_block, confirm, checkpoint_for, insert_agg, aggregate_up_to,
  create_aggregation_proofs,
}

-- The active aggregation requests of this configuration that start at the block.
abbrev pub active_aggs : Config → ℕ → Db → ℕ
active_aggs config latest db =
    fetch_active_agg_proofs_count latest config.commitments config.l1_chain_id config.l2_chain_id db

-- Where the completed ranges from the block on are contiguous to.
abbrev pub proven_to : Config → ℕ → Db → Option ℕ
proven_to config latest db = get_highest_proven_contiguous_block (
    sort_by (λ r. r.0)
      (fetch_completed_ranges config.commitments latest config.l1_chain_id config.l2_chain_id db))

-- Either nothing was added, or one aggregation request from `latest` to the highest proven block: there
-- was no active one, and there are as many blocks as the contract and the configuration ask for.
pub data IsAggregated (env : Env) (config : Config) (latest : ℕ) (before after : Db) : Type 0 where
  unchanged : after ≡ before → IsAggregated env config latest before after
  added :
      (highest interval number : ℕ) (hash : B256)
      → active_aggs config latest before ≡ 0
      → proven_to config latest before ≡ some highest
      → env.submission_interval ≡ some interval
      → reaches latest highest (max interval config.submission_interval) ≡ true
      → after
        ≡ insert_request
            (new_agg_request
              (mode_of config.mock)
              latest
              highest
              config.commitments.range_vkey_commitment
              config.commitments.agg_vkey_hash
              config.commitments.rollup_config_hash
              config.l1_chain_id
              config.l2_chain_id
              number
              hash
              config.prover_address
              env.local_now)
            before
      → IsAggregated env config latest before after

module _ (env : Env) (config : Config) (latest : ℕ) (before : Db) where
  abbrev AsBefore : World → Type 0
  AsBefore w = w.db ≡ before

  checkpoint_for-AsBefore :
      (existing : Option Request)
      → Triple AsBefore (λ _ w. AsBefore w) AsBefore (checkpoint_for env config existing)
  unfolding checkpoint_for send confirm
  checkpoint_for-AsBefore (some r) = Triple-unwrap _ (λ _ _ w h. h) (λ w h. h)
  checkpoint_for-AsBefore none =
      Triple-bind (λ _ w. AsBefore w) _ _ (Triple-or_err _ _ (λ _ _ w h. h) (λ w h. h))
        (λ header.
          Triple-bind (λ _ w. AsBefore w) _ _
            (Triple-bind (λ _ w. AsBefore w) _ _ (Triple-modify _ (λ w h. h))
              (λ _. Triple-or_err _ _ (λ _ _ w h. h) (λ w h. h)))
            (λ receipt.
              Triple-if receipt.status _ _ (λ _. Triple-pure _ (λ w h. h))
                (λ _. Triple-fail _ (λ w h. h))))

  insert_agg-IsAggregated :
      (highest interval : ℕ)
      → active_aggs config latest before ≡ 0
      → proven_to config latest before ≡ some highest
      → env.submission_interval ≡ some interval
      → reaches latest highest (max interval config.submission_interval) ≡ true
      → Triple AsBefore
          (λ _ w. IsAggregated env config latest before w.db)
          AsBefore
          (insert_agg env config latest highest)
  unfolding insert_agg
  insert_agg-IsAggregated highest interval idle proven asked far =
      Triple-bind (λ _ w. AsBefore w) _ _ (Triple-query _ (λ w faults h. h) (λ w faults h. h))
        (λ existing.
          Triple-bind (λ _ w. AsBefore w) _ _ (checkpoint_for-AsBefore existing)
            (λ checkpoint.
              Triple-execute _
                (λ w faults h.
                  added highest interval checkpoint.1 checkpoint.0 idle proven asked far (rw h))
                (λ w faults h. h)))

  aggregate_up_to-IsAggregated :
      (highest : Option ℕ)
      → active_aggs config latest before ≡ 0
      → proven_to config latest before ≡ highest
      → Triple AsBefore
          (λ _ w. IsAggregated env config latest before w.db)
          AsBefore
          (aggregate_up_to env config latest highest)
  unfolding aggregate_up_to
  aggregate_up_to-IsAggregated none idle proven = Triple-pure tt (λ w h. unchanged h)
  aggregate_up_to-IsAggregated (some highest) idle proven =
      Triple-bind (λ answer w. (env.submission_interval ≡ some answer) × AsBefore w) _ _
        (Triple-or_err _ _ (λ _ e w h. (e, h)) (λ w h. h))
        (λ answer.
          Triple-bind (λ n w. (n ≡ answer) × ((env.submission_interval ≡ some answer) × AsBefore w))
            _ _ (Triple-unwrap _ (λ n e w h. (ground arith, h)) (λ w h. h.1))
            (λ n.
              Triple-subst
                (λ (n : ℕ).
                  if reaches latest highest (max n config.submission_interval)
                  then insert_agg env config latest highest
                  else pure tt)
                n answer
                (Triple-known (λ asked.
                  Triple-if (reaches latest highest (max answer config.submission_interval)) _ _
                    (insert_agg-IsAggregated highest answer idle proven asked)
                    (λ _. Triple-pure tt (λ w h. unchanged h))))))

  create_aggregation_proofs-Triple :
      env.latest_block_number ≡ some latest
      → Triple AsBefore
          (λ _ w. IsAggregated env config latest before w.db)
          AsBefore
          (create_aggregation_proofs env config)
  unfolding create_aggregation_proofs get_latest_proposed_block_number
  create_aggregation_proofs-Triple el =
      Triple-bind (λ n w. (n ≡ latest) × AsBefore w) _ _
        (Triple-bind (λ n w. (n ≡ latest) × AsBefore w) _ _
          (Triple-or_err _ _ (λ n e w h. (cc, h)) (λ w h. h))
          (λ n. Triple-unwrap _ (λ m e w h. (ground arith, h.1)) (λ w h. h.1)))
        (λ n.
          Triple-subst
            (λ (n : ℕ).
              query (
                fetch_active_agg_proofs_count n config.commitments config.l1_chain_id
                  config.l2_chain_id)
              >>= λ count. if ltb 0 count then pure tt else (do
                completed ← query (
                    fetch_completed_ranges config.commitments n config.l1_chain_id
                      config.l2_chain_id)
                aggregate_up_to env config n
                    (get_highest_proven_contiguous_block (sort_by (λ r. r.0) completed))))
            n latest
            (Triple-bind (λ count w. (count ≡ active_aggs config latest before) × AsBefore w) _ _
              (Triple-query _ (λ w faults e. (rw e, e)) (λ w faults e. e))
              (λ count. Triple-known (λ counted.
                Triple-if (ltb 0 count) _ _ (λ _. Triple-pure tt (λ w h. unchanged h))
                  (λ idle.
                    Triple-bind
                      (λ completed w.
                        (completed
                          ≡ fetch_completed_ranges config.commitments latest config.l1_chain_id
                              config.l2_chain_id before)
                        × AsBefore w)
                      _ _ (Triple-query _ (λ w faults e. (rw e, e)) (λ w faults e. e))
                      (λ completed. Triple-known (λ found.
                        aggregate_up_to-IsAggregated _ (ground (arith, counted)) (
                          ap
                            (λ (rs : List Range).
                              get_highest_proven_contiguous_block (sort_by (λ r. r.0) rs))
                            (sym found)))))))))

-- `create_aggregation_proofs`, told by the contract that `latest` is proposed. On success it has added
-- nothing, or one aggregation request from `latest` to the highest proven block, when no request for
-- `latest` was active and the submission interval was reached (`IsAggregated`). On an error or a panic
-- the database is as it was.
pub create_aggregation_proofs-IsAggregated :
    (env : Env) (config : Config) (latest : ℕ) (w : World)
    → env.latest_block_number ≡ some latest
    → After
        (λ _ w'. IsAggregated env config latest w.db w'.db)
        (λ w'. w'.db ≡ w.db)
        (create_aggregation_proofs env config w).0
        (create_aggregation_proofs env config w).1
create_aggregation_proofs-IsAggregated env config latest w el =
    (create_aggregation_proofs-Triple env config latest w.db el).at w refl

IsAggregated-unique :
    (env : Env) (config : Config) (latest start : ℕ) (before after : Db)
    → active_aggs config start before ≤ 1
    → IsAggregated env config latest before after
    → active_aggs config start after ≤ 1
unfolding fetch_active_agg_proofs_count insert_request new_agg_request
IsAggregated-unique env config latest start before after one (unchanged e) = rw e one
IsAggregated-unique env config latest start before after one
      (added highest interval number hash idle proven asked far e) =
    rw e (elim (Bool-cases (latest == start)) [
      | inl same ↦ rw (count_if-append _ before.requests _) (ground arith)
      | inr other ↦ rw (count_if-append _ before.requests _) (ground arith)
    ])

-- If at most one aggregation request is active for a start block, then `create_aggregation_proofs`, told
-- by the contract that `latest` is proposed, leaves at most one, whether it succeeds, fails or panics.
pub create_aggregation_proofs_unique :
    (env : Env) (config : Config) (latest start : ℕ) (w : World)
    → env.latest_block_number ≡ some latest
    → active_aggs config start w.db ≤ 1
    → active_aggs config start (create_aggregation_proofs env config w).1.db ≤ 1
create_aggregation_proofs_unique env config latest start w el one =
    After-always (λ w'. active_aggs config start w'.db ≤ 1)
      (create_aggregation_proofs env config w).0 (create_aggregation_proofs env config w).1
      (After-weaken (λ _ w' t. IsAggregated-unique env config latest start w.db w'.db one t)
        (λ w' same. rw same one) (create_aggregation_proofs env config w).0
        (create_aggregation_proofs env config w).1
        (create_aggregation_proofs-IsAggregated env config latest w el))
