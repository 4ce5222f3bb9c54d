-- ===== src/WellFormed/Aggregates.antt =====
-- Aggregation, the queue and submission (`create_aggregation_proofs`, `request_queued_proofs`,
-- `submit_agg_proofs` of validity/src/proposer.rs) keep the rows and the tasks well-formed.
use mina_evm_l.Prelude.{
  ℕ, ◌+◌, ◌^◌, ◌≤◌, ◌<◌, max, ◌≡◌, true, not, Option, none, some, List, [], ◌∷◌, ◌==◌, arith, ltb,
  All, All-sort_by, IfSome,
}
use mina_evm_l.Ranges.{Range}
use mina_evm_l.Request.{
  RequestMode, RequestStatus, witness_generation, execution, prove, Request, Config,
  new_agg_request,
}
use mina_evm_l.World.{Transaction}
use mina_evm_l.World.Safe.{
  Safe, Any, Safe-pure, Safe-fail, Safe-or_err, Safe-unwrap, Safe-query, Safe-if, Safe-execute,
  Safe-modify, Safe-bind,
}
use mina_evm_l.Env.{Env}
use mina_evm_l.Db.Table.{is_some}
use mina_evm_l.Db.Queries.{checkpoint_of}
use mina_evm_l.Proposer.Chain.{reaches, send}
use mina_evm_l.Proposer.Aggregate.{
  confirm, checkpoint_for, insert_agg, aggregate_up_to, create_aggregation_proofs, extend_end,
  get_highest_proven_contiguous_block, validate_aggregation_request,
}
use mina_evm_l.Proposer.Queue.{
  is_full, next_range, agg_or_range, get_next_unrequested_proof, spawn, count_of,
  request_queued_proofs, insert_task,
}
use mina_evm_l.Proposer.Submit.{game_or_proposal, relay_aggregation_proof, relay, submit_agg_proofs}
use mina_evm_l.WellFormed.Rows.{
  block_limit, RowOk, IsWf, insert_request-IsWf, update_request_to_relayed-IsWf,
}
use mina_evm_l.WellFormed.Fetched.{
  IsProven, IsSmall, fetch_completed_ranges-IsSmall, fetch_unrequested_agg_proof-RowOk,
  fetch_first_unrequested_range_proof-RowOk, fetch_failed_agg_request-checkpoint_of,
  fetch_completed_agg_proof-IsProven,
}
use mina_evm_l.WellFormed.Ranges.{IsSane, get_latest_proposed_block_number-Safe}
use mina_evm_l.WellFormed.Tasks.{All-remove_task}

new_agg_request-RowOk :
    (mode : RequestMode) (start end vkey agg_vkey rollup l1 l2 number hash prover now : ℕ)
    → start ≤ block_limit
    → end ≤ block_limit
    → RowOk (new_agg_request mode start end vkey agg_vkey rollup l1 l2 number hash prover now)
unfolding new_agg_request
new_agg_request-RowOk mode start end vkey agg_vkey rollup l1 l2 number hash prover now hs he =
    ground arith

extend_end-small :
    (e : ℕ) (ranges : List Range)
    → e ≤ block_limit
    → All IsSmall ranges
    → extend_end e ranges ≤ block_limit
unfolding extend_end
extend_end-small e [] he h = he
extend_end-small e (r ∷ ranges) he h = ground (arith, extend_end-small r.1 ranges h.0.1 h.1)

highest-small :
    (ranges : List Range)
    → All IsSmall ranges
    → IfSome (λ n. n ≤ block_limit) (get_highest_proven_contiguous_block ranges)
unfolding get_highest_proven_contiguous_block
highest-small [] h = tt
highest-small (r ∷ ranges) h = extend_end-small r.1 ranges h.0.1 h.1

module _ {C : Type 0} (env : Env) where
  send-Safe : (transaction : Transaction) → Safe C IsWf Any (send env transaction)
  unfolding send
  send-Safe transaction =
      Safe-bind _ _ (Safe-modify _ (λ w h. record { rows = h.rows; copies = h.copies }))
        (λ _ _. Safe-or_err _ _ (λ _ _. tt))

module _ {C : Type 0} (env : Env) (config : Config) where
  checkpoint_for-Safe :
      (existing : Option Request)
      → IfSome (λ r. is_some (checkpoint_of r) ≡ true) existing
      → Safe C IsWf Any (checkpoint_for env config existing)
  unfolding checkpoint_for confirm
  checkpoint_for-Safe (some r) there =
      Safe-unwrap (checkpoint_of r) (λ absent. absurd (ground arith)) (λ _ _. tt)
  checkpoint_for-Safe none there =
      Safe-bind {Q = Any} _ _ (Safe-or_err _ _ (λ _ _. tt)) (λ header _.
        Safe-bind _ _ (send-Safe env _)
          (λ receipt _. Safe-if receipt.status _ _ (λ _. Safe-pure _ tt) (λ _. Safe-fail _)))

  insert_agg-Safe :
      (latest highest : ℕ)
      → latest ≤ block_limit
      → highest ≤ block_limit
      → Safe C IsWf Any (insert_agg env config latest highest)
  unfolding insert_agg
  insert_agg-Safe latest highest hl hh =
      Safe-bind _ _
        (Safe-query _ (λ db tasks h.
          fetch_failed_agg_request-checkpoint_of latest highest config.commitments
            config.l1_chain_id config.l2_chain_id db))
        (λ existing there. Safe-bind _ _ (checkpoint_for-Safe existing there) (λ checkpoint _.
          Safe-execute _ (λ now db tasks.
            insert_request-IsWf _ (new_agg_request-RowOk _ latest highest _ _ _ _ _ _ _ _ _ hl hh)
              db)))

  aggregate_up_to-Safe :
      (latest : ℕ) (highest : Option ℕ)
      → IsSane env
      → latest ≤ block_limit
      → IfSome (λ n. n ≤ block_limit) highest
      → Safe C IsWf Any (aggregate_up_to env config latest highest)
  unfolding aggregate_up_to
  aggregate_up_to-Safe latest none sane hl hh = Safe-pure tt tt
  aggregate_up_to-Safe latest (some highest) sane hl hh =
      Safe-bind {Q = λ n. n < 2 ^ 63} _ _ (Safe-or_err _ _ (λ n e. sane.interval_small n e))
        (λ answer small.
          Safe-bind {Q = Any} _ _ (Safe-unwrap _ (λ e. absurd (ground arith)) (λ _ _. tt))
            (λ interval _.
              Safe-if (reaches latest highest (max interval config.submission_interval)) _ _
                (λ _. insert_agg-Safe latest highest hl hh) (λ _. Safe-pure tt tt)))

  pub create_aggregation_proofs-Safe :
      IsSane env → Safe C IsWf Any (create_aggregation_proofs env config)
  unfolding create_aggregation_proofs
  create_aggregation_proofs-Safe sane =
      Safe-bind _ _ (get_latest_proposed_block_number-Safe env sane) (λ latest hl.
        Safe-bind {Q = Any} _ _ (Safe-query _ (λ _ _ _. tt)) (λ count _.
          Safe-if (ltb 0 count) _ _ (λ _. Safe-pure tt tt)
            (λ _.
              Safe-bind _ _
                (Safe-query _ (λ db tasks h. fetch_completed_ranges-IsSmall _ latest _ _ db h))
                (λ completed small.
                  aggregate_up_to-Safe latest _ sane hl
                    (highest-small _ (All-sort_by (λ r. r.0) IsSmall completed small))))))

  next_range-Safe : (latest : ℕ) → Safe C IsWf (IfSome RowOk) (next_range env config latest)
  unfolding next_range
  next_range-Safe latest =
      Safe-query _ (λ db tasks h. fetch_first_unrequested_range_proof-RowOk latest _ _ _ db h)

  agg_or_range-Safe :
      (latest : ℕ) (agg : Option Request)
      → IfSome RowOk agg
      → Safe C IsWf (IfSome RowOk) (agg_or_range env config latest agg)
  unfolding agg_or_range
  agg_or_range-Safe latest none ok = next_range-Safe latest
  agg_or_range-Safe latest (some agg) ok =
      Safe-bind {Q = Any} _ _ (Safe-query _ (λ _ _ _. tt)) (λ proofs _.
        Safe-if (validate_aggregation_request proofs agg) _ _ (λ _. Safe-pure (some agg) ok)
          (λ _. next_range-Safe latest))

  get_next_unrequested_proof-Safe :
      IsSane env → Safe C IsWf (IfSome RowOk) (get_next_unrequested_proof env config)
  unfolding get_next_unrequested_proof
  get_next_unrequested_proof-Safe sane =
      Safe-bind _ _ (get_latest_proposed_block_number-Safe env sane) (λ latest _.
        Safe-bind _ _
          (Safe-query _ (λ db tasks h. fetch_unrequested_agg_proof-RowOk latest _ _ _ db h))
          (λ agg ok. agg_or_range-Safe latest agg ok))

  spawn-Safe :
      (request : Option Request) → IfSome RowOk request → Safe C IsWf Any (spawn env config request)
  unfolding spawn insert_task
  spawn-Safe none ok = Safe-pure tt tt
  spawn-Safe (some request) ok =
      Safe-modify _ (λ w h. record {
        rows = h.rows;
        copies = (ok, All-remove_task request.id w.tasks h.copies);
      })

  count_of-Safe : (status : RequestStatus) → Safe C IsWf Any (count_of env config status)
  unfolding count_of
  count_of-Safe status = Safe-query _ (λ _ _ _. tt)

  pub request_queued_proofs-Safe : IsSane env → Safe C IsWf Any (request_queued_proofs env config)
  unfolding request_queued_proofs
  request_queued_proofs-Safe sane = Safe-bind _ _ (count_of-Safe witness_generation) (λ waiting _.
      Safe-bind _ _ (count_of-Safe execution) (λ executing _.
        Safe-bind _ _ (count_of-Safe prove) (λ proving _.
          Safe-if (is_full (waiting + executing + proving) config.max_concurrent_proof_requests) _ _
            (λ _. Safe-pure tt tt)
            (λ _.
              Safe-if (is_full waiting config.max_concurrent_witness_gen) _ _ (λ _. Safe-pure tt tt)
                (λ _. Safe-bind _ _ (get_next_unrequested_proof-Safe sane) spawn-Safe)))))

  game_or_proposal-Safe :
      (agg : Request) (root : ℕ)
      → IsProven agg
      → Safe C IsWf Any (game_or_proposal env config agg root)
  unfolding game_or_proposal
  game_or_proposal-Safe agg root (proof, number) =
      Safe-if (not (config.dgf_address == 0)) _ _
        (λ _. Safe-bind {Q = Any} _ _ (Safe-or_err _ _ (λ _ _. tt)) (λ bond _.
          Safe-bind {Q = Any} _ _ (Safe-unwrap _ (λ e. absurd (ground arith)) (λ _ _. tt)) (λ l1 _.
            Safe-bind {Q = Any} _ _ (Safe-unwrap _ (λ e. absurd (ground arith)) (λ _ _. tt))
              (λ bytes _. send-Safe env _))))
        (λ _.
          Safe-bind {Q = Any} _ _ (Safe-unwrap _ (λ e. absurd (ground arith)) (λ _ _. tt)) (λ l1 _.
            Safe-bind {Q = Any} _ _ (Safe-unwrap _ (λ e. absurd (ground arith)) (λ _ _. tt))
              (λ bytes _. send-Safe env _)))

  relay-Safe : (agg : Option Request) → IfSome IsProven agg → Safe C IsWf Any (relay env config agg)
  unfolding relay relay_aggregation_proof
  relay-Safe none ok = Safe-pure tt tt
  relay-Safe (some agg) ok =
      Safe-bind {Q = Any} _ _
        (Safe-bind {Q = Any} _ _ (Safe-or_err _ _ (λ _ _. tt)) (λ root _.
          Safe-bind _ _ (game_or_proposal-Safe agg root ok)
            (λ receipt _. Safe-if receipt.status _ _ (λ _. Safe-pure _ tt) (λ _. Safe-fail _))))
        (λ hash _.
          Safe-execute _ (λ now db tasks. update_request_to_relayed-IsWf agg.id hash _ now db))

  pub submit_agg_proofs-Safe : IsSane env → Safe C IsWf Any (submit_agg_proofs env config)
  unfolding submit_agg_proofs
  submit_agg_proofs-Safe sane =
      Safe-bind _ _ (get_latest_proposed_block_number-Safe env sane) (λ latest _.
        Safe-bind _ _
          (Safe-query _ (λ db tasks h.
            fetch_completed_agg_proof-IsProven latest config.commitments config.l1_chain_id
              config.l2_chain_id db h))
          (λ agg ok. relay-Safe agg ok))
