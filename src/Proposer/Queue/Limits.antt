-- ===== src/Proposer/Queue/Limits.antt =====
-- Which request `request_queued_proofs` of validity/src/proposer.rs starts, and when.
use mina_evm_l.Prelude.{
  ℕ, ◌+◌, ◌≡◌, refl, sym, ap, ◌⊎◌, inl, inr, Bool, true, false, Option, none, some, List, arith,
  if◌then◌else◌,
}
use mina_evm_l.Request.{RequestStatus, witness_generation, execution, prove, Request, Config}
use mina_evm_l.World.{World, Task, running, pure, query, ◌>>=◌}
use mina_evm_l.World.Triple.{
  After, Triple, Triple-known, Triple-pure, Triple-or_err, Triple-unwrap, Triple-query,
  Triple-modify, Triple-if, Triple-bind, Triple-subst,
}
use mina_evm_l.Env.{Env}
use mina_evm_l.Db.Table.{Db}
use mina_evm_l.Db.Queries.{
  fetch_request_count, fetch_unrequested_agg_proof, fetch_first_unrequested_range_proof,
  get_consecutive_complete_range_proofs,
}
use mina_evm_l.Proposer.Chain.{get_latest_proposed_block_number}
use mina_evm_l.Proposer.Aggregate.{validate_aggregation_request}
use mina_evm_l.Proposer.Queue.{
  insert_task, is_full, next_range, agg_or_range, get_next_unrequested_proof, spawn, count_of,
  request_queued_proofs,
}

abbrev pub unrequested_agg : Config → ℕ → Db → Option Request
unrequested_agg config latest db =
    fetch_unrequested_agg_proof latest config.commitments config.l1_chain_id config.l2_chain_id db

abbrev pub unrequested_range : Config → ℕ → Db → Option Request
unrequested_range config latest db =
    fetch_first_unrequested_range_proof latest config.commitments config.l1_chain_id
      config.l2_chain_id db

-- The range proofs that the aggregation request can take are complete.
abbrev pub is_ready : Config → Db → Request → Bool
is_ready config db agg =
    validate_aggregation_request
      (get_consecutive_complete_range_proofs agg.start_block agg.end_block config.commitments
        config.l1_chain_id config.l2_chain_id db)
      agg

abbrev pub next_of : Config → ℕ → Db → Option Request → Option Request
next_of config latest db none = unrequested_range config latest db
next_of config latest db (some agg) =
    if is_ready config db agg then some agg else unrequested_range config latest db

-- The aggregation request that is first in line if it is ready, else the first range request.
abbrev pub next_in_line : Config → ℕ → Db → Option Request
next_in_line config latest db = next_of config latest db (unrequested_agg config latest db)

abbrev pub count_in : Config → Db → RequestStatus → ℕ
count_in config db status =
    fetch_request_count status config.commitments config.l1_chain_id config.l2_chain_id db

abbrev pub task_of : Request → Task
task_of request = record { id = request.id; outcome = running; request = request }

-- There is a limit that is reached, or nothing is in line and nothing is started; or the next in line is.
pub data IsQueued (config : Config) (latest : ℕ) (db : Db) (before after : List Task) : Type 0 where
  limited :
      (is_full
            (count_in config db witness_generation
              + count_in config db execution
              + count_in config db prove)
            config.max_concurrent_proof_requests
          ≡ true)
        ⊎ (is_full (count_in config db witness_generation) config.max_concurrent_witness_gen ≡ true)
      → after ≡ before
      → IsQueued config latest db before after
  empty :
      next_in_line config latest db ≡ none → after ≡ before → IsQueued config latest db before after
  started :
      (request : Request)
      → is_full
          (count_in config db witness_generation
            + count_in config db execution
            + count_in config db prove)
          config.max_concurrent_proof_requests
        ≡ false
      → is_full (count_in config db witness_generation) config.max_concurrent_witness_gen ≡ false
      → next_in_line config latest db ≡ some request
      → after ≡ insert_task (task_of request) before
      → IsQueued config latest db before after

module _ (env : Env) (config : Config) (latest : ℕ) (db : Db) (tasks : List Task) where
  abbrev Same : World → Type 0
  Same w = (w.db ≡ db) × (w.tasks ≡ tasks)

  next_range-next :
      Triple Same
        (λ r w. (r ≡ unrequested_range config latest db) × Same w)
        Same
        (next_range env config latest)
  unfolding next_range
  next_range-next = Triple-query _ (λ w faults h. (rw (h.0), h)) (λ w faults h. h)

  agg_or_range-next :
      (agg : Option Request)
      → Triple Same
          (λ r w. (r ≡ next_of config latest db agg) × Same w)
          Same
          (agg_or_range env config latest agg)
  unfolding agg_or_range
  agg_or_range-next none = next_range-next
  agg_or_range-next (some agg) =
      Triple-bind
        (λ proofs w.
          (proofs
            ≡ get_consecutive_complete_range_proofs agg.start_block agg.end_block config.commitments
                config.l1_chain_id config.l2_chain_id db)
          × Same w)
        _ _ (Triple-query _ (λ w faults h. (rw (h.0), h)) (λ w faults h. h))
        (λ proofs.
          Triple-subst
            (λ (proofs : List Request).
              if validate_aggregation_request proofs agg
              then pure (some agg)
              else next_range env config latest)
            proofs _
            (Triple-if (is_ready config db agg) _ _
              (λ ready. Triple-pure (some agg) (λ w h. (rw ready, h)))
              (λ not_ready. rw not_ready next_range-next)))

  get_next_unrequested_proof-next :
      env.latest_block_number ≡ some latest
      → Triple Same
          (λ r w. (r ≡ next_in_line config latest db) × Same w)
          Same
          (get_next_unrequested_proof env config)
  unfolding get_next_unrequested_proof get_latest_proposed_block_number
  get_next_unrequested_proof-next el =
      Triple-bind (λ n w. (n ≡ latest) × Same w) _ _
        (Triple-bind (λ n w. (n ≡ latest) × Same w) _ _
          (Triple-or_err _ _ (λ n e w h. (cc, h)) (λ w h. h))
          (λ n. Triple-unwrap _ (λ m e w h. (ground arith, h.1)) (λ w h. h.1)))
        (λ n.
          Triple-subst
            (λ (n : ℕ).
              query (
                fetch_unrequested_agg_proof n config.commitments config.l1_chain_id
                  config.l2_chain_id)
              >>= λ agg. agg_or_range env config n agg)
            n latest
            (Triple-bind (λ agg w. (agg ≡ unrequested_agg config latest db) × Same w) _ _
              (Triple-query _ (λ w faults h. (rw (h.0), h)) (λ w faults h. h))
              (λ agg.
                Triple-subst (agg_or_range env config latest) agg _
                  (agg_or_range-next (unrequested_agg config latest db)))))

  abbrev Queued : World → Type 0
  Queued w = (w.db ≡ db) × IsQueued config latest db tasks w.tasks

  count_of-known :
      (status : RequestStatus)
      → Triple Same
          (λ n w. (n ≡ count_in config db status) × Same w)
          Same
          (count_of env config status)
  unfolding count_of
  count_of-known status = Triple-query _ (λ w faults h. (rw (h.0), h)) (λ w faults h. h)

  spawn-Queued :
      (request : Option Request)
      → is_full
          (count_in config db witness_generation
            + count_in config db execution
            + count_in config db prove)
          config.max_concurrent_proof_requests
        ≡ false
      → is_full (count_in config db witness_generation) config.max_concurrent_witness_gen ≡ false
      → request ≡ next_in_line config latest db
      → Triple Same (λ _ w. Queued w) Same (spawn env config request)
  unfolding spawn
  spawn-Queued none free free_gen next = Triple-pure tt (λ w h. (h.0, empty (sym next) h.1))
  spawn-Queued (some request) free free_gen next = Triple-modify _ (λ w h. (
    h.0,
    started request free free_gen (sym next)
        (ap (λ (ts : List Task). insert_task (task_of request) ts) h.1),
  ))

  request_queued_proofs-Triple :
      env.latest_block_number ≡ some latest
      → Triple Same (λ _ w. Queued w) Same (request_queued_proofs env config)
  unfolding request_queued_proofs
  request_queued_proofs-Triple el = Triple-bind _ _ _ (count_of-known witness_generation) (λ gen.
      Triple-known (λ gen_is. Triple-bind _ _ _ (count_of-known execution) (λ exec.
        Triple-known (λ exec_is. Triple-bind _ _ _ (count_of-known prove) (λ proving.
          Triple-known (λ proving_is.
            Triple-if (is_full (gen + exec + proving) config.max_concurrent_proof_requests) _ _
              (λ full.
                Triple-pure tt
                  (λ w h. (h.0, limited (inl (rw (← gen_is, ← exec_is, ← proving_is) full)) h.1)))
              (λ free.
                Triple-if (is_full gen config.max_concurrent_witness_gen) _ _
                  (λ full. Triple-pure tt (λ w h. (h.0, limited (inr (rw (← gen_is) full)) h.1)))
                  (λ free_gen. Triple-bind _ _ _ (get_next_unrequested_proof-next el) (λ request.
                    Triple-known (λ next.
                      spawn-Queued request (rw (← gen_is, ← exec_is, ← proving_is) free)
                        (rw (← gen_is) free_gen) next))))))))))

-- `request_queued_proofs`, told by the contract that `latest` is proposed. It leaves the database alone.
-- On success it has started no task, because one of the two limits is reached or nothing is in line; or
-- it has started one task, for the request next in line, with both limits not reached (`IsQueued`). On an
-- error or a panic it has started none.
pub request_queued_proofs-IsQueued :
    (env : Env) (config : Config) (latest : ℕ) (w : World)
    → env.latest_block_number ≡ some latest
    → After
        (λ _ w'. (w'.db ≡ w.db) × IsQueued config latest w.db w.tasks w'.tasks)
        (λ w'. (w'.db ≡ w.db) × (w'.tasks ≡ w.tasks))
        (request_queued_proofs env config w).0
        (request_queued_proofs env config w).1
request_queued_proofs-IsQueued env config latest w el =
    (request_queued_proofs-Triple env config latest w.db w.tasks el).at w (refl, refl)
