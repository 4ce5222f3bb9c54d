-- ===== src/Examples/Core.antt =====
-- Instances of the properties of the proposer's loop.
use mina_evm_l.Prelude.{
  ℕ, ◌*◌, ◌^◌, ◌≤◌, ◌≡◌, refl, ltb, if◌then◌else◌, Option, some, none, ◌⊎◌, [], ◌∷◌, filter, not,
  All, arith, false,
}
use mina_evm_l.Db.Table.{Db}
use mina_evm_l.World.{World, ok, ◌>>=◌}
use mina_evm_l.World.Triple.{After}
use mina_evm_l.Requester.{make_proof_request}
use mina_evm_l.Ranges.{cover}
use mina_evm_l.Proposer.Cover.{add_new_ranges}
use mina_evm_l.Proposer.Cover.Tiling.{IsBefore}
use mina_evm_l.Proposer.Cover.Added.{IsTiled, add_new_ranges-IsTiled, IsOnce, add_new_ranges-IsOnce}
use mina_evm_l.Proposer.Cover.Active.{active_ranges}
use mina_evm_l.Db.Queries.{fetch_ranges_after_block, is_chain_locked, fetch_active_agg_proofs_count}
use mina_evm_l.Proposer.Aggregate.{create_aggregation_proofs}
use mina_evm_l.Proposer.Aggregate.Unique.{
  active_aggs, IsAggregated, create_aggregation_proofs-IsAggregated,
  create_aggregation_proofs_unique,
}
use mina_evm_l.Proposer.Queue.{request_queued_proofs}
use mina_evm_l.Proposer.Queue.Limits.{IsQueued, request_queued_proofs-IsQueued}
use mina_evm_l.Proposer.Tasks.{
  process_proof_request_status, is_finished, handle_ongoing_tasks, set_orphaned_tasks_to_failed,
}
use mina_evm_l.Proposer.Tasks.Orphans.{is_orphan, set_orphaned_tasks_to_failed-no_orphans}
use mina_evm_l.Proposer.Tasks.Settled.{named, finished, handle_ongoing_tasks-finished}
use mina_evm_l.Proposer.Loop.{new, initialize_proposer, run_loop_iteration}
use mina_evm_l.Proposer.Loop.Startup.{
  IsClean, IsExact, deleted, initialize_proposer-IsClean, new-excludes,
}
use mina_evm_l.Proposer.Submit.{submit_agg_proofs}
use mina_evm_l.Proposer.Submit.Sent.{IsSubmitted, IsUnsubmitted, submit_agg_proofs-IsSubmitted}
use mina_evm_l.Proposer.Tasks.Processed.{
  IsProcessed, IsUnprocessed, process_proof_request_status-IsProcessed,
}
use mina_evm_l.WellFormed.Rows.{RowOk, IsWf}
use mina_evm_l.WellFormed.Requests.{make_proof_request-IsWf}
use mina_evm_l.Examples.Data.{
  config, env, envs, done_row, waiting_row, orphan_row, proving_row, failed_task, db, world,
  agg_world,
}

done_row-RowOk : RowOk done_row
done_row-RowOk = ground arith

waiting_row-RowOk : RowOk waiting_row
waiting_row-RowOk = ground arith

orphan_row-RowOk : RowOk orphan_row
orphan_row-RowOk = ground arith

proving_row-RowOk : RowOk proving_row
proving_row-RowOk = ground arith

failed_task-RowOk : RowOk failed_task.request
failed_task-RowOk = ground arith

world-IsWf : IsWf db (failed_task ∷ [])
world-IsWf = record {
  rows = (done_row-RowOk, (waiting_row-RowOk, (orphan_row-RowOk, (proving_row-RowOk, tt))));
  copies = (failed_task-RowOk, tt);
}

make_proof_request-IsWf_example :
    IsWf
      (make_proof_request env config waiting_row world).1.db
      (make_proof_request env config waiting_row world).1.tasks
make_proof_request-IsWf_example = make_proof_request-IsWf env config waiting_row world world-IsWf

active_ranges-IsBefore : All (IsBefore 27) (active_ranges config 10 db)
unfolding fetch_ranges_after_block
active_ranges-IsBefore = ground arith

add_new_ranges-IsTiled_example :
    After
      (λ _ w. IsTiled config 10 27 db w.db)
      (λ w. w.db ≡ db)
      (add_new_ranges env config world).0
      (add_new_ranges env config world).1
add_new_ranges-IsTiled_example =
    add_new_ranges-IsTiled env config 10 27 world refl refl (omega arith) (omega arith)
      active_ranges-IsBefore

each_once : (b : ℕ) → cover b (active_ranges config 10 db) ≤ 1
unfolding fetch_ranges_after_block
each_once b = ground arith

add_new_ranges-IsOnce_example :
    After
      (λ _ w. IsOnce config 10 27 db w.db)
      (λ w. (b : ℕ) → cover b (active_ranges config 10 w.db) ≤ 1)
      (add_new_ranges env config world).0
      (add_new_ranges env config world).1
add_new_ranges-IsOnce_example =
    add_new_ranges-IsOnce env config 10 27 world refl refl (omega arith) (omega arith)
      active_ranges-IsBefore each_once

create_aggregation_proofs-IsAggregated_example :
    After
      (λ _ w. IsAggregated env config 10 db w.db)
      (λ w. w.db ≡ db)
      (create_aggregation_proofs env config world).0
      (create_aggregation_proofs env config world).1
create_aggregation_proofs-IsAggregated_example =
    create_aggregation_proofs-IsAggregated env config 10 world refl

no_aggs : active_aggs config 10 db ≤ 1
unfolding fetch_active_agg_proofs_count
no_aggs = omega arith

create_aggregation_proofs_unique_example :
    active_aggs config 10 (create_aggregation_proofs env config world).1.db ≤ 1
create_aggregation_proofs_unique_example =
    create_aggregation_proofs_unique env config 10 10 world refl no_aggs

request_queued_proofs-IsQueued_example :
    After
      (λ _ w. (w.db ≡ db) × IsQueued config 10 db world.tasks w.tasks)
      (λ w. (w.db ≡ db) × (w.tasks ≡ world.tasks))
      (request_queued_proofs env config world).0
      (request_queued_proofs env config world).1
request_queued_proofs-IsQueued_example = request_queued_proofs-IsQueued env config 10 world refl

set_orphaned_tasks_to_failed-no_orphans_example :
    After
      (λ _ w.
        (w.tasks ≡ world.tasks) × All (λ r. is_orphan config world.tasks r ≡ false) w.db.requests)
      (λ w. w.tasks ≡ world.tasks)
      (set_orphaned_tasks_to_failed env config world).0
      (set_orphaned_tasks_to_failed env config world).1
set_orphaned_tasks_to_failed-no_orphans_example =
    set_orphaned_tasks_to_failed-no_orphans env config world

handle_ongoing_tasks-finished_example :
    After
      (λ _ w.
        (w.tasks ≡ filter (λ t. not (named t.id (finished world.tasks))) world.tasks)
        × All (λ t. is_finished t.outcome ≡ false) w.tasks)
      (λ _. Unit)
      (handle_ongoing_tasks env config world).0
      (handle_ongoing_tasks env config world).1
handle_ongoing_tasks-finished_example = handle_ongoing_tasks-finished env config world

initialize_proposer-IsClean_example :
    After
      (λ _ w. IsClean env config w.db)
      (λ w. (w.db ≡ db) ⊎ (w.db ≡ deleted config db))
      (initialize_proposer config env world).0
      (initialize_proposer config env world).1
initialize_proposer-IsClean_example = initialize_proposer-IsClean env config world

-- A conversion of intervals of up to 2 ^ 63 - 1 microseconds.
abbrev micros : ℕ → Option ℕ
micros seconds = if ltb (seconds * 10 ^ 6) (2 ^ 63) then some seconds else none

micros-IsExact : IsExact micros
micros-IsExact seconds interval e = ground arith

abbrev locked_db : Db
locked_db = (new config micros world).1.db

-- Another proposer on the database, half a minute later; the requests are others by now.
abbrev second : World
second = record (new config micros world).1 { db = record locked_db { requests = [] }; now = 1030 }

started : (new config micros world).0 ≡ ok tt
unfolding new is_chain_locked ◌>>=◌
started = refl

new-excludes_example :
    After
      (λ _ w. ⊥)
      (λ w. w.db ≡ second.db)
      (new config micros second).0
      (new config micros second).1
new-excludes_example =
    new-excludes config micros world second micros-IsExact started refl (omega arith)

submit_agg_proofs-IsSubmitted_example :
    After
      (λ _ w. IsSubmitted env config 10 agg_world w)
      (λ w. IsUnsubmitted env config 10 agg_world w)
      (submit_agg_proofs env config agg_world).0
      (submit_agg_proofs env config agg_world).1
submit_agg_proofs-IsSubmitted_example = submit_agg_proofs-IsSubmitted env config 10 agg_world refl

process_proof_request_status-IsProcessed_example :
    After
      (λ _ w. IsProcessed env config proving_row 1000 db w.db)
      (λ w. IsUnprocessed env proving_row 1000 db w.db)
      (process_proof_request_status env config proving_row world).0
      (process_proof_request_status env config proving_row world).1
process_proof_request_status-IsProcessed_example =
    process_proof_request_status-IsProcessed env config proving_row world

-- A start, an iteration and a proof request.
abbrev after_start : World
after_start = (initialize_proposer config env world).1

abbrev after_iteration : World
after_iteration = (run_loop_iteration config envs after_start).1

abbrev after_proof : World
after_proof = (make_proof_request env config waiting_row after_iteration).1
