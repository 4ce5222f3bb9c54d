-- ===== src/Examples/Parts.antt =====
-- Instances of the properties of the parts: the database, the ranges and the aggregation requests.
use mina_evm_l.Prelude.{
  ℕ, ◌+◌, ◌≤◌, ◌≡◌, ◌≢◌, ◌↔◌, refl, none, some, List, [], ◌∷◌, ◌++◌, map, All, arith, true, sort_by,
  ltb, ◌==◌, ◌&&◌, if◌then◌else◌, length,
}
use mina_evm_l.Ranges.{Range, cover, get_ranges_to_prove, split_range, is_short}
use mina_evm_l.Ranges.Tiles.{
  IsTile, IsTiling, IsTrimmed, get_ranges_to_prove_lem, split_range-zero_interval,
}
use mina_evm_l.Request.{BlockInfo}
use mina_evm_l.Db.Queries.{
  blocks, is_chain_locked, fetch_completed_ranges, get_consecutive_complete_range_proofs,
}
use mina_evm_l.Db.Updates.{add_chain_lock}
use mina_evm_l.Db.Locks.{is_chain_locked-add_chain_lock}
use mina_evm_l.Proposer.Aggregate.{
  get_highest_proven_contiguous_block, validate_aggregation_request,
}
use mina_evm_l.Proposer.Aggregate.Linked.{
  IsLinked, StartsElsewhere, validate_aggregation_request-IsLinked,
  get_highest_proven_contiguous_block_lem,
}
use mina_evm_l.Proposer.Aggregate.Validated.{get_highest_proven_contiguous_block-validates}
use mina_evm_l.Proposer.Aggregate.Spaced.{IsDisjoint}
use mina_evm_l.Examples.Data.{commitments, done_row, agg_row, db}

one_range : IsDisjoint ((10, 15) ∷ [])
one_range = record { filled = (omega arith, tt); once = λ b. ground arith }

completed : fetch_completed_ranges commitments 10 1 10 db ≡ (10, 15) ∷ []
unfolding fetch_completed_ranges sort_by
completed = refl

highest_15 :
    get_highest_proven_contiguous_block
      (sort_by (λ (r : Range). r.0) (fetch_completed_ranges commitments 10 1 10 db))
    ≡ some 15
unfolding get_highest_proven_contiguous_block fetch_completed_ranges sort_by
highest_15 = refl

abbrev first_range : Range
first_range = (10, 15)

get_highest_proven_contiguous_block-validates_example :
    (validate_aggregation_request
        (get_consecutive_complete_range_proofs 10 15 commitments 1 10 db)
        agg_row
      ≡ true)
    ↔ (first_range.0 ≡ agg_row.start_block)
get_highest_proven_contiguous_block-validates_example =
    get_highest_proven_contiguous_block-validates commitments 1 10 db agg_row first_range []
      completed one_range highest_15

validate_aggregation_request-IsLinked_example :
    (validate_aggregation_request (done_row ∷ []) agg_row ≡ true)
    ↔ ((done_row ∷ [] ≢ []) × IsLinked 10 15 (map blocks (done_row ∷ [])))
validate_aggregation_request-IsLinked_example =
    validate_aggregation_request-IsLinked (done_row ∷ []) agg_row

get_highest_proven_contiguous_block_lem_example :
    (taken rest : List Range) × (highest : ℕ) × (get_highest_proven_contiguous_block
        ((1, 5) ∷ (5, 7) ∷ (9, 12) ∷ [])
      ≡ some highest)
    × ((5, 7) ∷ (9, 12) ∷ [] ≡ taken ++ rest)
    × IsLinked 1 highest ((1, 5) ∷ taken)
    × StartsElsewhere highest rest
get_highest_proven_contiguous_block_lem_example =
    get_highest_proven_contiguous_block_lem (1, 5) ((5, 7) ∷ (9, 12) ∷ [])

is_chain_locked-add_chain_lock_example :
    is_chain_locked 1 11 60 1030 (add_chain_lock 1 10 1000 db)
    ≡ (if 1 == 1 && 11 == 10 then ltb 1030 (1000 + 60) else is_chain_locked 1 11 60 1030 db)
is_chain_locked-add_chain_lock_example = is_chain_locked-add_chain_lock 1 10 60 1000 1030 1 11 db

get_ranges_to_prove_lem_example :
    (tiles ranges dropped : List Range) × (get_ranges_to_prove ((0, 50) ∷ (200, 210) ∷ []) 25
      ≡ some ranges)
    × IsTiling 25 ((0, 50) ∷ (200, 210) ∷ []) tiles
    × IsTrimmed 25 tiles ranges dropped
    × All (IsTile 25) ranges
    × (length dropped ≤ 1)
    × All (λ r. is_short 25 r ≡ true) dropped
    × ((b : ℕ) → cover b ranges + cover b dropped ≡ cover b ((0, 50) ∷ (200, 210) ∷ []))
get_ranges_to_prove_lem_example =
    get_ranges_to_prove_lem ((0, 50) ∷ (200, 210) ∷ []) 25 (omega arith)
      ((omega arith, omega arith), ((omega arith, omega arith), tt))

split_range-zero_interval_example : split_range 100 3 7 0 ≡ none
split_range-zero_interval_example = split_range-zero_interval 100 3 7 (omega arith) (omega arith)

abbrev two_blocks : List BlockInfo
two_blocks =
    record {
      block_number = 1;
      transaction_count = 3;
      gas_used = 21000;
      total_l1_fees = 5;
      total_tx_fees = 6;
    }
    ∷ record {
      block_number = 2;
      transaction_count = 4;
      gas_used = 42000;
      total_l1_fees = 7;
      total_tx_fees = 8;
    }
    ∷ []
