-- ===== src/Db/Queries.antt =====
-- The queries of validity/src/db/client.rs that read.
use mina_evm_l.Prelude.{
  ℕ, ◌+◌, Bool, ◌&&◌, ◌||◌, Option, none, some, List, [], ◌∷◌, map, ◌==◌, ltb, leb, filter,
  count_if, head?, sort_by,
}
use mina_evm_l.Request.{
  B256, RequestStatus, unrequested, witness_generation, execution, prove, complete, failed,
  cancelled, range, aggregation, is_status, is_type, Request, CommitmentConfig,
}
use mina_evm_l.Ranges.{Range}
use mina_evm_l.Db.Table.{
  ChainLock, Db, is_some, same_commitment, same_agg_commitment, same_chain, is_any, first_by_start,
  highest_end,
}

-- locked_at > NOW() - interval
abbrev pub is_fresh : ℕ → ℕ → ℕ → ℕ → ChainLock → Bool
is_fresh l1 l2 interval now lock =
    lock.l1_chain_id == l1 && lock.l2_chain_id == l2 && ltb now (lock.locked_at + interval)

unfoldable pub is_chain_locked : ℕ → ℕ → ℕ → ℕ → Db → Bool
is_chain_locked l1 l2 interval now db =
    ltb 0 (count_if (is_fresh l1 l2 interval now) db.chain_locks)

abbrev pub is_failed_range : ℕ → ℕ → ℕ → ℕ → CommitmentConfig → Request → Bool
is_failed_range start end l1 l2 c r =
    r.start_block == start
    && r.end_block == end
    && (is_status r.status failed || is_status r.status cancelled)
    && same_commitment c r
    && same_chain l1 l2 r

unfoldable pub fetch_failed_request_count_by_block_range : ℕ → ℕ → ℕ → ℕ → CommitmentConfig → Db → ℕ
fetch_failed_request_count_by_block_range start end l1 l2 c db =
    count_if (is_failed_range start end l1 l2 c) db.requests

abbrev pub is_range_of : List RequestStatus → CommitmentConfig → ℕ → ℕ → Request → Bool
is_range_of statuses c l1 l2 r =
    same_commitment c r
    && is_any statuses r.status
    && is_type r.req_type range
    && same_chain l1 l2 r

unfoldable pub fetch_highest_end_block_for_range_request :
    List RequestStatus → CommitmentConfig → ℕ → ℕ → Db → Option ℕ
unfolding highest_end
fetch_highest_end_block_for_range_request statuses c l1 l2 db =
    highest_end (filter (is_range_of statuses c l1 l2) db.requests)

abbrev pub blocks : Request → Range
blocks r = (r.start_block, r.end_block)

abbrev pub is_range_after : List RequestStatus → ℕ → CommitmentConfig → ℕ → ℕ → Request → Bool
is_range_after statuses latest c l1 l2 r =
    is_range_of statuses c l1 l2 r && leb latest r.start_block

unfoldable pub fetch_ranges_after_block :
    List RequestStatus → ℕ → CommitmentConfig → ℕ → ℕ → Db → List Range
fetch_ranges_after_block statuses latest c l1 l2 db =
    map blocks (filter (is_range_after statuses latest c l1 l2) db.requests)

abbrev pub has_status : RequestStatus → CommitmentConfig → ℕ → ℕ → Request → Bool
has_status status c l1 l2 r = same_commitment c r && is_status r.status status && same_chain l1 l2 r

unfoldable pub fetch_request_count : RequestStatus → CommitmentConfig → ℕ → ℕ → Db → ℕ
fetch_request_count status c l1 l2 db = count_if (has_status status c l1 l2) db.requests

unfoldable pub fetch_requests_by_status :
    RequestStatus → CommitmentConfig → ℕ → ℕ → Db → List Request
fetch_requests_by_status status c l1 l2 db = filter (has_status status c l1 l2) db.requests

abbrev pub is_complete_between : ℕ → ℕ → CommitmentConfig → ℕ → ℕ → Request → Bool
is_complete_between start end c l1 l2 r =
    same_commitment c r
    && is_status r.status complete
    && is_type r.req_type range
    && leb start r.start_block
    && leb r.end_block end
    && same_chain l1 l2 r

unfoldable pub get_consecutive_complete_range_proofs :
    ℕ → ℕ → CommitmentConfig → ℕ → ℕ → Db → List Request
get_consecutive_complete_range_proofs start end c l1 l2 db =
    sort_by (λ r. r.start_block) (filter (is_complete_between start end c l1 l2) db.requests)

abbrev pub is_failed_agg : ℕ → ℕ → CommitmentConfig → ℕ → ℕ → Request → Bool
is_failed_agg start end c l1 l2 r =
    same_agg_commitment c r
    && is_type r.req_type aggregation
    && r.start_block == start
    && r.end_block == end
    && is_status r.status failed
    && is_some r.checkpointed_l1_block_hash
    && is_some r.checkpointed_l1_block_number
    && same_chain l1 l2 r

-- The `unwrap`s of the two columns; `none` does not occur, since the query asks that they are not NULL.
abbrev pub checkpoint_of : Request → Option (B256 × ℕ)
checkpoint_of r = elim r.checkpointed_l1_block_hash [
  | none ↦ none
  | some hash ↦ elim r.checkpointed_l1_block_number [
    | none ↦ none
    | some number ↦ some (hash, number)
  ]
]

-- The row that the query finds, whose checkpoint the caller takes.
unfoldable pub fetch_failed_agg_request_with_checkpointed_block_hash :
    ℕ → ℕ → CommitmentConfig → ℕ → ℕ → Db → Option Request
fetch_failed_agg_request_with_checkpointed_block_hash start end c l1 l2 db =
    head? (filter (is_failed_agg start end c l1 l2) db.requests)

abbrev pub is_active_agg : ℕ → CommitmentConfig → ℕ → ℕ → Request → Bool
is_active_agg start c l1 l2 r =
    same_agg_commitment c r
    && is_any (unrequested ∷ witness_generation ∷ execution ∷ prove ∷ complete ∷ []) r.status
    && is_type r.req_type aggregation
    && r.start_block == start
    && same_chain l1 l2 r

unfoldable pub fetch_active_agg_proofs_count : ℕ → CommitmentConfig → ℕ → ℕ → Db → ℕ
fetch_active_agg_proofs_count start c l1 l2 db = count_if (is_active_agg start c l1 l2) db.requests

abbrev pub is_unrequested_agg : ℕ → CommitmentConfig → ℕ → ℕ → Request → Bool
is_unrequested_agg latest c l1 l2 r =
    same_agg_commitment c r
    && is_status r.status unrequested
    && is_type r.req_type aggregation
    && leb latest r.start_block
    && same_chain l1 l2 r

unfoldable pub fetch_unrequested_agg_proof : ℕ → CommitmentConfig → ℕ → ℕ → Db → Option Request
unfolding first_by_start
fetch_unrequested_agg_proof latest c l1 l2 db =
    first_by_start (filter (is_unrequested_agg latest c l1 l2) db.requests)

unfoldable pub fetch_first_unrequested_range_proof :
    ℕ → CommitmentConfig → ℕ → ℕ → Db → Option Request
unfolding first_by_start
fetch_first_unrequested_range_proof latest c l1 l2 db =
    first_by_start (filter (is_range_after (unrequested ∷ []) latest c l1 l2) db.requests)

unfoldable pub fetch_completed_ranges : CommitmentConfig → ℕ → ℕ → ℕ → Db → List Range
fetch_completed_ranges c latest l1 l2 db = map blocks (
    sort_by (λ r. r.start_block)
      (filter (is_range_after (complete ∷ []) latest c l1 l2) db.requests))

abbrev pub is_completed_agg : ℕ → CommitmentConfig → ℕ → ℕ → Request → Bool
is_completed_agg latest c l1 l2 r =
    same_agg_commitment c r
    && is_status r.status complete
    && is_type r.req_type aggregation
    && r.start_block == latest
    && same_chain l1 l2 r

unfoldable pub fetch_completed_agg_proof_after_block :
    ℕ → CommitmentConfig → ℕ → ℕ → Db → Option Request
unfolding first_by_start
fetch_completed_agg_proof_after_block latest c l1 l2 db =
    first_by_start (filter (is_completed_agg latest c l1 l2) db.requests)
