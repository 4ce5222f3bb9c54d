-- ===== src/WellFormed/Fetched.antt =====
-- What the queries of validity/src/db/client.rs find in well-formed tables.
use mina_evm_l.Prelude.{
  ℕ, ◌≤◌, ◌≡◌, inl, inr, true, Option, none, some, List, [], ◌∷◌, arith, leb, if◌then◌else◌,
  Bool-cases, head?, All, All-filter, All-filter_holds, All-zip, All-map, All-weaken, All-sort_by,
  IfSome,
}
use mina_evm_l.Request.{RequestStatus, complete, aggregation, Request, CommitmentConfig}
use mina_evm_l.Ranges.{Range}
use mina_evm_l.World.{Task}
use mina_evm_l.Db.Table.{Db, is_some, first_by_start}
use mina_evm_l.Db.Queries.{
  blocks, is_failed_agg, is_completed_agg, checkpoint_of, fetch_ranges_after_block,
  fetch_requests_by_status, fetch_failed_agg_request_with_checkpointed_block_hash,
  fetch_unrequested_agg_proof, fetch_first_unrequested_range_proof,
  fetch_completed_agg_proof_after_block, fetch_completed_ranges,
}
use mina_evm_l.WellFormed.Rows.{block_limit, RowOk, IsWf}

All-first_by_start :
    (P : Request → Type 0) (rows : List Request) → All P rows → IfSome P (first_by_start rows)
unfolding first_by_start
All-first_by_start P [] h = tt
All-first_by_start P (r ∷ rows) h = pick (first_by_start rows) (All-first_by_start P rows h.1)
  where
    pick :
        (o : Option Request)
        → IfSome P o
        → IfSome P (elim o [
          | none ↦ some r
          | some s ↦ some (if leb r.start_block s.start_block then r else s)
        ])
    pick none k = h.0
    pick (some s) k = elim (Bool-cases (leb r.start_block s.start_block)) [
      | inl e ↦ rw e h.0
      | inr e ↦ rw e k
    ]

All-head? : (P : Request → Type 0) (rows : List Request) → All P rows → IfSome P (head? rows)
All-head? P [] h = tt
All-head? P (r ∷ rows) h = h.0

-- A range below the limit.
abbrev pub IsSmall : Range → Type 0
IsSmall r = (r.0 ≤ block_limit) × (r.1 ≤ block_limit)

-- A complete aggregation row, with all that its submission reads.
abbrev pub IsProven : Request → Type 0
IsProven r = (is_some r.proof ≡ true) × (is_some r.checkpointed_l1_block_number ≡ true)

is_completed_agg_parts :
    (start : ℕ) (c : CommitmentConfig) (l1 l2 : ℕ) (r : Request)
    → is_completed_agg start c l1 l2 r ≡ true
    → (r.status ≡ complete) × (r.req_type ≡ aggregation)
is_completed_agg_parts start c l1 l2 r h = ground arith

is_failed_agg-checkpoint_of :
    (start end : ℕ) (c : CommitmentConfig) (l1 l2 : ℕ) (r : Request)
    → is_failed_agg start end c l1 l2 r ≡ true
    → is_some (checkpoint_of r) ≡ true
is_failed_agg-checkpoint_of start end c l1 l2 r h = ground arith

module _ {tasks : List Task} where
  pub fetch_requests_by_status-RowOk :
      (s : RequestStatus) (c : CommitmentConfig) (l1 l2 : ℕ) (db : Db)
      → IsWf db tasks
      → All RowOk (fetch_requests_by_status s c l1 l2 db)
  unfolding fetch_requests_by_status
  fetch_requests_by_status-RowOk s c l1 l2 db h = All-filter RowOk _ db.requests h.rows

  pub fetch_ranges_after_block-IsSmall :
      (ss : List RequestStatus) (latest : ℕ) (c : CommitmentConfig) (l1 l2 : ℕ) (db : Db)
      → IsWf db tasks
      → All IsSmall (fetch_ranges_after_block ss latest c l1 l2 db)
  unfolding fetch_ranges_after_block
  fetch_ranges_after_block-IsSmall ss latest c l1 l2 db h = All-map IsSmall blocks _ (
      All-weaken (λ r (ok : RowOk r). (ok.start_small, ok.end_small)) _
        (All-filter RowOk _ db.requests h.rows))

  pub fetch_completed_ranges-IsSmall :
      (c : CommitmentConfig) (latest l1 l2 : ℕ) (db : Db)
      → IsWf db tasks
      → All IsSmall (fetch_completed_ranges c latest l1 l2 db)
  unfolding fetch_completed_ranges
  fetch_completed_ranges-IsSmall c latest l1 l2 db h = All-map IsSmall blocks _ (
      All-weaken (λ r (ok : RowOk r). (ok.start_small, ok.end_small)) _
        (All-sort_by (λ r. r.start_block) RowOk _ (All-filter RowOk _ db.requests h.rows)))

  pub fetch_unrequested_agg_proof-RowOk :
      (latest : ℕ) (c : CommitmentConfig) (l1 l2 : ℕ) (db : Db)
      → IsWf db tasks
      → IfSome RowOk (fetch_unrequested_agg_proof latest c l1 l2 db)
  unfolding fetch_unrequested_agg_proof
  fetch_unrequested_agg_proof-RowOk latest c l1 l2 db h =
      All-first_by_start RowOk _ (All-filter RowOk _ db.requests h.rows)

  pub fetch_first_unrequested_range_proof-RowOk :
      (latest : ℕ) (c : CommitmentConfig) (l1 l2 : ℕ) (db : Db)
      → IsWf db tasks
      → IfSome RowOk (fetch_first_unrequested_range_proof latest c l1 l2 db)
  unfolding fetch_first_unrequested_range_proof
  fetch_first_unrequested_range_proof-RowOk latest c l1 l2 db h =
      All-first_by_start RowOk _ (All-filter RowOk _ db.requests h.rows)

-- The checkpoint that a new aggregation request takes over is there.
pub fetch_failed_agg_request-checkpoint_of :
    (start end : ℕ) (c : CommitmentConfig) (l1 l2 : ℕ) (db : Db)
    → IfSome
        (λ r. is_some (checkpoint_of r) ≡ true)
        (fetch_failed_agg_request_with_checkpointed_block_hash start end c l1 l2 db)
unfolding fetch_failed_agg_request_with_checkpointed_block_hash
fetch_failed_agg_request-checkpoint_of start end c l1 l2 db = All-head? _ _ (
    All-weaken (is_failed_agg-checkpoint_of start end c l1 l2) _
      (All-filter_holds (is_failed_agg start end c l1 l2) db.requests))

pub fetch_completed_agg_proof-IsProven :
    {tasks : List Task} (latest : ℕ) (c : CommitmentConfig) (l1 l2 : ℕ) (db : Db)
    → IsWf db tasks
    → IfSome IsProven (fetch_completed_agg_proof_after_block latest c l1 l2 db)
unfolding fetch_completed_agg_proof_after_block
fetch_completed_agg_proof-IsProven latest c l1 l2 db h = All-first_by_start IsProven _ (
    All-weaken proven _ (
      All-zip RowOk (λ r. is_completed_agg latest c l1 l2 r ≡ true) _
        (All-filter RowOk (is_completed_agg latest c l1 l2) db.requests h.rows)
        (All-filter_holds (is_completed_agg latest c l1 l2) db.requests)))
  where
    proven : (r : Request) → RowOk r × (is_completed_agg latest c l1 l2 r ≡ true) → IsProven r
    proven r (ok, e) =
        let (done, agg) = is_completed_agg_parts latest c l1 l2 r e in
        (ok.completed done, ok.numbered agg)
