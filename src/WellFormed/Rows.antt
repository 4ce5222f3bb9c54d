-- ===== src/WellFormed/Rows.antt =====
-- The invariant, and the statements of validity/src/db/client.rs that keep it.
use mina_evm_l.Prelude.{
  ℕ, zero, suc, ◌-◌, ◌^◌, ◌≤◌, ◌≡◌, ◌≢◌, ltb, count_if, inl, inr, Bool, true, List, [], ◌∷◌, ◌==◌,
  arith, Bool-cases, length, All, All-append, All-filter,
}
use mina_evm_l.Request.{
  B256, Address, Bytes, RequestStatus, prove, complete, aggregation, cancelled, Request,
  CommitmentConfig, RequestExecutionStatistics,
}
use mina_evm_l.World.{Task}
use mina_evm_l.Db.Table.{Db, is_some, update_where}
use mina_evm_l.Db.Updates.{
  insert_request, insert_chunk, insert_chunks, insert_requests, take, drop, batch_size,
  update_by_id, update_l1_head_block_number, update_prove_duration, update_proof_to_complete,
  update_witnessgen_duration, update_request_status, update_request_to_prove,
  update_request_to_relayed, insert_execution_statistics, delete_all_requests_with_statuses,
  cancel_prove_requests_with_different_commitment_config, is_foreign_prove, add_chain_lock,
  update_chain_lock, is_lock_of,
}

-- Block numbers stay below this, so that the sum of two is an `i64`.
abbrev pub block_limit : ℕ
block_limit = 2 ^ 62 - 1

-- A row in Prove has a proof id, a complete row has a proof, and an aggregation has its checkpoint and
-- its prover.
pub record RowOk (r : Request) : Type 0 where
  pub start_small : r.start_block ≤ block_limit
  pub end_small : r.end_block ≤ block_limit
  pub proving : r.status ≡ prove → is_some r.proof_request_id ≡ true
  pub completed : r.status ≡ complete → is_some r.proof ≡ true
  pub numbered : r.req_type ≡ aggregation → is_some r.checkpointed_l1_block_number ≡ true
  pub hashed : r.req_type ≡ aggregation → is_some r.checkpointed_l1_block_hash ≡ true
  pub owned : r.req_type ≡ aggregation → is_some r.prover_address ≡ true

pub record IsWf (db : Db) (tasks : List Task) : Type 0 where
  pub rows : All RowOk db.requests
  pub copies : All (λ t. RowOk t.request) tasks

All-update_where :
    (p : Request → Bool) (f : Request → Request) (rows : List Request)
    → ((r : Request) → RowOk r → RowOk (f r))
    → All RowOk rows
    → All RowOk (update_where p f rows)
All-update_where p f [] k h = tt
All-update_where p f (r ∷ rows) k h = elim (Bool-cases (p r)) [
  | inl e ↦ rw e (k r h.0, All-update_where p f rows k h.1)
  | inr e ↦ rw e (h.0, All-update_where p f rows k h.1)
]

All-take : (n : ℕ) (rows : List Request) → All RowOk rows → All RowOk (take n rows)
All-take zero rows h = tt
All-take (suc n) [] h = tt
All-take (suc n) (r ∷ rows) h = (h.0, All-take n rows h.1)

All-drop : (n : ℕ) (rows : List Request) → All RowOk rows → All RowOk (drop n rows)
All-drop zero rows h = h
All-drop (suc n) [] h = tt
All-drop (suc n) (r ∷ rows) h = All-drop n rows h.1

module _ {tasks : List Task} where
  update_by_id-IsWf :
      (id : ℕ) (f : Request → Request) (db : Db)
      → ((r : Request) → RowOk r → RowOk (f r))
      → IsWf db tasks
      → IsWf (update_by_id id f db) tasks
  update_by_id-IsWf id f db k h = record {
    rows = All-update_where (λ r. r.id == id) f db.requests k h.rows;
    copies = h.copies;
  }

  pub update_request_status-IsWf :
      (id : ℕ) (s : RequestStatus)
      → s ≢ prove
      → s ≢ complete
      → (now : ℕ) (db : Db) → IsWf db tasks
      → IsWf (update_request_status id s now db) tasks
  unfolding update_request_status
  update_request_status-IsWf id s np nc now db =
      update_by_id-IsWf id (λ r. record r { status = s; updated_at = now }) db
        (λ r ok. record {
          start_small = ok.start_small;
          end_small = ok.end_small;
          proving = λ e. absurd (np e);
          completed = λ e. absurd (nc e);
          numbered = ok.numbered;
          hashed = ok.hashed;
          owned = ok.owned;
        })

  pub update_l1_head_block_number-IsWf :
      (id number : ℕ) (db : Db)
      → IsWf db tasks
      → IsWf (update_l1_head_block_number id number db) tasks
  unfolding update_l1_head_block_number
  update_l1_head_block_number-IsWf id n db = update_by_id-IsWf id _ db (λ r ok. ground arith)

  pub update_prove_duration-IsWf :
      (id now : ℕ) (db : Db) → IsWf db tasks → IsWf (update_prove_duration id now db) tasks
  unfolding update_prove_duration
  update_prove_duration-IsWf id now db = update_by_id-IsWf id _ db (λ r ok. ground arith)

  pub update_proof_to_complete-IsWf :
      (id : ℕ) (proof : Bytes) (now : ℕ) (db : Db)
      → IsWf db tasks
      → IsWf (update_proof_to_complete id proof now db) tasks
  unfolding update_proof_to_complete
  update_proof_to_complete-IsWf id proof now db = update_by_id-IsWf id _ db (λ r ok. ground arith)

  pub update_witnessgen_duration-IsWf :
      (id duration now : ℕ) (db : Db)
      → IsWf db tasks
      → IsWf (update_witnessgen_duration id duration now db) tasks
  unfolding update_witnessgen_duration
  update_witnessgen_duration-IsWf id d now db = update_by_id-IsWf id _ db (λ r ok. ground arith)

  pub update_request_to_prove-IsWf :
      (id : ℕ) (proof_id : B256) (now : ℕ) (db : Db)
      → IsWf db tasks
      → IsWf (update_request_to_prove id proof_id now db) tasks
  unfolding update_request_to_prove
  update_request_to_prove-IsWf id proof_id now db = update_by_id-IsWf id _ db (λ r ok. ground arith)

  pub update_request_to_relayed-IsWf :
      (id : ℕ) (tx_hash : B256) (contract : Address) (now : ℕ) (db : Db)
      → IsWf db tasks
      → IsWf (update_request_to_relayed id tx_hash contract now db) tasks
  unfolding update_request_to_relayed
  update_request_to_relayed-IsWf id tx contract now db =
      update_by_id-IsWf id _ db (λ r ok. ground arith)

  pub insert_execution_statistics-IsWf :
      (id : ℕ) (statistics : RequestExecutionStatistics) (duration : ℕ) (db : Db)
      → IsWf db tasks
      → IsWf (insert_execution_statistics id statistics duration db) tasks
  unfolding insert_execution_statistics
  insert_execution_statistics-IsWf id s d db = update_by_id-IsWf id _ db (λ r ok. ground arith)

  pub delete_all_requests_with_statuses-IsWf :
      (statuses : List RequestStatus) (l1 l2 : ℕ) (db : Db)
      → IsWf db tasks
      → IsWf (delete_all_requests_with_statuses statuses l1 l2 db) tasks
  unfolding delete_all_requests_with_statuses
  delete_all_requests_with_statuses-IsWf statuses l1 l2 db h = record {
    rows = All-filter RowOk _ db.requests h.rows;
    copies = h.copies;
  }

  pub cancel_prove_requests_with_different_commitment_config-IsWf :
      (c : CommitmentConfig) (l1 l2 : ℕ) (db : Db)
      → IsWf db tasks
      → IsWf (cancel_prove_requests_with_different_commitment_config c l1 l2 db) tasks
  unfolding cancel_prove_requests_with_different_commitment_config
  cancel_prove_requests_with_different_commitment_config-IsWf c l1 l2 db h = record {
    rows =
        All-update_where (is_foreign_prove c l1 l2) (λ r. record r { status = cancelled })
          db.requests (λ r ok. ground arith) h.rows;
    copies = h.copies;
  }

  pub update_chain_lock-IsWf :
      (l1 l2 now : ℕ) (db : Db) → IsWf db tasks → IsWf (update_chain_lock l1 l2 now db) tasks
  unfolding update_chain_lock
  update_chain_lock-IsWf l1 l2 now db h = record { rows = h.rows; copies = h.copies }

  pub add_chain_lock-IsWf :
      (l1 l2 now : ℕ) (db : Db) → IsWf db tasks → IsWf (add_chain_lock l1 l2 now db) tasks
  unfolding add_chain_lock
  add_chain_lock-IsWf l1 l2 now db h =
      elim (Bool-cases (ltb 0 (count_if (is_lock_of l1 l2) db.chain_locks))) [
        | inl e ↦ rw e (record { rows = h.rows; copies = h.copies })
        | inr e ↦ rw e (record { rows = h.rows; copies = h.copies })
      ]

  pub insert_request-IsWf :
      (req : Request) → RowOk req → (db : Db) → IsWf db tasks → IsWf (insert_request req db) tasks
  unfolding insert_request
  insert_request-IsWf req ok db h = record {
    rows = All-append RowOk db.requests _ h.rows ((ground arith, tt));
    copies = h.copies;
  }

  insert_chunk-IsWf :
      (rows : List Request) (db : Db)
      → All RowOk rows
      → IsWf db tasks
      → IsWf (insert_chunk rows db) tasks
  unfolding insert_chunk
  insert_chunk-IsWf [] db ok h = h
  insert_chunk-IsWf (r ∷ rows) db ok h =
      insert_chunk-IsWf rows (insert_request r db) ok.1 (insert_request-IsWf r ok.0 db h)

  insert_chunks-IsWf :
      (rounds : ℕ) (rows : List Request) (db : Db)
      → All RowOk rows
      → IsWf db tasks
      → IsWf (insert_chunks rounds rows db) tasks
  unfolding insert_chunks
  insert_chunks-IsWf zero rows db ok h = h
  insert_chunks-IsWf (suc n) [] db ok h = h
  insert_chunks-IsWf (suc n) (r ∷ rows) db ok h =
      insert_chunks-IsWf n (drop batch_size (r ∷ rows)) _ (All-drop batch_size (r ∷ rows) ok)
        (insert_chunk-IsWf (take batch_size (r ∷ rows)) db (All-take batch_size (r ∷ rows) ok) h)

  pub insert_requests-IsWf :
      (rows : List Request)
      → All RowOk rows
      → (db : Db) → IsWf db tasks
      → IsWf (insert_requests rows db) tasks
  unfolding insert_requests
  insert_requests-IsWf rows ok db h = insert_chunks-IsWf (length rows) rows db ok h
