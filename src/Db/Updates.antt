-- ===== src/Db/Updates.antt =====
-- The statements of validity/src/db/client.rs that write. `now` is NOW().
use mathlib.Core.Option
use mina_evm_l.Prelude.{
  ℕ, zero, suc, ◌-◌, Bool, ◌&&◌, ◌||◌, not, some, List, [], ◌∷◌, ◌++◌, ◌==◌, ltb, if◌then◌else◌,
  map, filter, length, count_if,
}
use mina_evm_l.Request.{
  B256, Address, Bytes, RequestStatus, prove, complete, relayed, cancelled, is_status,
  RequestExecutionStatistics, Request, CommitmentConfig,
}
use mina_evm_l.Db.Table.{ChainLock, Db, same_chain, is_any, update_where}

abbrev pub is_lock_of : ℕ → ℕ → ChainLock → Bool
is_lock_of l1 l2 lock = lock.l1_chain_id == l1 && lock.l2_chain_id == l2

-- UPDATE chain_locks SET locked_at = NOW() WHERE ...
unfoldable pub update_chain_lock : ℕ → ℕ → ℕ → Db → Db
update_chain_lock l1 l2 now db = record db {
  chain_locks =
      map (λ lock. if is_lock_of l1 l2 lock then record lock { locked_at = now } else lock)
        db.chain_locks;
}

-- INSERT ... ON CONFLICT (l1_chain_id, l2_chain_id) DO UPDATE SET locked_at = NOW()
unfoldable pub add_chain_lock : ℕ → ℕ → ℕ → Db → Db
unfolding update_chain_lock
add_chain_lock l1 l2 now db =
    if ltb 0 (count_if (is_lock_of l1 l2) db.chain_locks)
    then update_chain_lock l1 l2 now db
    else record db {
      chain_locks =
          db.chain_locks ++ record { l1_chain_id = l1; l2_chain_id = l2; locked_at = now } ∷ [];
    }

-- The row is given the next id; all other columns are the request's.
unfoldable pub insert_request : Request → Db → Db
insert_request req db = record db {
  requests = db.requests ++ record req { id = db.next_id } ∷ [];
  next_id = suc db.next_id;
}

-- One INSERT of several rows.
unfoldable pub insert_chunk : List Request → Db → Db
unfolding insert_request
insert_chunk [] db = db
insert_chunk (req ∷ requests) db = insert_chunk requests (insert_request req db)

abbrev pub take : ℕ → List Request → List Request
take zero rows = []
take (suc n) [] = []
take (suc n) (r ∷ rows) = r ∷ take n rows

abbrev pub drop : ℕ → List Request → List Request
drop zero rows = rows
drop (suc n) [] = []
drop (suc n) (r ∷ rows) = drop n rows

abbrev pub batch_size : ℕ
batch_size = 100

-- `for chunk in requests.chunks(BATCH_SIZE)`: a round for each request is enough.
unfoldable pub insert_chunks : ℕ → List Request → Db → Db
unfolding insert_chunk
insert_chunks zero requests db = db
insert_chunks (suc rounds) [] db = db
insert_chunks (suc rounds) (r ∷ requests) db =
    insert_chunks rounds (drop batch_size (r ∷ requests))
      (insert_chunk (take batch_size (r ∷ requests)) db)

-- In one transaction: it happens as a whole or not at all.
unfoldable pub insert_requests : List Request → Db → Db
unfolding insert_chunks
insert_requests requests db = insert_chunks (length requests) requests db

-- UPDATE requests SET ... WHERE id = $
abbrev pub update_by_id : ℕ → (Request → Request) → Db → Db
update_by_id id f db = record db { requests = update_where (λ r. r.id == id) f db.requests }

unfoldable pub update_l1_head_block_number : ℕ → ℕ → Db → Db
update_l1_head_block_number id number =
    update_by_id id (λ r. record r { l1_head_block_number = some number })

-- NOW() - proof_request_time is NULL if the time is; the clock does not run backwards.
unfoldable pub update_prove_duration : ℕ → ℕ → Db → Db
update_prove_duration id now =
    update_by_id id
      (λ r. record r { prove_duration = Option.map (λ t. now - t) r.proof_request_time })

unfoldable pub update_proof_to_complete : ℕ → Bytes → ℕ → Db → Db
update_proof_to_complete id proof now =
    update_by_id id (λ r. record r { proof = some proof; status = complete; updated_at = now })

unfoldable pub update_witnessgen_duration : ℕ → ℕ → ℕ → Db → Db
update_witnessgen_duration id duration now =
    update_by_id id (λ r. record r { witnessgen_duration = some duration; updated_at = now })

unfoldable pub update_request_status : ℕ → RequestStatus → ℕ → Db → Db
update_request_status id new_status now =
    update_by_id id (λ r. record r { status = new_status; updated_at = now })

unfoldable pub update_request_to_prove : ℕ → B256 → ℕ → Db → Db
update_request_to_prove id proof_id now = update_by_id id (λ r. record r {
  status = prove;
  proof_request_id = some proof_id;
  proof_request_time = some now;
  updated_at = now;
})

unfoldable pub update_request_to_relayed : ℕ → B256 → Address → ℕ → Db → Db
update_request_to_relayed id tx_hash contract now = update_by_id id (λ r. record r {
  status = relayed;
  relay_tx_hash = some tx_hash;
  contract_address = some contract;
  updated_at = now;
})

unfoldable pub insert_execution_statistics : ℕ → RequestExecutionStatistics → ℕ → Db → Db
insert_execution_statistics id statistics duration =
    update_by_id id
      (λ r. record r { execution_statistics = some statistics; execution_duration = some duration })

unfoldable pub cancel_all_requests_with_statuses : List RequestStatus → ℕ → ℕ → Db → Db
cancel_all_requests_with_statuses statuses l1 l2 db = record db {
  requests =
      update_where (λ r. is_any statuses r.status && same_chain l1 l2 r)
        (λ r. record r { status = cancelled }) db.requests;
}

unfoldable pub delete_all_requests_with_statuses : List RequestStatus → ℕ → ℕ → Db → Db
delete_all_requests_with_statuses statuses l1 l2 db = record db {
  requests = filter (λ r. not (is_any statuses r.status && same_chain l1 l2 r)) db.requests;
}

-- status = PROVE AND (range_vkey_commitment != $ OR rollup_config_hash != $) AND ...
abbrev pub is_foreign_prove : CommitmentConfig → ℕ → ℕ → Request → Bool
is_foreign_prove c l1 l2 r =
    is_status r.status prove
    && (not (r.range_vkey_commitment == c.range_vkey_commitment)
        || not (r.rollup_config_hash == c.rollup_config_hash))
    && same_chain l1 l2 r

unfoldable pub cancel_prove_requests_with_different_commitment_config :
    CommitmentConfig → ℕ → ℕ → Db → Db
cancel_prove_requests_with_different_commitment_config c l1 l2 db = record db {
  requests =
      update_where (is_foreign_prove c l1 l2) (λ r. record r { status = cancelled }) db.requests;
}
