-- ===== src/WellFormed/Requests.antt =====
-- The proof requester keeps the rows well-formed (validity/src/proof_requester.rs).
use mina_evm_l.Prelude.{ℕ, ◌+◌, ◌/◌, ◌≤◌, ◌≡◌, Option, none, some, List, [], ◌∷◌, arith, ltb, ◌||◌}
use mina_evm_l.Request.{
  RequestMode, RequestType, range, aggregation, witness_generation, execution, failed, Request,
  BlockInfo, Config, ExecutionReport, new_range_request,
}
use mina_evm_l.Request.Totals.{IsSmallData, new_range_request-row, new_range_request-some}
use mina_evm_l.World.{World, Exec, execute, ◌>>=◌}
use mina_evm_l.World.Safe.{
  Safe, Any, Safe-pure, Safe-fail, Safe-or_err, Safe-unwrap, Safe-query, Safe-if, Safe-execute,
  Safe-bind, Safe-collect, All-Any,
}
use mina_evm_l.Db.Updates.{update_proof_to_complete, update_request_to_prove}
use mina_evm_l.Env.{Env, ExecutionStatus}
use mina_evm_l.Requester.{
  create_range_request, record_l1_head, range_proof_witnessgen, decode_proof, agg_proof_witnessgen,
  local_proof, request_proof, mock_proof, split_failed, can_split, handle_failed_request,
  is_unexecutable, stdin_for, generate_proof_stdin, prove_request, make_proof_request,
}
use mina_evm_l.WellFormed.Rows.{
  block_limit, RowOk, IsWf, insert_requests-IsWf, update_l1_head_block_number-IsWf,
  update_proof_to_complete-IsWf, update_witnessgen_duration-IsWf, update_request_status-IsWf,
  update_request_to_prove-IsWf, insert_execution_statistics-IsWf,
}

pub new_range_request-RowOk :
    (mode : RequestMode) (start end vkey rollup : ℕ) (data' : List BlockInfo) (l1 l2 now : ℕ)
    → start ≤ block_limit
    → end ≤ block_limit
    → (r : Request) → new_range_request mode start end vkey rollup data' l1 l2 now ≡ some r
    → RowOk r
new_range_request-RowOk mode start end vkey rollup data' l1 l2 now hs he r e =
    let (totals, e') = new_range_request-row mode start end vkey rollup data' l1 l2 now r e in
    rw e' (ground arith)

-- The totals of the blocks that the node tells fit their words.
abbrev pub HasSmallData : Env → Type 0
HasSmallData env =
    (start end : ℕ) (block_data : List BlockInfo)
    → env.l2_block_data start end ≡ some block_data
    → IsSmallData block_data

module _ {C : Type 0} (env : Env) (config : Config) (data_small : HasSmallData env) where
  pub create_range_request-Safe :
      (mode : RequestMode) (start end vkey rollup l1 l2 : ℕ)
      → start ≤ block_limit
      → end ≤ block_limit
      → Safe C IsWf RowOk (create_range_request env config mode start end vkey rollup l1 l2)
  unfolding create_range_request
  create_range_request-Safe mode start end vkey rollup l1 l2 hs he =
      Safe-bind {Q = IsSmallData} _ _ (Safe-or_err _ _ (data_small start end)) (λ blocks few.
        Safe-unwrap _
          (λ e.
            let (r, e') =
              new_range_request-some mode start end vkey rollup blocks l1 l2 env.local_now few in
            absurd (cc (e, e')))
          (new_range_request-RowOk mode start end vkey rollup blocks l1 l2 _ hs he))

  split_failed-Safe :
      (request : Request) (l1 l2 : ℕ)
      → request.start_block ≤ block_limit
      → request.end_block ≤ block_limit
      → Safe C IsWf Any (split_failed env config request l1 l2)
  unfolding split_failed
  split_failed-Safe request l1 l2 hs he =
      Safe-bind {Q = λ sum. sum ≤ block_limit + block_limit} _ _
        (Safe-unwrap _ (λ e. absurd (ground arith)) (λ sum e. ground arith))
        (λ sum small.
          Safe-bind _ _
            (create_range_request-Safe request.mode request.start_block (sum / 2) _ _ l1 l2 hs
              (omega arith))
            (λ left ok_left.
              Safe-bind _ _
                (create_range_request-Safe request.mode (sum / 2) request.end_block _ _ l1 l2
                  (omega arith) he)
                (λ right ok_right. Safe-execute _ (λ now db tasks.
                  insert_requests-IsWf (left ∷ right ∷ []) (ok_left, (ok_right, tt)) db))))

  pub handle_failed_request-Safe :
      (request : Request) (status : ExecutionStatus)
      → RowOk request
      → Safe C IsWf Any (handle_failed_request env config request status)
  unfolding handle_failed_request
  handle_failed_request-Safe request status ok =
      Safe-bind _ _
        (Safe-execute _
          (λ now db tasks. update_request_status-IsWf request.id failed (λ e. cc) (λ e. cc) now db))
        (λ _ _. Safe-bind {Q = Any} _ _ (Safe-or_err _ _ (λ _ _. tt)) (λ l1 _.
          Safe-bind {Q = Any} _ _ (Safe-or_err _ _ (λ _ _. tt)) (λ l2 _.
            Safe-if (can_split request) _ _
              (λ _. Safe-bind {Q = Any} _ _ (Safe-query _ (λ _ _ _. tt)) (λ count _.
                Safe-if (ltb 2 count || is_unexecutable status) _ _
                  (λ _. split_failed-Safe request l1 l2 ok.start_small ok.end_small)
                  (λ _. Safe-pure tt tt)))
              (λ _. Safe-pure tt tt))))

-- A spawned task may panic, which ends the task alone.
module _ {C : Type 0} (may_panic : C) (env : Env) (config : Config) where
  open env use {Stdin, Proof}

  record_l1_head-Safe :
      (id : ℕ) (head : Option ℕ) → Safe C IsWf Any (record_l1_head env config id head)
  unfolding record_l1_head
  record_l1_head-Safe id none = Safe-pure tt tt
  record_l1_head-Safe id (some head) =
      Safe-bind {Q = Any} _ _ (Safe-or_err _ _ (λ _ _. tt))
        (λ number _. Safe-execute _ (λ now db tasks. update_l1_head_block_number-IsWf id number db))

  range_proof_witnessgen-Safe :
      (request : Request) → Safe C IsWf Any (range_proof_witnessgen env config request)
  unfolding range_proof_witnessgen
  range_proof_witnessgen-Safe request =
      Safe-bind {Q = Any} _ _ (Safe-or_err _ _ (λ _ _. tt)) (λ args _.
        Safe-bind _ _ (record_l1_head-Safe request.id (env.l1_head_hash args)) (λ _ _.
          Safe-bind {Q = Any} _ _ (Safe-or_err _ _ (λ _ _. tt))
            (λ witness _. Safe-unwrap _ (λ _. may_panic) (λ _ _. tt))))

  decode_proof-Safe : (request : Request) → Safe C IsWf Any (decode_proof env config request)
  unfolding decode_proof
  decode_proof-Safe request =
      Safe-bind {Q = Any} _ _ (Safe-unwrap _ (λ _. may_panic) (λ _ _. tt))
        (λ bytes _. Safe-unwrap _ (λ _. may_panic) (λ _ _. tt))

  agg_proof_witnessgen-Safe :
      (start end l1_hash l1 l2 prover : ℕ)
      → Safe C IsWf Any (agg_proof_witnessgen env config start end l1_hash l1 l2 prover)
  unfolding agg_proof_witnessgen
  agg_proof_witnessgen-Safe start end l1_hash l1 l2 prover =
      Safe-bind {Q = Any} _ _ (Safe-query _ (λ _ _ _. tt)) (λ proofs _.
        Safe-bind _ _ (Safe-collect Any proofs _ (λ r _. decode_proof-Safe r) (All-Any proofs))
          (λ decoded _.
            Safe-bind {Q = Any} _ _ (Safe-or_err _ _ (λ _ _. tt))
              (λ headers _. Safe-or_err _ _ (λ _ _. tt))))

  generate_proof_stdin-Safe :
      (request : Request) → Safe C IsWf Any (generate_proof_stdin env config request)
  unfolding generate_proof_stdin
  generate_proof_stdin-Safe request = by_type request.req_type
    where
      by_type : (t : RequestType) → Safe C IsWf Any (stdin_for env config t request)
      by_type range = range_proof_witnessgen-Safe request
      by_type aggregation = Safe-bind {Q = Any} _ _ (Safe-or_err _ _ (λ _ _. tt)) (λ l1_hash _.
          Safe-bind {Q = Any} _ _ (Safe-or_err _ _ (λ _ _. tt))
            (λ prover _. agg_proof_witnessgen-Safe _ _ l1_hash _ _ prover))

  mock_proof-Safe :
      (id : ℕ) (report : Option ExecutionReport) (proof : Proof)
      → Safe C IsWf Any (mock_proof env config id report proof)
  unfolding mock_proof
  mock_proof-Safe id report proof = Safe-bind {Q = Any} _ _ (Safe-or_err _ _ (λ _ _. tt)) (λ ran _.
      Safe-bind _ _ (Safe-execute _ (λ now db tasks. insert_execution_statistics-IsWf id _ _ db))
        (λ _ _. Safe-pure proof tt))

  local_proof-Safe :
      (prove : Stdin → Option Proof) (stdin : Stdin)
      → Safe C IsWf Any (local_proof env config prove stdin)
  unfolding local_proof
  local_proof-Safe prove stdin =
      Safe-if config.use_local_proving _ _ (λ _. Safe-or_err _ _ (λ _ _. tt)) (λ _. Safe-fail _)

  request_proof-Safe :
      (request : Stdin → Option ℕ) (stdin : Stdin)
      → Safe C IsWf Any (request_proof env config request stdin)
  unfolding request_proof
  request_proof-Safe request stdin =
      Safe-if config.use_local_proving _ _ (λ _. Safe-fail _) (λ _. Safe-or_err _ _ (λ _ _. tt))

  -- The end of each way to a proof.
  completes-Safe :
      (id : ℕ) (bytes : Proof → List ℕ) (m : Exec Proof)
      → Safe C IsWf Any m
      → Safe C IsWf Any (m >>= λ proof. execute (update_proof_to_complete id (bytes proof)))
  completes-Safe id bytes m h = Safe-bind _ _ h (λ proof _.
      Safe-execute _ (λ now db tasks. update_proof_to_complete-IsWf id (bytes proof) now db))

  proves-Safe :
      (id : ℕ) (m : Exec ℕ)
      → Safe C IsWf Any m
      → Safe C IsWf Any (m >>= λ proof_id. execute (update_request_to_prove id proof_id))
  proves-Safe id m h = Safe-bind _ _ h (λ proof_id _.
      Safe-execute _ (λ now db tasks. update_request_to_prove-IsWf id proof_id now db))

  prove_request-Safe :
      (t : RequestType) (request : Request) (stdin : Stdin)
      → Safe C IsWf Any (prove_request env config t request stdin)
  unfolding prove_request
  prove_request-Safe range request stdin =
      Safe-if config.mock _ _ (λ _. completes-Safe _ env.serialize _ (mock_proof-Safe _ _ _))
        (λ _.
          Safe-if config.use_local_proving _ _
            (λ _. completes-Safe _ env.serialize _ (local_proof-Safe _ stdin))
            (λ _. proves-Safe _ _ (request_proof-Safe _ stdin)))
  prove_request-Safe aggregation request stdin =
      Safe-if config.mock _ _ (λ _. completes-Safe _ env.onchain_bytes _ (mock_proof-Safe _ _ _))
        (λ _.
          Safe-if config.use_local_proving _ _
            (λ _. completes-Safe _ env.onchain_bytes _ (local_proof-Safe _ stdin))
            (λ _. proves-Safe _ _ (request_proof-Safe _ stdin)))

  make_proof_request-Safe :
      (request : Request) → Safe C IsWf Any (make_proof_request env config request)
  unfolding make_proof_request
  make_proof_request-Safe request =
      Safe-bind _ _
        (Safe-execute _ (λ now db tasks.
          update_request_status-IsWf request.id witness_generation (λ e. cc) (λ e. cc) now db))
        (λ _ _. Safe-bind _ _ (generate_proof_stdin-Safe request) (λ stdin _.
          Safe-bind _ _
            (Safe-execute _ (λ now db tasks. update_witnessgen_duration-IsWf request.id _ now db))
            (λ _ _.
              Safe-bind _ _
                (Safe-if config.mock _ _
                  (λ _. Safe-execute _ (λ now db tasks.
                    update_request_status-IsWf request.id execution (λ e. cc) (λ e. cc) now db))
                  (λ _. Safe-pure tt tt))
                (λ _ _. prove_request-Safe request.req_type request stdin))))

-- A proof request, which runs as a task of its own, leaves well-formed rows and tasks from well-formed
-- ones, whether it succeeds, fails or panics, whatever it is answered from outside.
pub make_proof_request-IsWf :
    (env : Env) (config : Config) (request : Request) (w : World)
    → IsWf w.db w.tasks
    → IsWf
        (make_proof_request env config request w).1.db
        (make_proof_request env config request w).1.tasks
make_proof_request-IsWf env config request w h =
    ((make_proof_request-Safe {C = Unit} tt env config request).at w h).1
