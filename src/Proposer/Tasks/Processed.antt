-- ===== src/Proposer/Tasks/Processed.antt =====
-- What `process_proof_request_status` of validity/src/proposer.rs does with a request in Prove.
use mina_evm_l.Prelude.{
  ℕ, ◌<◌, ◌≤◌, ◌≡◌, ◌≢◌, refl, ◌⊎◌, inl, inr, true, false, Option, none, some, arith, ltb,
}
use mina_evm_l.Request.{B256, Bytes, Request, Config}
use mina_evm_l.World.{World}
use mina_evm_l.World.Triple.{
  After, Triple, Triple-known, Triple-pure, Triple-fail, Triple-or_err, Triple-unwrap,
  Triple-execute, Triple-if, Triple-bind, Triple-weaken,
}
use mina_evm_l.Env.{
  Env, FulfillmentStatus, fulfilled, unfulfillable, unspecified_fulfillment, requested, assigned,
  ProofKind, core, compressed, plonk, groth16,
}
use mina_evm_l.Db.Table.{Db}
use mina_evm_l.Db.Updates.{update_proof_to_complete, update_prove_duration, update_request_status}
use mina_evm_l.Requester.{handle_failed_request}
use mina_evm_l.Requester.Failed.{IsHandled, handle_failed_request-Triple}
use mina_evm_l.Request.{failed}
use mina_evm_l.Proposer.Tasks.{
  proof_bytes, on_fulfillment, status_of_id, process_proof_request_status,
}

-- The bytes that are stored of a proof: a compressed one as a whole, a wrapped one for the chain.
pub data IsStored (env : Env) (proof : env.Proof) : Bytes → Type 0 where
  whole : env.kind proof ≡ compressed → IsStored env proof (env.serialize proof)
  onchain :
      (env.kind proof ≡ groth16) ⊎ (env.kind proof ≡ plonk)
      → IsStored env proof (env.onchain_bytes proof)

-- The proof request is past its deadline, or cannot be fulfilled.
abbrev pub IsLost : Env → Request → B256 → Type 0
IsLost env request id =
    (deadline : ℕ) × (env.deadline id ≡ some deadline)
    × ((deadline < env.unix_time request.id) ⊎ (env.fulfillment_status id ≡ unfulfillable))

-- The database with the proof, and with the time that it took too.
abbrev pub with_proof : Request → Bytes → ℕ → Db → Db
with_proof request bytes now db = update_proof_to_complete request.id bytes now db

abbrev pub completed : Request → Bytes → ℕ → Db → Db
completed request bytes now db =
    update_prove_duration request.id now (with_proof request bytes now db)

-- Nothing is to be done: no proof was requested, it is proved locally, or the proof request is under way
-- within its deadline.
pub data IsIdle (env : Env) (config : Config) (request : Request) : Type 0 where
  no_id : request.proof_request_id ≡ none → IsIdle env config request
  local : config.use_local_proving ≡ true → IsIdle env config request
  under_way :
      (id : B256) (deadline : ℕ)
      → env.deadline id ≡ some deadline
      → env.unix_time request.id ≤ deadline
      → env.fulfillment_status id ≢ fulfilled
      → env.fulfillment_status id ≢ unfulfillable
      → IsIdle env config request

-- What is left on success.
pub data IsProcessed (env : Env) (config : Config) (request : Request) (now : ℕ) (before after : Db)
    : Type 0 where
  waiting :
      IsIdle env config request → after ≡ before → IsProcessed env config request now before after
  finished :
      (id : B256) (proof : env.Proof) (bytes : Bytes) (deadline : ℕ)
      → request.proof_request_id ≡ some id
      → config.use_local_proving ≡ false
      → env.deadline id ≡ some deadline
      → env.unix_time request.id ≤ deadline
      → env.fulfillment_status id ≡ fulfilled
      → env.fulfilled_proof id ≡ some proof
      → IsStored env proof bytes
      → after ≡ completed request bytes now before
      → IsProcessed env config request now before after
  lost :
      (id : B256)
      → request.proof_request_id ≡ some id
      → config.use_local_proving ≡ false
      → IsLost env request id
      → IsHandled config request
          (env.execution_status id)
          (update_request_status request.id failed now before)
          after
      → IsProcessed env config request now before after

-- What is left on an error or a panic: the same database, the proof without its time, or a failed request.
pub data IsUnprocessed (env : Env) (request : Request) (now : ℕ) (before after : Db) : Type 0 where
  same : after ≡ before → IsUnprocessed env request now before after
  untimed :
      (bytes : Bytes)
      → after ≡ with_proof request bytes now before
      → IsUnprocessed env request now before after
  marked :
      after ≡ update_request_status request.id failed now before
      → IsUnprocessed env request now before after

module _ (env : Env) (config : Config) (request : Request) (now : ℕ) (before : Db) where
  abbrev At : Db → World → Type 0
  At db w = (w.db ≡ db) × (w.now ≡ now)

  abbrev Processed : World → Type 0
  Processed w = IsProcessed env config request now before w.db

  abbrev Unprocessed : World → Type 0
  Unprocessed w = IsUnprocessed env request now before w.db

  proof_bytes-IsStored :
      (proof : env.Proof) (kind : ProofKind)
      → env.kind proof ≡ kind
      → Triple
          (At before)
          (λ bytes w. IsStored env proof bytes × At before w)
          Unprocessed
          (proof_bytes env config kind proof)
  unfolding proof_bytes
  proof_bytes-IsStored proof compressed is = Triple-pure _ (λ w h. (whole is, h))
  proof_bytes-IsStored proof groth16 is = Triple-pure _ (λ w h. (onchain (inl is), h))
  proof_bytes-IsStored proof plonk is = Triple-pure _ (λ w h. (onchain (inr is), h))
  proof_bytes-IsStored proof core is = Triple-fail _ (λ w h. same h.0)

  module _ (id : B256) (deadline : ℕ) (has_id : request.proof_request_id ≡ some id)
      (remote : config.use_local_proving ≡ false) (due : env.deadline id ≡ some deadline) where
    fails :
        ((deadline < env.unix_time request.id) ⊎ (env.fulfillment_status id ≡ unfulfillable))
        → Triple
            (At before)
            (λ _ w. Processed w)
            Unprocessed
            (handle_failed_request env config request (env.execution_status id))
    fails why =
        Triple-weaken (λ _ w handled. lost id has_id remote (deadline, due, why) handled) either
          (handle_failed_request-Triple env config request (env.execution_status id) before now)
      where
        either :
            (w : World)
            → (w.db ≡ before) ⊎ (w.db ≡ update_request_status request.id failed now before)
            → Unprocessed w
        either w (inl e) = same e
        either w (inr e) = marked e

    on_fulfillment-IsProcessed :
        (status : FulfillmentStatus)
        → env.fulfillment_status id ≡ status
        → env.unix_time request.id ≤ deadline
        → Triple
            (At before)
            (λ _ w. Processed w)
            Unprocessed
            (on_fulfillment env config status request id)
    unfolding on_fulfillment
    on_fulfillment-IsProcessed fulfilled is intime =
        Triple-bind (λ proof w. (env.fulfilled_proof id ≡ some proof) × At before w) _ _
          (Triple-unwrap _ (λ proof e w h. (e, h)) (λ w h. same h.0))
          (λ proof. Triple-known (λ given.
            Triple-bind (λ bytes w. IsStored env proof bytes × At before w) _ _
              (proof_bytes-IsStored proof (env.kind proof) refl)
              (λ bytes. Triple-known (λ stored.
                Triple-bind (λ _ w. At (with_proof request bytes now before) w) _ _
                  (Triple-execute _ (λ w faults h. (rw (h.0, h.1) refl, h.1))
                    (λ w faults h. same h.0))
                  (λ _.
                    Triple-execute _
                      (λ w faults h.
                        IsProcessed.finished id proof bytes deadline has_id remote due intime is
                          given stored (rw (h.0, h.1) refl))
                      (λ w faults h. untimed bytes h.0))))))
    on_fulfillment-IsProcessed unfulfillable is intime = fails (inr is)
    on_fulfillment-IsProcessed unspecified_fulfillment is intime =
        Triple-pure tt (λ w h. waiting (under_way id deadline due intime (λ e. cc) (λ e. cc)) h.0)
    on_fulfillment-IsProcessed requested is intime =
        Triple-pure tt (λ w h. waiting (under_way id deadline due intime (λ e. cc) (λ e. cc)) h.0)
    on_fulfillment-IsProcessed assigned is intime =
        Triple-pure tt (λ w h. waiting (under_way id deadline due intime (λ e. cc) (λ e. cc)) h.0)

  status_of_id-IsProcessed :
      (id : Option B256)
      → request.proof_request_id ≡ id
      → Triple (At before) (λ _ w. Processed w) Unprocessed (status_of_id env config id request)
  unfolding status_of_id
  status_of_id-IsProcessed none has_id = Triple-pure tt (λ w h. waiting (no_id has_id) h.0)
  status_of_id-IsProcessed (some id) has_id =
      Triple-if config.use_local_proving _ _
        (λ here. Triple-pure tt (λ w h. waiting (local here) h.0))
        (λ remote.
          Triple-bind (λ deadline w. (env.deadline id ≡ some deadline) × At before w) _ _
            (Triple-or_err _ _ (λ deadline e w h. (e, h)) (λ w h. same h.0))
            (λ deadline. Triple-known (λ due.
              Triple-if (ltb deadline (env.unix_time request.id)) _ _
                (λ late. fails id deadline has_id remote due (inl (ground arith)))
                (λ intime.
                  on_fulfillment-IsProcessed id deadline has_id remote due
                    (env.fulfillment_status id) refl (ground arith)))))

-- A request in Prove: on success nothing is to be done and nothing changed; or its proof request is fulfilled within the deadline,
-- and the request is complete with its proof and the time it took; or the proof request is past its
-- deadline or cannot be fulfilled, and the request is handled as failed (`IsProcessed`). On an error or a
-- panic the database is the same, or has the proof without the time, or the request as failed.
pub process_proof_request_status-IsProcessed :
    (env : Env) (config : Config) (request : Request) (w : World)
    → After
        (λ _ w'. IsProcessed env config request w.now w.db w'.db)
        (λ w'. IsUnprocessed env request w.now w.db w'.db)
        (process_proof_request_status env config request w).0
        (process_proof_request_status env config request w).1
unfolding process_proof_request_status
process_proof_request_status-IsProcessed env config request w =
    (status_of_id-IsProcessed env config request w.now w.db request.proof_request_id refl).at w
      (refl, refl)
