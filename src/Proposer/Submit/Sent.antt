-- ===== src/Proposer/Submit/Sent.antt =====
-- What `submit_agg_proofs` of validity/src/proposer.rs sends and records.
use mina_evm_l.Prelude.{
  ℕ, ◌≡◌, refl, ap, true, false, not, Option, none, some, List, ◌∷◌, arith, ◌==◌,
}
use mina_evm_l.Request.{B256, Bytes, Request, Config}
use mina_evm_l.World.{
  World, Exec, Transaction, create_game, propose_l2_output, or_err, unwrap, query, ◌>>=◌, rpc_error,
}
use mina_evm_l.World.Triple.{
  After, Triple, Triple-known, Triple-pure, Triple-fail, Triple-or_err, Triple-unwrap, Triple-query,
  Triple-execute, Triple-modify, Triple-if, Triple-bind, Triple-subst,
}
use mina_evm_l.Env.{Env, Receipt}
use mina_evm_l.Db.Table.{Db}
use mina_evm_l.Db.Queries.{fetch_completed_agg_proof_after_block}
use mina_evm_l.Db.Updates.{update_request_to_relayed}
use mina_evm_l.Proposer.Chain.{get_latest_proposed_block_number, send}
use mina_evm_l.Proposer.Submit.{
  validity_game_type, game_or_proposal, relay_aggregation_proof, relay, submit_agg_proofs,
}

-- The transaction that proposes the aggregation's last block with its proof and its checkpoint: a game
-- where there is a factory, else an output of the oracle.
pub data IsProposalOf (env : Env) (config : Config) (agg : Request) : Transaction → Type 0 where
  game :
      (root bond number : ℕ) (proof : Bytes)
      → (config.dgf_address == 0) ≡ false
      → env.l2_output_root agg.end_block ≡ some root
      → env.init_bonds validity_game_type ≡ some bond
      → agg.checkpointed_l1_block_number ≡ some number
      → agg.proof ≡ some proof
      → IsProposalOf env config agg (
          create_game root agg.end_block number config.prover_address
            config.op_succinct_config_name_hash proof bond)
  output :
      (root number : ℕ) (proof : Bytes)
      → (config.dgf_address == 0) ≡ true
      → env.l2_output_root agg.end_block ≡ some root
      → agg.checkpointed_l1_block_number ≡ some number
      → agg.proof ≡ some proof
      → IsProposalOf env config agg (
          propose_l2_output config.op_succinct_config_name_hash root agg.end_block number proof
            config.prover_address)

-- The completed aggregation that starts at the block.
abbrev pub completed_agg : Config → ℕ → Db → Option Request
completed_agg config latest db =
    fetch_completed_agg_proof_after_block latest config.commitments config.l1_chain_id
      config.l2_chain_id db

-- Nothing is there to submit; or the proposal was sent, confirmed, and recorded.
pub data IsSubmitted (env : Env) (config : Config) (latest : ℕ) (before after : World)
    : Type 0 where
  nothing :
      completed_agg config latest before.db ≡ none
      → after.db ≡ before.db
      → after.sent ≡ before.sent
      → IsSubmitted env config latest before after
  submitted :
      (agg : Request) (transaction : Transaction) (receipt : Receipt)
      → completed_agg config latest before.db ≡ some agg
      → IsProposalOf env config agg transaction
      → env.send_transaction_request transaction ≡ some receipt
      → receipt.status ≡ true
      → after.sent ≡ transaction ∷ before.sent
      → after.db
        ≡ update_request_to_relayed agg.id receipt.transaction_hash config.l2oo_address before.now
            before.db
      → IsSubmitted env config latest before after

-- Nothing is recorded, and at most the proposal was sent.
pub data IsUnsubmitted (env : Env) (config : Config) (latest : ℕ) (before after : World)
    : Type 0 where
  unsent :
      after.db ≡ before.db → after.sent ≡ before.sent → IsUnsubmitted env config latest before after
  tried :
      (agg : Request) (transaction : Transaction)
      → completed_agg config latest before.db ≡ some agg
      → IsProposalOf env config agg transaction
      → after.sent ≡ transaction ∷ before.sent
      → after.db ≡ before.db
      → IsUnsubmitted env config latest before after

module _ (env : Env) (config : Config) (latest : ℕ) (before : World) where
  abbrev Same : World → Type 0
  Same w = (w.db ≡ before.db) × (w.sent ≡ before.sent) × (w.now ≡ before.now)

  abbrev Failed : World → Type 0
  Failed w = IsUnsubmitted env config latest before w

  abbrev Sent : Transaction → World → Type 0
  Sent tx w = (w.db ≡ before.db) × (w.sent ≡ tx ∷ before.sent) × (w.now ≡ before.now)

  module _ (agg : Request) (found : completed_agg config latest before.db ≡ some agg) where
    abbrev Confirmed : Receipt → World → Type 0
    Confirmed receipt w =
        (tx : Transaction) × IsProposalOf env config agg tx
        × (env.send_transaction_request tx ≡ some receipt)
        × Sent tx w

    send-Confirmed :
        (tx : Transaction)
        → IsProposalOf env config agg tx
        → Triple Same Confirmed Failed (send env tx)
    unfolding send
    send-Confirmed tx is =
        Triple-bind (λ _ w. Sent tx w) _ _
          (Triple-modify _ (λ w h. (h.0, ap (λ (txs : List Transaction). tx ∷ txs) h.1, h.2)))
          (λ _.
            Triple-or_err _ _ (λ receipt e w h. (tx, is, e, h))
              (λ w h. tried agg tx found is h.1 h.0))

    game_or_proposal-Confirmed :
        (root : B256)
        → env.l2_output_root agg.end_block ≡ some root
        → Triple Same Confirmed Failed (game_or_proposal env config agg root)
    unfolding game_or_proposal
    game_or_proposal-Confirmed root rooted =
        Triple-if (not (config.dgf_address == 0)) _ _
          (λ factory. asked (env.init_bonds validity_game_type) _ (λ bond bonded.
            held agg.checkpointed_l1_block_number _ (λ number numbered.
              held agg.proof _ (λ proof proved.
                send-Confirmed _
                  (game root bond number proof (ground arith) rooted bonded numbered proved)))))
          (λ oracle. held agg.checkpointed_l1_block_number _ (λ number numbered.
            held agg.proof _ (λ proof proved.
              send-Confirmed _ (output root number proof (ground arith) rooted numbered proved))))
      where
        asked :
            {A : Type 0} (o : Option A) (k : A → Exec Receipt)
            → ((a : A) → o ≡ some a → Triple Same Confirmed Failed (k a))
            → Triple Same Confirmed Failed (or_err rpc_error o >>= k)
        asked o k h =
            Triple-bind (λ a w. (o ≡ some a) × Same w) _ _
              (Triple-or_err _ _ (λ a e w s. (e, s)) (λ w s. unsent s.0 s.1))
              (λ a. Triple-known (h a))

        held :
            {A : Type 0} (o : Option A) (k : A → Exec Receipt)
            → ((a : A) → o ≡ some a → Triple Same Confirmed Failed (k a))
            → Triple Same Confirmed Failed (unwrap o >>= k)
        held o k h =
            Triple-bind (λ a w. (o ≡ some a) × Same w) _ _
              (Triple-unwrap _ (λ a e w s. (e, s)) (λ w s. unsent s.0 s.1))
              (λ a. Triple-known (h a))

    -- The transaction went through under the hash.
    abbrev Accepted : B256 → World → Type 0
    Accepted hash w =
        (receipt : Receipt) × (receipt.status ≡ true)
        × (hash ≡ receipt.transaction_hash)
        × Confirmed receipt w

    relay_aggregation_proof-Accepted :
        Triple Same Accepted Failed (relay_aggregation_proof env config agg)
    unfolding relay_aggregation_proof
    relay_aggregation_proof-Accepted =
        Triple-bind (λ root w. (env.l2_output_root agg.end_block ≡ some root) × Same w) _ _
          (Triple-or_err _ _ (λ root e w s. (e, s)) (λ w s. unsent s.0 s.1))
          (λ root. Triple-known (λ rooted.
            Triple-bind Confirmed _ _ (game_or_proposal-Confirmed root rooted) (λ receipt.
              Triple-if receipt.status _ _ (λ went. Triple-pure _ (λ w h. (receipt, went, refl, h)))
                (λ reverted. Triple-fail _ (λ w h. tried agg h.0 found h.1 h.3.1 h.3.0)))))

    relay-IsSubmitted :
        Triple Same
          (λ _ w. IsSubmitted env config latest before w)
          Failed
          (relay env config (some agg))
    unfolding relay
    relay-IsSubmitted = Triple-bind Accepted _ _ relay_aggregation_proof-Accepted (λ hash.
        Triple-execute _
          (λ w faults h.
            let (receipt, went, hashed, confirmed) = h in
            let (tx, is, accepted, (same_db, sent, now)) = confirmed in
            submitted agg tx receipt found is accepted went sent (rw (hashed, same_db, now) refl))
          (λ w faults h.
            let (receipt, went, hashed, confirmed) = h in
            let (tx, is, accepted, (same_db, sent, now)) = confirmed in
            tried agg tx found is sent same_db))

module _ (env : Env) (config : Config) (latest : ℕ) (before : World) where
  relay_found :
      (o : Option Request)
      → completed_agg config latest before.db ≡ o
      → Triple
          (Same env config latest before)
          (λ _ w. IsSubmitted env config latest before w)
          (Failed env config latest before)
          (relay env config o)
  unfolding relay
  relay_found none found = Triple-pure tt (λ w h. nothing found h.0 h.1)
  relay_found (some agg) found = relay-IsSubmitted env config latest before agg found

  submit_agg_proofs-Triple :
      env.latest_block_number ≡ some latest
      → Triple
          (Same env config latest before)
          (λ _ w. IsSubmitted env config latest before w)
          (Failed env config latest before)
          (submit_agg_proofs env config)
  unfolding submit_agg_proofs get_latest_proposed_block_number
  submit_agg_proofs-Triple el =
      Triple-bind (λ n w. (n ≡ latest) × Same env config latest before w) _ _
        (Triple-bind (λ n w. (n ≡ latest) × Same env config latest before w) _ _
          (Triple-or_err _ _ (λ n e w h. (cc, h)) (λ w h. unsent h.0 h.1))
          (λ n. Triple-unwrap _ (λ m e w h. (ground arith, h.1)) (λ w h. unsent (h.1).0 (h.1).1)))
        (λ n.
          Triple-subst
            (λ (n : ℕ).
              query (
                fetch_completed_agg_proof_after_block n config.commitments config.l1_chain_id
                  config.l2_chain_id)
              >>= λ o. relay env config o)
            n latest
            (Triple-bind
              (λ o w. (completed_agg config latest before.db ≡ o) × Same env config latest before w)
              _ _ (Triple-query _ (λ w faults h. (rw (h.0) refl, h)) (λ w faults h. unsent h.0 h.1))
              (λ o. Triple-known (relay_found o))))

-- `submit_agg_proofs`, told by the contract that `latest` is proposed. On success there was no completed
-- aggregation that starts there, and nothing was sent or recorded; or its proposal, with its proof, its
-- checkpoint and the output root of its last block, was sent and confirmed, and it is recorded as relayed
-- (`IsSubmitted`). On an error or a panic nothing is recorded, and at most that proposal was sent.
pub submit_agg_proofs-IsSubmitted :
    (env : Env) (config : Config) (latest : ℕ) (w : World)
    → env.latest_block_number ≡ some latest
    → After
        (λ _ w'. IsSubmitted env config latest w w')
        (λ w'. IsUnsubmitted env config latest w w')
        (submit_agg_proofs env config w).0
        (submit_agg_proofs env config w).1
submit_agg_proofs-IsSubmitted env config latest w el =
    (submit_agg_proofs-Triple env config latest w el).at w (refl, refl, refl)
