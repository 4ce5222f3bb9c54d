-- ===== src/Requester/Failed.antt =====
-- What `handle_failed_request` of validity/src/proof_requester.rs leaves.
use mina_evm_l.Prelude.{
  ℕ, ◌+◌, ◌/◌, ◌≤◌, ◌<◌, ◌≡◌, ap, ◌⊎◌, inl, inr, Bool, true, false, some, ◌&&◌, ◌||◌, List, [], ◌∷◌,
  arith, ltb, if◌then◌else◌,
}
use mina_evm_l.Ranges.{Range, cover}
use mina_evm_l.Request.{Request, Config, BlockInfo, failed, new_range_request}
use mina_evm_l.World.{World, pure, query, ◌>>=◌}
use mina_evm_l.World.Triple.{
  Triple, Triple-pre, Triple-pure, Triple-or_err, Triple-unwrap, Triple-query, Triple-execute,
  Triple-if, Triple-bind, Triple-subst,
}
use mina_evm_l.Env.{Env, ExecutionStatus}
use mina_evm_l.Db.Table.{Db}
use mina_evm_l.Db.Queries.{fetch_failed_request_count_by_block_range}
use mina_evm_l.Db.Updates.{update_request_status, insert_requests}
use mina_evm_l.Requester.{
  is_unexecutable, can_split, create_range_request, split_failed, handle_failed_request,
}

-- The middle block of `split_failed` divides the blocks of a range of two or more in two ranges that have
-- blocks, and that have each of its blocks once.
pub halves :
    (start end : ℕ)
    → start + 1 < end
    → (start < (start + end) / 2)
      × ((start + end) / 2 < end)
      × ((b : ℕ)
          → cover b ((start, (start + end) / 2) ∷ ((start + end) / 2, end) ∷ [])
            ≡ cover b ((start, end) ∷ []))
halves start end lt = (omega arith, omega arith, λ b. ground arith)

-- The code splits: a range of two blocks or more that has failed three times, or cannot be executed.
abbrev pub splits : Config → Request → ExecutionStatus → Db → Bool
splits config request status db =
    can_split request
    && (ltb 2 (
          fetch_failed_request_count_by_block_range request.start_block request.end_block
            request.l1_chain_id request.l2_chain_id config.commitments db)
        || is_unexecutable status)

-- A new request in the failed one's mode for the blocks of a range.
abbrev pub IsHalf : Config → Request → Range → Request → Type 0
IsHalf config request range r =
    (block_data : List BlockInfo) × (l1_chain l2_chain now : ℕ) × (new_range_request request.mode
        range.0 range.1 config.commitments.range_vkey_commitment
        config.commitments.rollup_config_hash block_data l1_chain l2_chain now
      ≡ some r)

-- What is left of a database in which the request is marked as failed.
pub data IsHandled (config : Config) (request : Request) (status : ExecutionStatus)
    (marked after : Db) : Type 0 where
  kept :
      splits config request status marked ≡ false
      → after ≡ marked
      → IsHandled config request status marked after
  -- The first half has as many blocks as the second, or one less.
  split :
      (mid : ℕ) (left right : Request)
      → splits config request status marked ≡ true
      → request.start_block < mid
      → mid < request.end_block
      → mid + mid ≤ request.start_block + request.end_block
      → request.start_block + request.end_block ≤ mid + mid + 1
      → IsHalf config request (request.start_block, mid) left
      → IsHalf config request (mid, request.end_block) right
      → after ≡ insert_requests (left ∷ right ∷ []) marked
      → IsHandled config request status marked after

module _ (env : Env) (config : Config) (request : Request) (status : ExecutionStatus)
    (before marked : Db) where
  abbrev AtMarked : World → Type 0
  AtMarked w = w.db ≡ marked

  abbrev NotHandled : World → Type 0
  NotHandled w = (w.db ≡ before) ⊎ (w.db ≡ marked)

  create-IsHalf :
      (start end l1_chain l2_chain : ℕ) (K : Type 0)
      → Triple
          (λ w. K × AtMarked w)
          (λ r w. IsHalf config request (start, end) r × (K × AtMarked w))
          NotHandled
          (create_range_request env config request.mode start end
            config.commitments.range_vkey_commitment config.commitments.rollup_config_hash l1_chain
            l2_chain)
  unfolding create_range_request
  create-IsHalf start end l1_chain l2_chain K =
      Triple-bind (λ _ w. K × AtMarked w) _ _ (Triple-or_err _ _ (λ _ _ w h. h) (λ w h. inr h.1))
        (λ blocks.
          Triple-unwrap _ (λ r e w h. ((blocks, l1_chain, l2_chain, env.local_now, e), h))
            (λ w h. inr h.1))

  split_failed-IsHandled :
      (l1_chain l2_chain : ℕ)
      → request.start_block + 1 < request.end_block
      → splits config request status marked ≡ true
      → Triple AtMarked
          (λ _ w. IsHandled config request status marked w.db)
          NotHandled
          (split_failed env config request l1_chain l2_chain)
  unfolding split_failed
  split_failed-IsHandled l1_chain l2_chain two here =
      Triple-bind (λ sum w. (sum ≡ request.start_block + request.end_block) × AtMarked w) _ _
        (Triple-unwrap _ (λ sum e w h. (ground arith, h)) (λ w h. inr h))
        (λ sum.
          Triple-bind _ _ _
            (create-IsHalf request.start_block (sum / 2) l1_chain l2_chain
              (sum ≡ request.start_block + request.end_block))
            (λ left.
              Triple-bind
                (λ right w.
                  IsHalf config request (sum / 2, request.end_block) right
                  × ((IsHalf config request (request.start_block, sum / 2) left
                        × (sum ≡ request.start_block + request.end_block))
                      × AtMarked w))
                _ _
                (Triple-pre (λ w h. ((h.0, h.1.0), h.1.1))
                  (create-IsHalf (sum / 2) request.end_block l1_chain l2_chain (
                    IsHalf config request (request.start_block, sum / 2) left
                    × (sum ≡ request.start_block + request.end_block))))
                (λ right.
                  Triple-execute _
                    (λ w faults h.
                      split (sum / 2) left right here (omega (arith, h.1.0.1))
                        (omega (arith, h.1.0.1)) (omega (arith, h.1.0.1)) (omega (arith, h.1.0.1))
                        h.1.0.0 h.0
                        (ap (λ (db : Db). insert_requests (left ∷ right ∷ []) db) h.1.1))
                    (λ w faults h. inr h.1.1))))

  after_marking-IsHandled :
      (l1_chain l2_chain : ℕ)
      → Triple AtMarked
          (λ _ w. IsHandled config request status marked w.db)
          NotHandled
          (if can_split request
            then (do
              num_failed ← query (
                  fetch_failed_request_count_by_block_range request.start_block request.end_block
                    request.l1_chain_id request.l2_chain_id config.commitments)
              if ltb 2 num_failed || is_unexecutable status
                  then split_failed env config request l1_chain l2_chain
                  else pure tt)
            else pure tt)
  after_marking-IsHandled l1_chain l2_chain =
      Triple-if (can_split request) _ _
        (λ can.
          Triple-bind
            (λ n w.
              (n
                ≡ fetch_failed_request_count_by_block_range request.start_block request.end_block
                    request.l1_chain_id request.l2_chain_id config.commitments marked)
              × AtMarked w)
            _ _ (Triple-query _ (λ w faults e. (rw e, e)) (λ w faults e. inr e))
            (λ n.
              Triple-subst
                (λ (n : ℕ).
                  if ltb 2 n || is_unexecutable status
                  then split_failed env config request l1_chain l2_chain
                  else pure tt)
                n _
                (Triple-if
                  (ltb 2 (
                      fetch_failed_request_count_by_block_range request.start_block
                        request.end_block request.l1_chain_id request.l2_chain_id config.commitments
                        marked)
                    || is_unexecutable status)
                  _ _
                  (λ hit.
                    split_failed-IsHandled l1_chain l2_chain (ground (arith, can)) (rw (can, hit)))
                  (λ miss. Triple-pure tt (λ w e. kept (rw (can, miss)) e)))))
        (λ cannot. Triple-pure tt (λ w e. kept (rw cannot) e))

module _ (env : Env) (config : Config) (request : Request) (status : ExecutionStatus) where
  -- The database with the request marked as failed.
  abbrev pub marked_failed : World → Db
  marked_failed w = update_request_status request.id failed w.now w.db

  pub handle_failed_request-Triple :
      (before : Db) (now : ℕ)
      → Triple
          (λ w. (w.db ≡ before) × (w.now ≡ now))
          (λ _ w.
            IsHandled config request status
              (update_request_status request.id failed now before)
              w.db)
          (NotHandled env config request status before
            (update_request_status request.id failed now before))
          (handle_failed_request env config request status)
  unfolding handle_failed_request
  handle_failed_request-Triple before now =
      Triple-bind (λ _ w. w.db ≡ update_request_status request.id failed now before) _ _
        (Triple-execute _ (λ w faults h. cc) (λ w faults h. inl h.0))
        (λ _.
          Triple-bind (λ _ w. w.db ≡ update_request_status request.id failed now before) _ _
            (Triple-or_err _ _ (λ _ _ w h. h) (λ w h. inr h))
            (λ l1_chain.
              Triple-bind (λ _ w. w.db ≡ update_request_status request.id failed now before) _ _
                (Triple-or_err _ _ (λ _ _ w h. h) (λ w h. inr h))
                (λ l2_chain.
                  after_marking-IsHandled env config request status before
                    (update_request_status request.id failed now before) l1_chain l2_chain)))
