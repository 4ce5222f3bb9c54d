-- ===== src/Proposer/Chain.antt =====
-- Answers of the contracts, and the casts between `u64` and `i64` (validity/src/contract.rs and
-- validity/src/proposer.rs).
use mina_evm_l.Prelude.{
  ℕ, ◌+◌, ◌^◌, Bool, ◌&&◌, Option, none, some, ◌∷◌, ◌==◌, ltb, leb, if◌then◌else◌,
}
use mina_evm_l.Request.{CommitmentConfig, RequestMode, real, mock, Config}
use mina_evm_l.World.{
  Transaction, Exec, pure, fail, or_err, unwrap, modify, ◌>>=◌, ◌>>◌, rpc_error, config_mismatch,
}
use mina_evm_l.Env.{Env, Receipt}

-- `U256::to::<u64>`, which panics if the number is too large.
abbrev pub to_u64 : ℕ → Option ℕ
to_u64 n = if ltb n (2 ^ 64) then some n else none

-- What a `u64` loses when it is cast to `i64`.
abbrev pub i64_wrap : ℕ → ℕ
i64_wrap n = if ltb n (2 ^ 63) then 0 else 2 ^ 64

-- `high - low >= limit as i64`, on integers, for `high` and `low` that are not negative.
abbrev pub reaches : ℕ → ℕ → ℕ → Bool
reaches low high limit = leb (low + limit) (high + i64_wrap limit)

abbrev pub mode_of : Bool → RequestMode
mode_of b = if b then mock else real

abbrev pub agrees : CommitmentConfig → CommitmentConfig → Bool
agrees ours theirs =
    theirs.rollup_config_hash == ours.rollup_config_hash
    && theirs.agg_vkey_hash == ours.agg_vkey_hash
    && theirs.range_vkey_commitment == ours.range_vkey_commitment

module _ (env : Env) where
  unfoldable pub get_latest_proposed_block_number : Exec ℕ
  get_latest_proposed_block_number = do
    number ← or_err rpc_error env.latest_block_number
    unwrap (to_u64 number)

  -- `send_transaction_request`; the world keeps every transaction that was tried.
  unfoldable pub send : Transaction → Exec Receipt
  send transaction = do
    modify (λ w. record w { sent = transaction ∷ w.sent })
    or_err rpc_error (env.send_transaction_request transaction)

  unfoldable pub validate_contract_config : Config → Exec (Unit {0})
  validate_contract_config config = do
    theirs ← or_err rpc_error (env.op_succinct_configs config.op_succinct_config_name_hash)
    if agrees config.commitments theirs then pure tt else fail config_mismatch
