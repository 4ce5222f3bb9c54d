-- ===== src/Request/Totals.antt =====
-- BlockTotals over the blocks of a range (validity/src/db/types.rs).
use mathlib.Core.Option
use mina_evm_l.Prelude.{
  ℕ, ◌+◌, ◌^◌, ◌<◌, ◌≡◌, refl, Option, none, some, List, [], ◌∷◌, arith, lt→ltb,
}
use mina_evm_l.Request.{
  B256, BlockInfo, BlockTotals, RequestMode, Request, default_request, add_word, sum_word,
  block_totals, new_range_request,
}

abbrev pub sum : (BlockInfo → ℕ) → List BlockInfo → ℕ
sum field [] = 0
sum field (b ∷ blocks) = field b + sum field blocks

-- A total is exact while it fits its word.
pub sum_word-exact :
    (modulus : ℕ) (field : BlockInfo → ℕ) (blocks : List BlockInfo)
    → sum field blocks < modulus
    → sum_word modulus field blocks ≡ some (sum field blocks)
unfolding sum_word
sum_word-exact m field [] h = refl
sum_word-exact m field (b ∷ blocks) h =
    rw (sum_word-exact m field blocks (omega arith), sum_word)
      (rw (lt→ltb (field b + sum field blocks) m h, add_word))

-- The totals of the blocks fit the words that they are summed up in.
abbrev pub IsSmallData : List BlockInfo → Type 0
IsSmallData blocks =
    (sum (λ b. b.transaction_count) blocks < 2 ^ 64)
    × (sum (λ b. b.gas_used) blocks < 2 ^ 64)
    × (sum (λ b. b.total_l1_fees) blocks < 2 ^ 128)
    × (sum (λ b. b.total_tx_fees) blocks < 2 ^ 128)

block_totals-some :
    (blocks : List BlockInfo)
    → IsSmallData blocks
    → (totals : BlockTotals) × (block_totals blocks ≡ some totals)
unfolding block_totals
block_totals-some blocks (txs, gas, l1, fees) = (
  record {
    nb_transactions = sum (λ b. b.transaction_count) blocks;
    eth_gas_used = sum (λ b. b.gas_used) blocks;
    l1_fees = sum (λ b. b.total_l1_fees) blocks;
    tx_fees = sum (λ b. b.total_tx_fees) blocks;
  },
  rw
      (
        sum_word-exact (2 ^ 64) (λ b. b.transaction_count) blocks txs,
        sum_word-exact (2 ^ 64) (λ b. b.gas_used) blocks gas,
        sum_word-exact (2 ^ 128) (λ b. b.total_l1_fees) blocks l1,
        sum_word-exact (2 ^ 128) (λ b. b.total_tx_fees) blocks fees,
      )
      refl,
)

map-some :
    {A B : Type 0} (f : A → B) (o : Option A) (b : B)
    → Option.map f o ≡ some b
    → (a : A) × (b ≡ f a)
map-some f none b e = absurd cc
map-some f (some a) b e = (a, cc)

-- The row that `new_range_request` makes.
abbrev pub range_row : RequestMode → ℕ → ℕ → B256 → B256 → BlockTotals → ℕ → ℕ → ℕ → Request
range_row mode start end range_vkey rollup_config totals l1_chain l2_chain now =
    record default_request {
      mode = mode;
      start_block = start;
      end_block = end;
      created_at = now;
      updated_at = now;
      range_vkey_commitment = range_vkey;
      rollup_config_hash = rollup_config;
      total_nb_transactions = totals.nb_transactions;
      total_eth_gas_used = totals.eth_gas_used;
      total_l1_fees = totals.l1_fees;
      total_tx_fees = totals.tx_fees;
      l1_chain_id = l1_chain;
      l2_chain_id = l2_chain;
    }

module _ (mode : RequestMode) (start end range_vkey rollup_config : ℕ) (blocks : List BlockInfo)
    (l1_chain l2_chain now : ℕ) where
  pub new_range_request-row :
      (r : Request)
      → new_range_request mode start end range_vkey rollup_config blocks l1_chain l2_chain now
        ≡ some r
      → (totals : BlockTotals) × (r
          ≡ range_row mode start end range_vkey rollup_config totals l1_chain l2_chain now)
  unfolding new_range_request
  new_range_request-row r e =
      map-some
        (λ totals. range_row mode start end range_vkey rollup_config totals l1_chain l2_chain now)
        (block_totals blocks) r e

  pub new_range_request-some :
      IsSmallData blocks
      → (r : Request) × (new_range_request mode start end range_vkey rollup_config blocks l1_chain
            l2_chain now
          ≡ some r)
  unfolding new_range_request
  new_range_request-some small =
      let (totals, e) = block_totals-some blocks small in
      (range_row mode start end range_vkey rollup_config totals l1_chain l2_chain now, rw e refl)
