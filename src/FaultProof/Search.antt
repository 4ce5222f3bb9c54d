-- ===== src/FaultProof/Search.antt =====
-- The searches for a game by its claim: fault-proof/src/lib.rs.
use mina_evm_l.Prelude.{
  ℕ, zero, suc, ◌+◌, ◌*◌, ◌-◌, ◌^◌, Bool, not, Option, none, some, ltb, ◌==◌, if◌then◌else◌,
}
use mina_evm_l.Request.{B256, Address}
use mina_evm_l.World.{Outcome, ok, err, panic}
use mina_evm_l.World.Outcomes.{◌>>=◌, or_err}
use mina_evm_l.FaultProof.{
  ProposalStatus, Games, is_unchallenged, is_challenged, fetch_latest_game_index,
}

-- The contract 0x4200000000000000000000000000000000000016.
abbrev pub message_passer : Address
message_passer = 66 * 256 ^ 19 + 22

-- The loop over the next `left` games; the first that is found ends it.
unfoldable pub search : (ℕ → Outcome (Option Address)) → ℕ → ℕ → Outcome (Option Address)
search look zero index = ok none
search look (suc left) index = elim (look index) [
  | err e ↦ err e
  | panic ↦ panic
  | ok (some address) ↦ ok (some address)
  | ok none ↦ search look left (suc index)
]

module _ (games : Games) where
  -- The conversions of the number to a u64 panic where it does not fit.
  unfoldable pub compute_output_root_at_block : ℕ → Outcome B256
  compute_output_root_at_block l2_block_number =
      if ltb l2_block_number (2 ^ 64)
      then (or_err (games.l2_block l2_block_number) >>= λ (l2_state_root, l2_claim_hash).
          or_err (games.l2_storage_root message_passer l2_block_number) >>= λ l2_storage_root. ok (
            games.hash_output (record {
              zero = 0;
              l2_state_root = l2_state_root;
              l2_storage_hash = l2_storage_root;
              l2_claim_hash = l2_claim_hash;
            })))
      else panic

  -- What the loop of `get_oldest_game_address` finds of one game: its address if it is looked for.
  unfoldable pub examine :
      (ProposalStatus → Bool) → (B256 → B256 → Bool) → ℕ → Outcome (Option Address)
  unfolding compute_output_root_at_block
  examine status_check output_root_check index = do
    address ← or_err (games.game_at_index index)
    claim ← or_err (games.claim_data address)
    if not (status_check claim.status) then ok none else (do
      current_timestamp ← or_err games.latest_timestamp
      if ltb claim.deadline current_timestamp then ok none else (do
        block_number ← or_err (games.l2_block_number address)
        game_claim ← or_err (games.root_claim address)
        output_root ← compute_output_root_at_block block_number
        if output_root_check output_root game_claim then ok (some address) else ok none))

  -- From `latest - max` up to the latest game.
  abbrev pub oldest_in : (ℕ → Outcome (Option Address)) → ℕ → Option ℕ → Outcome (Option Address)
  oldest_in look max none = ok none
  oldest_in look max (some latest) = search look (suc (latest - (latest - max))) (latest - max)

  unfoldable pub get_oldest_game_address :
      ℕ → (ProposalStatus → Bool) → (B256 → B256 → Bool) → Outcome (Option Address)
  unfolding search examine fetch_latest_game_index
  get_oldest_game_address max status_check output_root_check =
      or_err (fetch_latest_game_index games) >>= λ latest.
      oldest_in (examine status_check output_root_check) max latest

  unfoldable pub get_oldest_challengable_game_address : ℕ → Outcome (Option Address)
  unfolding get_oldest_game_address
  get_oldest_challengable_game_address max =
      get_oldest_game_address max is_unchallenged (λ output_root claim. not (output_root == claim))

  unfoldable pub get_oldest_defensible_game_address : ℕ → Outcome (Option Address)
  unfolding get_oldest_game_address
  get_oldest_defensible_game_address max =
      get_oldest_game_address max is_challenged (λ output_root claim. output_root == claim)

  -- The block of the game if its claim is right.
  unfoldable pub proposal_at : ℕ → Outcome (Option ℕ)
  unfolding compute_output_root_at_block
  proposal_at index = do
    address ← or_err (games.game_at_index index)
    block_number ← or_err (games.l2_block_number address)
    game_claim ← or_err (games.root_claim address)
    output_root ← compute_output_root_at_block block_number
    if output_root == game_claim then ok (some block_number) else ok none

  -- The loop from a game down to the first one.
  unfoldable pub scan_down : ℕ → Outcome (Option (ℕ × ℕ))
  unfolding proposal_at
  scan_down zero = elim (proposal_at zero) [
    | err e ↦ err e
    | panic ↦ panic
    | ok none ↦ ok none
    | ok (some block_number) ↦ ok (some (block_number, zero))
  ]
  scan_down (suc index) = elim (proposal_at (suc index)) [
    | err e ↦ err e
    | panic ↦ panic
    | ok none ↦ scan_down index
    | ok (some block_number) ↦ ok (some (block_number, suc index))
  ]

  abbrev pub valid_from : Option ℕ → Outcome (Option (ℕ × ℕ))
  valid_from none = ok none
  valid_from (some latest) = scan_down latest

  unfoldable pub get_latest_valid_proposal : Outcome (Option (ℕ × ℕ))
  unfolding scan_down fetch_latest_game_index
  get_latest_valid_proposal = or_err (fetch_latest_game_index games) >>= λ latest. valid_from latest
