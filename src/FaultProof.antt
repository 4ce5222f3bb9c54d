-- ===== src/FaultProof.antt =====
-- Which dispute games the fault proof proposer and challenger act on: fault-proof/src/lib.rs.
pub mod Search
pub mod Scan
pub mod Numbered
pub mod Agent
pub mod Proposer
pub mod Challenger
pub mod Oldest
pub mod Bonds
pub mod Latest
pub mod Resolved
use mina_evm_l.Prelude.{
  ℕ, zero, suc, ◌+◌, ◌-◌, ◌^◌, min, Bool, true, false, not, Option, none, some, List, [], ◌∷◌, ◌++◌,
  ltb, leb, ◌==◌, if◌then◌else◌,
}
use mina_evm_l.Request.{B256, Address}

-- fault-proof/src/contract.rs
pub data GameStatus : Type 0 where
  in_progress challenger_wins defender_wins : GameStatus

pub data ProposalStatus : Type 0 where
  unchallenged challenged unchallenged_and_valid challenged_and_valid resolved : ProposalStatus

pub data Mode : Type 0 where
  proposer challenger : Mode

pub data Action : Type 0 where
  performed skipped : Action

pub record ClaimData : Type 0 where
  pub parent_index : ℕ
  pub status : ProposalStatus
  pub deadline : ℕ

-- What an output root is the hash of.
pub record L2Output : Type 0 where
  pub zero : ℕ
  pub l2_state_root : B256
  pub l2_storage_hash : B256
  pub l2_claim_hash : B256

-- The answers of the contracts and the L2 node; `none` is an error. They are the same throughout an
-- operation, and `resolve` says whether the transaction goes through. An L2 block is told with its state root
-- and its hash, `l2_storage_root` is that of a contract at a block, and `hash_output` is `keccak256` of the
-- ABI encoding.
pub record Games : Type 0 where
  pub game_count : Option ℕ
  pub game_at_index : ℕ → Option Address
  pub claim_data : Address → Option ClaimData
  pub game_status : Address → Option GameStatus
  pub l2_block_number : Address → Option ℕ
  pub root_claim : Address → Option B256
  pub l2_block : ℕ → Option (B256 × B256)
  pub l2_storage_root : Address → ℕ → Option B256
  pub hash_output : L2Output → B256
  pub latest_timestamp : Option ℕ
  pub is_game_finalized : Address → Option Bool
  pub credit : Address → Address → Option ℕ
  pub resolve : Address → Bool

abbrev pub is_unchallenged : ProposalStatus → Bool
is_unchallenged unchallenged = true
is_unchallenged _ = false

abbrev pub is_challenged : ProposalStatus → Bool
is_challenged challenged = true
is_challenged _ = false

abbrev pub is_resolved : ProposalStatus → Bool
is_resolved resolved = true
is_resolved _ = false

abbrev pub is_in_progress : GameStatus → Bool
is_in_progress in_progress = true
is_in_progress _ = false

infixl 5 ◌>>=◌
-- `?` on an answer.
abbrev pub ◌>>=◌ : {A B : Type 0} → Option A → (A → Option B) → Option B
none >>= f = none
some a >>= f = f a

-- `gameCount() - 1`; the inner `none` if there are no games.
abbrev latest_of : ℕ → Option ℕ
latest_of zero = none
latest_of (suc n) = some n

-- u32::MAX marks a game with no parent.
abbrev pub no_parent : ℕ
no_parent = 2 ^ 32 - 1

abbrev pub status_for : Mode → ProposalStatus → Bool
status_for proposer status = is_unchallenged status
status_for challenger status = is_challenged status

-- The loop over the next `left` games; the first that is found ends it.
pub scan : (ℕ → Option (Option Address)) → ℕ → ℕ → Option (Option Address)
scan look zero index = some none
scan look (suc left) index = elim (look index) [
  | none ↦ none
  | some (some address) ↦ some (some address)
  | some none ↦ scan look left (suc index)
]

module _ (games : Games) where
  pub fetch_latest_game_index : Option (Option ℕ)
  fetch_latest_game_index = games.game_count >>= λ count. some (latest_of count)

  -- `is_claimable` for a game, with its address if it is.
  pub is_claimable : Address → Address → Option Bool
  is_claimable claimant address = do
    claim ← games.claim_data address
    if not (is_resolved claim.status) then some false else (do
      finalized ← games.is_game_finalized address
      if not finalized
          then some false
          else (do credit ← games.credit address claimant; some (not (credit == 0))))

  pub claimable_at : Address → ℕ → Option (Option Address)
  unfolding is_claimable
  claimable_at claimant index = do
    address ← games.game_at_index index
    claimable ← is_claimable claimant address
    if claimable then some (some address) else some none

  abbrev pub bonds_in : Address → ℕ → Option ℕ → Option (Option Address)
  bonds_in claimant max none = some none
  bonds_in claimant max (some latest) = scan (claimable_at claimant) (min latest max) (latest - max)

  unfoldable pub get_oldest_claimable_bond_game_address : ℕ → Address → Option (Option Address)
  unfolding scan claimable_at fetch_latest_game_index
  get_oldest_claimable_bond_game_address max claimant =
      fetch_latest_game_index >>= λ latest. bonds_in claimant max latest

  pub should_attempt_resolution : ℕ → Option Bool
  should_attempt_resolution oldest = do
    address ← games.game_at_index oldest
    claim ← games.claim_data address
    if claim.parent_index == no_parent then some true else (do
      parent ← games.game_at_index claim.parent_index
      status ← games.game_status parent
      some (not (is_in_progress status)))

  -- `try_resolve_games` up to the transaction: the game to resolve, if any.
  unfoldable pub to_resolve : Mode → ℕ → Option (Option Address)
  to_resolve mode index = do
    address ← games.game_at_index index
    status ← games.game_status address
    if not (is_in_progress status) then some none else (do
      claim ← games.claim_data address
      if not (status_for mode claim.status) then some none else (do
        current_timestamp ← games.latest_timestamp
        if leb current_timestamp claim.deadline then some none else some (some address)))

  -- With the games for which the transaction was sent so far.
  pub try_resolve_games : Mode → ℕ → List Address → Option Action × List Address
  try_resolve_games mode index sent = elim (to_resolve mode index) [
    | none ↦ (none, sent)
    | some none ↦ (some skipped, sent)
    | some (some address) ↦
        (if games.resolve address then some performed else none, sent ++ address ∷ [])
  ]

  -- An error of one game does not end the loop.
  pub resolve_from : Mode → ℕ → ℕ → List Address → List Address
  unfolding try_resolve_games
  resolve_from mode zero index sent = sent
  resolve_from mode (suc left) index sent =
      resolve_from mode left (suc index) (try_resolve_games mode index sent).1

  abbrev pub resolve_up_to : Mode → ℕ → Option ℕ → List Address → Option (List Address)
  resolve_up_to mode max none sent = some sent
  resolve_up_to mode max (some latest) sent =
      should_attempt_resolution (latest - max) >>= λ attempt.
      if attempt then some (resolve_from mode (min latest max) (latest - max) sent) else some sent

  -- `none` is an error, with nothing sent.
  unfoldable pub resolve_games : Mode → ℕ → List Address → Option (List Address)
  unfolding resolve_from should_attempt_resolution fetch_latest_game_index
  resolve_games mode max sent =
      fetch_latest_game_index >>= λ latest. resolve_up_to mode max latest sent
