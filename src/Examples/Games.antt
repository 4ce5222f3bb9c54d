-- ===== src/Examples/Games.antt =====
-- Instances of the properties of the choice of games: three games, the second with a wrong claim, the
-- third challenged, and the first past its deadline.
use mina_evm_l.Prelude.{
  ltb, none, ℕ, ◌+◌, ◌*◌, ◌-◌, ◌<◌, ◌≤◌, ◌≡◌, refl, Bool, true, some, [], ◌∷◌, ◌++◌, min, All, ◌==◌,
  if◌then◌else◌,
}
use mathlib.Core.List.{Mem}
use mina_evm_l.Request.{Address}
use mina_evm_l.FaultProof.{
  GameStatus, in_progress, defender_wins, ProposalStatus, unchallenged, challenged, resolved,
  ClaimData, Mode, proposer, Games, no_parent, is_unchallenged, is_challenged,
  get_oldest_claimable_bond_game_address, resolve_games, should_attempt_resolution,
}
use mina_evm_l.World.{ok}
use mina_evm_l.FaultProof.Search.{
  get_oldest_challengable_game_address, get_oldest_defensible_game_address,
  get_latest_valid_proposal,
}
use mina_evm_l.FaultProof.Scan.{IsOldest}
use mina_evm_l.FaultProof.Bonds.{IsClaimable, get_oldest_claimable_bond_game_address-IsOldest}
use mina_evm_l.FaultProof.Latest.{IsLatest, get_latest_valid_proposal-IsLatest}
use mina_evm_l.FaultProof.Resolved.{IsDue, IsDueIn, due_from, resolve_games-IsDue}

abbrev claim_of : ℕ → ClaimData
claim_of a = record {
  parent_index = no_parent;
  status = if a == 12 then challenged else unchallenged;
  deadline = if a == 10 then 50 else 200;
}

abbrev pub games : Games
games = record {
  game_count = some 3;
  game_at_index = λ i. some (10 + i);
  claim_data = λ a. some (claim_of a);
  game_status = λ a. some in_progress;
  l2_block_number = λ a. if ltb a 100 then some (a * 10) else none;
  root_claim = λ a. some (if a == 11 then 7 else a * 10);
  l2_block = λ b. some (b, b);
  l2_storage_root = λ a b. some 0;
  hash_output = λ output. output.l2_state_root;
  latest_timestamp = some 100;
  is_game_finalized = λ a. some true;
  credit = λ a b. some 1;
  resolve = λ a. true;
}

challengable : get_oldest_challengable_game_address games 5 ≡ ok (some 11)
unfolding get_oldest_challengable_game_address
challengable = refl

defensible : get_oldest_defensible_game_address games 5 ≡ ok (some 12)
unfolding get_oldest_defensible_game_address
defensible = refl

latest_valid : get_latest_valid_proposal games ≡ ok (some (120, 2))
unfolding get_latest_valid_proposal
latest_valid = refl

get_latest_valid_proposal-IsLatest_example : IsLatest games 2 (some (120, 2))
get_latest_valid_proposal-IsLatest_example =
    get_latest_valid_proposal-IsLatest games 2 (some (120, 2)) refl latest_valid

-- The first game is resolved; the third is not looked at.
resolved_games : resolve_games games proposer 5 [] ≡ some (10 ∷ [])
unfolding resolve_games mina_evm_l.FaultProof.to_resolve
resolved_games = refl

resolve_games-IsDue_example :
    (attempt : Bool) × (should_attempt_resolution games (2 - 5) ≡ some attempt)
    × (10 ∷ [] ≡ (if attempt then [] ++ due_from games proposer (min 2 5) (2 - 5) else []))
    × All (IsDueIn games proposer (2 - 5) 2) (due_from games proposer (min 2 5) (2 - 5))
    × ((i : ℕ) (address : Address)
        → 2 - 5 ≤ i
        → i < 2
        → IsDue games proposer i address
        → Mem address (due_from games proposer (min 2 5) (2 - 5)))
resolve_games-IsDue_example =
    resolve_games-IsDue games proposer 5 2 [] (10 ∷ []) refl resolved_games

-- The same games, the second and third resolved.
abbrev pub settled_games : Games
settled_games = record {
  game_count = some 3;
  game_at_index = λ i. some (10 + i);
  claim_data = λ a. some (record {
    parent_index = no_parent;
    status = if a == 10 then unchallenged else resolved;
    deadline = 50;
  });
  game_status = λ a. some (if a == 10 then in_progress else defender_wins);
  l2_block_number = λ a. if ltb a 100 then some (a * 10) else none;
  root_claim = λ a. some (a * 10);
  l2_block = λ b. some (b, b);
  l2_storage_root = λ a b. some 0;
  hash_output = λ output. output.l2_state_root;
  latest_timestamp = some 100;
  is_game_finalized = λ a. some true;
  credit = λ a b. some 1;
  resolve = λ a. true;
}

claimable : get_oldest_claimable_bond_game_address settled_games 5 7 ≡ some (some 11)
unfolding get_oldest_claimable_bond_game_address
claimable = refl

get_oldest_claimable_bond_game_address-IsOldest_example :
    IsOldest (IsClaimable settled_games 7) (2 - 5) (min 2 5) (some 11)
get_oldest_claimable_bond_game_address-IsOldest_example =
    get_oldest_claimable_bond_game_address-IsOldest settled_games 5 2 7 (some 11) refl claimable
