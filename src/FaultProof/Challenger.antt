-- ===== src/FaultProof/Challenger.antt =====
-- The fault proof challenger: fault-proof/bin/challenger.rs.
pub mod Honest
use mina_evm_l.Prelude.{
  ℕ, Bool, true, false, Option, none, some, List, [], ◌∷◌, ◌==◌, if◌then◌else◌,
}
use mina_evm_l.Request.{Address}
use mina_evm_l.FaultProof.{
  Action, performed, skipped, challenger, is_unchallenged, get_oldest_claimable_bond_game_address,
  resolve_games,
}
use mina_evm_l.World.{Outcome}
use mina_evm_l.FaultProof.Search.{get_oldest_game_address, get_oldest_challengable_game_address}
use mina_evm_l.FaultProof.Agent.{
  resolve, claim_credit, challenge, Agent, Outside, Act, pure, modify, or_err, lift, or_else, ◌>>=◌,
  ◌>>◌, send,
}

-- The configuration, with the address and the bond that `new` reads. `malicious_challenge_percentage` is a
-- float, of which the code asks whether it is above zero.
pub record ChallengerConfig : Type 0 where
  pub max_games_to_check_for_challenge : ℕ
  pub max_games_to_check_for_resolution : ℕ
  pub max_games_to_check_for_bond_claiming : ℕ
  pub is_malicious : Bool
  pub challenger_address : Address
  pub challenger_bond : ℕ

module _ (config : ChallengerConfig) (outside : Outside) where
  pub challenge_game : Address → Act (Unit {0})
  challenge_game game_address =
      send outside (challenge game_address config.challenger_bond) >>= λ receipt. pure tt

  pub get_oldest_valid_game_for_malicious_challenge : Outcome (Option Address)
  get_oldest_valid_game_for_malicious_challenge =
      get_oldest_game_address outside.games config.max_games_to_check_for_challenge is_unchallenged
        (λ output_root claim. output_root == claim)

  pub challenge_maliciously : Option Address → Act Action
  unfolding challenge_game
  challenge_maliciously none = pure skipped
  challenge_maliciously (some game_address) =
      if outside.drawn then (challenge_game game_address >> pure performed) else pure skipped

  -- If there is no invalid game.
  pub challenge_or : Option Address → Act Action
  unfolding challenge_maliciously get_oldest_valid_game_for_malicious_challenge
  challenge_or (some game_address) = challenge_game game_address >> pure performed
  challenge_or none =
      if config.is_malicious
      then (lift get_oldest_valid_game_for_malicious_challenge >>= λ game.
          challenge_maliciously game)
      else pure skipped

  pub handle_game_challenging : Act Action
  unfolding challenge_or
  handle_game_challenging =
      lift
        (get_oldest_challengable_game_address outside.games config.max_games_to_check_for_challenge)
      >>= λ game. challenge_or game

  abbrev pub resolutions : List Address → Agent → Agent
  resolutions [] g = g
  resolutions (address ∷ addresses) g =
      resolutions addresses (record g { sent = resolve address ∷ g.sent })

  pub handle_game_resolution : Act (Unit {0})
  handle_game_resolution =
      or_err (resolve_games outside.games challenger config.max_games_to_check_for_resolution [])
      >>= λ addresses. modify (resolutions addresses)

  abbrev pub claim_bond : Option Address → Act Action
  claim_bond none = pure skipped
  claim_bond (some game) =
      send outside (claim_credit game config.challenger_address) >>= λ receipt. pure performed

  unfoldable pub handle_bond_claiming : Act Action
  handle_bond_claiming =
      or_err (
        get_oldest_claimable_bond_game_address outside.games
          config.max_games_to_check_for_bond_claiming config.challenger_address)
      >>= λ game. claim_bond game

-- Each handler of an iteration is answered anew.
pub data ChallengerPart : Type 0 where
  challenging resolving claiming : ChallengerPart

module _ (config : ChallengerConfig) (outside : ChallengerPart → Outside) where
  -- One iteration of the loop of `run`, which logs and counts every error.
  unfoldable pub run : Act (Unit {0})
  unfolding handle_game_challenging handle_game_resolution handle_bond_claiming
  run = do
    _ ← or_else (handle_game_challenging config (outside challenging)) skipped
    or_else (handle_game_resolution config (outside resolving)) tt
    _ ← or_else (handle_bond_claiming config (outside claiming)) skipped
    pure tt
