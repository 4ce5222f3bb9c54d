-- ===== src/FaultProof/Challenger/Honest.antt =====
-- What an iteration of the loop of fault-proof/bin/challenger.rs sends.
use mina_evm_l.Prelude.{
  ◌≡◌, refl, inl, inr, false, Option, none, some, List, [], ◌∷◌, ◌++◌, Option-cases,
}
use mina_evm_l.Request.{Address}
use mina_evm_l.World.{Outcome, ok}
use mina_evm_l.FaultProof.{get_oldest_claimable_bond_game_address}
use mina_evm_l.World.Outcomes.{Outcome-cases}
use mina_evm_l.FaultProof.Search.{get_oldest_challengable_game_address}
use mina_evm_l.FaultProof.Agent.{
  GameTransaction, resolve, claim_credit, challenge, Agent, Outside, ◌>>=◌,
}
use mina_evm_l.FaultProof.Challenger.{
  ChallengerConfig, handle_game_challenging, challenge_or, challenge_game,
}

-- The transactions of the handlers, the last one first. A search that fails sends nothing.
abbrev pub challenges : ChallengerConfig → Outcome (Option Address) → List GameTransaction
challenges config (ok (some game)) = challenge game config.challenger_bond ∷ []
challenges config _ = []

abbrev pub resolves : List GameTransaction → List Address → List GameTransaction
resolves sent [] = sent
resolves sent (game ∷ games) = resolves (resolve game ∷ sent) games

abbrev pub resolves_all : Option (List Address) → List GameTransaction → List GameTransaction
resolves_all none sent = sent
resolves_all (some games) sent = resolves sent games

abbrev pub claims : ChallengerConfig → Option (Option Address) → List GameTransaction
claims config (some (some game)) = claim_credit game config.challenger_address ∷ []
claims config _ = []

module _ (config : ChallengerConfig) (outside : Outside) (g : Agent) where
  pub challenging-sent :
      config.is_malicious ≡ false
      → (handle_game_challenging config outside g).1.sent
        ≡ challenges config (
            get_oldest_challengable_game_address outside.games
              config.max_games_to_check_for_challenge)
          ++ g.sent
  unfolding handle_game_challenging challenge_or challenge_game ◌>>=◌
  challenging-sent honest =
      elim (Outcome-cases (
        get_oldest_challengable_game_address outside.games
          config.max_games_to_check_for_challenge)) [
            | inl (x, e) ↦ rw e refl
            | inr (inl e) ↦ rw e refl
            | inr (inr (none, e)) ↦ rw (e, honest) refl
            | inr (inr (some game, e)) ↦
                elim (Option-cases
                  (outside.send_transaction_request (challenge game config.challenger_bond))) [
                    | inl e' ↦ rw (e, e') refl
                    | inr (receipt, e') ↦ rw (e, e') refl
                  ]
          ]

  -- The search for a bond to claim.
  abbrev pub bonds : Option (Option Address)
  bonds =
      get_oldest_claimable_bond_game_address outside.games
        config.max_games_to_check_for_bond_claiming config.challenger_address
