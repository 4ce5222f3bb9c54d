-- ===== src/Examples/Agents.antt =====
-- Instances of the properties of the fault proof proposer and challenger, on the three games.
use mina_evm_l.Prelude.{ℕ, ◌+◌, ◌-◌, ◌*◌, ◌≡◌, refl, true, false, some, [], ◌∷◌, arith}
use mina_evm_l.World.{ok, running}
use mina_evm_l.FaultProof.{Games}
use mina_evm_l.FaultProof.Agent.{game_resolution, Agent, ProposerConfig, Outside, ◌>>=◌}
use mina_evm_l.FaultProof.Proposer.{
  should_create_game, handle_game_creation, prove_game, run, spawn_unless_active,
  spawn_game_resolution_task,
}
use mina_evm_l.FaultProof.Proposer.Exclusive.{IsExclusive}
use mina_evm_l.FaultProof.Proposer.Runs.{
  stop, step, spawns_resolution, iterates, creates, ends, end_task, Run-IsExclusive,
}
use mina_evm_l.FaultProof.Proposer.Created.{IsCreation, handle_game_creation-IsCreation}
use mina_evm_l.FaultProof.Proposer.Proved.{Proves, prove_game-Proves}
use mina_evm_l.FaultProof.Challenger.{
  ChallengerConfig, ChallengerPart, claiming, resolving, challenging,
}
use mina_evm_l.Examples.Games.{games}

abbrev proposer_config : ProposerConfig
proposer_config = record {
  game_type = 42;
  proposal_interval_in_blocks = 10;
  mock_mode = false;
  fast_finality_mode = true;
  safe_db_fallback = false;
  max_games_to_check_for_defense = 5;
  max_games_to_check_for_resolution = 5;
  max_games_to_check_for_bond_claiming = 5;
  prover_address = 7;
  init_bond = 1;
}

-- Every answer is there, and a created game has the address 13.
abbrev outside : Outside
outside = record {
  games = games;
  anchor_l2_block_number = some 0;
  finalized_l2_block_number = λ block. some (some 200);
  send_transaction_request = λ transaction. some (some 13);
  l1_head = λ game. some (game + 1000);
  has_data_fetcher = true;
  Args = ℕ × ℕ;
  Witness = ℕ × ℕ;
  Stdin = ℕ;
  Values = ℕ;
  Proof = ℕ;
  Headers = ℕ;
  host_fetch = λ start end head fallback. some (start, end);
  host_run = λ args. some args;
  sp1_stdin = λ witness. some (witness.1 - witness.0);
  execute_range = λ stdin. some stdin;
  mock_range_proof = λ values. values;
  prove_range = λ stdin. some (stdin + 1);
  boot_info = λ proof. record {
    l1_head = 1012;
    l2_pre_root = 110;
    l2_post_root = 120;
    l2_block_number = 120;
    rollup_config_hash = 0;
  };
  header_preimages = λ boot_infos head. some head;
  agg_stdin = λ proofs boot_infos headers head prover. some (headers + prover);
  execute_agg = λ stdin. some stdin;
  mock_agg_proof = λ values. values;
  prove_agg = λ stdin. some (stdin * 2);
  onchain_bytes = λ proof. proof ∷ [];
  drawn = false;
}

abbrev idle : Agent
idle = record { tasks = []; next_task_id = 0; sent = [] }

idle-IsExclusive : IsExclusive idle.tasks
idle-IsExclusive = record {
  one_creation = λ b. omega arith;
  one_resolution = omega arith;
  one_claim = omega arith;
  distinct = tt;
}

-- A resolution task is spawned, an iteration runs and the first task ends while a game is created.
abbrev resolving_agent : Agent
resolving_agent =
    (spawn_unless_active game_resolution (spawn_game_resolution_task proposer_config outside)
      idle).1

abbrev iterated : Agent
iterated = (run proposer_config (λ part. outside) resolving_agent).1

abbrev created : Agent
created = (handle_game_creation proposer_config outside iterated).1

abbrev ended : Agent
ended = record created { tasks = end_task 0 running created.tasks }

Run-IsExclusive_example : IsExclusive ended.tasks
Run-IsExclusive_example =
    Run-IsExclusive proposer_config idle ended
      (step idle resolving_agent ended (spawns_resolution outside) (
        step resolving_agent iterated ended (iterates (λ part. outside)) (
          step iterated created ended (creates outside)
            (step created ended ended (ends 0 running) (stop ended)))))
      idle-IsExclusive

should_create : (should_create_game proposer_config outside idle).0 ≡ ok true
unfolding should_create_game ◌>>=◌ mina_evm_l.FaultProof.Search.get_latest_valid_proposal
should_create = refl

handle_game_creation-IsCreation_example :
    IsCreation proposer_config outside idle
      (should_create_game proposer_config outside idle).0
      (handle_game_creation proposer_config outside idle).0
      (handle_game_creation proposer_config outside idle).1
handle_game_creation-IsCreation_example =
    handle_game_creation-IsCreation proposer_config outside idle (omega arith)

proved : (prove_game proposer_config outside 12 idle).0 ≡ ok tt
unfolding prove_game ◌>>=◌
proved = refl

prove_game-Proves_example :
    Proves proposer_config outside 12 idle (prove_game proposer_config outside 12 idle).1
prove_game-Proves_example = prove_game-Proves proposer_config outside 12 idle proved

abbrev challenger_config : ChallengerConfig
challenger_config = record {
  max_games_to_check_for_challenge = 5;
  max_games_to_check_for_resolution = 5;
  max_games_to_check_for_bond_claiming = 5;
  is_malicious = false;
  challenger_address = 9;
  challenger_bond = 2;
}
