-- ===== src/FaultProof/Proposer.antt =====
-- The fault proof proposer: fault-proof/src/proposer.rs.
pub mod Exclusive
pub mod Kept
pub mod Runs
pub mod Next
pub mod Created
pub mod Spawned
pub mod Proved
use mina_evm_l.Prelude.{
  ℕ, ◌+◌, ◌%◌, ◌^◌, Bool, true, false, not, ◌||◌, Option, none, some, List, [], ◌∷◌, ◌++◌, map, ltb,
  ◌==◌, if◌then◌else◌,
}
use mina_evm_l.Request.{Address, Bytes}
use mina_evm_l.Proposer.Tasks.{is_finished}
use mina_evm_l.FaultProof.{
  Action, performed, skipped, Mode, proposer, Games, no_parent,
  get_oldest_claimable_bond_game_address, resolve_games,
}
use mina_evm_l.FaultProof.Search.{
  compute_output_root_at_block, get_latest_valid_proposal, get_oldest_defensible_game_address,
}
use mina_evm_l.FaultProof.Agent.{
  TaskInfo, game_creation, game_proving, game_resolution, bond_claim, GameTask, create, prove,
  resolve, claim_credit, Agent, ProposerConfig, Outside, Act, pure, gets, modify, or_err, lift,
  or_else, ◌>>=◌, ◌>>◌, checked_to, checked_sub, u256_mod, checked_add, fetch_add, remove_task,
  insert_task, send,
}

abbrev pub same_type : TaskInfo → TaskInfo → Bool
same_type (game_creation _) (game_creation _) = true
same_type (game_proving _) (game_proving _) = true
same_type game_resolution game_resolution = true
same_type bond_claim bond_claim = true
same_type _ _ = false

abbrev pub proves : Address → TaskInfo → Bool
proves address (game_proving a) = a == address
proves address _ = false

abbrev pub any_task : (TaskInfo → Bool) → List GameTask → Bool
any_task p [] = false
any_task p (t ∷ tasks) = p t.info || any_task p tasks

abbrev pub has_active_task_of_type : TaskInfo → Act Bool
has_active_task_of_type info = gets (λ g. any_task (same_type info) g.tasks)

abbrev pub has_active_proving_for_game : Address → Act Bool
has_active_proving_for_game address = gets (λ g. any_task (proves address) g.tasks)

-- The ids of the tasks that are finished.
abbrev pub completed : List GameTask → List ℕ
completed [] = []
completed (t ∷ tasks) = if is_finished t.outcome then t.id ∷ completed tasks else completed tasks

abbrev pub remove_tasks : List ℕ → List GameTask → List GameTask
remove_tasks [] tasks = tasks
remove_tasks (id ∷ ids) tasks = remove_tasks ids (remove_task id tasks)

-- What became of a task is only logged and counted.
pub handle_completed_tasks : Act (Unit {0})
unfolding remove_task
handle_completed_tasks = modify (λ g. record g { tasks = remove_tasks (completed g.tasks) g.tasks })

module _ (config : ProposerConfig) (outside : Outside) where
  -- The latest proposed block, the next to propose, and the index of the parent game.
  abbrev pub after_proposal : Option (ℕ × ℕ) → Act (ℕ × ℕ × ℕ)
  after_proposal (some (block, index)) = do
    parent ← checked_to 32 index
    pure (block, (block + config.proposal_interval_in_blocks) % u256_mod, parent)
  after_proposal none = do
    anchor ← or_err outside.anchor_l2_block_number
    next ← checked_add anchor config.proposal_interval_in_blocks
    pure (anchor, next, no_parent)

  pub next_proposal : Act (ℕ × ℕ × ℕ)
  next_proposal = do latest ← lift (get_latest_valid_proposal outside.games); after_proposal latest

  abbrev pub block_after : Option (ℕ × ℕ) → Act ℕ
  block_after (some (block, _)) = pure ((block + config.proposal_interval_in_blocks) % u256_mod)
  block_after none = do
    anchor ← or_err outside.anchor_l2_block_number
    checked_add anchor config.proposal_interval_in_blocks

  pub get_next_proposal_block : Act ℕ
  get_next_proposal_block =
      lift (get_latest_valid_proposal outside.games) >>= λ latest. block_after latest

  abbrev pub is_past : ℕ → Option ℕ → Bool
  is_past next none = false
  is_past next (some finalized) = ltb next finalized

  unfoldable pub should_create_game : Act Bool
  unfolding next_proposal
  should_create_game = do
    (latest, next, parent) ← next_proposal
    block ← checked_to 64 latest
    finalized ← or_err (outside.finalized_l2_block_number block)
    pure (is_past next finalized)

  pub range_proof : outside.Stdin → Act outside.Proof
  range_proof stdin =
      if config.mock_mode
      then (or_err (outside.execute_range stdin) >>= λ values.
          pure (outside.mock_range_proof values))
      else or_err (outside.prove_range stdin)

  pub agg_proof : outside.Stdin → Act outside.Proof
  agg_proof stdin =
      if config.mock_mode
      then (or_err (outside.execute_agg stdin) >>= λ values. pure (outside.mock_agg_proof values))
      else or_err (outside.prove_agg stdin)

  -- From the range proof on.
  pub prove_by : Address → outside.Proof → Act (Unit {0})
  unfolding agg_proof
  prove_by address proof = do
    headers ←
        or_err (
          outside.header_preimages (outside.boot_info proof ∷ []) (outside.boot_info proof).l1_head)
    stdin ← or_err (
        outside.agg_stdin (proof ∷ []) (outside.boot_info proof ∷ []) headers
          (outside.boot_info proof).l1_head config.prover_address)
    aggregated ← agg_proof stdin
    receipt ← send outside (prove address (outside.onchain_bytes aggregated))
    pure tt

  unfoldable pub prove_game : Address → Act (Unit {0})
  unfolding range_proof prove_by
  prove_game address = do
    or_err (if outside.has_data_fetcher then some tt else none)
    l1_head ← or_err (outside.l1_head address)
    l2_block_number ← or_err (outside.games.l2_block_number address)
    end ← checked_to 64 l2_block_number
    start ← checked_sub end config.proposal_interval_in_blocks
    host_args ← or_err (outside.host_fetch start end l1_head config.safe_db_fallback)
    witness ← or_err (outside.host_run host_args)
    stdin ← or_err (outside.sp1_stdin witness)
    proof ← range_proof stdin
    prove_by address proof

  -- The task runs `prove_game`.
  pub spawn_game_proving_task : Address → Act (Unit {0})
  unfolding remove_task
  spawn_game_proving_task address = do
    task_id ← fetch_add
    l2_block_number ← or_err (outside.games.l2_block_number address)
    end ← checked_to 64 l2_block_number
    start ← checked_sub end config.proposal_interval_in_blocks
    insert_task task_id (game_proving address)

  pub create_game : ℕ → ℕ → Act Address
  unfolding spawn_game_proving_task
  create_game l2_block_number parent_game_index = do
    output_root ← lift (compute_output_root_at_block outside.games l2_block_number)
    created ←
        send outside
          (create config.game_type output_root l2_block_number parent_game_index config.init_bond)
    game_address ← or_err created
    if config.fast_finality_mode then or_else (spawn_game_proving_task game_address) tt else pure tt
    pure game_address

  pub handle_game_creation : Act (Option Address)
  unfolding next_proposal create_game
  handle_game_creation = do
    (latest, next, parent) ← next_proposal
    block ← checked_to 64 latest
    finalized ← or_err (outside.finalized_l2_block_number block)
    if is_past next finalized
        then (create_game next parent >>= λ game. pure (some game))
        else pure none

  abbrev pub claim_bond : Option Address → Act Action
  claim_bond none = pure skipped
  claim_bond (some game) =
      send outside (claim_credit game config.prover_address) >>= λ _. pure performed

  unfoldable pub handle_bond_claiming : Act Action
  handle_bond_claiming = do
    game ← or_err (
        get_oldest_claimable_bond_game_address outside.games
          config.max_games_to_check_for_bond_claiming config.prover_address)
    claim_bond game

  abbrev pub resolutions : List Address → Agent → Agent
  resolutions [] g = g
  resolutions (address ∷ addresses) g =
      resolutions addresses (record g { sent = resolve address ∷ g.sent })

  -- What the task of a resolution runs.
  pub resolution : Mode → ℕ → Act (Unit {0})
  resolution mode max = do
    addresses ← or_err (resolve_games outside.games mode max [])
    modify (resolutions addresses)

  -- The task runs `handle_game_creation`.
  unfoldable pub spawn_game_creation_task : Act Bool
  unfolding should_create_game get_next_proposal_block remove_task
  spawn_game_creation_task = do
    should_create ← should_create_game
    if not should_create then pure false else (do
      task_id ← fetch_add
      next_block ← or_else get_next_proposal_block 0
      insert_task task_id (game_creation next_block)
      pure true)

  pub defend : Option Address → Act Bool
  unfolding spawn_game_proving_task
  defend none = pure false
  defend (some game_address) = do
    active ← has_active_proving_for_game game_address
    if active then pure false else (spawn_game_proving_task game_address >> pure true)

  pub spawn_game_defense_tasks : Act Bool
  unfolding defend
  spawn_game_defense_tasks =
      lift (get_oldest_defensible_game_address outside.games config.max_games_to_check_for_defense)
      >>= λ game. defend game

  -- The task runs `resolution`.
  pub spawn_game_resolution_task : Act Bool
  unfolding remove_task
  spawn_game_resolution_task = do
    task_id ← fetch_add
    insert_task task_id game_resolution
    pure true

  abbrev pub claim_if_any : Option Address → Act Bool
  claim_if_any none = pure false
  claim_if_any (some _) = do task_id ← fetch_add; insert_task task_id bond_claim; pure true

  -- The task runs `handle_bond_claiming`.
  pub spawn_bond_claim_task : Act Bool
  unfolding remove_task
  spawn_bond_claim_task =
      or_err (
        get_oldest_claimable_bond_game_address outside.games
          config.max_games_to_check_for_bond_claiming config.prover_address)
      >>= λ game. claim_if_any game

-- Each part of an iteration is answered anew.
pub data SpawnPart : Type 0 where
  creation defense resolving claiming : SpawnPart

-- Unless such a task is active; an error is logged.
abbrev pub spawn_unless_active : TaskInfo → Act Bool → Act Bool
spawn_unless_active info spawn =
    has_active_task_of_type info >>= λ active. if active then pure false else or_else spawn false

module _ (config : ProposerConfig) (outside : SpawnPart → Outside) where
  pub spawn_pending_operations : Act (Unit {0})
  unfolding spawn_game_creation_task spawn_game_defense_tasks spawn_game_resolution_task
      spawn_bond_claim_task
  spawn_pending_operations = do
    _ ← spawn_unless_active (game_creation 0) (spawn_game_creation_task config (outside creation))
    _ ← or_else (spawn_game_defense_tasks config (outside defense)) false
    _ ← spawn_unless_active game_resolution (spawn_game_resolution_task config (outside resolving))
    _ ← spawn_unless_active bond_claim (spawn_bond_claim_task config (outside claiming))
    pure tt

  -- One iteration of the loop of `run`.
  unfoldable pub run : Act (Unit {0})
  unfolding handle_completed_tasks spawn_pending_operations
  run = do or_else handle_completed_tasks tt; or_else spawn_pending_operations tt
