-- ===== src/FaultProof/Proposer/Kept.antt =====
-- The invariant of the TaskMap through every operation of fault-proof/src/proposer.rs.
use mina_evm_l.Prelude.{ℕ, ◌≡◌, refl, Bool, true, false, not, Option, none, some, List, [], ◌∷◌}
use mina_evm_l.Request.{Address}
use mina_evm_l.FaultProof.{Mode}
use mina_evm_l.FaultProof.Agent.{
  TaskInfo, game_creation, game_proving, game_resolution, bond_claim, GameTask, resolve, Agent,
  ProposerConfig, Outside, Act,
}
use mina_evm_l.FaultProof.Agent.Leads.{
  Leads, Leads-pure, Leads-or_err, Leads-lift, Leads-or_panic, Leads-fetch_add, Leads-send,
  Leads-bind, Leads-insert_task, Leads-or_else, Leads-if, Leads-modify, Leads-checked, Leads-then,
  Leads-pre,
}
use mina_evm_l.FaultProof.Proposer.{
  same_type, proves, any_task, completed, handle_completed_tasks, should_create_game,
  get_next_proposal_block, next_proposal, after_proposal, block_after, prove_game, prove_by,
  range_proof, agg_proof, spawn_game_proving_task, create_game, handle_game_creation,
  handle_bond_claiming, claim_bond, resolution, resolutions, spawn_game_creation_task, defend,
  spawn_game_defense_tasks, spawn_game_resolution_task, claim_if_any, spawn_bond_claim_task,
  SpawnPart, creation, defense, resolving, claiming, spawn_unless_active, spawn_pending_operations,
  run, is_past,
}
use mina_evm_l.FaultProof.Proposer.Exclusive.{
  IsExclusive, May, remove_tasks-IsExclusive, insert_creation, insert_resolution, insert_claim,
  insert_proving,
}

module _ (config : ProposerConfig) (outside : Outside) {P : List GameTask → Type 0} where
  -- What looks at contracts and nodes only.
  after_proposal-Leads :
      (latest : Option (ℕ × ℕ)) → Leads P P (after_proposal config outside latest)
  after_proposal-Leads none =
      Leads-bind (λ t h. h) _ _ (Leads-or_err (λ t h. h) outside.anchor_l2_block_number)
        (λ anchor.
          Leads-bind (λ t h. h) _ _ (Leads-or_panic (λ t h. h) _) (λ next. Leads-pure (λ t h. h) _))
  after_proposal-Leads (some (block, index)) =
      Leads-bind (λ t h. h) _ _ (Leads-or_panic (λ t h. h) _) (λ parent. Leads-pure (λ t h. h) _)

  next_proposal-Leads : Leads P P (next_proposal config outside)
  unfolding next_proposal
  next_proposal-Leads = Leads-bind (λ t h. h) _ _ (Leads-lift (λ t h. h) _) after_proposal-Leads

  block_after-Leads : (latest : Option (ℕ × ℕ)) → Leads P P (block_after config outside latest)
  block_after-Leads none =
      Leads-bind (λ t h. h) _ _ (Leads-or_err (λ t h. h) outside.anchor_l2_block_number)
        (λ anchor. Leads-or_panic (λ t h. h) _)
  block_after-Leads (some (block, index)) = Leads-pure (λ t h. h) _

  get_next_proposal_block-Leads : Leads P P (get_next_proposal_block config outside)
  unfolding get_next_proposal_block
  get_next_proposal_block-Leads =
      Leads-bind (λ t h. h) _ _ (Leads-lift (λ t h. h) _) block_after-Leads

  pub should_create_game-Leads : Leads P P (should_create_game config outside)
  unfolding should_create_game
  should_create_game-Leads =
      Leads-bind (λ t h. h) _ _ next_proposal-Leads
        (λ (latest, next, parent).
          Leads-bind (λ t h. h) _ _ (Leads-or_panic (λ t h. h) _)
            (λ block.
              Leads-bind (λ t h. h) _ _ (Leads-or_err (λ t h. h) _)
                (λ finalized. Leads-pure (λ t h. h) _)))

module _ (config : ProposerConfig) (outside : Outside) where
  spawn_game_proving_task-Leads :
      (game : Address) → Leads IsExclusive IsExclusive (spawn_game_proving_task config outside game)
  unfolding spawn_game_proving_task
  spawn_game_proving_task-Leads game =
      Leads-bind (λ t h. h) _ _ (Leads-fetch_add (λ t h. h))
        (λ id.
          Leads-bind (λ t h. h) _ _ (Leads-or_err (λ t h. h) _)
            (λ number.
              Leads-bind (λ t h. h) _ _ (Leads-or_panic (λ t h. h) _)
                (λ end.
                  Leads-bind (λ t h. h) _ _ (Leads-or_panic (λ t h. h) _)
                    (λ start. Leads-insert_task id (game_proving game) (insert_proving id game)))))

  create_game-Leads :
      (block parent : ℕ) → Leads IsExclusive IsExclusive (create_game config outside block parent)
  unfolding create_game
  create_game-Leads block parent =
      Leads-bind (λ t h. h) _ _ (Leads-lift (λ t h. h) _)
        (λ root.
          Leads-bind (λ t h. h) _ _ (Leads-send (λ t h. h) outside _)
            (λ created.
              Leads-bind (λ t h. h) _ _ (Leads-or_err (λ t h. h) created)
                (λ game.
                  Leads-bind (λ t h. h) _ _
                    (Leads-if config.fast_finality_mode _ _
                      (Leads-or_else _ tt (spawn_game_proving_task-Leads game))
                      (Leads-pure (λ t h. h) tt))
                    (λ u. Leads-pure (λ t h. h) game))))

  pub handle_game_creation-Leads :
      Leads IsExclusive IsExclusive (handle_game_creation config outside)
  unfolding handle_game_creation
  handle_game_creation-Leads =
      Leads-bind (λ t h. h) _ _ (next_proposal-Leads config outside)
        (λ (latest, next, parent).
          Leads-bind (λ t h. h) _ _ (Leads-or_panic (λ t h. h) _)
            (λ block.
              Leads-bind (λ t h. h) _ _ (Leads-or_err (λ t h. h) _)
                (λ finalized.
                  Leads-if (is_past config outside next finalized) _ _
                    (Leads-bind (λ t h. h) _ _ (create_game-Leads next parent)
                      (λ game. Leads-pure (λ t h. h) _))
                    (Leads-pure (λ t h. h) _))))

  range_proof-Leads :
      (stdin : outside.Stdin) → Leads IsExclusive IsExclusive (range_proof config outside stdin)
  unfolding range_proof
  range_proof-Leads stdin =
      Leads-if config.mock_mode _ _
        (Leads-bind (λ t h. h) _ _ (Leads-or_err (λ t h. h) _) (λ values. Leads-pure (λ t h. h) _))
        (Leads-or_err (λ t h. h) _)

  agg_proof-Leads :
      (stdin : outside.Stdin) → Leads IsExclusive IsExclusive (agg_proof config outside stdin)
  unfolding agg_proof
  agg_proof-Leads stdin =
      Leads-if config.mock_mode _ _
        (Leads-bind (λ t h. h) _ _ (Leads-or_err (λ t h. h) _) (λ values. Leads-pure (λ t h. h) _))
        (Leads-or_err (λ t h. h) _)

  prove_by-Leads :
      (game : Address) (proof : outside.Proof)
      → Leads IsExclusive IsExclusive (prove_by config outside game proof)
  unfolding prove_by
  prove_by-Leads game proof =
      Leads-bind (λ t h. h) _ _ (Leads-or_err (λ t h. h) _)
        (λ headers.
          Leads-bind (λ t h. h) _ _ (Leads-or_err (λ t h. h) _)
            (λ stdin.
              Leads-bind (λ t h. h) _ _ (agg_proof-Leads stdin)
                (λ aggregated.
                  Leads-bind (λ t h. h) _ _ (Leads-send (λ t h. h) outside _)
                    (λ receipt. Leads-pure (λ t h. h) tt))))

  pub prove_game-Leads :
      (game : Address) → Leads IsExclusive IsExclusive (prove_game config outside game)
  unfolding prove_game
  prove_game-Leads game =
      Leads-bind (λ t h. h) _ _ (Leads-or_err (λ t h. h) _)
        (λ u.
          Leads-bind (λ t h. h) _ _ (Leads-or_err (λ t h. h) _)
            (λ l1_head.
              Leads-bind (λ t h. h) _ _ (Leads-or_err (λ t h. h) _)
                (λ number.
                  Leads-bind (λ t h. h) _ _ (Leads-or_panic (λ t h. h) _)
                    (λ end.
                      Leads-bind (λ t h. h) _ _ (Leads-or_panic (λ t h. h) _)
                        (λ start.
                          Leads-bind (λ t h. h) _ _ (Leads-or_err (λ t h. h) _)
                            (λ host_args.
                              Leads-bind (λ t h. h) _ _ (Leads-or_err (λ t h. h) _)
                                (λ witness.
                                  Leads-bind (λ t h. h) _ _ (Leads-or_err (λ t h. h) _)
                                    (λ stdin.
                                      Leads-bind (λ t h. h) _ _ (range_proof-Leads stdin)
                                        (prove_by-Leads game)))))))))

  claim_bond-Leads :
      (game : Option Address) → Leads IsExclusive IsExclusive (claim_bond config outside game)
  claim_bond-Leads none = Leads-pure (λ t h. h) _
  claim_bond-Leads (some game) =
      Leads-bind (λ t h. h) _ _ (Leads-send (λ t h. h) outside _)
        (λ receipt. Leads-pure (λ t h. h) _)

  pub handle_bond_claiming-Leads :
      Leads IsExclusive IsExclusive (handle_bond_claiming config outside)
  unfolding handle_bond_claiming
  handle_bond_claiming-Leads =
      Leads-bind (λ t h. h) _ _ (Leads-or_err (λ t h. h) _) claim_bond-Leads

  resolutions-tasks :
      (games : List Address) (g : Agent) → (resolutions config outside games g).tasks ≡ g.tasks
  resolutions-tasks [] g = refl
  resolutions-tasks (game ∷ games) g =
      resolutions-tasks games (record g { sent = resolve game ∷ g.sent })

  pub resolution-Leads :
      (mode : Mode) (max : ℕ) → Leads IsExclusive IsExclusive (resolution config outside mode max)
  unfolding resolution
  resolution-Leads mode max =
      Leads-bind (λ t h. h) _ _ (Leads-or_err (λ t h. h) _)
        (λ games.
          Leads-modify (resolutions config outside games) (λ g h. rw (resolutions-tasks games g) h))

  pub spawn_game_creation_task-Leads :
      Leads (May (game_creation 0)) IsExclusive (spawn_game_creation_task config outside)
  unfolding spawn_game_creation_task
  spawn_game_creation_task-Leads =
      Leads-bind (λ t h. h.1) _ _ (should_create_game-Leads config outside)
        (λ should. Leads-if (not should) _ _ (Leads-pure (λ t h. h.1) _) (
          Leads-bind (λ t h. h.1) _ _ (Leads-fetch_add (λ t h. h))
            (λ id.
              Leads-bind (λ t h. h.1) _ _
                (Leads-or_else _ 0 (get_next_proposal_block-Leads config outside))
                (λ block.
                  Leads-then _ _
                    (Leads-insert_task id (game_creation block) (insert_creation id block))
                    (λ u. Leads-pure (λ t h. h) true)))))

  defend-Leads :
      (game : Option Address) → Leads IsExclusive IsExclusive (defend config outside game)
  unfolding defend
  defend-Leads none = Leads-pure (λ t h. h) _
  defend-Leads (some game) = Leads-checked (any_task (proves game)) _ _ (Leads-pure (λ t h. h) _) (
      Leads-then _ _ (Leads-pre _ (λ t h. h.1) (spawn_game_proving_task-Leads game))
        (λ u. Leads-pure (λ t h. h) true))

  pub spawn_game_defense_tasks-Leads :
      Leads IsExclusive IsExclusive (spawn_game_defense_tasks config outside)
  unfolding spawn_game_defense_tasks
  spawn_game_defense_tasks-Leads = Leads-bind (λ t h. h) _ _ (Leads-lift (λ t h. h) _) defend-Leads

  pub spawn_game_resolution_task-Leads :
      Leads (May game_resolution) IsExclusive (spawn_game_resolution_task config outside)
  unfolding spawn_game_resolution_task
  spawn_game_resolution_task-Leads =
      Leads-bind (λ t h. h.1) _ _ (Leads-fetch_add (λ t h. h))
        (λ id.
          Leads-then _ _ (Leads-insert_task id game_resolution (insert_resolution id))
            (λ u. Leads-pure (λ t h. h) true))

  claim_if_any-Leads :
      (game : Option Address)
      → Leads (May bond_claim) IsExclusive (claim_if_any config outside game)
  claim_if_any-Leads none = Leads-pure (λ t h. h.1) _
  claim_if_any-Leads (some game) =
      Leads-bind (λ t h. h.1) _ _ (Leads-fetch_add (λ t h. h))
        (λ id.
          Leads-then _ _ (Leads-insert_task id bond_claim (insert_claim id))
            (λ u. Leads-pure (λ t h. h) true))

  pub spawn_bond_claim_task-Leads :
      Leads (May bond_claim) IsExclusive (spawn_bond_claim_task config outside)
  unfolding spawn_bond_claim_task
  spawn_bond_claim_task-Leads =
      Leads-bind (λ t h. h.1) _ _ (Leads-or_err (λ t h. h) _) claim_if_any-Leads

pub spawn_unless_active-Leads :
    (info : TaskInfo) (spawn : Act Bool)
    → Leads (May info) IsExclusive spawn
    → Leads IsExclusive IsExclusive (spawn_unless_active info spawn)
spawn_unless_active-Leads info spawn h =
    Leads-checked (any_task (same_type info)) _ _ (Leads-pure (λ t k. k) _)
      (Leads-or_else spawn false h)

pub handle_completed_tasks-Leads : Leads IsExclusive IsExclusive handle_completed_tasks
unfolding handle_completed_tasks
handle_completed_tasks-Leads =
    Leads-modify _ (λ g h. remove_tasks-IsExclusive (completed g.tasks) g.tasks h)

module _ (config : ProposerConfig) (outside : SpawnPart → Outside) where
  spawn_pending_operations-Leads :
      Leads IsExclusive IsExclusive (spawn_pending_operations config outside)
  unfolding spawn_pending_operations
  spawn_pending_operations-Leads =
      Leads-then _ _
        (spawn_unless_active-Leads (game_creation 0) _
          (spawn_game_creation_task-Leads config (outside creation)))
        (λ u.
          Leads-then _ _
            (Leads-or_else _ false (spawn_game_defense_tasks-Leads config (outside defense)))
            (λ u.
              Leads-then _ _
                (spawn_unless_active-Leads game_resolution _
                  (spawn_game_resolution_task-Leads config (outside resolving)))
                (λ u.
                  Leads-then _ _
                    (spawn_unless_active-Leads bond_claim _
                      (spawn_bond_claim_task-Leads config (outside claiming)))
                    (λ u. Leads-pure (λ t h. h) tt))))

  pub run-Leads : Leads IsExclusive IsExclusive (run config outside)
  unfolding run
  run-Leads =
      Leads-then _ _ (Leads-or_else _ tt handle_completed_tasks-Leads)
        (λ u. Leads-or_else _ tt spawn_pending_operations-Leads)
