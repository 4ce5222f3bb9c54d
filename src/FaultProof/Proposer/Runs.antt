-- ===== src/FaultProof/Proposer/Runs.antt =====
-- Runs of the fault proof proposer of fault-proof/src/proposer.rs: the parts of its loop, the tasks that it
-- spawned and their ends, in any order.
use mina_evm_l.Prelude.{
  ℕ, ◌≡◌, refl, ◌∙◌, List, [], ◌∷◌, ◌==◌, if◌then◌else◌, map, Bool-cases, inl, inr, arith,
}
use mina_evm_l.Request.{Address}
use mina_evm_l.World.{TaskOutcome}
use mina_evm_l.FaultProof.{proposer}
use mina_evm_l.FaultProof.Agent.{
  TaskInfo, game_creation, game_resolution, bond_claim, GameTask, Agent, ProposerConfig, Outside,
}
use mina_evm_l.FaultProof.Proposer.{
  handle_completed_tasks, prove_game, handle_game_creation, handle_bond_claiming, resolution,
  spawn_game_creation_task, spawn_game_defense_tasks, spawn_game_resolution_task,
  spawn_bond_claim_task, SpawnPart, spawn_unless_active, run,
}
use mina_evm_l.FaultProof.Proposer.Exclusive.{IsExclusive, IsDistinct, count_type, has_id}
use mina_evm_l.FaultProof.Proposer.Kept.{
  handle_completed_tasks-Leads, spawn_unless_active-Leads, spawn_game_creation_task-Leads,
  spawn_game_defense_tasks-Leads, spawn_game_resolution_task-Leads, spawn_bond_claim_task-Leads,
  run-Leads, handle_game_creation-Leads, prove_game-Leads, resolution-Leads,
  handle_bond_claiming-Leads,
}

-- A task ends, with the outcome.
abbrev pub end_task : ℕ → TaskOutcome → List GameTask → List GameTask
end_task id outcome tasks =
    map (λ t. if t.id == id then record t { outcome = outcome } else t) tasks

-- What happens next: a part of the loop, an iteration with nothing between its parts, or the body of a task.
pub data Step (config : ProposerConfig) (g : Agent) : Agent → Type 1 where
  completes : Step config g (handle_completed_tasks g).1
  spawns_creation :
      (o : Outside)
      → Step config g
          (spawn_unless_active (game_creation 0) (spawn_game_creation_task config o) g).1
  defends : (o : Outside) → Step config g (spawn_game_defense_tasks config o g).1
  spawns_resolution :
      (o : Outside)
      → Step config g
          (spawn_unless_active game_resolution (spawn_game_resolution_task config o) g).1
  spawns_claim :
      (o : Outside)
      → Step config g (spawn_unless_active bond_claim (spawn_bond_claim_task config o) g).1
  iterates : (o : SpawnPart → Outside) → Step config g (run config o g).1
  creates : (o : Outside) → Step config g (handle_game_creation config o g).1
  proves_game : (o : Outside) (game : Address) → Step config g (prove_game config o game g).1
  resolves : (o : Outside) (max : ℕ) → Step config g (resolution config o proposer max g).1
  claims : (o : Outside) → Step config g (handle_bond_claiming config o g).1
  ends :
      (id : ℕ) (outcome : TaskOutcome)
      → Step config g (record g { tasks = end_task id outcome g.tasks })

-- Any number of steps, in any order.
pub data Run (config : ProposerConfig) : Agent → Agent → Type 1 where
  stop : (g : Agent) → Run config g g
  step : (g h k : Agent) → Step config g h → Run config h k → Run config g k

count_type-end_task :
    (info : TaskInfo) (id : ℕ) (outcome : TaskOutcome) (tasks : List GameTask)
    → count_type info (end_task id outcome tasks) ≡ count_type info tasks
count_type-end_task info id outcome [] = refl
count_type-end_task info id outcome (t ∷ tasks) = elim (Bool-cases (t.id == id)) [
  | inl e ↦ rw (e, count_type-end_task info id outcome tasks) refl
  | inr e ↦ rw (e, count_type-end_task info id outcome tasks) refl
]

has_id-end_task :
    (k id : ℕ) (outcome : TaskOutcome) (tasks : List GameTask)
    → has_id k (end_task id outcome tasks) ≡ has_id k tasks
has_id-end_task k id outcome [] = refl
has_id-end_task k id outcome (t ∷ tasks) = elim (Bool-cases (t.id == id)) [
  | inl e ↦ rw (e, has_id-end_task k id outcome tasks) refl
  | inr e ↦ rw (e, has_id-end_task k id outcome tasks) refl
]

end_task-IsDistinct :
    (id : ℕ) (outcome : TaskOutcome) (tasks : List GameTask)
    → IsDistinct tasks
    → IsDistinct (end_task id outcome tasks)
end_task-IsDistinct id outcome [] h = tt
end_task-IsDistinct id outcome (t ∷ tasks) h = elim (Bool-cases (t.id == id)) [
  | inl e ↦
      rw e (has_id-end_task t.id id outcome tasks ∙ h.0, end_task-IsDistinct id outcome tasks h.1)
  | inr e ↦
      rw e (has_id-end_task t.id id outcome tasks ∙ h.0, end_task-IsDistinct id outcome tasks h.1)
]

end_task-IsExclusive :
    (id : ℕ) (outcome : TaskOutcome) (tasks : List GameTask)
    → IsExclusive tasks
    → IsExclusive (end_task id outcome tasks)
end_task-IsExclusive id outcome tasks h = record {
  one_creation =
      λ b. omega (arith, count_type-end_task (game_creation b) id outcome tasks, h.one_creation b);
  one_resolution =
      omega (arith, count_type-end_task game_resolution id outcome tasks, h.one_resolution);
  one_claim = omega (arith, count_type-end_task bond_claim id outcome tasks, h.one_claim);
  distinct = end_task-IsDistinct id outcome tasks h.distinct;
}

module _ (config : ProposerConfig) where
  Step-IsExclusive : (g h : Agent) → Step config g h → IsExclusive g.tasks → IsExclusive h.tasks
  Step-IsExclusive g _ completes = handle_completed_tasks-Leads.at g
  Step-IsExclusive g _ (spawns_creation o) =
      (spawn_unless_active-Leads (game_creation 0) _ (spawn_game_creation_task-Leads config o)).at g
  Step-IsExclusive g _ (defends o) = (spawn_game_defense_tasks-Leads config o).at g
  Step-IsExclusive g _ (spawns_resolution o) =
      (spawn_unless_active-Leads game_resolution _ (spawn_game_resolution_task-Leads config o)).at g
  Step-IsExclusive g _ (spawns_claim o) =
      (spawn_unless_active-Leads bond_claim _ (spawn_bond_claim_task-Leads config o)).at g
  Step-IsExclusive g _ (iterates o) = (run-Leads config o).at g
  Step-IsExclusive g _ (creates o) = (handle_game_creation-Leads config o).at g
  Step-IsExclusive g _ (proves_game o game) = (prove_game-Leads config o game).at g
  Step-IsExclusive g _ (resolves o max) = (resolution-Leads config o proposer max).at g
  Step-IsExclusive g _ (claims o) = (handle_bond_claiming-Leads config o).at g
  Step-IsExclusive g _ (ends id outcome) = end_task-IsExclusive id outcome g.tasks

  -- In any run of the fault proof proposer from a TaskMap with at most one task to create a game, one to
  -- resolve games and one to claim a bond, and no id twice, it stays so. The parts of the loop, the bodies of
  -- the tasks, which may spawn proofs themselves, and the ends of tasks come in any order, and any part may
  -- fail or panic.
  pub Run-IsExclusive : (g h : Agent) → Run config g h → IsExclusive g.tasks → IsExclusive h.tasks
  Run-IsExclusive g _ (stop _) ex = ex
  Run-IsExclusive g _ (step _ h k s r) ex = Run-IsExclusive h k r (Step-IsExclusive g h s ex)
