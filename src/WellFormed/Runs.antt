-- ===== src/WellFormed/Runs.antt =====
-- Runs of the proposer: iterations of the loop of validity/src/proposer.rs and the proof requests that it
-- spawns, in any order, with restarts.
use mina_evm_l.Prelude.{ℕ, ◌==◌, if◌then◌else◌, Bool, Option, List, [], map}
use mina_evm_l.Request.{Request, Config}
use mina_evm_l.World.{World, Task, TaskOutcome}
use mina_evm_l.Env.{Env}
use mina_evm_l.Requester.{make_proof_request}
use mina_evm_l.Proposer.Loop.{Stage, new, initialize_proposer, run_loop_iteration}
use mina_evm_l.WellFormed.Ranges.{IsSane}

-- A task ends, with the outcome.
abbrev pub end_task : ℕ → TaskOutcome → List Task → List Task
end_task id outcome tasks =
    map (λ t. if t.id == id then record t { outcome = outcome } else t) tasks

-- What happens next. Each step may end in an error, after which the loop goes on.
pub data Step (config : Config) (w : World) : World → Type 1 where
  locks : (pg_interval : ℕ → Option ℕ) → Step config w (new config pg_interval w).1
  starts : (env : Env) → Step config w (initialize_proposer config env w).1
  iterates :
      (env : Stage → Env)
      → ((s : Stage) → IsSane (env s))
      → Step config w (run_loop_iteration config env w).1
  proves :
      (env : Env) (request : Request) → Step config w (make_proof_request env config request w).1
  ends :
      (id : ℕ) (outcome : TaskOutcome)
      → Step config w (record w { tasks = end_task id outcome w.tasks })
  -- A restart forgets the tasks.
  restarts : Step config w (record w { tasks = [] })
  passes : (now : ℕ) (faults : List Bool) → Step config w (record w { now = now; faults = faults })

pub data Run (config : Config) : World → World → Type 1 where
  stop : (w : World) → Run config w w
  step : (u v w : World) → Step config u v → Run config v w → Run config u w
