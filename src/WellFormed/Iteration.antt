-- ===== src/WellFormed/Iteration.antt =====
-- An iteration of the loop of validity/src/proposer.rs keeps the rows and tasks well-formed and does
-- not panic; so does the start-up.
use mina_evm_l.Prelude.{ℕ, ◌≡◌, Option, none}
use mina_evm_l.Request.{Config}
use mina_evm_l.World.{World, Exec, or_err, ◌>>=◌, rpc_error}
use mina_evm_l.World.Safe.{
  Safe, Any, Returns, Safe-pure, Safe-fail, Safe-or_err, Safe-unwrap, Safe-gets, Safe-query,
  Safe-if, Safe-execute, Safe-bind,
}
use mina_evm_l.Env.{Env}
use mina_evm_l.Db.Table.{Db}
use mina_evm_l.Proposer.Chain.{agrees, validate_contract_config}
use mina_evm_l.Proposer.Loop.{new, initialize_proposer}
use mina_evm_l.WellFormed.Rows.{
  IsWf, add_chain_lock-IsWf, delete_all_requests_with_statuses-IsWf,
  cancel_prove_requests_with_different_commitment_config-IsWf,
}

module _ {C : Type 0} {A B : Type 0} where
  asks :
      (o : Option A) (k : A → Exec B)
      → ((a : A) → Safe C IsWf Any (k a))
      → Safe C IsWf Any (or_err rpc_error o >>= k)
  asks o k h = Safe-bind {Q = Any} _ _ (Safe-or_err _ _ (λ _ _. tt)) (λ a _. h a)

module _ {C : Type 0} (env : Env) (config : Config) where
  validate_contract_config-Safe : Safe C IsWf Any (validate_contract_config env config)
  unfolding validate_contract_config
  validate_contract_config-Safe = asks _ _ (λ theirs.
      Safe-if (agrees config.commitments theirs) _ _ (λ _. Safe-pure tt tt) (λ _. Safe-fail _))

pub new-Safe :
    (config : Config) (pg_interval : ℕ → Option ℕ)
    → Safe (pg_interval config.loop_interval ≡ none) IsWf Any (new config pg_interval)
unfolding new
new-Safe config pg_interval = Safe-bind {Q = Any} _ _ (Safe-gets _ (λ _ _. tt)) (λ now _.
    Safe-bind {Q = Any} _ _ (Safe-unwrap _ (λ e. e) (λ _ _. tt)) (λ interval _.
      Safe-bind {Q = Any} _ _ (Safe-query _ (λ _ _ _. tt)) (λ locked _.
        Safe-if locked _ _ (λ _. Safe-fail _)
          (λ _. Safe-execute _ (λ now db tasks. add_chain_lock-IsWf _ _ now db)))))

initialize_proposer-Safe :
    (env : Env) (config : Config) → Safe ⊥ IsWf Any (initialize_proposer config env)
unfolding initialize_proposer
initialize_proposer-Safe env config =
    Safe-bind _ _ (validate_contract_config-Safe env config) (λ _ _.
      Safe-bind _ _
        (Safe-execute _ (λ now db tasks. delete_all_requests_with_statuses-IsWf _ _ _ db))
        (λ _ _.
          Safe-execute _
            (λ now db tasks. cancel_prove_requests_with_different_commitment_config-IsWf _ _ _ db)))

-- From well-formed rows and tasks, `new` and `initialize_proposer` leave well-formed rows and tasks,
-- whichever calls of the database fail and whatever the contract answers. `initialize_proposer` does not
-- panic, and `new` only where the loop interval does not fit the database's.
pub start_up-IsWf :
    (env : Env) (config : Config) (pg_interval : ℕ → Option ℕ) (w : World)
    → IsWf w.db w.tasks
    → Returns (pg_interval config.loop_interval ≡ none) Any (new config pg_interval w).0
      × IsWf (new config pg_interval w).1.db (new config pg_interval w).1.tasks
      × Returns ⊥ Any (initialize_proposer config env w).0
      × IsWf (initialize_proposer config env w).1.db (initialize_proposer config env w).1.tasks
start_up-IsWf env config pg_interval w h =
    let (q, h') = (new-Safe config pg_interval).at w h in
    let (q', h'') = (initialize_proposer-Safe env config).at w h in (q, h', q', h'')
