-- ===== src/FaultProof/Proposer/Spawned.antt =====
-- Which tasks are active after the parts of `spawn_pending_operations` of fault-proof/src/proposer.rs.
use mina_evm_l.Prelude.{
  ℕ, ◌+◌, ◌%◌, ◌^◌, ◌≡◌, ◌≢◌, refl, ap, ◌∙◌, Bool, true, false, not, ◌&&◌, Option, none, some, ltb,
  leb, if◌then◌else◌,
}
use mina_evm_l.Request.{Address}
use mina_evm_l.World.{Outcome, ok, err, panic}
use mina_evm_l.FaultProof.{get_oldest_claimable_bond_game_address}
use mina_evm_l.FaultProof.Search.{get_oldest_defensible_game_address}
use mina_evm_l.FaultProof.Agent.{
  TaskInfo, game_creation, Agent, ProposerConfig, Outside, Act, pure, or_else, recovered, ◌>>=◌,
  continue, fetch_add, insert_task,
}
use mina_evm_l.FaultProof.Proposer.{same_type, any_task, get_next_proposal_block}

abbrev pub is_yes : Outcome Bool → Bool
is_yes (ok b) = b
is_yes _ = false

abbrev pub is_found : Option (Option Address) → Bool
is_found (some (some game)) = true
is_found _ = false

-- The game that a search found passes the test.
abbrev pub is_guarded : Outcome (Option Address) → (Address → Bool) → Bool
is_guarded (ok (some game)) p = p game
is_guarded _ p = true

abbrev pub is_active : TaskInfo → Agent → Bool
is_active info g = any_task (same_type info) g.tasks

module _ (config : ProposerConfig) (outside : Outside) (g : Agent) where
  abbrev inserts : ℕ → ℕ → Act Bool
  inserts id block = insert_task id (game_creation block) >>= λ u. pure true

  -- The task is there once a name for it is known; only a panic stops that.
  inserted :
      (id : ℕ) (r : Outcome ℕ) (h : Agent)
      → (continue (recovered r 0) (inserts id) h).0 ≢ panic
      → is_active (game_creation 0) (continue (recovered r 0) (inserts id) h).1 ≡ true
  unfolding ◌>>=◌
  inserted id (ok block) h p = refl
  inserted id (err e) h p = refl
  inserted id panic h p = absurd (p refl)

  abbrev names : ℕ → Act Bool
  names id = or_else (get_next_proposal_block config outside) 0 >>= λ block. inserts id block

  abbrev spawns : Bool → Act Bool
  spawns should_create = if not should_create then pure false else (fetch_add >>= λ id. names id)

  -- After the check, which leaves the tasks alone.
  checked :
      (r : Outcome Bool) (h : Agent)
      → h.tasks ≡ g.tasks
      → is_active (game_creation 0) g ≡ false
      → recovered (continue r spawns h).0 false ≢ panic
      → is_active (game_creation 0) (continue r spawns h).1 ≡ is_yes r
  unfolding ◌>>=◌
  checked (ok false) h same free p = ap (any_task (same_type (game_creation 0))) same ∙ free
  checked (ok true) h same free p =
      inserted h.next_task_id
        (get_next_proposal_block config outside
          (record h { next_task_id = (h.next_task_id + 1) % 2 ^ 64 })).0
        (get_next_proposal_block config outside
          (record h { next_task_id = (h.next_task_id + 1) % 2 ^ 64 })).1
        (λ e. p (ap (λ (x : Outcome Bool). recovered x false) e))
  checked (err e) h same free p = ap (any_task (same_type (game_creation 0))) same ∙ free
  checked panic h same free p = absurd (p refl)

  -- The search for a bond to claim.
  abbrev pub sought : Option (Option Address)
  sought =
      get_oldest_claimable_bond_game_address outside.games
        config.max_games_to_check_for_bond_claiming config.prover_address

  abbrev pub defended : Outcome (Option Address)
  defended = get_oldest_defensible_game_address outside.games config.max_games_to_check_for_defense

  -- The range of a game: an interval of blocks, numbered in a u64.
  abbrev pub in_range : Option ℕ → Bool
  in_range none = false
  in_range (some block) = ltb block (2 ^ 64) && leb config.proposal_interval_in_blocks block
