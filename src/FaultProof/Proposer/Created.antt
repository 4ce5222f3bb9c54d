-- ===== src/FaultProof/Proposer/Created.antt =====
-- When `handle_game_creation` of fault-proof/src/proposer.rs creates a game, and which.
use mathlib.Core.Path.{subst}
use mina_evm_l.Prelude.{
  ℕ, ◌^◌, ◌<◌, ◌≤◌, ◌≡◌, refl, sym, ap, ◌∙◌, inl, inr, Bool, true, false, Option, none, some, ◌∷◌,
  ltb, if◌then◌else◌, Bool-cases, Option-cases, arith,
}
use mina_evm_l.Request.{B256, Address}
use mina_evm_l.World.{Error, rpc_error, Outcome, ok, err, panic}
use mina_evm_l.World.Outcomes.{Outcome-cases}
use mina_evm_l.FaultProof.Search.{compute_output_root_at_block}
use mina_evm_l.FaultProof.Numbered.{compute_output_root_at_block-panics}
use mina_evm_l.FaultProof.Agent.{
  create, Agent, ProposerConfig, Outside, Act, pure, or_err, or_else, ◌>>=◌, ◌>>◌, checked_to,
  continue,
}
use mina_evm_l.FaultProof.Proposer.{
  next_proposal, is_past, should_create_game, spawn_game_proving_task, create_game,
  handle_game_creation,
}
use mina_evm_l.FaultProof.Proposer.Next.{IsNext, Sought, found, lost, broken, next_proposal-Sought}

-- What the check before the task says, and what the task does.
pub data IsCreation (config : ProposerConfig) (outside : Outside) (g : Agent)
    : Outcome Bool → Outcome (Option Address) → Agent → Type 0 where
  refused : IsCreation config outside g (ok false) (ok none) g
  failed : (e : Error) → IsCreation config outside g (err e) (err e) g
  panicked : IsCreation config outside g panic panic g
  no_root :
      (next parent : ℕ) (e : Error)
      → IsNext config outside next parent
      → compute_output_root_at_block outside.games next ≡ err e
      → IsCreation config outside g (ok true) (err e) g
  no_number :
      (next parent : ℕ)
      → IsNext config outside next parent
      → 2 ^ 64 ≤ next
      → IsCreation config outside g (ok true) panic g
  sends :
      (next parent : ℕ) (root : B256) (r : Outcome (Option Address)) (g' : Agent)
      → IsNext config outside next parent
      → compute_output_root_at_block outside.games next ≡ ok root
      → g'.sent ≡ create config.game_type root next parent config.init_bond ∷ g.sent
      → IsCreation config outside g (ok true) r g'

module _ (config : ProposerConfig) (outside : Outside) where
  -- A task for a proof leaves the transactions alone.
  spawn-sent :
      (game : Address) (g : Agent) → (spawn_game_proving_task config outside game g).1.sent ≡ g.sent
  unfolding spawn_game_proving_task ◌>>=◌
  spawn-sent game g = ground arith

  -- Whatever became of the task for the proof.
  kept :
      (game : Address) (r : Outcome (Unit {0})) (g : Agent) → (continue r (λ u. pure game) g).1 ≡ g
  unfolding ◌>>=◌
  kept game (ok u) g = refl
  kept game (err e) g = refl
  kept game panic g = refl

  finish-sent :
      (fast : Bool) (game : Address) (g : Agent)
      → (((if fast then or_else (spawn_game_proving_task config outside game) tt else pure tt)
            >> pure game)
          g).1.sent
        ≡ g.sent
  unfolding ◌>>=◌
  finish-sent false game g = refl
  finish-sent true game g =
      ap (λ (x : Agent). x.sent)
        (kept game (or_else (spawn_game_proving_task config outside game) tt g).0
          (spawn_game_proving_task config outside game g).1)
      ∙ spawn-sent game g

  create_game-sent :
      (block parent : ℕ) (root : B256) (g : Agent)
      → compute_output_root_at_block outside.games block ≡ ok root
      → (create_game config outside block parent g).1.sent
        ≡ create config.game_type root block parent config.init_bond ∷ g.sent
  unfolding create_game ◌>>=◌
  create_game-sent block parent root g e =
      let transaction = create config.game_type root block parent config.init_bond in
      elim (Option-cases (outside.send_transaction_request transaction)) [
        | inl e' ↦ rw (e, e') refl
        | inr (o, e') ↦ elim (Option-cases o) [
          | inl e'' ↦ rw (e, e' ∙ ap some e'') refl
          | inr (game, e'') ↦
              rw (e, e' ∙ ap some e'')
                (finish-sent config.fast_finality_mode game
                  (record g { sent = transaction ∷ g.sent }))
        ]
      ]

  create_game-err :
      (block parent : ℕ) (g : Agent) (x : Error)
      → compute_output_root_at_block outside.games block ≡ err x
      → create_game config outside block parent g ≡ (err x, g)
  unfolding create_game ◌>>=◌
  create_game-err block parent g x e = rw e refl

  create_game-panic :
      (block parent : ℕ) (g : Agent)
      → compute_output_root_at_block outside.games block ≡ panic
      → create_game config outside block parent g ≡ (panic, g)
  unfolding create_game ◌>>=◌
  create_game-panic block parent g e = rw e refl

  -- What the check and the task do with a proposal.
  abbrev check : ℕ × ℕ × ℕ → Act Bool
  check (latest, next, parent) = checked_to 64 latest >>= λ block.
      or_err (outside.finalized_l2_block_number block) >>= λ finalized.
      pure (is_past config outside next finalized)

  abbrev propose : ℕ → ℕ → Bool → Act (Option Address)
  propose next parent due =
      if due
      then (create_game config outside next parent >>= λ game. pure (some game))
      else pure none

  abbrev act : ℕ × ℕ × ℕ → Act (Option Address)
  act (latest, next, parent) = checked_to 64 latest >>= λ block.
      or_err (outside.finalized_l2_block_number block) >>= λ finalized.
      propose next parent (is_past config outside next finalized)

  -- The address is passed on with the transactions as they are.
  passed : (r : Outcome Address) (g : Agent) → (continue r (λ game. pure (some game)) g).1 ≡ g
  unfolding ◌>>=◌
  passed (ok game) g = refl
  passed (err e) g = refl
  passed panic g = refl

  proposes :
      (next parent : ℕ) (g : Agent)
      → IsNext config outside next parent
      → IsCreation config outside g
          (ok true)
          (propose next parent true g).0
          (propose next parent true g).1
  unfolding ◌>>=◌
  proposes next parent g h =
      elim (Outcome-cases (compute_output_root_at_block outside.games next)) [
        | inl (x, e) ↦
            let none_made = create_game-err next parent g x e in
            subst
              (λ (x : Outcome Address × Agent).
                IsCreation config outside g (ok true)
                  (continue x.0 (λ game. pure (some game)) x.1).0
                  (continue x.0 (λ game. pure (some game)) x.1).1)
              (sym none_made) (no_root next parent x h e)
        | inr (inl e) ↦
            let none_made = create_game-panic next parent g e in
            subst
              (λ (x : Outcome Address × Agent).
                IsCreation config outside g (ok true)
                  (continue x.0 (λ game. pure (some game)) x.1).0
                  (continue x.0 (λ game. pure (some game)) x.1).1)
              (sym none_made)
              (no_number next parent h (compute_output_root_at_block-panics outside.games next e))
        | inr (inr (root, e)) ↦ sends next parent root _ _ h e (
            ap (λ (x : Agent). x.sent)
              (passed (create_game config outside next parent g).0
                (create_game config outside next parent g).1)
            ∙ create_game-sent next parent root g e)
      ]

  decides :
      (small : config.proposal_interval_in_blocks < 2 ^ 64) (g : Agent) (r : Outcome (ℕ × ℕ × ℕ))
      → Sought config outside small g r
      → IsCreation config outside g (continue r check g).0 (continue r act g).0 (continue r act g).1
  unfolding ◌>>=◌
  decides small g _ (lost e) = failed e
  decides small g _ broken = panicked
  decides small g _ (found base next parent based far) = elim (Bool-cases (ltb base (2 ^ 64))) [
    | inr ge ↦ rw ge panicked
    | inl lt ↦ elim (Option-cases (outside.finalized_l2_block_number base)) [
      | inl e ↦ rw (lt, e) (failed rpc_error)
      | inr (none, e) ↦ rw (lt, e) refused
      | inr (some finalized, e) ↦ elim (Bool-cases (ltb next finalized)) [
        | inl due ↦
            rw (lt, e, due)
              (proposes next parent g (record {
                base = base;
                finalized = finalized;
                based = based;
                interval = far (ground (arith, lt));
                final = e;
                before = ground (arith, due);
              }))
        | inr early ↦ rw (lt, e, early) refused
      ]
    ]
  ]

-- With an interval below 2^64, the check before the task and the task agree on the same answers. Where the
-- check says no, fails or panics, the task creates nothing, fails or panics, and sends nothing. Where it says
-- yes, the task sends one transaction, unless the output root cannot be had or the block does not fit a u64: it creates a game one interval
-- past the latest valid proposal, with that game as its parent, or past the anchor, with no parent, at a
-- block before the finalized one that is known for it.
pub handle_game_creation-IsCreation :
    (config : ProposerConfig) (outside : Outside) (g : Agent)
    → config.proposal_interval_in_blocks < 2 ^ 64
    → IsCreation config outside g
        (should_create_game config outside g).0
        (handle_game_creation config outside g).0
        (handle_game_creation config outside g).1
unfolding should_create_game handle_game_creation ◌>>=◌
handle_game_creation-IsCreation config outside g small =
    let (sought, same) = next_proposal-Sought config outside small g in
    subst
      (λ (x : Agent).
        IsCreation config outside g
          (continue (next_proposal config outside g).0 (check config outside) x).0
          (continue (next_proposal config outside g).0 (act config outside) x).0
          (continue (next_proposal config outside g).0 (act config outside) x).1)
      (sym same) (decides config outside small g (next_proposal config outside g).0 sought)
