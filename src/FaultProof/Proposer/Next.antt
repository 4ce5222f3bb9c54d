-- ===== src/FaultProof/Proposer/Next.antt =====
-- The proposal that `handle_game_creation` and `should_create_game` of fault-proof/src/proposer.rs look for.
use mathlib.Core.Path.{subst}
use mina_evm_l.Prelude.{
  ℕ, ◌+◌, ◌%◌, ◌^◌, ◌<◌, ◌≡◌, refl, sym, ap, inl, inr, Option, none, some, ltb, Bool-cases,
  Option-cases, arith,
}
use mina_evm_l.World.{Error, rpc_error, Outcome, ok, err, panic}
use mina_evm_l.World.Outcomes.{Outcome-cases}
use mina_evm_l.FaultProof.{no_parent}
use mina_evm_l.FaultProof.Search.{get_latest_valid_proposal}
use mina_evm_l.FaultProof.Agent.{Agent, ProposerConfig, Outside, Act, ◌>>=◌, u256_mod}
use mina_evm_l.FaultProof.Proposer.{after_proposal, next_proposal}

-- The block that the next game builds on, and its parent: the latest valid proposal, or else the anchor.
pub data IsBase (outside : Outside) : ℕ → ℕ → Type 0 where
  child :
      (base parent : ℕ)
      → get_latest_valid_proposal outside.games ≡ ok (some (base, parent))
      → parent < 2 ^ 32
      → IsBase outside base parent
  first :
      (base parent : ℕ)
      → get_latest_valid_proposal outside.games ≡ ok none
      → outside.anchor_l2_block_number ≡ some base
      → parent ≡ no_parent
      → IsBase outside base parent

-- The next game is one interval past its base, and that block is before the finalized one.
pub record IsNext (config : ProposerConfig) (outside : Outside) (next parent : ℕ) : Type 0 where
  pub base : ℕ
  pub finalized : ℕ
  pub based : IsBase outside base parent
  pub interval : next ≡ base + config.proposal_interval_in_blocks
  pub final : outside.finalized_l2_block_number base ≡ some (some finalized)
  pub before : next < finalized

module _ (config : ProposerConfig) (outside : Outside)
    (small : config.proposal_interval_in_blocks < 2 ^ 64) (g : Agent) where
  -- The proposal that the check and the task look for.
  pub data Sought : Outcome (ℕ × ℕ × ℕ) → Type 0 where
    found :
        (base next parent : ℕ)
        → IsBase outside base parent
        → (base < 2 ^ 64 → next ≡ base + config.proposal_interval_in_blocks)
        → Sought (ok (base, next, parent))
    lost : (e : Error) → Sought (err e)
    broken : Sought panic

  via :
      (m : Act (ℕ × ℕ × ℕ)) (r : Outcome (ℕ × ℕ × ℕ))
      → m g ≡ (r, g)
      → Sought r
      → Sought (m g).0 × ((m g).1 ≡ g)
  via m r e s = (
    subst Sought (sym (ap (λ (x : Outcome (ℕ × ℕ × ℕ) × Agent). x.0) e)) s,
    ap (λ (x : Outcome (ℕ × ℕ × ℕ) × Agent). x.1) e,
  )

  after_proposal-Sought :
      (latest : Option (ℕ × ℕ))
      → get_latest_valid_proposal outside.games ≡ ok latest
      → Sought (after_proposal config outside latest g).0
        × ((after_proposal config outside latest g).1 ≡ g)
  unfolding ◌>>=◌
  after_proposal-Sought (some (base, index)) e = elim (Bool-cases (ltb index (2 ^ 32))) [
    | inl lt ↦
        via (after_proposal config outside (some (base, index)))
          (ok (base, (base + config.proposal_interval_in_blocks) % u256_mod, index)) (rw lt refl)
          (found base _ index (child base index e (ground (arith, lt))) (λ h. omega arith))
    | inr ge ↦ via (after_proposal config outside (some (base, index))) panic (rw ge refl) broken
  ]
  after_proposal-Sought none e = elim (Option-cases outside.anchor_l2_block_number) [
    | inl e' ↦
        via (after_proposal config outside none) (err rpc_error) (rw e' refl) (lost rpc_error)
    | inr (base, e') ↦
        elim (Bool-cases (ltb (base + config.proposal_interval_in_blocks) u256_mod)) [
          | inl lt ↦
              via (after_proposal config outside none)
                (ok (base, base + config.proposal_interval_in_blocks, no_parent)) (rw (e', lt) refl)
                (found base _ no_parent (first base no_parent e e' refl) (λ h. refl))
          | inr ge ↦ via (after_proposal config outside none) panic (rw (e', ge) refl) broken
        ]
  ]

  pub next_proposal-Sought :
      Sought (next_proposal config outside g).0 × ((next_proposal config outside g).1 ≡ g)
  unfolding next_proposal ◌>>=◌
  next_proposal-Sought = elim (Outcome-cases (get_latest_valid_proposal outside.games)) [
    | inl (x, e) ↦ via (next_proposal config outside) (err x) (rw e refl) (lost x)
    | inr (inl e) ↦ via (next_proposal config outside) panic (rw e refl) broken
    | inr (inr (latest, e)) ↦
        let (s, same) = after_proposal-Sought latest e in
        via (next_proposal config outside) (after_proposal config outside latest g).0
          (rw e (ap (λ (x : Agent). ((after_proposal config outside latest g).0, x)) same)) s
  ]
