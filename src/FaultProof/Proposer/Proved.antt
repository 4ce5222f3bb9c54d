-- ===== src/FaultProof/Proposer/Proved.antt =====
-- What `prove_game` of fault-proof/src/proposer.rs proves and sends.
use mina_evm_l.Prelude.{
  ℕ, ◌+◌, ◌-◌, ◌^◌, ◌≡◌, refl, sym, ap, ◌∙◌, Bool, true, false, Option, none, some, [], ◌∷◌, ltb,
  leb, if◌then◌else◌, arith,
}
use mina_evm_l.Request.{B256, Bytes, Address}
use mina_evm_l.World.{ok}
use mina_evm_l.FaultProof.Agent.{prove, Agent, ProposerConfig, Outside, pure, or_err, ◌>>=◌, send}
use mina_evm_l.FaultProof.Proposer.{prove_game, prove_by, range_proof, agg_proof}
use mina_evm_l.FaultProof.Agent.Answers.{or_err_then, or_panic_then, answer_then}

-- A proof by the prover, or a mock of one of the values that the execution gives.
abbrev pub made {ℓ κ} :
    {Values : Type ℓ} {Proof : Type κ}
    → Bool
    → Option Values
    → (Values → Proof)
    → Option Proof
    → Option Proof
made false executed mock proved = proved
made true none mock proved = none
made true (some values) mock proved = some (mock values)

-- A range proof of the interval of blocks that ends at the game's own, against the L1 head of the game.
pub record IsRangeProof (config : ProposerConfig) (outside : Outside) (game : Address)
    (proof : outside.Proof) : Type 0 where
  pub l1_head : B256
  pub start : ℕ
  pub args : outside.Args
  pub witness : outside.Witness
  pub stdin : outside.Stdin
  pub of_game : outside.l1_head game ≡ some l1_head
  pub block : outside.games.l2_block_number game ≡ some (start + config.proposal_interval_in_blocks)
  pub fetched :
      outside.host_fetch start
        (start + config.proposal_interval_in_blocks)
        l1_head
        config.safe_db_fallback
      ≡ some args
  pub ran : outside.host_run args ≡ some witness
  pub witnessed : outside.sp1_stdin witness ≡ some stdin
  pub proved :
      made config.mock_mode
        (outside.execute_range stdin)
        outside.mock_range_proof
        (outside.prove_range stdin)
      ≡ some proof

-- The aggregation of one range proof, for the address of the prover, up to the L1 head that it is of.
pub record IsAggregate (config : ProposerConfig) (outside : Outside) (proof : outside.Proof)
    (bytes : Bytes) : Type 0 where
  pub headers : outside.Headers
  pub stdin : outside.Stdin
  pub aggregated : outside.Proof
  pub linked :
      outside.header_preimages (outside.boot_info proof ∷ []) (outside.boot_info proof).l1_head
      ≡ some headers
  pub joined :
      outside.agg_stdin
        (proof ∷ [])
        (outside.boot_info proof ∷ [])
        headers
        (outside.boot_info proof).l1_head
        config.prover_address
      ≡ some stdin
  pub finished :
      made config.mock_mode
        (outside.execute_agg stdin)
        outside.mock_agg_proof
        (outside.prove_agg stdin)
      ≡ some aggregated
  pub encoded : bytes ≡ outside.onchain_bytes aggregated

-- A test before a value.
if_some :
    {A : Type 0} (t : Bool) (a b : A) → (if t then some a else none) ≡ some b → (t ≡ true) × (a ≡ b)
if_some true a b h = (refl, cc)
if_some false a b h = absurd cc

-- The two ways to a proof, as one answer.
or_err-made :
    {Values Proof : Type 0} (mock_mode : Bool) (executed : Option Values) (mock : Values → Proof)
    (proved : Option Proof)
    → (if mock_mode then (or_err executed >>= λ values. pure (mock values)) else or_err proved)
      ≡ or_err (made mock_mode executed mock proved)
unfolding ◌>>=◌
or_err-made false executed mock proved = refl
or_err-made true none mock proved = refl
or_err-made true (some values) mock proved = refl

module _ (config : ProposerConfig) (outside : Outside) where
  range_proof-made :
      (stdin : outside.Stdin)
      → range_proof config outside stdin
        ≡ or_err (
            made config.mock_mode
              (outside.execute_range stdin)
              outside.mock_range_proof
              (outside.prove_range stdin))
  unfolding range_proof
  range_proof-made stdin = or_err-made config.mock_mode _ _ _

  agg_proof-made :
      (stdin : outside.Stdin)
      → agg_proof config outside stdin
        ≡ or_err (
            made config.mock_mode
              (outside.execute_agg stdin)
              outside.mock_agg_proof
              (outside.prove_agg stdin))
  unfolding agg_proof
  agg_proof-made stdin = or_err-made config.mock_mode _ _ _

  -- The last part, from the aggregated proof on.
  send-sent :
      (game : Address) (bytes : Bytes) (g : Agent)
      → ((send outside (prove game bytes) >>= λ receipt. pure tt) g).1.sent
        ≡ prove game bytes ∷ g.sent
  unfolding ◌>>=◌
  send-sent game bytes g = go (outside.send_transaction_request (prove game bytes))
    where
      go :
          (r : Option (Option Address))
          → ((or_err r >>= λ receipt. pure tt)
              (record g { sent = prove game bytes ∷ g.sent })).1.sent
            ≡ prove game bytes ∷ g.sent
      go none = refl
      go (some receipt) = refl

  -- The last transaction proves the game with an aggregation of the range proof.
  abbrev Sends : Address → Agent → outside.Proof → Agent → Type 0
  Sends game g proof h =
      (bytes : Bytes) × IsAggregate config outside proof bytes
      × (h.sent ≡ prove game bytes ∷ g.sent)

  prove_by-Sends :
      (game : Address) (proof : outside.Proof) (g : Agent)
      → (prove_by config outside game proof g).0 ≡ ok tt
      → Sends game g proof (prove_by config outside game proof g).1
  unfolding prove_by
  prove_by-Sends game proof g h = or_err_then (Sends game g proof) _ _ g tt h (λ headers linked h1.
      or_err_then (Sends game g proof) _ _ g tt h1 (λ stdin joined h2.
        answer_then (Sends game g proof) (agg_proof config outside stdin) _ _ g tt
          (agg_proof-made stdin) h2
          (λ aggregated finished h3. (
            outside.onchain_bytes aggregated,
            record {
              headers = headers;
              stdin = stdin;
              aggregated = aggregated;
              linked = linked;
              joined = joined;
              finished = finished;
              encoded = refl;
            },
            send-sent game (outside.onchain_bytes aggregated) g,
          ))))

  span :
      (end start : ℕ)
      → leb config.proposal_interval_in_blocks end ≡ true
      → end - config.proposal_interval_in_blocks ≡ start
      → end ≡ start + config.proposal_interval_in_blocks
  span end start long less = ground arith

  -- From the numbers of the blocks on.
  proves_range :
      (game : Address) (g : Agent) (l1_head : B256) (number end start : ℕ)
      → outside.l1_head game ≡ some l1_head
      → outside.games.l2_block_number game ≡ some number
      → (if ltb number (2 ^ 64) then some number else none) ≡ some end
      → (if leb config.proposal_interval_in_blocks end
          then some (end - config.proposal_interval_in_blocks)
          else none)
        ≡ some start
      → (args : outside.Args) (witness : outside.Witness) (stdin : outside.Stdin)
        (proof : outside.Proof)
      → outside.host_fetch start end l1_head config.safe_db_fallback ≡ some args
      → outside.host_run args ≡ some witness
      → outside.sp1_stdin witness ≡ some stdin
      → made config.mock_mode
          (outside.execute_range stdin)
          outside.mock_range_proof
          (outside.prove_range stdin)
        ≡ some proof
      → IsRangeProof config outside game proof
  proves_range game g l1_head number end start of_game numbered ends starts args witness stdin proof
        fetched ran witnessed proved =
      let (small, same) = if_some (ltb number (2 ^ 64)) number end ends in
      let (long, less) =
        if_some (leb config.proposal_interval_in_blocks end)
          (end - config.proposal_interval_in_blocks) start starts in
      let total : end ≡ start + config.proposal_interval_in_blocks = span end start long less in
      record {
        l1_head = l1_head;
        start = start;
        args = args;
        witness = witness;
        stdin = stdin;
        of_game = of_game;
        block = numbered ∙ ap some (same ∙ total);
        fetched =
            ap (λ (n : ℕ). outside.host_fetch start n l1_head config.safe_db_fallback) (sym total)
            ∙ fetched;
        ran = ran;
        witnessed = witnessed;
        proved = proved;
      }

  abbrev pub Proves : Address → Agent → Agent → Type 0
  Proves game g h =
      (proof : outside.Proof) × (bytes : Bytes) × IsRangeProof config outside game proof
      × IsAggregate config outside proof bytes
      × (h.sent ≡ prove game bytes ∷ g.sent)

  -- If `prove_game` succeeds, it sent one transaction, which proves the game: with an aggregation of a range
  -- proof of the interval of blocks that ends at the game's own, for the address of the prover.
  pub prove_game-Proves :
      (game : Address) (g : Agent)
      → (prove_game config outside game g).0 ≡ ok tt
      → Proves game g (prove_game config outside game g).1
  unfolding prove_game
  prove_game-Proves game g h =
      let Q = Proves game g in
      or_err_then Q _ _ g tt h (λ u fetcher h1. or_err_then Q _ _ g tt h1 (λ l1_head of_game h2.
        or_err_then Q _ _ g tt h2 (λ number numbered h3. or_panic_then Q _ _ g tt h3 (λ end ends h4.
          or_panic_then Q _ _ g tt h4 (λ start starts h5.
            or_err_then Q _ _ g tt h5 (λ args fetched h6.
              or_err_then Q _ _ g tt h6 (λ witness ran h7.
                or_err_then Q _ _ g tt h7 (λ stdin witnessed h8.
                  answer_then Q (range_proof config outside stdin) _ _ g tt (range_proof-made stdin)
                    h8
                    (λ proof proved h9.
                      let (bytes, aggregate, sent) = prove_by-Sends game proof g h9 in
                      (
                        proof,
                        bytes,
                        proves_range game g l1_head number end start of_game numbered ends starts
                            args witness stdin proof fetched ran witnessed proved,
                        aggregate,
                        sent,
                      ))))))))))
