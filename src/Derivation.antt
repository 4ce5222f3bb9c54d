-- ===== src/Derivation.antt =====
-- The range program from its inputs on: utils/client/src/client.rs, utils/client/src/witness/executor.rs and
-- programs/range/utils/src/lib.rs.
pub mod Steps
pub mod Ends
pub mod Only
pub mod Valid
use mina_evm_l.Prelude.{
  ℕ, zero, suc, Bool, true, false, ◌&&◌, Option, none, some, List, [], ◌∷◌, filter, map, ltb, leb,
  ◌==◌, if◌then◌else◌,
}
use mina_evm_l.Request.{B256, Bytes}
use mina_evm_l.World.{Outcome, ok, err, panic, rpc_error}
use mina_evm_l.Aggregation.{BootInfo}
use mina_evm_l.Fetcher.{Run, run_then}

-- A payload to execute: its timestamp, its encoded transactions, and what else the executor takes.
pub record Attributes (Rest : Type 0) : Type 0 where
  pub timestamp : ℕ
  pub transactions : Option (List Bytes)
  pub rest : Rest

-- What `produce_payload` gives: a payload, a critical end of the source, or another error.
pub data Payload (Rest : Type 0) : Type 0 where
  produced : Attributes Rest → Payload Rest
  end_of_source unproduced : Payload Rest

-- The safe head of L2, its header and its output root.
pub record TipCursor (Block Header : Type 0) : Type 0 where
  pub l2_safe_head : Block
  pub l2_safe_head_header : Header
  pub l2_safe_head_output_root : B256

-- The kona library: its pipeline and its executor with their state, and the rollup configuration.
pub record Kona : Type 1 where
  pub State : Type 0
  pub Block : Type 0
  pub Header : Type 0
  pub Rest : Type 0
  pub Transaction : Type 0
  pub Origin : Type 0
  pub number : Block → ℕ
  pub header_number : Header → ℕ
  pub is_interop_active : ℕ → Bool
  pub is_holocene_active : ℕ → Bool
  pub produce_payload : Block → State → Payload Rest × State
  pub update_safe_head : Header → State → State
  pub execute_payload : Attributes Rest → State → Option Header × State
  pub flush_channel : State → Option State
  pub decode : Bytes → Option Transaction
  pub origin : State → Option Origin
  pub from_block_and_genesis : Header → List Transaction → Option Block
  pub compute_output_root : State → Option B256
  pub advance : Origin → TipCursor Block Header → State → State
  pub hash_rollup_config : B256

-- The boot information of a range, less its rollup configuration.
pub record RangeBoot : Type 0 where
  pub l1_head : B256
  pub agreed_l2_output_root : B256
  pub claimed_l2_output_root : B256
  pub claimed_l2_block_number : ℕ

module _ (kona : Kona) where
  abbrev pub Tip : Type 0
  Tip = TipCursor kona.Block kona.Header

  -- How an iteration of the loop ends: with a result, or with the target, the tip and the state of the next.
  pub data Iteration : Type 0 where
    returns : Outcome (kona.Block × B256) → Iteration
    continues : Option ℕ → Tip → kona.State → Iteration

  abbrev pub is_deposit : Bytes → Bool
  is_deposit [] = false
  is_deposit (b ∷ tx) = b == 126

  -- The payload without the transactions that are not deposits.
  abbrev pub strip : Attributes kona.Rest → Attributes kona.Rest
  strip attributes = record attributes { transactions = stripped attributes.transactions }
    where
      stripped : Option (List Bytes) → Option (List Bytes)
      stripped none = none
      stripped (some txs) = some (filter is_deposit txs)

  abbrev pub or_empty : Option (List Bytes) → List Bytes
  or_empty none = []
  or_empty (some txs) = txs

  pub decode_all : List Bytes → Option (List kona.Transaction)
  decode_all [] = some []
  decode_all (tx ∷ txs) = elim (kona.decode tx) [
    | none ↦ none
    | some t ↦ elim (decode_all txs) [ none ↦ none | some ts ↦ some (t ∷ ts) ]
  ]

  -- From the execution of a block on: the new tip.
  pub construct : Option ℕ → kona.Header → Attributes kona.Rest → kona.State → Iteration
  unfolding decode_all
  construct target header attributes s = elim (decode_all (or_empty attributes.transactions)) [
    | none ↦ returns (err rpc_error)
    | some txs ↦ elim (kona.origin s) [
      | none ↦ returns (err rpc_error)
      | some origin ↦ elim (kona.from_block_and_genesis header txs) [
        | none ↦ returns (err rpc_error)
        | some l2_info ↦ elim (kona.compute_output_root s) [
          | none ↦ returns (err rpc_error)
          | some root ↦
              let tip : Tip = record {
                l2_safe_head = l2_info;
                l2_safe_head_header = header;
                l2_safe_head_output_root = root;
              } in
              continues target tip (kona.advance origin tip s)
        ]
      ]
    ]
  ]

  abbrev pub executed :
      Option ℕ → Attributes kona.Rest → Option kona.Header × kona.State → Iteration
  executed target attributes (none, s) = returns (err rpc_error)
  executed target attributes (some header, s) = construct target header attributes s

  -- The block is executed again with its deposits only.
  abbrev pub retry : Option ℕ → Tip → Attributes kona.Rest → Option kona.State → Iteration
  retry target tip attributes none = returns (err rpc_error)
  retry target tip attributes (some s) =
      executed target (strip attributes)
        (kona.execute_payload (strip attributes) (kona.update_safe_head tip.l2_safe_head_header s))

  abbrev pub execute :
      Option ℕ → Tip → Attributes kona.Rest → Option kona.Header × kona.State → Iteration
  execute target tip attributes (some header, s) = construct target header attributes s
  execute target tip attributes (none, s) =
      if kona.is_holocene_active attributes.timestamp
      then retry target tip attributes (kona.flush_channel s)
      else continues target tip s

  -- The target where the source is exhausted.
  abbrev pub halt : Option ℕ → Tip → Option ℕ
  halt none tip = none
  halt (some target) tip = some (kona.number tip.l2_safe_head)

  abbrev pub derive : Option ℕ → Tip → Payload kona.Rest × kona.State → Iteration
  derive target tip (unproduced, s) = returns (err rpc_error)
  derive target tip (end_of_source, s) =
      if kona.is_interop_active (kona.number tip.l2_safe_head)
      then returns (err rpc_error)
      else continues (halt target tip) tip s
  derive target tip (produced attributes, s) =
      execute target tip attributes
        (kona.execute_payload attributes (kona.update_safe_head tip.l2_safe_head_header s))

  abbrev pub is_reached : Option ℕ → Tip → Bool
  is_reached none tip = false
  is_reached (some target) tip = leb target (kona.number tip.l2_safe_head)

  pub iterate : Option ℕ → Tip → kona.State → Iteration
  unfolding construct
  iterate target tip s =
      if is_reached target tip
      then returns (ok (tip.l2_safe_head, tip.l2_safe_head_output_root))
      else derive target tip (kona.produce_payload tip.l2_safe_head s)

  pub advance_to_target : ℕ → Option ℕ → Tip → kona.State → Run (kona.Block × B256)
  unfolding iterate
  advance_to_target zero target tip s = none
  advance_to_target (suc fuel) target tip s = elim (iterate target tip s) [
    | returns result ↦ some result
    | continues target' tip' s' ↦ advance_to_target fuel target' tip' s'
  ]

  abbrev pub validate : RangeBoot → kona.Block × B256 → Outcome RangeBoot
  validate boot (safe_head, output_root) =
      if output_root == boot.claimed_l2_output_root then ok boot else err rpc_error

  -- `run` of the executor, with the pipeline and its cursor.
  unfoldable pub run : ℕ → RangeBoot → Tip → kona.State → Run RangeBoot
  unfolding advance_to_target
  run fuel boot tip s =
      run_then (advance_to_target fuel (some boot.claimed_l2_block_number) tip s) (validate boot)

  -- `BootInfoStruct::from`
  abbrev pub commit : RangeBoot → BootInfo
  commit boot = record {
    l1_head = boot.l1_head;
    l2_pre_root = boot.agreed_l2_output_root;
    l2_post_root = boot.claimed_l2_output_root;
    l2_block_number = boot.claimed_l2_block_number;
    rollup_config_hash = kona.hash_rollup_config;
  }

  abbrev pub committed : Outcome RangeBoot → Outcome BootInfo
  committed (ok boot) = ok (commit boot)
  committed (err e) = panic
  committed panic = panic

  -- The range program, with what it loads: the boot information, and the pipeline at the agreed safe head. An
  -- error is unwrapped, and what it returns is what it commits.
  unfoldable pub run_range_program : ℕ → RangeBoot → Tip → kona.State → Run BootInfo
  unfolding run
  run_range_program fuel boot tip s =
      if ltb boot.claimed_l2_block_number (kona.header_number tip.l2_safe_head_header)
      then some panic
      else elim (run fuel boot tip s) [ none ↦ none | some result ↦ some (committed result) ]
