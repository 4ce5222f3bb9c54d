-- ===== src/Env.antt =====
-- What the proposer asks of code that is not here: the RPC nodes, the contracts, the host, the prover
-- network and the serialisers. `none` is an error; an operation is given the answers that it gets.
use mina_evm_l.Prelude.{ℕ, Bool, Option, List}
use mina_evm_l.Request.{B256, Address, Bytes, BlockInfo, ExecutionReport, CommitmentConfig}
use mina_evm_l.World.{Transaction}

pub data FulfillmentStatus : Type 0 where
  unspecified_fulfillment requested assigned fulfilled unfulfillable : FulfillmentStatus

pub data ExecutionStatus : Type 0 where
  unspecified_execution unexecuted executed unexecutable : ExecutionStatus

pub data ProofKind : Type 0 where
  core compressed plonk groth16 : ProofKind

pub record Receipt : Type 0 where
  pub status : Bool
  pub transaction_hash : B256

pub record Header : Type 0 where
  pub number : ℕ
  pub hash : B256

pub record Env : Type 1 where
  -- The contracts and the nodes.
  pub latest_block_number : Option ℕ
  pub submission_interval : Option ℕ
  pub op_succinct_configs : B256 → Option CommitmentConfig
  pub init_bonds : ℕ → Option ℕ
  pub send_transaction_request : Transaction → Option Receipt
  pub latest_l1_header : Option Header
  pub l1_header_number : B256 → Option ℕ
  pub l1_chain_id : Option ℕ
  pub l2_chain_id : Option ℕ
  pub latest_l2_number : Option ℕ
  pub finalized_l2_number : Option ℕ
  pub l2_output_root : ℕ → Option B256
  pub l2_block_data : ℕ → ℕ → Option (List BlockInfo)
  -- The clocks: seconds since the epoch when a request is looked at, and the local time.
  pub unix_time : ℕ → ℕ
  pub local_now : ℕ
  pub witnessgen_secs : ℕ
  pub execution_secs : ℕ
  -- The host.
  pub finalized_block : ℕ → Option (Option ℕ)
  pub Args : Type 0
  pub Witness : Type 0
  pub Stdin : Type 0
  pub host_fetch : ℕ → ℕ → Bool → Option Args
  pub l1_head_hash : Args → Option B256
  pub host_run : Args → Option Witness
  pub sp1_stdin : Witness → Option Stdin
  -- The prover and its proofs.
  pub Proof : Type 0
  pub BootInfo : Type 0
  pub kind : Proof → ProofKind
  pub serialize : Proof → Bytes
  pub deserialize : Bytes → Option Proof
  pub public_values : Proof → BootInfo
  pub onchain_bytes : Proof → Bytes
  pub header_preimages : List BootInfo → B256 → Option (List Header)
  pub agg_stdin : List Proof → List BootInfo → List Header → B256 → Address → Option Stdin
  pub prove_range : Stdin → Option Proof
  pub prove_agg : Stdin → Option Proof
  pub request_range : Stdin → Option B256
  pub request_agg : Stdin → Option B256
  pub execute_range : Stdin → Option ExecutionReport
  pub execute_agg : Stdin → Option ExecutionReport
  pub mock_range_proof : Stdin → Proof
  pub mock_agg_proof : Stdin → Proof
  pub deadline : B256 → Option ℕ
  pub execution_status : B256 → ExecutionStatus
  pub fulfillment_status : B256 → FulfillmentStatus
  pub fulfilled_proof : B256 → Option Proof
