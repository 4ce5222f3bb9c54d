-- ===== src/Examples/Data.antt =====
-- A configuration, the answers of the outside and a database, for the instances.
use mina_evm_l.Prelude.{ℕ, true, false, Option, none, some, List, [], ◌∷◌, ◌==◌, if◌then◌else◌}
use mina_evm_l.Request.{
  RequestStatus, aggregation, unrequested, witness_generation, prove, complete, Request,
  default_request, CommitmentConfig, Config,
}
use mina_evm_l.World.{World, Task, finished_err}
use mina_evm_l.Db.Table.{Db}
use mina_evm_l.Env.{Env, compressed, fulfilled, unspecified_execution, unfulfillable}
use mina_evm_l.Proposer.Loop.{Stage}
use mina_evm_l.Aggregation.{BootInfo, AggregationInputs, AggregationOutputs}

abbrev pub commitments : CommitmentConfig
commitments = record { range_vkey_commitment = 1; agg_vkey_hash = 2; rollup_config_hash = 3 }

abbrev pub config : Config
config = record {
  l1_chain_id = 1;
  l2_chain_id = 10;
  prover_address = 7;
  l2oo_address = 8;
  dgf_address = 0;
  range_proof_interval = 5;
  submission_interval = 5;
  max_concurrent_witness_gen = 2;
  max_concurrent_proof_requests = 4;
  op_succinct_config_name_hash = 6;
  mock = false;
  safe_db_fallback = false;
  use_local_proving = false;
  loop_interval = 60;
  commitments = commitments;
}

-- Block 10 is proposed and block 27 is final; the second proof is fulfilled.
abbrev pub env : Env
env = record {
  latest_block_number = some 10;
  submission_interval = some 5;
  op_succinct_configs = λ name. if name == 6 then some commitments else none;
  init_bonds = λ game. some 1;
  send_transaction_request = λ tx. some (record { status = true; transaction_hash = 99 });
  latest_l1_header = some (record { number = 500; hash = 50 });
  l1_header_number = λ hash. some 500;
  l1_chain_id = some 1;
  l2_chain_id = some 10;
  latest_l2_number = some 30;
  finalized_l2_number = some 27;
  l2_output_root = λ number. some 77;
  l2_block_data = λ start end. some [];
  unix_time = λ id. 1000;
  local_now = 1000;
  witnessgen_secs = 1;
  execution_secs = 1;
  finalized_block = λ latest. some (some 27);
  Args = ℕ;
  Witness = ℕ;
  Stdin = ℕ;
  host_fetch = λ start end fallback. some start;
  l1_head_hash = λ args. some 50;
  host_run = λ args. some args;
  sp1_stdin = λ witness. some witness;
  Proof = List ℕ;
  BootInfo = ℕ;
  kind = λ proof. compressed;
  serialize = λ proof. proof;
  deserialize = λ bytes. some bytes;
  public_values = λ proof. 0;
  onchain_bytes = λ proof. proof;
  header_preimages = λ boots l1_head. some [];
  agg_stdin = λ proofs boots headers l1_head prover. some 0;
  prove_range = λ stdin. some [];
  prove_agg = λ stdin. some [];
  request_range = λ stdin. some 42;
  request_agg = λ stdin. some 43;
  execute_range = λ stdin. none;
  execute_agg = λ stdin. none;
  mock_range_proof = λ stdin. [];
  mock_agg_proof = λ stdin. [];
  deadline = λ id. some 2000;
  execution_status = λ id. unspecified_execution;
  fulfillment_status = λ id. if id == 5 then fulfilled else unfulfillable;
  fulfilled_proof = λ id. some (1 ∷ []);
}

abbrev pub envs : Stage → Env
envs s = env

abbrev pub range_row : ℕ → RequestStatus → ℕ → ℕ → Option (List ℕ) → Option ℕ → Request
range_row id status start end proof proof_id = record default_request {
  id = id;
  status = status;
  start_block = start;
  end_block = end;
  range_vkey_commitment = 1;
  rollup_config_hash = 3;
  l1_chain_id = 1;
  l2_chain_id = 10;
  proof = proof;
  proof_request_id = proof_id;
}

abbrev pub done_row : Request
done_row = range_row 1 complete 10 15 (some (1 ∷ [])) none

abbrev pub waiting_row : Request
waiting_row = range_row 2 unrequested 15 20 none none

-- In witness generation, with no task.
abbrev pub orphan_row : Request
orphan_row = range_row 3 witness_generation 22 24 none none

abbrev pub proving_row : Request
proving_row = range_row 4 prove 24 25 none (some 5)

abbrev pub db : Db
db = record {
  requests = done_row ∷ waiting_row ∷ orphan_row ∷ proving_row ∷ [];
  next_id = 5;
  chain_locks = [];
}

abbrev pub failed_task : Task
failed_task = record {
  id = 9;
  outcome = finished_err;
  request = range_row 9 witness_generation 40 42 none none;
}

abbrev pub world : World
world = record { db = db; tasks = failed_task ∷ []; sent = []; now = 1000; faults = [] }

-- An aggregation request for the first range.
abbrev pub agg_row : Request
agg_row = record default_request { start_block = 10; end_block = 15 }

abbrev pub boot : ℕ → ℕ → ℕ → BootInfo
boot l1_head pre post = record {
  l1_head = l1_head;
  l2_pre_root = pre;
  l2_post_root = post;
  l2_block_number = post;
  rollup_config_hash = 3;
}

-- A completed aggregation from the proposed block on, and a world that has it.
abbrev pub complete_agg : Request
complete_agg = record (range_row 6 complete 10 15 (some (1 ∷ 2 ∷ [])) none) {
  req_type = aggregation;
  aggregation_vkey_hash = some 2;
  checkpointed_l1_block_number = some 500;
  checkpointed_l1_block_hash = some 50;
  prover_address = some 7;
}

abbrev pub agg_world : World
agg_world = record world { db = record db { requests = complete_agg ∷ db.requests; next_id = 7 } }

-- Two range proofs whose L1 heads are the headers 100 and 101.
abbrev pub inputs : AggregationInputs
inputs = record {
  boot_infos = boot 100 10 15 ∷ boot 101 15 20 ∷ [];
  latest_l1_checkpoint_head = 102;
  multi_block_vkey = 1 ∷ [];
  prover_address = 7;
}

abbrev pub outputs : AggregationOutputs
outputs = record {
  l1_head = 102;
  l2_pre_root = 10;
  l2_post_root = 20;
  l2_block_number = 20;
  rollup_config_hash = 3;
  multi_block_vkey = 1;
  prover_address = 7;
}

-- A header is a pair of its hash and its parent's.
abbrev pub headers : List (ℕ × ℕ)
headers = (100, 99) ∷ (101, 100) ∷ (102, 101) ∷ []
