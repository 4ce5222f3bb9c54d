-- ===== src/Request.antt =====
-- Proof requests: validity/src/db/types.rs, and the configuration that they are matched with
-- (validity/src/config.rs, validity/src/types.rs).
pub mod Codes
pub mod Totals
use Prim.Native.String.{String}
use mina_evm_l.Prelude.{
  ℕ, zero, suc, ◌+◌, ◌^◌, Bool, ◌&&◌, Option, none, some, List, [], ◌∷◌, ◌==◌, ltb, if◌then◌else◌,
}
use mathlib.Core.Option

-- A B256 or an Address is the number that its bytes spell; `to_vec` and `from_slice` keep it.
abbrev pub B256 : Type 0
B256 = ℕ

abbrev pub Address : Type 0
Address = ℕ

abbrev pub Bytes : Type 0
Bytes = List ℕ

pub data RequestStatus : Type 0 where
  unrequested witness_generation execution prove complete relayed failed cancelled : RequestStatus

-- `status as i16`.
abbrev pub status_code : RequestStatus → ℕ
status_code unrequested = 0
status_code witness_generation = 1
status_code execution = 2
status_code prove = 3
status_code complete = 4
status_code relayed = 5
status_code failed = 6
status_code cancelled = 7

-- `From<i16>`; `none` is the panic.
pub status_of_code : ℕ → Option RequestStatus
status_of_code zero = some unrequested
status_of_code (suc zero) = some witness_generation
status_of_code (suc (suc zero)) = some execution
status_of_code (suc (suc (suc zero))) = some prove
status_of_code (suc (suc (suc (suc zero)))) = some complete
status_of_code (suc (suc (suc (suc (suc zero))))) = some relayed
status_of_code (suc (suc (suc (suc (suc (suc zero)))))) = some failed
status_of_code (suc (suc (suc (suc (suc (suc (suc zero))))))) = some cancelled
status_of_code _ = none

pub data RequestType : Type 0 where
  range aggregation : RequestType

abbrev pub type_code : RequestType → ℕ
type_code range = 0
type_code aggregation = 1

pub type_of_code : ℕ → Option RequestType
type_of_code zero = some range
type_of_code (suc zero) = some aggregation
type_of_code _ = none

pub data RequestMode : Type 0 where
  real mock : RequestMode

pub mode_code : RequestMode → ℕ
mode_code real = 0
mode_code mock = 1

pub mode_of_code : ℕ → Option RequestMode
mode_of_code zero = some real
mode_of_code (suc zero) = some mock
mode_of_code _ = none

-- The columns hold the codes, so the queries compare codes.
abbrev pub is_status : RequestStatus → RequestStatus → Bool
is_status s t = status_code s == status_code t

abbrev pub is_type : RequestType → RequestType → Bool
is_type s t = type_code s == type_code t

-- The report of an execution, as the prover's library gives it.
pub record ExecutionReport : Type 0 where
  pub total_instruction_count : ℕ
  pub gas : Option ℕ
  pub cycle_tracker : String → Option ℕ

pub record RequestExecutionStatistics : Type 0 where
  pub total_instruction_cycles : ℕ
  pub total_sp1_gas : ℕ
  pub block_execution_cycles : ℕ
  pub oracle_verify_cycles : ℕ
  pub derivation_cycles : ℕ
  pub blob_verification_cycles : ℕ
  pub bn_add_cycles : ℕ
  pub bn_mul_cycles : ℕ
  pub bn_pair_cycles : ℕ
  pub kzg_eval_cycles : ℕ
  pub ec_recover_cycles : ℕ
  pub p256_verify_cycles : ℕ

abbrev pub unwrap_or_zero : Option ℕ → ℕ
unwrap_or_zero none = 0
unwrap_or_zero (some n) = n

pub new_statistics : ExecutionReport → RequestExecutionStatistics
new_statistics report =
    let get_cycles = λ (key : String). unwrap_or_zero (report.cycle_tracker key) in
    record {
      total_instruction_cycles = report.total_instruction_count;
      total_sp1_gas = unwrap_or_zero report.gas;
      block_execution_cycles = get_cycles "block-execution";
      oracle_verify_cycles = get_cycles "oracle-verify";
      derivation_cycles = get_cycles "payload-derivation";
      blob_verification_cycles = get_cycles "blob-verification";
      bn_add_cycles = get_cycles "precompile-bn-add";
      bn_mul_cycles = get_cycles "precompile-bn-mul";
      bn_pair_cycles = get_cycles "precompile-bn-pair";
      kzg_eval_cycles = get_cycles "precompile-kzg-eval";
      ec_recover_cycles = get_cycles "precompile-ec-recover";
      p256_verify_cycles = get_cycles "precompile-p256-verify";
    }

-- `OPSuccinctRequest`. Times are in seconds. `execution_statistics` is `none` for JSON's null. The
-- 64-bit totals are kept as unsigned words.
pub record Request : Type 0 where
  pub id : ℕ
  pub status : RequestStatus
  pub req_type : RequestType
  pub mode : RequestMode
  pub start_block : ℕ
  pub end_block : ℕ
  pub created_at : ℕ
  pub updated_at : ℕ
  pub proof_request_id : Option B256
  pub proof_request_time : Option ℕ
  pub checkpointed_l1_block_number : Option ℕ
  pub checkpointed_l1_block_hash : Option B256
  pub execution_statistics : Option RequestExecutionStatistics
  pub witnessgen_duration : Option ℕ
  pub execution_duration : Option ℕ
  pub prove_duration : Option ℕ
  pub range_vkey_commitment : B256
  pub aggregation_vkey_hash : Option B256
  pub rollup_config_hash : B256
  pub relay_tx_hash : Option B256
  pub proof : Option Bytes
  pub total_nb_transactions : ℕ
  pub total_eth_gas_used : ℕ
  pub total_l1_fees : ℕ
  pub total_tx_fees : ℕ
  pub l1_chain_id : ℕ
  pub l2_chain_id : ℕ
  pub contract_address : Option Address
  pub prover_address : Option Address
  pub l1_head_block_number : Option ℕ

-- The derived `Default`.
abbrev pub default_request : Request
default_request = record {
  id = 0;
  status = unrequested;
  req_type = range;
  mode = real;
  start_block = 0;
  end_block = 0;
  created_at = 0;
  updated_at = 0;
  proof_request_id = none;
  proof_request_time = none;
  checkpointed_l1_block_number = none;
  checkpointed_l1_block_hash = none;
  execution_statistics = none;
  witnessgen_duration = none;
  execution_duration = none;
  prove_duration = none;
  range_vkey_commitment = 0;
  aggregation_vkey_hash = none;
  rollup_config_hash = 0;
  relay_tx_hash = none;
  proof = none;
  total_nb_transactions = 0;
  total_eth_gas_used = 0;
  total_l1_fees = 0;
  total_tx_fees = 0;
  l1_chain_id = 0;
  l2_chain_id = 0;
  contract_address = none;
  prover_address = none;
  l1_head_block_number = none;
}

-- What the fetcher reports of one L2 block.
pub record BlockInfo : Type 0 where
  pub block_number : ℕ
  pub transaction_count : ℕ
  pub gas_used : ℕ
  pub total_l1_fees : ℕ
  pub total_tx_fees : ℕ

-- `a + b` in a word of the given modulus; `none` is an overflow.
abbrev pub add_word : ℕ → ℕ → ℕ → Option ℕ
add_word modulus a b = if ltb (a + b) modulus then some (a + b) else none

-- `.iter().map(field).sum()` in a word of the given modulus. The order of the additions is
-- of no account: some partial sum overflows exactly if the whole sum does.
pub sum_word : ℕ → (BlockInfo → ℕ) → List BlockInfo → Option ℕ
sum_word modulus field [] = some 0
sum_word modulus field (b ∷ blocks) = elim (sum_word modulus field blocks) [
  | some rest ↦ add_word modulus (field b) rest
  | none ↦ none
]

-- The four sums that `new_range_request` stores.
pub record BlockTotals : Type 0 where
  pub nb_transactions : ℕ
  pub eth_gas_used : ℕ
  pub l1_fees : ℕ
  pub tx_fees : ℕ

infixl 5 ◌>>=◌
abbrev ◌>>=◌ : {A B : Type 0} → Option A → (A → Option B) → Option B
none >>= f = none
some a >>= f = f a

pub block_totals : List BlockInfo → Option BlockTotals
block_totals block_data = do
  nb_transactions ← sum_word (2 ^ 64) (λ b. b.transaction_count) block_data
  eth_gas_used ← sum_word (2 ^ 64) (λ b. b.gas_used) block_data
  l1_fees ← sum_word (2 ^ 128) (λ b. b.total_l1_fees) block_data
  tx_fees ← sum_word (2 ^ 128) (λ b. b.total_tx_fees) block_data
  some (record {
    nb_transactions = nb_transactions;
    eth_gas_used = eth_gas_used;
    l1_fees = l1_fees;
    tx_fees = tx_fees;
  })

-- `now` is the local time that the constructor reads. `none`: a sum overflows, and a debug build panics.
pub new_range_request :
    RequestMode → ℕ → ℕ → B256 → B256 → List BlockInfo → ℕ → ℕ → ℕ → Option Request
new_range_request mode start end range_vkey rollup_config block_data l1_chain l2_chain now =
    Option.map
      (λ totals. record default_request {
        mode = mode;
        start_block = start;
        end_block = end;
        created_at = now;
        updated_at = now;
        range_vkey_commitment = range_vkey;
        rollup_config_hash = rollup_config;
        total_nb_transactions = totals.nb_transactions;
        total_eth_gas_used = totals.eth_gas_used;
        total_l1_fees = totals.l1_fees;
        total_tx_fees = totals.tx_fees;
        l1_chain_id = l1_chain;
        l2_chain_id = l2_chain;
      })
      (block_totals block_data)

unfoldable pub new_agg_request :
    RequestMode → ℕ → ℕ → B256 → B256 → B256 → ℕ → ℕ → ℕ → B256 → Address → ℕ → Request
new_agg_request mode start end range_vkey agg_vkey rollup_config l1_chain l2_chain l1_number l1_hash
      prover now =
    record default_request {
      req_type = aggregation;
      mode = mode;
      start_block = start;
      end_block = end;
      created_at = now;
      updated_at = now;
      checkpointed_l1_block_number = some l1_number;
      checkpointed_l1_block_hash = some l1_hash;
      range_vkey_commitment = range_vkey;
      aggregation_vkey_hash = some agg_vkey;
      rollup_config_hash = rollup_config;
      l1_chain_id = l1_chain;
      l2_chain_id = l2_chain;
      prover_address = some prover;
    }

pub record CommitmentConfig : Type 0 where
  pub range_vkey_commitment : B256
  pub agg_vkey_hash : B256
  pub rollup_config_hash : B256

-- `RequesterConfig`, the fields that the proposer reads, and `loop_interval` of `DriverConfig`.
pub record Config : Type 0 where
  pub l1_chain_id : ℕ
  pub l2_chain_id : ℕ
  pub prover_address : Address
  pub l2oo_address : Address
  pub dgf_address : Address
  pub range_proof_interval : ℕ
  pub submission_interval : ℕ
  pub max_concurrent_witness_gen : ℕ
  pub max_concurrent_proof_requests : ℕ
  pub op_succinct_config_name_hash : B256
  pub mock : Bool
  pub safe_db_fallback : Bool
  pub use_local_proving : Bool
  pub loop_interval : ℕ
  pub commitments : CommitmentConfig
