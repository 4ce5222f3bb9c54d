-- ===== src/Aggregation.antt =====
-- The program that aggregates range proofs, programs/aggregation/src/main.rs, with its types in
-- utils/client/src/types.rs and utils/client/src/boot.rs. `none` is a panic, which leaves no proof.
pub mod Heads
pub mod Accepts
pub mod Words
use mina_evm_l.Prelude.{
  ℕ, ◌+◌, ◌*◌, ◌/◌, ◌%◌, ◌^◌, Bool, true, false, ◌&&◌, ◌||◌, not, Option, none, some, List, [], ◌∷◌,
  ◌++◌, map, ◌==◌, if◌then◌else◌,
}
use mina_evm_l.Request.{B256, Address, Bytes}

-- `BootInfoStruct`, what a range proof proves.
pub record BootInfo : Type 0 where
  pub l1_head : B256
  pub l2_pre_root : B256
  pub l2_post_root : B256
  pub l2_block_number : ℕ
  pub rollup_config_hash : B256

pub record AggregationInputs : Type 0 where
  pub boot_infos : List BootInfo
  pub latest_l1_checkpoint_head : B256
  pub multi_block_vkey : List ℕ
  pub prover_address : Address

pub record AggregationOutputs : Type 0 where
  pub l1_head : B256
  pub l2_pre_root : B256
  pub l2_post_root : B256
  pub l2_block_number : ℕ
  pub rollup_config_hash : B256
  pub multi_block_vkey : B256
  pub prover_address : Address

-- `u32::to_be_bytes`.
abbrev pub to_be_bytes : ℕ → Bytes
to_be_bytes value =
    value / 2 ^ 24 % 256 ∷ value / 2 ^ 16 % 256 ∷ value / 2 ^ 8 % 256 ∷ value % 256 ∷ []

unfoldable pub u32_to_u8 : List ℕ → Bytes
u32_to_u8 [] = []
u32_to_u8 (value ∷ input) = to_be_bytes value ++ u32_to_u8 input

-- The number that bytes spell after the number `high`; a B256 is the one of its bytes.
unfoldable pub spelled : ℕ → Bytes → ℕ
spelled high [] = high
spelled high (byte ∷ bytes) = spelled (high * 256 + byte) bytes

abbrev pub last_boot : BootInfo → List BootInfo → BootInfo
last_boot b [] = b
last_boot b (c ∷ boot_infos) = last_boot c boot_infos

-- The two assertions on `windows(2)`.
pub is_sequential : List BootInfo → Bool
is_sequential [] = true
is_sequential (prev ∷ []) = true
is_sequential (prev ∷ boot ∷ boot_infos) =
    prev.l2_post_root == boot.l2_pre_root
    && prev.rollup_config_hash == boot.rollup_config_hash
    && is_sequential (boot ∷ boot_infos)

-- The map from L1 heads to whether they are found; a key that is inserted again keeps its place.
abbrev pub HeadsMap : Type 0
HeadsMap = List (B256 × Bool)

pub insert_head : B256 → HeadsMap → HeadsMap
insert_head key [] = (key, false) ∷ []
insert_head key ((k, found) ∷ entries) =
    let rest = insert_head key entries in
    if k == key then (k, false) ∷ entries else (k, found) ∷ rest

pub l1_heads_map : List BootInfo → HeadsMap
unfolding insert_head
l1_heads_map [] = []
l1_heads_map (b ∷ boot_infos) = insert_head b.l1_head (l1_heads_map boot_infos)

-- `if let Some(found) = l1_heads_map.get_mut(&current_hash) { *found = true; }`
pub mark_found : B256 → HeadsMap → HeadsMap
mark_found hash [] = []
mark_found hash ((k, found) ∷ entries) = (k, found || k == hash) ∷ mark_found hash entries

pub all_found : HeadsMap → Bool
all_found [] = true
all_found ((k, found) ∷ entries) = found && all_found entries

abbrev pub reverse_onto : {A : Type 0} → List A → List A → List A
reverse_onto acc [] = acc
reverse_onto acc (x ∷ xs) = reverse_onto (x ∷ acc) xs

abbrev pub outputs_of : AggregationInputs → BootInfo → List BootInfo → AggregationOutputs
outputs_of inputs first boot_infos =
    let last = last_boot first boot_infos in
    record {
      l1_head = inputs.latest_l1_checkpoint_head;
      l2_pre_root = first.l2_pre_root;
      l2_post_root = last.l2_post_root;
      l2_block_number = last.l2_block_number;
      rollup_config_hash = last.rollup_config_hash;
      multi_block_vkey = spelled 0 (u32_to_u8 inputs.multi_block_vkey);
      prover_address = inputs.prover_address;
    }

abbrev pub finish : AggregationOutputs → Option HeadsMap → Option AggregationOutputs
finish outputs none = none
finish outputs (some heads) = if all_found heads then some outputs else none

-- The headers and the verifier of range proofs are the library's: a header has its hash and its parent's
-- hash, and `verify_sp1_proof` takes the verification key and the digest of a serialised boot info.
module _ {Header : Type 0} (hash_slow parent_hash : Header → B256) (pv_digest : BootInfo → B256)
    (verify_sp1_proof : List ℕ → B256 → Bool) where
  pub all_verified : List ℕ → List BootInfo → Bool
  all_verified vkey [] = true
  all_verified vkey (b ∷ boot_infos) =
      verify_sp1_proof vkey (pv_digest b) && all_verified vkey boot_infos

  -- The loop over the headers, last one first, from the hash that the next must have.
  pub follow : B256 → List Header → HeadsMap → Option HeadsMap
  unfolding mark_found
  follow current_hash [] heads = some heads
  follow current_hash (header ∷ headers) heads =
      let rest = follow (parent_hash header) headers (mark_found current_hash heads) in
      if current_hash == hash_slow header then rest else none

  -- After `assert!(!boot_infos.is_empty())`.
  pub aggregate : AggregationInputs → List BootInfo → List Header → Option AggregationOutputs
  unfolding follow all_verified is_sequential l1_heads_map all_found
  aggregate inputs [] headers = none
  aggregate inputs (first ∷ boot_infos) headers =
      if is_sequential (first ∷ boot_infos)
        && all_verified inputs.multi_block_vkey (first ∷ boot_infos)
      then finish (outputs_of inputs first boot_infos) (
          follow inputs.latest_l1_checkpoint_head (reverse_onto [] headers)
            (l1_heads_map (first ∷ boot_infos)))
      else none

  -- `main`; `none` for the headers is bytes that do not decode.
  unfoldable pub main : AggregationInputs → Option (List Header) → Option AggregationOutputs
  unfolding aggregate
  main inputs none = none
  main inputs (some headers) = aggregate inputs inputs.boot_infos headers
