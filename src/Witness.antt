-- ===== src/Witness.antt =====
-- The witness of a range proof: how the host collects it, utils/host/src/witness_generation, and how the
-- program reads it, utils/client/src/witness and utils/client/src/oracle/blob_provider.rs.
pub mod Stored
pub mod Blobs
pub mod Replayed
pub mod Sound
use mina_evm_l.Prelude.{
  ℕ, zero, suc, Bool, true, false, ◌&&◌, Option, none, some, List, [], ◌∷◌, ◌++◌, map, ◌==◌,
  if◌then◌else◌,
}
use mathlib.Core.List.{reverse}
use mina_evm_l.Request.{B256, Bytes}
use mina_evm_l.World.{Outcome, ok, err, panic, rpc_error}
use mina_evm_l.Fetcher.{◌>>=◌, or_err}

pub data PreimageKeyType : Type 0 where
  local_key keccak256_key global_generic sha256_key blob_key precompile_key : PreimageKeyType

-- A key has its type and the bytes of the hash after the first.
pub record PreimageKey : Type 0 where
  pub key_type : PreimageKeyType
  pub key_data : ℕ

abbrev pub type_number : PreimageKeyType → ℕ
type_number local_key = 1
type_number keccak256_key = 2
type_number global_generic = 3
type_number sha256_key = 4
type_number blob_key = 5
type_number precompile_key = 6

abbrev pub same_key : PreimageKey → PreimageKey → Bool
same_key k l = type_number k.key_type == type_number l.key_type && k.key_data == l.key_data

abbrev pub same_bytes : Bytes → Bytes → Bool
same_bytes [] [] = true
same_bytes (x ∷ xs) (y ∷ ys) = x == y && same_bytes xs ys
same_bytes _ _ = false

abbrev pub byte_count : Bytes → ℕ
byte_count [] = 0
byte_count (b ∷ bytes) = suc (byte_count bytes)

-- `preimage_map`, with one entry for each key.
abbrev pub PreimageStore : Type 0
PreimageStore = List (PreimageKey × Bytes)

pub lookup : PreimageKey → PreimageStore → Option Bytes
lookup key [] = none
lookup key ((k, value) ∷ store) =
    let rest = lookup key store in if same_key k key then some value else rest

pub insert : PreimageKey → Bytes → PreimageStore → PreimageStore
insert key value [] = (key, value) ∷ []
insert key value ((k, v) ∷ store) =
    let rest = insert key value store in
    if same_key k key then (k, value) ∷ store else (k, v) ∷ rest

-- A read of a preimage: the value, or the value into a buffer of a length.
unfoldable pub get : PreimageStore → PreimageKey → Outcome Bytes
unfolding lookup
get store key = or_err (lookup key store)

unfoldable pub get_exact : PreimageStore → PreimageKey → ℕ → Outcome Bytes
unfolding get
get_exact store key length =
    get store key >>= λ value. if byte_count value == length then ok value else panic

-- The hashes, the part of a hash that a key has, and the KZG library are not here.
pub record Hashes : Type 1 where
  pub keccak256 : Bytes → B256
  pub sha256 : Bytes → B256
  pub low_bytes : B256 → ℕ
  pub Blob : Type 0
  pub Commitment : Type 0
  pub BlobProof : Type 0
  pub versioned_hash : Commitment → B256
  pub blob_commitment : Blob → Commitment
  pub blob_proof : Blob → BlobProof
  -- An error is `none`; otherwise whether the proofs are right.
  pub verify_batch : List Blob → List Commitment → List BlobProof → Option Bool

-- What the host reads from, in the run that collects the witness.
pub record Online (hashes : Hashes) : Type 0 where
  pub oracle_get : PreimageKey → Option Bytes
  pub oracle_get_exact : PreimageKey → ℕ → Option Bytes
  pub provider_get_blobs : List B256 → Option (List hashes.Blob)

-- A program as what it reads and what it does with each answer. Derivation and execution are such a program.
pub data Program (hashes : Hashes) (A : Type 0) : Type 0 where
  done : A → Program hashes A
  reads : PreimageKey → (Bytes → Program hashes A) → Program hashes A
  reads_exact : PreimageKey → ℕ → (Bytes → Program hashes A) → Program hashes A
  reads_blobs : List B256 → (List hashes.Blob → Program hashes A) → Program hashes A

module _ (hashes : Hashes) where
  pub record BlobData : Type 0 where
    pub blobs : List hashes.Blob
    pub commitments : List hashes.Commitment
    pub proofs : List hashes.BlobProof

  pub check_preimage : PreimageKey → Bytes → Outcome (Unit {0})
  check_preimage key value = elim key.key_type [
    | keccak256_key ↦
        if key.key_data == hashes.low_bytes (hashes.keccak256 value) then ok tt else err rpc_error
    | sha256_key ↦
        if key.key_data == hashes.low_bytes (hashes.sha256 value) then ok tt else err rpc_error
    | local_key ↦ ok tt
    | global_generic ↦ ok tt
    | precompile_key ↦ panic
    | blob_key ↦ panic
  ]

  unfoldable pub check_preimages : PreimageStore → Outcome (Unit {0})
  unfolding check_preimage
  check_preimages [] = ok tt
  check_preimages ((key, value) ∷ store) = check_preimage key value >>= λ u. check_preimages store

  -- An invalid preimage, or another value for a key, is a panic.
  abbrev pub overwrites : Option Bytes → Bytes → Bool
  overwrites none value = false
  overwrites (some old) value = if same_bytes old value then false else true

  abbrev pub expect : {A B : Type 0} → Outcome A → (A → Outcome B) → Outcome B
  expect (ok a) f = f a
  expect (err e) f = panic
  expect panic f = panic

  pub save_preimage : PreimageKey → Bytes → PreimageStore → Outcome PreimageStore
  unfolding check_preimage lookup insert
  save_preimage key value store =
      expect (check_preimage key value)
        (λ u. if overwrites (lookup key store) value then panic else ok (insert key value store))

  abbrev pub zip : List B256 → List hashes.Blob → List (B256 × hashes.Blob)
  zip (h ∷ hs) (b ∷ bs) = (h, b) ∷ zip hs bs
  zip _ _ = []

  -- `BlobStore::from`, which panics if the batch of proofs gives an error, and drops the verdict in an answer.
  -- The last blob is the first to be read.
  pub blob_store : BlobData → Outcome (List (B256 × hashes.Blob))
  blob_store value = elim (hashes.verify_batch value.blobs value.commitments value.proofs) [
    | none ↦ panic
    | some verdict ↦ ok (reverse (zip (map hashes.versioned_hash value.commitments) value.blobs))
  ]

  -- `pop` of a vector.
  abbrev pub pop : {A : Type 0} → List A → Option (A × List A)
  pop [] = none
  pop (x ∷ []) = some (x, [])
  pop (x ∷ y ∷ xs) = elim (pop (y ∷ xs)) [ none ↦ none | some (z, zs) ↦ some (z, x ∷ zs) ]

  abbrev pub keep_if : Bool → hashes.Blob → List hashes.Blob → List hashes.Blob
  keep_if true blob blobs = blob ∷ blobs
  keep_if false blob blobs = blobs

  -- `get_blobs` of the blob store: the next blob is left out if it is not of the hash.
  pub get_blobs :
      List B256 → List (B256 × hashes.Blob) → Outcome (List hashes.Blob × List (B256 × hashes.Blob))
  get_blobs [] blobs = ok ([], blobs)
  get_blobs (hash ∷ blob_hashes) blobs = elim (pop blobs) [
    | none ↦ panic
    | some ((blob_hash, blob), rest) ↦ get_blobs blob_hashes rest >>= λ (found, left).
        ok (keep_if (hash == blob_hash) blob found, left)
  ]

  -- The program on a witness that was read in.
  pub replay :
      {A : Type 0} → PreimageStore → List (B256 × hashes.Blob) → Program hashes A → Outcome A
  unfolding get get_exact get_blobs
  replay store blobs (done a) = ok a
  replay store blobs (reads key k) = get store key >>= λ value. replay store blobs (k value)
  replay store blobs (reads_exact key length k) =
      get_exact store key length >>= λ value. replay store blobs (k value)
  replay store blobs (reads_blobs blob_hashes k) =
      get_blobs blob_hashes blobs >>= λ (found, left). replay store left (k found)

  -- `get_oracle_and_blob_provider`, and the program on what it gives.
  pub run_witness : {A : Type 0} → PreimageStore → BlobData → Program hashes A → Outcome A
  unfolding check_preimages blob_store replay
  run_witness store value program =
      expect (check_preimages store) (λ u. blob_store value >>= λ blobs. replay store blobs program)

  -- The blobs are pushed with their commitments and proofs.
  pub push_blobs : BlobData → List hashes.Blob → BlobData
  push_blobs value blobs = record {
    blobs = value.blobs ++ blobs;
    commitments = value.commitments ++ map hashes.blob_commitment blobs;
    proofs = value.proofs ++ map hashes.blob_proof blobs;
  }

  module _ (online : Online hashes) where
    -- The run of the host, which saves what the program reads; with the witness so far.
    unfoldable pub collect :
        {A : Type 0}
        → PreimageStore
        → BlobData
        → Program hashes A
        → Outcome (A × PreimageStore × BlobData)
    unfolding save_preimage push_blobs
    collect store value (done a) = ok (a, store, value)
    collect store value (reads key k) = or_err (online.oracle_get key) >>= λ bytes.
        save_preimage key bytes store >>= λ store'. collect store' value (k bytes)
    collect store value (reads_exact key length k) =
        or_err (online.oracle_get_exact key length) >>= λ bytes.
        save_preimage key bytes store >>= λ store'. collect store' value (k bytes)
    collect store value (reads_blobs blob_hashes k) =
        or_err (online.provider_get_blobs blob_hashes) >>= λ blobs.
        collect store (push_blobs value blobs) (k blobs)

    -- `WitnessGenerator::run`, from an empty witness. An error is unwrapped.
    unfoldable pub generate :
        {A : Type 0} → Program hashes A → Outcome (A × PreimageStore × BlobData)
    unfolding collect
    generate program =
        expect (collect [] (record { blobs = []; commitments = []; proofs = [] }) program)
          (λ run. ok run)
