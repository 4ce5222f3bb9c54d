-- ===== src/Examples/Witnesses.antt =====
-- Instances of the properties of the witness of a range proof: a program that reads two preimages and a blob.
use mathlib.Core.Path.{subst}
use mina_evm_l.Prelude.{
  ℕ, ◌+◌, ◌≡◌, refl, sym, ap, ◌∙◌, inl, inr, Bool-cases, Bool, true, false, Option, none, some,
  List, [], ◌∷◌, ◌==◌, if◌then◌else◌, arith,
}
use mina_evm_l.Request.{B256, Bytes}
use mina_evm_l.World.{ok}
use mina_evm_l.Witness.{
  PreimageKey, local_key, keccak256_key, byte_count, PreimageStore, get, get_exact, Hashes, Online,
  Program, done, reads, reads_exact, reads_blobs, BlobData, check_preimages, generate, run_witness,
}
use mina_evm_l.Witness.Replayed.{generate-run_witness}
use mina_evm_l.Witness.Blobs.{IsServed, Matches}
use mina_evm_l.Witness.Sound.{IsPreimage, get-IsPreimage}

abbrev sum : Bytes → ℕ
sum [] = 0
sum (b ∷ bytes) = b + sum bytes

-- The hash of bytes is their sum and a number for the hash function.
abbrev hashes : Hashes
hashes = record {
  keccak256 = λ value. sum value + 100;
  sha256 = λ value. sum value + 200;
  low_bytes = λ hash. hash;
  Blob = ℕ;
  Commitment = ℕ;
  BlobProof = ℕ;
  versioned_hash = λ commitment. commitment + 1;
  blob_commitment = λ blob. blob;
  blob_proof = λ blob. blob;
  verify_batch = λ blobs commitments proofs. some true;
}

-- The blob with hash 6 is 5, and there are no others.
abbrev blobs_of : List B256 → Option (List ℕ)
blobs_of [] = some []
blobs_of (hash ∷ blob_hashes) = elim (blobs_of blob_hashes) [
  | none ↦ none
  | some blobs ↦ if hash == 6 then some (5 ∷ blobs) else none
]

abbrev online : Online hashes
online = record {
  oracle_get = λ key. some (3 ∷ 4 ∷ []);
  oracle_get_exact = λ key length. if length == 2 then some (3 ∷ 4 ∷ []) else none;
  provider_get_blobs = blobs_of;
}

abbrev bytes : Bytes
bytes = 3 ∷ 4 ∷ []

abbrev key : PreimageKey
key = record { key_type = keccak256_key; key_data = 107 }

abbrev chain_key : PreimageKey
chain_key = record { key_type = local_key; key_data = 1 }

-- It reads a value, the same one into a buffer, and a blob, and adds up what it read.
abbrev program : Program hashes ℕ
program =
    reads chain_key (λ v.
      reads_exact key 2 (λ w. reads_blobs (6 ∷ []) (λ blobs. done (sum v + sum w + sum blobs))))

abbrev store : PreimageStore
store = (chain_key, 3 ∷ 4 ∷ []) ∷ (key, 3 ∷ 4 ∷ []) ∷ []

abbrev value : BlobData hashes
value = record { blobs = 5 ∷ []; commitments = 5 ∷ []; proofs = 5 ∷ [] }

blobs_of-Matches :
    (blob_hashes : List B256) (blobs : List ℕ)
    → blobs_of blob_hashes ≡ some blobs
    → Matches hashes blob_hashes blobs
blobs_of-Matches [] [] e = tt
blobs_of-Matches [] (b ∷ bs) e = absurd cc
blobs_of-Matches (h ∷ hs) blobs e = go (blobs_of hs) (blobs_of-Matches hs) blobs e
  where
    taken :
        (t : Bool) (found : List ℕ)
        → t ≡ true
        → (if t then some (5 ∷ found) else none) ≡ some (5 ∷ found)
    taken t found is = rw is refl

    kept : (found blobs : List ℕ) → some (5 ∷ found) ≡ some blobs → 5 ∷ found ≡ blobs
    kept found blobs e = cc

    missing :
        (t : Bool) (found blobs : List ℕ)
        → t ≡ false
        → (if t then some (5 ∷ found) else none) ≡ some blobs
        → ⊥
    missing t found blobs other e = absurd cc

    go :
        (o : Option (List ℕ))
        → ((bs : List ℕ) → o ≡ some bs → Matches hashes hs bs)
        → (blobs : List ℕ)
        → elim o [ none ↦ none | some found ↦ if h == 6 then some (5 ∷ found) else none ]
          ≡ some blobs
        → Matches hashes (h ∷ hs) blobs
    go none k blobs e = absurd cc
    go (some found) k blobs e = elim (Bool-cases (h == 6)) [
      | inl is ↦
          subst (Matches hashes (h ∷ hs)) (kept found blobs (sym (taken (h == 6) found is) ∙ e))
            (ground (arith, is), k found refl)
      | inr other ↦ absurd (missing (h == 6) found blobs other e)
    ]

filling :
    (t : Bool) (length : ℕ) (v : Bytes)
    → (t ≡ true → length ≡ 2)
    → (if t then some (3 ∷ 4 ∷ []) else none) ≡ some v
    → byte_count v ≡ length
filling true length v two e = ap byte_count (sym (same (3 ∷ 4 ∷ []) v e)) ∙ sym (two refl)
  where
    same : (v w : Bytes) → some v ≡ some w → v ≡ w
    same v w e = cc
filling false length v two e = absurd cc

online-IsServed : IsServed hashes online
online-IsServed = record {
  fills = λ k length v e. filling (length == 2) length v (λ t. ground (arith, t)) e;
  provides = blobs_of-Matches;
  verifies = λ blobs. refl;
}

generated : generate hashes online program ≡ ok (19, store, value)
unfolding generate
generated = refl

generate-run_witness_example : run_witness hashes store value program ≡ ok 19
generate-run_witness_example =
    generate-run_witness hashes online program 19 store value online-IsServed generated

checked : check_preimages hashes store ≡ ok tt
unfolding check_preimages
checked = refl

found : get store key ≡ ok (3 ∷ 4 ∷ [])
unfolding get
found = refl

filled : get_exact store key 2 ≡ ok (3 ∷ 4 ∷ [])
unfolding get_exact
filled = refl

get-IsPreimage_example : IsPreimage hashes key bytes × (bytes ≡ bytes) × (byte_count bytes ≡ 2)
get-IsPreimage_example = get-IsPreimage hashes store key 2 bytes bytes checked found filled
