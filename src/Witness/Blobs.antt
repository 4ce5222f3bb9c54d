-- ===== src/Witness/Blobs.antt =====
-- The blobs of a witness, from their collection to their reads: utils/host/src/witness_generation/online_blob_store.rs
-- and utils/client/src/oracle/blob_provider.rs.
use mathlib.Core.List.{reverse, reverse-cons, map-append}
use mina_evm_l.Prelude.{
  ℕ, ◌≡◌, refl, sym, ap, ◌∙◌, Bool, true, some, List, [], ◌∷◌, ◌++◌, map, ◌==◌, arith,
}
use mina_evm_l.Request.{B256, Bytes}
use mina_evm_l.World.{Outcome, ok}
use mina_evm_l.Witness.{
  PreimageKey, byte_count, Hashes, Online, BlobData, zip, pop, keep_if, get_blobs, push_blobs,
}

-- One blob for each hash, in order.
abbrev pub Matches : (hashes : Hashes) → List B256 → List hashes.Blob → Type 0
Matches hashes [] [] = Unit
Matches hashes (h ∷ hs) (b ∷ bs) =
    (h ≡ hashes.versioned_hash (hashes.blob_commitment b)) × Matches hashes hs bs
Matches hashes [] (b ∷ bs) = ⊥
Matches hashes (h ∷ hs) [] = ⊥

-- What the oracle, the blob provider and the KZG library promise: a value read into a buffer fills it, a blob
-- is there for each hash, and the proofs that are made for blobs verify.
pub record IsServed (hashes : Hashes) (online : Online hashes) : Type 0 where
  pub fills :
      (key : PreimageKey) (length : ℕ) (value : Bytes)
      → online.oracle_get_exact key length ≡ some value
      → byte_count value ≡ length
  pub provides :
      (blob_hashes : List B256) (blobs : List hashes.Blob)
      → online.provider_get_blobs blob_hashes ≡ some blobs
      → Matches hashes blob_hashes blobs
  pub verifies :
      (blobs : List hashes.Blob)
      → hashes.verify_batch blobs (map hashes.blob_commitment blobs) (map hashes.blob_proof blobs)
        ≡ some true

module _ (hashes : Hashes) where
  -- The blob data that is made of blobs, and the entries of the blob store.
  abbrev pub data_of : List hashes.Blob → BlobData hashes
  data_of blobs = record {
    blobs = blobs;
    commitments = map hashes.blob_commitment blobs;
    proofs = map hashes.blob_proof blobs;
  }

  abbrev pub entries : List hashes.Blob → List (B256 × hashes.Blob)
  entries [] = []
  entries (b ∷ bs) = (hashes.versioned_hash (hashes.blob_commitment b), b) ∷ entries bs

  pub zip-entries :
      (blobs : List hashes.Blob)
      → zip hashes (map hashes.versioned_hash (map hashes.blob_commitment blobs)) blobs
        ≡ entries blobs
  zip-entries [] = refl
  zip-entries (b ∷ blobs) = rw (zip-entries blobs) refl

  entries-append : (xs ys : List hashes.Blob) → entries (xs ++ ys) ≡ entries xs ++ entries ys
  entries-append [] ys = refl
  entries-append (x ∷ xs) ys = rw (entries-append xs ys) refl

  pub push_blobs-data_of :
      (xs ys : List hashes.Blob) → push_blobs hashes (data_of xs) ys ≡ data_of (xs ++ ys)
  unfolding push_blobs
  push_blobs-data_of xs ys = λ i. record {
    blobs = xs ++ ys;
    commitments = sym (map-append hashes.blob_commitment xs ys) i;
    proofs = sym (map-append hashes.blob_proof xs ys) i;
  }

  pop-last : {A : Type 0} (xs : List A) (x : A) → pop hashes (xs ++ x ∷ []) ≡ some (x, xs)
  pop-last [] x = refl
  pop-last (y ∷ []) x = refl
  pop-last (y ∷ z ∷ xs) x = rw (pop-last (z ∷ xs) x) refl

  pop-reverse :
      {A : Type 0} (x : A) (xs : List A) → pop hashes (reverse (x ∷ xs)) ≡ some (x, reverse xs)
  pop-reverse x xs = ap (pop hashes) (reverse-cons x xs) ∙ pop-last (reverse xs) x

  abbrev located :
      List hashes.Blob
      → List (B256 × hashes.Blob)
      → Outcome (List hashes.Blob × List (B256 × hashes.Blob))
  located found left = ok (found, left)

  get_blobs-next :
      (hash blob_hash : B256) (blob : hashes.Blob) (hs : List B256)
      (blobs rest : List (B256 × hashes.Blob)) (found : List hashes.Blob)
      (left : List (B256 × hashes.Blob))
      → pop hashes blobs ≡ some ((blob_hash, blob), rest)
      → get_blobs hashes hs rest ≡ ok (found, left)
      → get_blobs hashes (hash ∷ hs) blobs
        ≡ ok (keep_if hashes (hash == blob_hash) blob found, left)
  unfolding get_blobs
  get_blobs-next hash blob_hash blob hs blobs rest found left e e' = rw (e, get_blobs) (rw e' refl)

  -- The blobs are read in the order in which they were collected.
  pub get_blobs-entries :
      (blob_hashes : List B256) (blobs rest : List hashes.Blob)
      → Matches hashes blob_hashes blobs
      → get_blobs hashes blob_hashes (reverse (entries (blobs ++ rest)))
        ≡ ok (blobs, reverse (entries rest))
  unfolding get_blobs
  get_blobs-entries [] [] rest h = refl
  get_blobs-entries [] (b ∷ bs) rest h = absurd h
  get_blobs-entries (hash ∷ hs) [] rest h = absurd h
  get_blobs-entries (hash ∷ hs) (b ∷ bs) rest (e, h) =
      get_blobs-next hash (hashes.versioned_hash (hashes.blob_commitment b)) b hs
        (reverse (entries (b ∷ (bs ++ rest)))) (reverse (entries (bs ++ rest))) bs
        (reverse (entries rest))
        (pop-reverse (hashes.versioned_hash (hashes.blob_commitment b), b) (entries (bs ++ rest)))
        (get_blobs-entries hs bs rest h)
      ∙ kept (hash == hashes.versioned_hash (hashes.blob_commitment b)) (equal hash _ e)
    where
      equal : (m n : ℕ) → m ≡ n → (m == n) ≡ true
      equal m n e = ground arith

      kept :
          (t : Bool)
          → t ≡ true
          → located (keep_if hashes t b bs) (reverse (entries rest))
            ≡ located (b ∷ bs) (reverse (entries rest))
      kept t e = rw e refl
