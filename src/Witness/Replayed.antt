-- ===== src/Witness/Replayed.antt =====
-- The program reads from the witness what the host read when it collected it: utils/host/src/witness_generation
-- and utils/client/src/witness.
use mathlib.Core.Path.{subst}
use mathlib.Core.List.{reverse, append_assoc, append-nil}
use mina_evm_l.Prelude.{
  ℕ, ◌≡◌, refl, sym, ap, ◌∙◌, true, Option, none, some, List, [], ◌++◌, ◌==◌, arith,
}
use mina_evm_l.Request.{B256, Bytes}
use mina_evm_l.World.{Outcome, ok, err, panic}
use mina_evm_l.Fetcher.{or_err, ◌>>=◌}
use mina_evm_l.Witness.{
  expect, PreimageKey, byte_count, PreimageStore, lookup, get, get_exact, Hashes, Online, Program,
  done, reads, reads_exact, reads_blobs, BlobData, check_preimages, save_preimage, blob_store,
  replay, run_witness, collect, generate,
}
use mina_evm_l.Witness.Stored.{Extends, save_preimage-IsSaved}
use mina_evm_l.Witness.Blobs.{
  IsServed, data_of, entries, zip-entries, push_blobs-data_of, get_blobs-entries,
}

-- What a bind that succeeded did.
bind_ok :
    {B C : Type 0} (m : Outcome B) (f : B → Outcome C) (c : C)
    → (m >>= f) ≡ ok c
    → (b : B) × (m ≡ ok b) × (f b ≡ ok c)
bind_ok (ok b) f c h = (b, refl, h)
bind_ok (err e) f c h = absurd cc
bind_ok panic f c h = absurd cc

answer_ok : {B : Type 0} (o : Option B) (b : B) → or_err o ≡ ok b → o ≡ some b
answer_ok none b h = absurd cc
answer_ok (some c) b h = cc

ok_eq : {B : Type 0} (x y : B) → ok x ≡ ok y → x ≡ y
ok_eq x y e = cc

get-found :
    (key : PreimageKey) (value : Bytes) (store : PreimageStore)
    → lookup key store ≡ some value
    → get store key ≡ ok value
unfolding get
get-found key value store e = rw e refl

get_exact-found :
    (key : PreimageKey) (value : Bytes) (length : ℕ) (store : PreimageStore)
    → lookup key store ≡ some value
    → byte_count value ≡ length
    → get_exact store key length ≡ ok value
unfolding get_exact get
get_exact-found key value length store e fills =
    let same : (byte_count value == length) ≡ true = ground (arith, fills) in rw (e, same) refl

module _ (hashes : Hashes) (online : Online hashes) (served : IsServed hashes online)
    {A : Type 0} where
  -- From a witness so far, the rest of the run adds blobs and keeps every preimage, and the program replays
  -- on any store that has them.
  record IsCollected (store : PreimageStore) (blobs : List hashes.Blob) (program : Program hashes A)
      (a : A) (store' : PreimageStore) (value : BlobData hashes) : Type 0 where
    more : List hashes.Blob
    blobs_are : value ≡ data_of hashes (blobs ++ more)
    keeps : Extends store store'
    passes : check_preimages hashes store ≡ ok tt → check_preimages hashes store' ≡ ok tt
    replays :
        (larger : PreimageStore)
        → Extends store' larger
        → replay hashes larger (reverse (entries hashes more)) program ≡ ok a

  collect-IsCollected :
      (program : Program hashes A) (store : PreimageStore) (blobs : List hashes.Blob) (a : A)
      (store' : PreimageStore) (value : BlobData hashes)
      → collect hashes online store (data_of hashes blobs) program ≡ ok (a, store', value)
      → IsCollected store blobs program a store' value
  unfolding collect replay
  collect-IsCollected (done b) store blobs a store' value h =
      subst
        (λ (x : A × PreimageStore × BlobData hashes). IsCollected store blobs (done b) x.0 x.1 x.2)
        (ok_eq (b, store, data_of hashes blobs) (a, store', value) h)
        (record {
          more = [];
          blobs_are = ap (data_of hashes) (sym (append-nil blobs));
          keeps = λ key v e. e;
          passes = λ e. e;
          replays = λ larger ext. refl;
        })
  collect-IsCollected (reads key k) store blobs a store' value h =
      let (bytes, read, h1) = bind_ok (or_err (online.oracle_get key)) _ (a, store', value) h in
      let (saved, is_saved, h2) =
        bind_ok (save_preimage hashes key bytes store) _ (a, store', value) h1 in
      let s = save_preimage-IsSaved hashes key bytes store saved is_saved in
      let c = collect-IsCollected (k bytes) saved blobs a store' value h2 in
      record {
        more = c.more;
        blobs_are = c.blobs_are;
        keeps = λ j v e. c.keeps j v (s.kept j v e);
        passes = λ e. c.passes (s.passes e);
        replays = λ larger ext.
            rw (get-found key bytes larger (ext key bytes (c.keeps key bytes s.there)))
              (c.replays larger ext);
      }
  collect-IsCollected (reads_exact key length k) store blobs a store' value h =
      let (bytes, read, h1) =
        bind_ok (or_err (online.oracle_get_exact key length)) _ (a, store', value) h in
      let (saved, is_saved, h2) =
        bind_ok (save_preimage hashes key bytes store) _ (a, store', value) h1 in
      let s = save_preimage-IsSaved hashes key bytes store saved is_saved in
      let c = collect-IsCollected (k bytes) saved blobs a store' value h2 in
      let filled =
        served.fills key length bytes (answer_ok (online.oracle_get_exact key length) bytes read) in
      record {
        more = c.more;
        blobs_are = c.blobs_are;
        keeps = λ j v e. c.keeps j v (s.kept j v e);
        passes = λ e. c.passes (s.passes e);
        replays = λ larger ext.
            rw
              (get_exact-found key bytes length larger (ext key bytes (c.keeps key bytes s.there))
                filled)
              (c.replays larger ext);
      }
  collect-IsCollected (reads_blobs blob_hashes k) store blobs a store' value h =
      let (new, read, h1) =
        bind_ok (or_err (online.provider_get_blobs blob_hashes)) _ (a, store', value) h in
      let h2 : collect hashes online store (data_of hashes (blobs ++ new)) (k new)
          ≡ ok (a, store', value) =
        ap (λ (d : BlobData hashes). collect hashes online store d (k new))
          (sym (push_blobs-data_of hashes blobs new))
        ∙ h1 in
      let c = collect-IsCollected (k new) store (blobs ++ new) a store' value h2 in
      let matches =
        served.provides blob_hashes new
          (answer_ok (online.provider_get_blobs blob_hashes) new read) in
      record {
        more = new ++ c.more;
        blobs_are = c.blobs_are ∙ ap (data_of hashes) (append_assoc blobs new c.more);
        keeps = c.keeps;
        passes = c.passes;
        replays = λ larger ext.
            rw (get_blobs-entries hashes blob_hashes new c.more matches) (c.replays larger ext);
      }

-- The blobs that were collected pass, the first one to be read last in the list.
blob_store-data_of :
    (hashes : Hashes) (online : Online hashes)
    → IsServed hashes online
    → (blobs : List hashes.Blob)
    → blob_store hashes (data_of hashes blobs) ≡ ok (reverse (entries hashes blobs))
unfolding blob_store
blob_store-data_of hashes online served blobs =
    rw (served.verifies blobs, blob_store)
      (ap (λ (es : List (B256 × hashes.Blob)). ok (reverse es)) (zip-entries hashes blobs))

expect_ok :
    (hashes : Hashes) {B : Type 0} (m : Outcome B) (b : B)
    → expect hashes m (λ x. ok x) ≡ ok b
    → m ≡ ok b
expect_ok hashes (ok c) b h = h
expect_ok hashes (err e) b h = absurd cc
expect_ok hashes panic b h = absurd cc

-- Where the oracle fills its buffers, the provider has a blob for each hash and the proofs that are made for
-- blobs verify: if the run that collects the witness succeeds, for any program, then the program succeeds on
-- the witness with the same result. So the witness passes the checks of its preimages, the batch of its blob
-- proofs gives no error, and every read is answered as it was when the witness was collected.
pub generate-run_witness :
    (hashes : Hashes) (online : Online hashes) {A : Type 0} (program : Program hashes A) (a : A)
    (store : PreimageStore) (value : BlobData hashes)
    → IsServed hashes online
    → generate hashes online program ≡ ok (a, store, value)
    → run_witness hashes store value program ≡ ok a
unfolding generate run_witness check_preimages
generate-run_witness hashes online program a store value served h =
    let collected =
      expect_ok hashes (collect hashes online [] (data_of hashes []) program) (a, store, value) h in
    let c = collect-IsCollected hashes online served program [] [] a store value collected in
    let valid = c.passes refl in
    rw (valid, c.blobs_are)
      (rw (blob_store-data_of hashes online served c.more) (c.replays store (λ key v e. e)))
