-- ===== src/Witness/Sound.antt =====
-- What a witness that passes its checks can answer: utils/client/src/witness/preimage_store.rs.
use mathlib.Core.Path.{subst}
use mina_evm_l.Prelude.{
  ℕ, ◌≡◌, refl, sym, ap, ◌∙◌, inl, inr, Bool, true, false, Option, none, some, [], ◌∷◌, ◌==◌,
  if◌then◌else◌, Bool-cases, arith,
}
use mina_evm_l.Request.{Bytes}
use mina_evm_l.World.{Outcome, ok, err, panic, rpc_error}
use mina_evm_l.Fetcher.{or_err, ◌>>=◌}
use mina_evm_l.Witness.{
  PreimageKeyType, local_key, keccak256_key, global_generic, sha256_key, blob_key, precompile_key,
  PreimageKey, same_key, byte_count, PreimageStore, lookup, get, get_exact, Hashes, check_preimage,
  check_preimages,
}
use mina_evm_l.Witness.Stored.{same_key-eq}

-- The value hashes to the key, by the key's own hash function; the host vouches for local and global values.
abbrev pub IsPreimageBy : Hashes → PreimageKeyType → ℕ → Bytes → Type 0
IsPreimageBy hashes keccak256_key key_data value =
    key_data ≡ hashes.low_bytes (hashes.keccak256 value)
IsPreimageBy hashes sha256_key key_data value = key_data ≡ hashes.low_bytes (hashes.sha256 value)
IsPreimageBy hashes local_key key_data value = Unit
IsPreimageBy hashes global_generic key_data value = Unit
IsPreimageBy hashes precompile_key key_data value = ⊥
IsPreimageBy hashes blob_key key_data value = ⊥

abbrev pub IsPreimage : Hashes → PreimageKey → Bytes → Type 0
IsPreimage hashes key value = IsPreimageBy hashes key.key_type key.key_data value

module _ (hashes : Hashes) where
  check_preimage-IsPreimage :
      (key : PreimageKey) (value : Bytes)
      → check_preimage hashes key value ≡ ok tt
      → IsPreimage hashes key value
  unfolding check_preimage
  check_preimage-IsPreimage key value h = go key.key_type key.key_data h
    where
      equal : (m n : ℕ) → (if m == n then ok tt else err rpc_error) ≡ ok (tt {0}) → m ≡ n
      equal m n e = elim (Bool-cases (m == n)) [
        | inl same ↦ ground (arith, same)
        | inr other ↦ let stuck : err rpc_error ≡ ok (tt {0}) = rw other at e in absurd (cc)
      ]

      go :
          (t : PreimageKeyType) (n : ℕ)
          → check_preimage hashes (record { key_type = t; key_data = n }) value ≡ ok tt
          → IsPreimageBy hashes t n value
      go keccak256_key n e = equal n (hashes.low_bytes (hashes.keccak256 value)) e
      go sha256_key n e = equal n (hashes.low_bytes (hashes.sha256 value)) e
      go local_key n e = tt
      go global_generic n e = tt
      go precompile_key n e = cc
      go blob_key n e = cc

  -- The first of two checks, and the second.
  both : (m n : Outcome (Unit {0})) → (m >>= λ u. n) ≡ ok tt → (m ≡ ok tt) × (n ≡ ok tt)
  both (ok u) n e = (refl, e)
  both (err x) n e = absurd cc
  both panic n e = absurd cc

  lookup-IsPreimage :
      (store : PreimageStore) (key : PreimageKey) (value : Bytes)
      → check_preimages hashes store ≡ ok tt
      → lookup key store ≡ some value
      → IsPreimage hashes key value
  unfolding check_preimages lookup
  lookup-IsPreimage [] key value h e = absurd cc
  lookup-IsPreimage ((k, v) ∷ store) key value h e =
      let (first, rest) = both (check_preimage hashes k v) (check_preimages hashes store) h in
      elim (Bool-cases (same_key k key)) [
        | inl same ↦
            let equal : v ≡ value = some_eq v value (sym (pick (same_key k key) same) ∙ e) in
            subst (IsPreimage hashes key) equal (
              subst (λ (l : PreimageKey). IsPreimage hashes l v) (same_key-eq k key same)
                (check_preimage-IsPreimage k v first))
        | inr other ↦ lookup-IsPreimage store key value rest (sym (skip (same_key k key) other) ∙ e)
      ]
    where
      some_eq : (a b : Bytes) → some a ≡ some b → a ≡ b
      some_eq a b e = cc

      pick : (t : Bool) → t ≡ true → (if t then some v else lookup key store) ≡ some v
      pick t e = rw e refl

      skip : (t : Bool) → t ≡ false → (if t then some v else lookup key store) ≡ lookup key store
      skip t e = rw e refl

  get-lookup :
      (store : PreimageStore) (key : PreimageKey) (value : Bytes)
      → get store key ≡ ok value
      → lookup key store ≡ some value
  unfolding get
  get-lookup store key value h = go (lookup key store) h
    where
      go : (o : Option Bytes) → or_err o ≡ ok value → o ≡ some value
      go none e = absurd cc
      go (some v) e = cc

get_exact-get :
    (store : PreimageStore) (key : PreimageKey) (length : ℕ) (exact : Bytes)
    → get_exact store key length ≡ ok exact
    → (get store key ≡ ok exact) × (byte_count exact ≡ length)
unfolding get_exact
get_exact-get store key length exact h = go (get store key) h
  where
    tested :
        (t : Bool) (v : Bytes) → (if t then ok v else panic) ≡ ok exact → (t ≡ true) × (v ≡ exact)
    tested true v e = (refl, cc)
    tested false v e = absurd cc

    go :
        (r : Outcome Bytes)
        → (r >>= λ v. if byte_count v == length then ok v else panic) ≡ ok exact
        → (r ≡ ok exact) × (byte_count exact ≡ length)
    go (ok v) e =
        let (fills, same) = tested (byte_count v == length) v e in
        (ap (λ (b : Bytes). ok b) same, ground (arith, fills, same))
    go (err x) e = absurd cc
    go panic e = absurd cc

-- Whatever the host put into the witness: if `check_preimages` passes, every value that the program reads by a
-- keccak or sha256 key has that hash, and none is read by a precompile or blob key. A value that is read into a
-- buffer is the same one, and fills the buffer.
pub get-IsPreimage :
    (hashes : Hashes) (store : PreimageStore) (key : PreimageKey) (length : ℕ) (value exact : Bytes)
    → check_preimages hashes store ≡ ok tt
    → get store key ≡ ok value
    → get_exact store key length ≡ ok exact
    → IsPreimage hashes key value × (exact ≡ value) × (byte_count exact ≡ length)
get-IsPreimage hashes store key length value exact checked read read_exact =
    let (again, fills) = get_exact-get store key length exact read_exact in
    (
      lookup-IsPreimage hashes store key value checked (get-lookup hashes store key value read),
      ok_eq exact value (sym again ∙ read),
      fills,
    )
  where
    ok_eq : (a b : Bytes) → ok a ≡ ok b → a ≡ b
    ok_eq a b e = cc
