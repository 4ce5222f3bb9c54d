-- ===== src/Witness/Stored.antt =====
-- What the preimage store of utils/client/src/witness/preimage_store.rs keeps.
use mathlib.Core.Path.{subst}
use mina_evm_l.Prelude.{
  ◌≡◌, refl, sym, ap, ◌∙◌, inl, inr, Bool, true, false, Option, some, [], ◌∷◌, if◌then◌else◌,
  Bool-cases, arith,
}
use mina_evm_l.Request.{Bytes}
use mina_evm_l.World.{Outcome, ok, err, panic}
use mina_evm_l.Fetcher.{◌>>=◌}
use mina_evm_l.Witness.{
  PreimageKeyType, local_key, keccak256_key, global_generic, sha256_key, blob_key, precompile_key,
  type_number, PreimageKey, same_key, same_bytes, PreimageStore, lookup, insert, Hashes,
  check_preimage, check_preimages, overwrites, expect, save_preimage,
}

type_of_number : (a b : PreimageKeyType) → type_number a ≡ type_number b → a ≡ b
type_of_number local_key local_key e = refl
type_of_number keccak256_key keccak256_key e = refl
type_of_number global_generic global_generic e = refl
type_of_number sha256_key sha256_key e = refl
type_of_number blob_key blob_key e = refl
type_of_number precompile_key precompile_key e = refl
type_of_number _ _ e = absurd (omega (arith, e))

pub same_key-eq : (k l : PreimageKey) → same_key k l ≡ true → k ≡ l
same_key-eq k l e =
    let same = type_of_number k.key_type l.key_type (ground (arith, e)) in
    let number : k.key_data ≡ l.key_data = ground (arith, e) in
    λ i. record { key_type = same i; key_data = number i }

pub same_key_self : (k : PreimageKey) → same_key k k ≡ true
same_key_self k = ground arith

same_bytes-eq : (a b : Bytes) → same_bytes a b ≡ true → a ≡ b
same_bytes-eq [] [] e = refl
same_bytes-eq (x ∷ xs) (y ∷ ys) e =
    let head : x ≡ y = ground (arith, e) in
    let tail = same_bytes-eq xs ys (ground (arith, e)) in λ i. head i ∷ tail i
same_bytes-eq [] (y ∷ ys) e = absurd cc
same_bytes-eq (x ∷ xs) [] e = absurd cc

lookup-insert :
    (key : PreimageKey) (value : Bytes) (j : PreimageKey) (store : PreimageStore)
    → lookup j (insert key value store) ≡ (if same_key key j then some value else lookup j store)
unfolding lookup insert
lookup-insert key value j [] = refl
lookup-insert key value j ((k, v) ∷ store) = elim (Bool-cases (same_key k key)) [
  | inl e ↦ let same = same_key-eq k key e in rw e (rw same (ground arith))
  | inr e ↦ rw e (ground (arith, e, lookup-insert key value j store))
]

-- Every value that is there stays there.
abbrev pub Extends : PreimageStore → PreimageStore → Type 0
Extends store larger =
    (key : PreimageKey) (value : Bytes)
    → lookup key store ≡ some value
    → lookup key larger ≡ some value

-- What is saved is there, the rest stays, and the store still passes the check.
pub record IsSaved (hashes : Hashes) (key : PreimageKey) (value : Bytes)
    (store saved : PreimageStore) : Type 0 where
  pub there : lookup key saved ≡ some value
  pub kept : Extends store saved
  pub passes : check_preimages hashes store ≡ ok tt → check_preimages hashes saved ≡ ok tt

module _ (hashes : Hashes) where
  check_preimages-insert :
      (key : PreimageKey) (value : Bytes) (store : PreimageStore)
      → check_preimage hashes key value ≡ ok tt
      → check_preimages hashes store ≡ ok tt
      → check_preimages hashes (insert key value store) ≡ ok tt
  unfolding check_preimages insert
  check_preimages-insert key value [] e h = rw e refl
  check_preimages-insert key value ((k, v) ∷ store) e h =
      let (first, rest) = both (check_preimage hashes k v) (check_preimages hashes store) h in
      elim (Bool-cases (same_key k key)) [
        | inl same ↦
            rw
              (
                same,
                subst (λ (l : PreimageKey). check_preimage hashes l value ≡ ok tt)
                    (sym (same_key-eq k key same)) e,
              )
              rest
        | inr other ↦ rw (other, first) (check_preimages-insert key value store e rest)
      ]
    where
      both : (m n : Outcome (Unit {0})) → (m >>= λ u. n) ≡ ok tt → (m ≡ ok tt) × (n ≡ ok tt)
      both (ok u) n e = (refl, e)
      both (err x) n e = absurd cc
      both panic n e = absurd cc

  -- The same value may be saved again.
  Extends-insert :
      (key : PreimageKey) (value : Bytes) (store : PreimageStore)
      → overwrites hashes (lookup key store) value ≡ false
      → Extends store (insert key value store)
  Extends-insert key value store same j old h = elim (Bool-cases (same_key key j)) [
    | inr other ↦
        lookup-insert key value j store
        ∙ ap (λ (b : Bool). if b then some value else lookup j store) other
        ∙ h
    | inl e ↦
        let here : lookup key store ≡ some old =
          ap (λ (k : PreimageKey). lookup k store) (same_key-eq key j e) ∙ h in
        let equal : old ≡ value =
          again old (sym (ap (λ (o : Option Bytes). overwrites hashes o value) here) ∙ same) in
        lookup-insert key value j store
        ∙ ap (λ (b : Bool). if b then some value else lookup j store) e
        ∙ ap some (sym equal)
  ]
    where
      again : (old : Bytes) → overwrites hashes (some old) value ≡ false → old ≡ value
      again old e = elim (Bool-cases (same_bytes old value)) [
        | inl eq ↦ same_bytes-eq old value eq
        | inr ne ↦ absurd (ground (arith, ne, e))
      ]

  pub save_preimage-IsSaved :
      (key : PreimageKey) (value : Bytes) (store saved : PreimageStore)
      → save_preimage hashes key value store ≡ ok saved
      → IsSaved hashes key value store saved
  unfolding save_preimage
  save_preimage-IsSaved key value store saved h =
      elim (Bool-cases (overwrites hashes (lookup key store) value)) [
        | inl bad ↦ absurd (never (check_preimage hashes key value) bad h)
        | inr fine ↦
            let (valid, e) = inserts (check_preimage hashes key value) fine h in
            subst (IsSaved hashes key value store) e (record {
              there =
                  lookup-insert key value key store
                  ∙ ap (λ (b : Bool). if b then some value else lookup key store)
                      (same_key_self key);
              kept = Extends-insert key value store fine;
              passes = check_preimages-insert key value store valid;
            })
      ]
    where
      never :
          (r : Outcome (Unit {0}))
          → overwrites hashes (lookup key store) value ≡ true
          → expect hashes r (λ u.
            if overwrites hashes (lookup key store) value
            then panic
            else ok (insert key value store))
            ≡ ok saved
          → ⊥
      never (ok u) bad e = let stuck : panic ≡ ok saved = rw bad at e in cc
      never (err x) bad e = cc
      never panic bad e = cc

      inserts :
          (r : Outcome (Unit {0}))
          → overwrites hashes (lookup key store) value ≡ false
          → expect hashes r (λ u.
            if overwrites hashes (lookup key store) value
            then panic
            else ok (insert key value store))
            ≡ ok saved
          → (r ≡ ok tt) × (insert key value store ≡ saved)
      inserts (ok u) fine e =
          let same : ok (insert key value store) ≡ ok saved = rw fine at e in (refl, cc)
      inserts (err x) fine e = absurd cc
      inserts panic fine e = absurd cc
