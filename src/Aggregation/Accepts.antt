-- ===== src/Aggregation/Accepts.antt =====
-- What the aggregation program accepts (programs/aggregation/src/main.rs).
use mina_evm_l.Prelude.{
  ℕ, ◌≡◌, ◌↔◌, refl, sym, ap, ◌∙◌, inl, inr, Bool, true, ◌||◌, Option, none, some, List, [], ◌∷◌,
  map, arith, ◌==◌, Bool-cases, All,
}
use mina_evm_l.Request.{B256}
use mina_evm_l.Aggregation.Heads.{
  is_in, marks, all_found-marks, all_in, all_or-l1_heads_map, all_in-All,
}
use mina_evm_l.Aggregation.{
  BootInfo, AggregationInputs, AggregationOutputs, HeadsMap, is_sequential, l1_heads_map,
  mark_found, all_found, reverse_onto, all_verified, follow, outputs_of, finish, aggregate, main,
}

-- Each range starts at the output root where the one before ends, with one rollup configuration.
abbrev pub IsSequential : BootInfo → List BootInfo → Type 0
IsSequential prev [] = Unit
IsSequential prev (b ∷ boot_infos) =
    (prev.l2_post_root ≡ b.l2_pre_root)
    × (prev.rollup_config_hash ≡ b.rollup_config_hash)
    × IsSequential b boot_infos

is_sequential-IsSequential :
    (prev : BootInfo) (boot_infos : List BootInfo)
    → (is_sequential (prev ∷ boot_infos) ≡ true) ↔ IsSequential prev boot_infos
unfolding is_sequential
is_sequential-IsSequential prev [] = (λ h. tt, λ h. refl)
is_sequential-IsSequential prev (b ∷ boot_infos) =
    let (there, back) = is_sequential-IsSequential b boot_infos in
    (λ h. (ground arith, ground arith, there (ground arith)), λ h. ground (arith, back h.2))

module _ {Header : Type 0} (hash_slow parent_hash : Header → B256) (pv_digest : BootInfo → B256)
    (verify_sp1_proof : List ℕ → B256 → Bool) where
  -- The headers, in order: each is the parent of the next, and the last one has the given hash.
  abbrev pub IsHeaderChain : List Header → B256 → Type 0
  IsHeaderChain [] head = Unit
  IsHeaderChain (h ∷ []) head = head ≡ hash_slow h
  IsHeaderChain (h ∷ g ∷ headers) head =
      (parent_hash g ≡ hash_slow h) × IsHeaderChain (g ∷ headers) head

  -- The same from the last header back.
  abbrev Follows : B256 → List Header → Type 0
  Follows current [] = Unit
  Follows current (h ∷ headers) = (current ≡ hash_slow h) × Follows (parent_hash h) headers

  follow-Follows :
      (current : B256) (headers : List Header) (heads : HeadsMap)
      → Follows current headers
      → follow hash_slow parent_hash pv_digest verify_sp1_proof current headers heads
        ≡ some (marks (map hash_slow headers) heads)
  unfolding follow
  follow-Follows current [] heads h = refl
  follow-Follows current (x ∷ headers) heads h =
      rw (h.0) (
        ground (arith, follow-Follows (parent_hash x) headers (mark_found (hash_slow x) heads) h.1))

  Follows-follow :
      (current : B256) (headers : List Header) (heads found : HeadsMap)
      → follow hash_slow parent_hash pv_digest verify_sp1_proof current headers heads ≡ some found
      → Follows current headers
  unfolding follow
  Follows-follow current [] heads found e = tt
  Follows-follow current (x ∷ headers) heads found e = elim (Bool-cases (current == hash_slow x)) [
    | inl same ↦ (
      ground arith,
      Follows-follow (parent_hash x) headers (mark_found current heads) found
          (ground (arith, same, e)),
    )
    | inr other ↦ absurd (ground (arith, other, e))
  ]

  Follows-reverse_onto :
      (current : B256) (x : Header) (acc xs : List Header)
      → Follows current (reverse_onto (x ∷ acc) xs)
        ↔ (IsHeaderChain (x ∷ xs) current × Follows (parent_hash x) acc)
  Follows-reverse_onto current x acc [] = (λ h. h, λ h. h)
  Follows-reverse_onto current x acc (y ∷ ys) =
      let (there, back) = Follows-reverse_onto current y (x ∷ acc) ys in
      (λ h. let k = there h in ((k.1.0, k.0), k.1.1), λ h. back (h.0.1, (h.0.0, h.1)))

  Follows-reverse :
      (current : B256) (headers : List Header)
      → Follows current (reverse_onto [] headers) ↔ IsHeaderChain headers current
  Follows-reverse current [] = (λ h. tt, λ h. tt)
  Follows-reverse current (x ∷ headers) =
      let (there, back) = Follows-reverse_onto current x [] headers in
      (λ h. (there h).0, λ h. back (h, tt))

  is_in-reverse_onto :
      (k : B256) (acc xs : List Header)
      → is_in k (map hash_slow (reverse_onto acc xs))
        ≡ (is_in k (map hash_slow acc) || is_in k (map hash_slow xs))
  is_in-reverse_onto k acc [] = ground arith
  is_in-reverse_onto k acc (x ∷ xs) = is_in-reverse_onto k (x ∷ acc) xs ∙ ground arith

  all_verified-All :
      (vkey : List ℕ) (boot_infos : List BootInfo)
      → (all_verified hash_slow parent_hash pv_digest verify_sp1_proof vkey boot_infos ≡ true)
        ↔ All (λ b. verify_sp1_proof vkey (pv_digest b) ≡ true) boot_infos
  unfolding all_verified
  all_verified-All vkey [] = (λ h. tt, λ h. refl)
  all_verified-All vkey (b ∷ boot_infos) =
      let (there, back) = all_verified-All vkey boot_infos in
      (λ h. (ground arith, there (ground arith)), λ h. ground (arith, back h.1))

  -- The proofs and headers are in order, and the outputs are of the whole range.
  pub record IsAccepted (inputs : AggregationInputs) (headers : List Header)
      (outputs : AggregationOutputs) : Type 0 where
    pub first : BootInfo
    pub boot_infos : List BootInfo
    pub some_range : inputs.boot_infos ≡ first ∷ boot_infos
    pub sequential : IsSequential first boot_infos
    pub verified :
        All
          (λ b. verify_sp1_proof inputs.multi_block_vkey (pv_digest b) ≡ true)
          (first ∷ boot_infos)
    pub chained : IsHeaderChain headers inputs.latest_l1_checkpoint_head
    pub included : All (λ b. is_in b.l1_head (map hash_slow headers) ≡ true) (first ∷ boot_infos)
    pub result : outputs ≡ outputs_of inputs first boot_infos

  all_in-same :
      (hs ks : List B256)
      → ((k : B256) → is_in k hs ≡ is_in k ks)
      → (boot_infos : List BootInfo) → all_in hs boot_infos ≡ all_in ks boot_infos
  all_in-same hs ks same [] = refl
  all_in-same hs ks same (b ∷ boot_infos) =
      rw (same b.l1_head, all_in-same hs ks same boot_infos) refl

  heads-included :
      (boot_infos : List BootInfo) (headers : List Header)
      → (all_found (marks (map hash_slow (reverse_onto [] headers)) (l1_heads_map boot_infos))
          ≡ true)
        ↔ All (λ b. is_in b.l1_head (map hash_slow headers) ≡ true) boot_infos
  heads-included boot_infos headers =
      let hs = map hash_slow (reverse_onto [] headers) in
      let e =
        all_found-marks hs (l1_heads_map boot_infos)
        ∙ all_or-l1_heads_map hs boot_infos
        ∙ all_in-same hs (map hash_slow headers) (λ k. is_in-reverse_onto k [] headers)
            boot_infos in
      let (there, back) = all_in-All (map hash_slow headers) boot_infos in
      (λ h. there (sym e ∙ h), λ h. e ∙ back h)

  -- The result once the assertions on the boot infos hold.
  abbrev after_checks :
      AggregationInputs → BootInfo → List BootInfo → List Header → Option AggregationOutputs
  after_checks inputs first boot_infos headers = finish (outputs_of inputs first boot_infos) (
      follow hash_slow parent_hash pv_digest verify_sp1_proof inputs.latest_l1_checkpoint_head
        (reverse_onto [] headers) (l1_heads_map (first ∷ boot_infos)))

  finish-some :
      (outs outputs : AggregationOutputs) (o : Option HeadsMap)
      → finish outs o ≡ some outputs
      → (found : HeadsMap) × (o ≡ some found) × (all_found found ≡ true) × (outputs ≡ outs)
  finish-some outs outputs none h = absurd cc
  finish-some outs outputs (some found) h = elim (Bool-cases (all_found found)) [
    | inl e ↦ (found, refl, e, some-injective outputs outs (sym (pick e) ∙ h))
    | inr e ↦ absurd (ground (arith, e, h))
  ]
    where
      pick : all_found found ≡ true → finish outs (some found) ≡ some outs
      pick e = rw e refl

      some-injective : (a b : AggregationOutputs) → some b ≡ some a → a ≡ b
      some-injective a b e = cc

  after_checks-IsAccepted :
      (inputs : AggregationInputs) (headers : List Header) (outputs : AggregationOutputs)
      (first : BootInfo) (boot_infos : List BootInfo)
      → inputs.boot_infos ≡ first ∷ boot_infos
      → is_sequential (first ∷ boot_infos) ≡ true
      → all_verified hash_slow parent_hash pv_digest verify_sp1_proof inputs.multi_block_vkey
          (first ∷ boot_infos)
        ≡ true
      → after_checks inputs first boot_infos headers ≡ some outputs
      → IsAccepted inputs headers outputs
  after_checks-IsAccepted inputs headers outputs first boot_infos eq seq ver h =
      let (found, followed, all, out) =
        finish-some (outputs_of inputs first boot_infos) outputs _ h in
      let follows =
        Follows-follow inputs.latest_l1_checkpoint_head (reverse_onto [] headers)
          (l1_heads_map (first ∷ boot_infos)) found followed in
      let value =
        follow-Follows inputs.latest_l1_checkpoint_head (reverse_onto [] headers)
          (l1_heads_map (first ∷ boot_infos)) follows in
      let same : found
          ≡ marks (map hash_slow (reverse_onto [] headers)) (l1_heads_map (first ∷ boot_infos)) =
        cc in
      record {
        first = first;
        boot_infos = boot_infos;
        some_range = eq;
        sequential = (is_sequential-IsSequential first boot_infos).0 seq;
        verified = (all_verified-All inputs.multi_block_vkey (first ∷ boot_infos)).0 ver;
        chained = (Follows-reverse inputs.latest_l1_checkpoint_head headers).0 follows;
        included =
            (heads-included (first ∷ boot_infos) headers).0
              (ap (λ (m : HeadsMap). all_found m) (sym same) ∙ all);
        result = out;
      }

  aggregate-IsAccepted :
      (inputs : AggregationInputs) (headers : List Header) (outputs : AggregationOutputs)
      (boot_infos : List BootInfo)
      → inputs.boot_infos ≡ boot_infos
      → aggregate hash_slow parent_hash pv_digest verify_sp1_proof inputs boot_infos headers
        ≡ some outputs
      → IsAccepted inputs headers outputs
  unfolding aggregate
  aggregate-IsAccepted inputs headers outputs [] eq h = absurd cc
  aggregate-IsAccepted inputs headers outputs (first ∷ boot_infos) eq h =
      elim (Bool-cases (is_sequential (first ∷ boot_infos))) [
        | inr bad ↦ absurd (ground (arith, bad, h))
        | inl seq ↦
            elim (Bool-cases (
              all_verified hash_slow parent_hash pv_digest verify_sp1_proof inputs.multi_block_vkey
                (first ∷ boot_infos))) [
                  | inr bad ↦ absurd (ground (arith, bad, h))
                  | inl ver ↦
                      after_checks-IsAccepted inputs headers outputs first boot_infos eq seq ver
                        (ground (arith, seq, ver, h))
                ]
      ]

  accepted-aggregate :
      (inputs : AggregationInputs) (headers : List Header) (outputs : AggregationOutputs)
      → (a : IsAccepted inputs headers outputs)
      → aggregate hash_slow parent_hash pv_digest verify_sp1_proof inputs
          (a.first ∷ a.boot_infos)
          headers
        ≡ some outputs
  unfolding aggregate
  accepted-aggregate inputs headers outputs a =
      let seq = (is_sequential-IsSequential a.first a.boot_infos).1 a.sequential in
      let ver = (all_verified-All inputs.multi_block_vkey (a.first ∷ a.boot_infos)).1 a.verified in
      let all = (heads-included (a.first ∷ a.boot_infos) headers).1 a.included in
      rw (seq, ver)
        (rw
          (follow-Follows inputs.latest_l1_checkpoint_head (reverse_onto [] headers)
            (l1_heads_map (a.first ∷ a.boot_infos))
            ((Follows-reverse inputs.latest_l1_checkpoint_head headers).1 a.chained))
          (rw all (ap some (sym a.result))))

-- The aggregation program yields outputs exactly when there is a range proof, every range starts where
-- the one before ends and has its rollup configuration, every proof verifies, the headers are linked up
-- to the checkpoint, and every range's L1 head is one of them. The outputs then span from the first
-- range's start to the last one's end, under that configuration.
pub main-IsAccepted :
    {Header : Type 0} (hash_slow parent_hash : Header → B256) (pv_digest : BootInfo → B256)
    (verify_sp1_proof : List ℕ → B256 → Bool) (inputs : AggregationInputs) (headers : List Header)
    (outputs : AggregationOutputs)
    → (main hash_slow parent_hash pv_digest verify_sp1_proof inputs (some headers) ≡ some outputs)
      ↔ IsAccepted hash_slow parent_hash pv_digest verify_sp1_proof inputs headers outputs
unfolding main
main-IsAccepted hash_slow parent_hash pv_digest verify_sp1_proof inputs headers outputs = (
  λ h.
      aggregate-IsAccepted hash_slow parent_hash pv_digest verify_sp1_proof inputs headers outputs
        inputs.boot_infos refl h,
  λ a.
      ap
        (λ (bs : List BootInfo).
          aggregate hash_slow parent_hash pv_digest verify_sp1_proof inputs bs headers)
        a.some_range
      ∙ accepted-aggregate hash_slow parent_hash pv_digest verify_sp1_proof inputs headers outputs
          a,
)
