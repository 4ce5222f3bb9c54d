-- ===== src/WellFormed/Ranges.antt =====
-- `add_new_ranges` of validity/src/proposer.rs keeps the rows well-formed and does not panic.
use mathlib.Core.Path.{subst}
use mina_evm_l.Prelude.{
  ℕ, ◌+◌, ◌^◌, ◌≤◌, ◌<◌, max, ◌≡◌, refl, ap, ◌∙◌, inl, inr, true, Option, none, some, List, [], ◌∷◌,
  arith, ltb, Bool-cases, sort_by, All, All-weaken, All-zip, All-sort_by,
}
use mina_evm_l.Ranges.{Range, find_gaps, i64_max}
use mina_evm_l.Ranges.Tiles.{IsTile, get_ranges_to_prove-bounded}
use mina_evm_l.Request.{Config}
use mina_evm_l.World.Safe.{
  Safe, Any, Safe-pure, Safe-or_err, Safe-unwrap, Safe-query, Safe-execute, Safe-bind, Safe-collect,
}
use mina_evm_l.Env.{Env, fulfilled}
use mina_evm_l.Proposer.Chain.{get_latest_proposed_block_number}
use mina_evm_l.Proposer.Cover.{ranges_to_prove, insert_ranges, add_ranges_up_to, add_new_ranges}
use mina_evm_l.Db.Table.{is_some}
use mina_evm_l.WellFormed.Rows.{block_limit, IsWf, insert_requests-IsWf}
use mina_evm_l.WellFormed.Fetched.{IsSmall, fetch_ranges_after_block-IsSmall}
use mina_evm_l.WellFormed.Requests.{HasSmallData, create_range_request-Safe}

-- What the proposer relies on: blocks, the submission interval and the totals of the blocks of a range
-- are small numbers, and a fulfilled proof request comes with its proof.
pub record IsSane (env : Env) : Type 0 where
  pub latest_small : (n : ℕ) → env.latest_block_number ≡ some n → n ≤ block_limit
  pub finalized_small : (n m : ℕ) → env.finalized_block n ≡ some (some m) → m ≤ block_limit
  pub interval_small : (n : ℕ) → env.submission_interval ≡ some n → n < 2 ^ 63
  pub data_small : HasSmallData env
  pub fulfilled_has_proof :
      (id : ℕ) → env.fulfillment_status id ≡ fulfilled → is_some (env.fulfilled_proof id) ≡ true

-- A range that the splitting can take.
abbrev pub IsGap : Range → Type 0
IsGap r = (r.0 ≤ r.1) × (r.1 ≤ block_limit)

find_gaps-IsGap :
    (s e : ℕ) (ranges : List Range)
    → s ≤ block_limit
    → e ≤ block_limit
    → All IsSmall ranges
    → All IsGap (find_gaps s e ranges)
unfolding find_gaps
find_gaps-IsGap s e [] hs he h = elim (Bool-cases (ltb s e)) [
  | inl lt ↦ rw lt ((ground arith, he), tt)
  | inr ge ↦ rw ge tt
]
find_gaps-IsGap s e ((x, y) ∷ ranges) hs he h =
    let rest = find_gaps-IsGap (max y s) e ranges (omega arith) he h.1 in
    elim (Bool-cases (ltb s x)) [
      | inl lt ↦ rw lt ((ground arith, h.0.0), rest)
      | inr ge ↦ rw ge rest
    ]

pub ranges_to_prove-IsSmall :
    (interval latest finalized : ℕ) (requests : List Range)
    → 0 < interval
    → interval ≤ 2 ^ 62
    → latest ≤ block_limit
    → finalized ≤ block_limit
    → All IsSmall requests
    → (ranges : List Range) × (ranges_to_prove interval latest finalized requests ≡ some ranges)
      × All IsSmall ranges
unfolding ranges_to_prove
ranges_to_prove-IsSmall i latest fin requests pos small hl hf h =
    let gaps = find_gaps latest fin (sort_by (λ r. r.0) requests) in
    let good =
      find_gaps-IsGap latest fin (sort_by (λ r. r.0) requests) hl hf
        (All-sort_by (λ r. r.0) IsSmall requests h) in
    let (ranges, eq, tiles, bounded) =
      get_ranges_to_prove-bounded gaps i block_limit pos
        (All-weaken (λ (r : Range) (g : IsGap r). (g.0, fits r g)) gaps good)
        (All-weaken (λ (r : Range) (g : IsGap r). g.1) gaps good) in
    (
      ranges,
      eq,
      All-weaken (λ (r : Range) (g : IsTile i r × (r.1 ≤ block_limit)). (below r g, g.1)) ranges
          (All-zip (IsTile i) (λ r. r.1 ≤ block_limit) ranges tiles bounded),
    )
  where
    fits : (r : Range) → IsGap r → r.1 + i ≤ i64_max
    fits r g = omega arith

    below : (r : Range) → IsTile i r × (r.1 ≤ block_limit) → r.0 ≤ block_limit
    below r g = omega arith

module _ {C : Type 0} (env : Env) (sane : IsSane env) where
  pub get_latest_proposed_block_number-Safe :
      Safe C IsWf (λ n. n ≤ block_limit) (get_latest_proposed_block_number env)
  unfolding get_latest_proposed_block_number
  get_latest_proposed_block_number-Safe =
      Safe-bind {Q = λ n. n ≤ block_limit} _ _ (Safe-or_err _ _ (λ n e. sane.latest_small n e))
        (λ n small. Safe-unwrap _ (λ e. absurd (ground arith)) (λ m e. ground arith))

module _ {C : Type 0} (env : Env) (config : Config) (sane : IsSane env) where
  insert_ranges-Safe :
      (ranges : List Range) → All IsSmall ranges → Safe C IsWf Any (insert_ranges env config ranges)
  unfolding insert_ranges
  insert_ranges-Safe [] small = Safe-pure tt tt
  insert_ranges-Safe (r ∷ ranges) small =
      Safe-bind _ _
        (Safe-collect IsSmall (r ∷ ranges) _
          (λ x ok. create_range_request-Safe env config sane.data_small _ x.0 x.1 _ _ _ _ ok.0 ok.1)
          small)
        (λ rows ok. Safe-execute _ (λ now db tasks. insert_requests-IsWf rows ok db))

  add_ranges_up_to-Safe :
      (latest : ℕ) (finalized : Option ℕ)
      → 0 < config.range_proof_interval
      → config.range_proof_interval ≤ 2 ^ 62
      → latest ≤ block_limit
      → ((m : ℕ) → finalized ≡ some m → m ≤ block_limit)
      → Safe C IsWf Any (add_ranges_up_to env config latest finalized)
  unfolding add_ranges_up_to
  add_ranges_up_to-Safe latest none pos small hl hf = Safe-pure tt tt
  add_ranges_up_to-Safe latest (some finalized) pos small hl hf =
      Safe-bind _ _
        (Safe-query _ (λ db tasks h. fetch_ranges_after_block-IsSmall _ latest _ _ _ db h))
        (λ requests ok.
          let (ranges, eq, fine) =
            ranges_to_prove-IsSmall config.range_proof_interval latest finalized requests pos small
              hl (hf finalized refl) ok in
          Safe-bind _ _
            (Safe-unwrap {Q = All IsSmall} _ (λ e. absurd (ground arith))
              (λ rs e. let same : ranges ≡ rs = cc in subst (All IsSmall) same fine))
            insert_ranges-Safe)

  pub add_new_ranges-Safe :
      0 < config.range_proof_interval
      → config.range_proof_interval ≤ 2 ^ 62
      → Safe C IsWf Any (add_new_ranges env config)
  unfolding add_new_ranges
  add_new_ranges-Safe pos small =
      Safe-bind _ _ (get_latest_proposed_block_number-Safe env sane) (λ latest hl.
        Safe-bind {Q = λ o. (m : ℕ) → o ≡ some m → m ≤ block_limit} _ _
          (Safe-or_err _ _ (λ o e m e'. sane.finalized_small latest m (e ∙ ap some e')))
          (λ finalized hf. add_ranges_up_to-Safe latest finalized pos small hl hf))
