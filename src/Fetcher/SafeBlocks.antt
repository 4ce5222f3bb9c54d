-- ===== src/Fetcher/SafeBlocks.antt =====
-- What `get_safe_l1_block_for_l2_block` of utils/host/src/fetcher.rs finds.
use mathlib.Core.Path.{subst}
use mina_evm_l.Prelude.{
  ℕ, zero, suc, ◌+◌, ◌-◌, ◌/◌, ◌≤◌, ◌<◌, ◌≡◌, refl, sym, ap, inl, inr, false, Option, none, some,
  ltb, leb, ◌==◌, Bool-cases, Option-cases, arith,
}
use mina_evm_l.Request.{B256}
use mina_evm_l.World.{Outcome, ok, err, panic, rpc_error}
use mina_evm_l.Fetcher.{
  ◌>>=◌, SafeHeadResponse, Run, or_err, run_then, seek_safe, get_safe_l1_block_for_l2_block,
}

-- The L2 node answers for the L1 blocks up to `hi`, and what is safe by a block stays safe.
pub record IsDerived (safe_head_at : ℕ → Option SafeHeadResponse) (at : ℕ → SafeHeadResponse)
    (hi : ℕ) : Type 0 where
  pub answers : (i : ℕ) → i ≤ hi → safe_head_at i ≡ some (at i)
  pub grows : (i j : ℕ) → i ≤ j → (at i).safe_head ≤ (at j).safe_head

-- The first L1 block of the range by which the L2 block is safe, or that there is none.
pub data IsFirstSafe (at : ℕ → SafeHeadResponse) (l2_end_block lo hi : ℕ)
    : Option (B256 × ℕ) → Type 0 where
  found :
      (k : ℕ)
      → lo ≤ k
      → k ≤ hi
      → l2_end_block ≤ (at k).safe_head
      → ((j : ℕ) → lo ≤ j → j < k → (at j).safe_head < l2_end_block)
      → IsFirstSafe at l2_end_block lo hi (some (at k).l1_block)
  nowhere :
      ((j : ℕ) → lo ≤ j → j ≤ hi → (at j).safe_head < l2_end_block)
      → IsFirstSafe at l2_end_block lo hi none

module _ (safe_head_at : ℕ → Option SafeHeadResponse) (at : ℕ → SafeHeadResponse)
    (l2_end_block lo hi : ℕ) (derived : IsDerived safe_head_at at hi) (positive : 0 < lo) where
  -- The block that is kept is the one after the upper bound.
  abbrev Kept : ℕ → Option (B256 × ℕ) → Type 0
  Kept high none = high ≡ hi
  Kept high (some block) =
      (suc high ≤ hi)
      × (block ≡ (at (suc high)).l1_block)
      × (l2_end_block ≤ (at (suc high)).safe_head)

  -- The bounds have met.
  meets :
      (low high : ℕ) (first_valid : Option (B256 × ℕ))
      → lo ≤ low
      → low ≡ suc high
      → ((j : ℕ) → lo ≤ j → j < low → (at j).safe_head < l2_end_block)
      → Kept high first_valid
      → IsFirstSafe at l2_end_block lo hi first_valid
  meets low high none le met before kept = nowhere (λ j h h'. before j h (omega (arith, met, kept)))
  meets low high (some block) le met before (inside, e, safe) =
      subst (λ (b : B256 × ℕ). IsFirstSafe at l2_end_block lo hi (some b)) (sym e)
        (found (suc high) (omega (arith, met)) inside safe
          (λ j h h'. before j h (omega (arith, met))))

  seek_safe-IsFirstSafe :
      (fuel low high : ℕ) (first_valid : Option (B256 × ℕ))
      → high + 1 < fuel + low
      → lo ≤ low
      → low ≤ suc high
      → high ≤ hi
      → ((j : ℕ) → lo ≤ j → j < low → (at j).safe_head < l2_end_block)
      → Kept high first_valid
      → (r : Option (B256 × ℕ)) × (seek_safe safe_head_at l2_end_block fuel low high first_valid
          ≡ some (ok r))
        × IsFirstSafe at l2_end_block lo hi r
  unfolding seek_safe
  seek_safe-IsFirstSafe zero low high first_valid enough le ordered inside before kept =
      absurd (omega arith)
  seek_safe-IsFirstSafe (suc fuel) low high first_valid enough le ordered inside before kept =
      elim (Bool-cases (ltb high low)) [
        | inl done ↦ (
          first_valid,
          rw done refl,
          meets low high first_valid le (ground (arith, done, ordered)) before kept,
        )
        | inr more ↦
            let mid = low + (high - low) / 2 in
            let between : low ≤ high = ground (arith, more) in
            let low_mid : low ≤ mid = omega arith in
            let mid_high : mid ≤ high = omega (arith, between) in
            let answer = derived.answers mid (omega (arith, mid_high, inside)) in
            elim (Bool-cases (leb l2_end_block (at mid).safe_head)) [
              | inl safe ↦
                  let above : (mid == 0) ≡ false = ground (arith, positive, le, low_mid) in
                  let back : suc (mid - 1) ≡ mid = omega (arith, positive, le, low_mid) in
                  rw (more, answer, safe, above)
                    (seek_safe-IsFirstSafe fuel low (mid - 1) (some (at mid).l1_block)
                      (omega (arith, enough, mid_high, positive, le, low_mid)) le
                      (omega (arith, low_mid, back)) (omega (arith, mid_high, inside)) before
                      (subst
                        (λ (n : ℕ).
                          (n ≤ hi)
                          × ((at mid).l1_block ≡ (at n).l1_block)
                          × (l2_end_block ≤ (at n).safe_head))
                        (sym back) (omega (arith, mid_high, inside), refl, ground (arith, safe))))
              | inr early ↦
                  rw (more, answer, early)
                    (seek_safe-IsFirstSafe fuel (mid + 1) high first_valid
                      (omega (arith, enough, low_mid)) (omega (arith, le, low_mid))
                      (omega (arith, mid_high)) inside
                      (λ j h lt. omega (
                        arith,
                        derived.grows j mid (omega arith),
                        ground_lt (at mid).safe_head early,
                      ))
                      kept)
            ]
      ]
    where
      ground_lt : (n : ℕ) → leb l2_end_block n ≡ false → n < l2_end_block
      ground_lt n e = ground arith

-- The fuel is enough, whatever the node answers.
seek_safe-ends :
    (safe_head_at : ℕ → Option SafeHeadResponse) (l2_end_block fuel low high : ℕ)
    (first_valid : Option (B256 × ℕ))
    → high + 1 < fuel + low
    → low < fuel + low
    → (r : Outcome (Option (B256 × ℕ))) × (seek_safe safe_head_at l2_end_block fuel low high
          first_valid
        ≡ some r)
unfolding seek_safe
seek_safe-ends safe_head_at l2_end_block zero low high first_valid enough some_fuel =
    absurd (omega arith)
seek_safe-ends safe_head_at l2_end_block (suc fuel) low high first_valid enough some_fuel =
    elim (Bool-cases (ltb high low)) [
      | inl done ↦ (ok first_valid, rw (done, seek_safe) refl)
      | inr more ↦
          let mid = low + (high - low) / 2 in
          let between : low ≤ high = ground (arith, more) in
          let mid_high : mid ≤ high = omega (arith, between) in
          elim (Option-cases (safe_head_at mid)) [
            | inl e ↦ (err rpc_error, rw (more, e, seek_safe) refl)
            | inr (result, e) ↦ elim (Bool-cases (leb l2_end_block result.safe_head)) [
              | inr early ↦
                  let (r, e') =
                    seek_safe-ends safe_head_at l2_end_block fuel (mid + 1) high first_valid
                      (omega (arith, enough, between)) (omega (arith, enough, between)) in
                  (r, rw (more, e, early, seek_safe) e')
              | inl safe ↦ elim (Bool-cases (mid == 0)) [
                | inl none_left ↦ (panic, rw (more, e, safe, none_left, seek_safe) refl)
                | inr positive ↦
                    let above : 0 < mid = ground (arith, positive) in
                    let (r, e') =
                      seek_safe-ends safe_head_at l2_end_block fuel low (mid - 1)
                        (some result.l1_block) (omega (arith, enough, mid_high, above))
                        (omega (arith, enough, between)) in
                    (r, rw (more, e, safe, positive, seek_safe) e')
              ]
            ]
          ]
    ]

pub get_safe_l1_block_for_l2_block-ends :
    (safe_head_at : ℕ → Option SafeHeadResponse) (l2_end_block : ℕ) (finalized origin : Option ℕ)
    → (r : Outcome (B256 × ℕ)) × (get_safe_l1_block_for_l2_block safe_head_at l2_end_block finalized
          origin
        ≡ some r)
unfolding get_safe_l1_block_for_l2_block
get_safe_l1_block_for_l2_block-ends safe_head_at l2_end_block none origin = (err rpc_error, refl)
get_safe_l1_block_for_l2_block-ends safe_head_at l2_end_block (some high) none =
    (err rpc_error, refl)
get_safe_l1_block_for_l2_block-ends safe_head_at l2_end_block (some high) (some low) =
    let (r, e) =
      seek_safe-ends safe_head_at l2_end_block (suc (suc high)) low high none (omega arith)
        (omega arith) in
    (r >>= or_err, ap (λ (x : Run (Option (B256 × ℕ))). run_then x or_err) e)

-- On a node that answers for every L1 block up to the finalized one, with safe heads that never fall, and an
-- L1 origin after block 0 and not past the finalized block by more than one: `get_safe_l1_block_for_l2_block`
-- returns the first block from the origin on by which the L2 block is safe, or an error if there is none up to
-- the finalized block.
pub get_safe_l1_block_for_l2_block-IsFirstSafe :
    (safe_head_at : ℕ → Option SafeHeadResponse) (at : ℕ → SafeHeadResponse)
    (l2_end_block origin finalized : ℕ)
    → IsDerived safe_head_at at finalized
    → 0 < origin
    → origin ≤ suc finalized
    → (r : Option (B256 × ℕ)) × IsFirstSafe at l2_end_block origin finalized r
      × (get_safe_l1_block_for_l2_block safe_head_at l2_end_block (some finalized) (some origin)
          ≡ some (or_err r))
unfolding get_safe_l1_block_for_l2_block
get_safe_l1_block_for_l2_block-IsFirstSafe safe_head_at at l2_end_block origin finalized derived
      positive le =
    let (r, e, first) =
      seek_safe-IsFirstSafe safe_head_at at l2_end_block origin finalized derived positive
        (suc (suc finalized)) origin finalized none (omega (arith, positive)) (omega arith) le
        (omega arith) (λ j h lt. absurd (omega arith)) refl in
    (r, first, ap (λ (x : Run (Option (B256 × ℕ))). run_then x or_err) e)
