-- ===== src/Fetcher/Search.antt =====
-- The binary search of `find_block_by_timestamp` of utils/host/src/fetcher.rs.
use Prim.Native.Nat.{compare, Ordering}
use mathlib.Core.Path.{subst}
use mina_evm_l.Prelude.{
  ℕ, zero, suc, ◌+◌, ◌-◌, ◌/◌, ◌^◌, ◌≤◌, ◌<◌, ◌≡◌, ◌⊎◌, refl, ap, ◌∙◌, inl, inr, false, Option,
  some, ltb, leb, ◌==◌, Bool-cases, arith, dec_lt,
}
use mina_evm_l.Request.{B256}
use mina_evm_l.World.{Outcome, ok}
use mina_evm_l.Fetcher.{Block, seek, sought}

-- The node has the blocks up to `top`, numbered, each later than the one before.
pub record IsHistory (get_block : ℕ → Option Block) (block : ℕ → Block) (top : ℕ) : Type 0 where
  pub answers : (i : ℕ) → i ≤ top → get_block i ≡ some (block i)
  pub numbered : (i : ℕ) → (block i).number ≡ i
  pub rising : (i j : ℕ) → i < j → j ≤ top → (block i).timestamp < (block j).timestamp

-- The first block at the time or after it.
pub record IsFirstAt (block : ℕ → Block) (top target k : ℕ) : Type 0 where
  pub within : k ≤ top
  pub reached : target ≤ (block k).timestamp
  pub before : (j : ℕ) → j < k → (block j).timestamp < target

abbrev located : B256 → ℕ → Outcome (B256 × ℕ)
located hash number = ok (hash, number)

compare-cases :
    (a b : ℕ)
    → ((compare a b ≡ Ordering.lt) × (a < b))
      ⊎ ((compare a b ≡ Ordering.eq) × (a ≡ b))
      ⊎ ((compare a b ≡ Ordering.gt) × (b < a))
compare-cases a b = go (compare a b) refl
  where
    go :
        (o : Ordering)
        → compare a b ≡ o
        → ((compare a b ≡ Ordering.lt) × (a < b))
          ⊎ ((compare a b ≡ Ordering.eq) × (a ≡ b))
          ⊎ ((compare a b ≡ Ordering.gt) × (b < a))
    go Ordering.lt e = inl (e, ground (arith, e))
    go Ordering.eq e = inr (inl (e, ground (arith, e)))
    go Ordering.gt e = inr (inr (e, ground (arith, e)))

module _ (get_block : ℕ → Option Block) (block : ℕ → Block) (top target : ℕ)
    (history : IsHistory get_block block top) (small : top < 2 ^ 63)
    (started : (block 0).timestamp ≤ target) where
  -- What is known while the search is between two bounds.
  pub record Bounds (low high : ℕ) : Type 0 where
    pub ordered : low ≤ high + 1
    pub inside : high ≤ top
    pub before : (j : ℕ) → j < low → (block j).timestamp < target
    pub after : (j : ℕ) → high < j → j ≤ top → target < (block j).timestamp

  abbrev pub Ends : Block ⊎ ℕ → Type 0
  Ends (inl b) = (k : ℕ) × (k ≤ top) × (b ≡ block k) × ((block k).timestamp ≡ target)
  Ends (inr low) =
      (low ≤ top + 1)
      × ((j : ℕ) → j < low → (block j).timestamp < target)
      × ((j : ℕ) → low ≤ j → j ≤ top → target < (block j).timestamp)

  -- The blocks up to one that is too early are too early, and those from one that is too late on too late.
  pub earlier :
      (mid j : ℕ)
      → mid ≤ top
      → (block mid).timestamp < target
      → j < mid + 1
      → (block j).timestamp < target
  earlier mid j le lt h = elim (dec_lt j mid) [
    | yes less ↦ omega (arith, history.rising j mid less le)
    | no more ↦
        let e : mid ≡ j = omega arith in subst (λ (i : ℕ). (block i).timestamp < target) e lt
  ]

  pub later :
      (mid j : ℕ)
      → target < (block mid).timestamp
      → mid ≤ j
      → j ≤ top
      → target < (block j).timestamp
  later mid j lt h le = elim (dec_lt mid j) [
    | yes less ↦ omega (arith, history.rising mid j less le)
    | no more ↦
        let e : mid ≡ j = omega arith in subst (λ (i : ℕ). target < (block i).timestamp) e lt
  ]

  -- A block that is too late is not the first one.
  above_zero : (mid : ℕ) → target < (block mid).timestamp → 0 < mid
  above_zero zero late = absurd (omega (arith, started, late))
  above_zero (suc mid) late = omega arith

  above : (mid : ℕ) → target < (block mid).timestamp → (mid == 0) ≡ false
  above mid late = ground (arith, above_zero mid late)

  pub seek-Ends :
      (fuel low high : ℕ)
      → high + 1 < fuel + low
      → Bounds low high
      → (r : Block ⊎ ℕ) × (seek get_block target fuel low high ≡ some (ok r)) × Ends r
  unfolding seek
  seek-Ends zero low high enough b = absurd (omega (arith, b.ordered))
  seek-Ends (suc fuel) low high enough b = elim (Bool-cases (ltb high low)) [
    | inl done ↦ (
      inr low,
      rw done refl,
      (
        omega (arith, b.ordered, b.inside),
        b.before,
        λ j le le'. b.after j (ground (arith, done, le, b.ordered)) le',
      ),
    )
    | inr more ↦
        let mid = (low + high) / 2 in
        let le : low ≤ high = ground (arith, more) in
        let inside : mid ≤ top = omega (arith, b.inside) in
        let fits : leb (2 ^ 64) (low + high) ≡ false = ground (arith, b.inside, small, le) in
        let answer = history.answers mid inside in
        elim (compare-cases (block mid).timestamp target) [
          | inl (e, early) ↦
              rw (more, fits, answer, e)
                (seek-Ends fuel (mid + 1) high (omega (arith, enough)) (record {
                  ordered = omega arith;
                  inside = b.inside;
                  before = λ j h. earlier mid j inside early h;
                  after = b.after;
                }))
          | inr (inl (e, same)) ↦
              (inl (block mid), rw (more, fits, answer, e) refl, (mid, inside, refl, same))
          | inr (inr (e, late)) ↦
              let positive : (mid == 0) ≡ false = above mid late in
              rw (more, fits, answer, e, positive)
                (seek-Ends fuel low (mid - 1) (omega (arith, enough, above_zero mid late)) (record {
                  ordered = omega (arith, above_zero mid late);
                  inside = omega arith;
                  before = b.before;
                  after = λ j h le'. later mid j late (omega (arith, above_zero mid late)) le';
                }))
        ]
  ]

  -- The block that the search ends at.
  pub Ends-IsFirstAt :
      (r : Block ⊎ ℕ)
      → target ≤ (block top).timestamp
      → Ends r
      → (k : ℕ) × IsFirstAt block top target k
        × (sought get_block target r ≡ ok ((block k).hash, k))
  Ends-IsFirstAt (inl b) reached (k, inside, e, same) = (
    k,
    record {
      within = inside;
      reached = omega (arith, same);
      before = λ j lt. omega (arith, history.rising j k lt inside, same);
    },
    ap (λ (x : Block). located x.hash x.number) e
        ∙ ap (located (block k).hash) (history.numbered k),
  )
  Ends-IsFirstAt (inr low) reached (le, before, after) = elim (dec_lt top low) [
    | yes beyond ↦ absurd (omega (arith, before top beyond, reached))
    | no inside ↦ (
      low,
      record {
        within = omega arith;
        reached = omega (arith, after low (omega arith) (omega arith));
        before = before;
      },
      rw (history.answers low (omega arith)) (ap (located (block low).hash) (history.numbered low)),
    )
  ]
