-- ===== src/Ranges/Gaps.antt =====
-- What `find_gaps` finds (validity/src/utils.rs).
use mina_evm_l.Prelude.{
  ℕ, ◌≤◌, ◌<◌, max, ◌≡◌, refl, inl, inr, ◌&&◌, List, [], ◌∷◌, arith, ltb, leb, ◌==◌, if◌then◌else◌,
  Bool-cases, All,
}
use mina_evm_l.Ranges.{Range, cover, find_gaps, IsSorted}

-- Sorted ranges from `lo` on have no block below `lo`.
pub cover-below :
    (lo b : ℕ) (ranges : List Range) → IsSorted lo ranges → b < lo → cover b ranges ≡ 0
cover-below lo b [] h lt = refl
cover-below lo b ((start, end) ∷ ranges) h lt =
    ground (arith, cover-below start b ranges h.1 (omega arith))

-- For ranges sorted by start block, none ending before it starts and none starting after
-- `overall_end`, a block lies in exactly one gap if
-- it is in the overall range and in none of the ranges, and in no gap otherwise.
pub cover-find_gaps :
    (overall_start overall_end lo : ℕ) (ranges : List Range) (b : ℕ)
    → IsSorted lo ranges
    → All (λ r. (r.0 ≤ r.1) × (r.0 ≤ overall_end)) ranges
    → cover b (find_gaps overall_start overall_end ranges)
      ≡ (if leb overall_start b && ltb b overall_end && cover b ranges == 0 then 1 else 0)
unfolding find_gaps
cover-find_gaps s e lo [] b h k = ground arith
cover-find_gaps s e lo ((start, end) ∷ ranges) b h k = elim (Bool-cases (ltb s start)) [
  | inl gap ↦ rw gap (
      ground (
        arith,
        cover-find_gaps (max end s) e start ranges b h.1 k.1,
        cover-below start b ranges h.1,
      ))
  | inr none_here ↦ rw none_here (
      ground (
        arith,
        cover-find_gaps (max end s) e start ranges b h.1 k.1,
        cover-below start b ranges h.1,
      ))
]
