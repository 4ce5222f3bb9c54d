-- ===== src/Proposer/Cover/Tiling.antt =====
-- The new ranges fill the gaps between the active ones (`add_new_ranges` of
-- validity/src/proposer.rs, with validity/src/utils.rs).
use mina_evm_l.Prelude.{
  ℕ, ◌+◌, ◌≤◌, ◌<◌, max, ◌≡◌, ap, ◌∙◌, inl, inr, true, ◌&&◌, some, List, [], ◌∷◌, arith, ltb, leb,
  ◌==◌, if◌then◌else◌, Bool-cases, sort_by, count_if-sort_by, sort_by-IsSorted, All, All-sort_by,
  All-weaken, length,
}
use mina_evm_l.Ranges.{Range, cover, covers, find_gaps, is_short, i64_max}
use mina_evm_l.Ranges.Gaps.{cover-find_gaps}
use mina_evm_l.Ranges.Tiles.{IsTile, get_ranges_to_prove_lem}
use mina_evm_l.Proposer.Cover.{ranges_to_prove}

-- A range that does not end before it starts, and starts by `finalized`.
abbrev pub IsBefore : ℕ → Range → Type 0
IsBefore finalized r = (r.0 ≤ r.1) × (r.0 ≤ finalized)

find_gaps_bounds :
    (s e : ℕ) (ranges : List Range)
    → All (IsBefore e) ranges
    → All (λ g. (g.0 ≤ g.1) × (g.1 ≤ e)) (find_gaps s e ranges)
unfolding find_gaps
find_gaps_bounds s e [] h = elim (Bool-cases (ltb s e)) [
  | inl lt ↦ rw lt ((ground arith, omega arith), tt)
  | inr ge ↦ rw ge tt
]
find_gaps_bounds s e ((x, y) ∷ ranges) h =
    let rest = find_gaps_bounds (max y s) e ranges h.1 in
    elim (Bool-cases (ltb s x)) [
      | inl lt ↦ rw lt ((ground arith, h.0.1), rest)
      | inr ge ↦ rw ge rest
    ]

-- The new ranges and at most one short range that is left for later have exactly the blocks from the
-- latest proposed to the finalized one that no request has, each once. Each new range has at least one
-- block and at most `interval` of them.
pub ranges_to_prove_lem :
    (interval latest finalized : ℕ) (requests : List Range)
    → 0 < interval
    → finalized + interval ≤ i64_max
    → All (IsBefore finalized) requests
    → (ranges dropped : List Range) × (ranges_to_prove interval latest finalized requests
        ≡ some ranges)
      × All (IsTile interval) ranges
      × (length dropped ≤ 1)
      × All (λ r. is_short interval r ≡ true) dropped
      × ((b : ℕ)
          → cover b ranges + cover b dropped
            ≡ (if leb latest b && ltb b finalized && cover b requests == 0 then 1 else 0))
unfolding ranges_to_prove
ranges_to_prove_lem i latest fin requests pos room h =
    let sorted = sort_by (λ (r : Range). r.0) requests in
    let before = All-sort_by (λ (r : Range). r.0) (IsBefore fin) requests h in
    let (_, ranges, dropped, eq, _, _, tiles, few, short, same) =
      get_ranges_to_prove_lem (find_gaps latest fin sorted) i pos (
        All-weaken (λ (g : Range) (k : (g.0 ≤ g.1) × (g.1 ≤ fin)). (k.0, room_for g k)) _
          (find_gaps_bounds latest fin sorted before)) in
    (
      ranges,
      dropped,
      eq,
      tiles,
      few,
      short,
      λ b.
          same b
          ∙ cover-find_gaps latest fin 0 sorted b (sort_by-IsSorted (λ r. r.0) requests) before
          ∙ ap (λ (n : ℕ). if leb latest b && ltb b fin && n == 0 then 1 else 0)
              (count_if-sort_by (λ r. r.0) (covers b) requests),
    )
  where
    room_for : (g : Range) → (g.0 ≤ g.1) × (g.1 ≤ fin) → g.1 + i ≤ i64_max
    room_for g k = omega arith

-- Ranges with blocks, none of them below `lo`, start at `lo` or later.
pub starts_above :
    (lo interval : ℕ) (ranges : List Range)
    → All (IsTile interval) ranges
    → ((b : ℕ) → b < lo → cover b ranges ≡ 0)
    → All (λ r. lo ≤ r.0) ranges
starts_above lo i [] t h = tt
starts_above lo i ((x, y) ∷ ranges) t h =
    (first, starts_above lo i ranges t.1 (λ b lt. ground (arith, h b lt)))
  where
    first : lo ≤ x
    first = elim (Bool-cases (leb lo x)) [
      | inl e ↦ ground arith
      | inr e ↦ absurd (ground (arith, h x (ground arith)))
    ]
