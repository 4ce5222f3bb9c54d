-- ===== src/Ranges.antt =====
-- Block ranges: validity/src/utils.rs.
pub mod Gaps
pub mod Tiles
use mathlib.Core.Option
use mina_evm_l.Prelude.{
  ℕ, zero, suc, ◌+◌, ◌-◌, ◌^◌, ◌≤◌, ◌<◌, max, min, ◌≡◌, Bool, true, false, ◌&&◌, Option, none, some,
  List, [], ◌∷◌, ◌++◌, ltb, leb, if◌then◌else◌, count_if, IsSorted as IsSortedBy,
}

-- A pair `(start, end)` of block numbers, the blocks start, ..., end - 1.
abbrev pub Range : Type 0
Range = ℕ × ℕ

abbrev pub i64_max : ℕ
i64_max = 2 ^ 63 - 1

-- `i64` addition of numbers that are not negative. `none` is an overflow, which the source does not
-- handle: a debug build panics and a release build wraps to a negative number.
abbrev pub add_i64 : ℕ → ℕ → Option ℕ
add_i64 a b = if leb (a + b) i64_max then some (a + b) else none

abbrev pub covers : ℕ → Range → Bool
covers b (start, end) = leb start b && ltb b end

-- How many of the ranges have the block.
abbrev pub cover : ℕ → List Range → ℕ
cover b ranges = count_if (covers b) ranges

-- `find_gaps`, with the loop's `current_start` in the place of `overall_start`.
unfoldable pub find_gaps : ℕ → ℕ → List Range → List Range
find_gaps current_start overall_end [] =
    if ltb current_start overall_end then (current_start, overall_end) ∷ [] else []
find_gaps current_start overall_end ((start, end) ∷ ranges) =
    let rest = find_gaps (max end current_start) overall_end ranges in
    if ltb current_start start then (current_start, start) ∷ rest else rest

-- The `while` loop of `get_ranges_to_prove` on one range. `none` says that the fuel has run out,
-- `some none` that the addition has overflowed.
pub split_range : ℕ → ℕ → ℕ → ℕ → Option (Option (List Range))
split_range zero current_start end range_proof_interval = none
split_range (suc fuel) current_start end range_proof_interval = elim (ltb current_start end) [
  | true ↦ elim (add_i64 current_start range_proof_interval) [
    | none ↦ some none
    | some next ↦
        Option.map (Option.map (λ rest. (current_start, min next end) ∷ rest))
          (split_range fuel (min next end) end range_proof_interval)
  ]
  | false ↦ some (some [])
]

-- The `for` loop: a range of n blocks is given n + 1 rounds. `none`: overflow, or out of fuel.
pub split_ranges : ℕ → List Range → Option (List Range)
split_ranges range_proof_interval [] = some []
split_ranges range_proof_interval ((start, end) ∷ disjoint_ranges) =
    elim (split_range (suc (end - start)) start end range_proof_interval) [
      | none ↦ none
      | some none ↦ none
      | some (some tiles) ↦
          Option.map (λ rest. tiles ++ rest) (split_ranges range_proof_interval disjoint_ranges)
    ]

-- `end - start < range_proof_interval`, on integers.
abbrev pub is_short : ℕ → Range → Bool
is_short range_proof_interval (start, end) = ltb end (start + range_proof_interval)

-- The last range is popped if it is shorter than the interval.
pub pop_short : ℕ → List Range → List Range
pop_short range_proof_interval [] = []
pop_short range_proof_interval (r ∷ []) = if is_short range_proof_interval r then [] else r ∷ []
pop_short range_proof_interval (r ∷ s ∷ ranges) = r ∷ pop_short range_proof_interval (s ∷ ranges)

unfoldable pub get_ranges_to_prove : List Range → ℕ → Option (List Range)
unfolding split_ranges split_range pop_short
get_ranges_to_prove disjoint_ranges range_proof_interval =
    Option.map (pop_short range_proof_interval) (split_ranges range_proof_interval disjoint_ranges)

-- The ranges follow one another from `start` to `end`, none of them empty.
abbrev pub IsChain : ℕ → ℕ → List Range → Type 0
IsChain start end [] = start ≡ end
IsChain start end (r ∷ ranges) = (r.0 ≡ start) × (start < r.1) × IsChain r.1 end ranges

-- Sorted by start block, from `lo` on.
abbrev pub IsSorted : ℕ → List Range → Type 0
IsSorted = IsSortedBy (λ r. r.0)
