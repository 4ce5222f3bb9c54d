-- ===== src/BlockRange.antt =====
-- Ranges of L2 blocks for the scripts: utils/host/src/block_range.rs. Numbers are `u64`.
pub mod Splits
pub mod SafeHeads
use mina_evm_l.Prelude.{
  ℕ, zero, suc, ◌+◌, ◌-◌, ◌%◌, ◌^◌, min, max, Bool, true, false, ◌&&◌, Option, none, some, List, [],
  ◌∷◌, ◌++◌, ltb, leb, if◌then◌else◌, ◌==◌, ◌||◌, sort_by,
}
use mathlib.Core.Option
use mina_evm_l.Ranges.{Range}

-- `get_validated_block_range`, with the number of the latest finalized block that the node tells; `none`
-- is an error.
abbrev end_of : ℕ → Option ℕ → Option ℕ
end_of finalized none = some finalized
end_of finalized (some end) = if ltb finalized end then none else some end

abbrev start_of : ℕ → ℕ → Option ℕ → ℕ
start_of l2_end default_range none = max 1 (l2_end - default_range)
start_of l2_end default_range (some start) = start

pub checked : ℕ → Option ℕ → Option ℕ → Option Range
checked default_range start none = none
checked default_range start (some l2_end) =
    if leb l2_end (start_of l2_end default_range start)
    then none
    else some (start_of l2_end default_range start, l2_end)

pub get_validated_block_range : ℕ → Option ℕ → Option ℕ → ℕ → Option Range
unfolding checked
get_validated_block_range finalized start end default_range =
    checked default_range start (end_of finalized end)

-- `u64` addition; `none` is an overflow, a panic in a debug build.
abbrev pub add_u64 : ℕ → ℕ → Option ℕ
add_u64 a b = if ltb (a + b) (2 ^ 64) then some (a + b) else none

-- The `while` loop of `split_range_basic`. `none`: overflow, or out of fuel.
pub split_basic : ℕ → ℕ → ℕ → ℕ → Option (List Range)
split_basic zero current_start end max_range_size = none
split_basic (suc fuel) current_start end max_range_size = elim (ltb current_start end) [
  | true ↦ elim (add_u64 current_start max_range_size) [
    | none ↦ none
    | some next ↦
        Option.map (λ rest. (current_start, min next end) ∷ rest)
          (split_basic fuel (min next end) end max_range_size)
  ]
  | false ↦ some []
]

-- A range of n blocks is given n + 1 rounds.
pub split_range_basic : ℕ → ℕ → ℕ → Option (List Range)
unfolding split_basic
split_range_basic start end max_range_size =
    split_basic (suc (end - start)) start end max_range_size

-- The `while` loop on one safe head, with the push after it, up to `stop`, the lesser of the end and the
-- safe head.
pub split_head : ℕ → ℕ → ℕ → ℕ → Option (List Range)
split_head zero range_start stop max_range_size = none
split_head (suc fuel) range_start stop max_range_size = elim (add_u64 range_start max_range_size) [
  | none ↦ none
  | some next ↦ elim (ltb next stop) [
    | true ↦
        Option.map (λ rest. (range_start, next) ∷ rest) (split_head fuel next stop max_range_size)
    | false ↦ some ((range_start, stop) ∷ [])
  ]
]

-- The loop over the sorted safe heads.
pub split_heads : ℕ → ℕ → ℕ → List ℕ → Option (List Range)
unfolding split_head
split_heads current_l2_start l2_end max_range_size [] = some []
split_heads current_l2_start l2_end max_range_size (safe_head ∷ safe_heads) =
    let rest = split_heads current_l2_start l2_end max_range_size safe_heads in
    let next = split_heads safe_head l2_end max_range_size safe_heads in
    let here =
      split_head (suc (min l2_end safe_head - current_l2_start)) current_l2_start
        (min l2_end safe_head) max_range_size in
    if ltb current_l2_start safe_head && ltb current_l2_start l2_end
    then (elim here [ none ↦ none | some ranges ↦ Option.map (λ more. ranges ++ more) next ])
    else rest

-- The collection into a set.
abbrev pub has : ℕ → List ℕ → Bool
has n [] = false
has n (m ∷ ms) = n == m || has n ms

abbrev pub distinct : List ℕ → List ℕ
distinct [] = []
distinct (n ∷ ns) = let rest = distinct ns in if has n rest then rest else n ∷ rest

-- With the safe heads that the node tells of the L1 blocks in question, sorted.
unfoldable pub split_range_based_on_safe_heads : ℕ → ℕ → ℕ → List ℕ → Option (List Range)
unfolding split_heads
split_range_based_on_safe_heads l2_start l2_end max_range_size safe_heads =
    split_heads l2_start l2_end max_range_size (sort_by (λ n. n) (distinct safe_heads))
