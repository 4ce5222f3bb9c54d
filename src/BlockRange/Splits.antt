-- ===== src/BlockRange/Splits.antt =====
-- What `get_validated_block_range` and `split_range_basic` of utils/host/src/block_range.rs yield.
use mina_evm_l.Prelude.{
  ℕ, zero, suc, ◌+◌, ◌-◌, ◌^◌, ◌≤◌, ◌<◌, min, max, ◌≡◌, ◌↔◌, refl, Option, none, some, List, [],
  ◌∷◌, arith, All, dec_lt, lt→ltb,
}
use mina_evm_l.Ranges.{Range, IsChain}
use mina_evm_l.Ranges.Tiles.{IsTile}
use mina_evm_l.BlockRange.{
  get_validated_block_range, checked, add_u64, split_basic, split_range_basic,
}

abbrev pub unwrap_or : Option ℕ → ℕ → ℕ
unwrap_or none n = n
unwrap_or (some m) n = m

-- A range is returned exactly when it ends at the given end, or at the finalized block if there is none,
-- and not after the finalized block; starts at the given start, or if there is none the default number of
-- blocks before its end but not at block 0; and has blocks.
pub get_validated_block_range_lem :
    (finalized default_range l2_start l2_end : ℕ) (start end : Option ℕ)
    → (get_validated_block_range finalized start end default_range ≡ some (l2_start, l2_end)) ↔ (
        (l2_end ≡ unwrap_or end finalized)
        × (l2_end ≤ finalized)
        × (l2_start ≡ unwrap_or start (max 1 (l2_end - default_range)))
        × (l2_start < l2_end))
unfolding get_validated_block_range checked
get_validated_block_range_lem finalized default l2_start l2_end none none = ground arith
get_validated_block_range_lem finalized default l2_start l2_end none (some end) = ground arith
get_validated_block_range_lem finalized default l2_start l2_end (some start) none = ground arith
get_validated_block_range_lem finalized default l2_start l2_end (some start) (some end) =
    ground arith

split_basic-more :
    (fuel s e i : ℕ) {tiles : List Range}
    → s < e
    → s + i < 2 ^ 64
    → split_basic fuel (min (s + i) e) e i ≡ some tiles
    → split_basic (suc fuel) s e i ≡ some ((s, min (s + i) e) ∷ tiles)
unfolding split_basic
split_basic-more fuel s e i lt o eq =
    rw (lt→ltb s e lt, split_basic) (rw (lt→ltb (s + i) (2 ^ 64) o, add_u64) (rw eq))

split_basic-done : (fuel s e i : ℕ) → e ≤ s → split_basic (suc fuel) s e i ≡ some []
unfolding split_basic
split_basic-done fuel s e i le = ground arith

split_basic_lem :
    (size fuel start end : ℕ)
    → 0 < size
    → end + size < 2 ^ 64
    → start ≤ end
    → end - start < fuel
    → (tiles : List Range) × (split_basic fuel start end size ≡ some tiles)
      × IsChain start end tiles
      × All (IsTile size) tiles
split_basic_lem i zero s e p o le f = absurd (omega arith)
split_basic_lem i (suc fuel) s e p o le f = elim (dec_lt s e) [
  | yes lt ↦
      let next = min (s + i) e in
      let (tiles, eq, chain, sizes) =
        split_basic_lem i fuel next e p o (omega arith) (omega arith) in
      (
        (s, next) ∷ tiles,
        split_basic-more fuel s e i lt (omega arith) eq,
        (refl, omega arith, chain),
        ((omega arith, omega arith), sizes),
      )
  | no ge ↦ ([], split_basic-done fuel s e i (omega arith), omega arith, tt)
]

-- With a positive size and no overflow in sight, the loop ends. The ranges follow one another from
-- `start` to `end`, and each has at least one block and at most `max_range_size`.
pub split_range_basic_lem :
    (start end max_range_size : ℕ)
    → 0 < max_range_size
    → end + max_range_size < 2 ^ 64
    → start ≤ end
    → (ranges : List Range) × (split_range_basic start end max_range_size ≡ some ranges)
      × IsChain start end ranges
      × All (IsTile max_range_size) ranges
unfolding split_range_basic
split_range_basic_lem start end size pos room le =
    split_basic_lem size (suc (end - start)) start end pos room le (omega arith)
