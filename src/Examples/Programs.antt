-- ===== src/Examples/Programs.antt =====
-- Instances of the properties of the aggregation program and of the block ranges of the scripts.
use mina_evm_l.Prelude.{
  ℕ, ◌-◌, ◌<◌, ◌≤◌, ◌≡◌, ◌↔◌, refl, true, none, some, List, [], ◌∷◌, min, max, All, arith,
}
use mina_evm_l.Ranges.{Range, IsChain}
use mina_evm_l.Ranges.Tiles.{IsTile}
use mina_evm_l.Aggregation.{main, u32_to_u8, spelled}
use mina_evm_l.Aggregation.Accepts.{IsAccepted, main-IsAccepted}
use mina_evm_l.Aggregation.Words.{words, spelled-u32_to_u8}
use mina_evm_l.BlockRange.{
  get_validated_block_range, split_range_basic, split_range_based_on_safe_heads,
}
use mina_evm_l.BlockRange.Splits.{unwrap_or, get_validated_block_range_lem, split_range_basic_lem}
use mina_evm_l.BlockRange.SafeHeads.{highest, split_range_based_on_safe_heads_lem}
use mina_evm_l.Examples.Data.{inputs, outputs, headers}

main-IsAccepted_example :
    (main
        (λ (h : ℕ × ℕ). h.0)
        (λ h. h.1)
        (λ b. b.l2_pre_root)
        (λ vkey digest. true)
        inputs
        (some headers)
      ≡ some outputs)
    ↔ IsAccepted
        (λ (h : ℕ × ℕ). h.0)
        (λ h. h.1)
        (λ b. b.l2_pre_root)
        (λ vkey digest. true)
        inputs
        headers
        outputs
main-IsAccepted_example =
    main-IsAccepted (λ (h : ℕ × ℕ). h.0) (λ h. h.1) (λ b. b.l2_pre_root) (λ vkey digest. true)
      inputs headers outputs

-- The program accepts these inputs.
main_accepts :
    main
      (λ (h : ℕ × ℕ). h.0)
      (λ h. h.1)
      (λ b. b.l2_pre_root)
      (λ vkey digest. true)
      inputs
      (some headers)
    ≡ some outputs
unfolding main spelled u32_to_u8
main_accepts = refl

spelled-u32_to_u8_example : spelled 0 (u32_to_u8 (1 ∷ 2 ∷ [])) ≡ words 0 (1 ∷ 2 ∷ [])
spelled-u32_to_u8_example = spelled-u32_to_u8 0 (1 ∷ 2 ∷ []) (omega arith, (omega arith, tt))

get_validated_block_range_lem_example :
    (get_validated_block_range 100 none (some 90) 30 ≡ some (60, 90)) ↔ (
      (90 ≡ unwrap_or (some 90) 100)
      × (90 ≤ 100)
      × (60 ≡ unwrap_or none (max 1 (90 - 30)))
      × (60 < 90))
get_validated_block_range_lem_example = get_validated_block_range_lem 100 30 60 90 none (some 90)

split_range_basic_lem_example :
    (ranges : List Range) × (split_range_basic 0 70 30 ≡ some ranges)
    × IsChain 0 70 ranges
    × All (IsTile 30) ranges
split_range_basic_lem_example =
    split_range_basic_lem 0 70 30 (omega arith) (omega arith) (omega arith)

split_range_based_on_safe_heads_lem_example :
    (ranges : List Range) × (split_range_based_on_safe_heads 0 90 30 (49 ∷ 27 ∷ 95 ∷ [])
      ≡ some ranges)
    × IsChain 0 (min 90 (highest 0 (49 ∷ 27 ∷ 95 ∷ []))) ranges
    × All (IsTile 30) ranges
split_range_based_on_safe_heads_lem_example =
    split_range_based_on_safe_heads_lem 0 90 30 (49 ∷ 27 ∷ 95 ∷ []) (omega arith) (omega arith)
      (omega arith)
