-- ===== src/Examples/Tests.antt =====
-- Runs of the range arithmetic. Those of `find_gaps` and `get_ranges_to_prove` are the cases of the tests
-- in validity/src/utils.rs, the last one the example in utils/host/src/block_range.rs.
use mina_evm_l.Prelude.{◌≡◌, refl, some, [], ◌∷◌, sort_by}
use mina_evm_l.Ranges.{find_gaps, get_ranges_to_prove}
use mina_evm_l.BlockRange.{split_range_based_on_safe_heads}

gaps_none : find_gaps 1 4 ((1, 2) ∷ (2, 3) ∷ (3, 4) ∷ []) ≡ []
unfolding find_gaps
gaps_none = refl

gaps_some : find_gaps 1 10 ((1, 2) ∷ (4, 5) ∷ (7, 8) ∷ []) ≡ (2, 4) ∷ (5, 7) ∷ (8, 10) ∷ []
unfolding find_gaps
gaps_some = refl

gaps_at_start : find_gaps 1 6 ((3, 4) ∷ (5, 6) ∷ []) ≡ (1, 3) ∷ (4, 5) ∷ []
unfolding find_gaps
gaps_at_start = refl

gaps_at_end : find_gaps 1 5 ((1, 2) ∷ (2, 3) ∷ []) ≡ (3, 5) ∷ []
unfolding find_gaps
gaps_at_end = refl

gaps_empty_ranges : find_gaps 1 5 [] ≡ (1, 5) ∷ []
unfolding find_gaps
gaps_empty_ranges = refl

gaps_single_range : find_gaps 1 5 ((2, 4) ∷ []) ≡ (1, 2) ∷ (4, 5) ∷ []
unfolding find_gaps
gaps_single_range = refl

ranges_case_1 :
    get_ranges_to_prove ((0, 50) ∷ (100, 200) ∷ (200, 210) ∷ []) 25
    ≡ some ((0, 25) ∷ (25, 50) ∷ (100, 125) ∷ (125, 150) ∷ (150, 175) ∷ (175, 200) ∷ [])
unfolding get_ranges_to_prove
ranges_case_1 = refl

ranges_case_2 :
    get_ranges_to_prove ((0, 30) ∷ (40, 70) ∷ []) 10
    ≡ some ((0, 10) ∷ (10, 20) ∷ (20, 30) ∷ (40, 50) ∷ (50, 60) ∷ (60, 70) ∷ [])
unfolding get_ranges_to_prove
ranges_case_2 = refl

ranges_case_5 :
    get_ranges_to_prove ((0, 5) ∷ (10, 15) ∷ (20, 25) ∷ []) 3
    ≡ some ((0, 3) ∷ (3, 5) ∷ (10, 13) ∷ (13, 15) ∷ (20, 23) ∷ [])
unfolding get_ranges_to_prove
ranges_case_5 = refl

ranges_interval_larger :
    get_ranges_to_prove ((0, 5) ∷ (10, 15) ∷ (20, 25) ∷ []) 30 ≡ some ((0, 5) ∷ (10, 15) ∷ [])
unfolding get_ranges_to_prove
ranges_interval_larger = refl

safe_heads_in_steps :
    split_range_based_on_safe_heads 0 90 30 (90 ∷ 27 ∷ 49 ∷ 27 ∷ [])
    ≡ some ((0, 27) ∷ (27, 49) ∷ (49, 79) ∷ (79, 90) ∷ [])
unfolding split_range_based_on_safe_heads sort_by
safe_heads_in_steps = refl
