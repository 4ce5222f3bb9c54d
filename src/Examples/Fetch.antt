-- ===== src/Examples/Fetch.antt =====
-- Instances of the properties of the data fetcher.
use mina_evm_l.Prelude.{
  none, ℕ, ◌+◌, ◌-◌, ◌*◌, ◌≡◌, refl, ap, true, Option, some, List, [], ◌∷◌, arith,
}
use mina_evm_l.Request.{B256}
use mina_evm_l.World.{Outcome, ok}
use mina_evm_l.Aggregation.{BootInfo, AggregationInputs, main, outputs_of}
use mina_evm_l.Fetcher.{
  Block, L1Header, SafeHeadResponse, Run, or_err, estimate, get_l1_head,
  get_safe_l1_block_for_l2_block, get_header_preimages,
}
use mina_evm_l.Fetcher.Timestamps.{IsL1Head, get_l1_head-IsL1Head}
use mina_evm_l.Fetcher.Search.{IsHistory}
use mina_evm_l.Fetcher.SafeBlocks.{
  IsDerived, IsFirstSafe, get_safe_l1_block_for_l2_block-IsFirstSafe,
}
use mina_evm_l.Fetcher.Preimages.{get_header_preimages-main}
use mina_evm_l.Fetcher.Headers.{IsL1}

-- A block every 12 seconds.
abbrev block : ℕ → Block
block n = record { hash = n + 500; number = n; timestamp = n * 12 }

abbrev get_block : ℕ → Option Block
get_block n = some (block n)

block-IsHistory : IsHistory get_block block 900
block-IsHistory = record {
  answers = λ i le. refl;
  numbered = λ i. refl;
  rising = λ i j lt le. omega arith;
}

-- The safe head database is not there.
get_l1_head-IsL1Head_example :
    (safe head : Outcome (B256 × ℕ)) × (get_safe_l1_block_for_l2_block
        (λ n. none)
        33
        (some 40)
        (some 5)
      ≡ some safe)
    × (get_l1_head
          (λ n. none)
          (λ n. some 5)
          (λ n. some 100)
          get_block
          (some 40)
          (some 10800)
          (some 900)
          true
          true
          33
        ≡ some head)
    × IsL1Head block 900 100 true safe head
get_l1_head-IsL1Head_example =
    get_l1_head-IsL1Head (λ n. none) (λ n. some 5) (λ n. some 100) get_block block (some 40) 900 100
      33 true block-IsHistory (omega arith) refl (omega arith) (omega arith)

-- The 209th block is the first at 40 minutes past.
estimated :
    get_l1_head
      (λ n. none)
      (λ n. some 5)
      (λ n. some 100)
      get_block
      (some 40)
      (some 10800)
      (some 900)
      true
      true
      33
    ≡ some (ok (709, 209))
unfolding get_l1_head mina_evm_l.Fetcher.find_block_by_timestamp
estimated = refl

-- Two L2 blocks become safe with each L1 block.
abbrev safe_head : ℕ → SafeHeadResponse
safe_head n = record { l1_block = (n + 500, n); safe_head = n * 2 }

safe_head-IsDerived : IsDerived (λ n. some (safe_head n)) safe_head 40
safe_head-IsDerived = record { answers = λ i le. refl; grows = λ i j le. omega arith }

get_safe_l1_block_for_l2_block-IsFirstSafe_example :
    (r : Option (B256 × ℕ)) × IsFirstSafe safe_head 33 5 40 r
    × (get_safe_l1_block_for_l2_block (λ n. some (safe_head n)) 33 (some 40) (some 5)
        ≡ some (or_err r))
get_safe_l1_block_for_l2_block-IsFirstSafe_example =
    get_safe_l1_block_for_l2_block-IsFirstSafe (λ n. some (safe_head n)) safe_head 33 5 40
      safe_head-IsDerived (omega arith) (omega arith)

safe_at :
    get_safe_l1_block_for_l2_block (λ n. some (safe_head n)) 33 (some 40) (some 5)
    ≡ some (ok (517, 17))
unfolding get_safe_l1_block_for_l2_block
safe_at = refl

-- The headers up to number 40 and two range proofs, the second against an earlier head.
abbrev header : ℕ → L1Header
header n = record { number = n; hash = n + 501; parent_hash = n + 500; timestamp = n * 12 }

abbrev header_of : B256 → Option L1Header
header_of hash = some (header (hash - 501))

hash-back : (n : ℕ) → n + 501 - 501 ≡ n
hash-back n = omega arith

header-IsL1 : IsL1 header_of (λ n. some (header n)) header 40
header-IsL1 = record {
  by_number = λ i le. refl;
  by_hash = λ i le. ap (λ (n : ℕ). some (header n)) (hash-back i);
  numbered = λ i. refl;
  linked = λ i. omega arith;
}

abbrev boot_info : ℕ → ℕ → BootInfo
boot_info head root = record {
  l1_head = head + 501;
  l2_pre_root = root;
  l2_post_root = root + 1;
  l2_block_number = root * 10;
  rollup_config_hash = 3;
}

abbrev inputs : AggregationInputs
inputs = record {
  boot_infos = boot_info 30 1 ∷ boot_info 27 2 ∷ [];
  latest_l1_checkpoint_head = 533;
  multi_block_vkey = 5 ∷ [];
  prover_address = 7;
}

get_header_preimages-main_example :
    (headers : List L1Header) × (get_header_preimages header_of
        (λ n. some (header n))
        inputs.boot_infos
        533
      ≡ ok headers)
    × (main
          (λ (h : L1Header). h.hash)
          (λ h. h.parent_hash)
          (λ b. b.l2_block_number)
          (λ vkey digest. true)
          inputs
          (some headers)
        ≡ some (outputs_of inputs (boot_info 30 1) (boot_info 27 2 ∷ [])))
get_header_preimages-main_example =
    get_header_preimages-main header_of (λ n. some (header n)) header 40 32 (λ b. b.l2_block_number)
      (λ vkey digest. true) inputs (boot_info 30 1) (boot_info 27 2 ∷ []) header-IsL1 (omega arith)
      (omega arith) refl refl
      ((30, refl, omega arith, omega arith), ((27, refl, omega arith, omega arith), tt))
      (refl, refl, tt) (refl, (refl, tt))
