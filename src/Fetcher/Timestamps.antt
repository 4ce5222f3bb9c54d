-- ===== src/Fetcher/Timestamps.antt =====
-- What `find_block_by_timestamp` of utils/host/src/fetcher.rs finds.
use mathlib.Core.Path.{subst}
use mina_evm_l.Prelude.{
  ℕ, suc, ◌+◌, ◌*◌, min, ◌^◌, ◌≤◌, ◌<◌, ◌≡◌, ◌⊎◌, refl, ap, ◌∙◌, Bool, true, false, Option, some,
  leb, arith, dec_lt,
}
use mina_evm_l.Request.{B256}
use mina_evm_l.World.{Outcome, Error, ok, err, panic}
use mina_evm_l.Fetcher.SafeBlocks.{get_safe_l1_block_for_l2_block-ends}
use mina_evm_l.Fetcher.{
  SafeHeadResponse, get_safe_l1_block_for_l2_block, Block, Run, run_then, sought,
  find_block_by_timestamp, estimate, get_l1_head,
}
use mina_evm_l.Fetcher.Search.{IsHistory, IsFirstAt, seek-Ends, Ends-IsFirstAt}

-- On a node with all blocks up to the finalized one, numbered below 2^63 and each later than the one before,
-- and for a time from that of the first block to that of the finalized one, `find_block_by_timestamp` returns
-- the hash and number of the first block at that time or after it.
pub find_block_by_timestamp-IsFirstAt :
    (get_block : ℕ → Option Block) (block : ℕ → Block) (top target : ℕ)
    → IsHistory get_block block top
    → top < 2 ^ 63
    → (block 0).timestamp ≤ target
    → target ≤ (block top).timestamp
    → (k : ℕ) × IsFirstAt block top target k
      × (find_block_by_timestamp get_block target (some top) ≡ some (ok ((block k).hash, k)))
unfolding find_block_by_timestamp
find_block_by_timestamp-IsFirstAt get_block block top target history small started reached =
    let (r, found, ends) =
      seek-Ends get_block block top target history small started (suc (suc top)) 0 top (omega arith)
        (record {
          ordered = omega arith;
          inside = omega arith;
          before = λ j lt. absurd (omega arith);
          after = λ j lt le. absurd (omega arith);
        }) in
    let (k, first, e) =
      Ends-IsFirstAt get_block block top target history small started r reached ends in
    (k, first, ap (λ (x : Run (Block ⊎ ℕ)). run_then x (sought get_block target)) found ∙ ap some e)

-- The L1 head for a range of L2 blocks, from the outcome of the search in the safe head database.
pub data IsL1Head (block : ℕ → Block) (top l2_time : ℕ) (safe_db_fallback : Bool)
    (safe : Outcome (B256 × ℕ)) : Outcome (B256 × ℕ) → Type 0 where
  by_safe_db :
      (head : B256 × ℕ)
      → safe ≡ ok head
      → IsL1Head block top l2_time safe_db_fallback safe (ok head)
  by_estimate :
      (e : Error) (k : ℕ)
      → safe ≡ err e
      → safe_db_fallback ≡ true
      → IsFirstAt block top (min (l2_time + 40 * 60) (block top).timestamp) k
      → IsL1Head block top l2_time safe_db_fallback safe (ok ((block k).hash, k))
  refused :
      (e : Error)
      → safe ≡ err e
      → safe_db_fallback ≡ false
      → IsL1Head block top l2_time safe_db_fallback safe (err e)
  panicked : safe ≡ panic → IsL1Head block top l2_time safe_db_fallback safe panic

-- On an L1 node with all blocks up to the finalized one, numbered below 2^63 and each later than the one before,
-- and for an L2 block whose time with 40 minutes is from the first L1 block on and fits in a u64, `get_l1_head`
-- ends, whatever the safe head database answers. It returns what `get_safe_l1_block_for_l2_block` finds. Where
-- that fails, it fails too without the fallback; with it, it returns the hash and number of the first block at
-- 40 minutes past the L2 block, or at the time of the finalized block if that is earlier, or after it.
pub get_l1_head-IsL1Head :
    (safe_head_at : ℕ → Option SafeHeadResponse) (l1_origin l2_timestamp : ℕ → Option ℕ)
    (get_block : ℕ → Option Block) (block : ℕ → Block) (finalized : Option ℕ)
    (top l2_time l2_end_block : ℕ) (safe_db_fallback : Bool)
    → IsHistory get_block block top
    → top < 2 ^ 63
    → l2_timestamp l2_end_block ≡ some l2_time
    → (block 0).timestamp ≤ l2_time + 40 * 60
    → l2_time + 40 * 60 < 2 ^ 64
    → (safe head : Outcome (B256 × ℕ)) × (get_safe_l1_block_for_l2_block safe_head_at l2_end_block
          finalized
          (l1_origin l2_end_block)
        ≡ some safe)
      × (get_l1_head safe_head_at l1_origin l2_timestamp get_block finalized
            (some (block top).timestamp)
            (some top)
            true
            safe_db_fallback
            l2_end_block
          ≡ some head)
      × IsL1Head block top l2_time safe_db_fallback safe head
unfolding get_l1_head estimate
get_l1_head-IsL1Head safe_head_at l1_origin l2_timestamp get_block block finalized top l2_time
      l2_end_block safe_db_fallback history small timed started fits =
    let (safe, searched) =
      get_safe_l1_block_for_l2_block-ends safe_head_at l2_end_block finalized
        (l1_origin l2_end_block) in
    by_outcome safe searched safe_db_fallback
  where
    first_le : (block 0).timestamp ≤ (block top).timestamp
    first_le = elim (dec_lt 0 top) [
      | yes lt ↦ omega (arith, history.rising 0 top lt (omega arith))
      | no ge ↦
          let z : 0 ≡ top = omega arith in
          subst (λ (n : ℕ). (block 0).timestamp ≤ (block n).timestamp) z (omega arith)
    ]

    by_outcome :
        (safe : Outcome (B256 × ℕ))
        → get_safe_l1_block_for_l2_block safe_head_at l2_end_block finalized
            (l1_origin l2_end_block)
          ≡ some safe
        → (fallback : Bool)
        → (safe head : Outcome (B256 × ℕ)) × (get_safe_l1_block_for_l2_block safe_head_at
              l2_end_block finalized
              (l1_origin l2_end_block)
            ≡ some safe)
          × (get_l1_head safe_head_at l1_origin l2_timestamp get_block finalized
                (some (block top).timestamp)
                (some top)
                true
                fallback
                l2_end_block
              ≡ some head)
          × IsL1Head block top l2_time fallback safe head
    by_outcome (ok head) e fallback =
        (ok head, ok head, e, rw (e, get_l1_head) refl, by_safe_db head refl)
    by_outcome panic e fallback = (panic, panic, e, rw (e, get_l1_head) refl, panicked refl)
    by_outcome (err x) e false = (err x, err x, e, rw (e, get_l1_head) refl, refused x refl refl)
    by_outcome (err x) e true =
        let (k, first, found) =
          find_block_by_timestamp-IsFirstAt get_block block top
            (min (l2_time + 40 * 60) (block top).timestamp) history small
            (omega (arith, started, first_le)) (omega arith) in
        let in_range : leb (2 ^ 64) (l2_time + 40 * 60) ≡ false = ground arith in
        (
          err x,
          ok ((block k).hash, k),
          e,
          rw (e, get_l1_head) (rw (timed, estimate) (rw in_range found)),
          by_estimate x k refl refl first,
        )
