-- ===== src/Fetcher.antt =====
-- The searches of the data fetcher, utils/host/src/fetcher.rs, over what the nodes answer.
pub mod Search
pub mod Timestamps
pub mod SafeBlocks
pub mod Headers
pub mod Preimages
use Prim.Native.Nat.{compare, Ordering}
use mina_evm_l.Prelude.{
  ◌⊎◌, inl, inr, ℕ, zero, suc, ◌+◌, ◌-◌, ◌*◌, ◌/◌, ◌^◌, min, Bool, true, false, Option, none, some,
  List, [], ◌∷◌, ltb, leb, ◌==◌, if◌then◌else◌,
}
use mina_evm_l.Request.{B256}
use mina_evm_l.World.{Outcome, ok, err, panic, rpc_error}
use mina_evm_l.Aggregation.{BootInfo}
pub use mina_evm_l.World.Outcomes.{◌>>=◌, or_err}

pub record Block : Type 0 where
  pub hash : B256
  pub number : ℕ
  pub timestamp : ℕ

-- A header of L1, with its number, its hash and its parent's hash.
pub record L1Header : Type 0 where
  pub number : ℕ
  pub hash : B256
  pub parent_hash : B256
  pub timestamp : ℕ

-- `SafeHeadResponse`: a block of L1 and the number of the L2 block that is safe by it.
pub record SafeHeadResponse : Type 0 where
  pub l1_block : B256 × ℕ
  pub safe_head : ℕ

-- A loop that ran out of fuel has no outcome; theorems show that the fuel is enough.
abbrev pub Run : Type 0 → Type 0
Run A = Option (Outcome A)

abbrev pub then_run : {A B : Type 0} → Outcome A → (A → Run B) → Run B
then_run (ok a) f = f a
then_run (err e) f = some (err e)
then_run panic f = some panic

abbrev pub run_then : {A B : Type 0} → Run A → (A → Outcome B) → Run B
run_then none f = none
run_then (some r) f = some (r >>= f)

abbrev pub id_of : Block → B256 × ℕ
id_of block = (block.hash, block.number)

module _ (get_block : ℕ → Option Block) (target_timestamp : ℕ) where
  -- The loop of `find_block_by_timestamp`. A found block ends it, or else the bound that was reached. The
  -- sum of the bounds may overflow, and `mid - 1` may go below zero: both panic.
  pub seek : ℕ → ℕ → ℕ → Run (Block ⊎ ℕ)
  seek zero low high = none
  seek (suc fuel) low high =
      if ltb high low
      then some (ok (inr low))
      else if leb (2 ^ 64) (low + high)
      then some panic
      else (let mid = (low + high) / 2 in
          elim (get_block mid) [
            | none ↦ some (err rpc_error)
            | some block ↦ elim (compare block.timestamp target_timestamp) [
              | Ordering.eq ↦ some (ok (inl block))
              | Ordering.lt ↦ seek fuel (mid + 1) high
              | Ordering.gt ↦ elim (mid == 0) [
                | true ↦ some panic
                | false ↦ seek fuel low (mid - 1)
              ]
            ]
          ])

  abbrev pub sought : Block ⊎ ℕ → Outcome (B256 × ℕ)
  sought (inl block) = ok (id_of block)
  sought (inr low) = or_err (get_block low) >>= λ block. ok (id_of block)

  -- With the number of the finalized block, if there is one.
  unfoldable pub find_block_by_timestamp : Option ℕ → Run (B256 × ℕ)
  unfolding seek
  find_block_by_timestamp latest =
      then_run (or_err latest) (λ high. run_then (seek (suc (suc high)) 0 high) sought)

module _ (safe_head_at : ℕ → Option SafeHeadResponse) (l2_end_block : ℕ) where
  -- The loop of `get_safe_l1_block_for_l2_block`.
  pub seek_safe : ℕ → ℕ → ℕ → Option (B256 × ℕ) → Run (Option (B256 × ℕ))
  seek_safe zero low high first_valid = none
  seek_safe (suc fuel) low high first_valid =
      if ltb high low
      then some (ok first_valid)
      else (let mid = low + (high - low) / 2 in
          elim (safe_head_at mid) [
            | none ↦ some (err rpc_error)
            | some result ↦ elim (leb l2_end_block result.safe_head) [
              | true ↦ elim (mid == 0) [
                | true ↦ some panic
                | false ↦ seek_safe fuel low (mid - 1) (some result.l1_block)
              ]
              | false ↦ seek_safe fuel (mid + 1) high first_valid
            ]
          ])

  -- With the number of the finalized L1 block and that of the L1 origin of the L2 block.
  unfoldable pub get_safe_l1_block_for_l2_block : Option ℕ → Option ℕ → Run (B256 × ℕ)
  unfolding seek_safe
  get_safe_l1_block_for_l2_block finalized l1_origin = then_run (or_err finalized) (λ high.
      then_run (or_err l1_origin)
        (λ low. run_then (seek_safe (suc (suc high)) low high none) or_err))

-- The estimate of the L1 head where the safe head database cannot tell: the block at 40 minutes past the L2
-- block, or at the time of the finalized block.
pub estimate : (ℕ → Option Block) → Option ℕ → Option ℕ → Option ℕ → Run (B256 × ℕ)
estimate get_block latest l2_timestamp finalized_timestamp =
    then_run (or_err l2_timestamp) (λ l2_time.
      then_run (or_err finalized_timestamp) (λ finalized_time.
        if leb (2 ^ 64) (l2_time + 40 * 60)
        then some panic
        else find_block_by_timestamp get_block (min (l2_time + 40 * 60) finalized_time) latest))

-- `get_l1_head`, with what the nodes answer: the safe heads, the L1 origin and the timestamp of an L2 block, the
-- blocks of L1, and the finalized one, each time that it is asked for.
unfoldable pub get_l1_head :
    (ℕ → Option SafeHeadResponse)
    → (ℕ → Option ℕ)
    → (ℕ → Option ℕ)
    → (ℕ → Option Block)
    → Option ℕ
    → Option ℕ
    → Option ℕ
    → Bool
    → Bool
    → ℕ
    → Run (B256 × ℕ)
unfolding get_safe_l1_block_for_l2_block estimate
get_l1_head safe_head_at l1_origin l2_timestamp get_block finalized finalized_timestamp latest
      has_rollup_config safe_db_fallback l2_end_block =
    if has_rollup_config
    then elim (get_safe_l1_block_for_l2_block safe_head_at l2_end_block finalized
        (l1_origin l2_end_block)) [
          | none ↦ none
          | some (ok head) ↦ some (ok head)
          | some panic ↦ some panic
          | some (err e) ↦
              if safe_db_fallback
              then estimate get_block latest (l2_timestamp l2_end_block) finalized_timestamp
              else some (err e)
        ]
    else some (err rpc_error)

-- What the L1 node answers for a hash and for a number.
module _ (header_of : B256 → Option L1Header) (header_at : ℕ → Option L1Header) where
  -- The loop over the boot infos, with the earliest header so far.
  pub earliest : ℕ → Option L1Header → List BootInfo → Outcome (Option L1Header)
  earliest number header [] = ok header
  earliest number header (boot_info ∷ boot_infos) = or_err (header_of boot_info.l1_head) >>= λ h.
      earliest (if ltb h.number number then h.number else number)
        (if ltb h.number number then some h else header) boot_infos

  abbrev pub unwrapped : Option L1Header → Outcome L1Header
  unwrapped none = panic
  unwrapped (some header) = ok header

  -- From u64::MAX on.
  pub get_earliest_l1_head_in_batch : List BootInfo → Outcome L1Header
  unfolding earliest
  get_earliest_l1_head_in_batch boot_infos = earliest (2 ^ 64 - 1) none boot_infos >>= unwrapped

  pub latest : ℕ → Option L1Header → List BootInfo → Outcome (Option L1Header)
  latest number header [] = ok header
  latest number header (boot_info ∷ boot_infos) = or_err (header_of boot_info.l1_head) >>= λ h.
      latest (if ltb number h.number then h.number else number)
        (if ltb number h.number then some h else header) boot_infos

  unfoldable pub get_latest_l1_head_in_batch : List BootInfo → Outcome L1Header
  unfolding latest
  get_latest_l1_head_in_batch boot_infos = latest 0 none boot_infos >>= or_err

  -- The headers of `count` blocks from `start` on, in order.
  pub headers_from : ℕ → ℕ → Outcome (List L1Header)
  headers_from start zero = ok []
  headers_from start (suc count) = or_err (header_at start) >>= λ header.
      headers_from (start + 1) count >>= λ headers. ok (header ∷ headers)

  pub fetch_headers_in_range : ℕ → ℕ → Outcome (List L1Header)
  unfolding headers_from
  fetch_headers_in_range start end = headers_from start (end + 1 - start)

  pub get_header_preimages : List BootInfo → B256 → Outcome (List L1Header)
  unfolding get_earliest_l1_head_in_batch fetch_headers_in_range
  get_header_preimages boot_infos checkpoint_block_hash =
      get_earliest_l1_head_in_batch boot_infos >>= λ start.
      or_err (header_of checkpoint_block_hash) >>= λ end.
      fetch_headers_in_range start.number end.number
