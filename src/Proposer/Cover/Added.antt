-- ===== src/Proposer/Cover/Added.antt =====
-- `add_new_ranges` on the database (validity/src/proposer.rs).
use mathlib.Core.Path.{subst}
use mina_evm_l.Prelude.{
  ℕ, ◌+◌, ◌≤◌, ◌<◌, ◌≡◌, refl, sym, true, ◌&&◌, some, List, [], ◌∷◌, arith, ltb, leb, ◌==◌,
  if◌then◌else◌, All, Both, length,
}
use mina_evm_l.Ranges.{Range, cover, is_short, i64_max}
use mina_evm_l.Request.{Request, Config}
use mina_evm_l.World.{World, or_err, rpc_error, ◌>>=◌}
use mina_evm_l.World.Triple.{
  After, After-weaken, Triple, Triple-pure, Triple-or_err, Triple-unwrap, Triple-unwrap,
  Triple-query, Triple-execute, Triple-bind, Triple-collect, Triple-subst,
}
use mina_evm_l.Env.{Env}
use mina_evm_l.Db.Table.{Db}
use mina_evm_l.Db.Updates.{insert_requests}
use mina_evm_l.Requester.{create_range_request}
use mina_evm_l.Proposer.Chain.{mode_of, get_latest_proposed_block_number}
use mina_evm_l.Proposer.Cover.{insert_ranges, add_ranges_up_to, add_new_ranges}
use mina_evm_l.Proposer.Cover.Tiling.{IsBefore, ranges_to_prove_lem, starts_above}
use mina_evm_l.Proposer.Cover.Active.{active_ranges, IsNew, cover-inserted}

-- `after` is `before` with new range requests: the blocks from `latest` to `finalized` that no active
-- request had are in one new request each, but for those of at most one range that is shorter than
-- the interval; all other blocks are in as many active requests as before.
pub record IsTiled (config : Config) (latest finalized : ℕ) (before after : Db) : Type 0 where
  pub dropped : List Range
  pub few : length dropped ≤ 1
  pub short : All (λ r. is_short config.range_proof_interval r ≡ true) dropped
  pub covered :
      (b : ℕ)
      → cover b (active_ranges config latest after) + cover b dropped
        ≡ cover b (active_ranges config latest before)
          + (if leb latest b && ltb b finalized && cover b (active_ranges config latest before) == 0
              then 1
              else 0)

-- No block is in two active requests, and the blocks from `latest` to `finalized` are in one.
pub record IsOnce (config : Config) (latest finalized : ℕ) (before after : Db) : Type 0 where
  pub dropped : List Range
  pub few : length dropped ≤ 1
  pub short : All (λ r. is_short config.range_proof_interval r ≡ true) dropped
  pub once : (b : ℕ) → cover b (active_ranges config latest after) ≤ 1
  pub all :
      (b : ℕ)
      → cover b (active_ranges config latest after) + cover b dropped ≡ (
          if leb latest b && ltb b finalized
          then 1
          else cover b (active_ranges config latest before))

module _ (env : Env) (config : Config) (latest finalized : ℕ) (before : Db) where
  create-IsNew :
      (range : Range)
      → Triple
          (λ w. w.db ≡ before)
          (λ r w. IsNew config range r × (w.db ≡ before))
          (λ w. w.db ≡ before)
          (create_range_request env config
            (mode_of config.mock)
            range.0
            range.1
            config.commitments.range_vkey_commitment
            config.commitments.rollup_config_hash
            config.l1_chain_id
            config.l2_chain_id)
  unfolding create_range_request
  create-IsNew range =
      Triple-bind (λ _ w. w.db ≡ before) _ _ (Triple-or_err _ _ (λ _ _ w h. h) (λ w h. h))
        (λ blocks. Triple-unwrap _ (λ r e w h. ((blocks, env.local_now, e), h)) (λ w h. h))

  inserted :
      (ranges dropped : List Range) (rows : List Request)
      → Both (IsNew config) ranges rows
      → All (λ r. latest ≤ r.0) ranges
      → length dropped ≤ 1
      → All (λ r. is_short config.range_proof_interval r ≡ true) dropped
      → ((b : ℕ)
          → cover b ranges + cover b dropped ≡ (
              if leb latest b
                && ltb b finalized
                && cover b (active_ranges config latest before) == 0
              then 1
              else 0))
      → IsTiled config latest finalized before (insert_requests rows before)
  inserted ranges dropped rows new le few short tiled = record {
    dropped = dropped;
    few = few;
    short = short;
    covered = λ b. omega (arith, cover-inserted config latest before b ranges rows new le, tiled b);
  }

  abbrev Unchanged : World → Type 0
  Unchanged w = w.db ≡ before

  insert_ranges-IsTiled :
      (ranges dropped : List Range)
      → All (λ r. latest ≤ r.0) ranges
      → length dropped ≤ 1
      → All (λ r. is_short config.range_proof_interval r ≡ true) dropped
      → ((b : ℕ)
          → cover b ranges + cover b dropped ≡ (
              if leb latest b
                && ltb b finalized
                && cover b (active_ranges config latest before) == 0
              then 1
              else 0))
      → Triple Unchanged
          (λ _ w. IsTiled config latest finalized before w.db)
          Unchanged
          (insert_ranges env config ranges)
  unfolding insert_ranges
  insert_ranges-IsTiled [] dropped le few short tiled = Triple-pure tt (λ w e. record {
    dropped = dropped;
    few = few;
    short = short;
    covered = λ b. rw e (omega (arith, tiled b));
  })
  insert_ranges-IsTiled (r ∷ ranges) dropped le few short tiled =
      Triple-bind (λ rows w. Both (IsNew config) (r ∷ ranges) rows × (w.db ≡ before)) _ _
        (Triple-collect (IsNew config) (r ∷ ranges) _ create-IsNew)
        (λ rows.
          Triple-execute _
            (λ w faults h.
              subst (λ (db : Db). IsTiled config latest finalized before (insert_requests rows db))
                (sym h.1) (inserted (r ∷ ranges) dropped rows h.0 le few short tiled))
            (λ w faults h. h.1))

  -- On success the active ranges tile the blocks up to the finalized one; on an error or a panic the
  -- database is as before.
  add_ranges_up_to-IsTiled :
      0 < config.range_proof_interval
      → finalized + config.range_proof_interval ≤ i64_max
      → All (IsBefore finalized) (active_ranges config latest before)
      → Triple Unchanged
          (λ _ w. IsTiled config latest finalized before w.db)
          Unchanged
          (add_ranges_up_to env config latest (some finalized))
  unfolding add_ranges_up_to
  add_ranges_up_to-IsTiled pos room good =
      let (ranges, dropped, eq, tiles, few, short, tiled) =
        ranges_to_prove_lem config.range_proof_interval latest finalized
          (active_ranges config latest before) pos room good in
      Triple-bind (λ found w. (found ≡ active_ranges config latest before) × (w.db ≡ before)) _ _
        (Triple-query _ (λ w faults e. (rw e, e)) (λ w faults e. e))
        (λ found.
          Triple-bind (λ rs w. (rs ≡ ranges) × (w.db ≡ before)) _ _
            (Triple-unwrap _ (λ rs e w h. (cc, h.1)) (λ w h. h.1))
            (λ rs. Triple-subst (insert_ranges env config) rs ranges (
              insert_ranges-IsTiled ranges dropped
                (starts_above latest config.range_proof_interval ranges tiles
                  (λ b lt. ground (arith, tiled b)))
                few short tiled)))

add_new_ranges-Triple :
    (env : Env) (config : Config) (latest finalized : ℕ) (before : Db)
    → env.latest_block_number ≡ some latest
    → env.finalized_block latest ≡ some (some finalized)
    → 0 < config.range_proof_interval
    → finalized + config.range_proof_interval ≤ i64_max
    → All (IsBefore finalized) (active_ranges config latest before)
    → Triple
        (λ w. w.db ≡ before)
        (λ _ w. IsTiled config latest finalized before w.db)
        (λ w. w.db ≡ before)
        (add_new_ranges env config)
unfolding add_new_ranges get_latest_proposed_block_number
add_new_ranges-Triple env config latest finalized before el ef pos room good =
    Triple-bind (λ n w. (n ≡ latest) × (w.db ≡ before)) _ _
      (Triple-bind (λ n w. (n ≡ latest) × (w.db ≡ before)) _ _
        (Triple-or_err _ _ (λ n e w h. (cc, h)) (λ w h. h))
        (λ n. Triple-unwrap _ (λ m e w h. (ground arith, h.1)) (λ w h. h.1)))
      (λ n.
        Triple-subst
          (λ (n : ℕ).
            or_err rpc_error (env.finalized_block n) >>= λ o. add_ranges_up_to env config n o)
          n latest
          (Triple-bind (λ o w. (o ≡ some finalized) × (w.db ≡ before)) _ _
            (Triple-or_err _ _ (λ o e w h. (cc, h)) (λ w h. h))
            (λ o.
              Triple-subst (add_ranges_up_to env config latest) o (some finalized)
                (add_ranges_up_to-IsTiled env config latest finalized before pos room good))))

-- `add_new_ranges`, told by the contract that `latest` is proposed and by the host that `finalized` is
-- final, with a positive interval, room for one more interval in an `i64`, and active requests that
-- start by `finalized` and do not end before they start: on success the active requests are tiled
-- (`IsTiled`), and on every error and panic the database is as it was.
pub add_new_ranges-IsTiled :
    (env : Env) (config : Config) (latest finalized : ℕ) (w : World)
    → env.latest_block_number ≡ some latest
    → env.finalized_block latest ≡ some (some finalized)
    → 0 < config.range_proof_interval
    → finalized + config.range_proof_interval ≤ i64_max
    → All (IsBefore finalized) (active_ranges config latest w.db)
    → After
        (λ _ w'. IsTiled config latest finalized w.db w'.db)
        (λ w'. w'.db ≡ w.db)
        (add_new_ranges env config w).0
        (add_new_ranges env config w).1
add_new_ranges-IsTiled env config latest finalized w el ef pos room good =
    (add_new_ranges-Triple env config latest finalized w.db el ef pos room good).at w refl

IsTiled-IsOnce :
    (config : Config) (latest finalized : ℕ) (before after : Db)
    → ((b : ℕ) → cover b (active_ranges config latest before) ≤ 1)
    → IsTiled config latest finalized before after
    → IsOnce config latest finalized before after
IsTiled-IsOnce config latest finalized before after one t = record {
  dropped = t.dropped;
  few = t.few;
  short = t.short;
  once = λ b. ground (arith, t.covered b, one b);
  all = λ b. ground (arith, t.covered b, one b);
}

-- Under the conditions of `add_new_ranges-IsTiled`, if no block is in two active requests, then none is
-- afterwards. On success each block from `latest` to `finalized` is in exactly one active request, but
-- for those of at most one range that is shorter than the interval, and any other block is in as many as
-- before (`IsOnce`).
pub add_new_ranges-IsOnce :
    (env : Env) (config : Config) (latest finalized : ℕ) (w : World)
    → env.latest_block_number ≡ some latest
    → env.finalized_block latest ≡ some (some finalized)
    → 0 < config.range_proof_interval
    → finalized + config.range_proof_interval ≤ i64_max
    → All (IsBefore finalized) (active_ranges config latest w.db)
    → ((b : ℕ) → cover b (active_ranges config latest w.db) ≤ 1)
    → After
        (λ _ w'. IsOnce config latest finalized w.db w'.db)
        (λ w'. (b : ℕ) → cover b (active_ranges config latest w'.db) ≤ 1)
        (add_new_ranges env config w).0
        (add_new_ranges env config w).1
add_new_ranges-IsOnce env config latest finalized w el ef pos room good one =
    After-weaken (λ _ w' t. IsTiled-IsOnce config latest finalized w.db w'.db one t)
      (λ w' same.
        subst (λ (db : Db). (b : ℕ) → cover b (active_ranges config latest db) ≤ 1) (sym same) one)
      (add_new_ranges env config w).0 (add_new_ranges env config w).1
      (add_new_ranges-IsTiled env config latest finalized w el ef pos room good)
