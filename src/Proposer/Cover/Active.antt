-- ===== src/Proposer/Cover/Active.antt =====
-- The active range requests of the database, and new ones among them (validity/src/proposer.rs).
use mina_evm_l.Prelude.{
  ℕ, suc, ◌+◌, ◌≤◌, ◌≡◌, refl, ap, ◌∙◌, inl, inr, true, Bool, some, List, [], ◌∷◌, ◌++◌, arith,
  Bool-cases, map, filter, All, Both,
}
use mina_evm_l.Ranges.{Range, cover}
use mina_evm_l.Request.{Request, BlockInfo, Config, new_range_request}
use mina_evm_l.Request.Totals.{new_range_request-row}
use mina_evm_l.Db.Table.{Db}
use mina_evm_l.Db.Queries.{blocks, is_range_after, fetch_ranges_after_block}
use mina_evm_l.Db.Updates.{insert_requests}
use mina_evm_l.Db.Inserted.{numbered, insert_requests_lem}
use mina_evm_l.Proposer.Chain.{mode_of}
use mina_evm_l.Proposer.Cover.{active}

-- The blocks of the active range requests of this configuration from `latest` on.
abbrev pub active_ranges : Config → ℕ → Db → List Range
active_ranges config latest db =
    fetch_ranges_after_block active latest config.commitments config.l1_chain_id config.l2_chain_id
      db

-- The row is a new range request of this configuration.
abbrev pub IsNew : Config → Range → Request → Type 0
IsNew config range r =
    (block_data : List BlockInfo) × (now : ℕ) × (new_range_request (mode_of config.mock) range.0
        range.1 config.commitments.range_vkey_commitment config.commitments.rollup_config_hash
        block_data config.l1_chain_id config.l2_chain_id now
      ≡ some r)

new-is_range_after :
    (config : Config) (latest id : ℕ) (range : Range) (r : Request)
    → IsNew config range r
    → latest ≤ range.0
    → is_range_after active latest config.commitments config.l1_chain_id config.l2_chain_id
        (record r { id = id })
      ≡ true
new-is_range_after config latest id range r (block_data, now, e) le =
    let (totals, e') = new_range_request-row _ _ _ _ _ block_data _ _ now r e in
    rw e' (ground arith)

new-blocks :
    (config : Config) (range : Range) (r : Request) → IsNew config range r → blocks r ≡ range
new-blocks config range r (block_data, now, e) =
    let (totals, e') = new_range_request-row _ _ _ _ _ block_data _ _ now r e in rw e' refl

module _ (config : Config) (latest : ℕ) where
  abbrev is_active : Request → Bool
  is_active r =
      is_range_after active latest config.commitments config.l1_chain_id config.l2_chain_id r

  -- New rows count as active ranges.
  cover-numbered :
      (b n : ℕ) (ranges : List Range) (rows : List Request)
      → Both (IsNew config) ranges rows
      → All (λ r. latest ≤ r.0) ranges
      → cover b (map blocks (filter is_active (numbered n rows))) ≡ cover b ranges
  unfolding numbered
  cover-numbered b n [] [] h le = refl
  cover-numbered b n [] (r ∷ rows) h le = absurd h
  cover-numbered b n (x ∷ ranges) [] h le = absurd h
  cover-numbered b n (x ∷ ranges) (r ∷ rows) h le =
      rw (new-is_range_after config latest n x r h.0 le.0)
        (cc (cover-numbered b (suc n) ranges rows h.1 le.1, new-blocks config x r h.0))

  cover-filter-append :
      (b : ℕ) (xs ys : List Request)
      → cover b (map blocks (filter is_active (xs ++ ys)))
        ≡ cover b (map blocks (filter is_active xs)) + cover b (map blocks (filter is_active ys))
  cover-filter-append b [] ys = omega arith
  cover-filter-append b (r ∷ xs) ys = elim (Bool-cases (is_active r)) [
    | inl e ↦ rw e (omega (arith, cover-filter-append b xs ys))
    | inr e ↦ rw e (cover-filter-append b xs ys)
  ]

  pub cover-inserted :
      (before : Db) (b : ℕ) (ranges : List Range) (rows : List Request)
      → Both (IsNew config) ranges rows
      → All (λ r. latest ≤ r.0) ranges
      → cover b (active_ranges config latest (insert_requests rows before))
        ≡ cover b (active_ranges config latest before) + cover b ranges
  unfolding fetch_ranges_after_block
  cover-inserted before b ranges rows new le = rw ((insert_requests_lem rows before).0) (
      cover-filter-append b before.requests (numbered before.next_id rows)
      ∙ ap (λ (n : ℕ). cover b (map blocks (filter is_active before.requests)) + n)
          (cover-numbered b before.next_id ranges rows new le))
