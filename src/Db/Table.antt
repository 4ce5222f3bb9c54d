-- ===== src/Db/Table.antt =====
-- The tables of validity/migrations, and the conditions that the queries share.
use mina_evm_l.Prelude.{
  ℕ, Bool, true, false, ◌&&◌, ◌||◌, Option, none, some, List, [], ◌∷◌, map, ◌==◌, leb,
  if◌then◌else◌,
}
use mina_evm_l.Request.{RequestStatus, is_status, Request, CommitmentConfig}

pub record ChainLock : Type 0 where
  pub l1_chain_id : ℕ
  pub l2_chain_id : ℕ
  pub locked_at : ℕ

-- `next_id` is the sequence behind BIGSERIAL.
pub record Db : Type 0 where
  pub requests : List Request
  pub next_id : ℕ
  pub chain_locks : List ChainLock

-- A comparison with a column that may be NULL.
abbrev pub is_value : Option ℕ → ℕ → Bool
is_value none v = false
is_value (some u) v = u == v

abbrev pub is_some {ℓ} : {A : Type ℓ} → Option A → Bool
is_some none = false
is_some (some _) = true

-- range_vkey_commitment = $ AND rollup_config_hash = $
abbrev pub same_commitment : CommitmentConfig → Request → Bool
same_commitment c r =
    r.range_vkey_commitment == c.range_vkey_commitment
    && r.rollup_config_hash == c.rollup_config_hash

-- ... AND aggregation_vkey_hash = $
abbrev pub same_agg_commitment : CommitmentConfig → Request → Bool
same_agg_commitment c r = same_commitment c r && is_value r.aggregation_vkey_hash c.agg_vkey_hash

-- l1_chain_id = $ AND l2_chain_id = $
abbrev pub same_chain : ℕ → ℕ → Request → Bool
same_chain l1 l2 r = r.l1_chain_id == l1 && r.l2_chain_id == l2

-- status = ANY($)
abbrev pub is_any : List RequestStatus → RequestStatus → Bool
is_any [] s = false
is_any (t ∷ statuses) s = is_status s t || is_any statuses s

-- UPDATE requests SET ... WHERE ...
abbrev pub update_where : (Request → Bool) → (Request → Request) → List Request → List Request
update_where p f rows = map (λ r. if p r then f r else r) rows

-- ORDER BY start_block ASC LIMIT 1
unfoldable pub first_by_start : List Request → Option Request
first_by_start [] = none
first_by_start (r ∷ rows) = elim (first_by_start rows) [
  | none ↦ some r
  | some s ↦ some (if leb r.start_block s.start_block then r else s)
]

-- ORDER BY end_block DESC LIMIT 1
unfoldable pub highest_end : List Request → Option ℕ
highest_end [] = none
highest_end (r ∷ rows) = elim (highest_end rows) [
  | none ↦ some r.end_block
  | some e ↦ some (if leb e r.end_block then r.end_block else e)
]
