-- ===== src/Proposer/Aggregate/Spaced.antt =====
-- The rows and ranges of completed range proofs in which no block is in two
-- (validity/src/proposer.rs).
use mina_evm_l.Prelude.{
  ℕ, ◌≤◌, ◌<◌, ◌≡◌, sym, ap, ◌∙◌, inl, inr, Bool, true, false, ◌&&◌, List, [], ◌∷◌, arith, leb,
  ◌==◌, Bool-cases, map, filter, All, All-filter_holds, All-sort_by, All-weaken, sort_by,
  sort_by-IsSorted, sort_by-id, IsSorted-map, filter-filter, filter-none, filter-sort_by,
}
use mina_evm_l.Ranges.{Range, cover, IsSorted}
use mina_evm_l.Request.{Request, complete, CommitmentConfig}
use mina_evm_l.Db.Table.{Db}
use mina_evm_l.Db.Queries.{
  blocks, is_range_after, is_complete_between, fetch_completed_ranges,
  get_consecutive_complete_range_proofs,
}
use mina_evm_l.Proposer.Aggregate.{extend_end, get_highest_proven_contiguous_block}
use mina_evm_l.Proposer.Aggregate.Linked.{IsLinked}

-- Ranges with blocks, each from the end of the one before or later.
abbrev pub IsSpaced : ℕ → List Range → Type 0
IsSpaced lo [] = Unit
IsSpaced lo (r ∷ ranges) = (lo ≤ r.0) × (r.0 < r.1) × IsSpaced r.1 ranges

-- The ranges have blocks, and no block is in two of them.
pub record IsDisjoint (ranges : List Range) : Type 0 where
  pub filled : All (λ r. r.0 < r.1) ranges
  pub once : (b : ℕ) → cover b ranges ≤ 1

IsSorted-after :
    (x y : ℕ) (ranges : List Range)
    → x < y
    → IsDisjoint ((x, y) ∷ ranges)
    → IsSorted x ranges
    → IsSorted y ranges
IsSorted-after x y [] lt d h = tt
IsSorted-after x y ((u, v) ∷ ranges) lt d h = (ground (arith, d.filled.1.0, d.once u), h.1)

pub IsDisjoint-IsSpaced :
    (lo : ℕ) (ranges : List Range) → IsDisjoint ranges → IsSorted lo ranges → IsSpaced lo ranges
IsDisjoint-IsSpaced lo [] d h = tt
IsDisjoint-IsSpaced lo ((x, y) ∷ ranges) d h = (
  h.0,
  d.filled.0,
  IsDisjoint-IsSpaced y ranges (record { filled = d.filled.1; once = λ b. omega (arith, d.once b) })
      (IsSorted-after x y ranges d.filled.0 d h.1),
)

-- Rows from beyond `h` on do not end by it.
beyond :
    (h lo : ℕ) (rows : List Request)
    → h < lo
    → IsSpaced lo (map blocks rows)
    → All (λ r. leb r.end_block h ≡ false) rows
beyond h lo [] lt s = tt
beyond h lo (r ∷ rows) lt s =
    (ground (arith, s.0, s.1), beyond h r.end_block rows (omega (arith, s.0, s.1)) s.2)

extend_end-here :
    (e : ℕ) (r : Range) (ranges : List Range)
    → r.0 ≡ e
    → extend_end e (r ∷ ranges) ≡ extend_end r.1 ranges
unfolding extend_end
extend_end-here e r ranges h = ground (arith, h)

extend_end-gap : (e : ℕ) (r : Range) (ranges : List Range) → e < r.0 → extend_end e (r ∷ ranges) ≡ e
unfolding extend_end
extend_end-gap e r ranges h = ground (arith, h)

-- The rows that end by where the contiguous ones end are the contiguous ones.
pub IsLinked-filter :
    (e h : ℕ) (rows : List Request)
    → h ≡ extend_end e (map blocks rows)
    → IsSpaced e (map blocks rows)
    → (e ≤ h) × IsLinked e h (map blocks (filter (λ r. leb r.end_block h) rows))
unfolding extend_end
IsLinked-filter e h [] eq s = (omega (arith, eq), sym eq)
IsLinked-filter e h (r ∷ rows) eq s = elim (Bool-cases (r.start_block == e)) [
  | inl here ↦
      let start : r.start_block ≡ e = ground arith in
      let (le, linked) =
        IsLinked-filter r.end_block h rows (eq ∙ extend_end-here e (blocks r) _ start) s.2 in
      let kept : leb r.end_block h ≡ true = ground (arith, le) in
      (omega (arith, s.0, s.1, le), rw kept (start, linked))
  | inr gap ↦
      let later : e < r.start_block = ground (arith, s.0) in
      let stop : h ≡ e = eq ∙ extend_end-gap e (blocks r) _ later in
      (
        omega arith,
        rw
            (filter-none (λ x. leb x.end_block h) (r ∷ rows)
              (beyond h r.start_block (r ∷ rows) (omega arith) (omega arith, s.1, s.2)))
            (sym stop),
      )
]

module _ (c : CommitmentConfig) (l1 l2 latest : ℕ) where
  abbrev is_done : Request → Bool
  is_done r = is_range_after (complete ∷ []) latest c l1 l2 r

  abbrev pub done_rows : Db → List Request
  done_rows db = sort_by (λ r. r.start_block) (filter is_done db.requests)

  between-done :
      (h : ℕ) (r : Request)
      → is_complete_between latest h c l1 l2 r ≡ (is_done r && leb r.end_block h)
  between-done h r = ground arith

  pub proofs-done :
      (h : ℕ) (db : Db)
      → get_consecutive_complete_range_proofs latest h c l1 l2 db
        ≡ filter (λ r. leb r.end_block h) (done_rows db)
  unfolding get_consecutive_complete_range_proofs
  proofs-done h db =
      ap (λ (rs : List Request). sort_by (λ r. r.start_block) rs)
        (sym (
          filter-filter is_done (λ r. leb r.end_block h) (is_complete_between latest h c l1 l2)
            (between-done h) db.requests))
      ∙ sym (
          filter-sort_by (λ r. r.start_block) (λ r. leb r.end_block h) (filter is_done db.requests))

  pub done-later : (db : Db) → All (λ r. latest ≤ r.start_block) (done_rows db)
  done-later db =
      All-sort_by (λ r. r.start_block) (λ r. latest ≤ r.start_block) (filter is_done db.requests)
        (All-weaken (λ r (e : is_done r ≡ true). ground arith) (filter is_done db.requests)
          (All-filter_holds is_done db.requests))

  pub ranges-IsSorted : (db : Db) → IsSorted 0 (fetch_completed_ranges c latest l1 l2 db)
  unfolding fetch_completed_ranges
  ranges-IsSorted db =
      IsSorted-map (λ r. r.0) blocks 0 (done_rows db)
        (sort_by-IsSorted (λ r. r.start_block) (filter is_done db.requests))

  -- Sorting the ranges that the query has sorted changes nothing.
  pub highest-sorted :
      (db : Db)
      → get_highest_proven_contiguous_block
          (sort_by (λ (r : Range). r.0) (fetch_completed_ranges c latest l1 l2 db))
        ≡ get_highest_proven_contiguous_block (fetch_completed_ranges c latest l1 l2 db)
  highest-sorted db =
      ap get_highest_proven_contiguous_block (sort_by-id (λ r. r.0) 0 _ (ranges-IsSorted db))
