-- ===== src/Proposer/Aggregate/Validated.antt =====
-- Whether an aggregation request that `create_aggregation_proofs` asks for is accepted by
-- `validate_aggregation_request` (validity/src/proposer.rs), on one state of the database.
use mathlib.Core.Path.{subst}
use mina_evm_l.Prelude.{
  ℕ, ◌≤◌, ◌≡◌, ◌≢◌, ◌↔◌, refl, sym, ◌∙◌, true, some, List, [], ◌∷◌, arith, leb, map, filter, All,
  All-filter, All-weaken, sort_by,
}
use mina_evm_l.Ranges.{Range, IsSorted}
use mina_evm_l.Request.{Request, CommitmentConfig}
use mina_evm_l.Db.Table.{Db}
use mina_evm_l.Db.Queries.{blocks, fetch_completed_ranges, get_consecutive_complete_range_proofs}
use mina_evm_l.Proposer.Aggregate.{
  extend_end, get_highest_proven_contiguous_block, validate_aggregation_request,
}
use mina_evm_l.Proposer.Aggregate.Linked.{IsLinked, validate_aggregation_request-IsLinked}
use mina_evm_l.Proposer.Aggregate.Spaced.{
  IsSpaced, IsDisjoint, IsDisjoint-IsSpaced, IsLinked-filter, done_rows, proofs-done, done-later,
  ranges-IsSorted, highest-sorted,
}

-- Rows that start with `first` and the rest, up to where the contiguous ones end.
filter-IsLinked :
    (first : Request) (rows : List Request) (h : ℕ)
    → h ≡ extend_end first.end_block (map blocks rows)
    → IsSpaced first.start_block (map blocks (first ∷ rows))
    → (filter (λ r. leb r.end_block h) (first ∷ rows) ≢ [])
      × IsLinked first.start_block h (map blocks (filter (λ r. leb r.end_block h) (first ∷ rows)))
filter-IsLinked first rows h eq s =
    let (le, linked) = IsLinked-filter first.end_block h rows eq s.2 in
    let kept : leb first.end_block h ≡ true = ground (arith, le) in
    rw kept ((λ e. cc, (refl, linked)))

head-IsLinked :
    (lo start end : ℕ) (rows : List Request)
    → rows ≢ []
    → All (λ r. lo ≤ r.start_block) rows
    → IsLinked start end (map blocks rows)
    → lo ≤ start
head-IsLinked lo start end [] filled h l = absurd (filled refl)
head-IsLinked lo start end (r ∷ rows) filled h l = omega (arith, h.0, l.0)

starts_later :
    (lo : ℕ) (rows : List Request)
    → IsSpaced lo (map blocks rows)
    → All (λ r. lo ≤ r.start_block) rows
starts_later lo [] s = tt
starts_later lo (r ∷ rows) s = (
  s.0,
  All-weaken (λ x (le : r.end_block ≤ x.start_block). omega (arith, s.0, s.1)) rows
      (starts_later r.end_block rows s.2),
)

rows-validate :
    (first : Request) (rows : List Request) (agg : Request)
    → agg.end_block ≡ extend_end first.end_block (map blocks rows)
    → agg.start_block ≤ first.start_block
    → IsSpaced first.start_block (map blocks (first ∷ rows))
    → (validate_aggregation_request (filter (λ r. leb r.end_block agg.end_block) (first ∷ rows)) agg
        ≡ true)
      ↔ (first.start_block ≡ agg.start_block)
rows-validate first rows agg eq le s =
    let taken = filter (λ r. leb r.end_block agg.end_block) (first ∷ rows) in
    let (there, back) = validate_aggregation_request-IsLinked taken agg in
    let (filled, linked) = filter-IsLinked first rows agg.end_block eq s in
    (
      λ h.
          let (some_row, l) = there h in
          let above =
            head-IsLinked first.start_block agg.start_block agg.end_block taken some_row
              (All-filter (λ r. first.start_block ≤ r.start_block)
                (λ r. leb r.end_block agg.end_block) (first ∷ rows)
                (starts_later first.start_block (first ∷ rows) s))
              l in
          omega arith,
      λ e. back (filled, subst (λ (n : ℕ). IsLinked n agg.end_block (map blocks taken)) e linked),
    )

validates-rows :
    (rows : List Request) (agg : Request) (first : Range) (rest : List Range)
    → map blocks rows ≡ first ∷ rest
    → get_highest_proven_contiguous_block (map blocks rows) ≡ some agg.end_block
    → All (λ r. agg.start_block ≤ r.start_block) rows
    → IsDisjoint (first ∷ rest)
    → IsSorted 0 (map blocks rows)
    → (validate_aggregation_request (filter (λ r. leb r.end_block agg.end_block) rows) agg ≡ true)
      ↔ (first.0 ≡ agg.start_block)
unfolding get_highest_proven_contiguous_block
validates-rows [] agg first rest eq high above disjoint sorted = absurd cc
validates-rows (r ∷ rows) agg first rest eq high above disjoint sorted =
    let spaced =
      IsDisjoint-IsSpaced 0 (map blocks (r ∷ rows))
        (subst (λ (rs : List Range). IsDisjoint rs) (sym eq) disjoint) sorted in
    let head : blocks r ≡ first = cc in
    let end_eq : agg.end_block ≡ extend_end r.end_block (map blocks rows) = cc in
    subst
      (λ (f : Range).
        (validate_aggregation_request (filter (λ r. leb r.end_block agg.end_block) (r ∷ rows)) agg
          ≡ true)
        ↔ (f.0 ≡ agg.start_block))
      head (rows-validate r rows agg end_eq above.0 (omega arith, spaced.1, spaced.2))

-- An aggregation request from the block that the completed range proofs are fetched from to the highest
-- proven contiguous block. If those ranges have blocks and no block is in two of them, the request
-- validates against the same database exactly when the first range starts at the request's start block.
pub get_highest_proven_contiguous_block-validates :
    (c : CommitmentConfig) (l1 l2 : ℕ) (db : Db) (agg : Request) (first : Range) (rest : List Range)
    → fetch_completed_ranges c agg.start_block l1 l2 db ≡ first ∷ rest
    → IsDisjoint (first ∷ rest)
    → get_highest_proven_contiguous_block
        (sort_by (λ (r : Range). r.0) (fetch_completed_ranges c agg.start_block l1 l2 db))
      ≡ some agg.end_block
    → (validate_aggregation_request
          (get_consecutive_complete_range_proofs agg.start_block agg.end_block c l1 l2 db)
          agg
        ≡ true)
      ↔ (first.0 ≡ agg.start_block)
unfolding fetch_completed_ranges
get_highest_proven_contiguous_block-validates c l1 l2 db agg first rest eq disjoint high =
    rw (proofs-done c l1 l2 agg.start_block agg.end_block db) (
      validates-rows (done_rows c l1 l2 agg.start_block db) agg first rest eq
        (sym (highest-sorted c l1 l2 agg.start_block db) ∙ high)
        (done-later c l1 l2 agg.start_block db) disjoint
        (ranges-IsSorted c l1 l2 agg.start_block db))
