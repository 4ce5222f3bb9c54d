-- ===== src/Proposer/Aggregate/Linked.antt =====
-- Contiguous ranges: what `validate_aggregation_request` accepts, and how far
-- `get_highest_proven_contiguous_block` goes (validity/src/proposer.rs).
use mina_evm_l.Prelude.{
  ℕ, ◌≡◌, ◌≢◌, ◌↔◌, refl, ap, inl, inr, true, some, List, [], ◌∷◌, ◌++◌, arith, ◌==◌, Bool-cases,
  map,
}
use mina_evm_l.Ranges.{Range}
use mina_evm_l.Request.{Request}
use mina_evm_l.Db.Queries.{blocks}
use mina_evm_l.Proposer.Aggregate.{
  extend_end, get_highest_proven_contiguous_block, last_of, check_consecutive,
  validate_aggregation_request,
}

-- The ranges follow one another from `start` to `end`.
abbrev pub IsLinked : ℕ → ℕ → List Range → Type 0
IsLinked start end [] = start ≡ end
IsLinked start end (r ∷ ranges) = (r.0 ≡ start) × IsLinked r.1 end ranges

pub check_consecutive-IsLinked :
    (prev : Request) (proofs : List Request) (end : ℕ)
    → ((check_consecutive prev proofs ≡ true) × ((last_of prev proofs).end_block ≡ end))
      ↔ IsLinked prev.end_block end (map blocks proofs)
unfolding check_consecutive
check_consecutive-IsLinked prev [] end = (λ h. h.1, λ h. (refl, h))
check_consecutive-IsLinked prev (curr ∷ proofs) end =
    let (there, back) = check_consecutive-IsLinked curr proofs end in
    (
      λ h. (ground arith, there (ground arith, h.1)),
      λ h. let (e, l) = back h.1 in (ground arith, l),
    )

-- Range proofs are accepted for an aggregation request exactly when there is one at least and they
-- follow one another, without a gap or an overlap, from the request's start block to its end block.
pub validate_aggregation_request-IsLinked :
    (proofs : List Request) (agg : Request)
    → (validate_aggregation_request proofs agg ≡ true)
      ↔ ((proofs ≢ []) × IsLinked agg.start_block agg.end_block (map blocks proofs))
unfolding validate_aggregation_request
validate_aggregation_request-IsLinked [] agg = (λ h. cc, λ h. absurd (h.0 refl))
validate_aggregation_request-IsLinked (first ∷ proofs) agg =
    let (there, back) = check_consecutive-IsLinked first proofs agg.end_block in
    (
      λ h. (λ e. cc, (ground arith, there (ground arith, ground arith))),
      λ h. let (e, l) = back h.1.1 in ground arith,
    )

-- The range after the contiguous ones starts elsewhere, if there is one.
abbrev pub StartsElsewhere : ℕ → List Range → Type 0
StartsElsewhere end [] = Unit
StartsElsewhere end (r ∷ ranges) = r.0 ≢ end

pub extend_end_lem :
    (end : ℕ) (ranges : List Range)
    → (taken rest : List Range) × (ranges ≡ taken ++ rest)
      × IsLinked end (extend_end end ranges) taken
      × StartsElsewhere (extend_end end ranges) rest
unfolding extend_end
extend_end_lem end [] = ([], [], refl, refl, tt)
extend_end_lem end (r ∷ ranges) = elim (Bool-cases (r.0 == end)) [
  | inl here ↦
      let (taken, rest, eq, linked, stops) = extend_end_lem r.1 ranges in
      rw here (r ∷ taken, rest, ap (λ rs. r ∷ rs) eq, (ground arith, linked), stops)
  | inr gap ↦ rw gap ([], r ∷ ranges, refl, refl, λ e. ground arith)
]

-- The highest proven block is the end of the longest run of ranges, from the first one on, that follow
-- one another; the range after the run, if any, does not start where the run ends.
pub get_highest_proven_contiguous_block_lem :
    (first : Range) (ranges : List Range)
    → (taken rest : List Range) × (highest : ℕ) × (get_highest_proven_contiguous_block
          (first ∷ ranges)
        ≡ some highest)
      × (ranges ≡ taken ++ rest)
      × IsLinked first.0 highest (first ∷ taken)
      × StartsElsewhere highest rest
unfolding get_highest_proven_contiguous_block
get_highest_proven_contiguous_block_lem first ranges =
    let (taken, rest, eq, linked, stops) = extend_end_lem first.1 ranges in
    (taken, rest, extend_end first.1 ranges, refl, eq, (refl, linked), stops)
