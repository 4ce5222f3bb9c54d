-- ===== src/Ranges/Tiles.antt =====
-- What `get_ranges_to_prove` yields (validity/src/utils.rs).
use mina_evm_l.Prelude.{
  ℕ, zero, suc, ◌+◌, ◌-◌, ◌≤◌, ◌<◌, min, ◌≡◌, ◌∙◌, sym, refl, ap, true, ◌&&◌, ◌⊎◌, inl, inr, none,
  some, List, [], ◌∷◌, ◌++◌, arith, ltb, leb, false, All-weaken, if◌then◌else◌, All, All-append,
  count_if-append, length, Bool-cases, dec_lt, lt→ltb, le→leb,
}
use mina_evm_l.Ranges.{
  Range, i64_max, add_i64, covers, cover, split_range, split_ranges, is_short, pop_short,
  get_ranges_to_prove, IsChain,
}

-- A tile has at least one block and at most `interval` blocks.
abbrev pub IsTile : ℕ → Range → Type 0
IsTile interval r = (r.0 < r.1) × (r.1 ≤ r.0 + interval)

-- A tile of a range that ends at `end`: it has `interval` blocks, or fewer and is the last of the range.
abbrev pub IsPiece : ℕ → ℕ → Range → Type 0
IsPiece interval end r = IsTile interval r × ((r.1 ≡ r.0 + interval) ⊎ (r.1 ≡ end))

-- The tiles of the given ranges, one range after the other.
abbrev pub IsTiling : ℕ → List Range → List Range → Type 0
IsTiling interval [] tiles = tiles ≡ []
IsTiling interval (r ∷ disjoint) tiles =
    (first rest : List Range) × (tiles ≡ first ++ rest)
    × IsChain r.0 r.1 first
    × All (IsPiece interval r.1) first
    × IsTiling interval disjoint rest

-- The last tile is dropped if it is short, and nothing else.
pub data IsTrimmed (interval : ℕ) (tiles ranges dropped : List Range) : Type 0 where
  no_tiles : tiles ≡ [] → ranges ≡ [] → dropped ≡ [] → IsTrimmed interval tiles ranges dropped
  last_kept :
      (front : List Range) (last : Range)
      → tiles ≡ front ++ last ∷ []
      → is_short interval last ≡ false
      → ranges ≡ tiles
      → dropped ≡ []
      → IsTrimmed interval tiles ranges dropped
  last_dropped :
      (front : List Range) (last : Range)
      → tiles ≡ front ++ last ∷ []
      → is_short interval last ≡ true
      → ranges ≡ front
      → dropped ≡ last ∷ []
      → IsTrimmed interval tiles ranges dropped

split_range-more :
    (fuel s e i : ℕ) {tiles : List Range}
    → s < e
    → e + i ≤ i64_max
    → split_range fuel (min (s + i) e) e i ≡ some (some tiles)
    → split_range (suc fuel) s e i ≡ some (some ((s, min (s + i) e) ∷ tiles))
unfolding split_range
split_range-more fuel s e i lt o eq =
    rw (lt→ltb s e lt, split_range) (rw (le→leb (s + i) i64_max (omega arith), add_i64) (rw eq))

split_range-done : (fuel s e i : ℕ) → e ≤ s → split_range (suc fuel) s e i ≡ some (some [])
unfolding split_range
split_range-done fuel s e i le = ground arith

full_or_last : (s e i : ℕ) → (min (s + i) e ≡ s + i) ⊎ (min (s + i) e ≡ e)
full_or_last s e i = elim (dec_lt (s + i) e) [
  | yes lt ↦ inl (omega arith)
  | no ge ↦ inr (omega arith)
]

split_range_lem :
    (interval fuel start end : ℕ)
    → 0 < interval
    → end + interval ≤ i64_max
    → start ≤ end
    → end - start < fuel
    → (tiles : List Range) × (split_range fuel start end interval ≡ some (some tiles))
      × IsChain start end tiles
      × All (IsPiece interval end) tiles
split_range_lem i zero s e p o le f = absurd (omega arith)
split_range_lem i (suc fuel) s e p o le f = elim (dec_lt s e) [
  | yes lt ↦
      let next = min (s + i) e in
      let (tiles, eq, chain, sizes) =
        split_range_lem i fuel next e p o (omega arith) (omega arith) in
      (
        (s, next) ∷ tiles,
        split_range-more fuel s e i lt o eq,
        (refl, omega arith, chain),
        (((omega arith, omega arith), full_or_last s e i), sizes),
      )
  | no ge ↦ ([], split_range-done fuel s e i (omega arith), omega arith, tt)
]

-- A chain has each block from `start` to `end` once, and no other.
pub cover-IsChain :
    (b start end : ℕ) (ranges : List Range)
    → IsChain start end ranges
    → (start ≤ end) × (cover b ranges ≡ (if leb start b && ltb b end then 1 else 0))
cover-IsChain b s e [] h = ground arith
cover-IsChain b s e ((x, y) ∷ ranges) h = ground (arith, cover-IsChain b y e ranges h.2)

-- The ranges that a gap list may hold: an end not before the start, and room for the addition.
abbrev pub IsInRange : ℕ → Range → Type 0
IsInRange interval r = (r.0 ≤ r.1) × (r.1 + interval ≤ i64_max)

-- The end of a chain bounds its ranges.
IsChain-bounded :
    (start end bound : ℕ) (ranges : List Range)
    → IsChain start end ranges
    → end ≤ bound
    → (start ≤ bound) × All (λ r. r.1 ≤ bound) ranges
IsChain-bounded s e k [] h le = (omega arith, tt)
IsChain-bounded s e k ((x, y) ∷ ranges) h le =
    let (le', rest) = IsChain-bounded y e k ranges h.2 le in (omega arith, (le', rest))

split_ranges_lem :
    (interval bound : ℕ) (disjoint : List Range)
    → 0 < interval
    → All (IsInRange interval) disjoint
    → (tiles : List Range) × (split_ranges interval disjoint ≡ some tiles)
      × IsTiling interval disjoint tiles
      × All (IsTile interval) tiles
      × (All (λ r. r.1 ≤ bound) disjoint → All (λ r. r.1 ≤ bound) tiles)
      × ((b : ℕ) → cover b tiles ≡ cover b disjoint)
unfolding split_ranges
split_ranges_lem i k [] p h = ([], refl, refl, tt, λ _. tt, λ b. refl)
split_ranges_lem i k ((s, e) ∷ disjoint) p h =
    let (tiles, eq, chain, pieces) =
      split_range_lem i (suc (e - s)) s e p h.0.1 h.0.0 (omega arith) in
    let sizes = All-weaken (λ (r : Range) (k : IsPiece i e r). k.0) tiles pieces in
    let (rest, eq', tiling, sizes', bounded, same) = split_ranges_lem i k disjoint p h.1 in
    (
      tiles ++ rest,
      rw (eq, split_ranges) (rw eq'),
      (tiles, rest, refl, chain, pieces, tiling),
      All-append (IsTile i) tiles rest sizes sizes',
      λ le.
          All-append (λ r. r.1 ≤ k) tiles rest (IsChain-bounded s e k tiles chain le.0).1
            (bounded le.1),
      λ b.
          rw (count_if-append (covers b) tiles rest)
            (ground (arith, cover-IsChain b s e tiles chain, same b)),
    )

IsTrimmed-later :
    (interval : ℕ) (r s : Range) (tiles ranges dropped : List Range)
    → IsTrimmed interval (s ∷ tiles) ranges dropped
    → IsTrimmed interval (r ∷ s ∷ tiles) (r ∷ ranges) dropped
IsTrimmed-later i r s tiles ranges dropped (no_tiles e _ _) = absurd cc
IsTrimmed-later i r s tiles ranges dropped (last_kept front last e long same none_dropped) =
    last_kept (r ∷ front) last (ap (λ rs. r ∷ rs) e) long (ap (λ rs. r ∷ rs) same) none_dropped
IsTrimmed-later i r s tiles ranges dropped (last_dropped front last e short same one) =
    last_dropped (r ∷ front) last (ap (λ rs. r ∷ rs) e) short (ap (λ rs. r ∷ rs) same) one

-- Popping drops nothing, or one short range at the end.
pop_short_lem :
    (interval : ℕ) (ranges : List Range)
    → (dropped : List Range) × IsTrimmed interval ranges (pop_short interval ranges) dropped
      × (pop_short interval ranges ++ dropped ≡ ranges)
      × (length dropped ≤ 1)
      × All (λ r. is_short interval r ≡ true) dropped
unfolding pop_short
pop_short_lem i [] = ([], no_tiles refl refl refl, refl, omega arith, tt)
pop_short_lem i (r ∷ []) = elim (Bool-cases (is_short i r)) [
  | inl e ↦ (r ∷ [], last_dropped [] r refl e (rw e) refl, rw e, omega arith, (e, tt))
  | inr e ↦ ([], last_kept [] r refl e (rw e) refl, rw e, omega arith, tt)
]
pop_short_lem i (r ∷ s ∷ ranges) =
    let (dropped, trimmed, eq, few, short) = pop_short_lem i (s ∷ ranges) in
    (
      dropped,
      IsTrimmed-later i r s ranges (pop_short i (s ∷ ranges)) dropped trimmed,
      ap (λ rest. r ∷ rest) eq,
      few,
      short,
    )

All-prefix : (P : Range → Type 0) (xs ys : List Range) → All P (xs ++ ys) → All P xs
All-prefix P [] ys h = tt
All-prefix P (x ∷ xs) ys h = (h.0, All-prefix P xs ys h.1)

-- With a positive interval and no overflow in sight the loop ends. Each given range is cut from its
-- start on in ranges of `interval` blocks, the last with what is left. The result is these ranges in
-- order, without the last of all if that is shorter than the interval. So each range has at least one
-- block and at most `interval` of them, and the ranges have the blocks of the given ones, each as
-- often, except for those of the dropped range.
pub get_ranges_to_prove_lem :
    (disjoint : List Range) (interval : ℕ)
    → 0 < interval
    → All (IsInRange interval) disjoint
    → (tiles ranges dropped : List Range) × (get_ranges_to_prove disjoint interval ≡ some ranges)
      × IsTiling interval disjoint tiles
      × IsTrimmed interval tiles ranges dropped
      × All (IsTile interval) ranges
      × (length dropped ≤ 1)
      × All (λ r. is_short interval r ≡ true) dropped
      × ((b : ℕ) → cover b ranges + cover b dropped ≡ cover b disjoint)
unfolding get_ranges_to_prove
get_ranges_to_prove_lem disjoint i p h =
    let (tiles, eq, tiling, sizes, bounded, same) = split_ranges_lem i 0 disjoint p h in
    let (dropped, trimmed, eq', few, short) = pop_short_lem i tiles in
    (
      tiles,
      pop_short i tiles,
      dropped,
      rw eq,
      tiling,
      trimmed,
      All-prefix (IsTile i) (pop_short i tiles) dropped (rw eq' sizes),
      few,
      short,
      λ b.
          sym (count_if-append (covers b) (pop_short i tiles) dropped)
          ∙ ap (λ rs. cover b rs) eq'
          ∙ same b,
    )

-- The ranges stay below a bound of the given ones.
pub get_ranges_to_prove-bounded :
    (disjoint : List Range) (interval bound : ℕ)
    → 0 < interval
    → All (IsInRange interval) disjoint
    → All (λ r. r.1 ≤ bound) disjoint
    → (ranges : List Range) × (get_ranges_to_prove disjoint interval ≡ some ranges)
      × All (IsTile interval) ranges
      × All (λ r. r.1 ≤ bound) ranges
unfolding get_ranges_to_prove
get_ranges_to_prove-bounded disjoint i k p h le =
    let (tiles, eq, _, sizes, bounded, same) = split_ranges_lem i k disjoint p h in
    let (dropped, _, eq', few, short) = pop_short_lem i tiles in
    (
      pop_short i tiles,
      rw eq,
      All-prefix (IsTile i) (pop_short i tiles) dropped (rw eq' sizes),
      All-prefix (λ r. r.1 ≤ k) (pop_short i tiles) dropped (rw eq' (bounded le)),
    )

-- With an interval of zero the loop on a range that has blocks never ends: no fuel is enough, and
-- no addition overflows.
pub split_range-zero_interval :
    (fuel start end : ℕ) → start < end → end ≤ i64_max → split_range fuel start end 0 ≡ none
unfolding split_range
split_range-zero_interval zero s e lt fits = refl
split_range-zero_interval (suc fuel) s e lt fits =
    rw (lt→ltb s e lt, split_range)
      (rw (le→leb (s + 0) i64_max (omega arith), add_i64)
        (rw (min_zero, split_range-zero_interval fuel s e lt fits)))
  where
    min_zero : min (s + 0) e ≡ s
    min_zero = omega arith
