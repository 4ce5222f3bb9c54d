-- ===== src/BlockRange/SafeHeads.antt =====
-- What `split_range_based_on_safe_heads` of utils/host/src/block_range.rs yields.
use mina_evm_l.Prelude.{
  ℕ, zero, suc, ◌+◌, ◌-◌, ◌^◌, ◌≤◌, ◌<◌, min, max, ◌≡◌, refl, ap, ◌∙◌, inl, inr, true, some, List,
  [], ◌∷◌, ◌++◌, arith, leb, ◌==◌, Bool-cases, All, All-append, dec_lt, lt→ltb, insert_by, sort_by,
}
use mina_evm_l.Ranges.{Range, IsChain}
use mina_evm_l.Ranges.Tiles.{IsTile}
use mina_evm_l.BlockRange.{
  add_u64, split_head, split_heads, has, distinct, split_range_based_on_safe_heads,
}

IsChain-append :
    (a b c : ℕ) (xs ys : List Range) → IsChain a b xs → IsChain b c ys → IsChain a c (xs ++ ys)
IsChain-append a b c [] ys h k = rw h k
IsChain-append a b c (r ∷ xs) ys h k = (h.0, h.1, IsChain-append r.1 b c xs ys h.2 k)

split_head-more :
    (fuel s stop i : ℕ) {tiles : List Range}
    → s + i < stop
    → s + i < 2 ^ 64
    → split_head fuel (s + i) stop i ≡ some tiles
    → split_head (suc fuel) s stop i ≡ some ((s, s + i) ∷ tiles)
unfolding split_head
split_head-more fuel s stop i lt o eq =
    rw (lt→ltb (s + i) (2 ^ 64) o, split_head, add_u64) (rw (lt→ltb (s + i) stop lt) (rw eq))

split_head-last :
    (fuel s stop i : ℕ)
    → stop ≤ s + i
    → s + i < 2 ^ 64
    → split_head (suc fuel) s stop i ≡ some ((s, stop) ∷ [])
unfolding split_head
split_head-last fuel s stop i le o = ground arith

split_head_lem :
    (size fuel start stop : ℕ)
    → 0 < size
    → stop + size < 2 ^ 64
    → start < stop
    → stop - start < fuel
    → (tiles : List Range) × (split_head fuel start stop size ≡ some tiles)
      × IsChain start stop tiles
      × All (IsTile size) tiles
split_head_lem i zero s e p o lt f = absurd (omega arith)
split_head_lem i (suc fuel) s e p o lt f = elim (dec_lt (s + i) e) [
  | yes more ↦
      let (tiles, eq, chain, sizes) = split_head_lem i fuel (s + i) e p o more (omega arith) in
      (
        (s, s + i) ∷ tiles,
        split_head-more fuel s e i more (omega arith) eq,
        (refl, omega arith, chain),
        ((omega arith, omega arith), sizes),
      )
  | no last ↦ (
    (s, e) ∷ [],
    split_head-last fuel s e i (omega arith) (omega arith),
    (refl, lt, refl),
    ((lt, omega arith), tt),
  )
]

-- The highest of the safe heads, or `lo` if none is higher.
abbrev pub highest : ℕ → List ℕ → ℕ
highest lo [] = lo
highest lo (n ∷ ns) = highest (max lo n) ns

highest-le : (lo : ℕ) (ns : List ℕ) → lo ≤ highest lo ns
highest-le lo [] = omega arith
highest-le lo (n ∷ ns) = omega (arith, highest-le (max lo n) ns)

split_heads-nil : (current end size : ℕ) → split_heads current end size [] ≡ some []
unfolding split_heads
split_heads-nil current end size = refl

split_heads-past :
    (current end size : ℕ) (heads : List ℕ)
    → end ≤ current
    → split_heads current end size heads ≡ some []
unfolding split_heads
split_heads-past current end size [] le = refl
split_heads-past current end size (h ∷ heads) le =
    ground (arith, split_heads-past current end size heads le)

split_heads-skip :
    (current end size h : ℕ) (heads : List ℕ)
    → h ≤ current
    → split_heads current end size (h ∷ heads) ≡ split_heads current end size heads
unfolding split_heads
split_heads-skip current end size h heads le = ground arith

split_heads-take :
    (current end size h : ℕ) (heads : List ℕ) {tiles more : List Range}
    → current < h
    → current < end
    → split_head (suc (min end h - current)) current (min end h) size ≡ some tiles
    → split_heads h end size heads ≡ some more
    → split_heads current end size (h ∷ heads) ≡ some (tiles ++ more)
unfolding split_heads
split_heads-take current end size h heads lt lt' e e' =
    rw (lt→ltb current h lt, split_heads) (rw (lt→ltb current end lt') (rw e (rw e' refl)))

-- One safe head that is taken.
take_head :
    (current end size h : ℕ) (heads : List ℕ) (more : List Range)
    → 0 < size
    → end + size < 2 ^ 64
    → current < h
    → current < end
    → split_heads h end size heads ≡ some more
    → IsChain (min end h) (min end (highest h heads)) more
    → All (IsTile size) more
    → (ranges : List Range) × (split_heads current end size (h ∷ heads) ≡ some ranges)
      × IsChain current (min end (highest h heads)) ranges
      × All (IsTile size) ranges
take_head current end size h heads more p o lt lt' eq chain sizes =
    let (tiles, eq', chain', sizes') =
      split_head_lem size (suc (min end h - current)) current (min end h) p (omega arith)
        (omega arith) (omega arith) in
    (
      tiles ++ more,
      split_heads-take current end size h heads lt lt' eq' eq,
      IsChain-append current (min end h) (min end (highest h heads)) tiles more chain' chain,
      All-append (IsTile size) tiles more sizes' sizes,
    )

split_heads_lem :
    (current end size : ℕ) (heads : List ℕ)
    → 0 < size
    → end + size < 2 ^ 64
    → current ≤ end
    → (ranges : List Range) × (split_heads current end size heads ≡ some ranges)
      × IsChain current (min end (highest current heads)) ranges
      × All (IsTile size) ranges
split_heads_lem current end size [] p o le = ([], split_heads-nil current end size, omega arith, tt)
split_heads_lem current end size (h ∷ heads) p o le = elim (dec_lt current h) [
  | no skip ↦
      let same : max current h ≡ current = omega arith in
      rw (split_heads-skip current end size h heads (omega arith), same)
        (split_heads_lem current end size heads p o le)
  | yes lt ↦
      let raised : max current h ≡ h = omega arith in
      elim (dec_lt current end) [
        | no over ↦ (
          [],
          split_heads-past current end size (h ∷ heads) (omega arith),
          rw raised (omega (arith, highest-le h heads)),
          tt,
        )
        | yes lt' ↦ elim (dec_lt end h) [
          | yes beyond ↦ rw raised (
              take_head current end size h heads [] p o lt lt'
                (split_heads-past h end size heads (omega arith))
                (omega (arith, highest-le h heads)) tt)
          | no within ↦
              let (more, eq, chain, sizes) = split_heads_lem h end size heads p o (omega arith) in
              let at_head : min end h ≡ h = omega arith in
              rw raised
                (take_head current end size h heads more p o lt lt' eq (rw at_head chain) sizes)
        ]
      ]
]

-- Sorting and dropping duplicates leaves the highest one.
highest-max : (lo n : ℕ) (ns : List ℕ) → highest (max lo n) ns ≡ max n (highest lo ns)
highest-max lo n [] = omega arith
highest-max lo n (m ∷ ns) =
    ap (λ (k : ℕ). highest k ns) (max_swap lo n m) ∙ highest-max (max lo m) n ns
  where
    max_swap : (a b c : ℕ) → max (max a b) c ≡ max (max a c) b
    max_swap a b c = omega arith

highest-insert_by :
    (lo n : ℕ) (ns : List ℕ) → highest lo (insert_by (λ k. k) n ns) ≡ highest lo (n ∷ ns)
unfolding insert_by
highest-insert_by lo n [] = refl
highest-insert_by lo n (m ∷ ns) = elim (Bool-cases (leb n m)) [
  | inl le ↦ rw le refl
  | inr gt ↦
      rw gt (highest-insert_by (max lo m) n ns ∙ ap (λ (k : ℕ). highest k ns) (max_swap lo m n))
]
  where
    max_swap : (a b c : ℕ) → max (max a b) c ≡ max (max a c) b
    max_swap a b c = omega arith

highest-sort_by : (lo : ℕ) (ns : List ℕ) → highest lo (sort_by (λ k. k) ns) ≡ highest lo ns
unfolding sort_by
highest-sort_by lo [] = refl
highest-sort_by lo (n ∷ ns) =
    highest-insert_by lo n (sort_by (λ k. k) ns) ∙ highest-sort_by (max lo n) ns

has-highest : (lo n : ℕ) (ns : List ℕ) → has n ns ≡ true → n ≤ highest lo ns
has-highest lo n [] h = absurd cc
has-highest lo n (m ∷ ns) h = elim (Bool-cases (n == m)) [
  | inl same ↦ ground (arith, same, highest-le (max lo m) ns)
  | inr other ↦ has-highest (max lo m) n ns (ground (arith, h, other))
]

highest-distinct : (lo : ℕ) (ns : List ℕ) → highest lo (distinct ns) ≡ highest lo ns
highest-distinct lo [] = refl
highest-distinct lo (n ∷ ns) = elim (Bool-cases (has n (distinct ns))) [
  | inl dup ↦ rw dup (
      highest-distinct lo ns
      ∙ omega
          (arith, highest-max lo n ns, has-highest lo n (distinct ns) dup, highest-distinct lo ns))
  | inr new ↦ rw new (highest-distinct (max lo n) ns)
]

-- With a positive size and no overflow in sight, the ranges follow one another from `l2_start`, each with
-- at least one block and at most `max_range_size`. They go up to the highest safe head, or to `l2_end` if
-- that is lower; in whatever order and how often the node told the safe heads.
pub split_range_based_on_safe_heads_lem :
    (l2_start l2_end max_range_size : ℕ) (safe_heads : List ℕ)
    → 0 < max_range_size
    → l2_end + max_range_size < 2 ^ 64
    → l2_start ≤ l2_end
    → (ranges : List Range) × (split_range_based_on_safe_heads l2_start l2_end max_range_size
          safe_heads
        ≡ some ranges)
      × IsChain l2_start (min l2_end (highest l2_start safe_heads)) ranges
      × All (IsTile max_range_size) ranges
unfolding split_range_based_on_safe_heads
split_range_based_on_safe_heads_lem start end size heads pos room le =
    rw (← (highest-sort_by start (distinct heads) ∙ highest-distinct start heads))
      (split_heads_lem start end size (sort_by (λ n. n) (distinct heads)) pos room le)
