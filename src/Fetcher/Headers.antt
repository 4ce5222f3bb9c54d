-- ===== src/Fetcher/Headers.antt =====
-- The headers that utils/host/src/fetcher.rs fetches for range proofs.
use mathlib.Core.Path.{subst}
use mina_evm_l.Prelude.{
  ℕ, zero, suc, ◌+◌, ◌-◌, ◌^◌, ◌≤◌, ◌<◌, ◌≡◌, refl, sym, ap, ◌∙◌, inl, inr, Bool, true, false, ◌||◌,
  Option, some, List, [], ◌∷◌, map, ltb, ◌==◌, Bool-cases, arith, dec_lt, All, All-weaken,
}
use mina_evm_l.Request.{B256}
use mina_evm_l.World.{ok}
use mina_evm_l.Aggregation.{BootInfo}
use mina_evm_l.Aggregation.Heads.{is_in}
use mina_evm_l.Aggregation.Accepts.{IsHeaderChain}
use mina_evm_l.Fetcher.{
  L1Header, earliest, get_earliest_l1_head_in_batch, headers_from, fetch_headers_in_range,
  get_header_preimages,
}

-- The L1 node has the chain of headers up to `top`, by number and by hash.
pub record IsL1 (header_of : B256 → Option L1Header) (header_at : ℕ → Option L1Header)
    (header : ℕ → L1Header) (top : ℕ) : Type 0 where
  pub by_number : (i : ℕ) → i ≤ top → header_at i ≡ some (header i)
  pub by_hash : (i : ℕ) → i ≤ top → header_of (header i).hash ≡ some (header i)
  pub numbered : (i : ℕ) → (header i).number ≡ i
  pub linked : (i : ℕ) → (header (i + 1)).parent_hash ≡ (header i).hash

-- The L1 head of the boot info is a header from `lo` to `hi`.
abbrev pub IsAmong : (ℕ → L1Header) → ℕ → ℕ → BootInfo → Type 0
IsAmong header lo hi boot_info =
    (i : ℕ) × (boot_info.l1_head ≡ (header i).hash) × (lo ≤ i) × (i ≤ hi)

abbrev pub listed : (ℕ → L1Header) → ℕ → ℕ → List L1Header
listed header start zero = []
listed header start (suc count) = header start ∷ listed header (start + 1) count

module _ (header_of : B256 → Option L1Header) (header_at : ℕ → Option L1Header)
    (header : ℕ → L1Header) (top : ℕ) (l1 : IsL1 header_of header_at header top) where
  earliest-Among :
      (hi n : ℕ) (boot_infos : List BootInfo)
      → hi ≤ top
      → All (IsAmong header 0 hi) boot_infos
      → (m : ℕ) × (earliest header_of header_at n (some (header n)) boot_infos
          ≡ ok (some (header m)))
        × (m ≤ n)
        × All (IsAmong header m hi) boot_infos
  unfolding earliest
  earliest-Among hi n [] le h = (n, refl, omega arith, tt)
  earliest-Among hi n (b ∷ boot_infos) le ((i, e, _, inside), h) =
      let answer : header_of b.l1_head ≡ some (header i) =
        ap header_of e ∙ l1.by_hash i (omega (arith, inside, le)) in
      let number = l1.numbered i in
      elim (Bool-cases (ltb i n)) [
        | inl less ↦
            let (m, found, below, rest) = earliest-Among hi i boot_infos le h in
            (
              m,
              rw (answer, ap (λ (k : ℕ). ltb k n) number ∙ less)
                  (ap (λ (k : ℕ). earliest header_of header_at k (some (header i)) boot_infos)
                      number
                    ∙ found),
              omega (arith, below, ltb_lt i n less),
              ((i, e, below, inside), rest),
            )
        | inr more ↦
            let (m, found, below, rest) = earliest-Among hi n boot_infos le h in
            (
              m,
              rw (answer, ap (λ (k : ℕ). ltb k n) number ∙ more) found,
              below,
              ((i, e, omega (arith, below, ltb_ge i n more), inside), rest),
            )
      ]
    where
      ltb_lt : (a b : ℕ) → ltb a b ≡ true → a < b
      ltb_lt a b e = ground arith

      ltb_ge : (a b : ℕ) → ltb a b ≡ false → b ≤ a
      ltb_ge a b e = ground arith

  headers_from-listed :
      (count start : ℕ)
      → start + count ≤ top + 1
      → headers_from header_of header_at start count ≡ ok (listed header start count)
  unfolding headers_from
  headers_from-listed zero start le = refl
  headers_from-listed (suc count) start le =
      rw
        (
          l1.by_number start (omega (arith, le)),
          headers_from-listed count (start + 1) (omega (arith, le)),
        )
        refl

  pub listed-IsHeaderChain :
      (pv_digest : BootInfo → B256) (verify_sp1_proof : List ℕ → B256 → Bool) (count start : ℕ)
      → IsHeaderChain
          (λ (h : L1Header). h.hash)
          (λ h. h.parent_hash)
          pv_digest
          verify_sp1_proof
          (listed header start (suc count))
          (header (start + count)).hash
  listed-IsHeaderChain pv_digest verify_sp1_proof zero start =
      let e : start + 0 ≡ start = omega arith in ap (λ (n : ℕ). (header n).hash) e
  listed-IsHeaderChain pv_digest verify_sp1_proof (suc count) start =
      let e : start + 1 + count ≡ start + suc count = omega arith in
      (
        l1.linked start,
        subst
            (λ (n : ℕ).
              IsHeaderChain (λ (h : L1Header). h.hash) (λ h. h.parent_hash) pv_digest
                verify_sp1_proof (listed header (start + 1) (suc count)) (header n).hash)
            e (listed-IsHeaderChain pv_digest verify_sp1_proof count (start + 1)),
      )

  is_in-listed :
      (count start i : ℕ)
      → start ≤ i
      → i < start + count
      → is_in (header i).hash (map (λ (h : L1Header). h.hash) (listed header start count)) ≡ true
  is_in-listed zero start i le lt = absurd (omega arith)
  is_in-listed (suc count) start i le lt = elim (dec_lt start i) [
    | yes later ↦
        let rest = is_in-listed count (start + 1) i (omega arith) (omega arith) in
        or_true ((header i).hash == (header start).hash) _ rest
    | no now ↦
        let e : start ≡ i = omega arith in
        subst
          (λ (n : ℕ).
            ((header i).hash == (header n).hash
              || is_in (header i).hash
                  (map (λ (h : L1Header). h.hash) (listed header (start + 1) count)))
            ≡ true)
          (sym e) (here (header i).hash _)
  ]
    where
      or_true : (a b : Bool) → b ≡ true → (a || b) ≡ true
      or_true a b e = ground arith

      here : (n : ℕ) (b : Bool) → (n == n || b) ≡ true
      here n b = ground arith

  -- The headers are linked up to the checkpoint and have the L1 head of every boot info.
  pub get_header_preimages-listed :
      (first : BootInfo) (boot_infos : List BootInfo) (c : ℕ)
      → c ≤ top
      → top < 2 ^ 64 - 1
      → All (IsAmong header 0 c) (first ∷ boot_infos)
      → (m : ℕ) × (m ≤ c)
        × (get_header_preimages header_of header_at (first ∷ boot_infos) (header c).hash
            ≡ ok (listed header m (suc (c - m))))
        × All (IsAmong header m c) (first ∷ boot_infos)
  unfolding get_header_preimages get_earliest_l1_head_in_batch earliest fetch_headers_in_range
  get_header_preimages-listed first boot_infos c le small ((i, e, _, inside), h) =
      let answer : header_of first.l1_head ≡ some (header i) =
        ap header_of e ∙ l1.by_hash i (omega (arith, inside, le)) in
      let number = l1.numbered i in
      let less : ltb (header i).number (2 ^ 64 - 1) ≡ true =
        ground (arith, number, inside, le, small) in
      let (m, found, below, rest) = earliest-Among c i boot_infos le h in
      let start : earliest header_of header_at (header i).number (some (header i)) boot_infos
          ≡ ok (some (header m)) =
        ap (λ (k : ℕ). earliest header_of header_at k (some (header i)) boot_infos) number
        ∙ found in
      let count : (header c).number + 1 - (header m).number ≡ suc (c - m) =
        omega (arith, l1.numbered c, l1.numbered m, below, inside) in
      (
        m,
        omega (arith, below, inside),
        rw (answer, less)
            (rw start (
              rw (l1.by_hash c le) (
                rw count (
                  ap (λ (k : ℕ). headers_from header_of header_at k (suc (c - m))) (l1.numbered m)
                  ∙ headers_from-listed (suc (c - m)) m (omega (arith, below, inside, le)))))),
        ((i, e, below, inside), rest),
      )

  pub All-included :
      (m c : ℕ) (boot_infos : List BootInfo)
      → m ≤ c
      → All (IsAmong header m c) boot_infos
      → All
          (λ b.
            is_in b.l1_head (map (λ (h : L1Header). h.hash) (listed header m (suc (c - m)))) ≡ true)
          boot_infos
  All-included m c boot_infos le =
      All-weaken
        (λ b (among : IsAmong header m c b).
          let (i, e, low, high) = among in
          ap
            (λ (k : B256). is_in k (map (λ (h : L1Header). h.hash) (listed header m (suc (c - m)))))
            e
          ∙ is_in-listed (suc (c - m)) m i low (omega (arith, le, high)))
        boot_infos
