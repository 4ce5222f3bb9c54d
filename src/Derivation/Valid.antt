-- ===== src/Derivation/Valid.antt =====
-- What the range program commits to, and that it ends: utils/client/src/client.rs,
-- utils/client/src/witness/executor.rs and programs/range/utils/src/lib.rs.
use mina_evm_l.Prelude.{
  ℕ, ◌+◌, ◌≡◌, ◌≢◌, ◌<◌, ◌≤◌, inl, inr, refl, ap, Bool-cases, none, some, true, false, ltb, ◌==◌,
  arith,
}
use mina_evm_l.Request.{B256}
use mina_evm_l.World.{Outcome, ok, err, panic, Error}
use mina_evm_l.Aggregation.{BootInfo}
use mina_evm_l.Fetcher.{Run, ◌>>=◌}
use mina_evm_l.Derivation.{
  Kona, RangeBoot, Tip, returns, iterate, advance_to_target, validate, run, commit, committed,
  run_range_program,
}
use mina_evm_l.Derivation.Ends.{Derived, Halts, Ends, stops, errs, IsFinite, advance_to_target-Ends}
use mina_evm_l.Derivation.Only.{Ends-advance_to_target}

-- What a run of the range program from an agreed safe head may come to.
pub data IsCommitted (kona : Kona) (boot : RangeBoot) (t : Tip kona) (s : kona.State)
    : Outcome BootInfo → Type 0 where
  commits :
      (t' : Tip kona) (s' : kona.State)
      → Derived kona boot.claimed_l2_block_number t s t' s'
      → t'.l2_safe_head_output_root ≡ boot.claimed_l2_output_root
      → Halts kona boot.claimed_l2_block_number t' s'
      → kona.header_number t.l2_safe_head_header ≤ boot.claimed_l2_block_number
      → IsCommitted kona boot t s (ok (commit kona boot))
  wrong_root :
      (t' : Tip kona) (s' : kona.State)
      → Derived kona boot.claimed_l2_block_number t s t' s'
      → t'.l2_safe_head_output_root ≢ boot.claimed_l2_output_root
      → Halts kona boot.claimed_l2_block_number t' s'
      → kona.header_number t.l2_safe_head_header ≤ boot.claimed_l2_block_number
      → IsCommitted kona boot t s panic
  underivable :
      (t' : Tip kona) (s' : kona.State) (e : Error)
      → Derived kona boot.claimed_l2_block_number t s t' s'
      → iterate kona (some boot.claimed_l2_block_number) t' s' ≡ returns (err e)
      → kona.header_number t.l2_safe_head_header ≤ boot.claimed_l2_block_number
      → IsCommitted kona boot t s panic
  behind :
      boot.claimed_l2_block_number < kona.header_number t.l2_safe_head_header
      → IsCommitted kona boot t s panic

ends :
    (kona : Kona) (rank : kona.State → ℕ) (boot : RangeBoot) (t : Tip kona) (s : kona.State)
    (fuel : ℕ)
    → IsFinite kona rank
    → rank s + 2 ≤ fuel
    → (r : Outcome BootInfo) × (run_range_program kona fuel boot t s ≡ some r)
      × IsCommitted kona boot t s r
unfolding run_range_program run
ends kona rank boot t s fuel finite enough =
    elim (Bool-cases
      (ltb boot.claimed_l2_block_number (kona.header_number t.l2_safe_head_header))) [
        | inl e ↦ (panic, rw e refl, behind (ground (arith, e)))
        | inr e ↦
            let (r, e', ends) =
              advance_to_target-Ends kona rank finite fuel boot.claimed_l2_block_number t s
                enough in
            ended (ground (arith, e)) r (λ x e1. rw (e, e') (ap some e1)) ends
      ]
  where
    ended :
        kona.header_number t.l2_safe_head_header ≤ boot.claimed_l2_block_number
        → (r : Outcome (kona.Block × B256))
        → ((x : Outcome BootInfo)
            → committed kona (r >>= validate kona boot) ≡ x
            → run_range_program kona fuel boot t s ≡ some x)
        → Ends kona boot.claimed_l2_block_number t s r
        → (x : Outcome BootInfo) × (run_range_program kona fuel boot t s ≡ some x)
          × IsCommitted kona boot t s x
    ended le _ k (errs t' s' e d h) = (panic, k panic refl, underivable t' s' e d h le)
    ended le _ k (stops t' s' d h) =
        elim (Bool-cases (t'.l2_safe_head_output_root == boot.claimed_l2_output_root)) [
          | inl e ↦
              (ok (commit kona boot), k _ (rw e refl), commits t' s' d (ground (arith, e)) h le)
          | inr e ↦ (panic, k _ (rw e refl), wrong_root t' s' d (ground (arith, e)) h le)
        ]

-- A run that ends in one way gives what is committed of that end.
ran :
    (kona : Kona) (boot : RangeBoot) (t : Tip kona) (s : kona.State) (fuel : ℕ)
    (r x : Outcome BootInfo) {end : Outcome (kona.Block × B256)}
    → run_range_program kona fuel boot t s ≡ some r
    → kona.header_number t.l2_safe_head_header ≤ boot.claimed_l2_block_number
    → Ends kona boot.claimed_l2_block_number t s end
    → committed kona (end >>= validate kona boot) ≡ x
    → r ≡ x
unfolding run_range_program run
ran kona boot t s fuel r x {end} h le ends e = go _ refl
  where
    not_behind : ltb boot.claimed_l2_block_number (kona.header_number t.l2_safe_head_header) ≡ false
    not_behind = ground arith

    go :
        (a : Run (kona.Block × B256))
        → advance_to_target kona fuel (some boot.claimed_l2_block_number) t s ≡ a
        → r ≡ x
    go none e' =
        let out : run_range_program kona fuel boot t s ≡ none =
          rw (not_behind, run_range_program) (rw (e', run) refl) in
        absurd (cc (h, out))
    go (some a) e' =
        let same =
          Ends-advance_to_target kona boot.claimed_l2_block_number t s a end fuel ends e' in
        let out : run_range_program kona fuel boot t s
            ≡ some (committed kona (a >>= validate kona boot)) =
          rw (not_behind, run_range_program) (rw (e', run) refl) in
        let out' : committed kona (a >>= validate kona boot) ≡ x = rw same e in cc (h, out, out')

-- No run comes to anything else than what it is.
only :
    (kona : Kona) (boot : RangeBoot) (t : Tip kona) (s : kona.State) (fuel : ℕ)
    (r r' : Outcome BootInfo)
    → run_range_program kona fuel boot t s ≡ some r
    → IsCommitted kona boot t s r'
    → r ≡ r'
unfolding run_range_program run
only kona boot t s fuel r _ h (behind lt) =
    let is_behind : ltb boot.claimed_l2_block_number (kona.header_number t.l2_safe_head_header)
        ≡ true =
      ground arith in
    let same : run_range_program kona fuel boot t s ≡ some panic =
      rw (is_behind, run_range_program) refl in
    cc (h, same)
only kona boot t s fuel r _ h (commits t' s' d root halt le) =
    ran kona boot t s fuel r _ h le (stops t' s' d halt) (rw root (rw same_root refl))
  where
    same_root : (boot.claimed_l2_output_root == boot.claimed_l2_output_root) ≡ true
    same_root = ground arith
only kona boot t s fuel r _ h (wrong_root t' s' d root halt le) =
    ran kona boot t s fuel r _ h le (stops t' s' d halt) (rw differ refl)
  where
    differ : (t'.l2_safe_head_output_root == boot.claimed_l2_output_root) ≡ false
    differ = ground arith
only kona boot t s fuel r _ h (underivable t' s' e d fails le) =
    ran kona boot t s fuel r _ h le (errs t' s' e d fails) refl

-- If the source is finite, the range program ends: two rounds more than the source has payloads are enough. It
-- commits the boot information exactly if the claimed block is not before the agreed safe head and blocks can be
-- derived and executed from there, one on another, up to the claimed block or the end of the source, the last
-- of them with the claimed output root. Otherwise it panics, since the root is another one, an iteration fails
-- or the claimed block is before the safe head. What it comes to is the only outcome of which one of these is
-- true.
pub run_range_program-IsCommitted :
    (kona : Kona) (rank : kona.State → ℕ) (boot : RangeBoot) (t : Tip kona) (s : kona.State)
    (fuel : ℕ)
    → IsFinite kona rank
    → rank s + 2 ≤ fuel
    → (r : Outcome BootInfo) × (run_range_program kona fuel boot t s ≡ some r)
      × IsCommitted kona boot t s r
      × ((r' : Outcome BootInfo) → IsCommitted kona boot t s r' → r ≡ r')
run_range_program-IsCommitted kona rank boot t s fuel finite enough =
    let (r, e, h) = ends kona rank boot t s fuel finite enough in
    (r, e, h, λ r' h'. only kona boot t s fuel r r' e h')
