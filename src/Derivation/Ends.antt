-- ===== src/Derivation/Ends.antt =====
-- How `advance_to_target` of utils/client/src/client.rs ends, and that it does.
use mina_evm_l.Prelude.{
  ℕ, zero, suc, ◌+◌, ◌≡◌, ◌<◌, ◌≤◌, refl, ap, true, false, dec_lt, Option, none, some, leb, arith,
}
use mina_evm_l.Request.{B256}
use mina_evm_l.World.{Outcome, ok, err, Error}
use mina_evm_l.Fetcher.{Run}
use mina_evm_l.Derivation.{
  Attributes, produced, end_of_source, Kona, Tip, Iteration, returns, continues, strip, iterate,
  advance_to_target,
}
use mina_evm_l.Derivation.Steps.{
  IsTip, IsBlock, by_payload, by_deposits, IsDiscarded, Iterates, reached, failed, exhausted, built,
  discarded, iterate-Iterates, iterate-reached,
}

module _ (kona : Kona) (target : ℕ) where
  -- From one tip to another: blocks, each built on the one before it, and payloads left out, each from
  -- a tip before the target.
  pub data Derived : Tip kona → kona.State → Tip kona → kona.State → Type 0 where
    here : (t : Tip kona) (s : kona.State) → Derived t s t s
    by_block :
        (t t1 t2 : Tip kona) (s s1 s2 : kona.State)
        → kona.number t.l2_safe_head < target
        → IsBlock kona t s t1 s1
        → Derived t1 s1 t2 s2
        → Derived t s t2 s2
    by_discard :
        (t t2 : Tip kona) (s s1 s2 : kona.State)
        → kona.number t.l2_safe_head < target
        → IsDiscarded kona t s s1
        → Derived t s1 t2 s2
        → Derived t s t2 s2

  -- Where the loop stops: at the target, or before it where no payload can be derived any more.
  pub data Halts (t : Tip kona) (s : kona.State) : Type 0 where
    at_target : target ≤ kona.number t.l2_safe_head → Halts t s
    at_end_of_source :
        (s' : kona.State)
        → kona.number t.l2_safe_head < target
        → kona.produce_payload t.l2_safe_head s ≡ (end_of_source, s')
        → kona.is_interop_active (kona.number t.l2_safe_head) ≡ false
        → Halts t s

  -- How the loop ends: with a tip, or with the error of an iteration.
  pub data Ends (t : Tip kona) (s : kona.State) : Outcome (kona.Block × B256) → Type 0 where
    stops :
        (t' : Tip kona) (s' : kona.State)
        → Derived t s t' s'
        → Halts t' s'
        → Ends t s (ok (t'.l2_safe_head, t'.l2_safe_head_output_root))
    errs :
        (t' : Tip kona) (s' : kona.State) (e : Error)
        → Derived t s t' s'
        → iterate kona (some target) t' s' ≡ returns (err e)
        → Ends t s (err e)

-- The source is finite: a payload uses up some of it, and nothing else adds to it.
pub record IsFinite (kona : Kona) (rank : kona.State → ℕ) : Type 0 where
  pub consumes :
      (block : kona.Block) (attributes : Attributes kona.Rest) (s s' : kona.State)
      → kona.produce_payload block s ≡ (produced attributes, s')
      → rank s' < rank s
  pub updates :
      (header : kona.Header) (s : kona.State) → rank (kona.update_safe_head header s) ≤ rank s
  pub executes :
      (attributes : Attributes kona.Rest) (s : kona.State)
      → rank (kona.execute_payload attributes s).1 ≤ rank s
  pub flushes : (s s' : kona.State) → kona.flush_channel s ≡ some s' → rank s' ≤ rank s
  pub advances :
      (origin : kona.Origin) (tip : Tip kona) (s : kona.State)
      → rank (kona.advance origin tip s) ≤ rank s

module _ (kona : Kona) (rank : kona.State → ℕ) (finite : IsFinite kona rank) where
  -- A payload that was executed on a header leaves no more than before.
  executed-rank :
      (attributes : Attributes kona.Rest) (header : kona.Header) (s s' : kona.State)
      (o : Option kona.Header)
      → kona.execute_payload attributes (kona.update_safe_head header s) ≡ (o, s')
      → rank s' ≤ rank s
  executed-rank attributes header s s' o e =
      let after : rank (kona.execute_payload attributes (kona.update_safe_head header s)).1
          ≡ rank s' =
        ap (λ (x : Option kona.Header × kona.State). rank x.1) e in
      omega (
        arith,
        after,
        finite.executes attributes (kona.update_safe_head header s),
        finite.updates header s,
      )

  tip-rank :
      (header : kona.Header) (attributes : Attributes kona.Rest) (s : kona.State) (tip : Tip kona)
      (s' : kona.State)
      → IsTip kona header attributes s tip s'
      → rank s' ≤ rank s
  tip-rank header attributes s tip s' is_tip =
      omega (arith, ap rank is_tip.advanced, finite.advances is_tip.origin tip s)

  block-rank : (t t' : Tip kona) (s s' : kona.State) → IsBlock kona t s t' s' → rank s' < rank s
  block-rank t t' s s' (by_payload attributes s1 s2 header p e is_tip) = omega (
    arith,
    finite.consumes t.l2_safe_head attributes s s1 p,
    executed-rank attributes t.l2_safe_head_header s1 s2 (some header) e,
    tip-rank header attributes s2 t' s' is_tip,
  )
  block-rank t t' s s' (by_deposits attributes s1 s2 s3 s4 header p e late flush e' is_tip) =
      omega (
        arith,
        finite.consumes t.l2_safe_head attributes s s1 p,
        executed-rank attributes t.l2_safe_head_header s1 s2 none e,
        finite.flushes s2 s3 flush,
        executed-rank (strip kona attributes) t.l2_safe_head_header s3 s4 (some header) e',
        tip-rank header (strip kona attributes) s4 t' s' is_tip,
      )

  discard-rank : (t : Tip kona) (s s' : kona.State) → IsDiscarded kona t s s' → rank s' < rank s
  discard-rank t s s' d = omega (
    arith,
    finite.consumes t.l2_safe_head d.attributes s d.s1 d.derived,
    executed-rank d.attributes t.l2_safe_head_header d.s1 s' none d.failed,
  )

  next :
      (fuel target : ℕ) (t : Tip kona) (s : kona.State) (target' : Option ℕ) (t' : Tip kona)
      (s' : kona.State) (r : Run (kona.Block × B256))
      → iterate kona (some target) t s ≡ continues target' t' s'
      → advance_to_target kona fuel target' t' s' ≡ r
      → advance_to_target kona (suc fuel) (some target) t s ≡ r
  unfolding advance_to_target
  next fuel target t s target' t' s' r e e' = rw (e, advance_to_target) e'

  pub last :
      (fuel target : ℕ) (t : Tip kona) (s : kona.State) (r : Outcome (kona.Block × B256))
      → iterate kona (some target) t s ≡ returns r
      → advance_to_target kona (suc fuel) (some target) t s ≡ some r
  unfolding advance_to_target
  last fuel target t s r e = rw (e, advance_to_target) refl

  -- Where the target is the tip, the next iteration returns it.
  halts :
      (fuel : ℕ) (t : Tip kona) (s : kona.State)
      → advance_to_target kona (suc fuel) (some (kona.number t.l2_safe_head)) t s
        ≡ some (ok (t.l2_safe_head, t.l2_safe_head_output_root))
  unfolding iterate
  halts fuel t s =
      let same : leb (kona.number t.l2_safe_head) (kona.number t.l2_safe_head) ≡ true =
        ground arith in
      last fuel (kona.number t.l2_safe_head) t s _ (rw (same, iterate) refl)

  Ends-block :
      (target : ℕ) (t t1 : Tip kona) (s s1 : kona.State) (r : Outcome (kona.Block × B256))
      → kona.number t.l2_safe_head < target
      → IsBlock kona t s t1 s1
      → Ends kona target t1 s1 r
      → Ends kona target t s r
  Ends-block target t t1 s s1 _ lt b (stops t' s' d h) =
      stops t' s' (by_block t t1 t' s s1 s' lt b d) h
  Ends-block target t t1 s s1 _ lt b (errs t' s' e d h) =
      errs t' s' e (by_block t t1 t' s s1 s' lt b d) h

  Ends-discard :
      (target : ℕ) (t : Tip kona) (s s1 : kona.State) (r : Outcome (kona.Block × B256))
      → kona.number t.l2_safe_head < target
      → IsDiscarded kona t s s1
      → Ends kona target t s1 r
      → Ends kona target t s r
  Ends-discard target t s s1 _ lt b (stops t' s' d h) =
      stops t' s' (by_discard t t' s s1 s' lt b d) h
  Ends-discard target t s s1 _ lt b (errs t' s' e d h) =
      errs t' s' e (by_discard t t' s s1 s' lt b d) h

  pub advance_to_target-Ends :
      (fuel target : ℕ) (t : Tip kona) (s : kona.State)
      → rank s + 2 ≤ fuel
      → (r : Outcome (kona.Block × B256)) × (advance_to_target kona fuel (some target) t s ≡ some r)
        × Ends kona target t s r
  advance_to_target-Ends zero target t s enough = absurd (omega arith)
  advance_to_target-Ends (suc zero) target t s enough = absurd (omega arith)
  advance_to_target-Ends (suc (suc fuel)) target t s enough =
      elim (dec_lt (kona.number t.l2_safe_head) target) [
        | yes lt ↦
            go
              (λ t' s' less.
                advance_to_target-Ends (suc fuel) target t' s' (omega (arith, enough, less)))
              lt _ refl (iterate-Iterates kona target t s)
        | no ge ↦
            let le : target ≤ kona.number t.l2_safe_head = omega arith in
            (
              _,
              last (suc fuel) target t s _ (iterate-reached kona target t s le),
              stops t s (here t s) (at_target le),
            )
      ]
    where
      go :
          ((t' : Tip kona) (s' : kona.State)
            → rank s' < rank s
            → (r : Outcome (kona.Block × B256)) × (advance_to_target kona
                  (suc fuel)
                  (some target)
                  t'
                  s'
                ≡ some r)
              × Ends kona target t' s' r)
          → kona.number t.l2_safe_head < target
          → (i : Iteration kona) → iterate kona (some target) t s ≡ i
          → Iterates kona target t s i
          → (r : Outcome (kona.Block × B256)) × (advance_to_target kona
                (suc (suc fuel))
                (some target)
                t
                s
              ≡ some r)
            × Ends kona target t s r
      go rest lt _ e (reached le) =
          (_, last (suc fuel) target t s _ e, stops t s (here t s) (at_target le))
      go rest lt _ e (failed x) = (_, last (suc fuel) target t s _ e, errs t s x (here t s) e)
      go rest lt _ e (exhausted s' p inactive) = (
        _,
        next (suc fuel) target t s _ t s' _ e (halts fuel t s'),
        stops t s (here t s) (at_end_of_source s' lt p inactive),
      )
      go rest lt _ e (built t' s' b) =
          let (r, e', ends) = rest t' s' (block-rank t t' s s' b) in
          (r, next (suc fuel) target t s _ t' s' _ e e', Ends-block target t t' s s' r lt b ends)
      go rest lt _ e (discarded s' d) =
          let (r, e', ends) = rest t s' (discard-rank t s s' d) in
          (r, next (suc fuel) target t s _ t s' _ e e', Ends-discard target t s s' r lt d ends)
