-- ===== src/Derivation/Only.antt =====
-- The end of `advance_to_target` of utils/client/src/client.rs is the only one.
use mina_evm_l.Prelude.{ℕ, zero, suc, ◌≡◌, refl, sym, ◌∙◌, Option, some, arith}
use mina_evm_l.Request.{B256}
use mina_evm_l.World.{Outcome, ok}
use mina_evm_l.Derivation.{Kona, Tip, returns, continues, iterate, advance_to_target}
use mina_evm_l.Derivation.Steps.{
  iterate-IsBlock, iterate-IsDiscarded, iterate-reached, iterate-exhausted,
}
use mina_evm_l.Derivation.Ends.{
  Derived, here, by_block, by_discard, Halts, at_target, at_end_of_source, Ends, stops, errs,
}

module _ (kona : Kona) (target : ℕ) where
  open_step :
      (fuel : ℕ) (o o' : Option ℕ) (t t' : Tip kona) (s s' : kona.State)
      (r : Outcome (kona.Block × B256))
      → iterate kona o t s ≡ continues o' t' s'
      → advance_to_target kona fuel o t s ≡ some r
      → (fuel' : ℕ) × (advance_to_target kona fuel' o' t' s' ≡ some r)
  unfolding advance_to_target
  open_step zero o o' t t' s s' r e h = absurd cc
  open_step (suc fuel) o o' t t' s s' r e h = (fuel, sym (rw (e, advance_to_target) refl) ∙ h)

  open_last :
      (fuel : ℕ) (o : Option ℕ) (t : Tip kona) (s : kona.State) (r r' : Outcome (kona.Block × B256))
      → iterate kona o t s ≡ returns r'
      → advance_to_target kona fuel o t s ≡ some r
      → r ≡ r'
  unfolding advance_to_target
  open_last zero o t s r r' e h = absurd cc
  open_last (suc fuel) o t s r r' e h =
      let same : advance_to_target kona (suc fuel) o t s ≡ some r' =
        rw (e, advance_to_target) refl in
      cc (h, same)

  -- The loop goes through each tip that is derived.
  later :
      (t t' : Tip kona) (s s' : kona.State)
      → Derived kona target t s t' s'
      → (fuel : ℕ) (r : Outcome (kona.Block × B256))
      → advance_to_target kona fuel (some target) t s ≡ some r
      → (fuel' : ℕ) × (advance_to_target kona fuel' (some target) t' s' ≡ some r)
  later t _ s _ (here _ _) fuel r h = (fuel, h)
  later _ _ _ _ (by_block t t1 t2 s s1 s2 lt b d) fuel r h =
      let (fuel', h') =
        open_step fuel (some target) (some target) t t1 s s1 r
          (iterate-IsBlock kona target t t1 s s1 lt b) h in
      later t1 t2 s1 s2 d fuel' r h'
  later _ _ _ _ (by_discard t t2 s s1 s2 lt b d) fuel r h =
      let (fuel', h') =
        open_step fuel (some target) (some target) t t s s1 r
          (iterate-IsDiscarded kona target t s s1 lt b) h in
      later t t2 s1 s2 d fuel' r h'

  halted :
      (t : Tip kona) (s : kona.State) (fuel : ℕ) (r : Outcome (kona.Block × B256))
      → Halts kona target t s
      → advance_to_target kona fuel (some target) t s ≡ some r
      → r ≡ ok (t.l2_safe_head, t.l2_safe_head_output_root)
  halted t s fuel r (at_target le) h =
      open_last fuel (some target) t s r _ (iterate-reached kona target t s le) h
  halted t s fuel r (at_end_of_source s' lt p inactive) h =
      let (fuel', h') =
        open_step fuel (some target) (some (kona.number t.l2_safe_head)) t t s s' r
          (iterate-exhausted kona target t s s' lt p inactive) h in
      open_last fuel' (some (kona.number t.l2_safe_head)) t s' r _
        (iterate-reached kona (kona.number t.l2_safe_head) t s' (omega arith)) h'

  pub Ends-advance_to_target :
      (t : Tip kona) (s : kona.State) (r r' : Outcome (kona.Block × B256)) (fuel : ℕ)
      → Ends kona target t s r'
      → advance_to_target kona fuel (some target) t s ≡ some r
      → r ≡ r'
  Ends-advance_to_target t s r _ fuel (stops t' s' d halt) h =
      let (fuel', h') = later t t' s s' d fuel r h in halted t' s' fuel' r halt h'
  Ends-advance_to_target t s r _ fuel (errs t' s' e d fails) h =
      let (fuel', h') = later t t' s s' d fuel r h in
      open_last fuel' (some target) t' s' r _ fails h'
