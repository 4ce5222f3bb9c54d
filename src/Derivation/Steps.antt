-- ===== src/Derivation/Steps.antt =====
-- What an iteration of `advance_to_target` of utils/client/src/client.rs does.
use mina_evm_l.Prelude.{
  ℕ, ◌≡◌, ◌≤◌, ◌<◌, sym, inl, inr, refl, true, false, Bool-cases, Option-cases, Option, none, some,
  List, leb, arith,
}
use mina_evm_l.World.{ok, err, Error, rpc_error}
use mina_evm_l.Derivation.{
  Attributes, Payload, produced, end_of_source, unproduced, Kona, Tip, Iteration, returns,
  continues, strip, or_empty, decode_all, construct, executed, retry, execute, derive, iterate,
}

module _ (kona : Kona) where
  -- The new tip is the block of a header that was executed, with the output root after it.
  pub record IsTip (header : kona.Header) (attributes : Attributes kona.Rest) (s : kona.State)
      (tip : Tip kona) (s' : kona.State) : Type 0 where
    pub txs : List kona.Transaction
    pub origin : kona.Origin
    pub decoded : decode_all kona (or_empty kona attributes.transactions) ≡ some txs
    pub has_origin : kona.origin s ≡ some origin
    pub is_block : kona.from_block_and_genesis header txs ≡ some tip.l2_safe_head
    pub has_header : tip.l2_safe_head_header ≡ header
    pub has_root : kona.compute_output_root s ≡ some tip.l2_safe_head_output_root
    pub advanced : s' ≡ kona.advance origin tip s

  -- The next block: the payload that was derived, executed on the tip; or else, from Holocene on, its deposits.
  pub data IsBlock (tip : Tip kona) (s : kona.State) (tip' : Tip kona) (s' : kona.State)
      : Type 0 where
    by_payload :
        (attributes : Attributes kona.Rest) (s1 s2 : kona.State) (header : kona.Header)
        → kona.produce_payload tip.l2_safe_head s ≡ (produced attributes, s1)
        → kona.execute_payload attributes (kona.update_safe_head tip.l2_safe_head_header s1)
          ≡ (some header, s2)
        → IsTip header attributes s2 tip' s'
        → IsBlock tip s tip' s'
    by_deposits :
        (attributes : Attributes kona.Rest) (s1 s2 s3 s4 : kona.State) (header : kona.Header)
        → kona.produce_payload tip.l2_safe_head s ≡ (produced attributes, s1)
        → kona.execute_payload attributes (kona.update_safe_head tip.l2_safe_head_header s1)
          ≡ (none, s2)
        → kona.is_holocene_active attributes.timestamp ≡ true
        → kona.flush_channel s2 ≡ some s3
        → kona.execute_payload
            (strip kona attributes)
            (kona.update_safe_head tip.l2_safe_head_header s3)
          ≡ (some header, s4)
        → IsTip header (strip kona attributes) s4 tip' s'
        → IsBlock tip s tip' s'

  -- Before Holocene a payload that cannot be executed is left out.
  pub record IsDiscarded (tip : Tip kona) (s s' : kona.State) : Type 0 where
    pub attributes : Attributes kona.Rest
    pub s1 : kona.State
    pub derived : kona.produce_payload tip.l2_safe_head s ≡ (produced attributes, s1)
    pub failed :
        kona.execute_payload attributes (kona.update_safe_head tip.l2_safe_head_header s1)
        ≡ (none, s')
    pub early : kona.is_holocene_active attributes.timestamp ≡ false

  -- The ways in which an iteration towards a target may end.
  pub data Iterates (target : ℕ) (tip : Tip kona) (s : kona.State) : Iteration kona → Type 0 where
    reached :
        target ≤ kona.number tip.l2_safe_head
        → Iterates target tip s (returns (ok (tip.l2_safe_head, tip.l2_safe_head_output_root)))
    failed : (e : Error) → Iterates target tip s (returns (err e))
    exhausted :
        (s' : kona.State)
        → kona.produce_payload tip.l2_safe_head s ≡ (end_of_source, s')
        → kona.is_interop_active (kona.number tip.l2_safe_head) ≡ false
        → Iterates target tip s (continues (some (kona.number tip.l2_safe_head)) tip s')
    built :
        (tip' : Tip kona) (s' : kona.State)
        → IsBlock tip s tip' s'
        → Iterates target tip s (continues (some target) tip' s')
    discarded :
        (s' : kona.State)
        → IsDiscarded tip s s'
        → Iterates target tip s (continues (some target) tip s')

  construct-Iterates :
      (target : ℕ) (tip : Tip kona) (s : kona.State) (header : kona.Header)
      (attributes : Attributes kona.Rest) (s2 : kona.State)
      → ((tip' : Tip kona) (s' : kona.State)
          → IsTip header attributes s2 tip' s'
          → IsBlock tip s tip' s')
      → Iterates target tip s (construct kona (some target) header attributes s2)
  unfolding construct
  construct-Iterates target tip s header attributes s2 block =
      elim (Option-cases (decode_all kona (or_empty kona attributes.transactions))) [
        | inl e ↦ rw (e, construct) (failed rpc_error)
        | inr (txs, e) ↦ elim (Option-cases (kona.origin s2)) [
          | inl e1 ↦ rw (e, e1, construct) (failed rpc_error)
          | inr (origin, e1) ↦ elim (Option-cases (kona.from_block_and_genesis header txs)) [
            | inl e2 ↦ rw (e, e1, e2, construct) (failed rpc_error)
            | inr (l2_info, e2) ↦ elim (Option-cases (kona.compute_output_root s2)) [
              | inl e3 ↦ rw (e, e1, e2, e3, construct) (failed rpc_error)
              | inr (root, e3) ↦
                  rw (e, e1, e2, e3, construct)
                    (built _ _ (
                      block _ _ (record {
                        txs = txs;
                        origin = origin;
                        decoded = e;
                        has_origin = e1;
                        is_block = e2;
                        has_header = refl;
                        has_root = e3;
                        advanced = refl;
                      })))
            ]
          ]
        ]
      ]

  retry-Iterates :
      (target : ℕ) (tip : Tip kona) (s : kona.State) (attributes : Attributes kona.Rest)
      (s1 s2 : kona.State)
      → kona.produce_payload tip.l2_safe_head s ≡ (produced attributes, s1)
      → kona.execute_payload attributes (kona.update_safe_head tip.l2_safe_head_header s1)
        ≡ (none, s2)
      → kona.is_holocene_active attributes.timestamp ≡ true
      → (o : Option kona.State) → kona.flush_channel s2 ≡ o
      → Iterates target tip s (retry kona (some target) tip attributes o)
  retry-Iterates target tip s attributes s1 s2 p f h none e = failed rpc_error
  retry-Iterates target tip s attributes s1 s2 p f h (some s3) e = go _ refl
    where
      go :
          (r : Option kona.Header × kona.State)
          → kona.execute_payload
              (strip kona attributes)
              (kona.update_safe_head tip.l2_safe_head_header s3)
            ≡ r
          → Iterates target tip s (executed kona (some target) (strip kona attributes) r)
      go (none, s4) e' = failed rpc_error
      go (some header, s4) e' =
          construct-Iterates target tip s header (strip kona attributes) s4
            (λ tip' s' is_tip. by_deposits attributes s1 s2 s3 s4 header p f h e e' is_tip)

  execute-Iterates :
      (target : ℕ) (tip : Tip kona) (s : kona.State) (attributes : Attributes kona.Rest)
      (s1 : kona.State)
      → kona.produce_payload tip.l2_safe_head s ≡ (produced attributes, s1)
      → (r : Option kona.Header × kona.State)
      → kona.execute_payload attributes (kona.update_safe_head tip.l2_safe_head_header s1) ≡ r
      → Iterates target tip s (execute kona (some target) tip attributes r)
  execute-Iterates target tip s attributes s1 p (some header, s2) e =
      construct-Iterates target tip s header attributes s2
        (λ tip' s' is_tip. by_payload attributes s1 s2 header p e is_tip)
  execute-Iterates target tip s attributes s1 p (none, s2) e =
      elim (Bool-cases (kona.is_holocene_active attributes.timestamp)) [
        | inl h ↦
            rw h (retry-Iterates target tip s attributes s1 s2 p e h (kona.flush_channel s2) refl)
        | inr h ↦ rw h (
            discarded s2
              (record { attributes = attributes; s1 = s1; derived = p; failed = e; early = h }))
      ]

  derive-Iterates :
      (target : ℕ) (tip : Tip kona) (s : kona.State) (r : Payload kona.Rest × kona.State)
      → kona.produce_payload tip.l2_safe_head s ≡ r
      → Iterates target tip s (derive kona (some target) tip r)
  derive-Iterates target tip s (unproduced, s1) p = failed rpc_error
  derive-Iterates target tip s (end_of_source, s1) p =
      elim (Bool-cases (kona.is_interop_active (kona.number tip.l2_safe_head))) [
        | inl e ↦ rw e (failed rpc_error)
        | inr e ↦ rw e (exhausted s1 p e)
      ]
  derive-Iterates target tip s (produced attributes, s1) p =
      execute-Iterates target tip s attributes s1 p _ refl

  pub iterate-Iterates :
      (target : ℕ) (tip : Tip kona) (s : kona.State)
      → Iterates target tip s (iterate kona (some target) tip s)
  unfolding iterate
  iterate-Iterates target tip s = elim (Bool-cases (leb target (kona.number tip.l2_safe_head))) [
    | inl e ↦ rw e (reached (ground (arith, e)))
    | inr e ↦ rw e (derive-Iterates target tip s _ refl)
  ]

  -- What a block, a payload left out, the target and the end of the source make an iteration do.
  construct-IsTip :
      (target : Option ℕ) (header : kona.Header) (attributes : Attributes kona.Rest)
      (s s' : kona.State) (tip' : Tip kona)
      → IsTip header attributes s tip' s'
      → construct kona target header attributes s ≡ continues target tip' s'
  unfolding construct
  construct-IsTip target header attributes s s' tip' h =
      rw (h.decoded, construct)
        (rw h.has_origin (rw h.is_block (rw h.has_root (rw (sym h.has_header, h.advanced) refl))))

  not_reached : (target : ℕ) (n : ℕ) → n < target → leb target n ≡ false
  not_reached target n lt = ground arith

  pub iterate-IsBlock :
      (target : ℕ) (t t' : Tip kona) (s s' : kona.State)
      → kona.number t.l2_safe_head < target
      → IsBlock t s t' s'
      → iterate kona (some target) t s ≡ continues (some target) t' s'
  unfolding iterate
  iterate-IsBlock target t t' s s' lt (by_payload attributes s1 s2 header p e is_tip) =
      rw (not_reached target (kona.number t.l2_safe_head) lt, iterate)
        (rw p (rw e (construct-IsTip (some target) header attributes s2 s' t' is_tip)))
  iterate-IsBlock target t t' s s' lt
        (by_deposits attributes s1 s2 s3 s4 header p e late flush e' is_tip) =
      rw (not_reached target (kona.number t.l2_safe_head) lt, iterate)
        (rw p (
          rw e (
            rw late (
              rw flush (
                rw e' (
                  construct-IsTip (some target) header (strip kona attributes) s4 s' t' is_tip))))))

  pub iterate-IsDiscarded :
      (target : ℕ) (t : Tip kona) (s s' : kona.State)
      → kona.number t.l2_safe_head < target
      → IsDiscarded t s s'
      → iterate kona (some target) t s ≡ continues (some target) t s'
  unfolding iterate
  iterate-IsDiscarded target t s s' lt d =
      rw (not_reached target (kona.number t.l2_safe_head) lt, iterate)
        (rw d.derived (rw d.failed (rw d.early refl)))

  pub iterate-reached :
      (target : ℕ) (t : Tip kona) (s : kona.State)
      → target ≤ kona.number t.l2_safe_head
      → iterate kona (some target) t s ≡ returns (ok (t.l2_safe_head, t.l2_safe_head_output_root))
  unfolding iterate
  iterate-reached target t s le =
      let here : leb target (kona.number t.l2_safe_head) ≡ true = ground arith in
      rw (here, iterate) refl

  pub iterate-exhausted :
      (target : ℕ) (t : Tip kona) (s s' : kona.State)
      → kona.number t.l2_safe_head < target
      → kona.produce_payload t.l2_safe_head s ≡ (end_of_source, s')
      → kona.is_interop_active (kona.number t.l2_safe_head) ≡ false
      → iterate kona (some target) t s ≡ continues (some (kona.number t.l2_safe_head)) t s'
  unfolding iterate
  iterate-exhausted target t s s' lt p e =
      rw (not_reached target (kona.number t.l2_safe_head) lt, iterate) (rw p (rw e refl))
