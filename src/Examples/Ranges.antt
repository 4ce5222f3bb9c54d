-- ===== src/Examples/Ranges.antt =====
-- An instance of the property of the range program: a source with a payload for each block, whose state is the
-- number of payloads left.
use mina_evm_l.Prelude.{
  ℕ, zero, suc, ◌+◌, ◌≡◌, ◌<◌, ◌≤◌, refl, ap, true, false, some, [], ◌∷◌, arith,
}
use mina_evm_l.World.{Outcome, ok}
use mina_evm_l.Aggregation.{BootInfo}
use mina_evm_l.Derivation.{
  Attributes, Payload, produced, end_of_source, Kona, RangeBoot, Tip, commit, run_range_program,
}
use mina_evm_l.Derivation.Valid.{IsCommitted, run_range_program-IsCommitted}
use mina_evm_l.Derivation.Ends.{IsFinite}

abbrev payload : ℕ → ℕ → Payload ℕ × ℕ
payload block zero = (end_of_source, zero)
payload block (suc left) = (
  produced (record { timestamp = block + 1; transactions = some ((126 ∷ []) ∷ []); rest = 0 }),
  left,
)

-- The header of a block is its number, and its output root is 1000 past what is left of the source.
abbrev kona : Kona
kona = record {
  State = ℕ;
  Block = ℕ;
  Header = ℕ;
  Rest = ℕ;
  Transaction = ℕ;
  Origin = ℕ;
  number = λ block. block;
  header_number = λ header. header;
  is_interop_active = λ number. false;
  is_holocene_active = λ timestamp. true;
  produce_payload = payload;
  update_safe_head = λ header s. s;
  execute_payload = λ attributes s. (some attributes.timestamp, s);
  flush_channel = λ s. some s;
  decode = λ tx. some 0;
  origin = λ s. some 5;
  from_block_and_genesis = λ header txs. some header;
  compute_output_root = λ s. some (1000 + s);
  advance = λ origin tip s. s;
  hash_rollup_config = 3;
}

abbrev agreed : Tip kona
agreed = record { l2_safe_head = 1; l2_safe_head_header = 1; l2_safe_head_output_root = 0 }

abbrev boot : RangeBoot
boot = record {
  l1_head = 9;
  agreed_l2_output_root = 4;
  claimed_l2_output_root = 1003;
  claimed_l2_block_number = 3;
}

payload-less :
    (block : ℕ) (attributes : Attributes ℕ) (s s' : ℕ)
    → payload block s ≡ (produced attributes, s')
    → s' < s
payload-less block attributes zero s' e = absurd (apart (ap (λ (x : Payload ℕ × ℕ). x.0) e))
  where
    apart : end_of_source ≡ produced attributes → ⊥
    apart h = absurd cc
payload-less block attributes (suc s) s' e =
    let same : s ≡ s' = ap (λ (x : Payload ℕ × ℕ). x.1) e in omega (arith, same)

kona-IsFinite : IsFinite kona (λ left. left)
kona-IsFinite = record {
  consumes = payload-less;
  updates = λ header s. omega arith;
  executes = λ attributes s. omega arith;
  flushes = λ s s' e. less s s' e;
  advances = λ origin tip s. omega arith;
}
  where
    less : (s s' : ℕ) → some s ≡ some s' → s' ≤ s
    less s s' e = let same : s ≡ s' = cc in omega (arith, same)

run_range_program-IsCommitted_example :
    (r : Outcome BootInfo) × (run_range_program kona 7 boot agreed 5 ≡ some r)
    × IsCommitted kona boot agreed 5 r
    × ((r' : Outcome BootInfo) → IsCommitted kona boot agreed 5 r' → r ≡ r')
run_range_program-IsCommitted_example =
    run_range_program-IsCommitted kona (λ left. left) boot agreed 5 7 kona-IsFinite (omega arith)

commits_boot : run_range_program kona 7 boot agreed 5 ≡ some (ok (commit kona boot))
unfolding run_range_program
commits_boot = refl

-- With two payloads left the blocks end at 3, and a claim of its root for block 10 is committed.
abbrev late_boot : RangeBoot
late_boot = record {
  l1_head = 9;
  agreed_l2_output_root = 4;
  claimed_l2_output_root = 1000;
  claimed_l2_block_number = 10;
}

commits_late_boot : run_range_program kona 4 late_boot agreed 2 ≡ some (ok (commit kona late_boot))
unfolding run_range_program
commits_late_boot = refl
