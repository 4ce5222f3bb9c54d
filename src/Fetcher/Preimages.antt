-- ===== src/Fetcher/Preimages.antt =====
-- What `get_header_preimages` of utils/host/src/fetcher.rs gives the aggregation program.
use mathlib.Core.Path.{subst}
use mina_evm_l.Prelude.{
  ℕ, suc, ◌+◌, ◌-◌, ◌^◌, ◌≤◌, ◌<◌, ◌≡◌, refl, sym, ap, ◌∙◌, Bool, true, Option, some, List, ◌∷◌,
  arith, All,
}
use mina_evm_l.Request.{B256}
use mina_evm_l.World.{ok}
use mina_evm_l.Aggregation.{BootInfo, AggregationInputs, outputs_of, main}
use mina_evm_l.Aggregation.Accepts.{IsSequential, IsHeaderChain, main-IsAccepted}
use mina_evm_l.Fetcher.{L1Header, get_header_preimages}
use mina_evm_l.Fetcher.Headers.{
  IsL1, IsAmong, listed, listed-IsHeaderChain, get_header_preimages-listed, All-included,
}

-- On an L1 node with the chain of headers, numbered below 2^64 - 1, and for range proofs whose L1 heads are
-- headers of it up to the checkpoint: `get_header_preimages` returns headers with which the aggregation
-- program, given range proofs that follow one another and verify and the checkpoint, yields its outputs.
pub get_header_preimages-main :
    (header_of : B256 → Option L1Header) (header_at : ℕ → Option L1Header) (header : ℕ → L1Header)
    (top c : ℕ) (pv_digest : BootInfo → B256) (verify_sp1_proof : List ℕ → B256 → Bool)
    (inputs : AggregationInputs) (first : BootInfo) (boot_infos : List BootInfo)
    → IsL1 header_of header_at header top
    → c ≤ top
    → top < 2 ^ 64 - 1
    → inputs.boot_infos ≡ first ∷ boot_infos
    → inputs.latest_l1_checkpoint_head ≡ (header c).hash
    → All (IsAmong header 0 c) (first ∷ boot_infos)
    → IsSequential first boot_infos
    → All (λ b. verify_sp1_proof inputs.multi_block_vkey (pv_digest b) ≡ true) (first ∷ boot_infos)
    → (headers : List L1Header) × (get_header_preimages header_of header_at inputs.boot_infos
          inputs.latest_l1_checkpoint_head
        ≡ ok headers)
      × (main
            (λ (h : L1Header). h.hash)
            (λ h. h.parent_hash)
            pv_digest
            verify_sp1_proof
            inputs
            (some headers)
          ≡ some (outputs_of inputs first boot_infos))
get_header_preimages-main header_of header_at header top c pv_digest verify_sp1_proof inputs first
      boot_infos l1 le small given checkpoint among sequential verified =
    let (m, below, found, from_m) =
      get_header_preimages-listed header_of header_at header top l1 first boot_infos c le small
        among in
    let e : m + (c - m) ≡ c = omega arith in
    (
      listed header m (suc (c - m)),
      ap
            (λ (bs : List BootInfo).
              get_header_preimages header_of header_at bs inputs.latest_l1_checkpoint_head)
            given
          ∙ ap (get_header_preimages header_of header_at (first ∷ boot_infos)) checkpoint
          ∙ found,
      (main-IsAccepted (λ (h : L1Header). h.hash) (λ h. h.parent_hash) pv_digest verify_sp1_proof
            inputs (listed header m (suc (c - m))) (outputs_of inputs first boot_infos)).1
          (record {
            first = first;
            boot_infos = boot_infos;
            some_range = given;
            sequential = sequential;
            verified = verified;
            chained =
                subst
                  (λ (k : B256).
                    IsHeaderChain (λ (h : L1Header). h.hash) (λ h. h.parent_hash) pv_digest
                      verify_sp1_proof (listed header m (suc (c - m))) k)
                  (ap (λ (n : ℕ). (header n).hash) e ∙ sym checkpoint)
                  (listed-IsHeaderChain header_of header_at header top l1 pv_digest verify_sp1_proof
                    (c - m) m);
            included =
                All-included header_of header_at header top l1 m c (first ∷ boot_infos) below
                  from_m;
            result = refl;
          }),
    )
