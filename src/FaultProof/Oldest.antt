-- ===== src/FaultProof/Oldest.antt =====
-- What `get_oldest_game_address` of fault-proof/src/lib.rs finds.
use mathlib.Core.Path.{subst}
use mina_evm_l.Prelude.{
  ℕ, suc, ◌-◌, ◌≤◌, ◌≡◌, refl, sym, ◌∙◌, Bool, true, false, not, Option, some, arith, ltb, ◌==◌,
}
use mina_evm_l.Request.{B256, Address}
use mina_evm_l.FaultProof.{
  ClaimData, ProposalStatus, Games, is_unchallenged, is_challenged, fetch_latest_game_index,
}
use mina_evm_l.FaultProof.Search.{
  compute_output_root_at_block, examine, get_oldest_game_address,
  get_oldest_challengable_game_address, get_oldest_defensible_game_address,
}
use mina_evm_l.FaultProof.Scan.{IsOldest, search-IsOldest}
use mina_evm_l.World.{Outcome, ok}
use mina_evm_l.World.Outcomes.{or_err-ok, bind-ok, unless-ok, when-ok}

-- The game at an index is looked for: its status is right, its deadline is not past, and its claim
-- compares with the output root of its block as it should.
pub record IsCandidate (games : Games) (status_check : ProposalStatus → Bool)
    (output_root_check : B256 → B256 → Bool) (index : ℕ) (address : Address) : Type 0 where
  pub claim : ClaimData
  pub now : ℕ
  pub block_number : ℕ
  pub game_claim : B256
  pub output_root : B256
  pub at_index : games.game_at_index index ≡ some address
  pub has_claim : games.claim_data address ≡ some claim
  pub status : status_check claim.status ≡ true
  pub clock : games.latest_timestamp ≡ some now
  pub in_time : now ≤ claim.deadline
  pub at_block : games.l2_block_number address ≡ some block_number
  pub claims : games.root_claim address ≡ some game_claim
  pub computed : compute_output_root_at_block games block_number ≡ ok output_root
  pub compared : output_root_check output_root game_claim ≡ true

module _ (games : Games) (status_check : ProposalStatus → Bool)
    (output_root_check : B256 → B256 → Bool) where
  abbrev look : ℕ → Outcome (Option Address)
  look index = examine games status_check output_root_check index

  IsCandidate-examine :
      (index : ℕ) (address : Address)
      → IsCandidate games status_check output_root_check index address
      → look index ≡ ok (some address)
  unfolding examine
  IsCandidate-examine index address c = rw c.at_index (
      rw c.has_claim (
        rw c.status (
          rw c.clock (
            rw (not_late c.now c.claim.deadline c.in_time)
              (rw c.at_block (rw c.claims (rw c.computed (rw c.compared refl))))))))
    where
      not_late : (now deadline : ℕ) → now ≤ deadline → ltb deadline now ≡ false
      not_late now deadline le = ground arith

module _ (games : Games) (status_check : ProposalStatus → Bool)
    (output_root_check : B256 → B256 → Bool) where
  examine-IsCandidate :
      (index : ℕ) (address : Address)
      → examine games status_check output_root_check index ≡ ok (some address)
      → IsCandidate games status_check output_root_check index address
  unfolding examine
  examine-IsCandidate index address h =
      let (a, at_index, h1) = or_err-ok (games.game_at_index index) _ (some address) h in
      let (claim, has_claim, h2) = or_err-ok (games.claim_data a) _ (some address) h1 in
      let (right, h3) = unless-ok (not (status_check claim.status)) _ address h2 in
      let (now, clock, h4) = or_err-ok games.latest_timestamp _ (some address) h3 in
      let (early, h5) = unless-ok (ltb claim.deadline now) _ address h4 in
      let (block_number, at_block, h6) = or_err-ok (games.l2_block_number a) _ (some address) h5 in
      let (game_claim, claims, h7) = or_err-ok (games.root_claim a) _ (some address) h6 in
      let (output_root, computed, h8) =
        bind-ok (compute_output_root_at_block games block_number) _ (some address) h7 in
      let (compared, same) = when-ok (output_root_check output_root game_claim) a address h8 in
      subst (λ (x : Address). IsCandidate games status_check output_root_check index x) same
        (record {
          claim = claim;
          now = now;
          block_number = block_number;
          game_claim = game_claim;
          output_root = output_root;
          at_index = at_index;
          has_claim = has_claim;
          status = ground (arith, right);
          clock = clock;
          in_time = ground (arith, early);
          at_block = at_block;
          claims = claims;
          computed = computed;
          compared = compared;
        })

get_oldest_game_address-IsOldest :
    (games : Games) (max latest : ℕ) (status_check : ProposalStatus → Bool)
    (output_root_check : B256 → B256 → Bool) (r : Option Address)
    → games.game_count ≡ some (suc latest)
    → get_oldest_game_address games max status_check output_root_check ≡ ok r
    → IsOldest
        (IsCandidate games status_check output_root_check)
        (latest - max)
        (suc (latest - (latest - max)))
        r
unfolding get_oldest_game_address fetch_latest_game_index
get_oldest_game_address-IsOldest games max latest status_check output_root_check r counted h =
    search-IsOldest (examine games status_check output_root_check)
      (IsCandidate games status_check output_root_check)
      (examine-IsCandidate games status_check output_root_check)
      (IsCandidate-examine games status_check output_root_check) (suc (latest - (latest - max)))
      (latest - max) r (sym (rw counted refl) ∙ h)

-- With `latest` the index of the latest game: unless the search fails, the challenger's search finds the
-- first game from `latest - max` to `latest` that is unchallenged, within its deadline, and claims another
-- root than the output root of its block, or that there is none.
pub get_oldest_challengable_game_address-IsOldest :
    (games : Games) (max latest : ℕ) (r : Option Address)
    → games.game_count ≡ some (suc latest)
    → get_oldest_challengable_game_address games max ≡ ok r
    → IsOldest
        (IsCandidate games is_unchallenged (λ output_root claim. not (output_root == claim)))
        (latest - max)
        (suc (latest - (latest - max)))
        r
unfolding get_oldest_challengable_game_address
get_oldest_challengable_game_address-IsOldest games max latest r counted h =
    get_oldest_game_address-IsOldest games max latest _ _ r counted h

-- With `latest` the index of the latest game: unless the search fails, the defender's search finds the first
-- game from `latest - max` to `latest` that is challenged, within its deadline, and claims the output root
-- of its block, or that there is none.
pub get_oldest_defensible_game_address-IsOldest :
    (games : Games) (max latest : ℕ) (r : Option Address)
    → games.game_count ≡ some (suc latest)
    → get_oldest_defensible_game_address games max ≡ ok r
    → IsOldest
        (IsCandidate games is_challenged (λ output_root claim. output_root == claim))
        (latest - max)
        (suc (latest - (latest - max)))
        r
unfolding get_oldest_defensible_game_address
get_oldest_defensible_game_address-IsOldest games max latest r counted h =
    get_oldest_game_address-IsOldest games max latest _ _ r counted h
