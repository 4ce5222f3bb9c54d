-- ===== src/FaultProof/Bonds.antt =====
-- What `get_oldest_claimable_bond_game_address` of fault-proof/src/lib.rs finds.
use mathlib.Core.Path.{subst}
use mina_evm_l.Prelude.{
  ℕ, zero, suc, ◌-◌, ◌<◌, ◌≡◌, refl, sym, ap, ◌∙◌, Bool, true, false, not, Option, some, arith,
  ◌==◌, min, if◌then◌else◌,
}
use mina_evm_l.Request.{Address}
use mina_evm_l.FaultProof.{
  ClaimData, ProposalStatus, resolved, Games, is_resolved, fetch_latest_game_index, is_claimable,
  claimable_at, get_oldest_claimable_bond_game_address,
}
use mina_evm_l.FaultProof.Scan.{bind-some, when-some, IsOldest, scan-IsOldest}

-- The game at an index is resolved and finalized, and the claimant has credit left in it.
pub record IsClaimable (games : Games) (claimant : Address) (index : ℕ) (address : Address)
    : Type 0 where
  pub claim : ClaimData
  pub credit : ℕ
  pub at_index : games.game_at_index index ≡ some address
  pub has_claim : games.claim_data address ≡ some claim
  pub status : claim.status ≡ resolved
  pub finalized : games.is_game_finalized address ≡ some true
  pub has_credit : games.credit address claimant ≡ some credit
  pub left : 0 < credit

unless-true :
    (t : Bool) (o : Option Bool)
    → (if t then some false else o) ≡ some true
    → (t ≡ false) × (o ≡ some true)
unless-true true o h = absurd cc
unless-true false o h = (refl, h)

module _ (games : Games) (claimant : Address) where
  IsClaimable-claimable_at :
      (index : ℕ) (address : Address)
      → IsClaimable games claimant index address
      → claimable_at games claimant index ≡ some (some address)
  unfolding claimable_at is_claimable
  IsClaimable-claimable_at index address c = rw c.at_index (
      rw c.has_claim
        (rw c.status (rw c.finalized (rw c.has_credit (rw (some_left c.credit c.left) refl)))))
    where
      some_left : (n : ℕ) → 0 < n → (n == 0) ≡ false
      some_left n lt = ground arith

  claimable_at-IsClaimable :
      (index : ℕ) (address : Address)
      → claimable_at games claimant index ≡ some (some address)
      → IsClaimable games claimant index address
  unfolding claimable_at is_claimable
  claimable_at-IsClaimable index address h =
      let (a, at_index, h1) = bind-some (games.game_at_index index) _ (some address) h in
      let (claimable, has, h2) = bind-some (is_claimable games claimant a) _ (some address) h1 in
      let (is_true, same) = when-some claimable a address h2 in
      let (claim, has_claim, h3) = bind-some (games.claim_data a) _ true (has ∙ ap some is_true) in
      let (over, h4) = unless-true (not (is_resolved claim.status)) _ h3 in
      let (finalized, has_finalized, h5) = bind-some (games.is_game_finalized a) _ true h4 in
      let (final, h6) = unless-true (not finalized) _ h5 in
      let (credit, has_credit, h7) = bind-some (games.credit a claimant) _ true h6 in
      subst (λ (x : Address). IsClaimable games claimant index x) same
        (record {
          claim = claim;
          credit = credit;
          at_index = at_index;
          has_claim = has_claim;
          status = settled claim.status over;
          finalized = has_finalized ∙ ap some (negated finalized final);
          has_credit = has_credit;
          left = nonzero credit h7;
        })
    where
      settled : (s : ProposalStatus) → not (is_resolved s) ≡ false → s ≡ resolved
      settled resolved e = refl
      settled _ e = absurd cc

      negated : (b : Bool) → not b ≡ false → b ≡ true
      negated true e = refl
      negated false e = absurd cc

      nonzero : (n : ℕ) → some (not (n == 0)) ≡ some true → 0 < n
      nonzero zero e = absurd cc
      nonzero (suc n) e = omega arith

-- With `latest` the index of the latest game: unless a query fails, the search for a bond finds the first
-- game from `latest - max` up to but not including `latest` that is resolved and finalized and in which the
-- claimant has credit left, or that there is none.
pub get_oldest_claimable_bond_game_address-IsOldest :
    (games : Games) (max latest : ℕ) (claimant : Address) (r : Option Address)
    → games.game_count ≡ some (suc latest)
    → get_oldest_claimable_bond_game_address games max claimant ≡ some r
    → IsOldest (IsClaimable games claimant) (latest - max) (min latest max) r
unfolding get_oldest_claimable_bond_game_address fetch_latest_game_index
get_oldest_claimable_bond_game_address-IsOldest games max latest claimant r counted h =
    scan-IsOldest (claimable_at games claimant) (IsClaimable games claimant)
      (claimable_at-IsClaimable games claimant) (IsClaimable-claimable_at games claimant)
      (min latest max) (latest - max) r (sym (rw counted refl) ∙ h)
