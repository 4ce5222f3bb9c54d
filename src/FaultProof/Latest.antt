-- ===== src/FaultProof/Latest.antt =====
-- What `get_latest_valid_proposal` of fault-proof/src/lib.rs finds.
use mathlib.Core.Path.{subst}
use mina_evm_l.Prelude.{
  ℕ, zero, suc, ◌≤◌, ◌<◌, ◌≡◌, refl, sym, ap, ◌∙◌, true, Option, none, some, arith, ◌==◌, dec_lt,
}
use mina_evm_l.Request.{B256, Address}
use mina_evm_l.World.{Outcome, ok, err, panic}
use mina_evm_l.World.Outcomes.{or_err-ok, bind-ok, when-ok}
use mina_evm_l.FaultProof.{Games, fetch_latest_game_index}
use mina_evm_l.FaultProof.Search.{
  compute_output_root_at_block, proposal_at, scan_down, get_latest_valid_proposal,
}

-- The game at an index claims the output root of its block.
pub record IsRight (games : Games) (index block_number : ℕ) : Type 0 where
  pub address : Address
  pub root : B256
  pub at_index : games.game_at_index index ≡ some address
  pub at_block : games.l2_block_number address ≡ some block_number
  pub claims : games.root_claim address ≡ some root
  pub computed : compute_output_root_at_block games block_number ≡ ok root

-- The latest right game up to an index, with its block, or that there is none.
pub data IsLatest (games : Games) (latest : ℕ) : Option (ℕ × ℕ) → Type 0 where
  found :
      (index block_number : ℕ)
      → index ≤ latest
      → IsRight games index block_number
      → ((j other : ℕ) → index < j → j ≤ latest → ¬ (IsRight games j other))
      → IsLatest games latest (some (block_number, index))
  nowhere : ((j other : ℕ) → j ≤ latest → ¬ (IsRight games j other)) → IsLatest games latest none

module _ (games : Games) where
  -- What the loop makes of what it finds of a game.
  abbrev first_of : Outcome (Option ℕ) → Outcome (Option (ℕ × ℕ))
  first_of (err e) = err e
  first_of panic = panic
  first_of (ok none) = ok none
  first_of (ok (some b)) = ok (some (b, 0))

  abbrev next_of : ℕ → Outcome (Option ℕ) → Outcome (Option (ℕ × ℕ))
  next_of i (err e) = err e
  next_of i panic = panic
  next_of i (ok none) = scan_down games i
  next_of i (ok (some b)) = ok (some (b, suc i))

  IsRight-proposal_at :
      (index block_number : ℕ)
      → IsRight games index block_number
      → proposal_at games index ≡ ok (some block_number)
  unfolding proposal_at
  IsRight-proposal_at index block_number c =
      rw c.at_index (rw c.at_block (rw c.claims (rw c.computed (rw (same c.root) refl))))
    where
      same : (n : ℕ) → (n == n) ≡ true
      same n = ground arith

  proposal_at-IsRight :
      (index block_number : ℕ)
      → proposal_at games index ≡ ok (some block_number)
      → IsRight games index block_number
  unfolding proposal_at
  proposal_at-IsRight index block_number h =
      let (a, at_index, h1) = or_err-ok (games.game_at_index index) _ (some block_number) h in
      let (b, at_block, h2) = or_err-ok (games.l2_block_number a) _ (some block_number) h1 in
      let (claim, claims, h3) = or_err-ok (games.root_claim a) _ (some block_number) h2 in
      let (root, computed, h4) =
        bind-ok (compute_output_root_at_block games b) _ (some block_number) h3 in
      let (compared, same) = when-ok (root == claim) b block_number h4 in
      let equal : root ≡ claim = ground (arith, compared) in
      subst (λ (n : ℕ). IsRight games index n) same
        (record {
          address = a;
          root = claim;
          at_index = at_index;
          at_block = at_block;
          claims = claims;
          computed = computed ∙ ap (λ (n : ℕ). ok n) equal;
        })

  wrong :
      (index : ℕ) → proposal_at games index ≡ ok none → (other : ℕ) → ¬ (IsRight games index other)
  wrong index h other c = distinct (proposal_at games index) h (IsRight-proposal_at index other c)
    where
      distinct : (o : Outcome (Option ℕ)) → o ≡ ok none → o ≡ ok (some other) → ⊥
      distinct o e e' = cc

  at_or_below :
      (latest : ℕ)
      → ((other : ℕ) → ¬ (IsRight games (suc latest) other))
      → (j other : ℕ) → (j ≤ latest → ¬ (IsRight games j other))
      → j ≤ suc latest
      → ¬ (IsRight games j other)
  at_or_below latest last_wrong j other below le = elim (dec_lt latest j) [
    | yes lt ↦
        let e : suc latest ≡ j = omega arith in
        subst (λ (i : ℕ). ¬ (IsRight games i other)) e (last_wrong other)
    | no ge ↦ below (omega arith)
  ]

  -- The last game was wrong.
  earlier :
      (latest : ℕ) (r : Option (ℕ × ℕ))
      → ((other : ℕ) → ¬ (IsRight games (suc latest) other))
      → IsLatest games latest r
      → IsLatest games (suc latest) r
  earlier latest _ last_wrong (found index b le c after) =
      found index b (omega arith) c (λ j other lt le'.
        at_or_below latest last_wrong j other (λ le''. after j other lt le'') le')
  earlier latest _ last_wrong (nowhere none_here) =
      nowhere
        (λ j other le. at_or_below latest last_wrong j other (λ le'. none_here j other le') le)

  first : (o : Outcome (Option ℕ)) → proposal_at games 0 ≡ o → scan_down games 0 ≡ first_of o
  unfolding scan_down
  first (err x) e = rw (e, scan_down) refl
  first panic e = rw (e, scan_down) refl
  first (ok none) e = rw (e, scan_down) refl
  first (ok (some b)) e = rw (e, scan_down) refl

  next :
      (i : ℕ) (o : Outcome (Option ℕ))
      → proposal_at games (suc i) ≡ o
      → scan_down games (suc i) ≡ next_of i o
  unfolding scan_down
  next i (err x) e = rw (e, scan_down) refl
  next i panic e = rw (e, scan_down) refl
  next i (ok none) e = rw (e, scan_down) refl
  next i (ok (some b)) e = rw (e, scan_down) refl

  -- The last game is right.
  here : (i b : ℕ) → IsRight games i b → IsLatest games i (some (b, i))
  here i b c = found i b (omega arith) c (λ j other lt le. absurd (omega arith))

  scan_down-IsLatest :
      (latest : ℕ) (r : Option (ℕ × ℕ)) → scan_down games latest ≡ ok r → IsLatest games latest r
  scan_down-IsLatest zero r h = go _ refl
    where
      go : (o : Outcome (Option ℕ)) → proposal_at games 0 ≡ o → IsLatest games 0 r
      go (err x) e = absurd (cc (h, first (err x) e))
      go panic e = absurd (cc (h, first panic e))
      go (ok none) e =
          subst (λ (x : Option (ℕ × ℕ)). IsLatest games 0 x) (cc (h, first (ok none) e))
            (nowhere (λ j other le.
              let z : 0 ≡ j = omega arith in
              subst (λ (i : ℕ). ¬ (IsRight games i other)) z (wrong 0 e other)))
      go (ok (some b)) e =
          subst (λ (x : Option (ℕ × ℕ)). IsLatest games 0 x) (cc (h, first (ok (some b)) e))
            (here 0 b (proposal_at-IsRight 0 b e))
  scan_down-IsLatest (suc i) r h = go (λ r' h'. scan_down-IsLatest i r' h') _ refl
    where
      go :
          ((r' : Option (ℕ × ℕ)) → scan_down games i ≡ ok r' → IsLatest games i r')
          → (o : Outcome (Option ℕ)) → proposal_at games (suc i) ≡ o
          → IsLatest games (suc i) r
      go rest (err x) e = absurd (cc (h, next i (err x) e))
      go rest panic e = absurd (cc (h, next i panic e))
      go rest (ok none) e = earlier i r (wrong (suc i) e) (rest r (sym (next i (ok none) e) ∙ h))
      go rest (ok (some b)) e =
          subst (λ (x : Option (ℕ × ℕ)). IsLatest games (suc i) x) (cc (h, next i (ok (some b)) e))
            (here (suc i) b (proposal_at-IsRight (suc i) b e))

-- With `latest` the index of the latest game, `get_latest_valid_proposal` finds, unless it fails, the
-- last game that claims the output root of its block, with that block, or that there is none.
pub get_latest_valid_proposal-IsLatest :
    (games : Games) (latest : ℕ) (r : Option (ℕ × ℕ))
    → games.game_count ≡ some (suc latest)
    → get_latest_valid_proposal games ≡ ok r
    → IsLatest games latest r
unfolding get_latest_valid_proposal fetch_latest_game_index
get_latest_valid_proposal-IsLatest games latest r counted h =
    scan_down-IsLatest games latest r (sym (rw counted refl) ∙ h)
