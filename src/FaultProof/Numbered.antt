-- ===== src/FaultProof/Numbered.antt =====
-- Where the searches of fault-proof/src/lib.rs do not panic.
use mina_evm_l.Prelude.{
  ℕ, zero, suc, ◌-◌, ◌^◌, ◌<◌, ◌≤◌, ◌≡◌, refl, inl, inr, Bool, true, false, not, Option, none, some,
  ltb, lt→ltb, if◌then◌else◌, Bool-cases, arith,
}
use mina_evm_l.Request.{B256, Address}
use mina_evm_l.World.{Outcome, ok, err, panic}
use mina_evm_l.World.Outcomes.{◌>>=◌, or_err}
use mina_evm_l.FaultProof.{ProposalStatus, Games, fetch_latest_game_index}
use mina_evm_l.FaultProof.Search.{
  message_passer, compute_output_root_at_block, search, examine, oldest_in, get_oldest_game_address,
}

-- The blocks of the games have numbers that fit a u64.
abbrev pub IsNumbered : Games → Type 0
IsNumbered games =
    (address : Address) (block_number : ℕ)
    → games.l2_block_number address ≡ some block_number
    → block_number < 2 ^ 64

-- A result that is no panic.
abbrev pub IsCaught : {A : Type 0} → Outcome A → Type 0
IsCaught panic = ⊥
IsCaught _ = Unit

pub caught-panic : {A : Type 0} (r : Outcome A) → IsCaught r → r ≡ panic → ⊥
caught-panic (ok a) h e = absurd cc
caught-panic (err x) h e = absurd cc
caught-panic panic h e = h

module _ {A B : Type 0} where
  or_err-IsCaught :
      (o : Option A) (f : A → Outcome B)
      → ((a : A) → o ≡ some a → IsCaught (f a))
      → IsCaught (or_err o >>= f)
  or_err-IsCaught none f h = tt
  or_err-IsCaught (some a) f h = h a refl

  bind-IsCaught :
      (r : Outcome A) (f : A → Outcome B)
      → IsCaught r
      → ((a : A) → IsCaught (f a))
      → IsCaught (r >>= f)
  bind-IsCaught (ok a) f c h = h a
  bind-IsCaught (err e) f c h = tt
  bind-IsCaught panic f c h = c

if-IsCaught :
    {A : Type 0} (b : Bool) (r s : Outcome A)
    → IsCaught r
    → IsCaught s
    → IsCaught (if b then r else s)
if-IsCaught true r s h k = h
if-IsCaught false r s h k = k

module _ (games : Games) where
  root-IsCaught : (block : ℕ) → block < 2 ^ 64 → IsCaught (compute_output_root_at_block games block)
  unfolding compute_output_root_at_block
  root-IsCaught block small = rw (lt→ltb block (2 ^ 64) small) (
      or_err-IsCaught (games.l2_block block) _
        (λ _ _. or_err-IsCaught (games.l2_storage_root message_passer block) _ (λ _ _. tt)))

  pub compute_output_root_at_block-panics :
      (block : ℕ) → compute_output_root_at_block games block ≡ panic → 2 ^ 64 ≤ block
  compute_output_root_at_block-panics block e = elim (Bool-cases (ltb block (2 ^ 64))) [
    | inl small ↦ absurd (
        caught-panic (compute_output_root_at_block games block)
          (root-IsCaught block (ground (arith, small))) e)
    | inr large ↦ ground (arith, large)
  ]

module _ (games : Games) (numbered : IsNumbered games) (status_check : ProposalStatus → Bool)
    (output_root_check : B256 → B256 → Bool) where
  examine-IsCaught : (index : ℕ) → IsCaught (examine games status_check output_root_check index)
  unfolding examine
  examine-IsCaught index = or_err-IsCaught (games.game_at_index index) _ (λ address _.
      or_err-IsCaught (games.claim_data address) _ (λ claim _.
        if-IsCaught (not (status_check claim.status)) (ok none) _ tt (
          or_err-IsCaught games.latest_timestamp _ (λ now _.
            if-IsCaught (ltb claim.deadline now) (ok none) _ tt (
              or_err-IsCaught (games.l2_block_number address) _ (λ block is_block.
                or_err-IsCaught (games.root_claim address) _ (λ game_claim _.
                  bind-IsCaught (compute_output_root_at_block games block) _
                    (root-IsCaught games block (numbered address block is_block))
                    (λ output_root.
                      if-IsCaught (output_root_check output_root game_claim) (ok (some address))
                        (ok none) tt tt))))))))

  search-IsCaught :
      (look : ℕ → Outcome (Option Address))
      → ((i : ℕ) → IsCaught (look i))
      → (left lo : ℕ) → IsCaught (search look left lo)
  unfolding search
  search-IsCaught look h zero lo = tt
  search-IsCaught look h (suc left) lo = go _ refl (h lo) (search-IsCaught look h left (suc lo))
    where
      go :
          (o : Outcome (Option Address))
          → look lo ≡ o
          → IsCaught o
          → IsCaught (search look left (suc lo))
          → IsCaught (search look (suc left) lo)
      go (err x) e c rest = rw (e, search) tt
      go panic e c rest = absurd c
      go (ok none) e c rest = rw (e, search) rest
      go (ok (some a)) e c rest = rw (e, search) tt

  pub get_oldest_game_address-IsCaught :
      (max : ℕ) → IsCaught (get_oldest_game_address games max status_check output_root_check)
  unfolding get_oldest_game_address
  get_oldest_game_address-IsCaught max =
      or_err-IsCaught (fetch_latest_game_index games) _ (λ latest _. in_window latest)
    where
      in_window :
          (latest : Option ℕ)
          → IsCaught (oldest_in games (examine games status_check output_root_check) max latest)
      in_window none = tt
      in_window (some latest) =
          search-IsCaught (examine games status_check output_root_check) examine-IsCaught
            (suc (latest - (latest - max))) (latest - max)
