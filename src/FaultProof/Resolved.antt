-- ===== src/FaultProof/Resolved.antt =====
-- Which games `resolve_games` of fault-proof/src/lib.rs resolves.
use mathlib.Core.Path.{subst}
use mathlib.Core.List.{append_assoc, append-nil, Mem, mem-cons_self, mem-cons_of_mem}
use mina_evm_l.Prelude.{
  ℕ, zero, suc, ◌+◌, ◌-◌, ◌≤◌, ◌<◌, min, ◌≡◌, refl, sym, ap, ◌∙◌, inl, inr, Bool, true, false, not,
  Option, none, some, List, [], ◌∷◌, ◌++◌, arith, leb, if◌then◌else◌, Option-cases, All, All-weaken,
  dec_lt,
}
use mina_evm_l.Request.{Address}
use mina_evm_l.FaultProof.{
  GameStatus, in_progress, ClaimData, Mode, Games, is_in_progress, status_for,
  fetch_latest_game_index, should_attempt_resolution, to_resolve, try_resolve_games, resolve_from,
  resolve_up_to, resolve_games,
}
use mina_evm_l.FaultProof.Scan.{bind-some, unless-some}

-- The game is in progress, its status is the one that the mode resolves, and its deadline is past.
pub record IsDue (games : Games) (mode : Mode) (index : ℕ) (address : Address) : Type 0 where
  pub claim : ClaimData
  pub now : ℕ
  pub at_index : games.game_at_index index ≡ some address
  pub running : games.game_status address ≡ some in_progress
  pub has_claim : games.claim_data address ≡ some claim
  pub status : status_for mode claim.status ≡ true
  pub clock : games.latest_timestamp ≡ some now
  pub late : claim.deadline < now

abbrev pub due_then : Option (Option Address) → List Address → List Address
due_then (some (some address)) rest = address ∷ rest
due_then _ rest = rest

module _ (games : Games) (mode : Mode) where
  -- The games to resolve among the next ones, in order.
  abbrev pub due_from : ℕ → ℕ → List Address
  due_from zero index = []
  due_from (suc left) index = due_then (to_resolve games mode index) (due_from left (suc index))

  try-due :
      (index : ℕ) (sent rest : List Address)
      → (try_resolve_games games mode index sent).1 ++ rest
        ≡ sent ++ due_then (to_resolve games mode index) rest
  unfolding try_resolve_games
  try-due index sent rest = elim (Option-cases (to_resolve games mode index)) [
    | inl e ↦ rw (e, try_resolve_games) refl
    | inr (o, e) ↦ elim (Option-cases o) [
      | inl e' ↦ rw (e ∙ ap some e', try_resolve_games) refl
      | inr (a, e') ↦ rw (e ∙ ap some e', try_resolve_games) (append_assoc sent (a ∷ []) rest)
    ]
  ]

  resolve_from-due :
      (left index : ℕ) (sent : List Address)
      → resolve_from games mode left index sent ≡ sent ++ due_from left index
  unfolding resolve_from
  resolve_from-due zero index sent = sym (append-nil sent)
  resolve_from-due (suc left) index sent =
      resolve_from-due left (suc index) (try_resolve_games games mode index sent).1
      ∙ try-due index sent (due_from left (suc index))

  to_resolve-IsDue :
      (index : ℕ) (address : Address)
      → to_resolve games mode index ≡ some (some address)
      → IsDue games mode index address
  unfolding to_resolve
  to_resolve-IsDue index address h =
      let (a, at_index, h1) = bind-some (games.game_at_index index) _ (some address) h in
      let (status, has_status, h2) = bind-some (games.game_status a) _ (some address) h1 in
      let (running, h3) = unless-some (not (is_in_progress status)) _ address h2 in
      let (claim, has_claim, h4) = bind-some (games.claim_data a) _ (some address) h3 in
      let (right, h5) = unless-some (not (status_for mode claim.status)) _ address h4 in
      let (now, clock, h6) = bind-some games.latest_timestamp _ (some address) h5 in
      let (early, h7) = unless-some (leb now claim.deadline) _ address h6 in
      let same : a ≡ address = cc in
      subst (λ (x : Address). IsDue games mode index x) same
        (record {
          claim = claim;
          now = now;
          at_index = at_index;
          running = has_status ∙ ap some (progress status running);
          has_claim = has_claim;
          status = ground (arith, right);
          clock = clock;
          late = ground (arith, early);
        })
    where
      progress : (s : GameStatus) → not (is_in_progress s) ≡ false → s ≡ in_progress
      progress in_progress e = refl
      progress _ e = absurd cc

  -- The game is due at an index of the window.
  abbrev pub IsDueIn : ℕ → ℕ → Address → Type 0
  IsDueIn lo hi address = (i : ℕ) × (lo ≤ i) × (i < hi) × IsDue games mode i address

  due_from-IsDueIn : (left index : ℕ) → All (IsDueIn index (index + left)) (due_from left index)
  due_from-IsDueIn zero index = tt
  due_from-IsDueIn (suc left) index =
      let rest : All (IsDueIn index (index + suc left)) (due_from left (suc index)) =
        All-weaken
          (λ a (d : IsDueIn (suc index) (suc index + left) a).
            let (i, lo, hi, due) = d in (i, omega arith, omega arith, due))
          (due_from left (suc index)) (due_from-IsDueIn left (suc index)) in
      elim (Option-cases (to_resolve games mode index)) [
        | inl e ↦ rw e rest
        | inr (o, e) ↦ elim (Option-cases o) [
          | inl e' ↦ rw (e ∙ ap some e') rest
          | inr (a, e') ↦
              rw (e ∙ ap some e')
                ((index, omega arith, omega arith, to_resolve-IsDue index a (e ∙ ap some e')), rest)
        ]
      ]

module _ (games : Games) (mode : Mode) where
  IsDue-to_resolve :
      (index : ℕ) (address : Address)
      → IsDue games mode index address
      → to_resolve games mode index ≡ some (some address)
  unfolding to_resolve
  IsDue-to_resolve index address d = rw d.at_index (
      rw d.running
        (rw d.has_claim (rw d.status (rw d.clock (rw (past d.now d.claim.deadline d.late) refl)))))
    where
      past : (now deadline : ℕ) → deadline < now → leb now deadline ≡ false
      past now deadline lt = ground arith

  then-Mem :
      (o : Option (Option Address)) (address : Address) (rest : List Address)
      → Mem address rest
      → Mem address (due_then o rest)
  then-Mem none address rest m = m
  then-Mem (some none) address rest m = m
  then-Mem (some (some a)) address rest m = mem-cons_of_mem a m

  -- A game of the window that is due is among the games to resolve.
  IsDue-Mem :
      (left index i : ℕ) (address : Address)
      → index ≤ i
      → i < index + left
      → IsDue games mode i address
      → Mem address (due_from games mode left index)
  IsDue-Mem zero index i address le lt d = absurd (omega arith)
  IsDue-Mem (suc left) index i address le lt d = elim (dec_lt index i) [
    | yes before ↦
        then-Mem (to_resolve games mode index) address (due_from games mode left (suc index))
          (IsDue-Mem left (suc index) i address (omega arith) (omega arith) d)
    | no reached ↦
        let e : i ≡ index = omega arith in
        rw (ap (to_resolve games mode) (sym e) ∙ IsDue-to_resolve i address d) mem-cons_self
  ]

from_latest :
    (games : Games) (mode : Mode) (max latest : ℕ) (sent : List Address)
    → games.game_count ≡ some (suc latest)
    → resolve_games games mode max sent ≡ resolve_up_to games mode max (some latest) sent
unfolding resolve_games fetch_latest_game_index
from_latest games mode max latest sent counted = rw counted refl

-- With `latest` the index of the latest game: unless a query of its start fails, `resolve_games` sends
-- the resolutions of `due_from`, in order, if `should_attempt_resolution` says so of game `latest - max`,
-- and none otherwise. These are of games that are due with an index from `latest - max` up to but not
-- including `latest`, and every game that is due with such an index is among them.
pub resolve_games-IsDue :
    (games : Games) (mode : Mode) (max latest : ℕ) (sent after : List Address)
    → games.game_count ≡ some (suc latest)
    → resolve_games games mode max sent ≡ some after
    → (attempt : Bool) × (should_attempt_resolution games (latest - max) ≡ some attempt)
      × (after
          ≡ (if attempt then sent ++ due_from games mode (min latest max) (latest - max) else sent))
      × All
          (IsDueIn games mode (latest - max) latest)
          (due_from games mode (min latest max) (latest - max))
      × ((i : ℕ) (address : Address)
          → latest - max ≤ i
          → i < latest
          → IsDue games mode i address
          → Mem address (due_from games mode (min latest max) (latest - max)))
resolve_games-IsDue games mode max latest sent after counted h =
    let (attempt, attempted, rest) =
      bind-some (should_attempt_resolution games (latest - max))
        (λ attempt.
          if attempt
          then some (resolve_from games mode (min latest max) (latest - max) sent)
          else some sent)
        after (sym (from_latest games mode max latest sent counted) ∙ h) in
    let e : (latest - max) + min latest max ≡ latest = omega arith in
    (
      attempt,
      attempted,
      result attempt rest,
      subst
          (λ (hi : ℕ).
            All (IsDueIn games mode (latest - max) hi)
              (due_from games mode (min latest max) (latest - max)))
          e (due_from-IsDueIn games mode (min latest max) (latest - max)),
      λ i address lo hi d.
          IsDue-Mem games mode (min latest max) (latest - max) i address lo (omega arith) d,
    )
  where
    some_eq : (a b : List Address) → some a ≡ some b → a ≡ b
    some_eq a b e = cc

    result :
        (attempt : Bool)
        → (if attempt
            then some (resolve_from games mode (min latest max) (latest - max) sent)
            else some sent)
          ≡ some after
        → after
          ≡ (if attempt then sent ++ due_from games mode (min latest max) (latest - max) else sent)
    result true e =
        some_eq after _ (sym e) ∙ resolve_from-due games mode (min latest max) (latest - max) sent
    result false e = some_eq after sent (sym e)
