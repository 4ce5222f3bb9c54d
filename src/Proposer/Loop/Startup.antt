-- ===== src/Proposer/Loop/Startup.antt =====
-- What `new` and `initialize_proposer` of validity/src/proposer.rs leave.
use mina_evm_l.Prelude.{
  ℕ, ◌+◌, ◌<◌, ◌≡◌, refl, sym, ◌⊎◌, inl, inr, Bool, true, false, not, ◌&&◌, ◌||◌, Option, some, ap,
  List, [], ◌∷◌, ◌∙◌, arith, if◌then◌else◌, Bool-cases, map, filter, All, All-filter_holds,
}
use mina_evm_l.Request.{
  unrequested, witness_generation, execution, cancelled, Request, CommitmentConfig, Config,
}
use mina_evm_l.World.{World, Outcome, ok, err, panic}
use mina_evm_l.World.Triple.{
  After, Triple, Triple-pure, Triple-fail, Triple-or_err, Triple-unwrap, Triple-execute, Triple-if,
  Triple-bind, Triple-gets, Triple-query, Triple-known, Triple-weaken,
}
use mina_evm_l.Env.{Env}
use mina_evm_l.Db.Table.{Db, is_any, same_chain}
use mina_evm_l.Db.Updates.{
  delete_all_requests_with_statuses, cancel_prove_requests_with_different_commitment_config,
  is_foreign_prove, add_chain_lock,
}
use mina_evm_l.Db.Queries.{is_chain_locked}
use mina_evm_l.Db.Locks.{is_chain_locked-add_chain_lock}
use mina_evm_l.Proposer.Chain.{agrees, validate_contract_config}
use mina_evm_l.Proposer.Loop.{new, initialize_proposer}

-- A request of the chain that was not sent to the prover yet.
abbrev pub is_unsent : Config → Request → Bool
is_unsent config r =
    is_any (unrequested ∷ execution ∷ witness_generation ∷ []) r.status
    && same_chain config.l1_chain_id config.l2_chain_id r

-- Such a request, or one in Prove with other commitments.
abbrev pub is_stale : Config → Request → Bool
is_stale config r =
    is_unsent config r
    || is_foreign_prove config.commitments config.l1_chain_id config.l2_chain_id r

abbrev pub deleted : Config → Db → Db
deleted config db =
    delete_all_requests_with_statuses (unrequested ∷ execution ∷ witness_generation ∷ [])
      config.l1_chain_id config.l2_chain_id db

cancelled-fresh :
    (config : Config) (rows : List Request)
    → All (λ r. not (is_unsent config r) ≡ true) rows
    → All
        (λ r. is_stale config r ≡ false)
        (map
          (λ r.
            if is_foreign_prove config.commitments config.l1_chain_id config.l2_chain_id r
            then record r { status = cancelled }
            else r)
          rows)
cancelled-fresh config [] h = tt
cancelled-fresh config (r ∷ rows) h =
    elim (Bool-cases
      (is_foreign_prove config.commitments config.l1_chain_id config.l2_chain_id r)) [
        | inl e ↦ rw e (ground arith, cancelled-fresh config rows h.1)
        | inr e ↦ rw e (ground (arith, e), cancelled-fresh config rows h.1)
      ]

-- The proposer starts with a clean table: no request of its chain is unrequested, in execution or in
-- witness generation, and none is in Prove with other commitments.
pub record IsClean (env : Env) (config : Config) (db : Db) : Type 0 where
  pub theirs : CommitmentConfig
  pub answered : env.op_succinct_configs config.op_succinct_config_name_hash ≡ some theirs
  pub agreed : agrees config.commitments theirs ≡ true
  pub clean : All (λ r. is_stale config r ≡ false) db.requests

module _ (env : Env) (config : Config) where
  abbrev Agreed : Type 0
  Agreed =
      (theirs : CommitmentConfig) × (env.op_succinct_configs config.op_succinct_config_name_hash
        ≡ some theirs)
      × (agrees config.commitments theirs ≡ true)

  validate-Agreed :
      (before : Db)
      → Triple
          (λ w. w.db ≡ before)
          (λ _ w. Agreed × (w.db ≡ before))
          (λ w. w.db ≡ before)
          (validate_contract_config env config)
  unfolding validate_contract_config
  validate-Agreed before =
      Triple-bind
        (λ theirs w.
          (env.op_succinct_configs config.op_succinct_config_name_hash ≡ some theirs)
          × (w.db ≡ before))
        _ _ (Triple-or_err _ _ (λ _ e w h. (e, h)) (λ w h. h))
        (λ theirs.
          Triple-if (agrees config.commitments theirs) _ _
            (λ same. Triple-pure tt (λ w h. ((theirs, h.0, same), h.1)))
            (λ differ. Triple-fail _ (λ w h. h.1)))

  initialize_proposer-Triple :
      (before : Db)
      → Triple
          (λ w. w.db ≡ before)
          (λ _ w. IsClean env config w.db)
          (λ w. (w.db ≡ before) ⊎ (w.db ≡ deleted config before))
          (initialize_proposer config env)
  unfolding initialize_proposer delete_all_requests_with_statuses
      cancel_prove_requests_with_different_commitment_config
  initialize_proposer-Triple before =
      Triple-bind _ _ _ (Triple-weaken (λ _ w h. h) (λ w h. inl h) (validate-Agreed before)) (λ _.
        Triple-known (λ agreed.
          Triple-bind (λ _ w. w.db ≡ deleted config before) _ _
            (Triple-execute _ (λ w faults h. rw h refl) (λ w faults h. inl h))
            (λ _.
              Triple-execute _
                (λ w faults h. record {
                  theirs = agreed.0;
                  answered = agreed.1;
                  agreed = agreed.2;
                  clean = rw h (
                      cancelled-fresh config
                        (filter (λ r. not (is_unsent config r)) before.requests)
                        (All-filter_holds (λ r. not (is_unsent config r)) before.requests));
                })
                (λ w faults h. inr h))))

-- When `initialize_proposer` succeeds, the contract's configuration is the proposer's, and no request of
-- its chain is unrequested, in execution or in witness generation, or in Prove with other commitments
-- (`IsClean`). When it fails, the database is as it was, or the requests to be deleted are.
pub initialize_proposer-IsClean :
    (env : Env) (config : Config) (w : World)
    → After
        (λ _ w'. IsClean env config w'.db)
        (λ w'. (w'.db ≡ w.db) ⊎ (w'.db ≡ deleted config w.db))
        (initialize_proposer config env w).0
        (initialize_proposer config env w).1
initialize_proposer-IsClean env config w = (initialize_proposer-Triple env config w.db).at w refl

-- The conversion of an interval keeps it, or fails.
abbrev pub IsExact : (ℕ → Option ℕ) → Type 0
IsExact pg_interval =
    (seconds interval : ℕ) → pg_interval seconds ≡ some interval → interval ≡ seconds

module _ (config : Config) (pg_interval : ℕ → Option ℕ) (exact : IsExact pg_interval) where
  abbrev is_locked_at : ℕ → Db → Bool
  is_locked_at now db =
      is_chain_locked config.l1_chain_id config.l2_chain_id config.loop_interval now db

  -- The lock is taken if the chain is not locked.
  new-Triple :
      (now : ℕ) (before : Db)
      → Triple
          (λ w. (w.now ≡ now) × (w.db ≡ before))
          (λ _ w.
            (is_locked_at now before ≡ false)
            × (w.db ≡ add_chain_lock config.l1_chain_id config.l2_chain_id now before))
          (λ w. w.db ≡ before)
          (new config pg_interval)
  unfolding new
  new-Triple now before =
      Triple-bind (λ n w. (n ≡ now) × ((w.now ≡ now) × (w.db ≡ before))) _ _
        (Triple-gets _ (λ w h. (h.0, h)))
        (λ n. Triple-known (λ is_now.
          Triple-bind
            (λ interval w. (interval ≡ config.loop_interval) × ((w.now ≡ now) × (w.db ≡ before))) _
            _
            (Triple-unwrap _ (λ interval e w h. (exact config.loop_interval interval e, h))
              (λ w h. h.1))
            (λ interval.
              Triple-bind
                (λ locked w. (locked ≡ is_locked_at now before) × ((w.now ≡ now) × (w.db ≡ before)))
                _ _
                (Triple-query _ (λ w faults h. (rw (is_now, h.0, h.1.1) refl, h.1))
                  (λ w faults h. h.1.1))
                (λ locked. Triple-known (λ locked_is.
                  Triple-if locked _ _ (λ _. Triple-fail _ (λ w h. h.1))
                    (λ free.
                      Triple-execute _ (λ w faults h. (sym locked_is ∙ free, rw (h.0, h.1) refl))
                        (λ w faults h. h.1)))))))

from_ok :
    {A : Type 0} (Post : A → World → Type 0) (Failed : World → Type 0) (r : Outcome A) (a : A)
    (w : World)
    → After Post Failed r w
    → r ≡ ok a
    → (b : A) × Post b w
from_ok Post Failed (ok b) a w h e = (b, h)
from_ok Post Failed (err x) a w h e = absurd cc
from_ok Post Failed panic a w h e = absurd cc

locked-fails :
    (r : Outcome (Unit {0})) (w : World) (before : Db) (P : World → Type 0) (b : Bool)
    → b ≡ true
    → After (λ _ w'. (b ≡ false) × P w') (λ w'. w'.db ≡ before) r w
    → After (λ _ w'. ⊥) (λ w'. w'.db ≡ before) r w
locked-fails (ok a) w before P b e h = cc
locked-fails (err x) w before P b e h = h
locked-fails panic w before P b e h = h

-- Only the locks of a database matter.
is_chain_locked-same :
    (l1_chain l2_chain interval now : ℕ) (db db' : Db)
    → db.chain_locks ≡ db'.chain_locks
    → is_chain_locked l1_chain l2_chain interval now db
      ≡ is_chain_locked l1_chain l2_chain interval now db'
unfolding is_chain_locked
is_chain_locked-same l1_chain l2_chain interval now db db' e = rw e refl

-- A proposer that starts within the loop interval after another has started on the same chain and
-- database fails, and leaves the database alone. Whatever else was written to the database meanwhile,
-- the lock is as the first has left it. The conversion of the interval for the database, if it does not
-- fail, is taken to keep its length.
pub new-excludes :
    (config : Config) (pg_interval : ℕ → Option ℕ) (first second : World)
    → IsExact pg_interval
    → (new config pg_interval first).0 ≡ ok tt
    → second.db.chain_locks ≡ (new config pg_interval first).1.db.chain_locks
    → second.now < first.now + config.loop_interval
    → After
        (λ _ w. ⊥)
        (λ w. w.db ≡ second.db)
        (new config pg_interval second).0
        (new config pg_interval second).1
new-excludes config pg_interval first second exact started same soon =
    let (_, (_, taken)) =
      from_ok _ _ (new config pg_interval first).0 tt (new config pg_interval first).1
        ((new-Triple config pg_interval exact first.now first.db).at first (refl, refl)) started in
    let locked : is_locked_at config pg_interval exact second.now second.db ≡ true =
      is_chain_locked-same config.l1_chain_id config.l2_chain_id config.loop_interval second.now
        second.db (add_chain_lock config.l1_chain_id config.l2_chain_id first.now first.db)
        (same ∙ ap (λ (db : Db). db.chain_locks) taken)
      ∙ rw
          (is_chain_locked-add_chain_lock config.l1_chain_id config.l2_chain_id config.loop_interval
            first.now second.now config.l1_chain_id config.l2_chain_id first.db)
          (ground arith) in
    locked-fails (new config pg_interval second).0 (new config pg_interval second).1 second.db _
      (is_locked_at config pg_interval exact second.now second.db) locked
      ((new-Triple config pg_interval exact second.now second.db).at second (refl, refl))
