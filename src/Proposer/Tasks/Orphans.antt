-- ===== src/Proposer/Tasks/Orphans.antt =====
-- What `set_orphaned_tasks_to_failed` of validity/src/proposer.rs leaves.
use mathlib.Core.Path.{subst}
use mina_evm_l.Prelude.{
  ℕ, ◌≡◌, refl, sym, ◌⊎◌, inl, inr, Bool, true, false, not, ◌&&◌, ◌||◌, List, [], ◌∷◌, ◌++◌, arith,
  ◌==◌, if◌then◌else◌, Bool-cases, filter, All, All-weaken, All-map, All-zip,
}
use mina_evm_l.Request.{witness_generation, execution, failed, Request, Config}
use mina_evm_l.World.{World, Task}
use mina_evm_l.World.Triple.{
  After, Triple, Triple-known, Triple-pure, Triple-gets, Triple-query, Triple-execute, Triple-if,
  Triple-bind, Triple-for_each, Triple-pre, Triple-post,
}
use mina_evm_l.Env.{Env}
use mina_evm_l.Db.Table.{Db}
use mina_evm_l.Db.Queries.{has_status, fetch_requests_by_status}
use mina_evm_l.Db.Updates.{update_request_status}
use mina_evm_l.Proposer.Tasks.{has_task, fail_orphan, set_orphaned_tasks_to_failed}

abbrev is_underway : Config → Request → Bool
is_underway config r =
    has_status witness_generation config.commitments config.l1_chain_id config.l2_chain_id r
    || has_status execution config.commitments config.l1_chain_id config.l2_chain_id r

-- In witness generation or execution, with no task.
abbrev pub is_orphan : Config → List Task → Request → Bool
is_orphan config tasks r = is_underway config r && not (has_task r.id tasks)

abbrev listed : ℕ → List Request → Bool
listed id [] = false
listed id (x ∷ xs) = x.id == id || listed id xs

listed-append :
    (id : ℕ) (xs ys : List Request) → listed id (xs ++ ys) ≡ (listed id xs || listed id ys)
listed-append id [] ys = refl
listed-append id (x ∷ xs) ys = ground (arith, listed-append id xs ys)

-- A row that passes a test is listed, by its id, if what passes is.
filter-listed :
    (p : Request → Bool) (rows known : List Request)
    → ((id : ℕ) → listed id (filter p rows) ≡ true → listed id known ≡ true)
    → All (λ r. (p r ≡ false) ⊎ (listed r.id known ≡ true)) rows
filter-listed p [] known k = tt
filter-listed p (r ∷ rows) known k = elim (Bool-cases (p r)) [
  | inl e ↦
      let on : (id : ℕ) → listed id (r ∷ filter p rows) ≡ true → listed id known ≡ true =
        λ id h. k id (rw e h) in
      (inr (on r.id (ground arith)), filter-listed p rows known (λ id h. on id (ground (arith, h))))
  | inr e ↦ (inl e, filter-listed p rows known (λ id h. k id (rw e h)))
]

module _ (env : Env) (config : Config) (tasks : List Task) where
  -- Each orphan is still on the list.
  abbrev Pending : List Request → Db → Type 0
  Pending rest db =
      All (λ r. (is_orphan config tasks r ≡ false) ⊎ (listed r.id rest ≡ true)) db.requests

  abbrev Inv : List Request → World → Type 0
  Inv rest w = (w.tasks ≡ tasks) × Pending rest w.db

  -- A row that has a task is no orphan.
  known-Pending :
      (x : Request) (rest : List Request) (db : Db)
      → has_task x.id tasks ≡ true
      → Pending (x ∷ rest) db
      → Pending rest db
  known-Pending x rest db known h = All-weaken (λ r k. row r k) db.requests h
    where
      row :
          (r : Request)
          → (is_orphan config tasks r ≡ false) ⊎ (listed r.id (x ∷ rest) ≡ true)
          → (is_orphan config tasks r ≡ false) ⊎ (listed r.id rest ≡ true)
      row r (inl e) = inl e
      row r (inr e) = elim (Bool-cases (x.id == r.id)) [
        | inl same ↦
            let eq : x.id ≡ r.id = ground arith in
            let has : has_task r.id tasks ≡ true = rw (← eq) known in inl (rw has (ground arith))
        | inr other ↦ inr (ground (arith, e))
      ]

  -- A row that is set to failed is no orphan.
  failed-Pending :
      (x : Request) (rest : List Request) (now : ℕ) (db : Db)
      → Pending (x ∷ rest) db
      → Pending rest (update_request_status x.id failed now db)
  unfolding update_request_status
  failed-Pending x rest now db h =
      All-map (λ r. (is_orphan config tasks r ≡ false) ⊎ (listed r.id rest ≡ true)) _ db.requests
        (All-weaken (λ r k. row r k) db.requests h)
    where
      row :
          (r : Request)
          → (is_orphan config tasks r ≡ false) ⊎ (listed r.id (x ∷ rest) ≡ true)
          → (is_orphan config tasks
                (if r.id == x.id then record r { status = failed; updated_at = now } else r)
              ≡ false)
            ⊎ (listed
                  (if r.id == x.id then record r { status = failed; updated_at = now } else r).id
                  rest
                ≡ true)
      row r k = elim (Bool-cases (r.id == x.id)) [
        | inl same ↦ rw same (inl (ground arith))
        | inr other ↦ rw other (still r k other)
      ]
        where
          still :
              (r : Request)
              → (is_orphan config tasks r ≡ false) ⊎ (listed r.id (x ∷ rest) ≡ true)
              → (r.id == x.id) ≡ false
              → (is_orphan config tasks r ≡ false) ⊎ (listed r.id rest ≡ true)
          still r (inl e) other = inl e
          still r (inr e) other = inr (ground (arith, e, other))

  Kept : World → Type 0
  Kept w = w.tasks ≡ tasks

  fail_orphan-Inv :
      (x : Request) (rest : List Request)
      → Triple (Inv (x ∷ rest)) (λ _ w. Inv rest w) Kept (fail_orphan env config x)
  unfolding fail_orphan Kept
  fail_orphan-Inv x rest =
      Triple-bind (λ known w. (known ≡ has_task x.id tasks) × Inv (x ∷ rest) w) _ _
        (Triple-gets _ (λ w h. (rw (h.0), h)))
        (λ known. Triple-known (λ known_is.
          Triple-if (not known) _ _
            (λ missing.
              Triple-execute _ (λ w faults h. (h.0, failed-Pending x rest w.now w.db h.1))
                (λ w faults h. h.0))
            (λ there.
              Triple-pure tt
                (λ w h. (h.0, known-Pending x rest w.db (ground (arith, known_is, there)) h.1)))))

  abbrev fetched : Db → List Request
  fetched db =
      fetch_requests_by_status witness_generation config.commitments config.l1_chain_id
        config.l2_chain_id db
      ++ fetch_requests_by_status execution config.commitments config.l1_chain_id config.l2_chain_id
          db

  fetched-Pending : (db : Db) → Pending (fetched db) db
  unfolding fetch_requests_by_status
  fetched-Pending db =
      let gen =
        has_status witness_generation config.commitments config.l1_chain_id config.l2_chain_id in
      let exec = has_status execution config.commitments config.l1_chain_id config.l2_chain_id in
      All-weaken
        (λ r
            (h : ((gen r ≡ false) ⊎ (listed r.id (fetched db) ≡ true))
              × ((exec r ≡ false) ⊎ (listed r.id (fetched db) ≡ true))).
          both r (fetched db) h.0 h.1)
        db.requests
        (All-zip _ _ db.requests
          (filter-listed gen db.requests (fetched db) (λ id h.
            rw (listed-append id (filter gen db.requests) (filter exec db.requests))
              (ground (arith, h))))
          (filter-listed exec db.requests (fetched db) (λ id h.
            rw (listed-append id (filter gen db.requests) (filter exec db.requests))
              (ground (arith, h)))))
    where
      both :
          (r : Request) (rs : List Request)
          → (has_status witness_generation config.commitments config.l1_chain_id config.l2_chain_id
                r
              ≡ false)
            ⊎ (listed r.id rs ≡ true)
          → (has_status execution config.commitments config.l1_chain_id config.l2_chain_id r
              ≡ false)
            ⊎ (listed r.id rs ≡ true)
          → (is_orphan config tasks r ≡ false) ⊎ (listed r.id rs ≡ true)
      both r rs (inr e) k = inr e
      both r rs (inl e) (inr k) = inr k
      both r rs (inl e) (inl k) = inl (rw (e, k) refl)

  set_orphaned_tasks_to_failed-Triple :
      Triple Kept (λ _ w. Inv [] w) Kept (set_orphaned_tasks_to_failed env config)
  unfolding set_orphaned_tasks_to_failed Kept
  set_orphaned_tasks_to_failed-Triple =
      Triple-bind
        (λ gen w.
          (gen
            ≡ fetch_requests_by_status witness_generation config.commitments config.l1_chain_id
                config.l2_chain_id w.db)
          × Kept w)
        _ _ (Triple-query _ (λ w faults h. (refl, h)) (λ w faults h. h))
        (λ gen.
          Triple-bind (λ exec w. ((gen ++ exec) ≡ fetched w.db) × Kept w) _ _
            (Triple-query _ (λ w faults h. (rw (h.0) refl, h.1)) (λ w faults h. h.1))
            (λ exec.
              Triple-pre
                (λ w h. (
                  h.1,
                  subst (λ (rs : List Request). Pending rs w.db) (sym h.0) (fetched-Pending w.db),
                ))
                (Triple-for_each {Inv = Inv} (fail_orphan env config) fail_orphan-Inv
                  (gen ++ exec))))

-- After `set_orphaned_tasks_to_failed` has succeeded, no request of this configuration is in witness
-- generation or execution without a task. The tasks are as they were in any case.
pub set_orphaned_tasks_to_failed-no_orphans :
    (env : Env) (config : Config) (w : World)
    → After
        (λ _ w'.
          (w'.tasks ≡ w.tasks) × All (λ r. is_orphan config w.tasks r ≡ false) w'.db.requests)
        (λ w'. w'.tasks ≡ w.tasks)
        (set_orphaned_tasks_to_failed env config w).0
        (set_orphaned_tasks_to_failed env config w).1
unfolding Kept
set_orphaned_tasks_to_failed-no_orphans env config w =
    (Triple-post (λ _ w' h. (h.0, All-weaken (settled w.tasks) w'.db.requests h.1))
        (set_orphaned_tasks_to_failed-Triple env config w.tasks)).at
      w refl
  where
    settled :
        (tasks : List Task) (r : Request)
        → (is_orphan config tasks r ≡ false) ⊎ (listed r.id [] ≡ true)
        → is_orphan config tasks r ≡ false
    settled tasks r (inl e) = e
    settled tasks r (inr e) = absurd cc
