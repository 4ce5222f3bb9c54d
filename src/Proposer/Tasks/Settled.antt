-- ===== src/Proposer/Tasks/Settled.antt =====
-- The tasks that `handle_ongoing_tasks` of validity/src/proposer.rs leaves.
use mina_evm_l.Prelude.{
  ℕ, ◌≡◌, refl, sym, ap, ◌∙◌, inl, inr, Bool, true, false, not, ◌||◌, List, [], ◌∷◌, arith, ltb,
  ◌==◌, Bool-cases, filter, filter-filter, filter-All, All,
}
use mina_evm_l.Request.{RequestMode, B256, Request, Config}
use mina_evm_l.World.{World, Task, TaskOutcome, running, finished_ok, finished_err, panicked}
use mina_evm_l.World.Safe.{
  Safe, Any, Safe-pure, Safe-or_err, Safe-unwrap, Safe-query, Safe-if, Safe-execute, Safe-bind,
  Safe-catch,
}
use mina_evm_l.World.Triple.{
  After, Triple, Triple-pre, Triple-known, Triple-gets, Triple-modify, Triple-bind, Triple-for_each,
  Triple-post, Triple-Safe, Triple-tasks, Triple-weaken,
}
use mina_evm_l.Env.{Env, ExecutionStatus, unspecified_execution}
use mina_evm_l.Db.Table.{Db}
use mina_evm_l.Requester.{
  create_range_request, can_split, is_unexecutable, split_failed, handle_failed_request,
}
use mina_evm_l.Proposer.Queue.{remove_task}
use mina_evm_l.Proposer.Tasks.{is_finished, retry, settle, finish_task, handle_ongoing_tasks}

-- A task of the list has the id.
abbrev pub named : ℕ → List Task → Bool
named id [] = false
named id (t ∷ tasks) = id == t.id || named id tasks

abbrev pub finished : List Task → List Task
finished tasks = filter (λ t. is_finished t.outcome) tasks

remove_all : List Task → List Task → List Task
remove_all [] tasks = tasks
remove_all (x ∷ xs) tasks = remove_all xs (remove_task x.id tasks)

remove_all-filter :
    (xs tasks : List Task) → remove_all xs tasks ≡ filter (λ t. not (named t.id xs)) tasks
unfolding remove_all remove_task
remove_all-filter [] tasks = sym (filter-All _ tasks (all_true tasks))
  where
    all_true : (tasks : List Task) → All (λ t. not (named t.id []) ≡ true) tasks
    all_true [] = tt
    all_true (t ∷ tasks) = (refl, all_true tasks)
remove_all-filter (x ∷ xs) tasks =
    remove_all-filter xs (filter (λ t. not (t.id == x.id)) tasks)
    ∙ filter-filter (λ t. not (t.id == x.id)) (λ t. not (named t.id xs)) _ (λ t. ground arith) tasks

module _ (env : Env) (config : Config) (tasks : List Task) where
  abbrev AsBefore : Db → List Task → Type 0
  AsBefore db ts = ts ≡ tasks

  creates :
      (mode : RequestMode) (start end : ℕ) (range_vkey rollup_config : B256) (l1_chain l2_chain : ℕ)
      → Safe Unit AsBefore Any (
          create_range_request env config mode start end range_vkey rollup_config l1_chain l2_chain)
  unfolding create_range_request
  creates mode start end range_vkey rollup_config l1_chain l2_chain =
      Safe-bind {Q = Any} _ _ (Safe-or_err _ _ (λ _ _. tt))
        (λ _ _. Safe-unwrap _ (λ _. tt) (λ _ _. tt))

  splits-tasks :
      (request : Request) (l1_chain l2_chain : ℕ)
      → Safe Unit AsBefore Any (split_failed env config request l1_chain l2_chain)
  unfolding split_failed
  splits-tasks request l1_chain l2_chain =
      Safe-bind {Q = Any} _ _ (Safe-unwrap _ (λ _. tt) (λ _ _. tt)) (λ sum _.
        Safe-bind _ _ (creates _ _ _ _ _ _ _) (λ left _.
          Safe-bind _ _ (creates _ _ _ _ _ _ _) (λ right _. Safe-execute _ (λ _ _ _ h. h))))

  handle_failed_request-tasks :
      (request : Request) (status : ExecutionStatus)
      → Safe Unit AsBefore Any (handle_failed_request env config request status)
  unfolding handle_failed_request
  handle_failed_request-tasks request status = Safe-bind _ _ (Safe-execute _ (λ _ _ _ h. h)) (λ _ _.
      Safe-bind {Q = Any} _ _ (Safe-or_err _ _ (λ _ _. tt)) (λ l1_chain _.
        Safe-bind {Q = Any} _ _ (Safe-or_err _ _ (λ _ _. tt)) (λ l2_chain _.
          Safe-if (can_split request) _ _
            (λ _. Safe-bind {Q = Any} _ _ (Safe-query _ (λ _ _ _. tt)) (λ n _.
              Safe-if (ltb 2 n || is_unexecutable status) _ _
                (λ _. splits-tasks request l1_chain l2_chain) (λ _. Safe-pure tt tt)))
            (λ _. Safe-pure tt tt))))

  settle-tasks :
      (outcome : TaskOutcome) (request : Request)
      → Safe Unit AsBefore Any (settle env config outcome request)
  unfolding settle retry
  settle-tasks running request = Safe-pure tt tt
  settle-tasks finished_ok request = Safe-pure tt tt
  settle-tasks finished_err request =
      Safe-catch _ _ (handle_failed_request-tasks request unspecified_execution)
        (λ _. Safe-pure tt tt)
  settle-tasks panicked request =
      Safe-catch _ _ (handle_failed_request-tasks request unspecified_execution)
        (λ _. Safe-pure tt tt)

module _ (env : Env) (config : Config) (target : List Task) where
  abbrev Left : List Task → World → Type 0
  Left rest w = remove_all rest w.tasks ≡ target

  finish_task-Left :
      (x : Task) (xs : List Task)
      → Triple (Left (x ∷ xs)) (λ _ w. Left xs w) (λ _. Unit) (finish_task env config x)
  unfolding finish_task remove_all
  finish_task-Left x xs =
      Triple-bind (λ _ w. Left xs w) _ _ (Triple-modify _ (λ w h. h))
        (λ _. Triple-tasks (λ tasks.
          Triple-pre (λ w h. ((rw (← (h.0)) (h.1)), h.0))
            (Triple-known (λ left.
              Triple-weaken (λ _ w e. rw e left) (λ w e. tt)
                (Triple-Safe (settle-tasks env config tasks x.outcome x.request))))))

-- No finished task is left among those that no finished task shares its id with.
unnamed :
    (p : Task → Bool) (tasks xs : List Task)
    → ((id : ℕ) → named id (filter p tasks) ≡ true → named id xs ≡ true)
    → All (λ t. p t ≡ false) (filter (λ t. not (named t.id xs)) tasks)
unnamed p [] xs k = tt
unnamed p (t ∷ tasks) xs k = elim (Bool-cases (p t)) [
  | inl e ↦
      let on : (id : ℕ) → named id (t ∷ filter p tasks) ≡ true → named id xs ≡ true =
        λ id h. k id (rw e h) in
      let gone : named t.id xs ≡ true = on t.id (ground arith) in
      rw gone (unnamed p tasks xs (λ id h. on id (ground (arith, h))))
  | inr e ↦
      let rest = unnamed p tasks xs (λ id h. k id (rw e h)) in
      elim (Bool-cases (named t.id xs)) [ inl gone ↦ rw gone rest | inr stays ↦ rw stays (e, rest) ]
]

handle_ongoing_tasks-Triple :
    (env : Env) (config : Config) (tasks : List Task)
    → Triple
        (λ w. w.tasks ≡ tasks)
        (λ _ w. w.tasks ≡ filter (λ t. not (named t.id (finished tasks))) tasks)
        (λ _. Unit)
        (handle_ongoing_tasks env config)
unfolding handle_ongoing_tasks remove_all
handle_ongoing_tasks-Triple env config tasks =
    Triple-bind (λ done w. (done ≡ finished tasks) × (w.tasks ≡ tasks)) _ _
      (Triple-gets _ (λ w h. (rw h refl, h)))
      (λ done. Triple-known (λ done_is.
        Triple-pre (λ w h. ap (λ (ts : List Task). remove_all done ts) h)
          (Triple-post
            (λ _ w h.
              h
              ∙ ap (λ (xs : List Task). remove_all xs tasks) done_is
              ∙ remove_all-filter (finished tasks) tasks)
            (Triple-for_each {Inv = Left env config (remove_all done tasks)}
              (finish_task env config) (finish_task-Left env config (remove_all done tasks))
              done))))

-- After `handle_ongoing_tasks` has succeeded the tasks are those that shared their id with no finished
-- one, in order, and so none of them is finished.
pub handle_ongoing_tasks-finished :
    (env : Env) (config : Config) (w : World)
    → After
        (λ _ w'.
          (w'.tasks ≡ filter (λ t. not (named t.id (finished w.tasks))) w.tasks)
          × All (λ t. is_finished t.outcome ≡ false) w'.tasks)
        (λ _. Unit)
        (handle_ongoing_tasks env config w).0
        (handle_ongoing_tasks env config w).1
handle_ongoing_tasks-finished env config w =
    (Triple-post
        (λ _ w' e.
          (e, rw e (unnamed (λ t. is_finished t.outcome) w.tasks (finished w.tasks) (λ id h. h))))
        (handle_ongoing_tasks-Triple env config w.tasks)).at
      w refl
