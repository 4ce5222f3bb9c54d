-- ===== src/FaultProof/Proposer/Exclusive.antt =====
-- Which tasks the TaskMap of fault-proof/src/proposer.rs never holds twice, in runs where the loop and the
-- tasks that it spawned take turns.
use mina_evm_l.Prelude.{
  ℕ, ◌+◌, ◌≤◌, ◌≡◌, refl, inl, inr, Bool, false, ◌||◌, Bool-cases, List, [], ◌∷◌, ◌==◌, arith,
  if◌then◌else◌,
}
use mina_evm_l.Request.{Address}
use mina_evm_l.World.{running}
use mina_evm_l.FaultProof.Agent.{
  TaskInfo, game_creation, game_proving, game_resolution, bond_claim, GameTask, remove_task,
}
use mina_evm_l.FaultProof.Proposer.{same_type, any_task, remove_tasks}

abbrev pub count_type : TaskInfo → List GameTask → ℕ
count_type info [] = 0
count_type info (t ∷ tasks) = (if same_type info t.info then 1 else 0) + count_type info tasks

abbrev pub has_id : ℕ → List GameTask → Bool
has_id id [] = false
has_id id (t ∷ tasks) = t.id == id || has_id id tasks

abbrev pub IsDistinct : List GameTask → Type 0
IsDistinct [] = Unit
IsDistinct (t ∷ tasks) = (has_id t.id tasks ≡ false) × IsDistinct tasks

-- One task at most to create a game, to resolve games and to claim a bond, and no two tasks with one id.
pub record IsExclusive (tasks : List GameTask) : Type 0 where
  pub one_creation : (block : ℕ) → count_type (game_creation block) tasks ≤ 1
  pub one_resolution : count_type game_resolution tasks ≤ 1
  pub one_claim : count_type bond_claim tasks ≤ 1
  pub distinct : IsDistinct tasks

count_type-remove_task :
    (info : TaskInfo) (id : ℕ) (tasks : List GameTask)
    → count_type info (remove_task id tasks) ≤ count_type info tasks
unfolding remove_task
count_type-remove_task info id [] = omega arith
count_type-remove_task info id (t ∷ tasks) = elim (Bool-cases (t.id == id)) [
  | inl e ↦ rw e (omega (arith, count_type-remove_task info id tasks))
  | inr e ↦ rw e (omega (arith, count_type-remove_task info id tasks))
]

has_id-remove_task :
    (k id : ℕ) (tasks : List GameTask)
    → has_id k tasks ≡ false
    → has_id k (remove_task id tasks) ≡ false
unfolding remove_task
has_id-remove_task k id [] h = refl
has_id-remove_task k id (t ∷ tasks) h = ground (arith, has_id-remove_task k id tasks)

has_id-remove_task_self :
    (id : ℕ) (tasks : List GameTask) → has_id id (remove_task id tasks) ≡ false
unfolding remove_task
has_id-remove_task_self id [] = refl
has_id-remove_task_self id (t ∷ tasks) = ground (arith, has_id-remove_task_self id tasks)

remove_task-IsDistinct :
    (id : ℕ) (tasks : List GameTask) → IsDistinct tasks → IsDistinct (remove_task id tasks)
unfolding remove_task
remove_task-IsDistinct id [] h = tt
remove_task-IsDistinct id (t ∷ tasks) h = elim (Bool-cases (t.id == id)) [
  | inl e ↦ rw e (remove_task-IsDistinct id tasks h.1)
  | inr e ↦ rw e (has_id-remove_task t.id id tasks h.0, remove_task-IsDistinct id tasks h.1)
]

remove_task-IsExclusive :
    (id : ℕ) (tasks : List GameTask) → IsExclusive tasks → IsExclusive (remove_task id tasks)
remove_task-IsExclusive id tasks h = record {
  one_creation = λ block.
      omega (arith, count_type-remove_task (game_creation block) id tasks, h.one_creation block);
  one_resolution = omega (arith, count_type-remove_task game_resolution id tasks, h.one_resolution);
  one_claim = omega (arith, count_type-remove_task bond_claim id tasks, h.one_claim);
  distinct = remove_task-IsDistinct id tasks h.distinct;
}

pub remove_tasks-IsExclusive :
    (ids : List ℕ) (tasks : List GameTask)
    → IsExclusive tasks
    → IsExclusive (remove_tasks ids tasks)
remove_tasks-IsExclusive [] tasks h = h
remove_tasks-IsExclusive (id ∷ ids) tasks h =
    remove_tasks-IsExclusive ids (remove_task id tasks) (remove_task-IsExclusive id tasks h)

-- No task of the type means that there are none to count.
none-count :
    (info : TaskInfo) (tasks : List GameTask)
    → any_task (same_type info) tasks ≡ false
    → count_type info tasks ≡ 0
none-count info [] h = refl
none-count info (t ∷ tasks) h = elim (Bool-cases (same_type info t.info)) [
  | inl e ↦ absurd (ground (arith, e, h))
  | inr e ↦ rw e (omega (arith, none-count info tasks (ground (arith, e, h))))
]

-- Such tasks are none or of a type that may be there often.
abbrev pub May : TaskInfo → List GameTask → Type 0
May info tasks = (any_task (same_type info) tasks ≡ false) × IsExclusive tasks

abbrev pub after_insert : ℕ → TaskInfo → List GameTask → List GameTask
after_insert id info tasks =
    record { id = id; outcome = running; info = info } ∷ remove_task id tasks

pub insert_creation :
    (id block : ℕ) (tasks : List GameTask)
    → May (game_creation 0) tasks
    → IsExclusive (after_insert id (game_creation block) tasks)
insert_creation id block tasks (free, h) = record {
  one_creation = λ b. omega (
    arith,
    count_type-remove_task (game_creation b) id tasks,
    none-count (game_creation b) tasks free,
  );
  one_resolution = omega (arith, count_type-remove_task game_resolution id tasks, h.one_resolution);
  one_claim = omega (arith, count_type-remove_task bond_claim id tasks, h.one_claim);
  distinct = (has_id-remove_task_self id tasks, remove_task-IsDistinct id tasks h.distinct);
}

pub insert_resolution :
    (id : ℕ) (tasks : List GameTask)
    → May game_resolution tasks
    → IsExclusive (after_insert id game_resolution tasks)
insert_resolution id tasks (free, h) = record {
  one_creation =
      λ b. omega (arith, count_type-remove_task (game_creation b) id tasks, h.one_creation b);
  one_resolution = omega (
    arith,
    count_type-remove_task game_resolution id tasks,
    none-count game_resolution tasks free,
  );
  one_claim = omega (arith, count_type-remove_task bond_claim id tasks, h.one_claim);
  distinct = (has_id-remove_task_self id tasks, remove_task-IsDistinct id tasks h.distinct);
}

pub insert_claim :
    (id : ℕ) (tasks : List GameTask)
    → May bond_claim tasks
    → IsExclusive (after_insert id bond_claim tasks)
insert_claim id tasks (free, h) = record {
  one_creation =
      λ b. omega (arith, count_type-remove_task (game_creation b) id tasks, h.one_creation b);
  one_resolution = omega (arith, count_type-remove_task game_resolution id tasks, h.one_resolution);
  one_claim =
      omega (arith, count_type-remove_task bond_claim id tasks, none-count bond_claim tasks free);
  distinct = (has_id-remove_task_self id tasks, remove_task-IsDistinct id tasks h.distinct);
}

pub insert_proving :
    (id : ℕ) (game : Address) (tasks : List GameTask)
    → IsExclusive tasks
    → IsExclusive (after_insert id (game_proving game) tasks)
insert_proving id game tasks h = record {
  one_creation =
      λ b. omega (arith, count_type-remove_task (game_creation b) id tasks, h.one_creation b);
  one_resolution = omega (arith, count_type-remove_task game_resolution id tasks, h.one_resolution);
  one_claim = omega (arith, count_type-remove_task bond_claim id tasks, h.one_claim);
  distinct = (has_id-remove_task_self id tasks, remove_task-IsDistinct id tasks h.distinct);
}
