-- ===== src/FaultProof/Agent.antt =====
-- What the fault proof proposer and challenger act on, and their operations as actions that may fail or
-- panic: fault-proof/src/proposer.rs, fault-proof/bin/challenger.rs.
pub mod Answers
pub mod Leads
use mina_evm_l.Prelude.{
  ℕ, ◌+◌, ◌-◌, ◌%◌, ◌^◌, Bool, true, false, Option, none, some, List, [], ◌∷◌, ◌++◌, map, ltb, leb,
  ◌==◌, if◌then◌else◌,
}
use mina_evm_l.Request.{B256, Bytes, Address}
use mina_evm_l.World.{TaskOutcome, running, Error, rpc_error, Outcome, ok, err, panic}
use mina_evm_l.Aggregation.{BootInfo}
use mina_evm_l.FaultProof.{Games}

pub data TaskInfo : Type 0 where
  game_creation : ℕ → TaskInfo
  game_proving : Address → TaskInfo
  game_resolution bond_claim : TaskInfo

pub record GameTask : Type 0 where
  pub id : ℕ
  pub outcome : TaskOutcome
  pub info : TaskInfo

-- The transactions that are signed. A game is created with its type, output root, block, parent and bond.
pub data GameTransaction : Type 0 where
  create : ℕ → B256 → ℕ → ℕ → ℕ → GameTransaction
  prove : Address → Bytes → GameTransaction
  resolve : Address → GameTransaction
  claim_credit : Address → Address → GameTransaction
  challenge : Address → ℕ → GameTransaction

-- `tasks` is the TaskMap, `sent` the transactions so far with the last one first.
pub record Agent : Type 0 where
  pub tasks : List GameTask
  pub next_task_id : ℕ
  pub sent : List GameTransaction

-- The configuration, with the address and the bond that `new` reads.
pub record ProposerConfig : Type 0 where
  pub game_type : ℕ
  pub proposal_interval_in_blocks : ℕ
  pub mock_mode : Bool
  pub fast_finality_mode : Bool
  pub safe_db_fallback : Bool
  pub max_games_to_check_for_defense : ℕ
  pub max_games_to_check_for_resolution : ℕ
  pub max_games_to_check_for_bond_claiming : ℕ
  pub prover_address : Address
  pub init_bond : ℕ

-- What code that is not here answers; `none` is an error. A transaction that goes through may have the
-- address of a game that it created.
pub record Outside : Type 1 where
  pub games : Games
  pub anchor_l2_block_number : Option ℕ
  pub finalized_l2_block_number : ℕ → Option (Option ℕ)
  pub send_transaction_request : GameTransaction → Option (Option Address)
  pub l1_head : Address → Option B256
  pub has_data_fetcher : Bool
  pub Args : Type 0
  pub Witness : Type 0
  pub Stdin : Type 0
  pub Values : Type 0
  pub Proof : Type 0
  pub Headers : Type 0
  pub host_fetch : ℕ → ℕ → B256 → Bool → Option Args
  pub host_run : Args → Option Witness
  pub sp1_stdin : Witness → Option Stdin
  pub execute_range : Stdin → Option Values
  pub mock_range_proof : Values → Proof
  pub prove_range : Stdin → Option Proof
  pub boot_info : Proof → BootInfo
  pub header_preimages : List BootInfo → B256 → Option Headers
  pub agg_stdin : List Proof → List BootInfo → Headers → B256 → Address → Option Stdin
  pub execute_agg : Stdin → Option Values
  pub mock_agg_proof : Values → Proof
  pub prove_agg : Stdin → Option Proof
  pub onchain_bytes : Proof → Bytes
  -- Whether the draw of the challenger is at most its percentage.
  pub drawn : Bool

abbrev pub Act : Type 0 → Type 0
Act A = Agent → Outcome A × Agent

module _ {A : Type 0} where
  pub pure : A → Act A
  pure a g = (ok a, g)

  pub gets : (Agent → A) → Act A
  gets f g = (ok (f g), g)

  pub or_err : Option A → Act A
  or_err none g = (err rpc_error, g)
  or_err (some a) g = (ok a, g)

  -- A search that acts on nothing.
  pub lift : Outcome A → Act A
  lift r g = (r, g)

  pub or_panic : Option A → Act A
  or_panic none g = (panic, g)
  or_panic (some a) g = (ok a, g)

  abbrev pub recovered : Outcome A → A → Outcome A
  recovered (ok a) b = ok a
  recovered (err e) b = ok b
  recovered panic b = panic

  -- `unwrap_or`, and the arm of a `match` that only logs an error.
  pub or_else : Act A → A → Act A
  or_else m b g = let (r, g') = m g in (recovered r b, g')

pub modify : (Agent → Agent) → Act (Unit {0})
modify f g = (ok tt, f g)

-- `.to::<u64>()` and `.to::<u32>()` of a U256 panic on a larger number.
abbrev pub checked_to : ℕ → ℕ → Act ℕ
checked_to width n = or_panic (if ltb n (2 ^ width) then some n else none)

-- u64 `-`, which panics below zero.
abbrev pub checked_sub : ℕ → ℕ → Act ℕ
checked_sub a b = or_panic (if leb b a then some (a - b) else none)

abbrev pub u256_mod : ℕ
u256_mod = 2 ^ 256

-- `checked_add(..).unwrap()` of U256.
abbrev pub checked_add : ℕ → ℕ → Act ℕ
checked_add a b = or_panic (if ltb (a + b) u256_mod then some (a + b) else none)

-- `next_task_id.fetch_add(1)`
pub fetch_add : Act ℕ
fetch_add g = (ok g.next_task_id, record g { next_task_id = (g.next_task_id + 1) % 2 ^ 64 })

unfoldable pub remove_task : ℕ → List GameTask → List GameTask
remove_task id [] = []
remove_task id (t ∷ tasks) =
    let rest = remove_task id tasks in if t.id == id then rest else t ∷ rest

-- `tasks.insert(id, ..)`, which replaces a task with that id.
pub insert_task : ℕ → TaskInfo → Act (Unit {0})
unfolding remove_task
insert_task id info g = (
  ok tt,
  record g { tasks = record { id = id; outcome = running; info = info } ∷ remove_task id g.tasks },
)

-- A transaction is sent, and its receipt awaited.
pub send : Outside → GameTransaction → Act (Option Address)
unfolding or_err
send outside transaction g =
    or_err (outside.send_transaction_request transaction) (record g { sent = transaction ∷ g.sent })

module _ {A B : Type 0} where
  abbrev pub continue : Outcome A → (A → Act B) → Act B
  continue (ok a) f g = f a g
  continue (err e) f g = (err e, g)
  continue panic f g = (panic, g)

  infixl 5 ◌>>=◌
  -- Opening this opens the actions above too.
  unfoldable pub ◌>>=◌ : Act A → (A → Act B) → Act B
  unfolding pure or_err lift or_panic or_else gets modify fetch_add insert_task send
  ◌>>=◌ m f g = let (r, g') = m g in continue r f g'

infixl 5 ◌>>◌
abbrev pub ◌>>◌ : {B : Type 0} → Act (Unit {0}) → Act B → Act B
m >> n = m >>= λ _. n
