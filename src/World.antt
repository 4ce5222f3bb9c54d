-- ===== src/World.antt =====
-- The state that the proposer acts on, and its operations as actions that may fail or panic.
pub mod Outcomes
pub mod Safe
pub mod Triple
use mina_evm_l.Prelude.{
  ℕ, ◌+◌, ◌≡◌, refl, Bool, true, false, Option, none, some, List, [], ◌∷◌, ◌++◌, if◌then◌else◌,
}
use mina_evm_l.Request.{B256, Bytes, Address, Request}
use mina_evm_l.Db.Table.{Db}

-- How a spawned task stands: still running, or finished with Ok, with Err, or by a panic.
pub data TaskOutcome : Type 0 where
  running finished_ok finished_err panicked : TaskOutcome

pub record Task : Type 0 where
  pub id : ℕ
  pub outcome : TaskOutcome
  pub request : Request

-- The transactions that the proposer signs.
pub data Transaction : Type 0 where
  checkpoint_block_hash : ℕ → Transaction
  create_game : B256 → ℕ → ℕ → Address → B256 → Bytes → ℕ → Transaction
  propose_l2_output : B256 → B256 → ℕ → ℕ → Bytes → Address → Transaction

-- `tasks` is the TaskMap, `sent` the transactions so far with the last one first, `now` the clock.
-- `faults` says of each later call of the database whether it fails; past its end none does.
pub record World : Type 0 where
  pub db : Db
  pub tasks : List Task
  pub sent : List Transaction
  pub now : ℕ
  pub faults : List Bool

pub data Error : Type 0 where
  db_error rpc_error prover_error tx_reverted config_mismatch chain_locked : Error
  core_proof no_prover no_checkpointed_block no_prover_address overflow : Error

-- A panic is not an `Err`: no handler of the source catches it.
pub data Outcome {ℓ} (A : Type ℓ) : Type ℓ where
  ok : A → Outcome A
  err : Error → Outcome A
  panic : Outcome A

abbrev pub Exec : Type 0 → Type 0
Exec A = World → Outcome A × World

module _ {A : Type 0} where
  pub pure : A → Exec A
  pure a w = (ok a, w)

  pub fail : Error → Exec A
  fail e w = (err e, w)

  pub panics : Exec A
  panics w = (panic, w)

  pub gets : (World → A) → Exec A
  gets f w = (ok (f w), w)

  -- `?` on the answer of something outside.
  pub or_err : Error → Option A → Exec A
  or_err e none = fail e
  or_err e (some a) = pure a

  -- `unwrap` and `expect`.
  pub unwrap : Option A → Exec A
  unwrap none = panics
  unwrap (some a) = pure a

  query_with : List Bool → (Db → A) → Exec A
  query_with [] f w = (ok (f w.db), w)
  query_with (true ∷ faults) f w = (err db_error, record w { faults = faults })
  query_with (false ∷ faults) f w = (ok (f w.db), record w { faults = faults })

  -- A query, which fails if the connection does.
  pub query : (Db → A) → Exec A
  unfolding query_with
  query f w = query_with w.faults f w

execute_with : List Bool → (ℕ → Db → Db) → Exec (Unit {0})
execute_with [] f w = (ok tt, record w { db = f w.now w.db })
execute_with (true ∷ faults) f w = (err db_error, record w { faults = faults })
execute_with (false ∷ faults) f w = (ok tt, record w { db = f w.now w.db; faults = faults })

-- A statement that writes, at the time NOW(). One that fails has written nothing.
pub execute : (ℕ → Db → Db) → Exec (Unit {0})
unfolding execute_with
execute f w = execute_with w.faults f w

pub modify : (World → World) → Exec (Unit {0})
modify f w = (ok tt, f w)

module _ {A B : Type 0} where
  abbrev continue : Outcome A → (A → Exec B) → Exec B
  continue (ok a) f w = f a w
  continue (err e) f w = (err e, w)
  continue panic f w = (panic, w)

  infixl 5 ◌>>=◌
  -- Opening this opens the actions above too.
  unfoldable pub ◌>>=◌ : Exec A → (A → Exec B) → Exec B
  unfolding pure fail panics gets or_err unwrap query execute modify
  ◌>>=◌ m f w = let (r, w') = m w in continue r f w'

infixl 5 ◌>>◌
abbrev pub ◌>>◌ : {B : Type 0} → Exec (Unit {0}) → Exec B → Exec B
m >> n = m >>= λ _. n

abbrev from_err : {A : Type 0} → Outcome A → (Error → Exec A) → Exec A
from_err (ok a) f w = (ok a, w)
from_err (err e) f w = f e w
from_err panic f w = (panic, w)

-- `match m.await { Ok(a) => Ok(a), Err(e) => f(e) }`
pub catch : {A : Type 0} → Exec A → (Error → Exec A) → Exec A
catch m f w = let (r, w') = m w in from_err r f w'

-- `for x in xs { body(x)?; }`
pub for_each : {A : Type 0} → List A → (A → Exec (Unit {0})) → Exec (Unit {0})
for_each [] body = pure tt
for_each (x ∷ xs) body = body x >>= λ _. for_each xs body

-- `.map(body).buffered(n).try_collect()`, which keeps the order.
unfoldable pub collect : {A B : Type 0} → List A → (A → Exec B) → Exec (List B)
collect [] body = pure []
collect (x ∷ xs) body = body x >>= λ y. collect xs body >>= λ ys. pure (y ∷ ys)
