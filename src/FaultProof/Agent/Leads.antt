-- ===== src/FaultProof/Agent/Leads.antt =====
-- What an action of fault-proof/src/proposer.rs does to the TaskMap, with a rule for each way to build one.
use mina_evm_l.Prelude.{
  ℕ, Bool, true, false, ◌≡◌, inl, inr, Bool-cases, Option, none, some, List, ◌∷◌, if◌then◌else◌,
}
use mina_evm_l.World.{running, Outcome, ok, err, panic}
use mina_evm_l.FaultProof.Agent.{
  TaskInfo, GameTask, GameTransaction, Agent, Outside, Act, pure, gets, modify, or_err, lift,
  or_panic, or_else, fetch_add, remove_task, insert_task, send, ◌>>=◌, continue,
}

-- From tasks with `P` the action leaves tasks with `Q`, whether it succeeds, fails or panics.
pub record Leads {A : Type 0} (P Q : List GameTask → Type 0) (m : Act A) : Type 0 where
  pub at : (g : Agent) → P g.tasks → Q (m g).1.tasks

module _ {P Q : List GameTask → Type 0} (weaken : (tasks : List GameTask) → P tasks → Q tasks) where
  pub Leads-pure : {A : Type 0} (a : A) → Leads P Q (pure a)
  unfolding pure
  Leads-pure a = record { at = λ g h. weaken g.tasks h }

  pub Leads-or_err : {A : Type 0} (o : Option A) → Leads P Q (or_err o)
  unfolding or_err
  Leads-or_err none = record { at = λ g h. weaken g.tasks h }
  Leads-or_err (some a) = record { at = λ g h. weaken g.tasks h }

  pub Leads-or_panic : {A : Type 0} (o : Option A) → Leads P Q (or_panic o)
  unfolding or_panic
  Leads-or_panic none = record { at = λ g h. weaken g.tasks h }
  Leads-or_panic (some a) = record { at = λ g h. weaken g.tasks h }

  pub Leads-lift : {A : Type 0} (r : Outcome A) → Leads P Q (lift r)
  unfolding lift
  Leads-lift r = record { at = λ g h. weaken g.tasks h }

  pub Leads-fetch_add : Leads P Q fetch_add
  unfolding fetch_add
  Leads-fetch_add = record { at = λ g h. weaken g.tasks h }

  pub Leads-send :
      (outside : Outside) (transaction : GameTransaction) → Leads P Q (send outside transaction)
  unfolding send
  Leads-send outside transaction = record {
    at = λ g h.
        (Leads-or_err (outside.send_transaction_request transaction)).at
          (record g { sent = transaction ∷ g.sent }) h;
  }

  -- An action that fails in its first part stops there.
  pub Leads-bind :
      {A B : Type 0} (m : Act A) (f : A → Act B)
      → Leads P P m
      → ((a : A) → Leads P Q (f a))
      → Leads P Q (m >>= f)
  unfolding ◌>>=◌
  Leads-bind {A} m f hm hf = record { at = λ g h. go (m g).0 (m g).1 (hm.at g h) }
    where
      go : (r : Outcome A) (g : Agent) → P g.tasks → Q (continue r f g).1.tasks
      go (ok a) g h = (hf a).at g h
      go (err e) g h = weaken g.tasks h
      go panic g h = weaken g.tasks h

module _ {P Q : List GameTask → Type 0} where
  pub Leads-insert_task :
      (id : ℕ) (info : TaskInfo)
      → ((tasks : List GameTask)
          → P tasks
          → Q (record { id = id; outcome = running; info = info } ∷ remove_task id tasks))
      → Leads P Q (insert_task id info)
  unfolding insert_task
  Leads-insert_task id info k = record { at = λ g h. k g.tasks h }

  -- What follows keeps what the first part leads to.
  pub Leads-then :
      {A B : Type 0} (m : Act A) (f : A → Act B)
      → Leads P Q m
      → ((a : A) → Leads Q Q (f a))
      → Leads P Q (m >>= f)
  unfolding ◌>>=◌
  Leads-then {A} m f hm hf = record { at = λ g h. go (m g).0 (m g).1 (hm.at g h) }
    where
      go : (r : Outcome A) (g : Agent) → Q g.tasks → Q (continue r f g).1.tasks
      go (ok a) g h = (hf a).at g h
      go (err e) g h = h
      go panic g h = h

  pub Leads-pre :
      {A : Type 0} {R : List GameTask → Type 0} (m : Act A)
      → ((tasks : List GameTask) → R tasks → P tasks)
      → Leads P Q m
      → Leads R Q m
  Leads-pre m k hm = record { at = λ g h. hm.at g (k g.tasks h) }

  pub Leads-or_else : {A : Type 0} (m : Act A) (a : A) → Leads P Q m → Leads P Q (or_else m a)
  unfolding or_else
  Leads-or_else m a hm = record { at = hm.at }

  pub Leads-if :
      {A : Type 0} (b : Bool) (m n : Act A)
      → Leads P Q m
      → Leads P Q n
      → Leads P Q (if b then m else n)
  Leads-if true m n hm hn = hm
  Leads-if false m n hm hn = hn

  pub Leads-modify :
      (f : Agent → Agent) → ((g : Agent) → P g.tasks → Q (f g).tasks) → Leads P Q (modify f)
  unfolding modify
  Leads-modify f k = record { at = k }

  -- A test of the tasks, of which the other branch knows that it failed.
  pub Leads-checked :
      {A : Type 0} (test : List GameTask → Bool) (m n : Act A)
      → Leads P Q m
      → Leads (λ tasks. (test tasks ≡ false) × P tasks) Q n
      → Leads P Q (gets (λ g. test g.tasks) >>= λ b. if b then m else n)
  unfolding ◌>>=◌
  Leads-checked test m n hm hn = record {
    at = λ g h. elim (Bool-cases (test g.tasks)) [
      | inl e ↦ rw e (hm.at g h)
      | inr e ↦ rw e (hn.at g (e, h))
    ];
  }
