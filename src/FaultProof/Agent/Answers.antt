-- ===== src/FaultProof/Agent/Answers.antt =====
-- What an action that asks for an answer did if it succeeded: fault-proof/src/proposer.rs.
use mathlib.Core.Path.{subst}
use mina_evm_l.Prelude.{◌≡◌, refl, sym, Option, none, some}
use mina_evm_l.World.{ok}
use mina_evm_l.FaultProof.Agent.{Agent, Act, or_err, or_panic, ◌>>=◌}

module _ {A B : Type 0} (Q : Agent → Type 0) where
  -- A part that succeeded gave a value, and the rest went on from the same state.
  pub or_err_then :
      (o : Option A) (f : A → Act B) (g : Agent) (b : B)
      → ((or_err o >>= f) g).0 ≡ ok b
      → ((a : A) → o ≡ some a → (f a g).0 ≡ ok b → Q (f a g).1)
      → Q ((or_err o >>= f) g).1
  unfolding ◌>>=◌
  or_err_then none f g b h k = absurd cc
  or_err_then (some a) f g b h k = k a refl h

  pub or_panic_then :
      (o : Option A) (f : A → Act B) (g : Agent) (b : B)
      → ((or_panic o >>= f) g).0 ≡ ok b
      → ((a : A) → o ≡ some a → (f a g).0 ≡ ok b → Q (f a g).1)
      → Q ((or_panic o >>= f) g).1
  unfolding ◌>>=◌
  or_panic_then none f g b h k = absurd cc
  or_panic_then (some a) f g b h k = k a refl h

  pub answer_then :
      (m : Act A) (o : Option A) (f : A → Act B) (g : Agent) (b : B)
      → m ≡ or_err o
      → ((m >>= f) g).0 ≡ ok b
      → ((a : A) → o ≡ some a → (f a g).0 ≡ ok b → Q (f a g).1)
      → Q ((m >>= f) g).1
  answer_then m o f g b e =
      subst
        (λ (n : Act A).
          ((n >>= f) g).0 ≡ ok b
          → ((a : A) → o ≡ some a → (f a g).0 ≡ ok b → Q (f a g).1)
          → Q ((n >>= f) g).1)
        (sym e) (or_err_then o f g b)
