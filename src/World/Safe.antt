-- ===== src/World/Safe.antt =====
-- A postcondition for actions, and its rule for each way to build one.
use mina_evm_l.Prelude.{
  ℕ, ◌≡◌, refl, Bool, true, false, Option, none, some, List, [], ◌∷◌, if◌then◌else◌, All,
}
use mina_evm_l.Db.Table.{Db}
use mina_evm_l.World.{
  World, Task, Error, Outcome, ok, err, panic, Exec, pure, fail, panics, gets, or_err, unwrap,
  query, query_with, execute, execute_with, modify, ◌>>=◌, continue, catch, from_err, for_each,
  collect,
}

-- If a result is a value, `Q` holds of it; it is a panic only if `C` holds.
abbrev pub Returns : {A : Type 0} → Type 0 → (A → Type 0) → Outcome A → Type 0
Returns C Q (ok a) = Q a
Returns C Q (err e) = Unit
Returns C Q panic = C

-- From a database and tasks where `P` holds, the action panics only if `C` holds, `Q` holds of what it
-- returns, and `P` holds of what it leaves, whether it succeeds or fails.
pub record Safe {A : Type 0} (C : Type 0) (P : Db → List Task → Type 0) (Q : A → Type 0)
    (m : Exec A) : Type 0 where
  pub at : (w : World) → P w.db w.tasks → Returns C Q (m w).0 × P (m w).1.db (m w).1.tasks

abbrev pub Any : {A : Type 0} → A → Type 0
Any a = Unit

module _ {P : Db → List Task → Type 0} {A : Type 0} where
  query_with-Safe :
      (C : Type 0) (Q : A → Type 0) (faults : List Bool) (f : Db → A)
      → ((db : Db) (tasks : List Task) → P db tasks → Q (f db))
      → (w : World) → P w.db w.tasks
      → Returns C Q (query_with faults f w).0
        × P (query_with faults f w).1.db (query_with faults f w).1.tasks
  unfolding query_with
  query_with-Safe C Q [] f q w h = (q w.db w.tasks h, h)
  query_with-Safe C Q (true ∷ faults) f q w h = (tt, h)
  query_with-Safe C Q (false ∷ faults) f q w h = (q w.db w.tasks h, h)

module _ {C : Type 0} {P : Db → List Task → Type 0} {A : Type 0} {Q : A → Type 0} where
  pub Safe-pure : (a : A) → Q a → Safe C P Q (pure a)
  unfolding pure
  Safe-pure a q = record { at = λ w h. (q, h) }

  pub Safe-fail : (e : Error) → Safe C P Q (fail e)
  unfolding fail
  Safe-fail e = record { at = λ w h. (tt, h) }

  pub Safe-panics : C → Safe C P Q panics
  unfolding panics
  Safe-panics c = record { at = λ w h. (c, h) }

  pub Safe-or_err :
      (e : Error) (o : Option A) → ((a : A) → o ≡ some a → Q a) → Safe C P Q (or_err e o)
  unfolding or_err
  Safe-or_err e none q = Safe-fail e
  Safe-or_err e (some a) q = Safe-pure a (q a refl)

  -- `unwrap` of what is known to be a value, or where a panic is allowed.
  pub Safe-unwrap :
      (o : Option A) → (o ≡ none → C) → ((a : A) → o ≡ some a → Q a) → Safe C P Q (unwrap o)
  unfolding unwrap
  Safe-unwrap none c q = Safe-panics (c refl)
  Safe-unwrap (some a) c q = Safe-pure a (q a refl)

  pub Safe-gets : (f : World → A) → ((w : World) → P w.db w.tasks → Q (f w)) → Safe C P Q (gets f)
  unfolding gets
  Safe-gets f q = record { at = λ w h. (q w h, h) }

  -- What holds of the answer follows from what holds of the database.
  pub Safe-query :
      (f : Db → A) → ((db : Db) (tasks : List Task) → P db tasks → Q (f db)) → Safe C P Q (query f)
  unfolding query
  Safe-query f q = record { at = λ w h. query_with-Safe C Q w.faults f q w h }

  pub Safe-if :
      (b : Bool) (m n : Exec A)
      → (b ≡ true → Safe C P Q m)
      → (b ≡ false → Safe C P Q n)
      → Safe C P Q (if b then m else n)
  Safe-if true m n hm hn = hm refl
  Safe-if false m n hm hn = hn refl

  from_err-Safe :
      (r : Outcome A) (f : Error → Exec A) (w : World)
      → ((e : Error) → Safe C P Q (f e))
      → Returns C Q r
      → P w.db w.tasks
      → Returns C Q (from_err r f w).0 × P (from_err r f w).1.db (from_err r f w).1.tasks
  from_err-Safe (ok a) f w hf q h = (q, h)
  from_err-Safe (err e) f w hf q h = (hf e).at w h
  from_err-Safe panic f w hf q h = (q, h)

  pub Safe-catch :
      (m : Exec A) (f : Error → Exec A)
      → Safe C P Q m
      → ((e : Error) → Safe C P Q (f e))
      → Safe C P Q (catch m f)
  unfolding catch
  Safe-catch m f hm hf = record {
    at = λ w h. let (q, h') = hm.at w h in from_err-Safe (m w).0 f (m w).1 hf q h';
  }

module _ {P : Db → List Task → Type 0} where
  execute_with-Safe :
      (C : Type 0) (faults : List Bool) (f : ℕ → Db → Db)
      → ((now : ℕ) (db : Db) (tasks : List Task) → P db tasks → P (f now db) tasks)
      → (w : World) → P w.db w.tasks
      → Returns C Any (execute_with faults f w).0
        × P (execute_with faults f w).1.db (execute_with faults f w).1.tasks
  unfolding execute_with
  execute_with-Safe C [] f k w h = (tt, k w.now w.db w.tasks h)
  execute_with-Safe C (true ∷ faults) f k w h = (tt, h)
  execute_with-Safe C (false ∷ faults) f k w h = (tt, k w.now w.db w.tasks h)

module _ {C : Type 0} {P : Db → List Task → Type 0} where
  pub Safe-execute :
      (f : ℕ → Db → Db)
      → ((now : ℕ) (db : Db) (tasks : List Task) → P db tasks → P (f now db) tasks)
      → Safe C P Any (execute f)
  unfolding execute
  Safe-execute f k = record { at = λ w h. execute_with-Safe C w.faults f k w h }

  -- A change of the tasks or of what was sent.
  pub Safe-modify :
      (f : World → World)
      → ((w : World) → P w.db w.tasks → P (f w).db (f w).tasks)
      → Safe C P Any (modify f)
  unfolding modify
  Safe-modify f k = record { at = λ w h. (tt, k w h) }

module _ {C : Type 0} {P : Db → List Task → Type 0} {A B : Type 0} {Q : A → Type 0}
    {R : B → Type 0} where
  continue-Safe :
      (r : Outcome A) (f : A → Exec B) (w : World)
      → ((a : A) → Q a → Safe C P R (f a))
      → Returns C Q r
      → P w.db w.tasks
      → Returns C R (continue r f w).0 × P (continue r f w).1.db (continue r f w).1.tasks
  continue-Safe (ok a) f w hf q h = (hf a q).at w h
  continue-Safe (err e) f w hf q h = (tt, h)
  continue-Safe panic f w hf q h = (q, h)

  -- The rest of a block may use what holds of the value so far.
  pub Safe-bind :
      (m : Exec A) (f : A → Exec B)
      → Safe C P Q m
      → ((a : A) → Q a → Safe C P R (f a))
      → Safe C P R (m >>= f)
  unfolding ◌>>=◌
  Safe-bind m f hm hf = record {
    at = λ w h. let (q, h') = hm.at w h in continue-Safe (m w).0 f (m w).1 hf q h';
  }

module _ {C : Type 0} {P : Db → List Task → Type 0} {A : Type 0} {Q : A → Type 0} where
  pub Safe-for_each :
      (xs : List A) (body : A → Exec (Unit {0}))
      → ((x : A) → Q x → Safe C P Any (body x))
      → All Q xs
      → Safe C P Any (for_each xs body)
  unfolding for_each
  Safe-for_each [] body hb q = Safe-pure tt tt
  Safe-for_each (x ∷ xs) body hb q =
      Safe-bind (body x) (λ _. for_each xs body) (hb x q.0) (λ _ _. Safe-for_each xs body hb q.1)

module _ {C : Type 0} {P : Db → List Task → Type 0} {A B : Type 0} {R : B → Type 0} where
  pub Safe-collect :
      (Q : A → Type 0) (xs : List A) (body : A → Exec B)
      → ((x : A) → Q x → Safe C P R (body x))
      → All Q xs
      → Safe C P (All R) (collect xs body)
  unfolding collect
  Safe-collect Q [] body hb q = Safe-pure [] tt
  Safe-collect Q (x ∷ xs) body hb q = Safe-bind (body x) _ (hb x q.0) (λ y qy.
      Safe-bind (collect xs body) _ (Safe-collect Q xs body hb q.1)
        (λ ys qys. Safe-pure (y ∷ ys) (qy, qys)))

pub All-Any : {A : Type 0} (xs : List A) → All Any xs
All-Any [] = tt
All-Any (x ∷ xs) = (tt, All-Any xs)
