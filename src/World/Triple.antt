-- ===== src/World/Triple.antt =====
-- Pre- and postconditions of actions on the whole world, with a rule for each way to build one.
use mathlib.Core.Path.{subst}
use mina_evm_l.Prelude.{sym}
use mina_evm_l.Prelude.{
  ℕ, ◌≡◌, refl, Bool, true, false, Option, none, some, List, [], ◌∷◌, if◌then◌else◌, Both,
}
use mina_evm_l.Db.Table.{Db}
use mina_evm_l.World.Safe.{Safe}
use mina_evm_l.World.{
  World, Task, Error, Outcome, ok, err, panic, Exec, pure, fail, gets, or_err, unwrap, query,
  query_with, execute, execute_with, modify, panics, ◌>>=◌, continue, collect, for_each,
}

-- `Post` for a value that is returned, `Failed` for an error or a panic, of the world that is left.
abbrev pub After :
    {A : Type 0} → (A → World → Type 0) → (World → Type 0) → Outcome A → World → Type 0
After Post Failed (ok a) w = Post a w
After Post Failed (err e) w = Failed w
After Post Failed panic w = Failed w

pub record Triple {A : Type 0} (Pre : World → Type 0) (Post : A → World → Type 0)
    (Failed : World → Type 0) (m : Exec A) : Type 0 where
  pub at : (w : World) → Pre w → After Post Failed (m w).0 (m w).1

-- The world with other faults to come.
abbrev pub with_faults : World → List Bool → World
with_faults w faults = record w { faults = faults }

-- The world after a statement.
abbrev pub written : (ℕ → Db → Db) → World → List Bool → World
written f w faults = record w { db = f w.now w.db; faults = faults }

module _ {A : Type 0} {Pre : World → Type 0} {Post : A → World → Type 0}
    {Failed : World → Type 0} where
  pub Triple-pure : (a : A) → ((w : World) → Pre w → Post a w) → Triple Pre Post Failed (pure a)
  unfolding pure
  Triple-pure a k = record { at = k }

  pub Triple-fail : (e : Error) → ((w : World) → Pre w → Failed w) → Triple Pre Post Failed (fail e)
  unfolding fail
  Triple-fail e k = record { at = k }

  pub Triple-gets :
      (f : World → A) → ((w : World) → Pre w → Post (f w) w) → Triple Pre Post Failed (gets f)
  unfolding gets
  Triple-gets f k = record { at = k }

  pub Triple-or_err :
      (e : Error) (o : Option A)
      → ((a : A) → o ≡ some a → (w : World) → Pre w → Post a w)
      → ((w : World) → Pre w → Failed w)
      → Triple Pre Post Failed (or_err e o)
  unfolding or_err
  Triple-or_err e none k kf = Triple-fail e kf
  Triple-or_err e (some a) k kf = Triple-pure a (k a refl)

  pub Triple-unwrap :
      (o : Option A)
      → ((a : A) → o ≡ some a → (w : World) → Pre w → Post a w)
      → ((w : World) → Pre w → Failed w)
      → Triple Pre Post Failed (unwrap o)
  unfolding unwrap panics
  Triple-unwrap none k kf = record { at = kf }
  Triple-unwrap (some a) k kf = Triple-pure a (k a refl)

  pub Triple-query :
      (f : Db → A)
      → ((w : World) (faults : List Bool) → Pre w → Post (f w.db) (with_faults w faults))
      → ((w : World) (faults : List Bool) → Pre w → Failed (with_faults w faults))
      → Triple Pre Post Failed (query f)
  unfolding query query_with
  Triple-query f k kf = record { at = λ w h. go w.faults w h }
    where
      go :
          (faults : List Bool) (w : World)
          → Pre w
          → After Post Failed (query_with faults f w).0 (query_with faults f w).1
      go [] w h = k w w.faults h
      go (true ∷ faults) w h = kf w faults h
      go (false ∷ faults) w h = k w faults h

  pub Triple-if :
      (b : Bool) (m n : Exec A)
      → (b ≡ true → Triple Pre Post Failed m)
      → (b ≡ false → Triple Pre Post Failed n)
      → Triple Pre Post Failed (if b then m else n)
  Triple-if true m n hm hn = hm refl
  Triple-if false m n hm hn = hn refl

module _ {Pre : World → Type 0} {Post : Unit {0} → World → Type 0} {Failed : World → Type 0} where
  pub Triple-execute :
      (f : ℕ → Db → Db)
      → ((w : World) (faults : List Bool) → Pre w → Post tt (written f w faults))
      → ((w : World) (faults : List Bool) → Pre w → Failed (with_faults w faults))
      → Triple Pre Post Failed (execute f)
  unfolding execute execute_with
  Triple-execute f k kf = record { at = λ w h. go w.faults w h }
    where
      go :
          (faults : List Bool) (w : World)
          → Pre w
          → After Post Failed (execute_with faults f w).0 (execute_with faults f w).1
      go [] w h = k w w.faults h
      go (true ∷ faults) w h = kf w faults h
      go (false ∷ faults) w h = k w faults h

  pub Triple-modify :
      (f : World → World)
      → ((w : World) → Pre w → Post tt (f w))
      → Triple Pre Post Failed (modify f)
  unfolding modify
  Triple-modify f k = record { at = k }

module _ {A B : Type 0} {Pre : World → Type 0} {Failed : World → Type 0}
    {Post : B → World → Type 0} where
  pub Triple-bind :
      (Mid : A → World → Type 0) (m : Exec A) (f : A → Exec B)
      → Triple Pre Mid Failed m
      → ((a : A) → Triple (Mid a) Post Failed (f a))
      → Triple Pre Post Failed (m >>= f)
  unfolding ◌>>=◌
  Triple-bind Mid m f hm hf = record { at = λ w h. go (m w).0 (m w).1 (hm.at w h) }
    where
      go :
          (r : Outcome A) (w : World)
          → After Mid Failed r w
          → After Post Failed (continue r f w).0 (continue r f w).1
      go (ok a) w h = (hf a).at w h
      go (err e) w h = h
      go panic w h = h

module _ {A : Type 0} {Pre : World → Type 0} {Post Post' : A → World → Type 0}
    {Failed : World → Type 0} where
  -- A weaker postcondition, with a fact `K` that no action changes.
  pub Triple-frame :
      (K : Type 0) (m : Exec A)
      → Triple Pre Post Failed m
      → (K → (a : A) (w : World) → Post a w → Post' a w)
      → Triple (λ w. K × Pre w) Post' Failed m
  Triple-frame K m hm k = record { at = λ w h. go (m w).0 (m w).1 h.0 (hm.at w h.1) }
    where
      go : (r : Outcome A) (w : World) → K → After Post Failed r w → After Post' Failed r w
      go (ok a) w fact h = k fact a w h
      go (err e) w fact h = h
      go panic w fact h = h

module _ {A B : Type 0} {Pre : World → Type 0} where
  -- A body that leaves `Pre` alone, on every element in turn.
  pub Triple-collect :
      (R : A → B → Type 0) (xs : List A) (body : A → Exec B)
      → ((x : A) → Triple Pre (λ y w. R x y × Pre w) Pre (body x))
      → Triple Pre (λ ys w. Both R xs ys × Pre w) Pre (collect xs body)
  unfolding collect
  Triple-collect R [] body hb = Triple-pure [] (λ w h. (tt, h))
  Triple-collect R (x ∷ xs) body hb =
      Triple-bind (λ y w. R x y × Pre w) _ _ (hb x)
        (λ y.
          Triple-bind (λ ys w. Both R (x ∷ xs) (y ∷ ys) × Pre w) _ _
            (Triple-frame (R x y) _ (Triple-collect R xs body hb)
              (λ first ys w h. ((first, h.0), h.1)))
            (λ ys. Triple-pure (y ∷ ys) (λ w h. h)))

module _ {A B : Type 0} {Pre : World → Type 0} {Post : B → World → Type 0}
    {Failed : World → Type 0} where
  -- What the precondition knows of an argument.
  pub Triple-subst :
      (m : A → Exec B) (x y : A)
      → Triple Pre Post Failed (m y)
      → Triple (λ w. (x ≡ y) × Pre w) Post Failed (m x)
  Triple-subst m x y h = record {
    at = λ w k. subst (λ (a : A). After Post Failed (m a w).0 (m a w).1) (sym k.0) (h.at w k.1);
  }

module _ {A : Type 0} {Pre Pre' : World → Type 0} {Post : A → World → Type 0}
    {Failed : World → Type 0} {m : Exec A} where
  pub Triple-pre :
      ((w : World) → Pre' w → Pre w) → Triple Pre Post Failed m → Triple Pre' Post Failed m
  Triple-pre k hm = record { at = λ w h. hm.at w (k w h) }

module _ {A : Type 0} {Pre : World → Type 0} {Post : A → World → Type 0} {Failed : World → Type 0}
    {m : Exec A} where
  -- A fact in the precondition that no world can change.
  pub Triple-known :
      {K : Type 0} → (K → Triple Pre Post Failed m) → Triple (λ w. K × Pre w) Post Failed m
  Triple-known hm = record { at = λ w h. (hm h.0).at w h.1 }

module _ {A : Type 0} {Inv : List A → World → Type 0} {Failed : World → Type 0} where
  -- A loop invariant on what is left of the list.
  pub Triple-for_each :
      (body : A → Exec (Unit {0}))
      → ((x : A) (xs : List A) → Triple (Inv (x ∷ xs)) (λ _ w. Inv xs w) Failed (body x))
      → (xs : List A) → Triple (Inv xs) (λ _ w. Inv [] w) Failed (for_each xs body)
  unfolding for_each
  Triple-for_each body hb [] = Triple-pure tt (λ w h. h)
  Triple-for_each body hb (x ∷ xs) =
      Triple-bind (λ _ w. Inv xs w) _ _ (hb x xs) (λ _. Triple-for_each body hb xs)

module _ {A : Type 0} {Pre : World → Type 0} {Post Post' : A → World → Type 0}
    {Failed : World → Type 0} {m : Exec A} where
  pub Triple-post :
      ((a : A) (w : World) → Post a w → Post' a w)
      → Triple Pre Post Failed m
      → Triple Pre Post' Failed m
  Triple-post k hm = record { at = λ w h. go (m w).0 (m w).1 (hm.at w h) }
    where
      go : (r : Outcome A) (w : World) → After Post Failed r w → After Post' Failed r w
      go (ok a) w h = k a w h
      go (err e) w h = h
      go panic w h = h

module _ {A : Type 0} {C : Type 0} {P : Db → List Task → Type 0} {Q : A → Type 0} {m : Exec A} where
  -- What is kept whatever happens.
  pub Triple-Safe :
      Safe C P Q m → Triple (λ w. P w.db w.tasks) (λ _ w. P w.db w.tasks) (λ w. P w.db w.tasks) m
  Triple-Safe hm = record { at = λ w h. go (m w).0 (m w).1 (hm.at w h).1 }
    where
      go :
          (r : Outcome A) (w : World)
          → P w.db w.tasks
          → After (λ _ w. P w.db w.tasks) (λ w. P w.db w.tasks) r w
      go (ok a) w h = h
      go (err e) w h = h
      go panic w h = h

module _ {A : Type 0} {Pre : World → Type 0} {Post : A → World → Type 0} {Failed : World → Type 0}
    {m : Exec A} where
  -- A triple for the tasks at hand.
  pub Triple-tasks :
      ((tasks : List Task) → Triple (λ w. (w.tasks ≡ tasks) × Pre w) Post Failed m)
      → Triple Pre Post Failed m
  Triple-tasks hm = record { at = λ w h. (hm w.tasks).at w (refl, h) }

module _ {A : Type 0} {Pre : World → Type 0} {Post Post' : A → World → Type 0}
    {Failed Failed' : World → Type 0} {m : Exec A} where
  pub Triple-weaken :
      ((a : A) (w : World) → Post a w → Post' a w)
      → ((w : World) → Failed w → Failed' w)
      → Triple Pre Post Failed m
      → Triple Pre Post' Failed' m
  Triple-weaken k kf hm = record { at = λ w h. go (m w).0 (m w).1 (hm.at w h) }
    where
      go : (r : Outcome A) (w : World) → After Post Failed r w → After Post' Failed' r w
      go (ok a) w h = k a w h
      go (err e) w h = kf w h
      go panic w h = kf w h

module _ {A : Type 0} {Post Post' : A → World → Type 0} {Failed Failed' : World → Type 0} where
  pub After-weaken :
      ((a : A) (w : World) → Post a w → Post' a w)
      → ((w : World) → Failed w → Failed' w)
      → (r : Outcome A) (w : World) → After Post Failed r w
      → After Post' Failed' r w
  After-weaken k kf (ok a) w h = k a w h
  After-weaken k kf (err e) w h = kf w h
  After-weaken k kf panic w h = kf w h

-- What holds after success and after failure holds.
pub After-always :
    {A : Type 0} (P : World → Type 0) (r : Outcome A) (w : World) → After (λ _ w'. P w') P r w → P w
After-always P (ok a) w h = h
After-always P (err e) w h = h
After-always P panic w h = h
