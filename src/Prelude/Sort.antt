-- ===== src/Prelude/Sort.antt =====
-- A stable sort by a key, `sort_by_key` of the standard library and `ORDER BY` of the queries.
use Prim.Native.Nat.{ℕ, ◌≤◌}
use mathlib.Core.Path.{◌≡◌, refl}
use mathlib.Core.Bool.{Bool}
use mathlib.Core.List.{List, [], ◌∷◌}
use native.Mathlib.Omega.{arith}
use mina_evm_l.Prelude.Tests.{leb, if◌then◌else◌}
use mina_evm_l.Prelude.Lists.{count_if, All}

module _ {A : Type 0} (key : A → ℕ) where
  unfoldable pub insert_by : A → List A → List A
  insert_by x [] = x ∷ []
  insert_by x (y ∷ ys) =
      let rest = insert_by x ys in if leb (key x) (key y) then x ∷ y ∷ ys else y ∷ rest

  unfoldable pub sort_by : List A → List A
  unfolding insert_by
  sort_by [] = []
  sort_by (x ∷ xs) = insert_by x (sort_by xs)

  -- Sorted by the key, from `lo` on.
  abbrev pub IsSorted : ℕ → List A → Type 0
  IsSorted lo [] = Unit
  IsSorted lo (x ∷ xs) = (lo ≤ key x) × IsSorted (key x) xs

  count_if-insert_by :
      (p : A → Bool) (x : A) (xs : List A) → count_if p (insert_by x xs) ≡ count_if p (x ∷ xs)
  unfolding insert_by
  count_if-insert_by p x [] = refl
  count_if-insert_by p x (y ∷ ys) = ground (arith, count_if-insert_by p x ys)

  pub count_if-sort_by : (p : A → Bool) (xs : List A) → count_if p (sort_by xs) ≡ count_if p xs
  unfolding sort_by
  count_if-sort_by p [] = refl
  count_if-sort_by p (x ∷ xs) =
      omega (arith, count_if-insert_by p x (sort_by xs), count_if-sort_by p xs)

  insert_by-IsSorted :
      (lo : ℕ) (x : A) (xs : List A) → lo ≤ key x → IsSorted lo xs → IsSorted lo (insert_by x xs)
  unfolding insert_by
  insert_by-IsSorted lo x [] le h = (le, tt)
  insert_by-IsSorted lo x (y ∷ ys) le h =
      ground (arith, λ (q : key y ≤ key x). insert_by-IsSorted (key y) x ys q h.1)

  pub sort_by-IsSorted : (xs : List A) → IsSorted 0 (sort_by xs)
  unfolding sort_by
  sort_by-IsSorted [] = tt
  sort_by-IsSorted (x ∷ xs) =
      insert_by-IsSorted 0 x (sort_by xs) (omega arith) (sort_by-IsSorted xs)

  All-insert_by : (P : A → Type 0) (x : A) (xs : List A) → P x → All P xs → All P (insert_by x xs)
  unfolding insert_by
  All-insert_by P x [] h k = (h, tt)
  All-insert_by P x (y ∷ ys) h k = ground (arith, All-insert_by P x ys h k.1)

  pub All-sort_by : (P : A → Type 0) (xs : List A) → All P xs → All P (sort_by xs)
  unfolding sort_by
  All-sort_by P [] h = tt
  All-sort_by P (x ∷ xs) h = All-insert_by P x (sort_by xs) h.0 (All-sort_by P xs h.1)
