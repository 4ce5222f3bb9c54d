-- ===== src/Prelude/Filtered.antt =====
-- Filters of filters, and of sorted lists.
use Prim.Native.Nat.{ℕ, ◌≤◌}
use mathlib.Core.Path.{◌≡◌, refl, sym, ap, ◌∙◌}
use mathlib.Core.Logic.{inl, inr}
use mathlib.Core.Bool.{Bool, true, false, ◌&&◌}
use mathlib.Core.List.{List, [], ◌∷◌, ◌++◌, map}
use native.Mathlib.Omega.{arith}
use mina_evm_l.Prelude.Tests.{leb, Bool-cases}
use mina_evm_l.Prelude.Lists.{filter, All}
use mina_evm_l.Prelude.Sort.{insert_by, sort_by, IsSorted, sort_by-IsSorted}

module _ {A : Type 0} where
  pub filter-filter :
      (p q r : A → Bool)
      → ((x : A) → r x ≡ (p x && q x))
      → (xs : List A) → filter q (filter p xs) ≡ filter r xs
  filter-filter p q r e [] = refl
  filter-filter p q r e (x ∷ xs) = elim (Bool-cases (p x)) [
    | inl hp ↦ elim (Bool-cases (q x)) [
      | inl hq ↦ rw (hp, e x) (rw (hq, hp) (ap (λ rest. x ∷ rest) (filter-filter p q r e xs)))
      | inr hq ↦ rw (hp, e x) (rw (hq, hp) (filter-filter p q r e xs))
    ]
    | inr hp ↦ rw (hp, e x) (rw hp (filter-filter p q r e xs))
  ]

  pub filter-All : (q : A → Bool) (xs : List A) → All (λ x. q x ≡ true) xs → filter q xs ≡ xs
  filter-All q [] h = refl
  filter-All q (x ∷ xs) h = rw h.0 (ap (λ rest. x ∷ rest) (filter-All q xs h.1))

  pub filter-none : (q : A → Bool) (xs : List A) → All (λ x. q x ≡ false) xs → filter q xs ≡ []
  filter-none q [] h = refl
  filter-none q (x ∷ xs) h = rw h.0 (filter-none q xs h.1)

  pub filter-append :
      (q : A → Bool) (xs ys : List A) → filter q (xs ++ ys) ≡ filter q xs ++ filter q ys
  filter-append q [] ys = refl
  filter-append q (x ∷ xs) ys = elim (Bool-cases (q x)) [
    | inl e ↦ rw e (ap (λ rest. x ∷ rest) (filter-append q xs ys))
    | inr e ↦ rw e (filter-append q xs ys)
  ]

module _ {A : Type 0} (key : A → ℕ) where
  IsSorted-lower : (lo hi : ℕ) (xs : List A) → lo ≤ hi → IsSorted key hi xs → IsSorted key lo xs
  IsSorted-lower lo hi [] le h = tt
  IsSorted-lower lo hi (x ∷ xs) le h = (omega arith, h.1)

  IsSorted-filter :
      (q : A → Bool) (lo : ℕ) (xs : List A) → IsSorted key lo xs → IsSorted key lo (filter q xs)
  IsSorted-filter q lo [] h = tt
  IsSorted-filter q lo (x ∷ xs) h = elim (Bool-cases (q x)) [
    | inl e ↦ rw e (h.0, IsSorted-filter q (key x) xs h.1)
    | inr e ↦ rw e (IsSorted-lower lo (key x) _ h.0 (IsSorted-filter q (key x) xs h.1))
  ]

  insert_by-front : (x : A) (xs : List A) → IsSorted key (key x) xs → insert_by key x xs ≡ x ∷ xs
  unfolding insert_by
  insert_by-front x [] h = refl
  insert_by-front x (y ∷ ys) h = ground arith

  filter-insert_by-false :
      (q : A → Bool) (x : A) (xs : List A)
      → q x ≡ false
      → filter q (insert_by key x xs) ≡ filter q xs
  unfolding insert_by
  filter-insert_by-false q x [] e = rw e refl
  filter-insert_by-false q x (y ∷ ys) e = elim (Bool-cases (leb (key x) (key y))) [
    | inl le ↦ rw le (rw e refl)
    | inr gt ↦ rw gt (rw (filter-insert_by-false q x ys e) refl)
  ]

  filter-insert_by-true :
      (q : A → Bool) (lo : ℕ) (x : A) (xs : List A)
      → q x ≡ true
      → IsSorted key lo xs
      → filter q (insert_by key x xs) ≡ insert_by key x (filter q xs)
  unfolding insert_by
  filter-insert_by-true q lo x [] e h = rw e refl
  filter-insert_by-true q lo x (y ∷ ys) e h = elim (Bool-cases (leb (key x) (key y))) [
    | inl le ↦ rw le (
        rw e (
          sym (
            insert_by-front x (filter q (y ∷ ys))
              (IsSorted-filter q (key x) (y ∷ ys) (ground arith, h.1)))))
    | inr gt ↦ elim (Bool-cases (q y)) [
      | inl kept ↦
          rw gt
            (rw kept (rw gt (ap (λ rest. y ∷ rest) (filter-insert_by-true q (key y) x ys e h.1))))
      | inr left ↦ rw gt (rw left (filter-insert_by-true q (key y) x ys e h.1))
    ]
  ]

  pub filter-sort_by :
      (q : A → Bool) (xs : List A) → filter q (sort_by key xs) ≡ sort_by key (filter q xs)
  unfolding sort_by
  filter-sort_by q [] = refl
  filter-sort_by q (x ∷ xs) = elim (Bool-cases (q x)) [
    | inl e ↦
        filter-insert_by-true q 0 x (sort_by key xs) e (sort_by-IsSorted key xs)
        ∙ rw (e, filter-sort_by q xs) refl
    | inr e ↦ filter-insert_by-false q x (sort_by key xs) e ∙ rw (e, filter-sort_by q xs) refl
  ]

  pub sort_by-id : (lo : ℕ) (xs : List A) → IsSorted key lo xs → sort_by key xs ≡ xs
  unfolding sort_by
  sort_by-id lo [] h = refl
  sort_by-id lo (x ∷ xs) h = rw (sort_by-id (key x) xs h.1) (insert_by-front x xs h.1)

module _ {A B : Type 0} (key : B → ℕ) (f : A → B) where
  pub IsSorted-map :
      (lo : ℕ) (xs : List A) → IsSorted (λ x. key (f x)) lo xs → IsSorted key lo (map f xs)
  IsSorted-map lo [] h = tt
  IsSorted-map lo (x ∷ xs) h = (h.0, IsSorted-map (key (f x)) xs h.1)
