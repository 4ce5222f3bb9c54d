-- ===== src/FaultProof/Scan.antt =====
-- What the loops over games of fault-proof/src/lib.rs find.
use mathlib.Core.Path.{subst}
use mina_evm_l.Prelude.{
  ℕ, zero, suc, ◌+◌, ◌<◌, ◌≡◌, refl, sym, ap, ◌∙◌, inl, inr, Bool, true, false, Option, none, some,
  arith, if◌then◌else◌, Option-cases,
}
use mina_evm_l.Request.{Address}
use mina_evm_l.World.{Outcome, ok, err, panic}
use mina_evm_l.World.Outcomes.{Outcome-cases, value}
use mina_evm_l.FaultProof.{◌>>=◌, scan}
use mina_evm_l.FaultProof.Search.{search}

-- The first game with `P` among `left` games from `lo` on, or that there is none.
pub data IsOldest (P : ℕ → Address → Type 0) (lo left : ℕ) : Option Address → Type 0 where
  found :
      (k : ℕ) (address : Address)
      → k < left
      → P (lo + k) address
      → ((j : ℕ) (other : Address) → j < k → ¬ (P (lo + j) other))
      → IsOldest P lo left (some address)
  nowhere : ((j : ℕ) (other : Address) → j < left → ¬ (P (lo + j) other)) → IsOldest P lo left none

pub bind-some :
    {A B : Type 0} (o : Option A) (f : A → Option B) (b : B)
    → (o >>= f) ≡ some b
    → (a : A) × (o ≡ some a) × (f a ≡ some b)
bind-some none f b h = absurd cc
bind-some (some a) f b h = (a, refl, h)

-- A test that must have been false, and one that must have been true.
pub unless-some :
    {B : Type 0} (t : Bool) (o : Option (Option B)) (b : B)
    → (if t then some none else o) ≡ some (some b)
    → (t ≡ false) × (o ≡ some (some b))
unless-some true o b h = absurd cc
unless-some false o b h = (refl, h)

pub when-some :
    {B : Type 0} (t : Bool) (a b : B)
    → (if t then some (some a) else some none) ≡ some (some b)
    → (t ≡ true) × (a ≡ b)
when-some true a b h = (refl, cc)
when-some false a b h = absurd cc

module _ (look : ℕ → Option (Option Address)) where
  scan-zero : (lo : ℕ) (a : Address) → scan look 0 lo ≡ some (some a) → ⊥
  unfolding scan
  scan-zero lo a h = cc

  scan-error :
      (left lo : ℕ) (r : Option Address) → look lo ≡ none → scan look (suc left) lo ≡ some r → ⊥
  unfolding scan
  scan-error left lo r e h = let stuck : scan look (suc left) lo ≡ none = rw (e, scan) refl in cc

  scan-skip :
      (left lo : ℕ) → look lo ≡ some none → scan look (suc left) lo ≡ scan look left (suc lo)
  unfolding scan
  scan-skip left lo e = rw (e, scan) refl

  scan-found :
      (left lo : ℕ) (a : Address)
      → look lo ≡ some (some a)
      → scan look (suc left) lo ≡ some (some a)
  unfolding scan
  scan-found left lo a e = rw (e, scan) refl

-- A look that finds exactly the games with `P`.
module _ (look : ℕ → Option (Option Address)) (P : ℕ → Address → Type 0)
    (sound : (i : ℕ) (a : Address) → look i ≡ some (some a) → P i a)
    (complete : (i : ℕ) (a : Address) → P i a → look i ≡ some (some a)) where
  abbrev Skips : ℕ → Type 0
  Skips index = (other : Address) → ¬ (P index other)

  skipped : (index : ℕ) → look index ≡ some none → Skips index
  skipped index h other c = absurd (distinct (look index) other h (complete index other c))
    where
      distinct : (o : Option (Option Address)) (a : Address) → o ≡ some none → o ≡ some (some a) → ⊥
      distinct o a e e' = cc

  -- One game was skipped before the rest.
  Skips-cons :
      (lo n : ℕ)
      → Skips lo
      → ((j : ℕ) (other : Address) → j < n → ¬ (P (suc lo + j) other))
      → (j : ℕ) (other : Address) → j < suc n
      → ¬ (P (lo + j) other)
  Skips-cons lo n skip rest zero other lt =
      let e : lo + 0 ≡ lo = omega arith in subst (λ (i : ℕ). ¬ (P i other)) (sym e) (skip other)
  Skips-cons lo n skip rest (suc j) other lt =
      let e : lo + suc j ≡ suc lo + j = omega arith in
      subst (λ (i : ℕ). ¬ (P i other)) (sym e) (rest j other (omega arith))

  later :
      (lo left : ℕ) (r : Option Address)
      → Skips lo
      → IsOldest P (suc lo) left r
      → IsOldest P lo (suc left) r
  later lo left _ skip (found k a lt c before) =
      let e : lo + suc k ≡ suc lo + k = omega arith in
      found (suc k) a (omega arith) (subst (λ (i : ℕ). P i a) (sym e) c)
        (Skips-cons lo k skip before)
  later lo left _ skip (nowhere none_here) = nowhere (Skips-cons lo left skip none_here)

  pub scan-IsOldest :
      (left lo : ℕ) (r : Option Address) → scan look left lo ≡ some r → IsOldest P lo left r
  scan-IsOldest zero lo none h = nowhere (λ j other lt. absurd (omega arith))
  scan-IsOldest zero lo (some a) h = absurd (scan-zero look lo a h)
  scan-IsOldest (suc left) lo r h = elim (Option-cases (look lo)) [
    | inl e ↦ absurd (scan-error look left lo r e h)
    | inr (o, e) ↦ elim (Option-cases o) [
      | inl e' ↦
          later lo left r (skipped lo (e ∙ ap some e'))
            (scan-IsOldest left (suc lo) r (sym (scan-skip look left lo (e ∙ ap some e')) ∙ h))
      | inr (a, e') ↦
          subst (λ (x : Option Address). IsOldest P lo (suc left) x)
            (some_eq (some a) r (sym (scan-found look left lo a (e ∙ ap some e')) ∙ h))
            (found 0 a (omega arith)
              (let z : lo + 0 ≡ lo = omega arith in
                subst (λ (i : ℕ). P i a) (sym z) (sound lo a (e ∙ ap some e')))
              (λ j other lt. absurd (omega arith)))
    ]
  ]
    where
      some_eq : (a b : Option Address) → some a ≡ some b → a ≡ b
      some_eq a b e = cc

-- A search that does not fail finds what a scan of its values finds.
search-scan :
    (look : ℕ → Outcome (Option Address)) (left lo : ℕ) (r : Option Address)
    → search look left lo ≡ ok r
    → scan (λ i. value (look i)) left lo ≡ some r
unfolding search scan
search-scan look zero lo r h = cc
search-scan look (suc left) lo r h = elim (Outcome-cases (look lo)) [
  | inl (x, e) ↦
      let failed : search look (suc left) lo ≡ err x = rw (e, search) refl in
      absurd (cc (h, failed))
  | inr (inl e) ↦
      let failed : search look (suc left) lo ≡ panic = rw (e, search) refl in
      absurd (cc (h, failed))
  | inr (inr (none, e)) ↦
      let rest : search look (suc left) lo ≡ search look left (suc lo) = rw (e, search) refl in
      rw (e, scan) (search-scan look left (suc lo) r (sym rest ∙ h))
  | inr (inr (some a, e)) ↦
      let there : search look (suc left) lo ≡ ok (some a) = rw (e, search) refl in
      rw (e, scan) (cc (h, there))
]

module _ (look : ℕ → Outcome (Option Address)) (P : ℕ → Address → Type 0)
    (sound : (i : ℕ) (a : Address) → look i ≡ ok (some a) → P i a)
    (complete : (i : ℕ) (a : Address) → P i a → look i ≡ ok (some a)) where
  pub search-IsOldest :
      (left lo : ℕ) (r : Option Address) → search look left lo ≡ ok r → IsOldest P lo left r
  search-IsOldest left lo r h =
      scan-IsOldest (λ i. value (look i)) P (λ i a e. sound i a (of_value (look i) (some a) e))
        (λ i a p. ap value (complete i a p)) left lo r (search-scan look left lo r h)
    where
      of_value : (o : Outcome (Option Address)) (a : Option Address) → value o ≡ some a → o ≡ ok a
      of_value (ok b) a e = cc
      of_value (err x) a e = absurd cc
      of_value panic a e = absurd cc
