-- ===== src/Db/Locks.antt =====
-- The chain lock of validity/src/db/client.rs.
use mathlib.Core.Path.{subst}
use mina_evm_l.Prelude.{
  ℕ, ◌+◌, ◌≤◌, ◌≡◌, refl, sym, inl, inr, false, ◌&&◌, List, [], ◌∷◌, arith, ltb, ◌==◌,
  if◌then◌else◌, Bool-cases, map, count_if, count_if-append,
}
use mina_evm_l.Db.Table.{ChainLock, Db}
use mina_evm_l.Db.Queries.{is_fresh, is_chain_locked}
use mina_evm_l.Db.Updates.{is_lock_of, update_chain_lock, add_chain_lock}

-- The lock with its time set, if it is the chain's.
abbrev relocked : ℕ → ℕ → ℕ → ChainLock → ChainLock
relocked l1 l2 now lock = if is_lock_of l1 l2 lock then record lock { locked_at = now } else lock

-- Once the chain's locks are from one time, they are fresh together.
fresh-map :
    (l1 l2 interval now later : ℕ) (locks : List ChainLock)
    → count_if (is_fresh l1 l2 interval later) (map (relocked l1 l2 now) locks)
      ≡ (if ltb later (now + interval) then count_if (is_lock_of l1 l2) locks else 0)
fresh-map l1 l2 interval now later [] = ground arith
fresh-map l1 l2 interval now later (lock ∷ locks) = elim (Bool-cases (is_lock_of l1 l2 lock)) [
  | inl e ↦ rw e (ground (arith, fresh-map l1 l2 interval now later locks))
  | inr e ↦ rw e (ground (arith, fresh-map l1 l2 interval now later locks))
]

other-map :
    (l1 l2 interval now later m1 m2 : ℕ) (locks : List ChainLock)
    → (m1 == l1 && m2 == l2) ≡ false
    → count_if (is_fresh m1 m2 interval later) (map (relocked l1 l2 now) locks)
      ≡ count_if (is_fresh m1 m2 interval later) locks
other-map l1 l2 interval now later m1 m2 [] other = refl
other-map l1 l2 interval now later m1 m2 (lock ∷ locks) other =
    elim (Bool-cases (is_lock_of l1 l2 lock)) [
      | inl e ↦ rw e (ground (arith, other-map l1 l2 interval now later m1 m2 locks other))
      | inr e ↦ rw e (ground (arith, other-map l1 l2 interval now later m1 m2 locks other))
    ]

fresh-le :
    (l1 l2 interval later : ℕ) (locks : List ChainLock)
    → count_if (is_fresh l1 l2 interval later) locks ≤ count_if (is_lock_of l1 l2) locks
fresh-le l1 l2 interval later [] = omega arith
fresh-le l1 l2 interval later (lock ∷ locks) = ground (arith, fresh-le l1 l2 interval later locks)

own_chain :
    (l1 l2 interval now later : ℕ) (db : Db)
    → is_chain_locked l1 l2 interval later (add_chain_lock l1 l2 now db)
      ≡ ltb later (now + interval)
unfolding is_chain_locked add_chain_lock update_chain_lock
own_chain l1 l2 interval now later db =
    elim (Bool-cases (ltb 0 (count_if (is_lock_of l1 l2) db.chain_locks))) [
      | inl e ↦ rw e (rw (fresh-map l1 l2 interval now later db.chain_locks) (ground (arith, e)))
      | inr e ↦ rw e (
          rw (count_if-append (is_fresh l1 l2 interval later) db.chain_locks _)
            (ground (arith, fresh-le l1 l2 interval later db.chain_locks, e)))
    ]

other_chain :
    (l1 l2 interval now later m1 m2 : ℕ) (db : Db)
    → (m1 == l1 && m2 == l2) ≡ false
    → is_chain_locked m1 m2 interval later (add_chain_lock l1 l2 now db)
      ≡ is_chain_locked m1 m2 interval later db
unfolding is_chain_locked add_chain_lock update_chain_lock
other_chain l1 l2 interval now later m1 m2 db other =
    elim (Bool-cases (ltb 0 (count_if (is_lock_of l1 l2) db.chain_locks))) [
      | inl e ↦ rw e (rw (other-map l1 l2 interval now later m1 m2 db.chain_locks other) refl)
      | inr e ↦ rw e (
          rw (count_if-append (is_fresh m1 m2 interval later) db.chain_locks _)
            (ground (arith, other)))
    ]

-- A chain that was locked at `now` is locked for the interval from then on, whatever locks there were,
-- and no longer; other chains are locked as they were.
pub is_chain_locked-add_chain_lock :
    (l1 l2 interval now later m1 m2 : ℕ) (db : Db)
    → is_chain_locked m1 m2 interval later (add_chain_lock l1 l2 now db) ≡ (
        if m1 == l1 && m2 == l2
        then ltb later (now + interval)
        else is_chain_locked m1 m2 interval later db)
is_chain_locked-add_chain_lock l1 l2 interval now later m1 m2 db =
    elim (Bool-cases (m1 == l1 && m2 == l2)) [
      | inl same ↦
          let e1 : m1 ≡ l1 = ground (arith, same) in
          let e2 : m2 ≡ l2 = ground (arith, same) in
          rw same (
            subst
              (λ (n : ℕ).
                is_chain_locked n m2 interval later (add_chain_lock l1 l2 now db)
                ≡ ltb later (now + interval))
              (sym e1)
              (subst
                (λ (n : ℕ).
                  is_chain_locked l1 n interval later (add_chain_lock l1 l2 now db)
                  ≡ ltb later (now + interval))
                (sym e2) (own_chain l1 l2 interval now later db)))
      | inr other ↦ rw other (other_chain l1 l2 interval now later m1 m2 db other)
    ]
