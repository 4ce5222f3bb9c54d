-- ===== src/Db/Inserted.antt =====
-- What the inserts of validity/src/db/client.rs add.
use mathlib.Core.List.{append_assoc, append-nil}
use mina_evm_l.Prelude.{
  ℕ, zero, suc, ◌+◌, ◌≤◌, ◌≡◌, refl, sym, ap, ◌∙◌, List, [], ◌∷◌, ◌++◌, arith, length,
}
use mina_evm_l.Request.{Request}
use mina_evm_l.Db.Table.{Db}
use mina_evm_l.Db.Updates.{
  insert_request, insert_chunk, insert_chunks, insert_requests, take, drop, batch_size,
}

-- The rows with the ids that the sequence gives them.
unfoldable pub numbered : ℕ → List Request → List Request
numbered n [] = []
numbered n (r ∷ rows) = record r { id = n } ∷ numbered (suc n) rows

insert_chunk-append :
    (xs ys : List Request) (db : Db)
    → insert_chunk (xs ++ ys) db ≡ insert_chunk ys (insert_chunk xs db)
unfolding insert_chunk
insert_chunk-append [] ys db = refl
insert_chunk-append (x ∷ xs) ys db = insert_chunk-append xs ys (insert_request x db)

take-append-drop : (n : ℕ) (rows : List Request) → take n rows ++ drop n rows ≡ rows
take-append-drop zero rows = refl
take-append-drop (suc n) [] = refl
take-append-drop (suc n) (r ∷ rows) = ap (λ rest. r ∷ rest) (take-append-drop n rows)

length-drop-le : (n : ℕ) (rows : List Request) → length (drop n rows) ≤ length rows
length-drop-le zero rows = omega arith
length-drop-le (suc n) [] = omega arith
length-drop-le (suc n) (r ∷ rows) = omega (arith, length-drop-le n rows)

-- Batching by hundreds changes nothing: the rows go in as one batch would put them.
insert_chunks-insert_chunk :
    (rounds : ℕ) (rows : List Request) (db : Db)
    → length rows ≤ rounds
    → insert_chunks rounds rows db ≡ insert_chunk rows db
unfolding insert_chunks insert_chunk
insert_chunks-insert_chunk zero [] db h = refl
insert_chunks-insert_chunk zero (r ∷ rows) db h = absurd (omega arith)
insert_chunks-insert_chunk (suc n) [] db h = refl
insert_chunks-insert_chunk (suc n) (r ∷ rows) db h =
    insert_chunks-insert_chunk n (drop batch_size (r ∷ rows)) _
      (omega (arith, length-drop-le 99 rows))
    ∙ sym (insert_chunk-append (take batch_size (r ∷ rows)) (drop batch_size (r ∷ rows)) db)
    ∙ ap (λ rs. insert_chunk rs db) (take-append-drop batch_size (r ∷ rows))

requests-insert_chunk :
    (rows : List Request) (db : Db)
    → (insert_chunk rows db).requests ≡ db.requests ++ numbered db.next_id rows
unfolding insert_chunk insert_request numbered
requests-insert_chunk [] db = sym (append-nil db.requests)
requests-insert_chunk (r ∷ rows) db =
    requests-insert_chunk rows (insert_request r db)
    ∙ append_assoc db.requests (record r { id = db.next_id } ∷ []) (numbered (suc db.next_id) rows)

next_id-insert_chunk :
    (rows : List Request) (db : Db)
    → ((insert_chunk rows db).next_id ≡ db.next_id + length rows)
      × ((insert_chunk rows db).chain_locks ≡ db.chain_locks)
unfolding insert_chunk insert_request
next_id-insert_chunk [] db = (omega arith, refl)
next_id-insert_chunk (r ∷ rows) db =
    let (next, locks) = next_id-insert_chunk rows (insert_request r db) in (omega arith, locks)

-- A batch insert appends the rows in order, each with the next id of the sequence, and leaves the old
-- rows, the chain locks, and a sequence that is ahead by the number of rows.
pub insert_requests_lem :
    (rows : List Request) (db : Db)
    → ((insert_requests rows db).requests ≡ db.requests ++ numbered db.next_id rows)
      × ((insert_requests rows db).next_id ≡ db.next_id + length rows)
      × ((insert_requests rows db).chain_locks ≡ db.chain_locks)
unfolding insert_requests
insert_requests_lem rows db =
    let (next, locks) = next_id-insert_chunk rows db in
    rw (insert_chunks-insert_chunk (length rows) rows db (omega arith))
      ((requests-insert_chunk rows db, next, locks))
