-- ===== src/Transaction/Tests.antt =====
-- internal/transaction/transaction.go at concrete inputs.
use gothinkdb.Prelude.{ℕ, ◌≡◌, refl, some, List, [], ◌∷◌, get_elem?}
use gothinkdb.Prelude.Assoc.{lookup, insert, erase}
use gothinkdb.Transaction.{
  Transaction, TransactionManager, Call, Operation, active, committed, operation_call, begin_call,
  commit_call, abort_call, add_at, perform, run, begin, commit_by_id, finish, at_pointer, commit,
  new_transaction, new_transaction_manager, get,
}
use gothinkdb.Transaction.Invariant.{IsManager, run-IsManager, new_transaction_manager-IsManager}
use gothinkdb.Transaction.Settled.{run-IsSettled}
use gothinkdb.Transaction.Registered.{Committed, commit_by_id-Committed}

abbrev write : Operation ℕ
write = record { kind = "insert"; table = "t"; key = "k"; value = 1; old_value = 0; timestamp = 0 }

abbrev open_tx : Transaction
open_tx = record { id = "a"; state = active; operations = 0 ∷ []; start_time = 5; commit_time = 0 }

abbrev done_tx : Transaction
done_tx = record { id = "a"; state = committed; operations = []; start_time = 5; commit_time = 6 }

abbrev one_open : TransactionManager ℕ
one_open = record { heap = open_tx ∷ []; op_heap = write ∷ []; transactions = ("a", 0) ∷ [] }

-- Committed through the pointer: the id is still in the map.
abbrev one_done : TransactionManager ℕ
one_done = record { heap = done_tx ∷ []; op_heap = []; transactions = ("a", 0) ∷ [] }

abbrev calls : List (Call ℕ)
calls =
    operation_call write
    ∷ add_at 0 7 0
    ∷ commit_call "a" 8
    ∷ abort_call "a"
    ∷ begin_call "a" 9
    ∷ begin_call "b" 10
    ∷ []

begin_and_commit_run :
    run
      (begin_call "a" 5 ∷ commit_call "a" 6 ∷ begin_call "a" 7 ∷ [])
      (new_transaction_manager {V = ℕ})
    ≡ record {
      heap =
          done_tx
          ∷ record { id = "a"; state = active; operations = []; start_time = 7; commit_time = 0 }
          ∷ [];
      op_heap = [];
      transactions = ("a", 1) ∷ [];
    }
unfolding run perform begin commit_by_id finish get at_pointer commit new_transaction lookup insert
    erase
begin_and_commit_run = refl

run-IsManager_example : IsManager (run calls (new_transaction_manager {V = ℕ}))
run-IsManager_example =
    run-IsManager calls new_transaction_manager new_transaction_manager-IsManager

run-IsSettled_example : get_elem? (run calls one_done).heap 0 ≡ some done_tx
run-IsSettled_example = run-IsSettled 0 done_tx calls one_done refl refl

one_done_found : lookup "a" one_done.transactions ≡ some 0
unfolding lookup
one_done_found = refl

one_open_found : lookup "a" one_open.transactions ≡ some 0
unfolding lookup
one_open_found = refl

commit_by_id-Committed_example :
    Committed "a" 0 9 open_tx one_open
      (commit_by_id-Committed "a" 0 9 open_tx one_open one_open_found refl refl).0
commit_by_id-Committed_example =
    (commit_by_id-Committed "a" 0 9 open_tx one_open one_open_found refl refl).2
