-- ===== src/Transaction.antt =====
-- internal/transaction/transaction.go: transactions and their manager. `Begin` and `Get` hand out
-- pointers into the manager's map, so the transactions live in a heap, and a pointer is a position.
-- So do the operations: `AddOperation` keeps the caller's pointer and writes the time through it.
-- Each method runs under its lock and is one step.
pub mod Pointers
pub mod Invariant
pub mod Settled
pub mod Registered
mod Tests
use gothinkdb.Prelude.{
  ℕ, String, Bool, true, false, Option, none, some, List, [], ◌∷◌, ◌++◌, length, get_elem?, set,
}
use gothinkdb.Prelude.Assoc.{lookup, insert, erase, values_where}
use gothinkdb.Prelude.Result.{Result, ok, err, panic, ◌>>=◌, ◌>>◌, or_panic, or_err, require}

pub data TransactionState : Type 0 where
  active committed aborted : TransactionState

-- `TransactionState.String`; the three states are all that the package makes.
unfoldable pub state_string : TransactionState → String
state_string active = "active"
state_string committed = "committed"
state_string aborted = "aborted"

abbrev pub is_active : TransactionState → Bool
is_active active = true
is_active committed = false
is_active aborted = false

pub record Operation (V : Type 0) : Type 0 where
  pub kind : String
  pub table : String
  pub key : String
  pub value : V
  pub old_value : V
  pub timestamp : ℕ

-- The operations are pointers. The commit time 0 is Go's zero time.
pub record Transaction : Type 0 where
  pub id : String
  pub state : TransactionState
  pub operations : List ℕ
  pub start_time : ℕ
  pub commit_time : ℕ

-- The manager's map, from ids to pointers, and what pointers lead to: the transactions, and the
-- operations that the callers have made.
pub record TransactionManager (V : Type 0) : Type 0 where
  pub heap : List Transaction
  pub op_heap : List (Operation V)
  pub transactions : List (String × ℕ)

-- A method of a transaction that may fail.
abbrev pub Method : Type 0
Method = Transaction → Result Transaction

-- `NewTransactionManager`
abbrev pub new_transaction_manager : {V : Type 0} → TransactionManager V
new_transaction_manager = record { heap = []; op_heap = []; transactions = [] }

-- `NewTransaction`
unfoldable pub new_transaction : String → ℕ → Transaction
new_transaction id now = record {
  id = id;
  state = active;
  operations = [];
  start_time = now;
  commit_time = 0;
}

-- `AddOperation`, but for the time of the operation.
unfoldable pub append_operation : ℕ → Transaction → Result Transaction
append_operation op t = do
  require (is_active t.state)
  ok (record t { operations = t.operations ++ op ∷ [] })

-- `Transaction.Commit`
unfoldable pub commit : ℕ → Transaction → Result (Transaction)
commit now t = do
  require (is_active t.state)
  ok (record t { state = committed; commit_time = now })

-- `Transaction.Abort`
unfoldable pub abort : Transaction → Result (Transaction)
abort t = do require (is_active t.state); ok (record t { state = aborted; operations = [] })

abbrev pub is_active_at : List Transaction → ℕ → Bool
is_active_at heap p = elim (get_elem? heap p) [ none ↦ false | some t ↦ is_active t.state ]

module _ {V : Type 0} where
  -- A method of the transaction that a pointer leads to.
  unfoldable pub at_pointer : ℕ → Method → TransactionManager V → Result (TransactionManager V)
  at_pointer p method tm = do
    t ← or_panic (get_elem? tm.heap p)
    t' ← method t
    ok (record tm { heap = set tm.heap p t' })

  -- `op.Timestamp = time.Now().Unix()`, through the caller's pointer.
  unfoldable pub stamp : ℕ → ℕ → TransactionManager V → Result (TransactionManager V)
  stamp now op tm = do
    operation ← or_panic (get_elem? tm.op_heap op)
    ok (record tm { op_heap = set tm.op_heap op (record operation { timestamp = now }) })

  -- `Transaction.AddOperation`
  unfoldable pub add_operation : ℕ → ℕ → ℕ → TransactionManager V → Result (TransactionManager V)
  add_operation p now op tm = do tm' ← at_pointer p (append_operation op) tm; stamp now op tm'

  -- `TransactionManager.Begin`; the pointer that it returns is the last of the heap.
  unfoldable pub begin : String → ℕ → TransactionManager V → Result (TransactionManager V)
  begin id now tm = elim (lookup id tm.transactions) [
    | some p ↦ err
    | none ↦ ok (record tm {
      heap = tm.heap ++ new_transaction id now ∷ [];
      transactions = insert id (length tm.heap) tm.transactions;
    })
  ]

  -- `TransactionManager.Get`
  unfoldable pub get : String → TransactionManager V → Result ℕ
  get id tm = or_err (lookup id tm.transactions)

  -- Finish the transaction, then take it out of the map.
  unfoldable pub finish : String → Method → TransactionManager V → Result (TransactionManager V)
  finish id method tm = do
    p ← get id tm
    tm' ← at_pointer p method tm
    ok (record tm' { transactions = erase id tm'.transactions })

  -- `TransactionManager.Commit`. The loop over the operations does nothing in the source.
  unfoldable pub commit_by_id : ℕ → String → TransactionManager V → Result (TransactionManager V)
  commit_by_id now id tm = finish id (commit now) tm

  -- `TransactionManager.Abort`
  unfoldable pub abort_by_id : String → TransactionManager V → Result (TransactionManager V)
  abort_by_id id tm = finish id abort tm

  -- `GetActiveTransactions`, as pointers, in the order of the list.
  unfoldable pub get_active_transactions : TransactionManager V → List ℕ
  get_active_transactions tm = values_where (is_active_at tm.heap) tm.transactions

-- The calls that the users of a manager can make; the last three go through a pointer. With
-- the first a user makes an operation.
pub data Call (V : Type 0) : Type 0 where
  operation_call : Operation V → Call V
  begin_call : String → ℕ → Call V
  commit_call : String → ℕ → Call V
  abort_call : String → Call V
  add_at : ℕ → ℕ → ℕ → Call V
  commit_at : ℕ → ℕ → Call V
  abort_at : ℕ → Call V

module _ {V : Type 0} where
  unfoldable pub perform : Call V → TransactionManager V → Result (TransactionManager V)
  perform (operation_call op) tm = ok (record tm { op_heap = tm.op_heap ++ op ∷ [] })
  perform (begin_call id now) tm = begin id now tm
  perform (commit_call id now) tm = commit_by_id now id tm
  perform (abort_call id) tm = abort_by_id id tm
  perform (add_at p now op) tm = add_operation p now op tm
  perform (commit_at p now) tm = at_pointer p (commit now) tm
  perform (abort_at p) tm = at_pointer p abort tm

  abbrev pub or_same : TransactionManager V → Result (TransactionManager V) → TransactionManager V
  or_same tm panic = tm
  or_same tm err = tm
  or_same tm (ok tm') = tm'

  -- The manager after the calls. A call that fails leaves it as it is.
  unfoldable pub run : List (Call V) → TransactionManager V → TransactionManager V
  run [] tm = tm
  run (call ∷ calls) tm = run calls (or_same tm (perform call tm))
