-- ===== src/Transaction/Registered.antt =====
-- internal/transaction/transaction.go: `Commit` and `Abort` of the manager, on every branch.
use gothinkdb.Prelude.{
  get_elem?-set, ℕ, String, ◌≡◌, ◌∙◌, true, false, some, none, ◌==◌, get_elem?, set, if◌then◌else◌,
  arith, str_eq, refl,
}
use gothinkdb.Prelude.Assoc.{lookup, erase, lookup-erase}
use gothinkdb.Prelude.Result.{ok}
use gothinkdb.Transaction.{
  Transaction, TransactionManager, is_active, commit_by_id, finish, at_pointer, commit, committed,
  get,
}

module _ {V : Type 0} where
  -- The transaction p, once t, is committed, and its id is free. All other transactions and ids are
  -- as they were, and all operations.
  pub record Committed (id : String) (p now : ℕ) (t : Transaction) (tm tm' : TransactionManager V)
      : Type 0 where
    pub done : get_elem? tm'.heap p ≡ some (record t { state = committed; commit_time = now })
    pub others : (q : ℕ) → (p == q) ≡ false → get_elem? tm'.heap q ≡ get_elem? tm.heap q
    pub operations : tm'.op_heap ≡ tm.op_heap
    pub ids :
        (other : String)
        → lookup other tm'.transactions
          ≡ (if str_eq id other then none else lookup other tm.transactions)

  abbrev pub after_commit :
      String → ℕ → ℕ → Transaction → TransactionManager V → TransactionManager V
  after_commit id p now t tm = record tm {
    heap = set tm.heap p (record t { state = committed; commit_time = now });
    transactions = erase id tm.transactions;
  }

  commit_by_id-after_commit :
      (id : String) (p now : ℕ) (t : Transaction) (tm : TransactionManager V)
      → lookup id tm.transactions ≡ some p
      → get_elem? tm.heap p ≡ some t
      → is_active t.state ≡ true
      → commit_by_id now id tm ≡ ok (after_commit id p now t tm)
  unfolding commit_by_id finish get at_pointer commit
  commit_by_id-after_commit id p now t tm h found on = rw (h, found, on) refl

  -- `Commit` of an id that leads to an active transaction succeeds. It sets the state and the commit
  -- time of this transaction and keeps its operations, frees the id, and changes no operation, no
  -- other transaction and no other id.
  pub commit_by_id-Committed :
      (id : String) (p now : ℕ) (t : Transaction) (tm : TransactionManager V)
      → lookup id tm.transactions ≡ some p
      → get_elem? tm.heap p ≡ some t
      → is_active t.state ≡ true
      → (tm' : TransactionManager V) × (commit_by_id now id tm ≡ ok tm')
        × Committed id p now t tm tm'
  commit_by_id-Committed id p now t tm h found on =
      let new : Transaction = record t { state = committed; commit_time = now } in
      (
        after_commit id p now t tm,
        commit_by_id-after_commit id p now t tm h found on,
        record {
          done = get_elem?-set tm.heap p p t new found ∙ ground arith;
          others = λ q away. rw (get_elem?-set tm.heap p q t new found, away) refl;
          operations = refl;
          ids = λ other. lookup-erase id other tm.transactions;
        },
      )
