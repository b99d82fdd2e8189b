-- ===== src/Transaction/Settled.antt =====
-- internal/transaction/transaction.go: a transaction that is committed or aborted, under all later
-- calls, and what its holder can do to the manager by committing it through the pointer.
use gothinkdb.Prelude.{
  get_elem?-set, get_elem?-append, ℕ, String, ◌≡◌, sym, ap, ◌∙◌, true, false, some, List, [], ◌∷◌,
  ◌==◌, get_elem?, set, length, Bool-cases, inl, inr, ==_iff, eq_iff, str_eq, some_eq, refl,
}
use gothinkdb.Prelude.Assoc.{lookup, lookup-insert, lookup-erase}
use gothinkdb.Prelude.Result.{ok, err, Result-cases}
use gothinkdb.Transaction.{
  Transaction, TransactionManager, Method, Call, operation_call, begin_call, commit_call,
  abort_call, add_at, commit_at, abort_at, is_active, perform, or_same, run, begin, commit_by_id,
  abort_by_id, finish, at_pointer, commit, abort, append_operation, new_transaction,
}
use gothinkdb.Transaction.Pointers.{
  Written, IsMethod, add_operation-Written, operation_call-heap, at_pointer-Written,
  finish-Finished, begin-Begun, append_operation-IsMethod, commit-IsMethod, abort-IsMethod,
}

-- The pointer leads to a transaction that is not active.
abbrev pub IsSettled : ℕ → Transaction → List Transaction → Type 0
IsSettled p t heap = (get_elem? heap p ≡ some t) × (is_active t.state ≡ false)

-- One pointer does not lead to an active and to a settled transaction.
on_and_off :
    (p q : ℕ) (t old : Transaction) (heap : List Transaction)
    → q ≡ p
    → get_elem? heap q ≡ some old
    → is_active old.state ≡ true
    → ¬ IsSettled p t heap
on_and_off p q t old heap same found on s =
    let one = some_eq (sym found ∙ ap (get_elem? heap) same ∙ s.0) in
    cc (ap (λ u. is_active u.state) one, on, s.1)

set-IsSettled :
    (p q : ℕ) (t old new : Transaction) (heap : List Transaction)
    → get_elem? heap q ≡ some old
    → is_active old.state ≡ true
    → IsSettled p t heap
    → IsSettled p t (set heap q new)
set-IsSettled p q t old new heap found on s = elim (Bool-cases (q == p)) [
  | inl here ↦ absurd (on_and_off p q t old heap ((==_iff q p).0 here) found on s)
  | inr elsewhere ↦ (rw (get_elem?-set heap q p old new found, elsewhere) s.0, s.1)
]

module _ {V : Type 0} where
  Written-IsSettled :
      (p q : ℕ) (t : Transaction) (method : Method) (tm tm' : TransactionManager V)
      → IsMethod method
      → IsSettled p t tm.heap
      → Written q method tm tm'
      → IsSettled p t tm'.heap
  Written-IsSettled p q t method tm tm' m s w =
      rw w.heap (set-IsSettled p q t w.old w.new tm.heap w.found (m w.old w.new w.made).0 s)

  at_pointer-IsSettled :
      (p q : ℕ) (t : Transaction) (method : Method) (tm tm' : TransactionManager V)
      → IsMethod method
      → IsSettled p t tm.heap
      → at_pointer q method tm ≡ ok tm'
      → IsSettled p t tm'.heap
  at_pointer-IsSettled p q t method tm tm' m s e =
      Written-IsSettled p q t method tm tm' m s (at_pointer-Written q method tm tm' e)

  finish-IsSettled :
      (p : ℕ) (id : String) (t : Transaction) (method : Method) (tm tm' : TransactionManager V)
      → IsMethod method
      → IsSettled p t tm.heap
      → finish id method tm ≡ ok tm'
      → IsSettled p t tm'.heap
  finish-IsSettled p id t method tm tm' m s e =
      let w = finish-Finished id method tm tm' e in
      rw w.heap (set-IsSettled p w.pointer t w.old w.new tm.heap w.found (m w.old w.new w.made).0 s)

  perform-IsSettled :
      (p : ℕ) (t : Transaction) (call : Call V) (tm tm' : TransactionManager V)
      → IsSettled p t tm.heap
      → perform call tm ≡ ok tm'
      → IsSettled p t tm'.heap
  unfolding perform commit_by_id abort_by_id
  perform-IsSettled p t (operation_call op) tm tm' s e =
      (rw (operation_call-heap op tm tm' e).0 s.0, s.1)
  perform-IsSettled p t (begin_call id now) tm tm' s e =
      let w = begin-Begun id now tm tm' e in
      (rw w.heap (get_elem?-append tm.heap (new_transaction id now ∷ []) p t s.0), s.1)
  perform-IsSettled p t (commit_call id now) tm tm' s e =
      finish-IsSettled p id t (commit now) tm tm' (commit-IsMethod now) s e
  perform-IsSettled p t (abort_call id) tm tm' s e =
      finish-IsSettled p id t abort tm tm' abort-IsMethod s e
  perform-IsSettled p t (add_at q now op) tm tm' s e =
      Written-IsSettled p q t (append_operation op) tm tm' (append_operation-IsMethod op) s
        (add_operation-Written q now op tm tm' e)
  perform-IsSettled p t (commit_at q now) tm tm' s e =
      at_pointer-IsSettled p q t (commit now) tm tm' (commit-IsMethod now) s e
  perform-IsSettled p t (abort_at q) tm tm' s e =
      at_pointer-IsSettled p q t abort tm tm' abort-IsMethod s e

  or_same-IsSettled :
      (p : ℕ) (t : Transaction) (call : Call V) (tm : TransactionManager V)
      → IsSettled p t tm.heap
      → IsSettled p t (or_same tm (perform call tm)).heap
  or_same-IsSettled p t call tm s = elim (Result-cases (perform call tm)) [
    | inl (inl failed) ↦ rw failed s
    | inl (inr failed) ↦ rw failed s
    | inr (tm', returned) ↦ rw returned (perform-IsSettled p t call tm tm' s returned)
  ]

  -- A transaction that is committed or aborted keeps its id, its state, its times and its list of
  -- pointers to operations under every later sequence of calls, of the manager and through
  -- pointers. What the pointers lead to is not kept: a call that adds the same operation to another
  -- transaction writes its time.
  pub run-IsSettled :
      (p : ℕ) (t : Transaction) (calls : List (Call V)) (tm : TransactionManager V)
      → get_elem? tm.heap p ≡ some t
      → is_active t.state ≡ false
      → get_elem? (run calls tm).heap p ≡ some t
  unfolding run
  run-IsSettled p t [] tm found off = found
  run-IsSettled p t (call ∷ calls) tm found off =
      run-IsSettled p t calls (or_same tm (perform call tm))
        (or_same-IsSettled p t call tm (found, off)).0 off

  finish-registered :
      (p : ℕ) (id other : String) (t : Transaction) (method : Method)
      (tm tm' : TransactionManager V)
      → IsMethod method
      → IsSettled p t tm.heap
      → lookup id tm.transactions ≡ some p
      → finish other method tm ≡ ok tm'
      → lookup id tm'.transactions ≡ some p
  finish-registered p id other t method tm tm' m s h e =
      let w = finish-Finished other method tm tm' e in
      let on = (m w.old w.new w.made).0 in
      elim (Bool-cases (str_eq other id)) [
        | inl here ↦
            let same = some_eq (
              sym w.registered
              ∙ ap (λ k. lookup k tm.transactions) ((eq_iff other id).0 here)
              ∙ h) in
            absurd (on_and_off p w.pointer t w.old tm.heap same w.found on s)
        | inr elsewhere ↦ rw (w.transactions, lookup-erase other id tm.transactions, elsewhere) h
      ]

  perform-registered :
      (p : ℕ) (id : String) (t : Transaction) (call : Call V) (tm tm' : TransactionManager V)
      → IsSettled p t tm.heap
      → lookup id tm.transactions ≡ some p
      → perform call tm ≡ ok tm'
      → lookup id tm'.transactions ≡ some p
  unfolding perform commit_by_id abort_by_id
  perform-registered p id t (operation_call op) tm tm' s h e =
      ap (lookup id) (operation_call-heap op tm tm' e).1 ∙ h
  perform-registered p id t (begin_call other now) tm tm' s h e =
      let w = begin-Begun other now tm tm' e in
      elim (Bool-cases (str_eq other id)) [
        | inl here ↦
            cc (w.unknown, h, ap (λ k. lookup k tm.transactions) ((eq_iff other id).0 here))
        | inr elsewhere ↦
            rw (w.transactions, lookup-insert other id (length tm.heap) tm.transactions, elsewhere)
              h
      ]
  perform-registered p id t (commit_call other now) tm tm' s h e =
      finish-registered p id other t (commit now) tm tm' (commit-IsMethod now) s h e
  perform-registered p id t (abort_call other) tm tm' s h e =
      finish-registered p id other t abort tm tm' abort-IsMethod s h e
  perform-registered p id t (add_at q now op) tm tm' s h e =
      ap (lookup id) (add_operation-Written q now op tm tm' e).transactions ∙ h
  perform-registered p id t (commit_at q now) tm tm' s h e =
      ap (lookup id) (at_pointer-Written q (commit now) tm tm' e).transactions ∙ h
  perform-registered p id t (abort_at q) tm tm' s h e =
      ap (lookup id) (at_pointer-Written q abort tm tm' e).transactions ∙ h

  or_same-registered :
      (p : ℕ) (id : String) (t : Transaction) (call : Call V) (tm : TransactionManager V)
      → IsSettled p t tm.heap
      → lookup id tm.transactions ≡ some p
      → lookup id (or_same tm (perform call tm)).transactions ≡ some p
  or_same-registered p id t call tm s h = elim (Result-cases (perform call tm)) [
    | inl (inl failed) ↦ rw failed h
    | inl (inr failed) ↦ rw failed h
    | inr (tm', returned) ↦ rw returned (perform-registered p id t call tm tm' s h returned)
  ]

  -- An id whose transaction was finished through its pointer, and not by the manager, stays in the
  -- manager's map under every later sequence of calls.
  run-registered :
      (p : ℕ) (id : String) (t : Transaction) (calls : List (Call V)) (tm : TransactionManager V)
      → IsSettled p t tm.heap
      → lookup id tm.transactions ≡ some p
      → lookup id (run calls tm).transactions ≡ some p
  unfolding run
  run-registered p id t [] tm s h = h
  run-registered p id t (call ∷ calls) tm s h =
      run-registered p id t calls (or_same tm (perform call tm)) (or_same-IsSettled p t call tm s)
        (or_same-registered p id t call tm s h)

  begin_taken :
      (id : String) (p now : ℕ) (tm : TransactionManager V)
      → lookup id tm.transactions ≡ some p
      → begin id now tm ≡ err
  unfolding begin
  begin_taken id p now tm h = rw (begin, h) refl

  -- An id of the map whose transaction was finished through its pointer, and not by the manager, is
  -- never free again: after every later sequence of calls, `Begin` of that id is an error.
  pub finished_outside_blocks_id :
      (p now : ℕ) (id : String) (t : Transaction) (calls : List (Call V))
      (tm : TransactionManager V)
      → lookup id tm.transactions ≡ some p
      → get_elem? tm.heap p ≡ some t
      → is_active t.state ≡ false
      → begin id now (run calls tm) ≡ err
  finished_outside_blocks_id p now id t calls tm h found off =
      begin_taken id p now (run calls tm) (run-registered p id t calls tm (found, off) h)
