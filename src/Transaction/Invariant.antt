-- ===== src/Transaction/Invariant.antt =====
-- internal/transaction/transaction.go: the manager's map under any sequence of calls.
use gothinkdb.Prelude.{
  get_elem?-set, get_elem?-append, get_elem?-append_last, ℕ, String, ◌≡◌, sym, ap, ◌∙◌, some, List,
  [], ◌∷◌, ◌++◌, ◌==◌, length, get_elem?, set, arith, Bool-cases, inl, inr, ==_iff, eq_iff, str_eq,
  some_eq, refl,
}
use gothinkdb.Prelude.Assoc.{lookup, erase, lookup-insert, lookup-erase}
use gothinkdb.Prelude.Result.{ok, Result-cases}
use gothinkdb.Transaction.{
  Transaction, TransactionManager, Method, Call, operation_call, begin_call, commit_call,
  abort_call, add_at, commit_at, abort_at, perform, or_same, run, begin, commit_by_id, abort_by_id,
  finish, at_pointer, commit, abort, append_operation, new_transaction, new_transaction_manager,
}
use gothinkdb.Transaction.Pointers.{
  Begun, Written, IsMethod, add_operation-Written, operation_call-heap, at_pointer-Written,
  finish-Finished, begin-Begun, append_operation-IsMethod, commit-IsMethod, abort-IsMethod,
}

erased_was :
    (other id : String) (p : ℕ) (entries : List (String × ℕ))
    → lookup id (erase other entries) ≡ some p
    → lookup id entries ≡ some p
erased_was other id p entries h = ground (arith, lookup-erase other id entries)

-- The pointer leads to a transaction with the id.
abbrev pub LeadsTo : String → ℕ → List Transaction → Type 0
LeadsTo id p heap = (t : Transaction) × (get_elem? heap p ≡ some t) × (t.id ≡ id)

set-LeadsTo :
    (id : String) (p q : ℕ) (old new : Transaction) (heap : List Transaction)
    → get_elem? heap q ≡ some old
    → new.id ≡ old.id
    → LeadsTo id p heap
    → LeadsTo id p (set heap q new)
set-LeadsTo id p q old new heap found same (t, here, named) = elim (Bool-cases (q == p)) [
  | inl at ↦
      let one = some_eq (sym found ∙ ap (get_elem? heap) ((==_iff q p).0 at) ∙ here) in
      (new, rw (get_elem?-set heap q p old new found, at) refl, same ∙ ap (λ u. u.id) one ∙ named)
  | inr away ↦ (t, rw (get_elem?-set heap q p old new found, away) here, named)
]

module _ {V : Type 0} where
  -- Each id of the map has a transaction with this id behind its pointer.
  pub record IsManager (tm : TransactionManager V) : Type 0 where
    pub registered :
        (id : String) (p : ℕ) → lookup id tm.transactions ≡ some p → LeadsTo id p tm.heap

  Written-IsManager :
      (q : ℕ) (method : Method) (tm tm' : TransactionManager V)
      → IsMethod method
      → IsManager tm
      → Written q method tm tm'
      → IsManager tm'
  Written-IsManager q method tm tm' m i w = record {
    registered = λ id p h. rw w.heap (
        set-LeadsTo id p q w.old w.new tm.heap w.found (m w.old w.new w.made).1
          (i.registered id p (sym (ap (lookup id) w.transactions) ∙ h)));
  }

  at_pointer-IsManager :
      (q : ℕ) (method : Method) (tm tm' : TransactionManager V)
      → IsMethod method
      → IsManager tm
      → at_pointer q method tm ≡ ok tm'
      → IsManager tm'
  at_pointer-IsManager q method tm tm' m i e =
      Written-IsManager q method tm tm' m i (at_pointer-Written q method tm tm' e)

  finish-IsManager :
      (other : String) (method : Method) (tm tm' : TransactionManager V)
      → IsMethod method
      → IsManager tm
      → finish other method tm ≡ ok tm'
      → IsManager tm'
  finish-IsManager other method tm tm' m i e =
      let w = finish-Finished other method tm tm' e in
      record {
        registered = λ id p h. rw w.heap (
            set-LeadsTo id p w.pointer w.old w.new tm.heap w.found (m w.old w.new w.made).1 (
              i.registered id p
                (erased_was other id p tm.transactions (sym (ap (lookup id) w.transactions) ∙ h))));
      }

  Begun-LeadsTo :
      (id other : String) (p now : ℕ) (tm tm' : TransactionManager V)
      → IsManager tm
      → Begun other now tm tm'
      → lookup id tm'.transactions ≡ some p
      → LeadsTo id p tm'.heap
  unfolding new_transaction
  Begun-LeadsTo id other p now tm tm' i w h =
      let found =
        sym (lookup-insert other id (length tm.heap) tm.transactions)
        ∙ sym (ap (lookup id) w.transactions)
        ∙ h in
      elim (Bool-cases (str_eq other id)) [
        | inl here ↦
            let last = some_eq (rw here at found) in
            (
              new_transaction other now,
              ap (λ heap. get_elem? heap p) w.heap
                  ∙ ap (get_elem? (tm.heap ++ new_transaction other now ∷ [])) (sym last)
                  ∙ get_elem?-append_last tm.heap (new_transaction other now),
              (eq_iff other id).0 here,
            )
        | inr elsewhere ↦
            let (t, stored, named) = i.registered id p (rw elsewhere at found) in
            (
              t,
              ap (λ heap. get_elem? heap p) w.heap
                  ∙ get_elem?-append tm.heap (new_transaction other now ∷ []) p t stored,
              named,
            )
      ]

  begin-IsManager :
      (other : String) (now : ℕ) (tm tm' : TransactionManager V)
      → IsManager tm
      → begin other now tm ≡ ok tm'
      → IsManager tm'
  begin-IsManager other now tm tm' i e =
      let w = begin-Begun other now tm tm' e in
      record { registered = λ id p h. Begun-LeadsTo id other p now tm tm' i w h }

  perform-IsManager :
      (call : Call V) (tm tm' : TransactionManager V)
      → IsManager tm
      → perform call tm ≡ ok tm'
      → IsManager tm'
  unfolding perform commit_by_id abort_by_id
  perform-IsManager (operation_call op) tm tm' i e =
      let (heap, transactions) = operation_call-heap op tm tm' e in
      record {
        registered = λ id p h. rw heap (i.registered id p (sym (ap (lookup id) transactions) ∙ h));
      }
  perform-IsManager (begin_call id now) tm tm' i e = begin-IsManager id now tm tm' i e
  perform-IsManager (commit_call id now) tm tm' i e =
      finish-IsManager id (commit now) tm tm' (commit-IsMethod now) i e
  perform-IsManager (abort_call id) tm tm' i e = finish-IsManager id abort tm tm' abort-IsMethod i e
  perform-IsManager (add_at q now op) tm tm' i e =
      Written-IsManager q (append_operation op) tm tm' (append_operation-IsMethod op) i
        (add_operation-Written q now op tm tm' e)
  perform-IsManager (commit_at q now) tm tm' i e =
      at_pointer-IsManager q (commit now) tm tm' (commit-IsMethod now) i e
  perform-IsManager (abort_at q) tm tm' i e = at_pointer-IsManager q abort tm tm' abort-IsMethod i e

  or_same-IsManager :
      (call : Call V) (tm : TransactionManager V)
      → IsManager tm
      → IsManager (or_same tm (perform call tm))
  or_same-IsManager call tm i = elim (Result-cases (perform call tm)) [
    | inl (inl failed) ↦ rw failed i
    | inl (inr failed) ↦ rw failed i
    | inr (tm', returned) ↦ rw returned (perform-IsManager call tm tm' i returned)
  ]

  -- Every sequence of calls keeps the manager well formed: each id of its map leads to a stored
  -- transaction that has this id.
  pub run-IsManager :
      (calls : List (Call V)) (tm : TransactionManager V) → IsManager tm → IsManager (run calls tm)
  unfolding run
  run-IsManager [] tm i = i
  run-IsManager (call ∷ calls) tm i =
      run-IsManager calls (or_same tm (perform call tm)) (or_same-IsManager call tm i)

  pub new_transaction_manager-IsManager : IsManager (new_transaction_manager {V = V})
  unfolding lookup
  new_transaction_manager-IsManager = record { registered = λ id p h. cc }
