-- ===== src/Transaction/Pointers.antt =====
-- internal/transaction/transaction.go: what the methods do to the heap and to the map.
use gothinkdb.Prelude.{
  ℕ, String, ◌≡◌, ap, true, none, some, [], ◌∷◌, ◌++◌, length, get_elem?, set, Option-cases,
  Bool-cases, inl, inr, sym, ◌∙◌,
}
use gothinkdb.Prelude.Assoc.{lookup, erase, insert}
use gothinkdb.Prelude.Result.{ok, Result-cases, ok_eq}
use gothinkdb.Transaction.{
  Transaction, TransactionManager, Method, is_active, Operation, at_pointer, finish, get, begin,
  new_transaction, add_operation, append_operation, stamp, commit, abort, perform, operation_call,
}

module _ {V : Type 0} where
  -- What a call through a pointer did, if it returned.
  pub record Written (p : ℕ) (method : Method) (tm tm' : TransactionManager V) : Type 0 where
    pub old : Transaction
    pub new : Transaction
    pub found : get_elem? tm.heap p ≡ some old
    pub made : method old ≡ ok new
    pub heap : tm'.heap ≡ set tm.heap p new
    pub transactions : tm'.transactions ≡ tm.transactions

  pub at_pointer-Written :
      (p : ℕ) (method : Method) (tm tm' : TransactionManager V)
      → at_pointer p method tm ≡ ok tm'
      → Written p method tm tm'
  unfolding at_pointer
  at_pointer-Written p method tm tm' e = elim (Option-cases (get_elem? tm.heap p)) [
    | inl missing ↦ cc (rw missing at e)
    | inr (t, found) ↦ elim (Result-cases (method t)) [
      | inl (inl failed) ↦ cc (rw (found, failed) at e)
      | inl (inr failed) ↦ cc (rw (found, failed) at e)
      | inr (t', made) ↦
          let same = ok_eq (rw (found, made) at e) in
          record {
            old = t;
            new = t';
            found = found;
            made = made;
            heap = ap (λ m. m.heap) (sym same);
            transactions = ap (λ m. m.transactions) (sym same);
          }
    ]
  ]

  -- What `Commit` and `Abort` of the manager did, if they returned.
  pub record Finished (id : String) (method : Method) (tm tm' : TransactionManager V) : Type 0 where
    pub pointer : ℕ
    pub old : Transaction
    pub new : Transaction
    pub registered : lookup id tm.transactions ≡ some pointer
    pub found : get_elem? tm.heap pointer ≡ some old
    pub made : method old ≡ ok new
    pub heap : tm'.heap ≡ set tm.heap pointer new
    pub transactions : tm'.transactions ≡ erase id tm.transactions

  pub finish-Finished :
      (id : String) (method : Method) (tm tm' : TransactionManager V)
      → finish id method tm ≡ ok tm'
      → Finished id method tm tm'
  unfolding finish get
  finish-Finished id method tm tm' e = elim (Option-cases (lookup id tm.transactions)) [
    | inl missing ↦ cc (rw missing at e)
    | inr (p, registered) ↦ elim (Result-cases (at_pointer p method tm)) [
      | inl (inl failed) ↦ cc (rw (registered, failed) at e)
      | inl (inr failed) ↦ cc (rw (registered, failed) at e)
      | inr (mid, returned) ↦
          let same = ok_eq (rw (registered, returned) at e) in
          let w = at_pointer-Written p method tm mid returned in
          record {
            pointer = p;
            old = w.old;
            new = w.new;
            registered = registered;
            found = w.found;
            made = w.made;
            heap = ap (λ m. m.heap) (sym same) ∙ w.heap;
            transactions = ap (λ m. m.transactions) (sym same) ∙ ap (erase id) w.transactions;
          }
    ]
  ]

  -- What `Begin` did, if it returned.
  pub record Begun (id : String) (now : ℕ) (tm tm' : TransactionManager V) : Type 0 where
    pub unknown : lookup id tm.transactions ≡ none
    pub heap : tm'.heap ≡ tm.heap ++ new_transaction id now ∷ []
    pub transactions : tm'.transactions ≡ insert id (length tm.heap) tm.transactions

  pub begin-Begun :
      (id : String) (now : ℕ) (tm tm' : TransactionManager V)
      → begin id now tm ≡ ok tm'
      → Begun id now tm tm'
  unfolding begin
  begin-Begun id now tm tm' e = elim (Option-cases (lookup id tm.transactions)) [
    | inr (p, registered) ↦ cc (rw (begin, registered) at e)
    | inl unknown ↦
        let same = ok_eq (rw (begin, unknown) at e) in
        record {
          unknown = unknown;
          heap = ap (λ m. m.heap) (sym same);
          transactions = ap (λ m. m.transactions) (sym same);
        }
  ]

  stamp-heap :
      (now op : ℕ) (tm tm' : TransactionManager V)
      → stamp now op tm ≡ ok tm'
      → (tm'.heap ≡ tm.heap) × (tm'.transactions ≡ tm.transactions)
  unfolding stamp
  stamp-heap now op tm tm' e = elim (Option-cases (get_elem? tm.op_heap op)) [
    | inl missing ↦ cc (rw missing at e)
    | inr (operation, found) ↦
        let same = ok_eq (rw found at e) in
        (ap (λ m. m.heap) (sym same), ap (λ m. m.transactions) (sym same))
  ]

  -- To the transactions an added operation is a pointer that is appended.
  pub add_operation-Written :
      (p now op : ℕ) (tm tm' : TransactionManager V)
      → add_operation p now op tm ≡ ok tm'
      → Written p (append_operation op) tm tm'
  unfolding add_operation
  add_operation-Written p now op tm tm' e =
      elim (Result-cases (at_pointer p (append_operation op) tm)) [
        | inl (inl failed) ↦ cc (rw failed at e)
        | inl (inr failed) ↦ cc (rw failed at e)
        | inr (mid, returned) ↦
            let w = at_pointer-Written p (append_operation op) tm mid returned in
            let (heap, transactions) = stamp-heap now op mid tm' (rw returned at e) in
            record {
              old = w.old;
              new = w.new;
              found = w.found;
              made = w.made;
              heap = heap ∙ w.heap;
              transactions = transactions ∙ w.transactions;
            }
      ]

  pub operation_call-heap :
      (op : Operation V) (tm tm' : TransactionManager V)
      → perform (operation_call op) tm ≡ ok tm'
      → (tm'.heap ≡ tm.heap) × (tm'.transactions ≡ tm.transactions)
  unfolding perform
  operation_call-heap op tm tm' e =
      let same = ok_eq e in (ap (λ m. m.heap) (sym same), ap (λ m. m.transactions) (sym same))

-- A method writes an active transaction only, and keeps the id.
abbrev pub IsMethod : Method → Type 0
IsMethod method =
    (t t' : Transaction) → method t ≡ ok t' → (is_active t.state ≡ true) × (t'.id ≡ t.id)

pub append_operation-IsMethod : (op : ℕ) → IsMethod (append_operation op)
unfolding append_operation
append_operation-IsMethod op t t' e = elim (Bool-cases (is_active t.state)) [
  | inr off ↦ cc (rw off at e)
  | inl on ↦ (on, ap (λ u. u.id) (sym (ok_eq (rw on at e))))
]

pub commit-IsMethod : (now : ℕ) → IsMethod (commit now)
unfolding commit
commit-IsMethod now t t' e = elim (Bool-cases (is_active t.state)) [
  | inr off ↦ cc (rw off at e)
  | inl on ↦ (on, ap (λ u. u.id) (sym (ok_eq (rw on at e))))
]

pub abort-IsMethod : IsMethod abort
unfolding abort
abort-IsMethod t t' e = elim (Bool-cases (is_active t.state)) [
  | inr off ↦ cc (rw off at e)
  | inl on ↦ (on, ap (λ u. u.id) (sym (ok_eq (rw on at e))))
]
