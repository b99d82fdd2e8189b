-- ===== src/Cluster/Removal/Drain.antt =====
-- internal/cluster/remove.go: the end of a removal, after a wait that succeeded or timed out.
use gothinkdb.Prelude.{
  subst, ℕ, ◌≡◌, refl, sym, ap, ◌∙◌, String, some, none, List, [], ◌∷◌, str_eq, if◌then◌else◌,
}
use text.Mathlib.TextPositions.{eq_refl}
use gothinkdb.Prelude.Assoc.{lookup, insert, erase, lookup-insert, lookup-erase}
use gothinkdb.Prelude.Result.{ok}
use gothinkdb.Cluster.Types.{NodeInfo, RemoveOperation}
use gothinkdb.Cluster.Join.{JoinManager, get_member, remove_member}
use gothinkdb.Cluster.Removal.{
  execute_removal, transfer_out, identify_transfers, start_transfers, RemoveManager, Wake,
  with_operation, update_operation_status, fail_operation, finish_removal, drop_member, timed_out,
  wait_loop, wait_for_transfers, finish_waited,
}

-- The operation after a write to its fields, and what stays.
record Changed (node_id : String) (op : RemoveOperation) (rm rm' : RemoveManager) : Type 0 where
  pub stored : lookup node_id rm'.operations ≡ some op
  pub join_manager : rm'.join_manager ≡ rm.join_manager

opened_lem :
    (node_id : String) (change : RemoveOperation → RemoveOperation) (op : RemoveOperation)
    (rm : RemoveManager)
    → lookup node_id rm.operations ≡ some op
    → with_operation node_id change rm
      ≡ record rm { operations = insert node_id (change op) rm.operations }
unfolding with_operation
opened_lem node_id change op rm h = rw (with_operation, h) refl

with_operation-Changed :
    (node_id : String) (change : RemoveOperation → RemoveOperation) (op : RemoveOperation)
    (rm : RemoveManager)
    → lookup node_id rm.operations ≡ some op
    → Changed node_id (change op) rm (with_operation node_id change rm)
with_operation-Changed node_id change op rm h =
    let opened : with_operation node_id change rm
        ≡ record rm { operations = insert node_id (change op) rm.operations } =
      opened_lem node_id change op rm h in
    record {
      stored =
          ap (λ r. lookup node_id r.operations) opened
          ∙ rw (lookup-insert node_id node_id (change op) rm.operations, eq_refl node_id) refl;
      join_manager = ap (λ r. r.join_manager) opened;
    }

-- The node is no member any more, the other members are as before, and the operation is completed.
pub record Removed (node_id : String) (now : ℕ) (op : RemoveOperation) (rm rm' : RemoveManager)
    : Type 0 where
  pub members :
      (other : String)
      → lookup other rm'.join_manager.members
        ≡ (if str_eq node_id other then none else lookup other rm.join_manager.members)
  pub operation :
      lookup node_id rm'.operations
      ≡ some (record op { status = "completed"; completed_at = some now })

remove_member-ok :
    (node_id : String) (member : NodeInfo) (jm : JoinManager)
    → get_member node_id jm ≡ some member
    → remove_member node_id jm ≡ ok (record jm { members = erase node_id jm.members })
unfolding remove_member get_member
remove_member-ok node_id member jm present = rw present refl

drop_member-Removed :
    (node_id status : String) (now : ℕ) (member : NodeInfo) (op : RemoveOperation)
    (rm mid : RemoveManager)
    → get_member node_id rm.join_manager ≡ some member
    → Changed node_id (record op { status = status }) rm mid
    → Removed node_id now op rm
        (drop_member node_id now (remove_member node_id mid.join_manager) mid)
unfolding drop_member
drop_member-Removed node_id status now member op rm mid present changed =
    let jm : JoinManager = record rm.join_manager {
      members = erase node_id rm.join_manager.members;
    } in
    let done =
      with_operation-Changed node_id
        (λ o. record o { status = "completed"; completed_at = some now })
        (record op { status = status }) (record mid { join_manager = jm }) changed.stored in
    subst (λ r. Removed node_id now op rm (drop_member node_id now r mid))
      (sym (
        ap (remove_member node_id) changed.join_manager
        ∙ remove_member-ok node_id member rm.join_manager present))
      (record {
        members = λ other.
            ap (λ j. lookup other j.members) done.join_manager
            ∙ lookup-erase node_id other rm.join_manager.members;
        operation = done.stored;
      })

-- The end of a removal whose node is a member, and whose operation is stored, removes this member and no other, and marks the
-- operation as completed, keeping its error.
pub finish_removal-Removed :
    (node_id : String) (now : ℕ) (member : NodeInfo) (op : RemoveOperation) (rm : RemoveManager)
    → get_member node_id rm.join_manager ≡ some member
    → lookup node_id rm.operations ≡ some op
    → Removed node_id now op rm (finish_removal node_id now rm)
unfolding finish_removal update_operation_status
finish_removal-Removed node_id now member op rm present known =
    let shutting =
      with_operation-Changed node_id (λ o. record o { status = "shutting_down" }) op rm known in
    let mid = with_operation node_id (λ o. record o { status = "shutting_down" }) rm in
    let removing =
      with_operation-Changed node_id (λ o. record o { status = "removing" })
        (record op { status = "shutting_down" }) mid shutting.stored in
    drop_member-Removed node_id "removing" now member op rm
      (with_operation node_id (λ o. record o { status = "removing" }) mid) present
      (record {
        stored = removing.stored;
        join_manager = removing.join_manager ∙ shutting.join_manager;
      })

-- A removal of a member, with a stored operation, whose wait for its transfers ends by the timeout
-- before any tick, goes on: the node is removed all the same,
-- and the operation, which was marked as failed, ends as completed with the error "transfer timeout".
pub timed_out_removal_completes :
    (node_id : String) (p now later : ℕ) (ps : List ℕ) (wakes : List Wake) (member : NodeInfo)
    (op : RemoveOperation) (rm : RemoveManager)
    → get_member node_id rm.join_manager ≡ some member
    → lookup node_id rm.operations ≡ some op
    → (rm' : RemoveManager) × (finish_waited node_id later
          (wait_for_transfers node_id (p ∷ ps) (timed_out now ∷ wakes) rm)
        ≡ some rm')
      × Removed node_id later (record op { error = "transfer timeout" }) rm rm'
unfolding wait_for_transfers wait_loop fail_operation
timed_out_removal_completes node_id p now later ps wakes member op rm present known =
    let change = λ (o : RemoveOperation). record o {
      status = "failed";
      error = "transfer timeout";
      completed_at = some now;
    } in
    let failed = with_operation-Changed node_id change op rm known in
    let mid = with_operation node_id change rm in
    let end =
      finish_removal-Removed node_id later member (change op) mid
        (ap (get_member node_id) failed.join_manager ∙ present) failed.stored in
    (
      finish_removal node_id later mid,
      refl,
      record {
        members = λ other.
            end.members other
            ∙ ap (λ j. if str_eq node_id other then none else lookup other j.members)
                failed.join_manager;
        operation = end.operation;
      },
    )

same_transfers : (rm : RemoveManager) → record rm { transfer_manager = rm.transfer_manager } ≡ rm
same_transfers rm = refl

abbrev sending : RemoveOperation → RemoveOperation
sending op = record op { transfers = []; status = "transferring" }

transfer_out-none :
    (node_id : String) (now : ℕ) (rm : RemoveManager)
    → transfer_out node_id [] now rm ≡ ok (with_operation node_id sending rm)
unfolding transfer_out start_transfers
transfer_out-none node_id now rm = ap ok (same_transfers (with_operation node_id sending rm))

execute_removal-finish :
    (node_id : String) (now : ℕ) (wakes : List Wake) (member : NodeInfo) (rm : RemoveManager)
    → get_member node_id (update_operation_status node_id "identifying_data" rm).join_manager
      ≡ some member
    → execute_removal node_id wakes now rm
      ≡ ok (
          some (
            finish_removal node_id now (
              with_operation node_id sending
                (update_operation_status node_id "identifying_data" rm))))
unfolding execute_removal identify_transfers wait_for_transfers
execute_removal-finish node_id now wakes member rm present =
    rw (execute_removal, present, transfer_out-none) refl

-- A removal of a member, with a stored operation, that no other call interrupts, runs to its end
-- without waiting: the node is no member any
-- more, the other members are as before, and the operation ends as completed, with no transfers.
pub execute_removal-Removed :
    (node_id : String) (now : ℕ) (wakes : List Wake) (member : NodeInfo) (op : RemoveOperation)
    (rm : RemoveManager)
    → get_member node_id rm.join_manager ≡ some member
    → lookup node_id rm.operations ≡ some op
    → (rm' : RemoveManager) × (execute_removal node_id wakes now rm ≡ ok (some rm'))
      × Removed node_id now (record op { transfers = [] }) rm rm'
unfolding update_operation_status
execute_removal-Removed node_id now wakes member op rm present known =
    let identified =
      with_operation-Changed node_id (λ o. record o { status = "identifying_data" }) op rm known in
    let mid = with_operation node_id (λ o. record o { status = "identifying_data" }) rm in
    let sent =
      with_operation-Changed node_id sending (record op { status = "identifying_data" }) mid
        identified.stored in
    let out = with_operation node_id sending mid in
    let present_mid = ap (get_member node_id) identified.join_manager ∙ present in
    let same = sent.join_manager ∙ identified.join_manager in
    let end =
      finish_removal-Removed node_id now member
        (record op { transfers = []; status = "transferring" }) out
        (ap (get_member node_id) same ∙ present) sent.stored in
    (
      finish_removal node_id now out,
      execute_removal-finish node_id now wakes member rm present_mid,
      record {
        members = λ other.
            end.members other
            ∙ ap (λ j. if str_eq node_id other then none else lookup other j.members) same;
        operation = end.operation;
      },
    )
