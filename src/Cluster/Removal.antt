-- ===== src/Cluster/Removal.antt =====
-- internal/cluster/remove.go. The removal runs in a goroutine between whose locked regions other
-- calls may run: its regions are the functions below, and `execute_removal` is their composition.
pub mod Drain
pub mod Stuck
use gothinkdb.Prelude.{
  ℕ, zero, suc, ◌-◌, String, Bool, true, false, ◌&&◌, ◌||◌, Option, none, some, List, [], ◌∷◌,
  str_eq, get_elem?, if◌then◌else◌,
}
use gothinkdb.Prelude.Assoc.{lookup, insert, erase_where, values_where}
use gothinkdb.Prelude.Result.{Result, ok, err, panic, ◌>>=◌, or_err, or_panic}
use gothinkdb.Cluster.Types.{NodeInfo, NodeStatus, RemoveOperation, TransferStatus, TransferTask}
use gothinkdb.Cluster.Join.{JoinManager, get_member, update_member_status, remove_member}
use gothinkdb.Cluster.Transfer.{
  TransferManager, start_transfer, get_transfer, is_completed, is_failed, is_before, hour,
}

pub record RemoveManager : Type 0 where
  pub join_manager : JoinManager
  pub transfer_manager : TransferManager
  pub operations : List (String × RemoveOperation)

-- `NewRemoveManager`
unfoldable pub new_remove_manager : JoinManager → TransferManager → RemoveManager
new_remove_manager join_manager transfer_manager = record {
  join_manager = join_manager;
  transfer_manager = transfer_manager;
  operations = [];
}

unfoldable pub draining_operation : String → ℕ → RemoveOperation
draining_operation node_id now = record {
  node_id = node_id;
  status = "draining";
  transfers = [];
  started_at = now;
  completed_at = none;
  error = "";
}

-- The node exists and no operation of the node is stored.
abbrev pub may_start : Option NodeInfo → Option RemoveOperation → Bool
may_start none _ = false
may_start (some m) none = true
may_start (some m) (some op) = false

-- `StartRemoval`, without the goroutine that it starts, `execute_removal`.
unfoldable pub start_removal : String → ℕ → RemoveManager → Result RemoveManager
start_removal node_id now rm =
    if may_start (get_member node_id rm.join_manager) (lookup node_id rm.operations)
    then (do
      jm ← update_member_status node_id NodeStatus.draining now rm.join_manager
      ok (record rm {
        join_manager = jm;
        operations = insert node_id (draining_operation node_id now) rm.operations;
      }))
    else err

-- A write to the fields of the node's operation, if there is one.
unfoldable pub with_operation :
    String → (RemoveOperation → RemoveOperation) → RemoveManager → RemoveManager
with_operation node_id change rm = elim (lookup node_id rm.operations) [
  | none ↦ rm
  | some op ↦ record rm { operations = insert node_id (change op) rm.operations }
]

-- `updateOperationStatus`
unfoldable pub update_operation_status : String → String → RemoveManager → RemoveManager
update_operation_status node_id status rm =
    with_operation node_id (λ op. record op { status = status }) rm

-- `failOperation`
unfoldable pub fail_operation : String → String → ℕ → RemoveManager → RemoveManager
fail_operation node_id message now rm =
    with_operation node_id
      (λ op. record op { status = "failed"; error = message; completed_at = some now }) rm

-- `identifyTransfers`: nothing, in this version of the program.
unfoldable pub identify_transfers : String → NodeInfo → List ℕ
identify_transfers node_id member = []

-- Steps 2 and 3 of `executeRemoval`: the transfers are recorded, and started.
unfoldable pub start_transfers : List ℕ → ℕ → TransferManager → Result TransferManager
start_transfers [] now tm = ok tm
start_transfers (p ∷ ps) now tm = do tm' ← start_transfer p now tm; start_transfers ps now tm'

unfoldable pub transfer_out : String → List ℕ → ℕ → RemoveManager → Result RemoveManager
transfer_out node_id transfers now rm = do
  let noted =
      with_operation node_id (λ op. record op { transfers = transfers; status = "transferring" }) rm
  tm ← start_transfers transfers now noted.transfer_manager
  ok (record noted { transfer_manager = tm })

abbrev pub is_over : TransferStatus → Bool
is_over status = is_completed status || is_failed status

-- The task behind a transfer that the map still has is completed or failed.
abbrev pub is_done_at : TransferManager → ℕ → Bool
is_done_at tm p = elim (get_elem? tm.heap p) [
  | none ↦ false
  | some t ↦ elim (get_transfer t.id tm) [
    | none ↦ true
    | some q ↦ elim (get_elem? tm.heap q) [ none ↦ false | some u ↦ is_over u.status ]
  ]
]

-- The check at a tick of `waitForTransfers`.
unfoldable pub all_done : List ℕ → TransferManager → Bool
all_done [] tm = true
all_done (p ∷ ps) tm = is_done_at tm p && all_done ps tm

-- What `waitForTransfers` wakes up for: a tick, with the tasks as they are then, or the timeout.
pub data Wake : Type 0 where
  ticked : TransferManager → Wake
  timed_out : ℕ → Wake

-- `waitForTransfers` for some transfers. `none` is a wait that goes on after the given wakes.
unfoldable pub wait_loop : String → List ℕ → List Wake → RemoveManager → Option RemoveManager
wait_loop node_id transfers [] rm = none
wait_loop node_id transfers (timed_out now ∷ wakes) rm =
    some (fail_operation node_id "transfer timeout" now rm)
wait_loop node_id transfers (ticked tm ∷ wakes) rm =
    let later = wait_loop node_id transfers wakes rm in
    if all_done transfers tm then some (record rm { transfer_manager = tm }) else later

-- `waitForTransfers`
unfoldable pub wait_for_transfers :
    String → List ℕ → List Wake → RemoveManager → Option RemoveManager
wait_for_transfers node_id [] wakes rm = some rm
wait_for_transfers node_id (p ∷ ps) wakes rm = wait_loop node_id (p ∷ ps) wakes rm

-- Step 6 of `executeRemoval` and its end; the member's removal fails if it is gone.
unfoldable pub drop_member : String → ℕ → Result JoinManager → RemoveManager → RemoveManager
drop_member node_id now (ok jm) rm =
    with_operation node_id (λ op. record op { status = "completed"; completed_at = some now })
      (record rm { join_manager = jm })
drop_member node_id now err rm = fail_operation node_id "failed to remove node" now rm
drop_member node_id now panic rm = rm

-- Steps 5 to 7 of `executeRemoval`. The shutdown command of step 5 is a log line.
unfoldable pub finish_removal : String → ℕ → RemoveManager → RemoveManager
finish_removal node_id now rm =
    let shutting = update_operation_status node_id "shutting_down" rm in
    let removing = update_operation_status node_id "removing" shutting in
    drop_member node_id now (remove_member node_id removing.join_manager) removing

abbrev pub finish_waited : String → ℕ → Option RemoveManager → Option RemoveManager
finish_waited node_id now none = none
finish_waited node_id now (some rm) = some (finish_removal node_id now rm)

-- `executeRemoval`, with no other call in between. `none` is a removal that still waits.
unfoldable pub execute_removal :
    String → List Wake → ℕ → RemoveManager → Result (Option RemoveManager)
execute_removal node_id wakes now rm = do
  let identifying = update_operation_status node_id "identifying_data" rm
  elim (get_member node_id identifying.join_manager) [
    | none ↦ ok (some (fail_operation node_id "node not found" now identifying))
    | some member ↦ do
      sent ← transfer_out node_id (identify_transfers node_id member) now identifying
      ok (
          finish_waited node_id now
            (wait_for_transfers node_id (identify_transfers node_id member) wakes sent))
  ]

-- `GetRemovalStatus`
unfoldable pub get_removal_status : String → RemoveManager → Result RemoveOperation
get_removal_status node_id rm = or_err (lookup node_id rm.operations)

-- `ListRemovals`
unfoldable pub list_removals : RemoveManager → List RemoveOperation
list_removals rm = values_where (λ op. true) rm.operations

-- `CleanupCompletedRemovals`
unfoldable pub cleanup_completed_removals : ℕ → RemoveManager → RemoveManager
cleanup_completed_removals now rm = record rm {
  operations =
      erase_where (λ op. str_eq op.status "completed" && is_before op.completed_at (now - hour))
        rm.operations;
}
