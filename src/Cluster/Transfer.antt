-- ===== src/Cluster/Transfer.antt =====
-- internal/cluster/transfer.go. A task is shared by the manager's map, by the goroutine that runs it
-- and by the removal that waits for it, so the tasks live in a heap.
pub mod Rounds
use gothinkdb.Prelude.{
  ℕ, zero, suc, ◌+◌, ◌-◌, ◌*◌, ◌/◌, String, Bool, true, false, not, ◌&&◌, ◌||◌, Option, none, some,
  List, [], ◌∷◌, ◌++◌, ltb, str_eq, length, get_elem?, set, if◌then◌else◌,
}
use gothinkdb.Prelude.Assoc.{lookup, insert, erase_where, values_where}
use gothinkdb.Prelude.Result.{Result, ok, err, panic, ◌>>=◌, ◌>>◌, or_panic, or_err, require}
use gothinkdb.Cluster.Types.{TransferTask, TransferStatus}

abbrev pub is_completed : TransferStatus → Bool
is_completed TransferStatus.completed = true
is_completed _ = false

abbrev pub is_failed : TransferStatus → Bool
is_failed TransferStatus.failed = true
is_failed _ = false

pub record TransferManager : Type 0 where
  pub heap : List TransferTask
  pub transfers : List (String × ℕ)

-- `NewTransferManager`
unfoldable pub new_transfer_manager : TransferManager
new_transfer_manager = record { heap = []; transfers = [] }

-- A write to the fields of the task that a pointer leads to.
unfoldable pub with_task :
    ℕ → (TransferTask → TransferTask) → TransferManager → Result TransferManager
with_task p change tm = do
  t ← or_panic (get_elem? tm.heap p)
  ok (record tm { heap = set tm.heap p (change t) })

-- `CreateTransfer`; the id comes from the uuid package. The new task is the last of the heap.
unfoldable pub create_transfer :
    String → String → String → String → String → TransferManager → TransferManager
create_transfer id source target database table tm = record tm {
  heap =
      tm.heap
      ++ record {
        id = id;
        source_node_id = source;
        target_node_id = target;
        database = database;
        table = table;
        status = TransferStatus.pending;
        progress = 0;
        started_at = 0;
        completed_at = none;
        error = "";
      }
        ∷ [];
}

-- `StartTransfer`, without the goroutine that it starts, `execute_transfer`.
unfoldable pub start_transfer : ℕ → ℕ → TransferManager → Result TransferManager
start_transfer p now tm = do
  t ← or_panic (get_elem? tm.heap p)
  ok (record tm {
    heap = set tm.heap p (record t { status = TransferStatus.in_progress; started_at = now });
    transfers = insert t.id p tm.transfers;
  })

-- One round of the loop of `executeTransfer`; `left` rounds come after it.
unfoldable pub transfer_round : ℕ → ℕ → TransferManager → Result TransferManager
transfer_round p left tm = with_task p (λ t. record t { progress = (10 - left) * 100 / 10 }) tm

-- The end of `executeTransfer`.
unfoldable pub complete_transfer : ℕ → ℕ → TransferManager → Result TransferManager
complete_transfer p now tm =
    with_task p (λ t. record t { status = TransferStatus.completed; completed_at = some now }) tm

-- The rounds that `executeTransfer` still has, and its end.
unfoldable pub execute_rounds : ℕ → ℕ → ℕ → TransferManager → Result TransferManager
execute_rounds zero p now tm = complete_transfer p now tm
execute_rounds (suc left) p now tm = do
  tm' ← transfer_round p left tm
  execute_rounds left p now tm'

-- `executeTransfer`: ten rounds.
unfoldable pub execute_transfer : ℕ → ℕ → TransferManager → Result TransferManager
execute_transfer p now tm = execute_rounds 10 p now tm

-- `GetTransfer`: the pointer, or nil.
unfoldable pub get_transfer : String → TransferManager → Option ℕ
get_transfer id tm = lookup id tm.transfers

-- `ListTransfers`, as pointers.
unfoldable pub list_transfers : TransferManager → List ℕ
list_transfers tm = values_where (λ p. true) tm.transfers

abbrev pub involves_at : List TransferTask → String → ℕ → Bool
involves_at heap node_id p = elim (get_elem? heap p) [
  | none ↦ false
  | some t ↦ str_eq t.source_node_id node_id || str_eq t.target_node_id node_id
]

-- `ListTransfersByNode`
unfoldable pub list_transfers_by_node : String → TransferManager → List ℕ
list_transfers_by_node node_id tm = values_where (involves_at tm.heap node_id) tm.transfers

-- `CancelTransfer`
unfoldable pub cancel_transfer : String → ℕ → TransferManager → Result TransferManager
cancel_transfer id now tm = do
  p ← or_err (lookup id tm.transfers)
  t ← or_panic (get_elem? tm.heap p)
  require (not (is_completed t.status))
  with_task p
      (λ u. record u {
        status = TransferStatus.failed;
        error = "cancelled";
        completed_at = some now;
      })
      tm

-- `GetTransferProgress`
unfoldable pub get_transfer_progress : String → TransferManager → Result ℕ
get_transfer_progress id tm = do
  p ← or_err (lookup id tm.transfers)
  t ← or_panic (get_elem? tm.heap p)
  ok t.progress

-- One hour.
abbrev pub hour : ℕ
hour = 3_600_000_000_000

abbrev pub is_before : Option ℕ → ℕ → Bool
is_before none cutoff = false
is_before (some at_time) cutoff = ltb at_time cutoff

abbrev pub is_stale_at : List TransferTask → ℕ → ℕ → Bool
is_stale_at heap cutoff p = elim (get_elem? heap p) [
  | none ↦ false
  | some t ↦ is_completed t.status && is_before t.completed_at cutoff
]

-- `CleanupCompletedTransfers`
unfoldable pub cleanup_completed_transfers : ℕ → TransferManager → TransferManager
cleanup_completed_transfers now tm = record tm {
  transfers = erase_where (is_stale_at tm.heap (now - hour)) tm.transfers;
}
