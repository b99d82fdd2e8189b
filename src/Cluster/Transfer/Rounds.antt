-- ===== src/Cluster/Transfer/Rounds.antt =====
-- internal/cluster/transfer.go: what the goroutine of a transfer leaves, and cancellation.
use gothinkdb.Prelude.{
  ℕ, zero, suc, ◌-◌, ◌*◌, ◌/◌, ◌≡◌, refl, String, false, some, get_elem?, set, get_elem?-set_same,
}
use gothinkdb.Prelude.Assoc.{lookup}
use gothinkdb.Prelude.Result.{ok}
use gothinkdb.Cluster.Types.{TransferTask, TransferStatus}
use gothinkdb.Cluster.Transfer.{
  TransferManager, with_task, transfer_round, complete_transfer, execute_rounds, cancel_transfer,
  is_completed,
}

with_task-written :
    (p : ℕ) (change : TransferTask → TransferTask) (t : TransferTask) (tm : TransferManager)
    → get_elem? tm.heap p ≡ some t
    → (tm' : TransferManager) × (with_task p change tm ≡ ok tm')
      × (get_elem? tm'.heap p ≡ some (change t))
      × (tm'.transfers ≡ tm.transfers)
unfolding with_task
with_task-written p change t tm found = (
  record tm { heap = set tm.heap p (change t) },
  rw found refl,
  get_elem?-set_same tm.heap p t (change t) found,
  refl,
)

-- The task that the goroutine leaves after its last round.
abbrev pub completed_task : ℕ → TransferTask → TransferTask
completed_task now t = record t {
  status = TransferStatus.completed;
  progress = 100;
  completed_at = some now;
}

-- A transfer that has a round or more to go ends completed at 100, whatever the task's state is,
-- and its other fields stay.
pub execute_rounds-completed :
    (left p now : ℕ) (t : TransferTask) (tm : TransferManager)
    → get_elem? tm.heap p ≡ some t
    → (tm' : TransferManager) × (execute_rounds (suc left) p now tm ≡ ok tm')
      × (get_elem? tm'.heap p ≡ some (completed_task now t))
unfolding execute_rounds transfer_round complete_transfer
execute_rounds-completed zero p now t tm found =
    let (tm1, round_runs, at1, _) =
      with_task-written p (λ u. record u { progress = 100 }) t tm found in
    let (tm2, end_runs, at2, _) =
      with_task-written p
        (λ u. record u { status = TransferStatus.completed; completed_at = some now })
        (record t { progress = 100 }) tm1 at1 in
    (tm2, rw (round_runs, end_runs) refl, at2)
execute_rounds-completed (suc left) p now t tm found =
    let step = (10 - suc left) * 100 / 10 in
    let (tm1, round_runs, at1, _) =
      with_task-written p (λ u. record u { progress = step }) t tm found in
    let (tm2, rest_runs, at2) =
      execute_rounds-completed left p now (record t { progress = step }) tm1 at1 in
    (tm2, rw (round_runs, rest_runs) refl, at2)

abbrev cancelled_task : ℕ → TransferTask → TransferTask
cancelled_task now t = record t {
  status = TransferStatus.failed;
  error = "cancelled";
  completed_at = some now;
}

-- A transfer that is cancelled before its last round is completed all the same: the cancellation
-- succeeds, the remaining rounds run, and the task ends completed with the error "cancelled".
pub cancelled_transfer_completes :
    (id : String) (left p now later : ℕ) (t : TransferTask) (tm : TransferManager)
    → lookup id tm.transfers ≡ some p
    → get_elem? tm.heap p ≡ some t
    → is_completed t.status ≡ false
    → (mid : TransferManager) × (tm' : TransferManager) × (cancel_transfer id now tm ≡ ok mid)
      × (execute_rounds (suc left) p later mid ≡ ok tm')
      × (get_elem? tm'.heap p ≡ some (record (completed_task later t) { error = "cancelled" }))
unfolding cancel_transfer
cancelled_transfer_completes id left p now later t tm h found open_yet =
    let (mid, cancel_runs, at1, _) = with_task-written p (cancelled_task now) t tm found in
    let (tm', rounds_run, at2) =
      execute_rounds-completed left p later (cancelled_task now t) mid at1 in
    (mid, tm', rw (h, found, open_yet, cancel_runs) refl, rounds_run, at2)
