-- ===== src/Cluster/Tests.antt =====
-- internal/cluster at concrete inputs.
use gothinkdb.Prelude.{
  ℕ, String, ◌≡◌, refl, false, some, none, [], ◌∷◌, get_elem?, length, if◌then◌else◌, ltb,
}
use gothinkdb.Prelude.Assoc.{lookup}
use gothinkdb.Prelude.Result.{err, ok}
use gothinkdb.Cluster.Types.{
  NodeInfo, NodeStatus, JoinRequest, TransferTask, TransferStatus, RemoveOperation,
}
use gothinkdb.Cluster.Token.{
  TokenManager, new_token_manager, token_text, generate_token, validate_token, is_signed,
  split_token, expiry,
}
use gothinkdb.Cluster.Token.Valid.{has_dot, validate_token-generate_token}
use gothinkdb.Cluster.Join.{JoinManager, get_member}
use gothinkdb.Cluster.Join.Once.{Joined, handle_join_request-Joined}
use gothinkdb.Cluster.Transfer.{TransferManager}
use gothinkdb.Cluster.Transfer.Rounds.{execute_rounds-completed, completed_task}
use gothinkdb.Cluster.Removal.{RemoveManager}
use gothinkdb.Cluster.Removal.Drain.{execute_removal-Removed, Removed}

abbrev sign : String → String
sign payload = "ab"

abbrev decimal : ℕ → String
decimal n = "9"

sign_plain : (payload : String) → has_dot (sign payload) ≡ false
unfolding has_dot
sign_plain payload = refl

validate_token-generate_token_example :
    validate_token sign
      (token_text sign decimal "id" 10 (new_token_manager "c"))
      1_000
      (generate_token sign decimal "id" "admin" 0 10 (new_token_manager "c"))
    ≡ (if ltb (expiry 10 0) 1_000 then err else ok (length (new_token_manager "c").heap))
validate_token-generate_token_example =
    (validate_token-generate_token sign decimal "id" "admin" "n" 0 10 20 1_000
      (new_token_manager "c") sign_plain refl).2

abbrev tokens : TokenManager
tokens = record {
  heap =
      record {
        id = "id";
        token = "x.y.ab";
        cluster_id = "c";
        created_at = 1;
        expires_at = 100;
        used_by = "";
        used_at = none;
        created_by = "admin";
      }
      ∷ [];
  tokens = ("x.y.ab", 0) ∷ [];
  tokens_by_id = ("id", 0) ∷ [];
  cluster_id = "c";
}

abbrev empty_cluster : JoinManager
empty_cluster = record { token_manager = tokens; members = [] }

abbrev request : String → JoinRequest
request node_id = record {
  token = "x.y.ab";
  node_id = node_id;
  address = "h";
  cluster_port = 1;
  http_port = 2;
  driver_port = 3;
}

tokens_valid : validate_token sign "x.y.ab" 50 tokens ≡ ok 0
unfolding validate_token is_signed split_token lookup
tokens_valid = refl

nobody : (node_id : String) → lookup node_id empty_cluster.members ≡ none
unfolding lookup
nobody node_id = refl

handle_join_request-Joined_example :
    Joined sign
      (request "n1")
      50
      empty_cluster
      (handle_join_request-Joined sign
        (request "n1")
        50
        0
        empty_cluster
        tokens_valid
        (nobody "n1")
        refl).0
handle_join_request-Joined_example =
    (handle_join_request-Joined sign (request "n1") 50 0 empty_cluster tokens_valid (nobody "n1")
      refl).3

abbrev task : TransferTask
task = record {
  id = "t1";
  source_node_id = "n1";
  target_node_id = "n2";
  database = "d";
  table = "t";
  status = TransferStatus.in_progress;
  progress = 30;
  started_at = 1;
  completed_at = none;
  error = "";
}

abbrev transfers : TransferManager
transfers = record { heap = task ∷ []; transfers = ("t1", 0) ∷ [] }

transfers_found : lookup "t1" transfers.transfers ≡ some 0
unfolding lookup
transfers_found = refl

execute_rounds-completed_example :
    get_elem? (execute_rounds-completed 6 0 20 task transfers refl).0.heap 0
    ≡ some (completed_task 20 task)
execute_rounds-completed_example = (execute_rounds-completed 6 0 20 task transfers refl).2

abbrev node : NodeInfo
node = record {
  node_id = "n1";
  address = "h";
  cluster_port = 1;
  http_port = 2;
  driver_port = 3;
  status = NodeStatus.draining;
  is_leader = false;
  joined_at = 1;
  last_seen = 1;
  data_size_mb = 0;
  tables_count = 0;
}

abbrev operation : RemoveOperation
operation = record {
  node_id = "n1";
  status = "transferring";
  transfers = [];
  started_at = 5;
  completed_at = none;
  error = "";
}

abbrev removing : RemoveManager
removing = record {
  join_manager = record { token_manager = tokens; members = ("n1", node) ∷ [] };
  transfer_manager = transfers;
  operations = ("n1", operation) ∷ [];
}

node_there : get_member "n1" removing.join_manager ≡ some node
unfolding get_member lookup
node_there = refl

operation_there : lookup "n1" removing.operations ≡ some operation
unfolding lookup
operation_there = refl

execute_removal-Removed_example :
    Removed "n1" 9
      (record operation { transfers = [] })
      removing
      (execute_removal-Removed "n1" 9 [] node operation removing node_there operation_there).0
execute_removal-Removed_example =
    (execute_removal-Removed "n1" 9 [] node operation removing node_there operation_there).2
