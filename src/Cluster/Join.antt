-- ===== src/Cluster/Join.antt =====
-- internal/cluster/join.go: the members of the cluster. `SendJoinRequest` is an HTTP call and is not
-- modelled.
pub mod Once
use gothinkdb.Prelude.{
  ℕ, String, Bool, true, false, Option, none, some, List, [], ◌∷◌, map, get_elem?,
}
use gothinkdb.Prelude.Assoc.{lookup, insert, erase, values_where}
use gothinkdb.Prelude.Result.{Result, ok, err, panic, ◌>>=◌, or_panic, or_err}
use gothinkdb.Cluster.Types.{NodeInfo, NodeStatus, JoinRequest, JoinResponse}
use gothinkdb.Cluster.Token.{TokenManager, JoinToken, validate_token, mark_token_used}

pub record JoinManager : Type 0 where
  pub token_manager : TokenManager
  pub members : List (String × NodeInfo)

-- `NewJoinManager`
unfoldable pub new_join_manager : TokenManager → JoinManager
new_join_manager token_manager = record { token_manager = token_manager; members = [] }

-- The node that a request or a registration makes.
unfoldable pub new_node : String → String → ℕ → ℕ → ℕ → NodeStatus → ℕ → NodeInfo
new_node node_id address cluster_port http_port driver_port status now = record {
  node_id = node_id;
  address = address;
  cluster_port = cluster_port;
  http_port = http_port;
  driver_port = driver_port;
  status = status;
  is_leader = false;
  joined_at = now;
  last_seen = now;
  data_size_mb = 0;
  tables_count = 0;
}

unfoldable pub refusal : String → JoinResponse
refusal error = record {
  success = false;
  node_id = "";
  cluster_id = "";
  members = [];
  error = error;
}

-- `GetMembers`, in the order of the list.
unfoldable pub get_members : JoinManager → List NodeInfo
get_members jm = values_where (λ m. true) jm.members

-- A failure to mark the token is only logged.
abbrev pub marked_or_same : TokenManager → Result TokenManager → Result TokenManager
marked_or_same tm panic = panic
marked_or_same tm err = ok tm
marked_or_same tm (ok tm') = ok tm'

-- `HandleJoinRequest` for a token that is valid and leads to p.
unfoldable pub admit : ℕ → JoinRequest → ℕ → JoinManager → Result (JoinManager × JoinResponse)
admit p req now jm = elim (lookup req.node_id jm.members) [
  | some m ↦ ok (jm, refusal "node already exists in cluster")
  | none ↦ do
    t ← or_panic (get_elem? jm.token_manager.heap p)
    tokens ←
        marked_or_same jm.token_manager (mark_token_used req.token req.node_id now jm.token_manager)
    let members =
        insert req.node_id
          (new_node req.node_id req.address req.cluster_port req.http_port req.driver_port
            NodeStatus.active now)
          jm.members
    ok (
      record { token_manager = tokens; members = members },
      record {
        success = true;
        node_id = req.node_id;
        cluster_id = t.cluster_id;
        members = values_where (λ m. true) members;
        error = "";
      },
    )
]

abbrev pub admit_valid :
    Result ℕ → JoinRequest → ℕ → JoinManager → Result (JoinManager × JoinResponse)
admit_valid panic req now jm = panic
admit_valid err req now jm = ok (jm, refusal "invalid token")
admit_valid (ok p) req now jm = admit p req now jm

-- `HandleJoinRequest`. The error texts are shortened, and the response's LeaderID, which is never
-- set, is left out.
unfoldable pub handle_join_request :
    (String → String) → JoinRequest → ℕ → JoinManager → Result (JoinManager × JoinResponse)
handle_join_request sign req now jm =
    admit_valid (validate_token sign req.token now jm.token_manager) req now jm

-- `AddMember`; the arguments are given as a request, whose token is not looked at.
unfoldable pub add_member : JoinRequest → ℕ → JoinManager → Result JoinManager
add_member req now jm = elim (lookup req.node_id jm.members) [
  | some m ↦ err
  | none ↦ ok (record jm {
    members =
        insert req.node_id
          (new_node req.node_id req.address req.cluster_port req.http_port req.driver_port
            NodeStatus.joining now)
          jm.members;
  })
]

-- `RemoveMember`
unfoldable pub remove_member : String → JoinManager → Result JoinManager
remove_member node_id jm = do
  m ← or_err (lookup node_id jm.members)
  ok (record jm { members = erase node_id jm.members })

-- `GetMember`
unfoldable pub get_member : String → JoinManager → Option NodeInfo
get_member node_id jm = lookup node_id jm.members

-- `UpdateMemberStatus`
unfoldable pub update_member_status : String → NodeStatus → ℕ → JoinManager → Result JoinManager
update_member_status node_id status now jm = do
  m ← or_err (lookup node_id jm.members)
  ok (record jm {
    members = insert node_id (record m { status = status; last_seen = now }) jm.members;
  })
