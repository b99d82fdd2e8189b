-- ===== src/Cluster/Types.antt =====
-- internal/cluster/types.go. Times are numbers of nanoseconds.
use gothinkdb.Prelude.{ℕ, String, Bool, Option, List}

pub data NodeStatus : Type 0 where
  active draining offline joining leaving : NodeStatus

pub record NodeInfo : Type 0 where
  pub node_id : String
  pub address : String
  pub cluster_port : ℕ
  pub http_port : ℕ
  pub driver_port : ℕ
  pub status : NodeStatus
  pub is_leader : Bool
  pub joined_at : ℕ
  pub last_seen : ℕ
  pub data_size_mb : ℕ
  pub tables_count : ℕ

pub data TransferStatus : Type 0 where
  pending in_progress completed failed : TransferStatus

pub record TransferTask : Type 0 where
  pub id : String
  pub source_node_id : String
  pub target_node_id : String
  pub database : String
  pub table : String
  pub status : TransferStatus
  pub progress : ℕ
  pub started_at : ℕ
  pub completed_at : Option ℕ
  pub error : String

-- The transfers are pointers into the heap of the transfer manager.
pub record RemoveOperation : Type 0 where
  pub node_id : String
  pub status : String
  pub transfers : List ℕ
  pub started_at : ℕ
  pub completed_at : Option ℕ
  pub error : String

pub record JoinRequest : Type 0 where
  pub token : String
  pub node_id : String
  pub address : String
  pub cluster_port : ℕ
  pub http_port : ℕ
  pub driver_port : ℕ

pub record JoinResponse : Type 0 where
  pub success : Bool
  pub node_id : String
  pub cluster_id : String
  pub members : List NodeInfo
  pub error : String
