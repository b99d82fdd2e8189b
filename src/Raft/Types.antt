-- ===== src/Raft/Types.antt =====
-- internal/raft/types.go and the `Raft` struct of internal/raft/raft.go.
-- Terms and indexes are `int64` in the source. No code path makes them negative, and they are
-- numbers here; a log index 0 in a message is kept, since the source indexes the log by it.
-- Times are numbers of nanoseconds. A command is a value of any type.
use gothinkdb.Prelude.{
  ℕ, zero, suc, String, ◌<◌, Bool, true, false, ◌≡◌, Option, none, some, List, [], ◌∷◌, get_elem?,
  get_last?,
}
use gothinkdb.Prelude.Assoc.{insert}

pub data State : Type 0 where
  follower candidate leader : State

abbrev pub is_candidate : State → Bool
is_candidate State.candidate = true
is_candidate _ = false

abbrev pub is_leader : State → Bool
is_leader State.leader = true
is_leader _ = false

pub record LogEntry (C : Type 0) : Type 0 where
  pub term : ℕ
  pub index : ℕ
  pub command : C
  pub timestamp : ℕ

pub record RequestVoteArgs : Type 0 where
  pub term : ℕ
  pub candidate_id : String
  pub last_log_index : ℕ
  pub last_log_term : ℕ

pub record RequestVoteReply : Type 0 where
  pub term : ℕ
  pub vote_granted : Bool

pub record AppendEntriesArgs (C : Type 0) : Type 0 where
  pub term : ℕ
  pub leader_id : String
  pub prev_log_index : ℕ
  pub prev_log_term : ℕ
  pub entries : List (LogEntry C)
  pub leader_commit : ℕ

pub record AppendEntriesReply : Type 0 where
  pub term : ℕ
  pub success : Bool

pub record Config : Type 0 where
  pub node_id : String
  pub peers : List String
  pub election_timeout : ℕ
  pub heartbeat_interval : ℕ

-- The mutex, the quit channel and the wait group have no counterpart: each locked region is one
-- step of the model. The transport is what sends and receives the messages.
pub record Raft (C : Type 0) : Type 0 where
  pub config : Config
  pub current_term : ℕ
  pub voted_for : String
  pub log : List (LogEntry C)
  pub state : State
  pub commit_index : ℕ
  pub last_applied : ℕ
  pub next_index : List (String × ℕ)
  pub match_index : List (String × ℕ)
  pub election_timeout : ℕ
  pub last_heartbeat : ℕ

-- `DefaultConfig`: 150 ms and 50 ms.
unfoldable pub default_config : String → List String → Config
default_config node_id peers = record {
  node_id = node_id;
  peers = peers;
  election_timeout = 150_000_000;
  heartbeat_interval = 50_000_000;
}

-- `for _, peer := range config.Peers { m[peer] = v }`
unfoldable pub set_all : List String → ℕ → List (String × ℕ) → List (String × ℕ)
unfolding insert
set_all [] v m = m
set_all (peer ∷ peers) v m = set_all peers v (insert peer v m)

-- `New`
unfoldable pub new : {C : Type 0} → Config → ℕ → Raft C
unfolding set_all
new config now = record {
  config = config;
  current_term = 0;
  voted_for = "";
  log = [];
  state = State.follower;
  commit_index = 0;
  last_applied = 0;
  next_index = set_all config.peers 1 [];
  match_index = set_all config.peers 0 [];
  election_timeout = config.election_timeout;
  last_heartbeat = now;
}

module _ {C : Type 0} where
  -- `getLastLogIndex`
  abbrev pub last_log_index : List (LogEntry C) → ℕ
  last_log_index log = elim (get_last? log) [ none ↦ 0 | some e ↦ e.index ]

  -- `getLastLogTerm`
  abbrev pub last_log_term : List (LogEntry C) → ℕ
  last_log_term log = elim (get_last? log) [ none ↦ 0 | some e ↦ e.term ]

  -- `log[index-1]`; `none` is the panic of an index out of range.
  abbrev pub entry_at : List (LogEntry C) → ℕ → Option (LogEntry C)
  entry_at log zero = none
  entry_at log (suc i) = get_elem? log i

  -- The entry at position i of the list has index n + i + 1.
  abbrev pub IsIndexedFrom : ℕ → List (LogEntry C) → Type 0
  IsIndexedFrom n [] = Unit {0}
  IsIndexedFrom n (e ∷ es) = (e.index ≡ suc n) × IsIndexedFrom (suc n) es

  -- No entry has index 0.
  abbrev pub AllIndexed : List (LogEntry C) → Type 0
  AllIndexed [] = Unit {0}
  AllIndexed (e ∷ es) = (0 < e.index) × AllIndexed es
