-- ===== src/Raft/Compaction.antt =====
-- internal/raft/compaction.go. Whether the snapshot file is written and the write-ahead log is
-- truncated is an input: those are calls of the file system.
pub mod Gap
use gothinkdb.Prelude.{
  ℕ, ◌+◌, ◌-◌, ◌/◌, Bool, true, false, Option, none, some, List, ltb, leb, length, drop,
  if◌then◌else◌,
}
use gothinkdb.Raft.Types.{Raft, LogEntry, last_log_index, last_log_term}

-- `Snapshot` of snapshot.go; its data is the log, kept only where it is read back as a log.
pub record Snapshot (C : Type 0) : Type 0 where
  pub last_index : ℕ
  pub last_term : ℕ
  pub log_data : Option (List (LogEntry C))
  pub timestamp : ℕ

pub record CompactionManager : Type 0 where
  pub snapshot_threshold : ℕ
  pub last_snapshot_index : ℕ

unfoldable pub new_compaction_manager : CompactionManager
new_compaction_manager = record { snapshot_threshold = 1000; last_snapshot_index = 0 }

unfoldable pub set_snapshot_threshold : ℕ → CompactionManager → CompactionManager
set_snapshot_threshold threshold cm = record cm { snapshot_threshold = threshold }

-- What the calls of the file system did.
pub data Disk : Type 0 where
  create_failed truncate_failed written : Disk

module _ {C : Type 0} where
  unfoldable pub should_compact : CompactionManager → Raft C → Bool
  should_compact cm r = leb cm.snapshot_threshold (length r.log)

  -- The snapshot that `Compact` hands to the snapshot manager.
  unfoldable pub snapshot_of : ℕ → Raft C → Snapshot C
  snapshot_of now r = record {
    last_index = last_log_index r.log;
    last_term = last_log_term r.log;
    log_data = some r.log;
    timestamp = now;
  }

  -- The end of `Compact`: keep the newest half of a threshold of entries.
  unfoldable pub trim_log : ℕ → Raft C → Raft C
  trim_log threshold r =
      if ltb threshold (length r.log)
      then record r { log = drop (length r.log - threshold / 2) r.log }
      else r

  -- `Compact`; `false` is the error. The source reads the log under one lock and shortens it under a
  -- second one: this is the run in which nothing comes between the two.
  unfoldable pub compact : Disk → CompactionManager → Raft C → CompactionManager × Raft C × Bool
  unfolding trim_log
  compact create_failed cm r = (cm, r, false)
  compact truncate_failed cm r = (cm, r, false)
  compact written cm r = (
    record cm { last_snapshot_index = last_log_index r.log },
    trim_log cm.snapshot_threshold r,
    true,
  )

  abbrev pub data_or : List (LogEntry C) → Option (List (LogEntry C)) → List (LogEntry C)
  data_or log none = log
  data_or log (some kept) = kept

  -- `RestoreFromSnapshot`, for what `Load` returned without an error.
  unfoldable pub restore_from_snapshot :
      Option (Snapshot C) → CompactionManager → Raft C → CompactionManager × Raft C
  restore_from_snapshot none cm r = (cm, r)
  restore_from_snapshot (some s) cm r = (
    record cm { last_snapshot_index = s.last_index },
    record r {
      commit_index = s.last_index;
      last_applied = s.last_index;
      log = data_or r.log s.log_data;
    },
  )
