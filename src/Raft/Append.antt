-- ===== src/Raft/Append.antt =====
-- internal/raft/raft.go: the `AppendEntries` handler. `none` is a panic of the Go program.
pub mod Overlay
pub mod Total
pub mod Accept
pub mod Redeliver
use gothinkdb.Prelude.{
  ℕ, zero, suc, ◌+◌, ◌-◌, Bool, true, false, ◌||◌, Option, none, some, List, [], ◌∷◌, ◌++◌, ltb,
  leb, ◌==◌, length, take, if◌then◌else◌, ◌>>=◌,
}
use gothinkdb.Raft.Types.{
  Raft, LogEntry, AppendEntriesArgs, AppendEntriesReply, last_log_index, entry_at, is_candidate,
}
use gothinkdb.Raft.Vote.{step_down}

module _ {C : Type 0} where
  -- One round of the loop that appends the new entries.
  unfoldable pub append_entry : List (LogEntry C) → LogEntry C → Option (List (LogEntry C))
  append_entry log entry =
      if leb entry.index (length log)
      then (do
        old ← entry_at log entry.index
        some (if old.term == entry.term then log else take (entry.index - 1) log ++ entry ∷ []))
      else some (log ++ entry ∷ [])

  unfoldable pub append_all : List (LogEntry C) → List (LogEntry C) → Option (List (LogEntry C))
  append_all log [] = some log
  append_all log (entry ∷ entries) = do log' ← append_entry log entry; append_all log' entries

  -- `min(LeaderCommit, lastLogIndex)`, if the leader is ahead.
  unfoldable pub update_commit : ℕ → Raft C → Raft C
  update_commit leader_commit r =
      if ltb r.commit_index leader_commit
      then record r {
        commit_index =
            if ltb leader_commit (last_log_index r.log)
            then leader_commit
            else last_log_index r.log;
      }
      else r

  -- The log passed the check: append, and update the commit index.
  unfoldable pub accept_entries :
      ℕ → AppendEntriesArgs C → Raft C → Option (Raft C × AppendEntriesReply)
  unfolding append_all append_entry update_commit
  accept_entries term args r = do
    log ← append_all r.log args.entries
    some (
      update_commit args.leader_commit (record r { log = log }),
      record { term = term; success = true },
    )

  -- The log consistency check.
  unfoldable pub check_log : ℕ → AppendEntriesArgs C → Raft C → Option (Raft C × AppendEntriesReply)
  unfolding accept_entries
  check_log term args r =
      if ltb 0 args.prev_log_index
      then (if ltb (length r.log) args.prev_log_index
          then some (r, record { term = term; success = false })
          else do
            prev ← entry_at r.log args.prev_log_index
            if prev.term == args.prev_log_term
                then accept_entries term args r
                else some (
                  record r { log = take (args.prev_log_index - 1) r.log },
                  record { term = term; success = false },
                ))
      else accept_entries term args r

  -- A message of a later term, or any message to a candidate, makes the node a follower. The time
  -- of the message is the last heartbeat.
  unfoldable pub heard : ℕ → AppendEntriesArgs C → Raft C → Raft C
  unfolding step_down
  heard now args r =
      record (if ltb r.current_term args.term || is_candidate r.state
        then step_down args.term r
        else r) { last_heartbeat = now }

  -- `AppendEntries`
  unfoldable pub append_entries :
      ℕ → AppendEntriesArgs C → Raft C → Option (Raft C × AppendEntriesReply)
  unfolding check_log heard
  append_entries now args r =
      if ltb args.term r.current_term
      then some (r, record { term = r.current_term; success = false })
      else check_log r.current_term args (heard now args r)
