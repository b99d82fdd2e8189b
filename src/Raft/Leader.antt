-- ===== src/Raft/Leader.antt =====
-- internal/raft/raft.go: `Propose`, and what a leader sends and does with the answers;
-- internal/raft/consistency.go.
pub mod Replicate
pub mod Round
use gothinkdb.Prelude.{
  ℕ, zero, suc, ◌+◌, ◌-◌, String, Bool, true, false, ◌&&◌, Option, none, some, List, [], ◌∷◌, ◌++◌,
  ltb, leb, length, drop, get_last?, if◌then◌else◌, ◌>>=◌,
}
use gothinkdb.Prelude.Assoc.{lookup, insert}
use gothinkdb.Raft.Types.{
  State, Raft, LogEntry, AppendEntriesArgs, AppendEntriesReply, last_log_index, entry_at, is_leader,
}
use gothinkdb.Raft.Vote.{step_down}

-- A map of the source read at a key: 0 where the key is missing.
unfoldable pub index_of : String → List (String × ℕ) → ℕ
unfolding lookup
index_of peer m = elim (lookup peer m) [ none ↦ 0 | some n ↦ n ]

module _ {C : Type 0} where
  abbrev term_of : Option (LogEntry C) → ℕ
  term_of none = 0
  term_of (some e) = e.term

  -- The part of `sendAppendEntriesToPeer` under the read lock; `none` is the panic of `r.log[-1:]`
  -- for a peer that has no next index.
  unfoldable pub append_request : String → Raft C → Option (AppendEntriesArgs C)
  append_request peer r = elim (index_of peer r.next_index) [
    | zero ↦ none
    | suc prev ↦ some (record {
      term = r.current_term;
      leader_id = r.config.node_id;
      prev_log_index = prev;
      prev_log_term =
          if ltb 0 prev && leb prev (length r.log) then term_of (entry_at r.log prev) else 0;
      entries = if leb (suc prev) (length r.log) then drop prev r.log else [];
      leader_commit = r.commit_index;
    })
  ]

  -- A success moves the peer's two indexes to the last entry that was sent.
  unfoldable pub advance_peer : String → List (LogEntry C) → Raft C → Raft C
  advance_peer peer entries r = elim (get_last? entries) [
    | none ↦ r
    | some e ↦ record r {
      next_index = insert peer (e.index + 1) r.next_index;
      match_index = insert peer e.index r.match_index;
    }
  ]

  -- A refusal moves the next index back by one, and never below 1.
  unfoldable pub back_off : String → Raft C → Raft C
  back_off peer r =
      if ltb 1 (index_of peer r.next_index)
      then record r { next_index = insert peer (index_of peer r.next_index - 1) r.next_index }
      else r

  -- The part of `sendAppendEntriesToPeer` after the reply came; `entries` is what was sent.
  unfoldable pub append_reply : String → List (LogEntry C) → AppendEntriesReply → Raft C → Raft C
  unfolding advance_peer back_off step_down
  append_reply peer entries reply r =
      if ltb r.current_term reply.term
      then step_down reply.term r
      else if reply.success
      then advance_peer peer entries r
      else back_off peer r

  -- The entry that `Propose` makes of a command.
  unfoldable pub proposal : ℕ → C → Raft C → LogEntry C
  proposal now command r = record {
    term = r.current_term;
    index = last_log_index r.log + 1;
    command = command;
    timestamp = now;
  }

  -- `Propose`; `none` is the error "not leader". The heartbeats that follow are `append_request`.
  unfoldable pub propose : ℕ → C → Raft C → Option (Raft C)
  unfolding proposal
  propose now command r =
      if is_leader r.state
      then some (record r { log = r.log ++ proposal now command r ∷ [] })
      else none

  -- `QuorumWrite`: the leader's own acknowledgement is taken for the quorum's.
  unfoldable pub quorum_write : ℕ → C → Raft C → Option (Raft C)
  unfolding propose
  quorum_write now command r = if is_leader r.state then propose now command r else none
