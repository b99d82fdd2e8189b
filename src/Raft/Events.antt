-- ===== src/Raft/Events.antt =====
-- internal/raft: a node under any sequence of events. An event is a locked region of the source.
pub mod Terms
pub mod OneVote
pub mod DoubleVote
pub mod Ready
use gothinkdb.Prelude.{ℕ, ◌≡◌, ◌≢◌, String, Bool, Option, none, some, List, ◌>>=◌}
use gothinkdb.Raft.Types.{
  State, Raft, LogEntry, RequestVoteArgs, AppendEntriesArgs, AppendEntriesReply,
}
use gothinkdb.Raft.Vote.{request_vote, tick, receive_vote}
use gothinkdb.Raft.Append.{append_entries}
use gothinkdb.Raft.Leader.{append_reply, propose}

pub data Event (C : Type 0) : Type 0 where
  -- The ticker fires.
  ticked : ℕ → ℕ → Event C
  -- A RequestVote call comes in.
  vote_asked : ℕ → RequestVoteArgs → Event C
  -- An AppendEntries call comes in.
  entries_came : ℕ → AppendEntriesArgs C → Event C
  -- A reply of an election that has so many votes comes in.
  vote_came : Bool → ℕ → Event C
  -- A reply to AppendEntries comes in.
  answer_came : String → List (LogEntry C) → AppendEntriesReply → Event C
  -- A client proposes a command.
  proposed : ℕ → C → Event C

module _ {C : Type 0} where
  abbrev first_of_pair : Option (Raft C × AppendEntriesReply) → Option (Raft C)
  first_of_pair none = none
  first_of_pair (some (r, reply)) = some r

  abbrev or_same : Raft C → Option (Raft C) → Raft C
  or_same r none = r
  or_same r (some r') = r'

  -- `none` is a panic. A refused proposal changes nothing.
  unfoldable pub step : Event C → Raft C → Option (Raft C)
  step (ticked now jitter) r = some (tick now jitter r)
  step (vote_asked now args) r = some (request_vote now args r).0
  step (entries_came now args) r = first_of_pair (append_entries now args r)
  step (vote_came granted votes) r = some (receive_vote granted (votes, r)).1
  step (answer_came peer entries reply) r = some (append_reply peer entries reply r)
  step (proposed now command) r = some (or_same r (propose now command r))
