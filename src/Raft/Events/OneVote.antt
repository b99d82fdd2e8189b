-- ===== src/Raft/Events/OneVote.antt =====
-- internal/raft/raft.go: the votes that a node gives in one term.
use gothinkdb.Prelude.{
  ℕ, ◌≤◌, ◌<◌, ◌≡◌, ◌≢◌, ◌⊎◌, inl, inr, String, Bool, true, some, List, arith, subst, Option-cases,
  some_eq, eq_iff,
}
use gothinkdb.Raft.Types.{
  State, Raft, LogEntry, RequestVoteArgs, AppendEntriesArgs, AppendEntriesReply,
}
use gothinkdb.Raft.Vote.{request_vote, tick, receive_vote}
use gothinkdb.Raft.Append.{append_entries, heard}
use gothinkdb.Raft.Leader.{append_reply, propose}
use gothinkdb.Raft.Events.{
  Event, ticked, vote_asked, entries_came, vote_came, answer_came, proposed, step, or_same,
}
use gothinkdb.Raft.Events.Terms.{check_log-fields}

module _ {C : Type 0} where
  -- The node's vote of term t is gone to c, or term t is over.
  abbrev pub HasVoted : ℕ → String → Raft C → Type 0
  HasVoted t c r = (t < r.current_term) ⊎ ((r.current_term ≡ t) × (r.voted_for ≡ c))

  -- The event is no AppendEntries of the node's own term at a candidate.
  abbrev pub KeepsVote : Raft C → Event C → Type 0
  KeepsVote r (entries_came now args) = args.term ≡ r.current_term → r.state ≢ State.candidate
  KeepsVote r _ = Unit {0}

  -- The node goes from r to s by events that keep the vote.
  pub data Run (r : Raft C) : Raft C → Type 0 where
    here : Run r r
    next :
        {s t : Raft C}
        → Run r s
        → (event : Event C) → KeepsVote s event
        → step event s ≡ some t
        → Run r t

  request_vote-HasVoted :
      (t : ℕ) (c : String) (now : ℕ) (args : RequestVoteArgs) (r : Raft C)
      → c ≢ ""
      → HasVoted t c r
      → HasVoted t c (request_vote now args r).0
  unfolding request_vote
  request_vote-HasVoted t c now args r h v =
      ground (arith, eq_iff r.voted_for "", eq_iff r.voted_for args.candidate_id)

  tick-HasVoted :
      (t : ℕ) (c : String) (now jitter : ℕ) (r : Raft C)
      → HasVoted t c r
      → HasVoted t c (tick now jitter r)
  unfolding tick
  tick-HasVoted t c now jitter r v = ground arith

  receive_vote-HasVoted :
      (t : ℕ) (c : String) (granted : Bool) (votes : ℕ) (r : Raft C)
      → HasVoted t c r
      → HasVoted t c (receive_vote granted (votes, r)).1
  unfolding receive_vote
  receive_vote-HasVoted t c granted votes r v = ground arith

  append_reply-HasVoted :
      (t : ℕ) (c peer : String) (entries : List (LogEntry C)) (reply : AppendEntriesReply)
      (r : Raft C)
      → HasVoted t c r
      → HasVoted t c (append_reply peer entries reply r)
  unfolding append_reply
  append_reply-HasVoted t c peer entries reply r v = ground arith

  propose-HasVoted :
      (t : ℕ) (c : String) (now : ℕ) (command : C) (r : Raft C)
      → HasVoted t c r
      → HasVoted t c (or_same r (propose now command r))
  unfolding propose
  propose-HasVoted t c now command r v = ground arith

  heard-HasVoted :
      (t : ℕ) (c : String) (now : ℕ) (args : AppendEntriesArgs C) (r : Raft C)
      → KeepsVote r (entries_came now args)
      → r.current_term ≤ args.term
      → HasVoted t c r
      → HasVoted t c (heard now args r)
  unfolding heard
  heard-HasVoted t c now args r k h v = ground arith

  append_entries-HasVoted :
      (t : ℕ) (c : String) (now : ℕ) (args : AppendEntriesArgs C) (r r' : Raft C)
      (reply : AppendEntriesReply)
      → KeepsVote r (entries_came now args)
      → append_entries now args r ≡ some (r', reply)
      → HasVoted t c r
      → HasVoted t c r'
  unfolding append_entries
  append_entries-HasVoted t c now args r r' reply k h v = ground (
    arith,
    heard-HasVoted t c now args r k,
    check_log-fields r.current_term args (heard now args r) r' reply,
  )

  step-HasVoted :
      (t : ℕ) (c : String) (event : Event C) (r r' : Raft C)
      → c ≢ ""
      → KeepsVote r event
      → step event r ≡ some r'
      → HasVoted t c r
      → HasVoted t c r'
  unfolding step
  step-HasVoted t c (ticked now jitter) r r' ne k h v =
      subst (HasVoted t c) (some_eq h) (tick-HasVoted t c now jitter r v)
  step-HasVoted t c (vote_asked now args) r r' ne k h v =
      subst (HasVoted t c) (some_eq h) (request_vote-HasVoted t c now args r ne v)
  step-HasVoted t c (entries_came now args) r r' ne k h v =
      elim (Option-cases (append_entries now args r)) [
        | inl p ↦ cc (rw p at h)
        | inr ((r'', reply), p) ↦
            subst (HasVoted t c) (some_eq (rw p at h))
              (append_entries-HasVoted t c now args r r'' reply k p v)
      ]
  step-HasVoted t c (vote_came granted votes) r r' ne k h v =
      subst (HasVoted t c) (some_eq h) (receive_vote-HasVoted t c granted votes r v)
  step-HasVoted t c (answer_came peer entries reply) r r' ne k h v =
      subst (HasVoted t c) (some_eq h) (append_reply-HasVoted t c peer entries reply r v)
  step-HasVoted t c (proposed now command) r r' ne k h v =
      subst (HasVoted t c) (some_eq h) (propose-HasVoted t c now command r v)

  Run-HasVoted :
      {r s : Raft C} (t : ℕ) (c : String) → c ≢ "" → Run r s → HasVoted t c r → HasVoted t c s
  Run-HasVoted t c ne here v = v
  Run-HasVoted t c ne (next {s} {t = u} run event k e) v =
      step-HasVoted t c event s u ne k e (Run-HasVoted t c ne run v)

  -- A granted vote is the node's vote of the request's term.
  granted-HasVoted :
      (now : ℕ) (args : RequestVoteArgs) (r : Raft C)
      → (request_vote now args r).1.vote_granted ≡ true
      → ((request_vote now args r).0.current_term ≡ args.term)
        × ((request_vote now args r).0.voted_for ≡ args.candidate_id)
  unfolding request_vote
  granted-HasVoted now args r h = ground arith

  -- A granted vote asks that the vote was free, or was the candidate's already.
  granted_only :
      (now : ℕ) (c : String) (args : RequestVoteArgs) (r : Raft C)
      → c ≢ ""
      → HasVoted args.term c r
      → (request_vote now args r).1.vote_granted ≡ true
      → args.candidate_id ≡ c
  unfolding request_vote
  granted_only now c args r ne v h =
      ground (arith, eq_iff r.voted_for "", eq_iff r.voted_for args.candidate_id)

  -- A node that grants its vote in a term, and later, after events none of which is an
  -- AppendEntries of its own term at a candidate, grants its vote in the same term again, grants it
  -- to the same candidate, if the first one's id is not empty.
  pub request_vote_once :
      (now later : ℕ) (args args' : RequestVoteArgs) (r s : Raft C)
      → args.candidate_id ≢ ""
      → (request_vote now args r).1.vote_granted ≡ true
      → Run (request_vote now args r).0 s
      → args'.term ≡ args.term
      → (request_vote later args' s).1.vote_granted ≡ true
      → args'.candidate_id ≡ args.candidate_id
  request_vote_once now later args args' r s ne h run e h' =
      granted_only later args.candidate_id args' s ne
        (rw e
          (Run-HasVoted args.term args.candidate_id ne run (inr (granted-HasVoted now args r h))))
        h'
