-- ===== src/Raft/Events/DoubleVote.antt =====
-- internal/raft/raft.go: a candidate that hears of a leader in its own term, and is then asked
-- for a vote.
use gothinkdb.Prelude.{ℕ, ◌≡◌, true, some, arith, eq_iff, ◌∙◌, sym}
use gothinkdb.Raft.Types.{
  State, Raft, RequestVoteArgs, AppendEntriesArgs, AppendEntriesReply, last_log_index,
  last_log_term,
}
use gothinkdb.Raft.Vote.{request_vote, is_up_to_date}
use gothinkdb.Raft.Append.{append_entries, heard}
use gothinkdb.Raft.Events.Terms.{check_log-fields}

module _ {C : Type 0} where
  heard-forgets :
      (now : ℕ) (args : AppendEntriesArgs C) (r : Raft C)
      → r.state ≡ State.candidate
      → args.term ≡ r.current_term
      → ((heard now args r).voted_for ≡ "") × ((heard now args r).current_term ≡ r.current_term)
  unfolding heard
  heard-forgets now args r h e = ground arith

  append_entries-forgets :
      (now : ℕ) (args : AppendEntriesArgs C) (r r' : Raft C) (reply : AppendEntriesReply)
      → r.state ≡ State.candidate
      → args.term ≡ r.current_term
      → append_entries now args r ≡ some (r', reply)
      → (r'.voted_for ≡ "") × (r'.current_term ≡ r.current_term)
  unfolding append_entries
  append_entries-forgets now args r r' reply c e h = ground (
    arith,
    heard-forgets now args r c e,
    check_log-fields r.current_term args (heard now args r) r' reply,
  )

  free_vote :
      (now : ℕ) (args : RequestVoteArgs) (r : Raft C)
      → r.voted_for ≡ ""
      → args.term ≡ r.current_term
      → is_up_to_date args.last_log_term args.last_log_index
          (last_log_term r.log)
          (last_log_index r.log)
        ≡ true
      → (request_vote now args r).1.vote_granted ≡ true
  unfolding request_vote
  free_vote now args r free e up = ground (arith, eq_iff r.voted_for "")

  -- A candidate, which has voted for itself in its term, that answers an AppendEntries of that
  -- term, whatever the answer, grants its vote of the same term to any candidate whose log is
  -- up-to-date.
  pub candidate_votes_twice :
      (now later : ℕ) (args : AppendEntriesArgs C) (asked : RequestVoteArgs) (r r' : Raft C)
      (reply : AppendEntriesReply)
      → r.state ≡ State.candidate
      → args.term ≡ r.current_term
      → append_entries now args r ≡ some (r', reply)
      → asked.term ≡ r.current_term
      → is_up_to_date asked.last_log_term asked.last_log_index
          (last_log_term r'.log)
          (last_log_index r'.log)
        ≡ true
      → (r'.current_term ≡ r.current_term) × ((request_vote later asked r').1.vote_granted ≡ true)
  candidate_votes_twice now later args asked r r' reply c e h same up =
      let (free, term) = append_entries-forgets now args r r' reply c e h in
      (term, free_vote later asked r' free (same ∙ sym term) up)
