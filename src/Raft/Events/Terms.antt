-- ===== src/Raft/Events/Terms.antt =====
-- internal/raft/raft.go: the term of a node under the events.
use gothinkdb.Prelude.{
  ℕ, ◌≤◌, ◌≡◌, some, arith, subst, Option-cases, some_eq, inl, inr, Bool, String, List,
}
use gothinkdb.Raft.Types.{Raft, LogEntry, RequestVoteArgs, AppendEntriesArgs, AppendEntriesReply}
use gothinkdb.Raft.Vote.{request_vote, tick, receive_vote}
use gothinkdb.Raft.Append.{append_entries, check_log, accept_entries, append_all, heard}
use gothinkdb.Raft.Leader.{append_reply, propose}
use gothinkdb.Raft.Events.{
  Event, ticked, vote_asked, entries_came, vote_came, answer_came, proposed, step, or_same,
}

module _ {C : Type 0} where
  request_vote-term :
      (now : ℕ) (args : RequestVoteArgs) (r : Raft C)
      → r.current_term ≤ (request_vote now args r).0.current_term
  unfolding request_vote
  request_vote-term now args r = ground arith

  tick-term : (now jitter : ℕ) (r : Raft C) → r.current_term ≤ (tick now jitter r).current_term
  unfolding tick
  tick-term now jitter r = ground arith

  accept_entries-fields :
      (term : ℕ) (args : AppendEntriesArgs C) (r r' : Raft C) (reply : AppendEntriesReply)
      → accept_entries term args r ≡ some (r', reply)
      → (r'.current_term ≡ r.current_term) × (r'.voted_for ≡ r.voted_for)
  unfolding accept_entries
  accept_entries-fields term args r r' reply h =
      elim (Option-cases (append_all r.log args.entries)) [
        | inl p ↦ cc (rw (p, accept_entries) at h)
        | inr (log, p) ↦ ground (arith, rw p at h)
      ]

  pub check_log-fields :
      (term : ℕ) (args : AppendEntriesArgs C) (r r' : Raft C) (reply : AppendEntriesReply)
      → check_log term args r ≡ some (r', reply)
      → (r'.current_term ≡ r.current_term) × (r'.voted_for ≡ r.voted_for)
  unfolding check_log
  check_log-fields term args r r' reply h =
      ground (arith, accept_entries-fields term args r r' reply)

  heard-term :
      (now : ℕ) (args : AppendEntriesArgs C) (r : Raft C)
      → r.current_term ≤ args.term
      → r.current_term ≤ (heard now args r).current_term
  unfolding heard
  heard-term now args r h = ground arith

  append_entries-term :
      (now : ℕ) (args : AppendEntriesArgs C) (r r' : Raft C) (reply : AppendEntriesReply)
      → append_entries now args r ≡ some (r', reply)
      → r.current_term ≤ r'.current_term
  unfolding append_entries
  append_entries-term now args r r' reply h = ground (
    arith,
    heard-term now args r,
    check_log-fields r.current_term args (heard now args r) r' reply,
  )

  receive_vote-term :
      (granted : Bool) (votes : ℕ) (r : Raft C)
      → r.current_term ≤ (receive_vote granted (votes, r)).1.current_term
  unfolding receive_vote
  receive_vote-term granted votes r = ground arith

  append_reply-term :
      (peer : String) (entries : List (LogEntry C)) (reply : AppendEntriesReply) (r : Raft C)
      → r.current_term ≤ (append_reply peer entries reply r).current_term
  unfolding append_reply
  append_reply-term peer entries reply r = ground arith

  propose-term :
      (now : ℕ) (command : C) (r : Raft C)
      → r.current_term ≤ (or_same r (propose now command r)).current_term
  unfolding propose
  propose-term now command r = ground arith

  abbrev IsLater : Raft C → Raft C → Type 0
  IsLater r r' = r.current_term ≤ r'.current_term

  -- No event lowers a node's term.
  pub step-term :
      (event : Event C) (r r' : Raft C) → step event r ≡ some r' → r.current_term ≤ r'.current_term
  unfolding step
  step-term (ticked now jitter) r r' h = subst (IsLater r) (some_eq h) (tick-term now jitter r)
  step-term (vote_asked now args) r r' h =
      subst (IsLater r) (some_eq h) (request_vote-term now args r)
  step-term (entries_came now args) r r' h = elim (Option-cases (append_entries now args r)) [
    | inl p ↦ cc (rw p at h)
    | inr ((r'', reply), p) ↦
        subst (IsLater r) (some_eq (rw p at h)) (append_entries-term now args r r'' reply p)
  ]
  step-term (vote_came granted votes) r r' h =
      subst (IsLater r) (some_eq h) (receive_vote-term granted votes r)
  step-term (answer_came peer entries reply) r r' h =
      subst (IsLater r) (some_eq h) (append_reply-term peer entries reply r)
  step-term (proposed now command) r r' h =
      subst (IsLater r) (some_eq h) (propose-term now command r)
