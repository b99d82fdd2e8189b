-- ===== src/Raft/Vote.antt =====
-- internal/raft/raft.go: the `RequestVote` handler, the ticks and the elections.
pub mod Election
use gothinkdb.Prelude.{
  ℕ, zero, suc, ◌+◌, ◌-◌, ◌*◌, ◌/◌, String, Bool, true, false, ◌&&◌, ◌||◌, Option, none, some, List,
  [], ◌∷◌, ltb, leb, ◌==◌, str_eq, length, if◌then◌else◌,
}
use gothinkdb.Raft.Types.{
  State, Config, Raft, RequestVoteArgs, RequestVoteReply, last_log_index, last_log_term, set_all,
  is_candidate,
}

-- The candidate's log is at least as up-to-date as the voter's.
unfoldable pub is_up_to_date : ℕ → ℕ → ℕ → ℕ → Bool
is_up_to_date args_term args_index last_term last_index =
    ltb last_term args_term || (args_term == last_term && leb last_index args_index)

module _ {C : Type 0} where
  -- A message of a later term: adopt the term, and forget the vote.
  unfoldable pub step_down : ℕ → Raft C → Raft C
  step_down term r = record r { current_term = term; state = State.follower; voted_for = "" }

  -- The last part of `RequestVote`, after the term checks; `term` is the reply's.
  unfoldable pub consider_vote : ℕ → ℕ → RequestVoteArgs → Raft C → Raft C × RequestVoteReply
  unfolding is_up_to_date
  consider_vote now term args r =
      if str_eq r.voted_for "" || str_eq r.voted_for args.candidate_id
      then (if is_up_to_date args.last_log_term args.last_log_index (last_log_term r.log)
            (last_log_index r.log)
          then (
            record r { voted_for = args.candidate_id; last_heartbeat = now },
            record { term = term; vote_granted = true },
          )
          else (r, record { term = term; vote_granted = false }))
      else (r, record { term = term; vote_granted = false })

  -- `RequestVote`. The reply carries the term from before the message was looked at.
  unfoldable pub request_vote : ℕ → RequestVoteArgs → Raft C → Raft C × RequestVoteReply
  unfolding step_down consider_vote
  request_vote now args r =
      if ltb args.term r.current_term
      then (r, record { term = r.current_term; vote_granted = false })
      else consider_vote now r.current_term args
          (if ltb r.current_term args.term then step_down args.term r else r)

  -- `becomeCandidate`; `jitter` is `rand.Intn(150)`, in milliseconds.
  unfoldable pub become_candidate : ℕ → ℕ → Raft C → Raft C
  become_candidate now jitter r = record r {
    state = State.candidate;
    current_term = r.current_term + 1;
    voted_for = r.config.node_id;
    last_heartbeat = now;
    election_timeout = r.config.election_timeout + jitter * 1_000_000;
  }

  -- `tickFollower`
  unfoldable pub tick_follower : ℕ → ℕ → Raft C → Raft C
  unfolding become_candidate
  tick_follower now jitter r =
      if ltb r.election_timeout (now - r.last_heartbeat) then become_candidate now jitter r else r

  -- The part of `startElection` under the lock of `tick`. The requests go out from goroutines,
  -- which are the steps `vote_request` and `receive_vote`.
  unfoldable pub start_election : ℕ → Raft C → Raft C
  start_election now r = record r { last_heartbeat = now }

  unfoldable pub tick_in : State → ℕ → ℕ → Raft C → Raft C
  unfolding tick_follower start_election
  tick_in State.follower now jitter r = tick_follower now jitter r
  tick_in State.candidate now jitter r = start_election now r
  tick_in State.leader now jitter r = r

  -- `tick`. A leader's tick sends the heartbeats, the step `append_request` of Raft/Leader.
  unfoldable pub tick : ℕ → ℕ → Raft C → Raft C
  unfolding tick_in
  tick now jitter r = tick_in r.state now jitter r

  -- The arguments of `requestVoteFromPeer`.
  unfoldable pub vote_request : Raft C → RequestVoteArgs
  vote_request r = record {
    term = r.current_term;
    candidate_id = r.config.node_id;
    last_log_index = last_log_index r.log;
    last_log_term = last_log_term r.log;
  }

  -- `becomeLeader`
  unfoldable pub become_leader : Raft C → Raft C
  unfolding set_all
  become_leader r = record r {
    state = State.leader;
    next_index = set_all r.config.peers (last_log_index r.log + 1) r.next_index;
    match_index = set_all r.config.peers 0 r.match_index;
  }

  -- The body of the goroutine of `startElection`: the counter `votes` belongs to one election, and
  -- starts from 1, the candidate's own vote.
  unfoldable pub receive_vote : Bool → ℕ × Raft C → ℕ × Raft C
  unfolding become_leader
  receive_vote false (votes, r) = (votes, r)
  receive_vote true (votes, r) = (
    votes + 1,
    (if ltb ((length r.config.peers + 1) / 2) (votes + 1)
        then (if is_candidate r.state then become_leader r else r)
        else r),
  )

  -- The replies of one election, in the order in which they come in.
  unfoldable pub receive_votes : List Bool → ℕ × Raft C → ℕ × Raft C
  receive_votes [] s = s
  receive_votes (granted ∷ rest) s = receive_votes rest (receive_vote granted s)

  -- `GetQuorumSize` of consistency.go
  unfoldable pub get_quorum_size : Raft C → ℕ
  get_quorum_size r = (length r.config.peers + 1) / 2 + 1

  -- `CheckQuorum` of consistency.go
  unfoldable pub check_quorum : Raft C → ℕ → Bool
  unfolding get_quorum_size
  check_quorum r ack_count = leb (get_quorum_size r) ack_count
