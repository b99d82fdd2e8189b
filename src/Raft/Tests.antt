-- ===== src/Raft/Tests.antt =====
-- internal/raft at concrete inputs: runs of the handlers, and the theorems at states that meet
-- their hypotheses.
use gothinkdb.Prelude.{
  ℕ, ◌≤◌, ◌≡◌, ◌≢◌, refl, String, true, false, some, none, List, [], ◌∷◌, ◌&&◌, arith, eq_iff, ltb,
}
use mathlib.Core.Bool.{false≢true}
use gothinkdb.Raft.Types.{
  State, Config, Raft, LogEntry, RequestVoteArgs, AppendEntriesArgs, new, is_leader,
}
use gothinkdb.Raft.Vote.{
  request_vote, is_up_to_date, receive_votes, check_quorum, tick, tick_in, tick_follower,
  become_candidate, start_election, receive_vote, become_leader,
}
use gothinkdb.Raft.Vote.Election.{election-quorum}
use gothinkdb.Raft.Append.{append_entries}
use gothinkdb.Raft.Append.Total.{append_entries-total}
use gothinkdb.Raft.Append.Accept.{accepted, Accepted, IsAccepted, append_entries-accept}
use gothinkdb.Raft.Append.Redeliver.{append_entries_twice}
use gothinkdb.Raft.Leader.{index_of, append_request}
use gothinkdb.Raft.Leader.Replicate.{sent}
use gothinkdb.Raft.Leader.Round.{SameUpTo, replicate_round}
use gothinkdb.Raft.Events.{ticked, vote_asked, vote_came, step}
use gothinkdb.Raft.Events.Terms.{step-term}
use gothinkdb.Raft.Events.OneVote.{Run, request_vote_once}
use gothinkdb.Raft.Events.DoubleVote.{candidate_votes_twice}
use gothinkdb.Raft.Events.Ready.{Fits, Reach, append_request-total}
use gothinkdb.Raft.Compaction.{CompactionManager}
use gothinkdb.Raft.Compaction.Gap.{entries_of, compacted_sends_nothing}

abbrev config : Config
config = record {
  node_id = "a";
  peers = "b" ∷ "c" ∷ [];
  election_timeout = 150;
  heartbeat_interval = 50;
}

abbrev entry : ℕ → ℕ → LogEntry ℕ
entry term index = record { term = term; index = index; command = 7; timestamp = 0 }

abbrev node : State → ℕ → String → List (LogEntry ℕ) → Raft ℕ
node state term voted_for log = record {
  config = config;
  current_term = term;
  voted_for = voted_for;
  log = log;
  state = state;
  commit_index = 0;
  last_applied = 0;
  next_index = ("b", 2) ∷ ("c", 4) ∷ [];
  match_index = ("b", 0) ∷ ("c", 3) ∷ [];
  election_timeout = 150;
  last_heartbeat = 0;
}

-- Three entries, and a next index of 2 for the peer "b".
abbrev chief : Raft ℕ
chief = node State.leader 2 "a" (entry 1 1 ∷ entry 1 2 ∷ entry 2 3 ∷ [])

-- The first entry is the leader's, the second one conflicts.
abbrev behind : Raft ℕ
behind = node State.follower 1 "" (entry 1 1 ∷ entry 0 2 ∷ [])

abbrev message : AppendEntriesArgs ℕ
message = sent 1 chief

message-IsAccepted : IsAccepted message behind
message-IsAccepted = record {
  current = omega arith;
  consistent = (entry 1 1, refl, refl);
  indexed = (refl, (refl, tt));
}

append_entries-accept_example : Accepted 5 message behind (accepted 5 message behind)
append_entries-accept_example = (append_entries-accept 5 message behind message-IsAccepted).1

append_entries_twice_example :
    (accepted 6 message (accepted 5 message behind)).log ≡ (accepted 5 message behind).log
append_entries_twice_example = (append_entries_twice 5 6 message behind message-IsAccepted).2

append_entries-total_example : append_entries 5 message behind ≢ none
append_entries-total_example =
    append_entries-total 5 message behind (omega arith, (omega arith, tt))

replicate_round_example : SameUpTo 3 (accepted 5 message behind).log chief.log
replicate_round_example =
    (replicate_round "b" 5 1 chief behind (refl, (refl, (refl, tt))) b_next (omega arith)
      (omega arith) refl).2
  where
    b_next : index_of "b" chief.next_index ≡ 2
    b_next = unfold index_of in refl

abbrev asks : String → RequestVoteArgs
asks id = record { term = 3; candidate_id = id; last_log_index = 3; last_log_term = 2 }

abbrev voted : Raft ℕ
voted = (request_vote 5 (asks "b") behind).0

-- The second request of the same candidate is granted again.
request_vote_once_example : (asks "b").candidate_id ≡ voted.voted_for
unfolding request_vote
request_vote_once_example =
    request_vote_once 5 6 (asks "b") (asks "b") behind voted (λ e. false≢true ((eq_iff "b" "").1 e))
      refl Run.here refl refl

step-term_example : 1 ≤ (request_vote 5 (asks "b") behind).0.current_term
step-term_example =
    step-term (vote_asked 5 (asks "b")) behind (request_vote 5 (asks "b") behind).0
      (unfold step in refl)

abbrev running : Raft ℕ
running = node State.candidate 2 "a" (entry 1 1 ∷ [])

election-quorum_example :
    is_leader (receive_votes (false ∷ true ∷ []) (1, running)).1.state
    ≡ (ltb 0 1 && check_quorum running 2)
election-quorum_example = election-quorum (false ∷ true ∷ []) running refl

abbrev heartbeat : AppendEntriesArgs ℕ
heartbeat = record {
  term = 2;
  leader_id = "b";
  prev_log_index = 0;
  prev_log_term = 0;
  entries = [];
  leader_commit = 0;
}

abbrev deposed : Raft ℕ
deposed = record running { state = State.follower; voted_for = ""; last_heartbeat = 5 }

candidate_votes_twice_example :
    (request_vote 6
      (record { term = 2; candidate_id = "c"; last_log_index = 1; last_log_term = 1 })
      deposed).1.vote_granted
    ≡ true
unfolding append_entries
candidate_votes_twice_example =
    (candidate_votes_twice 5 6 heartbeat
      (record { term = 2; candidate_id = "c"; last_log_index = 1; last_log_term = 1 }) running
      deposed (record { term = 2; success = true }) refl refl refl refl
      (unfold is_up_to_date in refl)).1

-- A new node times out, and the first vote that it is granted makes it the leader.
abbrev timed_out : Raft ℕ
timed_out = tick 1_000 0 (new config 0)

abbrev elected : Raft ℕ
elected = (receive_vote true (1, timed_out)).1

elected_leads : is_leader elected.state ≡ true
unfolding tick tick_in tick_follower become_candidate start_election new receive_vote become_leader
elected_leads = refl

vote_fits : Fits (vote_came true 1) timed_out
unfolding tick tick_in tick_follower become_candidate start_election new
vote_fits = omega arith

elected-Reach : Reach (new config 0) elected
unfolding step
elected-Reach =
    Reach.next (Reach.next Reach.here (ticked 1_000 0) tt refl) (vote_came true 1) vote_fits refl

append_request-total_example : append_request "b" elected ≢ none
append_request-total_example = (append_request-total config 0 "b" elected elected-Reach refl).2

-- Four entries, a threshold of 2, and a peer that has all four.
abbrev long : Raft ℕ
long = record (node State.leader 2 "a" (entry 1 1 ∷ entry 1 2 ∷ entry 2 3 ∷ entry 2 4 ∷ [])) {
  next_index = ("b", 5) ∷ [];
}

abbrev by_two : CompactionManager
by_two = record { snapshot_threshold = 2; last_snapshot_index = 0 }

long_next : index_of "b" long.next_index ≡ 5
long_next = unfold index_of in refl

compacted_sends_nothing_example :
    entries_of (
      append_request "b"
        (compacted_sends_nothing "b" 9 8 by_two long (omega arith) refl long_next).2)
    ≡ some []
compacted_sends_nothing_example =
    (compacted_sends_nothing "b" 9 8 by_two long (omega arith) refl long_next).5
