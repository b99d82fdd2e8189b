-- ===== src/Raft/Events/Ready.antt =====
-- internal/raft/raft.go: the leader's next indexes under the events, and the requests built from
-- them.
use gothinkdb.Prelude.{
  ℕ, ◌<◌, ◌≡◌, ◌≢◌, refl, ap, ◌∙◌, String, Bool, true, false, ◌||◌, some, none, List, [], ◌∷◌,
  if◌then◌else◌, arith, subst, Option-cases, some_eq, inl, inr, str_eq, ltb, ◌-◌, ◌+◌, ◌/◌, ◌^◌,
  length, get_last?, Bool-cases, eq_iff,
}
use gothinkdb.Prelude.Assoc.{insert}
use gothinkdb.Raft.Types.{
  Raft, Config, LogEntry, AppendEntriesArgs, AppendEntriesReply, RequestVoteArgs, set_all, new,
  last_log_index, is_candidate,
}
use gothinkdb.Raft.Vote.{request_vote, tick, receive_vote, become_leader}
use gothinkdb.Raft.Append.{append_entries, check_log, accept_entries, append_all, heard}
use gothinkdb.Raft.Leader.{index_of, append_request, append_reply, propose, advance_peer, back_off}
use gothinkdb.Raft.Leader.Replicate.{index_of-insert}
use gothinkdb.Raft.Events.{
  Event, ticked, vote_asked, entries_came, vote_came, answer_came, proposed, step, or_same,
}

abbrev pub contains : String → List String → Bool
contains p [] = false
contains p (q ∷ ps) = str_eq q p || contains p ps

index_of-set_all :
    (p : String) (ps : List String) (v : ℕ) (m : List (String × ℕ))
    → index_of p (set_all ps v m) ≡ (if contains p ps then v else index_of p m)
unfolding set_all
index_of-set_all p [] v m = refl
index_of-set_all p (q ∷ ps) v m =
    ground (arith, index_of-set_all p ps v (insert q v m), index_of-insert q p v m)

module _ {C : Type 0} where
  -- Every configured peer has a next index of at least 1, which is an int64.
  pub record IsReady (config : Config) (r : Raft C) : Type 0 where
    pub same_config : r.config ≡ config
    pub positive : (p : String) → contains p config.peers ≡ true → 0 < index_of p r.next_index
    pub below : (p : String) → contains p config.peers ≡ true → index_of p r.next_index < 2 ^ 63

  -- The fields that matter here are untouched.
  keeps-IsReady :
      (config : Config) (r r' : Raft C)
      → r'.config ≡ r.config
      → r'.next_index ≡ r.next_index
      → IsReady config r
      → IsReady config r'
  keeps-IsReady config r r' c n h = record {
    same_config = c ∙ h.same_config;
    positive = λ p k. rw n (h.positive p k);
    below = λ p k. rw n (h.below p k);
  }

  request_vote-keeps :
      (now : ℕ) (args : RequestVoteArgs) (r : Raft C)
      → ((request_vote now args r).0.config ≡ r.config)
        × ((request_vote now args r).0.next_index ≡ r.next_index)
  unfolding request_vote
  request_vote-keeps now args r = ground arith

  tick-keeps :
      (now jitter : ℕ) (r : Raft C)
      → ((tick now jitter r).config ≡ r.config) × ((tick now jitter r).next_index ≡ r.next_index)
  unfolding tick
  tick-keeps now jitter r = ground arith

  accept_entries-keeps :
      (term : ℕ) (args : AppendEntriesArgs C) (r r' : Raft C) (reply : AppendEntriesReply)
      → accept_entries term args r ≡ some (r', reply)
      → (r'.config ≡ r.config) × (r'.next_index ≡ r.next_index)
  unfolding accept_entries
  accept_entries-keeps term args r r' reply h =
      elim (Option-cases (append_all r.log args.entries)) [
        | inl p ↦ cc (rw (p, accept_entries) at h)
        | inr (log, p) ↦ ground (arith, rw p at h)
      ]

  check_log-keeps :
      (term : ℕ) (args : AppendEntriesArgs C) (r r' : Raft C) (reply : AppendEntriesReply)
      → check_log term args r ≡ some (r', reply)
      → (r'.config ≡ r.config) × (r'.next_index ≡ r.next_index)
  unfolding check_log
  check_log-keeps term args r r' reply h = ground (arith, accept_entries-keeps term args r r' reply)

  heard-keeps :
      (now : ℕ) (args : AppendEntriesArgs C) (r : Raft C)
      → ((heard now args r).config ≡ r.config) × ((heard now args r).next_index ≡ r.next_index)
  unfolding heard
  heard-keeps now args r = ground arith

  append_entries-keeps :
      (now : ℕ) (args : AppendEntriesArgs C) (r r' : Raft C) (reply : AppendEntriesReply)
      → append_entries now args r ≡ some (r', reply)
      → (r'.config ≡ r.config) × (r'.next_index ≡ r.next_index)
  unfolding append_entries
  append_entries-keeps now args r r' reply h = ground (
    arith,
    heard-keeps now args r,
    check_log-keeps r.current_term args (heard now args r) r' reply,
  )

  propose-keeps :
      (now : ℕ) (command : C) (r : Raft C)
      → ((or_same r (propose now command r)).config ≡ r.config)
        × ((or_same r (propose now command r)).next_index ≡ r.next_index)
  unfolding propose
  propose-keeps now command r = ground arith

  become_leader-IsReady :
      (config : Config) (r : Raft C)
      → last_log_index r.log + 1 < 2 ^ 63
      → IsReady config r
      → IsReady config (become_leader r)
  unfolding become_leader
  become_leader-IsReady config r b h = record {
    same_config = h.same_config;
    below = λ p k.
        rw (index_of-set_all p r.config.peers (last_log_index r.log + 1) r.next_index)
          (ground (arith, h.below p k));
    positive = λ p k.
        rw (index_of-set_all p r.config.peers (last_log_index r.log + 1) r.next_index)
          (ground (arith, ap (λ (c : Config). contains p c.peers) h.same_config));
  }

  receive_vote-IsReady :
      (config : Config) (vote : Bool) (votes : ℕ) (r : Raft C)
      → last_log_index r.log + 1 < 2 ^ 63
      → IsReady config r
      → IsReady config (receive_vote vote (votes, r)).1
  unfolding receive_vote
  receive_vote-IsReady config true votes r b h =
      either (ltb ((length r.config.peers + 1) / 2) (votes + 1))
        (either (is_candidate r.state) (become_leader-IsReady config r b h) h) h
    where
      either :
          (b : Bool) {x y : Raft C}
          → IsReady config x
          → IsReady config y
          → IsReady config (if b then x else y)
      either true hx hy = hx
      either false hx hy = hy
  receive_vote-IsReady config false votes r b h = h

  insert-IsReady :
      (config : Config) (peer : String) (n : ℕ) (r r' : Raft C)
      → 0 < n
      → ((p : String) → contains p config.peers ≡ true → str_eq peer p ≡ true → n < 2 ^ 63)
      → r'.config ≡ r.config
      → r'.next_index ≡ insert peer n r.next_index
      → IsReady config r
      → IsReady config r'
  insert-IsReady config peer n r r' pos low c e h = record {
    same_config = c ∙ h.same_config;
    positive =
        λ p k. rw (e, index_of-insert peer p n r.next_index) (ground (arith, h.positive p k));
    below =
        λ p k. rw (e, index_of-insert peer p n r.next_index) (ground (arith, h.below p k, low p k));
  }

  advance_peer-IsReady :
      (config : Config) (peer : String) (entries : List (LogEntry C)) (r : Raft C)
      → last_log_index entries + 1 < 2 ^ 63
      → IsReady config r
      → IsReady config (advance_peer peer entries r)
  advance_peer-IsReady config peer entries r b h = elim (Option-cases (get_last? entries)) [
    | inl p ↦
        keeps-IsReady config r (advance_peer peer entries r)
          (unfold advance_peer in rw (p, advance_peer))
          (unfold advance_peer in rw (p, advance_peer)) h
    | inr (e, p) ↦
        insert-IsReady config peer (e.index + 1) r (advance_peer peer entries r) (omega arith)
          (λ q k same. rw (p, last_log_index) at b) (unfold advance_peer in rw (p, advance_peer))
          (unfold advance_peer in rw (p, advance_peer)) h
  ]

  back_off-IsReady :
      (config : Config) (peer : String) (r : Raft C)
      → IsReady config r
      → IsReady config (back_off peer r)
  back_off-IsReady config peer r h = elim (Bool-cases (ltb 1 (index_of peer r.next_index))) [
    | inl p ↦
        insert-IsReady config peer (index_of peer r.next_index - 1) r (back_off peer r)
          (ground arith)
          (λ q k same.
            let at_peer = ap (λ q'. index_of q' r.next_index) ((eq_iff peer q).0 same) in
            omega (arith, h.below q k, at_peer))
          (unfold back_off in rw p) (unfold back_off in rw p) h
    | inr p ↦
        keeps-IsReady config r (back_off peer r) (unfold back_off in rw p) (unfold back_off in rw p)
          h
  ]

  append_reply-IsReady :
      (config : Config) (peer : String) (entries : List (LogEntry C)) (reply : AppendEntriesReply)
      (r : Raft C)
      → last_log_index entries + 1 < 2 ^ 63
      → IsReady config r
      → IsReady config (append_reply peer entries reply r)
  append_reply-IsReady config peer entries reply r b h =
      elim (Bool-cases (ltb r.current_term reply.term)) [
        | inl p ↦
            keeps-IsReady config r (append_reply peer entries reply r) (unfold append_reply in rw p)
              (unfold append_reply in rw p) h
        | inr p ↦ elim (Bool-cases reply.success) [
          | inl s ↦
              keeps-IsReady config (advance_peer peer entries r) (append_reply peer entries reply r)
                (unfold append_reply in rw (p, s)) (unfold append_reply in rw (p, s))
                (advance_peer-IsReady config peer entries r b h)
          | inr s ↦
              keeps-IsReady config (back_off peer r) (append_reply peer entries reply r)
                (unfold append_reply in rw (p, s)) (unfold append_reply in rw (p, s))
                (back_off-IsReady config peer r h)
        ]
      ]

  -- The next index that the event may write is an int64.
  abbrev pub Fits : Event C → Raft C → Type 0
  Fits (ticked now jitter) r = Unit
  Fits (vote_asked now args) r = Unit
  Fits (entries_came now args) r = Unit
  Fits (vote_came vote votes) r = last_log_index r.log + 1 < 2 ^ 63
  Fits (answer_came peer entries reply) r = last_log_index entries + 1 < 2 ^ 63
  Fits (proposed now command) r = Unit

  step-IsReady :
      (config : Config) (event : Event C) (r r' : Raft C)
      → Fits event r
      → step event r ≡ some r'
      → IsReady config r
      → IsReady config r'
  unfolding step
  step-IsReady config (ticked now jitter) r r' b e h =
      let (c, n) = tick-keeps now jitter r in
      subst (IsReady config) (some_eq e) (keeps-IsReady config r (tick now jitter r) c n h)
  step-IsReady config (vote_asked now args) r r' b e h =
      let (c, n) = request_vote-keeps now args r in
      subst (IsReady config) (some_eq e) (keeps-IsReady config r (request_vote now args r).0 c n h)
  step-IsReady config (entries_came now args) r r' b e h =
      elim (Option-cases (append_entries now args r)) [
        | inl p ↦ cc (rw p at e)
        | inr ((r'', reply), p) ↦
            let (c, n) = append_entries-keeps now args r r'' reply p in
            subst (IsReady config) (some_eq (rw p at e)) (keeps-IsReady config r r'' c n h)
      ]
  step-IsReady config (vote_came vote votes) r r' b e h =
      subst (IsReady config) (some_eq e) (receive_vote-IsReady config vote votes r b h)
  step-IsReady config (answer_came peer entries reply) r r' b e h =
      subst (IsReady config) (some_eq e) (append_reply-IsReady config peer entries reply r b h)
  step-IsReady config (proposed now command) r r' b e h =
      let (c, n) = propose-keeps now command r in
      subst (IsReady config) (some_eq e)
        (keeps-IsReady config r (or_same r (propose now command r)) c n h)

  new-IsReady : (config : Config) (now : ℕ) → IsReady config (new {C = C} config now)
  unfolding new
  new-IsReady config now = record {
    same_config = refl;
    positive = λ p k. ground (arith, index_of-set_all p config.peers 1 []);
    below = λ p k. ground (arith, index_of-set_all p config.peers 1 []);
  }

  -- What a node comes to by events, each of which fits.
  pub data Reach (r : Raft C) : Raft C → Type 0 where
    here : Reach r r
    next :
        {s t : Raft C}
        → Reach r s
        → (event : Event C) → Fits event s
        → step event s ≡ some t
        → Reach r t

  Reach-IsReady : {r s : Raft C} (config : Config) → Reach r s → IsReady config r → IsReady config s
  Reach-IsReady config here h = h
  Reach-IsReady config (next {s} {t = u} run event b e) h =
      step-IsReady config event s u b e (Reach-IsReady config run h)

  append_request-ready :
      (peer : String) (r : Raft C) → 0 < index_of peer r.next_index → append_request peer r ≢ none
  unfolding append_request
  append_request-ready peer r h = ground arith

  -- A new node takes messages, replies and timeouts in any order, none of which makes it panic (an
  -- entry of index 0 does). Where a vote comes in, the number after the last index of its own log
  -- is an int64, and where a reply to AppendEntries comes in, so is the number after the last
  -- index of the entries it is about. Then in each state that the node reaches, the next index of
  -- a configured peer is positive and an int64, and the request to that peer is built without a
  -- panic.
  pub append_request-total :
      (config : Config) (now : ℕ) (peer : String) (r : Raft C)
      → Reach (new config now) r
      → contains peer config.peers ≡ true
      → (0 < index_of peer r.next_index)
        × (index_of peer r.next_index < 2 ^ 63)
        × (append_request peer r ≢ none)
  append_request-total config now peer r run k =
      let ready = Reach-IsReady config run (new-IsReady config now) in
      (
        ready.positive peer k,
        ready.below peer k,
        append_request-ready peer r (ready.positive peer k),
      )
