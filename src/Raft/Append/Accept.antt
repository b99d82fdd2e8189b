-- ===== src/Raft/Append/Accept.antt =====
-- What an accepted `AppendEntries` leaves: the log, the commit index, and the same again.
use gothinkdb.Prelude.{
  ℕ, zero, suc, ◌≤◌, ◌<◌, ◌≡◌, refl, some, List, [], ◌∷◌, length, get_elem?, arith, ltb, take, drop,
  ◌++◌, min, true, if◌then◌else◌, ge→ltb, ◌∙◌,
}
use gothinkdb.Raft.Types.{Raft, LogEntry, AppendEntriesArgs, IsIndexedFrom, last_log_index}
use gothinkdb.Raft.Append.{
  append_all, accept_entries, check_log, append_entries, update_commit, heard,
}
use gothinkdb.Raft.Append.Overlay.{overlay, append_all-overlay_at}

-- The commit index goes to the leader's, but not past the end of the log, and never back to it.
abbrev pub committed : ℕ → ℕ → ℕ → ℕ
committed commit leader last = if ltb commit leader then min leader last else commit

module _ {C : Type 0} where
  -- The log has an entry of the given term at the given index, or the index is 0.
  abbrev pub IsConsistent : List (LogEntry C) → ℕ → ℕ → Type 0
  IsConsistent log zero term = Unit {0}
  IsConsistent log (suc i) term = (e : LogEntry C) × (get_elem? log i ≡ some e) × (e.term ≡ term)

  -- What the receiver checks of a message, and the form that a leader gives to its entries.
  pub record IsAccepted (args : AppendEntriesArgs C) (r : Raft C) : Type 0 where
    pub current : r.current_term ≤ args.term
    pub consistent : IsConsistent r.log args.prev_log_index args.prev_log_term
    pub indexed : IsIndexedFrom args.prev_log_index args.entries

  -- The log by its independent description: what stands up to the previous index stays.
  abbrev pub merged : AppendEntriesArgs C → List (LogEntry C) → List (LogEntry C)
  merged args log =
      take args.prev_log_index log ++ overlay (drop args.prev_log_index log) args.entries

  get_elem?-lt :
      (log : List (LogEntry C)) (i : ℕ) (e : LogEntry C) → get_elem? log i ≡ some e → i < length log
  get_elem?-lt [] i e h = cc
  get_elem?-lt (x ∷ log) zero e h = omega arith
  get_elem?-lt (x ∷ log) (suc i) e h = omega (arith, get_elem?-lt log i e h)

  pub IsConsistent-le :
      (log : List (LogEntry C)) (p term : ℕ) → IsConsistent log p term → p ≤ length log
  IsConsistent-le log zero term h = omega arith
  IsConsistent-le log (suc i) term h = get_elem?-lt log i h.0 h.1

  -- A consistent message goes to `accept_entries`.
  check_log-accept :
      (now : ℕ) (args : AppendEntriesArgs C) (r : Raft C) (p : ℕ)
      → args.prev_log_index ≡ p
      → IsConsistent r.log p args.prev_log_term
      → check_log now args r ≡ accept_entries now args r
  unfolding check_log
  check_log-accept now args r zero e h = ground arith
  check_log-accept now args r (suc i) e h = ground (arith, get_elem?-lt r.log i h.0 h.1)

  log-heard : (now : ℕ) (args : AppendEntriesArgs C) (r : Raft C) → (heard now args r).log ≡ r.log
  unfolding heard
  log-heard now args r = ground arith

  commit_index-heard :
      (now : ℕ) (args : AppendEntriesArgs C) (r : Raft C)
      → (heard now args r).commit_index ≡ r.commit_index
  unfolding heard
  commit_index-heard now args r = ground arith

  current_term-heard :
      (now : ℕ) (args : AppendEntriesArgs C) (r : Raft C)
      → r.current_term ≤ args.term
      → (heard now args r).current_term ≡ args.term
  unfolding heard
  current_term-heard now args r h = ground arith

  -- The node after a message that passes its checks, but for its vote and its state.
  pub record Accepted (now : ℕ) (args : AppendEntriesArgs C) (r r' : Raft C) : Type 0 where
    pub term : r'.current_term ≡ args.term
    pub log : r'.log ≡ merged args r.log
    pub commit :
        r'.commit_index
        ≡ committed r.commit_index args.leader_commit (last_log_index (merged args r.log))
    pub heartbeat : r'.last_heartbeat ≡ now

  append_entries-current :
      (now : ℕ) (args : AppendEntriesArgs C) (r : Raft C)
      → r.current_term ≤ args.term
      → append_entries now args r ≡ check_log r.current_term args (heard now args r)
  unfolding append_entries
  append_entries-current now args r h = rw (ge→ltb args.term r.current_term h)

  accept_entries-merged :
      (term : ℕ) (args : AppendEntriesArgs C) (r : Raft C) (log : List (LogEntry C))
      → append_all r.log args.entries ≡ some log
      → accept_entries term args r
        ≡ some (
          update_commit args.leader_commit (record r { log = log }),
          record { term = term; success = true },
        )
  unfolding accept_entries
  accept_entries-merged term args r log h = rw h

  -- The node that an accepted message leaves.
  pub accepted : ℕ → AppendEntriesArgs C → Raft C → Raft C
  accepted now args r =
      update_commit args.leader_commit (record (heard now args r) { log = merged args r.log })

  update_commit-committed :
      (leader : ℕ) (r : Raft C)
      → (update_commit leader r).commit_index
        ≡ committed r.commit_index leader (last_log_index r.log)
  unfolding update_commit
  update_commit-committed leader r = ground arith

  pub accepted-Accepted :
      (now : ℕ) (args : AppendEntriesArgs C) (r : Raft C)
      → r.current_term ≤ args.term
      → Accepted now args r (accepted now args r)
  accepted-Accepted now args r h = record {
    term = unfold accepted update_commit in ground (arith, current_term-heard now args r h);
    log = unfold accepted update_commit in ground arith;
    commit = unfold accepted in rw (update_commit-committed, commit_index-heard);
    heartbeat = unfold accepted update_commit heard in ground arith;
  }

  -- A message of the current term or a later one, whose previous entry the log has, and whose
  -- entries are numbered on from it, is answered with success. The log is the one that
  -- `overlay` describes, and the commit index goes to the leader's or to the end of the log.
  pub append_entries-accept :
      (now : ℕ) (args : AppendEntriesArgs C) (r : Raft C)
      → IsAccepted args r
      → (append_entries now args r
          ≡ some (accepted now args r, record { term = r.current_term; success = true }))
        × Accepted now args r (accepted now args r)
  unfolding accepted
  append_entries-accept now args r h = (
    append_entries-current now args r h.current
        ∙ check_log-accept r.current_term args (heard now args r) args.prev_log_index refl
            (rw log-heard h.consistent)
        ∙ accept_entries-merged r.current_term args (heard now args r) (merged args r.log) (
            rw log-heard (
              append_all-overlay_at r.log args.entries args.prev_log_index
                (IsConsistent-le r.log _ _ h.consistent) h.indexed)),
    accepted-Accepted now args r h.current,
  )
