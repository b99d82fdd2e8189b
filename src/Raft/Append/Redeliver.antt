-- ===== src/Raft/Append/Redeliver.antt =====
-- internal/raft/raft.go: the log after an accepted `AppendEntries`, and the same message again.
use gothinkdb.Prelude.{
  ℕ, zero, suc, ◌≤◌, ◌≡◌, ap, ◌∙◌, some, List, length, take, drop, ◌++◌, map, arith, take_past,
  drop_past, get_elem?-take_append, true, sym,
}
use gothinkdb.Raft.Types.{Raft, LogEntry, AppendEntriesArgs, last_log_index}
use gothinkdb.Raft.Append.{append_entries}
use gothinkdb.Raft.Append.Overlay.{overlay-terms, overlay_idem}
use gothinkdb.Raft.Append.Accept.{
  IsConsistent, IsAccepted, IsConsistent-le, merged, committed, accepted, accepted-Accepted,
  append_entries-accept,
}

committed_idem : (c l last : ℕ) → committed (committed c l last) l last ≡ committed c l last
committed_idem c l last = ground arith

module _ {C : Type 0} where
  merged_idem :
      (args : AppendEntriesArgs C) (log : List (LogEntry C))
      → args.prev_log_index ≤ length log
      → merged args (merged args log) ≡ merged args log
  merged_idem args log h =
      rw
        (take_past args.prev_log_index log _ h, drop_past args.prev_log_index log _ h, overlay_idem)

  IsConsistent-merged :
      (log rest : List (LogEntry C)) (p term : ℕ)
      → IsConsistent log p term
      → IsConsistent (take p log ++ rest) p term
  IsConsistent-merged log rest zero term h = tt
  IsConsistent-merged log rest (suc i) term h = (
    h.0,
    get_elem?-take_append (suc i) i log rest (omega arith) (IsConsistent-le log (suc i) term h)
        ∙ h.1,
    h.2,
  )

  -- After an accepted message the entries from its previous index on have, one by one, the terms
  -- of the leader's entries.
  pub accepted-terms :
      (now : ℕ) (args : AppendEntriesArgs C) (r : Raft C)
      → IsAccepted args r
      → map
          (λ e. e.term)
          (take (length args.entries) (drop args.prev_log_index (accepted now args r).log))
        ≡ map (λ e. e.term) args.entries
  accepted-terms now args r h = rw (
    (accepted-Accepted now args r h.current).log,
    drop_past args.prev_log_index r.log _ (IsConsistent-le r.log _ _ h.consistent),
    overlay-terms,
  )

  accepted-IsAccepted :
      (now : ℕ) (args : AppendEntriesArgs C) (r : Raft C)
      → IsAccepted args r
      → IsAccepted args (accepted now args r)
  accepted-IsAccepted now args r h =
      let done = accepted-Accepted now args r h.current in
      record {
        current = omega (arith, done.term);
        consistent = rw done.log (IsConsistent-merged r.log _ _ _ h.consistent);
        indexed = h.indexed;
      }

  ok_again :
      (later : ℕ) (args : AppendEntriesArgs C) (r r' : Raft C) {n m : ℕ}
      → n ≡ m
      → append_entries later args r ≡ some (r', record { term = n; success = true })
      → append_entries later args r ≡ some (r', record { term = m; success = true })
  ok_again later args r r' e h = rw e at h

  -- A message of the current or a later term, whose previous entry the log has and whose entries are
  -- numbered on from that one, is accepted. Where it comes a second time before any other change of
  -- the node, it is accepted again, and changes neither the log nor the commit index nor the term.
  pub append_entries_twice :
      (now later : ℕ) (args : AppendEntriesArgs C) (r : Raft C)
      → IsAccepted args r
      → let r' = accepted now args r in
        let r'' = accepted later args r' in
        (append_entries now args r ≡ some (r', record { term = r.current_term; success = true }))
        × (append_entries later args r' ≡ some (r'', record { term = args.term; success = true }))
        × (r''.log ≡ r'.log)
        × (r''.commit_index ≡ r'.commit_index)
        × (r''.current_term ≡ r'.current_term)
  append_entries_twice now later args r h =
      let done = accepted-Accepted now args r h.current in
      let again = accepted-Accepted later args (accepted now args r) (omega (arith, done.term)) in
      let same =
        ap (merged args) done.log
        ∙ merged_idem args r.log (IsConsistent-le r.log _ _ h.consistent) in
      (
        (append_entries-accept now args r h).0,
        ok_again later args (accepted now args r) (accepted later args (accepted now args r))
            done.term
            (append_entries-accept later args (accepted now args r)
              (accepted-IsAccepted now args r h)).0,
        again.log ∙ same ∙ sym done.log,
        again.commit
            ∙ rw (same, done.commit)
                (committed_idem r.commit_index args.leader_commit
                  (last_log_index (merged args r.log)))
            ∙ sym done.commit,
        again.term ∙ sym done.term,
      )
