-- ===== src/Raft/Append/Total.antt =====
-- internal/raft/raft.go: where `AppendEntries` panics.
use gothinkdb.Prelude.{
  ℕ, zero, suc, ◌≤◌, ◌<◌, ◌≡◌, ◌≢◌, inl, inr, some, none, List, [], ◌∷◌, leb, length, arith,
  get_elem?-some, Bool-cases, Option-cases,
}
use gothinkdb.Raft.Types.{Raft, LogEntry, AppendEntriesArgs, AllIndexed, entry_at}
use gothinkdb.Raft.Append.{
  append_entry, append_all, accept_entries, check_log, append_entries, heard,
}

module _ {C : Type 0} where
  entry_at-some :
      (log : List (LogEntry C)) (i : ℕ)
      → 0 < i
      → i ≤ length log
      → (e : LogEntry C) × (entry_at log i ≡ some e)
  entry_at-some log zero p h = absurd (omega arith)
  entry_at-some log (suc i) p h = get_elem?-some log i h

  append_entry-some :
      (log : List (LogEntry C)) (e : LogEntry C) → 0 < e.index → append_entry log e ≢ none
  unfolding append_entry
  append_entry-some log e p = elim (Bool-cases (leb e.index (length log))) [
    | inl q ↦ let (o, found) = entry_at-some log e.index p (ground arith) in rw (q, found) (λ h. cc)
    | inr q ↦ rw q (λ h. cc)
  ]

  append_all-some : (log es : List (LogEntry C)) → AllIndexed es → append_all log es ≢ none
  unfolding append_all
  append_all-some log [] h = λ e. cc
  append_all-some log (e ∷ es) h = elim (Option-cases (append_entry log e)) [
    | inl p ↦ absurd (append_entry-some log e h.0 p)
    | inr (next, p) ↦ rw p (append_all-some next es h.1)
  ]

  accept_entries-some :
      (term : ℕ) (args : AppendEntriesArgs C) (r : Raft C)
      → AllIndexed args.entries
      → accept_entries term args r ≢ none
  unfolding accept_entries
  accept_entries-some term args r h = elim (Option-cases (append_all r.log args.entries)) [
    | inl p ↦ absurd (append_all-some r.log args.entries h p)
    | inr (next, p) ↦ rw p (λ e. cc)
  ]

  check_log-some :
      (term : ℕ) (args : AppendEntriesArgs C) (r : Raft C)
      → AllIndexed args.entries
      → check_log term args r ≢ none
  unfolding check_log
  check_log-some term args r h =
      ground (arith, entry_at-some r.log args.prev_log_index, accept_entries-some term args r h)

  -- The handler answers every message whose entries have positive indexes, whatever the log
  -- holds: it reads the log in range.
  pub append_entries-total :
      (now : ℕ) (args : AppendEntriesArgs C) (r : Raft C)
      → AllIndexed args.entries
      → append_entries now args r ≢ none
  unfolding append_entries
  append_entries-total now args r h =
      ground (arith, check_log-some r.current_term args (heard now args r) h)
