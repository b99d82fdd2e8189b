-- ===== src/Raft/Compaction/Gap.antt =====
-- internal/raft/compaction.go and raft.go: requests from a log that `Compact` has shortened.
use gothinkdb.Prelude.{
  ℕ, suc, ◌-◌, ◌/◌, ◌≤◌, ◌<◌, ◌≡◌, String, some, List, [], ◌∷◌, ◌++◌, length, arith, ge→leb, Option,
  none, refl, true, length-drop, length-append, lt→ltb,
}
use gothinkdb.Raft.Types.{Raft, LogEntry, AppendEntriesArgs, is_leader}
use gothinkdb.Raft.Leader.{index_of, append_request, propose, proposal}
use gothinkdb.Raft.Compaction.{CompactionManager, trim_log, compact, written}

module _ {C : Type 0} where
  length-trim_log :
      (threshold : ℕ) (r : Raft C)
      → threshold < length r.log
      → length (trim_log threshold r).log ≡ threshold / 2
  unfolding trim_log
  length-trim_log threshold r h =
      rw (lt→ltb threshold (length r.log) h)
        (omega (arith, length-drop (length r.log - threshold / 2) r.log))

  next_index-trim_log :
      (threshold : ℕ) (r : Raft C) → (trim_log threshold r).next_index ≡ r.next_index
  unfolding trim_log
  next_index-trim_log threshold r = ground arith

  state-trim_log : (threshold : ℕ) (r : Raft C) → (trim_log threshold r).state ≡ r.state
  unfolding trim_log
  state-trim_log threshold r = ground arith

  -- The entries of a request.
  abbrev pub entries_of : Option (AppendEntriesArgs C) → Option (List (LogEntry C))
  entries_of none = none
  entries_of (some args) = some args.entries

  append_request-behind :
      (peer : String) (n : ℕ) (r : Raft C)
      → index_of peer r.next_index ≡ suc n
      → length r.log ≤ n
      → entries_of (append_request peer r) ≡ some []
  unfolding append_request
  append_request-behind peer n r h k =
      rw (h, append_request, ge→leb (suc n) (length r.log) (omega arith))

  proposed_to : ℕ → C → Raft C → Raft C
  proposed_to now command r = record r { log = r.log ++ proposal now command r ∷ [] }

  proposed_to-behind :
      (peer : String) (now threshold : ℕ) (command : C) (r : Raft C)
      → threshold < length r.log
      → index_of peer r.next_index ≡ suc (length r.log)
      → entries_of (append_request peer (proposed_to now command (trim_log threshold r))) ≡ some []
  unfolding proposed_to
  proposed_to-behind peer now threshold command r h k =
      let r' = trim_log threshold r in
      append_request-behind peer (length r.log) (proposed_to now command r')
        (rw (next_index-trim_log threshold r) k)
        (omega (
          arith,
          length-append r'.log (proposal now command r' ∷ []),
          length-trim_log threshold r h,
        ))

  propose-proposed_to :
      (now threshold : ℕ) (command : C) (r : Raft C)
      → is_leader r.state ≡ true
      → propose now command (trim_log threshold r)
        ≡ some (proposed_to now command (trim_log threshold r))
  unfolding propose proposed_to
  propose-proposed_to now threshold command r h = rw (state-trim_log threshold r, h)

  -- A leader compacts a log that is longer than the threshold, when a peer has all of it (its next
  -- index is one past the last), and nothing comes between the two locked parts of `Compact`; then it
  -- takes a proposal. Both succeed, and the request to that peer has no entries: the new entry stands
  -- at a position before the peer's next index.
  pub compacted_sends_nothing :
      (peer : String) (now : ℕ) (command : C) (cm : CompactionManager) (r : Raft C)
      → cm.snapshot_threshold < length r.log
      → is_leader r.state ≡ true
      → index_of peer r.next_index ≡ suc (length r.log)
      → (cm' : CompactionManager) × (r' : Raft C) × (r'' : Raft C) × (compact written cm r
          ≡ (cm', r', true))
        × (propose now command r' ≡ some r'')
        × (entries_of (append_request peer r'') ≡ some [])
  unfolding compact
  compacted_sends_nothing peer now command cm r h leads k =
      let r' = trim_log cm.snapshot_threshold r in
      (
        (compact written cm r).0,
        r',
        proposed_to now command r',
        refl,
        propose-proposed_to now cm.snapshot_threshold command r leads,
        proposed_to-behind peer now cm.snapshot_threshold command r h k,
      )
