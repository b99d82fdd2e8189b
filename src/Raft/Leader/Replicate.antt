-- ===== src/Raft/Leader/Replicate.antt =====
-- One round between a leader and a follower, and the way back of the next index.
use gothinkdb.Prelude.{
  ℕ, zero, suc, ◌+◌, ◌-◌, ◌≤◌, ◌<◌, ◌≡◌, refl, String, true, false, some, List, [], ◌∷◌, ◌++◌,
  length, drop, max, ltb, get_last?, if◌then◌else◌, arith, subst, str_eq, eq_iff, lt→ltb, ge→ltb,
}
use gothinkdb.Prelude.Assoc.{insert, lookup-insert}
use gothinkdb.Raft.Types.{
  Raft, LogEntry, AppendEntriesArgs, AppendEntriesReply, IsIndexedFrom, entry_at, last_log_index,
}
use gothinkdb.Raft.Leader.{index_of, append_request, append_reply, advance_peer, term_of, proposal}

pub index_of-insert :
    (p q : String) (n : ℕ) (m : List (String × ℕ))
    → index_of q (insert p n m) ≡ (if str_eq p q then n else index_of q m)
unfolding index_of
index_of-insert p q n m = ground (arith, lookup-insert p q n m)

module _ {C : Type 0} where
  pub IsIndexedFrom-drop :
      (n k : ℕ) (log : List (LogEntry C)) → IsIndexedFrom k log → IsIndexedFrom (n + k) (drop n log)
  IsIndexedFrom-drop zero k log h = subst (λ m. IsIndexedFrom m log) (omega arith) h
  IsIndexedFrom-drop (suc n) k [] h = tt
  IsIndexedFrom-drop (suc n) k (e ∷ es) h =
      subst (λ m. IsIndexedFrom m (drop n es)) (omega arith) (IsIndexedFrom-drop n (suc k) es h.1)

  -- The last entry of a numbered list.
  pub IsIndexedFrom-last :
      (k : ℕ) (x : LogEntry C) (es : List (LogEntry C))
      → IsIndexedFrom k (x ∷ es)
      → (e : LogEntry C) × (get_last? (x ∷ es) ≡ some e) × (e.index ≡ k + length (x ∷ es))
  IsIndexedFrom-last k x [] h = (x, refl, omega arith)
  IsIndexedFrom-last k x (y ∷ es) h =
      let (e, p, q) = IsIndexedFrom-last (suc k) y es h.1 in (e, p, omega arith)

  pub last_log_index-length :
      (log : List (LogEntry C)) → IsIndexedFrom 0 log → last_log_index log ≡ length log
  last_log_index-length [] h = refl
  last_log_index-length (x ∷ es) h =
      let (e, p, q) = IsIndexedFrom-last 0 x es h in rw (last_log_index, p) (omega arith)

  IsIndexedFrom-append :
      (k : ℕ) (log : List (LogEntry C)) (e : LogEntry C)
      → IsIndexedFrom k log
      → e.index ≡ suc (k + length log)
      → IsIndexedFrom k (log ++ e ∷ [])
  IsIndexedFrom-append k [] e h p = (omega arith, tt)
  IsIndexedFrom-append k (x ∷ log) e h p =
      (h.0, IsIndexedFrom-append (suc k) log e h.1 (omega arith))

  -- The proposal of a node whose log is numbered from 1 keeps it so, and is its last entry.
  pub proposal-IsIndexed :
      (now : ℕ) (command : C) (r : Raft C)
      → IsIndexedFrom 0 r.log
      → IsIndexedFrom 0 (r.log ++ proposal now command r ∷ [])
  unfolding proposal
  proposal-IsIndexed now command r h =
      IsIndexedFrom-append 0 r.log _ h (omega (arith, last_log_index-length r.log h))

  -- What a leader sends to a peer that lacks some of its entries.
  abbrev pub sent : ℕ → Raft C → AppendEntriesArgs C
  sent n l = record {
    term = l.current_term;
    leader_id = l.config.node_id;
    prev_log_index = n;
    prev_log_term = if ltb 0 n then term_of (entry_at l.log n) else 0;
    entries = drop n l.log;
    leader_commit = l.commit_index;
  }

  pub append_request-sent :
      (peer : String) (n : ℕ) (l : Raft C)
      → index_of peer l.next_index ≡ suc n
      → n < length l.log
      → append_request peer l ≡ some (sent n l)
  unfolding append_request
  append_request-sent peer n l h k =
      rw (h, append_request) (ground (arith, lt→ltb n (length l.log) k))

  -- The indexes that a leader has for a peer after a success.
  pub append_reply-success :
      (peer : String) (es : List (LogEntry C)) (e : LogEntry C) (reply : AppendEntriesReply)
      (l : Raft C)
      → reply.term ≤ l.current_term
      → reply.success ≡ true
      → get_last? es ≡ some e
      → append_reply peer es reply l ≡ record l {
        next_index = insert peer (e.index + 1) l.next_index;
        match_index = insert peer e.index l.match_index;
      }
  unfolding append_reply
  append_reply-success peer es e reply l t s last =
      rw (ge→ltb l.current_term reply.term t, s, advance_peer, last)

  -- ... and after a refusal.
  pub index_of-back_off :
      (peer : String) (es : List (LogEntry C)) (reply : AppendEntriesReply) (l : Raft C)
      → reply.term ≤ l.current_term
      → reply.success ≡ false
      → 0 < index_of peer l.next_index
      → index_of peer (append_reply peer es reply l).next_index
        ≡ max 1 (index_of peer l.next_index - 1)
  unfolding append_reply
  index_of-back_off peer es reply l t s p = ground (
    arith,
    eq_iff peer peer,
    index_of-insert peer peer (index_of peer l.next_index - 1) l.next_index,
  )
