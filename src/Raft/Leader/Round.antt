-- ===== src/Raft/Leader/Round.antt =====
-- A round of replication: the leader's request, the follower's answer, and what the leader makes
-- of it.
use mathlib.Core.List.{map-append}
use gothinkdb.Prelude.{
  ℕ, zero, suc, ◌+◌, ◌≤◌, ◌<◌, ◌≡◌, refl, ap, String, true, some, List, [], ◌∷◌, ◌++◌, length, take,
  drop, map, ltb, get_elem?, get_last?, if◌then◌else◌, arith, subst, eq_iff, length-drop, lt→ltb,
  length-take, length-map, take-append-drop, take_all,
}
use gothinkdb.Raft.Types.{Raft, LogEntry, AppendEntriesReply, IsIndexedFrom, entry_at}
use gothinkdb.Raft.Append.{append_entries}
use gothinkdb.Raft.Append.Overlay.{overlay, overlay-terms}
use gothinkdb.Raft.Append.Accept.{
  IsConsistent, IsAccepted, merged, accepted, accepted-Accepted, append_entries-accept,
}
use gothinkdb.Raft.Leader.{index_of, append_request, append_reply, term_of}
use gothinkdb.Raft.Leader.Replicate.{
  sent, append_request-sent, append_reply-success, IsIndexedFrom-last, IsIndexedFrom-drop,
  index_of-insert,
}

list_tail : {a b : ℕ} {xs ys : List ℕ} → a ∷ xs ≡ b ∷ ys → xs ≡ ys
list_tail h = cc

module _ {C : Type 0} where
  abbrev pub terms : List (LogEntry C) → List ℕ
  terms = map (λ e. e.term)

  -- The follower has the terms of the leader's log up to n.
  abbrev pub SameUpTo : ℕ → List (LogEntry C) → List (LogEntry C) → Type 0
  SameUpTo n xs ys = terms (take n xs) ≡ terms (take n ys)

  SameUpTo-length :
      (n : ℕ) (xs ys : List (LogEntry C)) → SameUpTo n xs ys → n ≤ length ys → n ≤ length xs
  SameUpTo-length n xs ys h k = omega (
    arith,
    ap length h,
    length-map (take n xs) (λ e. e.term),
    length-map (take n ys) (λ e. e.term),
    length-take n xs,
    length-take n ys,
  )

  SameUpTo-IsConsistent :
      (i : ℕ) (xs ys : List (LogEntry C))
      → SameUpTo (suc i) xs ys
      → i < length ys
      → IsConsistent xs (suc i) (term_of (get_elem? ys i))
  SameUpTo-IsConsistent i [] [] h k = absurd (omega arith)
  SameUpTo-IsConsistent i [] (y ∷ ys) h k = cc
  SameUpTo-IsConsistent i (x ∷ xs) [] h k = cc
  SameUpTo-IsConsistent zero (x ∷ xs) (y ∷ ys) h k = (x, refl, cc)
  SameUpTo-IsConsistent (suc i) (x ∷ xs) (y ∷ ys) h k =
      SameUpTo-IsConsistent i xs ys (list_tail h) (omega arith)

  take_sum :
      (n m k : ℕ) (xs ys : List (LogEntry C))
      → length xs ≡ n
      → k ≡ n + m
      → take k (xs ++ ys) ≡ xs ++ take m ys
  take_sum n m k [] ys h e = let same : k ≡ m = omega arith in rw same
  take_sum n m zero (x ∷ xs) ys h e = absurd (omega arith)
  take_sum n m (suc k) (x ∷ xs) ys h e =
      ap (◌∷◌ x) (take_sum (length xs) m k xs ys refl (omega arith))

  sent-IsAccepted :
      (n : ℕ) (l f : Raft C)
      → IsIndexedFrom 0 l.log
      → n < length l.log
      → f.current_term ≤ l.current_term
      → SameUpTo n f.log l.log
      → IsAccepted (sent n l) f
  sent-IsAccepted n l f w k t same = record {
    current = t;
    consistent = sent-consistent n k same;
    indexed =
        subst (λ m. IsIndexedFrom m (drop n l.log)) (omega arith) (IsIndexedFrom-drop n 0 l.log w);
  }
    where
      sent-consistent :
          (m : ℕ)
          → m < length l.log
          → SameUpTo m f.log l.log
          → IsConsistent f.log m (if ltb 0 m then term_of (entry_at l.log m) else 0)
      sent-consistent zero k same = tt
      sent-consistent (suc i) k same =
          rw (lt→ltb 0 (suc i) (omega arith))
            (SameUpTo-IsConsistent i f.log l.log same (omega arith))

  -- The follower's log after the round, up to the length of the leader's.
  merged-SameUpTo :
      (n : ℕ) (l f : Raft C)
      → n < length l.log
      → SameUpTo n f.log l.log
      → SameUpTo (length l.log) (merged (sent n l) f.log) l.log
  merged-SameUpTo n l f k same =
      let len = SameUpTo-length n f.log l.log same (omega arith) in
      let es = drop n l.log in
      rw (
        take_sum n (length es) (length l.log) (take n f.log) (overlay (drop n f.log) es)
            (omega (arith, length-take n f.log)) (omega (arith, length-drop n l.log)),
        take_all (length l.log) l.log (omega arith),
        map-append,
        overlay-terms,
        same,
        ← map-append,
        take-append-drop,
      )

  drop_pos :
      (n : ℕ) (log : List (LogEntry C))
      → n < length log
      → (x : LogEntry C) × (xs : List (LogEntry C)) × (drop n log ≡ x ∷ xs)
  drop_pos n [] h = absurd (omega arith)
  drop_pos zero (x ∷ log) h = (x, log, refl)
  drop_pos (suc n) (x ∷ log) h = drop_pos n log (omega arith)

  drop-last :
      (n : ℕ) (log : List (LogEntry C))
      → IsIndexedFrom 0 log
      → n < length log
      → (e : LogEntry C) × (get_last? (drop n log) ≡ some e) × (e.index ≡ length log)
  drop-last n log w h =
      let (x, xs, p) = drop_pos n log h in
      let w' = IsIndexedFrom-drop n 0 log w in
      let (e, q, r) = IsIndexedFrom-last (n + 0) x xs (rw p at w') in
      (e, rw p q, omega (arith, ap length p, length-drop n log))

  -- A leader whose log is numbered from 1, and that has for a peer a next index n + 1 within its
  -- log, sends the rest of its log. A follower of no later term whose log has the leader's terms up
  -- to n accepts, and then has the leader's terms all through the leader's log. On the follower's
  -- answer the leader's match index for the peer is its last index, and the next index follows it.
  pub replicate_round :
      (peer : String) (now n : ℕ) (l f : Raft C)
      → IsIndexedFrom 0 l.log
      → index_of peer l.next_index ≡ suc n
      → n < length l.log
      → f.current_term ≤ l.current_term
      → SameUpTo n f.log l.log
      → let f' = accepted now (sent n l) f in
        let reply : AppendEntriesReply = record { term = f.current_term; success = true } in
        let l' = append_reply peer (drop n l.log) reply l in
        (append_request peer l ≡ some (sent n l))
        × (append_entries now (sent n l) f ≡ some (f', reply))
        × SameUpTo (length l.log) f'.log l.log
        × (index_of peer l'.match_index ≡ length l.log)
        × (index_of peer l'.next_index ≡ length l.log + 1)
  replicate_round peer now n l f w p k t same =
      let (e, last, at_end) = drop-last n l.log w k in
      let fits = sent-IsAccepted n l f w k t same in
      let reply : AppendEntriesReply = record { term = f.current_term; success = true } in
      let moved = append_reply-success peer (drop n l.log) e reply l t refl last in
      (
        append_request-sent peer n l p k,
        (append_entries-accept now (sent n l) f fits).0,
        rw (accepted-Accepted now (sent n l) f t).log (merged-SameUpTo n l f k same),
        rw (moved, index_of-insert peer peer) (ground (arith, eq_iff peer peer)),
        rw (moved, index_of-insert peer peer) (ground (arith, eq_iff peer peer)),
      )
