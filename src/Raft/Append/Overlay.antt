-- ===== src/Raft/Append/Overlay.antt =====
-- The log that `AppendEntries` leaves, by an independent description of the merge.
use mathlib.Core.List.{append_assoc, append-nil}
use gothinkdb.Prelude.{
  ℕ, suc, ◌≤◌, ◌≡◌, refl, sym, ap, subst, map, take_all, length-take, take-append-drop, inl, inr,
  some, List, [], ◌∷◌, ◌++◌, ◌==◌, length, take, drop, get_elem?, if◌then◌else◌, arith,
  length-append, Bool-cases,
}
use gothinkdb.Raft.Types.{LogEntry, IsIndexedFrom}
use gothinkdb.Raft.Append.{append_entry, append_all}

module _ {C : Type 0} where
  -- Entries laid over the rest of a log: an entry of the same term stays, and from the first
  -- difference on the new entries replace what was there.
  pub overlay : List (LogEntry C) → List (LogEntry C) → List (LogEntry C)
  overlay old [] = old
  overlay [] (e ∷ es) = e ∷ es
  overlay (o ∷ old) (e ∷ es) =
      let kept = overlay old es in if o.term == e.term then o ∷ kept else e ∷ es

  get_elem?-append :
      (pre : List (LogEntry C)) (o : LogEntry C) (rest : List (LogEntry C))
      → get_elem? (pre ++ o ∷ rest) (length pre) ≡ some o
  get_elem?-append [] o rest = refl
  get_elem?-append (x ∷ pre) o rest = get_elem?-append pre o rest

  take-append : (pre rest : List (LogEntry C)) → take (length pre) (pre ++ rest) ≡ pre
  take-append [] rest = refl
  take-append (x ∷ pre) rest = ap (◌∷◌ x) (take-append pre rest)

  append_entry-old :
      (pre : List (LogEntry C)) (o : LogEntry C) (rest : List (LogEntry C)) (e : LogEntry C)
      → e.index ≡ suc (length pre)
      → append_entry (pre ++ o ∷ rest) e
        ≡ some (if o.term == e.term then pre ++ o ∷ rest else pre ++ e ∷ [])
  unfolding append_entry
  append_entry-old pre o rest e h =
      ground (
        arith,
        get_elem?-append pre o rest,
        take-append pre (o ∷ rest),
        length-append pre (o ∷ rest),
      )

  append_entry-new :
      (pre : List (LogEntry C)) (e : LogEntry C)
      → e.index ≡ suc (length pre)
      → append_entry pre e ≡ some (pre ++ e ∷ [])
  unfolding append_entry
  append_entry-new pre e h = ground arith

  overlay-nil : (es : List (LogEntry C)) → overlay [] es ≡ es
  unfolding overlay
  overlay-nil [] = refl
  overlay-nil (e ∷ es) = refl

  IsIndexedFrom-snoc :
      (pre es : List (LogEntry C)) (e : LogEntry C)
      → IsIndexedFrom (suc (length pre)) es
      → IsIndexedFrom (length (pre ++ e ∷ [])) es
  IsIndexedFrom-snoc pre es e h =
      subst (λ n. IsIndexedFrom n es) (omega (arith, length-append pre (e ∷ []))) h

  -- From an entry that is new, the rest is appended as it is.
  fresh_tail :
      (pre es : List (LogEntry C)) (e : LogEntry C)
      → append_all ((pre ++ e ∷ []) ++ []) es ≡ some ((pre ++ e ∷ []) ++ overlay [] es)
      → append_all (pre ++ e ∷ []) es ≡ some (pre ++ e ∷ es)
  fresh_tail pre es e h = rw (append-nil, overlay-nil, append_assoc) at h

  append_all-overlay :
      (pre rest es : List (LogEntry C))
      → IsIndexedFrom (length pre) es
      → append_all (pre ++ rest) es ≡ some (pre ++ overlay rest es)
  unfolding append_all overlay
  append_all-overlay pre rest [] h = refl
  append_all-overlay pre [] (e ∷ es) h =
      let ih = append_all-overlay (pre ++ e ∷ []) [] es (IsIndexedFrom-snoc pre es e h.1) in
      rw (append-nil, append_entry-new pre e h.0) (fresh_tail pre es e ih)
  append_all-overlay pre (o ∷ rest) (e ∷ es) h =
      let ih = append_all-overlay (pre ++ e ∷ []) [] es (IsIndexedFrom-snoc pre es e h.1) in
      let same = append_all-overlay (pre ++ o ∷ []) rest es (IsIndexedFrom-snoc pre es o h.1) in
      elim (Bool-cases (o.term == e.term)) [
        | inl p ↦ rw (append_entry-old pre o rest e h.0, p) (simp append_assoc at same)
        | inr p ↦ rw (append_entry-old pre o rest e h.0, p) (fresh_tail pre es e ih)
      ]

  -- Where the new entries lie, the log has their terms.
  pub overlay-terms :
      (old es : List (LogEntry C))
      → map (λ e. e.term) (take (length es) (overlay old es)) ≡ map (λ e. e.term) es
  unfolding overlay
  overlay-terms [] [] = refl
  overlay-terms (o ∷ old) [] = refl
  overlay-terms [] (e ∷ es) = rw (take_all (length es) es (omega arith))
  overlay-terms (o ∷ old) (e ∷ es) = elim (Bool-cases (o.term == e.term)) [
    | inl p ↦ rw p (ground (arith, overlay-terms old es))
    | inr p ↦ rw p (rw (take_all (length es) es (omega arith)))
  ]

  overlay_self : (es : List (LogEntry C)) → overlay es es ≡ es
  unfolding overlay
  overlay_self [] = refl
  overlay_self (e ∷ es) = ground (arith, overlay_self es)

  pub overlay_idem : (old es : List (LogEntry C)) → overlay (overlay old es) es ≡ overlay old es
  unfolding overlay
  overlay_idem [] [] = refl
  overlay_idem (o ∷ old) [] = refl
  overlay_idem [] (e ∷ es) = overlay_self (e ∷ es)
  overlay_idem (o ∷ old) (e ∷ es) = elim (Bool-cases (o.term == e.term)) [
    | inl p ↦ rw (p, overlay) (rw (p, overlay_idem old es))
    | inr p ↦ rw (p, overlay) (overlay_self (e ∷ es))
  ]

  pub append_all-overlay_at :
      (log es : List (LogEntry C)) (p : ℕ)
      → p ≤ length log
      → IsIndexedFrom p es
      → append_all log es ≡ some (take p log ++ overlay (drop p log) es)
  append_all-overlay_at log es p h w =
      let e : length (take p log) ≡ p = omega (arith, length-take p log) in
      rw (take-append-drop p log) at (
        append_all-overlay (take p log) (drop p log) es (subst (λ n. IsIndexedFrom n es) (sym e) w))
