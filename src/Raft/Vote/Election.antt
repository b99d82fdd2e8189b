-- ===== src/Raft/Vote/Election.antt =====
-- internal/raft/raft.go and consistency.go: the replies of an election, and the quorum.
use gothinkdb.Prelude.{
  ℕ, suc, ◌+◌, ◌/◌, ◌≡◌, refl, ap, Bool, true, false, ◌&&◌, List, [], ◌∷◌, ltb, leb, length, arith,
  ◌∙◌, Bool-cases, inl, inr,
}
use gothinkdb.Raft.Types.{State, Raft, is_leader}
use gothinkdb.Raft.Vote.{receive_vote, receive_votes, check_quorum}

-- The granted votes among the replies.
abbrev pub granted : List Bool → ℕ
granted [] = 0
granted (true ∷ rest) = suc (granted rest)
granted (false ∷ rest) = granted rest

module _ {C : Type 0} where
  receive_vote-leader :
      (vote : Bool) (votes : ℕ) (r : Raft C)
      → r.state ≡ State.leader
      → (receive_vote vote (votes, r)).1.state ≡ State.leader
  unfolding receive_vote
  receive_vote-leader vote votes r h = ground arith

  receive_votes-leader :
      (replies : List Bool) (s : ℕ × Raft C)
      → s.1.state ≡ State.leader
      → (receive_votes replies s).1.state ≡ State.leader
  unfolding receive_votes
  receive_votes-leader [] s h = h
  receive_votes-leader (vote ∷ rest) s h =
      receive_votes-leader rest (receive_vote vote s) (receive_vote-leader vote s.0 s.1 h)

  receive_vote-won :
      (votes : ℕ) (r : Raft C)
      → r.state ≡ State.candidate
      → ltb ((length r.config.peers + 1) / 2) (votes + 1) ≡ true
      → (receive_vote true (votes, r)).1.state ≡ State.leader
  unfolding receive_vote
  receive_vote-won votes r c h = ground arith

  receive_vote-more :
      (votes : ℕ) (r : Raft C)
      → ltb ((length r.config.peers + 1) / 2) (votes + 1) ≡ false
      → receive_vote true (votes, r) ≡ (votes + 1, r)
  unfolding receive_vote
  receive_vote-more votes r h = rw h

  receive_vote-refused : (votes : ℕ) (r : Raft C) → receive_vote false (votes, r) ≡ (votes, r)
  unfolding receive_vote
  receive_vote-refused votes r = refl

  election :
      (replies : List Bool) (votes : ℕ) (r : Raft C)
      → r.state ≡ State.candidate
      → is_leader (receive_votes replies (votes, r)).1.state ≡ (
          ltb 0 (granted replies)
          && leb ((length r.config.peers + 1) / 2 + 1) (votes + granted replies))
  unfolding receive_votes
  election [] votes r h = ground arith
  election (false ∷ rest) votes r h =
      ap (λ s. is_leader (receive_votes rest s).1.state) (receive_vote-refused votes r)
      ∙ election rest votes r h
  election (true ∷ rest) votes r h =
      elim (Bool-cases (ltb ((length r.config.peers + 1) / 2) (votes + 1))) [
        | inl won ↦ ground (
          arith,
          receive_votes-leader rest (receive_vote true (votes, r)) (receive_vote-won votes r h won),
        )
        | inr more ↦
            ap (λ s. is_leader (receive_votes rest s).1.state) (receive_vote-more votes r more)
            ∙ election rest (votes + 1) r h
            ∙ ground arith
      ]

  -- A candidate that counts the replies of its election, its own vote first, is leader at the end
  -- exactly if a vote was granted and the votes with its own pass the check of the quorum manager.
  pub election-quorum :
      (replies : List Bool) (r : Raft C)
      → r.state ≡ State.candidate
      → is_leader (receive_votes replies (1, r)).1.state
        ≡ (ltb 0 (granted replies) && check_quorum r (1 + granted replies))
  unfolding check_quorum
  election-quorum replies r h = election replies 1 r h
