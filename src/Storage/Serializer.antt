-- ===== src/Storage/Serializer.antt =====
-- internal/storage/serializer.go: the interface of a block store, and what the page cache relies on.
use gothinkdb.Prelude.{ℕ, ◌≡◌, ◌≢◌, ◌==◌, if◌then◌else◌}
use gothinkdb.Prelude.Result.{Result, ok}

-- `InvalidBlockID`
abbrev pub invalid_block_id : ℕ
invalid_block_id = 0

-- `Serializer`, over an unknown state. A read changes nothing. A call that fails leaves the state as
-- it was. `EndBlockID` and `Close` are left out: the page cache does not call them.
pub record Serializer (B : Type 0) : Type 1 where
  pub State : Type 0
  pub block_read : ℕ → State → Result B
  pub block_write : ℕ → B → State → Result (ℕ × State)
  pub block_delete : ℕ → State → Result State
  pub flush : State → Result State

-- A sound store after a write of the block b under an id.
pub record Wrote {B : Type 0} (S : Serializer B) (IsSound : S.State → Type 0) (id : ℕ) (b : B)
    (s s' : S.State) : Type 0 where
  pub sound : IsSound s'
  pub read : (j : ℕ) → S.block_read j s' ≡ (if id == j then ok b else S.block_read j s)

-- What a store in a sound state does with blocks that are well formed, while it has room for more.
pub record IsLawful {B : Type 0} (S : Serializer B) (IsBlock : B → Type 0)
    (IsSound HasRoom : S.State → Type 0) : Type 0 where
  -- A block that is there can be written.
  pub block_read-block_write :
      (id : ℕ) (b old : B) (s : S.State)
      → IsSound s
      → IsBlock b
      → S.block_read id s ≡ ok old
      → (s' : S.State) × (S.block_write id b s ≡ ok (id, s')) × Wrote S IsSound id b s s'
  -- The invalid id asks for a new block, whose id is not that of another one.
  pub allocate :
      (b : B) (s : S.State)
      → IsSound s
      → IsBlock b
      → HasRoom s
      → (id : ℕ) × (s' : S.State) × (S.block_write invalid_block_id b s ≡ ok (id, s'))
        × ((old : B) → S.block_read id s ≢ ok old)
        × Wrote S IsSound id b s s'
  pub read_IsBlock :
      (id : ℕ) (b : B) (s : S.State) → IsSound s → S.block_read id s ≡ ok b → IsBlock b
  -- A flush that succeeds keeps the blocks.
  pub flush_keeps :
      (s s' : S.State)
      → IsSound s
      → S.flush s ≡ ok s'
      → IsSound s' × ((j : ℕ) → S.block_read j s' ≡ S.block_read j s)
