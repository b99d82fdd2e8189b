-- ===== src/BTree/Pages.antt =====
-- internal/btree/btree.go: what the tree calls of the page cache, and how its calls follow each other.
use gothinkdb.Prelude.{ℕ, ◌≡◌, ◌≢◌, ◌==◌, length, if◌then◌else◌}
use gothinkdb.Prelude.Result.{Result, ok, err, panic}
use gothinkdb.BTree.Bytes.{Bytes}
use gothinkdb.BTree.Codec.{block_size}

-- A call that reads and writes a state; also a call that fails leaves one.
abbrev pub Step : Type 0 → Type 0 → Type 0
Step S A = S → S × Result A

infixl 5 ◌>>=◌ ◌>>◌
abbrev pub after : {S A B : Type 0} → S × Result A → (A → Step S B) → S × Result B
after (s, panic) next = (s, panic)
after (s, err) next = (s, err)
after (s, ok value) next = next value s

-- A call, and what follows it if it returned a value.
abbrev pub ◌>>=◌ : {S A B : Type 0} → Step S A → (A → Step S B) → Step S B
call >>= next = λ s. after (call s) next

abbrev pub ◌>>◌ : {S B : Type 0} → Step S (Unit {0}) → Step S B → Step S B
call >> next = call >>= (λ _. next)

-- A call that has nothing to do with the state.
abbrev pub lift : {S A : Type 0} → Result A → Step S A
lift r = λ s. (s, r)

-- `Get`, `Put` and `Allocate` of a page cache.
pub record Pages : Type 1 where
  pub State : Type 0
  pub get : ℕ → Step State Bytes
  pub put : ℕ → Bytes → Step State (Unit {0})
  pub allocate : Bytes → Step State ℕ

-- The pages after the block b was stored under an id.
pub record Stored {S : Type 0} (IsGood : S → Type 0) (page : ℕ → S → Result Bytes) (id : ℕ)
    (b : Bytes) (s s' : S) : Type 0 where
  pub good : IsGood s'
  pub view : (j : ℕ) → page j s' ≡ (if id == j then ok b else page j s)

-- What the tree relies on: in a good state, each id has a block or an error, which is what `get`
-- returns. A block can be stored under an id that has one, and under a new one, which the call
-- chooses.
pub record IsPages (P : Pages) (IsGood HasRoom : P.State → Type 0)
    (view : ℕ → P.State → Result Bytes) : Type 0 where
  pub get_view :
      (id : ℕ) (s : P.State)
      → IsGood s
      → (s' : P.State) × (P.get id s ≡ (s', view id s))
        × IsGood s'
        × ((j : ℕ) → view j s' ≡ view j s)
  pub put_view :
      (id : ℕ) (b old : Bytes) (s : P.State)
      → IsGood s
      → length b ≡ block_size
      → view id s ≡ ok old
      → (s' : P.State) × (P.put id b s ≡ (s', ok tt)) × Stored IsGood view id b s s'
  pub allocate_view :
      (b : Bytes) (s : P.State)
      → IsGood s
      → length b ≡ block_size
      → HasRoom s
      → (id : ℕ) × (s' : P.State) × (P.allocate b s ≡ (s', ok id))
        × ((old : Bytes) → view id s ≢ ok old)
        × Stored IsGood view id b s s'
