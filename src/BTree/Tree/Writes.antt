-- ===== src/BTree/Tree/Writes.antt =====
-- internal/btree/btree.go: the leaf of one key is rewritten.
use gothinkdb.Prelude.{
  ℕ, ◌≡◌, ◌∙◌, refl, sym, ap, Bool, false, Option, if◌then◌else◌, ◌==◌, ==_iff, Bool-cases, inl,
  inr, subst,
}
use gothinkdb.Prelude.Result.{Result, ok}
use gothinkdb.BTree.Bytes.{Bytes, bytes_equal, bytes_equal→eq}
use gothinkdb.BTree.Leaf.{LeafNode}
use gothinkdb.BTree.Leaf.Laws.{find}
use gothinkdb.BTree.Codec.{block_of, block_size}
use gothinkdb.BTree.Pages.{Pages, IsPages}
use gothinkdb.BTree.Tree.{write_leaf}
use gothinkdb.BTree.Tree.Weight.{IsLeafPage, IsLeafBlock, written_block, length-block_of}
use gothinkdb.BTree.Tree.Leads.{Leads, Leads-unique, IsRewritten, Leads-rewritten, IsLeafBlock-id}
use gothinkdb.BTree.Tree.Reads.{Holds, Shows}

-- A key that leads to another leaf is another key.
other_key :
    (page : ℕ → Result Bytes) (key j : Bytes) (l m : LeafNode) (levels id : ℕ)
    → Leads page key l levels id
    → Leads page j m levels id
    → (l.block_id == m.block_id) ≡ false
    → bytes_equal key j ≡ false
other_key page key j l m levels id leads way apart = elim (Bool-cases (bytes_equal key j)) [
  | inr other ↦ other
  | inl same ↦
      let way_key : Leads page key m levels id =
        subst (λ k. Leads page k m levels id) (sym (bytes_equal→eq key j same)) way in
      let one = Leads-unique page key l m levels id leads way_key in
      cc (apart, (==_iff l.block_id m.block_id).1 (ap (λ (x : LeafNode). x.block_id) one))
]

-- Every answer of a tree after the leaf of one key was rewritten, where the new leaf answers r for
-- this key and for every other key what the old one did.
pub rewritten-Holds :
    (page page' : ℕ → Result Bytes) (key j : Bytes) (r old : Option Bytes) (l l' : LeafNode)
    (levels id : ℕ)
    → IsRewritten page page' l l'
    → Leads page key l levels id
    → ((i : Bytes) → find l' i ≡ (if bytes_equal key i then r else find l i))
    → Holds page levels id j old
    → Holds page' levels id j (if bytes_equal key j then r else old)
rewritten-Holds page page' key j r old l l' levels id w leads new (m, way, found) =
    let (m', way', cases) = Leads-rewritten page page' j l l' m levels id w way in
    let at : (b : Bool) → Option Bytes → Option Bytes = λ b o. if b then r else o in
    (
      m',
      way',
      elim cases [
        | inl (was, is) ↦
            ap (λ x. find x j) is
            ∙ new j
            ∙ ap (at (bytes_equal key j)) (ap (λ x. find x j) (sym was) ∙ found)
        | inr (is, apart) ↦
            ap (λ x. find x j) is
            ∙ found
            ∙ ap (λ b. at b old) (sym (other_key page key j l m levels id leads way apart))
      ],
    )

module _ (P : Pages) (IsGood HasRoom : P.State → Type 0) (view : ℕ → P.State → Result Bytes)
    (law : IsPages P IsGood HasRoom view) where
  -- The store of a new leaf in the place of an old one.
  pub store_leaf :
      (page : ℕ → Result Bytes) (id : ℕ) (b : Bytes) (l l' : LeafNode) (s : P.State)
      → Shows P IsGood HasRoom view law page s
      → page id ≡ ok b
      → IsLeafBlock id l b
      → l'.block_id ≡ l.block_id
      → IsLeafPage l'
      → (s' : P.State) × (page' : ℕ → Result Bytes) × (write_leaf P l' s ≡ (s', ok tt))
        × Shows P IsGood HasRoom view law page' s'
        × IsRewritten page page' l l'
  store_leaf page id b l l' s k h block same p =
      let (bytes, serialized, written) = written_block l' p in
      let named : l.block_id ≡ id = IsLeafBlock-id id l b block in
      let there : page l.block_id ≡ ok b = ap page named ∙ h in
      let (s', runs, stored) =
        law.put_view l'.block_id (block_of block_size bytes) b s k.good
          (length-block_of block_size bytes) (k.pages l'.block_id ∙ ap page same ∙ there) in
      (
        s',
        (λ j. if l.block_id == j then ok (block_of block_size bytes) else page j),
        rw serialized runs,
        record { good = stored.good; pages = λ j. stored.view j ∙ rw (same, k.pages j) refl },
        record {
          old = b;
          there = there;
          held = subst (λ i. IsLeafBlock i l b) (sym named) block;
          new = block_of block_size bytes;
          written = subst (λ i. IsLeafBlock i l' (block_of block_size bytes)) same written;
          pages = λ j. refl;
        },
      )

  -- A call that returned a, after which the leaf l answers r for the key, and for every other key
  -- what it did.
  abbrev pub Rewrites :
      {A : Type 0}
      → (ℕ → Result Bytes)
      → Bytes
      → Option Bytes
      → LeafNode
      → P.State × Result A
      → A
      → Type 0
  Rewrites page key r l out a =
      (s' : P.State) × (page' : ℕ → Result Bytes) × (l' : LeafNode) × (out ≡ (s', ok a))
      × Shows P IsGood HasRoom view law page' s'
      × IsRewritten page page' l l'
      × ((i : Bytes) → find l' i ≡ (if bytes_equal key i then r else find l i))

  pub kept_page :
      (page : ℕ → Result Bytes) (id : ℕ) (b : Bytes) (l : LeafNode)
      → page id ≡ ok b
      → IsLeafBlock id l b
      → IsRewritten page page l l
  kept_page page id b l h block =
      let named : l.block_id ≡ id = IsLeafBlock-id id l b block in
      let there : page l.block_id ≡ ok b = ap page named ∙ h in
      let held = subst (λ i. IsLeafBlock i l b) (sym named) block in
      record {
        old = b;
        there = there;
        held = held;
        new = b;
        written = held;
        pages = λ j. elim (Bool-cases (l.block_id == j)) [
          | inl here ↦ rw here (ap page (sym ((==_iff l.block_id j).0 here)) ∙ there)
          | inr apart ↦ rw apart refl
        ];
      }
