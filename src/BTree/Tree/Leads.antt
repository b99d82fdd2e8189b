-- ===== src/BTree/Tree/Leads.antt =====
-- internal/btree/btree.go: the way from a node down to the leaf of a key.
use gothinkdb.Prelude.{
  ℕ, suc, ◌≡◌, ◌∙◌, refl, sym, ap, false, some, ◌==◌, ==_iff, if◌then◌else◌, Bool-cases, inl, inr,
  ltb, length, ◌+◌, [], ◌∷◌, ◌⊎◌, subst,
}
use gothinkdb.Prelude.Result.{Result, ok, ok_eq}
use gothinkdb.BTree.Bytes.{Bytes}
use gothinkdb.BTree.Leaf.{LeafNode}
use gothinkdb.BTree.Internal.{InternalNode}
use gothinkdb.BTree.Internal.Route.{route}
use gothinkdb.BTree.Codec.{deserialize_leaf, leaf_body}
use gothinkdb.BTree.Tree.{is_leaf_block}
use gothinkdb.BTree.Tree.Inner.{IsInternalBlock}
use gothinkdb.BTree.Tree.Weight.{IsLeafBlock}

-- From the node with the id, the key leads to the leaf l, within a number of levels: through
-- internal nodes, each time to the child whose range holds the key.
pub data Leads (page : ℕ → Result Bytes) (key : Bytes) (l : LeafNode) : ℕ → ℕ → Type 0 where
  at_leaf :
      (levels id : ℕ) (b : Bytes)
      → page id ≡ ok b
      → IsLeafBlock id l b
      → Leads page key l (suc levels) id
  down :
      (levels id child : ℕ) (n : InternalNode) (b : Bytes)
      → page id ≡ ok b
      → IsInternalBlock id n b
      → route n.keys n.children key ≡ some child
      → Leads page key l levels child
      → Leads page key l (suc levels) id

-- There is one leaf for a key.
pub Leads-unique :
    (page : ℕ → Result Bytes) (key : Bytes) (l l' : LeafNode) (levels id : ℕ)
    → Leads page key l levels id
    → Leads page key l' levels id
    → l ≡ l'
Leads-unique page key l l' _ _ (at_leaf levels id b h k) (at_leaf _ _ b' h' k') = cc
Leads-unique page key l l' _ _ (at_leaf levels id b h k) (down _ _ child n b' h' k' r d) = cc
Leads-unique page key l l' _ _ (down levels id child n b h k r d) (at_leaf _ _ b' h' k') = cc
Leads-unique page key l l' _ _ (down levels id child n b h k r d)
      (down _ _ child' n' b' h' k' r' d') =
    let same : child' ≡ child = cc in
    Leads-unique page key l l' levels child d (subst (Leads page key l' levels) same d')

-- A leaf has the id that it is read under.
pub IsLeafBlock-id : (id : ℕ) (n : LeafNode) (b : Bytes) → IsLeafBlock id n b → n.block_id ≡ id
unfolding is_leaf_block deserialize_leaf leaf_body
IsLeafBlock-id id n [] k = cc (k.kind)
IsLeafBlock-id id n (kind ∷ bytes) k = elim (Bool-cases (ltb (length bytes + 1) 7)) [
  | inl short ↦ cc (k.read, short)
  | inr long ↦
      let e : ok (leaf_body id bytes) ≡ ok n = rw (long, k.kind) at k.read in
      ap (λ (m : LeafNode). m.block_id) (sym (ok_eq e))
]

-- What the page of one leaf is after a write.
pub record IsRewritten (page page' : ℕ → Result Bytes) (l l' : LeafNode) : Type 0 where
  pub old : Bytes
  pub there : page l.block_id ≡ ok old
  pub held : IsLeafBlock l.block_id l old
  pub new : Bytes
  pub written : IsLeafBlock l.block_id l' new
  pub pages : (j : ℕ) → page' j ≡ (if l.block_id == j then ok new else page j)

-- The leaf that a key leads to after the write: the new one, or the one that it was.
abbrev pub Follows :
    (page' : ℕ → Result Bytes) (key : Bytes) (l l' m : LeafNode) (levels id : ℕ) → Type 0
Follows page' key l l' m levels id =
    (m' : LeafNode) × Leads page' key m' levels id
    × (((m ≡ l) × (m' ≡ l')) ⊎ ((m' ≡ m) × ((l.block_id == m.block_id) ≡ false)))

at_written :
    (page page' : ℕ → Result Bytes) (key : Bytes) (l l' : LeafNode) (levels : ℕ)
    → IsRewritten page page' l l'
    → Leads page' key l' (suc levels) l.block_id
at_written page page' key l l' levels w =
    at_leaf levels l.block_id w.new
      (w.pages l.block_id ∙ rw ((==_iff l.block_id l.block_id).1 refl) refl) w.written

not_a_leaf :
    (page page' : ℕ → Result Bytes) (l l' : LeafNode) (id : ℕ) (n : InternalNode) (b : Bytes)
    → IsRewritten page page' l l'
    → page id ≡ ok b
    → IsInternalBlock id n b
    → (l.block_id == id) ≡ false
not_a_leaf page page' l l' id n b w h k = elim (Bool-cases (l.block_id == id)) [
  | inr apart ↦ apart
  | inl here ↦ cc (w.there, w.held.kind, k.kind, (==_iff l.block_id id).0 here, h)
]

pub Leads-rewritten :
    (page page' : ℕ → Result Bytes) (key : Bytes) (l l' m : LeafNode) (levels id : ℕ)
    → IsRewritten page page' l l'
    → Leads page key m levels id
    → Follows page' key l l' m levels id
Leads-rewritten page page' key l l' m _ _ w (at_leaf levels id b h k) =
    elim (Bool-cases (l.block_id == id)) [
      | inl here ↦
          let same : l.block_id ≡ id = (==_iff l.block_id id).0 here in
          let there : page id ≡ ok w.old = subst (λ i. page i ≡ ok w.old) same w.there in
          let held : deserialize_leaf id w.old ≡ ok l =
            subst (λ i. deserialize_leaf i w.old ≡ ok l) same w.held.read in
          (
            l',
            subst (Leads page' key l' (suc levels)) same (at_written page page' key l l' levels w),
            inl (cc, refl),
          )
      | inr apart ↦ (
        m,
        at_leaf levels id b (w.pages id ∙ rw apart h) k,
        inr (refl, ap (λ i. l.block_id == i) (IsLeafBlock-id id m b k) ∙ apart),
      )
    ]
Leads-rewritten page page' key l l' m _ _ w (down levels id child n b h k r d) =
    let (m', leads, cases) = Leads-rewritten page page' key l l' m levels child w d in
    let kept = w.pages id ∙ rw (not_a_leaf page page' l l' id n b w h k) h in
    (m', down levels id child n b kept k r leads, cases)
