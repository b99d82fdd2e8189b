-- ===== src/BTree/Tree/Reads.antt =====
-- internal/btree/btree.go: `get` finds the leaf of the key.
use gothinkdb.Prelude.{ℕ, ◌≡◌, ◌∙◌, refl, sym, ap, Option, some, some_eq}
use gothinkdb.Prelude.Result.{Result, ok}
use gothinkdb.BTree.Bytes.{Bytes}
use gothinkdb.BTree.Leaf.{LeafNode}
use gothinkdb.BTree.Leaf.Laws.{find, get-find}
use gothinkdb.BTree.Internal.{InternalNode, child_for}
use gothinkdb.BTree.Internal.Route.{route, child_for-route}
use gothinkdb.BTree.Pages.{Pages, IsPages}
use gothinkdb.BTree.Tree.{get_from}
use gothinkdb.BTree.Tree.Inner.{IsInternalBlock}
use gothinkdb.BTree.Tree.Leads.{Leads, at_leaf, down}

-- The tree from the node with the id has an answer for the key: a value, or that there is none.
abbrev pub Holds : (ℕ → Result Bytes) → ℕ → ℕ → Bytes → Option Bytes → Type 0
Holds page levels id key r = (l : LeafNode) × Leads page key l levels id × (find l key ≡ r)

-- The child that the search in a node gives is the one whose range holds the key.
pub child_for-routed :
    (key : Bytes) (id child : ℕ) (n : InternalNode) (b : Bytes)
    → IsInternalBlock id n b
    → route n.keys n.children key ≡ some child
    → child_for key n ≡ ok child
child_for-routed key id child n b k r =
    let (c, found, e) = child_for-route key n k.formed in found ∙ ap ok (some_eq (sym e ∙ r))

module _ (P : Pages) (IsGood HasRoom : P.State → Type 0) (view : ℕ → P.State → Result Bytes)
    (law : IsPages P IsGood HasRoom view) where
  -- A good state, and its pages.
  pub record Shows (page : ℕ → Result Bytes) (s : P.State) : Type 0 where
    pub good : IsGood s
    pub pages : (j : ℕ) → view j s ≡ page j

  pub read_page :
      (page : ℕ → Result Bytes) (id : ℕ) (b : Bytes) (s : P.State)
      → Shows page s
      → page id ≡ ok b
      → (s' : P.State) × (P.get id s ≡ (s', ok b)) × Shows page s'
  read_page page id b s k h =
      let (s', runs, good, same) = law.get_view id s k.good in
      (
        s',
        runs ∙ ap (λ r. (s', r)) (k.pages id ∙ h),
        record { good = good; pages = λ j. same j ∙ k.pages j },
      )

  get_from-find :
      (page : ℕ → Result Bytes) (key : Bytes) (l : LeafNode) (levels id : ℕ) (s : P.State)
      → Shows page s
      → Leads page key l levels id
      → (s' : P.State) × (get_from P levels id key s ≡ (s', ok (find l key))) × Shows page s'
  unfolding get_from
  get_from-find page key l _ _ s k (at_leaf levels id b h block) =
      let (s', runs, k') = read_page page id b s k h in
      (s', rw (runs, block.kind, block.read, get-find l key block.page.formed) refl, k')
  get_from-find page key l _ _ s k (down levels id child n b h block way leads) =
      let (s1, runs, k1) = read_page page id b s k h in
      let (s', rest, k') = get_from-find page key l levels child s1 k1 leads in
      (
        s',
        rw (runs, block.kind, block.read, child_for-routed key id child n b block way, rest) refl,
        k',
      )

  -- Where the pages are a tree with an answer for the key, `get` returns the answer, and the pages
  -- are what they were.
  pub get_from-Holds :
      (page : ℕ → Result Bytes) (key : Bytes) (r : Option Bytes) (levels id : ℕ) (s : P.State)
      → Shows page s
      → Holds page levels id key r
      → (s' : P.State) × (get_from P levels id key s ≡ (s', ok r)) × Shows page s'
  get_from-Holds page key r levels id s k (l, leads, found) =
      let (s', runs, k') = get_from-find page key l levels id s k leads in
      (s', runs ∙ ap (λ v. (s', ok v)) found, k')
