-- ===== src/BTree/Tree/Deletes.antt =====
-- internal/btree/btree.go: `delete`.
use gothinkdb.Prelude.{
  ℕ, suc, ◌^◌, ◌<◌, ◌≡◌, refl, sym, Option, none, if◌then◌else◌, Bool-cases, inl, inr, arith, subst,
}
use gothinkdb.Prelude.Result.{Result, ok}
use gothinkdb.BTree.Bytes.{Bytes, bytes_equal, bytes_equal→eq}
use gothinkdb.BTree.Leaf.{LeafNode}
use gothinkdb.BTree.Leaf.Laws.{find, delete-Deleted, is_some}
use gothinkdb.BTree.Pages.{Pages, IsPages}
use gothinkdb.BTree.Tree.{delete_from}
use gothinkdb.BTree.Tree.Weight.{IsLeafPage, IsLeafBlock}
use gothinkdb.BTree.Tree.Leads.{Leads, at_leaf, down}
use gothinkdb.BTree.Tree.Reads.{Holds, Shows, read_page, child_for-routed}
use gothinkdb.BTree.Tree.Writes.{Rewrites, rewritten-Holds, store_leaf, kept_page}

module _ (P : Pages) (IsGood HasRoom : P.State → Type 0) (view : ℕ → P.State → Result Bytes)
    (law : IsPages P IsGood HasRoom view) where
  delete_leaf :
      (page : ℕ → Result Bytes) (key : Bytes) (l : LeafNode) (levels id : ℕ) (b : Bytes)
      (s : P.State)
      → Shows P IsGood HasRoom view law page s
      → page id ≡ ok b
      → IsLeafBlock id l b
      → Rewrites P IsGood HasRoom view law page key none l (delete_from P (suc levels) id key s) tt
  unfolding delete_from
  delete_leaf page key l levels id b s k h block =
      let (s1, runs, k1) = read_page P IsGood HasRoom view law page id b s k h in
      let (l', deletes, d) = delete-Deleted key l block.page.formed in
      elim (Bool-cases (is_some (find l key))) [
        | inl held ↦
            let p : IsLeafPage l' = record {
              formed = d.formed;
              right_short = subst (λ r. r < 2 ^ 32) (sym d.same_right) block.page.right_short;
              fits = omega (arith, d.weight, block.page.fits);
            } in
            let (s', page', writes, shows, rewritten) =
              store_leaf P IsGood HasRoom view law page id b l l' s1 k1 h block d.same_id p in
            (
              s',
              page',
              l',
              rw (runs, block.kind, block.read, deletes, held, writes) refl,
              shows,
              rewritten,
              d.found,
            )
        | inr missing ↦ (
          s1,
          page,
          l,
          rw (runs, block.kind, block.read, deletes, missing) refl,
          k1,
          kept_page P IsGood HasRoom view law page id b l h block,
          λ i. ground (arith, bytes_equal→eq key i),
        )
      ]

  delete_from-Rewrites :
      (page : ℕ → Result Bytes) (key : Bytes) (l : LeafNode) (levels id : ℕ) (s : P.State)
      → Shows P IsGood HasRoom view law page s
      → Leads page key l levels id
      → Rewrites P IsGood HasRoom view law page key none l (delete_from P levels id key s) tt
  unfolding delete_from
  delete_from-Rewrites page key l _ _ s k (at_leaf levels id b h block) =
      delete_leaf page key l levels id b s k h block
  delete_from-Rewrites page key l _ _ s k (down levels id child n b h block way leads) =
      let (s1, runs, k1) = read_page P IsGood HasRoom view law page id b s k h in
      let (s', page', l', rest, shows, w, found) =
        delete_from-Rewrites page key l levels child s1 k1 leads in
      (
        s',
        page',
        l',
        rw (runs, block.kind, block.read, child_for-routed key id child n b block way, rest) refl,
        shows,
        w,
        found,
      )

  -- Where the pages are a tree in which the key leads to a leaf, `delete` succeeds. In the tree that
  -- it leaves there is no value for the key, and every other key has the answer that it had.
  pub delete_from-Holds :
      (page : ℕ → Result Bytes) (key : Bytes) (l : LeafNode) (levels id : ℕ) (s : P.State)
      → Shows P IsGood HasRoom view law page s
      → Leads page key l levels id
      → (s' : P.State) × (page' : ℕ → Result Bytes) × (delete_from P levels id key s ≡ (s', ok tt))
        × Shows P IsGood HasRoom view law page' s'
        × ((j : Bytes) (r : Option Bytes)
            → Holds page levels id j r
            → Holds page' levels id j (if bytes_equal key j then none else r))
  delete_from-Holds page key l levels id s k leads =
      let (s', page', l', runs, shows, w, found) =
        delete_from-Rewrites page key l levels id s k leads in
      (
        s',
        page',
        runs,
        shows,
        λ j r. rewritten-Holds page page' key j none r l l' levels id w leads found,
      )
