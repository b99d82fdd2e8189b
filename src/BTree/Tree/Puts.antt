-- ===== src/BTree/Tree/Puts.antt =====
-- internal/btree/btree.go: `put`, where no node is split.
use gothinkdb.Prelude.{
  ℕ, suc, ◌+◌, ◌^◌, ◌<◌, ◌≤◌, ◌≡◌, refl, sym, false, Option, some, [], if◌then◌else◌, arith, length,
  subst,
}
use gothinkdb.Prelude.Result.{Result, ok}
use gothinkdb.BTree.Bytes.{Bytes, bytes_equal}
use gothinkdb.BTree.Leaf.{LeafNode, max_leaf_keys, is_full, invalid_block_id}
use gothinkdb.BTree.Leaf.Weight.{weight}
use gothinkdb.BTree.Leaf.Laws.{insert-Inserted}
use gothinkdb.BTree.Codec.{block_size}
use gothinkdb.BTree.Pages.{Pages, IsPages}
use gothinkdb.BTree.Tree.{put_from, put_leaf, put_child}
use gothinkdb.BTree.Tree.Weight.{IsLeafPage, IsLeafBlock}
use gothinkdb.BTree.Tree.Leads.{Leads, at_leaf, down}
use gothinkdb.BTree.Tree.Reads.{Holds, Shows, read_page, child_for-routed}
use gothinkdb.BTree.Tree.Writes.{Rewrites, rewritten-Holds, store_leaf}

module _ (P : Pages) (IsGood HasRoom : P.State → Type 0) (view : ℕ → P.State → Result Bytes)
    (law : IsPages P IsGood HasRoom view) where
  put_leaf-Rewrites :
      (page : ℕ → Result Bytes) (root : ℕ) (key value : Bytes) (l : LeafNode) (levels id : ℕ)
      (b : Bytes) (s : P.State)
      → Shows P IsGood HasRoom view law page s
      → page id ≡ ok b
      → IsLeafBlock id l b
      → length l.keys + 1 < max_leaf_keys
      → 11 + length key + length value + weight l.keys l.values ≤ block_size
      → Rewrites P IsGood HasRoom view law page key
          (some value)
          l
          (put_from P (suc levels) root id key value s)
          (invalid_block_id, [])
  unfolding put_from put_leaf is_full
  put_leaf-Rewrites page root key value l levels id b s k h block few light =
      let (s1, runs, k1) = read_page P IsGood HasRoom view law page id b s k h in
      let open_leaf : is_full l ≡ false = ground arith in
      let (l', inserts, i) = insert-Inserted key value l block.page.formed open_leaf in
      let still_open : is_full l' ≡ false = ground (arith, i.count) in
      let p : IsLeafPage l' = record {
        formed = i.formed;
        right_short = subst (λ r. r < 2 ^ 32) (sym i.same_right) block.page.right_short;
        fits = omega (arith, i.weight);
      } in
      let (s', page', writes, shows, w) =
        store_leaf P IsGood HasRoom view law page id b l l' s1 k1 h block i.same_id p in
      (
        s',
        page',
        l',
        rw (runs, block.kind, block.read, inserts, writes, still_open) refl,
        shows,
        w,
        i.found,
      )

  put_from-Rewrites :
      (page : ℕ → Result Bytes) (root : ℕ) (key value : Bytes) (l : LeafNode) (levels id : ℕ)
      (s : P.State)
      → Shows P IsGood HasRoom view law page s
      → Leads page key l levels id
      → length l.keys + 1 < max_leaf_keys
      → 11 + length key + length value + weight l.keys l.values ≤ block_size
      → Rewrites P IsGood HasRoom view law page key
          (some value)
          l
          (put_from P levels root id key value s)
          (invalid_block_id, [])
  unfolding put_from put_child
  put_from-Rewrites page root key value l _ _ s k (at_leaf levels id b h block) few light =
      put_leaf-Rewrites page root key value l levels id b s k h block few light
  put_from-Rewrites page root key value l _ _ s k (down levels id child n b h block way leads) few
        light =
      let (s1, runs, k1) = read_page P IsGood HasRoom view law page id b s k h in
      let (s', page', l', rest, shows, w, found) =
        put_from-Rewrites page root key value l levels child s1 k1 leads few light in
      (
        s',
        page',
        l',
        rw (runs, block.kind, block.read, child_for-routed key id child n b block way, rest) refl,
        shows,
        w,
        found,
      )

  -- Where the pages are a tree in which the key leads to a leaf that is not about to be full and whose
  -- block has room for the pair, `put` succeeds and splits no node. In the tree that it leaves the
  -- key has the value, and every other key has the answer that it had.
  pub put_from-Holds :
      (page : ℕ → Result Bytes) (root : ℕ) (key value : Bytes) (l : LeafNode) (levels id : ℕ)
      (s : P.State)
      → Shows P IsGood HasRoom view law page s
      → Leads page key l levels id
      → length l.keys + 1 < max_leaf_keys
      → 11 + length key + length value + weight l.keys l.values ≤ block_size
      → (s' : P.State) × (page' : ℕ → Result Bytes) × (put_from P levels root id key value s
          ≡ (s', ok (invalid_block_id, [])))
        × Shows P IsGood HasRoom view law page' s'
        × ((j : Bytes) (r : Option Bytes)
            → Holds page levels id j r
            → Holds page' levels id j (if bytes_equal key j then some value else r))
  put_from-Holds page root key value l levels id s k leads few light =
      let (s', page', l', runs, shows, w, found) =
        put_from-Rewrites page root key value l levels id s k leads few light in
      (
        s',
        page',
        runs,
        shows,
        λ j r. rewritten-Holds page page' key j (some value) r l l' levels id w leads found,
      )
