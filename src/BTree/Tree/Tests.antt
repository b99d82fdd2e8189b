-- ===== src/BTree/Tree/Tests.antt =====
-- internal/btree/btree.go at a concrete tree: an inner node with two leaves, in a cache over a file.
use gothinkdb.Prelude.{
  ℕ, ◌≡◌, refl, true, false, some, [], ◌∷◌, ◌==◌, arith, length, inl, inr, subst, Bool-cases,
  some_eq, ◌<◌, ◌≤◌, ◌+◌, ◌⊎◌,
}
use gothinkdb.Prelude.Result.{Result, ok}
use gothinkdb.BTree.Bytes.{Bytes, key_lt, bytes_equal}
use gothinkdb.BTree.Leaf.{LeafNode, invalid_block_id}
use gothinkdb.BTree.Leaf.Weight.{weight}
use gothinkdb.BTree.Leaf.Lookup.{lookup}
use gothinkdb.BTree.Internal.{InternalNode}
use gothinkdb.BTree.Internal.Route.{IsInternal, route}
use gothinkdb.BTree.Codec.{block_of, block_size, serialize_internal}
use gothinkdb.BTree.Pages.{IsPages}
use gothinkdb.BTree.Cached.{page_cache, page_cache-IsPages}
use gothinkdb.BTree.Tree.{get_from, put_from, delete_from}
use gothinkdb.BTree.Tree.Weight.{IsLeafPage, IsLeafBlock, written_block, length-block_of}
use gothinkdb.BTree.Tree.Inner.{IsInternalPage, written-IsInternalBlock, key_weight}
use gothinkdb.BTree.Tree.Leads.{Leads, at_leaf, down}
use gothinkdb.BTree.Tree.Reads.{Holds, Shows, get_from-Holds}
use gothinkdb.BTree.Tree.Deletes.{delete_from-Holds}
use gothinkdb.BTree.Tree.Puts.{put_from-Holds}
use gothinkdb.Storage.PageCache.{CacheEntry, PageCache, contains, find_entry}
use gothinkdb.Storage.PageCache.Coherent.{IsBacked, IsCoherent, view}
use gothinkdb.Storage.File.{FileSerializer, file_serializer, block_read}
use gothinkdb.Storage.File.Lawful.{
  IsSound, HasRoom, IsBlock, file_serializer-IsLawful, block_read-answer, block_bytes,
}

abbrev leaf : LeafNode
leaf = record {
  block_id = 2;
  num_keys = 2;
  keys = (1 ∷ []) ∷ (3 ∷ []) ∷ [];
  values = (10 ∷ []) ∷ (30 ∷ []) ∷ [];
  right = 3;
}

leaf-IsLeafPage : IsLeafPage leaf
unfolding key_lt weight
leaf-IsLeafPage = record {
  formed = record {
    sorted = ((refl, tt), (tt, tt));
    paired = refl;
    counted = refl;
    small = omega arith;
  };
  right_short = omega arith;
  fits = omega arith;
}

abbrev leaf_block : Bytes
leaf_block = block_of block_size (written_block leaf leaf-IsLeafPage).0

leaf_block-IsLeafBlock : IsLeafBlock 2 leaf leaf_block
leaf_block-IsLeafBlock = (written_block leaf leaf-IsLeafPage).2

abbrev root : InternalNode
root = record { block_id = 1; num_keys = 1; keys = (5 ∷ []) ∷ []; children = 2 ∷ 3 ∷ [] }

abbrev root_block : Bytes
root_block = block_of block_size (serialize_internal root)

root-IsInternal : IsInternal root
unfolding key_lt
root-IsInternal = record { sorted = (tt, tt); fanout = refl; counted = refl; small = omega arith }

root-IsInternalPage : IsInternalPage root
unfolding key_weight
root-IsInternalPage = record {
  formed = root-IsInternal;
  ids = (omega arith, (omega arith, tt));
  fits = omega arith;
}

abbrev opened : FileSerializer
opened = record {
  file = record { content = λ i. 0; size = 12288 };
  next_id = 3;
  closed = false;
  block_count = 0;
}

opened-IsSound : IsSound opened
opened-IsSound = record { started = omega arith; filled = inr (omega arith) }

abbrev root_entry : CacheEntry Bytes
root_entry = record { id = 1; block = root_block; dirty = true }

abbrev leaf_entry : CacheEntry Bytes
leaf_entry = record { id = 2; block = leaf_block; dirty = true }

abbrev cache : PageCache file_serializer
cache = record {
  cached = 1 ∷ 2 ∷ [];
  lru = root_entry ∷ leaf_entry ∷ [];
  max_size = 2;
  store = opened;
  hits = 0;
  misses = 0;
}

entry-IsBacked :
    (e : CacheEntry Bytes)
    → IsBlock e.block
    → e.dirty ≡ true
    → block_read e.id opened ≡ ok (block_bytes e.id opened.file)
    → IsBacked file_serializer IsBlock e opened
entry-IsBacked e sized dirty there = record {
  sized = sized;
  old = block_bytes e.id opened.file;
  there = there;
  clean = λ clean. cc;
}

root_entry-IsBacked : IsBacked file_serializer IsBlock root_entry opened
root_entry-IsBacked =
    entry-IsBacked root_entry (length-block_of block_size (serialize_internal root)) refl
      (block_read-answer 1 opened opened-IsSound)

leaf_entry-IsBacked : IsBacked file_serializer IsBlock leaf_entry opened
leaf_entry-IsBacked =
    entry-IsBacked leaf_entry (length-block_of block_size (written_block leaf leaf-IsLeafPage).0)
      refl (block_read-answer 2 opened opened-IsSound)

entry_of :
    (id : ℕ) (e : CacheEntry Bytes)
    → find_entry id cache.lru ≡ some e
    → (root_entry ≡ e) ⊎ (leaf_entry ≡ e)
unfolding find_entry
entry_of id e h = elim (Bool-cases (1 == id)) [
  | inl first ↦ inl (some_eq (rw first at h))
  | inr other ↦ elim (Bool-cases (2 == id)) [
    | inl second ↦ inr (some_eq (rw (other, second) at h))
    | inr none_left ↦ cc (rw (other, none_left) at h)
  ]
]

cache-IsCoherent : IsCoherent file_serializer IsBlock IsSound cache
unfolding contains find_entry
cache-IsCoherent = record {
  sound = opened-IsSound;
  positive = omega arith;
  unique = (refl, (refl, tt));
  keys = λ id. ground arith;
  backed = λ id e found. elim (entry_of id e found) [
    | inl first ↦ subst (λ d. IsBacked file_serializer IsBlock d opened) first root_entry-IsBacked
    | inr second ↦ subst (λ d. IsBacked file_serializer IsBlock d opened) second leaf_entry-IsBacked
  ];
}

abbrev law :
    IsPages
      (page_cache file_serializer)
      (IsCoherent file_serializer IsBlock IsSound)
      (λ c. HasRoom c.store)
      (view file_serializer)
law = page_cache-IsPages file_serializer IsSound HasRoom file_serializer-IsLawful

page_cache-IsPages_example :
    IsPages
      (page_cache file_serializer)
      (IsCoherent file_serializer IsBlock IsSound)
      (λ c. HasRoom c.store)
      (view file_serializer)
page_cache-IsPages_example =
    page_cache-IsPages file_serializer IsSound HasRoom file_serializer-IsLawful

abbrev page : ℕ → Result Bytes
page j = view file_serializer j cache

cache-Shows :
    Shows
      (page_cache file_serializer)
      (IsCoherent file_serializer IsBlock IsSound)
      (λ c. HasRoom c.store)
      (view file_serializer)
      law
      page
      cache
cache-Shows = record { good = cache-IsCoherent; pages = λ j. refl }

-- The key 3 leads through the root to the leaf.
three-Leads : Leads page (3 ∷ []) leaf 2 1
unfolding view contains find_entry route key_lt
three-Leads =
    down 1 1 2 root root_block refl (written-IsInternalBlock root root-IsInternalPage) refl
      (at_leaf 0 2 leaf_block refl leaf_block-IsLeafBlock)

three-Holds : Holds page 2 1 (3 ∷ []) (some (30 ∷ []))
unfolding lookup bytes_equal
three-Holds = (leaf, three-Leads, refl)

get_from-Holds_example : get_from (page_cache file_serializer) 2 1 (3 ∷ []) cache ≡ (
  (get_from-Holds
      (page_cache file_serializer)
      (IsCoherent file_serializer IsBlock IsSound)
      (λ c. HasRoom c.store)
      (view file_serializer)
      law
      page
      (3 ∷ [])
      (some (30 ∷ []))
      2
      1
      cache
      cache-Shows
      three-Holds).0,
  ok (some (30 ∷ [])),
)
get_from-Holds_example =
    (get_from-Holds (page_cache file_serializer) (IsCoherent file_serializer IsBlock IsSound)
      (λ c. HasRoom c.store) (view file_serializer) law page (3 ∷ []) (some (30 ∷ [])) 2 1 cache
      cache-Shows three-Holds).1

delete_from-Holds_example : delete_from (page_cache file_serializer) 2 1 (3 ∷ []) cache ≡ (
  (delete_from-Holds
      (page_cache file_serializer)
      (IsCoherent file_serializer IsBlock IsSound)
      (λ c. HasRoom c.store)
      (view file_serializer)
      law
      page
      (3 ∷ [])
      leaf
      2
      1
      cache
      cache-Shows
      three-Leads).0,
  ok tt,
)
delete_from-Holds_example =
    (delete_from-Holds (page_cache file_serializer) (IsCoherent file_serializer IsBlock IsSound)
      (λ c. HasRoom c.store) (view file_serializer) law page (3 ∷ []) leaf 2 1 cache cache-Shows
      three-Leads).2

few : length leaf.keys + 1 < 50
few = omega arith

light : 11 + 1 + 1 + weight leaf.keys leaf.values ≤ block_size
unfolding weight
light = omega arith

put_from-Holds_example : put_from (page_cache file_serializer) 2 1 1 (3 ∷ []) (33 ∷ []) cache ≡ (
  (put_from-Holds
      (page_cache file_serializer)
      (IsCoherent file_serializer IsBlock IsSound)
      (λ c. HasRoom c.store)
      (view file_serializer)
      law
      page
      1
      (3 ∷ [])
      (33 ∷ [])
      leaf
      2
      1
      cache
      cache-Shows
      three-Leads
      few
      light).0,
  ok (invalid_block_id, []),
)
put_from-Holds_example =
    (put_from-Holds (page_cache file_serializer) (IsCoherent file_serializer IsBlock IsSound)
      (λ c. HasRoom c.store) (view file_serializer) law page 1 (3 ∷ []) (33 ∷ []) leaf 2 1 cache
      cache-Shows three-Leads few light).2
