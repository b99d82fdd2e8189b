-- ===== src/BTree/Internal/Route.antt =====
-- The way that an internal node sends a key.
use gothinkdb.Prelude.{
  ℕ, zero, suc, ◌+◌, ◌≤◌, ◌<◌, ◌≡◌, ◌∙◌, refl, sym, true, false, ◌&&◌, Option, some, none, List, [],
  ◌∷◌, ◌++◌, ◌==◌, length, get_elem?, take, drop, if◌then◌else◌, arith, Bool-cases, inl, inr,
  length-take, length-drop, length-append, le→leb, get_elem?-some,
}
use native.Mathlib.Numerals.{add-one}
use gothinkdb.Prelude.Result.{ok}
use gothinkdb.BTree.Bytes.{
  Bytes, key_lt, key_le, key_lt_trans, bytes_equal, key_lt_total, bytes_equal_refl,
}
use gothinkdb.BTree.Search.{prefix_length, prefix_length-le}
use gothinkdb.BTree.Sorted.{IsSorted, AllAbove, AllAbove-trans, upper_bound, find_child-upper_bound}
use gothinkdb.BTree.Leaf.{insert_at, to_u16}
use gothinkdb.BTree.Internal.{InternalNode, max_internal_keys, is_full, child_for, insert}

-- The child whose range holds the key: the reference, which reads from the left.
unfoldable pub route : List Bytes → List ℕ → Bytes → Option ℕ
route ks [] key = none
route [] (c ∷ cs) key = some c
route (k ∷ ks) (c ∷ cs) key = if key_lt key k then some c else route ks cs key

-- A well-formed internal node: rising keys, one child more than keys, and the count right.
pub record IsInternal (n : InternalNode) : Type 0 where
  pub sorted : IsSorted n.keys
  pub fanout : length n.children ≡ suc (length n.keys)
  pub counted : n.num_keys ≡ length n.keys
  pub small : length n.children ≤ max_internal_keys + 1

below-upper_bound :
    (key b : Bytes) (ks : List Bytes) → AllAbove b ks → key_lt key b ≡ true → upper_bound ks key ≡ 0
unfolding prefix_length
below-upper_bound key b [] h p = refl
below-upper_bound key b (k ∷ ks) h p = ground (arith, key_lt_trans key b k p h.0)

route-upper_bound :
    (ks : List Bytes) (cs : List ℕ) (key : Bytes)
    → length cs ≡ suc (length ks)
    → get_elem? cs (upper_bound ks key) ≡ route ks cs key
unfolding route prefix_length
route-upper_bound ks [] key e = absurd (omega arith)
route-upper_bound [] (c ∷ cs) key e = refl
route-upper_bound (k ∷ ks) (c ∷ cs) key e = ground (arith, route-upper_bound ks cs key)

bound-le : (keys : List Bytes) (key : Bytes) → upper_bound keys key ≤ length keys
bound-le keys key = prefix_length-le (λ k. key_le k key) keys

route-some :
    (ks : List Bytes) (cs : List ℕ) (key : Bytes)
    → length cs ≡ suc (length ks)
    → (c : ℕ) × (route ks cs key ≡ some c)
route-some ks cs key e =
    let (c, p) = get_elem?-some cs (upper_bound ks key) (omega (arith, bound-le ks key)) in
    (c, sym (route-upper_bound ks cs key e) ∙ p)

-- On a well-formed node the search for a child ends, and gives the child whose range holds the key.
pub child_for-route :
    (key : Bytes) (n : InternalNode)
    → IsInternal n
    → (c : ℕ) × (child_for key n ≡ ok c) × (route n.keys n.children key ≡ some c)
unfolding child_for
child_for-route key n w =
    let (c, p) = route-some n.keys n.children key w.fanout in
    (
      c,
      rw (
        find_child-upper_bound n.keys key w.sorted,
        route-upper_bound n.keys n.children key w.fanout,
        p,
      ),
      p,
    )

-- The separator is not one of the keys.
abbrev pub IsNew : Bytes → List Bytes → Type 0
IsNew key [] = Unit {0}
IsNew key (k ∷ ks) = (bytes_equal k key ≡ false) × IsNew key ks

-- A new separator with a new child to its right: the keys of its range from the separator on go to
-- the new child, and all others as before.
route-insert :
    (ks : List Bytes) (cs : List ℕ) (sep j : Bytes) (right : ℕ)
    → IsSorted ks
    → IsNew sep ks
    → length cs ≡ suc (length ks)
    → route
        (take (upper_bound ks sep) ks ++ sep ∷ drop (upper_bound ks sep) ks)
        (take (suc (upper_bound ks sep)) cs ++ right ∷ drop (suc (upper_bound ks sep)) cs)
        j
      ≡ (if upper_bound ks j == upper_bound ks sep && key_le sep j
          then some right
          else route ks cs j)
unfolding route prefix_length
route-insert ks [] sep j right s new e = absurd (omega arith)
route-insert [] (c ∷ []) sep j right s new e = ground arith
route-insert [] (c ∷ (d ∷ cs)) sep j right s new e = absurd (omega arith)
route-insert (k ∷ ks) (c ∷ []) sep j right s new e = absurd (omega arith)
route-insert (k ∷ ks) (c ∷ (d ∷ cs)) sep j right s new e = elim (Bool-cases (key_lt sep k)) [
  | inl p ↦ rw p (ground (arith, key_lt_trans j sep k))
  | inr p ↦ rw p (ground (arith, route-insert ks (d ∷ cs) sep j right s.1 new.1 (omega arith)))
]

key_lt-other' : (a b : Bytes) → key_lt b a ≡ false → bytes_equal a b ≡ false → key_lt a b ≡ true
key_lt-other' a b h k = ground (arith, key_lt_total b a, bytes_equal_refl a)

length-insert {ℓ} :
    {A : Type ℓ} (i : ℕ) (x : A) (xs : List A) → length (take i xs ++ x ∷ drop i xs) ≡ length xs + 1
length-insert i x xs = omega (
  arith,
  length-append {ℓ} (take i xs) (x ∷ drop i xs),
  length-take {ℓ} i xs,
  length-drop {ℓ} i xs,
)

not_full : (n : InternalNode) → is_full n ≡ false → length n.children < max_internal_keys + 1
unfolding is_full
not_full n h = ground arith

AllAbove-insert :
    (n : ℕ) (b key : Bytes) (ks : List Bytes)
    → AllAbove b ks
    → key_lt b key ≡ true
    → AllAbove b (take n ks ++ key ∷ drop n ks)
AllAbove-insert zero b key ks h p = (p, h)
AllAbove-insert (suc n) b key [] h p = (p, tt)
AllAbove-insert (suc n) b key (k ∷ ks) h p = (h.0, AllAbove-insert n b key ks h.1 p)

IsSorted-insert :
    (ks : List Bytes) (key : Bytes)
    → IsSorted ks
    → IsNew key ks
    → IsSorted (take (upper_bound ks key) ks ++ key ∷ drop (upper_bound ks key) ks)
unfolding prefix_length
IsSorted-insert [] key s new = (tt, tt)
IsSorted-insert (k ∷ ks) key s new = elim (Bool-cases (key_lt key k)) [
  | inl p ↦ rw p ((p, AllAbove-trans key k ks p s.0), s)
  | inr p ↦ rw p (
    AllAbove-insert (upper_bound ks key) k key ks s.0 (key_lt-other' k key p new.0),
    IsSorted-insert ks key s.1 new.1,
  )
]

-- A node with one more separator and one more child.
pub record Inserted (sep : Bytes) (right : ℕ) (n n' : InternalNode) : Type 0 where
  pub sorted : IsSorted n'.keys
  pub fanout : length n'.children ≡ suc (length n'.keys)
  pub counted : n'.num_keys ≡ length n'.keys
  pub small : length n'.children ≤ max_internal_keys + 1
  pub routed :
      (key : Bytes)
      → route n'.keys n'.children key ≡ (
          if upper_bound n.keys key == upper_bound n.keys sep && key_le sep key
          then some right
          else route n.keys n.children key)
  pub same_id : n'.block_id ≡ n.block_id

pub extended : Bytes → ℕ → InternalNode → InternalNode
extended sep right n =
    let p = upper_bound n.keys sep in
    record n {
      keys = take p n.keys ++ sep ∷ drop p n.keys;
      children = take (suc p) n.children ++ right ∷ drop (suc p) n.children;
      num_keys = to_u16 (n.num_keys + 1);
    }

insert-extended :
    (sep : Bytes) (right : ℕ) (n : InternalNode)
    → IsInternal n
    → is_full n ≡ false
    → insert sep right n ≡ ok (extended sep right n)
unfolding insert insert_at extended
insert-extended sep right n w room =
    let p = upper_bound n.keys sep in
    let fits = bound-le n.keys sep in
    rw (
      room,
      find_child-upper_bound n.keys sep w.sorted,
      le→leb p (length n.keys) fits,
      add-one p,
      le→leb (suc p) (length n.children) (omega (arith, w.fanout)),
    )

-- `Insert` of a new separator into a well-formed node that is not full succeeds, and the node is
-- well-formed again. The keys of the separator's range, from the separator on, go to the new child;
-- every other key goes where it went.
pub insert_child-Inserted :
    (sep : Bytes) (right : ℕ) (n : InternalNode)
    → IsInternal n
    → is_full n ≡ false
    → IsNew sep n.keys
    → (n' : InternalNode) × (insert sep right n ≡ ok n') × Inserted sep right n n'
insert_child-Inserted sep right n w room new =
    let p = upper_bound n.keys sep in
    let keys_long = length-insert p sep n.keys in
    let children_long = length-insert (suc p) right n.children in
    (
      extended sep right n,
      insert-extended sep right n w room,
      unfold extended in
          record {
            sorted = IsSorted-insert n.keys sep w.sorted new;
            fanout = omega (arith, w.fanout);
            counted = omega (arith, w.counted, w.fanout, w.small);
            small = omega (arith, not_full n room);
            routed = λ key. route-insert n.keys n.children sep key right w.sorted new w.fanout;
            same_id = refl;
          },
    )
