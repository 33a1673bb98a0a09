-- ===== src/Rbtree/Descend.antt =====
-- `rbtree_insert_node` of common/rbtree.c: the way down to a key, or to the empty place for it.
use neftis.Base.{
  ℕ, suc, Bool, true, false, not, ◌&&◌, ◌<◌, ◌≡◌, ◌≢◌, refl, inl, inr, ◌∷◌, arith, ◌==◌, ltb, leb,
  if◌then◌else◌, Bool-cases, ne→==, write,
}
use neftis.Base.Run.{ok}
use neftis.Rbtree.{Ptr, null, Color, rb_red, Store, rbtree_insert_node, rbtree_node_clear}
use neftis.Rbtree.Shape.{Shape, leaf, node, WayUp, in_left, in_right, whole}
use neftis.Rbtree.Rotation.{At}
use neftis.Rbtree.Listing.{Listed, attached_left, attached_right, attach_left-run, attach_right-run}

-- Where a key is, or belongs.
pub data Place : Type 0 where
  found : Ptr → Place
  hole : WayUp → Place

abbrev pub descend : (Ptr → ℕ) → ℕ → WayUp → Shape → Place
descend key k up leaf = hole up
descend key k up (node c l p r) =
    if key p == k
    then found p
    else (if ltb k (key p)
        then descend key k (in_left up c p r) l
        else descend key k (in_right up c l p) r)

abbrev pub height : Shape → ℕ
height leaf = 0
height (node c l p r) = suc (if leb (height l) (height r) then height r else height l)

pub height-left : (c : Color) (l : Shape) (p : Ptr) (r : Shape) → height l < height (node c l p r)
height-left c l p r = ground arith

pub height-right : (c : Color) (l : Shape) (p : Ptr) (r : Shape) → height r < height (node c l p r)
height-right c l p r = ground arith

-- The store after the data of `p` was destroyed and replaced by that of `n`.
abbrev pub overwritten : Ptr → Ptr → Store → Store
overwritten p n s =
    let calls : Bool = not (s.data_of p == null) && s.node_dtor in
    record s {
      destroyed = if calls then s.data_of p ∷ s.destroyed else s.destroyed;
      data_of =
          if calls
          then write (write s.data_of p null) p (s.data_of n)
          else write s.data_of p (s.data_of n);
    }

-- What the insertion does not touch, and the place of the new node in the tree and the list.
pub record Added (s : Store) (n : Ptr) (up : WayUp) (s' : Store) : Type 0 where
  pub parent_of : Ptr
  pub in_place : At s' up (node rb_red leaf n leaf) n parent_of
  pub listed : Listed s' (whole up (node rb_red leaf n leaf))
  pub keys : s'.key ≡ s.key
  pub contents : s'.data_of ≡ s.data_of
  pub caches : s'.cached_node ≡ s.cached_node

abbrev pub Inserts : Store → Ptr → Place → Bool → Store → Type 0
Inserts s n (found p) there s' = (there ≡ true) × (s' ≡ overwritten p n s)
Inserts s n (hole up) there s' = (there ≡ false) × Added s n up s'

-- One step, from the fields it reads.
module _ (fuel : ℕ) (s : Store) (p n : Ptr) (np : p ≢ null) (nn : n ≢ null) where
  pub insert-here :
      (n == p) ≡ false
      → (s.key p == s.key n) ≡ true
      → rbtree_insert_node (suc fuel) p n s ≡ ok true (overwritten p n s)
  unfolding rbtree_insert_node rbtree_node_clear
  insert-here other same = elim (Bool-cases (not (s.data_of p == null) && s.node_dtor)) [
    | inl calls ↦ rw (ne→== p null np, ne→== n null nn, same, calls, other) refl
    | inr silent ↦ rw (ne→== p null np, ne→== n null nn, same, silent) refl
  ]

  module _ (differs : (s.key p == s.key n) ≡ false) where
    pub insert-left_empty :
        ltb (s.key n) (s.key p) ≡ true
        → s.left p ≡ null
        → rbtree_insert_node (suc fuel) p n s ≡ ok false (attached_left p n s)
    unfolding rbtree_insert_node
    insert-left_empty below empty =
        rw (ne→== p null np, ne→== n null nn, differs, below, empty, attach_left-run s p n np nn)
          refl

    pub insert-left :
        ltb (s.key n) (s.key p) ≡ true
        → (s.left p == null) ≡ false
        → rbtree_insert_node (suc fuel) p n s ≡ rbtree_insert_node fuel (s.left p) n s
    unfolding rbtree_insert_node
    insert-left below full = rw (ne→== p null np, ne→== n null nn, differs, below, full)

    pub insert-right_empty :
        ltb (s.key n) (s.key p) ≡ false
        → s.right p ≡ null
        → rbtree_insert_node (suc fuel) p n s ≡ ok false (attached_right p n s)
    unfolding rbtree_insert_node
    insert-right_empty above empty =
        rw (ne→== p null np, ne→== n null nn, differs, above, empty, attach_right-run s p n np nn)
          refl

    pub insert-right :
        ltb (s.key n) (s.key p) ≡ false
        → (s.right p == null) ≡ false
        → rbtree_insert_node (suc fuel) p n s ≡ rbtree_insert_node fuel (s.right p) n s
    unfolding rbtree_insert_node
    insert-right above full = rw (ne→== p null np, ne→== n null nn, differs, above, full)
