-- ===== src/Rbtree.antt =====
-- common/rbtree.c and common/include/misc/rbtree.h: a tree of nodes with keys, which are also linked
-- in the order of the keys, and a cache of the last search. The state holds one tree and its nodes;
-- `owner` is that tree. A key is an `int64_t` counted from -2^63: keys are only compared. What
-- `kalloc` returns is an argument.
mod Shape
mod Tests
mod Height
mod Clear
mod Lookup
mod Nearest
mod Search
mod Insertion
mod Invariant
mod Way
mod Entries
mod Sorted
mod Placing
mod Descend
mod Attach
mod Listing
mod Inorder
mod RedBlack
mod Rebalance
mod Inner
mod Outer
mod Fix
mod Uncle
mod Cases
mod Paint
mod Rotation
mod Turn
mod Rotate
mod Balance
mod Operations
use neftis.Base.{
  ℕ, zero, suc, Bool, true, false, not, ◌&&◌, ◌==◌, ltb, if◌then◌else◌, List, [], ◌∷◌, write,
}
use neftis.Base.Run.{Cmd, out_of_fuel, pure, ◌>>=◌, ◌>>◌, assert, gets, modify}

abbrev pub Ptr : Type 0
Ptr = ℕ

abbrev pub null : Ptr
null = 0

pub data Color : Type 0 where
  rb_red : Color
  rb_black : Color

pub data SearchMode : Type 0 where
  rb_leftwards : SearchMode
  rb_exact : SearchMode
  rb_rightwards : SearchMode

-- `rbtree_t`, the nodes field by field, and the trace of what was given to the destructor and freed.
pub record Store : Type 0 where
  pub root : Ptr
  pub first : Ptr
  pub last : Ptr
  pub cached_key : ℕ
  pub cached_node : Ptr
  pub cached_mode : SearchMode
  pub node_dtor : Bool
  pub color : Ptr → Color
  pub key : Ptr → ℕ
  pub parent : Ptr → Ptr
  pub left : Ptr → Ptr
  pub right : Ptr → Ptr
  pub prev : Ptr → Ptr
  pub next : Ptr → Ptr
  pub data_of : Ptr → ℕ
  pub destroyed : List ℕ
  pub freed : List Ptr

-- A read or a write of a node's field; NULL has none.
abbrev pub get : {A : Type 0} → (Store → Ptr → A) → Ptr → Cmd Store A
get field p = do assert (not (p == null)); gets (λ s. field s p)

abbrev pub set_left : Ptr → Ptr → Cmd Store (Unit {0})
set_left p v = do assert (not (p == null)); modify (λ s. record s { left = write s.left p v })

abbrev pub set_right : Ptr → Ptr → Cmd Store (Unit {0})
set_right p v = do assert (not (p == null)); modify (λ s. record s { right = write s.right p v })

abbrev pub set_parent : Ptr → Ptr → Cmd Store (Unit {0})
set_parent p v = do assert (not (p == null)); modify (λ s. record s { parent = write s.parent p v })

abbrev pub set_prev : Ptr → Ptr → Cmd Store (Unit {0})
set_prev p v = do assert (not (p == null)); modify (λ s. record s { prev = write s.prev p v })

abbrev pub set_next : Ptr → Ptr → Cmd Store (Unit {0})
set_next p v = do assert (not (p == null)); modify (λ s. record s { next = write s.next p v })

abbrev pub set_data : Ptr → ℕ → Cmd Store (Unit {0})
set_data p v = do assert (not (p == null)); modify (λ s. record s { data_of = write s.data_of p v })

abbrev pub set_color : Ptr → Color → Cmd Store (Unit {0})
set_color p v = do assert (not (p == null)); modify (λ s. record s { color = write s.color p v })

abbrev pub is_red : Color → Bool
is_red rb_red = true
is_red rb_black = false

-- `rbtree_new` where `kalloc` gives the tree: every field is zero.
abbrev pub rbtree_new : Store
rbtree_new = record {
  root = null;
  first = null;
  last = null;
  cached_key = 9223372036854775808;
  cached_node = null;
  cached_mode = rb_exact;
  node_dtor = false;
  color = λ p. rb_red;
  key = λ p. 0;
  parent = λ p. null;
  left = λ p. null;
  right = λ p. null;
  prev = λ p. null;
  next = λ p. null;
  data_of = λ p. null;
  destroyed = [];
  freed = [];
}

abbrev pub rbtree_set_dtor : Bool → Store → Store
rbtree_set_dtor dtor s = record s { node_dtor = dtor }

-- The destructor is called on the data; only that it is called is kept.
unfoldable pub rbtree_node_clear : Ptr → Cmd Store (Unit {0})
rbtree_node_clear node = do
  d ← get (λ s. s.data_of) node
  dtor ← gets (λ s. s.node_dtor)
  if not (d == null) && dtor
      then (do modify (λ s. record s { destroyed = d ∷ s.destroyed }); set_data node null)
      else pure tt

unfoldable pub rbtree_node_destroy : Ptr → Cmd Store (Unit {0})
rbtree_node_destroy node = do
  rbtree_node_clear node
  modify (λ s. record s { freed = node ∷ s.freed })

-- `rbtree_node_new`, with what `kalloc` returned: the memory is cleared, then the fields are set.
abbrev pub rbtree_node_new : Ptr → ℕ → ℕ → Store → Store
rbtree_node_new new key data_of s = record s {
  color = write s.color new rb_red;
  key = write s.key new key;
  parent = write s.parent new null;
  left = write s.left new null;
  right = write s.right new null;
  prev = write s.prev new null;
  next = write s.next new null;
  data_of = write s.data_of new data_of;
}

-- `if (node->prev != NULL) node->prev->next = node; else node->owner->first = node;`
unfoldable pub link_prev : Ptr → Cmd Store (Unit {0})
link_prev node = do
  p ← get (λ s. s.prev) node
  if p == null then modify (λ s. record s { first = node }) else set_next p node

unfoldable pub link_next : Ptr → Cmd Store (Unit {0})
link_next node = do
  n ← get (λ s. s.next) node
  if n == null then modify (λ s. record s { last = node }) else set_prev n node

-- The node becomes its parent's left child, and its predecessor in the list.
unfoldable pub attach_left : Ptr → Ptr → Cmd Store (Unit {0})
attach_left parent node = do
  set_left parent node
  set_parent node parent
  p ← get (λ s. s.prev) parent
  set_prev node p
  set_next node parent
  link_prev node
  set_prev parent node

unfoldable pub attach_right : Ptr → Ptr → Cmd Store (Unit {0})
attach_right parent node = do
  set_right parent node
  set_parent node parent
  n ← get (λ s. s.next) parent
  set_next node n
  set_prev node parent
  link_next node
  set_next parent node

-- Whether the key was there already: then the data is replaced.
unfoldable pub rbtree_insert_node : ℕ → Ptr → Ptr → Cmd Store Bool
rbtree_insert_node zero parent node = λ s. out_of_fuel
rbtree_insert_node (suc fuel) parent node = do
  parent_key ← get (λ s. s.key) parent
  node_key ← get (λ s. s.key) node
  l ← get (λ s. s.left) parent
  r ← get (λ s. s.right) parent
  let deeper_left = rbtree_insert_node fuel l node
  let deeper_right = rbtree_insert_node fuel r node
  if parent_key == node_key
      then (do
        rbtree_node_clear parent
        d ← get (λ s. s.data_of) node
        set_data parent d
        pure true)
      else if ltb node_key parent_key
      then (if l == null then (do attach_left parent node; pure false) else deeper_left)
      else (if r == null then (do attach_right parent node; pure false) else deeper_right)

unfoldable pub rbtree_node_search : ℕ → Ptr → ℕ → Cmd Store Ptr
rbtree_node_search zero node key = λ s. out_of_fuel
rbtree_node_search (suc fuel) node key = do
  node_key ← get (λ s. s.key) node
  l ← get (λ s. s.left) node
  r ← get (λ s. s.right) node
  let deeper_left = rbtree_node_search fuel l key
  let deeper_right = rbtree_node_search fuel r key
  if node_key == key
      then pure node
      else if ltb key node_key
      then (if l == null then pure node else deeper_left)
      else (if r == null then pure node else deeper_right)
