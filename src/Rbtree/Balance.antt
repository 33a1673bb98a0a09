-- ===== src/Rbtree/Balance.antt =====
-- The rotations and the five cases of common/rbtree.c that balance the tree after an insertion.
use neftis.Base.{ℕ, zero, suc, Bool, false, not, ◌==◌, if◌then◌else◌}
use neftis.Base.Run.{Cmd, out_of_fuel, pure, ◌>>=◌, ◌>>◌, assert, modify}
use neftis.Rbtree.{
  Ptr, null, rb_red, rb_black, Store, get, set_left, set_right, set_parent, set_color, is_red,
}

unfoldable pub rbtree_node_grandparent : Ptr → Cmd Store Ptr
rbtree_node_grandparent node =
    if node == null
    then pure null
    else do p ← get (λ s. s.parent) node; if p == null then pure null else get (λ s. s.parent) p

unfoldable pub rbtree_node_uncle : Ptr → Cmd Store Ptr
rbtree_node_uncle node = do
  grandpa ← rbtree_node_grandparent node
  if grandpa == null then pure null else do
    l ← get (λ s. s.left) grandpa
    p ← get (λ s. s.parent) node
    if l == p then get (λ s. s.right) grandpa else get (λ s. s.left) grandpa

-- What both rotations begin with: `n` takes the place of `p` below `g`, or at the root.
unfoldable pub replace_child : Ptr → Ptr → Ptr → Cmd Store (Unit {0})
replace_child g p n = if g == null then modify (λ s. record s { root = n }) else do
  l ← get (λ s. s.left) g
  r ← get (λ s. s.right) g
  assert (not (l == r))
  if l == p then set_left g n else set_right g n

-- `if (t != NULL) t->parent = p`
unfoldable pub set_parent_of : Ptr → Ptr → Cmd Store (Unit {0})
set_parent_of t p = if t == null then pure tt else set_parent t p

unfoldable pub rbtree_node_rotate_left : Ptr → Cmd Store (Unit {0})
rbtree_node_rotate_left p = do
  g ← get (λ s. s.parent) p
  n ← get (λ s. s.right) p
  t ← get (λ s. s.left) n
  replace_child g p n
  set_left n p
  set_right p t
  set_parent_of t p
  set_parent n g
  set_parent p n

unfoldable pub rbtree_node_rotate_right : Ptr → Cmd Store (Unit {0})
rbtree_node_rotate_right p = do
  g ← get (λ s. s.parent) p
  n ← get (λ s. s.left) p
  t ← get (λ s. s.right) n
  replace_child g p n
  set_right n p
  set_left p t
  set_parent_of t p
  set_parent n g
  set_parent p n

unfoldable pub rbtree_insert_case_5 : Ptr → Cmd Store (Unit {0})
rbtree_insert_case_5 node = do
  grandpa ← rbtree_node_grandparent node
  assert (not (grandpa == null))
  p ← get (λ s. s.parent) node
  set_color p rb_black
  set_color grandpa rb_red
  l ← get (λ s. s.left) p
  if node == l then rbtree_node_rotate_right grandpa else rbtree_node_rotate_left grandpa

-- `ASSERT (node->parent->parent == grandpa)`
unfoldable pub assert_grandparent : Ptr → Ptr → Cmd Store (Unit {0})
assert_grandparent node grandpa = do
  p ← get (λ s. s.parent) node
  gp ← get (λ s. s.parent) p
  assert (gp == grandpa)

-- The test `node == child && p == grandpa->side`, which reads through `grandpa` only if it must.
unfoldable pub is_inner : (Store → Ptr → Ptr) → Ptr → Ptr → Ptr → Ptr → Cmd Store Bool
is_inner side node child p grandpa =
    if node == child then (do c ← get side grandpa; pure (p == c)) else pure false

unfoldable pub rbtree_insert_case_4 : Ptr → Cmd Store (Unit {0})
rbtree_insert_case_4 node = do
  grandpa ← rbtree_node_grandparent node
  p ← get (λ s. s.parent) node
  r ← get (λ s. s.right) p
  left_right ← is_inner (λ s. s.left) node r p grandpa
  if left_right
      then (do
        assert_grandparent node grandpa
        rbtree_node_rotate_left p
        child ← get (λ s. s.left) node
        assert_grandparent child grandpa
        rbtree_insert_case_5 child)
      else do
        l ← get (λ s. s.left) p
        right_left ← is_inner (λ s. s.right) node l p grandpa
        if right_left
            then (do
              assert_grandparent node grandpa
              rbtree_node_rotate_right p
              child ← get (λ s. s.right) node
              assert_grandparent child grandpa
              rbtree_insert_case_5 child)
            else do assert_grandparent node grandpa; rbtree_insert_case_5 node

-- `uncle != NULL && rbtree_node_color (uncle) == RB_RED`
unfoldable pub is_red_node : Ptr → Cmd Store Bool
is_red_node p = if p == null then pure false else do c ← get (λ s. s.color) p; pure (is_red c)

-- Case 3 goes on at the grandparent with case 1, which is an argument here.
unfoldable pub rbtree_insert_case_3 : (Ptr → Cmd Store (Unit {0})) → Ptr → Cmd Store (Unit {0})
rbtree_insert_case_3 case_1 node = do
  uncle ← rbtree_node_uncle node
  red ← is_red_node uncle
  if red
      then (do
        p ← get (λ s. s.parent) node
        set_color p rb_black
        set_color uncle rb_black
        grandpa ← rbtree_node_grandparent node
        set_color grandpa rb_red
        case_1 grandpa)
      else rbtree_insert_case_4 node

unfoldable pub rbtree_insert_case_2 : (Ptr → Cmd Store (Unit {0})) → Ptr → Cmd Store (Unit {0})
rbtree_insert_case_2 case_1 node = do
  p ← get (λ s. s.parent) node
  c ← get (λ s. s.color) p
  if is_red c then rbtree_insert_case_3 case_1 node else pure tt

unfoldable pub rbtree_insert_case_1 : ℕ → Ptr → Cmd Store (Unit {0})
rbtree_insert_case_1 zero node = λ s. out_of_fuel
rbtree_insert_case_1 (suc fuel) node = do
  let again = rbtree_insert_case_1 fuel
  p ← get (λ s. s.parent) node
  if p == null then set_color node rb_black else rbtree_insert_case_2 again node
