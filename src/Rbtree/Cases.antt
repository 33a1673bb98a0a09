-- ===== src/Rbtree/Cases.antt =====
-- What the insertion cases of common/rbtree.c do, from the links they read.
use neftis.Base.{Bool, false, ◌≡◌, ◌≢◌, ne→==, ==-refl, ◌==◌}
use neftis.Base.Run.{ok, Cmd}
use neftis.Rbtree.{Ptr, null, rb_red, rb_black, Store, is_red}
use neftis.Rbtree.Shape.{Shape, leaf, node, IsTree}
use neftis.Rbtree.Paint.{colored}
use neftis.Rbtree.Balance.{
  rbtree_node_grandparent, rbtree_node_uncle, is_red_node, is_inner, assert_grandparent,
  rbtree_node_rotate_left, rbtree_node_rotate_right, rbtree_insert_case_2, rbtree_insert_case_3,
  rbtree_insert_case_4, rbtree_insert_case_5,
}

abbrev pub is_red_shape : Shape → Bool
is_red_shape leaf = false
is_red_shape (node c l p r) = is_red c

pub is_red_node-run :
    (s : Store) (par : Ptr) (t : Shape) (q : Ptr)
    → IsTree s par t q
    → is_red_node q s ≡ ok (is_red_shape t) s
unfolding is_red_node
is_red_node-run s par leaf q is = rw is
is_red_node-run s par (node c l p r) q (e, ne, up, col, tl, tr) = rw (e, ne→== p null ne, col)

module _ (s : Store) (n p : Ptr) (nn : n ≢ null) (np : p ≢ null) (above : s.parent n ≡ p) where
  pub case_2-black :
      (k : Ptr → Cmd Store (Unit {0})) → s.color p ≡ rb_black → rbtree_insert_case_2 k n s ≡ ok tt s
  unfolding rbtree_insert_case_2
  case_2-black k col = rw (ne→== n null nn, above, ne→== p null np, col)

  pub case_2-red :
      (k : Ptr → Cmd Store (Unit {0}))
      → s.color p ≡ rb_red
      → rbtree_insert_case_2 k n s ≡ rbtree_insert_case_3 k n s
  unfolding rbtree_insert_case_2
  case_2-red k col = rw (ne→== n null nn, above, ne→== p null np, col)

  module _ (g : Ptr) (ng : g ≢ null) (above_p : s.parent p ≡ g) where
    pub grandparent-run : rbtree_node_grandparent n s ≡ ok g s
    unfolding rbtree_node_grandparent
    grandparent-run = rw (ne→== n null nn, above, ne→== p null np, above_p)

    pub assert_grandparent-run : assert_grandparent n g s ≡ ok tt s
    unfolding assert_grandparent
    assert_grandparent-run = rw (ne→== n null nn, above, ne→== p null np, above_p, ==-refl g)

    pub uncle-of_left : s.left g ≡ p → rbtree_node_uncle n s ≡ ok (s.right g) s
    unfolding rbtree_node_uncle
    uncle-of_left child =
        rw (grandparent-run, ne→== g null ng, ne→== n null nn, above, child, ==-refl p)

    pub uncle-of_right : (s.left g == p) ≡ false → rbtree_node_uncle n s ≡ ok (s.left g) s
    unfolding rbtree_node_uncle
    uncle-of_right other = rw (grandparent-run, ne→== g null ng, ne→== n null nn, above, other)

    pub case_3-red :
        (k : Ptr → Cmd Store (Unit {0})) (u : Ptr)
        → u ≢ null
        → rbtree_node_uncle n s ≡ ok u s
        → s.color u ≡ rb_red
        → rbtree_insert_case_3 k n s
          ≡ k g (colored g rb_red (colored u rb_black (colored p rb_black s)))
    unfolding rbtree_insert_case_3 is_red_node rbtree_node_grandparent
    case_3-red k u nu uncle col = rw (
      uncle,
      ne→== u null nu,
      col,
      ne→== n null nn,
      above,
      ne→== p null np,
      above,
      ne→== p null np,
      above_p,
      ne→== g null ng,
    )

    pub case_3-black :
        (k : Ptr → Cmd Store (Unit {0})) (u : Ptr)
        → rbtree_node_uncle n s ≡ ok u s
        → is_red_node u s ≡ ok false s
        → rbtree_insert_case_3 k n s ≡ rbtree_insert_case_4 n s
    unfolding rbtree_insert_case_3
    case_3-black k u uncle black = rw (uncle, black)

    pub case_5-left :
        s.left p ≡ n
        → rbtree_insert_case_5 n s
          ≡ rbtree_node_rotate_right g (colored g rb_red (colored p rb_black s))
    unfolding rbtree_insert_case_5
    case_5-left child = rw (
      grandparent-run,
      ne→== g null ng,
      ne→== n null nn,
      above,
      ne→== p null np,
      child,
      ==-refl n,
    )

    pub case_5-right :
        (n == s.left p) ≡ false
        → rbtree_insert_case_5 n s
          ≡ rbtree_node_rotate_left g (colored g rb_red (colored p rb_black s))
    unfolding rbtree_insert_case_5
    case_5-right other =
        rw (grandparent-run, ne→== g null ng, ne→== n null nn, above, ne→== p null np, other)

    -- Left of left, and right of right.
    pub case_4-left_left :
        (n == s.right p) ≡ false
        → s.left p ≡ n
        → (p == s.right g) ≡ false
        → rbtree_insert_case_4 n s ≡ rbtree_insert_case_5 n s
    unfolding rbtree_insert_case_4 is_inner
    case_4-left_left other child other_p = rw (
      grandparent-run,
      ne→== n null nn,
      above,
      ne→== p null np,
      other,
      child,
      ==-refl n,
      ne→== g null ng,
      other_p,
      assert_grandparent-run,
    )

    pub case_4-right_right :
        s.right p ≡ n
        → (n == s.left p) ≡ false
        → (p == s.left g) ≡ false
        → rbtree_insert_case_4 n s ≡ rbtree_insert_case_5 n s
    unfolding rbtree_insert_case_4 is_inner
    case_4-right_right child other other_p = rw (
      grandparent-run,
      ne→== n null nn,
      above,
      ne→== p null np,
      child,
      ==-refl n,
      ne→== g null ng,
      other_p,
      other,
      assert_grandparent-run,
    )
