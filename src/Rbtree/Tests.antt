-- ===== src/Rbtree/Tests.antt =====
-- Runs of common/rbtree.c, and its theorems at concrete trees.
use neftis.Base.{
  ℕ, ◌≤◌, ◌^◌, ◌*◌, ◌≡◌, refl, true, inl, inr, [], ◌∷◌, write, arith, IsDistinct-IsOnce, count_cons,
  count_nil,
}
use neftis.Base.Run.{Run, ok, Returns, and_then}
use neftis.Rbtree.{Store, rbtree_new, rb_red, rb_black, rb_exact, rb_leftwards}
use neftis.Rbtree.Shape.{Shape, leaf, node, top, in_left}
use neftis.Rbtree.{
  rbtree_insert_node, attach_left, attach_right, link_prev, link_next, rbtree_node_clear,
}
use neftis.Rbtree.Operations.{place, InsertCode, rbtree_insert_ex, rbtree_search}
use neftis.Rbtree.Balance.{
  rbtree_insert_case_1, rbtree_insert_case_2, rbtree_insert_case_3, rbtree_insert_case_4,
  rbtree_insert_case_5, rbtree_node_uncle, rbtree_node_grandparent, is_red_node, is_inner,
  assert_grandparent, rbtree_node_rotate_left, rbtree_node_rotate_right, replace_child,
  set_parent_of,
}
use neftis.Rbtree.Rotation.{At}
use neftis.Rbtree.Invariant.{IsWell}
use neftis.Rbtree.Insertion.{Puts, rbtree_insert_ex-Puts}
use neftis.Rbtree.Lookup.{IsCached, Found, rbtree_search-Found}
use neftis.Rbtree.Height.{rbtree_search-steps}
use neftis.Rbtree.Rebalance.{case_1-fix}
use neftis.Rbtree.Outer.{Balanced}

-- Node 10 with key 5 is the root, node 11 with key 3 its red left child.
abbrev two_nodes : Store
two_nodes = record rbtree_new {
  root = 10;
  first = 11;
  last = 10;
  node_dtor = true;
  color = write (λ p. rb_red) 10 rb_black;
  key = write (write (λ p. 0) 10 5) 11 3;
  parent = write (λ p. 0) 11 10;
  left = write (λ p. 0) 10 11;
  prev = write (λ p. 0) 10 11;
  next = write (λ p. 0) 11 10;
  data_of = write (write (λ p. 0) 10 50) 11 30;
}

abbrev two_shape : Shape
two_shape = node rb_black (node rb_red leaf 11 leaf) 10 leaf

two_nodes-IsWell : IsWell two_nodes two_shape
two_nodes-IsWell = record {
  tree = (
    refl,
    (λ e. omega (arith, e)),
    refl,
    refl,
    (refl, (λ e. omega (arith, e)), refl, refl, refl, refl),
    refl,
  );
  listed = record {
    list = record {
      starts = refl;
      links = ((λ e. omega (arith, e)), refl, refl, ((λ e. omega (arith, e)), refl, refl, tt));
      distinct = (refl, (refl, tt));
    };
    lasts = refl;
  };
  once = IsDistinct-IsOnce (11 ∷ 10 ∷ []) (refl, (refl, tt));
  ascending = ((omega arith, tt), (tt, tt));
  balanced = (refl, 1, ((refl, refl, refl, refl), refl));
}

two_nodes-IsCached : IsCached two_nodes two_shape
two_nodes-IsCached = inr (inl refl)

rbtree_insert_ex-Puts_example :
    Returns (Puts 1 70 ((3, 30) ∷ (5, 50) ∷ [])) (rbtree_insert_ex 3 12 1 70 two_nodes)
rbtree_insert_ex-Puts_example =
    rbtree_insert_ex-Puts two_nodes two_shape 12 1 70 3 two_nodes-IsWell (λ e. omega (arith, e))
      (omega (arith, count_cons 12 11 (10 ∷ []), count_cons 12 10 [], count_nil 12)) (omega arith)

rbtree_search-Found_example :
    Returns (Found two_nodes two_shape 4 rb_leftwards) (rbtree_search 2 4 rb_leftwards two_nodes)
rbtree_search-Found_example =
    rbtree_search-Found two_nodes two_shape 4 rb_leftwards 2 two_nodes-IsWell two_nodes-IsCached
      (omega arith)

rbtree_search-steps_example :
    (h : ℕ) × (2 ^ h ≤ 3)
    × Returns (Found two_nodes two_shape 7 rb_exact) (rbtree_search (2 * h) 7 rb_exact two_nodes)
rbtree_search-steps_example =
    rbtree_search-steps two_nodes two_shape 7 rb_exact two_nodes-IsWell two_nodes-IsCached

-- The red child of a red child, on the left: node 12 below node 11.
abbrev three_in_line : Store
three_in_line = record two_nodes {
  key = write (write (write (λ p. 0) 10 5) 11 3) 12 1;
  parent = write (write (λ p. 0) 11 10) 12 11;
  left = write (write (λ p. 0) 10 11) 11 12;
}

three_in_line-At :
    At three_in_line
      (in_left (in_left top rb_black 10 leaf) rb_red 11 leaf)
      (node rb_red leaf 12 leaf)
      12
      11
three_in_line-At = record {
  around = (
    refl,
    (λ e. omega (arith, e)),
    refl,
    refl,
    refl,
    (refl, (λ e. omega (arith, e)), refl, refl, refl, (refl, refl)),
  );
  tree = (refl, (λ e. omega (arith, e)), refl, refl, refl, refl);
}

case_1-fix_example :
    Returns
      (Balanced three_in_line
        (node rb_black (node rb_red leaf 12 leaf) 11 (node rb_red leaf 10 leaf)))
      (rbtree_insert_case_1 3 12 three_in_line)
case_1-fix_example =
    case_1-fix 3 (in_left (in_left top rb_black 10 leaf) rb_red 11 leaf) three_in_line leaf 12 leaf
      11 three_in_line-At (IsDistinct-IsOnce (12 ∷ 11 ∷ 10 ∷ []) (refl, (refl, (refl, tt)))) refl
      (omega arith)

-- What the code of `rbtree_insert_ex` and the nodes' keys in order are after three insertions.
abbrev first_of : Run Store InsertCode → ℕ
first_of (ok code s) = s.first
first_of r = 0

abbrev root_of : Run Store InsertCode → ℕ
root_of (ok code s) = s.root
root_of r = 0

abbrev three_inserted : Run Store InsertCode
three_inserted =
    and_then (rbtree_insert_ex 5 10 5 50 rbtree_new)
      (λ _ s. and_then (rbtree_insert_ex 5 11 3 30 s) (λ _ s'. rbtree_insert_ex 5 12 1 10 s'))

three_inserted-root : root_of three_inserted ≡ 11
unfolding rbtree_insert_ex place rbtree_insert_case_1 rbtree_insert_node attach_left link_prev
    rbtree_insert_case_2 rbtree_insert_case_3 rbtree_node_uncle rbtree_node_grandparent is_red_node
    rbtree_insert_case_4 is_inner assert_grandparent rbtree_insert_case_5 rbtree_node_rotate_right
    rbtree_node_rotate_left replace_child set_parent_of attach_right link_next rbtree_node_clear
three_inserted-root = refl

three_inserted-first : first_of three_inserted ≡ 12
unfolding rbtree_insert_ex place rbtree_insert_case_1 rbtree_insert_node attach_left link_prev
    rbtree_insert_case_2 rbtree_insert_case_3 rbtree_node_uncle rbtree_node_grandparent is_red_node
    rbtree_insert_case_4 is_inner assert_grandparent rbtree_insert_case_5 rbtree_node_rotate_right
    rbtree_node_rotate_left replace_child set_parent_of attach_right link_next rbtree_node_clear
three_inserted-first = refl
