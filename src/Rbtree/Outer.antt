-- ===== src/Rbtree/Outer.antt =====
-- Cases 4 and 5 of common/rbtree.c in their tree: a red parent, a black uncle.
use mathlib.Core.Path.{subst}
use neftis.Base.{
  ◌+◌, ◌≤◌, ◌≡◌, ◌≢◌, refl, sym, false, arith, ◌==◌, ==-sym, count, IsOnce, one, one_self,
}
use neftis.Base.Run.{Run, Returns, Returns-mono}
use neftis.Rbtree.{Ptr, null, Color, rb_red, rb_black, Store}
use neftis.Rbtree.Shape.{Shape, node, WayUp, inorder, whole, fill, IsTree, count-whole, count-node}
use neftis.Rbtree.Rotate.{root-other}
use neftis.Rbtree.Rotation.{At, Kept, Kept-trans, rotate_left-At, rotate_right-At}
use neftis.Rbtree.Paint.{colored, paint_root, paint_left, paint_right, fill-IsTree}
use neftis.Rbtree.Balance.{rbtree_insert_case_4, rbtree_insert_case_5}
use neftis.Rbtree.Cases.{case_5-left, case_5-right, case_4-left_left, case_4-right_right}

-- The store holds the tree, and what the balancing leaves alone is as it was.
abbrev pub Balanced : Store → Shape → Unit {0} → Store → Type 0
Balanced s t _ s' = IsTree s' null t s'.root × Kept s s'

colored-Kept : (s : Store) (p g : Ptr) (c d : Color) → Kept s (colored g d (colored p c s))
colored-Kept s p g c d = record {
  keys = refl;
  prevs = refl;
  nexts = refl;
  firsts = refl;
  lasts = refl;
  contents = refl;
  caches = refl;
  dtors = refl;
  traces = refl;
}

-- A tree in its context is one from the root.
finish :
    (s s2 : Store) (up : WayUp) (t : Shape) (q par : Ptr) (r : Run Store (Unit {0}))
    → Kept s s2
    → Returns (λ _ s'. At s' up t q par × Kept s2 s') r
    → Returns (Balanced s (fill up t)) r
finish s s2 up t q par r kept run =
    Returns-mono {P = λ _ s'. At s' up t q par × Kept s2 s'} {Q = Balanced s (fill up t)} r run
      (λ _ s' (at, kept'). (fill-IsTree s' up t q par at, Kept-trans s s2 s' kept kept'))

-- Not the right child, nor the left one, of a node in the tree.
sides :
    (s : Store) (up : WayUp) (cg cp : Color) (pl : Shape) (p : Ptr) (pr : Shape) (g : Ptr)
    (u : Shape) (x y : Ptr)
    → IsOnce (whole up (node cg (node cp pl p pr) g u))
    → IsTree s y u x
    → p ≢ null
    → (p == x) ≡ false
sides s up cg cp pl p pr g u x y once tu np = ==-sym x p (
    root-other s y u x p tu np (
      omega (
        arith,
        once p,
        count-whole p up (node cg (node cp pl p pr) g u),
        count-node p cg (node cp pl p pr) g u,
        count-node p cp pl p pr,
        one_self p,
      )))

module _ (s : Store) (up : WayUp) (cg cp : Color) (g : Ptr) (u : Shape) (gg : Ptr) (ct : Color)
    (a : Shape) (n : Ptr) (b : Shape) (p : Ptr) (r : Shape) where
  -- Case 5 with the node and its parent on the left.
  pub case_5-left_left :
      At s up (node cg (node cp (node ct a n b) p r) g u) g gg
      → IsOnce (whole up (node cg (node cp (node ct a n b) p r) g u))
      → Returns
          (Balanced s (fill up (node rb_black (node ct a n b) p (node rb_red r g u))))
          (rbtree_insert_case_5 n s)
  case_5-left_left is once =
      let t : Shape = node ct a n b in
      let (e, ng, above_g, col, (e', np, above_p, col', (en, nn, above_n, col_n, ta, tb), tr), tu) =
        is.tree in
      let s1 : Store = colored p rb_black s in
      let s2 : Store = colored g rb_red s1 in
      let is1 = paint_left s p rb_black up cg cp t r g u g gg once is in
      let is2 = paint_root s1 g rb_red up cg (node rb_black t p r) u g gg once is1 in
      subst (Returns (Balanced s (fill up (node rb_black t p (node rb_red r g u)))))
        (sym (case_5-left s n p nn np above_n g ng above_p en))
        (finish s s2 up (node rb_black t p (node rb_red r g u)) p gg _
          (colored-Kept s p g rb_black rb_red)
          (rotate_right-At s2 up rb_black rb_red t p r g u gg is2 once))

  -- And on the right.
  pub case_5-right_right :
      At s up (node cg u g (node cp r p (node ct a n b))) g gg
      → IsOnce (whole up (node cg u g (node cp r p (node ct a n b))))
      → Returns
          (Balanced s (fill up (node rb_black (node rb_red u g r) p (node ct a n b))))
          (rbtree_insert_case_5 n s)
  case_5-right_right is once =
      let t : Shape = node ct a n b in
      let (e, ng, above_g, col, tu, (e', np, above_p, col', tr, (en, nn, above_n, col_n, ta, tb))) =
        is.tree in
      let s1 : Store = colored p rb_black s in
      let s2 : Store = colored g rb_red s1 in
      let is1 = paint_right s p rb_black up cg cp r t g u g gg once is in
      let is2 = paint_root s1 g rb_red up cg u (node rb_black r p t) g gg once is1 in
      subst (Returns (Balanced s (fill up (node rb_black (node rb_red u g r) p t))))
        (sym (
          case_5-right s n p nn np above_n g ng above_p (
            ==-sym (s.left p) n (
              root-other s p r (s.left p) n tr nn (
                omega (
                  arith,
                  once n,
                  count-whole n up (node cg u g (node cp r p t)),
                  count-node n cg u g (node cp r p t),
                  count-node n cp r p t,
                  count-node n ct a n b,
                  one_self n,
                ))))))
        (finish s s2 up (node rb_black (node rb_red u g r) p t) p gg _
          (colored-Kept s p g rb_black rb_red)
          (rotate_left-At s2 up rb_red rb_black u g r p t gg is2 once))

  pub case_4-outer_left :
      At s up (node cg (node cp (node ct a n b) p r) g u) g gg
      → IsOnce (whole up (node cg (node cp (node ct a n b) p r) g u))
      → Returns
          (Balanced s (fill up (node rb_black (node ct a n b) p (node rb_red r g u))))
          (rbtree_insert_case_4 n s)
  case_4-outer_left is once =
      let t : Shape = node ct a n b in
      let (e, ng, above_g, col, (e', np, above_p, col', (en, nn, above_n, col_n, ta, tb), tr), tu) =
        is.tree in
      subst (Returns (Balanced s (fill up (node rb_black t p (node rb_red r g u)))))
        (sym (
          case_4-left_left s n p nn np above_n g ng above_p
            (==-sym (s.right p) n (
              root-other s p r (s.right p) n tr nn (
                omega (
                  arith,
                  once n,
                  count-whole n up (node cg (node cp t p r) g u),
                  count-node n cg (node cp t p r) g u,
                  count-node n cp t p r,
                  count-node n ct a n b,
                  one_self n,
                ))))
            en (sides s up cg cp t p r g u (s.right g) g once tu np)))
        (case_5-left_left is once)

  pub case_4-outer_right :
      At s up (node cg u g (node cp r p (node ct a n b))) g gg
      → IsOnce (whole up (node cg u g (node cp r p (node ct a n b))))
      → Returns
          (Balanced s (fill up (node rb_black (node rb_red u g r) p (node ct a n b))))
          (rbtree_insert_case_4 n s)
  case_4-outer_right is once =
      let t : Shape = node ct a n b in
      let (e, ng, above_g, col, tu, (e', np, above_p, col', tr, (en, nn, above_n, col_n, ta, tb))) =
        is.tree in
      let sum : (x : Ptr) → count x (inorder u) + count x (inorder r) + one x p + one x n ≤ 1 = λ x.
        omega (
          arith,
          once x,
          count-whole x up (node cg u g (node cp r p t)),
          count-node x cg u g (node cp r p t),
          count-node x cp r p t,
          count-node x ct a n b,
        ) in
      subst (Returns (Balanced s (fill up (node rb_black (node rb_red u g r) p t))))
        (sym (
          case_4-right_right s n p nn np above_n g ng above_p en
            (==-sym (s.left p) n
              (root-other s p r (s.left p) n tr nn (omega (arith, sum n, one_self n))))
            (==-sym (s.left g) p
              (root-other s g u (s.left g) p tu np (omega (arith, sum p, one_self p))))))
        (case_5-right_right is once)
