-- ===== src/Rbtree/Uncle.antt =====
-- Case 3 of common/rbtree.c in its tree: a red parent below a grandparent, and the uncle.
use mathlib.Core.Path.{subst}
use neftis.Base.{◌≡◌, ◌≢◌, ◌∙◌, refl, sym, ap, false, arith, IsOnce, one_self}
use neftis.Base.Run.{Cmd, ok, Returns}
use neftis.Rbtree.{Ptr, null, Color, rb_red, rb_black, Store}
use neftis.Rbtree.Shape.{Shape, node, WayUp, whole, count-whole, count-node}
use neftis.Rbtree.Rotate.{root-other}
use neftis.Rbtree.Rotation.{At, Kept}
use neftis.Rbtree.Paint.{colored, paint_root, paint_left, paint_right}
use neftis.Rbtree.Balance.{rbtree_node_uncle, rbtree_insert_case_3, rbtree_insert_case_4}
use neftis.Rbtree.Cases.{
  is_red_shape, is_red_node-run, uncle-of_left, uncle-of_right, case_3-red, case_3-black,
}

pub colored-Kept :
    (s : Store) (p x g : Ptr) (c d e : Color) → Kept s (colored g e (colored x d (colored p c s)))
colored-Kept s p x g c d e = record {
  keys = refl;
  prevs = refl;
  nexts = refl;
  firsts = refl;
  lasts = refl;
  contents = refl;
  caches = refl;
  dtors = refl;
  traces = refl;
}

-- The parent `p` and the grandparent `g` of the node `n`, which is one of `p`'s children.
module _ (s : Store) (up : WayUp) (cg cp : Color) (pl : Shape) (p : Ptr) (pr : Shape) (g : Ptr)
    (u : Shape) (gg n : Ptr) (nn : n ≢ null) (above : s.parent n ≡ p) where
  -- On the left of the grandparent.
  module _ (is : At s up (node cg (node cp pl p pr) g u) g gg)
      (once : IsOnce (whole up (node cg (node cp pl p pr) g u))) where
    uncle_left : rbtree_node_uncle n s ≡ ok (s.right g) s
    uncle_left =
        let (e, ng, above_g, col, (e', np, above_p, col', ta, tb), tu) = is.tree in
        uncle-of_left s n p nn np above g ng above_p e'

    pub case_3_left-black :
        (k : Ptr → Cmd Store (Unit {0}))
        → is_red_shape u ≡ false
        → rbtree_insert_case_3 k n s ≡ rbtree_insert_case_4 n s
    case_3_left-black k black =
        let (e, ng, above_g, col, (e', np, above_p, col', ta, tb), tu) = is.tree in
        case_3-black s n p nn np above g ng above_p k (s.right g) uncle_left
          (is_red_node-run s g u (s.right g) tu ∙ ap (λ b. ok b s) black)

  module _ (is : At s up (node cg u g (node cp pl p pr)) g gg)
      (once : IsOnce (whole up (node cg u g (node cp pl p pr)))) where
    uncle_right : rbtree_node_uncle n s ≡ ok (s.left g) s
    uncle_right =
        let (e, ng, above_g, col, tu, (e', np, above_p, col', ta, tb)) = is.tree in
        uncle-of_right s n p nn np above g ng above_p (
          root-other s g u (s.left g) p tu np (
            omega (
              arith,
              once p,
              count-whole p up (node cg u g (node cp pl p pr)),
              count-node p cg u g (node cp pl p pr),
              count-node p cp pl p pr,
              one_self p,
            )))

    pub case_3_right-black :
        (k : Ptr → Cmd Store (Unit {0}))
        → is_red_shape u ≡ false
        → rbtree_insert_case_3 k n s ≡ rbtree_insert_case_4 n s
    case_3_right-black k black =
        let (e, ng, above_g, col, tu, (e', np, above_p, col', ta, tb)) = is.tree in
        case_3-black s n p nn np above g ng above_p k (s.left g) uncle_right
          (is_red_node-run s g u (s.left g) tu ∙ ap (λ b. ok b s) black)

-- A red uncle: the colours change, and the grandparent is next.
module _ (s : Store) (up : WayUp) (cg cp : Color) (pl : Shape) (p : Ptr) (pr : Shape) (g : Ptr)
    (ul : Shape) (x : Ptr) (ur : Shape) (gg n : Ptr) (nn : n ≢ null) (above : s.parent n ≡ p)
    (Q : Unit {0} → Store → Type 0) (k : Ptr → Cmd Store (Unit {0})) where
  pub case_3_left-red :
      At s up (node cg (node cp pl p pr) g (node rb_red ul x ur)) g gg
      → IsOnce (whole up (node cg (node cp pl p pr) g (node rb_red ul x ur)))
      → ((s' : Store)
          → At s' up (node rb_red (node rb_black pl p pr) g (node rb_black ul x ur)) g gg
          → Kept s s'
          → Returns Q (k g s'))
      → Returns Q (rbtree_insert_case_3 k n s)
  case_3_left-red is once next =
      let (
        e,
        ng,
        above_g,
        col,
        (e', np, above_p, col', ta, tb),
        (eu, nx, above_x, col_x, tul, tur),
      ) =
        is.tree in
      let s1 : Store = colored p rb_black s in
      let s2 : Store = colored x rb_black s1 in
      let is1 = paint_left s p rb_black up cg cp pl pr g (node rb_red ul x ur) g gg once is in
      let is2 =
        paint_right s1 x rb_black up cg rb_red ul ur g (node rb_black pl p pr) g gg once is1 in
      let is3 =
        paint_root s2 g rb_red up cg (node rb_black pl p pr) (node rb_black ul x ur) g gg once
          is2 in
      subst (Returns Q)
        (sym (
          case_3-red s n p nn np above g ng above_p k x nx
            (uncle_left s up cg cp pl p pr g (node rb_red ul x ur) gg n nn above is once
              ∙ ap (λ y. ok y s) eu)
            col_x))
        (next (colored g rb_red s2) is3 (colored-Kept s p x g rb_black rb_black rb_red))

  pub case_3_right-red :
      At s up (node cg (node rb_red ul x ur) g (node cp pl p pr)) g gg
      → IsOnce (whole up (node cg (node rb_red ul x ur) g (node cp pl p pr)))
      → ((s' : Store)
          → At s' up (node rb_red (node rb_black ul x ur) g (node rb_black pl p pr)) g gg
          → Kept s s'
          → Returns Q (k g s'))
      → Returns Q (rbtree_insert_case_3 k n s)
  case_3_right-red is once next =
      let (
        e,
        ng,
        above_g,
        col,
        (eu, nx, above_x, col_x, tul, tur),
        (e', np, above_p, col', ta, tb),
      ) =
        is.tree in
      let s1 : Store = colored p rb_black s in
      let s2 : Store = colored x rb_black s1 in
      let is1 = paint_right s p rb_black up cg cp pl pr g (node rb_red ul x ur) g gg once is in
      let is2 =
        paint_left s1 x rb_black up cg rb_red ul ur g (node rb_black pl p pr) g gg once is1 in
      let is3 =
        paint_root s2 g rb_red up cg (node rb_black ul x ur) (node rb_black pl p pr) g gg once
          is2 in
      subst (Returns Q)
        (sym (
          case_3-red s n p nn np above g ng above_p k x nx
            (uncle_right s up cg cp pl p pr g (node rb_red ul x ur) gg n nn above is once
              ∙ ap (λ y. ok y s) eu)
            col_x))
        (next (colored g rb_red s2) is3 (colored-Kept s p x g rb_black rb_black rb_red))
