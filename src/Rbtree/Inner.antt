-- ===== src/Rbtree/Inner.antt =====
-- Case 4 of common/rbtree.c where the node lies between its parent and its grandparent: it is turned
-- outside first.
use mathlib.Core.Path.{subst}
use neftis.Base.{◌≡◌, ◌≢◌, refl, sym, false, arith, ◌==◌, ==-sym, ==-refl, ne→==, IsOnce, one_self}
use neftis.Base.Run.{Cmd, Returns, Returns-bind, Returns-mono, ◌>>=◌, ◌>>◌}
use neftis.Rbtree.{Ptr, null, Color, rb_red, rb_black, Store, get}
use neftis.Rbtree.Shape.{
  Shape, node, WayUp, in_left, in_right, whole, fill, count-whole, count-node, whole-left,
  whole-right,
}
use neftis.Rbtree.Rotate.{root-other}
use neftis.Rbtree.Rotation.{At, Kept, Kept-trans, rotate_left-At, rotate_right-At, whole-turn}
use neftis.Rbtree.Paint.{from_left, from_right, to_left, to_right}
use neftis.Rbtree.Balance.{
  rbtree_insert_case_4, rbtree_insert_case_5, assert_grandparent, is_inner, rbtree_node_rotate_left,
  rbtree_node_rotate_right,
}
use neftis.Rbtree.Cases.{grandparent-run, assert_grandparent-run}
use neftis.Rbtree.Outer.{Balanced, case_5-left_left, case_5-right_right}

-- What follows the first rotation.
unfoldable after_turn : (Store → Ptr → Ptr) → Ptr → Ptr → Cmd Store (Unit {0})
after_turn side n g = do child ← get side n; assert_grandparent child g; rbtree_insert_case_5 child

after_turn-run :
    (side : Store → Ptr → Ptr) (s : Store) (n p g : Ptr)
    → n ≢ null
    → p ≢ null
    → g ≢ null
    → side s n ≡ p
    → s.parent p ≡ n
    → s.parent n ≡ g
    → after_turn side n g s ≡ rbtree_insert_case_5 p s
unfolding after_turn
after_turn-run side s n p g nn np ng child above above_n =
    rw (ne→== n null nn, child, assert_grandparent-run s p n np nn above g ng above_n) refl

module _ (s : Store) (n p : Ptr) (nn : n ≢ null) (np : p ≢ null) (above : s.parent n ≡ p) (g : Ptr)
    (ng : g ≢ null) (above_p : s.parent p ≡ g) where
  left_right-run :
      s.right p ≡ n
      → s.left g ≡ p
      → rbtree_insert_case_4 n s ≡ (rbtree_node_rotate_left p >> after_turn (λ s'. s'.left) n g) s
  unfolding rbtree_insert_case_4 is_inner after_turn
  left_right-run child child_p = rw (
    grandparent-run s n p nn np above g ng above_p,
    ne→== n null nn,
    above,
    ne→== p null np,
    child,
    ==-refl n,
    ne→== g null ng,
    child_p,
    ==-refl p,
    assert_grandparent-run s n p nn np above g ng above_p,
  )

  right_left-run :
      (n == s.right p) ≡ false
      → s.left p ≡ n
      → s.right g ≡ p
      → rbtree_insert_case_4 n s ≡ (rbtree_node_rotate_right p >> after_turn (λ s'. s'.right) n g) s
  unfolding rbtree_insert_case_4 is_inner after_turn
  right_left-run other child child_p = rw (
    grandparent-run s n p nn np above g ng above_p,
    ne→== n null nn,
    above,
    ne→== p null np,
    other,
    child,
    ==-refl n,
    ne→== g null ng,
    child_p,
    ==-refl p,
    assert_grandparent-run s n p nn np above g ng above_p,
  )

module _ (s : Store) (up : WayUp) (cg cp : Color) (g : Ptr) (u : Shape) (gg : Ptr) (ct : Color)
    (a : Shape) (n : Ptr) (b : Shape) (p : Ptr) (l : Shape) where
  pub case_4-inner_left :
      At s up (node cg (node cp l p (node ct a n b)) g u) g gg
      → IsOnce (whole up (node cg (node cp l p (node ct a n b)) g u))
      → Returns
          (Balanced s (fill up (node rb_black (node cp l p a) n (node rb_red b g u))))
          (rbtree_insert_case_4 n s)
  case_4-inner_left is once =
      let t : Shape = node cp l p (node ct a n b) in
      let t' : Shape = node ct (node cp l p a) n b in
      let around : WayUp = in_left up cg g u in
      let Goal = Balanced s (fill up (node rb_black (node cp l p a) n (node rb_red b g u))) in
      let (e, ng, above_g, col, (e', np, above_p, col', tl, (en, nn, above_n, col_n, ta, tb)), tu) =
        is.tree in
      let once_in : IsOnce (whole around t) = subst IsOnce (sym (whole-left up cg g u t)) once in
      let once_out : IsOnce (whole up (node cg t' g u)) =
        subst IsOnce (whole-left up cg g u t')
          (subst IsOnce (whole-turn around cp ct cp ct l p a n b) once_in) in
      let lower = subst (λ x. At s around t x g) e' (to_left s up cg g t u g gg is) in
      subst (Returns Goal) (sym (left_right-run s n p nn np above_n g ng above_p en e')) (
        Returns-bind {P = λ _ s'. At s' around t' n g × Kept s s'} Goal
          (rbtree_node_rotate_left p s) (λ _. after_turn (λ s'. s'.left) n g)
          (rotate_left-At s around cp ct l p a n b g lower once_in)
          (λ _ s' (at, kept).
            let (f, nn', above_n', col_n', (f', np', above_p', col_p', tx', ty'), tb') = at.tree in
            subst (Returns Goal)
              (sym (after_turn-run (λ h. h.left) s' n p g nn np ng f' above_p' above_n'))
              (Returns-mono
                {P = Balanced s' (fill up (node rb_black (node cp l p a) n (node rb_red b g u)))}
                {Q = Goal} (rbtree_insert_case_5 p s')
                (case_5-left_left s' up cg ct g u (s'.parent g) cp l p a n b
                  (from_left s' up cg g t' u n g at) once_out)
                (λ _ h (tree, kept'). (tree, Kept-trans s s' h kept kept')))))

  pub case_4-inner_right :
      At s up (node cg u g (node cp (node ct a n b) p l)) g gg
      → IsOnce (whole up (node cg u g (node cp (node ct a n b) p l)))
      → Returns
          (Balanced s (fill up (node rb_black (node rb_red u g a) n (node cp b p l))))
          (rbtree_insert_case_4 n s)
  case_4-inner_right is once =
      let t : Shape = node cp (node ct a n b) p l in
      let t' : Shape = node ct a n (node cp b p l) in
      let around : WayUp = in_right up cg u g in
      let Goal = Balanced s (fill up (node rb_black (node rb_red u g a) n (node cp b p l))) in
      let (e, ng, above_g, col, tu, (e', np, above_p, col', (en, nn, above_n, col_n, ta, tb), tl)) =
        is.tree in
      let once_in : IsOnce (whole around t) = subst IsOnce (sym (whole-right up cg u g t)) once in
      let once_out : IsOnce (whole up (node cg u g t')) =
        subst IsOnce (whole-right up cg u g t')
          (subst IsOnce (sym (whole-turn around ct cp ct cp a n b p l)) once_in) in
      let lower = subst (λ x. At s around t x g) e' (to_right s up cg g t u g gg is) in
      let other = ==-sym (s.right p) n (
        root-other s p l (s.right p) n tl nn (
          omega (
            arith,
            once n,
            count-whole n up (node cg u g t),
            count-node n cg u g t,
            count-node n cp (node ct a n b) p l,
            count-node n ct a n b,
            one_self n,
          ))) in
      subst (Returns Goal) (sym (right_left-run s n p nn np above_n g ng above_p other en e')) (
        Returns-bind {P = λ _ s'. At s' around t' n g × Kept s s'} Goal
          (rbtree_node_rotate_right p s) (λ _. after_turn (λ s'. s'.right) n g)
          (rotate_right-At s around ct cp a n b p l g lower once_in)
          (λ _ s' (at, kept).
            let (f, nn', above_n', col_n', ta', (f', np', above_p', col_p', tx', ty')) = at.tree in
            subst (Returns Goal)
              (sym (after_turn-run (λ h. h.right) s' n p g nn np ng f' above_p' above_n'))
              (Returns-mono
                {P = Balanced s' (fill up (node rb_black (node rb_red u g a) n (node cp b p l)))}
                {Q = Goal} (rbtree_insert_case_5 p s')
                (case_5-right_right s' up cg ct g u (s'.parent g) cp b p l n a
                  (from_right s' up cg g t' u n g at) once_out)
                (λ _ h (tree, kept'). (tree, Kept-trans s s' h kept kept')))))
