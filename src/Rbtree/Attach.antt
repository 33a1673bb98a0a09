-- ===== src/Rbtree/Attach.antt =====
-- A new red node of common/rbtree.c in an empty place of the tree.
use mathlib.Core.Path.{subst}
use neftis.Base.{
  ℕ, ◌+◌, ◌<◌, ◌≡◌, ◌≢◌, ◌∙◌, refl, sym, ap, false, ne→==, arith, ◌==◌, write_self, write_other,
  count, IsOnce, one, one-of_other, ◌≤◌, ==-sym, count_nil,
}
use neftis.Rbtree.{Ptr, null, Color, rb_red, Store}
use neftis.Rbtree.Shape.{
  Shape, leaf, node, WayUp, in_left, in_right, inorder, before, after, whole, IsContext, Agrees,
  IsTree-frame, IsContext-frame, count-whole, count-node,
}
use neftis.Rbtree.Rotation.{At}
use neftis.Rbtree.Listing.{attached_left, attached_right}

-- A node that stands nowhere yet, as `rbtree_node_new` makes it.
pub record IsNew (s : Store) (n : Ptr) (k : ℕ) : Type 0 where
  pub not_null : n ≢ null
  pub colors : s.color n ≡ rb_red
  pub keys : s.key n ≡ k
  pub lefts : s.left n ≡ null
  pub rights : s.right n ≡ null
  pub parents : s.parent n ≡ null
  pub prevs : s.prev n ≡ null
  pub nexts : s.next n ≡ null

module _ (s : Store) (up : WayUp) (c : Color) (p n : Ptr) (k : ℕ) (new : IsNew s n k) (t : Shape)
    (q par : Ptr) where
  -- A node of the tree is not the new one.
  apart :
      (x : Ptr)
      → 0 < count x (before up) + count x (inorder t) + count x (after up)
      → count n (before up) + count n (inorder t) + count n (after up) + one n p ≡ 0
      → (x == n) ≡ false
  apart x i out = ne→== x n (λ e.
      omega
        (arith, i, out, ap (λ y. count y (before up) + count y (inorder t) + count y (after up)) e))

  -- As the left child of `p`.
  pub attached_left-At :
      At s up (node c leaf p t) q par
      → IsOnce (whole up (node c leaf p t))
      → count n (whole up (node c leaf p t)) ≡ 0
      → At (attached_left p n s) (in_left up c p t) (node rb_red leaf n leaf) n p
  attached_left-At is once fresh =
      let (e, np, above, col, tl, tr) = is.tree in
      let s' : Store = attached_left p n s in
      let sum : (x : Ptr)
          → count x (before up) + count x (inorder t) + count x (after up) + one x p ≤ 1 =
        λ x. omega (
          arith,
          once x,
          count-whole x up (node c leaf p t),
          count-node x c leaf p t,
          count_nil x,
        ) in
      let out : count n (before up) + count n (inorder t) + count n (after up) + one n p ≡ 0 =
        omega (arith, fresh, count-whole n up (node c leaf p t), count-node n c leaf p t) in
      let other = one-of_other n p (omega (arith, out)) in
      let same : (x : Ptr)
          → 0 < count x (before up) + count x (inorder t) + count x (after up)
          → Agrees s s' x =
        λ x i. record {
          lefts = write_other s.left p n x (one-of_other x p (omega (arith, i, sum x)));
          rights = refl;
          parents = write_other s.parent n p x (apart x i out);
          colors = refl;
        } in
      record {
        around = (
          refl,
          np,
          write_self s.left p n,
          col,
          IsTree-frame s s' p t (s.right p) (λ x i. same x (omega (arith, i))) tr,
          rw (write_other s.parent n p p (==-sym n p other)) (
              IsContext-frame s s' up p (s.parent p) refl (λ x i. same x (omega (arith, i)))
                (subst (λ x. IsContext s up x (s.parent p)) e
                  (subst (IsContext s up q) (sym above) is.around))),
        );
        tree = (
          refl,
          new.not_null,
          write_self s.parent n p,
          new.colors,
          write_other s.left p n n other ∙ new.lefts,
          new.rights,
        );
      }

  -- As the right child of `p`.
  pub attached_right-At :
      At s up (node c t p leaf) q par
      → IsOnce (whole up (node c t p leaf))
      → count n (whole up (node c t p leaf)) ≡ 0
      → At (attached_right p n s) (in_right up c t p) (node rb_red leaf n leaf) n p
  attached_right-At is once fresh =
      let (e, np, above, col, tl, tr) = is.tree in
      let s' : Store = attached_right p n s in
      let sum : (x : Ptr)
          → count x (before up) + count x (inorder t) + count x (after up) + one x p ≤ 1 =
        λ x. omega (
          arith,
          once x,
          count-whole x up (node c t p leaf),
          count-node x c t p leaf,
          count_nil x,
        ) in
      let out : count n (before up) + count n (inorder t) + count n (after up) + one n p ≡ 0 =
        omega (arith, fresh, count-whole n up (node c t p leaf), count-node n c t p leaf) in
      let other = one-of_other n p (omega (arith, out)) in
      let same : (x : Ptr)
          → 0 < count x (before up) + count x (inorder t) + count x (after up)
          → Agrees s s' x =
        λ x i. record {
          lefts = refl;
          rights = write_other s.right p n x (one-of_other x p (omega (arith, i, sum x)));
          parents = write_other s.parent n p x (apart x i out);
          colors = refl;
        } in
      record {
        around = (
          refl,
          np,
          write_self s.right p n,
          col,
          IsTree-frame s s' p t (s.left p) (λ x i. same x (omega (arith, i))) tl,
          rw (write_other s.parent n p p (==-sym n p other)) (
              IsContext-frame s s' up p (s.parent p) refl (λ x i. same x (omega (arith, i)))
                (subst (λ x. IsContext s up x (s.parent p)) e
                  (subst (IsContext s up q) (sym above) is.around))),
        );
        tree = (
          refl,
          new.not_null,
          write_self s.parent n p,
          new.colors,
          new.lefts,
          write_other s.right p n n other ∙ new.rights,
        );
      }
