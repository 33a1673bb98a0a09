-- ===== src/Rbtree/Paint.antt =====
-- Moves along a red-black tree: up to a node's parent, down to its children; and its colours.
use mathlib.Core.Path.{subst}
use neftis.Base.{
  ◌+◌, ◌≡◌, ◌∙◌, refl, sym, ap, arith, write, write_self, write_other, count, IsOnce, one_self,
  one-of_other, ◌==◌, false, ne→==, ==-sym, ne_of_count,
}
use neftis.Rbtree.{Ptr, null, Color, Store}
use neftis.Rbtree.Shape.{
  Shape, node, WayUp, top, in_left, in_right, inorder, before, after, whole, fill, IsTree,
  IsContext, Agrees, IsTree-frame, IsContext-frame, count-whole, count-node,
}
use neftis.Rbtree.Rotation.{At}

-- From a child to its parent and back.
module _ (s : Store) (up : WayUp) (c : Color) (p : Ptr) (t r : Shape) (q par : Ptr) where
  pub from_left : At s (in_left up c p r) t q par → At s up (node c t p r) p (s.parent p)
  from_left is =
      let (e, ne, child, col, tr, rest) = is.around in
      record {
        around = rest;
        tree = (
          refl,
          ne,
          refl,
          col,
          subst (IsTree s p t) (sym child) (subst (λ x. IsTree s x t q) e is.tree),
          tr,
        );
      }

  pub from_right : At s (in_right up c r p) t q par → At s up (node c r p t) p (s.parent p)
  from_right is =
      let (e, ne, child, col, tr, rest) = is.around in
      record {
        around = rest;
        tree = (
          refl,
          ne,
          refl,
          col,
          tr,
          subst (IsTree s p t) (sym child) (subst (λ x. IsTree s x t q) e is.tree),
        );
      }

  pub to_left : At s up (node c t p r) q par → At s (in_left up c p r) t (s.left p) p
  to_left is =
      let (e, ne, above, col, tl, tr) = is.tree in
      record {
        around = (
          refl,
          ne,
          refl,
          col,
          tr,
          subst (λ x. IsContext s up x (s.parent p)) e
              (subst (IsContext s up q) (sym above) is.around),
        );
        tree = tl;
      }

  pub to_right : At s up (node c r p t) q par → At s (in_right up c r p) t (s.right p) p
  to_right is =
      let (e, ne, above, col, tl, tr) = is.tree in
      record {
        around = (
          refl,
          ne,
          refl,
          col,
          tl,
          subst (λ x. IsContext s up x (s.parent p)) e
              (subst (IsContext s up q) (sym above) is.around),
        );
        tree = tr;
      }

-- All the way up.
pub fill-IsTree :
    (s : Store) (up : WayUp) (t : Shape) (q par : Ptr)
    → At s up t q par
    → IsTree s null (fill up t) s.root
fill-IsTree s top t q par is =
    subst (IsTree s null t) (sym is.around.0) (subst (λ x. IsTree s x t q) is.around.1 is.tree)
fill-IsTree s (in_left up c p r) t q par is =
    fill-IsTree s up (node c t p r) p (s.parent p) (from_left s up c p t r q par is)
fill-IsTree s (in_right up c l p) t q par is =
    fill-IsTree s up (node c l p t) p (s.parent p) (from_right s up c p t l q par is)

abbrev pub colored : Ptr → Color → Store → Store
colored p c s = record s { color = write s.color p c }

colored-Agrees :
    (s : Store) (p : Ptr) (c : Color) (x : Ptr) → (x == p) ≡ false → Agrees s (colored p c s) x
colored-Agrees s p c x o = record {
  lefts = refl;
  rights = refl;
  parents = refl;
  colors = write_other s.color p c x o;
}

module _ (s : Store) (p : Ptr) (c : Color) where
  colored-other :
      (par : Ptr) (t : Shape) (q : Ptr)
      → count p (inorder t) ≡ 0
      → IsTree s par t q
      → IsTree (colored p c s) par t q
  colored-other par t q out is =
      IsTree-frame s (colored p c s) par t q
        (λ x i. colored-Agrees s p c x (ne_of_count x p (inorder t) i out)) is

  colored-around :
      (up : WayUp) (q par : Ptr)
      → count p (before up) + count p (after up) ≡ 0
      → IsContext s up q par
      → IsContext (colored p c s) up q par
  colored-around up q par out is =
      IsContext-frame s (colored p c s) up q par refl
        (λ x i. colored-Agrees s p c x (
          ne→== x p
            (λ e. omega (arith, i, out, ap (λ y. count y (before up) + count y (after up)) e))))
        is

  colored-root :
      (par : Ptr) (c0 : Color) (l r : Shape) (q : Ptr)
      → count p (inorder l) + count p (inorder r) ≡ 0
      → IsTree s par (node c0 l p r) q
      → IsTree (colored p c s) par (node c l p r) q
  colored-root par c0 l r q out (e, ne, above, col, tl, tr) = (
    e,
    ne,
    above,
    write_self s.color p c,
    colored-other p l (s.left p) (omega (arith, out)) tl,
    colored-other p r (s.right p) (omega (arith, out)) tr,
  )

  -- The root of the tree is painted.
  pub paint_root :
      (up : WayUp) (c0 : Color) (l r : Shape) (q par : Ptr)
      → IsOnce (whole up (node c0 l p r))
      → At s up (node c0 l p r) q par
      → At (colored p c s) up (node c l p r) q par
  paint_root up c0 l r q par once is =
      let sum = once p in
      let w = count-whole p up (node c0 l p r) in
      let n = count-node p c0 l p r in
      let o = one_self p in
      record {
        around = colored-around up q par (omega (arith, sum, w, n, o)) is.around;
        tree = colored-root par c0 l r q (omega (arith, sum, w, n, o)) is.tree;
      }

  -- The root's left child is painted.
  pub paint_left :
      (up : WayUp) (cg c0 : Color) (l r : Shape) (g : Ptr) (u : Shape) (q par : Ptr)
      → IsOnce (whole up (node cg (node c0 l p r) g u))
      → At s up (node cg (node c0 l p r) g u) q par
      → At (colored p c s) up (node cg (node c l p r) g u) q par
  paint_left up cg c0 l r g u q par once is =
      let (e, ne, above, col, tp, tu) = is.tree in
      let sum = once p in
      let w = count-whole p up (node cg (node c0 l p r) g u) in
      let n = count-node p cg (node c0 l p r) g u in
      let n' = count-node p c0 l p r in
      let o = one_self p in
      record {
        around = colored-around up q par (omega (arith, sum, w, n, n', o)) is.around;
        tree = (
          e,
          ne,
          above,
          write_other s.color p c g
                (==-sym p g (one-of_other p g (omega (arith, sum, w, n, n', o))))
              ∙ col,
          colored-root g c0 l r (s.left g) (omega (arith, sum, w, n, n', o)) tp,
          colored-other g u (s.right g) (omega (arith, sum, w, n, n', o)) tu,
        );
      }

  pub paint_right :
      (up : WayUp) (cg c0 : Color) (l r : Shape) (g : Ptr) (u : Shape) (q par : Ptr)
      → IsOnce (whole up (node cg u g (node c0 l p r)))
      → At s up (node cg u g (node c0 l p r)) q par
      → At (colored p c s) up (node cg u g (node c l p r)) q par
  paint_right up cg c0 l r g u q par once is =
      let (e, ne, above, col, tu, tp) = is.tree in
      let sum = once p in
      let w = count-whole p up (node cg u g (node c0 l p r)) in
      let n = count-node p cg u g (node c0 l p r) in
      let n' = count-node p c0 l p r in
      let o = one_self p in
      record {
        around = colored-around up q par (omega (arith, sum, w, n, n', o)) is.around;
        tree = (
          e,
          ne,
          above,
          write_other s.color p c g
                (==-sym p g (one-of_other p g (omega (arith, sum, w, n, n', o))))
              ∙ col,
          colored-other g u (s.left g) (omega (arith, sum, w, n, n', o)) tu,
          colored-root g c0 l r (s.right g) (omega (arith, sum, w, n, n', o)) tp,
        );
      }
