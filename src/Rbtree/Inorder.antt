-- ===== src/Rbtree/Inorder.antt =====
-- The insertion cases of common/rbtree.c keep the order of the nodes.
use mathlib.Core.List.{append_assoc, append-nil}
use neftis.Base.{Bool, true, false, ◌≡◌, ◌∙◌, refl, sym, ap, ◌∷◌, ◌++◌}
use neftis.Rbtree.{Ptr, Color, rb_red, rb_black}
use neftis.Rbtree.Shape.{
  Shape, leaf, node, WayUp, top, in_left, in_right, inorder, before, after, whole, fill,
  inorder-fill,
}
use neftis.Rbtree.Cases.{is_red_shape}
use neftis.Rbtree.Fix.{fix, paint_black, inner_left, inner_right}

inorder-paint : (t : Shape) → inorder (paint_black t) ≡ inorder t
inorder-paint leaf = refl
inorder-paint (node c l p r) = refl

inorder-inner_left :
    (l : Shape) (p : Ptr) (t : Shape) (g : Ptr) (u : Shape)
    → inorder (inner_left l p t g u) ≡ inorder l ++ p ∷ inorder t ++ g ∷ inorder u
inorder-inner_left l p leaf g u = simp (append_assoc)
inorder-inner_left l p (node c a n b) g u = simp (append_assoc)

inorder-inner_right :
    (u : Shape) (g : Ptr) (t : Shape) (p : Ptr) (r : Shape)
    → inorder (inner_right u g t p r) ≡ inorder u ++ g ∷ inorder t ++ p ∷ inorder r
inorder-inner_right u g leaf p r = simp (append_assoc)
inorder-inner_right u g (node c a n b) p r = simp (append_assoc)

inorder-fill-whole : (up : WayUp) (t : Shape) → inorder (fill up t) ≡ whole up t
inorder-fill-whole up t = sym (append-nil (inorder (fill up t))) ∙ inorder-fill up t

-- The nodes around two levels of the way up.
module _ (up : WayUp) (cg : Color) (g : Ptr) (u : Shape) (p : Ptr) (r t : Shape) where
  whole-left_left :
      whole (in_left (in_left up cg g u) rb_red p r) t ≡ whole up (node cg (node rb_red t p r) g u)
  whole-left_left = simp (append_assoc)

  whole-right_left :
      whole (in_right (in_left up cg g u) rb_red r p) t ≡ whole up (node cg (node rb_red r p t) g u)
  whole-right_left = simp (append_assoc)

  whole-left_right :
      whole (in_left (in_right up cg u g) rb_red p r) t ≡ whole up (node cg u g (node rb_red t p r))
  whole-left_right = simp (append_assoc)

  whole-right_right :
      whole (in_right (in_right up cg u g) rb_red r p) t
      ≡ whole up (node cg u g (node rb_red r p t))
  whole-right_right = simp (append_assoc)

-- Two trees with the same nodes in order, in the same place.
same-place : (up : WayUp) (t t' : Shape) → inorder t ≡ inorder t' → whole up t ≡ whole up t'
same-place up t t' e = ap (λ xs. before up ++ xs ++ after up) e

-- The branches of `fix`, below a test.
branch :
    (up : WayUp) (t : Shape) (b : Bool) (x y : Shape)
    → inorder x ≡ whole up t
    → inorder y ≡ whole up t
    → inorder (elim b [ true ↦ x | false ↦ y ]) ≡ whole up t
branch up t true x y ex ey = ex
branch up t false x y ex ey = ey

-- `fix` keeps the order of the nodes.
pub fix-inorder : (up : WayUp) (t : Shape) → inorder (fix up t) ≡ whole up t
fix-inorder top t = inorder-paint t ∙ sym (append-nil (inorder t))
fix-inorder (in_left up rb_black p r) t = inorder-fill-whole (in_left up rb_black p r) t
fix-inorder (in_right up rb_black l p) t = inorder-fill-whole (in_right up rb_black l p) t
fix-inorder (in_left top rb_red p r) t = inorder-fill-whole (in_left top rb_red p r) t
fix-inorder (in_right top rb_red l p) t = inorder-fill-whole (in_right top rb_red l p) t
fix-inorder (in_left (in_left up cg g u) rb_red p r) t =
    branch (in_left (in_left up cg g u) rb_red p r) t (is_red_shape u) _ _
      (fix-inorder up (node rb_red (node rb_black t p r) g (paint_black u))
        ∙ same-place up (node rb_red (node rb_black t p r) g (paint_black u))
            (node cg (node rb_red t p r) g u)
            (ap (λ xs. (inorder t ++ p ∷ inorder r) ++ g ∷ xs) (inorder-paint u))
        ∙ sym (whole-left_left up cg g u p r t))
      (inorder-fill-whole up _ ∙ simp (append_assoc))
fix-inorder (in_right (in_left up cg g u) rb_red l p) t =
    branch (in_right (in_left up cg g u) rb_red l p) t (is_red_shape u) _ _
      (fix-inorder up (node rb_red (node rb_black l p t) g (paint_black u))
        ∙ same-place up (node rb_red (node rb_black l p t) g (paint_black u))
            (node cg (node rb_red l p t) g u)
            (ap (λ xs. (inorder l ++ p ∷ inorder t) ++ g ∷ xs) (inorder-paint u))
        ∙ sym (whole-right_left up cg g u p l t))
      (inorder-fill-whole up (inner_left l p t g u)
        ∙ ap (λ xs. before up ++ xs ++ after up) (inorder-inner_left l p t g u)
        ∙ simp (append_assoc))
fix-inorder (in_left (in_right up cg u g) rb_red p r) t =
    branch (in_left (in_right up cg u g) rb_red p r) t (is_red_shape u) _ _
      (fix-inorder up (node rb_red (paint_black u) g (node rb_black t p r))
        ∙ same-place up (node rb_red (paint_black u) g (node rb_black t p r))
            (node cg u g (node rb_red t p r))
            (ap (λ xs. xs ++ g ∷ (inorder t ++ p ∷ inorder r)) (inorder-paint u))
        ∙ sym (whole-left_right up cg g u p r t))
      (inorder-fill-whole up (inner_right u g t p r)
        ∙ ap (λ xs. before up ++ xs ++ after up) (inorder-inner_right u g t p r)
        ∙ simp (append_assoc))
fix-inorder (in_right (in_right up cg u g) rb_red l p) t =
    branch (in_right (in_right up cg u g) rb_red l p) t (is_red_shape u) _ _
      (fix-inorder up (node rb_red (paint_black u) g (node rb_black l p t))
        ∙ same-place up (node rb_red (paint_black u) g (node rb_black l p t))
            (node cg u g (node rb_red l p t))
            (ap (λ xs. xs ++ g ∷ (inorder l ++ p ∷ inorder t)) (inorder-paint u))
        ∙ sym (whole-right_right up cg g u p l t))
      (inorder-fill-whole up _ ∙ simp (append_assoc))
