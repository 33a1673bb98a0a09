-- ===== src/Rbtree/Fix.antt =====
-- The insertion cases of common/rbtree.c on the shape of the tree: what the pointers do, read as a
-- function of the way up from the new node.
use neftis.Base.{true, false, ℕ, suc, ◌≡◌, refl}
use neftis.Rbtree.{Ptr, Color, rb_red, rb_black}
use neftis.Rbtree.Shape.{Shape, leaf, node, WayUp, top, in_left, in_right, fill}
use neftis.Rbtree.Cases.{is_red_shape}

abbrev pub paint_black : Shape → Shape
paint_black leaf = leaf
paint_black (node c l p r) = node rb_black l p r

-- The inner grandchild becomes the parent of both.
abbrev pub inner_left : Shape → Ptr → Shape → Ptr → Shape → Shape
inner_left l p leaf g u = node rb_black l p (node rb_red leaf g u)
inner_left l p (node c a n b) g u = node rb_black (node rb_red l p a) n (node rb_red b g u)

abbrev pub inner_right : Shape → Ptr → Shape → Ptr → Shape → Shape
inner_right u g leaf p r = node rb_black u g (node rb_red leaf p r)
inner_right u g (node c a n b) p r = node rb_black (node rb_red u g a) n (node rb_red b p r)

-- The tree that is balanced from a red node up.
abbrev pub fix : WayUp → Shape → Shape
fix top t = paint_black t
fix (in_left up rb_black p r) t = fill up (node rb_black t p r)
fix (in_right up rb_black l p) t = fill up (node rb_black l p t)
fix (in_left top rb_red p r) t = node rb_red t p r
fix (in_right top rb_red l p) t = node rb_red l p t
fix (in_left (in_left up cg g u) rb_red p r) t = elim (is_red_shape u) [
  | true ↦ fix up (node rb_red (node rb_black t p r) g (paint_black u))
  | false ↦ fill up (node rb_black t p (node rb_red r g u))
]
fix (in_right (in_left up cg g u) rb_red l p) t = elim (is_red_shape u) [
  | true ↦ fix up (node rb_red (node rb_black l p t) g (paint_black u))
  | false ↦ fill up (inner_left l p t g u)
]
fix (in_left (in_right up cg u g) rb_red p r) t = elim (is_red_shape u) [
  | true ↦ fix up (node rb_red (paint_black u) g (node rb_black t p r))
  | false ↦ fill up (inner_right u g t p r)
]
fix (in_right (in_right up cg u g) rb_red l p) t = elim (is_red_shape u) [
  | true ↦ fix up (node rb_red (paint_black u) g (node rb_black l p t))
  | false ↦ fill up (node rb_black (node rb_red u g l) p t)
]

abbrev pub depth : WayUp → ℕ
depth top = 0
depth (in_left up c p r) = suc (depth up)
depth (in_right up c l p) = suc (depth up)

-- The colour of the root, where `c` is that of the node in the hole.
abbrev pub root_color : WayUp → Color → Color
root_color top c = c
root_color (in_left up c' p r) c = root_color up c'
root_color (in_right up c' l p) c = root_color up c'

pub root_color-black :
    (up : WayUp) (c : Color) → root_color up c ≡ rb_black → root_color up rb_black ≡ rb_black
root_color-black top c h = refl
root_color-black (in_left up c' p r) c h = h
root_color-black (in_right up c' l p) c h = h
