-- ===== src/Rbtree/Way.antt =====
-- The way down in a red-black tree: the empty place takes a red node.
use mathlib.Core.Bool.{false≢true}
use mathlib.Core.Path.{subst}
use neftis.Base.{if-elim, ℕ, zero, suc, false, ◌&&◌, ◌≡◌, refl, sym, arith, ◌==◌, ltb}
use neftis.Rbtree.{Ptr, Color, rb_red, rb_black, is_red}
use neftis.Rbtree.Shape.{Shape, leaf, node, WayUp, top, in_left, in_right}
use neftis.Rbtree.Cases.{is_red_shape}
use neftis.Rbtree.Fix.{root_color}
use neftis.Rbtree.RedBlack.{HasBlacks, Takes, is_red_above}
use neftis.Rbtree.Descend.{Place, found, hole, descend}

abbrev color_of : Shape → Color
color_of leaf = rb_black
color_of (node c l p r) = c

-- What the empty place needs for a red node.
abbrev pub TakesRed : Place → Type 0
TakesRed (found p) = Unit {0}
TakesRed (hole up) = Takes up 0 × (root_color up rb_black ≡ rb_black)

Takes-left :
    (up : WayUp) (c : Color) (l : Shape) (p : Ptr) (r : Shape) (h : ℕ)
    → Takes up h
    → HasBlacks (node c l p r) h
    → (is_red_above up && is_red c) ≡ false
    → (h' : ℕ) × Takes (in_left up c p r) h'
      × HasBlacks l h'
      × ((is_red c && is_red_shape l) ≡ false)
Takes-left up rb_red l p r h fits is alone =
    (h, (is.1, is.3, ground (arith, alone), fits), is.2, is.0)
Takes-left up rb_black l p r zero fits is alone = elim is [ ]
Takes-left up rb_black l p r (suc h) fits is alone = (h, (is.1, fits), is.0, refl)

Takes-right :
    (up : WayUp) (c : Color) (l : Shape) (p : Ptr) (r : Shape) (h : ℕ)
    → Takes up h
    → HasBlacks (node c l p r) h
    → (is_red_above up && is_red c) ≡ false
    → (h' : ℕ) × Takes (in_right up c l p) h'
      × HasBlacks r h'
      × ((is_red c && is_red_shape r) ≡ false)
Takes-right up rb_red l p r h fits is alone =
    (h, (is.0, is.2, ground (arith, alone), fits), is.3, is.1)
Takes-right up rb_black l p r zero fits is alone = elim is [ ]
Takes-right up rb_black l p r (suc h) fits is alone = (h, (is.0, fits), is.1, refl)

pub descend-TakesRed :
    (key : Ptr → ℕ) (k : ℕ) (up : WayUp) (t : Shape) (h : ℕ)
    → Takes up h
    → HasBlacks t h
    → (is_red_above up && is_red_shape t) ≡ false
    → root_color up (color_of t) ≡ rb_black
    → TakesRed (descend key k up t)
descend-TakesRed key k up leaf h fits is alone black = (subst (Takes up) is fits, black)
descend-TakesRed key k up (node c l p r) h fits is alone black =
    if-elim TakesRed (key p == k) _ _ (λ _. tt)
      (λ _.
        if-elim TakesRed (ltb k (key p)) _ _
          (λ _.
            let (h', fits', il, alone') = Takes-left up c l p r h fits is alone in
            descend-TakesRed key k (in_left up c p r) l h' fits' il alone' black)
          (λ _.
            let (h', fits', ir, alone') = Takes-right up c l p r h fits is alone in
            descend-TakesRed key k (in_right up c l p) r h' fits' ir alone' black))

-- From the root of a red-black tree.
pub root-TakesRed :
    (key : Ptr → ℕ) (k : ℕ) (t : Shape) (h : ℕ)
    → is_red_shape t ≡ false
    → HasBlacks t h
    → TakesRed (descend key k top t)
root-TakesRed key k t h black is = descend-TakesRed key k top t h tt is refl (color-black t black)
  where
    color-black : (t : Shape) → is_red_shape t ≡ false → color_of t ≡ rb_black
    color-black leaf e = refl
    color-black (node rb_black l p r) e = refl
    color-black (node rb_red l p r) e = absurd (false≢true (sym e))
