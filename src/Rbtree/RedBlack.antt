-- ===== src/Rbtree/RedBlack.antt =====
-- The red-black invariant, and that the insertion cases of common/rbtree.c restore it.
use mathlib.Core.Bool.{false≢true}
use neftis.Base.{ℕ, zero, suc, Bool, true, false, ◌&&◌, ◌≡◌, refl, sym, ap, arith}
use neftis.Rbtree.{Ptr, Color, rb_red, rb_black, is_red}
use neftis.Rbtree.Shape.{Shape, leaf, node, WayUp, top, in_left, in_right, fill}
use neftis.Rbtree.Cases.{is_red_shape}
use neftis.Rbtree.Fix.{fix, paint_black, inner_left, inner_right, root_color, root_color-black}

-- Every way down meets `h` black nodes, and no red node has a red child.
abbrev pub HasBlacks : Shape → ℕ → Type 0
HasBlacks leaf h = h ≡ 0
HasBlacks (node rb_red l p r) h =
    (is_red_shape l ≡ false) × (is_red_shape r ≡ false) × HasBlacks l h × HasBlacks r h
HasBlacks (node rb_black l p r) zero = ⊥
HasBlacks (node rb_black l p r) (suc h) = HasBlacks l h × HasBlacks r h

abbrev pub IsRedBlack : Shape → Type 0
IsRedBlack t = (is_red_shape t ≡ false) × (h : ℕ) × HasBlacks t h

-- The colour above the hole.
abbrev pub is_red_above : WayUp → Bool
is_red_above top = false
is_red_above (in_left up c p r) = is_red c
is_red_above (in_right up c l p) = is_red c

-- A tree of `h` black nodes on every way down fits in, though its root may be red below a red node.
abbrev pub Takes : WayUp → ℕ → Type 0
Takes top h = Unit {0}
Takes (in_left up rb_black p r) h = HasBlacks r h × Takes up (suc h)
Takes (in_left up rb_red p r) h =
    (is_red_shape r ≡ false) × HasBlacks r h × (is_red_above up ≡ false) × Takes up h
Takes (in_right up rb_black l p) h = HasBlacks l h × Takes up (suc h)
Takes (in_right up rb_red l p) h =
    (is_red_shape l ≡ false) × HasBlacks l h × (is_red_above up ≡ false) × Takes up h

fill-HasBlacks :
    (up : WayUp) (t : Shape) (h : ℕ)
    → Takes up h
    → HasBlacks t h
    → (is_red_above up && is_red_shape t) ≡ false
    → (h' : ℕ) × HasBlacks (fill up t) h'
fill-HasBlacks top t h fits is ok = (h, is)
fill-HasBlacks (in_left up rb_black p r) t h (fr, rest) is ok =
    fill-HasBlacks up (node rb_black t p r) (suc h) rest (is, fr) (ground arith)
fill-HasBlacks (in_left up rb_red p r) t h (br, fr, above, rest) is ok =
    fill-HasBlacks up (node rb_red t p r) h rest (ok, br, is, fr) (ground (arith, above))
fill-HasBlacks (in_right up rb_black l p) t h (fl, rest) is ok =
    fill-HasBlacks up (node rb_black l p t) (suc h) rest (fl, is) (ground arith)
fill-HasBlacks (in_right up rb_red l p) t h (bl, fl, above, rest) is ok =
    fill-HasBlacks up (node rb_red l p t) h rest (bl, ok, fl, is) (ground (arith, above))

fill-black :
    (up : WayUp) (c : Color) (l : Shape) (p : Ptr) (r : Shape)
    → root_color up c ≡ rb_black
    → is_red_shape (fill up (node c l p r)) ≡ false
fill-black top c l p r h = ap is_red h
fill-black (in_left up c' p' r') c l p r h = fill-black up c' (node c l p r) p' r' h
fill-black (in_right up c' l' p') c l p r h = fill-black up c' l' p' (node c l p r) h

-- A black node in the hole.
fill-IsRedBlack :
    (up : WayUp) (l : Shape) (p : Ptr) (r : Shape) (h : ℕ)
    → Takes up (suc h)
    → HasBlacks l h
    → HasBlacks r h
    → root_color up rb_black ≡ rb_black
    → IsRedBlack (fill up (node rb_black l p r))
fill-IsRedBlack up l p r h fits bl br black =
    let (h', is) = fill-HasBlacks up (node rb_black l p r) (suc h) fits (bl, br) (ground arith) in
    (fill-black up rb_black l p r black, h', is)

-- The branches of `fix`, below a test.
branch :
    (t : Shape) (x y : Shape)
    → (is_red_shape t ≡ true → IsRedBlack x)
    → (is_red_shape t ≡ false → IsRedBlack y)
    → IsRedBlack (elim (is_red_shape t) [ true ↦ x | false ↦ y ])
branch leaf x y ex ey = ey refl
branch (node rb_red l p r) x y ex ey = ex refl
branch (node rb_black l p r) x y ex ey = ey refl

red≢black : {A : Type 0} → rb_red ≡ rb_black → A
red≢black e = absurd (false≢true (sym (ap is_red e)))

-- A red tree that is painted black has one more black node on every way.
paint-HasBlacks :
    (t : Shape) (h : ℕ) → is_red_shape t ≡ true → HasBlacks t h → HasBlacks (paint_black t) (suc h)
paint-HasBlacks leaf h red is = absurd (false≢true red)
paint-HasBlacks (node rb_black l p r) h red is = absurd (false≢true red)
paint-HasBlacks (node rb_red l p r) h red is = (is.2, is.3)

paint-black : (t : Shape) → is_red_shape (paint_black t) ≡ false
paint-black leaf = refl
paint-black (node c l p r) = refl

inner_left-IsRedBlack :
    (up : WayUp) (l : Shape) (p : Ptr) (t : Shape) (g : Ptr) (u : Shape) (h : ℕ)
    → is_red_shape t ≡ true
    → is_red_shape l ≡ false
    → is_red_shape u ≡ false
    → HasBlacks l h
    → HasBlacks t h
    → HasBlacks u h
    → Takes up (suc h)
    → root_color up rb_black ≡ rb_black
    → IsRedBlack (fill up (inner_left l p t g u))
inner_left-IsRedBlack up l p leaf g u h red bl bu il it iu fits black = absurd (false≢true red)
inner_left-IsRedBlack up l p (node rb_black a n b) g u h red bl bu il it iu fits black =
    absurd (false≢true red)
inner_left-IsRedBlack up l p (node rb_red a n b) g u h red bl bu il (ba, bb, ia, ib) iu fits black =
    fill-IsRedBlack up (node rb_red l p a) n (node rb_red b g u) h fits (bl, ba, il, ia)
      (bb, bu, ib, iu) black

-- From a red node without red children, `fix` makes a red-black tree of what the way up takes.
pub fix-IsRedBlack :
    (up : WayUp) (l : Shape) (n : Ptr) (r : Shape) (h : ℕ)
    → Takes up h
    → HasBlacks (node rb_red l n r) h
    → root_color up rb_black ≡ rb_black
    → IsRedBlack (fix up (node rb_red l n r))
fix-IsRedBlack top l n r h fits is black = (refl, suc h, (is.2, is.3))
fix-IsRedBlack (in_left up rb_black p u) l n r h (iu, fits) is black =
    fill-IsRedBlack up (node rb_red l n r) p u h fits is iu (root_color-black up rb_black black)
fix-IsRedBlack (in_right up rb_black u p) l n r h (iu, fits) is black =
    fill-IsRedBlack up u p (node rb_red l n r) h fits iu is (root_color-black up rb_black black)
fix-IsRedBlack (in_left top rb_red p u) l n r h fits is black = red≢black black
fix-IsRedBlack (in_right top rb_red u p) l n r h fits is black = red≢black black
fix-IsRedBlack (in_left (in_left up rb_red g u) rb_red p r') l n r h fits is black =
    absurd (false≢true (sym fits.2))
fix-IsRedBlack (in_left (in_right up rb_red u g) rb_red p r') l n r h fits is black =
    absurd (false≢true (sym fits.2))
fix-IsRedBlack (in_right (in_left up rb_red g u) rb_red l' p) l n r h fits is black =
    absurd (false≢true (sym fits.2))
fix-IsRedBlack (in_right (in_right up rb_red u g) rb_red l' p) l n r h fits is black =
    absurd (false≢true (sym fits.2))
fix-IsRedBlack (in_left (in_left up rb_black g u) rb_red p r') l n r h (br, ir, above, (iu, fits))
      is black =
    let t : Shape = node rb_red l n r in
    let black' = root_color-black up rb_black black in
    branch u (fix up (node rb_red (node rb_black t p r') g (paint_black u)))
      (fill up (node rb_black t p (node rb_red r' g u)))
      (λ red.
        fix-IsRedBlack up (node rb_black t p r') g (paint_black u) (suc h) fits
          (refl, paint-black u, (is, ir), paint-HasBlacks u h red iu) black')
      (λ bu. fill-IsRedBlack up t p (node rb_red r' g u) h fits is (br, bu, ir, iu) black')
fix-IsRedBlack (in_right (in_left up rb_black g u) rb_red l' p) l n r h (bl, il, above, (iu, fits))
      is black =
    let t : Shape = node rb_red l n r in
    let black' = root_color-black up rb_black black in
    branch u (fix up (node rb_red (node rb_black l' p t) g (paint_black u)))
      (fill up (inner_left l' p t g u))
      (λ red.
        fix-IsRedBlack up (node rb_black l' p t) g (paint_black u) (suc h) fits
          (refl, paint-black u, (il, is), paint-HasBlacks u h red iu) black')
      (λ bu. inner_left-IsRedBlack up l' p t g u h refl bl bu il is iu fits black')
fix-IsRedBlack (in_left (in_right up rb_black u g) rb_red p r') l n r h (br, ir, above, (iu, fits))
      is black =
    let t : Shape = node rb_red l n r in
    let black' = root_color-black up rb_black black in
    branch u (fix up (node rb_red (paint_black u) g (node rb_black t p r')))
      (fill up (inner_right u g t p r'))
      (λ red.
        fix-IsRedBlack up (paint_black u) g (node rb_black t p r') (suc h) fits
          (paint-black u, refl, paint-HasBlacks u h red iu, (is, ir)) black')
      (λ bu. inner_left-IsRedBlack up u g t p r' h refl bu br iu is ir fits black')
fix-IsRedBlack (in_right (in_right up rb_black u g) rb_red l' p) l n r h (bl, il, above, (iu, fits))
      is black =
    let t : Shape = node rb_red l n r in
    let black' = root_color-black up rb_black black in
    branch u (fix up (node rb_red (paint_black u) g (node rb_black l' p t)))
      (fill up (node rb_black (node rb_red u g l') p t))
      (λ red.
        fix-IsRedBlack up (paint_black u) g (node rb_black l' p t) (suc h) fits
          (paint-black u, refl, paint-HasBlacks u h red iu, (il, is)) black')
      (λ bu. fill-IsRedBlack up (node rb_red u g l') p t h fits (bu, bl, iu, il) is black')
