-- ===== src/Rbtree/Rebalance.antt =====
-- `rbtree_insert_case_1` of common/rbtree.c does to the pointers what `fix` does to the shape.
use mathlib.Core.Path.{subst}
use mathlib.Core.Bool.{false≢true}
use neftis.Base.{ℕ, zero, suc, true, false, ◌<◌, ◌≡◌, ◌≢◌, ◌∙◌, refl, sym, ap, arith, ne→==, IsOnce}
use neftis.Base.Run.{Run, ok, Returns, Returns-mono}
use neftis.Rbtree.{Ptr, null, Color, rb_red, rb_black, Store, is_red}
use neftis.Rbtree.Shape.{
  Shape, leaf, node, WayUp, top, in_left, in_right, whole, fill, whole-left, whole-right,
}
use neftis.Rbtree.Rotation.{At, Kept, Kept-refl, Kept-trans}
use neftis.Rbtree.Paint.{colored, paint_root, from_left, from_right, fill-IsTree}
use neftis.Rbtree.Balance.{
  rbtree_insert_case_1, rbtree_insert_case_2, rbtree_insert_case_3, rbtree_insert_case_4,
}
use neftis.Rbtree.Cases.{is_red_shape, case_2-black, case_2-red}
use neftis.Rbtree.Fix.{
  fix, paint_black, inner_left, inner_right, depth, root_color, root_color-black,
}
use neftis.Rbtree.Uncle.{case_3_left-black, case_3_right-black, case_3_left-red, case_3_right-red}
use neftis.Rbtree.Outer.{Balanced, case_4-outer_left, case_4-outer_right}
use neftis.Rbtree.Inner.{case_4-inner_left, case_4-inner_right}

case_1-root :
    (fuel : ℕ) (s : Store) (n : Ptr)
    → n ≢ null
    → s.parent n ≡ null
    → rbtree_insert_case_1 (suc fuel) n s ≡ ok tt (colored n rb_black s)
unfolding rbtree_insert_case_1
case_1-root fuel s n nn above = rw (ne→== n null nn, above)

case_1-below :
    (fuel : ℕ) (s : Store) (n p : Ptr)
    → n ≢ null
    → s.parent n ≡ p
    → p ≢ null
    → rbtree_insert_case_1 (suc fuel) n s ≡ rbtree_insert_case_2 (rbtree_insert_case_1 fuel) n s
unfolding rbtree_insert_case_1
case_1-below fuel s n p nn above np = rw (ne→== n null nn, above, ne→== p null np)

red≢black : {A : Type 0} → rb_red ≡ rb_black → A
red≢black e = absurd (false≢true (sym (ap is_red e)))

-- A result for a later store is one for an earlier one.
later :
    (s s' : Store) (t : Shape) (r : Run Store (Unit {0}))
    → Kept s s'
    → Returns (Balanced s' t) r
    → Returns (Balanced s t) r
later s s' t r kept run =
    Returns-mono {P = Balanced s' t} {Q = Balanced s t} r run
      (λ _ h (tree, kept'). (tree, Kept-trans s s' h kept kept'))

-- What is to be shown of a way up.
abbrev Fixes : ℕ → WayUp → Type 0
Fixes fuel up =
    (s : Store) (l : Shape) (n : Ptr) (r : Shape) (par : Ptr)
    → At s up (node rb_red l n r) n par
    → IsOnce (whole up (node rb_red l n r))
    → root_color up rb_black ≡ rb_black
    → depth up < fuel
    → Returns (Balanced s (fix up (node rb_red l n r))) (rbtree_insert_case_1 fuel n s)

-- Case 3 or 4, with the parent on the left of the grandparent: `turned` is what case 4 makes of it.
module _ (fuel : ℕ) (s : Store) (up : WayUp) (cg : Color) (pl : Shape) (p : Ptr) (pr : Shape)
    (g : Ptr) (gg n : Ptr) (nn : n ≢ null) (above : s.parent n ≡ p) (again : Fixes fuel up)
    (black : root_color up rb_black ≡ rb_black) (enough : depth up < fuel) where
  left_uncle :
      (u turned : Shape)
      → At s up (node cg (node rb_red pl p pr) g u) g gg
      → IsOnce (whole up (node cg (node rb_red pl p pr) g u))
      → (is_red_shape u ≡ false → Returns (Balanced s (fill up turned)) (rbtree_insert_case_4 n s))
      → Returns
          (Balanced s (elim (is_red_shape u) [
            | true ↦ fix up (node rb_red (node rb_black pl p pr) g (paint_black u))
            | false ↦ fill up turned
          ]))
          (rbtree_insert_case_3 (rbtree_insert_case_1 fuel) n s)
  left_uncle leaf turned is once case_4 =
      subst (Returns (Balanced s (fill up turned)))
        (sym (
          case_3_left-black s up cg rb_red pl p pr g leaf gg n nn above is once
            (rbtree_insert_case_1 fuel) refl))
        (case_4 refl)
  left_uncle (node rb_black ul x ur) turned is once case_4 =
      subst (Returns (Balanced s (fill up turned)))
        (sym (
          case_3_left-black s up cg rb_red pl p pr g (node rb_black ul x ur) gg n nn above is once
            (rbtree_insert_case_1 fuel) refl))
        (case_4 refl)
  left_uncle (node rb_red ul x ur) turned is once case_4 =
      let t : Shape = fix up (node rb_red (node rb_black pl p pr) g (node rb_black ul x ur)) in
      case_3_left-red s up cg rb_red pl p pr g ul x ur gg n nn above (Balanced s t)
        (rbtree_insert_case_1 fuel) is once
        (λ s' is' kept.
          later s s' t (rbtree_insert_case_1 fuel g s') kept
            (again s' (node rb_black pl p pr) g (node rb_black ul x ur) gg is' once black enough))

  right_uncle :
      (u turned : Shape)
      → At s up (node cg u g (node rb_red pl p pr)) g gg
      → IsOnce (whole up (node cg u g (node rb_red pl p pr)))
      → (is_red_shape u ≡ false → Returns (Balanced s (fill up turned)) (rbtree_insert_case_4 n s))
      → Returns
          (Balanced s (elim (is_red_shape u) [
            | true ↦ fix up (node rb_red (paint_black u) g (node rb_black pl p pr))
            | false ↦ fill up turned
          ]))
          (rbtree_insert_case_3 (rbtree_insert_case_1 fuel) n s)
  right_uncle leaf turned is once case_4 =
      subst (Returns (Balanced s (fill up turned)))
        (sym (
          case_3_right-black s up cg rb_red pl p pr g leaf gg n nn above is once
            (rbtree_insert_case_1 fuel) refl))
        (case_4 refl)
  right_uncle (node rb_black ul x ur) turned is once case_4 =
      subst (Returns (Balanced s (fill up turned)))
        (sym (
          case_3_right-black s up cg rb_red pl p pr g (node rb_black ul x ur) gg n nn above is once
            (rbtree_insert_case_1 fuel) refl))
        (case_4 refl)
  right_uncle (node rb_red ul x ur) turned is once case_4 =
      let t : Shape = fix up (node rb_red (node rb_black ul x ur) g (node rb_black pl p pr)) in
      case_3_right-red s up cg rb_red pl p pr g ul x ur gg n nn above (Balanced s t)
        (rbtree_insert_case_1 fuel) is once
        (λ s' is' kept.
          later s s' t (rbtree_insert_case_1 fuel g s') kept
            (again s' (node rb_black ul x ur) g (node rb_black pl p pr) gg is' once black enough))

-- Case 1 and 2, below a node `p` of the colour `c`.
below :
    (fuel : ℕ) (s : Store) (n p : Ptr) (c : Color) (t : Shape)
    → n ≢ null
    → s.parent n ≡ p
    → p ≢ null
    → s.color p ≡ c
    → (c ≡ rb_black → Balanced s t tt s)
    → (c ≡ rb_red → Returns (Balanced s t) (rbtree_insert_case_3 (rbtree_insert_case_1 fuel) n s))
    → Returns (Balanced s t) (rbtree_insert_case_1 (suc fuel) n s)
below fuel s n p rb_black t nn above np col black red =
    subst (Returns (Balanced s t))
      (sym (
        case_1-below fuel s n p nn above np
        ∙ case_2-black s n p nn np above (rbtree_insert_case_1 fuel) col))
      (black refl)
below fuel s n p rb_red t nn above np col black red =
    subst (Returns (Balanced s t))
      (sym (
        case_1-below fuel s n p nn above np
        ∙ case_2-red s n p nn np above (rbtree_insert_case_1 fuel) col))
      (red refl)

-- `rbtree_insert_case_1` from a red node, in a tree whose root is black, with more fuel than the
-- node is deep, makes the tree that `fix` says and leaves keys, data, list and cache alone.
pub case_1-fix : (fuel : ℕ) (up : WayUp) → Fixes fuel up
case_1-fix zero up s l n r par is once black enough = elim enough [ ]
case_1-fix (suc fuel) top s l n r par is once black enough =
    subst (Returns (Balanced s (node rb_black l n r)))
      (sym (case_1-root fuel s n is.tree.1 (is.tree.2 ∙ is.around.1)))
      (
        fill-IsTree (colored n rb_black s) top (node rb_black l n r) n par
            (paint_root s n rb_black top rb_red l r n par once is),
        record {
          keys = refl;
          prevs = refl;
          nexts = refl;
          firsts = refl;
          lasts = refl;
          contents = refl;
          caches = refl;
          dtors = refl;
          traces = refl;
        },
      )
case_1-fix (suc fuel) (in_left up rb_black p u) s l n r par is once black enough =
    below fuel s n p rb_black (fix (in_left up rb_black p u) (node rb_red l n r)) is.tree.1
      (is.tree.2 ∙ is.around.0) is.around.1 is.around.3
      (λ _. (fill-IsTree s (in_left up rb_black p u) (node rb_red l n r) n par is, Kept-refl s))
      (λ e. red≢black (sym e))
case_1-fix (suc fuel) (in_right up rb_black u p) s l n r par is once black enough =
    below fuel s n p rb_black (fix (in_right up rb_black u p) (node rb_red l n r)) is.tree.1
      (is.tree.2 ∙ is.around.0) is.around.1 is.around.3
      (λ _. (fill-IsTree s (in_right up rb_black u p) (node rb_red l n r) n par is, Kept-refl s))
      (λ e. red≢black (sym e))
case_1-fix (suc fuel) (in_left top rb_red p u) s l n r par is once black enough = red≢black black
case_1-fix (suc fuel) (in_right top rb_red u p) s l n r par is once black enough = red≢black black
case_1-fix (suc fuel) (in_left (in_left up cg g u) rb_red p pr) s l n r par is once black enough =
    let t : Shape = node rb_red l n r in
    let above = is.tree.2 ∙ is.around.0 in
    let is_p = from_left s (in_left up cg g u) rb_red p t pr n par is in
    let is_g = from_left s up cg g (node rb_red t p pr) u p (s.parent p) is_p in
    let once_p = subst IsOnce (whole-left (in_left up cg g u) rb_red p pr t) once in
    let once_g = subst IsOnce (whole-left up cg g u (node rb_red t p pr)) once_p in
    below fuel s n p rb_red (fix (in_left (in_left up cg g u) rb_red p pr) t) is.tree.1 above
      is.around.1 is.around.3 (λ e. red≢black e)
      (λ _.
        left_uncle fuel s up cg t p pr g (s.parent g) n is.tree.1 above (case_1-fix fuel up)
          (root_color-black up cg black) (omega (arith, enough)) u
          (node rb_black t p (node rb_red pr g u)) is_g once_g
          (λ _. case_4-outer_left s up cg rb_red g u (s.parent g) rb_red l n r p pr is_g once_g))
case_1-fix (suc fuel) (in_right (in_left up cg g u) rb_red pl p) s l n r par is once black enough =
    let t : Shape = node rb_red l n r in
    let above = is.tree.2 ∙ is.around.0 in
    let is_p = from_right s (in_left up cg g u) rb_red p t pl n par is in
    let is_g = from_left s up cg g (node rb_red pl p t) u p (s.parent p) is_p in
    let once_p = subst IsOnce (whole-right (in_left up cg g u) rb_red pl p t) once in
    let once_g = subst IsOnce (whole-left up cg g u (node rb_red pl p t)) once_p in
    below fuel s n p rb_red (fix (in_right (in_left up cg g u) rb_red pl p) t) is.tree.1 above
      is.around.1 is.around.3 (λ e. red≢black e)
      (λ _.
        left_uncle fuel s up cg pl p t g (s.parent g) n is.tree.1 above (case_1-fix fuel up)
          (root_color-black up cg black) (omega (arith, enough)) u (inner_left pl p t g u) is_g
          once_g
          (λ _. case_4-inner_left s up cg rb_red g u (s.parent g) rb_red l n r p pl is_g once_g))
case_1-fix (suc fuel) (in_left (in_right up cg u g) rb_red p pr) s l n r par is once black enough =
    let t : Shape = node rb_red l n r in
    let above = is.tree.2 ∙ is.around.0 in
    let is_p = from_left s (in_right up cg u g) rb_red p t pr n par is in
    let is_g = from_right s up cg g (node rb_red t p pr) u p (s.parent p) is_p in
    let once_p = subst IsOnce (whole-left (in_right up cg u g) rb_red p pr t) once in
    let once_g = subst IsOnce (whole-right up cg u g (node rb_red t p pr)) once_p in
    below fuel s n p rb_red (fix (in_left (in_right up cg u g) rb_red p pr) t) is.tree.1 above
      is.around.1 is.around.3 (λ e. red≢black e)
      (λ _.
        right_uncle fuel s up cg t p pr g (s.parent g) n is.tree.1 above (case_1-fix fuel up)
          (root_color-black up cg black) (omega (arith, enough)) u (inner_right u g t p pr) is_g
          once_g
          (λ _. case_4-inner_right s up cg rb_red g u (s.parent g) rb_red l n r p pr is_g once_g))
case_1-fix (suc fuel) (in_right (in_right up cg u g) rb_red pl p) s l n r par is once black enough =
    let t : Shape = node rb_red l n r in
    let above = is.tree.2 ∙ is.around.0 in
    let is_p = from_right s (in_right up cg u g) rb_red p t pl n par is in
    let is_g = from_right s up cg g (node rb_red pl p t) u p (s.parent p) is_p in
    let once_p = subst IsOnce (whole-right (in_right up cg u g) rb_red pl p t) once in
    let once_g = subst IsOnce (whole-right up cg u g (node rb_red pl p t)) once_p in
    below fuel s n p rb_red (fix (in_right (in_right up cg u g) rb_red pl p) t) is.tree.1 above
      is.around.1 is.around.3 (λ e. red≢black e)
      (λ _.
        right_uncle fuel s up cg pl p t g (s.parent g) n is.tree.1 above (case_1-fix fuel up)
          (root_color-black up cg black) (omega (arith, enough)) u
          (node rb_black (node rb_red u g pl) p t) is_g once_g
          (λ _. case_4-outer_right s up cg rb_red g u (s.parent g) rb_red l n r p pl is_g once_g))
