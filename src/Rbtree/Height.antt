-- ===== src/Rbtree/Height.antt =====
-- A red-black tree is not high: a walk down the tree of common/rbtree.c is short.
use native.Mathlib.Numerals.{unary_clauses}
use mathlib.Core.Path.{subst}
use neftis.Base.{
  sym, ℕ, zero, suc, ◌+◌, ◌*◌, ◌^◌, ◌≤◌, ◌∷◌, arith, length, length-append, if◌then◌else◌,
}
use neftis.Base.Run.{Returns}
use neftis.Rbtree.{Store, SearchMode, rb_red, rb_black}
use neftis.Rbtree.Shape.{Shape, leaf, node, inorder}
use neftis.Rbtree.Cases.{is_red_shape}
use neftis.Rbtree.RedBlack.{HasBlacks, IsRedBlack}
use neftis.Rbtree.Descend.{height}
use neftis.Rbtree.Invariant.{IsWell}
use neftis.Rbtree.Lookup.{IsCached, Found, rbtree_search-Found}
use neftis.Rbtree.Operations.{rbtree_search}

abbrev extra : Shape → ℕ
extra t = if is_red_shape t then 1 else 0

height-blacks : (t : Shape) (h : ℕ) → HasBlacks t h → height t ≤ 2 * h + extra t
height-blacks leaf h is = omega arith
height-blacks (node rb_red l p r) h (bl, br, il, ir) =
    ground (arith, height-blacks l h il, height-blacks r h ir)
height-blacks (node rb_black l p r) zero is = elim is [ ]
height-blacks (node rb_black l p r) (suc h) (il, ir) =
    ground (arith, height-blacks l h il, height-blacks r h ir)

size-blacks : (t : Shape) (h : ℕ) → HasBlacks t h → 2 ^ h ≤ suc (length (inorder t))
size-blacks leaf h is = subst (λ j. 2 ^ j ≤ 1) (sym is) (omega arith)
size-blacks (node rb_red l p r) h (bl, br, il, ir) =
    omega (arith, size-blacks l h il, size-blacks r h ir, length-append (inorder l) (p ∷ inorder r))
size-blacks (node rb_black l p r) zero is = elim is [ ]
size-blacks (node rb_black l p r) (suc h) (il, ir) = simp unary_clauses (
    omega
      (arith, size-blacks l h il, size-blacks r h ir, length-append (inorder l) (p ∷ inorder r)))

-- A red-black tree is at most twice as high as the logarithm of the number of its nodes and one.
pub IsRedBlack-height :
    (t : Shape) → IsRedBlack t → (h : ℕ) × (height t ≤ 2 * h) × (2 ^ h ≤ suc (length (inorder t)))
IsRedBlack-height t (black, h, is) =
    (h, ground (arith, height-blacks t h is, black), size-blacks t h is)

-- The fuel of a search need not be more than twice the logarithm of the number of nodes and one: in
-- a well-formed tree whose cache is right, `rbtree_search` has then found its node.
pub rbtree_search-steps :
    (s : Store) (t : Shape) (k : ℕ) (mode : SearchMode)
    → IsWell s t
    → IsCached s t
    → (h : ℕ) × (2 ^ h ≤ suc (length (inorder t)))
      × Returns (Found s t k mode) (rbtree_search (2 * h) k mode s)
rbtree_search-steps s t k mode is cached =
    let (h, low, large) = IsRedBlack-height t is.balanced in
    (h, large, rbtree_search-Found s t k mode (2 * h) is cached low)
