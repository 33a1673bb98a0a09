-- ===== src/Rbtree/Rotation.antt =====
-- A rotation of common/rbtree.c, as a whole.
use mathlib.Core.Path.{subst}
use mathlib.Core.List.{append_assoc}
use neftis.Base.{
  ◌+◌, ◌≤◌, ◌≡◌, ◌∙◌, refl, sym, ap, ◌++◌, ◌∷◌, arith, ne→==, count, IsOnce, one, one_self,
}
use neftis.Base.Run.{Returns, ok}
use neftis.Rbtree.{Ptr, null, Color, Store}
use neftis.Rbtree.Shape.{
  Shape, leaf, node, WayUp, top, in_left, in_right, inorder, before, after, whole, IsTree,
  IsContext, count-whole, count-node, IsTree-frame, IsContext-frame,
}
use neftis.Rbtree.Rotate.{replaced, replace_child-run, replaced-IsContext, replaced-Agrees}
use neftis.Rbtree.Turn.{
  adopted, turned_left, turned_right, turned_left-Agrees, turned_right-Agrees, turned_left-IsTree,
  turned_right-IsTree,
}
use neftis.Rbtree.Balance.{set_parent_of, rbtree_node_rotate_left, rbtree_node_rotate_right}

-- What the balancing leaves alone: the keys, the data, the list and the cache.
pub record Kept (s g : Store) : Type 0 where
  pub keys : g.key ≡ s.key
  pub prevs : g.prev ≡ s.prev
  pub nexts : g.next ≡ s.next
  pub firsts : g.first ≡ s.first
  pub lasts : g.last ≡ s.last
  pub contents : g.data_of ≡ s.data_of
  pub caches : g.cached_node ≡ s.cached_node
  pub dtors : g.node_dtor ≡ s.node_dtor
  pub traces : g.destroyed ≡ s.destroyed

pub Kept-refl : (s : Store) → Kept s s
Kept-refl s = record {
  keys = refl;
  prevs = refl;
  nexts = refl;
  firsts = refl;
  lasts = refl;
  contents = refl;
  caches = refl;
  dtors = refl;
  traces = refl;
}

pub Kept-trans : (s g h : Store) → Kept s g → Kept g h → Kept s h
Kept-trans s g h k l = record {
  keys = l.keys ∙ k.keys;
  prevs = l.prevs ∙ k.prevs;
  nexts = l.nexts ∙ k.nexts;
  firsts = l.firsts ∙ k.firsts;
  lasts = l.lasts ∙ k.lasts;
  contents = l.contents ∙ k.contents;
  caches = l.caches ∙ k.caches;
  dtors = l.dtors ∙ k.dtors;
  traces = l.traces ∙ k.traces;
}

replaced-Kept : (s : Store) (n : Ptr) (up : WayUp) → Kept s (replaced up n s)
replaced-Kept s n top = record {
  keys = refl;
  prevs = refl;
  nexts = refl;
  firsts = refl;
  lasts = refl;
  contents = refl;
  caches = refl;
  dtors = refl;
  traces = refl;
}
replaced-Kept s n (in_left up c p r) = record {
  keys = refl;
  prevs = refl;
  nexts = refl;
  firsts = refl;
  lasts = refl;
  contents = refl;
  caches = refl;
  dtors = refl;
  traces = refl;
}
replaced-Kept s n (in_right up c l p) = record {
  keys = refl;
  prevs = refl;
  nexts = refl;
  firsts = refl;
  lasts = refl;
  contents = refl;
  caches = refl;
  dtors = refl;
  traces = refl;
}

-- A tree at `q` below `par` in its context.
pub record At (s : Store) (up : WayUp) (t : Shape) (q par : Ptr) : Type 0 where
  pub around : IsContext s up q par
  pub tree : IsTree s par t q

set_parent_of-run :
    (s : Store) (par : Ptr) (t : Shape) (q p : Ptr)
    → IsTree s par t q
    → (h : Store) → set_parent_of q p h ≡ ok tt (record h { parent = adopted t p h.parent })
unfolding set_parent_of
set_parent_of-run s par leaf q p is h = rw is
set_parent_of-run s par (node c l t r) q p is h = rw (is.0, ne→== t null is.1)

-- The nodes that a turn concerns, and those around them.
pub spread :
    (up : WayUp) (cp cn : Color) (a : Shape) (p : Ptr) (b : Shape) (n : Ptr) (c : Shape)
    → IsOnce (whole up (node cp a p (node cn b n c)))
    → (x : Ptr)
    → count x (before up)
        + count x (after up)
        + count x (inorder a)
        + one x p
        + count x (inorder b)
        + one x n
        + count x (inorder c)
      ≤ 1
spread up cp cn a p b n c once x = omega (
  arith,
  once x,
  count-whole x up (node cp a p (node cn b n c)),
  count-node x cp a p (node cn b n c),
  count-node x cn b n c,
)

-- A rotation keeps the order of the nodes.
pub whole-turn :
    (up : WayUp) (cp cn cp' cn' : Color) (a : Shape) (p : Ptr) (b : Shape) (n : Ptr) (c : Shape)
    → whole up (node cp a p (node cn b n c)) ≡ whole up (node cn' (node cp' a p b) n c)
whole-turn up cp cn cp' cn' a p b n c =
    ap (λ xs. before up ++ xs ++ after up)
      (sym (append_assoc (inorder a) (p ∷ inorder b) (n ∷ inorder c)))

turned_left-Kept :
    (p n t g : Ptr) (b : Shape) (s h : Store) → Kept s h → Kept s (turned_left p n t g b h)
turned_left-Kept p n t g b s h k = record {
  keys = k.keys;
  prevs = k.prevs;
  nexts = k.nexts;
  firsts = k.firsts;
  lasts = k.lasts;
  contents = k.contents;
  caches = k.caches;
  dtors = k.dtors;
  traces = k.traces;
}

turned_right-Kept :
    (p n t g : Ptr) (b : Shape) (s h : Store) → Kept s h → Kept s (turned_right p n t g b h)
turned_right-Kept p n t g b s h k = record {
  keys = k.keys;
  prevs = k.prevs;
  nexts = k.nexts;
  firsts = k.firsts;
  lasts = k.lasts;
  contents = k.contents;
  caches = k.caches;
  dtors = k.dtors;
  traces = k.traces;
}

module _ (s : Store) (up : WayUp) (cp cn : Color) (a : Shape) (p : Ptr) (b : Shape) (n : Ptr)
    (c : Shape) (g : Ptr) where
  rotate_left-run :
      At s up (node cp a p (node cn b n c)) p g
      → IsOnce (whole up (node cp a p (node cn b n c)))
      → rbtree_node_rotate_left p s ≡ ok tt (turned_left p n (s.left n) g b (replaced up n s))
  unfolding rbtree_node_rotate_left
  rotate_left-run is once =
      let (e, np, up_p, col, ta, (e', nn, up_n, col', tb, tc)) = is.tree in
      let sum = spread up cp cn a p b n c once in
      rw
        (
          ne→== p null np,
          up_p,
          e',
          ne→== n null nn,
          replace_child-run s p n up g is.around np (omega (arith, sum p, one_self p)),
          set_parent_of-run s n b (s.left n) p tb,
        )
        refl

  -- The turn in its context, once `n` is in the hole.
  turned-At :
      At s up (node cp a p (node cn b n c)) p g
      → IsOnce (whole up (node cp a p (node cn b n c)))
      → At (turned_left p n (s.left n) g b (replaced up n s)) up (node cn (node cp a p b) n c) n g
  turned-At is once =
      let sum = spread up cp cn a p b n c once in
      let s1 : Store = replaced up n s in
      let s' : Store = turned_left p n (s.left n) g b s1 in
      let around = replaced-IsContext s p n up g (λ x. omega (arith, sum x)) is.around in
      let tree =
        IsTree-frame s s1 g (node cp a p (node cn b n c)) p
          (λ x i.
            replaced-Agrees s n up x
              (omega (arith, i, once x, count-whole x up (node cp a p (node cn b n c)))))
          is.tree in
      record {
        around =
            IsContext-frame s1 s' up n g refl
              (λ x i.
                turned_left-Agrees up a p b n c sum s1 g cp cn (s.left n) x (omega (arith, i)))
              around;
        tree =
            subst (λ t. IsTree (turned_left p n t g b s1) g (node cn (node cp a p b) n c) n)
              (replaced-Agrees s n up n (omega (arith, sum n, one_self n))).lefts
              (turned_left-IsTree up a p b n c sum s1 g cp cn tree);
      }

  -- `rbtree_node_rotate_left` at `p` turns it with its right child, and nothing else changes.
  pub rotate_left-At :
      At s up (node cp a p (node cn b n c)) p g
      → IsOnce (whole up (node cp a p (node cn b n c)))
      → Returns
          (λ _ s'. At s' up (node cn (node cp a p b) n c) n g × Kept s s')
          (rbtree_node_rotate_left p s)
  rotate_left-At is once =
      subst (Returns (λ _ s'. At s' up (node cn (node cp a p b) n c) n g × Kept s s'))
        (sym (rotate_left-run is once))
        (
          turned-At is once,
          turned_left-Kept p n (s.left n) g b s (replaced up n s) (replaced-Kept s n up),
        )

  -- The nodes of the other turn.
  turn-IsOnce :
      IsOnce (whole up (node cn (node cp a p b) n c))
      → IsOnce (whole up (node cp a p (node cn b n c)))
  turn-IsOnce once = subst IsOnce (sym (whole-turn up cp cn cp cn a p b n c)) once

  rotate_right-run :
      At s up (node cn (node cp a p b) n c) n g
      → IsOnce (whole up (node cn (node cp a p b) n c))
      → rbtree_node_rotate_right n s ≡ ok tt (turned_right p n (s.right p) g b (replaced up p s))
  unfolding rbtree_node_rotate_right
  rotate_right-run is once =
      let (e, nn, up_n, col, (e', np, up_p, col', ta, tb), tc) = is.tree in
      let sum = spread up cp cn a p b n c (turn-IsOnce once) in
      rw
        (
          ne→== n null nn,
          up_n,
          e',
          ne→== p null np,
          replace_child-run s n p up g is.around nn (omega (arith, sum n, one_self n)),
          set_parent_of-run s p b (s.right p) n tb,
        )
        refl

  turned_right-At :
      At s up (node cn (node cp a p b) n c) n g
      → IsOnce (whole up (node cn (node cp a p b) n c))
      → At (turned_right p n (s.right p) g b (replaced up p s)) up (node cp a p (node cn b n c)) p g
  turned_right-At is once =
      let sum = spread up cp cn a p b n c (turn-IsOnce once) in
      let s1 : Store = replaced up p s in
      let s' : Store = turned_right p n (s.right p) g b s1 in
      let around = replaced-IsContext s n p up g (λ x. omega (arith, sum x)) is.around in
      let tree =
        IsTree-frame s s1 g (node cn (node cp a p b) n c) n
          (λ x i.
            replaced-Agrees s p up x
              (omega (arith, i, once x, count-whole x up (node cn (node cp a p b) n c))))
          is.tree in
      record {
        around =
            IsContext-frame s1 s' up p g refl
              (λ x i.
                turned_right-Agrees up a p b n c sum s1 g cp cn (s.right p) x (omega (arith, i)))
              around;
        tree =
            subst (λ t. IsTree (turned_right p n t g b s1) g (node cp a p (node cn b n c)) p)
              (replaced-Agrees s p up p (omega (arith, sum p, one_self p))).rights
              (turned_right-IsTree up a p b n c sum s1 g cp cn tree);
      }

  -- `rbtree_node_rotate_right` at `n` turns it with its left child, and nothing else changes.
  pub rotate_right-At :
      At s up (node cn (node cp a p b) n c) n g
      → IsOnce (whole up (node cn (node cp a p b) n c))
      → Returns
          (λ _ s'. At s' up (node cp a p (node cn b n c)) p g × Kept s s')
          (rbtree_node_rotate_right n s)
  rotate_right-At is once =
      subst (Returns (λ _ s'. At s' up (node cp a p (node cn b n c)) p g × Kept s s'))
        (sym (rotate_right-run is once))
        (
          turned_right-At is once,
          turned_right-Kept p n (s.right p) g b s (replaced up p s) (replaced-Kept s p up),
        )
